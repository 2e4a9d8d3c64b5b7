-- ===== src/Driver/Triples.antt =====
-- Conditions before and after the calls of Driver, one for each way in which a call ends. Nothing is
-- said of a call that panics.
use gox_browser.Driver.{
  ◌>>=◌, ◌>>◌, Call, Exit, after, fail, failed_with, ignoring, panics, rescue, rescued, return,
  returned, wrapping,
}
use gox_browser.Prelude.{Bool, false, if◌then◌else◌, true}
use gox_browser.Errors.{Error, wrap}
use gox_browser.Prelude.Text.{Text}

abbrev pub Ends : {S A : Type 0} → (A → S → Type 0) → (S → Type 0) → S × Exit A → Type 0
Ends Q E (s, returned a) = Q a s
Ends Q E (s, failed_with e) = E s
Ends Q E (s, panics t) = Unit

pub record Meets {S A : Type 0} (P : S → Type 0) (m : Call S A) (Q : A → S → Type 0)
    (E : S → Type 0) : Type 0 where
  pub ends : (s : S) → P s → Ends Q E (m s)

Ends-after :
    {S A B : Type 0} (Q : A → S → Type 0) (R : B → S → Type 0) (E : S → Type 0) (f : A → Call S B)
    (r : S × Exit A)
    → Ends Q E r
    → ((a : A) → Meets (Q a) (f a) R E)
    → Ends R E (after f r)
Ends-after Q R E f (s, returned a) q h = (h a).ends s q
Ends-after Q R E f (s, failed_with e) q h = q
Ends-after Q R E f (s, panics t) q h = tt

Ends-rescued :
    {S A : Type 0} (Q : A → S → Type 0) (E F : S → Type 0) (h : Error → Call S A) (r : S × Exit A)
    → Ends Q E r
    → ((e : Error) → Meets E (h e) Q F)
    → Ends Q F (rescued h r)
Ends-rescued Q E F h (s, returned a) q k = q
Ends-rescued Q E F h (s, failed_with e) q k = (k e).ends s q
Ends-rescued Q E F h (s, panics t) q k = tt

module _ {S A B : Type 0} {P : S → Type 0} {Q : A → S → Type 0} {R : B → S → Type 0}
    {E : S → Type 0} where
  pub Meets-bind :
      (m : Call S A) (f : A → Call S B)
      → Meets P m Q E
      → ((a : A) → Meets (Q a) (f a) R E)
      → Meets P (m >>= f) R E
  Meets-bind m f h k = record { ends = λ s p. Ends-after Q R E f (m s) (h.ends s p) k }

module _ {S B : Type 0} {P Q : S → Type 0} {R : B → S → Type 0} {E : S → Type 0} where
  pub Meets-then :
      (m : Call S Unit) (k : Call S B) → Meets P m (λ u. Q) E → Meets Q k R E → Meets P (m >> k) R E
  Meets-then m k h g = Meets-bind m (λ u. k) h (λ u. g)

module _ {S A : Type 0} {P : S → Type 0} {Q : A → S → Type 0} {E F : S → Type 0} where
  pub Meets-rescue :
      (m : Call S A) (h : Error → Call S A)
      → Meets P m Q E
      → ((e : Error) → Meets E (h e) Q F)
      → Meets P (rescue m h) Q F
  Meets-rescue m h before k = record {
    ends = λ s p. Ends-rescued Q E F h (m s) (before.ends s p) k;
  }

module _ {S A : Type 0} {P : S → Type 0} {Q : A → S → Type 0} {E : S → Type 0} where
  pub Meets-return : (a : A) → ((s : S) → P s → Q a s) → Meets P (return a) Q E
  Meets-return a h = record { ends = h }

  pub Meets-fail : (e : Error) → ((s : S) → P s → E s) → Meets P (fail {S = S} {A = A} e) Q E
  Meets-fail e h = record { ends = h }

  pub Meets-if :
      (b : Bool) (m k : Call S A) → Meets P m Q E → Meets P k Q E → Meets P (if b then m else k) Q E
  Meets-if true m k h g = h
  Meets-if false m k h g = g

  pub Meets-wrapping : (text : Text) (m : Call S A) → Meets P m Q E → Meets P (wrapping text m) Q E
  Meets-wrapping text m h =
      Meets-rescue m (λ e. fail (wrap text e)) h (λ e. record { ends = λ s p. p })

module _ {S : Type 0} {P Q : S → Type 0} {E : S → Type 0} where
  pub Meets-ignoring : (m : Call S Unit) → Meets P m (λ u. Q) Q → Meets P (ignoring m) (λ u. Q) E
  Meets-ignoring m h = Meets-rescue m (λ e. return tt) h (λ e. record { ends = λ s p. p })
