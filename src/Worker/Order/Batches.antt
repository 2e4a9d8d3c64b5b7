-- ===== src/Worker/Order/Batches.antt =====
-- The invariant of a batch, and that every step keeps it (browser/worker.go).
use mathlib.Core.List.{Memᴰ}
use gox_browser.Prelude.{
  ◌++◌, ◌<◌, ◌==◌, ==_iff, Bool-cases, List, [], ap, append_assoc, arith, get_elem?, inl, inr,
  length, length-append, length-map, refl, some, subst, suc, sym, zero, ℕ, ◌∙◌, ◌∷◌, ◌≡◌, ◌⊎◌,
}
use gox_browser.Worker.{
  Batch, Task, TaskResult, blank_result, cancelled_result, set_at, start_batch, Launched,
}
use gox_browser.Errors.{Error}
use gox_browser.Worker.Order.{
  IsDone, length-set_at, set_at-IsDone, Memᴰ-kept, Memᴰ-middle, Memᴰ-removed,
}

-- A task that the loop has passed waits, runs, or has its result.
abbrev pub IsPassed : Batch → ℕ → Task → Type 0
IsPassed s i t = Memᴰ (i, t) s.waiting ⊎ (Memᴰ (i, t) s.running ⊎ IsDone s.results i t)

pub record Ordered (tasks : List Task) (s : Batch) : Type 0 where
  pub before : List Task
  pub split_eq : tasks ≡ before ++ s.ahead
  pub next_eq : s.next ≡ length before
  pub length_eq : length s.results ≡ length tasks
  pub waiting_at : (i : ℕ) (t : Task) → Memᴰ (i, t) s.waiting → get_elem? tasks i ≡ some t
  pub running_at : (i : ℕ) (t : Task) → Memᴰ (i, t) s.running → get_elem? tasks i ≡ some t
  pub passed : (i : ℕ) (t : Task) → get_elem? tasks i ≡ some t → i < s.next → IsPassed s i t

get_elem?-middle :
    (before rest : List Task) (t : Task) → get_elem? (before ++ t ∷ rest) (length before) ≡ some t
get_elem?-middle [] rest t = refl
get_elem?-middle (x ∷ before) rest t = get_elem?-middle before rest t

pub get_elem?-bound :
    (tasks : List Task) (i : ℕ) (t : Task) → get_elem? tasks i ≡ some t → i < length tasks
get_elem?-bound [] i t h = absurd (cc h)
get_elem?-bound (x ∷ tasks) zero t h = omega arith
get_elem?-bound (x ∷ tasks) (suc i) t h = omega (arith, get_elem?-bound tasks i t h)

pub start-Ordered : (tasks : List Task) → Ordered tasks (start_batch tasks)
unfolding start_batch
start-Ordered tasks = record {
  before = [];
  split_eq = refl;
  next_eq = refl;
  length_eq = length-map tasks (λ t. blank_result);
  waiting_at = λ i t m. elim m [ ];
  running_at = λ i t m. elim m [ ];
  passed = λ i t g h. absurd (omega arith);
}

module _ (tasks : List Task) (s : Batch) (o : Ordered tasks s) where
  -- The task that the loop is at.
  head_at : (t : Task) (rest : List Task) → s.ahead ≡ t ∷ rest → get_elem? tasks s.next ≡ some t
  head_at t rest a =
      subst (λ ts. get_elem? ts s.next ≡ some t) (sym (o.split_eq ∙ ap (λ ts. o.before ++ ts) a))
        (subst (λ n. get_elem? (o.before ++ t ∷ rest) n ≡ some t) (sym o.next_eq)
          (get_elem?-middle o.before rest t))

  split_next :
      (t : Task) (rest : List Task) → s.ahead ≡ t ∷ rest → tasks ≡ (o.before ++ t ∷ []) ++ rest
  split_next t rest a =
      o.split_eq ∙ ap (λ ts. o.before ++ ts) a ∙ sym (append_assoc o.before (t ∷ []) rest)

  next_length : (t : Task) → suc s.next ≡ length (o.before ++ t ∷ [])
  next_length t = omega (arith, o.next_eq, length-append o.before (t ∷ []))

  some_value : (x y : Task) → some x ≡ some y → x ≡ y
  some_value x y h = cc

  same_launched :
      (i : ℕ) (t : Task) (j : ℕ) (v : Task)
      → i ≡ j
      → get_elem? tasks i ≡ some t
      → get_elem? tasks j ≡ some v
      → ◌≡◌ {A = Launched} (i, t) (j, v)
  same_launched i t j v e g k =
      let same : t ≡ v = some_value t v (sym g ∙ ap (get_elem? tasks) e ∙ k) in cc (e, same)

  -- A result is written for a task at its index.
  written :
      (i : ℕ) (t : Task) (r : TaskResult) (j : ℕ) (v : Task)
      → get_elem? tasks i ≡ some t
      → r.url ≡ t.url
      → get_elem? tasks j ≡ some v
      → (IsDone s.results j v ⊎ (i ≡ j))
      → IsDone (set_at i r s.results) j v
  written i t r j v g u k c =
      set_at-IsDone tasks i j t v r s.results g k o.length_eq (get_elem?-bound tasks i t g) u c

  pub skip-Ordered :
      (e : Error) (t : Task) (rest : List Task)
      → s.ahead ≡ t ∷ rest
      → Ordered tasks (record s {
        next = suc s.next;
        ahead = rest;
        results = set_at s.next (cancelled_result e t) s.results;
      })
  skip-Ordered e t rest a =
      let g = head_at t rest a in
      let r = cancelled_result e t in
      record {
        before = o.before ++ t ∷ [];
        split_eq = split_next t rest a;
        next_eq = next_length t;
        length_eq = length-set_at s.next r s.results ∙ o.length_eq;
        waiting_at = o.waiting_at;
        running_at = o.running_at;
        passed = λ j v k h. elim (Bool-cases (s.next == j)) [
          | inl same ↦ inr (inr (written s.next t r j v g refl k (inr ((==_iff s.next j).0 same))))
          | inr other ↦ elim (o.passed j v k (ground (arith, other, h))) [
            | inl m ↦ inl m
            | inr (inl m) ↦ inr (inl m)
            | inr (inr d) ↦ inr (inr (written s.next t r j v g refl k (inl d)))
          ]
        ];
      }

  pub launch-Ordered :
      (t : Task) (rest : List Task)
      → s.ahead ≡ t ∷ rest
      → Ordered tasks
          (record s { next = suc s.next; ahead = rest; waiting = (s.next, t) ∷ s.waiting })
  launch-Ordered t rest a =
      let g = head_at t rest a in
      record {
        before = o.before ++ t ∷ [];
        split_eq = split_next t rest a;
        next_eq = next_length t;
        length_eq = o.length_eq;
        waiting_at = λ j v m. elim m [
          | Memᴰ.head q ↦ subst (λ (x : Launched). get_elem? tasks x.0 ≡ some x.1) (sym q) g
          | Memᴰ.tail k ↦ o.waiting_at j v k
        ];
        running_at = o.running_at;
        passed = λ j v k h. elim (Bool-cases (s.next == j)) [
          | inl same ↦
              inl (Memᴰ.head (same_launched j v s.next t (sym ((==_iff s.next j).0 same)) k g))
          | inr other ↦ elim (o.passed j v k (ground (arith, other, h))) [
            | inl m ↦ inl (Memᴰ.tail m)
            | inr later ↦ inr later
          ]
        ];
      }

  pub give_up-Ordered :
      (e : Error) (i : ℕ) (t : Task) (pre post : List Launched)
      → s.waiting ≡ pre ++ (i, t) ∷ post
      → Ordered tasks
          (record s { waiting = pre ++ post; results = set_at i (cancelled_result e t) s.results })
  give_up-Ordered e i t pre post a =
      let g = o.waiting_at i t (subst (Memᴰ (i, t)) (sym a) (Memᴰ-middle (i, t) pre post)) in
      let r = cancelled_result e t in
      record {
        before = o.before;
        split_eq = o.split_eq;
        next_eq = o.next_eq;
        length_eq = length-set_at i r s.results ∙ o.length_eq;
        waiting_at = λ j v m.
            o.waiting_at j v (subst (Memᴰ (j, v)) (sym a) (Memᴰ-kept (j, v) (i, t) pre post m));
        running_at = o.running_at;
        passed = λ j v k h. elim (o.passed j v k h) [
          | inl m ↦ elim (Memᴰ-removed (j, v) (i, t) pre post (subst (Memᴰ (j, v)) a m)) [
            | inl q ↦ inr (inr (written i t r j v g refl k (inr (sym (ap (λ x. x.0) q)))))
            | inr left ↦ inl left
          ]
          | inr (inl m) ↦ inr (inl m)
          | inr (inr d) ↦ inr (inr (written i t r j v g refl k (inl d)))
        ];
      }

  pub take-Ordered :
      (i : ℕ) (t : Task) (pre post : List Launched)
      → s.waiting ≡ pre ++ (i, t) ∷ post
      → Ordered tasks (record s { waiting = pre ++ post; running = (i, t) ∷ s.running })
  take-Ordered i t pre post a =
      let g = o.waiting_at i t (subst (Memᴰ (i, t)) (sym a) (Memᴰ-middle (i, t) pre post)) in
      record {
        before = o.before;
        split_eq = o.split_eq;
        next_eq = o.next_eq;
        length_eq = o.length_eq;
        waiting_at = λ j v m.
            o.waiting_at j v (subst (Memᴰ (j, v)) (sym a) (Memᴰ-kept (j, v) (i, t) pre post m));
        running_at = λ j v m. elim m [
          | Memᴰ.head q ↦ subst (λ (x : Launched). get_elem? tasks x.0 ≡ some x.1) (sym q) g
          | Memᴰ.tail k ↦ o.running_at j v k
        ];
        passed = λ j v k h. elim (o.passed j v k h) [
          | inl m ↦ elim (Memᴰ-removed (j, v) (i, t) pre post (subst (Memᴰ (j, v)) a m)) [
            | inl q ↦ inr (inl (Memᴰ.head q))
            | inr left ↦ inl left
          ]
          | inr (inl m) ↦ inr (inl (Memᴰ.tail m))
          | inr (inr d) ↦ inr (inr d)
        ];
      }

  pub finish-Ordered :
      (i : ℕ) (t : Task) (r : TaskResult) (pre post : List Launched) (calls : List (ℕ × TaskResult))
      → s.running ≡ pre ++ (i, t) ∷ post
      → r.url ≡ t.url
      → Ordered tasks
          (record s { running = pre ++ post; results = set_at i r s.results; reported = calls })
  finish-Ordered i t r pre post calls a u =
      let g = o.running_at i t (subst (Memᴰ (i, t)) (sym a) (Memᴰ-middle (i, t) pre post)) in
      record {
        before = o.before;
        split_eq = o.split_eq;
        next_eq = o.next_eq;
        length_eq = length-set_at i r s.results ∙ o.length_eq;
        waiting_at = o.waiting_at;
        running_at = λ j v m.
            o.running_at j v (subst (Memᴰ (j, v)) (sym a) (Memᴰ-kept (j, v) (i, t) pre post m));
        passed = λ j v k h. elim (o.passed j v k h) [
          | inl m ↦ inl m
          | inr (inl m) ↦ elim (Memᴰ-removed (j, v) (i, t) pre post (subst (Memᴰ (j, v)) a m)) [
            | inl q ↦ inr (inr (written i t r j v g u k (inr (sym (ap (λ x. x.0) q)))))
            | inr left ↦ inr (inl left)
          ]
          | inr (inr d) ↦ inr (inr (written i t r j v g u k (inl d)))
        ];
      }
