-- ===== src/Artifact/S3.antt =====
-- artifact/s3.go: the back end over an S3 service. The client of the service is an argument: its
-- credentials and its address are part of it.
pub mod Refined
use gox_browser.Prelude.{
  ◌&&◌, ◌*◌, ◌++◌, Bool, List, Option, [], false, if◌then◌else◌, none, not, some, true, ◌||◌, ℕ,
}
use gox_browser.Errors.{Error, Result, err, ok, sentinel, wrap, artifact_not_found}
use gox_browser.Artifact.Directory.{Storer}
use gox_browser.Stream.{Stream, read_all}
use gox_browser.Prelude.Text.{Text, codes, eq_text}
use gox_browser.Prelude.Strings.{has_suffix}
use gox_browser.Prelude.Int.{ℤ, pos}
use gox_browser.Types.{second}
use gox_browser.Artifact.{err_not_found}

-- `s3Timeout`, in nanoseconds.
abbrev pub s3_timeout : ℤ
s3_timeout = pos (30 * second)

-- The service: the kinds of its errors, and the calls by bucket and key. A call that takes an
-- `Option ℤ` takes the timeout that is set on its context before it, if one is.
pub record S3 (W : Type 0) : Type 0 where
  pub quote : Text → Text
  pub is_no_such_key : Error → Bool
  pub is_not_found : Error → Bool
  pub error_code : Error → Option Text
  pub put_object : W → Option ℤ → Text → Text → List ℕ → Text → W × Option Error
  pub upload : W → Option ℤ → Text → Text → Stream → Text → W × List ℕ × Option Error
  pub get_object : W → Option ℤ → Text → Text → W × Result Stream
  pub head_object : W → Option ℤ → Text → Text → W × Option Error
  pub presign_get : W → Text → Text → ℤ → W × Result Text

pub record S3Config : Type 0 where
  pub endpoint : Text
  pub bucket : Text
  pub region : Text
  pub access_key : Text
  pub secret_key : Text
  pub prefix : Text

pub record S3Store : Type 0 where
  pub bucket : Text
  pub prefix : Text

-- A prefix that is not empty ends in a slash.
unfoldable pub new_s3_store : S3Config → S3Store
new_s3_store cfg = record {
  bucket = cfg.bucket;
  prefix =
      if not (eq_text cfg.prefix []) && not (has_suffix cfg.prefix (codes "/"))
      then cfg.prefix ++ codes "/"
      else cfg.prefix;
}

abbrev pub full_key : S3Store → Text → Text
full_key s key = s.prefix ++ key

abbrev pub wrapped : {A : Type 0} → Text → Result A → Result A
wrapped text (ok a) = ok a
wrapped text (err e) = err (wrap text e)

abbrev pub wrapped_error : Text → Option Error → Option Error
wrapped_error text none = none
wrapped_error text (some e) = some (wrap text e)

module _ {W : Type 0} (client : S3 W) (s : S3Store) where
  unfoldable pub is_s3_not_found : Error → Bool
  is_s3_not_found e =
      client.is_no_such_key e || client.is_not_found e || elim (client.error_code e) [
        | none ↦ false
        | some code ↦
            eq_text code (codes "NoSuchKey")
            || eq_text code (codes "NotFound")
            || eq_text code (codes "404")
      ]

  unfoldable pub s3_put : W → Text → List ℕ → Text → W × Option Error
  s3_put w key bytes kind =
      let (w1, error) =
        client.put_object w (some s3_timeout) s.bucket (full_key s key) bytes kind in
      (w1, wrapped_error (codes "artifact: s3 put " ++ client.quote key) error)

  unfoldable pub s3_put_reader : W → Text → Stream → Text → W × List ℕ × Option Error
  s3_put_reader w key stream kind =
      let (w1, bytes, error) = client.upload w none s.bucket (full_key s key) stream kind in
      (w1, bytes, wrapped_error (codes "artifact: s3 upload " ++ client.quote key) error)

  -- The error of a missing object is replaced by `ErrNotFound`.
  abbrev pub cause_of : Error → Error
  cause_of e = if is_s3_not_found e then err_not_found else e

  abbrev pub read_object : Text → Result Stream → Result (List ℕ)
  read_object key (ok body) =
      wrapped (codes "artifact: s3 read " ++ client.quote key) (read_all body)
  read_object key (err e) = err (wrap (codes "artifact: s3 get " ++ client.quote key) (cause_of e))

  unfoldable pub s3_get : W → Text → W × Result (List ℕ)
  s3_get w key =
      let (w1, answer) = client.get_object w (some s3_timeout) s.bucket (full_key s key) in
      (w1, read_object key answer)

  abbrev pub open_object : Text → Result Stream → Result Stream
  open_object key (ok body) = ok body
  open_object key (err e) =
      err (wrap (codes "artifact: s3 reader " ++ client.quote key) (cause_of e))

  unfoldable pub s3_reader : W → Text → W × Result Stream
  s3_reader w key =
      let (w1, answer) = client.get_object w none s.bucket (full_key s key) in
      (w1, open_object key answer)

  abbrev pub head_exists : Text → Option Error → Result Bool
  head_exists key none = ok true
  head_exists key (some e) =
      if is_s3_not_found e
      then ok false
      else err (wrap (codes "artifact: s3 head " ++ client.quote key) e)

  unfoldable pub s3_exists : W → Text → W × Result Bool
  s3_exists w key =
      let (w1, error) = client.head_object w (some s3_timeout) s.bucket (full_key s key) in
      (w1, head_exists key error)

  unfoldable pub s3_sign_url : W → Text → ℤ → W × Result Text
  s3_sign_url w key ttl =
      let (w1, url) = client.presign_get w s.bucket (full_key s key) ttl in
      (w1, wrapped (codes "artifact: s3 presign " ++ client.quote key) url)

  abbrev pub s3_storer : Storer W
  s3_storer = record {
    put = s3_put;
    get = s3_get;
    exists = s3_exists;
    put_reader = s3_put_reader;
    reader = s3_reader;
    sign_url = s3_sign_url;
  }
