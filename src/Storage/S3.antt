-- ===== src/Storage/S3.antt =====
-- src/adapters/object_store/s3.py: `S3ObjectStore`. Spans and threads are left out.
pub mod Errors
pub mod Pages
pub mod Bucket
pub mod Writes
use ai_system_engineering_cu.Base.{
  ℕ, zero, suc, Bool, true, false, not, ◌||◌, Option, none, some, List, [], ◌∷◌, ◌++◌, Text, elem,
  text_eq, text_leb, sort, if◌then◌else◌,
}
use ai_system_engineering_cu.Effects.{
  pure, raise, call, Outcome, returned, raised, ◌>>=◌, ◌>>◌, attempt, reply_or,
}
use ai_system_engineering_cu.Storage.Calls.{
  Bytes, Action, Error, object_not_found, object_store_unavailable, client_failure,
  boto_core_failure, body_failure, Page, provided_or_raise, missing_key_codes, missing_bucket_codes,
  bucket_exists_codes, get_object, read_body, put_object, list_objects, head_bucket, create_bucket,
}

-- The `except` clauses of `_read`.
as_object_error : Error → Error
as_object_error (client_failure code) =
    if elem code missing_key_codes then object_not_found else object_store_unavailable
as_object_error boto_core_failure = object_store_unavailable
as_object_error e = e

-- The body is read behind the `try`.
after_get : Outcome Error Bytes → Action Bytes
unfolding as_object_error
after_get (raised e) = raise (as_object_error e)
after_get (returned content) = call (read_body content) (reply_or body_failure)

unfoldable pub read_object : Text → Action Bytes
unfolding after_get
read_object key = do content ← attempt (call (get_object key) provided_or_raise); after_get content

-- `except (BotoCoreError, ClientError)`
as_unavailable : Error → Error
as_unavailable (client_failure code) = object_store_unavailable
as_unavailable boto_core_failure = object_store_unavailable
as_unavailable e = e

or_unavailable : {A : Type 0} → Outcome Error A → Action A
unfolding as_unavailable
or_unavailable (returned a) = pure a
or_unavailable (raised e) = raise (as_unavailable e)

unfoldable pub write_object : Text → Bytes → Action Unit
unfolding or_unavailable
write_object key value = do
  done ← attempt (call (put_object key value) provided_or_raise)
  or_unavailable done

abbrev pub is_none : {A : Type 0} → Option A → Bool
is_none none = true
is_none (some a) = false

-- `not page.get("IsTruncated") or token is None`
unfoldable pub is_last : Page → Bool
is_last page = not page.is_truncated || is_none page.next_token

-- The loop, for a number of rounds; `none` when they do not end it.
pages : ℕ → Text → Option Text → List Text → Action (Option (List Text))
unfolding is_last
pages zero prefix token keys = pure none
pages (suc rounds) prefix token keys = do
  page ← call (list_objects prefix token) provided_or_raise
  elim (is_last page) [
    | true ↦ pure (some (keys ++ page.keys))
    | false ↦ pages rounds prefix page.next_token (keys ++ page.keys)
  ]

abbrev sorted : Option (List Text) → Option (List Text)
sorted none = none
sorted (some keys) = some (sort text_leb keys)

unfoldable pub list_keys : ℕ → Text → Action (Option (List Text))
unfolding pages or_unavailable
list_keys rounds prefix = do
  outcome ← attempt (pages rounds prefix none [])
  keys ← or_unavailable outcome
  pure (sorted keys)

-- The `except` clauses of the creation.
as_create_error : Error → Option Error
as_create_error (client_failure code) =
    if elem code bucket_exists_codes then none else some object_store_unavailable
as_create_error boto_core_failure = some object_store_unavailable
as_create_error e = some e

abbrev raise_some : Option Error → Action Unit
raise_some none = pure tt
raise_some (some e) = raise e

after_create : Outcome Error Unit → Action Unit
unfolding as_create_error
after_create (returned done) = pure tt
after_create (raised e) = raise_some (as_create_error e)

create_missing : Action Unit
unfolding after_create
create_missing = do created ← attempt (call create_bucket provided_or_raise); after_create created

after_head : Outcome Error Unit → Action Unit
unfolding create_missing
after_head (returned found) = pure tt
after_head (raised (client_failure code)) =
    if not (elem code missing_bucket_codes) then raise object_store_unavailable else create_missing
after_head (raised boto_core_failure) = raise object_store_unavailable
after_head (raised e) = raise e

unfoldable pub ensure_bucket : Action Unit
unfolding after_head
ensure_bucket = do found ← attempt (call head_bucket provided_or_raise); after_head found
