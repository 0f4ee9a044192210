-- ===== src/Storage/S3/Errors.antt =====
-- The errors that leave the adapter, and what a bucket check promises.
use ai_system_engineering_cu.Base.{
  ℕ, zero, suc, ◌≡◌, refl, Bool, true, false, not, Option, none, some, List, [], ◌++◌, Text, elem,
  text_eq, if◌then◌else◌,
}
use ai_system_engineering_cu.Effects.{
  pure, call, Outcome, returned, raised, Reply, reply, fault, attempt, reply_or,
}
use ai_system_engineering_cu.Effects.Failure.{
  FailsAs, FailsAs-pure, FailsAs-raise, FailsAs-call, FailsAs-if, FailsAs-attempt, FailsAs-bind,
  OfRaised, FailsAs-try,
}
use ai_system_engineering_cu.Storage.Calls.{
  Bytes, Call, Answer, Action, Error, object_not_found, object_store_unavailable, client_failure,
  boto_core_failure, body_failure, missing_key_codes, missing_bucket_codes, bucket_exists_codes,
  Provided, provided_or_raise, get_object, put_object, create_bucket, head_bucket, list_objects,
  provided, client_error, boto_core_error,
}
use ai_system_engineering_cu.Storage.S3.{
  as_object_error, after_get, read_object, as_unavailable, or_unavailable, write_object, is_last,
  pages, list_keys, sorted, as_create_error, raise_some, after_create, create_missing, after_head,
  ensure_bucket,
}

-- No error of the provider's client.
abbrev pub IsNeutral : Error → Type 0
IsNeutral object_not_found = Unit
IsNeutral object_store_unavailable = Unit
IsNeutral (client_failure code) = ⊥
IsNeutral boto_core_failure = ⊥
IsNeutral body_failure = Unit

abbrev pub IsUnavailable : Error → Type 0
IsUnavailable e = e ≡ object_store_unavailable

abbrev IsClient : Error → Type 0
IsClient (client_failure code) = Unit
IsClient boto_core_failure = Unit
IsClient _ = ⊥

reply_or-IsNeutral :
    (a : Reply Bytes) → FailsAs {C = Call} {Answer = Answer} IsNeutral (reply_or body_failure a)
reply_or-IsNeutral (reply a) = FailsAs-pure _ a
reply_or-IsNeutral fault = FailsAs-raise _ body_failure tt

as_object_error-IsNeutral : (e : Error) → IsNeutral (as_object_error e)
unfolding as_object_error
as_object_error-IsNeutral object_not_found = tt
as_object_error-IsNeutral object_store_unavailable = tt
as_object_error-IsNeutral (client_failure code) = by_code (elem code missing_key_codes)
  where
    by_code : (b : Bool) → IsNeutral (if b then object_not_found else object_store_unavailable)
    by_code true = tt
    by_code false = tt
as_object_error-IsNeutral boto_core_failure = tt
as_object_error-IsNeutral body_failure = tt

after_get-FailsAs : (o : Outcome Error Bytes) → FailsAs IsNeutral (after_get o)
unfolding after_get
after_get-FailsAs (raised e) = FailsAs-raise _ _ (as_object_error-IsNeutral e)
after_get-FailsAs (returned content) = FailsAs-call _ _ _ reply_or-IsNeutral

-- Whatever the provider answers.
pub read_object-FailsAs : (key : Text) → FailsAs IsNeutral (read_object key)
unfolding read_object
read_object-FailsAs key =
    FailsAs-bind _ (attempt (call (get_object key) provided_or_raise)) _
      (FailsAs-attempt _ (call (get_object key) provided_or_raise)) after_get-FailsAs

-- Only an error of the client reaches the handler of these operations.
provided-IsClient : {A : Type 0} (a : Provided A) → FailsAs IsClient (provided_or_raise a)
provided-IsClient (provided a) = FailsAs-pure _ a
provided-IsClient (client_error code) = FailsAs-raise _ (client_failure code) tt
provided-IsClient boto_core_error = FailsAs-raise _ boto_core_failure tt

called-IsClient :
    {A : Type 0} (c : Call) (k : Answer c → Action A)
    → ((a : Answer c) → FailsAs IsClient (k a))
    → FailsAs IsClient (call c k)
called-IsClient c k h = FailsAs-call _ c k h

as_unavailable-IsUnavailable : (e : Error) → IsClient e → IsUnavailable (as_unavailable e)
unfolding as_unavailable
as_unavailable-IsUnavailable (client_failure code) h = refl
as_unavailable-IsUnavailable boto_core_failure h = refl
as_unavailable-IsUnavailable object_not_found h = absurd h
as_unavailable-IsUnavailable object_store_unavailable h = absurd h
as_unavailable-IsUnavailable body_failure h = absurd h

or_unavailable-FailsAs :
    {A : Type 0} (o : Outcome Error A)
    → OfRaised IsClient o
    → FailsAs IsUnavailable (or_unavailable o)
unfolding or_unavailable
or_unavailable-FailsAs (returned a) h = FailsAs-pure _ a
or_unavailable-FailsAs (raised e) h = FailsAs-raise _ _ (as_unavailable-IsUnavailable e h)

write_object-FailsAs : (key : Text) (value : Bytes) → FailsAs IsUnavailable (write_object key value)
unfolding write_object
write_object-FailsAs key value =
    FailsAs-try IsClient IsUnavailable or_unavailable or_unavailable-FailsAs
      (call (put_object key value) provided_or_raise)
      (called-IsClient (put_object key value) provided_or_raise provided-IsClient)

either-IsClient :
    (b : Bool) (keys : List Text) (m : Action (Option (List Text)))
    → FailsAs IsClient m
    → FailsAs IsClient (elim b [ true ↦ pure (some keys) | false ↦ m ])
either-IsClient true keys m h = FailsAs-pure _ (some keys)
either-IsClient false keys m h = h

pages-IsClient :
    (rounds : ℕ) (prefix : Text) (token : Option Text) (keys : List Text)
    → FailsAs IsClient (pages rounds prefix token keys)
unfolding pages
pages-IsClient zero prefix token keys = FailsAs-pure _ none
pages-IsClient (suc rounds) prefix token keys = FailsAs-call _ (list_objects prefix token) _ (λ a.
    FailsAs-bind _ (provided_or_raise a) _ (provided-IsClient a) (λ page.
      either-IsClient (is_last page) (keys ++ page.keys) _
        (pages-IsClient rounds prefix page.next_token (keys ++ page.keys))))

list_keys-FailsAs : (rounds : ℕ) (prefix : Text) → FailsAs IsUnavailable (list_keys rounds prefix)
unfolding list_keys
list_keys-FailsAs rounds prefix =
    FailsAs-try IsClient IsUnavailable _
      (λ o h.
        FailsAs-bind _ (or_unavailable o) _ (or_unavailable-FailsAs o h)
          (λ keys. FailsAs-pure _ (sorted keys)))
      (pages rounds prefix none []) (pages-IsClient rounds prefix none [])

raise_some-FailsAs :
    (e : Error) → IsClient e → FailsAs IsUnavailable (raise_some (as_create_error e))
unfolding as_create_error
raise_some-FailsAs (client_failure code) h = by_code (elem code bucket_exists_codes)
  where
    by_code :
        (b : Bool)
        → FailsAs IsUnavailable (raise_some (if b then none else some object_store_unavailable))
    by_code true = FailsAs-pure _ tt
    by_code false = FailsAs-raise _ _ refl
raise_some-FailsAs boto_core_failure h = FailsAs-raise _ _ refl
raise_some-FailsAs object_not_found h = absurd h
raise_some-FailsAs object_store_unavailable h = absurd h
raise_some-FailsAs body_failure h = absurd h

after_create-FailsAs :
    (o : Outcome Error Unit) → OfRaised IsClient o → FailsAs IsUnavailable (after_create o)
unfolding after_create
after_create-FailsAs (returned done) h = FailsAs-pure _ tt
after_create-FailsAs (raised e) h = raise_some-FailsAs e h

create_missing-FailsAs : FailsAs IsUnavailable create_missing
unfolding create_missing
create_missing-FailsAs =
    FailsAs-try IsClient IsUnavailable after_create after_create-FailsAs
      (call create_bucket provided_or_raise)
      (called-IsClient create_bucket provided_or_raise provided-IsClient)

after_head-FailsAs :
    (o : Outcome Error Unit) → OfRaised IsClient o → FailsAs IsUnavailable (after_head o)
unfolding after_head
after_head-FailsAs (returned found) h = FailsAs-pure _ tt
after_head-FailsAs (raised (client_failure code)) h =
    FailsAs-if _ (not (elem code missing_bucket_codes)) _ _ (λ e. FailsAs-raise _ _ refl)
      (λ e. create_missing-FailsAs)
after_head-FailsAs (raised boto_core_failure) h = FailsAs-raise _ _ refl
after_head-FailsAs (raised object_not_found) h = absurd h
after_head-FailsAs (raised object_store_unavailable) h = absurd h
after_head-FailsAs (raised body_failure) h = absurd h

pub ensure_bucket-FailsAs : FailsAs IsUnavailable ensure_bucket
unfolding ensure_bucket
ensure_bucket-FailsAs =
    FailsAs-try IsClient IsUnavailable after_head after_head-FailsAs
      (call head_bucket provided_or_raise)
      (called-IsClient head_bucket provided_or_raise provided-IsClient)

-- Whatever the provider answers: a read fails with ObjectNotFound, ObjectStoreUnavailable or the
-- failure of the stream of the body, and every other operation with ObjectStoreUnavailable only.
pub operations-FailsAs :
    (key prefix : Text) (value : Bytes) (rounds : ℕ)
    → FailsAs IsNeutral (read_object key)
      × FailsAs IsUnavailable (write_object key value)
      × FailsAs IsUnavailable (list_keys rounds prefix)
      × FailsAs IsUnavailable ensure_bucket
operations-FailsAs key prefix value rounds = (
  read_object-FailsAs key,
  write_object-FailsAs key value,
  list_keys-FailsAs rounds prefix,
  ensure_bucket-FailsAs,
)
