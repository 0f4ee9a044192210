-- ===== src/Storage/S3/Bucket.antt =====
-- What a bucket check does with a service that is still starting, and what it promises.
use ai_system_engineering_cu.Base.{
  ℕ, zero, suc, ◌≡◌, refl, ap, ◌∙◌, ◌⊎◌, inl, inr, Bool, true, false, not, Bool-cases, [], literal,
  none, put, text_eq, elem, text_beq, Text,
}
use ai_system_engineering_cu.Effects.{
  pure, raise, call, Outcome, returned, raised, reply, fault, attempt, ◌>>=◌,
}
use ai_system_engineering_cu.Effects.Interference.{
  Ensures, Ensures-pure, Ensures-raise, Ensures-call, Ensures-if,
}
use ai_system_engineering_cu.Storage.Calls.{
  Call, Answer, Action, Error, object_store_unavailable, client_failure, Provided, provided,
  client_error, boto_core_error, Shared, Performs, provided_or_raise, bucket_exists_codes,
  missing_bucket_codes, get_object, read_body, put_object, list_objects, head_bucket, create_bucket,
  sleep,
}
use ai_system_engineering_cu.Storage.S3.{
  ensure_bucket, after_head, create_missing, after_create, as_create_error, raise_some,
}

-- A service that does not answer its next `silent` calls.
pub record Service : Type 0 where
  pub silent : ℕ
  pub shared : Shared

abbrev checked : Bool → Provided Unit
checked true = provided tt
checked false = client_error (literal "404")

-- What it answers once it has started: no object is there to read.
abbrev serves : (c : Call) → Shared → Answer c × Shared
serves head_bucket s = (checked s.exists, s)
serves create_bucket s = (provided tt, record s { exists = true })
serves sleep s = (tt, s)
serves (get_object key) s = (client_error (literal "NoSuchKey"), s)
serves (read_body content) s = (reply content, s)
serves (put_object key value) s = (provided tt, record s { objects = put key value s.objects })
serves (list_objects prefix token) s =
    (provided (record { keys = []; next_token = none; is_truncated = false }), s)

abbrev unanswered : (c : Call) → Answer c
unanswered head_bucket = boto_core_error
unanswered create_bucket = boto_core_error
unanswered sleep = tt
unanswered (get_object key) = boto_core_error
unanswered (read_body content) = fault
unanswered (put_object key value) = boto_core_error
unanswered (list_objects prefix token) = boto_core_error

-- A pause is no call of the service.
abbrev respond : (c : Call) → ℕ → Shared → Answer c × Service
respond sleep n s = (tt, record { silent = n; shared = s })
respond c zero s = ((serves c s).0, record { silent = zero; shared = (serves c s).1 })
respond c (suc n) s = (unanswered c, record { silent = n; shared = s })

abbrev pub run_on : {A : Type 0} → Action A → Service → Outcome Error A × Service
run_on (pure a) v = (returned a, v)
run_on (raise e) v = (raised e, v)
run_on (call c k) v = run_on (k (respond c v.silent v.shared).0) (respond c v.silent v.shared).1

pub run_on-attempt :
    {A : Type 0} (m : Action A) (v : Service)
    → run_on (attempt m) v ≡ (returned (run_on m v).0, (run_on m v).1)
run_on-attempt (pure a) v = refl
run_on-attempt (raise e) v = refl
run_on-attempt (call c k) v =
    run_on-attempt (k (respond c v.silent v.shared).0) (respond c v.silent v.shared).1

pub run_on-bind :
    {A B : Type 0} (m : Action A) (f : A → Action B) (v w : Service) (a : A)
    → run_on m v ≡ (returned a, w)
    → run_on (m >>= f) v ≡ run_on (f a) w
run_on-bind (pure b) f v w a h = cc
run_on-bind (raise e) f v w a h = cc
run_on-bind (call c k) f v w a h =
    run_on-bind (k (respond c v.silent v.shared).0) f (respond c v.silent v.shared).1 w a h

pub ensure_bucket_unanswered :
    (n : ℕ) (s : Shared)
    → run_on ensure_bucket (record { silent = suc n; shared = s })
      ≡ (raised object_store_unavailable, record { silent = n; shared = s })
unfolding ensure_bucket after_head
ensure_bucket_unanswered n s = refl

pub ensure_bucket_answered :
    (s : Shared)
    → run_on ensure_bucket (record { silent = zero; shared = s })
      ≡ (returned tt, record { silent = zero; shared = record s { exists = true } })
unfolding ensure_bucket after_head create_missing after_create elem text_beq
ensure_bucket_answered s = by_exists s.exists s.objects
  where
    by_exists :
        (b : Bool) (objects : _)
        → run_on ensure_bucket
            (record { silent = zero; shared = record { exists = b; objects = objects } })
          ≡ (
            returned tt,
            record { silent = zero; shared = record { exists = true; objects = objects } },
          )
    by_exists true objects = refl
    by_exists false objects = refl

-- Whatever the others do.
module _ (Rely : Shared → Shared → Type 0) where
  abbrev Leads : {A : Type 0} → (A → Shared → Type 0) → Action A → Shared → Type 0
  Leads Q m s = Ensures Performs Rely (λ _ _. Unit {0}) Q m s

  abbrev Exists : Unit {0} → Shared → Type 0
  Exists done s = s.exists ≡ true

  raise_some-Leads :
      (code : Text) (s t : Shared)
      → ((elem code bucket_exists_codes ≡ true) → s.exists ≡ true)
      → (t ≡ s) ⊎ (t ≡ record s { exists = true })
      → Leads Exists (raise_some (as_create_error (client_failure code))) t
  unfolding as_create_error
  raise_some-Leads code s t known after = elim (Bool-cases (elem code bucket_exists_codes)) [
    | inl there ↦ rw there (Ensures-pure _ _ _ _ tt t (stays after (known there)))
    | inr unknown ↦ rw unknown (Ensures-raise _ _ _ _ _ t)
  ]
    where
      stays : (t ≡ s) ⊎ (t ≡ record s { exists = true }) → s.exists ≡ true → t.exists ≡ true
      stays (inl same) e = ap (λ u. u.exists) same ∙ e
      stays (inr created) e = ap (λ u. u.exists) created

  created-Leads :
      (a : Provided Unit) (s t : Shared)
      → Performs create_bucket s a t
      → Leads Exists (attempt (provided_or_raise a) >>= after_create) t
  unfolding after_create
  created-Leads (provided done) s t d = Ensures-pure _ _ _ _ tt t (ap (λ u. u.exists) d)
  created-Leads (client_error code) s t d = raise_some-Leads code s t d.0 d.1
  created-Leads boto_core_error s t d = Ensures-raise _ _ _ _ _ t

  create_missing-Leads : (s : Shared) → Leads Exists create_missing s
  unfolding create_missing
  create_missing-Leads s =
      Ensures-call _ _ _ _ _ _ s (λ _ _. tt) (λ t r a t' d. created-Leads a t t' d)

  found-Leads :
      (a : Provided Unit) (s t : Shared)
      → Performs head_bucket s a t
      → Leads Exists (attempt (provided_or_raise a) >>= after_head) t
  unfolding after_head
  found-Leads (provided done) s t d = Ensures-pure _ _ _ _ tt t (ap (λ u. u.exists) d.1 ∙ d.0)
  found-Leads (client_error code) s t d =
      Ensures-if _ _ _ _ (not (elem code missing_bucket_codes)) _ _ t (Ensures-raise _ _ _ _ _ t)
        (create_missing-Leads t)
  found-Leads boto_core_error s t d = Ensures-raise _ _ _ _ _ t

  -- When the check returns, the bucket exists.
  pub ensure_bucket-Exists :
      (s : Shared)
      → Ensures Performs Rely (λ _ _. Unit {0}) (λ _ t. t.exists ≡ true) ensure_bucket s
  unfolding ensure_bucket
  ensure_bucket-Exists s =
      Ensures-call _ _ _ _ _ _ s (λ _ _. tt) (λ t r a t' d. found-Leads a t t' d)
