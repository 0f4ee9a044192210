-- ===== src/Storage/Calls.antt =====
-- The calls of src/adapters/object_store/s3.py and what the service does for each.
use ai_system_engineering_cu.Base.{
  ℕ, ◌≡◌, ◌⊎◌, Bool, true, Option, some, List, [], ◌∷◌, Text, literal, elem, text_eq, Table, lookup,
  put,
}
use ai_system_engineering_cu.Effects.{Program, pure, raise, Reply, reply, fault}

abbrev pub Bytes : Type 0
Bytes = List ℕ

-- What the client answers, or a ClientError with its code, or a BotoCoreError.
pub data Provided (A : Type 0) : Type 0 where
  provided : A → Provided A
  client_error : Text → Provided A
  boto_core_error : Provided A

pub data Error : Type 0 where
  object_not_found object_store_unavailable : Error
  client_failure : Text → Error
  boto_core_failure body_failure : Error

pub record Page : Type 0 where
  pub keys : List Text
  pub next_token : Option Text
  pub is_truncated : Bool

-- `get_object` gives the stream of a content, and `read_body` reads it.
pub data Call : Type 0 where
  get_object : Text → Call
  read_body : Bytes → Call
  put_object : Text → Bytes → Call
  list_objects : Text → Option Text → Call
  head_bucket create_bucket sleep : Call

abbrev pub Answer : Call → Type 0
Answer (get_object key) = Provided Bytes
Answer (read_body content) = Reply Bytes
Answer (put_object key value) = Provided Unit
Answer (list_objects prefix token) = Provided Page
Answer head_bucket = Provided Unit
Answer create_bucket = Provided Unit
Answer sleep = Unit

abbrev pub Action : Type 0 → Type 0
Action A = Program Call Answer Error A

abbrev pub provided_or_raise : {A : Type 0} → Provided A → Action A
provided_or_raise (provided a) = pure a
provided_or_raise (client_error code) = raise (client_failure code)
provided_or_raise boto_core_error = raise boto_core_failure

abbrev pub missing_key_codes : List Text
missing_key_codes = literal "NoSuchKey" ∷ literal "404" ∷ literal "NotFound" ∷ []

abbrev pub missing_bucket_codes : List Text
missing_bucket_codes = literal "404" ∷ literal "NoSuchBucket" ∷ literal "NotFound" ∷ []

abbrev pub bucket_exists_codes : List Text
bucket_exists_codes = literal "BucketAlreadyOwnedByYou" ∷ literal "BucketAlreadyExists" ∷ []

-- The bucket and its objects.
pub record Shared : Type 0 where
  pub exists : Bool
  pub objects : Table Text Bytes

abbrev pub Got : Text → Provided Bytes → Shared → Type 0
Got key (provided content) s = lookup key s.objects ≡ some content
Got key _ s = Unit

abbrev pub Read : Bytes → Reply Bytes → Type 0
Read content (reply body) = body ≡ content
Read content fault = Unit

-- `Performs c s a s'`: the call `c` in the state `s` may answer `a` and leave `s'`. After an error
-- a write may or may not have been done.
abbrev pub Performs : (c : Call) → Shared → Answer c → Shared → Type 0
Performs (get_object key) s a s' = Got key a s × (s' ≡ s)
Performs (read_body content) s a s' = Read content a × (s' ≡ s)
Performs (put_object key value) s (provided a) s' =
    s' ≡ record s { objects = put key value s.objects }
Performs (put_object key value) s _ s' =
    (s' ≡ s) ⊎ (s' ≡ record s { objects = put key value s.objects })
Performs (list_objects prefix token) s a s' = s' ≡ s
Performs head_bucket s (provided a) s' = (s.exists ≡ true) × (s' ≡ s)
Performs head_bucket s _ s' = s' ≡ s
Performs create_bucket s (provided a) s' = s' ≡ record s { exists = true }
Performs create_bucket s (client_error code) s' =
    ((elem code bucket_exists_codes ≡ true) → s.exists ≡ true)
    × ((s' ≡ s) ⊎ (s' ≡ record s { exists = true }))
Performs create_bucket s boto_core_error s' = (s' ≡ s) ⊎ (s' ≡ record s { exists = true })
Performs sleep s a s' = s' ≡ s
