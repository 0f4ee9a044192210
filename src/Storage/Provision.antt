-- ===== src/Storage/Provision.antt =====
-- src/api/initialize.py: `_await_object_store` and `_provision_corpus_objects`.
pub mod Waiting
pub mod Objects
use ai_system_engineering_cu.Base.{
  ℕ, zero, suc, Bool, true, false, List, [], ◌∷◌, ◌++◌, Text, literal, if◌then◌else◌,
}
use ai_system_engineering_cu.Effects.{
  pure, raise, call, Outcome, returned, raised, ◌>>=◌, ◌>>◌, attempt,
}
use ai_system_engineering_cu.Storage.Calls.{Bytes, Action, Error, object_store_unavailable, sleep}
use ai_system_engineering_cu.Storage.S3.{write_object, ensure_bucket}

abbrev pub object_store_attempts : ℕ
object_store_attempts = 30

abbrev pub corpus_prefix : Text
corpus_prefix = literal "corpus/"

abbrev pub corpus_files : List Text
corpus_files = literal "documents.jsonl" ∷ literal "provenance.jsonl" ∷ []

-- Is there another attempt to wait for?
abbrev is_positive : ℕ → Bool
is_positive zero = false
is_positive (suc n) = true

-- The `except` clause of an attempt, before the `next` one.
after_attempt : Bool → Outcome Error Unit → Action Unit → Action Unit
after_attempt waits (returned done) next = pure tt
after_attempt waits (raised object_store_unavailable) next =
    if waits then call sleep (λ _. next) else next
after_attempt waits (raised e) next = raise e

-- The loop, with the attempts that are left.
await_from : ℕ → Action Unit
unfolding ensure_bucket after_attempt
await_from zero = raise object_store_unavailable
await_from (suc left) =
    attempt ensure_bucket >>= λ done. after_attempt (is_positive left) done (await_from left)

unfoldable pub await_object_store : Action Unit
unfolding await_from
await_object_store = await_from object_store_attempts

-- `files` are the contents of the directory infra/corpus.
module _ (files : Text → Bytes) where
  upload : List Text → Action Unit
  unfolding write_object
  upload [] = pure tt
  upload (name ∷ names) = do write_object (corpus_prefix ++ name) (files name); upload names

  unfoldable pub provision_corpus_objects : Action Unit
  unfolding await_object_store upload
  provision_corpus_objects = do await_object_store; upload corpus_files
