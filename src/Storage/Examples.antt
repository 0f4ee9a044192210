-- ===== src/Storage/Examples.antt =====
-- The theorems about object storage at concrete inputs.
use ai_system_engineering_cu.Base.{
  zero, ◌≡◌, refl, arith, true, false, [], ◌∷◌, Text, literal, none, some, Option, sort, text_leb,
  text_eq,
}
use ai_system_engineering_cu.Effects.{returned, fault}
use ai_system_engineering_cu.Effects.Failure.{FailsAs}
use ai_system_engineering_cu.Effects.Interference.{Ensures}
use ai_system_engineering_cu.Storage.Calls.{
  Bytes, Call, Answer, Page, Shared, Performs, provided, boto_core_error, get_object, read_body,
  put_object, list_objects, head_bucket, create_bucket, sleep,
}
use ai_system_engineering_cu.Storage.S3.{
  read_object, write_object, list_keys, ensure_bucket, is_last,
}
use ai_system_engineering_cu.Storage.S3.Errors.{IsNeutral, IsUnavailable, operations-FailsAs}
use ai_system_engineering_cu.Storage.S3.Pages.{run_with, Serves, keys_of, list_keys-Serves}
use ai_system_engineering_cu.Storage.S3.Bucket.{run_on}
use ai_system_engineering_cu.Storage.Provision.{await_object_store, provision_corpus_objects}
use ai_system_engineering_cu.Storage.Provision.Waiting.{starting, await_object_store_waits}
use ai_system_engineering_cu.Storage.Provision.Objects.{
  KeepsCorpus, IsProvisioned, provision-IsProvisioned,
}

abbrev no_bucket : Shared
no_bucket = record { exists = false; objects = [] }

abbrev first_page : Page
first_page = record {
  keys = literal "b" ∷ literal "c" ∷ [];
  next_token = some (literal "2");
  is_truncated = true;
}

abbrev second_page : Page
second_page = record { keys = literal "a" ∷ []; next_token = none; is_truncated = false }

-- Two pages, whatever the prefix is.
abbrev page_at : Option Text → Page
page_at none = first_page
page_at (some token) = second_page

abbrev two_pages : (c : Call) → Answer c
two_pages (list_objects prefix token) = provided (page_at token)
two_pages (get_object key) = boto_core_error
two_pages (read_body content) = fault
two_pages (put_object key value) = boto_core_error
two_pages head_bucket = boto_core_error
two_pages create_bucket = boto_core_error
two_pages sleep = tt

operations-FailsAs_example :
    FailsAs IsNeutral (read_object (literal "k"))
    × FailsAs IsUnavailable (write_object (literal "k") (1 ∷ []))
    × FailsAs IsUnavailable (list_keys 3 (literal "corpus/"))
    × FailsAs IsUnavailable ensure_bucket
operations-FailsAs_example = operations-FailsAs (literal "k") (literal "corpus/") (1 ∷ []) 3

list_keys-Serves_example :
    run_with two_pages (list_keys 2 [])
    ≡ returned (some (sort text_leb (keys_of (first_page ∷ second_page ∷ []))))
unfolding is_last
list_keys-Serves_example =
    list_keys-Serves two_pages [] 2 (first_page ∷ second_page ∷ [])
      (Serves.more first_page refl refl (Serves.last second_page refl refl)) (omega arith)

await_object_store_waits_example :
    run_on await_object_store (starting 29 no_bucket)
    ≡ (returned tt, starting zero (record { exists = true; objects = [] }))
await_object_store_waits_example = await_object_store_waits 29 no_bucket

abbrev files : Text → Bytes
files name = name

provision-IsProvisioned_example :
    Ensures Performs KeepsCorpus
      (λ _ _. Unit {0})
      (λ _ t. IsProvisioned files t)
      (provision_corpus_objects files)
      no_bucket
provision-IsProvisioned_example = provision-IsProvisioned files no_bucket
