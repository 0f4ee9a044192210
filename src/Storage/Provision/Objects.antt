-- ===== src/Storage/Provision/Objects.antt =====
-- What provisioning leaves in the bucket.
use ai_system_engineering_cu.Base.{
  ℕ, zero, suc, ◌≡◌, ap, ◌∙◌, Bool, true, false, Text, literal, some, lookup, lookup-put,
  lookup-put_self, text_eq, text_beq,
}
use ai_system_engineering_cu.Effects.{Outcome, returned, raised, attempt}
use ai_system_engineering_cu.Effects.Interference.{
  Ensures, OfReturned, Ensures-pure, Ensures-raise, Ensures-call, Ensures-bind, Ensures-attempt,
}
use ai_system_engineering_cu.Storage.Calls.{
  Bytes, Action, Error, object_not_found, object_store_unavailable, client_failure,
  boto_core_failure, body_failure, Shared, Performs,
}
use ai_system_engineering_cu.Storage.S3.{ensure_bucket, write_object}
use ai_system_engineering_cu.Storage.S3.Bucket.{ensure_bucket-Exists}
use ai_system_engineering_cu.Storage.S3.Writes.{Wrote, write_object-Wrote}
use ai_system_engineering_cu.Storage.Provision.{
  after_attempt, await_from, await_object_store, is_positive, object_store_attempts, upload,
  provision_corpus_objects,
}

abbrev pub documents_key : Text
documents_key = literal "corpus/documents.jsonl"

abbrev pub provenance_key : Text
provenance_key = literal "corpus/provenance.jsonl"

-- The others neither delete the bucket nor touch the two objects.
pub record KeepsCorpus (s t : Shared) : Type 0 where
  pub bucket : s.exists ≡ true → t.exists ≡ true
  pub documents : lookup documents_key t.objects ≡ lookup documents_key s.objects
  pub provenance : lookup provenance_key t.objects ≡ lookup provenance_key s.objects

abbrev Leads : {A : Type 0} → (A → Shared → Type 0) → Action A → Shared → Type 0
Leads Q m s = Ensures Performs KeepsCorpus (λ _ _. Unit {0}) Q m s

abbrev Exists : Unit {0} → Shared → Type 0
Exists done s = s.exists ≡ true

after_attempt-Exists :
    (waits : Bool) (o : Outcome Error Unit) (next : Action Unit) (s : Shared)
    → OfReturned Performs KeepsCorpus (λ _ _. Unit {0}) Exists o s
    → ((t : Shared) → Leads Exists next t)
    → Leads Exists (after_attempt waits o next) s
unfolding after_attempt
after_attempt-Exists waits (returned done) next s h n = Ensures-pure _ _ _ _ tt s h
after_attempt-Exists true (raised object_store_unavailable) next s h n =
    Ensures-call _ _ _ _ _ _ s (λ _ _. tt) (λ t r a u d. n u)
after_attempt-Exists false (raised object_store_unavailable) next s h n = n s
after_attempt-Exists waits (raised object_not_found) next s h n = Ensures-raise _ _ _ _ _ s
after_attempt-Exists waits (raised (client_failure code)) next s h n = Ensures-raise _ _ _ _ _ s
after_attempt-Exists waits (raised boto_core_failure) next s h n = Ensures-raise _ _ _ _ _ s
after_attempt-Exists waits (raised body_failure) next s h n = Ensures-raise _ _ _ _ _ s

await_from-Exists : (left : ℕ) (s : Shared) → Leads Exists (await_from left) s
unfolding await_from
await_from-Exists zero s = Ensures-raise _ _ _ _ _ s
await_from-Exists (suc left) s =
    Ensures-bind _ _ _ _ _ (attempt ensure_bucket) _ s
      (Ensures-attempt _ _ _ _ ensure_bucket s (ensure_bucket-Exists KeepsCorpus s))
      (λ o t h.
        after_attempt-Exists (is_positive left) o (await_from left) t h (await_from-Exists left))

module _ (files : Text → Bytes) where
  -- The bucket, and the two objects with the contents of the files.
  pub record IsProvisioned (s : Shared) : Type 0 where
    pub bucket : s.exists ≡ true
    pub documents : lookup documents_key s.objects ≡ some (files (literal "documents.jsonl"))
    pub provenance : lookup provenance_key s.objects ≡ some (files (literal "provenance.jsonl"))

  abbrev HasDocuments : Unit {0} → Shared → Type 0
  HasDocuments done s =
      (s.exists ≡ true)
      × (lookup documents_key s.objects ≡ some (files (literal "documents.jsonl")))

  HasDocuments-Wrote :
      (s u : Shared)
      → s.exists ≡ true
      → Wrote KeepsCorpus documents_key (files (literal "documents.jsonl")) s tt u
      → HasDocuments tt u
  HasDocuments-Wrote s u h (t, r, d) = (
    ap (λ v. v.exists) d ∙ r.bucket h,
    ap (λ v. lookup documents_key v.objects) d
        ∙ lookup-put_self documents_key (files (literal "documents.jsonl")) t.objects,
  )

  IsProvisioned-Wrote :
      (s u : Shared)
      → HasDocuments tt s
      → Wrote KeepsCorpus provenance_key (files (literal "provenance.jsonl")) s tt u
      → IsProvisioned u
  unfolding text_beq
  IsProvisioned-Wrote s u (h, docs) (t, r, d) = record {
    bucket = ap (λ v. v.exists) d ∙ r.bucket h;
    documents =
        ap (λ v. lookup documents_key v.objects) d
        ∙ lookup-put provenance_key documents_key (files (literal "provenance.jsonl")) t.objects
        ∙ r.documents
        ∙ docs;
    provenance =
        ap (λ v. lookup provenance_key v.objects) d
        ∙ lookup-put_self provenance_key (files (literal "provenance.jsonl")) t.objects;
  }

  -- While others neither delete the bucket nor touch the two objects: when the provisioning
  -- returns, the bucket exists and holds both corpus files with their contents.
  pub provision-IsProvisioned :
      (s : Shared)
      → Ensures Performs KeepsCorpus
          (λ _ _. Unit {0})
          (λ _ t. IsProvisioned t)
          (provision_corpus_objects files)
          s
  unfolding provision_corpus_objects await_object_store upload
  provision-IsProvisioned s =
      Ensures-bind _ _ _ _ Exists (await_from object_store_attempts) _ s
        (await_from-Exists object_store_attempts s)
        (λ _ t h.
          Ensures-bind _ _ _ _ _ (write_object documents_key (files (literal "documents.jsonl"))) _
            t (write_object-Wrote KeepsCorpus _ _ t)
            (λ _ u w.
              Ensures-bind _ _ _ _ _
                (write_object provenance_key (files (literal "provenance.jsonl"))) _ u
                (write_object-Wrote KeepsCorpus _ _ u)
                (λ _ v x.
                  Ensures-pure _ _ _ _ tt v
                    (IsProvisioned-Wrote u v (HasDocuments-Wrote t u h w) x))))
