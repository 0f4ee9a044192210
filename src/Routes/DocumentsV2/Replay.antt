-- ===== src/Routes/DocumentsV2/Replay.antt =====
-- A version 2 request with a completed key.
use ai_system_engineering_cu.Base.{ℕ, ◌≡◌, Bool, Option, some, Text, lookup, text_eq}
use ai_system_engineering_cu.Effects.{pure, raise, call, returned}
use ai_system_engineering_cu.Effects.Interference.{Holds, Ensures}
use ai_system_engineering_cu.Idempotency.Calls as idempotency
use ai_system_engineering_cu.Idempotency.Calls.{
  Shared, ClaimRow, Completion, insert_claim, select_claim, update_claim, delete_claim, perform,
}
use ai_system_engineering_cu.Idempotency.Store.Statements.{IsStatement}
use ai_system_engineering_cu.Idempotency.Handler.{required_key, run}
use ai_system_engineering_cu.Idempotency.Handler.Replay.{KeepsRow, IsReplay, run-IsReplay}
use ai_system_engineering_cu.Documents.Calls as documents
use ai_system_engineering_cu.Routes.DocumentsV2.{
  Call, claims_call, documents_call, Answer, Action, DocumentV2Request, DocumentV2Response,
  documents_operation_id, operation_v2, on_documents, protecting, create_document_v2,
}

-- The claims, and the tables of documents and chunks.
abbrev pub Both : Type 0
Both = Shared × documents.Shared

abbrev pub PerformsBoth : (c : Call) → Both → Answer c → Both → Type 0
PerformsBoth (claims_call c) s a s' = idempotency.Performs c s.0 a s'.0 × (s'.1 ≡ s.1)
PerformsBoth (documents_call c) s a s' = documents.Performs c s.1 a s'.1 × (s'.0 ≡ s.0)

abbrev pub IsClaimsCall : Call → Type 0
IsClaimsCall (claims_call c) = Unit
IsClaimsCall (documents_call c) = ⊥

module _ (Rely : Shared → Shared → Type 0) (same : (s : Shared) → Rely s s) where
  -- The handler that never performs its operation needs no statement of the operation.
  protecting-Holds :
      {A : Type 0} (Q : A → Type 0) (operation : Action (ℕ × Text)) (m : idempotency.Action A)
      (s : Both)
      → Holds idempotency.Performs Rely (λ c _. IsStatement c) (λ a _. Q a) m s.0
      → Holds PerformsBoth
          (λ t u. Rely t.0 u.0)
          (λ c _. IsClaimsCall c)
          (λ a _. Q a)
          (protecting operation m)
          s
  protecting-Holds Q operation (pure a) s h = h
  protecting-Holds Q operation (raise e) s h = tt
  protecting-Holds Q operation (call (perform key) k) s h = absurd (h s.0 (same s.0)).0
  protecting-Holds Q operation (call (insert_claim key op) k) s h =
      λ t r. (tt, λ a t' p. protecting-Holds Q operation (k a) t' ((h t.0 r).1 a t'.0 p.0))
  protecting-Holds Q operation (call (select_claim key) k) s h =
      λ t r. (tt, λ a t' p. protecting-Holds Q operation (k a) t' ((h t.0 r).1 a t'.0 p.0))
  protecting-Holds Q operation (call (update_claim key op status body) k) s h =
      λ t r. (tt, λ a t' p. protecting-Holds Q operation (k a) t' ((h t.0 r).1 a t'.0 p.0))
  protecting-Holds Q operation (call (delete_claim key op) k) s h =
      λ t r. (tt, λ a t' p. protecting-Holds Q operation (k a) t' ((h t.0 r).1 a t'.0 p.0))

module _ (casefold : Text → Text) (blake2b : Text → ℕ → ℕ) (kept : DocumentV2Response → Text)
    (dump encode loads : Text → Text) (key : Text) (row : ClaimRow) (completion : Completion)
    (whole : row.completion ≡ some completion) where
  -- While a completed row stands under the key of the header and others keep it, whatever else
  -- they do: the version 2 route makes no statement on documents or chunks, and what it answers is
  -- the recorded status and the recorded body, marked as replayed.
  pub create_document_v2-IsReplay :
      (available : Bool) (payload : DocumentV2Request) (header : Option Text) (s : Both)
      → required_key header ≡ returned key
      → lookup key s.0.claims ≡ some row
      → Ensures PerformsBoth
          (λ t u.
            KeepsRow dump encode loads documents_operation_id key row completion whole t.0 u.0)
          (λ c _. IsClaimsCall c)
          (λ a _. IsReplay dump encode loads documents_operation_id key row completion whole a)
          (create_document_v2 casefold blake2b kept dump encode loads available payload header)
          s
  unfolding create_document_v2
  create_document_v2-IsReplay available payload header s named h = record {
    at =
        protecting-Holds
          (KeepsRow dump encode loads documents_operation_id key row completion whole) (λ t i. i)
          (IsReplay dump encode loads documents_operation_id key row completion whole)
          (on_documents (operation_v2 casefold blake2b kept available payload))
          (run dump encode loads documents_operation_id header) s
          (run-IsReplay dump encode loads documents_operation_id key row completion whole header s.0
            named h).at;
  }
