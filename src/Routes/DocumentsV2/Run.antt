-- ===== src/Routes/DocumentsV2/Run.antt =====
-- A version 2 request alone with a database that does what each statement asks.
use ai_system_engineering_cu.Base.{ℕ, ◌≡◌, refl, ◌++◌, [], ◌∷◌, lookup, text_eq}
use ai_system_engineering_cu.Effects.{
  pure, raise, call, reply, Outcome, returned, raised, attempt, ◌>>=◌,
}
use ai_system_engineering_cu.Documents.Calls as documents
use ai_system_engineering_cu.Documents.Run as documents_run
use ai_system_engineering_cu.Documents.Run.{run-bind, run-bind_raised}
use ai_system_engineering_cu.Idempotency.Calls as idempotency
use ai_system_engineering_cu.Idempotency.Calls.{
  Error, operation_error, Shared, ClaimRow, Completion, insert_claim, select_claim, update_claim,
  delete_claim, perform, inserted_claim, updated_claim, is_deleted, is_open, write_claim, delete_if,
}
use ai_system_engineering_cu.Routes.DocumentsV2.{
  Call, claims_call, documents_call, Answer, Action, on_documents,
}
use ai_system_engineering_cu.Routes.DocumentsV2.Replay.{Both}

-- `now` is the time of every statement.
abbrev pub performed : ℕ → (c : idempotency.Call) → Shared → idempotency.Answer c × Shared
performed now (insert_claim key op) s = (
  reply (inserted_claim now op (lookup key s.claims)),
  write_claim key (inserted_claim now op (lookup key s.claims)) s,
)
performed now (select_claim key) s = (reply (lookup key s.claims), s)
performed now (update_claim key op status body) s = (
  reply (updated_claim now op status body (lookup key s.claims)),
  write_claim key (updated_claim now op status body (lookup key s.claims)) s,
)
performed now (delete_claim key op) s =
    (reply tt, delete_if (is_deleted op (lookup key s.claims)) key s)
performed now (perform key) s =
    (raised operation_error, record s { performed = s.performed ++ key ∷ [] })

abbrev pub both : ℕ → (c : Call) → Both → Answer c × Both
both now (claims_call c) s = ((performed now c s.0).0, ((performed now c s.0).1, s.1))
both now (documents_call c) s =
    ((documents_run.performed c s.1).0, (s.0, (documents_run.performed c s.1).1))

abbrev pub run_both : {A : Type 0} → ℕ → Action A → Both → Outcome Error A × Both
run_both now (pure a) s = (returned a, s)
run_both now (raise e) s = (raised e, s)
run_both now (call c k) s = run_both now (k (both now c s).0) (both now c s).1

abbrev pub as_operation : {A : Type 0} → Outcome documents.Error A → Outcome Error A
as_operation (returned a) = returned a
as_operation (raised e) = raised operation_error

-- The operation runs on the tables of documents and chunks.
pub run_both-on_documents :
    {A B : Type 0} (now : ℕ) (m : documents.Action A) (f : Outcome Error A → Action B) (s : Both)
    → run_both now (attempt (on_documents m) >>= f) s
      ≡ run_both now
          (f (as_operation (documents_run.run m s.1).0))
          (s.0, (documents_run.run m s.1).1)
run_both-on_documents now (pure a) f s = refl
run_both-on_documents now (raise e) f s = refl
run_both-on_documents now (call c k) f s =
    run_both-on_documents now (k (documents_run.performed c s.1).0) f
      (s.0, (documents_run.performed c s.1).1)
