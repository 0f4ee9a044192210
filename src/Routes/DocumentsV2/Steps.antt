-- ===== src/Routes/DocumentsV2/Steps.antt =====
-- What the parts of the protected write do to the claims: the new claim, its completion, its
-- release and the replay of a completed one.
use ai_system_engineering_cu.Base.{
  ℕ, ◌≡◌, refl, sym, subst, ap, true, false, Option, none, some, List, Text, length, lookup, put,
  remove, text_eq, text_beq,
}
use ai_system_engineering_cu.Effects.{call, Reply, reply, Outcome, returned, raised, attempt, ◌>>=◌}
use ai_system_engineering_cu.Domain.Documents.{ChunkRecord}
use ai_system_engineering_cu.Documents.Calls as documents
use ai_system_engineering_cu.Idempotency.Calls as idempotency
use ai_system_engineering_cu.Idempotency.Calls.{
  Error, operation_error, Shared, ClaimRow, Completion, insert_claim, select_claim, update_claim,
  delete_claim, perform, inserted_claim, updated_claim, is_deleted, is_open, write_claim, delete_if,
}
use ai_system_engineering_cu.Idempotency.Store.{
  claim, claim_attempts, complete, release, stored_response,
}
use ai_system_engineering_cu.Idempotency.Handler.{Answered, run_key, after_operation}
use ai_system_engineering_cu.Routes.DocumentsV2.{
  Action, DocumentV2Request, DocumentV2Response, documents_operation_id, protecting,
}
use ai_system_engineering_cu.Routes.DocumentsV2.Replay.{Both}
use ai_system_engineering_cu.Routes.DocumentsV2.Run.{run_both}

-- What goes on after the answer of a statement that returns a row.
abbrev resume : {A : Type 0} → idempotency.Action A → Reply (Option ClaimRow) → idempotency.Action A
resume (call (insert_claim key op) k) a = k a
resume (call (select_claim key) k) a = k a
resume (call (update_claim key op status body) k) a = k a
resume m a = m

-- The row of a key in flight, and then with the response.
abbrev pub open_row : ℕ → ClaimRow
open_row now = record { operation_id = documents_operation_id; claimed_at = now; completion = none }

abbrev pub done_row : ℕ → Text → ClaimRow
done_row now body = record (open_row now) {
  completion = some (record { completed_at = now; response_status = 201; response_body = body });
}

abbrev pub put_row : Text → ClaimRow → Shared → Shared
put_row key row s = record s { claims = put key row s.claims }

abbrev pub answered_once : (encode : Text → Text) → Text → Answered
answered_once encode body = record { status_code = 201; replayed = false; content = encode body }

abbrev pub replayed_once : (dump loads : Text → Text) → Text → Answered
replayed_once dump loads body = record {
  status_code = 201;
  replayed = true;
  content = loads (dump body);
}

abbrev pub done : (dump : Text → Text) → ℕ → Text → Text → Shared → Shared
done dump now key body s = put_row key (done_row now (dump body)) (put_row key (open_row now) s)

abbrev pub released : ℕ → Text → Shared → Shared
released now key s = record s { claims = remove key (put key (open_row now) s.claims) }

abbrev pub response_of : DocumentV2Request → List ChunkRecord → DocumentV2Response
response_of payload chunks = record {
  document_id = payload.document.document_id;
  chunk_count = length chunks;
  source_system = payload.source_system;
}

module _ (dump encode loads : Text → Text) (now : ℕ) (operation : Action (ℕ × Text))
    (key : Text) where
  abbrev pub guarded : idempotency.Action Answered → Both → Outcome Error Answered × Both
  guarded m s = run_both now (protecting operation m) s

  pub completes :
      (s : Shared) (d : documents.Shared) (body : Text)
      → lookup key s.claims ≡ some (open_row now)
      → guarded
          (after_operation dump encode loads documents_operation_id key (returned (201, body)))
          (s, d)
        ≡ (returned (answered_once encode body), (put_row key (done_row now (dump body)) s, d))
  unfolding after_operation stored_response complete updated_claim is_open text_beq write_claim
  completes s d body h =
      subst
        (λ o.
          guarded
            (resume
              (after_operation dump encode loads documents_operation_id key (returned (201, body)))
              (reply (updated_claim now documents_operation_id 201 (dump body) o)))
            (write_claim key (updated_claim now documents_operation_id 201 (dump body) o) s, d)
          ≡ (returned (answered_once encode body), (put_row key (done_row now (dump body)) s, d)))
        (sym h) refl

  pub releases :
      (s : Shared) (d : documents.Shared) (e : Error)
      → lookup key s.claims ≡ some (open_row now)
      → guarded (after_operation dump encode loads documents_operation_id key (raised e)) (s, d)
        ≡ (raised e, (record s { claims = remove key s.claims }, d))
  unfolding after_operation release is_deleted is_open text_beq delete_if
  releases s d e h =
      let left : Option ClaimRow → Outcome Error Answered × Both =
        λ o. (raised e, (delete_if (is_deleted documents_operation_id o) key s, d)) in
      ap left h

  pub claims_first :
      (s : Both)
      → lookup key s.0.claims ≡ none
      → guarded (run_key dump encode loads documents_operation_id key) s
        ≡ run_both now
            (attempt operation >>= λ o.
              protecting operation (after_operation dump encode loads documents_operation_id key o))
            (put_row key (open_row now) s.0, s.1)
  unfolding run_key claim claim_attempts inserted_claim write_claim after_operation
  claims_first s h =
      subst
        (λ o.
          guarded
            (resume (run_key dump encode loads documents_operation_id key)
              (reply (inserted_claim now documents_operation_id o)))
            (write_claim key (inserted_claim now documents_operation_id o) s.0, s.1)
          ≡ run_both now
              (attempt operation >>= λ outcome.
                protecting operation
                  (after_operation dump encode loads documents_operation_id key outcome))
              (put_row key (open_row now) s.0, s.1))
        (sym h) refl

  pub replays :
      (s : Both) (body : Text) (then : ℕ)
      → lookup key s.0.claims ≡ some (done_row then body)
      → guarded (run_key dump encode loads documents_operation_id key) s
        ≡ (returned (record { status_code = 201; replayed = true; content = loads body }), s)
  unfolding run_key claim claim_attempts inserted_claim write_claim text_beq stored_response
  replays s body then h =
      let request = run_key dump encode loads documents_operation_id key in
      subst
        (λ o.
          guarded (resume request (reply (inserted_claim now documents_operation_id o)))
            (write_claim key (inserted_claim now documents_operation_id o) s.0, s.1)
          ≡ (returned (record { status_code = 201; replayed = true; content = loads body }), s))
        (sym h)
        (subst
          (λ o.
            guarded (resume (resume request (reply none)) (reply o)) s
            ≡ (returned (record { status_code = 201; replayed = true; content = loads body }), s))
          (sym h) refl)
