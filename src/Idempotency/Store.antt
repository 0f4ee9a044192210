-- ===== src/Idempotency/Store.antt =====
-- src/adapters/persistence/idempotency.py: `PostgresIdempotencyStore`. Spans are left out.
pub mod Reports
pub mod Order
pub mod Statements
pub mod Finality
use ai_system_engineering_cu.Base.{
  ℕ, zero, suc, Bool, true, false, not, ◌&&◌, Option, none, some, Text, ◌==◌, text_eq, leb,
  if◌then◌else◌,
}
use ai_system_engineering_cu.Effects.{pure, raise, call, ◌>>=◌, reply_or, or_raise}
use ai_system_engineering_cu.Idempotency.Calls.{
  Action, Error, idempotency_conflict, validation_error, driver, Completion, ClaimRow, insert_claim,
  select_claim, update_claim, delete_claim,
}

pub data ClaimState : Type 0 where
  claimed in_flight completed : ClaimState

pub record StoredResponse : Type 0 where
  pub status_code : ℕ
  pub body : Text

-- `StoredResponse(…)`; `none` is a `ValidationError`.
unfoldable pub stored_response : ℕ → Text → Option StoredResponse
stored_response status_code body =
    if leb 100 status_code && leb status_code 599
    then some (record { status_code = status_code; body = body })
    else none

pub record IdempotencyClaim : Type 0 where
  pub key : Text
  pub operation_id : Text
  pub state : ClaimState
  pub response : Option StoredResponse
  pub claimed_at : ℕ

-- A row of the operation itself.
by_completion : Text → ClaimRow → Option Completion → Action IdempotencyClaim
unfolding stored_response
by_completion key row none = pure (record {
  key = key;
  operation_id = row.operation_id;
  state = in_flight;
  response = none;
  claimed_at = row.claimed_at;
})
by_completion key row (some completion) = do
  response ←
      or_raise validation_error
        (stored_response completion.response_status completion.response_body)
  pure (record {
    key = key;
    operation_id = row.operation_id;
    state = completed;
    response = some response;
    claimed_at = row.claimed_at;
  })

-- `again` is the rest of the loop.
by_existing : Text → Text → Action IdempotencyClaim → Option ClaimRow → Action IdempotencyClaim
unfolding by_completion
by_existing key operation_id again none = again
by_existing key operation_id again (some row) =
    if not (row.operation_id == operation_id)
    then raise idempotency_conflict
    else by_completion key row row.completion

by_inserted : Text → Text → Action IdempotencyClaim → Option ClaimRow → Action IdempotencyClaim
unfolding by_existing
by_inserted key operation_id again (some row) = pure (record {
  key = key;
  operation_id = operation_id;
  state = claimed;
  response = none;
  claimed_at = row.claimed_at;
})
by_inserted key operation_id again none = do
  existing ← call (select_claim key) (reply_or driver)
  by_existing key operation_id again existing

-- One turn of the loop.
attempt_claim : Text → Text → Action IdempotencyClaim → Action IdempotencyClaim
unfolding by_inserted
attempt_claim key operation_id again = do
  inserted ← call (insert_claim key operation_id) (reply_or driver)
  by_inserted key operation_id again inserted

unfoldable pub claim_attempts : ℕ → Text → Text → Action IdempotencyClaim
unfolding attempt_claim
claim_attempts zero key operation_id = raise idempotency_conflict
claim_attempts (suc n) key operation_id =
    attempt_claim key operation_id (claim_attempts n key operation_id)

unfoldable pub claim : Text → Text → Action IdempotencyClaim
unfolding claim_attempts
claim key operation_id = claim_attempts 3 key operation_id

after_update : Option ClaimRow → Action Unit
after_update none = raise idempotency_conflict
after_update (some row) = pure tt

unfoldable pub complete : Text → Text → StoredResponse → Action Unit
unfolding after_update
complete key operation_id response = do
  updated ←
      call (update_claim key operation_id response.status_code response.body) (reply_or driver)
  after_update updated

unfoldable pub release : Text → Text → Action Unit
release key operation_id = call (delete_claim key operation_id) (reply_or driver)
