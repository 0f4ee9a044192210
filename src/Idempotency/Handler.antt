-- ===== src/Idempotency/Handler.antt =====
-- src/api/idempotency.py: `IdempotencyHandler`. Spans are left out.
pub mod Replay
pub mod Order
pub mod Exclusion
use ai_system_engineering_cu.Base.{
  ℕ, Bool, true, false, not, ◌&&◌, Option, none, some, Text, [], ◌==◌, text_eq, leb, length, strip,
  if◌then◌else◌,
}
use ai_system_engineering_cu.Effects.{
  pure, raise, call, Outcome, returned, raised, ◌>>=◌, ◌>>◌, attempt, or_raise,
}
use ai_system_engineering_cu.Idempotency.Calls.{
  Action, Error, idempotency_conflict, validation_error, http_error, operation_error, perform,
}
use ai_system_engineering_cu.Idempotency.Store.{
  ClaimState, claimed, in_flight, completed, StoredResponse, stored_response, IdempotencyClaim,
  claim, complete, release,
}

-- `IdempotencyHandler.__init__`; `none` is its `ValueError`.
unfoldable pub checked_operation_id : Text → Option Text
checked_operation_id operation_id = if operation_id == [] then none else some operation_id

-- `request.headers.get(name, "")`
abbrev pub or_blank : Option Text → Text
or_blank none = []
or_blank (some header) = header

unfoldable pub checked_key : Text → Outcome Error Text
checked_key key =
    if key == []
    then raised (http_error 400)
    else if not (leb 8 (length key) && leb (length key) 200)
    then raised (http_error 400)
    else returned key

-- `_required_key`, by the header if there is one.
unfoldable pub required_key : Option Text → Outcome Error Text
unfolding checked_key
required_key header = checked_key (strip (or_blank header))

-- What the handler answers, with the header Idempotency-Replayed.
pub record Answered : Type 0 where
  pub status_code : ℕ
  pub replayed : Bool
  pub content : Text

-- The clause `except IdempotencyConflict`.
unfoldable pub as_http : Error → Error
as_http idempotency_conflict = http_error 409
as_http e = e

abbrev after_claim_error : Outcome Error IdempotencyClaim → Action IdempotencyClaim
after_claim_error (returned c) = pure c
after_claim_error (raised e) = raise (as_http e)

-- `dump` is `model_dump_json`, `encode` is `jsonable_encoder`, `loads` is `json.loads`.
module _ (dump encode loads : Text → Text) (operation_id : Text) where
  -- The assertion that a completed claim carries a response.
  replay : Option StoredResponse → Action Answered
  replay none = raise operation_error
  replay (some response) = pure (record {
    status_code = response.status_code;
    replayed = true;
    content = loads response.body;
  })

  unfoldable pub after_operation : Text → Outcome Error (ℕ × Text) → Action Answered
  unfolding release complete stored_response
  after_operation key (raised e) = do release key operation_id; raise e
  after_operation key (returned (status_code, payload)) = do
    response ← or_raise validation_error (stored_response status_code (dump payload))
    complete key operation_id response
    pure (record { status_code = status_code; replayed = false; content = encode payload })

  by_state : Text → ClaimState → Option StoredResponse → Action Answered
  unfolding replay after_operation
  by_state key completed response = replay response
  by_state key in_flight response = raise (http_error 409)
  by_state key claimed response = do outcome ← call (perform key) pure; after_operation key outcome

  unfoldable pub run_key : Text → Action Answered
  unfolding claim as_http by_state
  run_key key = do
    tried ← attempt (claim key operation_id)
    c ← after_claim_error tried
    by_state key c.state c.response

  unfoldable pub by_key : Outcome Error Text → Action Answered
  unfolding run_key
  by_key (raised e) = raise e
  by_key (returned key) = run_key key

  unfoldable pub run : Option Text → Action Answered
  unfolding required_key by_key
  run header = by_key (required_key header)
