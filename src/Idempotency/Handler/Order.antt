-- ===== src/Idempotency/Handler/Order.antt =====
-- The handler owns the key at each call that needs it.
use ai_system_engineering_cu.Base.{ℕ, ◌≡◌, refl, Option, none, some, Text, text_eq}
use ai_system_engineering_cu.Effects.{Outcome, returned, raised, or_raise, attempt}
use ai_system_engineering_cu.Idempotency.Calls.{Error, validation_error, perform}
use ai_system_engineering_cu.Idempotency.Store.{
  ClaimState, claimed, in_flight, completed, StoredResponse, stored_response, IdempotencyClaim,
  claim, complete, release,
}
use ai_system_engineering_cu.Idempotency.Store.Order.{
  held, Claims, claim-Follows, complete-Follows, release-Follows,
}
use ai_system_engineering_cu.Idempotency.Ownership.{
  Any, Follows, Tried, Follows-pure, Follows-raise, Follows-call, Follows-bind, Follows-attempt,
  Follows-or_raise,
}
use ai_system_engineering_cu.Idempotency.Handler.{
  required_key, after_claim_error, replay, after_operation, by_state, run_key, by_key, run,
}

module _ (key operation_id : Text) where
  module _ (dump encode loads : Text → Text) where
    after_operation-Follows :
        (o : Outcome Error (ℕ × Text))
        → Follows Any (some key) (after_operation dump encode loads operation_id key o)
    unfolding after_operation
    after_operation-Follows (raised e) =
        Follows-bind _ Any _ (release key operation_id) _ (release-Follows key operation_id)
          (λ _ left _. Follows-raise _ _ _)
    after_operation-Follows (returned (status_code, payload)) =
        Follows-bind _ (λ _ left. left ≡ some key) (some key)
          (or_raise validation_error (stored_response status_code (dump payload))) _
          (Follows-or_raise _ (some key) _ _ (λ _. refl))
          (λ response left e. rw e (
            Follows-bind _ Any _ (complete key operation_id response) _
              (complete-Follows key operation_id response) (λ _ left' _. Follows-pure _ _ _ tt)))

    by_state-Follows :
        (state : ClaimState) (response : Option StoredResponse)
        → Follows Any (held key state) (by_state dump encode loads operation_id key state response)
    unfolding by_state replay
    by_state-Follows completed none = Follows-raise _ _ _
    by_state-Follows completed (some response) = Follows-pure _ _ _ tt
    by_state-Follows in_flight response = Follows-raise _ _ _
    by_state-Follows claimed response = Follows-call _ (perform key) _ after_operation-Follows

    after_claim_error-Follows :
        (o : Outcome Error IdempotencyClaim) (left : Option Text)
        → Tried (Claims key operation_id) o left
        → Follows (Claims key operation_id) left (after_claim_error o)
    after_claim_error-Follows (returned c) left h = Follows-pure _ _ _ h
    after_claim_error-Follows (raised e) left h = Follows-raise _ _ _

    run_key-Follows : Follows Any none (run_key dump encode loads operation_id key)
    unfolding run_key
    run_key-Follows =
        Follows-bind _ (Tried (Claims key operation_id)) _ (attempt (claim key operation_id)) _
          (Follows-attempt _ _ (claim key operation_id) (claim-Follows key operation_id))
          (λ o left h.
            Follows-bind _ (Claims key operation_id) _ (after_claim_error o) _
              (after_claim_error-Follows o left h)
              (λ c left' e. rw e (by_state-Follows c.state c.response)))

module _ (dump encode loads : Text → Text) (operation_id : Text) where
  by_key-Follows :
      (o : Outcome Error Text) → Follows Any none (by_key dump encode loads operation_id o)
  unfolding by_key
  by_key-Follows (raised e) = Follows-raise _ _ _
  by_key-Follows (returned key) = run_key-Follows key operation_id dump encode loads

  pub run-Follows :
      (header : Option Text) → Follows Any none (run dump encode loads operation_id header)
  unfolding run
  run-Follows header = by_key-Follows (required_key header)
