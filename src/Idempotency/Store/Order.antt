-- ===== src/Idempotency/Store/Order.antt =====
-- Each statement of the store needs, gives or ends the ownership of the key as it says.
use ai_system_engineering_cu.Base.{
  ℕ, zero, suc, ◌≡◌, refl, ap, Bool, true, false, Option, none, some, Text, not, ◌==◌, text_eq,
  if◌then◌else◌,
}
use ai_system_engineering_cu.Effects.{raise, reply, reply_or, or_raise}
use ai_system_engineering_cu.Idempotency.Calls.{
  Action, validation_error, driver, idempotency_conflict, ClaimRow, Completion, insert_claim,
  select_claim, update_claim, delete_claim,
}
use ai_system_engineering_cu.Idempotency.Store.{
  ClaimState, claimed, in_flight, completed, StoredResponse, stored_response, IdempotencyClaim,
  by_completion, by_existing, by_inserted, attempt_claim, claim_attempts, claim, complete,
  after_update, release,
}
use ai_system_engineering_cu.Idempotency.Ownership.{
  Any, left_key, Follows, Follows-pure, Follows-raise, Follows-call, Follows-bind, Follows-reply,
  Follows-or_raise,
}

-- A claim that is new is owned.
abbrev pub held : Text → ClaimState → Option Text
held key claimed = some key
held key in_flight = none
held key completed = none

module _ (key operation_id : Text) where
  abbrev pub Claims : IdempotencyClaim → Option Text → Type 0
  Claims c left = left ≡ held key c.state

  by_completion-Follows :
      (row : ClaimRow) (o : Option Completion) → Follows Claims none (by_completion key row o)
  unfolding by_completion
  by_completion-Follows row none = Follows-pure _ _ _ refl
  by_completion-Follows row (some completion) =
      Follows-bind _ (λ _ left. left ≡ none) none
        (or_raise validation_error
          (stored_response completion.response_status completion.response_body))
        _ (Follows-or_raise _ none _ _ (λ _. refl)) (λ response left e. Follows-pure _ _ _ e)

  by_existing-Follows :
      (again : Action IdempotencyClaim) (o : Option ClaimRow)
      → Follows Claims none again
      → Follows Claims none (by_existing key operation_id again o)
  unfolding by_existing
  by_existing-Follows again none h = h
  by_existing-Follows again (some row) h = either (row.operation_id == operation_id)
    where
      either :
          (b : Bool)
          → Follows Claims none
              (if not b then raise idempotency_conflict else by_completion key row row.completion)
      either true = by_completion-Follows row row.completion
      either false = Follows-raise _ _ _

  by_inserted-Follows :
      (again : Action IdempotencyClaim) (o : Option ClaimRow)
      → Follows Claims none again
      → Follows Claims
          (left_key (insert_claim key operation_id) (reply o))
          (by_inserted key operation_id again o)
  unfolding by_inserted
  by_inserted-Follows again none h = Follows-call _ (select_claim key) _ (λ a.
      Follows-bind _ (λ _ left. left ≡ none) _ (reply_or driver a) _
        (Follows-reply _ _ _ a (λ o e. refl)) (λ o left e. rw e (by_existing-Follows again o h)))
  by_inserted-Follows again (some row) h = Follows-pure _ _ _ refl

  claim_attempts-Follows : (n : ℕ) → Follows Claims none (claim_attempts n key operation_id)
  unfolding claim_attempts attempt_claim
  claim_attempts-Follows zero = Follows-raise _ _ _
  claim_attempts-Follows (suc n) = Follows-call _ (insert_claim key operation_id) _ (λ a.
      Follows-bind _ (λ o left. left ≡ left_key (insert_claim key operation_id) (reply o)) _
        (reply_or driver a) _
        (Follows-reply _ _ _ a (λ o e. ap (left_key (insert_claim key operation_id)) e))
        (λ o left e. rw e (by_inserted-Follows _ o (claim_attempts-Follows n))))

  pub release-Follows : Follows Any (some key) (release key operation_id)
  unfolding release
  release-Follows =
      Follows-call _ (delete_claim key operation_id) _ (λ a. Follows-reply _ _ _ a (λ o e. tt))

  pub complete-Follows :
      (response : StoredResponse) → Follows Any (some key) (complete key operation_id response)
  unfolding complete after_update
  complete-Follows response =
      Follows-call _ (update_claim key operation_id response.status_code response.body) _ (λ a.
        Follows-bind _ Any _ (reply_or driver a) _ (Follows-reply _ _ _ a (λ o e. tt))
          (λ o left e. updated o left))
    where
      updated : (o : Option ClaimRow) (left : Option Text) → Follows Any left (after_update o)
      updated none left = Follows-raise _ _ _
      updated (some row) left = Follows-pure _ _ _ tt

  pub claim-Follows : Follows Claims none (claim key operation_id)
  unfolding claim
  claim-Follows = claim_attempts-Follows 3
