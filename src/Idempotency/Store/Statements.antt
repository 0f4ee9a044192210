-- ===== src/Idempotency/Store/Statements.antt =====
-- The store never performs the operation that a key protects.
use ai_system_engineering_cu.Base.{ℕ, zero, suc, Option, none, some, Text}
use ai_system_engineering_cu.Effects.Guarantee.{
  Makes, Makes-call, Makes-bind, Makes-reply, makes_rules,
}
use ai_system_engineering_cu.Effects.{reply_or}
use ai_system_engineering_cu.Idempotency.Calls.{Action, Call, perform, driver, ClaimRow, Completion}
use ai_system_engineering_cu.Idempotency.Store.{
  IdempotencyClaim, by_completion, by_existing, by_inserted, attempt_claim, claim_attempts, claim,
}

abbrev pub IsStatement : Call → Type 0
IsStatement (perform key) = ⊥
IsStatement _ = Unit

by_completion-Makes :
    (key : Text) (row : ClaimRow) (o : Option Completion)
    → Makes IsStatement (by_completion key row o)
unfolding by_completion
by_completion-Makes key row none = search makes_rules
by_completion-Makes key row (some completion) = search makes_rules

module _ (key operation_id : Text) where
  by_existing-Makes :
      (again : Action IdempotencyClaim) (o : Option ClaimRow)
      → Makes IsStatement again
      → Makes IsStatement (by_existing key operation_id again o)
  unfolding by_existing
  by_existing-Makes again none h = h
  by_existing-Makes again (some row) h = search (makes_rules, by_completion-Makes)

  by_inserted-Makes :
      (again : Action IdempotencyClaim) (o : Option ClaimRow)
      → Makes IsStatement again
      → Makes IsStatement (by_inserted key operation_id again o)
  unfolding by_inserted
  by_inserted-Makes again none h = Makes-call _ _ tt (λ a.
      Makes-bind (reply_or driver a) _ (Makes-reply driver a)
        (λ existing. by_existing-Makes again existing h))
  by_inserted-Makes again (some row) h = search makes_rules

  claim_attempts-Makes : (n : ℕ) → Makes IsStatement (claim_attempts n key operation_id)
  unfolding claim_attempts attempt_claim
  claim_attempts-Makes zero = search makes_rules
  claim_attempts-Makes (suc n) = Makes-call _ _ tt (λ a.
      Makes-bind (reply_or driver a) _ (Makes-reply driver a)
        (λ inserted. by_inserted-Makes _ inserted (claim_attempts-Makes n)))

  pub claim-Makes : Makes IsStatement (claim key operation_id)
  unfolding claim
  claim-Makes = claim_attempts-Makes 3
