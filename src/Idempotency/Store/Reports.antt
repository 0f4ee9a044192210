-- ===== src/Idempotency/Store/Reports.antt =====
-- What `claim` reports is what the table held at its last statement.
use ai_system_engineering_cu.Base.{
  ℕ, zero, suc, ◌≡◌, refl, sym, ap, ◌∙◌, inl, inr, Bool-cases, Option, none, some, Text, lookup,
  lookup-put_self, ◌==◌, text_eq, text_beq_iff, leb, ◌&&◌,
}
use ai_system_engineering_cu.Effects.{call, Reply, reply, fault, reply_or, ◌>>=◌}
use ai_system_engineering_cu.Effects.Interference.{
  Ensures, Ensures-pure, Ensures-raise, Ensures-call, Ensures-bind,
}
use ai_system_engineering_cu.Idempotency.Calls.{
  Action, Shared, Performs, ClaimRow, Completion, driver, inserted_claim, write_claim, insert_claim,
  select_claim,
}
use ai_system_engineering_cu.Idempotency.Store.{
  ClaimState, claimed, in_flight, completed, StoredResponse, stored_response, IdempotencyClaim,
  by_completion, by_existing, by_inserted, attempt_claim, claim_attempts, claim,
}

-- The state of a claim, by what a row holds. A row that this claim inserted is in flight as well.
abbrev pub AgreesWith : ClaimState → Option StoredResponse → Option Completion → Type 0
AgreesWith claimed response none = response ≡ none
AgreesWith in_flight response none = response ≡ none
AgreesWith completed response (some completion) =
    response
    ≡ some (record { status_code = completion.response_status; body = completion.response_body })
AgreesWith _ response _ = ⊥

-- There is a row of the operation under the key, and the claim says how far it is.
abbrev pub ReportsRow : Text → Text → IdempotencyClaim → Shared → Type 0
ReportsRow key operation_id c s =
    (row : ClaimRow) × (lookup key s.claims ≡ some row)
    × (row.operation_id ≡ operation_id)
    × AgreesWith c.state c.response row.completion

module _ (key operation_id : Text) where
  abbrev Gives : {A : Type 0} → (A → Shared → Type 0) → Action A → Shared → Type 0
  Gives Q m s = Ensures Performs (λ _ _. Unit {0}) (λ _ _. Unit {0}) Q m s

  by_completion-ReportsRow :
      (row : ClaimRow) (o : Option Completion) (s : Shared)
      → row.completion ≡ o
      → lookup key s.claims ≡ some row
      → row.operation_id ≡ operation_id
      → Gives (ReportsRow key operation_id) (by_completion key row o) s
  unfolding by_completion
  by_completion-ReportsRow row none s e found same =
      Ensures-pure _ _ _ _ _ s (row, found, same, rw e refl)
  by_completion-ReportsRow row (some completion) s e found same =
      elim (Bool-cases (leb 100 completion.response_status && leb completion.response_status 599)) [
        | inl fine ↦
            rw (fine, stored_response) (Ensures-pure _ _ _ _ _ s (row, found, same, rw e refl))
        | inr bad ↦ rw (bad, stored_response) (Ensures-raise _ _ _ _ _ s)
      ]

  by_existing-ReportsRow :
      (again : Action IdempotencyClaim) (o : Option ClaimRow) (s : Shared)
      → lookup key s.claims ≡ o
      → Gives (ReportsRow key operation_id) again s
      → Gives (ReportsRow key operation_id) (by_existing key operation_id again o) s
  unfolding by_existing
  by_existing-ReportsRow again none s found h = h
  by_existing-ReportsRow again (some row) s found h =
      elim (Bool-cases (row.operation_id == operation_id)) [
        | inl same ↦ rw same (
            by_completion-ReportsRow row row.completion s refl found
              ((text_beq_iff row.operation_id operation_id).0 same))
        | inr other ↦ rw other (Ensures-raise _ _ _ _ _ s)
      ]

  by_inserted-ReportsRow :
      (again : Action IdempotencyClaim) (now : ℕ) (before : Option ClaimRow) (o : Option ClaimRow)
      (s t : Shared)
      → lookup key s.claims ≡ before
      → o ≡ inserted_claim now operation_id before
      → t ≡ write_claim key (inserted_claim now operation_id before) s
      → ((u : Shared) → Gives (ReportsRow key operation_id) again u)
      → Gives (ReportsRow key operation_id) (by_inserted key operation_id again o) t
  unfolding by_inserted inserted_claim write_claim
  by_inserted-ReportsRow again now none o s t found e e' h = rw e (
      Ensures-pure _ _ _ _ _ t (
        record { operation_id = operation_id; claimed_at = now; completion = none },
        rw e' (lookup-put_self key _ s.claims),
        refl,
        refl,
      ))
  by_inserted-ReportsRow again now (some row) o s t found e e' h = rw e (
      Ensures-bind _ _ _ _ (λ o u. lookup key u.claims ≡ o)
        (call (select_claim key) (reply_or driver)) _ t
        (Ensures-call _ _ _ _ _ _ t (λ _ _. tt) (λ u r a u' p. selected u u' a p))
        (λ existing u f. by_existing-ReportsRow again existing u f (h u)))
    where
      selected :
          (u u' : Shared) (a : Reply (Option ClaimRow))
          → Performs (select_claim key) u a u'
          → Gives (λ existing v. lookup key v.claims ≡ existing) (reply_or driver a) u'
      selected u u' (reply existing) p =
          Ensures-pure _ _ _ _ existing u' (ap (λ v. lookup key v.claims) p.1 ∙ sym p.0)
      selected u u' fault p = Ensures-raise _ _ _ _ _ u'

  attempt_claim-ReportsRow :
      (again : Action IdempotencyClaim) (s : Shared)
      → ((u : Shared) → Gives (ReportsRow key operation_id) again u)
      → Gives (ReportsRow key operation_id) (attempt_claim key operation_id again) s
  unfolding attempt_claim
  attempt_claim-ReportsRow again s h =
      Ensures-call _ _ _ _ _ _ s (λ _ _. tt) (λ u r a u' p. inserted u u' a p)
    where
      inserted :
          (u u' : Shared) (a : Reply (Option ClaimRow))
          → Performs (insert_claim key operation_id) u a u'
          → Gives
              (ReportsRow key operation_id)
              (reply_or driver a >>= by_inserted key operation_id again)
              u'
      inserted u u' (reply o) (now, p) = by_inserted-ReportsRow again now _ o u u' refl p.0 p.1 h
      inserted u u' fault p = Ensures-raise _ _ _ _ _ u'

  claim_attempts-ReportsRow :
      (n : ℕ) (s : Shared)
      → Gives (ReportsRow key operation_id) (claim_attempts n key operation_id) s
  unfolding claim_attempts
  claim_attempts-ReportsRow zero s = Ensures-raise _ _ _ _ _ s
  claim_attempts-ReportsRow (suc n) s =
      attempt_claim-ReportsRow _ s (λ u. claim_attempts-ReportsRow n u)

  -- Whatever others do to the table between its statements: when claim returns, the table holds a
  -- row of the operation under the key; the row is completed exactly if the claim is COMPLETED,
  -- and then the claim carries the response of the row.
  pub claim-ReportsRow :
      (s : Shared)
      → Ensures Performs
          (λ _ _. Unit {0})
          (λ _ _. Unit {0})
          (ReportsRow key operation_id)
          (claim key operation_id)
          s
  unfolding claim
  claim-ReportsRow s = claim_attempts-ReportsRow 3 s
