-- ===== src/Idempotency/Handler/Replay.antt =====
-- A request with a completed key.
use ai_system_engineering_cu.Base.{
  ◌≡◌, refl, sym, ap, ◌∙◌, subst, true, Option, none, some, some_eq, Text, lookup, text_eq,
}
use ai_system_engineering_cu.Effects.{Outcome, returned, raised, attempt}
use ai_system_engineering_cu.Effects.Interference.{
  Ensures, OfReturned, Ensures-pure, Ensures-raise, Ensures-bind, Ensures-attempt, Ensures-weaken,
  Ensures-strengthen,
}
use ai_system_engineering_cu.Idempotency.Calls.{
  Action, Shared, Performs, ClaimRow, Completion, Error,
}
use ai_system_engineering_cu.Idempotency.Store.{
  ClaimState, claimed, in_flight, completed, StoredResponse, IdempotencyClaim, claim,
}
use ai_system_engineering_cu.Idempotency.Store.Reports.{ReportsRow, AgreesWith, claim-ReportsRow}
use ai_system_engineering_cu.Idempotency.Store.Statements.{IsStatement, claim-Makes}
use ai_system_engineering_cu.Idempotency.Store.Finality.{Performs-Stands}
use ai_system_engineering_cu.Idempotency.Handler.{
  Answered, required_key, after_claim_error, replay, by_state, run_key, by_key, run,
}

module _ (dump encode loads : Text → Text) (operation_id key : Text) (row : ClaimRow)
    (completion : Completion) (whole : row.completion ≡ some completion) where
  -- The others keep a completed row, as every statement of the store does.
  abbrev pub KeepsRow : Shared → Shared → Type 0
  KeepsRow s t = lookup key s.claims ≡ some row → lookup key t.claims ≡ some row

  -- The recorded response, decoded.
  abbrev pub IsReplay : Answered → Type 0
  IsReplay answered =
      (answered.status_code ≡ completion.response_status)
      × (answered.replayed ≡ true)
      × (answered.content ≡ loads completion.response_body)

  abbrev Replays : {A : Type 0} → (A → Shared → Type 0) → Action A → Shared → Type 0
  Replays Q m s = Ensures Performs KeepsRow (λ c _. IsStatement c) Q m s

  recorded : StoredResponse
  recorded = record { status_code = completion.response_status; body = completion.response_body }

  -- A claim on a table that holds the row is COMPLETED, with the response of the row.
  agreed :
      (c : IdempotencyClaim) (s : Shared)
      → ReportsRow key operation_id c s
      → lookup key s.claims ≡ some row
      → AgreesWith c.state c.response (some completion)
  agreed c s (r, found, same, agrees) h =
      subst (AgreesWith c.state c.response)
        (ap (λ q. q.completion) (some_eq (sym found ∙ h)) ∙ whole) agrees

  by_state-IsReplay :
      (state : ClaimState) (response : Option StoredResponse) (s : Shared)
      → AgreesWith state response (some completion)
      → Replays (λ a _. IsReplay a) (by_state dump encode loads operation_id key state response) s
  unfolding by_state replay
  by_state-IsReplay completed none s h = Ensures-raise _ _ _ _ _ s
  by_state-IsReplay completed (some response) s h =
      Ensures-pure _ _ _ _ _ s
        (ap (λ r. r.status_code) (some_eq h), refl, ap (λ r. loads r.body) (some_eq h))
  by_state-IsReplay claimed response s h = absurd h
  by_state-IsReplay in_flight response s h = absurd h

  after_claim_error-Agrees :
      (o : Outcome Error IdempotencyClaim) (s : Shared)
      → OfReturned Performs KeepsRow
          (λ c _. IsStatement c)
          (λ c _. AgreesWith c.state c.response (some completion))
          o
          s
      → Replays (λ c _. AgreesWith c.state c.response (some completion)) (after_claim_error o) s
  after_claim_error-Agrees (returned c) s h = Ensures-pure _ _ _ _ c s h
  after_claim_error-Agrees (raised e) s h = Ensures-raise _ _ _ _ _ s

  claim-Agrees :
      (s : Shared)
      → lookup key s.claims ≡ some row
      → Replays (λ c _. AgreesWith c.state c.response (some completion)) (claim key operation_id) s
  claim-Agrees s h =
      Ensures-weaken _ _ _ _ _ _ s (λ c t both. agreed c t both.0 both.1)
        (Ensures-strengthen Performs KeepsRow IsStatement (λ t. lookup key t.claims ≡ some row)
          (λ t u keeps i. keeps i)
          (λ c t a u p i. Performs-Stands key row completion whole c t a u p i) _
          (claim key operation_id) s (claim-ReportsRow key operation_id s)
          (claim-Makes key operation_id) h)

  -- While a completed row stands under the key of the header and others keep it: run never
  -- performs the operation, and what it answers is the recorded status and the recorded body,
  -- marked as replayed.
  pub run-IsReplay :
      (header : Option Text) (s : Shared)
      → required_key header ≡ returned key
      → lookup key s.claims ≡ some row
      → Ensures Performs KeepsRow
          (λ c _. IsStatement c)
          (λ a _. IsReplay a)
          (run dump encode loads operation_id header)
          s
  unfolding run run_key by_key
  run-IsReplay header s named h = rw named (
      Ensures-bind _ _ _ _ _ (attempt (claim key operation_id)) _ s
        (Ensures-attempt _ _ _ _ (claim key operation_id) s (claim-Agrees s h))
        (λ o t agrees.
          Ensures-bind _ _ _ _ _ (after_claim_error o) _ t (after_claim_error-Agrees o t agrees)
            (λ c u agrees'. by_state-IsReplay c.state c.response u agrees')))
