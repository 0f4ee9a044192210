-- ===== src/Exceptions/Permitted.antt =====
-- The calls that may change the table `exceptions`, and what a consistent record is.
use ai_system_engineering_cu.Base.{◌≡◌, refl, ◌∙◌, subst, Option, none, some, List, [], ◌∷◌, Text}
use ai_system_engineering_cu.Domain.Contracts.{
  ExceptionState, received, queued, processing, completed, failed, ExceptionRecord,
}
use ai_system_engineering_cu.Exceptions.Calls.{
  Call, select_exception, insert_exception, update_exception, xadd,
}

-- The six transitions of the workflow: allowed starting states, target, summary and reason.
pub data IsTransition
    : List ExceptionState → ExceptionState → Option Text → Option Text → Type 0 where
  enqueue : IsTransition (received ∷ []) queued none none
  begin : IsTransition (queued ∷ []) processing none none
  requeue : IsTransition (processing ∷ []) queued none none
  complete : (summary : Text) → IsTransition (processing ∷ []) completed (some summary) none
  reject : (reason : Text) → IsTransition (queued ∷ []) failed none (some reason)
  exhaust : (reason : Text) → IsTransition (processing ∷ []) failed none (some reason)

abbrev pub IsPermitted : Call → Type 0
IsPermitted (select_exception id) = Unit
IsPermitted (insert_exception r) =
    (r.state ≡ received) × (r.summary ≡ none) × (r.failure_reason ≡ none)
IsPermitted (update_exception id expected target summary failure_reason) =
    IsTransition expected target summary failure_reason
IsPermitted _ = Unit

-- What a worker calls: it makes transitions, and neither inserts nor publishes.
abbrev pub IsWorkerCall : Call → Type 0
IsWorkerCall (insert_exception r) = ⊥
IsWorkerCall (update_exception id expected target summary failure_reason) =
    IsTransition expected target summary failure_reason
IsWorkerCall (xadd job) = ⊥
IsWorkerCall _ = Unit

abbrev pub IsTerminal : ExceptionState → Type 0
IsTerminal completed = Unit
IsTerminal failed = Unit
IsTerminal _ = ⊥

-- A summary exactly with `COMPLETED`, a reason exactly with `FAILED`.
abbrev pub HasOutcome : ExceptionState → Option Text → Option Text → Type 0
HasOutcome completed summary failure_reason =
    ((text : Text) × (summary ≡ some text)) × (failure_reason ≡ none)
HasOutcome failed summary failure_reason =
    (summary ≡ none) × ((reason : Text) × (failure_reason ≡ some reason))
HasOutcome _ summary failure_reason = (summary ≡ none) × (failure_reason ≡ none)

-- The row under the key `id` is consistent.
abbrev pub IsConsistent : Text → ExceptionRecord → Type 0
IsConsistent id r = (r.exception_id ≡ id) × HasOutcome r.state r.summary r.failure_reason

-- What a later state of the table keeps of a row: a terminal row is the same row, and so is one
-- that is still RECEIVED.
abbrev pub Later : ExceptionRecord → ExceptionRecord → Type 0
Later r r' =
    (r'.exception_id ≡ r.exception_id)
    × (r'.reading ≡ r.reading)
    × (r'.accepted_at ≡ r.accepted_at)
    × (IsTerminal r.state → r' ≡ r)
    × (r'.state ≡ received → r' ≡ r)

pub Later-refl : (r : ExceptionRecord) → Later r r
Later-refl r = (refl, refl, refl, λ _. refl, λ _. refl)

pub Later-trans : (r r' r'' : ExceptionRecord) → Later r r' → Later r' r'' → Later r r''
Later-trans r r' r'' h k = (
  k.0 ∙ h.0,
  k.1 ∙ h.1,
  k.2 ∙ h.2,
  λ t. let same = h.3 t in k.3 (rw same t) ∙ same,
  λ e. let same = k.4 e in same ∙ h.4 (subst (λ x. x.state ≡ received) same e),
)
