-- ===== src/Exceptions/Process/Settlement.antt =====
-- What the record is when `process` returns a disposition, whatever others do meanwhile.
use ai_system_engineering_cu.Base.{
  ℕ, ◌≡◌, sym, subst, Option, none, some, Text, ◌==◌, ◌||◌, leb, lookup, text_eq, Bool-cases, inl,
  inr, true, List,
}
use mathlib.Core.Bool.{false≢true}
use ai_system_engineering_cu.Effects.{
  Outcome, returned, raised, attempt, call, reply_or, pure, ◌>>◌,
}
use ai_system_engineering_cu.Effects.Guarantee.{Makes-call, Makes-attempt, Makes-reply}
use ai_system_engineering_cu.Effects.Interference.{
  Ensures-pure, Ensures-if, Ensures-bind, Ensures-free,
}
use ai_system_engineering_cu.Domain.Contracts.{
  ExceptionState, ExceptionJob, ExceptionRecord, ModelSummary, processing, completed, failed,
  state_eq,
}
use ai_system_engineering_cu.Exceptions.Calls.{
  Action, Call, Error, Shared, provider, summarize, xack,
}
use ai_system_engineering_cu.Exceptions.Permitted.{IsTerminal}
use ai_system_engineering_cu.Exceptions.Repository.{get, transition}
use ai_system_engineering_cu.Exceptions.Lifecycle.Rows.{Extends}
use ai_system_engineering_cu.Exceptions.Ordering.Rows.{Among, IsDone, transition-Among, get-Among}
use ai_system_engineering_cu.Exceptions.Process.{
  ProcessingDisposition, ack, ack_existing, ack_missing, retry, interrupted, after_summarize,
  attempt_summary, by_record, process,
}

-- A message may be acknowledged while the record `id` is terminal.
abbrev pub MayAcknowledge : Text → Call → Shared → Type 0
MayAcknowledge id (xack message_id) s = IsDone id s
MayAcknowledge id _ s = Unit

-- What a disposition says of the state in which it is returned, `s` being the state before.
abbrev pub Settled : Text → Shared → ProcessingDisposition → Shared → Type 0
Settled id s ack t = IsDone id t
Settled id s ack_existing t = IsDone id t
Settled id s ack_missing t = (lookup id t.exceptions ≡ none) × Extends s t
Settled id s retry t = Unit

abbrev pub Settles : Shared → ExceptionJob → Action ProcessingDisposition → Shared → Type 0
Settles s job m t = Among (MayAcknowledge job.exception_id) (Settled job.exception_id s) m t

IsTerminal-test :
    (state : ExceptionState) → (state == completed || state == failed) ≡ true → IsTerminal state
IsTerminal-test completed h = tt
IsTerminal-test failed h = tt
IsTerminal-test _ h = absurd (false≢true h)

module _ (maximum_attempts : ℕ) where
  -- A transition to a terminal state, and then ACK.
  finish-Settles :
      (s : Shared) (job : ExceptionJob) (expected : List ExceptionState) (target : ExceptionState)
      (summary failure_reason : Option Text) (t : Shared)
      → IsTerminal target
      → Settles s job
          (transition job.exception_id expected target summary failure_reason >> pure ack)
          t
  finish-Settles s job expected target summary failure_reason t terminal =
      Ensures-bind _ _ _ _ _ (transition _ _ _ _ _) _ t
        (transition-Among (MayAcknowledge job.exception_id) _ _ _ _ _ t (λ u. tt))
        λ r u h. Ensures-pure _ _ _ _ ack u (r, h.0, subst IsTerminal (sym h.1) terminal)

  interrupted-Settles :
      (s : Shared) (job : ExceptionJob) (n : ℕ) (t : Shared)
      → Settles s job (interrupted maximum_attempts job n) t
  unfolding interrupted
  interrupted-Settles s job n t =
      Ensures-if _ _ _ _ (leb maximum_attempts n) _ _ t (finish-Settles s job _ failed _ _ t tt)
        (Ensures-pure _ _ _ _ retry t tt)

  after_summarize-Settles :
      (s : Shared) (job : ExceptionJob) (n : ℕ) (o : Outcome Error ModelSummary) (t : Shared)
      → Settles s job (after_summarize maximum_attempts job n o) t
  unfolding after_summarize
  after_summarize-Settles s job n (returned summary) t = finish-Settles s job _ completed _ _ t tt
  after_summarize-Settles s job n (raised error) t =
      Ensures-if _ _ _ _ (leb maximum_attempts n) _ _ t (finish-Settles s job _ failed _ _ t tt) (
        Ensures-bind _ _ _ _ _ (transition _ _ _ _ _) _ t
          (transition-Among (MayAcknowledge job.exception_id) _ _ _ _ _ t (λ u. tt))
          λ r u h. Ensures-pure _ _ _ _ retry u tt)

  attempt_summary-Settles :
      (s : Shared) (job : ExceptionJob) (n : ℕ) (t : Shared)
      → Settles s job (attempt_summary maximum_attempts job n) t
  unfolding attempt_summary
  attempt_summary-Settles s job n t =
      Ensures-bind _ _ _ _ _ (transition _ _ _ _ _) _ t
        (transition-Among (MayAcknowledge job.exception_id) _ _ _ _ _ t (λ u. tt))
        λ r u h.
          Ensures-bind _ _ _ _ (λ _ _. Unit {0}) (attempt (call (summarize _) (reply_or provider)))
            _ u
            (Ensures-free _ _ _ _ u
              (Makes-attempt _ (Makes-call _ _ (λ v. tt) (Makes-reply provider))))
            λ o v k. after_summarize-Settles s job n o v

  by_record-Settles :
      (s : Shared) (job : ExceptionJob) (n : ℕ) (found : Option ExceptionRecord) (t : Shared)
      → (lookup job.exception_id t.exceptions ≡ found) × Extends s t
      → Settles s job (by_record maximum_attempts job n found) t
  unfolding by_record
  by_record-Settles s job n none t h = Ensures-pure _ _ _ _ ack_missing t h
  by_record-Settles s job n (some r) t h =
      elim (Bool-cases (r.state == completed || r.state == failed)) [
        | inl done ↦
            rw done (Ensures-pure _ _ _ _ ack_existing t (r, h.0, IsTerminal-test r.state done))
        | inr active ↦ rw active (
            Ensures-if _ _ _ _ (r.state == processing) _ _ t (interrupted-Settles s job n t)
              (attempt_summary-Settles s job n t))
      ]

  -- While others make permitted calls in between: when process returns ACK or ACK_EXISTING its
  -- record is COMPLETED or FAILED, and it returns ACK_MISSING only in a state without the record
  -- and with no row lost since the start.
  pub process-Settles :
      (s : Shared) (job : ExceptionJob) (n : ℕ) → Settles s job (process maximum_attempts job n) s
  unfolding process
  process-Settles s job n =
      Ensures-bind _ _ _ _ _ (get _) _ s
        (get-Among (MayAcknowledge job.exception_id) job.exception_id s (λ t. tt))
        (by_record-Settles s job n)
