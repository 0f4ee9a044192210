-- ===== src/Exceptions/Run/Attempts.antt =====
-- `process` by itself: the last permitted attempt settles the record, an earlier failure requeues.
use ai_system_engineering_cu.Base.{
  ℕ, zero, suc, ◌+◌, ◌≡◌, ◌≤◌, ◌<◌, ◌⊎◌, inl, inr, refl, true, Text, Option, none, some, literal,
  lookup, lookup-put_self, text_eq, arith,
}
use ai_system_engineering_cu.Effects.{Reply, reply, fault, Outcome, returned}
use ai_system_engineering_cu.Domain.Contracts.{
  ExceptionState, queued, processing, completed, failed, ExceptionJob, ExceptionRecord,
  ModelSummary,
}
use ai_system_engineering_cu.Exceptions.Calls.{
  Error, Shared, write_row, updated_row, any_state, transitioned,
}
use ai_system_engineering_cu.Exceptions.Permitted.{IsTerminal}
use ai_system_engineering_cu.Exceptions.Ordering.Rows.{IsDone}
use ai_system_engineering_cu.Exceptions.Process.{ProcessingDisposition, ack, retry, process}
use ai_system_engineering_cu.Exceptions.Repository.{reads_back}
use ai_system_engineering_cu.Exceptions.Run.{Oracle, run, answer, state_after}

module _ (o : Oracle) (maximum_attempts : ℕ) (job : ExceptionJob) (n : ℕ) (s : Shared)
    (r : ExceptionRecord) where
  -- The row that stands under the identifier of the job.
  abbrev pub started : ExceptionRecord
  started = transitioned o.now processing none none r

  abbrev pub begun : Shared
  begun = write_row job.exception_id (some started) s

  -- On the last permitted delivery an interrupted record becomes FAILED.
  interrupted_fails :
      lookup job.exception_id s.exceptions ≡ some r
      → reads_back r.reading ≡ true
      → r.state ≡ processing
      → maximum_attempts ≤ n
      → let end =
          transitioned o.now failed none (some (literal "processing_attempts_exhausted")) r in
        run o (process maximum_attempts job n) s
        ≡ (returned ack, write_row job.exception_id (some end) s)
  unfolding run process answer state_after updated_row any_state write_row
  interrupted_fails e v st le = ground arith

  -- A provider that answers: the record becomes COMPLETED with its summary.
  summary_completes :
      (summary : ModelSummary)
      → lookup job.exception_id s.exceptions ≡ some r
      → reads_back r.reading ≡ true
      → r.state ≡ queued
      → o.summary ≡ reply summary
      → let end = transitioned o.now completed (some summary.summary) none started in
        run o (process maximum_attempts job n) s
        ≡ (returned ack, write_row job.exception_id (some end) begun)
  unfolding run process answer state_after updated_row any_state write_row transitioned
  summary_completes summary e v st p =
      ground (arith, lookup-put_self job.exception_id started s.exceptions)

  -- A provider that fails on the last permitted delivery: the record becomes FAILED.
  last_failure_fails :
      lookup job.exception_id s.exceptions ≡ some r
      → reads_back r.reading ≡ true
      → r.state ≡ queued
      → o.summary ≡ fault
      → maximum_attempts ≤ n
      → let end =
          transitioned o.now failed none (some (literal "model_provider_exhausted")) started in
        run o (process maximum_attempts job n) s
        ≡ (returned ack, write_row job.exception_id (some end) begun)
  unfolding run process answer state_after updated_row any_state write_row transitioned
  last_failure_fails e v st p le =
      ground (arith, lookup-put_self job.exception_id started s.exceptions)

  -- A provider that fails before the last permitted delivery: the record is QUEUED again.
  failure_requeues :
      lookup job.exception_id s.exceptions ≡ some r
      → reads_back r.reading ≡ true
      → r.state ≡ queued
      → o.summary ≡ fault
      → n < maximum_attempts
      → let end = transitioned o.now queued none none started in
        run o (process maximum_attempts job n) s
        ≡ (returned retry, write_row job.exception_id (some end) begun)
  unfolding run process answer state_after updated_row any_state write_row transitioned
  failure_requeues e v st p lt =
      ground (arith, lookup-put_self job.exception_id started s.exceptions)

  written-IsDone :
      (end : ExceptionRecord) (t : Shared)
      → IsTerminal end.state
      → IsDone job.exception_id (write_row job.exception_id (some end) t)
  unfolding write_row
  written-IsDone end t terminal = (end, lookup-put_self job.exception_id end t.exceptions, terminal)

  -- With a database that does not fail, a delivery at or past the attempt limit of a record that
  -- is QUEUED or PROCESSING, and whose reading passes its validators when it is read back, ends
  -- with ACK and a COMPLETED or FAILED record, whatever the provider answers.
  pub last_attempt_settles :
      lookup job.exception_id s.exceptions ≡ some r
      → reads_back r.reading ≡ true
      → (r.state ≡ queued) ⊎ (r.state ≡ processing)
      → maximum_attempts ≤ n
      → let (result, t) = run o (process maximum_attempts job n) s in
        (result ≡ returned ack) × IsDone job.exception_id t
  unfolding transitioned
  last_attempt_settles e v (inr st) le =
      rw (interrupted_fails e v st le) (refl, written-IsDone _ s tt)
  last_attempt_settles e v (inl st) le = by_summary o.summary refl
    where
      by_summary :
          (answer : Reply ModelSummary)
          → o.summary ≡ answer
          → let (result, t) = run o (process maximum_attempts job n) s in
            (result ≡ returned ack) × IsDone job.exception_id t
      by_summary (reply summary) p =
          rw (summary_completes summary e v st p) (refl, written-IsDone _ begun tt)
      by_summary fault p = rw (last_failure_fails e v st p le) (refl, written-IsDone _ begun tt)

-- A message that is delivered again until it is settled.
abbrev pub unless_settled :
    Outcome Error ProcessingDisposition × Shared
    → (Shared → Outcome Error ProcessingDisposition × Shared)
    → Outcome Error ProcessingDisposition × Shared
unless_settled (returned retry, t) again = again t
unless_settled (result, t) again = (result, t)

module _ (o : ℕ → Oracle) (maximum_attempts : ℕ) (job : ExceptionJob) where
  -- So many deliveries, the first of which has the count `n`, and the `i`-th of all the oracle `o i`.
  abbrev pub deliveries : ℕ → ℕ → Shared → Outcome Error ProcessingDisposition × Shared
  deliveries zero n s = (returned retry, s)
  deliveries (suc k) n s =
      unless_settled (run (o n) (process maximum_attempts job n) s) (deliveries k (suc n))

  -- The row under the identifier of the job, in this state and with this reason.
  abbrev pub HasRow : ExceptionState → Option Text → Shared → Type 0
  HasRow state reason t =
      (q : ExceptionRecord) × (lookup job.exception_id t.exceptions ≡ some q)
      × (q.state ≡ state)
      × (q.failure_reason ≡ reason)

  -- What one more delivery does to a QUEUED row.
  abbrev queued_again : ℕ → ExceptionRecord → ExceptionRecord
  queued_again n r =
      transitioned (o n).now queued none none (transitioned (o n).now processing none none r)

  abbrev after_one : ℕ → Shared → ExceptionRecord → Shared
  after_one n s r =
      write_row job.exception_id (some (queued_again n r))
        (write_row job.exception_id (some (transitioned (o n).now processing none none r)) s)

  queued_again-Stands :
      (n : ℕ) (s : Shared) (r : ExceptionRecord)
      → lookup job.exception_id (after_one n s r).exceptions ≡ some (queued_again n r)
  unfolding write_row
  queued_again-Stands n s r = lookup-put_self job.exception_id (queued_again n r) _

  module _ (outage : (i : ℕ) → (o i).summary ≡ fault) where
    stays_queued :
        (k n : ℕ) (s : Shared) (r : ExceptionRecord)
        → lookup job.exception_id s.exceptions ≡ some r
        → reads_back r.reading ≡ true
        → r.state ≡ queued
        → r.failure_reason ≡ none
        → n + k ≤ maximum_attempts
        → ((deliveries k n s).0 ≡ returned retry) × HasRow queued none (deliveries k n s).1
    unfolding transitioned
    stays_queued zero n s r e v st f le = (refl, (r, e, st, f))
    stays_queued (suc k) n s r e v st f le =
        rw (failure_requeues (o n) maximum_attempts job n s r e v st (outage n) (omega arith)) (
          stays_queued k (suc n) (after_one n s r) (queued_again n r) (queued_again-Stands n s r) v
            refl refl (omega arith))

    ends_failed :
        (k n : ℕ) (s : Shared) (r : ExceptionRecord)
        → lookup job.exception_id s.exceptions ≡ some r
        → reads_back r.reading ≡ true
        → r.state ≡ queued
        → n + k ≡ maximum_attempts
        → ((deliveries (suc k) n s).0 ≡ returned ack)
          × HasRow failed (some (literal "model_provider_exhausted")) (deliveries (suc k) n s).1
    unfolding transitioned write_row
    ends_failed zero n s r e v st le =
        rw (last_failure_fails (o n) maximum_attempts job n s r e v st (outage n) (omega arith))
          (refl, (_, lookup-put_self job.exception_id _ _, refl, refl))
    ends_failed (suc k) n s r e v st le =
        rw (failure_requeues (o n) maximum_attempts job n s r e v st (outage n) (omega arith)) (
          ends_failed k (suc n) (after_one n s r) (queued_again n r) (queued_again-Stands n s r) v
            refl (omega arith))

    -- While the provider fails at every attempt and the database at none, a job whose record is
    -- QUEUED, without a reason and with a reading that passes its validators when it is read back,
    -- and whose deliveries are counted from `n` on: as long as no delivery has reached the attempt
    -- limit, the last one returns RETRY and the record is QUEUED without a reason. The delivery
    -- that reaches the limit returns ACK and leaves the record FAILED, with the exhaustion as its
    -- reason.
    pub outage_exhausts :
        (j k n : ℕ) (s : Shared) (r : ExceptionRecord)
        → lookup job.exception_id s.exceptions ≡ some r
        → reads_back r.reading ≡ true
        → r.state ≡ queued
        → r.failure_reason ≡ none
        → n + j ≤ maximum_attempts
        → n + k ≡ maximum_attempts
        → (((deliveries j n s).0 ≡ returned retry) × HasRow queued none (deliveries j n s).1)
          × ((deliveries (suc k) n s).0 ≡ returned ack)
          × HasRow failed (some (literal "model_provider_exhausted")) (deliveries (suc k) n s).1
    outage_exhausts j k n s r e v st f before at_limit =
        let (result, row) = ends_failed k n s r e v st at_limit in
        (stays_queued j n s r e v st f before, result, row)
