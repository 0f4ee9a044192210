-- ===== src/Exceptions/Accept.antt =====
-- src/api/use_cases.py: `ReadingApplication.accept`.
pub mod Guarantee
pub mod Publication
use ai_system_engineering_cu.Base.{
  ℕ, not, Option, none, some, [], ◌∷◌, Text, literal, ◌==◌, if◌then◌else◌,
}
use ai_system_engineering_cu.Effects.{
  pure, raise, call, Outcome, returned, raised, ◌>>=◌, ◌>>◌, attempt,
}
use ai_system_engineering_cu.Domain.Contracts.{
  received, queued, failed, SensorReading, ExceptionJob, ExceptionRecord, state_eq,
}
use ai_system_engineering_cu.Domain.Readings.{requires_exception, exception_id_for}
use ai_system_engineering_cu.Exceptions.Calls.{
  Action, Error, in_range_reading, queue_unavailable, terminal_conflict, state_conflict, clock,
}
use ai_system_engineering_cu.Exceptions.Repository.{get, create, transition}
use ai_system_engineering_cu.Exceptions.Queue.{publish}

-- The record that `accept` creates.
unfoldable pub received_record : Text → SensorReading → ℕ → ExceptionRecord
received_record exception_id reading accepted_at = record {
  exception_id = exception_id;
  reading = reading;
  state = received;
  accepted_at = accepted_at;
  updated_at = accepted_at;
  summary = none;
  failure_reason = none;
}

-- After a `StateConflict`: what a concurrent caller made of the record.
concurrent : Text → Option ExceptionRecord → Action ExceptionRecord
concurrent exception_id none = raise (state_conflict exception_id)
concurrent exception_id (some r) =
    if r.state == failed then raise (terminal_conflict exception_id) else pure r

-- After the attempt to publish.
after_publish : Text → ExceptionRecord → Outcome Error Text → Action ExceptionRecord
unfolding transition
after_publish exception_id queued_record (returned message_id) = pure queued_record
after_publish exception_id queued_record (raised error) = do
  transition exception_id (queued ∷ []) failed none (some (literal "job_queue_unavailable"))
  raise queue_unavailable

-- After the attempt to move the record to `QUEUED`; only a `StateConflict` is handled.
after_transition : Text → SensorReading → ℕ → Outcome Error ExceptionRecord → Action ExceptionRecord
unfolding get publish concurrent after_publish
after_transition exception_id reading accepted_at (returned queued_record) = do
  let job : ExceptionJob = record {
    exception_id = exception_id;
    reading = reading;
    accepted_at = accepted_at;
  }
  published ← attempt (publish job)
  after_publish exception_id queued_record published
after_transition exception_id reading accepted_at (raised (state_conflict id)) = do
  found ← get exception_id
  concurrent exception_id found
after_transition exception_id reading accepted_at (raised error) = raise error

-- From the `RECEIVED` record on.
schedule : Text → SensorReading → ℕ → ExceptionRecord → Action ExceptionRecord
unfolding transition after_transition
schedule exception_id reading accepted_at r = if not (r.state == received) then pure r else do
  moved ← attempt (transition exception_id (received ∷ []) queued none none)
  after_transition exception_id reading accepted_at moved

-- By the record that is already there.
reuse : Text → SensorReading → Option ExceptionRecord → Action ExceptionRecord
unfolding create schedule received_record
reuse exception_id reading none = do
  accepted_at ← call clock pure
  r ← create (received_record exception_id reading accepted_at)
  schedule exception_id reading accepted_at r
reuse exception_id reading (some existing) =
    if existing.state == failed
    then raise (terminal_conflict exception_id)
    else if not (existing.state == received)
    then pure existing
    else (do accepted_at ← call clock pure; schedule exception_id reading accepted_at existing)

-- `redact` stands for `redact_sensitive_text`, `uuid5` for the library's function.
module _ (redact uuid5 : Text → Text) where
  unfoldable pub redact_sensor_reading : SensorReading → SensorReading
  redact_sensor_reading reading = record reading { context = redact reading.context }

  accept_redacted : SensorReading → Action ExceptionRecord
  unfolding get reuse
  accept_redacted reading = if not (requires_exception reading) then raise in_range_reading else do
    existing ← get (exception_id_for uuid5 reading)
    reuse (exception_id_for uuid5 reading) reading existing

  unfoldable pub accept : SensorReading → Action ExceptionRecord
  unfolding redact_sensor_reading accept_redacted
  accept reading = accept_redacted (redact_sensor_reading reading)
