-- ===== src/Exceptions/Process.antt =====
-- src/worker/use_cases.py: `WorkerApplication.process`.
pub mod Guarantee
pub mod Settlement
use ai_system_engineering_cu.Base.{
  ℕ, Option, none, some, [], ◌∷◌, literal, ◌==◌, ◌||◌, if◌then◌else◌, leb,
}
use ai_system_engineering_cu.Effects.{
  pure, call, Outcome, returned, raised, ◌>>=◌, ◌>>◌, attempt, reply_or,
}
use ai_system_engineering_cu.Domain.Contracts.{
  queued, processing, completed, failed, ExceptionJob, ExceptionRecord, ModelRequest, ModelSummary,
  state_eq,
}
use ai_system_engineering_cu.Exceptions.Calls.{Action, Error, provider, summarize}
use ai_system_engineering_cu.Exceptions.Repository.{get, transition}

pub data ProcessingDisposition : Type 0 where
  ack ack_existing ack_missing retry : ProcessingDisposition

unfoldable pub model_request : ExceptionJob → ModelRequest
model_request job = record {
  exception_id = job.exception_id;
  shipment_id = job.reading.shipment_id;
  temperature_c = job.reading.temperature_c;
  allowed_min_c = job.reading.allowed_min_c;
  allowed_max_c = job.reading.allowed_max_c;
}

module _ (maximum_attempts : ℕ) where
  -- A record left `PROCESSING` by an interrupted attempt.
  interrupted : ExceptionJob → ℕ → Action ProcessingDisposition
  unfolding transition
  interrupted job delivery_count =
      if leb maximum_attempts delivery_count
      then (do
        transition job.exception_id (processing ∷ []) failed none
            (some (literal "processing_attempts_exhausted"))
        pure ack)
      else pure retry

  after_summarize : ExceptionJob → ℕ → Outcome Error ModelSummary → Action ProcessingDisposition
  unfolding transition
  after_summarize job delivery_count (returned summary) = do
    transition job.exception_id (processing ∷ []) completed (some summary.summary) none
    pure ack
  after_summarize job delivery_count (raised error) =
      if leb maximum_attempts delivery_count
      then (do
        transition job.exception_id (processing ∷ []) failed none
            (some (literal "model_provider_exhausted"))
        pure ack)
      else (do transition job.exception_id (processing ∷ []) queued none none; pure retry)

  -- One attempt at the provider, for a record that is to be `QUEUED`.
  attempt_summary : ExceptionJob → ℕ → Action ProcessingDisposition
  unfolding transition after_summarize model_request
  attempt_summary job delivery_count = do
    transition job.exception_id (queued ∷ []) processing none none
    outcome ← attempt (call (summarize (model_request job)) (reply_or provider))
    after_summarize job delivery_count outcome

  by_record : ExceptionJob → ℕ → Option ExceptionRecord → Action ProcessingDisposition
  unfolding interrupted attempt_summary
  by_record job delivery_count none = pure ack_missing
  by_record job delivery_count (some r) =
      if r.state == completed || r.state == failed
      then pure ack_existing
      else if r.state == processing
      then interrupted job delivery_count
      else attempt_summary job delivery_count

  unfoldable pub process : ExceptionJob → ℕ → Action ProcessingDisposition
  unfolding get by_record
  process job delivery_count = do found ← get job.exception_id; by_record job delivery_count found
