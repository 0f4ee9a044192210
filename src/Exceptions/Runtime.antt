-- ===== src/Exceptions/Runtime.antt =====
-- src/worker/runtime.py: the worker loop. Spans, metrics and log lines change no state that the
-- program reads, and are left out.
pub mod Guarantee
pub mod Acknowledgement
use ai_system_engineering_cu.Base.{ℕ, zero, suc, Bool, true, false, Option, none, some, Text}
use ai_system_engineering_cu.Effects.{pure, call, Outcome, returned, raised, ◌>>=◌, ◌>>◌, attempt}
use ai_system_engineering_cu.Domain.Contracts.{ExceptionJob, JobDelivery}
use ai_system_engineering_cu.Exceptions.Calls.{Action, Error, RedisText, sleep}
use ai_system_engineering_cu.Exceptions.Queue.{
  acknowledge, queue_depth, pending_count, read, claim_stale,
}
use ai_system_engineering_cu.Exceptions.Process.{
  ProcessingDisposition, ack, ack_existing, ack_missing, retry, process,
}

-- The dispositions that `_process_delivery` acknowledges.
unfoldable pub is_safe : ProcessingDisposition → Bool
is_safe ack = true
is_safe ack_existing = true
is_safe ack_missing = true
is_safe retry = false

settle : Text → Bool → Action Unit
unfolding acknowledge
settle message_id true = acknowledge message_id
settle message_id false = pure tt

unfoldable pub process_delivery : ℕ → JobDelivery → Action Unit
unfolding is_safe settle
process_delivery maximum_attempts delivery = do
  disposition ← process maximum_attempts delivery.job delivery.delivery_count
  settle delivery.message_id (is_safe disposition)

unfoldable pub update_queue_metrics : Action Unit
unfolding queue_depth pending_count
update_queue_metrics = do queue_depth; pending_count; pure tt

module _ (decode_utf8 : Text → Option Text) (decode_json : RedisText → Option ExceptionJob)
    (maximum_attempts stale_message_ms : ℕ) where
  -- Pending work of an interrupted worker first, then a new job.
  or_read : Option JobDelivery → Action (Option JobDelivery)
  or_read none = read decode_utf8 decode_json 1000
  or_read (some delivery) = pure (some delivery)

  poll : Action (Option JobDelivery)
  unfolding update_queue_metrics or_read
  poll = do
    stale ← claim_stale decode_utf8 decode_json stale_message_ms
    delivery ← or_read stale
    update_queue_metrics
    pure delivery

  -- What one turn of the loop does with what it polled: an error backs off, and a delivery that
  -- raises is left pending.
  after_poll : Outcome Error (Option JobDelivery) → Action Unit
  after_poll (raised error) = call sleep pure
  after_poll (returned none) = pure tt
  after_poll (returned (some delivery)) = do
    attempt (process_delivery maximum_attempts delivery)
    pure tt

  unfoldable pub run_once : Action Unit
  unfolding poll after_poll
  run_once = do polled ← attempt poll; after_poll polled

  -- `while True`, for a number of turns.
  unfoldable pub run_loop : ℕ → Action Unit
  unfolding run_once
  run_loop zero = pure tt
  run_loop (suc turns) = do run_once; run_loop turns
