-- ===== src/Exceptions/Runtime/Guarantee.antt =====
-- The worker loop makes a worker's calls only, for any number of turns.
use ai_system_engineering_cu.Base.{ℕ, zero, suc, Bool, true, false, Option, none, some, Text}
use ai_system_engineering_cu.Effects.{Outcome, returned, raised}
use ai_system_engineering_cu.Effects.Guarantee.{Makes-bind, makes_rules}
use ai_system_engineering_cu.Domain.Contracts.{ExceptionJob, JobDelivery}
use ai_system_engineering_cu.Exceptions.Calls.{Error, RedisText}
use ai_system_engineering_cu.Exceptions.Repository.Guarantee.{Works}
use ai_system_engineering_cu.Exceptions.Queue.Guarantee.{
  acknowledge-Works, queue_depth-Works, pending_count-Works, read-Works, claim_stale-Works,
}
use ai_system_engineering_cu.Exceptions.Process.Guarantee.{process-Works}
use ai_system_engineering_cu.Exceptions.Runtime.{
  settle, process_delivery, update_queue_metrics, or_read, poll, after_poll, run_once, run_loop,
}

settle-Works : (id : Text) (safe : Bool) → Works (settle id safe)
unfolding settle
settle-Works id true = acknowledge-Works id
settle-Works id false = search makes_rules

pub process_delivery-Works :
    (maximum_attempts : ℕ) (delivery : JobDelivery)
    → Works (process_delivery maximum_attempts delivery)
unfolding process_delivery
process_delivery-Works maximum_attempts delivery = search (makes_rules, process-Works, settle-Works)

update_queue_metrics-Works : Works update_queue_metrics
unfolding update_queue_metrics
update_queue_metrics-Works = search (makes_rules, queue_depth-Works, pending_count-Works)

module _ (decode_utf8 : Text → Option Text) (decode_json : RedisText → Option ExceptionJob)
    (maximum_attempts stale_message_ms : ℕ) where
  or_read-Works :
      (stale : Option JobDelivery)
      → Works (or_read decode_utf8 decode_json maximum_attempts stale_message_ms stale)
  unfolding or_read
  or_read-Works none = read-Works decode_utf8 decode_json _
  or_read-Works (some delivery) = search makes_rules

  poll-Works : Works (poll decode_utf8 decode_json maximum_attempts stale_message_ms)
  unfolding poll
  poll-Works =
      search (makes_rules, claim_stale-Works, or_read-Works, update_queue_metrics-Works) depth 8

  after_poll-Works :
      (polled : Outcome Error (Option JobDelivery))
      → Works (after_poll decode_utf8 decode_json maximum_attempts stale_message_ms polled)
  unfolding after_poll
  after_poll-Works (raised error) = search makes_rules
  after_poll-Works (returned none) = search makes_rules
  after_poll-Works (returned (some delivery)) = search (makes_rules, process_delivery-Works)

  run_once-Works : Works (run_once decode_utf8 decode_json maximum_attempts stale_message_ms)
  unfolding run_once
  run_once-Works = search (makes_rules, poll-Works, after_poll-Works)

  pub run_loop-Works :
      (turns : ℕ) → Works (run_loop decode_utf8 decode_json maximum_attempts stale_message_ms turns)
  unfolding run_loop
  run_loop-Works zero = search makes_rules
  run_loop-Works (suc turns) = Makes-bind _ _ run_once-Works λ _. run_loop-Works turns
