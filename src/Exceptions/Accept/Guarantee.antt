-- ===== src/Exceptions/Accept/Guarantee.antt =====
-- `accept` makes permitted calls only.
use ai_system_engineering_cu.Base.{ℕ, refl, Option, none, some, Text}
use ai_system_engineering_cu.Effects.{Outcome, returned, raised}
use ai_system_engineering_cu.Effects.Guarantee.{makes_rules}
use ai_system_engineering_cu.Domain.Contracts.{SensorReading, ExceptionRecord}
use ai_system_engineering_cu.Exceptions.Calls.{Error, state_conflict, insert_exception}
use ai_system_engineering_cu.Exceptions.Permitted.{IsPermitted, enqueue, reject}
use ai_system_engineering_cu.Exceptions.Repository.Guarantee.{
  Permits, get-Makes, create-Makes, transition-Makes,
}
use ai_system_engineering_cu.Exceptions.Queue.Guarantee.{publish-Permits}
use ai_system_engineering_cu.Exceptions.Accept.{
  received_record, concurrent, after_publish, after_transition, schedule, reuse, accept_redacted,
  accept,
}

concurrent-Permits : (id : Text) (found : Option ExceptionRecord) → Permits (concurrent id found)
unfolding concurrent
concurrent-Permits id none = search makes_rules
concurrent-Permits id (some r) = search makes_rules

after_publish-Permits :
    (id : Text) (r : ExceptionRecord) (o : Outcome Error Text) → Permits (after_publish id r o)
unfolding after_publish
after_publish-Permits id r (returned message_id) = search makes_rules
after_publish-Permits id r (raised error) = search (makes_rules, transition-Makes, reject)

after_transition-Permits :
    (id : Text) (reading : SensorReading) (accepted_at : ℕ) (o : Outcome Error ExceptionRecord)
    → Permits (after_transition id reading accepted_at o)
unfolding after_transition
after_transition-Permits id reading accepted_at (returned r) =
    search (makes_rules, publish-Permits, after_publish-Permits)
after_transition-Permits id reading accepted_at (raised (state_conflict other)) =
    search (makes_rules, get-Makes, concurrent-Permits)
after_transition-Permits id reading accepted_at (raised _) = search makes_rules

schedule-Permits :
    (id : Text) (reading : SensorReading) (accepted_at : ℕ) (r : ExceptionRecord)
    → Permits (schedule id reading accepted_at r)
unfolding schedule
schedule-Permits id reading accepted_at r =
    search (makes_rules, transition-Makes, enqueue, after_transition-Permits)

received_record-IsPermitted :
    (id : Text) (reading : SensorReading) (accepted_at : ℕ)
    → IsPermitted (insert_exception (received_record id reading accepted_at))
unfolding received_record
received_record-IsPermitted id reading accepted_at = (refl, refl, refl)

reuse-Permits :
    (id : Text) (reading : SensorReading) (found : Option ExceptionRecord)
    → Permits (reuse id reading found)
unfolding reuse
reuse-Permits id reading none = search (
  makes_rules,
  create-Makes,
  schedule-Permits,
  λ (n : ℕ). received_record-IsPermitted id reading n,
)
reuse-Permits id reading (some r) = search (makes_rules, schedule-Permits)

module _ (redact uuid5 : Text → Text) where
  pub accept-Permits : (reading : SensorReading) → Permits (accept redact uuid5 reading)
  unfolding accept accept_redacted
  accept-Permits reading = search (makes_rules, get-Makes, reuse-Permits)
