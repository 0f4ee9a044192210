-- ===== src/Exceptions/Runtime/Acknowledgement.antt =====
-- A message is acknowledged only when its record is terminal.
use ai_system_engineering_cu.Base.{ℕ, ◌≡◌, Option, none, some, Text, text_eq}
use ai_system_engineering_cu.Effects.Guarantee.{Makes-reply}
use ai_system_engineering_cu.Effects.Interference.{
  Ensures-pure, Ensures-call, Ensures-bind, Ensures-free,
}
use ai_system_engineering_cu.Domain.Contracts.{JobDelivery, ExceptionRecord}
use ai_system_engineering_cu.Exceptions.Calls.{Action, Shared, driver, xack}
use ai_system_engineering_cu.Exceptions.Queue.{acknowledge}
use ai_system_engineering_cu.Exceptions.Lifecycle.Rows.{Keeps}
use ai_system_engineering_cu.Exceptions.Ordering.Rows.{Among, Stands, IsDone, IsDone-Extends}
use ai_system_engineering_cu.Exceptions.Process.{
  ProcessingDisposition, ack, ack_existing, ack_missing, retry, process,
}
use ai_system_engineering_cu.Exceptions.Process.Settlement.{
  MayAcknowledge, Settled, process-Settles,
}
use ai_system_engineering_cu.Exceptions.Runtime.{is_safe, settle, process_delivery}

-- The calls of `m` are made among the others, acknowledgement only of a terminal record.
abbrev pub Acknowledges : {A : Type 0} → Text → Action A → Shared → Type 0
Acknowledges id m s = Among (MayAcknowledge id) (λ _ _. Unit {0}) m s

acknowledge_done :
    (id message_id : Text) (t : Shared) → IsDone id t → Acknowledges id (acknowledge message_id) t
unfolding acknowledge
acknowledge_done id message_id t done =
    Ensures-call _ _ _ _ (xack message_id) _ t (λ u x. IsDone-Extends id t u done x)
      λ u x a u' p. Ensures-free _ _ _ _ u' (Makes-reply driver a)

none_not_kept :
    (r : ExceptionRecord) (late : Option ExceptionRecord) → Keeps r late → late ≡ none → ⊥
none_not_kept r none k e = k
none_not_kept r (some r') k e = cc

-- From a state where the record of a delivery stands, and while others make permitted calls in
-- between, _process_delivery acknowledges its message only in a state where that record is
-- COMPLETED or FAILED.
pub process_delivery-Acknowledges :
    (maximum_attempts : ℕ) (delivery : JobDelivery) (s : Shared) (r : ExceptionRecord)
    → Stands delivery.job.exception_id r s
    → Acknowledges delivery.job.exception_id (process_delivery maximum_attempts delivery) s
unfolding process_delivery is_safe settle
process_delivery-Acknowledges maximum_attempts delivery s r found =
    Ensures-bind _ _ _ _ _ (process _ _ _) _ s
      (process-Settles maximum_attempts s delivery.job delivery.delivery_count) settled
  where
    settled :
        (d : ProcessingDisposition) (t : Shared)
        → Settled delivery.job.exception_id s d t
        → Acknowledges delivery.job.exception_id (settle delivery.message_id (is_safe d)) t
    settled ack t h = acknowledge_done _ _ t h
    settled ack_existing t h = acknowledge_done _ _ t h
    settled ack_missing t h = absurd (none_not_kept r _ (h.1.row _ r found) h.0)
    settled retry t h = Ensures-pure _ _ _ _ tt t tt
