-- ===== src/Exceptions/Examples.antt =====
-- The theorems on exception processing at concrete states.
use ai_system_engineering_cu.Base.{
  ◌≡◌, refl, Option, none, some, List, [], ◌∷◌, Text, literal, lookup, text_eq, text_beq, put,
  finite, pos, leb_double, arith, inl, one, ltb_double, sub_double, decimal, padded, digits, zeros,
  ◌*◌, ◌/◌, round_half_even,
}
use ai_system_engineering_cu.Effects.{reply, fault, returned, pure, ◌>>◌}
use ai_system_engineering_cu.Effects.Pool.{advance, start, here, next}
use ai_system_engineering_cu.Domain.Contracts.{
  ExceptionState, SensorReading, ExceptionJob, ExceptionRecord, JobDelivery, received, queued,
  completed, failed, sensor_reading, validate_range,
}
use ai_system_engineering_cu.Domain.Validation.{has_length}
use ai_system_engineering_cu.Exceptions.Repository.{reads_back}
use ai_system_engineering_cu.Domain.Readings.{requires_exception, exception_id_for}
use ai_system_engineering_cu.Exceptions.Calls.{
  Action, RedisText, Shared, select_exception, insert_exception, update_exception, xadd, clock,
  updated_row, write_row,
}
use ai_system_engineering_cu.Exceptions.Ordering.Rows.{IsDone}
use ai_system_engineering_cu.Exceptions.Process.{process, ack, retry, model_request}
use ai_system_engineering_cu.Exceptions.Model.{
  summarize, condition, exceeded, format_magnitude, one_place,
}
use ai_system_engineering_cu.Exceptions.Model.Bounds.{NamesBound, summarize-NamesBound}
use ai_system_engineering_cu.Exceptions.Process.Settlement.{Settles, process-Settles}
use ai_system_engineering_cu.Exceptions.Runtime.{process_delivery}
use ai_system_engineering_cu.Exceptions.Runtime.Acknowledgement.{
  Acknowledges, process_delivery-Acknowledges,
}
use ai_system_engineering_cu.Exceptions.Permitted.{IsConsistent}
use ai_system_engineering_cu.Exceptions.Accept.{accept, received_record}
use ai_system_engineering_cu.Exceptions.Lifecycle.System.{
  Run, request, terminal_is_final, records_stay-IsConsistent, published_jobs_are_scheduled,
}
use ai_system_engineering_cu.Exceptions.Lifecycle.Published.{AllScheduled}
use ai_system_engineering_cu.Exceptions.Run.{Oracle, run, answer, state_after}
use ai_system_engineering_cu.Exceptions.Run.Replay.{accept_replays}
use ai_system_engineering_cu.Exceptions.Run.Attempts.{
  last_attempt_settles, deliveries, HasRow, outage_exhausts,
}

abbrev keep : Text → Text
keep t = t

abbrev no_text : Text → Option Text
no_text t = none

abbrev no_job : RedisText → Option ExceptionJob
no_job t = none

abbrev warm : SensorReading
warm = record {
  reading_id = literal "r1";
  shipment_id = literal "s1";
  temperature_c = finite (pos 9);
  allowed_min_c = finite (pos 2);
  allowed_max_c = finite (pos 8);
  recorded_at = 5;
  context = [];
}

abbrev warm_id : Text
warm_id = literal "exc-coldline:r1"

abbrev row_in : ExceptionState → ExceptionRecord
row_in state = record {
  exception_id = warm_id;
  reading = warm;
  state = state;
  accepted_at = 6;
  updated_at = 7;
  summary = none;
  failure_reason = none;
}

abbrev done_row : ExceptionRecord
done_row = record {
  exception_id = warm_id;
  reading = warm;
  state = completed;
  accepted_at = 6;
  updated_at = 7;
  summary = some (literal "ok");
  failure_reason = none;
}

abbrev with_row : ExceptionRecord → Shared
with_row r = record { exceptions = (warm_id, r) ∷ []; published = []; acknowledged = [] }

abbrev empty : Shared
empty = record { exceptions = []; published = []; acknowledged = [] }

-- A request is in flight.
abbrev in_flight : List (Action Unit)
in_flight = (accept keep keep warm >> pure tt) ∷ []

-- One request arrives.
arrival : (s : Shared) → Run keep keep no_text no_job [] s in_flight s
arrival s = next here (start (accept keep keep warm >> pure tt) (request warm refl) refl refl)

terminal_is_final_example : lookup warm_id (with_row done_row).exceptions ≡ some done_row
unfolding text_beq lookup
terminal_is_final_example =
    terminal_is_final keep keep no_text no_job (with_row done_row) [] (with_row done_row) in_flight
      (with_row done_row) warm_id done_row here (arrival (with_row done_row)) refl tt

abbrev fresh_row : ExceptionRecord
fresh_row = received_record warm_id warm 6

-- The request reads its row, reads the clock and inserts a record.
records_stay-IsConsistent_example : IsConsistent warm_id fresh_row
unfolding accept received_record requires_exception exception_id_for leb_double reads_back
    sensor_reading has_length validate_range lookup put text_beq write_row
records_stay-IsConsistent_example =
    records_stay-IsConsistent keep keep no_text no_job empty _ (with_row fresh_row)
      (record { row = λ id r found. absurd (none_ne r found) })
      (next
        (next
          (next (arrival empty)
            (advance [] [] (select_exception warm_id) _ (reply none) refl (refl, refl) refl))
          (advance [] [] clock _ 6 refl refl refl))
        (advance [] [] (insert_exception fresh_row) _ (reply (some fresh_row)) refl (refl, refl)
          refl))
      warm_id fresh_row refl
  where
    none_ne : (r : ExceptionRecord) → none ≡ some r → ⊥
    none_ne r h = cc

abbrev queued_row : ExceptionRecord
queued_row = record fresh_row { state = queued; updated_at = 8 }

abbrev warm_job : ExceptionJob
warm_job = record { exception_id = warm_id; reading = warm; accepted_at = 6 }

abbrev published_state : Shared
published_state = record (with_row queued_row) { published = warm_job ∷ [] }

-- The whole request: read, clock, insert, QUEUED, publish.
published_jobs_are_scheduled_example : AllScheduled published_state
unfolding accept received_record requires_exception exception_id_for leb_double reads_back
    sensor_reading has_length validate_range lookup put text_beq write_row updated_row
published_jobs_are_scheduled_example =
    published_jobs_are_scheduled keep keep no_text no_job empty _ published_state tt (
      next
        (next
          (next
            (next
              (next (arrival empty)
                (advance [] [] (select_exception warm_id) _ (reply none) refl (refl, refl) refl))
              (advance [] [] clock _ 6 refl refl refl))
            (advance [] [] (insert_exception fresh_row) _ (reply (some fresh_row)) refl (refl, refl)
              refl))
          (advance [] [] (update_exception warm_id (received ∷ []) queued none none) _
            (reply (some queued_row)) refl (8, (refl, refl)) refl))
        (advance [] [] (xadd warm_job) _ (reply (literal "m1")) refl refl refl))

abbrev oracle : Oracle
oracle = record { now = 6; message_id = reply (literal "m1"); summary = fault }

accept_replays_example :
    run oracle
      (accept keep keep warm)
      (record (with_row (record queued_row { updated_at = 6 })) { published = warm_job ∷ [] })
    ≡ (
      returned (record queued_row { updated_at = 6 }),
      record (with_row (record queued_row { updated_at = 6 })) { published = warm_job ∷ [] },
    )
unfolding run answer state_after accept received_record requires_exception exception_id_for
    leb_double reads_back sensor_reading has_length validate_range lookup put text_beq write_row
    updated_row
accept_replays_example =
    accept_replays keep keep oracle warm oracle empty
      (record (with_row (record queued_row { updated_at = 6 })) { published = warm_job ∷ [] })
      (record queued_row { updated_at = 6 }) refl

last_attempt_settles_example :
    let (result, t) = run oracle (process 3 warm_job 3) (with_row queued_row) in
    (result ≡ returned ack) × IsDone warm_id t
unfolding lookup text_beq reads_back sensor_reading has_length validate_range leb_double
    received_record
last_attempt_settles_example =
    last_attempt_settles oracle 3 warm_job 3 (with_row queued_row) queued_row refl refl (inl refl)
      (omega arith)

-- A queued record of which two deliveries come before the third, which is the last.
outage_exhausts_example :
    (((deliveries (λ i. oracle) 3 warm_job 1 1 (with_row queued_row)).0 ≡ returned retry)
      × HasRow
          (λ i. oracle)
          3
          warm_job
          queued
          none
          (deliveries (λ i. oracle) 3 warm_job 1 1 (with_row queued_row)).1)
    × ((deliveries (λ i. oracle) 3 warm_job 3 1 (with_row queued_row)).0 ≡ returned ack)
    × HasRow
        (λ i. oracle)
        3
        warm_job
        failed
        (some (literal "model_provider_exhausted"))
        (deliveries (λ i. oracle) 3 warm_job 3 1 (with_row queued_row)).1
unfolding lookup text_beq reads_back sensor_reading has_length validate_range leb_double
    received_record
outage_exhausts_example =
    outage_exhausts (λ i. oracle) 3 warm_job (λ i. refl) 1 2 1 (with_row queued_row) queued_row refl
      refl refl refl (omega arith) (omega arith)

process-Settles_example :
    Settles (with_row queued_row) warm_job (process 3 warm_job 1) (with_row queued_row)
process-Settles_example = process-Settles 3 (with_row queued_row) warm_job 1

abbrev delivery : JobDelivery
delivery = record {
  message_id = literal "m1";
  job = warm_job;
  delivery_count = 3;
  trace_carrier = [];
}

process_delivery-Acknowledges_example :
    Acknowledges warm_id (process_delivery 3 delivery) (with_row queued_row)
unfolding lookup text_beq
process_delivery-Acknowledges_example =
    process_delivery-Acknowledges 3 delivery (with_row queued_row) queued_row refl

-- A reading of 12.5 degrees, with 2.0 and 8.0 as its bounds.
abbrev hot : SensorReading
hot = record warm {
  temperature_c = finite (pos (25 * one / 2));
  allowed_min_c = finite (pos (2 * one));
  allowed_max_c = finite (pos (8 * one));
}

abbrev hot_job : ExceptionJob
hot_job = record { exception_id = warm_id; reading = hot; accepted_at = 5 }

summarize-NamesBound_example : NamesBound hot (summarize (model_request hot_job))
unfolding requires_exception leb_double
summarize-NamesBound_example = summarize-NamesBound hot_job refl tt tt tt

condition_test :
    condition (model_request hot_job) ≡ literal "exceeded the upper handling bound by 4.5 C"
unfolding condition model_request ltb_double leb_double sub_double exceeded format_magnitude
    one_place round_half_even decimal padded digits zeros
condition_test = refl
