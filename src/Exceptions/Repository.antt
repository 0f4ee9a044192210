-- ===== src/Exceptions/Repository.antt =====
-- src/adapters/persistence/postgres.py: `PostgresExceptionRepository`.
pub mod Guarantee
use ai_system_engineering_cu.Base.{
  Bool, true, false, ◌&&◌, Option, none, some, List, Text, Double, finite, if◌then◌else◌,
}
use ai_system_engineering_cu.Effects.{pure, raise, call, ◌>>=◌, reply_or, or_raise}
use ai_system_engineering_cu.Domain.Contracts.{
  ExceptionState, ExceptionRecord, SensorReading, sensor_reading,
}
use ai_system_engineering_cu.Exceptions.Calls.{
  Action, driver, validation_error, inconsistent_insert, state_conflict, select_exception,
  insert_exception, update_exception,
}

is_finite : Double → Bool
is_finite (finite n) = true
is_finite _ = false

abbrev is_some : {A : Type 0} → Option A → Bool
is_some none = false
is_some (some a) = true

-- Does a reading pass its validators when it comes back from its JSON? `model_dump_json` writes null
-- for a double that is not finite, which is no number then.
unfoldable pub reads_back : SensorReading → Bool
unfolding is_finite sensor_reading
reads_back reading =
    is_finite reading.temperature_c
    && is_finite reading.allowed_min_c
    && is_finite reading.allowed_max_c
    && is_some (sensor_reading reading)

-- `_record`; a row is kept as the record whose values it holds.
unfoldable pub record_of : ExceptionRecord → Action ExceptionRecord
unfolding reads_back
record_of row = if reads_back row.reading then pure row else raise validation_error

unfoldable pub found_record : Option ExceptionRecord → Action (Option ExceptionRecord)
unfolding record_of
found_record none = pure none
found_record (some row) = do r ← record_of row; pure (some r)

unfoldable pub get : Text → Action (Option ExceptionRecord)
unfolding found_record
get exception_id = do row ← call (select_exception exception_id) (reply_or driver); found_record row

-- What `create` does with the row that its INSERT returned.
created : ExceptionRecord → Option ExceptionRecord → Action ExceptionRecord
unfolding get record_of
created r (some row) = record_of row
created r none = do existing ← get r.exception_id; or_raise inconsistent_insert existing

unfoldable pub create : ExceptionRecord → Action ExceptionRecord
unfolding created
create r = do row ← call (insert_exception r) (reply_or driver); created r row

unfoldable pub transition :
    Text → List ExceptionState → ExceptionState → Option Text → Option Text → Action ExceptionRecord
unfolding record_of
transition exception_id expected target summary failure_reason = do
  row ←
      call (update_exception exception_id expected target summary failure_reason) (reply_or driver)
  found ← or_raise (state_conflict exception_id) row
  record_of found
