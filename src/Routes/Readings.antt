-- ===== src/Routes/Readings.antt =====
-- src/api/routes.py: the routes of readings, of one exception, and of the health of the process.
-- `accept` and `get` are those of the application and the repository that `create_app` receives.
use ai_system_engineering_cu.Base.{ℕ, Bool, true, false, Option, none, some, Text, literal, ◌++◌}
use ai_system_engineering_cu.Effects.{pure, ◌>>=◌, attempt}
use ai_system_engineering_cu.Domain.Contracts.{
  ExceptionState, received, queued, processing, completed, failed, SensorReading, sensor_reading,
  ExceptionRecord,
}
use ai_system_engineering_cu.Exceptions.Calls.{
  Action, Error, in_range_reading, queue_unavailable, terminal_conflict,
}
use ai_system_engineering_cu.Routes.Http.{Response, responded, refused, answered}

pub record AcceptedReading : Type 0 where
  pub exception_id : Text
  pub state : Text
  pub status_url : Text

-- `record.state.value`
unfoldable pub state_value : ExceptionState → Text
state_value received = literal "RECEIVED"
state_value queued = literal "QUEUED"
state_value processing = literal "PROCESSING"
state_value completed = literal "COMPLETED"
state_value failed = literal "FAILED"

accept_status : Error → Option ℕ
accept_status in_range_reading = some 422
accept_status queue_unavailable = some 503
accept_status (terminal_conflict exception_id) = some 409
accept_status _ = none

accepted_response : ExceptionRecord → Response AcceptedReading
unfolding state_value
accepted_response r = responded 202 (record {
  exception_id = r.exception_id;
  state = state_value r.state;
  status_url = literal "/api/v1/exceptions/" ++ r.exception_id;
})

-- FastAPI answers 422 to a body that fails its validators.
unfoldable pub accept_reading :
    (SensorReading → Action ExceptionRecord) → SensorReading → Action (Response AcceptedReading)
unfolding accept_status accepted_response sensor_reading
accept_reading accept reading = elim (sensor_reading reading) [
  | none ↦ pure (refused 422)
  | some valid ↦ do
    outcome ← attempt (accept valid)
    answered accept_status accepted_response outcome
]

abbrev found_or_404 : Option ExceptionRecord → Response ExceptionRecord
found_or_404 none = refused 404
found_or_404 (some r) = responded 200 r

unfoldable pub get_exception :
    (Text → Action (Option ExceptionRecord)) → Text → Action (Response ExceptionRecord)
get_exception get exception_id = do r ← get exception_id; pure (found_or_404 r)

-- `/health/ready`, by the answer of the readiness check.
unfoldable pub ready_response : Bool → Response Text
ready_response true = responded 200 (literal "ready")
ready_response false = responded 503 (literal "not_ready")
