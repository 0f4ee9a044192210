-- ===== src/Domain/Contracts.antt =====
-- src/domain/contracts.py: the contracts of exception processing. A timestamp is a count of
-- microseconds.
use ai_system_engineering_cu.Base.{
  ℕ, ◌≡◌, ◌↔◌, Bool, true, false, Option, none, some, List, Text, arith, Double, leb_double,
  Equality, text_eq, ◌&&◌, leb, length, if◌then◌else◌,
}
use ai_system_engineering_cu.Domain.Validation.{has_length}

pub data ExceptionState : Type 0 where
  received queued processing completed failed : ExceptionState

abbrev pub state_beq : ExceptionState → ExceptionState → Bool
state_beq received received = true
state_beq queued queued = true
state_beq processing processing = true
state_beq completed completed = true
state_beq failed failed = true
state_beq _ _ = false

pub state_beq_iff : (a b : ExceptionState) → (state_beq a b ≡ true) ↔ (a ≡ b)
state_beq_iff a b = (λ h. ground arith, λ h. ground arith)

instance abbrev pub state_eq : Equality ExceptionState
state_eq = record { equal = state_beq; equal_iff = state_beq_iff }

pub record SensorReading : Type 0 where
  pub reading_id : Text
  pub shipment_id : Text
  pub temperature_c : Double
  pub allowed_min_c : Double
  pub allowed_max_c : Double
  pub recorded_at : ℕ
  pub context : Text

-- `SensorReading.validate_range`: `min >= max` is rejected, and a NaN bound is not.
unfoldable pub validate_range : SensorReading → Option SensorReading
validate_range reading = elim (leb_double reading.allowed_max_c reading.allowed_min_c) [
  | true ↦ none
  | false ↦ some reading
]

-- Building a `SensorReading` validates the lengths of its texts, and then its range; `none` is a
-- `ValidationError`.
unfoldable pub sensor_reading : SensorReading → Option SensorReading
unfolding validate_range has_length
sensor_reading reading =
    if has_length 80 reading.reading_id
      && has_length 80 reading.shipment_id
      && leb (length reading.context) 500
    then validate_range reading
    else none

pub record ExceptionJob : Type 0 where
  pub exception_id : Text
  pub reading : SensorReading
  pub accepted_at : ℕ

pub record JobDelivery : Type 0 where
  pub message_id : Text
  pub job : ExceptionJob
  pub delivery_count : ℕ
  pub trace_carrier : List (Text × Text)

pub record ModelRequest : Type 0 where
  pub exception_id : Text
  pub shipment_id : Text
  pub temperature_c : Double
  pub allowed_min_c : Double
  pub allowed_max_c : Double

pub record ModelSummary : Type 0 where
  pub summary : Text
  pub provider : Text

pub record ExceptionRecord : Type 0 where
  pub exception_id : Text
  pub reading : SensorReading
  pub state : ExceptionState
  pub accepted_at : ℕ
  pub updated_at : ℕ
  pub summary : Option Text
  pub failure_reason : Option Text
