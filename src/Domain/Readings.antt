-- ===== src/Domain/Readings.antt =====
-- src/domain/exceptions.py: the rule that makes a reading an exception, and its stable identity.
use ai_system_engineering_cu.Base.{Bool, not, ◌&&◌, Text, literal, ◌++◌, leb_double}
use ai_system_engineering_cu.Domain.Contracts.{SensorReading}

-- `not min <= t <= max`: a comparison chain is a conjunction.
unfoldable pub requires_exception : SensorReading → Bool
requires_exception reading = not (
    leb_double reading.allowed_min_c reading.temperature_c
    && leb_double reading.temperature_c reading.allowed_max_c)

-- `uuid5(NAMESPACE_URL, ·)` of Python's library is the parameter `uuid5`.
unfoldable pub exception_id_for : (Text → Text) → SensorReading → Text
exception_id_for uuid5 reading = literal "exc-" ++ uuid5 (literal "coldline:" ++ reading.reading_id)
