-- ===== src/Exceptions/Model.antt =====
-- src/adapters/model/deterministic.py: `DeterministicModelProvider`. The delay before the summary
-- and its span are left out.
pub mod Bounds
use ai_system_engineering_cu.Base.{
  ℕ, ◌*◌, ◌/◌, ◌%◌, suc, Bool, true, false, Option, none, some, Text, literal, [], ◌∷◌, ◌++◌,
  Double, nan, minus_infinity, finite, plus_infinity, ℤ, pos, negsuc, ltb_double, sub_double, one,
  round_half_even, decimal, padded, if◌then◌else◌,
}
use ai_system_engineering_cu.Domain.Contracts.{ModelRequest, ModelSummary}

-- `__init__`: `none` is its `ValueError`. The delay is kept in milliseconds.
unfoldable pub latency : ℤ → Option ℕ
latency (pos latency_ms) = some latency_ms
latency (negsuc n) = none

-- `f"{n:.1f}"` of a double at distance `n` from 0.
unfoldable pub one_place : ℕ → Text
unfolding round_half_even decimal padded
one_place n =
    let tenths = round_half_even (n * 10) one in
    decimal (tenths / 10) ++ literal "." ++ padded 1 (tenths % 10)

-- `f"{magnitude:.1f}"`; -0.0 is not told from 0.0.
unfoldable pub format_magnitude : Double → Text
unfolding one_place
format_magnitude nan = literal "nan"
format_magnitude minus_infinity = literal "-inf"
format_magnitude plus_infinity = literal "inf"
format_magnitude (finite (pos n)) = one_place n
format_magnitude (finite (negsuc n)) = literal "-" ++ one_place (suc n)

unfoldable pub exceeded : Double → Text
unfolding format_magnitude
exceeded magnitude =
    literal "exceeded the upper handling bound by " ++ format_magnitude magnitude ++ literal " C"

unfoldable pub fell : Double → Text
unfolding format_magnitude
fell magnitude =
    literal "fell below the lower handling bound by " ++ format_magnitude magnitude ++ literal " C"

unfoldable pub condition : ModelRequest → Text
unfolding ltb_double sub_double exceeded fell
condition request =
    if ltb_double request.allowed_max_c request.temperature_c
    then exceeded (sub_double request.temperature_c request.allowed_max_c)
    else fell (sub_double request.allowed_min_c request.temperature_c)

unfoldable pub sentence : Text → Text → Text
sentence shipment_id what =
    literal "Synthetic shipment "
    ++ shipment_id
    ++ literal " "
    ++ what
    ++ literal "; operational review is required."

unfoldable pub summarize : ModelRequest → ModelSummary
unfolding condition sentence
summarize request = record {
  summary = sentence request.shipment_id (condition request);
  provider = literal "deterministic-local";
}
