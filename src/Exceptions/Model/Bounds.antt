-- ===== src/Exceptions/Model/Bounds.antt =====
-- The summary of an exception names the bound that its reading violates.
use ai_system_engineering_cu.Base.{
  ◌≡◌, ◌⊎◌, inl, inr, refl, sym, ◌∙◌, sub_double-positive, arith, true, false, Bool-cases, Double,
  nan, minus_infinity, finite, plus_infinity, pos, leb_double, ltb_double, sub_double,
}
use ai_system_engineering_cu.Domain.Contracts.{SensorReading, ExceptionJob, ModelSummary}
use ai_system_engineering_cu.Domain.Readings.{requires_exception}
use ai_system_engineering_cu.Exceptions.Process.{model_request}
use ai_system_engineering_cu.Exceptions.Model.{exceeded, fell, condition, sentence, summarize}

true≢false : true ≡ false → ⊥
true≢false h = cc

-- A double is not a NaN.
abbrev pub IsNumber : Double → Type 0
IsNumber nan = ⊥
IsNumber _ = Unit

-- The sentence says that the reading is too warm or too cold, as it is, by a distance that is not
-- negative.
abbrev pub NamesBound : SensorReading → ModelSummary → Type 0
NamesBound r answer =
    (magnitude : Double) × (leb_double (finite (pos 0)) magnitude ≡ true)
    × ((ltb_double r.allowed_max_c r.temperature_c ≡ true)
          × (magnitude ≡ sub_double r.temperature_c r.allowed_max_c)
          × (answer.summary ≡ sentence r.shipment_id (exceeded magnitude))
        ⊎ (ltb_double r.temperature_c r.allowed_min_c ≡ true)
          × (magnitude ≡ sub_double r.allowed_min_c r.temperature_c)
          × (answer.summary ≡ sentence r.shipment_id (fell magnitude)))

-- Of two numbers one is not above the other.
leb_double_total :
    (a b : Double) → IsNumber a → IsNumber b → leb_double a b ≡ false → ltb_double b a ≡ true
unfolding leb_double ltb_double
leb_double_total minus_infinity minus_infinity i j h = absurd (true≢false h)
leb_double_total minus_infinity (finite b) i j h = absurd (true≢false h)
leb_double_total minus_infinity plus_infinity i j h = absurd (true≢false h)
leb_double_total (finite a) minus_infinity i j h = refl
leb_double_total (finite a) (finite b) i j h = ground (arith, h)
leb_double_total (finite a) plus_infinity i j h = absurd (true≢false h)
leb_double_total plus_infinity minus_infinity i j h = refl
leb_double_total plus_infinity (finite b) i j h = refl
leb_double_total plus_infinity plus_infinity i j h = absurd (true≢false h)
leb_double_total nan b i j h = absurd i
leb_double_total minus_infinity nan i j h = absurd j
leb_double_total (finite a) nan i j h = absurd j
leb_double_total plus_infinity nan i j h = absurd j

not_above :
    (a b : Double) → ltb_double b a ≡ false → IsNumber a → IsNumber b → leb_double a b ≡ true
not_above a b h i j = elim (Bool-cases (leb_double a b)) [
  | inl le ↦ le
  | inr other ↦ absurd (true≢false (sym (leb_double_total a b i j other) ∙ h))
]

too_cold :
    (r : SensorReading)
    → requires_exception r ≡ true
    → leb_double r.temperature_c r.allowed_max_c ≡ true
    → leb_double r.allowed_min_c r.temperature_c ≡ false
unfolding requires_exception
too_cold r h warm = elim (Bool-cases (leb_double r.allowed_min_c r.temperature_c)) [
  | inl cold ↦ absurd (true≢false (sym h ∙ rw (cold, warm) refl))
  | inr other ↦ other
]

-- A job whose reading requires an exception and holds no NaN: the summary that is generated for it
-- names the bound that the reading violates, the upper one above the maximum and the lower one
-- below the minimum, with their difference, which is not negative.
pub summarize-NamesBound :
    (job : ExceptionJob)
    → requires_exception job.reading ≡ true
    → IsNumber job.reading.temperature_c
    → IsNumber job.reading.allowed_min_c
    → IsNumber job.reading.allowed_max_c
    → NamesBound job.reading (summarize (model_request job))
unfolding summarize condition model_request
summarize-NamesBound job h t low high =
    let r = job.reading in
    elim (Bool-cases (ltb_double r.allowed_max_c r.temperature_c)) [
      | inl warm ↦ (
        sub_double r.temperature_c r.allowed_max_c,
        sub_double-positive r.temperature_c r.allowed_max_c warm,
        inl (warm, refl, rw warm refl),
      )
      | inr other ↦
          let cold =
            leb_double_total r.allowed_min_c r.temperature_c low t
              (too_cold r h (not_above r.temperature_c r.allowed_max_c other t high)) in
          (
            sub_double r.allowed_min_c r.temperature_c,
            sub_double-positive r.allowed_min_c r.temperature_c cold,
            inr (cold, refl, rw other refl),
          )
    ]
