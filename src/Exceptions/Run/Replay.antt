-- ===== src/Exceptions/Run/Replay.antt =====
-- `accept` called twice with one reading: the second call returns the record of the first.
use ai_system_engineering_cu.Base.{
  ◌≡◌, ◌≢◌, none, some, Text, lookup, put, lookup-put_self, text_eq, arith, true, Option-cases, inl,
  inr,
}
use ai_system_engineering_cu.Effects.{returned}
use ai_system_engineering_cu.Domain.Contracts.{
  received, queued, failed, SensorReading, ExceptionRecord,
}
use ai_system_engineering_cu.Domain.Readings.{requires_exception, exception_id_for}
use ai_system_engineering_cu.Exceptions.Calls.{
  Shared, write_row, updated_row, any_state, transitioned,
}
use ai_system_engineering_cu.Exceptions.Accept.{accept, redact_sensor_reading, received_record}
use ai_system_engineering_cu.Exceptions.Repository.{reads_back}
use ai_system_engineering_cu.Exceptions.Run.{Oracle, run, answer, state_after}

module _ (redact uuid5 : Text → Text) (reading : SensorReading) where
  abbrev pub id_of : Text
  id_of = exception_id_for uuid5 (redact_sensor_reading redact uuid5 reading)

  -- With an active record there already, `accept` returns it and does nothing else.
  accept_existing :
      (o : Oracle) (s : Shared) (q : ExceptionRecord)
      → lookup id_of s.exceptions ≡ some q
      → reads_back q.reading ≡ true
      → q.state ≢ received
      → q.state ≢ failed
      → requires_exception (redact_sensor_reading redact uuid5 reading) ≡ true
      → run o (accept redact uuid5 reading) s ≡ (returned q, s)
  unfolding run accept answer state_after
  accept_existing o s q e v a b c = ground arith

module _ (redact uuid5 : Text → Text) (o : Oracle) (reading : SensorReading) where
  -- What is in the table when `accept` returns a record.
  accepted_fresh :
      (s s' : Shared) (q : ExceptionRecord)
      → lookup (id_of redact uuid5 reading) s.exceptions ≡ none
      → run o (accept redact uuid5 reading) s ≡ (returned q, s')
      → (lookup (id_of redact uuid5 reading) s'.exceptions ≡ some q)
        × (reads_back q.reading ≡ true)
        × (q.state ≢ received)
        × (q.state ≢ failed)
        × (requires_exception (redact_sensor_reading redact uuid5 reading) ≡ true)
  unfolding run accept answer state_after updated_row transitioned any_state write_row
      received_record
  accepted_fresh s s' q e h =
      let red = redact_sensor_reading redact uuid5 reading in
      let r₀ = received_record (id_of redact uuid5 reading) red o.now in
      ground (
        arith,
        lookup-put_self (id_of redact uuid5 reading) r₀ s.exceptions,
        lookup-put_self (id_of redact uuid5 reading) (transitioned o.now queued none none r₀)
            (put (id_of redact uuid5 reading) r₀ s.exceptions),
      )

  accepted_again :
      (s s' : Shared) (r q : ExceptionRecord)
      → lookup (id_of redact uuid5 reading) s.exceptions ≡ some r
      → run o (accept redact uuid5 reading) s ≡ (returned q, s')
      → (lookup (id_of redact uuid5 reading) s'.exceptions ≡ some q)
        × (reads_back q.reading ≡ true)
        × (q.state ≢ received)
        × (q.state ≢ failed)
        × (requires_exception (redact_sensor_reading redact uuid5 reading) ≡ true)
  unfolding run accept answer state_after updated_row transitioned any_state write_row
      received_record
  accepted_again s s' r q e h = ground (
    arith,
    lookup-put_self (id_of redact uuid5 reading) (transitioned o.now queued none none r)
        s.exceptions,
  )

  -- With a database that does not fail, a second accept of a reading returns the record that the
  -- first returned and changes neither the table nor the stream.
  pub accept_replays :
      (o' : Oracle) (s s' : Shared) (q : ExceptionRecord)
      → run o (accept redact uuid5 reading) s ≡ (returned q, s')
      → run o' (accept redact uuid5 reading) s' ≡ (returned q, s')
  accept_replays o' s s' q h =
      elim (Option-cases (lookup (id_of redact uuid5 reading) s.exceptions)) [
        | inl e ↦ replay (accepted_fresh s s' q e h)
        | inr (r, e) ↦ replay (accepted_again s s' r q e h)
      ]
    where
      replay :
          (lookup (id_of redact uuid5 reading) s'.exceptions ≡ some q)
            × (reads_back q.reading ≡ true)
            × (q.state ≢ received)
            × (q.state ≢ failed)
            × (requires_exception (redact_sensor_reading redact uuid5 reading) ≡ true)
          → run o' (accept redact uuid5 reading) s' ≡ (returned q, s')
      replay k = accept_existing redact uuid5 reading o' s' q k.0 k.1 k.2 k.3 k.4
