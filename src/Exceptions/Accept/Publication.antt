-- ===== src/Exceptions/Accept/Publication.antt =====
-- `accept` persists before it publishes.
use ai_system_engineering_cu.Base.{
  ℕ, ◌≡◌, ◌∙◌, sym, ap, refl, Option, none, some, Text, not, ◌==◌, lookup, text_eq,
}
use ai_system_engineering_cu.Effects.{Outcome, returned, raised, attempt, reply_or}
use ai_system_engineering_cu.Effects.Guarantee.{Makes, Makes-attempt, Makes-reply, makes_rules}
use ai_system_engineering_cu.Effects.Interference.{
  OfReturned, Ensures-call, Ensures-pure, Ensures-raise, Ensures-if, Ensures-attempt, Ensures-bind,
  Ensures-free,
}
use ai_system_engineering_cu.Domain.Contracts.{
  SensorReading, ExceptionRecord, received, queued, failed, state_eq,
}
use ai_system_engineering_cu.Domain.Readings.{requires_exception}
use ai_system_engineering_cu.Exceptions.Calls.{
  Call, Action, Error, Shared, Performs, xadd, state_conflict, clock, driver,
}
use ai_system_engineering_cu.Exceptions.Repository.{get, create, transition}
use ai_system_engineering_cu.Exceptions.Repository.Guarantee.{
  get-Makes, create-Makes, transition-Makes,
}
use ai_system_engineering_cu.Exceptions.Queue.{publish}
use ai_system_engineering_cu.Exceptions.Accept.{
  concurrent, after_publish, after_transition, schedule, reuse, accept_redacted, accept,
}
use ai_system_engineering_cu.Exceptions.Lifecycle.Rows.{Extends, Keeps}
use ai_system_engineering_cu.Exceptions.Ordering.Rows.{Among, Stands, transition-Among}

-- There is a row for the identifier, and it has left RECEIVED.
abbrev pub IsScheduled : Text → Shared → Type 0
IsScheduled id s = (r : ExceptionRecord) × Stands id r s × ¬ (r.state ≡ received)

-- A job may be published while its record is scheduled.
abbrev pub MayPublish : Call → Shared → Type 0
MayPublish (xadd job) s = IsScheduled job.exception_id s
MayPublish _ s = Unit

-- No publication among the calls.
abbrev Silent : {A : Type 0} → Action A → Type 0
Silent m = Makes (λ c. (t : Shared) → MayPublish c t) m

concurrent-Silent : (id : Text) (found : Option ExceptionRecord) → Silent (concurrent id found)
unfolding concurrent
concurrent-Silent id none = search makes_rules
concurrent-Silent id (some r) = search makes_rules

after_publish-Silent :
    (id : Text) (r : ExceptionRecord) (o : Outcome Error Text) → Silent (after_publish id r o)
unfolding after_publish
after_publish-Silent id r (returned message_id) = search makes_rules
after_publish-Silent id r (raised error) = search (makes_rules, transition-Makes)

conflict-Silent :
    (id : Text) (reading : SensorReading) (accepted_at : ℕ) (error : Error)
    → Silent (after_transition id reading accepted_at (raised error))
unfolding after_transition
conflict-Silent id reading accepted_at (state_conflict other) =
    search (makes_rules, get-Makes, concurrent-Silent)
conflict-Silent id reading accepted_at _ = search makes_rules

queued_not_received : ¬ (queued ≡ received)
queued_not_received h = cc

-- Among the others a row that is QUEUED stays scheduled.
queued-IsScheduled :
    (id : Text) (r : ExceptionRecord) (s t : Shared)
    → Stands id r s
    → r.state ≡ queued
    → Extends s t
    → IsScheduled id t
queued-IsScheduled id r s t found at_queued x = go (lookup id t.exceptions) refl (x.row id r found)
  where
    go :
        (late : Option ExceptionRecord)
        → lookup id t.exceptions ≡ late
        → Keeps r late
        → IsScheduled id t
    go none e k = absurd k
    go (some r') e k = (
      r',
      e,
      λ back.
          queued_not_received
            (sym at_queued ∙ ap (λ (y : ExceptionRecord). y.state) (sym (k.4 back)) ∙ back),
    )

-- The calls of `m` are made among the others, publication only of a scheduled record.
abbrev pub Persists : {A : Type 0} → Action A → Shared → Type 0
Persists m s = Among MayPublish (λ _ _. Unit {0}) m s

after_transition-Persists :
    (id : Text) (reading : SensorReading) (accepted_at : ℕ) (r : ExceptionRecord) (s : Shared)
    → Stands id r s
    → r.state ≡ queued
    → Persists (after_transition id reading accepted_at (returned r)) s
unfolding after_transition publish
after_transition-Persists id reading accepted_at r s found at_queued =
    Ensures-call _ _ _ _ (xadd _) _ s (λ t x. queued-IsScheduled id r s t found at_queued x)
      λ t x a t' p.
        Ensures-bind _ _ _ _ (λ _ _. Unit {0}) (attempt (reply_or driver a)) _ t'
          (Ensures-free _ _ _ _ t' (Makes-attempt _ (Makes-reply driver a)))
          λ o u h. Ensures-free _ _ _ _ u (after_publish-Silent id r o)

schedule-Persists :
    (id : Text) (reading : SensorReading) (accepted_at : ℕ) (r : ExceptionRecord) (s : Shared)
    → Persists (schedule id reading accepted_at r) s
unfolding schedule
schedule-Persists id reading accepted_at r s =
    Ensures-if _ _ _ _ (not (r.state == received)) _ _ s (Ensures-pure _ _ _ _ r s tt) (
      Ensures-bind _ _ _ _ _ (attempt (transition id _ _ _ _)) _ s
        (Ensures-attempt _ _ _ _ (transition id _ _ _ _) s
          (transition-Among MayPublish id _ _ _ _ s (λ t. tt)))
        continue)
  where
    continue :
        (o : Outcome Error ExceptionRecord) (t : Shared)
        → OfReturned Performs Extends MayPublish (λ q u. Stands id q u × (q.state ≡ queued)) o t
        → Persists (after_transition id reading accepted_at o) t
    continue (returned q) t h = after_transition-Persists id reading accepted_at q t h.0 h.1
    continue (raised error) t h =
        Ensures-free _ _ _ _ t (conflict-Silent id reading accepted_at error)

reuse-Persists :
    (id : Text) (reading : SensorReading) (found : Option ExceptionRecord) (s : Shared)
    → Persists (reuse id reading found) s
unfolding reuse
reuse-Persists id reading none s =
    Ensures-call _ _ _ _ clock _ s (λ t x. tt)
      λ t x accepted_at t' p.
        Ensures-bind _ _ _ _ (λ _ _. Unit {0}) (create _) _ t'
          (Ensures-free _ _ _ _ t' (create-Makes _ (λ u. tt) (λ u. tt)))
          λ r u h. schedule-Persists id reading accepted_at r u
reuse-Persists id reading (some existing) s =
    Ensures-if _ _ _ _ (existing.state == failed) _ _ s (Ensures-raise _ _ _ _ _ s) (
      Ensures-if _ _ _ _ (not (existing.state == received)) _ _ s
        (Ensures-pure _ _ _ _ existing s tt)
        (Ensures-call _ _ _ _ clock _ s (λ t x. tt)
          λ t x accepted_at t' p. schedule-Persists id reading accepted_at existing t'))

module _ (redact uuid5 : Text → Text) where
  -- Whatever else happens between its calls, `accept` publishes a job only in a state where the
  -- record of that job stands and has left RECEIVED.
  pub publishes_after_persistence :
      (reading : SensorReading) (s : Shared) → Persists (accept redact uuid5 reading) s
  unfolding accept accept_redacted
  publishes_after_persistence reading s =
      Ensures-if _ _ _ _ (not (requires_exception _)) _ _ s (Ensures-raise _ _ _ _ _ s) (
        Ensures-bind _ _ _ _ (λ _ _. Unit {0}) (get _) _ s
          (Ensures-free _ _ _ _ s (get-Makes _ (λ t. tt))) λ found t h. reuse-Persists _ _ found t)
