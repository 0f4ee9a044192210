-- ===== src/Exceptions/Lifecycle/System.antt =====
-- Any number of API requests and worker loops over one database and one stream, in any
-- interleaving of their calls, with any faults of the collaborators.
use ai_system_engineering_cu.Base.{
  All, ℕ, ◌≡◌, ap, Option, none, some, List, [], Text, lookup, text_eq,
}
use ai_system_engineering_cu.Effects.{pure, call, ◌>>◌}
use ai_system_engineering_cu.Effects.Guarantee.{Makes, Makes-pure, Makes-bind, Makes-weaken}
use ai_system_engineering_cu.Effects.Interference.{
  Ensures-bind, Ensures-pure, Ensures-free, Ensures-stable,
}
use ai_system_engineering_cu.Effects.Pool.{Reaches, Reaches-IsFine}
use ai_system_engineering_cu.Domain.Contracts.{SensorReading, ExceptionJob, ExceptionRecord}
use ai_system_engineering_cu.Exceptions.Calls.{
  Call, Answer, Action, RedisText, Shared, Performs, insert_exception, update_exception, xadd,
}
use ai_system_engineering_cu.Exceptions.Permitted.{
  IsPermitted, IsWorkerCall, IsTerminal, IsConsistent,
}
use ai_system_engineering_cu.Exceptions.Accept.{accept}
use ai_system_engineering_cu.Exceptions.Accept.Guarantee.{accept-Permits}
use ai_system_engineering_cu.Exceptions.Accept.Publication.{
  MayPublish, Persists, publishes_after_persistence,
}
use ai_system_engineering_cu.Exceptions.Runtime.{run_loop}
use ai_system_engineering_cu.Exceptions.Runtime.Guarantee.{run_loop-Works}
use ai_system_engineering_cu.Exceptions.Lifecycle.Writes.{Performs-TableStep}
use ai_system_engineering_cu.Exceptions.Lifecycle.Published.{AllScheduled, Performs-AllScheduled}
use ai_system_engineering_cu.Exceptions.Lifecycle.Rows.{
  IsValid, Keeps, Extends, Extends-refl, Extends-trans, TableStep-IsValid, TableStep-Extends,
}

worker-IsPermitted : (c : Call) → IsWorkerCall c → IsPermitted c
worker-IsPermitted (update_exception id expected target summary failure_reason) h = h
worker-IsPermitted (insert_exception r) h = absurd h
worker-IsPermitted _ h = tt

worker_publishes_nothing : (c : Call) → IsWorkerCall c → (t : Shared) → MayPublish c t
worker_publishes_nothing (xadd job) h t = absurd h
worker_publishes_nothing _ h t = tt

module _ (redact uuid5 : Text → Text) (decode_utf8 : Text → Option Text)
    (decode_json : RedisText → Option ExceptionJob) where
  -- What runs beside one another: requests of the API, and worker loops of any length.
  pub data Starts (p : Action Unit) : Type 0 where
    request : (reading : SensorReading) → p ≡ (accept redact uuid5 reading >> pure tt) → Starts p
    work :
        (maximum_attempts stale_message_ms turns : ℕ)
        → p ≡ run_loop decode_utf8 decode_json maximum_attempts stale_message_ms turns
        → Starts p

  -- The calls of the program are permitted, and it publishes scheduled records only.
  abbrev IsTame : Action Unit → Shared → Type 0
  IsTame m s = Makes IsPermitted m × Persists m s

  Starts-IsTame : (p : Action Unit) (s : Shared) → Starts p → IsTame p s
  Starts-IsTame p s (request reading e) = rw e (
    Makes-bind _ _ (accept-Permits redact uuid5 reading) (λ _. Makes-pure tt),
    Ensures-bind _ _ _ _ (λ _ _. Unit {0}) (accept redact uuid5 reading) _ s
        (publishes_after_persistence redact uuid5 reading s)
        (λ a t h. Ensures-pure _ _ _ _ tt t tt),
  )
  Starts-IsTame p s (work maximum_attempts stale_message_ms turns e) =
      let works = run_loop-Works decode_utf8 decode_json maximum_attempts stale_message_ms turns in
      rw e (
        Makes-weaken IsWorkerCall IsPermitted worker-IsPermitted _ works,
        Ensures-free _ _ _ _ s (
            Makes-weaken IsWorkerCall (λ c. (t : Shared) → MayPublish c t) worker_publishes_nothing
              _ works),
      )

  IsTame-stable : (m : Action Unit) (s s' : Shared) → Extends s s' → IsTame m s → IsTame m s'
  IsTame-stable m s s' x h =
      (h.0, Ensures-stable _ _ _ _ Extends-trans (λ a t u r q. q) m s s' x h.1)

  -- The state `s'` and the programs in flight are reachable.
  abbrev pub Run : List (Action Unit) → Shared → List (Action Unit) → Shared → Type 0
  Run pool s pool' s' = Reaches Performs Starts pool s pool' s'

  module _ (I : Shared → Type 0)
      (keeps : (c : Call) (s : Shared) (a : Answer c) (s' : Shared)
        → IsPermitted c
        → MayPublish c s
        → Performs c s a s'
        → I s
        → I s') where
    advance-IsTame :
        (c : Call) (k : Answer c → Action Unit) (s : Shared) (a : Answer c) (s' : Shared)
        → IsTame (call c k) s
        → Performs c s a s'
        → I s
        → IsTame (k a) s' × Extends s s' × I s'
    advance-IsTame c k s a s' h performed i =
        let own = h.1.at s (Extends-refl s) in
        (
          (record { at = h.0.at.1 a }, record { at = own.1 a s' performed }),
          TableStep-Extends s s' (Performs-TableStep c s a s' h.0.at.0 performed),
          keeps c s a s' h.0.at.0 own.0 performed i,
        )

    -- An invariant of the permitted calls holds in every reachable state.
    Run-keeps :
        (pool : List (Action Unit)) (s : Shared) (pool' : List (Action Unit)) (s' : Shared)
        → Run pool s pool' s'
        → All (λ m. IsTame m s) pool × I s
        → All (λ m. IsTame m s') pool' × I s'
    Run-keeps =
        Reaches-IsFine Performs Starts IsTame Extends I Starts-IsTame IsTame-stable advance-IsTame

  -- From a consistent table, in any interleaving: each row stands under its own identifier, a
  -- COMPLETED one has a summary and no reason, a FAILED one a reason and no summary, any other
  -- neither.
  pub records_stay-IsConsistent :
      (s : Shared) (pool : List (Action Unit)) (s' : Shared)
      → IsValid s
      → Run [] s pool s'
      → (id : Text) (r : ExceptionRecord) → lookup id s'.exceptions ≡ some r
      → IsConsistent id r
  records_stay-IsConsistent s pool s' v run =
      (Run-keeps IsValid
        (λ c t a t' p g d h. TableStep-IsValid t t' (Performs-TableStep c t a t' p d) h) [] s pool
        s' run (tt, v)).1.row

  -- In every state that API requests and worker loops reach from one where it holds, each job in
  -- the stream has a record, and the record has left RECEIVED.
  pub published_jobs_are_scheduled :
      (s : Shared) (pool : List (Action Unit)) (s' : Shared)
      → AllScheduled s
      → Run [] s pool s'
      → AllScheduled s'
  published_jobs_are_scheduled s pool s' h run =
      (Run-keeps AllScheduled Performs-AllScheduled [] s pool s' run (tt, h)).1

  later_states :
      (s : Shared) (pool : List (Action Unit)) (t : Shared) (pool' : List (Action Unit))
      (t' : Shared)
      → Run [] s pool t
      → Run pool t pool' t'
      → Extends t t'
  later_states s pool t pool' t' before after =
      (Run-keeps (Extends t)
        (λ c u a u' p g d h.
          Extends-trans t u u' h (TableStep-Extends u u' (Performs-TableStep c u a u' p d)))
        pool t pool' t' after
        (
          (Run-keeps (λ _. Unit) (λ c u a u' p g d h. tt) [] s pool t before (tt, tt)).0,
          Extends-refl t,
        )).1

  -- In any interleaving of API requests and worker loops, with any faults, a record that is
  -- COMPLETED or FAILED is the same record in every later state.
  pub terminal_is_final :
      (s : Shared) (pool : List (Action Unit)) (t : Shared) (pool' : List (Action Unit))
      (t' : Shared) (id : Text) (r : ExceptionRecord)
      → Run [] s pool t
      → Run pool t pool' t'
      → lookup id t.exceptions ≡ some r
      → IsTerminal r.state
      → lookup id t'.exceptions ≡ some r
  terminal_is_final s pool t pool' t' id r before after found terminal =
      final (lookup id t'.exceptions) ((later_states s pool t pool' t' before after).row id r found)
    where
      final : (late : Option ExceptionRecord) → Keeps r late → late ≡ some r
      final none k = absurd k
      final (some r') k = ap some (k.3 terminal)
