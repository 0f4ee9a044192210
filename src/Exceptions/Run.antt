-- ===== src/Exceptions/Run.antt =====
-- One program by itself, with collaborators that answer at once: the database does not fail, the
-- queue and the provider do as the oracle says.
pub mod Replay
pub mod Attempts
use ai_system_engineering_cu.Base.{
  ℕ, ◌≡◌, refl, Bool, true, false, Option, none, some, List, [], ◌∷◌, ◌++◌, Text, lookup, text_eq,
  inl,
}
use ai_system_engineering_cu.Effects.{
  Program, pure, raise, call, Reply, reply, fault, Outcome, returned, raised,
}
use ai_system_engineering_cu.Domain.Contracts.{ExceptionRecord, ModelSummary}
use ai_system_engineering_cu.Exceptions.Calls.{
  Call, Answer, Action, Error, Shared, Performs, select_exception, insert_exception,
  update_exception, clock, xadd, xack, xautoclaim, xpending_range, xreadgroup, xlen, xpending,
  sleep, summarize, inserted_row, updated_row, write_row,
}

pub record Oracle : Type 0 where
  pub now : ℕ
  -- the identifier that XADD returns, or a fault of the queue
  pub message_id : Reply Text
  pub summary : Reply ModelSummary

-- A queue that fails has stored nothing.
xadd_state : {A : Type 0} → Reply A → Shared → Shared → Shared
xadd_state (reply a) s stored = stored
xadd_state fault s stored = s

unfoldable pub state_after : Oracle → Call → Shared → Shared
unfolding xadd_state
state_after o (insert_exception r) s =
    write_row r.exception_id (inserted_row r (lookup r.exception_id s.exceptions)) s
state_after o (update_exception id expected target summary failure_reason) s =
    write_row id (updated_row o.now expected target summary failure_reason (lookup id s.exceptions))
      s
state_after o (xadd job) s =
    xadd_state o.message_id s (record s { published = s.published ++ job ∷ [] })
state_after o (xack message_id) s = record s { acknowledged = s.acknowledged ++ message_id ∷ [] }
state_after o _ s = s

unfoldable pub answer : Oracle → (c : Call) → Shared → Answer c
answer o (select_exception id) s = reply (lookup id s.exceptions)
answer o (insert_exception r) s = reply (inserted_row r (lookup r.exception_id s.exceptions))
answer o (update_exception id expected target summary failure_reason) s =
    reply (updated_row o.now expected target summary failure_reason (lookup id s.exceptions))
answer o clock s = o.now
answer o (xadd job) s = o.message_id
answer o (xack message_id) s = reply tt
answer o (xautoclaim n) s = reply []
answer o (xpending_range id) s = reply []
answer o (xreadgroup n) s = reply []
answer o xlen s = reply 0
answer o xpending s = reply 0
answer o sleep s = tt
answer o (summarize request) s = o.summary

unfoldable pub run : {A : Type 0} → Oracle → Action A → Shared → Outcome Error A × Shared
run o (pure a) s = (returned a, s)
run o (raise e) s = (raised e, s)
run o (call c k) s = run o (k (answer o c s)) (state_after o c s)

-- Every answer is one that the collaborators may give.
pub answer-Performs :
    (o : Oracle) (c : Call) (s : Shared) → Performs c s (answer o c s) (state_after o c s)
unfolding answer state_after
answer-Performs o (select_exception id) s = (refl, refl)
answer-Performs o (insert_exception r) s = (refl, refl)
answer-Performs o (update_exception id expected target summary failure_reason) s =
    (o.now, (refl, refl))
answer-Performs o clock s = refl
answer-Performs o (xadd job) s = go o.message_id
  where
    go :
        (m : Reply Text)
        → Performs
            (xadd job)
            s
            m
            (xadd_state m s (record s { published = s.published ++ job ∷ [] }))
    go (reply id) = refl
    go fault = inl refl
answer-Performs o (xack message_id) s = refl
answer-Performs o (xautoclaim n) s = refl
answer-Performs o (xpending_range id) s = refl
answer-Performs o (xreadgroup n) s = refl
answer-Performs o xlen s = refl
answer-Performs o xpending s = refl
answer-Performs o sleep s = refl
answer-Performs o (summarize request) s = refl
