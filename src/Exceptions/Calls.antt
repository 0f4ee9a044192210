-- ===== src/Exceptions/Calls.antt =====
-- The statements and commands that exception processing awaits, and what the shared database and
-- stream do for each. The SQL is that of src/adapters/persistence/postgres.py.
use ai_system_engineering_cu.Base.{
  ℕ, ◌≡◌, ◌⊎◌, Bool, false, Option, none, some, List, [], ◌∷◌, ◌++◌, Text, Table, lookup, put, ◌==◌,
  ◌||◌, if◌then◌else◌, text_eq,
}
use ai_system_engineering_cu.Effects.{Program, Reply, reply, fault, Did}
use ai_system_engineering_cu.Domain.Contracts.{
  ExceptionState, ExceptionRecord, ExceptionJob, ModelRequest, ModelSummary, state_eq,
}

-- The exceptions that cross a function of this part. `driver` is any error of asyncpg or redis,
-- `provider` any error of the model provider, `validation_error` pydantic's.
pub data Error : Type 0 where
  in_range_reading queue_unavailable inconsistent_insert driver provider : Error
  key_error index_error validation_error : Error
  terminal_conflict state_conflict : Text → Error

-- Redis text, as a client that decodes responses or one that does not returns it.
pub data RedisText : Type 0 where
  text bytes : Text → RedisText

-- A message of the stream: its identifier and its fields.
pub record Message : Type 0 where
  pub message_id : RedisText
  pub fields : List (RedisText × RedisText)

pub data Call : Type 0 where
  select_exception : Text → Call
  insert_exception : ExceptionRecord → Call
  update_exception : Text → List ExceptionState → ExceptionState → Option Text → Option Text → Call
  clock : Call
  xadd : ExceptionJob → Call
  xack : Text → Call
  xautoclaim : ℕ → Call
  xpending_range : RedisText → Call
  xreadgroup : ℕ → Call
  xlen xpending : Call
  sleep : Call
  summarize : ModelRequest → Call

abbrev pub Answer : Call → Type 0
Answer (select_exception id) = Reply (Option ExceptionRecord)
Answer (insert_exception r) = Reply (Option ExceptionRecord)
Answer (update_exception id expected target summary failure_reason) = Reply (Option ExceptionRecord)
Answer clock = ℕ
Answer (xadd job) = Reply Text
Answer (xack message_id) = Reply Unit
Answer (xautoclaim minimum_idle_ms) = Reply (List Message)
Answer (xpending_range message_id) = Reply (List ℕ)
Answer (xreadgroup block_ms) = Reply (List (List Message))
Answer xlen = Reply ℕ
Answer xpending = Reply ℕ
Answer sleep = Unit
Answer (summarize request) = Reply ModelSummary

abbrev pub Action : Type 0 → Type 0
Action A = Program Call Answer Error A

-- The table `exceptions`, the jobs that XADD stored in the stream and the messages that XACK took
-- off the pending list, oldest first.
pub record Shared : Type 0 where
  pub exceptions : Table Text ExceptionRecord
  pub published : List ExceptionJob
  pub acknowledged : List Text

-- `state = ANY($5)`
unfoldable pub any_state : ExceptionState → List ExceptionState → Bool
any_state state [] = false
any_state state (x ∷ xs) = state == x || any_state state xs

-- `COALESCE(new, old)`
abbrev pub coalesce : Option Text → Option Text → Option Text
coalesce none old = old
coalesce (some new) old = some new

-- The row that the UPDATE writes at the time `now`.
unfoldable pub transitioned :
    ℕ → ExceptionState → Option Text → Option Text → ExceptionRecord → ExceptionRecord
transitioned now target summary failure_reason r = record r {
  state = target;
  summary = coalesce summary r.summary;
  failure_reason = failure_reason;
  updated_at = now;
}

-- What the UPDATE returns for the row that it found.
unfoldable pub updated_row :
    ℕ
    → List ExceptionState
    → ExceptionState
    → Option Text
    → Option Text
    → Option ExceptionRecord
    → Option ExceptionRecord
unfolding any_state transitioned
updated_row now expected target summary failure_reason none = none
updated_row now expected target summary failure_reason (some r) =
    if any_state r.state expected
    then some (transitioned now target summary failure_reason r)
    else none

-- What INSERT … ON CONFLICT DO NOTHING RETURNING returns, by the row that is there.
abbrev pub inserted_row : ExceptionRecord → Option ExceptionRecord → Option ExceptionRecord
inserted_row r none = some r
inserted_row r (some existing) = none

-- A written row takes its place in the table; no row written leaves the table alone.
unfoldable pub write_row : Text → Option ExceptionRecord → Shared → Shared
write_row id none s = s
write_row id (some r) s = record s { exceptions = put id r s.exceptions }

-- After a fault, a command may or may not have been done.
abbrev Stored : {A : Type 0} → Reply A → Shared → Shared → Shared → Type 0
Stored (reply a) before done after = after ≡ done
Stored fault before done after = (after ≡ before) ⊎ (after ≡ done)

-- `Performs c s a s'`: the call `c` in the state `s` may answer `a` and leave `s'`.
abbrev pub Performs : (c : Call) → Shared → Answer c → Shared → Type 0
Performs (select_exception id) s a s' = Did a (lookup id s.exceptions) s s s'
Performs (insert_exception r) s a s' =
    Did a (inserted_row r (lookup r.exception_id s.exceptions)) s
      (write_row r.exception_id (inserted_row r (lookup r.exception_id s.exceptions)) s) s'
Performs (update_exception id expected target summary failure_reason) s a s' =
    (now : ℕ) × Did a
      (updated_row now expected target summary failure_reason (lookup id s.exceptions)) s
      (write_row id
        (updated_row now expected target summary failure_reason (lookup id s.exceptions)) s)
      s'
Performs clock s a s' = s' ≡ s
Performs (xadd job) s a s' = Stored a s (record s { published = s.published ++ job ∷ [] }) s'
Performs (xack message_id) s a s' =
    Stored a s (record s { acknowledged = s.acknowledged ++ message_id ∷ [] }) s'
Performs (xautoclaim minimum_idle_ms) s a s' = s' ≡ s
Performs (xpending_range message_id) s a s' = s' ≡ s
Performs (xreadgroup block_ms) s a s' = s' ≡ s
Performs xlen s a s' = s' ≡ s
Performs xpending s a s' = s' ≡ s
Performs sleep s a s' = s' ≡ s
Performs (summarize request) s a s' = s' ≡ s
