-- ===== src/Idempotency/Calls.antt =====
-- The statements on the table `idempotency_claims` of src/infra/postgres/003_idempotency.sql, and
-- the write operation that a key protects. The SQL is that of
-- src/adapters/persistence/idempotency.py. A timestamp is a count of microseconds.
use ai_system_engineering_cu.Base.{
  ℕ, ◌≡◌, Bool, true, false, ◌&&◌, Option, none, some, List, [], ◌∷◌, ◌++◌, Text, Table, lookup,
  put, remove, ◌==◌, text_eq, if◌then◌else◌,
}
use ai_system_engineering_cu.Effects.{Program, Reply, Outcome, Did}

-- `http_error` carries its status code; `operation_error` is any other error of the operation.
pub data Error : Type 0 where
  idempotency_conflict validation_error driver operation_error : Error
  http_error : ℕ → Error

-- What a completed row holds: the table's CHECK lets all three columns be NULL or none.
pub record Completion : Type 0 where
  pub completed_at : ℕ
  pub response_status : ℕ
  pub response_body : Text

-- A row under its key.
pub record ClaimRow : Type 0 where
  pub operation_id : Text
  pub claimed_at : ℕ
  pub completion : Option Completion

-- A payload is kept as a text of its own, and so is a JSON value.
pub data Call : Type 0 where
  insert_claim : Text → Text → Call
  select_claim : Text → Call
  update_claim : Text → Text → ℕ → Text → Call
  delete_claim : Text → Text → Call
  perform : Text → Call

abbrev pub Answer : Call → Type 0
Answer (insert_claim key operation_id) = Reply (Option ClaimRow)
Answer (select_claim key) = Reply (Option ClaimRow)
Answer (update_claim key operation_id status body) = Reply (Option ClaimRow)
Answer (delete_claim key operation_id) = Reply Unit
Answer (perform key) = Outcome Error (ℕ × Text)

abbrev pub Action : Type 0 → Type 0
Action A = Program Call Answer Error A

-- The table, and the keys for which the operation was performed.
pub record Shared : Type 0 where
  pub claims : Table Text ClaimRow
  pub performed : List Text

unfoldable pub is_open : ClaimRow → Bool
is_open row = elim row.completion [ none ↦ true | some completion ↦ false ]

-- INSERT … ON CONFLICT DO NOTHING RETURNING, by the row that is there.
unfoldable pub inserted_claim : ℕ → Text → Option ClaimRow → Option ClaimRow
inserted_claim now operation_id none =
    some (record { operation_id = operation_id; claimed_at = now; completion = none })
inserted_claim now operation_id (some row) = none

-- UPDATE … WHERE operation_id = $2 AND completed_at IS NULL RETURNING.
unfoldable pub updated_claim : ℕ → Text → ℕ → Text → Option ClaimRow → Option ClaimRow
unfolding is_open
updated_claim now operation_id status body none = none
updated_claim now operation_id status body (some row) =
    if row.operation_id == operation_id && is_open row
    then some (record row {
      completion =
          some (record { completed_at = now; response_status = status; response_body = body });
    })
    else none

-- Does DELETE … WHERE operation_id = $2 AND completed_at IS NULL take the row?
unfoldable pub is_deleted : Text → Option ClaimRow → Bool
unfolding is_open
is_deleted operation_id none = false
is_deleted operation_id (some row) = row.operation_id == operation_id && is_open row

unfoldable pub write_claim : Text → Option ClaimRow → Shared → Shared
write_claim key none s = s
write_claim key (some row) s = record s { claims = put key row s.claims }

unfoldable pub delete_if : Bool → Text → Shared → Shared
delete_if false key s = s
delete_if true key s = record s { claims = remove key s.claims }

-- `Performs c s a s'`: the call `c` in the state `s` may answer `a` and leave `s'`.
abbrev pub Performs : (c : Call) → Shared → Answer c → Shared → Type 0
Performs (insert_claim key operation_id) s a s' =
    (now : ℕ) × Did a (inserted_claim now operation_id (lookup key s.claims)) s
      (write_claim key (inserted_claim now operation_id (lookup key s.claims)) s) s'
Performs (select_claim key) s a s' = Did a (lookup key s.claims) s s s'
Performs (update_claim key operation_id status body) s a s' =
    (now : ℕ) × Did a (updated_claim now operation_id status body (lookup key s.claims)) s
      (write_claim key (updated_claim now operation_id status body (lookup key s.claims)) s) s'
Performs (delete_claim key operation_id) s a s' =
    Did a tt s (delete_if (is_deleted operation_id (lookup key s.claims)) key s) s'
Performs (perform key) s a s' = s' ≡ record s { performed = s.performed ++ key ∷ [] }
