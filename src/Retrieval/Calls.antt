-- ===== src/Retrieval/Calls.antt =====
-- The queries that retrieval awaits, and the errors that cross a function of this part.
use ai_system_engineering_cu.Base.{ℕ, ◌≡◌, ◌≤◌, true, List, Text, Double, All, length}
use ai_system_engineering_cu.Effects.{Program, raise, pure}
use ai_system_engineering_cu.Retrieval.Clause.{Condition, Bound, matches}

-- `postgres_error`, `os_error` and `interface_error`, which is none of the two, are what asyncpg
-- raises, `retrieval_unavailable` is the port's.
pub data Error : Type 0 where
  value_error key_error validation_error retrieval_unavailable : Error
  postgres_error os_error interface_error : Error

-- A row of the table `chunks`, as far as retrieval reads it.
pub record ChunkRow : Type 0 where
  pub chunk_id : Text
  pub document_id : Text
  pub chunk_text : Text
  pub tenant_id : Text
  pub access_tier : Text
  pub provenance_revision : Text

-- A row that an arm returns, with the score computed for it.
pub record ScoredRow : Type 0 where
  pub chunk : ChunkRow
  pub score : Double

-- What `fetch` gives: rows, or the error that it raises.
pub data Fetched (A : Type 0) : Type 0 where
  rows : List A → Fetched A
  rejected unreachable unusable : Fetched A

-- The three statements, each with its constraint clause, the bound values and the LIMIT.
pub data Call : Type 0 where
  select_dense select_sparse : List Condition → List Bound → ℕ → Call
  select_pool : List Condition → List Bound → Call

abbrev pub Answer : Call → Type 0
Answer (select_dense clause bound limit) = Fetched ScoredRow
Answer (select_sparse clause bound limit) = Fetched ScoredRow
Answer (select_pool clause bound) = Fetched ChunkRow

abbrev pub Action : Type 0 → Type 0
Action A = Program Call Answer Error A

abbrev pub rows_or_raise : {A : Type 0} → Fetched A → Action (List A)
rows_or_raise (rows rs) = pure rs
rows_or_raise rejected = raise postgres_error
rows_or_raise unreachable = raise os_error
rows_or_raise unusable = raise interface_error

-- What PostgreSQL promises of a statement: each row was stored and satisfies the WHERE clause, and
-- an arm returns no more than its LIMIT. `Stored` says which rows the table ever held.
module _ (Stored : ChunkRow → Type 0) where
  abbrev pub IsSelected : List Condition → List Bound → ChunkRow → Type 0
  IsSelected clause bound row =
      Stored row × (matches bound row.tenant_id row.access_tier clause ≡ true)

  abbrev pub IsArm : List Condition → List Bound → ℕ → Fetched ScoredRow → Type 0
  IsArm clause bound limit (rows rs) =
      All (λ r. IsSelected clause bound r.chunk) rs × (length rs ≤ limit)
  IsArm clause bound limit _ = Unit

  abbrev pub IsPool : List Condition → List Bound → Fetched ChunkRow → Type 0
  IsPool clause bound (rows rs) = All (IsSelected clause bound) rs
  IsPool clause bound _ = Unit

  -- The queries change no state that they share.
  abbrev pub Performs : (c : Call) → Unit {0} → Answer c → Unit {0} → Type 0
  Performs (select_dense clause bound limit) s a s' = IsArm clause bound limit a
  Performs (select_sparse clause bound limit) s a s' = IsArm clause bound limit a
  Performs (select_pool clause bound) s a s' = IsPool clause bound a
