-- ===== src/Corpus/Calls.antt =====
-- The calls of src/adapters/persistence/corpus_loader.py. A table holds its rows under their
-- primary key, and an upsert replaces the row that is there.
use ai_system_engineering_cu.Base.{
  ℕ, ◌≡◌, Option, none, some, List, [], ◌∷◌, ◌++◌, Text, Table, lookup, put, text_eq,
}
use ai_system_engineering_cu.Effects.{Program, Reply, reply, fault, Did}
use ai_system_engineering_cu.Documents.Calls.{DocumentRow, ChunkRow}

pub data Error : Type 0 where
  corpus_fixture_error value_error key_error type_error validation_error : Error
  object_store_error driver_error : Error

pub data Upsert : Type 0 where
  document_rows : List DocumentRow → Upsert
  chunk_rows : List ChunkRow → Upsert

-- `read_object` is the port's read; the others reach the database.
pub data Call : Type 0 where
  read_object : Text → Call
  begin commit rollback : Call
  execute_many : Upsert → Call

abbrev pub Answer : Call → Type 0
Answer (read_object key) = Reply (List ℕ)
Answer begin = Reply Unit
Answer commit = Reply Unit
Answer rollback = Reply Unit
Answer (execute_many upsert) = Reply Unit

abbrev pub Action : Type 0 → Type 0
Action A = Program Call Answer Error A

-- The objects, the committed rows, and what the transaction holds.
pub record Shared : Type 0 where
  pub objects : Table Text (List ℕ)
  pub documents : Table Text DocumentRow
  pub chunks : Table Text ChunkRow
  pub pending : List Upsert

-- `ON CONFLICT (…) DO UPDATE SET` every other column, for each row in turn.
module _ {R : Type 0} (key_of : R → Text) where
  unfoldable pub upserted : List R → Table Text R → Table Text R
  upserted [] table = table
  upserted (row ∷ rows) table = upserted rows (put (key_of row) row table)

abbrev pub document_key : DocumentRow → Text
document_key row = row.document_id

abbrev pub chunk_key : ChunkRow → Text
chunk_key row = row.chunk_id

unfoldable pub applied : List Upsert → Shared → Shared
unfolding upserted
applied [] s = s
applied (document_rows rows ∷ upserts) s =
    applied upserts (record s { documents = upserted document_key rows s.documents })
applied (chunk_rows rows ∷ upserts) s =
    applied upserts (record s { chunks = upserted chunk_key rows s.chunks })

abbrev pub Found : Text → Reply (List ℕ) → Shared → Type 0
Found key (reply content) s = lookup key s.objects ≡ some content
Found key fault s = Unit

-- `Performs c s a s'`: the call `c` in the state `s` may answer `a` and leave `s'`.
abbrev pub Performs : (c : Call) → Shared → Answer c → Shared → Type 0
Performs (read_object key) s a s' = Found key a s × (s' ≡ s)
Performs begin s a s' = s' ≡ record s { pending = [] }
Performs rollback s a s' = s' ≡ record s { pending = [] }
Performs (execute_many upsert) s a s' =
    Did a tt s (record s { pending = s.pending ++ upsert ∷ [] }) s'
Performs commit s a s' = Did a tt s (record (applied s.pending s) { pending = [] }) s'

abbrev read_reply : Option (List ℕ) → Reply (List ℕ)
read_reply none = fault
read_reply (some content) = reply content

-- A database and an object store that do what each call asks; a missing object is a failed read.
abbrev pub performed : (c : Call) → Shared → Answer c × Shared
performed (read_object key) s = (read_reply (lookup key s.objects), s)
performed begin s = (reply tt, record s { pending = [] })
performed commit s = (reply tt, record (applied s.pending s) { pending = [] })
performed rollback s = (reply tt, record s { pending = [] })
performed (execute_many upsert) s = (reply tt, record s { pending = s.pending ++ upsert ∷ [] })
