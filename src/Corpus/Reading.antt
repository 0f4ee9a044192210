-- ===== src/Corpus/Reading.antt =====
-- src/adapters/persistence/corpus_loader.py: `CorpusLoader._read_documents`.
pub mod Custody
pub mod Reads
use ai_system_engineering_cu.Base.{
  ℕ, Bool, true, false, not, Option, none, some, List, [], ◌∷◌, ◌++◌, map, Text, literal, Table,
  lookup, length, elem, concat, ◌==◌, nat_eq, text_eq, text_leb, sort, join, decimal, if◌then◌else◌,
}
use ai_system_engineering_cu.Effects.{
  pure, raise, call, Outcome, returned, raised, ◌>>=◌, ◌>>◌, attempt, reply_or, each,
}
use ai_system_engineering_cu.Domain.Access.{tier_value}
use ai_system_engineering_cu.Domain.Documents.{DocumentRecord, ChunkRecord}
use ai_system_engineering_cu.Domain.Chunking.{
  ChunkingError, no_width, no_body_text, invalid_chunk, chunk_words, chunk_document,
}
use ai_system_engineering_cu.Documents.Repository.{row_of_document, row_of_chunk}
use ai_system_engineering_cu.Corpus.Calls.{
  Action, Error, corpus_fixture_error, value_error, key_error, type_error, validation_error,
  object_store_error, driver_error, Upsert, document_rows, chunk_rows, read_object, begin, commit,
  rollback, execute_many,
}
use ai_system_engineering_cu.Corpus.Lines.{Json, json_lines}

abbrev pub documents_key : Text
documents_key = literal "corpus/documents.jsonl"

abbrev pub provenance_key : Text
provenance_key = literal "corpus/provenance.jsonl"

abbrev pub value_or_raise : {A : Type 0} → Outcome Error A → Action A
value_or_raise (returned a) = pure a
value_or_raise (raised e) = raise e

-- `set(xs)`, as the members in some order.
unfoldable pub as_set : List Text → List Text
as_set [] = []
as_set (x ∷ xs) = let rest = as_set xs in if elem x xs then rest else x ∷ rest

unfoldable pub repeats : List Text → Bool
unfolding as_set
repeats identifiers = not (length (as_set identifiers) == length identifiers)

abbrev pub identifier_of : DocumentRecord → Text
identifier_of document = document.document_id

abbrev pub by_identifier : DocumentRecord → DocumentRecord → Bool
by_identifier a b = text_leb a.document_id b.document_id

module _ (json : Json) where
  abbrev pub Payload : Type 0
  Payload = Table Text json.Value

  validated : Option DocumentRecord → Outcome Error DocumentRecord
  validated none = raised validation_error
  validated (some document) = returned document

  -- `payload["document_id"]` as the key of a dict.
  entry_of : Payload → Option json.Value → Outcome Error (json.Value × Payload)
  entry_of payload none = raised key_error
  entry_of payload (some value) =
      if json.is_hashable value then returned (value, payload) else raised type_error

  keyed : Payload → Outcome Error (json.Value × Payload)
  unfolding entry_of
  keyed payload = entry_of payload (lookup (literal "document_id") payload)

  abbrev or_else : Option Payload → Option Payload → Option Payload
  or_else none other = other
  or_else (some payload) other = some payload

  -- `provenance.get(document_id)`: of entries under equal keys, the last one.
  unfoldable pub entry_for : Text → List (json.Value × Payload) → Option Payload
  entry_for document_id [] = none
  entry_for document_id ((value, payload) ∷ entries) =
      or_else (entry_for document_id entries)
        (if json.is_text value document_id then some payload else none)

  -- `entry[field] != expected`
  differs_from : Text → Option json.Value → Outcome Error Bool
  differs_from expected none = raised key_error
  differs_from expected (some value) = returned (not (json.is_text value expected))

  abbrev refuse_if : Outcome Error Bool → Outcome Error Unit → Outcome Error Unit
  refuse_if (raised e) rest = raised e
  refuse_if (returned true) rest = raised corpus_fixture_error
  refuse_if (returned false) rest = rest

  agreement : DocumentRecord → Option Payload → Outcome Error Unit
  unfolding differs_from
  agreement document none = raised corpus_fixture_error
  agreement document (some entry) =
      refuse_if (differs_from document.provenance.revision (lookup (literal "revision") entry)) (
        refuse_if (differs_from document.provenance.custodian (lookup (literal "custodian") entry))
          (refuse_if
            (differs_from document.provenance.source_uri (lookup (literal "source_uri") entry))
            (returned tt)))

  unfoldable pub checked_custody : List (json.Value × Payload) → DocumentRecord → Outcome Error Unit
  unfolding agreement entry_for
  checked_custody entries document = agreement document (entry_for document.document_id entries)

  abbrev and_then : {A B : Type 0} → Outcome Error A → (A → Outcome Error B) → Outcome Error B
  and_then (returned a) f = f a
  and_then (raised e) f = raised e

  validate_one : Payload → Outcome Error DocumentRecord
  unfolding validated
  validate_one payload = validated (json.validate payload)

  parse_documents : List ℕ → Outcome Error (List DocumentRecord)
  unfolding json_lines validate_one each
  parse_documents payload = and_then (json_lines json payload) (each validate_one)

  unfoldable pub parse_custody : List ℕ → Outcome Error (List (json.Value × Payload))
  unfolding json_lines keyed each
  parse_custody payload = and_then (json_lines json payload) (each keyed)

  with_custody :
      List DocumentRecord → List (json.Value × Payload) → Outcome Error (List DocumentRecord)
  unfolding checked_custody each
  with_custody documents entries =
      and_then (each (checked_custody entries) documents)
        (λ _. returned (sort by_identifier documents))

  after_documents : List DocumentRecord → Action (List DocumentRecord)
  unfolding parse_custody with_custody repeats
  after_documents [] = raise corpus_fixture_error
  after_documents (document ∷ documents) =
      if repeats (map identifier_of (document ∷ documents)) then raise corpus_fixture_error else do
        payload ← call (read_object provenance_key) (reply_or object_store_error)
        entries ← value_or_raise (parse_custody payload)
        value_or_raise (with_custody (document ∷ documents) entries)

  unfoldable pub read_documents : Action (List DocumentRecord)
  unfolding parse_documents after_documents
  read_documents = do
    payload ← call (read_object documents_key) (reply_or object_store_error)
    documents ← value_or_raise (parse_documents payload)
    after_documents documents
