-- ===== src/Corpus/Examples.antt =====
-- The theorems about the corpus at concrete inputs.
use ai_system_engineering_cu.Base.{
  ℕ, ◌+◌, ◌*◌, ◌≡◌, refl, arith, true, some, List, [], ◌∷◌, Text, literal, length, Table, lookup,
  elem, sort, ◌==◌, text_eq, text_beq, join,
}
use ai_system_engineering_cu.Effects.{returned, each}
use ai_system_engineering_cu.Effects.Interference.{Ensures}
use ai_system_engineering_cu.Domain.Access.{standard}
use ai_system_engineering_cu.Domain.Validation.{is_slug, has_length}
use ai_system_engineering_cu.Domain.Documents.{DocumentRecord, ChunkRecord, is_document}
use ai_system_engineering_cu.Domain.Chunking.{chunk_words, chunk_document, chunk_of}
use ai_system_engineering_cu.Domain.Chunking.Identity.{chunk_of-valid}
use ai_system_engineering_cu.Corpus.Calls.{Shared, Performs}
use ai_system_engineering_cu.Corpus.Lines.{Json}
use ai_system_engineering_cu.Corpus.Reading.{documents_key, provenance_key, read_documents}
use ai_system_engineering_cu.Corpus.Reading.Custody.{IsCorpus, read_documents-IsCorpus}
use ai_system_engineering_cu.Corpus.Loader.{report, load, chunks_of}
use ai_system_engineering_cu.Corpus.Loader.Repeat.{run, storing, run-load_of, SameRows, load-load}

abbrev document : DocumentRecord
document = record {
  document_id = literal "d-1";
  title = literal "Handling";
  body = literal "cold";
  access = record { tenant_id = literal "t-a"; access_tier = standard };
  provenance = record {
    source_uri = literal "s3://corpus/d-1";
    custodian = literal "quality";
    revision = literal "r1";
    recorded_at = 5;
  };
}

abbrev entry : Table Text Text
entry =
    (literal "document_id", literal "d-1")
    ∷ (literal "revision", literal "r1")
    ∷ (literal "custodian", literal "quality")
    ∷ (literal "source_uri", literal "s3://corpus/d-1")
    ∷ []

-- A format in which the line "x" is the document and its custody entry.
abbrev format : Json
format = record {
  Value = Text;
  decode = λ bytes. some bytes;
  loads = λ line. some line;
  as_object = λ value. some entry;
  is_text = λ value text. value == text;
  is_hashable = λ value. true;
  validate = λ payload. some document;
}

abbrev start : Shared
start = record {
  objects = (documents_key, literal "x") ∷ (provenance_key, literal "x") ∷ [];
  documents = [];
  chunks = [];
  pending = [];
}

abbrev lower : Text → Text
lower s = s

abbrev digest : Text → ℕ → ℕ
digest s i = length s * 7 + i

abbrev isoformat : ℕ → Text
isoformat n = []

abbrev hexdigest : List Text → Text
hexdigest updates = join [] updates

read_documents-IsCorpus_example :
    Ensures Performs
      (λ _ _. Unit {0})
      (λ _ _. Unit {0})
      (IsCorpus format)
      (read_documents format)
      start
read_documents-IsCorpus_example = read_documents-IsCorpus format start

chunk_document_runs :
    chunk_document lower digest document chunk_words
    ≡ returned (chunk_of lower digest document 0 (literal "cold") ∷ [])
unfolding chunk_document is_document is_slug has_length
chunk_document_runs =
    rw (chunk_of-valid lower digest document 0 (literal "cold") refl (omega arith) (omega arith))
      refl

abbrev chunks : List ChunkRecord
chunks = chunk_of lower digest document 0 (literal "cold") ∷ []

read_runs : run (read_documents format) start ≡ (returned (document ∷ []), start)
unfolding read_documents lookup text_beq elem sort
read_runs = refl

cut_runs : each (chunks_of lower digest) (document ∷ []) ≡ returned (chunks ∷ [])
unfolding each chunks_of
cut_runs = rw (chunk_document_runs) refl

load_runs : run (load isoformat hexdigest format lower digest) start ≡ (
  returned (report isoformat hexdigest (document ∷ []) chunks),
  storing (document ∷ []) chunks start,
)
load_runs =
    run-load_of isoformat hexdigest format lower digest (document ∷ []) (chunks ∷ []) start
      read_runs cut_runs

load-load_example :
    (u : Shared) × (run
        (load isoformat hexdigest format lower digest)
        (storing (document ∷ []) chunks start)
      ≡ (returned (report isoformat hexdigest (document ∷ []) chunks), u))
    × SameRows (storing (document ∷ []) chunks start) u
load-load_example =
    load-load isoformat hexdigest format lower digest start
      (report isoformat hexdigest (document ∷ []) chunks) (storing (document ∷ []) chunks start)
      load_runs
