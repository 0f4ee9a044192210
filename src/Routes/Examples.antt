-- ===== src/Routes/Examples.antt =====
-- The theorems about the routes at concrete inputs.
use ai_system_engineering_cu.Base.{
  ℕ, ◌+◌, ◌*◌, ◌≡◌, refl, true, some, [], ◌∷◌, Text, literal, strip, lookup, text_eq, length,
  finite, pos, one, text_beq,
}
use ai_system_engineering_cu.Effects.Failure.{FailsAs}
use ai_system_engineering_cu.Effects.Interference.{Ensures}
use ai_system_engineering_cu.Domain.Validation.{is_slug}
use ai_system_engineering_cu.Domain.Access.{standard, tenant_boundary}
use ai_system_engineering_cu.Domain.Documents.{DocumentRecord}
use ai_system_engineering_cu.Documents.Calls.{Shared, Performs}
use ai_system_engineering_cu.Idempotency.Calls.{ClaimRow, Completion}
use ai_system_engineering_cu.Idempotency.Handler.{required_key}
use ai_system_engineering_cu.Idempotency.Handler.Replay.{KeepsRow, IsReplay}
use ai_system_engineering_cu.Routes.DocumentsV2.{
  DocumentV2Request, DocumentV2Response, documents_operation_id, create_document_v2,
}
use ai_system_engineering_cu.Documents.Run.{run}
use ai_system_engineering_cu.Documents.Service.{create_document}
use ai_system_engineering_cu.Routes.DocumentsV2.Once.{AnswersOnce, create_document_v2-Once}
use ai_system_engineering_cu.Routes.DocumentsV2.Replay.{
  Both, PerformsBoth, IsClaimsCall, create_document_v2-IsReplay,
}
use ai_system_engineering_cu.Documents.Repository.Errors.{IsUncaught}
use ai_system_engineering_cu.Routes.Labels.{route_label, chunks_route, starts_with, ends_with}
use ai_system_engineering_cu.Routes.Documents.{post_document, get_one_document}
use ai_system_engineering_cu.Routes.Documents.Errors.{LeavesCreation, post_document-FailsAs}
use ai_system_engineering_cu.Routes.Documents.Reads.{Reports, get_one_document-Reports}
use ai_system_engineering_cu.Routes.Retrieval.{ExperimentRequest, measure_retrieval}
use ai_system_engineering_cu.Routes.Retrieval.Errors.{IsOther, retriever, measure_retrieval-FailsAs}

abbrev lower : Text → Text
lower s = s

abbrev digest : Text → ℕ → ℕ
digest s i = length s * 7 + i

-- A body without a word.
abbrev blank_document : DocumentRecord
blank_document = record {
  document_id = literal "d-1";
  title = literal "Handling";
  body = literal " ";
  access = record { tenant_id = literal "t-a"; access_tier = standard };
  provenance = record {
    source_uri = literal "s3://corpus/d-1";
    custodian = literal "quality";
    revision = literal "r1";
    recorded_at = 5;
  };
}

abbrev no_rows : Shared
no_rows = record { documents = []; chunks = []; pending = [] }

abbrev experiment : ExperimentRequest
experiment = record {
  query_id = literal "q-1";
  text = literal "cold chain";
  authorization = record { tenant_id = literal "t-a"; clearance = standard };
  top_k = 3;
  fusion_weight = finite (pos one);
}

chunks_label : route_label (literal "/api/v1/documents/d-1/chunks") ≡ chunks_route
unfolding route_label starts_with ends_with text_beq
chunks_label = refl

post_document-FailsAs_example :
    FailsAs LeavesCreation (post_document lower digest true blank_document)
post_document-FailsAs_example = post_document-FailsAs lower digest true blank_document

get_one_document-Reports_example :
    Ensures Performs
      (λ _ _. Unit {0})
      (λ _ _. Unit {0})
      (Reports (literal "d-1") (record { tenant_id = literal "t-a"; clearance = standard }))
      (get_one_document true (literal "d-1") (literal "t-a") standard)
      no_rows
    × FailsAs IsUncaught (get_one_document true (literal "d-1") (literal "t-a") standard)
unfolding is_slug
get_one_document-Reports_example =
    get_one_document-Reports true (literal "d-1") (literal "t-a") standard no_rows refl

measure_retrieval-FailsAs_example :
    FailsAs IsOther (measure_retrieval (retriever lower digest tenant_boundary) experiment)
measure_retrieval-FailsAs_example =
    measure_retrieval-FailsAs lower digest tenant_boundary experiment

abbrev a_key : Text
a_key = literal "key-12345"

abbrev recorded_once : Completion
recorded_once = record { completed_at = 9; response_status = 201; response_body = literal "{}" }

abbrev created_row : ClaimRow
created_row = record {
  operation_id = documents_operation_id;
  claimed_at = 7;
  completion = some recorded_once;
}

abbrev created_once : Both
created_once = (record { claims = (a_key, created_row) ∷ []; performed = a_key ∷ [] }, no_rows)

abbrev a_request : DocumentV2Request
a_request = record { document = blank_document; source_system = literal "erp" }

abbrev same : Text → Text
same t = t

abbrev id_of : DocumentV2Response → Text
id_of response = response.document_id

create_document_v2-IsReplay_example :
    Ensures PerformsBoth
      (λ t u.
        KeepsRow same same same documents_operation_id a_key created_row recorded_once refl t.0 u.0)
      (λ c _. IsClaimsCall c)
      (λ a _. IsReplay same same same documents_operation_id a_key created_row recorded_once refl a)
      (create_document_v2 lower digest id_of same same same true a_request (some a_key))
      created_once
unfolding required_key strip text_beq lookup
create_document_v2-IsReplay_example =
    create_document_v2-IsReplay lower digest id_of same same same a_key created_row recorded_once
      refl true a_request (some a_key) created_once refl refl

-- A body of two words.
abbrev full_request : DocumentV2Request
full_request = record {
  document = record blank_document { body = literal "Keep cold" };
  source_system = literal "erp";
}

abbrev nothing_stored : Both
nothing_stored = (record { claims = []; performed = [] }, no_rows)

-- The retry carries another document, and comes an hour later.
create_document_v2-Once_example :
    AnswersOnce lower digest id_of same same same 5 3600000005 true true full_request a_request
      (some a_key)
      (some (literal " key-12345 "))
      a_key
      nothing_stored
      (run (create_document lower digest true full_request.document) no_rows)
unfolding required_key strip text_beq lookup
create_document_v2-Once_example =
    create_document_v2-Once lower digest id_of same same same 5 3600000005 true true full_request
      a_request (some a_key) (some (literal " key-12345 ")) a_key nothing_stored refl refl refl
