-- ===== src/Domain/Search.antt =====
-- src/domain/contracts.py: the contracts of retrieval.
use ai_system_engineering_cu.Base.{
  ℕ, Bool, true, false, ◌&&◌, Option, none, some, List, [], ◌∷◌, Text, leb, Double, pos, finite,
  leb_double, one, length, if◌then◌else◌,
}
use ai_system_engineering_cu.Domain.Validation.{has_length}
use ai_system_engineering_cu.Domain.Access.{AccessLabel, AuthorizationContext}

pub record RetrievalRequest : Type 0 where
  pub query_id : Text
  pub text : Text
  pub authorization : AuthorizationContext
  pub top_k : ℕ
  pub dense_weight : Double
  pub explain : Bool

-- `0.0 <= value <= 1.0`
unfoldable pub is_weight : Double → Bool
is_weight value = leb_double (finite (pos 0)) value && leb_double value (finite (pos one))

-- Building a request validates it; `none` is a `ValidationError`.
unfoldable pub retrieval_request :
    Text → Text → AuthorizationContext → ℕ → Double → Bool → Option RetrievalRequest
unfolding is_weight
retrieval_request query_id text authorization top_k dense_weight explain =
    if has_length 120 query_id
      && has_length 1000 text
      && leb 1 top_k
      && leb top_k 50
      && is_weight dense_weight
    then some (record {
      query_id = query_id;
      text = text;
      authorization = authorization;
      top_k = top_k;
      dense_weight = dense_weight;
      explain = explain;
    })
    else none

pub data RetrievalStage : Type 0 where
  dense sparse authorization fusion : RetrievalStage

abbrev pub stage_beq : RetrievalStage → RetrievalStage → Bool
stage_beq dense dense = true
stage_beq sparse sparse = true
stage_beq authorization authorization = true
stage_beq fusion fusion = true
stage_beq _ _ = false

pub record Candidate : Type 0 where
  pub chunk_id : Text
  pub document_id : Text
  pub rank : ℕ
  pub score : Double
  pub text : Text
  pub access : AccessLabel
  pub provenance_revision : Text

unfoldable pub is_candidate : Candidate → Bool
is_candidate candidate =
    has_length 140 candidate.chunk_id
    && has_length 120 candidate.document_id
    && leb 1 candidate.rank
    && leb 1 (length candidate.text)
    && has_length 40 candidate.provenance_revision

-- What one stage admitted and dropped. The note for a reader is left out.
pub record StageEvidence : Type 0 where
  pub stage : RetrievalStage
  pub admitted : List Text
  pub dropped : List Text

pub record RetrievalResult : Type 0 where
  pub query_id : Text
  pub results : List Candidate
  pub stages : List StageEvidence
  pub authorization_enforced : Bool

-- `RetrievalResult.stage`; `none` is its `KeyError`.
unfoldable pub find_stage : RetrievalStage → List StageEvidence → Option StageEvidence
find_stage stage [] = none
find_stage stage (evidence ∷ stages) =
    if stage_beq evidence.stage stage then some evidence else find_stage stage stages
