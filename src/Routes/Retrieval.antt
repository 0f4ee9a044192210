-- ===== src/Routes/Retrieval.antt =====
-- src/api/routes.py: the routes of retrieval and of experiments, and src/api/experiment.py.
pub mod Errors
use ai_system_engineering_cu.Base.{
  ℕ, Bool, false, ◌&&◌, not, Option, none, some, List, Text, Double, leb, if◌then◌else◌,
}
use ai_system_engineering_cu.Effects.{pure, ◌>>=◌, attempt, or_raise}
use ai_system_engineering_cu.Domain.Validation.{has_length}
use ai_system_engineering_cu.Domain.Access.{AuthorizationContext}
use ai_system_engineering_cu.Domain.Search.{
  RetrievalRequest, retrieval_request, is_weight, Candidate, StageEvidence, RetrievalResult,
}
use ai_system_engineering_cu.Retrieval.Calls.{
  Action, Error, retrieval_unavailable, validation_error,
}
use ai_system_engineering_cu.Retrieval.Workflow.{RetrievalOutcome}
use ai_system_engineering_cu.Routes.Http.{Response, responded, refused, answered}

pub record SearchRequest : Type 0 where
  pub query_id : Text
  pub text : Text
  pub authorization : AuthorizationContext
  pub explain : Bool

unfoldable pub is_search_request : SearchRequest → Bool
unfolding has_length
is_search_request request = has_length 120 request.query_id && has_length 1000 request.text

pub record ExperimentRequest : Type 0 where
  pub query_id : Text
  pub text : Text
  pub authorization : AuthorizationContext
  pub top_k : ℕ
  pub fusion_weight : Double

-- `CANDIDATE_POOL` of src/adapters/retriever/postgres_hybrid.py
abbrev pub top_k_limit : ℕ
top_k_limit = 12

unfoldable pub is_experiment_request : ExperimentRequest → Bool
unfolding has_length is_weight
is_experiment_request request =
    has_length 120 request.query_id
    && has_length 1000 request.text
    && leb 1 request.top_k
    && leb request.top_k top_k_limit
    && is_weight request.fusion_weight

pub record ExperimentResponse : Type 0 where
  pub query_id : Text
  pub results : List Candidate
  pub stages : List StageEvidence
  pub authorization_enforced : Bool
  pub top_k : ℕ
  pub fusion_weight : Double

pub record SearchResponse : Type 0 where
  pub query_id : Text
  pub results : List Candidate
  pub stages : List StageEvidence
  pub authorization_enforced : Bool
  pub prompt_context : Text
  pub citations : List Text
  pub token_budget : ℕ
  pub used_tokens : ℕ

unavailable_status : Error → Option ℕ
unavailable_status retrieval_unavailable = some 503
unavailable_status _ = none

abbrev pub measured : ExperimentRequest → RetrievalResult → Response ExperimentResponse
measured request result = responded 200 (record {
  query_id = result.query_id;
  results = result.results;
  stages = result.stages;
  authorization_enforced = result.authorization_enforced;
  top_k = request.top_k;
  fusion_weight = request.fusion_weight;
})

-- `search` is the `Retriever` port.
module _ (search : RetrievalRequest → Action RetrievalResult) where
  -- `ExperimentRetrieval.measure`
  unfoldable pub measure : Text → Text → AuthorizationContext → ℕ → Double → Action RetrievalResult
  unfolding retrieval_request
  measure query_id text authorization top_k fusion_weight = do
    request ←
        or_raise validation_error
          (retrieval_request query_id text authorization top_k fusion_weight false)
    search request

  -- FastAPI answers 422 to a body that fails its validators.
  unfoldable pub measure_retrieval : ExperimentRequest → Action (Response ExperimentResponse)
  unfolding measure unavailable_status is_experiment_request
  measure_retrieval request = if not (is_experiment_request request) then pure (refused 422) else do
    result ← attempt (
        measure request.query_id request.text request.authorization request.top_k
          request.fusion_weight)
    answered unavailable_status (measured request) result

abbrev found_response : RetrievalOutcome → Response SearchResponse
found_response outcome = responded 200 (record {
  query_id = outcome.result.query_id;
  results = outcome.result.results;
  stages = outcome.result.stages;
  authorization_enforced = outcome.result.authorization_enforced;
  prompt_context = outcome.context.prompt_context;
  citations = outcome.context.citations;
  token_budget = outcome.context.token_budget;
  used_tokens = outcome.context.used_tokens;
})

-- `answer` is that of the workflow that `create_app` receives.
unfoldable pub search_route :
    (Text → Text → AuthorizationContext → Bool → Action RetrievalOutcome)
    → SearchRequest
    → Action (Response SearchResponse)
unfolding unavailable_status is_search_request
search_route answer request = if not (is_search_request request) then pure (refused 422) else do
  outcome ← attempt (answer request.query_id request.text request.authorization request.explain)
  answered unavailable_status found_response outcome
