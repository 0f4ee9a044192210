-- ===== src/Retrieval/Orchestration.antt =====
-- src/api/retrieval_orchestration.py: `RetrievalOrchestrationService`, with the loop of the workflow
-- that it repeats, and the workflow with that service injected.
use ai_system_engineering_cu.Base.{ℕ, Bool, Text, Double}
use ai_system_engineering_cu.Effects.{pure, ◌>>=◌, or_raise}
use ai_system_engineering_cu.Domain.Access.{AuthorizationContext}
use ai_system_engineering_cu.Domain.Search.{RetrievalRequest, retrieval_request, RetrievalResult}
use ai_system_engineering_cu.Retrieval.Calls.{Action, validation_error}
use ai_system_engineering_cu.Retrieval.Workflow.{OrchestratedRetrieval, select}

module _ (search : RetrievalRequest → Action RetrievalResult) (top_k : ℕ) (dense_weight : Double)
    (citation_limit : ℕ) where
  unfoldable pub orchestrate :
      Text → Text → AuthorizationContext → Bool → Action OrchestratedRetrieval
  orchestrate query_id text authorization explain = do
    request ←
        or_raise validation_error
          (retrieval_request query_id text authorization top_k dense_weight explain)
    result ← search request
    pure (record { result = result; selected = select citation_limit result.results })
