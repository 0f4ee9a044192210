-- ===== src/Retrieval/Workflow.antt =====
-- src/api/retrieval_workflow.py, with the selection that src/api/retrieval_orchestration.py repeats
-- as a service of its own.
pub mod Selection
pub mod Budget
use ai_system_engineering_cu.Base.{
  ℕ, zero, suc, ◌+◌, ◌-◌, Bool, true, false, ◌&&◌, Option, none, some, List, [], ◌∷◌, ◌++◌, Text,
  literal, ◌==◌, nat_eq, text_eq, elem, length, take, leb, if◌then◌else◌, join, split, Double,
}
use ai_system_engineering_cu.Effects.{pure, raise, Outcome, returned, raised, ◌>>=◌, or_raise}
use ai_system_engineering_cu.Domain.Validation.{has_length}
use ai_system_engineering_cu.Domain.Access.{AuthorizationContext, Provider, tier_value}
use ai_system_engineering_cu.Domain.Search.{
  RetrievalRequest, retrieval_request, Candidate, RetrievalResult,
}
use ai_system_engineering_cu.Retrieval.Calls.{Action, Error, value_error, validation_error}

-- The answer of the retriever, and the candidates that go downstream.
pub record OrchestratedRetrieval : Type 0 where
  pub result : RetrievalResult
  pub selected : List Candidate

-- The loop over the results, with the documents seen and the candidates selected so far.
unfoldable pub select_from : ℕ → List Text → List Candidate → List Candidate → List Candidate
select_from citation_limit seen_documents selected [] = selected
select_from citation_limit seen_documents selected (candidate ∷ results) =
    elim (elem candidate.document_id seen_documents) [
      | true ↦ select_from citation_limit seen_documents selected results
      | false ↦ elim (length (selected ++ candidate ∷ []) == citation_limit) [
        | true ↦ selected ++ candidate ∷ []
        | false ↦
            select_from citation_limit (candidate.document_id ∷ seen_documents)
              (selected ++ candidate ∷ []) results
      ]
    ]

unfoldable pub select : ℕ → List Candidate → List Candidate
unfolding select_from
select citation_limit results = select_from citation_limit [] [] results

pub record AssembledContext : Type 0 where
  pub query_id : Text
  pub prompt_context : Text
  pub citations : List Text
  pub token_budget : ℕ
  pub used_tokens : ℕ

-- `AssembledContext(…)` with its fields' constraints and `validate_budget`.
unfoldable pub assembled_context : AssembledContext → Option AssembledContext
assembled_context context =
    if has_length 120 context.query_id
      && leb 1 context.token_budget
      && leb context.used_tokens context.token_budget
    then some context
    else none

-- What the assembly loop holds.
pub record Assembly : Type 0 where
  pub blocks : List Text
  pub citations : List Text
  pub used : ℕ

unfoldable pub block : Text → Text → Text
block chunk_id trimmed = literal "[" ++ chunk_id ++ literal "] " ++ trimmed

unfoldable pub citation : Candidate → Text
citation candidate =
    candidate.document_id
    ++ literal "@"
    ++ candidate.provenance_revision
    ++ literal " ("
    ++ candidate.access.tenant_id
    ++ literal "/"
    ++ tier_value candidate.access.access_tier
    ++ literal ")"

unfoldable pub include : Candidate → Text → Assembly → Assembly
unfolding block citation
include candidate trimmed assembly = record {
  blocks = assembly.blocks ++ block candidate.chunk_id trimmed ∷ [];
  citations = assembly.citations ++ citation candidate ∷ [];
  used = assembly.used + length (split trimmed);
}

-- The loop over the selected candidates; it ends when no token of the budget remains.
unfoldable pub assemble_from : ℕ → Assembly → List Candidate → Assembly
unfolding include
assemble_from token_budget assembly [] = assembly
assemble_from token_budget assembly (candidate ∷ selected) = elim (leb token_budget assembly.used) [
  | true ↦ assembly
  | false ↦
      assemble_from token_budget
        (include candidate
          (join (literal " ") (take (token_budget - assembly.used) (split candidate.text)))
          assembly)
        selected
]

abbrev pub nothing_assembled : Assembly
nothing_assembled = record { blocks = []; citations = []; used = 0 }

unfoldable pub context_of : Text → ℕ → Assembly → AssembledContext
context_of query_id token_budget assembly = record {
  query_id = query_id;
  prompt_context = join (10 ∷ 10 ∷ []) assembly.blocks;
  citations = assembly.citations;
  token_budget = token_budget;
  used_tokens = assembly.used;
}

-- `_assemble_inline`; `none` is a `ValidationError`.
unfoldable pub assemble_inline : ℕ → Text → List Candidate → Option AssembledContext
unfolding assembled_context assemble_from context_of
assemble_inline token_budget query_id selected =
    assembled_context
      (context_of query_id token_budget (assemble_from token_budget nothing_assembled selected))

-- `RetrievalWorkflow.__init__`; `none` is its `ValueError`.
unfoldable pub checked_limit : ℕ → Option ℕ
checked_limit citation_limit = if leb 1 citation_limit then some citation_limit else none

pub record RetrievalOutcome : Type 0 where
  pub result : RetrievalResult
  pub context : AssembledContext

-- The injected services, if any, as what they answer.
pub record Services : Type 1 where
  pub orchestrate :
      Option (Text → Text → AuthorizationContext → Bool → Action OrchestratedRetrieval)
  pub assemble : Option (Text → List Candidate → Action AssembledContext)

-- `search` is the `Retriever` port.
module _ (search : RetrievalRequest → Action RetrievalResult) (top_k : ℕ) (dense_weight : Double)
    (token_budget citation_limit : ℕ) where
  unfoldable pub orchestrate_inline :
      Text → Text → AuthorizationContext → Bool → Action OrchestratedRetrieval
  unfolding select
  orchestrate_inline query_id text authorization explain = do
    request ←
        or_raise validation_error
          (retrieval_request query_id text authorization top_k dense_weight explain)
    result ← search request
    pure (record { result = result; selected = select citation_limit result.results })

  orchestrated : Services → Text → Text → AuthorizationContext → Bool → Action OrchestratedRetrieval
  unfolding orchestrate_inline
  orchestrated services = elim services.orchestrate [
    | some orchestrate ↦ orchestrate
    | none ↦ orchestrate_inline
  ]

  assembled : Services → Text → List Candidate → Action AssembledContext
  unfolding assemble_inline
  assembled services query_id selected = elim services.assemble [
    | some assemble ↦ assemble query_id selected
    | none ↦ or_raise validation_error (assemble_inline token_budget query_id selected)
  ]

  unfoldable pub answer :
      Services → Text → Text → AuthorizationContext → Bool → Action RetrievalOutcome
  unfolding orchestrated assembled
  answer services query_id text authorization explain = do
    found ← orchestrated services query_id text authorization explain
    context ← assembled services query_id found.selected
    pure (record { result = found.result; context = context })
