-- ===== src/Retrieval/Search.antt =====
-- src/adapters/retriever/postgres_hybrid.py: `PostgresHybridRetriever`. The notes of the stages,
-- which only a reader sees, and the spans are left out.
pub mod Readable
pub mod Arms
pub mod Scope
pub mod Errors
use ai_system_engineering_cu.Base.{
  ℕ, suc, not, Option, none, some, List, [], ◌∷◌, ◌++◌, map, Text, text_eq, elem, sort, text_leb,
  if◌then◌else◌, leb,
}
use ai_system_engineering_cu.Effects.{
  pure, raise, call, Outcome, returned, raised, ◌>>=◌, attempt, or_raise,
}
use ai_system_engineering_cu.Domain.Access.{
  AccessTier, AccessLabel, access_tier_of, access_label, AccessConstraint, restricts, Provider,
}
use ai_system_engineering_cu.Domain.Search.{
  RetrievalRequest, dense, sparse, authorization, fusion, Candidate, is_candidate, StageEvidence,
  RetrievalResult,
}
use ai_system_engineering_cu.Retrieval.Calls.{
  Error, value_error, validation_error, retrieval_unavailable, postgres_error, os_error, ChunkRow,
  ScoredRow, select_dense, select_sparse, select_pool, Action, rows_or_raise,
}
use ai_system_engineering_cu.Retrieval.Clause.{Clause, scalar, texts, constraint_clause}
use ai_system_engineering_cu.Retrieval.Fusion.{fuse}

-- `PostgresHybridRetriever.__init__`, as to a `candidate_pool` that is an integer.
unfoldable pub checked_pool : ℕ → Option ℕ
checked_pool candidate_pool = if leb 1 candidate_pool then some candidate_pool else none

-- `_candidates`, one row.
checked_candidate : Candidate → Outcome Error Candidate
checked_candidate candidate =
    if is_candidate candidate then returned candidate else raised validation_error

labelled : ℕ → ScoredRow → Option AccessLabel → Outcome Error Candidate
unfolding checked_candidate
labelled position row none = raised validation_error
labelled position row (some access) = checked_candidate (record {
  chunk_id = row.chunk.chunk_id;
  document_id = row.chunk.document_id;
  rank = position;
  score = row.score;
  text = row.chunk.chunk_text;
  access = access;
  provenance_revision = row.chunk.provenance_revision;
})

by_tier : ℕ → ScoredRow → Option AccessTier → Outcome Error Candidate
unfolding labelled
by_tier position row none = raised value_error
by_tier position row (some tier) = labelled position row (access_label row.chunk.tenant_id tier)

cons_candidate :
    Outcome Error Candidate → Outcome Error (List Candidate) → Outcome Error (List Candidate)
cons_candidate (raised e) rest = raised e
cons_candidate (returned candidate) (raised e) = raised e
cons_candidate (returned candidate) (returned rest) = returned (candidate ∷ rest)

-- `_candidates`, from a position on.
unfoldable pub candidates : ℕ → List ScoredRow → Outcome Error (List Candidate)
unfolding by_tier cons_candidate
candidates position [] = returned []
candidates position (row ∷ rows) =
    cons_candidate (by_tier position row (access_tier_of row.chunk.access_tier))
      (candidates (suc position) rows)

abbrev pub from_outcome : {A : Type 0} → Outcome Error A → Action A
from_outcome (returned a) = pure a
from_outcome (raised e) = raise e

-- The driver errors that the `except` clauses of `search_hybrid` translate.
unfoldable pub translated : Error → Error
translated postgres_error = retrieval_unavailable
translated os_error = retrieval_unavailable
translated e = e

-- The pool query is guarded against a `PostgresError` only.
unfoldable pub translated_pool : Error → Error
translated_pool postgres_error = retrieval_unavailable
translated_pool e = e

-- The members of the set of `ids`, in some order.
unfoldable pub set_of : List Text → List Text
set_of [] = []
set_of (id ∷ ids) = let rest = set_of ids in if elem id ids then rest else id ∷ rest

unfoldable pub minus : List Text → List Text → List Text
minus [] selected = []
minus (id ∷ ids) selected =
    let rest = minus ids selected in if elem id selected then rest else id ∷ rest

abbrev pub ids_of : List Candidate → List Text
ids_of = map (λ candidate. candidate.chunk_id)

-- `sorted(reached_fusion - selected)`
unfoldable pub dropped_of : List Candidate → List Candidate → List Candidate → List Text
unfolding set_of minus
dropped_of dense_arm sparse_arm fused =
    sort text_leb (minus (set_of (ids_of dense_arm ++ ids_of sparse_arm)) (ids_of fused))

unfoldable pub result_of :
    RetrievalRequest
    → AccessConstraint
    → StageEvidence
    → List Candidate
    → List Candidate
    → List Candidate
    → RetrievalResult
unfolding dropped_of
result_of request constraint evidence dense_arm sparse_arm fused = record {
  query_id = request.query_id;
  results = fused;
  stages =
      evidence
      ∷ record { stage = dense; admitted = ids_of dense_arm; dropped = [] }
      ∷ record { stage = sparse; admitted = ids_of sparse_arm; dropped = [] }
      ∷ record {
        stage = fusion;
        admitted = ids_of fused;
        dropped = dropped_of dense_arm sparse_arm fused;
      }
      ∷ [];
  authorization_enforced = restricts constraint;
}

pool_evidence : Outcome Error (List ChunkRow) → Action StageEvidence
unfolding translated_pool
pool_evidence (raised e) = raise (translated_pool e)
pool_evidence (returned rs) =
    pure (record { stage = authorization; admitted = map (λ row. row.chunk_id) rs; dropped = [] })

-- `_authorization_evidence`
unfoldable pub authorization_evidence : RetrievalRequest → AccessConstraint → Action StageEvidence
unfolding pool_evidence
authorization_evidence request constraint =
    if not request.explain
    then pure (record { stage = authorization; admitted = []; dropped = [] })
    else do
      rs ← attempt (
          call
            (select_pool (constraint_clause constraint 1).conditions
              (map texts (constraint_clause constraint 1).parameters))
            rows_or_raise)
      pool_evidence rs

-- `vector_of` stands for `format_vector(embed(text))`.
module _ (vector_of : Text → Text) (candidate_pool : ℕ) where
  unfoldable pub dense_arm_of : RetrievalRequest → Clause → Action (List Candidate)
  unfolding candidates
  dense_arm_of request clause = do
    rs ←
        call
          (select_dense clause.conditions
            (scalar (vector_of request.text) ∷ map texts clause.parameters) candidate_pool)
          rows_or_raise
    from_outcome (candidates 1 rs)

  unfoldable pub sparse_arm_of : RetrievalRequest → Clause → Action (List Candidate)
  unfolding candidates
  sparse_arm_of request clause = do
    rs ←
        call
          (select_sparse clause.conditions (scalar request.text ∷ map texts clause.parameters)
            candidate_pool)
          rows_or_raise
    from_outcome (candidates 1 rs)

  unfoldable pub arms : RetrievalRequest → Clause → Action (List Candidate × List Candidate)
  unfolding dense_arm_of sparse_arm_of
  arms request clause = do
    dense_arm ← dense_arm_of request clause
    sparse_arm ← sparse_arm_of request clause
    pure (dense_arm, sparse_arm)

  unfoldable pub after_fusion :
      RetrievalRequest
      → AccessConstraint
      → StageEvidence
      → List Candidate
      → List Candidate
      → Outcome Error (List Candidate)
      → Action RetrievalResult
  unfolding result_of
  after_fusion request constraint evidence dense_arm sparse_arm (raised e) = raise e
  after_fusion request constraint evidence dense_arm sparse_arm (returned fused) =
      pure (result_of request constraint evidence dense_arm sparse_arm fused)

  unfoldable pub after_arms :
      RetrievalRequest
      → AccessConstraint
      → StageEvidence
      → Outcome Error (List Candidate × List Candidate)
      → Action RetrievalResult
  unfolding translated after_fusion
  after_arms request constraint evidence (raised e) = raise (translated e)
  after_arms request constraint evidence (returned (dense_arm, sparse_arm)) =
      after_fusion request constraint evidence dense_arm sparse_arm
        (fuse request.dense_weight request.top_k dense_arm sparse_arm)

  unfoldable pub search_constrained : RetrievalRequest → AccessConstraint → Action RetrievalResult
  unfolding authorization_evidence arms after_arms
  search_constrained request constraint = do
    evidence ← authorization_evidence request constraint
    found ← attempt (arms request (constraint_clause constraint 2))
    after_arms request constraint evidence found

  unfoldable pub search_hybrid : Provider → RetrievalRequest → Action RetrievalResult
  unfolding search_constrained
  search_hybrid provider request = do
    constraint ← or_raise validation_error (provider request.authorization)
    search_constrained request constraint
