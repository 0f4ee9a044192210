-- ===== src/Retrieval/Search/Errors.antt =====
-- The errors that leave `search_hybrid`.
use ai_system_engineering_cu.Base.{
  ◌⊎◌, inl, inr, ◌≡◌, refl, Bool, true, false, not, Bool-cases, Option, none, some, List, [], ◌∷◌,
  Text, ℕ, suc,
}
use ai_system_engineering_cu.Effects.{Outcome, returned, raised, call, or_raise}
use ai_system_engineering_cu.Effects.Failure.{
  FailsAs, FailsAs-pure, FailsAs-raise, FailsAs-if, FailsAs-or_raise, FailsAs-bind, FailsAs-call,
  FailsAs-weaken, OfRaised, FailsAs-try,
}
use ai_system_engineering_cu.Domain.Access.{
  AccessConstraint, Provider, AccessLabel, AccessTier, access_tier_of,
}
use ai_system_engineering_cu.Domain.Search.{
  RetrievalRequest, StageEvidence, Candidate, is_candidate,
}
use ai_system_engineering_cu.Retrieval.Calls.{
  Error, value_error, validation_error, retrieval_unavailable, postgres_error, os_error,
  interface_error, rows_or_raise, select_pool, select_dense, select_sparse, ChunkRow, ScoredRow,
  Fetched, rows, rejected, unreachable, unusable, Call, Answer,
}
use ai_system_engineering_cu.Retrieval.Clause.{Clause, constraint_clause}
use ai_system_engineering_cu.Retrieval.Fusion.Ranking.{fuse_raises}
use ai_system_engineering_cu.Retrieval.Search.{
  checked_candidate, labelled, by_tier, cons_candidate, candidates, from_outcome, dense_arm_of,
  sparse_arm_of, translated, translated_pool, pool_evidence, authorization_evidence, arms,
  after_fusion, after_arms, search_constrained, search_hybrid,
}

-- A ValueError, or the ValidationError that is one.
abbrev pub IsValueError : Error → Type 0
IsValueError e = (e ≡ value_error) ⊎ (e ≡ validation_error)

-- An error of the driver.
abbrev pub IsDriver : Error → Type 0
IsDriver e = (e ≡ postgres_error) ⊎ (e ≡ os_error) ⊎ (e ≡ interface_error)

-- The error of the port, an InterfaceError, a ValueError, and an OSError only of a request that
-- asks to explain.
abbrev pub MayLeave : RetrievalRequest → Error → Type 0
MayLeave request e =
    (e ≡ retrieval_unavailable)
    ⊎ (e ≡ interface_error)
    ⊎ IsValueError e
    ⊎ ((e ≡ os_error) × (request.explain ≡ true))

rows_or_raise-FailsAs : {A : Type 0} (a : Fetched A) → FailsAs IsDriver (rows_or_raise a)
rows_or_raise-FailsAs (rows rs) = FailsAs-pure _ rs
rows_or_raise-FailsAs rejected = FailsAs-raise _ _ (inl refl)
rows_or_raise-FailsAs unreachable = FailsAs-raise _ _ (inr (inl refl))
rows_or_raise-FailsAs unusable = FailsAs-raise _ _ (inr (inr refl))

checked_candidate-Errors :
    (candidate : Candidate) → OfRaised IsValueError (checked_candidate candidate)
unfolding checked_candidate
checked_candidate-Errors candidate = elim (Bool-cases (is_candidate candidate)) [
  | inl valid ↦ rw valid tt
  | inr other ↦ rw other (inr refl)
]

labelled-Errors :
    (position : ℕ) (row : ScoredRow) (o : Option AccessLabel)
    → OfRaised IsValueError (labelled position row o)
unfolding labelled
labelled-Errors position row none = inr refl
labelled-Errors position row (some access) = checked_candidate-Errors _

by_tier-Errors :
    (position : ℕ) (row : ScoredRow) (o : Option AccessTier)
    → OfRaised IsValueError (by_tier position row o)
unfolding by_tier
by_tier-Errors position row none = inl refl
by_tier-Errors position row (some tier) = labelled-Errors position row _

cons_candidate-Errors :
    (o : Outcome Error Candidate) (rest : Outcome Error (List Candidate))
    → OfRaised IsValueError o
    → OfRaised IsValueError rest
    → OfRaised IsValueError (cons_candidate o rest)
unfolding cons_candidate
cons_candidate-Errors (raised e) rest h k = h
cons_candidate-Errors (returned candidate) (raised e) h k = k
cons_candidate-Errors (returned candidate) (returned rest) h k = tt

candidates-Errors :
    (position : ℕ) (rs : List ScoredRow) → OfRaised IsValueError (candidates position rs)
unfolding candidates
candidates-Errors position [] = tt
candidates-Errors position (row ∷ rs) =
    cons_candidate-Errors _ _ (by_tier-Errors position row (access_tier_of row.chunk.access_tier))
      (candidates-Errors (suc position) rs)

-- What an arm raises.
abbrev IsArmError : Error → Type 0
IsArmError e = IsDriver e ⊎ IsValueError e

from_outcome-FailsAs :
    {A : Type 0} (o : Outcome Error A)
    → OfRaised IsValueError o
    → FailsAs {C = Call} {Answer = Answer} IsArmError (from_outcome o)
from_outcome-FailsAs (returned a) h = FailsAs-pure _ a
from_outcome-FailsAs (raised e) h = FailsAs-raise _ e (inr h)

selected-FailsAs : {A : Type 0} (a : Fetched A) → FailsAs IsArmError (rows_or_raise a)
selected-FailsAs a =
    FailsAs-weaken IsDriver IsArmError (λ e h. inl h) (rows_or_raise a) (rows_or_raise-FailsAs a)

module _ (vector_of : Text → Text) (candidate_pool : ℕ) (request : RetrievalRequest) where
  dense_arm_of-FailsAs :
      (clause : Clause) → FailsAs IsArmError (dense_arm_of vector_of candidate_pool request clause)
  unfolding dense_arm_of
  dense_arm_of-FailsAs clause =
      FailsAs-bind _ (call (select_dense _ _ _) rows_or_raise) _
        (FailsAs-call _ (select_dense _ _ _) rows_or_raise selected-FailsAs)
        (λ rs. from_outcome-FailsAs _ (candidates-Errors 1 rs))

  sparse_arm_of-FailsAs :
      (clause : Clause) → FailsAs IsArmError (sparse_arm_of vector_of candidate_pool request clause)
  unfolding sparse_arm_of
  sparse_arm_of-FailsAs clause =
      FailsAs-bind _ (call (select_sparse _ _ _) rows_or_raise) _
        (FailsAs-call _ (select_sparse _ _ _) rows_or_raise selected-FailsAs)
        (λ rs. from_outcome-FailsAs _ (candidates-Errors 1 rs))

  arms-FailsAs :
      (clause : Clause) → FailsAs IsArmError (arms vector_of candidate_pool request clause)
  unfolding arms
  arms-FailsAs clause =
      FailsAs-bind _ (dense_arm_of vector_of candidate_pool request clause) _
        (dense_arm_of-FailsAs clause)
        (λ d.
          FailsAs-bind _ (sparse_arm_of vector_of candidate_pool request clause) _
            (sparse_arm_of-FailsAs clause) (λ s. FailsAs-pure _ (d, s)))

module _ (request : RetrievalRequest) where
  translated-MayLeave : (e : Error) → IsArmError e → MayLeave request (translated e)
  unfolding translated
  translated-MayLeave e (inl (inl h)) = rw h (inl refl)
  translated-MayLeave e (inl (inr (inl h))) = rw h (inl refl)
  translated-MayLeave e (inl (inr (inr h))) = rw h (inr (inl refl))
  translated-MayLeave e (inr (inl h)) = rw h (inr (inr (inl (inl refl))))
  translated-MayLeave e (inr (inr h)) = rw h (inr (inr (inl (inr refl))))

  translated_pool-MayLeave :
      (e : Error) → IsDriver e → request.explain ≡ true → MayLeave request (translated_pool e)
  unfolding translated_pool
  translated_pool-MayLeave e (inl h) asked = rw h (inl refl)
  translated_pool-MayLeave e (inr (inl h)) asked = rw h (inr (inr (inr (refl, asked))))
  translated_pool-MayLeave e (inr (inr h)) asked = rw h (inr (inl refl))

  pool_evidence-FailsAs :
      (o : Outcome Error (List ChunkRow))
      → OfRaised IsDriver o
      → request.explain ≡ true
      → FailsAs (MayLeave request) (pool_evidence o)
  unfolding pool_evidence
  pool_evidence-FailsAs (raised e) h asked = FailsAs-raise _ _ (translated_pool-MayLeave e h asked)
  pool_evidence-FailsAs (returned rs) h asked = FailsAs-pure _ _

  asked_of : (b : Bool) → not b ≡ false → b ≡ true
  asked_of true h = refl
  asked_of false h = cc

  authorization_evidence-FailsAs :
      (constraint : AccessConstraint)
      → FailsAs (MayLeave request) (authorization_evidence request constraint)
  unfolding authorization_evidence
  authorization_evidence-FailsAs constraint =
      FailsAs-if _ (not request.explain) _ _ (λ h. FailsAs-pure _ _)
        (λ h.
          FailsAs-try IsDriver (MayLeave request) pool_evidence
            (λ o k. pool_evidence-FailsAs o k (asked_of request.explain h))
            (call (select_pool _ _) rows_or_raise)
            (FailsAs-call _ (select_pool _ _) rows_or_raise rows_or_raise-FailsAs))

  module _ (vector_of : Text → Text) (candidate_pool : ℕ) where
    after_fusion-FailsAs :
        (constraint : AccessConstraint) (evidence : StageEvidence) (d s : List Candidate)
        (o : Outcome Error (List Candidate))
        → ((e : Error) → o ≡ raised e → MayLeave request e)
        → FailsAs
            (MayLeave request)
            (after_fusion vector_of candidate_pool request constraint evidence d s o)
    unfolding after_fusion
    after_fusion-FailsAs constraint evidence d s (raised e) h = FailsAs-raise _ e (h e refl)
    after_fusion-FailsAs constraint evidence d s (returned fused) h = FailsAs-pure _ _

    after_arms-FailsAs :
        (constraint : AccessConstraint) (evidence : StageEvidence)
        (o : Outcome Error (List Candidate × List Candidate))
        → OfRaised IsArmError o
        → FailsAs
            (MayLeave request)
            (after_arms vector_of candidate_pool request constraint evidence o)
    unfolding after_arms
    after_arms-FailsAs constraint evidence (raised e) h =
        FailsAs-raise _ _ (translated-MayLeave e h)
    after_arms-FailsAs constraint evidence (returned (d, s)) k =
        after_fusion-FailsAs constraint evidence d s _
          (λ e h. inr (inr (inl (inl (fuse_raises request.dense_weight request.top_k d s e h)))))

    search_constrained-FailsAs :
        (constraint : AccessConstraint)
        → FailsAs
            (MayLeave request)
            (search_constrained vector_of candidate_pool request constraint)
    unfolding search_constrained
    search_constrained-FailsAs constraint =
        FailsAs-bind _ (authorization_evidence request constraint) _
          (authorization_evidence-FailsAs constraint)
          (λ evidence.
            FailsAs-try IsArmError (MayLeave request)
              (after_arms vector_of candidate_pool request constraint evidence)
              (after_arms-FailsAs constraint evidence)
              (arms vector_of candidate_pool request (constraint_clause constraint 2))
              (arms-FailsAs vector_of candidate_pool request (constraint_clause constraint 2)))

    -- Whatever the policy and the answers of the database are: no PostgresError leaves
    -- search_hybrid, and an OSError leaves it only when the request asks to explain. What leaves
    -- it besides is a RetrievalUnavailable, an InterfaceError of the driver or a ValueError.
    pub search_hybrid-FailsAs :
        (provider : Provider)
        → FailsAs (MayLeave request) (search_hybrid vector_of candidate_pool provider request)
    unfolding search_hybrid
    search_hybrid-FailsAs provider =
        FailsAs-bind _ (or_raise validation_error (provider request.authorization)) _
          (FailsAs-or_raise _ validation_error _ (inr (inr (inl (inr refl)))))
          search_constrained-FailsAs
