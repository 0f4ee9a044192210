-- ===== src/Retrieval/Search/Arms.antt =====
-- The two arms of `search_hybrid` return what the caller may read.
use ai_system_engineering_cu.Base.{ℕ, ◌≡◌, refl, ◌∷◌, map, Text, text_eq, All}
use ai_system_engineering_cu.Effects.{call, Outcome, returned, raised}
use ai_system_engineering_cu.Effects.Interference.{
  Ensures, Ensures-pure, Ensures-raise, Ensures-call, Ensures-bind,
}
use ai_system_engineering_cu.Domain.Access.{
  AccessTier, AuthorizationContext, AccessConstraint, readable,
}
use ai_system_engineering_cu.Domain.Search.{RetrievalRequest}
use ai_system_engineering_cu.Retrieval.Policy.{admits}
use ai_system_engineering_cu.Retrieval.Clause.{constraint_clause, texts, scalar}
use ai_system_engineering_cu.Retrieval.Calls.{
  Error, ChunkRow, ScoredRow, Fetched, rows, rejected, unreachable, unusable, Action, Performs,
  IsArm, select_dense, select_sparse, rows_or_raise,
}
use ai_system_engineering_cu.Retrieval.Search.{from_outcome, dense_arm_of, sparse_arm_of, arms}
use ai_system_engineering_cu.Retrieval.Search.Readable.{IsReadable, IsRow, candidates-IsReadable}

module _ (Stored : ChunkRow → Type 0) (scope : AuthorizationContext) where
  module _ (constraint : AccessConstraint)
      (scoped : (tenant : Text) (tier : AccessTier)
        → admits constraint tenant tier ≡ readable scope tenant tier) where
    -- Whatever the database answers, what `m` returns satisfies `Q`.
    abbrev pub Gives : {A : Type 0} → (A → Type 0) → Action A → Unit {0} → Type 0
    Gives Q m s = Ensures (Performs Stored) (λ _ _. Unit {0}) (λ _ _. Unit {0}) (λ a _. Q a) m s

    from_outcome-Gives :
        {A : Type 0} (Q : A → Type 0) (o : Outcome Error A) (s : Unit {0})
        → ((a : A) → o ≡ returned a → Q a)
        → Gives Q (from_outcome o) s
    from_outcome-Gives Q (returned a) s h = Ensures-pure _ _ _ _ a s (h a refl)
    from_outcome-Gives Q (raised e) s h = Ensures-raise _ _ _ _ e s

    arm-Gives :
        (v : Text) (n : ℕ) (a : Fetched ScoredRow) (s : Unit {0})
        → IsArm Stored
            (constraint_clause constraint 2).conditions
            (scalar v ∷ map texts (constraint_clause constraint 2).parameters)
            n
            a
        → Gives (All (λ r. (IsRow Stored scope constraint scoped) r v)) (rows_or_raise a) s
    unfolding IsRow
    arm-Gives v n (rows rs) s h = Ensures-pure _ _ _ _ rs s h.0
    arm-Gives v n rejected s h = Ensures-raise _ _ _ _ _ s
    arm-Gives v n unreachable s h = Ensures-raise _ _ _ _ _ s
    arm-Gives v n unusable s h = Ensures-raise _ _ _ _ _ s

    module _ (vector_of : Text → Text) (candidate_pool : ℕ) (request : RetrievalRequest) where
      dense_arm_of-Gives :
          (s : Unit {0})
          → Gives
              (All (IsReadable Stored scope))
              (dense_arm_of vector_of candidate_pool request (constraint_clause constraint 2))
              s
      unfolding dense_arm_of
      dense_arm_of-Gives s =
          Ensures-bind _ _ _ _ _ (call (select_dense _ _ _) rows_or_raise) _ s
            (Ensures-call _ _ _ _ _ _ s (λ _ _. tt)
              (λ t r a t' p. arm-Gives (vector_of request.text) candidate_pool a t' p))
            (λ rs t h.
              from_outcome-Gives _ _ t
                (λ cs. (candidates-IsReadable Stored scope constraint scoped) _ 1 rs cs h))

      sparse_arm_of-Gives :
          (s : Unit {0})
          → Gives
              (All (IsReadable Stored scope))
              (sparse_arm_of vector_of candidate_pool request (constraint_clause constraint 2))
              s
      unfolding sparse_arm_of
      sparse_arm_of-Gives s =
          Ensures-bind _ _ _ _ _ (call (select_sparse _ _ _) rows_or_raise) _ s
            (Ensures-call _ _ _ _ _ _ s (λ _ _. tt)
              (λ t r a t' p. arm-Gives request.text candidate_pool a t' p))
            (λ rs t h.
              from_outcome-Gives _ _ t
                (λ cs. (candidates-IsReadable Stored scope constraint scoped) _ 1 rs cs h))

      pub arms-Gives :
          (s : Unit {0})
          → Gives
              (λ both. All (IsReadable Stored scope) both.0 × All (IsReadable Stored scope) both.1)
              (arms vector_of candidate_pool request (constraint_clause constraint 2))
              s
      unfolding arms
      arms-Gives s =
          Ensures-bind _ _ _ _ _
            (dense_arm_of vector_of candidate_pool request (constraint_clause constraint 2)) _ s
            (dense_arm_of-Gives s)
            (λ d t hd.
              Ensures-bind _ _ _ _ _
                (sparse_arm_of vector_of candidate_pool request (constraint_clause constraint 2)) _
                t (sparse_arm_of-Gives t) (λ e u he. Ensures-pure _ _ _ _ (d, e) u (hd, he)))
