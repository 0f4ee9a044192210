-- ===== src/Retrieval/Search/Scope.antt =====
-- What `search_hybrid` may show a caller.
use ai_system_engineering_cu.Base.{
  ℕ, ◌≡◌, refl, sym, ◌∙◌, subst, true, List, [], map, not, Text, text_eq, All, All-map, All-of_map,
  Double, nan, minus_infinity, finite, plus_infinity, pos, negsuc,
}
use ai_system_engineering_cu.Effects.{call, Outcome, returned, raised, attempt}
use ai_system_engineering_cu.Effects.Interference.{
  Ensures, OfReturned, Ensures-pure, Ensures-raise, Ensures-call, Ensures-attempt, Ensures-bind,
  Ensures-if,
}
use ai_system_engineering_cu.Domain.Access.{
  AccessTier, standard, restricted, tier_value, access_tier_of, access_label, AuthorizationContext,
  AccessLabel, AccessConstraint, Provider, readable,
}
use ai_system_engineering_cu.Domain.Search.{RetrievalRequest, Candidate, StageEvidence}
use ai_system_engineering_cu.Domain.Validation.{is_slug}
use ai_system_engineering_cu.Retrieval.Policy.{admits, constrain, tenant_boundary}
use ai_system_engineering_cu.Domain.Access as Access
use ai_system_engineering_cu.Retrieval.Policy.Readable.{constrain-readable}
use ai_system_engineering_cu.Retrieval.Clause.{matches, constraint_clause, texts}
use ai_system_engineering_cu.Retrieval.Clause.Matching.{constraint_clause-matches}
use ai_system_engineering_cu.Retrieval.Calls.{
  Error, ChunkRow, Fetched, rows, rejected, unreachable, unusable, Performs, IsPool, select_pool,
  IsSelected, rows_or_raise,
}
use ai_system_engineering_cu.Retrieval.Fusion.{fuse}
use ai_system_engineering_cu.Retrieval.Fusion.Ranking.{fuse_satisfies}
use ai_system_engineering_cu.Retrieval.Search.{
  result_of, authorization_evidence, pool_evidence, arms, after_fusion, after_arms,
  search_constrained, search_hybrid,
}
use ai_system_engineering_cu.Retrieval.Search.Readable.{
  IsReadableId, IsReadable, IsScopedEvidence, IsScoped, ids_of-IsReadableId,
  dropped_of-IsReadableId, place-IsReadable,
}
use ai_system_engineering_cu.Retrieval.Search.Arms.{Gives, arms-Gives}

module _ (Stored : ChunkRow → Type 0) (scope : AuthorizationContext) where
  module _ (constraint : AccessConstraint)
      (scoped : (tenant : Text) (tier : AccessTier)
        → admits constraint tenant tier ≡ readable scope tenant tier) where
    module _ (vector_of : Text → Text) (candidate_pool : ℕ) (request : RetrievalRequest) where
      fuse-IsReadable :
          (weight : Double) (limit : ℕ) (d s results : List Candidate)
          → All (IsReadable Stored scope) d
          → All (IsReadable Stored scope) s
          → fuse weight limit d s ≡ returned results
          → All (IsReadable Stored scope) results
      unfolding fuse
      fuse-IsReadable (finite (pos w)) limit d s results hd hs h =
          fuse_satisfies w d s (IsReadable Stored scope) (place-IsReadable Stored scope) limit
            results hd hs h
      fuse-IsReadable (finite (negsuc w)) limit d s results hd hs h = absurd cc
      fuse-IsReadable nan limit d s results hd hs h = absurd cc
      fuse-IsReadable minus_infinity limit d s results hd hs h = absurd cc
      fuse-IsReadable plus_infinity limit d s results hd hs h = absurd cc

      after_fusion-Gives :
          (evidence : StageEvidence) (d e : List Candidate) (o : Outcome Error (List Candidate))
          (s : Unit {0})
          → (IsScopedEvidence Stored scope) evidence
          → All (IsReadable Stored scope) d
          → All (IsReadable Stored scope) e
          → ((results : List Candidate)
              → o ≡ returned results
              → All (IsReadable Stored scope) results)
          → (Gives Stored scope constraint scoped)
              (IsScoped Stored scope)
              (after_fusion vector_of candidate_pool request constraint evidence d e o)
              s
      unfolding after_fusion result_of
      after_fusion-Gives evidence d e (raised x) s hv hd he f = Ensures-raise _ _ _ _ x s
      after_fusion-Gives evidence d e (returned fused) s hv hd he f = Ensures-pure _ _ _ _ _ s (
        f fused refl,
        (
          hv,
          (
            ((ids_of-IsReadableId Stored scope) d hd, tt),
            (
              ((ids_of-IsReadableId Stored scope) e he, tt),
              (
                (
                  (ids_of-IsReadableId Stored scope) fused (f fused refl),
                  (dropped_of-IsReadableId Stored scope) d e fused hd he,
                ),
                tt,
              ),
            ),
          ),
        ),
      )

      after_arms-Gives :
          (evidence : StageEvidence) (o : Outcome Error (List Candidate × List Candidate))
          (s : Unit {0})
          → (IsScopedEvidence Stored scope) evidence
          → OfReturned
              (Performs Stored)
              (λ _ _. Unit {0})
              (λ _ _. Unit {0})
              (λ both _.
                All (IsReadable Stored scope) both.0 × All (IsReadable Stored scope) both.1)
              o
              s
          → (Gives Stored scope constraint scoped)
              (IsScoped Stored scope)
              (after_arms vector_of candidate_pool request constraint evidence o)
              s
      unfolding after_arms
      after_arms-Gives evidence (raised x) s hv h = Ensures-raise _ _ _ _ _ s
      after_arms-Gives evidence (returned (d, e)) s hv h =
          after_fusion-Gives evidence d e _ s hv h.0 h.1
            (λ results. fuse-IsReadable request.dense_weight request.top_k d e results h.0 h.1)

      -- The schema admits the values of tiers only.
      module _
          (checked : (row : ChunkRow)
            → Stored row
            → (tier : AccessTier) × (row.access_tier ≡ tier_value tier)) where
        pool_row :
            (row : ChunkRow)
            → IsSelected Stored
                (constraint_clause constraint 1).conditions
                (map texts (constraint_clause constraint 1).parameters)
                row
            → (IsReadableId Stored scope) row.chunk_id
        pool_row row h =
            let (tier, e) = checked row h.0 in
            record {
              row = row;
              stored = h.0;
              same_id = refl;
              tier = tier;
              same_tier = e;
              allowed =
                  sym (scoped row.tenant_id tier)
                  ∙ sym (constraint_clause-matches constraint [] row.tenant_id tier)
                  ∙ subst
                      (λ t.
                        matches (map texts (constraint_clause constraint 1).parameters)
                          row.tenant_id t (constraint_clause constraint 1).conditions
                        ≡ true)
                      e h.1;
            }

        pool-Gives :
            (a : Fetched ChunkRow) (s : Unit {0})
            → IsPool Stored
                (constraint_clause constraint 1).conditions
                (map texts (constraint_clause constraint 1).parameters)
                a
            → (Gives Stored scope constraint scoped)
                (λ rs. All (λ row. (IsReadableId Stored scope) row.chunk_id) rs)
                (rows_or_raise a)
                s
        pool-Gives (rows rs) s h = Ensures-pure _ _ _ _ rs s (All-map _ _ rs pool_row h)
        pool-Gives rejected s h = Ensures-raise _ _ _ _ _ s
        pool-Gives unreachable s h = Ensures-raise _ _ _ _ _ s
        pool-Gives unusable s h = Ensures-raise _ _ _ _ _ s

        pool_evidence-Gives :
            (o : Outcome Error (List ChunkRow)) (s : Unit {0})
            → OfReturned
                (Performs Stored)
                (λ _ _. Unit {0})
                (λ _ _. Unit {0})
                (λ rs _. All (λ row. (IsReadableId Stored scope) row.chunk_id) rs)
                o
                s
            → (Gives Stored scope constraint scoped)
                (IsScopedEvidence Stored scope)
                (pool_evidence o)
                s
        unfolding pool_evidence
        pool_evidence-Gives (raised x) s h = Ensures-raise _ _ _ _ _ s
        pool_evidence-Gives (returned rs) s h = Ensures-pure _ _ _ _ _ s (All-of_map _ _ rs h, tt)

        authorization_evidence-Gives :
            (s : Unit {0})
            → (Gives Stored scope constraint scoped)
                (IsScopedEvidence Stored scope)
                (authorization_evidence request constraint)
                s
        unfolding authorization_evidence
        authorization_evidence-Gives s =
            Ensures-if _ _ _ _ (not request.explain) _ _ s (Ensures-pure _ _ _ _ _ s (tt, tt)) (
              Ensures-bind _ _ _ _ _ (attempt (call (select_pool _ _) rows_or_raise)) _ s
                (Ensures-attempt _ _ _ _ (call (select_pool _ _) rows_or_raise) s
                  (Ensures-call _ _ _ _ _ _ s (λ _ _. tt) (λ t r a t' p. pool-Gives a t' p)))
                (λ o t h. pool_evidence-Gives o t h))

        search_constrained-IsScoped :
            (s : Unit {0})
            → (Gives Stored scope constraint scoped)
                (IsScoped Stored scope)
                (search_constrained vector_of candidate_pool request constraint)
                s
        unfolding search_constrained
        search_constrained-IsScoped s =
            Ensures-bind _ _ _ _ _ (authorization_evidence request constraint) _ s
              (authorization_evidence-Gives s)
              (λ evidence t hv.
                Ensures-bind _ _ _ _ _
                  (attempt (arms vector_of candidate_pool request (constraint_clause constraint 2)))
                  _ t
                  (Ensures-attempt _ _ _ _
                    (arms vector_of candidate_pool request (constraint_clause constraint 2)) t
                    (arms-Gives Stored scope constraint scoped vector_of candidate_pool request t))
                  (λ o u h. after_arms-Gives evidence o u hv h))

-- For a caller with a valid tenant identifier, the composed policy in front of the retriever, and
-- a table that holds the values of tiers only: whatever it holds at each query and whatever the
-- queries answer, when search_hybrid returns a result, each candidate in it is a stored chunk that
-- readable lets the caller read, with the text and the label of that chunk, and each identifier in
-- the evidence of the stages is one of such a chunk.
pub search_hybrid-IsScoped :
    (Stored : ChunkRow → Type 0)
    → ((row : ChunkRow) → Stored row → (tier : AccessTier) × (row.access_tier ≡ tier_value tier))
    → (vector_of : Text → Text) (candidate_pool : ℕ) (request : RetrievalRequest)
    → is_slug 80 request.authorization.tenant_id ≡ true
    → Ensures
        (Performs Stored)
        (λ _ _. Unit {0})
        (λ _ _. Unit {0})
        (λ result _. IsScoped Stored request.authorization result)
        (search_hybrid vector_of candidate_pool
          (constrain Access.tenant_boundary tenant_boundary)
          request)
        tt
unfolding search_hybrid
search_hybrid-IsScoped Stored checked vector_of candidate_pool request named =
    let (constraint, made, scoped) = constrain-readable request.authorization named in
    rw made (
      search_constrained-IsScoped Stored request.authorization constraint scoped vector_of
        candidate_pool request checked tt)
