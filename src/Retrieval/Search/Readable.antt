-- ===== src/Retrieval/Search/Readable.antt =====
-- The candidates that `_candidates` makes of selected rows.
use ai_system_engineering_cu.Base.{
  ℕ, suc, ◌≡◌, ◌≢◌, refl, sym, ◌∙◌, subst, inl, inr, true, Option, none, some, List, [], ◌∷◌, map,
  Text, Bool-cases, some_eq, elem, text_eq, text_beq_iff, literal, All, All-map, All-append,
  All-of_map, All-sort, text_leb, arith,
}
use ai_system_engineering_cu.Effects.{Outcome, returned, raised}
use ai_system_engineering_cu.Domain.Access.{
  AccessTier, standard, restricted, tier_value, access_tier_of, access_label, AuthorizationContext,
  AccessLabel, AccessConstraint, readable,
}
use ai_system_engineering_cu.Domain.Search.{Candidate, StageEvidence, RetrievalResult, is_candidate}
use ai_system_engineering_cu.Domain.Validation.{is_slug}
use ai_system_engineering_cu.Retrieval.Policy.{admits}
use ai_system_engineering_cu.Retrieval.Clause.{matches, constraint_clause, texts, scalar}
use ai_system_engineering_cu.Retrieval.Clause.Matching.{constraint_clause-matches}
use ai_system_engineering_cu.Retrieval.Calls.{Error, ChunkRow, ScoredRow, IsSelected}
use ai_system_engineering_cu.Retrieval.Fusion.{place}
use ai_system_engineering_cu.Retrieval.Fusion.Ranking.{returned_eq}
use ai_system_engineering_cu.Retrieval.Search.{
  candidates, checked_candidate, labelled, by_tier, cons_candidate, set_of, minus, ids_of,
  dropped_of,
}

-- A stored text that names a tier is the value of that tier.
access_tier_of-value :
    (value : Text) (tier : AccessTier) → access_tier_of value ≡ some tier → value ≡ tier_value tier
unfolding access_tier_of
access_tier_of-value value standard h =
    ground
      (arith, text_beq_iff value (literal "standard"), text_beq_iff value (literal "restricted"))
access_tier_of-value value restricted h =
    ground
      (arith, text_beq_iff value (literal "standard"), text_beq_iff value (literal "restricted"))

none≢some : {a : AccessLabel} → none ≢ some a
none≢some h = cc

access_label-fields :
    (tenant : Text) (tier : AccessTier) (access : AccessLabel)
    → access_label tenant tier ≡ some access
    → record { tenant_id = tenant; access_tier = tier } ≡ access
unfolding access_label
access_label-fields tenant tier access h = elim (Bool-cases (is_slug 80 tenant)) [
  | inl named ↦ some_eq (rw named at h)
  | inr bad ↦ absurd (none≢some (rw bad at h))
]

returned_one :
    {a b : Candidate} {x : Outcome Error Candidate} → x ≡ returned a → x ≡ returned b → a ≡ b
returned_one h k = cc

raised≢one :
    {e : Error} {a : Candidate} {x : Outcome Error Candidate} → x ≡ raised e → x ≢ returned a
raised≢one h k = cc

checked_candidate-same : (x c : Candidate) → checked_candidate x ≡ returned c → x ≡ c
unfolding checked_candidate
checked_candidate-same x c h = elim (Bool-cases (is_candidate x)) [
  | inl fine ↦ returned_one refl (rw fine at h)
  | inr bad ↦ absurd (raised≢one refl (rw bad at h))
]

All-minus : (P : Text → Type 0) (ids selected : List Text) → All P ids → All P (minus ids selected)
unfolding minus
All-minus P [] selected h = tt
All-minus P (id ∷ ids) selected h = elim (Bool-cases (elem id selected)) [
  | inl out ↦ rw out (All-minus P ids selected h.1)
  | inr kept ↦ rw kept (h.0, All-minus P ids selected h.1)
]

All-set_of : (P : Text → Type 0) (ids : List Text) → All P ids → All P (set_of ids)
unfolding set_of
All-set_of P [] h = tt
All-set_of P (id ∷ ids) h = elim (Bool-cases (elem id ids)) [
  | inl again ↦ rw again (All-set_of P ids h.1)
  | inr last ↦ rw last (h.0, All-set_of P ids h.1)
]

abbrev labelled_as : ℕ → ScoredRow → AccessLabel → Candidate
labelled_as n r access = record {
  chunk_id = r.chunk.chunk_id;
  document_id = r.chunk.document_id;
  rank = n;
  score = r.score;
  text = r.chunk.chunk_text;
  access = access;
  provenance_revision = r.chunk.provenance_revision;
}

-- `Stored` says which rows the table ever held.
module _ (Stored : ChunkRow → Type 0) (scope : AuthorizationContext) where
  -- The identifier of a stored chunk that the caller may read.
  pub record IsReadableId (id : Text) : Type 0 where
    pub row : ChunkRow
    pub stored : Stored row
    pub same_id : row.chunk_id ≡ id
    pub tier : AccessTier
    pub same_tier : row.access_tier ≡ tier_value tier
    pub allowed : readable scope row.tenant_id tier ≡ true

  -- A candidate with the content and the label of a stored chunk that the caller may read.
  pub record IsReadable (c : Candidate) : Type 0 where
    pub row : ChunkRow
    pub stored : Stored row
    pub same_id : row.chunk_id ≡ c.chunk_id
    pub same_text : row.chunk_text ≡ c.text
    pub same_tenant : row.tenant_id ≡ c.access.tenant_id
    pub same_tier : row.access_tier ≡ tier_value c.access.access_tier
    pub allowed : readable scope c.access.tenant_id c.access.access_tier ≡ true

  pub IsReadable-id : (c : Candidate) → IsReadable c → IsReadableId c.chunk_id
  IsReadable-id c h = record {
    row = h.row;
    stored = h.stored;
    same_id = h.same_id;
    tier = c.access.access_tier;
    same_tier = h.same_tier;
    allowed = rw h.same_tenant h.allowed;
  }

  abbrev pub IsScopedEvidence : StageEvidence → Type 0
  IsScopedEvidence evidence = All IsReadableId evidence.admitted × All IsReadableId evidence.dropped

  -- All that a result names or shows is stored content that the caller may read.
  abbrev pub IsScoped : RetrievalResult → Type 0
  IsScoped result = All IsReadable result.results × All IsScopedEvidence result.stages

  pub ids_of-IsReadableId : (cs : List Candidate) → All IsReadable cs → All IsReadableId (ids_of cs)
  ids_of-IsReadableId cs h = All-of_map _ _ cs (All-map _ _ cs IsReadable-id h)

  pub dropped_of-IsReadableId :
      (d s fused : List Candidate)
      → All IsReadable d
      → All IsReadable s
      → All IsReadableId (dropped_of d s fused)
  unfolding dropped_of
  dropped_of-IsReadableId d s fused hd hs = All-sort text_leb _ _ (
      All-minus _ _ (ids_of fused)
        (All-set_of _ _ (All-append _ _ _ (ids_of-IsReadableId d hd) (ids_of-IsReadableId s hs))))

  pub place-IsReadable : (n s : ℕ) (c : Candidate) → IsReadable c → IsReadable (place n s c)
  unfolding place
  place-IsReadable n s c h = record {
    row = h.row;
    stored = h.stored;
    same_id = h.same_id;
    same_text = h.same_text;
    same_tenant = h.same_tenant;
    same_tier = h.same_tier;
    allowed = h.allowed;
  }

  module _ (constraint : AccessConstraint)
      (scoped : (tenant : Text) (tier : AccessTier)
        → admits constraint tenant tier ≡ readable scope tenant tier) where
    -- A row of an arm.
    selected_allowed :
        (v : Text) (row : ChunkRow) (tier : AccessTier)
        → matches
            (scalar v ∷ map texts (constraint_clause constraint 2).parameters)
            row.tenant_id
            row.access_tier
            (constraint_clause constraint 2).conditions
          ≡ true
        → row.access_tier ≡ tier_value tier
        → readable scope row.tenant_id tier ≡ true
    selected_allowed v row tier h e =
        sym (scoped row.tenant_id tier)
        ∙ sym (constraint_clause-matches constraint (scalar v ∷ []) row.tenant_id tier)
        ∙ subst
            (λ t.
              matches (scalar v ∷ map texts (constraint_clause constraint 2).parameters)
                row.tenant_id t (constraint_clause constraint 2).conditions
              ≡ true)
            e h

    unfoldable pub IsRow : ScoredRow → Text → Type 0
    IsRow r v =
        IsSelected Stored (constraint_clause constraint 2).conditions
          (scalar v ∷ map texts (constraint_clause constraint 2).parameters) r.chunk

    -- What `_candidates` makes of one selected row.
    labelled-IsReadable :
        (v : Text) (n : ℕ) (r : ScoredRow) (tier : AccessTier) (o : Option AccessLabel)
        (c : Candidate)
        → IsRow r v
        → r.chunk.access_tier ≡ tier_value tier
        → access_label r.chunk.tenant_id tier ≡ o
        → labelled n r o ≡ returned c
        → IsReadable c
    unfolding labelled IsRow
    labelled-IsReadable v n r tier none c s e made h = absurd cc
    labelled-IsReadable v n r tier (some access) c s e made h =
        subst IsReadable (checked_candidate-same _ c h) (
          subst (λ a. IsReadable (labelled_as n r a)) (access_label-fields _ _ access made)
            (record {
              row = r.chunk;
              stored = s.0;
              same_id = refl;
              same_text = refl;
              same_tenant = refl;
              same_tier = e;
              allowed = selected_allowed v r.chunk tier s.1 e;
            }))

    by_tier-IsReadable :
        (v : Text) (n : ℕ) (r : ScoredRow) (o : Option AccessTier) (c : Candidate)
        → IsRow r v
        → access_tier_of r.chunk.access_tier ≡ o
        → by_tier n r o ≡ returned c
        → IsReadable c
    unfolding by_tier
    by_tier-IsReadable v n r none c s e h = absurd cc
    by_tier-IsReadable v n r (some tier) c s e h =
        labelled-IsReadable v n r tier _ c s (access_tier_of-value _ tier e) refl h

    cons-IsReadable :
        (x : Outcome Error Candidate) (xs : Outcome Error (List Candidate)) (cs : List Candidate)
        → ((c : Candidate) → x ≡ returned c → IsReadable c)
        → ((ds : List Candidate) → xs ≡ returned ds → All IsReadable ds)
        → cons_candidate x xs ≡ returned cs
        → All IsReadable cs
    unfolding cons_candidate
    cons-IsReadable (raised e) xs cs f g h = absurd cc
    cons-IsReadable (returned c) (raised e) cs f g h = absurd cc
    cons-IsReadable (returned c) (returned ds) cs f g h =
        subst (All IsReadable) (returned_eq refl h) (f c refl, g ds refl)

    pub candidates-IsReadable :
        (v : Text) (n : ℕ) (rs : List ScoredRow) (cs : List Candidate)
        → All (λ r. IsRow r v) rs
        → candidates n rs ≡ returned cs
        → All IsReadable cs
    unfolding candidates
    candidates-IsReadable v n [] cs s h = subst (All IsReadable) (returned_eq refl h) tt
    candidates-IsReadable v n (r ∷ rs) cs s h =
        cons-IsReadable _ _ cs (λ c. by_tier-IsReadable v n r _ c s.0 refl)
          (λ ds. candidates-IsReadable v (suc n) rs ds s.1) h
