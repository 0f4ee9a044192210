-- ===== src/Retrieval/Workflow/Selection.antt =====
-- The candidates that the orchestration carries forward.
use ai_system_engineering_cu.Base.{
  ℕ, zero, suc, ◌≡◌, refl, sym, ap, ◌∙◌, ◌≢◌, inl, inr, ◌≤◌, ◌+◌, true, false, List, [], ◌∷◌, ◌++◌,
  map, Text, ◌==◌, nat_eq, text_eq, text_beq_iff, elem, length, take, Bool-cases, All, AreDistinct,
  arith, AreDistinct-take, length-take,
}
use ai_system_engineering_cu.Domain.Search.{Candidate}
use ai_system_engineering_cu.Retrieval.Workflow.{select_from, select}

-- The best-ranked candidate of each document, but for the documents `seen`.
unfoldable pub best_of_documents : List Text → List Candidate → List Candidate
best_of_documents seen [] = []
best_of_documents seen (candidate ∷ results) = elim (elem candidate.document_id seen) [
  | true ↦ best_of_documents seen results
  | false ↦ candidate ∷ best_of_documents (candidate.document_id ∷ seen) results
]

append-nil : (xs : List Candidate) → xs ++ [] ≡ xs
append-nil [] = refl
append-nil (x ∷ xs) = ap (λ ys. x ∷ ys) (append-nil xs)

append_assoc : (xs ys zs : List Candidate) → (xs ++ ys) ++ zs ≡ xs ++ (ys ++ zs)
append_assoc [] ys zs = refl
append_assoc (x ∷ xs) ys zs = ap (λ us. x ∷ us) (append_assoc xs ys zs)

length-snoc : (xs : List Candidate) (x : Candidate) → length (xs ++ x ∷ []) ≡ suc (length xs)
length-snoc [] x = refl
length-snoc (y ∷ xs) x = ap suc (length-snoc xs x)

reached : (xs : List Candidate) (x : Candidate) → (length (xs ++ x ∷ []) == length xs + 1) ≡ true
reached xs x = ground (arith, length-snoc xs x)

short_of :
    (m : ℕ) (xs : List Candidate) (x : Candidate)
    → (length (xs ++ x ∷ []) == length xs + suc (suc m)) ≡ false
short_of m xs x = ground (arith, length-snoc xs x)

same_limit :
    (m : ℕ) (xs : List Candidate) (x : Candidate)
    → length xs + suc (suc m) ≡ length (xs ++ x ∷ []) + suc m
same_limit m xs x = omega (arith, length-snoc xs x)

elem-tail :
    (id first : Text) (seen : List Text) → elem id (first ∷ seen) ≡ false → elem id seen ≡ false
unfolding elem
elem-tail id first seen h = ground arith

elem-head : (first id : Text) (seen : List Text) → first ≡ id → elem id (first ∷ seen) ≢ false
unfolding elem
elem-head first id seen e h = ground (arith, text_beq_iff first id)

zero_plus : (n : ℕ) → n ≡ 0 + n
zero_plus n = omega arith

-- With fewer candidates selected than the limit, the loop takes what is missing.
select_from-take :
    (missing : ℕ) (seen : List Text) (selected results : List Candidate)
    → select_from (length selected + suc missing) seen selected results
      ≡ selected ++ take (suc missing) (best_of_documents seen results)
unfolding select_from best_of_documents
select_from-take missing seen selected [] = sym (append-nil selected)
select_from-take zero seen selected (c ∷ results) = elim (Bool-cases (elem c.document_id seen)) [
  | inl again ↦
      rw (again, select_from, best_of_documents) (select_from-take zero seen selected results)
  | inr new ↦ rw (new, select_from, best_of_documents, reached selected c) refl
]
select_from-take (suc m) seen selected (c ∷ results) = elim (Bool-cases (elem c.document_id seen)) [
  | inl again ↦
      rw (again, select_from, best_of_documents) (select_from-take (suc m) seen selected results)
  | inr new ↦
      rw (new, select_from, best_of_documents, short_of m selected c)
        (ap (λ n. select_from n (c.document_id ∷ seen) (selected ++ c ∷ []) results)
            (same_limit m selected c)
          ∙ select_from-take m (c.document_id ∷ seen) (selected ++ c ∷ []) results
          ∙ append_assoc selected (c ∷ []) _)
]

best-All :
    (P : Text → Type 0) (seen : List Text) (results : List Candidate)
    → ((c : Candidate) → elem c.document_id seen ≡ false → P c.document_id)
    → All P (map (λ c. c.document_id) (best_of_documents seen results))
unfolding best_of_documents
best-All P seen [] f = tt
best-All P seen (c ∷ results) f = elim (Bool-cases (elem c.document_id seen)) [
  | inl again ↦ rw (again, best_of_documents) (best-All P seen results f)
  | inr new ↦
      rw (new, best_of_documents)
        (
          f c new,
          best-All P (c.document_id ∷ seen) results
              (λ d h. f d (elem-tail d.document_id c.document_id seen h)),
        )
]

best-AreDistinct :
    (seen : List Text) (results : List Candidate)
    → AreDistinct (map (λ c. c.document_id) (best_of_documents seen results))
unfolding best_of_documents
best-AreDistinct seen [] = tt
best-AreDistinct seen (c ∷ results) = elim (Bool-cases (elem c.document_id seen)) [
  | inl again ↦ rw (again, best_of_documents) (best-AreDistinct seen results)
  | inr new ↦
      rw (new, best_of_documents)
        (
          best-All (λ id. c.document_id ≢ id) (c.document_id ∷ seen) results
              (λ d h e. elem-head c.document_id d.document_id seen e h),
          best-AreDistinct (c.document_id ∷ seen) results,
        )
]

map-take :
    (n : ℕ) (xs : List Candidate)
    → map (λ c. c.document_id) (take n xs) ≡ take n (map (λ c. c.document_id) xs)
map-take zero xs = refl
map-take (suc n) [] = refl
map-take (suc n) (x ∷ xs) = ap (λ ys. x.document_id ∷ ys) (map-take n xs)

-- With a limit of at least 1, the selection is the best-ranked candidate of each document in the
-- order of the ranking, cut at the limit: no more candidates than the limit, and no document
-- twice.
pub select-best_of_documents :
    (citation_limit : ℕ) (results : List Candidate)
    → 1 ≤ citation_limit
    → (select citation_limit results ≡ take citation_limit (best_of_documents [] results))
      × (length (select citation_limit results) ≤ citation_limit)
      × AreDistinct (map (λ c. c.document_id) (select citation_limit results))
unfolding select
select-best_of_documents zero results h = absurd (omega arith)
select-best_of_documents (suc n) results h =
    let e =
      ap (λ m. select_from m [] [] results) (zero_plus (suc n))
      ∙ select_from-take n [] [] results in
    (
      e,
      rw e (length-take (suc n) _),
      rw (e, map-take (suc n) (best_of_documents [] results))
          (AreDistinct-take (suc n) _ (best-AreDistinct [] results)),
    )
