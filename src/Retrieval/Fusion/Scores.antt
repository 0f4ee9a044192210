-- ===== src/Retrieval/Fusion/Scores.antt =====
-- The dictionaries of the fusion loop, one chunk at a time.
use ai_system_engineering_cu.Base.{
  ℕ, ◌≡◌, refl, sym, ap, ◌∙◌, ◌⊎◌, inl, inr, Option, none, some, List, [], ◌∷◌, Text, lookup, put,
  lookup-put, ◌==◌, text_eq, text_beq_iff, text_beq_refl, if◌then◌else◌, Bool-cases, In,
  HasUniqueKeys, put-HasUniqueKeys, add_double, one_minus, some_eq, Table, subst, Option-cases,
}
use ai_system_engineering_cu.Domain.Search.{Candidate}
use ai_system_engineering_cu.Retrieval.Fusion.{
  Merged, or_zero, set_default, contribution, add_candidate, add_arm, merge,
}

-- The score of one chunk, after one arm on top of the score before it.
unfoldable pub accumulate : ℕ → Text → List Candidate → Option ℕ → Option ℕ
accumulate weight chunk_id [] score = score
accumulate weight chunk_id (candidate ∷ arm) score = accumulate weight chunk_id arm (
    if candidate.chunk_id == chunk_id
    then some (add_double (or_zero score) (contribution weight candidate.rank))
    else score)

-- The score of one chunk by both arms; `none` if neither returned it.
unfoldable pub score_of : ℕ → List Candidate → List Candidate → Text → Option ℕ
unfolding accumulate
score_of weight dense sparse chunk_id =
    accumulate (one_minus weight) chunk_id sparse (accumulate weight chunk_id dense none)

-- The first candidate with an identifier.
unfoldable pub first_of : Text → List Candidate → Option Candidate
first_of chunk_id [] = none
first_of chunk_id (candidate ∷ arm) =
    if candidate.chunk_id == chunk_id then some candidate else first_of chunk_id arm

abbrev pub or_first : Option Candidate → Option Candidate → Option Candidate
or_first none later = later
or_first (some candidate) later = some candidate

pub first_of-In :
    (chunk_id : Text) (arm : List Candidate) (candidate : Candidate)
    → first_of chunk_id arm ≡ some candidate
    → In candidate arm × (candidate.chunk_id ≡ chunk_id)
unfolding first_of
first_of-In chunk_id [] candidate h = absurd cc
first_of-In chunk_id (x ∷ arm) candidate h = elim (Bool-cases (x.chunk_id == chunk_id)) [
  | inl same ↦
      rw (sym (some_eq (rw same at h))) (inl refl, (text_beq_iff x.chunk_id chunk_id).0 same)
  | inr other ↦ let (i, e) = first_of-In chunk_id arm candidate (rw other at h) in (inr i, e)
]

updated_lookup :
    (k j : Text) (f : Option ℕ → ℕ) (m : Table Text ℕ)
    → lookup j (put k (f (lookup k m)) m) ≡ (if k == j then some (f (lookup j m)) else lookup j m)
updated_lookup k j f m = lookup-put k j _ m ∙ elim (Bool-cases (k == j)) [
  | inl same ↦ rw ((text_beq_iff k j).0 same) refl
  | inr other ↦ rw other refl
]

or_first-none : (o : Option Candidate) → o ≡ or_first o none
or_first-none none = refl
or_first-none (some candidate) = refl

set_default-lookup :
    (c : Candidate) (chunk_id : Text) (seen : Table Text Candidate) (later : Option Candidate)
    → or_first (lookup chunk_id (set_default c (lookup c.chunk_id seen) seen)) later
      ≡ or_first (lookup chunk_id seen) (if c.chunk_id == chunk_id then some c else later)
unfolding set_default
set_default-lookup c chunk_id seen later = elim (Option-cases (lookup c.chunk_id seen)) [
  | inl new ↦
      rw (new, lookup-put c.chunk_id chunk_id c seen)
        (elim (Bool-cases (c.chunk_id == chunk_id)) [
          | inl same ↦
              rw (same, subst (λ id. lookup id seen ≡ none) ((text_beq_iff _ _).0 same) new) refl
          | inr other ↦ rw other refl
        ])
  | inr (old, there) ↦ rw there (elim (Bool-cases (c.chunk_id == chunk_id)) [
    | inl same ↦ rw (subst (λ id. lookup id seen ≡ some old) ((text_beq_iff _ _).0 same) there) refl
    | inr other ↦ rw other refl
  ])
]

add_arm-lookup_scores :
    (weight : ℕ) (chunk_id : Text) (arm : List Candidate) (m : Merged)
    → lookup chunk_id (add_arm weight m arm).scores
      ≡ accumulate weight chunk_id arm (lookup chunk_id m.scores)
unfolding add_arm accumulate
add_arm-lookup_scores weight chunk_id [] m = refl
add_arm-lookup_scores weight chunk_id (c ∷ arm) m =
    add_arm-lookup_scores weight chunk_id arm (add_candidate weight m c)
    ∙ ap (accumulate weight chunk_id arm) (
        updated_lookup c.chunk_id chunk_id
          (λ o. add_double (or_zero o) (contribution weight c.rank)) m.scores)

add_arm-lookup_seen :
    (weight : ℕ) (chunk_id : Text) (arm : List Candidate) (m : Merged)
    → lookup chunk_id (add_arm weight m arm).seen
      ≡ or_first (lookup chunk_id m.seen) (first_of chunk_id arm)
unfolding add_arm first_of
add_arm-lookup_seen weight chunk_id [] m = or_first-none _
add_arm-lookup_seen weight chunk_id (c ∷ arm) m =
    add_arm-lookup_seen weight chunk_id arm (add_candidate weight m c)
    ∙ set_default-lookup c chunk_id m.seen _

-- The fusion loop gives each chunk the score that `score_of` describes.
pub merge-lookup_scores :
    (weight : ℕ) (dense sparse : List Candidate) (chunk_id : Text)
    → lookup chunk_id (merge weight dense sparse).scores ≡ score_of weight dense sparse chunk_id
unfolding merge score_of lookup
merge-lookup_scores weight dense sparse chunk_id =
    add_arm-lookup_scores (one_minus weight) chunk_id sparse _
    ∙ ap (accumulate (one_minus weight) chunk_id sparse)
        (add_arm-lookup_scores weight chunk_id dense _)

accumulate-some :
    (weight : ℕ) (chunk_id : Text) (arm : List Candidate) (n : ℕ)
    → (s : ℕ) × (accumulate weight chunk_id arm (some n) ≡ some s)
unfolding accumulate
accumulate-some weight chunk_id [] n = (n, refl)
accumulate-some weight chunk_id (c ∷ arm) n = elim (Bool-cases (c.chunk_id == chunk_id)) [
  | inl same ↦ rw same (accumulate-some weight chunk_id arm _)
  | inr other ↦ rw other (accumulate-some weight chunk_id arm n)
]

-- A chunk that has a score was returned by an arm.
accumulate-seen :
    (weight : ℕ) (chunk_id : Text) (arm : List Candidate) (s : ℕ)
    → accumulate weight chunk_id arm none ≡ some s
    → (c : Candidate) × (first_of chunk_id arm ≡ some c)
unfolding accumulate first_of
accumulate-seen weight chunk_id [] s h = absurd cc
accumulate-seen weight chunk_id (c ∷ arm) s h = elim (Bool-cases (c.chunk_id == chunk_id)) [
  | inl same ↦ (c, rw same refl)
  | inr other ↦ rw other (accumulate-seen weight chunk_id arm s (rw other at h))
]

-- A chunk of an arm has a score.
accumulate-In :
    (weight : ℕ) (arm : List Candidate) (c : Candidate) (o : Option ℕ)
    → In c arm
    → (s : ℕ) × (accumulate weight c.chunk_id arm o ≡ some s)
unfolding accumulate
accumulate-In weight (x ∷ arm) c o (inl e) =
    rw (e, text_beq_refl c.chunk_id) (accumulate-some weight c.chunk_id arm _)
accumulate-In weight (x ∷ arm) c o (inr i) = accumulate-In weight arm c _ i
accumulate-In weight [] c o i = absurd i

add_arm-HasUniqueKeys :
    (weight : ℕ) (arm : List Candidate) (m : Merged)
    → HasUniqueKeys m.scores
    → HasUniqueKeys (add_arm weight m arm).scores
unfolding add_arm
add_arm-HasUniqueKeys weight [] m h = h
add_arm-HasUniqueKeys weight (c ∷ arm) m h =
    add_arm-HasUniqueKeys weight arm (add_candidate weight m c)
      (put-HasUniqueKeys c.chunk_id _ m.scores h)

or_first-some :
    (o later : Option Candidate) (c : Candidate)
    → later ≡ some c
    → (d : Candidate) × (or_first o later ≡ some d)
or_first-some none later c h = (c, h)
or_first-some (some d) later c h = (d, refl)

module _ (weight : ℕ) (dense sparse : List Candidate) where
  scored-seen :
      (chunk_id : Text) (s : ℕ)
      → score_of weight dense sparse chunk_id ≡ some s
      → (c : Candidate) × (or_first (first_of chunk_id dense) (first_of chunk_id sparse) ≡ some c)
  unfolding score_of
  scored-seen chunk_id s h = elim (Option-cases (accumulate weight chunk_id dense none)) [
    | inl absent ↦
        let (c, e) = accumulate-seen (one_minus weight) chunk_id sparse s (rw absent at h) in
        or_first-some (first_of chunk_id dense) _ c e
    | inr (n, scored) ↦
        let (c, e) = accumulate-seen weight chunk_id dense n scored in (c, rw e refl)
  ]

  pub merge-HasUniqueKeys : HasUniqueKeys (merge weight dense sparse).scores
  unfolding merge
  merge-HasUniqueKeys =
      add_arm-HasUniqueKeys (one_minus weight) sparse _ (add_arm-HasUniqueKeys weight dense _ tt)

  pub merge-lookup_seen :
      (chunk_id : Text)
      → lookup chunk_id (merge weight dense sparse).seen
        ≡ or_first (first_of chunk_id dense) (first_of chunk_id sparse)
  unfolding merge lookup
  merge-lookup_seen chunk_id =
      add_arm-lookup_seen (one_minus weight) chunk_id sparse _
      ∙ ap (λ o. or_first o (first_of chunk_id sparse))
          (add_arm-lookup_seen weight chunk_id dense _)

  -- Each key of `scores` is one of `seen`, with a candidate of an arm.
  pub merge-seen :
      (chunk_id : Text) (s : ℕ)
      → lookup chunk_id (merge weight dense sparse).scores ≡ some s
      → (c : Candidate) × (lookup chunk_id (merge weight dense sparse).seen ≡ some c)
        × (or_first (first_of chunk_id dense) (first_of chunk_id sparse) ≡ some c)
  merge-seen chunk_id s h =
      let (c, e) =
        scored-seen chunk_id s (sym (merge-lookup_scores weight dense sparse chunk_id) ∙ h) in
      (c, merge-lookup_seen chunk_id ∙ e, e)

  -- Each candidate of an arm has a key in `scores`.
  pub merge-In :
      (c : Candidate)
      → In c dense ⊎ In c sparse
      → (s : ℕ) × (lookup c.chunk_id (merge weight dense sparse).scores ≡ some s)
  unfolding score_of
  merge-In c i = rw (merge-lookup_scores weight dense sparse c.chunk_id) (by_arm i)
    where
      by_arm :
          In c dense ⊎ In c sparse
          → (s : ℕ) × (accumulate
                (one_minus weight)
                c.chunk_id
                sparse
                (accumulate weight c.chunk_id dense none)
              ≡ some s)
      by_arm (inl i) =
          let (n, e) = accumulate-In weight dense c none i in
          rw e (accumulate-some (one_minus weight) c.chunk_id sparse n)
      by_arm (inr i) = accumulate-In (one_minus weight) sparse c _ i
