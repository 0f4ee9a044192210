-- ===== src/Retrieval/Fusion/Ranking.antt =====
-- What `fuse` returns.
use ai_system_engineering_cu.Base.{
  Double, nan, minus_infinity, plus_infinity, negsuc, Option, none, leb, All-In, subst, ◌&&◌,
  Bool-cases, ℕ, zero, suc, ◌≡◌, refl, sym, ◌∙◌, ◌≢◌, ◌⊎◌, inl, inr, true, false, some, List, [],
  ◌∷◌, Text, Table, In-lookup, lookup-In, ◌≤◌, text_eq, Bool-cases, In, All, All-of, All-insert,
  All-sort, HasUniqueKeys, In-sort, In-take, In-take_sorted, take, sort, insert, IsSorted,
  sort-IsSorted, take-IsSorted, length, length-take, arith, text_leb_total, text_leb_trans, finite,
  pos, All-take, le→leb,
}
use ai_system_engineering_cu.Effects.{Outcome, returned, raised}
use ai_system_engineering_cu.Retrieval.Calls.{Error, value_error}
use ai_system_engineering_cu.Domain.Search.{Candidate, is_weight}
use ai_system_engineering_cu.Retrieval.Fusion.{
  fuse_weighted, merge, ranks_before, place, placed, fuse,
}
use ai_system_engineering_cu.Retrieval.Fusion.Scores.{
  score_of, first_of, first_of-In, or_first, merge-lookup_scores, merge-HasUniqueKeys, merge-seen,
  merge-In,
}

ranks_before_total : (a b : Text × ℕ) → ranks_before a b ≡ false → ranks_before b a ≡ true
unfolding ranks_before
ranks_before_total a b h = ground (arith, text_leb_total a.0 b.0)

ranks_before_trans :
    (a b c : Text × ℕ) → ranks_before a b ≡ true → ranks_before b c ≡ true → ranks_before a c ≡ true
unfolding ranks_before
ranks_before_trans a b c h k = ground (arith, text_leb_trans a.0 b.0 c.0)

insert-HasUniqueKeys :
    (x : Text × ℕ) (ys : Table Text ℕ)
    → All (λ y. x.0 ≢ y.0) ys
    → HasUniqueKeys ys
    → HasUniqueKeys (insert ranks_before x ys)
unfolding insert
insert-HasUniqueKeys x [] h u = (tt, tt)
insert-HasUniqueKeys x (y ∷ ys) h u = elim (Bool-cases (ranks_before x y)) [
  | inl first ↦ rw first (h, u)
  | inr later ↦ rw later (
    All-insert ranks_before (λ z. y.0 ≢ z.0) x ys (λ e. h.0 (sym e)) u.0,
    insert-HasUniqueKeys x ys h.1 u.1,
  )
]

sort-HasUniqueKeys : (m : Table Text ℕ) → HasUniqueKeys m → HasUniqueKeys (sort ranks_before m)
unfolding sort
sort-HasUniqueKeys [] h = tt
sort-HasUniqueKeys (x ∷ m) h =
    insert-HasUniqueKeys x (sort ranks_before m) (All-sort ranks_before (λ y. x.0 ≢ y.0) m h.0)
      (sort-HasUniqueKeys m h.1)

take-HasUniqueKeys : (n : ℕ) (m : Table Text ℕ) → HasUniqueKeys m → HasUniqueKeys (take n m)
take-HasUniqueKeys zero m h = tt
take-HasUniqueKeys (suc n) [] h = tt
take-HasUniqueKeys (suc n) (x ∷ m) h = (All-take _ n m h.0, take-HasUniqueKeys n m h.1)

pub returned_eq :
    {a b : List Candidate} {x : Outcome Error (List Candidate)}
    → x ≡ returned a
    → x ≡ returned b
    → a ≡ b
returned_eq h k = cc

raised_eq : {a b : Error} {x : Outcome Error (List Candidate)} → x ≡ raised a → x ≡ raised b → b ≡ a
raised_eq h k = cc

raised≢returned :
    {e : Error} {a : List Candidate} {x : Outcome Error (List Candidate)}
    → x ≡ raised e
    → x ≢ returned a
raised≢returned h k = cc

module _ (weight : ℕ) (dense sparse : List Candidate) where
  -- The results stand in the order of the entries, from a position on, each the first candidate
  -- with its identifier under a new rank and score.
  abbrev pub IsPlaced : ℕ → Table Text ℕ → List Candidate → Type 0
  IsPlaced position [] [] = Unit
  IsPlaced position ((chunk_id, score) ∷ entries) (r ∷ results) =
      ((c : Candidate) × (or_first (first_of chunk_id dense) (first_of chunk_id sparse) ≡ some c)
        × (r ≡ place position score c))
      × IsPlaced (suc position) entries results
  IsPlaced position _ _ = ⊥

  abbrev IsScored : Text × ℕ → Type 0
  IsScored entry = score_of weight dense sparse entry.0 ≡ some entry.1

  placed-IsPlaced :
      (position : ℕ) (entries : Table Text ℕ)
      → All IsScored entries
      → (results : List Candidate) × (placed (merge weight dense sparse).seen position entries
          ≡ returned results)
        × IsPlaced position entries results
  unfolding placed
  placed-IsPlaced position [] h = ([], refl, tt)
  placed-IsPlaced position ((chunk_id, score) ∷ entries) h =
      let (c, found, first) =
        merge-seen weight dense sparse chunk_id score
          (merge-lookup_scores weight dense sparse chunk_id ∙ h.0) in
      let (results, e, rest) = placed-IsPlaced (suc position) entries h.1 in
      (place position score c ∷ results, rw (found, e) refl, ((c, first, refl), rest))

  -- The ranking of the fusion: the chunks of the arms with their weighted reciprocal ranks, by
  -- falling score and then by identifier, cut at the limit.
  pub record IsRanking (limit : ℕ) (entries : Table Text ℕ) : Type 0 where
    pub scored : All IsScored entries
    pub distinct : HasUniqueKeys entries
    pub sorted : IsSorted ranks_before entries
    pub bounded : length entries ≤ limit
    pub complete :
        (c : Candidate)
        → In c dense ⊎ In c sparse
        → (s : ℕ) × (score_of weight dense sparse c.chunk_id ≡ some s)
          × (In (c.chunk_id, s) entries
              ⊎ ((length entries ≡ limit)
                  × All (λ e. ranks_before e (c.chunk_id, s) ≡ true) entries))

  top-IsRanking :
      (limit : ℕ)
      → IsRanking limit (take limit (sort ranks_before (merge weight dense sparse).scores))
  top-IsRanking limit = record {
    scored = All-of _ _ (λ e i.
        sym (merge-lookup_scores weight dense sparse e.0)
        ∙ In-lookup e.0 e.1 _ (merge-HasUniqueKeys weight dense sparse)
            ((In-sort ranks_before e _).1 (In-take e limit _ i)));
    distinct =
        take-HasUniqueKeys limit _ (sort-HasUniqueKeys _ (merge-HasUniqueKeys weight dense sparse));
    sorted =
        take-IsSorted ranks_before limit _
          (sort-IsSorted ranks_before ranks_before_total ranks_before_trans _);
    bounded = length-take limit _;
    complete = λ c i.
        let (s, e) = merge-In weight dense sparse c i in
        (
          s,
          sym (merge-lookup_scores weight dense sparse c.chunk_id) ∙ e,
          In-take_sorted ranks_before (c.chunk_id, s) limit _
              (sort-IsSorted ranks_before ranks_before_total ranks_before_trans _)
              ((In-sort ranks_before _ _).0 (lookup-In c.chunk_id s _ e)),
        );
  }

  -- With a weight from 0.0 to 1.0 and a limit of at least 1, fuse returns results: they are the
  -- first candidates with the identifiers of a ranking, with the ranks from 1 and the rounded
  -- scores. The ranking holds no identifier twice, is sorted by falling score and then by
  -- identifier, and leaves a chunk of an arm out only when the limit is reached and all it holds
  -- may stand before that chunk.
  pub fuse-IsRanking :
      (limit : ℕ)
      → is_weight (finite (pos weight)) ≡ true
      → 1 ≤ limit
      → (results : List Candidate) × (entries : Table Text ℕ) × (fuse
            (finite (pos weight))
            limit
            dense
            sparse
          ≡ returned results)
        × IsPlaced 1 entries results
        × IsRanking limit entries
  unfolding fuse
  fuse-IsRanking limit w l =
      let ranking = top-IsRanking limit in
      let (results, e, p) = placed-IsPlaced 1 _ ranking.scored in
      (results, _, rw (w, le→leb 1 limit l) e, p, ranking)

  module _ (P : Candidate → Type 0)
      (stable : (position score : ℕ) (c : Candidate) → P c → P (place position score c)) where
    placed_satisfy :
        (position : ℕ) (entries : Table Text ℕ) (results : List Candidate)
        → All P dense
        → All P sparse
        → IsPlaced position entries results
        → All P results
    placed_satisfy position [] [] d s h = tt
    placed_satisfy position ((chunk_id, score) ∷ entries) (r ∷ results) d s ((c, first, e), h) = (
      rw e (stable position score c (of_arm (first_of chunk_id dense) refl first)),
      placed_satisfy (suc position) entries results d s h,
    )
      where
        of_arm :
            (o : Option Candidate)
            → first_of chunk_id dense ≡ o
            → or_first o (first_of chunk_id sparse) ≡ some c
            → P c
        of_arm none e first = All-In P c sparse s (first_of-In chunk_id sparse c first).0
        of_arm (some c') e first = All-In P c dense d (first_of-In chunk_id dense c (e ∙ first)).0
    placed_satisfy position [] (r ∷ results) d s h = absurd h
    placed_satisfy position (entry ∷ entries) [] d s h = absurd h

    -- What every candidate of both arms satisfies, the results satisfy.
    pub fuse_satisfies :
        (limit : ℕ) (results : List Candidate)
        → All P dense
        → All P sparse
        → fuse (finite (pos weight)) limit dense sparse ≡ returned results
        → All P results
    unfolding fuse
    fuse_satisfies limit results d s h =
        elim (Bool-cases (is_weight (finite (pos weight)) && leb 1 limit)) [
          | inl right ↦
              let (made, e, p) = placed-IsPlaced 1 _ (top-IsRanking limit).scored in
              subst (All P) (returned_eq e (rw right at h)) (placed_satisfy 1 _ made d s p)
          | inr wrong ↦ absurd (raised≢returned refl (rw wrong at h))
        ]

  fuse_weighted-returns :
      (limit : ℕ)
      → (results : List Candidate) × (fuse_weighted weight limit dense sparse ≡ returned results)
  unfolding fuse_weighted
  fuse_weighted-returns limit =
      let (results, e, p) = placed-IsPlaced 1 _ (top-IsRanking limit).scored in (results, e)

-- `fuse` raises no error but a `ValueError`: each key of `scores` is found in `seen`.
pub fuse_raises :
    (weight : Double) (limit : ℕ) (dense sparse : List Candidate) (e : Error)
    → fuse weight limit dense sparse ≡ raised e
    → e ≡ value_error
unfolding fuse
fuse_raises (finite (pos w)) limit dense sparse e h =
    elim (Bool-cases (is_weight (finite (pos w)) && leb 1 limit)) [
      | inl right ↦
          let (results, made) = fuse_weighted-returns w dense sparse limit in
          absurd (raised≢returned (rw right at h) made)
      | inr wrong ↦ raised_eq refl (rw wrong at h)
    ]
fuse_raises (finite (negsuc w)) limit dense sparse e h = raised_eq refl h
fuse_raises nan limit dense sparse e h = raised_eq refl h
fuse_raises minus_infinity limit dense sparse e h = raised_eq refl h
fuse_raises plus_infinity limit dense sparse e h = raised_eq refl h
