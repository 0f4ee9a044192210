-- ===== src/Base/Sorting.antt =====
-- `sorted`: a stable sort by a test `before x y` that says when `x` may stand before `y`.
use mathlib.Core.Path.{◌≡◌, refl, ap}
use Prim.Native.Nat.{ℕ, zero, suc}
use mathlib.Core.Logic.{◌↔◌, ◌⊎◌, inl, inr}
use mathlib.Core.Bool.{Bool, true, false}
use mathlib.Core.List.{List, [], ◌∷◌}
use ai_system_engineering_cu.Base.Tests.{Bool-cases, if◌then◌else◌}
use ai_system_engineering_cu.Base.Lists.{All, All-map, All-take, All-of, All-In, In, length, take}

module _ {A : Type 0} (before : A → A → Bool) where
  unfoldable pub insert : A → List A → List A
  insert x [] = x ∷ []
  insert x (y ∷ ys) = let rest = insert x ys in if before x y then x ∷ y ∷ ys else y ∷ rest

  unfoldable pub sort : List A → List A
  unfolding insert
  sort [] = []
  sort (x ∷ xs) = insert x (sort xs)

  -- Each element may stand before all that follow it.
  abbrev pub IsSorted : List A → Type 0
  IsSorted [] = Unit
  IsSorted (x ∷ xs) = All (λ y. before x y ≡ true) xs × IsSorted xs

  pub All-insert : (P : A → Type 0) (x : A) (ys : List A) → P x → All P ys → All P (insert x ys)
  unfolding insert
  All-insert P x [] p h = (p, tt)
  All-insert P x (y ∷ ys) p h = elim (Bool-cases (before x y)) [
    | inl first ↦ rw first (p, h)
    | inr later ↦ rw later (h.0, All-insert P x ys p h.1)
  ]

  pub All-sort : (P : A → Type 0) (xs : List A) → All P xs → All P (sort xs)
  unfolding sort
  All-sort P [] h = tt
  All-sort P (x ∷ xs) h = All-insert P x (sort xs) h.0 (All-sort P xs h.1)

  In-insert : (a x : A) (ys : List A) → In a (x ∷ ys) → In a (insert x ys)
  unfolding insert
  In-insert a x [] h = h
  In-insert a x (y ∷ ys) h = elim (Bool-cases (before x y)) [
    | inl first ↦ rw first h
    | inr later ↦ rw later (elim h [
      | inl e ↦ inr (In-insert a x ys (inl e))
      | inr (inl e) ↦ inl e
      | inr (inr i) ↦ inr (In-insert a x ys (inr i))
    ])
  ]

  -- The sort loses no element and adds none.
  pub In-sort : (a : A) (xs : List A) → In a xs ↔ In a (sort xs)
  unfolding sort
  In-sort a xs = (forth xs, back)
    where
      forth : (ys : List A) → In a ys → In a (sort ys)
      forth [] h = h
      forth (y ∷ ys) (inl e) = In-insert a y (sort ys) (inl e)
      forth (y ∷ ys) (inr i) = In-insert a y (sort ys) (inr (forth ys i))

      back : In a (sort xs) → In a xs
      back = All-In (λ b. In b xs) a (sort xs) (All-sort (λ b. In b xs) xs (All-of _ xs (λ b i. i)))

  -- What a slice of a sorted list leaves out stands behind all that it keeps.
  pub take-IsSorted : (n : ℕ) (xs : List A) → IsSorted xs → IsSorted (take n xs)
  take-IsSorted zero xs h = tt
  take-IsSorted (suc n) [] h = tt
  take-IsSorted (suc n) (x ∷ xs) h = (All-take _ n xs h.0, take-IsSorted n xs h.1)

  pub In-take_sorted :
      (a : A) (n : ℕ) (xs : List A)
      → IsSorted xs
      → In a xs
      → In a (take n xs) ⊎ ((length (take n xs) ≡ n) × All (λ x. before x a ≡ true) (take n xs))
  In-take_sorted a zero xs h i = inr (refl, tt)
  In-take_sorted a (suc n) (x ∷ xs) h (inl e) = inl (inl e)
  In-take_sorted a (suc n) (x ∷ xs) h (inr i) = elim (In-take_sorted a n xs h.1 i) [
    | inl kept ↦ inl (inr kept)
    | inr (full, behind) ↦ inr (ap suc full, (All-In (λ y. before x y ≡ true) a xs h.0 i, behind))
  ]
  In-take_sorted a (suc n) [] h i = absurd i

  module _ (total : (x y : A) → before x y ≡ false → before y x ≡ true)
      (trans : (x y z : A) → before x y ≡ true → before y z ≡ true → before x z ≡ true) where
    insert-IsSorted : (x : A) (ys : List A) → IsSorted ys → IsSorted (insert x ys)
    unfolding insert
    insert-IsSorted x [] h = (tt, tt)
    insert-IsSorted x (y ∷ ys) h = elim (Bool-cases (before x y)) [
      | inl first ↦ rw first ((first, All-map _ _ ys (λ z b. trans x y z first b) h.0), h)
      | inr later ↦ rw later (All-insert _ x ys (total x y later) h.0, insert-IsSorted x ys h.1)
    ]

    pub sort-IsSorted : (xs : List A) → IsSorted (sort xs)
    unfolding sort
    sort-IsSorted [] = tt
    sort-IsSorted (x ∷ xs) = insert-IsSorted x (sort xs) (sort-IsSorted xs)
