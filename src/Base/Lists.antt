-- ===== src/Base/Lists.antt =====
-- Sequences: `len`, slices, `in`, and the predicates that the theorems use on them.
use Prim.Native.Nat.{ℕ, zero, suc, ◌+◌, ◌≤◌, ◌<◌}
use mathlib.Core.Path.{◌≡◌, refl, sym, ap, subst}
use mathlib.Core.Logic.{◌≢◌, ◌↔◌, ◌⊎◌, inl, inr}
use mathlib.Core.Bool.{Bool, true, false, ◌||◌}
use mathlib.Core.List.{List, [], ◌∷◌, ◌++◌, map}
use native.Mathlib.Omega.{arith}
use ai_system_engineering_cu.Base.Tests.{Equality, ◌==◌, Bool-cases, if◌then◌else◌}

module _ {A : Type 0} where
  abbrev pub length : List A → ℕ
  length [] = 0
  length (x ∷ xs) = suc (length xs)

  -- `xs[:n]`
  abbrev pub take : ℕ → List A → List A
  take zero xs = []
  take (suc n) [] = []
  take (suc n) (x ∷ xs) = x ∷ take n xs

  -- Each member satisfies `P`.
  abbrev pub All : (A → Type 0) → List A → Type 0
  All P [] = Unit
  All P (x ∷ xs) = P x × All P xs

  -- `a` is a member.
  abbrev pub In : A → List A → Type 0
  In a [] = ⊥
  In a (x ∷ xs) = (x ≡ a) ⊎ In a xs

  -- No two members are equal.
  abbrev pub AreDistinct : List A → Type 0
  AreDistinct [] = Unit
  AreDistinct (x ∷ xs) = All (λ y. x ≢ y) xs × AreDistinct xs

  pub All-map : (P Q : A → Type 0) (xs : List A) → ((x : A) → P x → Q x) → All P xs → All Q xs
  All-map P Q [] f h = tt
  All-map P Q (x ∷ xs) f h = (f x h.0, All-map P Q xs f h.1)

  pub All-append : (P : A → Type 0) (xs ys : List A) → All P xs → All P ys → All P (xs ++ ys)
  All-append P [] ys h k = k
  All-append P (x ∷ xs) ys h k = (h.0, All-append P xs ys h.1 k)

  pub All-take : (P : A → Type 0) (n : ℕ) (xs : List A) → All P xs → All P (take n xs)
  All-take P zero xs h = tt
  All-take P (suc n) [] h = tt
  All-take P (suc n) (x ∷ xs) h = (h.0, All-take P n xs h.1)

  pub All-In : (P : A → Type 0) (a : A) (xs : List A) → All P xs → In a xs → P a
  All-In P a (x ∷ xs) h (inl e) = subst P e h.0
  All-In P a (x ∷ xs) h (inr i) = All-In P a xs h.1 i
  All-In P a [] h i = absurd i

  pub All-of : (P : A → Type 0) (xs : List A) → ((a : A) → In a xs → P a) → All P xs
  All-of P [] f = tt
  All-of P (x ∷ xs) f = (f x (inl refl), All-of P xs (λ a i. f a (inr i)))

  pub AreDistinct-take : (n : ℕ) (xs : List A) → AreDistinct xs → AreDistinct (take n xs)
  AreDistinct-take zero xs h = tt
  AreDistinct-take (suc n) [] h = tt
  AreDistinct-take (suc n) (x ∷ xs) h = (All-take (λ y. x ≢ y) n xs h.0, AreDistinct-take n xs h.1)

  pub In-append : (a : A) (xs ys : List A) → In a (xs ++ ys) ↔ (In a xs ⊎ In a ys)
  In-append a xs ys = (forth xs, back xs)
    where
      forth : (zs : List A) → In a (zs ++ ys) → In a zs ⊎ In a ys
      forth [] h = inr h
      forth (z ∷ zs) (inl e) = inl (inl e)
      forth (z ∷ zs) (inr i) = elim (forth zs i) [ inl j ↦ inl (inr j) | inr j ↦ inr j ]

      back : (zs : List A) → In a zs ⊎ In a ys → In a (zs ++ ys)
      back [] (inl h) = absurd h
      back [] (inr h) = h
      back (z ∷ zs) (inl (inl e)) = inl e
      back (z ∷ zs) (inl (inr i)) = inr (back zs (inl i))
      back (z ∷ zs) (inr i) = inr (back zs (inr i))

  pub In-take : (a : A) (n : ℕ) (xs : List A) → In a (take n xs) → In a xs
  In-take a zero xs h = absurd h
  In-take a (suc n) [] h = absurd h
  In-take a (suc n) (x ∷ xs) (inl e) = inl e
  In-take a (suc n) (x ∷ xs) (inr i) = inr (In-take a n xs i)

  pub length-take : (n : ℕ) (xs : List A) → length (take n xs) ≤ n
  length-take zero xs = omega arith
  length-take (suc n) [] = omega arith
  length-take (suc n) (x ∷ xs) = omega (arith, length-take n xs)

  -- `xs[n:]`
  abbrev pub drop : ℕ → List A → List A
  drop zero xs = xs
  drop (suc n) [] = []
  drop (suc n) (x ∷ xs) = drop n xs

  -- The members of the members.
  abbrev pub concat : List (List A) → List A
  concat [] = []
  concat (xs ∷ xss) = xs ++ concat xss

  pub take_append_drop : (n : ℕ) (xs : List A) → take n xs ++ drop n xs ≡ xs
  take_append_drop zero xs = refl
  take_append_drop (suc n) [] = refl
  take_append_drop (suc n) (x ∷ xs) = ap (λ ys. x ∷ ys) (take_append_drop n xs)

  drop_nil : (n : ℕ) (xs : List A) → xs ≡ [] → drop n xs ≡ []
  drop_nil zero xs h = h
  drop_nil (suc n) [] h = refl
  drop_nil (suc n) (x ∷ xs) h = cc

  pub drop-drop : (m n k : ℕ) (xs : List A) → m + n ≡ k → drop n (drop m xs) ≡ drop k xs
  drop-drop zero n k xs h = ap (λ j. drop j xs) (omega (arith, h))
  drop-drop (suc m) n (suc k) [] h = drop_nil n [] refl
  drop-drop (suc m) n (suc k) (x ∷ xs) h = drop-drop m n k xs (omega arith)
  drop-drop (suc m) n zero xs h = absurd (omega arith)

  -- Nothing is left behind the end.
  pub drop_all : (n : ℕ) (xs : List A) → length xs ≤ n → drop n xs ≡ []
  drop_all zero [] h = refl
  drop_all zero (x ∷ xs) h = absurd (omega arith)
  drop_all (suc n) [] h = refl
  drop_all (suc n) (x ∷ xs) h = drop_all n xs (omega arith)

  -- A slice that begins before the end has a member.
  pub length-take-drop :
      (m n : ℕ) (xs : List A) → m < length xs → 1 ≤ n → 1 ≤ length (take n (drop m xs))
  length-take-drop zero (suc n) (x ∷ xs) h k = omega arith
  length-take-drop (suc m) n (x ∷ xs) h k = length-take-drop m n xs (omega arith) k
  length-take-drop m n [] h k = absurd (omega arith)
  length-take-drop zero zero (x ∷ xs) h k = absurd (omega arith)

  pub All-drop : (P : A → Type 0) (n : ℕ) (xs : List A) → All P xs → All P (drop n xs)
  All-drop P zero xs h = h
  All-drop P (suc n) [] h = tt
  All-drop P (suc n) (x ∷ xs) h = All-drop P n xs h.1

  unfoldable pub filter : (A → Bool) → List A → List A
  filter p [] = []
  filter p (x ∷ xs) = let rest = filter p xs in if p x then x ∷ rest else rest

  pub In-filter :
      (p : A → Bool) (a : A) (xs : List A) → In a (filter p xs) ↔ (In a xs × (p a ≡ true))
  unfolding filter
  In-filter p a xs = (forth xs, λ h. back xs h.0 h.1)
    where
      forth : (ys : List A) → In a (filter p ys) → In a ys × (p a ≡ true)
      forth [] h = absurd h
      forth (y ∷ ys) h = elim (Bool-cases (p y)) [
        | inl fits ↦ elim (rw fits at h) [
          | inl e ↦ (inl e, subst (λ z. p z ≡ true) e fits)
          | inr i ↦ (inr (forth ys i).0, (forth ys i).1)
        ]
        | inr fails ↦ (inr (forth ys (rw fails at h)).0, (forth ys (rw fails at h)).1)
      ]

      back : (ys : List A) → In a ys → p a ≡ true → In a (filter p ys)
      back [] h k = absurd h
      back (y ∷ ys) (inl e) k = rw (subst (λ z. p z ≡ true) (sym e) k) (inl e)
      back (y ∷ ys) (inr i) k = elim (Bool-cases (p y)) [
        | inl fits ↦ rw fits (inr (back ys i k))
        | inr fails ↦ rw fails (back ys i k)
      ]

pub All-of_map :
    {A B : Type 0} (f : A → B) (P : B → Type 0) (xs : List A)
    → All (λ a. P (f a)) xs
    → All P (map f xs)
All-of_map f P [] h = tt
All-of_map f P (x ∷ xs) h = (h.0, All-of_map f P xs h.1)

module _ {A : Type 0} ⦃e : Equality A⦄ where
  -- `a in xs`
  unfoldable pub elem : A → List A → Bool
  elem a [] = false
  elem a (x ∷ xs) = x == a || elem a xs

  pub elem-In : (a : A) (xs : List A) → (elem a xs ≡ true) ↔ In a xs
  unfolding elem
  elem-In a xs = (forth xs, back xs)
    where
      forth : (ys : List A) → elem a ys ≡ true → In a ys
      forth (y ∷ ys) h = elim (Bool-cases (y == a)) [
        | inl same ↦ inl ((e.equal_iff y a).0 same)
        | inr other ↦ inr (forth ys (ground (arith, other)))
      ]
      forth [] h = ground arith

      back : (ys : List A) → In a ys → elem a ys ≡ true
      back [] h = absurd h
      back (y ∷ ys) (inl same) = rw ((e.equal_iff y a).1 same) refl
      back (y ∷ ys) (inr i) = ground (arith, back ys i)
