-- ===== src/Effects/Each.antt =====
-- A comprehension `[f(x) for x in xs]` whose `f` may raise.
use ai_system_engineering_cu.Base.{◌≡◌, refl, sym, subst, inl, inr, List, [], ◌∷◌, map, In}
use ai_system_engineering_cu.Effects.Tree.{Outcome, returned, raised}

module _ {E B : Type 0} where
  abbrev cons_returned : B → Outcome E (List B) → Outcome E (List B)
  cons_returned y (returned ys) = returned (y ∷ ys)
  cons_returned y (raised e) = raised e

  abbrev cons_outcome : Outcome E B → Outcome E (List B) → Outcome E (List B)
  cons_outcome (raised e) rest = raised e
  cons_outcome (returned y) rest = cons_returned y rest

  cons_outcome-returned :
      (o : Outcome E B) (rest : Outcome E (List B)) (ys : List B)
      → cons_outcome o rest ≡ returned ys
      → (z : B) × (zs : List B) × (ys ≡ z ∷ zs) × (o ≡ returned z) × (rest ≡ returned zs)
  cons_outcome-returned (returned z) (returned zs) ys h = (z, zs, cc, refl, refl)
  cons_outcome-returned (returned z) (raised e) ys h = cc
  cons_outcome-returned (raised e) rest ys h = cc

module _ {E A B : Type 0} where
  unfoldable pub each : (A → Outcome E B) → List A → Outcome E (List B)
  each f [] = returned []
  each f (x ∷ xs) = cons_outcome (f x) (each f xs)

  -- Each `y` is what `f` returns on the `x` at its place.
  abbrev pub Maps : (A → Outcome E B) → List A → List B → Type 0
  Maps f [] [] = Unit
  Maps f (x ∷ xs) (y ∷ ys) = (f x ≡ returned y) × Maps f xs ys
  Maps f _ _ = ⊥

  pub each-Maps :
      (f : A → Outcome E B) (xs : List A) (ys : List B) → each f xs ≡ returned ys → Maps f xs ys
  unfolding each
  each-Maps f [] [] h = tt
  each-Maps f [] (y ∷ ys) h = cc
  each-Maps f (x ∷ xs) ys h =
      let (z, zs, e, first, rest) = cons_outcome-returned (f x) (each f xs) ys h in
      subst (Maps f (x ∷ xs)) (sym e) (first, each-Maps f xs zs rest)

  pub each_returns :
      (f : A → Outcome E B) (g : A → B) (xs : List A)
      → ((x : A) → In x xs → f x ≡ returned (g x))
      → each f xs ≡ returned (map g xs)
  unfolding each
  each_returns f g [] h = refl
  each_returns f g (x ∷ xs) h = rw (h x (inl refl), each_returns f g xs (λ y i. h y (inr i))) refl
