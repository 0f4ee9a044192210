-- ===== src/Domain/Embedding/Order.antt =====
-- The vector of a text forgets the order of its tokens, and has 64 entries.
use mathlib.Core.List.{Permᴰ}
use ai_system_engineering_cu.Base.{
  ℕ, zero, suc, ◌≡◌, refl, sym, ap, ◌∙◌, inl, inr, Bool-cases, List, [], ◌∷◌, map, Text, length, ℤ,
  +ℤ-swap, ◌==◌, nat_eq,
}
use ai_system_engineering_cu.Domain.Embedding.{
  zero_vector, add_at, sum_of_squares, sqrt_double, unit_length, whole, quotient, bucket, sign_of,
  accumulated, vector_of, tokenize, embed, embedding_dimensions,
}

add_at-add_at :
    (i j : ℕ) (a b : ℤ) (vector : List ℤ)
    → add_at j b (add_at i a vector) ≡ add_at i a (add_at j b vector)
unfolding add_at
add_at-add_at i j a b [] = refl
add_at-add_at zero zero a b (v ∷ vector) = ap (λ w. w ∷ vector) (+ℤ-swap v a b)
add_at-add_at zero (suc j) a b (v ∷ vector) = refl
add_at-add_at (suc i) zero a b (v ∷ vector) = refl
add_at-add_at (suc i) (suc j) a b (v ∷ vector) = ap (λ w. v ∷ w) (add_at-add_at i j a b vector)

length-add_at : (i : ℕ) (a : ℤ) (vector : List ℤ) → length (add_at i a vector) ≡ length vector
unfolding add_at
length-add_at i a [] = refl
length-add_at zero a (v ∷ vector) = refl
length-add_at (suc i) a (v ∷ vector) = ap suc (length-add_at i a vector)

length-map : {A B : Type 0} (f : A → B) (xs : List A) → length (map f xs) ≡ length xs
length-map f [] = refl
length-map f (x ∷ xs) = ap suc (length-map f xs)

length-unit_length : (vector : List ℤ) (norm : ℕ) → length (unit_length vector norm) ≡ length vector
unfolding unit_length
length-unit_length vector norm = elim (Bool-cases (norm == 0)) [
  | inl zero_norm ↦ rw zero_norm (length-map whole vector)
  | inr positive ↦ rw positive (length-map (quotient norm) vector)
]

module _ (blake2b : Text → ℕ → ℕ) where
  accumulated-Perm :
      {ts us : List Text} (vector : List ℤ)
      → Permᴰ ts us
      → accumulated blake2b ts vector ≡ accumulated blake2b us vector
  unfolding accumulated
  accumulated-Perm vector Permᴰ.nil = refl
  accumulated-Perm vector (Permᴰ.cons same rest) = rw same (accumulated-Perm _ rest)
  accumulated-Perm vector (Permᴰ.swap {a = a} {b = b} {l = l} e f) =
      rw (sym e, sym f)
        (ap (accumulated blake2b l) (
          add_at-add_at (bucket blake2b a) (bucket blake2b b) (sign_of blake2b a)
            (sign_of blake2b b) vector))
  accumulated-Perm vector (Permᴰ.trans p q) = accumulated-Perm vector p ∙ accumulated-Perm vector q

  length-accumulated :
      (tokens : List Text) (vector : List ℤ)
      → length (accumulated blake2b tokens vector) ≡ length vector
  unfolding accumulated
  length-accumulated [] vector = refl
  length-accumulated (token ∷ tokens) vector =
      length-accumulated tokens _
      ∙ length-add_at (bucket blake2b token) (sign_of blake2b token) vector

module _ (casefold : Text → Text) (blake2b : Text → ℕ → ℕ) where
  pub length-embed : (text : Text) → length (embed casefold blake2b text) ≡ embedding_dimensions
  unfolding embed vector_of zero_vector
  length-embed text =
      length-unit_length
        (accumulated blake2b (tokenize casefold text) (zero_vector embedding_dimensions)) _
      ∙ length-accumulated blake2b (tokenize casefold text) (zero_vector embedding_dimensions)

  -- Two texts whose tokens are the same in another order have the same vector.
  pub embed_any_order :
      (a b : Text)
      → Permᴰ (tokenize casefold a) (tokenize casefold b)
      → embed casefold blake2b a ≡ embed casefold blake2b b
  unfolding embed vector_of
  embed_any_order a b p =
      ap (λ v. unit_length v (sqrt_double (sum_of_squares v)))
        (accumulated-Perm blake2b (zero_vector embedding_dimensions) p)
