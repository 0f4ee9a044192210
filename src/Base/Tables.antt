-- ===== src/Base/Tables.antt =====
-- A keyed table in insertion order: a Python dict, or the rows of a relation under its primary key.
use mathlib.Core.Path.{◌≡◌, refl, sym, ap, ◌∙◌}
use mathlib.Core.Option.{Option, none, some}
use mathlib.Core.List.{List, [], ◌∷◌}
use mathlib.Core.Bool.{false≢true}
use native.Mathlib.Omega.{arith}
use mathlib.Core.Logic.{◌≢◌, inl, inr}
use ai_system_engineering_cu.Base.Tests.{Equality, ◌==◌, Bool-cases, some_eq, if◌then◌else◌}
use ai_system_engineering_cu.Base.Lists.{All, All-In, In}

abbrev pub Table : Type 0 → Type 0 → Type 0
Table K V = List (K × V)

module _ {K V : Type 0} ⦃eq : Equality K⦄ where
  unfoldable pub lookup : K → Table K V → Option V
  lookup k [] = none
  lookup k ((j, v) ∷ m) = if j == k then some v else lookup k m

  -- `m[k] = v`: the entry keeps its place, a new one goes last.
  unfoldable pub put : K → V → Table K V → Table K V
  put k v [] = (k, v) ∷ []
  put k v ((j, w) ∷ m) = if j == k then (j, v) ∷ m else (j, w) ∷ put k v m

  unfoldable pub remove : K → Table K V → Table K V
  remove k [] = []
  remove k ((j, v) ∷ m) = let rest = remove k m in if j == k then rest else (j, v) ∷ rest

  pub lookup-put :
      (k j : K) (v : V) (m : Table K V)
      → lookup j (put k v m) ≡ (if k == j then some v else lookup j m)
  unfolding lookup put
  lookup-put k j v [] = refl
  lookup-put k j v ((i, w) ∷ m) =
      ground (arith, eq.equal_iff k j, eq.equal_iff i k, eq.equal_iff i j, lookup-put k j v m)

  pub lookup-remove :
      (k j : K) (m : Table K V) → lookup j (remove k m) ≡ (if k == j then none else lookup j m)
  unfolding lookup remove
  lookup-remove k j [] = ground arith
  lookup-remove k j ((i, w) ∷ m) =
      ground (arith, eq.equal_iff k j, eq.equal_iff i k, eq.equal_iff i j, lookup-remove k j m)

  pub lookup-put_self : (k : K) (v : V) (m : Table K V) → lookup k (put k v m) ≡ some v
  lookup-put_self k v m = rw (lookup-put k k v m) (rw ((eq.equal_iff k k).1 refl) refl)

  -- No key stands twice.
  abbrev pub HasUniqueKeys : Table K V → Type 0
  HasUniqueKeys [] = Unit
  HasUniqueKeys ((k, v) ∷ m) = All (λ entry. k ≢ entry.0) m × HasUniqueKeys m

  All-put :
      (P : K → Type 0) (k : K) (v : V) (m : Table K V)
      → P k
      → All (λ entry. P entry.0) m
      → All (λ entry. P entry.0) (put k v m)
  unfolding put
  All-put P k v [] p h = (p, tt)
  All-put P k v ((j, w) ∷ m) p h = elim (Bool-cases (j == k)) [
    | inl same ↦ rw same h
    | inr other ↦ rw other (h.0, All-put P k v m p h.1)
  ]

  pub put-HasUniqueKeys :
      (k : K) (v : V) (m : Table K V) → HasUniqueKeys m → HasUniqueKeys (put k v m)
  unfolding put
  put-HasUniqueKeys k v [] h = (tt, tt)
  put-HasUniqueKeys k v ((j, w) ∷ m) h = elim (Bool-cases (j == k)) [
    | inl same ↦ rw same h
    | inr other ↦ rw other (
      All-put (λ i. j ≢ i) k v m (λ e. false≢true (sym other ∙ (eq.equal_iff j k).1 e)) h.0,
      put-HasUniqueKeys k v m h.1,
    )
  ]

  -- An entry is what its key looks up.
  pub In-lookup :
      (k : K) (v : V) (m : Table K V) → HasUniqueKeys m → In (k, v) m → lookup k m ≡ some v
  unfolding lookup
  In-lookup k v ((j, w) ∷ m) h (inl e) =
      rw ((eq.equal_iff j k).1 (ap (λ entry. entry.0) e)) (ap (λ entry. some entry.1) e)
  In-lookup k v ((j, w) ∷ m) h (inr i) = elim (Bool-cases (j == k)) [
    | inl same ↦ absurd (All-In (λ entry. j ≢ entry.0) (k, v) m h.0 i ((eq.equal_iff j k).0 same))
    | inr other ↦ rw other (In-lookup k v m h.1 i)
  ]
  In-lookup k v [] h i = absurd i

  pub lookup-In : (k : K) (v : V) (m : Table K V) → lookup k m ≡ some v → In (k, v) m
  unfolding lookup
  lookup-In k v [] h = cc
  lookup-In k v ((j, w) ∷ m) h = elim (Bool-cases (j == k)) [
    | inl same ↦ inl (λ i. ((eq.equal_iff j k).0 same i, some_eq (rw same at h) i))
    | inr other ↦ inr (lookup-In k v m (rw other at h))
  ]
