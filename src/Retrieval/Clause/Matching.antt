-- ===== src/Retrieval/Clause/Matching.antt =====
-- What the predicate of `_constraint_clause` selects.
use ai_system_engineering_cu.Base.{
  suc, ◌≡◌, refl, ap, ◌∙◌, Bool, true, false, ◌&&◌, Option, none, some, List, [], ◌∷◌, ◌++◌, map,
  Text, length, elem, text_eq, text_beq,
}
use ai_system_engineering_cu.Domain.Access.{
  AccessTier, standard, restricted, tier_eq, tier_value, AccessConstraint,
}
use ai_system_engineering_cu.Retrieval.Policy.{admits}
use ai_system_engineering_cu.Retrieval.Clause.{
  Bound, scalar, texts, any_bound, matches, constraint_clause,
}

any_bound-append :
    (value : Text) (leading : List Bound) (values : List Text) (rest : List Bound)
    → any_bound value (leading ++ texts values ∷ rest) (suc (length leading)) ≡ elem value values
unfolding any_bound
any_bound-append value [] values rest = refl
any_bound-append value (scalar b ∷ leading) values rest = any_bound-append value leading values rest
any_bound-append value (texts b ∷ leading) values rest = any_bound-append value leading values rest

elem-map-tier_value :
    (tier : AccessTier) (tiers : List AccessTier)
    → elem (tier_value tier) (map tier_value tiers) ≡ elem tier tiers
unfolding elem text_beq
elem-map-tier_value tier [] = refl
elem-map-tier_value standard (standard ∷ tiers) = refl
elem-map-tier_value restricted (restricted ∷ tiers) = refl
elem-map-tier_value standard (restricted ∷ tiers) = elem-map-tier_value standard tiers
elem-map-tier_value restricted (standard ∷ tiers) = elem-map-tier_value restricted tiers

any_bound-append_second :
    (value : Text) (leading : List Bound) (first second : List Text)
    → any_bound value (leading ++ texts first ∷ texts second ∷ []) (suc (suc (length leading)))
      ≡ elem value second
unfolding any_bound
any_bound-append_second value [] first second = refl
any_bound-append_second value (scalar b ∷ leading) first second =
    any_bound-append_second value leading first second
any_bound-append_second value (texts b ∷ leading) first second =
    any_bound-append_second value leading first second

any_tier :
    (leading : List Bound) (tiers : List AccessTier) (tier : AccessTier)
    → any_bound
        (tier_value tier)
        (leading ++ texts (map tier_value tiers) ∷ [])
        (suc (length leading))
      ≡ elem tier tiers
any_tier leading tiers tier =
    any_bound-append (tier_value tier) leading (map tier_value tiers) []
    ∙ elem-map-tier_value tier tiers

and_true : (b : Bool) → (b && true) ≡ b
and_true true = refl
and_true false = refl

abbrev Matched : AccessConstraint → List Bound → Text → AccessTier → Type 0
Matched constraint leading tenant tier =
    matches (leading ++ map texts (constraint_clause constraint (suc (length leading))).parameters)
      tenant (tier_value tier) (constraint_clause constraint (suc (length leading))).conditions
    ≡ admits constraint tenant tier

by_dimensions :
    (tenants : Option (List Text)) (tiers : Option (List AccessTier)) (leading : List Bound)
    (tenant : Text) (tier : AccessTier)
    → Matched (record { tenant_ids = tenants; access_tiers = tiers }) leading tenant tier
unfolding constraint_clause matches admits elem
by_dimensions none none leading tenant tier = refl
by_dimensions none (some []) leading tenant tier = refl
by_dimensions none (some (x ∷ xs)) leading tenant tier =
    ap (λ b. b && true) (any_tier leading (x ∷ xs) tier) ∙ and_true _
by_dimensions (some []) none leading tenant tier = refl
by_dimensions (some []) (some []) leading tenant tier = refl
by_dimensions (some []) (some (x ∷ xs)) leading tenant tier = refl
by_dimensions (some (v ∷ vs)) none leading tenant tier =
    ap (λ b. b && true) (any_bound-append tenant leading (v ∷ vs) [])
by_dimensions (some (v ∷ vs)) (some []) leading tenant tier =
    ap (λ b. b && false) (any_bound-append tenant leading (v ∷ vs) [])
by_dimensions (some (v ∷ vs)) (some (x ∷ xs)) leading tenant tier = cc (
  any_bound-append tenant leading (v ∷ vs) (texts (map tier_value (x ∷ xs)) ∷ []),
  any_bound-append_second (tier_value tier) leading (v ∷ vs) (map tier_value (x ∷ xs)),
  elem-map-tier_value tier (x ∷ xs),
  and_true (elem tier (x ∷ xs)),
)

-- The clause, with its parameters bound behind any leading values, is true of a row just when the
-- constraint admits the labels of the row.
pub constraint_clause-matches :
    (constraint : AccessConstraint) (leading : List Bound) (tenant : Text) (tier : AccessTier)
    → matches
        (leading ++ map texts (constraint_clause constraint (suc (length leading))).parameters)
        tenant
        (tier_value tier)
        (constraint_clause constraint (suc (length leading))).conditions
      ≡ admits constraint tenant tier
constraint_clause-matches constraint = by_dimensions constraint.tenant_ids constraint.access_tiers
