-- ===== src/Retrieval/Policy/Readable.antt =====
-- The composed policy and the rule `readable`.
use ai_system_engineering_cu.Base.{
  ℕ, ◌≡◌, refl, ap, inl, inr, Bool, true, false, ◌&&◌, ◌||◌, Option, none, some, List, [], ◌∷◌,
  Text, arith, elem, Equality, ◌==◌, text_eq, text_beq, nat_eq, Bool-cases, text_beq_iff, is_space,
  is_stripped, ends_stripped,
}
use ai_system_engineering_cu.Domain.Validation.{is_slug, is_slug_head, is_slug_tail}
use ai_system_engineering_cu.Domain.Access.{
  AccessTier, standard, restricted, tier_eq, AuthorizationContext, AccessConstraint, are_usable,
  access_constraint, Provider, readable,
}
use ai_system_engineering_cu.Domain.Access as Access
use ai_system_engineering_cu.Retrieval.Policy.{
  FilterType, tenant_boundary, role_classification, tiers_of, in_dimension, kept, composed,
  constrain, admits,
}

slug_head_no_space : (c : ℕ) → is_slug_head c ≡ true → is_space c ≡ false
unfolding is_slug_head is_space
slug_head_no_space c h = ground arith

slug_char_no_space : (c : ℕ) → (is_slug_head c || c == b'-') ≡ true → is_space c ≡ false
unfolding is_slug_head is_space
slug_char_no_space c h = ground arith

slug_tail-ends_stripped : (s : Text) → is_slug_tail s ≡ true → ends_stripped s ≡ true
unfolding is_slug_tail ends_stripped
slug_tail-ends_stripped [] h = refl
slug_tail-ends_stripped (c ∷ []) h = ground (arith, slug_char_no_space c)
slug_tail-ends_stripped (c ∷ d ∷ s) h = ground (arith, slug_tail-ends_stripped (d ∷ s))

slug-usable : (n : ℕ) (s : Text) → is_slug n s ≡ true → are_usable (s ∷ []) ≡ true
unfolding are_usable is_slug is_stripped ends_stripped is_slug_tail text_beq
slug-usable n [] h = ground arith
slug-usable n (c ∷ []) h = ground (arith, slug_head_no_space c)
slug-usable n (c ∷ d ∷ s) h = ground (arith, slug_head_no_space c, slug_tail-ends_stripped (d ∷ s))

-- What the mechanism that was not selected contributes.
unfoldable pub complement : FilterType → AuthorizationContext → Text → AccessTier → Bool
complement tenant_boundary authorization tenant tier =
    tier == standard || authorization.clearance == restricted
complement role_classification authorization tenant tier = tenant == authorization.tenant_id

elem-tiers_of :
    (clearance tier : AccessTier)
    → elem tier (tiers_of clearance) ≡ (tier == standard || clearance == restricted)
unfolding elem tiers_of
elem-tiers_of standard standard = refl
elem-tiers_of standard restricted = refl
elem-tiers_of restricted standard = refl
elem-tiers_of restricted restricted = refl

module _ {A : Type 0} ⦃e : Equality A⦄ where
  elem-kept :
      (dimension : Option (List A)) (values : List A) (value : A)
      → elem value (kept dimension values) ≡ (in_dimension dimension value && elem value values)
  unfolding kept elem
  elem-kept dimension [] value = ground arith
  elem-kept dimension (x ∷ xs) value = elim (Bool-cases (x == value)) [
    | inl same ↦ ground (
      arith,
      elem-kept dimension xs value,
      same,
      ap (in_dimension dimension) ((e.equal_iff x value).0 same),
    )
    | inr other ↦ ground (arith, elem-kept dimension xs value, other)
  ]

kept-usable :
    (dimension : Option (List Text)) (tenant : Text)
    → are_usable (tenant ∷ []) ≡ true
    → are_usable (kept dimension (tenant ∷ [])) ≡ true
unfolding kept are_usable
kept-usable dimension tenant h = ground (arith, h)

-- A constraint that passed its validator.
abbrev IsValidated : AccessConstraint → Type 0
IsValidated constraint =
    access_constraint constraint.tenant_ids constraint.access_tiers ≡ some constraint

revalidated :
    (tenants : Option (List Text)) (tiers tiers' : Option (List AccessTier)) (c : AccessConstraint)
    → access_constraint tenants tiers ≡ some c
    → access_constraint tenants tiers'
      ≡ some (record { tenant_ids = tenants; access_tiers = tiers' })
unfolding access_constraint
revalidated none tiers tiers' c h = refl
revalidated (some values) tiers tiers' c h = elim (Bool-cases (are_usable values)) [
  | inl usable ↦ rw usable refl
  | inr blank ↦ cc
]

usable_constraint :
    (values : List Text) (tiers : Option (List AccessTier))
    → are_usable values ≡ true
    → access_constraint (some values) tiers
      ≡ some (record { tenant_ids = some values; access_tiers = tiers })
unfolding access_constraint
usable_constraint values tiers h = rw h refl

same_text : (a b : Text) → (a == b) ≡ (b == a)
same_text a b = ground (arith, text_beq_iff a b, text_beq_iff b a)

-- A constraint admits a label exactly if `allowed` says so.
abbrev pub AdmitsAs : Option AccessConstraint → (Text → AccessTier → Bool) → Type 0
AdmitsAs o allowed =
    (c : AccessConstraint) × (o ≡ some c)
    × ((tenant : Text) (tier : AccessTier) → admits c tenant tier ≡ allowed tenant tier)

module _ (authorization : AuthorizationContext)
    (named : is_slug 80 authorization.tenant_id ≡ true) where
  composed-admits :
      (filter : FilterType) (constraint : AccessConstraint)
      → IsValidated constraint
      → AdmitsAs (composed filter authorization constraint) (λ tenant tier.
        admits constraint tenant tier && complement filter authorization tenant tier)
  unfolding composed admits complement elem
  composed-admits tenant_boundary constraint valid = (
    record {
      tenant_ids = constraint.tenant_ids;
      access_tiers = some (kept constraint.access_tiers (tiers_of authorization.clearance));
    },
    revalidated constraint.tenant_ids _ _ _ valid,
    λ tenant tier. ground (
      arith,
      elem-kept constraint.access_tiers (tiers_of authorization.clearance) tier,
      elem-tiers_of authorization.clearance tier,
    ),
  )
  composed-admits role_classification constraint valid = (
    record {
      tenant_ids = some (kept constraint.tenant_ids (authorization.tenant_id ∷ []));
      access_tiers = constraint.access_tiers;
    },
    usable_constraint _ _ (
        kept-usable constraint.tenant_ids authorization.tenant_id
          (slug-usable 80 authorization.tenant_id named)),
    λ tenant tier. ground (
      arith,
      elem-kept constraint.tenant_ids (authorization.tenant_id ∷ []) tenant,
      same_text authorization.tenant_id tenant,
    ),
  )

  -- Whatever mechanism is selected, for a caller with a valid tenant identifier: if it yields a
  -- constraint that passed its validator, the composition yields one that admits a label if and
  -- only if the selected one does and the complement does.
  pub constrain-admits :
      (selected : Provider) (filter : FilterType) (constraint : AccessConstraint)
      → selected authorization ≡ some constraint
      → IsValidated constraint
      → AdmitsAs (constrain selected filter authorization) (λ tenant tier.
        admits constraint tenant tier && complement filter authorization tenant tier)
  unfolding constrain
  constrain-admits selected filter constraint given valid =
      rw given (composed-admits filter constraint valid)

  -- The composition of the tenant boundary with its complement lets a caller with a valid tenant
  -- identifier read exactly what readable lets it read.
  pub constrain-readable :
      AdmitsAs
        (constrain Access.tenant_boundary tenant_boundary authorization)
        (readable authorization)
  unfolding Access.tenant_boundary readable admits complement elem
  constrain-readable =
      let own = usable_constraint _ none (slug-usable 80 authorization.tenant_id named) in
      let (c, made, admitted) =
        constrain-admits Access.tenant_boundary tenant_boundary
          (record { tenant_ids = some (authorization.tenant_id ∷ []); access_tiers = none }) own
          own in
      (
        c,
        made,
        λ tenant tier.
            ground (arith, admitted tenant tier, same_text authorization.tenant_id tenant),
      )
