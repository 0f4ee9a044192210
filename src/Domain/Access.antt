-- ===== src/Domain/Access.antt =====
-- src/domain/contracts.py (labels and callers), src/domain/access.py, the rule `readable` of
-- src/domain/repositories.py and the tenant boundary of src/domain/tenant_authorization.py.
use ai_system_engineering_cu.Base.{
  ◌≡◌, ◌↔◌, Bool, true, false, not, ◌&&◌, ◌||◌, Option, none, some, List, [], ◌∷◌, Text, arith,
  literal, Equality, nat_eq, ◌==◌, text_eq, if◌then◌else◌, is_stripped,
}
use ai_system_engineering_cu.Domain.Validation.{is_slug}

pub data AccessTier : Type 0 where
  standard restricted : AccessTier

abbrev pub tier_beq : AccessTier → AccessTier → Bool
tier_beq standard standard = true
tier_beq restricted restricted = true
tier_beq _ _ = false

pub tier_beq_iff : (a b : AccessTier) → (tier_beq a b ≡ true) ↔ (a ≡ b)
tier_beq_iff a b = (λ h. ground arith, λ h. ground arith)

instance abbrev pub tier_eq : Equality AccessTier
tier_eq = record { equal = tier_beq; equal_iff = tier_beq_iff }

-- `tier.value`
abbrev pub tier_value : AccessTier → Text
tier_value standard = literal "standard"
tier_value restricted = literal "restricted"

-- `AccessTier(value)`; `none` is its `ValueError`.
unfoldable pub access_tier_of : Text → Option AccessTier
access_tier_of value =
    if value == literal "standard"
    then some standard
    else if value == literal "restricted"
    then some restricted
    else none

pub record AccessLabel : Type 0 where
  pub tenant_id : Text
  pub access_tier : AccessTier

-- Building a label validates it.
unfoldable pub access_label : Text → AccessTier → Option AccessLabel
access_label tenant_id access_tier =
    if is_slug 80 tenant_id
    then some (record { tenant_id = tenant_id; access_tier = access_tier })
    else none

pub record AuthorizationContext : Type 0 where
  pub tenant_id : Text
  pub clearance : AccessTier

unfoldable pub authorization_context : Text → AccessTier → Option AuthorizationContext
authorization_context tenant_id clearance =
    if is_slug 80 tenant_id
    then some (record { tenant_id = tenant_id; clearance = clearance })
    else none

-- The tenancies and the tiers that a query may read; `none` restricts nothing.
pub record AccessConstraint : Type 0 where
  pub tenant_ids : Option (List Text)
  pub access_tiers : Option (List AccessTier)

-- `not value or value != value.strip()` of no value.
unfoldable pub are_usable : List Text → Bool
are_usable [] = true
are_usable (value ∷ values) = not (value == []) && is_stripped value && are_usable values

-- `AccessConstraint(…)` with its validator `validate_values`.
unfoldable pub access_constraint :
    Option (List Text) → Option (List AccessTier) → Option AccessConstraint
unfolding are_usable
access_constraint none access_tiers =
    some (record { tenant_ids = none; access_tiers = access_tiers })
access_constraint (some values) access_tiers =
    if are_usable values
    then some (record { tenant_ids = some values; access_tiers = access_tiers })
    else none

unfoldable pub is_given : {A : Type 0} → Option A → Bool
is_given none = false
is_given (some values) = true

unfoldable pub restricts : AccessConstraint → Bool
unfolding is_given
restricts constraint = is_given constraint.tenant_ids || is_given constraint.access_tiers

unfoldable pub is_empty : {A : Type 0} → Option (List A) → Bool
is_empty (some []) = true
is_empty _ = false

unfoldable pub denies_everything : AccessConstraint → Bool
unfolding is_empty
denies_everything constraint = is_empty constraint.tenant_ids || is_empty constraint.access_tiers

-- A provider of constraints; `none` is a `ValidationError`.
abbrev pub Provider : Type 0
Provider = AuthorizationContext → Option AccessConstraint

-- `UnrestrictedAccessConstraints.constrain`
unfoldable pub unrestricted : Provider
unfolding access_constraint
unrestricted authorization = access_constraint none none

-- `TenantBoundaryAccessConstraints.constrain`
unfoldable pub tenant_boundary : Provider
unfolding access_constraint
tenant_boundary authorization = access_constraint (some (authorization.tenant_id ∷ [])) none

unfoldable pub readable : AuthorizationContext → Text → AccessTier → Bool
readable scope tenant_id access_tier =
    if not (tenant_id == scope.tenant_id)
    then false
    else access_tier == standard || scope.clearance == restricted
