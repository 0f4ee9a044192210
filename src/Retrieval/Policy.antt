-- ===== src/Retrieval/Policy.antt =====
-- src/api/access_policy.py: a selected constraint and its complement.
pub mod Readable
use ai_system_engineering_cu.Base.{
  Bool, true, false, ◌&&◌, Option, none, some, List, [], ◌∷◌, Text, literal, elem, Equality, ◌==◌,
  text_eq, if◌then◌else◌,
}
use ai_system_engineering_cu.Domain.Access.{
  AccessTier, standard, restricted, tier_eq, AuthorizationContext, AccessConstraint,
  access_constraint, Provider,
}

pub data FilterType : Type 0 where
  tenant_boundary role_classification : FilterType

-- `ComposedAccessConstraints.__init__`; `none` is its `ValueError`.
unfoldable pub filter_type : Text → Option FilterType
filter_type selected_filter_type =
    if selected_filter_type == literal "tenant_boundary"
    then some tenant_boundary
    else if selected_filter_type == literal "role_classification"
    then some role_classification
    else none

unfoldable pub tiers_of : AccessTier → List AccessTier
tiers_of clearance = if clearance == restricted then standard ∷ restricted ∷ [] else standard ∷ []

-- `constraint is None or value in constraint`
unfoldable pub in_dimension : {A : Type 0} ⦃e : Equality A⦄ → Option (List A) → A → Bool
in_dimension none value = true
in_dimension (some values) value = elem value values

-- The values that the selected dimension keeps.
unfoldable pub kept : {A : Type 0} ⦃e : Equality A⦄ → Option (List A) → List A → List A
unfolding in_dimension
kept dimension [] = []
kept dimension (value ∷ values) =
    let rest = kept dimension values in if in_dimension dimension value then value ∷ rest else rest

-- The intersection with what the selected mechanism leaves open.
unfoldable pub composed :
    FilterType → AuthorizationContext → AccessConstraint → Option AccessConstraint
unfolding tiers_of kept access_constraint
composed tenant_boundary authorization constraint =
    access_constraint constraint.tenant_ids
      (some (kept constraint.access_tiers (tiers_of authorization.clearance)))
composed role_classification authorization constraint =
    access_constraint (some (kept constraint.tenant_ids (authorization.tenant_id ∷ [])))
      constraint.access_tiers

composed_from :
    FilterType → AuthorizationContext → Option AccessConstraint → Option AccessConstraint
unfolding composed
composed_from selected_filter_type authorization none = none
composed_from selected_filter_type authorization (some constraint) =
    composed selected_filter_type authorization constraint

-- `ComposedAccessConstraints.constrain`
unfoldable pub constrain : Provider → FilterType → Provider
unfolding composed_from
constrain selected selected_filter_type authorization =
    composed_from selected_filter_type authorization (selected authorization)

-- What a constraint lets through: both dimensions admit the label.
unfoldable pub admits : AccessConstraint → Text → AccessTier → Bool
unfolding in_dimension
admits constraint tenant_id access_tier =
    in_dimension constraint.tenant_ids tenant_id && in_dimension constraint.access_tiers access_tier
