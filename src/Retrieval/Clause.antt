-- ===== src/Retrieval/Clause.antt =====
-- src/adapters/retriever/postgres_hybrid.py, `_constraint_clause`, and the value of the predicate
-- that it writes into each WHERE.
pub mod Matching
use ai_system_engineering_cu.Base.{
  ℕ, zero, suc, ◌+◌, Bool, true, false, ◌&&◌, Option, none, some, List, [], ◌∷◌, ◌++◌, map, Text,
  elem, text_eq,
}
use ai_system_engineering_cu.Domain.Access.{AccessTier, AccessConstraint, tier_value}

pub data Column : Type 0 where
  tenant_id access_tier : Column

-- `false`, and `column = ANY($n::text[])`.
pub data Condition : Type 0 where
  never : Condition
  equals_any : Column → ℕ → Condition

-- The state of the loop over the dimensions.
pub record Clause : Type 0 where
  pub conditions : List Condition
  pub parameters : List (List Text)
  pub placeholder : ℕ

unfoldable pub add_dimension : Column → Option (List Text) → Clause → Clause
add_dimension column none clause = clause
add_dimension column (some []) clause = record clause {
  conditions = clause.conditions ++ never ∷ [];
}
add_dimension column (some (value ∷ values)) clause = record {
  conditions = clause.conditions ++ equals_any column clause.placeholder ∷ [];
  parameters = clause.parameters ++ (value ∷ values) ∷ [];
  placeholder = suc clause.placeholder;
}

abbrev pub tier_values : Option (List AccessTier) → Option (List Text)
tier_values none = none
tier_values (some tiers) = some (map tier_value tiers)

-- The conditions are joined by AND; none at all is `true`.
unfoldable pub constraint_clause : AccessConstraint → ℕ → Clause
unfolding add_dimension
constraint_clause constraint first_placeholder =
    add_dimension access_tier (tier_values constraint.access_tiers) (
      add_dimension tenant_id constraint.tenant_ids
        (record { conditions = []; parameters = []; placeholder = first_placeholder }))

-- A value bound to a placeholder.
pub data Bound : Type 0 where
  scalar : Text → Bound
  texts : List Text → Bound

-- `value = ANY(bound)`, when `$n` has the bound value.
unfoldable pub any_bound : Text → List Bound → ℕ → Bool
any_bound value (texts values ∷ bound) (suc zero) = elem value values
any_bound value (b ∷ bound) (suc (suc n)) = any_bound value bound (suc n)
any_bound value _ _ = false

-- One condition on a row with these two labels.
unfoldable pub holds : List Bound → Text → Text → Condition → Bool
unfolding any_bound
holds bound tenant tier never = false
holds bound tenant tier (equals_any tenant_id n) = any_bound tenant bound n
holds bound tenant tier (equals_any access_tier n) = any_bound tier bound n

-- The whole predicate.
unfoldable pub matches : List Bound → Text → Text → List Condition → Bool
unfolding holds
matches bound tenant tier [] = true
matches bound tenant tier (condition ∷ conditions) =
    holds bound tenant tier condition && matches bound tenant tier conditions
