-- ===== src/Engine/Sql/Routing.antt =====
-- src/engine/sql.rs: is a plan answered from a roll-up, and under which predicates?
pub mod Honoured
pub mod Lost
use mallard_cube.Prelude.{Option, none, some, List, [], ◌∷◌, ◌++◌, map, Text}
use mallard_cube.Access.Config.{ProxyConfig}
use mallard_cube.Access.Users.{UserContext}
use mallard_cube.Access.Tables.{TableAccess, full, filtered, hidden, effective_table_filter}
use mallard_cube.Engine.Model.{SemanticModel}
use mallard_cube.Engine.Plan.{QueryPlan}
use mallard_cube.Engine.Aggregate.{Aggregation, agg_for_plan_with}
use mallard_cube.Engine.Sql.Rewrite.{rewrite_predicate_for_rollup}

-- One more rewritten predicate. The outer `none` is a panic, the inner one a refusal.
unfoldable pub with_predicate :
    Option (Option Text) → Option (Option (List Text)) → Option (Option (List Text))
with_predicate none later = none
with_predicate (some none) later = some none
with_predicate (some (some p)) none = none
with_predicate (some (some p)) (some none) = some none
with_predicate (some (some p)) (some (some ps)) = some (some (p ∷ ps))

-- The fact tables first, then the tables of the relationships.
unfoldable pub role_tables : SemanticModel → List Text
role_tables model =
    map (λ t. t.table_name) model.fact_tables ++ map (λ r. r.dim_table) model.relationships

module _ (model : SemanticModel) (user : UserContext) (config : ProxyConfig)
    (agg : Aggregation) where
  unfoldable pub with_access :
      TableAccess → Option (Option (List Text)) → Option (Option (List Text))
  unfolding with_predicate rewrite_predicate_for_rollup
  with_access (filtered sql) later =
      with_predicate (rewrite_predicate_for_rollup model agg sql) later
  with_access full later = later
  with_access hidden later = later

  unfoldable pub table_predicates : List Text → Option (Option (List Text))
  unfolding with_access effective_table_filter
  table_predicates [] = some (some [])
  table_predicates (t ∷ ts) =
      with_access (effective_table_filter config user t) (table_predicates ts)

  unfoldable pub rollup_role_predicates : Option (Option (List Text))
  unfolding table_predicates role_tables
  rollup_role_predicates = table_predicates (role_tables model)

unfoldable pub route_to :
    Aggregation → Option (Option (List Text)) → Option (Option (Aggregation × List Text))
route_to agg none = none
route_to agg (some none) = some none
route_to agg (some (some ps)) = some (some (agg, ps))

module _ {F I : Type 0} where
  unfoldable pub route_plan :
      SemanticModel
      → List Aggregation
      → QueryPlan F I
      → UserContext
      → ProxyConfig
      → Option (Option (Aggregation × List Text))
  unfolding agg_for_plan_with rollup_role_predicates route_to
  route_plan model aggs plan user config = elim (agg_for_plan_with model aggs plan) [
    | none ↦ some none
    | some agg ↦ route_to agg (rollup_role_predicates model user config agg)
  ]
