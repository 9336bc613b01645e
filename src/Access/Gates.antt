-- ===== src/Access/Gates.antt =====
-- src/engine/plan.rs and src/execute/runtime.rs: the checks of a plan against the roles of a user. The
-- plan that a query has without them is an argument. Where the source panics on an unknown id, the
-- result is `none`.
pub mod Reading
use mallard_cube.Prelude.{
  Bool, true, false, Option, none, some, List, [], ◌∷◌, ◌++◌, map, if◌then◌else◌, first_where, Text,
}
use mallard_cube.Access.Config.{ModelPermission, permission_eq, ProxyConfig}
use mallard_cube.Access.Users.{UserContext, effective_model_permission}
use mallard_cube.Access.Tables.{effective_table_filter, is_hidden}
use mallard_cube.Engine.Model.{
  SemanticModel, fact_table_for_measure, dim_def_opt, dim_table_for_discovery,
}
use mallard_cube.Engine.Plan.{
  TypedDimensionFilter, TupleCell, QueryPlan, total, group_by, multi_measure, tuple_set,
  multi_group_by, count, meta_count, meta_count_literal, measures_list, set_members, empty,
}

module _ {I : Type 0} where
  unfoldable pub cell_measures : List (TupleCell I) → List Text
  cell_measures cells = map (λ c. c.measure) cells

  unfoldable pub filter_dimensions : List (TypedDimensionFilter I) → List Text
  filter_dimensions fs = map (λ f. f.dimension) fs

  unfoldable pub cell_dimensions : List (TupleCell I) → List Text
  unfolding filter_dimensions
  cell_dimensions [] = []
  cell_dimensions (c ∷ cells) = filter_dimensions c.filters ++ cell_dimensions cells

module _ {F I : Type 0} where
  unfoldable pub plan_dimensions : QueryPlan F I → List Text
  unfolding filter_dimensions cell_dimensions
  plan_dimensions (total m fs) = filter_dimensions fs
  plan_dimensions (multi_measure ms fs) = filter_dimensions fs
  plan_dimensions (group_by m ds fs ls op) = ds ++ filter_dimensions fs
  plan_dimensions (multi_group_by ms ds fs ls) = ds ++ filter_dimensions fs
  plan_dimensions (count d) = d ∷ []
  plan_dimensions (meta_count d l fs) = d ∷ []
  plan_dimensions (tuple_set cells) = cell_dimensions cells
  plan_dimensions (measures_list m) = []
  plan_dimensions (meta_count_literal n) = []
  plan_dimensions (set_members d l m fs) = []
  plan_dimensions empty = []

  unfoldable pub plan_measures : QueryPlan F I → List Text
  unfolding cell_measures
  plan_measures (total m fs) = m ∷ []
  plan_measures (group_by m ds fs ls op) = m ∷ []
  plan_measures (multi_measure ms fs) = ms
  plan_measures (multi_group_by ms ds fs ls) = ms
  plan_measures (tuple_set cells) = cell_measures cells
  plan_measures (count d) = []
  plan_measures (meta_count d l fs) = []
  plan_measures (meta_count_literal n) = []
  plan_measures (measures_list m) = []
  plan_measures (set_members d l m fs) = []
  plan_measures empty = []

unfoldable pub hides : ProxyConfig → UserContext → Text → Bool
unfolding is_hidden effective_table_filter
hides config user table = is_hidden (effective_table_filter config user table)

module _ (config : ProxyConfig) (user : UserContext) (model : SemanticModel) where
  unfoldable pub measure_hidden : Text → Option Bool
  unfolding hides fact_table_for_measure
  measure_hidden measure = elim (fact_table_for_measure model measure) [
    | none ↦ none
    | some fact ↦ some (hides config user fact.table_name)
  ]

  -- The loop over measures returns at the first hidden one.
  unfoldable pub measures_hidden : List Text → Option Bool
  unfolding measure_hidden
  measures_hidden [] = some false
  measures_hidden (m ∷ ms) = elim (measure_hidden m) [
    | none ↦ none
    | some true ↦ some true
    | some false ↦ measures_hidden ms
  ]

  unfoldable pub dimension_hidden : Text → Option Bool
  unfolding hides dim_table_for_discovery
  dimension_hidden dim = elim (dim_table_for_discovery model dim) [
    | none ↦ none
    | some table ↦ some (hides config user table)
  ]

  -- Is the dimension one of the model, on a hidden table? A model has a fact table, so the look-up by
  -- the id that was found does not panic.
  unfoldable pub known_hidden : Text → Bool
  unfolding dim_def_opt dimension_hidden
  known_hidden dim = elim (dim_def_opt model dim) [
    | none ↦ false
    | some d ↦ elim (dimension_hidden d.id) [ some b ↦ b | none ↦ false ]
  ]

  module _ {F I : Type 0} where
    -- The second gate: does the plan read a hidden table?
    unfoldable pub reads_hidden : QueryPlan F I → Option Bool
    unfolding measure_hidden measures_hidden dimension_hidden cell_measures
    reads_hidden (total m fs) = measure_hidden m
    reads_hidden (group_by m ds fs ls op) = measure_hidden m
    reads_hidden (multi_measure ms fs) = measures_hidden ms
    reads_hidden (multi_group_by ms ds fs ls) = measures_hidden ms
    reads_hidden (tuple_set cells) = measures_hidden (cell_measures cells)
    reads_hidden (measures_list m) = some false
    reads_hidden (count d) = dimension_hidden d
    reads_hidden (set_members d l m fs) = dimension_hidden d
    reads_hidden (meta_count d l fs) = dimension_hidden d
    reads_hidden (meta_count_literal n) = some false
    reads_hidden empty = some false

    -- `plan_from_semantic_with_model_and_context`, of the plan without roles.
    unfoldable pub plan_with_context : QueryPlan F I → Option (QueryPlan F I)
    unfolding effective_model_permission permission_eq reads_hidden
    plan_with_context plan =
        if permission_eq (effective_model_permission config user) ModelPermission.none
        then some empty
        else elim (reads_hidden plan) [
          | none ↦ none
          | some true ↦ some empty
          | some false ↦ some plan
        ]

    unfoldable pub plan_hidden_dimension : QueryPlan F I → Option Text
    unfolding plan_dimensions known_hidden
    plan_hidden_dimension plan = first_where known_hidden (plan_dimensions plan)
