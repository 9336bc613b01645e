-- ===== src/Tests/Plans.antt =====
-- src/engine and src/execute/runtime.rs: a model with one fact table, a date dimension with two
-- levels and a flat dimension.
use mallard_cube.Prelude.{
  trim, ℕ, ◌≡◌, refl, ◌≢◌, ◌⊎◌, true, false, Option, none, some, List, [], ◌∷◌, Text, codes,
  text_eq, eq_ignore_case,
}
use mallard_cube.Access.Config.{ModelPermission, ProxyConfig}
use mallard_cube.Access.Users.{UserContext, effective_model_permission, holds}
use mallard_cube.Access.Tables.{effective_table_filter}
use mallard_cube.Access.Gates.{
  dimension_hidden, measure_hidden, plan_with_context, plan_hidden_dimension,
}
use mallard_cube.Access.Gates.Reading.{Visible, plan_with_context-Visible}
use mallard_cube.Access.Restrictions.{restricted_to, refused, drillthrough_row_predicate}
use mallard_cube.Access.Restrictions.Drilling.{Exact, drillthrough_row_predicate-Exact}
use mallard_cube.Engine.Model.{
  dim_table_for_discovery, LevelDef, DimensionDef, MeasureDef, SemanticModel, primary_table_name,
}
use mallard_cube.Engine.Plan.{QueryPlan, group_by, empty}

abbrev level : Text → ℕ → LevelDef
level name n = record { name = name; column = name; level_number = n; cardinality = 3 }

abbrev pub dimension : Text → Option Text → List LevelDef → DimensionDef
dimension id table levels = record {
  id = id;
  physical_field = id;
  table_name = table;
  shared = true;
  caption = id;
  visible = true;
  ordinal = 1;
  hierarchy_name = id;
  all_level_name = codes "(All)";
  leaf_level_name = id;
  cardinality_hint = 3;
  is_date_role = false;
  levels = levels;
}

abbrev revenue : MeasureDef
revenue = record {
  id = codes "Revenue";
  fact_table_idx = 0;
  sql_expr = codes "SUM(f.revenue)";
  caption = codes "Revenue";
  display_name = codes "Revenue";
  visible = true;
  sql_fallback_sql = none;
  time_flag = none;
  date_dimension_id = none;
  fallback_capability = none;
}

abbrev pub cube : SemanticModel
cube = record {
  fact_tables =
      record {
        id = codes "f1";
        source_name = codes "db";
        table_name = codes "sales";
        measure_group_name = codes "Sales";
      }
      ∷ [];
  dimensions =
      dimension (codes "Date") none (level (codes "year") 1 ∷ level (codes "day") 2 ∷ [])
      ∷ dimension (codes "Region") none []
      ∷ [];
  measures = revenue ∷ [];
  relationships =
      record {
        fact_table_id = codes "f1";
        fact_column = codes "date_key";
        dimension_id = codes "Date";
        dim_table = codes "dates";
        dim_column = codes "date_key";
      }
      ∷ [];
  date_dim = none;
  date_dims = [];
}

-- One role, with a filter on the fact table.
abbrev pub config : ProxyConfig
config = record {
  auth = none;
  roles =
      record {
        name = codes "EU";
        description = [];
        model_permission = ModelPermission.read;
        members = [];
        table_permissions =
            record {
              table = codes "sales";
              filter_expression = codes "Region = 'EU'";
              dax_filter = none;
              metadata_permission = ModelPermission.read;
            }
            ∷ [];
      }
      ∷ [];
}

abbrev pub ann : UserContext
ann = record {
  user_id = codes "ann";
  groups = [];
  roles = codes "EU" ∷ [];
  is_administrator = false;
}

-- Neither floating-point nor signed numbers are needed here.
abbrev by_region : QueryPlan (Unit {0}) (Unit {0})
by_region = group_by (codes "Revenue") (codes "Region" ∷ []) [] (none ∷ []) none

plan_with_context-Visible_example :
    (by_region ≡ empty)
    ⊎ ((by_region ≡ by_region)
        × (effective_model_permission config ann ≢ ModelPermission.none)
        × Visible config ann cube by_region)
plan_with_context-Visible_example =
    plan_with_context-Visible config ann cube by_region by_region
      (unfold plan_with_context effective_model_permission holds text_eq measure_hidden
          effective_table_filter eq_ignore_case trim in
        refl)
      (unfold plan_hidden_dimension text_eq dimension_hidden dim_table_for_discovery
          effective_table_filter holds eq_ignore_case trim in
        refl)

drilled_rows :
    drillthrough_row_predicate config ann cube ≡ some (restricted_to (codes "Region = 'EU'"))
unfolding drillthrough_row_predicate text_eq effective_table_filter holds eq_ignore_case trim
    primary_table_name
drilled_rows = refl

drillthrough_row_predicate-Exact_example :
    (restricted_to (codes "Region = 'EU'") ≡ refused)
    ⊎ Exact config ann cube (codes "sales") (restricted_to (codes "Region = 'EU'"))
drillthrough_row_predicate-Exact_example =
    drillthrough_row_predicate-Exact config ann cube (codes "sales")
      (restricted_to (codes "Region = 'EU'")) refl (unfold primary_table_name in refl) drilled_rows
