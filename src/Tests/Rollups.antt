-- ===== src/Tests/Rollups.antt =====
-- src/engine/aggregate.rs and src/engine/sql.rs: the one roll-up of the small model.
use mallard_cube.Mdx.Parser.{join}
use mallard_cube.Prelude.{
  strip, trim, ◌≡◌, refl, Bool, true, none, some, [], ◌∷◌, ◌++◌, ◌==◌, any, All, Text, codes,
  text_eq, to_lower, eq_ignore_case,
}
use mallard_cube.Access.Tables.{combined, effective_table_filter}
use mallard_cube.Access.Users.{holds}
use mallard_cube.Engine.Plan.{TypedDimensionFilter, QueryPlan, group_by}
use mallard_cube.Engine.Aggregate.{
  has_column, Aggregation, agg_for_plan_with, answers, design_aggregations, measure_base_column,
  covers_filter,
}
use mallard_cube.Mdx.Parser.Statement.{split}
use mallard_cube.Engine.Aggregate.Cover.{Has}
use mallard_cube.Engine.Aggregate.Design.{IsCoarsest, agg_for_plan_with-IsCoarsest}
use mallard_cube.Engine.Aggregate.Additive.{IsDesigned, design_aggregations-IsDesigned}
use mallard_cube.Engine.Aggregate.Grain.{agg_for_plan_with-leaves}
use mallard_cube.Engine.Sql.{agg_where, agg_total_sql, filter_part}
use mallard_cube.Engine.Sql.Rewrite.{rewrite_predicate_for_rollup, scan_predicate}
use mallard_cube.Engine.Sql.Rewrite.Pieces.{Rewritten}
use mallard_cube.Engine.Sql.Rewrite.Accepted.{rewrite_predicate_for_rollup-Rewritten}
use mallard_cube.Engine.Sql.Rewrite.Unaliased.{scan_predicate_unaliased}
use mallard_cube.Engine.Sql.Routing.{route_plan, role_tables}
use mallard_cube.Engine.Sql.Routing.Honoured.{AllHonoured, route_plan-Honoured}
use mallard_cube.Engine.Sql.Routing.Lost.{bare, agg_total_sql-no_members, agg_where-unbracketed}
use mallard_cube.Engine.Model.{DimensionDef, dim_def}
use mallard_cube.Engine.Sql.Rewrite.Pieces.{Rewritten}
use mallard_cube.Engine.Sql.Rewrite.Accepted.{rewrite_predicate_for_rollup-Rewritten}
use mallard_cube.Tests.Plans.{dimension, cube, config, ann}

abbrev by_year : Aggregation
by_year = record {
  table = codes "agg_year";
  date_dim_id = codes "Date";
  date_level = 0;
  date_columns = codes "year" ∷ [];
  leaf_columns = (codes "Region", codes "Region") ∷ [];
  measure_columns = (codes "Revenue", codes "revenue") ∷ [];
}

designed : design_aggregations (λ s. s) cube ≡ by_year ∷ []
unfolding design_aggregations text_eq measure_base_column split strip trim
designed = refl

design_aggregations-IsDesigned_example :
    All (IsDesigned (λ s. s) cube) (design_aggregations (λ s. s) cube)
design_aggregations-IsDesigned_example = design_aggregations-IsDesigned (λ s. s) cube

-- A plan by year, and one filter with a range of years.
abbrev years : QueryPlan (Unit {0}) (Unit {0})
years = group_by (codes "Revenue") (codes "Date" ∷ []) [] (some 0 ∷ []) none

abbrev range_of_years : TypedDimensionFilter (Unit {0})
range_of_years = record {
  dimension = codes "Date";
  members = [];
  level = some (codes "year");
  time_flag = none;
  range = some (codes "2020", codes "2021");
  date_window = none;
  label = none;
}

abbrev one_region : TypedDimensionFilter (Unit {0})
one_region = record range_of_years {
  dimension = codes "Region";
  members = codes "EU" ∷ [];
  level = none;
  range = none;
}

agg_for_plan_with-IsCoarsest_example :
    Has {I = Unit {0}} cube (codes "Revenue") (codes "Date" ∷ []) 0 [] by_year
    × IsCoarsest
        (answers {I = Unit {0}} cube (codes "Revenue") (codes "Date" ∷ []) 0 [])
        by_year
        (design_aggregations (λ s. s) cube)
agg_for_plan_with-IsCoarsest_example =
    agg_for_plan_with-IsCoarsest {F = Unit {0}} (λ s. s) cube (codes "Revenue") (codes "Date") [] []
      0 [] none by_year (rw designed (unfold agg_for_plan_with text_eq in refl))

-- A roll-up in front without a measure.
abbrev bare_roll_up : Aggregation
bare_roll_up = record by_year { measure_columns = [] }

agg_for_plan_with-leaves_example :
    agg_for_plan_with {F = Unit {0}} {I = Unit {0}} cube
      (bare_roll_up ∷ by_year ∷ [])
      (group_by (codes "Revenue") (codes "Date" ∷ []) [] (none ∷ []) none)
    ≡ some by_year
agg_for_plan_with-leaves_example =
    agg_for_plan_with-leaves (Unit {0}) cube (bare_roll_up ∷ []) by_year [] (codes "Revenue") none
      (unfold has_column text_eq in (refl, tt)) (unfold has_column text_eq in refl)

routed :
    route_plan cube (by_year ∷ []) years ann config
    ≡ some (some (by_year, codes "Region = 'EU'" ∷ []))
unfolding route_plan text_eq effective_table_filter holds eq_ignore_case trim
    rewrite_predicate_for_rollup
routed = refl

route_plan-Honoured_example :
    (agg_for_plan_with cube (by_year ∷ []) years ≡ some by_year)
    × AllHonoured cube by_year config ann (codes "Region = 'EU'" ∷ []) (role_tables cube)
route_plan-Honoured_example =
    route_plan-Honoured cube (by_year ∷ []) years ann config by_year (codes "Region = 'EU'" ∷ [])
      routed

agg_total_sql-no_members_example :
    (covers_filter cube by_year range_of_years ≡ covers_filter cube by_year (bare range_of_years))
    × (agg_total_sql cube by_year (codes "Revenue") (range_of_years ∷ []) []
        ≡ agg_total_sql {I = Unit {0}} cube by_year (codes "Revenue") [] [])
agg_total_sql-no_members_example =
    agg_total_sql-no_members cube by_year (codes "Revenue") range_of_years [] [] refl

-- The row is of the second role, and not of the region that the query asks for.
abbrev of_second : Text → Unit {0} → Bool
of_second sql row = any (λ c. c == b'2') sql

agg_where-unbracketed_example :
    (condition : Text) × (agg_where cube by_year
        (one_region ∷ [])
        (combined (codes "x = 1" ∷ codes "x = 2" ∷ []) ∷ [])
      ≡ codes " WHERE " ++ condition)
    × (of_second condition tt ≡ true)
agg_where-unbracketed_example =
    agg_where-unbracketed of_second tt cube by_year one_region
      (codes "CAST(Region AS VARCHAR) IN ('EU')") (codes "x = 1") (codes "x = 2")
      (unfold filter_part text_eq join in refl) refl refl

scan_predicate_unaliased_example : codes "Region = 'EU'" ≡ codes "Region = 'EU'"
scan_predicate_unaliased_example =
    scan_predicate_unaliased cube by_year (dimension (codes "Date") none []) (codes "Region = 'EU'")
      (codes "Region = 'EU'") refl (unfold scan_predicate text_eq to_lower in refl)

-- The year of the joined table is a column of the roll-up.
abbrev joined_year : Text
joined_year = codes "_date.year = 2024 AND Region = 'EU'"

abbrev rolled_year : Text
rolled_year = codes "year = 2024 AND Region = 'EU'"

joined_year_rewritten :
    rewrite_predicate_for_rollup cube by_year joined_year ≡ some (some rolled_year)
unfolding rewrite_predicate_for_rollup text_eq to_lower eq_ignore_case strip
joined_year_rewritten = refl

rewrite_predicate_for_rollup-Rewritten_example :
    (date_dim : DimensionDef) × (dim_def cube by_year.date_dim_id ≡ some date_dim)
    × Rewritten cube by_year date_dim joined_year rolled_year
rewrite_predicate_for_rollup-Rewritten_example =
    rewrite_predicate_for_rollup-Rewritten cube by_year joined_year rolled_year
      joined_year_rewritten
