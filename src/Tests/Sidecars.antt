-- ===== src/Tests/Sidecars.antt =====
-- src/engine/aggregate.rs: a sidecar for the small model, and two roll-ups with one table name.
use mallard_cube.Prelude.{
  strip, trim, ℕ, ◌≡◌, refl, true, not, none, some, [], ◌∷◌, ◌==◌, Text, codes, text_eq,
}
use mallard_cube.Mdx.Parser.Statement.{split}
use mallard_cube.Engine.Aggregate.{Aggregation, measure_base_column}
use mallard_cube.Engine.Sidecar.{
  Source, Sidecar, replaced, Run, table_named, build_tables, ensure_aggregations,
  disable_stale_aggregations,
}
use mallard_cube.Engine.Sidecar.Last.{build_tables-last}
use mallard_cube.Tests.Plans.{cube}

-- A table holds the name of its dimension; every sum is 7.
abbrev source : Source Text ℕ
source = record {
  stamp = (100, 200);
  opens = true;
  attaches = true;
  drops = λ name. true;
  detaches = true;
  writes = replaced;
  rollup = λ a. some a.date_dim_id;
  fact_total = λ base. some 7;
  table_total = λ t base. some 7;
  differs = λ a b. not (a == b);
}

abbrev nothing_built : Sidecar Text
nothing_built = record { agg_meta = none; tables = [] }

abbrev first_run : Run Text
first_run = ensure_aggregations true (λ s. s) cube source nothing_built []

-- After a change of the source the roll-ups are disabled.
test_reload : disable_stale_aggregations true (100, 201) (some first_run.1.0) [] ≡ (true, [])
unfolding disable_stale_aggregations ensure_aggregations text_eq measure_base_column split strip
    trim
test_reload = refl

abbrev by_order_year : Aggregation
by_order_year = record {
  table = codes "agg_year";
  date_dim_id = codes "OrderDate";
  date_level = 0;
  date_columns = codes "year" ∷ [];
  leaf_columns = [];
  measure_columns = (codes "Revenue", codes "revenue") ∷ [];
}

abbrev by_ship_year : Aggregation
by_ship_year = record by_order_year { date_dim_id = codes "ShipDate" }

both_built : (build_tables source (by_order_year ∷ by_ship_year ∷ []) []).0 ≡ true
unfolding build_tables
both_built = refl

build_tables-last_example :
    table_named (codes "agg_year") (build_tables source (by_order_year ∷ by_ship_year ∷ []) []).1
    ≡ some (codes "ShipDate")
build_tables-last_example =
    build_tables-last source (by_order_year ∷ []) by_ship_year [] [] tt both_built
