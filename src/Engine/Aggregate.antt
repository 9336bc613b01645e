-- ===== src/Engine/Aggregate.antt =====
-- src/engine/aggregate.rs: the roll-up tables of a model, and which of them answers a plan. A map is
-- an association list with each key once.
pub mod Cover
pub mod Design
pub mod Sum
pub mod Additive
pub mod Grain
use mallard_cube.Prelude.{
  strip, trim, ℕ, ◌+◌, ◌-◌, ◌^◌, Bool, true, false, not, ◌&&◌, ◌||◌, Option, none, some, List, [],
  ◌∷◌, ◌++◌, map, reverse, ltb, leb, ◌==◌, if◌then◌else◌, length, take, is_empty, first_where,
  every, Text, codes, text_eq,
}
use mallard_cube.Mdx.Parser.Statement.{split}
use mallard_cube.Execute.Coords.{find, put}
use mallard_cube.Engine.Model.{
  LevelDef, DimensionDef, MeasureDef, SemanticModel, dim_def_opt, rel_for_dimension,
}
use mallard_cube.Engine.Model.Lookups.{position}
use mallard_cube.Engine.Plan.{TypedDimensionFilter, QueryPlan, total, group_by}

pub record Aggregation : Type 0 where
  pub table : Text
  pub date_dim_id : Text
  pub date_level : ℕ
  pub date_columns : List Text
  pub leaf_columns : List (Text × Text)
  pub measure_columns : List (Text × Text)

unfoldable pub is_column_char : ℕ → Bool
is_column_char c =
    (leb b'0' c && leb c b'9')
    || ((leb b'a' c && leb c b'z') || ((leb b'A' c && leb c b'Z') || (c == b'_' || c == b'.')))

-- `rsplit('.').next()`
unfoldable pub last_part : List Text → Text
last_part [] = []
last_part (p ∷ []) = p
last_part (p ∷ q ∷ ps) = last_part (q ∷ ps)

-- `strip_suffix(')')`
unfoldable pub strip_close : Text → Option Text
strip_close s = elim (strip (codes ")") (reverse s)) [
  | none ↦ none
  | some rest ↦ some (reverse rest)
]

unfoldable pub column_of : Text → Option Text
unfolding is_column_char last_part
column_of inner =
    if is_empty inner || not (every is_column_char inner)
    then none
    else some (last_part (split b'.' inner))

unfoldable pub measure_base_column : Text → Option Text
unfolding strip_close column_of
measure_base_column sql_expr = elim (strip (codes "SUM(") (trim sql_expr)) [
  | none ↦ none
  | some rest ↦ elim (strip_close rest) [ none ↦ none | some inner ↦ column_of (trim inner) ]
]

unfoldable pub is_some {ℓ} : {A : Type ℓ} → Option A → Bool
is_some none = false
is_some (some a) = true

unfoldable pub leaf_columns_of :
    SemanticModel → Text → List DimensionDef → List (Text × Text) → List (Text × Text)
unfolding rel_for_dimension is_some put
leaf_columns_of model dim_id [] cols = cols
leaf_columns_of model dim_id (d ∷ ds) cols = leaf_columns_of model dim_id ds (
    if text_eq d.id dim_id || is_some (rel_for_dimension model d.id)
    then cols
    else put d.id d.physical_field cols)

unfoldable pub add_measure : MeasureDef → List (Text × Text) → List (Text × Text)
unfolding measure_base_column is_some put
add_measure m cols =
    if is_some m.time_flag
    then cols
    else elim (measure_base_column m.sql_expr) [ none ↦ cols | some base ↦ put m.id base cols ]

unfoldable pub measure_columns_of : List MeasureDef → List (Text × Text) → List (Text × Text)
unfolding add_measure
measure_columns_of [] cols = cols
measure_columns_of (m ∷ ms) cols = measure_columns_of ms (add_measure m cols)

-- `lower` is Unicode's `to_lowercase`.
module _ (lower : Text → Text) (model : SemanticModel) where
  unfoldable pub aggregation_at : DimensionDef → ℕ → LevelDef → Aggregation
  unfolding leaf_columns_of measure_columns_of
  aggregation_at dim level_idx level = record {
    table = codes "agg_" ++ lower level.name;
    date_dim_id = dim.id;
    date_level = level_idx;
    date_columns = map (λ l. l.column) (take (level_idx + 1) dim.levels);
    leaf_columns = leaf_columns_of model dim.id model.dimensions [];
    measure_columns = measure_columns_of model.measures [];
  }

  -- Every level but the last, from the coarsest on.
  unfoldable pub aggregations_from : DimensionDef → ℕ → List LevelDef → List Aggregation
  unfolding aggregation_at
  aggregations_from dim i [] = []
  aggregations_from dim i (l ∷ []) = []
  aggregations_from dim i (l ∷ k ∷ ls) =
      let rest = aggregations_from dim (i + 1) (k ∷ ls) in
      if is_empty (aggregation_at dim i l).measure_columns
      then rest
      else aggregation_at dim i l ∷ rest

  unfoldable pub aggregations_of : List DimensionDef → List Aggregation
  unfolding aggregations_from rel_for_dimension is_some
  aggregations_of [] = []
  aggregations_of (dim ∷ dims) =
      (if ltb (length dim.levels) 2 || not (is_some (rel_for_dimension model dim.id))
        then []
        else aggregations_from dim 0 dim.levels)
      ++ aggregations_of dims

-- `sort_by_key` on the level is stable.
unfoldable pub insert_aggregation : Aggregation → List Aggregation → List Aggregation
insert_aggregation a [] = a ∷ []
insert_aggregation a (b ∷ bs) =
    let rest = insert_aggregation a bs in
    if leb a.date_level b.date_level then a ∷ b ∷ bs else b ∷ rest

unfoldable pub sort_aggregations : List Aggregation → List Aggregation
unfolding insert_aggregation
sort_aggregations [] = []
sort_aggregations (a ∷ as') = insert_aggregation a (sort_aggregations as')

unfoldable pub design_aggregations : (Text → Text) → SemanticModel → List Aggregation
unfolding aggregations_of sort_aggregations
design_aggregations lower model = sort_aggregations (aggregations_of lower model model.dimensions)

-- `usize::MAX`
unfoldable pub usize_max : ℕ
usize_max = 2 ^ 64 - 1

unfoldable pub has_column : Text → List (Text × Text) → Bool
unfolding find is_some
has_column id cols = is_some (find id cols)

unfoldable pub covers_dimension : Aggregation → Text → Bool
unfolding has_column
covers_dimension agg dim = text_eq dim agg.date_dim_id || has_column dim agg.leaf_columns

module _ {I : Type 0} where
  unfoldable pub filter_level : SemanticModel → Text → TypedDimensionFilter I → ℕ
  unfolding dim_def_opt position usize_max
  filter_level model dim_id f = elim (dim_def_opt model dim_id) [
    | none ↦ 0
    | some dim ↦ elim f.level [
      | none ↦ usize_max
      | some name ↦ elim (position (λ l. text_eq l.name name) 0 dim.levels) [
        | none ↦ usize_max
        | some i ↦ i
      ]
    ]
  ]

  unfoldable pub covers_filter : SemanticModel → Aggregation → TypedDimensionFilter I → Bool
  unfolding filter_level has_column is_some
  covers_filter model agg f =
      if is_some f.time_flag
      then false
      else if text_eq f.dimension agg.date_dim_id
      then leb (filter_level model agg.date_dim_id f) agg.date_level
      else has_column f.dimension agg.leaf_columns

  unfoldable pub agg_covers :
      SemanticModel → Aggregation → List Text → ℕ → List (TypedDimensionFilter I) → Bool
  unfolding covers_dimension covers_filter
  agg_covers model agg group_by' group_level filters =
      if ltb agg.date_level group_level
      then false
      else every (covers_dimension agg) group_by' && every (covers_filter model agg) filters

  unfoldable pub answers :
      SemanticModel → Text → List Text → ℕ → List (TypedDimensionFilter I) → Aggregation → Bool
  unfolding has_column agg_covers
  answers model measure dims level filters agg =
      has_column measure agg.measure_columns && agg_covers model agg dims level filters

-- The level of the first grouping dimension, or the coarsest.
unfoldable pub first_level : List (Option ℕ) → ℕ
first_level (some l ∷ ls) = l
first_level _ = 0

module _ {F I : Type 0} where
  unfoldable pub agg_for_plan_with :
      SemanticModel → List Aggregation → QueryPlan F I → Option Aggregation
  unfolding answers first_level
  agg_for_plan_with model aggs (total measure filters) =
      first_where (answers model measure [] 0 filters) aggs
  agg_for_plan_with model aggs (group_by measure dims filters levels op) =
      first_where
        (answers model measure dims (if is_empty dims then 0 else first_level levels) filters) aggs
  agg_for_plan_with model aggs _ = none
