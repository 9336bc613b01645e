-- ===== src/Engine/Model.antt =====
-- src/engine/model.rs: the semantic model and its look-ups. Fields that only the metadata rowsets
-- print are left out. Where the source panics, by `unwrap` or by an index, the result is `none`.
pub mod Lookups
use mallard_cube.Prelude.{
  ℕ, Bool, true, ◌||◌, Option, none, some, List, [], ◌∷◌, if◌then◌else◌, get_elem?, first_where,
  Text, text_eq,
}

pub record FactTable : Type 0 where
  pub id : Text
  pub source_name : Text
  pub table_name : Text
  pub measure_group_name : Text

pub record RelationshipDef : Type 0 where
  pub fact_table_id : Text
  pub fact_column : Text
  pub dimension_id : Text
  pub dim_table : Text
  pub dim_column : Text

pub record LevelDef : Type 0 where
  pub name : Text
  pub column : Text
  pub level_number : ℕ
  pub cardinality : ℕ

pub record DimensionDef : Type 0 where
  pub id : Text
  pub physical_field : Text
  pub table_name : Option Text
  pub shared : Bool
  pub caption : Text
  pub visible : Bool
  pub ordinal : ℕ
  pub hierarchy_name : Text
  pub all_level_name : Text
  pub leaf_level_name : Text
  pub cardinality_hint : ℕ
  pub is_date_role : Bool
  pub levels : List LevelDef

pub data FallbackCapability : Type 0 where
  universal : FallbackCapability
  scalar_only : FallbackCapability
  grouped_specific : List Text → FallbackCapability
  stub : FallbackCapability

pub record MeasureDef : Type 0 where
  pub id : Text
  pub fact_table_idx : ℕ
  pub sql_expr : Text
  pub caption : Text
  pub display_name : Text
  pub visible : Bool
  pub sql_fallback_sql : Option Text
  pub time_flag : Option Text
  pub date_dimension_id : Option Text
  pub fallback_capability : Option FallbackCapability

pub record DateDimDef : Type 0 where
  pub dimension_id : Text
  pub table_name : Text
  pub date_key_column : Text
  pub full_date_column : Text

-- `date_dims` is a map from the id of a dimension: an association list with each id once.
pub record SemanticModel : Type 0 where
  pub fact_tables : List FactTable
  pub dimensions : List DimensionDef
  pub measures : List MeasureDef
  pub relationships : List RelationshipDef
  pub date_dim : Option DateDimDef
  pub date_dims : List (Text × DateDimDef)

unfoldable pub dim_def_opt : SemanticModel → Text → Option DimensionDef
dim_def_opt model id = first_where (λ d. text_eq d.id id) model.dimensions

unfoldable pub dim_def : SemanticModel → Text → Option DimensionDef
unfolding dim_def_opt
dim_def model id = dim_def_opt model id

unfoldable pub meas_def_opt : SemanticModel → Text → Option MeasureDef
meas_def_opt model id = first_where (λ m. text_eq m.id id) model.measures

unfoldable pub meas_def : SemanticModel → Text → Option MeasureDef
unfolding meas_def_opt
meas_def model id = meas_def_opt model id

unfoldable pub fact_table : SemanticModel → ℕ → Option FactTable
fact_table model idx = get_elem? model.fact_tables idx

unfoldable pub fact_table_for_measure : SemanticModel → Text → Option FactTable
unfolding meas_def
fact_table_for_measure model measure_id = elim (meas_def model measure_id) [
  | none ↦ none
  | some m ↦ get_elem? model.fact_tables m.fact_table_idx
]

unfoldable pub primary_table_name : SemanticModel → Option Text
primary_table_name model = elim (get_elem? model.fact_tables 0) [
  | none ↦ none
  | some t ↦ some t.table_name
]

unfoldable pub rel_for_dimension : SemanticModel → Text → Option RelationshipDef
rel_for_dimension model dim_id =
    first_where (λ r. text_eq r.dimension_id dim_id) model.relationships

-- The table of a dimension: its own, that of its relationship, or the first fact table.
unfoldable pub table_of : SemanticModel → DimensionDef → Text → Option Text
unfolding rel_for_dimension primary_table_name
table_of model d dim_id = elim d.table_name [
  | some table ↦ some table
  | none ↦ elim (rel_for_dimension model dim_id) [
    | some rel ↦ some rel.dim_table
    | none ↦ primary_table_name model
  ]
]

unfoldable pub dim_table_for_discovery : SemanticModel → Text → Option Text
unfolding dim_def table_of
dim_table_for_discovery model dim_id = elim (dim_def model dim_id) [
  | none ↦ none
  | some d ↦ table_of model d dim_id
]

unfoldable pub find_date_dim : Text → List (Text × DateDimDef) → Option DateDimDef
find_date_dim id [] = none
find_date_dim id ((key, dd) ∷ rest) =
    let later = find_date_dim id rest in if text_eq key id then some dd else later

unfoldable pub date_dim_for_measure : SemanticModel → Text → Option DateDimDef
unfolding meas_def_opt find_date_dim
date_dim_for_measure model meas_id = elim (meas_def_opt model meas_id) [
  | none ↦ none
  | some m ↦ elim m.date_dimension_id [
    | none ↦ model.date_dim
    | some role ↦ elim (find_date_dim role model.date_dims) [
      | some dd ↦ some dd
      | none ↦ model.date_dim
    ]
  ]
]

-- The last step for a dimension with a table of its own.
unfoldable pub on_table : SemanticModel → Text → Text → Option Bool
unfolding fact_table_for_measure meas_def
on_table model meas_id table = elim (fact_table_for_measure model meas_id) [
  | none ↦ none
  | some fact ↦ some (text_eq fact.table_name table)
]

unfoldable pub dim_is_compatible_with_measure : SemanticModel → Text → Text → Option Bool
unfolding dim_def_opt meas_def on_table
dim_is_compatible_with_measure model dim_id meas_id = elim (dim_def_opt model dim_id) [
  | none ↦ some true
  | some d ↦ if d.shared || d.is_date_role then some true else elim (meas_def model meas_id) [
    | none ↦ none
    | some m ↦ elim d.table_name [ none ↦ some true | some t ↦ on_table model meas_id t ]
  ]
]
