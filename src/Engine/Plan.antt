-- ===== src/Engine/Plan.antt =====
-- src/engine/plan.rs and src/mdx/ast.rs: query plans and their filters. Floating-point numbers are
-- any type `F`, and signed ones any type `I`.
-- Where the source panics on an unknown id, the result is `none`.
use mallard_cube.Prelude.{ℕ, Bool, Option, none, some, List, [], ◌∷◌, ◌++◌, if◌then◌else◌, Text}
use mallard_cube.Mdx.Ast.{CmpOp}
use mallard_cube.Mdx.SetOps.{AxisSetOp}
use mallard_cube.Engine.Model.{
  SemanticModel, DateDimDef, MeasureDef, meas_def, date_dim_for_measure,
  dim_is_compatible_with_measure,
}

pub data DateWindow (I : Type 0) : Type 0 where
  to_date : List (Text × Text) → Text → DateWindow I
  relative : CmpOp → I → Text → DateWindow I
  absolute : CmpOp → Text → DateWindow I
  parallel : List (Text × Text) → Text → I → DateWindow I
  last_periods : List (Text × Text) → Text → I → DateWindow I

pub data LabelFilter : Type 0 where
  eq ne begins_with does_not_begin_with ends_with does_not_end_with : Text → LabelFilter
  contains does_not_contain gt ge lt le : Text → LabelFilter

pub record TypedDimensionFilter (I : Type 0) : Type 0 where
  pub dimension : Text
  pub members : List Text
  pub level : Option Text
  pub time_flag : Option Text
  pub range : Option (Text × Text)
  pub date_window : Option (DateWindow I)
  pub label : Option LabelFilter

pub record TupleCell (I : Type 0) : Type 0 where
  pub measure : Text
  pub filters : List (TypedDimensionFilter I)

-- The fields stand in the source's order.
pub data QueryPlan (F I : Type 0) : Type 0 where
  total : Text → List (TypedDimensionFilter I) → QueryPlan F I
  group_by :
      Text
      → List Text
      → List (TypedDimensionFilter I)
      → List (Option ℕ)
      → Option (AxisSetOp F)
      → QueryPlan F I
  multi_measure : List Text → List (TypedDimensionFilter I) → QueryPlan F I
  tuple_set : List (TupleCell I) → QueryPlan F I
  multi_group_by :
      List Text → List Text → List (TypedDimensionFilter I) → List (Option ℕ) → QueryPlan F I
  count : Text → QueryPlan F I
  meta_count : Text → Option ℕ → List (TypedDimensionFilter I) → QueryPlan F I
  meta_count_literal : ℕ → QueryPlan F I
  measures_list : Text → QueryPlan F I
  set_members : Text → Option ℕ → Text → List (TypedDimensionFilter I) → QueryPlan F I
  empty : QueryPlan F I

module _ {I : Type 0} where
  unfoldable pub keep_compatible :
      TypedDimensionFilter I
      → Option Bool
      → Option (List (TypedDimensionFilter I))
      → Option (List (TypedDimensionFilter I))
  keep_compatible f (some b) (some rest) = some (if b then f ∷ rest else rest)
  keep_compatible f _ _ = none

  unfoldable pub compatible_filters :
      SemanticModel → Text → List (TypedDimensionFilter I) → Option (List (TypedDimensionFilter I))
  unfolding keep_compatible dim_is_compatible_with_measure
  compatible_filters model meas_id [] = some []
  compatible_filters model meas_id (f ∷ fs) =
      keep_compatible f (dim_is_compatible_with_measure model f.dimension meas_id)
        (compatible_filters model meas_id fs)

  -- A filter that joins the date table on a flag column.
  unfoldable pub flag_filter : Text → Text → TypedDimensionFilter I
  flag_filter dimension flag = record {
    dimension = dimension;
    members = [];
    level = none;
    time_flag = some flag;
    range = none;
    date_window = none;
    label = none;
  }

  unfoldable pub with_flag :
      DateDimDef
      → Option MeasureDef
      → List (TypedDimensionFilter I)
      → Option (List (TypedDimensionFilter I))
  unfolding flag_filter
  with_flag date_dim none result = none
  with_flag date_dim (some m) result = elim m.time_flag [
    | none ↦ some result
    | some flag ↦ some (result ++ flag_filter date_dim.dimension_id flag ∷ [])
  ]

  unfoldable pub filters_with_time_flag :
      SemanticModel → Text → List (TypedDimensionFilter I) → Option (List (TypedDimensionFilter I))
  unfolding compatible_filters with_flag date_dim_for_measure meas_def
  filters_with_time_flag model meas_id source_filters =
      elim (compatible_filters model meas_id source_filters) [
        | none ↦ none
        | some result ↦ elim (date_dim_for_measure model meas_id) [
          | none ↦ some result
          | some date_dim ↦ with_flag date_dim (meas_def model meas_id) result
        ]
      ]
