-- ===== src/Engine/Aggregate/Cover.antt =====
-- src/engine/aggregate.rs: what the roll-up that is chosen for a plan has.
use mallard_cube.Prelude.{
  ℕ, ◌≤◌, ◌≡◌, ◌⊎◌, inl, inr, Bool, true, none, some, List, [], ◌∷◌, arith, ltb, Bool-cases,
  Option-cases, every, All, Text, text_eq, text_eq_iff,
}
use mallard_cube.Execute.Coords.{find}
use mallard_cube.Engine.Model.{SemanticModel}
use mallard_cube.Engine.Plan.{TypedDimensionFilter}
use mallard_cube.Engine.Aggregate.{
  Aggregation, is_some, has_column, covers_dimension, filter_level, covers_filter, agg_covers,
  answers,
}

unfoldable pub HasColumn : Text → List (Text × Text) → Type 0
HasColumn id cols = (col : Text) × (find id cols ≡ some col)

has_column-HasColumn :
    (id : Text) (cols : List (Text × Text)) → has_column id cols ≡ true → HasColumn id cols
unfolding has_column is_some HasColumn
has_column-HasColumn id cols h = elim (Option-cases (find id cols)) [
  | inl e ↦ absurd (ground (arith, e, h))
  | inr (col, e) ↦ (col, e)
]

-- The dimension is that of the levels, or has a column of its own.
unfoldable pub HasDimension : Aggregation → Text → Type 0
HasDimension agg dim = (dim ≡ agg.date_dim_id) ⊎ HasColumn dim agg.leaf_columns

covers_dimension-HasDimension :
    (agg : Aggregation) (dim : Text) → covers_dimension agg dim ≡ true → HasDimension agg dim
unfolding covers_dimension HasDimension
covers_dimension-HasDimension agg dim h = elim (Bool-cases (text_eq dim agg.date_dim_id)) [
  | inl e ↦ inl ((text_eq_iff dim agg.date_dim_id).0 e)
  | inr e ↦ inr (has_column-HasColumn dim agg.leaf_columns (ground (arith, e, h)))
]

every-All {κ} :
    {A : Type 0} (p : A → Bool) (P : A → Type κ) (xs : List A)
    → ((a : A) → p a ≡ true → P a)
    → every p xs ≡ true
    → All P xs
every-All p P [] f h = tt
every-All p P (x ∷ xs) f h = (f x (ground arith), every-All p P xs f (ground arith))

module _ {I : Type 0} (model : SemanticModel) where
  -- The filter joins no flag column, and is on a level of the roll-up or on a column of its own.
  unfoldable pub HasFilter : Aggregation → TypedDimensionFilter I → Type 0
  HasFilter agg f =
      (f.time_flag ≡ none)
      × (((f.dimension ≡ agg.date_dim_id) × (filter_level model agg.date_dim_id f ≤ agg.date_level))
          ⊎ HasColumn f.dimension agg.leaf_columns)

  covers_filter-HasFilter :
      (agg : Aggregation) (f : TypedDimensionFilter I)
      → covers_filter model agg f ≡ true
      → HasFilter agg f
  unfolding covers_filter HasFilter is_some
  covers_filter-HasFilter agg f h = elim (Option-cases f.time_flag) [
    | inr (flag, t) ↦ absurd (ground (arith, t, h))
    | inl t ↦ (
      t,
      elim (Bool-cases (text_eq f.dimension agg.date_dim_id)) [
        | inl e ↦ inl ((text_eq_iff f.dimension agg.date_dim_id).0 e, ground (arith, t, e, h))
        | inr e ↦ inr (has_column-HasColumn f.dimension agg.leaf_columns (ground (arith, t, e, h)))
      ],
    )
  ]

  -- A roll-up that has the measure, every grouping dimension, every filter and the level.
  pub record Has (measure : Text) (dims : List Text) (level : ℕ)
      (filters : List (TypedDimensionFilter I)) (agg : Aggregation) : Type 0 where
    pub has_measure : HasColumn measure agg.measure_columns
    pub fine_enough : level ≤ agg.date_level
    pub has_dimensions : All (HasDimension agg) dims
    pub has_filters : All (HasFilter agg) filters

  pub answers-Has :
      (measure : Text) (dims : List Text) (level : ℕ) (filters : List (TypedDimensionFilter I))
      (agg : Aggregation)
      → answers model measure dims level filters agg ≡ true
      → Has measure dims level filters agg
  unfolding answers agg_covers
  answers-Has measure dims level filters agg h = elim (Bool-cases (ltb agg.date_level level)) [
    | inl l ↦ absurd (ground (arith, l, h))
    | inr l ↦ record {
      has_measure = has_column-HasColumn measure agg.measure_columns (ground (arith, l, h));
      fine_enough = ground (arith, l);
      has_dimensions =
          every-All (covers_dimension agg) (HasDimension agg) dims
            (covers_dimension-HasDimension agg) (ground (arith, l, h));
      has_filters =
          every-All (covers_filter model agg) (HasFilter agg) filters (covers_filter-HasFilter agg)
            (ground (arith, l, h));
    }
  ]
