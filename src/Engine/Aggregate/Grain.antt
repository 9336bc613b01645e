-- ===== src/Engine/Aggregate/Grain.antt =====
-- src/engine/aggregate.rs: a plan at the grain of the leaves is taken for one at the coarsest level.
use mallard_cube.Prelude.{
  ◌≡◌, true, false, Option, none, some, List, [], ◌∷◌, ◌++◌, arith, All, Text, text_eq_refl,
}
use mallard_cube.Mdx.SetOps.{AxisSetOp}
use mallard_cube.Engine.Model.{SemanticModel}
use mallard_cube.Engine.Plan.{group_by}
use mallard_cube.Engine.Aggregate.{
  Aggregation, has_column, covers_dimension, agg_covers, answers, first_level, agg_for_plan_with,
}

-- A plan that groups by the dimension of a roll-up at the grain of its leaves, with no filter, is
-- answered by the roll-up, however coarse, if no roll-up in front of it has the measure and it has.
pub agg_for_plan_with-leaves :
    {F : Type 0} (I : Type 0) (model : SemanticModel) (front : List Aggregation) (a : Aggregation)
    (aggs : List Aggregation) (measure : Text) (op : Option (AxisSetOp F))
    → All (λ b. has_column measure b.measure_columns ≡ false) front
    → has_column measure a.measure_columns ≡ true
    → agg_for_plan_with {I = I} model
        (front ++ a ∷ aggs)
        (group_by measure (a.date_dim_id ∷ []) [] (none ∷ []) op)
      ≡ some a
unfolding agg_for_plan_with answers agg_covers covers_dimension first_level
agg_for_plan_with-leaves I model [] a aggs measure op n h =
    ground (arith, h, text_eq_refl a.date_dim_id)
agg_for_plan_with-leaves I model (b ∷ front) a aggs measure op n h =
    let later = agg_for_plan_with-leaves I model front a aggs measure op n.1 h in
    ground (arith, n.0, later)
