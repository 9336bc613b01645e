-- ===== src/Engine/Aggregate/Design.antt =====
-- src/engine/aggregate.rs: the roll-ups that a model is given, and the choice among them.
use mallard_cube.Prelude.{
  ℕ, ◌≤◌, ◌≡◌, ◌⊎◌, inl, inr, Bool, false, Option, some, List, [], ◌∷◌, arith, leb, Bool-cases,
  first_where, All, first_where-test, Text,
}
use mallard_cube.Mdx.SetOps.{AxisSetOp}
use mallard_cube.Engine.Model.{SemanticModel}
use mallard_cube.Engine.Plan.{TypedDimensionFilter, group_by}
use mallard_cube.Engine.Aggregate.{
  Aggregation, answers, first_level, agg_for_plan_with, aggregations_of, insert_aggregation,
  sort_aggregations, design_aggregations,
}
use mallard_cube.Engine.Aggregate.Cover.{Has, answers-Has}

-- The levels do not fall from the front to the back, and none is below `lo`.
unfoldable pub IsCoarsestFirst : ℕ → List Aggregation → Type 0
IsCoarsestFirst lo [] = Unit
IsCoarsestFirst lo (a ∷ rest) = (lo ≤ a.date_level) × IsCoarsestFirst a.date_level rest

IsCoarsestFirst-insert :
    (lo : ℕ) (a : Aggregation) (bs : List Aggregation)
    → lo ≤ a.date_level
    → IsCoarsestFirst lo bs
    → IsCoarsestFirst lo (insert_aggregation a bs)
unfolding IsCoarsestFirst insert_aggregation
IsCoarsestFirst-insert lo a [] h k = (h, tt)
IsCoarsestFirst-insert lo a (b ∷ bs) h k = elim (Bool-cases (leb a.date_level b.date_level)) [
  | inl e ↦ rw (e, insert_aggregation) (h, (ground (arith, e), k.1))
  | inr e ↦
      rw (e, insert_aggregation)
        (k.0, IsCoarsestFirst-insert b.date_level a bs (ground (arith, e)) k.1)
]

sort_aggregations-IsCoarsestFirst :
    (as' : List Aggregation) → IsCoarsestFirst 0 (sort_aggregations as')
unfolding sort_aggregations IsCoarsestFirst
sort_aggregations-IsCoarsestFirst [] = tt
sort_aggregations-IsCoarsestFirst (a ∷ as') =
    IsCoarsestFirst-insert 0 a (sort_aggregations as') (omega arith)
      (sort_aggregations-IsCoarsestFirst as')

-- A property of every roll-up is one of every sorted one.
All-insert {κ} :
    (P : Aggregation → Type κ) (a : Aggregation) (bs : List Aggregation)
    → P a
    → All P bs
    → All P (insert_aggregation a bs)
unfolding insert_aggregation
All-insert P a [] p ps = (p, tt)
All-insert P a (b ∷ bs) p ps = elim (Bool-cases (leb a.date_level b.date_level)) [
  | inl e ↦ rw (e, insert_aggregation) (p, ps)
  | inr e ↦ rw (e, insert_aggregation) (ps.0, All-insert P a bs p ps.1)
]

pub All-sort {κ} :
    (P : Aggregation → Type κ) (as' : List Aggregation) → All P as' → All P (sort_aggregations as')
unfolding sort_aggregations
All-sort P [] ps = tt
All-sort P (a ∷ as') ps = All-insert P a (sort_aggregations as') ps.0 (All-sort P as' ps.1)

-- Each of the list that passes the test is as fine as `a`, or finer.
unfoldable pub IsCoarsest : (Aggregation → Bool) → Aggregation → List Aggregation → Type 0
IsCoarsest p a bs = All (λ b. (p b ≡ false) ⊎ (a.date_level ≤ b.date_level)) bs

above :
    (p : Aggregation → Bool) (lo : ℕ) (a : Aggregation) (bs : List Aggregation)
    → a.date_level ≤ lo
    → IsCoarsestFirst lo bs
    → IsCoarsest p a bs
unfolding IsCoarsestFirst IsCoarsest
above p lo a [] h k = tt
above p lo a (b ∷ bs) h k = (inr (omega arith), above p b.date_level a bs (omega arith) k.1)

first-IsCoarsest :
    (p : Aggregation → Bool) (lo : ℕ) (a : Aggregation) (bs : List Aggregation)
    → IsCoarsestFirst lo bs
    → first_where p bs ≡ some a
    → IsCoarsest p a bs
unfolding IsCoarsestFirst IsCoarsest
first-IsCoarsest p lo a [] k h = tt
first-IsCoarsest p lo a (b ∷ bs) k h = elim (Bool-cases (p b)) [
  | inl e ↦
      let same : b ≡ a = ground (arith, e, h) in
      (
        inr (rw same (omega arith)),
        unfold IsCoarsest in above p b.date_level a bs (rw same (omega arith)) k.1,
      )
  | inr e ↦ (inl e, first-IsCoarsest p b.date_level a bs k.1 (ground (arith, e, h)))
]

module _ {F I : Type 0} where
  -- For a plan that is grouped by at least one dimension, the first of them at a level, the roll-up
  -- that is chosen among the designed ones has the measure, every grouping dimension and every
  -- filter, is as fine as that level, and none of the designed ones that could answer the plan is
  -- coarser.
  pub agg_for_plan_with-IsCoarsest :
      (lower : Text → Text) (model : SemanticModel) (measure dim : Text) (dims : List Text)
      (filters : List (TypedDimensionFilter I)) (level : ℕ) (levels : List (Option ℕ))
      (op : Option (AxisSetOp F)) (a : Aggregation)
      → agg_for_plan_with model
          (design_aggregations lower model)
          (group_by measure (dim ∷ dims) filters (some level ∷ levels) op)
        ≡ some a
      → Has model measure (dim ∷ dims) level filters a
        × IsCoarsest
            (answers model measure (dim ∷ dims) level filters)
            a
            (design_aggregations lower model)
  unfolding agg_for_plan_with design_aggregations first_level
  agg_for_plan_with-IsCoarsest lower model measure dim dims filters level levels op a h =
      let p = answers model measure (dim ∷ dims) level filters in
      let aggs = sort_aggregations (aggregations_of lower model model.dimensions) in
      (
        answers-Has model measure (dim ∷ dims) level filters a (first_where-test p aggs a h),
        first-IsCoarsest p 0 a aggs
            (sort_aggregations-IsCoarsestFirst (aggregations_of lower model model.dimensions)) h,
      )
