-- ===== src/Engine/Aggregate/Additive.antt =====
-- src/engine/aggregate.rs: the shape of the roll-ups that `design_aggregations` gives.
use mallard_cube.Prelude.{
  ◌+◌, ◌≡◌, refl, sym, ap, subst, ◌∙◌, ◌≢◌, inl, inr, true, false, not, ◌||◌, none, List, [], ◌∷◌,
  ◌++◌, map, append_assoc, arith, ltb, Bool-cases, Option-cases, length, take, is_empty, All,
  length-append, All-append, take-append, Among, Text, codes, text_eq, text_eq_iff,
}
use mallard_cube.Execute.Coords.{put}
use mallard_cube.Engine.Model.{rel_for_dimension, LevelDef, DimensionDef, SemanticModel, MeasureDef}
use mallard_cube.Engine.Aggregate.Sum.{IsSumOf, measure_base_column-IsSumOf}
use mallard_cube.Engine.Aggregate.Design.{All-sort}
use mallard_cube.Engine.Aggregate.{
  Aggregation, aggregation_at, aggregations_of, aggregations_from, design_aggregations, add_measure,
  is_some, measure_base_column, measure_columns_of, leaf_columns_of,
}

-- The column is that of a measure of the model that has no time flag, and whose expression is its sum.
unfoldable pub IsSummed : List MeasureDef → Text × Text → Type 0
IsSummed ms (id, base) =
    (m : MeasureDef) × Among m ms × (m.id ≡ id) × (m.time_flag ≡ none) × IsSumOf m.sql_expr base

All-put :
    (P : Text × Text → Type 0) (j a : Text) (cols : List (Text × Text))
    → P (j, a)
    → All P cols
    → All P (put j a cols)
unfolding put
All-put P j a [] p ps = (p, tt)
All-put P j a ((k, b) ∷ rest) p ps = elim (Bool-cases (text_eq k j)) [
  | inl e ↦ rw (e, put) (subst (λ x. P (x, a)) (sym ((text_eq_iff k j).0 e)) p, ps.1)
  | inr e ↦ rw (e, put) (ps.0, All-put P j a rest p ps.1)
]

add_measure-IsSummed :
    (ms : List MeasureDef) (m : MeasureDef) (cols : List (Text × Text))
    → Among m ms
    → All (IsSummed ms) cols
    → All (IsSummed ms) (add_measure m cols)
unfolding add_measure is_some
add_measure-IsSummed ms m cols i h = elim (Option-cases m.time_flag) [
  | inr (flag, t) ↦ rw t h
  | inl t ↦ elim (Option-cases (measure_base_column m.sql_expr)) [
    | inl e ↦ subst (All (IsSummed ms)) (ground (arith, t, e)) h
    | inr (base, e) ↦
        let summed : IsSummed ms (m.id, base) =
          unfold IsSummed in (m, i, refl, t, measure_base_column-IsSumOf m.sql_expr base e) in
        subst (All (IsSummed ms)) (ground (arith, t, e))
          (All-put (IsSummed ms) m.id base cols summed h)
  ]
]

measure_columns_of-IsSummed :
    (whole ms : List MeasureDef) (cols : List (Text × Text))
    → ((m : MeasureDef) → Among m ms → Among m whole)
    → All (IsSummed whole) cols
    → All (IsSummed whole) (measure_columns_of ms cols)
unfolding measure_columns_of
measure_columns_of-IsSummed whole [] cols within h = h
measure_columns_of-IsSummed whole (m ∷ ms) cols within h =
    measure_columns_of-IsSummed whole ms (add_measure m cols) (λ x i. within x (inr i))
      (add_measure-IsSummed whole m cols (within m (inl refl)) h)

module _ (model : SemanticModel) (dim_id : Text) where
  -- The column is that of another dimension of the model, one without a relationship.
  unfoldable pub IsLeaf : Text × Text → Type 0
  IsLeaf (id, col) =
      (d : DimensionDef) × Among d model.dimensions
      × (d.id ≡ id)
      × (d.physical_field ≡ col)
      × (d.id ≢ dim_id)
      × (rel_for_dimension model d.id ≡ none)

  is_leaf :
      (d : DimensionDef)
      → Among d model.dimensions
      → (text_eq d.id dim_id || is_some (rel_for_dimension model d.id)) ≡ false
      → IsLeaf (d.id, d.physical_field)
  unfolding IsLeaf is_some
  is_leaf d i h = elim (Option-cases (rel_for_dimension model d.id)) [
    | inl e ↦ (d, i, refl, refl, (λ x. ground (arith, h, (text_eq_iff d.id dim_id).1 x)), e)
    | inr (r, e) ↦ absurd (ground (arith, e, h))
  ]

  leaf_columns_of-IsLeaf :
      (ds : List DimensionDef) (cols : List (Text × Text))
      → ((d : DimensionDef) → Among d ds → Among d model.dimensions)
      → All IsLeaf cols
      → All IsLeaf (leaf_columns_of model dim_id ds cols)
  unfolding leaf_columns_of
  leaf_columns_of-IsLeaf [] cols within h = h
  leaf_columns_of-IsLeaf (d ∷ ds) cols within h =
      elim (Bool-cases (text_eq d.id dim_id || is_some (rel_for_dimension model d.id))) [
        | inl e ↦ rw e (leaf_columns_of-IsLeaf ds cols (λ x i. within x (inr i)) h)
        | inr e ↦ rw e (
            leaf_columns_of-IsLeaf ds (put d.id d.physical_field cols) (λ x i. within x (inr i))
              (All-put IsLeaf d.id d.physical_field cols (is_leaf d (within d (inl refl)) e) h))
      ]

-- The levels of the dimension are those above the roll-up's own, its own, and at least one below.
pub record IsDesigned (lower : Text → Text) (model : SemanticModel) (a : Aggregation) : Type 0 where
  pub dim : DimensionDef
  pub above : List LevelDef
  pub own : LevelDef
  pub next : LevelDef
  pub below : List LevelDef
  pub known : Among dim model.dimensions
  pub named : a.date_dim_id ≡ dim.id
  pub related : rel_for_dimension model dim.id ≢ none
  pub levels : dim.levels ≡ above ++ own ∷ next ∷ below
  pub depth : a.date_level ≡ length above
  pub columns : a.date_columns ≡ map (λ (l : LevelDef). l.column) (above ++ own ∷ [])
  pub stored : a.table ≡ codes "agg_" ++ lower own.name
  pub leaves : All (IsLeaf model dim.id) a.leaf_columns
  pub measured : is_empty a.measure_columns ≡ false
  pub summed : All (IsSummed model.measures) a.measure_columns

module _ (lower : Text → Text) (model : SemanticModel) where
  aggregation_at-IsDesigned :
      (dim : DimensionDef) (above : List LevelDef) (l next : LevelDef) (below : List LevelDef)
      → Among dim model.dimensions
      → rel_for_dimension model dim.id ≢ none
      → dim.levels ≡ above ++ l ∷ next ∷ below
      → is_empty (aggregation_at lower model dim (length above) l).measure_columns ≡ false
      → IsDesigned lower model (aggregation_at lower model dim (length above) l)
  unfolding aggregation_at
  aggregation_at-IsDesigned dim above l next below among related levels m = record {
    dim = dim;
    above = above;
    own = l;
    next = next;
    below = below;
    known = among;
    named = refl;
    related = related;
    levels = levels;
    depth = refl;
    columns = ap (map (λ (k : LevelDef). k.column)) (
        ap (take (length above + 1)) (levels ∙ sym (append_assoc above (l ∷ []) (next ∷ below)))
        ∙ take-append (length above + 1) (above ++ l ∷ []) (next ∷ below)
            (length-append above (l ∷ [])));
    stored = refl;
    leaves = leaf_columns_of-IsLeaf model dim.id model.dimensions [] (λ x w. w) tt;
    measured = m;
    summed = measure_columns_of-IsSummed model.measures model.measures [] (λ x w. w) tt;
  }

  aggregations_from-IsDesigned :
      (dim : DimensionDef) (above ls : List LevelDef)
      → Among dim model.dimensions
      → rel_for_dimension model dim.id ≢ none
      → dim.levels ≡ above ++ ls
      → All (IsDesigned lower model) (aggregations_from lower model dim (length above) ls)
  unfolding aggregations_from
  aggregations_from-IsDesigned dim above [] among related h = tt
  aggregations_from-IsDesigned dim above (l ∷ []) among related h = tt
  aggregations_from-IsDesigned dim above (l ∷ k ∷ ls) among related h =
      let later =
        subst (λ n. All (IsDesigned lower model) (aggregations_from lower model dim n (k ∷ ls)))
          (length-append above (l ∷ []))
          (aggregations_from-IsDesigned dim (above ++ l ∷ []) (k ∷ ls) among related
            (h ∙ sym (append_assoc above (l ∷ []) (k ∷ ls)))) in
      elim (Bool-cases
        (is_empty (aggregation_at lower model dim (length above) l).measure_columns)) [
          | inl e ↦ rw e later
          | inr e ↦ rw e (aggregation_at-IsDesigned dim above l k ls among related h e, later)
        ]

  has_relationship :
      (dim : DimensionDef)
      → is_some (rel_for_dimension model dim.id) ≡ true
      → rel_for_dimension model dim.id ≢ none
  unfolding is_some
  has_relationship dim h e = ground (arith, h, e)

  aggregations_of-IsDesigned :
      (dims : List DimensionDef)
      → ((d : DimensionDef) → Among d dims → Among d model.dimensions)
      → All (IsDesigned lower model) (aggregations_of lower model dims)
  unfolding aggregations_of
  aggregations_of-IsDesigned [] within = tt
  aggregations_of-IsDesigned (dim ∷ dims) within =
      let later = aggregations_of-IsDesigned dims (λ d i. within d (inr i)) in
      elim (Bool-cases
        (ltb (length dim.levels) 2 || not (is_some (rel_for_dimension model dim.id)))) [
          | inl e ↦ rw e later
          | inr e ↦ rw e (
              All-append (IsDesigned lower model) (aggregations_from lower model dim 0 dim.levels)
                (aggregations_of lower model dims)
                (aggregations_from-IsDesigned dim [] dim.levels (within dim (inl refl))
                  (has_relationship dim (ground (arith, e))) refl)
                later)
        ]

  -- Each designed roll-up is of a dimension of the model that has a relationship, and of one of its
  -- levels that is not the last. It is stored under the name of that level, and has the column of
  -- that level and of each above it, in their order. Its other columns are those of dimensions
  -- without a relationship, and it has a measure. Each of its measures is one of the model that has
  -- no time flag, and whose expression is `SUM` of the column, in brackets, with white space and a
  -- qualifier at most.
  pub design_aggregations-IsDesigned :
      All (IsDesigned lower model) (design_aggregations lower model)
  unfolding design_aggregations
  design_aggregations-IsDesigned =
      All-sort (IsDesigned lower model) (aggregations_of lower model model.dimensions)
        (aggregations_of-IsDesigned model.dimensions (λ d i. i))
