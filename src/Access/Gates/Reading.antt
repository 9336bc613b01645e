-- ===== src/Access/Gates/Reading.antt =====
-- src/engine/plan.rs and src/execute/runtime.rs: what a plan that passes the checks reads.
use mallard_cube.Prelude.{
  ◌≡◌, sym, ap, subst, ◌∙◌, ◌≢◌, ◌⊎◌, inl, inr, true, false, none, some, List, [], ◌∷◌, ◌++◌, arith,
  Bool-cases, Option-cases, first_where, All, first_where-test, Text, text_eq, text_eq_iff,
}
use mallard_cube.Access.Config.{ModelPermission, permission_eq, ProxyConfig}
use mallard_cube.Access.Users.{UserContext, effective_model_permission}
use mallard_cube.Engine.Model.{
  SemanticModel, FactTable, DimensionDef, fact_table_for_measure, dim_def_opt,
}
use mallard_cube.Engine.Plan.{
  QueryPlan, total, group_by, multi_measure, tuple_set, multi_group_by, count, meta_count,
  meta_count_literal, measures_list, set_members, empty,
}
use mallard_cube.Access.Gates.{
  filter_dimensions, cell_dimensions, hides, measure_hidden, measures_hidden, dimension_hidden,
  reads_hidden, plan_with_context, plan_dimensions, known_hidden, plan_hidden_dimension,
  plan_measures,
}

-- The dimensions by which a plan groups and filters, or whose members it lists or counts. The filters
-- of a plan that lists or counts members are not among them.
unfoldable pub dimensions_of : {F I : Type 0} → QueryPlan F I → List Text
dimensions_of (total m fs) = filter_dimensions fs
dimensions_of (multi_measure ms fs) = filter_dimensions fs
dimensions_of (group_by m ds fs ls op) = ds ++ filter_dimensions fs
dimensions_of (multi_group_by ms ds fs ls) = ds ++ filter_dimensions fs
dimensions_of (tuple_set cells) = cell_dimensions cells
dimensions_of (count d) = d ∷ []
dimensions_of (meta_count d l fs) = d ∷ []
dimensions_of (set_members d l m fs) = d ∷ []
dimensions_of (meta_count_literal n) = []
dimensions_of (measures_list m) = []
dimensions_of empty = []

module _ (config : ProxyConfig) (user : UserContext) (model : SemanticModel) where
  -- The fact table of the measure is not hidden from the user.
  unfoldable pub MeasureVisible : Text → Type 0
  MeasureVisible m =
      (fact : FactTable) × (fact_table_for_measure model m ≡ some fact)
      × (hides config user fact.table_name ≡ false)

  -- The model has no such dimension, or its table is not hidden from the user.
  unfoldable pub DimensionVisible : Text → Type 0
  DimensionVisible d =
      (dim_def_opt model d ≡ none)
      ⊎ ((def : DimensionDef) × (dim_def_opt model d ≡ some def)
          × (dimension_hidden config user model def.id ≢ some true))

  measure-visible : (m : Text) → measure_hidden config user model m ≡ some false → MeasureVisible m
  unfolding measure_hidden MeasureVisible
  measure-visible m h = elim (Option-cases (fact_table_for_measure model m)) [
    | inl e ↦ absurd (ground (arith, e, h))
    | inr (fact, e) ↦ (fact, e, ground (arith, e, h))
  ]

  measures-visible :
      (ms : List Text) → measures_hidden config user model ms ≡ some false → All MeasureVisible ms
  unfolding measures_hidden
  measures-visible [] h = tt
  measures-visible (m ∷ ms) h = elim (Option-cases (measure_hidden config user model m)) [
    | inl e ↦ absurd (ground (arith, e, h))
    | inr (b, e) ↦ elim (Bool-cases b) [
      | inl t ↦ absurd (ground (arith, e, t, h))
      | inr f ↦ (measure-visible m (e ∙ ap some f), measures-visible ms (ground (arith, e, f, h)))
    ]
  ]

  known-visible : (d : Text) → known_hidden config user model d ≡ false → DimensionVisible d
  unfolding known_hidden DimensionVisible
  known-visible d h = elim (Option-cases (dim_def_opt model d)) [
    | inl e ↦ inl e
    | inr (def, e) ↦ inr (def, e, λ t. ground (arith, e, t, h))
  ]

  dimensions-visible :
      (ds : List Text)
      → first_where (known_hidden config user model) ds ≡ none
      → All DimensionVisible ds
  dimensions-visible [] h = tt
  dimensions-visible (d ∷ ds) h = elim (Bool-cases (known_hidden config user model d)) [
    | inl e ↦ absurd (ground (arith, e, h))
    | inr e ↦ (known-visible d e, dimensions-visible ds (ground (arith, e, h)))
  ]

  -- The tables of its measures and of its dimensions are visible.
  unfoldable pub Visible : {F I : Type 0} → QueryPlan F I → Type 0
  Visible plan = All MeasureVisible (plan_measures plan) × All DimensionVisible (dimensions_of plan)

  dimension-visible :
      (d : Text) → dimension_hidden config user model d ≡ some false → DimensionVisible d
  unfolding DimensionVisible dim_def_opt
  dimension-visible d h = elim (Option-cases (dim_def_opt model d)) [
    | inl e ↦ inl e
    | inr (def, e) ↦
        let found = first_where-test (λ x. text_eq x.id d) model.dimensions def e in
        let same : def.id ≡ d = (text_eq_iff def.id d).0 found in
        inr (def, e, λ t. cc (ap (dimension_hidden config user model) same, t, h))
  ]

  passed :
      {F I : Type 0} (plan : QueryPlan F I)
      → reads_hidden config user model plan ≡ some false
      → plan_hidden_dimension config user model plan ≡ none
      → Visible plan
  unfolding reads_hidden Visible plan_measures dimensions_of plan_hidden_dimension plan_dimensions
  passed (total m fs) h n = ((measure-visible m h, tt), dimensions-visible _ n)
  passed (group_by m ds fs ls op) h n = ((measure-visible m h, tt), dimensions-visible _ n)
  passed (multi_measure ms fs) h n = (measures-visible ms h, dimensions-visible _ n)
  passed (multi_group_by ms ds fs ls) h n = (measures-visible ms h, dimensions-visible _ n)
  passed (tuple_set cells) h n = (measures-visible _ h, dimensions-visible _ n)
  passed (measures_list m) h n = (tt, tt)
  passed (count d) h n = (tt, dimensions-visible (d ∷ []) n)
  passed (set_members d l m fs) h n = (tt, (dimension-visible d h, tt))
  passed (meta_count d l fs) h n = (tt, dimensions-visible (d ∷ []) n)
  passed (meta_count_literal k) h n = (tt, tt)
  passed empty h n = (tt, tt)

  -- A plan that passes the gates, and in which no hidden dimension is found, is the empty plan, or
  -- it is the plan without roles, the user has a permission on the model, the fact table of each
  -- measure that the plan computes is visible, and so is the table of each dimension of the model
  -- by which it groups or filters. A plan that counts or lists members computes no measure here,
  -- and only the table of the dimension of these members is visible: nothing is said of the measure
  -- and the filters that such a plan may have.
  pub plan_with_context-Visible :
      {F I : Type 0} (plan p : QueryPlan F I)
      → plan_with_context config user model plan ≡ some p
      → plan_hidden_dimension config user model p ≡ none
      → (p ≡ empty)
        ⊎ ((p ≡ plan) × (effective_model_permission config user ≢ ModelPermission.none) × Visible p)
  unfolding plan_with_context
  plan_with_context-Visible plan p h n =
      elim (Bool-cases
        (permission_eq (effective_model_permission config user) ModelPermission.none)) [
          | inl e ↦ inl (ground (arith, e, h))
          | inr e ↦ elim (Option-cases (reads_hidden config user model plan)) [
            | inl r ↦ absurd (ground (arith, e, r, h))
            | inr (b, r) ↦ elim (Bool-cases b) [
              | inl t ↦ inl (ground (arith, e, r, t, h))
              | inr f ↦
                  let same : p ≡ plan = ground (arith, e, r, f, h) in
                  let clear =
                    subst (λ q. plan_hidden_dimension config user model q ≡ none) same n in
                  inr (
                    same,
                    (λ x. unfold permission_eq in cc (rw x at e)),
                    subst Visible (sym same) (passed plan (r ∙ ap some f) clear),
                  )
            ]
          ]
        ]
