-- ===== src/Engine/Sql/Routing/Honoured.antt =====
-- src/engine/sql.rs: the role filters of a plan that is answered from a roll-up.
use mallard_cube.Prelude.{
  ◌≡◌, refl, ap, subst, ◌∙◌, inl, inr, Option, none, some, List, [], ◌∷◌, arith, Option-cases, All,
  All-weaken, Among, Text,
}
use mallard_cube.Access.Config.{ProxyConfig}
use mallard_cube.Access.Users.{UserContext}
use mallard_cube.Access.Tables.{TableAccess, full, filtered, hidden, effective_table_filter}
use mallard_cube.Engine.Model.{SemanticModel}
use mallard_cube.Engine.Plan.{QueryPlan}
use mallard_cube.Engine.Aggregate.{Aggregation, agg_for_plan_with}
use mallard_cube.Engine.Sql.Rewrite.{rewrite_predicate_for_rollup}
use mallard_cube.Engine.Sql.Routing.{
  with_predicate, with_access, table_predicates, role_tables, rollup_role_predicates, route_to,
  route_plan,
}

module _ (model : SemanticModel) (agg : Aggregation) where
  -- No filter, or its rewritten form is among the predicates.
  unfoldable pub Honoured : List Text → TableAccess → Type 0
  Honoured ps full = Unit
  Honoured ps hidden = Unit
  Honoured ps (filtered sql) =
      (p : Text) × (rewrite_predicate_for_rollup model agg sql ≡ some (some p)) × Among p ps

  Honoured-more :
      (p : Text) (ps : List Text) (a : TableAccess) → Honoured ps a → Honoured (p ∷ ps) a
  unfolding Honoured
  Honoured-more p ps full h = tt
  Honoured-more p ps hidden h = tt
  Honoured-more p ps (filtered sql) (q, e, i) = (q, e, inr i)

  with_predicate-some :
      (r : Option (Option Text)) (later : Option (Option (List Text))) (ps : List Text)
      → with_predicate r later ≡ some (some ps)
      → (p : Text) × (rest : List Text) × (r ≡ some (some p))
        × (later ≡ some (some rest))
        × (p ∷ rest ≡ ps)
  unfolding with_predicate
  with_predicate-some none later ps h = absurd (cc h)
  with_predicate-some (some none) later ps h = absurd (cc h)
  with_predicate-some (some (some p)) none ps h = absurd (cc h)
  with_predicate-some (some (some p)) (some none) ps h = absurd (cc h)
  with_predicate-some (some (some p)) (some (some rest)) ps h = (p, rest, refl, refl, cc h)

  module _ (config : ProxyConfig) (user : UserContext) where
    abbrev pub AllHonoured : List Text → List Text → Type 0
    AllHonoured ps ts = All (λ t. Honoured ps (effective_table_filter config user t)) ts

    Honoured-step :
        (ts ps : List Text) (later : Option (Option (List Text))) (a : TableAccess)
        → with_access model user config agg a later ≡ some (some ps)
        → ((qs : List Text) → later ≡ some (some qs) → AllHonoured qs ts)
        → Honoured ps a × AllHonoured ps ts
    unfolding with_access Honoured
    Honoured-step ts ps later full h k = (tt, k ps h)
    Honoured-step ts ps later hidden h k = (tt, k ps h)
    Honoured-step ts ps later (filtered sql) h k =
        let (p, rest, r, l, same) =
          with_predicate-some (rewrite_predicate_for_rollup model agg sql) later ps h in
        subst (λ qs. Honoured qs (filtered sql) × AllHonoured qs ts) same
          (
            (p, r, inl refl),
            All-weaken (λ t. Honoured rest (effective_table_filter config user t))
                (λ t. Honoured (p ∷ rest) (effective_table_filter config user t)) ts
                (λ t. Honoured-more p rest (effective_table_filter config user t)) (k rest l),
          )

    table_predicates-Honoured :
        (ts ps : List Text)
        → table_predicates model user config agg ts ≡ some (some ps)
        → AllHonoured ps ts
    unfolding table_predicates
    table_predicates-Honoured [] ps h = tt
    table_predicates-Honoured (t ∷ ts) ps h =
        Honoured-step ts ps (table_predicates model user config agg ts)
          (effective_table_filter config user t) h (table_predicates-Honoured ts)

route_to-some :
    (a : Aggregation) (r : Option (Option (List Text))) (agg : Aggregation) (ps : List Text)
    → route_to a r ≡ some (some (agg, ps))
    → (a ≡ agg) × (r ≡ some (some ps))
unfolding route_to
route_to-some a none agg ps h = absurd (cc h)
route_to-some a (some none) agg ps h = absurd (cc h)
route_to-some a (some (some qs)) agg ps h = (cc h, cc h)

-- A plan that is answered from a roll-up is answered by the one that `agg_for_plan_with` chooses,
-- and each row filter that the roles of the user put on a fact table or on the table of a
-- relationship is among the predicates of the query, rewritten for the roll-up.
pub route_plan-Honoured :
    {F I : Type 0} (model : SemanticModel) (aggs : List Aggregation) (plan : QueryPlan F I)
    (user : UserContext) (config : ProxyConfig) (agg : Aggregation) (ps : List Text)
    → route_plan model aggs plan user config ≡ some (some (agg, ps))
    → (agg_for_plan_with model aggs plan ≡ some agg)
      × AllHonoured model agg config user ps (role_tables model)
unfolding route_plan rollup_role_predicates
route_plan-Honoured model aggs plan user config agg ps h =
    elim (Option-cases (agg_for_plan_with model aggs plan)) [
      | inl e ↦ absurd (ground (arith, e, h))
      | inr (a, e) ↦
          let routed =
            route_to-some a (rollup_role_predicates model user config a) agg ps
              (ground (arith, e, h)) in
          (
            e ∙ ap some routed.0,
            table_predicates-Honoured model agg config user (role_tables model) ps (
                subst (λ b. rollup_role_predicates model user config b ≡ some (some ps)) routed.0
                  routed.1),
          )
    ]
