-- ===== src/Access/Restrictions/Drilling.antt =====
-- src/execute/runtime.rs: what a drillthrough that is not refused returns.
use mallard_cube.Prelude.{
  trim, ◌≡◌, refl, subst, ◌≢◌, ◌⊎◌, inl, inr, Bool, true, false, some, List, [], ◌∷◌, arith,
  Bool-cases, any, All, Text, eq_ignore_case,
}
use mallard_cube.Access.Config.{TablePermissionConfig, ProxyConfig}
use mallard_cube.Access.Users.{UserContext}
use mallard_cube.Access.Tables.{TableAccess, full, filtered, hidden, effective_table_filter}
use mallard_cube.Access.Tables.Union.{row_visible}
use mallard_cube.Access.Gates.{dimension_hidden}
use mallard_cube.Engine.Model.{primary_table_name, DimensionDef, SemanticModel}
use mallard_cube.Access.Restrictions.{
  filters_elsewhere, drill_on, exposes, drillthrough_row_predicate, held_permissions, Drill,
  unrestricted, restricted_to, refused, drill_of, is_filtered, is_reached,
}

-- The rows that a drillthrough returns.
abbrev pub drilled : {Row : Type 0} → (Text → Row → Bool) → Row → Drill → Bool
drilled sat row unrestricted = true
drilled sat row (restricted_to sql) = sat sql row
drilled sat row refused = false

any-false-All :
    {A : Type 0} (p : A → Bool) (xs : List A) → any p xs ≡ false → All (λ x. p x ≡ false) xs
any-false-All p [] h = tt
any-false-All p (x ∷ xs) h = (ground arith, any-false-All p xs (ground arith))

drilled-drill_of :
    {Row : Type 0} (sat : Text → Row → Bool) (row : Row) (a : TableAccess)
    → drilled sat row (drill_of a) ≡ row_visible sat row a
unfolding drill_of
drilled-drill_of sat row full = refl
drilled-drill_of sat row (filtered sql) = refl
drilled-drill_of sat row hidden = refl

module _ (config : ProxyConfig) (user : UserContext) (model : SemanticModel) where
  -- No dimension that the rows carry is hidden, and no row filter is on a table elsewhere.
  pub record Exact (primary : Text) (d : Drill) : Type 1 where
    pub rows :
        {Row : Type 0}
        → (sat : Text → Row → Bool) (row : Row)
        → drilled sat row d ≡ row_visible sat row (effective_table_filter config user primary)
    pub no_hidden :
        All
          (λ dim.
            (is_reached config user model primary dim ≡ false)
            ⊎ (dimension_hidden config user model dim.id ≢ some true))
          model.dimensions
    pub no_filters :
        All
          (λ tp.
            (eq_ignore_case (trim tp.table) (trim primary) ≡ true)
            ⊎ (is_filtered (effective_table_filter config user tp.table) ≡ false))
          (held_permissions config user)

  exposes-none :
      (primary : Text) (dims : List DimensionDef)
      → any (exposes config user model primary) dims ≡ false
      → All
          (λ dim.
            (is_reached config user model primary dim ≡ false)
            ⊎ (dimension_hidden config user model dim.id ≢ some true))
          dims
  unfolding exposes
  exposes-none primary [] h = tt
  exposes-none primary (dim ∷ dims) h = (
    elim (Bool-cases (is_reached config user model primary dim)) [
      | inl r ↦ inr (λ n. ground (arith, r, n, h))
      | inr r ↦ inl r
    ],
    exposes-none primary dims (ground arith),
  )

  filters-none :
      (primary : Text) (tps : List TablePermissionConfig)
      → any (filters_elsewhere config user model primary) tps ≡ false
      → All
          (λ tp.
            (eq_ignore_case (trim tp.table) (trim primary) ≡ true)
            ⊎ (is_filtered (effective_table_filter config user tp.table) ≡ false))
          tps
  unfolding filters_elsewhere
  filters-none primary [] h = tt
  filters-none primary (tp ∷ tps) h = (
    elim (Bool-cases (eq_ignore_case (trim tp.table) (trim primary))) [
      | inl e ↦ inl e
      | inr e ↦ inr (ground (arith, e, h))
    ],
    filters-none primary tps (ground arith),
  )

  drill_on-Exact :
      (primary : Text)
      → (drill_on config user model primary ≡ refused)
        ⊎ Exact primary (drill_on config user model primary)
  unfolding drill_on
  drill_on-Exact primary =
      elim (Bool-cases (any (exposes config user model primary) model.dimensions)) [
        | inl e ↦ inl (rw e refl)
        | inr e ↦
            elim (Bool-cases
              (any (filters_elsewhere config user model primary) (held_permissions config user))) [
                | inl f ↦ inl (rw (e, f) refl)
                | inr f ↦ inr (
                    rw (e, f)
                      (record {
                        rows = λ sat row.
                            drilled-drill_of sat row (effective_table_filter config user primary);
                        no_hidden = exposes-none primary model.dimensions e;
                        no_filters = filters-none primary (held_permissions config user) f;
                      }))
              ]
      ]

  -- For a user who is no administrator, a drillthrough on a model with a fact table is refused, or
  -- its rows are those of the first fact table that the roles show, no dimension that they carry is
  -- on a hidden table, and no role of the user leaves a row filter on another table.
  pub drillthrough_row_predicate-Exact :
      (primary : Text) (d : Drill)
      → user.is_administrator ≡ false
      → primary_table_name model ≡ some primary
      → drillthrough_row_predicate config user model ≡ some d
      → (d ≡ refused) ⊎ Exact primary d
  unfolding drillthrough_row_predicate
  drillthrough_row_predicate-Exact primary d a e h =
      let same : drill_on config user model primary ≡ d = ground (arith, a, e, h) in
      subst (λ x. (x ≡ refused) ⊎ Exact primary x) same (drill_on-Exact primary)
