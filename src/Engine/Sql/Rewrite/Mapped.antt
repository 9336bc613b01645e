-- ===== src/Engine/Sql/Rewrite/Mapped.antt =====
-- src/engine/sql.rs: the columns that the scan of a role predicate takes from a roll-up.
use mallard_cube.Prelude.{
  strip, ℕ, ◌≤◌, ◌≡◌, ap, subst, ◌∙◌, inl, inr, true, ◌||◌, some, map, arith, ltb, Bool-cases,
  Option-cases, get_elem?, drop, first_where, first_where-test, Among, first_where-Among, Text,
  codes, text_eq, to_lower, eq_ignore_case, text_eq-eq,
}
use mallard_cube.Engine.Model.{LevelDef, DimensionDef, SemanticModel, dim_def_opt}
use mallard_cube.Engine.Model.Lookups.{position}
use mallard_cube.Engine.Aggregate.{Aggregation}
use mallard_cube.Engine.Aggregate.Sum.{strip-append}
use mallard_cube.Engine.Sql.Rewrite.{
  is_blank, after, is_one_of, starts, rollup_columns, date_column, leaf_column, dim_column, aliased,
  keywords,
}
use mallard_cube.Engine.Sql.Rewrite.Pieces.{
  Maps, of_fact, of_level, of_leaf, IsKept, keyword, call, column, next, is_one_of-Among,
  position-get,
}

module _ (model : SemanticModel) (agg : Aggregation) (date_dim : DimensionDef) where
  date_column-get :
      (col m : Text)
      → date_column model agg date_dim col ≡ some m
      → (i : ℕ) × (l : LevelDef) × (get_elem? date_dim.levels i ≡ some l)
        × (l.column ≡ col)
        × (i ≤ agg.date_level)
        × (get_elem? agg.date_columns i ≡ some m)
  unfolding date_column
  date_column-get col m h =
      elim (Option-cases (position (λ l. text_eq l.column col) 0 date_dim.levels)) [
        | inl e ↦ absurd (cc (rw (date_column, e) at h))
        | inr (j, e) ↦
            let (k, l, at, got, ok) =
              position-get (λ l. text_eq l.column col) 0 date_dim.levels j e in
            let same : j ≡ k = omega (arith, at) in
            let here : get_elem? date_dim.levels j ≡ some l =
              ap (get_elem? date_dim.levels) same ∙ got in
            elim (Bool-cases (ltb agg.date_level j)) [
              | inl f ↦ absurd (cc (rw (date_column, e, f) at h))
              | inr f ↦ (
                j,
                l,
                here,
                text_eq-eq l.column col ok,
                ground (arith, f),
                rw (date_column, e, f) at h,
              )
            ]
      ]

  leaf_column-get :
      (d col m : Text)
      → leaf_column model agg d col ≡ some m
      → (leaf : Text × Text) × (dim : DimensionDef) × Among leaf agg.leaf_columns
        × (eq_ignore_case leaf.0 d ≡ true)
        × (dim_def_opt model leaf.0 ≡ some dim)
        × (dim.physical_field ≡ col)
        × (col ≡ m)
  unfolding leaf_column
  leaf_column-get d col m h =
      elim (Option-cases (first_where (λ c. eq_ignore_case c.0 d) agg.leaf_columns)) [
        | inl e ↦ absurd (cc (rw (leaf_column, e) at h))
        | inr (leaf, e) ↦ elim (Option-cases (dim_def_opt model leaf.0)) [
          | inl f ↦ absurd (cc (rw (leaf_column, e, f) at h))
          | inr (dim, f) ↦ elim (Bool-cases (text_eq dim.physical_field col)) [
            | inr g ↦ absurd (cc (rw (leaf_column, e, f, g) at h))
            | inl g ↦ (
              leaf,
              dim,
              first_where-Among (λ c. eq_ignore_case c.0 d) agg.leaf_columns leaf e,
              first_where-test (λ c. eq_ignore_case c.0 d) agg.leaf_columns leaf e,
              f,
              text_eq-eq dim.physical_field col g,
              cc (rw (leaf_column, e, f, g) at h),
            )
          ]
        ]
      ]

  pub aliased-Maps :
      (w col m : Text)
      → aliased model agg date_dim (map to_lower w) col ≡ some m
      → Maps model agg date_dim w col m
  unfolding aliased dim_column
  aliased-Maps w col m h = elim (Bool-cases (text_eq (map to_lower w) (codes "f"))) [
    | inl e ↦ elim (Bool-cases (is_one_of (rollup_columns model agg) col)) [
      | inr f ↦ absurd (cc (rw (e, f) at h))
      | inl f ↦
          let same : col ≡ m = cc (rw (e, f) at h) in
          subst (Maps model agg date_dim w col) same (
            of_fact (text_eq-eq (map to_lower w) (codes "f") e)
              (is_one_of-Among (rollup_columns model agg) col f))
    ]
    | inr e ↦ elim (Option-cases (strip (codes "_") (map to_lower w))) [
      | inl f ↦ absurd (cc (rw (e, f) at h))
      | inr (d, f) ↦
          let named = strip-append (codes "_") (map to_lower w) d f in
          elim (Bool-cases (eq_ignore_case d agg.date_dim_id)) [
            | inl g ↦
                let (i, l, got, at, coarse, col') = date_column-get col m (rw (e, f, g) at h) in
                of_level i l named g got at coarse col'
            | inr g ↦
                let (leaf, dim, kept, id, found, at, same) =
                  leaf_column-get d col m (rw (e, f, g) at h) in
                subst (Maps model agg date_dim w col) same (of_leaf leaf dim named kept id found at)
          ]
    ]
  ]

  pub bare_word-IsKept :
      (w rest : Text)
      → (is_one_of keywords (map to_lower w)
          || (starts b'(' (after is_blank rest) || is_one_of (rollup_columns model agg) w))
        ≡ true
      → IsKept model agg date_dim w rest
  bare_word-IsKept w rest h = elim (Bool-cases (is_one_of keywords (map to_lower w))) [
    | inl e ↦ keyword (is_one_of-Among keywords (map to_lower w) e)
    | inr e ↦ elim (Bool-cases (starts b'(' (after is_blank rest))) [
      | inl f ↦ call (drop 1 (after is_blank rest)) (next b'(' rest f)
      | inr f ↦ column (is_one_of-Among (rollup_columns model agg) w (rw (e, f) at h))
    ]
  ]
