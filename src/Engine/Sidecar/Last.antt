-- ===== src/Engine/Sidecar/Last.antt =====
-- src/engine/aggregate.rs: what the tables hold after a build.
use mallard_cube.Prelude.{
  ◌≡◌, refl, sym, ap, ◌∙◌, inl, inr, true, false, some, List, [], ◌∷◌, ◌++◌, arith, Bool-cases,
  Option-cases, All, Text, text_eq, text_eq_refl, text_eq-eq,
}
use mallard_cube.Engine.Aggregate.{Aggregation}
use mallard_cube.Engine.Sidecar.{
  Source, table_named, drop_table, create_table, build_table, build_tables,
}

module _ {T F : Type 0} (source : Source T F) where
  -- A build that goes through has made the first table, and goes on with it.
  pub build_tables-made :
      (a : Aggregation) (aggs : List Aggregation) (tables : List (Text × T))
      → (build_tables source (a ∷ aggs) tables).0 ≡ true
      → (t : T) × (source.rollup a ≡ some t)
        × (build_tables source (a ∷ aggs) tables
            ≡ build_tables source aggs ((a.table, t) ∷ drop_table a.table tables))
  unfolding build_tables build_table create_table
  build_tables-made a aggs tables h = elim (Bool-cases (source.drops a.table)) [
    | inr d ↦ absurd (ground (arith, d, h))
    | inl d ↦ elim (Option-cases (source.rollup a)) [
      | inl e ↦ absurd (ground (arith, d, e, h))
      | inr (t, e) ↦ (t, e, ground (arith, d, e))
    ]
  ]

  table_named-drop_table :
      (name other : Text) (tables : List (Text × T))
      → text_eq other name ≡ false
      → table_named name (drop_table other tables) ≡ table_named name tables
  unfolding table_named drop_table
  table_named-drop_table name other [] h = refl
  table_named-drop_table name other (t ∷ tables) h =
      let later = table_named-drop_table name other tables h in
      elim (Bool-cases (text_eq t.0 other)) [
        | inl e ↦
            let kept : text_eq t.0 name ≡ false =
              ap (λ s. text_eq s name) (text_eq-eq t.0 other e) ∙ h in
            ground (arith, e, kept, later)
        | inr e ↦ ground (arith, e, later)
      ]

  table_named-build_tables :
      (name : Text) (aggs : List Aggregation) (tables : List (Text × T))
      → All (λ a. text_eq a.table name ≡ false) aggs
      → (build_tables source aggs tables).0 ≡ true
      → table_named name (build_tables source aggs tables).1 ≡ table_named name tables
  unfolding table_named
  table_named-build_tables name [] tables h k = unfold build_tables in refl
  table_named-build_tables name (a ∷ aggs) tables h k =
      let made = build_tables-made a aggs tables k in
      let next = (a.table, made.0) ∷ drop_table a.table tables in
      ap (λ b. table_named name b.1) made.2
      ∙ table_named-build_tables name aggs next h.1 (sym (ap (λ b. b.0) made.2) ∙ k)
      ∙ ground (arith, h.0, table_named-drop_table name a.table tables h.0)

  -- A build that goes through leaves, under the name of a table, the roll-up that was the last of
  -- the designed ones with this name: where two have one name, the first reads the second's table.
  pub build_tables-last :
      (before : List Aggregation) (b : Aggregation) (after : List Aggregation)
      (tables : List (Text × T))
      → All (λ a. text_eq a.table b.table ≡ false) after
      → (build_tables source (before ++ b ∷ after) tables).0 ≡ true
      → table_named b.table (build_tables source (before ++ b ∷ after) tables).1 ≡ source.rollup b
  unfolding table_named
  build_tables-last [] b after tables h k =
      let made = build_tables-made b after tables k in
      let next = (b.table, made.0) ∷ drop_table b.table tables in
      ap (λ p. table_named b.table p.1) made.2
      ∙ table_named-build_tables b.table after next h (sym (ap (λ p. p.0) made.2) ∙ k)
      ∙ ground (arith, text_eq_refl b.table)
      ∙ sym made.1
  build_tables-last (a ∷ before) b after tables h k =
      let made = build_tables-made a (before ++ b ∷ after) tables k in
      let next = (a.table, made.0) ∷ drop_table a.table tables in
      ap (λ p. table_named b.table p.1) made.2
      ∙ build_tables-last before b after next h (sym (ap (λ p. p.0) made.2) ∙ k)
