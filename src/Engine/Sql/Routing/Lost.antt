-- ===== src/Engine/Sql/Routing/Lost.antt =====
-- src/engine/sql.rs: what the WHERE of a roll-up query loses.
use mallard_cube.Prelude.{
  ◌≡◌, refl, ap, inl, inr, Bool, true, ◌||◌, none, List, [], ◌∷◌, ◌++◌, append_assoc, arith,
  Option-cases, Text, codes,
}
use mallard_cube.Mdx.Parser.{join}
use mallard_cube.Access.Tables.{combined}
use mallard_cube.Engine.Model.{meas_def, SemanticModel}
use mallard_cube.Engine.Plan.{TypedDimensionFilter}
use mallard_cube.Engine.Aggregate.{Aggregation, filter_level, covers_filter}
use mallard_cube.Engine.Sql.{
  where_of, in_list, filter_column, filter_part, filter_parts, agg_where, agg_total_sql,
}

-- The filter without its range, date window and label.
abbrev pub bare : {I : Type 0} → TypedDimensionFilter I → TypedDimensionFilter I
bare f = record f { range = none; date_window = none; label = none }

module _ {I : Type 0} (model : SemanticModel) (agg : Aggregation) where
  no_part : (f : TypedDimensionFilter I) → f.members ≡ [] → filter_part model agg f ≡ []
  unfolding filter_part in_list
  no_part f h = elim (Option-cases (filter_column model agg f)) [
    | inl e ↦ ground (arith, e)
    | inr (col, e) ↦ ground (arith, e, h)
  ]

  -- A filter that lists no members, such as a range of members, a date window or a label filter, is
  -- no obstacle to a roll-up that it would not be without that range, window or label, and the
  -- query on the roll-up is the one without the filter.
  pub agg_total_sql-no_members :
      (measure : Text) (f : TypedDimensionFilter I) (fs : List (TypedDimensionFilter I))
      (predicates : List Text)
      → f.members ≡ []
      → (covers_filter model agg f ≡ covers_filter model agg (bare f))
        × (agg_total_sql model agg measure (f ∷ fs) predicates
            ≡ agg_total_sql model agg measure fs predicates)
  unfolding agg_total_sql agg_where filter_parts covers_filter filter_level
  agg_total_sql-no_members measure f fs predicates h =
      let gone : filter_parts model agg (f ∷ fs) ≡ filter_parts model agg fs =
        ap (λ (ps : List Text). ps ++ filter_parts model agg fs) (no_part f h) in
      (
        refl,
        elim (Option-cases (meas_def model measure)) [
          | inl e ↦ ground (arith, e)
          | inr (meas, e) ↦ ground (arith, e, gone)
        ],
      )

module _ {Row : Type 0} (sat : Text → Row → Bool) (row : Row) where
  -- Two role filters on one table reach the WHERE of a roll-up query without brackets round both.
  -- If the database reads the text behind the last OR as an alternative to all before it, then a
  -- row that meets the second role filter passes, whatever the query's own filter asks for.
  pub agg_where-unbracketed :
      {I : Type 0} (model : SemanticModel) (agg : Aggregation) (f : TypedDimensionFilter I)
      (part first_role second_role : Text)
      → filter_part model agg f ≡ part ∷ []
      → let asked = part ++ (codes " AND " ++ (codes "(" ++ (first_role ++ codes ")"))) in
        let other = codes "(" ++ (second_role ++ codes ")") in
        (sat (asked ++ (codes " OR " ++ other)) row ≡ (sat asked row || sat other row))
        → sat other row ≡ true
        → (condition : Text) × (agg_where model agg
              (f ∷ [])
              (combined (first_role ∷ second_role ∷ []) ∷ [])
            ≡ codes " WHERE " ++ condition)
          × (sat condition row ≡ true)
  unfolding agg_where filter_parts where_of join combined
  agg_where-unbracketed model agg f part first_role second_role p reads s =
      let asked = part ++ (codes " AND " ++ (codes "(" ++ (first_role ++ codes ")"))) in
      let other = codes "(" ++ (second_role ++ codes ")") in
      (asked ++ (codes " OR " ++ other), rw p (simp append_assoc), ground (arith, reads, s))
