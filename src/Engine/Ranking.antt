-- ===== src/Engine/Ranking.antt =====
-- src/engine/plan.rs: `apply_set_op` and what calls it, the operations on the rows of a result.
-- Floating-point numbers are any type `F`, with the operations on them that the source uses. The
-- sort is stable, and takes values that do not compare as equal.
pub mod Groups
pub mod Top
use mallard_cube.Prelude.{
  ℕ, Bool, true, false, Option, none, some, List, [], ◌∷◌, if◌then◌else◌, length, take, first, any,
  keep, Text, text_eq,
}
use mallard_cube.Mdx.Ast.{CmpOp, gt, ge, lt, le, eq, ne}
use mallard_cube.Mdx.SetOps.{AxisSetOp}

-- `less` and `at_most` compare, `is_near` is a difference below 1e-9, `is_far` one
-- of 1e-9 at least, which a value that is no number is neither, and `share` is the number of
-- rows that a percentage of so many is, rounded up.
pub record Floats (F : Type 0) : Type 0 where
  pub zero : F
  pub plus : F → F → F
  pub less : F → F → Bool
  pub at_most : F → F → Bool
  pub is_near : F → F → Bool
  pub is_far : F → F → Bool
  pub share : ℕ → F → ℕ

module _ {F : Type 0} (floats : Floats F) where
  -- Does the first row stand strictly before the second?
  unfoldable pub before : Bool → Text × F → Text × F → Bool
  before desc a b = if desc then floats.less b.1 a.1 else floats.less a.1 b.1

  unfoldable pub insert_row : Bool → Text × F → List (Text × F) → List (Text × F)
  unfolding before
  insert_row desc a [] = a ∷ []
  insert_row desc a (b ∷ rows) =
      let rest = insert_row desc a rows in if before desc b a then b ∷ rest else a ∷ b ∷ rows

  unfoldable pub sort_by_value : Bool → List (Text × F) → List (Text × F)
  unfolding insert_row
  sort_by_value desc [] = []
  sort_by_value desc (a ∷ rows) = insert_row desc a (sort_by_value desc rows)

  unfoldable pub compare : CmpOp → F → F → Bool
  compare gt v value = floats.less value v
  compare ge v value = floats.at_most value v
  compare lt v value = floats.less v value
  compare le v value = floats.at_most v value
  compare eq v value = floats.is_near v value
  compare ne v value = floats.is_far v value

  -- Is the text the key of one of the rows?
  unfoldable pub names : Text → List (Text × F) → Bool
  names key rows = any (λ r. text_eq r.0 key) rows

  unfoldable pub apply_op : AxisSetOp F → List (Text × F) → List (Text × F)
  unfolding sort_by_value compare names
  apply_op (AxisSetOp.top_count n desc) rows = take n (sort_by_value desc rows)
  apply_op (AxisSetOp.top_count_filter n desc) rows =
      keep (λ row. names row.0 (take n (sort_by_value desc rows))) rows
  apply_op (AxisSetOp.top_percent p) rows =
      take (floats.share (length rows) p) (sort_by_value true rows)
  apply_op (AxisSetOp.order desc) rows = sort_by_value desc rows
  apply_op (AxisSetOp.filter op value) rows = keep (λ row. compare op row.1 value) rows

  unfoldable pub apply_set_op : Option (AxisSetOp F) → List (Text × F) → List (Text × F)
  unfolding apply_op
  apply_set_op none rows = rows
  apply_set_op (some op) rows = apply_op op rows

  unfoldable pub add_total : Text → F → List (Text × F) → List (Text × F)
  add_total outer value [] = (outer, value) ∷ []
  add_total outer value (t ∷ totals) =
      let rest = add_total outer value totals in
      if text_eq t.0 outer then (t.0, floats.plus t.1 value) ∷ totals else t ∷ rest

  -- Two dimensions: a row is its outer key, its inner key and its value.
  unfoldable pub totals_of : List (Text × F) → List (Text × (Text × F)) → List (Text × F)
  unfolding add_total
  totals_of totals [] = totals
  totals_of totals (row ∷ rows) = totals_of (add_total row.0 row.1.1 totals) rows

  unfoldable pub apply_set_op_pairs :
      List (Text × (Text × F)) → Option (AxisSetOp F) → List (Text × (Text × F))
  unfolding apply_set_op totals_of names
  apply_set_op_pairs rows none = rows
  apply_set_op_pairs rows (some op) =
      keep (λ row. names row.0 (apply_set_op (some op) (totals_of [] rows))) rows

  -- More dimensions: a row is its keys and its values.
  unfoldable pub first_value : List F → F
  first_value [] = floats.zero
  first_value (v ∷ vs) = v

  unfoldable pub totals_of_grouped : List (Text × F) → List (List Text × List F) → List (Text × F)
  unfolding add_total first_value
  totals_of_grouped totals [] = totals
  totals_of_grouped totals (row ∷ rows) = elim (first row.0) [
    | none ↦ totals_of_grouped totals rows
    | some outer ↦ totals_of_grouped (add_total outer (first_value row.1) totals) rows
  ]

  unfoldable pub is_kept : List (Text × F) → Option Text → Bool
  unfolding names
  is_kept totals none = false
  is_kept totals (some outer) = names outer totals

  unfoldable pub apply_set_op_grouped_n :
      List (List Text × List F) → Option (AxisSetOp F) → List (List Text × List F)
  unfolding apply_set_op totals_of_grouped is_kept
  apply_set_op_grouped_n rows none = rows
  apply_set_op_grouped_n rows (some op) =
      let totals = apply_set_op (some op) (totals_of_grouped [] rows) in
      keep (λ row. is_kept totals (first row.0)) rows
