-- ===== src/Execute/Coords/Values.antt =====
-- src/execute/coords.rs: the answers of `get`.
use mallard_cube.Prelude.{
  ℕ, zero, suc, ◌%◌, ◌≤◌, ◌<◌, ◌≡◌, refl, ap, subst, ◌∙◌, inl, inr, Bool, true, false, not, Option,
  none, some, List, [], ◌∷◌, arith, leb, ◌==◌, if◌then◌else◌, ==_iff, Bool-cases, length, get_elem?,
  any, All, All-weaken, Text, text_eq,
}
use mallard_cube.Execute.Coords.{
  Coord, coord_mask, coord_key, join, kept, find, or_else, zeros, add_row, value_at, value_in, Row,
  build, get,
}
use mallard_cube.Execute.Coords.Bits.{
  Agree, has_all, coord_mask-Agree, coord_mask-eq-zero, test_bit-zero,
}
use mallard_cube.Execute.Coords.Keys.{NoSep, NoSepSlot, matches, text_eq-coord_key}
use mallard_cube.Execute.Coords.Rollup.{
  sum_rows, last_row, find-buckets, find-exact_from, rollup_for-rollups_of,
}

module _ {F : Type 0} (nought : F) (plus : F → F → F) where
  -- The rows of a result at a coordinate of `n` slots: `n` keys each, without the separator.
  abbrev pub WellKeyed : ℕ → Row nought plus → Type 0
  WellKeyed n row = (length row.0 ≡ n) × All NoSep row.0

  -- The rows added up in order, from zero: the value of measure `mi` at a coordinate with (All) slots.
  abbrev plus_value : Option F → List F → ℕ → F
  plus_value acc vs mi = elim (get_elem? vs mi) [
    | none ↦ or_else acc nought
    | some v ↦ plus (or_else acc nought) v
  ]

  unfoldable pub total_at : Coord → ℕ → List (Row nought plus) → Option F → Option F
  total_at coord mi [] acc = acc
  total_at coord mi ((keys, vs) ∷ rows) acc =
      total_at coord mi rows (if matches coord keys then some (plus_value acc vs mi) else acc)

  unfoldable pub last_at : Coord → ℕ → List (Row nought plus) → Option F → Option F
  last_at coord mi [] acc = acc
  last_at coord mi ((keys, vs) ∷ rows) acc =
      last_at coord mi rows (if matches coord keys then some (value_at nought plus vs mi) else acc)

  length-add_row : (bs vs : List F) → length (add_row nought plus bs vs) ≡ length bs
  unfolding add_row
  length-add_row [] vs = refl
  length-add_row (b ∷ bs) [] = refl
  length-add_row (b ∷ bs) (v ∷ vs) = ap suc (length-add_row bs vs)

  length-zeros : (n : ℕ) → length (zeros nought plus n) ≡ n
  unfolding zeros
  length-zeros zero = refl
  length-zeros (suc n) = ap suc (length-zeros n)

  value_at-zeros : (n mi : ℕ) → value_at nought plus (zeros nought plus n) mi ≡ nought
  unfolding zeros
  value_at-zeros zero mi = refl
  value_at-zeros (suc n) zero = refl
  value_at-zeros (suc n) (suc mi) = value_at-zeros n mi

  value_at-add_row :
      (bs vs : List F) (mi : ℕ)
      → mi < length bs
      → value_at nought plus (add_row nought plus bs vs) mi
        ≡ plus_value (some (value_at nought plus bs mi)) vs mi
  unfolding add_row
  value_at-add_row [] vs mi h = absurd (omega arith)
  value_at-add_row (b ∷ bs) [] mi h = refl
  value_at-add_row (b ∷ bs) (v ∷ vs) zero h = refl
  value_at-add_row (b ∷ bs) (v ∷ vs) (suc mi) h = value_at-add_row bs vs mi (omega arith)

  -- A bucket is not there yet, or has a slot for each measure.
  abbrev Full : ℕ → Option (List F) → Type 0
  Full n none = Unit
  Full n (some b) = length b ≡ n

  value-step :
      (n mi : ℕ) (vs : List F) (acc : Option (List F))
      → mi < n
      → Full n acc
      → value_at nought plus (add_row nought plus (or_else acc (zeros nought plus n)) vs) mi
        ≡ plus_value (value_in nought plus acc mi) vs mi
  value-step n mi vs (some b) h f = value_at-add_row b vs mi (omega arith)
  value-step n mi vs none h f =
      value_at-add_row (zeros nought plus n) vs mi (omega (arith, length-zeros n))
      ∙ ap (λ x. plus_value (some x) vs mi) (value_at-zeros n mi)

  Full-step :
      (n : ℕ) (vs : List F) (acc : Option (List F))
      → Full n acc
      → Full n (some (add_row nought plus (or_else acc (zeros nought plus n)) vs))
  Full-step n vs (some b) f = length-add_row b vs ∙ f
  Full-step n vs none f = length-add_row (zeros nought plus n) vs ∙ length-zeros n

  value-sum_rows :
      (p : List Text → Bool) (coord : Coord) (n mi : ℕ) (rows : List (Row nought plus))
      (acc : Option (List F))
      → mi < n
      → All (λ (row : Row nought plus). p row.0 ≡ matches coord row.0) rows
      → Full n acc
      → value_in nought plus (sum_rows nought plus p n rows acc) mi
        ≡ total_at coord mi rows (value_in nought plus acc mi)
  unfolding sum_rows total_at
  value-sum_rows p coord n mi [] acc h k f = refl
  value-sum_rows p coord n mi ((keys, vs) ∷ rows) acc h k f =
      elim (Bool-cases (matches coord keys)) [
        | inl hit ↦
            rw (k.0, hit)
              (value-sum_rows p coord n mi rows _ h k.1 (Full-step n vs acc f)
                ∙ ap (λ x. total_at coord mi rows (some x)) (value-step n mi vs acc h f))
        | inr miss ↦ rw (k.0, miss) (value-sum_rows p coord n mi rows acc h k.1 f)
      ]

  value-last_row :
      (p : List Text → Bool) (coord : Coord) (mi : ℕ) (rows : List (Row nought plus))
      (acc : Option (List F))
      → All (λ (row : Row nought plus). p row.0 ≡ matches coord row.0) rows
      → value_in nought plus (last_row nought plus p rows acc) mi
        ≡ last_at coord mi rows (value_in nought plus acc mi)
  unfolding last_row last_at
  value-last_row p coord mi [] acc k = refl
  value-last_row p coord mi ((keys, vs) ∷ rows) acc k = elim (Bool-cases (matches coord keys)) [
    | inl hit ↦ rw (k.0, hit) (value-last_row p coord mi rows (some vs) k.1)
    | inr miss ↦ rw (k.0, miss) (value-last_row p coord mi rows acc k.1)
  ]

  rows_match :
      (coord : Coord) (mask : ℕ) (rows : List (Row nought plus))
      → Agree 0 mask coord
      → All NoSepSlot coord
      → All (WellKeyed (length coord)) rows
      → All
          (λ (row : Row nought plus).
            text_eq (join (kept mask 0 row.0)) (coord_key coord mask) ≡ matches coord row.0)
          rows
  rows_match coord mask rows a h w =
      All-weaken (WellKeyed (length coord)) _ rows
        (λ row k. text_eq-coord_key coord mask row.0 a h k.0 k.1) w

  kept-zero : (i : ℕ) (keys : List Text) → kept 0 i keys ≡ keys
  unfolding kept
  kept-zero i [] = refl
  kept-zero i (k ∷ ks) = rw (test_bit-zero (i % 32)) (ap (λ r. k ∷ r) (kept-zero (suc i) ks))

  -- The value at a coordinate, as the result's rows say it.
  abbrev pub value_of : List (Row nought plus) → Coord → ℕ → Option F
  value_of rows coord mi =
      if has_all coord then total_at coord mi rows none else last_at coord mi rows none

  get-rolled :
      (rows : List (Row nought plus)) (n : ℕ) (masks : List ℕ) (coord : Coord) (mi : ℕ)
      → mi < n
      → length coord ≤ 32
      → All NoSepSlot coord
      → All (WellKeyed (length coord)) rows
      → any (λ m. m == coord_mask coord) masks ≡ true
      → has_all coord ≡ true
      → get nought plus (build nought plus rows n masks) coord mi ≡ total_at coord mi rows none
  unfolding get build find
  get-rolled rows n masks coord mi h l c w asked e =
      let nz : (coord_mask coord == 0) ≡ false = coord_mask-eq-zero coord l ∙ ap not e in
      let inside : leb n mi ≡ false = ground arith in
      rw (inside, nz, rollup_for-rollups_of nought plus n (coord_mask coord) rows masks nz, asked)
        (rw
          (find-buckets nought plus n (coord_mask coord) (coord_key coord (coord_mask coord)) rows
            [])
          (value-sum_rows _ coord n mi rows none h
            (rows_match coord (coord_mask coord) rows (coord_mask-Agree coord l) c w) tt))

  get-exact :
      (rows : List (Row nought plus)) (n : ℕ) (masks : List ℕ) (coord : Coord) (mi : ℕ)
      → mi < n
      → length coord ≤ 32
      → All NoSepSlot coord
      → All (WellKeyed (length coord)) rows
      → has_all coord ≡ false
      → get nought plus (build nought plus rows n masks) coord mi ≡ last_at coord mi rows none
  unfolding get build find
  get-exact rows n masks coord mi h l c w e =
      let z : (coord_mask coord == 0) ≡ true = coord_mask-eq-zero coord l ∙ ap not e in
      let inside : leb n mi ≡ false = ground arith in
      let agree =
        subst (λ m. Agree 0 m coord) ((==_iff (coord_mask coord) 0).0 z)
          (coord_mask-Agree coord l) in
      rw (inside, z)
        (rw (find-exact_from nought plus (coord_key coord 0) rows []) (
          value-last_row (λ keys. text_eq (join keys) (coord_key coord 0)) coord mi rows none
            (All-weaken _ _ rows (λ row k. rw (kept-zero 0 row.0) at k)
              (rows_match coord 0 rows agree c w))))

  -- Where the keys of a coordinate are not empty, `get` on an index that `build` made gives what
  -- the rows of the result say: with (All) slots the sum of the rows at the coordinate, in their
  -- order; otherwise the last row at it; nothing where no row is. It needs a measure below the
  -- number of measures, at most 32 slots, keys of coordinate and rows without the separator, rows
  -- with as many keys as there are slots, and for (All) slots a mask among those that were asked
  -- for.
  pub get-build :
      (rows : List (Row nought plus)) (n : ℕ) (masks : List ℕ) (coord : Coord) (mi : ℕ)
      → mi < n
      → length coord ≤ 32
      → All NoSepSlot coord
      → All (WellKeyed (length coord)) rows
      → (has_all coord ≡ true → any (λ m. m == coord_mask coord) masks ≡ true)
      → get nought plus (build nought plus rows n masks) coord mi ≡ value_of rows coord mi
  get-build rows n masks coord mi h l c w asked = elim (Bool-cases (has_all coord)) [
    | inl e ↦ rw e (get-rolled rows n masks coord mi h l c w (asked e) e)
    | inr e ↦ rw e (get-exact rows n masks coord mi h l c w e)
  ]
