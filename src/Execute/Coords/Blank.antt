-- ===== src/Execute/Coords/Blank.antt =====
-- src/execute/coords.rs: a coordinate whose first key is the empty text. `coord_key` leaves the
-- separator out while the key is empty, and the keys of the rows are joined with it.
use mallard_cube.Prelude.{
  ℕ, ◌≡◌, refl, inl, inr, Bool, false, Option, none, some, List, [], ◌∷◌, ◌++◌, arith, leb,
  Bool-cases, length, All, All-weaken, Text, text_eq,
}
use mallard_cube.Execute.Coords.{
  separator, coord_mask, coord_key, key_from, join, find, Row, build, get, test_bit, mask_from,
}
use mallard_cube.Execute.Coords.Keys.{NoSep}
use mallard_cube.Execute.Coords.Rollup.{last_row, find-exact_from}

text_eq-joined : (x b t : Text) → NoSep t → text_eq (x ++ separator ∷ b) t ≡ false
unfolding text_eq
text_eq-joined [] b [] h = refl
text_eq-joined [] b (c ∷ t) h = ground arith
text_eq-joined (d ∷ x) b [] h = refl
text_eq-joined (d ∷ x) b (c ∷ t) h = ground (arith, text_eq-joined x b t)

text_eq-join_two :
    (keys : List Text) (t : Text) → length keys ≡ 2 → NoSep t → text_eq (join keys) t ≡ false
unfolding join
text_eq-join_two [] t e h = absurd (omega arith)
text_eq-join_two (x ∷ []) t e h = absurd (omega arith)
text_eq-join_two (x ∷ y ∷ rest) t e h = text_eq-joined x (join (y ∷ rest)) t h

module _ {F : Type 0} (nought : F) (plus : F → F → F) where
  last_row_none :
      (p : List Text → Bool) (rows : List (Row nought plus)) (acc : Option (List F))
      → All (λ (row : Row nought plus). p row.0 ≡ false) rows
      → last_row nought plus p rows acc ≡ acc
  unfolding last_row
  last_row_none p [] acc h = refl
  last_row_none p ((keys, vs) ∷ rows) acc h = rw h.0 (last_row_none p rows acc h.1)

  -- Over two dimensions, a coordinate whose first key is empty and whose second has no separator is
  -- never found, whatever the rows.
  pub get-blank_first :
      (rows : List (Row nought plus)) (n : ℕ) (masks : List ℕ) (t : Text) (mi : ℕ)
      → NoSep t
      → All (λ (row : Row nought plus). length row.0 ≡ 2) rows
      → get nought plus (build nought plus rows n masks) (some [] ∷ some t ∷ []) mi ≡ none
  unfolding get build find coord_mask mask_from coord_key key_from test_bit
  get-blank_first rows n masks t mi h w = elim (Bool-cases (leb n mi)) [
    | inl out ↦ rw out
    | inr inside ↦ rw inside (
        rw (
          find-exact_from nought plus t rows [],
          last_row_none (λ keys. text_eq (join keys) t) rows none
              (All-weaken _ _ rows (λ row k. text_eq-join_two row.0 t k h) w),
        ))
  ]
