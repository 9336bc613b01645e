-- ===== src/Execute/Coords/Rollup.antt =====
-- src/execute/coords.rs: the maps that `build` fills.
use mallard_cube.Prelude.{
  ℕ, ◌≡◌, refl, ap, ◌∙◌, inl, inr, Bool, false, Option, none, some, List, [], ◌∷◌, arith, ◌==◌,
  if◌then◌else◌, ==_iff, Bool-cases, any, Text, text_eq, text_eq_iff,
}
use mallard_cube.Execute.Coords.{
  join, kept, find, put, or_else, zeros, add_row, add_to, buckets, exact_from, rollups_of,
  rollup_for, Row,
}

pub find-put {ℓ} :
    {A : Type ℓ} (j i : Text) (a : A) (m : List (Text × A))
    → find j (put i a m) ≡ (if text_eq i j then some a else find j m)
unfolding find put
find-put j i a [] = refl
find-put j i a ((k, b) ∷ rest) =
    ground (arith, text_eq_iff i j, text_eq_iff k i, text_eq_iff k j, find-put j i a rest)

module _ {F : Type 0} (nought : F) (plus : F → F → F) where
  -- The sum of the rows that `p` selects, from the first to the last, onto what is there already.
  unfoldable pub sum_rows :
      (List Text → Bool) → ℕ → List (Row nought plus) → Option (List F) → Option (List F)
  sum_rows p n [] acc = acc
  sum_rows p n ((keys, vs) ∷ rows) acc =
      sum_rows p n rows
        (if p keys then some (add_row nought plus (or_else acc (zeros nought plus n)) vs) else acc)

  find-add_to :
      (n : ℕ) (j i : Text) (vs : List F) (m : List (Text × List F))
      → find j (add_to nought plus n i vs m) ≡ (
          if text_eq i j
          then some (add_row nought plus (or_else (find j m) (zeros nought plus n)) vs)
          else find j m)
  unfolding add_to
  find-add_to n j i vs m = elim (Bool-cases (text_eq i j)) [
    | inl same ↦ let e = (text_eq_iff i j).0 same in rw (find-put, same, e) refl
    | inr other ↦ rw (find-put, other) refl
  ]

  pub find-buckets :
      (n mask : ℕ) (j : Text) (rows : List (Row nought plus)) (m : List (Text × List F))
      → find j (buckets nought plus n mask rows m)
        ≡ sum_rows (λ keys. text_eq (join (kept mask 0 keys)) j) n rows (find j m)
  unfolding buckets sum_rows add_to
  find-buckets n mask j [] m = refl
  find-buckets n mask j ((keys, vs) ∷ rows) m =
      find-buckets n mask j rows _
      ∙ ap (sum_rows (λ ks. text_eq (join (kept mask 0 ks)) j) n rows)
          (find-add_to n j (join (kept mask 0 keys)) vs m)

  -- The values of the last row that `p` selects.
  unfoldable pub last_row :
      (List Text → Bool) → List (Row nought plus) → Option (List F) → Option (List F)
  last_row p [] acc = acc
  last_row p ((keys, vs) ∷ rows) acc = last_row p rows (if p keys then some vs else acc)

  pub find-exact_from :
      (j : Text) (rows : List (Row nought plus)) (m : List (Text × List F))
      → find j (exact_from nought plus rows m)
        ≡ last_row (λ keys. text_eq (join keys) j) rows (find j m)
  unfolding exact_from last_row
  find-exact_from j [] m = refl
  find-exact_from j ((keys, vs) ∷ rows) m =
      find-exact_from j rows (put (join keys) vs m)
      ∙ ap (last_row (λ ks. text_eq (join ks) j) rows) (find-put j (join keys) vs m)

  pub rollup_for-rollups_of :
      (n mask : ℕ) (rows : List (Row nought plus)) (masks : List ℕ)
      → (mask == 0) ≡ false
      → rollup_for nought plus mask (rollups_of nought plus n rows masks)
        ≡ (if any (λ m. m == mask) masks then some (buckets nought plus n mask rows []) else none)
  unfolding rollup_for rollups_of
  rollup_for-rollups_of n mask rows [] h = refl
  rollup_for-rollups_of n mask rows (m ∷ masks) h =
      let later = rollup_for-rollups_of n mask rows masks h in
      elim (Bool-cases (m == 0)) [
        | inl z ↦ let other : (m == mask) ≡ false = ground arith in rw (z, other) later
        | inr nz ↦ elim (Bool-cases (m == mask)) [
          | inl same ↦
              rw (nz, same)
                (ap (λ k. some (buckets nought plus n k rows [])) ((==_iff m mask).0 same))
          | inr other ↦ rw (nz, other) later
        ]
      ]
