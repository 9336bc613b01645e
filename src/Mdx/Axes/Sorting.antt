-- ===== src/Mdx/Axes/Sorting.antt =====
-- src/mdx/frontend.rs: the order in which the axes are visited.
use mallard_cube.Prelude.{
  ℕ, ◌≤◌, ◌≡◌, refl, ap, ◌∙◌, ◌≢◌, inl, inr, Bool, List, [], ◌∷◌, map, arith, leb, ◌==◌, Bool-cases,
  keep,
}
use mallard_cube.Mdx.Ast.{Axis, Select}
use mallard_cube.Mdx.Axes.{
  axes, collect_axes, insert_axis, sort_axes, axis_dimension_ids, axis_specs, spec_of,
}

-- Two axes with different numbers can be inserted in either order.
insert_axis-swap :
    (a b : Axis) (as' : List Axis)
    → a.ordinal ≢ b.ordinal
    → insert_axis a (insert_axis b as') ≡ insert_axis b (insert_axis a as')
unfolding insert_axis
insert_axis-swap a b [] h = ground arith
insert_axis-swap a b (c ∷ cs) h = let later = insert_axis-swap a b cs h in ground arith

-- Two lists with the same axes, each number once.
pub data Reordered : List Axis → List Axis → Type 0 where
  same : (xs : List Axis) → Reordered xs xs
  skip : {xs ys : List Axis} (a : Axis) → Reordered xs ys → Reordered (a ∷ xs) (a ∷ ys)
  swap : (a b : Axis) (xs : List Axis) → a.ordinal ≢ b.ordinal → Reordered (a ∷ b ∷ xs) (b ∷ a ∷ xs)
  both : {xs ys zs : List Axis} → Reordered xs ys → Reordered ys zs → Reordered xs zs

pub sort_axes-Reordered : {xs ys : List Axis} → Reordered xs ys → sort_axes xs ≡ sort_axes ys
unfolding sort_axes
sort_axes-Reordered (same xs) = refl
sort_axes-Reordered (skip a r) = ap (insert_axis a) (sort_axes-Reordered r)
sort_axes-Reordered (swap a b xs h) = insert_axis-swap a b (sort_axes xs) h
sort_axes-Reordered (both r s) = sort_axes-Reordered r ∙ sort_axes-Reordered s

-- Two statements whose axes differ by exchanging neighbours with different numbers, any number of
-- times, have the same dimensions on their axes and the same axis descriptions.
pub axis_dimension_ids-Reordered :
    (s t : Select)
    → Reordered (axes s) (axes t)
    → (axis_dimension_ids s ≡ axis_dimension_ids t) × (axis_specs s ≡ axis_specs t)
unfolding axis_dimension_ids axis_specs
axis_dimension_ids-Reordered s t r =
    let same_axes = sort_axes-Reordered r in
    (ap (λ (as' : List Axis). collect_axes as' []) same_axes, ap (map spec_of) same_axes)

-- The numbers do not fall from the front to the back, and none is below `lo`.
unfoldable pub IsOrdered : ℕ → List Axis → Type 0
IsOrdered lo [] = Unit
IsOrdered lo (a ∷ more) = (lo ≤ a.ordinal) × IsOrdered a.ordinal more

IsOrdered-insert :
    (lo : ℕ) (a : Axis) (bs : List Axis)
    → lo ≤ a.ordinal
    → IsOrdered lo bs
    → IsOrdered lo (insert_axis a bs)
unfolding IsOrdered insert_axis
IsOrdered-insert lo a [] h k = (h, tt)
IsOrdered-insert lo a (b ∷ bs) h k = elim (Bool-cases (leb a.ordinal b.ordinal)) [
  | inl e ↦ rw (e, insert_axis) (h, (ground (arith, e), k.1))
  | inr e ↦ rw (e, insert_axis) (k.0, IsOrdered-insert b.ordinal a bs (ground (arith, e)) k.1)
]

sort_axes-IsOrdered : (bs : List Axis) → IsOrdered 0 (sort_axes bs)
unfolding sort_axes IsOrdered
sort_axes-IsOrdered [] = tt
sort_axes-IsOrdered (b ∷ bs) =
    IsOrdered-insert 0 b (sort_axes bs) (omega arith) (sort_axes-IsOrdered bs)

abbrev pub numbered : ℕ → Axis → Bool
numbered n a = a.ordinal == n

keep-insert :
    (n : ℕ) (a : Axis) (bs : List Axis)
    → keep (numbered n) (insert_axis a bs) ≡ keep (numbered n) (a ∷ bs)
unfolding insert_axis
keep-insert n a [] = refl
keep-insert n a (b ∷ bs) = let later = keep-insert n a bs in ground arith

keep-sort : (n : ℕ) (bs : List Axis) → keep (numbered n) (sort_axes bs) ≡ keep (numbered n) bs
unfolding sort_axes
keep-sort n [] = refl
keep-sort n (b ∷ bs) = let same = keep-sort n bs in keep-insert n b (sort_axes bs) ∙ ground arith

-- `sort_axes` puts the axes in the order of their numbers, and the axes of each number stay all and
-- in the order in which they were.
pub sort_axes-stable :
    (bs : List Axis)
    → IsOrdered 0 (sort_axes bs)
      × ((n : ℕ) → keep (numbered n) (sort_axes bs) ≡ keep (numbered n) bs)
sort_axes-stable bs = (sort_axes-IsOrdered bs, λ n. keep-sort n bs)
