-- ===== src/Engine/Ranking/Top.antt =====
-- src/engine/plan.rs: the sort by value, and what the first of the sorted rows are.
use mallard_cube.Prelude.{
  ℕ, zero, suc, min, ◌≡◌, refl, ap, ◌∙◌, inl, inr, Bool, true, false, some, List, [], ◌∷◌, ◌++◌,
  arith, Bool-cases, length, drop, take, All, All-weaken, Text,
}
use mathlib.Core.List.{Perm}
use mathlib.Core.List.Perm
use mallard_cube.Mdx.SetOps.{AxisSetOp}
use mallard_cube.Engine.Ranking.{Floats, before, insert_row, sort_by_value, apply_op, apply_set_op}

take-drop : {A : Type 0} (n : ℕ) (xs : List A) → take n xs ++ drop n xs ≡ xs
take-drop zero xs = refl
take-drop (suc n) [] = refl
take-drop (suc n) (x ∷ xs) = rw (take-drop n xs) refl

length-take-min : {A : Type 0} (n : ℕ) (xs : List A) → length (take n xs) ≡ min n (length xs)
length-take-min zero xs = omega arith
length-take-min (suc n) [] = omega arith
length-take-min (suc n) (x ∷ xs) = omega (arith, length-take-min n xs)

module _ {F : Type 0} (floats : Floats F) (desc : Bool) where
  -- No row of the list stands strictly before this one.
  unfoldable pub IsFront : Text × F → List (Text × F) → Type 0
  IsFront a rows = All (λ b. before floats desc b a ≡ false) rows

  unfoldable pub IsSorted : List (Text × F) → Type 0
  unfolding IsFront
  IsSorted [] = Unit
  IsSorted (a ∷ rows) = IsFront a rows × IsSorted rows

  Perm-insert_row :
      (a : Text × F) (rows : List (Text × F)) → Perm (insert_row floats desc a rows) (a ∷ rows)
  unfolding insert_row
  Perm-insert_row a [] = Perm.refl (a ∷ [])
  Perm-insert_row a (b ∷ rows) = elim (Bool-cases (before floats desc b a)) [
    | inl e ↦ rw e (Perm.trans (Perm.cons b (Perm-insert_row a rows)) (Perm.swap a b rows))
    | inr e ↦ rw e (Perm.refl (a ∷ b ∷ rows))
  ]

  Perm-sort_by_value : (rows : List (Text × F)) → Perm (sort_by_value floats desc rows) rows
  unfolding sort_by_value
  Perm-sort_by_value [] = Perm.refl []
  Perm-sort_by_value (a ∷ rows) =
      Perm.trans (Perm-insert_row a (sort_by_value floats desc rows))
        (Perm.cons a (Perm-sort_by_value rows))

  All-insert_row {κ} :
      (P : Text × F → Type κ) (a : Text × F) (rows : List (Text × F))
      → P a
      → All P rows
      → All P (insert_row floats desc a rows)
  unfolding insert_row
  All-insert_row P a [] p ps = (p, tt)
  All-insert_row P a (b ∷ rows) p ps = elim (Bool-cases (before floats desc b a)) [
    | inl e ↦ rw e (ps.0, All-insert_row P a rows p ps.1)
    | inr e ↦ rw e (p, ps)
  ]

length-insert_row :
    {F : Type 0} (floats : Floats F) (desc : Bool) (a : Text × F) (rows : List (Text × F))
    → length (insert_row floats desc a rows) ≡ suc (length rows)
unfolding insert_row
length-insert_row floats desc a [] = refl
length-insert_row floats desc a (b ∷ rows) =
    let later = length-insert_row floats desc a rows in ground arith

length-sort_by_value :
    {F : Type 0} (floats : Floats F) (desc : Bool) (rows : List (Text × F))
    → length (sort_by_value floats desc rows) ≡ length rows
unfolding sort_by_value
length-sort_by_value floats desc [] = refl
length-sort_by_value floats desc (a ∷ rows) =
    length-insert_row floats desc a (sort_by_value floats desc rows)
    ∙ ap suc (length-sort_by_value floats desc rows)

-- Comparison of numbers as a strict order of what is not equal.
pub record IsStrict {F : Type 0} (floats : Floats F) : Type 0 where
  pub asymmetric : (a b : F) → floats.less a b ≡ true → floats.less b a ≡ false
  pub negative :
      (a b c : F) → floats.less a b ≡ false → floats.less b c ≡ false → floats.less a c ≡ false

module _ {F : Type 0} (floats : Floats F) (strict : IsStrict floats) where
  before-asymmetric :
      (desc : Bool) (a b : Text × F)
      → before floats desc a b ≡ true
      → before floats desc b a ≡ false
  unfolding before
  before-asymmetric true a b = strict.asymmetric b.1 a.1
  before-asymmetric false a b = strict.asymmetric a.1 b.1

  before-negative :
      (desc : Bool) (a b c : Text × F)
      → before floats desc a b ≡ false
      → before floats desc b c ≡ false
      → before floats desc a c ≡ false
  unfolding before
  before-negative true a b c h k = strict.negative c.1 b.1 a.1 k h
  before-negative false a b c h k = strict.negative a.1 b.1 c.1 h k

  IsSorted-insert_row :
      (desc : Bool) (a : Text × F) (rows : List (Text × F))
      → IsSorted floats desc rows
      → IsSorted floats desc (insert_row floats desc a rows)
  unfolding IsSorted IsFront insert_row
  IsSorted-insert_row desc a [] h = (tt, tt)
  IsSorted-insert_row desc a (b ∷ rows) h = elim (Bool-cases (before floats desc b a)) [
    | inl e ↦ rw e (
      All-insert_row floats desc (λ x. before floats desc x b ≡ false) a rows
          (before-asymmetric desc b a e) h.0,
      IsSorted-insert_row desc a rows h.1,
    )
    | inr e ↦ rw e (
      (
        e,
        All-weaken (λ x. before floats desc x b ≡ false) (λ x. before floats desc x a ≡ false) rows
            (λ x k. before-negative desc x b a k e) h.0,
      ),
      h,
    )
  ]

  IsSorted-sort_by_value :
      (desc : Bool) (rows : List (Text × F)) → IsSorted floats desc (sort_by_value floats desc rows)
  unfolding IsSorted sort_by_value
  IsSorted-sort_by_value desc [] = tt
  IsSorted-sort_by_value desc (a ∷ rows) =
      IsSorted-insert_row desc a (sort_by_value floats desc rows) (IsSorted-sort_by_value desc rows)

  All-drop {κ} :
      (P : Text × F → Type κ) (n : ℕ) (rows : List (Text × F)) → All P rows → All P (drop n rows)
  All-drop P zero rows h = h
  All-drop P (suc n) [] h = tt
  All-drop P (suc n) (a ∷ rows) h = All-drop P n rows h.1

  All-take {κ} :
      (P : Text × F → Type κ) (n : ℕ) (rows : List (Text × F)) → All P rows → All P (take n rows)
  All-take P zero rows h = tt
  All-take P (suc n) [] h = tt
  All-take P (suc n) (a ∷ rows) h = (h.0, All-take P n rows h.1)

  -- No row that is left out stands strictly before one that is taken.
  unfoldable pub IsTop : Bool → List (Text × F) → List (Text × F) → Type 0
  IsTop desc kept dropped = All (λ a. IsFront floats desc a dropped) kept

  IsTop-take :
      (desc : Bool) (n : ℕ) (rows : List (Text × F))
      → IsSorted floats desc rows
      → IsTop desc (take n rows) (drop n rows)
  unfolding IsTop IsSorted IsFront
  IsTop-take desc zero rows h = tt
  IsTop-take desc (suc n) [] h = tt
  IsTop-take desc (suc n) (a ∷ rows) h =
      (All-drop (λ b. before floats desc b a ≡ false) n rows h.0, IsTop-take desc n rows h.1)

  IsSorted-take :
      (desc : Bool) (n : ℕ) (rows : List (Text × F))
      → IsSorted floats desc rows
      → IsSorted floats desc (take n rows)
  unfolding IsSorted IsFront
  IsSorted-take desc zero rows h = tt
  IsSorted-take desc (suc n) [] h = tt
  IsSorted-take desc (suc n) (a ∷ rows) h =
      (All-take (λ b. before floats desc b a ≡ false) n rows h.0, IsSorted-take desc n rows h.1)

  -- The rows of `TopCount` and of `BottomCount` are in the order of their values, as many as were
  -- asked for, or all; they and the other rows are the rows of the result, each as often as it was;
  -- and none of the others has a value that is better than one of theirs. It needs a comparison
  -- that is a strict order of what is not equal.
  pub apply_set_op-IsTop :
      (desc : Bool) (n : ℕ) (rows : List (Text × F))
      → let kept = apply_set_op floats (some (AxisSetOp.top_count n desc)) rows in
        (dropped : List (Text × F)) × Perm (kept ++ dropped) rows
        × (length kept ≡ min n (length rows))
        × IsSorted floats desc kept
        × IsTop desc kept dropped
  unfolding apply_set_op apply_op
  apply_set_op-IsTop desc n rows =
      let sorted = sort_by_value floats desc rows in
      let h = IsSorted-sort_by_value desc rows in
      (
        drop n sorted,
        rw (take-drop n sorted) (Perm-sort_by_value floats desc rows),
        length-take-min n sorted ∙ ap (min n) (length-sort_by_value floats desc rows),
        IsSorted-take desc n sorted h,
        IsTop-take desc n sorted h,
      )
