-- ===== src/Execute/Coords/Bits.antt =====
-- src/execute/coords.rs: the bits of a mask.
use mallard_cube.Prelude.{
  ℕ, zero, suc, ◌+◌, ◌/◌, ◌%◌, ◌≤◌, ◌<◌, ◌≡◌, refl, ap, subst, ◌∙◌, inl, inr, Bool, true, false,
  not, ◌&&◌, ◌||◌, Option, none, some, [], ◌∷◌, arith, ◌==◌, ==_iff, Bool-cases, length, any, Text,
}
use mallard_cube.Execute.Coords.{test_bit, set_bit, Coord, mask_from, coord_mask}

test_bit-set_bit : (m i j : ℕ) → test_bit (set_bit m i) j ≡ ((i == j) || test_bit m j)
unfolding test_bit set_bit
test_bit-set_bit m zero zero = ground arith
test_bit-set_bit m zero (suc j) = elim (Bool-cases (m % 2 == 1)) [
  | inl odd ↦ rw odd (ground arith)
  | inr even ↦
      let half : (m + 1) / 2 ≡ m / 2 = ground arith in
      rw even (ap (λ h. test_bit h j) half ∙ ground arith)
]
test_bit-set_bit m (suc i) zero = ground arith
test_bit-set_bit m (suc i) (suc j) =
    ap (λ h. test_bit h j) (omega arith) ∙ test_bit-set_bit (m / 2) i j ∙ ground arith

pub test_bit-zero : (i : ℕ) → test_bit 0 i ≡ false
unfolding test_bit
test_bit-zero zero = refl
test_bit-zero (suc i) = test_bit-zero i

abbrev pub is_all : Option Text → Bool
is_all none = true
is_all (some _) = false

abbrev pub has_all : Coord → Bool
has_all coord = any is_all coord

-- Slot `j` is an (All) slot, where the first slot of the list is slot `i`.
all_at : ℕ → Coord → ℕ → Bool
all_at i [] j = false
all_at i (slot ∷ rest) j = (is_all slot && i == j) || all_at (suc i) rest j

all_at_before : (i j : ℕ) (coord : Coord) → j < i → all_at i coord j ≡ false
unfolding all_at
all_at_before i j [] h = refl
all_at_before i j (slot ∷ rest) h = ground (arith, all_at_before (suc i) j rest)

test_bit-mask_from :
    (i m j : ℕ) (coord : Coord)
    → i + length coord ≤ 32
    → test_bit (mask_from i m coord) j ≡ (test_bit m j || all_at i coord j)
unfolding mask_from all_at
test_bit-mask_from i m j [] h = ground arith
test_bit-mask_from i m j (some t ∷ rest) h = test_bit-mask_from (suc i) m j rest (omega arith)
test_bit-mask_from i m j (none ∷ rest) h =
    test_bit-mask_from (suc i) (set_bit m (i % 32)) j rest (omega arith)
    ∙ rw (test_bit-set_bit m (i % 32) j) (ground arith)

-- The bits of the mask, from bit `i` on, say which slots are (All).
abbrev pub Agree : ℕ → ℕ → Coord → Type 0
Agree i mask [] = Unit
Agree i mask (slot ∷ rest) = (test_bit mask (i % 32) ≡ is_all slot) × Agree (suc i) mask rest

Agree-of_bits :
    (i mask : ℕ) (coord : Coord)
    → i + length coord ≤ 32
    → ((j : ℕ) → i ≤ j → test_bit mask j ≡ all_at i coord j)
    → Agree i mask coord
unfolding all_at
Agree-of_bits i mask [] h bits = tt
Agree-of_bits i mask (slot ∷ rest) h bits = (
  ground (arith, bits (i % 32), all_at_before (suc i) (i % 32) rest),
  Agree-of_bits (suc i) mask rest (omega arith) (λ j k. bits j (omega arith) ∙ ground arith),
)

pub coord_mask-Agree : (coord : Coord) → length coord ≤ 32 → Agree 0 (coord_mask coord) coord
unfolding coord_mask
coord_mask-Agree coord h =
    Agree-of_bits 0 (coord_mask coord) coord (omega arith)
      (λ j k. test_bit-mask_from 0 0 j coord (omega arith) ∙ rw (test_bit-zero j))

pub Agree-zero : (i : ℕ) (coord : Coord) → Agree i 0 coord → has_all coord ≡ false
Agree-zero i [] a = refl
Agree-zero i (slot ∷ rest) a =
    ground (arith, a.0, test_bit-zero (i % 32), Agree-zero (suc i) rest a.1)

mask_from-eq : (i m : ℕ) (coord : Coord) → has_all coord ≡ false → mask_from i m coord ≡ m
unfolding mask_from
mask_from-eq i m [] h = refl
mask_from-eq i m (none ∷ rest) h = cc
mask_from-eq i m (some t ∷ rest) h = mask_from-eq (suc i) m rest h

coord_mask-none : (coord : Coord) → has_all coord ≡ false → coord_mask coord ≡ 0
unfolding coord_mask
coord_mask-none coord h = mask_from-eq 0 0 coord h

-- The mask is 0 exactly if no slot is (All).
pub coord_mask-eq-zero :
    (coord : Coord) → length coord ≤ 32 → (coord_mask coord == 0) ≡ not (has_all coord)
coord_mask-eq-zero coord h = elim (Bool-cases (has_all coord)) [
  | inl e ↦ elim (Bool-cases (coord_mask coord == 0)) [
    | inl z ↦
        let a = subst (λ m. Agree 0 m coord) ((==_iff _ _).0 z) (coord_mask-Agree coord h) in
        cc (Agree-zero 0 coord a)
    | inr z ↦ rw (z, e)
  ]
  | inr e ↦ rw (e, coord_mask-none coord e)
]
