-- ===== src/Execute/Coords.antt =====
-- src/execute/coords.rs: the value at a coordinate of an N-dimensional result. A slot of a
-- coordinate is a member key, or `none` for the (All) member. Values are floating-point numbers:
-- the type `F`, with its zero and its sum, is a parameter, and nothing is assumed of them.
pub mod Bits
pub mod Blank
pub mod Keys
pub mod Rollup
pub mod Values
use mallard_cube.Prelude.{
  ℕ, zero, suc, ◌+◌, ◌*◌, ◌/◌, ◌%◌, Bool, Option, none, some, List, [], ◌∷◌, ◌++◌, leb, ◌==◌,
  if◌then◌else◌, get_elem?, is_empty, Text, text_eq,
}

-- Bit `i` of `m`: `m & (1 << i) != 0`, and `m | (1 << i)`, digit by digit.
unfoldable pub test_bit : ℕ → ℕ → Bool
test_bit m zero = m % 2 == 1
test_bit m (suc i) = test_bit (m / 2) i

unfoldable pub set_bit : ℕ → ℕ → ℕ
set_bit m zero = if m % 2 == 1 then m else m + 1
set_bit m (suc i) = m % 2 + 2 * set_bit (m / 2) i

abbrev pub Coord : Type 0
Coord = List (Option Text)

-- A shift of a `u32` takes its distance modulo 32.
unfoldable pub mask_from : ℕ → ℕ → Coord → ℕ
mask_from i mask [] = mask
mask_from i mask (none ∷ rest) = mask_from (suc i) (set_bit mask (i % 32)) rest
mask_from i mask (some _ ∷ rest) = mask_from (suc i) mask rest

unfoldable pub coord_mask : Coord → ℕ
coord_mask = mask_from 0 0

abbrev pub separator : ℕ
separator = 1

abbrev pub push : Text → Text → Text
push key t = (if is_empty key then key else key ++ separator ∷ []) ++ t

abbrev pub or_empty : Option Text → Text
or_empty none = []
or_empty (some t) = t

-- The separator goes in only once the key is no longer empty.
unfoldable pub key_from : Text → ℕ → ℕ → Coord → Text
key_from key i mask [] = key
key_from key i mask (slot ∷ rest) =
    key_from (if test_bit mask (i % 32) then key else push key (or_empty slot)) (suc i) mask rest

unfoldable pub coord_key : Coord → ℕ → Text
coord_key coord mask = key_from [] 0 mask coord

-- `[..].join("\u{1}")`
unfoldable pub join : List Text → Text
join [] = []
join (t ∷ []) = t
join (t ∷ u ∷ rest) = t ++ separator ∷ join (u ∷ rest)

-- The keys of a row that a mask leaves specified.
unfoldable pub kept : ℕ → ℕ → List Text → List Text
kept mask i [] = []
kept mask i (k ∷ ks) =
    let rest = kept mask (suc i) ks in if test_bit mask (i % 32) then rest else k ∷ rest

unfoldable pub find {ℓ} : {A : Type ℓ} → Text → List (Text × A) → Option A
find j [] = none
find j ((k, a) ∷ rest) = if text_eq k j then some a else find j rest

-- `HashMap::insert`: a later value takes the place of an earlier one.
unfoldable pub put {ℓ} : {A : Type ℓ} → Text → A → List (Text × A) → List (Text × A)
put j a [] = (j, a) ∷ []
put j a ((k, b) ∷ rest) = if text_eq k j then (k, a) ∷ rest else (k, b) ∷ put j a rest

abbrev pub or_else {ℓ} : {A : Type ℓ} → Option A → A → A
or_else none d = d
or_else (some a) d = a

module _ {F : Type 0} (nought : F) (plus : F → F → F) where
  abbrev pub Row : Type 0
  Row = List Text × List F

  abbrev pub value_at : List F → ℕ → F
  value_at vs mi = or_else (get_elem? vs mi) nought

  unfoldable pub zeros : ℕ → List F
  zeros zero = []
  zeros (suc n) = nought ∷ zeros n

  -- `for (mi, value) in values.iter().enumerate().take(n)`, on a bucket of length `n`.
  unfoldable pub add_row : List F → List F → List F
  add_row [] vs = []
  add_row (b ∷ bs) [] = b ∷ bs
  add_row (b ∷ bs) (v ∷ vs) = plus b v ∷ add_row bs vs

  -- `buckets.entry(key).or_insert_with(..)`, and the row added to the bucket.
  unfoldable pub add_to : ℕ → Text → List F → List (Text × List F) → List (Text × List F)
  add_to n key vs m = put key (add_row (or_else (find key m) (zeros n)) vs) m

  unfoldable pub buckets : ℕ → ℕ → List Row → List (Text × List F) → List (Text × List F)
  buckets n mask [] m = m
  buckets n mask ((keys, vs) ∷ rows) m =
      buckets n mask rows (add_to n (join (kept mask 0 keys)) vs m)

  unfoldable pub exact_from : List Row → List (Text × List F) → List (Text × List F)
  exact_from [] m = m
  exact_from ((keys, vs) ∷ rows) m = exact_from rows (put (join keys) vs m)

  pub record CoordIndex : Type 0 where
    pub exact : List (Text × List F)
    pub rollups : List (ℕ × List (Text × List F))
    pub n_measures : ℕ

  -- One roll-up for each mask that is asked for, but for the mask 0.
  unfoldable pub rollups_of : ℕ → List Row → List ℕ → List (ℕ × List (Text × List F))
  rollups_of n rows [] = []
  rollups_of n rows (mask ∷ masks) =
      let rest = rollups_of n rows masks in
      if mask == 0 then rest else (mask, buckets n mask rows []) ∷ rest

  unfoldable pub build : List Row → ℕ → List ℕ → CoordIndex
  build rows n masks = record {
    exact = exact_from rows [];
    rollups = rollups_of n rows masks;
    n_measures = n;
  }

  unfoldable pub rollup_for : ℕ → List (ℕ × List (Text × List F)) → Option (List (Text × List F))
  rollup_for mask [] = none
  rollup_for mask ((m, b) ∷ rest) = if m == mask then some b else rollup_for mask rest

  abbrev pub value_in : Option (List F) → ℕ → Option F
  value_in none mi = none
  value_in (some vs) mi = some (value_at vs mi)

  unfoldable pub get : CoordIndex → Coord → ℕ → Option F
  get index coord mi =
      if leb index.n_measures mi
      then none
      else if coord_mask coord == 0
      then value_in (find (coord_key coord 0) index.exact) mi
      else elim (rollup_for (coord_mask coord) index.rollups) [
        | none ↦ none
        | some b ↦ value_in (find (coord_key coord (coord_mask coord)) b) mi
      ]
