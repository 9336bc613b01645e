-- ===== src/Prelude/Trim.antt =====
-- `str::trim` on the bytes of a text: the encodings of Unicode's white space are taken off both ends.
use Prim.Native.Nat.{ℕ, zero, suc}
use mathlib.Core.Bool.{true, false}
use mathlib.Core.List.{List, [], ◌∷◌, ◌++◌, map, reverse}
use mathlib.Core.Option.{Option, none, some}
use mallard_cube.Prelude.Tests.{◌==◌}
use mallard_cube.Prelude.Lists.{length}
use mallard_cube.Prelude.Strings.{Text}

-- `strip_prefix`
unfoldable pub strip : Text → Text → Option Text
strip [] s = some s
strip (c ∷ n) [] = none
strip (c ∷ n) (d ∷ s) = elim (c == d) [ true ↦ strip n s | false ↦ none ]

-- U+2000 to U+200A, the last byte of each.
abbrev quads : List ℕ
quads = 128 ∷ 129 ∷ 130 ∷ 131 ∷ 132 ∷ 133 ∷ 134 ∷ 135 ∷ 136 ∷ 137 ∷ 138 ∷ []

-- Every code point with the property White_Space, in UTF-8.
abbrev white_spaces : List Text
white_spaces =
    map (λ (c : ℕ). c ∷ []) (9 ∷ 10 ∷ 11 ∷ 12 ∷ 13 ∷ 32 ∷ [])
    ++ ((0xc2 ∷ 0x85 ∷ [])
        ∷ (0xc2 ∷ 0xa0 ∷ [])
        ∷ (0xe1 ∷ 0x9a ∷ 0x80 ∷ [])
        ∷ (map (λ (c : ℕ). 0xe2 ∷ 0x80 ∷ c ∷ []) (quads ++ 0xa8 ∷ 0xa9 ∷ 0xaf ∷ [])
            ++ ((0xe2 ∷ 0x81 ∷ 0x9f ∷ []) ∷ (0xe3 ∷ 0x80 ∷ 0x80 ∷ []) ∷ [])))

-- The text behind the first of `ws` that begins it.
strip_any : List Text → Text → Option Text
unfolding strip
strip_any [] s = none
strip_any (w ∷ ws) s = elim (strip w s) [ none ↦ strip_any ws s | some rest ↦ some rest ]

-- A white space takes a byte at least, so a unit of fuel for each byte is enough.
trim_from : ℕ → List Text → Text → Text
unfolding strip_any
trim_from zero ws s = s
trim_from (suc fuel) ws s = elim (strip_any ws s) [ none ↦ s | some rest ↦ trim_from fuel ws rest ]

unfoldable pub trim : Text → Text
unfolding trim_from
trim s =
    let tail = reverse (trim_from (length s) white_spaces s) in
    reverse (trim_from (length tail) (map reverse white_spaces) tail)
