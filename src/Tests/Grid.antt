-- ===== src/Tests/Grid.antt =====
-- src/execute/coords.rs at a result of three rows over two dimensions.
use mallard_cube.Prelude.{
  ℕ, ◌+◌, ◌≡◌, refl, true, none, some, List, [], ◌∷◌, arith, ◌==◌, any, All, Text, codes,
}
use mallard_cube.Execute.Coords.{Coord, build, get, coord_mask, mask_from, set_bit}
use mallard_cube.Execute.Coords.Values.{value_of, get-build, WellKeyed}
use mallard_cube.Execute.Coords.Blank.{get-blank_first}

abbrev rows : List (List Text × List ℕ)
rows =
    (codes "north" ∷ codes "red" ∷ [], 5 ∷ [])
    ∷ (codes "north" ∷ codes "blue" ∷ [], 7 ∷ [])
    ∷ (codes "south" ∷ codes "red" ∷ [], 11 ∷ [])
    ∷ []

-- All products of the north.
abbrev north : Coord
north = some (codes "north") ∷ none ∷ []

rows-WellKeyed : All (WellKeyed 0 (λ a b. a + b) 2) rows
rows-WellKeyed =
    ((refl, (refl, (refl, tt))), ((refl, (refl, (refl, tt))), ((refl, (refl, (refl, tt))), tt)))

north_mask : any (λ m. m == coord_mask north) (2 ∷ []) ≡ true
unfolding coord_mask mask_from set_bit
north_mask = refl

get-build_example :
    get 0 (λ a b. a + b) (build 0 (λ a b. a + b) rows 1 (2 ∷ [])) north 0
    ≡ value_of 0 (λ a b. a + b) rows north 0
get-build_example =
    get-build 0 (λ a b. a + b) rows 1 (2 ∷ []) north 0 (omega arith) (omega arith)
      ((refl, refl), (tt, tt)) rows-WellKeyed (λ asked. north_mask)

get-blank_first_example :
    get 0 (λ a b. a + b) (build 0 (λ a b. a + b) rows 1 []) (some [] ∷ some (codes "red") ∷ []) 0
    ≡ none
get-blank_first_example =
    get-blank_first 0 (λ a b. a + b) rows 1 [] (codes "red") 0 refl (refl, (refl, (refl, tt)))
