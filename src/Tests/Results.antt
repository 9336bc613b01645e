-- ===== src/Tests/Results.antt =====
-- The rows of a result and the key of a plan, at concrete inputs.
use mathlib.Core.List.{Perm}
use mallard_cube.Prelude.{
  Reordered, text_less, swap, ℕ, ◌+◌, ◌/◌, min, ◌≡◌, refl, ◌≢◌, true, false, not, none, some, List,
  [], ◌∷◌, ◌++◌, arith, ltb, leb, ◌==◌, if◌then◌else◌, length, keep, Text, codes, text_eq,
  text_eq_iff,
}
use mallard_cube.Mdx.Ast.{gt}
use mallard_cube.Mdx.Parser.{join}
use mallard_cube.Mdx.SetOps.{AxisSetOp}
use mallard_cube.Access.Users.{UserContext}
use mallard_cube.Execute.CacheKey.{cache_key_at}
use mallard_cube.Execute.CacheKey.Shared.{cache_key_at-same}
use mallard_cube.Engine.Plan.{TypedDimensionFilter, total}
use mallard_cube.Engine.Ranking.{Floats, apply_set_op, apply_set_op_pairs, apply_set_op_grouped_n}
use mallard_cube.Engine.Ranking.Top.{IsTop, IsSorted, IsStrict, apply_set_op-IsTop}
use mallard_cube.Engine.Ranking.Groups.{
  passes, sum_from, apply_set_op_pairs-sums, apply_set_op_pairs-order,
}
use mallard_cube.Engine.Normalize.{Formats, decimal, plan_key}
use mallard_cube.Engine.Normalize.Alike.{
  IsSameFilter, none_differs, each, exchange, chain, SamePlan, totals,
}
use mallard_cube.Engine.Normalize.Commas.{listing, plan_key-comma}

-- Whole numbers, and the half of the rows for any percentage.
abbrev whole : Floats ℕ
whole = record {
  zero = 0;
  plus = λ a b. a + b;
  less = ltb;
  at_most = leb;
  is_near = λ a b. a == b;
  is_far = λ a b. not (a == b);
  share = λ n p. n / 2;
}

whole-IsStrict : IsStrict whole
whole-IsStrict = record {
  asymmetric = λ a b h. ground (arith, h);
  negative = λ a b c h k. ground (arith, h, k);
}

abbrev cities : List (Text × ℕ)
cities = (codes "Bern", 3) ∷ (codes "Rome", 7) ∷ (codes "Oslo", 5) ∷ []

abbrev sales : List (Text × (Text × ℕ))
sales =
    (codes "Bikes", (codes "Web", 4))
    ∷ (codes "Tyres", (codes "Web", 1))
    ∷ (codes "Bikes", (codes "Shop", 3))
    ∷ []

-- The total of the bikes is 7, and of the tyres 1.
test_filtered :
    apply_set_op_pairs whole sales (some (AxisSetOp.filter gt 5))
    ≡ (codes "Bikes", (codes "Web", 4)) ∷ (codes "Bikes", (codes "Shop", 3)) ∷ []
unfolding apply_set_op_pairs text_eq
test_filtered = refl

test_grouped :
    apply_set_op_grouped_n whole
      ((codes "A" ∷ [], 1 ∷ []) ∷ (codes "B" ∷ [], 2 ∷ []) ∷ [])
      (some (AxisSetOp.top_count 1 true))
    ≡ (codes "B" ∷ [], 2 ∷ []) ∷ []
unfolding apply_set_op_grouped_n text_eq
test_grouped = refl

apply_set_op-IsTop_example :
    (dropped : List (Text × ℕ)) × Perm
      (apply_set_op whole (some (AxisSetOp.top_count 2 true)) cities ++ dropped)
      cities
    × (length (apply_set_op whole (some (AxisSetOp.top_count 2 true)) cities)
        ≡ min 2 (length cities))
    × IsSorted whole true (apply_set_op whole (some (AxisSetOp.top_count 2 true)) cities)
    × IsTop whole whole-IsStrict true
        (apply_set_op whole (some (AxisSetOp.top_count 2 true)) cities)
        dropped
apply_set_op-IsTop_example = apply_set_op-IsTop whole whole-IsStrict true 2 cities

apply_set_op_pairs-sums_example :
    keep
      (λ row. text_eq row.0 (codes "Bikes"))
      (apply_set_op_pairs whole sales (some (AxisSetOp.filter gt 5)))
    ≡ (if passes whole gt 5 (sum_from whole none (codes "Bikes") sales)
        then keep (λ row. text_eq row.0 (codes "Bikes")) sales
        else [])
apply_set_op_pairs-sums_example = apply_set_op_pairs-sums whole (codes "Bikes") gt 5 sales

apply_set_op_pairs-order_example :
    apply_set_op_pairs whole sales (some (AxisSetOp.order true)) ≡ sales
apply_set_op_pairs-order_example = apply_set_op_pairs-order whole true sales

abbrev formats : Formats ℕ ℕ
formats = record { float = decimal; signed = decimal; quoted = λ t. t }

-- Two filters on different dimensions.
abbrev on_region : TypedDimensionFilter ℕ
on_region = listing (codes "Region") (codes "EU" ∷ codes "US" ∷ [])

abbrev on_region_back : TypedDimensionFilter ℕ
on_region_back = listing (codes "Region") (codes "US" ∷ codes "EU" ∷ [])

abbrev on_date : TypedDimensionFilter ℕ
on_date = listing (codes "Date") (codes "2024" ∷ [])

test_key :
    plan_key formats (total (codes "M") (on_region ∷ on_date ∷ []))
    ≡ codes "total|measure=M|filters=Date=2024@@None;Region=EU,US@@None"
unfolding plan_key listing join
test_key = refl

differ : text_eq (codes "Region") (codes "Date") ≡ true → ⊥
unfolding text_eq
differ h = cc h

regions : codes "Region" ≢ codes "Date"
regions e = differ ((text_eq_iff (codes "Region") (codes "Date")).1 e)

continents : codes "EU" ≢ codes "US"
unfolding text_eq
continents e = cc ((text_eq_iff (codes "EU") (codes "US")).1 e)

abbrev reordered :
    SamePlan {F = ℕ}
      (total (codes "M") (on_region ∷ on_date ∷ []))
      (total (codes "M") (on_date ∷ on_region_back ∷ []))
unfolding listing IsSameFilter
reordered = totals (codes "M") (
    chain (exchange on_region on_date [] regions) (
      each on_date on_date (refl, Reordered.same (codes "2024" ∷ []))
        (each on_region on_region_back (refl, swap (codes "EU") (codes "US") [] continents)
          (none_differs []))))

-- A user with two roles.
abbrev eve : UserContext
eve = record {
  user_id = codes "eve";
  groups = [];
  roles = codes "EU" ∷ codes "US" ∷ [];
  is_administrator = false;
}

cache_key_at-same_example :
    cache_key_at
      (λ rs. [])
      (plan_key formats (total (codes "M") (on_region ∷ on_date ∷ [])))
      (codes "Db")
      (codes "Sales")
      eve
      []
      7
    ≡ cache_key_at
        (λ rs. [])
        (plan_key formats (total (codes "M") (on_date ∷ on_region_back ∷ [])))
        (codes "Db")
        (codes "Sales")
        (record eve { roles = codes "US" ∷ codes "EU" ∷ []; groups = [] })
        []
        7
cache_key_at-same_example =
    cache_key_at-same formats (λ rs. []) (codes "Db") (codes "Sales") eve
      (codes "US" ∷ codes "EU" ∷ []) [] [] 7 reordered
      (swap (codes "EU") (codes "US") [] continents) (Reordered.same [])

plan_key-comma_example :
    plan_key formats (
      total
        (codes "M")
        (listing (codes "City") ((codes "Paris" ++ (codes "," ++ codes "Texas")) ∷ []) ∷ []))
    ≡ plan_key formats
        (total (codes "M") (listing (codes "City") (codes "Paris" ∷ codes "Texas" ∷ []) ∷ []))
unfolding text_less
plan_key-comma_example =
    plan_key-comma formats (codes "M") (codes "City") (codes "Paris") (codes "Texas") refl
