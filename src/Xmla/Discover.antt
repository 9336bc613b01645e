-- ===== src/Xmla/Discover.antt =====
-- src/xmla/discover/mod.rs: what the metadata rowsets share, the names that are in scope, the keys
-- and captions of dates, and the restrictions on visibility and on names.
pub mod Dates
use mallard_cube.Prelude.{
  trim, ℕ, ◌+◌, Bool, true, false, not, ◌&&◌, ◌||◌, Option, none, some, List, [], ◌∷◌, ◌++◌, leb,
  ◌==◌, if◌then◌else◌, length, get_elem?, any, Text, codes, eq_ignore_case,
}
use mallard_cube.Access.Config.{ProxyConfig}
use mallard_cube.Access.Users.{UserContext}
use mallard_cube.Access.Tables.{table_visible}
use mallard_cube.Engine.Model.{SemanticModel, dim_table_for_discovery}
use mallard_cube.Engine.Model.Lookups.{strip_date_member_time}
use mallard_cube.Execute.Coords.{test_bit}
use mallard_cube.Mdx.Parser.Statement.{split}

-- An `i32`: `pos n` is n, and `negsuc n` is -(n + 1).
pub data Signed : Type 0 where
  pos : ℕ → Signed
  negsuc : ℕ → Signed

pub record Restrictions : Type 0 where
  pub catalog_name : Option Text
  pub cube_name : Option Text
  pub dimension_unique_name : Option Text
  pub hierarchy_unique_name : Option Text
  pub level_unique_name : Option Text
  pub property_name : Option Text
  pub origin : Option Signed
  pub member_type : Option Signed
  pub seen : List Text
  pub schema_name : Option Text
  pub property_catalog : Option Text
  pub tmschema_name : Option Text
  pub dimension_name : Option Text
  pub hierarchy_name : Option Text
  pub level_name : Option Text
  pub measure_name : Option Text
  pub measure_unique_name : Option Text
  pub measuregroup_name : Option Text
  pub dimension_visibility : Option Signed
  pub hierarchy_visibility : Option Signed
  pub level_visibility : Option Signed
  pub measure_visibility : Option Signed
  pub property_visibility : Option Signed

unfoldable pub matches : Text → Option Text → Bool
matches value none = true
matches value (some wanted) = eq_ignore_case (trim value) (trim wanted)

unfoldable pub in_scope : Restrictions → Text → Text → Bool
unfolding matches
in_scope restrictions catalog cube =
    matches catalog restrictions.catalog_name && matches cube restrictions.cube_name

unfoldable pub measures_visible : SemanticModel → ProxyConfig → UserContext → Bool
unfolding table_visible
measures_visible model config user =
    any (λ t. table_visible config user t.table_name) model.fact_tables

-- The outer `none` is a panic on an unknown id.
unfoldable pub dimension_visible : SemanticModel → ProxyConfig → UserContext → Text → Option Bool
unfolding table_visible dim_table_for_discovery
dimension_visible model config user dim_id = elim (dim_table_for_discovery model dim_id) [
  | none ↦ none
  | some t ↦ some (table_visible config user t)
]

-- A digit, or a hyphen at the two places of hyphens; the index counts from the front.
unfoldable pub is_date_byte : ℕ → ℕ → Bool
is_date_byte i b = i == 4 || i == 7 || (leb b'0' b && leb b b'9')

unfoldable pub all_date_bytes : ℕ → Text → Bool
unfolding is_date_byte
all_date_bytes i [] = true
all_date_bytes i (b ∷ bs) = is_date_byte i b && all_date_bytes (i + 1) bs

unfoldable pub is_hyphen : Option ℕ → Bool
is_hyphen none = false
is_hyphen (some b) = b == b'-'

unfoldable pub is_iso_date : Text → Bool
unfolding is_hyphen all_date_bytes
is_iso_date value =
    length value == 10
    && is_hyphen (get_elem? value 4)
    && is_hyphen (get_elem? value 7)
    && all_date_bytes 0 value

unfoldable pub date_member_key : Text → Text
unfolding is_iso_date
date_member_key value = if is_iso_date value then value ++ codes "T00:00:00" else value

-- `trim_start_matches('0')`
unfoldable pub skip_zeros : Text → Text
skip_zeros [] = []
skip_zeros (b ∷ bs) = let rest = skip_zeros bs in if b == b'0' then rest else b ∷ bs

unfoldable pub caption_of : Text → List Text → Text
unfolding skip_zeros
caption_of value (year ∷ month ∷ day ∷ more) =
    skip_zeros month ++ (codes "/" ++ (skip_zeros day ++ (codes "/" ++ year)))
caption_of value _ = value

unfoldable pub date_member_caption : Text → Text
unfolding is_iso_date caption_of split
date_member_caption value = if is_iso_date value then caption_of value (split b'-' value) else value

unfoldable pub date_member_value : Text → Text
unfolding strip_date_member_time
date_member_value key = strip_date_member_time key

pub data Visibility : Type 0 where
  visible : Visibility
  hidden : Visibility
  both : Visibility
  nothing : Visibility
  invalid : Visibility

unfoldable pub mode_of : Bool → Bool → Visibility
mode_of true true = both
mode_of true false = visible
mode_of false true = hidden
mode_of false false = nothing

unfoldable pub visibility : Option Signed → Visibility
unfolding mode_of test_bit
visibility none = visible
visibility (some (negsuc n)) = invalid
visibility (some (pos n)) = mode_of (test_bit n 0) (test_bit n 1)

unfoldable pub visibility_selects : Visibility → Bool → Bool
visibility_selects visible is_visible = is_visible
visibility_selects hidden is_visible = not is_visible
visibility_selects both is_visible = true
visibility_selects nothing is_visible = false
visibility_selects invalid is_visible = false

unfoldable pub name_matches : Option Text → List Text → Bool
name_matches none candidates = true
name_matches (some wanted) candidates =
    any (λ candidate. eq_ignore_case candidate (trim wanted)) candidates

-- A restriction holds if it is absent, or there is such a name and it is the same.
unfoldable pub restricted_to : Option Text → Option Text → Bool
restricted_to none name = true
restricted_to (some wanted) none = false
restricted_to (some wanted) (some name) = eq_ignore_case wanted name

unfoldable pub coordinates_match : Restrictions → Text → Option Text → Option Text → Bool
unfolding restricted_to
coordinates_match restrictions dim hier level =
    restricted_to restrictions.dimension_unique_name (some dim)
    && restricted_to restrictions.hierarchy_unique_name hier
    && restricted_to restrictions.level_unique_name level
