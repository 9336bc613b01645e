-- ===== src/Tests/Discovery.antt =====
-- src/xmla/discover/mod.rs at concrete inputs.
use mallard_cube.Prelude.{◌≡◌, refl, false, some, Text, codes, text_eq}
use mallard_cube.Engine.Model.Lookups.{strip_date_member_time}
use mallard_cube.Execute.Coords.{test_bit}
use mallard_cube.Mdx.Parser.Statement.{split}
use mallard_cube.Xmla.Discover.{
  date_member_caption, date_member_key, date_member_value, visibility, visibility_selects, pos,
}
use mallard_cube.Xmla.Discover.Dates.{date_member_value-key}

abbrev new_year : Text
new_year = codes "2020-01-01"

test_caption : date_member_caption new_year ≡ codes "1/1/2020"
unfolding date_member_caption split
test_caption = refl

test_key : date_member_key new_year ≡ codes "2020-01-01T00:00:00"
unfolding date_member_key
test_key = refl

-- A mask of 5 asks for what is visible.
test_visibility : visibility_selects (visibility (some (pos 5))) false ≡ false
unfolding visibility visibility_selects test_bit
test_visibility = refl

no_key : strip_date_member_time new_year ≡ new_year
unfolding strip_date_member_time text_eq
no_key = refl

date_member_value-key_example : date_member_value (date_member_key new_year) ≡ new_year
date_member_value-key_example = date_member_value-key new_year no_key
