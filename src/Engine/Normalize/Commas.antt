-- ===== src/Engine/Normalize/Commas.antt =====
-- src/engine/normalize.rs: what the key of a plan does not tell apart.
use mallard_cube.Prelude.{text_less, ◌≡◌, refl, false, none, List, [], ◌∷◌, ◌++◌, Text, codes}
use mallard_cube.Mdx.Parser.{join}
use mallard_cube.Engine.Plan.{TypedDimensionFilter, total}
use mallard_cube.Engine.Normalize.{
  Formats, members_text, value_text, filter_text, has_content, of_parts, filter_suffix, plan_key,
}

-- A filter that lists members, and asks for nothing else.
unfoldable pub listing : {I : Type 0} → Text → List Text → TypedDimensionFilter I
listing dim members = record {
  dimension = dim;
  members = members;
  level = none;
  time_flag = none;
  range = none;
  date_window = none;
  label = none;
}

module _ {F I : Type 0} (formats : Formats F I) where
  -- A filter on one member with a comma in its name, and one on the two members that the comma
  -- parts, if these are in their order, give plans with one key.
  pub plan_key-comma :
      (measure dim a b : Text)
      → text_less b a ≡ false
      → plan_key formats (total measure (listing dim ((a ++ (codes "," ++ b)) ∷ []) ∷ []))
        ≡ plan_key formats (total measure (listing dim (a ∷ b ∷ []) ∷ []))
  unfolding plan_key filter_suffix filter_text value_text members_text has_content of_parts listing
      join
  plan_key-comma measure dim a b h = rw h refl
