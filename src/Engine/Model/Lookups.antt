-- ===== src/Engine/Model/Lookups.antt =====
-- src/engine/model.rs: look-ups by the names that a statement writes, and the level that a member
-- reference names.
use mallard_cube.Prelude.{
  trim, ℕ, ◌+◌, ◌-◌, max, Bool, false, not, ◌&&◌, ◌||◌, Option, none, some, List, [], ◌∷◌, ◌++◌,
  reverse, ltb, ◌==◌, if◌then◌else◌, length, get_elem?, drop, take, is_empty, first, first_where,
  keep, Text, codes, text_eq, eq_ignore_case,
}
use mallard_cube.Mdx.Parser.Statement.{split}
use mallard_cube.Mdx.Walk.{contains}
use mallard_cube.Engine.Model.{
  LevelDef, DimensionDef, FallbackCapability, scalar_only, stub, MeasureDef, SemanticModel,
  meas_def,
}

-- The advertised form of a date has 19 bytes, `T` behind the date, and ends with midnight.
unfoldable pub strip_date_member_time : Text → Text
unfolding text_eq
strip_date_member_time key =
    if length key == 19
      && (text_eq (take 1 (drop 10 key)) (codes "T") && text_eq (drop 11 key) (codes "00:00:00"))
    then take 10 key
    else key

unfoldable pub children_cardinality_at : DimensionDef → Option ℕ → ℕ
children_cardinality_at d none = 0
children_cardinality_at d (some level) =
    if is_empty d.levels
    then d.cardinality_hint
    else elim (get_elem? d.levels (level + 1)) [ none ↦ 0 | some next ↦ max next.cardinality 1 ]

unfoldable pub last : List LevelDef → Option LevelDef
last [] = none
last (l ∷ []) = some l
last (l ∷ k ∷ ls) = last (k ∷ ls)

unfoldable pub key_hierarchy_name : DimensionDef → Option Text
unfolding last
key_hierarchy_name d = elim (last d.levels) [
  | none ↦ none
  | some leaf ↦
      if d.is_date_role && not (text_eq d.hierarchy_name leaf.name) then some leaf.name else none
]

unfoldable pub key_level : DimensionDef → Option LevelDef
unfolding key_hierarchy_name
key_level d = elim (key_hierarchy_name d) [ none ↦ none | some name ↦ last d.levels ]

unfoldable pub position : (LevelDef → Bool) → ℕ → List LevelDef → Option ℕ
position p i [] = none
position p i (l ∷ ls) = let later = position p (i + 1) ls in if p l then some i else later

-- Is the level at the depth of the key path named so, or is the first level?
unfoldable pub names_depth : List LevelDef → ℕ → Text → Bool
names_depth levels depth level_name = elim (get_elem? levels depth) [
  | none ↦ false
  | some level ↦
      text_eq level.name level_name
      || elim (first levels) [ none ↦ false | some l ↦ text_eq l.name level_name ]
]

unfoldable pub member_level_index : DimensionDef → Text → Text → Option ℕ
unfolding names_depth position
member_level_index d level_name key_path =
    let depth = length (split b'|' key_path) - 1 in
    if names_depth d.levels depth level_name
    then some depth
    else position (λ l. text_eq l.name level_name) 0 d.levels

-- `trim_matches` of brackets.
unfoldable pub is_bracket : ℕ → Bool
is_bracket c = c == b'[' || c == b']'

unfoldable pub skip_brackets : Text → Text
unfolding is_bracket
skip_brackets [] = []
skip_brackets (c ∷ s) = let rest = skip_brackets s in if is_bracket c then rest else c ∷ s

unfoldable pub trim_brackets : Text → Text
unfolding skip_brackets
trim_brackets s = reverse (skip_brackets (reverse (skip_brackets s)))

unfoldable pub is_measure_named : Text → Text → MeasureDef → Bool
unfolding eq_ignore_case
is_measure_named text clean m =
    eq_ignore_case m.id text
    || (eq_ignore_case m.id clean
        || (eq_ignore_case m.caption text
            || (eq_ignore_case m.caption clean
                || (eq_ignore_case m.display_name text || eq_ignore_case m.display_name clean))))

unfoldable pub lookup_measure : SemanticModel → Text → Option MeasureDef
unfolding is_measure_named trim_brackets
lookup_measure model text = first_where (is_measure_named text (trim_brackets text)) model.measures

unfoldable pub dimension_unique_name : DimensionDef → Text
dimension_unique_name d = codes "[" ++ (d.caption ++ codes "]")

unfoldable pub is_dimension_named : Text → Text → DimensionDef → Bool
unfolding dimension_unique_name
is_dimension_named text clean d =
    text_eq d.caption clean
    || (text_eq d.id clean
        || (text_eq d.id text
            || (text_eq d.caption text || contains clean (dimension_unique_name d))))

unfoldable pub lookup_dimension : SemanticModel → Text → Option DimensionDef
unfolding is_dimension_named trim_brackets
lookup_dimension model text =
    first_where (is_dimension_named text (trim_brackets text)) model.dimensions

unfoldable pub dim_by_caption : SemanticModel → Text → Option DimensionDef
dim_by_caption model caption = first_where (λ d. text_eq d.caption caption) model.dimensions

unfoldable pub default_measure_id : SemanticModel → Option Text
default_measure_id model = elim (first_where (λ m. m.visible) model.measures) [
  | none ↦ none
  | some m ↦ some m.id
]

-- `min_by_key` keeps the first of the least.
unfoldable pub least : Option DimensionDef → List DimensionDef → Option DimensionDef
least best [] = best
least best (d ∷ ds) =
    least
      (elim best [ none ↦ some d | some b ↦ if ltb d.ordinal b.ordinal then some d else some b ]) ds

unfoldable pub default_dimension_id : SemanticModel → Option Text
unfolding least
default_dimension_id model = elim (least none (keep (λ d. d.visible) model.dimensions)) [
  | none ↦ none
  | some d ↦ some d.id
]

-- `upper` is Unicode's `to_uppercase`.
unfoldable pub classify_sql : (Text → Text) → Text → FallbackCapability
classify_sql upper sql =
    let up = upper sql in
    if text_eq (trim up) (codes "SELECT 1 AS DUMMY;")
      || (contains (codes "SELECT 1 AS DUMMY") up || contains (codes "TODO") up)
    then stub
    else scalar_only

unfoldable pub classify_fallback :
    (Text → Text) → SemanticModel → Text → Option (Option FallbackCapability)
unfolding meas_def classify_sql
classify_fallback upper model meas_id = elim (meas_def model meas_id) [
  | none ↦ none
  | some m ↦ elim m.fallback_capability [
    | some cap ↦ some (some cap)
    | none ↦ elim m.sql_fallback_sql [
      | none ↦ some none
      | some sql ↦ some (some (classify_sql upper sql))
    ]
  ]
]
