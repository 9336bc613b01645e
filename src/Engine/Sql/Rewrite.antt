-- ===== src/Engine/Sql/Rewrite.antt =====
-- src/engine/sql.rs: `rewrite_predicate_for_rollup`, the scan of a role predicate for a roll-up table.
-- Its position is the text that is left, and each round takes a byte at least, so a unit of fuel for
-- each byte is enough. `none` is a predicate that the roll-up cannot evaluate.
pub mod Scan
pub mod Pieces
pub mod Mapped
pub mod Accepted
pub mod Unaliased
use mallard_cube.Prelude.{
  strip, ℕ, zero, suc, ◌+◌, ◌/◌, ◌%◌, Bool, true, false, not, ◌&&◌, ◌||◌, Option, none, some, List,
  [], ◌∷◌, ◌++◌, map, ltb, leb, ◌==◌, if◌then◌else◌, length, get_elem?, drop, is_empty, any,
  first_where, Text, codes, text_eq, to_lower, eq_ignore_case,
}
use mallard_cube.Engine.Model.{DimensionDef, SemanticModel, dim_def, dim_def_opt}
use mallard_cube.Engine.Model.Lookups.{position}
use mallard_cube.Engine.Aggregate.{Aggregation}

unfoldable pub is_letter : ℕ → Bool
is_letter c = (leb b'a' c && leb c b'z') || (leb b'A' c && leb c b'Z')

unfoldable pub is_word : ℕ → Bool
unfolding is_letter
is_word c = is_letter c || ((leb b'0' c && leb c b'9') || c == b'_')

-- `is_ascii_whitespace`
unfoldable pub is_blank : ℕ → Bool
is_blank c = c == 32 || (c == 9 || (c == 10 || (c == 12 || c == 13)))

unfoldable pub after : (ℕ → Bool) → Text → Text
after p [] = []
after p (c ∷ s) = let rest = after p s in if p c then rest else c ∷ s

unfoldable pub before : (ℕ → Bool) → Text → Text
before p [] = []
before p (c ∷ s) = let rest = before p s in if p c then c ∷ rest else []

-- A literal behind its opening quote, and the text behind it; whether a quote was the last byte.
unfoldable pub literal : Bool → Text → Text × Text
literal quote [] = ([], [])
literal false (c ∷ s) = let (l, rest) = literal (c == 39) s in (c ∷ l, rest)
literal true (c ∷ s) =
    let (l, rest) = literal false s in if c == 39 then (c ∷ l, rest) else ([], c ∷ s)

-- `String::push` of a byte that is taken for a character: from 128 on, it has two bytes in UTF-8.
unfoldable pub push_char : ℕ → Text → Text
push_char c s = if ltb c 128 then c ∷ s else (192 + c / 64) ∷ (128 + c % 64) ∷ s

unfoldable pub is_one_of : List Text → Text → Bool
is_one_of words w = any (text_eq w) words

abbrev pub subquery_words : List Text
subquery_words =
    codes "select"
    ∷ codes "from"
    ∷ codes "join"
    ∷ codes "union"
    ∷ codes "exists"
    ∷ codes "with"
    ∷ []

abbrev pub keywords : List Text
keywords =
    codes "and"
    ∷ codes "or"
    ∷ codes "not"
    ∷ codes "in"
    ∷ codes "is"
    ∷ codes "null"
    ∷ codes "true"
    ∷ codes "false"
    ∷ codes "like"
    ∷ codes "ilike"
    ∷ codes "between"
    ∷ codes "cast"
    ∷ codes "as"
    ∷ codes "case"
    ∷ codes "when"
    ∷ codes "then"
    ∷ codes "else"
    ∷ codes "end"
    ∷ codes "distinct"
    ∷ codes "all"
    ∷ codes "any"
    ∷ codes "some"
    ∷ []

unfoldable pub starts : ℕ → Text → Bool
starts c [] = false
starts c (d ∷ s) = d == c

unfoldable pub prepend : Text → Option Text → Option Text
prepend s none = none
prepend s (some t) = some (s ++ t)

-- The text behind the column of an alias, if a dot comes first.
unfoldable pub column_at : Text → Text
unfolding after is_blank
column_at rest = after is_blank (drop 1 (after is_blank rest))

module _ (model : SemanticModel) (agg : Aggregation) where
  unfoldable pub rollup_columns : List Text
  rollup_columns = agg.date_columns ++ map (λ c. c.1) agg.leaf_columns

  unfoldable pub date_column : DimensionDef → Text → Option Text
  unfolding position
  date_column date_dim col = elim (position (λ l. text_eq l.column col) 0 date_dim.levels) [
    | none ↦ none
    | some idx ↦ if ltb agg.date_level idx then none else get_elem? agg.date_columns idx
  ]

  unfoldable pub leaf_column : Text → Text → Option Text
  unfolding dim_def_opt
  leaf_column dim_id col = elim (first_where (λ c. eq_ignore_case c.0 dim_id) agg.leaf_columns) [
    | none ↦ none
    | some (leaf_id, _) ↦ elim (dim_def_opt model leaf_id) [
      | none ↦ none
      | some dim ↦ if text_eq dim.physical_field col then some col else none
    ]
  ]

  unfoldable pub dim_column : DimensionDef → Text → Text → Option Text
  unfolding date_column leaf_column
  dim_column date_dim dim_id col =
      if eq_ignore_case dim_id agg.date_dim_id
      then date_column date_dim col
      else leaf_column dim_id col

  -- A column behind an alias: `f` is the fact table, `_d` the table of a dimension.
  unfoldable pub aliased : DimensionDef → Text → Text → Option Text
  unfolding rollup_columns dim_column is_one_of
  aliased date_dim alias col =
      if text_eq alias (codes "f")
      then if is_one_of rollup_columns col then some col else none
      else elim (strip (codes "_") alias) [ none ↦ none | some dim ↦ dim_column date_dim dim col ]

  module _ (date_dim : DimensionDef) where
    -- A word, what stands behind it, and the results of the scan behind the column and behind the word.
    unfoldable pub word_of : Text → Text → Option Text → Option Text → Option Text
    unfolding aliased rollup_columns is_one_of starts column_at after before prepend is_word
        is_blank
    word_of ident rest behind_column behind_word =
        let lower = map to_lower ident in
        let ahead = after is_blank rest in
        let col = before is_word (column_at rest) in
        if is_one_of subquery_words lower
        then none
        else if starts b'.' ahead
        then (if is_empty col then none else elim (aliased date_dim lower col) [
          | none ↦ none
          | some mapped ↦ prepend mapped behind_column
        ])
        else if is_one_of keywords lower || (starts b'(' ahead || is_one_of rollup_columns ident)
        then prepend ident behind_word
        else none

    unfoldable pub scan_word : Text → Text → (Text → Option Text) → Option Text
    unfolding word_of column_at after
    scan_word ident rest scan =
        word_of ident rest (scan (after is_word (column_at rest))) (scan rest)

    unfoldable pub scan_step : ℕ → Text → (Text → Option Text) → Option Text
    unfolding scan_word literal push_char is_letter is_word
    scan_step c s scan =
        if c == 39
        then prepend (39 ∷ (literal false s).0) (scan (literal false s).1)
        else if c == 34
        then none
        else if is_letter c || c == b'_'
        then scan_word (c ∷ before is_word s) (after is_word s) scan
        else prepend (push_char c []) (scan s)

    unfoldable pub scan_from : ℕ → Text → Option Text
    unfolding scan_step
    scan_from fuel [] = some []
    scan_from zero (c ∷ s) = none
    scan_from (suc fuel) (c ∷ s) = scan_step c s (scan_from fuel)

    unfoldable pub scan_predicate : Text → Option Text
    unfolding scan_from
    scan_predicate predicate = scan_from (length predicate) predicate

  -- The outer `none` is the panic on a dimension that the model does not have.
  unfoldable pub rewrite_predicate_for_rollup : Text → Option (Option Text)
  unfolding dim_def scan_predicate
  rewrite_predicate_for_rollup predicate = elim (dim_def model agg.date_dim_id) [
    | none ↦ none
    | some date_dim ↦ some (scan_predicate date_dim predicate)
  ]
