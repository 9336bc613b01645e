-- ===== src/Engine/DimCache.antt =====
-- src/engine/dim_cache.rs: the member dictionaries of dimensions, built once for each data epoch,
-- dimension and role predicate. The backend is an argument: what it answers to a query, and whether
-- it has recorded a failure. A poisoned lock, which the source passes over, does not occur here.
pub mod Transparent
use mallard_cube.Prelude.{
  ℕ, ◌+◌, ◌%◌, ◌^◌, min, Bool, true, false, not, ◌&&◌, ◌||◌, Option, none, some, List, [], ◌∷◌,
  ◌++◌, map, leb, ◌==◌, if◌then◌else◌, length, get_elem?, take, is_empty, keep, Text, codes,
  text_eq,
}
use mallard_cube.Mdx.Parser.{join}
use mallard_cube.Mdx.Parser.Statement.{split}

pub record DimMembers : Type 0 where
  pub all_cardinality : ℕ
  pub leaf_values : List Text
  pub level_paths : List (List (List Text))

unfoldable pub path_count : DimMembers → ℕ → Option ℕ
path_count m i = elim (get_elem? m.level_paths i) [
  | none ↦ none
  | some paths ↦ some (length paths % 2 ^ 32)
]

unfoldable pub texts_eq : List Text → List Text → Bool
texts_eq [] [] = true
texts_eq (s ∷ ss) (t ∷ ts) = text_eq s t && texts_eq ss ts
texts_eq _ _ = false

-- Is the path at least `n` parts long, and are its first `n` parts those?
unfoldable pub is_under : ℕ → List Text → List Text → Bool
is_under n parts path = leb n (length path) && texts_eq (take n path) (take n parts)

unfoldable pub child_count : DimMembers → ℕ → Text → ℕ
child_count m i key_path = elim (get_elem? m.level_paths (i + 1)) [
  | none ↦ 0
  | some next ↦
      let parts = keep (λ p. not (is_empty p)) (split b'|' key_path) in
      if is_empty parts
      then 0
      else length (keep (is_under (min (length parts) (i + 1)) parts) next) % 2 ^ 32
]

-- What the queries use of a `DimensionDef`; `columns` are those of its levels.
pub record Dimension : Type 0 where
  pub id : Text
  pub physical_field : Text
  pub columns : List Text

-- What the backend answers to the text of a query.
abbrev pub Backend : Type 0
Backend = Text → List Text

abbrev pub where_clause : Text → Text
where_clause where_sql = if is_empty where_sql then [] else codes " WHERE " ++ where_sql

unfoldable pub query_leaf_values : Backend → Dimension → Text → Text → List Text
query_leaf_values query d table where_sql = query (
    codes "SELECT DISTINCT "
    ++ (d.physical_field
        ++ (codes " FROM "
            ++ (table ++ (where_clause where_sql ++ (codes " ORDER BY " ++ d.physical_field))))))

abbrev pub cast : Text → Text
cast column = codes "CAST(" ++ (column ++ codes " AS VARCHAR)")

unfoldable pub concat : List Text → Text
concat (c ∷ []) = cast c
concat cs = codes "(" ++ (join (codes " || '|' || ") (map cast cs) ++ codes ")")

-- The columns up to each level.
unfoldable pub prefixes : List Text → List Text → List (List Text)
prefixes before [] = []
prefixes before (c ∷ cs) = (before ++ c ∷ []) ∷ prefixes (before ++ c ∷ []) cs

unfoldable pub query_level_paths : Backend → Dimension → Text → Text → List (List (List Text))
query_level_paths query d table where_sql =
    map
      (λ (cs : List Text). map (split b'|') (
        query (
          codes "SELECT DISTINCT "
          ++ (concat cs
              ++ (codes " FROM " ++ (table ++ (where_clause where_sql ++ codes " ORDER BY 1")))))))
      (prefixes [] d.columns)

abbrev pub first_length : List (List (List Text)) → ℕ
first_length [] = 0
first_length (paths ∷ _) = length paths

unfoldable pub build : Backend → Dimension → Text → Text → DimMembers
build query d table where_sql =
    if is_empty d.columns
    then record {
      all_cardinality = length (query_leaf_values query d table where_sql) % 2 ^ 32;
      leaf_values = query_leaf_values query d table where_sql;
      level_paths = [];
    }
    else record {
      all_cardinality = first_length (query_level_paths query d table where_sql) % 2 ^ 32;
      leaf_values = [];
      level_paths = query_level_paths query d table where_sql;
    }

-- Data epoch, dimension and role predicate.
abbrev pub DictKey : Type 0
DictKey = ℕ × Text × Option Text

unfoldable pub option_eq : Option Text → Option Text → Bool
option_eq none none = true
option_eq (some s) (some t) = text_eq s t
option_eq _ _ = false

unfoldable pub key_eq : DictKey → DictKey → Bool
key_eq (e, d, p) (e', d', p') = (e == e' && text_eq d d') && option_eq p p'

abbrev pub DimCache : Type 0
DimCache = List (DictKey × DimMembers)

unfoldable pub find_dict : DictKey → DimCache → Option DimMembers
find_dict key [] = none
find_dict key ((k, m) ∷ more) =
    let rest = find_dict key more in if key_eq k key then some m else rest

abbrev pub or_empty : Option Text → Text
or_empty none = []
or_empty (some p) = p

-- The insertion. A dictionary of a failed query is not kept. An entry that another call has put under
-- the key in the meantime is shadowed, as the source replaces it.
unfoldable pub store_built : DictKey → DimMembers → Bool → DimCache → DimCache
store_built key built failed c = if failed then c else (key, built) ∷ c

unfoldable pub get_with_filter :
    ℕ → Dimension → Text → Backend → Bool → Option Text → DimCache → DimCache × DimMembers
get_with_filter epoch d table query failed predicate c =
    elim (find_dict (epoch, d.id, predicate) c) [
      | some hit ↦ (c, hit)
      | none ↦
          let built = build query d table (or_empty predicate) in
          (store_built (epoch, d.id, predicate) built failed c, built)
    ]

abbrev pub get : ℕ → Dimension → Text → Backend → Bool → DimCache → DimCache × DimMembers
get epoch d table query failed c = get_with_filter epoch d table query failed none c

unfoldable pub get_filtered :
    ℕ → Dimension → Text → Backend → Bool → Text → DimCache → DimCache × DimMembers
get_filtered epoch d table query failed predicate c =
    if is_empty predicate
    then get epoch d table query failed c
    else get_with_filter epoch d table query failed (some predicate) c

unfoldable pub clear : DimCache → DimCache
clear c = []
