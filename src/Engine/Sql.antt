-- ===== src/Engine/Sql.antt =====
-- src/engine/sql.rs: role predicates in SQL, and the queries on roll-up tables. Where the source
-- panics on an unknown id, the result is `none`.
pub mod Rewrite
pub mod Routing
use mallard_cube.Prelude.{
  Option, none, some, List, [], ◌∷◌, ◌++◌, map, ◌==◌, if◌then◌else◌, get_elem?, is_empty, Text,
  codes, text_eq,
}
use mallard_cube.Mdx.Parser.{join}
use mallard_cube.Execute.Coords.{find}
use mallard_cube.Access.Config.{ProxyConfig}
use mallard_cube.Access.Users.{UserContext}
use mallard_cube.Access.Tables.{TableAccess, full, filtered, hidden, effective_table_filter}
use mallard_cube.Engine.Model.{RelationshipDef, SemanticModel, meas_def}
use mallard_cube.Engine.Plan.{TypedDimensionFilter}
use mallard_cube.Engine.Aggregate.{Aggregation, filter_level}

unfoldable pub filter_text : TableAccess → Text
filter_text (filtered sql) = sql
filter_text full = []
filter_text hidden = []

unfoldable pub role_filter_predicate_for_table : ProxyConfig → UserContext → Text → Text
unfolding filter_text effective_table_filter
role_filter_predicate_for_table config user table_name =
    filter_text (effective_table_filter config user table_name)

-- A predicate in brackets, if there is one.
unfoldable pub bracketed : Text → List Text
bracketed pred = if is_empty pred then [] else (codes "(" ++ (pred ++ codes ")")) ∷ []

unfoldable pub relation_predicates : ProxyConfig → UserContext → List RelationshipDef → List Text
unfolding bracketed role_filter_predicate_for_table
relation_predicates config user [] = []
relation_predicates config user (rel ∷ rels) =
    bracketed (role_filter_predicate_for_table config user rel.dim_table)
    ++ relation_predicates config user rels

-- The role predicates of a query on a fact table: that of the table, then those of its dimensions.
unfoldable pub role_parts : SemanticModel → ProxyConfig → UserContext → Text → List Text
unfolding bracketed role_filter_predicate_for_table relation_predicates
role_parts model config user fact_table_name =
    bracketed (role_filter_predicate_for_table config user fact_table_name)
    ++ relation_predicates config user model.relationships

unfoldable pub where_of : List Text → Text
where_of parts = if is_empty parts then [] else codes " WHERE " ++ join (codes " AND ") parts

-- `replace('\'', "''")`
unfoldable pub escape : Text → Text
escape [] = []
escape (c ∷ s) = let rest = escape s in if c == 39 then 39 ∷ 39 ∷ rest else c ∷ rest

unfoldable pub quoted : Text → Text
unfolding escape
quoted m = 39 ∷ (escape m ++ 39 ∷ [])

unfoldable pub cast : Text → Text
cast col = codes "CAST(" ++ (col ++ codes " AS VARCHAR)")

unfoldable pub in_list : Text → List Text → List Text
unfolding quoted cast
in_list col members =
    if is_empty members
    then []
    else (cast col ++ (codes " IN (" ++ (join (codes ", ") (map quoted members) ++ codes ")"))) ∷ []

module _ {I : Type 0} (model : SemanticModel) (agg : Aggregation) where
  unfoldable pub filter_column : TypedDimensionFilter I → Option Text
  unfolding filter_level find
  filter_column f =
      if text_eq f.dimension agg.date_dim_id
      then get_elem? agg.date_columns (filter_level model agg.date_dim_id f)
      else find f.dimension agg.leaf_columns

  unfoldable pub filter_part : TypedDimensionFilter I → List Text
  unfolding filter_column in_list
  filter_part f = elim (filter_column f) [ none ↦ [] | some col ↦ in_list col f.members ]

  unfoldable pub filter_parts : List (TypedDimensionFilter I) → List Text
  unfolding filter_part
  filter_parts [] = []
  filter_parts (f ∷ fs) = filter_part f ++ filter_parts fs

  unfoldable pub agg_where : List (TypedDimensionFilter I) → List Text → Text
  unfolding filter_parts where_of
  agg_where filters role_predicates = where_of (filter_parts filters ++ role_predicates)

  unfoldable pub agg_total_sql : Text → List (TypedDimensionFilter I) → List Text → Option Text
  unfolding meas_def agg_where
  agg_total_sql measure filters role_predicates = elim (meas_def model measure) [
    | none ↦ none
    | some meas ↦ some (
        codes "SELECT "
        ++ (meas.sql_expr
            ++ (codes " FROM agg." ++ (agg.table ++ agg_where filters role_predicates))))
  ]
