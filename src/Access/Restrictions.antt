-- ===== src/Access/Restrictions.antt =====
-- src/execute/runtime.rs: is a user restricted, and what a drillthrough shows. Where the source panics
-- on a model without fact tables, the result is `none`; the texts of refusals are left out.
pub mod Drilling
pub mod Reach
use mallard_cube.Prelude.{
  trim, Bool, true, false, not, ◌&&◌, ◌||◌, Option, none, some, List, [], ◌∷◌, ◌++◌, if◌then◌else◌,
  is_empty, any, first_where, keep, Text, text_eq, eq_ignore_case,
}
use mallard_cube.Access.Config.{TablePermissionConfig, RoleConfig, ProxyConfig, is_present}
use mallard_cube.Access.Users.{UserContext, holds}
use mallard_cube.Access.Tables.{
  TableAccess, full, filtered, hidden, effective_table_filter, is_hidden, is_full,
}
use mallard_cube.Engine.Model.{
  SemanticModel, DimensionDef, primary_table_name, rel_for_dimension, dim_table_for_discovery,
}
use mallard_cube.Access.Gates.{dimension_hidden}

unfoldable pub held_roles : ProxyConfig → UserContext → List RoleConfig
held_roles config user = keep (holds user.roles) config.roles

unfoldable pub flat_permissions : List RoleConfig → List TablePermissionConfig
flat_permissions [] = []
flat_permissions (role ∷ roles) = role.table_permissions ++ flat_permissions roles

unfoldable pub held_permissions : ProxyConfig → UserContext → List TablePermissionConfig
unfolding held_roles flat_permissions
held_permissions config user = flat_permissions (held_roles config user)

unfoldable pub narrowed : ProxyConfig → UserContext → TablePermissionConfig → Bool
unfolding is_full effective_table_filter
narrowed config user tp = not (is_full (effective_table_filter config user tp.table))

unfoldable pub user_is_restricted : ProxyConfig → UserContext → Bool
unfolding narrowed held_permissions
user_is_restricted config user =
    if user.is_administrator
    then false
    else any (narrowed config user) (held_permissions config user)

-- A filter in DAX only, on a table that stays hidden.
unfoldable pub unhonourable : ProxyConfig → UserContext → TablePermissionConfig → Bool
unfolding is_hidden effective_table_filter
unhonourable config user tp =
    is_present tp.dax_filter
    && (is_empty (trim tp.filter_expression)
        && is_hidden (effective_table_filter config user tp.table))

-- The table that the fault names.
unfoldable pub unhonourable_filter_fault : ProxyConfig → UserContext → Option Text
unfolding unhonourable held_permissions
unhonourable_filter_fault config user =
    elim (first_where (unhonourable config user) (held_permissions config user)) [
      | none ↦ none
      | some tp ↦ some tp.table
    ]

-- `Ok(None)`, `Ok(Some(sql))` or `Err`.
pub data Drill : Type 0 where
  unrestricted : Drill
  restricted_to : Text → Drill
  refused : Drill

unfoldable pub drill_of : TableAccess → Drill
drill_of full = unrestricted
drill_of (filtered sql) = restricted_to sql
drill_of hidden = refused

unfoldable pub is_filtered : TableAccess → Bool
is_filtered (filtered sql) = true
is_filtered _ = false

module _ (config : ProxyConfig) (user : UserContext) (model : SemanticModel) where
  unfoldable pub primary_fact_id : Text → Option Text
  primary_fact_id primary =
      elim (first_where (λ t. text_eq t.table_name primary) model.fact_tables) [
        | none ↦ none
        | some t ↦ some t.id
      ]

  -- Does `SELECT *` on the table, or the join behind it, return the dimension's columns?
  unfoldable pub is_reached : Text → DimensionDef → Bool
  unfolding primary_fact_id dim_table_for_discovery rel_for_dimension
  is_reached primary dim =
      elim (dim_table_for_discovery model dim.id) [ none ↦ false | some t ↦ text_eq t primary ]
      || elim (rel_for_dimension model dim.id) [
        | none ↦ false
        | some rel ↦ elim (primary_fact_id primary) [
          | none ↦ false
          | some id ↦ text_eq rel.fact_table_id id
        ]
      ]

  unfoldable pub exposes : Text → DimensionDef → Bool
  unfolding dimension_hidden is_reached
  exposes primary dim =
      elim (dimension_hidden config user model dim.id) [ none ↦ false | some b ↦ b ]
      && is_reached primary dim

  -- A filter on another table cannot be put on the rows of this one.
  unfoldable pub filters_elsewhere : Text → TablePermissionConfig → Bool
  unfolding is_filtered effective_table_filter
  filters_elsewhere primary tp =
      not (eq_ignore_case (trim tp.table) (trim primary))
      && is_filtered (effective_table_filter config user tp.table)

  unfoldable pub drill_on : Text → Drill
  unfolding exposes filters_elsewhere held_permissions drill_of effective_table_filter
  drill_on primary =
      if any (exposes primary) model.dimensions
      then refused
      else if any (filters_elsewhere primary) (held_permissions config user)
      then refused
      else drill_of (effective_table_filter config user primary)

  unfoldable pub drillthrough_row_predicate : Option Drill
  unfolding drill_on primary_table_name
  drillthrough_row_predicate =
      if user.is_administrator
      then some unrestricted
      else elim (primary_table_name model) [ none ↦ none | some primary ↦ some (drill_on primary) ]
