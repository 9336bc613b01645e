-- ===== src/Access/Tables.antt =====
-- src/engine/model.rs and src/xmla/discover/mod.rs: what the roles of a user show of a table.
pub mod Union
pub mod Widening
use mallard_cube.Prelude.{
  trim, Bool, true, false, not, none, List, [], ◌∷◌, ◌++◌, map, if◌then◌else◌, is_empty, any, Text,
  codes, eq_ignore_case,
}
use mallard_cube.Mdx.Parser.{join}
use mallard_cube.Access.Config.{
  ModelPermission, permission_eq, is_present, TablePermissionConfig, RoleConfig, ProxyConfig,
}
use mallard_cube.Access.Users.{UserContext, holds}

pub data TableAccess : Type 0 where
  full : TableAccess
  filtered : Text → TableAccess
  hidden : TableAccess

-- The variables of the loop.
pub record Grants : Type 0 where
  pub filters : List Text
  pub any_hidden : Bool
  pub any_role_grants_full : Bool
  pub any_role_grants_read : Bool

unfoldable pub no_grants : Grants
no_grants = record {
  filters = [];
  any_hidden = false;
  any_role_grants_full = false;
  any_role_grants_read = false;
}

unfoldable pub names_table : Text → TablePermissionConfig → Bool
names_table table_name tp = eq_ignore_case (trim tp.table) (trim table_name)

-- One entry for the table.
unfoldable pub permit : TablePermissionConfig → Grants → Grants
unfolding permission_eq is_present
permit tp g =
    if permission_eq tp.metadata_permission ModelPermission.none
    then record g { any_hidden = true }
    else if not (is_empty tp.filter_expression)
    then record g { any_role_grants_read = true; filters = g.filters ++ tp.filter_expression ∷ [] }
    else if is_present tp.dax_filter
    then record g { any_hidden = true }
    else record g { any_role_grants_full = true }

unfoldable pub permit_all : Text → List TablePermissionConfig → Grants → Grants
unfolding names_table permit
permit_all table_name [] g = g
permit_all table_name (tp ∷ tps) g =
    permit_all table_name tps (if names_table table_name tp then permit tp g else g)

unfoldable pub permit_role : Text → RoleConfig → Grants → Grants
unfolding permit_all
permit_role table_name role g =
    let g' = permit_all table_name role.table_permissions g in
    if any (names_table table_name) role.table_permissions
    then g'
    else record g' { any_role_grants_full = true }

unfoldable pub permit_roles : List Text → Text → List RoleConfig → Grants → Grants
unfolding permit_role
permit_roles names table_name [] g = g
permit_roles names table_name (role ∷ roles) g =
    permit_roles names table_name roles
      (if holds names role then permit_role table_name role g else g)

-- A single filter stands as it is; several stand in brackets with OR between them.
unfoldable pub combined : List Text → Text
combined [] = []
combined (f ∷ []) = f
combined (f ∷ g ∷ fs) = join (codes " OR ") (map (λ e. codes "(" ++ (e ++ codes ")")) (f ∷ g ∷ fs))

unfoldable pub access_of : Grants → TableAccess
unfolding combined
access_of g =
    if g.any_role_grants_full
    then full
    else if g.any_role_grants_read
    then filtered (combined g.filters)
    else if g.any_hidden
    then hidden
    else full

unfoldable pub effective_table_filter : ProxyConfig → UserContext → Text → TableAccess
unfolding permit_roles no_grants access_of
effective_table_filter config user table_name =
    if user.is_administrator
    then full
    else access_of (permit_roles user.roles table_name config.roles no_grants)

unfoldable pub is_hidden : TableAccess → Bool
is_hidden hidden = true
is_hidden _ = false

unfoldable pub is_full : TableAccess → Bool
is_full full = true
is_full _ = false

unfoldable pub table_visible : ProxyConfig → UserContext → Text → Bool
unfolding is_hidden effective_table_filter
table_visible config user table = not (is_hidden (effective_table_filter config user table))
