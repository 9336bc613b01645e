-- ===== src/Access/Users.antt =====
-- src/engine/model.rs: the identity of a user, and the permission that the roles give on the model.
pub mod Roles
use mallard_cube.Prelude.{
  Bool, true, false, ◌||◌, none, some, List, [], ◌∷◌, ◌++◌, if◌then◌else◌, is_empty, any, Text,
  text_eq,
}
use mallard_cube.Access.Config.{ModelPermission, permission_eq, RoleConfig, ProxyConfig}

pub record UserContext : Type 0 where
  pub user_id : Text
  pub groups : List Text
  pub roles : List Text
  pub is_administrator : Bool

unfoldable pub admin_default : UserContext
admin_default = record { user_id = []; groups = []; roles = []; is_administrator = true }

unfoldable pub deny_all : UserContext
deny_all = record { user_id = []; groups = []; roles = []; is_administrator = false }

-- Is the user, or a group, among the members of the role?
unfoldable pub is_member : Text → List Text → RoleConfig → Bool
is_member user_id groups role =
    any (λ m. text_eq m.member_name user_id || any (λ g. text_eq g m.member_name) groups)
      role.members

-- The loop over the roles: their names in order, and whether one makes an administrator.
unfoldable pub match_roles :
    Text → List Text → List RoleConfig → List Text × Bool → List Text × Bool
unfolding is_member permission_eq
match_roles user_id groups [] found = found
match_roles user_id groups (role ∷ roles) (names, is_admin) = match_roles user_id groups roles (
    if is_member user_id groups role
    then (
      names ++ role.name ∷ [],
      (if permission_eq role.model_permission ModelPermission.administrator
          then true
          else is_admin),
    )
    else (names, is_admin))

unfoldable pub context_of : Text → List Text → List Text × Bool → UserContext
unfolding deny_all
context_of user_id groups (names, is_admin) =
    if is_empty names
    then deny_all
    else record { user_id = user_id; groups = groups; roles = names; is_administrator = is_admin }

unfoldable pub resolve_user_context : ProxyConfig → Text → List Text → UserContext
unfolding admin_default match_roles context_of
resolve_user_context config user_id groups = elim config.auth [
  | none ↦ admin_default
  | some auth ↦ context_of user_id groups (match_roles user_id groups config.roles ([], false))
]

-- Is the role one of the user's, by its name?
unfoldable pub holds : List Text → RoleConfig → Bool
holds names role = any (λ n. text_eq n role.name) names

-- The loop over the roles, with its early return.
unfoldable pub permission_from : List Text → List RoleConfig → ModelPermission → ModelPermission
unfolding holds
permission_from names [] result = result
permission_from names (role ∷ roles) result =
    if holds names role
    then elim role.model_permission [
      | ModelPermission.administrator ↦ ModelPermission.administrator
      | ModelPermission.read ↦ permission_from names roles ModelPermission.read
      | ModelPermission.none ↦ permission_from names roles result
    ]
    else permission_from names roles result

unfoldable pub effective_model_permission : ProxyConfig → UserContext → ModelPermission
unfolding permission_from
effective_model_permission config user =
    if user.is_administrator
    then ModelPermission.administrator
    else permission_from user.roles config.roles ModelPermission.none
