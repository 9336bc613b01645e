-- ===== src/Access/Config.antt =====
-- src/project/config.rs: roles, their members and table permissions, and authentication. The other
-- fields of the configuration are left out.
use mallard_cube.Prelude.{
  trim, ◌≡◌, refl, Bool, true, false, not, ◌&&◌, ◌||◌, Option, List, is_empty, any, Text,
}

-- `none` is a constructor here: the one of options stays with its module.
pub data ModelPermission : Type 0 where
  none : ModelPermission
  read : ModelPermission
  administrator : ModelPermission

unfoldable pub permission_eq : ModelPermission → ModelPermission → Bool
permission_eq none none = true
permission_eq read read = true
permission_eq administrator administrator = true
permission_eq _ _ = false

pub permission_eq-eq : (p q : ModelPermission) → permission_eq p q ≡ true → p ≡ q
unfolding permission_eq
permission_eq-eq none none h = refl
permission_eq-eq none read h = cc
permission_eq-eq none administrator h = cc
permission_eq-eq read none h = cc
permission_eq-eq read read h = refl
permission_eq-eq read administrator h = cc
permission_eq-eq administrator none h = cc
permission_eq-eq administrator read h = cc
permission_eq-eq administrator administrator h = refl

pub record TablePermissionConfig : Type 0 where
  pub table : Text
  pub filter_expression : Text
  pub dax_filter : Option Text
  pub metadata_permission : ModelPermission

pub record RoleMemberConfig : Type 0 where
  pub member_name : Text
  pub member_type : Text

pub record RoleConfig : Type 0 where
  pub name : Text
  pub description : Text
  pub model_permission : ModelPermission
  pub members : List RoleMemberConfig
  pub table_permissions : List TablePermissionConfig

pub record OidcConfig : Type 0 where
  pub issuer : Text
  pub audience : Text
  pub jwks_uri : Option Text
  pub user_claim : Text
  pub group_claim : Option Text
  pub role_claim : Option Text

pub record AuthConfig : Type 0 where
  pub trusted_proxy : Bool
  pub trusted_header : Text
  pub oidc : Option OidcConfig

pub record ProxyConfig : Type 0 where
  pub auth : Option AuthConfig
  pub roles : List RoleConfig

unfoldable pub is_present {ℓ} : {A : Type ℓ} → Option A → Bool
is_present o = elim o [ Option.none ↦ false | Option.some a ↦ true ]

unfoldable pub narrows : TablePermissionConfig → Bool
unfolding permission_eq is_present
narrows tp =
    not (is_empty (trim tp.filter_expression))
    || (is_present tp.dax_filter || permission_eq tp.metadata_permission none)

unfoldable pub narrows_access : RoleConfig → Bool
unfolding permission_eq narrows
narrows_access role =
    not (permission_eq role.model_permission administrator)
    && (permission_eq role.model_permission none || any narrows role.table_permissions)

unfoldable pub any_role_narrows_access : ProxyConfig → Bool
unfolding narrows_access
any_role_narrows_access config = any narrows_access config.roles
