-- ===== src/Tests/Security.antt =====
-- src/engine/model.rs, src/main.rs, src/auth/mod.rs, src/execute/runtime.rs: two roles on one table.
use mallard_cube.Prelude.{
  trim, ◌≡◌, refl, ◌↔◌, Bool, true, false, not, ◌&&◌, ◌||◌, none, some, List, [], ◌∷◌, ◌++◌, map,
  arith, ◌==◌, if◌then◌else◌, any, any-append, Text, codes, text_eq, eq_ignore_case,
}
use mallard_cube.Mdx.Parser.{join}
use mallard_cube.Access.Config.{
  permission_eq, ModelPermission, TablePermissionConfig, RoleMemberConfig, RoleConfig, AuthConfig,
  ProxyConfig,
}
use mallard_cube.Access.Users.{UserContext, holds, resolve_user_context, effective_model_permission}
use mallard_cube.Access.Users.Roles.{strongest, is_borne, effective_model_permission-strongest}
use mallard_cube.Access.Tables.{names_table, full, filtered, combined, effective_table_filter}
use mallard_cube.Access.Tables.Union.{row_visible, role_shows, effective_table_filter-union}
use mallard_cube.Access.Requests.{
  Request, build_user_context, authenticated, may_serve, bind_decision, from_config, mechanism,
}
use mallard_cube.Access.Requests.Safety.{Answered, may_serve-authenticated}
use mallard_cube.Access.Tokens.{err, invalid_token}
use mallard_cube.Access.Restrictions.{user_is_restricted}
use mallard_cube.Access.Restrictions.Reach.{user_is_restricted-full}
use mallard_cube.Access.Tables.Widening.{effective_table_filter-silent}

abbrev member : Text → RoleMemberConfig
member name = record { member_name = name; member_type = [] }

abbrev permission : Text → Text → TablePermissionConfig
permission table sql = record {
  table = table;
  filter_expression = sql;
  dax_filter = none;
  metadata_permission = ModelPermission.read;
}

abbrev role : Text → ModelPermission → List Text → List TablePermissionConfig → RoleConfig
role name p members tps = record {
  name = name;
  description = [];
  model_permission = p;
  members = map member members;
  table_permissions = tps;
}

abbrev by_proxy_header : AuthConfig
by_proxy_header = record { trusted_proxy = true; trusted_header = codes "X-User"; oidc = none }

abbrev eu : RoleConfig
eu =
    role (codes "EU") ModelPermission.read (codes "ann" ∷ [])
      (permission (codes "Sales") (codes "region = 1") ∷ [])

abbrev us : RoleConfig
us =
    role (codes "US") ModelPermission.read (codes "ann" ∷ codes "bob" ∷ [])
      (permission (codes " sales ") (codes "region = 2") ∷ [])

abbrev nobody : RoleConfig
nobody = role (codes "None") ModelPermission.none (codes "bob" ∷ []) []

abbrev config : ProxyConfig
config = record { auth = some by_proxy_header; roles = eu ∷ us ∷ nobody ∷ [] }

abbrev ann : UserContext
ann = record {
  user_id = codes "ann";
  groups = [];
  roles = codes "EU" ∷ codes "US" ∷ [];
  is_administrator = false;
}

abbrev bob : UserContext
bob = record {
  user_id = codes "bob";
  groups = [];
  roles = codes "US" ∷ codes "None" ∷ [];
  is_administrator = false;
}

ann_resolved : resolve_user_context config (codes "ann") [] ≡ ann
unfolding resolve_user_context text_eq
ann_resolved = refl

ann_filtered :
    effective_table_filter config ann (codes "SALES")
    ≡ filtered (codes "(region = 1) OR (region = 2)")
unfolding effective_table_filter holds eq_ignore_case trim join
ann_filtered = refl

-- A database with one row, which meets the texts that have a 1 in them.
abbrev has_one : Text → Unit {0} → Bool
has_one sql row = any (λ c. c == b'1') sql

any-join :
    (f : Text) (fs : List Text)
    → has_one (join (codes " OR ") (map (λ e. codes "(" ++ (e ++ codes ")")) (f ∷ fs))) tt
      ≡ any (λ e. has_one e tt) (f ∷ fs)
unfolding join
any-join f [] = ground (arith, any-append (λ c. c == b'1') f (codes ")"))
any-join f (g ∷ fs) =
    let rest = join (codes " OR ") (map (λ e. codes "(" ++ (e ++ codes ")")) (g ∷ fs)) in
    ground (
      arith,
      any-append (λ c. c == b'1') (f ++ codes ")") (codes " OR " ++ rest),
      any-append (λ c. c == b'1') f (codes ")"),
      any-join g fs,
    )

one_is_or :
    (f g : Text) (fs : List Text)
    → has_one (combined (f ∷ g ∷ fs)) tt ≡ any (λ e. has_one e tt) (f ∷ g ∷ fs)
unfolding combined
one_is_or f g fs = any-join f (g ∷ fs)

effective_table_filter-union_example :
    row_visible has_one tt (effective_table_filter config ann (codes "Sales")) ≡ (
      ann.is_administrator
      || (not (any (holds ann.roles) config.roles)
          || any (λ r. holds ann.roles r && role_shows has_one tt (codes "Sales") r) config.roles))
effective_table_filter-union_example =
    effective_table_filter-union has_one tt one_is_or config ann (codes "Sales")

effective_table_filter-silent_example : effective_table_filter config bob (codes "Sales") ≡ full
unfolding holds eq_ignore_case
effective_table_filter-silent_example =
    effective_table_filter-silent config bob (codes "Sales")
      (unfold trim text_eq permission_eq names_table in refl)

effective_model_permission-strongest_example :
    effective_model_permission config (resolve_user_context config (codes "bob") [])
    ≡ strongest (is_borne (codes "bob") [] config.roles) config.roles
effective_model_permission-strongest_example =
    effective_model_permission-strongest (codes "bob") [] config by_proxy_header refl

-- A request with the header of the proxy.
abbrev request : Request
request = record {
  header = λ name. if text_eq name (codes "X-User") then some (codes "ann") else none;
  header_name = λ name. some name;
  validate = λ token oidc. err invalid_token;
}

may_serve-authenticated_example :
    (auth : AuthConfig) × (config.auth ≡ some auth) × Answered request config auth
may_serve-authenticated_example =
    may_serve-authenticated request config
      (unfold may_serve bind_decision from_config mechanism in refl)
      (unfold build_user_context authenticated resolve_user_context text_eq in refl)

user_is_restricted-full_example :
    (user_is_restricted config ann ≡ false)
    ↔ ((t : Text) → effective_table_filter config ann t ≡ full)
user_is_restricted-full_example = user_is_restricted-full config ann

ann_restricted : user_is_restricted config ann ≡ true
unfolding user_is_restricted effective_table_filter holds eq_ignore_case trim join
ann_restricted = refl
