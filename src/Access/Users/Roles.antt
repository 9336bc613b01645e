-- ===== src/Access/Users/Roles.antt =====
-- src/engine/model.rs: the permission of a resolved user against the roles of the configuration.
use mallard_cube.Prelude.{
  ◌≡◌, refl, sym, ap, subst, ◌∙◌, fun_ext, inl, inr, Bool, true, false, ◌&&◌, ◌||◌, some, List, [],
  ◌∷◌, ◌++◌, map, append-nil, append_assoc, arith, if◌then◌else◌, Bool-cases, is_empty, any, keep,
  any-append, List-cases, Text, text_eq, text_eq_refl,
}
use mallard_cube.Access.Config.{
  AuthConfig, ProxyConfig, permission_eq-eq, permission_eq, ModelPermission, RoleConfig,
}
use mallard_cube.Access.Users.{
  context_of, resolve_user_context, effective_model_permission, match_roles, is_member, holds,
  permission_from,
}

-- The stronger of two permissions, and the strongest of the roles that `p` selects.
pub stronger : ModelPermission → ModelPermission → ModelPermission
stronger ModelPermission.administrator q = ModelPermission.administrator
stronger ModelPermission.read ModelPermission.administrator = ModelPermission.administrator
stronger ModelPermission.read ModelPermission.read = ModelPermission.read
stronger ModelPermission.read ModelPermission.none = ModelPermission.read
stronger ModelPermission.none q = q

pub strongest : (RoleConfig → Bool) → List RoleConfig → ModelPermission
unfolding stronger
strongest p [] = ModelPermission.none
strongest p (role ∷ roles) =
    let rest = strongest p roles in if p role then stronger role.model_permission rest else rest

-- Does the role have the name of one of which the user, or a group, is a member?
pub is_borne : Text → List Text → List RoleConfig → RoleConfig → Bool
is_borne user_id groups roles role =
    any (λ s. is_member user_id groups s && text_eq s.name role.name) roles

stronger-read :
    (p : ModelPermission)
    → stronger ModelPermission.read (stronger ModelPermission.read p)
      ≡ stronger ModelPermission.read p
unfolding stronger
stronger-read ModelPermission.none = refl
stronger-read ModelPermission.read = refl
stronger-read ModelPermission.administrator = refl

module _ (names : List Text) where
  permission_from-read :
      (roles : List RoleConfig)
      → permission_from names roles ModelPermission.read
        ≡ stronger ModelPermission.read (strongest (holds names) roles)
  unfolding permission_from strongest stronger
  permission_from-read [] = refl
  permission_from-read (role ∷ roles) =
      let later = permission_from-read roles in
      let strength = strongest (holds names) roles in
      elim (Bool-cases (holds names role)) [
        | inl e ↦
            rw e
              (elim role.model_permission
                as (λ p.
                  (elim p [
                    | ModelPermission.administrator ↦ ModelPermission.administrator
                    | ModelPermission.read ↦ permission_from names roles ModelPermission.read
                    | ModelPermission.none ↦ permission_from names roles ModelPermission.read
                  ])
                  ≡ stronger ModelPermission.read (stronger p strength)) [
                    | ModelPermission.administrator ↦ refl
                    | ModelPermission.read ↦ later ∙ sym (stronger-read strength)
                    | ModelPermission.none ↦ later
                  ])
        | inr e ↦ rw e later
      ]

  permission_from-none :
      (roles : List RoleConfig)
      → permission_from names roles ModelPermission.none ≡ strongest (holds names) roles
  unfolding permission_from strongest stronger
  permission_from-none [] = refl
  permission_from-none (role ∷ roles) =
      let later = permission_from-none roles in
      let strength = strongest (holds names) roles in
      elim (Bool-cases (holds names role)) [
        | inl e ↦
            rw e
              (elim role.model_permission
                as (λ p.
                  (elim p [
                    | ModelPermission.administrator ↦ ModelPermission.administrator
                    | ModelPermission.read ↦ permission_from names roles ModelPermission.read
                    | ModelPermission.none ↦ permission_from names roles ModelPermission.none
                  ])
                  ≡ stronger p strength) [
                    | ModelPermission.administrator ↦ refl
                    | ModelPermission.read ↦ permission_from-read roles
                    | ModelPermission.none ↦ later
                  ])
        | inr e ↦ rw e later
      ]

module _ (user_id : Text) (groups : List Text) where
  unfoldable pub names_of : List RoleConfig → List Text
  names_of roles = map (λ role. role.name) (keep (is_member user_id groups) roles)

  unfoldable pub is_admin_role : RoleConfig → Bool
  is_admin_role role =
      is_member user_id groups role
      && permission_eq role.model_permission ModelPermission.administrator

  pub match_roles-eq :
      (roles : List RoleConfig) (names : List Text) (is_admin : Bool)
      → match_roles user_id groups roles (names, is_admin)
        ≡ (names ++ names_of roles, is_admin || any is_admin_role roles)
  unfolding match_roles names_of is_admin_role
  match_roles-eq [] names is_admin = ground (arith, append-nil names)
  match_roles-eq (role ∷ roles) names is_admin = elim (Bool-cases (is_member user_id groups role)) [
    | inl e ↦
        elim (Bool-cases (permission_eq role.model_permission ModelPermission.administrator)) [
          | inl a ↦
              rw (e, a)
                (match_roles-eq roles (names ++ role.name ∷ []) true
                  ∙ ground (arith, append_assoc names (role.name ∷ []) (names_of roles)))
          | inr a ↦
              rw (e, a)
                (match_roles-eq roles (names ++ role.name ∷ []) is_admin
                  ∙ ground (arith, append_assoc names (role.name ∷ []) (names_of roles)))
        ]
    | inr e ↦ rw e (match_roles-eq roles names is_admin)
  ]

  is_admin_role-parts :
      (role : RoleConfig)
      → is_admin_role role ≡ true
      → (is_member user_id groups role ≡ true)
        × (role.model_permission ≡ ModelPermission.administrator)
  unfolding is_admin_role
  is_admin_role-parts role h = elim (Bool-cases (is_member user_id groups role)) [
    | inl m ↦
        (m, permission_eq-eq role.model_permission ModelPermission.administrator (ground arith))
    | inr m ↦ absurd (ground arith)
  ]

  holds-names_of :
      (role : RoleConfig) (roles : List RoleConfig)
      → holds (names_of roles) role ≡ is_borne user_id groups roles role
  unfolding holds names_of is_borne
  holds-names_of role [] = refl
  holds-names_of role (s ∷ roles) = ground (arith, holds-names_of role roles)

  strongest-weaken :
      (p q : RoleConfig → Bool) (roles : List RoleConfig)
      → ((role : RoleConfig) → p role ≡ q role)
      → strongest p roles ≡ strongest q roles
  strongest-weaken p q roles h = ap (λ r. strongest r roles) (fun_ext h)

  is_borne_self :
      (before after : List RoleConfig) (role : RoleConfig)
      → is_member user_id groups role ≡ true
      → is_borne user_id groups (before ++ role ∷ after) role ≡ true
  unfolding is_borne
  is_borne_self before after role h = ground (
    arith,
    any-append (λ s. is_member user_id groups s && text_eq s.name role.name) before (role ∷ after),
    text_eq_refl role.name,
  )

  stronger-administrator :
      (p : ModelPermission)
      → stronger p ModelPermission.administrator ≡ ModelPermission.administrator
  unfolding stronger
  stronger-administrator ModelPermission.none = refl
  stronger-administrator ModelPermission.read = refl
  stronger-administrator ModelPermission.administrator = refl

  strongest-admin :
      (before roles : List RoleConfig)
      → any is_admin_role roles ≡ true
      → strongest (is_borne user_id groups (before ++ roles)) roles ≡ ModelPermission.administrator
  unfolding strongest
  strongest-admin before [] h = cc
  strongest-admin before (role ∷ roles) h =
      let later =
        subst
          (λ (rs : List RoleConfig).
            any is_admin_role roles ≡ true
            → strongest (is_borne user_id groups rs) roles ≡ ModelPermission.administrator)
          (append_assoc before (role ∷ []) roles) (strongest-admin (before ++ role ∷ []) roles) in
      elim (Bool-cases (is_admin_role role)) [
        | inl e ↦
            let (member, strong) = is_admin_role-parts role e in
            rw (is_borne_self before roles role member, strong, stronger) refl
        | inr e ↦
            let rest = later (ground (arith, e)) in
            elim (Bool-cases (is_borne user_id groups (before ++ role ∷ roles) role)) [
              | inl b ↦ rw (b, rest) (stronger-administrator role.model_permission)
              | inr b ↦ rw b rest
            ]
      ]

  names_of-some :
      (roles : List RoleConfig) → any is_admin_role roles ≡ true → is_empty (names_of roles) ≡ false
  unfolding names_of is_admin_role
  names_of-some [] h = cc
  names_of-some (role ∷ roles) h = ground (arith, names_of-some roles)

  -- The permission of what the loop over the roles finds.
  found_permission :
      (config : ProxyConfig) (names : List Text) (is_admin : Bool)
      → names ≡ names_of config.roles
      → is_admin ≡ any is_admin_role config.roles
      → effective_model_permission config (context_of user_id groups (names, is_admin))
        ≡ strongest (is_borne user_id groups config.roles) config.roles
  unfolding effective_model_permission context_of
  found_permission config names is_admin e f =
      let roles = config.roles in
      let borne : (role : RoleConfig) → holds names role ≡ is_borne user_id groups roles role =
        λ role. rw e (holds-names_of role roles) in
      let asked =
        permission_from-none names roles
        ∙ strongest-weaken (holds names) (is_borne user_id groups roles) roles borne in
      elim (Bool-cases is_admin) [
        | inl a ↦
            rw
              (
                a,
                subst (λ (ns : List Text). is_empty ns ≡ false) (sym e)
                    (names_of-some roles (sym f ∙ a)),
              )
              (sym (strongest-admin [] roles (sym f ∙ a)))
        | inr a ↦ elim (List-cases names) [
          | inl none_found ↦ rw none_found (
              subst
                (λ (ns : List Text).
                  permission_from ns roles ModelPermission.none
                  ≡ strongest (is_borne user_id groups roles) roles)
                none_found asked)
          | inr (n, ns, some_found) ↦
              rw (some_found, a)
                (subst
                  (λ (ns : List Text).
                    permission_from ns roles ModelPermission.none
                    ≡ strongest (is_borne user_id groups roles) roles)
                  some_found asked)
        ]
      ]

  -- With authentication configured, the permission of a user is the strongest of the roles with the
  -- name of one of which the user, or a group, is a member, and none if there is no such role.
  pub effective_model_permission-strongest :
      (config : ProxyConfig) (auth : AuthConfig)
      → config.auth ≡ some auth
      → effective_model_permission config (resolve_user_context config user_id groups)
        ≡ strongest (is_borne user_id groups config.roles) config.roles
  unfolding resolve_user_context effective_model_permission
  effective_model_permission-strongest config auth h =
      rw (h, match_roles-eq config.roles [] false)
        (found_permission config (names_of config.roles) (any is_admin_role config.roles) refl refl)
