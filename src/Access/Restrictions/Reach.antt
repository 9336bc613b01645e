-- ===== src/Access/Restrictions/Reach.antt =====
-- src/execute/runtime.rs: `user_is_restricted` asks for the tables that the roles name only.
use mallard_cube.Prelude.{
  trim, ◌≡◌, refl, sym, ap, ap₂, ◌∙◌, fun_ext, ◌↔◌, ◌⊎◌, inl, inr, Bool, true, false, List, [], ◌∷◌,
  map, arith, if◌then◌else◌, Bool-cases, any, keep, any-append, Text, text_eq, to_lower,
  eq_ignore_case, text_eq_iff,
}
use mallard_cube.Access.Config.{TablePermissionConfig, RoleConfig, ProxyConfig}
use mallard_cube.Access.Users.{UserContext, holds}
use mallard_cube.Access.Tables.{
  TableAccess, full, filtered, hidden, Grants, no_grants, names_table, permit, permit_all,
  permit_role, permit_roles, access_of, effective_table_filter, is_full,
}
use mallard_cube.Access.Restrictions.{
  held_roles, flat_permissions, held_permissions, narrowed, user_is_restricted,
}

module _ (t u : Text) (same : eq_ignore_case (trim t) (trim u) ≡ true) where
  lower_same : map to_lower (trim t) ≡ map to_lower (trim u)
  lower_same =
      unfold eq_ignore_case in (text_eq_iff (map to_lower (trim t)) (map to_lower (trim u))).0 same

  names_table-same : (tp : TablePermissionConfig) → names_table t tp ≡ names_table u tp
  unfolding names_table eq_ignore_case
  names_table-same tp = ap (text_eq (map to_lower (trim tp.table))) lower_same

  permit_all-same :
      (tps : List TablePermissionConfig) (g : Grants) → permit_all t tps g ≡ permit_all u tps g
  unfolding permit_all
  permit_all-same [] g = refl
  permit_all-same (tp ∷ tps) g =
      rw (names_table-same tp) (permit_all-same tps (if names_table u tp then permit tp g else g))

  permit_role-same : (role : RoleConfig) (g : Grants) → permit_role t role g ≡ permit_role u role g
  unfolding permit_role
  permit_role-same role g =
      ap₂
        (λ (n : TablePermissionConfig → Bool) (h : Grants).
          if any n role.table_permissions then h else record h { any_role_grants_full = true })
        (fun_ext names_table-same) (permit_all-same role.table_permissions g)

  permit_roles-same :
      (names : List Text) (roles : List RoleConfig) (g : Grants)
      → permit_roles names t roles g ≡ permit_roles names u roles g
  unfolding permit_roles
  permit_roles-same names [] g = refl
  permit_roles-same names (role ∷ roles) g =
      rw (permit_role-same role g)
        (permit_roles-same names roles (if holds names role then permit_role u role g else g))

  -- Names that differ in case or in the white space round them are one table.
  pub effective_table_filter-same :
      (config : ProxyConfig) (user : UserContext)
      → effective_table_filter config user t ≡ effective_table_filter config user u
  unfolding effective_table_filter
  effective_table_filter-same config user =
      rw (permit_roles-same user.roles config.roles no_grants) refl

-- No role has had its say, or one grants everything.
unfoldable Open : Grants → Type 0
Open g = (g ≡ no_grants) ⊎ (g.any_role_grants_full ≡ true)

access_of-Open : (g : Grants) → Open g → access_of g ≡ full
unfolding Open access_of no_grants
access_of-Open g (inl e) = rw e refl
access_of-Open g (inr e) = rw e refl

permit_all-unnamed :
    (t : Text) (tps : List TablePermissionConfig) (g : Grants)
    → any (names_table t) tps ≡ false
    → permit_all t tps g ≡ g
unfolding permit_all
permit_all-unnamed t [] g h = refl
permit_all-unnamed t (tp ∷ tps) g h = elim (Bool-cases (names_table t tp)) [
  | inl e ↦ absurd (ground (arith, e, h))
  | inr e ↦ rw e (permit_all-unnamed t tps g (ground (arith, e, h)))
]

permit_roles-Open :
    (names : List Text) (t : Text) (roles : List RoleConfig) (g : Grants)
    → any (names_table t) (flat_permissions (keep (holds names) roles)) ≡ false
    → Open g
    → Open (permit_roles names t roles g)
unfolding permit_roles flat_permissions permit_role
permit_roles-Open names t [] g h o = o
permit_roles-Open names t (role ∷ roles) g h o = elim (Bool-cases (holds names role)) [
  | inr e ↦ rw e (permit_roles-Open names t roles g (rw e at h) o)
  | inl e ↦
      let split =
        any-append (names_table t) role.table_permissions
          (flat_permissions (keep (holds names) roles)) in
      let here : any (names_table t) role.table_permissions ≡ false = ground (arith, e, h, split) in
      let there : any (names_table t) (flat_permissions (keep (holds names) roles)) ≡ false =
        ground (arith, e, h, split) in
      rw (e, here) (permit_roles-Open names t roles _ there (unfold Open in inr refl))
]

-- The entry that names the table.
named_by :
    (p q : TablePermissionConfig → Bool) (tps : List TablePermissionConfig)
    → any p tps ≡ true
    → any q tps ≡ false
    → (tp : TablePermissionConfig) × (p tp ≡ true) × (q tp ≡ false)
named_by p q [] h k = absurd (cc h)
named_by p q (tp ∷ tps) h k = elim (Bool-cases (p tp)) [
  | inl e ↦ (tp, e, ground arith)
  | inr e ↦ named_by p q tps (ground (arith, e, h)) (ground (arith, k))
]

is_full-eq : (a : TableAccess) → is_full a ≡ true → a ≡ full
unfolding is_full
is_full-eq full h = refl
is_full-eq (filtered sql) h = cc
is_full-eq hidden h = cc

names_table-eq :
    (t : Text) (tp : TablePermissionConfig)
    → names_table t tp ≡ true
    → eq_ignore_case (trim tp.table) (trim t) ≡ true
unfolding names_table
names_table-eq t tp h = h

module _ (config : ProxyConfig) (user : UserContext) where
  -- A table that no role of the user names is seen in full.
  unnamed-full :
      (t : Text)
      → any (names_table t) (held_permissions config user) ≡ false
      → effective_table_filter config user t ≡ full
  unfolding effective_table_filter held_permissions held_roles
  unnamed-full t h = elim (Bool-cases user.is_administrator) [
    | inl a ↦ rw a refl
    | inr a ↦ rw a (
        access_of-Open (permit_roles user.roles t config.roles no_grants)
          (permit_roles-Open user.roles t config.roles no_grants h (unfold Open in inl refl)))
  ]

  named-full :
      (t : Text)
      → any (names_table t) (held_permissions config user) ≡ true
      → any (narrowed config user) (held_permissions config user) ≡ false
      → effective_table_filter config user t ≡ full
  unfolding narrowed
  named-full t h k =
      let (tp, e, n) =
        named_by (names_table t) (narrowed config user) (held_permissions config user) h k in
      sym (effective_table_filter-same tp.table t (names_table-eq t tp e) config user)
      ∙ is_full-eq (effective_table_filter config user tp.table) (ground arith)

  unrestricted-full :
      user_is_restricted config user ≡ false
      → (t : Text) → effective_table_filter config user t ≡ full
  unfolding user_is_restricted
  unrestricted-full h t = elim (Bool-cases user.is_administrator) [
    | inl a ↦ unfold effective_table_filter in rw a refl
    | inr a ↦ elim (Bool-cases (any (names_table t) (held_permissions config user))) [
      | inl n ↦ named-full t n (ground (arith, a, h))
      | inr n ↦ unnamed-full t n
    ]
  ]

  full-narrowed :
      (tps : List TablePermissionConfig)
      → ((t : Text) → effective_table_filter config user t ≡ full)
      → any (narrowed config user) tps ≡ false
  unfolding narrowed is_full
  full-narrowed [] h = refl
  full-narrowed (tp ∷ tps) h = rw (h tp.table) (full-narrowed tps h)

  -- A user is not restricted exactly when every table is seen in full, whether a role names it or
  -- not, and however a name is spelled.
  pub user_is_restricted-full :
      (user_is_restricted config user ≡ false)
      ↔ ((t : Text) → effective_table_filter config user t ≡ full)
  unfolding user_is_restricted
  user_is_restricted-full = (
    unrestricted-full,
    λ h. elim (Bool-cases user.is_administrator) [
      | inl a ↦ rw a refl
      | inr a ↦
          let open_all = full-narrowed (held_permissions config user) h in
          ground (arith, a, open_all)
    ],
  )
