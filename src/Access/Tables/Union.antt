-- ===== src/Access/Tables/Union.antt =====
-- src/engine/model.rs: a row is seen by a user when one of the user's roles shows it. The SQL of the
-- filters is read by the database: `sat` says whether a row meets a text.
use mallard_cube.Prelude.{
  ◌≡◌, refl, ap₂, ◌∙◌, inl, inr, Bool, true, false, not, ◌&&◌, ◌||◌, List, [], ◌∷◌, ◌++◌, arith,
  if◌then◌else◌, Bool-cases, is_empty, any, any-append, Text,
}
use mallard_cube.Access.Config.{
  ProxyConfig, ModelPermission, permission_eq, is_present, TablePermissionConfig, RoleConfig,
}
use mallard_cube.Access.Users.{UserContext, holds}
use mallard_cube.Access.Tables.{
  no_grants, access_of, effective_table_filter, combined, TableAccess, full, filtered, hidden,
  Grants, names_table, permit, permit_all, permit_role, permit_roles,
}

-- The filters are there exactly when a role grants read access.
HasFilters : Grants → Type 0
HasFilters g = g.any_role_grants_read ≡ not (is_empty g.filters)

not_empty-snoc : (fs : List Text) (f : Text) → is_empty (fs ++ f ∷ []) ≡ false
not_empty-snoc [] f = refl
not_empty-snoc (e ∷ fs) f = refl

permit-HasFilters :
    (tp : TablePermissionConfig) (g : Grants) → HasFilters g → HasFilters (permit tp g)
unfolding HasFilters permit
permit-HasFilters tp g h = ground (arith, not_empty-snoc g.filters tp.filter_expression)

permit_all-HasFilters :
    (t : Text) (tps : List TablePermissionConfig) (g : Grants)
    → HasFilters g
    → HasFilters (permit_all t tps g)
unfolding permit_all
permit_all-HasFilters t [] g h = h
permit_all-HasFilters t (tp ∷ tps) g h = elim (Bool-cases (names_table t tp)) [
  | inl e ↦ rw e (permit_all-HasFilters t tps (permit tp g) (permit-HasFilters tp g h))
  | inr e ↦ rw e (permit_all-HasFilters t tps g h)
]

permit_role-HasFilters :
    (t : Text) (role : RoleConfig) (g : Grants) → HasFilters g → HasFilters (permit_role t role g)
unfolding permit_role HasFilters
permit_role-HasFilters t role g h =
    let later = permit_all-HasFilters t role.table_permissions g h in
    elim (Bool-cases (any (names_table t) role.table_permissions)) [
      | inl e ↦ rw e later
      | inr e ↦ rw e later
    ]

permit_roles-HasFilters :
    (names : List Text) (t : Text) (roles : List RoleConfig) (g : Grants)
    → HasFilters g
    → HasFilters (permit_roles names t roles g)
unfolding permit_roles
permit_roles-HasFilters names t [] g h = h
permit_roles-HasFilters names t (role ∷ roles) g h = elim (Bool-cases (holds names role)) [
  | inl e ↦ rw e (
      permit_roles-HasFilters names t roles (permit_role t role g)
        (permit_role-HasFilters t role g h))
  | inr e ↦ rw e (permit_roles-HasFilters names t roles g h)
]

-- Some role has had its say.
touched : Grants → Bool
touched g = g.any_role_grants_full || (g.any_role_grants_read || g.any_hidden)

touched-permit : (tp : TablePermissionConfig) (g : Grants) → touched (permit tp g) ≡ true
unfolding touched permit
touched-permit tp g = ground arith

touched-permit_all :
    (t : Text) (tps : List TablePermissionConfig) (g : Grants)
    → touched (permit_all t tps g) ≡ (touched g || any (names_table t) tps)
unfolding permit_all
touched-permit_all t [] g = ground arith
touched-permit_all t (tp ∷ tps) g = elim (Bool-cases (names_table t tp)) [
  | inl e ↦ rw e (ground (arith, touched-permit_all t tps (permit tp g), touched-permit tp g))
  | inr e ↦ rw e (touched-permit_all t tps g)
]

touched-permit_role :
    (t : Text) (role : RoleConfig) (g : Grants) → touched (permit_role t role g) ≡ true
unfolding permit_role touched
touched-permit_role t role g =
    let later = touched-permit_all t role.table_permissions g in
    elim (Bool-cases (any (names_table t) role.table_permissions)) [
      | inl e ↦ rw e (ground (arith, later, e))
      | inr e ↦ rw e refl
    ]

touched-permit_roles :
    (names : List Text) (t : Text) (roles : List RoleConfig) (g : Grants)
    → touched (permit_roles names t roles g) ≡ (touched g || any (holds names) roles)
unfolding permit_roles
touched-permit_roles names t [] g = ground arith
touched-permit_roles names t (role ∷ roles) g = elim (Bool-cases (holds names role)) [
  | inl e ↦ rw e (
      ground (
        arith,
        touched-permit_roles names t roles (permit_role t role g),
        touched-permit_role t role g,
      ))
  | inr e ↦ rw e (touched-permit_roles names t roles g)
]

module _ {Row : Type 0} (sat : Text → Row → Bool) (row : Row) where
  -- What an entry for the table shows: nothing of a hidden table, the rows of its filter, nothing
  -- under a filter in DAX only, else every row.
  abbrev pub entry_shows : TablePermissionConfig → Bool
  entry_shows tp =
      not (permission_eq tp.metadata_permission ModelPermission.none)
      && (if is_empty tp.filter_expression
          then not (is_present tp.dax_filter)
          else sat tp.filter_expression row)

  -- A role shows every row of a table that it has no entry for.
  abbrev pub role_shows : Text → RoleConfig → Bool
  role_shows t role =
      not (any (names_table t) role.table_permissions)
      || any (λ tp. names_table t tp && entry_shows tp) role.table_permissions

  abbrev pub row_visible : TableAccess → Bool
  row_visible full = true
  row_visible (filtered sql) = sat sql row
  row_visible hidden = false

  sees : Grants → Bool
  sees g = g.any_role_grants_full || any (λ f. sat f row) g.filters

  sees-permit :
      (tp : TablePermissionConfig) (g : Grants) → sees (permit tp g) ≡ (sees g || entry_shows tp)
  unfolding sees permit
  sees-permit tp g =
      ground (arith, any-append (λ f. sat f row) g.filters (tp.filter_expression ∷ []))

  sees-permit_all :
      (t : Text) (tps : List TablePermissionConfig) (g : Grants)
      → sees (permit_all t tps g) ≡ (sees g || any (λ tp. names_table t tp && entry_shows tp) tps)
  unfolding permit_all
  sees-permit_all t [] g = ground arith
  sees-permit_all t (tp ∷ tps) g = elim (Bool-cases (names_table t tp)) [
    | inl e ↦ rw e (ground (arith, sees-permit_all t tps (permit tp g), sees-permit tp g))
    | inr e ↦ rw e (sees-permit_all t tps g)
  ]

  sees-permit_role :
      (t : Text) (role : RoleConfig) (g : Grants)
      → sees (permit_role t role g) ≡ (sees g || role_shows t role)
  unfolding permit_role sees
  sees-permit_role t role g =
      let later = sees-permit_all t role.table_permissions g in
      elim (Bool-cases (any (names_table t) role.table_permissions)) [
        | inl e ↦ rw e later
        | inr e ↦ rw e (ground arith)
      ]

  sees-permit_roles :
      (names : List Text) (t : Text) (roles : List RoleConfig) (g : Grants)
      → sees (permit_roles names t roles g)
        ≡ (sees g || any (λ role. holds names role && role_shows t role) roles)
  unfolding permit_roles
  sees-permit_roles names t [] g = ground arith
  sees-permit_roles names t (role ∷ roles) g = elim (Bool-cases (holds names role)) [
    | inl e ↦ rw e (
        ground (
          arith,
          sees-permit_roles names t roles (permit_role t role g),
          sees-permit_role t role g,
        ))
    | inr e ↦ rw e (sees-permit_roles names t roles g)
  ]

  module _
      (or_law : (f g : Text) (fs : List Text)
        → sat (combined (f ∷ g ∷ fs)) row ≡ any (λ e. sat e row) (f ∷ g ∷ fs)) where
    sat-combined :
        (fs : List Text) → is_empty fs ≡ false → sat (combined fs) row ≡ any (λ e. sat e row) fs
    unfolding combined
    sat-combined [] h = cc
    sat-combined (f ∷ []) h = ground arith
    sat-combined (f ∷ g ∷ fs) h = or_law f g fs

    visible-access_of :
        (g : Grants) → HasFilters g → row_visible (access_of g) ≡ (not (touched g) || sees g)
    unfolding access_of HasFilters touched sees
    visible-access_of g h = elim (Bool-cases (is_empty g.filters)) [
      | inl e ↦ ground arith
      | inr e ↦ ground (arith, sat-combined g.filters e)
    ]

    -- A user sees a row of a table exactly when the user is an administrator, has no role, or has a
    -- role that shows it: one with no entry for the table, or with an entry that shows the row. The
    -- database reads bracketed filters with OR between them as their disjunction.
    pub effective_table_filter-union :
        (config : ProxyConfig) (user : UserContext) (t : Text)
        → row_visible (effective_table_filter config user t) ≡ (
            user.is_administrator
            || (not (any (holds user.roles) config.roles)
                || any (λ role. holds user.roles role && role_shows t role) config.roles))
    unfolding effective_table_filter no_grants HasFilters touched sees
    effective_table_filter-union config user t =
        let g = permit_roles user.roles t config.roles no_grants in
        let shown =
          visible-access_of g (permit_roles-HasFilters user.roles t config.roles no_grants refl) in
        let asked = touched-permit_roles user.roles t config.roles no_grants in
        let seen = sees-permit_roles user.roles t config.roles no_grants in
        elim (Bool-cases user.is_administrator) [
          | inl e ↦ rw e refl
          | inr e ↦ rw e (shown ∙ ap₂ (λ a b. not a || b) asked seen)
        ]
