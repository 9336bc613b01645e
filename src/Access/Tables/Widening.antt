-- ===== src/Access/Tables/Widening.antt =====
-- src/engine/model.rs: a role without permission on the model takes part in the union.
use mallard_cube.Prelude.{
  ◌≡◌, refl, sym, ◌∙◌, Bool, true, false, not, ◌&&◌, List, [], ◌∷◌, arith, any, Text,
}
use mallard_cube.Access.Config.{ModelPermission, permission_eq, RoleConfig, ProxyConfig}
use mallard_cube.Access.Users.{UserContext, holds}
use mallard_cube.Access.Tables.{
  TableAccess, full, filtered, hidden, names_table, effective_table_filter,
}
use mallard_cube.Access.Tables.Union.{row_visible, role_shows, effective_table_filter-union}

-- A database in which no row meets any filter.
abbrev nothing : Text → Unit {0} → Bool
nothing sql row = false

any-nothing : (fs : List Text) → any (λ e. nothing e tt) fs ≡ false
any-nothing [] = refl
any-nothing (f ∷ fs) = any-nothing fs

full-visible : (a : TableAccess) → row_visible nothing tt a ≡ true → a ≡ full
full-visible full h = refl
full-visible (filtered sql) h = cc h
full-visible hidden h = cc h

-- The user has the role, which grants no permission on the model and has no entry for the table.
abbrev pub is_silent : UserContext → Text → RoleConfig → Bool
is_silent user t role =
    holds user.roles role
    && (permission_eq role.model_permission ModelPermission.none
        && not (any (names_table t) role.table_permissions))

shows-silent :
    (user : UserContext) (t : Text) (roles : List RoleConfig)
    → any (is_silent user t) roles ≡ true
    → any (λ role. holds user.roles role && role_shows nothing tt t role) roles ≡ true
shows-silent user t [] h = cc h
shows-silent user t (role ∷ roles) h = ground (arith, h, shows-silent user t roles)

-- A role of the user that grants no permission on the model, and has no entry for a table, opens
-- the table in full, whatever filters the other roles of the user put on it.
pub effective_table_filter-silent :
    (config : ProxyConfig) (user : UserContext) (t : Text)
    → any (is_silent user t) config.roles ≡ true
    → effective_table_filter config user t ≡ full
effective_table_filter-silent config user t h =
    full-visible (effective_table_filter config user t) (
      effective_table_filter-union nothing tt (λ f g fs. sym (any-nothing (f ∷ g ∷ fs))) config user
        t
      ∙ ground (arith, shows-silent user t config.roles h))
