-- ===== src/Mdx/Members.antt =====
-- src/mdx/frontend.rs: the members that a statement filters by or excludes, and the measures that it
-- selects. `DimRef` and `Filtered` are `DimRef` and `MemberRef` of src/mdx/parser.rs.
pub mod Flatten
use mallard_cube.Prelude.{
  Bool, Option, none, some, List, [], ◌∷◌, ◌++◌, ◌==◌, if◌then◌else◌, is_empty, any, Text, codes,
  eq_ignore_case,
}
use mallard_cube.Mdx.Ast.{
  MemberRef, Expr, Exprs, Axis, Select, plain, over, member, measure, range, tuple, set, call,
  members, children, exclude, binary, nil, cons, dim, level, as_member,
}
use mallard_cube.Mdx.Axes.{clauses, axes, is_measures, sort_axes, has}
use mallard_cube.Mdx.Sets.{over_axes, is_all}

pub data DimRef : Type 0 where
  measures_dim : DimRef
  cube : Text → DimRef

-- A member by its key, with the level if the reference names one.
pub data Filtered : Type 0 where
  all_of : DimRef → Filtered
  leaf : DimRef → Text → Option Text → Filtered
  measure_of : Text → Filtered

unfoldable pub last_part : List Text → Text
last_part [] = []
last_part (p ∷ ps) = let rest = last_part ps in if is_empty ps then p else rest

abbrev pub dim_ref : MemberRef → DimRef
dim_ref m = if is_measures (dim m) then measures_dim else cube (dim m)

-- The member's name behind its dimension and hierarchy, and behind its level if there is one.
unfoldable pub named : DimRef → List Text → Option Filtered
named d (_ ∷ _ ∷ name ∷ []) = some (leaf d name none)
named d (_ ∷ _ ∷ l ∷ name ∷ _) = some (leaf d name (some l))
named d _ = none

unfoldable pub to_filtered : MemberRef → Option Filtered
to_filtered m = elim m.key [
  | some k ↦ some (leaf (dim_ref m) k (level m))
  | none ↦
      if is_all (last_part m.parts) then some (all_of (dim_ref m)) else named (dim_ref m) m.parts
]

unfoldable pub ast_to_member : Expr → Option Filtered
ast_to_member (member m) = to_filtered m
ast_to_member (measure name) = some (measure_of name)
ast_to_member _ = none

abbrev pub push_some {ℓ} : {A : Type ℓ} → Option A → List A → List A
push_some none out = out
push_some (some x) out = out ++ x ∷ []

-- The endpoints of a range, level sets and comparisons are not members.
unfoldable mutual
  pub flatten_members : Expr → List Filtered → List Filtered
  flatten_members (set items) out = flatten_all items out
  flatten_members (tuple items) out = flatten_all items out
  flatten_members (range _ _) out = out
  flatten_members (exclude inner) out = flatten_members inner out
  flatten_members (members _) out = out
  flatten_members (children _) out = out
  flatten_members (binary _ _ _) out = out
  flatten_members e out = push_some (ast_to_member e) out

  pub flatten_all : Exprs → List Filtered → List Filtered
  flatten_all nil out = out
  flatten_all (cons e es) out = flatten_all es (flatten_members e out)

unfoldable pub where_members : Select → List Filtered
where_members sel = elim (clauses sel).where_clause [ none ↦ [] | some w ↦ flatten_members w [] ]

-- The members on a subselect's axes and on those of the subselects in it.
unfoldable pub collect_subselect : Select → List Filtered → List Filtered
collect_subselect (plain c) out = over_axes flatten_all c.axes out
collect_subselect (over c inner) out = collect_subselect inner (over_axes flatten_all c.axes out)

unfoldable pub subquery_members : Select → List Filtered
subquery_members (plain c) = []
subquery_members (over c inner) = collect_subselect inner []

-- The members of each tuple among a set's items.
unfoldable pub tuples_among : Exprs → List (List Filtered) → List (List Filtered)
tuples_among nil out = out
tuples_among (cons (tuple parts) items) out = tuples_among items (out ++ flatten_all parts [] ∷ [])
tuples_among (cons e items) out = tuples_among items out

unfoldable pub tuples_of : Exprs → List (List Filtered) → List (List Filtered)
tuples_of nil out = out
tuples_of (cons (set items) es) out = tuples_of es (tuples_among items out)
tuples_of (cons e es) out = tuples_of es out

unfoldable pub select_tuples : Select → List (List Filtered)
select_tuples sel = over_axes tuples_of (axes sel) []

unfoldable pub extend_all : List (List Filtered) → List Filtered → List Filtered
extend_all [] out = out
extend_all (t ∷ ts) out = extend_all ts (out ++ t)

unfoldable pub select_members : Select → List Filtered
select_members sel = extend_all (select_tuples sel) []

abbrev pub dim_name : DimRef → Text
dim_name measures_dim = codes "Measures"
dim_name (cube d) = d

-- Of the members in an exclusion, dimension and key of those that have a key.
unfoldable pub push_leaves : List Filtered → List (Text × Text) → List (Text × Text)
push_leaves [] out = out
push_leaves (leaf d k _ ∷ ms) out = push_leaves ms (out ++ (dim_name d, k) ∷ [])
push_leaves (m ∷ ms) out = push_leaves ms out

unfoldable mutual
  pub walk_excluded : Expr → List (Text × Text) → List (Text × Text)
  walk_excluded (exclude inner) out = push_leaves (flatten_members inner []) out
  walk_excluded (call _ args) out = excluded_in args out
  walk_excluded (set items) out = excluded_in items out
  walk_excluded (tuple items) out = excluded_in items out
  walk_excluded (range a b) out = walk_excluded b (walk_excluded a out)
  walk_excluded (members inner) out = walk_excluded inner out
  walk_excluded (children inner) out = walk_excluded inner out
  walk_excluded _ out = out

  pub excluded_in : Exprs → List (Text × Text) → List (Text × Text)
  excluded_in nil out = out
  excluded_in (cons e es) out = excluded_in es (walk_excluded e out)

unfoldable pub excluded_members : Select → List (Text × Text)
excluded_members sel = over_axes excluded_in (axes sel) []

abbrev pub or_else {ℓ} : {A : Type ℓ} → Option A → Option A → Option A
or_else (some x) _ = some x
or_else none o = o

-- The last argument that is a member without a key gives its dimension.
unfoldable pub keyless : Option MemberRef → Option Text
keyless none = none
keyless (some m) = elim m.key [
  | some _ ↦ none
  | none ↦ if is_empty m.parts then none else some (dim m)
]

unfoldable pub last_keyless : Exprs → Option Text
last_keyless nil = none
last_keyless (cons e es) = or_else (last_keyless es) (keyless (as_member e))

unfoldable mutual
  pub find_drilldown : Expr → Option Text
  find_drilldown (call name args) =
      let inside = drilldown_in args in
      if eq_ignore_case name (codes "DrilldownMember") then last_keyless args else inside
  find_drilldown (set items) = drilldown_in items
  find_drilldown (tuple items) = drilldown_in items
  find_drilldown (range a b) = or_else (find_drilldown a) (find_drilldown b)
  find_drilldown (members inner) = find_drilldown inner
  find_drilldown (children inner) = find_drilldown inner
  find_drilldown _ = none

  pub drilldown_in : Exprs → Option Text
  drilldown_in nil = none
  drilldown_in (cons e es) = or_else (find_drilldown e) (drilldown_in es)

unfoldable pub drilldown_member_hierarchy : Select → Option Text
drilldown_member_hierarchy sel = drilldown_axes (axes sel)
  where
    drilldown_axes : List Axis → Option Text
    drilldown_axes [] = none
    drilldown_axes (a ∷ more) = or_else (drilldown_in a.exprs) (drilldown_axes more)

unfoldable pub axis_presence : Select → Bool × Bool
axis_presence sel =
    (any (λ (a : Axis). a.ordinal == 0) (axes sel), any (λ (a : Axis). a.ordinal == 1) (axes sel))

abbrev pub push_measure : Text → List Text → List Text
push_measure name out = if has name out then out else out ++ name ∷ []

unfoldable mutual
  pub collect_measures : Expr → List Text → List Text
  collect_measures (measure name) out = push_measure name out
  collect_measures (set items) out = measures_among items out
  collect_measures (tuple items) out = measures_among items out
  collect_measures (call _ args) out = measures_among args out
  collect_measures (range a b) out = collect_measures b (collect_measures a out)
  collect_measures (members inner) out = collect_measures inner out
  collect_measures (children inner) out = collect_measures inner out
  collect_measures (exclude inner) out = collect_measures inner out
  collect_measures (binary _ a b) out = collect_measures b (collect_measures a out)
  collect_measures _ out = out

  pub measures_among : Exprs → List Text → List Text
  measures_among nil out = out
  measures_among (cons e es) out = measures_among es (collect_measures e out)

unfoldable pub selected_measures : Select → List Text
selected_measures sel = over_axes measures_among (sort_axes (axes sel)) []
