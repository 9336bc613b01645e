-- ===== src/Mdx/Sets.antt =====
-- src/mdx/frontend.rs: the member sets that a statement asks for, and named sets. `SetExpr` is of
-- src/mdx/parser.rs. The name of a call is ASCII, as the lexer gives it, so comparing it in
-- capitals is comparing it without its case.
pub mod Named
use mallard_cube.Prelude.{
  ℕ, zero, suc, Bool, ◌||◌, Option, none, some, List, [], ◌∷◌, ◌++◌, if◌then◌else◌, any, Text,
  codes, text_eq, eq_ignore_case,
}
use mallard_cube.Mdx.Ast.{
  MemberRef, Expr, Exprs, Axis, Select, member, measure, range, tuple, set, call, members, children,
  number, nil, cons, dim, level, hierarchy, as_member,
}
use mallard_cube.Mdx.Axes.{clauses, axes, is_measures}
use mallard_cube.Mdx.Parser.Statement.{uname, bracketed, parse_unsigned}

-- `<member with a level>.Members` gives its dimension and level.
unfoldable pub push_level : Option MemberRef → List (Text × Text) → List (Text × Text)
push_level none out = out
push_level (some m) out = elim (level m) [ none ↦ out | some l ↦ out ++ (dim m, l) ∷ [] ]

unfoldable mutual
  pub collect_level_members : Expr → List (Text × Text) → List (Text × Text)
  collect_level_members (members inner) out =
      collect_level_members inner (push_level (as_member inner) out)
  collect_level_members (call _ args) out = levels_of args out
  collect_level_members (set items) out = levels_of items out
  collect_level_members (tuple items) out = levels_of items out
  collect_level_members (range a b) out = collect_level_members b (collect_level_members a out)
  collect_level_members (children inner) out = collect_level_members inner out
  collect_level_members _ out = out

  pub levels_of : Exprs → List (Text × Text) → List (Text × Text)
  levels_of nil out = out
  levels_of (cons e es) out = levels_of es (collect_level_members e out)

-- A step over the expressions of all axes, in the order they are written.
unfoldable pub over_axes {ℓ} : {S : Type ℓ} → (Exprs → S → S) → List Axis → S → S
over_axes f [] s = s
over_axes f (a ∷ more) s = over_axes f more (f a.exprs s)

unfoldable pub axis_level_members : Select → List (Text × Text)
axis_level_members sel = over_axes levels_of (axes sel) []

-- `<member without a level>.Members` gives its dimension and hierarchy, the first of a dimension.
unfoldable pub push_hierarchy :
    Text → Option Text → Option Text → Option Text → List (Text × Text) → List (Text × Text)
push_hierarchy d none none (some h) out =
    if is_measures d || any (λ (p : Text × Text). text_eq p.0 d) out
    then out
    else out ++ (d, h) ∷ []
push_hierarchy d _ _ _ out = out

unfoldable pub push_bare : Option MemberRef → List (Text × Text) → List (Text × Text)
push_bare none out = out
push_bare (some m) out = push_hierarchy (dim m) (level m) m.key (hierarchy m) out

unfoldable mutual
  pub collect_bare : Expr → List (Text × Text) → List (Text × Text)
  collect_bare (members inner) out = collect_bare inner (push_bare (as_member inner) out)
  collect_bare (call _ args) out = bare_of args out
  collect_bare (set items) out = bare_of items out
  collect_bare (tuple items) out = bare_of items out
  collect_bare (range a b) out = collect_bare b (collect_bare a out)
  collect_bare (children inner) out = collect_bare inner out
  collect_bare _ out = out

  pub bare_of : Exprs → List (Text × Text) → List (Text × Text)
  bare_of nil out = out
  bare_of (cons e es) out = bare_of es (collect_bare e out)

unfoldable pub axis_dimension_members : Select → List (Text × Text)
axis_dimension_members sel = over_axes bare_of (axes sel) []

-- Dimension, level, first and last key of `{a : b}`.
abbrev pub Between : Type 0
Between = Text × Text × Text × Text

unfoldable pub push_keys :
    Text → Option Text → Option Text → Option Text → List Between → List Between
push_keys d (some l) (some k) (some k') out = out ++ (d, l, k, k') ∷ []
push_keys d _ _ _ out = out

unfoldable pub push_range : Option MemberRef → Option MemberRef → List Between → List Between
push_range (some from) (some to) out = push_keys (dim from) (level from) from.key to.key out
push_range _ _ out = out

unfoldable mutual
  pub collect_ranges : Expr → List Between → List Between
  collect_ranges (range a b) out = push_range (as_member a) (as_member b) out
  collect_ranges (call _ args) out = ranges_of args out
  collect_ranges (set items) out = ranges_of items out
  collect_ranges (tuple items) out = ranges_of items out
  collect_ranges (members inner) out = collect_ranges inner out
  collect_ranges (children inner) out = collect_ranges inner out
  collect_ranges _ out = out

  pub ranges_of : Exprs → List Between → List Between
  ranges_of nil out = out
  ranges_of (cons e es) out = ranges_of es (collect_ranges e out)

unfoldable pub axis_member_ranges : Select → List Between
axis_member_ranges sel = over_axes ranges_of (axes sel) []

unfoldable pub where_member_ranges : Select → List Between
where_member_ranges sel = elim (clauses sel).where_clause [
  | none ↦ []
  | some w ↦ collect_ranges w []
]

pub data SetExpr : Type 0 where
  all_measures : SetExpr
  level_members : Text → Option Text → Option Text → SetExpr
  all_members : Text → SetExpr
  member_list : List Text → SetExpr
  member_range : Text → Text → SetExpr
  head tail : SetExpr → ℕ → SetExpr

unfoldable pub nth : ℕ → Exprs → Option Expr
nth i nil = none
nth zero (cons e es) = some e
nth (suc i) (cons e es) = nth i es

abbrev pub member_at : Option Expr → Option MemberRef
member_at none = none
member_at (some e) = as_member e

unfoldable pub member_uname : Expr → Option Text
member_uname (member m) = some (uname m)
member_uname (measure name) = some (codes "[Measures]." ++ bracketed name)
member_uname _ = none

-- The names of all items, `none` if one has none.
unfoldable pub cons_name : Option Text → Option (List Text) → Option (List Text)
cons_name (some n) (some ns) = some (n ∷ ns)
cons_name _ _ = none

unfoldable pub unames : Exprs → Option (List Text)
unames nil = some []
unames (cons e es) = cons_name (member_uname e) (unames es)

abbrev pub level_set : MemberRef → SetExpr
level_set m = level_members (dim m) (level m) (hierarchy m)

abbrev pub is_all : Text → Bool
is_all l = eq_ignore_case l (codes "all") || eq_ignore_case l (codes "(all)")

-- The number of `HEAD` and `TAIL`; the source counts in 64 bits.
unfoldable pub count_at : Option Expr → Option ℕ
count_at (some (number n)) = parse_unsigned 64 n
count_at _ = none

abbrev pub is_one_of : List Text → Text → Bool
is_one_of words name = any (eq_ignore_case name) words

unfoldable pub period_anchor : Text → Exprs → Option MemberRef
period_anchor name args =
    if is_one_of (codes "PERIODSTODATE" ∷ codes "LASTPERIODS" ∷ []) name
    then member_at (nth 1 args)
    else if eq_ignore_case name (codes "PARALLELPERIOD")
    then member_at (nth 2 args)
    else member_at (nth 0 args)

abbrev pub is_period : Text → Bool
is_period = is_one_of (
    codes "YTD"
    ∷ codes "QTD"
    ∷ codes "MTD"
    ∷ codes "PERIODSTODATE"
    ∷ codes "PARALLELPERIOD"
    ∷ codes "LASTPERIODS"
    ∷ [])

unfoldable pub counted : Bool → Option SetExpr → Option ℕ → Option SetExpr
counted is_head (some s) (some n) = some (if is_head then head s n else tail s n)
counted is_head _ _ = none

-- A call, given what its first argument is as a set.
unfoldable pub call_set : Text → Exprs → Option SetExpr → Option SetExpr
call_set name args source =
    if eq_ignore_case name (codes "HEAD") || eq_ignore_case name (codes "TAIL")
    then counted (eq_ignore_case name (codes "HEAD")) source (count_at (nth 1 args))
    else if eq_ignore_case name (codes "FILTER")
    then source
    else if is_period name
    then elim (period_anchor name args) [ none ↦ none | some m ↦ some (level_set m) ]
    else none

unfoldable pub members_set : Option MemberRef → Option SetExpr
members_set none = none
members_set (some m) =
    some (if text_eq (dim m) (codes "Measures") then all_measures else level_set m)

unfoldable pub children_set : Option MemberRef → Option SetExpr
children_set none = none
children_set (some m) = elim (level m) [
  | none ↦ none
  | some l ↦ if is_all l then some (all_members (dim m)) else none
]

unfoldable pub range_set : Option MemberRef → Option MemberRef → Option SetExpr
range_set (some a) (some b) = some (member_range (uname a) (uname b))
range_set _ _ = none

unfoldable pub items_set : Exprs → Option SetExpr → Option SetExpr
items_set (cons e nil) (some inner) = some inner
items_set items _ = elim (unames items) [ none ↦ none | some ns ↦ some (member_list ns) ]

unfoldable mutual
  pub set_expr_from_ast : Expr → Option SetExpr
  set_expr_from_ast (members inner) = members_set (as_member inner)
  set_expr_from_ast (children inner) = children_set (as_member inner)
  set_expr_from_ast (range a b) = range_set (as_member a) (as_member b)
  set_expr_from_ast (call name args) = call_set name args (first_set args)
  set_expr_from_ast (set items) = items_set items (first_set items)
  set_expr_from_ast _ = none

  pub first_set : Exprs → Option SetExpr
  first_set nil = none
  first_set (cons e es) = set_expr_from_ast e
