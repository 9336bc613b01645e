-- ===== src/Mdx/Walk.antt =====
-- src/mdx/frontend.rs: the traversals of a statement and the questions that are answered by one. A
-- closure that is called on every expression is a step on a state.
pub mod Visits
use mallard_cube.Prelude.{
  Bool, true, false, not, ◌&&◌, ◌||◌, Option, none, some, List, [], ◌∷◌, ◌++◌, ◌==◌, if◌then◌else◌,
  is_empty, Text, eq_ignore_case,
}
use mallard_cube.Mdx.Ast.{
  Expr, Exprs, Axis, Select, plain, over, member, range, tuple, set, call, members, children,
  exclude, binary, nil, cons, dim,
}
use mallard_cube.Mdx.Axes.{clauses, axes, sort_axes, is_measures}

unfoldable mutual
  pub walk_expr {ℓ} : {S : Type ℓ} → (S → Expr → S) → Expr → S → S
  walk_expr f (range a b) s = walk_expr f b (walk_expr f a (f s (range a b)))
  walk_expr f (tuple items) s = walk_all f items (f s (tuple items))
  walk_expr f (set items) s = walk_all f items (f s (set items))
  walk_expr f (call name args) s = walk_all f args (f s (call name args))
  walk_expr f (members inner) s = walk_expr f inner (f s (members inner))
  walk_expr f (children inner) s = walk_expr f inner (f s (children inner))
  walk_expr f (exclude inner) s = walk_expr f inner (f s (exclude inner))
  walk_expr f (binary op a b) s = walk_expr f b (walk_expr f a (f s (binary op a b)))
  walk_expr f e s = f s e

  pub walk_all {ℓ} : {S : Type ℓ} → (S → Expr → S) → Exprs → S → S
  walk_all f nil s = s
  walk_all f (cons e es) s = walk_all f es (walk_expr f e s)

unfoldable pub walk_axes {ℓ} : {S : Type ℓ} → (S → Expr → S) → List Axis → S → S
walk_axes f [] s = s
walk_axes f (a ∷ more) s = walk_axes f more (walk_all f a.exprs s)

unfoldable pub walk_slicer {ℓ} : {S : Type ℓ} → (S → Expr → S) → Option Expr → S → S
walk_slicer f none s = s
walk_slicer f (some e) s = walk_expr f e s

unfoldable pub walk_bodies {ℓ} : {S : Type ℓ} → (S → Expr → S) → List (Text × Expr) → S → S
walk_bodies f [] s = s
walk_bodies f ((_, body) ∷ more) s = walk_bodies f more (walk_expr f body s)

-- The axes in the order of their numbers, the slicer, the subselect, the bodies of `WITH`.
unfoldable pub for_each_expr {ℓ} : {S : Type ℓ} → (S → Expr → S) → Select → S → S
for_each_expr f (plain c) s =
    walk_bodies f (c.with_sets ++ c.with_members)
      (walk_slicer f c.where_clause (walk_axes f (sort_axes c.axes) s))
for_each_expr f (over c sub) s =
    walk_bodies f (c.with_sets ++ c.with_members)
      (for_each_expr f sub (walk_slicer f c.where_clause (walk_axes f (sort_axes c.axes) s)))

unfoldable pub is_call : Text → Expr → Bool
is_call name (call n _) = eq_ignore_case n name
is_call name _ = false

unfoldable pub is_members : Expr → Bool
is_members (members _) = true
is_members _ = false

unfoldable pub is_children : Expr → Bool
is_children (children _) = true
is_children _ = false

-- `if p(e) { found = true }`
unfoldable pub mark : (Expr → Bool) → Bool → Expr → Bool
mark p found e = if p e then true else found

-- `if found.is_none() && p(e) { found = Some(e) }`
unfoldable pub remember : (Expr → Bool) → Option Expr → Expr → Option Expr
remember p (some x) e = some x
remember p none e = if p e then some e else none

unfoldable pub mentions_call : Select → Text → Bool
mentions_call sel name = for_each_expr (mark (is_call name)) sel false

unfoldable pub find_call : Select → Text → Option Expr
find_call sel name = for_each_expr (remember (is_call name)) sel none

unfoldable pub mentions_members : Select → Bool
mentions_members sel = for_each_expr (mark is_members) sel false

unfoldable pub mentions_children : Select → Bool
mentions_children sel = for_each_expr (mark is_children) sel false

unfoldable pub is_dimension : Expr → Bool
is_dimension (member m) = not (is_empty (dim m)) && not (is_measures (dim m))
is_dimension _ = false

unfoldable pub dim_of : Expr → Option Text
dim_of (member m) = some (dim m)
dim_of _ = none

unfoldable pub first_dimension : Exprs → Option Text
first_dimension nil = none
first_dimension (cons e es) =
    let rest = first_dimension es in
    elim (walk_expr (remember is_dimension) e none) [ none ↦ rest | some x ↦ dim_of x ]

unfoldable pub first_of_axes : List Axis → Option Text
first_of_axes [] = none
first_of_axes (a ∷ more) =
    let rest = first_of_axes more in
    elim (first_dimension a.exprs) [ none ↦ rest | some d ↦ some d ]

unfoldable pub first_axis_dimension : Select → Option Text
first_axis_dimension sel = first_of_axes (sort_axes (axes sel))

unfoldable pub member_is_dim : Expr → Text → Bool
member_is_dim (member m) d = eq_ignore_case (dim m) d
member_is_dim _ d = false

-- Does the text begin with `needle`, and does it contain it?
unfoldable pub starts_with : Text → Text → Bool
starts_with [] s = true
starts_with (c ∷ n) [] = false
starts_with (c ∷ n) (d ∷ s) = c == d && starts_with n s

unfoldable pub contains : Text → Text → Bool
contains needle [] = is_empty needle
contains needle (c ∷ s) = starts_with needle (c ∷ s) || contains needle s

-- The first declared name that contains `needle`; `lower` is Unicode's `to_lowercase`.
unfoldable pub body_of : (Text → Text) → Text → List (Text × Expr) → Option Expr
body_of lower needle [] = none
body_of lower needle ((name, body) ∷ more) =
    let rest = body_of lower needle more in
    if contains (lower needle) (lower name) then some body else rest

unfoldable pub with_body : (Text → Text) → Select → Text → Option Expr
with_body lower sel needle =
    body_of lower needle ((clauses sel).with_members ++ (clauses sel).with_sets)

unfoldable pub with_body_text : (Text → Text) → Select → Text → Option Text
with_body_text lower sel needle = elim (with_body lower sel needle) [
  | some (Expr.str t) ↦ some t
  | _ ↦ none
]
