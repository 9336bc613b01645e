-- ===== src/Mdx/Calls.antt =====
-- src/mdx/frontend.rs: the questions about a statement that stop at the first answer: which call
-- comes first, and whether a measure is mentioned.
pub mod Order
use mallard_cube.Prelude.{
  Bool, true, false, ◌||◌, Option, none, some, List, [], ◌∷◌, ◌++◌, if◌then◌else◌, any, Text, codes,
  eq_ignore_case,
}
use mallard_cube.Mdx.Ast.{
  Expr, Exprs, Axis, Select, plain, over, measure, range, tuple, set, call, members, children,
  exclude, binary, nil, cons,
}
use mallard_cube.Mdx.Axes.{clauses, axes}
use mallard_cube.Mdx.Walk.{starts_with, contains}

abbrev pub or_else {ℓ} : {A : Type ℓ} → Option A → Option A → Option A
or_else (some x) o = some x
or_else none o = o

-- `names.iter().any(|n| name.eq_ignore_ascii_case(n))`
abbrev pub is_among : List Text → Text → Bool
is_among names name = any (eq_ignore_case name) names

unfoldable mutual
  pub call_in : List Text → Expr → Option Text
  call_in names (call name args) =
      let inside = call_among names args in if is_among names name then some name else inside
  call_in names (set items) = call_among names items
  call_in names (tuple items) = call_among names items
  call_in names (range a b) = or_else (call_in names a) (call_in names b)
  call_in names (members inner) = call_in names inner
  call_in names (children inner) = call_in names inner
  call_in names (exclude inner) = call_in names inner
  call_in names (binary _ a b) = or_else (call_in names a) (call_in names b)
  call_in names _ = none

  pub call_among : List Text → Exprs → Option Text
  call_among names nil = none
  call_among names (cons e es) = or_else (call_in names e) (call_among names es)

unfoldable pub call_on : List Text → List Axis → Option Text
call_on names [] = none
call_on names (a ∷ more) = or_else (call_among names a.exprs) (call_on names more)

unfoldable pub call_sliced : List Text → Option Expr → Option Text
call_sliced names none = none
call_sliced names (some w) = call_in names w

unfoldable pub subselect_axes : Select → List Axis
subselect_axes (plain c) = []
subselect_axes (over c inner) = axes inner

-- The axes as they are written, the slicer, the axes of the subselect.
unfoldable pub first_call : Select → List Text → Option Text
first_call sel names =
    or_else (call_on names (axes sel))
      (or_else (call_sliced names (clauses sel).where_clause) (call_on names (subselect_axes sel)))

unfoldable mutual
  pub measure_in : Expr → Bool
  measure_in (measure _) = true
  measure_in (set items) = measure_among items
  measure_in (tuple items) = measure_among items
  measure_in (call _ args) = measure_among args
  measure_in (range a b) = measure_in a || measure_in b
  measure_in (members inner) = measure_in inner
  measure_in (children inner) = measure_in inner
  measure_in (exclude inner) = measure_in inner
  measure_in (binary _ a b) = measure_in a || measure_in b
  measure_in _ = false

  pub measure_among : Exprs → Bool
  measure_among nil = false
  measure_among (cons e es) = measure_in e || measure_among es

abbrev pub measure_sliced : Option Expr → Bool
measure_sliced none = false
measure_sliced (some w) = measure_in w

-- `upper` is Unicode's `to_uppercase`.
unfoldable pub mentions_measure : (Text → Text) → Select → Bool
mentions_measure upper sel =
    any (λ (d : Text × Expr). starts_with (codes "[MEASURES]") (upper d.0))
      (clauses sel).with_members
    || any (λ (a : Axis). measure_among a.exprs) (axes sel)
    || measure_sliced (clauses sel).where_clause
    || any (λ (a : Axis). measure_among a.exprs) (subselect_axes sel)

-- The quoted bodies of `WITH`.
unfoldable pub bodies_contain : (Text → Text) → Select → Text → Bool
bodies_contain upper sel needle =
    any
      (λ (d : Text × Expr). elim d.1 [ Expr.str s ↦ contains (upper needle) (upper s) | _ ↦ false ])
      ((clauses sel).with_members ++ (clauses sel).with_sets)
