-- ===== src/Mdx/Sets/Named.antt =====
-- src/mdx/frontend.rs: named sets and their expansion. A reference to a named set costs a unit of
-- fuel, since the source expands the set's body in turn, and out of fuel stands for a recursion that
-- goes on. The probe of a set that stands alone on an axis.
pub mod Expansion
use mallard_cube.Prelude.{
  ℕ, zero, suc, Bool, true, false, ◌||◌, Option, none, some, List, [], ◌∷◌, ◌++◌, if◌then◌else◌,
  is_empty, any, Text, eq_ignore_case,
}
use mallard_cube.Mdx.Outcome.{Result, ok, err, out_of_fuel, ◌>>=◌}
use mallard_cube.Mdx.Ast.{
  MemberRef, Expr, Exprs, Axis, Select, member, measure, range, tuple, set, call, members, children,
  exclude, binary, number, str, nil, cons,
}
use mallard_cube.Mdx.Axes.{clauses, axes}
use mallard_cube.Mdx.Parser.{parse_set_expr}
use mallard_cube.Mdx.Sets.{SetExpr, set_expr_from_ast, nth}

abbrev pub Sets : Type 0
Sets = List (Text × Expr)

-- What can be the body of a named set.
unfoldable pub set_like : Expr → Bool
set_like (exclude _) = false
set_like (binary _ _ _) = false
set_like (number _) = false
set_like (str _) = false
set_like _ = true

unfoldable pub as_set : Text → Expr → Sets
as_set name e = if set_like e then (name, e) ∷ [] else []

-- A quoted body is parsed; one that does not parse is left out.
unfoldable pub named_set : Text → Expr → Sets
named_set name (str s) = elim (parse_set_expr s) [
  | ok e ↦ as_set name e
  | err _ ↦ []
  | out_of_fuel ↦ []
]
named_set name e = as_set name e

unfoldable pub sets_of : List (Text × Expr) → Sets
sets_of [] = []
sets_of ((name, body) ∷ more) = named_set name body ++ sets_of more

unfoldable pub named_sets : Select → Sets
named_sets sel = sets_of (clauses sel).with_sets

-- The body of the first set of this name.
unfoldable pub find_set : Text → Sets → Option Expr
find_set name [] = none
find_set name ((n, body) ∷ more) =
    let rest = find_set name more in if eq_ignore_case n name then some body else rest

-- The name of a reference of one part.
abbrev pub single : MemberRef → Option Text
single m = elim m.parts [ [] ↦ none | p ∷ ps ↦ elim ps [ [] ↦ some p | _ ↦ none ] ]

-- A member: the body of the set that it names, expanded `again`, or itself.
unfoldable pub expand_member : (Expr → Result Expr) → Sets → MemberRef → Option Text → Result Expr
expand_member again sets m none = ok (member m)
expand_member again sets m (some p) = elim (find_set p sets) [
  | none ↦ ok (member m)
  | some body ↦ again body
]

unfoldable mutual
  pub expand_in : (Expr → Result Expr) → Sets → Expr → Result Expr
  expand_in again sets (member m) = expand_member again sets m (single m)
  expand_in again sets (set items) = expand_all again sets items >>= λ es. ok (set es)
  expand_in again sets (tuple items) = expand_all again sets items >>= λ es. ok (tuple es)
  expand_in again sets (call name args) = expand_all again sets args >>= λ es. ok (call name es)
  expand_in again sets (range a b) =
      expand_in again sets a >>= λ x. expand_in again sets b >>= λ y. ok (range x y)
  expand_in again sets (members inner) = expand_in again sets inner >>= λ x. ok (members x)
  expand_in again sets (children inner) = expand_in again sets inner >>= λ x. ok (children x)
  expand_in again sets (exclude inner) = expand_in again sets inner >>= λ x. ok (exclude x)
  expand_in again sets (binary op a b) =
      expand_in again sets a >>= λ x. expand_in again sets b >>= λ y. ok (binary op x y)
  expand_in again sets e = ok e

  pub expand_all : (Expr → Result Expr) → Sets → Exprs → Result Exprs
  expand_all again sets nil = ok nil
  expand_all again sets (cons e es) =
      expand_in again sets e >>= λ x. expand_all again sets es >>= λ xs. ok (cons x xs)

unfoldable pub expand_named_sets : ℕ → Sets → Expr → Result Expr
expand_named_sets zero sets = expand_in (λ _. out_of_fuel) sets
expand_named_sets (suc f) sets = expand_in (expand_named_sets f sets) sets

unfoldable mutual
  pub has_measure : Expr → Bool
  has_measure (measure _) = true
  has_measure (set items) = any_measure items
  has_measure (tuple items) = any_measure items
  has_measure (call _ args) = any_measure args
  has_measure (members inner) = has_measure inner
  has_measure (children inner) = has_measure inner
  has_measure (range a b) = has_measure a || has_measure b
  has_measure _ = false

  pub any_measure : Exprs → Bool
  any_measure nil = false
  any_measure (cons e es) = has_measure e || any_measure es

unfoldable pub axis_has_measure : Select → Bool
axis_has_measure sel = any (λ (a : Axis). any_measure a.exprs) (axes sel)

-- A set that stands alone on the only axis; the expansion has the given fuel.
unfoldable pub set_probe_expr : ℕ → Select → Result (Option SetExpr)
set_probe_expr f sel = elim (axes sel) [
  | [] ↦ ok none
  | a ∷ more ↦
      if is_empty more
      then elim (nth 0 a.exprs) [
        | none ↦ ok none
        | some e ↦ expand_named_sets f (named_sets sel) e >>= λ x.
            ok (if axis_has_measure sel then none else set_expr_from_ast x)
      ]
      else ok none
]
