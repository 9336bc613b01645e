-- ===== src/Mdx/Calls/Order.antt =====
-- src/mdx/frontend.rs: the order in which the first call and a measure are looked for.
use mallard_cube.Prelude.{
  ◌≡◌, refl, sym, ap₂, ◌∙◌, inl, inr, Option, none, some, List, [], ◌∷◌, ◌++◌, if◌then◌else◌,
  Bool-cases, Option-cases, Text,
}
use mallard_cube.Mdx.Ast.{
  Expr, Exprs, Axis, Select, range, tuple, set, call, members, children, exclude, binary, nil, cons,
}
use mallard_cube.Mdx.Axes.{clauses, axes}
use mallard_cube.Mdx.Walk.Visits.{under, under_all, under_axes, under_slicer}
use mallard_cube.Mdx.Calls.{
  or_else, is_among, call_in, call_among, call_on, call_sliced, subselect_axes, first_call,
}

-- The name of the call that the expression is, if it is one of the names.
unfoldable pub name_of : List Text → Expr → Option Text
name_of names (call name _) = if is_among names name then some name else none
name_of names _ = none

-- The first name that a list of expressions has.
unfoldable pub first_name : List Text → List Expr → Option Text
first_name names [] = none
first_name names (e ∷ es) = or_else (name_of names e) (first_name names es)

first_name-append :
    (names : List Text) (xs ys : List Expr)
    → first_name names (xs ++ ys) ≡ or_else (first_name names xs) (first_name names ys)
unfolding first_name
first_name-append names [] ys = refl
first_name-append names (x ∷ xs) ys = elim (Option-cases (name_of names x)) [
  | inl e ↦ rw e (first_name-append names xs ys)
  | inr (n, e) ↦ rw e refl
]

module _ (names : List Text) where
  -- Two parts after each other.
  join_names :
      (xs ys : List Expr) {o p : Option Text}
      → o ≡ first_name names xs
      → p ≡ first_name names ys
      → or_else o p ≡ first_name names (xs ++ ys)
  join_names xs ys h k =
      ap₂ (λ (o p : Option Text). or_else o p) h k ∙ sym (first_name-append names xs ys)

  mutual
    unfolding call_in call_among under under_all first_name name_of

    call_in-eq : (e : Expr) → call_in names e ≡ first_name names (under e)
    call_in-eq (call name args) = elim (Bool-cases (is_among names name)) [
      | inl h ↦ rw h refl
      | inr h ↦ rw h (call_among-eq args)
    ]
    call_in-eq (set items) = call_among-eq items
    call_in-eq (tuple items) = call_among-eq items
    call_in-eq (range a b) = join_names (under a) (under b) (call_in-eq a) (call_in-eq b)
    call_in-eq (members inner) = call_in-eq inner
    call_in-eq (children inner) = call_in-eq inner
    call_in-eq (exclude inner) = call_in-eq inner
    call_in-eq (binary _ a b) = join_names (under a) (under b) (call_in-eq a) (call_in-eq b)
    call_in-eq _ = refl

    call_among-eq : (es : Exprs) → call_among names es ≡ first_name names (under_all es)
    call_among-eq nil = refl
    call_among-eq (cons e es) =
        join_names (under e) (under_all es) (call_in-eq e) (call_among-eq es)

  call_on-eq : (bs : List Axis) → call_on names bs ≡ first_name names (under_axes bs)
  unfolding call_on under_axes first_name
  call_on-eq [] = refl
  call_on-eq (b ∷ bs) =
      join_names (under_all b.exprs) (under_axes bs) (call_among-eq b.exprs) (call_on-eq bs)

  call_sliced-eq : (o : Option Expr) → call_sliced names o ≡ first_name names (under_slicer o)
  unfolding call_sliced under_slicer first_name
  call_sliced-eq none = refl
  call_sliced-eq (some w) = call_in-eq w

  -- `first_call` gives the name of the first call to one of the names, as it is written, among all
  -- expressions on the axes in the order of the statement, in the slicer and on the axes of the
  -- subselect, each before what is under it; and nothing if there is none.
  pub first_call-eq :
      (sel : Select)
      → first_call sel names
        ≡ first_name names (
            under_axes (axes sel)
            ++ (under_slicer (clauses sel).where_clause ++ under_axes (subselect_axes sel)))
  unfolding first_call
  first_call-eq sel =
      join_names (under_axes (axes sel))
        (under_slicer (clauses sel).where_clause ++ under_axes (subselect_axes sel))
        (call_on-eq (axes sel))
        (join_names (under_slicer (clauses sel).where_clause) (under_axes (subselect_axes sel))
          (call_sliced-eq (clauses sel).where_clause) (call_on-eq (subselect_axes sel)))
