-- ===== src/Mdx/Members/Flatten.antt =====
-- src/mdx/frontend.rs: the members of nested subselects.
use mallard_cube.Prelude.{
  ◌≡◌, refl, sym, ap, ◌∙◌, Option, none, some, List, [], ◌∷◌, ◌++◌, append-nil, append_assoc,
}
use mallard_cube.Mdx.Ast.{
  Expr, Exprs, Axis, Clauses, Select, plain, over, member, measure, range, tuple, set, call,
  members, children, exclude, binary, number, str, nil, cons,
}
use mallard_cube.Mdx.Sets.{over_axes}
use mallard_cube.Mdx.Members.{
  Filtered, push_some, ast_to_member, flatten_members, flatten_all, collect_subselect,
  subquery_members,
}

push_some-append :
    (o : Option Filtered) (out : List Filtered) → push_some o out ≡ out ++ push_some o []
push_some-append none out = sym (append-nil out)
push_some-append (some x) out = refl

mutual
  unfolding flatten_members flatten_all

  flatten_members-append :
      (e : Expr) (out : List Filtered) → flatten_members e out ≡ out ++ flatten_members e []
  flatten_members-append (set items) out = flatten_all-append items out
  flatten_members-append (tuple items) out = flatten_all-append items out
  flatten_members-append (range _ _) out = sym (append-nil out)
  flatten_members-append (exclude inner) out = flatten_members-append inner out
  flatten_members-append (members _) out = sym (append-nil out)
  flatten_members-append (children _) out = sym (append-nil out)
  flatten_members-append (binary _ _ _) out = sym (append-nil out)
  flatten_members-append (member m) out = push_some-append (ast_to_member (member m)) out
  flatten_members-append (measure m) out = push_some-append (ast_to_member (measure m)) out
  flatten_members-append (number n) out = push_some-append (ast_to_member (number n)) out
  flatten_members-append (str s) out = push_some-append (ast_to_member (str s)) out
  flatten_members-append (call f es) out = push_some-append (ast_to_member (call f es)) out

  flatten_all-append :
      (es : Exprs) (out : List Filtered) → flatten_all es out ≡ out ++ flatten_all es []
  flatten_all-append nil out = sym (append-nil out)
  flatten_all-append (cons e es) out =
      flatten_all-append es (flatten_members e out)
      ∙ ap (λ (t : List Filtered). t ++ flatten_all es []) (flatten_members-append e out)
      ∙ append_assoc out (flatten_members e []) (flatten_all es [])
      ∙ ap (λ (t : List Filtered). out ++ t) (sym (flatten_all-append es (flatten_members e [])))

over_axes-append :
    (as' : List Axis) (out : List Filtered)
    → over_axes flatten_all as' out ≡ out ++ over_axes flatten_all as' []
unfolding over_axes
over_axes-append [] out = sym (append-nil out)
over_axes-append (a ∷ more) out =
    over_axes-append more (flatten_all a.exprs out)
    ∙ ap (λ (t : List Filtered). t ++ over_axes flatten_all more [])
        (flatten_all-append a.exprs out)
    ∙ append_assoc out (flatten_all a.exprs []) (over_axes flatten_all more [])
    ∙ ap (λ (t : List Filtered). out ++ t) (sym (over_axes-append more (flatten_all a.exprs [])))

collect_subselect-append :
    (s : Select) (out : List Filtered) → collect_subselect s out ≡ out ++ collect_subselect s []
unfolding collect_subselect
collect_subselect-append (plain c) out = over_axes-append c.axes out
collect_subselect-append (over c inner) out =
    collect_subselect-append inner (over_axes flatten_all c.axes out)
    ∙ ap (λ (t : List Filtered). t ++ collect_subselect inner []) (over_axes-append c.axes out)
    ∙ append_assoc out (over_axes flatten_all c.axes []) (collect_subselect inner [])
    ∙ ap (λ (t : List Filtered). out ++ t)
        (sym (collect_subselect-append inner (over_axes flatten_all c.axes [])))

-- The members of a subselect that has a subselect of its own are those on its axes, and behind them
-- those that the statement would have with the inner subselect alone.
pub subquery_members-over :
    (c d : Clauses) (inner : Select)
    → subquery_members (over c (over d inner))
      ≡ subquery_members (over c (plain d)) ++ subquery_members (over d inner)
unfolding subquery_members collect_subselect
subquery_members-over c d inner = collect_subselect-append inner (over_axes flatten_all d.axes [])
