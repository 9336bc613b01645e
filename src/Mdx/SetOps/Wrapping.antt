-- ===== src/Mdx/SetOps/Wrapping.antt =====
-- src/mdx/frontend.rs: which axes the operation of `axis_set_op` is from.
use mallard_cube.Prelude.{
  ℕ, ◌≡◌, refl, subst, ◌∙◌, ◌⊎◌, inl, inr, Bool, true, false, Option, none, some, List, [], ◌∷◌,
  if◌then◌else◌, Option-cases, Text, codes, eq_ignore_case,
}
use mallard_cube.Mdx.Ast.{
  CmpOp, Expr, Exprs, Axis, Select, measure, range, tuple, set, call, members, children, binary,
  nil, cons,
}
use mallard_cube.Mdx.Axes.{axes}
use mallard_cube.Mdx.Sets.{nth}
use mallard_cube.Mdx.Calls.{or_else, subselect_axes}
use mallard_cube.Mdx.SetOps.{
  AxisSetOp, top_count, top_count_filter, top_percent, order, filter, num, is_desc, condition,
  value_filter, counted, percent, either, with_value, call_op, op_in, op_among, op_on, as_filter,
  axis_set_op,
}

-- Does the operation replace the members of its axis by a count of them?
unfoldable pub replaces : {F : Type 0} → Option (AxisSetOp F) → Bool
replaces (some (top_count _ _)) = true
replaces _ = false

-- Nothing, or an operation that does not filter another axis.
pub data Direct {F : Type 0} : Option (AxisSetOp F) → Type 0 where
  nothing : Direct none
  counting : (n : ℕ) (desc : Bool) → Direct (some (top_count n desc))
  by_percent : (v : F) → Direct (some (top_percent v))
  ordering : (desc : Bool) → Direct (some (order desc))
  by_value : (op : CmpOp) (v : F) → Direct (some (filter op v))

module _ {F : Type 0} (parse : Text → Option F) (to_count : F → ℕ) where
  Direct-or_else : {o p : Option (AxisSetOp F)} → Direct o → Direct p → Direct (or_else o p)
  Direct-or_else nothing q = q
  Direct-or_else (counting n d) q = counting n d
  Direct-or_else (by_percent v) q = by_percent v
  Direct-or_else (ordering d) q = ordering d
  Direct-or_else (by_value op v) q = by_value op v

  Direct-if :
      (b : Bool) {x y : Option (AxisSetOp F)} → Direct x → Direct y → Direct (if b then x else y)
  Direct-if true h k = h
  Direct-if false h k = k

  Direct-counted : (desc : Bool) (o : Option F) → Direct (counted parse to_count desc o)
  Direct-counted desc none = nothing
  Direct-counted desc (some v) = counting (to_count v) desc

  Direct-percent : (o : Option F) → Direct (percent parse to_count o)
  Direct-percent none = nothing
  Direct-percent (some v) = by_percent v

  Direct-with_value : (op : CmpOp) (o : Option F) → Direct (with_value parse to_count op o)
  Direct-with_value op none = nothing
  Direct-with_value op (some v) = by_value op v

  Direct-value_filter : (o : Option Expr) → Direct (value_filter parse to_count o)
  unfolding value_filter
  Direct-value_filter (some (binary op (measure _) rhs)) =
      Direct-with_value op (num parse to_count (some rhs))
  Direct-value_filter _ = nothing

  Direct-call_op :
      (name : Text) (args : Exprs) (inside : Option (AxisSetOp F))
      → Direct inside
      → Direct (call_op parse to_count name args inside)
  unfolding call_op
  Direct-call_op name args inside h =
      Direct-if (either parse to_count (codes "TOPCOUNT") (codes "BOTTOMCOUNT") name)
        (Direct-counted (eq_ignore_case name (codes "TopCount")) (num parse to_count (nth 1 args)))
        (Direct-if (either parse to_count (codes "TOPPERCENT") (codes "BOTTOMPERCENT") name)
          (Direct-percent (num parse to_count (nth 1 args)))
          (Direct-if (eq_ignore_case name (codes "ORDER")) (ordering (is_desc parse to_count args))
            (Direct-if (eq_ignore_case name (codes "FILTER"))
              (Direct-value_filter (condition parse to_count args)) h)))

  mutual
    unfolding op_in op_among

    Direct-op_in : (e : Expr) → Direct (op_in parse to_count e)
    Direct-op_in (call name args) =
        Direct-call_op name args (op_among parse to_count args) (Direct-op_among args)
    Direct-op_in (set items) = Direct-op_among items
    Direct-op_in (tuple items) = Direct-op_among items
    Direct-op_in (range a b) = Direct-or_else (Direct-op_in a) (Direct-op_in b)
    Direct-op_in (members inner) = Direct-op_in inner
    Direct-op_in (children inner) = Direct-op_in inner
    Direct-op_in _ = nothing

    Direct-op_among : (es : Exprs) → Direct (op_among parse to_count es)
    Direct-op_among nil = nothing
    Direct-op_among (cons e es) = Direct-or_else (Direct-op_in e) (Direct-op_among es)

  Direct-op_on : (bs : List Axis) → Direct (op_on parse to_count bs)
  unfolding op_on
  Direct-op_on [] = nothing
  Direct-op_on (b ∷ bs) = Direct-or_else (Direct-op_among b.exprs) (Direct-op_on bs)

  replaces-as_filter : (o : Option (AxisSetOp F)) → replaces (as_filter parse to_count o) ≡ false
  unfolding replaces as_filter
  replaces-as_filter none = refl
  replaces-as_filter (some (top_count n d)) = refl
  replaces-as_filter (some (top_count_filter n d)) = refl
  replaces-as_filter (some (top_percent v)) = refl
  replaces-as_filter (some (order d)) = refl
  replaces-as_filter (some (filter op v)) = refl

  -- An operation that `axis_set_op` gives is the one on the statement's own axes, and then it does
  -- not filter another axis; or there is none on these, and then it does not replace the members of
  -- an axis by a count of them.
  pub axis_set_op-origin :
      (sel : Select) (op : AxisSetOp F)
      → axis_set_op parse to_count sel ≡ some op
      → ((op_on parse to_count (axes sel) ≡ some op) × Direct (some op))
        ⊎ ((op_on parse to_count (axes sel) ≡ none) × (replaces (some op) ≡ false))
  unfolding axis_set_op
  axis_set_op-origin sel op h = elim (Option-cases (op_on parse to_count (axes sel))) [
    | inr (x, e) ↦
        let same : op_on parse to_count (axes sel) ≡ some op = e ∙ (rw e at h) in
        inl (same, subst (λ (o : Option (AxisSetOp F)). Direct o) same (Direct-op_on (axes sel)))
    | inl e ↦ inr (
      e,
      subst (λ (o : Option (AxisSetOp F)). replaces o ≡ false) (rw e at h)
          (replaces-as_filter (op_on parse to_count (subselect_axes sel))),
    )
  ]
