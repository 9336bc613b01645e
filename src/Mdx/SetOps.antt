-- ===== src/Mdx/SetOps.antt =====
-- src/mdx/frontend.rs: `axis_set_op`, the Top/Bottom, Order or Filter that wraps the set of an axis.
-- `AxisSetOp` is of src/mdx/parser.rs. Floating-point numbers are any type `F`; how a text is parsed
-- as one, and how one is cast to a count, are arguments. The name of a call is ASCII, as the lexer
-- gives it.
pub mod Wrapping
use mallard_cube.Prelude.{
  ℕ, Bool, false, ◌||◌, Option, none, some, List, [], ◌∷◌, if◌then◌else◌, Text, codes,
  eq_ignore_case,
}
use mallard_cube.Mdx.Ast.{
  CmpOp, Expr, Exprs, Axis, Select, measure, range, tuple, set, call, members, children, binary,
  number, str, nil, cons,
}
use mallard_cube.Mdx.Axes.{axes}
use mallard_cube.Mdx.Sets.{nth}
use mallard_cube.Mdx.Calls.{or_else, subselect_axes}

pub data AxisSetOp (F : Type 0) : Type 0 where
  top_count top_count_filter : ℕ → Bool → AxisSetOp F
  top_percent : F → AxisSetOp F
  order : Bool → AxisSetOp F
  filter : CmpOp → F → AxisSetOp F

module _ {F : Type 0} (parse : Text → Option F) (to_count : F → ℕ) where
  unfoldable pub num : Option Expr → Option F
  num (some (number n)) = parse n
  num _ = none

  unfoldable pub is_desc : Exprs → Bool
  is_desc nil = false
  is_desc (cons (str s) es) = eq_ignore_case s (codes "DESC") || is_desc es
  is_desc (cons e es) = is_desc es

  -- A comparison, or a tuple that begins with one: Excel puts parentheses round it.
  unfoldable pub as_condition : Expr → Option Expr
  as_condition (binary op a b) = some (binary op a b)
  as_condition (tuple (cons (binary op a b) _)) = some (binary op a b)
  as_condition _ = none

  unfoldable pub condition : Exprs → Option Expr
  condition nil = none
  condition (cons e es) = or_else (as_condition e) (condition es)

  abbrev pub with_value : CmpOp → Option F → Option (AxisSetOp F)
  with_value op none = none
  with_value op (some v) = some (filter op v)

  -- A value filter compares a measure with a number.
  unfoldable pub value_filter : Option Expr → Option (AxisSetOp F)
  value_filter (some (binary op (measure _) rhs)) = with_value op (num (some rhs))
  value_filter _ = none

  abbrev pub counted : Bool → Option F → Option (AxisSetOp F)
  counted desc none = none
  counted desc (some v) = some (top_count (to_count v) desc)

  abbrev pub percent : Option F → Option (AxisSetOp F)
  percent none = none
  percent (some v) = some (top_percent v)

  abbrev pub either : Text → Text → Text → Bool
  either a b name = eq_ignore_case name a || eq_ignore_case name b

  -- A call, given what its arguments have.
  unfoldable pub call_op : Text → Exprs → Option (AxisSetOp F) → Option (AxisSetOp F)
  call_op name args inside =
      if either (codes "TOPCOUNT") (codes "BOTTOMCOUNT") name
      then counted (eq_ignore_case name (codes "TopCount")) (num (nth 1 args))
      else if either (codes "TOPPERCENT") (codes "BOTTOMPERCENT") name
      then percent (num (nth 1 args))
      else if eq_ignore_case name (codes "ORDER")
      then some (order (is_desc args))
      else if eq_ignore_case name (codes "FILTER")
      then value_filter (condition args)
      else inside

  unfoldable mutual
    pub op_in : Expr → Option (AxisSetOp F)
    op_in (call name args) = call_op name args (op_among args)
    op_in (set items) = op_among items
    op_in (tuple items) = op_among items
    op_in (range a b) = or_else (op_in a) (op_in b)
    op_in (members inner) = op_in inner
    op_in (children inner) = op_in inner
    op_in _ = none

    pub op_among : Exprs → Option (AxisSetOp F)
    op_among nil = none
    op_among (cons e es) = or_else (op_in e) (op_among es)

  unfoldable pub op_on : List Axis → Option (AxisSetOp F)
  op_on [] = none
  op_on (a ∷ more) = or_else (op_among a.exprs) (op_on more)

  -- In a subselect the count only filters the outer axis.
  unfoldable pub as_filter : Option (AxisSetOp F) → Option (AxisSetOp F)
  as_filter (some (top_count n desc)) = some (top_count_filter n desc)
  as_filter o = o

  unfoldable pub axis_set_op : Select → Option (AxisSetOp F)
  axis_set_op sel = or_else (op_on (axes sel)) (as_filter (op_on (subselect_axes sel)))
