-- ===== src/Mdx/Ast.antt =====
-- src/mdx/ast.rs: the syntax tree of the MDX subset that Excel sends.
use mallard_cube.Prelude.{ℕ, Bool, Option, none, some, List, [], get_elem?, Text}

pub data CmpOp : Type 0 where
  gt ge lt le eq ne : CmpOp

-- A bracketed member reference, compound keys joined with `|`.
pub record MemberRef : Type 0 where
  pub parts : List Text
  pub key : Option Text

mutual
  pub data Expr : Type 0 where
    member : MemberRef → Expr
    measure : Text → Expr
    range : Expr → Expr → Expr
    tuple : Exprs → Expr
    set : Exprs → Expr
    call : Text → Exprs → Expr
    members : Expr → Expr
    children : Expr → Expr
    exclude : Expr → Expr
    binary : CmpOp → Expr → Expr → Expr
    number : Text → Expr
    str : Text → Expr

  -- `Vec<Expr>`
  pub data Exprs : Type 0 where
    nil : Exprs
    cons : Expr → Exprs → Exprs

pub record Axis : Type 0 where
  pub ordinal : ℕ
  pub non_empty : Bool
  pub exprs : Exprs

-- A statement without its subselect.
pub record Clauses : Type 0 where
  pub axes : List Axis
  pub cube : Option Text
  pub where_clause : Option Expr
  pub cell_props : List Text
  pub dim_props : List Text
  pub with_sets : List (Text × Expr)
  pub with_members : List (Text × Expr)

-- `subquery` is `None`, or the statement in `FROM (SELECT …)`.
pub data Select : Type 0 where
  plain : Clauses → Select
  over : Clauses → Select → Select

-- `MemberRef::dim`, `hierarchy` and `level`.
unfoldable pub dim : MemberRef → Text
dim m = elim (get_elem? m.parts 0) [ none ↦ [] | some p ↦ p ]

unfoldable pub hierarchy : MemberRef → Option Text
hierarchy m = get_elem? m.parts 1

unfoldable pub level : MemberRef → Option Text
level m = get_elem? m.parts 2

unfoldable pub as_member : Expr → Option MemberRef
as_member (member m) = some m
as_member (members e) = as_member e
as_member (children e) = as_member e
as_member _ = none

unfoldable pub root_member : Expr → Option MemberRef
root_member (member m) = some m
root_member (exclude e) = root_member e
root_member (members e) = root_member e
root_member (children e) = root_member e
root_member _ = none

unfoldable pub as_call : Expr → Option Text
as_call (call name _) = some name
as_call _ = none
