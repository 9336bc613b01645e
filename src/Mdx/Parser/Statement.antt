-- ===== src/Mdx/Parser/Statement.antt =====
-- src/mdx/frontend.rs: the parser of a whole statement. Its expressions are read with `enough`
-- fuel; the loops over `WITH` bodies, axes and nested subselects have fuel of their own.
pub mod Total
pub mod Whole
use mallard_cube.Prelude.{
  ℕ, zero, suc, ◌+◌, ◌-◌, ◌*◌, ◌^◌, Bool, true, false, ◌&&◌, ◌||◌, Option, none, some, List, [],
  ◌∷◌, ◌++◌, map, ltb, ◌==◌, if◌then◌else◌, length, is_empty, Text, codes, eq_ignore_case,
}
use mallard_cube.Mdx.Outcome.{Result, ok, err, out_of_fuel, malformed, unsupported, ◌>>=◌}
use mallard_cube.Mdx.Ast.{
  MemberRef, Expr, Exprs, Axis, Clauses, Select, plain, over, member, measure, nil, cons,
}
use mallard_cube.Mdx.Lexer.{
  Token, bracket, key, ident, dot, comma, lparen, rparen, is_ident, lex, is_digit,
}
use mallard_cube.Mdx.Parser.{Tokens, Parsed, expr, enough, join, member_ref}

-- `at_ident`
unfoldable pub at_word : Text → Tokens → Bool
at_word word [] = false
at_word word (t ∷ r) = is_ident word t

-- `eat_ident`: the tokens behind the word, if it is next.
unfoldable pub eat_word : Text → Tokens → Option Tokens
eat_word word [] = none
eat_word word (t ∷ r) = if is_ident word t then some r else none

-- `expect_ident`
unfoldable pub expect_word : Text → Tokens → Result Tokens
expect_word word ts = elim (eat_word word ts) [ none ↦ err malformed | some r ↦ ok r ]

abbrev pub read_expr : Tokens → Parsed Expr
read_expr ts = expr (enough ts) ts

unfoldable pub bracket_name : Tokens → Parsed Text
bracket_name (bracket n ∷ r) = ok (n, r)
bracket_name (ident n ∷ r) = ok (n, r)
bracket_name _ = err malformed

-- `k.split('|')`
unfoldable pub split : ℕ → Text → List Text
split sep [] = [] ∷ []
split sep (c ∷ s) =
    let rest = split sep s in
    if c == sep
    then [] ∷ rest
    else elim rest [ [] ↦ (c ∷ []) ∷ [] | part ∷ parts ↦ (c ∷ part) ∷ parts ]

abbrev pub bracketed : Text → Text
bracketed p = codes "[" ++ (p ++ codes "]")

unfoldable pub key_names : List Text → Text
key_names [] = []
key_names (p ∷ ps) = codes ".&[" ++ (p ++ (codes "]" ++ key_names ps))

-- `[D].[H].[L].&[k]`
unfoldable pub uname : MemberRef → Text
uname m =
    join (codes ".") (map bracketed m.parts)
    ++ elim m.key [ none ↦ [] | some k ↦ key_names (split b'|' k) ]

unfoldable pub member_ref_name : Tokens → Parsed Text
member_ref_name ts = member_ref ts >>= λ (e, r). elim e [
  | member m ↦ ok (uname m, r)
  | measure name ↦ ok (codes "[Measures]." ++ bracketed name, r)
  | _ ↦ err malformed
]

abbrev pub push_set : Clauses → Text → Expr → Clauses
push_set c name body = record c { with_sets = c.with_sets ++ (name, body) ∷ [] }

abbrev pub push_member : Clauses → Text → Expr → Clauses
push_member c name body = record c { with_members = c.with_members ++ (name, body) ∷ [] }

abbrev pub push_axis : Clauses → List Text → Axis → Clauses
push_axis c props axis = record c { axes = c.axes ++ axis ∷ []; dim_props = c.dim_props ++ props }

abbrev pub empty_clauses : Clauses
empty_clauses = record {
  axes = [];
  cube = none;
  where_clause = none;
  cell_props = [];
  dim_props = [];
  with_sets = [];
  with_members = [];
}

-- `<name> AS <expr>`
unfoldable pub definition : (Tokens → Parsed Text) → Tokens → Parsed (Text × Expr)
definition name ts = name ts >>= λ (n, r).
    expect_word (codes "AS") r >>= λ r'. read_expr r' >>= λ (body, r''). ok ((n, body), r'')

-- The loop of the `WITH` clause.
unfoldable pub with_loop : ℕ → Clauses → Tokens → Parsed Clauses
with_loop zero c ts = out_of_fuel
with_loop (suc f) c ts = elim (eat_word (codes "SET") ts) [
  | some r ↦ definition bracket_name r >>= λ (d, r'). with_loop f (push_set c d.0 d.1) r'
  | none ↦ elim (eat_word (codes "MEMBER") ts) [
    | some r ↦ definition member_ref_name r >>= λ (d, r'). with_loop f (push_member c d.0 d.1) r'
    | none ↦ if at_word (codes "SELECT") ts then ok (c, ts) else err unsupported
  ]
]

unfoldable pub with_clause : Tokens → Parsed Clauses
with_clause ts = elim (eat_word (codes "WITH") ts) [
  | none ↦ ok (empty_clauses, ts)
  | some r ↦ with_loop (suc (length r)) empty_clauses r
]

-- `NON EMPTY`
unfoldable pub non_empty_mark : Tokens → Parsed Bool
non_empty_mark ts = elim (eat_word (codes "NON") ts) [
  | none ↦ ok (false, ts)
  | some r ↦ expect_word (codes "EMPTY") r >>= λ r'. ok (true, r')
]

unfoldable pub next_expr : (Tokens → Parsed Exprs) → Expr → Tokens → Parsed Exprs
next_expr again e (comma ∷ r) = again r >>= λ (es, r'). ok (cons e es, r')
next_expr again e r = ok (cons e nil, r)

-- The expressions of an axis, at least one.
unfoldable pub axis_exprs : ℕ → Tokens → Parsed Exprs
axis_exprs zero ts = out_of_fuel
axis_exprs (suc f) ts = read_expr ts >>= λ (e, r). next_expr (axis_exprs f) e r

-- The words that end a list of properties.
abbrev pub ends_props : Text → Bool
ends_props p =
    eq_ignore_case p (codes "ON")
    || eq_ignore_case p (codes "FROM")
    || eq_ignore_case p (codes "WHERE")
    || eq_ignore_case p (codes "CELL")

abbrev pub flush : Text → List Text
flush current = if is_empty current then [] else current ∷ []

-- `prop_list`, with the name that is being put together.
unfoldable pub prop_list : Text → Tokens → List Text × Tokens
prop_list current (ident p ∷ r) =
    let rest = prop_list (current ++ p) r in
    if ends_props p then (flush current, ident p ∷ r) else rest
prop_list current (bracket b ∷ r) = prop_list (current ++ bracketed b) r
prop_list current (dot ∷ r) = prop_list (current ++ codes ".") r
prop_list current (comma ∷ r) = let (ps, r') = prop_list [] r in (flush current ++ ps, r')
prop_list current r = (flush current, r)

-- `<word> PROPERTIES a, b, …`, or nothing.
unfoldable pub properties : Text → Tokens → Parsed (List Text)
properties word ts = elim (eat_word word ts) [
  | none ↦ ok ([], ts)
  | some r ↦ expect_word (codes "PROPERTIES") r >>= λ r'. ok (prop_list [] r')
]

-- The value of decimal digits, `none` if another byte is among them.
unfoldable pub digits : ℕ → Text → Option ℕ
digits n [] = some n
digits n (c ∷ s) = let rest = digits (10 * n + (c - b'0')) s in if is_digit c then rest else none

-- `parse::<u32>()` and `parse::<usize>()`: a number below `2 ^ w`, an optional plus in front.
unfoldable pub parse_unsigned : ℕ → Text → Option ℕ
parse_unsigned w [] = none
parse_unsigned w (c ∷ s) =
    let body = if c == b'+' then s else c ∷ s in
    if is_empty body
    then none
    else elim (digits 0 body) [ none ↦ none | some n ↦ if ltb n (2 ^ w) then some n else none ]

unfoldable pub axis_number : Tokens → Parsed ℕ
axis_number (Token.number n ∷ r) = elim (parse_unsigned 32 n) [
  | none ↦ err malformed
  | some i ↦ ok (i, r)
]
axis_number _ = err malformed

-- `COLUMNS`, `ROWS` or a number.
unfoldable pub axis_ordinal : Tokens → Parsed ℕ
axis_ordinal ts = elim (eat_word (codes "COLUMNS") ts) [
  | some r ↦ ok (0, r)
  | none ↦ elim (eat_word (codes "ROWS") ts) [ some r ↦ ok (1, r) | none ↦ axis_number ts ]
]

abbrev pub is_single : Exprs → Bool
is_single (cons e nil) = true
is_single _ = false

unfoldable pub next_axis : (Clauses → Tokens → Parsed Clauses) → Clauses → Tokens → Parsed Clauses
next_axis again c (comma ∷ r) = again c r
next_axis again c r = ok (c, r)

-- What the loop does behind an axis' expressions: `ON <axis>`, which one set alone may omit.
unfoldable pub on_axis :
    (Clauses → Tokens → Parsed Clauses)
    → Clauses
    → Bool
    → Exprs
    → List Text
    → Tokens
    → Parsed Clauses
on_axis again c mark es props ts = elim (eat_word (codes "ON") ts) [
  | none ↦
      if is_single es && is_empty c.axes
      then ok (push_axis c props (record { ordinal = 0; non_empty = mark; exprs = es }), ts)
      else err malformed
  | some r ↦ axis_ordinal r >>= λ (n, r').
      next_axis again (push_axis c props (record { ordinal = n; non_empty = mark; exprs = es })) r'
]

-- The loop over the axes.
unfoldable pub axes_loop : ℕ → Clauses → Tokens → Parsed Clauses
axes_loop zero c ts = out_of_fuel
axes_loop (suc f) c ts =
    if at_word (codes "FROM") ts
    then ok (c, ts)
    else non_empty_mark ts >>= λ (mark, r). axis_exprs (suc (length r)) r >>= λ (es, r').
        properties (codes "DIMENSION") r' >>= λ (props, r'').
        on_axis (axes_loop f) c mark es props r''

unfoldable pub cube_of : Select → Option Text
cube_of (plain c) = c.cube
cube_of (over c _) = c.cube

-- What follows `FROM`: the cube's name, a subselect, or neither.
unfoldable pub source : (Tokens → Parsed Select) → Tokens → Parsed (Option Text × Option Select)
source again (bracket name ∷ r) = ok ((some name, none), r)
source again (lparen ∷ r) = again r >>= λ (inner, r'). elim r' [
  | rparen ∷ r'' ↦ ok ((cube_of inner, some inner), r'')
  | _ ↦ err malformed
]
source again r = ok ((none, none), r)

-- `WHERE <expr>`, or nothing.
unfoldable pub slicer : Tokens → Parsed (Option Expr)
slicer ts = elim (eat_word (codes "WHERE") ts) [
  | none ↦ ok (none, ts)
  | some r ↦ read_expr r >>= λ (e, r'). ok (some e, r')
]

unfoldable pub statement : Clauses → Option Text × Option Select → Option Expr → List Text → Select
statement c from e props =
    let whole = record c { cube = from.0; where_clause = e; cell_props = props } in
    elim from.1 [ none ↦ plain whole | some inner ↦ over whole inner ]

-- `Parser::select`; the fuel bounds how deep subselects nest.
unfoldable pub select : ℕ → Tokens → Parsed Select
select zero ts = out_of_fuel
select (suc f) ts = with_clause ts >>= λ (c, r). expect_word (codes "SELECT") r >>= λ r1.
    axes_loop (suc (length r1)) c r1 >>= λ (c', r2). expect_word (codes "FROM") r2 >>= λ r3.
    source (select f) r3 >>= λ (from, r4). slicer r4 >>= λ (e, r5).
    properties (codes "CELL") r5 >>= λ (props, r6). ok (statement c' from e props, r6)

-- What follows the statement is not looked at.
unfoldable pub parse_select : Text → Result Select
parse_select mdx = lex mdx >>= λ ts. select (suc (length ts)) ts >>= λ (s, _). ok s
