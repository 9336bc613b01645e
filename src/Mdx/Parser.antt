-- ===== src/Mdx/Parser.antt =====
-- src/mdx/frontend.rs: the recursive-descent parser, its expressions. The parser's position is the
-- list of the tokens that are left. A call that may read a whole expression again costs a unit of
-- fuel; `enough` is the fuel that always suffices.
pub mod Total
pub mod Print
pub mod Reads
pub mod RoundTrip
pub mod Statement
use mallard_cube.Prelude.{
  ℕ, zero, suc, ◌+◌, ◌*◌, Bool, true, false, ◌&&◌, ◌||◌, Option, none, some, List, [], ◌∷◌, ◌++◌,
  if◌then◌else◌, length, is_empty, Text, codes, eq_ignore_case,
}
use mallard_cube.Mdx.Outcome.{Result, ok, err, out_of_fuel, malformed, unsupported, ◌>>=◌}
use mallard_cube.Mdx.Ast.{
  CmpOp, Expr, Exprs, member, measure, range, tuple, set, call, members, children, exclude, binary,
  nil, cons,
}
use mallard_cube.Mdx.Lexer.{
  Token, bracket, key, ident, dot, comma, colon, lparen, rparen, lbrace, rbrace, bang, minus, gt,
  ge, lt, le, eq, ne, lex,
}

abbrev pub Tokens : Type 0
Tokens = List Token

-- What a parser read, and the tokens that it left.
abbrev pub Parsed {ℓ} : Type ℓ → Type ℓ
Parsed A = Result (A × Tokens)

-- `parts.join(sep)`
unfoldable pub join : Text → List Text → Text
join sep [] = []
join sep (t ∷ []) = t
join sep (t ∷ u ∷ rest) = t ++ (sep ++ join sep (u ∷ rest))

-- The names of the postfix operators.
abbrev pub is_postfix : Text → Bool
is_postfix n =
    eq_ignore_case n (codes "MEMBERS")
    || eq_ignore_case n (codes "ALLMEMBERS")
    || eq_ignore_case n (codes "CHILDREN")
    || eq_ignore_case n (codes "ALL")

-- `[Measures].[X]` is a measure; everything else is a member.
unfoldable pub member_or_measure : List Text → List Text → Expr
member_or_measure (d ∷ name ∷ more) keys =
    if eq_ignore_case d (codes "Measures")
    then measure name
    else member (record {
      parts = d ∷ name ∷ more;
      key = if is_empty keys then none else some (join (codes "|") keys);
    })
member_or_measure parts keys =
    member
      (record { parts = parts; key = if is_empty keys then none else some (join (codes "|") keys) })

-- The loop of `member_ref`. `in_keys` says that the inner loop over keys has not stopped yet.
unfoldable pub member_loop : Bool → List Text → List Text → Tokens → Parsed Expr
member_loop true parts keys (key k ∷ r) = member_loop true parts (keys ++ k ∷ []) r
member_loop in_keys parts keys (dot ∷ bracket p ∷ r) = member_loop false (parts ++ p ∷ []) keys r
member_loop in_keys parts keys (dot ∷ key k ∷ r) = member_loop true parts (keys ++ k ∷ []) r
member_loop in_keys parts keys (dot ∷ ident n ∷ r) =
    if is_postfix n
    then ok (member_or_measure parts keys, dot ∷ ident n ∷ r)
    else member_loop false (parts ++ n ∷ []) keys r
member_loop in_keys parts keys (dot ∷ r) = err malformed
member_loop in_keys parts keys r = ok (member_or_measure parts keys, r)

unfoldable pub member_ref : Tokens → Parsed Expr
member_ref (bracket p ∷ r) = member_loop false (p ∷ []) [] r
member_ref _ = err malformed

-- `.Members`, `.AllMembers` and `.All` list members, `.Children` the children.
unfoldable pub wrap : Text → Expr → Option Expr
wrap w base =
    if eq_ignore_case w (codes "MEMBERS") || eq_ignore_case w (codes "ALLMEMBERS")
    then some (members base)
    else if eq_ignore_case w (codes "CHILDREN")
    then some (children base)
    else if eq_ignore_case w (codes "ALL")
    then some (members base)
    else none

unfoldable pub postfix : Expr → Tokens → Parsed Expr
postfix base (dot ∷ ident w ∷ r) = elim (wrap w base) [
  | none ↦ err unsupported
  | some e ↦ postfix e r
]
postfix base (dot ∷ r) = err unsupported
postfix base r = ok (base, r)

unfoldable pub peek_cmp : Tokens → Option (CmpOp × Tokens)
peek_cmp (gt ∷ r) = some (CmpOp.gt, r)
peek_cmp (ge ∷ r) = some (CmpOp.ge, r)
peek_cmp (lt ∷ r) = some (CmpOp.lt, r)
peek_cmp (le ∷ r) = some (CmpOp.le, r)
peek_cmp (eq ∷ r) = some (CmpOp.eq, r)
peek_cmp (ne ∷ r) = some (CmpOp.ne, r)
peek_cmp _ = none

-- What `expr` does behind its first operand.
unfoldable pub after_primary : (Tokens → Parsed Expr) → Expr → Tokens → Parsed Expr
after_primary again lhs (colon ∷ r) = again r >>= λ (rhs, r'). ok (range lhs rhs, r')
after_primary again lhs r = elim (peek_cmp r) [
  | none ↦ ok (lhs, r)
  | some (op, r') ↦ again r' >>= λ (rhs, r''). ok (binary op lhs rhs, r'')
]

-- The two kinds of bracket round a list.
pub data Close : Type 0 where
  brace paren : Close

unfoldable pub closes : Close → Tokens → Option Tokens
closes brace (rbrace ∷ r) = some r
closes paren (rparen ∷ r) = some r
closes _ _ = none

unfoldable pub after_item : (Tokens → Parsed Exprs) → Close → Expr → Tokens → Parsed Exprs
after_item again close e (comma ∷ r) = again r >>= λ (es, r'). ok (cons e es, r')
after_item again close e r = elim (closes close r) [
  | none ↦ err malformed
  | some r' ↦ ok (cons e nil, r')
]

-- `VBA![Date]()`
unfoldable pub vba_date : Tokens → Option Tokens
vba_date (bang ∷ bracket b ∷ lparen ∷ rparen ∷ r) =
    if eq_ignore_case b (codes "Date") then some r else none
vba_date _ = none

abbrev pub starts_bang : Tokens → Bool
starts_bang (bang ∷ r) = true
starts_bang _ = false

-- A call if a parenthesis follows; else a bare word, kept as a text.
unfoldable pub after_name : (Tokens → Parsed Exprs) → Text → Tokens → Parsed Expr
after_name again name (lparen ∷ r) = again r >>= λ (es, r'). postfix (call name es) r'
after_name again name r = postfix (Expr.str name) r

unfoldable pub after_ident : (Tokens → Parsed Exprs) → Text → Tokens → Parsed Expr
after_ident again name r =
    if eq_ignore_case name (codes "VBA") && starts_bang r
    then elim (vba_date r) [
      | none ↦ err unsupported
      | some r' ↦ ok (call (codes "VBA_DATE") nil, r')
    ]
    else after_name again name r

unfoldable mutual
  pub expr : ℕ → Tokens → Parsed Expr
  expr zero ts = out_of_fuel
  expr (suc f) ts = primary f ts >>= λ (lhs, r). after_primary (primary f) lhs r

  pub primary : ℕ → Tokens → Parsed Expr
  primary zero ts = out_of_fuel
  primary (suc f) (minus ∷ r) = primary f r >>= λ (e, r'). ok (exclude e, r')
  primary (suc f) (lbrace ∷ r) = items f brace r >>= λ (es, r'). postfix (set es) r'
  primary (suc f) (lparen ∷ r) = items f paren r >>= λ (es, r'). postfix (tuple es) r'
  primary (suc f) (bracket p ∷ r) = member_ref (bracket p ∷ r) >>= λ (e, r'). postfix e r'
  primary (suc f) (Token.str s ∷ r) = postfix (Expr.str s) r
  primary (suc f) (Token.number n ∷ r) = postfix (Expr.number n) r
  primary (suc f) (ident name ∷ r) = after_ident (args f) name r
  primary (suc f) _ = err malformed

  -- The items of a set or a tuple, up to its closing bracket.
  pub items : ℕ → Close → Tokens → Parsed Exprs
  items zero close ts = out_of_fuel
  items (suc f) close ts = elim (closes close ts) [ some r ↦ ok (nil, r) | none ↦ list f close ts ]

  pub list : ℕ → Close → Tokens → Parsed Exprs
  list zero close ts = out_of_fuel
  list (suc f) close ts = expr f ts >>= λ (e, r). after_item (list f close) close e r

  -- The arguments of a call. Empty arguments are skipped.
  pub args : ℕ → Tokens → Parsed Exprs
  args zero ts = out_of_fuel
  args (suc f) (rparen ∷ r) = ok (nil, r)
  args (suc f) (comma ∷ r) = args f r
  args (suc f) ts = expr f ts >>= λ (e, r). args f r >>= λ (es, r'). ok (cons e es, r')

abbrev pub enough : Tokens → ℕ
enough ts = 5 * length ts + 5

-- `parse_set_expr`; what follows the expression is not looked at.
unfoldable pub parse_set_expr : Text → Result Expr
parse_set_expr text = lex text >>= λ ts. expr (enough ts) ts >>= λ (e, _). ok e
