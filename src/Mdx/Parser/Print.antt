-- ===== src/Mdx/Parser/Print.antt =====
-- src/mdx/frontend.rs: expressions written out as tokens, in front of the tokens that follow them.
use mallard_cube.Prelude.{
  ◌≡◌, refl, Bool, true, false, Option, none, some, List, [], ◌∷◌, Text, codes, eq_ignore_case,
}
use mallard_cube.Mdx.Ast.{
  CmpOp, Expr, Exprs, member, measure, range, tuple, set, call, members, children, exclude, binary,
  nil, cons,
}
use mallard_cube.Mdx.Lexer.{
  Token, bracket, key, ident, dot, comma, colon, lparen, rparen, lbrace, rbrace, minus, gt, ge, lt,
  le, eq, ne,
}
use mallard_cube.Mdx.Parser.{Tokens, Close, brace, paren}

unfoldable pub print_parts : List Text → Tokens → Tokens
print_parts [] rest = rest
print_parts (p ∷ ps) rest = dot ∷ bracket p ∷ print_parts ps rest

unfoldable pub print_key : Option Text → Tokens → Tokens
print_key none rest = rest
print_key (some k) rest = dot ∷ key k ∷ rest

unfoldable pub print_member : List Text → Option Text → Tokens → Tokens
print_member [] k rest = rest
print_member (p ∷ ps) k rest = bracket p ∷ print_parts ps (print_key k rest)

unfoldable pub op_token : CmpOp → Token
op_token CmpOp.gt = gt
op_token CmpOp.ge = ge
op_token CmpOp.lt = lt
op_token CmpOp.le = le
op_token CmpOp.eq = eq
op_token CmpOp.ne = ne

abbrev pub close_token : Close → Token
close_token brace = rbrace
close_token paren = rparen

unfoldable mutual
  pub print : Expr → Tokens → Tokens
  print (member m) rest = print_member m.parts m.key rest
  print (measure name) rest = bracket (codes "Measures") ∷ dot ∷ bracket name ∷ rest
  print (range a b) rest = print a (colon ∷ print b rest)
  print (tuple es) rest = lparen ∷ print_items paren es rest
  print (set es) rest = lbrace ∷ print_items brace es rest
  print (call name es) rest = ident name ∷ lparen ∷ print_items paren es rest
  print (members e) rest = print e (dot ∷ ident (codes "MEMBERS") ∷ rest)
  print (children e) rest = print e (dot ∷ ident (codes "CHILDREN") ∷ rest)
  print (exclude e) rest = minus ∷ print e rest
  print (binary op a b) rest = print a (op_token op ∷ print b rest)
  print (Expr.number n) rest = Token.number n ∷ rest
  print (Expr.str s) rest = Token.str s ∷ rest

  -- The items with commas between them, and the closing bracket.
  pub print_items : Close → Exprs → Tokens → Tokens
  print_items close nil rest = close_token close ∷ rest
  print_items close (cons e es) rest = print e (print_more close es rest)

  pub print_more : Close → Exprs → Tokens → Tokens
  print_more close nil rest = close_token close ∷ rest
  print_more close (cons e es) rest = comma ∷ print e (print_more close es rest)

-- What a postfix operator can stand behind; an operand; and a whole expression.
pub data Kind : Type 0 where
  base operand whole : Kind

-- The expressions that the grammar has: ranges and comparisons are of operands and are no operands
-- themselves, and no postfix operator stands behind an exclusion.
mutual
  pub data Printable : Kind → Expr → Type 0 where
    a_member :
        (p : Text) (ps : List Text) (k : Option Text)
        → eq_ignore_case p (codes "Measures") ≡ false
        → Printable base (member (record { parts = p ∷ ps; key = k }))
    a_measure : (name : Text) → Printable base (measure name)
    tuple_of : {es : Exprs} → AllPrintable es → Printable base (tuple es)
    set_of : {es : Exprs} → AllPrintable es → Printable base (set es)
    call_of : (name : Text) {es : Exprs} → AllPrintable es → Printable base (call name es)
    members_of : {e : Expr} → Printable base e → Printable base (members e)
    children_of : {e : Expr} → Printable base e → Printable base (children e)
    a_number : (n : Text) → Printable base (Expr.number n)
    a_str : (s : Text) → Printable base (Expr.str s)
    a_base : {e : Expr} → Printable base e → Printable operand e
    excluded : {e : Expr} → Printable operand e → Printable operand (exclude e)
    an_operand : {e : Expr} → Printable operand e → Printable whole e
    range_of :
        {a b : Expr} → Printable operand a → Printable operand b → Printable whole (range a b)
    compared :
        (op : CmpOp) {a b : Expr}
        → Printable operand a
        → Printable operand b
        → Printable whole (binary op a b)

  pub data AllPrintable : Exprs → Type 0 where
    none_left : AllPrintable nil
    and_then :
        {e : Expr} {es : Exprs} → Printable whole e → AllPrintable es → AllPrintable (cons e es)

-- Can the tokens go on with an expression?
unfoldable pub opens : Tokens → Bool
opens [] = false
opens (rparen ∷ _) = false
opens (rbrace ∷ _) = false
opens (comma ∷ _) = false
opens _ = true

-- Do the tokens go on behind an operand with something else than a postfix operator or a key?
unfoldable pub ends_operand : Tokens → Bool
ends_operand (dot ∷ _) = false
ends_operand (key _ ∷ _) = false
ends_operand _ = true

-- What can follow a whole expression.
unfoldable pub ends_whole : Tokens → Bool
ends_whole [] = true
ends_whole (rparen ∷ _) = true
ends_whole (rbrace ∷ _) = true
ends_whole (comma ∷ _) = true
ends_whole _ = false

pub opens-print :
    {k : Kind} {e : Expr} → Printable k e → (rest : Tokens) → opens (print e rest) ≡ true
unfolding print print_member opens
opens-print (a_member p ps k h) rest = refl
opens-print (a_measure name) rest = refl
opens-print (tuple_of es) rest = refl
opens-print (set_of es) rest = refl
opens-print (call_of name es) rest = refl
opens-print (members_of e) rest = opens-print e _
opens-print (children_of e) rest = opens-print e _
opens-print (a_number n) rest = refl
opens-print (a_str s) rest = refl
opens-print (a_base e) rest = opens-print e rest
opens-print (excluded e) rest = refl
opens-print (an_operand e) rest = opens-print e rest
opens-print (range_of a b) rest = opens-print a _
opens-print (compared op a b) rest = opens-print a _

pub ends_operand-whole : (ts : Tokens) → ends_whole ts ≡ true → ends_operand ts ≡ true
unfolding ends_whole ends_operand
ends_operand-whole [] h = refl
ends_operand-whole (rparen ∷ _) h = refl
ends_operand-whole (rbrace ∷ _) h = refl
ends_operand-whole (comma ∷ _) h = refl
ends_operand-whole _ h = cc
