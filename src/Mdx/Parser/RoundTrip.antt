-- ===== src/Mdx/Parser/RoundTrip.antt =====
-- src/mdx/frontend.rs: reading back an expression that was written out.
use mallard_cube.Prelude.{
  ℕ, zero, suc, ◌+◌, ◌*◌, ◌≤◌, ◌<◌, ◌≡◌, refl, ◌∙◌, inl, inr, true, false, Option, List, [], ◌∷◌,
  arith, Bool-cases, length, All, Text, codes, text_eq, to_lower, eq_ignore_case,
}
use mallard_cube.Mdx.Outcome.{ok, Ends-ok}
use mallard_cube.Mdx.Ast.{Expr, Exprs, member, measure, call, cons}
use mallard_cube.Mdx.Lexer.{bracket, ident, dot, colon, lparen}
use mallard_cube.Mdx.Lexer.Render.{render, IsLexical, lex-render}
use mallard_cube.Mdx.Parser.{
  enough, parse_set_expr, Tokens, member_or_measure, member_loop, member_ref, postfix,
  after_primary, Close, brace, paren, closes, after_item, after_name, after_ident, expr, primary,
  items, list, args,
}
use mallard_cube.Mdx.Parser.Total.{expr-Takes, primary-Takes}
use mallard_cube.Mdx.Parser.Print.{
  print_member, op_token, print, print_items, print_more, base, operand, whole, Printable,
  AllPrintable, a_member, a_measure, tuple_of, set_of, call_of, members_of, children_of, a_number,
  a_str, a_base, excluded, an_operand, range_of, compared, none_left, and_then, opens, ends_operand,
  ends_whole, opens-print, ends_operand-whole,
}
use mallard_cube.Mdx.Parser.Reads.{
  Stops, at_end, at_members, at_children, member_loop-Stops, member_loop-print_parts,
  member_or_measure-eq, after_primary-op, ends_operand-op, ends_operand-colon, postfix-members,
  postfix-children, postfix-end, after_primary-end, closes-opens, args-opens, ends_whole-more,
}

primary-member :
    (f : ℕ) (p : Text) (ps : List Text) (k : Option Text) (rest : Tokens)
    → eq_ignore_case p (codes "Measures") ≡ false
    → Stops rest
    → primary (suc f) (print_member (p ∷ ps) k rest)
      ≡ postfix (member (record { parts = p ∷ ps; key = k })) rest
unfolding primary member_ref print_member
primary-member f p ps k rest h s =
    rw (member_loop-print_parts (p ∷ []) ps k rest s, member_or_measure-eq p ps k h) refl

primary-measure :
    (f : ℕ) (name : Text) (rest : Tokens)
    → Stops rest
    → primary (suc f) (bracket (codes "Measures") ∷ dot ∷ bracket name ∷ rest)
      ≡ postfix (measure name) rest
unfolding primary member_ref member_loop member_or_measure eq_ignore_case text_eq to_lower
primary-measure f name rest s =
    rw (member_loop-Stops false (codes "Measures" ∷ name ∷ []) [] rest s) refl

primary-call :
    (f : ℕ) (name : Text) (ts rest : Tokens) (es : Exprs)
    → args f ts ≡ ok (es, rest)
    → primary (suc f) (ident name ∷ lparen ∷ ts) ≡ postfix (call name es) rest
unfolding primary after_ident after_name
primary-call f name ts rest es h = elim (Bool-cases (eq_ignore_case name (codes "VBA"))) [
  | inl e ↦ rw (e, h) refl
  | inr e ↦ rw (e, h) refl
]

-- What `expr` read took a token.
shorter :
    (f : ℕ) (ts r : Tokens) (e : Expr)
    → 5 * length ts + 2 ≤ f
    → expr f ts ≡ ok (e, r)
    → length r < length ts
shorter f ts r e h k = Ends-ok (expr-Takes f ts h) k

shorter_operand :
    (f : ℕ) (ts r : Tokens) (e : Expr)
    → 5 * length ts + 1 ≤ f
    → primary f ts ≡ ok (e, r)
    → length r < length ts
shorter_operand f ts r e h k = Ends-ok (primary-Takes f ts h) k

items-step :
    (f : ℕ) (close : Close) (ts rest : Tokens) (es : Exprs)
    → opens ts ≡ true
    → list f close ts ≡ ok (es, rest)
    → items (suc f) close ts ≡ ok (es, rest)
unfolding items
items-step f close ts rest es o h = rw (closes-opens close ts o, items) h

list-step :
    (f : ℕ) (close : Close) (ts r rest : Tokens) (e : Expr) (es : Exprs)
    → expr f ts ≡ ok (e, r)
    → after_item (list f close) close e r ≡ ok (es, rest)
    → list (suc f) close ts ≡ ok (es, rest)
unfolding list
list-step f close ts r rest e es h k = rw h k

args-step :
    (f : ℕ) (ts r rest : Tokens) (e : Expr) (es : Exprs)
    → opens ts ≡ true
    → expr f ts ≡ ok (e, r)
    → args f r ≡ ok (es, rest)
    → args (suc f) ts ≡ ok (cons e es, rest)
args-step f ts r rest e es o h k = args-opens f ts o ∙ rw (h, k) refl

mutual
  unfolding print print_items print_more primary expr items args after_item closes after_primary

  base-print :
      (f : ℕ) {e : Expr} (p : Printable base e) (rest : Tokens)
      → Stops rest
      → 5 * length (print e rest) + 1 ≤ f
      → primary f (print e rest) ≡ postfix e rest
  base-print zero p rest s h = absurd (omega arith)
  base-print (suc f) (a_member p ps k n) rest s h = primary-member f p ps k rest n s
  base-print (suc f) (a_measure name) rest s h = primary-measure f name rest s
  base-print (suc f) (tuple_of {es} ps) rest s h =
      rw (items-print f paren ps rest (omega arith)) refl
  base-print (suc f) (set_of {es} ps) rest s h = rw (items-print f brace ps rest (omega arith)) refl
  base-print (suc f) (call_of name {es} ps) rest s h =
      primary-call f name (print_items paren es rest) rest es (args-print f ps rest (omega arith))
  base-print (suc f) (members_of {e} p) rest s h =
      base-print (suc f) p (dot ∷ ident (codes "MEMBERS") ∷ rest) (at_members rest) h
      ∙ postfix-members e rest
  base-print (suc f) (children_of {e} p) rest s h =
      base-print (suc f) p (dot ∷ ident (codes "CHILDREN") ∷ rest) (at_children rest) h
      ∙ postfix-children e rest
  base-print (suc f) (a_number n) rest s h = refl
  base-print (suc f) (a_str n) rest s h = refl

  operand-print :
      (f : ℕ) {e : Expr} (p : Printable operand e) (rest : Tokens)
      → ends_operand rest ≡ true
      → 5 * length (print e rest) + 1 ≤ f
      → primary f (print e rest) ≡ ok (e, rest)
  operand-print f (a_base {e} p) rest s h =
      base-print f p rest (at_end rest s) h ∙ postfix-end e rest s
  operand-print zero (excluded p) rest s h = absurd (omega arith)
  operand-print (suc f) (excluded p) rest s h = rw (operand-print f p rest s (omega arith)) refl

  whole-print :
      (f : ℕ) {e : Expr} (p : Printable whole e) (rest : Tokens)
      → ends_whole rest ≡ true
      → 5 * length (print e rest) + 2 ≤ f
      → expr f (print e rest) ≡ ok (e, rest)
  whole-print zero p rest s h = absurd (omega arith)
  whole-print (suc f) (an_operand {e} p) rest s h =
      rw (operand-print f p rest (ends_operand-whole rest s) (omega arith))
        (after_primary-end (primary f) e rest s)
  whole-print (suc f) (range_of {a} {b} p q) rest s h =
      let first = operand-print f p (colon ∷ print b rest) (ends_operand-colon _) (omega arith) in
      let left = shorter_operand f _ (colon ∷ print b rest) a (omega arith) first in
      rw first (rw (operand-print f q rest (ends_operand-whole rest s) (omega arith)) refl)
  whole-print (suc f) (compared op {a} {b} p q) rest s h =
      let first =
        operand-print f p (op_token op ∷ print b rest) (ends_operand-op op _) (omega arith) in
      let left = shorter_operand f _ (op_token op ∷ print b rest) a (omega arith) first in
      rw first (
        after_primary-op (primary f) op a (print b rest)
        ∙ rw (operand-print f q rest (ends_operand-whole rest s) (omega arith)) refl)

  items-print :
      (f : ℕ) (close : Close) {es : Exprs} (ps : AllPrintable es) (rest : Tokens)
      → 5 * length (print_items close es rest) + 4 ≤ f
      → items f close (print_items close es rest) ≡ ok (es, rest)
  items-print zero close ps rest h = absurd (omega arith)
  items-print (suc zero) close ps rest h = absurd (omega arith)
  items-print (suc (suc f)) brace none_left rest h = refl
  items-print (suc (suc f)) paren none_left rest h = refl
  items-print (suc (suc f)) close (and_then {e} {es} p ps) rest h =
      let one =
        whole-print f p (print_more close es rest) (ends_whole-more close es rest) (omega arith) in
      let left =
        shorter f (print e (print_more close es rest)) (print_more close es rest) e (omega arith)
          one in
      items-step (suc f) close _ rest (cons e es) (opens-print p _) (
        list-step f close _ (print_more close es rest) rest e (cons e es) one
          (more-print f close e ps rest (omega arith)))

  more-print :
      (f : ℕ) (close : Close) (d : Expr) {es : Exprs} (ps : AllPrintable es) (rest : Tokens)
      → 5 * length (print_more close es rest) + 2 ≤ f
      → after_item (list f close) close d (print_more close es rest) ≡ ok (cons d es, rest)
  more-print zero close d ps rest h = absurd (omega arith)
  more-print (suc f) brace d none_left rest h = refl
  more-print (suc f) paren d none_left rest h = refl
  more-print (suc f) close d (and_then {e} {es} p ps) rest h =
      let one =
        whole-print f p (print_more close es rest) (ends_whole-more close es rest) (omega arith) in
      let left =
        shorter f (print e (print_more close es rest)) (print_more close es rest) e (omega arith)
          one in
      rw
        (list-step f close _ (print_more close es rest) rest e (cons e es) one
          (more-print f close e ps rest (omega arith)))
        refl

  args-print :
      (f : ℕ) {es : Exprs} (ps : AllPrintable es) (rest : Tokens)
      → 5 * length (print_items paren es rest) + 3 ≤ f
      → args f (print_items paren es rest) ≡ ok (es, rest)
  args-print zero ps rest h = absurd (omega arith)
  args-print (suc f) none_left rest h = refl
  args-print (suc f) (and_then {e} {es} p ps) rest h =
      let one =
        whole-print f p (print_more paren es rest) (ends_whole-more paren es rest) (omega arith) in
      let left =
        shorter f (print e (print_more paren es rest)) (print_more paren es rest) e (omega arith)
          one in
      args-step f _ (print_more paren es rest) rest e es (opens-print p _) one
        (args-more f ps rest (omega arith))

  args-more :
      (f : ℕ) {es : Exprs} (ps : AllPrintable es) (rest : Tokens)
      → 5 * length (print_more paren es rest) + 2 ≤ f
      → args f (print_more paren es rest) ≡ ok (es, rest)
  args-more zero ps rest h = absurd (omega arith)
  args-more (suc f) none_left rest h = refl
  args-more (suc zero) (and_then p ps) rest h = absurd (omega arith)
  args-more (suc (suc f)) (and_then {e} {es} p ps) rest h =
      let one =
        whole-print f p (print_more paren es rest) (ends_whole-more paren es rest) (omega arith) in
      let left =
        shorter f (print e (print_more paren es rest)) (print_more paren es rest) e (omega arith)
          one in
      args-step f _ (print_more paren es rest) rest e es (opens-print p _) one
        (args-more f ps rest (omega arith))

-- An expression that the grammar has, written out in front of tokens that begin with a comma or a
-- closing bracket, or of none, is read back by `expr` with enough fuel, and these tokens are left.
-- In such an expression ranges and comparisons are of operands, no postfix operator stands behind
-- an exclusion, and a member has a first part that is not `Measures`.
pub expr-print :
    {e : Expr} (p : Printable whole e) (rest : Tokens)
    → ends_whole rest ≡ true
    → expr (enough (print e rest)) (print e rest) ≡ ok (e, rest)
expr-print {e} p rest s = whole-print (enough (print e rest)) p rest s (omega arith)

-- An expression that the grammar has, written out as tokens whose texts could have been read and
-- these as text, is parsed as itself: `parse_set_expr` inverts printing. In such an expression
-- ranges and comparisons are of operands, no postfix operator stands behind an exclusion, and a
-- member has a first part that is not `Measures`.
pub parse_set_expr-render :
    {e : Expr}
    → Printable whole e
    → All IsLexical (print e [])
    → parse_set_expr (render (print e [])) ≡ ok e
unfolding parse_set_expr ends_whole
parse_set_expr-render {e} p l = rw (lex-render (print e []) l, expr-print p [] refl) refl
