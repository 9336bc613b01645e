-- ===== src/Mdx/Parser/Reads.antt =====
-- src/mdx/frontend.rs: the loops of the parser on tokens that were written out.
use mallard_cube.Prelude.{
  ℕ, suc, ◌≡◌, refl, sym, ap, ◌∙◌, Bool, true, false, Option, none, some, List, [], ◌∷◌, ◌++◌,
  append-nil, append_assoc, Text, codes, text_eq, to_lower, eq_ignore_case,
}
use mallard_cube.Mdx.Outcome.{ok, ◌>>=◌}
use mallard_cube.Mdx.Ast.{CmpOp, binary, members, children, Expr, Exprs, member, nil, cons}
use mallard_cube.Mdx.Lexer.{colon, key, ident, dot, comma, rparen, rbrace}
use mallard_cube.Mdx.Parser.{
  wrap, Tokens, Parsed, member_or_measure, member_loop, postfix, peek_cmp, after_primary, Close,
  brace, paren, closes, expr, args, join,
}
use mallard_cube.Mdx.Parser.Print.{
  op_token, print_parts, print_key, print_more, opens, ends_operand, ends_whole,
}

-- The tokens behind a base: a postfix operator, or nothing that belongs to it.
pub data Stops : Tokens → Type 0 where
  at_end : (rest : Tokens) → ends_operand rest ≡ true → Stops rest
  at_members : (rest : Tokens) → Stops (dot ∷ ident (codes "MEMBERS") ∷ rest)
  at_children : (rest : Tokens) → Stops (dot ∷ ident (codes "CHILDREN") ∷ rest)

member_loop-end :
    (b : Bool) (parts keys : List Text) (rest : Tokens)
    → ends_operand rest ≡ true
    → member_loop b parts keys rest ≡ ok (member_or_measure parts keys, rest)
unfolding member_loop ends_operand
member_loop-end true parts keys (dot ∷ r) h = cc
member_loop-end false parts keys (dot ∷ r) h = cc
member_loop-end true parts keys (key k ∷ r) h = cc
member_loop-end false parts keys (key k ∷ r) h = cc
member_loop-end true parts keys _ h = refl
member_loop-end false parts keys _ h = refl

pub member_loop-Stops :
    (b : Bool) (parts keys : List Text) (rest : Tokens)
    → Stops rest
    → member_loop b parts keys rest ≡ ok (member_or_measure parts keys, rest)
unfolding member_loop eq_ignore_case text_eq to_lower
member_loop-Stops b parts keys rest (at_end _ h) = member_loop-end b parts keys rest h
member_loop-Stops true parts keys rest (at_members r) = refl
member_loop-Stops false parts keys rest (at_members r) = refl
member_loop-Stops true parts keys rest (at_children r) = refl
member_loop-Stops false parts keys rest (at_children r) = refl

abbrev pub keys_of : Option Text → List Text
keys_of none = []
keys_of (some k) = k ∷ []

member_loop-print_key :
    (parts : List Text) (k : Option Text) (rest : Tokens)
    → Stops rest
    → member_loop false parts [] (print_key k rest) ≡ ok (member_or_measure parts (keys_of k), rest)
unfolding print_key member_loop
member_loop-print_key parts none rest h = member_loop-Stops false parts [] rest h
member_loop-print_key parts (some k) rest h = member_loop-Stops true parts (k ∷ []) rest h

pub member_loop-print_parts :
    (parts ps : List Text) (k : Option Text) (rest : Tokens)
    → Stops rest
    → member_loop false parts [] (print_parts ps (print_key k rest))
      ≡ ok (member_or_measure (parts ++ ps) (keys_of k), rest)
unfolding print_parts member_loop
member_loop-print_parts parts [] k rest h =
    member_loop-print_key parts k rest h
    ∙ ap (λ (t : List Text). ok (member_or_measure t (keys_of k), rest)) (sym (append-nil parts))
member_loop-print_parts parts (p ∷ ps) k rest h =
    member_loop-print_parts (parts ++ p ∷ []) ps k rest h
    ∙ ap (λ (t : List Text). ok (member_or_measure t (keys_of k), rest))
        (append_assoc parts (p ∷ []) ps)

pub member_or_measure-eq :
    (p : Text) (ps : List Text) (k : Option Text)
    → eq_ignore_case p (codes "Measures") ≡ false
    → member_or_measure (p ∷ ps) (keys_of k) ≡ member (record { parts = p ∷ ps; key = k })
unfolding member_or_measure join
member_or_measure-eq p [] none h = refl
member_or_measure-eq p [] (some k) h = refl
member_or_measure-eq p (q ∷ qs) none h = rw h refl
member_or_measure-eq p (q ∷ qs) (some k) h = rw h refl

pub postfix-end :
    (e : Expr) (rest : Tokens) → ends_operand rest ≡ true → postfix e rest ≡ ok (e, rest)
unfolding postfix ends_operand
postfix-end e (dot ∷ r) h = cc
postfix-end e _ h = refl

pub after_primary-end :
    (again : Tokens → Parsed Expr) (e : Expr) (rest : Tokens)
    → ends_whole rest ≡ true
    → after_primary again e rest ≡ ok (e, rest)
unfolding after_primary peek_cmp ends_whole
after_primary-end again e [] h = refl
after_primary-end again e (rparen ∷ r) h = refl
after_primary-end again e (rbrace ∷ r) h = refl
after_primary-end again e (comma ∷ r) h = refl
after_primary-end again e _ h = cc

pub closes-opens : (close : Close) (ts : Tokens) → opens ts ≡ true → closes close ts ≡ none
unfolding closes opens
closes-opens brace (rbrace ∷ r) h = cc
closes-opens paren (rparen ∷ r) h = cc
closes-opens brace _ h = refl
closes-opens paren _ h = refl

pub args-opens :
    (f : ℕ) (ts : Tokens)
    → opens ts ≡ true
    → args (suc f) ts ≡ (expr f ts >>= λ (e, r). args f r >>= λ (es, r'). ok (cons e es, r'))
unfolding args opens
args-opens f (rparen ∷ r) h = cc
args-opens f (comma ∷ r) h = cc
args-opens f _ h = refl

pub ends_whole-more :
    (close : Close) (es : Exprs) (rest : Tokens) → ends_whole (print_more close es rest) ≡ true
unfolding print_more ends_whole
ends_whole-more brace nil rest = refl
ends_whole-more paren nil rest = refl
ends_whole-more close (cons e es) rest = refl

pub postfix-members :
    (e : Expr) (rest : Tokens)
    → postfix e (dot ∷ ident (codes "MEMBERS") ∷ rest) ≡ postfix (members e) rest
unfolding postfix wrap eq_ignore_case text_eq to_lower
postfix-members e rest = refl

pub postfix-children :
    (e : Expr) (rest : Tokens)
    → postfix e (dot ∷ ident (codes "CHILDREN") ∷ rest) ≡ postfix (children e) rest
unfolding postfix wrap eq_ignore_case text_eq to_lower
postfix-children e rest = refl

pub after_primary-op :
    (again : Tokens → Parsed Expr) (op : CmpOp) (lhs : Expr) (ts : Tokens)
    → after_primary again lhs (op_token op ∷ ts)
      ≡ (again ts >>= λ (rhs, r). ok (binary op lhs rhs, r))
unfolding after_primary peek_cmp op_token
after_primary-op again CmpOp.gt lhs ts = refl
after_primary-op again CmpOp.ge lhs ts = refl
after_primary-op again CmpOp.lt lhs ts = refl
after_primary-op again CmpOp.le lhs ts = refl
after_primary-op again CmpOp.eq lhs ts = refl
after_primary-op again CmpOp.ne lhs ts = refl

pub ends_operand-op : (op : CmpOp) (ts : Tokens) → ends_operand (op_token op ∷ ts) ≡ true
unfolding ends_operand op_token
ends_operand-op CmpOp.gt ts = refl
ends_operand-op CmpOp.ge ts = refl
ends_operand-op CmpOp.lt ts = refl
ends_operand-op CmpOp.le ts = refl
ends_operand-op CmpOp.eq ts = refl
ends_operand-op CmpOp.ne ts = refl

pub ends_operand-colon : (ts : Tokens) → ends_operand (colon ∷ ts) ≡ true
unfolding ends_operand
ends_operand-colon ts = refl
