-- ===== src/Mdx/Parser/Total.antt =====
-- src/mdx/frontend.rs: how many tokens each part of the expression parser leaves.
use mallard_cube.Prelude.{
  ℕ, zero, suc, ◌+◌, ◌*◌, ◌≤◌, ◌<◌, ◌≡◌, ◌≢◌, inl, inr, Bool, true, false, ◌&&◌, some, List, [],
  ◌∷◌, ◌++◌, arith, Option-cases, length, Text, codes, eq_ignore_case,
}
use mallard_cube.Mdx.Outcome.{
  out_of_fuel, Ends, returns, fails, Ends-ne, Ends-bind, Ends-if, Ends-weaken,
}
use mallard_cube.Mdx.Ast.{CmpOp, Expr, Exprs}
use mallard_cube.Mdx.Lexer.{
  Token, bracket, key, ident, dot, comma, colon, lparen, rparen, lbrace, minus,
}
use mallard_cube.Mdx.Lexer.Total.{lex-Short}
use mallard_cube.Mdx.Parser.{
  Tokens, Parsed, is_postfix, member_loop, member_ref, wrap, postfix, peek_cmp, after_primary,
  Close, closes, after_item, vba_date, starts_bang, after_name, after_ident, expr, primary, items,
  list, args, enough, parse_set_expr,
}

-- A run that ends, and leaves at most `n` tokens.
abbrev pub Leaves {ℓ} : {A : Type ℓ} → ℕ → Parsed A → Type ℓ
Leaves {A} n = Ends (λ (r : A × Tokens). length r.1 ≤ n)

pub Leaves-more {ℓ} : {A : Type ℓ} (m n : ℕ) {r : Parsed A} → m ≤ n → Leaves m r → Leaves n r
Leaves-more m n h l = Ends-weaken l (λ a k. omega arith)

pub member_loop-Leaves :
    (in_keys : Bool) (parts keys : List Text) (ts : Tokens)
    → Leaves (length ts) (member_loop in_keys parts keys ts)
unfolding member_loop
member_loop-Leaves true parts keys (key k ∷ r) =
    Leaves-more (length r) (suc (length r)) (omega arith)
      (member_loop-Leaves true parts (keys ++ k ∷ []) r)
member_loop-Leaves in_keys parts keys (dot ∷ bracket p ∷ r) =
    Leaves-more (length r) (suc (suc (length r))) (omega arith)
      (member_loop-Leaves false (parts ++ p ∷ []) keys r)
member_loop-Leaves in_keys parts keys (dot ∷ key k ∷ r) =
    Leaves-more (length r) (suc (suc (length r))) (omega arith)
      (member_loop-Leaves true parts (keys ++ k ∷ []) r)
member_loop-Leaves in_keys parts keys (dot ∷ ident n ∷ r) =
    Ends-if (is_postfix n) (λ _. returns (omega arith))
      (λ _.
        Leaves-more (length r) (suc (suc (length r))) (omega arith)
          (member_loop-Leaves false (parts ++ n ∷ []) keys r))
member_loop-Leaves in_keys parts keys (dot ∷ r) = fails
member_loop-Leaves in_keys parts keys r = returns (omega arith)

pub postfix-Leaves : (base : Expr) (ts : Tokens) → Leaves (length ts) (postfix base ts)
unfolding postfix
postfix-Leaves base (dot ∷ ident w ∷ r) = elim (Option-cases (wrap w base)) [
  | inl e ↦ rw (e, postfix) fails
  | inr (x, e) ↦
      rw (e, postfix)
        (Leaves-more (length r) (suc (suc (length r))) (omega arith) (postfix-Leaves x r))
]
postfix-Leaves base (dot ∷ r) = fails
postfix-Leaves base r = returns (omega arith)

member_ref-Leaves : (p : Text) (r : Tokens) → Leaves (length r) (member_ref (bracket p ∷ r))
unfolding member_ref
member_ref-Leaves p r = member_loop-Leaves false (p ∷ []) [] r

pub member_ref-Takes :
    (ts : Tokens) → Ends (λ (r : Expr × Tokens). length r.1 < length ts) (member_ref ts)
unfolding member_ref
member_ref-Takes (bracket p ∷ r) =
    Ends-weaken (member_loop-Leaves false (p ∷ []) [] r) (λ q k. omega arith)
member_ref-Takes _ = fails

peek_cmp-lt : (ts r : Tokens) (op : CmpOp) → peek_cmp ts ≡ some (op, r) → length r < length ts
unfolding peek_cmp
peek_cmp-lt ts r op h = ground arith

closes-lt : (close : Close) (ts r : Tokens) → closes close ts ≡ some r → length r < length ts
unfolding closes
closes-lt close ts r h = ground arith

vba_date-le : (ts r : Tokens) → vba_date ts ≡ some r → length r ≤ length ts
unfolding vba_date
vba_date-le ts r h = ground arith

-- A parser that takes at least one token, on inputs below `n` tokens.
abbrev Eats {ℓ} : {A : Type ℓ} → ℕ → (Tokens → Parsed A) → Type ℓ
Eats {A} n p = (ts : Tokens) → length ts < n → Leaves (length ts) (p ts)

after_primary-Leaves :
    (again : Tokens → Parsed Expr) (lhs : Expr) (n : ℕ) (r : Tokens)
    → Eats n again
    → length r < suc n
    → Leaves (length r) (after_primary again lhs r)
unfolding after_primary
after_primary-Leaves again lhs n (colon ∷ r) eats h =
    Ends-bind (eats r (omega arith)) (λ p k. returns (omega (arith, k)))
after_primary-Leaves again lhs n r eats h = elim (Option-cases (peek_cmp r)) [
  | inl e ↦ rw (e, after_primary) (returns (omega arith))
  | inr ((op, r'), e) ↦
      let shorter = peek_cmp-lt r r' op e in
      rw (e, after_primary) (Ends-bind (eats r' (omega arith)) (λ p k. returns (omega arith)))
]

after_item-Leaves :
    (again : Tokens → Parsed Exprs) (close : Close) (e : Expr) (n : ℕ) (r : Tokens)
    → Eats n again
    → length r < suc n
    → Leaves (length r) (after_item again close e r)
unfolding after_item
after_item-Leaves again close e n (comma ∷ r) eats h =
    Ends-bind (eats r (omega arith)) (λ p k. returns (omega (arith, k)))
after_item-Leaves again close e n r eats h = elim (Option-cases (closes close r)) [
  | inl f ↦ rw (f, after_item) fails
  | inr (r', f) ↦ let shorter = closes-lt close r r' f in rw (f, after_item) (returns (omega arith))
]

after_name-Leaves :
    (again : Tokens → Parsed Exprs) (name : Text) (n : ℕ) (r : Tokens)
    → Eats n again
    → length r ≤ n
    → Leaves (length r) (after_name again name r)
unfolding after_name
after_name-Leaves again name n (lparen ∷ r) eats h =
    Ends-bind (eats r (omega arith))
      (λ p k. Leaves-more (length p.1) (suc (length r)) (omega (arith, k)) (postfix-Leaves _ p.1))
after_name-Leaves again name n r eats h = postfix-Leaves (Expr.str name) r

after_ident-Leaves :
    (again : Tokens → Parsed Exprs) (name : Text) (n : ℕ) (r : Tokens)
    → Eats n again
    → length r ≤ n
    → Leaves (length r) (after_ident again name r)
unfolding after_ident
after_ident-Leaves again name n r eats h =
    Ends-if (eq_ignore_case name (codes "VBA") && starts_bang r)
      (λ _. elim (Option-cases (vba_date r)) [
        | inl e ↦ rw e fails
        | inr (r', e) ↦ rw e (returns (vba_date-le r r' e))
      ])
      (λ _. after_name-Leaves again name n r eats h)

-- A run that ends, and takes at least one of `n` tokens.
abbrev pub Takes {ℓ} : {A : Type ℓ} → ℕ → Parsed A → Type ℓ
Takes {A} n = Ends (λ (r : A × Tokens). length r.1 < n)

then_postfix : (e : Expr) (m n : ℕ) (r : Tokens) → length r ≤ m → m < n → Takes n (postfix e r)
then_postfix e m n r h k = Ends-weaken (postfix-Leaves e r) (λ p l. omega arith)

mutual
  unfolding expr primary items list args

  pub expr-Takes : (f : ℕ) (ts : Tokens) → 5 * length ts + 2 ≤ f → Takes (length ts) (expr f ts)
  expr-Takes zero ts h = absurd (omega arith)
  expr-Takes (suc f) ts h = Ends-bind (primary-Takes f ts (omega arith)) (λ p k.
      Ends-weaken
        (after_primary-Leaves (primary f) p.0 (length ts) p.1
          (λ us l. Ends-weaken (primary-Takes f us (omega arith)) (λ q m. omega arith))
          (omega (arith, k)))
        (λ q l. omega (arith, k, l)))

  pub primary-Takes :
      (f : ℕ) (ts : Tokens) → 5 * length ts + 1 ≤ f → Takes (length ts) (primary f ts)
  primary-Takes zero ts h = absurd (omega arith)
  primary-Takes (suc f) (minus ∷ r) h =
      Ends-bind (primary-Takes f r (omega arith)) (λ p k. returns (omega (arith, k)))
  primary-Takes (suc f) (lbrace ∷ r) h =
      Ends-bind (items-Takes f Close.brace r (omega arith)) (λ p k.
        then_postfix (Expr.set p.0) (length r) (suc (length r)) p.1 (omega (arith, k))
          (omega arith))
  primary-Takes (suc f) (lparen ∷ r) h =
      Ends-bind (items-Takes f Close.paren r (omega arith)) (λ p k.
        then_postfix (Expr.tuple p.0) (length r) (suc (length r)) p.1 (omega (arith, k))
          (omega arith))
  primary-Takes (suc f) (bracket b ∷ r) h =
      Ends-bind (member_ref-Leaves b r)
        (λ p k. then_postfix p.0 (length r) (suc (length r)) p.1 k (omega arith))
  primary-Takes (suc f) (Token.str s ∷ r) h =
      then_postfix (Expr.str s) (length r) (suc (length r)) r (omega arith) (omega arith)
  primary-Takes (suc f) (Token.number n ∷ r) h =
      then_postfix (Expr.number n) (length r) (suc (length r)) r (omega arith) (omega arith)
  primary-Takes (suc f) (ident name ∷ r) h =
      Ends-weaken
        (after_ident-Leaves (args f) name (length r) r
          (λ us l. Ends-weaken (args-Takes f us (omega arith)) (λ q m. omega arith)) (omega arith))
        (λ q l. omega arith)
  primary-Takes (suc f) _ h = fails

  items-Takes :
      (f : ℕ) (close : Close) (ts : Tokens)
      → 5 * length ts + 4 ≤ f
      → Takes (length ts) (items f close ts)
  items-Takes zero close ts h = absurd (omega arith)
  items-Takes (suc f) close ts h = elim (Option-cases (closes close ts)) [
    | inl e ↦ rw (e, items) (list-Takes f close ts (omega arith))
    | inr (r, e) ↦ rw (e, items) (returns (closes-lt close ts r e))
  ]

  list-Takes :
      (f : ℕ) (close : Close) (ts : Tokens)
      → 5 * length ts + 3 ≤ f
      → Takes (length ts) (list f close ts)
  list-Takes zero close ts h = absurd (omega arith)
  list-Takes (suc f) close ts h = Ends-bind (expr-Takes f ts (omega arith)) (λ p k.
      Ends-weaken
        (after_item-Leaves (list f close) close p.0 (length ts) p.1
          (λ us l. Ends-weaken (list-Takes f close us (omega arith)) (λ q m. omega arith))
          (omega (arith, k)))
        (λ q l. omega (arith, k, l)))

  args-Takes : (f : ℕ) (ts : Tokens) → 5 * length ts + 3 ≤ f → Takes (length ts) (args f ts)
  args-Takes zero ts h = absurd (omega arith)
  args-Takes (suc f) (rparen ∷ r) h = returns (omega arith)
  args-Takes (suc f) (comma ∷ r) h = Ends-weaken (args-Takes f r (omega arith)) (λ q l. omega arith)
  args-Takes (suc f) ts h = Ends-bind (expr-Takes f ts (omega arith)) (λ p k.
      Ends-bind (args-Takes f p.1 (omega (arith, k))) (λ q l. returns (omega (arith, k, l))))

-- On every list of tokens `expr` with enough fuel ends: it reads an expression of at least one
-- token, or gives an error. It does not run out of fuel.
pub expr_total : (ts : Tokens) → Takes (length ts) (expr (enough ts) ts)
expr_total ts = expr-Takes (enough ts) ts (omega arith)

-- `parse_set_expr` ends on every text: it is never out of fuel.
pub parse_set_expr_total : (text : Text) → parse_set_expr text ≢ out_of_fuel
unfolding parse_set_expr
parse_set_expr_total text =
    Ends-ne {P = λ _. Unit {0}}
      (Ends-bind (lex-Short text) (λ ts _. Ends-bind (expr_total ts) (λ p _. returns tt)))
