-- ===== src/Mdx/Parser/Statement/Total.antt =====
-- src/mdx/frontend.rs: the lemmas on how many tokens the parts of a statement's parser leave.
use mallard_cube.Prelude.{
  ℕ, zero, suc, ◌≤◌, ◌<◌, ◌≡◌, inl, inr, some, [], ◌∷◌, ◌++◌, arith, Bool-cases, Option-cases,
  length, Text, codes,
}
use mallard_cube.Mdx.Outcome.{
  ok, err, malformed, Ends, returns, fails, Ends-bind, Ends-if, Ends-weaken,
}
use mallard_cube.Mdx.Ast.{Expr, Exprs, Clauses, member, measure}
use mallard_cube.Mdx.Lexer.{bracket, ident, dot, comma}
use mallard_cube.Mdx.Parser.{Tokens, Parsed}
use mallard_cube.Mdx.Parser.Total.{Leaves, Takes, Leaves-more, expr_total, member_ref-Takes}
use mallard_cube.Mdx.Parser.Statement.{
  at_word, eat_word, expect_word, bracket_name, uname, member_ref_name, definition, empty_clauses,
  with_loop, with_clause, non_empty_mark, next_expr, axis_exprs, ends_props, bracketed, prop_list,
  properties,
}

pub eat_word-length :
    (word : Text) (ts r : Tokens) → eat_word word ts ≡ some r → length ts ≡ suc (length r)
unfolding eat_word
eat_word-length word [] r h = cc
eat_word-length word (t ∷ ts) r h = ground arith

pub expect_word-length :
    (word : Text) (ts : Tokens) → Ends (λ (r : Tokens). length r < length ts) (expect_word word ts)
unfolding expect_word
expect_word-length word ts = elim (Option-cases (eat_word word ts)) [
  | inl e ↦ rw (e, expect_word) fails
  | inr (r, e) ↦
      let shorter = eat_word-length word ts r e in rw (e, expect_word) (returns (omega arith))
]

pub Takes-less {ℓ} : {A : Type ℓ} (m n : ℕ) {r : Parsed A} → m ≤ n → Takes m r → Takes n r
Takes-less m n h t = Ends-weaken t (λ a k. omega arith)

bracket_name-Takes : (ts : Tokens) → Takes (length ts) (bracket_name ts)
unfolding bracket_name
bracket_name-Takes (bracket n ∷ r) = returns (omega arith)
bracket_name-Takes (ident n ∷ r) = returns (omega arith)
bracket_name-Takes _ = fails

member_ref_name-Takes : (ts : Tokens) → Takes (length ts) (member_ref_name ts)
unfolding member_ref_name
member_ref_name-Takes ts = Ends-bind (member_ref-Takes ts) (λ p k. of_expr p.0 p.1 k)
  where
    of_expr :
        (e : Expr) (r : Tokens)
        → length r < length ts
        → Takes (length ts) (elim e [
          | member m ↦ ok (uname m, r)
          | measure name ↦ ok (codes "[Measures]." ++ bracketed name, r)
          | _ ↦ err malformed
        ])
    of_expr (member m) r k = returns k
    of_expr (measure m) r k = returns k
    of_expr _ r k = fails

definition-Takes :
    (name : Tokens → Parsed Text)
    → ((ts : Tokens) → Takes (length ts) (name ts))
    → (ts : Tokens) → Takes (length ts) (definition name ts)
unfolding definition
definition-Takes name takes ts = Ends-bind (takes ts) (λ p k.
    Ends-bind (expect_word-length _ p.1)
      (λ r l. Ends-bind (expr_total r) (λ q m. returns (omega (arith, k, l, m)))))

with_loop-Leaves :
    (f : ℕ) (c : Clauses) (ts : Tokens) → length ts < f → Leaves (length ts) (with_loop f c ts)
unfolding with_loop
with_loop-Leaves zero c ts h = absurd (omega arith)
with_loop-Leaves (suc f) c ts h = elim (Option-cases (eat_word (codes "SET") ts)) [
  | inr (r, e) ↦
      let shorter = eat_word-length _ ts r e in
      rw (e, with_loop)
        (Ends-bind (definition-Takes bracket_name bracket_name-Takes r) (λ p k.
          Leaves-more (length p.1) (length ts) (omega (arith, k))
            (with_loop-Leaves f _ p.1 (omega (arith, k)))))
  | inl e ↦ elim (Option-cases (eat_word (codes "MEMBER") ts)) [
    | inr (r, e') ↦
        let shorter = eat_word-length _ ts r e' in
        rw (e, e', with_loop)
          (Ends-bind (definition-Takes member_ref_name member_ref_name-Takes r) (λ p k.
            Leaves-more (length p.1) (length ts) (omega (arith, k))
              (with_loop-Leaves f _ p.1 (omega (arith, k)))))
    | inl e' ↦
        rw (e, e', with_loop)
          (Ends-if (at_word (codes "SELECT") ts) (λ _. returns (omega arith)) (λ _. fails))
  ]
]

pub with_clause-Leaves : (ts : Tokens) → Leaves (length ts) (with_clause ts)
unfolding with_clause
with_clause-Leaves ts = elim (Option-cases (eat_word (codes "WITH") ts)) [
  | inl e ↦ rw (e, with_clause) (returns (omega arith))
  | inr (r, e) ↦
      let shorter = eat_word-length _ ts r e in
      rw (e, with_clause)
        (Leaves-more (length r) (length ts) (omega arith)
          (with_loop-Leaves (suc (length r)) empty_clauses r (omega arith)))
]

pub non_empty_mark-Leaves : (ts : Tokens) → Leaves (length ts) (non_empty_mark ts)
unfolding non_empty_mark
non_empty_mark-Leaves ts = elim (Option-cases (eat_word (codes "NON") ts)) [
  | inl e ↦ rw (e, non_empty_mark) (returns (omega arith))
  | inr (r, e) ↦
      let shorter = eat_word-length _ ts r e in
      rw (e, non_empty_mark)
        (Ends-bind (expect_word-length _ r) (λ r' k. returns (omega (arith, k))))
]

next_expr-Leaves :
    (again : Tokens → Parsed Exprs) (e : Expr) (n : ℕ) (r : Tokens)
    → ((us : Tokens) → length us < n → Takes (length us) (again us))
    → length r ≤ n
    → Leaves (length r) (next_expr again e r)
unfolding next_expr
next_expr-Leaves again e n (comma ∷ r) takes h =
    Ends-bind (takes r (omega arith)) (λ q l. returns (omega (arith, l)))
next_expr-Leaves again e n r takes h = returns (omega arith)

pub axis_exprs-Takes : (f : ℕ) (ts : Tokens) → length ts < f → Takes (length ts) (axis_exprs f ts)
unfolding axis_exprs
axis_exprs-Takes zero ts h = absurd (omega arith)
axis_exprs-Takes (suc f) ts h = Ends-bind (expr_total ts) (λ p k.
    Ends-weaken
      (next_expr-Leaves (axis_exprs f) p.0 (length p.1) p.1
        (λ us l. axis_exprs-Takes f us (omega (arith, k))) (omega arith))
      (λ q l. omega (arith, k, l)))

prop_list-le : (current : Text) (ts : Tokens) → length (prop_list current ts).1 ≤ length ts
unfolding prop_list
prop_list-le current (ident p ∷ r) =
    let rest = prop_list-le (current ++ p) r in
    elim (Bool-cases (ends_props p)) [ inl e ↦ rw e (omega arith) | inr e ↦ rw e (omega arith) ]
prop_list-le current (bracket b ∷ r) = omega (arith, prop_list-le (current ++ bracketed b) r)
prop_list-le current (dot ∷ r) = omega (arith, prop_list-le (current ++ codes ".") r)
prop_list-le current (comma ∷ r) = omega (arith, prop_list-le [] r)
prop_list-le current r = omega arith

pub properties-Leaves : (word : Text) (ts : Tokens) → Leaves (length ts) (properties word ts)
unfolding properties
properties-Leaves word ts = elim (Option-cases (eat_word word ts)) [
  | inl e ↦ rw (e, properties) (returns (omega arith))
  | inr (r, e) ↦
      let shorter = eat_word-length _ ts r e in
      rw (e, properties)
        (Ends-bind (expect_word-length _ r)
          (λ r' k. returns (omega (arith, k, prop_list-le [] r'))))
]
