-- ===== src/Mdx/Parser/Statement/Whole.antt =====
-- src/mdx/frontend.rs: the axes, the clauses and the whole statement.
use mallard_cube.Prelude.{
  ℕ, zero, suc, ◌≤◌, ◌<◌, ◌≢◌, inl, inr, Bool, ◌&&◌, Option, some, List, ◌∷◌, arith, Option-cases,
  length, is_empty, Text, codes,
}
use mallard_cube.Mdx.Outcome.{
  ok, err, out_of_fuel, malformed, returns, fails, Ends-ne, Ends-bind, Ends-if,
}
use mallard_cube.Mdx.Ast.{Exprs, Clauses, Select}
use mallard_cube.Mdx.Lexer.{Token, bracket, comma, lparen, rparen}
use mallard_cube.Mdx.Lexer.Total.{lex-Short}
use mallard_cube.Mdx.Parser.{Tokens, Parsed}
use mallard_cube.Mdx.Parser.Total.{Leaves, Leaves-more, expr_total}
use mallard_cube.Mdx.Parser.Statement.{
  at_word, eat_word, axis_number, parse_unsigned, axis_ordinal, is_single, next_axis, on_axis,
  axes_loop, cube_of, source, slicer, select, parse_select,
}
use mallard_cube.Mdx.Parser.Statement.Total.{
  properties-Leaves, non_empty_mark-Leaves, with_clause-Leaves, axis_exprs-Takes, eat_word-length,
  expect_word-length,
}

axis_number-Leaves : (ts : Tokens) → Leaves (length ts) (axis_number ts)
unfolding axis_number
axis_number-Leaves (Token.number n ∷ r) = elim (Option-cases (parse_unsigned 32 n)) [
  | inl e ↦ rw (e, axis_number) fails
  | inr (i, e) ↦ rw (e, axis_number) (returns (omega arith))
]
axis_number-Leaves _ = fails

axis_ordinal-Leaves : (ts : Tokens) → Leaves (length ts) (axis_ordinal ts)
unfolding axis_ordinal
axis_ordinal-Leaves ts = elim (Option-cases (eat_word (codes "COLUMNS") ts)) [
  | inr (r, e) ↦
      let shorter = eat_word-length _ ts r e in rw (e, axis_ordinal) (returns (omega arith))
  | inl e ↦ elim (Option-cases (eat_word (codes "ROWS") ts)) [
    | inr (r, e') ↦
        let shorter = eat_word-length _ ts r e' in rw (e, e', axis_ordinal) (returns (omega arith))
    | inl e' ↦ rw (e, e', axis_ordinal) (axis_number-Leaves ts)
  ]
]

-- A loop that ends on inputs below `n` tokens.
abbrev Loops {ℓ κ} : {A : Type ℓ} {S : Type κ} → ℕ → (S → Tokens → Parsed A) → Type (ℓ ⊔ κ)
Loops {S} n again = (s : S) (us : Tokens) → length us < n → Leaves (length us) (again s us)

next_axis-Leaves :
    (again : Clauses → Tokens → Parsed Clauses) (c : Clauses) (n : ℕ) (r : Tokens)
    → Loops n again
    → length r ≤ n
    → Leaves (length r) (next_axis again c r)
unfolding next_axis
next_axis-Leaves again c n (comma ∷ r) loops h =
    Leaves-more (length r) (suc (length r)) (omega arith) (loops c r (omega arith))
next_axis-Leaves again c n r loops h = returns (omega arith)

on_axis-Leaves :
    (again : Clauses → Tokens → Parsed Clauses) (c : Clauses) (mark : Bool) (es : Exprs)
    (props : List Text) (n : ℕ) (ts : Tokens)
    → Loops n again
    → length ts ≤ n
    → Leaves (length ts) (on_axis again c mark es props ts)
unfolding on_axis
on_axis-Leaves again c mark es props n ts loops h = elim (Option-cases (eat_word (codes "ON") ts)) [
  | inl e ↦
      rw (e, on_axis)
        (Ends-if (is_single es && is_empty c.axes) (λ _. returns (omega arith)) (λ _. fails))
  | inr (r, e) ↦
      let shorter = eat_word-length _ ts r e in
      rw (e, on_axis)
        (Ends-bind (axis_ordinal-Leaves r) (λ p k.
          Leaves-more (length p.1) (length ts) (omega (arith, k))
            (next_axis-Leaves again _ n p.1 loops (omega (arith, k)))))
]

axes_loop-Leaves :
    (f : ℕ) (c : Clauses) (ts : Tokens) → length ts < f → Leaves (length ts) (axes_loop f c ts)
unfolding axes_loop
axes_loop-Leaves zero c ts h = absurd (omega arith)
axes_loop-Leaves (suc f) c ts h =
    Ends-if (at_word (codes "FROM") ts) (λ _. returns (omega arith))
      (λ _. Ends-bind (non_empty_mark-Leaves ts) (λ p k.
        Ends-bind (axis_exprs-Takes (suc (length p.1)) p.1 (omega arith)) (λ q l.
          Ends-bind (properties-Leaves _ q.1) (λ s m.
            Leaves-more (length s.1) (length ts) (omega (arith, k, l, m)) (
              on_axis-Leaves (axes_loop f) c p.0 q.0 s.0 (length s.1) s.1
                (λ c' us lt. axes_loop-Leaves f c' us (omega (arith, k, l, m))) (omega arith))))))

source-Leaves :
    (again : Tokens → Parsed Select) (n : ℕ) (ts : Tokens)
    → ((us : Tokens) → length us < n → Leaves (length us) (again us))
    → length ts ≤ n
    → Leaves (length ts) (source again ts)
unfolding source
source-Leaves again n (bracket name ∷ r) ends h = returns (omega arith)
source-Leaves again n (lparen ∷ r) ends h =
    Ends-bind (ends r (omega arith)) (λ p k. closing p.0 p.1 k)
  where
    closing :
        (inner : Select) (r' : Tokens)
        → length r' ≤ length r
        → Leaves {A = Option Text × Option Select}
            (suc (length r))
            (elim r' [ rparen ∷ r'' ↦ ok ((cube_of inner, some inner), r'') | _ ↦ err malformed ])
    closing inner (rparen ∷ r'') k = returns (omega arith)
    closing inner _ k = fails
source-Leaves again n r ends h = returns (omega arith)

slicer-Leaves : (ts : Tokens) → Leaves (length ts) (slicer ts)
unfolding slicer
slicer-Leaves ts = elim (Option-cases (eat_word (codes "WHERE") ts)) [
  | inl e ↦ rw (e, slicer) (returns (omega arith))
  | inr (r, e) ↦
      let shorter = eat_word-length _ ts r e in
      rw (e, slicer) (Ends-bind (expr_total r) (λ p k. returns (omega (arith, k))))
]

-- With more fuel than there are tokens `select` ends on every list of tokens, and a statement that
-- it reads leaves at most as many tokens as there were. It does not run out of fuel.
pub select_total : (f : ℕ) (ts : Tokens) → length ts < f → Leaves (length ts) (select f ts)
unfolding select
select_total zero ts h = absurd (omega arith)
select_total (suc f) ts h = Ends-bind (with_clause-Leaves ts) (λ p k.
    Ends-bind (expect_word-length _ p.1) (λ r1 k1.
      Ends-bind (axes_loop-Leaves (suc (length r1)) p.0 r1 (omega arith)) (λ q k2.
        Ends-bind (expect_word-length _ q.1) (λ r3 k3.
          Ends-bind
            (source-Leaves (select f) (length r3) r3
              (λ us l. select_total f us (omega (arith, k, k1, k2, k3))) (omega arith))
            (λ s k4. Ends-bind (slicer-Leaves s.1) (λ t k5.
              Ends-bind (properties-Leaves _ t.1)
                (λ u k6. returns (omega (arith, k, k1, k2, k3, k4, k5, k6)))))))))

-- `parse_select` ends on every text: it is never out of fuel.
pub parse_select_total : (mdx : Text) → parse_select mdx ≢ out_of_fuel
unfolding parse_select
parse_select_total mdx = Ends-ne {P = λ _. Unit {0}} (
    Ends-bind (lex-Short mdx)
      (λ ts _. Ends-bind (select_total (suc (length ts)) ts (omega arith)) (λ p _. returns tt)))
