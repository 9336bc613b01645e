-- ===== src/Mdx/Lexer/Total.antt =====
-- src/mdx/lexer.rs: the loop of the lexer and the tokens that it may give.
use mallard_cube.Prelude.{
  ℕ, zero, suc, ◌≤◌, ◌≡◌, inl, inr, Bool, not, ◌&&◌, ◌||◌, Option, none, some, List, [], ◌∷◌, arith,
  ◌==◌, Option-cases, length, Text, codes,
}
use mallard_cube.Mdx.Outcome.{Result, Ends, returns, fails, Ends-bind, Ends-if, Ends-weaken}
use mallard_cube.Mdx.Lexer.{
  Token, until, span, closed, strip_prefix, after_amp, after_gt, after_lt, run_of, lex_word,
  lex_step, lex_from, lex, punct, pushed, Round, next_is, is_digit, is_number_part, is_word_part,
  is_word_start, is_space,
}

-- A round that leaves at most `n` bytes.
abbrev Leaves : ℕ → Round → Type 0
Leaves n = Ends (λ (r : Option Token × Text). length r.1 ≤ n)

until-le : (close : ℕ) (s t rest : Text) → until close s ≡ some (t, rest) → length rest ≤ length s
unfolding until
until-le close [] t rest h = cc
until-le close (c ∷ s) t rest h = elim (Option-cases (until close s)) [
  | inl e ↦ ground arith
  | inr ((u, r), e) ↦ ground (arith, until-le close s u r e)
]

span-le : (p : ℕ → Bool) (s : Text) → length (span p s).1 ≤ length s
unfolding span
span-le p [] = omega arith
span-le p (c ∷ s) = ground (arith, span-le p s)

strip_prefix-le : (p s rest : Text) → strip_prefix p s ≡ some rest → length rest ≤ length s
unfolding strip_prefix
strip_prefix-le [] s rest h = ground arith
strip_prefix-le (c ∷ p) [] rest h = cc
strip_prefix-le (c ∷ p) (d ∷ s) rest h = ground (arith, strip_prefix-le p s rest)

closed-Leaves :
    (make : Text → Token) (close : ℕ) (s : Text) → Leaves (length s) (closed make close s)
unfolding closed
closed-Leaves make close s = elim (Option-cases (until close s)) [
  | inl e ↦ rw (e, closed) fails
  | inr ((t, rest), e) ↦ rw (e, closed) (returns (until-le close s t rest e))
]

after_amp-Leaves : (s : Text) → Leaves (length s) (after_amp s)
unfolding after_amp
after_amp-Leaves s = elim (Option-cases (strip_prefix (codes "[") s)) [
  | inr (rest, e) ↦
      rw (e, after_amp)
        (Ends-weaken (closed-Leaves Token.key b']' rest)
          (λ r h. omega (arith, h, strip_prefix-le (codes "[") s rest e)))
  | inl e ↦ elim (Option-cases (strip_prefix (codes "amp;[") s)) [
    | inr (rest, f) ↦
        rw (e, after_amp, f)
          (Ends-weaken (closed-Leaves Token.key b']' rest)
            (λ r h. omega (arith, h, strip_prefix-le (codes "amp;[") s rest f)))
    | inl f ↦ rw (e, after_amp, f) fails
  ]
]

after_gt-Leaves : (s : Text) → Leaves (length s) (after_gt s)
unfolding after_gt
after_gt-Leaves [] = returns (omega arith)
after_gt-Leaves (c ∷ s) =
    Ends-if (c == b'=') (λ _. returns (omega arith)) (λ _. returns (omega arith))

after_lt-Leaves : (s : Text) → Leaves (length s) (after_lt s)
unfolding after_lt
after_lt-Leaves [] = returns (omega arith)
after_lt-Leaves (c ∷ s) =
    Ends-if (c == b'>') (λ _. returns (omega arith))
      (λ _. Ends-if (c == b'=') (λ _. returns (omega arith)) (λ _. returns (omega arith)))

run_of-Leaves :
    (make : Text → Token) (p : ℕ → Bool) (c : ℕ) (s : Text) → Leaves (length s) (run_of make p c s)
unfolding run_of
run_of-Leaves make p c s = returns (span-le p s)

lex_word-Leaves : (c : ℕ) (s : Text) → Leaves (length s) (lex_word c s)
unfolding lex_word
lex_word-Leaves c s =
    Ends-if (c == b'-' && not (next_is is_digit s)) (λ _. returns (omega arith))
      (λ _.
        Ends-if (c == b'>') (λ _. after_gt-Leaves s)
          (λ _.
            Ends-if (c == b'<') (λ _. after_lt-Leaves s)
              (λ _.
                Ends-if (is_digit c || c == b'-' && next_is is_digit s)
                  (λ _. run_of-Leaves Token.number is_number_part c s)
                  (λ _.
                    Ends-if (is_word_start c) (λ _. run_of-Leaves Token.ident is_word_part c s)
                      (λ _. fails)))))

lex_step-Leaves : (c : ℕ) (s : Text) → Leaves (length s) (lex_step c s)
unfolding lex_step
lex_step-Leaves c s =
    Ends-if (is_space c) (λ _. returns (omega arith))
      (λ _.
        Ends-if (c == b'[') (λ _. closed-Leaves Token.bracket b']' s)
          (λ _.
            Ends-if (c == b'&') (λ _. after_amp-Leaves s)
              (λ _.
                Ends-if (c == 39 || c == 34) (λ _. closed-Leaves Token.str c s)
                  (λ _. elim (Option-cases (punct c)) [
                    | inl e ↦ rw e (lex_word-Leaves c s)
                    | inr (t, e) ↦ rw e (returns (omega arith))
                  ]))))

abbrev Short : ℕ → Result (List Token) → Type 0
Short n = Ends (λ (ts : List Token). length ts ≤ n)

lex_from-Short : (fuel : ℕ) (s : Text) → length s ≤ fuel → Short (length s) (lex_from fuel s)
unfolding lex_from
lex_from-Short zero [] h = returns (omega arith)
lex_from-Short (suc fuel) [] h = returns (omega arith)
lex_from-Short zero (c ∷ s) h = absurd (omega arith)
lex_from-Short (suc fuel) (c ∷ s) h = Ends-bind (lex_step-Leaves c s) (λ r left.
    Ends-bind (lex_from-Short fuel r.1 (omega (arith, left)))
      (λ ts short. returns (length-pushed r.0 ts r.1 s short left)))
  where
    length-pushed :
        (t : Option Token) (ts : List Token) (r s : Text)
        → length ts ≤ length r
        → length r ≤ length s
        → length (pushed t ts) ≤ suc (length s)
    length-pushed none ts r s h k = omega arith
    length-pushed (some t) ts r s h k = omega arith

-- `lex` ends on every text: it gives tokens, at most one for each byte, or an error.
pub lex-Short : (s : Text) → Ends (λ (ts : List Token). length ts ≤ length s) (lex s)
unfolding lex
lex-Short s = lex_from-Short (length s) s (omega arith)
