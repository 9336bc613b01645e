-- ===== src/Mdx/Lexer/Scan.antt =====
-- src/mdx/lexer.rs: what the texts of the tokens of `lex` hold, and reading them back.
use mallard_cube.Prelude.{
  ℕ, zero, suc, ◌≡◌, refl, subst, inl, inr, Bool, true, not, ◌&&◌, ◌||◌, Option, none, some, List,
  [], ◌∷◌, arith, ◌==◌, ==_iff, Bool-cases, Option-cases, length, All, Text, codes,
}
use mallard_cube.Mdx.Outcome.{ok, Ends, returns, fails, Ends-ok, Ends-if, bind-eq-ok, ok-injective}
use mallard_cube.Mdx.Lexer.{
  Token, until, span, closed, strip_prefix, after_amp, after_gt, after_lt, run_of, lex_word,
  lex_step, lex_from, lex, punct, pushed, Round, is_space, is_digit, is_word_start, is_word_part,
  is_number_part, next_is,
}
use mallard_cube.Mdx.Lexer.Render.{lacks, all_in, IsLexical, render, lex-render}

until-lacks : (close : ℕ) (s t rest : Text) → until close s ≡ some (t, rest) → lacks close t ≡ true
unfolding until
until-lacks close [] t rest h = cc
until-lacks close (c ∷ s) t rest h = elim (Option-cases (until close s)) [
  | inl e ↦ ground arith
  | inr ((u, r), e) ↦ ground (arith, until-lacks close s u r e)
]

span-all_in : (p : ℕ → Bool) (s : Text) → all_in p (span p s).0 ≡ true
unfolding span
span-all_in p [] = refl
span-all_in p (c ∷ s) = ground (arith, span-all_in p s)

span-next :
    (s : Text) → next_is is_digit s ≡ true → next_is is_digit (span is_number_part s).0 ≡ true
unfolding span
span-next [] h = cc
span-next (c ∷ s) h = ground arith

-- What a round pushes is lexical.
abbrev LexicalOption : Option Token → Type 0
LexicalOption none = Unit
LexicalOption (some t) = IsLexical t

abbrev Pushes : Round → Type 0
Pushes = Ends (λ (r : Option Token × Text). LexicalOption r.0)

closed-Pushes :
    (make : Text → Token) (close : ℕ) (s : Text)
    → ((t : Text) → lacks close t ≡ true → IsLexical (make t))
    → Pushes (closed make close s)
unfolding closed
closed-Pushes make close s k = elim (Option-cases (until close s)) [
  | inl e ↦ rw (closed, e) fails
  | inr ((t, rest), e) ↦ rw (closed, e) (returns (k t (until-lacks close s t rest e)))
]

after_amp-Pushes : (s : Text) → Pushes (after_amp s)
unfolding after_amp
after_amp-Pushes s = elim (Option-cases (strip_prefix (codes "[") s)) [
  | inr (rest, e) ↦ rw (e, after_amp) (closed-Pushes Token.key b']' rest (λ t h. h))
  | inl e ↦ elim (Option-cases (strip_prefix (codes "amp;[") s)) [
    | inr (rest, f) ↦ rw (e, after_amp, f) (closed-Pushes Token.key b']' rest (λ t h. h))
    | inl f ↦ rw (e, after_amp, f) fails
  ]
]

after_gt-Pushes : (s : Text) → Pushes (after_gt s)
unfolding after_gt
after_gt-Pushes [] = returns tt
after_gt-Pushes (c ∷ s) = Ends-if (c == b'=') (λ _. returns tt) (λ _. returns tt)

after_lt-Pushes : (s : Text) → Pushes (after_lt s)
unfolding after_lt
after_lt-Pushes [] = returns tt
after_lt-Pushes (c ∷ s) =
    Ends-if (c == b'>') (λ _. returns tt)
      (λ _. Ends-if (c == b'=') (λ _. returns tt) (λ _. returns tt))

numeral_head :
    (c : ℕ) (s : Text)
    → (is_digit c || c == b'-' && next_is is_digit s) ≡ true
    → (is_digit c || c == b'-' && next_is is_digit (span is_number_part s).0) ≡ true
numeral_head c s h = ground (arith, span-next s)

lex_word-Pushes : (c : ℕ) (s : Text) → Pushes (lex_word c s)
unfolding lex_word run_of
lex_word-Pushes c s =
    Ends-if (c == b'-' && not (next_is is_digit s)) (λ _. returns tt)
      (λ _.
        Ends-if (c == b'>') (λ _. after_gt-Pushes s)
          (λ _.
            Ends-if (c == b'<') (λ _. after_lt-Pushes s)
              (λ _.
                Ends-if (is_digit c || c == b'-' && next_is is_digit s)
                  (λ e. returns (numeral_head c s e, span-all_in is_number_part s))
                  (λ _.
                    Ends-if (is_word_start c) (λ e. returns (e, span-all_in is_word_part s))
                      (λ _. fails)))))

punct-Lexical : (c : ℕ) (t : Token) → punct c ≡ some t → IsLexical t
unfolding punct
punct-Lexical c (Token.bracket x) e = absurd (ground arith)
punct-Lexical c (Token.key x) e = absurd (ground arith)
punct-Lexical c (Token.ident x) e = absurd (ground arith)
punct-Lexical c (Token.number x) e = absurd (ground arith)
punct-Lexical c (Token.str x) e = absurd (ground arith)
punct-Lexical c _ e = tt

quoted :
    (c : ℕ) (t : Text)
    → (c == 39 || c == 34) ≡ true
    → lacks c t ≡ true
    → (lacks 39 t || lacks 34 t) ≡ true
quoted c t q h = elim (Bool-cases (c == 39)) [
  | inl e ↦ let same = (==_iff c 39).0 e in rw (subst (λ d. lacks d t ≡ true) same h)
  | inr e ↦
      let same : c ≡ 34 = ground arith in rw (subst (λ d. lacks d t ≡ true) same h) (ground arith)
]

lex_step-Pushes : (c : ℕ) (s : Text) → Pushes (lex_step c s)
unfolding lex_step
lex_step-Pushes c s =
    Ends-if (is_space c) (λ _. returns tt)
      (λ _.
        Ends-if (c == b'[') (λ _. closed-Pushes Token.bracket b']' s (λ t h. h))
          (λ _.
            Ends-if (c == b'&') (λ _. after_amp-Pushes s)
              (λ _.
                Ends-if (c == 39 || c == 34)
                  (λ q. closed-Pushes Token.str c s (λ t h. quoted c t q h))
                  (λ _. elim (Option-cases (punct c)) [
                    | inl e ↦ rw e (lex_word-Pushes c s)
                    | inr (t, e) ↦ rw e (returns (punct-Lexical c t e))
                  ]))))

All-pushed :
    (t : Option Token) (ts : List Token)
    → LexicalOption t
    → All IsLexical ts
    → All IsLexical (pushed t ts)
All-pushed none ts h k = k
All-pushed (some t) ts h k = (h, k)

lex_from-Lexical :
    (fuel : ℕ) (s : Text) (ts : List Token) → lex_from fuel s ≡ ok ts → All IsLexical ts
unfolding lex_from
lex_from-Lexical zero [] ts h = subst (All IsLexical) (ok-injective h) tt
lex_from-Lexical (suc fuel) [] ts h = subst (All IsLexical) (ok-injective h) tt
lex_from-Lexical zero (c ∷ s) ts h = cc
lex_from-Lexical (suc fuel) (c ∷ s) ts h =
    let ((t, rest), e, g) = bind-eq-ok (lex_step c s) _ h in
    let (us, f, k) = bind-eq-ok (lex_from fuel rest) _ g in
    subst (All IsLexical) (ok-injective k)
      (All-pushed t us (Ends-ok (lex_step-Pushes c s) e) (lex_from-Lexical fuel rest us f))

-- If `lex` reads a text as some tokens, then writing these out with spaces between them and reading
-- that again gives the same tokens.
pub lex-render-lex : (s : Text) (ts : List Token) → lex s ≡ ok ts → lex (render ts) ≡ ok ts
unfolding lex
lex-render-lex s ts h = lex-render ts (lex_from-Lexical (length s) s ts h)
