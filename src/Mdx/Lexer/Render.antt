-- ===== src/Mdx/Lexer/Render.antt =====
-- src/mdx/lexer.rs: tokens written out as text, and read back.
use mallard_cube.Prelude.{
  ℕ, zero, suc, ◌+◌, ◌≤◌, ◌≡◌, refl, ◌∙◌, inl, inr, Bool, true, false, not, ◌&&◌, ◌||◌, some, List,
  [], ◌∷◌, ◌++◌, append_assoc, arith, ◌==◌, if◌then◌else◌, Bool-cases, length, any, All,
  length-append, Text, codes,
}
use mallard_cube.Mdx.Outcome.{ok}
use mallard_cube.Mdx.Lexer.{
  Token, until, span, closed, strip_prefix, after_amp, after_gt, after_lt, run_of, lex_word,
  lex_step, lex_from, lex, punct, is_digit, is_word_start, is_word_part, is_number_part, next_is,
}
use mallard_cube.Mdx.Lexer.Token.{
  dot, comma, colon, lparen, rparen, lbrace, rbrace, bang, minus, gt, ge, lt, le, eq, ne,
}

abbrev pub lacks : ℕ → Text → Bool
lacks c t = not (any (λ d. d == c) t)

abbrev pub all_in : (ℕ → Bool) → Text → Bool
all_in p t = not (any (λ c. not (p c)) t)

-- The quote that a text can stand in.
abbrev pub quote_for : Text → ℕ
quote_for t = if lacks 39 t then 39 else 34

-- A token as the lexer makes them: its text can be told from what follows it.
abbrev pub IsWord : Text → Type 0
IsWord [] = ⊥
IsWord (c ∷ t) = (is_word_start c ≡ true) × (all_in is_word_part t ≡ true)

abbrev pub IsNumeral : Text → Type 0
IsNumeral [] = ⊥
IsNumeral (c ∷ t) =
    ((is_digit c || c == b'-' && next_is is_digit t) ≡ true) × (all_in is_number_part t ≡ true)

abbrev pub IsLexical : Token → Type 0
IsLexical (Token.bracket t) = lacks b']' t ≡ true
IsLexical (Token.key t) = lacks b']' t ≡ true
IsLexical (Token.ident t) = IsWord t
IsLexical (Token.number t) = IsNumeral t
IsLexical (Token.str t) = (lacks 39 t || lacks 34 t) ≡ true
IsLexical _ = Unit

-- The bytes of a token.
unfoldable pub spell : Token → Text
spell (Token.bracket t) = b'[' ∷ t ++ b']' ∷ []
spell (Token.key t) = b'&' ∷ b'[' ∷ t ++ b']' ∷ []
spell (Token.ident t) = t
spell (Token.number t) = t
spell (Token.str t) = quote_for t ∷ t ++ quote_for t ∷ []
spell dot = codes "."
spell comma = codes ","
spell colon = codes ":"
spell lparen = codes "("
spell rparen = codes ")"
spell lbrace = codes "{"
spell rbrace = codes "}"
spell bang = codes "!"
spell minus = codes "-"
spell gt = codes ">"
spell ge = codes ">="
spell lt = codes "<"
spell le = codes "<="
spell eq = codes "="
spell ne = codes "<>"

-- Each token, with a space behind it.
unfoldable pub render : List Token → Text
render [] = []
render (t ∷ ts) = spell t ++ b' ' ∷ render ts

until-append :
    (close : ℕ) (t rest : Text)
    → lacks close t ≡ true
    → until close (t ++ close ∷ rest) ≡ some (t, rest)
unfolding until
until-append close [] rest h = ground arith
until-append close (c ∷ t) rest h = ground (arith, until-append close t rest)

span-append :
    (p : ℕ → Bool) (t rest : Text)
    → all_in p t ≡ true
    → p b' ' ≡ false
    → span p (t ++ b' ' ∷ rest) ≡ (t, b' ' ∷ rest)
unfolding span
span-append p [] rest h k = rw k
span-append p (c ∷ t) rest h k = ground (arith, span-append p t rest)

-- The first byte of a token, and what one round reads from there.
abbrev Reads : Text → Token → Text → Type 0
Reads rest t [] = ⊥
Reads rest t (c ∷ s) = lex_step c (s ++ b' ' ∷ rest) ≡ ok (some t, b' ' ∷ rest)

closed-append :
    (make : Text → Token) (close : ℕ) (t rest : Text)
    → lacks close t ≡ true
    → closed make close ((t ++ close ∷ []) ++ rest) ≡ ok (some (make t), rest)
unfolding closed
closed-append make close t rest h =
    let found = until-append close t rest h in
    rw (append_assoc t (close ∷ []) rest) (rw (found, closed))

run_of-append :
    (make : Text → Token) (p : ℕ → Bool) (c : ℕ) (t rest : Text)
    → all_in p t ≡ true
    → p b' ' ≡ false
    → run_of make p c (t ++ b' ' ∷ rest) ≡ ok (some (make (c ∷ t)), b' ' ∷ rest)
unfolding run_of
run_of-append make p c t rest h k = rw (span-append p t rest h k, run_of)

lex_step-word :
    (c : ℕ) (s : Text) → is_word_start c ≡ true → lex_step c s ≡ run_of Token.ident is_word_part c s
unfolding lex_step lex_word punct
lex_step-word c s h = ground arith

lex_step-numeral :
    (c : ℕ) (s : Text)
    → (is_digit c || c == b'-' && next_is is_digit s) ≡ true
    → lex_step c s ≡ run_of Token.number is_number_part c s
unfolding lex_step lex_word punct
lex_step-numeral c s h = ground arith

next_is-append : (t rest : Text) → next_is is_digit (t ++ b' ' ∷ rest) ≡ next_is is_digit t
next_is-append [] rest = refl
next_is-append (c ∷ t) rest = refl

lex_step-quote :
    (c : ℕ) (s : Text) → (c == 39 || c == 34) ≡ true → lex_step c s ≡ closed Token.str c s
unfolding lex_step
lex_step-quote c s h = ground arith

spell-Reads : (t : Token) → IsLexical t → (rest : Text) → Reads rest t (spell t)
unfolding spell lex_step after_amp strip_prefix punct lex_word after_gt after_lt
spell-Reads (Token.bracket t) h rest = closed-append Token.bracket b']' t (b' ' ∷ rest) h
spell-Reads (Token.key t) h rest = closed-append Token.key b']' t (b' ' ∷ rest) h
spell-Reads (Token.ident []) h rest = absurd h
spell-Reads (Token.ident (c ∷ t)) h rest =
    lex_step-word c (t ++ b' ' ∷ rest) h.0
    ∙ run_of-append Token.ident is_word_part c t rest h.1 refl
spell-Reads (Token.number []) h rest = absurd h
spell-Reads (Token.number (c ∷ t)) h rest =
    lex_step-numeral c (t ++ b' ' ∷ rest) (rw (next_is-append t rest) h.0)
    ∙ run_of-append Token.number is_number_part c t rest h.1 refl
spell-Reads (Token.str t) h rest = elim (Bool-cases (lacks 39 t)) [
  | inl e ↦ rw e (lex_step-quote 39 _ refl ∙ closed-append Token.str 39 t (b' ' ∷ rest) e)
  | inr e ↦
      rw e
        (lex_step-quote 34 _ refl ∙ closed-append Token.str 34 t (b' ' ∷ rest) (ground (arith, e)))
]
spell-Reads _ h rest = refl

lex_from-token :
    (s : Text) (t : Token) (r : Text) (ts : List Token) (fuel : ℕ)
    → Reads r t s
    → length s + suc (length r) ≤ fuel
    → ((f : ℕ) → length r ≤ f → lex_from f r ≡ ok ts)
    → lex_from fuel (s ++ b' ' ∷ r) ≡ ok (t ∷ ts)
unfolding lex_from lex_step
lex_from-token [] t r ts fuel h l k = absurd h
lex_from-token (c ∷ s) t r ts zero h l k = absurd (omega arith)
lex_from-token (c ∷ s) t r ts (suc zero) h l k = absurd (omega arith)
lex_from-token (c ∷ s) t r ts (suc (suc f)) h l k =
    let later = k f (omega arith) in rw (lex_from, h, later, lex_from)

lex_from-render :
    (ts : List Token) (fuel : ℕ)
    → All IsLexical ts
    → length (render ts) ≤ fuel
    → lex_from fuel (render ts) ≡ ok ts
unfolding render
lex_from-render [] fuel h l = unfold lex_from in refl
lex_from-render (t ∷ ts) fuel h l =
    lex_from-token (spell t) t (render ts) ts fuel (spell-Reads t h.0 (render ts))
      (omega (arith, length-append (spell t) (b' ' ∷ render ts)))
      (λ f k. lex_from-render ts f h.1 k)

-- Tokens whose texts could have been read, written out with spaces between them, are read back,
-- each as it was.
pub lex-render : (ts : List Token) → All IsLexical ts → lex (render ts) ≡ ok ts
unfolding lex
lex-render ts h = lex_from-render ts (length (render ts)) h (omega arith)
