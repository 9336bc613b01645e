-- ===== src/Mdx/Lexer.antt =====
-- src/mdx/lexer.rs: the lexer of the MDX subset. The text is its bytes; the loop's position is the
-- text that is left, and each round of the loop takes at least one byte of it.
pub mod Total
pub mod Scan
pub mod Render
use mallard_cube.Prelude.{
  ℕ, zero, suc, Bool, false, not, ◌&&◌, ◌||◌, Option, none, some, List, [], ◌∷◌, leb, ◌==◌,
  if◌then◌else◌, length, Text, codes, eq_ignore_case,
}
use mallard_cube.Mdx.Outcome.{Result, ok, err, out_of_fuel, malformed, ◌>>=◌}

pub data Token : Type 0 where
  bracket key ident number str : Text → Token
  dot comma colon lparen rparen lbrace rbrace bang minus gt ge lt le eq ne : Token

-- `Token::is_ident`
unfoldable pub is_ident : Text → Token → Bool
is_ident word (ident i) = eq_ignore_case i word
is_ident word _ = false

abbrev pub is_space : ℕ → Bool
is_space c = c == b' ' || c == 9 || c == 13 || c == 10

abbrev pub is_digit : ℕ → Bool
is_digit c = leb b'0' c && leb c b'9'

abbrev pub is_alpha : ℕ → Bool
is_alpha c = leb b'a' c && leb c b'z' || leb b'A' c && leb c b'Z'

abbrev pub is_word_start : ℕ → Bool
is_word_start c = is_alpha c || c == b'_'

abbrev pub is_word_part : ℕ → Bool
is_word_part c = is_alpha c || is_digit c || c == b'_'

abbrev pub is_number_part : ℕ → Bool
is_number_part c = is_digit c || c == b'.'

-- The text up to a closing byte, and the text behind it; `none` if it does not come.
unfoldable pub until : ℕ → Text → Option (Text × Text)
until close [] = none
until close (c ∷ s) =
    let more = until close s in
    if c == close
    then some ([], s)
    else elim more [ none ↦ none | some (t, rest) ↦ some (c ∷ t, rest) ]

-- The bytes in front that `p` accepts, and the rest.
unfoldable pub span : (ℕ → Bool) → Text → Text × Text
span p [] = ([], [])
span p (c ∷ s) = let (t, rest) = span p s in if p c then (c ∷ t, rest) else ([], c ∷ s)

-- The tokens of one byte.
unfoldable pub punct : ℕ → Option Token
punct c =
    if c == b'.'
    then some dot
    else if c == b','
    then some comma
    else if c == b':'
    then some colon
    else if c == b'('
    then some lparen
    else if c == b')'
    then some rparen
    else if c == b'{'
    then some lbrace
    else if c == b'}'
    then some rbrace
    else if c == b'!'
    then some bang
    else if c == b'='
    then some eq
    else none

-- What a round of the loop pushes, if anything, and the text that it leaves.
abbrev pub Round : Type 0
Round = Result (Option Token × Text)

unfoldable pub closed : (Text → Token) → ℕ → Text → Round
closed make close s = elim (until close s) [
  | none ↦ err malformed
  | some (t, rest) ↦ ok (some (make t), rest)
]

unfoldable pub strip_prefix : Text → Text → Option Text
strip_prefix [] s = some s
strip_prefix (p ∷ ps) [] = none
strip_prefix (p ∷ ps) (c ∷ s) = let rest = strip_prefix ps s in if p == c then rest else none

-- Behind `&`: `[key]`, or `amp;[key]` where the text is escaped.
unfoldable pub after_amp : Text → Round
after_amp s = elim (strip_prefix (codes "[") s) [
  | some rest ↦ closed key b']' rest
  | none ↦ elim (strip_prefix (codes "amp;[") s) [
    | some rest ↦ closed key b']' rest
    | none ↦ err malformed
  ]
]

abbrev pub next_is : (ℕ → Bool) → Text → Bool
next_is p [] = false
next_is p (c ∷ s) = p c

-- Behind `>` and `<`.
unfoldable pub after_gt : Text → Round
after_gt [] = ok (some gt, [])
after_gt (c ∷ s) = if c == b'=' then ok (some ge, s) else ok (some gt, c ∷ s)

unfoldable pub after_lt : Text → Round
after_lt [] = ok (some lt, [])
after_lt (c ∷ s) =
    if c == b'>'
    then ok (some ne, s)
    else if c == b'='
    then ok (some le, s)
    else ok (some lt, c ∷ s)

unfoldable pub run_of : (Text → Token) → (ℕ → Bool) → ℕ → Text → Round
run_of make p c s = let (t, rest) = span p s in ok (some (make (c ∷ t)), rest)

-- The arms of the `match` behind those of the brackets, the quotes and the single bytes.
unfoldable pub lex_word : ℕ → Text → Round
lex_word c s =
    if c == b'-' && not (next_is is_digit s)
    then ok (some minus, s)
    else if c == b'>'
    then after_gt s
    else if c == b'<'
    then after_lt s
    else if is_digit c || c == b'-' && next_is is_digit s
    then run_of number is_number_part c s
    else if is_word_start c
    then run_of ident is_word_part c s
    else err malformed

-- One round of the loop, at the byte `c`.
unfoldable pub lex_step : ℕ → Text → Round
lex_step c s =
    if is_space c
    then ok (none, s)
    else if c == b'['
    then closed bracket b']' s
    else if c == b'&'
    then after_amp s
    else if c == 39 || c == 34
    then closed str c s
    else elim (punct c) [ some t ↦ ok (some t, s) | none ↦ lex_word c s ]

abbrev pub pushed : Option Token → List Token → List Token
pushed none ts = ts
pushed (some t) ts = t ∷ ts

unfoldable pub lex_from : ℕ → Text → Result (List Token)
lex_from fuel [] = ok []
lex_from zero (c ∷ s) = out_of_fuel
lex_from (suc fuel) (c ∷ s) =
    lex_step c s >>= λ (t, rest). lex_from fuel rest >>= λ ts. ok (pushed t ts)

-- Each byte is worth a round.
unfoldable pub lex : Text → Result (List Token)
lex s = lex_from (length s) s
