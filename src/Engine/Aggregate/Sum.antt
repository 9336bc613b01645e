-- ===== src/Engine/Aggregate/Sum.antt =====
-- src/engine/aggregate.rs: the expressions that `measure_base_column` takes for the sum of a column.
use mallard_cube.Prelude.{
  strip, trim, ℕ, ◌≤◌, ◌≡◌, refl, sym, ap, ap₂, subst, ◌∙◌, ◌⊎◌, inl, inr, true, false, not, ◌&&◌,
  ◌||◌, some, List, [], ◌∷◌, ◌++◌, reverse, append_assoc, arith, leb, ◌==◌, ==_iff, Bool-cases,
  Option-cases, is_empty, every, All, Text, codes,
}
use mathlib.Core.List.{reverse-cons}
use mallard_cube.Mdx.Parser.{join}
use mallard_cube.Mdx.Parser.Statement.{split}
use mallard_cube.Engine.Aggregate.{
  is_column_char, last_part, strip_close, column_of, measure_base_column,
}

-- A letter or a digit of ASCII, an underscore or a dot.
unfoldable pub IsColumnByte : ℕ → Type 0
IsColumnByte c =
    ((b'0' ≤ c) × (c ≤ b'9'))
    ⊎ (((b'a' ≤ c) × (c ≤ b'z')) ⊎ (((b'A' ≤ c) × (c ≤ b'Z')) ⊎ ((c ≡ b'_') ⊎ (c ≡ b'.'))))

-- A qualifier is empty, or ends with a dot.
unfoldable pub IsQualifier : Text → Type 0
IsQualifier path = (path ≡ []) ⊎ ((p : Text) × (path ≡ p ++ codes "."))

-- A part without a dot.
unfoldable pub IsPart : Text → Type 0
IsPart p = every (λ c. not (c == b'.')) p ≡ true

-- The expression, its white space at both ends aside, is `SUM(`, a column that may have a qualifier
-- and white space round it, and `)`.
pub record IsSumOf (sql base : Text) : Type 0 where
  pub inner : Text
  pub path : Text
  pub written : trim sql ≡ codes "SUM(" ++ (inner ++ codes ")")
  pub named : trim inner ≡ path ++ base
  pub present : is_empty (trim inner) ≡ false
  pub plain : All IsColumnByte (trim inner)
  pub qualified : IsQualifier path
  pub last : IsPart base

pub strip-append : (n s rest : Text) → strip n s ≡ some rest → s ≡ n ++ rest
unfolding strip
strip-append [] s rest h = cc h
strip-append (c ∷ n) [] rest h = absurd (cc h)
strip-append (c ∷ n) (d ∷ s) rest h = elim (Bool-cases (c == d)) [
  | inl e ↦
      ap₂ (λ (x : ℕ) (y : Text). x ∷ y) (sym ((==_iff c d).0 e))
        (strip-append n s rest (rw (e, strip) at h))
  | inr e ↦ absurd (cc (rw (e, strip) at h))
]

reverse-snoc : (xs : Text) (c : ℕ) → reverse (xs ++ c ∷ []) ≡ c ∷ reverse xs
reverse-snoc [] c = refl
reverse-snoc (x ∷ xs) c =
    reverse-cons x (xs ++ c ∷ [])
    ∙ ap (λ (ys : Text). ys ++ x ∷ []) (reverse-snoc xs c)
    ∙ ap (λ (ys : Text). c ∷ ys) (sym (reverse-cons x xs))

reverse-reverse : (xs : Text) → reverse (reverse xs) ≡ xs
reverse-reverse [] = refl
reverse-reverse (x ∷ xs) =
    ap reverse (reverse-cons x xs)
    ∙ reverse-snoc (reverse xs) x
    ∙ ap (λ (ys : Text). x ∷ ys) (reverse-reverse xs)

strip_close-append : (s inner : Text) → strip_close s ≡ some inner → s ≡ inner ++ codes ")"
unfolding strip_close
strip_close-append s inner h = elim (Option-cases (strip (codes ")") (reverse s))) [
  | inl e ↦ absurd (ground (arith, e, h))
  | inr (rest, e) ↦
      let found = strip-append (codes ")") (reverse s) rest e in
      let same : reverse rest ≡ inner = ground (arith, e, h) in
      sym (reverse-reverse s)
      ∙ ap reverse found
      ∙ reverse-cons b')' rest
      ∙ ap (λ (ys : Text). ys ++ codes ")") same
]

split-cons : (sep : ℕ) (s : Text) → (p : Text) × (ps : List Text) × (split sep s ≡ p ∷ ps)
unfolding split
split-cons sep [] = ([], [], refl)
split-cons sep (c ∷ s) =
    let (p, ps, e) = split-cons sep s in
    elim (Bool-cases (c == sep)) [
      | inl h ↦ ([], split sep s, rw h refl)
      | inr h ↦ (c ∷ p, ps, rw (h, e) refl)
    ]

split-sep : (sep c : ℕ) (s : Text) → (c == sep) ≡ true → split sep (c ∷ s) ≡ [] ∷ split sep s
unfolding split
split-sep sep c s h = rw h refl

split-other :
    (sep c : ℕ) (s p : Text) (ps : List Text)
    → (c == sep) ≡ false
    → split sep s ≡ p ∷ ps
    → split sep (c ∷ s) ≡ (c ∷ p) ∷ ps
unfolding split
split-other sep c s p ps h e = rw (h, e) refl

join-grow :
    (sep : Text) (c : ℕ) (p : Text) (ps : List Text)
    → join sep ((c ∷ p) ∷ ps) ≡ c ∷ join sep (p ∷ ps)
unfolding join
join-grow sep c p [] = refl
join-grow sep c p (q ∷ ps) = refl

join-split : (s : Text) → join (codes ".") (split b'.' s) ≡ s
unfolding join
join-split [] = unfold split in refl
join-split (c ∷ s) =
    let (p, ps, e) = split-cons b'.' s in
    let later : join (codes ".") (p ∷ ps) ≡ s = ap (join (codes ".")) (sym e) ∙ join-split s in
    elim (Bool-cases (c == b'.')) [
      | inl h ↦
          ap (join (codes ".")) (split-sep b'.' c s h ∙ ap (λ ts. [] ∷ ts) e)
          ∙ ap₂ (λ (x : ℕ) (y : Text). x ∷ y) (sym ((==_iff c b'.').0 h)) later
      | inr h ↦
          ap (join (codes ".")) (split-other b'.' c s p ps h e)
          ∙ join-grow (codes ".") c p ps
          ∙ ap (λ (y : Text). c ∷ y) later
    ]

IsPart-nil : IsPart []
unfolding IsPart
IsPart-nil = refl

IsPart-cons : (c : ℕ) (p : Text) → (c == b'.') ≡ false → IsPart p → IsPart (c ∷ p)
unfolding IsPart
IsPart-cons c p h k = ground (arith, h, k)

split-IsPart : (s : Text) → All IsPart (split b'.' s)
split-IsPart [] = unfold split in (IsPart-nil, tt)
split-IsPart (c ∷ s) =
    let (p, ps, e) = split-cons b'.' s in
    let parts = split-IsPart s in
    let later : All IsPart (p ∷ ps) = subst (All IsPart) e parts in
    elim (Bool-cases (c == b'.')) [
      | inl h ↦ subst (All IsPart) (sym (split-sep b'.' c s h)) (IsPart-nil, parts)
      | inr h ↦
          subst (All IsPart) (sym (split-other b'.' c s p ps h e))
            (IsPart-cons c p h later.0, later.1)
    ]

last_part-All :
    (P : Text → Type 0) (p : Text) (ps : List Text) → All P (p ∷ ps) → P (last_part (p ∷ ps))
unfolding last_part
last_part-All P p [] h = h.0
last_part-All P p (q ∷ ps) h = last_part-All P q ps h.1

join-last_part :
    (p : Text) (ps : List Text)
    → (path : Text) × (join (codes ".") (p ∷ ps) ≡ path ++ last_part (p ∷ ps)) × IsQualifier path
unfolding join last_part IsQualifier
join-last_part p [] = ([], refl, inl refl)
join-last_part p (q ∷ ps) =
    let (path, e, quals) = join-last_part q ps in
    (
      p ++ (codes "." ++ path),
      ap (λ (y : Text). p ++ (codes "." ++ y)) e
          ∙ sym (append_assoc p (codes "." ++ path) (last_part (q ∷ ps))),
      elim quals [
        | inl n ↦ inr (p, rw n refl)
        | inr (x, n) ↦ inr (
          p ++ (codes "." ++ x),
          ap (λ (y : Text). p ++ (codes "." ++ y)) n
              ∙ sym (append_assoc p (codes "." ++ x) (codes ".")),
        )
      ],
    )

is_column_char-IsColumnByte : (c : ℕ) → is_column_char c ≡ true → IsColumnByte c
unfolding is_column_char IsColumnByte
is_column_char-IsColumnByte c h = elim (Bool-cases (leb b'0' c && leb c b'9')) [
  | inl e ↦ inl (ground (arith, e), ground (arith, e))
  | inr e ↦ elim (Bool-cases (leb b'a' c && leb c b'z')) [
    | inl f ↦ inr (inl (ground (arith, f), ground (arith, f)))
    | inr f ↦ elim (Bool-cases (leb b'A' c && leb c b'Z')) [
      | inl g ↦ inr (inr (inl (ground (arith, g), ground (arith, g))))
      | inr g ↦ elim (Bool-cases (c == b'_')) [
        | inl k ↦ inr (inr (inr (inl (ground (arith, k)))))
        | inr k ↦ inr (inr (inr (inr (ground (arith, e, f, g, k, h)))))
      ]
    ]
  ]
]

column_bytes : (t : Text) → every is_column_char t ≡ true → All IsColumnByte t
column_bytes [] h = tt
column_bytes (c ∷ t) h =
    (is_column_char-IsColumnByte c (ground (arith, h)), column_bytes t (ground (arith, h)))

-- What `column_of` takes of the text between the brackets.
column_of-some :
    (t base : Text)
    → column_of t ≡ some base
    → (is_empty t ≡ false) × (All IsColumnByte t) × (last_part (split b'.' t) ≡ base)
unfolding column_of
column_of-some t base h = elim (Bool-cases (is_empty t || not (every is_column_char t))) [
  | inl e ↦ absurd (ground (arith, e, h))
  | inr e ↦ (ground (arith, e), column_bytes t (ground (arith, e)), ground (arith, e, h))
]

pub measure_base_column-IsSumOf :
    (sql base : Text) → measure_base_column sql ≡ some base → IsSumOf sql base
unfolding measure_base_column
measure_base_column-IsSumOf sql base h = elim (Option-cases (strip (codes "SUM(") (trim sql))) [
  | inl e ↦ absurd (ground (arith, e, h))
  | inr (rest, e) ↦ elim (Option-cases (strip_close rest)) [
    | inl f ↦ absurd (ground (arith, e, f, h))
    | inr (inner, f) ↦
        let (some_byte, bytes, found) =
          column_of-some (trim inner) base (ground (arith, e, f, h)) in
        let (p, ps, parts) = split-cons b'.' (trim inner) in
        let (path, joined, quals) = join-last_part p ps in
        let base' : last_part (p ∷ ps) ≡ base = ap last_part (sym parts) ∙ found in
        let whole : join (codes ".") (p ∷ ps) ≡ trim inner =
          ap (join (codes ".")) (sym parts) ∙ join-split (trim inner) in
        record {
          inner = inner;
          path = path;
          written =
              strip-append (codes "SUM(") (trim sql) rest e
              ∙ ap (λ (t : Text). codes "SUM(" ++ t) (strip_close-append rest inner f);
          named = sym whole ∙ joined ∙ ap (λ (t : Text). path ++ t) base';
          present = some_byte;
          plain = bytes;
          qualified = quals;
          last =
              subst IsPart base'
                (last_part-All IsPart p ps (subst (All IsPart) parts (split-IsPart (trim inner))));
        }
  ]
]
