-- ===== src/Engine/Sql/Rewrite/Pieces.antt =====
-- src/engine/sql.rs: the pieces of a role predicate that a roll-up can evaluate.
use mallard_cube.Prelude.{
  ℕ, suc, ◌+◌, ◌≤◌, ◌≡◌, refl, sym, ap, ◌∙◌, ◌≢◌, inl, inr, Bool, true, false, ◌||◌, some, List, [],
  ◌∷◌, ◌++◌, map, arith, ◌==◌, ==_iff, Bool-cases, get_elem?, drop, is_empty, every, Among, Text,
  codes, text_eq, to_lower, eq_ignore_case, text_eq-eq,
}
use mallard_cube.Engine.Model.{LevelDef, DimensionDef, SemanticModel, dim_def_opt}
use mallard_cube.Engine.Model.Lookups.{position}
use mallard_cube.Engine.Aggregate.{Aggregation}
use mallard_cube.Engine.Sql.Rewrite.{
  is_letter, is_word, is_blank, after, before, literal, push_char, is_one_of, starts,
  rollup_columns, subquery_words, keywords,
}
use mallard_cube.Engine.Sql.Rewrite.Unaliased.{before-after}

-- `Quoted s l r`: behind an opening quote stands `s`, of which `l` is the rest of the literal, with its
-- closing quote, and `r` is behind it. A literal that is not closed is the whole rest.
pub data Quoted : Text → Text → Text → Type 0 where
  unclosed : Quoted [] [] []
  last_quote : Quoted (39 ∷ []) (39 ∷ []) []
  closed : (c : ℕ) (s : Text) → c ≢ 39 → Quoted (39 ∷ c ∷ s) (39 ∷ []) (c ∷ s)
  doubled : {s l r : Text} → Quoted s l r → Quoted (39 ∷ 39 ∷ s) (39 ∷ 39 ∷ l) r
  inside : {s l r : Text} (c : ℕ) → c ≢ 39 → Quoted s l r → Quoted (c ∷ s) (c ∷ l) r

-- The first byte is none of a word.
unfoldable pub EndsWord : Text → Type 0
EndsWord [] = Unit
EndsWord (c ∷ s) = is_word c ≡ false

-- Behind white space comes this byte, and then the text `t`.
unfoldable pub Next : ℕ → Text → Text → Type 0
Next c s t = (b : Text) × (every is_blank b ≡ true) × (s ≡ b ++ c ∷ t)

module _ (model : SemanticModel) (agg : Aggregation) (date_dim : DimensionDef) where
  -- `Maps alias col m`: the column `col` of the table behind the alias is the column `m` of the roll-up.
  -- It is one of the roll-up's where the alias is `f`; a level of the roll-up's dimension that is as
  -- coarse as the roll-up, or coarser; or the field of a dimension that the roll-up keeps.
  pub data Maps : Text → Text → Text → Type 0 where
    of_fact :
        {alias col : Text}
        → map to_lower alias ≡ codes "f"
        → Among col (rollup_columns model agg)
        → Maps alias col col
    of_level :
        {alias col m d : Text} (i : ℕ) (l : LevelDef)
        → map to_lower alias ≡ codes "_" ++ d
        → eq_ignore_case d agg.date_dim_id ≡ true
        → get_elem? date_dim.levels i ≡ some l
        → l.column ≡ col
        → i ≤ agg.date_level
        → get_elem? agg.date_columns i ≡ some m
        → Maps alias col m
    of_leaf :
        {alias col d : Text} (leaf : Text × Text) (dim : DimensionDef)
        → map to_lower alias ≡ codes "_" ++ d
        → Among leaf agg.leaf_columns
        → eq_ignore_case leaf.0 d ≡ true
        → dim_def_opt model leaf.0 ≡ some dim
        → dim.physical_field ≡ col
        → Maps alias col col

  -- What may stand without an alias: a keyword, the name of a call, or a column of the roll-up.
  pub data IsKept (w rest : Text) : Type 0 where
    keyword : Among (map to_lower w) keywords → IsKept w rest
    call : (t : Text) → Next b'(' rest t → IsKept w rest
    column : Among w (rollup_columns model agg) → IsKept w rest

  -- The predicate and what becomes of it, piece by piece.
  pub data Rewritten : Text → Text → Type 0 where
    done : Rewritten [] []
    quoted :
        (s l r out : Text) → Quoted s l r → Rewritten r out → Rewritten (39 ∷ s) (39 ∷ l ++ out)
    byte :
        (c : ℕ) (s out : Text)
        → c ≢ 39
        → c ≢ 34
        → (is_letter c || c == b'_') ≡ false
        → Rewritten s out
        → Rewritten (c ∷ s) (push_char c [] ++ out)
    word :
        (w r out : Text)
        → every is_word w ≡ true
        → EndsWord r
        → is_one_of subquery_words (map to_lower w) ≡ false
        → ((t : Text) → Next b'.' r t → ⊥)
        → IsKept w r
        → Rewritten r out
        → Rewritten (w ++ r) (w ++ out)
    aliased_column :
        (w gap gap' col m r out : Text)
        → every is_word w ≡ true
        → is_one_of subquery_words (map to_lower w) ≡ false
        → every is_blank gap ≡ true
        → every is_blank gap' ≡ true
        → every is_word col ≡ true
        → is_empty col ≡ false
        → EndsWord r
        → Maps w col m
        → Rewritten r out
        → Rewritten (w ++ (gap ++ b'.' ∷ (gap' ++ (col ++ r)))) (m ++ out)

pub literal-Quoted :
    (s : Text)
    → Quoted s (literal false s).0 (literal false s).1
      × Quoted (39 ∷ s) (39 ∷ (literal true s).0) (literal true s).1
unfolding literal
literal-Quoted [] = (unclosed, last_quote)
literal-Quoted (c ∷ s) =
    let later = literal-Quoted s in
    elim (Bool-cases (c == 39)) [
      | inl e ↦ rw (e, (==_iff c 39).0 e) (later.1, doubled later.0)
      | inr e ↦
          let other : c ≢ 39 = λ x. ground (arith, e, (==_iff c 39).1 x) in
          rw e (inside c other later.0, closed c s other)
    ]

pub every-before : (p : ℕ → Bool) (s : Text) → every p (before p s) ≡ true
unfolding before
every-before p [] = refl
every-before p (c ∷ s) = ground (arith, every-before p s)

pub after-EndsWord : (s : Text) → EndsWord (after is_word s)
unfolding after EndsWord
after-EndsWord [] = tt
after-EndsWord (c ∷ s) = elim (Bool-cases (is_word c)) [
  | inl e ↦ rw (e, EndsWord) (after-EndsWord s)
  | inr e ↦ rw (e, EndsWord) e
]

starts-drop : (c : ℕ) (s : Text) → starts c s ≡ true → s ≡ c ∷ drop 1 s
unfolding starts
starts-drop c [] h = absurd (cc h)
starts-drop c (d ∷ s) h = ap (λ (x : ℕ). x ∷ s) ((==_iff d c).0 h)

-- The next byte behind white space, where the scan looks for it.
pub next :
    (c : ℕ) (s : Text) → starts c (after is_blank s) ≡ true → Next c s (drop 1 (after is_blank s))
unfolding Next
next c s h = (
  before is_blank s,
  every-before is_blank s,
  sym (before-after is_blank s)
      ∙ ap (λ (t : Text). before is_blank s ++ t) (starts-drop c (after is_blank s) h),
)

skip-blank :
    (b t : Text) (c : ℕ)
    → every is_blank b ≡ true
    → is_blank c ≡ false
    → after is_blank (b ++ c ∷ t) ≡ c ∷ t
unfolding after
skip-blank [] t c h k = ground (arith, k)
skip-blank (x ∷ b) t c h k = ground (arith, h, skip-blank b t c (ground (arith, h)) k)

pub no_next : (s t : Text) → starts b'.' (after is_blank s) ≡ false → Next b'.' s t → ⊥
unfolding starts Next
no_next s t h (b, blank, e) =
    let found : after is_blank s ≡ b'.' ∷ t =
      ap (after is_blank) e ∙ skip-blank b t b'.' blank (unfold is_blank in refl) in
    cc (rw found at h)

pub is_one_of-Among : (words : List Text) (w : Text) → is_one_of words w ≡ true → Among w words
unfolding is_one_of
is_one_of-Among [] w h = absurd (cc h)
is_one_of-Among (v ∷ words) w h = elim (Bool-cases (text_eq w v)) [
  | inl e ↦ inl (text_eq-eq w v e)
  | inr e ↦ inr (is_one_of-Among words w (ground (arith, e, h)))
]

found-position :
    (p : LevelDef → Bool) (i : ℕ) (l : LevelDef) (ls : List LevelDef) (j : ℕ)
    → p l ≡ true
    → position p i (l ∷ ls) ≡ some j
    → j ≡ i + 0
unfolding position
found-position p i l ls j e h = let same : i ≡ j = ground (arith, e, h) in omega (arith, same)

pub position-get :
    (p : LevelDef → Bool) (i : ℕ) (ls : List LevelDef) (j : ℕ)
    → position p i ls ≡ some j
    → (k : ℕ) × (l : LevelDef) × (j ≡ i + k) × (get_elem? ls k ≡ some l) × (p l ≡ true)
unfolding position
position-get p i [] j h = absurd (cc h)
position-get p i (l ∷ ls) j h = elim (Bool-cases (p l)) [
  | inl e ↦ (0, l, found-position p i l ls j e h, refl, e)
  | inr e ↦
      let (k, m, at, got, ok) = position-get p (i + 1) ls j (ground (arith, e, h)) in
      (suc k, m, omega (arith, at), got, ok)
]

pub differs : (c d : ℕ) → (c == d) ≡ false → c ≢ d
differs c d e x = ground (arith, e, (==_iff c d).1 x)

pub first_letter :
    (c : ℕ) (s : Text)
    → (is_letter c || c == b'_') ≡ true
    → every is_word (c ∷ before is_word s) ≡ true
unfolding is_word
first_letter c s h =
    let rest : every is_word (before is_word s) ≡ true = every-before is_word s in
    ground (arith, h, rest)
