-- ===== src/Engine/Sql/Rewrite/Unaliased.antt =====
-- src/engine/sql.rs: a role predicate without an alias is kept as it is, or refused.
use mallard_cube.Prelude.{
  ℕ, zero, suc, ◌≡◌, refl, sym, ap, ap₂, ◌∙◌, inl, inr, Bool, true, false, not, ◌&&◌, ◌||◌, Option,
  none, some, [], ◌∷◌, ◌++◌, map, arith, ltb, ◌==◌, ==_iff, Bool-cases, length, every, Text,
  to_lower,
}
use mallard_cube.Engine.Model.{DimensionDef, SemanticModel}
use mallard_cube.Engine.Aggregate.{Aggregation}
use mallard_cube.Engine.Sql.Rewrite.{
  is_letter, is_word, is_blank, after, before, literal, push_char, is_one_of, starts, prepend,
  rollup_columns, column_at, word_of, scan_word, scan_step, scan_from, scan_predicate,
  subquery_words, keywords,
}

-- ASCII, and no dot.
abbrev pub is_plain : ℕ → Bool
is_plain c = ltb c 128 && not (c == b'.')

pub before-after : (p : ℕ → Bool) (s : Text) → before p s ++ after p s ≡ s
unfolding before after
before-after p [] = refl
before-after p (c ∷ s) = ground (arith, before-after p s)

literal-append : (q : Bool) (s : Text) → (literal q s).0 ++ (literal q s).1 ≡ s
unfolding literal
literal-append q [] = refl
literal-append false (c ∷ s) = ap (λ t. c ∷ t) (literal-append (c == 39) s)
literal-append true (c ∷ s) = elim (Bool-cases (c == 39)) [
  | inl e ↦ rw e (ap (λ t. c ∷ t) (literal-append false s))
  | inr e ↦ rw e refl
]

every-after : (q p : ℕ → Bool) (s : Text) → every q s ≡ true → every q (after p s) ≡ true
unfolding after
every-after q p [] h = refl
every-after q p (c ∷ s) h = elim (Bool-cases (p c)) [
  | inl e ↦ rw e (every-after q p s (ground arith))
  | inr e ↦ rw e h
]

every-literal :
    (p : ℕ → Bool) (q : Bool) (s : Text) → every p s ≡ true → every p (literal q s).1 ≡ true
unfolding literal
every-literal p q [] h = refl
every-literal p false (c ∷ s) h = every-literal p (c == 39) s (ground arith)
every-literal p true (c ∷ s) h = elim (Bool-cases (c == 39)) [
  | inl e ↦ rw e (every-literal p false s (ground arith))
  | inr e ↦ rw e h
]

no_dot : (s : Text) → every is_plain s ≡ true → starts b'.' s ≡ false
unfolding starts
no_dot [] h = refl
no_dot (c ∷ s) h = ground arith

pub prepend-some :
    (s : Text) (o : Option Text) (out : Text)
    → prepend s o ≡ some out
    → (t : Text) × (o ≡ some t) × (s ++ t ≡ out)
unfolding prepend
prepend-some s none out h = absurd (cc h)
prepend-some s (some t) out h = (t, refl, cc h)

module _ (model : SemanticModel) (agg : Aggregation) (date_dim : DimensionDef) where
  word_of-plain :
      (ident rest : Text) (o o' : Option Text) (out : Text)
      → starts b'.' (after is_blank rest) ≡ false
      → word_of model agg date_dim ident rest o o' ≡ some out
      → prepend ident o' ≡ some out
  unfolding word_of
  word_of-plain ident rest o o' out d h =
      elim (Bool-cases (is_one_of subquery_words (map to_lower ident))) [
        | inl e ↦ absurd (cc (rw e at h))
        | inr e ↦
            elim (Bool-cases (
              is_one_of keywords (map to_lower ident)
              || (starts b'(' (after is_blank rest)
                  || is_one_of (rollup_columns model agg) ident))) [
                    | inl k ↦ rw (e, d, k) at h
                    | inr k ↦ absurd (cc (rw (e, d, k) at h))
                  ]
      ]

  unaliased_from :
      (fuel : ℕ) (s out : Text)
      → every is_plain s ≡ true
      → scan_from model agg date_dim fuel s ≡ some out
      → out ≡ s
  unfolding scan_from scan_step scan_word
  unaliased_from fuel [] out p h = cc h
  unaliased_from zero (c ∷ s) out p h = absurd (cc h)
  unaliased_from (suc fuel) (c ∷ s) out p h =
      let tail : every is_plain s ≡ true = ground (arith, p) in
      elim (Bool-cases (c == 39)) [
        | inl q ↦
            let (t, e, same) =
              prepend-some (39 ∷ (literal false s).0)
                (scan_from model agg date_dim fuel (literal false s).1) out (rw q at h) in
            let t' =
              unaliased_from fuel (literal false s).1 t (every-literal is_plain false s tail) e in
            sym same
            ∙ rw t' (
                ap₂ (λ (x : ℕ) (y : Text). x ∷ y) (sym ((==_iff c 39).0 q))
                  (literal-append false s))
        | inr q ↦ elim (Bool-cases (c == 34)) [
          | inl d ↦ absurd (cc (rw (q, d) at h))
          | inr d ↦ elim (Bool-cases (is_letter c || c == b'_')) [
            | inl l ↦
                let rest = after is_word s in
                let plain = every-after is_plain is_word s tail in
                let dotless =
                  no_dot (after is_blank rest) (every-after is_plain is_blank rest plain) in
                let found =
                  word_of-plain (c ∷ before is_word s) rest
                    (scan_from model agg date_dim fuel (after is_word (column_at rest)))
                    (scan_from model agg date_dim fuel rest) out dotless (rw (q, d, l) at h) in
                let (t, e, same) =
                  prepend-some (c ∷ before is_word s) (scan_from model agg date_dim fuel rest) out
                    found in
                let t' = unaliased_from fuel rest t plain e in
                sym same ∙ rw t' (ap (λ (y : Text). c ∷ y) (before-after is_word s))
            | inr l ↦
                let one : push_char c [] ≡ c ∷ [] = unfold push_char in ground (arith, p) in
                let (t, e, same) =
                  prepend-some (c ∷ []) (scan_from model agg date_dim fuel s) out
                    (rw (q, d, l, one) at h) in
                sym same ∙ ap (λ (y : Text). c ∷ y) (unaliased_from fuel s t tail e)
          ]
        ]
      ]

  -- A predicate in ASCII without a dot is refused for the roll-up, or stays as it is.
  pub scan_predicate_unaliased :
      (predicate out : Text)
      → every is_plain predicate ≡ true
      → scan_predicate model agg date_dim predicate ≡ some out
      → out ≡ predicate
  unfolding scan_predicate
  scan_predicate_unaliased predicate out p h = unaliased_from (length predicate) predicate out p h
