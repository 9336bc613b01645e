-- ===== src/Engine/Sql/Rewrite/Accepted.antt =====
-- src/engine/sql.rs: a role predicate that the scan takes is one that the roll-up can evaluate.
use mallard_cube.Prelude.{
  ℕ, zero, suc, ◌≡◌, sym, ap, subst, ◌∙◌, inl, inr, true, false, ◌||◌, Option, some, [], ◌∷◌, ◌++◌,
  map, ◌==◌, ==_iff, Bool-cases, Option-cases, length, drop, is_empty, every, Text, to_lower,
}
use mallard_cube.Engine.Model.{dim_def, DimensionDef, SemanticModel}
use mallard_cube.Engine.Aggregate.{Aggregation}
use mallard_cube.Engine.Sql.Rewrite.{
  rewrite_predicate_for_rollup, is_letter, is_word, is_blank, after, before, literal, push_char,
  is_one_of, starts, prepend, rollup_columns, aliased, column_at, word_of, scan_word, scan_step,
  scan_from, scan_predicate, subquery_words, keywords,
}
use mallard_cube.Engine.Sql.Rewrite.Unaliased.{before-after, prepend-some}
use mallard_cube.Engine.Sql.Rewrite.Pieces.{
  EndsWord, Next, Maps, Rewritten, done, quoted, byte, word, aliased_column, literal-Quoted,
  every-before, after-EndsWord, next, no_next, differs, first_letter,
}
use mallard_cube.Engine.Sql.Rewrite.Mapped.{aliased-Maps, bare_word-IsKept}

module _ (model : SemanticModel) (agg : Aggregation) (date_dim : DimensionDef) where
  -- A scan whose results are the predicate rewritten.
  abbrev IsRewriting : (Text → Option Text) → Type 0
  IsRewriting scan = (s out : Text) → scan s ≡ some out → Rewritten model agg date_dim s out

  aliased_word :
      (scan : Text → Option Text)
      → IsRewriting scan
      → (w rest m out : Text) → every is_word w ≡ true
      → is_one_of subquery_words (map to_lower w) ≡ false
      → starts b'.' (after is_blank rest) ≡ true
      → is_empty (before is_word (column_at rest)) ≡ false
      → Maps model agg date_dim w (before is_word (column_at rest)) m
      → prepend m (scan (after is_word (column_at rest))) ≡ some out
      → Rewritten model agg date_dim (w ++ rest) out
  unfolding column_at Next
  aliased_word scan ih w rest m out letters plain dot col maps h =
      let (t, e, same) = prepend-some m (scan (after is_word (column_at rest))) out h in
      let (gap, blank, split) = next b'.' rest dot in
      let behind = drop 1 (after is_blank rest) in
      let found =
        aliased_column w gap (before is_blank behind) (before is_word (column_at rest)) m
          (after is_word (column_at rest)) t letters plain blank (every-before is_blank behind)
          (every-before is_word (column_at rest)) col (after-EndsWord (column_at rest)) maps
          (ih (after is_word (column_at rest)) t e) in
      let whole : before is_blank behind
            ++ (before is_word (column_at rest) ++ after is_word (column_at rest))
          ≡ behind =
        ap (λ (y : Text). before is_blank behind ++ y) (before-after is_word (column_at rest))
        ∙ before-after is_blank behind in
      let source =
        ap (λ (y : Text). w ++ (gap ++ b'.' ∷ y)) whole ∙ ap (λ (y : Text). w ++ y) (sym split) in
      subst (Rewritten model agg date_dim (w ++ rest)) same
        (subst (λ (x : Text). Rewritten model agg date_dim x (m ++ t)) source found)

  scan_word-Rewritten :
      (scan : Text → Option Text)
      → IsRewriting scan
      → (w rest out : Text) → every is_word w ≡ true
      → EndsWord rest
      → scan_word model agg date_dim w rest scan ≡ some out
      → Rewritten model agg date_dim (w ++ rest) out
  unfolding scan_word word_of
  scan_word-Rewritten scan ih w rest out letters ends h =
      elim (Bool-cases (is_one_of subquery_words (map to_lower w))) [
        | inl e ↦ absurd (cc (rw e at h))
        | inr e ↦ elim (Bool-cases (starts b'.' (after is_blank rest))) [
          | inl d ↦ elim (Bool-cases (is_empty (before is_word (column_at rest)))) [
            | inl k ↦ absurd (cc (rw (e, d, k) at h))
            | inr k ↦
                elim (Option-cases
                  (aliased model agg date_dim (map to_lower w) (before is_word (column_at rest)))) [
                    | inl a ↦ absurd (cc (rw (e, d, k, a) at h))
                    | inr (m, a) ↦
                        aliased_word scan ih w rest m out letters e d k
                          (aliased-Maps model agg date_dim w (before is_word (column_at rest)) m a)
                          (rw (e, d, k, a) at h)
                  ]
          ]
          | inr d ↦
              elim (Bool-cases (
                is_one_of keywords (map to_lower w)
                || (starts b'(' (after is_blank rest) || is_one_of (rollup_columns model agg) w))) [
                  | inr k ↦ absurd (cc (rw (e, d, k) at h))
                  | inl k ↦
                      let (t, f, same) = prepend-some w (scan rest) out (rw (e, d, k) at h) in
                      subst (Rewritten model agg date_dim (w ++ rest)) same (
                        word w rest t letters ends e (λ t'. no_next rest t' d)
                          (bare_word-IsKept model agg date_dim w rest k) (ih rest t f))
                ]
        ]
      ]

  scan_step-Rewritten :
      (scan : Text → Option Text)
      → IsRewriting scan
      → (c : ℕ) (s out : Text) → scan_step model agg date_dim c s scan ≡ some out
      → Rewritten model agg date_dim (c ∷ s) out
  unfolding scan_step
  scan_step-Rewritten scan ih c s out h = elim (Bool-cases (c == 39)) [
    | inl q ↦
        let l = (literal false s).0 in
        let r = (literal false s).1 in
        let (t, e, same) = prepend-some (39 ∷ l) (scan r) out (rw q at h) in
        let found = quoted s l r t (literal-Quoted s).0 (ih r t e) in
        subst (λ (x : ℕ). Rewritten model agg date_dim (x ∷ s) out) (sym ((==_iff c 39).0 q))
          (subst (Rewritten model agg date_dim (39 ∷ s)) same found)
    | inr q ↦ elim (Bool-cases (c == 34)) [
      | inl d ↦ absurd (cc (rw (q, d) at h))
      | inr d ↦ elim (Bool-cases (is_letter c || c == b'_')) [
        | inl l ↦
            let letters : every is_word (c ∷ before is_word s) ≡ true = first_letter c s l in
            let found =
              scan_word-Rewritten scan ih (c ∷ before is_word s) (after is_word s) out letters
                (after-EndsWord s) (rw (q, d, l) at h) in
            subst (λ (x : Text). Rewritten model agg date_dim (c ∷ x) out) (before-after is_word s)
              found
        | inr l ↦
            let (t, e, same) = prepend-some (push_char c []) (scan s) out (rw (q, d, l) at h) in
            subst (Rewritten model agg date_dim (c ∷ s)) same
              (byte c s t (differs c 39 q) (differs c 34 d) l (ih s t e))
      ]
    ]
  ]

  scan_from-Rewritten : (fuel : ℕ) → IsRewriting (scan_from model agg date_dim fuel)
  unfolding scan_from
  scan_from-Rewritten fuel [] out h = subst (Rewritten model agg date_dim []) (cc h) done
  scan_from-Rewritten zero (c ∷ s) out h = absurd (cc h)
  scan_from-Rewritten (suc fuel) (c ∷ s) out h =
      scan_step-Rewritten (scan_from model agg date_dim fuel) (scan_from-Rewritten fuel) c s out h

-- A predicate that a roll-up can evaluate, for a roll-up whose date dimension the model has: it has
-- no quoted identifier and no word of a subquery. A literal stays as it is. A word without a dot
-- behind it stays as it is, and is a keyword, the name of a call or a column of the roll-up. A
-- column behind an alias is one that the alias has in the roll-up, and becomes that column alone.
-- Any other byte is pushed as a character.
pub rewrite_predicate_for_rollup-Rewritten :
    (model : SemanticModel) (agg : Aggregation) (predicate out : Text)
    → rewrite_predicate_for_rollup model agg predicate ≡ some (some out)
    → (date_dim : DimensionDef) × (dim_def model agg.date_dim_id ≡ some date_dim)
      × Rewritten model agg date_dim predicate out
unfolding rewrite_predicate_for_rollup scan_predicate
rewrite_predicate_for_rollup-Rewritten model agg predicate out h =
    elim (Option-cases (dim_def model agg.date_dim_id)) [
      | inl e ↦ absurd (cc (rw (rewrite_predicate_for_rollup, e) at h))
      | inr (date_dim, e) ↦ (
        date_dim,
        e,
        scan_from-Rewritten model agg date_dim (length predicate) predicate out
            (cc (rw (rewrite_predicate_for_rollup, e) at h)),
      )
    ]
