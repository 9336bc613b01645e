-- ===== src/Engine/Sql/Rewrite/Scan.antt =====
-- src/engine/sql.rs: the scan of a role predicate ends, and changes nothing but columns behind an
-- alias.
use mallard_cube.Prelude.{
  ℕ, zero, suc, ◌≤◌, ◌≡◌, refl, ap₂, Bool, true, false, Option, [], ◌∷◌, arith, ◌==◌, length, drop,
  Text,
}
use mallard_cube.Engine.Model.{DimensionDef, SemanticModel}
use mallard_cube.Engine.Aggregate.{Aggregation}
use mallard_cube.Engine.Sql.Rewrite.{
  word_of, column_at, is_word, is_blank, after, before, literal, scan_word, scan_step, scan_from,
}

length-after : (p : ℕ → Bool) (s : Text) → length (after p s) ≤ length s
unfolding after
length-after p [] = omega arith
length-after p (c ∷ s) = ground (arith, length-after p s)

length-drop : (n : ℕ) (s : Text) → length (drop n s) ≤ length s
length-drop zero s = omega arith
length-drop (suc n) [] = omega arith
length-drop (suc n) (c ∷ s) = omega (arith, length-drop n s)

length-literal : (q : Bool) (s : Text) → length (literal q s).1 ≤ length s
unfolding literal
length-literal q [] = omega arith
length-literal false (c ∷ s) = omega (arith, length-literal (c == 39) s)
length-literal true (c ∷ s) = ground (arith, length-literal false s)

-- Two scans that agree on every text that is no longer.
abbrev Agree : (Text → Option Text) → (Text → Option Text) → ℕ → Type 0
Agree f g n = (t : Text) → length t ≤ n → f t ≡ g t

module _ (model : SemanticModel) (agg : Aggregation) (date_dim : DimensionDef) where
  scan_word-Agree :
      (ident rest : Text) (f g : Text → Option Text) (n : ℕ)
      → length rest ≤ n
      → Agree f g n
      → scan_word model agg date_dim ident rest f ≡ scan_word model agg date_dim ident rest g
  unfolding scan_word column_at
  scan_word-Agree ident rest f g n h a =
      let ahead = after is_blank rest in
      let from_col = after is_blank (drop 1 ahead) in
      let next = after is_word from_col in
      let short : length next ≤ n = omega (
        arith,
        length-after is_blank rest,
        length-drop 1 ahead,
        length-after is_blank (drop 1 ahead),
        length-after is_word from_col,
      ) in
      ap₂ (word_of model agg date_dim ident rest) (a next short) (a rest h)

  scan_step-Agree :
      (c : ℕ) (s : Text) (f g : Text → Option Text) (n : ℕ)
      → length s ≤ n
      → Agree f g n
      → scan_step model agg date_dim c s f ≡ scan_step model agg date_dim c s g
  unfolding scan_step
  scan_step-Agree c s f g n h a =
      let quote : f (literal false s).1 ≡ g (literal false s).1 =
        a (literal false s).1 (omega (arith, length-literal false s)) in
      let word =
        scan_word-Agree (c ∷ before is_word s) (after is_word s) f g n
          (omega (arith, length-after is_word s)) a in
      let other : f s ≡ g s = a s h in rw (quote, word, other) refl

  -- With a unit of fuel for each byte, or more, the scan does not depend on the fuel.
  scan_from_enough :
      (f g : ℕ) (s : Text)
      → length s ≤ f
      → length s ≤ g
      → scan_from model agg date_dim f s ≡ scan_from model agg date_dim g s
  unfolding scan_from
  scan_from_enough f g [] h k = refl
  scan_from_enough zero g (c ∷ s) h k = absurd (omega arith)
  scan_from_enough (suc f) zero (c ∷ s) h k = absurd (omega arith)
  scan_from_enough (suc f) (suc g) (c ∷ s) h k =
      scan_step-Agree c s (scan_from model agg date_dim f) (scan_from model agg date_dim g)
        (length s) (omega arith) (λ t l. scan_from_enough f g t (omega arith) (omega arith))
