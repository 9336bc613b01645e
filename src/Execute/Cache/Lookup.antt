-- ===== src/Execute/Cache/Lookup.antt =====
-- src/execute/cache.rs: the entries as a map.
use mallard_cube.Prelude.{
  ℕ, ◌+◌, ◌≤◌, ◌≡◌, refl, [], ◌∷◌, none, some, Text, text_eq, text_eq_iff, text_eq_refl, arith,
  length, All, All-weaken, if◌then◌else◌, Bool-cases, Option-cases, inl, inr,
}
use mallard_cube.Execute.Cache.{Entry, Entries, lookup, without, oldest, sum_of}

module _ {F : Type 0} where
  -- No key stands twice, as in a hash map.
  abbrev pub Unique : Entries F → Type 0
  Unique [] = Unit
  Unique ((k, e) ∷ rest) = (lookup k rest ≡ none) × Unique rest

  abbrev pub total_bytes : Entries F → ℕ
  total_bytes = sum_of (λ (e : Text × Entry F). e.1.bytes)

  pub lookup-without :
      (k j : Text) (es : Entries F)
      → Unique es
      → lookup j (without k es) ≡ (if text_eq k j then none else lookup j es)
  unfolding lookup without
  lookup-without k j [] u = ground arith
  lookup-without k j ((i, e) ∷ rest) u =
      ground
        (arith, lookup-without k j rest u.1, u.0, text_eq_iff i k, text_eq_iff i j, text_eq_iff k j)

  pub without-Unique : (k : Text) (es : Entries F) → Unique es → Unique (without k es)
  unfolding without
  without-Unique k [] u = tt
  without-Unique k ((i, e) ∷ rest) u = elim (Bool-cases (text_eq i k)) [
    | inl same ↦ rw same u.1
    | inr other ↦
        rw other (rw (lookup-without k i rest u.1) (ground (arith, u.0)), without-Unique k rest u.1)
  ]

  pub total_bytes-without :
      (k : Text) (es : Entries F) (e : Entry F)
      → lookup k es ≡ some e
      → total_bytes (without k es) + e.bytes ≡ total_bytes es
  unfolding lookup without
  total_bytes-without k [] e h = cc
  total_bytes-without k ((i, d) ∷ rest) e h = ground (arith, total_bytes-without k rest e)

  pub length-without :
      (k : Text) (es : Entries F) (e : Entry F)
      → lookup k es ≡ some e
      → length (without k es) + 1 ≡ length es
  unfolding lookup without
  length-without k [] e h = cc
  length-without k ((i, d) ∷ rest) e h = ground (arith, length-without k rest e)

  pub oldest-eq-none : (es : Entries F) → oldest es ≡ none → es ≡ []
  unfolding oldest
  oldest-eq-none [] h = refl
  oldest-eq-none (e ∷ rest) h = ground arith

  -- No entry was inserted before the one that `oldest` finds.
  pub oldest-least :
      (es : Entries F) (m : Text × Entry F)
      → oldest es ≡ some m
      → All (λ (e : Text × Entry F). m.1.inserted_at ≤ e.1.inserted_at) es
  unfolding oldest
  oldest-least [] m h = tt
  oldest-least (e ∷ rest) m h = elim (Option-cases (oldest rest)) [
    | inl last ↦ (ground arith, rw (oldest-eq-none rest last) tt)
    | inr (m', e') ↦
        (ground arith, All-weaken _ _ rest (λ d p. ground arith) (oldest-least rest m' e'))
  ]

  pub lookup-oldest :
      (es : Entries F) (m : Text × Entry F)
      → Unique es
      → oldest es ≡ some m
      → lookup m.0 es ≡ some m.1
  unfolding oldest lookup
  lookup-oldest [] m u h = cc
  lookup-oldest ((k, e) ∷ rest) m u h = elim (Option-cases (oldest rest)) [
    | inl none_left ↦ ground (arith, text_eq_refl k)
    | inr (m', e') ↦
        ground (arith, lookup-oldest rest m' u.1 e', text_eq_refl k, text_eq_iff k m'.0, u.0)
  ]
