-- ===== src/Execute/Cache/History.antt =====
-- src/execute/cache.rs: sequences of calls, and what was last stored under a key.
use mallard_cube.Prelude.{
  ℕ, ◌-◌, ◌<◌, ◌≡◌, subst, inl, inr, false, Option, none, some, [], arith, if◌then◌else◌,
  Bool-cases, Option-cases, Text, text_eq,
}
use mallard_cube.Execute.Cache.{
  QueryResult, Entry, ResultCache, lookup, is_fresh, get, insert, clear, store, too_large,
}
use mallard_cube.Execute.Cache.Eviction.{Shrinks, remove-Shrinks}
use mallard_cube.Execute.Cache.Accounting.{
  IsValid, insert-IsValid, get-IsValid, clear-IsValid, insert_lem,
}

-- What was last stored under a key since the last `clear`, with its time; the abstract cache.
abbrev pub Stored : Type 0 → Type 0
Stored F = Text → Option (QueryResult F × ℕ)

module _ {F : Type 0} where
  abbrev pub nothing : Stored F
  nothing _ = none

  -- A result that is too large is not stored.
  abbrev pub put : Text → QueryResult F → ℕ → ResultCache F → Stored F → Stored F
  put key result now c s j =
      if too_large result c then s j else if text_eq key j then some (result, now) else s j

  pub data Reach : Stored F → ResultCache F → Type 0 where
    created : (c : ResultCache F) → IsValid c → c.entries ≡ [] → Reach nothing c
    got :
        {s : Stored F} {c : ResultCache F}
        → Reach s c
        → (key : Text) (now : ℕ) → Reach s (get key now c).0
    inserted :
        {s : Stored F} {c c' : ResultCache F}
        → Reach s c
        → (key : Text) (result : QueryResult F) (now : ℕ) → insert key result now c ≡ some c'
        → Reach (put key result now c s) c'
    cleared : {s : Stored F} {c : ResultCache F} → Reach s c → Reach nothing (clear c)

  -- Each entry is what was last stored under its key.
  pub record Agrees (s : Stored F) (c : ResultCache F) : Type 0 where
    pub valid : IsValid c
    pub current :
        (key : Text) (e : Entry F)
        → lookup key c.entries ≡ some e
        → s key ≡ some (e.result, e.inserted_at)

  lookup-get :
      (key j : Text) (now : ℕ) (c : ResultCache F) (e : Entry F)
      → IsValid c
      → lookup j (get key now c).0.entries ≡ some e
      → lookup j c.entries ≡ some e
  unfolding get
  lookup-get key j now c e v h = elim (Option-cases (lookup key c.entries)) [
    | inl a ↦ rw (a, get) at h
    | inr (x, a) ↦ elim (Bool-cases (is_fresh now c.ttl x)) [
      | inl young ↦ rw (a, get, young) at h
      | inr old ↦ (remove-Shrinks key c v.accounted).submap j e (rw (a, get, old) at h)
    ]
  ]

  get-Agrees :
      {s : Stored F} {c : ResultCache F} (key : Text) (now : ℕ)
      → Agrees s c
      → Agrees s (get key now c).0
  get-Agrees {s} {c} key now a = record {
    valid = get-IsValid key now c a.valid;
    current = λ j e h. a.current j e (lookup-get key j now c e a.valid h);
  }

  store_current :
      {s : Stored F} {c d : ResultCache F} (key : Text) (result : QueryResult F) (now : ℕ)
      → Agrees s c
      → Shrinks c d
      → too_large result c ≡ false
      → (j : Text) (e : Entry F) → lookup j (store key result now d).entries ≡ some e
      → put key result now c s j ≡ some (e.result, e.inserted_at)
  unfolding lookup
  store_current {s} {c} {d} key result now a sh small j e h = elim (Bool-cases (text_eq key j)) [
    | inl same ↦ rw (small, same) (ground (arith, h, same))
    | inr other ↦ rw (small, other) (a.current j e (sh.submap j e (rw other at h)))
  ]

  insert-Agrees :
      {s : Stored F} {c c' : ResultCache F} (key : Text) (result : QueryResult F) (now : ℕ)
      → Agrees s c
      → insert key result now c ≡ some c'
      → Agrees (put key result now c s) c'
  insert-Agrees {s} {c} {c'} key result now a h =
      let (d, e, v) = insert-IsValid key result now c a.valid in
      let valid : IsValid c' = subst IsValid (cc) v in
      elim (Bool-cases (too_large result c)) [
        | inl big ↦
            let kept : insert key result now c ≡ some c = unfold insert in rw big in
            let same : c' ≡ c = cc in
            record {
              valid = valid;
              current = λ j x k. rw big (
                  a.current j x
                    (subst (λ (y : ResultCache F). lookup j y.entries ≡ some x) same k));
            }
        | inr small ↦
            let (t, f, sh, room, absent) = insert_lem key result now c small a.valid in
            let same : c' ≡ store key result now t = cc in
            record {
              valid = valid;
              current = λ j x k.
                  store_current key result now a sh small j x
                    (subst (λ (y : ResultCache F). lookup j y.entries ≡ some x) same k);
            }
      ]

  Reach-Agrees : {s : Stored F} {c : ResultCache F} → Reach s c → Agrees s c
  unfolding lookup clear
  Reach-Agrees (created c v e) = record {
    valid = v;
    current = λ key x h. cc (subst (λ es. lookup key es ≡ some x) e h);
  }
  Reach-Agrees (got r key now) = get-Agrees key now (Reach-Agrees r)
  Reach-Agrees (inserted r key result now e) = insert-Agrees key result now (Reach-Agrees r) e
  Reach-Agrees (cleared {c = c} r) = record {
    valid = clear-IsValid c (Reach-Agrees r).valid;
    current = λ key x h. cc;
  }

  -- In every cache that a sequence of `get`, `insert` and `clear` reaches from a valid empty one, a
  -- hit is the result that was last stored under its key since the last `clear`, stored less than
  -- the time to live ago.
  pub get-current :
      {s : Stored F} {c : ResultCache F}
      → Reach s c
      → (key : Text) (now : ℕ) (result : QueryResult F) → (get key now c).1 ≡ some result
      → (t : ℕ) × (s key ≡ some (result, t)) × (now - t < c.ttl)
  unfolding get
  get-current {s} {c} r key now result h = elim (Option-cases (lookup key c.entries)) [
    | inl a ↦ let missed = rw (a, get) at h in cc
    | inr (x, a) ↦
        let stored = (Reach-Agrees r).current key x a in
        elim (Bool-cases (is_fresh now c.ttl x)) [
          | inl young ↦
              let hit = rw (a, get, young) at h in (x.inserted_at, cc, ground (arith, young))
          | inr old ↦ let missed = rw (a, get, old) at h in cc
        ]
  ]
