-- ===== src/Execute/Cache/Eviction.antt =====
-- src/execute/cache.rs: the loop of `insert` that makes room.
use mallard_cube.Prelude.{
  ℕ, zero, suc, ◌+◌, ◌-◌, ◌≤◌, ◌<◌, ◌≡◌, refl, ap, ◌∙◌, ◌⊎◌, inl, inr, true, false, Option, none,
  some, List, [], ◌∷◌, arith, leb, if◌then◌else◌, Bool-cases, Option-cases, length, any, List-cases,
  Text, text_eq, text_eq_refl, text_eq_iff,
}
use mallard_cube.Execute.Cache.{
  Entry, Entries, ResultCache, lookup, without, oldest, expired_keys, remove, evict, evict_all,
  has_room, evict_oldest, make_room,
}
use mallard_cube.Execute.Cache.Lookup.{
  Unique, total_bytes, lookup-without, without-Unique, total_bytes-without, length-without,
  lookup-oldest, oldest-eq-none,
}

module _ {F : Type 0} where
  -- No key twice, and the account is the sum over the entries.
  pub record IsAccounted (c : ResultCache F) : Type 0 where
    pub unique : Unique c.entries
    pub exact : c.bytes_used ≡ total_bytes c.entries

  -- `c'` is `c` with entries dropped, the account exact in both.
  pub record Shrinks (c c' : ResultCache F) : Type 0 where
    pub accounted : IsAccounted c'
    pub shorter : length c'.entries ≤ length c.entries
    pub lighter : c'.bytes_used ≤ c.bytes_used
    pub same_ttl : c'.ttl ≡ c.ttl
    pub same_capacity : c'.capacity ≡ c.capacity
    pub same_max_bytes : c'.max_bytes ≡ c.max_bytes
    pub submap :
        (j : Text) (e : Entry F) → lookup j c'.entries ≡ some e → lookup j c.entries ≡ some e

  pub Shrinks-refl : (c : ResultCache F) → IsAccounted c → Shrinks c c
  Shrinks-refl c a = record {
    accounted = a;
    shorter = omega arith;
    lighter = omega arith;
    same_ttl = refl;
    same_capacity = refl;
    same_max_bytes = refl;
    submap = λ j e h. h;
  }

  pub Shrinks-trans : {c d e : ResultCache F} → Shrinks c d → Shrinks d e → Shrinks c e
  Shrinks-trans p q = record {
    accounted = q.accounted;
    shorter = omega (arith, p.shorter, q.shorter);
    lighter = omega (arith, p.lighter, q.lighter);
    same_ttl = q.same_ttl ∙ p.same_ttl;
    same_capacity = q.same_capacity ∙ p.same_capacity;
    same_max_bytes = q.same_max_bytes ∙ p.same_max_bytes;
    submap = λ j x h. p.submap j x (q.submap j x h);
  }

  drop_entry :
      (key : Text) (c : ResultCache F) (e : Entry F) (gone : ℕ)
      → IsAccounted c
      → lookup key c.entries ≡ some e
      → Shrinks c (record c {
        entries = without key c.entries;
        bytes_used = c.bytes_used - e.bytes;
        evictions = gone;
      })
  drop_entry key c e gone a h = record {
    accounted = record {
      unique = without-Unique key c.entries a.unique;
      exact = omega (arith, a.exact, total_bytes-without key c.entries e h);
    };
    shorter = omega (arith, length-without key c.entries e h);
    lighter = omega arith;
    same_ttl = refl;
    same_capacity = refl;
    same_max_bytes = refl;
    submap = λ j x k. ground (arith, k, lookup-without key j c.entries a.unique);
  }

  pub evict-Shrinks : (key : Text) (c : ResultCache F) → IsAccounted c → Shrinks c (evict key c)
  unfolding evict
  evict-Shrinks key c a = elim (Option-cases (lookup key c.entries)) [
    | inl e ↦ rw (e, evict) (Shrinks-refl c a)
    | inr (x, e) ↦ rw (e, evict) (drop_entry key c x (c.evictions + 1) a e)
  ]

  pub remove-Shrinks : (key : Text) (c : ResultCache F) → IsAccounted c → Shrinks c (remove key c)
  unfolding remove
  remove-Shrinks key c a = elim (Option-cases (lookup key c.entries)) [
    | inl e ↦ rw (e, remove) (Shrinks-refl c a)
    | inr (x, e) ↦ rw (e, remove) (drop_entry key c x c.evictions a e)
  ]

  pub lookup-remove :
      (key : Text) (c : ResultCache F) → IsAccounted c → lookup key (remove key c).entries ≡ none
  unfolding remove
  lookup-remove key c a = elim (Option-cases (lookup key c.entries)) [
    | inl e ↦ rw (e, remove) e
    | inr (x, e) ↦
        rw (e, remove) (lookup-without key key c.entries a.unique ∙ rw (text_eq_refl key))
  ]

  length-evict :
      (key : Text) (c : ResultCache F) (e : Entry F)
      → lookup key c.entries ≡ some e
      → length (evict key c).entries < length c.entries
  unfolding evict
  length-evict key c e h = rw (h, evict) (omega (arith, length-without key c.entries e h))

  evict_all-Shrinks :
      (keys : List Text) (c : ResultCache F) → IsAccounted c → Shrinks c (evict_all keys c)
  unfolding evict_all
  evict_all-Shrinks [] c a = Shrinks-refl c a
  evict_all-Shrinks (k ∷ ks) c a =
      let first = evict-Shrinks k c a in
      Shrinks-trans first (evict_all-Shrinks ks (evict k c) first.accounted)

  length-evict_all :
      (k : Text) (ks : List Text) (c : ResultCache F) (e : Entry F)
      → IsAccounted c
      → lookup k c.entries ≡ some e
      → length (evict_all (k ∷ ks) c).entries < length c.entries
  unfolding evict_all
  length-evict_all k ks c e a h = omega (
    arith,
    length-evict k c e h,
    (evict_all-Shrinks ks (evict k c) (evict-Shrinks k c a).accounted).shorter,
  )

  expired_key-mem :
      (now ttl : ℕ) (es : Entries F) (k : Text) (ks : List Text)
      → expired_keys now ttl es ≡ k ∷ ks
      → (e : Entry F) × (lookup k es ≡ some e)
  unfolding expired_keys lookup
  expired_key-mem now ttl [] k ks h = cc
  expired_key-mem now ttl ((i, d) ∷ rest) k ks h = elim (Bool-cases (text_eq i k)) [
    | inl same ↦ (d, rw same)
    | inr other ↦ elim (Bool-cases (leb ttl (now - d.inserted_at))) [
      | inl old ↦ (d, ground (arith, text_eq_refl i))
      | inr young ↦
          let (e, p) = expired_key-mem now ttl rest k ks (rw young at h) in (e, rw other p)
    ]
  ]

  -- What the loop promises: it ends, with room, and has only dropped entries.
  abbrev pub MakesRoom : ℕ → ResultCache F → Option (ResultCache F) → Type 0
  MakesRoom bytes c r =
      (c' : ResultCache F) × (r ≡ some c') × Shrinks c c' × (has_room bytes c' ≡ true)

  empty_has_room :
      (bytes : ℕ) (c : ResultCache F)
      → IsAccounted c
      → 0 < c.capacity
      → (c.max_bytes ≡ 0) ⊎ (bytes ≤ c.max_bytes)
      → c.entries ≡ []
      → has_room bytes c ≡ true
  unfolding has_room
  empty_has_room bytes c a p q e =
      let used : c.bytes_used ≡ 0 = a.exact ∙ ap total_bytes e in
      let none_left : length c.entries ≡ 0 = ap length e in ground (arith, used, none_left)

  MakesRoom-trans :
      (bytes : ℕ) (c d : ResultCache F) (r : Option (ResultCache F))
      → Shrinks c d
      → MakesRoom bytes d r
      → MakesRoom bytes c r
  MakesRoom-trans bytes c d r s (c', e, t, room) = (c', e, Shrinks-trans s t, room)

  -- On a cache with an exact account, a capacity above zero and a budget that the new entry does
  -- not exceed, the loop that makes room ends within a round for each entry and one more; it has
  -- then only dropped entries, the account is still exact, and there is room.
  pub make_room_lem :
      (fuel now bytes : ℕ) (c : ResultCache F)
      → length c.entries < fuel
      → IsAccounted c
      → 0 < c.capacity
      → (c.max_bytes ≡ 0) ⊎ (bytes ≤ c.max_bytes)
      → MakesRoom bytes c (make_room fuel now bytes c)
  unfolding make_room evict_oldest
  make_room_lem zero now bytes c h a p q = absurd (omega arith)
  make_room_lem (suc fuel) now bytes c h a p q =
      let round : (d : ResultCache F)
          → Shrinks c d
          → length d.entries < length c.entries
          → MakesRoom bytes c (make_room fuel now bytes d) =
        λ d s shorter. MakesRoom-trans bytes c d _ s (
          make_room_lem fuel now bytes d (omega arith) s.accounted (omega (arith, s.same_capacity))
            (omega (arith, s.same_max_bytes))) in
      elim (Bool-cases (has_room bytes c)) [
        | inl room ↦ rw (room, make_room) (c, refl, Shrinks-refl c a, room)
        | inr full ↦
            rw (full, make_room)
              (elim (List-cases (expired_keys now c.ttl c.entries)) [
                | inl fresh ↦ rw fresh (elim (Option-cases (oldest c.entries)) [
                  | inl nothing ↦ absurd (
                      ground (
                        arith,
                        full,
                        empty_has_room bytes c a p q (oldest-eq-none c.entries nothing),
                      ))
                  | inr (m, e) ↦
                      rw (e, evict_oldest)
                        (round (evict m.0 c) (evict-Shrinks m.0 c a)
                          (length-evict m.0 c m.1 (lookup-oldest c.entries m a.unique e)))
                ])
                | inr (k, ks, e) ↦
                    let (x, found) = expired_key-mem now c.ttl c.entries k ks e in
                    rw e (
                      round (evict_all (k ∷ ks) c) (evict_all-Shrinks (k ∷ ks) c a)
                        (length-evict_all k ks c x a found))
              ])
      ]

  lookup-evict :
      (k j : Text) (c : ResultCache F)
      → IsAccounted c
      → lookup j (evict k c).entries ≡ (if text_eq k j then none else lookup j c.entries)
  unfolding evict
  lookup-evict k j c a = elim (Option-cases (lookup k c.entries)) [
    | inl e ↦ rw (e, evict) (ground (arith, e, text_eq_iff k j))
    | inr (x, e) ↦ rw (e, evict) (lookup-without k j c.entries a.unique)
  ]

  lookup-evict_all :
      (keys : List Text) (j : Text) (c : ResultCache F)
      → IsAccounted c
      → lookup j (evict_all keys c).entries
        ≡ (if any (λ k. text_eq k j) keys then none else lookup j c.entries)
  unfolding evict_all
  lookup-evict_all [] j c a = refl
  lookup-evict_all (k ∷ ks) j c a =
      lookup-evict_all ks j (evict k c) (evict-Shrinks k c a).accounted
      ∙ rw (lookup-evict k j c a) (ground arith)

  -- `lookup` that sees the fresh entries only.
  abbrev pub lookup_fresh : ℕ → ℕ → Text → Entries F → Option (Entry F)
  lookup_fresh now ttl j es = elim (lookup j es) [
    | none ↦ none
    | some e ↦ if leb ttl (now - e.inserted_at) then none else some e
  ]

  any-expired_absent :
      (now ttl : ℕ) (j : Text) (es : Entries F)
      → lookup j es ≡ none
      → any (λ k. text_eq k j) (expired_keys now ttl es) ≡ false
  unfolding expired_keys lookup
  any-expired_absent now ttl j [] h = refl
  any-expired_absent now ttl j ((k, e) ∷ rest) h =
      elim (Bool-cases (leb ttl (now - e.inserted_at))) [
        | inl old ↦ rw old (ground (arith, any-expired_absent now ttl j rest))
        | inr young ↦ rw young (ground (arith, any-expired_absent now ttl j rest))
      ]

  any-expired :
      (now ttl : ℕ) (j : Text) (es : Entries F)
      → Unique es
      → (if any (λ k. text_eq k j) (expired_keys now ttl es) then none else lookup j es)
        ≡ lookup_fresh now ttl j es
  unfolding expired_keys lookup
  any-expired now ttl j [] u = refl
  any-expired now ttl j ((k, e) ∷ rest) u =
      let absent = any-expired_absent now ttl j rest in
      let later = any-expired now ttl j rest u.1 in
      elim (Bool-cases (leb ttl (now - e.inserted_at))) [
        | inl old ↦ rw old (ground (arith, absent, later, u.0, text_eq_iff k j))
        | inr young ↦ rw young (ground (arith, absent, later, u.0, text_eq_iff k j))
      ]

  -- On a cache with an exact account, a round that drops the expired entries drops exactly those:
  -- under every key it leaves the entry if it is fresh, and nothing otherwise.
  pub evict_all-expired :
      (now : ℕ) (j : Text) (c : ResultCache F)
      → IsAccounted c
      → lookup j (evict_all (expired_keys now c.ttl c.entries) c).entries
        ≡ lookup_fresh now c.ttl j c.entries
  evict_all-expired now j c a =
      lookup-evict_all (expired_keys now c.ttl c.entries) j c a
      ∙ any-expired now c.ttl j c.entries a.unique
