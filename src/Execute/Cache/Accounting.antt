-- ===== src/Execute/Cache/Accounting.antt =====
-- src/execute/cache.rs: the limits of the cache and its account of bytes.
use mallard_cube.Prelude.{
  ℕ, ◌+◌, ◌-◌, ◌≤◌, ◌<◌, ◌≡◌, refl, true, false, Option, none, some, Text, text_eq_refl, arith,
  length, Bool-cases, Option-cases, inl, inr, ◌⊎◌,
}
use mallard_cube.Execute.Cache.{
  QueryResult, ResultCache, lookup, estimated_bytes, remove, has_room, is_fresh, get, insert, clear,
  store, too_large,
}
use mallard_cube.Execute.Cache.Eviction.{
  IsAccounted, Shrinks, Shrinks-trans, remove-Shrinks, lookup-remove, make_room_lem,
}

module _ {F : Type 0} where
  -- No key twice, the byte account exact, and both limits kept.
  pub record IsValid (c : ResultCache F) : Type 0 where
    pub accounted : IsAccounted c
    pub capacity_pos : 0 < c.capacity
    pub within_capacity : length c.entries ≤ c.capacity
    pub within_budget : (c.max_bytes ≡ 0) ⊎ (c.bytes_used ≤ c.max_bytes)

  Shrinks-IsValid : {c d : ResultCache F} → Shrinks c d → IsValid c → IsValid d
  Shrinks-IsValid s v = record {
    accounted = s.accounted;
    capacity_pos = omega (arith, s.same_capacity, v.capacity_pos);
    within_capacity = omega (arith, s.same_capacity, s.shorter, v.within_capacity);
    within_budget = omega (arith, s.same_max_bytes, s.lighter, v.within_budget);
  }

  submap_none :
      {c d : ResultCache F} (key : Text)
      → Shrinks c d
      → lookup key c.entries ≡ none
      → lookup key d.entries ≡ none
  submap_none {c} {d} key s h = elim (Option-cases (lookup key d.entries)) [
    | inl e ↦ e
    | inr (x, e) ↦ cc (s.submap key x e)
  ]

  fits_budget :
      (result : QueryResult F) (c : ResultCache F)
      → too_large result c ≡ false
      → (c.max_bytes ≡ 0) ⊎ (estimated_bytes result ≤ c.max_bytes)
  unfolding too_large
  fits_budget result c h = ground arith

  -- What `insert` returns when the result is not too large: the cache, shrunk until there is room,
  -- with the new entry in front. It does not hold the key twice.
  abbrev pub Inserted : Text → QueryResult F → ℕ → ResultCache F → Option (ResultCache F) → Type 0
  Inserted key result now c r =
      (d : ResultCache F) × (r ≡ some (store key result now d))
      × Shrinks c d
      × (has_room (estimated_bytes result) d ≡ true)
      × (lookup key d.entries ≡ none)

  pub insert_lem :
      (key : Text) (result : QueryResult F) (now : ℕ) (c : ResultCache F)
      → too_large result c ≡ false
      → IsValid c
      → Inserted key result now c (insert key result now c)
  unfolding insert
  insert_lem key result now c small v =
      let first = remove-Shrinks key c v.accounted in
      let (d, e, s, room) =
        make_room_lem (length c.entries + 1) now (estimated_bytes result) (remove key c)
          (omega (arith, first.shorter)) first.accounted
          (omega (arith, first.same_capacity, v.capacity_pos))
          (omega (arith, first.same_max_bytes, fits_budget result c small)) in
      (
        d,
        rw (small, e),
        Shrinks-trans first s,
        room,
        submap_none key s (lookup-remove key c v.accounted),
      )

  store-IsValid :
      (key : Text) (result : QueryResult F) (now : ℕ) (d : ResultCache F)
      → IsValid d
      → has_room (estimated_bytes result) d ≡ true
      → lookup key d.entries ≡ none
      → IsValid (store key result now d)
  unfolding has_room
  store-IsValid key result now d v room absent = record {
    accounted = record {
      unique = (absent, v.accounted.unique);
      exact = omega (arith, v.accounted.exact);
    };
    capacity_pos = v.capacity_pos;
    within_capacity = ground arith;
    within_budget = ground arith;
  }

  -- `insert` on a valid cache ends, whatever the key, the result and the time, and leaves a valid
  -- one: no key twice, the bytes in use exactly the sum over the entries, the number of entries
  -- within the capacity and the bytes within the budget, if there is one.
  pub insert-IsValid :
      (key : Text) (result : QueryResult F) (now : ℕ) (c : ResultCache F)
      → IsValid c
      → (c' : ResultCache F) × (insert key result now c ≡ some c') × IsValid c'
  insert-IsValid key result now c v = elim (Bool-cases (too_large result c)) [
    | inl big ↦ (c, unfold insert in rw big, v)
    | inr small ↦
        let (d, e, s, room, absent) = insert_lem key result now c small v in
        (
          store key result now d,
          e,
          store-IsValid key result now d (Shrinks-IsValid s v) room absent,
        )
  ]

  recount : (c : ResultCache F) (h m : ℕ) → IsValid c → IsValid (record c { hits = h; misses = m })
  recount c h m v = record {
    accounted = record { unique = v.accounted.unique; exact = v.accounted.exact };
    capacity_pos = v.capacity_pos;
    within_capacity = v.within_capacity;
    within_budget = v.within_budget;
  }

  -- `get` keeps a valid cache valid, whatever the key and the time.
  pub get-IsValid :
      (key : Text) (now : ℕ) (c : ResultCache F) → IsValid c → IsValid (get key now c).0
  unfolding get
  get-IsValid key now c v = elim (Option-cases (lookup key c.entries)) [
    | inl e ↦ rw (e, get) (recount c c.hits (c.misses + 1) v)
    | inr (x, e) ↦ elim (Bool-cases (is_fresh now c.ttl x)) [
      | inl young ↦ rw (e, get, young) (recount c (c.hits + 1) c.misses v)
      | inr old ↦
          rw (e, get, old)
            (recount (remove key c) (remove key c).hits (c.misses + 1)
              (Shrinks-IsValid (remove-Shrinks key c v.accounted) v))
    ]
  ]

  pub clear-IsValid : (c : ResultCache F) → IsValid c → IsValid (clear c)
  unfolding clear
  clear-IsValid c v = record {
    accounted = record { unique = tt; exact = refl };
    capacity_pos = v.capacity_pos;
    within_capacity = omega arith;
    within_budget = omega arith;
  }

  -- After `insert` of a result that is not too large into a valid cache, `get` of its key gives it,
  -- as long as the time since is below the time to live.
  pub get-insert :
      (key : Text) (result : QueryResult F) (now later : ℕ) (c : ResultCache F)
      → IsValid c
      → too_large result c ≡ false
      → later - now < c.ttl
      → (c' : ResultCache F) × (insert key result now c ≡ some c')
        × ((get key later c').1 ≡ some result)
  unfolding get lookup
  get-insert key result now later c v small young =
      let (d, e, s, room, absent) = insert_lem key result now c small v in
      (store key result now d, e, ground (arith, text_eq_refl key, s.same_ttl))
