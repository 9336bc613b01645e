-- ===== src/Execute/Cache.antt =====
-- src/execute/cache.rs: the short-lived cache of query results.
-- A method holds the lock from its first read of the entries to its end, so it is a function of
-- the cache; `now` is the clock during the method, which the lock keeps short. The counters wrap at
-- 2 ^ 64 (`AtomicU64`), which no process reaches, and are plain numbers here.
pub mod Accounting
pub mod Eviction
pub mod History
pub mod Lookup
use mallard_cube.Prelude.{
  ℕ, zero, suc, ◌+◌, ◌-◌, ◌*◌, List, [], ◌∷◌, Bool, true, false, ◌&&◌, ◌||◌, Option, none, some,
  Text, text_eq, ltb, leb, ◌==◌, length, if◌then◌else◌, max,
}

-- `QueryResult` of src/engine/plan.rs. The values are floating-point numbers, `F`.
pub data QueryResult (F : Type 0) : Type 0 where
  scalar : F → QueryResult F
  grouped : List (Text × F) → QueryResult F
  pairs : List (Text × Text × F) → QueryResult F
  count : ℕ → QueryResult F
  multi : List F → QueryResult F
  multi_grouped : List (Text × List F) → QueryResult F
  multi_grouped2 : List (Text × Text × List F) → QueryResult F
  multi_grouped_n : List (List Text × List F) → QueryResult F
  empty : QueryResult F

abbrev element : ℕ
element = 24

abbrev pub sum_of {ℓ} : {A : Type ℓ} → (A → ℕ) → List A → ℕ
sum_of f [] = 0
sum_of f (x ∷ xs) = f x + sum_of f xs

raw_bytes : {F : Type 0} → QueryResult F → ℕ
raw_bytes (scalar _) = 16
raw_bytes (count _) = 16
raw_bytes empty = 0
raw_bytes (multi values) = length values * 8 + element
raw_bytes (grouped rows) = sum_of (λ (r : Text × _). length r.0 + 16 + element) rows
raw_bytes (pairs rows) =
    sum_of (λ (r : Text × Text × _). length r.0 + length r.1 + 24 + element) rows
raw_bytes (multi_grouped rows) =
    sum_of (λ (r : Text × List _). length r.0 + length r.1 * 8 + element) rows
raw_bytes (multi_grouped2 rows) =
    sum_of (λ (r : Text × Text × List _). length r.0 + length r.1 + length r.2 * 8 + element) rows
raw_bytes (multi_grouped_n rows) =
    sum_of
      (λ (r : List Text × List _).
        sum_of (λ (key : Text). length key + element) r.0 + length r.1 * 8 + element)
      rows

-- The approximate footprint of a result, at least 16.
unfoldable pub estimated_bytes : {F : Type 0} → QueryResult F → ℕ
unfolding raw_bytes
estimated_bytes r = max (raw_bytes r) 16

pub record Entry (F : Type 0) : Type 0 where
  pub result : QueryResult F
  pub inserted_at : ℕ
  pub bytes : ℕ

-- `HashMap<String, Entry>`, in the order in which the map iterates.
abbrev pub Entries : Type 0 → Type 0
Entries F = List (Text × Entry F)

pub record ResultCache (F : Type 0) : Type 0 where
  pub ttl : ℕ
  pub capacity : ℕ
  pub max_bytes : ℕ
  pub entries : Entries F
  pub bytes_used : ℕ
  pub hits : ℕ
  pub misses : ℕ
  pub evictions : ℕ

module _ {F : Type 0} where
  unfoldable pub lookup : Text → Entries F → Option (Entry F)
  lookup key [] = none
  lookup key ((k, e) ∷ rest) = if text_eq k key then some e else lookup key rest

  unfoldable pub without : Text → Entries F → Entries F
  without key [] = []
  without key ((k, e) ∷ rest) = if text_eq k key then rest else (k, e) ∷ without key rest

  abbrev pub is_fresh : ℕ → ℕ → Entry F → Bool
  is_fresh now ttl e = ltb (now - e.inserted_at) ttl

  -- `min_by_key(|(_, entry)| entry.inserted_at)`: the first of the entries with the least time.
  unfoldable pub oldest : Entries F → Option (Text × Entry F)
  oldest [] = none
  oldest (e ∷ rest) = elim (oldest rest) [
    | none ↦ some e
    | some m ↦ if leb e.1.inserted_at m.1.inserted_at then some e else some m
  ]

  -- `entries.remove(&key)`, with the bytes taken off the account.
  unfoldable pub remove : Text → ResultCache F → ResultCache F
  remove key c = elim (lookup key c.entries) [
    | none ↦ c
    | some e ↦ record c { entries = without key c.entries; bytes_used = c.bytes_used - e.bytes }
  ]

  -- A removal that the counter of evictions counts.
  unfoldable pub evict : Text → ResultCache F → ResultCache F
  evict key c = elim (lookup key c.entries) [
    | none ↦ c
    | some e ↦ record c {
      entries = without key c.entries;
      bytes_used = c.bytes_used - e.bytes;
      evictions = c.evictions + 1;
    }
  ]

  unfoldable pub evict_all : List Text → ResultCache F → ResultCache F
  evict_all [] c = c
  evict_all (k ∷ ks) c = evict_all ks (evict k c)

  unfoldable pub expired_keys : ℕ → ℕ → Entries F → List Text
  expired_keys now ttl [] = []
  expired_keys now ttl ((k, e) ∷ rest) =
      let later = expired_keys now ttl rest in
      if leb ttl (now - e.inserted_at) then k ∷ later else later

  unfoldable pub has_room : ℕ → ResultCache F → Bool
  has_room bytes c =
      ltb (length c.entries) c.capacity
      && (c.max_bytes == 0 || leb (c.bytes_used + bytes) c.max_bytes)

  unfoldable pub evict_oldest :
      ResultCache F → (ResultCache F → Option (ResultCache F)) → Option (ResultCache F)
  evict_oldest c again = elim (oldest c.entries) [ none ↦ some c | some m ↦ again (evict m.0 c) ]

  -- The loop of `insert`: expired entries first, then the oldest, until there is room. `none` means
  -- that the fuel ran out.
  unfoldable pub make_room : ℕ → ℕ → ℕ → ResultCache F → Option (ResultCache F)
  make_room zero now bytes c = none
  make_room (suc fuel) now bytes c = elim (has_room bytes c) [
    | true ↦ some c
    | false ↦ elim (expired_keys now c.ttl c.entries) [
      | k ∷ ks ↦ make_room fuel now bytes (evict_all (k ∷ ks) c)
      | [] ↦ evict_oldest c (make_room fuel now bytes)
    ]
  ]

  -- A fresh entry is a hit; an expired one is dropped on access.
  unfoldable pub get : Text → ℕ → ResultCache F → ResultCache F × Option (QueryResult F)
  get key now c = elim (lookup key c.entries) [
    | none ↦ (record c { misses = c.misses + 1 }, none)
    | some e ↦
        if is_fresh now c.ttl e
        then (record c { hits = c.hits + 1 }, some e.result)
        else (record (remove key c) { misses = c.misses + 1 }, none)
  ]

  abbrev pub store : Text → QueryResult F → ℕ → ResultCache F → ResultCache F
  store key result now c = record c {
    entries =
        (key, record { result = result; inserted_at = now; bytes = estimated_bytes result })
        ∷ c.entries;
    bytes_used = c.bytes_used + estimated_bytes result;
  }

  unfoldable pub too_large : QueryResult F → ResultCache F → Bool
  too_large result c = ltb 0 c.max_bytes && ltb c.max_bytes (estimated_bytes result)

  -- A result above the whole budget is not stored. The fuel is enough: each round drops an entry.
  unfoldable pub insert : Text → QueryResult F → ℕ → ResultCache F → Option (ResultCache F)
  insert key result now c =
      if too_large result c
      then some c
      else elim (make_room (length c.entries + 1) now (estimated_bytes result) (remove key c)) [
        | none ↦ none
        | some c' ↦ some (store key result now c')
      ]

  unfoldable pub clear : ResultCache F → ResultCache F
  clear c = record c { entries = []; bytes_used = 0 }
