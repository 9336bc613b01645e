-- ===== src/Tests/Caching.antt =====
-- src/execute/cache.rs at a small cache of numbers.
use mallard_cube.Prelude.{ℕ, ◌-◌, ◌<◌, ◌≡◌, refl, inr, false, some, [], ◌∷◌, arith, codes, text_eq}
use mallard_cube.Execute.Cache.{
  scalar, Entry, ResultCache, lookup, oldest, get, insert, clear, store, too_large, estimated_bytes,
  remove, make_room, has_room,
}
use mallard_cube.Execute.Cache.Eviction.{IsAccounted}
use mallard_cube.Execute.Cache.Accounting.{IsValid, insert-IsValid, clear-IsValid, get-insert}
use mallard_cube.Execute.Cache.History.{Reach, created, get-current, put, nothing}

abbrev entry : ℕ → ℕ → Entry ℕ
entry v at = record { result = scalar v; inserted_at = at; bytes = 16 }

-- Two entries of sixteen bytes, room for two entries and for forty bytes.
abbrev small : ResultCache ℕ
small = record {
  ttl = 60;
  capacity = 2;
  max_bytes = 40;
  entries = (codes "a", entry 1 100) ∷ (codes "b", entry 2 130) ∷ [];
  bytes_used = 32;
  hits = 0;
  misses = 0;
  evictions = 0;
}

small-IsAccounted : IsAccounted small
unfolding lookup text_eq
small-IsAccounted = record { unique = (refl, (refl, tt)); exact = refl }

small-IsValid : IsValid small
small-IsValid = record {
  accounted = small-IsAccounted;
  capacity_pos = omega arith;
  within_capacity = omega arith;
  within_budget = inr (omega arith);
}

abbrev fresh_cache : ResultCache ℕ
fresh_cache = record {
  ttl = 60;
  capacity = 2;
  max_bytes = 40;
  entries = [];
  bytes_used = 0;
  hits = 0;
  misses = 0;
  evictions = 0;
}

fresh_cache-IsValid : IsValid fresh_cache
fresh_cache-IsValid = record {
  accounted = record { unique = tt; exact = refl };
  capacity_pos = omega arith;
  within_capacity = omega arith;
  within_budget = inr (omega arith);
}

-- A result of sixteen bytes is stored under "a" at 100, in an empty cache.
abbrev stored_at_100 : ResultCache ℕ
stored_at_100 = store (codes "a") (scalar 7) 100 fresh_cache

inserted_at_100 : insert (codes "a") (scalar 7) 100 fresh_cache ≡ some stored_at_100
unfolding insert make_room remove lookup has_room too_large estimated_bytes
inserted_at_100 = refl

abbrev history : Reach (put (codes "a") (scalar 7) 100 fresh_cache nothing) stored_at_100
history =
    Reach.inserted (created fresh_cache fresh_cache-IsValid refl) (codes "a") (scalar 7) 100
      inserted_at_100

hit_at_130 : (get (codes "a") 130 stored_at_100).1 ≡ some (scalar 7)
unfolding get lookup text_eq
hit_at_130 = refl

get-current_example :
    (t : ℕ) × (put (codes "a") (scalar 7) 100 fresh_cache nothing (codes "a") ≡ some (scalar 7, t))
    × (130 - t < 60)
get-current_example = get-current history (codes "a") 130 (scalar 7) hit_at_130

insert-IsValid_example :
    (c' : ResultCache ℕ) × (insert (codes "c") (scalar 3) 170 small ≡ some c') × IsValid c'
insert-IsValid_example = insert-IsValid (codes "c") (scalar 3) 170 small small-IsValid

clear-IsValid_example : IsValid (clear small)
clear-IsValid_example = clear-IsValid small small-IsValid

fits : too_large (scalar 3) small ≡ false
unfolding too_large estimated_bytes
fits = refl

get-insert_example :
    (c' : ResultCache ℕ) × (insert (codes "c") (scalar 3) 170 small ≡ some c')
    × ((get (codes "c") 200 c').1 ≡ some (scalar 3))
get-insert_example =
    get-insert (codes "c") (scalar 3) 170 200 small small-IsValid fits (omega arith)

oldest_of_small : oldest small.entries ≡ some (codes "a", entry 1 100)
unfolding oldest
oldest_of_small = refl
