-- ===== src/Xmla/Session/Order.antt =====
-- src/xmla/session.rs: the order and the size of the registry.
use mallard_cube.Prelude.{
  ℕ, ◌-◌, ◌≤◌, ◌<◌, [], ◌∷◌, ◌++◌, Bool, not, Text, text_eq, arith, length, length-append, keep,
  length-keep, ltb, leb, Bool-cases, inl, inr,
}
use mallard_cube.Xmla.Session.{Registry, capacity, ttl, expire, make_room, begin, contains, end}

-- Issue times do not fall from the front to the back, and lie between `lo` and `hi`.
abbrev pub Sorted : ℕ → ℕ → Registry → Type 0
Sorted lo hi [] = lo ≤ hi
Sorted lo hi (s ∷ rest) = (lo ≤ s.1) × Sorted s.1 hi rest

pub Sorted-le : (lo hi : ℕ) (live : Registry) → Sorted lo hi live → lo ≤ hi
Sorted-le lo hi [] h = h
Sorted-le lo hi (s ∷ rest) h = omega (arith, Sorted-le s.1 hi rest h.1)

pub Sorted-weaken :
    (lo lo' hi hi' : ℕ) (live : Registry)
    → lo' ≤ lo
    → hi ≤ hi'
    → Sorted lo hi live
    → Sorted lo' hi' live
Sorted-weaken lo lo' hi hi' [] p q h = omega arith
Sorted-weaken lo lo' hi hi' (s ∷ rest) p q h =
    (omega arith, Sorted-weaken s.1 s.1 hi hi' rest (omega arith) q h.1)

expire-Sorted :
    (now lo hi : ℕ) (live : Registry) → Sorted lo hi live → Sorted lo hi (expire now live)
unfolding expire
expire-Sorted now lo hi [] h = h
expire-Sorted now lo hi ((id, t) ∷ rest) h = elim (Bool-cases (ltb ttl (now - t))) [
  | inl e ↦
      rw e (expire-Sorted now lo hi rest (Sorted-weaken t lo hi hi rest h.0 (omega arith) h.1))
  | inr e ↦ rw e h
]

Sorted-append :
    (lo hi t : ℕ) (id : Text) (live : Registry)
    → hi ≤ t
    → Sorted lo hi live
    → Sorted lo t (live ++ (id, t) ∷ [])
Sorted-append lo hi t id [] p h = (omega arith, omega arith)
Sorted-append lo hi t id (s ∷ rest) p h = (h.0, Sorted-append s.1 hi t id rest p h.1)

make_room-Sorted : (lo hi : ℕ) (live : Registry) → Sorted lo hi live → Sorted lo hi (make_room live)
unfolding make_room
make_room-Sorted lo hi [] h = h
make_room-Sorted lo hi (s ∷ rest) h = elim (Bool-cases (leb capacity (length (s ∷ rest)))) [
  | inl e ↦
      rw e (make_room-Sorted lo hi rest (Sorted-weaken s.1 lo hi hi rest h.0 (omega arith) h.1))
  | inr e ↦ rw e h
]

keep-Sorted :
    (p : Text × ℕ → Bool) (lo hi : ℕ) (live : Registry)
    → Sorted lo hi live
    → Sorted lo hi (keep p live)
keep-Sorted p lo hi [] h = h
keep-Sorted p lo hi (s ∷ rest) h = elim (Bool-cases (p s)) [
  | inl e ↦ rw e (h.0, keep-Sorted p s.1 hi rest h.1)
  | inr e ↦ rw e (keep-Sorted p lo hi rest (Sorted-weaken s.1 lo hi hi rest h.0 (omega arith) h.1))
]

length-expire : (now : ℕ) (live : Registry) → length (expire now live) ≤ length live
unfolding expire
length-expire now [] = omega arith
length-expire now ((id, t) ∷ rest) = ground (arith, length-expire now rest)

length-make_room : (live : Registry) → length (make_room live) < capacity
unfolding make_room
length-make_room [] = omega arith
length-make_room (s ∷ rest) = ground (arith, length-make_room rest)

-- What holds of the registry at every moment `now`.
pub record IsValid (now : ℕ) (live : Registry) : Type 0 where
  pub sorted : Sorted 0 now live
  pub bounded : length live ≤ capacity

pub begin-IsValid :
    (id : Text) (last checked issued : ℕ) (live : Registry)
    → last ≤ checked
    → checked ≤ issued
    → IsValid last live
    → IsValid issued (begin id checked issued live)
unfolding begin
begin-IsValid id last checked issued live p q v = record {
  sorted =
      Sorted-append 0 last issued id (make_room (expire checked live)) (omega arith) (
        make_room-Sorted 0 last (expire checked live) (expire-Sorted checked 0 last live v.sorted));
  bounded = omega (
    arith,
    length-append (make_room (expire checked live)) ((id, issued) ∷ []),
    length-make_room (expire checked live),
  );
}

pub contains-IsValid :
    (id : Text) (last now : ℕ) (live : Registry)
    → last ≤ now
    → IsValid last live
    → IsValid now (contains id now live).0
unfolding contains
contains-IsValid id last now live p v = record {
  sorted =
      Sorted-weaken 0 0 last now (expire now live) (omega arith) p
        (expire-Sorted now 0 last live v.sorted);
  bounded = omega (arith, v.bounded, length-expire now live);
}

pub end-IsValid :
    (id : Text) (last now : ℕ) (live : Registry)
    → last ≤ now
    → IsValid last live
    → IsValid now (end id now live).0
unfolding end
end-IsValid id last now live p v =
    let p' = λ (s : Text × ℕ). not (text_eq s.0 id) in
    record {
      sorted =
          Sorted-weaken 0 0 last now (keep p' (expire now live)) (omega arith) p
            (keep-Sorted p' 0 last (expire now live) (expire-Sorted now 0 last live v.sorted));
      bounded = omega (arith, v.bounded, length-expire now live, length-keep p' (expire now live));
    }
