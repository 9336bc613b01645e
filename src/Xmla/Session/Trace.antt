-- ===== src/Xmla/Session/Trace.antt =====
-- src/xmla/session.rs: sequences of calls, with a clock that does not run back.
use mallard_cube.Prelude.{
  ℕ, subst, ◌-◌, ◌≤◌, ◌≡◌, List, [], ◌∷◌, Bool, true, not, Text, text_eq, text_eq_refl, text_eq_iff,
  arith, any, keep, All, All-append, length, ltb, leb, Bool-cases, inl, inr,
}
use mallard_cube.Xmla.Session.{Registry, capacity, ttl, expire, make_room, begin, contains, end}
use mallard_cube.Xmla.Session.Order.{IsValid, begin-IsValid, contains-IsValid, end-IsValid}

-- `Reach now issued live`: some sequence of calls, the last at `now`, leaves the registry `live`
-- and has issued the ids `issued`.
pub data Reach : ℕ → List Text → Registry → Type 0 where
  start : {now : ℕ} → Reach now [] []
  begun :
      {last : ℕ} {ids : List Text} {live : Registry}
      → Reach last ids live
      → (id : Text) (checked issued : ℕ) → last ≤ checked
      → checked ≤ issued
      → Reach issued (id ∷ ids) (begin id checked issued live)
  asked :
      {last : ℕ} {ids : List Text} {live : Registry}
      → Reach last ids live
      → (id : Text) (now : ℕ) → last ≤ now
      → Reach now ids (contains id now live).0
  ended :
      {last : ℕ} {ids : List Text} {live : Registry}
      → Reach last ids live
      → (id : Text) (now : ℕ) → last ≤ now
      → Reach now ids (end id now live).0

-- Every registry that calls can reach, with a clock that does not run back, is in the order of
-- issue and within its capacity.
pub Reach-IsValid :
    {now : ℕ} {ids : List Text} {live : Registry} → Reach now ids live → IsValid now live
Reach-IsValid start = omega arith
Reach-IsValid (begun r id checked issued p q) =
    begin-IsValid id _ checked issued _ p q (Reach-IsValid r)
Reach-IsValid (asked r id now p) = contains-IsValid id _ now _ p (Reach-IsValid r)
Reach-IsValid (ended r id now p) = end-IsValid id _ now _ p (Reach-IsValid r)

abbrev Known : List Text → Text × ℕ → Type 0
Known ids s = any (text_eq s.0) ids ≡ true

expire-All :
    (P : Text × ℕ → Type 0) (now : ℕ) (live : Registry) → All P live → All P (expire now live)
unfolding expire
expire-All P now [] h = h
expire-All P now ((id, t) ∷ rest) h = elim (Bool-cases (ltb ttl (now - t))) [
  | inl e ↦ rw e (expire-All P now rest h.1)
  | inr e ↦ rw e h
]

make_room-All : (P : Text × ℕ → Type 0) (live : Registry) → All P live → All P (make_room live)
unfolding make_room
make_room-All P [] h = h
make_room-All P (s ∷ rest) h = elim (Bool-cases (leb capacity (length (s ∷ rest)))) [
  | inl e ↦ rw e (make_room-All P rest h.1)
  | inr e ↦ rw e h
]

keep-All :
    (P : Text × ℕ → Type 0) (q : Text × ℕ → Bool) (live : Registry)
    → All P live
    → All P (keep q live)
keep-All P q [] h = h
keep-All P q (s ∷ rest) h = elim (Bool-cases (q s)) [
  | inl e ↦ rw e (h.0, keep-All P q rest h.1)
  | inr e ↦ rw e (keep-All P q rest h.1)
]

Known-more :
    (id : Text) (ids : List Text) (live : Registry)
    → All (Known ids) live
    → All (Known (id ∷ ids)) live
Known-more id ids [] h = tt
Known-more id ids (s ∷ rest) h = (ground (arith, h.0), Known-more id ids rest h.1)

Reach-Known :
    {now : ℕ} {ids : List Text} {live : Registry} → Reach now ids live → All (Known ids) live
unfolding begin contains end
Reach-Known start = tt
Reach-Known (begun {last} {ids} {live} r id checked issued p q) =
    All-append (Known (id ∷ ids)) (make_room (expire checked live)) ((id, issued) ∷ [])
      (make_room-All (Known (id ∷ ids)) (expire checked live)
        (expire-All (Known (id ∷ ids)) checked live (Known-more id ids live (Reach-Known r))))
      (ground (arith, text_eq_refl id), tt)
Reach-Known (asked {ids = ids} {live = live} r id now p) =
    expire-All (Known ids) now live (Reach-Known r)
Reach-Known (ended {ids = ids} {live = live} r id now p) =
    keep-All (Known ids) (λ s. not (text_eq s.0 id)) (expire now live)
      (expire-All (Known ids) now live (Reach-Known r))

any-Known :
    (ids : List Text) (id : Text) (live : Registry)
    → All (Known ids) live
    → any (λ (s : Text × ℕ). text_eq s.0 id) live ≡ true
    → any (text_eq id) ids ≡ true
any-Known ids id [] h e = cc
any-Known ids id (s ∷ rest) h e = elim (Bool-cases (text_eq s.0 id)) [
  | inl same ↦ subst (λ i. any (text_eq i) ids ≡ true) ((text_eq_iff s.0 id).0 same) h.0
  | inr other ↦ any-Known ids id rest h.1 (ground arith)
]

-- After any sequence of calls with a clock that does not run back, an id is live only if the
-- registry has issued it.
pub contains-issued :
    {now : ℕ} {ids : List Text} {live : Registry}
    → Reach now ids live
    → (id : Text) (later : ℕ) → (contains id later live).1 ≡ true
    → any (text_eq id) ids ≡ true
unfolding contains
contains-issued {ids = ids} {live = live} r id later h =
    any-Known ids id (expire later live) (expire-All (Known ids) later live (Reach-Known r)) h
