-- ===== src/Xmla/Session/Live.antt =====
-- src/xmla/session.rs: which sessions are live.
use mallard_cube.Prelude.{
  ℕ, ◌+◌, ◌-◌, ◌≤◌, ◌≡◌, refl, sym, ap, ◌∙◌, [], ◌∷◌, ◌++◌, Bool, true, not, ◌&&◌, Text, text_eq,
  text_eq_refl, text_eq_iff, text_eq_iff, arith, any, any-append, keep,
}
use mallard_cube.Xmla.Session.{Registry, ttl, fresh, expire, make_room, begin, contains, end}
use mallard_cube.Xmla.Session.Order.{Sorted, IsValid, begin-IsValid, end-IsValid}

abbrev named : Text → Text × ℕ → Bool
named id s = text_eq s.0 id

keep_young :
    (now lo hi : ℕ) (live : Registry)
    → now - lo ≤ ttl
    → Sorted lo hi live
    → keep (fresh now) live ≡ live
keep_young now lo hi [] p h = refl
keep_young now lo hi ((id, t) ∷ rest) p h = ground (arith, keep_young now t hi rest, h.0, h.1)

-- In a registry in the order of issue, dropping from the front until a session is young enough
-- leaves exactly the sessions that are young enough.
pub expire-eq-keep :
    (now lo hi : ℕ) (live : Registry) → Sorted lo hi live → expire now live ≡ keep (fresh now) live
unfolding expire
expire-eq-keep now lo hi [] h = refl
expire-eq-keep now lo hi ((id, t) ∷ rest) h =
    ground (arith, expire-eq-keep now t hi rest, keep_young now t hi rest, h.1)

-- On a valid registry `contains` answers for every session, not only for those in front: true
-- exactly if some session has this id and is not older than the time to live.
pub contains-eq-any :
    (id : Text) (last now : ℕ) (live : Registry)
    → IsValid last live
    → (contains id now live).1 ≡ any (λ (s : Text × ℕ). text_eq s.0 id && fresh now s) live
unfolding contains
contains-eq-any id last now live v = rw (expire-eq-keep now 0 last live v.sorted) (any-keep live)
  where
    any-keep :
        (l : Registry)
        → any (named id) (keep (fresh now) l)
          ≡ any (λ (s : Text × ℕ). text_eq s.0 id && fresh now s) l
    any-keep [] = refl
    any-keep ((i, t) ∷ rest) = ground (arith, any-keep rest)

any-make_room_last :
    (q : Text × ℕ → Bool) (live : Registry) (s : Text × ℕ)
    → q s ≡ true
    → any q (live ++ s ∷ []) ≡ true
any-make_room_last q live s h = rw any-append (ground arith)

-- On a valid registry, with a clock that does not run back, a session that has just begun is live
-- until the time to live is over, whatever the registry held.
pub contains-begin :
    (id : Text) (last checked issued now : ℕ) (live : Registry)
    → last ≤ checked
    → checked ≤ issued
    → now ≤ issued + ttl
    → IsValid last live
    → (contains id now (begin id checked issued live)).1 ≡ true
contains-begin id last checked issued now live p q r v =
    contains-eq-any id issued now (begin id checked issued live)
      (begin-IsValid id last checked issued live p q v)
    ∙ unfold begin in
      any-make_room_last (λ s. text_eq s.0 id && fresh now s) (make_room (expire checked live))
        (id, issued) (ground (arith, text_eq_refl id))

any-ended :
    (id other : Text) (now later : ℕ) (l : Registry)
    → now ≤ later
    → any
        (λ (s : Text × ℕ). text_eq s.0 other && fresh later s)
        (keep (λ (s : Text × ℕ). not (text_eq s.0 id)) (keep (fresh now) l))
      ≡ (not (text_eq other id) && any (λ (s : Text × ℕ). text_eq s.0 other && fresh later s) l)
any-ended id other now later [] h = ground arith
any-ended id other now later ((i, t) ∷ rest) h = ground (
  arith,
  text_eq_iff i other,
  text_eq_iff i id,
  text_eq_iff other id,
  any-ended id other now later rest,
)

-- After `end` on a valid registry, with a clock that does not run back, the session with this id is
-- not live, and every other session is as live as it would have been.
pub contains-end :
    (id other : Text) (last now later : ℕ) (live : Registry)
    → last ≤ now
    → now ≤ later
    → IsValid last live
    → (contains other later (end id now live).0).1
      ≡ (not (text_eq other id) && (contains other later live).1)
contains-end id other last now later live p q v =
    contains-eq-any other now later (end id now live).0 (end-IsValid id last now live p v)
    ∙ unfold end in
      rw (expire-eq-keep now 0 last live v.sorted) (any-ended id other now later live q)
      ∙ ap (λ b. not (text_eq other id) && b) (sym (contains-eq-any other last later live v))
