-- ===== src/Xmla/Session.antt =====
-- src/xmla/session.rs: the bounded, expiring registry of the session ids that the proxy issued.
-- The lock makes each method atomic, so a method is a function of the registry. Times are the
-- readings of `Instant::now`, in seconds.
pub mod Order
pub mod Live
pub mod Trace
use mallard_cube.Prelude.{
  ℕ, ◌-◌, ◌*◌, List, [], ◌∷◌, ◌++◌, Bool, not, Text, text_eq, ltb, leb, ◌==◌, length, any, keep,
  if◌then◌else◌,
}

abbrev pub capacity : ℕ
capacity = 1024

abbrev pub ttl : ℕ
ttl = 30 * 60

-- `VecDeque<(String, Instant)>`, the front first.
abbrev pub Registry : Type 0
Registry = List (Text × ℕ)

abbrev pub fresh : ℕ → Text × ℕ → Bool
fresh now (id, issued) = not (ltb ttl (now - issued))

-- `expire` looks at the front only, and stops at the first session that is not too old.
unfoldable pub expire : ℕ → Registry → Registry
expire now [] = []
expire now ((id, issued) ∷ rest) =
    if ltb ttl (now - issued) then expire now rest else (id, issued) ∷ rest

-- `while live.len() >= CAPACITY { live.pop_front(); }`
unfoldable pub make_room : Registry → Registry
make_room [] = []
make_room (s ∷ rest) = if leb capacity (length (s ∷ rest)) then make_room rest else s ∷ rest

-- The clock is read twice: `checked` by `expire`, `issued` for the new entry. The id comes from the
-- uuid generator.
unfoldable pub begin : Text → ℕ → ℕ → Registry → Registry
unfolding expire make_room
begin id checked issued live = make_room (expire checked live) ++ (id, issued) ∷ []

unfoldable pub contains : Text → ℕ → Registry → Registry × Bool
unfolding expire text_eq
contains id now live =
    let left = expire now live in (left, any (λ (s : Text × ℕ). text_eq s.0 id) left)

unfoldable pub end : Text → ℕ → Registry → Registry × Bool
unfolding expire text_eq
end id now live =
    let before = expire now live in
    let after = keep (λ (s : Text × ℕ). not (text_eq s.0 id)) before in
    (after, not (length after == length before))
