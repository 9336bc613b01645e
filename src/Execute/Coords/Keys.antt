-- ===== src/Execute/Coords/Keys.antt =====
-- src/execute/coords.rs: the lookup keys of coordinates and of rows.
use mallard_cube.Prelude.{
  ℕ, suc, ◌≡◌, refl, ap, ◌∙◌, Bool, true, false, ◌&&◌, Option, none, some, List, [], ◌∷◌, ◌++◌,
  append_assoc, arith, ◌==◌, length, is_empty, any, All, Text, text_eq,
}
use mallard_cube.Execute.Coords.{Coord, separator, push, key_from, coord_key, join, kept}
use mallard_cube.Execute.Coords.Bits.{Agree}

abbrev pub NoSep : Text → Type 0
NoSep t = any (λ c. c == separator) t ≡ false

abbrev pub NoSepSlot : Option Text → Type 0
NoSepSlot none = Unit
NoSepSlot (some t) = NoSep t × (is_empty t ≡ false)

-- The members that a coordinate names, and the keys of a row in those slots.
abbrev pub specified : Coord → List Text
specified [] = []
specified (none ∷ rest) = specified rest
specified (some t ∷ rest) = t ∷ specified rest

abbrev pub select : Coord → List Text → List Text
select [] keys = keys
select (slot ∷ rest) [] = []
select (none ∷ rest) (k ∷ ks) = select rest ks
select (some t ∷ rest) (k ∷ ks) = k ∷ select rest ks

-- A row is at a coordinate: it has the coordinate's member in each slot but the (All) slots.
abbrev pub matches : Coord → List Text → Bool
matches [] [] = true
matches (none ∷ rest) (k ∷ ks) = matches rest ks
matches (some t ∷ rest) (k ∷ ks) = text_eq k t && matches rest ks
matches _ _ = false

-- `join_onto key ts` pushes the texts of `ts` onto `key`, one after the other.
join_onto : Text → List Text → Text
join_onto key [] = key
join_onto key (t ∷ ts) = join_onto (push key t) ts

key_from-eq :
    (key : Text) (i mask : ℕ) (coord : Coord)
    → Agree i mask coord
    → key_from key i mask coord ≡ join_onto key (specified coord)
unfolding key_from join_onto
key_from-eq key i mask [] a = refl
key_from-eq key i mask (none ∷ rest) a = rw a.0 (key_from-eq key (suc i) mask rest a.1)
key_from-eq key i mask (some t ∷ rest) a = rw a.0 (key_from-eq (push key t) (suc i) mask rest a.1)

join-append : (a b : Text) (ts : List Text) → join ((a ++ b) ∷ ts) ≡ a ++ join (b ∷ ts)
unfolding join
join-append a b [] = refl
join-append a b (t ∷ ts) = append_assoc a b (separator ∷ join (t ∷ ts))

push-nonempty : (key t : Text) → is_empty key ≡ false → is_empty (push key t) ≡ false
push-nonempty [] t h = cc
push-nonempty (c ∷ key) t h = refl

join-push :
    (key t : Text) (ts : List Text)
    → is_empty key ≡ false
    → join (push key t ∷ ts) ≡ key ++ separator ∷ join (t ∷ ts)
join-push [] t ts h = cc
join-push (c ∷ key) t ts h = rw (append_assoc (c ∷ key) (separator ∷ []) t) (
    join-append (c ∷ key) (separator ∷ t) ts
    ∙ ap (λ r. (c ∷ key) ++ r) (join-append (separator ∷ []) t ts))

join_onto-eq :
    (key : Text) (ts : List Text) → is_empty key ≡ false → join_onto key ts ≡ join (key ∷ ts)
unfolding join_onto join
join_onto-eq key [] h = refl
join_onto-eq key (t ∷ ts) h =
    join_onto-eq (push key t) ts (push-nonempty key t h) ∙ join-push key t ts h

join_onto-nil :
    (coord : Coord) → All NoSepSlot coord → join_onto [] (specified coord) ≡ join (specified coord)
unfolding join_onto
join_onto-nil [] h = unfold join in refl
join_onto-nil (none ∷ rest) h = join_onto-nil rest h.1
join_onto-nil (some t ∷ rest) h = join_onto-eq t (specified rest) h.0.1

-- The key of a coordinate joins the members that it names.
pub coord_key-eq :
    (coord : Coord) (mask : ℕ)
    → Agree 0 mask coord
    → All NoSepSlot coord
    → coord_key coord mask ≡ join (specified coord)
unfolding coord_key
coord_key-eq coord mask a h = key_from-eq [] 0 mask coord a ∙ join_onto-nil coord h

kept-eq :
    (mask i : ℕ) (coord : Coord) (keys : List Text)
    → Agree i mask coord
    → length keys ≡ length coord
    → kept mask i keys ≡ select coord keys
unfolding kept
kept-eq mask i [] [] a h = refl
kept-eq mask i [] (k ∷ ks) a h = absurd (omega arith)
kept-eq mask i (slot ∷ rest) [] a h = refl
kept-eq mask i (none ∷ rest) (k ∷ ks) a h = rw a.0 (kept-eq mask (suc i) rest ks a.1 (omega arith))
kept-eq mask i (some t ∷ rest) (k ∷ ks) a h =
    rw a.0 (ap (λ r. k ∷ r) (kept-eq mask (suc i) rest ks a.1 (omega arith)))

-- Two texts without the separator, each followed by it.
text_eq-separated :
    (x y a b : Text)
    → NoSep x
    → NoSep y
    → text_eq (x ++ separator ∷ a) (y ++ separator ∷ b) ≡ (text_eq x y && text_eq a b)
unfolding text_eq
text_eq-separated [] [] a b h k = refl
text_eq-separated [] (d ∷ y) a b h k = ground arith
text_eq-separated (c ∷ x) [] a b h k = ground arith
text_eq-separated (c ∷ x) (d ∷ y) a b h k = ground (arith, text_eq-separated x y a b)

abbrev texts_eq : List Text → List Text → Bool
texts_eq [] [] = true
texts_eq (x ∷ xs) (y ∷ ys) = text_eq x y && texts_eq xs ys
texts_eq _ _ = false

text_eq-join :
    (xs ys : List Text)
    → length xs ≡ length ys
    → All NoSep xs
    → All NoSep ys
    → text_eq (join xs) (join ys) ≡ texts_eq xs ys
unfolding join
text_eq-join [] [] e h k = unfold text_eq in refl
text_eq-join [] (y ∷ ys) e h k = absurd (omega arith)
text_eq-join (x ∷ xs) [] e h k = absurd (omega arith)
text_eq-join (x ∷ []) (y ∷ []) e h k = ground arith
text_eq-join (x ∷ x' ∷ xs) (y ∷ []) e h k = absurd (omega arith)
text_eq-join (x ∷ []) (y ∷ y' ∷ ys) e h k = absurd (omega arith)
text_eq-join (x ∷ x' ∷ xs) (y ∷ y' ∷ ys) e h k =
    text_eq-separated x y (join (x' ∷ xs)) (join (y' ∷ ys)) h.0 k.0
    ∙ ap (λ b. text_eq x y && b) (text_eq-join (x' ∷ xs) (y' ∷ ys) (omega arith) h.1 k.1)

texts_eq-select :
    (coord : Coord) (keys : List Text)
    → length keys ≡ length coord
    → texts_eq (select coord keys) (specified coord) ≡ matches coord keys
texts_eq-select [] [] e = refl
texts_eq-select [] (k ∷ ks) e = absurd (omega arith)
texts_eq-select (slot ∷ rest) [] e = absurd (omega arith)
texts_eq-select (none ∷ rest) (k ∷ ks) e = texts_eq-select rest ks (omega arith)
texts_eq-select (some t ∷ rest) (k ∷ ks) e =
    ap (λ b. text_eq k t && b) (texts_eq-select rest ks (omega arith))

select-NoSep : (coord : Coord) (keys : List Text) → All NoSep keys → All NoSep (select coord keys)
select-NoSep [] keys h = h
select-NoSep (slot ∷ rest) [] h = tt
select-NoSep (none ∷ rest) (k ∷ ks) h = select-NoSep rest ks h.1
select-NoSep (some t ∷ rest) (k ∷ ks) h = (h.0, select-NoSep rest ks h.1)

specified-NoSep : (coord : Coord) → All NoSepSlot coord → All NoSep (specified coord)
specified-NoSep [] h = tt
specified-NoSep (none ∷ rest) h = specified-NoSep rest h.1
specified-NoSep (some t ∷ rest) h = (h.0.0, specified-NoSep rest h.1)

length-select :
    (coord : Coord) (keys : List Text)
    → length keys ≡ length coord
    → length (select coord keys) ≡ length (specified coord)
length-select [] [] e = refl
length-select [] (k ∷ ks) e = absurd (omega arith)
length-select (slot ∷ rest) [] e = absurd (omega arith)
length-select (none ∷ rest) (k ∷ ks) e = length-select rest ks (omega arith)
length-select (some t ∷ rest) (k ∷ ks) e = ap suc (length-select rest ks (omega arith))

-- A row is found under the key of a coordinate exactly if it is at that coordinate.
pub text_eq-coord_key :
    (coord : Coord) (mask : ℕ) (keys : List Text)
    → Agree 0 mask coord
    → All NoSepSlot coord
    → length keys ≡ length coord
    → All NoSep keys
    → text_eq (join (kept mask 0 keys)) (coord_key coord mask) ≡ matches coord keys
text_eq-coord_key coord mask keys a h e k =
    rw (coord_key-eq coord mask a h, kept-eq mask 0 coord keys a e)
      (text_eq-join (select coord keys) (specified coord) (length-select coord keys e)
          (select-NoSep coord keys k) (specified-NoSep coord h)
        ∙ texts_eq-select coord keys e)
