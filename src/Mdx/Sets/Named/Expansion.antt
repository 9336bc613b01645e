-- ===== src/Mdx/Sets/Named/Expansion.antt =====
-- src/mdx/frontend.rs: when the expansion of named sets comes to an end, and what it leaves.
use mallard_cube.Prelude.{
  ℕ, zero, suc, ◌<◌, ◌≡◌, refl, inl, inr, Option, none, some, arith, Option-cases, Text,
}
use mallard_cube.Mdx.Outcome.{Result, out_of_fuel, Ends, returns, Ends-bind}
use mallard_cube.Mdx.Ast.{
  MemberRef, Expr, Exprs, member, range, tuple, set, call, members, children, exclude, binary, nil,
  cons,
}
use mallard_cube.Mdx.Sets.Named.{
  Sets, find_set, single, expand_member, expand_in, expand_all, expand_named_sets,
}

-- `P` holds of the name, if there is one.
abbrev Holds : (Text → Type 0) → Option Text → Type 0
Holds P none = Unit
Holds P (some p) = P p

-- `P` holds of every name that a member of one part refers by.
unfoldable mutual
  pub Refs : (Text → Type 0) → Expr → Type 0
  Refs P (member m) = Holds P (single m)
  Refs P (set items) = AllRefs P items
  Refs P (tuple items) = AllRefs P items
  Refs P (call _ args) = AllRefs P args
  Refs P (range a b) = Refs P a × Refs P b
  Refs P (members inner) = Refs P inner
  Refs P (children inner) = Refs P inner
  Refs P (exclude inner) = Refs P inner
  Refs P (binary _ a b) = Refs P a × Refs P b
  Refs P _ = Unit

  pub AllRefs : (Text → Type 0) → Exprs → Type 0
  AllRefs P nil = Unit
  AllRefs P (cons e es) = Refs P e × AllRefs P es

-- No reference names a set.
abbrev pub IsClosed : Sets → Expr → Type 0
IsClosed sets = Refs (λ p. find_set p sets ≡ none)

-- The body of a set refers only to names of a lower rank than its own.
abbrev pub Descends : (Text → ℕ) → Sets → Type 0
Descends rank sets =
    (p : Text) (body : Expr) → find_set p sets ≡ some body → Refs (λ q. rank q < rank p) body

-- Every set that a reference of the expression names is expanded by `again` to a closed one.
abbrev Ready : (Expr → Result Expr) → Sets → Text → Type 0
Ready again sets p = (body : Expr) → find_set p sets ≡ some body → Ends (IsClosed sets) (again body)

module _ (again : Expr → Result Expr) (sets : Sets) where
  expand_member-IsClosed :
      (m : MemberRef) (o : Option Text)
      → single m ≡ o
      → Holds (Ready again sets) o
      → Ends (IsClosed sets) (expand_member again sets m o)
  unfolding expand_member Refs
  expand_member-IsClosed m none e h = returns (rw e tt)
  expand_member-IsClosed m (some p) e h = elim (Option-cases (find_set p sets)) [
    | inl f ↦ rw (f, expand_member) (returns (rw e f))
    | inr (body, f) ↦ rw (f, expand_member) (h body f)
  ]

  mutual
    unfolding expand_in expand_all Refs AllRefs

    expand_in-IsClosed :
        (e : Expr) → Refs (Ready again sets) e → Ends (IsClosed sets) (expand_in again sets e)
    expand_in-IsClosed (member m) h = expand_member-IsClosed m (single m) refl h
    expand_in-IsClosed (set items) h = Ends-bind (expand_all-IsClosed items h) (λ es k. returns k)
    expand_in-IsClosed (tuple items) h = Ends-bind (expand_all-IsClosed items h) (λ es k. returns k)
    expand_in-IsClosed (call _ args) h = Ends-bind (expand_all-IsClosed args h) (λ es k. returns k)
    expand_in-IsClosed (range a b) h =
        Ends-bind (expand_in-IsClosed a h.0)
          (λ x k. Ends-bind (expand_in-IsClosed b h.1) (λ y l. returns (k, l)))
    expand_in-IsClosed (members inner) h = Ends-bind (expand_in-IsClosed inner h) (λ x k. returns k)
    expand_in-IsClosed (children inner) h =
        Ends-bind (expand_in-IsClosed inner h) (λ x k. returns k)
    expand_in-IsClosed (exclude inner) h = Ends-bind (expand_in-IsClosed inner h) (λ x k. returns k)
    expand_in-IsClosed (binary op a b) h =
        Ends-bind (expand_in-IsClosed a h.0)
          (λ x k. Ends-bind (expand_in-IsClosed b h.1) (λ y l. returns (k, l)))
    expand_in-IsClosed _ h = returns tt

    expand_all-IsClosed :
        (es : Exprs)
        → AllRefs (Ready again sets) es
        → Ends (AllRefs (λ p. find_set p sets ≡ none)) (expand_all again sets es)
    expand_all-IsClosed nil h = returns tt
    expand_all-IsClosed (cons e es) h =
        Ends-bind (expand_in-IsClosed e h.0)
          (λ x k. Ends-bind (expand_all-IsClosed es h.1) (λ xs l. returns (k, l)))

Holds-weaken :
    {P Q : Text → Type 0} → ((p : Text) → P p → Q p) → (o : Option Text) → Holds P o → Holds Q o
Holds-weaken f none h = tt
Holds-weaken f (some p) h = f p h

module _ {P Q : Text → Type 0} (f : (p : Text) → P p → Q p) where
  mutual
    unfolding Refs AllRefs

    Refs-weaken : (e : Expr) → Refs P e → Refs Q e
    Refs-weaken (member m) h = Holds-weaken f (single m) h
    Refs-weaken (set items) h = AllRefs-weaken items h
    Refs-weaken (tuple items) h = AllRefs-weaken items h
    Refs-weaken (call _ args) h = AllRefs-weaken args h
    Refs-weaken (range a b) h = (Refs-weaken a h.0, Refs-weaken b h.1)
    Refs-weaken (members inner) h = Refs-weaken inner h
    Refs-weaken (children inner) h = Refs-weaken inner h
    Refs-weaken (exclude inner) h = Refs-weaken inner h
    Refs-weaken (binary op a b) h = (Refs-weaken a h.0, Refs-weaken b h.1)
    Refs-weaken _ h = tt

    AllRefs-weaken : (es : Exprs) → AllRefs P es → AllRefs Q es
    AllRefs-weaken nil h = tt
    AllRefs-weaken (cons e es) h = (Refs-weaken e h.0, AllRefs-weaken es h.1)

-- If the bodies of named sets refer only to names of a lower rank, then the expansion of an
-- expression whose references have ranks below the fuel ends, and no reference in its result names
-- a set.
pub expand_named_sets-IsClosed :
    (rank : Text → ℕ) (sets : Sets)
    → Descends rank sets
    → (f : ℕ) (e : Expr) → Refs (λ p. rank p < f) e
    → Ends (IsClosed sets) (expand_named_sets f sets e)
unfolding expand_named_sets
expand_named_sets-IsClosed rank sets d zero e h =
    expand_in-IsClosed (λ _. out_of_fuel) sets e
      (Refs-weaken (λ p k. absurd (omega (arith, k))) e h)
expand_named_sets-IsClosed rank sets d (suc f) e h =
    expand_in-IsClosed (expand_named_sets f sets) sets e (
      Refs-weaken
        (λ p k body found.
          expand_named_sets-IsClosed rank sets d f body
            (Refs-weaken (λ q l. omega (arith, k, l)) body (d p body found)))
        e h)

-- A named set whose body is a reference to itself is never expanded: the expansion of a reference
-- to it is out of fuel however much it has.
pub expand_named_sets-diverges :
    (f : ℕ) (sets : Sets) (m : MemberRef) (p : Text)
    → single m ≡ some p
    → find_set p sets ≡ some (member m)
    → expand_named_sets f sets (member m) ≡ out_of_fuel
unfolding expand_named_sets expand_in expand_member
expand_named_sets-diverges zero sets m p e h = rw (e, expand_in, h, expand_member) refl
expand_named_sets-diverges (suc f) sets m p e h =
    rw (e, expand_in, h, expand_member) (expand_named_sets-diverges f sets m p e h)
