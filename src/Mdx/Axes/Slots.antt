-- ===== src/Mdx/Axes/Slots.antt =====
-- src/mdx/frontend.rs: the slots of an axis and its lists of dimensions and measures.
use mallard_cube.Prelude.{
  ◌≡◌, refl, sym, ap, ◌∙◌, inl, inr, Bool, true, false, ◌||◌, List, [], ◌∷◌, ◌++◌, map, Bool-cases,
  Option-cases, get_elem?, is_empty, All, Text,
}
use mallard_cube.Mdx.Ast.{
  MemberRef, Expr, Exprs, Axis, Select, member, measure, range, tuple, set, call, members, children,
  exclude, binary, nil, cons, dim,
}
use mallard_cube.Mdx.Axes.{
  axes, sort_axes, is_measures, has, AxisSlot, on_dim, on_measure, AxisSpec, add_measure, add_dim,
  add_member, collect_slots, slots_of, spec_of, axis_specs,
}
use mallard_cube.Mdx.Axes.Dimensions.{IsDistinct, push-IsDistinct}

-- The dimensions and the measures among slots, in their order.
unfoldable pub dims_in : List AxisSlot → List Text
dims_in [] = []
dims_in (on_dim d ∷ slots) = d ∷ dims_in slots
dims_in (on_measure m ∷ slots) = dims_in slots

unfoldable pub measures_in : List AxisSlot → List Text
measures_in [] = []
measures_in (on_dim d ∷ slots) = measures_in slots
measures_in (on_measure m ∷ slots) = m ∷ measures_in slots

-- The two lists are what the slots say, and neither has a name twice.
pub record IsSplit (spec : AxisSpec) : Type 0 where
  pub dims_eq : spec.dims ≡ dims_in spec.slots
  pub measures_eq : spec.measures ≡ measures_in spec.slots
  pub dims_distinct : IsDistinct spec.dims
  pub measures_distinct : IsDistinct spec.measures

dims_in-on_dim :
    (d : Text) (xs : List AxisSlot) → dims_in (xs ++ on_dim d ∷ []) ≡ dims_in xs ++ d ∷ []
unfolding dims_in
dims_in-on_dim d [] = refl
dims_in-on_dim d (on_dim e ∷ xs) = ap (λ (t : List Text). e ∷ t) (dims_in-on_dim d xs)
dims_in-on_dim d (on_measure m ∷ xs) = dims_in-on_dim d xs

dims_in-on_measure :
    (m : Text) (xs : List AxisSlot) → dims_in (xs ++ on_measure m ∷ []) ≡ dims_in xs
unfolding dims_in
dims_in-on_measure m [] = refl
dims_in-on_measure m (on_dim e ∷ xs) = ap (λ (t : List Text). e ∷ t) (dims_in-on_measure m xs)
dims_in-on_measure m (on_measure n ∷ xs) = dims_in-on_measure m xs

measures_in-on_measure :
    (m : Text) (xs : List AxisSlot)
    → measures_in (xs ++ on_measure m ∷ []) ≡ measures_in xs ++ m ∷ []
unfolding measures_in
measures_in-on_measure m [] = refl
measures_in-on_measure m (on_dim e ∷ xs) = measures_in-on_measure m xs
measures_in-on_measure m (on_measure n ∷ xs) =
    ap (λ (t : List Text). n ∷ t) (measures_in-on_measure m xs)

measures_in-on_dim :
    (d : Text) (xs : List AxisSlot) → measures_in (xs ++ on_dim d ∷ []) ≡ measures_in xs
unfolding measures_in
measures_in-on_dim d [] = refl
measures_in-on_dim d (on_dim e ∷ xs) = measures_in-on_dim d xs
measures_in-on_dim d (on_measure n ∷ xs) = ap (λ (t : List Text). n ∷ t) (measures_in-on_dim d xs)

add_measure-IsSplit :
    (name : Text) (spec : AxisSpec) → IsSplit spec → IsSplit (add_measure name spec)
unfolding add_measure
add_measure-IsSplit name spec h = elim (Bool-cases (has name spec.measures)) [
  | inl e ↦ rw (e, add_measure) h
  | inr e ↦
      rw (e, add_measure)
        (record {
          dims_eq = h.dims_eq ∙ sym (dims_in-on_measure name spec.slots);
          measures_eq =
              ap (λ (t : List Text). t ++ name ∷ []) h.measures_eq
              ∙ sym (measures_in-on_measure name spec.slots);
          dims_distinct = h.dims_distinct;
          measures_distinct = push-IsDistinct name spec.measures e h.measures_distinct;
        })
]

absent : (a b : Bool) → (a || b) ≡ false → b ≡ false
absent true b h = cc
absent false b h = h

add_dim-IsSplit : (d : Text) (spec : AxisSpec) → IsSplit spec → IsSplit (add_dim d spec)
unfolding add_dim
add_dim-IsSplit d spec h = elim (Bool-cases (is_empty d || has d spec.dims)) [
  | inl e ↦ rw (e, add_dim) h
  | inr f ↦
      let e = absent (is_empty d) (has d spec.dims) f in
      rw (f, add_dim)
        (record {
          dims_eq =
              ap (λ (t : List Text). t ++ d ∷ []) h.dims_eq ∙ sym (dims_in-on_dim d spec.slots);
          measures_eq = h.measures_eq ∙ sym (measures_in-on_dim d spec.slots);
          dims_distinct = push-IsDistinct d spec.dims e h.dims_distinct;
          measures_distinct = h.measures_distinct;
        })
]

add_member-IsSplit : (m : MemberRef) (spec : AxisSpec) → IsSplit spec → IsSplit (add_member m spec)
unfolding add_member
add_member-IsSplit m spec h = elim (Bool-cases (is_measures (dim m))) [
  | inr e ↦ rw (e, add_member) (add_dim-IsSplit (dim m) spec h)
  | inl e ↦ elim (Option-cases (get_elem? m.parts 1)) [
    | inl f ↦ rw (e, f, add_member) h
    | inr (name, f) ↦ rw (e, f, add_member) (add_measure-IsSplit name spec h)
  ]
]

mutual
  unfolding collect_slots slots_of

  collect_slots-IsSplit :
      (e : Expr) (spec : AxisSpec) → IsSplit spec → IsSplit (collect_slots e spec)
  collect_slots-IsSplit (measure name) spec h = add_measure-IsSplit name spec h
  collect_slots-IsSplit (member m) spec h = add_member-IsSplit m spec h
  collect_slots-IsSplit (range a b) spec h =
      collect_slots-IsSplit b _ (collect_slots-IsSplit a spec h)
  collect_slots-IsSplit (set items) spec h = slots_of-IsSplit items spec h
  collect_slots-IsSplit (tuple items) spec h = slots_of-IsSplit items spec h
  collect_slots-IsSplit (call _ args) spec h = slots_of-IsSplit args spec h
  collect_slots-IsSplit (members inner) spec h = collect_slots-IsSplit inner spec h
  collect_slots-IsSplit (children inner) spec h = collect_slots-IsSplit inner spec h
  collect_slots-IsSplit (exclude inner) spec h = collect_slots-IsSplit inner spec h
  collect_slots-IsSplit (binary _ a b) spec h =
      collect_slots-IsSplit b _ (collect_slots-IsSplit a spec h)
  collect_slots-IsSplit _ spec h = h

  slots_of-IsSplit : (es : Exprs) (spec : AxisSpec) → IsSplit spec → IsSplit (slots_of es spec)
  slots_of-IsSplit nil spec h = h
  slots_of-IsSplit (cons e es) spec h = slots_of-IsSplit es _ (collect_slots-IsSplit e spec h)

spec_of-IsSplit : (a : Axis) → IsSplit (spec_of a)
unfolding spec_of dims_in measures_in IsDistinct
spec_of-IsSplit a =
    slots_of-IsSplit a.exprs _
      (record { dims_eq = refl; measures_eq = refl; dims_distinct = tt; measures_distinct = tt })

specs-IsSplit : (bs : List Axis) → All IsSplit (map spec_of bs)
specs-IsSplit [] = tt
specs-IsSplit (b ∷ bs) = (spec_of-IsSplit b, specs-IsSplit bs)

-- In every description that `axis_specs` gives, the dimensions and the measures are those of the
-- slots, in their order, and no dimension and no measure is listed twice.
pub axis_specs-IsSplit : (sel : Select) → All IsSplit (axis_specs sel)
unfolding axis_specs
axis_specs-IsSplit sel = specs-IsSplit (sort_axes (axes sel))
