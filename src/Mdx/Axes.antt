-- ===== src/Mdx/Axes.antt =====
-- src/mdx/frontend.rs: what a statement asks for on its axes. A function that pushes to `out` takes
-- the list and gives it back.
pub mod Sorting
pub mod Dimensions
pub mod Slots
use mallard_cube.Prelude.{
  ℕ, Bool, true, false, not, ◌&&◌, ◌||◌, none, some, List, [], ◌∷◌, ◌++◌, map, leb, if◌then◌else◌,
  get_elem?, is_empty, first, any, Text, codes, text_eq, eq_ignore_case,
}
use mallard_cube.Mdx.Ast.{
  MemberRef, Expr, Exprs, Axis, Clauses, Select, plain, over, member, measure, range, tuple, set,
  call, members, children, exclude, binary, nil, cons, dim,
}

-- The outer statement's own clauses.
unfoldable pub clauses : Select → Clauses
clauses (plain c) = c
clauses (over c _) = c

abbrev pub axes : Select → List Axis
axes s = (clauses s).axes

-- `sort_by_key(|a| a.ordinal)`, which is stable.
unfoldable pub insert_axis : Axis → List Axis → List Axis
insert_axis a [] = a ∷ []
insert_axis a (b ∷ bs) =
    let rest = insert_axis a bs in if leb a.ordinal b.ordinal then a ∷ b ∷ bs else b ∷ rest

unfoldable pub sort_axes : List Axis → List Axis
sort_axes [] = []
sort_axes (a ∷ more) = insert_axis a (sort_axes more)

abbrev pub is_measures : Text → Bool
is_measures d = eq_ignore_case d (codes "Measures")

-- Is `d` among the names `out`?
abbrev pub has : Text → List Text → Bool
has d out = any (text_eq d) out

unfoldable pub push_dim : Text → List Text → List Text
push_dim d out = if is_empty d || is_measures d || has d out then out else out ++ d ∷ []

unfoldable mutual
  pub collect_dims : Expr → List Text → List Text
  collect_dims (member m) out = push_dim (dim m) out
  collect_dims (range a b) out = collect_dims b (collect_dims a out)
  collect_dims (set items) out = collect_all items out
  collect_dims (tuple items) out = collect_all items out
  collect_dims (call _ args) out = collect_all args out
  collect_dims (members inner) out = collect_dims inner out
  collect_dims (children inner) out = collect_dims inner out
  collect_dims _ out = out

  pub collect_all : Exprs → List Text → List Text
  collect_all nil out = out
  collect_all (cons e es) out = collect_all es (collect_dims e out)

unfoldable pub collect_axes : List Axis → List Text → List Text
collect_axes [] out = out
collect_axes (a ∷ more) out = collect_axes more (collect_all a.exprs out)

unfoldable pub axis_dimension_ids : Select → List Text
axis_dimension_ids sel = collect_axes (sort_axes (axes sel)) []

pub data AxisSlot : Type 0 where
  on_dim on_measure : Text → AxisSlot

pub record AxisSpec : Type 0 where
  pub ordinal : ℕ
  pub non_empty : Bool
  pub dims : List Text
  pub measures : List Text
  pub slots : List AxisSlot

-- `has_both` and `measures_first`
unfoldable pub has_both : AxisSpec → Bool
has_both spec = not (is_empty spec.dims) && not (is_empty spec.measures)

unfoldable pub measures_first : AxisSpec → Bool
measures_first spec = elim (first spec.slots) [ some (on_measure _) ↦ true | _ ↦ false ]

unfoldable pub add_measure : Text → AxisSpec → AxisSpec
add_measure name spec = if has name spec.measures then spec else record spec {
  measures = spec.measures ++ name ∷ [];
  slots = spec.slots ++ on_measure name ∷ [];
}

unfoldable pub add_dim : Text → AxisSpec → AxisSpec
add_dim d spec =
    if is_empty d || has d spec.dims
    then spec
    else record spec { dims = spec.dims ++ d ∷ []; slots = spec.slots ++ on_dim d ∷ [] }

-- `[Measures].[X]` may come as a plain member reference.
unfoldable pub add_member : MemberRef → AxisSpec → AxisSpec
add_member m spec =
    if is_measures (dim m)
    then elim (get_elem? m.parts 1) [ none ↦ spec | some name ↦ add_measure name spec ]
    else add_dim (dim m) spec

unfoldable mutual
  pub collect_slots : Expr → AxisSpec → AxisSpec
  collect_slots (measure name) spec = add_measure name spec
  collect_slots (member m) spec = add_member m spec
  collect_slots (range a b) spec = collect_slots b (collect_slots a spec)
  collect_slots (set items) spec = slots_of items spec
  collect_slots (tuple items) spec = slots_of items spec
  collect_slots (call _ args) spec = slots_of args spec
  collect_slots (members inner) spec = collect_slots inner spec
  collect_slots (children inner) spec = collect_slots inner spec
  collect_slots (exclude inner) spec = collect_slots inner spec
  collect_slots (binary _ a b) spec = collect_slots b (collect_slots a spec)
  collect_slots _ spec = spec

  pub slots_of : Exprs → AxisSpec → AxisSpec
  slots_of nil spec = spec
  slots_of (cons e es) spec = slots_of es (collect_slots e spec)

unfoldable pub spec_of : Axis → AxisSpec
spec_of a =
    slots_of a.exprs (record {
      ordinal = a.ordinal;
      non_empty = a.non_empty;
      dims = [];
      measures = [];
      slots = [];
    })

unfoldable pub axis_specs : Select → List AxisSpec
axis_specs sel = map spec_of (sort_axes (axes sel))
