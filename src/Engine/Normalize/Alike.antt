-- ===== src/Engine/Normalize/Alike.antt =====
-- src/engine/normalize.rs: plans that ask for the same have the same key.
use mallard_cube.Prelude.{
  both, swap, is_empty-Reordered, sort_by-Reordered, sort_by-map, skip, Reordered, any-Reordered, ℕ,
  ◌≡◌, refl, sym, ap, ap₂, ◌∙◌, ◌≢◌, Bool, not, ◌||◌, Option, List, [], ◌∷◌, ◌++◌, map, arith,
  if◌then◌else◌, any, keep, Text, codes,
}
use mallard_cube.Access.Config.{is_present}
use mallard_cube.Mdx.SetOps.{AxisSetOp}
use mallard_cube.Mdx.Parser.{join}
use mallard_cube.Engine.Plan.{
  TypedDimensionFilter, TupleCell, QueryPlan, total, group_by, multi_measure, tuple_set,
  multi_group_by, meta_count, set_members,
}
use mallard_cube.Engine.Normalize.{
  sort_by, Formats, members_text, value_of, value_text, text_or_empty, some_text, quoted_flag,
  filter_text, has_content, of_parts, filter_suffix, cell_text, plan_key,
}

keep-map :
    {A B : Type 0} (p : B → Bool) (f : A → B) (xs : List A)
    → keep p (map f xs) ≡ map f (keep (λ x. p (f x)) xs)
keep-map p f [] = refl
keep-map p f (x ∷ xs) = let later = keep-map p f xs in ground arith

map-map :
    {A B C : Type 0} (g : B → C) (f : A → B) (xs : List A)
    → map g (map f xs) ≡ map (λ x. g (f x)) xs
map-map g f [] = refl
map-map g f (x ∷ xs) = ap (λ zs. g (f x) ∷ zs) (map-map g f xs)

any-map :
    {A B : Type 0} (p : B → Bool) (f : A → B) (xs : List A)
    → any p (map f xs) ≡ any (λ x. p (f x)) xs
any-map p f [] = refl
any-map p f (x ∷ xs) = ap (λ b. p (f x) || b) (any-map p f xs)

module _ {I : Type 0} where
  -- The same filter, with its members in another order.
  unfoldable pub IsSameFilter : TypedDimensionFilter I → TypedDimensionFilter I → Type 0
  IsSameFilter f g = (f ≡ record g { members = f.members }) × Reordered (λ t. t) f.members g.members

  -- The same filters: each with its members in any order, and those on different dimensions too.
  pub data SameFilters
      : List (TypedDimensionFilter I) → List (TypedDimensionFilter I) → Type 0 where
    none_differs : (fs : List (TypedDimensionFilter I)) → SameFilters fs fs
    each :
        {fs gs : List (TypedDimensionFilter I)} (f g : TypedDimensionFilter I)
        → IsSameFilter f g
        → SameFilters fs gs
        → SameFilters (f ∷ fs) (g ∷ gs)
    exchange :
        (f g : TypedDimensionFilter I) (fs : List (TypedDimensionFilter I))
        → f.dimension ≢ g.dimension
        → SameFilters (f ∷ g ∷ fs) (g ∷ f ∷ fs)
    chain :
        {fs gs hs : List (TypedDimensionFilter I)}
        → SameFilters fs gs
        → SameFilters gs hs
        → SameFilters fs hs

module _ {F I : Type 0} (formats : Formats F I) where
  abbrev Entry : Type 0
  Entry = Text × (Bool × Text)

  abbrev entry : TypedDimensionFilter I → Entry
  entry f = (f.dimension, (has_content formats f, filter_text formats f))

  members_text-Reordered :
      (g : TypedDimensionFilter I) (ms : List Text)
      → Reordered (λ t. t) ms g.members
      → members_text formats (record g { members = ms }) ≡ members_text formats g
  unfolding members_text
  members_text-Reordered g ms r =
      ap
        (λ ts.
          join (codes ",") ts
          ++ (codes "@"
              ++ (text_or_empty g.level
                  ++ (codes "@" ++ some_text (quoted_flag formats g.time_flag)))))
        (sort_by-Reordered (λ t. t) r)

  entry-members :
      (g : TypedDimensionFilter I) (ms : List Text)
      → Reordered (λ t. t) ms g.members
      → entry (record g { members = ms }) ≡ entry g
  unfolding has_content filter_text value_text members_text
  entry-members g ms r =
      let asked : has_content formats (record g { members = ms }) ≡ has_content formats g =
        ap (λ b. not b || is_present g.range || is_present g.date_window || is_present g.label)
          (is_empty-Reordered (λ t. t) r) in
      let written : filter_text formats (record g { members = ms }) ≡ filter_text formats g =
        ap
          (λ t.
            g.dimension ++ (codes "=" ++ value_of formats g.label g.date_window g.range g.level t))
          (members_text-Reordered g ms r) in
      ap₂ (λ b t. (g.dimension, (b, t))) asked written

  entry-same : (f g : TypedDimensionFilter I) → IsSameFilter f g → entry f ≡ entry g
  unfolding IsSameFilter
  entry-same f g h = ap entry h.0 ∙ entry-members g f.members h.1

  entries-Reordered :
      {fs gs : List (TypedDimensionFilter I)}
      → SameFilters fs gs
      → Reordered (λ (e : Entry). e.0) (map entry fs) (map entry gs)
  entries-Reordered (none_differs fs) = Reordered.same (map entry fs)
  entries-Reordered (each f g h r) = rw (entry-same f g h) (skip (entry g) (entries-Reordered r))
  entries-Reordered (exchange f g fs h) = swap (entry f) (entry g) (map entry fs) h
  entries-Reordered (chain r s) = both (entries-Reordered r) (entries-Reordered s)

  abbrev suffix_of : List Entry → Text
  suffix_of es =
      if not (any (λ e. e.1.0) es)
      then []
      else of_parts formats (map (λ e. e.1.1) (keep (λ e. e.1.0) (sort_by (λ e. e.0) es)))

  filter_suffix-eq :
      (fs : List (TypedDimensionFilter I)) → filter_suffix formats fs ≡ suffix_of (map entry fs)
  unfolding filter_suffix
  filter_suffix-eq fs =
      let sorted = sort_by (λ (f : TypedDimensionFilter I). f.dimension) fs in
      let parts : map (λ e. e.1.1) (keep (λ e. e.1.0) (sort_by (λ e. e.0) (map entry fs)))
          ≡ map (filter_text formats) (keep (has_content formats) sorted) =
        ap (λ es. map (λ e. e.1.1) (keep (λ (e : Entry). e.1.0) es))
          (sort_by-map (λ e. e.0) entry fs)
        ∙ ap (map (λ (e : Entry). e.1.1)) (keep-map (λ e. e.1.0) entry sorted)
        ∙ map-map (λ e. e.1.1) entry (keep (has_content formats) sorted) in
      sym (
        ap₂ (λ b ps. if not b then [] else of_parts formats ps) (any-map (λ e. e.1.0) entry fs)
          parts)

  filter_suffix-same :
      {fs gs : List (TypedDimensionFilter I)}
      → SameFilters fs gs
      → filter_suffix formats fs ≡ filter_suffix formats gs
  filter_suffix-same {fs} {gs} r =
      let s = entries-Reordered r in
      filter_suffix-eq fs
      ∙ ap₂
          (λ b (es : List Entry).
            if not b then [] else of_parts formats (map (λ e. e.1.1) (keep (λ e. e.1.0) es)))
          (any-Reordered (λ e. e.0) (λ e. e.1.0) s) (sort_by-Reordered (λ e. e.0) s)
      ∙ sym (filter_suffix-eq gs)

-- The same cells: each with the same filters.
pub data SameCells {I : Type 0} : List (TupleCell I) → List (TupleCell I) → Type 0 where
  no_cells : SameCells [] []
  cells :
      {cs ds : List (TupleCell I)} (c d : TupleCell I)
      → c.measure ≡ d.measure
      → SameFilters c.filters d.filters
      → SameCells cs ds
      → SameCells (c ∷ cs) (d ∷ ds)

-- The same plan, but for the order of filters and of their members.
pub data SamePlan {F I : Type 0} : QueryPlan F I → QueryPlan F I → Type 0 where
  plan : (p : QueryPlan F I) → SamePlan p p
  totals :
      {fs gs : List (TypedDimensionFilter I)} (m : Text)
      → SameFilters fs gs
      → SamePlan (total m fs) (total m gs)
  grouped :
      {fs gs : List (TypedDimensionFilter I)} (m : Text) (dims : List Text)
      (levels : List (Option ℕ)) (op : Option (AxisSetOp F))
      → SameFilters fs gs
      → SamePlan (group_by m dims fs levels op) (group_by m dims gs levels op)
  multiple :
      {fs gs : List (TypedDimensionFilter I)} (ms : List Text)
      → SameFilters fs gs
      → SamePlan (multi_measure ms fs) (multi_measure ms gs)
  multiple_grouped :
      {fs gs : List (TypedDimensionFilter I)} (ms dims : List Text) (levels : List (Option ℕ))
      → SameFilters fs gs
      → SamePlan (multi_group_by ms dims fs levels) (multi_group_by ms dims gs levels)
  counted :
      {fs gs : List (TypedDimensionFilter I)} (dim : Text) (level : Option ℕ)
      → SameFilters fs gs
      → SamePlan (meta_count dim level fs) (meta_count dim level gs)
  listed :
      {fs gs : List (TypedDimensionFilter I)} (dim : Text) (level : Option ℕ) (m : Text)
      → SameFilters fs gs
      → SamePlan (set_members dim level m fs) (set_members dim level m gs)
  tuples : {cs ds : List (TupleCell I)} → SameCells cs ds → SamePlan (tuple_set cs) (tuple_set ds)

module _ {F I : Type 0} (formats : Formats F I) where
  cell_text-same :
      {cs ds : List (TupleCell I)}
      → SameCells cs ds
      → map (cell_text formats) cs ≡ map (cell_text formats) ds
  unfolding cell_text
  cell_text-same no_cells = refl
  cell_text-same (cells c d m r rest) =
      ap₂ (λ t ts. t ∷ ts) (ap₂ (λ n s. n ++ s) m (filter_suffix-same formats r))
        (cell_text-same rest)

  -- Two plans that differ in the order of the filters on different dimensions, or in the order of
  -- the members of a filter, or both, have the same key; so have two sets of tuples whose cells
  -- differ so.
  pub plan_key-same : {p q : QueryPlan F I} → SamePlan p q → plan_key formats p ≡ plan_key formats q
  unfolding plan_key
  plan_key-same (plan p) = refl
  plan_key-same (totals m r) = rw (filter_suffix-same formats r) refl
  plan_key-same (grouped m dims levels op r) = rw (filter_suffix-same formats r) refl
  plan_key-same (multiple ms r) = rw (filter_suffix-same formats r) refl
  plan_key-same (multiple_grouped ms dims levels r) = rw (filter_suffix-same formats r) refl
  plan_key-same (counted dim level r) = rw (filter_suffix-same formats r) refl
  plan_key-same (listed dim level m r) = rw (filter_suffix-same formats r) refl
  plan_key-same (tuples r) = rw (cell_text-same r) refl
