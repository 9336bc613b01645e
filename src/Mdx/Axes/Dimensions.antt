-- ===== src/Mdx/Axes/Dimensions.antt =====
-- src/mdx/frontend.rs: which dimensions `axis_dimension_ids` lists.
use mallard_cube.Prelude.{
  ◌≡◌, refl, ap, subst, ◌∙◌, ◌⊎◌, inl, inr, Bool, true, false, not, ◌&&◌, ◌||◌, List, [], ◌∷◌, ◌++◌,
  arith, if◌then◌else◌, Bool-cases, is_empty, any, Text, text_eq, text_eq-eq,
}
use mallard_cube.Mdx.Ast.{
  Expr, Exprs, Axis, Select, member, range, tuple, set, call, members, children, nil, cons, dim,
}
use mallard_cube.Mdx.Axes.{
  axes, insert_axis, sort_axes, is_measures, has, push_dim, collect_dims, collect_all, collect_axes,
  axis_dimension_ids,
}

-- A cube dimension: it has a name, which is not `Measures`.
unfoldable pub is_listed : Text → Bool
is_listed d = not (is_empty d || is_measures d)

-- Does a member of dimension `d` stand in the expression, outside exclusions and comparisons?
unfoldable mutual
  pub names : Text → Expr → Bool
  names d (member m) = text_eq d (dim m)
  names d (range a b) = names d a || names d b
  names d (set items) = some_names d items
  names d (tuple items) = some_names d items
  names d (call _ args) = some_names d args
  names d (members inner) = names d inner
  names d (children inner) = names d inner
  names d _ = false

  pub some_names : Text → Exprs → Bool
  some_names d nil = false
  some_names d (cons e es) = names d e || some_names d es

-- No name occurs twice.
unfoldable pub IsDistinct : List Text → Type 0
IsDistinct [] = Unit
IsDistinct (d ∷ ds) = (has d ds ≡ false) × IsDistinct ds

has-push : (x d : Text) (out : List Text) → has x (out ++ d ∷ []) ≡ (has x out || text_eq x d)
has-push x d [] = ground arith
has-push x d (y ∷ ys) = ground (arith, has-push x d ys)

text_eq_sym : (s t : Text) → text_eq s t ≡ text_eq t s
unfolding text_eq
text_eq_sym [] [] = refl
text_eq_sym (a ∷ s) (b ∷ t) = ground (arith, text_eq_sym s t)
text_eq_sym [] (b ∷ t) = refl
text_eq_sym (a ∷ s) [] = refl

pub push-IsDistinct :
    (d : Text) (out : List Text) → has d out ≡ false → IsDistinct out → IsDistinct (out ++ d ∷ [])
unfolding IsDistinct
push-IsDistinct d [] h k = (refl, tt)
push-IsDistinct d (y ∷ ys) h k =
    let flip = text_eq_sym d y in
    let pushed = has-push y d ys in (ground (arith, k.0), push-IsDistinct d ys (ground arith) k.1)

has-push_if :
    (x d : Text) (b : Bool) (out : List Text)
    → has x (if b then out else out ++ d ∷ []) ≡ (has x out || not b && text_eq x d)
has-push_if x d true out = ground arith
has-push_if x d false out = has-push x d out

-- Of the tests that guard a push, the last one is answered by the list itself.
drop_known : (a b h t : Bool) → (h || not (a || b || h) && t) ≡ (h || t && not (a || b))
drop_known true b h true = ground arith
drop_known true b h false = ground arith
drop_known false true h true = ground arith
drop_known false true h false = ground arith
drop_known false false true t = refl
drop_known false false false true = refl
drop_known false false false false = refl

drop_absent : (b h c : Bool) → (h || not b && false) ≡ (h || false && c)
drop_absent true h c = refl
drop_absent false h c = refl

has-push_dim :
    (x d : Text) (out : List Text)
    → has x (push_dim d out) ≡ (has x out || text_eq x d && is_listed x)
unfolding push_dim is_listed
has-push_dim x d out = elim (Bool-cases (text_eq x d)) [
  | inl e ↦
      let same = text_eq-eq x d e in
      subst (λ (y : Text). has x (push_dim y out) ≡ (has x out || text_eq x y && is_listed x)) same
        (has-push_if x x _ out ∙ drop_known (is_empty x) (is_measures x) (has x out) (text_eq x x))
  | inr e ↦
      has-push_if x d _ out
      ∙ rw (e) (drop_absent (is_empty d || is_measures d || has d out) (has x out) (is_listed x))
]

join_tests : (h a b l : Bool) → ((h || a && l) || b && l) ≡ (h || (a || b) && l)
join_tests true a b l = refl
join_tests false true b true = refl
join_tests false true true false = refl
join_tests false true false false = refl
join_tests false false b l = refl

no_test : (h l : Bool) → h ≡ (h || false && l)
no_test true l = refl
no_test false l = refl

mutual
  unfolding collect_dims collect_all names some_names

  pub has-collect_dims :
      (x : Text) (e : Expr) (out : List Text)
      → has x (collect_dims e out) ≡ (has x out || names x e && is_listed x)
  has-collect_dims x (member m) out = has-push_dim x (dim m) out
  has-collect_dims x (range a b) out =
      has-collect_dims x b (collect_dims a out)
      ∙ rw (has-collect_dims x a out) (join_tests (has x out) (names x a) (names x b) (is_listed x))
  has-collect_dims x (set items) out = has-collect_all x items out
  has-collect_dims x (tuple items) out = has-collect_all x items out
  has-collect_dims x (call _ args) out = has-collect_all x args out
  has-collect_dims x (members inner) out = has-collect_dims x inner out
  has-collect_dims x (children inner) out = has-collect_dims x inner out
  has-collect_dims x _ out = no_test (has x out) (is_listed x)

  pub has-collect_all :
      (x : Text) (es : Exprs) (out : List Text)
      → has x (collect_all es out) ≡ (has x out || some_names x es && is_listed x)
  has-collect_all x nil out = no_test (has x out) (is_listed x)
  has-collect_all x (cons e es) out =
      has-collect_all x es (collect_dims e out)
      ∙ rw (has-collect_dims x e out)
          (join_tests (has x out) (names x e) (some_names x es) (is_listed x))

has-collect_axes :
    (x : Text) (as' : List Axis) (out : List Text)
    → has x (collect_axes as' out)
      ≡ (has x out || any (λ (a : Axis). some_names x a.exprs) as' && is_listed x)
unfolding collect_axes
has-collect_axes x [] out = no_test (has x out) (is_listed x)
has-collect_axes x (a ∷ more) out =
    has-collect_axes x more (collect_all a.exprs out)
    ∙ rw (has-collect_all x a.exprs out) (
        join_tests (has x out) (some_names x a.exprs)
          (any (λ (b : Axis). some_names x b.exprs) more) (is_listed x))

any-insert_axis :
    (p : Axis → Bool) (a : Axis) (bs : List Axis) → any p (insert_axis a bs) ≡ (p a || any p bs)
unfolding insert_axis
any-insert_axis p a [] = refl
any-insert_axis p a (b ∷ bs) = ground (arith, any-insert_axis p a bs)

any-sort_axes : (p : Axis → Bool) (bs : List Axis) → any p (sort_axes bs) ≡ any p bs
unfolding sort_axes
any-sort_axes p [] = refl
any-sort_axes p (b ∷ bs) =
    any-insert_axis p b (sort_axes bs) ∙ ap (λ (t : Bool). p b || t) (any-sort_axes p bs)

-- A name is among `axis_dimension_ids` exactly if it is neither empty nor `Measures` and some axis
-- has a member of that dimension, outside exclusions and comparisons.
pub has-axis_dimension_ids :
    (d : Text) (sel : Select)
    → has d (axis_dimension_ids sel)
      ≡ (any (λ (a : Axis). some_names d a.exprs) (axes sel) && is_listed d)
unfolding axis_dimension_ids
has-axis_dimension_ids d sel =
    has-collect_axes d (sort_axes (axes sel)) []
    ∙ ap (λ (t : Bool). t && is_listed d)
        (any-sort_axes (λ (a : Axis). some_names d a.exprs) (axes sel))

push_dim-IsDistinct : (d : Text) (out : List Text) → IsDistinct out → IsDistinct (push_dim d out)
unfolding push_dim
push_dim-IsDistinct d out h = elim (Bool-cases (has d out)) [
  | inl e ↦ kept (is_empty d) (is_measures d) (has d out) (inl e)
  | inr e ↦ kept (is_empty d) (is_measures d) (has d out) (inr (push-IsDistinct d out e h))
]
  where
    kept :
        (a b k : Bool)
        → (k ≡ true) ⊎ IsDistinct (out ++ d ∷ [])
        → IsDistinct (if a || b || k then out else out ++ d ∷ [])
    kept true b k g = h
    kept false true k g = h
    kept false false true g = h
    kept false false false (inl e) = cc
    kept false false false (inr g) = g

mutual
  unfolding collect_dims collect_all

  collect_dims-IsDistinct :
      (e : Expr) (out : List Text) → IsDistinct out → IsDistinct (collect_dims e out)
  collect_dims-IsDistinct (member m) out h = push_dim-IsDistinct (dim m) out h
  collect_dims-IsDistinct (range a b) out h =
      collect_dims-IsDistinct b _ (collect_dims-IsDistinct a out h)
  collect_dims-IsDistinct (set items) out h = collect_all-IsDistinct items out h
  collect_dims-IsDistinct (tuple items) out h = collect_all-IsDistinct items out h
  collect_dims-IsDistinct (call _ args) out h = collect_all-IsDistinct args out h
  collect_dims-IsDistinct (members inner) out h = collect_dims-IsDistinct inner out h
  collect_dims-IsDistinct (children inner) out h = collect_dims-IsDistinct inner out h
  collect_dims-IsDistinct _ out h = h

  collect_all-IsDistinct :
      (es : Exprs) (out : List Text) → IsDistinct out → IsDistinct (collect_all es out)
  collect_all-IsDistinct nil out h = h
  collect_all-IsDistinct (cons e es) out h =
      collect_all-IsDistinct es _ (collect_dims-IsDistinct e out h)

collect_axes-IsDistinct :
    (bs : List Axis) (out : List Text) → IsDistinct out → IsDistinct (collect_axes bs out)
unfolding collect_axes
collect_axes-IsDistinct [] out h = h
collect_axes-IsDistinct (b ∷ bs) out h =
    collect_axes-IsDistinct bs _ (collect_all-IsDistinct b.exprs out h)

-- No name occurs twice among `axis_dimension_ids`.
pub axis_dimension_ids-IsDistinct : (sel : Select) → IsDistinct (axis_dimension_ids sel)
unfolding axis_dimension_ids IsDistinct
axis_dimension_ids-IsDistinct sel = collect_axes-IsDistinct (sort_axes (axes sel)) [] tt
