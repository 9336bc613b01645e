-- ===== src/Mdx/Walk/Visits.antt =====
-- src/mdx/frontend.rs: the expressions that a traversal visits, as a list.
use mallard_cube.Prelude.{
  ◌≡◌, refl, sym, ap, ◌∙◌, inl, inr, Bool, true, false, ◌||◌, Option, none, some, List, [], ◌∷◌,
  ◌++◌, foldl, if◌then◌else◌, Bool-cases, any, Text,
}
use mathlib.Core.List.{foldl-append}
use mallard_cube.Mdx.Walk.{
  walk_expr, walk_all, walk_axes, walk_slicer, walk_bodies, for_each_expr, is_call, mark, remember,
  mentions_call, find_call,
}
use mallard_cube.Mdx.Ast.{
  Clauses, Expr, Exprs, Axis, Select, plain, over, range, tuple, set, call, members, children,
  exclude, binary, nil, cons,
}
use mallard_cube.Mdx.Axes.{sort_axes}

-- An expression and everything under it, each before what is under it.
unfoldable mutual
  pub under : Expr → List Expr
  under (range a b) = range a b ∷ under a ++ under b
  under (tuple items) = tuple items ∷ under_all items
  under (set items) = set items ∷ under_all items
  under (call name args) = call name args ∷ under_all args
  under (members inner) = members inner ∷ under inner
  under (children inner) = children inner ∷ under inner
  under (exclude inner) = exclude inner ∷ under inner
  under (binary op a b) = binary op a b ∷ under a ++ under b
  under e = e ∷ []

  pub under_all : Exprs → List Expr
  under_all nil = []
  under_all (cons e es) = under e ++ under_all es

unfoldable pub under_axes : List Axis → List Expr
under_axes [] = []
under_axes (a ∷ more) = under_all a.exprs ++ under_axes more

unfoldable pub under_slicer : Option Expr → List Expr
under_slicer none = []
under_slicer (some e) = under e

unfoldable pub under_bodies : List (Text × Expr) → List Expr
under_bodies [] = []
under_bodies ((_, body) ∷ more) = under body ++ under_bodies more

abbrev bodies : Clauses → List (Text × Expr)
bodies c = c.with_sets ++ c.with_members

abbrev outer : Clauses → List Expr
outer c = under_axes (sort_axes c.axes) ++ under_slicer c.where_clause

-- The expressions of a statement: the axes by their numbers, the slicer, the subselect's, `WITH`.
unfoldable pub exprs_of : Select → List Expr
exprs_of (plain c) = outer c ++ under_bodies (bodies c)
exprs_of (over c sub) = (outer c ++ exprs_of sub) ++ under_bodies (bodies c)

module _ {ℓ} {S : Type ℓ} (f : S → Expr → S) where
  -- Two traversals after each other.
  then_walk :
      (g : S → S) (s : S) (xs ys : List Expr) {t : S}
      → ((u : S) → g u ≡ foldl f u ys)
      → t ≡ foldl f s xs
      → g t ≡ foldl f s (xs ++ ys)
  then_walk g s xs ys {t} h k = h t ∙ ap (λ (u : S). foldl f u ys) k ∙ sym (foldl-append f s xs ys)

  mutual
    unfolding walk_expr walk_all under under_all

    walk_expr-eq : (e : Expr) (s : S) → walk_expr f e s ≡ foldl f s (under e)
    walk_expr-eq (range a b) s =
        then_walk (walk_expr f b) (f s (range a b)) (under a) (under b) (walk_expr-eq b)
          (walk_expr-eq a (f s (range a b)))
    walk_expr-eq (tuple items) s = walk_all-eq items (f s (tuple items))
    walk_expr-eq (set items) s = walk_all-eq items (f s (set items))
    walk_expr-eq (call name args) s = walk_all-eq args (f s (call name args))
    walk_expr-eq (members inner) s = walk_expr-eq inner (f s (members inner))
    walk_expr-eq (children inner) s = walk_expr-eq inner (f s (children inner))
    walk_expr-eq (exclude inner) s = walk_expr-eq inner (f s (exclude inner))
    walk_expr-eq (binary op a b) s =
        then_walk (walk_expr f b) (f s (binary op a b)) (under a) (under b) (walk_expr-eq b)
          (walk_expr-eq a (f s (binary op a b)))
    walk_expr-eq _ s = refl

    walk_all-eq : (es : Exprs) (s : S) → walk_all f es s ≡ foldl f s (under_all es)
    walk_all-eq nil s = refl
    walk_all-eq (cons e es) s =
        then_walk (walk_all f es) s (under e) (under_all es) (walk_all-eq es) (walk_expr-eq e s)

  walk_axes-eq : (bs : List Axis) (s : S) → walk_axes f bs s ≡ foldl f s (under_axes bs)
  unfolding walk_axes under_axes
  walk_axes-eq [] s = refl
  walk_axes-eq (b ∷ bs) s =
      then_walk (walk_axes f bs) s (under_all b.exprs) (under_axes bs) (walk_axes-eq bs)
        (walk_all-eq b.exprs s)

  walk_slicer-eq : (o : Option Expr) (s : S) → walk_slicer f o s ≡ foldl f s (under_slicer o)
  unfolding walk_slicer under_slicer
  walk_slicer-eq none s = refl
  walk_slicer-eq (some e) s = walk_expr-eq e s

  walk_bodies-eq :
      (ds : List (Text × Expr)) (s : S) → walk_bodies f ds s ≡ foldl f s (under_bodies ds)
  unfolding walk_bodies under_bodies
  walk_bodies-eq [] s = refl
  walk_bodies-eq ((_, body) ∷ ds) s =
      then_walk (walk_bodies f ds) s (under body) (under_bodies ds) (walk_bodies-eq ds)
        (walk_expr-eq body s)

  before_subselect :
      (c : Clauses) (s : S)
      → walk_slicer f c.where_clause (walk_axes f (sort_axes c.axes) s)
        ≡ foldl f s (under_axes (sort_axes c.axes) ++ under_slicer c.where_clause)
  before_subselect c s =
      then_walk (walk_slicer f c.where_clause) s (under_axes (sort_axes c.axes))
        (under_slicer c.where_clause) (walk_slicer-eq c.where_clause)
        (walk_axes-eq (sort_axes c.axes) s)

  -- `for_each_expr` runs its closure on the expressions of `exprs_of`, in that order.
  pub for_each_expr-eq : (sel : Select) (s : S) → for_each_expr f sel s ≡ foldl f s (exprs_of sel)
  unfolding for_each_expr exprs_of
  for_each_expr-eq (plain c) s =
      then_walk (walk_bodies f (bodies c)) s (outer c) (under_bodies (bodies c))
        (walk_bodies-eq (bodies c)) (before_subselect c s)
  for_each_expr-eq (over c sub) s =
      then_walk (walk_bodies f (bodies c)) s (outer c ++ exprs_of sub) (under_bodies (bodies c))
        (walk_bodies-eq (bodies c))
        (then_walk (for_each_expr f sub) s (outer c) (exprs_of sub) (for_each_expr-eq sub)
          (before_subselect c s))

-- The first element that `p` accepts.
unfoldable pub search : (Expr → Bool) → List Expr → Option Expr
search p [] = none
search p (e ∷ es) = let rest = search p es in if p e then some e else rest

foldl-mark : (p : Expr → Bool) (b : Bool) (es : List Expr) → foldl (mark p) b es ≡ (b || any p es)
unfolding mark
foldl-mark p true [] = refl
foldl-mark p false [] = refl
foldl-mark p b (e ∷ es) = foldl-mark p (mark p b e) es ∙ marked b (p e) (any p es)
  where
    marked : (b q r : Bool) → ((if q then true else b) || r) ≡ (b || (q || r))
    marked true true r = refl
    marked true false r = refl
    marked false true r = refl
    marked false false r = refl

foldl-remember-some :
    (p : Expr → Bool) (x : Expr) (es : List Expr) → foldl (remember p) (some x) es ≡ some x
unfolding remember
foldl-remember-some p x [] = refl
foldl-remember-some p x (e ∷ es) = foldl-remember-some p x es

foldl-remember : (p : Expr → Bool) (es : List Expr) → foldl (remember p) none es ≡ search p es
unfolding remember search
foldl-remember p [] = refl
foldl-remember p (e ∷ es) = elim (Bool-cases (p e)) [
  | inl h ↦ rw h (foldl-remember-some p e es)
  | inr h ↦ rw h (foldl-remember p es)
]

-- `mentions_call` says whether some expression of the statement calls the name, and `find_call`
-- gives the first that does, in the order: the axes by their numbers, the slicer, the subselect,
-- the `WITH` bodies.
pub mentions_call-find_call :
    (sel : Select) (name : Text)
    → (mentions_call sel name ≡ any (is_call name) (exprs_of sel))
      × (find_call sel name ≡ search (is_call name) (exprs_of sel))
unfolding mentions_call find_call
mentions_call-find_call sel name = (
  for_each_expr-eq (mark (is_call name)) sel false ∙ foldl-mark (is_call name) false (exprs_of sel),
  for_each_expr-eq (remember (is_call name)) sel none
      ∙ foldl-remember (is_call name) (exprs_of sel),
)
