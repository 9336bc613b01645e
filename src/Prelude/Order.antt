-- ===== src/Prelude/Order.antt =====
-- `Ord` of `String`, and a stable sort by a text.
use mathlib.Core.Path.{◌≡◌, refl, ap, ap₂, ◌∙◌}
use mathlib.Core.Logic.{◌≢◌, inl, inr}
use mathlib.Core.Bool.{Bool, true, false, not, ◌||◌}
use mathlib.Core.List.{List, [], ◌∷◌, map}
use native.Mathlib.Omega.{arith}
use mallard_cube.Prelude.Tests.{◌==◌, ltb, if◌then◌else◌, Bool-cases}
use mallard_cube.Prelude.Lists.{any, is_empty}
use mallard_cube.Prelude.Strings.{Text}

-- Byte by byte; a text stands before the longer ones that begin with it.
unfoldable pub text_less : Text → Text → Bool
text_less [] [] = false
text_less [] (b ∷ t) = true
text_less (a ∷ s) [] = false
text_less (a ∷ s) (b ∷ t) = let rest = text_less s t in if a == b then rest else ltb a b

-- From at most to below.
pub text_less_trans :
    (s t u : Text) → text_less t s ≡ false → text_less t u ≡ true → text_less s u ≡ true
unfolding text_less
text_less_trans [] [] u h k = k
text_less_trans [] (b ∷ t) [] h k = absurd (cc k)
text_less_trans [] (b ∷ t) (c ∷ u) h k = refl
text_less_trans (a ∷ s) [] u h k = absurd (cc h)
text_less_trans (a ∷ s) (b ∷ t) [] h k = absurd (cc k)
text_less_trans (a ∷ s) (b ∷ t) (c ∷ u) h k = let rest = text_less_trans s t u in ground arith

pub text_less_connected : (s t : Text) → s ≢ t → text_less s t ≡ not (text_less t s)
unfolding text_less
text_less_connected [] [] h = absurd (h refl)
text_less_connected [] (b ∷ t) h = refl
text_less_connected (a ∷ s) [] h = refl
text_less_connected (a ∷ s) (b ∷ t) h = elim (Bool-cases (a == b)) [
  | inl e ↦
      let same : a ≡ b = ground (arith, e) in
      let rest = text_less_connected s t (λ eq. h (ap₂ (λ x y. x ∷ y) same eq)) in
      ground (arith, rest)
  | inr e ↦ ground (arith, e)
]

module _ {A : Type 0} (key : A → Text) where
  unfoldable pub insert_by : A → List A → List A
  unfolding text_less
  insert_by a [] = a ∷ []
  insert_by a (b ∷ bs) =
      let rest = insert_by a bs in if text_less (key b) (key a) then b ∷ rest else a ∷ b ∷ bs

  unfoldable pub sort_by : List A → List A
  unfolding insert_by
  sort_by [] = []
  sort_by (a ∷ as') = insert_by a (sort_by as')

  -- Two lists with the same elements, whose keys are told apart.
  pub data Reordered : List A → List A → Type 0 where
    same : (xs : List A) → Reordered xs xs
    skip : {xs ys : List A} (a : A) → Reordered xs ys → Reordered (a ∷ xs) (a ∷ ys)
    swap : (a b : A) (xs : List A) → key a ≢ key b → Reordered (a ∷ b ∷ xs) (b ∷ a ∷ xs)
    both : {xs ys zs : List A} → Reordered xs ys → Reordered ys zs → Reordered xs zs

  insert_by-swap :
      (a b : A) (cs : List A)
      → key a ≢ key b
      → insert_by a (insert_by b cs) ≡ insert_by b (insert_by a cs)
  unfolding insert_by
  insert_by-swap a b [] h = ground (arith, text_less_connected (key a) (key b) h)
  insert_by-swap a b (c ∷ cs) h =
      let later = insert_by-swap a b cs h in
      let one = text_less_connected (key a) (key b) h in
      let up = text_less_trans (key a) (key c) (key b) in
      let down = text_less_trans (key b) (key c) (key a) in
      elim (Bool-cases (text_less (key c) (key a))) [
        | inl e ↦ elim (Bool-cases (text_less (key c) (key b))) [
          | inl f ↦ ground (arith, e, f, later)
          | inr f ↦ ground (arith, e, f, one, down f e)
        ]
        | inr e ↦ elim (Bool-cases (text_less (key c) (key b))) [
          | inl f ↦ ground (arith, e, f, one, up e f)
          | inr f ↦ ground (arith, e, f, one)
        ]
      ]

  pub sort_by-Reordered : {xs ys : List A} → Reordered xs ys → sort_by xs ≡ sort_by ys
  unfolding sort_by
  sort_by-Reordered (same xs) = refl
  sort_by-Reordered (skip a r) = ap (insert_by a) (sort_by-Reordered r)
  sort_by-Reordered (swap a b xs h) = insert_by-swap a b (sort_by xs) h
  sort_by-Reordered (both r s) = sort_by-Reordered r ∙ sort_by-Reordered s

  pub any-Reordered : (p : A → Bool) {xs ys : List A} → Reordered xs ys → any p xs ≡ any p ys
  any-Reordered p (same xs) = refl
  any-Reordered p (skip a r) = ap (λ b. p a || b) (any-Reordered p r)
  any-Reordered p (swap a b xs h) = ground arith
  any-Reordered p (both r s) = any-Reordered p r ∙ any-Reordered p s

  pub is_empty-Reordered : {xs ys : List A} → Reordered xs ys → is_empty xs ≡ is_empty ys
  is_empty-Reordered (same xs) = refl
  is_empty-Reordered (skip a r) = refl
  is_empty-Reordered (swap a b xs h) = refl
  is_empty-Reordered (both r s) = is_empty-Reordered r ∙ is_empty-Reordered s

module _ {A B : Type 0} (key : B → Text) (f : A → B) where
  insert_by-map :
      (a : A) (as' : List A)
      → insert_by key (f a) (map f as') ≡ map f (insert_by (λ x. key (f x)) a as')
  unfolding insert_by
  insert_by-map a [] = refl
  insert_by-map a (b ∷ bs) = let later = insert_by-map a bs in ground arith

  pub sort_by-map : (as' : List A) → sort_by key (map f as') ≡ map f (sort_by (λ x. key (f x)) as')
  unfolding sort_by
  sort_by-map [] = refl
  sort_by-map (a ∷ as') =
      ap (insert_by key (f a)) (sort_by-map as') ∙ insert_by-map a (sort_by (λ x. key (f x)) as')
