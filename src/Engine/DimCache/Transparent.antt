-- ===== src/Engine/DimCache/Transparent.antt =====
-- src/engine/dim_cache.rs: what the cache answers after any sequence of calls.
use mallard_cube.Prelude.{
  ℕ, ◌≡◌, refl, sym, ap, ◌∙◌, inl, inr, Bool, true, false, ◌&&◌, Option, none, some, [], ◌∷◌, ◌==◌,
  ==_iff, Bool-cases, Option-cases, All, Text, text_eq, text_eq-eq,
}
use mallard_cube.Engine.DimCache.{
  DimMembers, Dimension, Backend, build, DictKey, option_eq, key_eq, DimCache, find_dict, or_empty,
  store_built, get_with_filter, clear,
}

option_eq-eq : (p q : Option Text) → option_eq p q ≡ true → p ≡ q
unfolding option_eq
option_eq-eq none none h = refl
option_eq-eq (some s) (some t) h = ap some (text_eq-eq s t h)
option_eq-eq none (some t) h = cc
option_eq-eq (some s) none h = cc

both_true : (a b : Bool) → (a && b) ≡ true → (a ≡ true) × (b ≡ true)
both_true true b h = (refl, h)
both_true false b h = cc

key_eq-eq : (k l : DictKey) → key_eq k l ≡ true → k ≡ l
unfolding key_eq
key_eq-eq (e, d, p) (e', d', p') h =
    let (ed, same_p) = both_true (e == e' && text_eq d d') (option_eq p p') h in
    let (same_e, same_d) = both_true (e == e') (text_eq d d') ed in
    let p_eq = option_eq-eq p p' same_p in
    let d_eq = text_eq-eq d d' same_d in let e_eq = (==_iff e e').0 same_e in cc

-- The data of each epoch, as the answers to queries; the dimensions of the model and their tables.
module _ (data_at : ℕ → Backend) (model : Text → Dimension) (table : Text → Text) where
  -- What a dictionary should be.
  abbrev pub truth : DictKey → DimMembers
  truth (epoch, id, predicate) = build (data_at epoch) (model id) (table id) (or_empty predicate)

  -- A call's query: the data of its epoch answers it, or it fails and may answer anything.
  abbrev pub IsHonest : ℕ → Backend → Bool → Type 0
  IsHonest epoch query failed = failed ≡ false → query ≡ data_at epoch

  -- The caches that calls reach. A call builds a dictionary without a lock, so it is put in at any
  -- later time, behind whatever other calls have put in and cleared.
  pub data Reach : DimCache → Type 0 where
    start : Reach []
    stored :
        {c : DimCache}
        → Reach c
        → (epoch : ℕ) (id : Text) (predicate : Option Text) (query : Backend) (failed : Bool)
        → (model id).id ≡ id
        → IsHonest epoch query failed
        → Reach (
            store_built
              (epoch, (model id).id, predicate)
              (build query (model id) (table id) (or_empty predicate))
              failed
              c)
    cleared : {c : DimCache} → Reach c → Reach (clear c)

  abbrev AllTrue : DimCache → Type 0
  AllTrue = All (λ (e : DictKey × DimMembers). e.1 ≡ truth e.0)

  find_dict-true :
      (c : DimCache) (key : DictKey) (m : DimMembers)
      → AllTrue c
      → find_dict key c ≡ some m
      → m ≡ truth key
  unfolding find_dict
  find_dict-true [] key m a h = cc
  find_dict-true ((k, x) ∷ more) key m a h = elim (Bool-cases (key_eq k key)) [
    | inl e ↦
        let same = key_eq-eq k key e in
        let hit : some x ≡ some m = rw e at h in
        let answer : x ≡ truth k = a.0 in let moved : truth k ≡ truth key = ap truth same in cc
    | inr e ↦ find_dict-true more key m a.1 (rw e at h)
  ]

  built-truth :
      (epoch : ℕ) (id : Text) (predicate : Option Text) (query : Backend)
      → (model id).id ≡ id
      → query ≡ data_at epoch
      → build query (model id) (table id) (or_empty predicate)
        ≡ truth (epoch, (model id).id, predicate)
  built-truth epoch id predicate query named honest =
      ap (λ (q : Backend). build q (model id) (table id) (or_empty predicate)) honest
      ∙ ap (λ (i : Text). truth (epoch, i, predicate)) (sym named)

  Reach-AllTrue : {c : DimCache} → Reach c → AllTrue c
  unfolding store_built clear
  Reach-AllTrue start = tt
  Reach-AllTrue (cleared r) = tt
  Reach-AllTrue (stored r epoch id predicate query failed named honest) = elim (Bool-cases failed) [
    | inl f ↦ rw (f, store_built) (Reach-AllTrue r)
    | inr f ↦
        rw (f, store_built) (built-truth epoch id predicate query named (honest f), Reach-AllTrue r)
  ]

  -- In every cache that calls reach, `get_with_filter` with a query that does not fail and is
  -- answered by the data of the epoch gives the dictionary of this epoch, dimension and predicate,
  -- whether it finds or builds it, and leaves a cache that calls reach.
  pub get_with_filter-truth :
      {c : DimCache}
      → Reach c
      → (epoch : ℕ) (id : Text) (predicate : Option Text) (query : Backend) (failed : Bool)
      → (model id).id ≡ id
      → failed ≡ false
      → query ≡ data_at epoch
      → ((get_with_filter epoch (model id) (table id) query failed predicate c).1
          ≡ truth (epoch, id, predicate))
        × Reach (get_with_filter epoch (model id) (table id) query failed predicate c).0
  unfolding get_with_filter
  get_with_filter-truth {c} r epoch id predicate query failed named unfailed honest =
      let asked = ap (λ (i : Text). truth (epoch, i, predicate)) named in
      elim (Option-cases (find_dict (epoch, (model id).id, predicate) c)) [
        | inl e ↦
            rw (e, get_with_filter)
              (
                built-truth epoch id predicate query named honest ∙ asked,
                stored r epoch id predicate query failed named (λ f. honest),
              )
        | inr (hit, e) ↦
            rw (e, get_with_filter)
              (
                find_dict-true c (epoch, (model id).id, predicate) hit (Reach-AllTrue r) e ∙ asked,
                r,
              )
      ]
