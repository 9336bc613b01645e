-- ===== src/Engine/Ranking/Groups.antt =====
-- src/engine/plan.rs: which groups of rows the operations keep.
use mallard_cube.Prelude.{
  ◌≡◌, refl, ap, subst, ◌∙◌, inl, inr, Bool, true, false, ◌||◌, Option, none, some, List, [], ◌∷◌,
  arith, if◌then◌else◌, Bool-cases, keep, All, All-weaken, Text, text_eq, text_eq_refl, text_eq-eq,
}
use mallard_cube.Mdx.Ast.{CmpOp}
use mallard_cube.Mdx.SetOps.{AxisSetOp}
use mallard_cube.Engine.Ranking.{
  Floats, compare, names, add_total, totals_of, apply_op, apply_set_op, insert_row, sort_by_value,
  apply_set_op_pairs,
}

keep-every : {A : Type 0} (p : A → Bool) (xs : List A) → All (λ x. p x ≡ true) xs → keep p xs ≡ xs
keep-every p [] h = refl
keep-every p (x ∷ xs) h = ground (arith, h.0, keep-every p xs h.1)

text_eq-same : (s t u : Text) → text_eq s t ≡ true → text_eq s u ≡ text_eq t u
text_eq-same s t u h = ap (λ w. text_eq w u) (text_eq-eq s t h)

text_eq-join : (s t u : Text) → text_eq s u ≡ true → text_eq t u ≡ true → text_eq s t ≡ true
text_eq-join s t u h k = rw (text_eq-eq s u h, text_eq-eq t u k) (text_eq_refl u)

text_eq-not_sym : (s t : Text) → text_eq s t ≡ false → text_eq t s ≡ false
text_eq-not_sym s t h = elim (Bool-cases (text_eq t s)) [
  | inl e ↦ absurd (ground (arith, h, text_eq-join s t s (text_eq_refl s) e))
  | inr e ↦ e
]

module _ {F : Type 0} (floats : Floats F) where
  -- The sum of the values under an outer key, from the front, or nothing if there are none.
  unfoldable pub add_value : Option F → F → F
  add_value none v = v
  add_value (some t) v = floats.plus t v

  unfoldable pub sum_from : Option F → Text → List (Text × (Text × F)) → Option F
  unfolding add_value
  sum_from t outer [] = t
  sum_from t outer (row ∷ rows) =
      sum_from (if text_eq row.0 outer then some (add_value t row.1.1) else t) outer rows

  unfoldable pub passes : CmpOp → F → Option F → Bool
  unfolding compare
  passes op value none = false
  passes op value (some t) = compare floats op t value

  -- The total of a key among the totals.
  unfoldable total_of : Text → List (Text × F) → Option F
  total_of outer [] = none
  total_of outer (t ∷ totals) =
      let rest = total_of outer totals in if text_eq t.0 outer then some t.1 else rest

  total_of-add_total :
      (outer key : Text) (v : F) (totals : List (Text × F))
      → total_of outer (add_total floats key v totals) ≡ (
          if text_eq key outer
          then some (add_value (total_of outer totals) v)
          else total_of outer totals)
  unfolding total_of add_total add_value
  total_of-add_total outer key v [] = ground arith
  total_of-add_total outer key v (t ∷ totals) =
      let later = total_of-add_total outer key v totals in
      elim (Bool-cases (text_eq t.0 key)) [
        | inl e ↦ rw (e, text_eq-same t.0 key outer e) (ground arith)
        | inr e ↦ elim (Bool-cases (text_eq t.0 outer)) [
          | inl f ↦ elim (Bool-cases (text_eq key outer)) [
            | inl g ↦ absurd (ground (arith, e, text_eq-join t.0 key outer f g))
            | inr g ↦ ground (arith, e, f, g)
          ]
          | inr f ↦ ground (arith, e, f, later)
        ]
      ]

  total_of-totals_of :
      (outer : Text) (totals : List (Text × F)) (rows : List (Text × (Text × F)))
      → total_of outer (totals_of floats totals rows) ≡ sum_from (total_of outer totals) outer rows
  unfolding totals_of sum_from
  total_of-totals_of outer totals [] = refl
  total_of-totals_of outer totals (row ∷ rows) =
      total_of-totals_of outer (add_total floats row.0 row.1.1 totals) rows
      ∙ ap (λ t. sum_from t outer rows) (total_of-add_total outer row.0 row.1.1 totals)

  names-add_total :
      (outer key : Text) (v : F) (totals : List (Text × F))
      → names floats outer (add_total floats key v totals)
        ≡ (names floats outer totals || text_eq key outer)
  unfolding names add_total
  names-add_total outer key v [] = ground arith
  names-add_total outer key v (t ∷ totals) =
      let later = names-add_total outer key v totals in
      elim (Bool-cases (text_eq t.0 key)) [
        | inl e ↦ rw (e, text_eq-same t.0 key outer e) (ground arith)
        | inr e ↦ ground (arith, e, later)
      ]

  -- No key occurs twice.
  unfoldable IsDistinct : List (Text × F) → Type 0
  IsDistinct [] = Unit
  IsDistinct (t ∷ totals) = (names floats t.0 totals ≡ false) × IsDistinct totals

  IsDistinct-add_total :
      (key : Text) (v : F) (totals : List (Text × F))
      → IsDistinct totals
      → IsDistinct (add_total floats key v totals)
  unfolding IsDistinct add_total names
  IsDistinct-add_total key v [] h = (refl, tt)
  IsDistinct-add_total key v (t ∷ totals) h = elim (Bool-cases (text_eq t.0 key)) [
    | inl e ↦ rw e (h.0, h.1)
    | inr e ↦ rw e (
      names-add_total t.0 key v totals ∙ ground (arith, h.0, text_eq-not_sym t.0 key e),
      IsDistinct-add_total key v totals h.1,
    )
  ]

  IsDistinct-totals_of :
      (totals : List (Text × F)) (rows : List (Text × (Text × F)))
      → IsDistinct totals
      → IsDistinct (totals_of floats totals rows)
  unfolding totals_of
  IsDistinct-totals_of totals [] h = h
  IsDistinct-totals_of totals (row ∷ rows) h =
      IsDistinct-totals_of (add_total floats row.0 row.1.1 totals) rows
        (IsDistinct-add_total row.0 row.1.1 totals h)

  names-keep_none :
      (outer : Text) (p : Text × F → Bool) (totals : List (Text × F))
      → names floats outer totals ≡ false
      → names floats outer (keep p totals) ≡ false
  unfolding names
  names-keep_none outer p [] h = refl
  names-keep_none outer p (t ∷ totals) h = ground (arith, names-keep_none outer p totals)

  names-keep :
      (outer : Text) (op : CmpOp) (value : F) (totals : List (Text × F))
      → IsDistinct totals
      → names floats outer (keep (λ row. compare floats op row.1 value) totals)
        ≡ passes op value (total_of outer totals)
  unfolding names IsDistinct passes total_of
  names-keep outer op value [] h = refl
  names-keep outer op value (t ∷ totals) h =
      let later = names-keep outer op value totals h.1 in
      elim (Bool-cases (text_eq t.0 outer)) [
        | inl e ↦
            let gone =
              names-keep_none outer (λ row. compare floats op row.1 value) totals
                (subst (λ k. names floats k totals ≡ false) (text_eq-eq t.0 outer e) h.0) in
            ground (arith, e, gone)
        | inr e ↦ ground (arith, e, later)
      ]

  keep-group :
      (outer : Text) (totals : List (Text × F)) (rows : List (Text × (Text × F)))
      → keep (λ row. text_eq row.0 outer) (keep (λ row. names floats row.0 totals) rows)
        ≡ (if names floats outer totals then keep (λ row. text_eq row.0 outer) rows else [])
  keep-group outer totals [] = ground arith
  keep-group outer totals (row ∷ rows) =
      let later = keep-group outer totals rows in
      elim (Bool-cases (text_eq row.0 outer)) [
        | inl e ↦
            let named : names floats row.0 totals ≡ names floats outer totals =
              ap (λ k. names floats k totals) (text_eq-eq row.0 outer e) in
            ground (arith, e, named, later)
        | inr e ↦ ground (arith, e, later)
      ]

  -- A filter on the outer dimension keeps, of the rows under each of its keys, all or none, in
  -- their order: all exactly if the sum of their values meets the condition.
  pub apply_set_op_pairs-sums :
      (outer : Text) (op : CmpOp) (value : F) (rows : List (Text × (Text × F)))
      → keep
          (λ row. text_eq row.0 outer)
          (apply_set_op_pairs floats rows (some (AxisSetOp.filter op value)))
        ≡ (if passes op value (sum_from none outer rows)
            then keep (λ row. text_eq row.0 outer) rows
            else [])
  unfolding apply_set_op_pairs apply_set_op apply_op
  apply_set_op_pairs-sums outer op value rows =
      let totals = totals_of floats [] rows in
      let passed = keep (λ (row : Text × F). compare floats op row.1 value) totals in
      let kept : names floats outer passed ≡ passes op value (sum_from none outer rows) =
        names-keep outer op value totals (unfold IsDistinct in IsDistinct-totals_of [] rows tt)
        ∙ ap (passes op value) (unfold total_of in total_of-totals_of outer [] rows) in
      keep-group outer passed rows
      ∙ ap (λ b. if b then keep (λ row. text_eq row.0 outer) rows else []) kept

  names-insert_row :
      (outer : Text) (desc : Bool) (a : Text × F) (totals : List (Text × F))
      → names floats outer (insert_row floats desc a totals)
        ≡ (text_eq a.0 outer || names floats outer totals)
  unfolding names insert_row
  names-insert_row outer desc a [] = refl
  names-insert_row outer desc a (t ∷ totals) =
      let later = names-insert_row outer desc a totals in ground arith

  names-sort_by_value :
      (outer : Text) (desc : Bool) (totals : List (Text × F))
      → names floats outer (sort_by_value floats desc totals) ≡ names floats outer totals
  unfolding names sort_by_value
  names-sort_by_value outer desc [] = refl
  names-sort_by_value outer desc (t ∷ totals) =
      names-insert_row outer desc t (sort_by_value floats desc totals)
      ∙ ap (λ b. text_eq t.0 outer || b) (names-sort_by_value outer desc totals)

  names-totals_of :
      (outer : Text) (totals : List (Text × F)) (rows : List (Text × (Text × F)))
      → names floats outer totals ≡ true
      → names floats outer (totals_of floats totals rows) ≡ true
  unfolding totals_of
  names-totals_of outer totals [] h = h
  names-totals_of outer totals (row ∷ rows) h =
      names-totals_of outer (add_total floats row.0 row.1.1 totals) rows
        (ground (arith, h, names-add_total outer row.0 row.1.1 totals))

  All-named :
      (totals : List (Text × F)) (rows : List (Text × (Text × F)))
      → All (λ row. names floats row.0 (totals_of floats totals rows) ≡ true) rows
  unfolding totals_of
  All-named totals [] = tt
  All-named totals (row ∷ rows) = (
    names-totals_of row.0 (add_total floats row.0 row.1.1 totals) rows
        (ground (arith, text_eq_refl row.0, names-add_total row.0 row.0 row.1.1 totals)),
    All-named (add_total floats row.0 row.1.1 totals) rows,
  )

  -- `Order` on the outer of two dimensions leaves the rows as they are: it does not order them.
  pub apply_set_op_pairs-order :
      (desc : Bool) (rows : List (Text × (Text × F)))
      → apply_set_op_pairs floats rows (some (AxisSetOp.order desc)) ≡ rows
  unfolding apply_set_op_pairs apply_set_op apply_op
  apply_set_op_pairs-order desc rows =
      keep-every (λ row. names floats row.0 (sort_by_value floats desc (totals_of floats [] rows)))
        rows
        (All-weaken (λ row. names floats row.0 (totals_of floats [] rows) ≡ true)
          (λ row. names floats row.0 (sort_by_value floats desc (totals_of floats [] rows)) ≡ true)
          rows (λ row h. names-sort_by_value row.0 desc (totals_of floats [] rows) ∙ h)
          (All-named [] rows))
