-- ===== src/Xmla/Discover/Dates.antt =====
-- src/xmla/discover/mod.rs: the key of a date that the metadata advertise.
use mallard_cube.Prelude.{
  ℕ, zero, suc, ◌+◌, ◌≡◌, refl, ap, ◌∙◌, inl, inr, List, [], ◌∷◌, ◌++◌, arith, Bool-cases, length,
  drop, length-append, take-append, Text, codes, text_eq,
}
use mallard_cube.Engine.Model.Lookups.{strip_date_member_time}
use mallard_cube.Xmla.Discover.{is_iso_date, date_member_key, date_member_value}

drop-append :
    {A : Type 0} (m k : ℕ) (xs ys : List A) → length xs + k ≡ m → drop m (xs ++ ys) ≡ drop k ys
drop-append m k [] ys h = let same : m ≡ k = omega (arith, h) in ap (λ j. drop j ys) same
drop-append zero k (x ∷ xs) ys h = absurd (omega (arith, h))
drop-append (suc m) k (x ∷ xs) ys h = drop-append m k xs ys (omega (arith, h))

strip-midnight : (v : Text) → length v ≡ 10 → strip_date_member_time (v ++ codes "T00:00:00") ≡ v
unfolding strip_date_member_time text_eq
strip-midnight v h = ground (
  arith,
  length-append v (codes "T00:00:00"),
  drop-append 10 0 v (codes "T00:00:00") (omega (arith, h)),
  drop-append 11 1 v (codes "T00:00:00") (omega (arith, h)),
  take-append 10 v (codes "T00:00:00") h,
)

-- A value that is not itself the key of a date is found again behind its key: a filter that comes
-- with the key that the metadata advertise asks for the value.
pub date_member_value-key :
    (v : Text) → strip_date_member_time v ≡ v → date_member_value (date_member_key v) ≡ v
unfolding date_member_value date_member_key is_iso_date
date_member_value-key v h = elim (Bool-cases (is_iso_date v)) [
  | inl e ↦
      let dated : date_member_key v ≡ v ++ codes "T00:00:00" = rw e refl in
      ap strip_date_member_time dated ∙ strip-midnight v (ground (arith, e))
  | inr e ↦ rw e h
]
