-- ===== src/Mdx/Outcome.antt =====
-- The results of the front end: `Result<_, ParseError>` of src/mdx/lexer.rs, and a run that is out
-- of fuel, which has no counterpart in the source. Messages are not modelled.
use mallard_cube.Prelude.{◌≡◌, refl, subst, ◌≢◌, Bool, true, false, if◌then◌else◌}

pub data ParseError : Type 0 where
  malformed unsupported : ParseError

pub data Result {ℓ} (A : Type ℓ) : Type ℓ where
  out_of_fuel : Result A
  err : ParseError → Result A
  ok : A → Result A

-- The `?` operator.
infixl 5 ◌>>=◌
abbrev pub ◌>>=◌ {ℓ ℓ'} :
    {Before : Type ℓ} {After : Type ℓ'} → Result Before → (Before → Result After) → Result After
out_of_fuel >>= next = out_of_fuel
err why >>= next = err why
ok value >>= next = next value

-- The run ended, and `P` holds of its value if it has one.
pub data Ends {ℓ κ} {A : Type ℓ} (P : A → Type κ) : Result A → Type (ℓ ⊔ κ) where
  returns : {a : A} → P a → Ends P (ok a)
  fails : {e : ParseError} → Ends P (err e)

module _ {ℓ κ} {A : Type ℓ} {P : A → Type κ} where
  pub Ends-ne : {r : Result A} → Ends P r → r ≢ out_of_fuel
  Ends-ne (returns p) = cc
  Ends-ne fails = cc

  pub Ends-ok : {r : Result A} {a : A} → Ends P r → r ≡ ok a → P a
  Ends-ok (returns p) e = subst P (cc) p
  Ends-ok fails e = cc

  pub Ends-bind {ℓ' κ'} :
      {B : Type ℓ'} {Q : B → Type κ'} {r : Result A} {f : A → Result B}
      → Ends P r
      → ((a : A) → P a → Ends Q (f a))
      → Ends Q (r >>= f)
  Ends-bind (returns {a} p) k = k a p
  Ends-bind fails k = fails

  pub Ends-if :
      (b : Bool) {x y : Result A}
      → (b ≡ true → Ends P x)
      → (b ≡ false → Ends P y)
      → Ends P (if b then x else y)
  Ends-if true hx hy = hx refl
  Ends-if false hx hy = hy refl

  pub Ends-weaken {κ'} :
      {Q : A → Type κ'} {r : Result A} → Ends P r → ((a : A) → P a → Q a) → Ends Q r
  Ends-weaken (returns {a} p) k = returns (k a p)
  Ends-weaken fails k = fails

-- A chain that gives a value has given one in its first part.
pub bind-eq-ok {ℓ ℓ'} :
    {Before : Type ℓ} {After : Type ℓ'} (r : Result Before) (next : Before → Result After)
    {last : After}
    → (r >>= next) ≡ ok last
    → (mid : Before) × (r ≡ ok mid) × (next mid ≡ ok last)
bind-eq-ok out_of_fuel next e = cc
bind-eq-ok (err why) next e = cc
bind-eq-ok (ok mid) next e = (mid, refl, e)

pub ok-injective {ℓ} : {A : Type ℓ} {a b : A} → ok a ≡ ok b → a ≡ b
ok-injective h = cc
