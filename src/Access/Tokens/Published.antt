-- ===== src/Access/Tokens/Published.antt =====
-- src/auth/mod.rs: the keys that are made from those an issuer publishes.
use mallard_cube.Prelude.{
  ◌≡◌, refl, sym, ap, ◌∙◌, ◌⊎◌, inl, inr, Option, none, some, List, [], ◌∷◌, arith, Bool-cases,
  Among, Text, codes, text_eq, text_eq-eq,
}
use mallard_cube.Execute.Coords.{find}
use mallard_cube.Execute.Coords.Rollup.{find-put}
use mallard_cube.Access.Tokens.{
  Jwk, made_key, decoding_key, insert_key, keys_from, jwks_to_keys, fetch_jwks, AuthError, Result,
  ok, err, Json, Jwt,
}

pub Result-cases :
    {A : Type 0} (r : Result A) → ((a : A) × (r ≡ ok a)) ⊎ ((e : AuthError) × (r ≡ err e))
Result-cases (ok a) = inl (a, refl)
Result-cases (err e) = inr (e, refl)

module _ (json : Json) (jwt : Jwt json) where
  open jwt use {
    Alg, Key, decode_header, decode, from_rsa_components, from_ec_components, from_secret, discover,
    get_jwks,
  }

  -- The key is made from the published one as its type says.
  pub data IsKeyOf (jwk : Jwk) (key : Key) : Type 0 where
    of_rsa : jwk.kty ≡ codes "RSA" → from_rsa_components jwk.n jwk.e ≡ some key → IsKeyOf jwk key
    of_ec : jwk.kty ≡ codes "EC" → from_ec_components jwk.x jwk.y ≡ some key → IsKeyOf jwk key
    of_secret : jwk.kty ≡ codes "oct" → from_secret jwk.k ≡ key → IsKeyOf jwk key

  -- One of these published keys has the id, and the key is made from it.
  abbrev pub HasJwk : List Jwk → Text → Key → Type 0
  HasJwk jwks kid key = (jwk : Jwk) × Among jwk jwks × (jwk.kid ≡ some kid) × IsKeyOf jwk key

  made_key-some :
      (made : Option Key) (key : Key) → made_key json jwt made ≡ ok (some key) → made ≡ some key
  unfolding made_key
  made_key-some none key h = absurd (ground (arith, h))
  made_key-some (some k) key h = ground (arith, h)

  decoding_key-IsKeyOf :
      (jwk : Jwk) (key : Key) → decoding_key json jwt jwk ≡ ok (some key) → IsKeyOf jwk key
  unfolding decoding_key
  decoding_key-IsKeyOf jwk key h = elim (Bool-cases (text_eq jwk.kty (codes "RSA"))) [
    | inl a ↦
        of_rsa (text_eq-eq jwk.kty (codes "RSA") a)
          (made_key-some (from_rsa_components jwk.n jwk.e) key (rw (decoding_key, a) at h))
    | inr a ↦ elim (Bool-cases (text_eq jwk.kty (codes "EC"))) [
      | inl b ↦
          of_ec (text_eq-eq jwk.kty (codes "EC") b)
            (made_key-some (from_ec_components jwk.x jwk.y) key (rw (decoding_key, a, b) at h))
      | inr b ↦ elim (Bool-cases (text_eq jwk.kty (codes "oct"))) [
        | inl c ↦ of_secret (text_eq-eq jwk.kty (codes "oct") c) (ground (arith, a, b, c, h))
        | inr c ↦ absurd (ground (arith, a, b, c, h))
      ]
    ]
  ]

  -- What an insertion leaves under an id was there, or is the key inserted.
  find-insert_key :
      (kid : Text) (id : Option Text) (made : Option Key) (keys : List (Text × Key)) (key : Key)
      → find kid (insert_key json jwt id made keys) ≡ some key
      → (find kid keys ≡ some key) ⊎ ((id ≡ some kid) × (made ≡ some key))
  unfolding insert_key
  find-insert_key kid none made keys key h = inl h
  find-insert_key kid (some id) none keys key h = inl h
  find-insert_key kid (some id) (some k) keys key h =
      let found = sym (find-put kid id k keys) ∙ h in
      elim (Bool-cases (text_eq id kid)) [
        | inl e ↦ inr (ap some (text_eq-eq id kid e), rw e at found)
        | inr e ↦ inl (rw e at found)
      ]

  pub find-keys_from :
      (kid : Text) (jwks : List Jwk) (keys fresh : List (Text × Key)) (key : Key)
      → keys_from json jwt jwks keys ≡ ok fresh
      → find kid fresh ≡ some key
      → (find kid keys ≡ some key) ⊎ HasJwk jwks kid key
  unfolding keys_from
  find-keys_from kid [] keys fresh key h k =
      let same : keys ≡ fresh = ground (arith, h) in inl (ap (find kid) same ∙ k)
  find-keys_from kid (jwk ∷ jwks) keys fresh key h k =
      elim (Result-cases (decoding_key json jwt jwk)) [
        | inr (e, d) ↦ absurd (ground (arith, d, h))
        | inl (made, d) ↦
            elim (find-keys_from kid jwks (insert_key json jwt jwk.kid made keys) fresh key
              (ground (arith, d, h)) k) [
                | inr (other, there, id, is) ↦ inr (other, inr there, id, is)
                | inl there ↦ elim (find-insert_key kid jwk.kid made keys key there) [
                  | inl before ↦ inl before
                  | inr (id, same) ↦
                      inr (jwk, inl refl, id, decoding_key-IsKeyOf jwk key (d ∙ ap ok same))
                ]
              ]
      ]

  pub fetch_jwks-keys_from :
      (uri : Text) (fresh : List (Text × Key))
      → fetch_jwks json jwt uri ≡ ok fresh
      → (jwks : List Jwk) × (get_jwks uri ≡ ok jwks) × (keys_from json jwt jwks [] ≡ ok fresh)
  unfolding fetch_jwks jwks_to_keys
  fetch_jwks-keys_from uri fresh h = elim (Result-cases (get_jwks uri)) [
    | inr (e, g) ↦ absurd (ground (arith, g, h))
    | inl (jwks, g) ↦ (jwks, g, ground (arith, g, h))
  ]
