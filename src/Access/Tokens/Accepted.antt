-- ===== src/Access/Tokens/Accepted.antt =====
-- src/auth/mod.rs: what a token that is accepted has passed.
use mallard_cube.Prelude.{
  ◌≡◌, refl, ap, subst, ◌∙◌, inl, inr, true, false, Option, none, some, List, [], arith, Bool-cases,
  Option-cases, is_empty, Text,
}
use mallard_cube.Access.Config.{OidcConfig}
use mallard_cube.Execute.Coords.{find}
use mallard_cube.Access.Tokens.Published.{
  HasJwk, Result-cases, find-keys_from, fetch_jwks-keys_from,
}
use mallard_cube.Access.Tokens.{
  Jwk, fetch_jwks, validation_of, claims_of, validate_and_resolve, Result, ok, err,
  ResolvedIdentity, Json, Jwt, extract_identity, user_of, key_for, resolve_jwks_uri, kid_of,
}

-- A map of keys has the key under this id as it was read first or under the lock, or in what has been
-- fetched.
pub data HasKey {Key : Type 0} (keys locked : List (Text × Key))
    (fetched : Result (List (Text × Key))) (kid : Text) (key : Key) : Type 0 where
  cached : find kid keys ≡ some key → HasKey keys locked fetched kid key
  filled : find kid locked ≡ some key → HasKey keys locked fetched kid key
  published :
      (fresh : List (Text × Key))
      → fetched ≡ ok fresh
      → find kid fresh ≡ some key
      → HasKey keys locked fetched kid key

module _ {Key : Type 0} (keys locked : List (Text × Key)) (kid : Text) where
  key_for-fresh :
      (fresh : List (Text × Key)) (key : Key)
      → find kid keys ≡ none
      → find kid locked ≡ none
      → (key_for keys locked (ok fresh) kid).0 ≡ ok key
      → HasKey keys locked (ok fresh) kid key
  unfolding key_for
  key_for-fresh fresh key a b h = elim (Option-cases (find kid fresh)) [
    | inl c ↦ absurd (ground (arith, a, b, c, h))
    | inr (k, c) ↦
        let e : k ≡ key = ground (arith, a, b, c, h) in published fresh refl (c ∙ ap some e)
  ]

  key_for-HasKey :
      (fetched : Result (List (Text × Key))) (key : Key)
      → (key_for keys locked fetched kid).0 ≡ ok key
      → HasKey keys locked fetched kid key
  unfolding key_for
  key_for-HasKey fetched key h = elim (Option-cases (find kid keys)) [
    | inr (k, a) ↦ let e : k ≡ key = ground (arith, a, h) in cached (a ∙ ap some e)
    | inl a ↦ elim (Option-cases (find kid locked)) [
      | inr (k, b) ↦ let e : k ≡ key = ground (arith, a, b, h) in filled (b ∙ ap some e)
      | inl b ↦ from fetched h a b
    ]
  ]
    where
      from :
          (fetched : Result (List (Text × Key)))
          → (key_for keys locked fetched kid).0 ≡ ok key
          → find kid keys ≡ none
          → find kid locked ≡ none
          → HasKey keys locked fetched kid key
      from (ok fresh) h a b = key_for-fresh fresh key a b h
      from (err e) h a b = absurd (ground (arith, a, b, h))

extract_identity-user :
    (json : Json) (claims : json.Value) (config : OidcConfig) (identity : ResolvedIdentity)
    → extract_identity json claims config ≡ ok identity
    → is_empty identity.user_id ≡ false
unfolding extract_identity
extract_identity-user json claims config identity h =
    elim (Bool-cases (is_empty (user_of json claims config))) [
      | inl e ↦ absurd (cc (rw e at h))
      | inr e ↦
          let same : user_of json claims config ≡ identity.user_id = ap user_in (rw e at h) in
          subst (λ u. is_empty u ≡ false) same e
    ]
  where
    user_in : Result ResolvedIdentity → Text
    user_in (ok i) = i.user_id
    user_in (err e) = []

module _ (json : Json) (jwt : Jwt json) where
  open jwt use {
    Alg, Key, decode_header, decode, from_rsa_components, from_ec_components, from_secret, discover,
    get_jwks,
  }

  -- The key is under this id in the map of the keys, as it was read first or under the lock, or is
  -- made from one that the issuer has just published.
  pub data IsKnown (keys locked : List (Text × Key)) (uri kid : Text) (key : Key) : Type 0 where
    in_cache : find kid keys ≡ some key → IsKnown keys locked uri kid key
    in_filled : find kid locked ≡ some key → IsKnown keys locked uri kid key
    in_jwks :
        (jwks : List Jwk)
        → get_jwks uri ≡ ok jwks
        → HasJwk json jwt jwks kid key
        → IsKnown keys locked uri kid key

  fetch_jwks-IsKnown :
      (keys locked : List (Text × Key)) (uri kid : Text) (key : Key)
      → HasKey keys locked (fetch_jwks json jwt uri) kid key
      → IsKnown keys locked uri kid key
  fetch_jwks-IsKnown keys locked uri kid key (cached h) = in_cache h
  fetch_jwks-IsKnown keys locked uri kid key (filled h) = in_filled h
  fetch_jwks-IsKnown keys locked uri kid key (published fresh f h) =
      let (jwks, g, there) = fetch_jwks-keys_from json jwt uri fresh f in
      elim (find-keys_from json jwt kid jwks [] fresh key there h) [
        | inl nothing ↦ absurd (unfold find in cc nothing)
        | inr is ↦ in_jwks jwks g is
      ]

  -- What stands behind an accepted token: its header was read, its key is one of the issuer's, its
  -- claims were checked with that key for the configured issuer and audience, and the identity is in
  -- them.
  pub record Accepted (keys locked : List (Text × Key)) (token : Text) (config : OidcConfig)
      (identity : ResolvedIdentity) : Type 0 where
    pub alg : Alg
    pub kid : Option Text
    pub uri : Text
    pub key : Key
    pub claims : json.Value
    pub header : decode_header token ≡ ok (alg, kid)
    pub located : resolve_jwks_uri discover config ≡ ok uri
    pub known : IsKnown keys locked uri (kid_of json jwt kid) key
    pub checked :
        decode token key (record {
          alg = alg;
          issuer = config.issuer;
          audience = config.audience;
          validate_exp = true;
          validate_nbf = true;
        })
        ≡ ok claims
    pub extracted : extract_identity json claims config ≡ ok identity

  module _ (keys locked : List (Text × Key)) (token : Text) (config : OidcConfig) where
    claims_of-ok :
        (alg : Alg) (r : Result Key) (identity : ResolvedIdentity)
        → claims_of json jwt token config alg r ≡ ok identity
        → (key : Key) × (claims : json.Value) × (r ≡ ok key)
          × (decode token key (validation_of json jwt alg config) ≡ ok claims)
          × (extract_identity json claims config ≡ ok identity)
    unfolding claims_of
    claims_of-ok alg (err e) identity h = absurd (ground (arith, h))
    claims_of-ok alg (ok key) identity h =
        elim (Result-cases (decode token key (validation_of json jwt alg config))) [
          | inl (claims, d) ↦ (key, claims, refl, d, ground (arith, d, h))
          | inr (e, d) ↦ absurd (ground (arith, d, h))
        ]

    -- A token that `validate_and_resolve` accepts has a header that is read, a key that is known
    -- under the id of that header or made, as its type says, from one that the issuer publishes
    -- under it, claims that are right under this key for the configured issuer and audience, with
    -- the times of expiry and of first use checked, and an identity in them that is not empty.
    pub validate_and_resolve-Accepted :
        (identity : ResolvedIdentity)
        → validate_and_resolve json jwt keys locked token config ≡ ok identity
        → Accepted keys locked token config identity × (is_empty identity.user_id ≡ false)
    unfolding validate_and_resolve
    validate_and_resolve-Accepted identity h = elim (Result-cases (decode_header token)) [
      | inr (e, a) ↦ absurd (ground (arith, a, h))
      | inl ((alg, kid), a) ↦ elim (Result-cases (resolve_jwks_uri discover config)) [
        | inr (e, b) ↦ absurd (ground (arith, a, b, h))
        | inl (uri, b) ↦
            let found = key_for keys locked (fetch_jwks json jwt uri) (kid_of json jwt kid) in
            let (key, claims, c, d, x) =
              claims_of-ok alg found.0 identity (ground (arith, a, b, h)) in
            (
              record {
                alg = alg;
                kid = kid;
                uri = uri;
                key = key;
                claims = claims;
                header = a;
                located = b;
                known = fetch_jwks-IsKnown keys locked uri (kid_of json jwt kid) key (
                    key_for-HasKey keys locked (kid_of json jwt kid) (fetch_jwks json jwt uri) key
                      c);
                checked = unfold validation_of in d;
                extracted = x;
              },
              extract_identity-user json claims config identity x,
            )
      ]
    ]
