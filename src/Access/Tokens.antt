-- ===== src/Access/Tokens.antt =====
-- src/auth/mod.rs: the identity in a bearer token. The JSON values, the decoding of a token and the
-- requests to the issuer are other libraries' work and arguments here; the texts of errors are left
-- out.
pub mod Published
pub mod Accepted
use mallard_cube.Prelude.{
  Bool, true, Option, none, some, List, [], ◌∷◌, ◌++◌, if◌then◌else◌, is_empty, Text, codes,
  text_eq,
}
use mallard_cube.Access.Config.{OidcConfig}
use mallard_cube.Execute.Coords.{find, put}

pub data AuthError : Type 0 where
  invalid_token : AuthError
  unknown_key_id : AuthError
  fetch_failed : AuthError
  empty_user : AuthError

pub data Result {ℓ} (A : Type ℓ) : Type ℓ where
  ok : A → Result A
  err : AuthError → Result A

pub record ResolvedIdentity : Type 0 where
  pub user_id : Text
  pub groups : List Text

-- What is read of a JSON value: a field of an object, a text, the items of an array.
pub record Json : Type 1 where
  pub Value : Type 0
  pub get : Value → Text → Option Value
  pub as_str : Value → Option Text
  pub as_array : Value → Option (List Value)

module _ (json : Json) where
  open json use {Value, get, as_str, as_array}

  unfoldable pub strings_of : List Value → List Text → List Text
  strings_of [] out = out
  strings_of (item ∷ items) out =
      strings_of items (elim (as_str item) [ none ↦ out | some s ↦ out ++ s ∷ [] ])

  unfoldable pub collect_strings : Value → List Text → List Text
  unfolding strings_of
  collect_strings value out = elim (as_array value) [
    | some items ↦ strings_of items out
    | none ↦ elim (as_str value) [ none ↦ out | some s ↦ out ++ s ∷ [] ]
  ]

  unfoldable pub claim_text : Value → Text → Option Text
  claim_text claims name = elim (get claims name) [ none ↦ none | some v ↦ as_str v ]

  unfoldable pub user_of : Value → OidcConfig → Text
  unfolding claim_text
  user_of claims config = elim (claim_text claims config.user_claim) [
    | some s ↦ s
    | none ↦ elim (claim_text claims (codes "sub")) [ some s ↦ s | none ↦ [] ]
  ]

  unfoldable pub add_claim : Value → Option Text → List Text → List Text
  unfolding collect_strings
  add_claim claims claim groups = elim claim [
    | none ↦ groups
    | some name ↦ elim (get claims name) [ none ↦ groups | some v ↦ collect_strings v groups ]
  ]

  unfoldable pub extract_identity : Value → OidcConfig → Result ResolvedIdentity
  unfolding user_of add_claim
  extract_identity claims config =
      if is_empty (user_of claims config)
      then err empty_user
      else ok (record {
        user_id = user_of claims config;
        groups = add_claim claims config.role_claim (add_claim claims config.group_claim []);
      })

-- The keys by their ids. Another thread may have filled the map before the lock is held: `keys` are
-- read first, `locked` under the lock. The second part of the result is what the map holds then.
unfoldable pub key_for {ℓ} :
    {Key : Type ℓ}
    → List (Text × Key)
    → List (Text × Key)
    → Result (List (Text × Key))
    → Text
    → Result Key × List (Text × Key)
unfolding find
key_for keys locked fetched kid = elim (find kid keys) [
  | some k ↦ (ok k, locked)
  | none ↦ elim (find kid locked) [
    | some k ↦ (ok k, locked)
    | none ↦ elim fetched [
      | err e ↦ (err e, locked)
      | ok fresh ↦ elim (find kid fresh) [
        | none ↦ (err unknown_key_id, locked)
        | some k ↦ (ok k, fresh)
      ]
    ]
  ]
]

-- `discover` is the request to the issuer, or what is cached of it.
unfoldable pub resolve_jwks_uri : (Text → Result Text) → OidcConfig → Result Text
resolve_jwks_uri discover config = elim config.jwks_uri [
  | some uri ↦ ok uri
  | none ↦ discover config.issuer
]

-- A key as the issuer publishes it.
pub record Jwk : Type 0 where
  pub kty : Text
  pub kid : Option Text
  pub n : Text
  pub e : Text
  pub x : Text
  pub y : Text
  pub k : Text

-- What a token is checked for.
pub record Validation (Alg : Type 0) : Type 0 where
  pub alg : Alg
  pub issuer : Text
  pub audience : Text
  pub validate_exp : Bool
  pub validate_nbf : Bool

-- What the libraries do: the header of a token, its claims if the signature and what the validation
-- names are right, the keys from their numbers or their secret, and the requests to the issuer.
-- `get_jwks` is the request with the reading of its answer.
pub record Jwt (json : Json) : Type 1 where
  pub Alg : Type 0
  pub Key : Type 0
  pub decode_header : Text → Result (Alg × Option Text)
  pub decode : Text → Key → Validation Alg → Result json.Value
  pub from_rsa_components : Text → Text → Option Key
  pub from_ec_components : Text → Text → Option Key
  pub from_secret : Text → Key
  pub discover : Text → Result Text
  pub get_jwks : Text → Result (List Jwk)

module _ (json : Json) (jwt : Jwt json) where
  open jwt use {
    Alg, Key, decode_header, decode, from_rsa_components, from_ec_components, from_secret, discover,
    get_jwks,
  }

  unfoldable pub made_key : Option Key → Result (Option Key)
  made_key none = err invalid_token
  made_key (some key) = ok (some key)

  -- A key of another type is none, and no error.
  unfoldable pub decoding_key : Jwk → Result (Option Key)
  unfolding made_key
  decoding_key jwk =
      if text_eq jwk.kty (codes "RSA")
      then made_key (from_rsa_components jwk.n jwk.e)
      else if text_eq jwk.kty (codes "EC")
      then made_key (from_ec_components jwk.x jwk.y)
      else if text_eq jwk.kty (codes "oct")
      then ok (some (from_secret jwk.k))
      else ok none

  unfoldable pub insert_key : Option Text → Option Key → List (Text × Key) → List (Text × Key)
  unfolding put
  insert_key (some kid) (some key) keys = put kid key keys
  insert_key _ _ keys = keys

  unfoldable pub keys_from : List Jwk → List (Text × Key) → Result (List (Text × Key))
  unfolding decoding_key insert_key
  keys_from [] keys = ok keys
  keys_from (jwk ∷ jwks) keys = elim (decoding_key jwk) [
    | err e ↦ err e
    | ok key ↦ keys_from jwks (insert_key jwk.kid key keys)
  ]

  unfoldable pub jwks_to_keys : List Jwk → Result (List (Text × Key))
  unfolding keys_from
  jwks_to_keys jwks = keys_from jwks []

  unfoldable pub fetch_jwks : Text → Result (List (Text × Key))
  unfolding jwks_to_keys
  fetch_jwks uri = elim (get_jwks uri) [ err e ↦ err e | ok jwks ↦ jwks_to_keys jwks ]

  unfoldable pub validation_of : Alg → OidcConfig → Validation Alg
  validation_of alg config = record {
    alg = alg;
    issuer = config.issuer;
    audience = config.audience;
    validate_exp = true;
    validate_nbf = true;
  }

  unfoldable pub claims_of : Text → OidcConfig → Alg → Result Key → Result ResolvedIdentity
  unfolding extract_identity validation_of
  claims_of token config alg (err e) = err e
  claims_of token config alg (ok key) = elim (decode token key (validation_of alg config)) [
    | err e ↦ err e
    | ok claims ↦ extract_identity json claims config
  ]

  unfoldable pub kid_of : Option Text → Text
  kid_of none = []
  kid_of (some kid) = kid

  unfoldable pub validate_and_resolve :
      List (Text × Key) → List (Text × Key) → Text → OidcConfig → Result ResolvedIdentity
  unfolding key_for resolve_jwks_uri claims_of kid_of fetch_jwks
  validate_and_resolve keys locked token config = elim (decode_header token) [
    | err e ↦ err e
    | ok (alg, kid) ↦ elim (resolve_jwks_uri discover config) [
      | err e ↦ err e
      | ok uri ↦ claims_of token config alg (key_for keys locked (fetch_jwks uri) (kid_of kid)).0
    ]
  ]
