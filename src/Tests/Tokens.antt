-- ===== src/Tests/Tokens.antt =====
-- src/auth/mod.rs: an issuer with one key, whose claims are a user and a group.
use mallard_cube.Prelude.{
  ℕ, ◌≡◌, refl, false, none, some, [], ◌∷◌, ◌==◌, if◌then◌else◌, length, is_empty, Text, codes,
  text_eq,
}
use mallard_cube.Access.Config.{OidcConfig}
use mallard_cube.Access.Tokens.{
  ok, err, invalid_token, ResolvedIdentity, Json, Jwt, Jwk, validate_and_resolve,
}
use mallard_cube.Access.Tokens.Accepted.{Accepted, validate_and_resolve-Accepted}

-- A claim set has one claim, `sub`, with a text.
abbrev claims : Json
claims = record {
  Value = Text;
  get = λ v name. if text_eq name (codes "sub") then some v else none;
  as_str = λ v. some v;
  as_array = λ v. none;
}

abbrev secret : Jwk
secret = record {
  kty = codes "oct";
  kid = some (codes "k1");
  n = [];
  e = [];
  x = [];
  y = [];
  k = codes "letters";
}

-- Of a type that is skipped, under the same id.
abbrev unknown_type : Jwk
unknown_type = record secret { kty = codes "OKP" }

-- A token is its user; it is right under the key of seven letters.
abbrev tokens : Jwt claims
tokens = record {
  Alg = Unit {0};
  Key = ℕ;
  decode_header = λ token. ok (tt, some (codes "k1"));
  decode = λ token key validation. if key == 7 then ok token else err invalid_token;
  from_rsa_components = λ n e. none;
  from_ec_components = λ x y. none;
  from_secret = λ k. length k;
  discover = λ issuer. ok (codes "uri");
  get_jwks = λ uri. ok (unknown_type ∷ secret ∷ []);
}

abbrev issuer : OidcConfig
issuer = record {
  issuer = codes "https://login";
  audience = codes "cube";
  jwks_uri = none;
  user_claim = codes "upn";
  group_claim = none;
  role_claim = none;
}

abbrev ann : ResolvedIdentity
ann = record { user_id = codes "ann"; groups = [] }

ann_accepted : validate_and_resolve claims tokens [] [] (codes "ann") issuer ≡ ok ann
unfolding validate_and_resolve text_eq
ann_accepted = refl

validate_and_resolve-Accepted_example :
    Accepted claims tokens [] [] (codes "ann") issuer ann × (is_empty ann.user_id ≡ false)
validate_and_resolve-Accepted_example =
    validate_and_resolve-Accepted claims tokens [] [] (codes "ann") issuer ann ann_accepted
