-- ===== src/Access/Requests/Safety.antt =====
-- src/main.rs, src/auth/mod.rs: what stands behind a request that is answered.
use mallard_cube.Prelude.{
  ◌≡◌, refl, sym, ap, subst, inl, inr, true, false, not, Option, none, some, List, [], ◌∷◌, arith,
  Bool-cases, Option-cases, is_empty, any, Text,
}
use mallard_cube.Access.Config.{is_present, OidcConfig, AuthConfig, RoleConfig, ProxyConfig}
use mallard_cube.Access.Users.{deny_all, is_member, context_of, resolve_user_context}
use mallard_cube.Access.Users.Roles.{names_of, match_roles-eq}
use mallard_cube.Access.Tokens.{Result, ok, ResolvedIdentity}
use mallard_cube.Access.Requests.{
  from_config, bind_decision, may_serve, context_for, of_identity, by_auth, err, mechanism,
  by_header, build_user_context, by_token, Request, bearer, trusted_name, authenticated,
}

-- The identities that a request proves: by a token that is valid for the configured issuer, or by
-- the header of a trusted proxy where there is no issuer.
pub data Proves (request : Request) (auth : AuthConfig) : Text → List Text → Type 0 where
  by_bearer :
      (oidc : OidcConfig) (token : Text) (identity : ResolvedIdentity)
      → auth.oidc ≡ some oidc
      → bearer request ≡ some token
      → request.validate token oidc ≡ ok identity
      → Proves request auth identity.user_id identity.groups
  by_proxy :
      (user_id : Text)
      → auth.oidc ≡ none
      → auth.trusted_proxy ≡ true
      → request.header (trusted_name request auth) ≡ some user_id
      → Proves request auth user_id []

names_of-members :
    (user_id : Text) (groups : List Text) (roles : List RoleConfig)
    → is_empty (names_of user_id groups roles) ≡ not (any (is_member user_id groups) roles)
unfolding names_of
names_of-members user_id groups [] = refl
names_of-members user_id groups (role ∷ roles) =
    ground (arith, names_of-members user_id groups roles)

-- The resolved context of one who is a member of no role is refused.
resolved_member :
    (config : ProxyConfig) (auth : AuthConfig) (user_id : Text) (groups : List Text)
    → config.auth ≡ some auth
    → authenticated (resolve_user_context config user_id groups) ≡ true
    → any (is_member user_id groups) config.roles ≡ true
unfolding resolve_user_context context_of authenticated deny_all
resolved_member config auth user_id groups h a =
    let names = names_of-members user_id groups config.roles in
    let found = match_roles-eq user_id groups config.roles [] false in
    elim (Bool-cases (any (is_member user_id groups) config.roles)) [
      | inl m ↦ m
      | inr m ↦ absurd (ground (arith, m, names, found))
    ]

unfoldable pub Answered : Request → ProxyConfig → AuthConfig → Type 0
Answered request config auth =
    (user_id : Text) × (groups : List Text) × Proves request auth user_id groups
    × (any (is_member user_id groups) config.roles ≡ true)

module _ (request : Request) (config : ProxyConfig) (auth : AuthConfig)
    (configured : config.auth ≡ some auth) where
  of_identity-Answered :
      (oidc : OidcConfig) (token : Text) (r : Result ResolvedIdentity)
      → auth.oidc ≡ some oidc
      → bearer request ≡ some token
      → request.validate token oidc ≡ r
      → authenticated (of_identity config r) ≡ true
      → Answered request config auth
  unfolding of_identity Answered
  of_identity-Answered oidc token (ok identity) e b v a = (
    identity.user_id,
    identity.groups,
    by_bearer oidc token identity e b v,
    resolved_member config auth identity.user_id identity.groups configured a,
  )
  of_identity-Answered oidc token (err x) e b v a = absurd (unfold authenticated deny_all in cc a)

  by_token-Answered :
      (oidc : OidcConfig) (token : Option Text)
      → auth.oidc ≡ some oidc
      → bearer request ≡ token
      → authenticated (by_token request config oidc token) ≡ true
      → Answered request config auth
  unfolding by_token
  by_token-Answered oidc none e b a = absurd (unfold authenticated deny_all in cc a)
  by_token-Answered oidc (some token) e b a =
      of_identity-Answered oidc token (request.validate token oidc) e b refl a

  by_header-Answered :
      (value : Option Text)
      → auth.oidc ≡ none
      → auth.trusted_proxy ≡ true
      → request.header (trusted_name request auth) ≡ value
      → authenticated (by_header config value) ≡ true
      → Answered request config auth
  unfolding by_header Answered
  by_header-Answered none e t h a = absurd (unfold authenticated deny_all in cc a)
  by_header-Answered (some user_id) e t h a =
      (user_id, [], by_proxy user_id e t h, resolved_member config auth user_id [] configured a)

  by_auth-Answered :
      (issuer : Option OidcConfig)
      → auth.oidc ≡ issuer
      → mechanism (some auth) ≡ true
      → authenticated (by_auth request config auth issuer) ≡ true
      → Answered request config auth
  unfolding by_auth mechanism
  by_auth-Answered (some oidc) e m a = by_token-Answered oidc (bearer request) e refl a
  by_auth-Answered none e m a =
      let trusted : auth.trusted_proxy ≡ true = unfold is_present in ground arith in
      by_header-Answered (request.header (trusted_name request auth)) e trusted refl
        (rw trusted at a)

  -- Where a mechanism is configured, a request whose user counts as authenticated proves the
  -- identity of a member of a role.
  pub build_user_context-authenticated :
      mechanism (some auth) ≡ true
      → authenticated (build_user_context request config) ≡ true
      → Answered request config auth
  unfolding build_user_context context_for
  build_user_context-authenticated m a = by_auth-Answered auth.oidc refl m (
      subst (λ (o : Option AuthConfig). authenticated (context_for request config o) ≡ true)
        configured a)

-- A process that may serve on an address that is not a loopback one, without the opt-in to
-- anonymous access, has authentication configured, and each request whose user counts as
-- authenticated proves the identity of a member of a role.
pub may_serve-authenticated :
    (request : Request) (config : ProxyConfig)
    → may_serve false config false ≡ true
    → authenticated (build_user_context request config) ≡ true
    → (auth : AuthConfig) × (config.auth ≡ some auth) × Answered request config auth
unfolding may_serve bind_decision from_config
may_serve-authenticated request config s a = elim (Option-cases config.auth) [
  | inl no_auth ↦ absurd (unfold mechanism in ground (arith, s, no_auth))
  | inr (auth, e) ↦
      let m : mechanism (some auth) ≡ true = ground (arith, s, e, sym (ap mechanism e)) in
      (auth, e, build_user_context-authenticated request config auth e m a)
]
