-- ===== src/Access/Requests.antt =====
-- src/main.rs, src/auth/mod.rs and src/status.rs: the user behind a request, and whether the process
-- may serve at all.
pub mod Safety
use mallard_cube.Prelude.{
  strip, ℕ, Bool, true, false, not, ◌&&◌, ◌||◌, Option, none, some, [], if◌then◌else◌, length,
  is_empty, Text, codes,
}
use mallard_cube.Access.Config.{
  OidcConfig, AuthConfig, ProxyConfig, is_present, any_role_narrows_access,
}
use mallard_cube.Access.Users.{UserContext, admin_default, deny_all, resolve_user_context}
use mallard_cube.Access.Tokens.{Result, ok, err, ResolvedIdentity}

-- What the handler asks of a request: the value of a header as a text, and whether a configured name
-- is the name of a header. `validate` is `validate_and_resolve`.
pub record Request : Type 0 where
  pub header : Text → Option Text
  pub header_name : Text → Option Text
  pub validate : Text → OidcConfig → Result ResolvedIdentity

unfoldable pub bearer : Request → Option Text
bearer request = elim (request.header (codes "authorization")) [
  | none ↦ none
  | some s ↦ strip (codes "Bearer ") s
]

unfoldable pub of_identity : ProxyConfig → Result ResolvedIdentity → UserContext
of_identity config (ok identity) = resolve_user_context config identity.user_id identity.groups
of_identity config (err e) = deny_all

unfoldable pub by_token : Request → ProxyConfig → OidcConfig → Option Text → UserContext
unfolding of_identity
by_token request config oidc none = deny_all
by_token request config oidc (some token) = of_identity config (request.validate token oidc)

unfoldable pub trusted_name : Request → AuthConfig → Text
trusted_name request auth = elim (request.header_name auth.trusted_header) [
  | some name ↦ name
  | none ↦ codes "x-user"
]

unfoldable pub by_header : ProxyConfig → Option Text → UserContext
by_header config none = deny_all
by_header config (some user_id) = resolve_user_context config user_id []

-- Under a configured authentication: by the token where there is an issuer, else by the header.
unfoldable pub by_auth : Request → ProxyConfig → AuthConfig → Option OidcConfig → UserContext
unfolding by_token bearer by_header trusted_name admin_default
by_auth request config auth (some oidc) = by_token request config oidc (bearer request)
by_auth request config auth none =
    if auth.trusted_proxy
    then by_header config (request.header (trusted_name request auth))
    else admin_default

unfoldable pub context_for : Request → ProxyConfig → Option AuthConfig → UserContext
unfolding by_auth admin_default
context_for request config none = admin_default
context_for request config (some auth) = by_auth request config auth auth.oidc

unfoldable pub build_user_context : Request → ProxyConfig → UserContext
unfolding context_for
build_user_context request config = context_for request config config.auth

-- `AuthStatus`, without the word for anonymous access.
pub record AuthStatus : Type 0 where
  pub configured : Bool
  pub roles : ℕ
  pub rls_active : Bool

unfoldable pub mechanism : Option AuthConfig → Bool
mechanism none = false
mechanism (some auth) = auth.trusted_proxy || is_present auth.oidc

unfoldable pub from_config : ProxyConfig → AuthStatus
unfolding mechanism
from_config config = record {
  configured = mechanism config.auth;
  roles = length config.roles;
  rls_active = mechanism config.auth && any_role_narrows_access config;
}

unfoldable pub authenticated : UserContext → Bool
authenticated user = user.is_administrator || not (is_empty user.roles)

-- May the process serve on an address, a loopback one or not?
unfoldable pub bind_decision : Bool → Bool → Bool → Bool
bind_decision is_loopback auth_configured allow_anonymous =
    if is_loopback || auth_configured then true else if allow_anonymous then true else false

-- The start of the server.
unfoldable pub may_serve : Bool → ProxyConfig → Bool → Bool
unfolding bind_decision from_config
may_serve is_loopback config allow_anonymous =
    bind_decision is_loopback (from_config config).configured allow_anonymous
