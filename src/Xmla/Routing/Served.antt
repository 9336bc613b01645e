-- ===== src/Xmla/Routing/Served.antt =====
-- src/main.rs: what a request that is served has passed.
use mallard_cube.Prelude.{
  ℕ, ◌≡◌, refl, sym, ap, ◌∙◌, ◌≢◌, ◌⊎◌, inl, inr, Bool, true, false, not, Option, none, some, List,
  [], ◌∷◌, arith, if◌then◌else◌, Bool-cases, length, any, keep, Text, text_eq,
}
use mallard_cube.Access.Config.{ModelPermission, permission_eq, ProxyConfig}
use mallard_cube.Access.Users.{UserContext, effective_model_permission}
use mallard_cube.Xmla.Session.{Registry, expire, contains, end}
use mallard_cube.Xmla.Session.Trace.{Reach, contains-issued}
use mallard_cube.Xmla.Routing.{
  SessionHeader, begin_session, use_session, end_session, RoutedRequest, Answer, session_fault,
  served, Moment, names_other, has_no_access, get_members_response_body, route_full, route_on,
  go_on, route_request,
}

keep-none_dropped :
    {A : Type 0} (p : A → Bool) (xs : List A)
    → any p xs ≡ false
    → length (keep (λ x. not (p x)) xs) ≡ length xs
keep-none_dropped p [] h = refl
keep-none_dropped p (x ∷ xs) h = ground (arith, h, keep-none_dropped p xs)

-- Only a live session can be ended.
end-contains :
    (id : Text) (now : ℕ) (live : Registry)
    → (end id now live).1 ≡ true
    → (contains id now live).1 ≡ true
unfolding end contains
end-contains id now live h =
    let p = λ (s : Text × ℕ). text_eq s.0 id in
    elim (Bool-cases (any p (expire now live))) [
      | inl e ↦ e
      | inr e ↦ absurd (ground (arith, h, keep-none_dropped p (expire now live) e))
    ]

is_served : Answer → Bool
is_served served = true
is_served _ = false

module _ (catalog : Text) (user : UserContext) (config : ProxyConfig) where
  -- The request names no other catalog, or it is one that no catalog restricts.
  unfoldable pub IsInScope : RoutedRequest → Type 0
  IsInScope request =
      (names_other catalog request.property_catalog ≡ false)
      ⊎ ((request.is_members ≡ false) × (request.is_unscoped ≡ true))

  -- The id of the header, if it has one, is among these.
  unfoldable pub IsIssued : Option SessionHeader → List Text → Type 0
  IsIssued none ids = Unit
  IsIssued (some begin_session) ids = Unit
  IsIssued (some (use_session id)) ids = any (text_eq id) ids ≡ true
  IsIssued (some (end_session id)) ids = any (text_eq id) ids ≡ true

  has_access :
      has_no_access catalog user config ≡ false
      → effective_model_permission config user ≢ ModelPermission.none
  unfolding has_no_access permission_eq
  has_access h e = absurd (ground (arith, h, ap (λ p. permission_eq p ModelPermission.none) e))

  route_on-InScope :
      (request : RoutedRequest)
      → route_on catalog user config request ≡ served
      → (has_no_access catalog user config ≡ false) × IsInScope request
  unfolding route_on get_members_response_body route_full IsInScope is_served
  route_on-InScope request h =
      let s : is_served (route_on catalog user config request) ≡ true = ap is_served h in
      elim (Bool-cases (has_no_access catalog user config)) [
        | inl e ↦ absurd (ground (arith, e, s))
        | inr e ↦ (
          e,
          elim (Bool-cases (names_other catalog request.property_catalog)) [
            | inl n ↦ inr (ground (arith, e, n, s), ground (arith, e, n, s))
            | inr n ↦ inl n
          ],
        )
      ]

  go_on-Known :
      (request : RoutedRequest) (id : Text) (asked : Registry × Bool)
      → (go_on catalog user config request id asked).1 ≡ served
      → (asked.1 ≡ true) × (route_on catalog user config request ≡ served)
  unfolding go_on is_served
  go_on-Known request id asked h =
      let answer : Bool → Answer =
        λ known. if known then route_on catalog user config request else session_fault id in
      elim (Bool-cases asked.1) [
        | inl e ↦ (e, sym (ap answer e) ∙ h)
        | inr e ↦ absurd (ground (arith, ap is_served (sym (ap answer e) ∙ h)))
      ]

  -- After any calls of the registry, a request is served only for a user with a permission on the
  -- model, for a catalog that the server has or on one of the two that need none, and, where its
  -- header uses or ends a session, only under an id that the registry has issued.
  pub route_request-Served :
      {last : ℕ} {ids : List Text} {live : Registry}
      → Reach last ids live
      → (request : RoutedRequest) (header : Option SessionHeader) (at : Moment)
      → (route_request catalog user config request header at live).1 ≡ served
      → (effective_model_permission config user ≢ ModelPermission.none)
        × (IsInScope request × IsIssued header ids)
  unfolding route_request IsIssued
  route_request-Served r request none at h =
      let passed = route_on-InScope request h in (has_access passed.0, (passed.1, tt))
  route_request-Served r request (some begin_session) at h =
      let passed = route_on-InScope request h in (has_access passed.0, (passed.1, tt))
  route_request-Served {live = live} r request (some (use_session id)) at h =
      let known = go_on-Known request id (contains id at.checked live) h in
      let passed = route_on-InScope request known.1 in
      (has_access passed.0, (passed.1, contains-issued r id at.checked known.0))
  route_request-Served {live = live} r request (some (end_session id)) at h =
      let known = go_on-Known request id (end id at.checked live) h in
      let passed = route_on-InScope request known.1 in
      let live_id = end-contains id at.checked live known.0 in
      (has_access passed.0, (passed.1, contains-issued r id at.checked live_id))
