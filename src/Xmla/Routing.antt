-- ===== src/Xmla/Routing.antt =====
-- src/main.rs, and src/xmla/discover/members.rs and src/execute/runtime.rs as far as it calls them:
-- the way of a parsed request through the checks of its session, of the permission and of the
-- catalog. What is answered behind the checks is not modelled; nor are traces and the audit log.
pub mod Served
use mallard_cube.Prelude.{
  trim, ℕ, Bool, true, false, ◌||◌, Option, none, some, if◌then◌else◌, is_empty, Text,
  eq_ignore_case,
}
use mallard_cube.Access.Config.{ModelPermission, permission_eq, ProxyConfig}
use mallard_cube.Access.Users.{UserContext, effective_model_permission}
use mallard_cube.Xmla.Session.{Registry, begin, contains, end}

pub data SessionHeader : Type 0 where
  begin_session : SessionHeader
  use_session : Text → SessionHeader
  end_session : Text → SessionHeader

-- What the routing asks of a request: is it for the streamed members, is it one of the two that no
-- catalog restricts, and which catalog does it name?
pub record RoutedRequest : Type 0 where
  pub is_members : Bool
  pub is_unscoped : Bool
  pub property_catalog : Option Text

pub data Answer : Type 0 where
  session_fault : Text → Answer
  permission_fault : Answer
  scope_fault : Answer
  served : Answer

-- The id of the new session is an argument, and so are the readings of the clock.
pub record Moment : Type 0 where
  pub new_id : Text
  pub checked : ℕ
  pub issued : ℕ

-- Is the catalog another one than that of the server, so that there is a message?
unfoldable pub names_other : Text → Option Text → Bool
names_other catalog none = false
names_other catalog (some wanted) =
    if is_empty (trim wanted) || eq_ignore_case (trim wanted) (trim catalog) then false else true

module _ (catalog : Text) (user : UserContext) (config : ProxyConfig) where
  unfoldable pub has_no_access : Bool
  has_no_access = permission_eq (effective_model_permission config user) ModelPermission.none

  unfoldable pub get_members_response_body : RoutedRequest → Answer
  unfolding has_no_access names_other
  get_members_response_body request =
      if has_no_access
      then permission_fault
      else if names_other catalog request.property_catalog
      then scope_fault
      else served

  unfoldable pub route_full : RoutedRequest → Answer
  unfolding has_no_access names_other
  route_full request =
      if has_no_access
      then permission_fault
      else if request.is_unscoped
      then served
      else if names_other catalog request.property_catalog
      then scope_fault
      else served

  unfoldable pub route_on : RoutedRequest → Answer
  unfolding get_members_response_body route_full
  route_on request =
      if request.is_members then get_members_response_body request else route_full request

  unfoldable pub go_on : RoutedRequest → Text → Registry × Bool → Registry × Answer
  unfolding route_on
  go_on request id (live, known) = (live, if known then route_on request else session_fault id)

  unfoldable pub route_request :
      RoutedRequest → Option SessionHeader → Moment → Registry → Registry × Answer
  unfolding route_on go_on begin contains end
  route_request request (some begin_session) at live =
      (begin at.new_id at.checked at.issued live, route_on request)
  route_request request (some (use_session id)) at live =
      go_on request id (contains id at.checked live)
  route_request request (some (end_session id)) at live = go_on request id (end id at.checked live)
  route_request request none at live = (live, route_on request)
