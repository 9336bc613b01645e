-- ===== src/Tests/Sessions.antt =====
-- src/xmla/session.rs at concrete calls.
use mallard_cube.Prelude.{
  trim, ℕ, ◌≡◌, refl, ◌≢◌, true, false, not, ◌&&◌, some, [], ◌∷◌, arith, any, Text, codes, text_eq,
  eq_ignore_case,
}
use mallard_cube.Xmla.Session.{Registry, fresh, begin, contains, end}
use mallard_cube.Xmla.Session.Order.{IsValid}
use mallard_cube.Xmla.Session.Live.{contains-eq-any, contains-begin, contains-end}
use mallard_cube.Xmla.Session.Trace.{Reach, start, begun, ended}
use mallard_cube.Access.Config.{ModelPermission, permission_eq}
use mallard_cube.Access.Users.{effective_model_permission}
use mallard_cube.Xmla.Routing.{use_session, RoutedRequest, Moment, served, route_request}
use mallard_cube.Xmla.Routing.Served.{IsInScope, IsIssued, route_request-Served}
use mallard_cube.Tests.Plans.{ann, config}

abbrev one : Text
one = codes "one"

abbrev two : Text
two = codes "two"

abbrev two_live : Registry
two_live = (one, 10) ∷ (two, 20) ∷ []

two_live-IsValid : IsValid 20 two_live
two_live-IsValid = omega arith

-- One session begun at 10, another at 20, and the first ended at 30.
abbrev three_calls : Reach 30 (two ∷ one ∷ []) (end one 30 (begin two 20 20 (begin one 10 10 []))).0
three_calls =
    ended
      (begun (begun (start {now = 0}) one 10 10 (omega arith) (omega arith)) two 20 20 (omega arith)
        (omega arith))
      one 30 (omega arith)

contains-eq-any_example :
    (contains two 30 two_live).1 ≡ any (λ (s : Text × ℕ). text_eq s.0 two && fresh 30 s) two_live
contains-eq-any_example = contains-eq-any two 20 30 two_live two_live-IsValid

contains-begin_example : (contains one 1800 (begin one 25 30 two_live)).1 ≡ true
contains-begin_example =
    contains-begin one 20 25 30 1800 two_live (omega arith) (omega arith) (omega arith)
      two_live-IsValid

contains-end_example :
    (contains two 40 (end one 30 two_live).0).1
    ≡ (not (text_eq two one) && (contains two 40 two_live).1)
contains-end_example =
    contains-end one two 20 30 40 two_live (omega arith) (omega arith) two_live-IsValid

-- Ann asks for the members, and uses the second session.
abbrev asked : RoutedRequest
asked = record { is_members = true; is_unscoped = false; property_catalog = some (codes " SALES ") }

abbrev at_forty : Moment
at_forty = record { new_id = codes "three"; checked = 40; issued = 40 }

asked_is_served :
    (route_request
      (codes "Sales")
      ann
      config
      asked
      (some (use_session two))
      at_forty
      (end one 30 (begin two 20 20 (begin one 10 10 []))).0).1
    ≡ served
unfolding route_request begin end contains trim eq_ignore_case text_eq permission_eq
    effective_model_permission
asked_is_served = refl

route_request-Served_example :
    (effective_model_permission config ann ≢ ModelPermission.none)
    × (IsInScope (codes "Sales") ann config asked
        × IsIssued (codes "Sales") ann config (some (use_session two)) (two ∷ one ∷ []))
route_request-Served_example =
    route_request-Served (codes "Sales") ann config three_calls asked (some (use_session two))
      at_forty asked_is_served
