-- ===== src/OmniRoute/Registry/Approval.antt =====
-- The operator's approval and the routes that a registry lists
-- (src/jarvis_brain/llm/omniroute/registry.py).
use mathlib.Core.List.{Perm}
use mathlib.Core.List.Perm
use jarvis_brain.OmniRoute.Schemas.{RouteLocality, locality_eq, OmniRouteRoute, OmniRouteSettings}
use jarvis_brain.OmniRoute.Registry.{
  insert_route, sorted_routes, is_listed, is_operator_approved, is_lt, compare,
}
use jarvis_brain.Prelude.{
  ◌≡◌, ◌≢◌, ◌↔◌, inl, inr, true, List, [], ◌∷◌, arith, Bool-cases, nat_eq, string_eq, pair_eq,
  eq_iff,
}

insert_route-perm :
    (route : OmniRouteRoute) (routes : List OmniRouteRoute)
    → Perm (insert_route route routes) (route ∷ routes)
unfolding insert_route
insert_route-perm route [] = Perm.refl (route ∷ [])
insert_route-perm route (r ∷ rest) = elim (Bool-cases (is_lt (compare r.route_id route.route_id))) [
  | inl before ↦
      rw before (Perm.trans (Perm.cons r (insert_route-perm route rest)) (Perm.swap route r rest))
  | inr behind ↦ rw behind (Perm.refl (route ∷ r ∷ rest))
]

-- Listing sorts: it loses, repeats and makes up no route.
pub sorted_routes-perm : (routes : List OmniRouteRoute) → Perm (sorted_routes routes) routes
unfolding sorted_routes
sorted_routes-perm [] = Perm.refl []
sorted_routes-perm (route ∷ rest) =
    Perm.trans (insert_route-perm route (sorted_routes rest))
      (Perm.cons route (sorted_routes-perm rest))

-- A route is approved exactly when it is enabled, its locality is known, its terms are approved, and
-- each of the operator's three allowlists is empty or names it.
pub is_operator_approved_iff :
    (settings : OmniRouteSettings) (route : OmniRouteRoute)
    → (is_operator_approved settings route ≡ true) ↔ (
        (route.enabled ≡ true)
        × (route.locality ≢ RouteLocality.unknown)
        × (route.terms_status ≡ "approved")
        × (is_listed settings.allowed_routes route.route_id ≡ true)
        × (is_listed settings.allowed_providers route.provider_id ≡ true)
        × (is_listed settings.allowed_models route.model_id ≡ true))
unfolding is_operator_approved
is_operator_approved_iff settings route = grind (
  arith,
  locality_eq.beq_iff route.locality RouteLocality.unknown,
  eq_iff route.terms_status "approved",
)
