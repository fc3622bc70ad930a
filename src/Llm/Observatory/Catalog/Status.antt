-- ===== src/Llm/Observatory/Catalog/Status.antt =====
-- The two answers of the catalog on a gateway's route
-- (src/jarvis_brain/llm/routing_observatory.py, `_route_status` and `_gateway_model`).
use jarvis_brain.OmniRoute.Schemas.{OmniRouteRoute, OmniRouteSettings, locality_eq}
use jarvis_brain.OmniRoute.Registry.{OmniRouteRouteRegistry, is_operator_approved}
use jarvis_brain.Llm.Observatory.Catalog.{route_status, gateway_model, is_healthy, is_cloud_off}
use jarvis_brain.Prelude.{String, ◌≡◌, ◌↔◌, true, false, arith, nat_eq, string_eq, pair_eq}

module _ (quote : String → String) (settings : OmniRouteSettings)
    (registry : OmniRouteRouteRegistry) (route : OmniRouteRoute) where
  -- The status of a route is available exactly if the entry of its model is, and the route is no cloud
  -- route or the settings allow the cloud: for an approved cloud route with the cloud off, the entry may
  -- be available and the status is not.
  pub route_status_iff : (is_healthy (route_status settings registry.settings route).1 ≡ true) ↔ (
      ((gateway_model quote settings registry route).is_available ≡ true)
      × (is_cloud_off settings route ≡ false))
  unfolding route_status is_operator_approved
  route_status_iff =
      (λ h. (ground (arith, h), ground (arith, h)), λ (shown, near). ground (arith, shown, near))
