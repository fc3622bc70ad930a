-- ===== src/OmniRoute/Registry/Examples.antt =====
-- The allowlist's theorems at two routes of one class, the second the fallback of the first.
use jarvis_brain.OmniRoute.Schemas.{
  privacy_discrete, locality_discrete, RouteLocality, RoutePrivacy, TaskCategory, ModelCapability,
  OmniRouteRoute, OmniRouteSettings,
}
use jarvis_brain.OmniRoute.Registry.{
  RegistryError, ok, err, fallback_fits, check_routes, validate_unique_routes,
  OmniRouteRouteRegistry, new_registry, get_route,
}
use jarvis_brain.OmniRoute.Registry.Fallbacks.{Chain-same_class, Chain, FallsBack}
use jarvis_brain.Prelude.{
  String, ◌≡◌, refl, true, false, some, List, [], ◌∷◌, nat_eq, string_eq, pair_eq, all, contains,
  unique_from, mem-cons_self, find,
}

abbrev pub sample_route : String → RouteLocality → RoutePrivacy → List String → OmniRouteRoute
sample_route id where_it_runs class fallbacks = record {
  route_id = id;
  gateway = "omniroute";
  provider_id = "ollama";
  model_id = "small";
  display_name = id;
  locality = where_it_runs;
  privacy_class = class;
  capabilities = ModelCapability.general_chat ∷ ModelCapability.low_latency ∷ [];
  task_categories = TaskCategory.simple_conversation ∷ [];
  context_window = 4096;
  supports_streaming = true;
  supports_tools = false;
  supports_structured_output = false;
  expected_latency_class = "low";
  expected_quality_class = "standard";
  cost_class = "low";
  quota_class = "healthy";
  terms_status = "approved";
  development_only = false;
  production_approved = true;
  enabled = true;
  operator_priority = 50;
  fallback_route_ids = fallbacks;
}

abbrev pub sample_settings : OmniRouteSettings
sample_settings = record {
  enabled = true;
  api_key = "key";
  allow_cloud = true;
  allowed_providers = "ollama" ∷ [];
  allowed_models = [];
  allowed_routes = [];
}

abbrev pub first_route : OmniRouteRoute
first_route = sample_route "a" RouteLocality.local RoutePrivacy.local_only ("b" ∷ [])

abbrev pub second_route : OmniRouteRoute
second_route = sample_route "b" RouteLocality.local RoutePrivacy.local_only []

abbrev pub two_routes : List OmniRouteRoute
two_routes = first_route ∷ second_route ∷ []

abbrev pub sample_registry : OmniRouteRouteRegistry
sample_registry = record { settings = sample_settings; routes = two_routes }

abbrev abroad : OmniRouteRoute
abroad = sample_route "b" RouteLocality.cloud RoutePrivacy.cloud_allowed []

-- A fallback that leaves the class of the route is refused, and so is an ID that stands twice.
crossing_refused :
    validate_unique_routes (first_route ∷ abroad ∷ []) ≡ err (RegistryError.crosses_class "a")
unfolding validate_unique_routes check_routes fallback_fits find all contains unique_from
    privacy_discrete locality_discrete
crossing_refused = refl

doubled_refused :
    validate_unique_routes (second_route ∷ second_route ∷ [])
    ≡ err RegistryError.duplicate_route_ids
unfolding validate_unique_routes check_routes fallback_fits find all contains unique_from
    privacy_discrete locality_discrete
doubled_refused = refl

two_valid : validate_unique_routes two_routes ≡ ok two_routes
unfolding validate_unique_routes check_routes fallback_fits find all contains unique_from
    privacy_discrete locality_discrete
two_valid = refl

two_built : new_registry sample_settings two_routes ≡ ok sample_registry
unfolding new_registry validate_unique_routes check_routes fallback_fits find all contains
    unique_from privacy_discrete locality_discrete
two_built = refl

second_found : get_route sample_registry "b" ≡ some second_route
unfolding get_route find
second_found = refl

first_falls : Chain sample_registry first_route second_route
first_falls = Chain.next Chain.here (FallsBack.falls "b" mem-cons_self mem-cons_self second_found)

Chain-same_class_example :
    (second_route.privacy_class ≡ first_route.privacy_class)
    × (second_route.locality ≡ first_route.locality)
Chain-same_class_example =
    Chain-same_class sample_settings two_routes sample_registry two_built first_falls
