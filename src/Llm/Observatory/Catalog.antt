-- ===== src/Llm/Observatory/Catalog.antt =====
-- The catalog of providers (src/jarvis_brain/llm/routing_observatory.py): how it is built from the
-- router's models and routes, and how a new one is compared with the last. Display names and the lists
-- of capabilities and categories are left out; `dump` is pydantic's `model_dump` of a node, and `quote`
-- is urllib's.
pub mod Status
pub mod Diff
pub mod Snapshot
use jarvis_brain.Text.{sorted_texts, or_else}
use jarvis_brain.Dict.{Dict, get, put, values, keys}
use jarvis_brain.OmniRoute.Schemas.{
  OmniRouteRoute, OmniRouteSettings, RouteLocality, RoutePrivacy, locality_eq,
}
use jarvis_brain.OmniRoute.Registry.{OmniRouteRouteRegistry, is_operator_approved, list_routes}
use jarvis_brain.Llm.Observatory.{
  joined_id, ActiveLlmRoute, RouteLifecycleState, Published, plain, or_else,
}
use jarvis_brain.Prelude.{
  String, ℕ, zero, suc, ◌+◌, ◌-◌, ◌*◌, ◌/◌, ◌%◌, ◌≤◌, ◌<◌, min, max, ◌≡◌, refl, sym, ap, ◌∙◌, subst,
  ◌≢◌, ◌↔◌, ◌⊎◌, inl, inr, Bool, true, false, not, ◌&&◌, ◌||◌, Option, none, some, List, [], ◌∷◌,
  ◌++◌, map, reverse, arith, ltb, leb, nat_beq, if◌then◌else◌, ltb→lt, lt→ltb, le→ltb, leb→le,
  le→leb, nat_beq_iff, Bool-cases, Option-cases, Eq, ◌==◌, nat_eq, string_eq, pair_eq, length, drop,
  last_n, keep, All, any, all, length-append, length-drop, length-last_n, contains, get_or, eq_iff,
  eq_refl, list_cases, last_n-last_n-append, last_n-short, drop-append, drop-drop, drop_at,
  drop-nil, ltb_asym, ltb_mono, dec_beq, dec_beq_iff, discrete_eq, unique, unique_from, is_subset,
  Mem, mem-cons_self, mem-cons_of_mem, all-Mem, contains-Mem, find, find-Mem, all_intro, keep-Mem,
  contains_of_Mem, All-Mem, append-eq-nil, unique-eq-nil, eq-cases, if-elim, contains-unique_from,
  mem_keep, mem_second, holds-prop, All-append, contains-keep, contains-unique_from_eq,
  none-contained,
}

pub data ProviderTopologyState : Type 0 where
  available unavailable disabled blocked credential_missing : ProviderTopologyState
  connecting streaming failed : ProviderTopologyState

pub record ModelTopologyEntry : Type 0 where
  pub topology_model_id : String
  pub topology_route_id : String
  pub provider_id : String
  pub gateway : String
  pub route_id : Option String
  pub model_id : String
  pub approved : Bool
  pub is_available : Bool
  pub is_blocked : Bool
  pub block_reason : Option String
  pub context_window : ℕ
  pub locality : RouteLocality
  pub privacy_class : RoutePrivacy
  pub supports_streaming : Bool
  pub supports_tools : Bool
  pub supports_structured_output : Bool
  pub development_only : Bool
  pub terms_status : String

pub record ProviderTopologyNode : Type 0 where
  pub topology_node_id : String
  pub provider_id : String
  pub gateway : String
  pub configured : Bool
  pub approved : Bool
  pub is_available : Bool
  pub health : ProviderTopologyState
  pub locality : RouteLocality
  pub development_only : Bool
  pub policy_status : String
  pub quota_status : String
  pub terms_status : String
  pub model_count : ℕ
  pub approved_model_count : ℕ
  pub models : List ModelTopologyEntry

-- What the catalog reads of a model of the local runtime.
pub record DirectModel : Type 0 where
  pub model : String
  pub enabled : Bool
  pub context_length : ℕ
  pub supports_streaming : Bool
  pub supports_tool_calling : Bool
  pub supports_structured_output : Bool

-- settings.ready_for_requests
abbrev pub ready_for_requests : OmniRouteSettings → Bool
ready_for_requests settings = settings.enabled && not (settings.api_key == "")

abbrev pub is_cloud_off : OmniRouteSettings → OmniRouteRoute → Bool
is_cloud_off settings route = route.locality == RouteLocality.cloud && not settings.allow_cloud

-- The reason of `_gateway_model`.
abbrev pub block_reason_of : OmniRouteSettings → OmniRouteRoute → Option String
block_reason_of settings route =
    if not route.enabled
    then some "ROUTE_DISABLED"
    else if not (route.terms_status == "approved")
    then some "TERMS_NOT_APPROVED"
    else if is_cloud_off settings route
    then some "CLOUD_DISABLED"
    else if settings.api_key == ""
    then some "CREDENTIAL_MISSING"
    else none

-- `_route_status`, where `approval` is the registry's settings
unfoldable pub route_status :
    OmniRouteSettings → OmniRouteSettings → OmniRouteRoute → String × ProviderTopologyState
route_status settings approval route =
    if not route.enabled
    then ("route_disabled", disabled)
    else if not (route.terms_status == "approved")
    then ("terms_not_approved", blocked)
    else if is_cloud_off settings route
    then ("cloud_disabled", blocked)
    else if settings.api_key == ""
    then ("credential_missing", credential_missing)
    else if not settings.enabled
    then ("gateway_disabled", disabled)
    else if not (is_operator_approved approval route)
    then ("not_allowlisted", blocked)
    else ("allowed", available)

abbrev pub is_healthy : ProviderTopologyState → Bool
is_healthy available = true
is_healthy state = false

module _ (quote : String → String) where
  abbrev pub node_id : String → String → String
  node_id gateway provider = joined_id quote (gateway ∷ provider ∷ [])

  abbrev pub model_id_of : String → String → String → String
  model_id_of gateway provider model = joined_id quote (gateway ∷ provider ∷ model ∷ [])

  abbrev pub route_id_of : String → String → String → String → String
  route_id_of gateway provider model segment =
      joined_id quote (gateway ∷ provider ∷ model ∷ segment ∷ [])

  -- `_gateway_model`
  abbrev pub gateway_model :
      OmniRouteSettings → OmniRouteRouteRegistry → OmniRouteRoute → ModelTopologyEntry
  gateway_model settings registry route =
      let approved = is_operator_approved registry.settings route in
      record {
        topology_model_id = model_id_of route.gateway route.provider_id route.model_id;
        topology_route_id =
            route_id_of route.gateway route.provider_id route.model_id
              (or_else route.route_id "direct");
        provider_id = route.provider_id;
        gateway = route.gateway;
        route_id = some route.route_id;
        model_id = route.model_id;
        approved = approved;
        is_available = approved && ready_for_requests settings;
        is_blocked = not approved;
        block_reason = block_reason_of settings route;
        context_window = route.context_window;
        locality = route.locality;
        privacy_class = route.privacy_class;
        supports_streaming = route.supports_streaming;
        supports_tools = route.supports_tools;
        supports_structured_output = route.supports_structured_output;
        development_only = route.development_only;
        terms_status = route.terms_status;
      }

  abbrev pub direct_model : Bool → DirectModel → ModelTopologyEntry
  direct_model healthy m = record {
    topology_model_id = model_id_of "direct" "ollama" m.model;
    topology_route_id = route_id_of "direct" "ollama" m.model "direct";
    provider_id = "ollama";
    gateway = "direct";
    route_id = none;
    model_id = m.model;
    approved = m.enabled;
    is_available = healthy;
    is_blocked = false;
    block_reason = none;
    context_window = m.context_length;
    locality = RouteLocality.local;
    privacy_class = RoutePrivacy.local_only;
    supports_streaming = m.supports_streaming;
    supports_tools = m.supports_tool_calling;
    supports_structured_output = m.supports_structured_output;
    development_only = false;
    terms_status = "local_runtime";
  }

  abbrev pub direct_node : Bool → List DirectModel → ProviderTopologyNode
  direct_node healthy models = record {
    topology_node_id = node_id "direct" "ollama";
    provider_id = "ollama";
    gateway = "direct";
    configured = ltb 0 (length models);
    approved = true;
    is_available = healthy;
    health = if healthy then available else unavailable;
    locality = RouteLocality.local;
    development_only = false;
    policy_status = "allowed";
    quota_status = "";
    terms_status = "local_runtime";
    model_count = length models;
    approved_model_count = length models;
    models = map (direct_model healthy) models;
  }

  abbrev pub new_node :
      OmniRouteSettings → OmniRouteRouteRegistry → OmniRouteRoute → ProviderTopologyNode
  new_node settings registry route =
      let status = route_status settings registry.settings route in
      record {
        topology_node_id = node_id route.gateway route.provider_id;
        provider_id = route.provider_id;
        gateway = "omniroute";
        configured = true;
        approved = is_operator_approved registry.settings route;
        is_available = is_healthy status.1;
        health = status.1;
        locality = route.locality;
        development_only = route.development_only;
        policy_status = status.0;
        quota_status = route.quota_class;
        terms_status = route.terms_status;
        model_count = 0;
        approved_model_count = 0;
        models = [];
      }

  -- What a route adds to its provider's node.
  abbrev pub with_model :
      ModelTopologyEntry → OmniRouteRoute → ProviderTopologyNode → ProviderTopologyNode
  with_model model route node =
      let models = node.models ++ model ∷ [] in
      record node {
        models = models;
        model_count = length models;
        approved_model_count = length (keep (λ m. m.approved) models);
        approved = node.approved || model.approved;
        development_only = node.development_only || route.development_only;
      }

  unfoldable pub add_routes :
      OmniRouteSettings
      → OmniRouteRouteRegistry
      → List OmniRouteRoute
      → Dict String ProviderTopologyNode
      → Dict String ProviderTopologyNode
  add_routes settings registry [] nodes = nodes
  add_routes settings registry (route ∷ routes) nodes =
      let id = node_id route.gateway route.provider_id in
      let node = get_or (get nodes id) (new_node settings registry route) in
      add_routes settings registry routes
        (put nodes id (with_model (gateway_model settings registry route) route node))

  -- [nodes[key] for key in sorted(nodes)]
  unfoldable pub nodes_at :
      Dict String ProviderTopologyNode → List String → List ProviderTopologyNode
  nodes_at nodes [] = []
  nodes_at nodes (key ∷ rest) = found (get nodes key) (nodes_at nodes rest)
    where
      found : Option ProviderTopologyNode → List ProviderTopologyNode → List ProviderTopologyNode
      found none later = later
      found (some node) later = node ∷ later

  -- `_build_catalog`, where `healthy` says that the local runtime is available
  unfoldable pub build_catalog :
      OmniRouteSettings
      → OmniRouteRouteRegistry
      → Bool
      → List DirectModel
      → List ProviderTopologyNode
  build_catalog settings registry healthy models =
      let start = (node_id "direct" "ollama", direct_node healthy models) ∷ [] in
      let nodes = add_routes settings registry (list_routes registry) start in
      nodes_at nodes (sorted_texts (keys nodes))

-- `_active_health`
unfoldable pub active_health : ProviderTopologyNode → Option ActiveLlmRoute → ProviderTopologyState
active_health node none = node.health
active_health node (some active) =
    if not (node.topology_node_id == active.topology_node_id)
    then node.health
    else elim active.state [
      | RouteLifecycleState.connecting ↦ connecting
      | RouteLifecycleState.streaming ↦ streaming
      | RouteLifecycleState.failed ↦ failed
      | _ ↦ node.health
    ]
