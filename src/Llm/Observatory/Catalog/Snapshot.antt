-- ===== src/Llm/Observatory/Catalog/Snapshot.antt =====
-- The snapshot of the router's topology (src/jarvis_brain/llm/routing_observatory.py, `snapshot`): the
-- catalog that was built, compared with the last one, beside the route that is shown.
use jarvis_brain.Dict.{Dict}
use jarvis_brain.Llm.Observatory.{
  ActiveLlmRoute, RouteLifecycleState, RoutingHistoryEntry, LlmRoutingObservatory, Published,
  current_route,
}
use jarvis_brain.Llm.Observatory.Catalog.{
  ProviderTopologyNode, ProviderTopologyState, active_health,
}
use jarvis_brain.Llm.Observatory.Catalog.Diff.{ProviderCatalogDiff, reconcile_catalog}
use jarvis_brain.Prelude.{
  String, ℕ, zero, suc, Bool, true, false, ◌&&◌, Option, none, some, List, [], ◌∷◌, map, reverse,
  if◌then◌else◌, Eq, ◌==◌, nat_eq, string_eq, pair_eq,
}

-- A node with what `snapshot` updates.
pub record ShownNode : Type 0 where
  pub node : ProviderTopologyNode
  pub selected : Bool
  pub active_model_id : Option String
  pub active_model_topology_id : Option String
  pub is_streaming : Bool
  pub health : ProviderTopologyState

pub record RouterTopologySnapshot : Type 0 where
  pub router_status : String
  pub active_route : Option ActiveLlmRoute
  pub providers : List ShownNode
  pub recent_route_changes : List RoutingHistoryEntry
  pub catalog_diff : Option ProviderCatalogDiff

abbrev pub is_streaming_state : RouteLifecycleState → Bool
is_streaming_state RouteLifecycleState.streaming = true
is_streaming_state state = false

unfoldable pub shown_node : Option ActiveLlmRoute → ProviderTopologyNode → ShownNode
shown_node none node = record {
  node = node;
  selected = false;
  active_model_id = none;
  active_model_topology_id = none;
  is_streaming = false;
  health = active_health node none;
}
shown_node (some active) node =
    let here = node.topology_node_id == active.topology_node_id in
    record {
      node = node;
      selected = here;
      active_model_id = if here then some active.model_id else none;
      active_model_topology_id = if here then some active.topology_model_id else none;
      is_streaming = here && is_streaming_state active.state;
      health = active_health node (some active);
    }

-- xs[:n]
abbrev pub take_first {ℓ} : {A : Type ℓ} → ℕ → List A → List A
take_first zero xs = []
take_first (suc n) [] = []
take_first (suc n) (x ∷ xs) = x ∷ take_first n xs

module _ {D : Type 0} ⦃e : Eq D⦄ (dump : ProviderTopologyNode → D) where
  -- The snapshot, the catalog that is kept after it, and what is published. `enabled` is the router's.
  unfoldable pub snapshot :
      Bool
      → List ProviderTopologyNode
      → Dict String ProviderTopologyNode
      → LlmRoutingObservatory
      → RouterTopologySnapshot × Dict String ProviderTopologyNode × List Published
  snapshot enabled providers catalog o =
      let (kept, diff, events) = reconcile_catalog dump providers catalog in
      let active = current_route o in
      (
        record {
          router_status = if enabled then "ready" else "disabled";
          active_route = active;
          providers = take_first 24 (map (shown_node active) providers);
          recent_route_changes = reverse o.history;
          catalog_diff = diff;
        },
        kept,
        events,
      )
