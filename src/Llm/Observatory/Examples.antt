-- ===== src/Llm/Observatory/Examples.antt =====
-- The observatory's theorems at one provider and one route.
use jarvis_brain.Floats.{whole}
use jarvis_brain.Dict.{Dict, get}
use jarvis_brain.OmniRoute.Registry.Examples.{first_route}
use jarvis_brain.OmniRoute.Policy.Examples.{both}
use jarvis_brain.OmniRoute.Classifier.Examples.{names, hello}
use jarvis_brain.Llm.Router.Generate.{generate}
use jarvis_brain.Llm.Router.Examples.{router, closed, asks}
use jarvis_brain.Llm.Observatory.{
  ActiveLlmRoute, LlmRoutingObservatory, Selection, new_observatory, new_route, current_route,
  newest, selects, completes, observe_all,
}
use jarvis_brain.Llm.Observatory.Bounds.{IsBounded, fresh_observatory-IsBounded}
use jarvis_brain.Llm.Observatory.Current.{IsLatest, current_route-IsLatest}
use jarvis_brain.Llm.Observatory.Protocol.{Settled, SettledThrough, generate-SettledThrough}
use jarvis_brain.Llm.Observatory.Catalog.{
  ProviderTopologyNode, direct_node, route_status, gateway_model, is_healthy, is_cloud_off,
}
use jarvis_brain.Llm.Observatory.Catalog.Status.{route_status_iff}
use jarvis_brain.Llm.Observatory.Catalog.Diff.{
  catalog_from, reconcile_catalog, reconcile_catalog-twice,
}
use jarvis_brain.Prelude.{
  String, ◌≡◌, refl, ◌↔◌, true, false, none, some, List, [], ◌∷◌, arith, nat_eq, string_eq, pair_eq,
  keep,
}

abbrev same_text : String → String
same_text text = text

abbrev selection : Selection
selection = record {
  source = "chat";
  task_category = "conversation";
  complexity = 1;
  privacy_class = "local_preferred";
  gateway = "direct";
  provider_id = "ollama";
  model_id = "llama";
  route_id = none;
  fallback_from = none;
}

fresh_observatory-IsBounded_example :
    IsBounded
      (observe_all same_text (selects 1 "r" selection ∷ completes 2 "r" ∷ []) (new_observatory 80))
fresh_observatory-IsBounded_example =
    fresh_observatory-IsBounded same_text 80 (selects 1 "r" selection ∷ completes 2 "r" ∷ [])

abbrev route : ActiveLlmRoute
route = new_route same_text 1 "r" selection

abbrev watching : LlmRoutingObservatory
watching = record { history_limit = 5; routes = ("r", route) ∷ []; history = [] }

route_shown : current_route watching ≡ some route
unfolding current_route keep newest
route_shown = refl

current_route-IsLatest_example : IsLatest watching route
current_route-IsLatest_example = current_route-IsLatest watching route route_shown

nothing_active : Settled "q" (new_observatory 5)
unfolding new_observatory get
nothing_active r e = absurd (ground (arith, e))

generate-SettledThrough_example :
    SettledThrough names whole
      (λ task. task)
      "chat"
      same_text
      "q"
      (λ n. n)
      0
      (generate names whole (router closed) (asks hello)).1
      (new_observatory 5)
generate-SettledThrough_example =
    generate-SettledThrough names whole (λ task. task) "chat" same_text "q" (router closed)
      (asks hello) (λ n. n) (new_observatory 5) nothing_active

route_status_iff_example :
    (is_healthy (route_status both.settings both.registry.settings first_route).1 ≡ true) ↔ (
      ((gateway_model same_text both.settings both.registry first_route).is_available ≡ true)
      × (is_cloud_off both.settings first_route ≡ false))
route_status_iff_example = route_status_iff same_text both.settings both.registry first_route

abbrev dump : ProviderTopologyNode → String
dump node = node.policy_status

abbrev nodes : List ProviderTopologyNode
nodes = direct_node same_text true [] ∷ []

reconcile_catalog-twice_example :
    reconcile_catalog dump nodes (reconcile_catalog dump nodes []).0
    ≡ (catalog_from nodes [], none, [])
reconcile_catalog-twice_example = reconcile_catalog-twice dump nodes []

abbrev nothing : Dict String ProviderTopologyNode
nothing = []

abbrev offline : Dict String ProviderTopologyNode
offline = ("n", direct_node same_text false []) ∷ []
