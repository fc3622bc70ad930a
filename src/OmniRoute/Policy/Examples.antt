-- ===== src/OmniRoute/Policy/Examples.antt =====
-- The selection's theorems at a request that two local routes can answer, over whole numbers.
use jarvis_brain.Floats.{whole}
use jarvis_brain.Dict.{get}
use jarvis_brain.OmniRoute.Schemas.{
  privacy_discrete, locality_discrete, capability_discrete, category_discrete, capability_eq,
  TaskCategory, ModelCapability, OmniRouteRoute, RouteClassification,
}
use jarvis_brain.OmniRoute.Registry.{list_routes, sorted_routes, insert_route, is_operator_approved}
use jarvis_brain.OmniRoute.Registry.Examples.{
  sample_settings, first_route, second_route, two_routes,
}
use jarvis_brain.OmniRoute.Policy.{
  failures, OmniRouteSelectionPolicy, locality_checks, capability_checks, hard_filter, health_of,
  score, place, sift, best, choose, select,
}
use jarvis_brain.OmniRoute.Policy.Choice.{select-best, select_complete}
use jarvis_brain.OmniRoute.Policy.Privacy.{Placement, select-Placement, select-capable}
use jarvis_brain.Prelude.{
  ◌≤◌, ◌≡◌, refl, ◌≢◌, true, false, none, some, List, [], ◌∷◌, arith, nat_eq, string_eq, pair_eq,
  keep, all, contains, eq_iff, unique_from, Mem, mem-cons_self, mem-cons_of_mem,
}

abbrev pub policy : List OmniRouteRoute → OmniRouteSelectionPolicy whole
policy routes = record {
  registry = record { settings = sample_settings; routes = routes };
  settings = sample_settings;
  available_model_ids = none;
  route_health = [];
  historical_success = [];
}

abbrev request : RouteClassification
request = record {
  task_category = TaskCategory.simple_conversation;
  complexity = "low";
  privacy = "local_preferred";
  required_capabilities = ModelCapability.general_chat ∷ [];
  latency_priority = "balanced";
  quality_priority = "balanced";
  estimated_context_tokens = 12;
}

abbrev pub both : OmniRouteSelectionPolicy whole
both = policy two_routes

-- Nothing can answer a system command.
abbrev command : RouteClassification
command = record request { task_category = TaskCategory.system_command }

second_passes : hard_filter whole both second_route request ≡ []
unfolding hard_filter failures locality_checks capability_checks is_operator_approved all contains
    unique_from locality_discrete privacy_discrete capability_discrete get category_discrete
second_passes = refl

command_fails : hard_filter whole both second_route command ≢ []
unfolding hard_filter failures locality_checks capability_checks is_operator_approved all contains
    unique_from locality_discrete privacy_discrete capability_discrete get category_discrete
command_fails = λ e. absurd (ground arith)

second_listed : Mem second_route (list_routes both.registry)
unfolding list_routes sorted_routes insert_route
second_listed = mem-cons_of_mem first_route mem-cons_self

first_chosen : (select whole both request).route ≡ some first_route
unfolding select choose best sift place list_routes sorted_routes insert_route score keep
    hard_filter failures locality_checks capability_checks is_operator_approved all contains
    unique_from locality_discrete privacy_discrete capability_discrete get category_discrete
first_chosen = refl

command-none : (select whole both command).route ≡ none
unfolding select choose best sift place list_routes sorted_routes insert_route score keep
    hard_filter failures locality_checks capability_checks is_operator_approved all contains
    unique_from locality_discrete privacy_discrete capability_discrete get category_discrete
command-none = refl

select-best_example :
    whole.less (score whole both first_route request).0 (score whole both second_route request).0
    ≡ false
select-best_example =
    select-best whole both request first_route second_route first_chosen second_listed second_passes

select_complete_example : hard_filter whole both second_route command ≢ []
select_complete_example =
    select_complete whole both command second_route refl
      (λ e. absurd (ground (arith, (eq_iff "key" "").1 e))) command-none second_listed

select-Placement_example :
    (is_operator_approved both.registry.settings first_route ≡ true)
    × Placement whole both first_route request
select-Placement_example = select-Placement whole both request first_route first_chosen

select-capable_example :
    ((capability : ModelCapability)
      → Mem capability request.required_capabilities
      → contains first_route.capabilities capability ≡ true)
    × (request.estimated_context_tokens ≤ first_route.context_window)
    × (whole.less (whole.ratio 0 1) (health_of whole both first_route) ≡ true)
    × (request.task_category ≢ TaskCategory.system_command)
    × (request.task_category ≢ TaskCategory.safety_sensitive)
select-capable_example = select-capable whole both request first_route first_chosen
