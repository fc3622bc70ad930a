-- ===== src/OmniRoute/Policy.antt =====
-- The selection of a gateway route (src/jarvis_brain/llm/omniroute/policy.py). Numbers that the code
-- keeps as floats are those of a `Floats`; a reason code carries the number that the code prints.
pub mod Privacy
pub mod Choice
pub mod Examples
use Prim.Native.String.{compare}
use text.Mathlib.Text.{is_lt}
use jarvis_brain.Floats.{Floats, float_min, float_max}
use jarvis_brain.Dict.{Dict, get}
use jarvis_brain.OmniRoute.Schemas.{
  RouteLocality, RoutePrivacy, TaskCategory, ModelCapability, locality_eq, privacy_eq,
  capability_eq, category_eq, OmniRouteRoute, RouteClassification, OmniRouteSettings,
}
use jarvis_brain.OmniRoute.Registry.{OmniRouteRouteRegistry, list_routes, is_operator_approved}
use jarvis_brain.Prelude.{
  ℕ, zero, suc, ◌+◌, ◌-◌, ◌*◌, ◌/◌, ◌%◌, ◌≤◌, ◌<◌, min, max, String, ◌≡◌, refl, sym, ap, ◌∙◌, subst,
  ◌≢◌, ◌↔◌, ◌⊎◌, inl, inr, Bool, true, false, not, ◌&&◌, ◌||◌, Option, none, some, List, [], ◌∷◌,
  ◌++◌, map, reverse, arith, ltb, leb, nat_beq, if◌then◌else◌, ltb→lt, lt→ltb, le→ltb, leb→le,
  le→leb, nat_beq_iff, Bool-cases, Option-cases, Eq, ◌==◌, nat_eq, string_eq, pair_eq, length, drop,
  last_n, keep, All, any, all, length-append, length-drop, length-last_n, contains, get_or, eq_iff,
  eq_refl, list_cases, last_n-last_n-append, last_n-short, drop-append, drop-drop, drop_at,
  drop-nil, ltb_asym, ltb_mono, dec_beq, dec_beq_iff, discrete_eq, unique, unique_from, is_subset,
  Mem, mem-cons_self, mem-cons_of_mem, all-Mem, contains-Mem, find, find-Mem, all_intro, keep-Mem,
  contains_of_Mem, All-Mem, append-eq-nil, unique-eq-nil, eq-cases, if-elim,
}

-- The codes of `_hard_filter`.
pub data Failure : Type 0 where
  not_operator_approved unknown_locality mixed_route_disabled cloud_disabled : Failure
  request_not_cloud_allowed route_privacy_mismatch local_only_violation : Failure
  local_route_privacy_mismatch required_capability_missing : Failure
  structured_output_not_supported tool_calling_not_supported context_window_too_small : Failure
  model_not_discovered provider_unavailable deterministic_authority_required : Failure

unfoldable pub failure_discrete : Discrete Failure
failure_discrete = hlevel

instance abbrev pub failure_eq : Eq Failure
failure_eq = discrete_eq failure_discrete

-- The run of `if test: failures.append(code)` over the checks.
unfoldable pub failures : List (Bool × Failure) → List Failure
failures [] = []
failures ((test, code) ∷ later) = if test then code ∷ failures later else failures later

module _ (fl : Floats) where
  open fl use {Float, ratio, plus, times, over, round_to, less}

  pub data Reason : Type 0 where
    gateway_disabled gateway_key_missing no_eligible_gateway_route hard_filters_passed : Reason
    capability_match task_match health historical_success : Float → Reason
    for_route : String → Reason

  pub record OmniRouteSelectionPolicy : Type 0 where
    pub registry : OmniRouteRouteRegistry
    pub settings : OmniRouteSettings
    pub available_model_ids : Option (List String)
    pub route_health : Dict String Float
    pub historical_success : Dict String Float

  pub record RouteSelection : Type 0 where
    pub selected : Bool
    pub route : Option OmniRouteRoute
    pub score : Float
    pub reason_codes : List Reason
    pub rejected_routes : Dict String (List Failure)

  abbrev pub model_missing : Option (List String) → String → Bool
  model_missing none model = false
  model_missing (some ids) model = not (contains ids model)

  -- route_health.get(route_id, 1.0)
  abbrev pub health_of : OmniRouteSelectionPolicy → OmniRouteRoute → Float
  health_of policy route = get_or (get policy.route_health route.route_id) (ratio 1 1)

  abbrev pub serves_cloud : RoutePrivacy → Bool
  serves_cloud p = p == RoutePrivacy.cloud_allowed || p == RoutePrivacy.public_only

  -- The checks that only concern where a route runs and what the request allows.
  unfoldable pub locality_checks :
      OmniRouteSelectionPolicy → OmniRouteRoute → RouteClassification → List (Bool × Failure)
  locality_checks policy route c =
      (route.locality == RouteLocality.unknown, unknown_locality)
      ∷ (route.locality == RouteLocality.mixed, mixed_route_disabled)
      ∷ (route.locality == RouteLocality.cloud && not policy.settings.allow_cloud, cloud_disabled)
      ∷ (
        route.locality == RouteLocality.cloud && not (c.privacy == "cloud_allowed"),
        request_not_cloud_allowed,
      )
      ∷ (
        route.locality == RouteLocality.cloud && not (serves_cloud route.privacy_class),
        route_privacy_mismatch,
      )
      ∷ (
        c.privacy == "local_only" && not (route.locality == RouteLocality.local),
        local_only_violation,
      )
      ∷ (
        route.locality == RouteLocality.local
            && not (route.privacy_class == RoutePrivacy.local_only),
        local_route_privacy_mismatch,
      )
      ∷ []

  -- The checks of what the route can do, of its health, and of the task.
  unfoldable pub capability_checks :
      OmniRouteSelectionPolicy → OmniRouteRoute → RouteClassification → List (Bool × Failure)
  capability_checks policy route c =
      (not (is_subset c.required_capabilities route.capabilities), required_capability_missing)
      ∷ (
        contains c.required_capabilities ModelCapability.structured_output
            && not route.supports_structured_output,
        structured_output_not_supported,
      )
      ∷ (
        contains c.required_capabilities ModelCapability.tool_calling && not route.supports_tools,
        tool_calling_not_supported,
      )
      ∷ (ltb route.context_window c.estimated_context_tokens, context_window_too_small)
      ∷ (model_missing policy.available_model_ids route.model_id, model_not_discovered)
      ∷ (not (less (ratio 0 1) (health_of policy route)), provider_unavailable)
      ∷ (
        c.task_category == TaskCategory.system_command
            || c.task_category == TaskCategory.safety_sensitive,
        deterministic_authority_required,
      )
      ∷ []

  unfoldable pub hard_filter :
      OmniRouteSelectionPolicy → OmniRouteRoute → RouteClassification → List Failure
  hard_filter policy route c = unique (
      failures (
        (not (is_operator_approved policy.registry.settings route), not_operator_approved)
          ∷ locality_checks policy route c
        ++ capability_checks policy route c))

  -- A dict of the scores of some words, with the score of any other.
  abbrev pub weigh : List (String × Float) → Float → String → Float
  weigh words default word = get_or (get words word) default

  abbrev pub quality_of : String → Float
  quality_of =
      weigh (("high", ratio 1 1) ∷ ("balanced", ratio 7 10) ∷ ("standard", ratio 6 10) ∷ [])
        (ratio 4 10)

  abbrev pub latency_of : String → Float
  latency_of =
      weigh
        (("very_low", ratio 1 1)
          ∷ ("low", ratio 9 10)
          ∷ ("balanced", ratio 65 100)
          ∷ ("high", ratio 3 10)
          ∷ [])
        (ratio 4 10)

  abbrev pub cost_of : String → Float
  cost_of =
      weigh
        (("free_development", ratio 8 10)
          ∷ ("low", ratio 8 10)
          ∷ ("medium", ratio 6 10)
          ∷ ("high", ratio 3 10)
          ∷ [])
        (ratio 4 10)

  abbrev pub quota_of : String → Float
  quota_of =
      weigh (("healthy", ratio 1 1) ∷ ("limited", ratio 5 10) ∷ ("unknown", ratio 4 10) ∷ [])
        (ratio 4 10)

  -- max(0.0, min(1.0, x))
  abbrev pub clamp : Float → Float
  clamp x = float_max fl (ratio 0 1) (float_min fl (ratio 1 1) x)

  unfoldable pub score :
      OmniRouteSelectionPolicy → OmniRouteRoute → RouteClassification → Float × List Reason
  score policy route c =
      let required = unique c.required_capabilities in
      let shared = length (keep (contains route.capabilities) required) in
      let matched = ratio shared (max 1 (length required)) in
      let task = if contains route.task_categories c.task_category then ratio 1 1 else ratio 4 10 in
      let context_fit =
        float_min fl (ratio 1 1) (ratio route.context_window (max 1 c.estimated_context_tokens)) in
      let observed = clamp (health_of policy route) in
      let success = clamp (get_or (get policy.historical_success route.route_id) (ratio 1 2)) in
      let healthy = over (plus observed success) 2 in
      let total =
        plus
          (plus
            (plus
              (plus
                (plus
                  (plus
                    (plus (plus (times matched (ratio 25 100)) (times task (ratio 15 100)))
                      (times (quality_of route.expected_quality_class) (ratio 15 100)))
                    (times healthy (ratio 12 100)))
                  (times (latency_of route.expected_latency_class) (ratio 10 100)))
                (times context_fit (ratio 8 100)))
              (times (quota_of route.quota_class) (ratio 5 100)))
            (times (cost_of route.cost_class) (ratio 5 100)))
          (times (ratio route.operator_priority 100) (ratio 5 100)) in
      (
        total,
        hard_filters_passed
            ∷ capability_match matched
            ∷ task_match task
            ∷ health observed
            ∷ historical_success success
            ∷ for_route route.route_id
            ∷ [],
      )

  pub record Candidate : Type 0 where
    pub total : Float
    pub route : OmniRouteRoute
    pub reasons : List Reason

  abbrev pub Sifted : Type 0
  Sifted = Dict String (List Failure) × List Candidate

  -- One round of the loop: a route with codes is rejected, any other is scored. The routes of a
  -- registry have different IDs, so `rejected` gets each key once.
  unfoldable pub place :
      OmniRouteSelectionPolicy
      → RouteClassification
      → OmniRouteRoute
      → List Failure
      → Sifted
      → Sifted
  place policy c route [] (rejected, candidates) =
      let (total, reasons) = score policy route c in
      (rejected, record { total = total; route = route; reasons = reasons } ∷ candidates)
  place policy c route (code ∷ codes) (rejected, candidates) =
      ((route.route_id, code ∷ codes) ∷ rejected, candidates)

  unfoldable pub sift :
      OmniRouteSelectionPolicy → RouteClassification → List OmniRouteRoute → Sifted
  sift policy c [] = ([], [])
  sift policy c (route ∷ later) =
      place policy c route (hard_filter policy route c) (sift policy c later)

  -- The key `(-score, route_id)` of `b` is below that of `a`.
  abbrev pub ranks_before : Candidate → Candidate → Bool
  ranks_before b a =
      less a.total b.total
      || (not (less b.total a.total) && is_lt (compare b.route.route_id a.route.route_id))

  -- `sorted(candidates, key=…)[0]`: the first of those that no other ranks before.
  unfoldable pub best : Candidate → List Candidate → Candidate
  best a [] = a
  best a (b ∷ later) = best (if ranks_before b a then b else a) later

  abbrev pub refused : Reason → Dict String (List Failure) → RouteSelection
  refused reason rejected = record {
    selected = false;
    route = none;
    score = ratio 0 1;
    reason_codes = reason ∷ [];
    rejected_routes = rejected;
  }

  unfoldable pub choose : Sifted → RouteSelection
  choose (rejected, []) = refused no_eligible_gateway_route rejected
  choose (rejected, a ∷ later) =
      let chosen = best a later in
      record {
        selected = true;
        route = some chosen.route;
        score = round_to 4 chosen.total;
        reason_codes = chosen.reasons;
        rejected_routes = rejected;
      }

  unfoldable pub select : OmniRouteSelectionPolicy → RouteClassification → RouteSelection
  select policy c =
      if not policy.settings.enabled
      then refused gateway_disabled []
      else if policy.settings.api_key == ""
      then refused gateway_key_missing []
      else choose (sift policy c (list_routes policy.registry))
