-- ===== src/Llm/Router/Generate.antt =====
-- `generate` and `route_only` (src/jarvis_brain/llm/intelligence_router.py): the gateway first, then the
-- providers of the chain, in order, each with its retries.
use jarvis_brain.Floats.{Floats}
use jarvis_brain.OmniRoute.Schemas.{OmniRouteRoute}
use jarvis_brain.OmniRoute.Signals.{Platform}
use jarvis_brain.OmniRoute.Policy.{RouteSelection, select}
use jarvis_brain.Llm.Names.{LlmProviderName}
use jarvis_brain.Llm.Providers.{LlmStatus, create_provider}
use jarvis_brain.Llm.Router.{
  LlmRequest, LlmRoutingDecision, RoutedRequest, LlmResponse, Provider, Selected, Call, connecting,
  validating, completed, route_selected, failed, asked, logged, record_success, record_failure,
  IntelligenceRouter, Facts, facts_of, chain_of, model_for, make_decision, reason_text,
  gateway_metadata, gateway_chain, routed, with_router_metadata, is_success, opening,
}
use jarvis_brain.Prelude.{
  String, ℕ, zero, suc, ◌+◌, max, Bool, true, false, not, Option, none, some, List, [], ◌∷◌, ◌++◌,
  if◌then◌else◌, nat_eq, string_eq, pair_eq, get_or,
}

module _ (platform : Platform) (fl : Floats) where
  abbrev pub Response : Type 0
  Response = LlmResponse platform fl

  abbrev pub Decision : Type 0
  Decision = LlmRoutingDecision platform fl

  abbrev pub Calls : Type 0
  Calls = List (Call platform fl)

  abbrev pub succeeded : Response → Bool
  succeeded response = is_success platform fl response.status

  -- The loop of `_try_provider`: attempt `n` and those after it, `left` of them.
  unfoldable pub try_loop :
      Provider platform fl → RoutedRequest platform fl → ℕ → ℕ → Response → Response × Calls
  try_loop provider request zero n last = (last, [])
  try_loop provider request (suc left) n last =
      let response = provider.generate request n in
      let later = try_loop provider request left (suc n) response in
      if succeeded response
      then (response, asked provider ∷ [])
      else (later.0, asked provider ∷ later.1)

  module _ (router : IntelligenceRouter platform fl) where
    abbrev pub attempts : ℕ
    attempts = max 1 (router.config.retry_count + 1)

    abbrev pub no_response : Provider platform fl → RoutedRequest platform fl → Response
    no_response provider request = record {
      provider = provider.name;
      model = request.model;
      task_type = request.decision.task_type;
      status = LlmStatus.error;
      content = "";
      error_message = some "Provider did not return a response.";
      router_decision = none;
      tools_allowed = none;
    }

    -- `_try_provider`
    unfoldable pub try_provider :
        Provider platform fl → RoutedRequest platform fl → Response × Calls
    try_provider provider request =
        try_loop provider request attempts 0 (no_response provider request)

    -- One provider of the chain: its answer, if it gives one, and the calls on the way.
    abbrev pub answered :
        Decision → Bool → LlmProviderName → Response × Calls → Option Response × Calls
    answered decision fallback_allowed name (response, calls) =
        if succeeded response
        then (
          some (with_router_metadata platform fl response decision),
          connecting ∷ calls ++ validating ∷ completed ∷ record_success name decision ∷ [],
        )
        else (
          none,
          connecting ∷ calls
              ++ failed "PROVIDER_ERROR" fallback_allowed ∷ record_failure name decision ∷ [],
        )

    unfoldable pub attempt :
        Facts platform fl
        → LlmProviderName
        → String
        → Decision
        → Bool
        → Option (Provider platform fl)
        → Option Response × Calls
    attempt facts name model decision fallback_allowed none = (
      none,
      failed "PROVIDER_NOT_CONFIGURED" fallback_allowed ∷ record_failure name decision ∷ [],
    )
    attempt facts name model decision fallback_allowed (some provider) =
        if not provider.is_available
        then (
          none,
          failed "PROVIDER_UNAVAILABLE" fallback_allowed
              ∷ record_failure provider.name decision
              ∷ [],
        )
        else answered decision fallback_allowed provider.name
            (try_provider provider (routed platform fl facts provider.name model decision))

    -- The answer after the loop, with the last decision if there was one.
    abbrev pub exhausted : Facts platform fl → Option Decision → Response
    exhausted facts last =
        let decision = get_or last (
          make_decision platform fl facts LlmProviderName.mock "mock-model" [] true
            "No configured provider was available." none) in
        record {
          provider = decision.selected_provider;
          model = decision.selected_model;
          task_type = facts.task;
          status = LlmStatus.error;
          content = "I could not reach an available language model safely.";
          error_message = some "No configured LLM provider was available.";
          router_decision = some decision;
          tools_allowed = some false;
        }

    -- An answer ends the loop; without one the rest of it runs.
    abbrev pub settle : Calls → Option Response → Response × Calls → Response × Calls
    settle calls none rest = (rest.0, calls ++ rest.1)
    settle calls (some response) rest = (response, calls)

    abbrev pub is_last : List LlmProviderName → Bool
    is_last [] = true
    is_last (name ∷ names) = false

    abbrev pub direct_decision :
        Facts platform fl → LlmProviderName → List LlmProviderName → Bool → Decision
    direct_decision facts name later fallback_used =
        make_decision platform fl facts name (model_for platform fl router facts name)
          (name ∷ later) fallback_used (reason_text platform fl router facts name fallback_used)
          none

    abbrev pub direct_selected : Decision → Option String → Selected platform fl
    direct_selected decision failed_provider_id = record {
      decision = decision;
      gateway = "direct";
      provider_id = router.provider_value decision.selected_provider;
      route_id = none;
      fallback_from = if decision.fallback_used then failed_provider_id else none;
    }

    abbrev pub direct_attempt :
        Facts platform fl → LlmProviderName → List LlmProviderName → Bool → Option Response × Calls
    direct_attempt facts name later fallback_used =
        let model = model_for platform fl router facts name in
        attempt facts name model (direct_decision facts name later fallback_used)
          (not (is_last later)) (create_provider _ _ router.provider_registry name model)

    -- The loop over the chain from a provider on. `fallback` is `gateway_attempted or index > 0`.
    unfoldable pub direct_loop :
        Facts platform fl
        → Bool
        → Option String
        → Option Decision
        → List LlmProviderName
        → Response × Calls
    direct_loop facts fallback failed_provider_id last [] = (exhausted facts last, [])
    direct_loop facts fallback failed_provider_id last (name ∷ later) =
        let decision = direct_decision facts name later fallback in
        let answer = direct_attempt facts name later fallback in
        settle (route_selected (direct_selected decision failed_provider_id) ∷ answer.1) answer.0
          (direct_loop facts true (some (router.provider_value name)) (some decision) later)

    abbrev pub gateway_decision : Facts platform fl → RouteSelection fl → OmniRouteRoute → Decision
    gateway_decision facts selection route =
        make_decision platform fl facts LlmProviderName.omniroute route.model_id
          (gateway_chain platform fl) false "Selected an explicitly approved OmniRoute route."
          (some (gateway_metadata platform fl facts selection route))

    abbrev pub gateway_selected : Decision → OmniRouteRoute → Selected platform fl
    gateway_selected decision route = record {
      decision = decision;
      gateway = "omniroute";
      provider_id = route.provider_id;
      route_id = some route.route_id;
      fallback_from = none;
    }

    abbrev pub gateway_failed : Decision → Calls
    gateway_failed decision =
        failed "PROVIDER_UNAVAILABLE" true
        ∷ record_failure LlmProviderName.omniroute decision
        ∷ logged "omniroute_fallback_started"
        ∷ []

    abbrev pub gateway_answered :
        Decision → LlmProviderName → Response × Calls → Option Response × Calls
    gateway_answered decision name (response, calls) =
        if succeeded response
        then (
          some (with_router_metadata platform fl response decision),
          calls
              ++ validating
                ∷ completed
                ∷ logged "omniroute_generation_completed"
                ∷ record_success name decision
                ∷ [],
        )
        else (none, calls ++ gateway_failed decision)

    -- The attempt of the gateway's route.
    unfoldable pub gateway_attempt :
        Facts platform fl → Decision → OmniRouteRoute → Option Response × Calls
    gateway_attempt facts decision route =
        let provider = router.provider_registry.gateway_provider route in
        if provider.is_available
        then gateway_answered decision provider.name
            (try_provider provider (routed platform fl facts provider.name route.model_id decision))
        else (none, gateway_failed decision)

    -- The calls on the gateway's route, where the attempt made `calls`.
    abbrev pub gateway_calls : Decision → OmniRouteRoute → Calls → Calls
    gateway_calls decision route calls =
        route_selected (gateway_selected decision route)
        ∷ connecting
        ∷ logged "omniroute_route_selected"
        ∷ calls

    unfoldable pub via_gateway :
        Facts platform fl → RouteSelection fl → Bool → Option OmniRouteRoute → Response × Calls
    via_gateway facts selection true (some route) =
        let decision = gateway_decision facts selection route in
        let answer = gateway_attempt facts decision route in
        settle (gateway_calls decision route answer.1) answer.0
          (direct_loop facts true (some route.provider_id) none (chain_of platform fl router facts))
    via_gateway facts selection true none =
        direct_loop facts false none none (chain_of platform fl router facts)
    via_gateway facts selection false route =
        direct_loop facts false none none (chain_of platform fl router facts)

    abbrev pub selection_of : Facts platform fl → RouteSelection fl
    selection_of facts = select fl router.omniroute_policy facts.classification

    unfoldable pub generate : LlmRequest → Response × Calls
    generate request =
        let facts = facts_of platform fl request in
        let selection = selection_of facts in
        let run = via_gateway facts selection selection.selected selection.route in
        (run.0, opening platform fl selection ++ run.1)

    abbrev pub first_or_mock : List LlmProviderName → LlmProviderName
    first_or_mock [] = LlmProviderName.mock
    first_or_mock (name ∷ names) = name

    abbrev pub preview :
        Facts platform fl → RouteSelection fl → Bool → Option OmniRouteRoute → Decision
    preview facts selection true (some route) =
        make_decision platform fl facts LlmProviderName.omniroute route.model_id
          (gateway_chain platform fl) false
          "Preview selected an explicitly approved OmniRoute route."
          (some (gateway_metadata platform fl facts selection route))
    preview facts selection selected route =
        let chain = chain_of platform fl router facts in
        let provider = first_or_mock chain in
        make_decision platform fl facts provider (model_for platform fl router facts provider) chain
          false "Preview routing decision." none

    -- `route_only`, on the request that it makes of its arguments
    unfoldable pub route_only : LlmRequest → Decision
    route_only request =
        let facts = facts_of platform fl request in
        let selection = selection_of facts in
        preview facts selection selection.selected selection.route
