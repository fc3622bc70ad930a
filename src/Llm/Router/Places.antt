-- ===== src/Llm/Router/Places.antt =====
-- Where a sensitive request may go (src/jarvis_brain/llm/intelligence_router.py and
-- intelligence_classifiers.py, omniroute/classifier.py, omniroute/policy.py): the classes, the gateway's
-- policy and the fallback chain together.
use mathlib.Core.Option.{some_inj}
use jarvis_brain.Floats.{Floats}
use jarvis_brain.Dict.{Dict}
use jarvis_brain.OmniRoute.Schemas.{OmniRouteRoute, RouteLocality}
use jarvis_brain.OmniRoute.Signals.{
  Platform, has_keyword, joined_user_text, sensitive_keywords, classify_privacy,
}
use jarvis_brain.OmniRoute.Policy.{RouteSelection, Failure}
use jarvis_brain.OmniRoute.Classifier.Boundary.{sensitive_stays}
use jarvis_brain.Llm.Names.{LlmProviderName, name_eq, name_discrete}
use jarvis_brain.Llm.Providers.{create_provider}
use jarvis_brain.Llm.Router.{
  LlmRequest, RoutedRequest, Provider, Registry, asked, IntelligenceRouter, Facts, facts_of,
  chain_of, routed, model_for, route_selected, Call, local_providers, GatewayMetadata,
  blocked_calls, failed, completed, validating, logged, record_success, record_failure,
}
use jarvis_brain.Llm.Router.Chain.{fallback_chain_iff}
use jarvis_brain.Llm.Router.Generate.{
  Response, Decision, Calls, succeeded, try_loop, attempts, try_provider, no_response, answered,
  attempt, settle, is_last, direct_decision, direct_attempt, direct_selected, direct_loop,
  gateway_decision, gateway_calls, gateway_answered, gateway_attempt, via_gateway, selection_of,
  generate, gateway_failed,
}
use jarvis_brain.Prelude.{
  String, ℕ, zero, suc, ◌≡◌, refl, Bool, true, false, not, Option, none, some, List, [], ◌∷◌, ◌++◌,
  nat_eq, string_eq, pair_eq, All, Mem, mem-cons_self, mem-cons_of_mem, if-elim, All-append, sym,
  ◌⊎◌, inl, inr, arith, contains, contains_of_Mem,
}

module _ (platform : Platform) (fl : Floats) where
  -- A selected provider is local, or the gateway's route is.
  abbrev pub IsPlaced : Option (GatewayMetadata platform fl) → LlmProviderName → Type 0
  IsPlaced none name = Mem name local_providers
  IsPlaced (some metadata) name = metadata.route_locality ≡ RouteLocality.local

  -- A provider that may get what stays here: the mock provider, one that the factory of the local
  -- runtime makes, or the gateway's client for a local route.
  abbrev pub IsOwn : Registry platform fl → Provider platform fl → Type 0
  IsOwn registry p =
      (p ≡ registry.mock_provider)
      ⊎ (((model : String) × (p ≡ registry.provider_factory model))
          ⊎ ((route : OmniRouteRoute) × ((p ≡ registry.gateway_provider route)
                × (route.locality ≡ RouteLocality.local))))

  pub create_provider-IsOwn :
      (registry : Registry platform fl) (name : LlmProviderName) (model : String)
      (p : Provider platform fl)
      → Mem name local_providers
      → create_provider _ _ registry name model ≡ some p
      → IsOwn registry p
  unfolding create_provider contains name_discrete
  create_provider-IsOwn registry LlmProviderName.mock model p own e = inl (sym (some_inj.0 e))
  create_provider-IsOwn registry LlmProviderName.ollama model p own e =
      inr (inl (model, sym (some_inj.0 e)))
  create_provider-IsOwn registry LlmProviderName.omniroute model p own e =
      absurd (ground (arith, contains_of_Mem local_providers LlmProviderName.omniroute own))
  create_provider-IsOwn registry name model p own e = absurd (ground (arith, e))

  module _ (router : IntelligenceRouter platform fl) where
    -- A selected route stays here, and so does a request that a provider gets.
    unfoldable pub StaysHere : Call platform fl → Type 0
    StaysHere (route_selected s) = IsPlaced s.decision.metadata s.decision.selected_provider
    StaysHere (asked p) = IsOwn router.provider_registry p
    StaysHere call = Unit

    abbrev Stay : Calls platform fl → Type 0
    Stay calls = All StaysHere calls

    try_loop-Stay :
        (provider : Provider platform fl) (request : RoutedRequest platform fl) (left n : ℕ)
        (last : Response platform fl)
        → IsOwn router.provider_registry provider
        → Stay (try_loop platform fl provider request left n last).1
    unfolding try_loop StaysHere
    try_loop-Stay provider request zero n last own = tt
    try_loop-Stay provider request (suc left) n last own =
        if-elim (λ (r : Response platform fl × Calls platform fl). Stay r.1)
          (succeeded platform fl (provider.generate request n)) _ _ (λ good. (own, tt))
          (λ bad.
            (own, try_loop-Stay provider request left (suc n) (provider.generate request n) own))

    abbrev Here : Option (Response platform fl) × Calls platform fl → Type 0
    Here answer = Stay answer.1

    answered-Here :
        (decision : Decision platform fl) (allowed : Bool) (name : LlmProviderName)
        (run : Response platform fl × Calls platform fl)
        → Stay run.1
        → Here (answered platform fl router decision allowed name run)
    unfolding StaysHere
    answered-Here decision allowed name (response, calls) h =
        if-elim Here (succeeded platform fl response) _ _
          (λ good. (
            tt,
            All-append StaysHere calls (validating ∷ completed ∷ record_success name decision ∷ [])
                h (tt, (tt, (tt, tt))),
          ))
          (λ bad. (
            tt,
            All-append StaysHere calls
                (failed "PROVIDER_ERROR" allowed ∷ record_failure name decision ∷ []) h
                (tt, (tt, tt)),
          ))

    try_provider-Stay :
        (p : Provider platform fl) (request : RoutedRequest platform fl)
        → IsOwn router.provider_registry p
        → Stay (try_provider platform fl router p request).1
    unfolding try_provider
    try_provider-Stay p request own =
        try_loop-Stay p request (attempts platform fl router) 0
          (no_response platform fl router p request) own

    attempt-Here :
        (facts : Facts platform fl) (name : LlmProviderName) (model : String)
        (decision : Decision platform fl) (allowed : Bool)
        (provider : Option (Provider platform fl))
        → ((p : Provider platform fl) → provider ≡ some p → IsOwn router.provider_registry p)
        → Here (attempt platform fl router facts name model decision allowed provider)
    unfolding attempt StaysHere
    attempt-Here facts name model decision allowed none own = (tt, (tt, tt))
    attempt-Here facts name model decision allowed (some p) own =
        if-elim Here (not p.is_available) _ _ (λ off. (tt, (tt, tt)))
          (λ on.
            let request = routed platform fl facts p.name model decision in
            answered-Here decision allowed p.name (try_provider platform fl router p request)
              (try_provider-Stay p request (own p refl)))

    settle-Stay :
        (calls : Calls platform fl) (answer : Option (Response platform fl))
        (rest : Response platform fl × Calls platform fl)
        → Stay calls
        → Stay rest.1
        → Stay (settle platform fl router calls answer rest).1
    settle-Stay calls none rest h later = All-append StaysHere calls rest.1 h later
    settle-Stay calls (some response) rest h later = h

    direct_loop-Stay :
        (facts : Facts platform fl) (fallback : Bool) (failed_id : Option String)
        (last : Option (Decision platform fl)) (chain : List LlmProviderName)
        → ((name : LlmProviderName) → Mem name chain → Mem name local_providers)
        → Stay (direct_loop platform fl router facts fallback failed_id last chain).1
    unfolding direct_loop StaysHere
    direct_loop-Stay facts fallback failed_id last [] own = tt
    direct_loop-Stay facts fallback failed_id last (first ∷ later) own =
        let decision = direct_decision platform fl router facts first later fallback in
        let answer = direct_attempt platform fl router facts first later fallback in
        let model = model_for platform fl router facts first in
        settle-Stay
          (route_selected (direct_selected platform fl router decision failed_id) ∷ answer.1)
          answer.0
          (direct_loop platform fl router facts true (some (router.provider_value first))
            (some decision) later)
          (
            own first mem-cons_self,
            attempt-Here facts first model decision (not (is_last platform fl router later))
                (create_provider _ _ router.provider_registry first model)
                (λ p made.
                  create_provider-IsOwn router.provider_registry first model p
                    (own first mem-cons_self) made),
          )
          (direct_loop-Stay facts true (some (router.provider_value first)) (some decision) later
            (λ name m. own name (mem-cons_of_mem first m)))

    gateway_answered-Here :
        (decision : Decision platform fl) (name : LlmProviderName)
        (run : Response platform fl × Calls platform fl)
        → Stay run.1
        → Here (gateway_answered platform fl router decision name run)
    unfolding StaysHere
    gateway_answered-Here decision name (response, calls) h =
        if-elim Here (succeeded platform fl response) _ _
          (λ good.
            All-append StaysHere calls
              (validating
                ∷ completed
                ∷ logged "omniroute_generation_completed"
                ∷ record_success name decision
                ∷ [])
              h (tt, (tt, (tt, (tt, tt)))))
          (λ bad.
            All-append StaysHere calls (gateway_failed platform fl router decision) h
              (tt, (tt, (tt, tt))))

    gateway_attempt-Here :
        (facts : Facts platform fl) (decision : Decision platform fl) (route : OmniRouteRoute)
        → route.locality ≡ RouteLocality.local
        → Here (gateway_attempt platform fl router facts decision route)
    unfolding gateway_attempt StaysHere
    gateway_attempt-Here facts decision route near =
        let p = router.provider_registry.gateway_provider route in
        let request = routed platform fl facts p.name route.model_id decision in
        if-elim Here p.is_available _ _
          (λ on.
            gateway_answered-Here decision p.name (try_provider platform fl router p request)
              (try_provider-Stay p request (inr (inr (route, (refl, near))))))
          (λ off. (tt, (tt, (tt, tt))))

    via_gateway-Stay :
        (facts : Facts platform fl)
        → ((name : LlmProviderName)
            → Mem name (chain_of platform fl router facts)
            → Mem name local_providers)
        → (selection : RouteSelection fl) (selected : Bool) (route : Option OmniRouteRoute)
        → ((r : OmniRouteRoute) → route ≡ some r → r.locality ≡ RouteLocality.local)
        → Stay (via_gateway platform fl router facts selection selected route).1
    unfolding via_gateway StaysHere
    via_gateway-Stay facts own selection true (some route) near =
        let decision = gateway_decision platform fl router facts selection route in
        let answer = gateway_attempt platform fl router facts decision route in
        settle-Stay (gateway_calls platform fl router decision route answer.1) answer.0
          (direct_loop platform fl router facts true (some route.provider_id) none
            (chain_of platform fl router facts))
          (near route refl, (tt, (tt, gateway_attempt-Here facts decision route (near route refl))))
          (direct_loop-Stay facts true (some route.provider_id) none
            (chain_of platform fl router facts) own)
    via_gateway-Stay facts own selection true none near =
        direct_loop-Stay facts false none none (chain_of platform fl router facts) own
    via_gateway-Stay facts own selection false route near =
        direct_loop-Stay facts false none none (chain_of platform fl router facts) own

    pub opening-Stay :
        (rejected : Dict String (List Failure)) (calls : Calls platform fl)
        → Stay calls
        → Stay (blocked_calls platform fl rejected ++ calls)
    unfolding StaysHere
    opening-Stay [] calls h = h
    opening-Stay (entry ∷ entries) calls h = (tt, h)

    -- A request whose user text has a sensitive keyword, and which does not override its privacy class,
    -- is only ever given to the mock provider, to a provider that the factory of the local runtime makes,
    -- or to the gateway's client for a local route; and each route that the router selects for it is a
    -- provider that the router counts as local, or a local route of the gateway. This holds whatever the
    -- configured chains, the provider that the request names, the authorisation for the cloud and the
    -- answers of the providers. Where the factory's providers run is the factory's matter: it may be set
    -- to a hosted one. (The platform's value of the class LOCAL_ONLY is "local_only".)
    pub generate-StaysHere :
        (request : LlmRequest)
        → request.metadata.privacy_class ≡ none
        → platform.local_only ≡ "local_only"
        → has_keyword sensitive_keywords (joined_user_text platform request.messages) ≡ true
        → All StaysHere (generate platform fl router request).1
    unfolding generate StaysHere facts_of classify_privacy
    generate-StaysHere request plain value sensitive =
        let facts = facts_of platform fl request in
        let selection = selection_of platform fl router facts in
        let own : facts.privacy ≡ platform.local_only = rw plain (rw sensitive refl) in
        let run =
          via_gateway-Stay facts
            (λ name here.
              (fallback_chain_iff platform router.config facts.task facts.privacy
                  request.provider).2
                own name here)
            selection selection.selected selection.route
            (λ r chosen.
              (sensitive_stays fl router.omniroute_policy platform request.messages request.metadata
                r plain value sensitive chosen).0) in
        (tt, (tt, opening-Stay selection.rejected_routes _ run))
