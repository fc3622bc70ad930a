-- ===== src/Llm/Router/Stream/Places.antt =====
-- Where the stream of a sensitive request may come from (src/jarvis_brain/llm/intelligence_router.py,
-- `generate_stream`).
use jarvis_brain.Floats.{Floats}
use jarvis_brain.OmniRoute.Schemas.{OmniRouteRoute, RouteLocality}
use jarvis_brain.OmniRoute.Signals.{
  Platform, has_keyword, joined_user_text, sensitive_keywords, classify_privacy,
}
use jarvis_brain.OmniRoute.Policy.{RouteSelection}
use jarvis_brain.OmniRoute.Classifier.Boundary.{sensitive_stays}
use jarvis_brain.Llm.Names.{LlmProviderName}
use jarvis_brain.Llm.Providers.{StreamEvent, create_provider}
use jarvis_brain.Llm.Router.{
  LlmRequest, asked, Provider, IntelligenceRouter, Facts, facts_of, chain_of, model_for,
  local_providers, routed,
}
use jarvis_brain.Llm.Router.Chain.{fallback_chain_iff}
use jarvis_brain.Llm.Router.Generate.{Decision, Calls, selection_of}
use jarvis_brain.Llm.Router.Places.{IsPlaced, IsOwn, StaysHere, opening-Stay, create_provider-IsOwn}
use jarvis_brain.Llm.Router.Stream.{
  Candidate, Output, Ending, Drained, drain, drained, stream_decision, follow, stream_loop,
  stream_calls, id_of, logged_if, entry, gateway_candidate, direct_candidates, candidates_of,
  generate_stream, is_gateway,
}
use jarvis_brain.Prelude.{
  inr, String, ℕ, ◌+◌, ◌≡◌, refl, Bool, true, false, not, ◌&&◌, Option, none, some, List, [], ◌∷◌,
  ◌++◌, ◌==◌, nat_eq, string_eq, pair_eq, All, Mem, mem-cons_self, mem-cons_of_mem, if-elim,
  All-append,
}

module _ (platform : Platform) (fl : Floats) where
  module _ (router : IntelligenceRouter platform fl) where
    abbrev Stay : Calls platform fl → Type 0
    Stay calls = All (StaysHere platform fl router) calls

    logged_if-Stay : (b : Bool) (event : String) → Stay (logged_if platform fl b event)
    unfolding StaysHere
    logged_if-Stay true event = (tt, tt)
    logged_if-Stay false event = tt

    drain-Stay :
        (c : Candidate platform fl) (decision : Decision platform fl) (visible : Bool) (chunk : ℕ)
        (events : List StreamEvent)
        → Stay (drain platform fl c decision visible chunk events).calls
    unfolding drain StaysHere
    drain-Stay c decision visible chunk [] = tt
    drain-Stay c decision visible chunk (StreamEvent.token content ∷ later) =
        if-elim (λ (d : Drained platform fl). Stay d.calls) (content == "") _ _
          (λ empty. drain-Stay c decision visible chunk later)
          (λ shown. (tt, drain-Stay c decision true (chunk + 1) later))
    drain-Stay c decision visible chunk (StreamEvent.done ∷ later) = (
      tt,
      (tt, (tt, logged_if-Stay (is_gateway platform fl c.name) "omniroute_stream_completed")),
    )
    drain-Stay c decision true chunk (StreamEvent.error ∷ later) = (tt, (tt, tt))
    drain-Stay c decision false chunk (StreamEvent.error ∷ later) =
        (tt, (tt, logged_if-Stay (is_gateway platform fl c.name) "omniroute_fallback_started"))
    drain-Stay c decision visible chunk (StreamEvent.raises ∷ later) = tt
    drain-Stay c decision visible chunk (StreamEvent.other ∷ later) =
        drain-Stay c decision visible chunk later

    -- A candidate that is local, or whose gateway's route is, and whose provider may get what stays here.
    abbrev IsHere : Candidate platform fl → Type 0
    IsHere c =
        IsPlaced platform fl c.gateway_metadata c.name
        × IsOwn platform fl router.provider_registry c.provider

    stream_calls-Stay :
        (c : Candidate platform fl) (decision : Decision platform fl) (failed_id : Option String)
        → IsPlaced platform fl decision.metadata decision.selected_provider
        → IsOwn platform fl router.provider_registry c.provider
        → Stay (stream_calls platform fl router c decision failed_id)
    unfolding StaysHere
    stream_calls-Stay c decision failed_id placed own =
        let b = is_gateway platform fl c.name in
        (
          placed,
          (
            tt,
            All-append (StaysHere platform fl router)
                (logged_if platform fl b "omniroute_stream_started") (asked c.provider ∷ [])
                (logged_if-Stay b "omniroute_stream_started") (own, tt),
          ),
        )

    follow-Stay :
        (calls : Calls platform fl) (output : List (Output platform fl)) (made : Calls platform fl)
        (ending : Ending) (after_break after_end : List (Output platform fl) × Calls platform fl)
        → Stay calls
        → Stay made
        → Stay after_break.1
        → Stay after_end.1
        → Stay
            (follow platform fl router calls
              (record { output = output; calls = made; ending = ending })
              after_break
              after_end).1
    follow-Stay calls output made Ending.returned after_break after_end h k l m =
        All-append (StaysHere platform fl router) calls made h k
    follow-Stay calls output made Ending.broken after_break after_end h k l m =
        All-append (StaysHere platform fl router) (calls ++ made) after_break.1
          (All-append (StaysHere platform fl router) calls made h k) l
    follow-Stay calls output made Ending.ran_out after_break after_end h k l m =
        All-append (StaysHere platform fl router) (calls ++ made) after_end.1
          (All-append (StaysHere platform fl router) calls made h k) m

    stream_loop-Stay :
        (facts : Facts platform fl) (fallback : Bool) (failed_id : Option String)
        (candidates : List (Candidate platform fl))
        → All IsHere candidates
        → Stay (stream_loop platform fl router facts fallback failed_id candidates).1
    unfolding stream_loop StaysHere
    stream_loop-Stay facts fallback failed_id [] own = tt
    stream_loop-Stay facts fallback failed_id (c ∷ later) own =
        let decision = stream_decision platform fl router facts c later fallback in
        let d = drained platform fl router facts c later fallback in
        let next = some (id_of platform fl router c) in
        if-elim (λ (r : List (Output platform fl) × Calls platform fl). Stay r.1)
          (not c.provider.is_available) _ _ (λ off. stream_loop-Stay facts true next later own.1)
          (λ on.
            follow-Stay (stream_calls platform fl router c decision failed_id) d.output d.calls
              d.ending (stream_loop platform fl router facts true next later)
              (stream_loop platform fl router facts true failed_id later)
              (stream_calls-Stay c decision failed_id own.0.0 own.0.1)
              (drain-Stay c decision false 0
                (c.provider.generate_stream (routed platform fl facts c.name c.model decision)))
              (stream_loop-Stay facts true next later own.1)
              (stream_loop-Stay facts true failed_id later own.1))

    entry-IsHere :
        (name : LlmProviderName) (model : String) (provider : Option (Provider platform fl))
        → Mem name local_providers
        → ((p : Provider platform fl)
            → provider ≡ some p
            → IsOwn platform fl router.provider_registry p)
        → All IsHere (entry platform fl router name model provider)
    entry-IsHere name model none near own = tt
    entry-IsHere name model (some p) near own = ((near, own p refl), tt)

    direct-IsHere :
        (facts : Facts platform fl) (names : List LlmProviderName)
        → ((name : LlmProviderName) → Mem name names → Mem name local_providers)
        → All IsHere (direct_candidates platform fl router facts names)
    unfolding direct_candidates
    direct-IsHere facts [] own = tt
    direct-IsHere facts (name ∷ names) own =
        let model = model_for platform fl router facts name in
        let provider = create_provider _ _ router.provider_registry name model in
        All-append IsHere (entry platform fl router name model provider)
          (direct_candidates platform fl router facts names)
          (entry-IsHere name model provider (own name mem-cons_self) (λ p made.
            create_provider-IsOwn platform fl router.provider_registry name model p
              (own name mem-cons_self) made))
          (direct-IsHere facts names (λ n m. own n (mem-cons_of_mem name m)))

    gateway-IsHere :
        (facts : Facts platform fl) (selection : RouteSelection fl) (selected : Bool)
        (route : Option OmniRouteRoute)
        → ((r : OmniRouteRoute) → route ≡ some r → r.locality ≡ RouteLocality.local)
        → All IsHere (gateway_candidate platform fl router facts selection selected route)
    gateway-IsHere facts selection true (some route) near =
        if-elim (λ (cs : List (Candidate platform fl)). All IsHere cs) route.supports_streaming _ _
          (λ streams. ((near route refl, inr (inr (route, (refl, near route refl)))), tt))
          (λ silent. tt)
    gateway-IsHere facts selection true none near = tt
    gateway-IsHere facts selection false route near = tt

    -- For the stream of a request with a sensitive keyword in its user text, which
    -- does not override its privacy class, the router opens only streams of the mock provider, of a
    -- provider that the factory of the local runtime makes (which may be set to a hosted one), or of the
    -- gateway's client for a local route; and each route that it selects is a provider that it counts as
    -- local, or a local route of the gateway.
    pub generate_stream-StaysHere :
        (request : LlmRequest)
        → request.metadata.privacy_class ≡ none
        → platform.local_only ≡ "local_only"
        → has_keyword sensitive_keywords (joined_user_text platform request.messages) ≡ true
        → All (StaysHere platform fl router) (generate_stream platform fl router request).1
    unfolding generate_stream StaysHere facts_of classify_privacy
    generate_stream-StaysHere request plain value sensitive =
        let facts = facts_of platform fl request in
        let selection = selection_of platform fl router facts in
        let own : facts.privacy ≡ platform.local_only = rw plain (rw sensitive refl) in
        let candidates =
          All-append IsHere
            (gateway_candidate platform fl router facts selection
              (router.streaming_enabled && selection.selected) selection.route)
            (direct_candidates platform fl router facts (chain_of platform fl router facts))
            (gateway-IsHere facts selection (router.streaming_enabled && selection.selected)
              selection.route
              (λ r chosen.
                (sensitive_stays fl router.omniroute_policy platform request.messages
                  request.metadata r plain value sensitive chosen).0))
            (direct-IsHere facts (chain_of platform fl router facts) (λ name here.
              (fallback_chain_iff platform router.config facts.task facts.privacy
                  request.provider).2
                own name here)) in
        (
          tt,
          (
            tt,
            opening-Stay platform fl router selection.rejected_routes _ (
                stream_loop-Stay facts false none (candidates_of platform fl router facts selection)
                  candidates),
          ),
        )
