-- ===== src/Llm/Router/Closed.antt =====
-- Each route that `generate` selects is closed before the next one (src/jarvis_brain/llm/intelligence_router.py).
use jarvis_brain.Floats.{Floats}
use jarvis_brain.Dict.{Dict}
use jarvis_brain.OmniRoute.Schemas.{OmniRouteRoute}
use jarvis_brain.OmniRoute.Signals.{Platform}
use jarvis_brain.OmniRoute.Policy.{RouteSelection, Failure}
use jarvis_brain.Llm.Names.{LlmProviderName}
use jarvis_brain.Llm.Providers.{create_provider}
use jarvis_brain.Llm.Router.{
  LlmRequest, RoutedRequest, Provider, IntelligenceRouter, Facts, facts_of, chain_of, routed,
  model_for, Call, blocked_calls, logged, record_success, record_failure, connecting, validating,
  completed, route_selected, stream_delta, failed,
}
use jarvis_brain.Llm.Router.Generate.{
  Response, Decision, Calls, succeeded, try_loop, attempts, no_response, try_provider, answered,
  attempt, settle, is_last, direct_decision, direct_attempt, direct_selected, direct_loop,
  gateway_decision, gateway_calls, gateway_answered, gateway_attempt, via_gateway, selection_of,
  generate, gateway_failed,
}
use jarvis_brain.Prelude.{
  String, ℕ, zero, suc, ◌≡◌, refl, ap, ◌∙◌, Bool, true, false, not, ◌&&◌, arith, Option, none, some,
  List, [], ◌∷◌, ◌++◌, nat_eq, string_eq, pair_eq, if-elim,
}

module _ (platform : Platform) (fl : Floats) where
  -- Whether a route may be active after the calls, where `b` says if one may be before.
  abbrev pub open_by : Bool → Call platform fl → Bool
  open_by b completed = false
  open_by b (failed reason allowed) = false
  open_by b connecting = true
  open_by b validating = true
  open_by b (route_selected s) = true
  open_by b (stream_delta n) = true
  open_by b call = b

  unfoldable pub open_after : Bool → Calls platform fl → Bool
  open_after b [] = b
  open_after b (call ∷ calls) = open_after (open_by b call) calls

  pub open_after-append :
      (b : Bool) (xs ys : Calls platform fl)
      → open_after b (xs ++ ys) ≡ open_after (open_after b xs) ys
  unfolding open_after
  open_after-append b [] ys = refl
  open_after-append b (call ∷ xs) ys = open_after-append (open_by b call) xs ys

  -- Whether each route is selected while none is active.
  unfoldable pub in_turn : Bool → Calls platform fl → Bool
  in_turn b [] = true
  in_turn b (route_selected s ∷ calls) = let later = in_turn true calls in not b && later
  in_turn b (call ∷ calls) = in_turn (open_by b call) calls

  in_turn-append :
      (b : Bool) (xs ys : Calls platform fl)
      → in_turn b (xs ++ ys) ≡ (in_turn b xs && in_turn (open_after b xs) ys)
  unfolding in_turn open_after
  in_turn-append b [] ys = refl
  in_turn-append b (route_selected s ∷ xs) ys = ground (arith, in_turn-append true xs ys)
  in_turn-append b (call ∷ xs) ys = in_turn-append (open_by b call) xs ys

  -- Calls that select no route out of turn, and after which no route is active.
  abbrev pub Closes : Bool → Calls platform fl → Type 0
  Closes b calls = (open_after b calls ≡ false) × (in_turn b calls ≡ true)

  abbrev IsClosed : Calls platform fl → Type 0
  IsClosed calls = (b : Bool) → Closes b calls

  -- Calls that select no route.
  abbrev IsPlain : Calls platform fl → Type 0
  IsPlain calls = (b : Bool) → in_turn b calls ≡ true

  Closes-append :
      (b : Bool) (calls tail : Calls platform fl)
      → IsPlain calls
      → IsClosed tail
      → Closes b (calls ++ tail)
  Closes-append b calls tail plain closed = (
    open_after-append b calls tail ∙ (closed (open_after b calls)).0,
    in_turn-append b calls tail ∙ ground (arith, plain b, (closed (open_after b calls)).1),
  )

  try_loop-IsPlain :
      (provider : Provider platform fl) (request : RoutedRequest platform fl) (left n : ℕ)
      (last : Response platform fl)
      → IsPlain (try_loop platform fl provider request left n last).1
  unfolding try_loop in_turn
  try_loop-IsPlain provider request zero n last b = refl
  try_loop-IsPlain provider request (suc left) n last b =
      if-elim (λ (r : Response platform fl × Calls platform fl). in_turn b r.1 ≡ true)
        (succeeded platform fl (provider.generate request n)) _ _ (λ good. refl)
        (λ bad. try_loop-IsPlain provider request left (suc n) (provider.generate request n) b)

  module _ (router : IntelligenceRouter platform fl) where
    try_provider-IsPlain :
        (p : Provider platform fl) (request : RoutedRequest platform fl)
        → IsPlain (try_provider platform fl router p request).1
    unfolding try_provider
    try_provider-IsPlain p request =
        try_loop-IsPlain p request (attempts platform fl router) 0
          (no_response platform fl router p request)

    answered-IsClosed :
        (decision : Decision platform fl) (allowed : Bool) (name : LlmProviderName)
        (run : Response platform fl × Calls platform fl)
        → IsPlain run.1
        → IsClosed (answered platform fl router decision allowed name run).1
    unfolding open_after in_turn
    answered-IsClosed decision allowed name (response, calls) plain b =
        if-elim (λ (r : Option (Response platform fl) × Calls platform fl). Closes b r.1)
          (succeeded platform fl response) _ _
          (λ good.
            Closes-append true calls (validating ∷ completed ∷ record_success name decision ∷ [])
              plain (λ c. (refl, refl)))
          (λ bad.
            Closes-append true calls
              (failed "PROVIDER_ERROR" allowed ∷ record_failure name decision ∷ []) plain
              (λ c. (refl, refl)))

    attempt-IsClosed :
        (facts : Facts platform fl) (name : LlmProviderName) (model : String)
        (decision : Decision platform fl) (allowed : Bool)
        (provider : Option (Provider platform fl))
        → IsClosed (attempt platform fl router facts name model decision allowed provider).1
    unfolding attempt open_after in_turn
    attempt-IsClosed facts name model decision allowed none b = (refl, refl)
    attempt-IsClosed facts name model decision allowed (some p) b =
        let request = routed platform fl facts p.name model decision in
        if-elim (λ (r : Option (Response platform fl) × Calls platform fl). Closes b r.1)
          (not p.is_available) _ _ (λ off. (refl, refl))
          (λ on.
            answered-IsClosed decision allowed p.name (try_provider platform fl router p request)
              (try_provider-IsPlain p request) b)

    settle-Closes :
        (calls : Calls platform fl) (answer : Option (Response platform fl))
        (rest : Response platform fl × Calls platform fl)
        → Closes false calls
        → Closes false rest.1
        → Closes false (settle platform fl router calls answer rest).1
    settle-Closes calls none rest (over, turns) (rest_over, rest_turns) = (
      open_after-append false calls rest.1 ∙ ap (λ b. open_after b rest.1) over ∙ rest_over,
      in_turn-append false calls rest.1
          ∙ ground (arith, turns, ap (λ b. in_turn b rest.1) over ∙ rest_turns),
    )
    settle-Closes calls (some response) rest h later = h

    direct_loop-Closes :
        (facts : Facts platform fl) (fallback : Bool) (failed_id : Option String)
        (last : Option (Decision platform fl)) (chain : List LlmProviderName)
        → Closes false (direct_loop platform fl router facts fallback failed_id last chain).1
    unfolding direct_loop open_after in_turn
    direct_loop-Closes facts fallback failed_id last [] = (refl, refl)
    direct_loop-Closes facts fallback failed_id last (first ∷ later) =
        let decision = direct_decision platform fl router facts first later fallback in
        let answer = direct_attempt platform fl router facts first later fallback in
        let model = model_for platform fl router facts first in
        settle-Closes
          (route_selected (direct_selected platform fl router decision failed_id) ∷ answer.1)
          answer.0
          (direct_loop platform fl router facts true (some (router.provider_value first))
            (some decision) later)
          (attempt-IsClosed facts first model decision (not (is_last platform fl router later))
            (create_provider _ _ router.provider_registry first model) true)
          (direct_loop-Closes facts true (some (router.provider_value first)) (some decision) later)

    gateway_answered-IsClosed :
        (decision : Decision platform fl) (name : LlmProviderName)
        (run : Response platform fl × Calls platform fl)
        → IsPlain run.1
        → IsClosed (gateway_answered platform fl router decision name run).1
    unfolding open_after in_turn
    gateway_answered-IsClosed decision name (response, calls) plain b =
        if-elim (λ (r : Option (Response platform fl) × Calls platform fl). Closes b r.1)
          (succeeded platform fl response) _ _
          (λ good.
            Closes-append b calls
              (validating
                ∷ completed
                ∷ logged "omniroute_generation_completed"
                ∷ record_success name decision
                ∷ [])
              plain (λ c. (refl, refl)))
          (λ bad.
            Closes-append b calls (gateway_failed platform fl router decision) plain
              (λ c. (refl, refl)))

    gateway_attempt-IsClosed :
        (facts : Facts platform fl) (decision : Decision platform fl) (route : OmniRouteRoute)
        → IsClosed (gateway_attempt platform fl router facts decision route).1
    unfolding gateway_attempt open_after in_turn
    gateway_attempt-IsClosed facts decision route b =
        let p = router.provider_registry.gateway_provider route in
        let request = routed platform fl facts p.name route.model_id decision in
        if-elim (λ (r : Option (Response platform fl) × Calls platform fl). Closes b r.1)
          p.is_available _ _
          (λ on.
            gateway_answered-IsClosed decision p.name (try_provider platform fl router p request)
              (try_provider-IsPlain p request) b)
          (λ off. (refl, refl))

    via_gateway-Closes :
        (facts : Facts platform fl) (selection : RouteSelection fl) (selected : Bool)
        (route : Option OmniRouteRoute)
        → Closes false (via_gateway platform fl router facts selection selected route).1
    unfolding via_gateway open_after in_turn
    via_gateway-Closes facts selection true (some route) =
        let decision = gateway_decision platform fl router facts selection route in
        let answer = gateway_attempt platform fl router facts decision route in
        settle-Closes (gateway_calls platform fl router decision route answer.1) answer.0
          (direct_loop platform fl router facts true (some route.provider_id) none
            (chain_of platform fl router facts))
          (gateway_attempt-IsClosed facts decision route true)
          (direct_loop-Closes facts true (some route.provider_id) none
            (chain_of platform fl router facts))
    via_gateway-Closes facts selection true none =
        direct_loop-Closes facts false none none (chain_of platform fl router facts)
    via_gateway-Closes facts selection false route =
        direct_loop-Closes facts false none none (chain_of platform fl router facts)

    opening-Closes :
        (rejected : Dict String (List Failure)) (calls : Calls platform fl)
        → Closes false calls
        → Closes false (blocked_calls platform fl rejected ++ calls)
    unfolding open_after in_turn
    opening-Closes [] calls h = h
    opening-Closes (entry ∷ entries) calls h = h

    -- Each route that `generate` selects is selected while none is active, and at the end none is.
    pub generate-Closes :
        (request : LlmRequest) → Closes false (generate platform fl router request).1
    unfolding generate open_after in_turn
    generate-Closes request =
        let facts = facts_of platform fl request in
        let selection = selection_of platform fl router facts in
        opening-Closes selection.rejected_routes _
          (via_gateway-Closes facts selection selection.selected selection.route)
