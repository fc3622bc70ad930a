-- ===== src/Llm/Router/Answers.antt =====
-- What `generate` answers (src/jarvis_brain/llm/intelligence_router.py).
use mathlib.Core.Logic.Or
use mathlib.Core.List.{not-mem-nil, mem-cons}
use jarvis_brain.Floats.{Floats}
use jarvis_brain.OmniRoute.Schemas.{OmniRouteRoute}
use jarvis_brain.OmniRoute.Signals.{Platform}
use jarvis_brain.OmniRoute.Policy.{RouteSelection}
use jarvis_brain.Llm.Names.{LlmProviderName}
use jarvis_brain.Llm.Providers.{create_provider}
use jarvis_brain.Llm.Router.{
  LlmRequest, RoutedRequest, Provider, IntelligenceRouter, Facts, facts_of, chain_of, routed,
  model_for, route_selected,
}
use jarvis_brain.Llm.Router.Generate.{
  Response, Decision, Calls, succeeded, try_loop, attempts, try_provider, no_response, answered,
  attempt, settle, exhausted, is_last, direct_decision, direct_attempt, direct_selected,
  direct_loop, gateway_decision, gateway_calls, gateway_answered, gateway_attempt, via_gateway,
  selection_of, generate,
}
use jarvis_brain.Prelude.{
  String, ℕ, zero, suc, ◌+◌, ◌≤◌, ◌<◌, ◌≡◌, refl, sym, ◌∙◌, subst, inl, inr, Bool, true, false, not,
  Option, none, some, List, [], ◌∷◌, arith, nat_eq, string_eq, pair_eq, Mem, eq-cases, if-elim,
  holds-prop,
}

module _ (platform : Platform) (fl : Floats) where
  -- A response of the router carries the decision whose model and task it names, and gives no tools.
  abbrev pub IsSealed : Response platform fl → Type 0
  IsSealed response =
      (response.tools_allowed ≡ some false)
      × ((decision : Decision platform fl) × (response.router_decision ≡ some decision)
          × (response.model ≡ decision.selected_model)
          × (response.task_type ≡ decision.task_type))

  -- What an attempt may answer: nothing, or a success that is sealed.
  abbrev IsGood : Option (Response platform fl) → Type 0
  IsGood none = Unit
  IsGood (some response) = (succeeded platform fl response ≡ true) × IsSealed response

  abbrev is_answer : Option (Response platform fl) → Bool
  is_answer none = false
  is_answer (some response) = true

  -- A success at one of the attempts is found.
  try_loop-succeeded :
      (provider : Provider platform fl) (request : RoutedRequest platform fl) (left n k : ℕ)
      (last : Response platform fl)
      → n ≤ k
      → k < n + left
      → succeeded platform fl (provider.generate request k) ≡ true
      → succeeded platform fl (try_loop platform fl provider request left n last).0 ≡ true
  unfolding try_loop
  try_loop-succeeded provider request zero n k last low high good = absurd (omega arith)
  try_loop-succeeded provider request (suc left) n k last low high good =
      if-elim (λ (r : Response platform fl × Calls platform fl). succeeded platform fl r.0 ≡ true)
        (succeeded platform fl (provider.generate request n)) _ _ (λ now. now)
        (λ bad. elim (eq-cases n k) [
          | inl e ↦
              let here =
                subst (λ z. succeeded platform fl (provider.generate request z) ≡ true) (sym e)
                  good in
              absurd (ground (arith, here, bad))
          | inr other ↦
              try_loop-succeeded provider request left (suc n) k (provider.generate request n)
                (omega (arith, other)) (omega arith) good
        ])

  module _ (router : IntelligenceRouter platform fl) where
    answered-IsGood :
        (decision : Decision platform fl) (allowed : Bool) (name : LlmProviderName)
        (run : Response platform fl × Calls platform fl)
        → IsGood (answered platform fl router decision allowed name run).0
          × (succeeded platform fl run.0
              ≡ is_answer (answered platform fl router decision allowed name run).0)
    answered-IsGood decision allowed name (response, calls) =
        if-elim
          (λ (r : Option (Response platform fl) × Calls platform fl).
            IsGood r.0 × (succeeded platform fl response ≡ is_answer r.0))
          (succeeded platform fl response) _ _
          (λ good. ((good, (refl, (decision, refl, refl, refl))), good)) (λ bad. (tt, bad))

    attempt-IsGood :
        (facts : Facts platform fl) (name : LlmProviderName) (model : String)
        (decision : Decision platform fl) (allowed : Bool)
        (provider : Option (Provider platform fl))
        → IsGood (attempt platform fl router facts name model decision allowed provider).0
    unfolding attempt
    attempt-IsGood facts name model decision allowed none = tt
    attempt-IsGood facts name model decision allowed (some p) =
        if-elim (λ (r : Option (Response platform fl) × Calls platform fl). IsGood r.0)
          (not p.is_available) _ _ (λ off. tt)
          (λ on.
            (answered-IsGood decision allowed p.name (
              try_provider platform fl router p
                (routed platform fl facts p.name model decision))).0)

    -- A provider that is available and that answers every request, at one of the attempts made.
    pub record Answers (p : Provider platform fl) : Type 0 where
      pub available : p.is_available ≡ true
      pub turn : ℕ
      pub early : turn < attempts platform fl router
      pub good :
          (request : RoutedRequest platform fl)
          → succeeded platform fl (p.generate request turn) ≡ true

    try_provider-succeeded :
        (p : Provider platform fl)
        → Answers p
        → (request : RoutedRequest platform fl)
        → succeeded platform fl (try_provider platform fl router p request).0 ≡ true
    unfolding try_provider
    try_provider-succeeded p a request =
        try_loop-succeeded p request (attempts platform fl router) 0 a.turn
          (no_response platform fl router p request) (omega arith) (omega (arith, a.early))
          (a.good request)

    attempt-is_answer :
        (facts : Facts platform fl) (name : LlmProviderName) (model : String)
        (decision : Decision platform fl) (allowed : Bool) (p : Provider platform fl)
        → Answers p
        → is_answer (attempt platform fl router facts name model decision allowed (some p)).0 ≡ true
    unfolding attempt
    attempt-is_answer facts name model decision allowed p a =
        if-elim (λ (r : Option (Response platform fl) × Calls platform fl). is_answer r.0 ≡ true)
          (not p.is_available) _ _ (λ off. absurd (ground (arith, off, a.available)))
          (λ on.
            let run =
              try_provider platform fl router p (routed platform fl facts p.name model decision) in
            sym (answered-IsGood decision allowed p.name run).1
            ∙ try_provider-succeeded p a (routed platform fl facts p.name model decision))

    -- What the chain's entry `name` stands for.
    abbrev pub made_for : Facts platform fl → LlmProviderName → Option (Provider platform fl)
    made_for facts name =
        create_provider _ _ router.provider_registry name (model_for platform fl router facts name)

    direct_attempt-is_answer :
        (facts : Facts platform fl) (name : LlmProviderName) (later : List LlmProviderName)
        (fallback : Bool) (p : Provider platform fl)
        → made_for facts name ≡ some p
        → Answers p
        → is_answer (direct_attempt platform fl router facts name later fallback).0 ≡ true
    direct_attempt-is_answer facts name later fallback p made a = rw made (
        attempt-is_answer facts name (model_for platform fl router facts name)
          (direct_decision platform fl router facts name later fallback)
          (not (is_last platform fl router later)) p a)

    settle-succeeded :
        (calls : Calls platform fl) (answer : Option (Response platform fl))
        (rest : Response platform fl × Calls platform fl)
        → IsGood answer
        → (is_answer answer ≡ false → succeeded platform fl rest.0 ≡ true)
        → succeeded platform fl (settle platform fl router calls answer rest).0 ≡ true
    settle-succeeded calls none rest good later = later refl
    settle-succeeded calls (some response) rest good later = good.0

    direct_loop-succeeded :
        (facts : Facts platform fl) (fallback : Bool) (failed_id : Option String)
        (last : Option (Decision platform fl)) (chain : List LlmProviderName)
        (name : LlmProviderName) (p : Provider platform fl)
        → Mem name chain
        → made_for facts name ≡ some p
        → Answers p
        → succeeded platform fl
            (direct_loop platform fl router facts fallback failed_id last chain).0
          ≡ true
    unfolding direct_loop
    direct_loop-succeeded facts fallback failed_id last [] name p m made a = absurd (not-mem-nil m)
    direct_loop-succeeded facts fallback failed_id last (first ∷ later) name p m made a =
        let decision = direct_decision platform fl router facts first later fallback in
        let answer = direct_attempt platform fl router facts first later fallback in
        settle-succeeded
          (route_selected (direct_selected platform fl router decision failed_id) ∷ answer.1)
          answer.0
          (direct_loop platform fl router facts true (some (router.provider_value first))
            (some decision) later)
          (attempt-IsGood facts first (model_for platform fl router facts first) decision
            (not (is_last platform fl router later)) (made_for facts first))
          (λ silent.
            Or.elim
              (holds-prop (
                succeeded platform fl
                  (direct_loop platform fl router facts true (some (router.provider_value first))
                    (some decision) later).0))
              (mem-cons.0 m)
              (λ same.
                let answers =
                  subst
                    (λ z.
                      is_answer (direct_attempt platform fl router facts z later fallback).0 ≡ true)
                    same (direct_attempt-is_answer facts name later fallback p made a) in
                absurd (ground (arith, answers, silent)))
              (λ rest.
                direct_loop-succeeded facts true (some (router.provider_value first))
                  (some decision) later name p rest made a))

    gateway_answered-IsGood :
        (decision : Decision platform fl) (name : LlmProviderName)
        (run : Response platform fl × Calls platform fl)
        → IsGood (gateway_answered platform fl router decision name run).0
    gateway_answered-IsGood decision name (response, calls) =
        if-elim (λ (r : Option (Response platform fl) × Calls platform fl). IsGood r.0)
          (succeeded platform fl response) _ _
          (λ good. (good, (refl, (decision, refl, refl, refl)))) (λ bad. tt)

    gateway_attempt-IsGood :
        (facts : Facts platform fl) (decision : Decision platform fl) (route : OmniRouteRoute)
        → IsGood (gateway_attempt platform fl router facts decision route).0
    unfolding gateway_attempt
    gateway_attempt-IsGood facts decision route =
        let p = router.provider_registry.gateway_provider route in
        if-elim (λ (r : Option (Response platform fl) × Calls platform fl). IsGood r.0)
          p.is_available _ _
          (λ on. gateway_answered-IsGood decision p.name (
            try_provider platform fl router p
              (routed platform fl facts p.name route.model_id decision)))
          (λ off. tt)

    module _ (facts : Facts platform fl) (name : LlmProviderName) (p : Provider platform fl)
        (here : Mem name (chain_of platform fl router facts)) (made : made_for facts name ≡ some p)
        (a : Answers p) where
      loop-succeeded :
          (fallback : Bool) (failed_id : Option String)
          → succeeded platform fl
              (direct_loop platform fl router facts fallback failed_id none
                (chain_of platform fl router facts)).0
            ≡ true
      loop-succeeded fallback failed_id =
          direct_loop-succeeded facts fallback failed_id none (chain_of platform fl router facts)
            name p here made a

      via_gateway-succeeded :
          (selection : RouteSelection fl) (selected : Bool) (route : Option OmniRouteRoute)
          → succeeded platform fl (via_gateway platform fl router facts selection selected route).0
            ≡ true
      unfolding via_gateway
      via_gateway-succeeded selection true (some route) =
          let decision = gateway_decision platform fl router facts selection route in
          settle-succeeded
            (gateway_calls platform fl router decision route
              (gateway_attempt platform fl router facts decision route).1)
            (gateway_attempt platform fl router facts decision route).0
            (direct_loop platform fl router facts true (some route.provider_id) none
              (chain_of platform fl router facts))
            (gateway_attempt-IsGood facts decision route)
            (λ silent. loop-succeeded true (some route.provider_id))
      via_gateway-succeeded selection true none = loop-succeeded false none
      via_gateway-succeeded selection false route = loop-succeeded false none

    -- If one provider of the fallback chain is there, is available and answers every request within the
    -- attempts that the router makes, then the router answers with success, whatever the gateway and the
    -- other providers do.
    pub generate-succeeded :
        (request : LlmRequest) (name : LlmProviderName) (p : Provider platform fl)
        → Mem name (chain_of platform fl router (facts_of platform fl request))
        → made_for (facts_of platform fl request) name ≡ some p
        → Answers p
        → succeeded platform fl (generate platform fl router request).0 ≡ true
    unfolding generate
    generate-succeeded request name p here made a =
        let facts = facts_of platform fl request in
        let selection = selection_of platform fl router facts in
        via_gateway-succeeded facts name p here made a selection selection.selected selection.route

    settle-IsSealed :
        (calls : Calls platform fl) (answer : Option (Response platform fl))
        (rest : Response platform fl × Calls platform fl)
        → IsGood answer
        → IsSealed rest.0
        → IsSealed (settle platform fl router calls answer rest).0
    settle-IsSealed calls none rest good later = later
    settle-IsSealed calls (some response) rest good later = good.1

    -- The decision that a loop starts from is about the same task.
    abbrev OfTask : Facts platform fl → Option (Decision platform fl) → Type 0
    OfTask facts none = Unit
    OfTask facts (some decision) = facts.task ≡ decision.task_type

    exhausted-IsSealed :
        (facts : Facts platform fl) (last : Option (Decision platform fl))
        → OfTask facts last
        → IsSealed (exhausted platform fl router facts last)
    exhausted-IsSealed facts none of_task = (refl, (_, refl, refl, refl))
    exhausted-IsSealed facts (some decision) of_task = (refl, (decision, refl, refl, of_task))

    direct_loop-IsSealed :
        (facts : Facts platform fl) (fallback : Bool) (failed_id : Option String)
        (last : Option (Decision platform fl)) (chain : List LlmProviderName)
        → OfTask facts last
        → IsSealed (direct_loop platform fl router facts fallback failed_id last chain).0
    unfolding direct_loop
    direct_loop-IsSealed facts fallback failed_id last [] of_task =
        exhausted-IsSealed facts last of_task
    direct_loop-IsSealed facts fallback failed_id last (first ∷ later) of_task =
        let decision = direct_decision platform fl router facts first later fallback in
        settle-IsSealed
          (route_selected (direct_selected platform fl router decision failed_id)
            ∷ (direct_attempt platform fl router facts first later fallback).1)
          (direct_attempt platform fl router facts first later fallback).0
          (direct_loop platform fl router facts true (some (router.provider_value first))
            (some decision) later)
          (attempt-IsGood facts first (model_for platform fl router facts first) decision
            (not (is_last platform fl router later)) (made_for facts first))
          (direct_loop-IsSealed facts true (some (router.provider_value first)) (some decision)
            later refl)

    via_gateway-IsSealed :
        (facts : Facts platform fl) (selection : RouteSelection fl) (selected : Bool)
        (route : Option OmniRouteRoute)
        → IsSealed (via_gateway platform fl router facts selection selected route).0
    unfolding via_gateway
    via_gateway-IsSealed facts selection true (some route) =
        let decision = gateway_decision platform fl router facts selection route in
        settle-IsSealed
          (gateway_calls platform fl router decision route
            (gateway_attempt platform fl router facts decision route).1)
          (gateway_attempt platform fl router facts decision route).0
          (direct_loop platform fl router facts true (some route.provider_id) none
            (chain_of platform fl router facts))
          (gateway_attempt-IsGood facts decision route)
          (direct_loop-IsSealed facts true (some route.provider_id) none
            (chain_of platform fl router facts) tt)
    via_gateway-IsSealed facts selection true none =
        direct_loop-IsSealed facts false none none (chain_of platform fl router facts) tt
    via_gateway-IsSealed facts selection false route =
        direct_loop-IsSealed facts false none none (chain_of platform fl router facts) tt

    -- Every answer of the router, also the one after all providers failed, says that tools are not
    -- allowed and carries the routing decision whose model and task type it names.
    pub generate-IsSealed :
        (request : LlmRequest) → IsSealed (generate platform fl router request).0
    unfolding generate
    generate-IsSealed request =
        let facts = facts_of platform fl request in
        let selection = selection_of platform fl router facts in
        via_gateway-IsSealed facts selection selection.selected selection.route
