-- ===== src/Llm/Observatory/Protocol.antt =====
-- The router and its observatory together (src/jarvis_brain/llm/intelligence_router.py and
-- routing_observatory.py): the calls that `generate` makes, as the observatory takes them.
use mathlib.Core.Option.{some_inj}
use jarvis_brain.Floats.{Floats}
use jarvis_brain.Dict.{get, get-put_self}
use jarvis_brain.OmniRoute.Signals.{Platform}
use jarvis_brain.Llm.Router.{
  LlmRequest, RoutedRequest, Provider, IntelligenceRouter, Facts, facts_of, chain_of, routed,
  model_for, Selected, Call, blocked_calls, asked, route_selected, logged, record_success,
  record_failure, stream_delta, failed,
}
use jarvis_brain.Llm.Router
use jarvis_brain.Llm.Router.Closed.{open_by, open_after, in_turn, generate-Closes}
use jarvis_brain.Llm.Router.Generate.{Calls, generate}
use jarvis_brain.Llm.Observatory
use jarvis_brain.Llm.Observatory.{
  ActiveLlmRoute, RouteLifecycleState, LlmRoutingObservatory, Selection, Observation, selects,
  connects, validates, streams, completes, fails, route_blocked, observe, observe_all, is_active,
  end_route, ended_route, terminal,
}
use jarvis_brain.Prelude.{
  String, ℕ, suc, ◌≡◌, refl, sym, ◌∙◌, subst, Bool, false, Option, none, some, List, [], ◌∷◌, arith,
  nat_eq, string_eq, pair_eq, true,
}

-- The route of a request, if it has one, is over.
abbrev pub Settled : String → LlmRoutingObservatory → Type 0
Settled id o = (r : ActiveLlmRoute) → get o.routes id ≡ some r → is_active r.state ≡ false

module _ (platform : Platform) (fl : Floats) (task_value : platform.LlmTaskType → String)
    (source : String) where
  -- The arguments of `route_selected`.
  abbrev pub selection_from : Selected platform fl → Selection
  selection_from s = record {
    source = source;
    task_category = task_value s.decision.task_type;
    complexity = s.decision.complexity_score;
    privacy_class = s.decision.privacy_class;
    gateway = s.gateway;
    provider_id = s.provider_id;
    model_id = s.decision.selected_model;
    route_id = s.route_id;
    fallback_from = s.fallback_from;
  }

  -- A call of the router as a call of the observatory, at `now`, if it is one.
  unfoldable pub observation : ℕ → String → Call platform fl → List Observation
  observation now id Router.request_received = Observatory.request_received ∷ []
  observation now id Router.classified = Observatory.classified ∷ []
  observation now id Router.blocked = route_blocked ∷ []
  observation now id Router.connecting = connects id ∷ []
  observation now id Router.validating = validates id ∷ []
  observation now id Router.completed = completes now id ∷ []
  observation now id (Router.route_selected s) = selects now id (selection_from s) ∷ []
  observation now id (stream_delta n) = streams now id n ∷ []
  observation now id (failed reason allowed) = fails now id reason ∷ []
  observation now id (asked name) = []
  observation now id (logged event) = []
  observation now id (record_success name decision) = []
  observation now id (record_failure name decision) = []

  module _ (quote : String → String) (id : String) where
    end_route-Settled :
        (now : ℕ) (state : RouteLifecycleState) (event_type : String) (safe_reason : Option String)
        (o : LlmRoutingObservatory) (found : Option ActiveLlmRoute)
        → get o.routes id ≡ found
        → is_active state ≡ false
        → Settled id (end_route now id state event_type safe_reason o found).0
    end_route-Settled now state event_type safe_reason o none e over r h =
        absurd (ground (arith, e, h))
    end_route-Settled now state event_type safe_reason o (some route) e over r h =
        let ended = ended_route now state route in
        let at : ended ≡ r = some_inj.0 (sym (get-put_self o.routes id id ended) ∙ h) in
        subst (λ x. is_active x.state ≡ false) at over

    -- One call keeps what `open_by` says.
    observation-Settled :
        (now : ℕ) (b : Bool) (call : Call platform fl) (o : LlmRoutingObservatory)
        → (b ≡ false → Settled id o)
        → open_by platform fl b call ≡ false
        → Settled id (observe_all quote (observation now id call) o)
    unfolding observation observe_all observe terminal
    observation-Settled now b Router.request_received o h e = h e
    observation-Settled now b Router.classified o h e = h e
    observation-Settled now b Router.blocked o h e = h e
    observation-Settled now b Router.connecting o h e = absurd (ground (arith, e))
    observation-Settled now b Router.validating o h e = absurd (ground (arith, e))
    observation-Settled now b Router.completed o h e =
        end_route-Settled now RouteLifecycleState.completed "llm.route.completed" none o
          (get o.routes id) refl refl
    observation-Settled now b (Router.route_selected s) o h e = absurd (ground (arith, e))
    observation-Settled now b (stream_delta n) o h e = absurd (ground (arith, e))
    observation-Settled now b (failed reason allowed) o h e =
        end_route-Settled now RouteLifecycleState.failed "llm.route.failed" (some reason) o
          (get o.routes id) refl refl
    observation-Settled now b (asked name) o h e = h e
    observation-Settled now b (logged event) o h e = h e
    observation-Settled now b (record_success name decision) o h e = h e
    observation-Settled now b (record_failure name decision) o h e = h e

    -- No route of the request is active when a route is selected for it, and none at the end.
    unfoldable pub SettledThrough : (ℕ → ℕ) → ℕ → Calls platform fl → LlmRoutingObservatory → Type 0
    SettledThrough clock n [] o = Settled id o
    SettledThrough clock n (route_selected s ∷ calls) o =
        Settled id o
        × SettledThrough clock (suc n) calls
            (observe_all quote (observation (clock n) id (route_selected s)) o)
    SettledThrough clock n (call ∷ calls) o =
        SettledThrough clock (suc n) calls (observe_all quote (observation (clock n) id call) o)

    calls-SettledThrough :
        (clock : ℕ → ℕ) (n : ℕ) (b : Bool) (calls : Calls platform fl) (o : LlmRoutingObservatory)
        → (b ≡ false → Settled id o)
        → open_after platform fl b calls ≡ false
        → in_turn platform fl b calls ≡ true
        → SettledThrough clock n calls o
    unfolding open_after in_turn SettledThrough
    calls-SettledThrough clock n b [] o h e t = h e
    calls-SettledThrough clock n b (route_selected s ∷ calls) o h e t =
        let later =
          calls-SettledThrough clock (suc n) true calls
            (observe_all quote (observation (clock n) id (route_selected s)) o)
            (λ closed. absurd (ground (arith, closed))) e (ground (arith, t)) in
        (h (ground (arith, t)), later)
    calls-SettledThrough clock n b (call ∷ calls) o h e t =
        calls-SettledThrough clock (suc n) (open_by platform fl b call) calls
          (observe_all quote (observation (clock n) id call) o)
          (λ closed. observation-Settled (clock n) b call o h closed) e t

    -- Whatever the gateway and the providers do and the clock shows, the observatory holds no active
    -- route of a request of `generate` whenever a route is selected for it, and none after the call, if
    -- it held none before: each route that the router selects is over, in no active state, before
    -- the next one is selected, and the last one at the end.
    pub generate-SettledThrough :
        (router : IntelligenceRouter platform fl) (request : LlmRequest) (clock : ℕ → ℕ)
        (o : LlmRoutingObservatory)
        → Settled id o
        → SettledThrough clock 0 (generate platform fl router request).1 o
    generate-SettledThrough router request clock o h =
        let (over, turns) = generate-Closes platform fl router request in
        calls-SettledThrough clock 0 false (generate platform fl router request).1 o (λ e. h) over
          turns
