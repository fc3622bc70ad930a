-- ===== src/Llm/Observatory.antt =====
-- The observatory of routes (src/jarvis_brain/llm/routing_observatory.py and topology_identity.py): the
-- routes of requests, their history and what is published. `quote` is urllib's function; times are
-- ticks of a clock that does not go back, read by the caller. An event carries the route whose fields
-- are its metadata.
pub mod Bounds
pub mod Current
pub mod Catalog
pub mod Protocol
mod Examples
use jarvis_brain.Dict.{Dict, get, put, remove, values}
use jarvis_brain.Prelude.{
  String, ℕ, zero, suc, ◌+◌, ◌-◌, ◌*◌, ◌/◌, ◌%◌, ◌≤◌, ◌<◌, min, max, ◌≡◌, refl, sym, ap, ◌∙◌, subst,
  ◌≢◌, ◌↔◌, ◌⊎◌, inl, inr, Bool, true, false, not, ◌&&◌, ◌||◌, Option, none, some, List, [], ◌∷◌,
  ◌++◌, map, reverse, arith, ltb, leb, nat_beq, if◌then◌else◌, ltb→lt, lt→ltb, le→ltb, leb→le,
  le→leb, nat_beq_iff, Bool-cases, Option-cases, Eq, ◌==◌, nat_eq, string_eq, pair_eq, length, drop,
  last_n, keep, All, any, all, length-append, length-drop, length-last_n, contains, get_or, eq_iff,
  eq_refl, list_cases, last_n-last_n-append, last_n-short, drop-append, drop-drop, drop_at,
  drop-nil, ltb_asym, ltb_mono, dec_beq, dec_beq_iff, discrete_eq, unique, unique_from, is_subset,
  Mem, mem-cons_self, mem-cons_of_mem, all-Mem, contains-Mem, find, find-Mem, all_intro, keep-Mem,
  contains_of_Mem, All-Mem, append-eq-nil, unique-eq-nil, eq-cases, if-elim, contains-unique_from,
  mem_keep, mem_second, holds-prop, All-append, contains-keep, contains-unique_from_eq,
  none-contained,
}
use jarvis_brain.Text.{join, or_else, strip, first_chars}

pub data RouteLifecycleState : Type 0 where
  selected connecting streaming validating completed failed blocked : RouteLifecycleState

pub record ActiveLlmRoute : Type 0 where
  pub request_id : String
  pub source : String
  pub task_category : String
  pub complexity : ℕ
  pub privacy_class : String
  pub gateway : String
  pub provider_id : String
  pub model_id : String
  pub route_id : Option String
  pub topology_node_id : String
  pub topology_model_id : String
  pub topology_route_id : String
  pub state : RouteLifecycleState
  pub fallback_from : Option String
  pub started_at : ℕ
  pub first_token_at : Option ℕ
  pub completed_at : Option ℕ
  pub total_latency : Option ℕ
  pub chunk_count : ℕ
  pub visible_output : Bool

pub record RoutingHistoryEntry : Type 0 where
  pub route : ActiveLlmRoute
  pub timestamp : ℕ
  pub fallback_used : Bool
  pub policy_blocked : Bool
  pub safe_reason : Option String

-- What is logged: the type of the event, and the route that it is about.
pub data Published : Type 0 where
  plain : String → Published
  of_route : String → ActiveLlmRoute → Published

pub record LlmRoutingObservatory : Type 0 where
  pub history_limit : ℕ
  pub routes : Dict String ActiveLlmRoute
  pub history : List RoutingHistoryEntry

-- `__init__`
unfoldable pub new_observatory : ℕ → LlmRoutingObservatory
new_observatory limit = record { history_limit = max 1 (min limit 50); routes = []; history = [] }

-- `_join` of topology_identity.py
abbrev pub joined_id : (String → String) → List String → String
joined_id quote parts = join ":" (map (λ part. quote (strip part)) parts)

-- What the router says of a route that it selects.
pub record Selection : Type 0 where
  pub source : String
  pub task_category : String
  pub complexity : ℕ
  pub privacy_class : String
  pub gateway : String
  pub provider_id : String
  pub model_id : String
  pub route_id : Option String
  pub fallback_from : Option String

abbrev pub new_route : (String → String) → ℕ → String → Selection → ActiveLlmRoute
new_route quote now request_id s = record {
  request_id = request_id;
  source = or_else (first_chars 40 s.source) "unknown";
  task_category = s.task_category;
  complexity = s.complexity;
  privacy_class = s.privacy_class;
  gateway = s.gateway;
  provider_id = s.provider_id;
  model_id = s.model_id;
  route_id = s.route_id;
  topology_node_id = joined_id quote (s.gateway ∷ s.provider_id ∷ []);
  topology_model_id = joined_id quote (s.gateway ∷ s.provider_id ∷ s.model_id ∷ []);
  topology_route_id =
      joined_id quote
        (s.gateway ∷ s.provider_id ∷ s.model_id ∷ or_else (get_or s.route_id "") "direct" ∷ []);
  state = RouteLifecycleState.selected;
  fallback_from = s.fallback_from;
  started_at = now;
  first_token_at = none;
  completed_at = none;
  total_latency = none;
  chunk_count = 0;
  visible_output = false;
}

-- min(routes, key=started_at): the first of the oldest
unfoldable pub oldest : ActiveLlmRoute → List ActiveLlmRoute → ActiveLlmRoute
oldest r [] = r
oldest r (other ∷ rest) = oldest (if ltb other.started_at r.started_at then other else r) rest

-- max(routes, key=started_at): the first of the newest
unfoldable pub newest : ActiveLlmRoute → List ActiveLlmRoute → ActiveLlmRoute
newest r [] = r
newest r (other ∷ rest) = newest (if ltb r.started_at other.started_at then other else r) rest

abbrev pub newest_of : List ActiveLlmRoute → Option ActiveLlmRoute
newest_of [] = none
newest_of (r ∷ rest) = some (newest r rest)

abbrev pub is_active : RouteLifecycleState → Bool
is_active RouteLifecycleState.selected = true
is_active RouteLifecycleState.connecting = true
is_active RouteLifecycleState.streaming = true
is_active RouteLifecycleState.validating = true
is_active RouteLifecycleState.completed = false
is_active RouteLifecycleState.failed = false
is_active RouteLifecycleState.blocked = false

-- `candidates or routes`
abbrev pub or_routes : List ActiveLlmRoute → List ActiveLlmRoute → List ActiveLlmRoute
or_routes [] routes = routes
or_routes (r ∷ rest) routes = r ∷ rest

-- `_current_route`
unfoldable pub current_route : LlmRoutingObservatory → Option ActiveLlmRoute
current_route o =
    newest_of (or_routes (keep (λ r. is_active r.state) (values o.routes)) (values o.routes))

-- The room of 64 routes: the oldest goes.
abbrev pub drop_oldest :
    Dict String ActiveLlmRoute → List ActiveLlmRoute → Dict String ActiveLlmRoute
drop_oldest routes [] = routes
drop_oldest routes (r ∷ rest) =
    if ltb 64 (length (r ∷ rest)) then remove routes (oldest r rest).request_id else routes

unfoldable pub make_room : Dict String ActiveLlmRoute → Dict String ActiveLlmRoute
make_room routes = drop_oldest routes (values routes)

abbrev pub changed_events : Option ActiveLlmRoute → ActiveLlmRoute → List Published
changed_events none route = []
changed_events (some previous) route =
    if not (previous.topology_node_id == route.topology_node_id)
    then of_route "llm.route.changed" route ∷ []
    else []

abbrev pub fallback_events : ActiveLlmRoute → List Published
fallback_events route =
    if not (get_or route.fallback_from "" == "")
    then of_route "llm.route.fallback" route ∷ []
    else []

unfoldable pub route_selected :
    (String → String)
    → ℕ
    → String
    → Selection
    → LlmRoutingObservatory
    → LlmRoutingObservatory × List Published
route_selected quote now request_id s o =
    let route = new_route quote now request_id s in
    (
      record o { routes = make_room (put o.routes request_id route) },
      of_route "llm.route.selected" route ∷ changed_events (current_route o) route
          ++ fallback_events route,
    )

-- An update of the route of a request, if it has one.
abbrev pub update :
    String
    → (ActiveLlmRoute → ActiveLlmRoute)
    → (ActiveLlmRoute → List Published)
    → LlmRoutingObservatory
    → Option ActiveLlmRoute
    → LlmRoutingObservatory × List Published
update request_id change events o none = (o, [])
update request_id change events o (some route) =
    (record o { routes = put o.routes request_id (change route) }, events (change route))

abbrev pub in_state : RouteLifecycleState → ActiveLlmRoute → ActiveLlmRoute
in_state state route = record route { state = state }

abbrev pub one_event : String → ActiveLlmRoute → List Published
one_event event_type route = of_route event_type route ∷ []

-- `_transition`, of `connecting` and `validating`
unfoldable pub transition :
    String
    → RouteLifecycleState
    → String
    → LlmRoutingObservatory
    → LlmRoutingObservatory × List Published
transition request_id state event_type o =
    update request_id (in_state state) (one_event event_type) o (get o.routes request_id)

abbrev pub delta_events : ℕ → ActiveLlmRoute → List Published
delta_events chunk_index route =
    (if nat_beq chunk_index 1 then of_route "llm.stream.started" route ∷ [] else [])
    ++ (if nat_beq chunk_index 1 || nat_beq (chunk_index % 8) 0
        then plain "llm.stream.delta" ∷ []
        else [])

abbrev pub streamed : ℕ → ℕ → ActiveLlmRoute → ActiveLlmRoute
streamed now chunk_index route = record route {
  state = RouteLifecycleState.streaming;
  first_token_at = some (get_or route.first_token_at now);
  chunk_count = chunk_index;
  visible_output = true;
}

unfoldable pub stream_delta :
    ℕ → String → ℕ → LlmRoutingObservatory → LlmRoutingObservatory × List Published
stream_delta now request_id chunk_index o =
    update request_id (streamed now chunk_index) (delta_events chunk_index) o
      (get o.routes request_id)

abbrev pub is_blocked : RouteLifecycleState → Bool
is_blocked RouteLifecycleState.blocked = true
is_blocked state = false

abbrev pub ended_route : ℕ → RouteLifecycleState → ActiveLlmRoute → ActiveLlmRoute
ended_route now state route = record route {
  state = state;
  completed_at = some now;
  total_latency = some (now - route.started_at);
}

abbrev pub end_route :
    ℕ
    → String
    → RouteLifecycleState
    → String
    → Option String
    → LlmRoutingObservatory
    → Option ActiveLlmRoute
    → LlmRoutingObservatory × List Published
end_route now request_id state event_type safe_reason o none = (o, [])
end_route now request_id state event_type safe_reason o (some route) =
    let ended = ended_route now state route in
    let entry : RoutingHistoryEntry = record {
      route = ended;
      timestamp = now;
      fallback_used = not (get_or ended.fallback_from "" == "");
      policy_blocked = is_blocked state;
      safe_reason = safe_reason;
    } in
    (
      record o {
        routes = put o.routes request_id ended;
        history = last_n o.history_limit (o.history ++ entry ∷ []);
      },
      of_route event_type ended ∷ [],
    )

-- `_terminal`, of `completed` and `failed`
unfoldable pub terminal :
    ℕ
    → String
    → RouteLifecycleState
    → String
    → Option String
    → LlmRoutingObservatory
    → LlmRoutingObservatory × List Published
terminal now request_id state event_type safe_reason o =
    end_route now request_id state event_type safe_reason o (get o.routes request_id)

-- A call of one of the methods.
pub data Observation : Type 0 where
  request_received classified route_blocked : Observation
  selects : ℕ → String → Selection → Observation
  connects validates : String → Observation
  streams : ℕ → String → ℕ → Observation
  completes : ℕ → String → Observation
  fails : ℕ → String → String → Observation

module _ (quote : String → String) where
  unfoldable pub observe :
      Observation → LlmRoutingObservatory → LlmRoutingObservatory × List Published
  observe request_received o = (o, plain "llm.request.received" ∷ [])
  observe classified o = (o, plain "llm.request.classified" ∷ [])
  observe route_blocked o = (o, plain "llm.route.blocked" ∷ [])
  observe (selects now request_id s) o = route_selected quote now request_id s o
  observe (connects request_id) o =
      transition request_id RouteLifecycleState.connecting "llm.route.connecting" o
  observe (validates request_id) o =
      transition request_id RouteLifecycleState.validating "llm.stream.completed" o
  observe (streams now request_id chunk_index) o = stream_delta now request_id chunk_index o
  observe (completes now request_id) o =
      terminal now request_id RouteLifecycleState.completed "llm.route.completed" none o
  observe (fails now request_id safe_reason) o =
      terminal now request_id RouteLifecycleState.failed "llm.route.failed" (some safe_reason) o

  -- The calls one after another.
  unfoldable pub observe_all : List Observation → LlmRoutingObservatory → LlmRoutingObservatory
  observe_all [] o = o
  observe_all (call ∷ calls) o = observe_all calls (observe call o).0
