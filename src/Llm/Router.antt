-- ===== src/Llm/Router.antt =====
-- The intelligence router (src/jarvis_brain/llm/intelligence_router.py and llm_router_config.py): its
-- records, the chain of providers, and the calls that it makes of the observatory, the telemetry and the
-- event logger, which a run returns in order. The texts of enumerations are arguments; new IDs are
-- left out.
pub mod Chain
pub mod Generate
pub mod Rounds
pub mod Answers
pub mod Places
pub mod Closed
pub mod Stream
pub mod Examples
use jarvis_brain.Floats.{Floats}
use jarvis_brain.OmniRoute.Schemas.{
  RouteLocality, TaskCategory, ModelCapability, RouteClassification, OmniRouteRoute,
}
use jarvis_brain.OmniRoute.Signals.{
  Platform, LlmMessage, RequestMetadata, classify_task, classify_privacy, estimate,
}
use jarvis_brain.OmniRoute.Classifier.{classify}
use jarvis_brain.Text.{join}
use jarvis_brain.Dict.{Dict}
use jarvis_brain.OmniRoute.Policy.{Reason, Failure, RouteSelection, OmniRouteSelectionPolicy}
use jarvis_brain.Llm.Models.{LlmModelCapability, select_model}
use jarvis_brain.Llm.Names.{LlmProviderName, name_eq}
use jarvis_brain.Llm.Providers.{LlmStatus, LlmProvider, LlmProviderRegistry}
use jarvis_brain.Prelude.{
  String, ℕ, zero, suc, ◌+◌, ◌-◌, ◌*◌, ◌/◌, ◌%◌, ◌≤◌, ◌<◌, min, max, ◌≡◌, refl, sym, ap, ◌∙◌, subst,
  ◌≢◌, ◌↔◌, ◌⊎◌, inl, inr, Bool, true, false, not, ◌&&◌, ◌||◌, Option, none, some, List, [], ◌∷◌,
  ◌++◌, map, reverse, arith, ltb, leb, nat_beq, if◌then◌else◌, ltb→lt, lt→ltb, le→ltb, leb→le,
  le→leb, nat_beq_iff, Bool-cases, Option-cases, Eq, ◌==◌, nat_eq, string_eq, pair_eq, length, drop,
  last_n, keep, All, any, all, length-append, length-drop, length-last_n, contains, get_or, eq_iff,
  eq_refl, list_cases, last_n-last_n-append, last_n-short, drop-append, drop-drop, drop_at,
  drop-nil, ltb_asym, ltb_mono, dec_beq, dec_beq_iff, discrete_eq, unique, unique_from, is_subset,
  Mem, mem-cons_self, mem-cons_of_mem, all-Mem, contains-Mem, find, find-Mem, all_intro, keep-Mem,
  contains_of_Mem, All-Mem, append-eq-nil, unique-eq-nil, eq-cases, if-elim, contains-unique_from,
  mem_keep, mem_second, holds-prop, All-append, contains-keep, contains-unique_from_eq,
  none-contained,
}

-- LLMRequest, with the fields that the router reads
pub record LlmRequest : Type 0 where
  pub request_id : String
  pub provider : LlmProviderName
  pub messages : List LlmMessage
  pub metadata : RequestMetadata

-- LLMRouterConfig
pub record LlmRouterConfig : Type 0 where
  pub retry_count : ℕ
  pub coding_chain : List LlmProviderName
  pub reasoning_chain : List LlmProviderName
  pub simple_chain : List LlmProviderName

abbrev pub local_providers : List LlmProviderName
local_providers =
    LlmProviderName.ollama ∷ LlmProviderName.mock ∷ LlmProviderName.llama_cpp
    ∷ LlmProviderName.lm_studio ∷ LlmProviderName.vllm ∷ LlmProviderName.airllm ∷ []

-- `_dedupe`
unfoldable pub dedupe_from : List LlmProviderName → List LlmProviderName → List LlmProviderName
dedupe_from seen [] = []
dedupe_from seen (value ∷ values) =
    let rest = dedupe_from seen values in
    let fresh = dedupe_from (value ∷ seen) values in
    if not (contains seen value) && not (value == LlmProviderName.unknown)
    then value ∷ fresh
    else rest

abbrev pub with_requested : LlmProviderName → List LlmProviderName → List LlmProviderName
with_requested requested chain =
    if not (
        contains (LlmProviderName.mock ∷ LlmProviderName.unknown ∷ LlmProviderName.omniroute ∷ [])
          requested)
      && not (contains chain requested)
    then requested ∷ chain
    else chain

module _ (platform : Platform) where
  open platform use {LlmTaskType, task_eq, coding, reasoning, planning, guidance, local_only}

  -- `_privacy_allows`
  unfoldable pub privacy_allows : String → LlmProviderName → Bool
  privacy_allows privacy provider =
      if privacy == local_only then contains local_providers provider else true

  -- The chain before the requested provider, which only the configuration and the class decide.
  abbrev pub configured_chain : LlmRouterConfig → LlmTaskType → String → List LlmProviderName
  configured_chain config task privacy =
      if privacy == local_only
      then LlmProviderName.ollama ∷ LlmProviderName.mock ∷ []
      else if task_eq.beq task coding
      then config.coding_chain
      else if contains ⦃e = task_eq⦄ (reasoning ∷ planning ∷ guidance ∷ []) task
      then config.reasoning_chain
      else config.simple_chain

  -- `_fallback_chain`
  unfoldable pub fallback_chain :
      LlmRouterConfig → LlmTaskType → String → LlmProviderName → List LlmProviderName
  fallback_chain config task privacy requested = dedupe_from [] (
      keep (privacy_allows privacy)
        (with_requested requested (configured_chain config task privacy)))

  module _ (fl : Floats) where
    -- `_gateway_metadata` of a route that was selected
    pub record GatewayMetadata : Type 0 where
      pub request_id : String
      pub selected_route_id : String
      pub selected_provider_id : String
      pub route_locality : RouteLocality
      pub task_category : TaskCategory
      pub required_capabilities : List ModelCapability
      pub selection_reason_codes : List (Reason fl)
      pub selection_score : fl.Float

    pub record LlmRoutingDecision : Type 0 where
      pub task_type : LlmTaskType
      pub privacy_class : String
      pub complexity_score : ℕ
      pub selected_provider : LlmProviderName
      pub selected_model : String
      pub fallback_chain : List LlmProviderName
      pub fallback_used : Bool
      pub reason : String
      pub metadata : Option GatewayMetadata

    -- `_routed_request`: the request with what the router adds to it; `tools_allowed` is always `False`.
    pub record RoutedRequest : Type 0 where
      pub request : LlmRequest
      pub provider : LlmProviderName
      pub model : String
      pub decision : LlmRoutingDecision
      pub tools_allowed : Bool

    -- LLMResponse; the router's own metadata is `router_decision` and `tools_allowed`.
    pub record LlmResponse : Type 0 where
      pub provider : LlmProviderName
      pub model : String
      pub task_type : LlmTaskType
      pub status : LlmStatus
      pub content : String
      pub error_message : Option String
      pub router_decision : Option LlmRoutingDecision
      pub tools_allowed : Option Bool

    abbrev pub Provider : Type 0
    Provider = LlmProvider RoutedRequest LlmResponse

    abbrev pub Registry : Type 0
    Registry = LlmProviderRegistry RoutedRequest LlmResponse

    -- A call of `route_selected`; the codes of the reasons are left out.
    pub record Selected : Type 0 where
      pub decision : LlmRoutingDecision
      pub gateway : String
      pub provider_id : String
      pub route_id : Option String
      pub fallback_from : Option String

    -- What the router tells its observatory, its telemetry and the event logger, and the requests that
    -- providers get.
    pub data Call : Type 0 where
      request_received classified blocked connecting validating completed : Call
      route_selected : Selected → Call
      stream_delta : ℕ → Call
      failed : String → Bool → Call
      asked : Provider → Call
      logged : String → Call
      record_success record_failure : LlmProviderName → LlmRoutingDecision → Call

    -- The router's parts, with the texts of the enumerations.
    pub record IntelligenceRouter : Type 0 where
      pub config : LlmRouterConfig
      pub models : List (LlmModelCapability platform)
      pub provider_registry : Registry
      pub omniroute_policy : OmniRouteSelectionPolicy fl
      pub streaming_enabled : Bool
      pub provider_value : LlmProviderName → String
      pub task_value : LlmTaskType → String

    -- What `generate`, `generate_stream` and `route_only` find out of a request first.
    pub record Facts : Type 0 where
      pub request : LlmRequest
      pub task : LlmTaskType
      pub privacy : String
      pub complexity : ℕ
      pub classification : RouteClassification

    unfoldable pub facts_of : LlmRequest → Facts
    facts_of request =
        let task = classify_task platform request.messages request.metadata in
        record {
          request = request;
          task = task;
          privacy = classify_privacy platform request.messages request.metadata;
          complexity = estimate platform request.messages task;
          classification = classify platform request.messages request.metadata;
        }

    abbrev pub chain_of : IntelligenceRouter → Facts → List LlmProviderName
    chain_of router facts =
        fallback_chain router.config facts.task facts.privacy facts.request.provider

    abbrev pub model_for : IntelligenceRouter → Facts → LlmProviderName → String
    model_for router facts provider = select_model platform router.models provider facts.task

    -- `_decision`; its status is `FALLBACK_USED` exactly if `fallback_used`.
    abbrev pub make_decision :
        Facts
        → LlmProviderName
        → String
        → List LlmProviderName
        → Bool
        → String
        → Option GatewayMetadata
        → LlmRoutingDecision
    make_decision facts provider model chain fallback_used reason metadata = record {
      task_type = facts.task;
      privacy_class = facts.privacy;
      complexity_score = facts.complexity;
      selected_provider = provider;
      selected_model = model;
      fallback_chain = chain;
      fallback_used = fallback_used;
      reason = reason;
      metadata = metadata;
    }

    -- `_reason`
    abbrev pub reason_text : IntelligenceRouter → Facts → LlmProviderName → Bool → String
    reason_text router facts provider fallback_used =
        let prefix = if fallback_used then "Fallback selected" else "Selected" in
        join " " (
          prefix
          ∷ router.provider_value provider
          ∷ "for"
          ∷ router.task_value facts.task
          ∷ "with"
          ∷ facts.privacy
          ∷ "privacy."
          ∷ [])

    abbrev pub gateway_metadata : Facts → RouteSelection fl → OmniRouteRoute → GatewayMetadata
    gateway_metadata facts selection route = record {
      request_id = facts.request.request_id;
      selected_route_id = route.route_id;
      selected_provider_id = route.provider_id;
      route_locality = route.locality;
      task_category = facts.classification.task_category;
      required_capabilities = facts.classification.required_capabilities;
      selection_reason_codes = selection.reason_codes;
      selection_score = selection.score;
    }

    abbrev pub gateway_chain : List LlmProviderName
    gateway_chain = LlmProviderName.omniroute ∷ LlmProviderName.ollama ∷ []

    abbrev pub routed : Facts → LlmProviderName → String → LlmRoutingDecision → RoutedRequest
    routed facts provider model decision = record {
      request = facts.request;
      provider = provider;
      model = model;
      decision = decision;
      tools_allowed = false;
    }

    -- `_with_router_metadata`
    abbrev pub with_router_metadata : LlmResponse → LlmRoutingDecision → LlmResponse
    with_router_metadata response decision = record response {
      model = decision.selected_model;
      task_type = decision.task_type;
      router_decision = some decision;
      tools_allowed = some false;
    }

    abbrev pub is_success : LlmStatus → Bool
    is_success LlmStatus.success = true
    is_success LlmStatus.error = false
    is_success LlmStatus.disabled = false

    abbrev pub blocked_calls : Dict String (List Failure) → List Call
    blocked_calls [] = []
    blocked_calls (entry ∷ entries) = blocked ∷ []

    -- The calls before the first route is selected.
    abbrev pub opening : RouteSelection fl → List Call
    opening selection = request_received ∷ classified ∷ blocked_calls selection.rejected_routes
