-- ===== src/Orchestrator/Orchestrate.antt =====
-- The orchestrator (src/jarvis_brain/orchestrator/brain_orchestrator.py and proposal_parser.py). A
-- `Brain` has what other parts answer: the gateway on inputs, the language model, the parser, the
-- resolver behind it, and the proposal that jarvis_platform makes of no fields. IDs, metadata and
-- messages of events are left out.
use jarvis_brain.Floats.{Floats}
use jarvis_brain.Text.{is_in, or_else, join}
use jarvis_brain.Orchestrator.{
  BrainIntentType, unknown, BrainIntentCandidate, BrainPlanStep, BrainOrchestratorProposal,
}
use jarvis_brain.Orchestrator.Intents.{brain_intent_type, legacy_intent_type}
use jarvis_brain.Orchestrator.Graph.{BrainExecutionGraph, build}
use jarvis_brain.Orchestrator.Team.{dedupe_allowed, propose_from_intents, capabilities_for_intents}
use jarvis_brain.Orchestrator.Verification.{Checks, validate}
use jarvis_brain.Prelude.{
  String, Bool, true, false, not, ◌||◌, Option, none, some, List, [], ◌∷◌, ◌++◌, map, if◌then◌else◌,
  nat_eq, string_eq, pair_eq, any, get_or,
}

-- An answer of the language model, and what its metadata says of the choice of the provider.
pub record Answer : Type 0 where
  pub succeeded : Bool
  pub content : String
  pub error_message : Option String
  pub selected_provider : Option String
  pub selected_model : Option String

pub data BrainEventType : Type 0 where
  brain_started fallback_used context_built intent_detected plan_built : BrainEventType
  agent_team_proposed provider_selected verification_completed : BrainEventType

pub data BrainValidationStatus : Type 0 where
  accepted fallback_used : BrainValidationStatus

abbrev pub injection_phrases : List String
injection_phrases =
    "ignore previous instructions" ∷ "bypass safety" ∷ "bypass security" ∷ "reveal hidden prompt"
    ∷ "show system prompt" ∷ "disable guardrails" ∷ []

-- `_looks_like_prompt_injection`
abbrev pub looks_like_prompt_injection : (String → String) → String → Bool
looks_like_prompt_injection lower raw = any (λ phrase. is_in phrase (lower raw)) injection_phrases

-- `_default_plan_step`
abbrev pub default_plan_step : String → BrainPlanStep
default_plan_step value = record {
  step_id = "step-1";
  title = "Prepare safe response";
  description =
      join "" ("Respond to the " ∷ value ∷ " request after deterministic safety checks." ∷ []);
  node_type = "response";
  action = none;
  target = none;
  requires_approval = false;
  depends_on = [];
}

module _ (fl : Floats) where
  abbrev pub Proposal : Type 0
  Proposal = BrainOrchestratorProposal fl

  -- An IntentResult, with the fields that the orchestrator reads.
  pub record FallbackIntent : Type 0 where
    pub intent_type : String
    pub action : String
    pub target : Option String
    pub goal : Option String
    pub confidence : fl.Float
    pub needs_clarification : Bool

  pub record Brain : Type 0 where
    pub enabled : Bool
    pub checks : Checks
    pub minimum_confidence : fl.Float
    pub normalized : String → String
    pub is_suspicious : String → Bool
    pub generate : String → Answer
    pub parse : String → Option Proposal
    pub resolve : String → FallbackIntent
    pub empty_proposal : Proposal
    pub value_of : BrainIntentType → String

  pub record BrainOrchestrationResult : Type 0 where
    pub validation_status : BrainValidationStatus
    pub proposal : Proposal
    pub execution_graph : Option BrainExecutionGraph
    pub events : List BrainEventType
    pub fallback_reason : Option String
    pub selected_provider : Option String
    pub selected_model : Option String
    pub confidence : fl.Float

  -- The intents' types, or `unknown` if there is none.
  abbrev pub or_unknown : List BrainIntentType → List BrainIntentType
  or_unknown [] = unknown ∷ []
  or_unknown (intent ∷ rest) = intent ∷ rest

  abbrev pub first_intent : List BrainIntentType → BrainIntentType
  first_intent [] = unknown
  first_intent (intent ∷ rest) = intent

  module _ (brain : Brain) where
    abbrev pub roles_or_proposed : List BrainIntentType → List String → List String
    roles_or_proposed intents [] = propose_from_intents brain.normalized intents
    roles_or_proposed intents (role ∷ roles) = dedupe_allowed brain.normalized [] (role ∷ roles)

    abbrev pub capabilities_or_implied : List BrainIntentType → List String → List String
    capabilities_or_implied intents [] = capabilities_for_intents intents
    capabilities_or_implied intents (capability ∷ rest) = capability ∷ rest

    abbrev pub steps_or_default : BrainIntentType → List BrainPlanStep → List BrainPlanStep
    steps_or_default intent [] = default_plan_step (brain.value_of intent) ∷ []
    steps_or_default intent (step ∷ steps) = step ∷ steps

    -- `_complete_proposal`
    unfoldable pub complete_proposal : Proposal → Proposal
    complete_proposal p =
        let intents = or_unknown (map (λ (c : BrainIntentCandidate fl). c.intent_type) p.intents) in
        record p {
          agent_roles = roles_or_proposed intents p.agent_roles;
          capabilities = capabilities_or_implied intents p.capabilities;
          plan_steps = steps_or_default (first_intent intents) p.plan_steps;
        }

    abbrev pub fallback_proposal : FallbackIntent → Proposal
    fallback_proposal intent =
        let candidate : BrainIntentCandidate fl = record {
          intent_type = brain_intent_type intent.intent_type;
          action = intent.action;
          target = intent.target;
          goal = intent.goal;
          confidence = intent.confidence;
          needs_clarification = intent.needs_clarification;
        } in
        record brain.empty_proposal {
          summary = "Deterministic fallback intent was used.";
          intents = candidate ∷ [];
          confidence = intent.confidence;
        }

    -- `_fallback`, behind the event that says so
    unfoldable pub fallback : String → List BrainEventType → String → BrainOrchestrationResult
    fallback raw events reason =
        let intent = brain.resolve raw in
        record {
          validation_status = BrainValidationStatus.fallback_used;
          proposal = fallback_proposal intent;
          execution_graph = none;
          events = events ++ BrainEventType.fallback_used ∷ [];
          fallback_reason = some reason;
          selected_provider = none;
          selected_model = none;
          confidence = intent.confidence;
        }

    abbrev pub planned : Answer → Proposal → BrainOrchestrationResult
    planned answer p = record {
      validation_status = accepted;
      proposal = p;
      execution_graph = some (build p.plan_steps);
      events =
          brain_started ∷ context_built ∷ intent_detected ∷ plan_built ∷ agent_team_proposed
          ∷ provider_selected ∷ verification_completed ∷ [];
      fallback_reason = none;
      selected_provider = answer.selected_provider;
      selected_model = answer.selected_model;
      confidence = p.confidence;
    }

    abbrev pub checked : String → Answer → Option Proposal → BrainOrchestrationResult
    checked raw answer none =
        fallback raw (brain_started ∷ context_built ∷ []) "Malformed LLM orchestration JSON."
    checked raw answer (some parsed) =
        let p = complete_proposal parsed in
        let (fine, reason) = validate fl brain.checks brain.minimum_confidence p in
        if fine then planned answer p else fallback raw (brain_started ∷ context_built ∷ []) reason

    unfoldable pub orchestrate : String → BrainOrchestrationResult
    orchestrate raw =
        let answer = brain.generate raw in
        if brain.is_suspicious raw || looks_like_prompt_injection brain.checks.lower raw
        then fallback raw (brain_started ∷ [])
            "Input security gateway marked the request suspicious."
        else if not brain.enabled
        then fallback raw (brain_started ∷ []) "Brain Orchestrator disabled."
        else if not answer.succeeded
        then fallback raw (brain_started ∷ context_built ∷ [])
            (or_else (get_or answer.error_message "") "LLM orchestration provider unavailable.")
        else checked raw answer (brain.parse answer.content)

  -- The IntentResult of the engine, without its texts and metadata.
  pub record IntentResult : Type 0 where
    pub intent_type : String
    pub action : String
    pub target : Option String
    pub goal : Option String
    pub confidence : fl.Float
    pub requires_plan : Bool
    pub needs_clarification : Bool

  abbrev pub is_planned : List BrainPlanStep → Bool
  is_planned [] = false
  is_planned (step ∷ steps) = true

  -- `to_intent_result`, of the result's primary intent
  unfoldable pub to_intent_result :
      (BrainIntentType → String)
      → Option (BrainIntentCandidate fl)
      → BrainValidationStatus
      → BrainOrchestrationResult
      → Option IntentResult
  to_intent_result value_of none status result = none
  to_intent_result value_of (some intent) BrainValidationStatus.fallback_used result = none
  to_intent_result value_of (some intent) accepted result = some (record {
    intent_type = legacy_intent_type value_of intent.intent_type;
    action = intent.action;
    target = intent.target;
    goal = intent.goal;
    confidence = intent.confidence;
    requires_plan = is_planned result.proposal.plan_steps;
    needs_clarification = intent.needs_clarification;
  })
