-- ===== src/Lib.antt =====
-- Jarvis Brain: the decisions of the brain service of an assistant, modelled in its own terms.
--
-- The program answers the turns of conversations. A turn coordinator (Requests) runs each turn as a task
-- and lets a new turn of a session supersede the one before; the engine (Engine) takes a request through
-- its states. The orchestrator (Orchestrator) asks a language model for a plan and lets it pass only
-- after deterministic checks. The safe service (Llm/SafeService) stands before every model: the router
-- (Llm/Router) goes through a chain of providers, and the gateway (OmniRoute) picks a route, within the
-- limits of privacy that the operator and the request set; the observatory (Llm/Observatory) follows
-- the routes. The life cycle of agents and their events are in Agents. The conversation memory keeps the
-- recent turns of a session, and the relevance of world events decides on alerts.
--
-- Files, and the code they are about (paths from the repository's root):
--   Requests/Queue          src/jarvis_brain/requests/queues.py, BoundedAsyncQueue. A call is a function
--                           from the queue to its outcome: it returns, raises, or waits.
--   Requests/Cancellation   src/jarvis_brain/requests/cancellation.py, CancellationToken. A call returns
--                           the token, its answer, and the callbacks that it ran.
--   Requests/Turn           src/jarvis_brain/requests/turn.py and events.py, ConversationTurn, TurnEvent.
--                           Their token is jarvis_platform's, which is taken to behave as that of
--                           Requests/Cancellation.
--   Requests/Coordinator    src/jarvis_brain/requests/coordinator.py, AsyncTurnCoordinator: one function
--                           for each piece of a coroutine between two awaits; Coordinator/Steps has the
--                           events, `step` and `run`. `start_turn`, `acquire`, `take_context`,
--                           `take_value` and `finish` are the pieces of `execute`.
--   Requests/Manager        src/jarvis_brain/requests/manager.py, the queues of a turn.
--   Conversation/Sessions   src/jarvis_brain/conversation/manager.py and models.py, ConversationManager:
--                           `context` is `_context`, `remember` the end of `respond`.
--   Engine/StateMachine     src/jarvis_brain/engine/state_machine.py, BrainStateMachine.
--   Engine/Planner          src/jarvis_brain/engine/planner.py, Planner.
--   Engine/PlanValidator    src/jarvis_brain/engine/llm_plan_validator.py, LLMPlanValidator.
--   World/Relevance         src/jarvis_brain/world/relevance_scorer.py, RelevanceScorer.
--   OmniRoute/Circuit       src/jarvis_brain/llm/omniroute/circuit.py, GatewayCircuitBreaker and the
--                           registry that owns one for each route.
--   OmniRoute/Schemas       src/jarvis_brain/llm/omniroute/schemas.py, and the settings of config.py.
--   OmniRoute/Registry      src/jarvis_brain/llm/omniroute/registry.py, OmniRouteRouteRegistry.
--   OmniRoute/Policy        src/jarvis_brain/llm/omniroute/policy.py, OmniRouteSelectionPolicy:
--                           `hard_filter` is `_hard_filter`, `score` is `_score`.
--   OmniRoute/Signals       src/jarvis_brain/llm/intelligence_classifiers.py, over the enumerations of
--                           jarvis_platform and the table of `str.lower` as the parameter `Platform`.
--   OmniRoute/Classifier    src/jarvis_brain/llm/omniroute/classifier.py, IntelligentTaskClassifier; its
--                           child Boundary joins the classification to the selection.
--   Llm/Models              src/jarvis_brain/llm/model_registry.py, LLMModelRegistry.
--   Llm/Names, Providers    src/jarvis_brain/llm/provider_registry.py and llm_provider.py.
--   Llm/Telemetry           src/jarvis_brain/llm/router_telemetry.py, LLMRouterTelemetry.
--   Llm/Router              src/jarvis_brain/llm/intelligence_router.py and llm_router_config.py:
--                           Router/Generate is `generate` and `route_only`, Router/Stream is
--                           `generate_stream`. A run returns its answer and the calls that it makes of
--                           the observatory, the telemetry and the providers, in order.
--   Llm/Observatory         src/jarvis_brain/llm/routing_observatory.py and topology_identity.py:
--                           `transition` and `terminal` are `_transition` and `_terminal`; the children
--                           Catalog, Diff and Snapshot are the catalog of providers, and Protocol joins
--                           the calls of the router to the observatory.
--   Llm/SafeService         src/jarvis_brain/llm/safe_llm_service.py, SafeLLMService: `generate`;
--                           Streaming is `generate_streaming`, Sentences `_complete_sentences`.
--   Llm/ModelRouter         src/jarvis_brain/llm/llm_model_router.py, LLMModelRouter; `search_from` is the
--                           regular expression of `_contains_keyword`.
--   Agents/Lifecycle        src/jarvis_brain/agents/agent_lifecycle_manager.py, AgentLifecycleManager; an
--                           operation returns its outcome and the manager. Endings has the operations
--                           that end an agent, Demo `get_snapshot` and `reset_demo_data`.
--   Agents/Broadcaster      src/jarvis_brain/agents/agent_event_broadcaster.py, AgentEventBroadcaster.
--   Agents/Swarm            src/jarvis_brain/agents/swarm_agent.py, swarm_runtime.py,
--                           swarm_coordinator.py and agent_message_bus.py: `collect` is the loop of
--                           `run_preview`, `reviewed_run` is `preview` and `run_safe`.
--   Orchestrator            src/jarvis_brain/orchestrator: Orchestrate and Intents are
--                           brain_orchestrator.py, Team is agent_team_builder.py and
--                           capability_registry.py, Graph is execution_graph.py, Verification is
--                           verification.py.
--
-- Prelude, Text, Dict and Floats are shared: tests on numbers and lists, Python's `str` and `dict`, and
-- an interface of the operations on floats, with the laws of `<` that the choice of a route needs. The
-- tests of a module are in its Examples.
--
-- Choices: a number is a natural number. Clocks are arguments, and count ticks. A raised error is a
-- value: `none`, the exception's constructor, or the event `raises` of a provider's stream, which the
-- router lets through. The `generate` of a provider is taken to turn its errors into answers. Every loop is structural, over the list or the
-- text that the code goes through, or over the number of attempts, so no fuel is needed. New IDs are arguments of the events that make them, and are not
-- those of an active turn, as random IDs of 128 bits are not in practice. No block of the coordinator
-- under its lock awaits, so its pieces are atomic, and the theorems on histories hold for each order in
-- which the event loop can run them.
--
-- Not modelled: the calls of networks, files and other services; reading the environment; pydantic's
-- checks of single fields; printed texts and metrics; and the parts of the program that the manifest
-- lists as not modelled (the big engine object, the briefing, the rest of the world intelligence, the
-- intents and plans of language models, and the routes of the web application).
pub mod Prelude
pub mod Text
pub mod Dict
pub mod Floats
pub mod Agents
pub mod Orchestrator
pub mod Llm
pub mod OmniRoute
pub mod Engine
pub mod Requests
pub mod World
pub mod Conversation
