-- ===== src/Orchestrator/Examples.antt =====
-- An orchestrator whose model proposes two steps, over whole numbers for floats.
use jarvis_brain.Floats.{whole}
use jarvis_brain.Text.{is_in, starts_with, join}
use jarvis_brain.Orchestrator.{coding, BrainPlanStep, BrainOrchestratorProposal}
use jarvis_brain.Orchestrator.Graph.{
  build, node_ids, edge, edges_from, nodes_from, IsOrdered, IsDistinct, IsAcyclic, Reaches,
}
use jarvis_brain.Orchestrator.Forward.{build-IsAcyclic}
use jarvis_brain.Orchestrator.Verification.{validate, refused_tool}
use jarvis_brain.Orchestrator.Team.{dedupe_allowed}
use jarvis_brain.Orchestrator.Orchestrate.{Brain, orchestrate, complete_proposal}
use jarvis_brain.Orchestrator.Vetted.{AreVetted, orchestrate-AreVetted}
use jarvis_brain.Prelude.{
  String, ◌≡◌, refl, true, false, not, none, some, List, [], ◌∷◌, ◌==◌, nat_eq, string_eq, pair_eq,
  mem-cons_self, mem-cons_of_mem, any, contains,
}

abbrev step : String → List String → BrainPlanStep
step id depends_on = record {
  step_id = id;
  title = "write";
  description = "write it";
  node_type = "tool";
  action = none;
  target = none;
  requires_approval = false;
  depends_on = depends_on;
}

abbrev two_steps : List BrainPlanStep
two_steps = step "a" [] ∷ step "b" ("a" ∷ "context" ∷ []) ∷ []

two_steps-IsOrdered : IsOrdered ("intent" ∷ "context" ∷ []) two_steps
unfolding contains
two_steps-IsOrdered = (tt, ((refl, (refl, tt)), tt))

two_steps-IsDistinct : IsDistinct (node_ids (build two_steps).nodes)
unfolding contains build nodes_from
two_steps-IsDistinct = (refl, (refl, (refl, (refl, (refl, (refl, tt))))))

build-IsAcyclic_example : IsAcyclic (build two_steps).edges
build-IsAcyclic_example = build-IsAcyclic two_steps two_steps-IsDistinct two_steps-IsOrdered

-- Two steps with one ID make a cycle, although each step waits for steps before it only.
abbrev twice_a : List BrainPlanStep
twice_a = step "a" [] ∷ step "b" ("a" ∷ []) ∷ step "a" ("b" ∷ []) ∷ []

twice_a_cycle :
    IsOrdered ("intent" ∷ "context" ∷ []) twice_a × Reaches (build twice_a).edges "a" "a"
unfolding contains build edges_from
twice_a_cycle = (
  (tt, ((refl, tt), ((refl, tt), tt))),
  Reaches.via "a" "b" "a" (mem-cons_of_mem _ (mem-cons_of_mem _ mem-cons_self)) (
      Reaches.by_edge "b" "a"
        (mem-cons_of_mem _ (mem-cons_of_mem _ (mem-cons_of_mem _ mem-cons_self)))),
)

-- A step that names itself is its own successor in the graph.
own_successor :
    (build (step "a" ("a" ∷ []) ∷ [])).edges
    ≡ edge "intent" "context"
      ∷ edge "a" "a"
      ∷ edge "a" "verification"
      ∷ edge "verification" "response"
      ∷ []
unfolding build edges_from
own_successor = refl

abbrev proposal : BrainOrchestratorProposal whole
proposal = record {
  summary = "code";
  response_strategy = "";
  intents =
      record {
        intent_type = coding;
        action = "answer";
        target = none;
        goal = none;
        confidence = 9;
        needs_clarification = false;
      }
      ∷ [];
  plan_steps = two_steps;
  tool_proposals = record { action = "read"; target = none } ∷ [];
  agent_roles = "coder" ∷ "hacker" ∷ "coder" ∷ [];
  capabilities = [];
  confidence = 9;
}

abbrev brain : Brain whole
brain = record {
  enabled = true;
  checks = record {
    lower = λ text. text;
    has_secrets = λ text. is_in "pw" text;
    allow_action = λ action target. (not (action == "delete"), "firewall");
  };
  minimum_confidence = 5;
  normalized = λ text. text;
  is_suspicious = λ text. false;
  generate = λ raw. record {
    succeeded = true;
    content = raw;
    error_message = none;
    selected_provider = none;
    selected_model = none;
  };
  parse = λ content. some proposal;
  resolve = λ raw. record {
    intent_type = "plan";
    action = "plan";
    target = none;
    goal = none;
    confidence = 1;
    needs_clarification = false;
  };
  empty_proposal = proposal;
  value_of = λ intent. "coding";
}

orchestrate-AreVetted_example : AreVetted whole brain "help" (orchestrate whole brain "help")
orchestrate-AreVetted_example = orchestrate-AreVetted whole brain "help"

one_coder : (orchestrate whole brain "help").proposal.agent_roles ≡ "coder" ∷ []
unfolding orchestrate validate is_in starts_with any join complete_proposal dedupe_allowed contains
    refused_tool
one_coder = refl
