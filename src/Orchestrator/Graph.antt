-- ===== src/Orchestrator/Graph.antt =====
-- The execution graph of a proposal (src/jarvis_brain/orchestrator/execution_graph.py). The IDs of the
-- graph, and what a node says beyond its ID, type and label, are left out.
use jarvis_brain.Orchestrator.{BrainPlanStep}
use jarvis_brain.Prelude.{
  String, ◌≡◌, true, List, [], ◌∷◌, ◌++◌, map, nat_eq, string_eq, pair_eq, All, contains, Mem,
  false,
}

pub record BrainExecutionGraphNode : Type 0 where
  pub node_id : String
  pub node_type : String
  pub label : String

pub record BrainExecutionGraphEdge : Type 0 where
  pub source : String
  pub target : String

pub record BrainExecutionGraph : Type 0 where
  pub nodes : List BrainExecutionGraphNode
  pub edges : List BrainExecutionGraphEdge

abbrev pub node : String → String → String → BrainExecutionGraphNode
node id type label = record { node_id = id; node_type = type; label = label }

abbrev pub edge : String → String → BrainExecutionGraphEdge
edge source target = record { source = source; target = target }

-- step.depends_on or [previous]
abbrev pub dependencies : String → List String → List String
dependencies previous [] = previous ∷ []
dependencies previous (dependency ∷ rest) = dependency ∷ rest

abbrev pub last_edges : String → List BrainExecutionGraphEdge
last_edges previous = edge previous "verification" ∷ edge "verification" "response" ∷ []

-- The edges from the steps on, where `previous` is the step before.
unfoldable pub edges_from : String → List BrainPlanStep → List BrainExecutionGraphEdge
edges_from previous [] = last_edges previous
edges_from previous (step ∷ steps) =
    map (λ dependency. edge dependency step.step_id) (dependencies previous step.depends_on)
    ++ edges_from step.step_id steps

-- The nodes from the steps on.
unfoldable pub nodes_from : List BrainPlanStep → List BrainExecutionGraphNode
nodes_from [] =
    node "verification" "verification" "Verify result"
    ∷ node "response" "response" "Prepare response"
    ∷ []
nodes_from (step ∷ steps) = node step.step_id step.node_type step.title ∷ nodes_from steps

unfoldable pub build : List BrainPlanStep → BrainExecutionGraph
build steps = record {
  nodes =
      node "intent" "intent" "Understand request"
      ∷ node "context" "context" "Assemble context"
      ∷ nodes_from steps;
  edges = edge "intent" "context" ∷ edges_from "context" steps;
}

abbrev pub node_ids : List BrainExecutionGraphNode → List String
node_ids = map (λ n. n.node_id)

-- A step that waits for steps before it only.
abbrev pub IsOrdered : List String → List BrainPlanStep → Type 0
IsOrdered before [] = Unit
IsOrdered before (step ∷ steps) =
    All (λ id. contains before id ≡ true) step.depends_on
    × IsOrdered (before ++ step.step_id ∷ []) steps

-- An edge leads from a node to a node behind it in the list.
abbrev pub IsForward : List String → BrainExecutionGraphEdge → Type 0
IsForward ids e =
    (before : List String) × ((behind : List String) × ((ids ≡ before ++ e.target ∷ behind)
        × (contains before e.source ≡ true)))

-- No ID stands twice.
abbrev pub IsDistinct : List String → Type 0
IsDistinct [] = Unit
IsDistinct (id ∷ ids) = (contains ids id ≡ false) × IsDistinct ids

-- A way along the edges, of one edge or more.
pub data Reaches (edges : List BrainExecutionGraphEdge) : String → String → Type 0 where
  by_edge : (a b : String) → Mem (edge a b) edges → Reaches edges a b
  via : (a b c : String) → Mem (edge a b) edges → Reaches edges b c → Reaches edges a c

-- No node reaches itself.
abbrev pub IsAcyclic : List BrainExecutionGraphEdge → Type 0
IsAcyclic edges = (id : String) → ¬ Reaches edges id id
