-- ===== src/Agents/Lifecycle/Demo.antt =====
-- The snapshot, and the removal of demo data
-- (src/jarvis_brain/agents/agent_lifecycle_manager.py, `get_snapshot` and `reset_demo_data`).
use jarvis_brain.Dict.{get, remove, values, get-remove}
use jarvis_brain.Agents.Lifecycle.{
  Parts, Agents, AgentRecord, AgentEvent, AgentLifecycleManager, find_agent,
}
use jarvis_brain.Prelude.{
  String, ◌≡◌, refl, ◌∙◌, Bool, false, not, ◌&&◌, Option, none, some, List, [], ◌∷◌, ◌++◌, map,
  reverse, arith, if◌then◌else◌, ◌==◌, nat_eq, string_eq, pair_eq, last_n, keep, any, contains, Mem,
  keep-Mem,
}

module _ (parts : Parts) where
  open parts use {M, is_demo, sanitize_metadata}

  unfoldable pub all_agents : AgentLifecycleManager parts → List (AgentRecord parts)
  all_agents m =
      values m.active_agents
      ++ values m.completed_agents
      ++ values m.failed_agents
      ++ values m.archived_agents

  pub record AgentGraphNode : Type 0 where
    pub id : String
    pub label : String
    pub role : String
    pub status : String
    pub metadata : M

  pub record AgentGraphEdge : Type 0 where
    pub source : String
    pub target : String
    pub demo : Bool

  pub record AgentLifecycleSnapshot : Type 0 where
    pub active_agents : List (AgentRecord parts)
    pub completed_agents : List (AgentRecord parts)
    pub failed_agents : List (AgentRecord parts)
    pub archived_agents : List (AgentRecord parts)
    pub recent_events : List (AgentEvent parts)
    pub graph_nodes : List AgentGraphNode
    pub graph_edges : List AgentGraphEdge
    pub demo : Bool

  abbrev pub node_of : AgentRecord parts → AgentGraphNode
  node_of agent = record {
    id = agent.agent_id;
    label = agent.name;
    role = agent.role;
    status = agent.status;
    metadata = sanitize_metadata agent.metadata;
  }

  abbrev pub add_edge :
      AgentRecord parts → Option String → List AgentGraphEdge → List AgentGraphEdge
  add_edge agent none edges = edges
  add_edge agent (some parent) edges =
      let edge : AgentGraphEdge = record {
        source = parent;
        target = agent.agent_id;
        demo = is_demo agent.metadata;
      } in
      if parent == "" then edges else edge ∷ edges

  unfoldable pub edges_of : List (AgentRecord parts) → List AgentGraphEdge
  edges_of [] = []
  edges_of (agent ∷ rest) = add_edge agent agent.parent_agent_id (edges_of rest)

  unfoldable pub get_snapshot : AgentLifecycleManager parts → AgentLifecycleSnapshot
  get_snapshot m =
      let agents = all_agents m in
      record {
        active_agents = values m.active_agents;
        completed_agents = values m.completed_agents;
        failed_agents = values m.failed_agents;
        archived_agents = values m.archived_agents;
        recent_events = reverse (last_n 25 m.events);
        graph_nodes = map node_of agents;
        graph_edges = edges_of agents;
        demo = any (λ agent. is_demo agent.metadata) agents;
      }

  unfoldable pub demo_ids : AgentLifecycleManager parts → List String
  demo_ids m = map (λ agent. agent.agent_id) (keep (λ agent. is_demo agent.metadata) (all_agents m))

  -- for agent_id in demo_ids: collection.pop(agent_id, None)
  unfoldable pub remove_all : List String → Agents parts → Agents parts
  remove_all [] d = d
  remove_all (id ∷ ids) d = remove_all ids (remove d id)

  abbrev pub is_real_event : List String → AgentEvent parts → Bool
  is_real_event ids event = not (contains ids event.agent_id) && not (is_demo event.metadata)

  unfoldable pub reset_demo_data : AgentLifecycleManager parts → AgentLifecycleManager parts
  reset_demo_data m =
      let ids = demo_ids m in
      record m {
        active_agents = remove_all ids m.active_agents;
        completed_agents = remove_all ids m.completed_agents;
        failed_agents = remove_all ids m.failed_agents;
        archived_agents = remove_all ids m.archived_agents;
        events = keep (is_real_event ids) m.events;
      }

  get-remove_all :
      (ids : List String) (d : Agents parts) (k : String)
      → get (remove_all ids d) k ≡ (if contains ids k then none else get d k)
  unfolding remove_all contains
  get-remove_all [] d k = refl
  get-remove_all (id ∷ ids) d k =
      get-remove_all ids (remove d id) k ∙ ground (arith, get-remove d id k)

  -- Removing demo data takes away exactly the IDs of demo agents, from all collections: after it, no
  -- agent is found at such an ID, at any other the same agent as before; and an event that is kept is
  -- one of those before, about none of these agents and not marked as a demo itself.
  pub reset_demo_data_lem :
      (m : AgentLifecycleManager parts)
      → ((id : String)
          → find_agent parts (reset_demo_data m) id
            ≡ (if contains (demo_ids m) id then none else find_agent parts m id))
        × ((event : AgentEvent parts)
            → Mem event (reset_demo_data m).events
            → Mem event m.events
              × (contains (demo_ids m) event.agent_id ≡ false)
              × (is_demo event.metadata ≡ false))
  unfolding reset_demo_data find_agent
  reset_demo_data_lem m = (
    λ id. ground (
      arith,
      get-remove_all (demo_ids m) m.active_agents id,
      get-remove_all (demo_ids m) m.completed_agents id,
      get-remove_all (demo_ids m) m.failed_agents id,
      get-remove_all (demo_ids m) m.archived_agents id,
    ),
    λ event here.
        let (old, real) = keep-Mem (is_real_event (demo_ids m)) m.events event here in
        (old, ground (arith, real), ground (arith, real)),
  )
