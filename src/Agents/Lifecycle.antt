-- ===== src/Agents/Lifecycle.antt =====
-- The lifecycle of agents (src/jarvis_brain/agents/agent_lifecycle_manager.py and
-- agent_naming_service.py). The enumerations' members are known by their values; a new agent's ID is an
-- argument. `Parts` has what jarvis_platform's filter makes of texts and metadata. Times, the request's
-- ID and the IDs of events are left out, and so is the broadcaster, whose errors are swallowed.
pub mod Endings
pub mod Places
pub mod Separate
pub mod Lookup
pub mod Demo
mod Examples
use jarvis_brain.Dict.{Dict, get, put, remove, has}
use jarvis_brain.Prelude.{
  String, ℕ, zero, suc, ◌+◌, ◌-◌, ◌*◌, ◌/◌, ◌%◌, ◌≤◌, ◌<◌, min, max, ◌≡◌, refl, sym, ap, ◌∙◌, subst,
  ◌≢◌, ◌↔◌, ◌⊎◌, inl, inr, Bool, true, false, not, ◌&&◌, ◌||◌, Option, none, some, List, [], ◌∷◌,
  ◌++◌, map, reverse, arith, ltb, leb, nat_beq, if◌then◌else◌, ltb→lt, lt→ltb, le→ltb, leb→le,
  le→leb, nat_beq_iff, Bool-cases, Option-cases, Eq, ◌==◌, nat_eq, string_eq, pair_eq, length, drop,
  last_n, keep, All, any, all, length-append, length-drop, length-last_n, contains, get_or, eq_iff,
  eq_refl, list_cases, last_n-last_n-append, last_n-short, drop-append, drop-drop, drop_at,
  drop-nil, ltb_asym, ltb_mono, dec_beq, dec_beq_iff, discrete_eq, unique, unique_from, is_subset,
  Mem, mem-cons_self, mem-cons_of_mem, all-Mem, contains-Mem, find, find-Mem, all_intro, keep-Mem,
  contains_of_Mem, All-Mem, append-eq-nil, unique-eq-nil, eq-cases, if-elim, contains-unique_from,
  mem_keep, mem_second, holds-prop, All-append, contains-keep, contains-unique_from_eq,
  none-contained,
}
use jarvis_brain.Text.{join, or_else}

-- `M` is a metadata dict, `merge` the display `{**a, **b}`, and `is_demo` the truth of its entry "demo".
pub record Parts : Type 1 where
  pub M : Type 0
  pub empty : M
  pub merge : M → M → M
  pub with_step : M → Option String → M
  pub is_demo : M → Bool
  pub sanitize_message : String → String
  pub sanitize_metadata : M → M
  pub generate_name : String → ℕ → String

pub data Outcome {ℓ} (A : Type ℓ) : Type ℓ where
  returns : A → Outcome A
  key_error value_error : Outcome A

module _ (parts : Parts) where
  open parts use {M, merge, with_step, is_demo, sanitize_message, sanitize_metadata, generate_name}

  pub record AgentRecord : Type 0 where
    pub agent_id : String
    pub name : String
    pub role : String
    pub purpose : String
    pub status : String
    pub parent_agent_id : Option String
    pub current_step : Option String
    pub progress_percent : ℕ
    pub result_summary : Option String
    pub failure_reason : Option String
    pub metadata : M

  pub record AgentEvent : Type 0 where
    pub agent_id : String
    pub event_type : String
    pub message : String
    pub status : Option String
    pub metadata : M

  abbrev pub Agents : Type 0
  Agents = Dict String AgentRecord

  pub record AgentLifecycleManager : Type 0 where
    pub max_recent_events : ℕ
    pub active_agents : Agents
    pub completed_agents : Agents
    pub failed_agents : Agents
    pub archived_agents : Agents
    pub events : List AgentEvent
    pub role_sequences : Dict String ℕ

  -- `__init__`
  unfoldable pub new_manager : ℕ → AgentLifecycleManager
  new_manager limit = record {
    max_recent_events = max 1 limit;
    active_agents = [];
    completed_agents = [];
    failed_agents = [];
    archived_agents = [];
    events = [];
    role_sequences = [];
  }

  unfoldable pub add_event :
      String → String → String → Option String → M → AgentLifecycleManager → AgentLifecycleManager
  add_event agent_id event_type message status metadata m =
      let event : AgentEvent = record {
        agent_id = agent_id;
        event_type = event_type;
        message = sanitize_message message;
        status = status;
        metadata = sanitize_metadata metadata;
      } in
      record m { events = last_n m.max_recent_events (m.events ++ event ∷ []) }

  -- a.get(k) or b.get(k)
  abbrev pub or_found : Option AgentRecord → Option AgentRecord → Option AgentRecord
  or_found none later = later
  or_found (some agent) later = some agent

  -- `_find_agent`, which `get_agent` returns
  unfoldable pub find_agent : AgentLifecycleManager → String → Option AgentRecord
  find_agent m id = or_found (get m.active_agents id) (
      or_found (get m.completed_agents id)
        (or_found (get m.failed_agents id) (get m.archived_agents id)))

  -- `_store_agent`
  unfoldable pub store_agent : AgentRecord → AgentLifecycleManager → AgentLifecycleManager
  store_agent agent m =
      if has m.completed_agents agent.agent_id
      then record m { completed_agents = put m.completed_agents agent.agent_id agent }
      else if has m.failed_agents agent.agent_id
      then record m { failed_agents = put m.failed_agents agent.agent_id agent }
      else if has m.archived_agents agent.agent_id
      then record m { archived_agents = put m.archived_agents agent.agent_id agent }
      else record m { active_agents = put m.active_agents agent.agent_id agent }

  -- An operation on an agent that is there; on any other it raises `KeyError`.
  abbrev pub on_agent :
      AgentLifecycleManager
      → (AgentRecord → Outcome AgentRecord × AgentLifecycleManager)
      → Option AgentRecord
      → Outcome AgentRecord × AgentLifecycleManager
  on_agent m operation none = (key_error, m)
  on_agent m operation (some agent) = operation agent

  -- An event about an agent with its own status and metadata.
  abbrev pub told : AgentRecord → String → String → AgentLifecycleManager → AgentLifecycleManager
  told agent event_type message =
      add_event agent.agent_id event_type message (some agent.status) agent.metadata

  abbrev pub text : List String → String
  text = join ""

  abbrev pub new_agent : String → String → ℕ → String → Option String → M → AgentRecord
  new_agent id role sequence purpose parent metadata = record {
    agent_id = id;
    name = generate_name role sequence;
    role = role;
    purpose = sanitize_message purpose;
    status = "created";
    parent_agent_id = parent;
    current_step = none;
    progress_percent = 0;
    result_summary = none;
    failure_reason = none;
    metadata = sanitize_metadata metadata;
  }

  -- `create_agent`, whose new ID is `id`
  unfoldable pub create_agent :
      String
      → String
      → String
      → Option String
      → M
      → AgentLifecycleManager
      → Outcome AgentRecord × AgentLifecycleManager
  create_agent id role purpose parent metadata m =
      let sequence = get_or (get m.role_sequences role) 0 + 1 in
      let agent = new_agent id role sequence purpose parent metadata in
      let registered = record m {
        role_sequences = put m.role_sequences role sequence;
        active_agents = put m.active_agents id agent;
      } in
      (
        returns agent,
        told agent "role_assigned" (text (agent.name ∷ " was assigned the " ∷ role ∷ " role." ∷ []))
            (told agent "name_assigned" (text ("Jarvis named the agent " ∷ agent.name ∷ "." ∷ []))
              (told agent "agent_created" (text (agent.name ∷ " was created." ∷ [])) registered)),
      )

  unfoldable pub assign_task :
      String → String → AgentLifecycleManager → Outcome AgentRecord × AgentLifecycleManager
  assign_task id task m =
      on_agent m
        (λ agent.
          let safe_task = sanitize_message task in
          let updated = record agent { status = "assigned"; current_step = some safe_task } in
          (
            returns updated,
            told updated "task_assigned" (text (updated.name ∷ " was assigned: " ∷ safe_task ∷ []))
                (store_agent updated m),
          ))
        (find_agent m id)

  -- The arguments of `update_status`; a status that the enumeration knows.
  pub record StatusUpdate : Type 0 where
    pub status : String
    pub current_step : Option String
    pub progress_percent : Option ℕ
    pub metadata : Option M

  abbrev pub is_out_of_range : Option ℕ → Bool
  is_out_of_range none = false
  is_out_of_range (some percent) = ltb 100 percent

  abbrev pub merged : M → Option M → M
  merged own none = own
  merged own (some more) = merge own (sanitize_metadata more)

  abbrev pub or_kept : Option String → Option String → Option String
  or_kept none own = own
  or_kept (some step) own = some (sanitize_message step)

  abbrev pub updated_agent : StatusUpdate → AgentRecord → AgentRecord
  updated_agent u agent = record agent {
    status = u.status;
    current_step = or_kept u.current_step agent.current_step;
    progress_percent = get_or u.progress_percent agent.progress_percent;
    metadata = merged agent.metadata u.metadata;
  }

  unfoldable pub update_status :
      String → StatusUpdate → AgentLifecycleManager → Outcome AgentRecord × AgentLifecycleManager
  update_status id u m =
      on_agent m
        (λ agent.
          let updated = updated_agent u agent in
          if is_out_of_range u.progress_percent then (value_error, m) else (
            returns updated,
            add_event id "status_changed"
                (text (updated.name ∷ " is now " ∷ updated.status ∷ "." ∷ [])) (some updated.status)
                (with_step updated.metadata updated.current_step) (store_agent updated m),
          ))
        (find_agent m id)

  unfoldable pub get_agent_events : AgentLifecycleManager → String → List AgentEvent
  get_agent_events m id = keep (λ event. event.agent_id == id) m.events
