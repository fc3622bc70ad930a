-- ===== src/Agents/Lifecycle/Lookup.antt =====
-- What `get_agent` returns after an operation
-- (src/jarvis_brain/agents/agent_lifecycle_manager.py).
use jarvis_brain.Dict.{Dict, get, put, remove, get-put_self, get-remove}
use jarvis_brain.Agents.Lifecycle.{
  Parts, Outcome, returns, key_error, value_error, AgentRecord, AgentLifecycleManager, add_event,
  find_agent, told, or_found, create_agent, new_agent, returns,
}
use jarvis_brain.Agents.Lifecycle.Endings.{
  told_result, completed_agent, complete_agent, failed_agent, fail_agent, terminated_agent,
  terminate_agent, archive_agent,
}
use jarvis_brain.Prelude.{
  String, ◌+◌, ◌≡◌, refl, ap, ◌∙◌, Option, none, some, arith, ◌==◌, nat_eq, string_eq, pair_eq,
  get_or, if-elim,
}

module _ (parts : Parts) where
  abbrev Agents : Type 0
  Agents = Dict String (AgentRecord parts)

  removed : (d : Agents) (id : String) → get (remove d id) id ≡ none
  removed d id = get-remove d id id ∙ ground (arith, (string_eq.beq_iff id id).1 refl)

  -- The first collection that has the agent decides.
  second_found :
      (a b c d : Agents) (id : String) (agent : AgentRecord parts)
      → or_found parts
          (get (remove a id) id)
          (or_found parts (get (put b id agent) id) (or_found parts (get c id) (get d id)))
        ≡ some agent
  second_found a b c d id agent = rw (removed a id) (rw (get-put_self b id id agent) refl)

  third_found :
      (a b c d : Agents) (id : String) (agent : AgentRecord parts)
      → or_found parts (get (remove a id) id) (
          or_found parts
            (get (remove b id) id)
            (or_found parts (get (put c id agent) id) (get d id)))
        ≡ some agent
  third_found a b c d id agent =
      rw (removed a id) (rw (removed b id) (rw (get-put_self c id id agent) refl))

  fourth_found :
      (a b c d : Agents) (id : String) (agent : AgentRecord parts)
      → or_found parts (get (remove a id) id) (
          or_found parts
            (get (remove b id) id)
            (or_found parts (get (remove c id) id) (get (put d id agent) id)))
        ≡ some agent
  fourth_found a b c d id agent =
      rw (removed a id) (rw (removed b id) (rw (removed c id) (get-put_self d id id agent)))

  find_agent-told_result :
      (summary : Option String) (agent : AgentRecord parts) (m : AgentLifecycleManager parts)
      (id : String)
      → find_agent parts (told_result parts summary agent m) id ≡ find_agent parts m id
  unfolding add_event find_agent
  find_agent-told_result none agent m id = refl
  find_agent-told_result (some summary) agent m id =
      if-elim (λ (x : AgentLifecycleManager parts). find_agent parts x id ≡ find_agent parts m id)
        (summary == "") _ _ (λ empty. refl) (λ said. refl)

  -- The agent that a call returns is the one that is found.
  abbrev pub IsFound : String → Outcome (AgentRecord parts) × AgentLifecycleManager parts → Type 0
  IsFound id (returns agent, m) = find_agent parts m id ≡ some agent
  IsFound id (key_error, m) = find_agent parts m id ≡ none
  IsFound id (value_error, m) = Unit

  find_agent-told :
      (agent : AgentRecord parts) (event_type message : String) (m : AgentLifecycleManager parts)
      (id : String)
      → find_agent parts (told parts agent event_type message m) id ≡ find_agent parts m id
  unfolding add_event find_agent
  find_agent-told agent event_type message m id = refl

  find_agent_eq :
      (m : AgentLifecycleManager parts) (id : String)
      → find_agent parts m id
        ≡ or_found parts (get m.active_agents id) (
            or_found parts
              (get m.completed_agents id)
              (or_found parts (get m.failed_agents id) (get m.archived_agents id)))
  unfolding find_agent
  find_agent_eq m id = refl

  module _ (id : String) (m : AgentLifecycleManager parts) where
    create_agent-IsFound :
        (role purpose : String) (parent : Option String) (metadata : parts.M)
        → IsFound id (create_agent parts id role purpose parent metadata m)
    unfolding create_agent add_event
    create_agent-IsFound role purpose parent metadata =
        let sequence = get_or (get m.role_sequences role) 0 + 1 in
        let agent = new_agent parts id role sequence purpose parent metadata in
        find_agent_eq _ id
        ∙ ap
            (λ x. or_found parts x (
              or_found parts (get m.completed_agents id)
                (or_found parts (get m.failed_agents id) (get m.archived_agents id))))
            (get-put_self m.active_agents id id agent)

    complete_agent-IsFound :
        (summary : Option String) (found : Option (AgentRecord parts))
        → find_agent parts m id ≡ found
        → IsFound id (complete_agent parts id summary m)
    unfolding complete_agent
    complete_agent-IsFound summary none e = rw e e
    complete_agent-IsFound summary (some agent) e =
        let completed = completed_agent parts summary agent in
        rw e (
          find_agent-told completed "agent_completed" _ (told_result parts summary completed _) id
          ∙ find_agent-told_result summary completed _ id
          ∙ find_agent_eq _ id
          ∙ second_found m.active_agents m.completed_agents (remove m.failed_agents id)
              m.archived_agents id completed)

    fail_agent-IsFound :
        (reason : String) (found : Option (AgentRecord parts))
        → find_agent parts m id ≡ found
        → IsFound id (fail_agent parts id reason m)
    unfolding fail_agent add_event
    fail_agent-IsFound reason none e = rw e e
    fail_agent-IsFound reason (some agent) e = rw e (
        find_agent_eq _ id
        ∙ third_found m.active_agents m.completed_agents m.failed_agents m.archived_agents id
            (failed_agent parts reason agent))

    terminate_agent-IsFound :
        (reason : Option String) (found : Option (AgentRecord parts))
        → find_agent parts m id ≡ found
        → IsFound id (terminate_agent parts id reason m)
    unfolding terminate_agent add_event
    terminate_agent-IsFound reason none e = rw e e
    terminate_agent-IsFound reason (some agent) e = rw e (
        find_agent_eq _ id
        ∙ third_found m.active_agents m.completed_agents m.failed_agents
            (remove m.archived_agents id) id (terminated_agent parts reason agent))

    archive_agent-IsFound :
        (found : Option (AgentRecord parts))
        → find_agent parts m id ≡ found
        → IsFound id (archive_agent parts id m)
    unfolding archive_agent add_event
    archive_agent-IsFound none e = rw e e
    archive_agent-IsFound (some agent) e = rw e (
        find_agent_eq _ id
        ∙ fourth_found m.active_agents m.completed_agents m.failed_agents m.archived_agents id
            (record agent { status = "archived" }))

    -- The agent that an operation returns is the one that is found afterwards at its ID, wherever the
    -- agent stood before: for a new agent, a completed, a failed, a terminated and an archived one. An
    -- operation that raises `KeyError` does so only if no agent has the ID.
    pub operations-IsFound :
        (role purpose reason : String) (parent summary cause : Option String) (metadata : parts.M)
        → IsFound id (create_agent parts id role purpose parent metadata m)
          × IsFound id (complete_agent parts id summary m)
          × IsFound id (fail_agent parts id reason m)
          × IsFound id (terminate_agent parts id cause m)
          × IsFound id (archive_agent parts id m)
    operations-IsFound role purpose reason parent summary cause metadata = (
      create_agent-IsFound role purpose parent metadata,
      complete_agent-IsFound summary (find_agent parts m id) refl,
      fail_agent-IsFound reason (find_agent parts m id) refl,
      terminate_agent-IsFound cause (find_agent parts m id) refl,
      archive_agent-IsFound (find_agent parts m id) refl,
    )
