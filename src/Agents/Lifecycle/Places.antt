-- ===== src/Agents/Lifecycle/Places.antt =====
-- In which collections an agent stands (src/jarvis_brain/agents/agent_lifecycle_manager.py).
use jarvis_brain.Dict.{Dict, get, put, remove, has, has-put, has-remove, has-get}
use jarvis_brain.Agents.Lifecycle.{
  Parts, Outcome, AgentRecord, AgentLifecycleManager, add_event, find_agent, store_agent, new_agent,
  create_agent, assign_task, StatusUpdate, update_status, updated_agent, is_out_of_range,
}
use jarvis_brain.Agents.Lifecycle.Endings.{
  told_result, completed_agent, complete_agent, failed_agent, fail_agent, terminated_agent,
  terminate_agent, archive_agent,
}
use jarvis_brain.Prelude.{
  String, ℕ, ◌+◌, ◌≤◌, ◌≡◌, refl, ap, subst, inl, inr, Bool, true, false, Option, none, some, arith,
  Bool-cases, ◌==◌, nat_eq, string_eq, pair_eq, get_or, if-elim,
}

abbrev pub bit : Bool → ℕ
bit true = 1
bit false = 0

module _ (parts : Parts) where
  abbrev pub Manager : Type 0
  Manager = AgentLifecycleManager parts

  -- The number of collections that an agent stands in.
  abbrev pub places : Manager → String → ℕ
  places m id =
      bit (has m.active_agents id)
      + bit (has m.completed_agents id)
      + bit (has m.failed_agents id)
      + bit (has m.archived_agents id)

  abbrev pub IsSeparate : Manager → Type 0
  IsSeparate m = (id : String) → places m id ≤ 1

  store_agent-IsSeparate :
      (agent : AgentRecord parts) (m : Manager)
      → IsSeparate m
      → IsSeparate (store_agent parts agent m)
  unfolding store_agent
  store_agent-IsSeparate agent m h id =
      let k = agent.agent_id in
      let same = string_eq.beq_iff k id in
      ground (
        arith,
        h id,
        h k,
        ap (has m.active_agents),
        has-put m.active_agents k id agent,
        has-put m.completed_agents k id agent,
        has-put m.failed_agents k id agent,
        has-put m.archived_agents k id agent,
      )

  pub places-told_result :
      (summary : Option String) (agent : AgentRecord parts) (m : Manager) (id : String)
      → places (told_result parts summary agent m) id ≡ places m id
  unfolding add_event
  places-told_result none agent m id = refl
  places-told_result (some summary) agent m id =
      if-elim (λ (x : Manager). places x id ≡ places m id) (summary == "") _ _ (λ empty. refl)
        (λ said. refl)

  -- An agent that is not found stands nowhere.
  find_agent-places : (m : Manager) (id : String) → find_agent parts m id ≡ none → places m id ≡ 0
  unfolding find_agent
  find_agent-places m id e = ground (
    arith,
    e,
    has-get m.active_agents id,
    has-get m.completed_agents id,
    has-get m.failed_agents id,
    has-get m.archived_agents id,
  )

  pub create_agent-IsSeparate :
      (id role purpose : String) (parent : Option String) (metadata : parts.M) (m : Manager)
      → find_agent parts m id ≡ none
      → IsSeparate m
      → IsSeparate (create_agent parts id role purpose parent metadata m).1
  unfolding create_agent add_event
  create_agent-IsSeparate id role purpose parent metadata m fresh h j =
      let sequence = get_or (get m.role_sequences role) 0 + 1 in
      let agent = new_agent parts id role sequence purpose parent metadata in
      let at = has-put m.active_agents id j agent in
      elim (Bool-cases (id == j)) [
        | inl same ↦
            let nowhere : places m j ≡ 0 =
              subst (λ x. places m x ≡ 0) ((string_eq.beq_iff id j).0 same)
                (find_agent-places m id fresh) in
            ground (arith, at, same, nowhere)
        | inr other ↦ ground (arith, at, other, h j)
      ]

  pub assign_task-IsSeparate :
      (id task : String) (m : Manager) (found : Option (AgentRecord parts))
      → find_agent parts m id ≡ found
      → IsSeparate m
      → IsSeparate (assign_task parts id task m).1
  unfolding assign_task add_event
  assign_task-IsSeparate id task m none e h = rw e h
  assign_task-IsSeparate id task m (some agent) e h =
      let updated = record agent {
        status = "assigned";
        current_step = some (parts.sanitize_message task);
      } in
      rw e (λ j. store_agent-IsSeparate updated m h j)

  pub update_status-IsSeparate :
      (id : String) (u : StatusUpdate parts) (m : Manager) (found : Option (AgentRecord parts))
      → find_agent parts m id ≡ found
      → IsSeparate m
      → IsSeparate (update_status parts id u m).1
  unfolding update_status add_event
  update_status-IsSeparate id u m none e h = rw e h
  update_status-IsSeparate id u m (some agent) e h = rw e (
      if-elim (λ (r : Outcome (AgentRecord parts) × Manager). IsSeparate r.1)
        (is_out_of_range parts u.progress_percent) _ _ (λ out. h)
        (λ fine j. store_agent-IsSeparate (updated_agent parts u agent) m h j))

  -- A move of an agent into one collection, out of two others, keeps the rest.
  moved_places :
      (id j : String) (agent : AgentRecord parts) (a b c d : Dict String (AgentRecord parts))
      → bit (has a j) + bit (has b j) + bit (has c j) + bit (has d j) ≤ 1
      → (id ≡ j → has d j ≡ false)
      → bit (has (remove a id) j)
          + bit (has (put b id agent) j)
          + bit (has (remove c id) j)
          + bit (has d j)
        ≤ 1
  moved_places id j agent a b c d h out =
      let from_a = has-remove a id j in
      let from_c = has-remove c id j in
      let into = has-put b id j agent in
      elim (Bool-cases (id == j)) [
        | inl same ↦
            let away = out ((string_eq.beq_iff id j).0 same) in
            ground (arith, from_a, from_c, into, same, away)
        | inr other ↦ ground (arith, from_a, from_c, into, other, h)
      ]

  -- The same where it leaves the other three.
  left_places :
      (id j : String) (agent : AgentRecord parts) (a b c d : Dict String (AgentRecord parts))
      → bit (has a j) + bit (has b j) + bit (has c j) + bit (has d j) ≤ 1
      → bit (has (remove a id) j)
          + bit (has (put b id agent) j)
          + bit (has (remove c id) j)
          + bit (has (remove d id) j)
        ≤ 1
  left_places id j agent a b c d h =
      let gone = has-remove d id j in
      moved_places id j agent a b c (remove d id) (ground (arith, h, gone))
        (λ same. ground (arith, gone, (string_eq.beq_iff id j).1 same))

  abbrev pub completed_move : String → AgentRecord parts → Manager → Manager
  completed_move id completed m = record m {
    active_agents = remove m.active_agents id;
    failed_agents = remove m.failed_agents id;
    completed_agents = put m.completed_agents id completed;
  }

  pub complete_agent-IsSeparate :
      (id : String) (summary : Option String) (m : Manager) (found : Option (AgentRecord parts))
      → find_agent parts m id ≡ found
      → has m.archived_agents id ≡ false
      → IsSeparate m
      → IsSeparate (complete_agent parts id summary m).1
  unfolding complete_agent add_event
  complete_agent-IsSeparate id summary m none e out h = rw e h
  complete_agent-IsSeparate id summary m (some agent) e out h =
      let completed = completed_agent parts summary agent in
      rw e (λ j. omega (
        arith,
        places-told_result summary completed (completed_move id completed m) j,
        moved_places id j completed m.active_agents m.completed_agents m.failed_agents
            m.archived_agents (h j) (λ same. subst (λ x. has m.archived_agents x ≡ false) same out),
      ))

  pub fail_agent-IsSeparate :
      (id reason : String) (m : Manager) (found : Option (AgentRecord parts))
      → find_agent parts m id ≡ found
      → has m.archived_agents id ≡ false
      → IsSeparate m
      → IsSeparate (fail_agent parts id reason m).1
  unfolding fail_agent add_event
  fail_agent-IsSeparate id reason m none e out h = rw e h
  fail_agent-IsSeparate id reason m (some agent) e out h = rw e (λ j. omega (
    arith,
    moved_places id j (failed_agent parts reason agent) m.active_agents m.failed_agents
        m.completed_agents m.archived_agents (omega (arith, h j))
        (λ same. subst (λ x. has m.archived_agents x ≡ false) same out),
  ))

  pub terminate_agent-IsSeparate :
      (id : String) (reason : Option String) (m : Manager) (found : Option (AgentRecord parts))
      → find_agent parts m id ≡ found
      → IsSeparate m
      → IsSeparate (terminate_agent parts id reason m).1
  unfolding terminate_agent add_event
  terminate_agent-IsSeparate id reason m none e h = rw e h
  terminate_agent-IsSeparate id reason m (some agent) e h = rw e (λ j. omega (
    arith,
    left_places id j (terminated_agent parts reason agent) m.active_agents m.failed_agents
        m.completed_agents m.archived_agents (omega (arith, h j)),
  ))

  pub archive_agent-IsSeparate :
      (id : String) (m : Manager) (found : Option (AgentRecord parts))
      → find_agent parts m id ≡ found
      → IsSeparate m
      → IsSeparate (archive_agent parts id m).1
  unfolding archive_agent add_event
  archive_agent-IsSeparate id m none e h = rw e h
  archive_agent-IsSeparate id m (some agent) e h = rw e (λ j. omega (
    arith,
    left_places id j (record agent { status = "archived" }) m.active_agents m.archived_agents
        m.completed_agents m.failed_agents (omega (arith, h j)),
  ))
