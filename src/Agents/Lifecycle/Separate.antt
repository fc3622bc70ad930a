-- ===== src/Agents/Lifecycle/Separate.antt =====
-- Histories of calls of the manager (src/jarvis_brain/agents/agent_lifecycle_manager.py).
use jarvis_brain.Dict.{has, has-put, has-remove}
use jarvis_brain.Agents.Lifecycle.{
  Parts, AgentRecord, add_event, find_agent, StatusUpdate, create_agent, assign_task, update_status,
}
use jarvis_brain.Agents.Lifecycle.Endings.{
  completed_agent, complete_agent, fail_agent, terminate_agent, archive_agent,
}
use jarvis_brain.Agents.Lifecycle.Places.{
  Manager, places, IsSeparate, completed_move, places-told_result, create_agent-IsSeparate,
  assign_task-IsSeparate, update_status-IsSeparate, complete_agent-IsSeparate,
  fail_agent-IsSeparate, terminate_agent-IsSeparate, archive_agent-IsSeparate,
}
use jarvis_brain.Prelude.{
  String, ◌≡◌, refl, ◌∙◌, true, false, Option, none, some, List, [], ◌∷◌, arith, nat_eq, string_eq,
  pair_eq,
}

module _ (parts : Parts) where
  -- A call of one of the operations.
  pub data Call : Type 0 where
    creates : String → String → String → Option String → parts.M → Call
    assigns : String → String → Call
    updates : String → StatusUpdate parts → Call
    completes : String → Option String → Call
    fails : String → String → Call
    terminates : String → Option String → Call
    archives : String → Call

  unfoldable pub step : Call → (Manager parts) → (Manager parts)
  step (creates id role purpose parent metadata) m =
      (create_agent parts id role purpose parent metadata m).1
  step (assigns id task) m = (assign_task parts id task m).1
  step (updates id u) m = (update_status parts id u m).1
  step (completes id summary) m = (complete_agent parts id summary m).1
  step (fails id reason) m = (fail_agent parts id reason m).1
  step (terminates id reason) m = (terminate_agent parts id reason m).1
  step (archives id) m = (archive_agent parts id m).1

  unfoldable pub run : List Call → (Manager parts) → (Manager parts)
  run [] m = m
  run (call ∷ calls) m = run calls (step call m)

  -- The IDs of new agents are new, and no archived agent is completed or failed.
  abbrev pub IsUsual : Call → (Manager parts) → Type 0
  IsUsual (creates id role purpose parent metadata) m = find_agent parts m id ≡ none
  IsUsual (completes id summary) m = has m.archived_agents id ≡ false
  IsUsual (fails id reason) m = has m.archived_agents id ≡ false
  IsUsual call m = Unit

  abbrev pub AllUsual : List Call → (Manager parts) → Type 0
  AllUsual [] m = Unit
  AllUsual (call ∷ calls) m = IsUsual call m × AllUsual calls (step call m)

  step-IsSeparate :
      (call : Call) (m : (Manager parts))
      → IsUsual call m
      → IsSeparate parts m
      → IsSeparate parts (step call m)
  unfolding step
  step-IsSeparate (creates id role purpose parent metadata) m u h =
      create_agent-IsSeparate parts id role purpose parent metadata m u h
  step-IsSeparate (assigns id task) m u h = assign_task-IsSeparate parts id task m _ refl h
  step-IsSeparate (updates id change) m u h = update_status-IsSeparate parts id change m _ refl h
  step-IsSeparate (completes id summary) m u h =
      complete_agent-IsSeparate parts id summary m _ refl u h
  step-IsSeparate (fails id reason) m u h = fail_agent-IsSeparate parts id reason m _ refl u h
  step-IsSeparate (terminates id reason) m u h =
      terminate_agent-IsSeparate parts id reason m _ refl h
  step-IsSeparate (archives id) m u h = archive_agent-IsSeparate parts id m _ refl h

  -- An agent stands in at most one of the four collections after any history of calls in which the IDs
  -- of new agents are new and no archived agent is completed or failed.
  pub run-IsSeparate :
      (calls : List Call) (m : (Manager parts))
      → AllUsual calls m
      → IsSeparate parts m
      → IsSeparate parts (run calls m)
  unfolding run
  run-IsSeparate [] m usual h = h
  run-IsSeparate (call ∷ calls) m usual h =
      run-IsSeparate calls (step call m) usual.1 (step-IsSeparate call m usual.0 h)

  -- Completing an agent that is archived leaves it in the archive too: it stands in two collections.
  pub complete_agent-archived :
      (id : String) (summary : Option String) (m : (Manager parts)) (agent : AgentRecord parts)
      → find_agent parts m id ≡ some agent
      → has m.archived_agents id ≡ true
      → places parts (complete_agent parts id summary m).1 id ≡ 2
  unfolding complete_agent add_event
  complete_agent-archived id summary m agent e there =
      let completed = completed_agent parts summary agent in
      rw e (
        places-told_result parts summary completed (completed_move parts id completed m) id
        ∙ ground (
          arith,
          there,
          has-remove m.active_agents id id,
          has-remove m.failed_agents id id,
          has-put m.completed_agents id id completed,
          (string_eq.beq_iff id id).1 refl,
        ))
