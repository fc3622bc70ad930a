-- ===== src/Agents/Lifecycle/Endings.antt =====
-- How an agent ends (src/jarvis_brain/agents/agent_lifecycle_manager.py): it is completed, fails, is
-- terminated or archived, and changes its collection.
use jarvis_brain.Dict.{put, remove}
use jarvis_brain.Text.{or_else}
use jarvis_brain.Agents.Lifecycle.{
  Parts, AgentRecord, AgentLifecycleManager, Outcome, returns, on_agent, told, text, find_agent,
}
use jarvis_brain.Prelude.{
  String, Option, none, some, [], ◌∷◌, if◌then◌else◌, ◌==◌, nat_eq, string_eq, pair_eq, get_or,
}

module _ (parts : Parts) where
  open parts use {sanitize_message}

  -- A result is told parts before the end if there is one.
  abbrev pub told_result :
      Option String
      → (AgentRecord parts)
      → (AgentLifecycleManager parts)
      → (AgentLifecycleManager parts)
  told_result none agent m = m
  told_result (some summary) agent m =
      if summary == ""
      then m
      else told parts agent "result_created"
          (or_else (get_or agent.result_summary "") "Agent result created.") m

  abbrev pub completed_agent : Option String → (AgentRecord parts) → (AgentRecord parts)
  completed_agent summary agent = record agent {
    status = "completed";
    progress_percent = 100;
    result_summary = some (sanitize_message (or_else (get_or summary "") "Agent completed."));
  }

  unfoldable pub complete_agent :
      String
      → Option String
      → (AgentLifecycleManager parts)
      → Outcome (AgentRecord parts) × (AgentLifecycleManager parts)
  complete_agent id summary m =
      on_agent parts m
        (λ agent.
          let completed = completed_agent summary agent in
          let moved = record m {
            active_agents = remove m.active_agents id;
            failed_agents = remove m.failed_agents id;
            completed_agents = put m.completed_agents id completed;
          } in
          (
            returns completed,
            told parts completed "agent_completed"
                (or_else (get_or completed.result_summary "") "Agent completed.")
                (told_result summary completed moved),
          ))
        (find_agent parts m id)

  abbrev pub failed_agent : String → (AgentRecord parts) → (AgentRecord parts)
  failed_agent reason agent = record agent {
    status = "failed";
    failure_reason = some (sanitize_message reason);
  }

  unfoldable pub fail_agent :
      String
      → String
      → (AgentLifecycleManager parts)
      → Outcome (AgentRecord parts) × (AgentLifecycleManager parts)
  fail_agent id reason m =
      on_agent parts m
        (λ agent.
          let failed = failed_agent reason agent in
          let moved = record m {
            active_agents = remove m.active_agents id;
            completed_agents = remove m.completed_agents id;
            failed_agents = put m.failed_agents id failed;
          } in
          (
            returns failed,
            told parts failed "agent_failed"
                (or_else (get_or failed.failure_reason "") "Agent failed.") moved,
          ))
        (find_agent parts m id)

  abbrev pub terminated_agent : Option String → (AgentRecord parts) → (AgentRecord parts)
  terminated_agent reason agent = record agent {
    status = "terminated";
    failure_reason = some (sanitize_message (or_else (get_or reason "") "Agent terminated."));
  }

  unfoldable pub terminate_agent :
      String
      → Option String
      → (AgentLifecycleManager parts)
      → Outcome (AgentRecord parts) × (AgentLifecycleManager parts)
  terminate_agent id reason m =
      on_agent parts m
        (λ agent.
          let terminated = terminated_agent reason agent in
          let moved = record m {
            active_agents = remove m.active_agents id;
            completed_agents = remove m.completed_agents id;
            archived_agents = remove m.archived_agents id;
            failed_agents = put m.failed_agents id terminated;
          } in
          (
            returns terminated,
            told parts terminated "agent_terminated" (get_or terminated.failure_reason "") moved,
          ))
        (find_agent parts m id)

  unfoldable pub archive_agent :
      String
      → (AgentLifecycleManager parts)
      → Outcome (AgentRecord parts) × (AgentLifecycleManager parts)
  archive_agent id m =
      on_agent parts m
        (λ agent.
          let archived = record agent { status = "archived" } in
          let moved = record m {
            active_agents = remove m.active_agents id;
            completed_agents = remove m.completed_agents id;
            failed_agents = remove m.failed_agents id;
            archived_agents = put m.archived_agents id archived;
          } in
          (
            returns archived,
            told parts archived "agent_archived"
                (text parts (archived.name ∷ " was archived." ∷ [])) moved,
          ))
        (find_agent parts m id)
