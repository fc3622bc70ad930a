-- ===== src/Agents/Lifecycle/Examples.antt =====
-- A manager with a few agents; metadata is the truth of its entry "demo".
use jarvis_brain.Dict.{get, put, has}
use jarvis_brain.Agents.Lifecycle.{
  Parts, AgentRecord, AgentLifecycleManager, new_manager, add_event, find_agent, create_agent,
}
use jarvis_brain.Agents.Lifecycle.Endings.{
  complete_agent, fail_agent, terminate_agent, archive_agent,
}
use jarvis_brain.Agents.Lifecycle.Separate.{
  Call, creates, completes, AllUsual, step, run, run-IsSeparate,
}
use jarvis_brain.Agents.Lifecycle.Places.{IsSeparate}
use jarvis_brain.Agents.Lifecycle.Lookup.{IsFound, operations-IsFound}
use jarvis_brain.Prelude.{
  ◌≡◌, refl, Bool, true, false, none, some, List, [], ◌∷◌, arith, nat_eq, string_eq, pair_eq,
  contains,
}

abbrev flags : Parts
flags = record {
  M = Bool;
  empty = false;
  merge = λ old new. new;
  with_step = λ m step. m;
  is_demo = λ m. m;
  sanitize_message = λ text. text;
  sanitize_metadata = λ m. m;
  generate_name = λ role n. role;
}

abbrev two_calls : List (Call flags)
two_calls = creates "a" "coder" "fix" none false ∷ completes "a" (some "done") ∷ []

abbrev started : AgentLifecycleManager flags
started = new_manager flags 5

started-IsSeparate : IsSeparate flags started
unfolding new_manager contains
started-IsSeparate id = omega arith

two_calls-Usual : AllUsual flags two_calls started
unfolding new_manager get find_agent step create_agent put add_event contains
two_calls-Usual = (refl, (refl, tt))

run-IsSeparate_example : IsSeparate flags (run flags two_calls started)
run-IsSeparate_example = run-IsSeparate flags two_calls started two_calls-Usual started-IsSeparate

abbrev old_agent : AgentRecord flags
old_agent = record {
  agent_id = "z";
  name = "old";
  role = "coder";
  purpose = "";
  status = "archived";
  parent_agent_id = none;
  current_step = none;
  progress_percent = 0;
  result_summary = none;
  failure_reason = none;
  metadata = true;
}

abbrev with_archive : AgentLifecycleManager flags
with_archive = record {
  max_recent_events = 5;
  active_agents = [];
  completed_agents = [];
  failed_agents = [];
  archived_agents = ("z", old_agent) ∷ [];
  events = [];
  role_sequences = [];
}

found_z : find_agent flags with_archive "z" ≡ some old_agent
unfolding find_agent get
found_z = refl

archived_z : has with_archive.archived_agents "z" ≡ true
unfolding contains
archived_z = refl

operations-IsFound_example :
    IsFound flags "z" (create_agent flags "z" "coder" "p" none false with_archive)
    × IsFound flags "z" (complete_agent flags "z" none with_archive)
    × IsFound flags "z" (fail_agent flags "z" "why" with_archive)
    × IsFound flags "z" (terminate_agent flags "z" none with_archive)
    × IsFound flags "z" (archive_agent flags "z" with_archive)
operations-IsFound_example =
    operations-IsFound flags "z" with_archive "coder" "p" "why" none none none false
