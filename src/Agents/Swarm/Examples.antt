-- ===== src/Agents/Swarm/Examples.antt =====
-- A swarm whose firewall stops credentials and asks for the approval of plans.
use jarvis_brain.Agents.Swarm.{
  Safety, default_agents, collect, run_preview, review, result, reviewed_run,
}
use jarvis_brain.Text.{is_in, starts_with}
use jarvis_brain.Agents.Swarm.Review.{IsCleared, planned, reviewed_run_lem}
use jarvis_brain.Prelude.{
  ◌+◌, ◌<◌, ◌≡◌, refl, ◌↔◌, true, false, not, [], if◌then◌else◌, ◌==◌, nat_eq, string_eq, pair_eq,
  keep, map, All, any, all,
}

abbrev cautious : Safety
cautious = record {
  allow_action = λ action target. record {
    allowed = not (action == "bypass_security");
    requires_approval = action == "create_plan";
    reason = "firewall";
  };
  risk_of = λ action target. if action == "bypass_security" then "blocked" else "low";
  should_require_approval = λ action target risk. risk == "high";
}

reviewed_run_lem_example :
    let r = (reviewed_run cautious (default_agents (λ x. x)) "preview" "research malware" []).0 in
    (r.proposals ≡ map (review cautious) (planned (default_agents (λ x. x)) "research malware"))
    × (0 < r.agent_count)
    × (r.accepted_count + r.rejected_count ≡ r.agent_count)
    × ((r.safe_to_execute_without_approval ≡ true)
        ↔ All (IsCleared cautious) (planned (default_agents (λ x. x)) "research malware"))
reviewed_run_lem_example =
    reviewed_run_lem cautious (default_agents (λ x. x)) "preview" "research malware" []

refused_run :
    let r = (reviewed_run cautious (default_agents (λ x. x)) "preview" "research malware" []).0 in
    (r.accepted_count ≡ 1) × (r.rejected_count ≡ 1) × (r.safe_to_execute_without_approval ≡ false)
unfolding reviewed_run result run_preview default_agents collect review keep all any is_in
    starts_with
refused_run = (refl, refl, refl)
