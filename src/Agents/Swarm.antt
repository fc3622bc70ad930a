-- ===== src/Agents/Swarm.antt =====
-- The swarm of proposal-only agents (src/jarvis_brain/agents/swarm_agent.py, swarm_runtime.py,
-- swarm_coordinator.py and agent_message_bus.py). `lower` is `str.lower`; the firewall, the classifier of
-- risks and the policy on permissions, which are jarvis_platform's, are a `Safety`. IDs and times are
-- left out, and a message carries the summary of its proposal.
pub mod Review
mod Examples
use jarvis_brain.Text.{is_in}
use jarvis_brain.Prelude.{
  String, ℕ, zero, suc, ◌+◌, ◌-◌, ◌*◌, ◌/◌, ◌%◌, ◌≤◌, ◌<◌, min, max, ◌≡◌, refl, sym, ap, ◌∙◌, subst,
  ◌≢◌, ◌↔◌, ◌⊎◌, inl, inr, Bool, true, false, not, ◌&&◌, ◌||◌, Option, none, some, List, [], ◌∷◌,
  ◌++◌, map, reverse, arith, ltb, leb, nat_beq, if◌then◌else◌, ltb→lt, lt→ltb, le→ltb, leb→le,
  le→leb, nat_beq_iff, Bool-cases, Option-cases, Eq, ◌==◌, nat_eq, string_eq, pair_eq, length, drop,
  last_n, keep, All, any, all, length-append, length-drop, length-last_n, contains, get_or, eq_iff,
  eq_refl, list_cases, last_n-last_n-append, last_n-short, drop-append, drop-drop, drop_at,
  drop-nil, ltb_asym, ltb_mono, dec_beq, dec_beq_iff, discrete_eq, unique, unique_from, is_subset,
  Mem, mem-cons_self, mem-cons_of_mem, all-Mem, contains-Mem, find, find-Mem, all_intro, keep-Mem,
  contains_of_Mem, All-Mem, append-eq-nil, unique-eq-nil, eq-cases, if-elim, contains-unique_from,
  mem_keep, mem_second, holds-prop, All-append, contains-keep, contains-unique_from_eq,
  none-contained,
}

pub record SwarmProposal : Type 0 where
  pub agent_name : String
  pub title : String
  pub summary : String
  pub proposed_action : String
  pub target : Option String
  pub risk_level : String
  pub requires_approval : Bool
  pub rejected : Bool
  pub rejection_reason : Option String

pub record SwarmAgent : Type 0 where
  pub name : String
  pub can_handle : String → Bool
  pub propose : String → SwarmProposal

pub record AgentMessage : Type 0 where
  pub sender : String
  pub recipient : String
  pub content : String

-- `messages_for`
unfoldable pub messages_for : List AgentMessage → String → List AgentMessage
messages_for messages recipient = keep (λ message. message.recipient == recipient) messages

abbrev pub mentions : List String → String → Bool
mentions words text = any (λ word. is_in word text) words

abbrev pub proposal : String → String → String → String → Option String → String → SwarmProposal
proposal name title summary action target risk = record {
  agent_name = name;
  title = title;
  summary = summary;
  proposed_action = action;
  target = target;
  risk_level = risk;
  requires_approval = false;
  rejected = false;
  rejection_reason = none;
}

abbrev pub unsafe_phrases : List String
unsafe_phrases =
    "steal credentials" ∷ "steal password" ∷ "malware" ∷ "bypass security" ∷ "exfiltrate"
    ∷ "phishing kit" ∷ []

abbrev pub planner_proposal : String → SwarmProposal
planner_proposal raw =
    proposal "planner_agent" "Planning breakdown"
      "Break the request into scoped steps, then review each proposed step before execution."
      "create_plan" (some raw) "low"

abbrev pub security_proposal : Bool → String → SwarmProposal
security_proposal true raw =
    record (proposal "security_agent" "Unsafe security request refused"
      "Refuse offensive or credential-theft assistance and redirect to defensive security guidance."
      "bypass_security" (some raw) "blocked") {
        rejected = true;
        rejection_reason = some "Unsafe cybersecurity request.";
      }
security_proposal false raw =
    proposal "security_agent" "Security review"
      "Check proposed work for credential exposure, unsafe actions, and approval requirements."
      "review_security" (some raw) "medium"

abbrev pub agent : String → (String → Bool) → (String → SwarmProposal) → SwarmAgent
agent name can_handle propose = record { name = name; can_handle = can_handle; propose = propose }

-- The five agents of a runtime.
unfoldable pub default_agents : (String → String) → List SwarmAgent
default_agents lower =
    agent "planner_agent"
      (λ raw. mentions ("plan" ∷ "build" ∷ "phase" ∷ "steps" ∷ "design" ∷ []) (lower raw))
      planner_proposal
    ∷ agent "research_agent"
        (λ raw. mentions ("research" ∷ "source" ∷ "evidence" ∷ "docs" ∷ "learn" ∷ []) (lower raw))
        (λ raw.
          proposal "research_agent" "Research pass"
            "Gather trusted source context and mark unverified information before using it."
            "retrieve_evidence" (some raw) "low")
    ∷ agent "coding_agent"
        (λ raw.
          mentions
            ("code" ∷ "python" ∷ "fastapi" ∷ "bug" ∷ "test" ∷ "repo" ∷ "function" ∷ "class" ∷ [])
            (lower raw))
        (λ raw.
          proposal "coding_agent" "Coding analysis"
            "Inspect code context, identify likely changes, and keep execution behind review."
            "inspect_code" (some raw) "low")
    ∷ agent "security_agent"
        (λ raw.
          mentions
            ("security" ∷ "credential" ∷ "password" ∷ "secret" ∷ "malware" ∷ "exploit" ∷ "phishing"
              ∷ [])
            (lower raw))
        (λ raw. security_proposal (mentions unsafe_phrases (lower raw)) raw)
    ∷ agent "memory_agent"
        (λ raw. mentions ("remember" ∷ "memory" ∷ "project" ∷ "context" ∷ []) (lower raw))
        (λ raw.
          proposal "memory_agent" "Memory context"
            "Use safe project memory context if available, without storing secrets automatically."
            "summarize_information" (some "semantic_memory") "low")
    ∷ []

abbrev pub to_review : String → SwarmProposal → AgentMessage
to_review sender p = record {
  sender = sender;
  recipient = "execution_review_agent";
  content = p.summary;
}

-- The loop over the agents: the proposals of those that can handle the input, and their messages.
unfoldable pub collect : List SwarmAgent → String → List SwarmProposal × List AgentMessage
collect [] raw = ([], [])
collect (a ∷ agents) raw =
    let rest = collect agents raw in
    let p = a.propose raw in
    if a.can_handle raw then (p ∷ rest.0, to_review a.name p ∷ rest.1) else rest

abbrev pub or_fallback :
    String → List SwarmProposal × List AgentMessage → List SwarmProposal × List AgentMessage
or_fallback raw ([], messages) =
    let fallback = planner_proposal raw in
    (fallback ∷ [], messages ++ to_review fallback.agent_name fallback ∷ [])
or_fallback raw (p ∷ ps, messages) = (p ∷ ps, messages)

-- `run_preview`: the proposals, and the messages behind those that the bus has.
unfoldable pub run_preview :
    List SwarmAgent → String → List AgentMessage → List SwarmProposal × List AgentMessage
run_preview agents raw bus =
    let found = or_fallback raw (collect agents raw) in (found.0, bus ++ found.1)

pub record Firewall : Type 0 where
  pub allowed : Bool
  pub requires_approval : Bool
  pub reason : String

pub record Safety : Type 0 where
  pub allow_action : String → Option String → Firewall
  pub risk_of : String → Option String → String
  pub should_require_approval : String → Option String → String → Bool

-- `review`
unfoldable pub review : Safety → SwarmProposal → SwarmProposal
review safety p =
    let firewall = safety.allow_action p.proposed_action p.target in
    let risk = safety.risk_of p.proposed_action p.target in
    let approval =
      safety.should_require_approval p.proposed_action p.target risk
      || firewall.requires_approval in
    let assessed = record p { risk_level = risk; requires_approval = approval } in
    if not firewall.allowed || risk == "blocked"
    then record assessed { rejected = true; rejection_reason = some firewall.reason }
    else assessed

pub record SwarmResult : Type 0 where
  pub mode : String
  pub raw_input : String
  pub executed : Bool
  pub agent_count : ℕ
  pub proposals : List SwarmProposal
  pub accepted_count : ℕ
  pub rejected_count : ℕ
  pub safe_to_execute_without_approval : Bool
  pub approval_required : Bool

-- `_result`
unfoldable pub result : String → String → List SwarmProposal → SwarmResult
result raw mode proposals = record {
  mode = mode;
  raw_input = raw;
  executed = false;
  agent_count = length proposals;
  proposals = proposals;
  accepted_count = length (keep (λ p. not p.rejected) proposals);
  rejected_count = length (keep (λ p. p.rejected) proposals);
  safe_to_execute_without_approval = all (λ p. not p.requires_approval && not p.rejected) proposals;
  approval_required = any (λ p. p.requires_approval) proposals;
}

-- `preview` and `run_safe`, which differ in the mode
unfoldable pub reviewed_run :
    Safety → List SwarmAgent → String → String → List AgentMessage → SwarmResult × List AgentMessage
reviewed_run safety agents mode raw bus =
    let (proposals, messages) = run_preview agents raw bus in
    (result raw mode (map (review safety) proposals), messages)
