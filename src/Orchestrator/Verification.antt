-- ===== src/Orchestrator/Verification.antt =====
-- The deterministic checks of a proposal (src/jarvis_brain/orchestrator/verification.py). The scan for
-- secrets and the firewall are jarvis_platform's, and so arguments; `lower` is `str.lower`.
use jarvis_brain.Floats.{Floats}
use jarvis_brain.Text.{is_in, join}
use jarvis_brain.Orchestrator.{BrainPlanStep, BrainToolProposal, BrainOrchestratorProposal}
use jarvis_brain.Prelude.{
  String, ◌≡◌, Bool, true, false, Option, none, some, List, [], ◌∷◌, ◌++◌, map, arith,
  if◌then◌else◌, nat_eq, string_eq, pair_eq, All, any,
}

pub record Checks : Type 0 where
  pub lower : String → String
  pub has_secrets : String → Bool
  pub allow_action : String → Option String → Bool × String

abbrev pub blocked_phrases : List String
blocked_phrases =
    "bypass security" ∷ "disable safety" ∷ "reveal secret" ∷ "exfiltrate" ∷ "steal credentials"
    ∷ "steal passwords" ∷ "malware" ∷ []

-- The loop over the tools: the firewall's reason for the first one that it refuses.
unfoldable pub refused_tool : Checks → List BrainToolProposal → Option String
refused_tool checks [] = none
refused_tool checks (tool ∷ tools) =
    let (allowed, reason) = checks.allow_action tool.action tool.target in
    let rest = refused_tool checks tools in if allowed then rest else some reason

abbrev pub allowed_unless : Option String → Bool × String
allowed_unless none = (true, "LLM orchestration proposal accepted.")
allowed_unless (some reason) = (false, reason)

module _ (fl : Floats) (checks : Checks) where
  abbrev pub combined_text : BrainOrchestratorProposal fl → String
  combined_text p = checks.lower (
      join " " (
        p.summary ∷ p.response_strategy ∷ map (λ (step : BrainPlanStep). step.title) p.plan_steps
        ++ map (λ (step : BrainPlanStep). step.description) p.plan_steps
        ++ map (λ (tool : BrainToolProposal). tool.action) p.tool_proposals))

  abbrev pub has_blocked_phrase : String → Bool
  has_blocked_phrase text = any (λ phrase. is_in phrase text) blocked_phrases

  unfoldable pub validate : fl.Float → BrainOrchestratorProposal fl → Bool × String
  validate minimum_confidence p =
      let text = combined_text p in
      if fl.less p.confidence minimum_confidence
      then (false, "LLM orchestration confidence was below threshold.")
      else if has_blocked_phrase text
      then (false, "LLM proposal contained blocked or unsafe language.")
      else if checks.has_secrets text
      then (false, "LLM proposal exposed sensitive data.")
      else allowed_unless (refused_tool checks p.tool_proposals)

  -- What an accepted proposal is.
  abbrev pub IsAcceptable : fl.Float → BrainOrchestratorProposal fl → Type 0
  IsAcceptable minimum_confidence p =
      (fl.less p.confidence minimum_confidence ≡ false)
      × ((has_blocked_phrase (combined_text p) ≡ false)
          × ((checks.has_secrets (combined_text p) ≡ false)
              × All
                  (λ (tool : BrainToolProposal).
                    (checks.allow_action tool.action tool.target).0 ≡ true)
                  p.tool_proposals))

allowed_each :
    (checks : Checks) (tools : List BrainToolProposal)
    → refused_tool checks tools ≡ none
    → All
        (λ (tool : BrainToolProposal). (checks.allow_action tool.action tool.target).0 ≡ true)
        tools
unfolding refused_tool
allowed_each checks [] e = tt
allowed_each checks (tool ∷ tools) e =
    (ground (arith, e), allowed_each checks tools (ground (arith, e)))

module _ (fl : Floats) (checks : Checks) where
  pub validate-IsAcceptable :
      (minimum_confidence : fl.Float) (p : BrainOrchestratorProposal fl)
      → (validate fl checks minimum_confidence p).0 ≡ true
      → IsAcceptable fl checks minimum_confidence p
  unfolding validate
  validate-IsAcceptable minimum_confidence p h = (
    ground (arith, h),
    (
      ground (arith, h),
      (ground (arith, h), allowed_each checks p.tool_proposals (ground (arith, h))),
    ),
  )
