-- ===== src/Engine/PlanValidator.antt =====
-- The guard on plans that a language model proposes (src/jarvis_brain/engine/llm_plan_validator.py), on
-- candidates that have been parsed. The records are jarvis_platform's, with the fields that the code
-- reads; `lower` is `str.lower`, and the numbers are those of a `Floats`.
pub mod Acceptance
mod Examples
use jarvis_brain.Floats.{Floats}
use jarvis_brain.Text.{strip, is_in, join, or_else}
use jarvis_brain.Prelude.{
  String, ℕ, zero, suc, ◌+◌, ◌-◌, ◌*◌, ◌/◌, ◌%◌, ◌≤◌, ◌<◌, min, max, ◌≡◌, refl, sym, ap, ◌∙◌, subst,
  ◌≢◌, ◌↔◌, ◌⊎◌, inl, inr, Bool, true, false, not, ◌&&◌, ◌||◌, Option, none, some, List, [], ◌∷◌,
  ◌++◌, map, reverse, arith, ltb, leb, nat_beq, if◌then◌else◌, ltb→lt, lt→ltb, le→ltb, leb→le,
  le→leb, nat_beq_iff, Bool-cases, Option-cases, Eq, ◌==◌, nat_eq, string_eq, pair_eq, length, drop,
  last_n, keep, All, any, all, length-append, length-drop, length-last_n, contains, get_or, eq_iff,
  eq_refl, list_cases, last_n-last_n-append, last_n-short, drop-append, drop-drop, drop_at,
  drop-nil, ltb_asym, ltb_mono, dec_beq, dec_beq_iff, discrete_eq, unique, unique_from, is_subset,
  Mem, mem-cons_self, mem-cons_of_mem, all-Mem, contains-Mem, find, find-Mem, all_intro, keep-Mem,
  contains_of_Mem, All-Mem, append-eq-nil, unique-eq-nil, eq-cases, if-elim, contains-unique_from,
}

pub record LlmPlanStepCandidate : Type 0 where
  pub step_id : String
  pub order : ℕ
  pub title : String
  pub description : String
  pub action : Option String
  pub target : Option String
  pub expected_output : String
  pub risk_level : String
  pub requires_approval : Bool
  pub metadata : List (String × String)

pub data LlmPlanDecision : Type 0 where
  accepted rejected : LlmPlanDecision

abbrev pub allowed_actions : List String
allowed_actions =
    "analyze_request" ∷ "ask_clarifying_question" ∷ "retrieve_evidence" ∷ "verify_evidence"
    ∷ "create_task" ∷ "create_plan" ∷ "inspect_code" ∷ "run_tests" ∷ "explain_code"
    ∷ "propose_code_change" ∷ "update_documentation" ∷ "summarize_information" ∷ "review_security"
    ∷ "check_world_briefing" ∷ "check_cyber_alerts" ∷ "draft_email" ∷ "read_calendar"
    ∷ "open_website" ∷ "unknown" ∷ []

abbrev pub blocked_actions : List String
blocked_actions =
    "execute_shell" ∷ "delete_all_files" ∷ "exfiltrate_data" ∷ "reveal_secret" ∷ "bypass_security"
    ∷ "disable_safety" ∷ "send_credentials" ∷ "make_payment" ∷ "unlock_door" ∷ "install_malware"
    ∷ []

abbrev pub suspicious_phrases : List String
suspicious_phrases =
    "reveal secret" ∷ "bypass security" ∷ "disable safety" ∷ "delete everything" ∷ "exfiltrate"
    ∷ "steal" ∷ "malware" ∷ "send credentials" ∷ []

-- (step.action or "unknown")
abbrev pub action_of : LlmPlanStepCandidate → String
action_of step = or_else (get_or step.action "") "unknown"

-- `_step_is_safe`
unfoldable pub step_is_safe : (String → String) → LlmPlanStepCandidate → Bool
step_is_safe lower step =
    let action = lower (strip (action_of step)) in
    let text = lower (
      join " " (
        keep (λ value. not (value == ""))
          (step.title ∷ step.description ∷ get_or step.target "" ∷ []))) in
    if contains blocked_actions action || not (contains allowed_actions action)
    then false
    else not (any (λ phrase. is_in phrase text) suspicious_phrases)

-- sorted(steps, key=order): by insertion before the steps whose order is not smaller
unfoldable pub insert_step :
    LlmPlanStepCandidate → List LlmPlanStepCandidate → List LlmPlanStepCandidate
insert_step step [] = step ∷ []
insert_step step (other ∷ rest) =
    let later = insert_step step rest in
    if ltb other.order step.order then other ∷ later else step ∷ other ∷ rest

unfoldable pub sorted_steps : List LlmPlanStepCandidate → List LlmPlanStepCandidate
sorted_steps [] = []
sorted_steps (step ∷ rest) = insert_step step (sorted_steps rest)

-- A `PlanStep` of the plan; `payload` holds the five entries and the step's own metadata, which may
-- overwrite them.
pub record PlannedStep : Type 0 where
  pub step_id : String
  pub action : String
  pub target : Option String
  pub payload : List (String × String)
  pub requires_approval : Bool
  pub reason : String

abbrev pub planned_step : LlmPlanStepCandidate → PlannedStep
planned_step step = record {
  step_id = step.step_id;
  action = action_of step;
  target = step.target;
  payload =
      ("title", step.title)
      ∷ ("description", step.description)
      ∷ ("expected_output", step.expected_output)
      ∷ ("proposed_risk_level", step.risk_level)
      ∷ step.metadata;
  requires_approval = step.requires_approval;
  reason = step.description;
}

module _ (fl : Floats) where
  open fl use {Float, ratio, less}

  pub record LlmPlanCandidate : Type 0 where
    pub candidate_id : String
    pub goal : String
    pub summary : String
    pub reasoning_summary : String
    pub confidence : Float
    pub steps : List LlmPlanStepCandidate

  pub record LlmPlanValidationResult : Type 0 where
    pub decision : LlmPlanDecision
    pub candidate : LlmPlanCandidate
    pub reason : String
    pub accepted_steps : List LlmPlanStepCandidate
    pub rejected_steps : List LlmPlanStepCandidate
    pub low_confidence : Bool

  -- `_rejected`
  abbrev pub reject :
      LlmPlanCandidate → String → List LlmPlanStepCandidate → LlmPlanValidationResult
  reject candidate reason steps = record {
    decision = rejected;
    candidate = candidate;
    reason = reason;
    accepted_steps = [];
    rejected_steps = steps;
    low_confidence = false;
  }

  abbrev pub accept : LlmPlanCandidate → LlmPlanValidationResult
  accept candidate = record {
    decision = accepted;
    candidate = candidate;
    reason = "All plan steps passed the planning allowlist.";
    accepted_steps = candidate.steps;
    rejected_steps = [];
    low_confidence = less candidate.confidence (ratio 70 100);
  }

  abbrev pub decide : LlmPlanCandidate → List LlmPlanStepCandidate → LlmPlanValidationResult
  decide candidate [] = accept candidate
  decide candidate (step ∷ steps) =
      reject candidate "Plan contains a blocked, unsupported, or suspicious step." (step ∷ steps)

  abbrev pub is_nil : List LlmPlanStepCandidate → Bool
  is_nil [] = true
  is_nil (step ∷ steps) = false

  unfoldable pub validate : (String → String) → LlmPlanCandidate → LlmPlanValidationResult
  validate lower candidate =
      if less candidate.confidence (ratio 55 100)
      then reject candidate "Plan confidence is below 0.55." []
      else if is_nil candidate.steps
      then reject candidate "Plan has no steps." []
      else decide candidate (keep (λ step. not (step_is_safe lower step)) candidate.steps)

  -- `to_execution_plan`: the steps; the plan's ID, goal and metadata are copied.
  unfoldable pub planned_steps : LlmPlanCandidate → List PlannedStep
  planned_steps candidate = map planned_step (sorted_steps candidate.steps)
