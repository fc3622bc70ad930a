-- ===== src/Engine/PlanValidator/Examples.antt =====
-- The guard's theorem at a plan with one step, over whole numbers.
use jarvis_brain.Floats.{whole}
use jarvis_brain.Text.{lstrip, rstrip, is_space, is_in, starts_with, join, strip}
use jarvis_brain.Engine.PlanValidator.{
  LlmPlanStepCandidate, accepted, allowed_actions, action_of, step_is_safe, LlmPlanCandidate,
  validate,
}
use jarvis_brain.Engine.PlanValidator.Acceptance.{validate-allowed}
use jarvis_brain.Prelude.{
  String, ◌≡◌, refl, ◌≢◌, true, false, none, some, [], ◌∷◌, nat_eq, string_eq, pair_eq, keep, any,
  contains, Mem,
}

abbrev lower : String → String
lower text = text

abbrev one_step : LlmPlanStepCandidate
one_step = record {
  step_id = "a";
  order = 1;
  title = "mail";
  description = "write it";
  action = some " draft_email";
  target = none;
  expected_output = "";
  risk_level = "low";
  requires_approval = false;
  metadata = [];
}

abbrev plan : LlmPlanCandidate whole
plan = record {
  candidate_id = "1";
  goal = "mail";
  summary = "";
  reasoning_summary = "";
  confidence = 1;
  steps = one_step ∷ [];
}

plan_accepted : (validate whole lower plan).decision ≡ accepted
unfolding validate step_is_safe keep contains any lstrip rstrip is_space is_in starts_with join
plan_accepted = refl

validate-allowed_example :
    (whole.less plan.confidence (whole.ratio 55 100) ≡ false)
    × (plan.steps ≢ [])
    × ((step : LlmPlanStepCandidate)
        → Mem step plan.steps
        → (step_is_safe lower step ≡ true)
          × (contains allowed_actions (lower (strip (action_of step))) ≡ true))
validate-allowed_example = validate-allowed whole lower plan plan_accepted
