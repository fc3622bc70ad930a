-- ===== src/Engine/Planner.antt =====
-- The rule-based planner (src/jarvis_brain/engine/planner.py). A step's ID is known by its number
-- (`step-1` is 1), no step has a payload, and `lower` is `str.lower`, whose table is Unicode's.
pub mod Plans
mod Examples
use Prim.Native.Char.{code}
use Prim.Native.String.{◌++◌ as concat}
use jarvis_brain.Text.{strip, is_in}
use jarvis_brain.Prelude.{
  String, ℕ, zero, suc, ◌+◌, ◌-◌, ◌*◌, ◌/◌, ◌%◌, ◌≤◌, ◌<◌, min, max, ◌≡◌, refl, sym, ap, ◌∙◌, subst,
  ◌≢◌, ◌↔◌, ◌⊎◌, inl, inr, Bool, true, false, not, ◌&&◌, ◌||◌, Option, none, some, List, [], ◌∷◌,
  ◌++◌, map, reverse, arith, ltb, leb, nat_beq, if◌then◌else◌, ltb→lt, lt→ltb, le→ltb, leb→le,
  le→leb, nat_beq_iff, Bool-cases, Option-cases, Eq, ◌==◌, nat_eq, string_eq, pair_eq, length, drop,
  last_n, keep, All, any, all, length-append, length-drop, length-last_n, contains, get_or, eq_iff,
  eq_refl, list_cases, last_n-last_n-append, last_n-short, drop-append, drop-drop, drop_at,
  drop-nil, ltb_asym, ltb_mono, dec_beq, dec_beq_iff, discrete_eq, unique, unique_from, is_subset,
  Mem, mem-cons_self, mem-cons_of_mem, all-Mem, contains-Mem, find, find-Mem, all_intro, keep-Mem,
  contains_of_Mem, All-Mem, append-eq-nil, unique-eq-nil, eq-cases, if-elim, contains-unique_from,
}

pub record PlanStep : Type 0 where
  pub step_id : ℕ
  pub action : String
  pub target : Option String
  pub requires_approval : Bool
  pub reason : String

pub record ExecutionPlan : Type 0 where
  pub plan_id : String
  pub user_goal : String
  pub steps : List PlanStep
  pub status : String

-- `_create_step`
abbrev pub create_step : ℕ → String → Option String → Bool → String → PlanStep
create_step step_number action target requires_approval reason = record {
  step_id = step_number;
  action = action;
  target = target;
  requires_approval = requires_approval;
  reason = reason;
}

-- steps.append(_create_step(len(steps) + 1, …)), under its test
abbrev pub append_if : Bool → String → Option String → String → List PlanStep → List PlanStep
append_if false action target reason steps = steps
append_if true action target reason steps =
    steps ++ create_step (length steps + 1) action target false reason ∷ []

abbrev pub morning_steps : Bool → Bool → List PlanStep
morning_steps finance files =
    append_if files "list_files" none "List workspace files mentioned in the goal." (
      append_if finance "summarize_spending" none "Summarize finances mentioned in the goal."
        (create_step 1 "list_events" none false "Review upcoming calendar events." ∷ []))

abbrev pub day_steps : Bool → List PlanStep
day_steps email =
    append_if email "draft_email" (some "email") "Draft an email mentioned in the goal."
      (create_step 1 "list_events" none false "Review today's calendar events." ∷ [])

abbrev pub home_steps : List PlanStep
home_steps =
    create_step 1 "lock_door" (some "doors") true "Lock the doors as part of securing the home."
    ∷ create_step 2 "turn_off_light" (some "lights") false
        "Turn off lights as part of securing the home."
    ∷ []

abbrev pub finance_steps : List PlanStep
finance_steps =
    create_step 1 "list_accounts" none false "List account names for a finance review."
    ∷ create_step 2 "summarize_spending" none false "Summarize recent spending."
    ∷ create_step 3 "detect_subscriptions" none false "Find recurring subscriptions."
    ∷ []

abbrev pub workspace_steps : List PlanStep
workspace_steps =
    create_step 1 "list_files" none false "Inspect workspace files before cleanup." ∷ []

unfoldable pub steps_for : String → List PlanStep
steps_for goal =
    if is_in "prepare my morning" goal || is_in "prepare me for tomorrow" goal
    then morning_steps (is_in "finance" goal) (is_in "files" goal)
    else if is_in "plan my day" goal
    then day_steps (is_in "email" goal)
    else if is_in "secure my home" goal
    then home_steps
    else if is_in "review my finances" goal
    then finance_steps
    else if is_in "clean my workspace" goal
    then workspace_steps
    else []

abbrev pub status_of : List PlanStep → String
status_of [] = "needs_clarification"
status_of (step ∷ steps) = "pending"

-- normalized_goal.replace(" ", "-")
unfoldable pub slug : String → String
slug String.[] = String.[]
slug (String.◌∷◌ c s) =
    let rest = slug s in if nat_beq (code c) 32 then concat "-" rest else String.◌∷◌ c rest

-- `_create_plan_id`
unfoldable pub create_plan_id : String → String
create_plan_id normalized_goal =
    if slug normalized_goal == "" then "plan-empty-goal" else concat "plan-" (slug normalized_goal)

unfoldable pub create_plan : (String → String) → String → ExecutionPlan
create_plan lower user_goal =
    let normalized_goal = lower (strip user_goal) in
    let steps = steps_for normalized_goal in
    record {
      plan_id = create_plan_id normalized_goal;
      user_goal = user_goal;
      steps = steps;
      status = status_of steps;
    }
