-- ===== src/Engine/Planner/Plans.antt =====
-- What every plan is like (src/jarvis_brain/engine/planner.py).
use jarvis_brain.Engine.Planner.{
  PlanStep, morning_steps, day_steps, steps_for, status_of, create_plan,
}
use jarvis_brain.Text.{is_in}
use jarvis_brain.Prelude.{
  String, ℕ, ◌+◌, ◌≡◌, refl, ◌↔◌, Bool, true, false, ◌||◌, List, [], ◌∷◌, arith, ◌==◌, nat_eq,
  string_eq, pair_eq, All, eq_iff, if-elim,
}

-- The steps are numbered from `n` on.
abbrev pub IsNumbered : ℕ → List PlanStep → Type 0
IsNumbered n [] = Unit
IsNumbered n (step ∷ steps) = (step.step_id ≡ n) × IsNumbered (n + 1) steps

-- A step that locks a door asks for approval, and no other step does.
abbrev pub IsGuarded : PlanStep → Type 0
IsGuarded step = step.requires_approval ≡ (step.action == "lock_door")

abbrev IsGood : List PlanStep → Type 0
IsGood steps = IsNumbered 1 steps × All IsGuarded steps

morning-IsGood : (finance files : Bool) → IsGood (morning_steps finance files)
morning-IsGood true true = ((refl, (refl, (refl, tt))), (refl, (refl, (refl, tt))))
morning-IsGood true false = ((refl, (refl, tt)), (refl, (refl, tt)))
morning-IsGood false true = ((refl, (refl, tt)), (refl, (refl, tt)))
morning-IsGood false false = ((refl, tt), (refl, tt))

day-IsGood : (email : Bool) → IsGood (day_steps email)
day-IsGood true = ((refl, (refl, tt)), (refl, (refl, tt)))
day-IsGood false = ((refl, tt), (refl, tt))

steps_for-IsGood : (goal : String) → IsGood (steps_for goal)
unfolding steps_for
steps_for-IsGood goal =
    if-elim IsGood (is_in "prepare my morning" goal || is_in "prepare me for tomorrow" goal) _ _
      (λ morning. morning-IsGood (is_in "finance" goal) (is_in "files" goal))
      (λ h.
        if-elim IsGood (is_in "plan my day" goal) _ _ (λ day. day-IsGood (is_in "email" goal))
          (λ h.
            if-elim IsGood (is_in "secure my home" goal) _ _
              (λ home. ((refl, (refl, tt)), (refl, (refl, tt))))
              (λ h.
                if-elim IsGood (is_in "review my finances" goal) _ _
                  (λ finances. ((refl, (refl, (refl, tt))), (refl, (refl, (refl, tt)))))
                  (λ h.
                    if-elim IsGood (is_in "clean my workspace" goal) _ _
                      (λ workspace. ((refl, tt), (refl, tt))) (λ h. (tt, tt))))))

status_iff : (steps : List PlanStep) → (status_of steps ≡ "needs_clarification") ↔ (steps ≡ [])
status_iff [] = (λ e. refl, λ e. refl)
status_iff (step ∷ steps) = (
  λ e. absurd (ground (arith, (eq_iff "pending" "needs_clarification").1 e)),
  λ e. absurd (ground (arith, e)),
)

-- Whatever the goal and the table of lower case, the steps of its plan are numbered from 1 on without a
-- gap, a step asks for approval exactly if it locks a door, and the plan wants a clarification exactly
-- if it has no steps.
pub create_plan_lem :
    (lower : String → String) (goal : String)
    → IsNumbered 1 (create_plan lower goal).steps
      × All IsGuarded (create_plan lower goal).steps
      × (((create_plan lower goal).status ≡ "needs_clarification")
          ↔ ((create_plan lower goal).steps ≡ []))
unfolding create_plan
create_plan_lem lower goal =
    let (numbered, guarded) = steps_for-IsGood _ in (numbered, guarded, status_iff _)
