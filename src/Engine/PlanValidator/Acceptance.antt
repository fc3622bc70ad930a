-- ===== src/Engine/PlanValidator/Acceptance.antt =====
-- What the guard lets through (src/jarvis_brain/engine/llm_plan_validator.py).
use jarvis_brain.Floats.{Floats}
use jarvis_brain.Engine.PlanValidator.{
  LlmPlanStepCandidate, accepted, allowed_actions, action_of, step_is_safe, LlmPlanCandidate,
  LlmPlanValidationResult, decide, is_nil, validate,
}
use jarvis_brain.Text.{strip}
use jarvis_brain.Prelude.{
  String, ◌≡◌, refl, ap, ◌≢◌, inl, inr, Bool, true, false, not, List, [], ◌∷◌, arith, Bool-cases,
  nat_eq, string_eq, pair_eq, keep, all, contains, Mem, all-Mem, if-elim,
}

-- An unsafe step of a list is kept among the unsafe ones.
keep_none :
    (safe : LlmPlanStepCandidate → Bool) (steps : List LlmPlanStepCandidate)
    → keep (λ step. not (safe step)) steps ≡ []
    → all safe steps ≡ true
unfolding keep all
keep_none safe [] e = refl
keep_none safe (step ∷ steps) e = elim (Bool-cases (safe step)) [
  | inl good ↦ ground (arith, good, keep_none safe steps (ground (arith, e, good)))
  | inr bad ↦ absurd (ground (arith, e, bad))
]

safe_action :
    (lower : String → String) (step : LlmPlanStepCandidate)
    → step_is_safe lower step ≡ true
    → contains allowed_actions (lower (strip (action_of step))) ≡ true
unfolding step_is_safe
safe_action lower step h = grind (arith, h)

module _ (fl : Floats) (lower : String → String) (candidate : LlmPlanCandidate fl) where
  decide-accepted :
      (unsafe : List LlmPlanStepCandidate)
      → (decide fl candidate unsafe).decision ≡ accepted
      → unsafe ≡ []
  decide-accepted [] e = refl
  decide-accepted (step ∷ steps) e = absurd (ground (arith, e))

  validate-parts :
      (validate fl lower candidate).decision ≡ accepted
      → (fl.less candidate.confidence (fl.ratio 55 100) ≡ false)
        × (is_nil fl candidate.steps ≡ false)
        × (all (step_is_safe lower) candidate.steps ≡ true)
  unfolding validate
  validate-parts =
      if-elim
        (λ (r : LlmPlanValidationResult fl).
          r.decision ≡ accepted
          → (fl.less candidate.confidence (fl.ratio 55 100) ≡ false)
            × (is_nil fl candidate.steps ≡ false)
            × (all (step_is_safe lower) candidate.steps ≡ true))
        (fl.less candidate.confidence (fl.ratio 55 100)) _ _ (λ low e. absurd (ground (arith, e)))
        (λ sure.
          if-elim
            (λ (r : LlmPlanValidationResult fl).
              r.decision ≡ accepted
              → (fl.less candidate.confidence (fl.ratio 55 100) ≡ false)
                × (is_nil fl candidate.steps ≡ false)
                × (all (step_is_safe lower) candidate.steps ≡ true))
            (is_nil fl candidate.steps) _ _ (λ none_there e. absurd (ground (arith, e)))
            (λ some_there e. (
              sure,
              some_there,
              keep_none (step_is_safe lower) candidate.steps (decide-accepted _ e),
            )))

  -- A plan is accepted only with a confidence not below 0.55 and with a step, and each of its steps passes
  -- the test of `_step_is_safe` and has an action of the allowlist.
  pub validate-allowed :
      (validate fl lower candidate).decision ≡ accepted
      → (fl.less candidate.confidence (fl.ratio 55 100) ≡ false)
        × (candidate.steps ≢ [])
        × ((step : LlmPlanStepCandidate)
            → Mem step candidate.steps
            → (step_is_safe lower step ≡ true)
              × (contains allowed_actions (lower (strip (action_of step))) ≡ true))
  validate-allowed e =
      let (sure, some_there, safe) = validate-parts e in
      (
        sure,
        (λ no_steps. absurd (ground (arith, some_there, ap (is_nil fl) no_steps))),
        (λ step m.
            let good = all-Mem (step_is_safe lower) candidate.steps safe step m in
            (good, safe_action lower step good)),
      )
