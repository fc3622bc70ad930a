-- ===== src/Orchestrator/Vetted.antt =====
-- What a result of the orchestrator carries
-- (src/jarvis_brain/orchestrator/brain_orchestrator.py).
use jarvis_brain.Floats.{Floats}
use jarvis_brain.Orchestrator.{BrainIntentType, BrainIntentCandidate, BrainPlanStep}
use jarvis_brain.Orchestrator.Graph.{build}
use jarvis_brain.Orchestrator.Team.{allowed_roles, dedupe_allowed, propose_from_intents, roles_for}
use jarvis_brain.Orchestrator.Verification.{validate, IsAcceptable, validate-IsAcceptable}
use jarvis_brain.Orchestrator.Orchestrate.{
  Brain, BrainEventType, Proposal, BrainValidationStatus, accepted, BrainOrchestrationResult,
  orchestrate, fallback, fallback_proposal, checked, complete_proposal, steps_or_default,
  roles_or_proposed, looks_like_prompt_injection, or_unknown, first_intent,
}
use jarvis_brain.Prelude.{
  ◌<◌, ◌≡◌, refl, true, false, not, ◌&&◌, ◌||◌, Option, none, some, List, [], ◌∷◌, ◌++◌, map, arith,
  nat_eq, string_eq, pair_eq, length, All, contains, All-append, String, if-elim,
}

-- The roles of a team are allowed.
abbrev pub AreAllowed : List String → Type 0
AreAllowed = All (λ role. contains allowed_roles role ≡ true)

dedupe_allowed-AreAllowed :
    (normalized : String → String) (result roles : List String)
    → AreAllowed result
    → AreAllowed (dedupe_allowed normalized result roles)
unfolding dedupe_allowed
dedupe_allowed-AreAllowed normalized result [] h = h
dedupe_allowed-AreAllowed normalized result (role ∷ roles) h =
    let name = normalized role in
    if-elim (λ (x : List String). AreAllowed x)
      (contains allowed_roles name && not (contains result name)) _ _
      (λ fits. dedupe_allowed-AreAllowed normalized (result ++ name ∷ []) roles (
        All-append (λ r. contains allowed_roles r ≡ true) result (name ∷ []) h
          (ground (arith, fits), tt)))
      (λ skipped. dedupe_allowed-AreAllowed normalized result roles h)

module _ (fl : Floats) (brain : Brain fl) where
  -- The proposal that is accepted may be followed.
  abbrev pub IsFit : Proposal fl → Type 0
  IsFit p =
      IsAcceptable fl brain.checks brain.minimum_confidence p
      × (AreAllowed p.agent_roles × (0 < length p.plan_steps))

  roles_allowed :
      (intents : List BrainIntentType) (roles : List String)
      → AreAllowed (roles_or_proposed fl brain intents roles)
  unfolding propose_from_intents
  roles_allowed intents [] = dedupe_allowed-AreAllowed brain.normalized [] (roles_for intents) tt
  roles_allowed intents (role ∷ roles) =
      dedupe_allowed-AreAllowed brain.normalized [] (role ∷ roles) tt

  some_step :
      (intent : BrainIntentType) (steps : List BrainPlanStep)
      → 0 < length (steps_or_default fl brain intent steps)
  some_step intent [] = omega arith
  some_step intent (step ∷ steps) = omega arith

  complete_proposal-fit :
      (p : Proposal fl)
      → AreAllowed (complete_proposal fl brain p).agent_roles
        × (0 < length (complete_proposal fl brain p).plan_steps)
  unfolding complete_proposal
  complete_proposal-fit p =
      let intents =
        or_unknown fl (map (λ (c : BrainIntentCandidate fl). c.intent_type) p.intents) in
      (roles_allowed intents p.agent_roles, some_step (first_intent fl intents) p.plan_steps)

  -- A result is a vetted proposal of the language model with its graph, or the proposal that the
  -- deterministic resolver makes of the input, with a reason and without a graph.
  abbrev pub IsVetted : String → BrainValidationStatus → BrainOrchestrationResult fl → Type 0
  IsVetted raw accepted r =
      (brain.is_suspicious raw ≡ false)
      × ((looks_like_prompt_injection brain.checks.lower raw ≡ false)
          × ((brain.enabled ≡ true)
              × (((brain.generate raw).succeeded ≡ true)
                  × (IsFit r.proposal
                      × ((r.execution_graph ≡ some (build r.proposal.plan_steps))
                          × (r.fallback_reason ≡ none))))))
  IsVetted raw BrainValidationStatus.fallback_used r =
      (r.proposal ≡ fallback_proposal fl brain (brain.resolve raw))
      × ((r.execution_graph ≡ none) × ((reason : String) × (r.fallback_reason ≡ some reason)))

  abbrev pub AreVetted : String → BrainOrchestrationResult fl → Type 0
  AreVetted raw r = IsVetted raw r.validation_status r

  fallback-Vetted :
      (raw : String) (events : List BrainEventType) (reason : String)
      → AreVetted raw (fallback fl brain raw events reason)
  unfolding fallback
  fallback-Vetted raw events reason = (refl, (refl, (reason, refl)))

  checked-Vetted :
      (raw : String) (parsed : Option (Proposal fl))
      → brain.is_suspicious raw ≡ false
      → looks_like_prompt_injection brain.checks.lower raw ≡ false
      → brain.enabled ≡ true
      → (brain.generate raw).succeeded ≡ true
      → AreVetted raw (checked fl brain raw (brain.generate raw) parsed)
  checked-Vetted raw none clean plain on answered = fallback-Vetted raw _ _
  checked-Vetted raw (some parsed) clean plain on answered =
      let p = complete_proposal fl brain parsed in
      if-elim (λ (x : BrainOrchestrationResult fl). AreVetted raw x)
        (validate fl brain.checks brain.minimum_confidence p).0 _ _
        (λ fine.
          let acceptable = validate-IsAcceptable fl brain.checks brain.minimum_confidence p fine in
          (
            clean,
            (plain, (on, (answered, ((acceptable, complete_proposal-fit parsed), (refl, refl))))),
          ))
        (λ refused. fallback-Vetted raw _ _)

  -- The orchestrator always has an answer, and accepts a proposal of the language model only where the
  -- input is not suspicious, the model is on and has answered, the confidence is not below the least
  -- one, no blocked phrase and no secret is in the texts of the proposal, the firewall allows each of
  -- its tools, its roles are allowed ones and it has a step; the graph is then that of its steps. Every
  -- other result is the deterministic resolver's, without a graph, and says why.
  pub orchestrate-AreVetted : (raw : String) → AreVetted raw (orchestrate fl brain raw)
  unfolding orchestrate
  orchestrate-AreVetted raw =
      let answer = brain.generate raw in
      let lower = brain.checks.lower in
      if-elim (λ (x : BrainOrchestrationResult fl). AreVetted raw x)
        (brain.is_suspicious raw || looks_like_prompt_injection lower raw) _ _
        (λ bad. fallback-Vetted raw _ _)
        (λ clean.
          if-elim (λ (x : BrainOrchestrationResult fl). AreVetted raw x) (not brain.enabled) _ _
            (λ off. fallback-Vetted raw _ _)
            (λ on.
              if-elim (λ (x : BrainOrchestrationResult fl). AreVetted raw x) (not answer.succeeded)
                _ _ (λ failed. fallback-Vetted raw _ _)
                (λ answered.
                  checked-Vetted raw (brain.parse answer.content) (ground (arith, clean))
                    (ground (arith, clean)) (ground (arith, on)) (ground (arith, answered)))))
