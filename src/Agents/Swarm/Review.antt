-- ===== src/Agents/Swarm/Review.antt =====
-- What a reviewed run of the swarm says (src/jarvis_brain/agents/swarm_coordinator.py).
use jarvis_brain.Agents.Swarm.{
  SwarmProposal, SwarmAgent, AgentMessage, Safety, collect, or_fallback, run_preview, review,
  result, reviewed_run, planner_proposal,
}
use jarvis_brain.Prelude.{
  String, ◌+◌, ◌<◌, ◌≡◌, refl, ◌↔◌, Bool, true, false, not, ◌&&◌, List, [], ◌∷◌, map, arith, ◌==◌,
  nat_eq, string_eq, pair_eq, length, keep, All, all, any, ap, subst, if◌then◌else◌, inl, inr,
  Bool-cases,
}

-- A proposal that its agent has not rejected and that the safety checks let pass unaided.
abbrev pub IsCleared : Safety → SwarmProposal → Type 0
IsCleared safety p =
    (p.rejected ≡ false)
    × ((safety.allow_action p.proposed_action p.target).allowed ≡ true)
    × ((safety.risk_of p.proposed_action p.target == "blocked") ≡ false)
    × ((safety.allow_action p.proposed_action p.target).requires_approval ≡ false)
    × (safety.should_require_approval p.proposed_action p.target
          (safety.risk_of p.proposed_action p.target)
        ≡ false)

-- The proposals of a run: those of the agents, or the planner's if there are none.
abbrev pub planned : List SwarmAgent → String → List SwarmProposal
planned agents raw =
    if any (λ a. a.can_handle raw) agents
    then map (λ a. a.propose raw) (keep (λ a. a.can_handle raw) agents)
    else planner_proposal raw ∷ []

module _ (safety : Safety) where
  abbrev is_clear : SwarmProposal → Bool
  is_clear p = not p.requires_approval && not p.rejected

  review-IsCleared : (p : SwarmProposal) → is_clear (review safety p) ≡ true → IsCleared safety p
  unfolding review
  review-IsCleared p h =
      let firewall = safety.allow_action p.proposed_action p.target in
      let risk = safety.risk_of p.proposed_action p.target in
      (
        ground (arith, h),
        ground (arith, h),
        ground (arith, h),
        ground (arith, h),
        ground (arith, h),
      )

  IsCleared-review : (p : SwarmProposal) → IsCleared safety p → is_clear (review safety p) ≡ true
  unfolding review
  IsCleared-review p (kept, allowed, risk, approval, required) =
      ground (arith, kept, allowed, risk, approval, required)

  all-reviewed :
      (ps : List SwarmProposal)
      → (all is_clear (map (review safety) ps) ≡ true) ↔ All (IsCleared safety) ps
  unfolding all
  all-reviewed [] = (λ h. tt, λ h. refl)
  all-reviewed (p ∷ ps) = (
    λ h. (review-IsCleared p (ground (arith, h)), (all-reviewed ps).0 (ground (arith, h))),
    λ (cleared, later). ground (arith, IsCleared-review p cleared, (all-reviewed ps).1 later),
  )

  counts-keep :
      (ps : List SwarmProposal)
      → length (keep (λ p. not p.rejected) ps) + length (keep (λ p. p.rejected) ps) ≡ length ps
  unfolding keep
  counts-keep [] = omega arith
  counts-keep (p ∷ ps) = ground (arith, counts-keep ps)

  -- The loop's proposals are those of the agents that can handle the input, in their order.
  collect-proposals :
      (agents : List SwarmAgent) (raw : String)
      → (collect agents raw).0 ≡ map (λ a. a.propose raw) (keep (λ a. a.can_handle raw) agents)
  unfolding collect keep
  collect-proposals [] raw = refl
  collect-proposals (a ∷ agents) raw = ground (arith, collect-proposals agents raw)

  or_fallback-planned :
      (agents : List SwarmAgent) (raw : String)
      → (or_fallback raw (collect agents raw)).0 ≡ planned agents raw
  unfolding collect keep any
  or_fallback-planned [] raw = refl
  or_fallback-planned (a ∷ agents) raw = elim (Bool-cases (a.can_handle raw)) [
    | inl handles ↦ ground (arith, handles, collect-proposals agents raw)
    | inr passes ↦ ground (arith, passes, or_fallback-planned agents raw)
  ]

  or_fallback-some :
      (raw : String) (found : List SwarmProposal × List AgentMessage)
      → 0 < length (or_fallback raw found).0
  or_fallback-some raw ([], messages) = omega arith
  or_fallback-some raw (p ∷ ps, messages) = omega arith

  length-reviewed : (ps : List SwarmProposal) → length (map (review safety) ps) ≡ length ps
  length-reviewed [] = refl
  length-reviewed (p ∷ ps) = omega (arith, length-reviewed ps)

  -- The proposals of a reviewed run are the reviews of those of the agents that can handle the input, in
  -- their order, or of the planner's if no agent can; there is at least one, and each is accepted or
  -- rejected. The run is safe without an approval exactly if no agent rejected its own proposal, and the
  -- firewall allows each, its risk is not blocked, and neither the firewall nor the policy asks for an
  -- approval.
  pub reviewed_run_lem :
      (agents : List SwarmAgent) (mode raw : String) (bus : List AgentMessage)
      → let r = (reviewed_run safety agents mode raw bus).0 in
        (r.proposals ≡ map (review safety) (planned agents raw))
        × (0 < r.agent_count)
        × (r.accepted_count + r.rejected_count ≡ r.agent_count)
        × ((r.safe_to_execute_without_approval ≡ true)
            ↔ All (IsCleared safety) (planned agents raw))
  unfolding reviewed_run result run_preview
  reviewed_run_lem agents mode raw bus =
      let found = or_fallback raw (collect agents raw) in
      let same = or_fallback-planned agents raw in
      (
        ap (map (review safety)) same,
        omega (arith, length-reviewed found.0, or_fallback-some raw (collect agents raw)),
        counts-keep (map (review safety) found.0),
        subst
            (λ ps. (all is_clear (map (review safety) found.0) ≡ true) ↔ All (IsCleared safety) ps)
            same (all-reviewed found.0),
      )
