-- ===== src/Requests/Coordinator/History.antt =====
-- What every history of the coordinator keeps of the turns that have ended
-- (src/jarvis_brain/requests/coordinator.py).
use jarvis_brain.Dict.{get}
use jarvis_brain.Requests.Turn.{new_turn}
use jarvis_brain.Requests.Coordinator.{
  AsyncTurnCoordinator, new_coordinator, start_turn, cancel_turn, cancel_session,
}
use jarvis_brain.Requests.Coordinator.Endings.{
  IsSettled, IsKept, cancel_found-IsKept, cancel_named-IsKept, start_new-IsKept, acquire_in-IsKept,
  context_in-IsKept, value_in-IsKept, fail_at-IsKept, publish_at-IsKept, hook_at-IsKept,
}
use jarvis_brain.Requests.Coordinator.Steps.{
  Event, step, run, state_some-inj, act_on-elim, unless_used-elim, run-keeps,
}
use jarvis_brain.Prelude.{
  ℕ, ◌≤◌, ◌≡◌, subst, Bool, none, some, List, arith, ltb, nat_eq, string_eq, pair_eq, length, All,
  if-elim,
}

step-IsKept :
    (event : Event) (c next : AsyncTurnCoordinator)
    → IsKept c
    → step event c ≡ some next
    → IsKept next
unfolding step start_turn cancel_turn cancel_session
step-IsKept (Event.starts user_id session_id timeout priority id task now) c next k e =
    unless_used-elim IsKept next (get c.active id) _
      (λ fresh. start_new-IsKept task (new_turn session_id user_id timeout priority id now) c k) e
step-IsKept (Event.acquires id) c next k e =
    act_on-elim IsKept next (get c.active id) _ c (λ a at. acquire_in-IsKept c k a next a.phase) e
step-IsKept (Event.gets_context ready timed_out failed id) c next k e =
    act_on-elim IsKept next (get c.active id) _ c
      (λ a at. context_in-IsKept c k a next a.phase ready timed_out failed) e
step-IsKept (Event.returns id) c next k e =
    act_on-elim IsKept next (get c.active id) _ c (λ a at. value_in-IsKept c k a next a.phase) e
step-IsKept (Event.fails ending id) c next k e =
    act_on-elim IsKept next (get c.active id) _ c (λ a at. fail_at-IsKept c k a next ending) e
step-IsKept (Event.publishes event_type metadata id) c next k e =
    act_on-elim IsKept next (get c.active id) _ c
      (λ a at. publish_at-IsKept c k a next event_type metadata) e
step-IsKept (Event.hooks callback id) c next k e =
    act_on-elim IsKept next (get c.active id) _ c (λ a at. hook_at-IsKept c k a next callback) e
step-IsKept (Event.cancels_turn current id reason) c next k e =
    subst IsKept (state_some-inj e) (cancel_found-IsKept current reason (get c.active id) c k)
step-IsKept (Event.cancels_session current user_id session_id reason) c next k e =
    subst IsKept (state_some-inj e)
      (cancel_named-IsKept current reason (get c.session_turns (user_id, session_id)) c k)

new_coordinator-IsKept :
    (has_bus : Bool) (max_active_turns history_limit : ℕ) (c : AsyncTurnCoordinator)
    → new_coordinator has_bus max_active_turns history_limit ≡ some c
    → IsKept c
unfolding new_coordinator
new_coordinator-IsKept has_bus max_active_turns history_limit c e =
    if-elim (λ o. o ≡ some c → IsKept c) (ltb max_active_turns 1) none _
      (λ few nothing. absurd (ground (arith, nothing)))
      (λ enough it.
        subst IsKept (state_some-inj it) (record { settled = tt; within = omega arith }))
      e

-- In any history of a new coordinator, however the tasks of its turns interleave, the record of ended
-- turns never grows over its limit, and every turn in it ended in one of four ways: completed, and
-- then nothing had cancelled it; timed out, cancelled for the deadline; cancelled, with a reason; or
-- failed, with the name of an error.
pub run_history :
    (has_bus : Bool) (max_active_turns history_limit : ℕ) (c next : AsyncTurnCoordinator)
    (events : List Event)
    → new_coordinator has_bus max_active_turns history_limit ≡ some c
    → run events c ≡ some next
    → All IsSettled next.history × (length next.history ≤ next.history_limit)
run_history has_bus max_active_turns history_limit c next events made ran =
    let k =
      run-keeps IsKept step-IsKept events c next
        (new_coordinator-IsKept has_bus max_active_turns history_limit c made) ran in
    (k.settled, k.within)
