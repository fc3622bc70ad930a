-- ===== src/Requests/Coordinator/Supersession.antt =====
-- A new turn of a session supersedes the one before, in every history of the coordinator
-- (src/jarvis_brain/requests/coordinator.py).
use jarvis_brain.Dict.{get}
use jarvis_brain.Requests.Turn.{ConversationTurn, ConversationTurnPriority, new_turn}
use jarvis_brain.Requests.Coordinator.{
  ActiveTurn, AsyncTurnCoordinator, new_coordinator, session_key, start_turn, cancel_turn,
  cancel_session,
}
use jarvis_brain.Requests.Coordinator.Live.{id_some-inj}
use jarvis_brain.Requests.Coordinator.Sessions.{Lively, cancel_named-IsLive, cancel_found-IsLive}
use jarvis_brain.Requests.Coordinator.Interleavings.{
  act_on-Lively, started-Lively, acquire_in-Lively, context_in-Lively, value_in-Lively,
  fail_at-Lively, publish_at-Lively, hook_at-Lively,
}
use jarvis_brain.Requests.Coordinator.Steps.{
  state_some-inj, unless_used-elim, run-keeps, Event, step, run,
}
use jarvis_brain.Prelude.{
  String, ℕ, ◌≡◌, refl, sym, ap, ◌∙◌, subst, Bool, false, none, some, arith, ltb, nat_eq, string_eq,
  pair_eq, if-elim, List,
}

new_turn-id :
    (session_id user_id : String) (timeout : ℕ) (priority : ConversationTurnPriority) (id : String)
    (now : ℕ) (turn : ConversationTurn)
    → new_turn session_id user_id timeout priority id now ≡ some turn
    → turn.turn_id ≡ id
unfolding new_turn
new_turn-id session_id user_id timeout priority id now turn e = grind (arith, e)

start_turn-Lively :
    (user_id session_id : String) (timeout : ℕ) (priority : ConversationTurnPriority) (id : String)
    (task now : ℕ) (c : AsyncTurnCoordinator)
    → get c.active id ≡ none
    → Lively c
    → Lively (start_turn user_id session_id timeout priority id task now c)
unfolding start_turn
start_turn-Lively user_id session_id timeout priority id task now c fresh l =
    started-Lively c l task id (new_turn session_id user_id timeout priority id now) fresh
      (λ turn e. new_turn-id session_id user_id timeout priority id now turn e)

step-Lively :
    (event : Event) (c next : AsyncTurnCoordinator)
    → Lively c
    → step event c ≡ some next
    → Lively next
unfolding step cancel_turn cancel_session
step-Lively (Event.starts user_id session_id timeout priority id task now) c next l e =
    unless_used-elim Lively next (get c.active id) _
      (λ fresh. start_turn-Lively user_id session_id timeout priority id task now c fresh l) e
step-Lively (Event.acquires id) c next l e =
    act_on-Lively c l id _ next (λ a here. acquire_in-Lively c l a here a.phase next) e
step-Lively (Event.gets_context ready timed_out failed id) c next l e =
    act_on-Lively c l id _ next
      (λ a here. context_in-Lively c l a here a.phase ready timed_out failed next) e
step-Lively (Event.returns id) c next l e =
    act_on-Lively c l id _ next (λ a here. value_in-Lively c l a here a.phase next) e
step-Lively (Event.fails ending id) c next l e =
    act_on-Lively c l id _ next (λ a here. fail_at-Lively c l a here ending next) e
step-Lively (Event.publishes event_type metadata id) c next l e =
    act_on-Lively c l id _ next
      (λ a here it.
        subst Lively (state_some-inj it) (publish_at-Lively c l a here event_type metadata))
      e
step-Lively (Event.hooks callback id) c next l e =
    act_on-Lively c l id _ next
      (λ a here it. subst Lively (state_some-inj it) (hook_at-Lively c l a here callback)) e
step-Lively (Event.cancels_turn current id reason) c next l e =
    subst Lively (state_some-inj e)
      (cancel_found-IsLive c l current id reason (get c.active id) refl)
step-Lively (Event.cancels_session current user_id session_id reason) c next l e =
    subst Lively (state_some-inj e)
      (cancel_named-IsLive c l current reason (get c.session_turns (user_id, session_id)))

pub run-Lively :
    (events : List Event) (c next : AsyncTurnCoordinator)
    → Lively c
    → run events c ≡ some next
    → Lively next
run-Lively = run-keeps Lively step-Lively

-- A new coordinator, with any settings.
pub new_coordinator-Lively :
    (has_bus : Bool) (max_active_turns history_limit : ℕ) (c : AsyncTurnCoordinator)
    → new_coordinator has_bus max_active_turns history_limit ≡ some c
    → Lively c
unfolding new_coordinator get
new_coordinator-Lively has_bus max_active_turns history_limit c e =
    if-elim (λ o. o ≡ some c → Lively c) (ltb max_active_turns 1) none _
      (λ few nothing. absurd (ground (arith, nothing)))
      (λ enough it. subst Lively (state_some-inj it) (record {
        named = λ id a at. absurd (ground (arith, at));
        owned = λ id a at off. absurd (ground (arith, at));
        listed = λ key id names. absurd (ground (arith, names));
      }))
      e

-- In any history of a new coordinator, however the tasks of its turns interleave, two active turns of
-- one user and session that are both not cancelled are the same turn, and the one that the session names.
pub run_one_live :
    (has_bus : Bool) (max_active_turns history_limit : ℕ) (c next : AsyncTurnCoordinator)
    (events : List Event) (id other : String) (a b : ActiveTurn)
    → new_coordinator has_bus max_active_turns history_limit ≡ some c
    → run events c ≡ some next
    → get next.active id ≡ some a
    → get next.active other ≡ some b
    → a.turn.cancellation.cancelled ≡ false
    → b.turn.cancellation.cancelled ≡ false
    → session_key a.turn ≡ session_key b.turn
    → (get next.session_turns (session_key a.turn) ≡ some id) × (id ≡ other)
run_one_live has_bus max_active_turns history_limit c next events id other a b made ran at at' off
      off' same =
    let l =
      run-Lively events c next
        (new_coordinator-Lively has_bus max_active_turns history_limit c made) ran in
    (
      l.owned id a at off,
      id_some-inj
          (sym (l.owned id a at off) ∙ ap (get next.session_turns) same ∙ l.owned other b at' off'),
    )
