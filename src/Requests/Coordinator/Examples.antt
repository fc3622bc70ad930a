-- ===== src/Requests/Coordinator/Examples.antt =====
-- The coordinator's theorems at a history in which a second turn of a session supersedes the first.
use jarvis_brain.Dict.{get, put, remove}
use jarvis_brain.Requests.Cancellation.{cancel, raise_if_cancelled}
use jarvis_brain.Requests.Turn.{ConversationTurnState, ConversationTurnPriority, new_turn, snapshot}
use jarvis_brain.Requests.Coordinator.{
  Phase, ActiveTurn, AsyncTurnCoordinator, new_coordinator, session_key, emit, cancel_turn,
  supersede, register, unregister, Ending, close, finish, start_turn, acquire, take_context,
}
use jarvis_brain.Requests.Coordinator.Steps.{Event, step, run}
use jarvis_brain.Requests.Coordinator.Supersession.{run_one_live}
use jarvis_brain.Requests.Coordinator.Endings.{IsSettled}
use jarvis_brain.Requests.Coordinator.History.{run_history}
use jarvis_brain.Prelude.{
  ◌≤◌, String, ◌≡◌, refl, true, false, none, some, List, [], ◌∷◌, nat_eq, string_eq, pair_eq,
  length, All, get_or,
}

abbrev fresh : AsyncTurnCoordinator
fresh = record {
  has_bus = true;
  permits = 2;
  active = [];
  session_turns = [];
  history = [];
  history_limit = 3;
  published = [];
  stopping = [];
  heard = [];
}

abbrev events : List Event
events =
    Event.starts "ada" "home" 30 ConversationTurnPriority.interactive "turn_1" 1 0
    ∷ Event.acquires "turn_1"
    ∷ Event.starts "ada" "home" 30 ConversationTurnPriority.interactive "turn_2" 2 5
    ∷ Event.acquires "turn_2"
    ∷ Event.fails Ending.is_cancelled "turn_1"
    ∷ Event.gets_context [] [] [] "turn_2"
    ∷ []

abbrev final : AsyncTurnCoordinator
final = get_or (run events fresh) fresh

fresh_made : new_coordinator true 2 3 ≡ some fresh
unfolding new_coordinator
fresh_made = refl

events-run : run events fresh ≡ some final
unfolding run step new_coordinator start_turn new_turn register supersede cancel_turn cancel acquire
    take_context raise_if_cancelled finish close emit unregister snapshot get put remove
events-run = refl

-- The entry that the history leaves for the second turn.
abbrev second : ActiveTurn
second = get_or (get final.active "turn_2") (record {
  turn = record {
    session_id = "";
    user_id = "";
    timeout_ticks = 0;
    priority = ConversationTurnPriority.normal;
    turn_id = "";
    created_at = 0;
    deadline = 0;
    state = ConversationTurnState.created;
    sequence = 0;
    cancellation = record { cancelled = true; reason = ""; callbacks = [] };
    failure_reason = none;
  };
  task = 0;
  phase = Phase.acquiring;
})

second_active : get final.active "turn_2" ≡ some second
unfolding run step new_coordinator start_turn new_turn register supersede cancel_turn cancel acquire
    take_context raise_if_cancelled finish close emit unregister snapshot get put remove
second_active = refl

second_live : second.turn.cancellation.cancelled ≡ false
unfolding run step new_coordinator start_turn new_turn register supersede cancel_turn cancel acquire
    take_context raise_if_cancelled finish close emit unregister snapshot get put remove
second_live = refl

one_settled : length final.history ≡ 1
unfolding run step new_coordinator start_turn new_turn register supersede cancel_turn cancel acquire
    take_context raise_if_cancelled finish close emit unregister snapshot get put remove
one_settled = refl

run_one_live_example :
    (get final.session_turns (session_key second.turn) ≡ some "turn_2")
    × (◌≡◌ {A = String} "turn_2" "turn_2")
run_one_live_example =
    run_one_live true 2 3 fresh final events "turn_2" "turn_2" second second fresh_made events-run
      second_active second_active second_live second_live refl

run_history_example : All IsSettled final.history × (length final.history ≤ final.history_limit)
run_history_example = run_history true 2 3 fresh final events fresh_made events-run
