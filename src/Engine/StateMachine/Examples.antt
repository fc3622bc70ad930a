-- ===== src/Engine/StateMachine/Examples.antt =====
-- Runs of the machine on small inputs.
use jarvis_brain.Engine.StateMachine.{
  BrainState, idle, received_request, understanding, deciding, risk_checking, waiting_approval,
  executing, responding, updating_memory, completed, failed, BrainState-discrete, brain_state_eq,
  BrainStateMachine, start, enter, transition_to,
}
use jarvis_brain.Engine.StateMachine.Histories.{run, Trace, run-Trace}
use jarvis_brain.Prelude.{◌≡◌, refl, some, List, [], ◌∷◌, nat_eq, string_eq, pair_eq, contains}

abbrev approved : List BrainState
approved =
    received_request ∷ understanding ∷ executing ∷ deciding ∷ risk_checking ∷ waiting_approval
    ∷ executing ∷ responding ∷ updating_memory ∷ completed ∷ []

approved_completes : (run start approved).current_state ≡ completed
unfolding run transition_to enter contains BrainState-discrete
approved_completes = refl

run-Trace_example : Trace (run start approved).state_history (run start approved).current_state
run-Trace_example = run-Trace approved

abbrev broken : BrainStateMachine
broken = record {
  current_state = failed;
  previous_state = some idle;
  state_history = idle ∷ failed ∷ [];
}
