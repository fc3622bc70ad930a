-- ===== src/Engine/StateMachine.antt =====
-- The lifecycle of one request in the engine (src/jarvis_brain/engine/state_machine.py).
pub mod Histories
mod Examples
use jarvis_brain.Prelude.{
  ℕ, zero, suc, ◌+◌, ◌-◌, ◌*◌, ◌/◌, ◌%◌, ◌≤◌, ◌<◌, min, max, String, ◌≡◌, refl, sym, ap, ◌∙◌, subst,
  ◌≢◌, ◌↔◌, ◌⊎◌, inl, inr, Bool, true, false, not, ◌&&◌, ◌||◌, Option, none, some, List, [], ◌∷◌,
  ◌++◌, map, reverse, arith, ltb, leb, nat_beq, if◌then◌else◌, ltb→lt, lt→ltb, le→ltb, leb→le,
  le→leb, nat_beq_iff, Bool-cases, Option-cases, Eq, ◌==◌, nat_eq, string_eq, pair_eq, length, drop,
  last_n, keep, All, any, all, length-append, length-drop, length-last_n, contains, get_or, eq_iff,
  eq_refl, discrete_eq, list_cases, last_n-last_n-append, last_n-short, drop-append, drop-drop,
  drop_at, drop-nil, ltb_asym, ltb_mono, dec_beq, dec_beq_iff, unique, unique_from, is_subset, Mem,
  mem-cons_self, mem-cons_of_mem, all-Mem, contains-Mem, find, find-Mem, all_intro, keep-Mem,
  contains_of_Mem, All-Mem, append-eq-nil, unique-eq-nil, eq-cases, if-elim,
}

pub data BrainState : Type 0 where
  idle received_request understanding deciding risk_checking waiting_approval executing : BrainState
  responding updating_memory completed failed : BrainState

pub BrainState-discrete : Discrete BrainState
BrainState-discrete = hlevel

instance abbrev pub brain_state_eq : Eq BrainState
brain_state_eq = discrete_eq BrainState-discrete

pub record BrainStateMachine : Type 0 where
  pub current_state : BrainState
  pub previous_state : Option BrainState
  pub state_history : List BrainState

abbrev pub start : BrainStateMachine
start = record { current_state = idle; previous_state = none; state_history = idle ∷ [] }

abbrev pub allowed_transitions : BrainState → List BrainState
allowed_transitions idle = received_request ∷ failed ∷ []
allowed_transitions received_request = understanding ∷ failed ∷ []
allowed_transitions understanding = deciding ∷ failed ∷ []
allowed_transitions deciding = risk_checking ∷ failed ∷ []
allowed_transitions risk_checking = waiting_approval ∷ executing ∷ failed ∷ []
allowed_transitions waiting_approval = executing ∷ failed ∷ []
allowed_transitions executing = responding ∷ failed ∷ []
allowed_transitions responding = updating_memory ∷ failed ∷ []
allowed_transitions updating_memory = completed ∷ failed ∷ []
allowed_transitions completed = idle ∷ failed ∷ []
allowed_transitions failed = []

-- The three assignments that both paths of the method make.
unfoldable pub enter : BrainState → BrainStateMachine → BrainStateMachine
enter state m = record {
  current_state = state;
  previous_state = some m.current_state;
  state_history = m.state_history ++ state ∷ [];
}

-- `none` stands for the `ValueError`, which is raised before anything is assigned.
unfoldable pub transition_to : BrainState → BrainStateMachine → Option BrainStateMachine
transition_to state m =
    if state == failed
    then some (enter state m)
    else if not (contains (allowed_transitions m.current_state) state)
    then none
    else some (enter state m)
