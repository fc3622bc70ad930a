-- ===== src/Engine/StateMachine/Histories.antt =====
-- What every history of the machine looks like (src/jarvis_brain/engine/state_machine.py).
use jarvis_brain.Engine.StateMachine.{
  BrainState, idle, received_request, understanding, deciding, risk_checking, waiting_approval,
  executing, responding, updating_memory, completed, failed, BrainState-discrete, brain_state_eq,
  BrainStateMachine, start, allowed_transitions, enter, transition_to,
}
use jarvis_brain.Prelude.{
  ℕ, ◌+◌, ◌≤◌, ◌≡◌, refl, sym, ap, ◌∙◌, subst, ◌↔◌, inl, inr, true, none, some, List, [], ◌∷◌, ◌++◌,
  arith, if◌then◌else◌, Bool-cases, ◌==◌, nat_eq, string_eq, pair_eq, contains, Option,
}

-- A caller's requests one after another; a refused one leaves the machine as it was.
after : BrainStateMachine → Option BrainStateMachine → BrainStateMachine
after m none = m
after m (some m') = m'

unfoldable pub run : BrainStateMachine → List BrainState → BrainStateMachine
unfolding after
run m [] = m
run m (state ∷ later) = run (after m (transition_to state m)) later

-- The moves that the machine may make: the table's, and to FAILED from everywhere.
pub data Move : BrainState → BrainState → Type 0 where
  receive : Move idle received_request
  understand : Move received_request understanding
  decide : Move understanding deciding
  check : Move deciding risk_checking
  ask : Move risk_checking waiting_approval
  execute : Move risk_checking executing
  approve : Move waiting_approval executing
  respond : Move executing responding
  remember : Move responding updating_memory
  complete : Move updating_memory completed
  rest : Move completed idle
  fail : {s : BrainState} → Move s failed

Move-of_allowed :
    (cur state : BrainState) → contains (allowed_transitions cur) state ≡ true → Move cur state
unfolding contains BrainState-discrete
Move-of_allowed idle received_request h = receive
Move-of_allowed received_request understanding h = understand
Move-of_allowed understanding deciding h = decide
Move-of_allowed deciding risk_checking h = check
Move-of_allowed risk_checking waiting_approval h = ask
Move-of_allowed risk_checking executing h = execute
Move-of_allowed waiting_approval executing h = approve
Move-of_allowed executing responding h = respond
Move-of_allowed responding updating_memory h = remember
Move-of_allowed updating_memory completed h = complete
Move-of_allowed completed idle h = rest
Move-of_allowed _ failed h = fail
Move-of_allowed _ _ h = cc

transition_to_of_Move :
    {cur state : BrainState}
    → Move cur state
    → (m : BrainStateMachine) → m.current_state ≡ cur
    → transition_to state m ≡ some (enter state m)
unfolding transition_to contains BrainState-discrete
transition_to_of_Move receive m e = rw e
transition_to_of_Move understand m e = rw e
transition_to_of_Move decide m e = rw e
transition_to_of_Move check m e = rw e
transition_to_of_Move ask m e = rw e
transition_to_of_Move execute m e = rw e
transition_to_of_Move approve m e = rw e
transition_to_of_Move respond m e = rw e
transition_to_of_Move remember m e = rw e
transition_to_of_Move complete m e = rw e
transition_to_of_Move rest m e = rw e
transition_to_of_Move fail m e = refl

Move-of_transition_to :
    (state : BrainState) (m : BrainStateMachine) {m' : BrainStateMachine}
    → transition_to state m ≡ some m'
    → Move m.current_state state × (m' ≡ enter state m)
unfolding transition_to
Move-of_transition_to state m e = elim (Bool-cases (state == failed)) [
  | inl is_failed ↦ (
    subst (Move m.current_state) (sym ((brain_state_eq.beq_iff state failed).0 is_failed)) fail,
    ground (arith, is_failed),
  )
  | inr other ↦ elim (Bool-cases (contains (allowed_transitions m.current_state) state)) [
    | inl allowed ↦ (Move-of_allowed m.current_state state allowed, ground arith)
    | inr refused ↦ absurd (ground arith)
  ]
]

-- A history in order, from IDLE to the current state.
pub data Trace : List BrainState → BrainState → Type 0 where
  begin : Trace (idle ∷ []) idle
  move : {h : List BrainState} {s t : BrainState} → Trace h s → Move s t → Trace (h ++ t ∷ []) t

abbrev IsTraced : BrainStateMachine → Type 0
IsTraced m = Trace m.state_history m.current_state

entered-IsTraced :
    (state : BrainState) (m : BrainStateMachine) (o : Option BrainStateMachine)
    → transition_to state m ≡ o
    → IsTraced m
    → IsTraced (after m o)
unfolding after enter
entered-IsTraced state m none e h = h
entered-IsTraced state m (some m') e h =
    let (mv, e') = Move-of_transition_to state m e in subst IsTraced (sym e') (move h mv)

run-IsTraced :
    (m : BrainStateMachine) (states : List BrainState) → IsTraced m → IsTraced (run m states)
unfolding run
run-IsTraced m [] h = h
run-IsTraced m (state ∷ later) h =
    run-IsTraced (after m (transition_to state m)) later (entered-IsTraced state m _ refl h)

-- Whatever is requested, the history is a path of allowed moves from IDLE to the current state.
pub run-Trace :
    (states : List BrainState)
    → Trace (run start states).state_history (run start states).current_state
run-Trace states = run-IsTraced start states begin

-- A request is granted exactly when the move is in the machine's graph; it then enters the state.
pub transition_to_iff :
    (state : BrainState) (m m' : BrainStateMachine)
    → (transition_to state m ≡ some m') ↔ (Move m.current_state state × (m' ≡ enter state m))
transition_to_iff state m m' =
    (Move-of_transition_to state m, λ (mv, e). transition_to_of_Move mv m refl ∙ ap some (sym e))

-- How often a history enters a state.
pub visits : BrainState → List BrainState → ℕ
visits s [] = 0
visits s (t ∷ h) = (if t == s then 1 else 0) + visits s h

visits-append :
    (s : BrainState) (h k : List BrainState) → visits s (h ++ k) ≡ visits s h + visits s k
unfolding visits
visits-append s [] k = omega arith
visits-append s (t ∷ h) k = ground (arith, visits-append s h k)

abbrev is_checked : BrainState → ℕ
is_checked risk_checking = 1
is_checked waiting_approval = 1
is_checked _ = 0

abbrev is_executed : BrainState → ℕ
is_executed executing = 1
is_executed responding = 1
is_executed updating_memory = 1
is_executed _ = 0

pub record IsOrderly (h : List BrainState) (s : BrainState) : Type 0 where
  pub checked_first : visits executing h + is_checked s ≤ visits risk_checking h
  pub executed_first : visits completed h + is_executed s ≤ visits executing h

Move-IsOrderly :
    {s t : BrainState} (h : List BrainState) → Move s t → IsOrderly h s → IsOrderly (h ++ t ∷ []) t
unfolding visits BrainState-discrete
Move-IsOrderly h receive o = grind (arith, visits-append)
Move-IsOrderly h m o = grind (arith, visits-append)

Trace-IsOrderly : {h : List BrainState} {s : BrainState} → Trace h s → IsOrderly h s
unfolding visits BrainState-discrete
Trace-IsOrderly begin = omega arith
Trace-IsOrderly (move {h = h} t m) = Move-IsOrderly h m (Trace-IsOrderly t)

-- Nothing is executed without a risk check of its own: in every history EXECUTING is entered at most
-- as often as RISK_CHECKING, and COMPLETED at most as often as EXECUTING.
pub run-visits :
    (states : List BrainState)
    → (visits executing (run start states).state_history
        ≤ visits risk_checking (run start states).state_history)
      × (visits completed (run start states).state_history
          ≤ visits executing (run start states).state_history)
run-visits states =
    let o = Trace-IsOrderly (run-Trace states) in
    (omega (arith, o.checked_first), omega (arith, o.executed_first))

Move-from_failed : {s t : BrainState} → Move s t → s ≡ failed → t ≡ failed
Move-from_failed fail e = refl
Move-from_failed _ e = cc

entered_failed :
    (state : BrainState) (m : BrainStateMachine) (o : Option BrainStateMachine)
    → transition_to state m ≡ o
    → m.current_state ≡ failed
    → (after m o).current_state ≡ failed
unfolding after enter
entered_failed state m none q e = e
entered_failed state m (some m') q e =
    let (mv, e') = Move-of_transition_to state m q in
    ap (λ (n : BrainStateMachine). n.current_state) e' ∙ Move-from_failed mv e

-- A failed machine stays failed, whatever is requested.
pub run_failed :
    (m : BrainStateMachine) (states : List BrainState)
    → m.current_state ≡ failed
    → (run m states).current_state ≡ failed
unfolding run
run_failed m [] e = e
run_failed m (state ∷ later) e =
    run_failed (after m (transition_to state m)) later (entered_failed state m _ refl e)
