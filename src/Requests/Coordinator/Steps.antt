-- ===== src/Requests/Coordinator/Steps.antt =====
-- The interleavings of the turns' tasks (src/jarvis_brain/requests/coordinator.py).
use jarvis_brain.Dict.{get}
use jarvis_brain.Requests.Cancellation.{add_callback}
use jarvis_brain.Requests.Turn.{ConversationTurnPriority, TurnEventType, Metadata, Callback}
use jarvis_brain.Requests.Coordinator.{
  Phase, acquiring, preparing, processing, ActiveTurn, AsyncTurnCoordinator, save, emit,
  cancel_turn, cancel_session, Ending, completes, times_out, is_cancelled, crashes, finish,
  start_turn, acquire, take_context, take_value,
}
use jarvis_brain.Prelude.{
  String, ℕ, ◌≡◌, refl, subst, Option, none, some, List, [], ◌∷◌, ◌++◌, arith, nat_beq,
  if◌then◌else◌, nat_eq, string_eq, pair_eq,
}

-- What happens next, to which turn: a call from outside, or a task that goes on.
pub data Event : Type 0 where
  starts : String → String → ℕ → ConversationTurnPriority → String → ℕ → ℕ → Event
  acquires returns : String → Event
  gets_context : List String → List String → List String → String → Event
  fails : Ending → String → Event
  publishes : TurnEventType → Metadata → String → Event
  hooks : Callback → String → Event
  cancels_turn : ℕ → String → String → Event
  cancels_session : ℕ → String → String → String → Event

-- What the task of an active turn does, where it can.
abbrev pub Act : Type 0
Act = ActiveTurn → AsyncTurnCoordinator → Option AsyncTurnCoordinator

abbrev pub act_on : Option ActiveTurn → Act → AsyncTurnCoordinator → Option AsyncTurnCoordinator
act_on none act c = none
act_on (some a) act c = act a c

abbrev pub acquire_in : Phase → Act
acquire_in acquiring a c = if nat_beq c.permits 0 then none else some (acquire a c)
acquire_in preparing a c = none
acquire_in processing a c = none

abbrev pub context_in : Phase → List String → List String → List String → Act
context_in acquiring ready timed_out failed a c = none
context_in preparing ready timed_out failed a c = some (take_context ready timed_out failed a c)
context_in processing ready timed_out failed a c = none

abbrev pub value_in : Phase → Act
value_in acquiring a c = none
value_in preparing a c = none
value_in processing a c = some (take_value a c)

abbrev pub fail_at : Ending → Act
fail_at completes a c = none
fail_at times_out a c = some (finish times_out a c)
fail_at is_cancelled a c = some (finish is_cancelled a c)
fail_at (crashes name) a c = some (finish (crashes name) a c)

abbrev pub publish_at :
    TurnEventType → Metadata → ActiveTurn → AsyncTurnCoordinator → AsyncTurnCoordinator
publish_at event_type metadata a c =
    let (turn, told) = emit a.turn event_type metadata c in save (record a { turn = turn }) told

abbrev pub hook_at : Callback → ActiveTurn → AsyncTurnCoordinator → AsyncTurnCoordinator
hook_at callback a c =
    let called = add_callback callback a.turn.cancellation in
    record (save (record a { turn = record a.turn { cancellation = called.token } }) c) {
      heard = c.heard ++ called.ran;
    }

abbrev pub unless_used : Option ActiveTurn → AsyncTurnCoordinator → Option AsyncTurnCoordinator
unless_used none next = some next
unless_used (some a) next = none

-- `none` where the event cannot happen: its turn is not active, its task is not at that place, or a
-- new ID is one of an active turn.
unfoldable pub step : Event → AsyncTurnCoordinator → Option AsyncTurnCoordinator
step (starts user_id session_id timeout priority turn_id task now) c =
    unless_used (get c.active turn_id)
      (start_turn user_id session_id timeout priority turn_id task now c)
step (acquires id) c = act_on (get c.active id) (λ a. acquire_in a.phase a) c
step (gets_context ready timed_out failed id) c =
    act_on (get c.active id) (λ a. context_in a.phase ready timed_out failed a) c
step (returns id) c = act_on (get c.active id) (λ a. value_in a.phase a) c
step (fails ending id) c = act_on (get c.active id) (fail_at ending) c
step (publishes event_type metadata id) c =
    act_on (get c.active id) (λ a d. some (publish_at event_type metadata a d)) c
step (hooks callback id) c = act_on (get c.active id) (λ a d. some (hook_at callback a d)) c
step (cancels_turn current id reason) c = some (cancel_turn current id reason c).1
step (cancels_session current user_id session_id reason) c =
    some (cancel_session current user_id session_id reason c).1

abbrev pub run_from :
    Option AsyncTurnCoordinator
    → (AsyncTurnCoordinator → Option AsyncTurnCoordinator)
    → Option AsyncTurnCoordinator
run_from none go = none
run_from (some next) go = go next

unfoldable pub run : List Event → AsyncTurnCoordinator → Option AsyncTurnCoordinator
run [] c = some c
run (event ∷ later) c = run_from (step event c) (run later)

pub state_some-inj : {c d : AsyncTurnCoordinator} → some c ≡ some d → c ≡ d
state_some-inj e = cc

-- What an event does: to the turn that it is about, or at a new ID.
module _ {ℓ} (P : AsyncTurnCoordinator → Type ℓ) (next : AsyncTurnCoordinator) where
  pub act_on-elim :
      (found : Option ActiveTurn) (act : Act) (c : AsyncTurnCoordinator)
      → ((a : ActiveTurn) → found ≡ some a → act a c ≡ some next → P next)
      → act_on found act c ≡ some next
      → P next
  act_on-elim none act c then_holds e = absurd (ground (arith, e))
  act_on-elim (some a) act c then_holds e = then_holds a refl e

  pub unless_used-elim :
      (found : Option ActiveTurn) (after : AsyncTurnCoordinator)
      → (found ≡ none → P after)
      → unless_used found after ≡ some next
      → P next
  unless_used-elim none after then_holds e = subst P (state_some-inj e) (then_holds refl)
  unless_used-elim (some a) after then_holds e = absurd (ground (arith, e))

  run_from-elim :
      (go : AsyncTurnCoordinator → Option AsyncTurnCoordinator)
      (stepped : Option AsyncTurnCoordinator)
      → ((after : AsyncTurnCoordinator) → stepped ≡ some after → go after ≡ some next → P next)
      → run_from stepped go ≡ some next
      → P next
  run_from-elim go none then_holds e = absurd (ground (arith, e))
  run_from-elim go (some after) then_holds e = then_holds after refl e

-- What every event keeps, every history keeps.
pub run-keeps {ℓ} :
    (P : AsyncTurnCoordinator → Type ℓ)
    → ((event : Event) (c next : AsyncTurnCoordinator) → P c → step event c ≡ some next → P next)
    → (events : List Event) (c next : AsyncTurnCoordinator) → P c
    → run events c ≡ some next
    → P next
unfolding run
run-keeps P keeps [] c next p e = subst P (state_some-inj e) p
run-keeps P keeps (event ∷ later) c next p e =
    run_from-elim P next (run later) (step event c)
      (λ after stepped. run-keeps P keeps later after next (keeps event c after p stepped)) e
