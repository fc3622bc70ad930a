-- ===== src/Requests/Coordinator/Endings.antt =====
-- How turns end, and what the history keeps of them
-- (src/jarvis_brain/requests/coordinator.py).
use jarvis_brain.Dict.{get}
use jarvis_brain.Requests.Cancellation.{CancellationToken, raise_if_cancelled}
use jarvis_brain.Requests.Turn.{
  ConversationTurnState, ConversationTurn, next_sequence, TurnSnapshot, snapshot, TurnEventType,
  Metadata, Callback,
}
use jarvis_brain.Requests.Coordinator.{
  Phase, acquiring, preparing, processing, ActiveTurn, AsyncTurnCoordinator, session_key, save,
  cancel_found, cancel_named, cancel_turn, supersede, register, start_new, unless_raised,
  unregister, Ending, completes, times_out, is_cancelled, crashes, close, finish, unless_cancelled,
  set_state, last_event, last_metadata, release, Continuation, acquire, take_context, take_value,
}
use jarvis_brain.Requests.Coordinator.Sessions.{cancel-cancelled, emit-elim}
use jarvis_brain.Requests.Coordinator.Steps.{
  state_some-inj, acquire_in, context_in, value_in, fail_at, publish_at, hook_at,
}
use jarvis_brain.Prelude.{
  String, ℕ, zero, suc, ◌+◌, ◌-◌, ◌≤◌, ◌≡◌, refl, subst, true, false, Option, none, some, List, [],
  ◌∷◌, ◌++◌, arith, nat_beq, nat_eq, string_eq, pair_eq, length, drop, All, length-last_n, if-elim,
}

-- The four ends of a turn, as its snapshot shows them.
pub data IsSettled (s : TurnSnapshot) : Type 0 where
  ran_through : s.state ≡ ConversationTurnState.completed → s.was_cancelled ≡ false → IsSettled s
  ran_out :
      s.state ≡ ConversationTurnState.timed_out
      → s.was_cancelled ≡ true
      → s.failure_reason ≡ some "deadline_exceeded"
      → IsSettled s
  was_stopped :
      (reason : String)
      → s.state ≡ ConversationTurnState.cancelled
      → s.was_cancelled ≡ true
      → s.failure_reason ≡ some reason
      → IsSettled s
  broke_down :
      (name : String)
      → s.state ≡ ConversationTurnState.failed
      → s.failure_reason ≡ some name
      → IsSettled s

pub record IsKept (c : AsyncTurnCoordinator) : Type 0 where
  pub settled : All IsSettled c.history
  pub within : length c.history ≤ c.history_limit

-- `completes` is for a turn that nothing has cancelled.
abbrev CanEnd : Ending → ConversationTurn → Type 0
CanEnd completes turn = turn.cancellation.cancelled ≡ false
CanEnd times_out turn = Unit
CanEnd is_cancelled turn = Unit
CanEnd (crashes name) turn = Unit

-- Whatever number the last event gives the turn, its snapshot is settled.
close-IsSettled :
    (ending : Ending) (turn : ConversationTurn) (sequence : ℕ)
    → CanEnd ending turn
    → IsSettled (snapshot (record (close ending turn).0 { sequence = sequence }))
unfolding close snapshot
close-IsSettled completes turn sequence off = IsSettled.ran_through refl off
close-IsSettled times_out turn sequence off =
    IsSettled.ran_out refl (cancel-cancelled "deadline_exceeded" turn.cancellation) refl
close-IsSettled is_cancelled turn sequence off =
    IsSettled.was_stopped _ refl (cancel-cancelled turn.cancellation.reason turn.cancellation) refl
close-IsSettled (crashes name) turn sequence off = IsSettled.broke_down name refl refl

All-drop {ℓ ℓ'} :
    {A : Type ℓ} (P : A → Type ℓ') (n : ℕ) (xs : List A) → All P xs → All P (drop n xs)
All-drop P zero xs h = h
All-drop P (suc n) [] h = h
All-drop P (suc n) (x ∷ xs) h = All-drop P n xs h.1

All-snoc {ℓ ℓ'} :
    {A : Type ℓ} (P : A → Type ℓ') (xs : List A) (x : A) → All P xs → P x → All P (xs ++ x ∷ [])
All-snoc P [] x h p = (p, tt)
All-snoc P (y ∷ xs) x h p = (h.0, All-snoc P xs x h.1 p)

unregister-IsKept :
    (turn : ConversationTurn) (c : AsyncTurnCoordinator)
    → IsSettled (snapshot turn)
    → IsKept c
    → IsKept (unregister turn c)
unfolding unregister
unregister-IsKept turn c s k = record {
  settled =
      All-drop IsSettled _ (c.history ++ snapshot turn ∷ [])
        (All-snoc IsSettled c.history (snapshot turn) k.settled s);
  within = ground (arith, length-last_n c.history_limit (c.history ++ snapshot turn ∷ []));
}

pub finish-IsKept :
    (ending : Ending) (a : ActiveTurn) (c : AsyncTurnCoordinator)
    → CanEnd ending a.turn
    → IsKept c
    → IsKept (finish ending a c)
unfolding finish
finish-IsKept ending a c ends k =
    let closed = (close ending a.turn).0 in
    emit-elim
      (λ r. IsKept (
        unregister r.0 (record r.1 {
          permits = release a.phase c.permits;
          heard = c.heard ++ (close ending a.turn).1;
        })))
      closed (last_event ending) (last_metadata ending closed) c
      (unregister-IsKept closed _ (close-IsSettled ending a.turn closed.sequence ends)
        (record { settled = k.settled; within = k.within }))
      (unregister-IsKept (next_sequence closed) _
        (close-IsSettled ending a.turn (closed.sequence + 1) ends)
        (record { settled = k.settled; within = k.within }))

-- A turn that `raise_if_cancelled` lets through is not cancelled.
let_through : (t : CancellationToken Callback) → raise_if_cancelled t ≡ none → t.cancelled ≡ false
unfolding raise_if_cancelled
let_through t e = ground (arith, e)

unless-IsKept :
    (raised : Option String) (a : ActiveTurn) (go : Continuation) (c : AsyncTurnCoordinator)
    → IsKept c
    → (raised ≡ none → IsKept (go a c))
    → IsKept (unless_raised raised a go c)
unless-IsKept none a go c k goes = goes refl
unless-IsKept (some reason) a go c k goes = finish-IsKept is_cancelled a c tt k

pub cancel_found-IsKept :
    (current : ℕ) (reason : String) (found : Option ActiveTurn) (c : AsyncTurnCoordinator)
    → IsKept c
    → IsKept (cancel_found current reason found c).1
cancel_found-IsKept current reason none c k = k
cancel_found-IsKept current reason (some a) c k = record { settled = k.settled; within = k.within }

pub cancel_named-IsKept :
    (current : ℕ) (reason : String) (names : Option String) (c : AsyncTurnCoordinator)
    → IsKept c
    → IsKept (cancel_named current reason names c).1
unfolding cancel_turn
cancel_named-IsKept current reason none c k = k
cancel_named-IsKept current reason (some id) c k =
    cancel_found-IsKept current reason (get c.active id) c k

pub start_new-IsKept :
    (task : ℕ) (made : Option ConversationTurn) (c : AsyncTurnCoordinator)
    → IsKept c
    → IsKept (start_new task made c)
unfolding register supersede
start_new-IsKept task none c k = k
start_new-IsKept task (some turn) c k =
    let stopped =
      cancel_named-IsKept task "superseded_by_new_turn" (get c.session_turns (session_key turn)) c
        k in
    emit-elim (λ r. IsKept (save (record { turn = r.0; task = task; phase = acquiring }) r.1)) turn
      TurnEventType.turn_started [] (register turn task c)
      (record { settled = stopped.settled; within = stopped.within })
      (record { settled = stopped.settled; within = stopped.within })

module _ (c : AsyncTurnCoordinator) (k : IsKept c) (a : ActiveTurn)
    (next : AsyncTurnCoordinator) where
  pub acquire_in-IsKept : (phase : Phase) → acquire_in phase a c ≡ some next → IsKept next
  unfolding acquire
  acquire_in-IsKept acquiring e =
      if-elim (λ o. o ≡ some next → IsKept next) (nat_beq c.permits 0) none (some (acquire a c))
        (λ full nothing. absurd (ground (arith, nothing)))
        (λ free it. subst IsKept (state_some-inj it) (
          unless-IsKept (raise_if_cancelled a.turn.cancellation) (record a { phase = preparing })
            (set_state ConversationTurnState.preparing_context)
            (record c { permits = c.permits - 1 })
            (record { settled = k.settled; within = k.within })
            (λ goes. record { settled = k.settled; within = k.within })))
        e
  acquire_in-IsKept preparing e = absurd (ground (arith, e))
  acquire_in-IsKept processing e = absurd (ground (arith, e))

  pub context_in-IsKept :
      (phase : Phase) (ready timed_out failed : List String)
      → context_in phase ready timed_out failed a c ≡ some next
      → IsKept next
  unfolding take_context
  context_in-IsKept acquiring ready timed_out failed e = absurd (ground (arith, e))
  context_in-IsKept preparing ready timed_out failed e = subst IsKept (state_some-inj e) (
      emit-elim
        (λ r. IsKept (
          unless_cancelled (record a { turn = r.0; phase = processing })
            (set_state ConversationTurnState.running) r.1))
        a.turn TurnEventType.context_update _ c (goes_on a.turn c k)
        (goes_on (next_sequence a.turn) _ (record { settled = k.settled; within = k.within })))
    where
      goes_on :
          (turn : ConversationTurn) (d : AsyncTurnCoordinator)
          → IsKept d
          → IsKept (
              unless_cancelled
                (record a { turn = turn; phase = processing })
                (set_state ConversationTurnState.running)
                d)
      goes_on turn d kept =
          unless-IsKept (raise_if_cancelled turn.cancellation) _
            (set_state ConversationTurnState.running) d kept
            (λ goes. record { settled = kept.settled; within = kept.within })
  context_in-IsKept processing ready timed_out failed e = absurd (ground (arith, e))

  pub value_in-IsKept : (phase : Phase) → value_in phase a c ≡ some next → IsKept next
  unfolding take_value
  value_in-IsKept acquiring e = absurd (ground (arith, e))
  value_in-IsKept preparing e = absurd (ground (arith, e))
  value_in-IsKept processing e = subst IsKept (state_some-inj e) (
      unless-IsKept (raise_if_cancelled a.turn.cancellation) a (finish completes) c k
        (λ goes. finish-IsKept completes a c (let_through a.turn.cancellation goes) k))

  pub fail_at-IsKept : (ending : Ending) → fail_at ending a c ≡ some next → IsKept next
  fail_at-IsKept completes e = absurd (ground (arith, e))
  fail_at-IsKept times_out e = subst IsKept (state_some-inj e) (finish-IsKept times_out a c tt k)
  fail_at-IsKept is_cancelled e =
      subst IsKept (state_some-inj e) (finish-IsKept is_cancelled a c tt k)
  fail_at-IsKept (crashes name) e =
      subst IsKept (state_some-inj e) (finish-IsKept (crashes name) a c tt k)

  pub publish_at-IsKept :
      (event_type : TurnEventType) (metadata : Metadata)
      → some (publish_at event_type metadata a c) ≡ some next
      → IsKept next
  publish_at-IsKept event_type metadata e = subst IsKept (state_some-inj e) (
      emit-elim (λ r. IsKept (save (record a { turn = r.0 }) r.1)) a.turn event_type metadata c
        (record { settled = k.settled; within = k.within })
        (record { settled = k.settled; within = k.within }))

  pub hook_at-IsKept : (callback : Callback) → some (hook_at callback a c) ≡ some next → IsKept next
  hook_at-IsKept callback e =
      subst IsKept (state_some-inj e) (record { settled = k.settled; within = k.within })
