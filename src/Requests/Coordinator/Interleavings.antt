-- ===== src/Requests/Coordinator/Interleavings.antt =====
-- Every interleaving of the turns' tasks keeps at most one live turn for each session
-- (src/jarvis_brain/requests/coordinator.py).
use jarvis_brain.Dict.{get}
use jarvis_brain.Requests.Cancellation.{add_callback, raise_if_cancelled}
use jarvis_brain.Requests.Turn.{
  ConversationTurnState, ConversationTurn, next_sequence, TurnEventType, Metadata, Callback,
}
use jarvis_brain.Requests.Coordinator.{
  Phase, acquiring, preparing, processing, ActiveTurn, AsyncTurnCoordinator, session_key, save,
  start_new, unless_raised, Ending, completes, times_out, is_cancelled, crashes, finish,
  unless_cancelled, Continuation, set_state, acquire, take_context, take_value,
  ConversationTurnState,
}
use jarvis_brain.Requests.Coordinator.Sessions.{
  Lively, add_callback-cancelled, emit-elim, at_own_id,
}
use jarvis_brain.Requests.Coordinator.OneLive.{save_like, start_new-IsLive, finish-IsLive}
use jarvis_brain.Requests.Coordinator.Steps.{
  state_some-inj, act_on-elim, Act, act_on, acquire_in, context_in, value_in, fail_at, publish_at,
  hook_at,
}
use jarvis_brain.Prelude.{
  String, ℕ, ◌-◌, ◌≡◌, refl, ap, ◌∙◌, subst, none, some, List, arith, nat_beq, nat_eq, string_eq,
  pair_eq, if-elim, Option,
}

-- `a` is what the task of an active turn holds: the entry, with writes that keep its names and token.
record Holds (c : AsyncTurnCoordinator) (a : ActiveTurn) : Type 0 where
  old : ActiveTurn
  here : get c.active a.turn.turn_id ≡ some old
  same_id : a.turn.turn_id ≡ old.turn.turn_id
  same_key : session_key a.turn ≡ session_key old.turn
  same_token : a.turn.cancellation.cancelled ≡ old.turn.cancellation.cancelled

save-Lively : (c : AsyncTurnCoordinator) (a : ActiveTurn) → Holds c a → Lively c → Lively (save a c)
save-Lively c a h l = save_like c h.old a h.here h.same_id h.same_key h.same_token l

finish-Lively :
    (ending : Ending) (c : AsyncTurnCoordinator) (a : ActiveTurn)
    → Holds c a
    → Lively c
    → Lively (finish ending a c)
finish-Lively ending c a h l = finish-IsLive ending a c h.old h.here h.same_key l

unless-Lively :
    (raised : Option String) (c : AsyncTurnCoordinator) (a : ActiveTurn) (go : Continuation)
    → Holds c a
    → Lively c
    → Lively (go a c)
    → Lively (unless_raised raised a go c)
unless-Lively none c a go h l goes = goes
unless-Lively (some reason) c a go h l goes = finish-Lively is_cancelled c a h l

set-Lively :
    (state : ConversationTurnState) (c : AsyncTurnCoordinator) (a : ActiveTurn)
    → Holds c a
    → Lively c
    → Lively (unless_cancelled a (set_state state) c)
set-Lively state c a h l =
    unless-Lively (raise_if_cancelled a.turn.cancellation) c a (set_state state) h l (
      save-Lively c (record a { turn = record a.turn { state = state } })
        (record {
          old = h.old;
          here = h.here;
          same_id = h.same_id;
          same_key = h.same_key;
          same_token = h.same_token;
        })
        l)

module _ (c : AsyncTurnCoordinator) (l : Lively c) (a : ActiveTurn)
    (here : get c.active a.turn.turn_id ≡ some a) where
  abbrev held : Holds c a
  held = record { old = a; here = here; same_id = refl; same_key = refl; same_token = refl }

  acquire-Lively : Lively (acquire a c)
  unfolding acquire
  acquire-Lively =
      set-Lively ConversationTurnState.preparing_context (record c { permits = c.permits - 1 })
        (record a { phase = preparing })
        (record { old = a; here = here; same_id = refl; same_key = refl; same_token = refl }) l

  take_context-Lively :
      (ready timed_out failed : List String) → Lively (take_context ready timed_out failed a c)
  unfolding take_context
  take_context-Lively ready timed_out failed =
      emit-elim
        (λ r. Lively (
          unless_cancelled (record a { turn = r.0; phase = processing })
            (set_state ConversationTurnState.running) r.1))
        a.turn TurnEventType.context_update _ c
        (set-Lively ConversationTurnState.running c (record a { phase = processing })
          (record { old = a; here = here; same_id = refl; same_key = refl; same_token = refl }) l)
        (set-Lively ConversationTurnState.running _
          (record a { turn = next_sequence a.turn; phase = processing })
          (record { old = a; here = here; same_id = refl; same_key = refl; same_token = refl }) l)

  take_value-Lively : Lively (take_value a c)
  unfolding take_value
  take_value-Lively =
      unless-Lively (raise_if_cancelled a.turn.cancellation) c a (finish completes) held l
        (finish-Lively completes c a held l)

  pub publish_at-Lively :
      (event_type : TurnEventType) (metadata : Metadata)
      → Lively (publish_at event_type metadata a c)
  publish_at-Lively event_type metadata =
      emit-elim (λ r. Lively (save (record a { turn = r.0 }) r.1)) a.turn event_type metadata c
        (save-Lively c a held l)
        (save-Lively c (record a { turn = next_sequence a.turn })
          (record { old = a; here = here; same_id = refl; same_key = refl; same_token = refl }) l)

  pub hook_at-Lively : (callback : Callback) → Lively (hook_at callback a c)
  hook_at-Lively callback =
      save-Lively c
        (record a {
          turn = record a.turn { cancellation = (add_callback callback a.turn.cancellation).token };
        })
        (record {
          old = a;
          here = here;
          same_id = refl;
          same_key = refl;
          same_token = add_callback-cancelled callback a.turn.cancellation;
        })
        l

  -- What the task of an active turn does next.
  pub acquire_in-Lively :
      (phase : Phase) (next : AsyncTurnCoordinator) → acquire_in phase a c ≡ some next → Lively next
  acquire_in-Lively acquiring next e =
      if-elim (λ o. o ≡ some next → Lively next) (nat_beq c.permits 0) none (some (acquire a c))
        (λ full nothing. absurd (ground (arith, nothing)))
        (λ free it. subst Lively (state_some-inj it) acquire-Lively) e
  acquire_in-Lively preparing next e = absurd (ground (arith, e))
  acquire_in-Lively processing next e = absurd (ground (arith, e))

  pub context_in-Lively :
      (phase : Phase) (ready timed_out failed : List String) (next : AsyncTurnCoordinator)
      → context_in phase ready timed_out failed a c ≡ some next
      → Lively next
  context_in-Lively acquiring ready timed_out failed next e = absurd (ground (arith, e))
  context_in-Lively preparing ready timed_out failed next e =
      subst Lively (state_some-inj e) (take_context-Lively ready timed_out failed)
  context_in-Lively processing ready timed_out failed next e = absurd (ground (arith, e))

  pub value_in-Lively :
      (phase : Phase) (next : AsyncTurnCoordinator) → value_in phase a c ≡ some next → Lively next
  value_in-Lively acquiring next e = absurd (ground (arith, e))
  value_in-Lively preparing next e = absurd (ground (arith, e))
  value_in-Lively processing next e = subst Lively (state_some-inj e) take_value-Lively

  pub fail_at-Lively :
      (ending : Ending) (next : AsyncTurnCoordinator) → fail_at ending a c ≡ some next → Lively next
  fail_at-Lively completes next e = absurd (ground (arith, e))
  fail_at-Lively times_out next e =
      subst Lively (state_some-inj e) (finish-Lively times_out c a held l)
  fail_at-Lively is_cancelled next e =
      subst Lively (state_some-inj e) (finish-Lively is_cancelled c a held l)
  fail_at-Lively (crashes name) next e =
      subst Lively (state_some-inj e) (finish-Lively (crashes name) c a held l)

-- The turn that an event is about stands at its own ID.
pub act_on-Lively :
    (c : AsyncTurnCoordinator) (l : Lively c) (id : String) (act : Act)
    (next : AsyncTurnCoordinator)
    → ((a : ActiveTurn) → get c.active a.turn.turn_id ≡ some a → act a c ≡ some next → Lively next)
    → act_on (get c.active id) act c ≡ some next
    → Lively next
act_on-Lively c l id act next then_lively =
    act_on-elim Lively next (get c.active id) act c
      (λ a looked. then_lively a (at_own_id c l id a looked))

pub started-Lively :
    (c : AsyncTurnCoordinator) (l : Lively c) (task : ℕ) (id : String)
    (made : Option ConversationTurn)
    → get c.active id ≡ none
    → ((turn : ConversationTurn) → made ≡ some turn → turn.turn_id ≡ id)
    → Lively (start_new task made c)
started-Lively c l task id none fresh own = l
started-Lively c l task id (some turn) fresh own =
    start_new-IsLive task turn c (ap (get c.active) (own turn refl) ∙ fresh) l
