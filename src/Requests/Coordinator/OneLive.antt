-- ===== src/Requests/Coordinator/OneLive.antt =====
-- The start and the end of a turn leave at most one live turn for each session
-- (src/jarvis_brain/requests/coordinator.py).
use jarvis_brain.Dict.{get, put, get-put_self, get-put_ne, get-put_cases}
use jarvis_brain.Requests.Turn.{ConversationTurn, next_sequence, TurnEventType}
use jarvis_brain.Requests.Coordinator.{
  acquiring, ActiveTurn, AsyncTurnCoordinator, session_key, save, supersede, register, start_new,
  unregister, Ending, completes, times_out, is_cancelled, crashes, close, finish, last_event,
  last_metadata, release,
}
use jarvis_brain.Requests.Coordinator.Live.{IsLive, save-IsLive, unregister-IsLive}
use jarvis_brain.Requests.Coordinator.Sessions.{Lively, emit-elim, IsReady, supersede-IsReady}
use jarvis_brain.Prelude.{
  ℕ, ◌≡◌, refl, sym, ap, ◌∙◌, subst, inl, inr, none, some, [], ◌++◌, arith, nat_eq, string_eq,
  pair_eq,
}

abbrev waiting_turn : ConversationTurn → ℕ → ActiveTurn
waiting_turn turn task = record { turn = turn; task = task; phase = acquiring }

-- A turn that is registered where its session has no live turn is the one that the session names.
added-IsLive :
    (turn : ConversationTurn) (task : ℕ) (c : AsyncTurnCoordinator)
    → IsReady turn c
    → IsLive
        (put c.active turn.turn_id (waiting_turn turn task))
        (put c.session_turns (session_key turn) turn.turn_id)
added-IsLive turn task c r = record {
  named = λ id b at. elim (get-put_cases c.active turn.turn_id id (waiting_turn turn task) b at) [
    | inl (same, new) ↦ subst (λ x. x.turn.turn_id ≡ id) new same
    | inr (other, before) ↦ r.lively.named id b before
  ];
  owned = λ id b at off.
      elim (get-put_cases c.active turn.turn_id id (waiting_turn turn task) b at) [
        | inl (same, new) ↦
            ap (λ x. get (put c.session_turns (session_key turn) turn.turn_id) (session_key x.turn))
              (sym new)
            ∙ get-put_self c.session_turns (session_key turn) (session_key turn) turn.turn_id
            ∙ ap some same
        | inr (other, before) ↦
            get-put_ne c.session_turns (session_key turn) (session_key b.turn) turn.turn_id
              (λ same. r.cleared id b before off (sym same))
            ∙ r.lively.owned id b before off
      ];
  listed = λ key id names.
      elim (get-put_cases c.session_turns (session_key turn) key turn.turn_id id names) [
        | inl (same, new) ↦ (
          waiting_turn turn task,
          ap (get (put c.active turn.turn_id (waiting_turn turn task))) (sym new)
              ∙ get-put_self c.active turn.turn_id id (waiting_turn turn task),
          same,
        )
        | inr (other, before) ↦
            let (b, at, owner) = r.lively.listed key id before in
            (
              b,
              get-put_ne c.active turn.turn_id id (waiting_turn turn task)
                    (λ same. absurd (ground (arith, r.fresh, ap (get c.active) same ∙ at)))
                  ∙ at,
              owner,
            )
      ];
}

register-IsLive :
    (turn : ConversationTurn) (task : ℕ) (c : AsyncTurnCoordinator)
    → get c.active turn.turn_id ≡ none
    → Lively c
    → Lively (register turn task c)
unfolding register
register-IsLive turn task c fresh l =
    added-IsLive turn task _ (supersede-IsReady turn task c fresh l)

registered :
    (turn : ConversationTurn) (task : ℕ) (c : AsyncTurnCoordinator)
    → get (register turn task c).active turn.turn_id ≡ some (waiting_turn turn task)
unfolding register
registered turn task c =
    get-put_self (supersede task (session_key turn) c).active turn.turn_id turn.turn_id
      (waiting_turn turn task)

-- Writes that change no more than the phase, the state and the number of a turn.
pub save_like :
    (c : AsyncTurnCoordinator) (old a : ActiveTurn)
    → get c.active a.turn.turn_id ≡ some old
    → a.turn.turn_id ≡ old.turn.turn_id
    → session_key a.turn ≡ session_key old.turn
    → a.turn.cancellation.cancelled ≡ old.turn.cancellation.cancelled
    → Lively c
    → Lively (save a c)
save_like c old a here same_id same_key same_token l =
    save-IsLive c.active c.session_turns old a here
      (record {
        same_id = same_id;
        same_key = same_key;
        stays_cancelled = λ off. sym same_token ∙ off;
      })
      l

pub start_new-IsLive :
    (task : ℕ) (turn : ConversationTurn) (c : AsyncTurnCoordinator)
    → get c.active turn.turn_id ≡ none
    → Lively c
    → Lively (start_new task (some turn) c)
start_new-IsLive task turn c fresh l =
    let there = registered turn task c in
    let listed = register-IsLive turn task c fresh l in
    emit-elim (λ r. Lively (save (waiting_turn r.0 task) r.1)) turn TurnEventType.turn_started [] _
      (save_like (register turn task c) (waiting_turn turn task) (waiting_turn turn task) there refl
        refl refl listed)
      (save_like (register turn task c) (waiting_turn turn task)
        (waiting_turn (next_sequence turn) task) there refl refl refl listed)

-- What `close` leaves of a turn's names.
pub close_names :
    (ending : Ending) (turn : ConversationTurn)
    → ((close ending turn).0.turn_id ≡ turn.turn_id)
      × (session_key (close ending turn).0 ≡ session_key turn)
unfolding close
close_names completes turn = (refl, refl)
close_names times_out turn = (refl, refl)
close_names is_cancelled turn = (refl, refl)
close_names (crashes name) turn = (refl, refl)

pub finish-IsLive :
    (ending : Ending) (a : ActiveTurn) (c : AsyncTurnCoordinator) (old : ActiveTurn)
    → get c.active a.turn.turn_id ≡ some old
    → session_key a.turn ≡ session_key old.turn
    → Lively c
    → Lively (finish ending a c)
unfolding finish unregister
finish-IsLive ending a c old here same_key l =
    let (same_id, key) = close_names ending a.turn in
    let closed = (close ending a.turn).0 in
    let at = ap (get c.active) same_id ∙ here in
    emit-elim
      (λ r. Lively (
        unregister r.0 (record r.1 {
          permits = release a.phase c.permits;
          heard = c.heard ++ (close ending a.turn).1;
        })))
      closed (last_event ending) (last_metadata ending closed) c
      (unregister-IsLive _ closed old at (key ∙ same_key) l)
      (unregister-IsLive _ (next_sequence closed) old at (key ∙ same_key) l)
