-- ===== src/Requests/Coordinator/Live.antt =====
-- At most one live turn for each session (src/jarvis_brain/requests/coordinator.py).
use jarvis_brain.Dict.{
  Dict, get, put, remove, get-put_self, get-put_ne, get-put_cases, get-remove-some, get-remove_ne,
}
use jarvis_brain.Requests.Turn.{ConversationTurn}
use jarvis_brain.Requests.Coordinator.{
  ActiveTurn, AsyncTurnCoordinator, session_key, forget_session, unregister,
}
use jarvis_brain.Prelude.{
  String, ◌≡◌, refl, sym, ap, ◌∙◌, subst, ◌≢◌, inl, inr, false, Option, none, some, arith,
  if◌then◌else◌, Bool-cases, ◌==◌, nat_eq, string_eq, pair_eq, eq-cases,
}

abbrev pub Active : Type 0
Active = Dict String ActiveTurn

abbrev pub Sessions : Type 0
Sessions = Dict (String × String) String

-- Every entry has the ID of its turn; the turn that is not cancelled is the one that its session names;
-- and a session names an active turn of its own.
pub record IsLive (active : Active) (sessions : Sessions) : Type 0 where
  pub named : (id : String) (a : ActiveTurn) → get active id ≡ some a → a.turn.turn_id ≡ id
  pub owned :
      (id : String) (a : ActiveTurn)
      → get active id ≡ some a
      → a.turn.cancellation.cancelled ≡ false
      → get sessions (session_key a.turn) ≡ some id
  pub listed :
      (key : String × String) (id : String)
      → get sessions key ≡ some id
      → (a : ActiveTurn) × (get active id ≡ some a) × (session_key a.turn ≡ key)

pub some-inj : {a b : ActiveTurn} → some a ≡ some b → a ≡ b
some-inj e = cc

-- What a write to a turn keeps.
pub record Keeps (old new : ActiveTurn) : Type 0 where
  pub same_id : new.turn.turn_id ≡ old.turn.turn_id
  pub same_key : session_key new.turn ≡ session_key old.turn
  pub stays_cancelled :
      new.turn.cancellation.cancelled ≡ false → old.turn.cancellation.cancelled ≡ false

pub save-IsLive :
    (active : Active) (sessions : Sessions) (old a : ActiveTurn)
    → get active a.turn.turn_id ≡ some old
    → Keeps old a
    → IsLive active sessions
    → IsLive (put active a.turn.turn_id a) sessions
save-IsLive active sessions old a here k l = record {
  named = λ id b at. elim (get-put_cases active a.turn.turn_id id a b at) [
    | inl (same, new) ↦ subst (λ x. x.turn.turn_id ≡ id) new same
    | inr (other, before) ↦ l.named id b before
  ];
  owned = λ id b at uncancelled. elim (get-put_cases active a.turn.turn_id id a b at) [
    | inl (same, new) ↦
        ap (λ x. get sessions (session_key x.turn)) (sym new)
        ∙ ap (get sessions) k.same_key
        ∙ l.owned a.turn.turn_id old here
            (k.stays_cancelled (ap (λ x. x.turn.cancellation.cancelled) new ∙ uncancelled))
        ∙ ap some same
    | inr (other, before) ↦ l.owned id b before uncancelled
  ];
  listed = λ key id names.
      let (b, at, owner) = l.listed key id names in
      elim (eq-cases a.turn.turn_id id) [
        | inl same ↦ (
          a,
          ap (get (put active a.turn.turn_id a)) (sym same)
              ∙ get-put_self active a.turn.turn_id id a,
          k.same_key
              ∙ ap session_key (ap (λ x. x.turn) (some-inj (sym here ∙ ap (get active) same ∙ at)))
              ∙ owner,
        )
        | inr other ↦ (b, get-put_ne active a.turn.turn_id id a other ∙ at, owner)
      ];
}

pub id_some-inj : {i j : String} → some i ≡ some j → i ≡ j
id_some-inj e = cc

-- What `_unregister` leaves of the sessions: all but the entry that names the turn itself.
module _ (c : AsyncTurnCoordinator) (turn : ConversationTurn) where
  forget_keeps :
      (found : Option String) (key : String × String) (id : String)
      → get c.session_turns (session_key turn) ≡ found
      → get c.session_turns key ≡ some id
      → turn.turn_id ≢ id
      → get (forget_session turn found c) key ≡ some id
  forget_keeps none key id looked names other = names
  forget_keeps (some f) key id looked names other = elim (Bool-cases (f == turn.turn_id)) [
    | inr kept ↦ rw kept names
    | inl own ↦ rw own (
        get-remove_ne c.session_turns (session_key turn) key (λ same. other (
          sym ((string_eq.beq_iff f turn.turn_id).0 own)
          ∙ id_some-inj (sym looked ∙ ap (get c.session_turns) same ∙ names)))
        ∙ names)
  ]

  forget_some :
      (found : Option String) (key : String × String) (id : String)
      → get (forget_session turn found c) key ≡ some id
      → get c.session_turns key ≡ some id
  forget_some none key id names = names
  forget_some (some f) key id names = elim (Bool-cases (f == turn.turn_id)) [
    | inr kept ↦
        subst
          (λ t.
            get (if t then remove c.session_turns (session_key turn) else c.session_turns) key
            ≡ some id)
          kept names
    | inl own ↦
        (get-remove-some c.session_turns (session_key turn) key id (
          subst
            (λ t.
              get (if t then remove c.session_turns (session_key turn) else c.session_turns) key
              ≡ some id)
            own names)).1
  ]

  forget_drops :
      (found : Option String)
      → get c.session_turns (session_key turn) ≡ found
      → get (forget_session turn found c) (session_key turn) ≢ some turn.turn_id
  forget_drops none looked names = absurd (ground (arith, looked, names))
  forget_drops (some f) looked names =
      let own =
        id_some-inj (sym looked ∙ forget_some (some f) (session_key turn) turn.turn_id names) in
      (get-remove-some c.session_turns (session_key turn) (session_key turn) turn.turn_id (
          subst
            (λ t.
              get (if t then remove c.session_turns (session_key turn) else c.session_turns)
                (session_key turn)
              ≡ some turn.turn_id)
            ((string_eq.beq_iff f turn.turn_id).1 own) names)).0
        refl

-- `_unregister` of a turn that is active.
pub unregister-IsLive :
    (c : AsyncTurnCoordinator) (turn : ConversationTurn) (old : ActiveTurn)
    → get c.active turn.turn_id ≡ some old
    → session_key turn ≡ session_key old.turn
    → IsLive c.active c.session_turns
    → IsLive (unregister turn c).active (unregister turn c).session_turns
unfolding unregister
unregister-IsLive c turn old here same_key l = record {
  named = λ id b at. l.named id b (get-remove-some c.active turn.turn_id id b at).1;
  owned = λ id b at uncancelled.
      let (other, before) = get-remove-some c.active turn.turn_id id b at in
      forget_keeps c turn (get c.session_turns (session_key turn)) (session_key b.turn) id refl
        (l.owned id b before uncancelled) other;
  listed = λ key id names.
      let (b, at, owner) =
        l.listed key id
          (forget_some c turn (get c.session_turns (session_key turn)) key id names) in
      elim (eq-cases turn.turn_id id) [
        | inr other ↦ (b, get-remove_ne c.active turn.turn_id id other ∙ at, owner)
        | inl same ↦
            let key_here : session_key turn ≡ key =
              same_key
              ∙ ap session_key
                  (ap (λ x. x.turn) (some-inj (sym here ∙ ap (get c.active) same ∙ at)))
              ∙ owner in
            absurd (
              forget_drops c turn (get c.session_turns (session_key turn)) refl (
                ap (get (forget_session turn (get c.session_turns (session_key turn)) c)) key_here
                ∙ names
                ∙ ap some (sym same)))
      ];
}
