-- ===== src/Requests/Coordinator/Sessions.antt =====
-- At most one live turn for each session, whatever the tasks do
-- (src/jarvis_brain/requests/coordinator.py).
use jarvis_brain.Dict.{get, get-put_ne, get-put_cases}
use jarvis_brain.Requests.Cancellation.{CancellationToken, Called, cancel, add_callback}
use jarvis_brain.Requests.Turn.{ConversationTurn, next_sequence, TurnEventType, Metadata, Callback}
use jarvis_brain.Requests.Coordinator.{
  ActiveTurn, AsyncTurnCoordinator, session_key, emit, event_of, cancel_active, cancel_turn,
  supersede, emit_if, cancel_found, cancel_named,
}
use jarvis_brain.Requests.Coordinator.Live.{IsLive, save-IsLive, id_some-inj}
use jarvis_brain.Prelude.{
  String, ℕ, ◌≡◌, refl, sym, ap, ◌∙◌, subst, ◌≢◌, inl, inr, Bool, true, false, not, Option, none,
  some, [], ◌∷◌, ◌++◌, arith, nat_eq, string_eq, pair_eq, if-elim,
}

abbrev pub Lively : AsyncTurnCoordinator → Type 0
Lively c = IsLive c.active c.session_turns

pub cancel-cancelled :
    (reason : String) (t : CancellationToken Callback) → (cancel reason t).token.cancelled ≡ true
unfolding cancel
cancel-cancelled reason t =
    if-elim (λ (r : Called Callback Bool). r.token.cancelled ≡ true) t.cancelled _ _ (λ on. on)
      (λ off. refl)

pub add_callback-cancelled :
    (callback : Callback) (t : CancellationToken Callback)
    → (add_callback callback t).token.cancelled ≡ t.cancelled
unfolding add_callback
add_callback-cancelled callback t =
    if-elim (λ (r : Called Callback (Unit {0})). r.token.cancelled ≡ t.cancelled) (not t.cancelled)
      _ _ (λ on. refl) (λ off. refl)

-- A property of what `_emit` gives holds if it does with a bus and without.
pub emit-elim {ℓ} :
    (P : ConversationTurn × AsyncTurnCoordinator → Type ℓ) (turn : ConversationTurn)
    (event_type : TurnEventType) (metadata : Metadata) (c : AsyncTurnCoordinator)
    → P (turn, c)
    → P (
      next_sequence turn,
      record c {
        published = c.published ++ event_of (next_sequence turn) event_type metadata ∷ [];
      },
    )
    → P (emit turn event_type metadata c)
unfolding emit
emit-elim P turn event_type metadata c quiet told = by_bus c.has_bus
  where
    by_bus : (bus : Bool) → P (emit_if bus turn event_type metadata c)
    by_bus true = told
    by_bus false = quiet

pub cancel_active-IsLive :
    (current : ℕ) (reason : String) (a : ActiveTurn) (c : AsyncTurnCoordinator)
    → get c.active a.turn.turn_id ≡ some a
    → Lively c
    → Lively (cancel_active current reason a c).1
cancel_active-IsLive current reason a c here l =
    save-IsLive c.active c.session_turns a _ here
      (record {
        same_id = refl;
        same_key = refl;
        stays_cancelled =
            λ off. absurd (ground (arith, off, cancel-cancelled reason a.turn.cancellation));
      })
      l

module _ (c : AsyncTurnCoordinator) (l : Lively c) where
  -- The entry of an active turn stands at the ID of the turn.
  pub at_own_id :
      (id : String) (a : ActiveTurn)
      → get c.active id ≡ some a
      → get c.active a.turn.turn_id ≡ some a
  at_own_id id a at = ap (get c.active) (l.named id a at) ∙ at

  pub cancel_found-IsLive :
      (current : ℕ) (id reason : String) (found : Option ActiveTurn)
      → get c.active id ≡ found
      → Lively (cancel_found current reason found c).1
  cancel_found-IsLive current id reason none e = l
  cancel_found-IsLive current id reason (some a) e =
      cancel_active-IsLive current reason a c (at_own_id id a e) l

  pub cancel_named-IsLive :
      (current : ℕ) (reason : String) (names : Option String)
      → Lively (cancel_named current reason names c).1
  unfolding cancel_turn
  cancel_named-IsLive current reason none = l
  cancel_named-IsLive current reason (some id) =
      cancel_found-IsLive current id reason (get c.active id) refl

-- What `_register` needs of the coordinator that it writes to: no live turn of the session, and a new ID.
pub record IsReady (turn : ConversationTurn) (c : AsyncTurnCoordinator) : Type 0 where
  pub lively : Lively c
  pub cleared :
      (id : String) (a : ActiveTurn)
      → get c.active id ≡ some a
      → a.turn.cancellation.cancelled ≡ false
      → session_key a.turn ≢ session_key turn
  pub fresh : get c.active turn.turn_id ≡ none

module _ (turn : ConversationTurn) (current : ℕ) (c : AsyncTurnCoordinator)
    (fresh : get c.active turn.turn_id ≡ none) (l : Lively c) where
  stopped-IsReady :
      (existing : String)
      → get c.session_turns (session_key turn) ≡ some existing
      → (a : ActiveTurn) → get c.active existing ≡ some a
      → IsReady turn (cancel_active current "superseded_by_new_turn" a c).1
  stopped-IsReady existing names a at =
      let here = at_own_id c l existing a at in
      let after = cancel_active-IsLive current "superseded_by_new_turn" a c here l in
      record {
        lively = after;
        cleared = λ id b found off same.
            let is_existing =
              id_some-inj
                (sym names ∙ ap (get c.session_turns) (sym same) ∙ after.owned id b found off) in
            elim (get-put_cases c.active a.turn.turn_id id _ b found) [
              | inl (own, new) ↦ ground (
                arith,
                off,
                ap (λ x. x.turn.cancellation.cancelled) new,
                cancel-cancelled "superseded_by_new_turn" a.turn.cancellation,
              )
              | inr (other, before) ↦ other (l.named existing a at ∙ is_existing)
            ];
        fresh =
            get-put_ne c.active a.turn.turn_id turn.turn_id _
              (λ same. absurd (ground (arith, fresh, sym (ap (get c.active) same) ∙ here)))
            ∙ fresh;
      }

  named-IsReady :
      (names : Option String)
      → get c.session_turns (session_key turn) ≡ names
      → IsReady turn (cancel_named current "superseded_by_new_turn" names c).1
  unfolding cancel_turn
  named-IsReady none e = record {
    lively = l;
    cleared = λ id a at off same.
        absurd (ground (arith, e, sym (ap (get c.session_turns) same) ∙ l.owned id a at off));
    fresh = fresh;
  }
  named-IsReady (some existing) e =
      let (a, at, owner) = l.listed (session_key turn) existing e in
      subst (λ f. IsReady turn (cancel_found current "superseded_by_new_turn" f c).1) (sym at)
        (stopped-IsReady existing e a at)

  pub supersede-IsReady : IsReady turn (supersede current (session_key turn) c)
  unfolding supersede
  supersede-IsReady = named-IsReady (get c.session_turns (session_key turn)) refl
