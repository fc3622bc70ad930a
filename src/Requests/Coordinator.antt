-- ===== src/Requests/Coordinator.antt =====
-- The life of the turns (src/jarvis_brain/requests/coordinator.py). No block under the lock awaits, so
-- the lock is free whenever it is asked for, and each function here is what a task does between two
-- awaits that can suspend it: the tasks of the turns interleave at these functions. The active entry of
-- a turn is the object that its task works on. A task ends after its turn has been unregistered, so the
-- task of an active turn is not done.
pub mod Steps
pub mod Live
pub mod Sessions
pub mod OneLive
pub mod Interleavings
pub mod Supersession
pub mod Endings
pub mod History
mod Examples
use jarvis_brain.Dict.{Dict, get, put, remove}
use jarvis_brain.Requests.Cancellation.{CancellationToken, cancel, raise_if_cancelled}
use jarvis_brain.Requests.Turn.{
  ConversationTurnState, ConversationTurnPriority, ConversationTurn, new_turn, next_sequence,
  TurnSnapshot, snapshot, TurnEventType, Metadata, TurnEvent, Callback,
}
use jarvis_brain.Prelude.{
  String, ℕ, zero, suc, ◌+◌, ◌-◌, ◌*◌, ◌/◌, ◌%◌, ◌≤◌, ◌<◌, min, max, ◌≡◌, refl, sym, ap, ◌∙◌, subst,
  ◌≢◌, ◌↔◌, ◌⊎◌, inl, inr, Bool, true, false, not, ◌&&◌, ◌||◌, Option, none, some, List, [], ◌∷◌,
  ◌++◌, map, reverse, arith, ltb, leb, nat_beq, if◌then◌else◌, ltb→lt, lt→ltb, le→ltb, leb→le,
  le→leb, nat_beq_iff, Bool-cases, Option-cases, Eq, ◌==◌, nat_eq, string_eq, pair_eq, length, drop,
  last_n, keep, All, any, all, length-append, length-drop, length-last_n, contains, get_or, eq_iff,
  eq_refl, list_cases, last_n-last_n-append, last_n-short, drop-append, drop-drop, drop_at,
  drop-nil, ltb_asym, ltb_mono, dec_beq, dec_beq_iff, discrete_eq, unique, unique_from, is_subset,
  Mem, mem-cons_self, mem-cons_of_mem, all-Mem, contains-Mem, find, find-Mem, all_intro, keep-Mem,
  contains_of_Mem, All-Mem, append-eq-nil, unique-eq-nil, eq-cases, if-elim, contains-unique_from,
}

-- Where the task of a turn is suspended: at the semaphore, in the context pipeline, in the processor.
pub data Phase : Type 0 where
  acquiring preparing processing : Phase

-- `_ActiveTurn`, with the place of its task
pub record ActiveTurn : Type 0 where
  pub turn : ConversationTurn
  pub task : ℕ
  pub phase : Phase

-- The attributes; `permits` is the value of the semaphore, `published` what the bus has got, `stopping`
-- the tasks that `task.cancel()` was called on, and `heard` the callbacks that cancellations ran.
pub record AsyncTurnCoordinator : Type 0 where
  pub has_bus : Bool
  pub permits : ℕ
  pub active : Dict String ActiveTurn
  pub session_turns : Dict (String × String) String
  pub history : List TurnSnapshot
  pub history_limit : ℕ
  pub published : List TurnEvent
  pub stopping : List ℕ
  pub heard : List (Callback × String)

-- `__init__`, with its `ValueError`
unfoldable pub new_coordinator : Bool → ℕ → ℕ → Option AsyncTurnCoordinator
new_coordinator has_bus max_active_turns history_limit =
    if ltb max_active_turns 1
    then none
    else some (record {
      has_bus = has_bus;
      permits = max_active_turns;
      active = [];
      session_turns = [];
      history = [];
      history_limit = history_limit;
      published = [];
      stopping = [];
      heard = [];
    })

abbrev pub session_key : ConversationTurn → String × String
session_key turn = (turn.user_id, turn.session_id)

-- Writes to the turn object are seen through its entry.
abbrev pub save : ActiveTurn → AsyncTurnCoordinator → AsyncTurnCoordinator
save a c = record c { active = put c.active a.turn.turn_id a }

abbrev pub event_of : ConversationTurn → TurnEventType → Metadata → TurnEvent
event_of turn event_type metadata = record {
  event_type = event_type;
  session_id = turn.session_id;
  user_id = turn.user_id;
  turn_id = turn.turn_id;
  sequence = turn.sequence;
  safe_metadata = metadata;
}

abbrev pub emit_if :
    Bool
    → ConversationTurn
    → TurnEventType
    → Metadata
    → AsyncTurnCoordinator
    → ConversationTurn × AsyncTurnCoordinator
emit_if false turn event_type metadata c = (turn, c)
emit_if true turn event_type metadata c = (
  next_sequence turn,
  record c { published = c.published ++ event_of (next_sequence turn) event_type metadata ∷ [] },
)

-- `_emit`, also `publish_event`: the turn with its next number, and the bus.
unfoldable pub emit :
    ConversationTurn
    → TurnEventType
    → Metadata
    → AsyncTurnCoordinator
    → ConversationTurn × AsyncTurnCoordinator
emit turn event_type metadata c = emit_if c.has_bus turn event_type metadata c

abbrev pub cancel_active :
    ℕ → String → ActiveTurn → AsyncTurnCoordinator → Bool × AsyncTurnCoordinator
cancel_active current reason a c =
    let called = cancel reason a.turn.cancellation in
    (
      called.answer,
      record (save (record a { turn = record a.turn { cancellation = called.token } }) c) {
        heard = c.heard ++ called.ran;
        stopping = if nat_beq a.task current then c.stopping else a.task ∷ c.stopping;
      },
    )

abbrev pub cancel_found :
    ℕ → String → Option ActiveTurn → AsyncTurnCoordinator → Bool × AsyncTurnCoordinator
cancel_found current reason none c = (false, c)
cancel_found current reason (some a) c = cancel_active current reason a c

-- `current` is the task that calls.
unfoldable pub cancel_turn :
    ℕ → String → String → AsyncTurnCoordinator → Bool × AsyncTurnCoordinator
cancel_turn current turn_id reason c = cancel_found current reason (get c.active turn_id) c

abbrev pub cancel_named :
    ℕ → String → Option String → AsyncTurnCoordinator → Bool × AsyncTurnCoordinator
cancel_named current reason none c = (false, c)
cancel_named current reason (some turn_id) c = cancel_turn current turn_id reason c

unfoldable pub cancel_session :
    ℕ → String → String → String → AsyncTurnCoordinator → Bool × AsyncTurnCoordinator
cancel_session current user_id session_id reason c =
    cancel_named current reason (get c.session_turns (user_id, session_id)) c

abbrev pub active_count : AsyncTurnCoordinator → ℕ
active_count c = length c.active

-- The turn that the session had is told to stop.
unfoldable pub supersede : ℕ → String × String → AsyncTurnCoordinator → AsyncTurnCoordinator
supersede current key c =
    (cancel_named current "superseded_by_new_turn" (get c.session_turns key) c).1

-- `_register`
unfoldable pub register : ConversationTurn → ℕ → AsyncTurnCoordinator → AsyncTurnCoordinator
register turn task c =
    let stopped = supersede task (session_key turn) c in
    record (save (record { turn = turn; task = task; phase = acquiring }) stopped) {
      session_turns = put stopped.session_turns (session_key turn) turn.turn_id;
    }

abbrev pub forget_session :
    ConversationTurn → Option String → AsyncTurnCoordinator → Dict (String × String) String
forget_session turn none c = c.session_turns
forget_session turn (some id) c =
    if id == turn.turn_id then remove c.session_turns (session_key turn) else c.session_turns

-- `_unregister`; the history is a deque of `history_limit` places.
unfoldable pub unregister : ConversationTurn → AsyncTurnCoordinator → AsyncTurnCoordinator
unregister turn c = record c {
  active = remove c.active turn.turn_id;
  session_turns = forget_session turn (get c.session_turns (session_key turn)) c;
  history = last_n c.history_limit (c.history ++ snapshot turn ∷ []);
}

-- How the block of `execute` ends: by its return, or by an exception.
pub data Ending : Type 0 where
  completes times_out is_cancelled : Ending
  crashes : String → Ending

-- What the `except` branches, or the end of the block, do to the turn, with the callbacks that ran.
unfoldable pub close : Ending → ConversationTurn → ConversationTurn × List (Callback × String)
close completes turn = (record turn { state = ConversationTurnState.completed }, [])
close times_out turn =
    let called = cancel "deadline_exceeded" turn.cancellation in
    (
      record turn {
        cancellation = called.token;
        state = ConversationTurnState.timed_out;
        failure_reason = some "deadline_exceeded";
      },
      called.ran,
    )
close is_cancelled turn =
    let called = cancel turn.cancellation.reason turn.cancellation in
    (
      record turn {
        cancellation = called.token;
        state = ConversationTurnState.cancelled;
        failure_reason = some called.token.reason;
      },
      called.ran,
    )
close (crashes name) turn =
    (record turn { state = ConversationTurnState.failed; failure_reason = some name }, [])

abbrev pub last_event : Ending → TurnEventType
last_event completes = TurnEventType.turn_completed
last_event times_out = TurnEventType.turn_failed
last_event is_cancelled = TurnEventType.turn_cancelled
last_event (crashes name) = TurnEventType.turn_failed

-- The metrics of a completed turn are left out.
abbrev pub last_metadata : Ending → ConversationTurn → Metadata
last_metadata completes turn = []
last_metadata times_out turn = ("reason", "deadline_exceeded" ∷ []) ∷ []
last_metadata is_cancelled turn = ("reason", turn.cancellation.reason ∷ []) ∷ []
last_metadata (crashes name) turn = ("reason", name ∷ []) ∷ []

-- Leaving `async with self._semaphore`
abbrev pub release : Phase → ℕ → ℕ
release acquiring permits = permits
release preparing permits = permits + 1
release processing permits = permits + 1

-- The end of `execute`, from the exception or the return on, with its `finally`.
unfoldable pub finish : Ending → ActiveTurn → AsyncTurnCoordinator → AsyncTurnCoordinator
finish ending a c =
    let (closed, ran) = close ending a.turn in
    let (turn, told) = emit closed (last_event ending) (last_metadata ending closed) c in
    unregister turn (record told { permits = release a.phase c.permits; heard = c.heard ++ ran })

abbrev pub Continuation : Type 0
Continuation = ActiveTurn → AsyncTurnCoordinator → AsyncTurnCoordinator

abbrev pub unless_raised :
    Option String → ActiveTurn → Continuation → AsyncTurnCoordinator → AsyncTurnCoordinator
unless_raised none a go c = go a c
unless_raised (some reason) a go c = finish is_cancelled a c

-- `raise_if_cancelled()` in the block: the turn goes on, or ends as cancelled.
abbrev pub unless_cancelled :
    ActiveTurn → Continuation → AsyncTurnCoordinator → AsyncTurnCoordinator
unless_cancelled a go c = unless_raised (raise_if_cancelled a.turn.cancellation) a go c

abbrev pub start_new : ℕ → Option ConversationTurn → AsyncTurnCoordinator → AsyncTurnCoordinator
start_new task none c = c
start_new task (some turn) c =
    let (started, told) = emit turn TurnEventType.turn_started [] (register turn task c) in
    save (record { turn = started; task = task; phase = acquiring }) told

-- `execute` up to the semaphore, where `c` is unchanged by a `ValueError`.
unfoldable pub start_turn :
    String
    → String
    → ℕ
    → ConversationTurnPriority
    → String
    → ℕ
    → ℕ
    → AsyncTurnCoordinator
    → AsyncTurnCoordinator
start_turn user_id session_id timeout priority turn_id task now c =
    start_new task (new_turn session_id user_id timeout priority turn_id now) c

-- turn.state = …
abbrev pub set_state : ConversationTurnState → Continuation
set_state state a = save (record a { turn = record a.turn { state = state } })

-- The semaphore lets the turn in.
unfoldable pub acquire : ActiveTurn → AsyncTurnCoordinator → AsyncTurnCoordinator
acquire a c =
    unless_cancelled (record a { phase = preparing })
      (set_state ConversationTurnState.preparing_context) (record c { permits = c.permits - 1 })

-- The context pipeline has returned, with the names of its stages.
unfoldable pub take_context :
    List String
    → List String
    → List String
    → ActiveTurn
    → AsyncTurnCoordinator
    → AsyncTurnCoordinator
take_context ready timed_out failed a c =
    let (turn, told) =
      emit a.turn TurnEventType.context_update
        (("ready_stages", ready) ∷ ("timed_out_stages", timed_out) ∷ ("failed_stages", failed) ∷ [])
        c in
    unless_cancelled (record a { turn = turn; phase = processing })
      (set_state ConversationTurnState.running) told

-- The processor has returned.
unfoldable pub take_value : ActiveTurn → AsyncTurnCoordinator → AsyncTurnCoordinator
take_value a c = unless_cancelled a (finish completes) c
