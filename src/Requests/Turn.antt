-- ===== src/Requests/Turn.antt =====
-- One turn of a conversation and its events
-- (src/jarvis_brain/requests/turn.py and events.py). Times are counted in ticks of one clock, and a
-- callback of a turn's token is known by a number. The code takes CancellationToken from
-- jarvis_platform.cancellation; its token is taken to behave as the one of
-- src/jarvis_brain/requests/cancellation.py does.
use jarvis_brain.Requests.Cancellation.{CancellationToken, new_token}
use jarvis_brain.Prelude.{
  String, ℕ, ◌+◌, Bool, ◌||◌, Option, none, some, List, nat_beq, if◌then◌else◌, Eq, ◌==◌, nat_eq,
  string_eq, pair_eq, discrete_eq,
}

pub data ConversationTurnState : Type 0 where
  created preparing_context running streaming : ConversationTurnState
  completed cancelled failed timed_out : ConversationTurnState

unfoldable pub turn_state_discrete : Discrete ConversationTurnState
turn_state_discrete = hlevel

instance abbrev pub turn_state_eq : Eq ConversationTurnState
turn_state_eq = discrete_eq turn_state_discrete

pub data ConversationTurnPriority : Type 0 where
  background normal interactive : ConversationTurnPriority

-- int(priority)
abbrev pub priority_value : ConversationTurnPriority → ℕ
priority_value background = 10
priority_value normal = 50
priority_value interactive = 100

abbrev pub Callback : Type 0
Callback = ℕ

pub record ConversationTurn : Type 0 where
  pub session_id : String
  pub user_id : String
  pub timeout_ticks : ℕ
  pub priority : ConversationTurnPriority
  pub turn_id : String
  pub created_at : ℕ
  pub deadline : ℕ
  pub state : ConversationTurnState
  pub sequence : ℕ
  pub cancellation : CancellationToken Callback
  pub failure_reason : Option String

-- `__init__` with `__post_init__`, where `none` is a `ValueError`; the ID and the time are new ones.
unfoldable pub new_turn :
    String → String → ℕ → ConversationTurnPriority → String → ℕ → Option ConversationTurn
new_turn session_id user_id timeout_ticks priority turn_id now =
    if session_id == "" || user_id == ""
    then none
    else if nat_beq timeout_ticks 0
    then none
    else some (record {
      session_id = session_id;
      user_id = user_id;
      timeout_ticks = timeout_ticks;
      priority = priority;
      turn_id = turn_id;
      created_at = now;
      deadline = now + timeout_ticks;
      state = created;
      sequence = 0;
      cancellation = new_token;
      failure_reason = none;
    })

-- Its answer is the `sequence` of the turn that it leaves.
abbrev pub next_sequence : ConversationTurn → ConversationTurn
next_sequence turn = record turn { sequence = turn.sequence + 1 }

-- `snapshot`, before the values are printed
pub record TurnSnapshot : Type 0 where
  pub turn_id : String
  pub session_id : String
  pub user_id : String
  pub state : ConversationTurnState
  pub priority : ℕ
  pub created_at : ℕ
  pub deadline : ℕ
  pub sequence : ℕ
  pub was_cancelled : Bool
  pub failure_reason : Option String

unfoldable pub snapshot : ConversationTurn → TurnSnapshot
snapshot turn = record {
  turn_id = turn.turn_id;
  session_id = turn.session_id;
  user_id = turn.user_id;
  state = turn.state;
  priority = priority_value turn.priority;
  created_at = turn.created_at;
  deadline = turn.deadline;
  sequence = turn.sequence;
  was_cancelled = turn.cancellation.cancelled;
  failure_reason = turn.failure_reason;
}

pub data TurnEventType : Type 0 where
  turn_started turn_cancelled context_update response_delta sentence_ready : TurnEventType
  tts_chunk_ready playback_started playback_completed turn_completed turn_failed : TurnEventType

-- `safe_metadata`, as the texts that stand in it
abbrev pub Metadata : Type 0
Metadata = List (String × List String)

pub record TurnEvent : Type 0 where
  pub event_type : TurnEventType
  pub session_id : String
  pub user_id : String
  pub turn_id : String
  pub sequence : ℕ
  pub safe_metadata : Metadata
