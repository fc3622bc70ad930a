-- ===== src/Conversation/Sessions.antt =====
-- The bounded context of conversations (src/jarvis_brain/conversation/manager.py and models.py): the
-- sessions, their eviction, and the turns that they keep. `B` is the brain that a session is given, and
-- `redact` the text that jarvis_platform's secret policy leaves. The turn itself, between the call of
-- `_context` and the two appends, is the coordinator's.
pub mod Recency
pub mod Kept
mod Examples
use Prim.Native.String.{count}
use jarvis_brain.Dict.{Dict, get, put, remove}
use jarvis_brain.Prelude.{
  String, ℕ, zero, suc, ◌+◌, ◌-◌, ◌*◌, ◌/◌, ◌%◌, ◌≤◌, ◌<◌, min, max, ◌≡◌, refl, sym, ap, ◌∙◌, subst,
  ◌≢◌, ◌↔◌, ◌⊎◌, inl, inr, Bool, true, false, not, ◌&&◌, ◌||◌, Option, none, some, List, [], ◌∷◌,
  ◌++◌, map, reverse, arith, ltb, leb, nat_beq, if◌then◌else◌, ltb→lt, lt→ltb, le→ltb, leb→le,
  le→leb, nat_beq_iff, Bool-cases, Option-cases, Eq, ◌==◌, nat_eq, string_eq, pair_eq, length, drop,
  last_n, keep, All, any, all, length-append, length-drop, length-last_n, contains, get_or, eq_iff,
  eq_refl, list_cases, last_n-last_n-append, last_n-short, drop-append, drop-drop, drop_at,
  drop-nil, ltb_asym, ltb_mono, dec_beq, dec_beq_iff, discrete_eq, unique, unique_from, is_subset,
  Mem, mem-cons_self, mem-cons_of_mem, all-Mem, contains-Mem, find, find-Mem, all_intro, keep-Mem,
  contains_of_Mem, All-Mem, append-eq-nil, unique-eq-nil, eq-cases, if-elim, contains-unique_from,
}

pub data ConversationRole : Type 0 where
  user assistant : ConversationRole

-- A turn that is kept; its time is left out.
pub record ConversationTurn : Type 0 where
  pub role : ConversationRole
  pub content : String

-- The model's bounds on `content`, where `none` is pydantic's `ValidationError`
unfoldable pub new_turn : ConversationRole → String → Option ConversationTurn
new_turn role content =
    if ltb (count content) 1 || ltb 8000 (count content)
    then none
    else some (record { role = role; content = content })

abbrev pub Key : Type 0
Key = String × String

pub record SessionContext (B : Type 0) : Type 0 where
  pub turns : List ConversationTurn
  pub brain : B

pub record ConversationManager (B : Type 0) : Type 0 where
  pub max_sessions : ℕ
  pub turns_per_session : ℕ
  pub sessions : Dict Key (SessionContext B)

-- `while len(…) > max_sessions: popitem(last=False)`
unfoldable pub evict {ℓ} : {A : Type ℓ} → ℕ → List A → List A
evict limit [] = []
evict limit (oldest ∷ rest) =
    let fewer = evict limit rest in
    if ltb limit (length (oldest ∷ rest)) then fewer else oldest ∷ rest

module _ {B : Type 0} where
  -- `__init__`, with its `ValueError`
  unfoldable pub new_manager : ℕ → ℕ → Option (ConversationManager B)
  new_manager max_sessions turns_per_session =
      if ltb max_sessions 1 || ltb turns_per_session 2
      then none
      else some (record {
        max_sessions = max_sessions;
        turns_per_session = turns_per_session;
        sessions = [];
      })

  -- `existing or _SessionContext(…)`: a context object is always true.
  abbrev pub existing_or_new : B → Option (SessionContext B) → SessionContext B
  existing_or_new fork none = record { turns = []; brain = fork }
  existing_or_new fork (some existing) = existing

  -- `_context`; `fork` is what `_conversation_brain()` gives.
  unfoldable pub context :
      Key → B → ConversationManager B → SessionContext B × ConversationManager B
  context key fork m =
      let found = existing_or_new fork (get m.sessions key) in
      (
        found,
        record m { sessions = evict m.max_sessions (remove m.sessions key ++ (key, found) ∷ []) },
      )

  -- context.turns.append(…), on a deque of `turns_per_session` places
  abbrev pub append_turn : ℕ → ConversationTurn → SessionContext B → SessionContext B
  append_turn limit turn c = record c { turns = last_n limit (c.turns ++ turn ∷ []) }

  unfoldable pub release : Key → ConversationManager B → ConversationManager B
  release key m = record m { sessions = remove m.sessions key }

  abbrev pub session_count : ConversationManager B → ℕ
  session_count m = length m.sessions

  abbrev pub update_found :
      Key
      → ConversationTurn
      → Option (SessionContext B)
      → ConversationManager B
      → ConversationManager B
  update_found key turn none m = m
  update_found key turn (some c) m = record m {
    sessions = put m.sessions key (append_turn m.turns_per_session turn c);
  }

  -- Each append builds its turn first, and raises if it cannot; a context that has been evicted in the
  -- meantime is no longer the session's.
  abbrev pub append_made :
      Key → Option ConversationTurn → ConversationManager B → Option (ConversationManager B)
  append_made key none m = none
  append_made key (some turn) m = some (update_found key turn (get m.sessions key) m)

  abbrev pub then_response :
      Key
      → String
      → ConversationManager B
      → Option (ConversationManager B)
      → Bool × ConversationManager B
  then_response key response m none = (false, m)
  then_response key response m (some kept) =
      elim (append_made key (new_turn assistant response) kept) [
        | none ↦ (false, kept)
        | some both ↦ (true, both)
      ]

  -- The end of `respond`: the redacted request, then the redacted response. `false` is a raised
  -- `ValidationError`, with what had been appended by then.
  unfoldable pub remember :
      (String → String)
      → Key
      → String
      → String
      → ConversationManager B
      → Bool × ConversationManager B
  remember redact key request response m =
      then_response key (redact response) m (append_made key (new_turn user (redact request)) m)
