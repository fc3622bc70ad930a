-- ===== src/Agents/Broadcaster.antt =====
-- The fan-out of lifecycle events (src/jarvis_brain/agents/agent_event_broadcaster.py). `E` is an
-- envelope, `N` a narration, and `sanitize` jarvis_platform's filter on an envelope. The loop of a
-- subscriber runs the calls that are scheduled on it in order, so a call is the change of its queue.
pub mod Newest
mod Examples
use jarvis_brain.Dict.{Dict, get, put, remove}
use jarvis_brain.Prelude.{
  String, ℕ, zero, suc, ◌+◌, ◌-◌, ◌*◌, ◌/◌, ◌%◌, ◌≤◌, ◌<◌, min, max, ◌≡◌, refl, sym, ap, ◌∙◌, subst,
  ◌≢◌, ◌↔◌, ◌⊎◌, inl, inr, Bool, true, false, not, ◌&&◌, ◌||◌, Option, none, some, List, [], ◌∷◌,
  ◌++◌, map, reverse, arith, ltb, leb, nat_beq, if◌then◌else◌, ltb→lt, lt→ltb, le→ltb, leb→le,
  le→leb, nat_beq_iff, Bool-cases, Option-cases, Eq, ◌==◌, nat_eq, string_eq, pair_eq, length, drop,
  last_n, keep, All, any, all, length-append, length-drop, length-last_n, contains, get_or, eq_iff,
  eq_refl, list_cases, last_n-last_n-append, last_n-short, drop-append, drop-drop, drop_at,
  drop-nil, ltb_asym, ltb_mono, dec_beq, dec_beq_iff, discrete_eq, unique, unique_from, is_subset,
  Mem, mem-cons_self, mem-cons_of_mem, all-Mem, contains-Mem, find, find-Mem, all_intro, keep-Mem,
  contains_of_Mem, All-Mem, append-eq-nil, unique-eq-nil, eq-cases, if-elim, contains-unique_from,
  mem_keep, mem_second, holds-prop, All-append, contains-keep, contains-unique_from_eq,
  none-contained,
}

module _ {E : Type 0} where
  -- `_enqueue_latest`: a full queue loses its oldest envelope first.
  unfoldable pub enqueue_latest : ℕ → List E → E → List E
  enqueue_latest size queue envelope =
      let room = if leb size (length queue) then drop 1 queue else queue in
      if ltb (length room) size then room ++ envelope ∷ [] else room

  unfoldable pub enqueue_each : ℕ → E → Dict String (List E) → Dict String (List E)
  enqueue_each size envelope [] = []
  enqueue_each size envelope ((id, queue) ∷ rest) =
      (id, enqueue_latest size queue envelope) ∷ enqueue_each size envelope rest

module _ (E N : Type 0) where
  pub record AgentEventBroadcaster : Type 0 where
    pub queue_size : ℕ
    pub max_recent_narrations : ℕ
    pub recent_narrations : List N
    pub subscribers : Dict String (List E)

  -- `__init__`
  unfoldable pub new_broadcaster : ℕ → ℕ → AgentEventBroadcaster
  new_broadcaster queue_size max_recent = record {
    queue_size = max 1 queue_size;
    max_recent_narrations = max 1 max_recent;
    recent_narrations = [];
    subscribers = [];
  }

  -- `subscribe`, whose new ID is an argument
  unfoldable pub subscribe : String → AgentEventBroadcaster → AgentEventBroadcaster
  subscribe id b = record b { subscribers = put b.subscribers id [] }

  unfoldable pub unsubscribe : String → AgentEventBroadcaster → AgentEventBroadcaster
  unsubscribe id b = record b { subscribers = remove b.subscribers id }

  unfoldable pub publish : (E → E) → E → AgentEventBroadcaster → AgentEventBroadcaster
  publish sanitize envelope b = record b {
    subscribers = enqueue_each b.queue_size (sanitize envelope) b.subscribers;
  }

  -- `publish_narration_for_event`, of the narration that was made, in its envelope
  unfoldable pub publish_narration :
      (E → E) → (N → E) → N → AgentEventBroadcaster → AgentEventBroadcaster
  publish_narration sanitize envelope_of narration b =
      publish sanitize (envelope_of narration) (record b {
        recent_narrations = last_n b.max_recent_narrations (b.recent_narrations ++ narration ∷ []);
      })

  unfoldable pub get_recent_narrations : ℕ → AgentEventBroadcaster → List N
  get_recent_narrations limit b =
      reverse (last_n (max 1 (min limit b.max_recent_narrations)) b.recent_narrations)

  -- Envelopes that are published one after another.
  unfoldable pub publish_all : (E → E) → List E → AgentEventBroadcaster → AgentEventBroadcaster
  publish_all sanitize [] b = b
  publish_all sanitize (envelope ∷ rest) b = publish_all sanitize rest (publish sanitize envelope b)
