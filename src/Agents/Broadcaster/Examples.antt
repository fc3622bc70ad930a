-- ===== src/Agents/Broadcaster/Examples.antt =====
-- A subscriber with room for two envelopes.
use jarvis_brain.Dict.{get}
use jarvis_brain.Agents.Broadcaster.{
  AgentEventBroadcaster, publish, publish_all, enqueue_latest, enqueue_each,
}
use jarvis_brain.Agents.Broadcaster.Newest.{publish_all-last_n}
use jarvis_brain.Prelude.{ℕ, ◌≡◌, refl, some, [], ◌∷◌, arith, nat_eq, string_eq, pair_eq, last_n}

abbrev subscribed : AgentEventBroadcaster ℕ ℕ
subscribed = record {
  queue_size = 2;
  max_recent_narrations = 1;
  recent_narrations = [];
  subscribers = ("a", 9 ∷ []) ∷ ("b", []) ∷ [];
}

subscribed-a : get subscribed.subscribers "a" ≡ some (9 ∷ [])
unfolding get
subscribed-a = refl

publish_all-last_n_example :
    get (publish_all ℕ ℕ (λ x. x) (1 ∷ 2 ∷ []) subscribed).subscribers "a"
    ≡ some (last_n 2 (9 ∷ 1 ∷ 2 ∷ []))
publish_all-last_n_example =
    publish_all-last_n ℕ ℕ (λ x. x) (1 ∷ 2 ∷ []) subscribed "a" (9 ∷ []) (omega arith) (omega arith)
      subscribed-a

oldest_lost :
    get (publish_all ℕ ℕ (λ x. x) (1 ∷ 2 ∷ []) subscribed).subscribers "a" ≡ some (1 ∷ 2 ∷ [])
unfolding publish_all publish enqueue_each enqueue_latest get
oldest_lost = refl
