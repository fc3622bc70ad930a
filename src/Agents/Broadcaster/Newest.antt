-- ===== src/Agents/Broadcaster/Newest.antt =====
-- A subscriber that does not keep up sees the newest envelopes
-- (src/jarvis_brain/agents/agent_event_broadcaster.py).
use mathlib.Core.List.{append-nil, append_assoc}
use jarvis_brain.Dict.{Dict, get}
use jarvis_brain.Agents.Broadcaster.{
  AgentEventBroadcaster, enqueue_latest, enqueue_each, publish, publish_all,
}
use jarvis_brain.Prelude.{
  String, ℕ, ◌-◌, ◌≤◌, ◌<◌, ◌≡◌, refl, sym, ap, ◌∙◌, inl, inr, some, List, [], ◌∷◌, ◌++◌, map,
  arith, leb, lt→ltb, leb→le, Bool-cases, ◌==◌, nat_eq, string_eq, pair_eq, length, drop, last_n,
  length-append, length-drop, length-last_n, last_n-last_n-append, last_n-short, drop-append,
  drop_at,
}

module _ {E : Type 0} where
  enqueue_latest_lem :
      (size : ℕ) (queue : List E) (envelope : E)
      → 0 < size
      → length queue ≤ size
      → enqueue_latest size queue envelope ≡ last_n size (queue ++ envelope ∷ [])
  unfolding enqueue_latest
  enqueue_latest_lem size queue envelope some_room short =
      let both = queue ++ envelope ∷ [] in
      let longer = length-append queue (envelope ∷ []) in
      elim (Bool-cases (leb size (length queue))) [
        | inl full ↦ rw full (
            rw
              (lt→ltb (length (drop 1 queue)) size
                (omega (arith, length-drop 1 queue, some_room, short)))
              (sym (
                drop_at (length both - size) 1 both
                  (omega (arith, longer, short, leb→le size (length queue) full))
                ∙ drop-append 1 queue (envelope ∷ [])
                    (omega (arith, some_room, leb→le size (length queue) full)))))
        | inr room ↦ rw room (
            rw (lt→ltb (length queue) size (ground (arith, room)))
              (sym (last_n-short size both (ground (arith, room, longer)))))
      ]

  get-enqueue_each :
      (size : ℕ) (envelope : E) (d : Dict String (List E)) (id : String) (queue : List E)
      → get d id ≡ some queue
      → get (enqueue_each size envelope d) id ≡ some (enqueue_latest size queue envelope)
  unfolding get enqueue_each
  get-enqueue_each size envelope [] id queue e = absurd (ground (arith, e))
  get-enqueue_each size envelope ((j, q) ∷ d) id queue e = elim (Bool-cases (j == id)) [
    | inl same ↦
        let at : q ≡ queue = ground (arith, e, same) in
        ground (arith, same, ap {A = List E} (λ x. enqueue_latest size x envelope) at)
    | inr other ↦
        ground (arith, get-enqueue_each size envelope d id queue (ground (arith, e, other)), other)
  ]

module _ (E N : Type 0) (sanitize : E → E) where
  -- A subscriber that does not read finds the last `queue_size` of what it had and of the envelopes
  -- published since, in order: a full queue loses its oldest envelopes, whoever else subscribes.
  pub publish_all-last_n :
      (envelopes : List E) (b : AgentEventBroadcaster E N) (id : String) (queue : List E)
      → 0 < b.queue_size
      → length queue ≤ b.queue_size
      → get b.subscribers id ≡ some queue
      → get (publish_all E N sanitize envelopes b).subscribers id
        ≡ some (last_n b.queue_size (queue ++ map sanitize envelopes))
  unfolding publish_all publish
  publish_all-last_n [] b id queue some_room short e =
      e ∙ rw append-nil (ap some (sym (last_n-short b.queue_size queue short)))
  publish_all-last_n (envelope ∷ rest) b id queue some_room short e =
      let next = last_n b.queue_size (queue ++ sanitize envelope ∷ []) in
      publish_all-last_n rest (publish E N sanitize envelope b) id next some_room
        (omega (arith, length-last_n b.queue_size (queue ++ sanitize envelope ∷ [])))
        (get-enqueue_each b.queue_size (sanitize envelope) b.subscribers id queue e
          ∙ ap some (enqueue_latest_lem b.queue_size queue (sanitize envelope) some_room short))
      ∙ ap some (
          last_n-last_n-append b.queue_size (queue ++ sanitize envelope ∷ []) (map sanitize rest)
          ∙ rw append_assoc refl)
