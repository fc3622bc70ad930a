-- ===== src/Requests/Queue/Cases.antt =====
-- The outcome of a put and of a clear on every branch
-- (src/jarvis_brain/requests/queues.py).
use jarvis_brain.Requests.Queue.{
  QueueOverflowStrategy, block, drop_oldest, drop_newest, raise, BoundedAsyncQueue, returns, raises,
  waits, left, Call, then_call, is_full, task_done, store, count_dropped, count_accepted,
  discard_oldest, overflow_put, resume_put, put, stored, queue_overflow, make_room, finish_put,
  get_nowait, clear_rounds, clear, new_queue, queue_empty,
}
use jarvis_brain.Requests.Queue.Invariant.{IsBounded}
use jarvis_brain.Prelude.{
  ℕ, ◌+◌, ◌-◌, ◌≤◌, ◌<◌, ◌≡◌, refl, inl, inr, Bool, true, false, List, [], ◌∷◌, arith,
  if◌then◌else◌, Bool-cases, nat_eq, string_eq, pair_eq, length, drop, list_cases, ◌∙◌, some,
}

module _ {ℓ} {A : Type ℓ} where
  -- Every item that is in the queue still has its unfinished task.
  abbrev pub IsBalanced : BoundedAsyncQueue A → Type 0
  IsBalanced q = length q.items ≤ q.unfinished

  -- The queue after one more item has gone in.
  abbrev pub taken_in : A → ℕ → BoundedAsyncQueue A → BoundedAsyncQueue A
  taken_in item elapsed q = left (count_accepted elapsed (stored item q))

  abbrev pub dropping : BoundedAsyncQueue A → BoundedAsyncQueue A
  dropping q = record q { metrics = record q.metrics { dropped = q.dropped + 1 } }

  -- What a put on a full queue comes to.
  abbrev pub overflowed : QueueOverflowStrategy → A → ℕ → Call A Bool
  overflowed block item elapsed q = waits q
  overflowed drop_oldest item elapsed q = returns true (
      taken_in item elapsed
        (dropping (record q { items = drop 1 q.items; unfinished = q.unfinished - 1 })))
  overflowed drop_newest item elapsed q = returns false (dropping q)
  overflowed raise item elapsed q = raises queue_overflow q

  pub resume_put_room :
      (item : A) (elapsed : ℕ) (q : BoundedAsyncQueue A)
      → length q.items < q.maxsize
      → resume_put item elapsed q ≡ returns true (taken_in item elapsed q)
  unfolding resume_put store count_accepted
  resume_put_room item elapsed q room = ground arith

  -- The room that overwriting makes.
  discard_oldest_room :
      (q : BoundedAsyncQueue A) (x : A) (rest : List A)
      → q.items ≡ x ∷ rest
      → IsBalanced q
      → discard_oldest q
        ≡ returns tt (record q { items = drop 1 q.items; unfinished = q.unfinished - 1 })
  unfolding discard_oldest task_done
  discard_oldest_room q x rest e u = ground arith

  overwritten :
      (item : A) (elapsed : ℕ) (q : BoundedAsyncQueue A) (x : A) (rest : List A)
      → q.items ≡ x ∷ rest
      → length q.items ≤ q.maxsize
      → IsBalanced q
      → then_call (overflow_put drop_oldest q) (finish_put item elapsed)
        ≡ overflowed drop_oldest item elapsed q
  unfolding overflow_put count_dropped finish_put
  overwritten item elapsed q x rest e fits u = rw (discard_oldest_room q x rest e u) (
      resume_put_room item elapsed
        (dropping (record q { items = drop 1 q.items; unfinished = q.unfinished - 1 }))
        (ground arith))

  put_full :
      (policy : QueueOverflowStrategy) (item : A) (elapsed : ℕ) (q : BoundedAsyncQueue A)
      → IsBounded q
      → IsBalanced q
      → is_full q ≡ true
      → then_call (overflow_put policy q) (finish_put item elapsed)
        ≡ overflowed policy item elapsed q
  unfolding overflow_put count_dropped finish_put
  put_full drop_oldest item elapsed q b u full = elim (list_cases q.items) [
    | inl e ↦ absurd (ground arith)
    | inr (x, rest, e) ↦ overwritten item elapsed q x rest e b.fits u
  ]
  put_full block item elapsed q b u full = unfold resume_put store in rw full
  put_full drop_newest item elapsed q b u full = refl
  put_full raise item elapsed q b u full = refl

  -- `put` on every branch: with room the item goes in; on a full queue the policy decides, and only
  -- `block` waits and only `raise` raises, both with the queue untouched.
  pub put_cases :
      (item : A) (elapsed : ℕ) (q : BoundedAsyncQueue A)
      → IsBounded q
      → IsBalanced q
      → put item elapsed q ≡ (
          if is_full q
          then overflowed q.overflow item elapsed q
          else returns true (taken_in item elapsed q))
  unfolding put make_room finish_put
  put_cases item elapsed q b u = elim (Bool-cases (is_full q)) [
    | inl full ↦ rw full (put_full q.overflow item elapsed q b u full)
    | inr room ↦ rw room (resume_put_room item elapsed q (ground arith))
  ]

  pub get_nowait_some :
      (q : BoundedAsyncQueue A) (x : A) (rest : List A)
      → q.items ≡ x ∷ rest
      → get_nowait q ≡ returns x (record q { items = rest })
  unfolding get_nowait
  get_nowait_some q x rest e = ground arith

  pub task_done_some :
      (q : BoundedAsyncQueue A)
      → 0 < q.unfinished
      → task_done q ≡ returns tt (record q { unfinished = q.unfinished - 1 })
  unfolding task_done
  task_done_some q u = ground arith

  clear_rounds_lem :
      (rounds : List A) (cleared : ℕ) (q : BoundedAsyncQueue A)
      → q.items ≡ rounds
      → length rounds ≤ q.unfinished
      → clear_rounds rounds cleared q
        ≡ returns
            (cleared + length rounds)
            (record q { items = []; unfinished = q.unfinished - length rounds })
  unfolding clear_rounds
  clear_rounds_lem [] cleared q e u = ground arith
  clear_rounds_lem (x ∷ rest) cleared q e u =
      rw (get_nowait_some q x rest e, task_done_some (record q { items = rest }) (omega arith))
        (clear_rounds_lem rest (cleared + 1)
            (record q { items = rest; unfinished = q.unfinished - 1 }) refl (omega arith)
          ∙ ground arith)

  -- `clear` empties the queue, returns how many items it removed, takes exactly as many off the
  -- unfinished tasks, and never raises.
  pub clear_lem :
      (q : BoundedAsyncQueue A)
      → IsBalanced q
      → clear q
        ≡ returns
            (length q.items)
            (record q { items = []; unfinished = q.unfinished - length q.items })
  unfolding clear
  clear_lem q u = clear_rounds_lem q.items 0 q refl u ∙ ground arith

  pub record IsNew (maxsize : ℕ) (overflow : QueueOverflowStrategy) (q : BoundedAsyncQueue A)
      : Type ℓ where
    pub no_items : q.items ≡ []
    pub size : q.maxsize ≡ maxsize
    pub policy : q.overflow ≡ overflow
    pub none_accepted : q.accepted ≡ 0
    pub none_dropped : q.dropped ≡ 0
    pub none_unfinished : q.unfinished ≡ 0
    pub bounded : IsBounded q

  pub new_queue-IsNew :
      (maxsize : ℕ) (overflow : QueueOverflowStrategy) (q : BoundedAsyncQueue A)
      → new_queue maxsize overflow ≡ some q
      → IsNew maxsize overflow q
  unfolding new_queue
  new_queue-IsNew maxsize overflow q e = ground arith

  pub get_nowait_none :
      (q : BoundedAsyncQueue A) → q.items ≡ [] → get_nowait q ≡ raises queue_empty q
  unfolding get_nowait
  get_nowait_none q e = ground arith
