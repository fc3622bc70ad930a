-- ===== src/Requests/Queue/Order.antt =====
-- First in, first out under every interleaving of producers and consumers
-- (src/jarvis_brain/requests/queues.py).
use mathlib.Core.List.{append_assoc, append-nil}
use jarvis_brain.Requests.Queue.{
  QueueOverflowStrategy, block, drop_oldest, drop_newest, raise, BoundedAsyncQueue, Outcome,
  returns, raises, waits, left, is_full, new_queue, task_done, get_nowait, put, resume_put, clear,
  store, count_accepted,
}
use jarvis_brain.Requests.Queue.Invariant.{IsBounded}
use jarvis_brain.Requests.Queue.Cases.{
  new_queue-IsNew, get_nowait_none, IsBalanced, taken_in, dropping, overflowed, put_cases,
  clear_lem, resume_put_room, get_nowait_some, task_done_some,
}
use jarvis_brain.Prelude.{
  ℕ, ◌-◌, ◌<◌, ◌≡◌, refl, sym, ap, ◌∙◌, inl, inr, Bool, true, false, some, List, [], ◌∷◌, ◌++◌,
  arith, ltb, if◌then◌else◌, Bool-cases, nat_eq, string_eq, pair_eq, length, drop, length-append,
  length-drop, list_cases,
}

-- One atomic step of a producer or a consumer. A consumer reports an item as done only after it got
-- one, which is the discipline of `asyncio.Queue.task_done`.
pub data Event {ℓ} (A : Type ℓ) : Type ℓ where
  puts resumes : A → ℕ → Event A
  takes reports clears : Event A

-- A queue with the items that its puts accepted and those that have left it, in order.
pub record Log {ℓ} (A : Type ℓ) : Type ℓ where
  pub queue : BoundedAsyncQueue A
  pub accepted : List A
  pub gone : List A

module _ {ℓ} {A : Type ℓ} where
  abbrev first : List A → List A
  first [] = []
  first (x ∷ rest) = x ∷ []

  -- The item that a put overwrites.
  abbrev overwritten : BoundedAsyncQueue A → List A
  overwritten q = if is_full q then first q.items else []

  abbrev logged_put : A → Log A → List A → Outcome A Bool → Log A
  logged_put item l lost (returns true q) = record {
    queue = q;
    accepted = l.accepted ++ item ∷ [];
    gone = l.gone ++ lost;
  }
  logged_put item l lost (returns false q) = record l { queue = q }
  logged_put item l lost (raises e q) = record l { queue = q }
  logged_put item l lost (waits q) = record l { queue = q }

  abbrev logged_take : Log A → Outcome A A → Log A
  logged_take l (returns x q) = record l { queue = q; gone = l.gone ++ x ∷ [] }
  logged_take l (raises e q) = record l { queue = q }
  logged_take l (waits q) = record l { queue = q }

  unfoldable pub log_step : Log A → Event A → Log A
  log_step l (puts item elapsed) =
      logged_put item l (overwritten l.queue) (put item elapsed l.queue)
  log_step l (resumes item elapsed) = logged_put item l [] (resume_put item elapsed l.queue)
  log_step l takes = logged_take l (get_nowait l.queue)
  log_step l reports =
      if ltb (length l.queue.items) l.queue.unfinished
      then record l { queue = left (task_done l.queue) }
      else l
  log_step l clears = record l { queue = left (clear l.queue); gone = l.gone ++ l.queue.items }

  unfoldable pub log_run : Log A → List (Event A) → Log A
  log_run l [] = l
  log_run l (e ∷ later) = log_run (log_step l e) later

  record IsFifo (l : Log A) : Type ℓ where
    bounded : IsBounded l.queue
    balanced : IsBalanced l.queue
    in_order : l.gone ++ l.queue.items ≡ l.accepted

  taken_in-IsFifo :
      (item : A) (elapsed : ℕ) (q : BoundedAsyncQueue A) (accepted gone : List A)
      → IsFifo (record { queue = q; accepted = accepted; gone = gone })
      → length q.items < q.maxsize
      → IsFifo (record {
        queue = taken_in item elapsed q;
        accepted = accepted ++ item ∷ [];
        gone = gone;
      })
  unfolding count_accepted
  taken_in-IsFifo item elapsed q accepted gone f room =
      let grown = length-append q.items (item ∷ []) in
      record {
        bounded = record {
          maxsize_positive = f.bounded.maxsize_positive;
          fits = omega (arith, grown);
          watermark = omega (arith, grown, f.bounded.watermark);
          watermark_reached = omega (arith, grown);
        };
        balanced = omega (arith, grown, f.balanced);
        in_order =
            sym (append_assoc gone q.items (item ∷ []))
            ∙ ap (λ (r : List A). r ++ item ∷ []) f.in_order;
      }

  -- The queue without its oldest item, which has been dropped.
  shortened-IsFifo :
      (q : BoundedAsyncQueue A) (accepted gone : List A)
      → IsFifo (record { queue = q; accepted = accepted; gone = gone })
      → IsFifo (record {
        queue = dropping (record q { items = drop 1 q.items; unfinished = q.unfinished - 1 });
        accepted = accepted;
        gone = gone ++ first q.items;
      })
  shortened-IsFifo q accepted gone f = record {
    bounded = record {
      maxsize_positive = f.bounded.maxsize_positive;
      fits = omega (arith, length-drop 1 q.items, f.bounded.fits);
      watermark = f.bounded.watermark;
      watermark_reached = omega (arith, length-drop 1 q.items, f.bounded.watermark_reached);
    };
    balanced = omega (arith, length-drop 1 q.items, f.balanced);
    in_order =
        append_assoc gone (first q.items) (drop 1 q.items)
        ∙ ap (λ (r : List A). gone ++ r) (whole q.items)
        ∙ f.in_order;
  }
    where
      whole : (xs : List A) → first xs ++ drop 1 xs ≡ xs
      whole [] = refl
      whole (x ∷ rest) = refl

  full_put-IsFifo :
      (policy : QueueOverflowStrategy) (item : A) (elapsed : ℕ) (l : Log A)
      → IsFifo l
      → length l.queue.items ≡ l.queue.maxsize
      → IsFifo (logged_put item l (first l.queue.items) (overflowed policy item elapsed l.queue))
  full_put-IsFifo drop_oldest item elapsed l f full =
      taken_in-IsFifo item elapsed _ l.accepted _ (shortened-IsFifo l.queue l.accepted l.gone f)
        (omega (arith, length-drop 1 l.queue.items, f.bounded.maxsize_positive))
  full_put-IsFifo block item elapsed l f full = f
  full_put-IsFifo drop_newest item elapsed l f full = record {
    bounded = ground (arith, f.bounded);
    balanced = f.balanced;
    in_order = f.in_order;
  }
  full_put-IsFifo raise item elapsed l f full = f

  put-IsFifo :
      (item : A) (elapsed : ℕ) (l : Log A) → IsFifo l → IsFifo (log_step l (puts item elapsed))
  unfolding log_step
  put-IsFifo item elapsed l f = elim (Bool-cases (is_full l.queue)) [
    | inl full ↦
        rw (put_cases item elapsed l.queue f.bounded f.balanced, full)
          (full_put-IsFifo l.queue.overflow item elapsed l f (ground (arith, f.bounded.fits)))
    | inr room ↦
        rw (put_cases item elapsed l.queue f.bounded f.balanced, room, append-nil l.gone)
          (taken_in-IsFifo item elapsed l.queue l.accepted l.gone f (ground arith))
  ]

  resume-IsFifo :
      (item : A) (elapsed : ℕ) (l : Log A) → IsFifo l → IsFifo (log_step l (resumes item elapsed))
  unfolding log_step
  resume-IsFifo item elapsed l f = elim (Bool-cases (is_full l.queue)) [
    | inl full ↦ unfold resume_put store in rw full f
    | inr room ↦
        rw (resume_put_room item elapsed l.queue (ground arith), append-nil l.gone)
          (taken_in-IsFifo item elapsed l.queue l.accepted l.gone f (ground arith))
  ]

  take-IsFifo : (l : Log A) → IsFifo l → IsFifo (log_step l takes)
  unfolding log_step
  take-IsFifo l f = elim (list_cases l.queue.items) [
    | inl e ↦ rw (get_nowait_none l.queue e) f
    | inr (x, rest, e) ↦ rw (get_nowait_some l.queue x rest e) (record {
      bounded = ground (arith, f.bounded);
      balanced = omega (arith, f.balanced, ap length e);
      in_order =
          append_assoc l.gone (x ∷ []) rest ∙ ap (λ (r : List A). l.gone ++ r) (sym e) ∙ f.in_order;
    })
  ]

  report-IsFifo : (l : Log A) → IsFifo l → IsFifo (log_step l reports)
  unfolding log_step
  report-IsFifo l f = elim (Bool-cases (ltb (length l.queue.items) l.queue.unfinished)) [
    | inl owed ↦
        rw (owed, task_done_some l.queue (ground arith))
          (record {
            bounded = ground (arith, f.bounded);
            balanced = ground (arith, f.balanced);
            in_order = f.in_order;
          })
    | inr settled ↦ rw settled f
  ]

  clear-IsFifo : (l : Log A) → IsFifo l → IsFifo (log_step l clears)
  unfolding log_step
  clear-IsFifo l f = rw (clear_lem l.queue f.balanced) (record {
    bounded = ground (arith, f.bounded);
    balanced = omega arith;
    in_order = append-nil (l.gone ++ l.queue.items) ∙ f.in_order;
  })

  log_run-IsFifo : (events : List (Event A)) (l : Log A) → IsFifo l → IsFifo (log_run l events)
  unfolding log_run
  log_run-IsFifo [] l f = f
  log_run-IsFifo (e ∷ later) l f = log_run-IsFifo later (log_step l e) (step e)
    where
      step : (e : Event A) → IsFifo (log_step l e)
      step (puts item elapsed) = put-IsFifo item elapsed l f
      step (resumes item elapsed) = resume-IsFifo item elapsed l f
      step takes = take-IsFifo l f
      step reports = report-IsFifo l f
      step clears = clear-IsFifo l f

  -- From a new queue, under every interleaving of puts, resumed puts, takes, reports and clears and
  -- whatever the policy: what has left the queue, followed by what is in it, is exactly what its puts
  -- accepted, in that order. Nothing is lost, duplicated or overtaken.
  pub log_run-fifo :
      (maxsize : ℕ) (overflow : QueueOverflowStrategy) (q : BoundedAsyncQueue A)
      (events : List (Event A))
      → new_queue maxsize overflow ≡ some q
      → (let l = log_run (record { queue = q; accepted = []; gone = [] }) events in
          l.gone ++ l.queue.items ≡ l.accepted)
  log_run-fifo maxsize overflow q events e =
      let new = new_queue-IsNew maxsize overflow q e in
      (log_run-IsFifo events _ (record {
        bounded = new.bounded;
        balanced = omega (arith, ap length new.no_items);
        in_order = new.no_items;
      })).in_order
