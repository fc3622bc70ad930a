-- ===== src/Requests/Queue/Invariant.antt =====
-- The bound of the queue under every history of calls (src/jarvis_brain/requests/queues.py).
use jarvis_brain.Requests.Queue.{
  BoundedAsyncQueue, drop_oldest, left, task_done, store, get_nowait, get, count_accepted,
  resume_put, put, put_nowait, clear, join, overflow_put, overflow_put_nowait, clear_rounds,
  new_queue, discard_oldest, QueueOverflowStrategy, count_dropped, store_nowait, Outcome, Call,
  then_call, returns, raises, waits, make_room, make_room_nowait, finish_put, finish_put_nowait,
}
use jarvis_brain.Prelude.{
  ℕ, ◌≤◌, ◌<◌, List, [], ◌∷◌, arith, nat_eq, string_eq, pair_eq, length, length-append, ◌+◌, ◌≡◌,
  some,
}

-- What a caller can do to the queue; a suspended put goes on by `resumes`.
pub data QueueCall {ℓ} (A : Type ℓ) : Type ℓ where
  puts resumes : A → ℕ → QueueCall A
  puts_nowait : A → QueueCall A
  gets gets_nowait done clears joins : QueueCall A

pub record IsBounded {ℓ} {A : Type ℓ} (q : BoundedAsyncQueue A) : Type 0 where
  pub maxsize_positive : 0 < q.maxsize
  pub fits : length q.items ≤ q.maxsize
  pub watermark : q.high_watermark ≤ q.maxsize
  pub watermark_reached : length q.items ≤ q.high_watermark

module _ {ℓ} {A : Type ℓ} where
  unfoldable pub step : BoundedAsyncQueue A → QueueCall A → BoundedAsyncQueue A
  step q (puts item elapsed) = left (put item elapsed q)
  step q (resumes item elapsed) = left (resume_put item elapsed q)
  step q (puts_nowait item) = left (put_nowait item q)
  step q gets = left (get q)
  step q gets_nowait = left (get_nowait q)
  step q done = left (task_done q)
  step q clears = left (clear q)
  step q joins = left (join q)

  unfoldable pub run : BoundedAsyncQueue A → List (QueueCall A) → BoundedAsyncQueue A
  run q [] = q
  run q (c ∷ later) = run (step q c) later

  get-IsBounded : {q : BoundedAsyncQueue A} → IsBounded q → IsBounded (left (get q))
  unfolding get
  get-IsBounded b = ground arith

  pub get_nowait-IsBounded :
      {q : BoundedAsyncQueue A} → IsBounded q → IsBounded (left (get_nowait q))
  unfolding get_nowait
  get_nowait-IsBounded b = ground arith

  pub task_done-IsBounded : {q : BoundedAsyncQueue A} → IsBounded q → IsBounded (left (task_done q))
  unfolding task_done
  task_done-IsBounded b = ground arith

  pub resume_put-IsBounded :
      (item : A) (elapsed : ℕ) {q : BoundedAsyncQueue A}
      → IsBounded q
      → IsBounded (left (resume_put item elapsed q))
  unfolding resume_put store count_accepted
  resume_put-IsBounded item elapsed {q} b = ground (arith, length-append q.items (item ∷ []))

  then_call-IsBounded {κ μ} :
      {R : Type κ} {S : Type μ} (o : Outcome A R) (f : R → Call A S)
      → IsBounded (left o)
      → ((r : R) (q : BoundedAsyncQueue A) → IsBounded q → IsBounded (left (f r q)))
      → IsBounded (left (then_call o f))
  then_call-IsBounded (returns r q) f b k = k r q b
  then_call-IsBounded (raises e q) f b k = b
  then_call-IsBounded (waits q) f b k = b

  discard_oldest-IsBounded :
      {q : BoundedAsyncQueue A} → IsBounded q → IsBounded (left (discard_oldest q))
  unfolding discard_oldest task_done
  discard_oldest-IsBounded b = ground arith

  overflow_put-IsBounded :
      (policy : QueueOverflowStrategy) {q : BoundedAsyncQueue A}
      → IsBounded q
      → IsBounded (left (overflow_put policy q))
  unfolding overflow_put count_dropped
  overflow_put-IsBounded drop_oldest {q} b =
      then_call-IsBounded (discard_oldest q) _ (discard_oldest-IsBounded b) λ _ q' b'. ground arith
  overflow_put-IsBounded _ b = ground arith

  overflow_put_nowait-IsBounded :
      (policy : QueueOverflowStrategy) {q : BoundedAsyncQueue A}
      → IsBounded q
      → IsBounded (left (overflow_put_nowait policy q))
  unfolding overflow_put_nowait count_dropped
  overflow_put_nowait-IsBounded drop_oldest {q} b =
      then_call-IsBounded (discard_oldest q) _ (discard_oldest-IsBounded b) λ _ q' b'. ground arith
  overflow_put_nowait-IsBounded _ b = ground arith

  pub put-IsBounded :
      (item : A) (elapsed : ℕ) {q : BoundedAsyncQueue A}
      → IsBounded q
      → IsBounded (left (put item elapsed q))
  unfolding put make_room finish_put
  put-IsBounded item elapsed {q} b =
      then_call-IsBounded (make_room q) (finish_put item elapsed)
        (ground (arith, overflow_put-IsBounded q.overflow b))
        λ goes_on q' b'. ground (arith, resume_put-IsBounded item elapsed b')

  put_nowait-IsBounded :
      (item : A) {q : BoundedAsyncQueue A} → IsBounded q → IsBounded (left (put_nowait item q))
  unfolding put_nowait make_room_nowait finish_put_nowait store_nowait count_accepted
  put_nowait-IsBounded item {q} b =
      then_call-IsBounded (make_room_nowait q) (finish_put_nowait item)
        (ground (arith, overflow_put_nowait-IsBounded q.overflow b))
        λ goes_on q' b'. ground (arith, length-append q'.items (item ∷ []))

  clear_rounds-IsBounded :
      (rounds : List A) (cleared : ℕ) (q : BoundedAsyncQueue A)
      → IsBounded q
      → IsBounded (left (clear_rounds rounds cleared q))
  unfolding clear_rounds get_nowait task_done
  clear_rounds-IsBounded [] cleared q b = b
  clear_rounds-IsBounded (x ∷ rest) cleared q b =
      then_call-IsBounded (get_nowait q) _ (get_nowait-IsBounded b) λ y q' b'.
        then_call-IsBounded (task_done q') _ (task_done-IsBounded b')
          λ _ q'' b''. clear_rounds-IsBounded rest (cleared + 1) q'' b''

  pub step-IsBounded :
      (c : QueueCall A) {q : BoundedAsyncQueue A} → IsBounded q → IsBounded (step q c)
  unfolding step clear join
  step-IsBounded (puts item elapsed) b = put-IsBounded item elapsed b
  step-IsBounded (resumes item elapsed) b = resume_put-IsBounded item elapsed b
  step-IsBounded (puts_nowait item) b = put_nowait-IsBounded item b
  step-IsBounded gets b = get-IsBounded b
  step-IsBounded gets_nowait b = get_nowait-IsBounded b
  step-IsBounded done b = task_done-IsBounded b
  step-IsBounded clears {q} b = clear_rounds-IsBounded q.items 0 q b
  step-IsBounded joins b = ground arith

  run-IsBounded :
      (calls : List (QueueCall A)) (q : BoundedAsyncQueue A) → IsBounded q → IsBounded (run q calls)
  unfolding run
  run-IsBounded [] q b = b
  run-IsBounded (c ∷ later) q b = run-IsBounded later (step q c) (step-IsBounded c b)

  -- A queue that could be built at all stays within its size under every history of calls, by any
  -- number of producers and consumers and whatever its policy, and its high watermark is a size that
  -- bounds the present one.
  pub new_queue-IsBounded :
      (maxsize : ℕ) (overflow : QueueOverflowStrategy) (q : BoundedAsyncQueue A)
      (calls : List (QueueCall A))
      → new_queue maxsize overflow ≡ some q
      → IsBounded (run q calls)
  unfolding new_queue
  new_queue-IsBounded maxsize overflow q calls e = run-IsBounded calls q (ground arith)
