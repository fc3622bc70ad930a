-- ===== src/Requests/Queue.antt =====
-- The bounded queue with an overflow policy (src/jarvis_brain/requests/queues.py), over the
-- `asyncio.Queue` that it holds. A coroutine that has to wait is an outcome of its own, and is
-- resumed by another call. Waiting times are whole ticks of the performance counter.
pub mod Invariant
pub mod Cases
pub mod Newest
pub mod Order
mod Examples
use jarvis_brain.Prelude.{
  ℕ, zero, suc, ◌+◌, ◌-◌, ◌*◌, ◌/◌, ◌%◌, ◌≤◌, ◌<◌, min, max, String, ◌≡◌, refl, sym, ap, ◌∙◌, subst,
  ◌≢◌, ◌↔◌, ◌⊎◌, inl, inr, Bool, true, false, not, ◌&&◌, ◌||◌, Option, none, some, List, [], ◌∷◌,
  ◌++◌, map, reverse, arith, ltb, leb, nat_beq, if◌then◌else◌, ltb→lt, lt→ltb, le→ltb, leb→le,
  le→leb, nat_beq_iff, Bool-cases, Option-cases, Eq, ◌==◌, nat_eq, string_eq, pair_eq, length, drop,
  last_n, keep, All, any, all, length-append, length-drop, length-last_n, contains, get_or, eq_iff,
  eq_refl, list_cases, last_n-last_n-append, last_n-short, drop-append, drop-drop, drop_at,
  drop-nil, ltb_asym, ltb_mono, dec_beq, dec_beq_iff, discrete_eq, unique, unique_from, is_subset,
  Mem, mem-cons_self, mem-cons_of_mem, all-Mem, contains-Mem, find, find-Mem, all_intro, keep-Mem,
  contains_of_Mem, All-Mem, append-eq-nil, unique-eq-nil, eq-cases, if-elim,
}

pub data QueueOverflowStrategy : Type 0 where
  block drop_oldest drop_newest raise : QueueOverflowStrategy

pub data QueueError : Type 0 where
  queue_overflow queue_empty queue_full value_error : QueueError

pub record QueueMetrics : Type 0 where
  pub accepted : ℕ
  pub dropped : ℕ
  pub high_watermark : ℕ
  pub wait_time : ℕ

-- `items` and `unfinished` are the state of the `asyncio.Queue`.
pub record BoundedAsyncQueue {ℓ} (A : Type ℓ) : Type ℓ where
  pub maxsize : ℕ
  pub overflow : QueueOverflowStrategy
  pub items : List A
  pub unfinished : ℕ
  pub metrics : QueueMetrics
  pub open metrics use *

-- What a call comes to, with the queue that it leaves.
pub data Outcome {ℓ κ} (A : Type ℓ) (R : Type κ) : Type (ℓ ⊔ κ) where
  returns : R → BoundedAsyncQueue A → Outcome A R
  raises : QueueError → BoundedAsyncQueue A → Outcome A R
  waits : BoundedAsyncQueue A → Outcome A R

-- The queue when a call has returned, raised or been suspended.
abbrev pub left {ℓ κ} : {A : Type ℓ} {R : Type κ} → Outcome A R → BoundedAsyncQueue A
left (returns r q) = q
left (raises e q) = q
left (waits q) = q

abbrev pub Call {ℓ κ} : Type ℓ → Type κ → Type (ℓ ⊔ κ)
Call A R = BoundedAsyncQueue A → Outcome A R

infixl 5 ◌>>=◌ ◌>>◌
abbrev pub then_call {ℓ κ μ} :
    {A : Type ℓ} {R : Type κ} {S : Type μ} → Outcome A R → (R → Call A S) → Outcome A S
then_call (returns r q) f = f r q
then_call (raises e q) f = raises e q
then_call (waits q) f = waits q

abbrev pub ◌>>=◌ {ℓ κ μ} :
    {A : Type ℓ} {R : Type κ} {S : Type μ} → Call A R → (R → Call A S) → Call A S
◌>>=◌ m f q = then_call (m q) f

abbrev pub ◌>>◌ {ℓ κ μ} : {A : Type ℓ} {R : Type κ} {S : Type μ} → Call A R → Call A S → Call A S
m >> n = m >>= λ _. n

abbrev pub pure {ℓ κ} : {A : Type ℓ} {R : Type κ} → R → Call A R
pure r q = returns r q

module _ {ℓ} {A : Type ℓ} where
  abbrev pub qsize : BoundedAsyncQueue A → ℕ
  qsize q = length q.items

  -- `empty()`, and `full()` of the queue inside
  abbrev pub empty : BoundedAsyncQueue A → Bool
  empty q = nat_beq (qsize q) 0

  abbrev pub is_full : BoundedAsyncQueue A → Bool
  is_full q = leb q.maxsize (qsize q)

  -- `__init__`, with its `ValueError`
  unfoldable pub new_queue : ℕ → QueueOverflowStrategy → Option (BoundedAsyncQueue A)
  new_queue maxsize overflow =
      if ltb maxsize 1
      then none
      else some (record {
        maxsize = maxsize;
        overflow = overflow;
        items = [];
        unfinished = 0;
        metrics = record { accepted = 0; dropped = 0; high_watermark = 0; wait_time = 0 };
      })

  -- It raises `ValueError` when it is called too many times.
  unfoldable pub task_done : Call A (Unit {0})
  task_done q =
      if nat_beq q.unfinished 0
      then raises value_error q
      else returns tt (record q { unfinished = q.unfinished - 1 })

  -- The queue inside: `await put(item)` suspends while it is full, `put_nowait` raises.
  abbrev pub stored : A → BoundedAsyncQueue A → BoundedAsyncQueue A
  stored item q = record q { items = q.items ++ item ∷ []; unfinished = q.unfinished + 1 }

  unfoldable pub store : A → Call A (Unit {0})
  store item q = if is_full q then waits q else returns tt (stored item q)

  unfoldable pub store_nowait : A → Call A (Unit {0})
  store_nowait item q = if is_full q then raises queue_full q else returns tt (stored item q)

  unfoldable pub get_nowait : Call A A
  get_nowait q = elim q.items [
    | [] ↦ raises queue_empty q
    | x ∷ rest ↦ returns x (record q { items = rest })
  ]

  unfoldable pub get : Call A A
  get q = elim q.items [ [] ↦ waits q | x ∷ rest ↦ returns x (record q { items = rest }) ]

  unfoldable pub count_dropped : Call A (Unit {0})
  count_dropped q = returns tt (record q { metrics = record q.metrics { dropped = q.dropped + 1 } })

  -- The metrics after an item went in: `elapsed` is `perf_counter() - started`.
  unfoldable pub count_accepted : ℕ → Call A (Unit {0})
  count_accepted elapsed q = returns tt (record q {
    metrics = record q.metrics {
      accepted = q.accepted + 1;
      wait_time = q.wait_time + elapsed;
      high_watermark = max q.high_watermark (qsize q);
    };
  })

  -- `try: get_nowait(); task_done()`, `except QueueEmpty: pass`
  unfoldable pub discard_oldest : Call A (Unit {0})
  unfolding task_done
  discard_oldest q = elim q.items [
    | [] ↦ returns tt q
    | x ∷ rest ↦ task_done (record q { items = rest })
  ]

  -- What `put` does on a full queue: `false` makes it return False.
  unfoldable pub overflow_put : QueueOverflowStrategy → Call A Bool
  overflow_put drop_newest = do count_dropped; pure false
  overflow_put drop_oldest = do discard_oldest; count_dropped; pure true
  overflow_put raise = λ q. raises queue_overflow q
  overflow_put block = pure true

  unfoldable pub resume_put : A → ℕ → Call A Bool
  resume_put item elapsed = do store item; count_accepted elapsed; pure true

  -- The test of `full()` with the policy behind it.
  unfoldable pub make_room : Call A Bool
  make_room q = if is_full q then overflow_put q.overflow q else returns true q

  unfoldable pub finish_put : A → ℕ → Bool → Call A Bool
  finish_put item elapsed true = resume_put item elapsed
  finish_put item elapsed false = pure false

  unfoldable pub put : A → ℕ → Call A Bool
  put item elapsed = do goes_on ← make_room; finish_put item elapsed goes_on

  unfoldable pub overflow_put_nowait : QueueOverflowStrategy → Call A Bool
  overflow_put_nowait drop_newest = do count_dropped; pure false
  overflow_put_nowait drop_oldest = do discard_oldest; count_dropped; pure true
  overflow_put_nowait raise = λ q. raises queue_overflow q
  overflow_put_nowait block = λ q. raises queue_overflow q

  unfoldable pub make_room_nowait : Call A Bool
  make_room_nowait q = if is_full q then overflow_put_nowait q.overflow q else returns true q

  unfoldable pub finish_put_nowait : A → Bool → Call A Bool
  finish_put_nowait item true = do store_nowait item; count_accepted 0; pure true
  finish_put_nowait item false = pure false

  unfoldable pub put_nowait : A → Call A Bool
  put_nowait item = do goes_on ← make_room_nowait; finish_put_nowait item goes_on

  -- The loop of `clear`, one round for each item that is there; `cleared` is the local count.
  unfoldable pub clear_rounds : List A → ℕ → Call A ℕ
  clear_rounds [] cleared = pure cleared
  clear_rounds (x ∷ rest) cleared = do get_nowait; task_done; clear_rounds rest (cleared + 1)

  unfoldable pub clear : Call A ℕ
  clear q = clear_rounds q.items 0 q

  -- It waits until every item that went in has been accounted for.
  unfoldable pub join : Call A (Unit {0})
  join q = if nat_beq q.unfinished 0 then returns tt q else waits q
