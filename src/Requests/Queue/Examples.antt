-- ===== src/Requests/Queue/Examples.antt =====
-- Runs of the queue on small inputs.
use jarvis_brain.Requests.Queue.{QueueOverflowStrategy, drop_oldest, BoundedAsyncQueue, new_queue}
use jarvis_brain.Requests.Queue.Invariant.{
  IsBounded, QueueCall, puts, puts_nowait, gets, gets_nowait, done, clears, joins,
}
use jarvis_brain.Requests.Queue.Order.{Event, Log, log_run, log_run-fifo}
use jarvis_brain.Requests.Queue.Order
use jarvis_brain.Prelude.{
  ℕ, ◌≡◌, refl, some, List, [], ◌∷◌, ◌++◌, arith, nat_eq, string_eq, pair_eq,
}

abbrev two : QueueOverflowStrategy → BoundedAsyncQueue ℕ
two overflow = record {
  maxsize = 2;
  overflow = overflow;
  items = [];
  unfinished = 0;
  metrics = record { accepted = 0; dropped = 0; high_watermark = 0; wait_time = 0 };
}

two_new : (overflow : QueueOverflowStrategy) → new_queue 2 overflow ≡ some (two overflow)
unfolding new_queue
two_new overflow = refl

abbrev full : QueueOverflowStrategy → BoundedAsyncQueue ℕ
full overflow = record (two overflow) {
  items = 5 ∷ 6 ∷ [];
  unfinished = 2;
  metrics = record { accepted = 2; dropped = 0; high_watermark = 2; wait_time = 0 };
}

full-IsBounded : (overflow : QueueOverflowStrategy) → IsBounded (full overflow)
full-IsBounded overflow = omega arith

abbrev calls : List (QueueCall ℕ)
calls =
    puts 5 0 ∷ puts 6 0 ∷ puts 7 1 ∷ gets ∷ done ∷ puts_nowait 8 ∷ gets_nowait ∷ clears ∷ joins ∷ []

abbrev three : List (ℕ × ℕ)
three = (5, 0) ∷ (6, 0) ∷ (7, 0) ∷ []

abbrev events : List (Event ℕ)
events =
    Order.puts 5 0
    ∷ Order.puts 6 0
    ∷ Order.puts 7 0
    ∷ Order.takes
    ∷ Order.reports
    ∷ Order.clears
    ∷ []

log_run-fifo_example :
    (let l = log_run (record { queue = two drop_oldest; accepted = []; gone = [] }) events in
      l.gone ++ l.queue.items ≡ l.accepted)
log_run-fifo_example = log_run-fifo 2 drop_oldest (two drop_oldest) events (two_new drop_oldest)
