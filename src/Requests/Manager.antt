-- ===== src/Requests/Manager.antt =====
-- The queues of the turns (src/jarvis_brain/requests/manager.py). The turns themselves are the
-- coordinator's; `A` is what the queues carry.
use jarvis_brain.Dict.{Dict, get, put, remove}
use jarvis_brain.Requests.Queue.{block, drop_oldest, BoundedAsyncQueue, new_queue}
use jarvis_brain.Prelude.{String, ℕ, ◌+◌, Option, none, some, nat_eq, string_eq, pair_eq}

pub record TurnQueues (A : Type 0) : Type 0 where
  pub audio : BoundedAsyncQueue A
  pub transcript : BoundedAsyncQueue A
  pub response : BoundedAsyncQueue A
  pub tts : BoundedAsyncQueue A

pub record ConversationRuntimeManager (A : Type 0) : Type 0 where
  pub queue_size : ℕ
  pub queues : Dict String (TurnQueues A)

module _ {A : Type 0} where
  abbrev pub made :
      Option (BoundedAsyncQueue A) → Option (BoundedAsyncQueue A) → Option (TurnQueues A)
  made (some lossy) (some lossless) =
      some (record { audio = lossy; transcript = lossless; response = lossless; tts = lossless })
  made (some lossy) none = none
  made none other = none

  -- Four new queues, or the `ValueError` of one of them.
  unfoldable pub turn_queues : ℕ → Option (TurnQueues A)
  turn_queues size = made (new_queue size drop_oldest) (new_queue size block)

  abbrev pub keep_queues :
      String
      → Option (TurnQueues A)
      → ConversationRuntimeManager A
      → Option (ConversationRuntimeManager A)
  keep_queues turn_id none m = none
  keep_queues turn_id (some queues) m = some (record m { queues = put m.queues turn_id queues })

  unfoldable pub create_queues :
      String → ConversationRuntimeManager A → Option (ConversationRuntimeManager A)
  create_queues turn_id m = keep_queues turn_id (turn_queues m.queue_size) m

  -- What the `finally` of `wrapped_processor` adds up, and what it leaves.
  abbrev pub queue_wait_time : TurnQueues A → ℕ
  queue_wait_time q =
      q.audio.wait_time + q.transcript.wait_time + q.response.wait_time + q.tts.wait_time

  unfoldable pub close_queues : String → ConversationRuntimeManager A → ConversationRuntimeManager A
  close_queues turn_id m = record m { queues = remove m.queues turn_id }

  unfoldable pub queues_for : String → ConversationRuntimeManager A → Option (TurnQueues A)
  queues_for turn_id m = get m.queues turn_id
