-- ===== src/Queue.antt =====
-- orchestrator/common/queue.go: each method is the body that it runs under the mutex. A duration has
-- no effect of its own: what the goroutine of EnqueueAfter does once its time has passed is `fire`,
-- and when that happens is left open. The channel `itemAdded` is in Queue/System.
mod Keys
pub mod Valid
pub mod Known
pub mod Spec
pub mod System
mod Examples
use Keys.{has, insert, delete}
use vmclarity.Prelude.{
  ℕ, String, Bool, true, false, ◌||◌, Option, none, some, List, [], ◌∷◌, ◌++◌, length,
  if◌then◌else◌,
}

-- `queue` is the slice, its head first; the maps are sets of keys.
pub record Queue (T : Type 0) : Type 0 where
  pub queue : List T
  pub inqueue : List String
  pub processing : List String
  pub waiting : List String

module _ {T : Type 0} where
  unfoldable pub new_queue : Queue T
  new_queue = record { queue = []; inqueue = []; processing = []; waiting = [] }

  -- The index 0 of an empty slice panics: `none`.
  dequeue_from : (T → String) → Queue T → List T → Option (T × Queue T)
  dequeue_from hash q [] = none
  dequeue_from hash q (item ∷ rest) = some (
    item,
    record q {
      queue = rest;
      inqueue = delete (hash item) q.inqueue;
      processing = insert (hash item) q.processing;
    },
  )

  -- The end of Dequeue, once an item has been seen or announced.
  pub dequeue : (T → String) → Queue T → Option (T × Queue T)
  unfolding dequeue_from
  dequeue hash q = dequeue_from hash q q.queue

module _ {T : Type 0} (hash : T → String) where
  -- Has: in the queue, in processing or waiting.
  pub known : String → Queue T → Bool
  known k q = has k q.inqueue || has k q.processing || has k q.waiting

  -- The Bool tells whether an item was added, which the code then tries to announce.
  pub enqueue : T → Queue T → Queue T × Bool
  unfolding known
  enqueue item q =
      if known (hash item) q
      then (q, false)
      else (record q { queue = q.queue ++ item ∷ []; inqueue = insert (hash item) q.inqueue }, true)

  -- The Bool tells whether a goroutine was started.
  pub enqueue_after : T → Queue T → Queue T × Bool
  unfolding known
  enqueue_after item q =
      if known (hash item) q
      then (q, false)
      else (record q { waiting = insert (hash item) q.waiting }, true)

  -- The goroutine of `enqueueAfter`, once its time has passed.
  pub fire : T → Queue T → Queue T × Bool
  unfolding enqueue
  fire item q = enqueue item (record q { waiting = delete (hash item) q.waiting })

  pub done : T → Queue T → Queue T
  done item q = record q { processing = delete (hash item) q.processing }

  pub requeue_after : T → Queue T → Queue T × Bool
  unfolding enqueue_after
  requeue_after item q =
      enqueue_after item (record q { processing = delete (hash item) q.processing })

  pub size : Queue T → ℕ
  size q = length q.queue

  pub processing_count : Queue T → ℕ
  processing_count q = length q.processing
