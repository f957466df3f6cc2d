-- ===== src/Queue/System/Wakeup.antt =====
-- When an Enqueue wakes the reconciler, and when it does not.
use vmclarity.Prelude.{String, ◌≡◌, true, false, [], ◌∷◌, ◌++◌, arith, string_eq}
use vmclarity.Queue.{dequeue, enqueue, known}
use vmclarity.Queue.System.{
  System, holds, saw_empty, waits, enqueues, blocks, wakes, on_enqueue, on_consumer, step, run,
}

module _ {T : Type 0} (hash : T → String) where
  -- A reconciler that waits in front of an empty queue is woken by the first new item, and takes it.
  pub enqueue_wakes :
      (s : System T) (x : T)
      → s.consumer ≡ waits
      → s.queue.queue ≡ []
      → known hash (hash x) s.queue ≡ false
      → (run hash s (enqueues x ∷ wakes ∷ [])).consumer ≡ holds x
  unfolding run step on_enqueue on_consumer enqueue dequeue
  enqueue_wakes s x c e u = ground arith

  -- An item that comes after the reconciler has seen the queue empty and before it waits is announced
  -- to nobody: the reconciler then waits in front of a queue that holds the item.
  pub lost_wakeup :
      (s : System T) (x : T)
      → s.consumer ≡ saw_empty
      → known hash (hash x) s.queue ≡ false
      → let t = run hash s (enqueues x ∷ blocks ∷ []) in
        (t.consumer ≡ waits) × (t.queue.queue ≡ s.queue.queue ++ x ∷ [])
  unfolding run step on_enqueue on_consumer enqueue
  lost_wakeup s x c u = ground arith

  -- Enqueueing what the queue knows does not wake it either.
  pub known_stays_asleep :
      (s : System T) (x : T)
      → s.consumer ≡ waits
      → known hash (hash x) s.queue ≡ true
      → step hash (enqueues x) s ≡ s
  unfolding step on_enqueue enqueue
  known_stays_asleep s x c k = ground arith
