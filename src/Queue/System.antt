-- ===== src/Queue/System.antt =====
-- The queue of queue.go with what runs around it: the goroutines of EnqueueAfter, the producers, and
-- the one reconciler (reconciler.go) that dequeues, with the unbuffered channel `itemAdded`.
pub mod Reach
pub mod Wakeup
pub mod Handover
use vmclarity.Prelude.{
  String, Bool, true, false, ◌&&◌, Option, none, some, List, [], ◌∷◌, ◌++◌, ◌=?◌, string_eq,
  if◌then◌else◌,
}
use vmclarity.Queue.{Queue, new_queue, dequeue, enqueue, enqueue_after, fire, done, requeue_after}

-- Where the reconciler is: outside Dequeue without an item, outside it with one, behind the test of
-- the length and the unlock, at the `select`, or behind a received notification.
pub data Consumer (T : Type 0) : Type 0 where
  free : Consumer T
  holds : T → Consumer T
  saw_empty waits woken : Consumer T
  panicked : Consumer T

pub record System (T : Type 0) : Type 0 where
  pub queue : Queue T
  pub timers : List T
  pub consumer : Consumer T

-- `starts` is the call of Dequeue up to the `select`; `cancels` is `ctx.Done()`; `fires k` is the
-- end of the sleep of the goroutine with the item of key `k`.
pub data Event (T : Type 0) : Type 0 where
  enqueues delays : T → Event T
  fires : String → Event T
  starts blocks wakes cancels : Event T
  finishes requeues : Event T

unfoldable pub start : {T : Type 0} → System T
unfolding new_queue
start = record { queue = new_queue; timers = []; consumer = free }

-- The send on `itemAdded` succeeds only where the reconciler is at its receive.
abbrev pub announce : {T : Type 0} → Bool → Consumer T → Consumer T
announce true waits = woken
announce _ c = c

-- What Dequeue hands out, or the panic of `q.queue[0]`.
abbrev handed : {T : Type 0} → System T → Option (T × Queue T) → System T
handed s none = record s { consumer = panicked }
handed s (some (item, q)) = record s { queue = q; consumer = holds item }

abbrev started : {T : Type 0} → Bool → T → List T → List T
started true item timers = timers ++ item ∷ []
started false item timers = timers

module _ {T : Type 0} (hash : T → String) where
  pub find_timer : String → List T → Option (T × List T)
  find_timer k [] = none
  find_timer k (x ∷ xs) =
      let later = find_timer k xs in
      if hash x =? k
      then some (x, xs)
      else elim later [ none ↦ none | some (y, ys) ↦ some (y, x ∷ ys) ]

  on_enqueue : T → System T → System T
  on_enqueue item s =
      let (q, added) = enqueue hash item s.queue in
      record s { queue = q; consumer = announce added s.consumer }

  on_delay : T → System T → System T
  on_delay item s =
      let (q, spawned) = enqueue_after hash item s.queue in
      record s { queue = q; timers = started spawned item s.timers }

  on_fire : System T → Option (T × List T) → System T
  on_fire s none = s
  on_fire s (some (item, rest)) =
      let (q, added) = fire hash item s.queue in
      record s { queue = q; timers = rest; consumer = announce added s.consumer }

  on_start : System T → List T → System T
  on_start s [] = record s { consumer = saw_empty }
  on_start s (x ∷ xs) = handed s (dequeue hash s.queue)

  on_requeue : T → System T → System T
  on_requeue item s =
      let (q, spawned) = requeue_after hash item s.queue in
      record s { queue = q; timers = started spawned item s.timers; consumer = free }

  -- An event that cannot happen where the reconciler is changes nothing.
  on_consumer : Event T → Consumer T → System T → System T
  unfolding on_start on_requeue
  on_consumer starts free s = on_start s s.queue.queue
  on_consumer blocks saw_empty s = record s { consumer = waits }
  on_consumer cancels waits s = record s { consumer = free }
  on_consumer wakes woken s = handed s (dequeue hash s.queue)
  on_consumer finishes (holds item) s = record s { queue = done hash item s.queue; consumer = free }
  on_consumer requeues (holds item) s = on_requeue item s
  on_consumer _ _ s = s

  unfoldable pub step : Event T → System T → System T
  unfolding on_enqueue on_delay on_fire on_consumer find_timer
  step (enqueues item) s = on_enqueue item s
  step (delays item) s = on_delay item s
  step (fires k) s = on_fire s (find_timer k s.timers)
  step e s = on_consumer e s.consumer s

  unfoldable pub run : System T → List (Event T) → System T
  run s [] = s
  run s (e ∷ es) = run (step e s) es
