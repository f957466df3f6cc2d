-- ===== src/Queue/Examples.antt =====
-- The theorems on the queue at items that are their own keys.
use vmclarity.Prelude.{String, ◌≡◌, refl, true, false, some, List, [], ◌∷◌}
use vmclarity.Queue.Keys.{has, insert, delete}
use vmclarity.Queue.{Queue, new_queue, dequeue, dequeue_from, enqueue, enqueue_after, known}
use vmclarity.Queue.Valid.{IsValid, keys, new_queue-IsValid, enqueue-IsValid}
use vmclarity.Queue.Spec.{Op, view, takes, spec_run, apply_all}
use vmclarity.Queue.Spec
use vmclarity.Queue.Spec.Refines.{run-refines}
use vmclarity.Queue.System.{
  System, Event, saw_empty, waits, enqueues, delays, fires, starts, blocks, wakes, finishes,
  requeues, start, run,
}
use vmclarity.Queue.System.Reach.{Inv, run-start-Inv}
use vmclarity.Queue.System.Wakeup.{lost_wakeup}
use vmclarity.Queue.System.Handover.{dequeue_exclusive}

abbrev key : String → String
key item = item

abbrev busy_day : List (Event String)
busy_day =
    starts
    ∷ blocks
    ∷ enqueues "a"
    ∷ wakes
    ∷ delays "b"
    ∷ requeues
    ∷ fires "b"
    ∷ starts
    ∷ finishes
    ∷ fires "a"
    ∷ starts
    ∷ []

run-start-Inv_example : Inv key (run key start busy_day)
run-start-Inv_example = run-start-Inv key busy_day

-- A reconciler that has seen the queue empty.
abbrev about_to_wait : System String
unfolding new_queue
about_to_wait = record { queue = new_queue; timers = []; consumer = saw_empty }

lost_wakeup_example :
    ((run key about_to_wait (enqueues "a" ∷ blocks ∷ [])).consumer ≡ waits)
    × ((run key about_to_wait (enqueues "a" ∷ blocks ∷ [])).queue.queue ≡ "a" ∷ [])
unfolding new_queue known has
lost_wakeup_example = lost_wakeup key about_to_wait "a" refl refl

abbrev one_item : Queue String
unfolding new_queue enqueue
one_item = (enqueue key "a" new_queue).0

one_item-IsValid : IsValid key one_item
unfolding one_item enqueue
one_item-IsValid = enqueue-IsValid key "a" new_queue (new_queue-IsValid key)

abbrev in_processing : Queue String
in_processing = record { queue = []; inqueue = []; processing = "a" ∷ []; waiting = [] }

one_item_out : dequeue key one_item ≡ some ("a", in_processing)
unfolding one_item enqueue dequeue dequeue_from known has insert delete new_queue
one_item_out = refl

-- Another item comes, is handed out and is given back, and the key is refused twice.
abbrev meanwhile : List (Op String)
meanwhile =
    Spec.Op.enqueues "b"
    ∷ Spec.Op.enqueues "a"
    ∷ takes
    ∷ Spec.Op.finishes "b"
    ∷ Spec.Op.delays "a"
    ∷ []

dequeue_exclusive_example :
    let later = apply_all key meanwhile in_processing in
    (has "a" one_item.processing ≡ false)
    × (one_item.queue ≡ "a" ∷ [])
    × (has "a" later.processing ≡ true)
    × (enqueue key "a" later ≡ (later, false))
    × (enqueue_after key "a" later ≡ (later, false))
    × (has "a" (keys key later.queue) ≡ false)
dequeue_exclusive_example =
    dequeue_exclusive key one_item "a" "a" in_processing meanwhile one_item-IsValid one_item_out
      refl (tt, (tt, (tt, (refl, (tt, tt)))))

abbrev waiting_item : Queue String
unfolding new_queue enqueue_after
waiting_item = (enqueue_after key "a" new_queue).0

abbrev some_calls : List (Op String)
some_calls =
    Spec.Op.enqueues "a"
    ∷ Spec.Op.delays "b"
    ∷ takes
    ∷ Spec.Op.requeues "a"
    ∷ Spec.Op.fires "b"
    ∷ []

run-refines_example :
    view (apply_all key some_calls new_queue) ≡ spec_run key some_calls (view new_queue)
run-refines_example = run-refines key some_calls new_queue (new_queue-IsValid key)
