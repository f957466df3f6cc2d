-- ===== src/Queue/Spec/Refines.antt =====
-- That the methods of queue.go implement the phases and the line of Queue/Spec.
use mathlib.Core.Path.{fun_ext}
use vmclarity.Prelude.{
  String, ◌≡◌, refl, ap, ◌∙◌, Option, none, some, List, [], ◌∷◌, arith, =?_iff, string_eq,
}
use vmclarity.Queue.Keys.{has-insert, has-delete}
use vmclarity.Queue.{
  Queue, dequeue, dequeue_from, known, enqueue, enqueue_after, fire, done, requeue_after,
}
use vmclarity.Queue.Valid.{
  IsValid, enqueue-IsValid, dequeue-IsValid, done-IsValid, enqueue_after-IsValid, fire-IsValid,
  requeue_after-IsValid,
}
use vmclarity.Queue.Spec.{
  Spec, Op, view, enqueues, delays, fires, finishes, requeues, takes, spec_enqueue, spec_delay,
  spec_fire, spec_finish, spec_requeue, spec_take, spec_step, spec_run, left_by, apply_op,
  apply_all,
}

module _ {T : Type 0} (hash : T → String) where
  left_by-IsValid :
      (q : Queue T) (r : Option (T × Queue T))
      → dequeue hash q ≡ r
      → IsValid hash q
      → IsValid hash (left_by hash q r)
  left_by-IsValid q none e v = v
  left_by-IsValid q (some (x, q')) e v = dequeue-IsValid hash q x q' e v

  pub apply_op-IsValid :
      (o : Op T) (q : Queue T) → IsValid hash q → IsValid hash (apply_op hash o q)
  unfolding apply_op
  apply_op-IsValid (enqueues x) q v = enqueue-IsValid hash x q v
  apply_op-IsValid (delays x) q v = enqueue_after-IsValid hash x q v
  apply_op-IsValid (fires x) q v = fire-IsValid hash x q v
  apply_op-IsValid (finishes x) q v = done-IsValid hash x q v
  apply_op-IsValid (requeues x) q v = requeue_after-IsValid hash x q v
  apply_op-IsValid takes q v = left_by-IsValid q (dequeue hash q) refl v

  -- Two specifications with the same phases and line.
  same : {s t : Spec T} → ((k : String) → s.phase k ≡ t.phase k) → s.line ≡ t.line → s ≡ t
  same h l i = record { phase = fun_ext h i; line = l i }

  -- From the head of the line `l`, whose key is queued.
  take-phase :
      (q : Queue T) (l : List T)
      → IsValid hash q
      → q.queue ≡ l
      → (k : String)
      → (view (left_by hash q (dequeue_from hash q l))).phase k
        ≡ (spec_take hash l (view q)).phase k
  unfolding dequeue_from spec_take
  take-phase q [] v e k = refl
  take-phase q (x ∷ rest) v e k = ground (
    arith,
    has-delete (hash x) k q.inqueue,
    has-insert (hash x) k q.processing,
    =?_iff (hash x) k,
  )

  -- The phase of `k` after each method, from whether `k` is the key that it is about.
  enqueue-phase :
      (x : T) (q : Queue T)
      → IsValid hash q
      → (k : String)
      → (view (enqueue hash x q).0).phase k
        ≡ (spec_enqueue hash x ((view q).phase (hash x)) (view q)).phase k
  unfolding enqueue known spec_enqueue
  enqueue-phase x q v k = ground (
    arith,
    v.tracked k,
    v.queued_apart k,
    v.queued_apart (hash x),
    has-insert (hash x) k q.inqueue,
    =?_iff (hash x) k,
  )

  fire-phase :
      (x : T) (q : Queue T)
      → IsValid hash q
      → (k : String)
      → (view (fire hash x q).0).phase k
        ≡ (spec_fire hash x ((view q).phase (hash x)) (view q)).phase k
  unfolding fire enqueue known spec_enqueue spec_fire
  fire-phase x q v k = ground (
    arith,
    v.queued_apart k,
    v.queued_apart (hash x),
    v.processed_apart (hash x),
    has-insert (hash x) k q.inqueue,
    has-delete (hash x) k q.waiting,
    has-delete (hash x) (hash x) q.waiting,
    =?_iff (hash x) k,
    =?_iff (hash x) (hash x),
  )

  delay-phase :
      (x : T) (q : Queue T)
      → IsValid hash q
      → (k : String)
      → (view (enqueue_after hash x q).0).phase k
        ≡ (spec_delay hash x ((view q).phase (hash x)) (view q)).phase k
  unfolding enqueue_after known spec_delay
  delay-phase x q v k = ground (arith, has-insert (hash x) k q.waiting, =?_iff (hash x) k)

  done-phase :
      (x : T) (q : Queue T)
      → IsValid hash q
      → (k : String)
      → (view (done hash x q)).phase k
        ≡ (spec_finish hash x ((view q).phase (hash x)) (view q)).phase k
  unfolding done spec_finish
  done-phase x q v k = ground (
    arith,
    v.queued_apart k,
    v.processed_apart k,
    has-delete (hash x) k q.processing,
    =?_iff (hash x) k,
  )

  requeue-phase :
      (x : T) (q : Queue T)
      → IsValid hash q
      → (k : String)
      → (view (requeue_after hash x q).0).phase k
        ≡ (spec_requeue hash x ((view q).phase (hash x)) (view q)).phase k
  unfolding requeue_after enqueue_after known spec_delay spec_requeue
  requeue-phase x q v k = ground (
    arith,
    v.queued_apart (hash x),
    v.processed_apart (hash x),
    has-delete (hash x) k q.processing,
    has-delete (hash x) (hash x) q.processing,
    has-insert (hash x) k q.waiting,
    =?_iff (hash x) k,
    =?_iff (hash x) (hash x),
  )

  enqueue-refines :
      (x : T) (q : Queue T)
      → IsValid hash q
      → view (enqueue hash x q).0 ≡ spec_enqueue hash x ((view q).phase (hash x)) (view q)
  unfolding enqueue known spec_enqueue
  enqueue-refines x q v = same (enqueue-phase x q v) (ground arith)

  fire-refines :
      (x : T) (q : Queue T)
      → IsValid hash q
      → view (fire hash x q).0 ≡ spec_fire hash x ((view q).phase (hash x)) (view q)
  unfolding fire enqueue known spec_enqueue spec_fire
  fire-refines x q v = same (fire-phase x q v) (
      ground (
        arith,
        v.queued_apart (hash x),
        v.processed_apart (hash x),
        has-delete (hash x) (hash x) q.waiting,
        =?_iff (hash x) (hash x),
      ))

  delay-refines :
      (x : T) (q : Queue T)
      → IsValid hash q
      → view (enqueue_after hash x q).0 ≡ spec_delay hash x ((view q).phase (hash x)) (view q)
  unfolding enqueue_after spec_delay
  delay-refines x q v = same (delay-phase x q v) (ground arith)

  done-refines :
      (x : T) (q : Queue T)
      → IsValid hash q
      → view (done hash x q) ≡ spec_finish hash x ((view q).phase (hash x)) (view q)
  unfolding done spec_finish
  done-refines x q v = same (done-phase x q v) (ground arith)

  requeue-refines :
      (x : T) (q : Queue T)
      → IsValid hash q
      → view (requeue_after hash x q).0 ≡ spec_requeue hash x ((view q).phase (hash x)) (view q)
  unfolding requeue_after enqueue_after spec_delay spec_requeue
  requeue-refines x q v = same (requeue-phase x q v) (ground arith)

  take-refines :
      (q : Queue T) (l : List T)
      → IsValid hash q
      → q.queue ≡ l
      → view (left_by hash q (dequeue_from hash q l)) ≡ spec_take hash l (view q)
  unfolding dequeue_from spec_take
  take-refines q l v e = same (take-phase q l v e) (ground arith)

  step-refines :
      (o : Op T) (q : Queue T)
      → IsValid hash q
      → view (apply_op hash o q) ≡ spec_step hash o (view q)
  unfolding apply_op spec_step dequeue
  step-refines (enqueues x) q v = enqueue-refines x q v
  step-refines (delays x) q v = delay-refines x q v
  step-refines (fires x) q v = fire-refines x q v
  step-refines (finishes x) q v = done-refines x q v
  step-refines (requeues x) q v = requeue-refines x q v
  step-refines takes q v = take-refines q q.queue v refl

  -- After any calls of its methods on a valid queue, the queue shows the phases and the line that the
  -- specification prescribes for the same calls: a method moves no key but that of its item, and that
  -- one only from the phase that the method is about, and items leave in the order in which they came.
  pub run-refines :
      (os : List (Op T)) (q : Queue T)
      → IsValid hash q
      → view (apply_all hash os q) ≡ spec_run hash os (view q)
  unfolding apply_all spec_run
  run-refines [] q v = refl
  run-refines (o ∷ os) q v =
      run-refines os (apply_op hash o q) (apply_op-IsValid o q v)
      ∙ ap (spec_run hash os) (step-refines o q v)
