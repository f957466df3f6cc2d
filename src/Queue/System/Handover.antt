-- ===== src/Queue/System/Handover.antt =====
-- What the queue promises for one item: it is handed out to one reconciler, in the order in which the
-- items came, and stays with it until it is given back.
use vmclarity.Prelude.{
  String, ◌≡◌, refl, ap, true, false, Option, none, some, List, [], ◌∷◌, All, arith, ◌=?◌, =?_iff,
  string_eq,
}
use vmclarity.Queue.Keys.{has, has-insert, has-delete}
use vmclarity.Queue.{Queue, dequeue, enqueue, enqueue_after, fire, done, requeue_after, known}
use vmclarity.Queue.Valid.{IsValid, keys, dequeue-cases, dequeue-IsValid}
use vmclarity.Queue.Spec.{
  Op, enqueues, delays, fires, finishes, requeues, takes, apply_op, apply_all, left_by,
}
use vmclarity.Queue.Spec.Refines.{apply_op-IsValid}

module _ {T : Type 0} (hash : T → String) where
  head_queued :
      (q : Queue T) (x : T) (rest : List T)
      → IsValid hash q
      → q.queue ≡ x ∷ rest
      → has (hash x) q.inqueue ≡ true
  unfolding has
  head_queued q x rest v e =
      ground (
        arith,
        v.tracked (hash x),
        ap (λ l. has (hash x) (keys hash l)) e,
        =?_iff (hash x) (hash x),
      )

  enqueue-known :
      (x : T) (q : Queue T) → known hash (hash x) q ≡ true → enqueue hash x q ≡ (q, false)
  unfolding enqueue
  enqueue-known x q k = rw k refl

  enqueue_after-known :
      (x : T) (q : Queue T) → known hash (hash x) q ≡ true → enqueue_after hash x q ≡ (q, false)
  unfolding enqueue_after
  enqueue_after-known x q k = rw k refl

  processing_known : (k : String) (q : Queue T) → has k q.processing ≡ true → known hash k q ≡ true
  unfolding known
  processing_known k q h = ground arith

  -- The call is neither Done nor RequeueAfter of an item with the key.
  abbrev pub Leaves : String → Op T → Type 0
  Leaves k (finishes z) = (hash z =? k) ≡ false
  Leaves k (requeues z) = (hash z =? k) ≡ false
  Leaves k _ = Unit {0}

  enqueue-processing : (x : T) (q : Queue T) → (enqueue hash x q).0.processing ≡ q.processing
  unfolding enqueue
  enqueue-processing x q = ground arith

  delay-processing : (x : T) (q : Queue T) → (enqueue_after hash x q).0.processing ≡ q.processing
  unfolding enqueue_after
  delay-processing x q = ground arith

  apply_op-processing :
      (k : String) (o : Op T) (q : Queue T)
      → Leaves k o
      → has k q.processing ≡ true
      → has k (apply_op hash o q).processing ≡ true
  unfolding apply_op fire requeue_after done
  apply_op-processing k (enqueues x) q l h = rw (enqueue-processing x q) h
  apply_op-processing k (delays x) q l h = rw (delay-processing x q) h
  apply_op-processing k (fires x) q l h = rw (enqueue-processing x _) h
  apply_op-processing k (finishes x) q l h = ground (arith, has-delete (hash x) k q.processing)
  apply_op-processing k (requeues x) q l h =
      rw (delay-processing x _) (ground (arith, has-delete (hash x) k q.processing))
  apply_op-processing k takes q l h = taken (dequeue hash q) refl
    where
      taken :
          (r : Option (T × Queue T))
          → dequeue hash q ≡ r
          → has k (left_by hash q r).processing ≡ true
      taken none e = h
      taken (some (x, q')) e =
          rw (dequeue-cases hash q x q' e).2 (ground (arith, has-insert (hash x) k q.processing))

  -- The queue stays valid, and the key in processing.
  between :
      (k : String) (os : List (Op T)) (q : Queue T)
      → IsValid hash q
      → All (Leaves k) os
      → has k q.processing ≡ true
      → IsValid hash (apply_all hash os q) × (has k (apply_all hash os q).processing ≡ true)
  unfolding apply_all
  between k [] q v l h = (v, h)
  between k (o ∷ os) q v (l, ls) h =
      between k os (apply_op hash o q) (apply_op-IsValid hash o q v) ls
        (apply_op-processing k o q l h)

  not_in_line :
      (k : String) (q : Queue T)
      → IsValid hash q
      → has k q.processing ≡ true
      → has k (keys hash q.queue) ≡ false
  not_in_line k q v h = ground (arith, v.tracked k, v.queued_apart k)

  -- Dequeue hands out the oldest item, whose key was not in processing and is now. Whatever calls follow,
  -- of which none is Done or RequeueAfter of an item of that key: the key is still in processing,
  -- neither Enqueue nor EnqueueAfter does anything for an item of the key, and none of the key is in the
  -- queue to be handed out.
  pub dequeue_exclusive :
      (q : Queue T) (x y : T) (q' : Queue T) (calls : List (Op T))
      → IsValid hash q
      → dequeue hash q ≡ some (x, q')
      → hash y ≡ hash x
      → All (Leaves (hash x)) calls
      → let later = apply_all hash calls q' in
        (has (hash x) q.processing ≡ false)
        × (q.queue ≡ x ∷ q'.queue)
        × (has (hash x) later.processing ≡ true)
        × (enqueue hash y later ≡ (later, false))
        × (enqueue_after hash y later ≡ (later, false))
        × (has (hash x) (keys hash later.queue) ≡ false)
  dequeue_exclusive q x y q' calls v e same leaves =
      let (rest, front, left) = dequeue-cases hash q x q' e in
      let taken : has (hash x) q'.processing ≡ true =
        rw left
          (ground (arith, has-insert (hash x) (hash x) q.processing, =?_iff (hash x) (hash x))) in
      let (valid, processed) =
        between (hash x) calls q' (dequeue-IsValid hash q x q' e v) leaves taken in
      let later = apply_all hash calls q' in
      (
        (v.queued_apart (hash x) (head_queued q x rest v front)).0,
        ground (arith, front, left),
        processed,
        enqueue-known y later (rw same (processing_known (hash x) later processed)),
        enqueue_after-known y later (rw same (processing_known (hash x) later processed)),
        not_in_line (hash x) later valid processed,
      )
