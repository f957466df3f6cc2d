-- ===== src/Queue/Valid.antt =====
-- What holds of a queue between two calls, and that every method keeps it.
use vmclarity.Prelude.{
  String, ◌≡◌, refl, true, false, ◌||◌, some, List, [], ◌∷◌, ◌++◌, map, arith, ◌=?◌, =?_iff,
  string_eq,
}
use vmclarity.Queue.Keys.{has, insert, delete, has-insert, has-delete}
use vmclarity.Queue.{
  Queue, new_queue, dequeue, known, enqueue, enqueue_after, fire, done, requeue_after,
}

module _ {T : Type 0} (hash : T → String) where
  abbrev pub keys : List T → List String
  keys = map hash

  abbrev pub Distinct : List T → Type 0
  Distinct [] = Unit {0}
  Distinct (x ∷ xs) = (has (hash x) (keys xs) ≡ false) × Distinct xs

  pub has-keys-snoc :
      (k : String) (xs : List T) (x : T)
      → has k (keys (xs ++ x ∷ [])) ≡ (has k (keys xs) || hash x =? k)
  unfolding has
  has-keys-snoc k [] x = ground arith
  has-keys-snoc k (y ∷ ys) x = ground (arith, has-keys-snoc k ys x)

  pub Distinct-snoc :
      (xs : List T) (x : T) → Distinct xs → has (hash x) (keys xs) ≡ false → Distinct (xs ++ x ∷ [])
  unfolding has
  Distinct-snoc [] x d h = (refl, tt)
  Distinct-snoc (y ∷ ys) x d h = (
    ground (arith, has-keys-snoc (hash y) ys x, =?_iff (hash x) (hash y), =?_iff (hash y) (hash x)),
    Distinct-snoc ys x d.1 (ground arith),
  )

  -- The set of queued keys is that of the slice, in which no key comes twice, and no key is at once
  -- queued and in processing, queued and waiting, or in processing and waiting.
  pub record IsValid (q : Queue T) : Type 0 where
    pub tracked : (k : String) → has k q.inqueue ≡ has k (keys q.queue)
    pub distinct : Distinct q.queue
    pub queued_apart :
        (k : String)
        → has k q.inqueue ≡ true
        → (has k q.processing ≡ false) × (has k q.waiting ≡ false)
    pub processed_apart : (k : String) → has k q.processing ≡ true → has k q.waiting ≡ false

  pub new_queue-IsValid : IsValid new_queue
  unfolding new_queue has
  new_queue-IsValid = record {
    tracked = λ k. refl;
    distinct = tt;
    queued_apart = λ k h. cc;
    processed_apart = λ k h. cc;
  }

  pub enqueue-IsValid : (x : T) (q : Queue T) → IsValid q → IsValid (enqueue hash x q).0
  unfolding enqueue known
  enqueue-IsValid x q v = record {
    tracked = λ k.
        ground (arith, v.tracked k, has-keys-snoc k q.queue x, has-insert (hash x) k q.inqueue);
    distinct = ground (arith, v.tracked (hash x), Distinct-snoc q.queue x v.distinct);
    queued_apart =
        λ k. ground (arith, v.queued_apart k, has-insert (hash x) k q.inqueue, =?_iff (hash x) k);
    processed_apart = λ k. ground (arith, v.processed_apart k);
  }

  pub dequeue-cases :
      (q : Queue T) (x : T) (q' : Queue T)
      → dequeue hash q ≡ some (x, q')
      → (rest : List T) × (q.queue ≡ x ∷ rest)
        × (q' ≡ record q {
          queue = rest;
          inqueue = delete (hash x) q.inqueue;
          processing = insert (hash x) q.processing;
        })
  unfolding dequeue
  dequeue-cases q x q' e = ground arith

  pub dequeue-IsValid :
      (q : Queue T) (x : T) (q' : Queue T) → dequeue hash q ≡ some (x, q') → IsValid q → IsValid q'
  unfolding has
  dequeue-IsValid q x q' e v =
      let (rest, s, e') = dequeue-cases q x q' e in
      let d : Distinct (x ∷ rest) = rw s at v.distinct in
      rw e' (record {
        tracked =
            λ k. ground (arith, v.tracked k, has-delete (hash x) k q.inqueue, =?_iff (hash x) k);
        distinct = d.1;
        queued_apart = λ k. ground (
          arith,
          v.tracked k,
          v.queued_apart k,
          has-delete (hash x) k q.inqueue,
          has-insert (hash x) k q.processing,
        );
        processed_apart = λ k. ground (
          arith,
          v.tracked k,
          v.processed_apart k,
          v.queued_apart k,
          has-insert (hash x) k q.processing,
          =?_iff (hash x) k,
        );
      })

  pub done-IsValid : (x : T) (q : Queue T) → IsValid q → IsValid (done hash x q)
  unfolding done
  done-IsValid x q v = record {
    tracked = v.tracked;
    distinct = v.distinct;
    queued_apart = λ k h. ground (arith, v.queued_apart k h, has-delete (hash x) k q.processing);
    processed_apart = λ k. ground (arith, v.processed_apart k, has-delete (hash x) k q.processing);
  }

  pub enqueue_after-IsValid : (x : T) (q : Queue T) → IsValid q → IsValid (enqueue_after hash x q).0
  unfolding enqueue_after known
  enqueue_after-IsValid x q v = record {
    tracked = λ k. ground (arith, v.tracked k);
    distinct = ground arith;
    queued_apart =
        λ k. ground (arith, v.queued_apart k, has-insert (hash x) k q.waiting, =?_iff (hash x) k);
    processed_apart = λ k.
        ground (arith, v.processed_apart k, has-insert (hash x) k q.waiting, =?_iff (hash x) k);
  }

  woken-IsValid :
      (x : T) (q : Queue T) → IsValid q → IsValid (record q { waiting = delete (hash x) q.waiting })
  woken-IsValid x q v = record {
    tracked = v.tracked;
    distinct = v.distinct;
    queued_apart = λ k h. ground (arith, v.queued_apart k h, has-delete (hash x) k q.waiting);
    processed_apart = λ k h. ground (arith, v.processed_apart k h, has-delete (hash x) k q.waiting);
  }

  pub fire-IsValid : (x : T) (q : Queue T) → IsValid q → IsValid (fire hash x q).0
  unfolding fire
  fire-IsValid x q v = enqueue-IsValid x _ (woken-IsValid x q v)

  pub requeue_after-IsValid : (x : T) (q : Queue T) → IsValid q → IsValid (requeue_after hash x q).0
  unfolding requeue_after done
  requeue_after-IsValid x q v = enqueue_after-IsValid x _ (done-IsValid x q v)
