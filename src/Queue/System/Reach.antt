-- ===== src/Queue/System/Reach.antt =====
-- What holds of the queue, its timers and the reconciler after any events.
use vmclarity.Prelude.{
  String, ◌≡◌, refl, ◌≢◌, Bool, true, false, ◌||◌, Option, none, some, List, [], ◌∷◌, ◌++◌, arith,
  ◌=?◌, =?_iff, string_eq, if◌then◌else◌, Option-cases, Bool-cases, inl, inr,
}
use vmclarity.Queue.Keys.{has, delete, has-insert, has-delete}
use vmclarity.Queue.{Queue, dequeue, enqueue, enqueue_after, fire, done, requeue_after, known}
use vmclarity.Queue.Valid.{
  keys, Distinct, IsValid, has-keys-snoc, Distinct-snoc, dequeue-cases, new_queue-IsValid,
  enqueue-IsValid, dequeue-IsValid, done-IsValid, enqueue_after-IsValid, fire-IsValid,
  requeue_after-IsValid,
}
use vmclarity.Queue.System.{
  System, Consumer, free, holds, saw_empty, waits, woken, panicked, Event, enqueues, delays, fires,
  starts, blocks, wakes, cancels, finishes, requeues, start, handed, started, find_timer,
  on_enqueue, on_delay, on_fire, on_start, on_requeue, on_consumer, step, run,
}

module _ {T : Type 0} (hash : T → String) where
  -- The key of the item that the reconciler holds.
  abbrev pub holding : Consumer T → String → Bool
  holding (holds x) k = hash x =? k
  holding _ k = false

  -- Each sleeping goroutine has a key of `waitingForEnqueue` of its own, the processing set holds the
  -- reconciler's item and no other, and Dequeue finds an item when it has been notified.
  pub record Inv (s : System T) : Type 0 where
    pub valid : IsValid hash s.queue
    pub sleeping : (k : String) → has k s.queue.waiting ≡ has k (keys hash s.timers)
    pub lone : Distinct hash s.timers
    pub held : (k : String) → has k s.queue.processing ≡ holding s.consumer k
    pub ready : s.consumer ≡ woken → s.queue.queue ≢ []
    pub running : s.consumer ≢ panicked

  start-Inv : Inv start
  unfolding start has
  start-Inv = record {
    valid = new_queue-IsValid hash;
    sleeping = λ k. refl;
    lone = tt;
    held = λ k. refl;
    ready = λ e. cc;
    running = λ e. cc;
  }

  snoc_ne {ℓ} : {A : Type ℓ} (xs : List A) (x : A) → (xs ++ x ∷ []) ≢ []
  snoc_ne [] x e = cc
  snoc_ne (y ∷ ys) x e = cc

  on_enqueue-Inv : (x : T) (s : System T) → Inv s → Inv (on_enqueue hash x s)
  unfolding on_enqueue enqueue
  on_enqueue-Inv x s v = record {
    valid = enqueue-IsValid hash x s.queue v.valid;
    sleeping = λ k. ground (arith, v.sleeping k);
    lone = v.lone;
    held = λ k. ground (arith, v.held k);
    ready = λ e. ground (arith, snoc_ne s.queue.queue x);
    running = ground arith;
  }

  started-keys :
      (b : Bool) (x : T) (xs : List T) (k : String)
      → has k (keys hash (started b x xs))
        ≡ (has k (keys hash xs) || (if b then hash x =? k else false))
  started-keys true x xs k = has-keys-snoc hash k xs x
  started-keys false x xs k = ground arith

  -- What `fire` leaves of the two other sets.
  fire-waiting : (x : T) (q : Queue T) → (fire hash x q).0.waiting ≡ delete (hash x) q.waiting
  unfolding fire enqueue
  fire-waiting x q = ground arith

  fire-processing : (x : T) (q : Queue T) → (fire hash x q).0.processing ≡ q.processing
  unfolding fire enqueue
  fire-processing x q = ground arith

  fire-empty :
      (x : T) (q : Queue T)
      → (fire hash x q).0.queue ≡ []
      → ((fire hash x q).1 ≡ false) × (q.queue ≡ [])
  unfolding fire enqueue
  fire-empty x q z = ground (arith, snoc_ne q.queue x)

  dequeue-none : (q : Queue T) → dequeue hash q ≡ none → q.queue ≡ []
  unfolding dequeue
  dequeue-none q e = ground arith

  on_delay-Inv : (x : T) (s : System T) → Inv s → Inv (on_delay hash x s)
  unfolding on_delay enqueue_after known
  on_delay-Inv x s v = record {
    valid = enqueue_after-IsValid hash x s.queue v.valid;
    sleeping = λ k. ground (
      arith,
      v.sleeping k,
      has-keys-snoc hash k s.timers x,
      has-insert (hash x) k s.queue.waiting,
    );
    lone = ground (arith, v.sleeping (hash x), Distinct-snoc hash s.timers x v.lone);
    held = λ k. ground (arith, v.held k);
    ready = λ e. ground (arith, v.ready e);
    running = v.running;
  }

  -- The goroutine that wakes has the key, and the others keep theirs.
  record Found (k : String) (xs : List T) (x : T) (rest : List T) : Type 0 where
    pub at : hash x ≡ k
    pub others : (j : String) → has j (keys hash xs) ≡ (hash x =? j || has j (keys hash rest))
    pub lone : Distinct hash (x ∷ rest)

  find_timer-Found :
      (k : String) (xs : List T) (x : T) (rest : List T)
      → Distinct hash xs
      → find_timer hash k xs ≡ some (x, rest)
      → Found k xs x rest
  unfolding find_timer has
  find_timer-Found k [] x rest d e = cc
  find_timer-Found k (y ∷ ys) x rest d e = elim (Bool-cases (hash y =? k)) [
    | inl hit ↦ found_here hit
    | inr miss ↦ elim (Option-cases (find_timer hash k ys)) [
      | inl nothing ↦ absurd (ground arith)
      | inr ((z, zs), later) ↦ found_later z zs miss later (find_timer-Found k ys z zs d.1 later)
    ]
  ]
    where
      found_here : (hash y =? k) ≡ true → Found k (y ∷ ys) x rest
      found_here hit = record {
        at = ground (arith, =?_iff (hash y) k);
        others = λ j. ground arith;
        lone = ground arith;
      }

      found_later :
          (z : T) (zs : List T)
          → (hash y =? k) ≡ false
          → find_timer hash k ys ≡ some (z, zs)
          → Found k ys z zs
          → Found k (y ∷ ys) x rest
      found_later z zs miss later f = record {
        at = ground (arith, f.at);
        others = λ j. ground (arith, f.others j);
        lone = ground (
          arith,
          f.at,
          f.others (hash y),
          f.lone,
          =?_iff (hash y) k,
          =?_iff (hash y) (hash z),
          =?_iff (hash z) (hash y),
        );
      }

  handed-Inv :
      (s : System T)
      → ((k : String) → has k s.queue.processing ≡ false)
      → s.queue.queue ≢ []
      → Inv s
      → Inv (handed s (dequeue hash s.queue))
  handed-Inv s idle some_left v = elim (Option-cases (dequeue hash s.queue)) [
    | inl nothing ↦ absurd (some_left (dequeue-none s.queue nothing))
    | inr ((x, q), e) ↦ rw e (handed_some x q e)
  ]
    where
      handed_some :
          (x : T) (q : Queue T)
          → dequeue hash s.queue ≡ some (x, q)
          → Inv (record s { queue = q; consumer = holds x })
      handed_some x q e =
          let (rest, _, e') = dequeue-cases hash s.queue x q e in
          record {
            valid = dequeue-IsValid hash s.queue x q e v.valid;
            sleeping = λ k. rw e' (v.sleeping k);
            lone = v.lone;
            held = λ k. rw e' (ground (arith, idle k, has-insert (hash x) k s.queue.processing));
            ready = λ e. cc;
            running = λ e. cc;
          }

  on_start-Inv :
      (s : System T) (xs : List T)
      → s.queue.queue ≡ xs
      → s.consumer ≡ free
      → Inv s
      → Inv (on_start hash s xs)
  unfolding on_start
  on_start-Inv s [] e c v = record {
    valid = v.valid;
    sleeping = v.sleeping;
    lone = v.lone;
    held = λ k. ground (arith, v.held k);
    ready = λ e. cc;
    running = λ e. cc;
  }
  on_start-Inv s (x ∷ xs) e c v = handed-Inv s (λ k. ground (arith, v.held k)) (λ z. cc (e, z)) v

  on_fire-Inv :
      (s : System T) (o : Option (T × List T)) (k : String)
      → find_timer hash k s.timers ≡ o
      → Inv s
      → Inv (on_fire hash s o)
  unfolding on_fire
  on_fire-Inv s none k e v = v
  on_fire-Inv s (some (x, rest)) k e v =
      let f = find_timer-Found k s.timers x rest v.lone e in
      record {
        valid = fire-IsValid hash x s.queue v.valid;
        sleeping = λ j. rw (fire-waiting x s.queue) (
            ground (
              arith,
              v.sleeping j,
              f.others j,
              f.lone,
              has-delete (hash x) j s.queue.waiting,
              =?_iff (hash x) j,
            ));
        lone = f.lone.1;
        held = λ j. rw (fire-processing x s.queue) (ground (arith, v.held j));
        ready = λ e z. ground (arith, fire-empty x s.queue z, v.ready);
        running = ground arith;
      }

  on_requeue-Inv : (x : T) (s : System T) → s.consumer ≡ holds x → Inv s → Inv (on_requeue hash x s)
  unfolding on_requeue requeue_after enqueue_after known
  on_requeue-Inv x s c v = record {
    valid = requeue_after-IsValid hash x s.queue v.valid;
    sleeping = λ k. ground (
      arith,
      v.sleeping k,
      has-keys-snoc hash k s.timers x,
      has-insert (hash x) k s.queue.waiting,
    );
    lone = ground (arith, v.sleeping (hash x), Distinct-snoc hash s.timers x v.lone);
    held = λ k. ground (arith, v.held k, has-delete (hash x) k s.queue.processing);
    ready = λ e. cc;
    running = λ e. cc;
  }

  on_consumer-Inv :
      (e : Event T) (c : Consumer T) (s : System T)
      → s.consumer ≡ c
      → Inv s
      → Inv (on_consumer hash e c s)
  unfolding on_consumer
  on_consumer-Inv starts free s e v = on_start-Inv s s.queue.queue refl e v
  on_consumer-Inv wakes woken s e v = handed-Inv s (λ k. ground (arith, v.held k)) (v.ready e) v
  on_consumer-Inv requeues (holds x) s e v = on_requeue-Inv x s e v
  on_consumer-Inv finishes (holds x) s e v = record {
    valid = done-IsValid hash x s.queue v.valid;
    sleeping = λ k. unfold done in v.sleeping k;
    lone = v.lone;
    held = λ k. unfold done in ground (arith, v.held k, has-delete (hash x) k s.queue.processing);
    ready = λ e. cc;
    running = λ e. cc;
  }
  on_consumer-Inv blocks saw_empty s e v = record {
    valid = v.valid;
    sleeping = v.sleeping;
    lone = v.lone;
    held = λ k. ground (arith, v.held k);
    ready = λ e. cc;
    running = λ e. cc;
  }
  on_consumer-Inv cancels waits s e v = record {
    valid = v.valid;
    sleeping = v.sleeping;
    lone = v.lone;
    held = λ k. ground (arith, v.held k);
    ready = λ e. cc;
    running = λ e. cc;
  }
  on_consumer-Inv _ _ s e v = v

  pub step-Inv : (e : Event T) (s : System T) → Inv s → Inv (step hash e s)
  unfolding step
  step-Inv (enqueues x) s v = on_enqueue-Inv x s v
  step-Inv (delays x) s v = on_delay-Inv x s v
  step-Inv (fires k) s v = on_fire-Inv s (find_timer hash k s.timers) k refl v
  step-Inv starts s v = on_consumer-Inv starts s.consumer s refl v
  step-Inv e s v = on_consumer-Inv e s.consumer s refl v

  run-Inv : (s : System T) (es : List (Event T)) → Inv s → Inv (run hash s es)
  unfolding run
  run-Inv s [] v = v
  run-Inv s (e ∷ es) v = run-Inv (step hash e s) es (step-Inv e s v)

  -- After any events from the start, the queue and its sets of keys agree, its timers and the item of
  -- the one reconciler are the ones that it tracks, and no Dequeue has indexed an empty slice.
  pub run-start-Inv : (es : List (Event T)) → Inv (run hash start es)
  run-start-Inv es = run-Inv start es start-Inv
