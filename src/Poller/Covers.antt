-- ===== src/Poller/Covers.antt =====
-- What is in the queue after a poll (orchestrator/common/poller.go).

use vmclarity.Prelude.{
  ℕ, suc, ap, arith, String, ◌≡◌, refl, Bool, true, false, Option, none, some, List, [], ◌∷◌, All,
}
use vmclarity.Prelude.Int.{pos}
use vmclarity.Go.{Result, ok, err, panics, requeue_after}
use vmclarity.Queue.{Queue, enqueue, known}
use vmclarity.Queue.Known.{known-enqueue, enqueue-keeps}
use vmclarity.Queue.Valid.{IsValid, enqueue-IsValid, done-IsValid, requeue_after-IsValid}
use vmclarity.Poller.{events_of, list_events, enqueue_all, poll, after_reconcile}

module _ {T : Type 0} (hash : T → String) where
  enqueue_all-keeps :
      (xs : List T) (k : String) (q : Queue T)
      → known hash k q ≡ true
      → known hash k (enqueue_all hash xs q) ≡ true
  unfolding enqueue_all
  enqueue_all-keeps [] k q h = h
  enqueue_all-keeps (x ∷ xs) k q h =
      enqueue_all-keeps xs k (enqueue hash x q).0 (enqueue-keeps hash x k q h)

  enqueue_all-known :
      (xs : List T) (q : Queue T) → All (λ x. known hash (hash x) (enqueue_all hash xs q) ≡ true) xs
  unfolding enqueue_all
  enqueue_all-known [] q = tt
  enqueue_all-known (x ∷ xs) q = (
    enqueue_all-keeps xs (hash x) (enqueue hash x q).0 (known-enqueue hash x q),
    enqueue_all-known xs (enqueue hash x q).0,
  )

  enqueue_all-IsValid :
      (xs : List T) (q : Queue T) → IsValid hash q → IsValid hash (enqueue_all hash xs q)
  unfolding enqueue_all
  enqueue_all-IsValid [] q v = v
  enqueue_all-IsValid (x ∷ xs) q v =
      enqueue_all-IsValid xs (enqueue hash x q).0 (enqueue-IsValid hash x q v)

  answered : {x y : Queue T × Bool} → some x ≡ some y → IsValid hash x.0 → IsValid hash y.0
  answered {x} {y} h v = rw (← first h) v
    where
      first : some x ≡ some y → x ≡ y
      first e = cc e

  reconciled-IsValid :
      (item : T) (r : Result (Unit {0})) (q q' : Queue T) (started : Bool)
      → after_reconcile hash item r q ≡ some (q', started)
      → IsValid hash q
      → IsValid hash q'
  unfolding after_reconcile
  reconciled-IsValid item (ok u) q q' s h v = answered h (done-IsValid hash item q v)
  reconciled-IsValid item (err (requeue_after d)) q q' s h v =
      answered h (requeue_after-IsValid hash item q v)
  reconciled-IsValid item (err e) q q' s h v = answered h (done-IsValid hash item q v)
  reconciled-IsValid item panics q q' s h v = ground arith

  abbrev pub Holds : (String → Type 0) → Option T → Type 0
  Holds P none = Unit {0}
  Holds P (some e) = P (hash e)

  skipped :
      (P : String → Type 0) (o : Option T) (es : List T)
      → All (λ e. P (hash e)) (elim o [ none ↦ es | some e ↦ e ∷ es ])
      → Holds P o × All (λ e. P (hash e)) es
  skipped P none es h = (tt, h)
  skipped P (some e) es h = h

  -- The items of a listing whose event is wanted are those of its events.
  module _ {A : Type 0} (event : A → Option T) where
    abbrev pub Wanted : (String → Type 0) → A → Type 0
    Wanted P a = Holds P (event a)

    events_cover_items :
        (P : String → Type 0) (items : List A)
        → All (λ e. P (hash e)) (events_of event items)
        → All (Wanted P) items
    unfolding events_of
    events_cover_items P [] h = tt
    events_cover_items P (a ∷ rest) h =
        let both = skipped P (event a) (events_of event rest) h in
        (both.0, events_cover_items P rest both.1)

    listed_all :
        (sized counted : Bool) (n : ℕ) (a : A) (rest : List A)
        → list_events event sized counted
            (some (record { count = some (pos (suc n)); items = some (a ∷ rest) }))
          ≡ ok (events_of event (a ∷ rest))
    unfolding list_events
    listed_all false false n a rest = refl
    listed_all true false n a rest = refl
    listed_all false true n a rest = ground arith
    listed_all true true n a rest = ground arith

    -- Of a queue that is valid, and the answer to a listing that has items and a positive Count: the poll
    -- leaves a valid queue, in which the key of every item that has an event is queued, in
    -- processing or waiting, as is every key that was so before.
    pub poll_covers :
        (sized counted : Bool) (n : ℕ) (a : A) (rest : List A) (q : Queue T)
        → IsValid hash q
        → (q' : Queue T) × (poll hash
              (list_events event sized counted
                (some (record { count = some (pos (suc n)); items = some (a ∷ rest) })))
              q
            ≡ some q')
          × IsValid hash q'
          × All (Wanted (λ k. known hash k q' ≡ true)) (a ∷ rest)
          × ((k : String) → known hash k q ≡ true → known hash k q' ≡ true)
    unfolding poll
    poll_covers sized counted n a rest q v =
        let q' = enqueue_all hash (events_of event (a ∷ rest)) q in
        (
          q',
          ap (λ l. poll hash l q) (listed_all sized counted n a rest),
          enqueue_all-IsValid (events_of event (a ∷ rest)) q v,
          events_cover_items (λ k. known hash k q' ≡ true) (a ∷ rest)
              (enqueue_all-known (events_of event (a ∷ rest)) q),
          λ k h. enqueue_all-keeps (events_of event (a ∷ rest)) k q h,
        )
