-- ===== src/Queue/Known.antt =====
-- What Enqueue makes known to the queue, and what it leaves known.
use vmclarity.Prelude.{String, ◌≡◌, true, arith, =?_iff, string_eq}
use vmclarity.Queue.{Queue, enqueue, known}
use vmclarity.Queue.Keys.{has-insert}

module _ {T : Type 0} (hash : T → String) where
  pub known-enqueue : (x : T) (q : Queue T) → known hash (hash x) (enqueue hash x q).0 ≡ true
  unfolding enqueue known
  known-enqueue x q =
      ground (arith, has-insert (hash x) (hash x) q.inqueue, =?_iff (hash x) (hash x))

  pub enqueue-keeps :
      (x : T) (k : String) (q : Queue T)
      → known hash k q ≡ true
      → known hash k (enqueue hash x q).0 ≡ true
  unfolding enqueue known
  enqueue-keeps x k q h = ground (arith, has-insert (hash x) k q.inqueue)
