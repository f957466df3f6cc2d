-- ===== src/Queue/Spec.antt =====
-- What the queue of queue.go promises, without its maps: each key is in one of four phases, and the
-- items that are queued stand in a line.
pub mod Refines
use vmclarity.Prelude.{
  String, Bool, true, false, Option, none, some, List, [], ◌∷◌, ◌++◌, ◌=?◌, string_eq,
  if◌then◌else◌,
}
use vmclarity.Queue.Keys.{has}
use vmclarity.Queue.{Queue, dequeue, enqueue, enqueue_after, fire, done, requeue_after}

pub data Phase : Type 0 where
  absent queued in_processing delayed : Phase

pub record Spec (T : Type 0) : Type 0 where
  pub phase : String → Phase
  pub line : List T

-- The methods of a queue, the end of a delay among them.
pub data Op (T : Type 0) : Type 0 where
  enqueues delays fires finishes requeues : T → Op T
  takes : Op T

abbrev phase_of : Bool → Bool → Bool → Phase
phase_of true _ _ = queued
phase_of false true _ = in_processing
phase_of false false true = delayed
phase_of false false false = absent

-- The phases and the line of a queue.
abbrev pub view : {T : Type 0} → Queue T → Spec T
view q = record {
  phase = λ k. phase_of (has k q.inqueue) (has k q.processing) (has k q.waiting);
  line = q.queue;
}

abbrev set : String → Phase → (String → Phase) → String → Phase
set k p phase j = if k =? j then p else phase j

module _ {T : Type 0} (hash : T → String) where
  -- Each method moves at most one key, and only from the phase that it is about.
  spec_enqueue : T → Phase → Spec T → Spec T
  spec_enqueue x absent s = record { phase = set (hash x) queued s.phase; line = s.line ++ x ∷ [] }
  spec_enqueue x _ s = s

  spec_delay : T → Phase → Spec T → Spec T
  spec_delay x absent s = record s { phase = set (hash x) delayed s.phase }
  spec_delay x _ s = s

  spec_fire : T → Phase → Spec T → Spec T
  unfolding spec_enqueue
  spec_fire x delayed s = spec_enqueue x absent s
  spec_fire x p s = spec_enqueue x p s

  spec_finish : T → Phase → Spec T → Spec T
  spec_finish x in_processing s = record s { phase = set (hash x) absent s.phase }
  spec_finish x _ s = s

  spec_requeue : T → Phase → Spec T → Spec T
  unfolding spec_delay
  spec_requeue x in_processing s = spec_delay x absent s
  spec_requeue x p s = spec_delay x p s

  spec_take : List T → Spec T → Spec T
  spec_take [] s = s
  spec_take (x ∷ rest) s = record { phase = set (hash x) in_processing s.phase; line = rest }

  unfoldable pub spec_step : Op T → Spec T → Spec T
  unfolding spec_enqueue spec_delay spec_fire spec_finish spec_requeue spec_take
  spec_step (enqueues x) s = spec_enqueue x (s.phase (hash x)) s
  spec_step (delays x) s = spec_delay x (s.phase (hash x)) s
  spec_step (fires x) s = spec_fire x (s.phase (hash x)) s
  spec_step (finishes x) s = spec_finish x (s.phase (hash x)) s
  spec_step (requeues x) s = spec_requeue x (s.phase (hash x)) s
  spec_step takes s = spec_take s.line s

  unfoldable pub spec_run : List (Op T) → Spec T → Spec T
  spec_run [] s = s
  spec_run (o ∷ os) s = spec_run os (spec_step o s)

  -- The queue left by Dequeue; a Dequeue that finds no item leaves the queue.
  abbrev pub left_by : Queue T → Option (T × Queue T) → Queue T
  left_by q none = q
  left_by q (some (x, q')) = q'

  unfoldable pub apply_op : Op T → Queue T → Queue T
  apply_op (enqueues x) q = (enqueue hash x q).0
  apply_op (delays x) q = (enqueue_after hash x q).0
  apply_op (fires x) q = (fire hash x q).0
  apply_op (finishes x) q = done hash x q
  apply_op (requeues x) q = (requeue_after hash x q).0
  apply_op takes q = left_by q (dequeue hash q)

  unfoldable pub apply_all : List (Op T) → Queue T → Queue T
  apply_all [] q = q
  apply_all (o ∷ os) q = apply_all os (apply_op o q)
