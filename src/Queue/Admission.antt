-- ===== src/Queue/Admission.antt =====
-- Admission of new work: idempotent under its key, bounded, and what a clash of job ids does.
use prodkit_control.Prelude.{◌≤◌, none, ◌≡◌, arith}
use prodkit_control.Prelude.Dict.{find}
use prodkit_control.Prelude.Result.{err, queue_overloaded}
use prodkit_control.Contracts.Work.{queued, DurableWorkItem}
use prodkit_control.Queue.{Queue, enqueue, active, identity, Identity_discrete}

-- At the configured depth new work is refused, and nothing is written.
pub enqueue_overloaded :
    (i : DurableWorkItem) (q : Queue)
    → find Identity_discrete (identity i) q.identities ≡ none
    → i.state ≡ queued
    → i.attempt ≡ 0
    → q.max_queue_depth ≤ active q i.queue
    → enqueue i q ≡ (err queue_overloaded, q)
unfolding enqueue
enqueue_overloaded i q new s a full = ground arith
