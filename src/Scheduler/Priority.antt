-- ===== src/Scheduler/Priority.antt =====
-- What `Scheduler::reprioritize` (kern/src/scheduler.cc) writes to the contexts.
use nova_mckernel_lab.Base.{ℕ, ◌≡◌, refl, some, inl, inr, Option-cases}
use nova_mckernel_lab.Refines.{Ensures, Ensures-ok, Ensures-any, Ensures-lookup}
use nova_mckernel_lab.Ec.{Ptr, Ec, Ecs, store_ec}
use nova_mckernel_lab.Scheduler.{Scheduler, set_queue, queue_at, find, remove_at, reprioritize}

-- The context takes the new priority, and nothing else is written.
abbrev pub Writes : Ecs → Ptr → ℕ → Ecs × Scheduler → Type 0
Writes ecs ec prio r =
    (e : Ec) × (ecs ec ≡ some e) × (r.0 ≡ store_ec ecs ec (record e { priority = prio }))

pub reprioritize-Writes :
    (ecs : Ecs) (s : Scheduler) (ec : Ptr) (prio : ℕ)
    → Ensures (Writes ecs ec prio) (reprioritize ecs s ec prio)
unfolding reprioritize
reprioritize-Writes ecs s ec prio = Ensures-lookup (ecs ec) λ e at.
    Ensures-any (queue_at s e.priority) λ q. elim (Option-cases (find q.count 0 q ec)) [
      | inl missing ↦ rw missing (Ensures-ok (e, at, refl))
      | inr (i, found) ↦ rw found (
          Ensures-any (queue_at (set_queue s e.priority (remove_at q i)) prio)
            λ new_q. Ensures-ok (e, at, refl))
    ]
