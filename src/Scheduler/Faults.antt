-- ===== src/Scheduler/Faults.antt =====
-- Dangling pointers and indices out of range in the operations of the scheduler
-- (kern/src/scheduler.cc).
use nova_mckernel_lab.Base.{
  ◌<◌, ◌≡◌, refl, ◌≢◌, ◌⊎◌, inl, inr, Bool, Option-cases, true, false, none, some, arith, leb, ◌==◌,
}
use nova_mckernel_lab.Refines.{Yields}
use nova_mckernel_lab.Safe.{Safe, Safe-ok, Safe-if, Safe-bind, Safe-yields}
use nova_mckernel_lab.Ec.{Ptr, null, Ec, Ecs}
use nova_mckernel_lab.Scheduler.{
  Scheduler, num_priorities, max_ecs, requeue, dispatch, yield, block, schedule, pick, enqueue,
  set_queue, mark,
}
use nova_mckernel_lab.Scheduler.Returns.{HasQueues, queue_at-some}

-- The context is there, and the scheduler has a queue for it.
abbrev pub HasQueue : Ecs → Ptr → Type 0
HasQueue ecs p = (e : Ec) × (ecs p ≡ some e) × (e.priority < num_priorities)

requeue-Yields :
    (ecs : Ecs) (s : Scheduler) (p : Ptr) (b : Bool)
    → HasQueues s
    → HasQueue ecs p
    → Yields (λ t. t.current_ec ≡ s.current_ec) (requeue ecs s p b)
unfolding requeue
requeue-Yields ecs s p b h (e, at, small) =
    let (q, at_q) = queue_at-some s e.priority h small in
    (set_queue s e.priority (enqueue q p b), rw (at, at_q) refl, refl)

dispatch-Safe : (s : Scheduler) → Safe (λ r. Unit {0}) (dispatch s)
unfolding dispatch
dispatch-Safe s = elim (Option-cases (pick s.queues)) [
  | inl missing ↦ rw (missing, dispatch) (record { holds = tt })
  | inr (r, found) ↦ rw (found, dispatch) (record { holds = tt })
]

pub yield-Safe :
    (ecs : Ecs) (s : Scheduler)
    → HasQueues s
    → (s.current_ec ≡ null) ⊎ HasQueue ecs s.current_ec
    → Safe (λ r. Unit {0}) (yield ecs s)
unfolding yield
yield-Safe ecs s h here =
    Safe-if (s.current_ec == null) (λ _. dispatch-Safe s)
      λ busy.
        Safe-bind (requeue ecs s s.current_ec false)
          (Safe-yields (requeue-Yields ecs s s.current_ec false h (there busy here)))
          λ t _. dispatch-Safe (record t { current_ec = null })
  where
    there :
        (s.current_ec == null) ≡ false
        → (s.current_ec ≡ null) ⊎ HasQueue ecs s.current_ec
        → HasQueue ecs s.current_ec
    there busy (inl idle) = absurd (ground (arith, busy, idle))
    there busy (inr found) = found

-- What `block` chooses if the caller was blocked is a context.
pub block-Safe :
    (ecs : Ecs) (s : Scheduler) (p : Ptr)
    → HasQueues s
    → HasQueue ecs p
    → Safe (λ r. p ≡ s.current_ec → r.0 ≢ none) (block ecs s p)
unfolding block yield
block-Safe ecs s p h (e, at, small) =
    let (q, at_q) = queue_at-some s e.priority h small in
    Safe-if (p == s.current_ec)
      (λ _.
        Safe-bind (requeue ecs s p true)
          (Safe-yields (requeue-Yields ecs s p true h (e, at, small)))
          λ t _.
            Safe-bind (dispatch (record t { current_ec = null }))
              (dispatch-Safe (record t { current_ec = null })) λ r _. Safe-ok λ _ z. cc z)
      λ other. Safe-yields (
        (none, set_queue s e.priority (mark q p true)),
        rw (at, at_q) refl,
        λ same. absurd (ground (arith, other, same)),
      )

pub schedule-Safe :
    (ecs : Ecs) (s : Scheduler) (p : Ptr)
    → HasQueues s
    → s.current_ec ≢ null
    → HasQueue ecs p
    → Safe (λ r. Unit {0}) (schedule ecs s p)
unfolding schedule
schedule-Safe ecs s p h busy (e, at, small) =
    let (q, at_q) = queue_at-some s e.priority h small in
    let never : (s.current_ec == null) ≡ false = ground (arith, busy) in
    rw (at, at_q)
      (Safe-if (leb max_ecs q.count) (λ _. record { holds = tt }) λ _. rw never (Safe-ok tt))
