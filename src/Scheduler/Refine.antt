-- ===== src/Scheduler/Refine.antt =====
-- The scheduler's operations (kern/src/scheduler.cc) do to a valid scheduler what their list
-- counterparts do to its view, and leave it valid.
use nova_mckernel_lab.Base.{
  ℕ, ◌+◌, ◌≤◌, ◌≡◌, ap, ◌∙◌, subst, Bool, false, Option, none, some, List, map, inl, inr,
  Bool-cases, Option-cases, arith, ◌==◌, length, get_elem?, set, length-set,
}
use nova_mckernel_lab.Machine.{Outcome, ok, panic, ◌>>=◌, no_runnable}
use nova_mckernel_lab.Refines
use nova_mckernel_lab.Refines.{Refines, returns, panics, faults, bind_same}
use nova_mckernel_lab.Ec.{Ptr, null, Ecs}
use nova_mckernel_lab.Scheduler.{
  Queue, Scheduler, num_priorities, max_ecs, priority_of, queue_at, set_queue, enqueue, requeue,
  dispatch, yield,
}
use nova_mckernel_lab.Scheduler.Ring.{Entry, contents}
use nova_mckernel_lab.Scheduler.Entries.{enqueue-contents}
use nova_mckernel_lab.Scheduler.Spec.{
  View, entries_at, set_entries, requeue_view, dispatch_view, yield_view,
}
use nova_mckernel_lab.Scheduler.Valid.{
  view, AllRings, queued, IsValid, get-AllRings, set-AllRings, queued-set, count-le-queued,
  get_elem?-map, map-set,
}
use nova_mckernel_lab.Scheduler.Pick.{Picked, nothing, picked, pick-Picked}

-- Both look up the queue of a priority, or both go out of range.
pub with_queue :
    {C D : Type 0} {g : C → D} {Q : C → Type 0} (s : Scheduler) (p : ℕ) (k : Queue → Outcome C)
    (l : List Entry → Outcome D)
    → ((q : Queue) → get_elem? s.queues p ≡ some q → Refines g Q (k q) (l (contents q)))
    → Refines g Q (queue_at s p >>= k) (entries_at (view s) p >>= l)
with_queue s p k l next = elim (Option-cases (get_elem? s.queues p)) [
  | inl e ↦ rw (get_elem?-map contents s.queues p, e) faults
  | inr (q, e) ↦ rw (get_elem?-map contents s.queues p, e) (next q e)
]

-- Replacing a ring replaces its entries.
pub view-set_queue :
    (s : Scheduler) (p : ℕ) (q : Queue) (xs : List Entry)
    → contents q ≡ xs
    → view (set_queue s p q) ≡ set_entries (view s) p xs
view-set_queue s p q xs e =
    ap (λ qs. record { queues = qs; current = s.current_ec })
      (map-set contents s.queues p q ∙ ap (set (map contents s.queues) p) e)

-- A scheduler that has room for one more context.
pub record HasRoom (s : Scheduler) : Type 0 where
  pub size : length s.queues ≡ num_priorities
  pub rings : AllRings s.queues
  pub room : queued s.queues + 1 ≤ max_ecs

pub requeue-Refines :
    (ecs : Ecs) (s : Scheduler) (ec : Ptr) (b : Bool)
    → HasRoom s
    → Refines view
        (λ s'. IsValid (record s' { current_ec = null }))
        (requeue ecs s ec b)
        (requeue_view ecs (view s) ec b)
unfolding requeue requeue_view
requeue-Refines ecs s ec b v = bind_same (priority_of ecs ec) _ _ λ prio _.
    with_queue s prio _ _ λ q at.
      let r = get-AllRings s.queues prio q v.rings at in
      let free = count-le-queued s.queues prio q at in
      let (r', c) = enqueue-contents q ec b r (omega (arith, v.room)) in
      returns
        (record {
          size = length-set s.queues prio _ ∙ v.size;
          rings = set-AllRings s.queues prio _ v.rings r';
          room = omega (arith, queued-set s.queues prio q (enqueue q ec b) at, v.room, free);
        })
        (view-set_queue s prio (enqueue q ec b) _ c)

-- The context chosen to run, and the view of what it is chosen from.
abbrev pub choice : Ptr × Scheduler → Ptr × View
choice r = (r.0, view r.1)

pub dispatch-Refines :
    (s : Scheduler)
    → IsValid s
    → Refines choice (λ r. IsValid r.1) (dispatch s) (dispatch_view (view s))
unfolding dispatch dispatch_view
dispatch-Refines s v = go (pick-Picked s.queues v.rings)
  where
    go :
        {o : Option (Ptr × List Queue)} {w : Option (Ptr × List (List Entry))}
        → Picked s.queues o w
        → Refines choice
            (λ r. IsValid r.1)
            (elim o [
              | none ↦ panic no_runnable
              | some (ec, qs) ↦ ok (ec, record { queues = qs; current_ec = ec })
            ])
            (elim w [
              | none ↦ panic no_runnable
              | some (ec, qs) ↦ ok (ec, record { queues = qs; current = ec })
            ])
    go nothing = panics
    go (picked {ec} rs n l e) =
        returns (record { size = l ∙ v.size; rings = rs; room = ground (arith, n, v.room) })
          (ap (λ qs. (ec, record { queues = qs; current = ec })) e)

pub room-HasRoom : (s : Scheduler) → IsValid s → (s.current_ec == null) ≡ false → HasRoom s
room-HasRoom s v e = record { size = v.size; rings = v.rings; room = ground (arith, v.room, e) }

-- `yield` on a valid scheduler is `yield_view` on its view: the same outcome, and the scheduler it
-- leaves is valid.
pub yield-Refines :
    (ecs : Ecs) (s : Scheduler)
    → IsValid s
    → Refines choice (λ r. IsValid r.1) (yield ecs s) (yield_view ecs (view s))
unfolding yield yield_view
yield-Refines ecs s v = elim (Bool-cases (s.current_ec == null)) [
  | inl idle ↦ rw idle (dispatch-Refines s v)
  | inr busy ↦ rw busy (
      Refines.bind (requeue-Refines ecs s s.current_ec false (room-HasRoom s v busy)) λ s' w v' e.
        subst
          (λ (x : View).
            Refines choice (λ r. IsValid r.1) (dispatch (record s' { current_ec = null }))
              (dispatch_view (record x { current = null })))
          e (dispatch-Refines (record s' { current_ec = null }) v'))
]
