-- ===== src/Scheduler/First.antt =====
-- The first context that the scheduler (kern/src/scheduler.cc) is given.
use nova_mckernel_lab.Base.{◌<◌, ◌≡◌, refl, ap, ◌∙◌, sym, subst, ◌+◌, ◌≢◌, some, [], ◌∷◌, arith}
use nova_mckernel_lab.Machine.{ok}
use nova_mckernel_lab.Refines.{returned, ok-injective}
use nova_mckernel_lab.Ec.{Ptr, null, Ec, Ecs}
use nova_mckernel_lab.Scheduler.{Scheduler, max_ecs, new_scheduler, empty_queue, schedule}
use nova_mckernel_lab.Scheduler.Spec.{
  View, next_runnable, pick_view, dispatch_view, yield_view, schedule_view,
}
use nova_mckernel_lab.Scheduler.Valid.{view, queued, running, new_scheduler-IsValid}
use nova_mckernel_lab.Scheduler.Operations.{schedule-Refines}
use nova_mckernel_lab.Scheduler.Current.{IsSound, Clean}

only_view :
    (ecs : Ecs) (ec : Ptr) (e : Ec)
    → ecs ec ≡ some e
    → e.priority ≡ 0
    → schedule_view ecs (record { queues = [] ∷ [] ∷ []; current = null }) ec
      ≡ ok (record { queues = [] ∷ [] ∷ []; current = ec })
unfolding schedule_view yield_view dispatch_view pick_view next_runnable
only_view ecs ec e at top = rw (at, top) refl

empty_view : view new_scheduler ≡ record { queues = [] ∷ [] ∷ []; current = null }
unfolding new_scheduler empty_queue
empty_view = refl

new_room : queued new_scheduler.queues + running new_scheduler.current_ec < max_ecs
unfolding new_scheduler empty_queue
new_room = omega arith

-- A context of the highest priority that an empty scheduler is given runs at once.
pub schedule_first :
    (ecs : Ecs) (ec : Ptr) (e : Ec)
    → ecs ec ≡ some e
    → e.priority ≡ 0
    → ec ≢ null
    → (s : Scheduler) × (schedule ecs new_scheduler ec ≡ ok s) × IsSound s × (s.current_ec ≡ ec)
schedule_first ecs ec e at top some_ec =
    let (s, r, v, shown) =
      returned (schedule-Refines ecs new_scheduler ec new_scheduler-IsValid new_room)
        (record { queues = [] ∷ [] ∷ []; current = ec })
        (ap (λ v. schedule_view ecs v ec) empty_view ∙ only_view ecs ec e at top) in
    (
      s,
      r,
      record { valid = v; clean = subst Clean (sym shown) refl },
      ap (λ (w : View). w.current) shown,
    )

-- Nothing waits beside it.
pub first_view :
    (ecs : Ecs) (ec : Ptr) (e : Ec) (s : Scheduler)
    → ecs ec ≡ some e
    → e.priority ≡ 0
    → schedule ecs new_scheduler ec ≡ ok s
    → view s ≡ record { queues = [] ∷ [] ∷ []; current = ec }
first_view ecs ec e s at top known =
    let (s', r, _, shown) =
      returned (schedule-Refines ecs new_scheduler ec new_scheduler-IsValid new_room)
        (record { queues = [] ∷ [] ∷ []; current = ec })
        (ap (λ v. schedule_view ecs v ec) empty_view ∙ only_view ecs ec e at top) in
    ap view (ok-injective (sym known ∙ r)) ∙ shown
