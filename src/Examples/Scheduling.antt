-- ===== src/Examples/Scheduling.antt =====
-- The theorems on the scheduler (kern/src/scheduler.cc) at a concrete one.
use nova_mckernel_lab.Base.{◌≡◌, refl, true, false, some, List, [], ◌∷◌, ◌++◌, arith, replicate}
use nova_mckernel_lab.Machine.{ok}
use nova_mckernel_lab.Refines.{Refines}
use nova_mckernel_lab.Ec.{Ptr}
use nova_mckernel_lab.Scheduler.{Queue, Scheduler, yield, block, unblock_all, reprioritize}
use nova_mckernel_lab.Scheduler.Ring.{Entry, contents}
use nova_mckernel_lab.Scheduler.Spec.{yield_view, block_view, reprioritize_view}
use nova_mckernel_lab.Scheduler.Valid.{view, IsValid}
use nova_mckernel_lab.Scheduler.Refine.{choice, yield-Refines}
use nova_mckernel_lab.Scheduler.Operations.{
  option_choice, memory_view, block-Refines, reprioritize-Refines,
}
use nova_mckernel_lab.Scheduler.Choice.{Choice, yield_chooses}
use nova_mckernel_lab.Scheduler.Population.{held}
use nova_mckernel_lab.Scheduler.Runs.{Run-held, start, then_step, unblocks_all}
use nova_mckernel_lab.Scheduler.Overflow.{IsFull, yield_overflow}
use nova_mckernel_lab.Examples.{three_ecs, busy, blocked_waits, context}

pub busy-IsValid : IsValid busy
busy-IsValid = record {
  size = refl;
  rings = (
    record {
      slots_size = refl;
      blocked_size = refl;
      head_in = omega arith;
      tail_at = refl;
      fits = omega arith;
    },
    (
      record {
        slots_size = refl;
        blocked_size = refl;
        head_in = omega arith;
        tail_at = refl;
        fits = omega arith;
      },
      tt,
    ),
  );
  room = omega arith;
}

yield-Refines_example :
    Refines choice (λ r. IsValid r.1) (yield three_ecs busy) (yield_view three_ecs (view busy))
yield-Refines_example = yield-Refines three_ecs busy busy-IsValid

block-Refines_example :
    Refines option_choice
      (λ r. IsValid r.1)
      (block three_ecs busy 2000)
      (block_view three_ecs (view busy) 2000)
block-Refines_example = block-Refines three_ecs busy 2000 busy-IsValid (λ e. absurd (omega arith))

reprioritize-Refines_example :
    Refines memory_view
      (λ r. IsValid r.1)
      (reprioritize three_ecs busy 2000 1)
      (reprioritize_view three_ecs (view busy) 2000 1)
reprioritize-Refines_example = reprioritize-Refines three_ecs busy 2000 1 busy-IsValid

yield_chooses_example :
    (ec : Ptr) × (s' : Scheduler) × (yield three_ecs busy ≡ ok (ec, s'))
    × IsValid s'
    × Choice
        (((2000, false) ∷ (1000, false) ∷ []) ∷ ((3000, true) ∷ []) ∷ [])
        (some (ec, (view s').queues))
    × (s'.current_ec ≡ ec)
yield_chooses_example =
    yield_chooses three_ecs busy (context 0 0 5000) ((2000, false) ∷ []) busy-IsValid
      (λ e. absurd (omega arith)) refl refl

Run-held_example :
    IsValid (unblock_all busy) × (held 2000 (view (unblock_all busy)) ≡ held 2000 (view busy))
Run-held_example =
    Run-held {ecs = three_ecs} 2000 (λ e. absurd (omega arith)) busy-IsValid
      (then_step start (unblocks_all refl))

-- Eight contexts wait at priority 0, as many as its ring holds.
abbrev full_ring : Queue
full_ring = record {
  slots = 2000 ∷ 2001 ∷ 2002 ∷ 2003 ∷ 2004 ∷ 2005 ∷ 2006 ∷ 2007 ∷ [];
  head = 0;
  tail = 0;
  count = 8;
  blocked = replicate 8 false;
}

abbrev others : List Entry
others =
    (2001, false)
    ∷ (2002, false)
    ∷ (2003, false)
    ∷ (2004, false)
    ∷ (2005, false)
    ∷ (2006, false)
    ∷ (2007, false)
    ∷ []

abbrev overfull : Scheduler
overfull = record { queues = full_ring ∷ blocked_waits ∷ []; current_ec = 1000 }

overfull-IsFull : IsFull overfull full_ring (blocked_waits ∷ []) (2000, false) others
overfull-IsFull = record {
  queues = refl;
  ring = record {
    slots_size = refl;
    blocked_size = refl;
    head_in = omega arith;
    tail_at = refl;
    fits = omega arith;
  };
  full = refl;
  entries = refl;
}

yield_overflow_example :
    (q' : Queue) × (yield three_ecs overfull
      ≡ ok (1000, record { queues = q' ∷ blocked_waits ∷ []; current_ec = 1000 }))
    × (contents q' ≡ others ++ ((1000, false) ∷ []))
yield_overflow_example =
    yield_overflow three_ecs overfull (context 0 0 5000) full_ring (blocked_waits ∷ [])
      (2000, false) others overfull-IsFull (λ e. absurd (omega arith)) refl refl
