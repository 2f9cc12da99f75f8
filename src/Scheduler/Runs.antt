-- ===== src/Scheduler/Runs.antt =====
-- Sequences of scheduler operations (kern/src/scheduler.cc), in any order, as the system calls of
-- kern/src/syscall.cc make them.
use nova_mckernel_lab.Base.{ℕ, ◌≡◌, refl, ap, ◌∙◌, ◌≢◌, subst, Option}
use nova_mckernel_lab.Machine.{ok}
use nova_mckernel_lab.Refines
use nova_mckernel_lab.Refines.{transfer, Promised, promised_ok}
use nova_mckernel_lab.Ec.{Ptr, null, Ecs}
use nova_mckernel_lab.Scheduler.{Scheduler, yield, block, unblock, unblock_all, reprioritize}
use nova_mckernel_lab.Scheduler.Spec.{View}
use nova_mckernel_lab.Scheduler.Valid.{view, IsValid}
use nova_mckernel_lab.Scheduler.Refine.{yield-Refines}
use nova_mckernel_lab.Scheduler.Operations.{
  block-Refines, unblock-Refines, unblock_all-view, reprioritize-Refines,
}
use nova_mckernel_lab.Scheduler.Population.{
  held, yield-held, block-held, unblock-held, unblock_all-held, reprioritize-held,
}

pub data Step : Ecs → Scheduler → Ecs → Scheduler → Type 0 where
  yields :
      {ecs : Ecs} {s s' : Scheduler} (next : Ptr) → yield ecs s ≡ ok (next, s') → Step ecs s ecs s'
  blocks :
      {ecs : Ecs} {s s' : Scheduler} (ec : Ptr) (next : Option Ptr)
      → ec ≢ null
      → block ecs s ec ≡ ok (next, s')
      → Step ecs s ecs s'
  unblocks :
      {ecs : Ecs} {s s' : Scheduler} (ec : Ptr) → unblock ecs s ec ≡ ok s' → Step ecs s ecs s'
  unblocks_all : {ecs : Ecs} {s s' : Scheduler} → unblock_all s ≡ s' → Step ecs s ecs s'
  reprioritizes :
      {ecs ecs' : Ecs} {s s' : Scheduler} (ec : Ptr) (prio : ℕ)
      → reprioritize ecs s ec prio ≡ ok (ecs', s')
      → Step ecs s ecs' s'

pub data Run (ecs : Ecs) (s : Scheduler) : Ecs → Scheduler → Type 0 where
  start : Run ecs s ecs s
  then_step :
      {ecs' ecs'' : Ecs} {s' s'' : Scheduler}
      → Run ecs s ecs' s'
      → Step ecs' s' ecs'' s''
      → Run ecs s ecs'' s''

Step-keeps :
    {ecs ecs' : Ecs} {s s' : Scheduler} (p : Ptr)
    → p ≢ null
    → Step ecs s ecs' s'
    → IsValid s
    → IsValid s' × (held p (view s') ≡ held p (view s))
Step-keeps {s} p some_p (yields {ecs} {s' = t} next e) v =
    let r = yield-Refines ecs s v in
    (
      promised_ok _ (Refines.promise r) _ e,
      transfer (λ (x : Ptr × View). held p x.1 ≡ held p (view s)) r
          (yield-held p ecs (view s) some_p) (next, t) e,
    )
Step-keeps {s} p some_p (blocks {ecs} {s' = t} ec next some_ec e) v =
    let r = block-Refines ecs s ec v some_ec in
    (
      promised_ok _ (Refines.promise r) _ e,
      transfer (λ (x : Option Ptr × View). held p x.1 ≡ held p (view s)) r
          (block-held p ecs (view s) ec some_p) (next, t) e,
    )
Step-keeps {s} p some_p (unblocks {ecs} {s' = t} ec e) v =
    let r = unblock-Refines ecs s ec v in
    (
      promised_ok _ (Refines.promise r) _ e,
      transfer (λ (x : View). held p x ≡ held p (view s)) r (unblock-held p ecs (view s) ec) t e,
    )
Step-keeps {s} p some_p (unblocks_all e) v =
    let (v', shown) = unblock_all-view s v in
    subst (λ t. IsValid t × (held p (view t) ≡ held p (view s))) e
      (v', ap (held p) shown ∙ unblock_all-held p (view s))
Step-keeps {s} p some_p (reprioritizes {ecs} {ecs'} {s' = t} ec prio e) v =
    let r = reprioritize-Refines ecs s ec prio v in
    (
      promised_ok _ (Refines.promise r) _ e,
      transfer (λ (x : Ecs × View). held p x.1 ≡ held p (view s)) r
          (reprioritize-held p ecs (view s) ec prio) (ecs', t) e,
    )

-- Whatever yields, blocks of contexts that are not null, unblocks and changes of priority a valid
-- scheduler goes through, it stays valid, and every context that is not null is held, waiting in a
-- ring or running, exactly as often as at the start: none is lost and none doubled.
pub Run-held :
    {ecs : Ecs} {s : Scheduler} {ecs' : Ecs} {s' : Scheduler} (p : Ptr)
    → p ≢ null
    → IsValid s
    → Run ecs s ecs' s'
    → IsValid s' × (held p (view s') ≡ held p (view s))
Run-held p some_p v start = (v, refl)
Run-held p some_p v (then_step r st) =
    let (v', h) = Run-held p some_p v r in
    let (v'', h') = Step-keeps p some_p st v' in (v'', h' ∙ h)
