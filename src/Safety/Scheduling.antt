-- ===== src/Safety/Scheduling.antt =====
-- The pointers of the kernel at the calls of the scheduler in kern/src/syscall.cc, and at the switches to
-- what they return.
use nova_mckernel_lab.Base.{
  ℕ, ◌<◌, ◌≡◌, refl, sym, ◌∙◌, ◌≢◌, inr, Option, none, some, arith, ◌==◌, subst,
}
use nova_mckernel_lab.Machine.{ok, ◌>>=◌, fault}
use nova_mckernel_lab.Refines.{promised_ok}
use nova_mckernel_lab.Safe.{Safe, Safe-ok, Safe-if, Safe-bind, Safe-lookup, Safe-yields, Safe-then}
use nova_mckernel_lab.Ec.{Ptr, null, Ecs}
use nova_mckernel_lab.Scheduler.{
  Scheduler, num_priorities, yield, block, unblock, unblock_all, reprioritize,
}
use nova_mckernel_lab.Scheduler.Valid.{view}
use nova_mckernel_lab.Scheduler.Population.{held}
use nova_mckernel_lab.Scheduler.Runs.{
  Step, start, then_step, yields, blocks, unblocks, unblocks_all, reprioritizes, Run-held,
}
use nova_mckernel_lab.Scheduler.Current.{
  IsSound, Resumes, Keeps, yield-IsSound, block-IsSound, unblock-IsSound, unblock_all-IsSound,
  reprioritize-IsSound,
}
use nova_mckernel_lab.Scheduler.Returns.{unblock-Yields, reprioritize-Yields}
use nova_mckernel_lab.Scheduler.Faults.{HasQueue, yield-Safe, block-Safe}
use nova_mckernel_lab.Kernel.{Kernel, Control, Handled, make_current}
use nova_mckernel_lab.Syscall.{switch_to}
use nova_mckernel_lab.Ipc.{change_priority, block_caller}
use nova_mckernel_lab.Ipc.Fast.{held-running}
use nova_mckernel_lab.Safety.{Stored, IsIntact}
use nova_mckernel_lab.Safety.Memory.{put_ec-IsIntact, moves-IsIntact, current-Stored, store-Stored}

-- The kernel that a handler leaves.
abbrev pub Left : Control × Kernel → Type 0
Left r = IsIntact r.1

pub known : (k : Kernel) (p : Ptr) → IsIntact k → Stored k.ecs p → HasQueue k.ecs p
known k p h (e, at) = (e, at, (h.contexts p e at).0)

-- A step of the scheduler holds the same contexts.
kept :
    {ecs' : Ecs} {s : Scheduler} (k : Kernel)
    → IsIntact k
    → Step k.ecs k.sched ecs' s
    → (q : Ptr) → q ≢ null
    → held q (view s) ≡ held q (view k.sched)
kept k h st q some_q = (Run-held q some_q h.kernel.0.valid (then_step start st)).1

pub unblock-IsIntact :
    (k : Kernel) (p : Ptr)
    → IsIntact k
    → Stored k.ecs p
    → Safe (λ s. IsIntact (record k { sched = s })) (unblock k.ecs k.sched p)
unblock-IsIntact k p h there =
    let (e, at, small) = known k p h there in
    let (s, e', _) = unblock-Yields k.ecs k.sched p e h.kernel.0.valid.size at small in
    let (sound, same) =
      promised_ok (Keeps k.sched) (unblock-IsSound k.ecs k.sched p h.kernel.0) s e' in
    Safe-yields (s, e', moves-IsIntact k s h sound same (kept k h (unblocks {ecs = k.ecs} p e')))

pub unblock_all-IsIntact :
    (k : Kernel) → IsIntact k → IsIntact (record k { sched = unblock_all k.sched })
unblock_all-IsIntact k h =
    let (sound, same) = unblock_all-IsSound k.sched h.kernel.0 in
    moves-IsIntact k (unblock_all k.sched) h sound same (kept k h (unblocks_all {ecs = k.ecs} refl))

-- What a change to contexts leaves.
pub record Continues (k k' : Kernel) : Type 0 where
  pub intact : IsIntact k'
  pub current : k'.current ≡ k.current
  pub stored : (p : Ptr) → Stored k.ecs p → Stored k'.ecs p

pub change_priority-Continues :
    (k : Kernel) (p : Ptr) (prio : ℕ)
    → IsIntact k
    → p ≢ null
    → Stored k.ecs p
    → prio < num_priorities
    → Safe (Continues k) (change_priority k p prio)
change_priority-Continues k p prio h some_p (e, at) small =
    let good = h.contexts p e at in
    let w = record e { priority = prio } in
    let (r, e', (written, _)) =
      reprioritize-Yields k.ecs k.sched p e prio h.kernel.0.valid.size at good.0 small in
    let (sound, same) =
      promised_ok (λ (r : Ecs × Scheduler). Keeps k.sched r.1)
        (reprioritize-IsSound k.ecs k.sched p prio some_p h.kernel.0) r e' in
    let moved = moves-IsIntact k r.1 h sound same (kept k h (reprioritizes p prio e')) in
    Safe-bind {P = λ x. x ≡ r} (reprioritize k.ecs k.sched p prio) (Safe-yields (r, e', refl))
      λ x is_r. Safe-ok (record {
        intact =
            subst (λ (x : Ecs × Scheduler). IsIntact (record k { ecs = x.0; sched = x.1 }))
              (sym is_r)
              (subst (λ ecs. IsIntact (record k { ecs = ecs; sched = r.1 })) (sym written)
                (put_ec-IsIntact (record k { sched = r.1 }) p w moved
                  (small, good.1, good.2, good.3)));
        current = refl;
        stored = λ q there.
            subst (λ (x : Ecs × Scheduler). Stored x.0 q) (sym is_r)
              (subst (λ ecs. Stored ecs q) (sym written) (store-Stored k.ecs p q w there));
      })

-- The switch to a context that the scheduler has just chosen.
switched :
    (k : Kernel) (p : Ptr) (s : Scheduler) (otherwise : Handled)
    → IsIntact k
    → Step k.ecs k.sched k.ecs s
    → IsSound s
    → p ≢ null
    → s.current_ec ≡ p
    → Safe Left (switch_to (record k { sched = s }) (some p) otherwise)
unfolding make_current
switched k p s otherwise h st sound some_p now =
    let kept_p = kept k h st p some_p in
    let there : Stored k.ecs p = h.queued p some_p (omega (arith, held-running p s now, kept_p)) in
    Safe-if (p == null) (λ idle. absurd (ground (arith, some_p, idle)))
      λ _. Safe-lookup there λ e at. Safe-ok (record {
        kernel = (sound, now, some_p, h.kernel.3);
        contexts = h.contexts;
        domains = h.domains;
        queued = λ q some_q waits. h.queued q some_q (omega (arith, waits, kept k h st q some_q));
      })

-- `yield`, and the switch to what it returns.
pub yield-Left :
    (k : Kernel) (otherwise : Kernel → Handled)
    → IsIntact k
    → Safe Left (
        yield k.ecs k.sched >>= λ (next, sched').
        switch_to
          (record k { sched = sched' })
          (some next)
          (otherwise (record k { sched = sched' })))
yield-Left k otherwise h =
    let runs = known k k.current h (current-Stored k h) in
    Safe-then (yield k.ecs k.sched)
      (yield-Safe k.ecs k.sched h.kernel.0.valid.size
        (inr (subst (HasQueue k.ecs) (sym h.kernel.1) runs)))
      λ r e _.
        let (sound, some_p, now) =
          promised_ok (λ r. IsSound r.1 × (r.0 ≢ null) × (r.1.current_ec ≡ r.0))
            (yield-IsSound k.ecs k.sched h.kernel.0) r e in
        switched k r.0 r.1 (otherwise (record k { sched = r.1 })) h (yields r.0 e) sound some_p now

-- `block`, and the switch to what it returns. A caller that blocks is not gone on with.
pub block-Left :
    (k : Kernel) (target : Ptr) (otherwise : Kernel → Handled)
    → IsIntact k
    → target ≢ null
    → Stored k.ecs target
    → (target ≢ k.current → (k' : Kernel) → IsIntact k' → Safe Left (otherwise k'))
    → Safe Left (
        block k.ecs k.sched target >>= λ (next, sched').
        switch_to (record k { sched = sched' }) next (otherwise (record k { sched = sched' })))
block-Left k target otherwise h some_target there rest =
    Safe-then (block k.ecs k.sched target)
      (block-Safe k.ecs k.sched target h.kernel.0.valid.size (known k target h there))
      λ r e chosen. resume r e chosen (
        promised_ok (Resumes k.sched) (block-IsSound k.ecs k.sched target some_target h.kernel.0) r
          e)
  where
    resume :
        (r : Option Ptr × Scheduler)
        → block k.ecs k.sched target ≡ ok r
        → (target ≡ k.sched.current_ec → r.0 ≢ none)
        → Resumes k.sched r
        → Safe Left
            (switch_to (record k { sched = r.1 }) r.0 (otherwise (record k { sched = r.1 })))
    resume (none, s) e chosen (sound, same) =
        rest (λ here. chosen (here ∙ sym h.kernel.1) refl) (record k { sched = s })
          (moves-IsIntact k s h sound same
            (kept k h (blocks {ecs = k.ecs} target none some_target e)))
    resume (some p, s) e chosen (sound, some_p, now) =
        switched k p s (otherwise (record k { sched = s })) h (blocks target (some p) some_target e)
          sound some_p now

-- The current context blocks.
pub block_caller-Left : (k : Kernel) → IsIntact k → Safe Left (block_caller k)
unfolding block_caller
block_caller-Left k h =
    block-Left k k.current (λ _. fault) h h.kernel.2 (current-Stored k h)
      λ apart. absurd (apart refl)
