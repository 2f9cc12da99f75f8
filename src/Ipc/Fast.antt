-- ===== src/Ipc/Fast.antt =====
-- How `SyscallYield::handle` and the fast path of `SyscallIpcSend::handle` (kern/src/syscall.cc) end.
use mathlib.Core.Option
use nova_mckernel_lab.Base.{
  ℕ, ◌<◌, ◌≡◌, refl, sym, ap, ◌∙◌, ◌≢◌, inl, inr, true, false, Bool-cases, some, arith, ◌==◌,
}
use nova_mckernel_lab.Machine.{ok, fault, ◌>>=◌}
use nova_mckernel_lab.Refines.{Yields, promised_ok, via}
use nova_mckernel_lab.Ec.{Ptr, null, Ec, Ecs, store_ec}
use nova_mckernel_lab.Scheduler.{Scheduler, num_priorities, yield, unblock}
use nova_mckernel_lab.Scheduler.Ring.{contents}
use nova_mckernel_lab.Scheduler.Valid.{view, get_elem?-map}
use nova_mckernel_lab.Scheduler.Population.{held, same}
use nova_mckernel_lab.Scheduler.Runs.{start, then_step, yields, unblocks, Run-held}
use nova_mckernel_lab.Scheduler.Choice.{yield_chooses}
use nova_mckernel_lab.Scheduler.Current.{IsSound, yield-IsSound, unblock-IsSound}
use nova_mckernel_lab.Scheduler.Returns.{queue_at-some, unblock-Yields}
use nova_mckernel_lab.Kernel.{
  Kernel, Control, Handled, put_ec, with_eax, make_current, jumps, regs_end,
}
use nova_mckernel_lab.Syscall.{capability_of, switch_to}
use nova_mckernel_lab.Ipc.{send_now, handle_ipc_send}

-- Every context that waits in a ring or runs is there.
abbrev pub IsStored : Kernel → Type 0
IsStored k = (p : Ptr) → p ≢ null → 0 < held p (view k.sched) → (e : Ec) × (k.ecs p ≡ some e)

-- The scheduler is sound and runs the current context, which has a queue.
pub record Runs (k : Kernel) : Type 0 where
  pub sound : IsSound k.sched
  pub runs : k.sched.current_ec ≡ k.current
  pub some_current : k.current ≢ null
  pub current : Ec
  pub current_at : k.ecs k.current ≡ some current
  pub ranked : current.priority < num_priorities
  pub stored : IsStored k

pub held-running : (p : Ptr) (s : Scheduler) → s.current_ec ≡ p → 0 < held p (view s)
held-running p s e = let one : same p s.current_ec ≡ 1 = ground (arith, e) in omega (arith, one)

-- A yield, and the switch to what it returns.
abbrev pub Switched : Kernel → Control × Kernel → Type 0
Switched k r = (r.1.ecs ≡ k.ecs) × (r.1.current ≡ r.1.sched.current_ec)

yield-Switched :
    (k : Kernel) (otherwise : Scheduler → Handled)
    → Runs k
    → Yields (Switched k) (
        yield k.ecs k.sched >>= λ (next, sched').
        switch_to (record k { sched = sched' }) (some next) (otherwise sched'))
unfolding make_current
yield-Switched k otherwise h =
    let e = h.current in
    let busy : k.sched.current_ec ≢ null = λ z. h.some_current (sym h.runs ∙ z) in
    let at : k.ecs k.sched.current_ec ≡ some e = ap k.ecs h.runs ∙ h.current_at in
    let (q, at_q) = queue_at-some k.sched e.priority h.sound.valid.size h.ranked in
    let shown = get_elem?-map contents k.sched.queues e.priority ∙ ap (Option.map contents) at_q in
    let (ec, s', y, _, _, now) =
      yield_chooses k.ecs k.sched e (contents q) h.sound.valid busy at shown in
    let (_, some_ec, _) =
      promised_ok (λ r. IsSound r.1 × (r.0 ≢ null) × (r.1.current_ec ≡ r.0))
        (yield-IsSound k.ecs k.sched h.sound) (ec, s') y in
    let (_, kept) = Run-held ec some_ec h.sound.valid (then_step start (yields ec y)) in
    let (e', at') = h.stored ec some_ec (omega (arith, held-running ec s' now, kept)) in
    let present : (ec == null) ≡ false = ground (arith, some_ec) in
    (
      (jumps e'.cont, record k { sched = s'; current = ec; sp0 = regs_end ec }),
      via _ _ (ec, s') y (rw (present, at') refl),
      (refl, sym now),
    )

-- A context that is there still is after a write to one.
pub store-some :
    (ecs : Ecs) (p q : Ptr) (w : Ec)
    → (e : Ec) × (ecs q ≡ some e)
    → (e : Ec) × (store_ec ecs p w q ≡ some e)
store-some ecs p q w (e, at) = elim (Bool-cases (p == q)) [
  | inl here ↦ (w, rw here refl)
  | inr other ↦ (e, rw other at)
]

pub store-ranked :
    (ecs : Ecs) (p q : Ptr) (e w : Ec)
    → ecs q ≡ some e
    → e.priority < num_priorities
    → w.priority < num_priorities
    → (c : Ec) × (store_ec ecs p w q ≡ some c) × (c.priority < num_priorities)
store-ranked ecs p q e w at small small' = elim (Bool-cases (p == q)) [
  | inl here ↦ (w, rw here refl, small')
  | inr other ↦ (e, rw other at, small)
]

-- A write to one context, and an operation of the scheduler that keeps what it holds.
pub moved-Runs :
    (k : Kernel) (p : Ptr) (w : Ec) (ecs' : Ecs) (s : Scheduler)
    → Runs k
    → w.priority < num_priorities
    → ecs' ≡ store_ec k.ecs p w
    → IsSound s
    → s.current_ec ≡ k.sched.current_ec
    → ((q : Ptr) → q ≢ null → held q (view s) ≡ held q (view k.sched))
    → Runs (record k { ecs = ecs'; sched = s })
moved-Runs k p w ecs' s h small written sound keeps kept =
    let (c, at, ranked) = store-ranked k.ecs p k.current h.current w h.current_at h.ranked small in
    record {
      sound = sound;
      runs = keeps ∙ h.runs;
      some_current = h.some_current;
      current = c;
      current_at = ap (λ (ecs : Ecs). ecs k.current) written ∙ at;
      ranked = ranked;
      stored = λ q some_q some_held.
          let (e, at_q) =
            store-some k.ecs p q w (h.stored q some_q (omega (arith, some_held, kept q some_q))) in
          (e, ap (λ (ecs : Ecs). ecs q) written ∙ at_q);
    }

-- The target of the fast path may run.
unblocked-Runs :
    (k : Kernel) (target : Ptr) (w : Ec) (s : Scheduler)
    → Runs k
    → w.priority < num_priorities
    → unblock (store_ec k.ecs target w) k.sched target ≡ ok s
    → Runs (record k { ecs = store_ec k.ecs target w; sched = s })
unblocked-Runs k target w s h small e =
    let ecs' = store_ec k.ecs target w in
    let (sound, keeps) =
      promised_ok (λ s'. IsSound s' × (s'.current_ec ≡ k.sched.current_ec))
        (unblock-IsSound ecs' k.sched target h.sound) s e in
    moved-Runs k target w ecs' s h small refl sound keeps λ q some_q.
      (Run-held q some_q h.sound.valid (then_step start (unblocks {ecs = ecs'} target e))).1

send_now-Switched :
    (k : Kernel) (target : Ptr) (t : Ec) (value : ℕ)
    → Runs k
    → k.ecs target ≡ some t
    → t.priority < num_priorities
    → Yields
        (Switched (put_ec k target (with_eax (record t { pending_sender = null }) value)))
        (send_now k target t value)
unfolding send_now
send_now-Switched k target t value h at small =
    let w = with_eax (record t { pending_sender = null }) value in
    let k1 = put_ec k target w in
    let (s, e, _) =
      unblock-Yields k1.ecs k1.sched target w h.sound.valid.size (ground arith) small in
    let (r, e', z) =
      yield-Switched (record k1 { sched = s }) (λ s'. fault)
        (unblocked-Runs k target w s h small e) in
    (r, via _ _ s e e', z)

-- In a kernel whose scheduler is sound, runs the current context, and holds only contexts that are
-- there, a message to a context that waits for one: the send goes on with the context that the
-- scheduler then runs; the value is in the `eax` of the target, which waits no more, and no other
-- context has changed.
pub send-Switched :
    (k : Kernel) (target_cap target value : ℕ) (t : Ec)
    → Runs k
    → capability_of k target_cap ≡ ok target
    → target ≢ null
    → k.ecs target ≡ some t
    → t.pending_sender ≡ target
    → t.priority < num_priorities
    → (r : Control × Kernel) × (handle_ipc_send k target_cap value ≡ ok r)
      × (r.1.ecs ≡ store_ec k.ecs target (with_eax (record t { pending_sender = null }) value))
      × (r.1.current ≡ r.1.sched.current_ec)
unfolding handle_ipc_send
send-Switched k target_cap target value t h at some_target at_t ready small =
    let present : (target == null) ≡ false = ground (arith, some_target) in
    let is_ready : (t.pending_sender == target) ≡ true = ground (arith, ready) in
    let (r, e, (same_ecs, runs)) = send_now-Switched k target t value h at_t small in
    rw (at, present, at_t, is_ready) (r, e, same_ecs, runs)
