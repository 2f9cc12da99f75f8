-- ===== src/Ipc/Blocking.antt =====
-- How `sched.block (caller)` and the switch to what it returns end (kern/src/syscall.cc).
use mathlib.Core.Option
use nova_mckernel_lab.Base.{
  ◌≡◌, refl, ap, ◌∙◌, ◌≢◌, ◌⊎◌, inl, inr, true, false, Option, some, Option-cases, [], ◌∷◌, ◌++◌,
  set, get_elem?, arith, ◌==◌,
}
use nova_mckernel_lab.Machine.{Outcome, ok, panic, no_runnable, ◌>>=◌}
use nova_mckernel_lab.Refines.{Refines, panics, returned, Yields, promised_ok, via}
use nova_mckernel_lab.Ec.{Ptr, null}
use nova_mckernel_lab.Scheduler.{Scheduler, block}
use nova_mckernel_lab.Scheduler.Ring.{contents}
use nova_mckernel_lab.Scheduler.Valid.{view, get_elem?-map}
use nova_mckernel_lab.Scheduler.Spec.{
  View, block_view, requeue_view, yield_view, dispatch_view, pick_view,
}
use nova_mckernel_lab.Scheduler.Operations.{block-Refines}
use nova_mckernel_lab.Scheduler.Runs.{start, then_step, blocks, Run-held}
use nova_mckernel_lab.Scheduler.Current.{Resumes, block-IsSound}
use nova_mckernel_lab.Scheduler.Returns.{queue_at-some}
use nova_mckernel_lab.Kernel.{Kernel, make_current, jumps, regs_end}
use nova_mckernel_lab.Ipc.{block_caller}
use nova_mckernel_lab.Ipc.Fast.{Runs, held-running}

-- The routine returns, or stops since no context may run.
abbrev pub OrStops : {A : Type 0} → (A → Type 0) → Outcome A → Type 0
OrStops P r = Yields P r ⊎ (r ≡ panic no_runnable)

stops :
    {A B : Type 0} {f : A → B} {P : A → Type 0} {r : Outcome A} {v : Outcome B}
    → Refines f P r v
    → v ≡ panic no_runnable
    → r ≡ panic no_runnable
stops (Refines.returns p e) h = absurd (cc h)
stops panics h = cc h
stops Refines.faults h = absurd (cc h)

dispatch-OrStops : (v : View) → OrStops (λ r. Unit {0}) (dispatch_view v)
unfolding dispatch_view
dispatch-OrStops v = elim (Option-cases (pick_view v.queues)) [
  | inl missing ↦ inr (rw (missing, dispatch_view) refl)
  | inr ((ec, qs), found) ↦
      inl ((ec, record { queues = qs; current = ec }), rw (found, dispatch_view) refl, tt)
]

-- Blocking the context that runs.
block-OrStops :
    (k : Kernel)
    → Runs k
    → OrStops (λ r. (p : Ptr) × (r.0 ≡ some p)) (block k.ecs k.sched k.current)
unfolding block_view requeue_view yield_view
block-OrStops k h =
    let e = h.current in
    let v = view k.sched in
    let (q, at_q) = queue_at-some k.sched e.priority h.sound.valid.size h.ranked in
    let shown : get_elem? v.queues e.priority ≡ some (contents q) =
      get_elem?-map contents k.sched.queues e.priority ∙ ap (Option.map contents) at_q in
    let here : (k.current == v.current) ≡ true = ground (arith, h.runs) in
    let w : View = record {
      queues = set v.queues e.priority (contents q ++ ((k.current, true) ∷ []));
      current = null;
    } in
    let same : block_view k.ecs v k.current ≡ (dispatch_view w >>= λ r. ok (some r.0, r.1)) =
      rw (here, h.current_at, shown) refl in
    let r = block-Refines k.ecs k.sched k.current h.sound.valid h.some_current in
    elim (dispatch-OrStops w) [
      | inr stopped ↦ inr (stops r (same ∙ ap (λ o. o >>= λ r. ok (some r.0, r.1)) stopped))
      | inl ((ec, w'), found, _) ↦
          let (a, e', _, f) =
            returned r (some ec, w') (same ∙ ap (λ o. o >>= λ r. ok (some r.0, r.1)) found) in
          inl (a, e', (ec, ap (λ (x : Option Ptr × View). x.0) f))
    ]

-- The switch to what `block` returned.
resumed :
    (k : Kernel) (ec : Ptr) (s : Scheduler)
    → block k.ecs k.sched k.current ≡ ok (some ec, s)
    → ec ≢ null
    → s.current_ec ≡ ec
    → Runs k
    → Yields (λ r. Unit {0}) (block_caller k)
unfolding block_caller make_current
resumed k ec s e some_ec now h =
    let (_, kept) =
      Run-held ec some_ec h.sound.valid
        (then_step start (blocks k.current (some ec) h.some_current e)) in
    let (c, at) = h.stored ec some_ec (omega (arith, held-running ec s now, kept)) in
    let present : (ec == null) ≡ false = ground (arith, some_ec) in
    (
      (jumps c.cont, record k { sched = s; current = ec; sp0 = regs_end ec }),
      via _ _ (some ec, s) e (rw (present, at) refl),
      tt,
    )

-- The current context blocks, and the switch to what `block` returns.
pub block_caller-OrStops : (k : Kernel) → Runs k → OrStops (λ r. Unit {0}) (block_caller k)
unfolding block_caller make_current
block_caller-OrStops k h = elim (block-OrStops k h) [
  | inr stopped ↦ inr (rw stopped refl)
  | inl (r, e, (ec, chosen)) ↦
      let e' : block k.ecs k.sched k.current ≡ ok (some ec, r.1) =
        e ∙ ap (λ x. ok (x, r.1)) chosen in
      let (_, some_ec, now) =
        promised_ok (Resumes k.sched) (block-IsSound k.ecs k.sched k.current h.some_current h.sound)
          (some ec, r.1) e' in
      inl (resumed k ec r.1 e' some_ec now h)
]
