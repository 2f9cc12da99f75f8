-- ===== src/Ipc/Total.antt =====
-- `SyscallIpcRecv::handle` (kern/src/syscall.cc) returns where a sender waits.
use nova_mckernel_lab.Base.{
  ℕ, ◌<◌, ◌≡◌, refl, sym, ap, ◌∙◌, ◌≢◌, not, ◌&&◌, inl, true, some, List, ◌∷◌, arith, ◌==◌,
  if◌then◌else◌,
}
use nova_mckernel_lab.Machine.{ok}
use nova_mckernel_lab.Refines.{Yields, Yields-bind, Yields-if, Yields-lookup, promised_ok}
use nova_mckernel_lab.Ec.{Ptr, null, Ec, Ecs, store_ec}
use nova_mckernel_lab.Scheduler.{num_priorities, unblock, reprioritize}
use nova_mckernel_lab.Scheduler.Returns.{HasQueues, Ranked, unblock-Yields, reprioritize-Yields}
use nova_mckernel_lab.Kernel.{Kernel, returns, put_ec, with_eax}
use nova_mckernel_lab.Ipc.{change_priority, restore_priority, recv_now, handle_ipc_recv}
use nova_mckernel_lab.Ipc.Delivery.{answer}
use nova_mckernel_lab.Ipc.Links.{Waits, Among, store-other}
use nova_mckernel_lab.Ipc.Waiting.{recv-Ensures}

-- A context other than the one that runs, with a priority that the scheduler has.
abbrev Stays : Ptr → Ec → Kernel → Type 0
Stays s e k = HasQueues k.sched × (k.ecs s ≡ some e)

restore_priority-Yields :
    (k : Kernel) (p s : Ptr) (e c : Ec) (saved : ℕ)
    → s ≢ p
    → k.ecs p ≡ some c
    → c.priority < num_priorities
    → saved < num_priorities
    → Stays s e k
    → Yields (Stays s e) (restore_priority k p saved)
unfolding restore_priority
restore_priority-Yields k p s e c saved other at ranked small (h, at_s) =
    Yields-bind
      {P = λ k'. (k'.ecs ≡ store_ec k.ecs p (record c { priority = saved })) × HasQueues k'.sched}
      (change_priority k p saved) _
      (Yields-bind (reprioritize k.ecs k.sched p saved) _
        (reprioritize-Yields k.ecs k.sched p c saved h at ranked small) λ r w. (_, refl, w))
      λ k' (w, h').
        let c' = record c { priority = saved } in
        Yields-lookup (k'.ecs p) _ c' (ap (λ (ecs : Ecs). ecs p) w ∙ ground arith) (
          _,
          refl,
          (
            h',
            store-other k'.ecs p s (record c' { saved_priority = 0 }) other
                ∙ ap (λ (ecs : Ecs). ecs s) w
                ∙ store-other k.ecs p s c' other
                ∙ at_s,
          ),
        )

recv-Yields :
    (k : Kernel) (c e : Ec)
    → k.ecs k.current ≡ some c
    → c.pending_sender ≢ null
    → c.pending_sender ≢ k.current
    → k.ecs c.pending_sender ≡ some e
    → Ranked c
    → Ranked e
    → HasQueues k.sched
    → Yields (λ r. r.0 ≡ returns) (handle_ipc_recv k)
unfolding handle_ipc_recv recv_now
recv-Yields k c e at some_s other at_s ranked_c ranked_e h =
    let found : (not (c.pending_sender == null) && not (c.pending_sender == k.current)) ≡ true =
      ground (arith, some_s, other) in
    let c' = record c { pending_sender = e.pending_sender } in
    let k1 = put_ec k k.current (with_eax c' e.ipc_val) in
    let stays : Stays c.pending_sender e k1 =
      (h, store-other k.ecs k.current c.pending_sender _ other ∙ at_s) in
    Yields-lookup (k.ecs k.current) _ c at (
      rw found (
        Yields-lookup (k.ecs c.pending_sender) _ e at_s (
          Yields-bind {P = Stays c.pending_sender e}
            (if c'.pending_sender == null && not (c'.saved_priority == 0)
              then restore_priority k1 k1.current c'.saved_priority
              else ok k1)
            _
            (Yields-if (c'.pending_sender == null && not (c'.saved_priority == 0))
              (restore_priority-Yields k1 k1.current c.pending_sender e (with_eax c' e.ipc_val)
                c.saved_priority other (ground arith) ranked_c.0 ranked_c.1 stays)
              (k1, refl, stays))
            λ k2 w.
              Yields-bind (unblock k2.ecs k2.sched c.pending_sender) _
                (unblock-Yields k2.ecs k2.sched c.pending_sender e w.0 w.1 ranked_e.0)
                λ s' h'. (_, refl, refl))))

-- A receive by a context for which others wait, both its priorities and those of the last that came
-- below the number of queues: it returns, answers the message of the last that came, and the rest of
-- the list still waits, in the same order.
pub recv-Waits :
    (k : Kernel) (c e : Ec) (s : Ptr) (v : ℕ) (xs : List (Ptr × ℕ))
    → ((a : Ptr) → Among a ((s, v) ∷ xs) → a ≢ k.current)
    → Waits k.ecs k.current ((s, v) ∷ xs)
    → k.ecs k.current ≡ some c
    → k.ecs s ≡ some e
    → Ranked c
    → Ranked e
    → HasQueues k.sched
    → (k' : Kernel) × (handle_ipc_recv k ≡ ok (returns, k'))
      × (answer k'.ecs k.current ≡ some v)
      × Waits k'.ecs k.current xs
recv-Waits k c e s v xs clear w at at_s ranked_c ranked_e h =
    let first : c.pending_sender ≡ s = ground (arith, w.0, at) in
    let (r, same, back) =
      recv-Yields k c e at (λ z. w.1 (sym first ∙ z)) (λ z. clear s (inl refl) (sym first ∙ z))
        (ap k.ecs first ∙ at_s) ranked_c ranked_e h in
    let same' : handle_ipc_recv k ≡ ok (returns, r.1) = same ∙ ap (λ x. ok (x, r.1)) back in
    let (a, w') =
      promised_ok (λ r. (answer r.1.ecs k.current ≡ some v) × Waits r.1.ecs k.current xs)
        (recv-Ensures k s v xs clear w).ensured (returns, r.1) same' in
    (r.1, same', a, w')
