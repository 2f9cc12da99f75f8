-- ===== src/Ipc/Slow.antt =====
-- How the slow path of `SyscallIpcSend::handle` (kern/src/syscall.cc) ends.
use nova_mckernel_lab.Base.{
  ℕ, ◌<◌, ◌≡◌, refl, sym, ap, ◌∙◌, ◌≢◌, ◌⊎◌, inl, inr, false, Option, some, List, ◌∷◌, arith, ltb,
  ◌==◌,
}
use nova_mckernel_lab.Machine.{ok, panic, no_runnable, ◌>>=◌, deref}
use nova_mckernel_lab.Refines.{Yields, Yields-if, Yields-lookup, promised_ok, via}
use nova_mckernel_lab.Ec.{Ptr, null, Ec, Ecs, store_ec}
use nova_mckernel_lab.Scheduler.{num_priorities}
use nova_mckernel_lab.Scheduler.Runs.{start, then_step, reprioritizes, Run-held}
use nova_mckernel_lab.Scheduler.Current.{Keeps, reprioritize-IsSound}
use nova_mckernel_lab.Scheduler.Returns.{reprioritize-Yields}
use nova_mckernel_lab.Kernel.{Kernel, Control, put_ec}
use nova_mckernel_lab.Syscall.{capability_of}
use nova_mckernel_lab.Ipc.{
  change_priority, inherit_priority, register, block_caller, send_later, handle_ipc_send,
}
use nova_mckernel_lab.Ipc.Links.{Waits}
use nova_mckernel_lab.Ipc.Waiting.{Clear, not_ready, send-Waits}
use nova_mckernel_lab.Ipc.Fast.{Runs, moved-Runs, store-ranked}
use nova_mckernel_lab.Ipc.Blocking.{OrStops, block_caller-OrStops}

-- The kernel runs the sender, and the target is there and has a queue.
abbrev Sends : Ptr → Kernel → Type 0
Sends target k = Runs k × ((t : Ec) × (k.ecs target ≡ some t) × (t.priority < num_priorities))

write-Sends :
    (k : Kernel) (target p : Ptr) (w : Ec)
    → w.priority < num_priorities
    → Sends target k
    → Sends target (put_ec k p w)
write-Sends k target p w small (h, (t, at, ranked)) = (
  moved-Runs k p w (store_ec k.ecs p w) k.sched h small refl h.sound refl λ q some_q. refl,
  store-ranked k.ecs p target t w at ranked small,
)

change_priority-Sends :
    (k : Kernel) (target : Ptr) (prio : ℕ)
    → target ≢ null
    → prio < num_priorities
    → Sends target k
    → Yields (λ k'. Sends target k' × (k'.current ≡ k.current)) (change_priority k target prio)
change_priority-Sends k target prio some_target small (h, (t, at, ranked)) =
    let w = record t { priority = prio } in
    let (r, e, (written, _)) =
      reprioritize-Yields k.ecs k.sched target t prio h.sound.valid.size at ranked small in
    let (sound, keeps) =
      promised_ok (λ r. Keeps k.sched r.1)
        (reprioritize-IsSound k.ecs k.sched target prio some_target h.sound) r e in
    let runs : Runs (record k { ecs = r.0; sched = r.1 }) =
      moved-Runs k target w r.0 r.1 h small written sound keeps λ q some_q.
        (Run-held q some_q h.sound.valid (then_step start (reprioritizes target prio e))).1 in
    let (c, at', ranked') = store-ranked k.ecs target target t w at ranked small in
    (
      record k { ecs = r.0; sched = r.1 },
      via _ _ r e refl,
      ((runs, (c, ap (λ (ecs : Ecs). ecs target) written ∙ at', ranked')), refl),
    )

inherit_priority-Sends :
    (k : Kernel) (target : Ptr)
    → target ≢ null
    → Sends target k
    → Yields
        (λ k'. Sends target k' × (k'.current ≡ k.current))
        (inherit_priority k k.current target)
unfolding inherit_priority
inherit_priority-Sends k target some_target (h, (t, at, ranked)) =
    let c = h.current in
    let w = record t { saved_priority = t.priority } in
    Yields-lookup (k.ecs k.current) _ c h.current_at (
      Yields-lookup (k.ecs target) _ t at (
        Yields-if (ltb c.priority t.priority)
          (change_priority-Sends (put_ec k target w) target c.priority some_target h.ranked
            (write-Sends k target target w ranked (h, (t, at, ranked))))
          (k, refl, ((h, (t, at, ranked)), refl))))

register-Sends :
    (k : Kernel) (target : Ptr)
    → Sends target k
    → Yields (λ k'. Sends target k' × (k'.current ≡ k.current)) (register k k.current target)
unfolding register
register-Sends k target (h, (t, at, ranked)) =
    let c = h.current in
    let w = record c { pending_sender = t.pending_sender } in
    let k1 = put_ec k k.current w in
    let (h1, (t1, at1, ranked1)) = write-Sends k target k.current w h.ranked (h, (t, at, ranked)) in
    let w1 = record t1 { pending_sender = k.current } in
    Yields-lookup (k.ecs target) _ t at (
      Yields-lookup (k.ecs k.current) _ c h.current_at (
        Yields-lookup (k1.ecs target) _ t1 at1 (
          put_ec k1 target w1,
          refl,
          (write-Sends k1 target target w1 ranked1 (h1, (t1, at1, ranked1)), refl),
        )))

send_later-OrStops :
    (k : Kernel) (target : Ptr) (value : ℕ)
    → target ≢ null
    → Sends target k
    → OrStops (λ r. Unit {0}) (send_later k target value)
unfolding send_later
send_later-OrStops k target value some_target (h, there) =
    let c = h.current in
    let k0 = put_ec k k.current (record c { ipc_val = value }) in
    let s0 = write-Sends k target k.current (record c { ipc_val = value }) h.ranked (h, there) in
    let (k1, e1, (s1, same1)) = inherit_priority-Sends k0 target some_target s0 in
    let (k2, e2, (s2, same2)) = register-Sends k1 target s1 in
    let e2' : register k1 k.current target ≡ ok k2 =
      ap (λ p. register k1 p target) (sym same1) ∙ e2 in
    let steps : send_later k target value ≡ block_caller k2 =
      ap
        (λ (o : Option Ec). deref o >>= λ c'.
          inherit_priority (put_ec k k.current (record c' { ipc_val = value })) k.current target
          >>= λ k1'. register k1' k.current target >>= λ k2'. block_caller k2')
        h.current_at
      ∙ via _ _ k1 e1 (via _ _ k2 e2' refl) in
    elim (block_caller-OrStops k2 s2.0) [
      | inl (r, e, _) ↦ inl (r, steps ∙ e, tt)
      | inr stopped ↦ inr (steps ∙ stopped)
    ]

-- In a kernel whose scheduler is sound, runs the current context, and holds only contexts that are
-- there, a message to another context that is there and has a queue, and for which the contexts of
-- `xs` wait: the send goes on with the caller in front of those that wait, with its message, or no
-- context may run and the kernel stops. The list that begins at the caller is then `xs`, whoever
-- waited for the caller before.
pub send-Waits_or_stops :
    (k : Kernel) (target_cap target value : ℕ) (t : Ec) (xs : List (Ptr × ℕ))
    → Runs k
    → capability_of k target_cap ≡ ok target
    → target ≢ null
    → k.ecs target ≡ some t
    → t.priority < num_priorities
    → target ≢ k.current
    → Clear k.current target xs
    → Waits k.ecs target xs
    → ((r : Control × Kernel) × (handle_ipc_send k target_cap value ≡ ok r)
        × Waits r.1.ecs target ((k.current, value) ∷ xs))
      ⊎ (handle_ipc_send k target_cap value ≡ panic no_runnable)
unfolding handle_ipc_send
send-Waits_or_stops k target_cap target value t xs h at some_target at_t ranked apart clear w =
    let present : (target == null) ≡ false = ground (arith, some_target) in
    let unready : (t.pending_sender == target) ≡ false =
      ground (arith, not_ready k.ecs k.current target xs t some_target clear w at_t) in
    let later : handle_ipc_send k target_cap value ≡ send_later k target value =
      rw (at, present, at_t, unready) refl in
    elim (send_later-OrStops k target value some_target (h, (t, at_t, ranked))) [
      | inr stopped ↦ inr (later ∙ stopped)
      | inl (r, e, _) ↦ inl (
        r,
        later ∙ e,
        promised_ok (λ r. Waits r.1.ecs target ((k.current, value) ∷ xs))
            (send-Waits k target_cap target value xs at some_target h.some_current apart clear w) r
            (later ∙ e),
      )
    ]
