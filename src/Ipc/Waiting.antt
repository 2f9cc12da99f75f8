-- ===== src/Ipc/Waiting.antt =====
-- The senders that wait for a context (kern/src/syscall.cc) are a stack: `SyscallIpcSend::handle` pushes
-- the caller, `SyscallIpcRecv::handle` pops it.
use mathlib.Core.Option
use nova_mckernel_lab.Base.{
  ℕ, ◌≡◌, refl, sym, ap, ◌∙◌, ◌≢◌, not, ◌&&◌, inl, inr, false, some, List, [], ◌∷◌, arith, ◌==◌,
  ==_iff, if◌then◌else◌, subst,
}
use nova_mckernel_lab.Machine.{ok}
use nova_mckernel_lab.Refines.{
  Promised, Ensures, Ensures-ok, Ensures-if, Ensures-any, Ensures-bind, Ensures-test,
  Ensures-lookup, Ensures-weaken,
}
use nova_mckernel_lab.Ec.{Ptr, null, Ec, Ecs}
use nova_mckernel_lab.Scheduler.{unblock}
use nova_mckernel_lab.Kernel.{Kernel, Control, put_ec, with_eax}
use nova_mckernel_lab.Syscall.{capability_of}
use nova_mckernel_lab.Ipc.{
  inherit_priority, register, send_later, handle_ipc_send, restore_priority, recv_now,
  handle_ipc_recv,
}
use nova_mckernel_lab.Ipc.Delivery.{letter, senders, answer, block_caller-ecs, map-store_ec}
use nova_mckernel_lab.Ipc.Links.{
  Waits, Among, Waits-moves, store-other, restore_priority-Same, inherit_priority-Same,
}

-- Neither of the two that exchange a message is among the senders of the list.
abbrev pub Clear : Ptr → Ptr → List (Ptr × ℕ) → Type 0
Clear caller target xs = (s : Ptr) → Among s xs → (s ≢ caller) × (s ≢ target)

register-Waits :
    (k : Kernel) (caller target : Ptr) (value : ℕ) (xs : List (Ptr × ℕ))
    → caller ≢ null
    → target ≢ caller
    → Clear caller target xs
    → letter k.ecs caller ≡ some value
    → Waits k.ecs target xs
    → Ensures (λ k'. Waits k'.ecs target ((caller, value) ∷ xs)) (register k caller target)
unfolding register
register-Waits k caller target value xs some_caller apart clear l w =
    Ensures-lookup (k.ecs target) λ t at_t. Ensures-lookup (k.ecs caller) λ c at_c.
      let k' = put_ec k caller (record c { pending_sender = t.pending_sender }) in
      Ensures-lookup (k'.ecs target) λ t' at_t'.
        let k'' = put_ec k' target (record t' { pending_sender = caller }) in
        let linked : senders k''.ecs caller ≡ senders k.ecs target = ground (arith, apart, at_t) in
        Ensures-ok (
          ground arith,
          some_caller,
          map-store_ec (λ (e : Ec). e.ipc_val) k'.ecs target caller t'
                (record t' { pending_sender = caller }) at_t' refl
              ∙ map-store_ec (λ (e : Ec). e.ipc_val) k.ecs caller caller c
                  (record c { pending_sender = t.pending_sender }) at_c refl
              ∙ l,
          Waits-moves k.ecs k''.ecs target caller xs linked
              (λ s among.
                let (not_caller, not_target) = clear s among in
                let same : k''.ecs s ≡ k.ecs s =
                  store-other k'.ecs target s _ not_target
                  ∙ store-other k.ecs caller s _ not_caller in
                (
                  ap (Option.map (λ (e : Ec). e.ipc_val)) same,
                  ap (Option.map (λ (e : Ec). e.pending_sender)) same,
                ))
              w,
        )

send_later-Waits :
    (k : Kernel) (target : Ptr) (value : ℕ) (xs : List (Ptr × ℕ))
    → k.current ≢ null
    → target ≢ k.current
    → Clear k.current target xs
    → Waits k.ecs target xs
    → Ensures (λ r. Waits r.1.ecs target ((k.current, value) ∷ xs)) (send_later k target value)
unfolding send_later
send_later-Waits k target value xs some_caller apart clear w =
    Ensures-lookup (k.ecs k.current) λ c at_c.
      let k0 = put_ec k k.current (record c { ipc_val = value }) in
      let ready : letter k0.ecs k.current ≡ some value = ground arith in
      let w0 : Waits k0.ecs target xs =
        Waits-moves k.ecs k0.ecs target target xs
          (ap (Option.map (λ (e : Ec). e.pending_sender))
            (store-other k.ecs k.current target _ apart))
          (λ s among.
            let same =
              store-other k.ecs k.current s (record c { ipc_val = value }) (clear s among).0 in
            (
              ap (Option.map (λ (e : Ec). e.ipc_val)) same,
              ap (Option.map (λ (e : Ec). e.pending_sender)) same,
            ))
          w in
      Ensures-bind (inherit_priority k0 k.current target)
        (inherit_priority-Same k0 k.current target)
        λ k1 same.
          let w1 : Waits k1.ecs target xs =
            Waits-moves k0.ecs k1.ecs target target xs (same target).1 (λ s among. same s) w0 in
          Ensures-bind (register k1 k.current target)
            (register-Waits k1 k.current target value xs some_caller apart clear
              ((same k.current).0 ∙ ready) w1)
            λ k2 w2.
              Ensures-weaken
                (λ r e. subst (λ ecs. Waits ecs target ((k.current, value) ∷ xs)) (sym e) w2)
                (block_caller-ecs k2)

-- A context that others wait for does not wait for a message.
pub not_ready :
    (ecs : Ecs) (caller target : Ptr) (xs : List (Ptr × ℕ)) (t : Ec)
    → target ≢ null
    → Clear caller target xs
    → Waits ecs target xs
    → ecs target ≡ some t
    → t.pending_sender ≢ target
not_ready ecs caller target [] t some_target clear w at e = some_target (ground (arith, w, at, e))
not_ready ecs caller target ((s, v) ∷ xs) t some_target clear w at e =
    (clear s (inl refl)).1 (ground (arith, w.0, at, e))

-- A message to another context, for which the contexts of `xs` wait: if the kernel goes on after the
-- send, the caller waits in front of them with its message. The list that begins at the caller is then
-- `xs`, whoever waited for the caller before.
pub send-Waits :
    (k : Kernel) (target_cap target value : ℕ) (xs : List (Ptr × ℕ))
    → capability_of k target_cap ≡ ok target
    → target ≢ null
    → k.current ≢ null
    → target ≢ k.current
    → Clear k.current target xs
    → Waits k.ecs target xs
    → Promised
        (λ r. Waits r.1.ecs target ((k.current, value) ∷ xs))
        (handle_ipc_send k target_cap value)
unfolding handle_ipc_send
send-Waits k target_cap target value xs at some_target some_caller apart clear w =
    let present : (target == null) ≡ false = ground (arith, some_target) in
    let all : Ensures (λ (r : Control × Kernel). Waits r.1.ecs target ((k.current, value) ∷ xs))
        (handle_ipc_send k target_cap value) =
      rw (at, present)
        (Ensures-lookup (k.ecs target) λ t at_t.
          Ensures-test (t.pending_sender == target)
            (λ ready. absurd (
              not_ready k.ecs k.current target xs t some_target clear w at_t
                ((==_iff _ _).0 ready)))
            λ unready. send_later-Waits k target value xs some_caller apart clear w) in
    all.ensured

pub recv-Ensures :
    (k : Kernel) (s : Ptr) (v : ℕ) (xs : List (Ptr × ℕ))
    → ((a : Ptr) → Among a ((s, v) ∷ xs) → a ≢ k.current)
    → Waits k.ecs k.current ((s, v) ∷ xs)
    → Ensures
        (λ r. (answer r.1.ecs k.current ≡ some v) × Waits r.1.ecs k.current xs)
        (handle_ipc_recv k)
unfolding handle_ipc_recv recv_now
recv-Ensures k s v xs clear (first, some_s, l, w) = Ensures-lookup (k.ecs k.current) λ c at_c.
    let waits : c.pending_sender ≡ s = ground (arith, first, at_c) in
    let other : s ≢ k.current = clear s (inl refl) in
    Ensures-test (not (c.pending_sender == null) && not (c.pending_sender == k.current))
      (λ found. Ensures-lookup (k.ecs c.pending_sender) λ e at_e.
        let c' = record c { pending_sender = e.pending_sender } in
        let k1 = put_ec k k.current (with_eax c' e.ipc_val) in
        let taken : answer k1.ecs k.current ≡ some v = ground (arith, l, at_e, waits) in
        let linked : senders k1.ecs k.current ≡ senders k.ecs s = ground (arith, at_e, waits) in
        let popped : Waits k1.ecs k.current xs =
          Waits-moves k.ecs k1.ecs s k.current xs linked
            (λ a among.
              let same =
                store-other k.ecs k.current a (with_eax c' e.ipc_val) (clear a (inr among)) in
              (
                ap (Option.map (λ (x : Ec). x.ipc_val)) same,
                ap (Option.map (λ (x : Ec). x.pending_sender)) same,
              ))
            w in
        Ensures-bind {P = λ k2. (answer k2.ecs k.current ≡ some v) × Waits k2.ecs k.current xs}
          (if c'.pending_sender == null && not (c'.saved_priority == 0)
            then restore_priority k1 k1.current c'.saved_priority
            else ok k1)
          (Ensures-if (c'.pending_sender == null && not (c'.saved_priority == 0))
            (Ensures-weaken
              (λ k2 same. (
                (same k.current).1 ∙ taken,
                Waits-moves k1.ecs k2.ecs k.current k.current xs (same k.current).0.1
                    (λ a among. (same a).0) popped,
              ))
              (restore_priority-Same k1 k1.current c'.saved_priority))
            (Ensures-ok (taken, popped)))
          λ k2 w'. Ensures-any (unblock k2.ecs k2.sched c.pending_sender) λ s'. Ensures-ok w')
      λ none_waits. absurd (ground (arith, none_waits, waits, some_s, other))
