-- ===== src/Ipc/Delivery.antt =====
-- A message of kern/src/syscall.cc arrives: `SyscallIpcSend::handle` followed by
-- `SyscallIpcRecv::handle` of the context that it was sent to.
use nova_mckernel_lab.Base.{
  ℕ, ◌≡◌, refl, sym, ap, ◌∙◌, ◌≢◌, not, ◌&&◌, true, false, Bool-cases, Option, none, some, inl, inr,
  arith, ltb, ◌==◌, ==_iff, if◌then◌else◌, subst,
}
use mathlib.Core.Option
use nova_mckernel_lab.Machine.{ok, fault}
use nova_mckernel_lab.Refines.{
  Promised, Ensures, Ensures-ok, Ensures-if, Ensures-any, Ensures-bind, Ensures-test,
  Ensures-lookup, Ensures-fault, Ensures-weaken,
}
use nova_mckernel_lab.Ec.{Ptr, null, Ec, Ecs, store_ec}
use nova_mckernel_lab.Scheduler.{yield, block, unblock, reprioritize}
use nova_mckernel_lab.Scheduler.Priority.{reprioritize-Writes}
use nova_mckernel_lab.Kernel.{Kernel, Control, ec_at, put_ec, with_eax, make_current}
use nova_mckernel_lab.Syscall.{capability_of, switch_to}
use nova_mckernel_lab.Ipc.{
  change_priority, send_now, inherit_priority, register, block_caller, send_later, handle_ipc_send,
  restore_priority, recv_now, handle_ipc_recv,
}

-- What the other parties to a message see of a context.
abbrev pub letter : Ecs → Ptr → Option ℕ
letter ecs p = Option.map (λ (e : Ec). e.ipc_val) (ecs p)

abbrev pub senders : Ecs → Ptr → Option Ptr
senders ecs p = Option.map (λ (e : Ec). e.pending_sender) (ecs p)

abbrev pub answer : Ecs → Ptr → Option ℕ
answer ecs p = Option.map (λ (e : Ec). e.regs.eax) (ecs p)

-- The sender's value is ready, and the sender heads the list of the target.
abbrev pub Posted : Ptr → Ptr → ℕ → Kernel → Type 0
Posted sender target value k =
    (letter k.ecs sender ≡ some value) × (senders k.ecs target ≡ some sender)

switch_to-ecs : (k : Kernel) (p : Option Ptr) → Ensures (λ r. r.1.ecs ≡ k.ecs) (switch_to k p fault)
unfolding make_current
switch_to-ecs k none = Ensures-fault
switch_to-ecs k (some p) =
    Ensures-if (p == null) Ensures-fault (Ensures-any (ec_at k p) λ e. Ensures-ok refl)

pub block_caller-ecs : (k : Kernel) → Ensures (λ r. r.1.ecs ≡ k.ecs) (block_caller k)
unfolding block_caller
block_caller-ecs k =
    Ensures-any (block k.ecs k.sched k.current) λ r. switch_to-ecs (record k { sched = r.1 }) r.0

-- A write to a context that leaves a field of it alone.
pub map-store_ec :
    {A : Type 0} (f : Ec → A) (ecs : Ecs) (p q : Ptr) (e e' : Ec)
    → ecs p ≡ some e
    → f e' ≡ f e
    → Option.map f (store_ec ecs p e' q) ≡ Option.map f (ecs q)
map-store_ec f ecs p q e e' at same = elim (Bool-cases (p == q)) [
  | inl here ↦ rw here (ap some same ∙ ap (Option.map f) (sym at ∙ ap ecs ((==_iff p q).0 here)))
  | inr other ↦ rw other refl
]

-- A change of priority leaves alone the fields that messages use.
change_priority-map :
    {A : Type 0} (f : Ec → A) (k : Kernel) (p q : Ptr) (prio : ℕ)
    → ((e : Ec) (n : ℕ) → f (record e { priority = n }) ≡ f e)
    → Ensures (λ k'. Option.map f (k'.ecs q) ≡ Option.map f (k.ecs q)) (change_priority k p prio)
change_priority-map f k p q prio keep =
    Ensures-bind (reprioritize k.ecs k.sched p prio) (reprioritize-Writes k.ecs k.sched p prio)
      λ r (e, at, w). Ensures-ok (
        ap (λ (ecs : Ecs). Option.map f (ecs q)) w
        ∙ map-store_ec f k.ecs p q e (record e { priority = prio }) at (keep e prio))

restore_priority-answer :
    (k : Kernel) (p q : Ptr) (saved : ℕ)
    → Ensures (λ k'. answer k'.ecs q ≡ answer k.ecs q) (restore_priority k p saved)
unfolding restore_priority
restore_priority-answer k p q saved =
    Ensures-bind (change_priority k p saved)
      (change_priority-map (λ e. e.regs.eax) k p q saved λ e n. refl)
      λ k' w. Ensures-lookup (k'.ecs p) λ e at. Ensures-ok (
        map-store_ec (λ (e : Ec). e.regs.eax) k'.ecs p q e (record e { saved_priority = 0 }) at refl
        ∙ w)

register-Posted :
    (k : Kernel) (caller target : Ptr) (value : ℕ)
    → letter k.ecs caller ≡ some value
    → Ensures (Posted caller target value) (register k caller target)
unfolding register
register-Posted k caller target value h = Ensures-lookup (k.ecs target) λ t at_t.
    Ensures-lookup (k.ecs caller) λ c at_c.
      let k' = put_ec k caller (record c { pending_sender = t.pending_sender }) in
      Ensures-lookup (k'.ecs target) λ t' at_t'. Ensures-ok (
        map-store_ec (λ (e : Ec). e.ipc_val) k'.ecs target caller t'
              (record t' { pending_sender = caller }) at_t' refl
            ∙ map-store_ec (λ (e : Ec). e.ipc_val) k.ecs caller caller c
                (record c { pending_sender = t.pending_sender }) at_c refl
            ∙ h,
        ground arith,
      )

send_later-Posted :
    (k : Kernel) (target : Ptr) (value : ℕ)
    → Ensures (λ r. Posted k.current target value r.1) (send_later k target value)
unfolding send_later inherit_priority
send_later-Posted k target value = Ensures-any (ec_at k k.current) λ c.
    let k0 = put_ec k k.current (record c { ipc_val = value }) in
    let ready : letter k0.ecs k.current ≡ some value = ground arith in
    Ensures-bind {P = λ k1. letter k1.ecs k.current ≡ some value}
      (inherit_priority k0 k.current target)
      (Ensures-any (ec_at k0 k.current) λ c'. Ensures-lookup (k0.ecs target) λ t at.
        let k1 = put_ec k0 target (record t { saved_priority = t.priority }) in
        Ensures-if (ltb c'.priority t.priority)
          (Ensures-weaken
            (λ k2 same.
              same
              ∙ map-store_ec (λ (e : Ec). e.ipc_val) k0.ecs target k.current t
                  (record t { saved_priority = t.priority }) at refl
              ∙ ready)
            (change_priority-map (λ e. e.ipc_val) k1 target k.current c'.priority λ e n. refl))
          (Ensures-ok ready))
      λ k1 w.
        Ensures-bind (register k1 k.current target) (register-Posted k1 k.current target value w)
          λ k2 p. Ensures-weaken (λ r same. keep k2 r.1 same p) (block_caller-ecs k2)
  where
    keep :
        (k2 k3 : Kernel)
        → k3.ecs ≡ k2.ecs
        → Posted k.current target value k2
        → Posted k.current target value k3
    keep k2 k3 same p =
        (ap (λ ecs. letter ecs k.current) same ∙ p.0, ap (λ ecs. senders ecs target) same ∙ p.1)

recv-answer :
    (k : Kernel) (sender : Ptr) (value : ℕ)
    → sender ≢ null
    → sender ≢ k.current
    → Posted sender k.current value k
    → Ensures (λ r. answer r.1.ecs k.current ≡ some value) (handle_ipc_recv k)
unfolding handle_ipc_recv recv_now
recv-answer k sender value some_sender other p = Ensures-lookup (k.ecs k.current) λ c at_c.
    let waits : c.pending_sender ≡ sender = ground (arith, p.1, at_c) in
    Ensures-test (not (c.pending_sender == null) && not (c.pending_sender == k.current))
      (λ found. Ensures-lookup (k.ecs c.pending_sender) λ s at_s.
        let c' = record c { pending_sender = s.pending_sender } in
        let k1 = put_ec k k.current (with_eax c' s.ipc_val) in
        let taken : answer k1.ecs k.current ≡ some value = ground (arith, p.0, at_s, waits) in
        Ensures-bind {P = λ k2. answer k2.ecs k.current ≡ some value}
          (if c'.pending_sender == null && not (c'.saved_priority == 0)
            then restore_priority k1 k1.current c'.saved_priority
            else ok k1)
          (Ensures-if (c'.pending_sender == null && not (c'.saved_priority == 0))
            (Ensures-weaken (λ k2 same. same ∙ taken)
              (restore_priority-answer k1 k1.current k.current c'.saved_priority))
            (Ensures-ok taken))
          λ k2 w. Ensures-any (unblock k2.ecs k2.sched c.pending_sender) λ s'. Ensures-ok w)
      λ none_waits. absurd (ground (arith, none_waits, waits, some_sender, other))

-- A message to another context that waits for none yet: if the send and the next receive of the target
-- return, and the contexts' memory is then as the send leaves it, the target is answered the value that
-- was sent.
send-recv :
    (k : Kernel) (target_cap target value : ℕ) (t : Ec)
    → capability_of k target_cap ≡ ok target
    → target ≢ null
    → target ≢ k.current
    → k.current ≢ null
    → k.ecs target ≡ some t
    → t.pending_sender ≢ target
    → Promised
        (λ r.
          (later : Kernel)
          → later.ecs ≡ r.1.ecs
          → later.current ≡ target
          → Promised (λ r'. answer r'.1.ecs target ≡ some value) (handle_ipc_recv later))
        (handle_ipc_send k target_cap value)
unfolding handle_ipc_send
send-recv k target_cap target value t at some_target other some_caller at_t busy =
    let present : (target == null) ≡ false = ground (arith, some_target) in
    let all : Ensures
        (λ (r : Control × Kernel).
          (later : Kernel)
          → later.ecs ≡ r.1.ecs
          → later.current ≡ target
          → Promised (λ (r' : Control × Kernel). answer r'.1.ecs target ≡ some value)
              (handle_ipc_recv later))
        (handle_ipc_send k target_cap value) =
      rw (at, present)
        (Ensures-lookup (k.ecs target) λ t' at'.
          let same : t' ≡ t = cc in
          Ensures-test (t'.pending_sender == target)
            (λ ready.
              absurd (busy (ap (λ (x : Ec). x.pending_sender) (sym same) ∙ (==_iff _ _).0 ready)))
            λ unready. Ensures-weaken recv (send_later-Posted k target value)) in
    all.ensured
  where
    recv :
        (r : Control × Kernel)
        → Posted k.current target value r.1
        → (later : Kernel) → later.ecs ≡ r.1.ecs
        → later.current ≡ target
        → Promised (λ r'. answer r'.1.ecs target ≡ some value) (handle_ipc_recv later)
    recv r p later same now =
        subst
          (λ me.
            Promised (λ (r' : Control × Kernel). answer r'.1.ecs me ≡ some value)
              (handle_ipc_recv later))
          now
          (recv-answer later k.current value some_caller (λ e. other (sym now ∙ sym e))
            (
              ap (λ ecs. letter ecs k.current) same ∙ p.0,
              ap (λ ecs. senders ecs later.current) same ∙ ap (senders r.1.ecs) now ∙ p.1,
            )).ensured

-- A message to a context that waits for one: if the send goes on, the value is in the `eax` of the
-- target, which waits no more, and no other context has changed.
pub send_waiting :
    (k : Kernel) (target_cap target value : ℕ) (t : Ec)
    → capability_of k target_cap ≡ ok target
    → target ≢ null
    → k.ecs target ≡ some t
    → t.pending_sender ≡ target
    → Promised
        (λ r. r.1.ecs ≡ store_ec k.ecs target (with_eax (record t { pending_sender = null }) value))
        (handle_ipc_send k target_cap value)
unfolding handle_ipc_send send_now
send_waiting k target_cap target value t at some_target at_t ready =
    let present : (target == null) ≡ false = ground (arith, some_target) in
    let is_ready : (t.pending_sender == target) ≡ true = ground (arith, ready) in
    let k1 = put_ec k target (with_eax (record t { pending_sender = null }) value) in
    let all : Ensures (λ r. r.1.ecs ≡ k1.ecs) (send_now k target t value) =
      Ensures-any (unblock k1.ecs k1.sched target) λ s.
        Ensures-any (yield k1.ecs s) λ r. switch_to-ecs (record k1 { sched = r.1 }) (some r.0) in
    rw (at, present, at_t, is_ready) all.ensured
