-- ===== src/Safety/Messages.antt =====
-- The pointers of the kernel in the message passing of kern/src/syscall.cc.
use nova_mckernel_lab.Base.{
  ℕ, ◌<◌, ◌≡◌, refl, ◌∙◌, ◌≢◌, ◌⊎◌, inl, inr, not, ◌&&◌, Bool-cases, some, arith, ltb, leb, ◌==◌,
  if◌then◌else◌, subst,
}
use nova_mckernel_lab.Machine.{ok, fault, minus_one}
use nova_mckernel_lab.Safe.{Safe, Safe-ok, Safe-if, Safe-bind, Safe-lookup, Safe-weaken}
use nova_mckernel_lab.Ec.{Ptr, null, Ec}
use nova_mckernel_lab.Scheduler.{num_priorities, unblock}
use nova_mckernel_lab.Pd.{max_caps, get_cap}
use nova_mckernel_lab.Kernel.{Kernel, Message, put_ec, with_eax, set_eax, print, no_receiver}
use nova_mckernel_lab.Syscall.{reply, capability_of, current_pd}
use nova_mckernel_lab.Ipc.{
  inherit_priority, register, send_now, send_later, handle_ipc_send, restore_priority, recv_now,
  recv_later, handle_ipc_recv, change_priority,
}
use nova_mckernel_lab.Safety.{Stored, Domain, IsContext, IsIntact}
use nova_mckernel_lab.Safety.Memory.{put_ec-IsIntact, current-Stored, store-Stored}
use nova_mckernel_lab.Safety.Scheduling.{
  Left, Continues, unblock-IsIntact, change_priority-Continues, yield-Left, block_caller-Left,
}

goes_on : (k : Kernel) → IsIntact k → Continues k k
goes_on k h = record { intact = h; current = refl; stored = λ p there. there }

write-Continues :
    (k : Kernel) (p : Ptr) (w : Ec)
    → IsIntact k
    → IsContext k.ecs k.pds w
    → Continues k (put_ec k p w)
write-Continues k p w h good = record {
  intact = put_ec-IsIntact k p w h good;
  current = refl;
  stored = λ q there. store-Stored k.ecs p q w there;
}

then_Continues : {k k' k'' : Kernel} → Continues k k' → Continues k' k'' → Continues k k''
then_Continues c c' = record {
  intact = c'.intact;
  current = c'.current ∙ c.current;
  stored = λ p there. c'.stored p (c.stored p there);
}

pub stored_of : {B : Type 0} (p : Ptr) → (p ≡ null) ⊎ B → p ≢ null → B
stored_of p (inl none_there) some_p = absurd (some_p none_there)
stored_of p (inr there) some_p = there

-- A message on the console changes no pointer.
pub print-IsIntact : (k : Kernel) (x : Message) → IsIntact k → IsIntact (print x k)
print-IsIntact k x h = record {
  kernel = h.kernel;
  contexts = h.contexts;
  domains = h.domains;
  queued = h.queued;
}

-- A write to a context, and a change of its priority.
rewritten :
    (k : Kernel) (p : Ptr) (w : Ec) (prio : ℕ)
    → IsIntact k
    → p ≢ null
    → Stored k.ecs p
    → IsContext k.ecs k.pds w
    → prio < num_priorities
    → Safe (Continues k) (change_priority (put_ec k p w) p prio)
rewritten k p w prio h some_p there good small =
    let c = write-Continues k p w h good in
    let r =
      change_priority-Continues (put_ec k p w) p prio c.intact some_p (c.stored p there) small in
    Safe-weaken (λ k' c'. then_Continues c c') r

pub reply-Left : (k : Kernel) (v : ℕ) → IsIntact k → Safe Left (reply k v)
unfolding set_eax
reply-Left k v h =
    Safe-bind {P = IsIntact} (set_eax k k.current v)
      (Safe-lookup (current-Stored k h)
        λ e at. Safe-ok (put_ec-IsIntact k k.current (with_eax e v) h (h.contexts k.current e at)))
      λ k' h'. Safe-ok h'

pub current_pd-Domain : (k : Kernel) → IsIntact k → Safe (Domain k.pds) (current_pd k)
current_pd-Domain k h =
    Safe-lookup (current-Stored k h) λ e at. Safe-ok (h.contexts k.current e at).3

pub capability_of-Stored :
    (k : Kernel) (slot : ℕ)
    → IsIntact k
    → Safe (λ p. (p ≡ null) ⊎ Stored k.ecs p) (capability_of k slot)
unfolding get_cap
capability_of-Stored k slot h = Safe-bind (current_pd k) (current_pd-Domain k h) λ own there.
    Safe-lookup there λ d at. Safe-ok (elim (Bool-cases (leb max_caps slot)) [
      | inl out ↦ inl (rw out refl)
      | inr inside ↦ rw inside ((h.domains own d at).1 slot)
    ])

inherit_priority-Continues :
    (k : Kernel) (target : Ptr)
    → IsIntact k
    → target ≢ null
    → Stored k.ecs target
    → Safe (Continues k) (inherit_priority k k.current target)
unfolding inherit_priority
inherit_priority-Continues k target h some_target there = Safe-lookup (current-Stored k h) λ c at_c.
    Safe-lookup there λ t at_t.
      let good = h.contexts target t at_t in
      Safe-if (ltb c.priority t.priority)
        (λ _.
          rewritten k target (record t { saved_priority = t.priority }) c.priority h some_target
            there (good.0, good.0, good.2, good.3) (h.contexts k.current c at_c).0)
        (λ _. Safe-ok (goes_on k h))

register-Continues :
    (k : Kernel) (target : Ptr)
    → IsIntact k
    → Stored k.ecs target
    → Safe (Continues k) (register k k.current target)
unfolding register
register-Continues k target h there = Safe-lookup there λ t at_t.
    Safe-lookup (current-Stored k h) λ c at_c.
      let good = h.contexts k.current c at_c in
      let w = record c { pending_sender = t.pending_sender } in
      let linked =
        write-Continues k k.current w h (good.0, good.1, (h.contexts target t at_t).2, good.3) in
      let k1 = put_ec k k.current w in
      Safe-lookup (linked.stored target there) λ t' at_t'.
        let good' = linked.intact.contexts target t' at_t' in
        Safe-ok (
          then_Continues linked (
            write-Continues k1 target (record t' { pending_sender = k.current }) linked.intact
              (good'.0, good'.1, inr (linked.stored k.current (current-Stored k h)), good'.3)))

send_now-Left :
    (k : Kernel) (target : Ptr) (t : Ec) (value : ℕ)
    → IsIntact k
    → k.ecs target ≡ some t
    → Safe Left (send_now k target t value)
unfolding send_now
send_now-Left k target t value h at =
    let good = h.contexts target t at in
    let w = with_eax (record t { pending_sender = null }) value in
    let k1 = put_ec k target w in
    let c = write-Continues k target w h (good.0, good.1, inl refl, good.3) in
    Safe-bind (unblock k1.ecs k1.sched target)
      (unblock-IsIntact k1 target c.intact (c.stored target (t, at)))
      λ s h'. yield-Left (record k1 { sched = s }) (λ k'. fault) h'

send_later-Left :
    (k : Kernel) (target : Ptr) (value : ℕ)
    → IsIntact k
    → target ≢ null
    → Stored k.ecs target
    → Safe Left (send_later k target value)
unfolding send_later
send_later-Left k target value h some_target there = Safe-lookup (current-Stored k h) λ c at_c.
    let w = record c { ipc_val = value } in
    let k0 = put_ec k k.current w in
    let c0 = write-Continues k k.current w h (h.contexts k.current c at_c) in
    Safe-bind (inherit_priority k0 k.current target)
      (inherit_priority-Continues k0 target c0.intact some_target (c0.stored target there))
      λ k1 c1.
        Safe-bind (register k1 k.current target)
          (subst (λ p. Safe (Continues k1) (register k1 p target)) c1.current
            (register-Continues k1 target c1.intact (c1.stored target (c0.stored target there))))
          λ k2 c2. block_caller-Left k2 c2.intact

pub handle_ipc_send-Left :
    (k : Kernel) (target_cap value : ℕ)
    → IsIntact k
    → Safe Left (handle_ipc_send k target_cap value)
unfolding handle_ipc_send
handle_ipc_send-Left k target_cap value h =
    Safe-bind (capability_of k target_cap) (capability_of-Stored k target_cap h) λ target found.
      Safe-if (target == null)
        (λ _. reply-Left (print (no_receiver target_cap) k) minus_one (print-IsIntact k _ h))
        (λ present.
          let some_target : target ≢ null = λ e. absurd (ground (arith, present, e)) in
          let there = stored_of target found some_target in
          Safe-lookup there λ t at.
            Safe-if (t.pending_sender == target) (λ _. send_now-Left k target t value h at)
              (λ _. send_later-Left k target value h some_target there))

restore_priority-Continues :
    (k : Kernel) (p : Ptr) (saved : ℕ)
    → IsIntact k
    → p ≢ null
    → Stored k.ecs p
    → saved < num_priorities
    → Safe (Continues k) (restore_priority k p saved)
unfolding restore_priority
restore_priority-Continues k p saved h some_p there small =
    Safe-bind (change_priority k p saved) (change_priority-Continues k p saved h some_p there small)
      λ k' c. Safe-lookup (c.stored p there) λ e at.
        let good = c.intact.contexts p e at in
        Safe-ok (
          then_Continues c (
            write-Continues k' p (record e { saved_priority = 0 }) c.intact
              (good.0, omega arith, good.2, good.3)))

recv_now-Left :
    (k : Kernel) (c : Ec)
    → IsIntact k
    → k.ecs k.current ≡ some c
    → c.pending_sender ≢ null
    → Safe Left (recv_now k c)
unfolding recv_now
recv_now-Left k c h at some_sender =
    let good = h.contexts k.current c at in
    let there = stored_of c.pending_sender good.2 some_sender in
    Safe-lookup there λ s at_s.
      let c' = record c { pending_sender = s.pending_sender } in
      let w = with_eax c' s.ipc_val in
      let k1 = put_ec k k.current w in
      let c1 =
        write-Continues k k.current w h
          (good.0, good.1, (h.contexts c.pending_sender s at_s).2, good.3) in
      Safe-bind {P = Continues k1}
        (if c'.pending_sender == null && not (c'.saved_priority == 0)
          then restore_priority k1 k1.current c'.saved_priority
          else ok k1)
        (Safe-if (c'.pending_sender == null && not (c'.saved_priority == 0))
          (λ _.
            restore_priority-Continues k1 k.current c'.saved_priority c1.intact h.kernel.2
              (c1.stored k.current (c, at)) good.1)
          (λ _. Safe-ok (goes_on k1 c1.intact)))
        λ k2 c2.
          Safe-bind (unblock k2.ecs k2.sched c.pending_sender)
            (unblock-IsIntact k2 c.pending_sender c2.intact
              (c2.stored c.pending_sender (c1.stored c.pending_sender there)))
            λ s' h'. Safe-ok h'

recv_later-Left :
    (k : Kernel) (c : Ec) → IsIntact k → k.ecs k.current ≡ some c → Safe Left (recv_later k c)
unfolding recv_later
recv_later-Left k c h at =
    Safe-bind {P = Continues k}
      (if c.saved_priority == 0 then ok k else restore_priority k k.current c.saved_priority)
      (Safe-if (c.saved_priority == 0) (λ _. Safe-ok (goes_on k h))
        (λ _.
          restore_priority-Continues k k.current c.saved_priority h h.kernel.2 (c, at)
            (h.contexts k.current c at).1))
      λ k1 c1. Safe-lookup (current-Stored k1 c1.intact) λ c' at'.
        let good = c1.intact.contexts k1.current c' at' in
        block_caller-Left (put_ec k1 k1.current (record c' { pending_sender = k1.current })) (
          put_ec-IsIntact k1 k1.current (record c' { pending_sender = k1.current }) c1.intact
            (good.0, good.1, inr (c', at'), good.3))

pub handle_ipc_recv-Left : (k : Kernel) → IsIntact k → Safe Left (handle_ipc_recv k)
unfolding handle_ipc_recv
handle_ipc_recv-Left k h = Safe-lookup (current-Stored k h) λ c at.
    Safe-if (not (c.pending_sender == null) && not (c.pending_sender == k.current))
      (λ found. recv_now-Left k c h at λ e. absurd (ground (arith, found, e)))
      (λ _. recv_later-Left k c h at)
