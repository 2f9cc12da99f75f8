-- ===== src/Ipc/Links.antt =====
-- The links of the senders that wait for a context, and what leaves them as they are: the changes of
-- priority in `SyscallIpcSend::handle` and `SyscallIpcRecv::handle` (kern/src/syscall.cc).
use nova_mckernel_lab.Base.{
  ℕ, ◌≡◌, refl, sym, ◌∙◌, ◌≢◌, ◌⊎◌, inl, inr, false, some, List, [], ◌∷◌, arith, ltb, ◌==◌, subst,
}
use nova_mckernel_lab.Refines.{
  Ensures, Ensures-ok, Ensures-if, Ensures-any, Ensures-bind, Ensures-lookup, Ensures-weaken,
}
use nova_mckernel_lab.Ec.{Ptr, null, Ec, Ecs, store_ec}
use nova_mckernel_lab.Scheduler.{reprioritize}
use nova_mckernel_lab.Scheduler.Priority.{reprioritize-Writes}
use nova_mckernel_lab.Kernel.{Kernel, ec_at, put_ec}
use nova_mckernel_lab.Ipc.{change_priority, inherit_priority, restore_priority}
use nova_mckernel_lab.Ipc.Delivery.{letter, senders, answer, map-store_ec}

-- From the context `p` on, the links lead through the senders of the list, the last one first, each
-- with its message, and then end.
abbrev pub Waits : Ecs → Ptr → List (Ptr × ℕ) → Type 0
Waits ecs p [] = senders ecs p ≡ some null
Waits ecs p ((s, v) ∷ xs) =
    (senders ecs p ≡ some s) × (s ≢ null) × (letter ecs s ≡ some v) × Waits ecs s xs

abbrev pub Among : Ptr → List (Ptr × ℕ) → Type 0
Among q [] = ⊥
Among q ((s, v) ∷ xs) = (q ≡ s) ⊎ Among q xs

-- What messages use of the context at `q` has not changed.
abbrev pub Same : Ecs → Ecs → Ptr → Type 0
Same ecs ecs' q = (letter ecs' q ≡ letter ecs q) × (senders ecs' q ≡ senders ecs q)

-- The list that begins at `p` before begins at `q` afterwards, if its senders have not changed.
pub Waits-moves :
    (ecs ecs' : Ecs) (p q : Ptr) (xs : List (Ptr × ℕ))
    → senders ecs' q ≡ senders ecs p
    → ((s : Ptr) → Among s xs → Same ecs ecs' s)
    → Waits ecs p xs
    → Waits ecs' q xs
Waits-moves ecs ecs' p q [] start same w = start ∙ w
Waits-moves ecs ecs' p q ((s, v) ∷ xs) start same (at, some_s, l, w) =
    let here = same s (inl refl) in
    (start ∙ at, some_s, here.0 ∙ l, Waits-moves ecs ecs' s s xs here.1 (λ a b. same a (inr b)) w)

pub store-Same :
    (ecs : Ecs) (p q : Ptr) (e e' : Ec)
    → ecs p ≡ some e
    → e'.ipc_val ≡ e.ipc_val
    → e'.pending_sender ≡ e.pending_sender
    → Same ecs (store_ec ecs p e') q
store-Same ecs p q e e' at l s = (
  map-store_ec (λ (x : Ec). x.ipc_val) ecs p q e e' at l,
  map-store_ec (λ (x : Ec). x.pending_sender) ecs p q e e' at s,
)

pub store-other : (ecs : Ecs) (p q : Ptr) (e' : Ec) → q ≢ p → store_ec ecs p e' q ≡ ecs q
store-other ecs p q e' h = let other : (p == q) ≡ false = ground (arith, h) in rw other refl

-- A change of priority is none of messages.
pub change_priority-Same :
    (k : Kernel) (p : Ptr) (prio : ℕ)
    → Ensures
        (λ k'. (q : Ptr) → Same k.ecs k'.ecs q × (answer k'.ecs q ≡ answer k.ecs q))
        (change_priority k p prio)
change_priority-Same k p prio =
    Ensures-bind (reprioritize k.ecs k.sched p prio) (reprioritize-Writes k.ecs k.sched p prio)
      λ r (e, at, w). Ensures-ok λ q.
        let e' = record e { priority = prio } in
        subst (λ (ecs : Ecs). Same k.ecs ecs q × (answer ecs q ≡ answer k.ecs q)) (sym w)
          (
            store-Same k.ecs p q e e' at refl refl,
            map-store_ec (λ (x : Ec). x.regs.eax) k.ecs p q e e' at refl,
          )

pub restore_priority-Same :
    (k : Kernel) (p : Ptr) (saved : ℕ)
    → Ensures
        (λ k'. (q : Ptr) → Same k.ecs k'.ecs q × (answer k'.ecs q ≡ answer k.ecs q))
        (restore_priority k p saved)
unfolding restore_priority
restore_priority-Same k p saved =
    Ensures-bind (change_priority k p saved) (change_priority-Same k p saved) λ k' w.
      Ensures-lookup (k'.ecs p) λ e at. Ensures-ok λ q.
        let e' = record e { saved_priority = 0 } in
        let (l, s) = store-Same k'.ecs p q e e' at refl refl in
        (
          (l ∙ (w q).0.0, s ∙ (w q).0.1),
          map-store_ec (λ (x : Ec). x.regs.eax) k'.ecs p q e e' at refl ∙ (w q).1,
        )

pub inherit_priority-Same :
    (k : Kernel) (caller target : Ptr)
    → Ensures (λ k'. (q : Ptr) → Same k.ecs k'.ecs q) (inherit_priority k caller target)
unfolding inherit_priority
inherit_priority-Same k caller target = Ensures-any (ec_at k caller) λ c.
    Ensures-lookup (k.ecs target) λ t at.
      let t' = record t { saved_priority = t.priority } in
      Ensures-if (ltb c.priority t.priority)
        (Ensures-weaken
          (λ k' w q.
            let (l, s) = store-Same k.ecs target q t t' at refl refl in
            ((w q).0.0 ∙ l, (w q).0.1 ∙ s))
          (change_priority-Same (put_ec k target t') target c.priority))
        (Ensures-ok λ q. (refl, refl))
