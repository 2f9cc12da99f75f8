-- ===== src/Syscall/Creation.antt =====
-- What `SyscallCreateEC::handle` (kern/src/syscall.cc) has done when it returns, and how it ends else.
use nova_mckernel_lab.Base.{
  ℕ, zero, suc, ◌≤◌, ◌<◌, ◌≡◌, refl, ◌≢◌, ◌⊎◌, inl, inr, false, some, List, [], ◌∷◌, length,
  get_elem?, get_or, arith, ◌==◌, if◌then◌else◌, ◌++◌, sym, get_elem?-set_self, get_elem?-set_ne,
}
use nova_mckernel_lab.Machine.{minus_one, Outcome, ok, panic, fault, queue_full}
use nova_mckernel_lab.Ec.{Ptr, null, Ec, Regs, ret_user_iret}
use nova_mckernel_lab.Scheduler.Ring.{contents}
use nova_mckernel_lab.Scheduler.Entries.{enqueue-contents}
use nova_mckernel_lab.Scheduler.Valid.{get-AllRings}
use nova_mckernel_lab.Pd.Caps.{IsPd, get_cap-set_cap}
use nova_mckernel_lab.Ipc.Delivery.{answer}
use nova_mckernel_lab.Scheduler.{Queue, num_priorities, max_ecs, enqueue}
use nova_mckernel_lab.Pd.{Pd, max_caps, set_cap, get_cap}
use nova_mckernel_lab.Kernel.{Kernel, Control, returns, user_ec}
use nova_mckernel_lab.Syscall.{handle_create_ec}
use nova_mckernel_lab.Syscall.Orderly.{IsOrderly, target_pd, made, created, create_ec-Stops}

-- A context that has not run: it starts in user code at `eip` with the stack pointer `esp`.
abbrev pub IsNew : ℕ → ℕ → ℕ → Ptr → Ec → Type 0
IsNew eip esp priority pd e =
    (e.cont ≡ ret_user_iret)
    × (e.regs.eip ≡ eip)
    × (e.regs.esp ≡ esp)
    × (e.regs.cs ≡ 0x1b)
    × (e.regs.ss ≡ 0x23)
    × (e.regs.ds ≡ 0x23)
    × (e.regs.es ≡ 0x23)
    × (e.regs.efl ≡ 0x200)
    × (e.priority ≡ priority)
    × (e.pd ≡ pd)
    × (e.blocked ≡ false)
    × (e.pending_sender ≡ null)

-- One more capability, and nothing else.
abbrev pub Grants : Pd → ℕ → Ptr → Pd → Type 0
Grants d slot ec d' =
    ((j : ℕ) → get_cap d' j ≡ (if j == slot then ec else get_cap d j))
    × (d'.parent ≡ d.parent)
    × (d'.children ≡ d.children)

-- The answer, and what becomes of the caller's own table.
abbrev pub Answers : Pd → ℕ → Ptr → Pd → ℕ → Type 0
Answers d slot ec d' v =
    ((get_cap d slot ≡ null) × (v ≡ slot) × Grants d slot ec d')
    ⊎ ((get_cap d slot ≢ null) × (v ≡ minus_one) × (d' ≡ d))

-- What a call that returns has done.
abbrev pub Creates :
    (k : Kernel) (argc eip esp priority capability target : ℕ) (a : Ptr)
    → IsOrderly k argc capability target a
    → Queue
    → Kernel
    → Type 0
Creates k argc eip esp priority capability target a h q k' =
    let at = get_or h.own.children target null in
    ((e : Ec) × (k'.ecs a ≡ some e) × IsNew eip esp priority at e)
    × ((d : Pd) × (k'.pds at ≡ some d) × Grants h.child capability a d)
    × ((d : Pd) × (v : ℕ) × (k'.pds h.caller.pd ≡ some d)
        × (answer k'.ecs k.current ≡ some v)
        × Answers h.own capability a d v)
    × ((q' : Queue) × (get_elem? k'.sched.queues priority ≡ some q')
        × (contents q' ≡ contents q ++ ((a, false) ∷ [])))
    × ((i : ℕ) → i ≢ priority → get_elem? k'.sched.queues i ≡ get_elem? k.sched.queues i)
    × (k'.current ≡ k.current)

abbrev pub Ends :
    (k : Kernel) (argc eip esp priority capability target : ℕ) (a : Ptr)
    → IsOrderly k argc capability target a
    → Outcome (Control × Kernel)
    → Type 0
Ends k argc eip esp priority capability target a h r =
    ((num_priorities ≤ priority) × (r ≡ fault))
    ⊎ (((q : Queue) × (get_elem? k.sched.queues priority ≡ some q)
          × (max_ecs ≤ q.count)
          × (r ≡ panic (queue_full priority)))
        ⊎ ((q : Queue) × (k' : Kernel) × (get_elem? k.sched.queues priority ≡ some q)
            × (q.count < max_ecs)
            × (r ≡ ok (returns, k'))
            × Creates k argc eip esp priority capability target a h q k'))

set_cap-frame :
    (d : Pd) (slot : ℕ) (ec : Ptr)
    → ((set_cap d slot ec).1.parent ≡ d.parent) × ((set_cap d slot ec).1.children ≡ d.children)
unfolding set_cap
set_cap-frame d slot ec = ground arith

set_cap-Grants :
    (d : Pd) (slot : ℕ) (ec : Ptr)
    → IsPd d
    → slot < max_caps
    → get_cap d slot ≡ null
    → Grants d slot ec (set_cap d slot ec).1
set_cap-Grants d slot ec w inside free =
    let (up, down) = set_cap-frame d slot ec in
    (λ j. go j (get_cap-set_cap d slot j ec w), up, down)
  where
    go :
        (j : ℕ)
        → (((slot < max_caps)
              × (get_cap d slot ≡ null)
              × ((set_cap d slot ec).0 ≡ slot)
              × (get_cap (set_cap d slot ec).1 j ≡ (if j == slot then ec else get_cap d j)))
            ⊎ (((max_caps ≤ slot) ⊎ (get_cap d slot ≢ null))
                × ((set_cap d slot ec).0 ≡ minus_one)
                × ((set_cap d slot ec).1 ≡ d)))
        → get_cap (set_cap d slot ec).1 j ≡ (if j == slot then ec else get_cap d j)
    go j (inl made_it) = made_it.3
    go j (inr (inl out, _, _)) = absurd (omega (arith, out, inside))
    go j (inr (inr taken, _, _)) = absurd (taken free)

set_cap-Answers :
    (d : Pd) (slot : ℕ) (ec : Ptr)
    → IsPd d
    → slot < max_caps
    → Answers d slot ec (set_cap d slot ec).1 (set_cap d slot ec).0
set_cap-Answers d slot ec w inside = go (get_cap-set_cap d slot 0 ec w)
  where
    go :
        (((slot < max_caps)
            × (get_cap d slot ≡ null)
            × ((set_cap d slot ec).0 ≡ slot)
            × (get_cap (set_cap d slot ec).1 0 ≡ (if 0 == slot then ec else get_cap d 0)))
          ⊎ (((max_caps ≤ slot) ⊎ (get_cap d slot ≢ null))
              × ((set_cap d slot ec).0 ≡ minus_one)
              × ((set_cap d slot ec).1 ≡ d)))
        → Answers d slot ec (set_cap d slot ec).1 (set_cap d slot ec).0
    go (inl (inside', free, back, rest)) = inl (free, back, set_cap-Grants d slot ec w inside free)
    go (inr (inl out, _, _)) = absurd (omega (arith, out, inside))
    go (inr (inr taken, back, same)) = inr (taken, back, same)

user_ec-IsNew :
    (raw : Regs) (eip esp priority : ℕ) (pd : Ptr)
    → IsNew eip esp priority pd (user_ec raw eip esp priority pd)
unfolding user_ec
user_ec-IsNew raw eip esp priority pd =
    (refl, refl, refl, refl, refl, refl, refl, refl, refl, refl, refl, refl)

created-Creates :
    (k : Kernel) (argc eip esp priority capability target : ℕ) (a : Ptr)
    (h : IsOrderly k argc capability target a) (q : Queue)
    → get_elem? k.sched.queues priority ≡ some q
    → q.count < max_ecs
    → (created k argc eip esp priority capability target a h q).ecs a
      ≡ some (made k argc eip esp priority capability target a h)
    → (created k argc eip esp priority capability target a h q).pds
        (target_pd k argc eip esp priority capability target a h)
      ≡ some (set_cap h.child capability a).1
    → Creates k argc eip esp priority capability target a h q
        (created k argc eip esp priority capability target a h q)
created-Creates k argc eip esp priority capability target a h q at room stored child = (
  (
    made k argc eip esp priority capability target a h,
    stored,
    user_ec-IsNew (k.raw a) eip esp priority _,
  ),
  (
    (set_cap h.child capability a).1,
    child,
    set_cap-Grants h.child capability a h.child_pd h.slot_inside h.slot_free,
  ),
  (
    (set_cap h.own capability a).1,
    (set_cap h.own capability a).0,
    ground arith,
    ground arith,
    set_cap-Answers h.own capability a h.own_pd h.slot_inside,
  ),
  (
    enqueue q a false,
    get_elem?-set_self k.sched.queues priority (enqueue q a false)
        (get_elem?-lt k.sched.queues priority at),
    (enqueue-contents q a false (get-AllRings k.sched.queues priority q h.rings at) room).1,
  ),
  (λ i other. get_elem?-set_ne k.sched.queues priority i (enqueue q a false) (λ e. other (sym e))),
  refl,
)
  where
    get_elem?-lt :
        {A : Type 0} {v : A} (xs : List A) (i : ℕ) → get_elem? xs i ≡ some v → i < length xs
    get_elem?-lt [] i e = absurd (cc e)
    get_elem?-lt (x ∷ xs) zero e = omega arith
    get_elem?-lt (x ∷ xs) (suc i) e = omega (arith, get_elem?-lt xs i e)

-- A call of `create_ec` that is in order up to the priority: with a priority that the scheduler does
-- not have it ends in an index out of range; else with a full queue of that priority it panics; else
-- it returns. There is then a context at the address that the pool gave, which has not run: it starts in
-- user code at the entry and with the stack of the call, with its priority, and belongs to the child.
-- The child has the capability in the slot, and all other slots as before; so has the caller, and the
-- answer is the slot, or the caller's slot was taken, its table is as before and the answer is -1. The
-- new context is the last of the queue of its priority, the other queues are as before, and the caller
-- still runs.
pub create_ec-Ends :
    (k : Kernel) (argc eip esp priority capability target : ℕ) (a : Ptr)
    (h : IsOrderly k argc capability target a)
    → Ends k argc eip esp priority capability target a h
        (handle_create_ec k argc eip esp priority capability target)
create_ec-Ends k argc eip esp priority capability target a h =
    elim (create_ec-Stops k argc eip esp priority capability target a h) [
      | inl unknown ↦ inl unknown
      | inr (inl full) ↦ inr (inl full)
      | inr (inr (q, at, room, e, stored, child)) ↦ inr (
          inr (
            q,
            created k argc eip esp priority capability target a h q,
            at,
            room,
            e,
            created-Creates k argc eip esp priority capability target a h q at room stored child,
          ))
    ]
