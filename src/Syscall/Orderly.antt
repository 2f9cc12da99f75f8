-- ===== src/Syscall/Orderly.antt =====
-- The steps of `SyscallCreateEC::handle` (kern/src/syscall.cc) once its arguments are in order, up to the
-- place in a queue.
use nova_mckernel_lab.Base.{
  ℕ, zero, suc, ◌≤◌, ◌<◌, ◌≡◌, refl, ap, ◌∙◌, ◌≢◌, ◌⊎◌, inl, inr, true, false, Bool-cases, none,
  some, List, [], ◌∷◌, length, get_elem?, get_or, arith, leb, ltb, ◌==◌, if◌then◌else◌,
}
use nova_mckernel_lab.Machine.{Outcome, ok, panic, fault, queue_full, ◌>>=◌, deref}
use nova_mckernel_lab.Refines.{via, skip}
use nova_mckernel_lab.Ec.{Ptr, null, Ec}
use nova_mckernel_lab.Scheduler.Valid.{AllRings}
use nova_mckernel_lab.Pd.Caps.{IsPd}
use nova_mckernel_lab.Scheduler.{
  Queue, Scheduler, num_priorities, max_ecs, enqueue, schedule, set_queue,
}
use nova_mckernel_lab.Scheduler.Returns.{HasQueues, queue_at-some}
use nova_mckernel_lab.Kalloc.{Kalloc, alloc}
use nova_mckernel_lab.Pd.{Pd, max_caps, set_cap, get_cap, is_negative}
use nova_mckernel_lab.Kernel.{
  Kernel, Control, returns, user_ec, new_ec, sizeof_ec, set_eax, with_eax, put_ec, put_pd,
}
use nova_mckernel_lab.Syscall.{handle_create_ec, reply}

-- The call is in order up to the priority: a child that is a domain with the slot free, and room in
-- the pool for the context at `a`.
pub record IsOrderly (k : Kernel) (argc capability target : ℕ) (a : Ptr) : Type 0 where
  pub caller : Ec
  pub own : Pd
  pub child : Pd
  pub pool : Kalloc
  pub enough : 4 ≤ argc
  pub inside : target < max_caps
  pub caller_at : k.ecs k.current ≡ some caller
  pub own_at : k.pds caller.pd ≡ some own
  pub child_at : k.pds (get_or own.children target null) ≡ some child
  pub apart : get_or own.children target null ≢ caller.pd
  pub allocated : alloc k.kalloc sizeof_ec ≡ ok (a, pool)
  pub new : a ≢ k.current
  pub slot_inside : capability < max_caps
  pub slot_free : get_cap child capability ≡ null
  pub queues : HasQueues k.sched
  pub busy : k.sched.current_ec ≢ null
  pub own_pd : IsPd own
  pub child_pd : IsPd child
  pub rings : AllRings k.sched.queues

module _ (k : Kernel) (argc eip esp priority capability target : ℕ) (a : Ptr)
    (h : IsOrderly k argc capability target a) where
  abbrev pub target_pd : Ptr
  target_pd = get_or h.own.children target null

  abbrev pub made : Ec
  made = user_ec (k.raw a) eip esp priority target_pd

  -- The kernel when the new context is put into its queue, but for the scheduler.
  abbrev pub granted : Kernel
  granted =
      let k1 = put_ec k a made in
      let k2 = put_pd (record k1 { kalloc = h.pool }) target_pd (set_cap h.child capability a).1 in
      put_pd k2 h.caller.pd (set_cap h.own capability a).1

  create_ec-steps : handle_create_ec k argc eip esp priority capability target ≡ (
      schedule granted.ecs granted.sched a >>= λ s.
      reply (record granted { sched = s }) (set_cap h.own capability a).0)
  unfolding handle_create_ec new_ec set_cap get_cap
  create_ec-steps =
      let enough : ltb argc 4 ≡ false = ground (arith, h.enough) in
      let inside : leb max_caps target ≡ false = ground (arith, h.inside) in
      let none_inside : leb max_caps capability ≡ false = ground (arith, h.slot_inside) in
      let free : (get_or h.child.caps capability null == null) ≡ true =
        ground (arith, none_inside, h.slot_free) in
      let answer : is_negative (set_cap h.child capability a).0 ≡ false =
        rw (none_inside, free) (ground (arith, h.slot_inside)) in
      let own_still : (put_pd k target_pd (set_cap h.child capability a).1).pds h.caller.pd
          ≡ some h.own =
        ground (arith, h.apart, h.own_at) in
      skip (ltb argc 4) _ _ enough (
        skip (leb max_caps target) _ _ inside (
          via _ _ h.caller.pd (via _ _ h.caller (ap deref h.caller_at) refl) (
            via _ _ h.own (ap deref h.own_at) (
              via _ _ _ (via _ _ _ h.allocated refl) (
                via _ _ h.child (ap deref h.child_at) (
                  skip (is_negative (set_cap h.child capability a).0) _ _ answer
                    (via _ _ h.own (ap deref own_still) refl)))))))

  caller_still : granted.ecs k.current ≡ some h.caller
  caller_still = ground (arith, h.new, h.caller_at)

  made_at : granted.ecs a ≡ some made
  made_at = ground arith

  -- `schedule` of the new context.
  abbrev pub queued : Queue → Scheduler
  queued q = set_queue k.sched priority (enqueue q a false)

  abbrev pub created : Queue → Kernel
  created q =
      put_ec (record granted { sched = queued q }) k.current
        (with_eax h.caller (set_cap h.own capability a).0)

  -- The three ends of the call, in the code's own terms.
  abbrev pub Stops : Outcome (Control × Kernel) → Type 0
  Stops r =
      ((num_priorities ≤ priority) × (r ≡ fault))
      ⊎ (((q : Queue) × (get_elem? k.sched.queues priority ≡ some q)
            × (max_ecs ≤ q.count)
            × (r ≡ panic (queue_full priority)))
          ⊎ ((q : Queue) × (get_elem? k.sched.queues priority ≡ some q)
              × (q.count < max_ecs)
              × (r ≡ ok (returns, created q))
              × ((created q).ecs a ≡ some made)
              × ((created q).pds target_pd ≡ some (set_cap h.child capability a).1)))

  schedule-made :
      (q : Queue)
      → get_elem? k.sched.queues priority ≡ some q
      → schedule granted.ecs granted.sched a
        ≡ (if leb max_ecs q.count then panic (queue_full priority) else ok (queued q))
  unfolding schedule user_ec
  schedule-made q at =
      let runs : (k.sched.current_ec == null) ≡ false = ground (arith, h.busy) in
      via _ _ priority (via _ _ made (ap deref made_at) refl)
        (via _ _ q (ap deref at) (rw runs refl))

  get_elem?-none : {A : Type 0} (xs : List A) (i : ℕ) → length xs ≤ i → get_elem? xs i ≡ none
  get_elem?-none [] i h = refl
  get_elem?-none (x ∷ xs) zero h = absurd (omega arith)
  get_elem?-none (x ∷ xs) (suc i) h = get_elem?-none xs i (omega (arith, h))

  missing : ltb priority num_priorities ≡ false → schedule granted.ecs granted.sched a ≡ fault
  unfolding schedule user_ec
  missing large =
      let out : length k.sched.queues ≤ priority = ground (arith, large, h.queues) in
      via _ _ priority (via _ _ made (ap deref made_at) refl)
        (rw (get_elem?-none k.sched.queues priority out) refl)

  created-ends :
      (q : Queue)
      → leb max_ecs q.count ≡ false
      → schedule granted.ecs granted.sched a
        ≡ (if leb max_ecs q.count then panic (queue_full priority) else ok (queued q))
      → handle_create_ec k argc eip esp priority capability target ≡ ok (returns, created q)
  unfolding set_eax
  created-ends q room e =
      create_ec-steps
      ∙ via _ _ (queued q) (e ∙ skip (leb max_ecs q.count) _ _ room refl)
          (via _ _ _ (via _ _ h.caller (ap deref caller_still) refl) refl)

  ends :
      (small : priority < num_priorities)
      → Stops (handle_create_ec k argc eip esp priority capability target)
  ends small =
      let (q, at) = queue_at-some k.sched priority h.queues small in
      let e = schedule-made q at in
      elim (Bool-cases (leb max_ecs q.count)) [
        | inl full ↦ inr (inl (q, at, ground (arith, full), create_ec-steps ∙ rw (e, full) refl))
        | inr room ↦ inr (
            inr (
              q,
              at,
              ground (arith, room),
              created-ends q room e,
              ground (arith, h.new),
              ground (arith, h.apart),
            ))
      ]

  unknown :
      ltb priority num_priorities ≡ false
      → (schedule granted.ecs granted.sched a >>= λ s.
          reply (record granted { sched = s }) (set_cap h.own capability a).0)
        ≡ fault
  unknown large = rw (missing large) refl

pub create_ec-Stops :
    (k : Kernel) (argc eip esp priority capability target : ℕ) (a : Ptr)
    (h : IsOrderly k argc capability target a)
    → Stops k argc eip esp priority capability target a h
        (handle_create_ec k argc eip esp priority capability target)
create_ec-Stops k argc eip esp priority capability target a h =
    elim (Bool-cases (ltb priority num_priorities)) [
      | inl small ↦ ends k argc eip esp priority capability target a h (ground (arith, small))
      | inr large ↦ inl (
        ground (arith, large),
        create_ec-steps k argc eip esp priority capability target a h
            ∙ unknown k argc eip esp priority capability target a h large,
      )
    ]
