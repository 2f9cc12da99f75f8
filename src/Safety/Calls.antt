-- ===== src/Safety/Calls.antt =====
-- Dangling pointers, indices out of range and points marked `UNREACHED` in `Ec::handle_syscall`
-- (kern/src/ec.cc), with every handler of kern/src/syscall.cc.
use nova_mckernel_lab.Ptab.{link_addr}
use nova_mckernel_lab.Console.{Arg, vprintf}
use nova_mckernel_lab.Base.{
  ◌+◌, ◌*◌, List, ℕ, ◌<◌, ◌≤◌, ◌≡◌, refl, sym, ap, ◌≢◌, ◌⊎◌, inl, inr, true, Bool-cases, some,
  arith, leb, ltb, ◌==◌, if◌then◌else◌, get_or, subst,
}
use nova_mckernel_lab.Machine.{Outcome, ok, fault, deref, ◌>>=◌, minus_one}
use nova_mckernel_lab.Refines.{Promised, via}
use nova_mckernel_lab.Safe.{
  Safe, Safe-ok, Safe-if, Safe-bind, Safe-lookup, Safe-both, Safe-then, Safe-sound, Safe-Promised,
}
use nova_mckernel_lab.Ec.{Ptr, null}
use nova_mckernel_lab.Scheduler.{num_priorities, schedule, unblock}
use nova_mckernel_lab.Kalloc.{page_size, alloc}
use nova_mckernel_lab.Pd.{Pd, max_caps, new_pd, set_cap, get_cap, add_child, is_negative}
use nova_mckernel_lab.Kernel.{
  Kernel, pd_at, put_ec, put_pd, new_ec, new_domain, user_ec, sizeof_ec, sizeof_pd, no_capability,
}
use nova_mckernel_lab.Syscall.{
  Frame, mmap, dump, print_text, create_ec, yields, blocks, unblocks, create_pd, delegate_cap,
  ipc_send, ipc_recv, unknown, handle_mmap, handle_dump, handle_print, handle_create_ec,
  handle_yield, handle_block, handle_unblock, handle_create_pd, handle_delegate_cap, delegate, done,
  capability_of, current_pd, mmap_pages,
}
use nova_mckernel_lab.Dispatch.{RawFrame, decode, handle, handle_syscall}
use nova_mckernel_lab.Dispatch.Invariant.{HasSpace, alloc-IsHeap}
use nova_mckernel_lab.Ptab.Pages.{alloc-Safe}
use nova_mckernel_lab.Safety.{Stored, Domain, IsIntact}
use nova_mckernel_lab.Safety.Memory.{put_ec-IsIntact, put_pd-IsIntact, current-Stored, store-Domain}
use nova_mckernel_lab.Safety.Scheduling.{
  Left, unblock-IsIntact, unblock_all-IsIntact, yield-Left, block-Left,
}
use nova_mckernel_lab.Safety.Messages.{
  print-IsIntact, stored_of, reply-Left, current_pd-Domain, capability_of-Stored,
  handle_ipc_send-Left, handle_ipc_recv-Left,
}
use nova_mckernel_lab.Safety.Domains.{
  new_pd-IsDomain, set_cap-IsDomain, add_child-IsDomain, pool-IsIntact, mmap_pages-IsIntact,
  schedule-IsIntact,
}

-- A new context with a queue, in a domain that is there.
new_ec-IsIntact :
    (k : Kernel) (eip esp prio : ℕ) (p : Ptr)
    → IsIntact k
    → HasSpace k
    → prio < num_priorities
    → Domain k.pds p
    → Safe
        (λ r. (r.0 ≢ null) × IsIntact r.1 × HasSpace r.1 × Stored r.1.ecs r.0 × (r.1.pds ≡ k.pds))
        (new_ec k eip esp prio p)
unfolding new_ec user_ec
new_ec-IsIntact k eip esp prio p h space small there =
    Safe-bind (alloc k.kalloc sizeof_ec)
      (Safe-both (alloc-Safe k.kalloc sizeof_ec)
        (alloc-IsHeap k.kalloc sizeof_ec h.kernel.3 (omega arith)))
      λ (a, pool) w.
        let e = user_ec (k.raw a) eip esp prio p in
        let h' = put_ec-IsIntact k a e h (small, omega arith, inl refl, there) in
        let same : (a == a) ≡ true = ground arith in
        Safe-ok (
          w.1.0,
          pool-IsIntact (put_ec k a e) pool k.memory h' w.1.1,
          space,
          (e, rw same refl),
          refl,
        )

-- `Ec::current->pd->children[target]`.
abbrev pub child_of : Kernel → ℕ → Outcome Ptr
child_of k target = do own ← current_pd k; d ← pd_at k own; ok (get_or d.children target null)

-- What a call relies on. For `create_ec`, one more context fits, its priority has a queue, and the target
-- is a child of the caller's domain; `mmap` is for the addresses of the user, and what `print` is to
-- print can be read, with a value for each conversion.
abbrev pub Allows : Kernel → Frame → Type 0
Allows k (create_ec argc eip esp priority capability target) =
    HasSpace k
    × (4 ≤ argc → target < max_caps → (priority < num_priorities) × (child_of k target ≢ ok null))
Allows k (mmap n virt) = virt + n * page_size ≤ link_addr
Allows k (print_text fmt args) =
    (format : List ℕ) × (values : List Arg) × (text : List ℕ) × (k.user fmt args
      ≡ some (format, values))
    × (vprintf format values ≡ some text)
Allows k f = Unit {0}

create_ec-Left :
    (k : Kernel) (argc eip esp priority capability target : ℕ)
    → IsIntact k
    → Allows k (create_ec argc eip esp priority capability target)
    → Safe Left (handle_create_ec k argc eip esp priority capability target)
unfolding handle_create_ec
create_ec-Left k argc eip esp priority capability target h (space, allowed) =
    Safe-if (ltb argc 4) (λ _. Safe-ok h)
      λ enough.
        Safe-if (leb max_caps target) (λ _. reply-Left _ minus_one (print-IsIntact k _ h))
          λ inside. Safe-then (current_pd k) (current_pd-Domain k h) λ own_p own_at own_there.
            Safe-lookup own_there λ d at_d.
              let (small, some_child) = allowed (ground (arith, enough)) (ground (arith, inside)) in
              let child = get_or d.children target null in
              let there =
                stored_of child ((h.domains own_p d at_d).2 target)
                  (known_child own_p d own_at at_d some_child) in
              Safe-bind (new_ec k eip esp priority child)
                (new_ec-IsIntact k eip esp priority child h space small there)
                λ (ec, k1) (some_ec, h1, space1, made, same).
                  let there1 = subst (λ pds. Domain pds child) (sym same) there in
                  let own1 = subst (λ pds. Domain pds own_p) (sym same) own_there in
                  Safe-lookup there1 λ domain at.
                    let granted = set_cap domain capability ec in
                    let h2 = put_pd-IsIntact k1 child granted.1 h1 (
                      set_cap-IsDomain k1.ecs k1.pds domain capability ec
                        (h1.domains child domain at) made) in
                    let k2 = put_pd k1 child granted.1 in
                    Safe-if (is_negative granted.0)
                      (λ _. Safe-ok (print-IsIntact k2 no_capability h2))
                      λ _.
                        Safe-lookup (store-Domain k1.pds child own_p granted.1 own1) λ own at_own.
                          let granted' = set_cap own capability ec in
                          let k3 = put_pd k2 own_p granted'.1 in
                          let h3 = put_pd-IsIntact k2 own_p granted'.1 h2 (
                            set_cap-IsDomain k2.ecs k2.pds own capability ec
                              (h2.domains own_p own at_own) made) in
                          Safe-bind (schedule k3.ecs k3.sched ec)
                            (schedule-IsIntact k3 ec h3 space1 some_ec made)
                            λ s h4. reply-Left (record k3 { sched = s }) granted'.0 h4
  where
    known_child :
        (own : Ptr) (d : Pd)
        → current_pd k ≡ ok own
        → k.pds own ≡ some d
        → child_of k target ≢ ok null
        → get_or d.children target null ≢ null
    known_child own d own_at at some_child z =
        some_child (via _ _ own own_at (via _ _ d (ap deref at) (ap ok z)))

create_pd-Left : (k : Kernel) → IsIntact k → Safe Left (handle_create_pd k)
unfolding handle_create_pd new_domain
create_pd-Left k h = Safe-bind (current_pd k) (current_pd-Domain k h) λ own there.
    Safe-bind {P = λ r. IsIntact r.1 × Domain r.1.pds own × Domain r.1.pds r.0} (new_domain k own)
      (Safe-bind (alloc k.kalloc sizeof_pd)
        (Safe-both (alloc-Safe k.kalloc sizeof_pd)
          (alloc-IsHeap k.kalloc sizeof_pd h.kernel.3 (omega arith)))
        λ (a, pool) w.
          let fresh = new_pd own in
          let h' = put_pd-IsIntact k a fresh h (new_pd-IsDomain k.ecs k.pds own) in
          let same : (a == a) ≡ true = ground arith in
          Safe-ok (
            pool-IsIntact (put_pd k a fresh) pool k.memory h' w.1.1,
            store-Domain k.pds a own fresh there,
            (fresh, rw same refl),
          ))
      λ (child, k1) (h1, own1, made).
        Safe-if (child == null) (λ _. reply-Left k1 minus_one h1)
          λ _. Safe-lookup own1 λ d at.
            let added = add_child d child in
            let h2 =
              put_pd-IsIntact k1 own added.1 h1
                (add_child-IsDomain k1.ecs k1.pds d child (h1.domains own d at) made) in
            Safe-if (is_negative added.0) (λ _. reply-Left _ minus_one h2)
              λ _. reply-Left _ added.0 h2

get_cap-Stored :
    (k : Kernel) (own : Ptr) (d : Pd) (slot : ℕ)
    → IsIntact k
    → k.pds own ≡ some d
    → (get_cap d slot ≡ null) ⊎ Stored k.ecs (get_cap d slot)
unfolding get_cap
get_cap-Stored k own d slot h at = elim (Bool-cases (leb max_caps slot)) [
  | inl out ↦ inl (rw out refl)
  | inr inside ↦ rw inside ((h.domains own d at).1 slot)
]

delegate_cap-Left :
    (k : Kernel) (argc idx src dst : ℕ)
    → IsIntact k
    → Safe Left (handle_delegate_cap k argc idx src dst)
unfolding handle_delegate_cap delegate
delegate_cap-Left k argc idx src dst h =
    Safe-if (ltb argc 3) (λ _. reply-Left k minus_one h)
      λ _. Safe-bind (current_pd k) (current_pd-Domain k h) λ own there.
        Safe-if (leb max_caps idx) (λ _. reply-Left k minus_one h)
          λ _. Safe-lookup there λ d at.
            let good = h.domains own d at in
            let child = get_or d.children idx null in
            Safe-if (child == null) (λ _. reply-Left k minus_one h)
              λ some_child.
                Safe-if (get_cap d src == null) (λ _. reply-Left k minus_one h)
                  λ some_ec.
                    let ec = get_cap d src in
                    Safe-lookup
                      (stored_of child (good.2 idx) (λ e. absurd (ground (arith, some_child, e))))
                      λ x at_x.
                        let made =
                          stored_of ec (get_cap-Stored k own d src h at)
                            (λ e. absurd (ground (arith, some_ec, e))) in
                        let granted = set_cap x dst ec in
                        let h' =
                          put_pd-IsIntact k child granted.1 h
                            (set_cap-IsDomain k.ecs k.pds x dst ec (h.domains child x at_x) made) in
                        Safe-if (is_negative granted.0) (λ _. reply-Left _ minus_one h')
                          λ _. reply-Left _ 0 h'

block_handler-Left :
    (k : Kernel) (argc capability : ℕ) → IsIntact k → Safe Left (handle_block k argc capability)
unfolding handle_block
block_handler-Left k argc capability h =
    Safe-bind {P = λ p. (p ≡ null) ⊎ Stored k.ecs p}
      (if argc == 0 then ok k.current else capability_of k capability)
      (Safe-if (argc == 0) (λ _. Safe-ok (inr (current-Stored k h)))
        (λ _. capability_of-Stored k capability h))
      λ target found.
        Safe-if (target == null) (λ _. Safe-ok h)
          λ present.
            let some_target : target ≢ null = λ e. absurd (ground (arith, present, e)) in
            block-Left k target done h some_target (stored_of target found some_target)
              λ _ k' h'. Safe-ok h'

unblock_handler-Left :
    (k : Kernel) (argc capability : ℕ) → IsIntact k → Safe Left (handle_unblock k argc capability)
unfolding handle_unblock
unblock_handler-Left k argc capability h =
    Safe-if (argc == 0) (λ _. Safe-ok (unblock_all-IsIntact k h))
      λ _.
        Safe-bind (capability_of k capability) (capability_of-Stored k capability h) λ target found.
          Safe-if (target == null) (λ _. Safe-ok h)
            λ present.
              Safe-bind (unblock k.ecs k.sched target)
                (unblock-IsIntact k target h
                  (stored_of target found (λ e. absurd (ground (arith, present, e)))))
                λ s h'. Safe-ok h'

handle-Left : (k : Kernel) (f : Frame) → IsIntact k → Allows k f → Safe Left (handle k f)
unfolding handle handle_mmap handle_dump handle_print handle_yield
handle-Left k (mmap n virt) h a =
    Safe-bind (mmap_pages n virt k) (mmap_pages-IsIntact n virt k h) λ k' h'. Safe-ok h'
handle-Left k dump h a = Safe-lookup (current-Stored k h) λ e at. Safe-ok (print-IsIntact k _ h)
handle-Left k (print_text fmt args) h (format, values, text, read, printed) =
    rw (read, printed) (Safe-ok (print-IsIntact k _ h))
handle-Left k (create_ec argc eip esp priority capability target) h a =
    create_ec-Left k argc eip esp priority capability target h a
handle-Left k yields h a = yield-Left k done h
handle-Left k (blocks argc capability) h a = block_handler-Left k argc capability h
handle-Left k (unblocks argc capability) h a = unblock_handler-Left k argc capability h
handle-Left k create_pd h a = create_pd-Left k h
handle-Left k (delegate_cap argc child src dst) h a = delegate_cap-Left k argc child src dst h
handle-Left k (ipc_send target value) h a = handle_ipc_send-Left k target value h
handle-Left k ipc_recv h a = handle_ipc_recv-Left k h
handle-Left k (unknown num) h a = Safe-ok (print-IsIntact k _ h)

pub handle_syscall-IsIntact :
    (k : Kernel) (f : RawFrame)
    → IsIntact k
    → Allows k (decode f)
    → (handle_syscall k f ≢ fault) × Promised (λ r. IsIntact r.1) (handle_syscall k f)
unfolding handle_syscall
handle_syscall-IsIntact k f h a =
    let all = handle-Left k (decode f) h a in (Safe-sound all, Safe-Promised all)
