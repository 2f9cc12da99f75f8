-- ===== src/Dispatch/Invariant.antt =====
-- The invariant of the kernel that every system call (kern/src/syscall.cc) keeps.
use nova_mckernel_lab.Base.{
  ℕ, zero, suc, ◌%◌, ◌+◌, ◌≤◌, ◌<◌, ◌≡◌, sym, ◌∙◌, ◌≢◌, false, Option, none, some, inl, inr,
  Bool-cases, arith, ◌==◌, get_or, if◌then◌else◌, ltb, leb,
}
use nova_mckernel_lab.Machine.{word_mod, minus_one, add32, ok, ◌>>=◌}
use nova_mckernel_lab.Refines.{Ensures, Ensures-ok, Ensures-if, Ensures-any, Ensures-bind}
use nova_mckernel_lab.Ec.{Ptr, null}
use nova_mckernel_lab.Scheduler.{Scheduler, max_ecs, yield, block, unblock, schedule}
use nova_mckernel_lab.Scheduler.Valid.{queued, running}
use nova_mckernel_lab.Scheduler.Current.{
  IsSound, Resumes, Keeps, yield-IsSound, block-IsSound, unblock-IsSound, unblock_all-IsSound,
  schedule-IsSound,
}
use nova_mckernel_lab.Kalloc.{Kalloc, page_size, alloc, alloc_page, Memory, Fill, fill_0, virt2phys}
use nova_mckernel_lab.Pd.{max_caps, set_cap, get_cap, is_negative, add_child}
use nova_mckernel_lab.Ptab.{insert_mapping, table_for, Platform, pde_address}
use nova_mckernel_lab.Kernel.{
  Kernel, Control, Handled, ec_at, pd_at, put_pd, set_eax, make_current, sizeof_ec, sizeof_pd,
  new_ec, new_domain, print, invalid_target_pd,
}
use nova_mckernel_lab.Syscall.{
  switch_to, done, reply, mmap_pages, handle_create_ec, handle_create_pd, handle_delegate_cap,
  delegate, handle_block, handle_unblock, current_pd, capability_of,
}

-- The pool holds no null address, and no test of it wraps round.
abbrev pub IsHeap : Kalloc → Type 0
IsHeap p = (sizeof_ec ≤ p.begin) × (p.begin ≤ p.end) × (p.end + page_size < word_mod)

-- The scheduler is sound, runs the context that the kernel runs, and there is one.
abbrev pub IsKernel : Kernel → Type 0
IsKernel k =
    IsSound k.sched × (k.sched.current_ec ≡ k.current) × (k.current ≢ null) × IsHeap k.kalloc

-- A further context can be made and all still fit into a ring.
abbrev pub HasSpace : Kernel → Type 0
HasSpace k = queued k.sched.queues + running k.sched.current_ec < max_ecs

abbrev pub Kept : Control × Kernel → Type 0
Kept r = IsKernel r.1

pub running-some : (k : Kernel) → IsKernel k → k.sched.current_ec ≢ null
running-some k h = λ e. h.2 (sym h.1 ∙ e)

-- An object is not at the null address.
pub alloc-IsHeap :
    (p : Kalloc) (n : ℕ)
    → IsHeap p
    → n ≤ sizeof_ec
    → Ensures (λ r. (r.0 ≢ null) × IsHeap r.1) (alloc p n)
unfolding alloc
alloc-IsHeap p n h small = record { ensured = ground arith }

pub alloc_page-IsHeap :
    (p : Kalloc) (m : Memory) (f : Fill) → IsHeap p → Ensures (λ r. IsHeap r.1) (alloc_page p m 1 f)
unfolding alloc_page
alloc_page-IsHeap p m f h = record { ensured = ground arith }

pub insert_mapping-IsHeap :
    (pf : Platform) (p : Kalloc) (m : Memory) (virt phys attr : ℕ)
    → IsHeap p
    → Ensures (λ r. IsHeap r.0) (insert_mapping pf p m virt phys attr)
unfolding insert_mapping table_for
insert_mapping-IsHeap pf p m virt phys attr h =
    Ensures-bind {P = λ r. IsHeap r.1} (table_for pf p m virt attr)
      (Ensures-if (m (pde_address pf virt) % 2 == 0)
        (Ensures-bind (alloc_page p m 1 fill_0) (alloc_page-IsHeap p m fill_0 h)
          λ r w. Ensures-ok w)
        (Ensures-ok h))
      λ r w. Ensures-ok w

-- The switch to a context that the scheduler has just chosen.
switch_to-Kept :
    (k : Kernel) (p : Ptr) (otherwise : Handled)
    → IsSound k.sched
    → p ≢ null
    → k.sched.current_ec ≡ p
    → IsHeap k.kalloc
    → Ensures Kept (switch_to k (some p) otherwise)
unfolding make_current
switch_to-Kept k p otherwise sound some_ec same heap =
    let busy : (p == null) ≡ false = ground (arith, some_ec) in
    rw busy (Ensures-any (ec_at k p) λ e. Ensures-ok (sound, same, some_ec, heap))

-- `block`, and the switch to what it returns.
pub block-Kept :
    (k : Kernel) (target : Ptr) (otherwise : Kernel → Handled)
    → target ≢ null
    → IsKernel k
    → ((k' : Kernel) → IsKernel k' → Ensures Kept (otherwise k'))
    → Ensures Kept (
        block k.ecs k.sched target >>= λ (next, sched').
        switch_to (record k { sched = sched' }) next (otherwise (record k { sched = sched' })))
block-Kept k target otherwise some_ec h rest =
    Ensures-bind (block k.ecs k.sched target)
      (record { ensured = block-IsSound k.ecs k.sched target some_ec h.0 }) resume
  where
    resume :
        (r : Option Ptr × Scheduler)
        → Resumes k.sched r
        → Ensures Kept
            (switch_to (record k { sched = r.1 }) r.0 (otherwise (record k { sched = r.1 })))
    resume (none, t) (sound, same) = rest (record k { sched = t }) (sound, same ∙ h.1, h.2, h.3)
    resume (some p, t) (sound, some_p, same) =
        switch_to-Kept (record k { sched = t }) p (otherwise (record k { sched = t })) sound some_p
          same h.3

-- `yield`, and the switch to what it returns.
pub yield-Kept :
    (k : Kernel) (otherwise : Kernel → Handled)
    → IsSound k.sched
    → IsHeap k.kalloc
    → Ensures Kept (
        yield k.ecs k.sched >>= λ (next, sched').
        switch_to
          (record k { sched = sched' })
          (some next)
          (otherwise (record k { sched = sched' })))
yield-Kept k otherwise sound heap =
    Ensures-bind (yield k.ecs k.sched) (record { ensured = yield-IsSound k.ecs k.sched sound })
      λ r w.
        switch_to-Kept (record k { sched = r.1 }) r.0 (otherwise (record k { sched = r.1 })) w.0 w.1
          w.2 heap

pub reply-Kept : (k : Kernel) (v : ℕ) → IsKernel k → Ensures Kept (reply k v)
unfolding set_eax
reply-Kept k v h =
    Ensures-bind {P = IsKernel} (set_eax k k.current v)
      (Ensures-any (ec_at k k.current) λ e. Ensures-ok h) λ k' w. Ensures-ok w

pub mmap_pages-IsKernel :
    (n virt : ℕ) (k : Kernel) → IsKernel k → Ensures IsKernel (mmap_pages n virt k)
unfolding mmap_pages
mmap_pages-IsKernel zero virt k h = Ensures-ok h
mmap_pages-IsKernel (suc n) virt k h =
    Ensures-bind (alloc_page k.kalloc k.memory 1 fill_0)
      (alloc_page-IsHeap k.kalloc k.memory fill_0 h.3)
      λ r w.
        Ensures-bind (insert_mapping k.platform r.1 r.2 virt (virt2phys k.platform.offset r.0) 7)
          (insert_mapping-IsHeap k.platform r.1 r.2 virt (virt2phys k.platform.offset r.0) 7 w)
          λ s w'.
            mmap_pages-IsKernel n (add32 virt page_size) (record k { kalloc = s.0; memory = s.1 })
              (h.0, h.1, h.2, w')

new_ec-IsKernel :
    (k : Kernel) (eip esp prio : ℕ) (p : Ptr)
    → IsKernel k
    → HasSpace k
    → Ensures (λ r. (r.0 ≢ null) × IsKernel r.1 × HasSpace r.1) (new_ec k eip esp prio p)
unfolding new_ec
new_ec-IsKernel k eip esp prio p h space =
    Ensures-bind (alloc k.kalloc sizeof_ec) (alloc-IsHeap k.kalloc sizeof_ec h.3 (omega arith))
      λ r w. Ensures-ok (w.0, (h.0, h.1, h.2, w.1), space)

pub create_ec-Kept :
    (k : Kernel) (argc eip esp priority capability target : ℕ)
    → IsKernel k
    → HasSpace k
    → Ensures Kept (handle_create_ec k argc eip esp priority capability target)
unfolding handle_create_ec
create_ec-Kept k argc eip esp priority capability target h space =
    Ensures-if (ltb argc 4) (Ensures-ok h) (
      Ensures-if (leb max_caps target) (reply-Kept (print (invalid_target_pd target) k) minus_one h)
        (Ensures-any (current_pd k) λ own. Ensures-any (pd_at k own) λ caller_pd.
          Ensures-bind (new_ec k eip esp priority (get_or caller_pd.children target null))
            (new_ec-IsKernel k eip esp priority (get_or caller_pd.children target null) h space)
            λ r w. Ensures-any (pd_at r.1 (get_or caller_pd.children target null)) λ domain.
              Ensures-if (is_negative (set_cap domain capability r.0).0) (Ensures-ok w.1) (
                Ensures-any
                  (pd_at
                    (put_pd r.1 (get_or caller_pd.children target null)
                      (set_cap domain capability r.0).1)
                    own)
                  λ caller_pd'.
                    Ensures-bind {P = Keeps r.1.sched} (schedule r.1.ecs r.1.sched r.0)
                      (record {
                        ensured =
                            schedule-IsSound r.1.ecs r.1.sched r.0 w.0 (running-some r.1 w.1) w.2
                              w.1.0;
                      })
                      λ s z. reply-Kept _ _ (z.0, z.1 ∙ w.1.1, w.1.2, w.1.3))))

pub create_pd-Kept : (k : Kernel) → IsKernel k → Ensures Kept (handle_create_pd k)
unfolding handle_create_pd new_domain
create_pd-Kept k h = Ensures-any (current_pd k) λ own.
    Ensures-bind {P = λ r. IsKernel r.1} (new_domain k own)
      (Ensures-bind (alloc k.kalloc sizeof_pd) (alloc-IsHeap k.kalloc sizeof_pd h.3 (omega arith))
        λ r w. Ensures-ok (h.0, h.1, h.2, w.1))
      λ r w. Ensures-if (r.0 == null) (reply-Kept r.1 minus_one w) (
        Ensures-any (pd_at r.1 own) λ caller_pd.
          Ensures-if (is_negative (add_child caller_pd r.0).0) (reply-Kept _ _ w)
            (reply-Kept _ _ w))

pub delegate_cap-Kept :
    (k : Kernel) (argc child src dst : ℕ)
    → IsKernel k
    → Ensures Kept (handle_delegate_cap k argc child src dst)
unfolding handle_delegate_cap delegate
delegate_cap-Kept k argc child src dst h = Ensures-if (ltb argc 3) (reply-Kept k minus_one h) (
    Ensures-any (current_pd k) λ own. Ensures-if (leb max_caps child) (reply-Kept k minus_one h) (
      Ensures-any (pd_at k own) λ caller_pd.
        Ensures-if (get_or caller_pd.children child null == null) (reply-Kept k minus_one h) (
          Ensures-if (get_cap caller_pd src == null) (reply-Kept k minus_one h) (
            Ensures-any (pd_at k (get_or caller_pd.children child null)) λ child_pd.
              Ensures-if (is_negative (set_cap child_pd dst (get_cap caller_pd src)).0)
                (reply-Kept _ _ h) (reply-Kept _ _ h)))))

pub blocks-Kept :
    (k : Kernel) (argc capability : ℕ) → IsKernel k → Ensures Kept (handle_block k argc capability)
unfolding handle_block
blocks-Kept k argc capability h =
    Ensures-any (if argc == 0 then ok k.current else capability_of k capability) λ target.
      elim (Bool-cases (target == null)) [
        | inl missing ↦ rw missing (Ensures-ok h)
        | inr present ↦
            rw present (block-Kept k target done (ground (arith, present)) h λ k' w. Ensures-ok w)
      ]

pub unblocks-Kept :
    (k : Kernel) (argc capability : ℕ)
    → IsKernel k
    → Ensures Kept (handle_unblock k argc capability)
unfolding handle_unblock
unblocks-Kept k argc capability h =
    Ensures-if (argc == 0)
      (let w = unblock_all-IsSound k.sched h.0 in Ensures-ok (w.0, w.1 ∙ h.1, h.2, h.3))
      (Ensures-any (capability_of k capability) λ target.
        Ensures-if (target == null) (Ensures-ok h) (
          Ensures-bind {P = Keeps k.sched} (unblock k.ecs k.sched target)
            (record { ensured = unblock-IsSound k.ecs k.sched target h.0 })
            λ s w. Ensures-ok (w.0, w.1 ∙ h.1, h.2, h.3)))
