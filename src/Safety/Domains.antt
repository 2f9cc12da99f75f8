-- ===== src/Safety/Domains.antt =====
-- The pointers of the kernel in the tables of domains, the pool and the queue of a new context
-- (kern/src/pd.cc, kern/src/kalloc.cc, kern/src/ptab.cc).
use nova_mckernel_lab.Base.{
  ℕ, zero, suc, ◌+◌, ◌<◌, ◌≡◌, refl, sym, ◌∙◌, ◌≢◌, ◌⊎◌, inl, inr, Bool-cases, List, arith, leb,
  ◌==◌, ==_iff, length-set, get_or, set, replicate, length, subst,
}
use nova_mckernel_lab.Machine.{ok, add32}
use nova_mckernel_lab.Refines.{transfer, promised_ok}
use nova_mckernel_lab.Safe.{Safe, Safe-ok, Safe-bind, Safe-both, Safe-known, Safe-sound}
use nova_mckernel_lab.Ec.{Ptr, null, Ecs}
use nova_mckernel_lab.Scheduler.{Scheduler, max_ecs, schedule}
use nova_mckernel_lab.Scheduler.Spec.{View}
use nova_mckernel_lab.Scheduler.Valid.{view, IsValid, queued, running}
use nova_mckernel_lab.Scheduler.Population.{held, same, schedule-held}
use nova_mckernel_lab.Scheduler.Operations.{schedule-Refines}
use nova_mckernel_lab.Scheduler.Current.{Keeps, schedule-IsSound}
use nova_mckernel_lab.Scheduler.Faults.{schedule-Safe}
use nova_mckernel_lab.Kalloc.{Kalloc, Memory, page_size, fill_0, alloc_page, virt2phys}
use nova_mckernel_lab.Pd.{Pd, Pds, max_caps, new_pd, set_cap, add_child}
use nova_mckernel_lab.Pd.Caps.{get_or-set, add_child-Adds}
use nova_mckernel_lab.Ptab.{insert_mapping}
use nova_mckernel_lab.Kernel.{Kernel}
use nova_mckernel_lab.Syscall.{mmap_pages}
use nova_mckernel_lab.Dispatch.Invariant.{
  IsHeap, HasSpace, alloc_page-IsHeap, insert_mapping-IsHeap, running-some,
}
use nova_mckernel_lab.Ptab.Pages.{alloc_page-Safe, insert_mapping-Safe}
use nova_mckernel_lab.Safety.{Stored, Domain, IsDomain, IsIntact}
use nova_mckernel_lab.Safety.Scheduling.{known}

get_or-replicate : (n i : ℕ) → get_or (replicate n null) i null ≡ null
get_or-replicate zero i = refl
get_or-replicate (suc n) zero = refl
get_or-replicate (suc n) (suc i) = get_or-replicate n i

pub new_pd-IsDomain : (ecs : Ecs) (pds : Pds) (p : Ptr) → IsDomain ecs pds (new_pd p)
unfolding new_pd
new_pd-IsDomain ecs pds p = (
  record { caps_size = refl; children_size = refl },
  λ i. inl (get_or-replicate max_caps i),
  λ i. inl (get_or-replicate max_caps i),
)

-- A table whose entries are null or good still is one after a write of such an entry.
set_entry :
    (Good : Ptr → Type 0) (xs : List Ptr) (i : ℕ) (v : Ptr)
    → i < length xs
    → ((j : ℕ) → (get_or xs j null ≡ null) ⊎ Good (get_or xs j null))
    → Good v
    → (j : ℕ) → (get_or (set xs i v) j null ≡ null) ⊎ Good (get_or (set xs i v) j null)
set_entry Good xs i v inside old new j =
    let e = get_or-set xs i j v null inside in
    elim (Bool-cases (j == i)) [
      | inl here ↦ rw (e, here) (inr new)
      | inr other ↦ rw (e, other) (old j)
    ]

pub set_cap-IsDomain :
    (ecs : Ecs) (pds : Pds) (d : Pd) (slot : ℕ) (ec : Ptr)
    → IsDomain ecs pds d
    → Stored ecs ec
    → IsDomain ecs pds (set_cap d slot ec).1
unfolding set_cap
set_cap-IsDomain ecs pds d slot ec (size, caps, children) there =
    elim (Bool-cases (leb max_caps slot)) [
      | inl out ↦ rw out (size, caps, children)
      | inr inside ↦ elim (Bool-cases (get_or d.caps slot null == null)) [
        | inr taken ↦ rw (inside, taken) (size, caps, children)
        | inl free ↦
            rw (inside, free)
              (
                record {
                  caps_size = length-set d.caps slot ec ∙ size.caps_size;
                  children_size = size.children_size;
                },
                set_entry (Stored ecs) d.caps slot ec (ground (arith, size.caps_size)) caps there,
                children,
              )
      ]
    ]

pub add_child-IsDomain :
    (ecs : Ecs) (pds : Pds) (d : Pd) (child : Ptr)
    → IsDomain ecs pds d
    → Domain pds child
    → IsDomain ecs pds (add_child d child).1
add_child-IsDomain ecs pds d child (size, caps, children) there = elim (add_child-Adds d child) [
  | inl (inside, free, first, same) ↦
      let i = (add_child d child).0 in
      subst (IsDomain ecs pds) (sym same) (
        record {
          caps_size = size.caps_size;
          children_size = length-set d.children i child ∙ size.children_size;
        },
        caps,
        set_entry (Domain pds) d.children i child (omega (arith, inside, size.children_size))
            children there,
      )
  | inr (all, none, same) ↦ subst (IsDomain ecs pds) (sym same) (size, caps, children)
]

-- The pool.
pub pool-IsIntact :
    (k : Kernel) (pool : Kalloc) (m : Memory)
    → IsIntact k
    → IsHeap pool
    → IsIntact (record k { kalloc = pool; memory = m })
pool-IsIntact k pool m h heap = record {
  kernel = (h.kernel.0, h.kernel.1, h.kernel.2, heap);
  contexts = h.contexts;
  domains = h.domains;
  queued = h.queued;
}

pub mmap_pages-IsIntact :
    (n virt : ℕ) (k : Kernel) → IsIntact k → Safe IsIntact (mmap_pages n virt k)
unfolding mmap_pages
mmap_pages-IsIntact zero virt k h = Safe-ok h
mmap_pages-IsIntact (suc n) virt k h =
    Safe-bind (alloc_page k.kalloc k.memory 1 fill_0)
      (Safe-both (alloc_page-Safe k.kalloc k.memory 1 fill_0)
        (alloc_page-IsHeap k.kalloc k.memory fill_0 h.kernel.3))
      λ r w.
        let phys = virt2phys k.platform.offset r.0 in
        Safe-bind (insert_mapping k.platform r.1 r.2 virt phys 7)
          (Safe-both (insert_mapping-Safe k.platform r.1 r.2 virt phys 7)
            (insert_mapping-IsHeap k.platform r.1 r.2 virt phys 7 w.1))
          λ s w'.
            mmap_pages-IsIntact n (add32 virt page_size) (record k { kalloc = s.0; memory = s.1 })
              (pool-IsIntact k s.0 s.1 h w'.1)

pub joined :
    (ecs : Ecs) (sched : Scheduler) (p q : Ptr) (s : Scheduler)
    → IsValid sched
    → queued sched.queues + running sched.current_ec < max_ecs
    → q ≢ null
    → schedule ecs sched p ≡ ok s
    → held q (view s) ≡ held q (view sched) + same q p
joined ecs sched p q s valid space some_q e =
    transfer (λ (w : View). held q w ≡ held q (view sched) + same q p)
      (schedule-Refines ecs sched p valid space) (schedule-held q ecs (view sched) p some_q) s e

-- A new context joins the scheduler.
pub schedule-IsIntact :
    (k : Kernel) (p : Ptr)
    → IsIntact k
    → HasSpace k
    → p ≢ null
    → Stored k.ecs p
    → Safe (λ s. IsIntact (record k { sched = s })) (schedule k.ecs k.sched p)
schedule-IsIntact k p h space some_p there =
    let busy = running-some k h.kernel in
    let sound = h.kernel.0 in
    let free = schedule-Safe k.ecs k.sched p sound.valid.size busy (known k p h there) in
    Safe-known (Safe-sound free) λ s e.
      let (sound', same_current) =
        promised_ok (Keeps k.sched) (schedule-IsSound k.ecs k.sched p some_p busy space sound) s
          e in
      record {
        kernel = (sound', same_current ∙ h.kernel.1, h.kernel.2, h.kernel.3);
        contexts = h.contexts;
        domains = h.domains;
        queued = λ q some_q waits. elim (Bool-cases (p == q)) [
          | inl here ↦ subst (Stored k.ecs) ((==_iff p q).0 here) there
          | inr other ↦
              let none_new : same q p ≡ 0 = ground (arith, other) in
              h.queued q some_q (
                omega
                  (arith, waits, joined k.ecs k.sched p q s sound.valid space some_q e, none_new))
        ];
      }
