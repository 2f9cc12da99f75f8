-- ===== src/Boot/Start.antt =====
-- The kernel's invariant holds once `bootstrap` (kern/src/init.cc) and `Ec::root_invoke`
-- (kern/src/ec.cc) are through.
use nova_mckernel_lab.Base.{
  ℕ, zero, suc, ◌+◌, ◌/◌, ◌%◌, ◌^◌, ◌≡◌, refl, sym, ap, ◌∙◌, ◌≢◌, not, ◌||◌, some, arith, ◌==◌,
  if◌then◌else◌,
}
use nova_mckernel_lab.Machine.{ok, ◌>>=◌, add32}
use nova_mckernel_lab.Refines.{
  Promised, Ensures, Ensures-ok, Ensures-if, Ensures-any, Ensures-bind, Ensures-lookup,
}
use nova_mckernel_lab.Safe.{
  Safe, Safe-ok, Safe-if, Safe-bind, Safe-both, Safe-weaken, Safe-Promised,
}
use nova_mckernel_lab.Ptab.Pages.{insert_mapping-Safe}
use nova_mckernel_lab.Ec.{Ptr, null, Ec, Ecs, store_ec}
use nova_mckernel_lab.Scheduler.{new_scheduler, schedule}
use nova_mckernel_lab.Scheduler.First.{schedule_first}
use nova_mckernel_lab.Kalloc.{page_size, alloc}
use nova_mckernel_lab.Ptab.{insert_mapping}
use nova_mckernel_lab.Kernel.{
  Kernel, ec_at, pd_at, put_ec, sizeof_ec, sizeof_pd, new_domain, root_ec, make_current,
}
use nova_mckernel_lab.Dispatch.Invariant.{IsHeap, IsKernel, alloc-IsHeap, insert_mapping-IsHeap}
use nova_mckernel_lab.Boot.{
  Loaded, Ph, insert, remapped, map_pages, load_segment, load_segments, root_invoke, unmap_low,
  bootstrap, align_dn, align_up,
}

-- A kernel in which nothing runs or waits yet.
abbrev pub IsFresh : Kernel → Type 0
IsFresh k = (k.sched ≡ new_scheduler) × IsHeap k.kalloc

-- The root context is current, and known to the scheduler only by its priority.
abbrev pub IsReady : Kernel → Type 0
IsReady k =
    IsFresh k × (k.current ≢ null) × ((e : Ec) × (k.ecs k.current ≡ some e) × (e.priority ≡ 0))

-- Loading writes to memory and takes pages from the pool.
abbrev pub Loads : Kernel → Kernel → Type 0
Loads k k' =
    (k'.ecs ≡ k.ecs)
    × (k'.sched ≡ k.sched)
    × (k'.current ≡ k.current)
    × IsHeap k'.kalloc
    × (k'.pds ≡ k.pds)

then_Loads : (k k' k'' : Kernel) → Loads k k' → Loads k' k'' → Loads k k''
then_Loads k k' k'' w v = (v.0 ∙ w.0, v.1 ∙ w.1, v.2 ∙ w.2, v.3, v.4 ∙ w.4)

map_pages-Loads :
    (n virt phys attr : ℕ) (k : Kernel)
    → IsHeap k.kalloc
    → Safe (Loads k) (map_pages n virt phys attr k)
unfolding map_pages
map_pages-Loads zero virt phys attr k h = Safe-ok (refl, refl, refl, h, refl)
map_pages-Loads (suc n) virt phys attr k h =
    Safe-bind {P = Loads k} (insert k virt phys attr)
      (Safe-bind (insert_mapping k.platform k.kalloc k.memory virt phys attr)
        (Safe-both (insert_mapping-Safe k.platform k.kalloc k.memory virt phys attr)
          (insert_mapping-IsHeap k.platform k.kalloc k.memory virt phys attr h))
        λ r w. Safe-ok (refl, refl, refl, w.1, refl))
      λ k' w.
        Safe-weaken (λ k'' v. then_Loads k k' k'' w v)
          (map_pages-Loads n (add32 virt page_size) (add32 phys page_size) attr k' w.3)

load_segment-Loads :
    (start : ℕ) (p : Ph) (k : Kernel) → IsHeap k.kalloc → Safe (Loads k) (load_segment start p k)
unfolding load_segment
load_segment-Loads start p k h =
    Safe-if (p.type == 1)
      (λ _.
        Safe-if (not (p.f_size == p.m_size) || not (p.v_addr % page_size == p.f_offs % page_size))
          (λ _. record { holds = tt })
          (λ _.
            map_pages-Loads (align_up p.f_size page_size / page_size) (align_dn p.v_addr page_size)
              (align_dn (add32 p.f_offs start) page_size) (if p.flags / 2 % 2 == 0 then 5 else 7) k
              h))
      (λ _. Safe-ok (refl, refl, refl, h, refl))

pub load_segments-Loads :
    (l : Loaded) (start table n i : ℕ) (k : Kernel)
    → IsHeap k.kalloc
    → Safe (Loads k) (load_segments l start table n i k)
unfolding load_segments
load_segments-Loads l start table zero i k h = Safe-ok (refl, refl, refl, h, refl)
load_segments-Loads l start table (suc n) i k h =
    Safe-bind (load_segment start (l.ph table i) k) (load_segment-Loads start (l.ph table i) k h)
      λ k' w.
        Safe-weaken (λ k'' v. then_Loads k k' k'' w v)
          (load_segments-Loads l start table n (i + 1) k' w.3)

-- The end of `root_invoke`: the root context is scheduled, and runs.
first_run :
    (k : Kernel) (e : Ec)
    → IsFresh k
    → k.current ≢ null
    → k.ecs k.current ≡ some e
    → e.priority ≡ 0
    → Ensures (λ s. IsKernel (record k { sched = s })) (schedule k.ecs k.sched k.current)
first_run k e h some_current at top =
    let (s, r, sound, runs) = schedule_first k.ecs k.current e at top some_current in
    let same : schedule k.ecs k.sched k.current ≡ ok s =
      ap (λ t. schedule k.ecs t k.current) h.0 ∙ r in
    rw same (Ensures-ok (sound, runs, some_current, h.1))

pub store_ec_self : (ecs : Ecs) (p : Ptr) (e : Ec) → store_ec ecs p e p ≡ some e
store_ec_self ecs p e = ground arith

pub root_invoke-Ensures : (l : Loaded) (k : Kernel) → IsReady k → Ensures IsKernel (root_invoke l k)
unfolding root_invoke
root_invoke-Ensures l k (h, some_current, (e, at, top)) = Ensures-lookup (k.ecs k.current) λ e' at'.
    let mbi = l.multiboot e'.regs.eax in
    let m = l.module_at mbi.mods_addr in
    let eh = l.eh m.mod_start in
    let table = add32 m.mod_start eh.ph_offset in
    let k2 =
      remapped (remapped (remapped (remapped k e'.regs.eax) mbi.mods_addr) m.cmdline) m.mod_start in
    let r = e'.regs in
    let loaded = record e' { regs = record r { eip = eh.entry } } in
    let k3 = remapped (put_ec k2 k2.current loaded) table in
    let still_top : loaded.priority ≡ 0 = ap (λ (x : Ec). x.priority) (same at at') ∙ top in
    Ensures-if (mbi.flags / 8 % 2 == 0 || not (mbi.mods_count == 1)) (record { ensured = tt })
      (Ensures-if
        (not (eh.ei_magic == 0x464c_457f) || (not (eh.ei_data == 1) || not (eh.type == 2)))
        (record { ensured = tt })
        (Ensures-bind (load_segments l m.mod_start table eh.ph_count 0 k3)
          (record {
            ensured = Safe-Promised (load_segments-Loads l m.mod_start table eh.ph_count 0 k3 h.1);
          })
          λ k4 w.
            let found : k4.ecs k4.current ≡ some loaded =
              ap (λ (ecs : Ecs). ecs k4.current) w.0
              ∙ ap (store_ec k.ecs k.current loaded) w.2
              ∙ store_ec_self k.ecs k.current loaded in
            Ensures-bind (schedule k4.ecs k4.sched k4.current)
              (first_run k4 loaded (w.1 ∙ h.0, w.3) (λ z. some_current (sym w.2 ∙ z)) found
                still_top)
              λ s v. Ensures-any (ec_at k4 k4.current) λ e''. Ensures-ok v))
  where
    same : {e' : Ec} → k.ecs k.current ≡ some e → k.ecs k.current ≡ some e' → e' ≡ e
    same at at' = cc

unmap_low-IsFresh : (n : ℕ) (k : Kernel) → IsFresh k → IsFresh (unmap_low n k)
unfolding unmap_low
unmap_low-IsFresh zero k h = h
unmap_low-IsFresh (suc n) k h = unmap_low-IsFresh n k h

new_domain-IsFresh :
    (k : Kernel) (p : Ptr) → IsFresh k → Ensures (λ r. IsFresh r.1) (new_domain k p)
unfolding new_domain
new_domain-IsFresh k p h =
    Ensures-bind (alloc k.kalloc sizeof_pd) (alloc-IsHeap k.kalloc sizeof_pd h.1 (omega arith))
      λ r w. Ensures-ok (h.0, w.1)

some_self : {e e' : Ec} → some e ≡ some e' → e ≡ e'
some_self h = cc

pub bootstrap-Ensures :
    (load_e addr : ℕ) (k : Kernel)
    → IsFresh k
    → Ensures (λ r. IsReady r.1) (bootstrap load_e k addr)
unfolding bootstrap make_current root_ec
bootstrap-Ensures load_e addr k h =
    let k0 = unmap_low (load_e / 2 ^ 22 + 1) k in
    Ensures-bind (new_domain k0 null)
      (new_domain-IsFresh k0 null (unmap_low-IsFresh (load_e / 2 ^ 22 + 1) k h))
      λ r w.
        Ensures-bind (alloc r.1.kalloc sizeof_ec)
          (alloc-IsHeap r.1.kalloc sizeof_ec w.1 (omega arith))
          λ s v.
            let root = root_ec (r.1.raw s.0) addr r.0 in
            let k2 = put_ec r.1 s.0 root in
            let k3 = record k2 { kalloc = s.1; current = s.0 } in
            Ensures-any (pd_at k3 r.0) λ d. Ensures-lookup (k3.ecs s.0) λ e at.
              let same : root ≡ e = some_self (sym (store_ec_self r.1.ecs s.0 root) ∙ at) in
              Ensures-ok ((w.0, v.1), v.0, (e, at, ap (λ (x : Ec). x.priority) (sym same)))

-- A start from nothing: no context runs or waits, and the pool is in order. If the kernel gets through
-- `bootstrap` and `root_invoke`, the root context runs and the invariant of the system calls holds.
pub start-IsKernel :
    (l : Loaded) (load_e addr : ℕ) (k : Kernel)
    → IsFresh k
    → Promised IsKernel (bootstrap load_e k addr >>= λ r. root_invoke l r.1)
start-IsKernel l load_e addr k h =
    (Ensures-bind {P = λ r. IsReady r.1} (bootstrap load_e k addr)
      (bootstrap-Ensures load_e addr k h) λ r w. root_invoke-Ensures l r.1 w).ensured
