-- ===== src/Ptab/Pages.antt =====
-- Undefined behaviour in the pool and the page tables (kern/src/kalloc.cc, kern/src/ptab.cc).
use nova_mckernel_lab.Base.{ℕ, ◌%◌, ltb, ◌==◌}
use nova_mckernel_lab.Machine.{add32, sub32}
use nova_mckernel_lab.Safe.{Safe, Safe-ok, Safe-if, Safe-bind}
use nova_mckernel_lab.Kalloc.{Kalloc, Memory, Fill, fill_0, alloc, alloc_page, page_bytes}
use nova_mckernel_lab.Ptab.{Platform, pde_address, table_for, insert_mapping}

pub alloc-Safe : (p : Kalloc) (n : ℕ) → Safe (λ r. Unit {0}) (alloc p n)
unfolding alloc
alloc-Safe p n = Safe-if (ltb (sub32 p.end n) p.begin) (λ _. record { holds = tt }) λ _. Safe-ok tt

pub alloc_page-Safe :
    (p : Kalloc) (m : Memory) (n : ℕ) (f : Fill) → Safe (λ r. Unit {0}) (alloc_page p m n f)
unfolding alloc_page
alloc_page-Safe p m n f =
    Safe-if (ltb p.end (add32 p.begin (page_bytes n))) (λ _. record { holds = tt }) λ _. Safe-ok tt

pub insert_mapping-Safe :
    (pf : Platform) (p : Kalloc) (m : Memory) (virt phys attr : ℕ)
    → Safe (λ r. Unit {0}) (insert_mapping pf p m virt phys attr)
unfolding insert_mapping table_for
insert_mapping-Safe pf p m virt phys attr =
    Safe-bind {P = λ r. Unit {0}} (table_for pf p m virt attr)
      (Safe-if (m (pde_address pf virt) % 2 == 0)
        (λ _. Safe-bind (alloc_page p m 1 fill_0) (alloc_page-Safe p m 1 fill_0) λ r _. Safe-ok tt)
        (λ _. Safe-ok tt))
      λ r _. Safe-ok tt
