-- ===== src/Startup.antt =====
-- kern/src/start.S: the first page directory, which is filled before paging is on, and the registers that
-- turn paging on. What the linker (kern/src/hypervisor.ld) fixes is a parameter.
pub mod Paging
pub mod Mapped
pub mod Unmap
use mathlib.Core.Option
use nova_mckernel_lab.Base.{
  ℕ, zero, suc, ◌+◌, ◌-◌, ◌*◌, ◌/◌, ◌%◌, ◌^◌, Option, none, some, ◌==◌, ltb, if◌then◌else◌,
}
use nova_mckernel_lab.Machine.{add32}
use nova_mckernel_lab.Kalloc.{Memory}
use nova_mckernel_lab.Ptab.{link_addr, store_word}
use nova_mckernel_lab.Processor.{Processor, Tlb, set_cr0, set_cr4, flush_all}
use nova_mckernel_lab.Kernel.{Kernel}
use nova_mckernel_lab.Boot.{unmap_low}

-- The linker's `LOAD_E`, `LINK_P`, `LINK_E` and `KERN_PDIR`.
pub record Linked : Type 0 where
  pub load_e : ℕ
  pub link_p : ℕ
  pub link_e : ℕ
  pub kern_pdir : ℕ

-- What is stored at `__serial_base`, of the word that the BIOS left at 0x400.
unfoldable pub serial_base : ℕ → ℕ
serial_base w = if w % 2 ^ 16 == 0 then w / 2 ^ 16 % 2 ^ 16 else w % 2 ^ 16

-- `stosl; add $0x400000, %eax; cmp limit, %eax; jb`, with `fuel` rounds: `none` is out of fuel.
unfoldable pub fill_directory : ℕ → Memory → ℕ → ℕ → ℕ → Option Memory
fill_directory zero m edi eax limit = none
fill_directory (suc fuel) m edi eax limit =
    let m' = store_word m edi eax in
    let rest = fill_directory fuel m' (add32 edi 4) (add32 eax 0x40_0000) limit in
    if ltb (add32 eax 0x40_0000) limit then rest else some m'

-- Both loops, on physical memory.
unfoldable pub boot_directory : Linked → Memory → Option Memory
unfolding fill_directory
boot_directory s m = Option.bind (fill_directory 1024 m s.kern_pdir 0xe3 s.load_e) λ m1.
    fill_directory 1024 m1 (add32 s.kern_pdir (link_addr / 2 ^ 20)) (add32 s.link_p 0x1e3) s.link_e

abbrev pub paged : Linked → Processor → Processor
paged s c = let c' = set_cr4 0x698 c in set_cr0 0x8001_002b (record c' { cr3 = s.kern_pdir })

-- From `SETUP BOOT PAGE TABLE` up to `lgdt`.
unfoldable pub start_paging : Linked → Processor → Memory → Option (Processor × Memory)
unfolding boot_directory
start_paging s c m = Option.map (λ (m' : Memory). (paged s c, m')) (boot_directory s m)

-- What `bootstrap` (kern/src/init.cc) takes away, with the flush that follows.
unfoldable pub unmap_low_on : ℕ → Kernel → Tlb → Kernel × Tlb
unfolding unmap_low flush_all
unmap_low_on load_e k t = (unmap_low (load_e / 2 ^ 22 + 1) k, flush_all t)
