-- ===== src/Processor.antt =====
-- kern/include/cpu.h and kern/include/x86.h: the registers, the translation buffer and the cache of the
-- processor, as the functions that wrap single instructions act on them.
pub mod Translation
pub mod Cache
use nova_mckernel_lab.Base.{
  ℕ, zero, suc, ◌+◌, ◌-◌, ◌*◌, ◌/◌, ◌%◌, ◌^◌, Bool, true, false, Option, none, some, List, [], ◌∷◌,
  ◌==◌, ltb, if◌then◌else◌,
}
use nova_mckernel_lab.Kalloc.{Memory}
use nova_mckernel_lab.Ptab.{Platform, remap, remap_saddr}

-- What the translation buffer holds: for the number of a page, and of a large page, its physical address,
-- and whether its entry had the bit that marks it as global.
pub record Tlb : Type 0 where
  pub pages : ℕ → Option ℕ
  pub large : ℕ → Option ℕ
  pub global_page : ℕ → Bool
  pub global_large : ℕ → Bool

-- The control registers, and whether interrupts are enabled.
pub record Processor : Type 0 where
  pub cr0 : ℕ
  pub cr2 : ℕ
  pub cr3 : ℕ
  pub cr4 : ℕ
  pub interrupts : Bool
  pub tlb : Tlb

abbrev pub get_cr0 : Processor → ℕ
get_cr0 c = c.cr0

abbrev pub set_cr0 : ℕ → Processor → Processor
set_cr0 v c = record c { cr0 = v }

abbrev pub get_cr2 : Processor → ℕ
get_cr2 c = c.cr2

abbrev pub set_cr2 : ℕ → Processor → Processor
set_cr2 v c = record c { cr2 = v }

abbrev pub get_cr4 : Processor → ℕ
get_cr4 c = c.cr4

abbrev pub set_cr4 : ℕ → Processor → Processor
set_cr4 v c = record c { cr4 = v }

-- `rdtsc`, from the two halves that the instruction leaves.
abbrev pub rdtsc : ℕ → ℕ → ℕ
rdtsc h l = h * 2 ^ 32 + l

-- `preempt_disable` and `preempt_enable`.
abbrev pub preempt_disable : Processor → Processor
preempt_disable c = record c { interrupts = false }

abbrev pub preempt_enable : Processor → Processor
preempt_enable c = record c { interrupts = true }

abbrev pub without : (ℕ → Option ℕ) → ℕ → ℕ → Option ℕ
without f i j = if j == i then none else f j

-- `Cpu::flush (addr)`: no translation of `addr` is kept, be its page small or large.
unfoldable pub flush_page : ℕ → Tlb → Tlb
flush_page addr t = record t {
  pages = without t.pages (addr / 2 ^ 12);
  large = without t.large (addr / 2 ^ 22);
}

abbrev pub globals : (ℕ → Bool) → (ℕ → Option ℕ) → ℕ → Option ℕ
globals global f i = if global i then f i else none

-- `Cpu::flush ()`: a write of CR3, which keeps the global pages, as kern/src/start.S sets the bit for them
-- in CR4.
unfoldable pub flush_all : Tlb → Tlb
flush_all t = record t {
  pages = globals t.global_page t.pages;
  large = globals t.global_large t.large;
}

-- `Ptab::remap` (kern/src/ptab.cc) with its flush.
unfoldable pub remap_on : Platform → Memory → Tlb → ℕ → ℕ × Memory × Tlb
unfolding flush_page
remap_on pf m t addr = let (virt, m') = remap pf m addr in (virt, m', flush_page remap_saddr t)

-- The loop of `flush (d, n)` from `p` on, up to `end`: the addresses that `clflush` is
-- given, with `fuel` rounds.
unfoldable pub flush_from : ℕ → ℕ → ℕ → List ℕ
flush_from zero p end = []
flush_from (suc fuel) p end =
    let rest = flush_from fuel (p + 32) end in if ltb p end then p ∷ rest else []

-- `flush (d, n)`: of 32 bytes a round, `n` rounds are enough.
unfoldable pub flush_region : ℕ → ℕ → List ℕ
unfolding flush_from
flush_region d n = flush_from n d (d + n)
