-- ===== src/Ptab.antt =====
-- kern/include/ptab.h and kern/src/ptab.cc: the page directory and the page tables, in the kernel's
-- memory. `x >> k` and `x & (2 ^ k - 1)` are written `x / 2 ^ k` and `x % 2 ^ k`; an `|` of disjoint
-- bits is a sum. The `assert` of `insert_mapping` is empty, as in a build without DEBUG.
pub mod Walk
pub mod Remap
pub mod Pages
use nova_mckernel_lab.Base.{ℕ, ◌+◌, ◌-◌, ◌*◌, ◌/◌, ◌%◌, ◌^◌, ◌==◌, if◌then◌else◌}
use nova_mckernel_lab.Machine.{add32, Outcome, ok, ◌>>=◌}
use nova_mckernel_lab.Kalloc.{page_size, Memory, Kalloc, fill_0, alloc_page, phys2virt, virt2phys}

-- What the linker and the processor fix: the address of `OFFSET`, and CR3.
pub record Platform : Type 0 where
  pub offset : ℕ
  pub cr3 : ℕ

-- `memory.h`: the addresses from `LINK_ADDR` on are the kernel's.
abbrev pub link_addr : ℕ
link_addr = 0xc000_0000

abbrev pub remap_saddr : ℕ
remap_saddr = 0xdf00_0000

-- `p[i]` of an `mword *`, and the memory after `p[i] = w`.
abbrev pub word_at : ℕ → ℕ → ℕ
word_at p i = add32 p (4 * i)

abbrev pub store_word : Memory → ℕ → ℕ → Memory
store_word m a w b = if b == a then w else m b

-- `x & ~PAGE_MASK`.
abbrev pub page_of : ℕ → ℕ
page_of x = x - x % page_size

-- The addresses of the directory's entry for `virt`, and of the entry of the table at `ptab`.
abbrev pub pde_address : Platform → ℕ → ℕ
pde_address pf virt = word_at (phys2virt pf.offset pf.cr3) (virt / 2 ^ 22)

abbrev pub pte_address : ℕ → ℕ → ℕ
pte_address ptab virt = word_at ptab (virt / 2 ^ 12 % 2 ^ 10)

-- The entry for a new table: `p + 0x23 + (attr & 4)`.
abbrev pub pde_value : ℕ → ℕ → ℕ
pde_value p attr = add32 (add32 p 0x23) (attr / 4 % 2 * 4)

-- `(phys & ~PAGE_MASK) | (attr & PAGE_MASK)`.
abbrev pub pte_value : ℕ → ℕ → ℕ
pte_value phys attr = page_of phys + attr % page_size

-- The table for `virt`: a fresh one if the directory has none.
unfoldable pub table_for : Platform → Kalloc → Memory → ℕ → ℕ → Outcome (ℕ × Kalloc × Memory)
table_for pf k m virt attr =
    let pde = m (pde_address pf virt) in
    if pde % 2 == 0
    then (alloc_page k m 1 fill_0 >>= λ (ptab, k', m').
        ok (
          ptab,
          k',
          store_word m' (pde_address pf virt) (pde_value (virt2phys pf.offset ptab) attr),
        ))
    else ok (phys2virt pf.offset (page_of pde), k, m)

-- `Ptab::insert_mapping`.
unfoldable pub insert_mapping : Platform → Kalloc → Memory → ℕ → ℕ → ℕ → Outcome (Kalloc × Memory)
unfolding table_for
insert_mapping pf k m virt phys attr = table_for pf k m virt attr >>= λ (ptab, k', m').
    ok (k', store_word m' (pte_address ptab virt) (pte_value phys attr))

-- `Ptab::remap`, with the address that it returns. `Cpu::flush` has no effect on memory.
unfoldable pub remap : Platform → Memory → ℕ → ℕ × Memory
remap pf m addr =
    let pde = pde_address pf remap_saddr in
    (
      add32 remap_saddr (addr % 2 ^ 20),
      store_word (store_word m pde 0) pde (add32 (addr - addr % 2 ^ 20) 0xe3),
    )
