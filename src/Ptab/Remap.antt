-- ===== src/Ptab/Remap.antt =====
-- What `Ptab::remap` (kern/src/ptab.cc) maps, as the processor translates an address in a large page.
use nova_mckernel_lab.Base.{ℕ, ◌+◌, ◌-◌, ◌*◌, ◌/◌, ◌%◌, ◌^◌, ◌<◌, ◌≡◌, sym, ap, ◌∙◌, ◌↔◌, arith}
use nova_mckernel_lab.Machine.{word_mod, add32}
use nova_mckernel_lab.Kalloc.{Memory}
use nova_mckernel_lab.Ptab.Walk.{store_same}
use nova_mckernel_lab.Ptab.{Platform, pde_address, remap, remap_saddr, store_word}

-- The physical address that a present entry of the directory for a page of 4 MB gives: its upper ten
-- bits, and the lower 22 of the address.
abbrev pub translate_large : Platform → Memory → ℕ → ℕ
translate_large pf m virt = m (pde_address pf virt) / 2 ^ 22 * 2 ^ 22 + virt % 2 ^ 22

abbrev target : ℕ → ℕ
target addr =
    add32 (addr - addr % 2 ^ 20) 0xe3 / 2 ^ 22 * 2 ^ 22 + add32 remap_saddr (addr % 2 ^ 20) % 2 ^ 22

large : (addr : ℕ) → addr < word_mod → target addr ≡ addr → addr / 2 ^ 20 % 4 ≡ 0
large addr h e = omega arith

small : (addr : ℕ) → addr < word_mod → addr / 2 ^ 20 % 4 ≡ 0 → target addr ≡ addr
small addr h e = omega arith

-- The address that `remap` returns translates to the physical address exactly if bits 20 and 21 of
-- that are clear; whatever the address, the directory's entry for it is present and large.
pub remap-translate :
    (pf : Platform) (m : Memory) (addr : ℕ)
    → addr < word_mod
    → let (virt, m') = remap pf m addr in
      (m' (pde_address pf virt) % 2 ≡ 1)
      × (m' (pde_address pf virt) / 2 ^ 7 % 2 ≡ 1)
      × ((translate_large pf m' virt ≡ addr) ↔ (addr / 2 ^ 20 % 4 ≡ 0))
unfolding remap
remap-translate pf m addr h =
    let same : add32 remap_saddr (addr % 2 ^ 20) / 2 ^ 22 ≡ remap_saddr / 2 ^ 22 = omega arith in
    let entry = add32 (addr - addr % 2 ^ 20) 0xe3 in
    let at : (remap pf m addr).1 (pde_address pf (add32 remap_saddr (addr % 2 ^ 20))) ≡ entry =
      rw same (
        store_same (store_word m (pde_address pf remap_saddr) 0) (pde_address pf remap_saddr)
          entry) in
    (
      ap (λ x. x % 2) at ∙ omega arith,
      ap (λ x. x / 2 ^ 7 % 2) at ∙ omega arith,
      (
        (λ e. large addr h (
            ap (λ x. x / 2 ^ 22 * 2 ^ 22 + add32 remap_saddr (addr % 2 ^ 20) % 2 ^ 22) (sym at)
            ∙ e)),
        λ clear.
            ap (λ x. x / 2 ^ 22 * 2 ^ 22 + add32 remap_saddr (addr % 2 ^ 20) % 2 ^ 22) at
            ∙ small addr h clear,
      ),
    )
