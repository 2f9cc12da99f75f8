-- ===== src/Examples/Paging.antt =====
-- The theorems on the first page directory at a concrete layout of the kernel.
use nova_mckernel_lab.Base.{
  ◌-◌, ℕ, ◌≡◌, ◌<◌, ◌*◌, ◌/◌, ◌%◌, ◌^◌, ◌⊎◌, ◌∙◌, refl, sym, ap, inl, inr, false, arith, none, some,
  leb, ◌==◌, ==_iff, Bool-cases, if◌then◌else◌,
}
use nova_mckernel_lab.Machine.{word_mod}
use nova_mckernel_lab.Kalloc.{Memory, phys2virt}
use nova_mckernel_lab.Ptab.{word_at}
use nova_mckernel_lab.Processor.{Processor, Tlb}
use nova_mckernel_lab.Processor.Translation.{access, walk_any}
use nova_mckernel_lab.Startup.{Linked, start_paging, unmap_low_on}
use nova_mckernel_lab.Startup.Paging.{IsLinked, entry_at}
use nova_mckernel_lab.Startup.Mapped.{seen, start_map, kernel_map, start_paging-walk}
use nova_mckernel_lab.Startup.Unmap.{IsFilledAtStart, IsAfterInit, unmap_low_on-access}
use nova_mckernel_lab.Kernel.{Kernel}
use nova_mckernel_lab.Examples.{kernel}

abbrev layout : Linked
layout = record {
  load_e = 0x20_5000;
  link_p = 0x40_0000;
  link_e = 0x180_0000;
  kern_pdir = 0x50_0000;
}

layout-IsLinked : IsLinked layout
layout-IsLinked = record {
  load_page = refl;
  loaded = omega arith;
  load_low = omega arith;
  link_aligned = refl;
  end_aligned = refl;
  linked = omega arith;
  link_fits = omega arith;
  end_word = omega arith;
  table_word = omega arith;
}

-- The translation of the kernel's first page.
abbrev first_page : Tlb
first_page = record {
  pages = λ i. none;
  large = λ i. if i == 768 then some 0x40_0000 else none;
  global_page = λ i. false;
  global_large = λ i. i == 768;
}

first_page-IsFilledAtStart : IsFilledAtStart layout first_page
first_page-IsFilledAtStart = record {
  no_pages = λ i no_stack no_bitmap. refl;
  translations = λ i no_stack no_bitmap. translations i;
}
  where
    translations :
        (i : ℕ)
        → (first_page.large i ≡ none)
          ⊎ ((first_page.large i ≡ start_map layout (i * 2 ^ 22))
              × (first_page.global_large i ≡ leb 768 i))
    translations i = elim (Bool-cases (i == 768)) [
      | inr other ↦ inl (rw other refl)
      | inl same ↦
          let at : i ≡ 768 = (==_iff _ _).0 same in
          inr (
            ap first_page.large at ∙ sym (ap (λ (j : ℕ). start_map layout (j * 2 ^ 22)) at),
            ap first_page.global_large at ∙ sym (ap (λ (j : ℕ). leb 768 j) at),
          )
    ]

abbrev cold : Processor
cold = record { cr0 = 1; cr2 = 0; cr3 = 0; cr4 = 0; interrupts = false; tlb = first_page }

start_paging-walk_example :
    (r : Processor × Memory) × (start_paging layout cold (λ a. 0) ≡ some r)
    × (r.0.cr0 / 2 ^ 31 % 2 ≡ 1)
    × (r.0.cr4 / 2 ^ 4 % 2 ≡ 1)
    × ((virt : ℕ)
        → virt < word_mod
        → walk_any (record { offset = 0xbfc0_0000; cr3 = r.0.cr3 }) (seen 0xbfc0_0000 r.1) virt
          ≡ start_map layout virt)
start_paging-walk_example =
    start_paging-walk layout cold (λ a. 0) 0xbfc0_0000 layout-IsLinked (λ i small. refl)
      (omega arith)

-- The kernel on that directory.
abbrev booted : Kernel
booted = record kernel {
  platform = record { offset = 0xbfc0_0000; cr3 = 0x50_0000 };
  memory = λ a. entry_at layout ((a - 0xc010_0000) / 4);
}

booted-IsAfterInit : IsAfterInit layout booted
booted-IsAfterInit = record {
  entries = λ i in_table no_stack no_bitmap.
      let back : (word_at (phys2virt 0xbfc0_0000 0x50_0000) i - 0xc010_0000) / 4 ≡ i =
        omega (arith, in_table) in
      ap (λ (j : ℕ). entry_at layout j) back;
}

unmap_low_on-access_example :
    let (k', t') = unmap_low_on layout.load_e booted first_page in
    access (walk_any k'.platform k'.memory) t' 0xc000_1234 ≡ kernel_map layout 0xc000_1234
unmap_low_on-access_example =
    unmap_low_on-access layout booted first_page 0xc000_1234 layout-IsLinked booted-IsAfterInit
      first_page-IsFilledAtStart (omega arith) (λ e. absurd (omega (arith, e)))
      (λ e. absurd (omega (arith, e)))
