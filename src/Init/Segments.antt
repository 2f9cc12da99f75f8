-- ===== src/Init/Segments.antt =====
-- What the processor takes at a system call and at the return from it after `init` (kern/src/init.cc):
-- `sysenter` takes the code segment, stack and address from three registers, and the stack segment is
-- the next in the table; `sysexit` takes the two that follow, at level 3.
use nova_mckernel_lab.Base.{
  ℕ, suc, ◌+◌, ◌*◌, ◌/◌, ◌%◌, ◌≤◌, ◌<◌, ◌≡◌, refl, ap, ◌∙◌, false, arith, get_or, ltb, ◌==◌,
}
use nova_mckernel_lab.Machine.{word_mod, add32, ok, ◌>>=◌}
use nova_mckernel_lab.Refines.{Yields, Yields-bind, Yields-if}
use nova_mckernel_lab.Kalloc.{
  Kalloc, Memory, Fill, fill_0, fill_1, nofill, page_size, page_bytes, fill_pages, alloc_page,
}
use nova_mckernel_lab.Ptab.{table_for, insert_mapping, pde_address}
use nova_mckernel_lab.Kernel.{Kernel, sel_user_code, sel_user_data}
use nova_mckernel_lab.Boot.{insert, init_mappings}
use nova_mckernel_lab.Serial.{Serial}
use nova_mckernel_lab.Serial
use nova_mckernel_lab.Descriptor.{
  Entry, Tss, Kind, code_xra, data_rwa, pages, bit_32, kind_number, gdt_build, tss_build,
  null_entry, whole,
}
use nova_mckernel_lab.Descriptor.Fields.{
  base_of, limit_of, level_of, kind_of, present_of, wide_of, paged_of, gdt_set-fields,
}
use nova_mckernel_lab.Msr.{
  Msrs, msr_number, read_msr, write_msr, read_msr-write_msr, ia32_sysenter_cs, ia32_sysenter_esp,
  ia32_sysenter_eip,
}
use nova_mckernel_lab.Init.{
  Symbols, Initialised, sel_kern_code, sp0_address, setup_sysenter, set_up, init,
}

-- `n` pages are left in the pool.
abbrev pub HasPages : ℕ → Kalloc → Type 0
HasPages n p = (p.begin + n * page_size ≤ p.end) × (p.end + n * page_size < word_mod)

alloc_page-Yields :
    (p : Kalloc) (m : Memory) (size n : ℕ) (f : Fill)
    → size ≤ 2
    → HasPages (size + n) p
    → Yields (λ r. HasPages n r.1) (alloc_page p m size f)
unfolding alloc_page
alloc_page-Yields p m size n f small h =
    let fits : ltb p.end (add32 p.begin (page_bytes size)) ≡ false = ground (arith, h, small) in
    (
      (
        p.begin,
        record p { begin = add32 p.begin (page_bytes size) },
        fill_pages f m p.begin (page_bytes size),
      ),
      rw fits refl,
      omega (arith, h, small),
    )

fewer : (n : ℕ) (p : Kalloc) → HasPages (suc n) p → HasPages n p
fewer n p h = omega (arith, h)

insert-Yields :
    (k : Kernel) (virt phys attr n : ℕ)
    → HasPages (suc n) k.kalloc
    → Yields (λ k'. HasPages n k'.kalloc) (insert k virt phys attr)
unfolding insert_mapping table_for
insert-Yields k virt phys attr n h =
    Yields-bind {P = λ r. HasPages n r.0}
      (insert_mapping k.platform k.kalloc k.memory virt phys attr) _
      (Yields-bind {P = λ r. HasPages n r.1} (table_for k.platform k.kalloc k.memory virt attr) _
        (Yields-if (k.memory (pde_address k.platform virt) % 2 == 0)
          (Yields-bind {P = λ r. HasPages n r.1} (alloc_page k.kalloc k.memory 1 fill_0) _
            (alloc_page-Yields k.kalloc k.memory 1 n fill_0 (omega arith) (omega (arith, h)))
            λ r w. (_, refl, w))
          (_, refl, fewer n k.kalloc h))
        λ r w. (_, refl, w))
      λ r w. (_, refl, w)

init_mappings-Yields :
    (k : Kernel) → HasPages 6 k.kalloc → Yields (λ k'. Unit {0}) (init_mappings k)
unfolding init_mappings
init_mappings-Yields k h =
    Yields-bind {P = λ r. HasPages 4 r.1} (alloc_page k.kalloc k.memory 2 fill_1) _
      (alloc_page-Yields k.kalloc k.memory 2 4 fill_1 (omega arith) h)
      λ r w.
        Yields-bind {P = λ r. HasPages 3 r.1} (alloc_page r.1 r.2 1 nofill) _
          (alloc_page-Yields r.1 r.2 1 3 nofill (omega arith) w)
          λ r' w'.
            Yields-bind {P = λ (k' : Kernel). HasPages 2 k'.kalloc} (insert _ _ _ _) _
              (insert-Yields _ _ _ _ 2 w')
              λ k1 w1.
                Yields-bind {P = λ (k' : Kernel). HasPages 1 k'.kalloc} (insert _ _ _ _) _
                  (insert-Yields _ _ _ _ 1 w1)
                  λ k2 w2. let (k3, e, w3) = insert-Yields k2 _ _ _ 0 w2 in (k3, e, tt)

-- The entry of a table that a selector names, and a segment of all memory: present, of 32 bits, from
-- address 0 on, with 2^20 pages.
abbrev pub segment : Initialised → ℕ → Entry
segment i sel = get_or i.gdt (sel / 8) null_entry

abbrev pub IsWhole : Entry → ℕ → Kind → Type 0
IsWhole e level kind =
    (base_of e ≡ 0)
    × (limit_of e ≡ 0xf_ffff)
    × (level_of e ≡ level)
    × (kind_of e ≡ kind_number kind)
    × (present_of e ≡ 1)
    × (wide_of e ≡ 1)
    × (paged_of e ≡ 1)

-- The registers after `setup sysenter`.
sysenter-reads :
    (y : Symbols) (s : Msrs)
    → y.tss_run + 4 < word_mod
    → y.entry_sysenter < word_mod
    → let s' = setup_sysenter y s in
      (read_msr s' ia32_sysenter_cs ≡ sel_kern_code)
      × (read_msr s' ia32_sysenter_esp ≡ y.tss_run + 4)
      × (read_msr s' ia32_sysenter_eip ≡ y.entry_sysenter)
unfolding msr_number
sysenter-reads y s run entry =
    let esp : add32 y.tss_run 4 ≡ y.tss_run + 4 = omega arith in
    let s1 = write_msr s ia32_sysenter_cs sel_kern_code in
    let s2 = write_msr s1 ia32_sysenter_esp (sp0_address y) in
    (
      read_msr-write_msr s2 ia32_sysenter_eip ia32_sysenter_cs y.entry_sysenter
            (omega (arith, entry))
          ∙ read_msr-write_msr s1 ia32_sysenter_esp ia32_sysenter_cs (sp0_address y) (omega arith)
          ∙ read_msr-write_msr s ia32_sysenter_cs ia32_sysenter_cs sel_kern_code (omega arith),
      read_msr-write_msr s2 ia32_sysenter_eip ia32_sysenter_esp y.entry_sysenter
            (omega (arith, entry))
          ∙ read_msr-write_msr s1 ia32_sysenter_esp ia32_sysenter_esp (sp0_address y) (omega arith)
          ∙ esp,
      read_msr-write_msr s2 ia32_sysenter_eip ia32_sysenter_eip y.entry_sysenter
          (omega (arith, entry)),
    )

-- With six pages in the pool, and its end six below the end of memory, `init` returns. The processor
-- then enters the kernel at `entry_sysenter` with the stack pointer at the field `sp0` of `Tss::run`,
-- which holds the top of the kernel's stack, in present 32-bit segments of all memory, code and data, at
-- level 0; and it goes back to such segments of all memory, code and data, at level 3, whose selectors are those of the
-- registers that a context starts with.
pub init-sysenter :
    (y : Symbols) (k : Kernel) (serial : Serial) (run dbf : Tss) (s : Msrs)
    → HasPages 6 k.kalloc
    → y.tss_run + 4 < word_mod
    → y.entry_sysenter < word_mod
    → (i : Initialised) × (init y k serial run dbf s ≡ ok i)
      × (read_msr i.msrs ia32_sysenter_eip ≡ y.entry_sysenter)
      × (read_msr i.msrs ia32_sysenter_esp ≡ y.tss_run + 4)
      × (i.kernel.sp0 ≡ 0xcfff_f000 + page_size)
      × (let cs = read_msr i.msrs ia32_sysenter_cs in
          IsWhole (segment i cs) 0 code_xra
          × IsWhole (segment i (cs + 8)) 0 data_rwa
          × IsWhole (segment i (cs + 16)) 3 code_xra
          × IsWhole (segment i (cs + 24)) 3 data_rwa
          × (cs + 16 + 3 ≡ sel_user_code)
          × (cs + 24 + 3 ≡ sel_user_data))
unfolding init gdt_build tss_build
init-sysenter y k serial run dbf s room at entry =
    let (k', e, _) = init_mappings-Yields k room in
    let i = set_up y k' (Serial.init serial y.serial_base) run dbf s in
    let (r_cs, r_esp, r_eip) = sysenter-reads y s at entry in
    (
      i,
      ap (λ o. o >>= λ k'. ok (set_up y k' (Serial.init serial y.serial_base) run dbf s)) e,
      r_eip,
      r_esp,
      refl,
      rw r_cs (
        gdt_set-fields code_xra pages bit_32 0 0 whole (omega arith) (omega arith),
        gdt_set-fields data_rwa pages bit_32 0 0 whole (omega arith) (omega arith),
        gdt_set-fields code_xra pages bit_32 3 0 whole (omega arith) (omega arith),
        gdt_set-fields data_rwa pages bit_32 3 0 whole (omega arith) (omega arith),
        refl,
        refl,
      ),
    )
