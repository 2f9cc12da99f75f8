-- ===== src/Boot.antt =====
-- From the start to the first user instruction: `bootstrap` and the mappings of `init`
-- (kern/src/init.cc), and `Ec::root_invoke` (kern/src/ec.cc), which loads the task that the boot loader
-- left in memory. What the loader left, read through `Ptab::remap`, is a parameter: the words of the
-- multiboot structure and module (kern/include/multiboot.h), and the headers of the ELF file
-- (kern/include/elf.h).
pub mod Start
use nova_mckernel_lab.Base.{
  ◌<◌, ◌≤◌, ℕ, zero, suc, ◌+◌, ◌-◌, ◌/◌, ◌%◌, ◌^◌, not, ◌||◌, ◌==◌, if◌then◌else◌,
}
use nova_mckernel_lab.Machine.{add32, no_module, no_elf, bad_elf, Outcome, ok, panic, ◌>>=◌}
use nova_mckernel_lab.Ec.{null, ret_user_iret}
use nova_mckernel_lab.Scheduler.{schedule}
use nova_mckernel_lab.Kalloc.{page_size, alloc, alloc_page, fill_1, nofill, phys2virt, virt2phys}
use nova_mckernel_lab.Pd.{set_cap}
use nova_mckernel_lab.Ptab.{link_addr, insert_mapping, remap, store_word, word_at}
use nova_mckernel_lab.Kernel.{
  Kernel, Handled, ec_at, pd_at, put_ec, put_pd, sizeof_ec, new_domain, root_ec, make_current,
}

-- `Multiboot` and `Multiboot_module`, the fields that are read.
pub record Multiboot : Type 0 where
  pub flags : ℕ
  pub mods_count : ℕ
  pub mods_addr : ℕ

pub record Module : Type 0 where
  pub mod_start : ℕ
  pub mod_end : ℕ
  pub cmdline : ℕ

-- `Eh`, the fields that are read.
pub record Eh : Type 0 where
  pub ei_magic : ℕ
  pub ei_data : ℕ
  pub type : ℕ
  pub entry : ℕ
  pub ph_offset : ℕ
  pub ph_count : ℕ

-- `Ph`, with the fields that are read.
pub record Ph : Type 0 where
  pub type : ℕ
  pub f_offs : ℕ
  pub v_addr : ℕ
  pub f_size : ℕ
  pub m_size : ℕ
  pub flags : ℕ

-- What the loader left at a physical address.
pub record Loaded : Type 0 where
  pub multiboot : ℕ → Multiboot
  pub module_at : ℕ → Module
  pub eh : ℕ → Eh
  pub ph : ℕ → ℕ → Ph

-- The pages of each segment lie below the addresses of the kernel.
abbrev pub IsPlaced : Loaded → Type 0
IsPlaced l = (table i : ℕ) → let p = l.ph table i in p.v_addr + p.f_size + page_size ≤ link_addr

-- `align_dn` and `align_up` (kern/include/bits.h), for an alignment that is a power of two.
abbrev pub align_dn : ℕ → ℕ → ℕ
align_dn val align = val - val % align

abbrev pub align_up : ℕ → ℕ → ℕ
align_up val align = align_dn (add32 val (align - 1)) align

-- `Ptab::remap`, for its effect on the directory.
abbrev pub remapped : Kernel → ℕ → Kernel
remapped k addr = record k { memory = (remap k.platform k.memory addr).1 }

abbrev pub insert : Kernel → ℕ → ℕ → ℕ → Outcome Kernel
insert k virt phys attr = insert_mapping k.platform k.kalloc k.memory virt phys attr >>= λ r.
    ok (record k { kalloc = r.0; memory = r.1 })

-- `while (size)`, with `n` pages left.
unfoldable pub map_pages : ℕ → ℕ → ℕ → ℕ → Kernel → Outcome Kernel
map_pages zero virt phys attr k = ok k
map_pages (suc n) virt phys attr k = do
  k' ← insert k virt phys attr
  map_pages n (add32 virt page_size) (add32 phys page_size) attr k'

-- The body of the loop over the program headers.
unfoldable pub load_segment : ℕ → Ph → Kernel → Outcome Kernel
unfolding map_pages
load_segment start p k =
    if p.type == 1
    then (if not (p.f_size == p.m_size) || not (p.v_addr % page_size == p.f_offs % page_size)
        then panic bad_elf
        else map_pages (align_up p.f_size page_size / page_size) (align_dn p.v_addr page_size)
            (align_dn (add32 p.f_offs start) page_size) (if p.flags / 2 % 2 == 0 then 5 else 7) k)
    else ok k

-- The loop, with `n` headers from the `i`-th on left.
unfoldable pub load_segments : Loaded → ℕ → ℕ → ℕ → ℕ → Kernel → Outcome Kernel
unfolding load_segment
load_segments l start table zero i k = ok k
load_segments l start table (suc n) i k = do
  k' ← load_segment start (l.ph table i) k
  load_segments l start table n (i + 1) k'

-- `Ec::root_invoke`, up to the return to user mode. The texts that it prints are left out.
unfoldable pub root_invoke : Loaded → Kernel → Outcome Kernel
unfolding load_segments
root_invoke l k = do
  e ← ec_at k k.current
  let mbi = l.multiboot e.regs.eax
  let k1 = remapped k e.regs.eax
  if mbi.flags / 8 % 2 == 0 || not (mbi.mods_count == 1) then panic no_module else (do
    let m = l.module_at mbi.mods_addr
    let k2 = remapped (remapped (remapped k1 mbi.mods_addr) m.cmdline) m.mod_start
    let h = l.eh m.mod_start
    if not (h.ei_magic == 0x464c_457f) || (not (h.ei_data == 1) || not (h.type == 2))
        then panic no_elf
        else (do
          let r = e.regs
          let k3 = put_ec k2 k2.current (record e { regs = record r { eip = h.entry } })
          let table = add32 m.mod_start h.ph_offset
          k4 ← load_segments l m.mod_start table h.ph_count 0 (remapped k3 table)
          sched' ← schedule k4.ecs k4.sched k4.current
          e' ← ec_at k4 k4.current
          ok (record (put_ec k4 k4.current (record e' { cont = ret_user_iret })) {
            sched = sched';
          })))

-- The loop of `bootstrap` that empties the first `n` entries of the directory.
unfoldable pub unmap_low : ℕ → Kernel → Kernel
unmap_low zero k = k
unmap_low (suc n) k =
    let k' = unmap_low n k in
    record k' {
      memory = store_word k'.memory (word_at (phys2virt k'.platform.offset k'.platform.cr3) n) 0;
    }

-- `bootstrap`. `load_e` is the address of the linker's `LOAD_E`.
unfoldable pub bootstrap : ℕ → Kernel → ℕ → Handled
unfolding unmap_low
bootstrap load_e k addr = do
  (root_pd, k1) ← new_domain (unmap_low (load_e / 2 ^ 22 + 1) k) null
  (ec, kalloc') ← alloc k1.kalloc sizeof_ec
  let k2 = put_ec k1 ec (root_ec (k1.raw ec) addr root_pd)
  let k3 = record k2 { kalloc = kalloc'; current = ec }
  d ← pd_at k3 root_pd
  let (granted, d') = set_cap d 0 ec
  make_current (put_pd k3 root_pd d') ec

-- The mappings of `init`: the bitmap of I/O ports, and the page of the kernel's stack.
unfoldable pub init_mappings : Kernel → Outcome Kernel
init_mappings k = do
  (bitmap, kalloc1, memory1) ← alloc_page k.kalloc k.memory 2 fill_1
  let iobm = virt2phys k.platform.offset bitmap
  (stack, kalloc2, memory2) ← alloc_page kalloc1 memory1 1 nofill
  let k' = record k { kalloc = kalloc2; memory = memory2 }
  k1 ← insert k' 0xcfff_f000 (virt2phys k.platform.offset stack) 0x23
  k2 ← insert k1 0xd000_0000 iobm 0x23
  insert k2 (0xd000_0000 + page_size) (add32 iobm page_size) 0x23
