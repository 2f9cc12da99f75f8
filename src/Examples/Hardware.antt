-- ===== src/Examples/Hardware.antt =====
-- The theorems on the entry to the kernel, the processor and atomic variables at concrete values.
use nova_mckernel_lab.Base.{
  ◌≡◌, ◌≤◌, ◌<◌, ◌+◌, ◌-◌, ◌*◌, ◌/◌, ◌%◌, ◌^◌, ◌↔◌, ◌⊎◌, refl, true, false, not, ◌&&◌, ◌||◌, ◌==◌,
  arith, none, some, if◌then◌else◌,
}
use nova_mckernel_lab.Machine.{sub32, Outcome, ok}
use nova_mckernel_lab.Entry.{
  Registers, entry_exc, entry_exc_error, entry_interrupt, from_user, words_of, ret_from_interrupt,
  sysenter_entry, leave_iret, leave_sysexit,
}
use nova_mckernel_lab.Entry.Returns.{saved, answered, entered, exception-resumes, sysenter-returns}
use nova_mckernel_lab.Bits.{max_order}
use nova_mckernel_lab.Bits.Scan.{max_order_lem}
use nova_mckernel_lab.Kalloc.{Kalloc, Memory, page_size}
use nova_mckernel_lab.Ptab.{insert_mapping, remap}
use nova_mckernel_lab.Processor.{Tlb, remap_on, flush_region}
use nova_mckernel_lab.Processor.Translation.{
  access, walk_any, insert_mapping-access, remap_on-access,
}
use nova_mckernel_lab.Processor.Cache.{Touches, flush_region-Touches}
use nova_mckernel_lab.Atomic.{bit, test_set_bit, test_clr_bit, set_mask, clr_mask, add, sub}
use nova_mckernel_lab.Atomic.Laws.{atomic_sets}
use nova_mckernel_lab.Examples.{kernel, pool}
use nova_mckernel_lab.Examples.Machinery.{laid_out}

-- User code, with a system call's arguments.
abbrev user_cpu : Registers
user_cpu = record {
  edi = 1;
  esi = 2;
  ebp = 3;
  ebx = 4;
  edx = 0x1000;
  ecx = 0x7000;
  eax = 5;
  gs = 0x23;
  fs = 0x23;
  es = 0x23;
  ds = 0x23;
  eip = 0x2000;
  cs = 0x1b;
  efl = 0x202;
  esp = 0x8000;
  ss = 0x23;
  cr2 = 0x9000;
}

-- The kernel, with interrupts off.
abbrev kernel_cpu : Registers
kernel_cpu = record user_cpu { cs = 8; efl = 2; esp = 0xcfff_d000; eax = 0; ebx = 0 }

exception-resumes_example :
    let resumed : Outcome Registers = ok (record user_cpu { cr2 = kernel_cpu.cr2 }) in
    let s = from_user user_cpu 0xcfff_e000 in
    (entry_exc user_cpu 14 s ≡ words_of (saved user_cpu 14 0))
    × (entry_exc_error user_cpu 14 4 s ≡ words_of (saved user_cpu 14 4))
    × (entry_interrupt user_cpu 14 s
        ≡ words_of (let r = saved user_cpu 14 0 in record r { cr2 = sub32 0xcfff_e000 44 }))
    × (ret_from_interrupt kernel_cpu (entry_exc user_cpu 14 s) ≡ resumed)
    × (ret_from_interrupt kernel_cpu (entry_exc_error user_cpu 14 4 s) ≡ resumed)
    × (ret_from_interrupt kernel_cpu (entry_interrupt user_cpu 14 s) ≡ resumed)
exception-resumes_example = exception-resumes user_cpu kernel_cpu 14 4 0xcfff_e000 (omega arith)

sysenter-returns_example :
    let r = entered user_cpu 0xcfff_e000 in
    let frame = words_of (record r { eax = 7 }) in
    (sysenter_entry user_cpu 0xcfff_e000 ≡ words_of r)
    × (leave_iret kernel_cpu frame
        ≡ ok (let u = answered user_cpu 7 in record u { cr2 = kernel_cpu.cr2 }))
    × (leave_sysexit 8 kernel_cpu frame
        ≡ ok (
            let u = answered user_cpu 7 in
            record u {
              gs = kernel_cpu.gs;
              fs = kernel_cpu.fs;
              es = kernel_cpu.es;
              ds = kernel_cpu.ds;
              efl = kernel_cpu.efl + 2 ^ 9;
              cr2 = kernel_cpu.cr2;
            }))
sysenter-returns_example = sysenter-returns user_cpu kernel_cpu 0xcfff_e000 7 refl

max_order_lem_example : (12 ≤ max_order 0x3000 0x5000) ↔ ((2 ^ 12 ≤ 0x5000) × (0x3000 % 2 ^ 12 ≡ 0))
max_order_lem_example = max_order_lem 0x3000 0x5000 12 (omega arith) (omega arith) (omega arith)

-- An older translation of the page 4.
abbrev stale : Tlb
stale = record {
  pages = λ i. if i == 4 then some 0x20_0000 else none;
  large = λ i. none;
  global_page = λ i. false;
  global_large = λ i. false;
}

insert_mapping-access_example :
    (r : Kalloc × Memory) × (insert_mapping kernel.platform pool kernel.memory 0x4000 0x30_0000 7
      ≡ ok r)
    × ((access (walk_any kernel.platform r.1) stale 0x4000 ≡ some (0x30_0000 + 0x4000 % page_size))
        ↔ ((stale.pages (0x4000 / 2 ^ 12) ≡ none)
            ⊎ (stale.pages (0x4000 / 2 ^ 12) ≡ some 0x30_0000)))
insert_mapping-access_example =
    insert_mapping-access kernel.platform pool kernel.memory stale 0x4000 0x30_0000 7 laid_out
      (omega arith) refl refl (omega arith) refl

remap_on-access_example :
    let (virt, m', t') = remap_on kernel.platform kernel.memory stale 0x12_3456 in
    (access (walk_any kernel.platform m') t' virt ≡ some 0x12_3456) ↔ (0x12_3456 / 2 ^ 20 % 4 ≡ 0)
unfolding remap
remap_on-access_example =
    remap_on-access kernel.platform kernel.memory stale 0x12_3456 (omega arith) refl

flush_region-Touches_example :
    (Touches 2 (flush_region 60 8) ↔ ((60 / 32 ≤ 2) × (32 * 2 + 60 % 32 < 60 + 8)))
    × (Touches ((60 + 8 - 1) / 32) (flush_region 60 8) ↔ (60 % 32 + (8 - 1) % 32 < 32))
flush_region-Touches_example = flush_region-Touches 60 8 2 (omega arith)

atomic_sets_example :
    (let (was, new) = test_set_bit 5 1 in
      (was ≡ bit 1 5) × (bit 2 new ≡ (if 2 == 1 then true else bit 2 5)) × (new < 2 ^ 8))
    × (let (was, new) = test_clr_bit 5 1 in
        (was ≡ bit 1 5) × (bit 2 new ≡ (if 2 == 1 then false else bit 2 5)) × (new < 2 ^ 8))
    × (bit 2 (set_mask 8 5 0xfe) ≡ (bit 2 5 || bit 2 0xfe))
    × (bit 2 (clr_mask 8 5 0xfe) ≡ (bit 2 5 && not (bit 2 0xfe)))
    × ((sub 8 (add 8 5 0xfe).1 0xfe).1 ≡ 5)
atomic_sets_example =
    atomic_sets 8 5 1 2 0xfe (omega arith) (omega arith) (omega arith) (omega arith)
