-- ===== src/Descriptor/Fields.antt =====
-- The processor reads from a descriptor (kern/include/gdt.h, kern/include/idt.h) what was put in.
use nova_mckernel_lab.Base.{ℕ, ◌+◌, ◌*◌, ◌/◌, ◌%◌, ◌^◌, ◌<◌, ◌≡◌, arith}
use nova_mckernel_lab.Machine.{word_mod}
use nova_mckernel_lab.Descriptor.{
  Kind, sys_ldt, sys_task_gate, sys_tss, sys_call_gate, sys_intr_gate, sys_trap_gate, data_r,
  data_ra, data_rw, data_rwa, data_down_r, data_down_ra, data_down_rw, data_down_rwa, code_x,
  code_xa, code_xr, code_xra, code_conf_x, code_conf_xa, code_conf_xr, code_conf_xra, Granularity,
  bytes, pages, Size, bit_16, bit_32, kind_number, Entry, gdt_set, idt_set,
}

-- The fields of a segment descriptor, as the processor's manual lays them out.
abbrev pub base_of : Entry → ℕ
base_of (lo, hi) = lo / 2 ^ 16 + hi % 2 ^ 8 * 2 ^ 16 + hi / 2 ^ 24 * 2 ^ 24

abbrev pub limit_of : Entry → ℕ
limit_of (lo, hi) = lo % 2 ^ 16 + hi / 2 ^ 16 % 2 ^ 4 * 2 ^ 16

abbrev pub level_of : Entry → ℕ
level_of (lo, hi) = hi / 2 ^ 13 % 4

abbrev pub kind_of : Entry → ℕ
kind_of (lo, hi) = hi / 2 ^ 8 % 2 ^ 5

abbrev pub present_of : Entry → ℕ
present_of (lo, hi) = hi / 2 ^ 15 % 2

-- 1 for a segment of 32 bits, and for a limit that counts pages.
abbrev pub wide_of : Entry → ℕ
wide_of (lo, hi) = hi / 2 ^ 22 % 2

abbrev pub paged_of : Entry → ℕ
paged_of (lo, hi) = hi / 2 ^ 23 % 2

-- The bits that stand for a granularity and a size.
abbrev pub paged_bit : Granularity → ℕ
paged_bit bytes = 0
paged_bit pages = 1

abbrev pub wide_bit : Size → ℕ
wide_bit bit_16 = 0
wide_bit bit_32 = 1

-- The fields of a gate.
abbrev pub offset_of : Entry → ℕ
offset_of (lo, hi) = lo % 2 ^ 16 + hi / 2 ^ 16 * 2 ^ 16

abbrev pub selector_of : Entry → ℕ
selector_of (lo, hi) = lo / 2 ^ 16

kind-small : (k : Kind) → kind_number k < 32
unfolding kind_number
kind-small sys_ldt = omega arith
kind-small sys_task_gate = omega arith
kind-small sys_tss = omega arith
kind-small sys_call_gate = omega arith
kind-small sys_intr_gate = omega arith
kind-small sys_trap_gate = omega arith
kind-small data_r = omega arith
kind-small data_ra = omega arith
kind-small data_rw = omega arith
kind-small data_rwa = omega arith
kind-small data_down_r = omega arith
kind-small data_down_ra = omega arith
kind-small data_down_rw = omega arith
kind-small data_down_rwa = omega arith
kind-small code_x = omega arith
kind-small code_xa = omega arith
kind-small code_xr = omega arith
kind-small code_xra = omega arith
kind-small code_conf_x = omega arith
kind-small code_conf_xa = omega arith
kind-small code_conf_xr = omega arith
kind-small code_conf_xra = omega arith

-- The address, the level, the kind, the size, the granularity and the low 20 bits of the limit that
-- `Gdt::set` was given are in the fields where the processor looks for them, and the segment is present,
-- for an address of 32 bits and a level below 4.
pub gdt_set-fields :
    (kind : Kind) (gran : Granularity) (size : Size) (dpl base limit : ℕ)
    → dpl < 4
    → base < word_mod
    → let e = gdt_set kind gran size dpl base limit in
      (base_of e ≡ base)
      × (limit_of e ≡ limit % 2 ^ 20)
      × (level_of e ≡ dpl)
      × (kind_of e ≡ kind_number kind)
      × (present_of e ≡ 1)
      × (wide_of e ≡ wide_bit size)
      × (paged_of e ≡ paged_bit gran)
unfolding gdt_set
gdt_set-fields kind bytes bit_16 dpl base limit h b = omega (arith, kind-small kind)
gdt_set-fields kind bytes bit_32 dpl base limit h b = omega (arith, kind-small kind)
gdt_set-fields kind pages bit_16 dpl base limit h b = omega (arith, kind-small kind)
gdt_set-fields kind pages bit_32 dpl base limit h b = omega (arith, kind-small kind)

-- The same of `Idt::set`, for an address of 32 bits, a selector of 16 and a level below 4.
pub idt_set-fields :
    (kind : Kind) (dpl selector offset : ℕ)
    → dpl < 4
    → selector < 2 ^ 16
    → offset < word_mod
    → let e = idt_set kind dpl selector offset in
      (offset_of e ≡ offset)
      × (selector_of e ≡ selector)
      × (level_of e ≡ dpl)
      × (kind_of e ≡ kind_number kind)
      × (present_of e ≡ 1)
unfolding idt_set
idt_set-fields kind dpl selector offset h s o = omega (arith, kind-small kind)
