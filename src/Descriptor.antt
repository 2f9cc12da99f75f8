-- ===== src/Descriptor.antt =====
-- The descriptors of the processor (kern/include/descriptor.h, kern/include/gdt.h, kern/include/idt.h)
-- and the tables that kern/src/gdt.cc, kern/src/idt.cc and kern/src/tss.cc build. An `|` of disjoint
-- bits is a sum.
pub mod Fields
use nova_mckernel_lab.Base.{
  ℕ, zero, suc, ◌+◌, ◌-◌, ◌*◌, ◌/◌, ◌%◌, ◌^◌, Bool, true, false, List, [], ◌∷◌, ◌==◌, if◌then◌else◌,
}
use nova_mckernel_lab.Machine.{word_mod, add32, sub32}

pub data Granularity : Type 0 where
  bytes pages : Granularity

pub data Size : Type 0 where
  bit_16 bit_32 : Size

-- `Descriptor::Type`.
pub data Kind : Type 0 where
  sys_ldt sys_task_gate sys_tss sys_call_gate sys_intr_gate sys_trap_gate : Kind
  data_r data_ra data_rw data_rwa data_down_r data_down_ra data_down_rw data_down_rwa : Kind
  code_x code_xa code_xr code_xra code_conf_x code_conf_xa code_conf_xr code_conf_xra : Kind

-- The bits of the enumerations.
abbrev pub gran_bits : Granularity → ℕ
gran_bits bytes = 0
gran_bits pages = 2 ^ 23

abbrev pub size_bits : Size → ℕ
size_bits bit_16 = 0
size_bits bit_32 = 2 ^ 22

-- The number that is shifted by 8.
unfoldable pub kind_number : Kind → ℕ
kind_number sys_ldt = 2
kind_number sys_task_gate = 5
kind_number sys_tss = 9
kind_number sys_call_gate = 12
kind_number sys_intr_gate = 14
kind_number sys_trap_gate = 15
kind_number data_r = 16
kind_number data_ra = 17
kind_number data_rw = 18
kind_number data_rwa = 19
kind_number data_down_r = 20
kind_number data_down_ra = 21
kind_number data_down_rw = 22
kind_number data_down_rwa = 23
kind_number code_x = 24
kind_number code_xa = 25
kind_number code_xr = 26
kind_number code_xra = 27
kind_number code_conf_x = 28
kind_number code_conf_xa = 29
kind_number code_conf_xr = 30
kind_number code_conf_xra = 31

abbrev pub kind_bits : Kind → ℕ
kind_bits k = kind_number k * 2 ^ 8

-- The two words of an entry.
abbrev pub Entry : Type 0
Entry = ℕ × ℕ

-- `Gdt::set`, for a privilege level below 4.
unfoldable pub gdt_set : Kind → Granularity → Size → ℕ → ℕ → ℕ → Entry
gdt_set kind gran size dpl base limit = (
  base * 2 ^ 16 % word_mod + limit % 2 ^ 16,
  base / 2 ^ 24 * 2 ^ 24
      + gran_bits gran
      + size_bits size
      + limit / 2 ^ 16 % 2 ^ 4 * 2 ^ 16
      + 2 ^ 15
      + dpl * 2 ^ 13
      + kind_bits kind
      + base / 2 ^ 16 % 2 ^ 8,
)

-- `Idt::set`, for a privilege level below 4.
unfoldable pub idt_set : Kind → ℕ → ℕ → ℕ → Entry
idt_set kind dpl selector offset = (
  selector * 2 ^ 16 % word_mod + offset % 2 ^ 16,
  offset / 2 ^ 16 * 2 ^ 16 + 2 ^ 15 + dpl * 2 ^ 13 + kind_bits kind,
)

abbrev pub null_entry : Entry
null_entry = (0, 0)

abbrev pub whole : ℕ
whole = 0xffff_ffff

-- `Gdt::build`. `run` and `dbf` are the addresses of the two task segments, `IOBMP_EADDR` is that of
-- kern/include/memory.h, and `sizeof (Tss)` is 104.
unfoldable pub gdt_build : ℕ → ℕ → List Entry
unfolding gdt_set
gdt_build run dbf =
    null_entry
    ∷ gdt_set code_xra pages bit_32 0 0 whole
    ∷ gdt_set data_rwa pages bit_32 0 0 whole
    ∷ gdt_set code_xra pages bit_32 3 0 whole
    ∷ gdt_set data_rwa pages bit_32 3 0 whole
    ∷ gdt_set sys_tss bytes bit_16 0 run (sub32 0xd000_2000 run)
    ∷ gdt_set sys_tss bytes bit_16 0 dbf 103
    ∷ []

-- `Idt::build`, from the table of handlers: the low two bits of a handler's word are its privilege
-- level, and 0 is a vector that has none.
unfoldable pub idt_build : List ℕ → List Entry
unfolding idt_set
idt_build [] = []
idt_build (h ∷ hs) =
    let rest = idt_build hs in
    (if h == 0 then idt_set sys_task_gate 0 0x30 0 else idt_set sys_intr_gate (h % 4) 8 (h - h % 4))
    ∷ rest

-- The fields of `class Tss` that `Tss::build` sets.
pub record Tss : Type 0 where
  pub sp0 : ℕ
  pub ss0 : ℕ
  pub cr3 : ℕ
  pub eip : ℕ
  pub eflags : ℕ
  pub esp : ℕ
  pub es : ℕ
  pub cs : ℕ
  pub ss : ℕ
  pub ds : ℕ
  pub iobm : ℕ

-- `Tss::build`: `run` and `dbf`, from CR3, the address of `tss_handler` and that of `Tss::run`. The top
-- of the kernel's stack is `KSTCK_ADDR + PAGE_SIZE`.
unfoldable pub tss_build : Tss → Tss → ℕ → ℕ → ℕ → Tss × Tss
tss_build run dbf cr3 handler run_address = (
  record run { ss0 = 0x10; sp0 = 0xd000_0000; iobm = sub32 0xd000_0000 run_address % 2 ^ 16 },
  record dbf {
    cr3 = cr3;
    eip = handler;
    esp = 0xd000_0000;
    eflags = 2;
    cs = 8;
    ds = 0x10;
    es = 0x10;
    ss = 0x10;
  },
)
