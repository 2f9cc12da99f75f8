-- ===== src/Init.antt =====
-- `init` (kern/src/init.cc): the serial port, the mappings, the processor's tables, the interrupt
-- controllers' ports and the registers that `sysenter` and `sysexit` use. The static constructors that
-- it calls are the values that the state has at the start; its message is left out.
pub mod Segments
use nova_mckernel_lab.Base.{ℕ, ◌+◌, List, [], ◌∷◌}
use nova_mckernel_lab.Machine.{add32, Outcome, ok, ◌>>=◌}
use nova_mckernel_lab.Exception.{Gsi, gsi_setup, irq_setup_from}
use nova_mckernel_lab.Serial.{Serial, Write}
use nova_mckernel_lab.Serial
use nova_mckernel_lab.Descriptor.{Entry, gdt_build, idt_build, Tss, tss_build}
use nova_mckernel_lab.Kernel.{Kernel}
use nova_mckernel_lab.Boot.{init_mappings}
use nova_mckernel_lab.Msr.{Msrs, write_msr, ia32_sysenter_cs, ia32_sysenter_esp, ia32_sysenter_eip}

-- `selectors.h` and `vectors.h`.
abbrev pub sel_kern_code : ℕ
sel_kern_code = 0x8

abbrev pub vec_gsi : ℕ
vec_gsi = 32

-- What the linker and the boot code fix: the serial port, the addresses of `Tss::run`, `Tss::dbf`,
-- `tss_handler` and `entry_sysenter`, and the table of handlers.
pub record Symbols : Type 0 where
  pub serial_base : ℕ
  pub tss_run : ℕ
  pub tss_dbf : ℕ
  pub tss_handler : ℕ
  pub entry_sysenter : ℕ
  pub handlers : List ℕ

-- The state that `init` leaves. `ports` is what it wrote to the interrupt controller.
pub record Initialised : Type 0 where
  pub kernel : Kernel
  pub serial : Serial
  pub gdt : List Entry
  pub run : Tss
  pub dbf : Tss
  pub idt : List Entry
  pub gsi : List Gsi
  pub irq : List ℕ
  pub ports : List Write
  pub msrs : Msrs

-- `offset and mask all IRQs`.
abbrev pub mask_irqs : List Write
mask_irqs = (0x20, 0x11) ∷ (0x21, vec_gsi) ∷ (0x21, 0x4) ∷ (0x21, 0x1) ∷ (0x21, 0xff) ∷ []

-- `&Tss::run.sp0`.
abbrev pub sp0_address : Symbols → ℕ
sp0_address y = add32 y.tss_run 4

-- `setup sysenter`.
abbrev pub setup_sysenter : Symbols → Msrs → Msrs
setup_sysenter y msrs =
    let msrs1 = write_msr msrs ia32_sysenter_cs sel_kern_code in
    let msrs2 = write_msr msrs1 ia32_sysenter_esp (sp0_address y) in
    write_msr msrs2 ia32_sysenter_eip y.entry_sysenter

-- `init` from the tables on.
abbrev pub set_up : Symbols → Kernel → Serial → Tss → Tss → Msrs → Initialised
set_up y k serial run dbf msrs =
    let (run', dbf') = tss_build run dbf k.platform.cr3 y.tss_handler y.tss_run in
    record {
      kernel = record k { sp0 = run'.sp0 };
      serial = serial;
      gdt = gdt_build y.tss_run y.tss_dbf;
      run = run';
      dbf = dbf';
      idt = idt_build y.handlers;
      gsi = gsi_setup;
      irq = irq_setup_from 16 0;
      ports = mask_irqs;
      msrs = setup_sysenter y msrs;
    }

-- `init`.
unfoldable pub init : Symbols → Kernel → Serial → Tss → Tss → Msrs → Outcome Initialised
init y k serial run dbf msrs = do
  let serial' = Serial.init serial y.serial_base
  k' ← init_mappings k
  ok (set_up y k' serial' run dbf msrs)
