-- ===== src/Msr.antt =====
-- kern/include/msr.h: the model-specific registers by name, and their reads and writes in two words.
use nova_mckernel_lab.Base.{
  ℕ, ◌+◌, ◌*◌, ◌/◌, ◌%◌, ◌<◌, ◌≡◌, Bool-cases, inl, inr, arith, ◌==◌, if◌then◌else◌,
}
use nova_mckernel_lab.Machine.{word_mod}

-- `Msr::Register`.
pub data MsrRegister : Type 0 where
  ia32_tsc ia32_platform_id ia32_apic_base ia32_feature_control ia32_bios_sign_id : MsrRegister
  ia32_smm_monitor_ctl ia32_mtrr_cap ia32_sysenter_cs ia32_sysenter_esp ia32_sysenter_eip :
      MsrRegister
  ia32_therm_interrupt ia32_therm_status ia32_misc_enable ia32_flex_brvid_sel : MsrRegister
  ia32_debug_ctl ia32_mtrr_phys_base ia32_mtrr_phys_mask ia32_mtrr_fix64k_base : MsrRegister
  ia32_mtrr_fix16k_base ia32_mtrr_fix4k_base ia32_cr_pat ia32_mtrr_def_type : MsrRegister
  ia32_vmx_basic ia32_vmx_ctrl_pin ia32_vmx_ctrl_cpu0 ia32_vmx_ctrl_exit : MsrRegister
  ia32_vmx_ctrl_entry ia32_vmx_ctrl_misc ia32_vmx_cr0_fixed0 ia32_vmx_cr0_fixed1 : MsrRegister
  ia32_vmx_cr4_fixed0 ia32_vmx_cr4_fixed1 ia32_vmx_vmcs_enum ia32_vmx_ctrl_cpu1 : MsrRegister
  ia32_vmx_ept_vpid ia32_vmx_true_pin ia32_vmx_true_cpu0 ia32_vmx_true_exit : MsrRegister
  ia32_vmx_true_entry ia32_ds_area ia32_ext_xapic ia32_efer amd_ipmr amd_svm_hsave_pa : MsrRegister

unfoldable pub msr_number : MsrRegister → ℕ
msr_number ia32_tsc = 0x10
msr_number ia32_platform_id = 0x17
msr_number ia32_apic_base = 0x1b
msr_number ia32_feature_control = 0x3a
msr_number ia32_bios_sign_id = 0x8b
msr_number ia32_smm_monitor_ctl = 0x9b
msr_number ia32_mtrr_cap = 0xfe
msr_number ia32_sysenter_cs = 0x174
msr_number ia32_sysenter_esp = 0x175
msr_number ia32_sysenter_eip = 0x176
msr_number ia32_therm_interrupt = 0x19b
msr_number ia32_therm_status = 0x19c
msr_number ia32_misc_enable = 0x1a0
msr_number ia32_flex_brvid_sel = 0x1a1
msr_number ia32_debug_ctl = 0x1d9
msr_number ia32_mtrr_phys_base = 0x200
msr_number ia32_mtrr_phys_mask = 0x201
msr_number ia32_mtrr_fix64k_base = 0x250
msr_number ia32_mtrr_fix16k_base = 0x258
msr_number ia32_mtrr_fix4k_base = 0x268
msr_number ia32_cr_pat = 0x277
msr_number ia32_mtrr_def_type = 0x2ff
msr_number ia32_vmx_basic = 0x480
msr_number ia32_vmx_ctrl_pin = 0x481
msr_number ia32_vmx_ctrl_cpu0 = 0x482
msr_number ia32_vmx_ctrl_exit = 0x483
msr_number ia32_vmx_ctrl_entry = 0x484
msr_number ia32_vmx_ctrl_misc = 0x485
msr_number ia32_vmx_cr0_fixed0 = 0x486
msr_number ia32_vmx_cr0_fixed1 = 0x487
msr_number ia32_vmx_cr4_fixed0 = 0x488
msr_number ia32_vmx_cr4_fixed1 = 0x489
msr_number ia32_vmx_vmcs_enum = 0x48a
msr_number ia32_vmx_ctrl_cpu1 = 0x48b
msr_number ia32_vmx_ept_vpid = 0x48c
msr_number ia32_vmx_true_pin = 0x48d
msr_number ia32_vmx_true_cpu0 = 0x48e
msr_number ia32_vmx_true_exit = 0x48f
msr_number ia32_vmx_true_entry = 0x490
msr_number ia32_ds_area = 0x600
msr_number ia32_ext_xapic = 0x800
msr_number ia32_efer = 0xc000_0080
msr_number amd_ipmr = 0xc001_0055
msr_number amd_svm_hsave_pa = 0xc001_0117

-- The registers by number, of 64 bits each.
abbrev pub Msrs : Type 0
Msrs = ℕ → ℕ

-- `wrmsr` and `rdmsr`, of the words in `edx` and `eax`.
abbrev pub wrmsr : Msrs → ℕ → ℕ → ℕ → Msrs
wrmsr s n high low m = if m == n then high * word_mod + low else s m

abbrev pub rdmsr : Msrs → ℕ → ℕ × ℕ
rdmsr s n = (s n / word_mod, s n % word_mod)

-- `Msr::write` and `Msr::read`, of up to 64 bits.
unfoldable pub write_msr : Msrs → MsrRegister → ℕ → Msrs
unfolding msr_number
write_msr s reg val = wrmsr s (msr_number reg) (val / word_mod % word_mod) (val % word_mod)

unfoldable pub read_msr : Msrs → MsrRegister → ℕ
unfolding msr_number
read_msr s reg = let (h, l) = rdmsr s (msr_number reg) in h * word_mod + l

-- What is read after a write: the value from the register that was written, and the others as before.
pub read_msr-write_msr :
    (s : Msrs) (reg reg' : MsrRegister) (val : ℕ)
    → val < word_mod * word_mod
    → read_msr (write_msr s reg val) reg'
      ≡ (if msr_number reg' == msr_number reg then val else read_msr s reg')
unfolding read_msr write_msr
read_msr-write_msr s reg reg' val h = elim (Bool-cases (msr_number reg' == msr_number reg)) [
  | inl same ↦ rw same (omega arith)
  | inr other ↦ rw other (omega arith)
]
