-- ===== src/Lapic.antt =====
-- kern/include/apic.h, kern/include/lapic.h and kern/src/lapic.cc: the local interrupt controller. A
-- read of a register is a parameter, a write is kept as the address and the value.
pub mod Registers
use nova_mckernel_lab.Base.{Bool, ℕ, ◌+◌, ◌*◌, ◌/◌, ◌%◌, ◌^◌, List, [], ◌∷◌, ◌==◌, if◌then◌else◌}
use nova_mckernel_lab.Machine.{word_mod, unhandled_timer, assertion, Outcome, ok, panic}

-- `Apic::Delivery_mode` and `Apic::Mask`.
pub data DeliveryMode : Type 0 where
  dlv_fixed dlv_lowest_prio dlv_smi dlv_remote_read dlv_nmi dlv_init dlv_sipi dlv_extint :
      DeliveryMode

pub data Mask : Type 0 where
  unmasked masked : Mask

-- The number that is shifted by 8.
unfoldable pub delivery : DeliveryMode → ℕ
delivery dlv_fixed = 0
delivery dlv_lowest_prio = 1
delivery dlv_smi = 2
delivery dlv_remote_read = 3
delivery dlv_nmi = 4
delivery dlv_init = 5
delivery dlv_sipi = 6
delivery dlv_extint = 7

abbrev pub mask_bits : Mask → ℕ
mask_bits unmasked = 0
mask_bits masked = 2 ^ 16

-- `Lapic::Register`.
pub data Register : Type 0 where
  idr lvr tpr ppr eoi_reg ldr dfr svr isr tmr irr esr icr_lo icr_hi : Register
  lvt_timer lvt_therm lvt_perfm lvt_lint0 lvt_lint1 lvt_error tmr_icr tmr_ccr tmr_dcr ipi_self :
      Register

unfoldable pub number : Register → ℕ
number idr = 0x2
number lvr = 0x3
number tpr = 0x8
number ppr = 0xa
number eoi_reg = 0xb
number ldr = 0xd
number dfr = 0xe
number svr = 0xf
number isr = 0x10
number tmr = 0x18
number irr = 0x20
number esr = 0x28
number icr_lo = 0x30
number icr_hi = 0x31
number lvt_timer = 0x32
number lvt_therm = 0x33
number lvt_perfm = 0x34
number lvt_lint0 = 0x35
number lvt_lint1 = 0x36
number lvt_error = 0x37
number tmr_icr = 0x38
number tmr_ccr = 0x39
number tmr_dcr = 0x3e
number ipi_self = 0x3f

-- `LAPIC_ADDR` (kern/include/memory.h).
abbrev pub lapic_addr : ℕ
lapic_addr = 0xcfff_d000

-- `LAPIC_ADDR + (reg << 4)`.
unfoldable pub address : Register → ℕ
unfolding number
address reg = lapic_addr + number reg * 2 ^ 4

-- The writes to the controller, the last first.
abbrev pub Writes : Type 0
Writes = List (ℕ × ℕ)

-- `Lapic::write`.
unfoldable pub write : Writes → Register → ℕ → Writes
unfolding address
write ws reg val = (address reg, val) ∷ ws

-- `msk | dlv | vector`, for a vector of a byte.
unfoldable pub lvt_value : ℕ → DeliveryMode → Mask → ℕ
unfolding delivery
lvt_value vector dlv msk = mask_bits msk + delivery dlv * 2 ^ 8 + vector

-- `Lapic::set_lvt`.
unfoldable pub set_lvt : Writes → Register → ℕ → DeliveryMode → Mask → Writes
unfolding write lvt_value
set_lvt ws reg vector dlv msk = write ws reg (lvt_value vector dlv msk)

-- `id`, `version`, `lvt_max` and `get_timer`, of what the registers read.
abbrev pub id : (ℕ → ℕ) → ℕ
id device = device (address idr) / 2 ^ 24 % 2 ^ 8

abbrev pub version : (ℕ → ℕ) → ℕ
version device = device (address lvr) % 2 ^ 8

abbrev pub lvt_max : (ℕ → ℕ) → ℕ
lvt_max device = device (address lvr) / 2 ^ 16 % 2 ^ 8

abbrev pub get_timer : (ℕ → ℕ) → ℕ
get_timer device = device (address tmr_ccr)

-- `eoi` and `set_timer`.
abbrev pub eoi : Writes → Writes
eoi ws = write ws eoi_reg 0

abbrev pub set_timer : Writes → ℕ → Writes
set_timer ws val = write ws tmr_icr val

-- `VEC_LVT_TIMER` (kern/include/vectors.h).
abbrev pub vec_lvt_timer : ℕ
vec_lvt_timer = 160

-- `Lapic::lvt_vector`; `timer_handler` panics.
unfoldable pub lvt_vector : Writes → ℕ → Outcome Writes
lvt_vector ws vector = if vector == vec_lvt_timer then panic unhandled_timer else ok (eoi ws)

-- `init` and `calibrate`, which are `assert (0)` and nothing else (kern/include/assert.h): a trap in a
-- build with DEBUG.
unfoldable pub init : Bool → Writes → Outcome Writes
init debug ws = if debug then panic assertion else ok ws

unfoldable pub calibrate : Bool → Writes → Outcome Writes
calibrate debug ws = if debug then panic assertion else ok ws
