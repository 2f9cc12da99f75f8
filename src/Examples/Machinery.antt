-- ===== src/Examples/Machinery.antt =====
-- The theorems on printing, descriptors, mappings, copies and faults at concrete values.
use nova_mckernel_lab.Base.{
  inl, ℕ, ◌≡◌, ◌≤◌, ◌+◌, ◌-◌, refl, inr, ◌⊎◌, true, false, arith, length, if◌then◌else◌,
}
use nova_mckernel_lab.Machine.{panic, stack_overflow, page_fault}
use nova_mckernel_lab.Ec.{Regs}
use nova_mckernel_lab.Console.{Flags, print_number}
use nova_mckernel_lab.Console.Numbers.{parse, print_number-parse}
use nova_mckernel_lab.Bytes.{memmove}
use nova_mckernel_lab.Bytes.Overlap.{within, memmove-moves}
use nova_mckernel_lab.Exception.{handle_exc}
use nova_mckernel_lab.Exception.Guards.{InGuard, handle_exc-InGuard}
use nova_mckernel_lab.Ptab.Walk.{IsLaidOut}
use nova_mckernel_lab.Examples.{zero_regs, kernel, pool}

abbrev zero_padded : Flags
zero_padded = record { signed = false; alt_form = false; zero_pad = true }

print_number-parse_example :
    (parse 16 0 (print_number 0xbeef 16 8 zero_padded) ≡ 0xbeef)
    × (8 ≤ length (print_number 0xbeef 16 8 zero_padded))
print_number-parse_example =
    print_number-parse 0xbeef 16 8 zero_padded (inr refl) (omega arith) refl refl refl

-- The regions overlap.
memmove-moves_example :
    memmove (λ a. a) 102 100 4 104
    ≡ (if within 102 4 104 then (λ (a : ℕ). a) (100 + (104 - 102)) else (λ (a : ℕ). a) 104)
memmove-moves_example = memmove-moves (λ a. a) 102 100 4 104

abbrev fault_regs : Regs
fault_regs = record zero_regs { vec = 14; cr2 = 0x80_5004 }

handle_exc-InGuard_example :
    ((handle_exc fault_regs ≡ panic stack_overflow) × InGuard fault_regs.cr2)
    ⊎ ((handle_exc fault_regs ≡ panic page_fault) × (¬ InGuard fault_regs.cr2))
handle_exc-InGuard_example = handle_exc-InGuard fault_regs refl

pub laid_out : IsLaidOut kernel.platform pool kernel.memory 0x4000
laid_out = record {
  aligned = refl;
  ordered = omega arith;
  below = omega arith;
  offset_aligned = refl;
  offset_word = omega arith;
  outside = inr (omega arith);
  apart = λ e. absurd (omega arith);
  small = inl refl;
}
