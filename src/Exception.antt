-- ===== src/Exception.antt =====
-- `Ec::handle_exc` (kern/src/ec.cc), and the table and handler of the global interrupts
-- (kern/src/gsi.cc).
pub mod Guards
use nova_mckernel_lab.Base.{
  ℕ, zero, suc, ◌+◌, ◌-◌, ◌*◌, ◌/◌, ◌%◌, ◌^◌, Bool, true, false, ◌&&◌, ◌||◌, not, List, [], ◌∷◌,
  ltb, leb, ◌==◌, if◌then◌else◌,
}
use nova_mckernel_lab.Machine.{
  sub32, Panic, general_protection, stack_overflow, page_fault, exception, unhandled_gsi, Outcome,
  ok, panic,
}
use nova_mckernel_lab.Ec.{Regs}
use nova_mckernel_lab.Kalloc.{page_size}

-- `memory.h`.
abbrev pub user_heap_start : ℕ
user_heap_start = 0x4000

abbrev pub user_heap_end : ℕ
user_heap_end = 0x0801_4000

abbrev pub user_main_stack_start : ℕ
user_main_stack_start = 0x0801_4000

abbrev pub user_stack_size : ℕ
user_stack_size = 0x80_1000

-- `Exc_regs::user`.
abbrev pub is_user : Regs → Bool
is_user r = not (r.cs % 4 == 0)

-- `Ec::handle_exc_ts`, with the registers as it leaves them: `efl &= ~0x4000`.
unfoldable pub handle_exc_ts : Regs → Bool × Regs
handle_exc_ts r =
    if is_user r then (false, r) else (true, record r { efl = r.efl - r.efl / 2 ^ 14 % 2 * 2 ^ 14 })

abbrev pub is_main_stack_guard : ℕ → Bool
is_main_stack_guard a = leb user_main_stack_start a && ltb a (user_main_stack_start + page_size)

abbrev pub is_heap_stack_guard : ℕ → Bool
is_heap_stack_guard a =
    leb user_heap_start a
    && (ltb a user_heap_end && ltb ((a - user_heap_start) % user_stack_size) page_size)

-- `Ec::handle_exc`, with the registers as it leaves them. The texts are left out.
unfoldable pub handle_exc : Regs → Outcome Regs
unfolding handle_exc_ts
handle_exc r =
    let (handled, r') = handle_exc_ts r in
    if r.vec == 10 && handled
    then ok r'
    else (if r.vec == 13
        then panic general_protection
        else (if r.vec == 14
            then (if is_main_stack_guard r.cr2 || is_heap_stack_guard r.cr2
                then panic stack_overflow
                else panic page_fault)
            else panic (exception r.vec)))

-- `class Gsi`.
pub record Gsi : Type 0 where
  pub vec : ℕ
  pub trg : Bool
  pub pol : Bool

-- `Gsi::setup`, the last `n` of the 128 entries of `gsi_table`.
unfoldable pub gsi_setup_from : ℕ → ℕ → List Gsi
gsi_setup_from zero gsi = []
gsi_setup_from (suc n) gsi =
    let rest = gsi_setup_from n (gsi + 1) in
    let level = not (ltb gsi 16) in
    record { vec = (32 + gsi) % 256; trg = level; pol = level } ∷ rest

unfoldable pub gsi_setup : List Gsi
unfolding gsi_setup_from
gsi_setup = gsi_setup_from 128 0

-- `irq_table` after `Gsi::setup`.
unfoldable pub irq_setup_from : ℕ → ℕ → List ℕ
irq_setup_from zero gsi = []
irq_setup_from (suc n) gsi = let rest = irq_setup_from n (gsi + 1) in gsi ∷ rest

-- `Gsi::vector`.
unfoldable pub gsi_vector : ℕ → Outcome Regs
gsi_vector vector = panic (unhandled_gsi (sub32 vector 32))
