-- ===== src/Atomic.antt =====
-- kern/include/atomic.h: the atomic operations on a variable of `w` bits, each of which is one step. A
-- function that is given the variable returns its result and the variable as it leaves it.
pub mod Laws
use nova_mckernel_lab.Base.{
  ℕ, zero, suc, ◌+◌, ◌-◌, ◌*◌, ◌/◌, ◌%◌, ◌^◌, Bool, true, false, not, ◌&&◌, ◌||◌, ◌==◌,
  if◌then◌else◌,
}

-- `cmp_swap`.
unfoldable pub cmp_swap : ℕ → ℕ → ℕ → Bool × ℕ
cmp_swap val old new = if val == old then (true, new) else (false, val)

-- `add` and `sub`, which return the new value.
unfoldable pub add : ℕ → ℕ → ℕ → ℕ × ℕ
add w val v = let new = (val + v) % 2 ^ w in (new, new)

unfoldable pub sub : ℕ → ℕ → ℕ → ℕ × ℕ
sub w val v = let new = (val + 2 ^ w - v) % 2 ^ w in (new, new)

abbrev pub bit_value : Bool → ℕ
bit_value true = 1
bit_value false = 0

-- Bit `i` of a number.
unfoldable pub bit : ℕ → ℕ → Bool
bit zero val = val % 2 == 1
bit (suc i) val = bit i (val / 2)

-- The lowest `w` bits of two numbers, put together bit by bit.
unfoldable pub bitwise : (Bool → Bool → Bool) → ℕ → ℕ → ℕ → ℕ
bitwise f zero a b = 0
bitwise f (suc w) a b = bitwise f w (a / 2) (b / 2) * 2 + bit_value (f (a % 2 == 1) (b % 2 == 1))

-- `set_mask` and `clr_mask`: `val | v` and `val & ~v`.
unfoldable pub set_mask : ℕ → ℕ → ℕ → ℕ
unfolding bitwise
set_mask w val v = bitwise (λ a b. a || b) w val v

unfoldable pub clr_mask : ℕ → ℕ → ℕ → ℕ
unfolding bitwise
clr_mask w val v = bitwise (λ a b. a && not b) w val v

-- `bts` and `btr` of a bit in the variable: the bit as it was, which `setc` returns, and the variable.
unfoldable pub write_bit : Bool → ℕ → ℕ → ℕ
write_bit b zero val = val / 2 * 2 + bit_value b
write_bit b (suc i) val = write_bit b i (val / 2) * 2 + val % 2

unfoldable pub test_set_bit : ℕ → ℕ → Bool × ℕ
unfolding bit write_bit
test_set_bit val i = (bit i val, write_bit true i val)

unfoldable pub test_clr_bit : ℕ → ℕ → Bool × ℕ
unfolding bit write_bit
test_clr_bit val i = (bit i val, write_bit false i val)
