-- ===== src/Bits.antt =====
-- kern/include/bits.h: the division of a 64-bit number, which `Console::print_number` (kern/src/console.cc)
-- uses, by two instructions that divide two words by one; and the scans for the outermost set bits of a
-- word.
pub mod Division
pub mod Scan
use mathlib.Core.Option
use nova_mckernel_lab.Base.{
  ℕ, zero, suc, ◌+◌, ◌*◌, ◌/◌, ◌%◌, ◌^◌, ◌||◌, Option, none, some, ◌==◌, leb, ltb, if◌then◌else◌,
}
use nova_mckernel_lab.Machine.{word_mod, minus_one}

-- `divl`, with the quotient and the remainder; `none` is a divide error: there is no quotient, or it
-- does not fit into a word.
unfoldable pub divl : ℕ → ℕ → ℕ → Option (ℕ × ℕ)
divl high low d =
    let n = high * word_mod + low in
    if d == 0 || leb word_mod (n / d) then none else some (n / d, n % d)

-- `div64`, with the quotient and the remainder.
unfoldable pub div64 : ℕ → ℕ → Option (ℕ × ℕ)
unfolding divl
div64 n d = Option.bind (divl 0 (n / word_mod) d) λ (q_high, r).
    Option.map (λ (q_low, r'). (q_high * word_mod + q_low, r')) (divl r (n % word_mod) d)

-- `bsr` and `bsf`: the index of the highest and of the lowest set bit, of a word of `n` bits that is
-- not 0.
unfoldable pub bsr : ℕ → ℕ → ℕ
bsr zero val = 0
bsr (suc n) val = let rest = bsr n (val / 2) + 1 in if val / 2 == 0 then 0 else rest

unfoldable pub bsf : ℕ → ℕ → ℕ
bsf zero val = 0
bsf (suc n) val = let rest = bsf n (val / 2) + 1 in if val % 2 == 1 then 0 else rest

-- The results are of type `long int`: -1 is `minus_one`.
unfoldable pub bit_scan_reverse : ℕ → ℕ
bit_scan_reverse val = if val == 0 then minus_one else bsr 32 val

unfoldable pub bit_scan_forward : ℕ → ℕ
bit_scan_forward val = if val == 0 then minus_one else bsf 32 val

-- `min` (kern/include/util.h) of two `long int`.
abbrev pub order_key : ℕ → ℕ
order_key w = (w + 2 ^ 31) % 2 ^ 32

abbrev pub min_long : ℕ → ℕ → ℕ
min_long a b = if ltb (order_key a) (order_key b) then a else b

-- `max_order`.
unfoldable pub max_order : ℕ → ℕ → ℕ
unfolding bit_scan_reverse bit_scan_forward
max_order base size =
    let o = bit_scan_reverse size in if base == 0 then o else min_long (bit_scan_forward base) o
