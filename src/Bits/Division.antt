-- ===== src/Bits/Division.antt =====
-- `div64` (kern/include/bits.h) divides.
use mathlib.Core.Option
use native.Mathlib.Nat as Nat
use nova_mckernel_lab.Base.{
  ℕ, ◌+◌, ◌*◌, ◌/◌, ◌%◌, ◌<◌, ◌≡◌, refl, sym, ap, ap₂, ◌∙◌, false, ◌||◌, some, arith, leb, ◌==◌,
}
use nova_mckernel_lab.Machine.{word_mod}
use nova_mckernel_lab.Bits.{divl, div64}

-- With a high word below the divisor, the quotient fits.
divl-divides :
    (high low d : ℕ)
    → high < d
    → low < word_mod
    → divl high low d ≡ some ((high * word_mod + low) / d, (high * word_mod + low) % d)
unfolding divl
divl-divides high low d h l =
    let below : high * word_mod + low < word_mod * d = omega (arith, h, l) in
    let small : (high * word_mod + low) / d < word_mod =
      (Nat.div-lt_iff_lt-mul (omega (arith, h))).1 below in
    let fits : (d == 0 || leb word_mod ((high * word_mod + low) / d)) ≡ false =
      ground (arith, small, h) in
    rw fits refl

-- The first division, of the high word alone, as `divl` does it.
divl-high : (high d : ℕ) → 0 < d → high < word_mod → divl 0 high d ≡ some (high / d, high % d)
unfolding divl
divl-high high d h l =
    let same : 0 * word_mod + high ≡ high = omega arith in
    let small : high / d < word_mod = omega (arith, Nat.div-le_self high d, l) in
    let fits : (d == 0 || leb word_mod (high / d)) ≡ false = ground (arith, small, h) in
    rw (same, fits) refl

-- A number in terms of the two divisions.
split :
    (n d : ℕ) → n ≡ n / word_mod / d * word_mod * d + (n / word_mod % d * word_mod + n % word_mod)
split n d =
    let outer : n ≡ n / word_mod * word_mod + n % word_mod = omega arith in
    let inner : n / word_mod / d * d + n / word_mod % d ≡ n / word_mod =
      Nat.div-add-mod' (n / word_mod) d in
    let turn : n / word_mod / d * word_mod * d ≡ n / word_mod / d * d * word_mod =
      Nat.mul_right_comm (n / word_mod / d) word_mod d in
    omega (arith, outer, inner, turn)

-- For every 64-bit number and every divisor that is a word and not 0, the two instructions raise no
-- divide error, and leave the quotient and the remainder.
pub div64-divides :
    (n d : ℕ) → n < word_mod * word_mod → 0 < d → d < word_mod → div64 n d ≡ some (n / d, n % d)
unfolding div64 Option.bind
div64-divides n d h some_d word_d =
    let high = n / word_mod in
    let left = high % d * word_mod + n % word_mod in
    let first = divl-high high d some_d (omega arith) in
    let second = divl-divides (high % d) (n % word_mod) d (Nat.mod-lt high some_d) (omega arith) in
    let quotient : high / d * word_mod + left / d ≡ n / d =
      sym (Nat.mul-add-div_right some_d (high / d * word_mod) left)
      ∙ ap (λ x. x / d) (sym (split n d)) in
    let remainder : left % d ≡ n % d =
      sym (Nat.mul-add-mod_self_right (high / d * word_mod) d left)
      ∙ ap (λ x. x % d) (sym (split n d)) in
    ap
      (λ o. Option.bind o λ (q_high, r).
        Option.map (λ (q_low, r'). (q_high * word_mod + q_low, r')) (divl r (n % word_mod) d))
      first
    ∙ ap (Option.map (λ (q_low, r'). (high / d * word_mod + q_low, r'))) second
    ∙ ap₂ (λ q r. some (q, r)) quotient remainder
