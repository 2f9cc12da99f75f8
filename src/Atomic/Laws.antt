-- ===== src/Atomic/Laws.antt =====
-- A variable as a set of bits, under the operations of kern/include/atomic.h.
use native.Mathlib.Nat as Nat
use nova_mckernel_lab.Base.{
  ℕ, zero, suc, ◌+◌, ◌-◌, ◌*◌, ◌/◌, ◌%◌, ◌^◌, ◌≤◌, ◌<◌, ◌≡◌, refl, ap, ◌∙◌, Bool, true, false, not,
  ◌&&◌, ◌||◌, inl, inr, Bool-cases, arith, ltb, ◌==◌, if◌then◌else◌,
}
use nova_mckernel_lab.Atomic.{
  add, sub, bit_value, bit, bitwise, set_mask, clr_mask, write_bit, test_set_bit, test_clr_bit,
}

pow-suc : (n : ℕ) → 2 ^ suc n ≡ 2 * 2 ^ n
pow-suc n = omega arith

-- Every bit of the result is that function of the two bits, and there are no others.
bit-bitwise :
    (f : Bool → Bool → Bool) (w i a b : ℕ) → i < w → bit i (bitwise f w a b) ≡ f (bit i a) (bit i b)
unfolding bit bitwise
bit-bitwise f zero i a b h = absurd (omega (arith, h))
bit-bitwise f (suc w) zero a b h = last (f (a % 2 == 1) (b % 2 == 1))
  where
    last : (c : Bool) → ((bitwise f w (a / 2) (b / 2) * 2 + bit_value c) % 2 == 1) ≡ c
    last true = ground arith
    last false = ground arith
bit-bitwise f (suc w) (suc i) a b h =
    ap (bit i) (half (f (a % 2 == 1) (b % 2 == 1)))
    ∙ bit-bitwise f w i (a / 2) (b / 2) (omega (arith, h))
  where
    half :
        (c : Bool)
        → (bitwise f w (a / 2) (b / 2) * 2 + bit_value c) / 2 ≡ bitwise f w (a / 2) (b / 2)
    half true = omega arith
    half false = omega arith

bitwise-lt : (f : Bool → Bool → Bool) (w a b : ℕ) → bitwise f w a b < 2 ^ w
unfolding bitwise
bitwise-lt f zero a b = omega arith
bitwise-lt f (suc w) a b = fits (f (a % 2 == 1) (b % 2 == 1)) (bitwise-lt f w (a / 2) (b / 2))
  where
    fits :
        (c : Bool)
        → bitwise f w (a / 2) (b / 2) < 2 ^ w
        → bitwise f w (a / 2) (b / 2) * 2 + bit_value c < 2 ^ suc w
    fits true h = omega (arith, pow-suc w, h)
    fits false h = omega (arith, pow-suc w, h)

bit-write_bit :
    (b : Bool) (i j val : ℕ) → bit j (write_bit b i val) ≡ (if j == i then b else bit j val)
unfolding bit write_bit
bit-write_bit true zero zero val = ground arith
bit-write_bit false zero zero val = ground arith
bit-write_bit true zero (suc j) val =
    let other : (suc j == 0) ≡ false = ground arith in rw other (ap (bit j) (omega arith))
bit-write_bit false zero (suc j) val =
    let other : (suc j == 0) ≡ false = ground arith in rw other (ap (bit j) (omega arith))
bit-write_bit b (suc i) zero val = ground arith
bit-write_bit b (suc i) (suc j) val =
    let same : (suc j == suc i) ≡ (j == i) = ground arith in
    rw same (ap (bit j) (omega arith) ∙ bit-write_bit b i j (val / 2))

write_bit-lt : (b : Bool) (w i val : ℕ) → i < w → val < 2 ^ w → write_bit b i val < 2 ^ w
unfolding write_bit
write_bit-lt b zero i val h small = absurd (omega (arith, h))
write_bit-lt true (suc w) zero val h small = omega (arith, pow-suc w, small)
write_bit-lt false (suc w) zero val h small = omega (arith, pow-suc w, small)
write_bit-lt b (suc w) (suc i) val h small = omega (
  arith,
  pow-suc w,
  write_bit-lt b w i (val / 2) (omega (arith, h)) (omega (arith, pow-suc w, small)),
)

sub-add : (m val v : ℕ) → val < m → v < m → ((val + v) % m + m - v) % m ≡ val
sub-add m val v small small' = elim (Bool-cases (ltb (val + v) m)) [
  | inl fits ↦
      let fits' : val + v < m = ground (arith, fits) in
      let sum : (val + v) % m ≡ val + v = Nat.mod-eq_of_lt fits' in
      let back : (val + v) % m + m - v ≡ val + m = omega (arith, sum) in
      ap (λ (a : ℕ). a % m) back ∙ Nat.add-mod_right val m ∙ Nat.mod-eq_of_lt small
  | inr wraps ↦
      let wraps' : m ≤ val + v = ground (arith, wraps) in
      let sum : (val + v) % m ≡ val + v - m =
        Nat.mod-eq-sub-mod wraps' ∙ Nat.mod-eq_of_lt (omega (arith, small, small')) in
      let back : (val + v) % m + m - v ≡ val = omega (arith, sum, wraps') in
      ap (λ (a : ℕ). a % m) back ∙ Nat.mod-eq_of_lt small
]

-- On a variable of `w` bits and for a bit `i` of it: `test_set_bit` adds the bit to the set and
-- `test_clr_bit` takes it away, both say whether it was there and change no other bit, and the variable
-- keeps its width; `set_mask` is the union with a mask and `clr_mask` the difference; what `add` adds,
-- `sub` takes away again.
pub atomic_sets :
    (w val i j v : ℕ)
    → i < w
    → j < w
    → val < 2 ^ w
    → v < 2 ^ w
    → (let (was, new) = test_set_bit val i in
        (was ≡ bit i val) × (bit j new ≡ (if j == i then true else bit j val)) × (new < 2 ^ w))
      × (let (was, new) = test_clr_bit val i in
          (was ≡ bit i val) × (bit j new ≡ (if j == i then false else bit j val)) × (new < 2 ^ w))
      × (bit j (set_mask w val v) ≡ (bit j val || bit j v))
      × (bit j (clr_mask w val v) ≡ (bit j val && not (bit j v)))
      × ((sub w (add w val v).1 v).1 ≡ val)
unfolding test_set_bit test_clr_bit set_mask clr_mask add sub
atomic_sets w val i j v in_i in_j small small' = (
  (refl, bit-write_bit true i j val, write_bit-lt true w i val in_i small),
  (refl, bit-write_bit false i j val, write_bit-lt false w i val in_i small),
  bit-bitwise (λ a b. a || b) w j val v in_j,
  bit-bitwise (λ a b. a && not b) w j val v in_j,
  sub-add (2 ^ w) val v small small',
)
