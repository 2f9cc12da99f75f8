-- ===== src/Bits/Scan.antt =====
-- The bit scans and `max_order` (kern/include/bits.h).
use native.Mathlib.Nat as Nat
use nova_mckernel_lab.Base.{
  ℕ, zero, suc, ◌+◌, ◌*◌, ◌/◌, ◌%◌, ◌^◌, ◌≤◌, ◌<◌, ◌≡◌, sym, ap, ◌∙◌, ◌↔◌, inl, inr, Bool-cases,
  false, arith, ◌==◌, ==_iff, ltb,
}
use nova_mckernel_lab.Machine.{word_mod}
use nova_mckernel_lab.Bits.{
  bsr, bsf, bit_scan_reverse, bit_scan_forward, min_long, order_key, max_order,
}

pow-suc : (n : ℕ) → 2 ^ suc n ≡ 2 * 2 ^ n
pow-suc n = omega arith

pow_pos : (n : ℕ) → 0 < 2 ^ n
pow_pos zero = omega arith
pow_pos (suc n) = omega (arith, pow-suc n, pow_pos n)

-- The lowest digit.
mod_double : (v t : ℕ) → 0 < t → v % (2 * t) ≡ 2 * (v / 2 % t) + v % 2
mod_double v t some_t =
    let q = v / 2 / t in
    let r = v / 2 % t in
    let s = 2 * r + v % 2 in
    let half : v / 2 ≡ t * q + r = sym (Nat.div-add-mod (v / 2) t) in
    let whole : v ≡ 2 * t * q + s = grind (arith, half) in
    ap (λ (a : ℕ). a % (2 * t)) whole
    ∙ Nat.mul-add-mod_self_left (2 * t) q s
    ∙ Nat.mod-eq_of_lt (omega (arith, Nat.mod-lt (v / 2) some_t))

-- The highest set bit of `v` is at least `k`.
bsr_lem : (n v k : ℕ) → 0 < v → v < 2 ^ n → (k ≤ bsr n v) ↔ (2 ^ k ≤ v)
unfolding bsr
bsr_lem zero v k some_v small = absurd (omega (arith, some_v, small))
bsr_lem (suc n) v zero some_v small = ((λ _. omega (arith, some_v)), λ _. omega arith)
bsr_lem (suc n) v (suc k) some_v small = elim (Bool-cases (v / 2 == 0)) [
  | inl one ↦
      let half : v / 2 ≡ 0 = (==_iff _ _).0 one in
      rw one (
        (λ h. absurd (omega (arith, h))),
        λ h. absurd (omega (arith, h, half, pow-suc k, pow_pos k)),
      )
  | inr more ↦
      let half : 0 < v / 2 = ground (arith, more) in
      let (up, down) = bsr_lem n (v / 2) k half (omega (arith, small, pow-suc n)) in
      rw more (
        (λ h. omega (arith, up (omega (arith, h)), pow-suc k)),
        λ h. omega (arith, down (omega (arith, h, pow-suc k))),
      )
]

-- The lowest set bit of `v` is at least `k`.
bsf_lem : (n v k : ℕ) → 0 < v → v < 2 ^ n → (k ≤ bsf n v) ↔ (v % 2 ^ k ≡ 0)
unfolding bsf
bsf_lem zero v k some_v small = absurd (omega (arith, some_v, small))
bsf_lem (suc n) v zero some_v small = ((λ _. omega arith), λ _. omega arith)
bsf_lem (suc n) v (suc k) some_v small =
    let digits : v % 2 ^ suc k ≡ 2 * (v / 2 % 2 ^ k) + v % 2 =
      ap (λ (t : ℕ). v % t) (pow-suc k) ∙ mod_double v (2 ^ k) (pow_pos k) in
    elim (Bool-cases (v % 2 == 1)) [
      | inl odd ↦
          let bit : v % 2 ≡ 1 = (==_iff _ _).0 odd in
          rw odd ((λ h. absurd (omega (arith, h))), λ h. absurd (omega (arith, h, bit, digits)))
      | inr even ↦
          let bit : v % 2 ≡ 0 = ground (arith, even) in
          let (up, down) =
            bsf_lem n (v / 2) k (omega (arith, bit, some_v)) (omega (arith, small, pow-suc n)) in
          rw even (
            (λ h. omega (arith, up (omega (arith, h)), digits, bit)),
            λ h. omega (arith, down (omega (arith, h, digits))),
          )
    ]

lt_of_not_le : (a b : ℕ) → (b ≤ a → ⊥) → a < b
lt_of_not_le a b h = elim (Bool-cases (ltb a b)) [
  | inl less ↦ ground (arith, less)
  | inr more ↦ absurd (h (ground (arith, more)))
]

bsr-lt : (n v : ℕ) → 0 < v → v < 2 ^ n → bsr n v < n
bsr-lt n v some_v small =
    lt_of_not_le _ n λ h. omega (arith, (bsr_lem n v n some_v small).0 h, small)

bsf-lt : (n v : ℕ) → 0 < v → v < 2 ^ n → bsf n v < n
bsf-lt n v some_v small =
    lt_of_not_le _ n
      λ h. omega (arith, (bsf_lem n v n some_v small).0 h, some_v, Nat.mod-eq_of_lt small)

-- Of small numbers, the signed minimum is the minimum.
le-min_long : (k a b : ℕ) → a < 32 → b < 32 → (k ≤ min_long a b) ↔ ((k ≤ a) × (k ≤ b))
le-min_long k a b small small' = elim (Bool-cases (ltb (order_key a) (order_key b))) [
  | inl less ↦
      let less' : a < b = ground (arith, less) in
      rw less ((λ h. (h, omega (arith, h, less'))), λ h. h.0)
  | inr more ↦
      let more' : b ≤ a = ground (arith, more) in
      rw more ((λ h. (omega (arith, h, more'), h)), λ h. h.1)
]

-- For a region of `size` bytes from `base` on, the order is the largest for which a block of that order
-- fits and begins at a multiple of its size: exactly the orders up to it are such.
pub max_order_lem :
    (base size k : ℕ)
    → base < word_mod
    → 0 < size
    → size < word_mod
    → (k ≤ max_order base size) ↔ ((2 ^ k ≤ size) × (base % 2 ^ k ≡ 0))
unfolding max_order bit_scan_reverse bit_scan_forward
max_order_lem base size k in_base some_size in_size =
    let sized : (size == 0) ≡ false = ground (arith, some_size) in
    let (up, down) = bsr_lem 32 size k some_size in_size in
    elim (Bool-cases (base == 0)) [
      | inl zero_base ↦
          let none : base ≡ 0 = (==_iff _ _).0 zero_base in
          let divides : base % 2 ^ k ≡ 0 = ap (λ (a : ℕ). a % 2 ^ k) none ∙ Nat.zero-mod (2 ^ k) in
          rw (sized, zero_base) ((λ h. (up h, divides)), λ h. down h.0)
      | inr some_base ↦
          let based : 0 < base = ground (arith, some_base) in
          let (up', down') = bsf_lem 32 base k based in_base in
          let (split, join) =
            le-min_long k (bsf 32 base) (bsr 32 size) (bsf-lt 32 base based in_base)
              (bsr-lt 32 size some_size in_size) in
          rw (sized, some_base)
            ((λ h. (up (split h).1, up' (split h).0)), λ h. join (down' h.1, down h.0))
    ]
