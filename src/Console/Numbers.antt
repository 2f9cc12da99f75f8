-- ===== src/Console/Numbers.antt =====
-- What `Console::print_number` (kern/src/console.cc) prints can be read back.
use nova_mckernel_lab.Base.{
  ℕ, zero, suc, ◌+◌, ◌-◌, ◌*◌, ◌/◌, ◌%◌, ◌^◌, ◌≤◌, ◌<◌, ◌≡◌, refl, ap, ◌∙◌, true, false, Bool-cases,
  List, [], ◌∷◌, ◌++◌, inl, inr, ◌⊎◌, arith, ltb, ◌==◌, ==_iff, subst, if◌then◌else◌, length,
  replicate,
}
use nova_mckernel_lab.Console.{digit, digits, Flags, print_number, number_text}

-- The value of a digit, and of a text in a base, after the value of what stands before it.
abbrev pub digit_value : ℕ → ℕ
digit_value c = if ltb c 58 then c - 48 else c - 87

unfoldable pub parse : ℕ → ℕ → List ℕ → ℕ
parse base n [] = n
parse base n (c ∷ cs) = parse base (n * base + digit_value c) cs

value-digit : (r : ℕ) → r < 16 → digit_value (digit r) ≡ r
value-digit r h = ground arith

-- The bases that `vprintf` uses.
abbrev pub IsBase : ℕ → Type 0
IsBase base = (base ≡ 10) ⊎ (base ≡ 16)

pub base-value :
    (base val : ℕ)
    → IsBase base
    → (digit_value (digit (val % base)) ≡ val % base)
      × (val / base * base + val % base ≡ val)
      × (val / base * 2 ≤ val)
base-value base val (inl ten) = rw ten (ground arith)
base-value base val (inr sixteen) = rw sixteen (ground arith)

pub pow-suc : (n : ℕ) → 2 ^ suc n ≡ 2 * 2 ^ n
pow-suc n = omega arith

-- What the buffer holds already is read after the digits of `val`.
pub digits-parse :
    (fuel base val : ℕ) (buffer : List ℕ)
    → IsBase base
    → val < 2 ^ fuel
    → parse base 0 (digits fuel base val buffer) ≡ parse base val buffer
unfolding digits parse
digits-parse zero base val buffer b h = let z : val ≡ 0 = omega arith in rw z refl
digits-parse (suc fuel) base val buffer b h =
    let (d, whole, half) = base-value base val b in
    elim (Bool-cases (val / base == 0)) [
      | inl last ↦ rw last (
          ap (λ n. parse base n buffer)
            (omega
              (arith, d, subst (λ q. q * base + val % base ≡ val) ((==_iff _ 0).0 last) whole)))
      | inr more ↦ rw more (
          digits-parse fuel base (val / base) (digit (val % base) ∷ buffer) b
            (omega (arith, pow-suc fuel, half, h))
          ∙ ap (λ n. parse base n buffer) (omega (arith, d, whole)))
    ]

zeros-parse : (k base : ℕ) (cs : List ℕ) → parse base 0 (replicate k 48 ++ cs) ≡ parse base 0 cs
unfolding parse
zeros-parse zero base cs = refl
zeros-parse (suc k) base cs =
    ap (λ n. parse base n (replicate k 48 ++ cs)) (omega arith) ∙ zeros-parse k base cs

padded-length : (k : ℕ) (cs : List ℕ) → length (replicate k 48 ++ cs) ≡ k + length cs
padded-length zero cs = omega arith
padded-length (suc k) cs = omega (arith, padded-length k cs)

-- An unsigned number below 2^64, in decimal or hexadecimal and padded with zeros, reads back as itself,
-- and is at least as long as the width asked for.
pub print_number-parse :
    (val base width : ℕ) (f : Flags)
    → IsBase base
    → val < 2 ^ 64
    → f.signed ≡ false
    → f.alt_form ≡ false
    → f.zero_pad ≡ true
    → (parse base 0 (print_number val base width f) ≡ val)
      × (width ≤ length (print_number val base width f))
unfolding print_number number_text parse
print_number-parse val base width f b h unsigned no_prefix padded =
    rw (unsigned, no_prefix, padded)
      (
        zeros-parse (width - (length (digits 64 base val []) + 0)) base (digits 64 base val [])
            ∙ digits-parse 64 base val [] b h,
        omega (
          arith,
          padded-length (width - (length (digits 64 base val []) + 0)) (digits 64 base val []),
        ),
      )
