-- ===== src/Console/Buffer.antt =====
-- The buffer of `Console::print_number` (kern/src/console.cc), and numbers with a sign.
use nova_mckernel_lab.Base.{
  ℕ, zero, suc, ◌+◌, ◌-◌, ◌*◌, ◌/◌, ◌%◌, ◌^◌, ◌≤◌, ◌<◌, ◌≡◌, refl, ◌∙◌, Bool, true, false,
  Bool-cases, List, [], ◌∷◌, inl, inr, ◌&&◌, arith, leb, ◌==◌, if◌then◌else◌, length,
}
use nova_mckernel_lab.Console.{digit, digits, number_text, long_mod}
use nova_mckernel_lab.Console.Numbers.{IsBase, digits-parse, parse}

pow-suc : (n : ℕ) → 10 ^ suc n ≡ 10 * 10 ^ n
pow-suc n = omega arith

-- A further digit is a tenth or less.
shrinks :
    (n base val : ℕ)
    → IsBase base
    → val < 10 ^ suc n
    → (val / base == 0) ≡ false
    → (val / base < 10 ^ n) × (0 < n)
shrinks zero base val (inl ten) h more = absurd (ground (arith, ten, h, more))
shrinks zero base val (inr sixteen) h more = absurd (ground (arith, sixteen, h, more))
shrinks (suc n) base val (inl ten) h more = rw ten (omega (arith, pow-suc (suc n), h), omega arith)
shrinks (suc n) base val (inr sixteen) h more =
    rw sixteen (omega (arith, pow-suc (suc n), h), omega arith)

-- The digits of a number below `10 ^ n` need `n` places at most, whatever the fuel.
digits-length :
    (n fuel base val : ℕ) (buffer : List ℕ)
    → IsBase base
    → val < 10 ^ n
    → 0 < n
    → length (digits fuel base val buffer) ≤ n + length buffer
unfolding digits
digits-length n zero base val buffer b h some_n = omega arith
digits-length zero (suc fuel) base val buffer b h some_n = absurd (omega arith)
digits-length (suc n) (suc fuel) base val buffer b h some_n = elim (Bool-cases (val / base == 0)) [
  | inl last ↦ rw last (omega arith)
  | inr more ↦
      let smaller = shrinks n base val b h more in
      let rest : length (digits fuel base (val / base) (digit (val % base) ∷ buffer))
          ≤ n + suc (length buffer) =
        digits-length n fuel base (val / base) (digit (val % base) ∷ buffer) b smaller.0
          smaller.1 in
      rw more (omega (arith, rest))
]

-- What `print_number` writes to its buffer of 24 bytes, the sign included, is at most 20 bytes long,
-- for every number of 64 bits and both bases that `vprintf` uses.
pub number_text-fits :
    (val base : ℕ) (signed : Bool)
    → IsBase base
    → val < 2 ^ 64
    → length (number_text val base signed) ≤ 20
unfolding number_text
number_text-fits val base signed b h = elim (Bool-cases (signed && leb (2 ^ 63) val)) [
  | inl neg ↦
      let small : long_mod - val < 10 ^ 19 = ground (arith, neg) in
      rw neg (omega (arith, digits-length 19 64 base (long_mod - val) [] b small (omega arith)))
  | inr pos ↦ rw pos (omega (arith, digits-length 20 64 base val [] b (omega arith) (omega arith)))
]

-- A text with a sign, read back as a 64-bit number.
abbrev pub parse_signed : ℕ → List ℕ → ℕ
parse_signed base [] = 0
parse_signed base (c ∷ cs) =
    if c == 45 then (long_mod - parse base 0 cs) % long_mod else parse base 0 (c ∷ cs)

parse-nil : (n : ℕ) → parse 10 n [] ≡ n
unfolding parse
parse-nil n = refl

-- A text that starts with a digit has no sign.
unsigned-start : (r : ℕ) (cs : List ℕ) → parse_signed 10 (digit r ∷ cs) ≡ parse 10 0 (digit r ∷ cs)
unsigned-start r cs = let no_sign : (digit r == 45) ≡ false = ground arith in rw no_sign refl

unsigned-digits :
    (fuel val r : ℕ) (cs : List ℕ)
    → parse_signed 10 (digits fuel 10 val (digit r ∷ cs))
      ≡ parse 10 0 (digits fuel 10 val (digit r ∷ cs))
unfolding digits
unsigned-digits zero val r cs = unsigned-start r cs
unsigned-digits (suc fuel) val r cs = elim (Bool-cases (val / 10 == 0)) [
  | inl last ↦ rw last (unsigned-start (val % 10) (digit r ∷ cs))
  | inr more ↦ rw more (unsigned-digits fuel (val / 10) (val % 10) (digit r ∷ cs))
]

unsigned-text :
    (fuel val : ℕ)
    → parse_signed 10 (digits (suc fuel) 10 val []) ≡ parse 10 0 (digits (suc fuel) 10 val [])
unfolding digits
unsigned-text fuel val = elim (Bool-cases (val / 10 == 0)) [
  | inl last ↦ rw last (unsigned-start (val % 10) [])
  | inr more ↦ rw more (unsigned-digits fuel (val / 10) (val % 10) [])
]

-- A number of 64 bits printed as `%d` prints it reads back as itself, whatever its sign.
pub number_text-parse : (val : ℕ) → val < 2 ^ 64 → parse_signed 10 (number_text val 10 true) ≡ val
unfolding number_text
number_text-parse val h = elim (Bool-cases (leb (2 ^ 63) val)) [
  | inl neg ↦
      let back : parse 10 0 (digits 64 10 (long_mod - val) []) ≡ long_mod - val =
        digits-parse 64 10 (long_mod - val) [] (inl refl) (ground (arith, neg))
        ∙ parse-nil (long_mod - val) in
      rw (neg, back) (ground (arith, neg))
  | inr pos ↦ rw pos (unsigned-text 63 val ∙ digits-parse 64 10 val [] (inl refl) h ∙ parse-nil val)
]
