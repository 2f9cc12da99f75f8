-- ===== src/Console.antt =====
-- kern/src/console.cc: the printing of numbers, strings and formats, as the bytes that it puts out.
-- `serial` is initialized. A `char` is a byte, and a string the bytes before its final 0.
pub mod Numbers
pub mod Buffer
use nova_mckernel_lab.Base.{
  ℕ, zero, suc, ◌+◌, ◌-◌, ◌*◌, ◌/◌, ◌%◌, ◌^◌, Bool, true, false, ◌&&◌, Option, none, some, List, [],
  ◌∷◌, ◌++◌, ltb, leb, ◌==◌, if◌then◌else◌, length, replicate,
}
use mathlib.Core.Option
use nova_mckernel_lab.Machine.{word_mod}

abbrev pub long_mod : ℕ
long_mod = 2 ^ 64

-- `MODE_…`.
pub data Mode : Type 0 where
  mode_flags mode_width mode_precs : Mode

-- `FLAG_…`, one Boolean for each bit.
pub record Flags : Type 0 where
  pub signed : Bool
  pub alt_form : Bool
  pub zero_pad : Bool

-- `"0123456789abcdef"[r]`.
abbrev pub digit : ℕ → ℕ
digit r = if ltb r 10 then 48 + r else 87 + r

-- The loop of `print_number`, with the digits that stand in the buffer already, for `fuel` rounds.
unfoldable pub digits : ℕ → ℕ → ℕ → List ℕ → List ℕ
digits zero base val buffer = buffer
digits (suc fuel) base val buffer =
    let rest = digits fuel base (val / base) (digit (val % base) ∷ buffer) in
    if val / base == 0 then digit (val % base) ∷ buffer else rest

-- `0x`, or nothing.
abbrev pub prefix : Bool → List ℕ
prefix alt = if alt then 48 ∷ 120 ∷ [] else []

-- What `print_number` writes to its buffer: the digits, and a sign. A number below 2^64 has at most 64
-- digits.
unfoldable pub number_text : ℕ → ℕ → Bool → List ℕ
unfolding digits
number_text val base signed =
    let neg = signed && leb (2 ^ 63) val in
    let shown = digits 64 base (if neg then long_mod - val else val) [] in
    if neg then 45 ∷ shown else shown

-- `Console::print_number`.
unfoldable pub print_number : ℕ → ℕ → ℕ → Flags → List ℕ
unfolding number_text
print_number val base width flags =
    let buffer = number_text val base flags.signed in
    let n = length buffer + length (prefix flags.alt_form) in
    if flags.zero_pad
    then prefix flags.alt_form ++ (replicate (width - n) 48 ++ buffer)
    else replicate (width - n) 32 ++ (prefix flags.alt_form ++ buffer)

-- The first loop of `print_str`: at most `precs` bytes.
unfoldable pub take_str : ℕ → List ℕ → List ℕ
take_str zero s = []
take_str (suc precs) [] = []
take_str (suc precs) (c ∷ s) = c ∷ take_str precs s

-- `Console::print_str`.
unfoldable pub print_str : Option (List ℕ) → ℕ → ℕ → List ℕ
unfolding take_str
print_str none width precs = []
print_str (some s) width precs =
    let shown = take_str precs s in shown ++ replicate (width - length shown) 32

-- What `va_arg` yields: a word, a 64-bit number, or a string that a pointer leads to.
pub data Arg : Type 0 where
  word : ℕ → Arg
  long_long : ℕ → Arg
  text : Option (List ℕ) → Arg

-- The state of the inner loop of `vprintf`.
pub record Spec : Type 0 where
  pub flags : Flags
  pub width : ℕ
  pub precs : ℕ
  pub len : ℕ
  pub mode : Mode

abbrev pub no_flags : Flags
no_flags = record { signed = false; alt_form = false; zero_pad = false }

abbrev pub new_spec : Spec
new_spec = record { flags = no_flags; width = 0; precs = 0; len = 0; mode = mode_flags }

abbrev pub push_digit : ℕ → ℕ → ℕ
push_digit n c = (n * 10 + (c - 48)) % word_mod

-- `case '0'...'9'`.
unfoldable pub spec_digit : Spec → ℕ → Spec
spec_digit s c = elim s.mode [
  | mode_flags ↦
      if c == 48
      then (let f = s.flags in record s { flags = record f { zero_pad = true } })
      else record s { mode = mode_width; width = push_digit s.width c }
  | mode_width ↦ record s { width = push_digit s.width c }
  | mode_precs ↦ record s { precs = push_digit s.precs c }
]

-- `case '#'`.
unfoldable pub spec_alt : Spec → Spec
spec_alt s = elim s.mode [
  | mode_flags ↦ (let f = s.flags in record s { flags = record f { alt_form = true } })
  | mode_width ↦ s
  | mode_precs ↦ s
]

-- A word sign-extended to 64 bits, as an `int` or `long` is for `%d`.
abbrev pub sign_extend : ℕ → ℕ
sign_extend w = if leb (2 ^ 31) w then long_mod - word_mod + w else w

abbrev pub arg_signed : Arg → ℕ
arg_signed (word w) = sign_extend w
arg_signed (long_long n) = n
arg_signed (text s) = 0

abbrev pub arg_unsigned : Arg → ℕ
arg_unsigned (word w) = w
arg_unsigned (long_long n) = n
arg_unsigned (text s) = 0

abbrev pub arg_text : Arg → Option (List ℕ)
arg_text (text s) = s
arg_text _ = none

-- A conversion that takes an argument: `c`, `s`, `d`, `u`, `x` or `p`.
unfoldable pub convert : Spec → ℕ → Arg → List ℕ
unfolding print_number print_str
convert s c a =
    if c == 99
    then arg_unsigned a ∷ []
    else (if c == 115
        then print_str (arg_text a) s.width (if s.precs == 0 then word_mod - 1 else s.precs)
        else (if c == 100
            then (let f = s.flags in
                print_number (arg_signed a) 10 s.width (record f { signed = true }))
            else (if c == 112
                then print_number (arg_unsigned a) 16 s.width (record no_flags { alt_form = true })
                else print_number (arg_unsigned a) (if c == 120 then 16 else 10) s.width s.flags)))

abbrev pub takes_arg : ℕ → Bool
takes_arg c =
    if c == 99
    then true
    else (if c == 115
        then true
        else (if c == 100
            then true
            else (if c == 117 then true else (if c == 120 then true else c == 112))))

-- The bytes that change the specification and read on.
unfoldable pub modify : Spec → ℕ → Option Spec
unfolding spec_digit spec_alt
modify s c =
    if leb 48 c && leb c 57
    then some (spec_digit s c)
    else (if c == 46
        then some (record s { mode = mode_precs })
        else (if c == 35
            then some (spec_alt s)
            else (if c == 108 then some (record s { len = s.len + 1 }) else none)))

-- Where `vprintf` stands: between conversions, or inside one.
pub data Place : Type 0 where
  plain : Place
  inside : Spec → Place

-- `Console::vprintf`, a byte of the format at a time; `none` if an argument is missing. A format that
-- ends inside a conversion puts out its last byte.
unfoldable pub vprintf_from : Place → ℕ → List ℕ → List Arg → Option (List ℕ)
unfolding convert modify
vprintf_from plain last [] args = some []
vprintf_from (inside s) last [] args = some (last ∷ [])
vprintf_from plain last (c ∷ fmt) args =
    let converts = vprintf_from (inside new_spec) c fmt args in
    let goes_on = vprintf_from plain c fmt args in
    if c == 37 then converts else Option.map (◌∷◌ c) goes_on
vprintf_from (inside s) last (c ∷ fmt) args =
    let literal = Option.map (◌∷◌ c) (vprintf_from plain c fmt args) in
    let more : Spec → Option (List ℕ) = λ s'. vprintf_from (inside s') c fmt args in
    let shown : Arg → List Arg → Option (List ℕ) =
      λ a rest. Option.map (λ out. convert s c a ++ out) (vprintf_from plain c fmt rest) in
    elim (modify s c) [
      | some s' ↦ more s'
      | none ↦ if takes_arg c then elim args [ [] ↦ none | a ∷ rest ↦ shown a rest ] else literal
    ]

-- `Console::vprintf`.
unfoldable pub vprintf : List ℕ → List Arg → Option (List ℕ)
unfolding vprintf_from
vprintf fmt args = vprintf_from plain 0 fmt args
