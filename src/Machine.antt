-- ===== src/Machine.antt =====
-- What every part of the kernel runs on: 32-bit words (kern/include/types.h), and the outcome of a
-- kernel routine, which returns, ends in `panic` (kern/src/stdio.cc) or does what C++ leaves
-- undefined.
use nova_mckernel_lab.Base.{ℕ, ◌+◌, ◌-◌, ◌%◌, ◌^◌, Option, none, some}

-- An `mword` or `unsigned`: a number below `2 ^ 32`.
abbrev pub word_mod : ℕ
word_mod = 2 ^ 32

abbrev pub add32 : ℕ → ℕ → ℕ
add32 a b = (a + b) % word_mod

abbrev pub sub32 : ℕ → ℕ → ℕ
sub32 a b = (a + word_mod - b) % word_mod

-- `static_cast<mword>(-1)`.
abbrev pub minus_one : ℕ
minus_one = 0xffff_ffff

-- The panics, one for each message.
pub data Panic : Type 0 where
  queue_full : ℕ → Panic
  no_runnable : Panic
  out_of_memory : Panic
  no_module : Panic
  no_elf : Panic
  bad_elf : Panic
  task_gate : Panic
  general_protection : Panic
  stack_overflow : Panic
  page_fault : Panic
  exception : ℕ → Panic
  unhandled_gsi : ℕ → Panic
  unhandled_timer : Panic
  assertion : Panic

-- `fault` is undefined behaviour: a null or dangling pointer followed, an array index out of range,
-- or a point that the code marks `UNREACHED` reached.
pub data Outcome {ℓ} (A : Type ℓ) : Type ℓ where
  ok : A → Outcome A
  panic : Panic → Outcome A
  fault : Outcome A

infixl 5 ◌>>=◌
abbrev pub ◌>>=◌ {ℓ κ} : {A : Type ℓ} {B : Type κ} → Outcome A → (A → Outcome B) → Outcome B
ok a >>= f = f a
panic p >>= f = panic p
fault >>= f = fault

-- A read through a pointer, or of an array element.
abbrev pub deref {ℓ} : {A : Type ℓ} → Option A → Outcome A
deref none = fault
deref (some a) = ok a
