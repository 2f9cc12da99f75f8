-- ===== src/Spinlock.antt =====
-- kern/include/spinlock.h and kern/include/lock_guard.h: the ticket lock, one instruction that touches
-- the shared word at a time. The low byte of the word is the ticket that is served, the high byte the
-- next one to be drawn.
pub mod Exclusion
use nova_mckernel_lab.Base.{
  ℕ, zero, suc, ◌+◌, ◌*◌, ◌/◌, ◌%◌, ◌^◌, ◌<◌, ◌≡◌, Bool, true, false, ◌==◌, if◌then◌else◌,
}

-- `Spinlock::Spinlock`.
abbrev pub new_lock : ℕ
new_lock = 0

-- `lock; xadd`, of 0x100: the word that it leaves; what it reads is the word before.
abbrev pub xadd : ℕ → ℕ
xadd val = (val + 0x100) % 2 ^ 16

-- The bytes of a word.
abbrev pub low : ℕ → ℕ
low w = w % 2 ^ 8

abbrev pub high : ℕ → ℕ
high w = w / 2 ^ 8

-- `cmpb %h0, %b0`.
abbrev pub is_served : ℕ → Bool
is_served tmp = high tmp == low tmp

-- `movb %1, %b0`.
abbrev pub reload : ℕ → ℕ → ℕ
reload tmp val = high tmp * 2 ^ 8 + low val

-- `incb`, of the low byte, without a carry.
abbrev pub incb : ℕ → ℕ
incb val = high val * 2 ^ 8 + (low val + 1) % 2 ^ 8

-- Where a processor is: outside of `lock` and `unlock`, in the loop with its `tmp`, or between the two
-- calls.
pub data Cpu : Type 0 where
  outside : Cpu
  spins : ℕ → Cpu
  holds : Cpu

pub record State : Type 0 where
  pub val : ℕ
  pub cpus : ℕ → Cpu

abbrev pub update : (ℕ → Cpu) → ℕ → Cpu → ℕ → Cpu
update f i c j = if j == i then c else f j

-- The steps of processor `i`, one of `n`.
pub data Step (n : ℕ) (s : State) (s' : State) : Type 0 where
  draws :
      (i : ℕ)
      → i < n
      → s.cpus i ≡ outside
      → s' ≡ record { val = xadd s.val; cpus = update s.cpus i (spins s.val) }
      → Step n s s'
  gets :
      (i tmp : ℕ)
      → i < n
      → s.cpus i ≡ spins tmp
      → is_served tmp ≡ true
      → s' ≡ record { val = s.val; cpus = update s.cpus i holds }
      → Step n s s'
  looks :
      (i tmp : ℕ)
      → i < n
      → s.cpus i ≡ spins tmp
      → is_served tmp ≡ false
      → s' ≡ record { val = s.val; cpus = update s.cpus i (spins (reload tmp s.val)) }
      → Step n s s'
  unlocks :
      (i : ℕ)
      → i < n
      → s.cpus i ≡ holds
      → s' ≡ record { val = incb s.val; cpus = update s.cpus i outside }
      → Step n s s'

-- The states that `n` processors reach from a new lock.
pub data Reach (n : ℕ) : State → Type 0 where
  starts : Reach n (record { val = new_lock; cpus = λ i. outside })
  steps : {s : State} (s' : State) → Reach n s' → Step n s' s → Reach n s
