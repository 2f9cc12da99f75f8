-- ===== src/Serial.antt =====
-- kern/src/console_serial.cc, kern/include/console_serial.h and kern/include/io.h: the serial port, and
-- `printf` and `panic` (kern/src/stdio.cc), which print on it. What the device answers to the `n`-th
-- read of its line status is a parameter; what is written is kept as ports and bytes.
pub mod Output
use mathlib.Core.Option
use nova_mckernel_lab.Base.{
  ℕ, zero, suc, ◌+◌, ◌/◌, ◌%◌, ◌^◌, Bool, true, false, Option, none, some, List, [], ◌∷◌, ◌++◌,
  ◌==◌, if◌then◌else◌,
}
use nova_mckernel_lab.Console.{Arg, vprintf}

-- `Console_serial::Reg`, the offsets from `base`.
pub data Reg : Type 0 where
  rhr thr ier isr fcr lcr mcr lsr msr spr dlr_lo dlr_hi : Reg

abbrev pub offset : Reg → ℕ
offset rhr = 0
offset thr = 0
offset ier = 1
offset isr = 2
offset fcr = 2
offset lcr = 3
offset mcr = 4
offset lsr = 5
offset msr = 6
offset spr = 7
offset dlr_lo = 0
offset dlr_hi = 1

-- A write of a port.
abbrev pub Write : Type 0
Write = ℕ × ℕ

-- `Console_serial`, how often its status was read, and what was written to ports, in order.
pub record Serial : Type 0 where
  pub base : ℕ
  pub initialized : Bool
  pub reads : ℕ
  pub writes : List Write

-- `Console_serial::out`.
abbrev pub out : Serial → Reg → ℕ → Serial
out s r val = record s { writes = s.writes ++ ((s.base + offset r, val % 2 ^ 8) ∷ []) }

-- `Console_serial::init`. `serial_base` is the word that the boot code leaves, 0 if there is no port.
unfoldable pub init : Serial → ℕ → Serial
init s serial_base =
    if serial_base == 0
    then s
    else (let s1 = out (record s { base = serial_base }) lcr 0x80 in
        let s2 = out (out s1 dlr_lo 1) dlr_hi 0 in
        let s3 = out (out (out (out s2 lcr 3) ier 0) fcr 7) mcr 3 in
        record s3 { initialized = true })

-- `!(in (LSR) & 0x20)`, of the value read.
abbrev pub is_busy : ℕ → Bool
is_busy status = status / 2 ^ 5 % 2 == 0

-- The loop of `putc` until the device is ready; `none` if the fuel runs out.
unfoldable pub wait : ℕ → (ℕ → ℕ) → Serial → Option Serial
wait zero device s = none
wait (suc fuel) device s =
    let s' = record s { reads = s.reads + 1 } in
    let rest = wait fuel device s' in if is_busy (device s.reads) then rest else some s'

-- The end of `putc`: wait, and put out one byte.
unfoldable pub put_byte : ℕ → (ℕ → ℕ) → Serial → ℕ → Option Serial
unfolding wait
put_byte fuel device s c = Option.map (λ s'. out s' thr c) (wait fuel device s)

-- `Console_serial::putc`; a newline is put out after a carriage return.
unfoldable pub putc : ℕ → (ℕ → ℕ) → Serial → ℕ → Option Serial
unfolding put_byte
putc fuel device s c =
    if c == 10
    then elim (put_byte fuel device s 13) [ none ↦ none | some s' ↦ put_byte fuel device s' c ]
    else put_byte fuel device s c

-- `putc` of one byte after the other, as `vprintf` calls it.
unfoldable pub puts : ℕ → (ℕ → ℕ) → Serial → List ℕ → Option Serial
unfolding putc
puts fuel device s [] = some s
puts fuel device s (c ∷ cs) =
    let rest = λ (s' : Serial). puts fuel device s' cs in
    elim (putc fuel device s c) [ none ↦ none | some s' ↦ rest s' ]

-- `serial.vprintf`, as `printf` and `panic` call it; `none` as well if an argument is missing.
unfoldable pub print_on : ℕ → (ℕ → ℕ) → Serial → List ℕ → List Arg → Option Serial
unfolding puts
print_on fuel device s format args =
    if s.initialized then Option.bind (vprintf format args) (puts fuel device s) else some s
