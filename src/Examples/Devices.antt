-- ===== src/Examples/Devices.antt =====
-- The theorems on the lock, the serial port, division, the start of the processor and `Ptab::remap` at concrete
-- values.
use nova_mckernel_lab.Base.{
  ℕ, ◌≡◌, ◌≤◌, ◌-◌, ◌*◌, ◌+◌, ◌/◌, ◌%◌, ◌^◌, refl, inl, inr, true, arith, some, [], ◌∷◌, length,
  Bool-cases, ◌==◌,
}
use nova_mckernel_lab.Console.{number_text, vprintf, vprintf_from}
use nova_mckernel_lab.Console.Buffer.{parse_signed, number_text-fits, number_text-parse}
use nova_mckernel_lab.Spinlock.{
  State, Reach, starts, steps, draws, gets, xadd, update, outside, spins, holds, new_lock,
}
use nova_mckernel_lab.Spinlock.Exclusion.{Reach-excludes}
use nova_mckernel_lab.Serial.{Serial, print_on}
use nova_mckernel_lab.Serial.Output.{IsResponsive, Sends, crlf, print_on-Sends}
use nova_mckernel_lab.Machine.{ok}
use nova_mckernel_lab.Kalloc.{page_size}
use nova_mckernel_lab.Kernel.{sel_user_code, sel_user_data}
use nova_mckernel_lab.Bits.{div64}
use nova_mckernel_lab.Bits.Division.{div64-divides}
use nova_mckernel_lab.Descriptor.{Tss, code_xra, data_rwa}
use nova_mckernel_lab.Msr.{read_msr, ia32_sysenter_cs, ia32_sysenter_esp, ia32_sysenter_eip}
use nova_mckernel_lab.Init.{Symbols, Initialised, init}
use nova_mckernel_lab.Init.Segments.{IsWhole, segment, init-sysenter}
use nova_mckernel_lab.Examples.{kernel}

-- Of two processors, the first drew and got the lock, the second waits.
abbrev first_draws : State
first_draws = record { val = xadd new_lock; cpus = update (λ i. outside) 0 (spins new_lock) }

abbrev both_draw : State
both_draw = record {
  val = xadd first_draws.val;
  cpus = update first_draws.cpus 1 (spins first_draws.val);
}

abbrev first_holds : State
first_holds = record { val = both_draw.val; cpus = update both_draw.cpus 0 holds }

first_holds-Reach : Reach 2 first_holds
first_holds-Reach =
    steps both_draw
      (steps first_draws (steps _ starts (draws 0 (omega arith) refl refl))
        (draws 1 (omega arith) refl refl))
      (gets 0 new_lock (omega arith) refl refl refl)

Reach-excludes_example : ◌≡◌ {A = ℕ} 0 0
Reach-excludes_example =
    Reach-excludes 2 first_holds 0 0 (omega arith) first_holds-Reach (omega arith) (omega arith)
      refl refl

number_text-fits_example : length (number_text (2 ^ 64 - 1) 16 true) ≤ 20
number_text-fits_example = number_text-fits (2 ^ 64 - 1) 16 true (inr refl) (omega arith)

number_text-parse_example : parse_signed 10 (number_text (2 ^ 64 - 42) 10 true) ≡ 2 ^ 64 - 42
number_text-parse_example = number_text-parse (2 ^ 64 - 42) (omega arith)

-- A port that is ready at every second read.
abbrev port : Serial
port = record { base = 0x3f8; initialized = true; reads = 0; writes = [] }

abbrev slow_device : ℕ → ℕ
slow_device n = n % 2 * 2 ^ 5

slow_device-IsResponsive : IsResponsive 2 slow_device
slow_device-IsResponsive n = elim (Bool-cases (n % 2 == 1)) [
  | inl now ↦ (0, omega arith, ground (arith, now))
  | inr next ↦ (1, omega arith, ground (arith, next))
]

hi : vprintf (104 ∷ 105 ∷ 10 ∷ []) [] ≡ some (104 ∷ 105 ∷ 10 ∷ [])
unfolding vprintf vprintf_from
hi = refl

print_on-Sends_example :
    (s' : Serial) × (print_on 2 slow_device port (104 ∷ 105 ∷ 10 ∷ []) [] ≡ some s')
    × Sends port (crlf (104 ∷ 105 ∷ 10 ∷ [])) s'
print_on-Sends_example =
    print_on-Sends 2 slow_device port (104 ∷ 105 ∷ 10 ∷ []) [] (104 ∷ 105 ∷ 10 ∷ [])
      slow_device-IsResponsive hi

div64-divides_example : div64 (2 ^ 64 - 1) 10 ≡ some ((2 ^ 64 - 1) / 10, (2 ^ 64 - 1) % 10)
div64-divides_example = div64-divides (2 ^ 64 - 1) 10 (omega arith) (omega arith) (omega arith)

abbrev symbols : Symbols
symbols = record {
  serial_base = 0x3f8;
  tss_run = 0xc000_8000;
  tss_dbf = 0xc000_8080;
  tss_handler = 0xc000_1000;
  entry_sysenter = 0xc000_2000;
  handlers = 0xc000_3003 ∷ 0 ∷ [];
}

abbrev clear_tss : Tss
clear_tss = record {
  sp0 = 0;
  ss0 = 0;
  cr3 = 0;
  eip = 0;
  eflags = 0;
  esp = 0;
  es = 0;
  cs = 0;
  ss = 0;
  ds = 0;
  iobm = 0;
}

init-sysenter_example :
    (i : Initialised) × (init symbols kernel port clear_tss clear_tss (λ n. 0) ≡ ok i)
    × (read_msr i.msrs ia32_sysenter_eip ≡ symbols.entry_sysenter)
    × (read_msr i.msrs ia32_sysenter_esp ≡ symbols.tss_run + 4)
    × (i.kernel.sp0 ≡ 0xcfff_f000 + page_size)
    × (let cs = read_msr i.msrs ia32_sysenter_cs in
        IsWhole (segment i cs) 0 code_xra
        × IsWhole (segment i (cs + 8)) 0 data_rwa
        × IsWhole (segment i (cs + 16)) 3 code_xra
        × IsWhole (segment i (cs + 24)) 3 data_rwa
        × (cs + 16 + 3 ≡ sel_user_code)
        × (cs + 24 + 3 ≡ sel_user_data))
init-sysenter_example =
    init-sysenter symbols kernel port clear_tss clear_tss (λ n. 0) (omega arith, omega arith)
      (omega arith) (omega arith)
