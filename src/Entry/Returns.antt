-- ===== src/Entry/Returns.antt =====
-- What the saving of registers in kern/src/entry.S and their loading in kern/src/ec.cc do together.
use nova_mckernel_lab.Base.{
  ℕ, zero, suc, ◌≤◌, ◌+◌, ◌*◌, ◌/◌, ◌%◌, ◌^◌, ◌≡◌, refl, ap, ◌∙◌, ◌≢◌, true, false, ◌==◌, arith,
}
use nova_mckernel_lab.Machine.{word_mod, sub32, Outcome, ok}
use nova_mckernel_lab.Ec.{Regs}
use nova_mckernel_lab.Kernel.{sel_user_code, sel_user_data, efl_if}
use nova_mckernel_lab.Entry.{
  Registers, Stack, from_user, from_kernel, entry_exc, entry_exc_error, entry_interrupt,
  sysenter_entry, words_of, leave_iret, leave_sysexit, ret_to_kernel, ret_from_interrupt,
}

-- The registers that a frame holds for the exception `vec` with the error code `err`.
abbrev pub saved : Registers → ℕ → ℕ → Regs
saved c vec err = record {
  edi = c.edi;
  esi = c.esi;
  ebp = c.ebp;
  cr2 = c.cr2;
  ebx = c.ebx;
  edx = c.edx;
  ecx = c.ecx;
  eax = c.eax;
  gs = c.gs;
  fs = c.fs;
  es = c.es;
  ds = c.ds;
  err = err;
  vec = vec;
  eip = c.eip;
  cs = c.cs;
  efl = c.efl;
  esp = c.esp;
  ss = c.ss;
}

-- The stack pointer after `n` pushes.
abbrev pushed : ℕ → ℕ → ℕ
pushed zero sp = sp
pushed (suc n) sp = sub32 (pushed n sp) 4

sub32-sub32 : (a b : ℕ) → b + 4 ≤ word_mod → sub32 (sub32 a b) 4 ≡ sub32 a (b + 4)
sub32-sub32 a b small = omega arith

pushed_lem : (n sp : ℕ) → 4 * n + 4 ≤ word_mod → pushed (suc n) sp ≡ sub32 sp (4 * n + 4)
pushed_lem zero sp small = refl
pushed_lem (suc n) sp small =
    ap (λ (a : ℕ). sub32 a 4) (pushed_lem n sp (omega arith))
    ∙ sub32-sub32 sp (4 * n + 4) (omega arith)
    ∙ ap (sub32 sp) (omega arith)

-- An exception, with or without an error code of the processor, or an interrupt, in user code: the frame
-- that the handler is given is the `regs` of the context, every register of the processor in its field,
-- the vector, and the error code or 0; but the frame of an interrupt has in `cr2` the stack pointer that
-- `pusha` saves. If the handler leaves it alone, the return goes on with user code, whatever the
-- processor holds by then: every register but CR2 is as it was.
pub exception-resumes :
    (c c' : Registers) (vec err sp0 : ℕ)
    → c.cs % 4 ≢ 0
    → let resumed : Outcome Registers = ok (record c { cr2 = c'.cr2 }) in
      (entry_exc c vec (from_user c sp0) ≡ words_of (saved c vec 0))
      × (entry_exc_error c vec err (from_user c sp0) ≡ words_of (saved c vec err))
      × (entry_interrupt c vec (from_user c sp0)
          ≡ words_of (let r = saved c vec 0 in record r { cr2 = sub32 sp0 44 }))
      × (ret_from_interrupt c' (entry_exc c vec (from_user c sp0)) ≡ resumed)
      × (ret_from_interrupt c' (entry_exc_error c vec err (from_user c sp0)) ≡ resumed)
      × (ret_from_interrupt c' (entry_interrupt c vec (from_user c sp0)) ≡ resumed)
unfolding entry_exc entry_exc_error entry_interrupt ret_from_interrupt
exception-resumes c c' vec err sp0 user =
    let outer : (c.cs % 4 == 0) ≡ false = ground (arith, user) in
    let eleven : pushed 11 sp0 ≡ sub32 sp0 44 = pushed_lem 10 sp0 (omega arith) in
    (
      refl,
      refl,
      ap (λ sp. words_of (let r = saved c vec 0 in record r { cr2 = sp })) eleven,
      rw outer refl,
      rw outer refl,
      rw outer refl,
    )

-- The kernel goes on on the stack that it was on, with the segments that the handler leaves.
abbrev pub inner : Registers → Registers → Registers
inner c c' = record c {
  gs = c'.gs;
  fs = c'.fs;
  es = c'.es;
  ds = c'.ds;
  esp = c'.esp;
  ss = c'.ss;
  cr2 = c'.cr2;
}

-- The same in the kernel, which stays on its stack: the return leaves the stack as the exception or
-- interrupt found it, and every register but the segments of data, which the entry leaves alone.
pub exception-resumes_kernel :
    (c c' : Registers) (vec err : ℕ) (s : Stack)
    → c.cs % 4 ≡ 0
    → (ret_to_kernel c' (entry_exc c vec (from_kernel c s)) ≡ ok (inner c c', s.words))
      × (ret_to_kernel c' (entry_exc_error c vec err (from_kernel c s)) ≡ ok (inner c c', s.words))
      × (ret_to_kernel c' (entry_interrupt c vec (from_kernel c s)) ≡ ok (inner c c', s.words))
      × (ret_from_interrupt c' (entry_exc c vec (from_kernel c s)) ≡ ok (inner c c'))
unfolding entry_exc entry_exc_error entry_interrupt ret_to_kernel ret_from_interrupt
exception-resumes_kernel c c' vec err s kernel =
    let same : (c.cs % 4 == 0) ≡ true = ground (arith, kernel) in
    (rw same refl, rw same refl, rw same refl, rw same refl)

-- User code where `sysenter` was to return: `%edx` and `%ecx` say where, and `%eax` is the answer.
abbrev pub answered : Registers → ℕ → Registers
answered c v = record c {
  eip = c.edx;
  esp = c.ecx;
  eax = v;
  cs = sel_user_code;
  ss = sel_user_data;
  efl = efl_if;
}

-- The `regs` of a context that has entered by `sysenter`.
abbrev pub entered : Registers → ℕ → Regs
entered c sp0 = let r = saved (answered c c.eax) 0 0 in record r { cr2 = sub32 sp0 44 }

-- A system call that answers `v`: the context goes on behind its `sysenter`, on its stack and with its
-- registers, whether the kernel returns at once by `sysexit`, or later, with whatever segments and flags
-- the processor then holds, by `iret`. By `sysexit` the segments of data and the flags are the
-- processor's, with interrupts on.
pub sysenter-returns :
    (c c' : Registers) (sp0 v : ℕ)
    → c'.efl / 2 ^ 9 % 2 ≡ 0
    → let r = entered c sp0 in
      let frame = words_of (record r { eax = v }) in
      (sysenter_entry c sp0 ≡ words_of r)
      × (leave_iret c' frame ≡ ok (let u = answered c v in record u { cr2 = c'.cr2 }))
      × (leave_sysexit 8 c' frame
          ≡ ok (
              let u = answered c v in
              record u {
                gs = c'.gs;
                fs = c'.fs;
                es = c'.es;
                ds = c'.ds;
                efl = c'.efl + 2 ^ 9;
                cr2 = c'.cr2;
              }))
unfolding sysenter_entry leave_iret leave_sysexit
sysenter-returns c c' sp0 v off =
    let eleven : pushed 11 sp0 ≡ sub32 sp0 44 = pushed_lem 10 sp0 (omega arith) in
    let flag : (c'.efl / 2 ^ 9 % 2 == 0) ≡ true = ground (arith, off) in
    (
      ap (λ sp. let r = entered c sp0 in words_of (record r { cr2 = sp })) eleven,
      refl,
      rw flag refl,
    )
