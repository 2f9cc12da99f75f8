-- ===== src/Entry.antt =====
-- How a context enters the kernel and leaves it: kern/src/entry.S saves its registers in its `regs`
-- (kern/include/regs.h), whose end `Tss::run.sp0` holds, and `Ec::ret_user_sysexit` and
-- `Ec::ret_user_iret` (kern/src/ec.cc) load them. The stack is its words from `%esp` up to that end.
pub mod Returns
use nova_mckernel_lab.Base.{ℕ, ◌+◌, ◌/◌, ◌%◌, ◌^◌, get_or, List, [], ◌∷◌, ◌==◌, if◌then◌else◌}
use nova_mckernel_lab.Machine.{sub32, Outcome, ok, fault, ◌>>=◌}
use nova_mckernel_lab.Ec.{Regs}
use nova_mckernel_lab.Kernel.{sel_user_code, sel_user_data, efl_if}

-- The registers of the processor.
pub record Registers : Type 0 where
  pub edi : ℕ
  pub esi : ℕ
  pub ebp : ℕ
  pub ebx : ℕ
  pub edx : ℕ
  pub ecx : ℕ
  pub eax : ℕ
  pub gs : ℕ
  pub fs : ℕ
  pub es : ℕ
  pub ds : ℕ
  pub eip : ℕ
  pub cs : ℕ
  pub efl : ℕ
  pub esp : ℕ
  pub ss : ℕ
  pub cr2 : ℕ

pub record Stack : Type 0 where
  pub sp : ℕ
  pub words : List ℕ

abbrev pub push : ℕ → Stack → Stack
push w s = record { sp = sub32 s.sp 4; words = w ∷ s.words }

-- `pusha`, which saves the stack pointer that it starts from.
abbrev pub pusha : Registers → Stack → Stack
pusha c s =
    let sp = s.sp in
    push c.edi
      (push c.esi (push c.ebp (push sp (push c.ebx (push c.edx (push c.ecx (push c.eax s)))))))

-- `SAVE_STATE`, up to the switch to the kernel's own stack.
unfoldable pub save_state : Registers → Stack → Stack
save_state c s = pusha c (push c.gs (push c.fs (push c.es (push c.ds s))))

-- What the processor pushes when an exception or interrupt comes from user code, from level 0.
abbrev pub from_user : Registers → ℕ → Stack
from_user c sp0 =
    push c.eip (push c.cs (push c.efl (push c.esp (push c.ss (record { sp = sp0; words = [] })))))

abbrev pub from_kernel : Registers → Stack → Stack
from_kernel c s = push c.eip (push c.cs (push c.efl s))

-- `mov %eax, 0xc(%ebx)`: the fourth word of the frame.
abbrev pub store_cr2 : ℕ → List ℕ → List ℕ
store_cr2 v (a ∷ b ∷ c ∷ d ∷ ws) = a ∷ b ∷ c ∷ v ∷ ws
store_cr2 v ws = ws

-- `EXCEPTION` and `entry_exc`: the frame that `exc_handler` is given.
unfoldable pub entry_exc : Registers → ℕ → Stack → List ℕ
unfolding save_state
entry_exc c vec s = store_cr2 c.cr2 (save_state c (push 0 (push vec s))).words

-- `EXCEPTION_ERROR` and `entry_exc_error`: the processor pushes `err` too, which is copied, and the
-- first copy is overwritten.
abbrev pub copied_error : ℕ → ℕ → Stack → Stack
copied_error vec err s = push err (push vec s)

unfoldable pub entry_exc_error : Registers → ℕ → ℕ → Stack → List ℕ
unfolding save_state
entry_exc_error c vec err s = store_cr2 c.cr2 (save_state c (copied_error vec err s)).words

-- `entry_gsi` and `entry_lvt`.
unfoldable pub entry_interrupt : Registers → ℕ → Stack → List ℕ
unfolding save_state
entry_interrupt c vec s = (save_state c (push 0 (push vec s))).words

-- `entry_sysenter`, once `pop %esp` has loaded `sp0`.
unfoldable pub sysenter_entry : Registers → ℕ → List ℕ
unfolding save_state
sysenter_entry c sp0 =
    let s = push c.edx (
      push sel_user_code
        (push efl_if (push c.ecx (push sel_user_data (record { sp = sp0; words = [] }))))) in
    (save_state c (push 0 (push 0 s))).words

-- `regs` as the words from its address on.
abbrev pub words_of : Regs → List ℕ
words_of r =
    r.edi ∷ r.esi ∷ r.ebp ∷ r.cr2 ∷ r.ebx ∷ r.edx ∷ r.ecx ∷ r.eax ∷ r.gs ∷ r.fs ∷ r.es ∷ r.ds
    ∷ r.err ∷ r.vec ∷ r.eip ∷ r.cs ∷ r.efl ∷ r.esp ∷ r.ss ∷ []

-- `popa`, which drops the saved stack pointer.
unfoldable pub popa : Registers → List ℕ → Outcome (Registers × List ℕ)
popa c (edi ∷ esi ∷ ebp ∷ sp ∷ ebx ∷ edx ∷ ecx ∷ eax ∷ ws) =
    ok
      (record c { edi = edi; esi = esi; ebp = ebp; ebx = ebx; edx = edx; ecx = ecx; eax = eax }, ws)
popa c ws = fault

abbrev pub pop_user : Registers → List ℕ → Outcome (Registers × List ℕ)
pop_user c (esp ∷ ss ∷ ws) = ok (record c { esp = esp; ss = ss }, ws)
pop_user c ws = fault

-- `iret`: to the kernel on the same stack, or to user code with its stack.
unfoldable pub iret : Registers → List ℕ → Outcome (Registers × List ℕ)
iret c (eip ∷ cs ∷ efl ∷ ws) =
    let inner = record c { eip = eip; cs = cs; efl = efl } in
    if cs % 4 == 0 then ok (inner, ws) else pop_user inner ws
iret c ws = fault

-- `pop %gs; pop %fs; pop %es; pop %ds; add $8, %esp`.
abbrev pub pop_segments : Registers → List ℕ → Outcome (Registers × List ℕ)
pop_segments c (gs ∷ fs ∷ es ∷ ds ∷ err ∷ vec ∷ ws) =
    ok (record c { gs = gs; fs = fs; es = es; ds = ds }, ws)
pop_segments c ws = fault

-- `add $24, %esp`.
abbrev pub drop_segments : List ℕ → Outcome (List ℕ)
drop_segments (gs ∷ fs ∷ es ∷ ds ∷ err ∷ vec ∷ ws) = ok ws
drop_segments ws = fault

-- `Ec::ret_user_iret`, on the words of `current->regs`.
unfoldable pub leave_iret : Registers → List ℕ → Outcome Registers
unfolding popa iret
leave_iret c ws = do
  (c1, ws1) ← popa c ws
  (c2, ws2) ← pop_segments c1 ws1
  (c3, ws3) ← iret c2 ws2
  ok c3

-- `sti`, and `sysexit` by the register `IA32_SYSENTER_CS`.
abbrev pub sysexit : ℕ → Registers → Registers
sysexit sysenter_cs c = record c {
  eip = c.edx;
  esp = c.ecx;
  cs = sysenter_cs + 16 + 3;
  ss = sysenter_cs + 24 + 3;
  efl = c.efl + (if c.efl / 2 ^ 9 % 2 == 0 then 2 ^ 9 else 0);
}

-- `Ec::ret_user_sysexit`, on the words of `current->regs`.
unfoldable pub leave_sysexit : ℕ → Registers → List ℕ → Outcome Registers
unfolding popa
leave_sysexit sysenter_cs c ws = do (c1, ws1) ← popa c ws; ok (sysexit sysenter_cs c1)

-- `ret_from_interrupt` for a frame of the kernel, with the stack that is left.
unfoldable pub ret_to_kernel : Registers → List ℕ → Outcome (Registers × List ℕ)
unfolding popa iret
ret_to_kernel c ws = do (c1, ws1) ← popa c ws; ws2 ← drop_segments ws1; iret c1 ws2

-- `testb $3, 0x3c(%ebx)`: the frame's `cs`.
unfoldable pub ret_from_interrupt : Registers → List ℕ → Outcome Registers
unfolding leave_iret ret_to_kernel
ret_from_interrupt c ws =
    if get_or ws 15 0 % 4 == 0 then (ret_to_kernel c ws >>= λ r. ok r.0) else leave_iret c ws
