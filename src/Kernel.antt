-- ===== src/Kernel.antt =====
-- The kernel's state as the system calls (kern/src/syscall.cc) and kern/src/ec.cc see it, and the
-- parts of `class Ec` (kern/include/ec.h, kern/src/ec.cc) that act on it. The registers that a
-- constructor leaves alone hold what the memory held: `raw`. What is printed is a list of messages.
use nova_mckernel_lab.Base.{ℕ, false, List, ◌∷◌, Option}
use nova_mckernel_lab.Console.{Arg}
use nova_mckernel_lab.Machine.{add32, Outcome, ok, ◌>>=◌, deref}
use nova_mckernel_lab.Ec.{Ptr, null, Regs, Cont, root_invoke, ret_user_iret, Ec, Ecs, store_ec}
use nova_mckernel_lab.Scheduler.{Scheduler}
use nova_mckernel_lab.Kalloc.{Kalloc, Memory, alloc}
use nova_mckernel_lab.Pd.{Pd, Pds, store_pd, new_pd}
use nova_mckernel_lab.Ptab.{Platform}

-- The texts that the kernel prints, with the numbers in them.
pub data Message : Type 0 where
  sys_dump : ℕ → ℕ → ℕ → Message
  user_text : List ℕ → Message
  invalid_target_pd : ℕ → Message
  no_capability : Message
  no_receiver : ℕ → Message
  unknown_syscall : ℕ → Message

pub record Kernel : Type 0 where
  pub ecs : Ecs
  pub pds : Pds
  pub sched : Scheduler
  pub kalloc : Kalloc
  pub memory : Memory
  pub platform : Platform
  -- `Ec::current` and `Tss::run.sp0`.
  pub current : Ptr
  pub sp0 : ℕ
  pub raw : Ptr → Regs
  -- What a format and a list of values at two addresses of user memory spell; `none` if reading them
  -- leaves what the user has mapped.
  pub user : ℕ → ℕ → Option (List ℕ × List Arg)
  pub console : List Message

-- Where a handler leaves the processor: back in `handle_syscall`, or in the function that `cont` of
-- another context points to.
pub data Control : Type 0 where
  returns : Control
  jumps : Cont → Control

abbrev pub Handled : Type 0
Handled = Outcome (Control × Kernel)

abbrev pub ec_at : Kernel → Ptr → Outcome Ec
ec_at k p = deref (k.ecs p)

abbrev pub pd_at : Kernel → Ptr → Outcome Pd
pd_at k p = deref (k.pds p)

abbrev pub put_ec : Kernel → Ptr → Ec → Kernel
put_ec k p e = record k { ecs = store_ec k.ecs p e }

abbrev pub put_pd : Kernel → Ptr → Pd → Kernel
put_pd k p d = record k { pds = store_pd k.pds p d }

abbrev pub print : Message → Kernel → Kernel
print x k = record k { console = x ∷ k.console }

-- `p->sys_regs()->eax = v`.
abbrev pub with_eax : Ec → ℕ → Ec
with_eax e v = let r = e.regs in record e { regs = record r { eax = v } }

unfoldable pub set_eax : Kernel → Ptr → ℕ → Outcome Kernel
set_eax k p v = do e ← ec_at k p; ok (put_ec k p (with_eax e v))

-- `sizeof (Ec)`, `sizeof (Pd)` and `exc_regs() + 1` on i386: `cont` stands before the 19 registers.
abbrev pub sizeof_ec : ℕ
sizeof_ec = 104

abbrev pub sizeof_pd : ℕ
sizeof_pd = 68

abbrev pub regs_end : Ptr → ℕ
regs_end p = add32 p 80

-- `Ec::make_current`.
unfoldable pub make_current : Kernel → Ptr → Handled
make_current k p = do e ← ec_at k p; ok (jumps e.cont, record k { current = p; sp0 = regs_end p })

-- `selectors.h`, and `EFLAGS.IF`.
abbrev pub sel_user_code : ℕ
sel_user_code = 0x1b

abbrev pub sel_user_data : ℕ
sel_user_data = 0x23

abbrev pub efl_if : ℕ
efl_if = 0x200

-- The registers that both constructors set.
abbrev pub user_regs : Regs → Regs
user_regs r = record r {
  cs = sel_user_code;
  ds = sel_user_data;
  es = sel_user_data;
  ss = sel_user_data;
  efl = efl_if;
}

-- `Ec::Ec (void (*)(), mword, Pd *)`, for the root context.
unfoldable pub root_ec : Regs → ℕ → Ptr → Ec
root_ec raw mbi p =
    let r = user_regs raw in
    record {
      cont = root_invoke;
      regs = record r { eax = mbi };
      priority = 0;
      saved_priority = 0;
      blocked = false;
      ipc_val = 0;
      pending_sender = null;
      pd = p;
    }

-- `Ec::Ec (mword, mword, unsigned, Pd *)`.
unfoldable pub user_ec : Regs → ℕ → ℕ → ℕ → Ptr → Ec
user_ec raw eip esp prio p =
    let r = user_regs raw in
    record {
      cont = ret_user_iret;
      regs = record r { eip = eip; esp = esp };
      priority = prio;
      saved_priority = 0;
      blocked = false;
      ipc_val = 0;
      pending_sender = null;
      pd = p;
    }

-- `new Ec (eip, esp, prio, pd)`, with the address.
unfoldable pub new_ec : Kernel → ℕ → ℕ → ℕ → Ptr → Outcome (Ptr × Kernel)
unfolding user_ec
new_ec k eip esp prio p = do
  (a, kalloc') ← alloc k.kalloc sizeof_ec
  let k' = put_ec k a (user_ec (k.raw a) eip esp prio p)
  ok (a, record k' { kalloc = kalloc' })

-- `new Pd (parent)`, with the address.
unfoldable pub new_domain : Kernel → Ptr → Outcome (Ptr × Kernel)
unfolding new_pd
new_domain k parent = do
  (a, kalloc') ← alloc k.kalloc sizeof_pd
  let k' = put_pd k a (new_pd parent)
  ok (a, record k' { kalloc = kalloc' })
