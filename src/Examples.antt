-- ===== src/Examples.antt =====
-- The data of the examples: three contexts in two domains, and a kernel that runs the first.
pub mod Scheduling
pub mod Tables
pub mod Calls
pub mod Machinery
pub mod Devices
pub mod Start
pub mod Lives
pub mod Hardware
pub mod Paging
pub mod Messages
pub mod Users
use nova_mckernel_lab.Base.{
  ℕ, Bool, true, false, Option, none, some, List, [], ◌∷◌, ◌==◌, if◌then◌else◌, replicate,
}
use nova_mckernel_lab.Ec.{Ptr, null, Regs, Ec, Ecs, ret_user_iret}
use nova_mckernel_lab.Scheduler.{Queue, Scheduler, max_ecs}
use nova_mckernel_lab.Kalloc.{Kalloc}
use nova_mckernel_lab.Pd.{Pd, Pds, max_caps}
use nova_mckernel_lab.Kernel.{Kernel}

abbrev pub zero_regs : Regs
zero_regs = record {
  edi = 0;
  esi = 0;
  ebp = 0;
  cr2 = 0;
  ebx = 0;
  edx = 0;
  ecx = 0;
  eax = 0;
  gs = 0;
  fs = 0;
  es = 0;
  ds = 0;
  err = 0;
  vec = 0;
  eip = 0;
  cs = 0;
  efl = 0;
  esp = 0;
  ss = 0;
}

abbrev pub context : ℕ → Ptr → Ptr → Ec
context prio pending domain = record {
  cont = ret_user_iret;
  regs = zero_regs;
  priority = prio;
  saved_priority = 0;
  blocked = false;
  ipc_val = 0;
  pending_sender = pending;
  pd = domain;
}

-- The first two have priority 0, the third priority 1.
abbrev pub three_ecs : Ecs
three_ecs p =
    if p == 1000
    then some (context 0 null 5000)
    else (if p == 2000
        then some (context 0 null 5000)
        else (if p == 3000 then some (context 1 3000 6000) else none))

abbrev pub one_waits : Queue
one_waits = record {
  slots = 2000 ∷ replicate 7 null;
  head = 0;
  tail = 1;
  count = 1;
  blocked = replicate 8 false;
}

abbrev pub blocked_waits : Queue
blocked_waits = record {
  slots = 0 ∷ 0 ∷ 3000 ∷ replicate 5 null;
  head = 2;
  tail = 3;
  count = 1;
  blocked = false ∷ false ∷ true ∷ replicate 5 false;
}

abbrev pub busy : Scheduler
busy = record { queues = one_waits ∷ blocked_waits ∷ []; current_ec = 1000 }

abbrev pub parent_pd : Pd
parent_pd = record {
  caps = 1000 ∷ 2000 ∷ 3000 ∷ replicate 5 null;
  parent = null;
  children = 6000 ∷ replicate 7 null;
}

abbrev pub child_pd : Pd
child_pd = record { caps = replicate 8 null; parent = 5000; children = replicate 8 null }

abbrev pub two_pds : Pds
two_pds p = if p == 5000 then some parent_pd else (if p == 6000 then some child_pd else none)

abbrev pub pool : Kalloc
pool = record { begin = 0x10_0000; end = 0x20_0000 }

abbrev pub kernel : Kernel
kernel = record {
  ecs = three_ecs;
  pds = two_pds;
  sched = busy;
  kalloc = pool;
  memory = λ a. 0;
  platform = record { offset = 0xbf80_0000; cr3 = 0x40_0000 };
  current = 1000;
  sp0 = 1080;
  raw = λ p. zero_regs;
  user = λ fmt args. none;
  console = [];
}
