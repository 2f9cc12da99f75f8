-- ===== src/Ec.antt =====
-- kern/include/ec.h and kern/include/regs.h: the data of an execution context, and the memory that
-- holds the contexts. A pointer is an address; `null` is 0.
use nova_mckernel_lab.Base.{ℕ, Bool, Option, some, ◌==◌, if◌then◌else◌}

abbrev pub Ptr : Type 0
Ptr = ℕ

abbrev pub null : Ptr
null = 0

-- `Exc_regs` with the `Sys_regs` that it extends, in the order of the frame.
pub record Regs : Type 0 where
  pub edi : ℕ
  pub esi : ℕ
  pub ebp : ℕ
  pub cr2 : ℕ
  pub ebx : ℕ
  pub edx : ℕ
  pub ecx : ℕ
  pub eax : ℕ
  pub gs : ℕ
  pub fs : ℕ
  pub es : ℕ
  pub ds : ℕ
  pub err : ℕ
  pub vec : ℕ
  pub eip : ℕ
  pub cs : ℕ
  pub efl : ℕ
  pub esp : ℕ
  pub ss : ℕ

-- The functions that `cont` points to.
pub data Cont : Type 0 where
  root_invoke ret_user_iret : Cont

-- `class Ec`.
pub record Ec : Type 0 where
  pub cont : Cont
  pub regs : Regs
  pub priority : ℕ
  pub saved_priority : ℕ
  pub blocked : Bool
  pub ipc_val : ℕ
  pub pending_sender : Ptr
  pub pd : Ptr

-- The contexts in memory, by address.
abbrev pub Ecs : Type 0
Ecs = Ptr → Option Ec

abbrev pub store_ec : Ecs → Ptr → Ec → Ecs
store_ec ecs p e q = if p == q then some e else ecs q
