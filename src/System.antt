-- ===== src/System.antt =====
-- The kernel from the start on, with any user code: kern/src/init.cc and `Ec::root_invoke`
-- (kern/src/ec.cc), then system calls (kern/src/syscall.cc) and, between them, user code that changes
-- its own registers as it likes before kern/src/entry.S stores them.
use nova_mckernel_lab.Console.{Arg}
use nova_mckernel_lab.Base.{Option, List, ℕ, ◌≡◌, some}
use nova_mckernel_lab.Machine.{ok, ◌>>=◌}
use nova_mckernel_lab.Ec.{Regs, Ec}
use nova_mckernel_lab.Kernel.{Kernel, Control, put_ec}
use nova_mckernel_lab.Dispatch.{RawFrame, decode, handle_syscall}
use nova_mckernel_lab.Dispatch.Calls.{Admits}
use nova_mckernel_lab.Boot.{Loaded, bootstrap, root_invoke}

-- A step of the kernel between two points in user code.
pub data Step (k : Kernel) (k' : Kernel) : Type 0 where
  computes :
      (e : Ec) (r : Regs) (u : ℕ → ℕ → Option (List ℕ × List Arg))
      → k.ecs k.current ≡ some e
      → k' ≡ (let k1 = put_ec k k.current (record e { regs = r }) in record k1 { user = u })
      → Step k k'
  calls :
      (f : RawFrame) (c : Control)
      → Admits k (decode f)
      → handle_syscall k f ≡ ok (c, k')
      → Step k k'

-- The kernels that a start from `k0` leads to.
pub data Reach (l : Loaded) (load_e addr : ℕ) (k0 : Kernel) : Kernel → Type 0 where
  starts :
      {k : Kernel}
      → (bootstrap load_e k0 addr >>= λ r. root_invoke l r.1) ≡ ok k
      → Reach l load_e addr k0 k
  steps :
      {k : Kernel} (k' : Kernel) → Reach l load_e addr k0 k' → Step k' k → Reach l load_e addr k0 k
