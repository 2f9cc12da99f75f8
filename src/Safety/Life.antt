-- ===== src/Safety/Life.antt =====
-- The kernel from the start on, with any user code that `create_ec` can serve: kern/src/init.cc,
-- `Ec::root_invoke` and `Ec::handle_syscall` (kern/src/ec.cc).
use nova_mckernel_lab.Console.{Arg}
use nova_mckernel_lab.Base.{Option, List, ℕ, ◌≡◌, some, subst, sym}
use nova_mckernel_lab.Machine.{ok, ◌>>=◌}
use nova_mckernel_lab.Refines.{promised_ok}
use nova_mckernel_lab.Safe.{Safe-result}
use nova_mckernel_lab.Ec.{Regs, Ec}
use nova_mckernel_lab.Kernel.{Kernel, Control, put_ec}
use nova_mckernel_lab.Dispatch.{RawFrame, decode, handle_syscall}
use nova_mckernel_lab.Boot.{Loaded, bootstrap, root_invoke}
use nova_mckernel_lab.Safety.{IsIntact}
use nova_mckernel_lab.Safety.Memory.{put_ec-IsIntact}
use nova_mckernel_lab.Safety.Calls.{Allows, handle_syscall-IsIntact}
use nova_mckernel_lab.Safety.Start.{IsUnused, start-IsIntact}

-- The kernels, at points in user code, that a start from `k0` leads to: user code changes the registers
-- of its context, or makes a system call.
pub data Life (l : Loaded) (load_e addr : ℕ) (k0 : Kernel) : Kernel → Type 0 where
  starts :
      {k : Kernel}
      → (bootstrap load_e k0 addr >>= λ r. root_invoke l r.1) ≡ ok k
      → Life l load_e addr k0 k
  computes :
      {k' : Kernel} (k : Kernel) (e : Ec) (r : Regs) (u : ℕ → ℕ → Option (List ℕ × List Arg))
      → Life l load_e addr k0 k
      → k.ecs k.current ≡ some e
      → k' ≡ (let k1 = put_ec k k.current (record e { regs = r }) in record k1 { user = u })
      → Life l load_e addr k0 k'
  calls :
      {k' : Kernel} (k : Kernel) (f : RawFrame) (c : Control)
      → Life l load_e addr k0 k
      → Allows k (decode f)
      → handle_syscall k f ≡ ok (c, k')
      → Life l load_e addr k0 k'

user-IsIntact :
    (k : Kernel) (u : ℕ → ℕ → Option (List ℕ × List Arg))
    → IsIntact k
    → IsIntact (record k { user = u })
user-IsIntact k u h = record {
  kernel = h.kernel;
  contexts = h.contexts;
  domains = h.domains;
  queued = h.queued;
}

pub Life-IsIntact :
    (l : Loaded) (load_e addr : ℕ) (k0 k : Kernel)
    → IsUnused k0
    → Life l load_e addr k0 k
    → IsIntact k
Life-IsIntact l load_e addr k0 k h (starts e) = Safe-result (start-IsIntact l load_e addr k0 h) k e
Life-IsIntact l load_e addr k0 k h (computes k' e r u life at is_k) =
    let h' = Life-IsIntact l load_e addr k0 k' h life in
    let k1 = put_ec k' k'.current (record e { regs = r }) in
    subst IsIntact (sym is_k) (
      user-IsIntact k1 u
        (put_ec-IsIntact k' k'.current (record e { regs = r }) h' (h'.contexts k'.current e at)))
Life-IsIntact l load_e addr k0 k h (calls k' f c life a e) =
    promised_ok (λ (r : Control × Kernel). IsIntact r.1)
      (handle_syscall-IsIntact k' f (Life-IsIntact l load_e addr k0 k' h life) a).1 (c, k) e
