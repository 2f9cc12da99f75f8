-- ===== src/Examples/Lives.antt =====
-- The theorems on what the kernel never does (kern/src/ec.cc, kern/src/syscall.cc) after a concrete
-- start, and after a call that creates a domain.
use nova_mckernel_lab.Base.{Bool, true, false, [], ◌∷◌}
use nova_mckernel_lab.Machine.{ok, panic, fault}
use nova_mckernel_lab.Kernel.{Kernel, Handled, returns}
use nova_mckernel_lab.Dispatch.{RawFrame, handle_syscall}
use nova_mckernel_lab.Safety.Life.{Life}
use nova_mckernel_lab.Examples.Start.{fresh, started, kernel_of}

-- `create_pd`, and then `create_ec` for slot 1 of the new domain, with priority 1.
abbrev makes_domain : RawFrame
makes_domain = record { num = 7; argc = 0; argv = [] }

abbrev makes_context : RawFrame
makes_context = record { num = 3; argc = 5; argv = 0x2000 ∷ 0x9000 ∷ 1 ∷ 1 ∷ 0 ∷ [] }

abbrev left_by : Handled → Kernel
left_by (ok (c, k)) = k
left_by (panic p) = fresh
left_by fault = fresh

abbrev comes_back : Handled → Bool
comes_back (ok (returns, k)) = true
comes_back r = false

abbrev first : Kernel
first = kernel_of started

abbrev second : Handled
second = handle_syscall first makes_domain
