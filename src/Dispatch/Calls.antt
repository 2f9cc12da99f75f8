-- ===== src/Dispatch/Calls.antt =====
-- Every system call keeps the kernel's invariant: the message passing (kern/src/syscall.cc), and all
-- handlers together as `Ec::handle_syscall` (kern/src/ec.cc) runs them.
use nova_mckernel_lab.Ptab.{link_addr}
use nova_mckernel_lab.Kalloc.{page_size}
use nova_mckernel_lab.Base.{◌+◌, ◌*◌, ◌≤◌}
use nova_mckernel_lab.Ec.{Ec}
use nova_mckernel_lab.Kernel.{Kernel}
use nova_mckernel_lab.Syscall.{Frame, mmap, create_ec}
use nova_mckernel_lab.Dispatch.Invariant.{HasSpace}

-- Making a context needs space for it, and `mmap` is for the addresses of the user.
abbrev pub Admits : Kernel → Frame → Type 0
Admits k (create_ec argc eip esp priority capability target_pd) = HasSpace k
Admits k (mmap n virt) = virt + n * page_size ≤ link_addr
Admits k f = Unit {0}
