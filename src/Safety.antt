-- ===== src/Safety.antt =====
-- What keeps the kernel from undefined behaviour: which pointers lead somewhere, and routines that do
-- not fault (kern/src/syscall.cc, kern/src/ec.cc).
pub mod Memory
pub mod Scheduling
pub mod Messages
pub mod Domains
pub mod Calls
pub mod Start
pub mod Life
use nova_mckernel_lab.Base.{ℕ, ◌<◌, ◌≡◌, ◌≢◌, ◌⊎◌, some, get_or}
use nova_mckernel_lab.Ec.{Ptr, null, Ec, Ecs}
use nova_mckernel_lab.Scheduler.{num_priorities}
use nova_mckernel_lab.Scheduler.Valid.{view}
use nova_mckernel_lab.Scheduler.Population.{held}
use nova_mckernel_lab.Pd.{Pd, Pds}
use nova_mckernel_lab.Pd.Caps.{IsPd}
use nova_mckernel_lab.Kernel.{Kernel}
use nova_mckernel_lab.Dispatch.Invariant.{IsKernel}

-- The pointer leads to a context, or to a domain.
abbrev pub Stored : Ecs → Ptr → Type 0
Stored ecs p = (e : Ec) × (ecs p ≡ some e)

abbrev pub Domain : Pds → Ptr → Type 0
Domain pds p = (d : Pd) × (pds p ≡ some d)

-- The scheduler has queues for the priorities of the context, the next sender in its list is there if
-- there is one, and so is its domain.
abbrev pub IsContext : Ecs → Pds → Ec → Type 0
IsContext ecs pds e =
    (e.priority < num_priorities)
    × (e.saved_priority < num_priorities)
    × ((e.pending_sender ≡ null) ⊎ Stored ecs e.pending_sender)
    × Domain pds e.pd

-- The tables of the domain have their size, and lead to contexts and domains.
abbrev pub IsDomain : Ecs → Pds → Pd → Type 0
IsDomain ecs pds d =
    IsPd d
    × ((i : ℕ) → (get_or d.caps i null ≡ null) ⊎ Stored ecs (get_or d.caps i null))
    × ((i : ℕ) → (get_or d.children i null ≡ null) ⊎ Domain pds (get_or d.children i null))

-- So it is for every context and domain in memory.
abbrev pub IsWired : Kernel → Type 0
IsWired k =
    ((p : Ptr) (e : Ec) → k.ecs p ≡ some e → IsContext k.ecs k.pds e)
    × ((p : Ptr) (d : Pd) → k.pds p ≡ some d → IsDomain k.ecs k.pds d)

-- The kernel's invariant holds, and every pointer that the kernel follows is null or leads somewhere.
pub record IsIntact (k : Kernel) : Type 0 where
  pub kernel : IsKernel k
  pub contexts : (p : Ptr) (e : Ec) → k.ecs p ≡ some e → IsContext k.ecs k.pds e
  pub domains : (p : Ptr) (d : Pd) → k.pds p ≡ some d → IsDomain k.ecs k.pds d
  pub queued : (p : Ptr) → p ≢ null → 0 < held p (view k.sched) → Stored k.ecs p
