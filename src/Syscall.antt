-- ===== src/Syscall.antt =====
-- kern/include/syscall.h and kern/src/syscall.cc: the system calls. A handler takes the frame that the
-- caller passes in user memory; the fields past the number and `argc` are those of the structure that
-- the handler casts the frame to.
pub mod Delegation
pub mod Orderly
pub mod Creation
use nova_mckernel_lab.Base.{ℕ, zero, suc, Option, none, some, ltb, leb, ◌==◌, if◌then◌else◌, get_or}
use nova_mckernel_lab.Machine.{minus_one, add32, Outcome, ok, ◌>>=◌, deref}
use nova_mckernel_lab.Console.{vprintf}
use nova_mckernel_lab.Ec.{Ptr, null}
use nova_mckernel_lab.Scheduler.{yield, schedule, block, unblock, unblock_all}
use nova_mckernel_lab.Kalloc.{page_size, fill_0, alloc_page, virt2phys}
use nova_mckernel_lab.Pd.{Pd, max_caps, set_cap, get_cap, add_child, is_negative}
use nova_mckernel_lab.Ptab.{insert_mapping}
use nova_mckernel_lab.Kernel.{
  Kernel, returns, Handled, ec_at, pd_at, put_pd, print, set_eax, make_current, new_ec, new_domain,
  sys_dump, user_text, invalid_target_pd, no_capability,
}

-- The structures of the frames; `argc` is kept where a handler reads it.
pub data Frame : Type 0 where
  mmap : (n_pages virt_addr : ℕ) → Frame
  dump : Frame
  print_text : (fmt args : ℕ) → Frame
  create_ec : (argc eip esp priority capability target_pd : ℕ) → Frame
  yields : Frame
  blocks : (argc capability : ℕ) → Frame
  unblocks : (argc capability : ℕ) → Frame
  create_pd : Frame
  delegate_cap : (argc child_idx src_slot dst_slot : ℕ) → Frame
  ipc_send : (target_cap value : ℕ) → Frame
  ipc_recv : Frame
  unknown : (num : ℕ) → Frame

abbrev pub done : Kernel → Handled
done k = ok (returns, k)

-- `Ec::current->sys_regs()->eax = v; return`.
abbrev pub reply : Kernel → ℕ → Handled
reply k v = set_eax k k.current v >>= done

-- `Ec::current->pd`.
abbrev pub current_pd : Kernel → Outcome Ptr
current_pd k = ec_at k k.current >>= λ e. ok e.pd

-- The loop of `SyscallMmap::handle`, `n` pages from `virt` on left.
unfoldable pub mmap_pages : ℕ → ℕ → Kernel → Outcome Kernel
mmap_pages zero virt k = ok k
mmap_pages (suc n) virt k = do
  (page, kalloc', memory') ← alloc_page k.kalloc k.memory 1 fill_0
  (kalloc'', memory'') ←
      insert_mapping k.platform kalloc' memory' virt (virt2phys k.platform.offset page) 7
  mmap_pages n (add32 virt page_size) (record k { kalloc = kalloc''; memory = memory'' })

unfoldable pub handle_mmap : Kernel → ℕ → ℕ → Handled
unfolding mmap_pages
handle_mmap k n_pages virt_addr = mmap_pages n_pages virt_addr k >>= done

unfoldable pub handle_dump : Kernel → Handled
handle_dump k = do e ← ec_at k k.current; done (print (sys_dump k.current e.regs.esi e.regs.edi) k)

-- `SyscallPrint::handle`, on a console that is initialised: `vprintf` follows both pointers.
unfoldable pub handle_print : Kernel → ℕ → ℕ → Handled
handle_print k fmt args = do
  (format, values) ← deref (k.user fmt args)
  text ← deref (vprintf format values)
  done (print (user_text text) k)

-- `SyscallCreateEC::handle`.
unfoldable pub handle_create_ec : Kernel → ℕ → ℕ → ℕ → ℕ → ℕ → ℕ → Handled
handle_create_ec k argc eip esp priority capability target =
    if ltb argc 4
    then done k
    else (if leb max_caps target then reply (print (invalid_target_pd target) k) minus_one else (do
      own ← current_pd k
      caller_pd ← pd_at k own
      let target_pd = get_or caller_pd.children target null
      (ec, k1) ← new_ec k eip esp priority target_pd
      domain ← pd_at k1 target_pd
      let (granted, domain') = set_cap domain capability ec
      let k2 = put_pd k1 target_pd domain'
      if is_negative granted then done (print no_capability k2) else (do
        caller_pd' ← pd_at k2 own
        let (granted', caller_pd'') = set_cap caller_pd' capability ec
        let k3 = put_pd k2 own caller_pd''
        sched' ← schedule k3.ecs k3.sched ec
        reply (record k3 { sched = sched' }) granted')))

-- `Ec *next = …; if (next) next->make_current()`, on the scheduler that the call leaves.
abbrev pub switch_to : Kernel → Option Ptr → Handled → Handled
switch_to k none otherwise = otherwise
switch_to k (some p) otherwise = if p == null then otherwise else make_current k p

-- `SyscallYield::handle`.
unfoldable pub handle_yield : Kernel → Handled
handle_yield k = do
  (next, sched') ← yield k.ecs k.sched
  let k' = record k { sched = sched' }
  switch_to k' (some next) (done k')

-- `Ec::current->pd->get_cap (slot)`.
abbrev pub capability_of : Kernel → ℕ → Outcome Ptr
capability_of k slot = do own ← current_pd k; d ← pd_at k own; ok (get_cap d slot)

-- `SyscallBlock::handle`.
unfoldable pub handle_block : Kernel → ℕ → ℕ → Handled
handle_block k argc capability = do
  target ← if argc == 0 then ok k.current else capability_of k capability
  if target == null then done k else (do
    (next, sched') ← block k.ecs k.sched target
    let k' = record k { sched = sched' }
    switch_to k' next (done k'))

-- `SyscallUnblock::handle`.
unfoldable pub handle_unblock : Kernel → ℕ → ℕ → Handled
handle_unblock k argc capability =
    if argc == 0 then done (record k { sched = unblock_all k.sched }) else (do
      target ← capability_of k capability
      if target == null
          then done k
          else (do sched' ← unblock k.ecs k.sched target; done (record k { sched = sched' })))

-- `SyscallCreatePD::handle`.
unfoldable pub handle_create_pd : Kernel → Handled
handle_create_pd k = do
  own ← current_pd k
  (child, k1) ← new_domain k own
  if child == null then reply k1 minus_one else (do
    caller_pd ← pd_at k1 own
    let (idx, caller_pd') = add_child caller_pd child
    let k2 = put_pd k1 own caller_pd'
    if is_negative idx then reply k2 minus_one else reply k2 idx)

-- The end of `SyscallDelegateCap::handle`, from the child read on.
unfoldable pub delegate : Kernel → Pd → Ptr → ℕ → ℕ → Handled
delegate k caller_pd child src_slot dst_slot =
    if child == null
    then reply k minus_one
    else (let ec = get_cap caller_pd src_slot in
        if ec == null then reply k minus_one else (do
          child_pd ← pd_at k child
          let (result, child_pd') = set_cap child_pd dst_slot ec
          let k' = put_pd k child child_pd'
          if is_negative result then reply k' minus_one else reply k' 0))

-- `SyscallDelegateCap::handle`.
unfoldable pub handle_delegate_cap : Kernel → ℕ → ℕ → ℕ → ℕ → Handled
unfolding delegate
handle_delegate_cap k argc child_idx src_slot dst_slot =
    if ltb argc 3 then reply k minus_one else (do
      own ← current_pd k
      if leb max_caps child_idx then reply k minus_one else (do
        caller_pd ← pd_at k own
        delegate k caller_pd (get_or caller_pd.children child_idx null) src_slot dst_slot))
