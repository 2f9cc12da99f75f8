-- ===== src/Ipc.antt =====
-- The message passing of kern/src/syscall.cc. `pending_sender` of a context heads the list of those
-- that wait to send to it, each linked to the next by its own `pending_sender`; a context that waits
-- for a message points to itself.
pub mod Delivery
pub mod Links
pub mod Waiting
pub mod Total
pub mod Fast
pub mod Blocking
pub mod Slow
use nova_mckernel_lab.Base.{ℕ, some, not, ◌&&◌, ltb, ◌==◌, if◌then◌else◌}
use nova_mckernel_lab.Machine.{minus_one, Outcome, ok, fault, ◌>>=◌}
use nova_mckernel_lab.Ec.{Ptr, null, Ec}
use nova_mckernel_lab.Scheduler.{yield, block, unblock, reprioritize}
use nova_mckernel_lab.Kernel.{Kernel, Handled, ec_at, put_ec, print, with_eax, no_receiver}
use nova_mckernel_lab.Syscall.{done, reply, capability_of, switch_to}

-- `sched.reprioritize (p, prio)`.
abbrev pub change_priority : Kernel → Ptr → ℕ → Outcome Kernel
change_priority k p prio = do
  (ecs', sched') ← reprioritize k.ecs k.sched p prio
  ok (record k { ecs = ecs'; sched = sched' })

-- The receiver waits: it is given the value, and the sender yields.
unfoldable pub send_now : Kernel → Ptr → Ec → ℕ → Handled
send_now k target t value = do
  let k1 = put_ec k target (with_eax (record t { pending_sender = null }) value)
  sched1 ← unblock k1.ecs k1.sched target
  (next, sched2) ← yield k1.ecs sched1
  switch_to (record k1 { sched = sched2 }) (some next) fault

-- `if (caller->priority < target->priority) …`: the target runs at the caller's priority.
unfoldable pub inherit_priority : Kernel → Ptr → Ptr → Outcome Kernel
inherit_priority k caller target = do
  c ← ec_at k caller
  t ← ec_at k target
  if ltb c.priority t.priority
      then change_priority (put_ec k target (record t { saved_priority = t.priority })) target
          c.priority
      else ok k

-- The caller goes to the front of the target's list.
unfoldable pub register : Kernel → Ptr → Ptr → Outcome Kernel
register k caller target = do
  t ← ec_at k target
  c ← ec_at k caller
  let k' = put_ec k caller (record c { pending_sender = t.pending_sender })
  t' ← ec_at k' target
  ok (put_ec k' target (record t' { pending_sender = caller }))

-- `Ec *next = sched.block (caller); if (next) next->make_current(); UNREACHED`.
unfoldable pub block_caller : Kernel → Handled
block_caller k = do
  (next, sched') ← block k.ecs k.sched k.current
  switch_to (record k { sched = sched' }) next fault

-- The receiver is not ready.
unfoldable pub send_later : Kernel → Ptr → ℕ → Handled
unfolding inherit_priority register block_caller
send_later k target value = do
  c ← ec_at k k.current
  k1 ← inherit_priority (put_ec k k.current (record c { ipc_val = value })) k.current target
  k2 ← register k1 k.current target
  block_caller k2

-- `SyscallIpcSend::handle`.
unfoldable pub handle_ipc_send : Kernel → ℕ → ℕ → Handled
unfolding send_now send_later
handle_ipc_send k target_cap value = do
  target ← capability_of k target_cap
  if target == null then reply (print (no_receiver target_cap) k) minus_one else (do
    t ← ec_at k target
    if t.pending_sender == target then send_now k target t value else send_later k target value)

-- `sched.reprioritize (caller, caller->saved_priority); caller->saved_priority = 0`.
unfoldable pub restore_priority : Kernel → Ptr → ℕ → Outcome Kernel
restore_priority k p saved = do
  k' ← change_priority k p saved
  e ← ec_at k' p
  ok (put_ec k' p (record e { saved_priority = 0 }))

-- A sender waits: its value is taken, and it may run again.
unfoldable pub recv_now : Kernel → Ec → Handled
unfolding restore_priority
recv_now k c = do
  let sender = c.pending_sender
  s ← ec_at k sender
  let c' = record c { pending_sender = s.pending_sender }
  let k1 = put_ec k k.current (with_eax c' s.ipc_val)
  k2 ←
      if c'.pending_sender == null && not (c'.saved_priority == 0)
      then restore_priority k1 k1.current c'.saved_priority
      else ok k1
  sched' ← unblock k2.ecs k2.sched sender
  done (record k2 { sched = sched' })

-- No sender waits: the caller does.
unfoldable pub recv_later : Kernel → Ec → Handled
unfolding restore_priority block_caller
recv_later k c = do
  k1 ← if c.saved_priority == 0 then ok k else restore_priority k k.current c.saved_priority
  c' ← ec_at k1 k1.current
  block_caller (put_ec k1 k1.current (record c' { pending_sender = k1.current }))

-- `SyscallIpcRecv::handle`.
unfoldable pub handle_ipc_recv : Kernel → Handled
unfolding recv_now recv_later
handle_ipc_recv k = do
  c ← ec_at k k.current
  if not (c.pending_sender == null) && not (c.pending_sender == k.current)
      then recv_now k c
      else recv_later k c
