-- ===== src/Examples/Messages.antt =====
-- The theorems on waiting senders and on new contexts (kern/src/syscall.cc) at a concrete kernel.
use nova_mckernel_lab.Base.{
  ◌≡◌, ◌⊎◌, ◌≢◌, refl, inl, inr, [], ◌∷◌, ◌==◌, if◌then◌else◌, some, none, arith,
}
use nova_mckernel_lab.Machine.{ok, panic, no_runnable}
use nova_mckernel_lab.Ec.{Ptr, null, Ecs, store_ec}
use nova_mckernel_lab.Kalloc.{alloc}
use nova_mckernel_lab.Pd.{get_cap}
use nova_mckernel_lab.Kernel.{Control, Kernel, returns}
use nova_mckernel_lab.Syscall.{handle_create_ec}
use nova_mckernel_lab.Syscall.Orderly.{IsOrderly}
use nova_mckernel_lab.Syscall.Creation.{Ends, create_ec-Ends}
use nova_mckernel_lab.Ipc.{handle_ipc_send, handle_ipc_recv}
use nova_mckernel_lab.Ipc.Delivery.{answer}
use nova_mckernel_lab.Ipc.Links.{Waits, Among}
use nova_mckernel_lab.Ipc.Fast.{Runs, moved-Runs}
use nova_mckernel_lab.Ipc.Slow.{send-Waits_or_stops}
use nova_mckernel_lab.Examples.Calls.{kernel-Runs}
use nova_mckernel_lab.Ipc.Total.{recv-Waits}
use nova_mckernel_lab.Examples.{kernel, busy, context, parent_pd, child_pd, pool}

-- The first context runs; another waits for the second.
abbrev sends : Ecs
sends =
    store_ec (store_ec kernel.ecs 2000 (context 0 4000 5000)) 4000
      (record (context 1 null 5000) { ipc_val = 7 })

abbrev sending : Kernel
sending = record kernel { ecs = sends }

apart : (s : Ptr) → Among s ((4000, 7) ∷ []) → (s ≢ 1000) × (s ≢ 2000)
apart s (inl e) = ((λ z. absurd (omega arith)), λ z. absurd (omega arith))
apart s (inr e) = absurd e

sending-Runs : Runs sending
sending-Runs =
    let first = context 0 4000 5000 in
    let second = record (context 1 null 5000) { ipc_val = 7 } in
    let h =
      moved-Runs kernel 2000 first (store_ec kernel.ecs 2000 first) busy kernel-Runs (omega arith)
        refl kernel-Runs.sound refl λ q some_q. refl in
    moved-Runs (record kernel { ecs = store_ec kernel.ecs 2000 first }) 4000 second sends busy h
      (omega arith) refl kernel-Runs.sound refl λ q some_q. refl

send-Waits_or_stops_example :
    ((r : Control × Kernel) × (handle_ipc_send sending 1 99 ≡ ok r)
      × Waits r.1.ecs 2000 ((1000, 99) ∷ (4000, 7) ∷ []))
    ⊎ (handle_ipc_send sending 1 99 ≡ panic no_runnable)
unfolding get_cap
send-Waits_or_stops_example =
    send-Waits_or_stops sending 1 2000 99 (context 0 4000 5000) ((4000, 7) ∷ []) sending-Runs refl
      (λ e. absurd (omega arith)) refl (omega arith) (λ e. absurd (omega arith)) apart
      (refl, (λ e. absurd (omega arith)), refl, refl)

-- Two contexts wait for the first, which had been given a higher priority.
abbrev receives : Ecs
receives p =
    if p == 1000
    then some (record (context 0 2000 5000) { saved_priority = 1 })
    else (if p == 2000
        then some (record (context 0 4000 5000) { ipc_val = 99 })
        else (if p == 4000 then some (record (context 1 null 5000) { ipc_val = 7 }) else none))

abbrev receiving : Kernel
receiving = record kernel { ecs = receives }

other : (a : Ptr) → Among a ((2000, 99) ∷ (4000, 7) ∷ []) → a ≢ 1000
other a (inl e) = λ z. absurd (omega arith)
other a (inr (inl e)) = λ z. absurd (omega arith)
other a (inr (inr e)) = absurd e

recv-Waits_example :
    (k' : Kernel) × (handle_ipc_recv receiving ≡ ok (returns, k'))
    × (answer k'.ecs 1000 ≡ some 99)
    × Waits k'.ecs 1000 ((4000, 7) ∷ [])
recv-Waits_example =
    recv-Waits receiving (record (context 0 2000 5000) { saved_priority = 1 })
      (record (context 0 4000 5000) { ipc_val = 99 }) 2000 99 ((4000, 7) ∷ []) other
      (refl, (λ e. absurd (omega arith)), refl, (refl, (λ e. absurd (omega arith)), refl, refl))
      refl refl (omega arith, omega arith) (omega arith, omega arith) refl

-- `create_ec (…)` with priority 10, as the main program calls it, for slot 1 of the first child.
orderly : IsOrderly kernel 5 1 0 0x1f_ff98
unfolding alloc get_cap
orderly = record {
  caller = context 0 null 5000;
  own = parent_pd;
  child = child_pd;
  pool = record pool { end = 0x1f_ff98 };
  enough = omega arith;
  inside = omega arith;
  caller_at = refl;
  own_at = refl;
  child_at = refl;
  apart = λ e. absurd (omega arith);
  allocated = refl;
  new = λ e. absurd (omega arith);
  slot_inside = omega arith;
  slot_free = refl;
  queues = refl;
  busy = λ e. absurd (omega arith);
  own_pd = record { caps_size = refl; children_size = refl };
  child_pd = record { caps_size = refl; children_size = refl };
  rings = omega arith;
}

create_ec-Ends_example :
    Ends kernel 5 0x1000 0x6000 10 1 0 0x1f_ff98 orderly
      (handle_create_ec kernel 5 0x1000 0x6000 10 1 0)
create_ec-Ends_example = create_ec-Ends kernel 5 0x1000 0x6000 10 1 0 0x1f_ff98 orderly
