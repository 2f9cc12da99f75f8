-- ===== src/Examples/Calls.antt =====
-- The theorems on the system calls (kern/src/syscall.cc) at a concrete kernel.
use nova_mckernel_lab.Base.{◌≡◌, refl, inl, inr, Bool-cases, some, [], ◌∷◌, arith, ◌==◌, subst}
use nova_mckernel_lab.Ec.{Ptr, store_ec}
use nova_mckernel_lab.Pd.{Pd, get_cap}
use nova_mckernel_lab.Pd.Caps.{IsPd}
use nova_mckernel_lab.Machine.{ok}
use nova_mckernel_lab.Kernel.{Control, Kernel, with_eax}
use nova_mckernel_lab.Syscall.{handle_delegate_cap}
use nova_mckernel_lab.Syscall.Delegation.{Delegates, delegate_cap-Delegates}
use nova_mckernel_lab.Ipc.{handle_ipc_send}
use nova_mckernel_lab.Ipc.Fast.{IsStored, Runs, send-Switched}
use nova_mckernel_lab.Dispatch.{RawFrame}
use nova_mckernel_lab.Dispatch.Invariant.{IsKernel}
use nova_mckernel_lab.Examples.{kernel, context, two_pds, parent_pd, child_pd}
use nova_mckernel_lab.Examples.Scheduling.{busy-IsValid}
use nova_mckernel_lab.Examples.Tables.{parent-IsPd, child-IsPd}

kernel-IsKernel : IsKernel kernel
kernel-IsKernel = (
  record { valid = busy-IsValid; clean = refl },
  refl,
  (λ e. absurd (omega arith)),
  (omega arith, omega arith, omega arith),
)

-- `create_ec (…)` with priority 1, for slot 4 of the first child.
abbrev creates : RawFrame
creates = record { num = 3; argc = 5; argv = 0x1000 ∷ 0x2000 ∷ 1 ∷ 4 ∷ 0 ∷ [] }

two_pds-IsPd : (p : Ptr) (x : Pd) → two_pds p ≡ some x → IsPd x
two_pds-IsPd p x e = elim (Bool-cases (p == 5000)) [
  | inl first ↦ let same : parent_pd ≡ x = ground (arith, first, e) in subst IsPd same parent-IsPd
  | inr other ↦ elim (Bool-cases (p == 6000)) [
    | inl second ↦
        let same : child_pd ≡ x = ground (arith, other, second, e) in subst IsPd same child-IsPd
    | inr neither ↦ absurd (ground (arith, other, neither, e))
  ]
]

delegate_cap-Delegates_example :
    (r : Control × Kernel) × (handle_delegate_cap kernel 3 0 1 2 ≡ ok r)
    × Delegates kernel (context 0 0 5000) parent_pd 0 1 2 r
delegate_cap-Delegates_example =
    delegate_cap-Delegates kernel (context 0 0 5000) parent_pd 3 0 1 2 refl refl two_pds-IsPd
      λ some_child. (child_pd, refl)

-- Two contexts wait in `busy`, and one runs.
busy-IsStored : IsStored kernel
busy-IsStored p some_p waits = elim (Bool-cases (p == 1000)) [
  | inl first ↦ (context 0 0 5000, rw first refl)
  | inr not_first ↦ elim (Bool-cases (p == 2000)) [
    | inl second ↦ (context 0 0 5000, rw (not_first, second) refl)
    | inr not_second ↦ elim (Bool-cases (p == 3000)) [
      | inl third ↦ (context 1 3000 6000, rw (not_first, not_second, third) refl)
      | inr not_third ↦ absurd (ground (arith, waits, not_first, not_second, not_third))
    ]
  ]
]

pub kernel-Runs : Runs kernel
kernel-Runs = record {
  sound = kernel-IsKernel.0;
  runs = refl;
  some_current = λ e. absurd (omega arith);
  current = context 0 0 5000;
  current_at = refl;
  ranked = omega arith;
  stored = busy-IsStored;
}

-- The third waits for a message.
send-Switched_example :
    (r : Control × Kernel) × (handle_ipc_send kernel 2 99 ≡ ok r)
    × (r.1.ecs ≡ store_ec kernel.ecs 3000 (with_eax (context 1 0 6000) 99))
    × (r.1.current ≡ r.1.sched.current_ec)
unfolding get_cap
send-Switched_example =
    send-Switched kernel 2 3000 99 (context 1 3000 6000) kernel-Runs refl
      (λ e. absurd (omega arith)) refl refl (omega arith)
