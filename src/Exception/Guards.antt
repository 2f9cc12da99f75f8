-- ===== src/Exception/Guards.antt =====
-- Which faults `Ec::handle_exc` (kern/src/ec.cc) takes for an overflow of a stack.
use nova_mckernel_lab.Base.{
  ℕ, ◌+◌, ◌-◌, ◌*◌, ◌/◌, ◌%◌, ◌≤◌, ◌<◌, ◌≡◌, refl, ◌⊎◌, inl, inr, ◌↔◌, true, Bool-cases, ◌||◌,
  arith,
}
use nova_mckernel_lab.Machine.{panic, stack_overflow, page_fault}
use nova_mckernel_lab.Ec.{Regs}
use nova_mckernel_lab.Kalloc.{page_size}
use nova_mckernel_lab.Exception.{
  handle_exc, handle_exc_ts, is_main_stack_guard, is_heap_stack_guard, user_heap_start,
  user_heap_end, user_main_stack_start, user_stack_size,
}

-- The address lies in the lowest page of the main stack, or of the `n`-th stack of the heap.
abbrev pub InGuard : ℕ → Type 0
InGuard a =
    ((user_main_stack_start ≤ a) × (a < user_main_stack_start + page_size))
    ⊎ ((n : ℕ) × (n < 16)
        × (user_heap_start + n * user_stack_size ≤ a)
        × (a < user_heap_start + n * user_stack_size + page_size))

guarded : (a : ℕ) → ((is_main_stack_guard a || is_heap_stack_guard a) ≡ true) ↔ InGuard a
guarded a = (to, from)
  where
    to : (is_main_stack_guard a || is_heap_stack_guard a) ≡ true → InGuard a
    to e = elim (Bool-cases (is_main_stack_guard a)) [
      | inl main ↦ inl (ground arith)
      | inr heap ↦
          let below : (a - user_heap_start) % user_stack_size < page_size = ground arith in
          let above : (user_heap_start ≤ a) × (a < user_heap_end) = ground arith in
          inr ((a - user_heap_start) / user_stack_size, omega arith, omega arith, omega arith)
    ]

    from : InGuard a → (is_main_stack_guard a || is_heap_stack_guard a) ≡ true
    from (inl (lo, hi)) = ground arith
    from (inr (n, few, lo, hi)) =
        let below : (a - user_heap_start) % user_stack_size < page_size = omega arith in
        let heap : is_heap_stack_guard a ≡ true = ground (arith, below) in ground (arith, heap)

-- A page fault ends in the panic of a stack overflow exactly when its address lies in the lowest page
-- of the main stack or of one of the sixteen stacks of the heap; else in the panic of a page fault.
pub handle_exc-InGuard :
    (r : Regs)
    → r.vec ≡ 14
    → ((handle_exc r ≡ panic stack_overflow) × InGuard r.cr2)
      ⊎ ((handle_exc r ≡ panic page_fault) × (¬ InGuard r.cr2))
unfolding handle_exc handle_exc_ts
handle_exc-InGuard r at =
    elim (Bool-cases (is_main_stack_guard r.cr2 || is_heap_stack_guard r.cr2)) [
      | inl inside ↦ inl (rw (at, inside) refl, (guarded r.cr2).0 inside)
      | inr outside ↦ inr (rw (at, outside) refl, λ g. cc ((guarded r.cr2).1 g))
    ]
