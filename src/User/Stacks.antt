-- ===== src/User/Stacks.antt =====
-- The stacks that the pool of user programs hands out (user/src/mempool.cc), and the page faults that the
-- kernel takes for overflows of a stack (`Ec::handle_exc`, kern/src/ec.cc).
use nova_mckernel_lab.Base.{
  ℕ, zero, suc, ◌+◌, ◌*◌, ◌≤◌, ◌<◌, ◌≡◌, refl, ◌⊎◌, inl, inr, Bool-cases, [], ◌∷◌, arith, ltb,
}
use nova_mckernel_lab.Machine.{word_mod, add32, panic, page_fault}
use nova_mckernel_lab.Ec.{Regs}
use nova_mckernel_lab.Kalloc.{page_size}
use nova_mckernel_lab.Exception.{handle_exc, user_heap_start}
use nova_mckernel_lab.Exception.Guards.{InGuard, handle_exc-InGuard}
use nova_mckernel_lab.User.{
  UserMemPool, alloc_stack, syscall, build_frame, ◌>>=◌, exec, returned, pool_stack_size, no_stack,
}

-- The `n`-th stack of a pool, from 0 on: a guard page, and a page above it.
abbrev pub guard_page : UserMemPool → ℕ → ℕ
guard_page p n = p.begin + n * pool_stack_size

-- In a heap below the end of memory, a stack is handed out exactly if the heap has room for it: two
-- pages. The upper one is mapped, with one call, and its end is returned; the lower one is not, and is
-- below the next stack. Without room the program prints, returns null, and changes nothing.
alloc_stack_lem :
    (p : UserMemPool) (v : ℕ)
    → p.end + pool_stack_size < word_mod
    → p.begin ≤ p.end
    → let r = exec (alloc_stack p) (v ∷ []) in
      ((p.begin + pool_stack_size ≤ p.end)
        × (r.asked ≡ build_frame 0 (1 ∷ (p.begin + page_size) ∷ []) ∷ [])
        × (r.end
            ≡ returned (p.begin + pool_stack_size, record p { begin = p.begin + pool_stack_size })))
      ⊎ ((p.end < p.begin + pool_stack_size)
          × (r.asked ≡ [])
          × (r.said ≡ (no_stack, p.begin ∷ p.end ∷ []) ∷ [])
          × (r.end ≡ returned (0, p)))
unfolding alloc_stack syscall ◌>>=◌ exec
alloc_stack_lem p v top h =
    let size : add32 p.begin pool_stack_size ≡ p.begin + pool_stack_size = omega arith in
    let page : add32 p.begin page_size ≡ p.begin + page_size = omega arith in
    elim (Bool-cases (ltb p.end (p.begin + pool_stack_size))) [
      | inl full ↦ rw (size, full) (inr (ground (arith, full), refl, refl, refl))
      | inr room ↦ rw (size, page, room) (inl (ground (arith, room), refl, refl))
    ]

-- From a heap where the linker puts it (kern/include/memory.h), a fault in the guard page of the `n`-th
-- stack, from the second to the 1024-th, ends in the panic of a page fault and not of a stack overflow.
pub guard_page-unnoticed :
    (p : UserMemPool) (n : ℕ) (r : Regs)
    → p.begin ≡ user_heap_start
    → 1 ≤ n
    → n < 1024
    → r.vec ≡ 14
    → guard_page p n ≤ r.cr2
    → r.cr2 < guard_page p n + page_size
    → handle_exc r ≡ panic page_fault
guard_page-unnoticed p n r start some_n few vec lo hi = elim (handle_exc-InGuard r vec) [
  | inl (e, g) ↦ absurd (outside g)
  | inr (e, g) ↦ e
]
  where
    outside : ¬ InGuard r.cr2
    outside (inl (a, b)) = omega arith
    outside (inr (zero, k, a, b)) = omega arith
    outside (inr (suc m, k, a, b)) = omega arith
