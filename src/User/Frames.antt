-- ===== src/User/Frames.antt =====
-- The frames that user code builds (user/include/syscall.h) are the calls that the kernel reads
-- (kern/include/syscall.h).
use nova_mckernel_lab.Base.{
  ℕ, zero, suc, ◌++◌, replicate, ◌≤◌, ◌<◌, ◌≡◌, refl, List, [], ◌∷◌, Option, none, some, get_or,
  length, arith, map, ltb, Bool-cases, inl, inr, ◌==◌, ◌+◌, ◌*◌, false, if◌then◌else◌,
}
use nova_mckernel_lab.Machine.{word_mod, add32, minus_one}
use nova_mckernel_lab.Kalloc.{page_size}
use nova_mckernel_lab.Syscall.{
  Frame, mmap, print_text, create_ec, yields, blocks, unblocks, create_pd, delegate_cap, ipc_send,
  ipc_recv,
}
use nova_mckernel_lab.Dispatch.{arg, decode}
use nova_mckernel_lab.User.{
  Program, returns, asks, says, hangs, repeats, va_nargs, build_frame, syscall, user_create_pd,
  user_delegate_cap, user_ipc_send, user_ipc_recv, user_yield, user_block, user_block_other,
  user_unblock, user_unblock_other, user_printf, user_create_ec, UserMemPool, pool_stack_size,
  alloc_stack, exec, returned, ◌>>=◌,
}

-- The call that a program makes next, as the kernel reads it.
abbrev pub request : {A : Type 0} → Program A → Option Frame
request (asks c k) = some (decode c)
request (returns a) = none
request (says t vs p) = none
request hangs = none
request (repeats c) = some (decode c)

-- The calls of a run, as the kernel reads them.
abbrev pub requests : {A : Type 0} → Program A → List ℕ → List Frame
requests p answers = map decode (exec p answers).asked

-- Whatever the arguments, each call by name reaches the kernel as the call of that name, with as many
-- arguments as the handlers demand and each in its place; `block` and `unblock` of the caller have
-- none. `create_ec`, where the next stack ends below the end of memory, asks for a page of it above a
-- guard page, and then for the context with the end of the stack, and returns what the kernel answers;
-- if the stack would end above the heap, it asks for nothing and returns -1.
pub user_calls-decode :
    (a b c : ℕ) (p : UserMemPool) (func priority slot target v r : ℕ)
    → p.begin + 2 * page_size < word_mod
    → let top = p.begin + 2 * page_size in
      let creates = user_create_ec p func priority slot target in
      (request user_create_pd ≡ some create_pd)
      × (request (user_delegate_cap a b c) ≡ some (delegate_cap 3 a b c))
      × (request (user_ipc_send a b) ≡ some (ipc_send a b))
      × (request user_ipc_recv ≡ some ipc_recv)
      × (request user_yield ≡ some yields)
      × (request user_block ≡ some (blocks 0 0))
      × (request (user_block_other a) ≡ some (blocks 1 a))
      × (request user_unblock ≡ some (unblocks 0 0))
      × (request (user_unblock_other a) ≡ some (unblocks 1 a))
      × (request (user_printf a b) ≡ some (print_text a b))
      × (requests creates (v ∷ r ∷ []) ≡ (
          if ltb p.end top
          then []
          else mmap 1 (p.begin + page_size) ∷ create_ec 5 func top priority slot target ∷ []))
      × ((exec creates (v ∷ r ∷ [])).end
          ≡ returned (if ltb p.end top then (minus_one, p) else (r, record p { begin = top })))
unfolding syscall build_frame decode user_create_ec alloc_stack exec ◌>>=◌
user_calls-decode a b c p func priority slot target v r small =
    let next : add32 p.begin pool_stack_size ≡ p.begin + 2 * page_size = omega (arith, small) in
    let page : add32 p.begin page_size ≡ p.begin + page_size = omega (arith, small) in
    let made : (p.begin + 2 * page_size == 0) ≡ false = ground arith in
    let cases = Bool-cases (ltb p.end (p.begin + 2 * page_size)) in
    (
      refl,
      refl,
      refl,
      refl,
      refl,
      refl,
      refl,
      refl,
      refl,
      refl,
      elim cases [ inl over ↦ rw (next, over) refl | inr free ↦ rw (next, free, made, page) refl ],
      elim cases [ inl over ↦ rw (next, over) refl | inr free ↦ rw (next, free, made) refl ],
    )

-- Zeros behind a list are what is read there anyway.
padding : (n j : ℕ) → get_or (replicate n 0) j zero ≡ zero
padding zero j = refl
padding (suc n) zero = refl
padding (suc n) (suc j) = padding n j

get_or-padding : (args : List ℕ) (n i : ℕ) → get_or (args ++ replicate n 0) i 0 ≡ get_or args i 0
get_or-padding [] n i = padding n i
get_or-padding (a ∷ args) n zero = refl
get_or-padding (a ∷ args) n (suc i) = get_or-padding args n i

va_nargs-length : (args : List ℕ) → length args ≤ 5 → va_nargs args ≡ length args
va_nargs-length [] h = refl
va_nargs-length (a ∷ []) h = refl
va_nargs-length (a ∷ b ∷ []) h = refl
va_nargs-length (a ∷ b ∷ c ∷ []) h = refl
va_nargs-length (a ∷ b ∷ c ∷ d ∷ []) h = refl
va_nargs-length (a ∷ b ∷ c ∷ d ∷ e ∷ []) h = refl
va_nargs-length (a ∷ b ∷ c ∷ d ∷ e ∷ f ∷ rest) h = absurd (omega arith)

arg-get_or :
    (num : ℕ) (args : List ℕ) (i : ℕ) → i < 5 → arg (build_frame num args) i ≡ get_or args i 0
unfolding build_frame
arg-get_or num args zero h = get_or-padding args 5 0
arg-get_or num args (suc zero) h = get_or-padding args 5 1
arg-get_or num args (suc (suc zero)) h = get_or-padding args 5 2
arg-get_or num args (suc (suc (suc zero))) h = get_or-padding args 5 3
arg-get_or num args (suc (suc (suc (suc zero)))) h = get_or-padding args 5 4
arg-get_or num args (suc (suc (suc (suc (suc i))))) h = absurd (omega arith)

-- With five arguments at most, a frame has their number, and in each of its five places the argument
-- or zero.
pub build_frame_lem :
    (num : ℕ) (args : List ℕ) (i : ℕ)
    → length args ≤ 5
    → i < 5
    → ((build_frame num args).argc ≡ length args) × (arg (build_frame num args) i ≡ get_or args i 0)
unfolding build_frame
build_frame_lem num args i few small = (va_nargs-length args few, arg-get_or num args i small)
