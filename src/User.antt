-- ===== src/User.antt =====
-- What user programs are made of: the frames of system calls (user/include/syscall.h) and the calls by
-- name (user/include/ec.h, ipc.h, pd.h, stdio.h), and the pool of stacks (user/src/mempool.cc). A
-- program is a tree: after a system call it goes on with what the kernel leaves in `eax`. What `printf`
-- asks the kernel to print is kept as the text and its values, since the frame has only addresses.
pub mod Tasks
pub mod Frames
pub mod Stacks
pub mod Rounds
pub mod Main
use nova_mckernel_lab.Base.{
  ℕ, ◌+◌, ◌*◌, ◌==◌, List, [], ◌∷◌, ◌++◌, get_or, length, ltb, if◌then◌else◌,
}
use nova_mckernel_lab.Machine.{add32, minus_one}
use nova_mckernel_lab.Kalloc.{page_size}
use nova_mckernel_lab.Dispatch.{RawFrame}

-- The texts that the programs print.
pub data Text : Type 0 where
  reducer_started reducer_received reducer_collected send_failed : Text
  mapper_started mapper_mapped mapper_sends : Text
  main_started no_domains no_reducer no_mapper mapper_created main_sends main_send_failed
        main_result :
      Text
  no_stack : Text

-- A program that ends with a value, if it ends: it makes a system call, prints, loops forever without
-- a call (`while (1);`), or makes the same call forever.
pub data Program (A : Type 0) : Type 0 where
  returns : A → Program A
  asks : RawFrame → (ℕ → Program A) → Program A
  says : Text → List ℕ → Program A → Program A
  hangs : Program A
  repeats : RawFrame → Program A

infixl 5 ◌>>=◌
unfoldable pub ◌>>=◌ : {A B : Type 0} → Program A → (A → Program B) → Program B
returns a >>= f = f a
asks c k >>= f = asks c λ v. k v >>= f
says t vs p >>= f = says t vs (p >>= f)
hangs >>= f = hangs
repeats c >>= f = repeats c

-- `VA_NARGS`: the number that lands behind five arguments and what is appended to them.
abbrev pub va_nargs : List ℕ → ℕ
va_nargs args = get_or (args ++ (5 ∷ 4 ∷ 3 ∷ 2 ∷ 1 ∷ 0 ∷ [])) 5 0

-- `_SYSCALL_EXPAND`: the frame of the number and the first five of the arguments and the zeros.
unfoldable pub build_frame : ℕ → List ℕ → RawFrame
build_frame num args =
    let a = λ (i : ℕ). get_or (args ++ (0 ∷ 0 ∷ 0 ∷ 0 ∷ 0 ∷ [])) i 0 in
    record { num = num; argc = va_nargs args; argv = a 0 ∷ a 1 ∷ a 2 ∷ a 3 ∷ a 4 ∷ [] }

-- `syscall`, whose value is `eax`.
unfoldable pub syscall : ℕ → List ℕ → Program ℕ
unfolding build_frame
syscall num args = asks (build_frame num args) λ v. returns v

-- `pd.h` and `ipc.h`.
abbrev pub user_create_pd : Program ℕ
user_create_pd = syscall 7 []

abbrev pub user_delegate_cap : ℕ → ℕ → ℕ → Program ℕ
user_delegate_cap child_idx src_slot dst_slot = syscall 8 (child_idx ∷ src_slot ∷ dst_slot ∷ [])

abbrev pub user_ipc_send : ℕ → ℕ → Program ℕ
user_ipc_send cap_slot value = syscall 9 (cap_slot ∷ value ∷ [])

abbrev pub user_ipc_recv : Program ℕ
user_ipc_recv = syscall 10 []

-- `ec.h`: `yield`, and `block` and `unblock` of the caller and of a context.
abbrev pub user_yield : Program ℕ
user_yield = syscall 4 []

abbrev pub user_block : Program ℕ
user_block = syscall 5 []

abbrev pub user_block_other : ℕ → Program ℕ
user_block_other tid = syscall 5 (tid ∷ [])

abbrev pub user_unblock : Program ℕ
user_unblock = syscall 6 []

abbrev pub user_unblock_other : ℕ → Program ℕ
user_unblock_other tid = syscall 6 (tid ∷ [])

-- `printf` (`stdio.h`), of the addresses of the format and of the values.
abbrev pub user_printf : ℕ → ℕ → Program ℕ
user_printf fmt args = syscall 2 (fmt ∷ args ∷ [])

-- `symbols.h`.
abbrev pub pool_stack_pages : ℕ
pool_stack_pages = 1

abbrev pub pool_stack_size : ℕ
pool_stack_size = (pool_stack_pages + 1) * page_size

-- `class UserMemPool`. The linker gives the heap's bounds.
pub record UserMemPool : Type 0 where
  pub begin : ℕ
  pub end : ℕ

-- `UserMemPool::alloc_stack`; 0 is `nullptr`.
unfoldable pub alloc_stack : UserMemPool → Program (ℕ × UserMemPool)
unfolding syscall
alloc_stack p =
    if ltb p.end (add32 p.begin pool_stack_size)
    then says no_stack (p.begin ∷ p.end ∷ []) (returns (0, p))
    else (do
      v ← syscall 0 (pool_stack_pages ∷ add32 p.begin page_size ∷ [])
      let begin' = add32 p.begin pool_stack_size
      returns (begin', record p { begin = begin' }))

-- `create_ec`, which makes the stack first.
unfoldable pub user_create_ec : UserMemPool → ℕ → ℕ → ℕ → ℕ → Program (ℕ × UserMemPool)
unfolding alloc_stack
user_create_ec p func priority cap_slot target_pd = do
  (stack, p') ← alloc_stack p
  if stack == 0
      then returns (minus_one, p')
      else (do r ← syscall 3 (func ∷ stack ∷ priority ∷ cap_slot ∷ target_pd ∷ []); returns (r, p'))

-- How a run of a program stands: returned, waits for the answer to a call, or loops forever.
pub data End (A : Type 0) : Type 0 where
  returned : A → End A
  waits : RawFrame → End A
  hung : End A
  repeating : RawFrame → End A

-- The answered calls of a run, what it printed, and how it stands.
pub record Run (A : Type 0) : Type 0 where
  pub asked : List RawFrame
  pub said : List (Text × List ℕ)
  pub end : End A

-- The run of a program to which the kernel gives the answers, one after the other.
unfoldable pub exec : {A : Type 0} → Program A → List ℕ → Run A
exec (returns a) answers = record { asked = []; said = []; end = returned a }
exec (asks c k) [] = record { asked = []; said = []; end = waits c }
exec (asks c k) (v ∷ answers) =
    let rest = exec (k v) answers in
    record { asked = c ∷ rest.asked; said = rest.said; end = rest.end }
exec (says t vs p) answers =
    let rest = exec p answers in
    record { asked = rest.asked; said = (t, vs) ∷ rest.said; end = rest.end }
exec hangs answers = record { asked = []; said = []; end = hung }
exec (repeats c) answers = record { asked = []; said = []; end = repeating c }
