-- ===== src/Examples/Users.antt =====
-- The theorems on user programs (user/src) at concrete values.
use nova_mckernel_lab.Base.{
  if◌then◌else◌, ltb, ◌≡◌, refl, some, [], ◌∷◌, ◌++◌, map, replicate, arith,
}
use mathlib.Core.List.Perm
use mathlib.Core.List.{Perm}
use nova_mckernel_lab.Machine.{minus_one, panic, page_fault}
use nova_mckernel_lab.Ec.{Regs}
use nova_mckernel_lab.Exception.{handle_exc}
use nova_mckernel_lab.Syscall.{
  print_text, mmap, create_ec, mmap, create_ec, yields, blocks, unblocks, create_pd, delegate_cap,
  ipc_send, ipc_recv,
}
use nova_mckernel_lab.User.{
  user_create_ec, user_printf, exec, returned, UserMemPool, syscall, ◌>>=◌, build_frame, exec, hung,
  user_create_pd, user_delegate_cap, user_ipc_send, user_ipc_recv, user_yield, user_block,
  user_block_other, user_unblock, user_unblock_other, main_started, mapper_created, main_sends,
  main_result,
}
use nova_mckernel_lab.User.Frames.{requests, request, user_calls-decode}
use nova_mckernel_lab.User.Stacks.{guard_page-unnoticed}
use nova_mckernel_lab.User.Tasks.{Functions, reducer, run_mapper, main_func, main_slot}
use nova_mckernel_lab.User.Rounds.{shows, mapped, recv_frame, send_frame, rests, reducer-mapped}
use nova_mckernel_lab.User.Main.{Answers, answers_to, view, main_func-calls}
use nova_mckernel_lab.Examples.{zero_regs}

abbrev heap : UserMemPool
heap = record { begin = 0x4000; end = 0x801_4000 }

user_calls-decode_example :
    let creates = user_create_ec heap 0x1100 1 2 0 in
    (request user_create_pd ≡ some create_pd)
    × (request (user_delegate_cap 1 0 2) ≡ some (delegate_cap 3 1 0 2))
    × (request (user_ipc_send 1 0) ≡ some (ipc_send 1 0))
    × (request user_ipc_recv ≡ some ipc_recv)
    × (request user_yield ≡ some yields)
    × (request user_block ≡ some (blocks 0 0))
    × (request (user_block_other 1) ≡ some (blocks 1 1))
    × (request user_unblock ≡ some (unblocks 0 0))
    × (request (user_unblock_other 1) ≡ some (unblocks 1 1))
    × (request (user_printf 1 0) ≡ some (print_text 1 0))
    × (requests creates (7 ∷ 5 ∷ []) ≡ (
        if ltb heap.end 0x6000 then [] else mmap 1 0x5000 ∷ create_ec 5 0x1100 0x6000 1 2 0 ∷ []))
    × ((exec creates (7 ∷ 5 ∷ [])).end
        ≡ returned (
            if ltb heap.end 0x6000 then (minus_one, heap) else (5, record heap { begin = 0x6000 })))
user_calls-decode_example = user_calls-decode 1 0 2 heap 0x1100 1 2 0 7 5 (omega arith)

swapped : Perm (16 ∷ 25 ∷ 1 ∷ []) (map mapped ((0, 5) ∷ (1, 4) ∷ (2, 1) ∷ []))
unfolding run_mapper exec ◌>>=◌ syscall build_frame
swapped = Perm.swap 25 16 (1 ∷ [])

-- The inputs of the main program; the second mapper is first.
reducer-mapped_example :
    shows (exec reducer ((16 ∷ 25 ∷ 1 ∷ []) ++ 0 ∷ []))
    ≡ (replicate 3 recv_frame ++ send_frame main_slot 42 ∷ [], rests 0)
reducer-mapped_example =
    reducer-mapped ((0, 5) ∷ (1, 4) ∷ (2, 1) ∷ []) (16 ∷ 25 ∷ 1 ∷ []) 0 refl swapped

-- An overflow of the second stack.
abbrev overflow : Regs
overflow = record zero_regs { vec = 14; cr2 = 0x6ffc }

guard_page-unnoticed_example : handle_exc overflow ≡ panic page_fault
guard_page-unnoticed_example =
    guard_page-unnoticed heap 1 overflow refl (omega arith) (omega arith) refl (omega arith)
      (omega arith)

abbrev functions : Functions
functions = record {
  reducer_at = 0x1100;
  mapper0_at = 0x1200;
  mapper1_at = 0x1300;
  mapper2_at = 0x1400;
}

abbrev answers : Answers
answers = record {
  mapper_pd = 0;
  reducer_pd = 1;
  r_slot = 1;
  slot0 = 2;
  slot1 = 3;
  slot2 = 4;
  sent0 = 0;
  sent1 = 0;
  sent2 = 0;
  result = 42;
  ignored = λ n. 0;
}

main_func-calls_example : view (exec (main_func functions heap) (answers_to answers)) ≡ (
  create_pd
      ∷ create_pd
      ∷ mmap 1 0x5000
      ∷ create_ec 5 0x1100 0x6000 10 1 1
      ∷ delegate_cap 3 1 0 0
      ∷ mmap 1 0x7000
      ∷ create_ec 5 0x1200 0x8000 0 2 0
      ∷ mmap 1 0x9000
      ∷ create_ec 5 0x1300 0xa000 0 3 0
      ∷ mmap 1 0xb000
      ∷ create_ec 5 0x1400 0xc000 0 4 0
      ∷ delegate_cap 3 0 1 1
      ∷ ipc_send 2 5
      ∷ ipc_send 3 4
      ∷ ipc_send 4 1
      ∷ ipc_recv
      ∷ [],
  (main_started, [])
      ∷ (mapper_created, 0 ∷ 2 ∷ [])
      ∷ (mapper_created, 1 ∷ 3 ∷ [])
      ∷ (mapper_created, 2 ∷ 4 ∷ [])
      ∷ (main_sends, 5 ∷ 0 ∷ 2 ∷ [])
      ∷ (main_sends, 4 ∷ 1 ∷ 3 ∷ [])
      ∷ (main_sends, 1 ∷ 2 ∷ 4 ∷ [])
      ∷ (main_result, 42 ∷ [])
      ∷ [],
  hung,
)
main_func-calls_example =
    main_func-calls functions heap answers (omega arith) (omega arith)
      (refl, refl, refl, refl, refl, refl, refl, refl, refl)
