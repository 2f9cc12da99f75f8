-- ===== src/User/Tasks.antt =====
-- The demonstration (user/src/user.cc): a reducer, three mappers, and the main program that starts them.
-- `int` and `unsigned` are words; the addresses of the functions are parameters.
use nova_mckernel_lab.Base.{ℕ, zero, suc, ◌*◌, ◌%◌, ◌||◌, List, [], ◌∷◌, if◌then◌else◌}
use nova_mckernel_lab.Machine.{word_mod, add32}
use nova_mckernel_lab.Pd.{is_negative}
use nova_mckernel_lab.User.{
  Program, returns, says, hangs, repeats, ◌>>=◌, build_frame, syscall, UserMemPool, user_create_pd,
  user_delegate_cap, user_ipc_send, user_ipc_recv, user_yield, user_create_ec, reducer_started,
  reducer_received, reducer_collected, send_failed, mapper_started, mapper_mapped, mapper_sends,
  main_started, no_domains, no_reducer, no_mapper, mapper_created, main_sends, main_send_failed,
  main_result,
}

abbrev pub reducer_slot : ℕ
reducer_slot = 1

abbrev pub main_slot : ℕ
main_slot = 0

abbrev pub num_mappers : ℕ
num_mappers = 3

-- `while (1) { yield(); }`.
abbrev pub yields_forever : Program ⊥
yields_forever = repeats (build_frame 4 [])

-- The loop of `reducer`, with `n` values to come.
unfoldable pub collect : ℕ → ℕ → Program ℕ
unfolding syscall
collect zero sum = returns sum
collect (suc n) sum = do
  val ← user_ipc_recv
  says reducer_received (val ∷ add32 sum val ∷ []) (collect n (add32 sum val))

-- The end of `reducer`.
unfoldable pub report : ℕ → Program ⊥
report sum = says reducer_collected (sum ∷ []) (do
  r ← user_ipc_send main_slot sum
  if is_negative r then says send_failed (main_slot ∷ sum ∷ []) hangs else yields_forever)

unfoldable pub reducer : Program ⊥
unfolding collect report
reducer = says reducer_started (num_mappers ∷ []) (collect num_mappers 0 >>= report)

-- `raw * raw`.
abbrev pub square : ℕ → ℕ
square raw = raw * raw % word_mod

unfoldable pub run_mapper : ℕ → Program ⊥
unfolding syscall
run_mapper mapper_id = says mapper_started (mapper_id ∷ []) (do
  raw ← user_ipc_recv
  says mapper_mapped (mapper_id ∷ raw ∷ square raw ∷ []) (do
    v ← user_yield
    says mapper_sends (mapper_id ∷ square raw ∷ []) (do
      r ← user_ipc_send reducer_slot (square raw)
      if is_negative r
          then says send_failed (reducer_slot ∷ square raw ∷ []) hangs
          else yields_forever)))

-- The addresses of the functions.
pub record Functions : Type 0 where
  pub reducer_at : ℕ
  pub mapper0_at : ℕ
  pub mapper1_at : ℕ
  pub mapper2_at : ℕ

-- The loop that creates the mappers: number, address and slot of each.
unfoldable pub start_mappers : List (ℕ × ℕ × ℕ) → ℕ → UserMemPool → Program UserMemPool
unfolding user_create_ec
start_mappers [] mapper_pd p = returns p
start_mappers ((i, func, slot) ∷ rest) mapper_pd p = do
  (r, p') ← user_create_ec p func 0 slot mapper_pd
  if is_negative r
      then says no_mapper (i ∷ []) hangs
      else says mapper_created (i ∷ r ∷ []) (start_mappers rest mapper_pd p')

-- The loop that sends the inputs: number, slot and input of each mapper.
unfoldable pub send_inputs : List (ℕ × ℕ × ℕ) → Program (Unit {0})
send_inputs [] = returns tt
send_inputs ((i, slot, input) ∷ rest) = says main_sends (input ∷ i ∷ slot ∷ []) (do
  r ← user_ipc_send slot input
  if is_negative r then says main_send_failed (slot ∷ input ∷ []) hangs else send_inputs rest)

abbrev pub mappers : Functions → List (ℕ × ℕ × ℕ)
mappers f = (0, f.mapper0_at, 2) ∷ (1, f.mapper1_at, 3) ∷ (2, f.mapper2_at, 4) ∷ []

-- Slots and inputs.
abbrev pub inputs : List (ℕ × ℕ × ℕ)
inputs = (0, 2, 5) ∷ (1, 3, 4) ∷ (2, 4, 1) ∷ []

-- `main_func` from the creation of the reducer on.
unfoldable pub start_all : Functions → UserMemPool → ℕ → ℕ → Program ⊥
unfolding start_mappers send_inputs user_create_ec
start_all f p mapper_pd reducer_pd = do
  (r_slot, p1) ← user_create_ec p f.reducer_at 10 reducer_slot reducer_pd
  if is_negative r_slot then says no_reducer [] hangs else (do
    d ← user_delegate_cap reducer_pd main_slot main_slot
    p2 ← start_mappers (mappers f) mapper_pd p1
    d' ← user_delegate_cap mapper_pd r_slot reducer_slot
    u ← send_inputs inputs
    result ← user_ipc_recv
    says main_result (result ∷ []) hangs)

unfoldable pub main_func : Functions → UserMemPool → Program ⊥
unfolding start_all
main_func f p = says main_started [] (do
  mapper_pd ← user_create_pd
  reducer_pd ← user_create_pd
  if is_negative mapper_pd || is_negative reducer_pd
      then says no_domains (mapper_pd ∷ reducer_pd ∷ []) hangs
      else start_all f p mapper_pd reducer_pd)
