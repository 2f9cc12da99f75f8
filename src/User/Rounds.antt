-- ===== src/User/Rounds.antt =====
-- What the demonstration (user/src/user.cc) computes: a mapper sends the square of what it receives, and
-- the reducer sends the sum of what it receives, whatever the order.
use mathlib.Core.List
use mathlib.Core.List.Perm
use mathlib.Core.List.{Perm}
use nova_mckernel_lab.Base.{
  ℕ, zero, suc, ◌+◌, ◌*◌, ◌%◌, ◌<◌, ◌≡◌, refl, sym, ap, ◌∙◌, Bool, true, false, List, [], ◌∷◌, ◌++◌,
  map, length, replicate, arith, if◌then◌else◌,
}
use nova_mckernel_lab.Machine.{word_mod, add32}
use nova_mckernel_lab.Pd.{is_negative}
use nova_mckernel_lab.Dispatch.{RawFrame, arg}
use nova_mckernel_lab.User.{
  Text, send_failed, Program, says, hangs, ◌>>=◌, build_frame, syscall, End, waits, returned, hung,
  repeating, Run, exec,
}
use nova_mckernel_lab.User.Tasks.{
  collect, report, reducer, run_mapper, square, yields_forever, main_slot,
}

abbrev pub recv_frame : RawFrame
recv_frame = build_frame 10 []

abbrev pub yield_frame : RawFrame
yield_frame = build_frame 4 []

abbrev pub send_frame : ℕ → ℕ → RawFrame
send_frame slot value = build_frame 9 (slot ∷ value ∷ [])

abbrev pub total : List ℕ → ℕ
total [] = 0
total (v ∷ vs) = v + total vs

-- A task that ends its work by a send: it hangs if that fails, and yields forever if not.
abbrev pub rests : ℕ → End ⊥
rests r = if is_negative r then hung else repeating yield_frame

-- The calls of a run, and how it stands.
abbrev pub shows : {A : Type 0} → Run A → List RawFrame × End A
shows r = (r.asked, r.end)

-- `n` answers to the loop of the reducer.
collect-exec :
    (n : ℕ) (vs answers : List ℕ) (sum : ℕ) (k : ℕ → Program ⊥)
    → length vs ≡ n
    → sum < word_mod
    → shows (exec (collect n sum >>= k) (vs ++ answers)) ≡ (
      replicate n recv_frame ++ (exec (k ((sum + total vs) % word_mod)) answers).asked,
      (exec (k ((sum + total vs) % word_mod)) answers).end,
    )
unfolding collect exec ◌>>=◌ syscall
collect-exec zero [] answers sum k h small =
    let same : (sum + 0) % word_mod ≡ sum = omega arith in rw same refl
collect-exec zero (v ∷ vs) answers sum k h small = absurd (omega arith)
collect-exec (suc n) [] answers sum k h small = absurd (omega arith)
collect-exec (suc n) (v ∷ vs) answers sum k h small =
    let same : (add32 sum v + total vs) % word_mod ≡ (sum + (v + total vs)) % word_mod =
      omega arith in
    ap (λ r. (recv_frame ∷ r.0, r.1))
      (collect-exec n vs answers (add32 sum v) k (omega arith) (omega arith)
        ∙ ap (λ x. (replicate n recv_frame ++ (exec (k x) answers).asked, (exec (k x) answers).end))
            same)

-- The end of a task.
rests-exec :
    (b : Bool) (t : Text) (vs : List ℕ)
    → shows (exec (if b then says t vs hangs else yields_forever) [])
      ≡ ([], if b then hung else repeating yield_frame)
unfolding exec
rests-exec true t vs = refl
rests-exec false t vs = refl

report-exec :
    (sum r : ℕ) → shows (exec (report sum) (r ∷ [])) ≡ (send_frame main_slot sum ∷ [], rests r)
unfolding report exec ◌>>=◌ syscall
report-exec sum r =
    ap (λ s. (send_frame main_slot sum ∷ s.0, s.1))
      (rests-exec (is_negative r) send_failed (main_slot ∷ sum ∷ []))

-- What a run waits to send.
abbrev pub message : End ⊥ → ℕ
message (waits f) = arg f 1
message (returned a) = 0
message hung = 0
message (repeating f) = 0

-- What the mapper of a number sends once it has received a value and yielded.
abbrev pub mapped : ℕ × ℕ → ℕ
mapped (i, raw) = message (exec (run_mapper i) (raw ∷ 0 ∷ [])).end

mapped-square : (i raw : ℕ) → mapped (i, raw) ≡ square raw
unfolding run_mapper exec ◌>>=◌ syscall build_frame
mapped-square i raw = refl

reducer-exec :
    (vs : List ℕ) (r : ℕ)
    → length vs ≡ 3
    → shows (exec reducer (vs ++ r ∷ []))
      ≡ (replicate 3 recv_frame ++ send_frame main_slot (total vs % word_mod) ∷ [], rests r)
unfolding reducer exec
reducer-exec vs r h =
    let same : (0 + total vs) % word_mod ≡ total vs % word_mod = omega arith in
    collect-exec 3 vs (r ∷ []) 0 report h (omega arith)
    ∙ ap
        (λ x. (
          replicate 3 recv_frame ++ (exec (report x) (r ∷ [])).asked,
          (exec (report x) (r ∷ [])).end,
        ))
        same
    ∙ ap (λ s. (replicate 3 recv_frame ++ s.0, s.1)) (report-exec (total vs % word_mod) r)

-- A sum does not depend on the order.
total-foldr : (vs : List ℕ) → total vs ≡ List.foldr ◌+◌ 0 vs
total-foldr [] = refl
total-foldr (v ∷ vs) = ap (λ s. v + s) (total-foldr vs)

swap_sum : (a b c : ℕ) → a + (b + c) ≡ b + (a + c)
swap_sum a b c = omega arith

total-Perm : (vs ws : List ℕ) → Perm vs ws → total vs ≡ total ws
total-Perm vs ws p =
    total-foldr vs
    ∙ Perm.foldr-eq (hlevel) (λ (a : ℕ) (b : ℕ). a + b) swap_sum p 0
    ∙ sym (total-foldr ws)

length-foldr : (vs : List ℕ) → length vs ≡ List.foldr (λ v n. suc n) 0 vs
length-foldr [] = refl
length-foldr (v ∷ vs) = ap suc (length-foldr vs)

length-Perm : (vs ws : List ℕ) → Perm vs ws → length vs ≡ length ws
length-Perm vs ws p =
    length-foldr vs
    ∙ Perm.foldr-eq (hlevel) (λ (v : ℕ) (n : ℕ). suc n) (λ a b n. refl) p 0
    ∙ sym (length-foldr ws)

length-map : (xs : List (ℕ × ℕ)) → length (map mapped xs) ≡ length xs
length-map [] = refl
length-map (x ∷ xs) = ap suc (length-map xs)

abbrev pub sum_of_squares : List (ℕ × ℕ) → ℕ
sum_of_squares [] = 0
sum_of_squares ((i, raw) ∷ xs) = raw * raw + sum_of_squares xs

add_mod :
    (s a b : ℕ) → a % word_mod ≡ b % word_mod → (s % word_mod + a) % word_mod ≡ (s + b) % word_mod
add_mod s a b h = omega arith

-- The squares modulo 2^32 have the sum of the squares modulo 2^32.
total-mapped : (xs : List (ℕ × ℕ)) → total (map mapped xs) % word_mod ≡ sum_of_squares xs % word_mod
total-mapped [] = refl
total-mapped ((i, raw) ∷ xs) =
    ap (λ v. (v + total (map mapped xs)) % word_mod) (mapped-square i raw)
    ∙ add_mod (raw * raw) _ _ (total-mapped xs)

-- Let three mappers, given by number and received value, each send what it sends after its yield, and
-- let the reducer receive these messages in whatever order: the reducer makes three calls to receive
-- and one to send, to the main program's slot, of the sum of the squares modulo 2^32; then it yields
-- forever, or hangs if the send failed.
pub reducer-mapped :
    (xs : List (ℕ × ℕ)) (vs : List ℕ) (r : ℕ)
    → length xs ≡ 3
    → Perm vs (map mapped xs)
    → shows (exec reducer (vs ++ r ∷ [])) ≡ (
      replicate 3 recv_frame ++ send_frame main_slot (sum_of_squares xs % word_mod) ∷ [],
      rests r,
    )
reducer-mapped xs vs r h p =
    let sum = total-Perm vs (map mapped xs) p in
    let value = ap (λ n. n % word_mod) sum ∙ total-mapped xs in
    reducer-exec vs r (length-Perm vs (map mapped xs) p ∙ length-map xs ∙ h)
    ∙ ap (λ x. (replicate 3 recv_frame ++ send_frame main_slot x ∷ [], rests r)) value
