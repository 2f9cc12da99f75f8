-- ===== src/User/Main.antt =====
-- The calls of the main program (`main_func`, user/src/user.cc), as the kernel reads them.
use nova_mckernel_lab.Base.{
  ℕ, suc, ◌+◌, ◌*◌, ◌≤◌, ◌<◌, ◌≡◌, refl, ap, fun_ext, ◌∙◌, Bool, false, ◌||◌, List, [], ◌∷◌, ◌++◌,
  length, map, arith, ltb, ◌==◌, if◌then◌else◌,
}
use nova_mckernel_lab.Machine.{word_mod, add32}
use nova_mckernel_lab.Kalloc.{page_size}
use nova_mckernel_lab.Pd.{is_negative}
use nova_mckernel_lab.Syscall.{Frame, mmap, create_ec, create_pd, delegate_cap, ipc_send, ipc_recv}
use nova_mckernel_lab.Dispatch.{decode}
use nova_mckernel_lab.User.{
  Text, main_started, mapper_created, main_sends, main_result, Program, returns, asks, says, hangs,
  repeats, ◌>>=◌, UserMemPool, alloc_stack, user_create_ec, syscall, build_frame, user_delegate_cap,
  user_ipc_recv, pool_stack_size, Run, End, hung, exec,
}
use nova_mckernel_lab.User.Stacks.{guard_page}
use nova_mckernel_lab.User.Tasks.{
  reducer_slot, main_slot, Functions, main_func, start_all, start_mappers, send_inputs, mappers,
  inputs,
}

-- The pool after `n` stacks.
abbrev pub after : UserMemPool → ℕ → UserMemPool
after p n = record p { begin = p.begin + n * pool_stack_size }

-- The calls of a run as the kernel reads them, what it printed, and how it stands.
abbrev pub View : Type 0
View = List Frame × List (Text × List ℕ) × End ⊥

abbrev pub view : Run ⊥ → View
view r = (map decode r.asked, r.said, r.end)

-- The kernel's answers to the calls of a run of `main_func`.
pub record Answers : Type 0 where
  pub mapper_pd : ℕ
  pub reducer_pd : ℕ
  pub r_slot : ℕ
  pub slot0 : ℕ
  pub slot1 : ℕ
  pub slot2 : ℕ
  pub sent0 : ℕ
  pub sent1 : ℕ
  pub sent2 : ℕ
  pub result : ℕ
  pub ignored : ℕ → ℕ

abbrev pub IsFine : Answers → Type 0
IsFine a =
    (is_negative a.mapper_pd ≡ false)
    × (is_negative a.reducer_pd ≡ false)
    × (is_negative a.r_slot ≡ false)
    × (is_negative a.slot0 ≡ false)
    × (is_negative a.slot1 ≡ false)
    × (is_negative a.slot2 ≡ false)
    × (is_negative a.sent0 ≡ false)
    × (is_negative a.sent1 ≡ false)
    × (is_negative a.sent2 ≡ false)

-- A stack and a context.
create_ec-exec :
    (p : UserMemPool) (n func prio slot pd v r : ℕ) (answers : List ℕ)
    (k : ℕ × UserMemPool → Program ⊥)
    → guard_page p (suc n) ≤ p.end
    → p.end + pool_stack_size < word_mod
    → view (exec (user_create_ec (after p n) func prio slot pd >>= k) (v ∷ r ∷ answers)) ≡ (
        let rest = view (exec (k (r, after p (suc n))) answers) in
        (
          mmap 1 (guard_page p n + page_size)
              ∷ create_ec 5 func (guard_page p (suc n)) prio slot pd
              ∷ rest.0,
          rest.1,
          rest.2,
        ))
unfolding user_create_ec alloc_stack syscall ◌>>=◌ exec build_frame decode
create_ec-exec p n func prio slot pd v r answers k room top =
    let fits : ltb p.end (add32 (guard_page p n) pool_stack_size) ≡ false = ground arith in
    let size : add32 (guard_page p n) pool_stack_size ≡ guard_page p (suc n) = omega arith in
    let page : add32 (guard_page p n) page_size ≡ guard_page p n + page_size = omega arith in
    let some_stack : (guard_page p (suc n) == 0) ≡ false = ground arith in
    rw (fits, size, page, some_stack) refl

bind_assoc :
    {A B C : Type 0} (m : Program A) (f : A → Program B) (g : B → Program C)
    → (m >>= f >>= g) ≡ (m >>= λ a. f a >>= g)
unfolding ◌>>=◌
bind_assoc (returns a) f g = refl
bind_assoc (asks c k) f g = ap (asks c) (fun_ext λ v. bind_assoc (k v) f g)
bind_assoc (says t vs m) f g = ap (says t vs) (bind_assoc m f g)
bind_assoc hangs f g = refl
bind_assoc (repeats c) f g = refl

-- A test that an answer passes.
passes :
    {A : Type 0} (b : Bool) (x y : Program A) (k : A → Program ⊥) (answers : List ℕ)
    → b ≡ false
    → view (exec ((if b then x else y) >>= k) answers) ≡ view (exec (y >>= k) answers)
passes b x y k answers h = rw h refl

taken :
    (b : Bool) (x y : Program ⊥) (answers : List ℕ)
    → b ≡ false
    → view (exec (if b then x else y) answers) ≡ view (exec y answers)
taken b x y answers h = rw h refl

abbrev AllFine : List ℕ → Type 0
AllFine [] = Unit {0}
AllFine (r ∷ rs) = (is_negative r ≡ false) × AllFine rs

-- The calls for the mappers of a list, from the `n`-th stack on.
abbrev starts : UserMemPool → ℕ → ℕ → List (ℕ × ℕ × ℕ) → List Frame → List Frame
starts p pd n [] fs = fs
starts p pd n ((i, func, slot) ∷ xs) fs =
    mmap 1 (guard_page p n + page_size)
    ∷ create_ec 5 func (guard_page p (suc n)) 0 slot pd
    ∷ starts p pd (suc n) xs fs

abbrev created : List (ℕ × ℕ × ℕ) → List ℕ → List (Text × List ℕ) → List (Text × List ℕ)
created ((i, func, slot) ∷ xs) (r ∷ rs) ts = (mapper_created, i ∷ r ∷ []) ∷ created xs rs ts
created xs rs ts = ts

-- The answers to the calls for stacks and contexts, one after the other.
abbrev paired : (ℕ → ℕ) → ℕ → List ℕ → List ℕ → List ℕ
paired v n [] answers = answers
paired v n (r ∷ rs) answers = v n ∷ r ∷ paired v (suc n) rs answers

start_mappers-exec :
    (xs : List (ℕ × ℕ × ℕ)) (rs : List ℕ) (v : ℕ → ℕ) (m pd : ℕ) (p : UserMemPool) (n : ℕ)
    (answers : List ℕ) (k : UserMemPool → Program ⊥)
    → length rs ≡ length xs
    → AllFine rs
    → guard_page p (length xs + n) ≤ p.end
    → p.end + pool_stack_size < word_mod
    → view (exec (start_mappers xs pd (after p n) >>= k) (paired v m rs answers)) ≡ (
        let w = view (exec (k (after p (length xs + n))) answers) in
        (starts p pd n xs w.0, created xs rs w.1, w.2))
unfolding start_mappers ◌>>=◌ exec
start_mappers-exec [] [] v m pd p n answers k same fine room top =
    ap (λ x. view (exec (k (after p x)) answers)) (omega arith)
start_mappers-exec [] (r ∷ rs) v m pd p n answers k same fine room top = absurd (omega arith)
start_mappers-exec (x ∷ xs) [] v m pd p n answers k same fine room top = absurd (omega arith)
start_mappers-exec ((i, func, slot) ∷ xs) (r ∷ rs) v m pd p n answers k same (fine, rest) room top =
    let count : length xs + suc n ≡ suc (length xs) + n = omega arith in
    ap (λ q. view (exec q (v m ∷ r ∷ paired v (suc m) rs answers)))
      (bind_assoc (user_create_ec (after p n) func 0 slot pd) _ k)
    ∙ create_ec-exec p n func 0 slot pd (v m) r (paired v (suc m) rs answers) _
        (omega (arith, room)) top
    ∙ ap
        (λ w. (
          mmap 1 (guard_page p n + page_size)
              ∷ create_ec 5 func (guard_page p (suc n)) 0 slot pd
              ∷ w.0,
          w.1,
          w.2,
        ))
        (passes (is_negative r) _ _ k (paired v (suc m) rs answers) fine
          ∙ ap (λ w. (w.0, (mapper_created, i ∷ r ∷ []) ∷ w.1, w.2))
              (start_mappers-exec xs rs v (suc m) pd p (suc n) answers k (omega (arith, same)) rest
                  (omega (arith, room)) top
                ∙ ap
                    (λ x.
                      let w = view (exec (k (after p x)) answers) in
                      (starts p pd (suc n) xs w.0, created xs rs w.1, w.2))
                    count))

abbrev sends : List (ℕ × ℕ × ℕ) → List Frame → List Frame
sends [] fs = fs
sends ((i, slot, input) ∷ xs) fs = ipc_send slot input ∷ sends xs fs

abbrev tells : List (ℕ × ℕ × ℕ) → List (Text × List ℕ) → List (Text × List ℕ)
tells [] ts = ts
tells ((i, slot, input) ∷ xs) ts = (main_sends, input ∷ i ∷ slot ∷ []) ∷ tells xs ts

send_inputs-exec :
    (xs : List (ℕ × ℕ × ℕ)) (rs answers : List ℕ) (k : Unit {0} → Program ⊥)
    → length rs ≡ length xs
    → AllFine rs
    → view (exec (send_inputs xs >>= k) (rs ++ answers))
      ≡ (let w = view (exec (k tt) answers) in (sends xs w.0, tells xs w.1, w.2))
unfolding send_inputs syscall ◌>>=◌ exec build_frame decode
send_inputs-exec [] [] answers k same fine = refl
send_inputs-exec [] (r ∷ rs) answers k same fine = absurd (omega arith)
send_inputs-exec (x ∷ xs) [] answers k same fine = absurd (omega arith)
send_inputs-exec ((i, slot, input) ∷ xs) (r ∷ rs) answers k same (fine, rest) =
    ap (λ w. (ipc_send slot input ∷ w.0, (main_sends, input ∷ i ∷ slot ∷ []) ∷ w.1, w.2))
      (passes (is_negative r) _ (send_inputs xs) k (rs ++ answers) fine
        ∙ send_inputs-exec xs rs answers k (omega (arith, same)) rest)

-- The answers in the order of the calls.
abbrev later : Answers → List ℕ
later a =
    a.ignored 1
    ∷ a.ignored 2
    ∷ a.slot0
    ∷ a.ignored 3
    ∷ a.slot1
    ∷ a.ignored 4
    ∷ a.slot2
    ∷ a.ignored 5
    ∷ a.sent0
    ∷ a.sent1
    ∷ a.sent2
    ∷ a.result
    ∷ []

abbrev pub answers_to : Answers → List ℕ
answers_to a = a.mapper_pd ∷ a.reducer_pd ∷ a.ignored 0 ∷ a.r_slot ∷ later a

-- What the main program does once the mappers run.
abbrev finishes : ℕ → ℕ → Program ⊥
finishes mapper_pd r_slot = do
  d ← user_delegate_cap mapper_pd r_slot reducer_slot
  u ← send_inputs inputs
  result ← user_ipc_recv
  says main_result (result ∷ []) hangs

finishes-exec :
    (a : Answers)
    → IsFine a
    → view (
        exec
          (finishes a.mapper_pd a.r_slot)
          (a.ignored 5 ∷ a.sent0 ∷ a.sent1 ∷ a.sent2 ∷ a.result ∷ []))
      ≡ (
        delegate_cap 3 a.mapper_pd a.r_slot 1
            ∷ ipc_send 2 5
            ∷ ipc_send 3 4
            ∷ ipc_send 4 1
            ∷ ipc_recv
            ∷ [],
        (main_sends, 5 ∷ 0 ∷ 2 ∷ [])
            ∷ (main_sends, 4 ∷ 1 ∷ 3 ∷ [])
            ∷ (main_sends, 1 ∷ 2 ∷ 4 ∷ [])
            ∷ (main_result, a.result ∷ [])
            ∷ [],
        hung,
      )
unfolding send_inputs syscall ◌>>=◌ exec build_frame decode
finishes-exec a (_, _, _, _, _, _, f0, f1, f2) =
    ap (λ w. (delegate_cap 3 a.mapper_pd a.r_slot 1 ∷ w.0, w.1, w.2))
      (send_inputs-exec inputs (a.sent0 ∷ a.sent1 ∷ a.sent2 ∷ []) (a.result ∷ [])
        (λ u. user_ipc_recv >>= λ result. says main_result (result ∷ []) hangs) refl
        (f0, (f1, (f2, tt))))

-- What it does once the reducer is there.
abbrev goes_on : Functions → ℕ → ℕ → ℕ → UserMemPool → Program ⊥
goes_on f mapper_pd reducer_pd r_slot p1 = do
  d ← user_delegate_cap reducer_pd main_slot main_slot
  p2 ← start_mappers (mappers f) mapper_pd p1
  finishes mapper_pd r_slot

-- If the heap has room for four stacks and the kernel refuses nothing, the main program asks for two
-- domains, and for each context for a stack's page before the context: the reducer with priority 10 in
-- slot 1 of the second domain, and the mappers with priority 0 in slots 2 to 4 of the first, where the
-- two capabilities are delegated as well; it sends 5, 4 and 1 to the mappers, and prints the message
-- that it receives last.
pub main_func-calls :
    (f : Functions) (p : UserMemPool) (a : Answers)
    → guard_page p 4 ≤ p.end
    → p.end + pool_stack_size < word_mod
    → IsFine a
    → view (exec (main_func f p) (answers_to a)) ≡ (
      create_pd
          ∷ create_pd
          ∷ mmap 1 (guard_page p 0 + page_size)
          ∷ create_ec 5 f.reducer_at (guard_page p 1) 10 1 a.reducer_pd
          ∷ delegate_cap 3 a.reducer_pd 0 0
          ∷ mmap 1 (guard_page p 1 + page_size)
          ∷ create_ec 5 f.mapper0_at (guard_page p 2) 0 2 a.mapper_pd
          ∷ mmap 1 (guard_page p 2 + page_size)
          ∷ create_ec 5 f.mapper1_at (guard_page p 3) 0 3 a.mapper_pd
          ∷ mmap 1 (guard_page p 3 + page_size)
          ∷ create_ec 5 f.mapper2_at (guard_page p 4) 0 4 a.mapper_pd
          ∷ delegate_cap 3 a.mapper_pd a.r_slot 1
          ∷ ipc_send 2 5
          ∷ ipc_send 3 4
          ∷ ipc_send 4 1
          ∷ ipc_recv
          ∷ [],
      (main_started, [])
          ∷ (mapper_created, 0 ∷ a.slot0 ∷ [])
          ∷ (mapper_created, 1 ∷ a.slot1 ∷ [])
          ∷ (mapper_created, 2 ∷ a.slot2 ∷ [])
          ∷ (main_sends, 5 ∷ 0 ∷ 2 ∷ [])
          ∷ (main_sends, 4 ∷ 1 ∷ 3 ∷ [])
          ∷ (main_sends, 1 ∷ 2 ∷ 4 ∷ [])
          ∷ (main_result, a.result ∷ [])
          ∷ [],
      hung,
    )
unfolding main_func start_all ◌>>=◌ syscall exec build_frame decode
main_func-calls f p a room top fine =
    let same : p ≡ after p 0 = ap (λ b. record p { begin = b }) (omega arith) in
    ap (λ q. view (exec (main_func f q) (answers_to a))) same
    ∙ ap (λ w. (create_pd ∷ create_pd ∷ w.0, (main_started, []) ∷ w.1, w.2))
        (taken (is_negative a.mapper_pd || is_negative a.reducer_pd) _
            (start_all f (after p 0) a.mapper_pd a.reducer_pd) (a.ignored 0 ∷ a.r_slot ∷ later a)
            (ground (arith, fine.0, fine.1))
          ∙ create_ec-exec p 0 f.reducer_at 10 1 a.reducer_pd (a.ignored 0) a.r_slot (later a) _
              (omega (arith, room)) top
          ∙ ap
              (λ w. (
                mmap 1 (guard_page p 0 + page_size)
                    ∷ create_ec 5 f.reducer_at (guard_page p 1) 10 1 a.reducer_pd
                    ∷ w.0,
                w.1,
                w.2,
              ))
              (taken (is_negative a.r_slot) _
                  (goes_on f a.mapper_pd a.reducer_pd a.r_slot (after p 1)) (later a) fine.2
                ∙ ap (λ w. (delegate_cap 3 a.reducer_pd 0 0 ∷ w.0, w.1, w.2))
                    (start_mappers-exec (mappers f) (a.slot0 ∷ a.slot1 ∷ a.slot2 ∷ []) a.ignored 2
                        a.mapper_pd p 1 (a.ignored 5 ∷ a.sent0 ∷ a.sent1 ∷ a.sent2 ∷ a.result ∷ [])
                        (λ p2. finishes a.mapper_pd a.r_slot) refl (fine.3, (fine.4, (fine.5, tt)))
                        room top
                      ∙ ap
                          (λ w. (
                            starts p a.mapper_pd 1 (mappers f) w.0,
                            created (mappers f) (a.slot0 ∷ a.slot1 ∷ a.slot2 ∷ []) w.1,
                            w.2,
                          ))
                          (finishes-exec a fine))))
