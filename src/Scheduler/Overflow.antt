-- ===== src/Scheduler/Overflow.antt =====
-- What `Scheduler::yield` (kern/src/scheduler.cc) does when the ring of the running context is full:
-- `schedule` counts only the waiting contexts, and `yield` puts the caller back without a test.
use nova_mckernel_lab.Base.{
  ℕ, suc, ◌≡◌, sym, ap, ap₂, ◌∙◌, ◌≢◌, false, Option, none, some, List, [], ◌∷◌, ◌++◌, arith, ◌==◌,
  ==_refl,
}
use mathlib.Core.Option
use nova_mckernel_lab.Machine.{ok, add32, sub32}
use nova_mckernel_lab.Ec.{Ptr, null, Ec, Ecs}
use nova_mckernel_lab.Scheduler.{
  Queue, Scheduler, max_ecs, next_index, enqueue, scan, pick, requeue, dispatch, yield,
}
use nova_mckernel_lab.Scheduler.Ring.{
  Entry, update, window, window-snoc, window-update_out, entry, contents, IsRing, entry-set,
}

-- The full ring of the running context, and what is left of it.
pub record IsFull (s : Scheduler) (q : Queue) (qs : List Queue) (x : Entry) (xs : List Entry)
    : Type 0 where
  pub queues : s.queues ≡ q ∷ qs
  pub ring : IsRing q
  pub full : q.count ≡ max_ecs
  pub entries : contents q ≡ x ∷ xs

-- The ring once the caller is put on top of its first entry and has left it again.
abbrev after : Queue → Ptr → Queue
after q p =
    let r = enqueue q p false in
    record r { head = next_index q.head; count = sub32 (add32 q.count 1) 1 }

after-contents :
    (q : Queue) (p : Ptr) (x : Entry) (xs : List Entry)
    → IsRing q
    → q.count ≡ max_ecs
    → contents q ≡ x ∷ xs
    → contents (after q p) ≡ xs ++ ((p, false) ∷ [])
unfolding enqueue
after-contents q p x xs r full e =
    ap₂ (λ f n. window f (next_index q.head) n) written eight
    ∙ window-snoc (update (entry q) q.tail (p, false)) 7 (next_index q.head) q.tail (omega arith)
        (omega arith) (omega arith)
    ∙ ap₂ (λ ys y. ys ++ (y ∷ []))
        (window-update_out (entry q) (p, false) 7 7 (next_index q.head) q.tail (omega arith)
            (omega arith) (omega arith) (omega arith)
          ∙ cc (sym (ap (window (entry q) q.head) full) ∙ e))
        (rw (==_refl q.tail))
  where
    written : entry (after q p) ≡ update (entry q) q.tail (p, false)
    written = entry-set q q.tail p false (omega arith) (omega arith)

    eight : sub32 (add32 q.count 1) 1 ≡ 8
    eight = omega arith

first_entry :
    (q : Queue) (p : Ptr)
    → IsRing q
    → q.count ≡ max_ecs
    → entry (enqueue q p false) q.head ≡ (p, false)
unfolding enqueue
first_entry q p r full =
    ap (λ f. f q.head) (entry-set q q.tail p false (omega arith) (omega arith))
    ∙ rw (at_head, ==_refl q.head)
  where
    at_head : q.tail ≡ q.head
    at_head = omega arith

-- The search of a ring whose first entry is runnable.
scan_ready :
    (n : ℕ) (q : Queue) (p : Ptr)
    → entry q q.head ≡ (p, false)
    → scan (suc n) q ≡ (some p, record q { head = next_index q.head; count = sub32 q.count 1 })
unfolding scan
scan_ready n q p e = rw (ap (λ (x : Entry). x.1) e, ap (λ (x : Entry). x.0) e, scan)

scan_full :
    (q : Queue) (p : Ptr)
    → IsRing q
    → q.count ≡ max_ecs
    → scan (enqueue q p false).count (enqueue q p false) ≡ (some p, after q p)
unfolding enqueue
scan_full q p r full =
    ap (λ n. scan n (enqueue q p false)) nine
    ∙ scan_ready 8 (enqueue q p false) p (first_entry q p r full)
  where
    nine : add32 q.count 1 ≡ 9
    nine = omega arith

pick_found :
    (q : Queue) (qs : List Queue) (ec : Ptr) (q' : Queue)
    → scan q.count q ≡ (some ec, q')
    → pick (q ∷ qs) ≡ some (ec, q' ∷ qs)
unfolding pick
pick_found q qs ec q' e =
    ap
      (λ (r : Option Ptr × Queue).
        let o : Option (Ptr × List Queue) = elim r.0 [
          | some ec ↦ some (ec, r.1 ∷ qs)
          | none ↦ Option.map (λ t. (t.0, r.1 ∷ t.1)) (pick qs)
        ] in
        o)
      e

-- A context of priority 0 that yields while eight others wait at that priority is put on top of the
-- first of them, `x`, and runs on: `x` is gone from its ring, and the caller both runs and waits.
pub yield_overflow :
    (ecs : Ecs) (s : Scheduler) (e : Ec) (q : Queue) (qs : List Queue) (x : Entry) (xs : List Entry)
    → IsFull s q qs x xs
    → s.current_ec ≢ null
    → ecs s.current_ec ≡ some e
    → e.priority ≡ 0
    → (q' : Queue) × (yield ecs s
        ≡ ok (s.current_ec, record { queues = q' ∷ qs; current_ec = s.current_ec }))
      × (contents q' ≡ xs ++ ((s.current_ec, false) ∷ []))
unfolding yield requeue dispatch
yield_overflow ecs s e q qs x xs f busy at_ec top =
    let running : (s.current_ec == null) ≡ false = ground (arith, busy) in
    let chosen =
      pick_found (enqueue q s.current_ec false) qs s.current_ec (after q s.current_ec)
        (scan_full q s.current_ec f.ring f.full) in
    (
      after q s.current_ec,
      rw (running, at_ec, top, f.queues, chosen, dispatch),
      after-contents q s.current_ec x xs f.ring f.full f.entries,
    )
