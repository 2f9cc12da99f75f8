-- ===== src/Scheduler/Current.antt =====
-- Which context runs after each operation of the scheduler (kern/src/scheduler.cc): the pointer that
-- it returns is never null, and is the one that it records.
use nova_mckernel_lab.Base.{
  ℕ, ◌+◌, ◌<◌, ◌≡◌, refl, ap, ◌∙◌, ◌≢◌, true, false, Option, none, some, List, [], ◌∷◌, ◌++◌, inl,
  inr, Bool-cases, Option-cases, arith, ◌==◌, leb, length, get_elem?, get_or, set,
}
use nova_mckernel_lab.Machine.{Outcome, ok, panic, fault, deref, no_runnable}
use nova_mckernel_lab.Refines.{
  Promised, promise_both, bind_any, bind-Promised, Promised-lookup, weaken,
}
use nova_mckernel_lab.Ec.{Ptr, null, Ecs}
use nova_mckernel_lab.Scheduler.{
  Scheduler, max_ecs, priority_of, yield, schedule, block, unblock, unblock_all, reprioritize,
}
use nova_mckernel_lab.Scheduler.Ring.{Entry}
use nova_mckernel_lab.Scheduler.Spec.{
  View, position, mark_first, remove_nth, pick_view, requeue_view, dispatch_view, yield_view,
  schedule_view, block_view, unblock_view, unblock_all_view, reprioritize_view,
}
use nova_mckernel_lab.Scheduler.Valid.{view, queued, running, IsValid}
use nova_mckernel_lab.Scheduler.Refine.{yield-Refines}
use nova_mckernel_lab.Scheduler.Operations.{
  schedule-Refines, block-Refines, unblock-Refines, unblock_all-view, reprioritize-Refines,
}
use nova_mckernel_lab.Scheduler.Population.{
  copies_in, held, requeue-copies, dispatch-held, copies_in-set, copies-append, copies-mark_first,
  copies-remove_nth, copies_in-clear,
}

-- No entry of a ring is null.
abbrev pub Clean : View → Type 0
Clean v = copies_in null v.queues ≡ 0

-- What is chosen to run.
abbrev pub Chosen : Ptr × View → Type 0
Chosen (p, w) = Clean w × (p ≢ null) × (w.current ≡ p)

dispatch-current : (v : View) → Promised (λ r. r.1.current ≡ r.0) (dispatch_view v)
unfolding dispatch_view
dispatch-current v = go (pick_view v.queues)
  where
    go :
        (o : Option (Ptr × List (List Entry)))
        → Promised
            (λ (r : Ptr × View). r.1.current ≡ r.0)
            (elim o [
              | none ↦ panic no_runnable
              | some (ec, qs) ↦ ok (ec, record { queues = qs; current = ec })
            ])
    go none = tt
    go (some (ec, qs)) = refl

dispatch-Chosen : (v : View) → Clean v → Promised Chosen (dispatch_view v)
dispatch-Chosen v c = go (dispatch_view v) (dispatch-held null v) (dispatch-current v)
  where
    go :
        (r : Outcome (Ptr × View))
        → Promised (λ (r : Ptr × View). held null r.1 ≡ copies_in null v.queues) r
        → Promised (λ (r : Ptr × View). r.1.current ≡ r.0) r
        → Promised Chosen r
    go (ok (p, w)) h e = ground (arith, h, e, c)
    go (panic x) h e = tt
    go fault h e = tt

yield_view-Chosen : (ecs : Ecs) (v : View) → Clean v → Promised Chosen (yield_view ecs v)
unfolding yield_view
yield_view-Chosen ecs v c = elim (Bool-cases (v.current == null)) [
  | inl idle ↦ rw idle (dispatch-Chosen v c)
  | inr busy ↦ rw busy (
      bind-Promised _ _ (requeue_view ecs v v.current false) _
        (requeue-copies null ecs v v.current false)
        λ w h. dispatch-Chosen (record w { current = null }) (ground (arith, h, c, busy)))
]

-- What is left running: the choice, if there is one, or who ran before.
abbrev pub Continues : View → Option Ptr × View → Type 0
Continues v (none, w) = Clean w × (w.current ≡ v.current)
Continues v (some p, w) = Chosen (p, w)

set-Clean :
    (v : View) (prio : ℕ) (xs ys : List Entry)
    → get_elem? v.queues prio ≡ some xs
    → Clean v
    → ◌≡◌ {A = ℕ} (copies_in null (ys ∷ [])) (copies_in null (xs ∷ []))
    → copies_in null (set v.queues prio ys) ≡ 0
set-Clean v prio xs ys at c same_copies =
    omega (arith, copies_in-set null v.queues prio xs ys at, same_copies, c)

block_view-Continues :
    (ecs : Ecs) (v : View) (ec : Ptr)
    → ec ≢ null
    → Clean v
    → Promised (Continues v) (block_view ecs v ec)
unfolding block_view
block_view-Continues ecs v ec some_ec c = elim (Bool-cases (ec == v.current)) [
  | inl self ↦ rw self (
      bind-Promised _ _ (requeue_view ecs v ec true) _ (requeue-copies null ecs v ec true) λ w h.
        bind-Promised _ _ (yield_view ecs (record w { current = null })) _
          (yield_view-Chosen ecs (record w { current = null }) (ground (arith, h, c, some_ec)))
          λ r k. k)
  | inr other ↦ rw other (
      bind_any _ (priority_of ecs ec) _ λ prio.
        Promised-lookup _ (get_elem? v.queues prio) _ λ xs at. (
          set-Clean v prio xs (mark_first ec true xs) at c
              (omega (arith, copies-mark_first null ec true xs)),
          refl,
        ))
]

-- The same context runs.
abbrev pub Stays : View → View → Type 0
Stays v w = Clean w × (w.current ≡ v.current)

unblock_view-Stays :
    (ecs : Ecs) (v : View) (ec : Ptr) → Clean v → Promised (Stays v) (unblock_view ecs v ec)
unfolding unblock_view
unblock_view-Stays ecs v ec c = bind_any _ (priority_of ecs ec) _ λ prio.
    Promised-lookup _ (get_elem? v.queues prio) _ λ xs at. (
      set-Clean v prio xs (mark_first ec false xs) at c
          (omega (arith, copies-mark_first null ec false xs)),
      refl,
    )

schedule_view-Stays :
    (ecs : Ecs) (v : View) (ec : Ptr)
    → ec ≢ null
    → v.current ≢ null
    → Clean v
    → Promised (Stays v) (schedule_view ecs v ec)
unfolding schedule_view
schedule_view-Stays ecs v ec some_ec busy c = bind_any _ (priority_of ecs ec) _ λ prio.
    Promised-lookup _ (get_elem? v.queues prio) _ λ xs at.
      let running : (v.current == null) ≡ false = ground (arith, busy) in
      let clean : copies_in null (set v.queues prio (xs ++ ((ec, false) ∷ []))) ≡ 0 = ground (
        arith,
        copies_in-set null v.queues prio xs (xs ++ ((ec, false) ∷ [])) at,
        copies-append null xs ((ec, false) ∷ []),
        c,
        some_ec,
      ) in
      elim (Bool-cases (leb max_ecs (length xs))) [
        | inl full ↦ rw full tt
        | inr free ↦ rw (free, running) (clean, refl)
      ]

reprioritize_view-Stays :
    (ecs : Ecs) (v : View) (ec : Ptr) (prio : ℕ)
    → ec ≢ null
    → Clean v
    → Promised (λ r. Stays v r.1) (reprioritize_view ecs v ec prio)
unfolding reprioritize_view
reprioritize_view-Stays ecs v ec new_prio some_ec c = bind_any _ (deref (ecs ec)) _ λ e.
    Promised-lookup _ (get_elem? v.queues e.priority) _ λ xs at.
      elim (Option-cases (position 0 ec xs)) [
        | inl missing ↦ rw missing (c, refl)
        | inr (i, found) ↦
            let taken = copies-remove_nth null ec 0 i i xs found (omega arith) in
            let left = copies_in-set null v.queues e.priority xs (remove_nth i xs) at in
            rw found (
              Promised-lookup _ (get_elem? (set v.queues e.priority (remove_nth i xs)) new_prio) _
                λ ys at'.
                  let entry : List Entry = (ec, (get_or xs i (null, false)).1) ∷ [] in
                  (
                    ground (
                      arith,
                      left,
                      taken,
                      copies_in-set null _ new_prio ys (ys ++ entry) at',
                      copies-append null ys entry,
                      c,
                      some_ec,
                    ),
                    refl,
                  ))
      ]

-- A valid scheduler with no null entry.
pub record IsSound (s : Scheduler) : Type 0 where
  pub valid : IsValid s
  pub clean : Clean (view s)

pub yield-IsSound :
    (ecs : Ecs) (s : Scheduler)
    → IsSound s
    → Promised (λ r. IsSound r.1 × (r.0 ≢ null) × (r.1.current_ec ≡ r.0)) (yield ecs s)
yield-IsSound ecs s v =
    weaken (yield ecs s) _ _ (λ r h. (record { valid = h.0; clean = h.1.0 }, h.1.1, h.1.2))
      (promise_both Chosen (yield-Refines ecs s v.valid) (yield_view-Chosen ecs (view s) v.clean))

-- What `block` returns.
abbrev pub Resumes : Scheduler → Option Ptr × Scheduler → Type 0
Resumes s (none, t) = IsSound t × (t.current_ec ≡ s.current_ec)
Resumes s (some p, t) = IsSound t × (p ≢ null) × (t.current_ec ≡ p)

pub block-IsSound :
    (ecs : Ecs) (s : Scheduler) (ec : Ptr)
    → ec ≢ null
    → IsSound s
    → Promised (Resumes s) (block ecs s ec)
block-IsSound ecs s ec some_ec v = weaken (block ecs s ec) _ _ resume (
    promise_both (Continues (view s)) (block-Refines ecs s ec v.valid some_ec)
      (block_view-Continues ecs (view s) ec some_ec v.clean))
  where
    resume :
        (r : Option Ptr × Scheduler)
        → IsValid r.1 × Continues (view s) (r.0, view r.1)
        → Resumes s r
    resume (none, t) (h, (c, e)) = (record { valid = h; clean = c }, e)
    resume (some p, t) (h, (c, n, e)) = (record { valid = h; clean = c }, n, e)

-- The scheduler stays sound, and the same context runs.
abbrev pub Keeps : Scheduler → Scheduler → Type 0
Keeps s t = IsSound t × (t.current_ec ≡ s.current_ec)

pub unblock-IsSound :
    (ecs : Ecs) (s : Scheduler) (ec : Ptr) → IsSound s → Promised (Keeps s) (unblock ecs s ec)
unblock-IsSound ecs s ec v =
    weaken (unblock ecs s ec) _ _ (λ r h. (record { valid = h.0; clean = h.1.0 }, h.1.1))
      (promise_both (Stays (view s)) (unblock-Refines ecs s ec v.valid)
        (unblock_view-Stays ecs (view s) ec v.clean))

pub unblock_all-IsSound : (s : Scheduler) → IsSound s → Keeps s (unblock_all s)
unfolding unblock_all unblock_all_view
unblock_all-IsSound s v =
    let (h, e) = unblock_all-view s v.valid in
    (
      record {
        valid = h;
        clean =
            ap (λ (w : View). copies_in null w.queues) e
            ∙ copies_in-clear null (view s).queues
            ∙ v.clean;
      },
      refl,
    )

pub schedule-IsSound :
    (ecs : Ecs) (s : Scheduler) (ec : Ptr)
    → ec ≢ null
    → s.current_ec ≢ null
    → queued s.queues + running s.current_ec < max_ecs
    → IsSound s
    → Promised (Keeps s) (schedule ecs s ec)
schedule-IsSound ecs s ec some_ec busy room v =
    weaken (schedule ecs s ec) _ _ (λ r h. (record { valid = h.0; clean = h.1.0 }, h.1.1))
      (promise_both (Stays (view s)) (schedule-Refines ecs s ec v.valid room)
        (schedule_view-Stays ecs (view s) ec some_ec busy v.clean))

pub reprioritize-IsSound :
    (ecs : Ecs) (s : Scheduler) (ec : Ptr) (prio : ℕ)
    → ec ≢ null
    → IsSound s
    → Promised (λ r. Keeps s r.1) (reprioritize ecs s ec prio)
reprioritize-IsSound ecs s ec prio some_ec v =
    weaken (reprioritize ecs s ec prio) _ _ (λ r h. (record { valid = h.0; clean = h.1.0 }, h.1.1))
      (promise_both (λ (x : Ecs × View). Stays (view s) x.1)
        (reprioritize-Refines ecs s ec prio v.valid)
        (reprioritize_view-Stays ecs (view s) ec prio some_ec v.clean))
