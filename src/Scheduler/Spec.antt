-- ===== src/Scheduler/Spec.antt =====
-- What the scheduler (kern/src/scheduler.cc) promises, over plain lists: one list of entries for
-- each priority, oldest first, and no arrays, indices or counters.
use mathlib.Core.Option
use nova_mckernel_lab.Base.{
  ℕ, zero, suc, ◌+◌, Bool, true, false, Option, none, some, List, [], ◌∷◌, ◌++◌, map, ◌==◌,
  if◌then◌else◌, leb, length, get_elem?, get_or, set,
}
use nova_mckernel_lab.Machine.{Outcome, ok, panic, queue_full, no_runnable, ◌>>=◌, deref}
use nova_mckernel_lab.Ec.{Ptr, null, Ecs}
use nova_mckernel_lab.Scheduler.{max_ecs, priority_of, set_priority}
use nova_mckernel_lab.Scheduler.Ring.{Entry}

-- The first entry that is not blocked, `passed` being the entries already seen: what is found, and
-- the entries that are left, those passed behind the others.
unfoldable pub next_runnable : List Entry → List Entry → Option Ptr × List Entry
next_runnable passed [] = (none, passed)
next_runnable passed ((p, true) ∷ xs) = next_runnable (passed ++ ((p, true) ∷ [])) xs
next_runnable passed ((p, false) ∷ xs) = (some p, xs ++ passed)

-- The position of the first entry of `ec`, counted from `i`.
unfoldable pub position : ℕ → Ptr → List Entry → Option ℕ
position i ec [] = none
position i ec ((p, b) ∷ xs) = if p == ec then some i else position (i + 1) ec xs

-- The first entry of `ec` with its flag set to `b`.
unfoldable pub mark_first : Ptr → Bool → List Entry → List Entry
mark_first ec b [] = []
mark_first ec b ((p, f) ∷ xs) = if p == ec then (p, b) ∷ xs else (p, f) ∷ mark_first ec b xs

unfoldable pub remove_nth : ℕ → List Entry → List Entry
remove_nth i [] = []
remove_nth zero (x ∷ xs) = xs
remove_nth (suc i) (x ∷ xs) = x ∷ remove_nth i xs

-- Every flag from position `i` on cleared.
unfoldable pub clear_from : ℕ → List Entry → List Entry
clear_from i [] = []
clear_from zero ((p, b) ∷ xs) = (p, false) ∷ clear_from zero xs
clear_from (suc i) (x ∷ xs) = x ∷ clear_from i xs

-- The scheduler as its clients see it.
pub record View : Type 0 where
  pub queues : List (List Entry)
  pub current : Ptr

-- The first runnable context of the highest priority that has one. The blocked entries before it,
-- and those of higher priorities, keep their order.
unfoldable pub pick_view : List (List Entry) → Option (Ptr × List (List Entry))
pick_view [] = none
pick_view (xs ∷ qs) =
    let (found, ys) = next_runnable [] xs in
    elim found [
      | some ec ↦ some (ec, ys ∷ qs)
      | none ↦ Option.map (λ r. (r.0, ys ∷ r.1)) (pick_view qs)
    ]

abbrev pub entries_at : View → ℕ → Outcome (List Entry)
entries_at v prio = deref (get_elem? v.queues prio)

abbrev pub set_entries : View → ℕ → List Entry → View
set_entries v prio xs = record v { queues = set v.queues prio xs }

unfoldable pub requeue_view : Ecs → View → Ptr → Bool → Outcome View
requeue_view ecs v ec b = do
  prio ← priority_of ecs ec
  xs ← entries_at v prio
  ok (set_entries v prio (xs ++ ((ec, b) ∷ [])))

unfoldable pub dispatch_view : View → Outcome (Ptr × View)
dispatch_view v = elim (pick_view v.queues) [
  | none ↦ panic no_runnable
  | some (ec, qs) ↦ ok (ec, record { queues = qs; current = ec })
]

-- The running context, if there is one, goes behind its equals, and the first runnable one runs.
unfoldable pub yield_view : Ecs → View → Outcome (Ptr × View)
yield_view ecs v =
    if v.current == null
    then dispatch_view v
    else (requeue_view ecs v v.current false >>= λ w. dispatch_view (record w { current = null }))

unfoldable pub schedule_view : Ecs → View → Ptr → Outcome View
schedule_view ecs v ec = do
  prio ← priority_of ecs ec
  xs ← entries_at v prio
  if leb max_ecs (length xs)
      then panic (queue_full prio)
      else (let w = set_entries v prio (xs ++ ((ec, false) ∷ [])) in
          if w.current == null then (yield_view ecs w >>= λ r. ok r.1) else ok w)

unfoldable pub block_view : Ecs → View → Ptr → Outcome (Option Ptr × View)
block_view ecs v ec =
    if ec == v.current
    then (do
      w ← requeue_view ecs v ec true
      (next, w') ← yield_view ecs (record w { current = null })
      ok (some next, w'))
    else (do
      prio ← priority_of ecs ec
      xs ← entries_at v prio
      ok (none, set_entries v prio (mark_first ec true xs)))

unfoldable pub unblock_view : Ecs → View → Ptr → Outcome View
unblock_view ecs v ec = do
  prio ← priority_of ecs ec
  xs ← entries_at v prio
  ok (set_entries v prio (mark_first ec false xs))

unfoldable pub unblock_all_view : View → View
unblock_all_view v = record v { queues = map (clear_from 0) v.queues }

-- A queued context moves behind the entries of its new priority, its flag kept; any context takes
-- the new priority.
unfoldable pub reprioritize_view : Ecs → View → Ptr → ℕ → Outcome (Ecs × View)
reprioritize_view ecs v ec new_prio = do
  e ← deref (ecs ec)
  xs ← entries_at v e.priority
  elim (position 0 ec xs) [
    | none ↦ ok (set_priority ecs ec e new_prio, v)
    | some i ↦
        (let w = set_entries v e.priority (remove_nth i xs) in
          entries_at w new_prio >>= λ ys. ok (
            set_priority ecs ec e new_prio,
            set_entries w new_prio (ys ++ ((ec, (get_or xs i (null, false)).1) ∷ [])),
          ))
  ]
