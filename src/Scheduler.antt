-- ===== src/Scheduler.antt =====
-- kern/include/scheduler.h and kern/src/scheduler.cc: one ring of execution contexts for each
-- priority, and the context that runs. An operation returns the new scheduler; the flags of
-- `Queue::blocked`, which are only ever 0 or 1, are Booleans. A queue is looked up by the priority
-- that the context holds, and an index past the last queue is a fault.
pub mod Priority
pub mod Ring
pub mod Entries
pub mod Spec
pub mod Search
pub mod Compact
pub mod Valid
pub mod Pick
pub mod Refine
pub mod Operations
pub mod Population
pub mod Runs
pub mod Choice
pub mod Overflow
pub mod Current
pub mod First
pub mod Returns
pub mod Faults
use mathlib.Core.Option
use nova_mckernel_lab.Base.{
  ℕ, zero, suc, ◌+◌, ◌-◌, ◌%◌, Bool, true, false, Option, none, some, List, [], ◌∷◌, leb, ◌==◌,
  if◌then◌else◌, get_elem?, get_or, set, replicate,
}
use nova_mckernel_lab.Machine.{
  add32, sub32, queue_full, no_runnable, Outcome, ok, panic, ◌>>=◌, deref,
}
use nova_mckernel_lab.Ec.{Ptr, null, Ec, Ecs, store_ec}

abbrev pub num_priorities : ℕ
num_priorities = 2

abbrev pub max_ecs : ℕ
max_ecs = 8

-- `struct Queue`.
pub record Queue : Type 0 where
  pub slots : List Ptr
  pub head : ℕ
  pub tail : ℕ
  pub count : ℕ
  pub blocked : List Bool

unfoldable pub empty_queue : Queue
empty_queue = record {
  slots = replicate max_ecs null;
  head = 0;
  tail = 0;
  count = 0;
  blocked = replicate max_ecs false;
}

-- `class Scheduler`.
pub record Scheduler : Type 0 where
  pub queues : List Queue
  pub current_ec : Ptr

unfoldable pub new_scheduler : Scheduler
unfolding empty_queue
new_scheduler = record { queues = replicate num_priorities empty_queue; current_ec = null }

-- `(i + 1) % MAX_ECS`, and the index of the `i`-th entry.
abbrev pub next_index : ℕ → ℕ
next_index i = add32 i 1 % max_ecs

abbrev pub index_of : Queue → ℕ → ℕ
index_of q i = add32 q.head i % max_ecs

abbrev pub slot : Queue → ℕ → Ptr
slot q i = get_or q.slots i null

abbrev pub flag : Queue → ℕ → Bool
flag q i = get_or q.blocked i false

-- `q.slots[q.tail] = ec; q.blocked[q.tail] = b; q.tail = (q.tail + 1) % MAX_ECS`.
unfoldable pub put_tail : Queue → Ptr → Bool → Queue
put_tail q ec b = record q {
  slots = set q.slots q.tail ec;
  blocked = set q.blocked q.tail b;
  tail = next_index q.tail;
}

-- The same with `q.count++`: an entry joins the ring. Nothing here tests whether it is full.
unfoldable pub enqueue : Queue → Ptr → Bool → Queue
unfolding put_tail
enqueue q ec b = let r = put_tail q ec b in record r { count = add32 q.count 1 }

-- The inner loop of `yield`, `n` rounds of it left: the first entry that is not blocked leaves the
-- ring, and the entries before it go round to the tail.
pub scan : ℕ → Queue → Option Ptr × Queue
unfolding put_tail
scan zero q = (none, q)
scan (suc n) q =
    let ec = slot q q.head in
    let popped = record q { head = next_index q.head } in
    elim (flag q q.head) [
      | false ↦ (some ec, record popped { count = sub32 q.count 1 })
      | true ↦ scan n (put_tail popped ec true)
    ]

-- The outer loop of `yield`: the queues from the highest priority on.
pub pick : List Queue → Option (Ptr × List Queue)
unfolding scan
pick [] = none
pick (q ∷ qs) =
    let (found, q') = scan q.count q in
    elim found [ some ec ↦ some (ec, q' ∷ qs) | none ↦ Option.map (λ r. (r.0, q' ∷ r.1)) (pick qs) ]

-- `queues[prio]`, and the array with that queue replaced.
abbrev pub queue_at : Scheduler → ℕ → Outcome Queue
queue_at s prio = deref (get_elem? s.queues prio)

abbrev pub set_queue : Scheduler → ℕ → Queue → Scheduler
set_queue s prio q = record s { queues = set s.queues prio q }

-- `queues[ec->priority]`, with that priority.
abbrev pub priority_of : Ecs → Ptr → Outcome ℕ
priority_of ecs ec = deref (ecs ec) >>= λ e. ok e.priority

-- `q.slots[q.tail] = ec; …; q.count++` on the queue of `ec`'s priority.
pub requeue : Ecs → Scheduler → Ptr → Bool → Outcome Scheduler
unfolding enqueue
requeue ecs s ec b = do
  prio ← priority_of ecs ec
  q ← queue_at s prio
  ok (set_queue s prio (enqueue q ec b))

-- The search of `yield` once the running context is off the processor.
pub dispatch : Scheduler → Outcome (Ptr × Scheduler)
unfolding pick
dispatch s = elim (pick s.queues) [
  | none ↦ panic no_runnable
  | some (ec, qs) ↦ ok (ec, record { queues = qs; current_ec = ec })
]

-- `Scheduler::yield`.
pub yield : Ecs → Scheduler → Outcome (Ptr × Scheduler)
unfolding requeue dispatch
yield ecs s =
    if s.current_ec == null
    then dispatch s
    else (requeue ecs s s.current_ec false >>= λ s'. dispatch (record s' { current_ec = null }))

-- `Scheduler::schedule`.
unfoldable pub schedule : Ecs → Scheduler → Ptr → Outcome Scheduler
unfolding enqueue yield
schedule ecs s ec = do
  prio ← priority_of ecs ec
  q ← queue_at s prio
  if leb max_ecs q.count
      then panic (queue_full prio)
      else (let s' = set_queue s prio (enqueue q ec false) in
          if s'.current_ec == null then (yield ecs s' >>= λ r. ok r.1) else ok s')

-- The loops that look for `ec` among the entries: the first position that holds it, `n` positions
-- from `i` on left to read.
pub find : ℕ → ℕ → Queue → Ptr → Option ℕ
find zero i q ec = none
find (suc n) i q ec =
    let rest = find n (i + 1) q ec in if slot q (index_of q i) == ec then some i else rest

-- `q.blocked[idx] = b` at the first entry that holds `ec`.
pub mark : Queue → Ptr → Bool → Queue
unfolding find
mark q ec b = elim (find q.count 0 q ec) [
  | none ↦ q
  | some i ↦ record q { blocked = set q.blocked (index_of q i) b }
]

-- `Scheduler::block`: the context that runs next, if the caller's was blocked.
pub block : Ecs → Scheduler → Ptr → Outcome (Option Ptr × Scheduler)
unfolding requeue yield mark
block ecs s ec =
    if ec == s.current_ec
    then (do
      s' ← requeue ecs s ec true
      (next, s'') ← yield ecs (record s' { current_ec = null })
      ok (some next, s''))
    else (do
      prio ← priority_of ecs ec
      q ← queue_at s prio
      ok (none, set_queue s prio (mark q ec true)))

-- `Scheduler::unblock`.
pub unblock : Ecs → Scheduler → Ptr → Outcome Scheduler
unfolding mark
unblock ecs s ec = do
  prio ← priority_of ecs ec
  q ← queue_at s prio
  ok (set_queue s prio (mark q ec false))

-- The inner loop of `unblock_all`, `n` positions from `i` on left.
pub clear_flags : ℕ → ℕ → Queue → Queue
clear_flags zero i q = q
clear_flags (suc n) i q =
    clear_flags n (i + 1) (record q { blocked = set q.blocked (index_of q i) false })

pub unblock_queues : List Queue → List Queue
unfolding clear_flags
unblock_queues [] = []
unblock_queues (q ∷ qs) = clear_flags q.count 0 q ∷ unblock_queues qs

-- `Scheduler::unblock_all`.
pub unblock_all : Scheduler → Scheduler
unfolding unblock_queues
unblock_all s = record s { queues = unblock_queues s.queues }

-- `old_q.slots[cur] = old_q.slots[nxt]; old_q.blocked[cur] = old_q.blocked[nxt]`, `n` rounds from
-- `j` on left.
pub compact : ℕ → ℕ → Queue → Queue
compact zero j q = q
compact (suc n) j q =
    let cur = index_of q j in
    let nxt = add32 (add32 q.head j) 1 % max_ecs in
    compact n (j + 1)
      (record q { slots = set q.slots cur (slot q nxt); blocked = set q.blocked cur (flag q nxt) })

-- The entry at position `i` leaves the ring. The loop runs while `j + 1 < count`.
pub remove_at : Queue → ℕ → Queue
unfolding compact
remove_at q i =
    let r = compact (q.count - (i + 1)) i q in
    record r { tail = add32 (sub32 q.tail 1) max_ecs % max_ecs; count = sub32 q.count 1 }

-- `ec->priority = new_prio`.
abbrev pub set_priority : Ecs → Ptr → Ec → ℕ → Ecs
set_priority ecs p e new_prio = store_ec ecs p (record e { priority = new_prio })

-- `Scheduler::reprioritize`.
pub reprioritize : Ecs → Scheduler → Ptr → ℕ → Outcome (Ecs × Scheduler)
unfolding find remove_at enqueue
reprioritize ecs s ec new_prio = do
  e ← deref (ecs ec)
  old_q ← queue_at s e.priority
  elim (find old_q.count 0 old_q ec) [
    | none ↦ ok (set_priority ecs ec e new_prio, s)
    | some i ↦
        (let was_blocked = flag old_q (index_of old_q i) in
          let s' = set_queue s e.priority (remove_at old_q i) in
          queue_at s' new_prio >>= λ new_q.
          ok (set_priority ecs ec e new_prio, set_queue s' new_prio (enqueue new_q ec was_blocked)))
  ]
