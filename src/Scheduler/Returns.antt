-- ===== src/Scheduler/Returns.antt =====
-- When the operations of the scheduler (kern/src/scheduler.cc) that choose no context return.
use nova_mckernel_lab.Base.{
  ℕ, zero, suc, ◌<◌, ◌≡◌, refl, ◌∙◌, false, none, some, ◌⊎◌, inl, inr, Option-cases, List, [], ◌∷◌,
  length, get_elem?, length-set, arith,
}
use nova_mckernel_lab.Machine.{ok, ◌>>=◌}
use nova_mckernel_lab.Refines.{Yields, Yields-lookup}
use nova_mckernel_lab.Ec.{Ptr, Ec, Ecs, store_ec}
use nova_mckernel_lab.Scheduler.{
  Queue, Scheduler, num_priorities, queue_at, set_queue, mark, find, remove_at, unblock,
  reprioritize, set_priority, enqueue, flag, index_of,
}

-- There is a queue for each priority.
abbrev pub HasQueues : Scheduler → Type 0
HasQueues s = length s.queues ≡ num_priorities

abbrev pub Ranked : Ec → Type 0
Ranked e = (e.priority < num_priorities) × (e.saved_priority < num_priorities)

get_elem?-some :
    {A : Type 0} (xs : List A) (i : ℕ) → i < length xs → (a : A) × (get_elem? xs i ≡ some a)
get_elem?-some [] i h = absurd (omega arith)
get_elem?-some (x ∷ xs) zero h = (x, refl)
get_elem?-some (x ∷ xs) (suc i) h = get_elem?-some xs i (omega (arith, h))

pub queue_at-some :
    (s : Scheduler) (prio : ℕ)
    → HasQueues s
    → prio < num_priorities
    → (q : Queue) × (get_elem? s.queues prio ≡ some q)
queue_at-some s prio h small = get_elem?-some s.queues prio (omega (arith, h))

pub unblock-Yields :
    (ecs : Ecs) (s : Scheduler) (ec : Ptr) (e : Ec)
    → HasQueues s
    → ecs ec ≡ some e
    → e.priority < num_priorities
    → Yields HasQueues (unblock ecs s ec)
unfolding unblock
unblock-Yields ecs s ec e h at small =
    let (q, e') = queue_at-some s e.priority h small in
    (
      set_queue s e.priority (mark q ec false),
      rw (at, e') refl,
      length-set s.queues e.priority _ ∙ h,
    )

pub reprioritize-Yields :
    (ecs : Ecs) (s : Scheduler) (ec : Ptr) (e : Ec) (prio : ℕ)
    → HasQueues s
    → ecs ec ≡ some e
    → e.priority < num_priorities
    → prio < num_priorities
    → Yields
        (λ r. (r.0 ≡ store_ec ecs ec (record e { priority = prio })) × HasQueues r.1)
        (reprioritize ecs s ec prio)
unfolding reprioritize
reprioritize-Yields ecs s ec e prio h at small small' =
    let (q, at_q) = queue_at-some s e.priority h small in
    Yields-lookup (ecs ec) _ e at (
      Yields-lookup (get_elem? s.queues e.priority) _ q at_q
        (moved q (Option-cases (find q.count 0 q ec))))
  where
    moved :
        (q : Queue)
        → (find q.count 0 q ec ≡ none) ⊎ ((i : ℕ) × (find q.count 0 q ec ≡ some i))
        → Yields
            (λ (r : Ecs × Scheduler).
              (r.0 ≡ store_ec ecs ec (record e { priority = prio })) × HasQueues r.1)
            (elim (find q.count 0 q ec) [
              | none ↦ ok (set_priority ecs ec e prio, s)
              | some i ↦
                  (let was_blocked = flag q (index_of q i) in
                    let s' = set_queue s e.priority (remove_at q i) in
                    queue_at s' prio >>= λ new_q.
                    ok (
                      set_priority ecs ec e prio,
                      set_queue s' prio (enqueue new_q ec was_blocked),
                    ))
            ])
    moved q (inl missing) = rw missing ((set_priority ecs ec e prio, s), refl, (refl, h))
    moved q (inr (i, found)) =
        let s' = set_queue s e.priority (remove_at q i) in
        let h' : HasQueues s' = length-set s.queues e.priority _ ∙ h in
        let (q', at_q') = queue_at-some s' prio h' small' in
        rw found (
          Yields-lookup (get_elem? s'.queues prio) _ q' at_q'
            (_, refl, (refl, length-set s'.queues prio _ ∙ h')))
