-- ===== src/Scheduler/Operations.antt =====
-- The other operations of `class Scheduler` (kern/src/scheduler.cc) against their list
-- counterparts.
use nova_mckernel_lab.Base.{
  ℕ, ◌+◌, ◌<◌, ◌≡◌, refl, sym, ap, ap₂, ◌∙◌, ◌≢◌, subst, Bool, true, false, Option, none, some,
  List, [], ◌∷◌, ◌++◌, map, inl, inr, Bool-cases, Option-cases, arith, ◌==◌, if◌then◌else◌, leb,
  length, get_elem?, length-set,
}
use nova_mckernel_lab.Machine.{ok, ◌>>=◌, deref}
use nova_mckernel_lab.Refines
use nova_mckernel_lab.Refines.{Refines, returns, panics, faults, bind_same}
use nova_mckernel_lab.Ec.{Ptr, null, Ecs}
use nova_mckernel_lab.Scheduler.{
  Queue, Scheduler, max_ecs, index_of, flag, priority_of, queue_at, set_queue, enqueue, requeue,
  yield, schedule, find, mark, block, unblock, unblock_queues, unblock_all, remove_at, set_priority,
  reprioritize,
}
use nova_mckernel_lab.Scheduler.Ring.{Entry, entry, contents, get_or-window}
use nova_mckernel_lab.Scheduler.Entries.{length-contents, enqueue-contents}
use nova_mckernel_lab.Scheduler.Search.{
  mark-contents, clear_flags-contents, find-contents, find-Located,
}
use nova_mckernel_lab.Scheduler.Compact.{remove_at-contents}
use nova_mckernel_lab.Scheduler.Spec.{
  View, entries_at, set_entries, yield_view, schedule_view, requeue_view, mark_first, block_view,
  unblock_view, clear_from, unblock_all_view, reprioritize_view,
}
use nova_mckernel_lab.Scheduler.Valid.{
  view, AllRings, queued, running, IsValid, get-AllRings, set-AllRings, queued-set, count-le-queued,
}
use nova_mckernel_lab.Scheduler.Refine.{
  with_queue, view-set_queue, room-HasRoom, requeue-Refines, yield-Refines,
}

-- The end of `schedule`: an idle processor yields to the new context at once.
abbrev Admitted : Ecs → Scheduler → View → Type 0
Admitted ecs s w =
    Refines view IsValid (if s.current_ec == null then (yield ecs s >>= λ r. ok r.1) else ok s)
      (if w.current == null then (yield_view ecs w >>= λ r. ok r.1) else ok w)

admit-Refines : (ecs : Ecs) (s : Scheduler) → IsValid s → Admitted ecs s (view s)
admit-Refines ecs s v = elim (Bool-cases (s.current_ec == null)) [
  | inl idle ↦
      rw idle
        (Refines.bind (yield-Refines ecs s v) λ a b p e. returns p (ap (λ (c : Ptr × View). c.1) e))
  | inr busy ↦ rw busy (returns v refl)
]

-- `schedule` on a valid scheduler with fewer than `max_ecs` contexts queued or running is
-- `schedule_view` on its view: the same outcome, and the scheduler it leaves is valid.
pub schedule-Refines :
    (ecs : Ecs) (s : Scheduler) (ec : Ptr)
    → IsValid s
    → queued s.queues + running s.current_ec < max_ecs
    → Refines view IsValid (schedule ecs s ec) (schedule_view ecs (view s) ec)
unfolding schedule schedule_view
schedule-Refines ecs s ec v room = bind_same (priority_of ecs ec) _ _ λ prio _.
    with_queue s prio _ _ λ q at.
      let r = get-AllRings s.queues prio q v.rings at in
      let (r', c) =
        enqueue-contents q ec false r (omega (arith, count-le-queued s.queues prio q at)) in
      let s' = set_queue s prio (enqueue q ec false) in
      let v' : IsValid s' = record {
        size = length-set s.queues prio _ ∙ v.size;
        rings = set-AllRings s.queues prio _ v.rings r';
        room = omega (
          arith,
          queued-set s.queues prio q (enqueue q ec false) at,
          count-le-queued s.queues prio q at,
        );
      } in
      let shown = view-set_queue s prio (enqueue q ec false) _ c in
      rw (length-contents q) (elim (Bool-cases (leb max_ecs q.count)) [
        | inl full ↦ rw full panics
        | inr free ↦ rw free (subst (Admitted ecs s') shown (admit-Refines ecs s' v'))
      ])

length-mark_first :
    (ec : Ptr) (b : Bool) (xs : List Entry) → length (mark_first ec b xs) ≡ length xs
unfolding mark_first
length-mark_first ec b [] = refl
length-mark_first ec b (x ∷ xs) = ground (arith, length-mark_first ec b xs)

-- What marking a context in its ring keeps.
mark-IsValid :
    (s : Scheduler) (prio : ℕ) (q : Queue) (ec : Ptr) (b : Bool)
    → IsValid s
    → get_elem? s.queues prio ≡ some q
    → IsValid (set_queue s prio (mark q ec b))
mark-IsValid s prio q ec b v at = record {
  size = length-set s.queues prio _ ∙ v.size;
  rings =
      set-AllRings s.queues prio _ v.rings
        (mark-contents q ec b (get-AllRings s.queues prio q v.rings at)).0;
  room = omega (arith, queued-set s.queues prio q (mark q ec b) at, count-mark, v.room);
}
  where
    count-mark : (mark q ec b).count ≡ q.count
    count-mark =
        sym (length-contents (mark q ec b))
        ∙ ap length (mark-contents q ec b (get-AllRings s.queues prio q v.rings at)).1
        ∙ length-mark_first ec b (contents q)
        ∙ length-contents q

-- `unblock` on a valid scheduler is `unblock_view` on its view, which clears the flag of the first
-- entry of the context, and leaves it valid.
pub unblock-Refines :
    (ecs : Ecs) (s : Scheduler) (ec : Ptr)
    → IsValid s
    → Refines view IsValid (unblock ecs s ec) (unblock_view ecs (view s) ec)
unfolding unblock unblock_view
unblock-Refines ecs s ec v = bind_same (priority_of ecs ec) _ _ λ prio _.
    with_queue s prio _ _ λ q at. returns (mark-IsValid s prio q ec false v at) (
      view-set_queue s prio (mark q ec false) _
        (mark-contents q ec false (get-AllRings s.queues prio q v.rings at)).1)

-- The context to run next, if any, and the view.
abbrev pub option_choice : Option Ptr × Scheduler → Option Ptr × View
option_choice r = (r.0, view r.1)

-- Blocking the running context takes it off the processor.
block_self-Refines :
    (ecs : Ecs) (s : Scheduler) (ec : Ptr)
    → IsValid s
    → (s.current_ec == null) ≡ false
    → Refines option_choice
        (λ r. IsValid r.1)
        (requeue ecs s ec true >>= λ s'.
          yield ecs (record s' { current_ec = null }) >>= λ r. ok (some r.0, r.1))
        (requeue_view ecs (view s) ec true >>= λ w.
          yield_view ecs (record w { current = null }) >>= λ r. ok (some r.0, r.1))
block_self-Refines ecs s ec v busy =
    Refines.bind (requeue-Refines ecs s ec true (room-HasRoom s v busy)) λ s' w v' e.
      subst
        (λ (x : View).
          Refines option_choice (λ r. IsValid r.1)
            (yield ecs (record s' { current_ec = null }) >>= λ r. ok (some r.0, r.1))
            (yield_view ecs (record x { current = null }) >>= λ r. ok (some r.0, r.1)))
        e
        (Refines.bind (yield-Refines ecs (record s' { current_ec = null }) v')
          λ a b p d. returns p (ap (λ (c : Ptr × View). (some c.0, c.1)) d))

-- `block` of a context that is not null, on a valid scheduler, is `block_view` on its view: the same
-- outcome, and the scheduler it leaves is valid.
pub block-Refines :
    (ecs : Ecs) (s : Scheduler) (ec : Ptr)
    → IsValid s
    → ec ≢ null
    → Refines option_choice (λ r. IsValid r.1) (block ecs s ec) (block_view ecs (view s) ec)
unfolding block block_view
block-Refines ecs s ec v some_ec = elim (Bool-cases (ec == s.current_ec)) [
  | inl self ↦ rw self (block_self-Refines ecs s ec v (ground (arith, some_ec, self)))
  | inr other ↦ rw other (
      bind_same (priority_of ecs ec) _ _ λ prio _. with_queue s prio _ _ λ q at.
        returns (mark-IsValid s prio q ec true v at) (
          ap (λ w. (none, w))
            (view-set_queue s prio (mark q ec true) _
              (mark-contents q ec true (get-AllRings s.queues prio q v.rings at)).1)))
]

unblock_queues-contents :
    (qs : List Queue)
    → AllRings qs
    → AllRings (unblock_queues qs)
      × (map contents (unblock_queues qs) ≡ map (clear_from 0) (map contents qs))
      × (queued (unblock_queues qs) ≡ queued qs)
      × (length (unblock_queues qs) ≡ length qs)
unfolding unblock_queues
unblock_queues-contents [] r = (tt, refl, refl, refl)
unblock_queues-contents (q ∷ qs) r =
    let (r', c, k) = clear_flags-contents q r.0 in
    let (rs, cs, ks, n) = unblock_queues-contents qs r.1 in
    ((r', rs), ap₂ ◌∷◌ c cs, omega arith, omega arith)

-- `unblock_all` on a valid scheduler leaves it valid, and is `unblock_all_view` on its view, which
-- clears every flag.
pub unblock_all-view :
    (s : Scheduler)
    → IsValid s
    → IsValid (unblock_all s) × (view (unblock_all s) ≡ unblock_all_view (view s))
unfolding unblock_all unblock_all_view
unblock_all-view s v =
    let (rs, cs, ks, n) = unblock_queues-contents s.queues v.rings in
    (
      record { size = n ∙ v.size; rings = rs; room = omega (arith, v.room) },
      ap (λ qs. record { queues = qs; current = s.current_ec }) cs,
    )

-- The contexts in memory, and the view.
abbrev pub memory_view : Ecs × Scheduler → Ecs × View
memory_view r = (r.0, view r.1)

-- A scheduler that one context has left, and the entry of that context behind its new equals.
move-Refines :
    (ecs : Ecs) (s : Scheduler) (ec : Ptr) (new_prio : ℕ) (b : Bool)
    → IsValid s
    → queued s.queues + running s.current_ec < max_ecs
    → Refines memory_view
        (λ r. IsValid r.1)
        (queue_at s new_prio >>= λ q. ok (ecs, set_queue s new_prio (enqueue q ec b)))
        (entries_at (view s) new_prio >>= λ ys.
          ok (ecs, set_entries (view s) new_prio (ys ++ ((ec, b) ∷ []))))
unfolding enqueue
move-Refines ecs s ec new_prio b v room = with_queue s new_prio _ _ λ q at.
    let free = count-le-queued s.queues new_prio q at in
    let (r', c) =
      enqueue-contents q ec b (get-AllRings s.queues new_prio q v.rings at) (omega arith) in
    returns
      (record {
        size = length-set s.queues new_prio _ ∙ v.size;
        rings = set-AllRings s.queues new_prio _ v.rings r';
        room = omega (arith, queued-set s.queues new_prio q (enqueue q ec b) at, free);
      })
      (ap (λ w. (ecs, w)) (view-set_queue s new_prio (enqueue q ec b) _ c))

remove-IsValid :
    (s : Scheduler) (prio : ℕ) (q : Queue) (i : ℕ)
    → IsValid s
    → get_elem? s.queues prio ≡ some q
    → i < q.count
    → IsValid (set_queue s prio (remove_at q i))
      × (queued (set_queue s prio (remove_at q i)).queues + running s.current_ec < max_ecs)
remove-IsValid s prio q i v at h =
    let (r', c, n) = remove_at-contents q i (get-AllRings s.queues prio q v.rings at) h in
    let left = queued-set s.queues prio q (remove_at q i) at in
    (
      record {
        size = length-set s.queues prio _ ∙ v.size;
        rings = set-AllRings s.queues prio _ v.rings r';
        room = omega (arith, left, n, v.room);
      },
      omega (arith, left, n, v.room),
    )

-- `reprioritize` on a valid scheduler is `reprioritize_view` on its view and on the contexts: the same
-- outcome, and the scheduler it leaves is valid.
pub reprioritize-Refines :
    (ecs : Ecs) (s : Scheduler) (ec : Ptr) (new_prio : ℕ)
    → IsValid s
    → Refines memory_view
        (λ r. IsValid r.1)
        (reprioritize ecs s ec new_prio)
        (reprioritize_view ecs (view s) ec new_prio)
unfolding reprioritize reprioritize_view
reprioritize-Refines ecs s ec new_prio v = bind_same (deref (ecs ec)) _ _ λ e _.
    with_queue s e.priority _ _ λ q at.
      let r = get-AllRings s.queues e.priority q v.rings at in
      elim (Option-cases (find q.count 0 q ec)) [
        | inl missing ↦ rw (missing, sym (find-contents q ec r) ∙ missing) (returns v refl)
        | inr (i, f) ↦
            let found = find-Located q ec i r f in
            let left = remove-IsValid s e.priority q i v at found.inside in
            let s' = set_queue s e.priority (remove_at q i) in
            let b = flag q (index_of q i) in
            let shown =
              view-set_queue s e.priority (remove_at q i) _
                (remove_at-contents q i r found.inside).1 in
            let same =
              get_or-window (entry q) (null, false) q.count i q.head (index_of q i) r.head_in
                found.inside r.fits refl in
            rw (f, found.listed, ap (λ (x : Entry). x.1) same)
              (subst
                (λ (w : View).
                  Refines memory_view (λ r. IsValid r.1)
                    (queue_at s' new_prio >>= λ new_q.
                      ok (
                        set_priority ecs ec e new_prio,
                        set_queue s' new_prio (enqueue new_q ec b),
                      ))
                    (entries_at w new_prio >>= λ ys. ok (
                      set_priority ecs ec e new_prio,
                      set_entries w new_prio (ys ++ ((ec, b) ∷ [])),
                    )))
                shown
                (move-Refines (set_priority ecs ec e new_prio) s' ec new_prio b left.0 left.1))
      ]
