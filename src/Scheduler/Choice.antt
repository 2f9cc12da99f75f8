-- ===== src/Scheduler/Choice.antt =====
-- Which context `Scheduler::yield` (kern/src/scheduler.cc) chooses.
use nova_mckernel_lab.Base.{
  ℕ, ◌<◌, ◌≡◌, refl, sym, ◌≢◌, zero, suc, ap, ◌∙◌, subst, true, false, Option, none, some, List, [],
  ◌∷◌, ◌++◌, append_assoc, append-nil, arith, get_elem?, set, ◌==◌, length,
}
use mathlib.Core.Option
use nova_mckernel_lab.Machine.{ok}
use nova_mckernel_lab.Refines.{returned}
use nova_mckernel_lab.Ec.{Ptr, null, Ec, Ecs}
use nova_mckernel_lab.Scheduler.{Scheduler, yield}
use nova_mckernel_lab.Scheduler.Ring.{Entry}
use nova_mckernel_lab.Scheduler.Spec.{
  View, next_runnable, pick_view, requeue_view, dispatch_view, yield_view,
}
use nova_mckernel_lab.Scheduler.Valid.{view, IsValid}
use nova_mckernel_lab.Scheduler.Refine.{yield-Refines}

abbrev pub AllBlocked : List Entry → Type 0
AllBlocked [] = Unit {0}
AllBlocked ((p, b) ∷ xs) = (b ≡ true) × AllBlocked xs

abbrev pub AllBlockedIn : List (List Entry) → Type 0
AllBlockedIn [] = Unit {0}
AllBlockedIn (xs ∷ qs) = AllBlocked xs × AllBlockedIn qs

-- The outcome of a search of one list: `pre` are the entries passed over.
pub data Search (xs : List Entry) : Option Ptr → List Entry → Type 0 where
  missing : AllBlocked xs → Search xs none xs
  here :
      {ys : List Entry} (pre : List Entry) (ec : Ptr) (post : List Entry)
      → AllBlocked pre
      → xs ≡ pre ++ ((ec, false) ∷ post)
      → ys ≡ post ++ pre
      → Search xs (some ec) ys

AllBlocked-append : (xs ys : List Entry) → AllBlocked xs → AllBlocked ys → AllBlocked (xs ++ ys)
AllBlocked-append [] ys a b = b
AllBlocked-append (x ∷ xs) ys a b = (a.0, AllBlocked-append xs ys a.1 b)

Search-from :
    (passed xs : List Entry)
    → AllBlocked passed
    → let (found, ys) = next_runnable passed xs in Search (passed ++ xs) found ys
unfolding next_runnable
Search-from passed [] b = subst (λ zs. Search zs none passed) (sym (append-nil passed)) (missing b)
Search-from passed ((p, true) ∷ xs) b =
    let rest =
      Search-from (passed ++ ((p, true) ∷ [])) xs (AllBlocked-append passed _ b (refl, tt)) in
    subst
      (λ zs.
        Search zs (next_runnable (passed ++ ((p, true) ∷ [])) xs).0
          (next_runnable (passed ++ ((p, true) ∷ [])) xs).1)
      (append_assoc passed ((p, true) ∷ []) xs) rest
Search-from passed ((p, false) ∷ xs) b = here passed p xs b refl refl

-- A search of the queues, highest priority first: either every entry is blocked, or `ec` is the
-- first entry of its queue that is not, every entry of a higher priority being blocked; it leaves
-- its queue, and the entries before it go behind the others.
pub data Choice (qs : List (List Entry)) : Option (Ptr × List (List Entry)) → Type 0 where
  all_blocked : AllBlockedIn qs → Choice qs none
  first :
      {qs' : List (List Entry)} (ec : Ptr) (higher lower : List (List Entry))
      (pre post : List Entry)
      → AllBlockedIn higher
      → AllBlocked pre
      → qs ≡ higher ++ ((pre ++ ((ec, false) ∷ post)) ∷ lower)
      → qs' ≡ higher ++ ((post ++ pre) ∷ lower)
      → Choice qs (some (ec, qs'))

Choice-skip :
    {qs : List (List Entry)} {o : Option (Ptr × List (List Entry))} (xs : List Entry)
    → AllBlocked xs
    → Choice qs o
    → Choice (xs ∷ qs) (Option.map (λ r. (r.0, xs ∷ r.1)) o)
Choice-skip xs b (all_blocked bs) = all_blocked (b, bs)
Choice-skip xs b (first ec higher lower pre post bs bp e e') =
    first ec (xs ∷ higher) lower pre post (b, bs) bp (ap (◌∷◌ xs) e) (ap (◌∷◌ xs) e')

pub pick_view-Choice : (qs : List (List Entry)) → Choice qs (pick_view qs)
unfolding pick_view
pick_view-Choice [] = all_blocked tt
pick_view-Choice (xs ∷ qs) = go (pick_view-Choice qs) (Search-from [] xs tt)
  where
    go :
        {found : Option Ptr} {ys : List Entry}
        → Choice qs (pick_view qs)
        → Search xs found ys
        → Choice (xs ∷ qs) (elim found [
          | some ec ↦ some (ec, ys ∷ qs)
          | none ↦ Option.map (λ r. (r.0, ys ∷ r.1)) (pick_view qs)
        ])
    go rest (missing b) = Choice-skip xs b rest
    go rest (here pre ec post b e e') =
        first ec [] qs pre post tt b (ap (λ zs. zs ∷ qs) e) (ap (λ zs. zs ∷ qs) e')

index_in :
    (qs : List (List Entry)) (i : ℕ) {xs : List Entry} → get_elem? qs i ≡ some xs → i < length qs
index_in [] i e = absurd (cc e)
index_in (q ∷ qs) zero e = omega arith
index_in (q ∷ qs) (suc i) e = omega (arith, index_in qs i e)

-- With the running context of priority `prio` put behind its equals.
abbrev pub requeued : View → ℕ → List Entry → List (List Entry)
requeued v prio xs = set v.queues prio (xs ++ ((v.current, false) ∷ []))

not-AllBlocked : (p : Ptr) (xs : List Entry) → ¬ AllBlocked (xs ++ ((p, false) ∷ []))
not-AllBlocked p [] b = cc b.0
not-AllBlocked p (x ∷ xs) b = not-AllBlocked p xs b.1

not-AllBlockedIn :
    (p : Ptr) (qs : List (List Entry)) (i : ℕ) (xs : List Entry)
    → i < length qs
    → ¬ AllBlockedIn (set qs i (xs ++ ((p, false) ∷ [])))
not-AllBlockedIn p [] i xs h b = absurd (omega arith)
not-AllBlockedIn p (q ∷ qs) zero xs h b = not-AllBlocked p xs b.0
not-AllBlockedIn p (q ∷ qs) (suc i) xs h b = not-AllBlockedIn p qs i xs (omega arith) b.1

dispatch_view_chooses :
    (v : View)
    → ¬ AllBlockedIn v.queues
    → (ec : Ptr) × (w : View) × (dispatch_view v ≡ ok (ec, w))
      × Choice v.queues (some (ec, w.queues))
      × (w.current ≡ ec)
unfolding dispatch_view
dispatch_view_chooses v ready = go (pick_view v.queues) refl (pick_view-Choice v.queues)
  where
    go :
        (o : Option (Ptr × List (List Entry)))
        → pick_view v.queues ≡ o
        → Choice v.queues o
        → (ec : Ptr) × (w : View) × (dispatch_view v ≡ ok (ec, w))
          × Choice v.queues (some (ec, w.queues))
          × (w.current ≡ ec)
    go none e (all_blocked b) = absurd (ready b)
    go (some (ec, qs)) e c =
        (ec, record { queues = qs; current = ec }, rw (e, dispatch_view), c, refl)

-- On a valid scheduler, a yield by a running context whose priority has a queue returns, with a
-- context that the scheduler then runs, and the scheduler is valid. With the caller put behind its
-- equals, the chosen context is the first of its queue that is not blocked, and all of a higher
-- priority are blocked.
pub yield_chooses :
    (ecs : Ecs) (s : Scheduler) (e : Ec) (xs : List Entry)
    → IsValid s
    → s.current_ec ≢ null
    → ecs s.current_ec ≡ some e
    → get_elem? (view s).queues e.priority ≡ some xs
    → (ec : Ptr) × (s' : Scheduler) × (yield ecs s ≡ ok (ec, s'))
      × IsValid s'
      × Choice (requeued (view s) e.priority xs) (some (ec, (view s').queues))
      × (s'.current_ec ≡ ec)
unfolding yield_view requeue_view
yield_chooses ecs s e xs v busy at_ec at_queue =
    let running : (s.current_ec == null) ≡ false = ground (arith, busy) in
    let w : View = record { queues = requeued (view s) e.priority xs; current = null } in
    let (ec, w', d, c, k) =
      dispatch_view_chooses w
        (not-AllBlockedIn s.current_ec (view s).queues e.priority xs (index_in _ _ at_queue)) in
    let same : yield_view ecs (view s) ≡ ok (ec, w') = rw (running, at_ec, at_queue) d in
    let (r, y, v', shown) = returned (yield-Refines ecs s v) (ec, w') same in
    (
      r.0,
      r.1,
      y,
      v',
      subst (λ (x : Ptr × View). Choice w.queues (some (x.0, x.1.queues))) (sym shown) c,
      ap (λ (x : Ptr × View). x.1.current) shown ∙ k ∙ sym (ap (λ (x : Ptr × View). x.0) shown),
    )
