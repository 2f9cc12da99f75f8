-- ===== src/Scheduler/Population.antt =====
-- No operation of the scheduler (kern/src/scheduler.cc) loses or duplicates a context: each is
-- held, waiting or running, as often as before.
use nova_mckernel_lab.Base.{
  ℕ, zero, suc, ◌+◌, ◌≤◌, ◌≡◌, refl, ap, ◌∙◌, ◌≢◌, Bool, true, false, Option, none, some, List, [],
  ◌∷◌, ◌++◌, map, inl, inr, Bool-cases, Option-cases, arith, ◌==◌, if◌then◌else◌, get_elem?, get_or,
  set, leb, length,
}
use mathlib.Core.Option
use nova_mckernel_lab.Machine.{Outcome, ok, panic, fault, deref, no_runnable}
use nova_mckernel_lab.Refines.{Promised, bind_any, bind-Promised, Promised-lookup}
use nova_mckernel_lab.Ec.{Ptr, null, Ecs}
use nova_mckernel_lab.Scheduler.{priority_of, max_ecs}
use nova_mckernel_lab.Scheduler.Ring.{Entry}
use nova_mckernel_lab.Scheduler.Spec.{
  View, next_runnable, position, mark_first, remove_nth, clear_from, pick_view, requeue_view,
  dispatch_view, yield_view, block_view, unblock_view, unblock_all_view, reprioritize_view,
  schedule_view,
}

-- 1 if the two are the same context.
abbrev pub same : Ptr → Ptr → ℕ
same p q = if q == p then 1 else 0

position-ge : (ec : Ptr) (i k : ℕ) (xs : List Entry) → position i ec xs ≡ some k → i ≤ k
unfolding position
position-ge ec i k [] e = absurd (cc e)
position-ge ec i k ((q, b) ∷ xs) e = ground (arith, position-ge ec (i + 1) k xs)

-- A statement about what is found, if anything is.
abbrev OnSome : {A : Type 0} → (A → Type 0) → Option A → Type 0
OnSome Q none = Unit
OnSome Q (some a) = Q a

OnSome-map :
    {A B : Type 0} (Q : A → Type 0) (R : B → Type 0) (f : A → B) (o : Option A)
    → ((a : A) → Q a → R (f a))
    → OnSome Q o
    → OnSome R (Option.map f o)
OnSome-map Q R f none next q = tt
OnSome-map Q R f (some a) next q = next a q

module _ (p : Ptr) where
  abbrev pub copies : List Entry → ℕ
  copies [] = 0
  copies ((q, b) ∷ xs) = same p q + copies xs

  abbrev pub copies_in : List (List Entry) → ℕ
  copies_in [] = 0
  copies_in (xs ∷ qs) = copies xs + copies_in qs

  -- How often `p` is in a ring or runs.
  abbrev pub held : View → ℕ
  held v = copies_in v.queues + same p v.current

  abbrev copies_of : Option Ptr → ℕ
  copies_of none = 0
  copies_of (some q) = same p q

  pub copies-append : (xs ys : List Entry) → copies (xs ++ ys) ≡ copies xs + copies ys
  copies-append [] ys = omega arith
  copies-append (x ∷ xs) ys = omega (arith, copies-append xs ys)

  copies-next_runnable :
      (passed xs : List Entry)
      → let (found, ys) = next_runnable passed xs in
        copies ys + copies_of found ≡ copies passed + copies xs
  unfolding next_runnable
  copies-next_runnable passed [] = omega arith
  copies-next_runnable passed ((q, true) ∷ xs) = omega (
    arith,
    copies-next_runnable (passed ++ ((q, true) ∷ [])) xs,
    copies-append passed ((q, true) ∷ []),
  )
  copies-next_runnable passed ((q, false) ∷ xs) = omega (arith, copies-append xs passed)

  pub copies-mark_first :
      (ec : Ptr) (b : Bool) (xs : List Entry) → copies (mark_first ec b xs) ≡ copies xs
  unfolding mark_first
  copies-mark_first ec b [] = refl
  copies-mark_first ec b ((q, f) ∷ xs) = ground (arith, copies-mark_first ec b xs)

  copies-clear_from : (i : ℕ) (xs : List Entry) → copies (clear_from i xs) ≡ copies xs
  unfolding clear_from
  copies-clear_from i [] = refl
  copies-clear_from zero ((q, b) ∷ xs) = omega (arith, copies-clear_from zero xs)
  copies-clear_from (suc i) (x ∷ xs) = omega (arith, copies-clear_from i xs)

  pub copies-remove_nth :
      (ec : Ptr) (i j k : ℕ) (xs : List Entry)
      → position i ec xs ≡ some k
      → k ≡ i + j
      → copies (remove_nth j xs) + same p ec ≡ copies xs
  unfolding position remove_nth
  copies-remove_nth ec i j k [] e d = absurd (cc e)
  copies-remove_nth ec i zero k ((q, b) ∷ xs) e d = ground (arith, position-ge ec (i + 1) k xs)
  copies-remove_nth ec i (suc j) k ((q, b) ∷ xs) e d =
      ground (arith, copies-remove_nth ec (i + 1) j k xs)

  pub copies_in-set :
      (qs : List (List Entry)) (i : ℕ) (xs ys : List Entry)
      → get_elem? qs i ≡ some xs
      → copies_in (set qs i ys) + copies xs ≡ copies_in qs + copies ys
  copies_in-set [] i xs ys e = absurd (cc e)
  copies_in-set (x ∷ qs) zero xs ys e = ground arith
  copies_in-set (x ∷ qs) (suc i) xs ys e = omega (arith, copies_in-set qs i xs ys e)

  pub copies_in-clear : (qs : List (List Entry)) → copies_in (map (clear_from 0) qs) ≡ copies_in qs
  copies_in-clear [] = refl
  copies_in-clear (xs ∷ qs) = omega (arith, copies-clear_from 0 xs, copies_in-clear qs)

  abbrev Leaves : List (List Entry) → Ptr × List (List Entry) → Type 0
  Leaves qs r = copies_in r.1 + same p r.0 ≡ copies_in qs

  copies-pick_view : (qs : List (List Entry)) → OnSome (Leaves qs) (pick_view qs)
  unfolding pick_view
  copies-pick_view [] = tt
  copies-pick_view (xs ∷ qs) = elim (Option-cases (next_runnable [] xs).0) [
    | inl e ↦
        rw (e, pick_view)
          (OnSome-map (Leaves qs) (Leaves (xs ∷ qs)) _ (pick_view qs)
            (λ r h. omega (arith, h, copies-next_runnable [] xs, ap copies_of e))
            (copies-pick_view qs))
    | inr (ec, e) ↦ rw (e, pick_view) (omega (arith, copies-next_runnable [] xs, ap copies_of e))
  ]

  -- One more copy of `ec`.
  pub requeue-copies :
      (ecs : Ecs) (v : View) (ec : Ptr) (b : Bool)
      → Promised
          (λ w. copies_in w.queues ≡ copies_in v.queues + same p ec)
          (requeue_view ecs v ec b)
  unfolding requeue_view
  requeue-copies ecs v ec b = bind_any _ (priority_of ecs ec) _ λ prio.
      Promised-lookup _ (get_elem? v.queues prio) _ λ xs at. omega (
        arith,
        copies_in-set v.queues prio xs (xs ++ ((ec, b) ∷ [])) at,
        copies-append xs ((ec, b) ∷ []),
      )

  pub dispatch-held : (v : View) → Promised (λ r. held r.1 ≡ copies_in v.queues) (dispatch_view v)
  unfolding dispatch_view
  dispatch-held v = go (pick_view v.queues) (copies-pick_view v.queues)
    where
      go :
          (o : Option (Ptr × List (List Entry)))
          → OnSome (Leaves v.queues) o
          → Promised
              (λ (r : Ptr × View). held r.1 ≡ copies_in v.queues)
              (elim o [
                | none ↦ panic no_runnable
                | some (ec, qs) ↦ ok (ec, record { queues = qs; current = ec })
              ])
      go none h = tt
      go (some (ec, qs)) h = h

  pub yield-held :
      (ecs : Ecs) (v : View) → p ≢ null → Promised (λ r. held r.1 ≡ held v) (yield_view ecs v)
  unfolding yield_view
  yield-held ecs v some_p = elim (Bool-cases (v.current == null)) [
    | inl idle ↦ rw idle (weaken (dispatch_view v) (ground (arith, some_p, idle)) (dispatch-held v))
    | inr busy ↦ rw busy (
        bind-Promised _ _ (requeue_view ecs v v.current false) _
          (requeue-copies ecs v v.current false)
          λ w h.
            weaken (dispatch_view (record w { current = null })) h
              (dispatch-held (record w { current = null })))
  ]
    where
      weaken :
          {n m : ℕ} (r : Outcome (Ptr × View))
          → n ≡ m
          → Promised (λ (a : Ptr × View). held a.1 ≡ n) r
          → Promised (λ (a : Ptr × View). held a.1 ≡ m) r
      weaken (ok a) e h = h ∙ e
      weaken (panic x) e h = tt
      weaken fault e h = tt

  pub block-held :
      (ecs : Ecs) (v : View) (ec : Ptr)
      → p ≢ null
      → Promised (λ r. held r.1 ≡ held v) (block_view ecs v ec)
  unfolding block_view
  block-held ecs v ec some_p = elim (Bool-cases (ec == v.current)) [
    | inl self ↦ rw self (
        bind-Promised _ _ (requeue_view ecs v ec true) _ (requeue-copies ecs v ec true) λ w h.
          bind-Promised _ _ (yield_view ecs (record w { current = null })) _
            (yield-held ecs (record w { current = null }) some_p)
            λ r k. ground (arith, k, h, self, some_p))
    | inr other ↦ rw other (
        bind_any _ (priority_of ecs ec) _ λ prio.
          Promised-lookup _ (get_elem? v.queues prio) _ λ xs at. omega (
            arith,
            copies_in-set v.queues prio xs (mark_first ec true xs) at,
            copies-mark_first ec true xs,
          ))
  ]

  pub unblock-held :
      (ecs : Ecs) (v : View) (ec : Ptr) → Promised (λ w. held w ≡ held v) (unblock_view ecs v ec)
  unfolding unblock_view
  unblock-held ecs v ec = bind_any _ (priority_of ecs ec) _ λ prio.
      Promised-lookup _ (get_elem? v.queues prio) _ λ xs at. omega (
        arith,
        copies_in-set v.queues prio xs (mark_first ec false xs) at,
        copies-mark_first ec false xs,
      )

  pub unblock_all-held : (v : View) → held (unblock_all_view v) ≡ held v
  unfolding unblock_all_view
  unblock_all-held v = omega (arith, copies_in-clear v.queues)

  pub reprioritize-held :
      (ecs : Ecs) (v : View) (ec : Ptr) (new_prio : ℕ)
      → Promised (λ r. held r.1 ≡ held v) (reprioritize_view ecs v ec new_prio)
  unfolding reprioritize_view
  reprioritize-held ecs v ec new_prio = bind_any _ (deref (ecs ec)) _ λ e.
      Promised-lookup _ (get_elem? v.queues e.priority) _ λ xs at.
        elim (Option-cases (position 0 ec xs)) [
          | inl missing ↦ rw missing refl
          | inr (i, found) ↦ rw found (
              Promised-lookup _ (get_elem? (set v.queues e.priority (remove_nth i xs)) new_prio) _
                λ ys at'. omega (
                  arith,
                  copies_in-set v.queues e.priority xs (remove_nth i xs) at,
                  copies-remove_nth ec 0 i i xs found (omega arith),
                  copies_in-set _ new_prio ys (ys ++ ((ec, (get_or xs i (null, false)).1) ∷ []))
                      at',
                  copies-append ys ((ec, (get_or xs i (null, false)).1) ∷ []),
                ))
        ]

  -- A context joins, and runs if none did.
  pub schedule-held :
      (ecs : Ecs) (v : View) (ec : Ptr)
      → p ≢ null
      → Promised (λ w. held w ≡ held v + same p ec) (schedule_view ecs v ec)
  unfolding schedule_view
  schedule-held ecs v ec some_p = bind_any _ (priority_of ecs ec) _ λ prio.
      Promised-lookup _ (get_elem? v.queues prio) _ λ xs at.
        let w = record v { queues = set v.queues prio (xs ++ ((ec, false) ∷ [])) } in
        let joined : held w ≡ held v + same p ec = omega (
          arith,
          copies_in-set v.queues prio xs (xs ++ ((ec, false) ∷ [])) at,
          copies-append xs ((ec, false) ∷ []),
        ) in
        elim (Bool-cases (leb max_ecs (length xs))) [
          | inl full ↦ rw full tt
          | inr room ↦ rw room (elim (Bool-cases (v.current == null)) [
            | inl idle ↦
                rw idle (
                  bind-Promised _ _ (yield_view ecs w) _ (yield-held ecs w some_p)
                    λ r h. h ∙ joined)
            | inr busy ↦ rw busy joined
          ])
        ]
