-- ===== src/Scheduler/Valid.antt =====
-- The invariant of `class Scheduler` (kern/include/scheduler.h), and the view of it that forgets
-- the arrays.
use nova_mckernel_lab.Base.{
  ℕ, zero, suc, ◌+◌, ◌≤◌, ◌≡◌, refl, ap, some, List, [], ◌∷◌, map, arith, ◌==◌, if◌then◌else◌,
  length, get_elem?, set,
}
use mathlib.Core.Option
use nova_mckernel_lab.Ec.{Ptr, null}
use nova_mckernel_lab.Scheduler.{
  Queue, Scheduler, num_priorities, max_ecs, empty_queue, new_scheduler,
}
use nova_mckernel_lab.Scheduler.Ring.{contents, IsRing}
use nova_mckernel_lab.Scheduler.Spec.{View}

abbrev pub view : Scheduler → View
view s = record { queues = map contents s.queues; current = s.current_ec }

abbrev pub AllRings : List Queue → Type 0
AllRings [] = Unit {0}
AllRings (q ∷ qs) = IsRing q × AllRings qs

-- How many contexts wait in the rings, and how many run.
abbrev pub queued : List Queue → ℕ
queued [] = 0
queued (q ∷ qs) = q.count + queued qs

abbrev pub running : Ptr → ℕ
running p = if p == null then 0 else 1

pub record IsValid (s : Scheduler) : Type 0 where
  pub size : length s.queues ≡ num_priorities
  pub rings : AllRings s.queues
  pub room : queued s.queues + running s.current_ec ≤ max_ecs

-- An empty scheduler is valid.
pub new_scheduler-IsValid : IsValid new_scheduler
unfolding new_scheduler empty_queue
new_scheduler-IsValid = omega arith

pub get-AllRings :
    (qs : List Queue) (p : ℕ) (q : Queue) → AllRings qs → get_elem? qs p ≡ some q → IsRing q
get-AllRings [] p q r e = absurd (cc e)
get-AllRings (x ∷ qs) zero q r e = ground arith
get-AllRings (x ∷ qs) (suc p) q r e = get-AllRings qs p q r.1 e

pub set-AllRings :
    (qs : List Queue) (p : ℕ) (q : Queue) → AllRings qs → IsRing q → AllRings (set qs p q)
set-AllRings [] p q r h = tt
set-AllRings (x ∷ qs) zero q r h = (h, r.1)
set-AllRings (x ∷ qs) (suc p) q r h = (r.0, set-AllRings qs p q r.1 h)

-- Replacing a ring changes the number of waiting contexts by the difference.
pub queued-set :
    (qs : List Queue) (p : ℕ) (q q' : Queue)
    → get_elem? qs p ≡ some q
    → queued (set qs p q') + q.count ≡ queued qs + q'.count
queued-set [] p q q' e = absurd (cc e)
queued-set (x ∷ qs) zero q q' e = ground arith
queued-set (x ∷ qs) (suc p) q q' e = omega (arith, queued-set qs p q q' e)

pub count-le-queued :
    (qs : List Queue) (p : ℕ) (q : Queue) → get_elem? qs p ≡ some q → q.count ≤ queued qs
count-le-queued [] p q e = absurd (cc e)
count-le-queued (x ∷ qs) zero q e = ground arith
count-le-queued (x ∷ qs) (suc p) q e = omega (arith, count-le-queued qs p q e)

module _ {A B : Type 0} (f : A → B) where
  pub get_elem?-map : (xs : List A) (i : ℕ) → get_elem? (map f xs) i ≡ Option.map f (get_elem? xs i)
  get_elem?-map [] i = refl
  get_elem?-map (x ∷ xs) zero = refl
  get_elem?-map (x ∷ xs) (suc i) = get_elem?-map xs i

  pub map-set : (xs : List A) (i : ℕ) (a : A) → map f (set xs i a) ≡ set (map f xs) i (f a)
  map-set [] i a = refl
  map-set (x ∷ xs) zero a = refl
  map-set (x ∷ xs) (suc i) a = ap (◌∷◌ (f x)) (map-set xs i a)
