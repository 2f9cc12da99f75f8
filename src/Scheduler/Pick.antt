-- ===== src/Scheduler/Pick.antt =====
-- The search of `Scheduler::yield` (kern/src/scheduler.cc) over the rings finds what the search of
-- their entries finds.
use nova_mckernel_lab.Base.{
  ℕ, ◌+◌, ◌≡◌, refl, sym, ap, ap₂, ◌∙◌, true, false, Option, none, some, List, [], ◌∷◌, ◌++◌, map,
  append-nil, inl, inr, Option-cases, arith, length, length-append,
}
use mathlib.Core.Option
use nova_mckernel_lab.Ec.{Ptr}
use nova_mckernel_lab.Scheduler.{Queue, scan, pick}
use nova_mckernel_lab.Scheduler.Ring.{Entry, contents, IsRing}
use nova_mckernel_lab.Scheduler.Entries.{length-contents, scan-contents}
use nova_mckernel_lab.Scheduler.Spec.{next_runnable, pick_view}
use nova_mckernel_lab.Scheduler.Valid.{AllRings, queued}

abbrev found_one : Option Ptr → ℕ
found_one none = 0
found_one (some p) = 1

length-next_runnable :
    (passed xs : List Entry)
    → let (found, ys) = next_runnable passed xs in
      length ys + found_one found ≡ length passed + length xs
unfolding next_runnable
length-next_runnable passed [] = omega arith
length-next_runnable passed ((p, true) ∷ xs) = omega (
  arith,
  length-next_runnable (passed ++ ((p, true) ∷ [])) xs,
  length-append passed ((p, true) ∷ []),
)
length-next_runnable passed ((p, false) ∷ xs) = omega (arith, length-append xs passed)

-- The search of one ring.
pub scan_count :
    (q : Queue)
    → IsRing q
    → let (found, q') = scan q.count q in
      ((found, contents q') ≡ next_runnable [] (contents q))
      × IsRing q'
      × (q'.count + found_one found ≡ q.count)
scan_count q r =
    let (e, r') = at_count in
    (
      e,
      r',
      omega (
        arith,
        ap (λ (t : Option Ptr × List Entry). length t.1 + found_one t.0) e,
        length-contents (scan q.count q).1,
        length-next_runnable [] (contents q),
        length-contents q,
      ),
    )
  where
    at_count :
        let (found, q') = scan q.count q in
        ((found, contents q') ≡ next_runnable [] (contents q)) × IsRing q'
    at_count =
        rw (length-contents q) at
          (scan-contents (contents q) [] q r (sym (append-nil (contents q))))

pub data Picked (qs : List Queue)
    : Option (Ptr × List Queue) → Option (Ptr × List (List Entry)) → Type 0 where
  nothing : Picked qs none none
  picked :
      {ec : Ptr} {qs' : List Queue} {xs : List (List Entry)}
      → AllRings qs'
      → queued qs' + 1 ≡ queued qs
      → length qs' ≡ length qs
      → map contents qs' ≡ xs
      → Picked qs (some (ec, qs')) (some (ec, xs))

Picked-skip :
    {qs : List Queue} {o : Option (Ptr × List Queue)} {w : Option (Ptr × List (List Entry))}
    (q q' : Queue) (ys : List Entry)
    → IsRing q'
    → q'.count ≡ q.count
    → contents q' ≡ ys
    → Picked qs o w
    → Picked (q ∷ qs) (Option.map (λ r. (r.0, q' ∷ r.1)) o) (Option.map (λ r. (r.0, ys ∷ r.1)) w)
Picked-skip q q' ys r c h nothing = nothing
Picked-skip q q' ys r c h (picked rs n l e) =
    picked (r, rs) (omega arith) (omega arith) (ap₂ ◌∷◌ h e)

pub pick-Picked :
    (qs : List Queue) → AllRings qs → Picked qs (pick qs) (pick_view (map contents qs))
unfolding pick pick_view
pick-Picked [] r = nothing
pick-Picked (q ∷ qs) r =
    let (e, r', n) = scan_count q r.0 in
    let same = ap (λ (t : Option Ptr × List Entry). t.0) e in
    let left = ap (λ (t : Option Ptr × List Entry). t.1) e in
    elim (Option-cases (scan q.count q).0) [
      | inl f ↦
          rw (f, pick, sym same ∙ f, pick_view)
            (Picked-skip q (scan q.count q).1 _ r' (omega (arith, ap found_one f)) left
              (pick-Picked qs r.1))
      | inr (ec, f) ↦
          rw (f, pick, sym same ∙ f, pick_view)
            (picked (r', r.1) (omega (arith, ap found_one f)) refl
              (ap (λ ys. ys ∷ map contents qs) left))
    ]
