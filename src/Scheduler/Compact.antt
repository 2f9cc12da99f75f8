-- ===== src/Scheduler/Compact.antt =====
-- The removal of `Scheduler::reprioritize` (kern/src/scheduler.cc): the entries behind the gap move
-- down by one, which takes one entry out of the list and keeps the order of the others.
use nova_mckernel_lab.Base.{
  ℕ, zero, suc, ◌+◌, ◌-◌, ◌%◌, ◌<◌, ◌≡◌, refl, sym, ap, ap₂, ◌∙◌, List, [], ◌∷◌, ◌++◌, arith,
  length, length-set, get_or, set, false,
}
use nova_mckernel_lab.Machine.{add32, sub32}
use nova_mckernel_lab.Ec.{null}
use nova_mckernel_lab.Scheduler.{Queue, max_ecs, index_of, slot, flag, compact, remove_at}
use nova_mckernel_lab.Scheduler.Ring.{
  Entry, window, length-window, window-update_in, window-snoc, get_or-window, entry, contents,
  IsRing, entry-set,
}
use nova_mckernel_lab.Scheduler.Entries.{length-contents}
use nova_mckernel_lab.Scheduler.Spec.{remove_nth}

remove_nth-append :
    (n : ℕ) (x : Entry) (ys : List Entry) → n ≡ length ys → remove_nth n (ys ++ (x ∷ [])) ≡ ys
unfolding remove_nth
remove_nth-append zero x [] e = refl
remove_nth-append (suc n) x [] e = absurd (omega arith)
remove_nth-append zero x (y ∷ ys) e = absurd (omega arith)
remove_nth-append (suc n) x (y ∷ ys) e = ap (◌∷◌ y) (remove_nth-append n x ys (omega arith))

-- Copying the next entry into position `j` moves the gap up by one.
remove_nth-set :
    (j : ℕ) (xs : List Entry)
    → suc j < length xs
    → remove_nth (suc j) (set xs j (get_or xs (suc j) (null, false))) ≡ remove_nth j xs
unfolding remove_nth
remove_nth-set j [] h = absurd (omega arith)
remove_nth-set zero (x ∷ []) h = absurd (omega arith)
remove_nth-set zero (x ∷ y ∷ ys) h = refl
remove_nth-set (suc j) (x ∷ xs) h = ap (◌∷◌ x) (remove_nth-set j xs (omega arith))

-- One round of the loop.
abbrev shifted : Queue → ℕ → Queue
shifted q j =
    let nxt = add32 (add32 q.head j) 1 % max_ecs in
    record q {
      slots = set q.slots (index_of q j) (slot q nxt);
      blocked = set q.blocked (index_of q j) (flag q nxt);
    }

shifted-IsRing : (q : Queue) (j : ℕ) → IsRing q → IsRing (shifted q j)
shifted-IsRing q j r = record {
  slots_size = length-set q.slots (index_of q j) _ ∙ r.slots_size;
  blocked_size = length-set q.blocked (index_of q j) _ ∙ r.blocked_size;
  head_in = r.head_in;
  tail_at = r.tail_at;
  fits = r.fits;
}

shifted-contents :
    (q : Queue) (j : ℕ)
    → IsRing q
    → suc j < q.count
    → remove_nth (suc j) (contents (shifted q j)) ≡ remove_nth j (contents q)
shifted-contents q j r h =
    ap (remove_nth (suc j)) moved ∙ remove_nth-set j (contents q) (omega (arith, length-contents q))
  where
    nxt : ℕ
    nxt = add32 (add32 q.head j) 1 % max_ecs

    moved : contents (shifted q j) ≡ set (contents q) j (get_or (contents q) (suc j) (null, false))
    moved =
        ap (λ f. window f q.head q.count)
          (entry-set q (index_of q j) (slot q nxt) (flag q nxt) (omega (arith, r.slots_size))
            (omega (arith, r.blocked_size)))
        ∙ window-update_in (entry q) (entry q nxt) q.count j q.head (index_of q j) r.head_in
            (omega arith) r.fits refl
        ∙ ap (set (contents q) j) (
            sym (
              get_or-window (entry q) (null, false) q.count (suc j) q.head nxt r.head_in h r.fits
                (omega (arith, r.head_in, r.fits))))

record Closed (q r : Queue) (j m : ℕ) : Type 0 where
  ring : IsRing r
  head_kept : r.head ≡ q.head
  tail_kept : r.tail ≡ q.tail
  count_kept : r.count ≡ q.count
  kept : window (entry r) q.head m ≡ remove_nth j (contents q)

compact-Closed :
    (n j m : ℕ) (q : Queue) → IsRing q → j + n ≡ m → q.count ≡ suc m → Closed q (compact n j q) j m
unfolding compact
compact-Closed zero j m q r e c = record {
  ring = r;
  head_kept = refl;
  tail_kept = refl;
  count_kept = refl;
  kept = sym (
      ap (remove_nth j) (
        ap (window (entry q) q.head) c
        ∙ window-snoc (entry q) m q.head (index_of q m) r.head_in refl (omega (arith, r.fits)))
      ∙ remove_nth-append j _ (window (entry q) q.head m)
          (omega (arith, length-window (entry q) q.head m)));
}
compact-Closed (suc n) j m q r e c =
    let rest = compact-Closed n (j + 1) m (shifted q j) (shifted-IsRing q j r) (omega arith) c in
    record {
      ring = rest.ring;
      head_kept = rest.head_kept;
      tail_kept = rest.tail_kept;
      count_kept = rest.count_kept;
      kept =
          rest.kept
          ∙ ap (λ k. remove_nth k (contents (shifted q j))) (add_one j)
          ∙ shifted-contents q j r (omega arith);
    }
  where
    add_one : (i : ℕ) → i + 1 ≡ suc i
    add_one i = omega arith

one_less : (q : Queue) {i : ℕ} → IsRing q → i < q.count → sub32 q.count 1 ≡ q.count - 1
one_less q r h = omega (arith, r.fits)

-- The entry at position `i` leaves the list, and the ring stays a ring.
pub remove_at-contents :
    (q : Queue) (i : ℕ)
    → IsRing q
    → i < q.count
    → IsRing (remove_at q i)
      × (contents (remove_at q i) ≡ remove_nth i (contents q))
      × ((remove_at q i).count + 1 ≡ q.count)
unfolding remove_at
remove_at-contents q i r h =
    let c = compact-Closed (q.count - (i + 1)) i (q.count - 1) q r (omega arith) (omega arith) in
    let s = c.ring in
    (
      record {
        slots_size = s.slots_size;
        blocked_size = s.blocked_size;
        head_in = s.head_in;
        tail_at = omega (arith, c.head_kept);
        fits = omega arith;
      },
      ap₂ (λ h n. window (entry (remove_at q i)) h n) c.head_kept (one_less q r h) ∙ c.kept,
      omega arith,
    )
