-- ===== src/Scheduler/Entries.antt =====
-- What each operation on one ring (kern/src/scheduler.cc) does to the list of its entries.
use nova_mckernel_lab.Base.{
  ℕ, zero, suc, ◌%◌, ◌≤◌, ◌<◌, ◌≡◌, refl, sym, ap, ap₂, ◌∙◌, Bool, true, false, none, some, List,
  [], ◌∷◌, ◌++◌, append_assoc, arith, ==_refl, length, length-set, set,
}
use nova_mckernel_lab.Machine.{add32, sub32}
use nova_mckernel_lab.Ec.{Ptr}
use nova_mckernel_lab.Scheduler.{Queue, max_ecs, next_index, put_tail, enqueue, scan}
use nova_mckernel_lab.Scheduler.Ring.{
  Entry, update, window, length-window, window-update_out, window-snoc, entry, contents, IsRing,
  entry-set,
}
use nova_mckernel_lab.Scheduler.Spec.{next_runnable}

pub length-contents : (q : Queue) → length (contents q) ≡ q.count
length-contents q = length-window (entry q) q.head q.count

abbrev write : Queue → ℕ → Ptr → Bool → Queue
write q i p b = record q { slots = set q.slots i p; blocked = set q.blocked i b }

-- A write just behind a window extends it.
window_put :
    (f : ℕ → Entry) (v : Entry) (n h i : ℕ)
    → h < max_ecs
    → i ≡ add32 h n % max_ecs
    → n < max_ecs
    → window (update f i v) h (suc n) ≡ window f h n ++ (v ∷ [])
window_put f v n h i hh e nn =
    window-snoc (update f i v) n h i hh e nn
    ∙ ap₂ (λ xs x. xs ++ (x ∷ [])) (window-update_out f v n n h i hh (omega arith) nn e)
        (rw (==_refl i))

add32_one : (q : Queue) → q.count ≤ max_ecs → add32 q.count 1 ≡ suc q.count
add32_one q h = omega arith

-- A new entry goes behind the others.
pub enqueue-contents :
    (q : Queue) (p : Ptr) (b : Bool)
    → IsRing q
    → q.count < max_ecs
    → IsRing (enqueue q p b) × (contents (enqueue q p b) ≡ contents q ++ ((p, b) ∷ []))
unfolding enqueue put_tail
enqueue-contents q p b r room = (
  record {
    slots_size = length-set q.slots q.tail p ∙ r.slots_size;
    blocked_size = length-set q.blocked q.tail b ∙ r.blocked_size;
    head_in = r.head_in;
    tail_at = omega arith;
    fits = omega arith;
  },
  ap₂ (λ f n. window f q.head n) (entry-set q q.tail p b (omega arith) (omega arith))
        (add32_one q r.fits)
      ∙ window_put (entry q) (p, b) q.count q.head q.tail r.head_in r.tail_at room,
)

-- One round of the inner loop of `yield` on a blocked entry.
abbrev rotated : Queue → Ptr → Queue
rotated q p = put_tail (record q { head = next_index q.head }) p true

rotate-contents :
    (q : Queue) (p : Ptr) (xs : List Entry)
    → IsRing q
    → contents q ≡ (p, true) ∷ xs
    → IsRing (rotated q p) × (contents (rotated q p) ≡ xs ++ ((p, true) ∷ []))
unfolding put_tail
rotate-contents q p xs r e = go q.count refl
  where
    go :
        (n : ℕ)
        → q.count ≡ n
        → IsRing (rotated q p) × (contents (rotated q p) ≡ xs ++ ((p, true) ∷ []))
    go zero c = absurd (omega (arith, ap length e, length-contents q))
    go (suc n) c = (
      record {
        slots_size = length-set q.slots q.tail p ∙ r.slots_size;
        blocked_size = length-set q.blocked q.tail true ∙ r.blocked_size;
        head_in = omega arith;
        tail_at = omega arith;
        fits = r.fits;
      },
      ap₂ (λ f k. window f (next_index q.head) k)
            (entry-set q q.tail p true (omega arith) (omega arith)) c
          ∙ window_put (entry q) (p, true) n (next_index q.head) q.tail (omega arith) (omega arith)
              (omega arith)
          ∙ ap (λ ys. ys ++ ((p, true) ∷ [])) (cc (ap (window (entry q) q.head) c)),
    )

-- The first entry is the one at `head`, and the others start behind it.
contents_cons :
    (q : Queue) (x : Entry) (ys : List Entry)
    → IsRing q
    → contents q ≡ x ∷ ys
    → (entry q q.head ≡ x)
      × (window (entry q) (next_index q.head) (sub32 q.count 1) ≡ ys)
      × (0 < q.count)
contents_cons q x ys r e = go q.count refl
  where
    go :
        (n : ℕ)
        → q.count ≡ n
        → (entry q q.head ≡ x)
          × (window (entry q) (next_index q.head) (sub32 q.count 1) ≡ ys)
          × (0 < q.count)
    go zero c = absurd (omega (arith, ap length e, length-contents q))
    go (suc n) c =
        let whole = sym (ap (window (entry q) q.head) c) ∙ e in
        let left : sub32 q.count 1 ≡ n = omega (arith, r.fits) in
        (cc whole, rw left (cc whole), omega arith)

pub scan-contents :
    (xs passed : List Entry) (q : Queue)
    → IsRing q
    → contents q ≡ xs ++ passed
    → let (found, q') = scan (length xs) q in
      ((found, contents q') ≡ next_runnable passed xs) × IsRing q'
unfolding scan next_runnable
scan-contents [] passed q r e = (ap (λ ys. (none, ys)) e, r)
scan-contents ((p, true) ∷ xs) passed q r e =
    let h = contents_cons q (p, true) (xs ++ passed) r e in
    let turned = rotate-contents q p (xs ++ passed) r e in
    rw (ap (λ (x : Entry). x.1) h.0, ap (λ (x : Entry). x.0) h.0, scan)
      (scan-contents xs (passed ++ ((p, true) ∷ [])) (rotated q p) turned.0
        (turned.1 ∙ append_assoc xs passed ((p, true) ∷ [])))
scan-contents ((p, false) ∷ xs) passed q r e =
    let h = contents_cons q (p, false) (xs ++ passed) r e in
    rw (ap (λ (x : Entry). x.1) h.0, ap (λ (x : Entry). x.0) h.0, scan)
      (
        ap (λ ys. (some p, ys)) h.1,
        record {
          slots_size = r.slots_size;
          blocked_size = r.blocked_size;
          head_in = omega arith;
          tail_at = omega arith;
          fits = omega arith;
        },
      )
