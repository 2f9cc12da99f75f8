-- ===== src/Scheduler/Search.antt =====
-- The loops of kern/src/scheduler.cc that look for a context in a ring, set or clear flags, and
-- close the gap that a removed entry leaves, against their list counterparts.
use nova_mckernel_lab.Base.{
  ℕ, zero, suc, ◌+◌, ◌≤◌, ◌<◌, ◌≡◌, refl, sym, ap, ap₂, ◌∙◌, subst, fun_ext, ◌≢◌, inl, inr, Bool,
  false, none, some, List, [], ◌∷◌, arith, ◌==◌, ==_iff, Bool-cases, Option-cases, length,
  length-set, get_or, set, get_or-set_self, get_or-set_ne,
}
use nova_mckernel_lab.Ec.{Ptr, null}
use nova_mckernel_lab.Scheduler.{
  Queue, max_ecs, next_index, index_of, slot, find, mark, clear_flags,
}
use nova_mckernel_lab.Scheduler.Ring.{
  Entry, update, window, window-update_in, get_or-window, entry, contents, IsRing,
}
use nova_mckernel_lab.Scheduler.Entries.{length-contents}
use nova_mckernel_lab.Scheduler.Spec.{position, mark_first, clear_from}

find-window :
    (n i h : ℕ) (q : Queue) (ec : Ptr)
    → q.head < max_ecs
    → h ≡ index_of q i
    → i + n ≤ max_ecs
    → find n i q ec ≡ position i ec (window (entry q) h n)
unfolding find position
find-window zero i h q ec hh e b = refl
find-window (suc n) i h q ec hh e b =
    ground (arith, find-window n (i + 1) (next_index h) q ec hh (omega arith) (omega arith), e)

-- The search of a ring is the search of its entries.
pub find-contents :
    (q : Queue) (ec : Ptr) → IsRing q → find q.count 0 q ec ≡ position 0 ec (contents q)
find-contents q ec r = find-window q.count 0 q.head q ec r.head_in (omega arith) (omega arith)

-- What a position found says, and what writing there does.
record Found (ec : Ptr) (xs : List Entry) (k : ℕ) : Type 0 where
  pub within : k < length xs
  pub here : (get_or xs k (null, false)).0 ≡ ec
  pub marks : (b : Bool) → set xs k (ec, b) ≡ mark_first ec b xs

position-Found :
    (i j : ℕ) (ec : Ptr) (xs : List Entry)
    → position i ec xs ≡ some j
    → (k : ℕ) × (j ≡ i + k) × Found ec xs k
unfolding position mark_first
position-Found i j ec [] e = absurd (cc e)
position-Found i j ec ((p, f) ∷ xs) e = elim (Bool-cases (p == ec)) [
  | inl hit ↦ (
    0,
    ground arith,
    record {
      within = omega arith;
      here = (==_iff p ec).0 hit;
      marks = λ b. rw hit (ap (λ a. (a, b) ∷ xs) (sym ((==_iff p ec).0 hit)));
    },
  )
  | inr miss ↦
      let (k, at, found) = position-Found (i + 1) j ec xs (ground arith) in
      (
        suc k,
        omega arith,
        record {
          within = omega (arith, found.within);
          here = found.here;
          marks = λ b. rw miss (ap (◌∷◌ (p, f)) (found.marks b));
        },
      )
]

position-none :
    (i : ℕ) (ec : Ptr) (b : Bool) (xs : List Entry)
    → position i ec xs ≡ none
    → mark_first ec b xs ≡ xs
unfolding position mark_first
position-none i ec b [] e = refl
position-none i ec b ((p, f) ∷ xs) e = ground (arith, position-none (i + 1) ec b xs)

-- A write of one flag.
entry-set_flag :
    (q : Queue) (i : ℕ) (b : Bool)
    → i < length q.blocked
    → entry (record q { blocked = set q.blocked i b }) ≡ update (entry q) i (slot q i, b)
entry-set_flag q i b h = fun_ext at
  where
    at :
        (j : ℕ)
        → entry (record q { blocked = set q.blocked i b }) j ≡ update (entry q) i (slot q i, b) j
    at j = elim (Bool-cases (i == j)) [
      | inl e ↦
          let same : i ≡ j = (==_iff i j).0 e in
          rw (e, ← same, get_or-set_self q.blocked i b false h)
      | inr e ↦
          let other : i ≢ j = λ s. cc ((==_iff i j).1 s) in
          rw (e, get_or-set_ne q.blocked i j b false other)
    ]

set_flag-IsRing :
    (q : Queue) (i : ℕ) (b : Bool) → IsRing q → IsRing (record q { blocked = set q.blocked i b })
set_flag-IsRing q i b r = record {
  slots_size = r.slots_size;
  blocked_size = length-set q.blocked i b ∙ r.blocked_size;
  head_in = r.head_in;
  tail_at = r.tail_at;
  fits = r.fits;
}

-- Writing the flag at position `k` is writing the entry there.
set_flag-contents :
    (q : Queue) (k : ℕ) (b : Bool)
    → IsRing q
    → k < q.count
    → contents (record q { blocked = set q.blocked (index_of q k) b })
      ≡ set (contents q) k (slot q (index_of q k), b)
set_flag-contents q k b r h =
    ap (λ f. window f q.head q.count) (entry-set_flag q (index_of q k) b (omega arith))
    ∙ window-update_in (entry q) (slot q (index_of q k), b) q.count k q.head (index_of q k)
        r.head_in h r.fits refl

-- What the search of a ring finds.
pub record Located (q : Queue) (ec : Ptr) (i : ℕ) : Type 0 where
  pub inside : i < q.count
  pub holds : slot q (index_of q i) ≡ ec
  pub listed : position 0 ec (contents q) ≡ some i
  pub marks : (b : Bool) → set (contents q) i (ec, b) ≡ mark_first ec b (contents q)

pub find-Located :
    (q : Queue) (ec : Ptr) (i : ℕ) → IsRing q → find q.count 0 q ec ≡ some i → Located q ec i
find-Located q ec i r e = record {
  inside = omega (arith, found.within, length-contents q);
  holds =
      sym (
        ap (λ (x : Entry). x.0)
          (get_or-window (entry q) (null, false) q.count i q.head (index_of q i) r.head_in
            (omega (arith, found.within, length-contents q)) r.fits refl))
      ∙ found.here;
  listed = listed;
  marks = found.marks;
}
  where
    listed : position 0 ec (contents q) ≡ some i
    listed = sym (find-contents q ec r) ∙ e

    found : Found ec (contents q) i
    found =
        let (k, at, f) = position-Found 0 i ec (contents q) listed in
        let same : k ≡ i = omega arith in subst (Found ec (contents q)) same f

-- Setting the flag of a context in a ring is setting it at its first entry.
pub mark-contents :
    (q : Queue) (ec : Ptr) (b : Bool)
    → IsRing q
    → IsRing (mark q ec b) × (contents (mark q ec b) ≡ mark_first ec b (contents q))
unfolding mark
mark-contents q ec b r = elim (Option-cases (find q.count 0 q ec)) [
  | inl e ↦
      rw (e, mark) (r, sym (position-none 0 ec b (contents q) (sym (find-contents q ec r) ∙ e)))
  | inr (i, e) ↦
      let at = find-Located q ec i r e in
      rw (e, mark)
        (
          set_flag-IsRing q (index_of q i) b r,
          set_flag-contents q i b r at.inside
              ∙ ap (λ p. set (contents q) i (p, b)) at.holds
              ∙ at.marks b,
        )
]

clear_from_step :
    (i : ℕ) (xs : List Entry)
    → i < length xs
    → clear_from (suc i) (set xs i ((get_or xs i (null, false)).0, false)) ≡ clear_from i xs
unfolding clear_from
clear_from_step i [] h = absurd (omega arith)
clear_from_step zero (x ∷ xs) h = refl
clear_from_step (suc i) (x ∷ xs) h = ap (◌∷◌ x) (clear_from_step i xs (omega arith))

add_one : (i : ℕ) → i + 1 ≡ suc i
add_one i = omega arith

clear_from-length : (i : ℕ) (xs : List Entry) → length xs ≤ i → clear_from i xs ≡ xs
unfolding clear_from
clear_from-length i [] h = refl
clear_from-length zero (x ∷ xs) h = absurd (omega arith)
clear_from-length (suc i) (x ∷ xs) h = ap (◌∷◌ x) (clear_from-length i xs (omega arith))

clear_step :
    (q : Queue) (i : ℕ)
    → IsRing q
    → i < q.count
    → clear_from (i + 1) (contents (record q { blocked = set q.blocked (index_of q i) false }))
      ≡ clear_from i (contents q)
clear_step q i r h =
    ap₂ clear_from (add_one i) (
      set_flag-contents q i false r h
      ∙ ap (λ (x : Entry). set (contents q) i (x.0, false))
          (sym (
            get_or-window (entry q) (null, false) q.count i q.head (index_of q i) r.head_in h r.fits
              refl)))
    ∙ clear_from_step i (contents q) (omega (arith, length-contents q))

clear_flags-contents_from :
    (n i : ℕ) (q : Queue)
    → IsRing q
    → i + n ≡ q.count
    → IsRing (clear_flags n i q)
      × (contents (clear_flags n i q) ≡ clear_from i (contents q))
      × ((clear_flags n i q).count ≡ q.count)
unfolding clear_flags
clear_flags-contents_from zero i q r e =
    (r, sym (clear_from-length i (contents q) (omega (arith, length-contents q))), refl)
clear_flags-contents_from (suc n) i q r e =
    let cleared = record q { blocked = set q.blocked (index_of q i) false } in
    let (r', c, k) =
      clear_flags-contents_from n (i + 1) cleared (set_flag-IsRing q (index_of q i) false r)
        (omega arith) in
    (r', c ∙ clear_step q i r (omega arith), k)

-- `unblock_all` clears every flag of a ring.
pub clear_flags-contents :
    (q : Queue)
    → IsRing q
    → IsRing (clear_flags q.count 0 q)
      × (contents (clear_flags q.count 0 q) ≡ clear_from 0 (contents q))
      × ((clear_flags q.count 0 q).count ≡ q.count)
clear_flags-contents q r = clear_flags-contents_from q.count 0 q r (omega arith)
