-- ===== src/Scheduler/Ring.antt =====
-- The ring of a `Queue` (kern/include/scheduler.h) read as the list of its entries, oldest first,
-- and what a write into the arrays does to that list.
use nova_mckernel_lab.Base.{
  ℕ, zero, suc, ◌-◌, ◌%◌, ◌≤◌, ◌<◌, ◌≡◌, refl, ap, ap₂, fun_ext, ◌≢◌, inl, inr, Bool, false, List,
  [], ◌∷◌, ◌++◌, arith, ◌==◌, if◌then◌else◌, ==_iff, Bool-cases, length, get_or, set,
  get_or-set_self, get_or-set_ne,
}
use nova_mckernel_lab.Machine.{add32}
use nova_mckernel_lab.Ec.{Ptr, null}
use nova_mckernel_lab.Scheduler.{Queue, max_ecs, next_index, slot, flag}

-- A context and whether it is blocked.
abbrev pub Entry : Type 0
Entry = Ptr × Bool

module _ {ℓ} {A : Type ℓ} where
  abbrev pub update : (ℕ → A) → ℕ → A → ℕ → A
  update f i v j = if i == j then v else f j

  -- The `n` values from index `h` on, going round.
  abbrev pub window : (ℕ → A) → ℕ → ℕ → List A
  window f h zero = []
  window f h (suc n) = f h ∷ window f (next_index h) n

  pub length-window : (f : ℕ → A) (h n : ℕ) → length (window f h n) ≡ n
  length-window f h zero = refl
  length-window f h (suc n) = ap suc (length-window f (next_index h) n)

  -- A write past the window leaves it.
  pub window-update_out :
      (f : ℕ → A) (v : A) (n k h i : ℕ)
      → h < max_ecs
      → n ≤ k
      → k < max_ecs
      → i ≡ add32 h k % max_ecs
      → window (update f i v) h n ≡ window f h n
  window-update_out f v zero k h i hh nk kk e = refl
  window-update_out f v (suc n) k h i hh nk kk e = ap₂ ◌∷◌ (ground arith) (
      window-update_out f v n (k - 1) (next_index h) i (omega arith) (omega arith) (omega arith)
        (omega arith))

  -- A write at position `k` of the window is a write into its list.
  pub window-update_in :
      (f : ℕ → A) (v : A) (n k h i : ℕ)
      → h < max_ecs
      → k < n
      → n ≤ max_ecs
      → i ≡ add32 h k % max_ecs
      → window (update f i v) h n ≡ set (window f h n) k v
  window-update_in f v zero k h i hh kn nn e = absurd (omega arith)
  window-update_in f v (suc n) zero h i hh kn nn e = ap₂ ◌∷◌ (ground arith) (
      window-update_out f v n 7 (next_index h) i (omega arith) (omega arith) (omega arith)
        (omega arith))
  window-update_in f v (suc n) (suc k) h i hh kn nn e = ap₂ ◌∷◌ (ground arith) (
      window-update_in f v n k (next_index h) i (omega arith) (omega arith) (omega arith)
        (omega arith))

  pub window-snoc :
      (f : ℕ → A) (n h i : ℕ)
      → h < max_ecs
      → i ≡ add32 h n % max_ecs
      → n < max_ecs
      → window f h (suc n) ≡ window f h n ++ (f i ∷ [])
  window-snoc f zero h i hh e nn = ap (λ j. f j ∷ []) (omega arith)
  window-snoc f (suc n) h i hh e nn =
      ap (◌∷◌ (f h)) (window-snoc f n (next_index h) i (omega arith) (omega arith) (omega arith))

  -- The entry at position `k`.
  pub get_or-window :
      (f : ℕ → A) (d : A) (n k h i : ℕ)
      → h < max_ecs
      → k < n
      → n ≤ max_ecs
      → i ≡ add32 h k % max_ecs
      → get_or (window f h n) k d ≡ f i
  get_or-window f d zero k h i hh kn nn e = absurd (omega arith)
  get_or-window f d (suc n) zero h i hh kn nn e = ap f (omega arith)
  get_or-window f d (suc n) (suc k) h i hh kn nn e =
      get_or-window f d n k (next_index h) i (omega arith) (omega arith) (omega arith) (omega arith)

abbrev pub entry : Queue → ℕ → Entry
entry q i = (slot q i, flag q i)

abbrev pub contents : Queue → List Entry
contents q = window (entry q) q.head q.count

-- What the scheduler keeps of every ring: two arrays of the declared size, indices inside them, and
-- `tail` the place behind the last entry.
pub record IsRing (q : Queue) : Type 0 where
  pub slots_size : length q.slots ≡ max_ecs
  pub blocked_size : length q.blocked ≡ max_ecs
  pub head_in : q.head < max_ecs
  pub tail_at : q.tail ≡ add32 q.head q.count % max_ecs
  pub fits : q.count ≤ max_ecs

-- A write of both arrays at `i`.
entry-set_at :
    (q : Queue) (i : ℕ) (p : Ptr) (b : Bool) (j : ℕ)
    → i < length q.slots
    → i < length q.blocked
    → entry (record q { slots = set q.slots i p; blocked = set q.blocked i b }) j
      ≡ update (entry q) i (p, b) j
entry-set_at q i p b j hs hb = elim (Bool-cases (i == j)) [
  | inl e ↦
      let same : i ≡ j = (==_iff i j).0 e in
      rw (e, ← same, get_or-set_self q.slots i p null hs, get_or-set_self q.blocked i b false hb)
  | inr e ↦
      let other : i ≢ j = λ s. cc ((==_iff i j).1 s) in
      rw (e, get_or-set_ne q.slots i j p null other, get_or-set_ne q.blocked i j b false other)
]

pub entry-set :
    (q : Queue) (i : ℕ) (p : Ptr) (b : Bool)
    → i < length q.slots
    → i < length q.blocked
    → entry (record q { slots = set q.slots i p; blocked = set q.blocked i b })
      ≡ update (entry q) i (p, b)
entry-set q i p b hs hb = fun_ext (λ j. entry-set_at q i p b j hs hb)
