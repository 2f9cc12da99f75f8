-- ===== src/Spinlock/Exclusion.antt =====
-- The spinlock (kern/include/spinlock.h) admits one processor at a time, if there are fewer than 256.
use nova_mckernel_lab.Base.{
  ℕ, zero, suc, ◌+◌, ◌*◌, ◌%◌, ◌^◌, ◌≤◌, ◌<◌, ◌≡◌, refl, sym, ap, ◌∙◌, subst, ◌≢◌, false,
  Bool-cases, inl, inr, arith, ◌==◌, ==_iff, if◌then◌else◌,
}
use nova_mckernel_lab.Spinlock.{
  xadd, low, high, reload, incb, Cpu, outside, spins, holds, State, update, Step, draws, gets,
  looks, unlocks, Reach, starts, steps,
}

-- How many of the first `n` processors are in the lock or wait for it.
abbrev pub weight : Cpu → ℕ
weight outside = 0
weight (spins tmp) = 1
weight holds = 1

unfoldable pub busy : ℕ → (ℕ → Cpu) → ℕ
busy zero f = 0
busy (suc n) f = busy n f + weight (f n)

busy-beyond : (n i : ℕ) (f : ℕ → Cpu) (c : Cpu) → n ≤ i → busy n (update f i c) ≡ busy n f
unfolding busy
busy-beyond zero i f c h = refl
busy-beyond (suc n) i f c h =
    let other : (n == i) ≡ false = ground arith in
    rw other (omega (arith, busy-beyond n i f c (omega arith)))

busy-update :
    (n i : ℕ) (f : ℕ → Cpu) (c : Cpu)
    → i < n
    → busy n (update f i c) + weight (f i) ≡ busy n f + weight c
unfolding busy
busy-update zero i f c h = absurd (omega arith)
busy-update (suc n) i f c h = elim (Bool-cases (n == i)) [
  | inl last ↦
      let same : n ≡ i = (==_iff n i).0 last in
      let w : weight (f n) ≡ weight (f i) = ap (λ j. weight (f j)) same in
      rw last (omega (arith, busy-beyond n i f c (omega arith), w))
  | inr before ↦ rw before (omega (arith, busy-update n i f c (ground (arith, before))))
]

busy-le : (n : ℕ) (f : ℕ → Cpu) → busy n f ≤ n
unfolding busy
busy-le zero f = omega arith
busy-le (suc n) f = omega (arith, busy-le n f, small (f n))
  where
    small : (c : Cpu) → weight c ≤ 1
    small outside = omega arith
    small (spins tmp) = omega arith
    small holds = omega arith

-- What a processor's place means with the counters unbounded: it drew `ticket`, between the one served
-- and the next to be drawn, and last read that `seen` was served.
abbrev Fits : (served next ticket seen : ℕ) → Cpu → Type 0
Fits served next ticket seen outside = Unit {0}
Fits served next ticket seen (spins tmp) =
    (tmp ≡ ticket % 2 ^ 8 * 2 ^ 8 + seen % 2 ^ 8)
    × (served ≤ ticket)
    × (ticket < next)
    × (seen ≤ served)
    × (ticket < seen + 2 ^ 8)
Fits served next ticket seen holds = (ticket ≡ served) × (served < next)

-- The invariant: the two bytes are the counters, no two processors have the same ticket, and as many
-- have one as were drawn and not served.
record Inv (n : ℕ) (s : State) : Type 0 where
  served : ℕ
  next : ℕ
  ticket : ℕ → ℕ
  seen : ℕ → ℕ
  word : s.val ≡ next % 2 ^ 8 * 2 ^ 8 + served % 2 ^ 8
  count : served + busy n s.cpus ≡ next
  fits : (i : ℕ) → i < n → Fits served next (ticket i) (seen i) (s.cpus i)
  apart :
      (i j : ℕ)
      → i < n
      → j < n
      → weight (s.cpus i) ≡ 1
      → weight (s.cpus j) ≡ 1
      → ticket i ≡ ticket j
      → i ≡ j

abbrev set_at : (ℕ → ℕ) → ℕ → ℕ → ℕ → ℕ
set_at f i a j = if j == i then a else f j

differs : (i j : ℕ) → (j == i) ≡ false → j ≢ i
differs i j e same = cc (e, (==_iff j i).1 same)

-- A step of one processor that keeps the places of the others and the tickets apart.
Inv-update :
    (n : ℕ) (s : State) (v : Inv n s) (i : ℕ) (c : Cpu) (word' served' next' ticket' seen' : ℕ)
    → word' ≡ next' % 2 ^ 8 * 2 ^ 8 + served' % 2 ^ 8
    → served' + busy n (update s.cpus i c) ≡ next'
    → Fits served' next' ticket' seen' c
    → ((j : ℕ) → j < n → j ≢ i → Fits served' next' (v.ticket j) (v.seen j) (s.cpus j))
    → (weight c ≡ 1 → (j : ℕ) → j < n → j ≢ i → weight (s.cpus j) ≡ 1 → ticket' ≢ v.ticket j)
    → Inv n (record { val = word'; cpus = update s.cpus i c })
Inv-update n s v i c word' served' next' ticket' seen' w k f others fresh = record {
  served = served';
  next = next';
  ticket = set_at v.ticket i ticket';
  seen = set_at v.seen i seen';
  word = w;
  count = k;
  fits = λ j hj. elim (Bool-cases (j == i)) [
    | inl same ↦ rw same f
    | inr other ↦ rw other (others j hj (differs i j other))
  ];
  apart = apart';
}
  where
    apart' :
        (a b : ℕ)
        → a < n
        → b < n
        → weight (update s.cpus i c a) ≡ 1
        → weight (update s.cpus i c b) ≡ 1
        → set_at v.ticket i ticket' a ≡ set_at v.ticket i ticket' b
        → a ≡ b
    apart' a b ha hb = elim (Bool-cases (a == i)) [
      | inl at_a ↦ elim (Bool-cases (b == i)) [
        | inl at_b ↦ λ wa wb e. (==_iff a i).0 at_a ∙ sym ((==_iff b i).0 at_b)
        | inr not_b ↦ rw (at_a, not_b) λ wa wb e. absurd (fresh wa b hb (differs i b not_b) wb e)
      ]
      | inr not_a ↦ elim (Bool-cases (b == i)) [
        | inl at_b ↦
            rw (not_a, at_b) λ wa wb e. absurd (fresh wb a ha (differs i a not_a) wa (sym e))
        | inr not_b ↦ rw (not_a, not_b) λ wa wb e. v.apart a b ha hb wa wb e
      ]
    ]

-- A processor in the lock or at it has a ticket that was drawn and not yet served out.
drawn :
    (served next ticket seen : ℕ) (c : Cpu)
    → Fits served next ticket seen c
    → weight c ≡ 1
    → (served ≤ ticket) × (ticket < next)
drawn served next ticket seen outside f w = absurd (omega arith)
drawn served next ticket seen (spins tmp) f w = (f.1, f.2)
drawn served next ticket seen holds f w = (omega arith, omega arith)

later_next :
    (served next ticket seen : ℕ) (c : Cpu)
    → Fits served next ticket seen c
    → Fits served (next + 1) ticket seen c
later_next served next ticket seen outside f = tt
later_next served next ticket seen (spins tmp) f = (f.0, f.1, omega arith, f.3, f.4)
later_next served next ticket seen holds f = (f.0, omega arith)

later_served :
    (served next ticket seen : ℕ) (c : Cpu)
    → Fits served next ticket seen c
    → (weight c ≡ 1 → ticket ≢ served)
    → Fits (served + 1) next ticket seen c
later_served served next ticket seen outside f other = tt
later_served served next ticket seen (spins tmp) f other =
    let ne = other refl in (f.0, ground (arith, f.1, ne), f.2, omega (arith, f.3), f.4)
later_served served next ticket seen holds f other = absurd (other refl f.0)

-- How much the count of tickets changes with one processor's place.
counted :
    (n : ℕ) (s : State) (i : ℕ) (c c' : Cpu)
    → i < n
    → s.cpus i ≡ c
    → busy n (update s.cpus i c') + weight c ≡ busy n s.cpus + weight c'
counted n s i c c' h at =
    ap (λ x. busy n (update s.cpus i c') + weight x) (sym at) ∙ busy-update n i s.cpus c' h

Step-Inv : (n : ℕ) (s s' : State) → n < 2 ^ 8 → Step n s s' → Inv n s → Inv n s'
Step-Inv n s s' small (draws i hi at e) v =
    let k = counted n s i outside (spins s.val) hi at in
    let room = busy-le n (update s.cpus i (spins s.val)) in
    rw e (
      Inv-update n s v i (spins s.val) (xadd s.val) v.served (v.next + 1) v.next v.served
        (omega (arith, v.word)) (omega (arith, k, v.count))
        (
          v.word,
          omega (arith, v.count),
          omega arith,
          omega arith,
          omega (arith, k, room, v.count, small),
        )
        (λ j hj ne. later_next v.served v.next (v.ticket j) (v.seen j) (s.cpus j) (v.fits j hj))
        λ w j hj ne wj same.
          let d = drawn v.served v.next (v.ticket j) (v.seen j) (s.cpus j) (v.fits j hj) wj in
          omega (arith, d, same))
Step-Inv n s s' small (gets i tmp hi at now e) v =
    let k = counted n s i (spins tmp) holds hi at in
    let f = subst (Fits v.served v.next (v.ticket i) (v.seen i)) at (v.fits i hi) in
    let same : high tmp ≡ low tmp = (==_iff (high tmp) (low tmp)).0 now in
    let turn : v.ticket i ≡ v.served = omega (arith, f, same) in
    rw e (
      Inv-update n s v i holds s.val v.served v.next (v.ticket i) (v.seen i) v.word
        (omega (arith, k, v.count)) (turn, omega (arith, f.1, f.2)) (λ j hj ne. v.fits j hj)
        λ w j hj ne wj same. ne (v.apart j i hj hi wj (ap weight at) (sym same)))
Step-Inv n s s' small (looks i tmp hi at later e) v =
    let k = counted n s i (spins tmp) (spins (reload tmp s.val)) hi at in
    let f = subst (Fits v.served v.next (v.ticket i) (v.seen i)) at (v.fits i hi) in
    let room = busy-le n s.cpus in
    rw e (
      Inv-update n s v i (spins (reload tmp s.val)) s.val v.served v.next (v.ticket i) v.served
        v.word (omega (arith, k, v.count))
        (
          omega (arith, f.0, v.word),
          f.1,
          f.2,
          omega arith,
          omega (arith, f.2, v.count, room, small),
        )
        (λ j hj ne. v.fits j hj)
        λ w j hj ne wj same. ne (v.apart j i hj hi wj (ap weight at) (sym same)))
Step-Inv n s s' small (unlocks i hi at e) v =
    let k = counted n s i holds outside hi at in
    let f = subst (Fits v.served v.next (v.ticket i) (v.seen i)) at (v.fits i hi) in
    rw e (
      Inv-update n s v i outside (incb s.val) (v.served + 1) v.next 0 0 (omega (arith, v.word))
        (omega (arith, k, v.count)) tt
        (λ j hj ne.
          later_served v.served v.next (v.ticket j) (v.seen j) (s.cpus j) (v.fits j hj)
            λ wj same. ne (v.apart j i hj hi wj (ap weight at) (same ∙ sym f.0)))
        λ w. absurd (omega arith))

idle : (n : ℕ) → 0 + busy n (λ i. outside) ≡ 0
unfolding busy
idle zero = omega arith
idle (suc n) = omega (arith, idle n)

Reach-Inv : (n : ℕ) (s : State) → n < 2 ^ 8 → Reach n s → Inv n s
Reach-Inv n s small starts = record {
  served = 0;
  next = 0;
  ticket = λ i. 0;
  seen = λ i. 0;
  word = refl;
  count = idle n;
  fits = λ i h. tt;
  apart = λ i j hi hj wi. absurd (omega arith);
}
Reach-Inv n s small (steps s' r st) = Step-Inv n s' s small st (Reach-Inv n s' small r)

-- Of fewer than 256 processors, at most one is between `lock` and `unlock`, however the instructions of
-- all are interleaved and whichever byte an old value of the word leaves behind.
pub Reach-excludes :
    (n : ℕ) (s : State) (i j : ℕ)
    → n < 2 ^ 8
    → Reach n s
    → i < n
    → j < n
    → s.cpus i ≡ holds
    → s.cpus j ≡ holds
    → i ≡ j
Reach-excludes n s i j small r hi hj at_i at_j =
    let v = Reach-Inv n s small r in
    let fi = subst (Fits v.served v.next (v.ticket i) (v.seen i)) at_i (v.fits i hi) in
    let fj = subst (Fits v.served v.next (v.ticket j) (v.seen j)) at_j (v.fits j hj) in
    v.apart i j hi hj (ap weight at_i) (ap weight at_j) (fi.0 ∙ sym fj.0)
