-- ===== src/Kalloc/Pool.antt =====
-- The blocks that the pool of kern/src/kalloc.cc hands out lie inside it and never overlap.
use nova_mckernel_lab.Base.{
  ℕ, ◌+◌, ◌*◌, ◌≤◌, ◌<◌, ◌≡◌, ◌⊎◌, inl, inr, List, [], ◌∷◌, arith, Bool-cases, ltb, leb, ◌-◌,
  if◌then◌else◌,
}
use nova_mckernel_lab.Machine.{word_mod, sub32, add32, ok, panic, Outcome, ◌>>=◌, out_of_memory}
use nova_mckernel_lab.Refines.{Promised, bind-Promised}
use nova_mckernel_lab.Kalloc.{
  Kalloc, Memory, Fill, page_size, page_bytes, alloc, alloc_page, fill_pages,
}

-- A call of `alloc` or of `alloc_page`.
pub data Request : Type 0 where
  object : ℕ → Request
  pages : ℕ → Fill → Request

-- An address and a number of bytes.
abbrev pub Block : Type 0
Block = ℕ × ℕ

abbrev pub request : Kalloc → Memory → Request → Outcome (Block × Kalloc × Memory)
request k m (object n) = alloc k n >>= λ r. ok ((r.0, n), r.1, m)
request k m (pages n f) = alloc_page k m n f >>= λ r. ok ((r.0, n * page_size), r.1, r.2)

pub requests : Kalloc → Memory → List Request → Outcome (List Block × Kalloc × Memory)
requests k m [] = ok ([], k, m)
requests k m (r ∷ rs) = do
  (b, k', m') ← request k m r
  (bs, k'', m'') ← requests k' m' rs
  ok (b ∷ bs, k'', m'')

abbrev pub IsPool : Kalloc → Type 0
IsPool k = (k.begin ≤ k.end) × (k.end < word_mod)

-- A request whose size makes neither test wrap round: no larger than the addresses below the pool
-- or above it.
abbrev pub IsModest : Kalloc → Request → Type 0
IsModest k (object n) = n ≤ k.begin
IsModest k (pages n f) = k.end + n * page_size < word_mod

abbrev pub AllModest : Kalloc → List Request → Type 0
AllModest k [] = Unit {0}
AllModest k (r ∷ rs) = IsModest k r × AllModest k rs

-- The block lies in the pool.
abbrev pub Inside : Kalloc → Block → Type 0
Inside k b = (k.begin ≤ b.0) × (b.0 + b.1 ≤ k.end)

abbrev pub AllInside : Kalloc → List Block → Type 0
AllInside k [] = Unit {0}
AllInside k (b ∷ bs) = Inside k b × AllInside k bs

-- The two share no byte.
abbrev pub Apart : Block → Block → Type 0
Apart b c = (b.0 + b.1 ≤ c.0) ⊎ (c.0 + c.1 ≤ b.0)

abbrev pub ApartFrom : Block → List Block → Type 0
ApartFrom b [] = Unit {0}
ApartFrom b (c ∷ cs) = Apart b c × ApartFrom b cs

abbrev pub AllApart : List Block → Type 0
AllApart [] = Unit {0}
AllApart (b ∷ bs) = ApartFrom b bs × AllApart bs

-- What is left of the pool is a part of it, and the block lies in the pool outside what is left.
abbrev Cut : Kalloc → Block → Kalloc → Type 0
Cut k b k' =
    IsPool k'
    × (k.begin ≤ k'.begin)
    × (k'.end ≤ k.end)
    × Inside k b
    × ((b.0 + b.1 ≤ k'.begin) ⊎ (k'.end ≤ b.0))

request-Cut :
    (k : Kalloc) (m : Memory) (r : Request)
    → IsPool k
    → IsModest k r
    → Promised (λ x. Cut k x.0 x.1) (request k m r)
unfolding alloc alloc_page
request-Cut k m (object n) p h = elim (Bool-cases (ltb (sub32 k.end n) k.begin)) [
  | inl none_left ↦ rw none_left tt
  | inr fits ↦ rw fits (ground arith)
]
request-Cut k m (pages n f) p h = elim (Bool-cases (ltb k.end (add32 k.begin (page_bytes n)))) [
  | inl none_left ↦ rw none_left tt
  | inr fits ↦ rw fits (ground arith)
]

Inside-weaken :
    (k k' : Kalloc) (bs : List Block)
    → k.begin ≤ k'.begin
    → k'.end ≤ k.end
    → AllInside k' bs
    → AllInside k bs
Inside-weaken k k' [] lo hi h = tt
Inside-weaken k k' (b ∷ bs) lo hi h = ((omega arith, omega arith), Inside-weaken k k' bs lo hi h.1)

Inside-apart :
    (k : Kalloc) (b : Block) (bs : List Block)
    → ((b.0 + b.1 ≤ k.begin) ⊎ (k.end ≤ b.0))
    → AllInside k bs
    → ApartFrom b bs
Inside-apart k b [] o h = tt
Inside-apart k b (c ∷ cs) o h = (ground arith, Inside-apart k b cs o h.1)

Modest-weaken :
    (k k' : Kalloc) (rs : List Request)
    → k.begin ≤ k'.begin
    → k'.end ≤ k.end
    → AllModest k rs
    → AllModest k' rs
Modest-weaken k k' [] lo hi h = tt
Modest-weaken k k' (object n ∷ rs) lo hi h = (omega arith, Modest-weaken k k' rs lo hi h.1)
Modest-weaken k k' (pages n f ∷ rs) lo hi h = (omega arith, Modest-weaken k k' rs lo hi h.1)

-- On a pool whose bounds are in order, however objects and pages are mixed, as long as no size wraps a
-- test round: if all requests are served, every block lies in the pool, no two blocks share a byte, and
-- what is left is a pool inside the old one.
pub requests-AllApart :
    (k : Kalloc) (m : Memory) (rs : List Request)
    → IsPool k
    → AllModest k rs
    → Promised
        (λ x.
          AllInside k x.0 × AllApart x.0 × IsPool x.1 × (k.begin ≤ x.1.begin) × (x.1.end ≤ k.end))
        (requests k m rs)
unfolding requests
requests-AllApart k m [] p h = (tt, tt, p, omega arith, omega arith)
requests-AllApart k m (r ∷ rs) p h =
    bind-Promised _ _ (request k m r) _ (request-Cut k m r p h.0) λ (b, k', m') cut.
      bind-Promised _ _ (requests k' m' rs) _
        (requests-AllApart k' m' rs cut.0 (Modest-weaken k k' rs cut.1 cut.2 h.1))
        λ (bs, k'', m'') rest. (
          (cut.3, Inside-weaken k k' bs cut.1 cut.2 rest.0),
          (Inside-apart k' b bs cut.4 rest.0, rest.1),
          rest.2,
          omega arith,
          omega arith,
        )

-- On a pool whose bounds are in order, for a request whose size wraps no test round: an object is cut
-- from the top exactly when the pool has room for it, pages are cut from the bottom and filled as asked
-- exactly when it has, and otherwise the request ends in the panic.
pub request_exact :
    (k : Kalloc) (m : Memory) (r : Request)
    → IsPool k
    → IsModest k r
    → request k m r ≡ elim r [
      | object n ↦
          if leb (k.begin + n) k.end
          then ok ((k.end - n, n), record k { end = k.end - n }, m)
          else panic out_of_memory
      | pages n f ↦
          if leb (k.begin + n * page_size) k.end
          then ok (
            (k.begin, n * page_size),
            record k { begin = k.begin + n * page_size },
            fill_pages f m k.begin (n * page_size),
          )
          else panic out_of_memory
    ]
unfolding alloc alloc_page
request_exact k m (object n) p h = ground arith
request_exact k m (pages n f) p h =
    let whole : page_bytes n ≡ n * page_size = omega arith in
    let sum : add32 k.begin (n * page_size) ≡ k.begin + n * page_size = omega arith in
    rw (whole, sum) (ground arith)
