-- ===== src/Processor/Cache.antt =====
-- Which lines of the cache `flush (d, n)` (kern/include/x86.h) writes back, where a line has 32 bytes.
use nova_mckernel_lab.Base.{
  ℕ, zero, suc, ◌+◌, ◌-◌, ◌*◌, ◌/◌, ◌%◌, ◌≤◌, ◌<◌, ◌≡◌, ◌↔◌, ◌⊎◌, inl, inr, Bool-cases, List, [],
  ◌∷◌, arith, ltb,
}
use nova_mckernel_lab.Processor.{flush_from, flush_region}

-- One of the addresses lies in the line.
abbrev pub Touches : ℕ → List ℕ → Type 0
Touches line [] = ⊥
Touches line (p ∷ ps) = (p / 32 ≡ line) ⊎ Touches line ps

flush_from-Touches :
    (fuel p end line : ℕ)
    → end ≤ p + 32 * fuel
    → Touches line (flush_from fuel p end) ↔ ((p / 32 ≤ line) × (32 * line + p % 32 < end))
unfolding flush_from
flush_from-Touches zero p end line h =
    ((λ t. absurd t), λ (low, high). absurd (omega (arith, h, low, high)))
flush_from-Touches (suc fuel) p end line h = elim (Bool-cases (ltb p end)) [
  | inr over ↦
      let over' : end ≤ p = ground (arith, over) in
      rw over ((λ t. absurd t), λ (low, high). absurd (omega (arith, over', low, high)))
  | inl more ↦
      let more' : p < end = ground (arith, more) in
      let (up, down) = flush_from-Touches fuel (p + 32) end line (omega (arith, h)) in
      rw more (first more' up, last more' down)
]
  where
    first :
        p < end
        → (Touches line (flush_from fuel (p + 32) end)
            → ((p + 32) / 32 ≤ line) × (32 * line + (p + 32) % 32 < end))
        → (p / 32 ≡ line) ⊎ Touches line (flush_from fuel (p + 32) end)
        → (p / 32 ≤ line) × (32 * line + p % 32 < end)
    first more up (inl here) = omega (arith, more, here)
    first more up (inr later) = omega (arith, up later)

    last :
        p < end
        → (((p + 32) / 32 ≤ line) × (32 * line + (p + 32) % 32 < end)
            → Touches line (flush_from fuel (p + 32) end))
        → (p / 32 ≤ line) × (32 * line + p % 32 < end)
        → (p / 32 ≡ line) ⊎ Touches line (flush_from fuel (p + 32) end)
    last more down (low, high) = elim (Bool-cases (ltb (p / 32) line)) [
      | inr here ↦ inl (ground (arith, here, low))
      | inl later ↦
          let later' : p / 32 < line = ground (arith, later) in
          inr (down (omega (arith, later'), omega (arith, high)))
    ]

-- Of a region of `n` bytes from `d` on, the lines that are flushed are those from the first one of the
-- region on in which the byte with the offset of `d` lies in the region. So the last line of the region
-- is flushed exactly if the offsets of its first byte, and of its last one from there, add up to less
-- than a line.
pub flush_region-Touches :
    (d n line : ℕ)
    → 0 < n
    → (Touches line (flush_region d n) ↔ ((d / 32 ≤ line) × (32 * line + d % 32 < d + n)))
      × (Touches ((d + n - 1) / 32) (flush_region d n) ↔ (d % 32 + (n - 1) % 32 < 32))
unfolding flush_region
flush_region-Touches d n line some_n =
    let (up, down) = flush_from-Touches n d (d + n) ((d + n - 1) / 32) (omega arith) in
    (
      flush_from-Touches n d (d + n) line (omega arith),
      (
        (λ t. omega (arith, up t, some_n)),
        λ fits. down (omega (arith, some_n, fits), omega (arith, some_n, fits)),
      ),
    )
