-- ===== src/Bytes/Overlap.antt =====
-- `memmove` (kern/src/string.cc) copies the bytes as they were, however the regions overlap.
use nova_mckernel_lab.Base.{
  ℕ, zero, suc, ◌+◌, ◌-◌, ◌≤◌, ◌<◌, ◌≡◌, refl, sym, ap, ◌∙◌, Bool, Bool-cases, inl, inr, ◌&&◌,
  arith, ltb, leb, ◌==◌, ==_iff, if◌then◌else◌,
}
use nova_mckernel_lab.Bytes.{Bytes, store_byte, copy_up, copy_down, memmove}

-- Whether `a` is one of the `n` bytes from `d` on.
abbrev pub within : ℕ → ℕ → ℕ → Bool
within d n a = leb d a && ltb a (d + n)

copy_up-moves :
    (n i d s : ℕ) (m : Bytes) (a : ℕ)
    → d < s
    → copy_up n i d s m a ≡ (if within (d + i) n a then m (s + (a - d)) else m a)
unfolding copy_up
copy_up-moves zero i d s m a h = ground arith
copy_up-moves (suc n) i d s m a h =
    copy_up-moves n (i + 1) d s (store_byte m (d + i) (m (s + i))) a h
    ∙ elim (Bool-cases (a == d + i)) [
      | inl here ↦
          let place : a ≡ d + i = (==_iff _ _).0 here in
          let same : m (s + (a - d)) ≡ m (s + i) = ap m (omega arith) in ground (arith, same, place)
      | inr there ↦ ground (arith, there)
    ]

copy_down-moves :
    (n d s : ℕ) (m : Bytes) (a : ℕ)
    → s ≤ d
    → copy_down n d s m a ≡ (if within d n a then m (s + (a - d)) else m a)
unfolding copy_down
copy_down-moves zero d s m a h = ground arith
copy_down-moves (suc n) d s m a h =
    copy_down-moves n d s (store_byte m (d + n) (m (s + n))) a h ∙ elim (Bool-cases (a == d + n)) [
      | inl here ↦
          let place : a ≡ d + n = (==_iff _ _).0 here in
          let same : m (s + (a - d)) ≡ m (s + n) = ap m (omega arith) in ground (arith, same, place)
      | inr there ↦ ground (arith, there)
    ]

-- After `memmove`, each byte of the destination is the byte that the source had at its place before the
-- copy, and every other byte is as before.
pub memmove-moves :
    (m : Bytes) (d s n a : ℕ) → memmove m d s n a ≡ (if within d n a then m (s + (a - d)) else m a)
unfolding memmove
memmove-moves m d s n a = elim (Bool-cases (d == s)) [
  | inl same ↦
      let place : d ≡ s = (==_iff _ _).0 same in
      let whole : (if within d n a then m (s + (a - d)) else m a) ≡ m a =
        elim (Bool-cases (within d n a)) [
          | inl inside ↦ rw inside (ap m (ground arith))
          | inr outside ↦ rw outside refl
        ] in
      rw same (sym whole)
  | inr other ↦ elim (Bool-cases (n == 0)) [
    | inl empty ↦ rw (other, empty) (ground arith)
    | inr some_bytes ↦ elim (Bool-cases (ltb d s)) [
      | inl up ↦
          rw (other, some_bytes, up)
            (copy_up-moves n 0 d s m a (ground arith)
              ∙ ap (λ e. if within e n a then m (s + (a - d)) else m a) (omega arith))
      | inr down ↦ rw (other, some_bytes, down) (copy_down-moves n d s m a (ground arith))
    ]
  ]
]
