-- ===== src/Bytes.antt =====
-- `memmove` and `strcmp` (kern/include/string.h, kern/src/string.cc), on memory as a byte at each
-- address. The bytes lie below the end of memory.
pub mod Overlap
use nova_mckernel_lab.Base.{
  ℕ, zero, suc, ◌+◌, ◌-◌, Bool, true, false, ◌&&◌, ◌||◌, not, Option, none, some, ltb, ◌==◌,
  if◌then◌else◌,
}

abbrev pub Bytes : Type 0
Bytes = ℕ → ℕ

abbrev pub store_byte : Bytes → ℕ → ℕ → Bytes
store_byte m a v b = if b == a then v else m b

-- The loop upwards, `n` bytes from the `i`-th on left.
unfoldable pub copy_up : ℕ → ℕ → ℕ → ℕ → Bytes → Bytes
copy_up zero i d s m = m
copy_up (suc n) i d s m = copy_up n (i + 1) d s (store_byte m (d + i) (m (s + i)))

-- The loop downwards, `n` bytes left.
unfoldable pub copy_down : ℕ → ℕ → ℕ → Bytes → Bytes
copy_down zero d s m = m
copy_down (suc n) d s m = copy_down n d s (store_byte m (d + n) (m (s + n)))

unfoldable pub memmove : Bytes → ℕ → ℕ → ℕ → Bytes
unfolding copy_up copy_down
memmove m d s n =
    if (d == s) || (n == 0) then m else (if ltb d s then copy_up n 0 d s m else copy_down n d s m)

-- `strcmp`, with the difference of the signed bytes as the two bytes; `none` if the fuel runs out.
unfoldable pub strcmp : ℕ → Bytes → ℕ → ℕ → Option (ℕ × ℕ)
strcmp zero m s1 s2 = none
strcmp (suc fuel) m s1 s2 =
    let rest = strcmp fuel m (s1 + 1) (s2 + 1) in
    if not (m s1 == 0) && (m s1 == m s2) then rest else some (m s1, m s2)
