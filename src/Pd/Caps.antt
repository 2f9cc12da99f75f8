-- ===== src/Pd/Caps.antt =====
-- The capability table and the table of children (kern/src/pd.cc).
use nova_mckernel_lab.Base.{
  ℕ, zero, suc, ◌+◌, ◌≤◌, ◌<◌, ◌≡◌, refl, ◌≢◌, ◌⊎◌, inl, inr, List, [], ◌∷◌, arith, Bool-cases, leb,
  ◌==◌, ==_iff, if◌then◌else◌, length, get_or, set, length-set,
}
use nova_mckernel_lab.Machine.{minus_one}
use nova_mckernel_lab.Ec.{Ptr, null}
use nova_mckernel_lab.Pd.{Pd, max_caps, set_cap, get_cap, add_child_from, add_child}

-- The tables have their declared size.
pub record IsPd (d : Pd) : Type 0 where
  pub caps_size : length d.caps ≡ max_caps
  pub children_size : length d.children ≡ max_caps

pub get_or-set :
    (xs : List Ptr) (i j : ℕ) (v d : Ptr)
    → i < length xs
    → get_or (set xs i v) j d ≡ (if j == i then v else get_or xs j d)
get_or-set [] i j v d h = absurd (omega arith)
get_or-set (x ∷ xs) zero zero v d h = refl
get_or-set (x ∷ xs) zero (suc j) v d h = ground arith
get_or-set (x ∷ xs) (suc i) zero v d h = ground arith
get_or-set (x ∷ xs) (suc i) (suc j) v d h = ground (arith, get_or-set xs i j v d)

-- On a domain whose tables have the declared size, `set_cap` on a free slot in range returns the slot,
-- and after it `get_cap` finds the capability there and what it found before everywhere else; on a
-- slot that is taken or out of range it returns -1 and changes nothing.
pub get_cap-set_cap :
    (d : Pd) (slot j : ℕ) (ec : Ptr)
    → IsPd d
    → let (r, d') = set_cap d slot ec in
      ((slot < max_caps)
        × (get_cap d slot ≡ null)
        × (r ≡ slot)
        × (get_cap d' j ≡ (if j == slot then ec else get_cap d j)))
      ⊎ (((max_caps ≤ slot) ⊎ (get_cap d slot ≢ null)) × (r ≡ minus_one) × (d' ≡ d))
unfolding set_cap get_cap
get_cap-set_cap d slot j ec v = elim (Bool-cases (leb max_caps slot)) [
  | inl out ↦ inr (inl (ground arith), ground arith, ground arith)
  | inr inside ↦ elim (Bool-cases (get_or d.caps slot null == null)) [
    | inl free ↦ inl (
      ground arith,
      ground arith,
      ground arith,
      ground (arith, get_or-set d.caps slot j ec null (ground (arith, v.caps_size))),
    )
    | inr taken ↦ inr (inr (ground arith), ground arith, ground arith)
  ]
]

pub set_cap-IsPd : (d : Pd) (slot : ℕ) (ec : Ptr) → IsPd d → IsPd (set_cap d slot ec).1
unfolding set_cap
set_cap-IsPd d slot ec v = ground (arith, length-set d.caps slot ec)

-- Every slot of the table below `n` is taken.
abbrev pub Taken : Pd → ℕ → Type 0
Taken d n = (i : ℕ) → i < n → get_or d.children i null ≢ null

-- The outcome of `add_child`: the first free slot, or -1 and no change if there is none.
abbrev pub Adds : Pd → Ptr → ℕ × Pd → Type 0
Adds d child (r, d') =
    ((r < max_caps)
      × (get_or d.children r null ≡ null)
      × Taken d r
      × (d' ≡ record d { children = set d.children r child }))
    ⊎ (Taken d max_caps × (r ≡ minus_one) × (d' ≡ d))

Taken-suc : (d : Pd) (i : ℕ) → Taken d i → get_or d.children i null ≢ null → Taken d (i + 1)
Taken-suc d i t h j lt = elim (Bool-cases (j == i)) [
  | inl e ↦ rw ((==_iff j i).0 e) h
  | inr ne ↦ t j (ground arith)
]

add_child_from-Adds :
    (n i : ℕ) (d : Pd) (child : Ptr)
    → i + n ≡ max_caps
    → Taken d i
    → Adds d child (add_child_from n i d child)
unfolding add_child_from
add_child_from-Adds zero i d child e t = inr (λ j lt. t j (omega arith), refl, refl)
add_child_from-Adds (suc n) i d child e t = elim (Bool-cases (get_or d.children i null == null)) [
  | inl free ↦ rw free (inl (omega arith, (==_iff _ null).0 free, t, refl))
  | inr taken ↦ rw taken (
      add_child_from-Adds n (i + 1) d child (omega arith)
        (Taken-suc d i t (λ z. cc ((==_iff _ null).1 z))))
]

-- `add_child` takes the first free slot of the eight and reports it, leaving all else alone; if all
-- are taken it returns -1 and changes nothing.
pub add_child-Adds : (d : Pd) (child : Ptr) → Adds d child (add_child d child)
unfolding add_child
add_child-Adds d child = add_child_from-Adds max_caps 0 d child refl (λ j lt. absurd (omega arith))
