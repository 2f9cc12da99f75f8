-- ===== src/Pd/Ancestry.antt =====
-- The chain of parents (kern/src/pd.cc).
use nova_mckernel_lab.Base.{
  ℕ, zero, suc, ◌<◌, ◌≡◌, subst, ◌≢◌, ◌⊎◌, inl, inr, Bool, true, false, arith, Bool-cases, Option,
  some, ◌==◌, ==_iff,
}
use nova_mckernel_lab.Machine.{Outcome, ok}
use nova_mckernel_lab.Ec.{Ptr, null}
use nova_mckernel_lab.Pd.{Pd, Pds, climb, is_ancestor_of}

-- The chain of parents from `p` on ends at the null pointer after `n` domains.
pub data Chain (pds : Pds) : Ptr → ℕ → Type 0 where
  root : {p : Ptr} {n : ℕ} → p ≡ null → n ≡ 0 → Chain pds p n
  above :
      {p : Ptr} {n m : ℕ} (d : Pd)
      → p ≢ null
      → pds p ≡ some d
      → Chain pds d.parent m
      → n ≡ suc m
      → Chain pds p n

-- `a` is on the chain from `p` on.
pub data OnChain (pds : Pds) (a : Ptr) : Ptr → Type 0 where
  here : {p : Ptr} → p ≢ null → p ≡ a → OnChain pds a p
  further :
      {p : Ptr} (d : Pd) → p ≢ null → pds p ≡ some d → OnChain pds a d.parent → OnChain pds a p

-- The answer says whether `a` is on the chain.
abbrev pub Decides : Pds → Ptr → Ptr → Option (Outcome Bool) → Type 0
Decides pds a p r =
    ((r ≡ some (ok true)) × OnChain pds a p) ⊎ ((r ≡ some (ok false)) × (¬ OnChain pds a p))

OnChain-some : {pds : Pds} {a p : Ptr} → OnChain pds a p → p ≢ null
OnChain-some (here some_p e) = some_p
OnChain-some (further d some_p at o) = some_p

OnChain-down :
    {pds : Pds} {a p : Ptr} (d : Pd)
    → pds p ≡ some d
    → p ≢ a
    → OnChain pds a p
    → OnChain pds a d.parent
OnChain-down d at other (here some_p e) = absurd (other e)
OnChain-down {pds} {a} d at other (further d' some_p at' o) =
    let same : d' ≡ d = cc in subst (λ (x : Pd). OnChain pds a x.parent) same o

Decides-up :
    {pds : Pds} {a p : Ptr} {r : Option (Outcome Bool)} (d : Pd)
    → p ≢ null
    → pds p ≡ some d
    → p ≢ a
    → Decides pds a d.parent r
    → Decides pds a p r
Decides-up d some_p at other (inl (e, o)) = inl (e, further d some_p at o)
Decides-up d some_p at other (inr (e, off)) = inr (e, λ o. off (OnChain-down d at other o))

climb-Decides :
    (pds : Pds) (a p : Ptr) (n fuel : ℕ)
    → Chain pds p n
    → n < fuel
    → Decides pds a p (climb fuel pds a p)
unfolding climb
climb-Decides pds a p n zero c h = absurd (omega arith)
climb-Decides pds a p n (suc fuel) (root e z) h = inr (ground arith, λ o. OnChain-some o e)
climb-Decides pds a p n (suc fuel) (above {m} d some_p at rest e) h = elim (Bool-cases (p == a)) [
  | inl same ↦ inl (ground (arith, some_p), here some_p ((==_iff p a).0 same))
  | inr other ↦
      let next : climb (suc fuel) pds a p ≡ climb fuel pds a d.parent = ground (arith, some_p) in
      rw next (
        Decides-up d some_p at (λ s. cc ((==_iff p a).1 s))
          (climb-Decides pds a d.parent m fuel rest (omega arith)))
]

-- If the chain of parents of the other domain ends after `n` domains, `is_ancestor_of` returns within
-- any number of rounds above `n`, and says whether the domain is on that chain, the other itself not
-- counted.
pub is_ancestor_of-Decides :
    (pds : Pds) (a other : Ptr) (d : Pd) (n fuel : ℕ)
    → pds other ≡ some d
    → Chain pds d.parent n
    → n < fuel
    → Decides pds a d.parent (is_ancestor_of fuel pds a other)
unfolding is_ancestor_of
is_ancestor_of-Decides pds a other d n fuel at c h =
    rw (at, is_ancestor_of) (climb-Decides pds a d.parent n fuel c h)
