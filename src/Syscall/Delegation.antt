-- ===== src/Syscall/Delegation.antt =====
-- What `SyscallDelegateCap::handle` (kern/src/syscall.cc) does to the domains.
use nova_mckernel_lab.Base.{
  ℕ, ◌<◌, ◌≡◌, refl, sym, ap, ◌∙◌, ◌≢◌, ◌⊎◌, inl, inr, true, false, Bool-cases, some, arith, leb,
  ltb, ◌==◌, ==_iff, if◌then◌else◌, get_or,
}
use nova_mckernel_lab.Machine.{minus_one, ok}
use nova_mckernel_lab.Refines.{
  Returns, Returns-test, Returns-Promised, Promised, Ensures, Ensures-ok, Ensures-test,
  Ensures-lookup,
}
use nova_mckernel_lab.Ec.{Ptr, null, Ec, store_ec}
use nova_mckernel_lab.Pd.{Pd, store_pd, max_caps, set_cap, get_cap, is_negative}
use nova_mckernel_lab.Pd.Caps.{IsPd, get_cap-set_cap}
use nova_mckernel_lab.Kernel.{Kernel, Control, returns, put_ec, put_pd, set_eax, with_eax}
use nova_mckernel_lab.Syscall.{reply, handle_delegate_cap, delegate}

-- The caller's answer is `v`, and no other context has changed.
abbrev pub Answers : Kernel → Ec → ℕ → Kernel → Type 0
Answers k e v k' = k'.ecs ≡ store_ec k.ecs k.current (with_eax e v)

pub Ensures-reply :
    (k : Kernel) (v : ℕ) {e : Ec} (P : Control × Kernel → Type 0)
    → k.ecs k.current ≡ some e
    → P (returns, put_ec k k.current (with_eax e v))
    → Ensures P (reply k v)
unfolding set_eax
Ensures-reply k v P at p = rw at (Ensures-ok p)

-- The slot `dst` of the domain at `c`, which was free, holds the caller's capability `ec` afterwards;
-- its other slots and the other domains are as before.
abbrev pub Grants : Kernel → Ptr → ℕ → Ptr → Kernel → Type 0
Grants k c dst ec k' =
    (x : Pd) × (x' : Pd) × (k.pds c ≡ some x)
    × (get_cap x dst ≡ null)
    × (k'.pds ≡ store_pd k.pds c x')
    × ((j : ℕ) → get_cap x' j ≡ (if j == dst then ec else get_cap x j))

-- No domain has changed.
abbrev pub Unchanged : Kernel → Kernel → Type 0
Unchanged k k' = (p : Ptr) → k'.pds p ≡ k.pds p

abbrev pub Delegates : Kernel → Ec → Pd → ℕ → ℕ → ℕ → Control × Kernel → Type 0
Delegates k e d child src dst r =
    ((get_or d.children child null ≢ null)
      × (get_cap d src ≢ null)
      × Grants k (get_or d.children child null) dst (get_cap d src) r.1
      × Answers k e 0 r.1)
    ⊎ (Unchanged k r.1 × Answers k e minus_one r.1)

small : (n : ℕ) → n < max_caps → is_negative n ≡ false
small n h = ground arith

put-Unchanged :
    (k : Kernel) (c : Ptr) (x x' : Pd) → k.pds c ≡ some x → x' ≡ x → Unchanged k (put_pd k c x')
put-Unchanged k c x x' at same p = elim (Bool-cases (c == p)) [
  | inl e ↦ rw e (ap some same ∙ sym at ∙ ap k.pds ((==_iff c p).0 e))
  | inr e ↦ rw e refl
]

set_cap-slots :
    (x : Pd) (dst : ℕ) (ec : Ptr)
    → IsPd x
    → dst < max_caps
    → (set_cap x dst ec).0 ≡ dst
    → (j : ℕ) → get_cap (set_cap x dst ec).1 j ≡ (if j == dst then ec else get_cap x j)
set_cap-slots x dst ec v lt r j = elim (get_cap-set_cap x dst j ec v) [
  | inl (inside, free, same, slot) ↦ slot
  | inr (why, failed, same) ↦ absurd (omega arith)
]

-- What follows the tests of the child and of the capability.
grant-Delegates :
    (k : Kernel) (e : Ec) (d : Pd) (child src dst : ℕ) (x : Pd)
    → k.ecs k.current ≡ some e
    → k.pds (get_or d.children child null) ≡ some x
    → IsPd x
    → get_or d.children child null ≢ null
    → get_cap d src ≢ null
    → Ensures (Delegates k e d child src dst) (
        let (result, x') = set_cap x dst (get_cap d src) in
        let k' = put_pd k (get_or d.children child null) x' in
        if is_negative result then reply k' minus_one else reply k' 0)
grant-Delegates k e d child src dst x at_ec at_pd v some_child some_cap =
    let c = get_or d.children child null in
    let s = set_cap x dst (get_cap d src) in
    elim (get_cap-set_cap x dst 0 (get_cap d src) v) [
      | inl (lt, free, r, slot_0) ↦
          let positive : is_negative s.0 ≡ false = ap is_negative r ∙ small dst lt in
          rw positive (
            Ensures-reply (put_pd k c s.1) 0 (Delegates k e d child src dst) at_ec (
              inl (
                some_child,
                some_cap,
                (x, s.1, at_pd, free, refl, set_cap-slots x dst (get_cap d src) v lt r),
                refl,
              )))
      | inr (why, r, same) ↦
          let negative : is_negative s.0 ≡ true = ap is_negative r in
          rw negative (
            Ensures-reply (put_pd k c s.1) minus_one (Delegates k e d child src dst) at_ec
              (inr (put-Unchanged k c x s.1 at_pd same, refl)))
    ]

delegate_cap-Promised :
    (k : Kernel) (e : Ec) (d : Pd) (argc child src dst : ℕ)
    → k.ecs k.current ≡ some e
    → k.pds e.pd ≡ some d
    → ((p : Ptr) (x : Pd) → k.pds p ≡ some x → IsPd x)
    → Promised (Delegates k e d child src dst) (handle_delegate_cap k argc child src dst)
unfolding handle_delegate_cap delegate
delegate_cap-Promised k e d argc child src dst at_ec at_pd v =
    let refuse : Ensures (Delegates k e d child src dst) (reply k minus_one) =
      Ensures-reply k minus_one (Delegates k e d child src dst) at_ec (inr (λ p. refl, refl)) in
    let all : Ensures (Delegates k e d child src dst) (handle_delegate_cap k argc child src dst) =
      rw (at_ec, at_pd)
        (Ensures-test (ltb argc 3) (λ few. refuse)
          λ enough.
            Ensures-test (leb max_caps child) (λ out. refuse)
              λ inside.
                Ensures-test (get_or d.children child null == null) (λ missing. refuse)
                  λ some_child.
                    Ensures-test (get_cap d src == null) (λ empty. refuse)
                      λ some_cap. Ensures-lookup (k.pds (get_or d.children child null)) λ x at.
                        grant-Delegates k e d child src dst x at_ec at (v _ x at)
                          (ground (arith, some_child)) (ground (arith, some_cap))) in
    all.ensured

reply-Returns : (k : Kernel) (v : ℕ) {e : Ec} → k.ecs k.current ≡ some e → Returns (reply k v)
unfolding set_eax
reply-Returns k v {e} at = ((returns, put_ec k k.current (with_eax e v)), rw (at, set_eax) refl)

delegate_cap-Returns :
    (k : Kernel) (e : Ec) (d : Pd) (argc child src dst : ℕ)
    → k.ecs k.current ≡ some e
    → k.pds e.pd ≡ some d
    → (get_or d.children child null ≢ null
        → (x : Pd) × (k.pds (get_or d.children child null) ≡ some x))
    → Returns (handle_delegate_cap k argc child src dst)
unfolding handle_delegate_cap delegate
delegate_cap-Returns k e d argc child src dst at_ec at_pd alive =
    rw (at_ec, at_pd)
      (Returns-test (ltb argc 3) (reply-Returns k minus_one at_ec) λ enough.
        Returns-test (leb max_caps child) (reply-Returns k minus_one at_ec) λ inside.
          Returns-test (get_or d.children child null == null) (reply-Returns k minus_one at_ec)
            λ some_child.
              Returns-test (get_cap d src == null) (reply-Returns k minus_one at_ec) λ some_cap.
                let (x, at) = alive (ground (arith, some_child)) in
                let s = set_cap x dst (get_cap d src) in
                let k' = put_pd k (get_or d.children child null) s.1 in
                rw at (
                  Returns-test (is_negative s.0) (reply-Returns k' minus_one at_ec)
                    λ fits. reply-Returns k' 0 at_ec))

-- With every domain's tables of the declared size and the child a domain if there is one,
-- `delegate_cap` returns, and has either copied the caller's capability into a slot of the child that
-- was free and answered 0, changing no other slot and no other domain, or answered -1 and changed no
-- domain.
pub delegate_cap-Delegates :
    (k : Kernel) (e : Ec) (d : Pd) (argc child src dst : ℕ)
    → k.ecs k.current ≡ some e
    → k.pds e.pd ≡ some d
    → ((p : Ptr) (x : Pd) → k.pds p ≡ some x → IsPd x)
    → (get_or d.children child null ≢ null
        → (x : Pd) × (k.pds (get_or d.children child null) ≡ some x))
    → (r : Control × Kernel) × (handle_delegate_cap k argc child src dst ≡ ok r)
      × Delegates k e d child src dst r
delegate_cap-Delegates k e d argc child src dst at_ec at_pd v alive =
    Returns-Promised (Delegates k e d child src dst) (handle_delegate_cap k argc child src dst)
      (delegate_cap-Returns k e d argc child src dst at_ec at_pd alive)
      (delegate_cap-Promised k e d argc child src dst at_ec at_pd v)
