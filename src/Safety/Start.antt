-- ===== src/Safety/Start.antt =====
-- The pointers of the kernel in `bootstrap` (kern/src/init.cc) and `Ec::root_invoke` (kern/src/ec.cc).
use nova_mckernel_lab.Base.{
  ℕ, zero, suc, ◌+◌, ◌/◌, ◌%◌, ◌^◌, ◌<◌, ◌≡◌, refl, sym, ap, ◌∙◌, ◌≢◌, inl, inr, not, ◌||◌,
  Bool-cases, none, some, true, [], ◌∷◌, arith, ◌==◌, ==_iff, subst,
}
use nova_mckernel_lab.Machine.{ok, ◌>>=◌, add32}
use nova_mckernel_lab.Safe.{
  Safe, Safe-ok, Safe-if, Safe-bind, Safe-lookup, Safe-both, Safe-yields, Safe-weaken,
}
use nova_mckernel_lab.Ec.{Ptr, null, Ec, Ecs, store_ec, ret_user_iret}
use nova_mckernel_lab.Scheduler.{schedule, new_scheduler}
use nova_mckernel_lab.Scheduler.Valid.{view}
use nova_mckernel_lab.Scheduler.First.{schedule_first, first_view}
use nova_mckernel_lab.Scheduler.Population.{held}
use nova_mckernel_lab.Kalloc.{alloc}
use nova_mckernel_lab.Pd.{Pds, set_cap, new_pd}
use nova_mckernel_lab.Kernel.{
  Kernel, put_ec, new_domain, root_ec, make_current, sizeof_ec, sizeof_pd,
}
use nova_mckernel_lab.Boot.{Loaded, remapped, load_segments, root_invoke, unmap_low, bootstrap}
use nova_mckernel_lab.Boot.Start.{
  IsFresh, IsReady, bootstrap-Ensures, root_invoke-Ensures, load_segments-Loads, store_ec_self,
}
use nova_mckernel_lab.Safety.{Stored, Domain, IsWired, IsIntact}
use nova_mckernel_lab.Safety.Memory.{put_ec-IsWired, put_pd-IsWired, store-Stored}
use nova_mckernel_lab.Safety.Domains.{new_pd-IsDomain, set_cap-IsDomain}
use nova_mckernel_lab.Ptab.Pages.{alloc-Safe}

-- Nothing is in memory yet.
abbrev pub IsUnused : Kernel → Type 0
IsUnused k = IsFresh k × ((p : Ptr) → k.ecs p ≡ none) × ((p : Ptr) → k.pds p ≡ none)

unmap_low-same :
    (n : ℕ) (k : Kernel) → ((unmap_low n k).ecs ≡ k.ecs) × ((unmap_low n k).pds ≡ k.pds)
unfolding unmap_low
unmap_low-same zero k = (refl, refl)
unmap_low-same (suc n) k = unmap_low-same n k

unused-IsWired :
    (k : Kernel) → ((p : Ptr) → k.ecs p ≡ none) → ((p : Ptr) → k.pds p ≡ none) → IsWired k
unused-IsWired k no_ecs no_pds =
    ((λ p e at. absurd (cc (at, no_ecs p))), (λ p d at. absurd (cc (at, no_pds p))))

bootstrap-IsWired :
    (load_e addr : ℕ) (k : Kernel)
    → IsUnused k
    → Safe (λ r. IsWired r.1 × IsReady r.1) (bootstrap load_e k addr)
unfolding bootstrap new_domain make_current root_ec
bootstrap-IsWired load_e addr k h =
    let k0 = unmap_low (load_e / 2 ^ 22 + 1) k in
    let (same_ecs, same_pds) = unmap_low-same (load_e / 2 ^ 22 + 1) k in
    let wired0 : IsWired k0 =
      unused-IsWired k0 (λ p. ap (λ (ecs : Ecs). ecs p) same_ecs ∙ h.1 p)
        (λ p. ap (λ (pds : Pds). pds p) same_pds ∙ h.2 p) in
    Safe-both
      (Safe-bind {P = λ r. IsWired r.1 × Domain r.1.pds r.0} (new_domain k0 null)
        (Safe-bind (alloc k0.kalloc sizeof_pd) (alloc-Safe k0.kalloc sizeof_pd) λ (a, pool) _.
          let fresh = new_pd null in
          let same : (a == a) ≡ true = ground arith in
          Safe-ok (
            put_pd-IsWired k0 a fresh wired0 (new_pd-IsDomain k0.ecs k0.pds null),
            (fresh, rw same refl),
          ))
        λ (root_pd, k1) (wired1, there).
          Safe-bind (alloc k1.kalloc sizeof_ec) (alloc-Safe k1.kalloc sizeof_ec) λ (ec, pool) _.
            let e = root_ec (k1.raw ec) addr root_pd in
            let wired2 =
              put_ec-IsWired k1 ec e wired1 (omega arith, omega arith, inl refl, there) in
            let k2 = put_ec k1 ec e in
            let same : (ec == ec) ≡ true = ground arith in
            let made : Stored k2.ecs ec = (e, rw same refl) in
            Safe-lookup there λ d at.
              let granted = (set_cap d 0 ec).1 in
              let wired3 =
                put_pd-IsWired k2 root_pd granted wired2
                  (set_cap-IsDomain k2.ecs k2.pds d 0 ec (wired2.1 root_pd d at) made) in
              Safe-lookup made λ c at_c. Safe-ok wired3)
      (bootstrap-Ensures load_e addr k h.0)

-- What the end of `root_invoke` leaves.
root_runs :
    (k : Kernel) (e : Ec)
    → IsWired k
    → k.sched ≡ new_scheduler
    → k.current ≢ null
    → k.ecs k.current ≡ some e
    → e.priority ≡ 0
    → Safe
        (λ s. (p : Ptr) → p ≢ null → 0 < held p (view s) → Stored k.ecs p)
        (schedule k.ecs k.sched k.current)
root_runs k e wired idle some_current at top =
    let (s, r, _, _) = schedule_first k.ecs k.current e at top some_current in
    let known : schedule k.ecs k.sched k.current ≡ ok s =
      ap (λ t. schedule k.ecs t k.current) idle ∙ r in
    let shown = first_view k.ecs k.current e s at top r in
    Safe-yields (
      s,
      known,
      λ p some_p waits. elim (Bool-cases (k.current == p)) [
        | inl here ↦ subst (Stored k.ecs) ((==_iff k.current p).0 here) (e, at)
        | inr other ↦
            let nothing : held p (record { queues = [] ∷ [] ∷ []; current = k.current }) ≡ 0 =
              ground (arith, other) in
            absurd (omega (arith, waits, ap (held p) shown, nothing))
      ],
    )

IsWired-moves : (k k' : Kernel) → k'.ecs ≡ k.ecs → k'.pds ≡ k.pds → IsWired k → IsWired k'
IsWired-moves k k' ecs pds h =
    subst (λ (m : Ecs). IsWired (record k' { ecs = m })) (sym ecs)
      (subst (λ (m : Pds). IsWired (record k { pds = m })) (sym pds) h)

root_invoke-IsWired :
    (l : Loaded) (k : Kernel)
    → IsWired k
    → IsReady k
    → Safe
        (λ k'. IsWired k' × ((p : Ptr) → p ≢ null → 0 < held p (view k'.sched) → Stored k'.ecs p))
        (root_invoke l k)
unfolding root_invoke
root_invoke-IsWired l k wired (h, some_current, (e, at, top)) =
    Safe-lookup (e, at)
      λ e' at'.
        let mbi = l.multiboot e'.regs.eax in
        let m = l.module_at mbi.mods_addr in
        let eh = l.eh m.mod_start in
        let table = add32 m.mod_start eh.ph_offset in
        let k2 =
          remapped (remapped (remapped (remapped k e'.regs.eax) mbi.mods_addr) m.cmdline)
            m.mod_start in
        let r = e'.regs in
        let loaded = record e' { regs = record r { eip = eh.entry } } in
        let k3 = remapped (put_ec k2 k2.current loaded) table in
        let wired3 = put_ec-IsWired k2 k2.current loaded wired (wired.0 k.current e' at') in
        let still_top : loaded.priority ≡ 0 = ap (λ (x : Ec). x.priority) (one_root at at') ∙ top in
        Safe-if (mbi.flags / 8 % 2 == 0 || not (mbi.mods_count == 1)) (λ _. record { holds = tt })
          λ _.
            Safe-if
              (not (eh.ei_magic == 0x464c_457f) || (not (eh.ei_data == 1) || not (eh.type == 2)))
              (λ _. record { holds = tt })
              λ _.
                Safe-bind (load_segments l m.mod_start table eh.ph_count 0 k3)
                  (load_segments-Loads l m.mod_start table eh.ph_count 0 k3 h.1)
                  λ k4 w.
                    let found : k4.ecs k4.current ≡ some loaded =
                      ap (λ (ecs : Ecs). ecs k4.current) w.0
                      ∙ ap (store_ec k.ecs k.current loaded) w.2
                      ∙ store_ec_self k.ecs k.current loaded in
                    let wired4 = IsWired-moves k3 k4 w.0 w.4 wired3 in
                    Safe-bind (schedule k4.ecs k4.sched k4.current)
                      (root_runs k4 loaded wired4 (w.1 ∙ h.0) (λ z. some_current (sym w.2 ∙ z))
                        found still_top)
                      λ s q.
                        Safe-lookup (loaded, found)
                          λ e'' at''.
                            let w'' = record e'' { cont = ret_user_iret } in
                            Safe-ok (
                              put_ec-IsWired k4 k4.current w'' wired4
                                  (wired4.0 k4.current e'' at''),
                              λ p some_p waits.
                                  store-Stored k4.ecs k4.current p w'' (q p some_p waits),
                            )
  where
    one_root : {e' : Ec} → k.ecs k.current ≡ some e → k.ecs k.current ≡ some e' → e' ≡ e
    one_root at at' = cc

-- The start of the kernel.
pub start-IsIntact :
    (l : Loaded) (load_e addr : ℕ) (k : Kernel)
    → IsUnused k
    → Safe IsIntact (bootstrap load_e k addr >>= λ r. root_invoke l r.1)
start-IsIntact l load_e addr k h =
    Safe-bind (bootstrap load_e k addr) (bootstrap-IsWired load_e addr k h) λ r (wired, ready).
      Safe-weaken
        (λ k' w. record { kernel = w.1; contexts = w.0.0.0; domains = w.0.0.1; queued = w.0.1 })
        (Safe-both (root_invoke-IsWired l r.1 wired ready) (root_invoke-Ensures l r.1 ready))
