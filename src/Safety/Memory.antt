-- ===== src/Safety/Memory.antt =====
-- Writes to contexts and domains that leave every pointer of the kernel leading somewhere
-- (kern/src/syscall.cc).
use nova_mckernel_lab.Base.{
  ◌≡◌, refl, ◌∙◌, ◌≢◌, ◌⊎◌, inl, inr, Bool-cases, some, arith, ◌==◌, subst,
}
use nova_mckernel_lab.Ec.{Ptr, null, Ec, Ecs, store_ec}
use nova_mckernel_lab.Scheduler.{Scheduler}
use nova_mckernel_lab.Scheduler.Valid.{view}
use nova_mckernel_lab.Scheduler.Population.{held}
use nova_mckernel_lab.Scheduler.Current.{IsSound}
use nova_mckernel_lab.Pd.{Pd, Pds, store_pd}
use nova_mckernel_lab.Kernel.{Kernel, put_ec, put_pd}
use nova_mckernel_lab.Ipc.Fast.{held-running}
use nova_mckernel_lab.Safety.{Stored, Domain, IsContext, IsDomain, IsWired, IsIntact}

pub store-Stored : (ecs : Ecs) (p q : Ptr) (w : Ec) → Stored ecs q → Stored (store_ec ecs p w) q
store-Stored ecs p q w (e, at) = elim (Bool-cases (p == q)) [
  | inl here ↦ (w, rw here refl)
  | inr other ↦ (e, rw other at)
]

pub store-Domain : (pds : Pds) (p q : Ptr) (w : Pd) → Domain pds q → Domain (store_pd pds p w) q
store-Domain pds p q w (d, at) = elim (Bool-cases (p == q)) [
  | inl here ↦ (w, rw here refl)
  | inr other ↦ (d, rw other at)
]

or_map : {A B C : Type 0} → (B → C) → A ⊎ B → A ⊎ C
or_map f (inl a) = inl a
or_map f (inr b) = inr (f b)

module _ (ecs ecs' : Ecs) (pds pds' : Pds) (more : (p : Ptr) → Stored ecs p → Stored ecs' p)
    (more_pds : (p : Ptr) → Domain pds p → Domain pds' p) where
  pub IsContext-grows : (e : Ec) → IsContext ecs pds e → IsContext ecs' pds' e
  IsContext-grows e (ranked, saved, link, domain) =
      (ranked, saved, or_map (more e.pending_sender) link, more_pds e.pd domain)

  pub IsDomain-grows : (d : Pd) → IsDomain ecs pds d → IsDomain ecs' pds' d
  IsDomain-grows d (size, caps, children) =
      (size, (λ i. or_map (more _) (caps i)), (λ i. or_map (more_pds _) (children i)))

-- A write to a context.
pub put_ec-IsWired :
    (k : Kernel) (p : Ptr) (w : Ec) → IsWired k → IsContext k.ecs k.pds w → IsWired (put_ec k p w)
put_ec-IsWired k p w (contexts, domains) good =
    let ecs' = store_ec k.ecs p w in
    let more : (q : Ptr) → Stored k.ecs q → Stored ecs' q = λ q. store-Stored k.ecs p q w in
    let grows = IsContext-grows k.ecs ecs' k.pds k.pds more (λ q d. d) in
    (
      λ q e at. elim (Bool-cases (p == q)) [
        | inl here ↦
            let same : w ≡ e = ground (arith, here, at) in
            subst (IsContext ecs' k.pds) same (grows w good)
        | inr other ↦
            let at' : k.ecs q ≡ some e = ground (arith, other, at) in grows e (contexts q e at')
      ],
      λ q d at. IsDomain-grows k.ecs ecs' k.pds k.pds more (λ q d. d) d (domains q d at),
    )

pub put_ec-IsIntact :
    (k : Kernel) (p : Ptr) (w : Ec) → IsIntact k → IsContext k.ecs k.pds w → IsIntact (put_ec k p w)
put_ec-IsIntact k p w h good =
    let (contexts, domains) = put_ec-IsWired k p w (h.contexts, h.domains) good in
    record {
      kernel = h.kernel;
      contexts = contexts;
      domains = domains;
      queued = λ q some_q there. store-Stored k.ecs p q w (h.queued q some_q there);
    }

-- A write to a domain.
pub put_pd-IsWired :
    (k : Kernel) (p : Ptr) (w : Pd) → IsWired k → IsDomain k.ecs k.pds w → IsWired (put_pd k p w)
put_pd-IsWired k p w (contexts, domains) good =
    let pds' = store_pd k.pds p w in
    let more : (q : Ptr) → Domain k.pds q → Domain pds' q = λ q. store-Domain k.pds p q w in
    let grows = IsDomain-grows k.ecs k.ecs k.pds pds' (λ q e. e) more in
    (
      λ q e at. IsContext-grows k.ecs k.ecs k.pds pds' (λ q e. e) more e (contexts q e at),
      λ q d at. elim (Bool-cases (p == q)) [
        | inl here ↦
            let same : w ≡ d = ground (arith, here, at) in
            subst (IsDomain k.ecs pds') same (grows w good)
        | inr other ↦
            let at' : k.pds q ≡ some d = ground (arith, other, at) in grows d (domains q d at')
      ],
    )

pub put_pd-IsIntact :
    (k : Kernel) (p : Ptr) (w : Pd) → IsIntact k → IsDomain k.ecs k.pds w → IsIntact (put_pd k p w)
put_pd-IsIntact k p w h good =
    let (contexts, domains) = put_pd-IsWired k p w (h.contexts, h.domains) good in
    record { kernel = h.kernel; contexts = contexts; domains = domains; queued = h.queued }

-- An operation of the scheduler that chooses no context.
pub moves-IsIntact :
    (k : Kernel) (s : Scheduler)
    → IsIntact k
    → IsSound s
    → s.current_ec ≡ k.sched.current_ec
    → ((q : Ptr) → q ≢ null → held q (view s) ≡ held q (view k.sched))
    → IsIntact (record k { sched = s })
moves-IsIntact k s h sound same kept = record {
  kernel = (sound, same ∙ h.kernel.1, h.kernel.2, h.kernel.3);
  contexts = h.contexts;
  domains = h.domains;
  queued = λ q some_q there. h.queued q some_q (omega (arith, there, kept q some_q));
}

-- The context that runs is there.
pub current-Stored : (k : Kernel) → IsIntact k → Stored k.ecs k.current
current-Stored k h = h.queued k.current h.kernel.2 (held-running k.current k.sched h.kernel.1)
