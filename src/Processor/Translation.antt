-- ===== src/Processor/Translation.antt =====
-- What addresses translate to while the translation buffer holds older translations (kern/src/ptab.cc,
-- kern/include/cpu.h).
use nova_mckernel_lab.Base.{
  ℕ, ◌+◌, ◌/◌, ◌%◌, ◌^◌, ◌≤◌, ◌<◌, ◌≡◌, refl, sym, ap, ◌∙◌, ◌↔◌, ◌⊎◌, inl, inr, Option, none, some,
  arith, true, false, Option-cases, ◌==◌, if◌then◌else◌,
}
use nova_mckernel_lab.Machine.{word_mod, ok}
use nova_mckernel_lab.Kalloc.{Kalloc, Memory, page_size}
use nova_mckernel_lab.Ptab.{Platform, insert_mapping, remap, remap_saddr, pde_address}
use nova_mckernel_lab.Ptab.Walk.{walk, IsLaidOut, insert_mapping-walk}
use nova_mckernel_lab.Ptab.Remap.{translate_large, remap-translate}
use nova_mckernel_lab.Processor.{Tlb, flush_page, remap_on, without}

abbrev pub hit : Option ℕ → ℕ → Option ℕ → Option ℕ
hit (some page) offset otherwise = some (page + offset)
hit none offset otherwise = otherwise

-- The processor asks the buffer first, and walks the tables if it holds nothing.
abbrev pub access : (ℕ → Option ℕ) → Tlb → ℕ → Option ℕ
access tables t virt =
    hit (t.pages (virt / 2 ^ 12)) (virt % 2 ^ 12)
      (hit (t.large (virt / 2 ^ 22)) (virt % 2 ^ 22) (tables virt))

-- The walk for a directory with large pages too.
abbrev pub walk_any : Platform → Memory → ℕ → Option ℕ
walk_any pf m virt =
    if m (pde_address pf virt) / 2 ^ 7 % 2 == 0
    then walk pf m virt
    else (if m (pde_address pf virt) % 2 == 0 then none else some (translate_large pf m virt))

-- With the pool, the directory and the table laid out apart, a page left in the pool, and no large page
-- at the address, neither in the directory nor in the translation buffer: after `insert_mapping`, which
-- flushes nothing, an access to the page reaches the new physical page exactly if the translation buffer
-- holds no translation of it or that very one.
pub insert_mapping-access :
    (pf : Platform) (k : Kalloc) (m : Memory) (t : Tlb) (virt phys attr : ℕ)
    → IsLaidOut pf k m virt
    → k.begin + page_size ≤ k.end
    → phys % page_size ≡ 0
    → attr % 2 ≡ 1
    → attr < page_size
    → t.large (virt / 2 ^ 22) ≡ none
    → (r : Kalloc × Memory) × (insert_mapping pf k m virt phys attr ≡ ok r)
      × ((access (walk_any pf r.1) t virt ≡ some (phys + virt % page_size))
          ↔ ((t.pages (virt / 2 ^ 12) ≡ none) ⊎ (t.pages (virt / 2 ^ 12) ≡ some phys)))
insert_mapping-access pf k m t virt phys attr h room aligned odd small no_large =
    let (r, e, small_walked, is_small) =
      insert_mapping-walk pf k m virt phys attr h room aligned odd small in
    let no_bit : (r.1 (pde_address pf virt) / 2 ^ 7 % 2 == 0) ≡ true = ground (arith, is_small) in
    let walked : walk_any pf r.1 virt ≡ some (phys + virt % page_size) = rw no_bit small_walked in
    elim (Option-cases (t.pages (virt / 2 ^ 12))) [
      | inl unknown ↦
          let reached : access (walk_any pf r.1) t virt ≡ some (phys + virt % page_size) =
            rw unknown (rw no_large walked) in
          (r, e, ((λ _. inl unknown), λ _. reached))
      | inr (page, known) ↦
          let seen : access (walk_any pf r.1) t virt ≡ some (page + virt % 2 ^ 12) =
            rw known refl in
          (
            r,
            e,
            (
              (λ reached.
                  inr (known ∙ ap (λ (p : ℕ). some p) (same_page page (sym seen ∙ reached)))),
              λ held. seen ∙ ap (λ (p : ℕ). some (p + virt % 2 ^ 12)) (known_page known held),
            ),
          )
    ]
  where
    same_page :
        (page : ℕ) → some (page + virt % 2 ^ 12) ≡ some (phys + virt % page_size) → page ≡ phys
    same_page page e = ground (arith, e)

    known_page :
        {page : ℕ} {o : Option ℕ} → o ≡ some page → (o ≡ none) ⊎ (o ≡ some phys) → page ≡ phys
    known_page known (inl unknown) = absurd (cc (known, unknown))
    known_page known (inr is_phys) = cc (known, is_phys)

remap_window :
    (pf : Platform) (m : Memory) (addr : ℕ) → (remap pf m addr).0 / 2 ^ 22 ≡ remap_saddr / 2 ^ 22
unfolding remap
remap_window pf m addr = omega arith

without-none : (f : ℕ → Option ℕ) (i j : ℕ) → f j ≡ none → without f i j ≡ none
without-none f i j h = ground (arith, h)

without_self : (f : ℕ → Option ℕ) (i j : ℕ) → j ≡ i → without f i j ≡ none
without_self f i j h = ground (arith, h)

pub missed :
    {o : Option ℕ} (offset : ℕ) (otherwise : Option ℕ)
    → o ≡ none
    → hit o offset otherwise ≡ otherwise
missed offset otherwise e = ap (λ (o : Option ℕ). hit o offset otherwise) e

some_injective : {a b : ℕ} → some a ≡ some b → a ≡ b
some_injective h = cc h

pub walk_large :
    (pf : Platform) (m : Memory) (virt : ℕ)
    → m (pde_address pf virt) % 2 ≡ 1
    → m (pde_address pf virt) / 2 ^ 7 % 2 ≡ 1
    → walk_any pf m virt ≡ some (translate_large pf m virt)
walk_large pf m virt present large =
    let is_present : (m (pde_address pf virt) % 2 == 0) ≡ false = ground (arith, present) in
    let is_large : (m (pde_address pf virt) / 2 ^ 7 % 2 == 0) ≡ false = ground (arith, large) in
    rw is_large (rw is_present refl)

-- If the translation buffer holds no small page at the address that `remap` returns, whatever large page
-- it holds there: an access to that address reaches the physical address exactly if bits 20 and 21 of
-- that are clear.
pub remap_on-access :
    (pf : Platform) (m : Memory) (t : Tlb) (addr : ℕ)
    → addr < word_mod
    → t.pages ((remap pf m addr).0 / 2 ^ 12) ≡ none
    → let (virt, m', t') = remap_on pf m t addr in
      (access (walk_any pf m') t' virt ≡ some addr) ↔ (addr / 2 ^ 20 % 4 ≡ 0)
unfolding remap_on flush_page
remap_on-access pf m t addr small no_page =
    let (present, large, (up, down)) = remap-translate pf m addr small in
    let virt = (remap pf m addr).0 in
    let m' = (remap pf m addr).1 in
    let flushed =
      without_self t.large (remap_saddr / 2 ^ 22) (virt / 2 ^ 22) (remap_window pf m addr) in
    let unknown = without-none t.pages (remap_saddr / 2 ^ 12) (virt / 2 ^ 12) no_page in
    let reached : access (walk_any pf m') (flush_page remap_saddr t) virt
        ≡ some (translate_large pf m' virt) =
      missed (virt % 2 ^ 12)
        (hit (without t.large (remap_saddr / 2 ^ 22) (virt / 2 ^ 22)) (virt % 2 ^ 22)
          (walk_any pf m' virt))
        unknown
      ∙ missed (virt % 2 ^ 22) (walk_any pf m' virt) flushed
      ∙ walk_large pf m' virt present large in
    (
      (λ e. up (some_injective (sym reached ∙ e))),
      λ clear. reached ∙ ap (λ (p : ℕ). some p) (down clear),
    )
