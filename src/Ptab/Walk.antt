-- ===== src/Ptab/Walk.antt =====
-- What the processor finds in the tables that `Ptab::insert_mapping` (kern/src/ptab.cc) writes.
use nova_mckernel_lab.Base.{
  inl, inr, Bool-cases, ℕ, ◌+◌, ◌/◌, ◌%◌, ◌^◌, ◌≤◌, ◌<◌, ◌≡◌, ◌≢◌, refl, sym, ap, subst, ◌∙◌, ◌⊎◌,
  false, Option, none, some, arith, ltb, ◌==◌, if◌then◌else◌,
}
use nova_mckernel_lab.Machine.{word_mod, add32, ok}
use nova_mckernel_lab.Refines.{
  Returns, Returns-Promised, Promised, Ensures, Ensures-ok, Ensures-test, Ensures-bind,
}
use nova_mckernel_lab.Kalloc.{
  page_size, page_bytes, Memory, Kalloc, fill_0, alloc_page, phys2virt, virt2phys,
}
use nova_mckernel_lab.Ptab.{
  Platform, store_word, page_of, pde_address, pte_address, pde_value, pte_value, table_for,
  insert_mapping,
}

-- The processor's walk of the two levels, from the entry of the directory to the physical address, for a
-- directory without large pages; `none` where an entry is not present.
abbrev pub walk : Platform → Memory → ℕ → Option ℕ
walk pf m virt =
    if m (pde_address pf virt) % 2 == 0
    then none
    else (let pte =
          m (pte_address (phys2virt pf.offset (page_of (m (pde_address pf virt)))) virt) in
        if pte % 2 == 0 then none else some (page_of pte + virt % page_size))

-- A table for `virt` at `ptab` that the directory names.
abbrev Names : Platform → ℕ → ℕ × Kalloc × Memory → Type 0
Names pf virt r =
    (r.2 (pde_address pf virt) % 2 ≡ 1)
    × (phys2virt pf.offset (page_of (r.2 (pde_address pf virt))) ≡ r.0)
    × (pde_address pf virt ≢ pte_address r.0 virt)
    × (r.2 (pde_address pf virt) / 2 ^ 7 % 2 ≡ 0)

fresh_entry :
    (offset page attr : ℕ)
    → page % page_size ≡ 0
    → page < word_mod
    → offset % page_size ≡ 0
    → offset < word_mod
    → (pde_value (virt2phys offset page) attr % 2 ≡ 1)
      × (phys2virt offset (page_of (pde_value (virt2phys offset page) attr)) ≡ page)
      × (pde_value (virt2phys offset page) attr / 2 ^ 7 % 2 ≡ 0)
fresh_entry offset page attr a b c d = omega arith

pub store_same : (m : Memory) (a w : ℕ) → store_word m a w a ≡ w
store_same m a w = ground arith

store_other : (m : Memory) (a b w : ℕ) → a ≢ b → store_word m b w a ≡ m a
store_other m a b w other = let ne : (a == b) ≡ false = ground (arith, other) in rw ne refl

walk_of :
    (pf : Platform) (m : Memory) (virt pde pte : ℕ)
    → m (pde_address pf virt) ≡ pde
    → pde % 2 ≡ 1
    → m (pte_address (phys2virt pf.offset (page_of pde)) virt) ≡ pte
    → pte % 2 ≡ 1
    → walk pf m virt ≡ some (page_of pte + virt % page_size)
walk_of pf m virt pde pte at_pde odd_pde at_pte odd_pte = rw (at_pde, odd_pde, at_pte, odd_pte) refl

-- A table in the pool does not cover an address outside it.
table_apart :
    (a page end virt : ℕ)
    → (a < page) ⊎ (end ≤ a)
    → page + page_size ≤ end
    → end < word_mod
    → a ≢ pte_address page virt
table_apart a page end virt out fits small = λ e. ground (arith, e)

-- The pool is page-aligned and ends below the last page, the directory lies outside it and has no large
-- page at `virt`, and a table that it names for `virt` does not cover its own entry.
pub record IsLaidOut (pf : Platform) (k : Kalloc) (m : Memory) (virt : ℕ) : Type 0 where
  pub aligned : k.begin % page_size ≡ 0
  pub ordered : k.begin ≤ k.end
  pub below : k.end + page_size < word_mod
  pub offset_aligned : pf.offset % page_size ≡ 0
  pub offset_word : pf.offset < word_mod
  pub outside : (pde_address pf virt < k.begin) ⊎ (k.end ≤ pde_address pf virt)
  pub apart :
      pde_address pf virt
      ≢ pte_address (phys2virt pf.offset (page_of (m (pde_address pf virt)))) virt
  pub small : (m (pde_address pf virt) % 2 ≡ 0) ⊎ (m (pde_address pf virt) / 2 ^ 7 % 2 ≡ 0)

odd_of : (n : ℕ) → (n % 2 == 0) ≡ false → n % 2 ≡ 1
odd_of n e = ground arith

no_large_page : (n : ℕ) → n % 2 ≡ 1 → (n % 2 ≡ 0) ⊎ (n / 2 ^ 7 % 2 ≡ 0) → n / 2 ^ 7 % 2 ≡ 0
no_large_page n odd (inl even) = absurd (omega (arith, odd, even))
no_large_page n odd (inr small) = small

table_for-Names :
    (pf : Platform) (k : Kalloc) (m : Memory) (virt attr : ℕ)
    → IsLaidOut pf k m virt
    → Ensures (Names pf virt) (table_for pf k m virt attr)
unfolding table_for alloc_page
table_for-Names pf k m virt attr h =
    Ensures-test (m (pde_address pf virt) % 2 == 0)
      (λ absent.
        Ensures-bind (alloc_page k m 1 fill_0)
          (Ensures-test (ltb k.end (add32 k.begin (page_bytes 1))) (λ full. record { ensured = tt })
            λ room.
              Ensures-ok {P = λ r. (r.0 ≡ k.begin) × (k.begin + page_size ≤ k.end)}
                (refl, ground (arith, room, h.below, h.ordered)))
          λ r w.
            let at =
              store_same r.2 (pde_address pf virt) (pde_value (virt2phys pf.offset r.0) attr) in
            let (odd, back, no_large) =
              fresh_entry pf.offset r.0 attr (omega (arith, w.0, h.aligned))
                (omega (arith, w, h.below)) h.offset_aligned h.offset_word in
            Ensures-ok (
              ap (λ x. x % 2) at ∙ odd,
              ap (λ x. phys2virt pf.offset (page_of x)) at ∙ back,
              subst (λ page. pde_address pf virt ≢ pte_address page virt) (sym w.0)
                  (table_apart (pde_address pf virt) k.begin k.end virt h.outside w.1
                    (omega (arith, h.below))),
              ap (λ x. x / 2 ^ 7 % 2) at ∙ no_large,
            ))
      λ present. Ensures-ok (
        odd_of (m (pde_address pf virt)) present,
        refl,
        h.apart,
        no_large_page (m (pde_address pf virt)) (odd_of (m (pde_address pf virt)) present) h.small,
      )

insert_mapping-Promised :
    (pf : Platform) (k : Kalloc) (m : Memory) (virt phys attr : ℕ)
    → IsLaidOut pf k m virt
    → phys % page_size ≡ 0
    → attr % 2 ≡ 1
    → attr < page_size
    → Promised
        (λ r.
          (walk pf r.1 virt ≡ some (phys + virt % page_size))
          × (r.1 (pde_address pf virt) / 2 ^ 7 % 2 ≡ 0))
        (insert_mapping pf k m virt phys attr)
unfolding insert_mapping
insert_mapping-Promised pf k m virt phys attr h aligned odd small =
    let all : Ensures
        (λ (r : Kalloc × Memory).
          (walk pf r.1 virt ≡ some (phys + virt % page_size))
          × (r.1 (pde_address pf virt) / 2 ^ 7 % 2 ≡ 0))
        (insert_mapping pf k m virt phys attr) =
      Ensures-bind (table_for pf k m virt attr) (table_for-Names pf k m virt attr h) λ r w.
        let m' = store_word r.2 (pte_address r.0 virt) (pte_value phys attr) in
        let found =
          walk_of pf m' virt (r.2 (pde_address pf virt)) (pte_value phys attr)
            (store_other r.2 (pde_address pf virt) (pte_address r.0 virt) (pte_value phys attr) w.2)
            w.0
            (ap (λ p. m' (pte_address p virt)) w.1
              ∙ store_same r.2 (pte_address r.0 virt) (pte_value phys attr))
            (omega arith) in
        let kept =
          store_other r.2 (pde_address pf virt) (pte_address r.0 virt) (pte_value phys attr) w.2 in
        Ensures-ok (
          found ∙ ap (λ n. some (n + virt % page_size)) (omega arith),
          ap (λ x. x / 2 ^ 7 % 2) kept ∙ w.3,
        ) in
    all.ensured

insert_mapping-Returns :
    (pf : Platform) (k : Kalloc) (m : Memory) (virt phys attr : ℕ)
    → IsLaidOut pf k m virt
    → k.begin + page_size ≤ k.end
    → Returns (insert_mapping pf k m virt phys attr)
unfolding insert_mapping table_for alloc_page
insert_mapping-Returns pf k m virt phys attr h room =
    let fits : ltb k.end (add32 k.begin (page_bytes 1)) ≡ false = ground (arith, h.below, room) in
    elim (Bool-cases (m (pde_address pf virt) % 2 == 0)) [
      | inl absent ↦ rw (absent, fits) (_, refl)
      | inr present ↦ rw present (_, refl)
    ]

-- With the pool, the directory and the table laid out apart and a page left in the pool,
-- `insert_mapping` of an aligned page with the present bit in its attributes returns, and the
-- processor's walk of any address in the page ends in the physical page, at the same offset.
pub insert_mapping-walk :
    (pf : Platform) (k : Kalloc) (m : Memory) (virt phys attr : ℕ)
    → IsLaidOut pf k m virt
    → k.begin + page_size ≤ k.end
    → phys % page_size ≡ 0
    → attr % 2 ≡ 1
    → attr < page_size
    → (r : Kalloc × Memory) × (insert_mapping pf k m virt phys attr ≡ ok r)
      × (walk pf r.1 virt ≡ some (phys + virt % page_size))
      × (r.1 (pde_address pf virt) / 2 ^ 7 % 2 ≡ 0)
insert_mapping-walk pf k m virt phys attr h room aligned odd small =
    let (r, e, w) =
      Returns-Promised
        (λ r.
          (walk pf r.1 virt ≡ some (phys + virt % page_size))
          × (r.1 (pde_address pf virt) / 2 ^ 7 % 2 ≡ 0))
        (insert_mapping pf k m virt phys attr) (insert_mapping-Returns pf k m virt phys attr h room)
        (insert_mapping-Promised pf k m virt phys attr h aligned odd small) in
    (r, e, w.0, w.1)
