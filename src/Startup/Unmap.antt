-- ===== src/Startup/Unmap.antt =====
-- What the first page directory maps once `bootstrap` (kern/src/init.cc) has emptied its lower part and
-- flushed the translation buffer.
use nova_mckernel_lab.Base.{
  ◌≢◌, ℕ, zero, suc, ◌+◌, ◌-◌, ◌*◌, ◌/◌, ◌%◌, ◌^◌, ◌≤◌, ◌<◌, ◌≡◌, refl, sym, ap, ◌∙◌, ◌⊎◌, inl, inr,
  Bool, true, false, Bool-cases, Option, none, some, arith, leb, ltb, ◌==◌, if◌then◌else◌,
}
use nova_mckernel_lab.Machine.{word_mod}
use nova_mckernel_lab.Kalloc.{Memory, phys2virt}
use nova_mckernel_lab.Ptab.{link_addr, Platform, pde_address, store_word, word_at}
use nova_mckernel_lab.Kernel.{Kernel}
use nova_mckernel_lab.Boot.{unmap_low}
use nova_mckernel_lab.Processor.{Tlb, flush_all, globals}
use nova_mckernel_lab.Processor.Translation.{access, hit, missed, walk_any}
use nova_mckernel_lab.Startup.{Linked, unmap_low_on}
use nova_mckernel_lab.Startup.Paging.{IsLinked, entry_at, link_room}
use nova_mckernel_lab.Startup.Mapped.{
  kernel_map, start_map, walk_none, walk_start, start_map_high, in_kernel, ltb_lt, ltb_le,
}

unmap_low-platform : (n : ℕ) (k : Kernel) → (unmap_low n k).platform ≡ k.platform
unfolding unmap_low
unmap_low-platform zero k = refl
unmap_low-platform (suc n) k = unmap_low-platform n k

word_other : (p i j : ℕ) → i < 1024 → j < 1024 → (word_at p j == word_at p i) ≡ (j == i)
word_other p i j small small' = elim (Bool-cases (j == i)) [
  | inl same ↦ rw same (ground (arith, same))
  | inr other ↦ rw other (ground (arith, other, small, small'))
]

-- The entries of the directory after the loop.
unmap_low-entry :
    (n i : ℕ) (k : Kernel)
    → n ≤ 1024
    → i < 1024
    → let p = phys2virt k.platform.offset k.platform.cr3 in
      (unmap_low n k).memory (word_at p i) ≡ (if ltb i n then 0 else k.memory (word_at p i))
unfolding unmap_low
unmap_low-entry zero i k in_table small = ground arith
unmap_low-entry (suc n) i k in_table small =
    let p = phys2virt k.platform.offset k.platform.cr3 in
    let m = (unmap_low n k).memory in
    let rest = unmap_low-entry n i k (omega (arith, in_table)) small in
    ap (λ (pf : Platform). store_word m (word_at (phys2virt pf.offset pf.cr3) n) 0 (word_at p i))
      (unmap_low-platform n k)
    ∙ ap (λ (b : Bool). if b then 0 else m (word_at p i))
        (word_other p n i (omega (arith, in_table)) small)
    ∙ ap (λ (w : ℕ). if i == n then 0 else w) rest
    ∙ merge i n (k.memory (word_at p i))
  where
    merge :
        (i n w : ℕ)
        → (if i == n then 0 else (if ltb i n then 0 else w)) ≡ (if ltb i (suc n) then 0 else w)
    merge i n w = ground arith

-- The entries of the directory that `init` (kern/src/init.cc) fills: for the page of the kernel's stack,
-- and for the bitmap of I/O ports.
abbrev pub stack_entry : ℕ
stack_entry = 831

abbrev pub bitmap_entry : ℕ
bitmap_entry = 832

-- The directory that start.S left, but for those two entries.
pub record IsAfterInit (s : Linked) (k : Kernel) : Type 0 where
  pub entries :
      (i : ℕ)
      → i < 1024
      → i ≢ stack_entry
      → i ≢ bitmap_entry
      → k.memory (word_at (phys2virt k.platform.offset k.platform.cr3) i) ≡ entry_at s i

-- A translation buffer that was filled under that directory: but for the addresses of those entries,
-- large pages only, those of the kernel marked as global.
pub record IsFilledAtStart (s : Linked) (t : Tlb) : Type 0 where
  pub no_pages : (i : ℕ) → i / 1024 ≢ stack_entry → i / 1024 ≢ bitmap_entry → t.pages i ≡ none
  pub translations :
      (i : ℕ)
      → i ≢ stack_entry
      → i ≢ bitmap_entry
      → (t.large i ≡ none)
        ⊎ ((t.large i ≡ start_map s (i * 2 ^ 22)) × (t.global_large i ≡ leb 768 i))

kernel_map_low : (s : Linked) (virt : ℕ) → virt / 2 ^ 22 < 768 → kernel_map s virt ≡ none
kernel_map_low s virt low =
    let below : leb link_addr virt ≡ false = ground (arith, low) in rw below refl

-- The walk after the loop.
walk_after :
    (s : Linked) (pf : Platform) (m : Memory) (virt : ℕ)
    → IsLinked s
    → m (pde_address pf virt)
      ≡ (if ltb (virt / 2 ^ 22) (s.load_e / 2 ^ 22 + 1) then 0 else entry_at s (virt / 2 ^ 22))
    → walk_any pf m virt ≡ kernel_map s virt
walk_after s pf m virt h e = elim (Bool-cases (ltb (virt / 2 ^ 22) (s.load_e / 2 ^ 22 + 1))) [
  | inl gone ↦
      let low : virt / 2 ^ 22 < 768 = omega (arith, ltb_lt gone, h.load_low) in
      walk_none pf m virt (e ∙ rw gone refl) ∙ sym (kernel_map_low s virt low)
  | inr kept ↦
      let above : ltb (virt / 2 ^ 22 * 2 ^ 22) s.load_e ≡ false = ground (arith, ltb_le kept) in
      walk_start s pf m virt h (e ∙ rw kept refl) ∙ rw above refl
]

in_kernel_page :
    (s : Linked) (virt : ℕ)
    → IsLinked s
    → 768 ≤ virt / 2 ^ 22
    → in_kernel s (virt / 2 ^ 22 * 2 ^ 22) ≡ in_kernel s virt
in_kernel_page s virt h high =
    let above : leb link_addr virt ≡ true = ground (arith, high) in
    let above' : leb link_addr (virt / 2 ^ 22 * 2 ^ 22) ≡ true = ground (arith, high) in
    rw (above, above')
      (elim (Bool-cases (ltb (virt - link_addr) (s.link_e - s.link_p))) [
        | inl less ↦ rw less (lt_ltb (omega (arith, ltb_lt less)))
        | inr more ↦ rw more (
            le_ltb (omega (arith, ltb_le more, high, h.link_aligned, h.end_aligned, link_room s h)))
      ])
  where
    lt_ltb : {a b : ℕ} → a < b → ltb a b ≡ true
    lt_ltb less = ground (arith, less)

    le_ltb : {a b : ℕ} → b ≤ a → ltb a b ≡ false
    le_ltb more = ground (arith, more)

-- What a kept translation leads to.
kept_page :
    (s : Linked) (virt : ℕ) (walked : Option ℕ)
    → IsLinked s
    → 768 ≤ virt / 2 ^ 22
    → walked ≡ kernel_map s virt
    → hit (kernel_map s (virt / 2 ^ 22 * 2 ^ 22)) (virt % 2 ^ 22) walked ≡ kernel_map s virt
kept_page s virt walked h high e = elim (Bool-cases (in_kernel s virt)) [
  | inl inside ↦
      let page_inside = in_kernel_page s virt h high ∙ inside in
      rw inside (rw page_inside (ap (λ (p : ℕ). some p) (omega (arith, high))))
  | inr outside ↦ let page_outside = in_kernel_page s virt h high ∙ outside in rw page_outside e
]

-- An access after the flush.
access_after :
    (s : Linked) (tables : ℕ → Option ℕ) (t : Tlb) (virt : ℕ)
    → IsLinked s
    → IsFilledAtStart s t
    → virt / 2 ^ 22 ≢ stack_entry
    → virt / 2 ^ 22 ≢ bitmap_entry
    → tables virt ≡ kernel_map s virt
    → access tables (flush_all t) virt ≡ kernel_map s virt
unfolding flush_all
access_after s tables t virt h f no_stack no_bitmap walked =
    let i = virt / 2 ^ 22 in
    let no_page : globals t.global_page t.pages (virt / 2 ^ 12) ≡ none =
      dropped (t.global_page (virt / 2 ^ 12)) (
        f.no_pages (virt / 2 ^ 12) (λ e. no_stack (omega (arith, e)))
          (λ e. no_bitmap (omega (arith, e)))) in
    missed (virt % 2 ^ 12) (hit (globals t.global_large t.large i) (virt % 2 ^ 22) (tables virt))
      no_page
    ∙ elim (Bool-cases (ltb i 768)) [
      | inl low ↦
          missed (virt % 2 ^ 22) (tables virt)
            (low_page (ltb_lt low) (f.translations i no_stack no_bitmap))
          ∙ walked
      | inr high ↦ high_page (ltb_le high) (f.translations i no_stack no_bitmap)
    ]
  where
    dropped : (b : Bool) {o : Option ℕ} → o ≡ none → (if b then o else none) ≡ none
    dropped true e = e
    dropped false e = refl

    low_page :
        virt / 2 ^ 22 < 768
        → (t.large (virt / 2 ^ 22) ≡ none)
          ⊎ ((t.large (virt / 2 ^ 22) ≡ start_map s (virt / 2 ^ 22 * 2 ^ 22))
              × (t.global_large (virt / 2 ^ 22) ≡ leb 768 (virt / 2 ^ 22)))
        → globals t.global_large t.large (virt / 2 ^ 22) ≡ none
    low_page low (inl unknown) = dropped (t.global_large (virt / 2 ^ 22)) unknown
    low_page low (inr (known, mark)) =
        let local : t.global_large (virt / 2 ^ 22) ≡ false = mark ∙ ground (arith, low) in
        rw local refl

    high_page :
        768 ≤ virt / 2 ^ 22
        → (t.large (virt / 2 ^ 22) ≡ none)
          ⊎ ((t.large (virt / 2 ^ 22) ≡ start_map s (virt / 2 ^ 22 * 2 ^ 22))
              × (t.global_large (virt / 2 ^ 22) ≡ leb 768 (virt / 2 ^ 22)))
        → hit (globals t.global_large t.large (virt / 2 ^ 22)) (virt % 2 ^ 22) (tables virt)
          ≡ kernel_map s virt
    high_page high (inl unknown) =
        missed (virt % 2 ^ 22) (tables virt) (dropped (t.global_large (virt / 2 ^ 22)) unknown)
        ∙ walked
    high_page high (inr (known, mark)) =
        let kept : t.global_large (virt / 2 ^ 22) ≡ true = mark ∙ ground (arith, high) in
        let same : start_map s (virt / 2 ^ 22 * 2 ^ 22) ≡ kernel_map s (virt / 2 ^ 22 * 2 ^ 22) =
          start_map_high s (virt / 2 ^ 22 * 2 ^ 22) h (omega (arith, high)) in
        rw kept (
          ap (λ (o : Option ℕ). hit o (virt % 2 ^ 22) (tables virt)) (known ∙ same)
          ∙ kept_page s virt (tables virt) h high walked)

-- With what the linker script sees to, on the directory that start.S left, but for the two entries that
-- `init` fills: after the unmapping and the flush of `bootstrap`, and away from those two entries, an
-- address of the kernel's image reaches where the image was loaded, and no other address reaches
-- anything, whatever the translation buffer held of that directory.
pub unmap_low_on-access :
    (s : Linked) (k : Kernel) (t : Tlb) (virt : ℕ)
    → IsLinked s
    → IsAfterInit s k
    → IsFilledAtStart s t
    → virt < word_mod
    → virt / 2 ^ 22 ≢ stack_entry
    → virt / 2 ^ 22 ≢ bitmap_entry
    → let (k', t') = unmap_low_on s.load_e k t in
      access (walk_any k'.platform k'.memory) t' virt ≡ kernel_map s virt
unfolding unmap_low_on
unmap_low_on-access s k t virt h after f word no_stack no_bitmap =
    let n = s.load_e / 2 ^ 22 + 1 in
    let in_table : virt / 2 ^ 22 < 1024 = omega (arith, word) in
    let entry =
      unmap_low-entry n (virt / 2 ^ 22) k (omega (arith, h.load_low)) in_table
      ∙ ap (λ (w : ℕ). if ltb (virt / 2 ^ 22) n then 0 else w)
          (after.entries (virt / 2 ^ 22) in_table no_stack no_bitmap) in
    access_after s (walk_any (unmap_low n k).platform (unmap_low n k).memory) t virt h f no_stack
      no_bitmap
      (ap (λ (pf : Platform). walk_any pf (unmap_low n k).memory virt) (unmap_low-platform n k)
        ∙ walk_after s k.platform (unmap_low n k).memory virt h entry)
