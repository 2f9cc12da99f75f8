-- ===== src/Startup/Mapped.antt =====
-- How the processor translates by the first page directory (kern/src/start.S), and by what `bootstrap`
-- (kern/src/init.cc) leaves of it.
use mathlib.Core.Option
use nova_mckernel_lab.Base.{
  ℕ, ◌+◌, ◌-◌, ◌*◌, ◌/◌, ◌%◌, ◌^◌, ◌≤◌, ◌<◌, ◌≡◌, refl, sym, ap, ◌∙◌, inl, inr, ◌||◌, ◌&&◌, Bool,
  true, false, Bool-cases, Option, none, some, arith, leb, ltb, ◌==◌, if◌then◌else◌,
}
use nova_mckernel_lab.Machine.{word_mod, sub32}
use nova_mckernel_lab.Kalloc.{Memory, page_size}
use nova_mckernel_lab.Ptab.{link_addr, Platform, pde_address}
use nova_mckernel_lab.Processor.{Processor}
use nova_mckernel_lab.Processor.Translation.{walk_any, walk_large}
use nova_mckernel_lab.Startup.{Linked, paged, start_paging}
use nova_mckernel_lab.Startup.Paging.{filled, IsLinked, entry_at, boot_directory_lem, link_room}

-- Physical memory at the addresses of the kernel.
abbrev pub seen : ℕ → Memory → Memory
seen offset m a = m (sub32 a offset)

-- An address of the kernel's image.
abbrev pub in_kernel : Linked → ℕ → Bool
in_kernel s virt = leb link_addr virt && ltb (virt - link_addr) (s.link_e - s.link_p)

abbrev pub kernel_map : Linked → ℕ → Option ℕ
kernel_map s virt = if in_kernel s virt then some (virt - link_addr + s.link_p) else none

abbrev pub start_map : Linked → ℕ → Option ℕ
start_map s virt = if ltb (virt / 2 ^ 22 * 2 ^ 22) s.load_e then some virt else kernel_map s virt

pub walk_none :
    (pf : Platform) (m : Memory) (virt : ℕ)
    → m (pde_address pf virt) ≡ 0
    → walk_any pf m virt ≡ none
walk_none pf m virt e = rw e refl

walk_some :
    (pf : Platform) (m : Memory) (virt page attr phys : ℕ)
    → m (pde_address pf virt) ≡ page + attr
    → page % 2 ^ 22 ≡ 0
    → attr < 2 ^ 12
    → attr % 2 ≡ 1
    → attr / 2 ^ 7 % 2 ≡ 1
    → phys ≡ page + virt % 2 ^ 22
    → walk_any pf m virt ≡ some phys
walk_some pf m virt page attr phys e aligned small odd large is_phys =
    walk_large pf m virt (ap (λ (w : ℕ). w % 2) e ∙ omega (arith, aligned, small, odd))
      (ap (λ (w : ℕ). w / 2 ^ 7 % 2) e ∙ omega (arith, aligned, small, large))
    ∙ ap (λ (w : ℕ). some (w / 2 ^ 22 * 2 ^ 22 + virt % 2 ^ 22)) e
    ∙ ap (λ (p : ℕ). some p) (omega (arith, aligned, small, is_phys))

filled_low :
    (load_e virt : ℕ)
    → load_e % page_size ≡ 0
    → 0 < load_e
    → filled 0xe3 load_e (virt / 2 ^ 22) ≡ ltb (virt / 2 ^ 22 * 2 ^ 22) load_e
filled_low load_e virt paged loaded = elim (Bool-cases (ltb (virt / 2 ^ 22 * 2 ^ 22) load_e)) [
  | inl less ↦
      let less' : virt / 2 ^ 22 * 2 ^ 22 < load_e = ground (arith, less) in
      let room : 0xe3 + virt / 2 ^ 22 * 2 ^ 22 < load_e = omega (arith, less', paged) in
      rw less (ground (arith, room))
  | inr more ↦
      let more' : load_e ≤ virt / 2 ^ 22 * 2 ^ 22 = ground (arith, more) in
      let some_page : 0 < virt / 2 ^ 22 = omega (arith, more', loaded) in
      rw more (ground (arith, more', some_page))
]

filled_high :
    (s : Linked) (virt : ℕ)
    → IsLinked s
    → 768 ≤ virt / 2 ^ 22
    → filled (s.link_p + 0x1e3) s.link_e (virt / 2 ^ 22 - 768) ≡ in_kernel s virt
filled_high s virt h high =
    let above : leb link_addr virt ≡ true = ground (arith, high) in
    elim (Bool-cases (ltb (virt - link_addr) (s.link_e - s.link_p))) [
      | inl less ↦
          let less' : virt - link_addr < s.link_e - s.link_p = ground (arith, less) in
          let room : s.link_p + 0x1e3 + (virt / 2 ^ 22 - 768) * 2 ^ 22 < s.link_e =
            omega (arith, less', high, h.link_aligned, h.end_aligned, link_room s h) in
          rw (above, less) (either (virt / 2 ^ 22 - 768 == 0) room)
      | inr more ↦
          let more' : s.link_e - s.link_p ≤ virt - link_addr = ground (arith, more) in
          let some_page : 0 < virt / 2 ^ 22 - 768 = omega (arith, more', high, link_room s h) in
          let over : s.link_e ≤ s.link_p + 0x1e3 + (virt / 2 ^ 22 - 768) * 2 ^ 22 =
            omega (arith, more', high, h.link_aligned, h.end_aligned, link_room s h) in
          rw (above, more) (neither some_page over)
    ]
  where
    either : {a b : ℕ} (o : Bool) → a < b → (o || ltb a b) ≡ true
    either true less = refl
    either false less = ground (arith, less)

    neither : {n a b : ℕ} → 0 < n → b ≤ a → (n == 0 || ltb a b) ≡ false
    neither some_n over = ground (arith, some_n, over)

-- The walk, for any memory of the kernel that shows the entry.
walk_low :
    (s : Linked) (pf : Platform) (m : Memory) (virt : ℕ)
    → IsLinked s
    → virt / 2 ^ 22 < 768
    → m (pde_address pf virt) ≡ entry_at s (virt / 2 ^ 22)
    → walk_any pf m virt ≡ start_map s virt
walk_low s pf m virt h low e =
    let is_low : ltb (virt / 2 ^ 22) 768 ≡ true = ground (arith, low) in
    let outside : kernel_map s virt ≡ none = no_kernel low in
    let value : m (pde_address pf virt)
        ≡ (if ltb (virt / 2 ^ 22 * 2 ^ 22) s.load_e then 0xe3 + virt / 2 ^ 22 * 2 ^ 22 else 0) =
      e ∙ rw is_low (rw (filled_low s.load_e virt h.load_page h.loaded) refl) in
    elim (Bool-cases (ltb (virt / 2 ^ 22 * 2 ^ 22) s.load_e)) [
      | inl present ↦ rw present (
          walk_some pf m virt (virt / 2 ^ 22 * 2 ^ 22) 0xe3 virt (value ∙ rw present (omega arith))
            (omega arith) (omega arith) refl refl (omega arith))
      | inr absent ↦ rw absent (walk_none pf m virt (value ∙ rw absent refl) ∙ sym outside)
    ]
  where
    no_kernel : virt / 2 ^ 22 < 768 → kernel_map s virt ≡ none
    no_kernel low = let below : leb link_addr virt ≡ false = ground (arith, low) in rw below refl

pub walk_high :
    (s : Linked) (pf : Platform) (m : Memory) (virt : ℕ)
    → IsLinked s
    → 768 ≤ virt / 2 ^ 22
    → m (pde_address pf virt) ≡ entry_at s (virt / 2 ^ 22)
    → walk_any pf m virt ≡ kernel_map s virt
walk_high s pf m virt h high e =
    let is_high : ltb (virt / 2 ^ 22) 768 ≡ false = ground (arith, high) in
    let value : m (pde_address pf virt)
        ≡ (if in_kernel s virt then s.link_p + 0x1e3 + (virt / 2 ^ 22 - 768) * 2 ^ 22 else 0) =
      e ∙ rw is_high (rw (filled_high s virt h high) refl) in
    elim (Bool-cases (in_kernel s virt)) [
      | inl present ↦ rw present (
          walk_some pf m virt (s.link_p + (virt / 2 ^ 22 - 768) * 2 ^ 22) 0x1e3
            (virt - link_addr + s.link_p) (value ∙ rw present (omega arith))
            (omega (arith, h.link_aligned)) (omega arith) refl refl (omega (arith, high)))
      | inr absent ↦ rw absent (walk_none pf m virt (value ∙ rw absent refl))
    ]

pub start_map_high :
    (s : Linked) (virt : ℕ)
    → IsLinked s
    → 768 ≤ virt / 2 ^ 22
    → start_map s virt ≡ kernel_map s virt
start_map_high s virt h high =
    let above : ltb (virt / 2 ^ 22 * 2 ^ 22) s.load_e ≡ false = ground (arith, high, h.load_low) in
    rw above refl

pub ltb_lt : {a b : ℕ} → ltb a b ≡ true → a < b
ltb_lt less = ground (arith, less)

pub ltb_le : {a b : ℕ} → ltb a b ≡ false → b ≤ a
ltb_le more = ground (arith, more)

pub walk_start :
    (s : Linked) (pf : Platform) (m : Memory) (virt : ℕ)
    → IsLinked s
    → m (pde_address pf virt) ≡ entry_at s (virt / 2 ^ 22)
    → walk_any pf m virt ≡ start_map s virt
walk_start s pf m virt h e = elim (Bool-cases (ltb (virt / 2 ^ 22) 768)) [
  | inl low ↦ walk_low s pf m virt h (ltb_lt low) e
  | inr high ↦
      let high' : 768 ≤ virt / 2 ^ 22 = ltb_le high in
      walk_high s pf m virt h high' e ∙ sym (start_map_high s virt h high')
]

-- The entry that the kernel's view of memory shows.
pub seen_entry :
    (offset p virt : ℕ)
    → p + 2 * page_size ≤ word_mod
    → offset < word_mod
    → virt < word_mod
    → sub32 (pde_address (record { offset = offset; cr3 = p }) virt) offset
      ≡ p + 4 * (virt / 2 ^ 22)
seen_entry offset p virt table small word = omega (arith, table, small, word)

-- With what the linker script sees to, and a directory that is zero, start.S turns on paging with large
-- pages, by the directory at `KERN_PDIR`. Every address then translates to itself if its large page
-- begins below `LOAD_E`, the addresses of the kernel's image to where the image was loaded, and no other
-- address translates.
pub start_paging-walk :
    (s : Linked) (c : Processor) (m : Memory) (offset : ℕ)
    → IsLinked s
    → ((i : ℕ) → i < 1024 → m (s.kern_pdir + 4 * i) ≡ 0)
    → offset < word_mod
    → (r : Processor × Memory) × (start_paging s c m ≡ some r)
      × (r.0.cr0 / 2 ^ 31 % 2 ≡ 1)
      × (r.0.cr4 / 2 ^ 4 % 2 ≡ 1)
      × ((virt : ℕ)
          → virt < word_mod
          → walk_any (record { offset = offset; cr3 = r.0.cr3 }) (seen offset r.1) virt
            ≡ start_map s virt)
unfolding start_paging
start_paging-walk s c m offset h empty small =
    let (m', e, at) = boot_directory_lem s m h empty in
    let pf : Platform = record { offset = offset; cr3 = s.kern_pdir } in
    let entry : (virt : ℕ)
        → virt < word_mod
        → seen offset m' (pde_address pf virt) ≡ entry_at s (virt / 2 ^ 22) =
      λ virt word.
        ap m' (seen_entry offset s.kern_pdir virt h.table_word small word)
        ∙ at (virt / 2 ^ 22) (omega (arith, word)) in
    (
      (paged s c, m'),
      ap (Option.map (λ (m' : Memory). (paged s c, m'))) e,
      refl,
      refl,
      λ virt word. walk_start s pf (seen offset m') virt h (entry virt word),
    )
