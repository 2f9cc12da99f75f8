-- ===== src/Startup/Paging.antt =====
-- What the first page directory maps (kern/src/start.S), and what is left of it when `bootstrap`
-- (kern/src/init.cc) has emptied its lower part.
use mathlib.Core.Option
use nova_mckernel_lab.Base.{
  ℕ, zero, suc, ◌+◌, ◌-◌, ◌*◌, ◌/◌, ◌%◌, ◌^◌, ◌≤◌, ◌<◌, ◌≡◌, refl, sym, ap, ◌∙◌, inl, inr, ◌||◌,
  Bool, true, false, Bool-cases, Option, some, arith, ltb, ◌==◌, if◌then◌else◌,
}
use nova_mckernel_lab.Machine.{word_mod, add32}
use nova_mckernel_lab.Kalloc.{Memory, page_size}
use nova_mckernel_lab.Ptab.{link_addr, store_word}
use nova_mckernel_lab.Startup.{Linked, fill_directory, boot_directory}

-- The entries that the loop fills.
abbrev pub filled : ℕ → ℕ → ℕ → Bool
filled eax limit i = i == 0 || ltb (eax + i * 2 ^ 22) limit

fill-next :
    (n : ℕ) (m : Memory) (p eax limit : ℕ)
    → eax + 2 ^ 22 < word_mod
    → p + 4 < word_mod
    → ltb (eax + 2 ^ 22) limit ≡ true
    → fill_directory (suc n) m p eax limit
      ≡ fill_directory n (store_word m p eax) (p + 4) (eax + 2 ^ 22) limit
unfolding fill_directory
fill-next n m p eax limit room table more =
    let m' = store_word m p eax in
    let next : add32 eax 0x40_0000 ≡ eax + 2 ^ 22 = omega (arith, room) in
    let step : add32 p 4 ≡ p + 4 = omega (arith, table) in
    ap (λ (q : ℕ). if ltb q limit then fill_directory n m' (add32 p 4) q limit else some m') next
    ∙ ap (λ (b : Bool). if b then fill_directory n m' (add32 p 4) (eax + 2 ^ 22) limit else some m')
        more
    ∙ ap (λ (q : ℕ). fill_directory n m' q (eax + 2 ^ 22) limit) step

-- The loop ends, and fills its entries and no other.
pub fill_directory_lem :
    (n : ℕ) (m : Memory) (p eax limit : ℕ)
    → 0 < n
    → limit ≤ eax + n * 2 ^ 22
    → limit + 2 ^ 22 ≤ word_mod
    → eax + 2 ^ 22 < word_mod
    → p + 4 * n ≤ word_mod
    → (m' : Memory) × (fill_directory n m p eax limit ≡ some m')
      × ((i : ℕ)
          → i < n
          → m' (p + 4 * i) ≡ (if filled eax limit i then eax + i * 2 ^ 22 else m (p + 4 * i)))
      × ((a : ℕ) → a < p → m' a ≡ m a)
unfolding fill_directory
fill_directory_lem zero m p eax limit some_n fuel below room table = absurd (omega (arith, some_n))
fill_directory_lem (suc n) m p eax limit some_n fuel below room table =
    let next : add32 eax 0x40_0000 ≡ eax + 2 ^ 22 = omega (arith, room) in
    elim (Bool-cases (ltb (eax + 2 ^ 22) limit)) [
      | inr over ↦ (
        store_word m p eax,
        rw next (rw over refl),
        (λ i in_table. last i over),
        λ a low. ground (arith, low),
      )
      | inl more ↦
          let more' : eax + 2 ^ 22 < limit = ground (arith, more) in
          let (m', e, at, before) =
            fill_directory_lem n (store_word m p eax) (p + 4) (eax + 2 ^ 22) limit
              (omega (arith, fuel, more')) (omega (arith, fuel)) below (omega (arith, more', below))
              (omega (arith, table)) in
          (
            m',
            fill-next n m p eax limit room (omega (arith, table, fuel, more')) more ∙ e,
            entry more' m' at before,
            λ a low. before a (omega (arith, low)) ∙ ground (arith, low),
          )
    ]
  where
    last :
        (i : ℕ)
        → ltb (eax + 2 ^ 22) limit ≡ false
        → store_word m p eax (p + 4 * i)
          ≡ (if filled eax limit i then eax + i * 2 ^ 22 else m (p + 4 * i))
    last zero over = ground arith
    last (suc i) over = ground (arith, over)

    entry :
        eax + 2 ^ 22 < limit
        → (m' : Memory)
        → ((i : ℕ)
            → i < n
            → m' (p + 4 + 4 * i) ≡ (
                if filled (eax + 2 ^ 22) limit i
                then eax + 2 ^ 22 + i * 2 ^ 22
                else store_word m p eax (p + 4 + 4 * i)))
        → ((a : ℕ) → a < p + 4 → m' a ≡ store_word m p eax a)
        → (i : ℕ) → i < suc n
        → m' (p + 4 * i) ≡ (if filled eax limit i then eax + i * 2 ^ 22 else m (p + 4 * i))
    entry more m' at before zero in_table = ground (arith, before p (omega arith))
    entry more m' at before (suc i) in_table = ground (arith, more, at i (omega (arith, in_table)))

-- What the linker script sees to.
pub record IsLinked (s : Linked) : Type 0 where
  pub load_page : s.load_e % page_size ≡ 0
  pub loaded : 0 < s.load_e
  pub load_low : s.load_e < link_addr
  pub link_aligned : s.link_p % 2 ^ 22 ≡ 0
  pub end_aligned : s.link_e % 2 ^ 22 ≡ 0
  pub linked : s.link_p < s.link_e
  pub link_fits : s.link_e - s.link_p ≤ 2 ^ 30
  pub end_word : s.link_e + 2 ^ 22 ≤ word_mod
  pub table_word : s.kern_pdir + 2 * page_size ≤ word_mod

-- The entries of the directory.
abbrev pub entry_at : Linked → ℕ → ℕ
entry_at s i =
    if ltb i 768
    then (if filled 0xe3 s.load_e i then 0xe3 + i * 2 ^ 22 else 0)
    else (if filled (s.link_p + 0x1e3) s.link_e (i - 768)
        then s.link_p + 0x1e3 + (i - 768) * 2 ^ 22
        else 0)

pub link_room : (s : Linked) → IsLinked s → s.link_p + 2 ^ 22 ≤ s.link_e
link_room s h = omega (arith, h.linked, h.link_aligned, h.end_aligned)

-- The two loops, one after the other.
boot_directory-steps :
    (s : Linked) (m m1 m2 : Memory)
    → IsLinked s
    → fill_directory 1024 m s.kern_pdir 0xe3 s.load_e ≡ some m1
    → fill_directory 1024 m1 (s.kern_pdir + 3072) (s.link_p + 0x1e3) s.link_e ≡ some m2
    → boot_directory s m ≡ some m2
unfolding boot_directory Option.bind
boot_directory-steps s m m1 m2 h e1 e2 =
    let middle : add32 s.kern_pdir (link_addr / 2 ^ 20) ≡ s.kern_pdir + 3072 =
      omega (arith, h.table_word) in
    let start : add32 s.link_p 0x1e3 ≡ s.link_p + 0x1e3 =
      omega (arith, link_room s h, h.end_word) in
    ap
      (λ (o : Option Memory). Option.bind o λ m'.
        fill_directory 1024 m' (add32 s.kern_pdir (link_addr / 2 ^ 20)) (add32 s.link_p 0x1e3)
          s.link_e)
      e1
    ∙ ap (λ (q : ℕ). fill_directory 1024 m1 q (add32 s.link_p 0x1e3) s.link_e) middle
    ∙ ap (λ (q : ℕ). fill_directory 1024 m1 (s.kern_pdir + 3072) q s.link_e) start
    ∙ e2

high_clear : (load_e i : ℕ) → 768 ≤ i → load_e < link_addr → filled 0xe3 load_e i ≡ false
high_clear load_e i high low = ground (arith, high, low)

-- The entries, of a directory that was empty.
entries :
    (s : Linked) (m m1 m2 : Memory)
    → IsLinked s
    → ((i : ℕ) → i < 1024 → m (s.kern_pdir + 4 * i) ≡ 0)
    → ((i : ℕ)
        → i < 1024
        → m1 (s.kern_pdir + 4 * i)
          ≡ (if filled 0xe3 s.load_e i then 0xe3 + i * 2 ^ 22 else m (s.kern_pdir + 4 * i)))
    → ((i : ℕ)
        → i < 1024
        → m2 (s.kern_pdir + 3072 + 4 * i) ≡ (
            if filled (s.link_p + 0x1e3) s.link_e i
            then s.link_p + 0x1e3 + i * 2 ^ 22
            else m1 (s.kern_pdir + 3072 + 4 * i)))
    → ((a : ℕ) → a < s.kern_pdir + 3072 → m2 a ≡ m1 a)
    → (i : ℕ) → i < 1024
    → m2 (s.kern_pdir + 4 * i) ≡ entry_at s i
entries s m m1 m2 h empty at1 at2 before2 i in_table = elim (Bool-cases (ltb i 768)) [
  | inl low ↦
      let low' : i < 768 = ground (arith, low) in
      before2 (s.kern_pdir + 4 * i) (omega (arith, low'))
      ∙ at1 i in_table
      ∙ ap (λ (w : ℕ). if filled 0xe3 s.load_e i then 0xe3 + i * 2 ^ 22 else w) (empty i in_table)
      ∙ rw low refl
  | inr high ↦
      let high' : 768 ≤ i = ground (arith, high) in
      let split : s.kern_pdir + 4 * i ≡ s.kern_pdir + 3072 + 4 * (i - 768) = omega (arith, high') in
      let clear : m1 (s.kern_pdir + 3072 + 4 * (i - 768)) ≡ 0 =
        ap m1 (sym split)
        ∙ at1 i in_table
        ∙ rw (high_clear s.load_e i high' h.load_low) (empty i in_table) in
      ap m2 split
      ∙ at2 (i - 768) (omega (arith, in_table))
      ∙ ap
          (λ (w : ℕ).
            if filled (s.link_p + 0x1e3) s.link_e (i - 768)
            then s.link_p + 0x1e3 + (i - 768) * 2 ^ 22
            else w)
          clear
      ∙ rw high refl
]

-- The loops end, and leave these entries.
pub boot_directory_lem :
    (s : Linked) (m : Memory)
    → IsLinked s
    → ((i : ℕ) → i < 1024 → m (s.kern_pdir + 4 * i) ≡ 0)
    → (m' : Memory) × (boot_directory s m ≡ some m')
      × ((i : ℕ) → i < 1024 → m' (s.kern_pdir + 4 * i) ≡ entry_at s i)
boot_directory_lem s m h empty =
    let p = s.kern_pdir in
    let (m1, e1, at1, before1) =
      fill_directory_lem 1024 m p 0xe3 s.load_e (omega arith) (omega (arith, h.load_low))
        (omega (arith, h.load_low)) (omega arith) (omega (arith, h.table_word)) in
    let (m2, e2, at2, before2) =
      fill_directory_lem 1024 m1 (p + 3072) (s.link_p + 0x1e3) s.link_e (omega arith)
        (omega (arith, h.end_word)) h.end_word (omega (arith, link_room s h, h.end_word))
        (omega (arith, h.table_word)) in
    (m2, boot_directory-steps s m m1 m2 h e1 e2, entries s m m1 m2 h empty at1 at2 before2)
