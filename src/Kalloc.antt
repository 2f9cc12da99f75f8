-- ===== src/Kalloc.antt =====
-- kern/include/kalloc.h and kern/src/kalloc.cc: the kernel's memory pool, from which objects are cut
-- at the top and pages at the bottom, and the words that `memset` (kern/include/string.h) writes.
-- Memory is read and written by aligned words of four bytes.
pub mod Pool
use nova_mckernel_lab.Base.{
  ℕ, ◌+◌, ◌*◌, ◌-◌, ◌%◌, ◌^◌, Bool, true, false, ◌&&◌, leb, ltb, if◌then◌else◌,
}
use nova_mckernel_lab.Machine.{word_mod, add32, sub32, Outcome, ok, panic, out_of_memory}

abbrev pub page_size : ℕ
page_size = 4096

-- The word at each address that is a multiple of 4.
abbrev pub Memory : Type 0
Memory = ℕ → ℕ

-- `memset`: the `n` bytes from `d` on are set to `c`, so each word of them to four copies of `c`.
abbrev pub memset : Memory → ℕ → ℕ → ℕ → Memory
memset m d c n a = if leb d a && ltb a (d + n) then c % 256 * 0x0101_0101 else m a

pub data Fill : Type 0 where
  nofill fill_0 fill_1 : Fill

pub record Kalloc : Type 0 where
  pub begin : ℕ
  pub end : ℕ

-- `Kalloc::alloc`, with the address of the object.
unfoldable pub alloc : Kalloc → ℕ → Outcome (ℕ × Kalloc)
alloc k size =
    if ltb (sub32 k.end size) k.begin
    then panic out_of_memory
    else ok (sub32 k.end size, record k { end = sub32 k.end size })

-- `if (fill) memset(…)`.
abbrev pub fill_pages : Fill → Memory → ℕ → ℕ → Memory
fill_pages nofill m p n = m
fill_pages fill_0 m p n = memset m p 0 n
fill_pages fill_1 m p n = memset m p 0xffff_ffff n

-- `size * PAGE_SIZE`.
abbrev pub page_bytes : ℕ → ℕ
page_bytes size = size * page_size % word_mod

-- `Kalloc::alloc_page`, with the address of the first page.
unfoldable pub alloc_page : Kalloc → Memory → ℕ → Fill → Outcome (ℕ × Kalloc × Memory)
alloc_page k m size fill =
    if ltb k.end (add32 k.begin (page_bytes size))
    then panic out_of_memory
    else ok (
      k.begin,
      record k { begin = add32 k.begin (page_bytes size) },
      fill_pages fill m k.begin (page_bytes size),
    )

-- `Kalloc::phys2virt` and `Kalloc::virt2phys`. `offset` is the address of the linker's `OFFSET`.
abbrev pub phys2virt : ℕ → ℕ → ℕ
phys2virt offset phys = add32 phys offset

abbrev pub virt2phys : ℕ → ℕ → ℕ
virt2phys offset virt = sub32 virt offset
