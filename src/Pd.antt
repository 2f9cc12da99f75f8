-- ===== src/Pd.antt =====
-- kern/include/pd.h and kern/src/pd.cc: protection domains. An `int` result is its 32-bit pattern,
-- so that -1 is `minus_one`.
pub mod Caps
pub mod Ancestry
use nova_mckernel_lab.Base.{
  ℕ, zero, suc, ◌+◌, ◌^◌, Bool, true, false, Option, none, some, List, leb, ◌==◌, if◌then◌else◌,
  get_or, set, replicate,
}
use nova_mckernel_lab.Machine.{minus_one, Outcome, ok, panic, fault, ◌>>=◌, deref}
use nova_mckernel_lab.Ec.{Ptr, null}

abbrev pub max_caps : ℕ
max_caps = 8

-- `class Pd`.
pub record Pd : Type 0 where
  pub caps : List Ptr
  pub parent : Ptr
  pub children : List Ptr

-- `Pd::Pd`.
unfoldable pub new_pd : Ptr → Pd
new_pd p = record { caps = replicate max_caps null; parent = p; children = replicate max_caps null }

-- The domains in memory, by address.
abbrev pub Pds : Type 0
Pds = Ptr → Option Pd

abbrev pub store_pd : Pds → Ptr → Pd → Pds
store_pd pds p d q = if p == q then some d else pds q

-- `Pd::set_cap`, with the domain as it leaves it.
unfoldable pub set_cap : Pd → ℕ → Ptr → ℕ × Pd
set_cap d slot ec =
    if leb max_caps slot
    then (minus_one, d)
    else (if get_or d.caps slot null == null
        then (slot, record d { caps = set d.caps slot ec })
        else (minus_one, d))

-- `Pd::get_cap`.
unfoldable pub get_cap : Pd → ℕ → Ptr
get_cap d slot = if leb max_caps slot then null else get_or d.caps slot null

-- The loop of `Pd::add_child`, `n` slots from `i` on left.
unfoldable pub add_child_from : ℕ → ℕ → Pd → Ptr → ℕ × Pd
add_child_from zero i d child = (minus_one, d)
add_child_from (suc n) i d child =
    let rest = add_child_from n (i + 1) d child in
    if get_or d.children i null == null
    then (i, record d { children = set d.children i child })
    else rest

-- `Pd::add_child`.
unfoldable pub add_child : Pd → Ptr → ℕ × Pd
unfolding add_child_from
add_child d child = add_child_from max_caps 0 d child

-- `capability < 0` of an `int`.
abbrev pub is_negative : ℕ → Bool
is_negative w = leb (2 ^ 31) w

-- The loop of `Pd::is_ancestor_of`, from `p` on; `none` if the fuel runs out.
unfoldable pub climb : ℕ → Pds → Ptr → Ptr → Option (Outcome Bool)
climb zero pds self p = none
climb (suc fuel) pds self p =
    if p == null
    then some (ok false)
    else (if p == self
        then some (ok true)
        else elim (pds p) [ none ↦ some fault | some d ↦ climb fuel pds self d.parent ])

-- `Pd::is_ancestor_of`, called on the domain at `self`.
unfoldable pub is_ancestor_of : ℕ → Pds → Ptr → Ptr → Option (Outcome Bool)
unfolding climb
is_ancestor_of fuel pds self other = elim (pds other) [
  | none ↦ some fault
  | some d ↦ climb fuel pds self d.parent
]
