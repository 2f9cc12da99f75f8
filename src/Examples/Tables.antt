-- ===== src/Examples/Tables.antt =====
-- The theorems on the pool and on the domains (kern/src/kalloc.cc, kern/src/pd.cc) at concrete ones.
use nova_mckernel_lab.Base.{◌≤◌, refl, List, [], ◌∷◌, arith}
use nova_mckernel_lab.Refines.{Promised}
use nova_mckernel_lab.Kalloc.{fill_0}
use nova_mckernel_lab.Kalloc.Pool.{
  Request, object, pages, requests, AllInside, AllApart, IsPool, requests-AllApart,
}
use nova_mckernel_lab.Pd.{is_ancestor_of}
use nova_mckernel_lab.Pd.Caps.{IsPd}
use nova_mckernel_lab.Pd.Ancestry.{Decides, root, above, is_ancestor_of-Decides}
use nova_mckernel_lab.Examples.{pool, parent_pd, child_pd, two_pds}

abbrev mixed : List Request
mixed = object 104 ∷ pages 2 fill_0 ∷ object 68 ∷ pages 1 fill_0 ∷ []

requests-AllApart_example :
    Promised
      (λ x.
        AllInside pool x.0
        × AllApart x.0
        × IsPool x.1
        × (pool.begin ≤ x.1.begin)
        × (x.1.end ≤ pool.end))
      (requests pool (λ a. 7) mixed)
requests-AllApart_example =
    requests-AllApart pool (λ a. 7) mixed (omega arith, omega arith)
      (omega arith, (omega arith, (omega arith, (omega arith, tt))))

pub parent-IsPd : IsPd parent_pd
parent-IsPd = record { caps_size = refl; children_size = refl }

pub child-IsPd : IsPd child_pd
child-IsPd = record { caps_size = refl; children_size = refl }

is_ancestor_of-Decides_example : Decides two_pds 5000 5000 (is_ancestor_of 2 two_pds 5000 6000)
is_ancestor_of-Decides_example =
    is_ancestor_of-Decides two_pds 5000 6000 child_pd 1 2 refl
      (above parent_pd (λ e. absurd (omega arith)) refl (root refl refl) refl) (omega arith)
