-- ===== src/Safe.antt =====
-- Kernel routines that do nothing that C++ leaves undefined.
use nova_mckernel_lab.Base.{
  ◌≡◌, refl, sym, subst, ◌∙◌, ◌≢◌, Bool, true, false, Option, none, some, if◌then◌else◌,
}
use nova_mckernel_lab.Machine.{Outcome, ok, panic, fault, ◌>>=◌, deref}
use nova_mckernel_lab.Refines.{Promised, Yields, ok-injective, Ensures}

-- The routine does not fault, and what it leaves if it returns is as promised.
abbrev pub Holds : {A : Type 0} → (A → Type 0) → Outcome A → Type 0
Holds Q (ok a) = Q a
Holds Q (panic p) = Unit
Holds Q fault = ⊥

-- The same in a form from which the arguments of a lemma are read off.
pub record Safe {A : Type 0} (P : A → Type 0) (r : Outcome A) : Type 0 where
  pub holds : Holds P r

pub Safe-ok : {A : Type 0} {P : A → Type 0} {a : A} → P a → Safe P (ok a)
Safe-ok p = record { holds = p }

pub Safe-if :
    {A : Type 0} {P : A → Type 0} (b : Bool) {x y : Outcome A}
    → (b ≡ true → Safe P x)
    → (b ≡ false → Safe P y)
    → Safe P (if b then x else y)
Safe-if true p q = p refl
Safe-if false p q = q refl

Holds-bind :
    {A C : Type 0} {P : A → Type 0} {Q : C → Type 0} (r : Outcome A) (k : A → Outcome C)
    → Holds P r
    → ((a : A) → P a → Safe Q (k a))
    → Holds Q (r >>= k)
Holds-bind (ok a) k p next = (next a p).holds
Holds-bind (panic x) k p next = tt
Holds-bind fault k p next = absurd p

pub Safe-bind :
    {A C : Type 0} {P : A → Type 0} {Q : C → Type 0} (r : Outcome A) {k : A → Outcome C}
    → Safe P r
    → ((a : A) → P a → Safe Q (k a))
    → Safe Q (r >>= k)
Safe-bind r {k} p next = record { holds = Holds-bind r k p.holds next }

pub Safe-lookup :
    {A C : Type 0} {Q : C → Type 0} {o : Option A} {k : A → Outcome C}
    → (a : A) × (o ≡ some a)
    → ((a : A) → o ≡ some a → Safe Q (k a))
    → Safe Q (deref o >>= k)
Safe-lookup {o = none} (a, e) next = absurd (cc e)
Safe-lookup {o = some b} h next = next b refl

Holds-known :
    {A : Type 0} {P : A → Type 0} (r : Outcome A)
    → r ≢ fault
    → ((a : A) → r ≡ ok a → P a)
    → Holds P r
Holds-known (ok a) sound next = next a refl
Holds-known (panic x) sound next = tt
Holds-known fault sound next = sound refl

pub Safe-known :
    {A : Type 0} {P : A → Type 0} {r : Outcome A}
    → r ≢ fault
    → ((a : A) → r ≡ ok a → P a)
    → Safe P r
Safe-known sound next = record { holds = Holds-known _ sound next }

pub Safe-sound : {A : Type 0} {P : A → Type 0} {r : Outcome A} → Safe P r → r ≢ fault
Safe-sound {r = ok a} h e = cc e
Safe-sound {r = panic x} h e = cc e
Safe-sound {r = fault} h e = h.holds

pub Safe-yields : {A : Type 0} {P : A → Type 0} {r : Outcome A} → Yields P r → Safe P r
Safe-yields {P} (a, e, p) =
    Safe-known (λ z. cc (e, z)) λ b e'. subst P (ok-injective (sym e ∙ e')) p

Holds-both :
    {A : Type 0} (P Q : A → Type 0) (r : Outcome A)
    → Holds P r
    → Promised Q r
    → Holds (λ a. P a × Q a) r
Holds-both P Q (ok a) p q = (p, q)
Holds-both P Q (panic x) p q = tt
Holds-both P Q fault p q = p

pub Safe-both :
    {A : Type 0} {P Q : A → Type 0} {r : Outcome A}
    → Safe P r
    → Ensures Q r
    → Safe (λ a. P a × Q a) r
Safe-both p q = record { holds = Holds-both _ _ _ p.holds q.ensured }

pub Safe-result :
    {A : Type 0} {P : A → Type 0} {r : Outcome A} → Safe P r → (a : A) → r ≡ ok a → P a
Safe-result {P} h a e = subst (Holds P) e h.holds

-- What follows a routine that is known not to fault.
pub Safe-then :
    {A C : Type 0} {P : A → Type 0} {Q : C → Type 0} (r : Outcome A) {k : A → Outcome C}
    → Safe P r
    → ((a : A) → r ≡ ok a → P a → Safe Q (k a))
    → Safe Q (r >>= k)
Safe-then {P} r h next =
    Safe-bind {P = λ a. (r ≡ ok a) × P a} r
      (Safe-known (Safe-sound h) λ a e. (e, Safe-result h a e)) λ a w. next a w.0 w.1

Holds-weaken :
    {A : Type 0} (P Q : A → Type 0) (r : Outcome A) → ((a : A) → P a → Q a) → Holds P r → Holds Q r
Holds-weaken P Q (ok a) next p = next a p
Holds-weaken P Q (panic x) next p = tt
Holds-weaken P Q fault next p = p

pub Safe-weaken :
    {A : Type 0} {P Q : A → Type 0} {r : Outcome A} → ((a : A) → P a → Q a) → Safe P r → Safe Q r
Safe-weaken next p = record { holds = Holds-weaken _ _ _ next p.holds }

Holds-Promised : {A : Type 0} (P : A → Type 0) (r : Outcome A) → Holds P r → Promised P r
Holds-Promised P (ok a) p = p
Holds-Promised P (panic x) p = tt
Holds-Promised P fault p = tt

pub Safe-Promised : {A : Type 0} {P : A → Type 0} {r : Outcome A} → Safe P r → Promised P r
Safe-Promised {P} {r} h = Holds-Promised P r h.holds
