-- ===== src/Refines.antt =====
-- When a kernel routine does what an abstract one says: both return, both panic with the same
-- message, or both are undefined, the results correspond, and what the routine leaves is as
-- promised.
use nova_mckernel_lab.Base.{
  Bool, true, false, if◌then◌else◌, ◌≡◌, refl, sym, ap, ◌∙◌, subst, Option, none, some,
}
use nova_mckernel_lab.Machine.{Panic, Outcome, ok, panic, fault, ◌>>=◌, deref}

pub data Refines {A B : Type 0} (f : A → B) (P : A → Type 0) : Outcome A → Outcome B → Type 0 where
  returns : {a : A} {b : B} → P a → f a ≡ b → Refines f P (ok a) (ok b)
  panics : {p : Panic} → Refines f P (panic p) (panic p)
  faults : Refines f P fault fault

-- What a routine that returned promises.
abbrev pub Promised {ℓ} : {A : Type ℓ} → (A → Type 0) → Outcome A → Type 0
Promised Q (ok a) = Q a
Promised Q (panic p) = Unit
Promised Q fault = Unit

pub ok-injective : {A : Type 0} {a b : A} → ok a ≡ ok b → a ≡ b
ok-injective h = cc

module _ {A B : Type 0} {f : A → B} {P : A → Type 0} where
  pub bind :
      {C D : Type 0} {g : C → D} {Q : C → Type 0} {r : Outcome A} {v : Outcome B}
      {k : A → Outcome C} {l : B → Outcome D}
      → Refines f P r v
      → ((a : A) (b : B) → P a → f a ≡ b → Refines g Q (k a) (l b))
      → Refines g Q (r >>= k) (v >>= l)
  bind (returns p e) next = next _ _ p e
  bind panics next = panics
  bind faults next = faults

  pub mono :
      {Q : A → Type 0} {r : Outcome A} {v : Outcome B}
      → Refines f P r v
      → ((a : A) → P a → Q a)
      → Refines f Q r v
  mono (returns p e) weaken = returns (weaken _ p) e
  mono panics weaken = panics
  mono faults weaken = faults

  pub promise : {r : Outcome A} {v : Outcome B} → Refines f P r v → Promised P r
  promise (returns p e) = p
  promise panics = tt
  promise faults = tt

-- What the abstract routine promises of its result holds of the view of the routine's.
pub transfer :
    {A B : Type 0} {f : A → B} {P : A → Type 0} (Q : B → Type 0) {r : Outcome A} {v : Outcome B}
    → Refines f P r v
    → Promised Q v
    → (a : A) → r ≡ ok a
    → Q (f a)
transfer {f} Q (returns {a = x} p e) q a h = subst Q (sym e ∙ ap f (ok-injective h)) q
transfer Q panics q a h = cc
transfer Q faults q a h = cc

pub bind-Promised :
    {A C : Type 0} (P : A → Type 0) (Q : C → Type 0) (r : Outcome A) (k : A → Outcome C)
    → Promised P r
    → ((a : A) → P a → Promised Q (k a))
    → Promised Q (r >>= k)
bind-Promised P Q (ok a) k p next = next a p
bind-Promised P Q (panic x) k p next = tt
bind-Promised P Q fault k p next = tt

pub promised_ok :
    {A : Type 0} (Q : A → Type 0) {r : Outcome A} → Promised Q r → (a : A) → r ≡ ok a → Q a
promised_ok Q p a e = subst (Promised Q) e p

-- The routine returns where the abstract one does.
pub returned :
    {A B : Type 0} {f : A → B} {P : A → Type 0} {r : Outcome A} {v : Outcome B}
    → Refines f P r v
    → (b : B) → v ≡ ok b
    → (a : A) × (r ≡ ok a) × P a × (f a ≡ b)
returned (returns {a} p e) b h = (a, refl, p, e ∙ ok-injective h)
returned panics b h = cc
returned faults b h = cc

-- Both promises at once, the abstract one read through the view.
pub promise_both :
    {A B : Type 0} {f : A → B} {P : A → Type 0} (Q : B → Type 0) {r : Outcome A} {v : Outcome B}
    → Refines f P r v
    → Promised Q v
    → Promised (λ a. P a × Q (f a)) r
promise_both Q (returns p e) q = (p, subst Q (sym e) q)
promise_both Q panics q = tt
promise_both Q faults q = tt

pub weaken :
    {A : Type 0} (r : Outcome A) (P Q : A → Type 0)
    → ((a : A) → P a → Q a)
    → Promised P r
    → Promised Q r
weaken (ok a) P Q next p = next a p
weaken (panic x) P Q next p = tt
weaken fault P Q next p = tt

pub bind_any :
    {A C : Type 0} (Q : C → Type 0) (r : Outcome A) (k : A → Outcome C)
    → ((a : A) → Promised Q (k a))
    → Promised Q (r >>= k)
bind_any Q (ok a) k next = next a
bind_any Q (panic x) k next = tt
bind_any Q fault k next = tt

pub Promised-lookup :
    {A C : Type 0} (Q : C → Type 0) (o : Option A) (k : A → Outcome C)
    → ((a : A) → o ≡ some a → Promised Q (k a))
    → Promised Q (deref o >>= k)
Promised-lookup Q none k next = tt
Promised-lookup Q (some a) k next = next a refl

-- A step that both take.
pub bind_same :
    {A C D : Type 0} {g : C → D} {Q : C → Type 0} (r : Outcome A) (k : A → Outcome C)
    (l : A → Outcome D)
    → ((a : A) → r ≡ ok a → Refines g Q (k a) (l a))
    → Refines g Q (r >>= k) (r >>= l)
bind_same (ok a) k l next = next a refl
bind_same (panic p) k l next = panics
bind_same fault k l next = faults

-- `Promised` in a form from which the arguments of a lemma are read off.
pub record Ensures {A : Type 0} (P : A → Type 0) (r : Outcome A) : Type 0 where
  pub ensured : Promised P r

pub Ensures-ok : {A : Type 0} {P : A → Type 0} {a : A} → P a → Ensures P (ok a)
Ensures-ok p = record { ensured = p }

pub Ensures-if :
    {A : Type 0} {P : A → Type 0} (b : Bool) {x y : Outcome A}
    → Ensures P x
    → Ensures P y
    → Ensures P (if b then x else y)
Ensures-if true p q = p
Ensures-if false p q = q

pub Ensures-any :
    {A C : Type 0} {Q : C → Type 0} (r : Outcome A) {k : A → Outcome C}
    → ((a : A) → Ensures Q (k a))
    → Ensures Q (r >>= k)
Ensures-any r next = record { ensured = bind_any _ r _ λ a. (next a).ensured }

pub Ensures-bind :
    {A C : Type 0} {P : A → Type 0} {Q : C → Type 0} (r : Outcome A) {k : A → Outcome C}
    → Ensures P r
    → ((a : A) → P a → Ensures Q (k a))
    → Ensures Q (r >>= k)
Ensures-bind r p next = record {
  ensured = bind-Promised _ _ r _ p.ensured λ a h. (next a h).ensured;
}

pub Ensures-fault : {A : Type 0} {P : A → Type 0} → Ensures P fault
Ensures-fault = record { ensured = tt }

pub Ensures-test :
    {A : Type 0} {P : A → Type 0} (b : Bool) {x y : Outcome A}
    → (b ≡ true → Ensures P x)
    → (b ≡ false → Ensures P y)
    → Ensures P (if b then x else y)
Ensures-test true p q = p refl
Ensures-test false p q = q refl

pub Ensures-lookup :
    {A C : Type 0} {Q : C → Type 0} (o : Option A) {k : A → Outcome C}
    → ((a : A) → o ≡ some a → Ensures Q (k a))
    → Ensures Q (deref o >>= k)
Ensures-lookup none next = record { ensured = tt }
Ensures-lookup (some a) next = next a refl

pub Ensures-weaken :
    {A : Type 0} {P Q : A → Type 0} {r : Outcome A}
    → ((a : A) → P a → Q a)
    → Ensures P r
    → Ensures Q r
Ensures-weaken next p = record { ensured = weaken _ _ _ next p.ensured }

-- The routine returns.
abbrev pub Returns : {A : Type 0} → Outcome A → Type 0
Returns {A} r = (a : A) × (r ≡ ok a)

pub Returns-test :
    {A : Type 0} (b : Bool) {x y : Outcome A}
    → Returns x
    → (b ≡ false → Returns y)
    → Returns (if b then x else y)
Returns-test true p q = p
Returns-test false p q = q refl

pub Returns-Promised :
    {A : Type 0} (P : A → Type 0) (r : Outcome A)
    → Returns r
    → Promised P r
    → (a : A) × (r ≡ ok a) × P a
Returns-Promised P r (a, e) p = (a, e, promised_ok P p a e)

-- The routine returns, and what it leaves is as promised.
abbrev pub Yields : {A : Type 0} → (A → Type 0) → Outcome A → Type 0
Yields {A} P r = (a : A) × (r ≡ ok a) × P a

pub Yields-bind :
    {A C : Type 0} {P : A → Type 0} {Q : C → Type 0} (r : Outcome A) (k : A → Outcome C)
    → Yields P r
    → ((a : A) → P a → Yields Q (k a))
    → Yields Q (r >>= k)
Yields-bind r k (a, e, p) next = let (c, e', q) = next a p in (c, ap (λ x. x >>= k) e ∙ e', q)

pub Yields-if :
    {A : Type 0} {P : A → Type 0} (b : Bool) {x y : Outcome A}
    → Yields P x
    → Yields P y
    → Yields P (if b then x else y)
Yields-if true p q = p
Yields-if false p q = q

pub Yields-lookup :
    {A C : Type 0} {Q : C → Type 0} (o : Option A) (k : A → Outcome C) (a : A)
    → o ≡ some a
    → Yields Q (k a)
    → Yields Q (deref o >>= k)
Yields-lookup o k a e (c, e', q) = (c, ap (λ x. deref x >>= k) e ∙ e', q)

-- What a routine does after a step that is known.
pub via :
    {A C : Type 0} (r : Outcome A) (k : A → Outcome C) {z : Outcome C} (a : A)
    → r ≡ ok a
    → k a ≡ z
    → (r >>= k) ≡ z
via r k a e e' = ap (λ x. x >>= k) e ∙ e'

pub skip :
    {A : Type 0} (b : Bool) (x y : Outcome A) {z : Outcome A}
    → b ≡ false
    → y ≡ z
    → (if b then x else y) ≡ z
skip b x y e e' = ap (λ c. if c then x else y) e ∙ e'
