-- ===== src/Serial/Output.antt =====
-- What goes out on the serial line (kern/src/console_serial.cc).
use mathlib.Core.Option
use mathlib.Core.List.{append-nil, append_assoc}
use nova_mckernel_lab.Base.{
  ℕ, zero, suc, ◌+◌, ◌-◌, ◌%◌, ◌^◌, ◌<◌, ◌≡◌, ◌≢◌, refl, sym, ap, ◌∙◌, subst, Bool, true, false,
  Bool-cases, Option, some, List, [], ◌∷◌, ◌++◌, map, inl, inr, arith, ◌==◌, if◌then◌else◌,
}
use nova_mckernel_lab.Console.{Arg, vprintf}
use nova_mckernel_lab.Serial.{
  Serial, Write, thr, out, is_busy, wait, put_byte, putc, puts, print_on,
}

-- However often its status was read, the device is ready within `fuel` further reads.
abbrev pub IsResponsive : ℕ → (ℕ → ℕ) → Type 0
IsResponsive fuel device = (n : ℕ) → (d : ℕ) × (d < fuel) × (is_busy (device (n + d)) ≡ false)

-- The text with a carriage return before each newline.
unfoldable pub crlf : List ℕ → List ℕ
crlf [] = []
crlf (c ∷ cs) = let rest = crlf cs in if c == 10 then 13 ∷ c ∷ rest else c ∷ rest

-- The bytes as they are written to the port.
abbrev pub sent : ℕ → List ℕ → List Write
sent base cs = map (λ c. (base, c % 2 ^ 8)) cs

-- The port has put out `cs` and nothing else.
abbrev pub Sends : Serial → List ℕ → Serial → Type 0
Sends s cs s' =
    (s'.writes ≡ s.writes ++ sent s.base cs) × (s'.base ≡ s.base) × (s'.initialized ≡ s.initialized)

not_now :
    (d n : ℕ) (device : ℕ → ℕ)
    → is_busy (device n) ≡ true
    → is_busy (device (n + d)) ≡ false
    → d ≢ 0
not_now d n device busy ready z =
    let same : n + d ≡ n = omega arith in cc (busy, sym (ap (λ i. is_busy (device i)) same) ∙ ready)

wait-ready :
    (d fuel : ℕ) (device : ℕ → ℕ) (s : Serial)
    → d < fuel
    → is_busy (device (s.reads + d)) ≡ false
    → (n : ℕ) × (wait fuel device s ≡ some (record s { reads = n }))
unfolding wait
wait-ready d zero device s h ready = absurd (omega arith)
wait-ready d (suc fuel) device s h ready = elim (Bool-cases (is_busy (device s.reads))) [
  | inr now ↦ (s.reads + 1, rw now refl)
  | inl busy ↦
      let some_d : d ≢ 0 = not_now d s.reads device busy ready in
      let next : (s.reads + 1) + (d - 1) ≡ s.reads + d = ground (arith, some_d) in
      let (n, e) =
        wait-ready (d - 1) fuel device (record s { reads = s.reads + 1 }) (ground (arith, some_d))
          (ap (λ i. is_busy (device i)) next ∙ ready) in
      (n, rw busy e)
]

put_byte-Sends :
    (fuel : ℕ) (device : ℕ → ℕ) (s : Serial) (c : ℕ)
    → IsResponsive fuel device
    → (s' : Serial) × (put_byte fuel device s c ≡ some s') × Sends s (c ∷ []) s'
unfolding put_byte
put_byte-Sends fuel device s c h =
    let (d, lt, ready) = h s.reads in
    let (n, e) = wait-ready d fuel device s lt ready in
    (
      out (record s { reads = n }) thr c,
      ap (Option.map (λ s'. out s' thr c)) e,
      (ap (λ p. s.writes ++ ((p, c % 2 ^ 8) ∷ [])) (omega arith), refl, refl),
    )

-- One text after the other.
Sends-append :
    (s s' s'' : Serial) (cs cs' : List ℕ)
    → Sends s cs s'
    → Sends s' cs' s''
    → Sends s (cs ++ cs') s''
Sends-append s s' s'' cs cs' h h' = (
  h'.0
      ∙ ap (λ b. s'.writes ++ sent b cs') h''
      ∙ ap (λ w. w ++ sent s.base cs') h.0
      ∙ append_assoc s.writes (sent s.base cs) (sent s.base cs')
      ∙ ap (λ w. s.writes ++ w) (sym (sent-append s.base cs cs')),
  h'.1 ∙ h.1,
  h'.2 ∙ h.2,
)
  where
    h'' : s'.base ≡ s.base
    h'' = h.1

    sent-append : (b : ℕ) (xs ys : List ℕ) → sent b (xs ++ ys) ≡ sent b xs ++ sent b ys
    sent-append b [] ys = refl
    sent-append b (x ∷ xs) ys = ap (◌∷◌ (b, x % 2 ^ 8)) (sent-append b xs ys)

-- What `putc` puts out for one byte.
abbrev line_byte : ℕ → List ℕ
line_byte c = if c == 10 then 13 ∷ c ∷ [] else c ∷ []

putc-Sends :
    (fuel : ℕ) (device : ℕ → ℕ) (s : Serial) (c : ℕ)
    → IsResponsive fuel device
    → (s' : Serial) × (putc fuel device s c ≡ some s') × Sends s (line_byte c) s'
unfolding putc
putc-Sends fuel device s c h = elim (Bool-cases (c == 10)) [
  | inl newline ↦
      let (s1, e1, w1) = put_byte-Sends fuel device s 13 h in
      let (s2, e2, w2) = put_byte-Sends fuel device s1 c h in
      rw newline (s2, rw e1 e2, Sends-append s s1 s2 (13 ∷ []) (c ∷ []) w1 w2)
  | inr other ↦ rw other (put_byte-Sends fuel device s c h)
]

crlf-line : (c : ℕ) (cs : List ℕ) → crlf (c ∷ cs) ≡ line_byte c ++ crlf cs
unfolding crlf
crlf-line c cs = elim (Bool-cases (c == 10)) [
  | inl newline ↦ rw newline refl
  | inr other ↦ rw other refl
]

puts-Sends :
    (fuel : ℕ) (device : ℕ → ℕ) (s : Serial) (cs : List ℕ)
    → IsResponsive fuel device
    → (s' : Serial) × (puts fuel device s cs ≡ some s') × Sends s (crlf cs) s'
unfolding puts crlf
puts-Sends fuel device s [] h = (s, refl, (sym (append-nil s.writes), refl, refl))
puts-Sends fuel device s (c ∷ cs) h =
    let (s1, e1, w1) = putc-Sends fuel device s c h in
    let (s2, e2, w2) = puts-Sends fuel device s1 cs h in
    (
      s2,
      rw (e1, puts) e2,
      subst (λ x. Sends s x s2) (sym (crlf-line c cs))
          (Sends-append s s1 s2 (line_byte c) (crlf cs) w1 w2),
    )

if-true : {A : Type 0} (b : Bool) (x y : A) → b ≡ true → (if b then x else y) ≡ x
if-true b x y e = rw e refl

if-false : {A : Type 0} (b : Bool) (x y : A) → b ≡ false → (if b then x else y) ≡ y
if-false b x y e = rw e refl

-- On a device whose line is always ready within `fuel` reads, a print whose arguments are all there
-- returns, and puts out the text of the format with a carriage return before each newline, to the data
-- port and nothing else; before `init` it puts out nothing.
pub print_on-Sends :
    (fuel : ℕ) (device : ℕ → ℕ) (s : Serial) (format : List ℕ) (args : List Arg) (text : List ℕ)
    → IsResponsive fuel device
    → vprintf format args ≡ some text
    → (s' : Serial) × (print_on fuel device s format args ≡ some s')
      × Sends s (if s.initialized then crlf text else []) s'
unfolding print_on Option.bind
print_on-Sends fuel device s format args text h e = elim (Bool-cases s.initialized) [
  | inl on ↦
      let (s', r, w) = puts-Sends fuel device s text h in
      (
        s',
        if-true s.initialized _ _ on
            ∙ ap (λ (o : Option (List ℕ)). Option.bind o (puts fuel device s)) e
            ∙ r,
        subst (λ b. Sends s (if b then crlf text else []) s') (sym on) w,
      )
  | inr off ↦ (
    s,
    if-false s.initialized _ _ off,
    subst (λ b. Sends s (if b then crlf text else []) s) (sym off)
        (sym (append-nil s.writes), refl, refl),
  )
]
