-- ===== src/Diag/Chain.antt =====
-- The inversion of chains of fallible calls.
use kuli.Common.{if◌then◌else◌, Bool, true, false, List, [], ◌∷◌, ◌≡◌, ◌↔◌, refl, arith, All}
use kuli.Diag.{Diagnostic, Expected, ok, err, ◌>>=◌, ◌>>◌, guard, for_each}

pub guard_iff : (b : Bool) (e : Diagnostic) → (guard b e ≡ ok tt) ↔ (b ≡ true)
guard_iff b e = ground arith

pub >>_iff : (m k : Expected (Unit {0})) → ((m >> k) ≡ ok tt) ↔ ((m ≡ ok tt) × (k ≡ ok tt))
>>_iff (ok u) k = (λ h. (refl, h), λ h. h.1)
>>_iff (err e) k = (λ h. absurd (cc h), λ h. absurd (cc h.0))

pub >>=-eq-ok {ℓ κ} :
    {T : Type ℓ} {U : Type κ} (r : Expected T) (next : T → Expected U) {u : U}
    → (r >>= next) ≡ ok u
    → (t : T) × (r ≡ ok t) × (next t ≡ ok u)
>>=-eq-ok (err d) next h = cc
>>=-eq-ok (ok t) next h = (t, refl, h)

pub for_each_iff {ℓ} :
    {A : Type ℓ} (f : A → Expected (Unit {0})) (xs : List A)
    → (for_each f xs ≡ ok tt) ↔ All (λ x. f x ≡ ok tt) xs
unfolding for_each
for_each_iff f [] = (λ _. tt, λ _. refl)
for_each_iff f (x ∷ xs) = (
  λ h. let p = (>>_iff (f x) (for_each f xs)).0 h in (p.0, (for_each_iff f xs).0 p.1),
  λ h. (>>_iff (f x) (for_each f xs)).1 (h.0, (for_each_iff f xs).1 h.1),
)

-- Two checks in a row, when what each accepts is known.
pub seq_iff {ℓ κ} :
    {P : Type ℓ} {Q : Type κ} {m k : Expected (Unit {0})}
    → (m ≡ ok tt) ↔ P
    → (k ≡ ok tt) ↔ Q
    → ((m >> k) ≡ ok tt) ↔ (P × Q)
seq_iff {m} {k} e f =
    (λ h. let (a, b) = (>>_iff m k).0 h in (e.0 a, f.0 b), λ h. (>>_iff m k).1 (e.1 h.0, f.1 h.1))

-- A check under a condition.
pub when_iff {ℓ} :
    {P : Type ℓ} {A : Type 0} (b : Bool) (m : Expected (Unit {0}))
    → (b ≡ true) ↔ A
    → (m ≡ ok tt) ↔ P
    → ((if b then m else ok tt) ≡ ok tt) ↔ (A → P)
when_iff true m e f = (λ h _. f.0 h, λ h. f.1 (h (e.0 refl)))
when_iff false m e f = (λ _ a. absurd (cc (e.1 a)), λ _. refl)
