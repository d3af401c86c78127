-- ===== src/Adapter/Members.antt =====
-- Members of lists of hashes, and the count of the derivations that a set of hashes leaves.
use kuli.Common.{
  ℕ, ◌+◌, ◌<◌, ◌≤◌, true, false, List, [], ◌∷◌, ◌++◌, some, ◌≡◌, ◌↔◌, ◌⊎◌, inl, inr, refl, sym,
  arith, Bytes, any_same, same_iff, length, if◌then◌else◌, ||_iff,
}
use kuli.Graph.{Derivation, find_node}

infix 50 ◌∈◌
abbrev pub ◌∈◌ : Bytes → List Bytes → Type 0
x ∈ xs = any_same x xs ≡ true

pub mem-cons : (x y : Bytes) (xs : List Bytes) → (x ∈ y ∷ xs) ↔ ((y ≡ x) ⊎ (x ∈ xs))
unfolding any_same
mem-cons x y xs = (
  λ h. elim ((||_iff _ _).0 h) [ inl e ↦ inl ((same_iff y x).0 e) | inr m ↦ inr m ],
  λ c. (||_iff _ _).1 (elim c [ inl e ↦ inl ((same_iff y x).1 e) | inr m ↦ inr m ]),
)

pub not-mem-nil : (x : Bytes) → ¬ (x ∈ [])
unfolding any_same
not-mem-nil x h = cc h

pub mem-append : (x : Bytes) (xs ys : List Bytes) → (x ∈ xs ++ ys) ↔ ((x ∈ xs) ⊎ (x ∈ ys))
unfolding any_same
mem-append x [] ys = (inr, λ c. elim c [ inl n ↦ absurd (cc n) | inr m ↦ m ])
mem-append x (z ∷ xs) ys = ground (arith, mem-append x xs ys)

pub mem-self : (x : Bytes) (xs : List Bytes) → x ∈ x ∷ xs
mem-self x xs = (mem-cons x x xs).1 (inl refl)

-- Every hash stands in the list once.
abbrev pub Once : List Bytes → Type 0
Once [] = Unit
Once (x ∷ xs) = ¬ (x ∈ xs) × Once xs

pub Once-append : (xs : List Bytes) (x : Bytes) → Once xs → ¬ (x ∈ xs) → Once (xs ++ x ∷ [])
Once-append [] x u n = (not-mem-nil x, tt)
Once-append (y ∷ xs) x u n = (
  λ m. elim ((mem-append y xs (x ∷ [])).0 m) [
    | inl old ↦ u.0 old
    | inr new ↦ elim ((mem-cons y x []).0 new) [
      | inl e ↦ n ((mem-cons x y xs).1 (inl (sym e)))
      | inr nowhere ↦ not-mem-nil y nowhere
    ]
  ],
  Once-append xs x u.1 (λ m. n ((mem-cons x y xs).1 (inr m))),
)

-- How many derivations of the list are not seen yet.
pub unseen : List Derivation → List Bytes → ℕ
unseen [] seen = 0
unseen (d ∷ ds) seen = (if any_same d.hash seen then 0 else 1) + unseen ds seen

abbrev pub Grows : List Bytes → List Bytes → Type 0
Grows xs ys = (x : Bytes) → x ∈ xs → x ∈ ys

pub unseen-le :
    (ds : List Derivation) (xs ys : List Bytes) → Grows xs ys → unseen ds ys ≤ unseen ds xs
unfolding unseen
unseen-le [] xs ys g = omega arith
unseen-le (d ∷ ds) xs ys g = ground (arith, g d.hash, unseen-le ds xs ys g)

pub unseen_cons :
    (ds : List Derivation) (h : Bytes) (seen : List Bytes) (d : Derivation)
    → find_node ds h ≡ some d
    → any_same h seen ≡ false
    → unseen ds (h ∷ seen) < unseen ds seen
unfolding unseen find_node any_same
unseen_cons [] h seen d f n = absurd (cc f)
unseen_cons (e ∷ ds) h seen d f n = ground (
  arith,
  unseen_cons ds h seen d,
  unseen-le ds seen (h ∷ seen) (λ x m. (mem-cons x h seen).1 (inr m)),
  same_iff e.hash h,
  same_iff h e.hash,
)

pub unseen-le-length : (ds : List Derivation) (seen : List Bytes) → unseen ds seen ≤ length ds
unfolding unseen
unseen-le-length [] seen = omega arith
unseen-le-length (d ∷ ds) seen = ground (arith, unseen-le-length ds seen)
