-- ===== src/Generation/History.antt =====
-- `commit` appends to the history and changes nothing that is in it.
use kuli.Common.{
  ℕ, suc, ◌≤◌, true, false, List, [], ◌∷◌, none, some, ◌==◌, ==_refl, ◌≡◌, ◌≢◌, refl, sym, inl, inr,
  Bytes, leb, leb→le, ==_iff, All, Bool-cases, arith,
}
use kuli.Graph.{DerivationGraph}
use kuli.Generation.Profile.{
  Profile, Manifest, insert, sort, ids_of, list, find_id, load, back_or_zero, commit,
}

abbrev Sorted : List ℕ → Type 0
Sorted [] = Unit
Sorted (x ∷ []) = Unit
Sorted (x ∷ y ∷ ys) = (x ≤ y) × Sorted (y ∷ ys)

insert-Sorted_cons : (x y : ℕ) (ys : List ℕ) → y ≤ x → Sorted (y ∷ ys) → Sorted (y ∷ insert x ys)
unfolding insert
insert-Sorted_cons x y [] l h = (l, tt)
insert-Sorted_cons x y (z ∷ zs) l h = elim (Bool-cases (leb x z)) [
  | inl f ↦ rw f (l, (leb→le x z f, h.1))
  | inr f ↦ rw f (h.0, insert-Sorted_cons x z zs (ground arith) h.1)
]

insert-Sorted : (x : ℕ) (xs : List ℕ) → Sorted xs → Sorted (insert x xs)
unfolding insert
insert-Sorted x [] h = tt
insert-Sorted x (y ∷ ys) h = elim (Bool-cases (leb x y)) [
  | inl e ↦ rw e (leb→le x y e, h)
  | inr e ↦ rw e (insert-Sorted_cons x y ys (ground arith) h)
]

head_le : (y : ℕ) (ys : List ℕ) → Sorted (y ∷ ys) → y ≤ back_or_zero (y ∷ ys)
unfolding back_or_zero
head_le y [] h = omega arith
head_le y (z ∷ zs) h =
    let a : y ≤ z = h.0 in let b : z ≤ back_or_zero (z ∷ zs) = head_le z zs h.1 in omega arith

-- The last number of the sorted list after an insertion.
abbrev Tops : ℕ → List ℕ → List ℕ → Type 0
Tops x old new = (x ≤ back_or_zero new) × (back_or_zero old ≤ back_or_zero new)

insert-Tops_cons :
    (x y : ℕ) (ys : List ℕ) → y ≤ x → Sorted (y ∷ ys) → Tops x (y ∷ ys) (y ∷ insert x ys)
unfolding insert back_or_zero
insert-Tops_cons x y [] l h = (omega arith, l)
insert-Tops_cons x y (z ∷ zs) l h = elim (Bool-cases (leb x z)) [
  | inl f ↦
      let a : x ≤ z = leb→le x z f in
      let b : z ≤ back_or_zero (z ∷ zs) = head_le z zs h.1 in rw f (omega arith, omega arith)
  | inr f ↦ rw f (insert-Tops_cons x z zs (ground arith) h.1)
]

insert-Tops : (x : ℕ) (xs : List ℕ) → Sorted xs → Tops x xs (insert x xs)
unfolding insert back_or_zero
insert-Tops x [] h = (omega arith, omega arith)
insert-Tops x (y ∷ ys) h = elim (Bool-cases (leb x y)) [
  | inl f ↦
      let a : x ≤ y = leb→le x y f in
      let b : y ≤ back_or_zero (y ∷ ys) = head_le y ys h in rw f (omega arith, omega arith)
  | inr f ↦ rw f (insert-Tops_cons x y ys (ground arith) h)
]

sort-Sorted : (xs : List ℕ) → Sorted (sort xs)
unfolding sort
sort-Sorted [] = tt
sort-Sorted (x ∷ xs) = insert-Sorted x (sort xs) (sort-Sorted xs)

All-le : (xs : List ℕ) (a b : ℕ) → a ≤ b → All (λ i. i ≤ a) xs → All (λ i. i ≤ b) xs
All-le [] a b l h = tt
All-le (x ∷ xs) a b l h = let k : x ≤ a = h.0 in (omega arith, All-le xs a b l h.1)

back_bounds : (xs : List ℕ) → All (λ i. i ≤ back_or_zero (sort xs)) xs
unfolding sort
back_bounds [] = tt
back_bounds (x ∷ xs) =
    let (a, b) = insert-Tops x (sort xs) (sort-Sorted xs) in (a, All-le xs _ _ b (back_bounds xs))

find_fresh :
    (ms : List (ℕ × Manifest)) (m : ℕ) → All (λ i. i ≤ m) (ids_of ms) → find_id ms (suc m) ≡ none
unfolding ids_of find_id
find_fresh [] m h = refl
find_fresh ((i, g) ∷ ms) m h =
    let l : i ≤ m = h.0 in let e : (i == suc m) ≡ false = ground arith in rw e (find_fresh ms m h.1)

-- A commit whose manifest can be written takes an id that no manifest has, stores the manifest that it
-- returns under it with the current generation as the parent, and leaves every other manifest and the
-- pointer to the current generation as they were.
pub commit_appends :
    (sha256 : Bytes → Bytes) (now : Bytes) (p : Profile) (g : DerivationGraph)
    → (load p (commit sha256 now true p g).1.id ≡ none)
      × (load (commit sha256 now true p g).0 (commit sha256 now true p g).1.id
          ≡ some (commit sha256 now true p g).1)
      × ((id : ℕ)
          → id ≢ (commit sha256 now true p g).1.id
          → load (commit sha256 now true p g).0 id ≡ load p id)
      × ((commit sha256 now true p g).1.parent ≡ p.current_id)
      × ((commit sha256 now true p g).0.current_id ≡ p.current_id)
unfolding commit load find_id list
commit_appends sha256 now p g = (
  find_fresh p.manifests (back_or_zero (list p)) (back_bounds (ids_of p.manifests)),
  rw (==_refl (suc (back_or_zero (list p)))) refl,
  (λ id n. rw (not_same id n) refl),
  refl,
  refl,
)
  where
    not_same :
        (id : ℕ) → id ≢ suc (back_or_zero (list p)) → (suc (back_or_zero (list p)) == id) ≡ false
    not_same id n = elim (Bool-cases (suc (back_or_zero (list p)) == id)) [
      | inl e ↦ absurd (n (sym ((==_iff _ id).0 e)))
      | inr e ↦ e
    ]
