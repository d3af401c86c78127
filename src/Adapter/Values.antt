-- ===== src/Adapter/Values.antt =====
-- What the readers of libs/kuli-ir see in the values that the adapter builds.
use kuli.Common.{
  true, false, List, [], ◌∷◌, none, some, map, ◌≡◌, inl, inr, refl, ◌∙◌, arith, Bytes, All, Any,
  same, same_iff, Option-cases, Bool-cases, subst,
}
use kuli.Graph.{DerivationGraph, Derivation, find, find_node}
use kuli.Json.{JsonApi, JsonMake, find_key}
use kuli.Ir
use kuli.Adapter.{derivations_of}
use kuli.Adapter.Members.{◌∈◌, mem-cons, not-mem-nil}

pub All-of-map {ℓ κ} :
    {A : Type ℓ} {B : Type ℓ} (P : B → Type κ) (f : A → B) (xs : List A)
    → All (λ x. P (f x)) xs
    → All P (map f xs)
All-of-map P f [] h = tt
All-of-map P f (x ∷ xs) h = (h.0, All-of-map P f xs h.1)

pub Any-of-map :
    {A B : Type 0} (P : B → Type 0) (f : A → B) (xs : List A)
    → Any (λ x. P (f x)) xs
    → Any P (map f xs)
Any-of-map P f [] h = h
Any-of-map P f (x ∷ xs) (inl e) = inl e
Any-of-map P f (x ∷ xs) (inr m) = inr (Any-of-map P f xs m)

pub All-always {ℓ κ} : {A : Type ℓ} (P : A → Type κ) (xs : List A) → ((x : A) → P x) → All P xs
All-always P [] f = tt
All-always P (x ∷ xs) f = (f x, All-always P xs f)

pub All-of-mem : (P : Bytes → Type 0) (xs : List Bytes) → ((x : Bytes) → x ∈ xs → P x) → All P xs
All-of-mem P [] f = tt
All-of-mem P (x ∷ xs) f = (
  f x ((mem-cons x x xs).1 (inl refl)),
  All-of-mem P xs (λ y m. f y ((mem-cons y x xs).1 (inr m))),
)

find_node-hash :
    (ds : List Derivation) (h : Bytes) (d : Derivation) → find_node ds h ≡ some d → d.hash ≡ h
unfolding find_node
find_node-hash [] h d e = absurd (cc e)
find_node-hash (c ∷ ds) h d e = ground (arith, same_iff c.hash h, find_node-hash ds h d)

pub find-hash : (g : DerivationGraph) (h : Bytes) (d : Derivation) → find g h ≡ some d → d.hash ≡ h
unfolding find
find-hash g h d e = find_node-hash g.nodes h d e

find_node-All :
    (P : Derivation → Type 0) (ds : List Derivation) (h : Bytes) (d : Derivation)
    → All P ds
    → find_node ds h ≡ some d
    → P d
unfolding find_node
find_node-All P [] h d all e = absurd (cc e)
find_node-All P (c ∷ ds) h d all e = elim (Bool-cases (same c.hash h)) [
  | inl q ↦ let e' : c ≡ d = ground arith in subst P e' all.0
  | inr q ↦ find_node-All P ds h d all.1 (ground arith)
]

-- What holds of every derivation of the graph holds of the one that is found.
pub find-All :
    (P : Derivation → Type 0) (g : DerivationGraph) (h : Bytes) (d : Derivation)
    → All P g.nodes
    → find g h ≡ some d
    → P d
unfolding find
find-All P g h d all e = find_node-All P g.nodes h d all e

pub All-derivations_of :
    (P : Derivation → Type 0) (g : DerivationGraph) (order : List Bytes)
    → ((x : Bytes) (d : Derivation) → x ∈ order → find g x ≡ some d → P d)
    → All P (derivations_of g order)
unfolding derivations_of
All-derivations_of P g [] f = tt
All-derivations_of P g (x ∷ xs) f =
    let rest = All-derivations_of P g xs (λ y d m. f y d ((mem-cons y x xs).1 (inr m))) in
    elim (Option-cases (find g x)) [
      | inl e ↦ rw (e, derivations_of) rest
      | inr (d, e) ↦ rw (e, derivations_of) (f x d ((mem-cons x x xs).1 (inl refl)) e, rest)
    ]

pub Any-derivations_of :
    (g : DerivationGraph) (order : List Bytes) (x : Bytes) (d : Derivation)
    → x ∈ order
    → find g x ≡ some d
    → Any (λ e. e.hash ≡ x) (derivations_of g order)
unfolding derivations_of
Any-derivations_of g [] x d m e = absurd (not-mem-nil x m)
Any-derivations_of g (y ∷ ys) x d m e = elim ((mem-cons x y ys).0 m) [
  | inl q ↦ let e' : find g y ≡ some d = rw q e in rw (e', derivations_of) (inl (find-hash g x d e))
  | inr q ↦
      let rest = Any-derivations_of g ys x d q e in
      elim (Option-cases (find g y)) [
        | inl none_found ↦ rw (none_found, derivations_of) rest
        | inr (c, found) ↦ rw (found, derivations_of) (inr rest)
      ]
]

module _ {J : Type 0} {json : JsonApi J} (make : JsonMake json) where
  open json use {is_array, is_string, contains, at, get_string, elements}
  open make use {string, array, object}

  pub contains-object :
      (m : List (Bytes × J)) (k : Bytes) (v : J)
      → find_key m k ≡ some v
      → (contains (object m) k ≡ true) × (at (object m) k ≡ v)
  contains-object m k v e = (make.object_contains m k ∙ (rw e), make.object_at m k v e)

  pub lacks-object :
      (m : List (Bytes × J)) (k : Bytes) → find_key m k ≡ none → contains (object m) k ≡ false
  lacks-object m k e = make.object_contains m k ∙ (rw e)

  -- A text under a key, and an array.
  pub text-object :
      (m : List (Bytes × J)) (k s : Bytes)
      → find_key m k ≡ some (string s)
      → (Ir.is_str json (object m) k ≡ true) × (get_string (at (object m) k) ≡ s)
  unfolding Ir.is_str
  text-object m k s e =
      let (c, a) = contains-object m k (string s) e in
      (rw (c, a) (make.string_is_string s), rw a (make.string_text s))

  pub array-object :
      (m : List (Bytes × J)) (k : Bytes) (xs : List J)
      → find_key m k ≡ some (array xs)
      → (Ir.has_array json (object m) k ≡ true) × (elements (at (object m) k) ≡ xs)
  array-object m k xs e =
      let (c, a) = contains-object m k (array xs) e in
      (rw (c, a) (make.array_is_array xs), rw a (make.array_elements xs))
