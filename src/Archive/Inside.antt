-- ===== src/Archive/Inside.antt =====
-- What the lexical containment test of the store and of the archive module establishes, for any path.
use mathlib.Core.Bool.{xor}
use native.Mathlib.Omega.{arith}
use mathlib.Core.Path.{subst}
use mathlib.Core.List.{reverse-append}
use kuli.Common.{
  ℕ, suc, ◌-◌, true, false, List, [], ◌∷◌, ◌++◌, reverse, ◌≡◌, ◌≢◌, refl, sym, ap, ap₂, ◌∙◌, inl,
  inr, if◌then◌else◌, ltb, Bytes, same, same_iff, All, Bool-cases, false≢true, append-nil,
}
use kuli.Archive.Paths.{
  FilePath, dot, dot_dot, lexically_normal, lexically_relative, leads_out, NoUp, strip_common,
  relative_rest, or_dot, downs, ups, go_up, normal_onto, push_part, pop_part, same-eq-false, join,
}

-- Components that are names: neither `.` nor `..`.
abbrev pub Names : List Bytes → Type 0
Names = All (λ c. (c ≢ dot) × (c ≢ dot_dot))

strip_common-common :
    (xs ys : List Bytes)
    → (c : List Bytes) × (xs ≡ c ++ (strip_common xs ys).0) × (ys ≡ c ++ (strip_common xs ys).1)
unfolding strip_common
strip_common-common [] ys = ([], refl, refl)
strip_common-common (x ∷ xs) [] = ([], refl, refl)
strip_common-common (x ∷ xs) (y ∷ ys) = elim (Bool-cases (same x y)) [
  | inl e ↦
      let (c, p, q) = strip_common-common xs ys in
      rw e (x ∷ c, ap (λ r. x ∷ r) p, ap₂ (λ z r. z ∷ r) (sym ((same_iff x y).0 e)) q)
  | inr e ↦ rw e ([], refl, refl)
]

All-suffix : (c r : List Bytes) → Names (c ++ r) → Names r
All-suffix [] r h = h
All-suffix (x ∷ c) r h = All-suffix c r h.1

ups-Names : (cs : List Bytes) → Names cs → ups cs ≡ 0
unfolding ups
ups-Names [] h = refl
ups-Names (c ∷ cs) h =
    rw (same-eq-false c dot_dot h.0.1) (let e : ups cs ≡ 0 = ups-Names cs h.1 in omega arith)

go_up-leads_out :
    (n u k : ℕ) (rest : List Bytes)
    → n ≡ suc k
    → u ≡ 0
    → leads_out (if ltb n u then [] else or_dot false (go_up (n - u) rest)) ≡ true
unfolding leads_out go_up or_dot same
go_up-leads_out n u k rest e f =
    let a : ltb (suc k) 0 ≡ false = ground arith in
    let b : suc k - 0 ≡ suc k = omega arith in rw (e, f, a, b) refl

downs-Names : (y : Bytes) (ys : List Bytes) → Names (y ∷ ys) → downs (y ∷ ys) ≡ suc (downs ys)
unfolding downs
downs-Names y ys h = rw (same-eq-false y dot h.0.0, same-eq-false y dot_dot h.0.1) (omega arith)

-- Components of the base that are left over lead out.
left_over :
    (rest : List Bytes) (y : Bytes) (ys : List Bytes)
    → Names (y ∷ ys)
    → leads_out (relative_rest rest (y ∷ ys)) ≡ true
unfolding relative_rest
left_over [] y ys h = go_up-leads_out _ _ (downs ys) [] (downs-Names y ys h) (ups-Names (y ∷ ys) h)
left_over (x ∷ rest) y ys h =
    go_up-leads_out _ _ (downs ys) (x ∷ rest) (downs-Names y ys h) (ups-Names (y ∷ ys) h)

below_rest : (rest up : List Bytes) → Names up → leads_out (relative_rest rest up) ≡ false → up ≡ []
below_rest rest [] h e = refl
below_rest rest (y ∷ ys) h e = absurd (false≢true (sym e ∙ left_over rest y ys h))

inside-true :
    (t base : List Bytes)
    → Names base
    → leads_out (relative_rest (strip_common t base).0 (strip_common t base).1) ≡ false
    → (r : List Bytes) × (t ≡ base ++ r)
inside-true t base h e =
    let (c, p, q) = strip_common-common t base in
    let stop : (strip_common t base).1 ≡ [] = below_rest _ _ (All-suffix c _ (subst Names q h)) e in
    let whole : base ≡ c = q ∙ ap (λ u. c ++ u) stop ∙ append-nil c in
    ((strip_common t base).0, p ∙ ap (λ b. b ++ (strip_common t base).0) (sym whole))

-- On a rooted path and a rooted base that consists of names: what the test lets pass is the base with
-- further components.
pub inside :
    (t base : List Bytes)
    → Names base
    → leads_out (
        lexically_relative
          (record { rooted = true; parts = t })
          (record { rooted = true; parts = base }))
      ≡ false
    → (r : List Bytes) × (t ≡ base ++ r)
unfolding lexically_relative xor
inside t base h e = inside-true t base h e

NoUp-pop : (stack : List Bytes) → NoUp stack → NoUp (pop_part true stack)
unfolding pop_part
NoUp-pop [] h = tt
NoUp-pop (x ∷ xs) h = rw (same-eq-false x dot_dot h.0) h.1

NoUp-push : (stack : List Bytes) (c : Bytes) → NoUp stack → NoUp (push_part true stack c)
unfolding push_part
NoUp-push stack c h = elim (Bool-cases (same c dot)) [
  | inl e ↦ rw e h
  | inr e ↦ elim (Bool-cases (same c dot_dot)) [
    | inl u ↦ rw (e, u) (NoUp-pop stack h)
    | inr u ↦ rw (e, u) ((λ q. false≢true (sym u ∙ (same_iff c dot_dot).1 q)), h)
  ]
]

NoUp-normal : (stack cs : List Bytes) → NoUp stack → NoUp (normal_onto true stack cs)
unfolding normal_onto
NoUp-normal stack [] h = h
NoUp-normal stack (c ∷ cs) h = NoUp-normal (push_part true stack c) cs (NoUp-push stack c h)

NoUp-concat : (a b : List Bytes) → NoUp a → NoUp b → NoUp (a ++ b)
NoUp-concat [] b h g = g
NoUp-concat (x ∷ a) b h g = (h.0, NoUp-concat a b h.1 g)

NoUp-suffix : (a b : List Bytes) → NoUp (a ++ b) → NoUp b
NoUp-suffix [] b h = h
NoUp-suffix (x ∷ a) b h = NoUp-suffix a b h.1

NoUp-reverse : (a : List Bytes) → NoUp a → NoUp (reverse a)
NoUp-reverse [] h = tt
NoUp-reverse (x ∷ a) h =
    rw (reverse-append (x ∷ []) a) (NoUp-concat (reverse a) (x ∷ []) (NoUp-reverse a h.1) (h.0, tt))

normal-parts :
    (parts : List Bytes) → NoUp (lexically_normal (record { rooted = true; parts = parts })).parts
unfolding lexically_normal or_dot
normal-parts parts = NoUp-reverse (normal_onto true [] parts) (NoUp-normal [] parts tt)

-- A rooted path whose normal form passes the test against a rooted base that consists of names: the
-- normal form is the base with further components, and none of them is `..`.
pub leads_out_sound :
    (parts base : List Bytes)
    → Names base
    → leads_out (
        lexically_relative
          (lexically_normal (record { rooted = true; parts = parts }))
          (record { rooted = true; parts = base }))
      ≡ false
    → (r : List Bytes) × (lexically_normal (record { rooted = true; parts = parts })
        ≡ join (record { rooted = true; parts = base }) r)
      × NoUp r
unfolding lexically_normal
leads_out_sound parts base h e =
    let p : FilePath = lexically_normal (record { rooted = true; parts = parts }) in
    let (r, q) = inside p.parts base h e in
    (
      r,
      ap (λ ps. record { rooted = true; parts = ps }) q,
      NoUp-suffix base r (subst NoUp q (normal-parts parts)),
    )
