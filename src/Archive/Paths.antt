-- ===== src/Archive/Paths.antt =====
-- Paths of `std::filesystem` on POSIX, as far as the program computes with them: a root or none, and
-- the components.
use mathlib.Core.Bool.{xor}
use mathlib.Core.List.{reverse-append, reverse-reverse}
use kuli.Common.{
  ℕ, zero, suc, ◌+◌, ◌-◌, Bool, true, false, ◌||◌, List, [], ◌∷◌, ◌++◌, ◌≡◌, ◌≢◌, refl, reverse,
  if◌then◌else◌, ltb, Bool-cases, inl, inr, sym, ◌∙◌, append_assoc, Bytes, same, same_iff,
  same_refl, All,
}

abbrev pub dot : Bytes
dot = b'.' ∷ []

abbrev pub dot_dot : Bytes
dot_dot = b'.' ∷ b'.' ∷ []

pub record FilePath : Type 0 where
  pub rooted : Bool
  pub parts : List Bytes

joined : List Bytes → Bytes
joined [] = []
joined (c ∷ []) = c
joined (c ∷ d ∷ cs) = c ++ b'/' ∷ joined (d ∷ cs)

-- `p.string()`.
unfoldable pub path_string : FilePath → Bytes
unfolding joined
path_string p = (if p.rooted then b'/' ∷ [] else []) ++ joined p.parts

-- `p / fs::path(rel)` where `rel` has no root.
abbrev pub join : FilePath → List Bytes → FilePath
join p parts = record p { parts = p.parts ++ parts }

-- One component on the components normalised so far, the last one first.
unfoldable pub pop_part : Bool → List Bytes → List Bytes
pop_part rooted [] = if rooted then [] else dot_dot ∷ []
pop_part rooted (x ∷ xs) = if same x dot_dot then dot_dot ∷ x ∷ xs else xs

unfoldable pub push_part : Bool → List Bytes → Bytes → List Bytes
push_part rooted stack c =
    if same c dot then stack else if same c dot_dot then pop_part rooted stack else c ∷ stack

unfoldable pub normal_onto : Bool → List Bytes → List Bytes → List Bytes
normal_onto rooted stack [] = stack
normal_onto rooted stack (c ∷ cs) = normal_onto rooted (push_part rooted stack c) cs

-- An empty relative path is written `.`.
unfoldable pub or_dot : Bool → List Bytes → List Bytes
or_dot false [] = dot ∷ []
or_dot _ parts = parts

unfoldable pub lexically_normal : FilePath → FilePath
unfolding pop_part push_part normal_onto or_dot
lexically_normal p = record p {
  parts = or_dot p.rooted (reverse (normal_onto p.rooted [] p.parts));
}

unfoldable pub strip_common : List Bytes → List Bytes → List Bytes × List Bytes
strip_common (x ∷ xs) (y ∷ ys) =
    let rest = strip_common xs ys in if same x y then rest else (x ∷ xs, y ∷ ys)
strip_common xs ys = (xs, ys)

-- The components that lead down, and those that lead up.
unfoldable pub downs : List Bytes → ℕ
downs [] = 0
downs (c ∷ cs) = (if same c dot || same c dot_dot then 0 else 1) + downs cs

unfoldable pub ups : List Bytes → ℕ
ups [] = 0
ups (c ∷ cs) = (if same c dot_dot then 1 else 0) + ups cs

unfoldable pub go_up : ℕ → List Bytes → List Bytes
go_up zero parts = parts
go_up (suc n) parts = dot_dot ∷ go_up n parts

unfoldable pub relative_rest : List Bytes → List Bytes → List Bytes
relative_rest [] [] = dot ∷ []
relative_rest rest base =
    if ltb (downs base) (ups base) then [] else or_dot false (go_up (downs base - ups base) rest)

unfoldable pub lexically_relative : FilePath → FilePath → List Bytes
unfolding or_dot strip_common downs ups go_up relative_rest
lexically_relative p base =
    if xor p.rooted base.rooted
    then []
    else (let (rest, up) = strip_common p.parts base.parts in relative_rest rest up)

-- `rc.empty() || *rc.begin() == ".."`.
unfoldable pub leads_out : List Bytes → Bool
leads_out [] = true
leads_out (c ∷ cs) = same c dot_dot

-- The components that are not `.`.
no_dots : List Bytes → List Bytes
no_dots [] = []
no_dots (c ∷ cs) = if same c dot then no_dots cs else c ∷ no_dots cs

abbrev pub NoUp : List Bytes → Type 0
NoUp = All (λ c. c ≢ dot_dot)

normal_onto-append :
    (rooted : Bool) (stack a b : List Bytes)
    → normal_onto rooted stack (a ++ b) ≡ normal_onto rooted (normal_onto rooted stack a) b
unfolding normal_onto
normal_onto-append rooted stack [] b = refl
normal_onto-append rooted stack (c ∷ a) b = normal_onto-append rooted (push_part rooted stack c) a b

pub same-eq-false : (a b : Bytes) → a ≢ b → same a b ≡ false
same-eq-false a b n = elim (Bool-cases (same a b)) [
  | inl e ↦ absurd (n ((same_iff a b).0 e))
  | inr e ↦ e
]

normal_onto-NoUp :
    (rooted : Bool) (stack r : List Bytes)
    → NoUp r
    → normal_onto rooted stack r ≡ reverse (no_dots r) ++ stack
unfolding normal_onto push_part no_dots
normal_onto-NoUp rooted stack [] h = refl
normal_onto-NoUp rooted stack (c ∷ r) h = elim (Bool-cases (same c dot)) [
  | inl e ↦ rw e (normal_onto-NoUp rooted stack r h.1)
  | inr e ↦ rw e (
      rw (same-eq-false c dot_dot h.0) (
        normal_onto-NoUp rooted (c ∷ stack) r h.1
        ∙ sym (append_assoc (reverse (no_dots r)) (c ∷ []) stack)
        ∙ rw (reverse-append (c ∷ []) (no_dots r))))
]

strip_common-append : (a r : List Bytes) → strip_common (a ++ r) a ≡ (r, [])
unfolding strip_common
strip_common-append [] [] = refl
strip_common-append [] (c ∷ r) = refl
strip_common-append (x ∷ a) r = rw (same_refl x) (strip_common-append a r)

no_dots_facts : (r : List Bytes) → NoUp r → NoUp (no_dots r) × All (λ c. c ≢ dot) (no_dots r)
unfolding no_dots
no_dots_facts [] h = (tt, tt)
no_dots_facts (c ∷ r) h = elim (Bool-cases (same c dot)) [
  | inl e ↦ rw e (no_dots_facts r h.1)
  | inr e ↦
      rw e (
        (h.0, (no_dots_facts r h.1).0),
        (λ f. cc (e, (same_iff c dot).1 f), (no_dots_facts r h.1).1),
      )
]

below_nil : (r : List Bytes) → NoUp r → leads_out (relative_rest r []) ≡ false
unfolding relative_rest leads_out or_dot downs ups go_up same
below_nil [] h = refl
below_nil (c ∷ r) h = unfold leads_out in same-eq-false c dot_dot h.0

below_dot :
    (c : Bytes) (r : List Bytes)
    → NoUp (c ∷ r)
    → leads_out (relative_rest (c ∷ r) (dot ∷ [])) ≡ false
unfolding relative_rest leads_out or_dot downs ups go_up same
below_dot c r h = unfold leads_out in same-eq-false c dot_dot h.0

leads_out-append :
    (rooted : Bool) (a r : List Bytes)
    → NoUp r
    → All (λ c. c ≢ dot) r
    → leads_out (
        lexically_relative
          (record { rooted = rooted; parts = or_dot rooted (a ++ r) })
          (record { rooted = rooted; parts = or_dot rooted a }))
      ≡ false
unfolding lexically_relative or_dot xor
leads_out-append true a r h n = rw (strip_common-append a r) (below_nil r h)
leads_out-append false [] [] h n = unfold strip_common same relative_rest leads_out in refl
leads_out-append false [] (c ∷ r) h n =
    unfold strip_common in rw (same-eq-false c dot n.0) (below_dot c r h)
leads_out-append false (x ∷ a) r h n = rw (strip_common-append (x ∷ a) r) (below_nil r h)

normal-join :
    (d : FilePath) (r : List Bytes)
    → NoUp r
    → lexically_normal (join d r) ≡ record {
      rooted = d.rooted;
      parts = or_dot d.rooted (reverse (normal_onto d.rooted [] d.parts) ++ no_dots r);
    }
unfolding lexically_normal
normal-join d r h = rw (
  normal_onto-append d.rooted [] d.parts r,
  normal_onto-NoUp d.rooted (normal_onto d.rooted [] d.parts) r h,
  reverse-append (reverse (no_dots r)) (normal_onto d.rooted [] d.parts),
  reverse-reverse (no_dots r),
)

-- The containment test of the program passes for every path without `..` components.
pub leads_out-join :
    (d : FilePath) (r : List Bytes)
    → NoUp r
    → leads_out (lexically_relative (lexically_normal (join d r)) (lexically_normal d)) ≡ false
leads_out-join d r h = rw (normal-join d r h) (
    unfold lexically_normal in
    leads_out-append d.rooted (reverse (normal_onto d.rooted [] d.parts)) (no_dots r)
      (no_dots_facts r h).0 (no_dots_facts r h).1)
