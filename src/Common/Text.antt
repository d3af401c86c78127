-- ===== src/Common/Text.antt =====
-- Texts as lists of bytes, and the operations of the C++ standard library that the program uses.
use Prim.Native.Nat.{ℕ, suc, ◌+◌, ◌-◌}
use Prim.Native.Char.{code}
use Prim.Native.String.{String}
use mathlib.Core.Path.{◌≡◌, refl}
use mathlib.Core.Logic.{◌↔◌, inl, inr}
use mathlib.Core.Bool.{Bool, true, false, ◌&&◌, ◌||◌}
use mathlib.Core.List.{List, [], ◌∷◌, ◌++◌, map, reverse}
use mathlib.Core.Option.{Option, none, some}
use native.Mathlib.Omega.{arith}
use kuli.Common.Lists.{length, drop}
use kuli.Common.Tests.{leb, ◌==◌, if◌then◌else◌, Option-cases}

abbrev pub Bytes : Type 0
Bytes = List ℕ

-- The bytes of an ASCII literal.
unfoldable pub codes : String → Bytes
codes String.[] = []
codes (String.◌∷◌ c s) = code c ∷ codes s

-- `==` on two texts.
unfoldable pub same : Bytes → Bytes → Bool
same [] [] = true
same (x ∷ xs) (y ∷ ys) = x == y && same xs ys
same _ _ = false

pub same_iff : (a b : Bytes) → (same a b ≡ true) ↔ (a ≡ b)
unfolding same
same_iff (x ∷ a) (y ∷ b) = ground (arith, same_iff a b)
same_iff _ _ = ground arith

pub same_refl : (a : Bytes) → same a a ≡ true
same_refl a = (same_iff a a).1 refl

-- `s.empty()`.
abbrev pub is_empty : Bytes → Bool
is_empty [] = true
is_empty (c ∷ s) = false

-- `s.rfind(p, 0) == 0`.
unfoldable pub starts_with : Bytes → Bytes → Bool
starts_with [] s = true
starts_with (x ∷ p) [] = false
starts_with (x ∷ p) (y ∷ s) = x == y && starts_with p s

pub starts_with_iff : (p s : Bytes) → (starts_with p s ≡ true) ↔ ((r : Bytes) × (s ≡ p ++ r))
unfolding starts_with
starts_with_iff [] s = (λ _. (s, refl), λ _. refl)
starts_with_iff (x ∷ p) [] = (λ h. cc h, λ (r, h). cc h)
starts_with_iff (x ∷ p) (y ∷ s) = (
  λ h. let (r, e) = (starts_with_iff p s).0 (ground arith) in (r, ground arith),
  λ (r, e). ground (arith, (starts_with_iff p s).1 (r, ground arith)),
)

-- `std::tolower`, `std::isspace` and `std::isxdigit` in the C locale.
abbrev pub within : ℕ → ℕ → ℕ → Bool
within lo hi c = leb lo c && leb c hi

unfoldable pub tolower : ℕ → ℕ
tolower c = if within b'A' b'Z' c then c + 32 else c

unfoldable pub isspace : ℕ → Bool
isspace c = c == b' ' || within 9 13 c

unfoldable pub isdigit : ℕ → Bool
isdigit c = within b'0' b'9' c

unfoldable pub isxdigit : ℕ → Bool
isxdigit c = within b'0' b'9' c || within b'a' b'f' c || within b'A' b'F' c

unfoldable pub lower : Bytes → Bytes
lower s = map tolower s

pub tolower_idem : (c : ℕ) → tolower (tolower c) ≡ tolower c
unfolding tolower
tolower_idem c = ground arith

pub lower_idem : (s : Bytes) → lower (lower s) ≡ lower s
unfolding lower
lower_idem [] = refl
lower_idem (c ∷ s) = cc (tolower_idem c, lower_idem s)

-- `s.find(c)` with the two `substr` around it: the text before the first `c` and the text after.
unfoldable pub cut : ℕ → Bytes → Option (Bytes × Bytes)
cut c [] = none
cut c (x ∷ s) =
    let rest = cut c s in
    if x == c then some ([], s) else elim rest [ none ↦ none | some (a, b) ↦ some (x ∷ a, b) ]

-- `s.find(c) != npos`.
unfoldable pub has_byte : ℕ → Bytes → Bool
has_byte c [] = false
has_byte c (x ∷ s) = x == c || has_byte c s

pub cut-none : (c : ℕ) (s : Bytes) → has_byte c s ≡ false → cut c s ≡ none
unfolding cut has_byte
cut-none c [] h = refl
cut-none c (x ∷ s) h = ground (arith, cut-none c s)

-- The first cut is found where the text before it has no such byte.
pub cut-append : (c : ℕ) (a b : Bytes) → has_byte c a ≡ false → cut c (a ++ c ∷ b) ≡ some (a, b)
unfolding cut has_byte
cut-append c [] b h = ground arith
cut-append c (x ∷ a) b h = ground (arith, cut-append c a b)

pub cut-eq-some :
    (c : ℕ) (s : Bytes) {a b : Bytes}
    → cut c s ≡ some (a, b)
    → (s ≡ a ++ c ∷ b) × (has_byte c a ≡ false)
unfolding cut has_byte
cut-eq-some c [] h = cc h
cut-eq-some c (x ∷ s) h = elim (Option-cases (cut c s)) [
  | inl e ↦ ground arith
  | inr ((u, v), e) ↦ ground (arith, cut-eq-some c s e)
]

pub has_byte-append : (c : ℕ) (a b : Bytes) → has_byte c (a ++ b) ≡ (has_byte c a || has_byte c b)
unfolding has_byte
has_byte-append c [] b = refl
has_byte-append c (x ∷ a) b = ground (arith, has_byte-append c a b)

-- The pieces of a text between separators, an empty last one included.
abbrev pub extend_head : ℕ → List Bytes → List Bytes
extend_head x [] = (x ∷ []) ∷ []
extend_head x (p ∷ ps) = (x ∷ p) ∷ ps

unfoldable pub split : ℕ → Bytes → List Bytes
split c [] = [] ∷ []
split c (x ∷ s) = let rest = split c s in if x == c then [] ∷ rest else extend_head x rest

-- What repeated `std::getline(ss, seg, c)` yields: no empty piece behind a last separator.
unfoldable pub drop_empty_last : List Bytes → List Bytes
drop_empty_last [] = []
drop_empty_last (p ∷ []) = if is_empty p then [] else p ∷ []
drop_empty_last (p ∷ q ∷ ps) = p ∷ drop_empty_last (q ∷ ps)

unfoldable pub getlines : ℕ → Bytes → List Bytes
unfolding split drop_empty_last
getlines c s = drop_empty_last (split c s)

-- A member equal to `x`.
unfoldable pub any_same : Bytes → List Bytes → Bool
any_same x [] = false
any_same x (p ∷ ps) = same p x || any_same x ps

any_same-drop_empty_last :
    (x : ℕ) (xs : Bytes) (ps : List Bytes)
    → any_same (x ∷ xs) (drop_empty_last ps) ≡ any_same (x ∷ xs) ps
unfolding any_same drop_empty_last same
any_same-drop_empty_last x xs [] = refl
any_same-drop_empty_last x xs ([] ∷ []) = refl
any_same-drop_empty_last x xs ((c ∷ p) ∷ []) = refl
any_same-drop_empty_last x xs (p ∷ q ∷ ps) = rw (any_same-drop_empty_last x xs (q ∷ ps))

-- The piece that `getline` leaves away is empty, so no search for a piece with a byte misses it.
pub any_same-getlines :
    (x : ℕ) (xs : Bytes) (c : ℕ) (s : Bytes)
    → any_same (x ∷ xs) (getlines c s) ≡ any_same (x ∷ xs) (split c s)
unfolding getlines
any_same-getlines x xs c s = any_same-drop_empty_last x xs (split c s)

-- `fs::path` on POSIX, below a root: its components. Empty pieces between slashes are no components.
unfoldable pub nonempty : List Bytes → List Bytes
nonempty [] = []
nonempty (p ∷ ps) = if is_empty p then nonempty ps else p ∷ nonempty ps

unfoldable pub components : Bytes → List Bytes
unfolding nonempty split
components s = nonempty (split b'/' s)

-- `s.ends_with`, as `compare` at the end of the text.
unfoldable pub ends_with : Bytes → Bytes → Bool
ends_with s suf = leb (length suf) (length s) && same (drop (length s - length suf) s) suf

-- The text without the bytes at its start, and at both ends, for which the test holds.
unfoldable pub drop_while : (ℕ → Bool) → Bytes → Bytes
drop_while f [] = []
drop_while f (c ∷ s) = let rest = drop_while f s in if f c then rest else c ∷ s

unfoldable pub trim_with : (ℕ → Bool) → Bytes → Bytes
trim_with f s = reverse (drop_while f (reverse (drop_while f s)))

unfoldable pub count_byte : ℕ → Bytes → ℕ
count_byte c [] = 0
count_byte c (x ∷ s) = let rest = count_byte c s in if x == c then suc rest else rest
