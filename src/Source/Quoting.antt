-- ===== src/Source/Quoting.antt =====
-- Values of the registry survive being written and read.
use mathlib.Core.List.{reverse-append, reverse-reverse}
use kuli.Common.{
  ℕ, ◌+◌, ◌-◌, true, false, ◌||◌, [], ◌∷◌, ◌++◌, ◌==◌, leb, ◌≡◌, refl, sym, ap, ◌∙◌, inl, inr,
  Bytes, length, length-append, take-append, isspace, trim_with, drop_while, reverse, Bool-cases,
  arith, ==_refl,
}
use kuli.Source.{trim, unescape, front_is, back_is, value_of, escape, toml_quote}

unescape-plain : (c : ℕ) (t : Bytes) → (c == b'\\') ≡ false → unescape (c ∷ t) ≡ c ∷ unescape t
unfolding unescape
unescape-plain c [] h = refl
unescape-plain c (d ∷ t) h = rw h refl

unescape-escape : (s : Bytes) → unescape (escape s) ≡ s
unfolding unescape escape
unescape-escape [] = refl
unescape-escape (c ∷ s) = elim (Bool-cases (c == b'"' || c == b'\\')) [
  | inl e ↦ rw e (ap (λ t. c ∷ t) (unescape-escape s))
  | inr e ↦ rw e (unescape-plain c (escape s) (ground arith) ∙ ap (λ t. c ∷ t) (unescape-escape s))
]

back_is-append : (c : ℕ) (s : Bytes) → back_is c (s ++ c ∷ []) ≡ true
unfolding back_is
back_is-append c [] = ==_refl c
back_is-append c (x ∷ []) = ==_refl c
back_is-append c (x ∷ y ∷ s) = back_is-append c (y ∷ s)

length-quote : (s : Bytes) → length (toml_quote s) ≡ length (escape s) + 2
unfolding toml_quote
length-quote s =
    let e : length (escape s ++ b'"' ∷ []) ≡ length (escape s) + 1 =
      length-append (escape s) (b'"' ∷ []) in
    omega arith

value_of-toml_quote : (s : Bytes) → value_of (toml_quote s) ≡ s
unfolding value_of
value_of-toml_quote s =
    let n : length (toml_quote s) - 2 ≡ length (escape s) =
      let e : length (toml_quote s) ≡ _ = length-quote s in omega arith in
    let two : leb 2 (length (toml_quote s)) ≡ true =
      let e : length (toml_quote s) ≡ _ = length-quote s in ground arith in
    let front : front_is b'"' (toml_quote s) ≡ true = unfold front_is toml_quote in refl in
    let back : back_is b'"' (toml_quote s) ≡ true =
      unfold toml_quote in back_is-append b'"' (b'"' ∷ escape s) in
    rw (value_of, two, front, back, n)
      (unfold toml_quote in ap unescape (take-append (escape s) (b'"' ∷ [])) ∙ unescape-escape s)

trim-quote : (s : Bytes) → trim (b' ' ∷ toml_quote s) ≡ toml_quote s
unfolding trim_with drop_while isspace toml_quote
trim-quote s =
    ap (λ r. reverse (drop_while isspace r)) (reverse-append (b'"' ∷ escape s) (b'"' ∷ []))
    ∙ ap reverse (sym (reverse-append (b'"' ∷ escape s) (b'"' ∷ [])))
    ∙ reverse-reverse ((b'"' ∷ escape s) ++ b'"' ∷ [])

-- What `toml_quote` writes behind `key = ` is read back as the same text, whatever quotation marks,
-- backslashes and spaces it holds.
pub toml_quote-roundtrip : (s : Bytes) → value_of (trim (b' ' ∷ toml_quote s)) ≡ s
toml_quote-roundtrip s = ap value_of (trim-quote s) ∙ value_of-toml_quote s
