-- ===== src/Crypto/RoundTrip.antt =====
-- Reading back a printed hash specification, and what `parse` returns.
use kuli.Common.{
  ℕ, Bool, true, false, not, [], ◌∷◌, ◌++◌, some, reverse, ◌&&◌, ◌≡◌, ◌≢◌, refl, arith, Bytes,
  codes, same, is_empty, lower, lower_idem, tolower, isspace, isxdigit, cut, cut-append, has_byte,
  Option-cases, inl, inr,
}
use mathlib.Core.List.{reverse-reverse, reverse-append}
use kuli.Crypto.{
  Algorithm, HashSpec, algo_name, parse_algo, skip_spaces, trim_spaces, all_hex, hash_spec,
  parse_trimmed, parse, to_string,
}

-- The hex digits of a specification that `parse` can return: not empty, hexadecimal, lower case.
pub record IsNormal (spec : HashSpec) : Type 0 where
  pub hex_ne_nil : spec.hex ≢ []
  pub hex_digits : all_hex spec.hex ≡ true
  pub hex_lower : lower spec.hex ≡ spec.hex

clean : Bytes → Bool
clean [] = true
clean (c ∷ s) = not (isspace c) && clean s

skip_spaces-clean : (s : Bytes) → clean s ≡ true → skip_spaces s ≡ s
unfolding skip_spaces clean
skip_spaces-clean [] h = refl
skip_spaces-clean (c ∷ s) h = ground arith

clean-append : (a b : Bytes) → clean a ≡ true → clean b ≡ true → clean (a ++ b) ≡ true
unfolding clean
clean-append [] b h k = k
clean-append (c ∷ a) b h k = ground (arith, clean-append a b)

clean-reverse : (s : Bytes) → clean s ≡ true → clean (reverse s) ≡ true
unfolding clean
clean-reverse [] h = refl
clean-reverse (c ∷ s) h =
    rw (reverse-append (c ∷ []) s)
      (clean-append (reverse s) (c ∷ []) (clean-reverse s (ground arith)) (ground arith))

trim_spaces-clean : (s : Bytes) → clean s ≡ true → trim_spaces s ≡ s
unfolding trim_spaces
trim_spaces-clean s h =
    rw (skip_spaces-clean s h)
      (rw (skip_spaces-clean (reverse s) (clean-reverse s h)) (reverse-reverse s))

isxdigit-not-isspace : (c : ℕ) → isxdigit c ≡ true → isspace c ≡ false
unfolding isxdigit isspace
isxdigit-not-isspace c h = ground arith

all_hex-clean : (s : Bytes) → all_hex s ≡ true → clean s ≡ true
unfolding all_hex clean
all_hex-clean [] h = refl
all_hex-clean (c ∷ s) h = ground (arith, isxdigit-not-isspace c, all_hex-clean s)

algo_name_facts :
    (a : Algorithm)
    → (clean (algo_name a) ≡ true)
      × (has_byte b':' (algo_name a) ≡ false)
      × (parse_algo (algo_name a) ≡ some a)
unfolding algo_name clean isspace has_byte codes parse_algo lower tolower same
algo_name_facts Algorithm.sha256 = (refl, refl, refl)
algo_name_facts Algorithm.sha512 = (refl, refl, refl)
algo_name_facts Algorithm.md5 = (refl, refl, refl)
algo_name_facts Algorithm.sha1 = (refl, refl, refl)

to_string-clean : (spec : HashSpec) → all_hex spec.hex ≡ true → clean (to_string spec) ≡ true
unfolding to_string clean isspace
to_string-clean spec h =
    clean-append (algo_name spec.algo) (b':' ∷ spec.hex) (algo_name_facts spec.algo).0
      (ground (arith, all_hex-clean spec.hex))

hash_spec-IsNormal_self :
    (spec : HashSpec) → IsNormal spec → hash_spec spec.algo spec.hex ≡ some spec
unfolding hash_spec
hash_spec-IsNormal_self spec n = ground arith

is_empty-append : (a : Bytes) (c : ℕ) (b : Bytes) → is_empty (a ++ c ∷ b) ≡ false
is_empty-append [] c b = refl
is_empty-append (x ∷ a) c b = refl

parse_trimmed-to_string :
    (spec : HashSpec) → IsNormal spec → parse_trimmed (to_string spec) ≡ some spec
unfolding parse_trimmed to_string
parse_trimmed-to_string spec n =
    let f = algo_name_facts spec.algo in
    rw (cut-append b':' (algo_name spec.algo) spec.hex f.1, parse_trimmed)
      (ground (arith, f.2, hash_spec-IsNormal_self spec n))

is_empty-to_string : (spec : HashSpec) → is_empty (to_string spec) ≡ false
unfolding to_string
is_empty-to_string spec = is_empty-append (algo_name spec.algo) b':' spec.hex

-- Printing a specification whose hex digits are lower case and not empty, and reading it back,
-- gives the same algorithm and the same digits.
pub parse-to_string : (spec : HashSpec) → IsNormal spec → parse (to_string spec) ≡ some spec
unfolding parse
parse-to_string spec n =
    rw (trim_spaces-clean (to_string spec) (to_string-clean spec n.hex_digits))
      (rw (is_empty-to_string spec) (parse_trimmed-to_string spec n))

all_hex-lower : (s : Bytes) → all_hex s ≡ true → all_hex (lower s) ≡ true
unfolding all_hex lower isxdigit tolower
all_hex-lower [] h = refl
all_hex-lower (c ∷ s) h = ground (arith, all_hex-lower s)

lower-ne-nil : (s : Bytes) → is_empty s ≡ false → lower s ≢ []
unfolding lower
lower-ne-nil [] h = absurd (cc h)
lower-ne-nil (c ∷ s) h = λ e. cc e

hash_spec-IsNormal :
    (a : Algorithm) (hex : Bytes) {spec : HashSpec} → hash_spec a hex ≡ some spec → IsNormal spec
unfolding hash_spec
hash_spec-IsNormal a hex h = ground (arith, lower-ne-nil hex, all_hex-lower hex, lower_idem hex)

parse_trimmed-IsNormal : (s : Bytes) {spec : HashSpec} → parse_trimmed s ≡ some spec → IsNormal spec
unfolding parse_trimmed
parse_trimmed-IsNormal s h = elim (Option-cases (cut b':' s)) [
  | inl e ↦ hash_spec-IsNormal Algorithm.sha256 s (rw (e, parse_trimmed) at h)
  | inr ((p, hex), e) ↦ elim (Option-cases (parse_algo p)) [
    | inl f ↦ absurd (ground arith)
    | inr (a, f) ↦ hash_spec-IsNormal a hex (ground arith)
  ]
]

parse-IsNormal : (raw : Bytes) {spec : HashSpec} → parse raw ≡ some spec → IsNormal spec
unfolding parse
parse-IsNormal raw {spec} h = ground (arith, parse_trimmed-IsNormal (trim_spaces raw) {spec = spec})

-- Whatever `parse` accepts, however it was spelled, is printed in one normal form that `parse`
-- reads as the same value.
pub parse-to_string-parse :
    (raw : Bytes) {spec : HashSpec}
    → parse raw ≡ some spec
    → IsNormal spec × (parse (to_string spec) ≡ some spec)
parse-to_string-parse raw {spec} h = (n, parse-to_string spec n)
  where
    n : IsNormal spec
    n = parse-IsNormal raw h
