-- ===== src/Store/UrlExt.antt =====
-- The extension that `realize_fetch` gives a download, and what `archive::extract` makes of it.
use mathlib.Core.List.{reverse-append}
use kuli.Common.{
  ℕ, true, false, [], ◌∷◌, ◌++◌, none, some, ◌≡◌, refl, sym, ap, ◌∙◌, ◌==◌, inl, inr, Bytes, codes,
  cut, cut-none, has_byte, has_byte-append, reverse, map, ends_with, lower, tolower, isxdigit,
  Bool-cases, Option-cases, arith, take, drop, length, zero, suc, ◌-◌, same_iff, &&_iff, ◌≢◌,
  ==_refl, false≢true,
}
use kuli.Diag.{Diagnostic, Expected, ok, err}
use kuli.Crypto.{HashSpec}
use kuli.Archive.Format.{format_of, extract}
use kuli.Store.{
  url_ext, path_part, base_part, extension, after_last, Env, Disk, absent, check_cache, store_path,
  realize_fetch, realize_from_archive, realize_absent, fetch_then_realize, after_extract,
  verify_file, set_download,
}

abbrev pub tar_gz_name : Bytes
tar_gz_name = codes ".tar.gz"

last_dot : (x : Bytes) → after_last b'.' (x ++ tar_gz_name) ≡ some (codes "gz")
unfolding after_last codes cut
last_dot x = rw (after_last, reverse-append x tar_gz_name) refl

base_part-tar_gz : (s : Bytes) → (x : Bytes) × (base_part (s ++ tar_gz_name) ≡ x ++ tar_gz_name)
unfolding base_part after_last codes cut
base_part-tar_gz s = elim (Option-cases (cut b'/' (reverse s))) [
  | inl e ↦ (s, rw (base_part, after_last, reverse-append s tar_gz_name, e) refl)
  | inr ((a, b), e) ↦ (
    reverse a,
    rw (base_part, after_last, reverse-append s tar_gz_name, e)
        (reverse-append (reverse tar_gz_name) a),
  )
]

path_part-plain : (s : Bytes) → has_byte b'?' s ≡ false → path_part s ≡ s
unfolding path_part
path_part-plain s h = rw (path_part, cut-none b'?' s h) refl

-- A url without `?` that ends in `.tar.gz` gets the extension `.gz`.
pub url_ext-tar_gz :
    (s : Bytes) → has_byte b'?' s ≡ false → url_ext (s ++ tar_gz_name) ≡ codes ".gz"
unfolding url_ext extension codes has_byte
url_ext-tar_gz s h =
    let (x, e) = base_part-tar_gz s in
    ap (λ p. extension (base_part p))
      (path_part-plain (s ++ tar_gz_name) (has_byte-append b'?' s tar_gz_name ∙ rw h refl))
    ∙ ap extension e
    ∙ rw (extension, last_dot x) refl

map-append : (f : ℕ → ℕ) (a b : Bytes) → map f (a ++ b) ≡ map f a ++ map f b
map-append f [] b = refl
map-append f (x ∷ a) b = ap (λ r. f x ∷ r) (map-append f a b)

take-drop : (n : ℕ) (s : Bytes) → s ≡ take n s ++ drop n s
take-drop zero s = refl
take-drop (suc n) [] = refl
take-drop (suc n) (x ∷ s) = ap (λ r. x ∷ r) (take-drop n s)

ends_with-reverse :
    (s suf : Bytes) → ends_with s suf ≡ true → (r : Bytes) × (reverse s ≡ reverse suf ++ r)
unfolding ends_with
ends_with-reverse s suf e =
    let n : ℕ = length s - length suf in
    let tail : drop n s ≡ suf = (same_iff _ suf).0 ((&&_iff _ _).0 e).1 in
    (
      reverse (take n s),
      ap reverse (take-drop n s) ∙ reverse-append (take n s) (drop n s) ∙ rw tail refl,
    )

not_ends_with :
    (s suf : Bytes) → ((r : Bytes) → reverse s ≡ reverse suf ++ r → ⊥) → ends_with s suf ≡ false
not_ends_with s suf h = elim (Bool-cases (ends_with s suf)) [
  | inl e ↦ let (r, q) = ends_with-reverse s suf e in absurd (h r q)
  | inr e ↦ e
]

hex-tolower : (c : ℕ) → isxdigit c ≡ true → (tolower c == b'r') ≡ false
unfolding isxdigit tolower
hex-tolower c h = ground arith

byte_at : ℕ → Bytes → ℕ
byte_at k [] = 0
byte_at zero (c ∷ s) = c
byte_at (suc k) (c ∷ s) = byte_at k s

differs : (k : ℕ) (a b : Bytes) → (byte_at k a == byte_at k b) ≡ false → a ≢ b
differs k a b f e = false≢true (sym f ∙ rw e (==_refl _))

backwards :
    (h : Bytes) (c : ℕ)
    → reverse (lower ((h ++ c ∷ []) ++ codes ".gz"))
      ≡ b'z' ∷ b'g' ∷ b'.' ∷ tolower c ∷ reverse (map tolower h)
unfolding lower codes
backwards h c =
    ap reverse (
      map-append tolower (h ++ c ∷ []) (codes ".gz")
      ∙ ap (λ t. t ++ map tolower (codes ".gz")) (map-append tolower h (c ∷ [])))
    ∙ reverse-append (map tolower h ++ tolower c ∷ []) (map tolower (codes ".gz"))
    ∙ (unfold tolower in
        ap (λ t. b'z' ∷ b'g' ∷ b'.' ∷ t) (reverse-append (map tolower h) (tolower c ∷ [])))

no_suffix :
    (k : ℕ) (name back suf : Bytes)
    → reverse name ≡ back
    → ((r : Bytes) → (byte_at k back == byte_at k (reverse suf ++ r)) ≡ false)
    → ends_with name suf ≡ false
no_suffix k name back suf e h =
    not_ends_with name suf (λ r q. differs k back (reverse suf ++ r) (h r) (sym e ∙ q))

format_of-gz :
    (h : Bytes) (c : ℕ) → isxdigit c ≡ true → format_of ((h ++ c ∷ []) ++ codes ".gz") ≡ none
unfolding format_of codes byte_at
format_of-gz h c x =
    let name : Bytes = lower ((h ++ c ∷ []) ++ codes ".gz") in
    let e : reverse name ≡ _ = backwards h c in
    rw
      (
        format_of,
        no_suffix 0 name _ (codes ".zip") e (λ r. refl),
        no_suffix 3 name _ (codes ".tar.gz") e (λ r. hex-tolower c x),
        no_suffix 2 name _ (codes ".tgz") e (λ r. refl),
        no_suffix 0 name _ (codes ".tar.zst") e (λ r. refl),
        no_suffix 0 name _ (codes ".tzst") e (λ r. refl),
        no_suffix 0 name _ (codes ".tar") e (λ r. refl),
      )
      refl

by_verdict :
    (env : Env) (d : Disk) (name dir archive : Bytes) (expected : HashSpec) (bin : Bytes)
    → format_of archive ≡ none
    → (e : Diagnostic) × ((realize_absent env d name dir archive expected bin).1 ≡ some (err e))
unfolding realize_absent extract after_extract
by_verdict env d name dir archive expected bin f =
    elim (Bool-cases (verify_file env d archive expected)) [
      | inr v ↦ rw v (_, refl)
      | inl v ↦ rw (v, extract, f, after_extract) (_, refl)
    ]

from_archive :
    (env : Env) (d : Disk) (hash16 name archive : Bytes) (expected : HashSpec) (bin : Bytes)
    → check_cache d (store_path hash16 name) expected ≡ absent
    → format_of archive ≡ none
    → (e : Diagnostic) × ((realize_from_archive env d hash16 name archive expected bin).1
        ≡ some (err e))
unfolding realize_from_archive
from_archive env d hash16 name archive expected bin a f =
    rw (realize_from_archive, a)
      (by_verdict env d name (store_path hash16 name) archive expected bin f)

-- Where the store does not have the content yet, `realize_fetch` of an asset whose url has no `?` and
-- ends in `.tar.gz` fails, whatever the download gave, for every hash that ends in a hex digit.
pub realize_fetch-tar_gz :
    (env : Env) (d : Disk) (h : Bytes) (c : ℕ) (name s : Bytes) (expected : HashSpec) (bin : Bytes)
    → isxdigit c ≡ true
    → has_byte b'?' s ≡ false
    → check_cache d (store_path (h ++ c ∷ []) name) expected ≡ absent
    → (e : Diagnostic) × ((realize_fetch env d (h ++ c ∷ []) name (s ++ tar_gz_name) expected bin).1
        ≡ some (err e))
unfolding realize_fetch fetch_then_realize check_cache
realize_fetch-tar_gz env d h c name s expected bin x q a =
    rw (realize_fetch, a) (by_fetch (env.fetch (s ++ tar_gz_name) expected) refl)
  where
    by_fetch :
        (r : Expected Bytes)
        → env.fetch (s ++ tar_gz_name) expected ≡ r
        → (e : Diagnostic) × ((fetch_then_realize env d
              (h ++ c ∷ [])
              name
              (s ++ tar_gz_name)
              expected
              bin).1
            ≡ some (err e))
    by_fetch (err e) g = rw (fetch_then_realize, g) (e, refl)
    by_fetch (ok content) g =
        rw (fetch_then_realize, g, url_ext-tar_gz s q)
          (from_archive env (set_download d ((h ++ c ∷ []) ++ codes ".gz") (some content))
            (h ++ c ∷ []) name ((h ++ c ∷ []) ++ codes ".gz") expected bin a (format_of-gz h c x))
