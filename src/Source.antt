-- ===== src/Source.antt =====
-- The registry's flat TOML and the GitHub references of libs/kuli-bp/src/source.cpp.
pub mod Quoting
pub mod Reference
pub mod Registry
pub mod Entries
use kuli.Common.{
  ℕ, ◌-◌, Bool, true, false, not, ◌&&◌, ◌||◌, List, [], ◌∷◌, ◌++◌, Option, none, some, ◌==◌, leb,
  ltb, if◌then◌else◌, Bytes, codes, same, is_empty, cut, getlines, isspace, trim_with, length, take,
  drop, starts_with, ends_with, has_byte,
}
use kuli.Resolver.{somewhere}

abbrev pub trim : Bytes → Bytes
trim s = trim_with isspace s

unfoldable pub unescape : Bytes → Bytes
unescape [] = []
unescape (c ∷ []) = c ∷ []
unescape (c ∷ d ∷ s) =
    let behind = unescape s in
    let rest = unescape (d ∷ s) in if c == b'\\' then d ∷ behind else c ∷ rest

-- `s.front() == c` and `s.back() == c`.
unfoldable pub front_is : ℕ → Bytes → Bool
front_is c [] = false
front_is c (x ∷ s) = x == c

unfoldable pub back_is : ℕ → Bytes → Bool
back_is c [] = false
back_is c (x ∷ []) = x == c
back_is c (x ∷ y ∷ s) = back_is c (y ∷ s)

-- A quoted value is unescaped, another one is taken as it stands.
unfoldable pub value_of : Bytes → Bytes
value_of val =
    if leb 2 (length val) && front_is b'"' val && back_is b'"' val
    then unescape (take (length val - 2) (drop 1 val))
    else val

unfoldable pub parse_line : Bytes → Option (Bytes × Bytes)
parse_line line =
    let s : Bytes = trim line in
    if is_empty s || front_is b'#' s || front_is b'[' s
    then none
    else elim (cut b'=' s) [ none ↦ none | some (key, val) ↦ some (trim key, value_of (trim val)) ]

-- `kv[key] = val` for each line; the later entry stands before the earlier one.
unfoldable pub parse_lines : List (Bytes × Bytes) → List Bytes → List (Bytes × Bytes)
parse_lines kv [] = kv
parse_lines kv (l ∷ ls) = elim (parse_line l) [
  | none ↦ parse_lines kv ls
  | some entry ↦ parse_lines (entry ∷ kv) ls
]

unfoldable pub parse_flat : Bytes → List (Bytes × Bytes)
parse_flat text = parse_lines [] (getlines b'\n' text)

unfoldable pub escape : Bytes → Bytes
escape [] = []
escape (c ∷ s) =
    let rest = escape s in if c == b'"' || c == b'\\' then b'\\' ∷ c ∷ rest else c ∷ rest

unfoldable pub toml_quote : Bytes → Bytes
toml_quote s = b'"' ∷ escape s ++ b'"' ∷ []

pub record GhRef : Type 0 where
  pub owner : Bytes
  pub repo : Bytes

second_is : ℕ → Bytes → Bool
second_is c [] = false
second_is c (x ∷ s) = front_is c s

-- `exists` says which paths are there.
unfoldable pub is_shorthand : (Bytes → Bool) → Bytes → Bool
unfolding second_is
is_shorthand exists u =
    not (somewhere (starts_with (codes "://")) u)
    && has_byte b'/' u
    && not (exists u)
    && not (front_is b'/' u)
    && not (front_is b'\\' u)
    && not (front_is b'.' u)
    && not (second_is b':' u)

unfoldable pub strip_git : Bytes → Bytes
strip_git rest =
    if ltb 4 (length rest) && ends_with rest (codes ".git")
    then take (length rest - 4) rest
    else rest

unfoldable pub first_piece : Bytes → Bytes
first_piece s = elim (cut b'/' s) [ none ↦ s | some (a, b) ↦ a ]

unfoldable pub owner_repo : Bytes → Option GhRef
owner_repo rest = elim (cut b'/' rest) [
  | none ↦ none
  | some (owner, more) ↦
      if is_empty owner || is_empty (first_piece more)
      then none
      else some (record { owner = owner; repo = first_piece more })
]

unfoldable pub parse_github : (Bytes → Bool) → Bytes → Option GhRef
parse_github exists u =
    if starts_with (codes "github:") u
    then owner_repo (strip_git (drop 7 u))
    else if starts_with (codes "https://github.com/") u
    then owner_repo (strip_git (drop 19 u))
    else if is_shorthand exists u
    then owner_repo (strip_git u)
    else none
