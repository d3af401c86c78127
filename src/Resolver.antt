-- ===== src/Resolver.antt =====
-- libs/kuli-bp/src/resolver.cpp: which asset of a release suits a target. Lua patterns, the download and
-- the JSON library are parameters.
pub mod Scores
pub mod Select
pub mod Urls
use kuli.Common.{
  ℕ, suc, zero, ◌+◌, ◌-◌, Bool, true, false, not, ◌&&◌, ◌||◌, List, [], ◌∷◌, ◌++◌, Option, none,
  some, ◌==◌, if◌then◌else◌, Bytes, codes, same, is_empty, lower, starts_with, length, drop, leb,
}
use kuli.Diag.{Diagnostic, diagnostic_error, Expected, ok, err}
use kuli.Json.{JsonApi}

-- Whether a test holds at some suffix of the text, the empty one included.
pub somewhere : (Bytes → Bool) → Bytes → Bool
somewhere f [] = f []
somewhere f (c ∷ s) = f (c ∷ s) || somewhere f s

unfoldable pub contains_ci : Bytes → Bytes → Bool
unfolding somewhere
contains_ci hay needle = somewhere (starts_with (lower needle)) (lower hay)

abbrev sidecar_suffixes : List Bytes
sidecar_suffixes =
    codes ".sha256"
    ∷ codes ".sha512"
    ∷ codes ".sha1"
    ∷ codes ".md5"
    ∷ codes ".asc"
    ∷ codes ".sig"
    ∷ codes ".pem"
    ∷ codes ".pdb"
    ∷ codes ".cat"
    ∷ []

-- `name.size() >= |s| && contains_ci(name.substr(name.size() - |s|), s)`.
pub ends_in_ci : Bytes → Bytes → Bool
ends_in_ci name s =
    leb (length s) (length name) && contains_ci (drop (length name - length s) name) s

pub any_suffix : Bytes → List Bytes → Bool
any_suffix name [] = false
any_suffix name (s ∷ ss) = ends_in_ci name s || any_suffix name ss

unfoldable pub is_sidecar : Bytes → Bool
unfolding ends_in_ci any_suffix
is_sidecar name = any_suffix name sidecar_suffixes || contains_ci name (codes "checksums")

is_separator : ℕ → Bool
is_separator c = c == b'-' || c == b'_' || c == b'.' || c == b'/'

-- At the end of the text, or before a separator.
ends_token : Bytes → Bool
ends_token [] = true
ends_token (c ∷ s) = is_separator c

-- The scan over the positions of the lower-case name; `left` says whether a token can start here.
token_from : Bool → Bytes → Bytes → Bool
token_from left needle [] = left && starts_with needle [] && ends_token (drop (length needle) [])
token_from left needle (c ∷ s) =
    (left && starts_with needle (c ∷ s) && ends_token (drop (length needle) (c ∷ s)))
    || token_from (is_separator c) needle s

any_token : Bytes → List Bytes → Bool
any_token name [] = false
any_token name (t ∷ ts) = token_from true t name || any_token name ts

unfoldable pub has_os_token : Bytes → List Bytes → Bool
unfolding is_separator ends_token token_from any_token
has_os_token name tokens = any_token (lower name) tokens

-- An `int` that the scores make: what was added and what was taken away.
pub record Score : Type 0 where
  pub plus : ℕ
  pub minus : ℕ

-- `s > best_score`.
unfoldable pub higher : Score → Score → Bool
higher a b = not (leb (a.plus + b.minus) (b.plus + a.minus))

abbrev pub points : Bool → ℕ → ℕ
points b n = if b then n else 0

module _ (n : Bytes) where
  abbrev has : Bytes → Bool
  has needle = contains_ci n needle

  unfoldable pub is_windows : Bool
  is_windows = has (codes "windows") || has (codes "msvc") || has_os_token n (codes "win" ∷ [])

  unfoldable pub is_mac : Bool
  is_mac = has (codes "darwin") || has (codes "macos") || has_os_token n (codes "mac" ∷ [])

  unfoldable pub is_arm : Bool
  is_arm = has (codes "arm64") || has (codes "aarch64")

  unfoldable pub score_windows : Score
  unfolding is_windows is_mac is_arm
  score_windows = record {
    plus =
        points
          (has (codes "x86_64") || has (codes "amd64") || has (codes "x64") || has (codes "win64"))
          5
        + points is_windows 5
        + points (has (codes ".zip")) 2;
    minus =
        points is_arm 10
        + points is_mac 10
        + points (has (codes "linux") && not (has (codes "windows")) && not (has (codes "msvc")))
            10;
  }

  unfoldable pub score_linux : Score
  unfolding is_windows is_mac is_arm
  score_linux = record {
    plus =
        points (has (codes "x86_64") || has (codes "amd64") || has (codes "x64")) 5
        + points (has (codes "linux")) 5
        + points (has (codes ".tar.gz") || has (codes ".tgz") || has (codes ".tar.zst")) 2;
    minus = points is_windows 10 + points is_mac 10 + points is_arm 10;
  }

  unfoldable pub score_macos : Bool → Score
  unfolding is_windows is_arm
  score_macos arm = record {
    plus =
        points
          (has (codes "darwin")
            || has (codes "apple")
            || has (codes "macos")
            || has (codes "osx")
            || has_os_token n (codes "mac" ∷ []))
          5
        + points (if arm then is_arm else (has (codes "x86_64") || has (codes "x64"))) 5;
    minus = points is_windows 10 + points (has (codes "linux")) 10;
  }

unfoldable pub score_for_target : Bytes → Bytes → Score
score_for_target name target =
    if same target (codes "windows-x64")
    then score_windows name
    else if same target (codes "linux-x64")
    then score_linux name
    else if same target (codes "macos-arm64")
    then score_macos name true
    else if same target (codes "macos-x64")
    then score_macos name false
    else record { plus = 0; minus = 0 }

pub record Asset : Type 0 where
  pub name : Bytes
  pub url : Bytes

-- `pattern_matches` is that of the Lua library.
module _ (pattern_matches : Bytes → Bytes → Bool) where
  pub eligible : Bytes → Asset → Bool
  eligible pattern a = not (is_sidecar a.name) && pattern_matches a.name pattern

  -- The better of the best asset so far and the next one.
  pub pick : Bytes → Option Asset → Asset → Option Asset
  pick target none a = some a
  pick target (some best) a =
      if higher (score_for_target a.name target) (score_for_target best.name target)
      then some a
      else some best

  pub select_from : Option Asset → List Asset → Bytes → Bytes → Option Asset
  select_from best [] pattern target = best
  select_from best (a ∷ rest) pattern target =
      select_from (if eligible pattern a then pick target best a else best) rest pattern target

  unfoldable pub select_asset : List Asset → Bytes → Bytes → Option Asset
  unfolding eligible pick select_from
  select_asset assets pattern target = select_from none assets pattern target
