-- ===== src/Crypto.antt =====
-- libs/kuli-crypto/src/hash.cpp: hash specifications, read and printed. The digests are OpenSSL's
-- and enter the users of this module as a parameter.
pub mod RoundTrip
use kuli.Common.{
  ℕ, Bool, true, false, not, List, [], ◌∷◌, ◌++◌, Option, none, some, map, reverse, ◌&&◌,
  if◌then◌else◌, Bytes, codes, same, is_empty, lower, isspace, isxdigit, cut,
}

pub data Algorithm : Type 0 where
  sha256 sha512 md5 sha1 : Algorithm

pub record HashSpec : Type 0 where
  pub algo : Algorithm
  pub hex : Bytes

unfoldable pub algo_name : Algorithm → Bytes
algo_name sha256 = codes "sha256"
algo_name sha512 = codes "sha512"
algo_name md5 = codes "md5"
algo_name sha1 = codes "sha1"

unfoldable pub parse_algo : Bytes → Option Algorithm
parse_algo name =
    let s = lower name in
    if same s (codes "sha256")
    then some sha256
    else if same s (codes "sha512")
    then some sha512
    else if same s (codes "md5")
    then some md5
    else if same s (codes "sha1")
    then some sha1
    else none

-- The two loops that move `b` and `e` past white space.
skip_spaces : Bytes → Bytes
skip_spaces [] = []
skip_spaces (c ∷ s) = let rest = skip_spaces s in if isspace c then rest else c ∷ s

trim_spaces : Bytes → Bytes
trim_spaces s = reverse (skip_spaces (reverse (skip_spaces s)))

unfoldable pub all_hex : Bytes → Bool
all_hex [] = true
all_hex (c ∷ s) = isxdigit c && all_hex s

-- The checks on the digits, once the algorithm is known.
hash_spec : Algorithm → Bytes → Option HashSpec
hash_spec a hex =
    if is_empty hex
    then none
    else if not (all_hex hex)
    then none
    else some (record { algo = a; hex = lower hex })

parse_trimmed : Bytes → Option HashSpec
parse_trimmed trimmed = elim (cut b':' trimmed) [
  | none ↦ hash_spec sha256 trimmed
  | some (prefix, hex) ↦ elim (parse_algo prefix) [ none ↦ none | some a ↦ hash_spec a hex ]
]

unfoldable pub parse : Bytes → Option HashSpec
unfolding skip_spaces trim_spaces all_hex hash_spec parse_trimmed
parse raw =
    let trimmed = trim_spaces raw in if is_empty trimmed then none else parse_trimmed trimmed

unfoldable pub to_string : HashSpec → Bytes
to_string spec = algo_name spec.algo ++ b':' ∷ spec.hex
