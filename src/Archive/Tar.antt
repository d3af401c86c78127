-- ===== src/Archive/Tar.antt =====
-- The tar reader of libs/kuli-store/src/archive.cpp: USTAR headers, GNU long names, PAX headers.
pub mod Bounds
pub mod Overread
use kuli.Common.{
  ℕ, zero, suc, ◌+◌, ◌-◌, ◌*◌, ◌/◌, Bool, true, false, not, ◌&&◌, ◌||◌, List, [], ◌∷◌, ◌++◌, Option,
  none, some, ◌==◌, leb, ltb, within, if◌then◌else◌, Bytes, codes, same, is_empty, starts_with, cut,
  length, take, drop, isspace, isdigit,
}
use kuli.Diag.{Expected, ok, err, Diagnostic}
use kuli.Archive.{ArchiveEntry, ExtractOptions, archive_error, find_common_top, place_all, Effect}
use kuli.Archive.Paths.{FilePath}

-- `std::string(p + i, n)`: the caller has to know that the bytes are there.
abbrev pub slice : Bytes → ℕ → ℕ → Bytes
slice s i n = take n (drop i s)

-- The same where the program has not checked that they are: `none` reads past the buffer.
unfoldable pub read_raw : Bytes → ℕ → ℕ → Option Bytes
read_raw s i n = if leb (i + n) (length s) then some (slice s i n) else none

-- Up to the first zero byte.
until_zero : Bytes → Bytes
until_zero [] = []
until_zero (c ∷ s) = let rest = until_zero s in if c == 0 then [] else c ∷ rest

unfoldable pub tar_field : Bytes → ℕ → ℕ → Bytes
unfolding until_zero
tar_field h i max = until_zero (slice h i max)

octal_digits : ℕ → Bytes → ℕ
octal_digits v [] = v
octal_digits v (c ∷ s) =
    let rest = octal_digits (v * 8 + (c - b'0')) s in if within b'0' b'7' c then rest else v

octal_spaces : Bytes → ℕ
octal_spaces [] = 0
octal_spaces (c ∷ s) =
    let rest = octal_spaces s in if c == b' ' then rest else octal_digits 0 (c ∷ s)

unfoldable pub parse_octal : Bytes → ℕ → ℕ → ℕ
unfolding octal_digits octal_spaces
parse_octal h i max = octal_spaces (slice h i max)

-- `std::atoi` and `std::atoll`: spaces, a sign, digits. A negative value is `none`.
decimal : ℕ → Bytes → ℕ
decimal v [] = v
decimal v (c ∷ s) = let rest = decimal (v * 10 + (c - b'0')) s in if isdigit c then rest else v

signed : Bytes → Option ℕ
signed [] = some 0
signed (c ∷ s) =
    if c == b'-'
    then (if decimal 0 s == 0 then some 0 else none)
    else if c == b'+'
    then some (decimal 0 s)
    else some (decimal 0 (c ∷ s))

unfoldable pub atoi : Bytes → Option ℕ
unfolding signed decimal
atoi [] = some 0
atoi (c ∷ s) = let rest = atoi s in if isspace c then rest else signed (c ∷ s)

-- `while (!kv.empty() && (kv.back() == '\n' || kv.back() == '\0')) kv.pop_back();`
unfoldable pub strip_ends : (ℕ → Bool) → Bytes → Bytes
strip_ends end [] = []
strip_ends end (c ∷ s) =
    let rest = strip_ends end s in if is_empty rest && end c then [] else c ∷ rest

-- `pax_path` and `pax_size`, where a negative size is `none`.
pub record Pax : Type 0 where
  pub path : Bytes
  pub size : Option ℕ

set_record : Bytes → Bytes → Pax → Pax
set_record k v pax =
    if same k (codes "path")
    then record pax { path = v }
    else if same k (codes "size")
    then record pax { size = atoi v }
    else pax

-- One record, cut at `=`.
pax_record : Bytes → Pax → Pax
pax_record kv pax = elim (cut b'=' kv) [ none ↦ pax | some (k, v) ↦ set_record k v pax ]

-- `rest` is the text from `i` on. The fuel is the length of the text: every round drops a byte.
parse_pax_from : ℕ → Bytes → Pax → Pax
parse_pax_from zero rest pax = pax
parse_pax_from (suc fuel) rest pax = elim (cut b' ' rest) [
  | none ↦ pax
  | some (digits, after) ↦ elim (atoi digits) [
    | none ↦ pax
    | some len ↦
        let kv =
          if leb (length digits + 1) len then take (len - (length digits + 1)) after else after in
        let stripped = strip_ends (λ c. c == b'\n' || c == 0) kv in
        let later = parse_pax_from fuel (drop len rest) (pax_record stripped pax) in
        if len == 0 || ltb (length rest) len then pax else later
  ]
]

unfoldable pub parse_pax : Bytes → Pax → Pax
unfolding parse_pax_from pax_record set_record strip_ends
parse_pax text pax = parse_pax_from (length text) text pax

-- The variables of the loop over the headers.
pub record TarState : Type 0 where
  pub pos : ℕ
  pub gnu_longname : Bytes
  pub pax : Pax
  pub entries : List ArchiveEntry

-- How the loop ends: with entries, with an error, with a read past the end of the buffer, or (in
-- the model only) without fuel.
pub data ScanResult : Type 0 where
  scanned : List ArchiveEntry → ScanResult
  corrupt : Diagnostic → ScanResult
  overread : ScanResult
  no_fuel : ScanResult

unfoldable pub all_zero : Bytes → Bool
all_zero [] = true
all_zero (c ∷ s) = c == 0 && all_zero s

-- The name in the header, with the USTAR prefix.
unfoldable pub header_name : Bytes → Bytes
header_name h =
    let name = tar_field h 0 100 in
    let prefix = tar_field h 345 155 in
    if same (slice h 257 5) (codes "ustar") && not (is_empty prefix)
    then prefix ++ b'/' ∷ name
    else name

-- `h[i]`.
unfoldable pub byte_at : Bytes → ℕ → ℕ
byte_at [] i = 0
byte_at (c ∷ s) zero = c
byte_at (c ∷ s) (suc i) = byte_at s i

unfoldable pub ends_in_slash : Bytes → Bool
ends_in_slash [] = false
ends_in_slash (c ∷ []) = c == b'/'
ends_in_slash (c ∷ d ∷ s) = ends_in_slash (d ∷ s)

abbrev pub or_else : Bytes → Bytes → Bytes
or_else s d = if is_empty s then d else s

abbrev pub effective_size : Option ℕ → ℕ → ℕ
effective_size none size = size
effective_size (some n) size = n

abbrev entry_of : Bytes → Bool → Bool → Bytes → ArchiveEntry
entry_of name is_dir is_symlink content = record {
  name = name;
  is_dir = is_dir;
  is_symlink = is_symlink;
  content = content;
}

-- The entry of a header that is no long-name and no PAX header; `none` is the overread.
unfoldable pub tar_entry : Bytes → TarState → Bytes → ℕ → ℕ → Option ArchiveEntry
unfolding header_name ends_in_slash read_raw
tar_entry data_bytes st h type size =
    let ename = or_else st.pax.path (or_else st.gnu_longname (header_name h)) in
    let esize = effective_size st.pax.size size in
    let is_dir = type == b'5' || ends_in_slash ename in
    let is_symlink = type == b'1' || type == b'2' in
    if not is_dir && not is_symlink && ltb 0 esize
    then elim (read_raw data_bytes (st.pos + 512) esize) [
      | none ↦ none
      | some content ↦ some (entry_of ename is_dir is_symlink content)
    ]
    else some (entry_of ename is_dir is_symlink [])

abbrev after_entry : TarState → ℕ → ArchiveEntry → TarState
after_entry st next e = record st {
  pos = next;
  gnu_longname = [];
  pax = record { path = []; size = none };
  entries = st.entries ++ e ∷ [];
}

-- One round of the loop, behind the tests of its head.
pub data Round : Type 0 where
  stop : ScanResult → Round
  again : TarState → Round

-- `h`, `type` and `size` are those of the header at `pos`.
unfoldable pub round_on : Bytes → TarState → Bytes → ℕ → ℕ → Round
round_on data_bytes st h type size =
    let data_start = st.pos + 512 in
    let next = data_start + (size + 511) / 512 * 512 in
    let body = slice data_bytes data_start size in
    if all_zero h
    then stop (scanned st.entries)
    else if ltb (length data_bytes) (data_start + size)
    then stop (corrupt (archive_error (codes "corrupt tar entry") (codes "E0244")))
    else if type == b'L'
    then again (record st { pos = next; gnu_longname = strip_ends (λ c. c == 0) body })
    else if type == b'x' || type == b'g'
    then again (record st { pos = next; pax = parse_pax body st.pax })
    else elim (tar_entry data_bytes st h type size) [
      | none ↦ stop overread
      | some e ↦ again (after_entry st next e)
    ]

unfoldable pub tar_round : Bytes → TarState → Round
tar_round data_bytes st =
    let h = slice data_bytes st.pos 512 in
    round_on data_bytes st h (byte_at h 156) (parse_octal h 124 12)

unfoldable pub tar_loop : ℕ → Bytes → TarState → ScanResult
tar_loop zero data_bytes st = no_fuel
tar_loop (suc fuel) data_bytes st =
    if leb (st.pos + 512) (length data_bytes)
    then elim (tar_round data_bytes st) [ stop r ↦ r | again st' ↦ tar_loop fuel data_bytes st' ]
    else scanned st.entries

abbrev pub tar_start : TarState
tar_start = record {
  pos = 0;
  gnu_longname = [];
  pax = record { path = []; size = none };
  entries = [];
}

-- Every header takes 512 bytes, so the length of the data is fuel enough.
unfoldable pub scan_tar : Bytes → ScanResult
unfolding tar_loop tar_round round_on tar_entry all_zero byte_at strip_ends
scan_tar data_bytes = tar_loop (length data_bytes + 1) data_bytes tar_start

unfoldable pub names_of : List ArchiveEntry → List Bytes
names_of [] = []
names_of (e ∷ es) = e.name ∷ names_of es

-- What extraction has done, and its result; `none` stands for the two ends without one.
abbrev pub Extraction : Type 0
Extraction = Option (List Effect × Expected (Unit {0}))

abbrev pub top_of : ExtractOptions → List Bytes → Bytes
top_of opts names = if opts.flatten_top_dir then find_common_top names else []

-- The second half of `extract_tar`: the entries are placed once all of them are read.
unfoldable pub tar_result : (FilePath → Bool) → FilePath → ExtractOptions → ScanResult → Extraction
tar_result writable dest opts (scanned entries) = some (
    place_all writable dest (top_of opts (names_of entries)) opts entries
      (Effect.create_directories dest ∷ []))
tar_result writable dest opts (corrupt d) = some ([], err d)
tar_result writable dest opts overread = none
tar_result writable dest opts no_fuel = none

unfoldable pub extract_tar : (FilePath → Bool) → Bytes → FilePath → ExtractOptions → Extraction
unfolding tar_result
extract_tar writable data_bytes dest opts = tar_result writable dest opts (scan_tar data_bytes)
