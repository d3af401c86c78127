-- ===== src/Archive/Gzip.antt =====
-- `gunzip` of libs/kuli-store/src/archive.cpp: the header, by hand; the inflation is miniz's and a
-- parameter.
use kuli.Common.{
  ℕ, suc, ◌+◌, ◌-◌, ◌*◌, ◌/◌, ◌%◌, Bool, not, ◌&&◌, ◌||◌, [], ◌∷◌, Option, none, some, ◌==◌, ltb,
  if◌then◌else◌, Bytes, codes, length, drop,
}
use kuli.Diag.{Expected, ok, err}
use kuli.Archive.{archive_error}
use kuli.Archive.Tar.{byte_at, slice}

-- `while (p < in.size() && in[p] != 0) ++p; ++p;`, on the bytes from `p` on.
past_zero : Bytes → ℕ
past_zero [] = 1
past_zero (c ∷ s) = let rest = past_zero s in if c == 0 then 1 else suc rest

-- `flg & 2 ^ k`.
pub flag_set : ℕ → ℕ → Bool
flag_set flags bit = flags / bit % 2 == 1

-- The three optional fields behind FEXTRA.
after_names : Bytes → ℕ → ℕ → ℕ
after_names bytes flags p =
    let p1 = if flag_set flags 0x08 then p + past_zero (drop p bytes) else p in
    let p2 = if flag_set flags 0x10 then p1 + past_zero (drop p1 bytes) else p1 in
    if flag_set flags 0x02 then p2 + 2 else p2

-- Where the deflate stream starts.
unfoldable pub gzip_header : Bytes → Expected ℕ
unfolding flag_set after_names past_zero
gzip_header bytes =
    let flags = byte_at bytes 3 in
    let xlen = byte_at bytes 10 + byte_at bytes 11 * 256 in
    let extra = flag_set flags 0x04 in
    let p = after_names bytes flags (if extra then 12 + xlen else 10) in
    if ltb (length bytes) 18
      || not (byte_at bytes 0 == 0x1f)
      || not (byte_at bytes 1 == 0x8b)
      || not (byte_at bytes 2 == 0x08)
    then err (archive_error (codes "not a gzip stream") (codes "E0240"))
    else if extra && ltb (length bytes) 12
    then err (archive_error (codes "truncated gzip header") (codes "E0241"))
    else if ltb (length bytes) (p + 8)
    then err (archive_error (codes "truncated gzip stream") (codes "E0241"))
    else ok p

-- `inflate` gives the raw inflation of a deflate stream, if it is one.
unfoldable pub gunzip : (Bytes → Option Bytes) → Bytes → Expected Bytes
gunzip inflate bytes = elim (gzip_header bytes) [
  | err d ↦ err d
  | ok p ↦ elim (inflate (slice bytes p (length bytes - p - 8))) [
    | none ↦ err (archive_error (codes "gzip decompression failed") (codes "E0241"))
    | some out ↦ ok out
  ]
]
