-- ===== src/Archive/Tar/Bounds.antt =====
-- The tar reader ends on every input, reads past the buffer only where a PAX header said so, and what
-- it extracts stays below the destination.
use mathlib.Core.Option.{some-injective}
use kuli.Common.{
  ℕ, zero, suc, ◌+◌, ◌≤◌, ◌<◌, Bool, List, [], ◌∷◌, none, some, ◌≡◌, ◌≢◌, refl, arith, leb, Bytes,
  length, Bool-cases, Option-cases, inl, inr, ◌⊎◌, All, leb→le, append-nil, ap, subst,
}
use kuli.Diag.{Expected}
use kuli.Archive.{ExtractOptions, Effect}
use kuli.Archive.Paths.{FilePath, join}
use kuli.Archive.Place.{Below, place_all-Below}
use kuli.Archive.Tar.{
  TarState, ScanResult, scanned, corrupt, overread, no_fuel, Round, stop, again, tar_round,
  round_on, tar_loop, tar_start, scan_tar, tar_entry, read_raw, extract_tar, tar_result, names_of,
  top_of,
}

-- A round that goes on has passed a header of 512 bytes, and one that stops had its answer.
round_on-again :
    (d : Bytes) (st : TarState) (h : Bytes) (type size : ℕ) {st' : TarState}
    → round_on d st h type size ≡ again st'
    → st.pos + 512 ≤ st'.pos
unfolding round_on
round_on-again d st h type size e = ground arith

round_on-stop :
    (d : Bytes) (st : TarState) (h : Bytes) (type size : ℕ)
    → round_on d st h type size ≢ stop no_fuel
unfolding round_on
round_on-stop d st h type size e = ground arith

tar_round-again :
    (d : Bytes) (st : TarState) {st' : TarState}
    → tar_round d st ≡ again st'
    → st.pos + 512 ≤ st'.pos
unfolding tar_round
tar_round-again d st e = round_on-again d st _ _ _ e

tar_round-stop : (d : Bytes) (st : TarState) → tar_round d st ≢ stop no_fuel
unfolding tar_round
tar_round-stop d st = round_on-stop d st _ _ _

Round-cases : (r : Round) → ((x : ScanResult) × (r ≡ stop x)) ⊎ ((st : TarState) × (r ≡ again st))
Round-cases (stop x) = inl (x, refl)
Round-cases (again st) = inr (st, refl)

tar_loop-total :
    (fuel : ℕ) (d : Bytes) (st : TarState)
    → length d < fuel + st.pos
    → 0 < fuel
    → tar_loop fuel d st ≢ no_fuel
unfolding tar_loop
tar_loop-total zero d st h k e = absurd (omega arith)
tar_loop-total (suc fuel) d st h k e = elim (Bool-cases (leb (st.pos + 512) (length d))) [
  | inr t ↦ absurd (cc (rw t at e))
  | inl t ↦ elim (Round-cases (tar_round d st)) [
    | inl (x, r) ↦ tar_round-stop d st (cc (r, rw (t, r) at e))
    | inr (st', r) ↦
        let p = tar_round-again d st r in
        let q = leb→le (st.pos + 512) (length d) t in
        tar_loop-total fuel d st' (omega arith) (omega arith) (rw (t, r) at e)
  ]
]

-- The loop over the headers ends on every input: the length of the data is fuel enough.
pub scan_tar-total : (d : Bytes) → scan_tar d ≢ no_fuel
unfolding scan_tar
scan_tar-total d = tar_loop-total (length d + 1) d tar_start (omega arith) (omega arith)

-- Which reads can leave the buffer: only that of an entry whose size came from a PAX header.
tar_entry-none :
    (d : Bytes) (st : TarState) (h : Bytes) (type size : ℕ)
    → st.pos + 512 + size ≤ length d
    → tar_entry d st h type size ≡ none
    → (n : ℕ) × (st.pax.size ≡ some n) × (length d < st.pos + 512 + n)
unfolding tar_entry read_raw
tar_entry-none d st h type size b e = elim (Option-cases st.pax.size) [
  | inl p ↦ absurd (ground arith)
  | inr (n, p) ↦ (n, p, ground arith)
]

-- The reader leaves the buffer in a round only for an entry behind a PAX header that gives a size
-- past the end of the data: the size in the entry's own header has been checked.
pub round_on-overread :
    (d : Bytes) (st : TarState) (h : Bytes) (type size : ℕ)
    → round_on d st h type size ≡ stop overread
    → (n : ℕ) × (st.pax.size ≡ some n) × (length d < st.pos + 512 + n)
unfolding round_on
round_on-overread d st h type size e = elim (Option-cases st.pax.size) [
  | inl p ↦ absurd (ground (arith, tar_entry-none d st h type size))
  | inr (n, p) ↦ (n, p, ground (arith, tar_entry-none d st h type size))
]

tar_result-Below :
    (writable : FilePath → Bool) (dest : FilePath) (opts : ExtractOptions) (x : ScanResult)
    {log : List Effect} {r : Expected (Unit {0})}
    → tar_result writable dest opts x ≡ some (log, r)
    → All (Below dest) log
unfolding tar_result
tar_result-Below writable dest opts (scanned entries) e =
    subst (All (Below dest)) (ap (λ p. p.0) (some-injective _ _ e)) (
      place_all-Below writable dest opts (top_of opts (names_of entries)) entries
        (Effect.create_directories dest ∷ []) (([], below_self dest, tt), tt))
  where
    below_self : (p : FilePath) → p ≡ join p []
    below_self p = rw append-nil
tar_result-Below writable dest opts (corrupt d) e = rw (← ap (λ p. p.0) (some-injective _ _ e)) tt
tar_result-Below writable dest opts overread e = absurd (cc e)
tar_result-Below writable dest opts no_fuel e = absurd (cc e)

-- All that the extraction of a tar stream does to the file system lies below `dest`, whatever the
-- bytes are, with or without an error.
pub extract_tar-Below :
    (writable : FilePath → Bool) (d : Bytes) (dest : FilePath) (opts : ExtractOptions)
    {log : List Effect} {r : Expected (Unit {0})}
    → extract_tar writable d dest opts ≡ some (log, r)
    → All (Below dest) log
unfolding extract_tar
extract_tar-Below writable d dest opts e = tar_result-Below writable dest opts (scan_tar d) e
