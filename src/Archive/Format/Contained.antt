-- ===== src/Archive/Format/Contained.antt =====
-- Every format writes below the destination only.
use kuli.Common.{
  Bool, List, [], ◌∷◌, Option, none, some, ◌≡◌, refl, Bool-cases, Option-cases, inl, inr, Bytes,
  All, append-nil,
}
use kuli.Diag.{Expected, ok, err}
use kuli.Archive.{ExtractOptions, Effect, place_entry}
use kuli.Archive.Paths.{FilePath}
use kuli.Archive.Place.{Below, placed_name, place_entry-PlacedAt, place_next}
use kuli.Archive.Tar.{Extraction, extract_tar, top_of}
use kuli.Archive.Tar.Bounds.{extract_tar-Below}
use kuli.Archive.Format.{
  Format, zip, tar_gz, tar_zst, tar, format_of, ZipItem, Codecs, zip_names, zip_content, place_zip,
  unreadable, extract_zip, extract_compressed_tar, extract_as, extract,
}

module _ (writable : FilePath → Bool) (codecs : Codecs) (dest : FilePath)
    (opts : ExtractOptions) where
  -- What an extraction did, if it has a result, lies below the destination.
  abbrev pub Contained : Extraction → Type 0
  Contained none = Unit
  Contained (some (log, r)) = All (Below dest) log

  place_zip-Below :
      (archive top : Bytes) (items : List ZipItem) (done : List Effect)
      → All (Below dest) done
      → All (Below dest) (place_zip writable codecs archive dest top opts items done).0
  unfolding place_zip zip_content
  place_zip-Below archive top [] done h = h
  place_zip-Below archive top (z ∷ zs) done h = elim (Bool-cases z.stat_ok) [
    | inr s ↦ rw s h
    | inl s ↦ rw s (elim (Option-cases (zip_content z)) [
      | inl c ↦ rw c h
      | inr (content, c) ↦ rw c (
          place_next writable dest opts
            (place_entry writable dest z.filename z.is_dir z.is_symlink content top opts)
            (placed_name writable dest opts top z.filename) z.is_symlink done
            (place_zip writable codecs archive dest top opts zs)
            (place_entry-PlacedAt writable dest opts z.filename z.is_dir z.is_symlink content top) h
            (place_zip-Below archive top zs))
    ])
  ]

  dest-Below : Below dest (Effect.create_directories dest)
  dest-Below = ([], rw append-nil, tt)

  extract_zip-Contained :
      (archive : Bytes) (file : Option Bytes)
      → Contained (extract_zip writable codecs archive file dest opts)
  unfolding extract_zip unreadable
  extract_zip-Contained archive none = tt
  extract_zip-Contained archive (some buf) = elim (Option-cases (codecs.open_zip buf)) [
    | inl e ↦ rw (e, Contained) tt
    | inr (items, e) ↦
        rw (e, Contained)
          (place_zip-Below archive (top_of opts (zip_names items)) items _ (dest-Below, tt))
  ]

  tar-Contained :
      (x : Extraction)
      → ((p : List Effect × Expected (Unit {0})) → x ≡ some p → All (Below dest) p.0)
      → Contained x
  tar-Contained none h = tt
  tar-Contained (some (log, r)) h = h (log, r) refl

  by_decompressed :
      (r : Expected Bytes)
      → Contained (elim r as (λ _. Extraction) [
        | err d ↦ some ([], err d)
        | ok data_bytes ↦ extract_tar writable data_bytes dest opts
      ])
  by_decompressed (err d) = tt
  by_decompressed (ok raw) =
      tar-Contained (extract_tar writable raw dest opts)
        (λ p e. extract_tar-Below writable raw dest opts e)

  compressed-Contained :
      (decompress : Bytes → Expected Bytes) (archive : Bytes) (file : Option Bytes)
      → Contained (extract_compressed_tar writable codecs decompress archive file dest opts)
  unfolding extract_compressed_tar unreadable
  compressed-Contained decompress archive none = tt
  compressed-Contained decompress archive (some raw) = by_decompressed (decompress raw)

  extract_as-Contained :
      (f : Format) (archive : Bytes) (file : Option Bytes)
      → Contained (extract_as writable codecs f archive file dest opts)
  unfolding extract_as
  extract_as-Contained zip archive file = extract_zip-Contained archive file
  extract_as-Contained tar_gz archive file = compressed-Contained _ archive file
  extract_as-Contained tar_zst archive file = compressed-Contained _ archive file
  extract_as-Contained tar archive file = compressed-Contained _ archive file

  -- Whatever the archive, its format and the libraries' answers: what `extract` creates or writes lies
  -- below the destination, also where it ends with an error.
  pub extract-Contained :
      (archive filename : Bytes) (file : Option Bytes)
      → Contained (extract writable codecs archive filename file dest opts)
  unfolding extract
  extract-Contained archive filename file = elim (Option-cases (format_of filename)) [
    | inl e ↦ rw (e, Contained) tt
    | inr (f, e) ↦ rw (e, Contained) (extract_as-Contained f archive file)
  ]
