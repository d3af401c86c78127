-- ===== src/Archive/Format.antt =====
-- `extract` of libs/kuli-store/src/archive.cpp: the choice by the file name, and the zip reader over
-- miniz. What miniz, tinfl and zstd make of the bytes is a parameter.
pub mod Contained
use kuli.Common.{
  ℕ, Bool, true, false, not, ◌&&◌, ◌||◌, List, [], ◌∷◌, ◌++◌, Option, none, some, if◌then◌else◌,
  Bytes, codes, lower, ends_with,
}
use kuli.Diag.{Diagnostic, with_help, Expected, ok, err}
use kuli.Archive.{
  ArchiveEntry, ExtractOptions, archive_error, place_entry, placed, rejected, failed, place_all,
  Effect, find_common_top,
}
use kuli.Archive.Paths.{FilePath}
use kuli.Archive.Tar.{Extraction, extract_tar, top_of}
use kuli.Archive.Gzip.{gunzip}

pub data Format : Type 0 where
  zip tar_gz tar_zst tar : Format

-- The tests on the lower-cased file name, in order; `none` is no supported format.
unfoldable pub format_of : Bytes → Option Format
format_of filename =
    let name = lower filename in
    if ends_with name (codes ".zip")
    then some zip
    else if ends_with name (codes ".tar.gz") || ends_with name (codes ".tgz")
    then some tar_gz
    else if ends_with name (codes ".tar.zst") || ends_with name (codes ".tzst")
    then some tar_zst
    else if ends_with name (codes ".tar")
    then some tar
    else none

-- One member of a zip file. `stat_ok` is the result of its stat; `inflated` its content, if miniz can
-- extract it.
pub record ZipItem : Type 0 where
  pub stat_ok : Bool
  pub filename : Bytes
  pub is_dir : Bool
  pub is_symlink : Bool
  pub inflated : Option Bytes

-- The libraries that read the bytes.
pub record Codecs : Type 0 where
  pub open_zip : Bytes → Option (List ZipItem)
  pub inflate : Bytes → Option Bytes
  pub unzstd : Bytes → Expected Bytes

unfoldable pub zip_names : List ZipItem → List Bytes
zip_names [] = []
zip_names (z ∷ zs) = if z.stat_ok then z.filename ∷ zip_names zs else zip_names zs

unfoldable pub zip_content : ZipItem → Option Bytes
zip_content z = if not z.is_dir && not z.is_symlink then z.inflated else some []

module _ (writable : FilePath → Bool) (codecs : Codecs) where
  -- The second loop of `extract_zip`.
  unfoldable pub place_zip :
      Bytes
      → FilePath
      → Bytes
      → ExtractOptions
      → List ZipItem
      → List Effect
      → List Effect × Expected (Unit {0})
  place_zip archive dest top opts [] done = (done, ok tt)
  place_zip archive dest top opts (z ∷ zs) done =
      let corrupt =
        err (archive_error (codes "corrupt zip entry in " ++ archive) (codes "E0213")) in
      let unextracted =
        err (archive_error (codes "failed to extract " ++ z.filename) (codes "E0215")) in
      if not z.stat_ok then (done, corrupt) else elim (zip_content z) [
        | none ↦ (done, unextracted)
        | some content ↦
            elim (place_entry writable dest z.filename z.is_dir z.is_symlink content top opts) [
              | placed eff ↦ place_zip archive dest top opts zs (done ++ eff ∷ [])
              | rejected d ↦ (done, err d)
              | failed target d ↦ (done ++ Effect.half_written target ∷ [], err d)
            ]
      ]

  unfoldable pub unreadable : Bytes → Extraction
  unreadable archive =
      some ([], err (archive_error (codes "cannot read archive: " ++ archive) (codes "E0211")))

  unfoldable pub extract_zip : Bytes → Option Bytes → FilePath → ExtractOptions → Extraction
  extract_zip archive file dest opts = elim file [
    | none ↦ unreadable archive
    | some buf ↦ elim (codecs.open_zip buf) [
      | none ↦
          some
            ([], err (archive_error (codes "not a valid zip archive: " ++ archive) (codes "E0212")))
      | some items ↦ some (
          place_zip archive dest (top_of opts (zip_names items)) opts items
            (Effect.create_directories dest ∷ []))
    ]
  ]

  unfoldable pub extract_compressed_tar :
      (Bytes → Expected Bytes) → Bytes → Option Bytes → FilePath → ExtractOptions → Extraction
  extract_compressed_tar decompress archive file dest opts = elim file [
    | none ↦ unreadable archive
    | some raw ↦ elim (decompress raw) [
      | err d ↦ some ([], err d)
      | ok data_bytes ↦ extract_tar writable data_bytes dest opts
    ]
  ]

  unfoldable pub extract_as : Format → Bytes → Option Bytes → FilePath → ExtractOptions → Extraction
  extract_as zip archive file dest opts = extract_zip archive file dest opts
  extract_as tar_gz archive file dest opts =
      extract_compressed_tar (gunzip codecs.inflate) archive file dest opts
  extract_as tar_zst archive file dest opts =
      extract_compressed_tar codecs.unzstd archive file dest opts
  extract_as tar archive file dest opts = extract_compressed_tar ok archive file dest opts

  -- `file` is what the archive's path holds, `archive` that path and `filename` its last component.
  unfoldable pub extract : Bytes → Bytes → Option Bytes → FilePath → ExtractOptions → Extraction
  unfolding extract_as
  extract archive filename file dest opts = elim (format_of filename) [
    | none ↦ some (
      [],
      err (
          with_help
            (archive_error (codes "unsupported archive format: " ++ filename) (codes "E0217"))
            (codes "supported: .zip, .tar, .tar.gz/.tgz, .tar.zst/.tzst")),
    )
    | some f ↦ extract_as f archive file dest opts
  ]
