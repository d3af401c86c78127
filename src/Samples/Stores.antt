-- ===== src/Samples/Stores.antt =====
-- Instances of the store's theorems.
use kuli.Common.{
  true, false, [], ◌∷◌, ◌++◌, none, some, ◌≡◌, refl, codes, same, cut, isxdigit, has_byte,
  ends_with, lower, tolower, starts_with, All,
}
use kuli.Diag.{Diagnostic, ok, err}
use kuli.Crypto.{Algorithm, HashSpec}
use kuli.Archive.{find_common_top}
use kuli.Archive.Place.{Below}
use kuli.Archive.Format.{
  extract, extract_as, extract_zip, unreadable, place_zip, zip_names, format_of,
}
use kuli.Store.{
  Slot, Disk, set_download, Env, check_cache, url_ext, make_result, store_path,
  realize_from_archive, realize_fetch, publish,
}
use kuli.Store.Laws.{realize_fetch-realize_from_archive}
use kuli.Store.UrlExt.{realize_fetch-tar_gz, tar_gz_name}
use kuli.Store.Inline.{write_files, write_files-Below}

abbrev pub env : Env
env = record {
  root = record { rooted = true; parts = codes "s" ∷ [] };
  writable = λ p. true;
  codecs = record { open_zip = λ b. some []; inflate = λ b. some b; unzstd = λ b. ok b };
  digest = λ a b. b;
  fetch = λ url expected. ok expected.hex;
  spoiled = λ url old. none;
  aliased = λ dir s n old. old;
  marker_writable = true;
  rename_ok = true;
  raced = Slot.missing;
  message = [];
}

abbrev pub empty_disk : Disk
empty_disk = record { slots = λ n. Slot.missing; downloads = λ n. none }

abbrev expected_spec : HashSpec
expected_spec = record { algo = Algorithm.sha256; hex = codes "0b" }

abbrev downloaded : Disk
downloaded = set_download empty_disk (codes "x.zip") (some (codes "0b"))

abbrev fetched : Disk
fetched =
    (realize_fetch env empty_disk (codes "0a") (codes "rg") (codes "u/x.zip") expected_spec []).0

realize_fetch-realize_from_archive_example :
    realize_from_archive env fetched (codes "0a") (codes "rg") (codes "y.tar") expected_spec []
    ≡ (fetched, some (ok (make_result (store_path (codes "0a") (codes "rg")) [] true)))
unfolding realize_fetch realize_from_archive check_cache url_ext cut codes same extract extract_as
    extract_zip unreadable place_zip zip_names find_common_top format_of ends_with lower tolower
    starts_with publish
realize_fetch-realize_from_archive_example =
    realize_fetch-realize_from_archive env env empty_disk (codes "0a") (codes "rg")
      (codes "u/x.zip") (codes "y.tar") expected_spec []
      (make_result (store_path (codes "0a") (codes "rg")) [] false) refl

realize_fetch-tar_gz_example :
    (e : Diagnostic) × ((realize_fetch env empty_disk
        (codes "0" ++ b'a' ∷ [])
        (codes "rg")
        (codes "u/x" ++ tar_gz_name)
        expected_spec
        []).1
      ≡ some (err e))
unfolding isxdigit has_byte codes check_cache
realize_fetch-tar_gz_example =
    realize_fetch-tar_gz env empty_disk (codes "0") b'a' (codes "rg") (codes "u/x") expected_spec []
      refl refl refl

write_files-Below_example :
    All
      (Below (record { rooted = true; parts = codes "s" ∷ [] }))
      (write_files env
        (record { rooted = true; parts = codes "s" ∷ [] })
        ((codes "../x", []) ∷ [])
        []).0
unfolding codes
write_files-Below_example =
    write_files-Below env (codes "s" ∷ []) ((codes "../x", []) ∷ []) []
      (((λ e. cc e), (λ e. cc e)), tt) tt
