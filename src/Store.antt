-- ===== src/Store.antt =====
-- libs/kuli-store/src/store.cpp: the content-addressed store. The disk is what the store root and the
-- download cache hold; digests, codecs, the network and what other processes do enter as a parameter.
pub mod Laws
pub mod Inline
pub mod UrlExt
pub mod WriteOnce
use kuli.Common.{
  ℕ, Bool, true, false, not, ◌&&◌, ◌||◌, List, [], ◌∷◌, ◌++◌, Option, none, some, ◌==◌,
  if◌then◌else◌, Bytes, codes, same, is_empty, cut, reverse, components, has_byte,
}
use kuli.Diag.{Diagnostic, diagnostic_error, with_help, Expected, ok, err}
use kuli.Crypto.{Algorithm, HashSpec}
use kuli.Archive.{Effect, default_options}
use kuli.Archive.Paths.{FilePath, lexically_normal, lexically_relative, leads_out}
use kuli.Archive.Format.{Codecs, extract}
use kuli.Archive.Tar.{Extraction}

-- A directory of the store: not there, there without a readable marker, or there with the marker's
-- sha256 and what was written into it.
pub data Slot : Type 0 where
  missing unmarked : Slot
  marked : Bytes → List Effect → Slot

-- What stands at `root / name` for each name, and the files of the download cache.
pub record Disk : Type 0 where
  pub slots : Bytes → Slot
  pub downloads : Bytes → Option Bytes

-- A name that is one component of a path: the directories of two such names lie apart. Other names may
-- lead into, above or out of the root.
unfoldable pub is_component : Bytes → Bool
is_component n =
    not (is_empty n)
    && not (has_byte b'/' n)
    && not (same n (codes "."))
    && not (same n (codes ".."))

abbrev pub set_download : Disk → Bytes → Option Bytes → Disk
set_download d file content = record d {
  downloads = λ n. if same n file then content else d.downloads n;
}

pub record Env : Type 0 where
  -- The store root, and which files can be written.
  pub root : FilePath
  pub writable : FilePath → Bool
  pub codecs : Codecs
  -- The digest of a file's bytes in lower-case hex.
  pub digest : Algorithm → Bytes → Bytes
  -- What a change of the directory at the first name leaves at the second one, for two names of which
  -- one is no single component, so that their directories may meet. The directory of the downloads is
  -- taken to be out of the reach of such a name.
  pub aliased : Bytes → Slot → Bytes → Slot → Slot
  -- `fetch_to_file` with the expected digest: the bytes that it leaves in the cache, and what a failed
  -- download leaves of the file that was there.
  pub fetch : Bytes → HashSpec → Expected Bytes
  pub spoiled : Bytes → Option Bytes → Option Bytes
  -- Whether the marker can be written and the publishing rename succeeds; where it fails, the slot
  -- that another process has left at the target, and the system's message.
  pub marker_writable : Bool
  pub rename_ok : Bool
  pub raced : Slot
  pub message : Bytes

abbrev pub set_slot : Env → Disk → Bytes → Slot → Disk
set_slot env d dir s = record d {
  slots = λ n.
      if same n dir
      then s
      else if is_component dir && is_component n
      then d.slots n
      else env.aliased dir s n (d.slots n);
}

pub data CacheState : Type 0 where
  absent hit collision : CacheState

unfoldable pub cache_of : Slot → Bytes → CacheState
cache_of missing hex = absent
cache_of unmarked hex = absent
cache_of (marked sha tree) hex = if same sha hex then hit else collision

unfoldable pub check_cache : Disk → Bytes → HashSpec → CacheState
unfolding cache_of
check_cache d dir expected = cache_of (d.slots dir) expected.hex

pub collision_error : Bytes → Diagnostic
collision_error dir =
    with_help
      (diagnostic_error
        (codes "store path collision at "
          ++ dir
          ++ codes " (different content shares this hash-prefix + name)")
        (codes "E0233"))
      (codes "astronomically rare; remove the path and retry, or report it")

-- The text behind the last `c`, and whether there is one.
after_last : ℕ → Bytes → Option Bytes
after_last c s = elim (cut c (reverse s)) [ none ↦ none | some (a, b) ↦ some (reverse a) ]

path_part : Bytes → Bytes
path_part url = elim (cut b'?' url) [ none ↦ url | some (a, b) ↦ a ]

base_part : Bytes → Bytes
base_part path = elim (after_last b'/' path) [ none ↦ path | some b ↦ b ]

extension : Bytes → Bytes
extension base = elim (after_last b'.' base) [ none ↦ codes ".archive" | some ext ↦ b'.' ∷ ext ]

unfoldable pub url_ext : Bytes → Bytes
unfolding after_last path_part base_part extension
url_ext url = extension (base_part (path_part url))

pub record FetchResult : Type 0 where
  pub store_dir : Bytes
  pub bin_path : Bytes
  pub was_already_present : Bool

abbrev pub make_result : Bytes → Bytes → Bool → FetchResult
make_result dir bin present = record {
  store_dir = dir;
  bin_path = if is_empty bin then dir else dir ++ b'/' ∷ bin;
  was_already_present = present;
}

abbrev pub store_path : Bytes → Bytes → Bytes
store_path hash16 name = hash16 ++ b'-' ∷ name

abbrev pub tmp_path : Bytes → Bytes
tmp_path dir = b'.' ∷ dir ++ codes ".tmp"

-- The disk afterwards and the result; no result stands for an extraction that read past its buffer.
abbrev pub Outcome : Type 0
Outcome = Disk × Option (Expected FetchResult)

abbrev pub refused : Disk → Diagnostic → Outcome
refused d e = (d, some (err e))

module _ (env : Env) where
  -- `crypto::verify_file`: a missing file has no digest.
  pub verify_file : Disk → Bytes → HashSpec → Bool
  verify_file d archive expected = elim (d.downloads archive) [
    | none ↦ false
    | some content ↦ same (env.digest expected.algo content) expected.hex
  ]

  pub actual_digest : Disk → Bytes → HashSpec → Bytes
  actual_digest d archive expected = elim (d.downloads archive) [
    | none ↦ codes "<unreadable>"
    | some content ↦ env.digest expected.algo content
  ]

  -- From the rename on. `tree` is what stands in the temporary directory beside the marker.
  unfoldable pub publish : Disk → Bytes → Bytes → HashSpec → List Effect → Outcome
  publish d dir bin expected tree =
      let cleaned : Disk = set_slot env d (tmp_path dir) missing in
      let lost : Disk = set_slot env cleaned dir env.raced in
      if env.rename_ok
      then (
        set_slot env cleaned dir (marked expected.hex tree),
        some (ok (make_result dir bin false)),
      )
      else elim (check_cache lost dir expected) [
        | hit ↦ (lost, some (ok (make_result dir bin true)))
        | _ ↦ refused lost (
            diagnostic_error
              (codes "failed to publish store path " ++ dir ++ codes ": " ++ env.message)
              (codes "E0232"))
      ]

  -- The marker is written before the publishing rename.
  pub mark_and_publish : Disk → Bytes → Bytes → HashSpec → List Effect → Outcome
  mark_and_publish d dir bin expected tree =
      if not env.marker_writable
      then refused (set_slot env d (tmp_path dir) missing)
          (diagnostic_error (codes "cannot write store marker") (codes "E0231"))
      else publish d dir bin expected tree

  -- Behind the extraction into the temporary directory.
  pub after_extract : Disk → Bytes → Bytes → HashSpec → Extraction → Outcome
  after_extract d dir bin expected none = (set_slot env d (tmp_path dir) unmarked, none)
  after_extract d dir bin expected (some (log, err e)) =
      refused (set_slot env d (tmp_path dir) missing) e
  after_extract d dir bin expected (some (log, ok u)) =
      mark_and_publish (set_slot env d (tmp_path dir) unmarked) dir bin expected log

  -- `realize_from_archive` where the cache holds nothing usable. An incomplete directory is removed.
  pub realize_absent : Disk → Bytes → Bytes → Bytes → HashSpec → Bytes → Outcome
  realize_absent d name dir archive expected bin =
      let cleared : Disk = set_slot env (set_slot env d dir missing) (tmp_path dir) missing in
      let tmp : FilePath = record {
        rooted = env.root.rooted;
        parts = env.root.parts ++ tmp_path dir ∷ [];
      } in
      if not (verify_file d archive expected)
      then refused d (
          with_help
            (diagnostic_error (codes "archive sha256 mismatch for " ++ name) (codes "E0230"))
            (codes "expected "
              ++ expected.hex
              ++ codes ", got "
              ++ actual_digest d archive expected))
      else after_extract cleared dir bin expected (
          extract env.writable env.codecs archive archive (d.downloads archive) tmp default_options)

  unfoldable pub realize_from_archive : Disk → Bytes → Bytes → Bytes → HashSpec → Bytes → Outcome
  unfolding realize_absent after_extract mark_and_publish verify_file actual_digest collision_error
  realize_from_archive d hash16 name archive expected bin =
      let dir : Bytes = store_path hash16 name in
      elim (check_cache d dir expected) [
        | hit ↦ (d, some (ok (make_result dir bin true)))
        | collision ↦ refused d (collision_error dir)
        | absent ↦ realize_absent d name dir archive expected bin
      ]

  -- The download of `realize_fetch`, and what follows it.
  unfoldable pub fetch_then_realize : Disk → Bytes → Bytes → Bytes → HashSpec → Bytes → Outcome
  fetch_then_realize d hash16 name url expected bin =
      let archive : Bytes = hash16 ++ url_ext url in
      elim (env.fetch url expected) [
        | err e ↦ refused (set_download d archive (env.spoiled url (d.downloads archive))) e
        | ok content ↦
            realize_from_archive (set_download d archive (some content)) hash16 name archive
              expected bin
      ]

  unfoldable pub realize_fetch : Disk → Bytes → Bytes → Bytes → HashSpec → Bytes → Outcome
  unfolding fetch_then_realize collision_error
  realize_fetch d hash16 name url expected bin =
      let dir : Bytes = store_path hash16 name in
      elim (check_cache d dir expected) [
        | hit ↦ (d, some (ok (make_result dir bin true)))
        | collision ↦ refused d (collision_error dir)
        | absent ↦ fetch_then_realize d hash16 name url expected bin
      ]
