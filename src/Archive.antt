-- ===== src/Archive.antt =====
-- libs/kuli-store/src/archive.cpp: where an archive entry may be placed, on POSIX paths. The reading
-- of the formats is in the children.
pub mod Paths
pub mod Inside
pub mod Place
pub mod Tar
pub mod Gzip
pub mod Format
use kuli.Common.{
  ℕ, Bool, true, false, not, ◌&&◌, ◌||◌, List, [], ◌∷◌, ◌++◌, Option, none, some, map, ◌==◌,
  if◌then◌else◌, Bytes, codes, same, length, drop, is_empty, starts_with, cut, getlines, any_same,
  components,
}
use kuli.Diag.{Diagnostic, general, diagnostic_of, with_help, Expected, ok, err, ◌>>=◌}
use kuli.Archive.Paths.{
  FilePath, join, lexically_normal, lexically_relative, leads_out, path_string,
}

pub archive_error : Bytes → Bytes → Diagnostic
archive_error msg code = diagnostic_of general msg code

unfoldable pub first_segment : Bytes → Bytes
first_segment name = elim (cut b'/' name) [ none ↦ [] | some (a, _) ↦ a ]

-- `rel.size() >= 2 && rel[1] == ':'`.
drive_qualified : Bytes → Bool
drive_qualified (a ∷ b ∷ s) = b == b':'
drive_qualified _ = false

absolute : Bytes → Bool
absolute [] = false
absolute (c ∷ s) = c == b'/' || c == b'\\'

unfoldable pub is_unsafe : Bytes → Bool
unfolding drive_qualified absolute
is_unsafe rel =
    if is_empty rel
    then false
    else if absolute rel
    then true
    else if drive_qualified rel
    then true
    else any_same (b'.' ∷ b'.' ∷ []) (getlines b'/' rel)

any_prefix : Bytes → List Bytes → Bool
any_prefix s [] = false
any_prefix s (p ∷ ps) = starts_with p s || any_prefix s ps

unfoldable pub starts_with_any : Bytes → List Bytes → Bool
unfolding any_prefix
starts_with_any s [] = true
starts_with_any s (p ∷ ps) = any_prefix s (p ∷ ps)

-- `std::replace(n.begin(), n.end(), '\\', '/')`.
pub slashes : Bytes → Bytes
slashes s = map (λ c. if c == b'\\' then b'/' else c) s

-- The loop over the names: `top` is absent while `have` is false.
common_top_from : Option Bytes → List Bytes → Bytes
common_top_from none [] = []
common_top_from (some top) [] = top
common_top_from top (n ∷ ns) =
    let name = slashes n in
    let seg = first_segment name in
    let skipped = common_top_from top ns in
    let started = common_top_from (some seg) ns in
    if is_empty name
    then skipped
    else if is_empty seg
    then []
    else elim top [ none ↦ started | some t ↦ if same t seg then skipped else [] ]

unfoldable pub find_common_top : List Bytes → Bytes
unfolding common_top_from slashes first_segment
find_common_top names = common_top_from none names

pub record ExtractOptions : Type 0 where
  pub paths : List Bytes
  pub flatten_top_dir : Bool

abbrev pub default_options : ExtractOptions
default_options = record { paths = []; flatten_top_dir = true }

-- What one entry does to the file system.
pub data Effect : Type 0 where
  nothing : Effect
  create_directories : FilePath → Effect
  write_file : FilePath → Bytes → Effect
  -- A write that failed: its directories are made, and the file may be there, cut short.
  half_written : FilePath → Effect

-- What becomes of an entry: an effect, a diagnostic, or a diagnostic behind a failed write.
pub data Placement : Type 0 where
  placed : Effect → Placement
  rejected : Diagnostic → Placement
  failed : FilePath → Diagnostic → Placement

-- `while (!rel.empty() && rel.back() == '/') rel.pop_back();`
pub strip_slashes : Bytes → Bytes
strip_slashes [] = []
strip_slashes (c ∷ s) =
    let rest = strip_slashes s in if is_empty rest && c == b'/' then [] else c ∷ rest

-- The entry's path below the flattened directory; `none` is the entry of that directory itself.
unfoldable pub flatten : Bytes → Bytes → Option Bytes
flatten top name =
    if is_empty top
    then some name
    else if starts_with (top ++ b'/' ∷ []) name
    then some (drop (length (top ++ b'/' ∷ [])) name)
    else if same name top || same name (top ++ b'/' ∷ [])
    then none
    else some name

-- `TarEntry`, and what `extract_zip` knows of an entry.
pub record ArchiveEntry : Type 0 where
  pub name : Bytes
  pub is_dir : Bool
  pub is_symlink : Bool
  pub content : Bytes

-- `writable` says whether a file can be written at a path; it is the file system's.
module _ (writable : FilePath → Bool) where
  -- `place_entry` behind the flattening.
  pub place_rel : FilePath → Bytes → Bytes → Bool → Bool → Bytes → ExtractOptions → Placement
  place_rel dest name rel is_dir is_symlink content opts =
      let target = join dest (components rel) in
      let rc = lexically_relative (lexically_normal target) (lexically_normal dest) in
      if is_empty rel
      then placed nothing
      else if is_unsafe rel
      then rejected (
          with_help (archive_error (codes "unsafe path in archive: " ++ name) (codes "E0214"))
            (codes "archive entries may not escape the destination"))
      else if is_symlink
      then rejected
          (archive_error (codes "symlink entry not allowed in archive: " ++ name) (codes "E0222"))
      else if not (starts_with_any rel opts.paths)
      then placed nothing
      else if leads_out rc
      then rejected
          (archive_error (codes "archive entry escapes destination: " ++ name) (codes "E0214"))
      else if is_dir
      then placed (create_directories target)
      else if not (writable target)
      then failed target
          (archive_error (codes "failed to write " ++ path_string target) (codes "E0216"))
      else placed (write_file target content)

  unfoldable pub place_entry :
      FilePath → Bytes → Bool → Bool → Bytes → Bytes → ExtractOptions → Placement
  unfolding place_rel slashes strip_slashes
  place_entry dest raw is_dir is_symlink content common_top opts =
      let name = slashes raw in
      elim (flatten common_top name) [
        | none ↦ placed nothing
        | some rel ↦ place_rel dest name (strip_slashes rel) is_dir is_symlink content opts
      ]

  -- The loop over the entries, with the effects so far: an error stops it and leaves them.
  pub place_all :
      FilePath
      → Bytes
      → ExtractOptions
      → List ArchiveEntry
      → List Effect
      → List Effect × Expected (Unit {0})
  place_all dest top opts [] done = (done, ok tt)
  place_all dest top opts (e ∷ es) done =
      elim (place_entry dest e.name e.is_dir e.is_symlink e.content top opts) [
        | placed eff ↦ place_all dest top opts es (done ++ eff ∷ [])
        | rejected d ↦ (done, err d)
        | failed target d ↦ (done ++ half_written target ∷ [], err d)
      ]
