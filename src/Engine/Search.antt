-- ===== src/Engine/Search.antt =====
-- `collect_paths`, FileQuery and TextSearch of libs/kuli-engine/src/engine.cpp. The file system and
-- the regular expressions of the standard library are arguments.
use kuli.Common.{
  ℕ, ◌+◌, Bool, true, false, not, ◌&&◌, ◌||◌, List, [], ◌∷◌, ◌++◌, Option, none, some,
  if◌then◌else◌, Bytes, codes, same, is_empty, leb, ltb, has_byte, starts_with, lower, components,
  getlines,
}
use kuli.Diag.{diagnostic_error, to_string}
use kuli.Json.{JsonApi}
use kuli.Engine.Value.{
  ℤ, pos, negsuc, JsonText, RawResult, lines_only, fail, ◌>>=◌, value_string, value_boolean,
  value_integer, value_texts, name_ok, sort_by, bytes_le, drop_return, under_cwd,
}

-- An entry below a root, in the order of the recursive iterator. The entries directly in the root
-- have depth 0, and those of a directory follow it, one deeper.
pub record Entry : Type 0 where
  pub path : Bytes
  pub filename : Bytes
  pub depth : ℕ
  pub is_dir : Bool

pub record FileSystem : Type 0 where
  -- The entries below an existing root that the iterator reaches without an error.
  pub below : Bytes → Option (List Entry)
  pub read : Bytes → Option Bytes

-- `max_depth > 0 && it.depth() + 1 >= max_depth`
unfoldable pub at_limit : ℤ → ℕ → Bool
at_limit (pos n) depth = ltb 0 n && leb n (depth + 1)
at_limit (negsuc n) depth = false

abbrev pub type_ok : Bytes → Bool → Bool
type_ok type is_dir =
    not (same type (codes "f") && is_dir) && not (same type (codes "d") && not is_dir)

-- The loop over the iterator. `skip` is the depth above which entries lie in a directory that is not
-- entered.
unfoldable pub collect_entries : List Bytes → Bytes → ℤ → Option ℕ → List Entry → List Bytes
collect_entries names type max_depth skip [] = []
collect_entries names type max_depth skip (e ∷ es) =
    let passed : Bool = elim skip [ none ↦ true | some d ↦ leb e.depth d ] in
    let next : Option ℕ = if at_limit max_depth e.depth then some e.depth else none in
    let rest = collect_entries names type max_depth (if passed then next else skip) es in
    if passed && (type_ok type e.is_dir && name_ok names e.filename) then e.path ∷ rest else rest

unfoldable pub collect_roots : FileSystem → Bytes → List Bytes → Bytes → ℤ → List Bytes → List Bytes
collect_roots fs cwd names type max_depth [] = []
collect_roots fs cwd names type max_depth (root ∷ roots) =
    let rest = collect_roots fs cwd names type max_depth roots in
    elim (fs.below (under_cwd cwd root)) [
      | none ↦ rest
      | some es ↦ collect_entries names type max_depth none es ++ rest
    ]

unfoldable pub contains_text : Bytes → Bytes → Bool
contains_text [] needle = is_empty needle
contains_text (c ∷ s) needle = starts_with needle (c ∷ s) || contains_text s needle

-- The order of `fs::path`: by components.
unfoldable pub parts_le : List Bytes → List Bytes → Bool
parts_le [] b = true
parts_le (x ∷ a) [] = false
parts_le (x ∷ a) (y ∷ b) = if same x y then parts_le a b else bytes_le x y

abbrev pub path_le : Bytes → Bytes → Bool
path_le a b = parts_le (components a) (components b)

-- The lines of one file, from line `n + 1` on; a NUL byte ends the search of the file.
unfoldable pub matching_lines : (Bytes → Bool) → Bytes → ℕ → List Bytes → List Bytes
matching_lines matches file n [] = []
matching_lines matches file n (raw ∷ more) =
    let line : Bytes = drop_return raw in
    let rest = matching_lines matches file (n + 1) more in
    if has_byte 0 raw
    then []
    else if matches line
    then (file ++ (b':' ∷ (to_string (n + 1) ++ (b':' ∷ line)))) ∷ rest
    else rest

unfoldable pub search_files : (Bytes → Bool) → FileSystem → List Bytes → List Bytes
search_files matches fs [] = []
search_files matches fs (f ∷ files) =
    let rest = search_files matches fs files in
    elim (fs.read f) [
      | none ↦ rest
      | some content ↦ matching_lines matches f 0 (getlines b'\n' content) ++ rest
    ]

-- `std::regex` with or without `icase`: the search in a line, or the message of its exception.
pub data Regex : Type 0 where
  compiled : (Bytes → Bool) → Regex
  malformed : Bytes → Regex

abbrev pub line_matches : Bool → Bytes → Bytes → Bool
line_matches icase pattern line =
    if icase then contains_text (lower line) (lower pattern) else contains_text line pattern

abbrev pub is_local : Bytes → Bool
is_local at = same at (codes "local:") || same at (codes "local")

module _ {J : Type 0} (json : JsonApi J) (io : JsonText J) where
  unfoldable pub collect_paths : FileSystem → J → Bytes → Bytes → Option (List Bytes)
  collect_paths fs node cwd type = do
    names ← value_texts json io node (codes "name")
    max_depth ← value_integer json io node (codes "maxDepth") (pos 0)
    roots ← value_texts json io node (codes "roots")
    some (collect_roots fs cwd names type max_depth roots)

  unfoldable pub execute_file_query : FileSystem → J → Bytes → Option RawResult
  execute_file_query fs node cwd = do
    at ← value_string json io node (codes "at") (codes "local:")
    (if not (is_local at)
        then some (
            fail 2
              (diagnostic_error
                (codes "FileQuery 'at: " ++ (at ++ codes "' is not supported yet (local: only)"))
                (codes "E0600"))
              [])
        else do
          type ← value_string json io node (codes "type") (codes "any")
          paths ← collect_paths fs node cwd type
          some (lines_only (sort_by bytes_le paths)))

  unfoldable pub search_lines : FileSystem → J → Bytes → (Bytes → Bool) → Option RawResult
  search_lines fs node cwd matches = do
    files ← collect_paths fs node cwd (codes "f")
    some (lines_only (search_files matches fs (sort_by path_le files)))

  unfoldable pub execute_text_search :
      FileSystem → (Bytes → Bool → Regex) → J → Bytes → Option RawResult
  execute_text_search fs regex node cwd = do
    at ← value_string json io node (codes "at") (codes "local:")
    (if not (is_local at)
        then some (
            fail 2
              (diagnostic_error
                (codes "TextSearch 'at: " ++ (at ++ codes "' is not supported yet (local: only)"))
                (codes "E0601"))
              [])
        else do
          pattern ← value_string json io node (codes "pattern") []
          (if is_empty pattern
              then some (
                  fail 2
                    (diagnostic_error (codes "TextSearch requires a non-empty 'pattern'")
                      (codes "E0602"))
                    [])
              else do
                icase ← value_boolean json io node (codes "ignoreCase") false
                use_regex ← value_boolean json io node (codes "regex") false
                (if use_regex
                    then elim (regex pattern icase) [
                      | malformed what ↦ some (
                          fail 2
                            (diagnostic_error (codes "TextSearch invalid regex: " ++ what)
                              (codes "E0603"))
                            [])
                      | compiled matches ↦ search_lines fs node cwd matches
                    ]
                    else search_lines fs node cwd (line_matches icase pattern))))
