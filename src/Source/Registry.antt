-- ===== src/Source/Registry.antt =====
-- The source registry of libs/kuli-bp/src/source.cpp: its entries as files of flat TOML, and the
-- resolution of a blueprint's name. A source's name is a file name, so neither empty nor with a slash.
use kuli.Common.{
  Bool, true, false, List, [], ◌∷◌, ◌++◌, Option, none, some, if◌then◌else◌, Bytes, codes, same,
  is_empty, cut,
}
use kuli.Diag.{Diagnostic, diagnostic_error, with_help, Expected, ok, err}
use kuli.Json.{find_key}
use kuli.Engine.Value.{sort_by, bytes_le, under_cwd}
use kuli.Engine.Stage.{join_lines}
use kuli.Source.{parse_flat, toml_quote, parse_github}

pub record SourceEntry : Type 0 where
  pub name : Bytes
  pub url : Bytes
  pub ref : Bytes
  pub commit : Bytes
  pub added_at : Bytes
  pub official : Bool

-- The entries' files, by the names without the extension, and what the system answers.
pub record Registry : Type 0 where
  pub files : List (Bytes × Bytes)
  pub data_dir : Bytes
  pub exists : Bytes → Bool
  pub is_regular_file : Bytes → Bool

abbrev pub source_error : Bytes → Diagnostic
source_error message = diagnostic_error message (codes "E0800")

-- `kv[key]`
abbrev pub entry_value : List (Bytes × Bytes) → Bytes → Bytes
entry_value kv key = elim (find_key kv key) as (λ _. Bytes) [ none ↦ [] | some v ↦ v ]

unfoldable pub source_entry : Bytes → List (Bytes × Bytes) → Option SourceEntry
source_entry name kv =
    if is_empty (entry_value kv (codes "url"))
    then none
    else some (record {
      name = name;
      url = entry_value kv (codes "url");
      ref = entry_value kv (codes "ref");
      commit = entry_value kv (codes "commit");
      added_at = entry_value kv (codes "added_at");
      official = same (entry_value kv (codes "official")) (codes "true");
    })

-- `read_entry`, on the text of the file.
unfoldable pub read_entry : Bytes → Bytes → Option SourceEntry
read_entry name text = source_entry name (parse_flat text)

abbrev pub entry_line : Bytes → Bytes → Bytes
entry_line key value = key ++ (b' ' ∷ b'=' ∷ b' ' ∷ value)

unfoldable pub entry_lines : SourceEntry → List Bytes
entry_lines e =
    entry_line (codes "url") (toml_quote e.url)
    ∷ entry_line (codes "ref") (toml_quote e.ref)
    ∷ entry_line (codes "commit") (toml_quote e.commit)
    ∷ entry_line (codes "added_at") (toml_quote e.added_at)
    ∷ entry_line (codes "official") (if e.official then codes "true" else codes "false")
    ∷ []

abbrev pub put_file : List (Bytes × Bytes) → Bytes → Bytes → List (Bytes × Bytes)
put_file [] name text = (name, text) ∷ []
put_file ((n, t) ∷ files) name text =
    let rest = put_file files name text in
    if same n name then (name, text) ∷ files else (n, t) ∷ rest

-- `opened`: the temporary file can be written; `renamed`: it takes the entry's place, or the message.
unfoldable pub write_entry :
    Bool → Expected (Unit {0}) → Registry → SourceEntry → Registry × Expected (Unit {0})
write_entry false renamed reg e =
    (reg, err (source_error (codes "cannot write source registry entry: " ++ e.name)))
write_entry true (err d) reg e =
    (reg, err (source_error (codes "cannot publish source registry entry: " ++ d.message)))
write_entry true (ok u) reg e =
    (record reg { files = put_file reg.files e.name (join_lines (entry_lines e)) }, ok u)

abbrev pub kept_entries : List (Bytes × Bytes) → List SourceEntry
kept_entries [] = []
kept_entries ((n, t) ∷ files) =
    let rest = kept_entries files in elim (read_entry n t) [ none ↦ rest | some e ↦ e ∷ rest ]

unfoldable pub list_sources : Registry → List SourceEntry
list_sources reg = sort_by (λ a b. bytes_le a.name b.name) (kept_entries reg.files)

unfoldable pub find : Registry → Bytes → Option SourceEntry
find reg name = elim (find_key reg.files name) [ none ↦ none | some text ↦ read_entry name text ]

unfoldable pub is_local_source : Registry → SourceEntry → Bool
is_local_source reg e = elim (parse_github reg.exists e.url) as (λ _. Bool) [
  | none ↦ true
  | some g ↦ false
]

unfoldable pub source_root : Registry → SourceEntry → Bytes
source_root reg e = if is_local_source reg e then e.url else under_cwd reg.data_dir e.name

pub record ResolvedBlueprint : Type 0 where
  pub blueprint_file : Bytes
  pub source_root : Bytes
  pub source_name : Bytes

unfoldable pub blueprint_in : Registry → SourceEntry → Bytes → Option ResolvedBlueprint
blueprint_in reg e bp =
    let root : Bytes = source_root reg e in
    let file : Bytes = under_cwd (under_cwd root (codes "blueprints")) (bp ++ codes ".luau") in
    if reg.is_regular_file file
    then some (record { blueprint_file = file; source_root = root; source_name = e.name })
    else none

unfoldable pub hits : Registry → Bytes → List SourceEntry → List ResolvedBlueprint
hits reg bp [] = []
hits reg bp (e ∷ es) =
    let rest = hits reg bp es in elim (blueprint_in reg e bp) [ none ↦ rest | some r ↦ r ∷ rest ]

abbrev pub only_hit : Bytes → List ResolvedBlueprint → Expected ResolvedBlueprint
only_hit s [] = err (
    with_help
      (source_error (codes "blueprint '" ++ (s ++ codes "' not found in any registered source")))
      (codes "register one with `kuli bp src add <url|path>`"))
only_hit s (r ∷ []) = ok r
only_hit s (r ∷ q ∷ more) = err (
    with_help (source_error (codes "blueprint '" ++ (s ++ codes "' is ambiguous across sources")))
      (codes "qualify it as <source>/" ++ s))

-- `<source>/<name>`
unfoldable pub resolve_in : Registry → Bytes → Bytes → Expected ResolvedBlueprint
resolve_in reg src bp = elim (find reg src) [
  | none ↦ err (source_error (codes "no such source: " ++ src))
  | some e ↦ elim (blueprint_in reg e bp) [
    | none ↦ err (
        source_error
          (codes "blueprint '" ++ (bp ++ (codes "' not found in source '" ++ (src ++ codes "'")))))
    | some r ↦ ok r
  ]
]

unfoldable pub resolve : Registry → Bytes → Expected ResolvedBlueprint
resolve reg s = elim (cut b'/' s) [
  | none ↦ only_hit s (hits reg s (list_sources reg))
  | some (src, bp) ↦ resolve_in reg src bp
]

unfoldable pub resolve_blueprint_spec : Registry → Bytes → Expected Bytes
resolve_blueprint_spec reg spec =
    if reg.is_regular_file spec
    then ok spec
    else elim (resolve reg spec) [ err e ↦ err e | ok r ↦ ok r.blueprint_file ]
