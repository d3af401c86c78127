-- ===== src/Ir.antt =====
-- libs/kuli-ir: the validator of kuli/ir/1.0 documents, first error wins.
pub mod Derivation
pub mod Apply
pub mod Reads
pub mod Document
pub mod Errors
use kuli.Common.{
  Bool, true, false, not, ◌&&◌, ◌||◌, List, [], ◌∷◌, ◌++◌, if◌then◌else◌, Bytes, codes, same,
  length, ◌==◌, is_empty,
}
use kuli.Crypto.{all_hex}
use kuli.Diag.{
  Diagnostic, ir_validation, diagnostic_of, Expected, ok, err, ◌>>=◌, ◌>>◌, guard, for_each,
}
use kuli.Json.{JsonApi}

abbrev pub Check : Type 0
Check = Expected (Unit {0})

pub invalid : Bytes → Diagnostic
invalid msg = diagnostic_of ir_validation msg (codes "E0200")

unfoldable pub is_sha256_hex : Bytes → Bool
is_sha256_hex s = if not (length s == 64) then false else all_hex s

-- `std::set<std::string>`: `count`, over the inserted members in any order.
unfoldable pub set_count : List Bytes → Bytes → Bool
set_count [] h = false
set_count (x ∷ xs) h = same x h || set_count xs h

abbrev pub derivation_fields : List Bytes
derivation_fields = codes "hash" ∷ codes "name" ∷ codes "storePath" ∷ codes "builder" ∷ []

abbrev pub fetch_fields : List Bytes
fetch_fields =
    codes "owner" ∷ codes "repo" ∷ codes "version" ∷ codes "assetPattern" ∷ codes "sha256" ∷ []

abbrev pub builders : List Bytes
builders = codes "fetch" ∷ codes "composite" ∷ codes "withFiles" ∷ codes "scripture" ∷ []

module _ {J : Type 0} (json : JsonApi J) where
  open json use {
    is_object, is_array, is_string, is_boolean, is_number_integer, empty, contains, at, get_string,
    elements, values,
  }

  unfoldable pub is_str : J → Bytes → Bool
  is_str j key = contains j key && is_string (at j key)

  -- `j.contains(key) && j[key].is_array()`, and the same with `!j[key].empty()`.
  abbrev pub has_array : J → Bytes → Bool
  has_array j key = contains j key && is_array (at j key)

  abbrev pub has_items : J → Bytes → Bool
  has_items j key = has_array j key && not (empty (at j key))

  -- An absent key, or a value of the right type.
  abbrev pub optional : (J → Bool) → J → Bytes → Bool
  optional test j key = not (contains j key && not (test (at j key)))

  unfoldable pub check_fetch : J → Check
  check_fetch d = do
    guard (contains d (codes "fetch") && is_object (at d (codes "fetch")))
        (invalid (codes "fetch derivation missing 'fetch' object"))
    let f = at d (codes "fetch")
    for_each
        (λ k. guard (is_str f k) (invalid (codes "fetch missing string field '" ++ k ++ codes "'")))
        fetch_fields
    guard (is_sha256_hex (get_string (at f (codes "sha256"))))
        (invalid (codes "fetch sha256 must be 64 hex chars"))

  unfoldable pub check_scripture : J → Check
  check_scripture d = do
    guard (contains d (codes "scripture") && is_object (at d (codes "scripture")))
        (invalid (codes "scripture derivation missing 'scripture' object"))
    let s = at d (codes "scripture")
    guard
        (contains s (codes "basenames")
          && is_object (at s (codes "basenames"))
          && not (empty (at s (codes "basenames"))))
        (invalid (codes "scripture must declare at least one basename"))
    for_each
        (λ v.
          guard (is_string v)
            (invalid (codes "scripture basename must map to a string adapter path")))
        (values (at s (codes "basenames")))
    guard (has_array s (codes "files")) (invalid (codes "scripture missing 'files' array"))
    for_each
        (λ f.
          guard (is_str f (codes "path") && is_str f (codes "content"))
            (invalid (codes "scripture file needs string 'path' and 'content'")))
        (elements (at s (codes "files")))

  abbrev pub builder_of : J → Bytes
  builder_of d = get_string (at d (codes "builder"))

  abbrev pub hash_of : J → Bytes
  hash_of d = get_string (at d (codes "hash"))

  -- The body of the first loop, without the insertion into `hashes`.
  unfoldable pub check_derivation : J → Check
  check_derivation d = do
    guard (is_object d) (invalid (codes "each derivation must be an object"))
    for_each
        (λ f.
          guard (is_str d f)
            (invalid (codes "derivation missing string field '" ++ f ++ codes "'")))
        derivation_fields
    guard (set_count builders (builder_of d))
        (invalid (codes "unknown builder '" ++ builder_of d ++ codes "'"))
    (if same (builder_of d) (codes "fetch") then check_fetch d else ok tt)
    (if same (builder_of d) (codes "scripture") then check_scripture d else ok tt)

  -- The first loop: every derivation is checked, and its hash joins the set.
  unfoldable pub collect : List J → List Bytes → Expected (List Bytes)
  collect [] hashes = ok hashes
  collect (d ∷ ds) hashes = check_derivation d >>= λ _. collect ds (hash_of d ∷ hashes)

  unfoldable pub check_array : List Bytes → J → Bytes → Check
  check_array hashes d key =
      if has_array d key
      then for_each
          (λ h. guard (is_string h && set_count hashes (get_string h)) (
            invalid (
              codes "derivation '"
              ++ get_string (at d (codes "name"))
              ++ codes "' references unknown "
              ++ key
              ++ codes " hash")))
          (elements (at d key))
      else ok tt

  -- The body of the second loop.
  unfoldable pub check_refs : List Bytes → J → Check
  check_refs hashes d = do
    check_array hashes d (codes "components")
    check_array hashes d (codes "requires")
    guard
        (not (is_str d (codes "base") && not (set_count hashes (get_string (at d (codes "base"))))))
        (invalid (codes "withFiles derivation references unknown base hash"))

  abbrev pub derivations_of : J → List J
  derivations_of node = elements (at node (codes "derivations"))

  unfoldable pub validate_apply_derivation : J → Check
  validate_apply_derivation node = do
    guard (is_object node) (invalid (codes "node must be an object"))
    guard (is_str node (codes "root"))
        (invalid (codes "ApplyDerivation.node.root must be a string"))
    guard (has_array node (codes "derivations"))
        (invalid (codes "ApplyDerivation.node.derivations must be an array"))
    hashes ← collect (derivations_of node) []
    for_each (check_refs hashes) (derivations_of node)
    guard (set_count hashes (get_string (at node (codes "root"))))
        (invalid (codes "node.root is not among node.derivations"))

  abbrev pub must_be_string : Bytes → J → Check
  must_be_string msg r = guard (is_string r) (invalid msg)

  unfoldable pub validate_file_query : J → Check
  validate_file_query node = do
    guard (is_object node) (invalid (codes "FileQuery.node must be an object"))
    guard (optional is_string node (codes "at"))
        (invalid (codes "FileQuery.node.at must be a string URI"))
    guard (has_items node (codes "roots"))
        (invalid (codes "FileQuery.node.roots must be a non-empty array"))
    for_each (must_be_string (codes "FileQuery root must be a string"))
        (elements (at node (codes "roots")))
    guard (optional is_array node (codes "name"))
        (invalid (codes "FileQuery.node.name must be an array of globs"))

  unfoldable pub validate_text_search : J → Check
  validate_text_search node = do
    guard (is_object node) (invalid (codes "TextSearch.node must be an object"))
    guard (optional is_string node (codes "at"))
        (invalid (codes "TextSearch.node.at must be a string URI"))
    guard (has_items node (codes "roots"))
        (invalid (codes "TextSearch.node.roots must be a non-empty array"))
    for_each (must_be_string (codes "TextSearch root must be a string"))
        (elements (at node (codes "roots")))
    guard (is_str node (codes "pattern") && not (is_empty (get_string (at node (codes "pattern")))))
        (invalid (codes "TextSearch.node.pattern must be a non-empty string"))
    guard (optional is_array node (codes "name"))
        (invalid (codes "TextSearch.node.name must be an array of globs"))

  unfoldable pub validate_simple_read : J → Bytes → Bool → Check
  validate_simple_read node what allow_name = do
    guard (is_object node) (invalid (what ++ codes ".node must be an object"))
    guard (optional is_string node (codes "at"))
        (invalid (what ++ codes ".node.at must be a string URI"))
    guard (not allow_name || optional is_array node (codes "name"))
        (invalid (what ++ codes ".node.name must be an array of globs"))
    guard (not allow_name || optional is_number_integer node (codes "pid"))
        (invalid (what ++ codes ".node.pid must be an integer"))

  unfoldable pub check_stage : J → Check
  check_stage s = do
    guard (is_object s && has_items s (codes "cmd"))
        (invalid (codes "each Pipeline stage needs a non-empty 'cmd' array"))
    for_each (must_be_string (codes "Pipeline stage cmd entries must be strings"))
        (elements (at s (codes "cmd")))
    guard (optional is_string s (codes "at"))
        (invalid (codes "Pipeline stage 'at' must be a string"))

  unfoldable pub validate_pipeline : J → Check
  validate_pipeline node = do
    guard (is_object node) (invalid (codes "Pipeline.node must be an object"))
    guard (has_items node (codes "stages"))
        (invalid (codes "Pipeline.node.stages must be a non-empty array"))
    for_each check_stage (elements (at node (codes "stages")))

  unfoldable pub validate_exec : J → Check
  validate_exec node = do
    guard (is_object node) (invalid (codes "Exec.node must be an object"))
    guard (optional is_string node (codes "at"))
        (invalid (codes "Exec.node.at must be a string URI"))
    guard (has_items node (codes "cmd"))
        (invalid (codes "Exec.node.cmd must be a non-empty argv array"))
    for_each (must_be_string (codes "Exec.node.cmd entries must be strings"))
        (elements (at node (codes "cmd")))
    guard (optional is_string node (codes "cwd")) (invalid (codes "Exec.node.cwd must be a string"))
    guard (optional is_boolean node (codes "capture"))
        (invalid (codes "Exec.node.capture must be a boolean"))
    guard (optional is_string node (codes "stdin"))
        (invalid (codes "Exec.node.stdin must be a string"))

  -- The dispatch on the kind.
  unfoldable pub validate_node : Bytes → J → Check
  validate_node k node =
      if same k (codes "ApplyDerivation")
      then validate_apply_derivation node
      else if same k (codes "FileQuery")
      then validate_file_query node
      else if same k (codes "TextSearch")
      then validate_text_search node
      else if same k (codes "ProcessQuery")
      then validate_simple_read node (codes "ProcessQuery") true
      else if same k (codes "NetworkQuery")
      then validate_simple_read node (codes "NetworkQuery") false
      else if same k (codes "HostFacts")
      then validate_simple_read node (codes "HostFacts") false
      else if same k (codes "EnvQuery")
      then validate_simple_read node (codes "EnvQuery") true
      else if same k (codes "Exec")
      then validate_exec node
      else if same k (codes "Pipeline")
      then validate_pipeline node
      else if same k (codes "EnvSet") || same k (codes "FileOp")
      then ok tt
      else err (invalid (codes "unknown IR kind '" ++ k ++ codes "'"))

  unfoldable pub validate : J → Check
  unfolding validate_node
  validate doc = do
    guard (is_object doc) (invalid (codes "IR document must be a JSON object"))
    guard
        (is_str doc (codes "schema")
          && same (get_string (at doc (codes "schema"))) (codes "kuli/ir/1.0"))
        (invalid (codes "schema must be \"kuli/ir/1.0\""))
    guard (is_str doc (codes "kind")) (invalid (codes "missing string field 'kind'"))
    guard (contains doc (codes "node")) (invalid (codes "missing 'node'"))
    validate_node (get_string (at doc (codes "kind"))) (at doc (codes "node"))
