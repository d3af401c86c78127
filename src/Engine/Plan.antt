-- ===== src/Engine/Plan.antt =====
-- `expand_plan` of libs/kuli-engine/src/engine.cpp, and the lines of a dry run.
use kuli.Common.{
  List, [], ◌∷◌, ◌++◌, Option, some, map, if◌then◌else◌, Bytes, codes, is_empty, same, take, length,
}
use kuli.Diag.{to_string}
use kuli.Json.{JsonApi, JsonMake}
use kuli.Engine.Value.{JsonText, ◌>>=◌, value_json, value_string}

module _ {J : Type 0} {json : JsonApi J} (make : JsonMake json) (io : JsonText J) where
  open json use {elements, at}
  open make use {string, object}

  abbrev pub text_of : J → Bytes → Option Bytes
  text_of j key = value_string json io j key []

  abbrev pub object_of : J → Bytes → Option J
  object_of j key = value_json json io j key (object [])

  abbrev pub plan_step : Bytes → List (Bytes × J) → J
  plan_step op more = object ((codes "op", string op) ∷ more)

  fetch_steps : J → Bytes → Option (List J)
  fetch_steps d name = do
    fetch ← object_of d (codes "fetch")
    bin ← text_of fetch (codes "bin")
    shim_dir ← text_of fetch (codes "shimDir")
    some (
        (if is_empty bin
          then []
          else plan_step (codes "writeShim")
              ((codes "name", string name) ∷ (codes "target", string bin) ∷ [])
            ∷ [])
        ++ (if is_empty shim_dir
            then []
            else plan_step (codes "writeShimDir")
                ((codes "name", string name) ∷ (codes "dir", string shim_dir) ∷ [])
              ∷ []))

  scripture_steps : J → Bytes → Option (List J)
  scripture_steps d name = do
    sc ← object_of d (codes "scripture")
    basenames ← object_of sc (codes "basenames")
    some (
        map
          (λ alias.
            plan_step (codes "installBasename")
              ((codes "alias", string alias) ∷ (codes "name", string name) ∷ []))
          (io.keys basenames))

  builder_steps : Bytes → J → Bytes → Option (List J)
  unfolding fetch_steps scripture_steps
  builder_steps builder d name =
      if same builder (codes "fetch")
      then fetch_steps d name
      else if same builder (codes "withFiles")
      then some (plan_step (codes "deployFiles") ((codes "name", string name) ∷ []) ∷ [])
      else if same builder (codes "scripture")
      then scripture_steps d name
      else some []

  deriv_steps : J → Option (List J)
  unfolding builder_steps
  deriv_steps d = do
    builder ← text_of d (codes "builder")
    hash ← text_of d (codes "hash")
    name ← text_of d (codes "name")
    store_path ← text_of d (codes "storePath")
    more ← builder_steps builder d name
    some (
        plan_step (codes "realize") (
          (codes "hash", string hash)
          ∷ (codes "name", string name)
          ∷ (codes "storePath", string store_path)
          ∷ (codes "builder", string builder)
          ∷ [])
        ∷ more)

  all_steps : List J → Option (List J)
  unfolding deriv_steps
  all_steps [] =
      some
        (plan_step (codes "envSetPath") ((codes "entry", string (codes "~/.local/bin")) ∷ []) ∷ [])
  all_steps (d ∷ ds) = do steps ← deriv_steps d; more ← all_steps ds; some (steps ++ more)

  -- The steps for the derivations that the document lists.
  unfoldable pub expand_plan : List J → Option (List J)
  unfolding all_steps
  expand_plan ds = all_steps ds

  realize_line : J → Option (List Bytes)
  realize_line s = do
    h ← text_of s (codes "hash")
    name ← text_of s (codes "name")
    builder ← text_of s (codes "builder")
    some (
        (codes "  realize "
          ++ (name ++ (codes " (" ++ (take 12 h ++ (codes ", " ++ (builder ++ codes ")"))))))
        ∷ [])

  one_text : Bytes → Bytes → Bytes → J → Option (List Bytes)
  one_text before key behind s = text_of s key >>= λ t. some ((before ++ (t ++ behind)) ∷ [])

  basename_line : J → Option (List Bytes)
  basename_line s = do
    alias ← text_of s (codes "alias")
    some ((codes "  basename " ++ (alias ++ (codes " -> kuli --basename " ++ alias))) ∷ [])

  step_lines : J → Option (List Bytes)
  unfolding realize_line one_text basename_line
  step_lines s = do
    op ← text_of s (codes "op")
    (if same op (codes "realize")
        then realize_line s
        else if same op (codes "writeShim")
        then one_text (codes "  shim    ") (codes "target") [] s
        else if same op (codes "writeShimDir")
        then one_text (codes "  shim*   ") (codes "dir") (codes "/*") s
        else if same op (codes "installBasename")
        then basename_line s
        else if same op (codes "envSetPath")
        then one_text (codes "  env     PATH += ") (codes "entry") [] s
        else some [])

  plan_lines : List J → Option (List Bytes)
  unfolding step_lines
  plan_lines [] = some []
  plan_lines (s ∷ steps) = do ls ← step_lines s; more ← plan_lines steps; some (ls ++ more)

  -- What a dry run prints above its last two lines.
  unfoldable pub preview : List J → List J → Option (List Bytes)
  unfolding plan_lines
  preview ds plan = do
    ls ← plan_lines plan
    some ((codes "dry-run: would apply " ++ (to_string (length ds) ++ codes " derivation(s)")) ∷ ls)
