-- ===== src/Engine/Stage.antt =====
-- The stages of a pipeline as JSON values, for `execute_pipeline` and `execute_exec` of
-- libs/kuli-engine/src/engine.cpp.
use kuli.Common.{true, ◌&&◌, List, [], ◌∷◌, ◌++◌, Option, none, some, if◌then◌else◌, Bytes, codes}
use kuli.Json.{JsonApi, JsonMake}
use kuli.Ir
use kuli.Engine.Value.{JsonText, ◌>>=◌, value_string, value_texts, join_words, under_cwd}

unfoldable pub join_lines : List Bytes → Bytes
join_lines [] = []
join_lines (l ∷ ls) = l ++ (b'\n' ∷ join_lines ls)

module _ {J : Type 0} (json : JsonApi J) where
  open json use {is_object, contains, at, get_string}

  unfoldable pub exec_cwd : J → Bytes → Bytes
  exec_cwd node cwd =
      if Ir.is_str json node (codes "cwd")
      then under_cwd cwd (get_string (at node (codes "cwd")))
      else cwd

  -- `s.at("cmd")` throws where there is no such key.
  abbrev pub member_at : J → Bytes → Option J
  member_at j key = if is_object j && contains j key then some (at j key) else none

module _ {J : Type 0} {json : JsonApi J} (make : JsonMake json) where
  open json use {contains, at}
  open make use {string, boolean, object}

  -- The Exec document of a stage.
  unfoldable pub stage_doc : J → Bytes → J → J → J
  stage_doc s input place cmd = object (
      (codes "schema", string (codes "kuli/ir/1.0"))
      ∷ (codes "kind", string (codes "Exec"))
      ∷ (
        codes "node",
        object (
            (codes "at", place)
            ∷ (codes "cmd", cmd)
            ∷ (codes "capture", boolean true)
            ∷ (codes "stdin", string input)
            ∷ (if contains s (codes "cwd") then (codes "cwd", at s (codes "cwd")) ∷ [] else [])),
      )
      ∷ [])

module _ {J : Type 0} (json : JsonApi J) (io : JsonText J) where
  -- The listing of `--dry-run`.
  unfoldable pub stage_lines : List J → Option (List Bytes)
  stage_lines [] = some []
  stage_lines (s ∷ stages) = do
    words ← value_texts json io s (codes "cmd")
    place ← value_string json io s (codes "at") (codes "local:")
    rest ← stage_lines stages
    some ((codes "  " ++ (place ++ (codes " | " ++ join_words words))) ∷ rest)
