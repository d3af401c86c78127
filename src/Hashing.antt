-- ===== src/Hashing.antt =====
-- libs/kuli-luau/src/canonical_json.cpp: the hash of a derivation is the digest of its inputs as JSON text.
-- The digest and the JSON library's text are arguments. The assertion of debug builds that no number
-- occurs is left out: the values built here hold none.
use kuli.Common.{List, [], ◌∷◌, ◌++◌, Bytes, codes, map, take}
use kuli.Graph.{FetchSpec, FileEntry, ScriptureSpec}
use kuli.Json.{JsonApi, JsonMake}
use kuli.Engine.Value.{JsonText, sort_by, bytes_le}

module _ {J : Type 0} {json : JsonApi J} (make : JsonMake json) (io : JsonText J)
    (sha256 : Bytes → Bytes) where
  open make use {string, array, object}

  unfoldable pub sha256_of : J → Bytes
  sha256_of j = sha256 (io.dump j)

  unfoldable pub hash_fetch : FetchSpec → Bytes → Bytes → Bytes
  hash_fetch f name system_target = sha256_of (
      object (
        (codes "builder_cmd", string (codes "fetch"))
        ∷ (codes "name", string name)
        ∷ (codes "system_target", string system_target)
        ∷ (
          codes "source",
          object (
              (codes "owner", string f.owner)
              ∷ (codes "repo", string f.repo)
              ∷ (codes "version", string f.version)
              ∷ (codes "assetPattern", string f.asset_pattern)
              ∷ []),
        )
        ∷ (codes "source_sha256", string f.sha256)
        ∷ (codes "post_install", string f.post_install)
        ∷ (codes "env", object [])
        ∷ []))

  unfoldable pub hash_composite : Bytes → List Bytes → List Bytes → Bytes
  hash_composite name components requires = sha256_of (
      object (
        (codes "builder_cmd", string (codes "composite"))
        ∷ (codes "name", string name)
        ∷ (codes "components", array (map string components))
        ∷ (codes "requires", array (map string requires))
        ∷ []))

  abbrev pub hashed_file : FileEntry → J
  hashed_file f = object (
      (codes "path", string f.path)
      ∷ (codes "mode", string f.mode)
      ∷ (codes "content_sha256", string (sha256 f.content))
      ∷ [])

  unfoldable pub hash_withfiles : Bytes → Bytes → List FileEntry → Bytes
  hash_withfiles name base_hash files = sha256_of (
      object (
        (codes "builder_cmd", string (codes "withFiles"))
        ∷ (codes "name", string name)
        ∷ (codes "base", string base_hash)
        ∷ (codes "files", array (map hashed_file (sort_by (λ a b. bytes_le a.path b.path) files)))
        ∷ []))

  abbrev pub hashed_resource : Bytes × Bytes → J
  hashed_resource (path, content) =
      object ((codes "path", string path) ∷ (codes "content_sha256", string (sha256 content)) ∷ [])

  abbrev pub basename_member : Bytes × Bytes → Bytes × J
  basename_member (alias, rel) = (alias, string rel)

  unfoldable pub hash_scripture : Bytes → ScriptureSpec → Bytes
  hash_scripture name s = sha256_of (
      object (
        (codes "builder_cmd", string (codes "scripture"))
        ∷ (codes "name", string name)
        ∷ (codes "version", string s.version)
        ∷ (codes "basenames", object (map basename_member s.basenames))
        ∷ (codes "files", array (map hashed_resource s.files))
        ∷ []))

-- A hash has 64 digits.
unfoldable pub store_path_for : Bytes → Bytes → Bytes
store_path_for hash name = take 16 hash ++ (b'-' ∷ name)

unfoldable pub store_path_for_scripture : Bytes → Bytes → Bytes
store_path_for_scripture hash name = store_path_for hash name ++ codes "-scripture"
