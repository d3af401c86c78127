-- ===== src/Adapter.antt =====
-- libs/kuli-bp/src/adapter.cpp: a derivation graph as an ApplyDerivation document.
pub mod Members
pub mod Invariant
pub mod Traverse
pub mod Order
pub mod Values
pub mod Valid
pub mod Document
use kuli.Common.{
  ℕ, zero, suc, Bool, ◌||◌, List, [], ◌∷◌, ◌++◌, Option, none, some, map, length, if◌then◌else◌,
  Bytes, codes, any_same, is_empty,
}
use kuli.Graph.{
  DerivationGraph, Derivation, FetchSpec, FileEntry, fetch, composite, with_files, scripture, find,
  builder_name,
}
use kuli.Json.{JsonApi, JsonMake}

-- The two variables that `dfs` changes.
pub record Visit : Type 0 where
  pub seen : List Bytes
  pub order : List Bytes

-- The hashes that `dfs` goes on to, in the order of its loops.
unfoldable pub children : Derivation → List Bytes
children d = elim d.builder [
  | composite ↦ d.requires ++ d.components
  | with_files ↦ d.base ∷ []
  | _ ↦ []
]

pub visit_all : (Bytes → Visit → Option Visit) → List Bytes → Visit → Option Visit
visit_all visit [] v = some v
visit_all visit (h ∷ hs) v = elim (visit h v) [ none ↦ none | some v' ↦ visit_all visit hs v' ]

pub visit_node : DerivationGraph → (Bytes → Visit → Option Visit) → Bytes → Visit → Option Visit
visit_node g visit h v = elim (find g h) [
  | none ↦ some v
  | some d ↦ elim (visit_all visit (children d) v) [
    | none ↦ none
    | some v' ↦ some (record v' { order = v'.order ++ h ∷ [] })
  ]
]

-- `none` means that the fuel, the depth of the calls, ran out.
unfoldable pub dfs : DerivationGraph → ℕ → Bytes → Visit → Option Visit
unfolding visit_all visit_node
dfs g zero h v = none
dfs g (suc n) h v =
    if is_empty h || any_same h v.seen
    then some v
    else visit_node g (dfs g n) h (record v { seen = h ∷ v.seen })

abbrev pub unvisited : Visit
unvisited = record { seen = []; order = [] }

-- The call that `to_apply_ir` makes; one call more than there are nodes is deep enough.
unfoldable pub visit_root : DerivationGraph → Option Visit
visit_root g = dfs g (suc (length g.nodes)) g.root unvisited

-- The derivations of the order that the graph has.
unfoldable pub derivations_of : DerivationGraph → List Bytes → List Derivation
derivations_of g [] = []
derivations_of g (h ∷ hs) = elim (find g h) [
  | none ↦ derivations_of g hs
  | some d ↦ d ∷ derivations_of g hs
]

module _ {J : Type 0} {json : JsonApi J} (make : JsonMake json) where
  open make use {string, boolean, array, object}

  pub text_member : Bytes × Bytes → Bytes × J
  text_member (k, s) = (k, string s)

  pub fetch_json : FetchSpec → J
  fetch_json f = object (
      (codes "owner", string f.owner)
      ∷ (codes "repo", string f.repo)
      ∷ (codes "version", string f.version)
      ∷ (codes "assetPattern", string f.asset_pattern)
      ∷ (codes "sha256", string f.sha256)
      ∷ (codes "bin", string f.bin)
      ∷ (codes "shimDir", string f.shim_dir)
      ∷ (codes "postInstall", string f.post_install)
      ∷ [])

  pub file_json : FileEntry → J
  file_json f = object (
      (codes "path", string f.path)
      ∷ (codes "mode", string f.mode)
      ∷ (codes "content", string f.content)
      ∷ [])

  pub scripture_file_json : Bytes × Bytes → J
  scripture_file_json (path, content) =
      object ((codes "path", string path) ∷ (codes "content", string content) ∷ [])

  pub scripture_json : Derivation → J
  unfolding text_member scripture_file_json
  scripture_json d = object (
      (codes "version", string d.scripture.version)
      ∷ (codes "basenames", object (map text_member d.scripture.basenames))
      ∷ (codes "files", array (map scripture_file_json d.scripture.files))
      ∷ [])

  -- What the builder adds to the five members that every derivation has.
  pub builder_members : Derivation → List (Bytes × J)
  unfolding fetch_json file_json scripture_json
  builder_members d = elim d.builder [
    | fetch ↦ (codes "fetch", fetch_json d.fetch) ∷ []
    | composite ↦
        (codes "components", array (map string d.components))
        ∷ (codes "requires", array (map string d.requires))
        ∷ []
    | with_files ↦
        (codes "base", string d.base) ∷ (codes "files", array (map file_json d.files)) ∷ []
    | scripture ↦ (codes "scripture", scripture_json d) ∷ []
  ]

  unfoldable pub deriv_json : Derivation → J
  unfolding builder_members
  deriv_json d = object (
      (codes "hash", string d.hash)
      ∷ (codes "name", string d.name)
      ∷ (codes "storePath", string d.store_path)
      ∷ (codes "builder", string (builder_name d.builder))
      ∷ (codes "systemTarget", string d.system_target)
      ∷ builder_members d)

  unfoldable pub document : DerivationGraph → Bool → List Bytes → J
  document g dry_run order = object (
      (codes "schema", string (codes "kuli/ir/1.0"))
      ∷ (codes "kind", string (codes "ApplyDerivation"))
      ∷ (codes "options", object ((codes "dry_run", boolean dry_run) ∷ []))
      ∷ (
        codes "node",
        object (
            (codes "root", string g.root)
            ∷ (codes "derivations", array (map deriv_json (derivations_of g order)))
            ∷ []),
      )
      ∷ (codes "descent_trace", array [])
      ∷ (codes "sources", array [])
      ∷ [])

  unfoldable pub to_apply_ir : DerivationGraph → Bool → Option J
  to_apply_ir g dry_run = elim (visit_root g) [
    | none ↦ none
    | some v ↦ some (document g dry_run v.order)
  ]
