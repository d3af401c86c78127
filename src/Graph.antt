-- ===== src/Graph.antt =====
-- libs/kuli-luau/include/kuli/luau/derivation.hpp: the graph that a blueprint evaluates to.
use kuli.Common.{List, [], ◌∷◌, Option, none, some, if◌then◌else◌, Bytes, codes, same}

pub data Builder : Type 0 where
  fetch composite with_files scripture : Builder

unfoldable pub builder_name : Builder → Bytes
builder_name fetch = codes "fetch"
builder_name composite = codes "composite"
builder_name with_files = codes "withFiles"
builder_name scripture = codes "scripture"

pub record FileEntry : Type 0 where
  pub path : Bytes
  pub mode : Bytes
  pub content : Bytes

pub record FetchSpec : Type 0 where
  pub owner : Bytes
  pub repo : Bytes
  pub version : Bytes
  pub asset_pattern : Bytes
  pub sha256 : Bytes
  pub bin : Bytes
  pub shim_dir : Bytes
  pub post_install : Bytes

-- The two maps are their entries in the order of the keys.
pub record ScriptureSpec : Type 0 where
  pub version : Bytes
  pub basenames : List (Bytes × Bytes)
  pub files : List (Bytes × Bytes)

pub record Derivation : Type 0 where
  pub builder : Builder
  pub hash : Bytes
  pub name : Bytes
  pub store_path : Bytes
  pub system_target : Bytes
  pub fetch : FetchSpec
  pub components : List Bytes
  pub requires : List Bytes
  pub base : Bytes
  pub files : List FileEntry
  pub scripture : ScriptureSpec

-- The map is keyed by the derivations' own hashes: it is its values in the order of the keys.
pub record DerivationGraph : Type 0 where
  pub nodes : List Derivation
  pub root : Bytes

unfoldable pub find_node : List Derivation → Bytes → Option Derivation
find_node [] h = none
find_node (d ∷ ds) h = let rest = find_node ds h in if same d.hash h then some d else rest

-- `DerivationGraph::find`.
unfoldable pub find : DerivationGraph → Bytes → Option Derivation
unfolding find_node
find g h = find_node g.nodes h
