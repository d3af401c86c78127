-- ===== src/Generation/Profile.antt =====
-- `Profile` of libs/kuli-bp/src/generation.cpp: the manifests, the pointer to the current generation, and
-- the operations on them. The manifests' JSON form is left out: a manifest is read as it was written.
use kuli.Common.{
  map, ℕ, suc, Bool, true, false, ◌&&◌, List, [], ◌∷◌, ◌++◌, Option, none, some, if◌then◌else◌,
  Bytes, codes, any_same, is_empty, ◌==◌, leb,
}
use kuli.Graph.{FileEntry, Derivation, DerivationGraph, fetch, with_files, scripture}
use kuli.Generation.{
  Files, Host, expand_path, deploy_file, remove_deployed, write_shim, write_basename_shim,
  remove_shim, shim_basename,
}

pub record Shim : Type 0 where
  pub alias : Bytes
  pub bin_rel : Bytes

pub record Basename : Type 0 where
  pub alias : Bytes
  pub adapter : Bytes

pub record GenDeriv : Type 0 where
  pub hash : Bytes
  pub name : Bytes
  pub store_path : Bytes
  pub shims : List Shim
  pub files : List FileEntry
  pub basenames : List Basename

pub record Manifest : Type 0 where
  pub id : ℕ
  pub parent : ℕ
  pub created_at : Bytes
  pub set_hash : Bytes
  pub env : List Bytes
  pub derivations : List GenDeriv

-- The manifests by their ids, and the pointer, 0 where there is none.
pub record Profile : Type 0 where
  pub manifests : List (ℕ × Manifest)
  pub current_id : ℕ

unfoldable pub insert : ℕ → List ℕ → List ℕ
insert x [] = x ∷ []
insert x (y ∷ ys) = let rest = insert x ys in if leb x y then x ∷ y ∷ ys else y ∷ rest

unfoldable pub sort : List ℕ → List ℕ
sort [] = []
sort (x ∷ xs) = insert x (sort xs)

unfoldable pub ids_of : List (ℕ × Manifest) → List ℕ
ids_of [] = []
ids_of ((i, g) ∷ ms) = i ∷ ids_of ms

-- `Profile::list`.
unfoldable pub list : Profile → List ℕ
unfolding ids_of
list p = sort (ids_of p.manifests)

unfoldable pub find_id : List (ℕ × Manifest) → ℕ → Option Manifest
find_id [] id = none
find_id ((i, g) ∷ ms) id = let rest = find_id ms id in if i == id then some g else rest

unfoldable pub load : Profile → ℕ → Option Manifest
unfolding find_id
load p id = find_id p.manifests id

unfoldable pub current : Profile → Option Manifest
current p = if p.current_id == 0 then none else load p p.current_id

-- The pointer file can be opened for writing, or not: behind `out << id` the number is in the buffer of the
-- stream, so the stream is good. What the buffer leaves on a device that is full is not modelled.
unfoldable pub set_current : Bool → Profile → ℕ → Profile × Bool
set_current writable p id = elim (load p id) [
  | none ↦ (p, false)
  | some g ↦ if writable then (record p { current_id = id }, true) else (p, false)
]

-- `ids.empty() ? 0 : ids.back()`.
unfoldable pub back_or_zero : List ℕ → ℕ
back_or_zero [] = 0
back_or_zero (x ∷ []) = x
back_or_zero (x ∷ y ∷ ys) = back_or_zero (y ∷ ys)

hash_lines : List Derivation → Bytes
hash_lines [] = []
hash_lines (d ∷ ds) = d.hash ++ b'\n' ∷ hash_lines ds

-- `sha256` is the digest; the nodes are in the order of their hashes already.
unfoldable pub derivation_set_hash : (Bytes → Bytes) → DerivationGraph → Bytes
unfolding hash_lines
derivation_set_hash sha256 g = sha256 (codes "root:" ++ g.root ++ b'\n' ∷ hash_lines g.nodes)

basename_of : Bytes × Bytes → Basename
basename_of (alias, adapter) = record { alias = alias; adapter = adapter }

deriv_of : Derivation → GenDeriv
deriv_of d = record {
  hash = d.hash;
  name = d.name;
  store_path = d.store_path;
  shims = elim d.builder [
    | fetch ↦
        if is_empty d.fetch.bin
        then []
        else record { alias = shim_basename d.fetch.bin; bin_rel = d.fetch.bin } ∷ []
    | _ ↦ []
  ];
  files = elim d.builder [ with_files ↦ d.files | _ ↦ [] ];
  basenames = elim d.builder [ scripture ↦ map basename_of d.scripture.basenames | _ ↦ [] ];
}

derivs_of : List Derivation → List GenDeriv
derivs_of [] = []
derivs_of (d ∷ ds) = deriv_of d ∷ derivs_of ds

-- The profile afterwards and the new manifest, which is stored where its file can be written.
unfoldable pub commit :
    (Bytes → Bytes) → Bytes → Bool → Profile → DerivationGraph → Profile × Manifest
unfolding basename_of deriv_of derivs_of
commit sha256 now writable p g =
    let gen : Manifest = record {
      id = suc (back_or_zero (list p));
      parent = p.current_id;
      created_at = now;
      set_hash = derivation_set_hash sha256 g;
      env = codes "~/.local/bin" ∷ [];
      derivations = derivs_of g.nodes;
    } in
    (if writable then record p { manifests = (gen.id, gen) ∷ p.manifests } else p, gen)

pub shim_aliases : List Shim → List Bytes
shim_aliases [] = []
shim_aliases (s ∷ ss) = s.alias ∷ shim_aliases ss

pub basename_aliases : List Basename → List Bytes
basename_aliases [] = []
basename_aliases (b ∷ bs) = b.alias ∷ basename_aliases bs

-- `target_aliases` and `target_files`.
pub aliases_of : List GenDeriv → List Bytes
aliases_of [] = []
aliases_of (d ∷ ds) = (shim_aliases d.shims ++ basename_aliases d.basenames) ++ aliases_of ds

module _ (host : Host) where
  file_paths : List FileEntry → List Bytes
  file_paths [] = []
  file_paths (f ∷ fs) = expand_path host f.path ∷ file_paths fs

  pub files_of : List GenDeriv → List Bytes
  files_of [] = []
  files_of (d ∷ ds) = file_paths d.files ++ files_of ds

  remove_aliases : Bytes → List Bytes → List Bytes → Files → Files
  remove_aliases bin_dir kept [] w = w
  remove_aliases bin_dir kept (a ∷ more) w =
      remove_aliases bin_dir kept more (if any_same a kept then w else remove_shim w bin_dir a)

  remove_files : List Bytes → List Bytes → Files → Files
  remove_files kept [] w = w
  remove_files kept (p ∷ ps) w =
      remove_files kept ps (if any_same p kept then w else remove_deployed w p)

  -- The first loop of `activate`.
  pub remove_stale : Bytes → List Bytes → List Bytes → List GenDeriv → Files → Files
  remove_stale bin_dir aliases files [] w = w
  remove_stale bin_dir aliases files (d ∷ ds) w = remove_stale bin_dir aliases files ds (
      remove_files files (file_paths d.files) (
        remove_aliases bin_dir aliases (basename_aliases d.basenames)
          (remove_aliases bin_dir aliases (shim_aliases d.shims) w)))

  write_shims : Bytes → Bytes → Bytes → List Shim → Files × Bool → Files × Bool
  write_shims bin_dir store_root store_path [] (w, good) = (w, good)
  write_shims bin_dir store_root store_path (s ∷ ss) (w, good) =
      let r : Files × Bool =
        write_shim host w bin_dir s.alias (store_root ++ b'/' ∷ store_path ++ b'/' ∷ s.bin_rel) in
      write_shims bin_dir store_root store_path ss (r.0, good && r.1)

  deploy_files : List FileEntry → Files × Bool → Files × Bool
  deploy_files [] (w, good) = (w, good)
  deploy_files (f ∷ fs) (w, good) =
      let r : Files × Bool = deploy_file host w (expand_path host f.path) f.content in
      deploy_files fs (r.0, good && r.1)

  write_basenames : Bytes → List Basename → Files × Bool → Files × Bool
  write_basenames bin_dir [] (w, good) = (w, good)
  write_basenames bin_dir (b ∷ bs) (w, good) =
      let r : Files × Bool = write_basename_shim host w bin_dir b.alias in
      write_basenames bin_dir bs (r.0, good && r.1)

  -- The second loop.
  pub project : Bytes → Bytes → List GenDeriv → Files × Bool → Files × Bool
  project bin_dir store_root [] state = state
  project bin_dir store_root (d ∷ ds) state = project bin_dir store_root ds (
      write_basenames bin_dir d.basenames
        (deploy_files d.files (write_shims bin_dir store_root d.store_path d.shims state)))

  pub cleared : Bytes → Profile → Manifest → Files → Files
  cleared bin_dir p target w = elim (current p) [
    | none ↦ w
    | some cur ↦
        remove_stale bin_dir (aliases_of target.derivations) (files_of target.derivations)
          cur.derivations w
  ]

  -- The files, the profile, and whether the target is the current generation now.
  unfoldable pub activate : Bool → Profile → Files → ℕ → Bytes → Bytes → Files × (Profile × Bool)
  unfolding shim_aliases basename_aliases aliases_of file_paths files_of remove_aliases remove_files
      remove_stale write_shims deploy_files write_basenames project cleared
  activate current_writable p w target_id bin_dir store_root = elim (load p target_id) [
    | none ↦ (w, (p, false))
    | some target ↦
        let (w', good) =
          project bin_dir store_root target.derivations (cleared bin_dir p target w, true) in
        (w', if good then set_current current_writable p target_id else (p, false))
  ]
