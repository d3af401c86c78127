-- ===== src/Apply/Progress.antt =====
-- What `apply` leaves of the profile and of the files that it deploys.
use kuli.Common.{ℕ, Bool, true, false, none, some, if◌then◌else◌, Bytes, ◌≡◌, ◌≢◌, ◌↔◌, ◌⊎◌}
use kuli.Diag.{ok}
use kuli.Json.{JsonApi, JsonMake}
use kuli.Graph.{DerivationGraph}
use kuli.Adapter.{to_apply_ir}
use kuli.Resolver.Urls.{resolve_urls}
use kuli.Generation.{Files}
use kuli.Generation.Profile.{
  project, cleared, Profile, Manifest, load, current, commit, derivation_set_hash,
}
use kuli.Engine.Value.{JsonText, RawResult}
use kuli.Engine.Exec.{Ending, done, Machine}
use kuli.Apply.{
  Install, Setting, Report, also_printed, switched, not_projected, unchanged, run_engine,
}

-- Every generation but the one with this number is there as it was.
abbrev pub KeepsHistory : ℕ → Profile → Profile → Type 0
KeepsHistory new p q = (id : ℕ) → id ≢ new → load q id ≡ load p id

module _ (set : Setting) (g : DerivationGraph) where
  abbrev pub new_profile : Profile → Profile × Manifest
  new_profile p = commit set.sha256 set.now set.manifest_writable p g

  -- The manifest is stored, all shims and files of the new generation are written, and so is the pointer.
  abbrev pub AllWritten : Profile → Files → Type 0
  AllWritten p w =
      (set.manifest_writable ≡ true)
      × ((project set.host set.bin_dir set.store_root (new_profile p).1.derivations
            (cleared set.host set.bin_dir (new_profile p).0 (new_profile p).1 w, true)).1
          ≡ true)
      × (set.current_writable ≡ true)

  -- The engine has ended with the exit code 0.
  pub record IsInstalled {W : Type 0} (p : Profile) (w : Files) (r : RawResult) (t : Install W)
      (o : Ending Report) : Type 0 where
    pub good : Bool
    pub written : (good ≡ true) ↔ AllWritten p w
    -- The new generation is stored where its manifest can be.
    pub added :
        load t.profile (new_profile p).1.id
        ≡ (if set.manifest_writable then some (new_profile p).1 else none)
    pub pointed : good ≡ true → current t.profile ≡ some (new_profile p).1
    pub kept : good ≡ false → t.profile.current_id ≡ p.current_id
    pub history : KeepsHistory (new_profile p).1.id p t.profile
    pub answer :
        o
        ≡ done (
            also_printed r (
              if good then switched (new_profile p).1.id g else not_projected (new_profile p).1.id))

abbrev pub Untouched : {W : Type 0} → Install W → Install W → Type 0
Untouched s t = (t.profile ≡ s.profile) × (t.files ≡ s.files)

module _ {J W : Type 0} {json : JsonApi J} (make : JsonMake json) (io : JsonText J) (mc : Machine W)
    (depth : ℕ) (set : Setting) (cwd : Bytes) where
  -- The graph has been run as a document, with the exit code 0.
  pub record IsApplied (g : DerivationGraph) (s t : Install W) (o : Ending Report) : Type 0 where
    pub new : unchanged s.profile (derivation_set_hash set.sha256 g) ≡ none
    pub made : J
    pub is_made : to_apply_ir make g false ≡ some made
    pub ir : J
    pub is_resolved : resolve_urls make io set.net made ≡ some (ok ir)
    pub result : RawResult
    pub ran : (run_engine make io mc depth ir cwd s.machine).1 ≡ done result
    pub succeeded : result.exit_code ≡ 0
    pub installed : IsInstalled set g s.profile s.files result t o

  abbrev pub Outcome : DerivationGraph → Install W → Install W × Ending Report → Type 0
  Outcome g s (t, o) = Untouched s t ⊎ IsApplied g s t o
