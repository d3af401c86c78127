-- ===== src/Samples/Profiles.antt =====
-- Instances on assets, deployed files and generations.
use kuli.Common.{
  ℕ, Bool, true, List, [], ◌∷◌, none, some, ◌≡◌, ◌≢◌, refl, if◌then◌else◌, Bytes, codes, same,
  lower, tolower, starts_with,
}
use kuli.Resolver.{
  Asset, contains_ci, has_os_token, higher, score_linux, select_asset, is_windows, is_mac, is_arm,
}
use kuli.Resolver.Select.{Selected, select_asset-Selected}
use kuli.Resolver.Scores.{IsLinuxName, score_linux-higher}
use kuli.Generation.{Files, Host, deploy_file, remove_deployed}
use kuli.Generation.Restore.{remove_deployed-deploy_file, remove_deployed-twice}
use kuli.Graph.{DerivationGraph}
use kuli.Generation.Profile.{Profile, Manifest, load, commit, activate}
use kuli.Generation.History.{commit_appends}
use kuli.Generation.Switch.{Switched, activate-Switched}

abbrev any_pattern : Bytes → Bytes → Bool
any_pattern name pattern = true

abbrev assets : List Asset
assets =
    record { name = codes "rg-x64-windows.zip"; url = codes "u1" }
    ∷ record { name = codes "rg-x64-linux.tar.gz"; url = codes "u2" }
    ∷ record { name = codes "rg-x64-linux.tar.gz.sha256"; url = codes "u3" }
    ∷ []

select_asset-Selected_example :
    Selected any_pattern
      (codes "rg")
      (codes "linux-x64")
      assets
      (select_asset any_pattern assets (codes "rg") (codes "linux-x64"))
select_asset-Selected_example =
    select_asset-Selected any_pattern (codes "rg") (codes "linux-x64") assets

linux_name : IsLinuxName (codes "rg-x64-linux")
unfolding codes contains_ci lower tolower starts_with is_windows is_mac is_arm has_os_token
linux_name = record { x64 = refl; linux = refl; no_windows = refl; no_mac = refl; no_arm = refl }

score_linux-higher_example :
    higher (score_linux (codes "rg-x64-linux")) (score_linux (codes "rg-win")) ≡ true
unfolding codes contains_ci lower tolower starts_with is_windows is_mac is_arm has_os_token
score_linux-higher_example =
    score_linux-higher (codes "rg-x64-linux") (codes "rg-win") linux_name refl

abbrev host : Host
host = record {
  home = codes "/h";
  exe = codes "/k";
  writable = λ p. true;
  perms_ok = λ p. true;
  copies = λ p. true;
  left_over = λ p. none;
}

abbrev no_files : Files
no_files = λ p. none

abbrev user_file : Files
user_file = λ p. if same p (codes "c") then some (codes "mine") else none

remove_deployed-deploy_file_example :
    remove_deployed (deploy_file host user_file (codes "c") (codes "new")).0 (codes "c") (codes "c")
    ≡ user_file (codes "c")
unfolding codes same
remove_deployed-deploy_file_example =
    remove_deployed-deploy_file host user_file (codes "c") (codes "new") (codes "c") refl refl refl

remove_deployed-twice_example :
    remove_deployed
      (deploy_file host
        (deploy_file host no_files (codes "c") (codes "a")).0
        (codes "c")
        (codes "b")).0
      (codes "c")
      (codes "c")
    ≡ some (codes "a")
remove_deployed-twice_example =
    remove_deployed-twice host no_files (codes "c") (codes "a") (codes "b") refl refl refl refl

abbrev empty_profile : Profile
empty_profile = record { manifests = []; current_id = 0 }

abbrev graph : DerivationGraph
graph = record { nodes = []; root = codes "h" }

abbrev first_commit : Profile × Manifest
first_commit = commit (λ b. b) (codes "0") true empty_profile graph

commit_appends_example :
    (load empty_profile first_commit.1.id ≡ none)
    × (load first_commit.0 first_commit.1.id ≡ some first_commit.1)
    × ((id : ℕ) → id ≢ first_commit.1.id → load first_commit.0 id ≡ load empty_profile id)
    × (first_commit.1.parent ≡ 0)
    × (first_commit.0.current_id ≡ 0)
commit_appends_example = commit_appends (λ b. b) (codes "0") empty_profile graph

activate-Switched_example :
    Switched first_commit.0 1
      (activate host true first_commit.0 no_files 1 (codes "/b") (codes "/s")).1
activate-Switched_example =
    activate-Switched host true first_commit.0 no_files 1 (codes "/b") (codes "/s")
