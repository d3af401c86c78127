-- ===== src/Apply.antt =====
-- `apply` of libs/kuli-bp/src/apply.cpp from the evaluated blueprint on. Reading and evaluating the blueprint is an argument, the graph or a diagnostic. The
-- profile, the files that it deploys, and the engine's machine lie apart from each other.
pub mod Progress
use kuli.Common.{
  ℕ, Bool, true, false, List, [], ◌∷◌, ◌++◌, Option, none, some, if◌then◌else◌, Bytes, codes, same,
  length, ◌==◌,
}
use kuli.Diag.{
  Diagnostic, diagnostic_of, diagnostic_error, internal, with_help, exit_code_of, render, to_string,
  Expected, ok, err,
}
use kuli.Json.{JsonApi, JsonMake}
use kuli.Graph.{Derivation, DerivationGraph, fetch}
use kuli.Adapter.{to_apply_ir}
use kuli.Resolver.Urls.{Release, resolve_urls}
use kuli.Generation.{Files, Host, put}
use kuli.Generation.Profile.{Profile, Manifest, current, derivation_set_hash, commit, activate}
use kuli.Engine.Value.{JsonText, RawResult}
use kuli.Engine.Exec.{State, Ending, done, thrown, undefined, too_deep, Machine}
use kuli.Engine.Run.{Call, execute}

-- What `apply` changes.
pub record Install (W : Type 0) : Type 0 where
  pub profile : Profile
  pub files : Files
  pub machine : State W

-- The surroundings: the digest, the paths and whether they can be written, the clock and the network.
pub record Setting : Type 0 where
  pub sha256 : Bytes → Bytes
  pub host : Host
  pub bin_dir : Bytes
  pub store_root : Bytes
  pub lock_path : Bytes
  pub manifest_writable : Bool
  pub current_writable : Bool
  pub now : Bytes
  pub net : Release

-- The exit code, and what is printed.
pub record Report : Type 0 where
  pub exit_code : ℕ
  pub out : List Bytes
  pub error : Bytes

unfoldable pub report_eval_error : Diagnostic → Report
report_eval_error d = record { exit_code = exit_code_of d; out = []; error = render d false }

-- `key = "value"` on a line of the lock.
abbrev pub lock_line : Bytes → Bytes → Bytes
lock_line key value = key ++ (codes " = \"" ++ (value ++ (b'"' ∷ 10 ∷ [])))

abbrev pub lock_source : Derivation → Bytes
lock_source d =
    lock_line (codes "source")
      (codes "github:" ++ (d.fetch.owner ++ (b'/' ∷ d.fetch.repo ++ (b'@' ∷ d.fetch.version))))
    ++ lock_line (codes "source_sha256") d.fetch.sha256

unfoldable pub lock_nodes : List Derivation → Bytes
lock_nodes [] = []
lock_nodes (d ∷ ds) =
    codes "[[derivation]]"
    ++ (10 ∷ lock_line (codes "hash") d.hash
        ++ (lock_line (codes "name") d.name
            ++ (lock_line (codes "storePath") d.store_path
                ++ (elim d.builder as (λ _. Bytes) [ fetch ↦ lock_source d | _ ↦ [] ]
                    ++ (10 ∷ lock_nodes ds)))))

unfoldable pub lock_text : Setting → DerivationGraph → Bytes
lock_text set g =
    codes "# kuli.lock "
    ++ (226 ∷ 128 ∷ 148 ∷ codes " reproducibility record (generated)"
        ++ (10 ∷ lock_line (codes "derivation_set_hash") (derivation_set_hash set.sha256 g)
            ++ (10 ∷ lock_nodes g.nodes)))

unfoldable pub write_lock : Setting → DerivationGraph → Files → Files
write_lock set g w =
    if set.host.writable set.lock_path then put w set.lock_path (some (lock_text set g)) else w

-- The diagnostic for a generation whose files could not all be written.
unfoldable pub not_projected : ℕ → Report
not_projected id = report_eval_error (
    with_help
      (diagnostic_of internal
        (codes "failed to project generation "
          ++ (to_string id ++ codes " onto ~/.local/bin (shims not fully written)"))
        (codes "E0700"))
      (codes "re-run `kuli bp apply` or `kuli bp doctor` to repair"))

unfoldable pub switched : ℕ → DerivationGraph → Report
switched id g = record {
  exit_code = 0;
  out =
      (codes "switched to generation "
        ++ (to_string id
            ++ (codes " (" ++ (to_string (length g.nodes) ++ codes " derivation(s))"))))
      ∷ [];
  error = [];
}

unfoldable pub up_to_date : ℕ → Report
up_to_date id = record {
  exit_code = 0;
  out = (codes "already up to date (generation " ++ (to_string id ++ codes ")")) ∷ [];
  error = [];
}

abbrev pub printed : RawResult → Report
printed r = record { exit_code = r.exit_code; out = r.lines; error = r.raw_stderr }

abbrev pub also_printed : RawResult → Report → Report
also_printed r p = record {
  exit_code = p.exit_code;
  out = r.lines ++ p.out;
  error = r.raw_stderr ++ p.error;
}

-- The current generation, where it has this hash.
unfoldable pub unchanged : Profile → Bytes → Option Manifest
unchanged p set_hash = elim (current p) [
  | none ↦ none
  | some cur ↦ if same cur.set_hash set_hash then some cur else none
]

-- A run without a change of the profile.
abbrev pub shown : {W : Type 0} → Install W → State W × Ending RawResult → Install W × Ending Report
shown s (m, done r) = (record s { machine = m }, done (printed r))
shown s (m, thrown) = (record s { machine = m }, thrown)
shown s (m, undefined) = (record s { machine = m }, undefined)
shown s (m, too_deep) = (record s { machine = m }, too_deep)

module _ (set : Setting) (g : DerivationGraph) {W : Type 0} where
  -- Behind `activate`.
  abbrev pub activated :
      RawResult → ℕ → Install W → Files × (Profile × Bool) → Install W × Ending Report
  activated r id s (w, (q, true)) =
      (record s { profile = q; files = write_lock set g w }, done (also_printed r (switched id g)))
  activated r id s (w, (q, false)) =
      (record s { profile = q; files = w }, done (also_printed r (not_projected id)))

  -- Behind the engine, which has ended with the exit code 0.
  unfoldable pub install : RawResult → Install W → Install W × Ending Report
  install r s =
      let (p, gen) = commit set.sha256 set.now set.manifest_writable s.profile g in
      activated r gen.id s
        (activate set.host set.current_writable p s.files gen.id set.bin_dir set.store_root)

  abbrev pub realized : Install W → State W × Ending RawResult → Install W × Ending Report
  realized s (m, done r) =
      if r.exit_code == 0
      then install r (record s { machine = m })
      else (record s { machine = m }, done (printed r))
  realized s (m, thrown) = (record s { machine = m }, thrown)
  realized s (m, undefined) = (record s { machine = m }, undefined)
  realized s (m, too_deep) = (record s { machine = m }, too_deep)

module _ {J W : Type 0} {json : JsonApi J} (make : JsonMake json) (io : JsonText J) (mc : Machine W)
    (depth : ℕ) where
  unfoldable pub run_engine : J → Bytes → State W → State W × Ending RawResult
  run_engine ir cwd =
      execute make io depth mc
        (record { tool_name = codes "kuli-bp"; argv = []; cwd = cwd; ir_doc = ir })

  -- The document with the addresses of its downloads is run.
  abbrev pub run_resolved :
      Setting
      → DerivationGraph
      → Bytes
      → Install W
      → Option (Expected J)
      → Install W × Ending Report
  run_resolved set g cwd s none = (s, thrown)
  run_resolved set g cwd s (some (err e)) = (s, done (report_eval_error e))
  run_resolved set g cwd s (some (ok ir)) = realized set g s (run_engine ir cwd s.machine)

  -- `--dry-run`.
  unfoldable pub apply_dry : DerivationGraph → Bytes → Install W → Install W × Ending Report
  apply_dry g cwd s = elim (to_apply_ir make g true) [
    | none ↦ (s, too_deep)
    | some ir ↦ shown s (run_engine ir cwd s.machine)
  ]

  unfoldable pub apply_new :
      Setting → DerivationGraph → Bytes → Install W → Install W × Ending Report
  apply_new set g cwd s = elim (to_apply_ir make g false) [
    | none ↦ (s, too_deep)
    | some ir ↦ run_resolved set g cwd s (resolve_urls make io set.net ir)
  ]

  unfoldable pub apply_graph :
      Setting → DerivationGraph → Bool → Bytes → Install W → Install W × Ending Report
  apply_graph set g dry_run cwd s =
      if dry_run
      then apply_dry g cwd s
      else elim (unchanged s.profile (derivation_set_hash set.sha256 g)) [
        | none ↦ apply_new set g cwd s
        | some cur ↦ (s, done (up_to_date cur.id))
      ]

  unfoldable pub apply :
      Setting → Expected DerivationGraph → Bool → Bytes → Install W → Install W × Ending Report
  apply set (err e) dry_run cwd s = (s, done (report_eval_error e))
  apply set (ok g) dry_run cwd s = apply_graph set g dry_run cwd s
