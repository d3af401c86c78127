-- ===== src/Samples/Peers.antt =====
-- Instances on capability records, lines of stages and registry values.
use kuli.Common.{
  ℕ, Bool, true, false, [], ◌∷◌, some, ◌≡◌, refl, codes, same, isspace, cut, split, starts_with,
  ends_with, trim_with, drop_while, nonempty,
}
use kuli.Common.{has_byte, ◌++◌}
use kuli.Capability.{RecordApi, capability_sync}
use kuli.Capability.{split_constraint}
use kuli.Capability.Constraint.{Operator, symbol, split_constraint-roundtrip}
use kuli.Capability.Sync.{Renewed, capability_sync-Renewed}
use kuli.Engine.Value.{pos}
use kuli.Meshell.{
  Document, pipeline, parse_meshell, parse_stages, parse_stage, stage_of_tokens, ws_split, stage_of,
  document_of, target_to_at,
}
use kuli.Meshell.Stages.{Runs, parse_meshell-Runs}
use kuli.Source.{GhRef, parse_github, owner_repo, strip_git, first_piece}
use kuli.Source.Registry.{SourceEntry, Registry}
use kuli.Source.Reference.{IsReference, parse_github-IsReference}

-- A record that is a number and a flag.
abbrev peer_api : RecordApi (ℕ × Bool)
peer_api = record {
  is_object = λ r. true;
  text = λ r key. some (codes "linux");
  number = λ r key. some (pos r.0);
  scriptures = λ r. some [];
  has_string = λ r key. true;
  get_string = λ r key. [];
  signing_bytes = λ r. [];
  ed25519_verify = λ key message signature. true;
  empty_object = (0, false);
}

capability_sync-Renewed_example : Renewed peer_api (some (3, true)) (
    capability_sync peer_api true
      (codes "prod")
      (some (3, true))
      (record { exit_code = 0; lines = some (5, true) }))
capability_sync-Renewed_example =
    capability_sync-Renewed peer_api true (codes "prod") (some (3, true))
      (record { exit_code = 0; lines = some (5, true) })

abbrev two_stages : Document
two_stages = pipeline (
    record { at = codes "@a"; cmd = codes "cat" ∷ [] }
    ∷ record { at = codes "local:"; cmd = codes "wc" ∷ codes "-l" ∷ [] }
    ∷ [])

parse_meshell-Runs_example : Runs (codes "@a:cat | wc -l") two_stages
unfolding parse_meshell codes trim_with drop_while parse_stages split parse_stage stage_of_tokens
    ws_split nonempty isspace stage_of cut document_of target_to_at same
parse_meshell-Runs_example = parse_meshell-Runs (codes "@a:cat | wc -l") {doc = two_stages} refl

abbrev written : SourceEntry
written = record {
  name = codes "s";
  url = codes "github:o/r";
  ref = [];
  commit = codes "a\"b";
  added_at = codes "0";
  official = true;
}

abbrev registry : Registry
registry = record {
  files = (codes "t", []) ∷ [];
  data_dir = codes "/d";
  exists = λ p. false;
  is_regular_file = λ p. false;
}

abbrev reference : GhRef
reference = record { owner = codes "o"; repo = codes "r" }

parse_github-IsReference_example : IsReference reference
unfolding parse_github codes starts_with owner_repo cut strip_git ends_with same first_piece
parse_github-IsReference_example =
    parse_github-IsReference (λ p. false) (codes "github:o/r.git") {g = reference} refl

split_constraint-roundtrip_example :
    split_constraint (codes "cpu" ++ (symbol Operator.ge ++ codes "4"))
    ≡ some (codes "cpu", (symbol Operator.ge, codes "4"))
unfolding has_byte codes
split_constraint-roundtrip_example =
    split_constraint-roundtrip (codes "cpu") (codes "4") Operator.ge refl
      (record { no_lt = refl; no_gt = refl; no_eq = refl })
      (record { no_lt = refl; no_gt = refl; no_eq = refl })
