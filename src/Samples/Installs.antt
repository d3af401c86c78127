-- ===== src/Samples/Installs.antt =====
-- Instances on `apply`.
use kuli.Common.{true, List, [], ◌∷◌, none, Bytes, codes}
use kuli.Diag.{err, diagnostic_error}
use kuli.Graph.{DerivationGraph, composite}
use kuli.Generation.{Host}
use kuli.Samples.Built.{plain}
use kuli.Samples.Machines.{idle}
use kuli.Resolver.Urls.{Release}
use kuli.Apply.{Install, Setting}

abbrev offline : Release
offline = record {
  fetch_text = λ url. err (diagnostic_error (codes "offline") (codes "E0401"));
  pattern_matches = λ name pattern. true;
}

abbrev home : Host
home = record {
  home = codes "/h";
  exe = codes "/k";
  writable = λ p. true;
  perms_ok = λ p. true;
  copies = λ p. true;
  left_over = λ p. none;
}

abbrev setting : Setting
setting = record {
  sha256 = λ b. b;
  host = home;
  bin_dir = codes "/b";
  store_root = codes "/s";
  lock_path = codes "/l";
  manifest_writable = true;
  current_writable = true;
  now = codes "0";
  net = offline;
}

abbrev fresh : Install (List (List Bytes))
fresh = record {
  profile = record { manifests = []; current_id = 0 };
  files = λ p. none;
  machine = idle;
}

-- A graph of one package, which is a set of none.
abbrev bare : DerivationGraph
bare = record { nodes = plain composite (codes "h") ∷ []; root = codes "h" }
