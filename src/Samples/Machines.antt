-- ===== src/Samples/Machines.antt =====
-- Instances on calls of the engine, with a machine that prints what it is asked to run.
use kuli.Common.{Bool, true, false, List, [], ◌∷◌, ◌++◌, none, ◌≡◌, refl, Bytes, codes, same}
use kuli.Samples.Documents.{Tree, text, truth, no_items, item, no_members, member, find_member}
use kuli.Samples.Stores.{env, empty_disk}
use kuli.Samples.Built.{tree_make, build_object}
use kuli.Engine.Value.{pos, JsonText, RawResult, json_value}
use kuli.Engine.Exec.{State, Machine, Run, return}
use kuli.Engine.Search.{compiled}
use kuli.Engine.Run.{Call, execute}
use kuli.Engine.Keeps.{IsComplete}
use kuli.Engine.Depth.{execute-IsComplete}
use kuli.Engine.DryRun.{Written, IsDryRun, execute-Written}

pub tree_keys : Tree → List Bytes
tree_keys (member k v m) = k ∷ tree_keys m
tree_keys _ = []

abbrev pub tree_text : JsonText Tree
tree_text = record {
  get_boolean = λ t. elim t as (λ _. Bool) [ truth b ↦ b | _ ↦ false ];
  converts = λ t. false;
  get_integer = λ t. pos 0;
  parse = text;
  dump = λ t. [];
  pretty = λ t. [];
  keys = tree_keys;
  put = λ j k v. member k v j;
}

-- The world is the log of the commands. Each command prints its first word and what it read.
abbrev pub echo : Machine (List (List Bytes))
echo = record {
  run = λ argv cwd capture input s. (
    record s { world = argv ∷ s.world },
    record { launched = true; exit_code = 0; output = codes "ran" ++ b'\n' ∷ input; error = [] },
  );
  current_exe = codes "/k";
  hosts_file = λ s. none;
  processes = λ s. [];
  sockets = λ s. [];
  facts = λ s. record { os = []; arch = []; hostname = []; cpu_count = 1 };
  env_vars = λ s. [];
  files = λ s. record { below = λ p. none; read = λ p. none };
  regex = λ p icase. compiled (λ l. true);
  new_session_id = λ s. codes "1";
  create_directories = λ p w. w;
  write_file = λ p c w. (p ∷ []) ∷ w;
  store = env;
  store_root = codes "/s";
}

abbrev pub idle : State (List (List Bytes))
idle = record { world = []; disk = empty_disk }

abbrev word : Bytes → Tree
word w = item (text w) no_items

abbrev stage : Bytes → Tree
stage w = member (codes "cmd") (word w) no_members

abbrev pipeline_doc : Tree
pipeline_doc = member (codes "schema") (text (codes "kuli/ir/1.0")) (
    member (codes "kind") (text (codes "Pipeline")) (
      member (codes "node")
        (member (codes "stages") (item (stage (codes "a")) (item (stage (codes "b")) no_items))
          no_members)
        no_members))

abbrev dry_doc : Tree
dry_doc = member (codes "options") (member (codes "dry_run") (truth true) no_members) pipeline_doc

abbrev call_of : Tree → Call Tree
call_of doc = record { tool_name = codes "t"; argv = []; cwd = codes "/c"; ir_doc = doc }

execute-IsComplete_example :
    IsComplete (execute tree_make tree_text 2 echo (call_of pipeline_doc) idle).1
execute-IsComplete_example =
    execute-IsComplete tree_make tree_text echo 0 (call_of pipeline_doc) idle

abbrev scripture_deriv : Tree
scripture_deriv = member (codes "builder") (text (codes "scripture")) (
    member (codes "name") (text (codes "n")) (
      member (codes "hash") (text (codes "h"))
        (member (codes "storePath") (text (codes "p")) no_members)))

abbrev apply_node : Tree
apply_node = member (codes "derivations") (item scripture_deriv no_items) no_members

abbrev apply_doc : Tree
apply_doc =
    member (codes "kind") (text (codes "ApplyDerivation"))
      (member (codes "node") apply_node no_members)

dry_doc_is_dry : IsDryRun tree_make tree_text dry_doc
unfolding json_value find_member build_object same codes
dry_doc_is_dry = record {
  options = member (codes "dry_run") (truth true) no_members;
  has_options = refl;
  dry = refl;
  node =
      member (codes "stages") (item (stage (codes "a")) (item (stage (codes "b")) no_items))
        no_members;
  has_node = refl;
  place = codes "local:";
  placed = refl;
  near = refl;
}

execute-Written_example :
    Written echo idle (execute tree_make tree_text 2 echo (call_of dry_doc) idle).0
    × ((execute tree_make tree_text 2 echo (call_of dry_doc) idle).0.disk ≡ empty_disk)
execute-Written_example =
    execute-Written tree_make tree_text echo 1 (call_of dry_doc) idle dry_doc_is_dry

abbrev answer : RawResult
answer = record { exit_code = 3; lines = codes "x" ∷ []; raw_stderr = codes "e"; session_id = [] }

abbrev answering : Tree → Run (List (List Bytes)) RawResult
answering doc = return answer
