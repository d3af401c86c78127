-- ===== src/Engine/Run.antt =====
-- `Engine::execute` of libs/kuli-engine/src/engine.cpp.
use kuli.Common.{
  ℕ, zero, suc, ◌+◌, Bool, false, not, ◌&&◌, List, [], ◌∷◌, ◌++◌, Option, if◌then◌else◌, Bytes,
  codes, is_empty, same, map, length,
}
use kuli.Diag.{exit_code_of, to_string, ok, err}
use kuli.Json.{JsonApi, JsonMake}
use kuli.Ir
use kuli.Engine.Value.{JsonText, RawResult, fail, value_string, value_boolean, under_cwd}
use kuli.Engine.Queries.{
  execute_process_query, execute_network_query, execute_host_facts, execute_env_query,
}
use kuli.Engine.Search.{execute_file_query, execute_text_search, is_local}
use kuli.Engine.Stage.{member_at}
use kuli.Engine.Exec.{
  State, done, too_deep, Run, ◌>>=◌, ◌>>◌, return, lift, Machine, execute_exec, execute_pipeline,
}
use kuli.Engine.Transport.{route_remote}
use kuli.Engine.Plan.{text_of, object_of, expand_plan, preview}
use kuli.Engine.Realize.{proceed, stop, with_line, deriv_step}

pub record Call (J : Type 0) : Type 0 where
  pub tool_name : Bytes
  pub argv : List Bytes
  pub cwd : Bytes
  pub ir_doc : J

-- An evidence session: its id and its directory.
pub record Session : Type 0 where
  pub id : Bytes
  pub dir : Bytes

unfoldable pub write : {W : Type 0} → Machine W → Bytes → Bytes → Run W (Unit {0})
write mc path content s = (record s { world = mc.write_file path content s.world }, done tt)

abbrev pub below : Session → Bytes → Bytes
below session name = session.dir ++ (b'/' ∷ name)

unfoldable pub open_session : {W : Type 0} → Machine W → Bytes → Run W Session
open_session mc cwd s =
    let session : Session = record {
      id = mc.new_session_id s;
      dir = under_cwd cwd (codes ".kuli/sessions/" ++ mc.new_session_id s);
    } in
    (
      record s { world = mc.create_directories (below session (codes "steps")) s.world },
      done session,
    )

unfoldable pub reads : {W A : Type 0} → (State W → Option A) → Run W A
unfolding lift
reads f s = lift (f s) s

module _ {J W : Type 0} {json : JsonApi J} (make : JsonMake json) (io : JsonText J) where
  open json use {elements}
  open make use {string, boolean, array, object}

  unfoldable pub write_step : Machine W → Session → J → ℕ → List (Bytes × J) → Run W (Unit {0})
  write_step mc session d n more = do
    builder ← lift (text_of make io d (codes "builder"))
    name ← lift (text_of make io d (codes "name"))
    hash ← lift (text_of make io d (codes "hash"))
    write mc (below session (codes "steps/" ++ (to_string n ++ codes ".json"))) (
        io.pretty (
          object (
            (codes "op", string (codes "realize"))
            ∷ (codes "name", string name)
            ∷ (codes "hash", string hash)
            ∷ (codes "builder", string builder)
            ∷ more)))

  -- Behind the loop.
  unfoldable pub finish : Machine W → Session → ℕ → RawResult → Run W RawResult
  finish mc session n r = do
    write mc (below session (codes "summary.md")) (
        codes "# run"
        ++ (10 ∷ 10 ∷ codes "realized " ++ (to_string n ++ codes " derivation step(s)."))
        ++ 10 ∷ [])
    return (with_line r (codes "evidence session: " ++ session.dir))

  unfoldable pub realize_all : Machine W → Session → List J → ℕ → RawResult → Run W RawResult
  unfolding write_step finish
  realize_all mc session [] n r = finish mc session n r
  realize_all mc session (d ∷ ds) n r = deriv_step make io mc d r >>= λ p. elim p [
    | stop r' ↦ return r'
    | proceed r' more ↦ write_step mc session d n more >> realize_all mc session ds (n + 1) r'
  ]

  unfoldable pub preview_run : Machine W → Session → List J → List J → Run W RawResult
  preview_run mc session ds plan = do
    ls ← lift (preview make io ds plan)
    write mc (below session (codes "summary.md")) (
        codes "# dry-run"
        ++ (10 ∷ 10 ∷ to_string (length ds)
            ++ (codes " derivation(s) planned; nothing written outside this session." ++ 10 ∷ [])))
    return (record {
      exit_code = 0;
      lines =
          ls
          ++ ((codes "evidence session: " ++ session.dir)
              ∷ codes "(--dry-run: nothing else written)"
              ∷ []);
      raw_stderr = [];
      session_id = session.id;
    })

  -- From the evidence session on: the document is not one of a flat kind.
  unfoldable pub execute_apply : Machine W → Call J → Bool → Run W RawResult
  unfolding preview_run
  execute_apply mc call dry_run = do
    session ← open_session mc call.cwd
    write mc (below session (codes "input.json")) (
        io.pretty (
          object (
            (codes "tool_name", string call.tool_name)
            ∷ (codes "argv", array (map string call.argv))
            ∷ (codes "cwd", string call.cwd)
            ∷ (codes "dry_run", boolean dry_run)
            ∷ [])))
    write mc (below session (codes "ir.json")) (io.pretty call.ir_doc)
    node ← lift (member_at json call.ir_doc (codes "node"))
    listed ← lift (member_at json node (codes "derivations"))
    plan ← lift (expand_plan make io (elements listed))
    write mc (below session (codes "plan.json")) (io.pretty (array plan))
    (if dry_run
        then preview_run mc session (elements listed) plan
        else realize_all mc session (elements listed) 0
            (record { exit_code = 0; lines = []; raw_stderr = []; session_id = session.id }))

  -- The dispatch on the kind. `run_sub` executes the document of a stage.
  unfoldable pub dispatch :
      Machine W → (J → Run W RawResult) → Call J → Bool → Bytes → J → Run W RawResult
  dispatch mc run_sub call dry_run kind node =
      if same kind (codes "FileQuery")
      then reads (λ s. execute_file_query json io (mc.files s) node call.cwd)
      else if same kind (codes "TextSearch")
      then reads (λ s. execute_text_search json io (mc.files s) mc.regex node call.cwd)
      else if same kind (codes "ProcessQuery")
      then reads (λ s. execute_process_query json io node (mc.processes s))
      else if same kind (codes "NetworkQuery")
      then reads (λ s. execute_network_query json io node (mc.sockets s))
      else if same kind (codes "HostFacts")
      then reads (λ s. execute_host_facts json io node (mc.facts s))
      else if same kind (codes "EnvQuery")
      then reads (λ s. execute_env_query json io node (mc.env_vars s))
      else if same kind (codes "Exec")
      then execute_exec make io mc node call.cwd dry_run
      else if same kind (codes "Pipeline")
      then execute_pipeline make io node dry_run run_sub
      else execute_apply mc call dry_run

  -- The node is to be run here.
  unfoldable pub execute_here : Machine W → (J → Run W RawResult) → Call J → Run W RawResult
  unfolding dispatch
  execute_here mc run_sub call = do
    options ← lift (object_of make io call.ir_doc (codes "options"))
    dry_run ← lift (value_boolean json io options (codes "dry_run") false)
    kind ← lift (text_of make io call.ir_doc (codes "kind"))
    node ← lift (object_of make io call.ir_doc (codes "node"))
    dispatch mc run_sub call dry_run kind node

  -- Behind the validator.
  unfoldable pub execute_valid : Machine W → (J → Run W RawResult) → Call J → Run W RawResult
  unfolding execute_here
  execute_valid mc run_sub call = do
    node ← lift (object_of make io call.ir_doc (codes "node"))
    place ← lift (value_string json io node (codes "at") (codes "local:"))
    (if not (is_local place) && not (is_empty place)
        then route_remote make io mc call.ir_doc call.cwd place
        else execute_here mc run_sub call)

  -- Behind the depth, every call within a call is cut off.
  unfoldable pub execute : ℕ → Machine W → Call J → Run W RawResult
  execute zero mc call s = (s, too_deep)
  execute (suc depth) mc call s = elim (Ir.validate json call.ir_doc) [
    | err e ↦ (s, done (fail (exit_code_of e) e []))
    | ok u ↦ execute_valid mc (λ doc. execute depth mc (record call { ir_doc = doc })) call s
  ]
