-- ===== src/Engine/Exec.antt =====
-- Exec and Pipeline of libs/kuli-engine/src/engine.cpp. What running a process does to the state of
-- the machine is an argument.
use kuli.Common.{
  ℕ, Bool, true, false, not, List, [], ◌∷◌, ◌++◌, Option, none, some, if◌then◌else◌, Bytes, codes,
  getlines, length,
}
use kuli.Diag.{diagnostic_error, with_help, to_string}
use kuli.Json.{JsonApi, JsonMake}
use kuli.Store.{Disk, Env}
use kuli.Engine.Queries.{ProcessInfo, SocketInfo, HostFacts}
use kuli.Engine.Search.{FileSystem, Regex}
use kuli.Engine.Stage.{exec_cwd, member_at, stage_doc, stage_lines, join_lines}
use kuli.Engine.Value.{
  JsonText, RawResult, lines_only, fail, value_string, value_boolean, value_texts, local_at,
  join_words, output_lines,
}

-- What the handlers act on: the store and the download cache, and all else of the machine.
pub record State (W : Type 0) : Type 0 where
  pub world : W
  pub disk : Disk

-- How a handler ends: with a result, by an exception that nobody catches, by a read past a buffer in
-- the store, or, in the model only, because the calls within calls were cut off.
pub data Ending (A : Type 0) : Type 0 where
  done : A → Ending A
  thrown undefined too_deep : Ending A

abbrev pub Run : Type 0 → Type 0 → Type 0
Run W A = State W → State W × Ending A

abbrev pub follow : {W A B : Type 0} → State W × Ending A → (A → Run W B) → State W × Ending B
follow (s, done a) f = f a s
follow (s, thrown) f = (s, thrown)
follow (s, undefined) f = (s, undefined)
follow (s, too_deep) f = (s, too_deep)

infixl 5 ◌>>=◌ ◌>>◌
unfoldable pub ◌>>=◌ : {W A B : Type 0} → Run W A → (A → Run W B) → Run W B
(m >>= f) s = follow (m s) f

unfoldable pub ◌>>◌ : {W A B : Type 0} → Run W A → Run W B → Run W B
m >> k = m >>= λ _. k

unfoldable pub return : {W A : Type 0} → A → Run W A
return a s = (s, done a)

unfoldable pub lift : {W A : Type 0} → Option A → Run W A
lift none s = (s, thrown)
lift (some a) s = (s, done a)

pub record ProcessResult : Type 0 where
  pub launched : Bool
  pub exit_code : ℕ
  pub output : Bytes
  pub error : Bytes

-- What the engine asks of the machine. `write_file` ignores its failures, and the sessions lie
-- outside the store.
pub record Machine (W : Type 0) : Type 0 where
  -- `run_process`: the arguments, the directory, whether the output is captured, and the input.
  pub run : List Bytes → Bytes → Bool → Bytes → State W → State W × ProcessResult
  pub current_exe : Bytes
  pub hosts_file : State W → Option Bytes
  pub processes : State W → List ProcessInfo
  pub sockets : State W → List SocketInfo
  pub facts : State W → HostFacts
  pub env_vars : State W → List (Bytes × Bytes)
  pub files : State W → FileSystem
  pub regex : Bytes → Bool → Regex
  pub new_session_id : State W → Bytes
  pub create_directories : Bytes → W → W
  pub write_file : Bytes → Bytes → W → W
  -- `env_`: the store, and the text of its root.
  pub store : Env
  pub store_root : Bytes

unfoldable pub spawn :
    {W : Type 0} → Machine W → List Bytes → Bytes → Bool → Bytes → Run W ProcessResult
spawn mc argv cwd capture input s = let (s', r) = mc.run argv cwd capture input s in (s', done r)

abbrev pub first_word : List Bytes → Bytes
first_word [] = []
first_word (a ∷ argv) = a

unfoldable pub exec_result : List Bytes → Bool → ProcessResult → RawResult
exec_result argv capture pr =
    if not pr.launched
    then fail 127
        (with_help
          (diagnostic_error (codes "failed to launch: " ++ first_word argv) (codes "E0622"))
          (codes "is it on PATH?"))
        []
    else record {
      exit_code = pr.exit_code;
      lines = if capture then output_lines pr.output else [];
      raw_stderr = if capture then pr.error else [];
      session_id = [];
    }

-- What flows between the stages of a pipeline.
pub record Flow : Type 0 where
  pub text : Bytes
  pub all_stderr : Bytes
  pub code : ℕ

module _ {J W : Type 0} {json : JsonApi J} (make : JsonMake json) (io : JsonText J) where
  open json use {elements}
  open make use {string}

  -- From the dry run on.
  unfoldable pub launch : Machine W → J → Bytes → List Bytes → Run W RawResult
  launch mc node cwd argv = do
    capture ← lift (value_boolean json io node (codes "capture") false)
    stdin ← lift (value_string json io node (codes "stdin") [])
    pr ← spawn mc argv (exec_cwd json node cwd) capture stdin
    return (exec_result argv capture pr)

  unfoldable pub exec_argv : Machine W → J → Bytes → Bool → List Bytes → Run W RawResult
  exec_argv mc node cwd dry_run [] =
      return (fail 2 (diagnostic_error (codes "Exec.node.cmd is empty") (codes "E0621")) [])
  exec_argv mc node cwd true (a ∷ argv) =
      return (lines_only ((codes "dry-run: would exec: " ++ join_words (a ∷ argv)) ∷ []))
  exec_argv mc node cwd false (a ∷ argv) = launch mc node cwd (a ∷ argv)

  unfoldable pub execute_exec : Machine W → J → Bytes → Bool → Run W RawResult
  unfolding launch exec_argv
  execute_exec mc node cwd dry_run = do
    local ← lift (local_at json io node)
    (if not local
        then return
            (fail 2 (diagnostic_error (codes "Exec is local-only for now") (codes "E0620")) [])
        else lift (value_texts json io node (codes "cmd")) >>= exec_argv mc node cwd dry_run)

  unfoldable pub run_stages : (J → Run W RawResult) → List J → Flow → Run W Flow
  run_stages run_sub [] flow = return flow
  run_stages run_sub (s ∷ stages) flow = do
    place ← lift (value_string json io s (codes "at") (codes "local:"))
    cmd ← lift (member_at json s (codes "cmd"))
    sr ← run_sub (stage_doc make s flow.text (string place) cmd)
    run_stages run_sub stages (record {
      text = join_lines sr.lines;
      all_stderr = flow.all_stderr ++ sr.raw_stderr;
      code = sr.exit_code;
    })

  unfoldable pub run_pipeline : (J → Run W RawResult) → List J → Run W RawResult
  run_pipeline run_sub stages = do
    flow ← run_stages run_sub stages (record { text = []; all_stderr = []; code = 0 })
    return (record {
      exit_code = flow.code;
      lines = getlines b'\n' flow.text;
      raw_stderr = flow.all_stderr;
      session_id = [];
    })

  unfoldable pub list_pipeline : List J → Run W RawResult
  list_pipeline stages = do
    listing ← lift (stage_lines json io stages)
    return (
        lines_only (
          (codes "dry-run: pipeline of " ++ (to_string (length stages) ++ codes " stage(s):"))
          ∷ listing))

  unfoldable pub execute_pipeline : J → Bool → (J → Run W RawResult) → Run W RawResult
  unfolding run_pipeline list_pipeline
  execute_pipeline node dry_run run_sub = do
    stages ← lift (member_at json node (codes "stages"))
    (if dry_run then list_pipeline (elements stages) else run_pipeline run_sub (elements stages))
