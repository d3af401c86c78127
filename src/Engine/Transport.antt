-- ===== src/Engine/Transport.antt =====
-- `route_remote` of libs/kuli-engine/src/engine.cpp: a document is run by another kuli.
use kuli.Common.{Bool, true, not, ◌&&◌, List, [], ◌++◌, if◌then◌else◌, Bytes, codes, is_empty, same}
use kuli.Diag.{diagnostic_error}
use kuli.Json.{JsonApi, JsonMake}
use kuli.Engine.Value.{JsonText, RawResult, fail, output_lines}
use kuli.Engine.Exec.{Run, ◌>>=◌, return, lift, Machine, spawn, ProcessResult, first_word}
use kuli.Engine.Remote.{
  Link, Resolved, link, refused, spawn_argv, resolve_at, read_hosts, local_doc,
}

unfoldable pub remote_result : List Bytes → ProcessResult → RawResult
remote_result argv pr =
    if not pr.launched
    then fail 127
        (diagnostic_error (codes "failed to spawn transport: " ++ first_word argv) (codes "E0641"))
        []
    else record {
      exit_code = pr.exit_code;
      lines = output_lines pr.output;
      raw_stderr = pr.error;
      session_id = [];
    }

-- Only ssh needs a target.
abbrev pub lacks_target : Link → Bool
lacks_target l = not (same l.transport (codes "local-subprocess")) && is_empty l.target

module _ {J W : Type 0} {json : JsonApi J} (make : JsonMake json) (io : JsonText J) where
  unfoldable pub relay : Machine W → List Bytes → Bytes → J → Run W RawResult
  relay mc argv cwd doc = do
    pr ← spawn mc argv cwd true (io.dump (local_doc make io doc))
    return (remote_result argv pr)

  unfoldable pub route_to : Machine W → J → Bytes → Resolved → Run W RawResult
  unfolding relay
  route_to mc doc cwd (refused d) = return (fail 2 d [])
  route_to mc doc cwd (link l) =
      if lacks_target l
      then return (
          fail 2
            (diagnostic_error (codes "ssh transport needs a target (user@host)") (codes "E0643"))
            [])
      else relay mc (spawn_argv mc.current_exe l) cwd doc

  unfoldable pub route_remote : Machine W → J → Bytes → Bytes → Run W RawResult
  unfolding route_to
  route_remote mc doc cwd place s =
      (lift (resolve_at make io (read_hosts make io (mc.hosts_file s)) place)
          >>= route_to mc doc cwd)
        s
