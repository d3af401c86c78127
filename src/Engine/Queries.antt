-- ===== src/Engine/Queries.antt =====
-- The queries of libs/kuli-engine/src/engine.cpp that read the running system: processes, sockets,
-- the host and the environment. What libs/kuli-sense reports is an argument.
use kuli.Common.{
  ℕ, Bool, false, not, ◌&&◌, ◌||◌, List, [], ◌∷◌, ◌++◌, Option, some, if◌then◌else◌, Bytes, codes,
  same, is_empty, ◌==◌, leb,
}
use kuli.Diag.{diagnostic_error, to_string}
use kuli.Json.{JsonApi}
use kuli.Engine.Value.{
  ℤ, pos, negsuc, JsonText, RawResult, lines_only, fail, ◌>>=◌, value_string, value_integer,
  value_texts, local_at, name_ok, sort_by, bytes_le,
}

pub record ProcessInfo : Type 0 where
  pub pid : ℕ
  pub name : Bytes

pub record SocketInfo : Type 0 where
  pub proto : Bytes
  pub local_addr : Bytes
  pub remote_addr : Bytes
  pub state : Bytes
  pub pid : ℕ

pub record HostFacts : Type 0 where
  pub os : Bytes
  pub arch : Bytes
  pub hostname : Bytes
  pub cpu_count : ℕ

-- `want_pid == 0 || p.pid == want_pid`
unfoldable pub pid_ok : ℤ → ℕ → Bool
pid_ok (pos n) pid = n == 0 || pid == n
pid_ok (negsuc n) pid = false

unfoldable pub process_lines : ℤ → List Bytes → List ProcessInfo → List Bytes
process_lines want names [] = []
process_lines want names (p ∷ ps) =
    if pid_ok want p.pid && name_ok names p.name
    then (to_string p.pid ++ (9 ∷ p.name)) ∷ process_lines want names ps
    else process_lines want names ps

unfoldable pub socket_lines : Bytes → List SocketInfo → List Bytes
socket_lines state [] = []
socket_lines state (s ∷ ss) =
    if not (is_empty state) && not (same s.state state)
    then socket_lines state ss
    else (s.proto
        ++ (codes "  "
            ++ (s.local_addr
                ++ (codes "  "
                    ++ (s.remote_addr
                        ++ (codes "  " ++ (s.state ++ (codes "  pid=" ++ to_string s.pid))))))))
      ∷ socket_lines state ss

unfoldable pub env_lines : List Bytes → List (Bytes × Bytes) → List Bytes
env_lines names [] = []
env_lines names ((k, v) ∷ vars) =
    if name_ok names k then (k ++ (b'=' ∷ v)) ∷ env_lines names vars else env_lines names vars

abbrev pub pid_le : ProcessInfo → ProcessInfo → Bool
pid_le a b = leb a.pid b.pid

abbrev pub key_le : Bytes × Bytes → Bytes × Bytes → Bool
key_le a b = bytes_le a.0 b.0

module _ {J : Type 0} (json : JsonApi J) (io : JsonText J) where
  unfoldable pub execute_process_query : J → List ProcessInfo → Option RawResult
  execute_process_query node procs = do
    local ← local_at json io node
    (if not local
        then some (
            fail 2 (diagnostic_error (codes "ProcessQuery is local-only for now") (codes "E0610"))
              [])
        else do
          names ← value_texts json io node (codes "name")
          want_pid ← value_integer json io node (codes "pid") (pos 0)
          some (lines_only (process_lines want_pid names (sort_by pid_le procs))))

  unfoldable pub execute_network_query : J → List SocketInfo → Option RawResult
  execute_network_query node sockets = do
    local ← local_at json io node
    (if not local
        then some (
            fail 2 (diagnostic_error (codes "NetworkQuery is local-only for now") (codes "E0613"))
              [])
        else do
          state ← value_string json io node (codes "state") []
          some (lines_only (socket_lines state sockets)))

  unfoldable pub execute_host_facts : J → HostFacts → Option RawResult
  execute_host_facts node f = do
    local ← local_at json io node
    some (
        if not local
        then fail 2 (diagnostic_error (codes "HostFacts is local-only for now") (codes "E0611")) []
        else lines_only (
            (codes "os: " ++ f.os)
            ∷ (codes "arch: " ++ f.arch)
            ∷ (codes "hostname: " ++ f.hostname)
            ∷ (codes "cpu: " ++ to_string f.cpu_count)
            ∷ []))

  unfoldable pub execute_env_query : J → List (Bytes × Bytes) → Option RawResult
  execute_env_query node vars = do
    local ← local_at json io node
    (if not local
        then some
            (fail 2 (diagnostic_error (codes "EnvQuery is local-only for now") (codes "E0612")) [])
        else do
          names ← value_texts json io node (codes "name")
          some (lines_only (env_lines names (sort_by key_le vars))))
