-- ===== src/Engine/Remote.antt =====
-- `read_hosts` and the addresses of `route_remote` of libs/kuli-engine/src/engine.cpp.
use kuli.Common.{
  not, ◌||◌, List, [], ◌∷◌, ◌++◌, Option, none, some, if◌then◌else◌, Bytes, codes, is_empty, same,
  starts_with, drop, isspace, nonempty, extend_head,
}
use kuli.Diag.{Diagnostic, diagnostic_error, with_help}
use kuli.Json.{JsonApi, JsonMake}
use kuli.Engine.Value.{JsonText, ◌>>=◌, value_string}

-- `ss >> tok` until the text ends.
pub pieces : Bytes → List Bytes
pieces [] = [] ∷ []
pieces (c ∷ s) = let rest = pieces s in if isspace c then [] ∷ rest else extend_head c rest

unfoldable pub split_ws : Bytes → List Bytes
unfolding pieces
split_ws s = nonempty (pieces s)

-- The six variables of `route_remote`.
pub record Link : Type 0 where
  pub transport : Bytes
  pub target : Bytes
  pub port : Bytes
  pub identity : Bytes
  pub extra : Bytes
  pub remote_kuli : Bytes

abbrev pub link_to : Bytes → Bytes → Link
link_to transport target = record {
  transport = transport;
  target = target;
  port = [];
  identity = [];
  extra = [];
  remote_kuli = codes "kuli";
}

-- A link, or the diagnostic that ends the call with exit code 2.
pub data Resolved : Type 0 where
  link : Link → Resolved
  refused : Diagnostic → Resolved

abbrev pub flag : Bytes → Bytes → List Bytes
flag name v = if is_empty v then [] else name ∷ v ∷ []

unfoldable pub ssh_argv : Link → List Bytes
ssh_argv l =
    codes "ssh"
    ∷ (flag (codes "-p") l.port
        ++ (flag (codes "-i") l.identity
            ++ (split_ws l.extra ++ (l.target ∷ l.remote_kuli ∷ codes "run-ir" ∷ codes "-" ∷ []))))

unfoldable pub spawn_argv : Bytes → Link → List Bytes
spawn_argv current_exe l =
    if same l.transport (codes "local-subprocess")
    then current_exe ∷ codes "run-ir" ∷ codes "-" ∷ []
    else ssh_argv l

unknown_alias : Bytes → Diagnostic
unknown_alias alias =
    with_help
      (diagnostic_error (codes "unknown host alias '@" ++ (alias ++ codes "'")) (codes "E0644"))
      (codes "register it: kuli host add " ++ (alias ++ codes " <user@host>"))

no_transport : Bytes → Diagnostic
no_transport at =
    with_help
      (diagnostic_error (codes "transport for at: '" ++ (at ++ codes "' not implemented yet"))
        (codes "E0640"))
      (codes "supported: local:, local-subprocess:, ssh:<target>, @alias")

module _ {J : Type 0} {json : JsonApi J} (make : JsonMake json) (io : JsonText J) where
  open json use {is_object, contains, at}

  -- The file of `kuli host add`, where it can be opened.
  unfoldable pub read_hosts : Option Bytes → J
  read_hosts none = make.object []
  read_hosts (some content) =
      if is_object (io.parse content) then io.parse content else make.object []

  unfoldable pub alias_link : J → Option Resolved
  alias_link e = do
    transport ← value_string json io e (codes "transport") (codes "ssh")
    target ← value_string json io e (codes "target") []
    port ← value_string json io e (codes "port") []
    identity ← value_string json io e (codes "identity") []
    extra ← value_string json io e (codes "extra") []
    rk ← value_string json io e (codes "remote_kuli") []
    some (
        link (record {
          transport = transport;
          target = target;
          port = port;
          identity = identity;
          extra = extra;
          remote_kuli = if is_empty rk then codes "kuli" else rk;
        }))

  -- `at` without its `@`.
  unfoldable pub resolve_alias : J → Bytes → Option Resolved
  unfolding unknown_alias alias_link
  resolve_alias hosts alias =
      if not (contains hosts alias)
      then some (refused (unknown_alias alias))
      else alias_link (at hosts alias)

  unfoldable pub resolve_scheme : Bytes → Resolved
  unfolding no_transport
  resolve_scheme place =
      if same place (codes "local-subprocess:") || same place (codes "subprocess:")
      then link (link_to (codes "local-subprocess") [])
      else if starts_with (codes "ssh:") place
      then link (link_to (codes "ssh") (drop 4 place))
      else refused (no_transport place)

  unfoldable pub resolve_at : J → Bytes → Option Resolved
  unfolding resolve_alias resolve_scheme
  resolve_at hosts place =
      if starts_with (b'@' ∷ []) place
      then resolve_alias hosts (drop 1 place)
      else some (resolve_scheme place)

  -- The document that the far side runs.
  unfoldable pub local_doc : J → J
  local_doc doc =
      io.put doc (codes "node")
        (io.put (at doc (codes "node")) (codes "at") (make.string (codes "local:")))
