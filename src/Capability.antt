-- ===== src/Capability.antt =====
-- libs/kuli-bp/src/capability.cpp: constraints on a node's record, the synchronisation of a peer's record
-- and the routing of a command. Signatures, the transport and the JSON library are parameters.
pub mod Constraint
pub mod Sync
use kuli.Common.{
  ℕ, Bool, true, false, not, ◌&&◌, ◌||◌, List, [], ◌∷◌, ◌++◌, Option, none, some, ◌==◌, leb, ltb,
  if◌then◌else◌, Bytes, codes, same, is_empty, starts_with, length, drop, any_same, zero, suc, ◌-◌,
  ◌*◌, ◌+◌, isdigit, isspace,
}
use kuli.Diag.{Diagnostic, diagnostic_error, with_help, exit_code_of, to_string}
use kuli.Engine.Value.{ℤ, pos, negsuc, ◌>>=◌}

-- What the program reads of a JSON record: `value(key, "")`, `value(key, 0)` for the numbers `cpu` and `v`,
-- and the strings among the elements of `value("scriptures", [])`. `none` is the exception that the JSON
-- library throws where the record is no object or the value has another type; nobody catches it.
pub record RecordApi (J : Type 0) : Type 0 where
  pub is_object : J → Bool
  pub text : J → Bytes → Option Bytes
  pub number : J → Bytes → Option ℤ
  pub scriptures : J → Option (List Bytes)
  -- `record.contains(key) && record[key].is_string()`, and the text that is there.
  pub has_string : J → Bytes → Bool
  pub get_string : J → Bytes → Bytes
  -- `record.erase("sig"); record.dump()`.
  pub signing_bytes : J → Bytes
  -- The public key, the message and the signature.
  pub ed25519_verify : Bytes → Bytes → Bytes → Bool
  -- `json::object()`.
  pub empty_object : J

-- `c.find(o)` with the texts before and behind.
unfoldable pub cut_at : Bytes → Bytes → Option (Bytes × Bytes)
cut_at o [] = if is_empty o then some ([], []) else none
cut_at o (c ∷ s) =
    let rest = cut_at o s in
    if starts_with o (c ∷ s)
    then some ([], drop (length o) (c ∷ s))
    else elim rest [ none ↦ none | some (a, b) ↦ some (c ∷ a, b) ]

abbrev pub operators : List Bytes
operators = codes ">=" ∷ codes "<=" ∷ codes ">" ∷ codes "<" ∷ codes "=" ∷ []

unfoldable pub split_on : List Bytes → Bytes → Option (Bytes × (Bytes × Bytes))
split_on [] c = none
split_on (o ∷ os) c = elim (cut_at o c) [
  | none ↦ split_on os c
  | some (key, val) ↦ if is_empty key then none else some (key, (o, val))
]

-- The key, the operator and the value.
unfoldable pub split_constraint : Bytes → Option (Bytes × (Bytes × Bytes))
split_constraint c = split_on operators c

-- Not greater, and smaller.
unfoldable pub int_le : ℤ → ℤ → Bool
int_le (pos m) (pos n) = leb m n
int_le (pos m) (negsuc n) = false
int_le (negsuc m) (pos n) = true
int_le (negsuc m) (negsuc n) = leb n m

unfoldable pub negated : ℕ → ℤ
negated zero = pos 0
negated (suc n) = negsuc n

unfoldable pub digits : ℕ → Bytes → ℕ
digits v [] = v
digits v (c ∷ s) = let rest = digits (v * 10 + (c - b'0')) s in if isdigit c then rest else v

-- `std::strtol` in base ten. That it stops at the ends of a long makes no difference to a comparison with
-- an int.
unfoldable pub strtol : Bytes → ℤ
strtol [] = pos 0
strtol (c ∷ s) =
    let rest = strtol s in
    if isspace c
    then rest
    else if c == b'-'
    then negated (digits 0 s)
    else if c == b'+'
    then pos (digits 0 s)
    else pos (digits 0 (c ∷ s))

unfoldable pub num_cmp : ℤ → Bytes → ℤ → Bool
num_cmp lhs op rhs =
    if same op (codes "=")
    then int_le lhs rhs && int_le rhs lhs
    else if same op (codes ">=")
    then int_le rhs lhs
    else if same op (codes ">")
    then not (int_le lhs rhs)
    else if same op (codes "<=")
    then int_le lhs rhs
    else if same op (codes "<")
    then not (int_le rhs lhs)
    else false

abbrev pub text_keys : List Bytes
text_keys = codes "os" ∷ codes "arch" ∷ codes "host" ∷ codes "kuli" ∷ []

abbrev pub set_keys : List Bytes
set_keys = codes "scripture" ∷ codes "has" ∷ []

-- What a run on a peer gives: the exit code and the parsed output.
pub record Reply (J : Type 0) : Type 0 where
  pub exit_code : ℕ
  pub lines : Option J

module _ {J : Type 0} (api : RecordApi J) where
  unfoldable pub satisfies : J → Bytes × (Bytes × Bytes) → Option Bool
  satisfies rec (key, (op, val)) =
      if any_same key text_keys
      then (if same op (codes "=")
          then (api.text rec key >>= λ t. some (same t val))
          else some false)
      else if same key (codes "cpu")
      then (api.number rec (codes "cpu") >>= λ n. some (num_cmp n op (strtol val)))
      else if any_same key set_keys
      then (api.scriptures rec >>= λ names. some (any_same val names))
      else some false

  unfoldable pub capability_matches : J → List Bytes → Option Bool
  capability_matches rec [] = some true
  capability_matches rec (c ∷ cs) =
      let rest = capability_matches rec cs in
      elim (split_constraint c) [
        | none ↦ some false
        | some parts ↦ satisfies rec parts >>= λ good. if good then rest else some false
      ]

  unfoldable pub capability_verify : J → Bool
  capability_verify rec =
      if not (api.has_string rec (codes "sig"))
      then false
      else if not (api.has_string rec (codes "pubkey"))
      then false
      else api.ed25519_verify (api.get_string rec (codes "pubkey")) (api.signing_bytes rec)
          (api.get_string rec (codes "sig"))

  abbrev pub version : J → Option ℤ
  version rec = api.number rec (codes "v")

  -- `read_json_file` of the peer's cache file.
  abbrev pub cached_record : Option J → J
  cached_record none = api.empty_object
  cached_record (some r) = r

  -- The cache of the peer afterwards, and the exit code, if no exception ends the program.
  abbrev pub failed : Option J → Bytes → Bytes → Option J × Option ℕ
  failed cached message code = (cached, some (exit_code_of (diagnostic_error message code)))

  -- `cached.is_object() && cached.value("v", 0L) >= rec.value("v", 0L)`
  unfoldable pub is_older : Option J → J → Option Bool
  is_older cached rec =
      if api.is_object (cached_record cached)
      then (do old ← version (cached_record cached); new ← version rec; some (int_le new old))
      else some false

  -- The line that is printed behind the writing, while the text is still in the buffer of the stream. An
  -- exception ends the program here with the stack as it is, so the cut file stays, which reads as no record.
  abbrev pub reported : J → Option ℕ
  reported rec = do
    os ← api.text rec (codes "os")
    arch ← api.text rec (codes "arch")
    host ← api.text rec (codes "host")
    v ← version rec
    some 0

  -- The tail of `capability_sync`, on the record that the peer has sent.
  unfoldable pub accept_record : Bool → Bytes → Option J → J → Option J × Option ℕ
  accept_record writable alias cached rec =
      if not (api.is_object rec)
      then failed cached (codes "peer @" ++ alias ++ codes " did not return a capability record")
          (codes "E0691")
      else if not (capability_verify rec)
      then failed cached
          (codes "capability record from @" ++ alias ++ codes " failed signature verification")
          (codes "E0695")
      else elim (is_older cached rec) as (λ _. Option J × Option ℕ) [
        | none ↦ (cached, none)
        | some true ↦ (cached, some 0)
        | some false ↦
            if not writable
            then failed cached (codes "cannot write capability cache") (codes "E0692")
            else elim (reported rec) as (λ _. Option J × Option ℕ) [
              | none ↦ (none, none)
              | some n ↦ (some rec, some n)
            ]
      ]

  unfoldable pub capability_sync : Bool → Bytes → Option J → Reply J → Option J × Option ℕ
  unfolding accept_record
  capability_sync writable alias cached reply =
      if not (reply.exit_code == 0)
      then failed cached
          (codes "capability sync failed for @"
            ++ alias
            ++ codes " (exit "
            ++ to_string reply.exit_code
            ++ codes ")")
          (codes "E0690")
      else elim reply.lines [
        | none ↦
            failed cached (codes "peer @" ++ alias ++ codes " did not return a capability record")
              (codes "E0691")
        | some rec ↦ accept_record writable alias cached rec
      ]

  -- The loop over the candidates: where the command is run, and the record there.
  unfoldable pub first_capable : List (Bytes × J) → List Bytes → Option (Option (Bytes × J))
  first_capable [] need = some none
  first_capable ((at, rec) ∷ more) need =
      let rest = first_capable more need in
      capability_matches rec need >>= λ good. if good then some (some (at, rec)) else rest

  -- `run` gives the exit code of the command at a place, with its output captured or not.
  unfoldable pub route :
      (Bytes → Bool → Option ℕ) → J → List (Bytes × J) → List Bytes → Bytes → Bool → Option ℕ
  route run local peers need fallback no_command =
      if no_command
      then some (
          exit_code_of
            (diagnostic_error (codes "route needs a command (-- <cmd...>)") (codes "E0693")))
      else first_capable ((codes "local:", local) ∷ peers) need >>= λ found. elim found [
        | some (at, rec) ↦
            api.text rec (codes "host") >>= λ host. run at (not (same at (codes "local:")))
        | none ↦
            if same fallback (codes "local")
            then run (codes "local:") false
            else some (
                exit_code_of (
                  with_help
                    (diagnostic_error (codes "no peer satisfies the constraints") (codes "E0694"))
                    (codes "relax --need, sync more peers, or pass --fallback local")))
      ]
