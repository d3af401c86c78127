-- ===== src/Meshell.antt =====
-- `parse_meshell` of libs/kuli-bp/src/meshell.cpp: a line of stages between `|`, each with an optional
-- target, into an IR node. The JSON of the node is the data type `Document`.
pub mod Stages
use kuli.Common.{
  ℕ, Bool, true, false, not, ◌||◌, List, [], ◌∷◌, ◌++◌, Option, none, some, ◌==◌, if◌then◌else◌,
  Bytes, codes, same, is_empty, cut, split, nonempty, isspace, trim_with,
}
use kuli.Diag.{Diagnostic, diagnostic_error, Expected, ok, err, ◌>>=◌}

abbrev pub mesh_error : Bytes → Diagnostic
mesh_error msg = diagnostic_error msg (codes "E0660")

-- `trim`, for spaces and tabs.
abbrev pub trim_blanks : Bytes → Bytes
trim_blanks s = trim_with (λ c. c == b' ' || c == b'\t') s

extend_first : ℕ → List Bytes → List Bytes
extend_first c [] = (c ∷ []) ∷ []
extend_first c (w ∷ ws) = (c ∷ w) ∷ ws

between_spaces : Bytes → List Bytes
between_spaces [] = [] ∷ []
between_spaces (c ∷ s) =
    let rest = between_spaces s in if isspace c then [] ∷ rest else extend_first c rest

-- `while (ss >> tok)`.
unfoldable pub ws_split : Bytes → List Bytes
unfolding extend_first between_spaces
ws_split s = nonempty (between_spaces s)

abbrev pub pipe_split : Bytes → List Bytes
pipe_split s = split b'|' s

unfoldable pub target_to_at : Bytes → Bytes
target_to_at target = if same target (codes "@local") then codes "local:" else target

pub record Stage : Type 0 where
  pub at : Bytes
  pub cmd : List Bytes

-- The stage of the tokens, before the test that it has a command.
unfoldable pub stage_of : Bytes → List Bytes → Stage
stage_of [] more = record { at = codes "local:"; cmd = [] ∷ more }
stage_of (c ∷ head) more =
    if not (c == b'@')
    then record { at = codes "local:"; cmd = (c ∷ head) ∷ more }
    else elim (cut b':' (c ∷ head)) [
      | none ↦ record { at = target_to_at (c ∷ head); cmd = more }
      | some (target, rest) ↦ record {
        at = target_to_at target;
        cmd = if is_empty rest then more else rest ∷ more;
      }
    ]

abbrev pub has_command : Bytes → Stage → Expected Stage
has_command token st = elim st.cmd [
  | [] ↦ err (mesh_error (codes "stage '" ++ token ++ codes "' has a target but no command"))
  | w ∷ ws ↦ ok st
]

unfoldable pub stage_of_tokens : List Bytes → Expected Stage
stage_of_tokens [] = err (mesh_error (codes "empty pipeline stage"))
stage_of_tokens (t ∷ more) = has_command t (stage_of t more)

unfoldable pub parse_stage : Bytes → Expected Stage
parse_stage seg = stage_of_tokens (ws_split (trim_blanks seg))

-- The loop over the segments.
unfoldable pub parse_stages : List Bytes → Expected (List Stage)
parse_stages [] = ok []
parse_stages (seg ∷ segs) = parse_stage seg >>= λ st. parse_stages segs >>= λ sts. ok (st ∷ sts)

pub data Document : Type 0 where
  exec : Stage → Document
  pipeline : List Stage → Document

unfoldable pub document_of : List Stage → Document
document_of (st ∷ []) = exec st
document_of sts = pipeline sts

unfoldable pub parse_meshell : Bytes → Expected Document
parse_meshell line =
    if is_empty (trim_blanks line)
    then err (mesh_error (codes "empty meshell command"))
    else parse_stages (pipe_split line) >>= λ sts. ok (document_of sts)
