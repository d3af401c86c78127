-- ===== src/Diag.antt =====
-- libs/kuli-diag: diagnostics, the exit-code map and the rendering, with the `std::expected` of a
-- diagnostic that the fallible operations return.
pub mod Chain
use kuli.Common.{
  ℕ, zero, suc, ◌+◌, ◌-◌, ◌/◌, ◌%◌, Bool, true, false, ◌&&◌, List, [], ◌∷◌, ◌++◌, Option, none,
  some, ◌≡◌, refl, ltb, ◌==◌, if◌then◌else◌, Bytes, codes, is_empty, arith,
}

pub data Severity : Type 0 where
  error_level warning note help_level : Severity

pub data Kind : Type 0 where
  general ir_validation sandbox remote_peer no_candidate user_cancel session_interrupt : Kind
  internal : Kind

pub record Span : Type 0 where
  pub file : Bytes
  pub line : ℕ
  pub col : ℕ
  pub label : Bytes

pub record Diagnostic : Type 0 where
  pub kind : Kind
  pub severity : Severity
  pub code : Bytes
  pub message : Bytes
  pub spans : List Span
  pub help : Option Bytes

-- `Diagnostic::of`, `Diagnostic::error`, `with_help` and `with_span`.
abbrev pub diagnostic_of : Kind → Bytes → Bytes → Diagnostic
diagnostic_of k message code = record {
  kind = k;
  severity = error_level;
  code = code;
  message = message;
  spans = [];
  help = none;
}

abbrev pub diagnostic_error : Bytes → Bytes → Diagnostic
diagnostic_error = diagnostic_of general

abbrev pub with_help : Diagnostic → Bytes → Diagnostic
with_help d h = record d { help = some h }

abbrev pub with_span : Diagnostic → Span → Diagnostic
with_span d s = record d { spans = d.spans ++ s ∷ [] }

unfoldable pub exit_code_of_kind : Kind → ℕ
exit_code_of_kind general = 1
exit_code_of_kind ir_validation = 2
exit_code_of_kind sandbox = 3
exit_code_of_kind remote_peer = 4
exit_code_of_kind no_candidate = 5
exit_code_of_kind user_cancel = 6
exit_code_of_kind session_interrupt = 7
exit_code_of_kind internal = 70

abbrev pub exit_code_of : Diagnostic → ℕ
exit_code_of d = exit_code_of_kind d.kind

-- `std::to_string` of a number that is not negative; `n + 1` digits are always enough.
digits_onto : ℕ → ℕ → Bytes → Bytes
digits_onto zero n out = out
digits_onto (suc fuel) n out =
    let shorter = digits_onto fuel (n / 10) ((b'0' + n % 10) ∷ out) in
    if ltb n 10 then (b'0' + n) ∷ out else shorter

unfoldable pub to_string : ℕ → Bytes
unfolding digits_onto
to_string n = digits_onto (n + 1) n []

abbrev severity_word : Severity → Bytes
severity_word error_level = codes "error"
severity_word warning = codes "warning"
severity_word note = codes "note"
severity_word help_level = codes "help"

-- The escape byte, which no literal can spell.
abbrev ansi : Bytes → Bytes
ansi s = 27 ∷ s

abbrev severity_color : Severity → Bytes
severity_color error_level = ansi (codes "[1;31m")
severity_color warning = ansi (codes "[1;33m")
severity_color note = ansi (codes "[1;34m")
severity_color help_level = ansi (codes "[1;34m")

-- The text that a flag puts out or leaves away.
abbrev when : Bool → Bytes → Bytes
when b s = if b then s else []

render_span : Span → Bytes
render_span s =
    if is_empty s.file && s.line == 0
    then (if is_empty s.label then [] else codes "      = " ++ s.label ++ b'\n' ∷ [])
    else codes "  --> "
      ++ s.file
      ++ (if ltb 0 s.line
          then b':' ∷ to_string s.line ++ (if ltb 0 s.col then b':' ∷ to_string s.col else [])
          else [])
      ++ (if is_empty s.label then [] else codes "  " ++ s.label)
      ++ b'\n' ∷ []

render_spans : List Span → Bytes
render_spans [] = []
render_spans (s ∷ ss) = render_span s ++ render_spans ss

render_help : Bool → Option Bytes → Bytes
render_help color none = []
render_help color (some h) =
    codes "      = "
    ++ when color (ansi (codes "[1;34m"))
    ++ codes "help"
    ++ when color (ansi (codes "[0m"))
    ++ codes ": "
    ++ h
    ++ b'\n' ∷ []

unfoldable pub render : Diagnostic → Bool → Bytes
unfolding render_span render_spans render_help
render d color =
    when color (severity_color d.severity)
    ++ severity_word d.severity
    ++ (if is_empty d.code then [] else b'[' ∷ d.code ++ b']' ∷ [])
    ++ when color (ansi (codes "[0m"))
    ++ when color (ansi (codes "[1m"))
    ++ codes ": "
    ++ d.message
    ++ when color (ansi (codes "[0m"))
    ++ b'\n' ∷ []
    ++ render_spans d.spans
    ++ render_help color d.help

-- `std::expected<A, Diagnostic>`.
pub data Expected {ℓ} (A : Type ℓ) : Type ℓ where
  ok : A → Expected A
  err : Diagnostic → Expected A

infixl 5 ◌>>=◌ ◌>>◌
abbrev pub ◌>>=◌ {ℓ κ} : {T : Type ℓ} {U : Type κ} → Expected T → (T → Expected U) → Expected U
err d >>= next = err d
ok value >>= next = next value

abbrev pub ◌>>◌ {ℓ} : {U : Type ℓ} → Expected (Unit {0}) → Expected U → Expected U
first >> rest = first >>= λ u. rest

-- `if (!b) return std::unexpected(e);`
abbrev pub guard : Bool → Diagnostic → Expected (Unit {0})
guard false d = err d
guard true d = ok tt

-- A loop whose body may return an error.
module _ {ℓ} {A : Type ℓ} where
  unfoldable pub for_each : (A → Expected (Unit {0})) → List A → Expected (Unit {0})
  for_each f [] = ok tt
  for_each f (x ∷ xs) = f x >> for_each f xs
