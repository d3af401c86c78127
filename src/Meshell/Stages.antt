-- ===== src/Meshell/Stages.antt =====
-- What an accepted line becomes.
use kuli.Common.{
  ℕ, suc, Bool, true, false, List, [], ◌∷◌, ◌++◌, ◌==◌, ◌≡◌, ◌≢◌, refl, ap, ◌∙◌, inl, inr,
  if◌then◌else◌, Bytes, codes, split, extend_head, subst, count_byte, length, is_empty, All,
  Bool-cases, arith,
}
use kuli.Diag.{Expected, ok, err}
use kuli.Diag.Chain.{>>=-eq-ok}
use kuli.Meshell.{
  Stage, has_command, stage_of, stage_of_tokens, ws_split, trim_blanks, parse_stage, parse_stages,
  Document, exec, pipeline, document_of, parse_meshell, pipe_split, mesh_error,
}

abbrev HasCommand : Stage → Type 0
HasCommand st = st.cmd ≢ []

has_command-ok :
    (token : Bytes) (st : Stage) {r : Stage} → has_command token st ≡ ok r → HasCommand r
has_command-ok token st {r} e = by_cmd st.cmd refl e
  where
    by_cmd :
        (cmd : List Bytes)
        → st.cmd ≡ cmd
        → (elim cmd as (λ _. Expected Stage) [
          | [] ↦
              err (mesh_error (codes "stage '" ++ token ++ codes "' has a target but no command"))
          | w ∷ ws ↦ ok st
        ])
          ≡ ok r
        → HasCommand r
    by_cmd [] c e = absurd (cc e)
    by_cmd (w ∷ ws) c e = λ z. cc (c, e, z)

parse_stage-ok : (seg : Bytes) {r : Stage} → parse_stage seg ≡ ok r → HasCommand r
unfolding parse_stage
parse_stage-ok seg {r} e = by_tokens (ws_split (trim_blanks seg)) e
  where
    by_tokens : (ts : List Bytes) → stage_of_tokens ts ≡ ok r → HasCommand r
    by_tokens [] e = unfold stage_of_tokens in absurd (cc e)
    by_tokens (t ∷ more) e = unfold stage_of_tokens in has_command-ok t (stage_of t more) {r = r} e

parse_stages-ok :
    (segs : List Bytes) {sts : List Stage}
    → parse_stages segs ≡ ok sts
    → All HasCommand sts × (length sts ≡ length segs)
unfolding parse_stages
parse_stages-ok [] {sts} e =
    let q : [] ≡ sts = cc e in subst (λ z. All HasCommand z × (length z ≡ 0)) q (tt, refl)
parse_stages-ok (seg ∷ segs) {sts} e =
    let (st, e1, e2) = >>=-eq-ok (parse_stage seg) _ e in
    let (more, e3, e4) = >>=-eq-ok (parse_stages segs) _ e2 in
    let (a, n) = parse_stages-ok segs e3 in
    let q : st ∷ more ≡ sts = cc e4 in
    subst (λ z. All HasCommand z × (length z ≡ suc (length segs))) q
      ((parse_stage-ok seg e1, a), ap suc n)

length-split : (c : ℕ) (s : Bytes) → length (split c s) ≡ suc (count_byte c s)
unfolding split count_byte
length-split c [] = refl
length-split c (x ∷ s) = elim (Bool-cases (x == c)) [
  | inl e ↦ rw e (ap suc (length-split c s))
  | inr e ↦ rw e (extended x (split c s) (count_byte c s) (length-split c s))
]
  where
    extended :
        (x : ℕ) (ps : List Bytes) (n : ℕ) → length ps ≡ suc n → length (extend_head x ps) ≡ suc n
    extended x [] n e = absurd (omega arith)
    extended x (p ∷ ps) n e = e

-- Every stage has a command, and there is one more stage than there are bars in the line; a line without a
-- bar becomes an Exec node, one with bars a Pipeline.
abbrev pub Runs : Bytes → Document → Type 0
Runs line (exec st) = HasCommand st × (count_byte b'|' line ≡ 0)
Runs line (pipeline sts) =
    All HasCommand sts × (length sts ≡ suc (count_byte b'|' line)) × (count_byte b'|' line ≢ 0)

document_of-Runs :
    (line : Bytes) (sts : List Stage)
    → All HasCommand sts
    → length sts ≡ suc (count_byte b'|' line)
    → Runs line (document_of sts)
unfolding document_of
document_of-Runs line [] h n = absurd (omega arith)
document_of-Runs line (st ∷ []) h n = (h.0, omega arith)
document_of-Runs line (st ∷ next ∷ more) h n = (h, n, λ z. omega arith)

-- Every stage of an accepted line has a command, and there is one more of them than there are bars in the
-- line: without a bar the node is an Exec, with bars it is a Pipeline.
pub parse_meshell-Runs :
    (line : Bytes) {doc : Document} → parse_meshell line ≡ ok doc → Runs line doc
unfolding parse_meshell
parse_meshell-Runs line {doc} e =
    let (sts, e1, e2) =
      >>=-eq-ok (parse_stages (pipe_split line)) _ (not_empty (is_empty (trim_blanks line)) _ e) in
    let (a, n) = parse_stages-ok (pipe_split line) e1 in
    let q : document_of sts ≡ doc = cc e2 in
    subst (Runs line) q (document_of-Runs line sts a (n ∙ length-split b'|' line))
  where
    not_empty :
        (b : Bool) (r : Expected Document)
        → (if b then err (mesh_error (codes "empty meshell command")) else r) ≡ ok doc
        → r ≡ ok doc
    not_empty true r e = absurd (cc e)
    not_empty false r e = e
