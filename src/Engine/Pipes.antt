-- ===== src/Engine/Pipes.antt =====
-- What flows between the stages of a pipeline, and what comes out of it.
use kuli.Common.{
  ℕ, false, List, [], ◌∷◌, ◌++◌, Bytes, ◌≡◌, ◌≢◌, refl, ◌∙◌, codes, All, has_byte, split,
  drop_empty_last, getlines, extend_head, arith, Bool-cases, inl, inr, ◌==◌, is_empty, map,
}
use kuli.Json.{JsonApi, JsonMake}
use kuli.Engine.Value.{JsonText, RawResult, value_string, drop_return, output_lines}
use kuli.Engine.Stage.{stage_doc, member_at, join_lines}
use kuli.Engine.Exec.{
  State, Ending, done, thrown, undefined, too_deep, Run, follow, ◌>>=◌, return, lift, Flow,
  run_stages,
}

-- No line holds a line break.
abbrev pub AreLines : List Bytes → Type 0
AreLines ls = All (λ l. has_byte b'\n' l ≡ false) ls

split-append :
    (l r : Bytes) → has_byte b'\n' l ≡ false → split b'\n' (l ++ b'\n' ∷ r) ≡ l ∷ split b'\n' r
unfolding split has_byte
split-append [] r h = refl
split-append (c ∷ l) r h = ground (arith, split-append l r)

extend_head-ne-nil : (c : ℕ) (ps : List Bytes) → extend_head c ps ≢ []
extend_head-ne-nil c [] e = cc e
extend_head-ne-nil c (p ∷ ps) e = cc e

split-ne-nil : (s : Bytes) → split b'\n' s ≢ []
unfolding split
split-ne-nil [] e = cc e
split-ne-nil (c ∷ s) e = ground (arith, extend_head-ne-nil c (split b'\n' s))

drop_empty_last-cons :
    (l : Bytes) (ps : List Bytes) → ps ≢ [] → drop_empty_last (l ∷ ps) ≡ l ∷ drop_empty_last ps
unfolding drop_empty_last
drop_empty_last-cons l [] h = absurd (h refl)
drop_empty_last-cons l (p ∷ ps) h = refl

-- Lines that are joined are read back.
pub getlines-join_lines : (ls : List Bytes) → AreLines ls → getlines b'\n' (join_lines ls) ≡ ls
unfolding getlines join_lines split drop_empty_last
getlines-join_lines [] h = refl
getlines-join_lines (l ∷ ls) h = rw (
  split-append l (join_lines ls) h.0,
  drop_empty_last-cons l (split b'\n' (join_lines ls)) (split-ne-nil (join_lines ls)),
  getlines-join_lines ls h.1,
)

extend_head-AreLines :
    (c : ℕ) (ps : List Bytes) → (c == b'\n') ≡ false → AreLines ps → AreLines (extend_head c ps)
unfolding has_byte
extend_head-AreLines c [] n h = (ground arith, tt)
extend_head-AreLines c (p ∷ ps) n h = (ground (arith, h.0), h.1)

split-AreLines : (s : Bytes) → AreLines (split b'\n' s)
unfolding split has_byte
split-AreLines [] = (refl, tt)
split-AreLines (c ∷ s) = elim (Bool-cases (c == b'\n')) [
  | inl e ↦ rw e (refl, split-AreLines s)
  | inr e ↦ rw e (extend_head-AreLines c (split b'\n' s) e (split-AreLines s))
]

drop_empty_last-AreLines : (ps : List Bytes) → AreLines ps → AreLines (drop_empty_last ps)
unfolding drop_empty_last
drop_empty_last-AreLines [] h = tt
drop_empty_last-AreLines (p ∷ []) h = elim (Bool-cases (is_empty p)) [
  | inl e ↦ rw e tt
  | inr e ↦ rw e (h.0, tt)
]
drop_empty_last-AreLines (p ∷ q ∷ ps) h = (h.0, drop_empty_last-AreLines (q ∷ ps) h.1)

drop_return-has_byte :
    (l : Bytes) → has_byte b'\n' l ≡ false → has_byte b'\n' (drop_return l) ≡ false
unfolding drop_return has_byte
drop_return-has_byte [] h = refl
drop_return-has_byte (c ∷ []) h = ground arith
drop_return-has_byte (c ∷ d ∷ l) h = ground (arith, drop_return-has_byte (d ∷ l))

map-AreLines : (ls : List Bytes) → AreLines ls → AreLines (map drop_return ls)
map-AreLines [] h = tt
map-AreLines (l ∷ ls) h = (drop_return-has_byte l h.0, map-AreLines ls h.1)

-- What a command or another kuli prints comes as lines.
pub output_lines-AreLines : (s : Bytes) → AreLines (output_lines s)
unfolding output_lines getlines
output_lines-AreLines s = map-AreLines _ (drop_empty_last-AreLines _ (split-AreLines s))

module _ {W A B : Type 0} where
  follow-eq-done :
      (out : State W × Ending A) (f : A → Run W B) {t : State W} {b : B}
      → follow out f ≡ (t, done b)
      → (u : State W) × (a : A) × (out ≡ (u, done a)) × (f a u ≡ (t, done b))
  follow-eq-done (s, done a) f e = (s, a, refl, e)
  follow-eq-done (s, thrown) f e = absurd (cc e)
  follow-eq-done (s, undefined) f e = absurd (cc e)
  follow-eq-done (s, too_deep) f e = absurd (cc e)

  >>=-done :
      (m : Run W A) (f : A → Run W B) (s u : State W) (a : A)
      → m s ≡ (u, done a)
      → (m >>= f) s ≡ f a u
  unfolding ◌>>=◌
  >>=-done m f s u a e = rw e

  >>=-eq-done :
      (m : Run W A) (f : A → Run W B) (s : State W) {t : State W} {b : B}
      → (m >>= f) s ≡ (t, done b)
      → (u : State W) × (a : A) × (m s ≡ (u, done a)) × (f a u ≡ (t, done b))
  unfolding ◌>>=◌
  >>=-eq-done m f s e = follow-eq-done (m s) f e

module _ {J W : Type 0} {json : JsonApi J} (make : JsonMake json) (io : JsonText J)
    (run_sub : J → Run W RawResult) where
  -- The stages `ys` go on where the stages `xs` ended.
  pub run_stages-append :
      (xs ys : List J) (flow f : Flow) (s t : State W)
      → run_stages make io run_sub xs flow s ≡ (t, done f)
      → run_stages make io run_sub (xs ++ ys) flow s ≡ run_stages make io run_sub ys f t
  unfolding run_stages return
  run_stages-append [] ys flow f s t e =
      let same_flow : flow ≡ f = cc e in let same_state : s ≡ t = cc e in rw (same_flow, same_state)
  run_stages-append (x ∷ xs) ys flow f s t e =
      let (u1, place, e1, r1) =
        >>=-eq-done (lift (value_string json io x (codes "at") (codes "local:"))) _ s e in
      let (u2, cmd, e2, r2) = >>=-eq-done (lift (member_at json x (codes "cmd"))) _ u1 r1 in
      let (u3, sr, e3, r3) =
        >>=-eq-done (run_sub (stage_doc make x flow.text (make.string place) cmd)) _ u2 r2 in
      >>=-done (lift (value_string json io x (codes "at") (codes "local:"))) _ s u1 place e1
      ∙ (>>=-done (lift (member_at json x (codes "cmd"))) _ u1 u2 cmd e2
          ∙ (>>=-done (run_sub (stage_doc make x flow.text (make.string place) cmd)) _ u2 u3 sr e3
              ∙ run_stages-append xs ys _ f u3 t r3))

  abbrev pub started : Flow
  started = record { text = []; all_stderr = []; code = 0 }
