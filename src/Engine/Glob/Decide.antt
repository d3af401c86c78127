-- ===== src/Engine/Glob/Decide.antt =====
-- The loop of `glob_match` ends within its fuel, is right whenever it answers yes, and decides
-- the wildcard's meaning on texts that hold no star byte.
use kuli.Common.{
  ℕ, zero, suc, ◌+◌, ◌*◌, ◌≤◌, ◌<◌, Bool, true, false, ◌||◌, [], ◌∷◌, Option, none, some, ◌≡◌, ◌≢◌,
  ◌↔◌, refl, arith, length, ◌==◌, ==_iff, Bool-cases, inl, inr, Bytes, has_byte,
}
use kuli.Engine.Glob.{Mark, retry, only_stars, loop, glob_run, glob_match}
use kuli.Engine.Glob.Wildcard.{
  Matches, empty, leave, eat, Matches-step, byte_tail, byte_head, must_eat, star_star, skip_first,
  only_stars_iff, at_end,
}

-- What an answer says: yes is right, and no is right under the condition `C`.
abbrev pub Answers : Type 0 → Type 0 → Option Bool → Type 0
Answers G C none = ⊥
Answers G C (some true) = G
Answers G C (some false) = C → ¬ G

-- `G` is the question at the start, `C` the condition, and all patterns in play are shorter
-- than `k`.
module _ (G C : Type 0) (k : ℕ) where
  abbrev Saved : ℕ → Bytes → Bytes → Mark → Type 0
  Saved m p t none = C → G → Matches p t
  Saved m p t (some (bp, bt)) =
      (Matches (b'*' ∷ bp) bt → G)
      × (C → G → Matches (b'*' ∷ bp) bt)
      × (C → Matches bp bt → Matches p t)
      × (C → has_byte b'*' bt ≡ false)
      × (length t ≤ length bt)
      × (length bt ≤ m)
      × (length bp < k)

  record Inv (fuel m : ℕ) (p t : Bytes) (mark : Mark) : Type 0 where
    now : Matches p t → G
    later : C → G → Matches (b'*' ∷ p) t
    saved : Saved m p t mark
    no_star : C → has_byte b'*' t ≡ false
    text_bound : length t ≤ m
    pattern_bound : length p < k
    enough : m * k + length p < fuel

  -- The state right behind a star: the question has become whether `*` and `p` match `t`.
  Inv-restart :
      {fuel m : ℕ} {p t : Bytes}
      → (Matches (b'*' ∷ p) t → G)
      → (C → G → Matches (b'*' ∷ p) t)
      → (C → has_byte b'*' t ≡ false)
      → length t ≤ m
      → length p < k
      → m * k + length p < fuel
      → Inv fuel m p t (some (p, t))
  Inv-restart sound complete clean ht hp hf = record {
    now = λ d. sound (leave refl d);
    later = complete;
    saved = (sound, complete, λ _ d. d, clean, omega arith, ht, hp);
    no_star = clean;
    text_bound = ht;
    pattern_bound = hp;
    enough = hf;
  }

  -- Under the condition a byte that matches the text is no star.
  not_star :
      {x : ℕ} (c : ℕ) (t : Bytes)
      → has_byte b'*' (c ∷ t) ≡ false
      → (x == b'?' || x == c) ≡ true
      → x ≢ b'*'
  unfolding has_byte
  not_star c t h k = ground arith

  no_star_tail : (c : ℕ) (t : Bytes) → has_byte b'*' (c ∷ t) ≡ false → has_byte b'*' t ≡ false
  unfolding has_byte
  no_star_tail c t h = ground arith

  Saved-byte :
      (m x c : ℕ) (p t : Bytes) (mark : Mark)
      → (C → x ≢ b'*')
      → Saved m (x ∷ p) (c ∷ t) mark
      → Saved m p t mark
  Saved-byte m x c p t none n h = λ u g. byte_tail (n u) (h u g)
  Saved-byte m x c p t (some (bp, bt)) n (sound, complete, down, clean, shorter, ht, hp) =
      (sound, complete, λ u d. byte_tail (n u) (down u d), clean, omega arith, ht, hp)

  Inv-byte :
      {fuel m x c : ℕ} {p t : Bytes} {mark : Mark}
      → Inv (suc fuel) m (x ∷ p) (c ∷ t) mark
      → (x == b'?' || x == c) ≡ true
      → Inv fuel m p t mark
  Inv-byte {m} {x} {c} {p} {t} {mark} i h =
      let n = λ (u : C). not_star c t (i.no_star u) h in
      record {
        now = λ d. i.now (Matches-step h d);
        later = λ u g. skip_first t refl (n u) (i.later u g);
        saved = Saved-byte m x c p t mark n i.saved;
        no_star = λ u. no_star_tail c t (i.no_star u);
        text_bound = omega arith;
        pattern_bound = omega arith;
        enough = omega arith;
      }

  Inv-star :
      {fuel m x c : ℕ} {p t : Bytes} {mark : Mark}
      → Inv (suc fuel) m (x ∷ p) (c ∷ t) mark
      → x ≡ b'*'
      → Inv fuel m p (c ∷ t) (some (p, c ∷ t))
  Inv-star i e =
      Inv-restart (λ d. i.now (rw e d)) (λ u g. rw e at (star_star e (i.later u g) refl)) i.no_star
        i.text_bound (omega arith) (omega arith)

  -- After a mismatch the last star has to eat a byte; that lowers `m`, which pays for the pattern.
  retry-Answers :
      {fuel c : ℕ} {p t : Bytes} (m : ℕ) (mark : Mark) (next : Bytes → Bytes → Mark → Option Bool)
      → ((m' : ℕ) (p' t' : Bytes) (mark' : Mark)
          → Inv fuel m' p' t' mark'
          → Answers G C (next p' t' mark'))
      → Inv (suc fuel) m p (c ∷ t) mark
      → ¬ Matches p (c ∷ t)
      → Answers G C (retry mark next)
  unfolding retry
  retry-Answers m none next ih i miss = λ u g. miss (i.saved u g)
  retry-Answers m (some (bp, [])) next ih i miss = absurd (omega arith)
  retry-Answers zero (some (bp, y ∷ bt)) next ih i miss = absurd (omega arith)
  retry-Answers (suc m) (some (bp, y ∷ bt)) next ih i miss =
      let (sound, complete, down, clean, _, _, _) = i.saved in
      ih m bp bt (some (bp, bt)) (
        Inv-restart (λ d. sound (eat refl d))
          (λ u g. must_eat refl (complete u g) (λ d. miss (down u d)))
          (λ u. no_star_tail y bt (clean u)) (omega arith) (omega arith) (omega arith))

  end-Answers :
      (b : Bool) {p : Bytes}
      → (b ≡ true) ↔ Matches p []
      → (Matches p [] → G)
      → (C → G → Matches (b'*' ∷ p) [])
      → Answers G C (some b)
  end-Answers true e now later = now (e.0 refl)
  end-Answers false e now later = λ u g. cc (e.1 (at_end refl (later u g)))

  loop-Answers :
      (fuel m : ℕ) (p t : Bytes) (mark : Mark)
      → Inv fuel m p t mark
      → Answers G C (loop fuel p t mark)
  unfolding loop
  loop-Answers zero m p t mark i = absurd (omega arith)
  loop-Answers (suc fuel) m p [] mark i =
      end-Answers (only_stars p) (only_stars_iff p) i.now i.later
  loop-Answers (suc fuel) m [] (c ∷ t) mark i =
      retry-Answers m mark (loop fuel) (loop-Answers fuel) i (λ d. elim d [ ])
  loop-Answers (suc fuel) m (x ∷ p) (c ∷ t) mark i = elim (Bool-cases (x == b'?' || x == c)) [
    | inl h ↦ rw h (loop-Answers fuel m p t mark (Inv-byte i h))
    | inr h ↦ rw h (elim (Bool-cases (x == b'*')) [
      | inl s ↦
          rw s (loop-Answers fuel m p (c ∷ t) (some (p, c ∷ t)) (Inv-star i ((==_iff x b'*').0 s)))
      | inr s ↦ rw s (
          retry-Answers m mark (loop fuel) (loop-Answers fuel) i
            (λ d. cc (h, byte_head (λ e. cc (s, (==_iff x b'*').1 e)) d)))
    ])
  ]

-- `glob_match`'s loop ends within its fuel. A yes is right for every text; a no is right for
-- every text with no `*` byte in it.
pub glob_run-Answers :
    (pat s : Bytes) → Answers (Matches pat s) (has_byte b'*' s ≡ false) (glob_run pat s)
unfolding glob_run
glob_run-Answers pat s =
    loop-Answers (Matches pat s) (has_byte b'*' s ≡ false) (length pat + 1) _ (length s) pat s none
      (record {
        now = λ d. d;
        later = λ u g. leave refl g;
        saved = λ u g. g;
        no_star = λ u. u;
        text_bound = omega arith;
        pattern_bound = omega arith;
        enough = omega arith;
      })

Answers→iff :
    (G C : Type 0) (o : Option Bool)
    → Answers G C o
    → (elim o [ none ↦ false | some b ↦ b ]) ≡ true
    → G
Answers→iff G C none a h = absurd a
Answers→iff G C (some true) a h = a
Answers→iff G C (some false) a h = absurd (cc h)

Answers→complete :
    (G C : Type 0) (o : Option Bool)
    → Answers G C o
    → C
    → G
    → (elim o [ none ↦ false | some b ↦ b ]) ≡ true
Answers→complete G C none a u g = absurd a
Answers→complete G C (some true) a u g = refl
Answers→complete G C (some false) a u g = absurd (a u g)

-- Where the text holds no `*` byte, `glob_match` answers yes exactly when the wildcard matches.
pub glob_match_iff :
    (pat s : Bytes) → has_byte b'*' s ≡ false → (glob_match pat s ≡ true) ↔ Matches pat s
unfolding glob_match
glob_match_iff pat s u = (
  Answers→iff _ _ (glob_run pat s) (glob_run-Answers pat s),
  Answers→complete _ _ (glob_run pat s) (glob_run-Answers pat s) u,
)

Matches-star : (t : Bytes) → Matches (b'*' ∷ []) t
Matches-star [] = leave refl empty
Matches-star (c ∷ t) = eat refl (Matches-star t)

loop_star_name :
    (fuel c : ℕ) (s : Bytes) → 1 < fuel → loop fuel (b'*' ∷ []) (b'*' ∷ c ∷ s) none ≡ some false
unfolding loop retry
loop_star_name zero c s h = absurd (omega arith)
loop_star_name (suc zero) c s h = absurd (omega arith)
loop_star_name (suc (suc fuel)) c s h = refl

-- On every name of two bytes or more that starts with a `*` byte, the pattern `*`, which means
-- any name, is answered with no.
pub glob_match_star_name :
    (c : ℕ) (s : Bytes)
    → Matches (b'*' ∷ []) (b'*' ∷ c ∷ s) × (glob_match (b'*' ∷ []) (b'*' ∷ c ∷ s) ≡ false)
unfolding glob_match
glob_match_star_name c s = (
  Matches-star (b'*' ∷ c ∷ s),
  rw (
    loop_star_name ((length {A = ℕ} (b'*' ∷ c ∷ s) + 1) * (length {A = ℕ} (b'*' ∷ []) + 1)) c s
        (omega arith),
    glob_match,
  ),
)
