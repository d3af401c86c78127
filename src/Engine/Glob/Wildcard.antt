-- ===== src/Engine/Glob/Wildcard.antt =====
-- The classic meaning of a `*` / `?` wildcard, with no search order in it.
use native.Mathlib.Decide.{ℕ_discrete}
use kuli.Common.{
  ℕ, true, ◌||◌, [], ◌∷◌, ◌≡◌, ◌≢◌, ◌↔◌, ◌==◌, refl, Bytes, arith, Bool-cases, inl, inr, ==_iff,
}
use kuli.Engine.Glob.{only_stars}

-- `*` stands for any run of bytes, `?` for any byte, and any other byte for itself.
pub data Matches : Bytes → Bytes → Type 0 where
  empty : Matches [] []
  byte :
      {x c : ℕ} {p s : Bytes}
      → (x == b'?' || x == c) ≡ true
      → x ≢ b'*'
      → Matches p s
      → Matches (x ∷ p) (c ∷ s)
  leave : {x : ℕ} {p s : Bytes} → x ≡ b'*' → Matches p s → Matches (x ∷ p) s
  eat : {x c : ℕ} {p s : Bytes} → x ≡ b'*' → Matches (x ∷ p) s → Matches (x ∷ p) (c ∷ s)

module _ {p : Bytes} where
  -- A round of the first branch is right also where pattern and text both show a star.
  pub Matches-step :
      {x c : ℕ} {s : Bytes} → (x == b'?' || x == c) ≡ true → Matches p s → Matches (x ∷ p) (c ∷ s)
  Matches-step {x} h d = elim (ℕ_discrete x b'*') [ yes e ↦ eat e (leave e d) | no n ↦ byte h n d ]

  pub byte_tail : {x c : ℕ} {s : Bytes} → x ≢ b'*' → Matches (x ∷ p) (c ∷ s) → Matches p s
  byte_tail n (byte h m d) = d
  byte_tail n (leave e d) = absurd (n e)
  byte_tail n (eat e d) = absurd (n e)

  pub byte_head :
      {x c : ℕ} {s : Bytes} → x ≢ b'*' → Matches (x ∷ p) (c ∷ s) → (x == b'?' || x == c) ≡ true
  byte_head n (byte h m d) = h
  byte_head n (leave e d) = absurd (n e)
  byte_head n (eat e d) = absurd (n e)

  pub at_end : {x : ℕ} → x ≡ b'*' → Matches (x ∷ p) [] → Matches p []
  at_end e (leave f d) = d

  pub must_eat :
      {x c : ℕ} {s : Bytes}
      → x ≡ b'*'
      → Matches (x ∷ p) (c ∷ s)
      → ¬ Matches p (c ∷ s)
      → Matches (x ∷ p) s
  must_eat e (byte h m d) n = absurd (m e)
  must_eat e (leave f d) n = absurd (n d)
  must_eat e (eat f d) n = d

  pub star_star :
      {x y : ℕ} {s : Bytes} → y ≡ b'*' → Matches (x ∷ y ∷ p) s → x ≡ b'*' → Matches (y ∷ p) s
  star_star e (byte h m d) f = absurd (m f)
  star_star e (leave g d) f = d
  star_star e (eat g d) f = eat e (star_star e d f)

  -- Why the leftmost choice loses nothing: wherever a plain byte matches behind a star, the rest
  -- of the pattern can start behind the first byte.
  pub skip_first :
      {x y c : ℕ} (s : Bytes)
      → x ≡ b'*'
      → y ≢ b'*'
      → Matches (x ∷ y ∷ p) (c ∷ s)
      → Matches (x ∷ p) s
  skip_first s e n (byte h m d) = absurd (m e)
  skip_first s e n (leave f d) = leave e (byte_tail n d)
  skip_first [] e n (eat f (leave g d)) = absurd (empty_text n d)
    where
      empty_text : {y : ℕ} → y ≢ b'*' → Matches (y ∷ p) [] → ⊥
      empty_text m (leave f d) = m f
  skip_first (c' ∷ s) e n (eat f d) = eat e (skip_first s e n d)

not-Matches-nil : {c : ℕ} {s : Bytes} → ¬ Matches [] (c ∷ s)
not-Matches-nil = λ d. elim d [ ]

only_stars→Matches : (p : Bytes) → only_stars p ≡ true → Matches p []
unfolding only_stars
only_stars→Matches [] h = empty
only_stars→Matches (x ∷ p) h = elim (Bool-cases (x == b'*')) [
  | inl e ↦ leave ((==_iff x b'*').0 e) (only_stars→Matches p (ground arith))
  | inr e ↦ absurd (ground arith)
]

Matches→only_stars : {p : Bytes} → Matches p [] → only_stars p ≡ true
unfolding only_stars
Matches→only_stars empty = refl
Matches→only_stars (leave e d) = ground (arith, Matches→only_stars d)

pub only_stars_iff : (p : Bytes) → (only_stars p ≡ true) ↔ Matches p []
only_stars_iff p = (only_stars→Matches p, Matches→only_stars)
