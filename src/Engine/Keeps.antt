-- ===== src/Engine/Keeps.antt =====
-- Rules for what a handler keeps of the state, however it ends.
use kuli.Common.{Bool, true, false, Option, none, some, if◌then◌else◌, ◌≡◌, refl}
use kuli.Engine.Exec.{
  State, Ending, done, thrown, undefined, too_deep, Run, follow, ◌>>=◌, ◌>>◌, return, lift,
}

-- The calls within calls were not cut off.
abbrev pub IsComplete : {A : Type 0} → Ending A → Type 0
IsComplete (done a) = Unit
IsComplete thrown = Unit
IsComplete undefined = Unit
IsComplete too_deep = ⊥

module _ {W : Type 0} (R : State W → State W → Type 0) (same_state : (s : State W) → R s s)
    (chain : (a b c : State W) → R a b → R b c → R a c) where
  pub record Keeps {A : Type 0} (m : Run W A) : Type 0 where
    pub holds : (s : State W) → R s (m s).0 × IsComplete (m s).1

  pub return-Keeps : {A : Type 0} (a : A) → Keeps (return {W = W} {A = A} a)
  unfolding return
  return-Keeps a = record { holds = λ s. (same_state s, tt) }

  pub lift-Keeps : {A : Type 0} (o : Option A) → Keeps (lift {W = W} {A = A} o)
  unfolding lift
  lift-Keeps none = record { holds = λ s. (same_state s, tt) }
  lift-Keeps (some a) = record { holds = λ s. (same_state s, tt) }

  follow-Keeps :
      {A B : Type 0} (s : State W) (out : State W × Ending A) (f : A → Run W B)
      → R s out.0 × IsComplete out.1
      → ((a : A) → Keeps (f a))
      → R s (follow out f).0 × IsComplete (follow out f).1
  follow-Keeps s (s', done a) f k h = (chain s s' _ k.0 ((h a).holds s').0, ((h a).holds s').1)
  follow-Keeps s (s', thrown) f k h = k
  follow-Keeps s (s', undefined) f k h = k
  follow-Keeps s (s', too_deep) f k h = absurd k.1

  pub >>=-Keeps :
      {A B : Type 0} (m : Run W A) (f : A → Run W B)
      → Keeps m
      → ((a : A) → Keeps (f a))
      → Keeps (m >>= f)
  unfolding ◌>>=◌
  >>=-Keeps m f k h = record { holds = λ s. follow-Keeps s (m s) f (k.holds s) h }

  -- A value that is at hand.
  pub >>=-known :
      {A B : Type 0} (a : A) (f : A → Run W B) → Keeps (f a) → Keeps (lift (some a) >>= f)
  unfolding ◌>>=◌ lift
  >>=-known a f h = record { holds = h.holds }

  -- A value that a known option has.
  pub lift->>=-Keeps :
      {A B : Type 0} (o : Option A) (f : A → Run W B)
      → ((a : A) → o ≡ some a → Keeps (f a))
      → Keeps (lift o >>= f)
  unfolding ◌>>=◌ lift
  lift->>=-Keeps none f h = record { holds = λ s. (same_state s, tt) }
  lift->>=-Keeps (some a) f h = record { holds = (h a refl).holds }

  pub >>-Keeps : {A B : Type 0} (m : Run W A) (k : Run W B) → Keeps m → Keeps k → Keeps (m >> k)
  unfolding ◌>>◌
  >>-Keeps m k h j = >>=-Keeps m (λ _. k) h (λ _. j)

  pub if-Keeps :
      {A : Type 0} (b : Bool) (m n : Run W A) → Keeps m → Keeps n → Keeps (if b then m else n)
  if-Keeps true m n h k = h
  if-Keeps false m n h k = k
