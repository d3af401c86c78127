-- ===== src/Engine/Glob.antt =====
-- `glob_match` of libs/kuli-engine/src/engine.cpp: the loop over indices, on the suffixes that the
-- indices point at.
pub mod Wildcard
pub mod Decide
use kuli.Common.{
  ℕ, zero, suc, ◌+◌, ◌*◌, Bool, true, false, ◌||◌, List, [], ◌∷◌, Option, none, some, length, ◌==◌,
  if◌then◌else◌, Bytes,
}
use mathlib.Core.List.{tail}

-- `star` and `mark`: the pattern after the last star, and the text where that star stopped.
abbrev pub Mark : Type 0
Mark = Option (Bytes × Bytes)

-- The third and fourth branch of the loop.
pub retry : Mark → (Bytes → Bytes → Mark → Option Bool) → Option Bool
retry none next = some false
retry (some (bp, bt)) next = next bp (tail bt) (some (bp, tail bt))

-- The second loop and the final test.
pub only_stars : Bytes → Bool
only_stars [] = true
only_stars (x ∷ p) = let rest = only_stars p in if x == b'*' then rest else false

-- `none` means that the fuel ran out.
pub loop : ℕ → Bytes → Bytes → Mark → Option Bool
loop zero p t mark = none
loop (suc fuel) p [] mark = some (only_stars p)
loop (suc fuel) [] (c ∷ t) mark = retry mark (loop fuel)
loop (suc fuel) (x ∷ p) (c ∷ t) mark =
    let onward = loop fuel p t mark in
    let starred = loop fuel p (c ∷ t) (some (p, c ∷ t)) in
    let again = retry mark (loop fuel) in
    if x == b'?' || x == c then onward else if x == b'*' then starred else again

unfoldable pub glob_run : Bytes → Bytes → Option Bool
unfolding retry only_stars loop
glob_run pat s = loop ((length s + 1) * (length pat + 1)) pat s none

unfoldable pub glob_match : Bytes → Bytes → Bool
unfolding glob_run
glob_match pat s = elim (glob_run pat s) [ none ↦ false | some b ↦ b ]
