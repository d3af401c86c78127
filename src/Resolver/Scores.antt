-- ===== src/Resolver/Scores.antt =====
-- What the scores of an asset's name are worth.
use native.Mathlib.Omega.{arith}
use kuli.Common.{ℕ, ◌+◌, ◌≤◌, Bool, true, false, ◌||◌, ◌≡◌, refl, Bytes, codes}
use kuli.Resolver.{higher, points, contains_ci, is_windows, is_mac, is_arm, score_linux}

points_le : (b : Bool) (n : ℕ) → points b n ≤ n
points_le b n = ground arith

-- The name has the words of a 64-bit Linux build and none of another system or processor.
pub record IsLinuxName (n : Bytes) : Type 0 where
  pub x64 :
      (contains_ci n (codes "x86_64")
        || contains_ci n (codes "amd64")
        || contains_ci n (codes "x64"))
      ≡ true
  pub linux : contains_ci n (codes "linux") ≡ true
  pub no_windows : is_windows n ≡ false
  pub no_mac : is_mac n ≡ false
  pub no_arm : is_arm n ≡ false

total :
    (a b c d e f : ℕ)
    → 5 ≤ a
    → 5 ≤ b
    → d + e + f ≡ 0
    → (g h i j k l : ℕ) → g ≤ 5
    → h ≤ 5
    → i ≤ 2
    → 10 ≤ j + k + l
    → higher
        (record { plus = a + b + c; minus = d + e + f })
        (record { plus = g + h + i; minus = j + k + l })
      ≡ true
unfolding higher
total a b c d e f ha hb hc g h i j k l hg hh hi hj = ground arith

penalty : (w m r : Bool) → (w || m || r) ≡ true → 10 ≤ points w 10 + points m 10 + points r 10
penalty w m r h = ground arith

-- A name of a 64-bit Linux build scores higher for Linux than every name with the words of Windows, of
-- macOS or of an ARM processor, whatever else the two names hold.
pub score_linux-higher :
    (good bad : Bytes)
    → IsLinuxName good
    → (is_windows bad || is_mac bad || is_arm bad) ≡ true
    → higher (score_linux good) (score_linux bad) ≡ true
unfolding score_linux
score_linux-higher good bad v p =
    rw (v.x64, v.linux, v.no_windows, v.no_mac, v.no_arm)
      (total 5 5 _ 0 0 0 (omega arith) (omega arith) refl _ _ _ _ _ _ (points_le _ 5)
        (points_le _ 5) (points_le _ 2) (penalty _ _ _ p))
