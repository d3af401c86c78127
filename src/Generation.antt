-- ===== src/Generation.antt =====
-- libs/kuli-bp/src/generation.cpp and libs/kuli-platform/src/shim.cpp (POSIX): the files that a generation
-- deploys, with their backups, and the shims it writes. Files are known by their paths' texts.
pub mod Profile
pub mod Restore
pub mod History
pub mod Switch
use kuli.Common.{
  ℕ, Bool, true, false, not, ◌&&◌, ◌||◌, List, [], ◌∷◌, ◌++◌, Option, none, some, reverse,
  if◌then◌else◌, Bytes, codes, same, is_empty, cut, starts_with, drop, ◌==◌,
}

abbrev pub Files : Type 0
Files = Bytes → Option Bytes

abbrev pub put : Files → Bytes → Option Bytes → Files
put w path content = λ p. if same p path then content else w p

pub exists : Files → Bytes → Bool
exists w path = elim (w path) [ none ↦ false | some c ↦ true ]

-- What the system decides: which files can be opened for writing, whether the permission bits can be
-- set, and the program's own path.
pub record Host : Type 0 where
  pub home : Bytes
  pub exe : Bytes
  pub writable : Bytes → Bool
  pub perms_ok : Bytes → Bool
  -- Whether the backup of a target can be copied, and what a copy that fails leaves at its place.
  pub copies : Bytes → Bool
  pub left_over : Bytes → Option Bytes

abbrev pub backup : Bytes → Bytes
backup target = target ++ codes ".kuli-bak"

-- `out /= fs::path(rest)`.
under : Bytes → Bytes → Bytes
under base rest =
    if is_empty rest
    then base
    else if starts_with (b'/' ∷ []) rest
    then rest
    else base ++ b'/' ∷ rest

after_tilde : Bytes → Bytes
after_tilde [] = []
after_tilde (c ∷ s) = if c == b'/' || c == b'\\' then s else c ∷ s

unfoldable pub expand_path : Host → Bytes → Bytes
unfolding under after_tilde
expand_path host [] = []
expand_path host (c ∷ s) = if not (c == b'~') then c ∷ s else under host.home (after_tilde s)

-- The part of `deploy_file` before the target is opened. That the copy fails is not looked at.
unfoldable pub back_up : Host → Files → Bytes → Files
unfolding exists
back_up host w target =
    if exists w target && not (exists w (backup target))
    then put w (backup target) (if host.copies target then w target else host.left_over target)
    else w

unfoldable pub deploy_file : Host → Files → Bytes → Bytes → Files × Bool
deploy_file host w target content =
    if host.writable target
    then (put (back_up host w target) target (some content), true)
    else (back_up host w target, false)

unfoldable pub remove_deployed : Files → Bytes → Files
unfolding exists
remove_deployed w target =
    if exists w (backup target)
    then put (put (put w target none) target (w (backup target))) (backup target) none
    else put w target none

-- `bin_dir / alias`, for an alias without a root.
abbrev pub shim_path : Bytes → Bytes → Bytes
shim_path bin_dir alias = bin_dir ++ b'/' ∷ alias

abbrev write_script : Host → Files → Bytes → Bytes → Files × Bool
write_script host w path script =
    if host.writable path then (put w path (some script), host.perms_ok path) else (w, false)

unfoldable pub write_shim : Host → Files → Bytes → Bytes → Bytes → Files × Bool
write_shim host w bin_dir alias target =
    write_script host w (shim_path bin_dir alias)
      (codes "#!/bin/sh\nexec \"" ++ target ++ codes "\" \"$@\"\n")

unfoldable pub write_basename_shim : Host → Files → Bytes → Bytes → Files × Bool
write_basename_shim host w bin_dir alias = write_script host w (shim_path bin_dir alias) (
    codes "#!/bin/sh\nexec \""
    ++ host.exe
    ++ codes "\" --basename "
    ++ alias
    ++ codes " -- \"$@\"\n")

abbrev pub remove_shim : Files → Bytes → Bytes → Files
remove_shim w bin_dir alias = put w (shim_path bin_dir alias) none

-- `fs::path(bin).stem()`.
last_part : Bytes → Bytes
last_part s = elim (cut b'/' (reverse s)) [ none ↦ s | some (a, b) ↦ reverse a ]

stem : Bytes → Bytes
stem base = if same base (codes "..") then base else elim (cut b'.' (reverse base)) [
  | none ↦ base
  | some (a, b) ↦ if is_empty b then base else reverse b
]

unfoldable pub shim_basename : Bytes → Bytes
unfolding last_part stem
shim_basename bin = stem (last_part bin)
