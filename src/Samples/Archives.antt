-- ===== src/Samples/Archives.antt =====
-- Instances of the archive module's theorems.
use kuli.Common.{
  ℕ, zero, suc, ◌+◌, Bool, true, false, List, [], ◌∷◌, ◌++◌, some, ◌≡◌, ◌≢◌, ◌<◌, refl, Bytes,
  codes, length, leb→le, ltb→lt, same, starts_with,
}
use kuli.Diag.{ok}
use kuli.Archive.{default_options}
use kuli.Archive.Paths.{
  FilePath, join, lexically_normal, lexically_relative, leads_out, leads_out-join, NoUp,
}
use kuli.Archive.Inside.{leads_out_sound}
use kuli.Archive.Tar.{
  TarState, overread, no_fuel, scan_tar, round_on, tar_loop, all_zero, byte_at, ends_in_slash,
  header_name, parse_octal, tar_field, tar_entry, read_raw,
}
use kuli.Archive.Tar.Bounds.{scan_tar-total, round_on-overread}
use kuli.Archive.Tar.Overread.{tar_loop-overread}
use kuli.Archive.Format.{Codecs, extract}
use kuli.Archive.Format.Contained.{Contained, extract-Contained}

abbrev dest : FilePath
dest = record { rooted = true; parts = codes "s" ∷ codes "t" ∷ [] }

abbrev all_writable : FilePath → Bool
all_writable p = true

abbrev sample_codecs : Codecs
sample_codecs = record {
  open_zip = λ b. some (
      record {
        stat_ok = true;
        filename = codes "rg/a";
        is_dir = false;
        is_symlink = false;
        inflated = some b;
      }
      ∷ []);
  inflate = λ b. some b;
  unzstd = λ b. ok b;
}

extract-Contained_example : Contained all_writable sample_codecs dest default_options (
    extract all_writable sample_codecs
      (codes "d/x.zip")
      (codes "x.zip")
      (some (codes "bytes"))
      dest
      default_options)
extract-Contained_example =
    extract-Contained all_writable sample_codecs dest default_options (codes "d/x.zip")
      (codes "x.zip") (some (codes "bytes"))

leads_out-join_example :
    leads_out
      (lexically_relative (lexically_normal (join dest (codes "a" ∷ []))) (lexically_normal dest))
    ≡ false
unfolding codes
leads_out-join_example = leads_out-join dest (codes "a" ∷ []) ((λ e. cc e), tt)

leads_out_sound_example :
    (r : List Bytes) × (lexically_normal
        (record { rooted = true; parts = codes "s" ∷ codes "x" ∷ codes ".." ∷ codes "a" ∷ [] })
      ≡ join (record { rooted = true; parts = codes "s" ∷ [] }) r)
    × NoUp r
unfolding codes lexically_normal lexically_relative leads_out same mathlib.Core.Bool.xor
leads_out_sound_example =
    leads_out_sound (codes "s" ∷ codes "x" ∷ codes ".." ∷ codes "a" ∷ []) (codes "s" ∷ [])
      (((λ e. cc e), (λ e. cc e)), tt) refl

zeros : ℕ → Bytes
zeros zero = []
zeros (suc n) = 0 ∷ zeros n

-- The header of an empty plain file named `a`, and no data behind it.
plain_header : Bytes
plain_header = b'a' ∷ zeros 155 ++ b'0' ∷ zeros 355

-- The loop after a PAX header that gave the size 5.
abbrev after_pax : TarState
after_pax = record {
  pos = 0;
  gnu_longname = [];
  pax = record { path = []; size = some 5 };
  entries = [];
}

scan_tar-total_example : scan_tar plain_header ≢ no_fuel
scan_tar-total_example = scan_tar-total plain_header

tar_loop-overread_example : tar_loop 1 plain_header after_pax ≡ overread
unfolding plain_header zeros all_zero byte_at ends_in_slash header_name parse_octal tar_field
    starts_with codes same
tar_loop-overread_example =
    tar_loop-overread 0 plain_header after_pax 5
      (record {
        header_fits = leb→le _ _ refl;
        not_end = refl;
        plain = refl;
        no_slash = refl;
        size_fits = leb→le _ _ refl;
      })
      refl (ltb→lt _ _ refl)

round_on-overread_example : (n : ℕ) × (some 5 ≡ some n) × (length plain_header < 0 + 512 + n)
unfolding plain_header zeros round_on all_zero tar_entry byte_at ends_in_slash header_name read_raw
    parse_octal tar_field starts_with codes same
round_on-overread_example = round_on-overread plain_header after_pax plain_header b'0' 0 refl
