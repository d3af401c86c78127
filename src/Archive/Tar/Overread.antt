-- ===== src/Archive/Tar/Overread.antt =====
-- A PAX size that the data does not hold makes the reader leave the buffer.
use kuli.Common.{ℕ, suc, ◌+◌, ◌≤◌, ◌<◌, false, none, some, ◌≡◌, arith, Bytes, length}
use kuli.Archive.Tar.{
  TarState, overread, stop, round_on, tar_round, tar_loop, tar_entry, read_raw, ends_in_slash,
  or_else, header_name, parse_octal, slice, all_zero, byte_at,
}

-- The header at the position is that of a plain file whose own size fits in the data.
pub record IsPlainHeader (d : Bytes) (st : TarState) : Type 0 where
  pub header_fits : st.pos + 512 ≤ length d
  pub not_end : all_zero (slice d st.pos 512) ≡ false
  pub plain : byte_at (slice d st.pos 512) 156 ≡ b'0'
  pub no_slash :
      ends_in_slash
        (or_else st.pax.path (or_else st.gnu_longname (header_name (slice d st.pos 512))))
      ≡ false
  pub size_fits : st.pos + 512 + parse_octal (slice d st.pos 512) 124 12 ≤ length d

tar_entry-overread :
    (d : Bytes) (st : TarState) (h : Bytes) (size n : ℕ)
    → ends_in_slash (or_else st.pax.path (or_else st.gnu_longname (header_name h))) ≡ false
    → st.pax.size ≡ some n
    → length d < st.pos + 512 + n
    → st.pos + 512 ≤ length d
    → tar_entry d st h b'0' size ≡ none
unfolding tar_entry read_raw
tar_entry-overread d st h size n s p b f = ground arith

tar_round-overread :
    (d : Bytes) (st : TarState) (n : ℕ)
    → IsPlainHeader d st
    → st.pax.size ≡ some n
    → length d < st.pos + 512 + n
    → tar_round d st ≡ stop overread
unfolding tar_round
tar_round-overread d st n v p b = rw v.plain (
    on_plain (slice d st.pos 512) (parse_octal (slice d st.pos 512) 124 12) v.not_end v.size_fits
      (tar_entry-overread d st (slice d st.pos 512) _ n v.no_slash p b v.header_fits))
  where
    on_plain :
        (h : Bytes) (size : ℕ)
        → all_zero h ≡ false
        → st.pos + 512 + size ≤ length d
        → tar_entry d st h b'0' size ≡ none
        → round_on d st h b'0' size ≡ stop overread
    on_plain h size z f e = unfold round_on in ground arith

-- Behind a PAX header that gives a size past the end of the data, a plain file whose own header is
-- in order is read past the end of the buffer: no test stands before that read.
pub tar_loop-overread :
    (fuel : ℕ) (d : Bytes) (st : TarState) (n : ℕ)
    → IsPlainHeader d st
    → st.pax.size ≡ some n
    → length d < st.pos + 512 + n
    → tar_loop (suc fuel) d st ≡ overread
unfolding tar_loop
tar_loop-overread fuel d st n v p b = rw (tar_round-overread d st n v p b) (ground arith)
