-- ===== src/Source/Entries.antt =====
-- An entry of the registry is found as it was written.
use kuli.Common.{
  Bool, false, ◌||◌, List, [], ◌∷◌, ◌++◌, some, ◌≡◌, Bytes, codes, is_empty, has_byte, cut,
  if◌then◌else◌,
}
use kuli.Source.{trim, front_is}
use kuli.Source.Registry.{SourceEntry, Registry, entry_line}

-- A key that is written as a word starts its line and is read back.
record IsKey (key : Bytes) : Type 0 where
  pub trimmed : trim (key ++ b' ' ∷ []) ≡ key
  pub tight :
      (s : Bytes)
      → trim (entry_line key (b'"' ∷ s ++ b'"' ∷ [])) ≡ entry_line key (b'"' ∷ s ++ b'"' ∷ [])
  pub word :
      (s : Bytes)
      → (is_empty (entry_line key s)
          || front_is b'#' (entry_line key s)
          || front_is b'[' (entry_line key s))
        ≡ false
  pub cuts : (s : Bytes) → cut b'=' (entry_line key s) ≡ some (key ++ b' ' ∷ [], b' ' ∷ s)

-- A field of an entry is one line of text.
pub record IsPlain (e : SourceEntry) : Type 0 where
  pub named : is_empty e.url ≡ false
  pub url : has_byte b'\n' e.url ≡ false
  pub ref : has_byte b'\n' e.ref ≡ false
  pub commit : has_byte b'\n' e.commit ≡ false
  pub added_at : has_byte b'\n' e.added_at ≡ false

abbrev flag_text : Bool → Bytes
flag_text b = if b then codes "true" else codes "false"
