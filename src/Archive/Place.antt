-- ===== src/Archive/Place.antt =====
-- Where extraction writes: below the destination, whatever the archive's names are.
use kuli.Common.{
  Bool, true, false, not, List, [], ◌∷◌, ◌++◌, Option, none, some, ◌≡◌, ◌⊎◌, refl, arith,
  if◌then◌else◌, Bool-cases, inl, inr, Bytes, codes, same_iff, is_empty, All, split, nonempty,
  components, any_same, any_same-getlines,
}
use kuli.Diag.{Diagnostic, Expected, err}
use kuli.Archive.{
  is_unsafe, starts_with_any, Effect, nothing, create_directories, write_file, half_written,
  Placement, placed, rejected, failed, place_rel, place_entry, ExtractOptions, archive_error,
  flatten, slashes, strip_slashes, ArchiveEntry, place_all,
}
use kuli.Archive.Paths.{FilePath, join, dot_dot, NoUp, leads_out-join, path_string}

any_same-NoUp : (ps : List Bytes) → any_same dot_dot ps ≡ false → NoUp (nonempty ps)
unfolding any_same nonempty
any_same-NoUp [] h = tt
any_same-NoUp (p ∷ ps) h = elim (Bool-cases (is_empty p)) [
  | inl e ↦ rw e (any_same-NoUp ps (ground arith))
  | inr e ↦ rw e ((λ f. cc (same_iff_dots f)), any_same-NoUp ps (ground arith))
]
  where
    same_iff_dots : p ≡ dot_dot → true ≡ false
    same_iff_dots f = ground (arith, same_iff p dot_dot)

-- A path that `is_unsafe` lets pass has no `..` component.
pub is_unsafe-NoUp : (rel : Bytes) → is_unsafe rel ≡ false → NoUp (components rel)
unfolding is_unsafe components
is_unsafe-NoUp [] h = unfold split nonempty in tt
is_unsafe-NoUp (c ∷ rel) h =
    any_same-NoUp (split b'/' (c ∷ rel))
      (ground (arith, any_same-getlines b'.' (b'.' ∷ []) b'/' (c ∷ rel)))

-- The effect stays below `dest`: its path is `dest` and then components that lead down only.
abbrev pub Below : FilePath → Effect → Type 0
Below dest nothing = Unit
Below dest (create_directories t) = (r : List Bytes) × (t ≡ join dest r) × NoUp r
Below dest (write_file t c) = (r : List Bytes) × (t ≡ join dest r) × NoUp r
Below dest (half_written t) = (r : List Bytes) × (t ≡ join dest r) × NoUp r

module _ (writable : FilePath → Bool) (dest : FilePath) (opts : ExtractOptions) where
  -- The path of a file or a directory that an entry makes.
  abbrev At : Bytes → Bool → FilePath → Type 0
  At rel is_symlink t =
      (is_symlink ≡ false) × (t ≡ join dest (components rel)) × NoUp (components rel)

  -- What an accepted entry does, and why a refused one is refused.
  abbrev Placed : Bytes → Bool → Placement → Type 0
  Placed rel is_symlink (placed nothing) =
      (is_empty rel ≡ true)
      ⊎ ((is_symlink ≡ false) × (is_unsafe rel ≡ false) × (starts_with_any rel opts.paths ≡ false))
  Placed rel is_symlink (placed (create_directories t)) = At rel is_symlink t
  Placed rel is_symlink (placed (write_file t c)) = At rel is_symlink t
  Placed rel is_symlink (placed (half_written t)) = ⊥
  Placed rel is_symlink (rejected d) = (is_unsafe rel ≡ true) ⊎ (is_symlink ≡ true)
  Placed rel is_symlink (failed t d) = At rel is_symlink t × (writable t ≡ false)

  place_rel-reached :
      (name rel : Bytes) (is_dir : Bool) (content : Bytes)
      → is_unsafe rel ≡ false
      → Placed rel false (
          if is_dir
          then placed (create_directories (join dest (components rel)))
          else if not (writable (join dest (components rel)))
          then failed (join dest (components rel)) (
              archive_error
                (codes "failed to write " ++ path_string (join dest (components rel)))
                (codes "E0216"))
          else placed (write_file (join dest (components rel)) content))
  place_rel-reached name rel true content u = (refl, refl, is_unsafe-NoUp rel u)
  place_rel-reached name rel false content u =
      elim (Bool-cases (writable (join dest (components rel)))) [
        | inl w ↦ rw w (refl, refl, is_unsafe-NoUp rel u)
        | inr w ↦ rw w ((refl, refl, is_unsafe-NoUp rel u), w)
      ]

  -- Past the test for unsafe names the containment test refuses nothing.
  place_rel-safe :
      (name rel : Bytes) (is_dir is_symlink : Bool) (content : Bytes)
      → is_unsafe rel ≡ false
      → is_empty rel ≡ false
      → Placed rel is_symlink (place_rel writable dest name rel is_dir is_symlink content opts)
  unfolding place_rel
  place_rel-safe name rel is_dir true content u e = rw (e, u) (inr refl)
  place_rel-safe name rel is_dir false content u e =
      elim (Bool-cases (starts_with_any rel opts.paths)) [
        | inl s ↦
            rw (e, u, s, leads_out-join dest (components rel) (is_unsafe-NoUp rel u))
              (place_rel-reached name rel is_dir content u)
        | inr s ↦ rw (e, u, s) (inr (refl, u, s))
      ]

  place_rel-Placed :
      (name rel : Bytes) (is_dir is_symlink : Bool) (content : Bytes)
      → Placed rel is_symlink (place_rel writable dest name rel is_dir is_symlink content opts)
  place_rel-Placed name rel is_dir is_symlink content = elim (Bool-cases (is_empty rel)) [
    | inl e ↦ unfold place_rel in rw e (inl e)
    | inr e ↦ elim (Bool-cases (is_unsafe rel)) [
      | inl u ↦ unfold place_rel in rw (e, u) (inl u)
      | inr u ↦ place_rel-safe name rel is_dir is_symlink content u e
    ]
  ]

  -- The name that `place_entry` decides on: slashes turned, the common directory taken off.
  pub placed_name : Bytes → Bytes → Option Bytes
  placed_name top raw = elim (flatten top (slashes raw)) [
    | none ↦ none
    | some rel ↦ some (strip_slashes rel)
  ]

  abbrev pub PlacedAt : Option Bytes → Bool → Placement → Type 0
  PlacedAt none is_symlink r = r ≡ placed nothing
  PlacedAt (some rel) is_symlink r = Placed rel is_symlink r

  after_flatten :
      (o : Option Bytes) (name : Bytes) (is_dir is_symlink : Bool) (content : Bytes)
      → PlacedAt
          (elim o [ none ↦ none | some rel ↦ some (strip_slashes rel) ])
          is_symlink
          (elim o [
            | none ↦ placed nothing
            | some rel ↦
                place_rel writable dest name (strip_slashes rel) is_dir is_symlink content opts
          ])
  after_flatten none name is_dir is_symlink content = refl
  after_flatten (some rel) name is_dir is_symlink content =
      place_rel-Placed name (strip_slashes rel) is_dir is_symlink content

  pub place_entry-PlacedAt :
      (raw : Bytes) (is_dir is_symlink : Bool) (content top : Bytes)
      → PlacedAt
          (placed_name top raw)
          is_symlink
          (place_entry writable dest raw is_dir is_symlink content top opts)
  unfolding placed_name place_entry
  place_entry-PlacedAt raw is_dir is_symlink content top =
      after_flatten (flatten top (slashes raw)) (slashes raw) is_dir is_symlink content

  PlacedAt-Below :
      (o : Option Bytes) (s : Bool) (e : Effect) → PlacedAt o s (placed e) → Below dest e
  PlacedAt-Below none s nothing p = tt
  PlacedAt-Below none s (create_directories t) p = absurd (cc p)
  PlacedAt-Below none s (write_file t c) p = absurd (cc p)
  PlacedAt-Below none s (half_written t) p = absurd (cc p)
  PlacedAt-Below (some rel) s nothing p = tt
  PlacedAt-Below (some rel) s (create_directories t) (_, e, n) = (components rel, e, n)
  PlacedAt-Below (some rel) s (write_file t c) (_, e, n) = (components rel, e, n)
  PlacedAt-Below (some rel) s (half_written t) p = absurd p

  failed-Below :
      (o : Option Bytes) (s : Bool) (t : FilePath) (d : Diagnostic)
      → PlacedAt o s (failed t d)
      → Below dest (half_written t)
  failed-Below none s t d p = absurd (cc p)
  failed-Below (some rel) s t d p = (components rel, p.0.1, p.0.2)

  All-concat :
      (es : List Effect) (e : Effect)
      → All (Below dest) es
      → Below dest e
      → All (Below dest) (es ++ e ∷ [])
  All-concat [] e h b = (b, tt)
  All-concat (x ∷ es) e h b = (h.0, All-concat es e h.1 b)

  pub place_next :
      (r : Placement) (o : Option Bytes) (s : Bool) (done : List Effect)
      (next : List Effect → List Effect × Expected (Unit {0}))
      → PlacedAt o s r
      → All (Below dest) done
      → ((es : List Effect) → All (Below dest) es → All (Below dest) (next es).0)
      → All
          (Below dest)
          (elim r as (λ _. List Effect × Expected (Unit {0})) [
            | placed eff ↦ next (done ++ eff ∷ [])
            | rejected d ↦ (done, err d)
            | failed t d ↦ (done ++ half_written t ∷ [], err d)
          ]).0
  place_next (placed eff) o s done next p h k =
      k (done ++ eff ∷ []) (All-concat done eff h (PlacedAt-Below o s eff p))
  place_next (rejected d) o s done next p h k = h
  place_next (failed t d) o s done next p h k =
      All-concat done (half_written t) h (failed-Below o s t d p)

  -- Whatever the entries are, and also when one of them stops the extraction with an error, all
  -- that was done to the file system lies below the destination.
  pub place_all-Below :
      (top : Bytes) (es : List ArchiveEntry) (done : List Effect)
      → All (Below dest) done
      → All (Below dest) (place_all writable dest top opts es done).0
  unfolding place_all
  place_all-Below top [] done h = h
  place_all-Below top (e ∷ es) done h =
      place_next (place_entry writable dest e.name e.is_dir e.is_symlink e.content top opts)
        (placed_name top e.name) e.is_symlink done (place_all writable dest top opts es)
        (place_entry-PlacedAt e.name e.is_dir e.is_symlink e.content top) h (place_all-Below top es)
