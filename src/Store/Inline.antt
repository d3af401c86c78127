-- ===== src/Store/Inline.antt =====
-- `Store::realize_inline` of libs/kuli-store/src/store.cpp, and that its files stay in the slot.
use kuli.Common.{
  true, false, not, List, [], ◌∷◌, ◌++◌, Option, none, some, ◌≡◌, refl, sym, ap, subst,
  if◌then◌else◌, Bytes, codes, components, starts_with, Bool-cases, inl, inr, All,
}
use kuli.Diag.{Diagnostic, diagnostic_error, ok}
use kuli.Crypto.{HashSpec, sha256}
use kuli.Archive.{Effect}
use kuli.Archive.Paths.{FilePath, join, lexically_normal, lexically_relative, leads_out}
use kuli.Archive.Inside.{Names, leads_out_sound}
use kuli.Archive.Place.{Below}
use kuli.Store.{
  Disk, set_slot, missing, unmarked, Env, absent, hit, collision, check_cache, collision_error,
  make_result, tmp_path, Outcome, refused, mark_and_publish,
}

-- `tmp / fs::path(rel)`: an absolute path replaces the base.
abbrev pub slash : FilePath → Bytes → FilePath
slash p rel =
    if starts_with (b'/' ∷ []) rel
    then record { rooted = true; parts = components rel }
    else join p (components rel)

module _ (env : Env) where
  -- The loop over the files: what it writes, and its diagnostic.
  unfoldable pub write_files :
      FilePath → List (Bytes × Bytes) → List Effect → List Effect × Option Diagnostic
  write_files tmp [] done = (done, none)
  write_files tmp ((rel, content) ∷ files) done =
      let target = lexically_normal (slash tmp rel) in
      if leads_out (lexically_relative target tmp)
      then (
        done,
        some (
            diagnostic_error (codes "scripture file escapes its store path: " ++ rel)
              (codes "E0234")),
      )
      else if not (env.writable target)
      then (
        done ++ Effect.half_written target ∷ [],
        some (diagnostic_error (codes "cannot write scripture file: " ++ rel) (codes "E0235")),
      )
      else write_files tmp files (done ++ Effect.write_file target content ∷ [])

  -- Behind the loop.
  unfoldable pub after_files : Disk → Bytes → HashSpec → List Effect × Option Diagnostic → Outcome
  after_files d dir expected (log, some e) = refused (set_slot env d (tmp_path dir) missing) e
  after_files d dir expected (log, none) =
      mark_and_publish env (set_slot env d (tmp_path dir) unmarked) dir [] expected log

  unfoldable pub realize_inline : Disk → Bytes → Bytes → List (Bytes × Bytes) → Outcome
  unfolding after_files
  realize_inline d dir content_id files =
      let expected : HashSpec = record { algo = sha256; hex = content_id } in
      let tmp : FilePath = record {
        rooted = env.root.rooted;
        parts = env.root.parts ++ tmp_path dir ∷ [];
      } in
      elim (check_cache d dir expected) [
        | hit ↦ (d, some (ok (make_result dir [] true)))
        | collision ↦ refused d (collision_error dir)
        | absent ↦ after_files (set_slot env d dir missing) dir expected (write_files tmp files [])
      ]

  slash-rooted :
      (base : List Bytes) (rel : Bytes)
      → (slash (record { rooted = true; parts = base }) rel).rooted ≡ true
  slash-rooted base rel = elim (Bool-cases (starts_with (b'/' ∷ []) rel)) [
    | inl e ↦ rw e refl
    | inr e ↦ rw e refl
  ]

  All-concat :
      (dest : FilePath) (es : List Effect) (e : Effect)
      → All (Below dest) es
      → Below dest e
      → All (Below dest) (es ++ e ∷ [])
  All-concat dest [] e h b = (b, tt)
  All-concat dest (x ∷ es) e h b = (h.0, All-concat dest es e h.1 b)

  target-Below :
      (base : List Bytes) (p : FilePath) (content : Bytes)
      → Names base
      → p.rooted ≡ true
      → leads_out (lexically_relative (lexically_normal p) (record { rooted = true; parts = base }))
        ≡ false
      → Below
          (record { rooted = true; parts = base })
          (Effect.write_file (lexically_normal p) content)
  target-Below base p content n r e =
      let q : p ≡ record { rooted = true; parts = p.parts } =
        ap (λ b. record { rooted = b; parts = p.parts }) r in
      subst
        (λ p'.
          Below (record { rooted = true; parts = base })
            (Effect.write_file (lexically_normal p') content))
        (sym q)
        (leads_out_sound p.parts base n (
          subst
            (λ p'.
              leads_out
                (lexically_relative (lexically_normal p') (record { rooted = true; parts = base }))
              ≡ false)
            q e))

  -- Whatever the names of the files are, absolute ones and ones with `..` included, and also where the
  -- loop ends with an error: each file that it writes lies below the directory, if this is a rooted path
  -- without `.` and `..`.
  pub write_files-Below :
      (base : List Bytes) (files : List (Bytes × Bytes)) (done : List Effect)
      → Names base
      → All (Below (record { rooted = true; parts = base })) done
      → All
          (Below (record { rooted = true; parts = base }))
          (write_files (record { rooted = true; parts = base }) files done).0
  unfolding write_files
  write_files-Below base [] done n h = h
  write_files-Below base ((rel, content) ∷ files) done n h =
      let tmp : FilePath = record { rooted = true; parts = base } in
      elim (Bool-cases (leads_out (lexically_relative (lexically_normal (slash tmp rel)) tmp))) [
        | inl e ↦ rw e h
        | inr e ↦ elim (Bool-cases (env.writable (lexically_normal (slash tmp rel)))) [
          | inr w ↦
              rw (e, w)
                (All-concat tmp done _ h
                  (target-Below base (slash tmp rel) content n (slash-rooted base rel) e))
          | inl w ↦
              rw (e, w)
                (write_files-Below base files _ n (
                  All-concat tmp done _ h
                    (target-Below base (slash tmp rel) content n (slash-rooted base rel) e)))
        ]
      ]
