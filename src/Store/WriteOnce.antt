-- ===== src/Store/WriteOnce.antt =====
-- What the store has published under a name of one component, no operation on such a name changes.
use kuli.Common.{
  true, false, List, [], ◌∷◌, ◌++◌, Option, none, some, ◌≡◌, ◌≢◌, refl, sym, ap, ◌∙◌, inl, inr,
  Bytes, same, same_iff, starts_with, Bool-cases, arith,
}
use kuli.Diag.{Diagnostic, Expected, ok, err}
use kuli.Crypto.{HashSpec, sha256}
use kuli.Archive.{Effect}
use kuli.Store.{
  is_component, mark_and_publish, missing, unmarked, marked, Disk, set_slot, set_download, Env,
  CacheState, absent, hit, collision, cache_of, check_cache, Outcome, refused, store_path, tmp_path,
  url_ext, realize_from_archive, fetch_then_realize, realize_fetch,
}
use kuli.Store.Inline.{realize_inline, after_files}
use kuli.Store.Laws.{
  Apart, Apart-trans, set_slot-Apart, set_tmp-Apart, realize_from_archive-Steps,
  mark_and_publish-Realizes,
}

-- Not the name of a temporary directory.
abbrev pub IsPlain : Bytes → Type 0
IsPlain n = starts_with (b'.' ∷ []) n ≡ false

IsPlain-tmp_path : (n dir : Bytes) → IsPlain n → n ≢ tmp_path dir
unfolding starts_with
IsPlain-tmp_path n dir p e = cc (p)

-- Every published directory is there as it was.
abbrev pub Grows : Disk → Disk → Type 0
Grows d d' =
    (n sha : Bytes) (tree : List Effect)
    → is_component n ≡ true
    → IsPlain n
    → d.slots n ≡ marked sha tree
    → d'.slots n ≡ marked sha tree

cache_of-marked : (sha hex : Bytes) (tree : List Effect) → cache_of (marked sha tree) hex ≢ absent
unfolding cache_of
cache_of-marked sha hex tree e = ground arith

-- An operation on `dir` that looks at the marker first, and else keeps to `dir` and its temporary
-- directory.
guarded :
    (d : Disk) (dir : Bytes) (c : CacheState) (a b e : Outcome)
    → a.0 ≡ d
    → b.0 ≡ d
    → ((sha : Bytes) (tree : List Effect) → d.slots dir ≡ marked sha tree → c ≢ absent)
    → Apart d dir e.0
    → Grows d (elim c as (λ _. Outcome) [ hit ↦ a | collision ↦ b | absent ↦ e ]).0
guarded d dir hit a b e p q unfit frame n sha tree c plain h = rw p h
guarded d dir collision a b e p q unfit frame n sha tree c plain h = rw q h
guarded d dir absent a b e p q unfit frame n sha tree c plain h = elim (Bool-cases (same n dir)) [
  | inl s ↦ absurd (unfit sha tree (rw (sym ((same_iff n dir).0 s)) h) refl)
  | inr s ↦ frame n c (λ e. cc (s, (same_iff n dir).1 e)) (IsPlain-tmp_path n dir plain) ∙ h
]

module _ (env : Env) where
  unfit :
      (d : Disk) (dir : Bytes) (expected : HashSpec) (sha : Bytes) (tree : List Effect)
      → d.slots dir ≡ marked sha tree
      → check_cache d dir expected ≢ absent
  unfolding check_cache
  unfit d dir expected sha tree h e =
      cache_of-marked sha expected.hex tree (ap (λ s. cache_of s expected.hex) (sym h) ∙ e)

  fetched-Apart :
      (d : Disk) (hash16 name url bin : Bytes) (expected : HashSpec) (r : Expected Bytes)
      → is_component (store_path hash16 name) ≡ true
      → Apart d
          (store_path hash16 name)
          (elim r as (λ _. Outcome) [
            | err e ↦
                refused
                  (set_download d
                    (hash16 ++ url_ext url)
                    (env.spoiled url (d.downloads (hash16 ++ url_ext url))))
                  e
            | ok content ↦
                realize_from_archive env
                  (set_download d (hash16 ++ url_ext url) (some content))
                  hash16
                  name
                  (hash16 ++ url_ext url)
                  expected
                  bin
          ]).0
  fetched-Apart d hash16 name url bin expected (err e) c = λ n k p q. refl
  fetched-Apart d hash16 name url bin expected (ok content) c =
      (realize_from_archive-Steps env (set_download d (hash16 ++ url_ext url) (some content)) hash16
          name (hash16 ++ url_ext url) expected bin).1.0
        c

  pub realize_fetch-Grows :
      (d : Disk) (hash16 name url : Bytes) (expected : HashSpec) (bin : Bytes)
      → is_component (store_path hash16 name) ≡ true
      → Grows d (realize_fetch env d hash16 name url expected bin).0
  unfolding realize_fetch fetch_then_realize
  realize_fetch-Grows d hash16 name url expected bin c =
      guarded d (store_path hash16 name) (check_cache d (store_path hash16 name) expected) _ _ _
        refl refl (unfit d (store_path hash16 name) expected)
        (fetched-Apart d hash16 name url bin expected (env.fetch url expected) c)

  files-Apart :
      (d : Disk) (dir : Bytes) (expected : HashSpec) (r : List Effect × Option Diagnostic)
      → is_component dir ≡ true
      → Apart d dir (after_files env (set_slot env d dir missing) dir expected r).0
  unfolding after_files
  files-Apart d dir expected (log, some e) c =
      let cleared : Disk = set_slot env d dir missing in
      Apart-trans d cleared (set_slot env cleared (tmp_path dir) missing) dir
        (set_slot-Apart env d dir missing c) (set_tmp-Apart env cleared dir missing c)
  files-Apart d dir expected (log, none) c =
      let cleared : Disk = set_slot env d dir missing in
      let made : Disk = set_slot env cleared (tmp_path dir) unmarked in
      Apart-trans d cleared (mark_and_publish env made dir [] expected log).0 dir
        (set_slot-Apart env d dir missing c)
        (Apart-trans cleared made (mark_and_publish env made dir [] expected log).0 dir
          (set_tmp-Apart env cleared dir unmarked c)
          ((mark_and_publish-Realizes env made dir [] expected log).1.0 c))

  pub realize_inline-Grows :
      (d : Disk) (dir content_id : Bytes) (files : List (Bytes × Bytes))
      → is_component dir ≡ true
      → Grows d (realize_inline env d dir content_id files).0
  unfolding realize_inline
  realize_inline-Grows d dir content_id files c =
      let expected : HashSpec = record { algo = sha256; hex = content_id } in
      guarded d dir (check_cache d dir expected) _ _ _ refl refl (unfit d dir expected)
        (files-Apart d dir expected _ c)
