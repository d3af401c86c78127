-- ===== src/Store/Laws.antt =====
-- What the store promises of `realize_from_archive` and `realize_fetch`.
use kuli.Common.{
  Bool, true, false, List, ◌++◌, none, some, ◌≡◌, ◌≢◌, ◌⊎◌, ◌∷◌, [], is_empty, has_byte,
  has_byte-append, codes, arith, inl, inr, refl, ap, ◌∙◌, if◌then◌else◌, Bytes, same, same_iff,
  same_refl, Bool-cases,
}
use kuli.Diag.{Diagnostic, Expected, ok, err}
use kuli.Crypto.{HashSpec}
use kuli.Archive.{Effect}
use kuli.Archive.Paths.{same-eq-false}
use kuli.Archive.Tar.{Extraction}
use kuli.Store.{
  is_component, Slot, missing, unmarked, marked, Disk, set_slot, set_download, Env, CacheState,
  absent, hit, collision, cache_of, check_cache, collision_error, FetchResult, make_result,
  store_path, tmp_path, Outcome, refused, verify_file, publish, mark_and_publish, after_extract,
  realize_absent, realize_from_archive, fetch_then_realize, realize_fetch, url_ext,
}

-- The slot holds a tree under the expected digest.
abbrev pub Holds : Disk → Bytes → HashSpec → Type 0
Holds d dir expected = (tree : List Effect) × (d.slots dir ≡ marked expected.hex tree)

-- A success names the slot, and the slot then holds the expected content.
abbrev pub Delivers : Bytes → HashSpec → Bytes → Outcome → Type 0
Delivers dir expected bin (d, some (ok r)) =
    ((present : Bool) × (r ≡ make_result dir bin present)) × Holds d dir expected
Delivers dir expected bin (d, some (err e)) = Unit
Delivers dir expected bin (d, none) = Unit

-- No other directory with a name of one component changes.
abbrev pub Apart : Disk → Bytes → Disk → Type 0
Apart d dir d' =
    (n : Bytes) → is_component n ≡ true → n ≢ dir → n ≢ tmp_path dir → d'.slots n ≡ d.slots n

-- A success has found the content in the store, or has checked the archive's digest.
abbrev pub Checked : Env → Disk → Bytes → Bytes → HashSpec → Outcome → Type 0
Checked env d dir archive expected (d', some (ok r)) =
    (check_cache d dir expected ≡ hit) ⊎ (verify_file env d archive expected ≡ true)
Checked env d dir archive expected (d', some (err e)) = Unit
Checked env d dir archive expected (d', none) = Unit

abbrev pub Realizes : Env → Disk → Bytes → Bytes → HashSpec → Bytes → Outcome → Type 0
Realizes env d dir archive expected bin out =
    Delivers dir expected bin out
    × Checked env d dir archive expected out
    × Apart d dir out.0
    × (out.0.downloads ≡ d.downloads)

-- What holds for any name.
abbrev pub Steps : Disk → Bytes → HashSpec → Bytes → Outcome → Type 0
Steps d dir expected bin out =
    Delivers dir expected bin out
    × ((is_component dir ≡ true → Apart d dir out.0) × (out.0.downloads ≡ d.downloads))

abbrev Frames : Disk → Bytes → Outcome → Type 0
Frames d dir out = (is_component dir ≡ true → Apart d dir out.0) × (out.0.downloads ≡ d.downloads)

WhenHit : CacheState → Type 0 → Type 0
WhenHit absent P = Unit
WhenHit hit P = P
WhenHit collision P = Unit

cache_of-hit :
    (s : Slot) (hex : Bytes)
    → WhenHit (cache_of s hex) ((tree : List Effect) × (s ≡ marked hex tree))
unfolding cache_of WhenHit
cache_of-hit missing hex = tt
cache_of-hit unmarked hex = tt
cache_of-hit (marked sha tree) hex = elim (Bool-cases (same sha hex)) [
  | inl e ↦ rw e (tree, ap (λ h. marked h tree) ((same_iff sha hex).0 e))
  | inr e ↦ rw e tt
]

dots_before : (d : Bytes) → same (b'.' ∷ d ++ codes ".tmp") (codes ".") ≡ false
unfolding same codes
dots_before [] = refl
dots_before (c ∷ d) = refl

two_dots_before :
    (d : Bytes) → is_empty d ≡ false → same (b'.' ∷ d ++ codes ".tmp") (codes "..") ≡ false
unfolding same codes
two_dots_before [] h = refl
two_dots_before (c ∷ []) h = ground arith
two_dots_before (c ∷ e ∷ d) h = ground arith

-- The temporary directory of such a name has such a name.
pub tmp_path-component :
    (dir : Bytes) → is_component dir ≡ true → is_component (tmp_path dir) ≡ true
unfolding is_component has_byte codes
tmp_path-component dir h =
    let a = dots_before dir in
    let b = two_dots_before dir (ground arith) in
    let c = has_byte-append b'/' dir (codes ".tmp") in ground (arith, a, b, c)

module _ (env : Env) where
  pub set_slot-other :
      (d : Disk) (dir n : Bytes) (s : Slot)
      → is_component dir ≡ true
      → is_component n ≡ true
      → n ≢ dir
      → (set_slot env d dir s).slots n ≡ d.slots n
  set_slot-other d dir n s c k h = rw (same-eq-false n dir h, c, k) refl

  set_slot-same : (d : Disk) (dir : Bytes) (s : Slot) → (set_slot env d dir s).slots dir ≡ s
  set_slot-same d dir s = rw (same_refl dir) refl

  -- The directory of a name, and its temporary one.
  pub set_slot-Apart :
      (d : Disk) (dir : Bytes) (s : Slot)
      → is_component dir ≡ true
      → Apart d dir (set_slot env d dir s)
  set_slot-Apart d dir s c n k a b = set_slot-other d dir n s c k a

  pub set_tmp-Apart :
      (d : Disk) (dir : Bytes) (s : Slot)
      → is_component dir ≡ true
      → Apart d dir (set_slot env d (tmp_path dir) s)
  set_tmp-Apart d dir s c n k a b =
      set_slot-other d (tmp_path dir) n s (tmp_path-component dir c) k b

pub Apart-trans : (a b c : Disk) (dir : Bytes) → Apart a dir b → Apart b dir c → Apart a dir c
Apart-trans a b c dir h g n k p q = g n k p q ∙ h n k p q

by_cache :
    (d lost : Disk) (dir : Bytes) (expected : HashSpec) (bin : Bytes) (e : Diagnostic)
    (c : CacheState)
    → WhenHit c (Holds lost dir expected)
    → Frames d dir (lost, none)
    → Steps d dir expected bin (elim c as (λ _. Outcome) [
      | hit ↦ (lost, some (ok (make_result dir bin true)))
      | _ ↦ refused lost e
    ])
unfolding WhenHit
by_cache d lost dir expected bin e absent h f = (tt, f)
by_cache d lost dir expected bin e hit h f = (((true, refl), h), f)
by_cache d lost dir expected bin e collision h f = (tt, f)

module _ (env : Env) where
  publish-Realizes :
      (d : Disk) (dir bin : Bytes) (expected : HashSpec) (tree : List Effect)
      → Steps d dir expected bin (publish env d dir bin expected tree)
  unfolding publish check_cache
  publish-Realizes d dir bin expected tree =
      let cleaned : Disk = set_slot env d (tmp_path dir) missing in
      let other : (s : Slot) → is_component dir ≡ true → Apart d dir (set_slot env cleaned dir s) =
        λ s c.
          Apart-trans d cleaned (set_slot env cleaned dir s) dir (set_tmp-Apart env d dir missing c)
            (set_slot-Apart env cleaned dir s c) in
      elim (Bool-cases env.rename_ok) [
        | inl e ↦ rw e (((false, refl), (tree, set_slot-same env cleaned dir _)), (other _, refl))
        | inr e ↦ rw e (
            by_cache d (set_slot env cleaned dir env.raced) dir expected bin _ _
              (cache_of-hit ((set_slot env cleaned dir env.raced).slots dir) expected.hex)
              (other env.raced, refl))
      ]

  -- Clearing the slot and the temporary directory first changes no other slot.
  cleared-Realizes :
      (d d' : Disk) (dir bin : Bytes) (expected : HashSpec) (out : Outcome)
      → (is_component dir ≡ true → Apart d dir d')
      → d'.downloads ≡ d.downloads
      → Steps d' dir expected bin out
      → Steps d dir expected bin out
  cleared-Realizes d d' dir bin expected out s l h =
      (h.0, ((λ c. Apart-trans d d' out.0 dir (s c) (h.1.0 c)), h.1.1 ∙ l))

  pub mark_and_publish-Realizes :
      (d : Disk) (dir bin : Bytes) (expected : HashSpec) (tree : List Effect)
      → Steps d dir expected bin (mark_and_publish env d dir bin expected tree)
  unfolding mark_and_publish publish
  mark_and_publish-Realizes d dir bin expected tree = elim (Bool-cases env.marker_writable) [
    | inl e ↦ rw e (publish-Realizes d dir bin expected tree)
    | inr e ↦ rw e (tt, (set_tmp-Apart env d dir missing, refl))
  ]

  after_extract-Realizes :
      (d : Disk) (dir bin : Bytes) (expected : HashSpec) (x : Extraction)
      → Steps d dir expected bin (after_extract env d dir bin expected x)
  unfolding after_extract
  after_extract-Realizes d dir bin expected none = (tt, (set_tmp-Apart env d dir unmarked, refl))
  after_extract-Realizes d dir bin expected (some (log, err e)) =
      (tt, (set_tmp-Apart env d dir missing, refl))
  after_extract-Realizes d dir bin expected (some (log, ok u)) =
      cleared-Realizes d (set_slot env d (tmp_path dir) unmarked) dir bin expected _
        (set_tmp-Apart env d dir unmarked) refl
        (mark_and_publish-Realizes (set_slot env d (tmp_path dir) unmarked) dir bin expected log)

  realize_absent-Realizes :
      (d : Disk) (name dir archive bin : Bytes) (expected : HashSpec)
      → Steps d dir expected bin (realize_absent env d name dir archive expected bin)
  unfolding realize_absent
  realize_absent-Realizes d name dir archive bin expected =
      elim (Bool-cases (verify_file env d archive expected)) [
        | inr e ↦ rw e (tt, ((λ c n k a b. refl), refl))
        | inl e ↦ rw e (
            cleared-Realizes d (set_slot env (set_slot env d dir missing) (tmp_path dir) missing)
              dir bin expected _
              (λ c.
                Apart-trans d (set_slot env d dir missing)
                  (set_slot env (set_slot env d dir missing) (tmp_path dir) missing) dir
                  (set_slot-Apart env d dir missing c)
                  (set_tmp-Apart env (set_slot env d dir missing) dir missing c))
              refl (after_extract-Realizes _ dir bin expected _))
      ]

  by_check :
      (d : Disk) (dir bin : Bytes) (expected : HashSpec) (c : CacheState) (on_absent : Outcome)
      → WhenHit c (Holds d dir expected)
      → Delivers dir expected bin on_absent
      → Delivers dir expected bin (elim c as (λ _. Outcome) [
        | hit ↦ (d, some (ok (make_result dir bin true)))
        | collision ↦ refused d (collision_error dir)
        | absent ↦ on_absent
      ])
  unfolding WhenHit
  by_check d dir bin expected absent out h g = g
  by_check d dir bin expected hit out h g = ((true, refl), h)
  by_check d dir bin expected collision out h g = tt

  frame_check :
      (d : Disk) (dir bin : Bytes) (c : CacheState) (on_absent : Outcome)
      → Frames d dir on_absent
      → Frames d dir (elim c as (λ _. Outcome) [
        | hit ↦ (d, some (ok (make_result dir bin true)))
        | collision ↦ refused d (collision_error dir)
        | absent ↦ on_absent
      ])
  frame_check d dir bin absent out g = g
  frame_check d dir bin hit out g = ((λ c n k a b. refl), refl)
  frame_check d dir bin collision out g = ((λ c n k a b. refl), refl)

  pub realize_from_archive-Steps :
      (d : Disk) (hash16 name archive : Bytes) (expected : HashSpec) (bin : Bytes)
      → Steps d
          (store_path hash16 name)
          expected
          bin
          (realize_from_archive env d hash16 name archive expected bin)
  unfolding realize_from_archive check_cache
  realize_from_archive-Steps d hash16 name archive expected bin =
      let dir : Bytes = store_path hash16 name in
      let r : Steps d dir expected bin _ =
        realize_absent-Realizes d name dir archive bin expected in
      (
        by_check d dir bin expected (cache_of (d.slots dir) expected.hex) _
            (cache_of-hit (d.slots dir) expected.hex) r.0,
        frame_check d dir bin (cache_of (d.slots dir) expected.hex) _ r.1,
      )

  fetch_then-Delivers :
      (d : Disk) (hash16 name url bin : Bytes) (expected : HashSpec) (r : Expected Bytes)
      → Delivers (store_path hash16 name) expected bin (elim r as (λ _. Outcome) [
        | err e ↦
            refused
              (set_download d
                (hash16 ++ url_ext url)
                (env.spoiled url (d.downloads (hash16 ++ url_ext url))))
              e
        | ok content ↦
            realize_from_archive env
              (set_download d (hash16 ++ url_ext url) (some content))
              hash16
              name
              (hash16 ++ url_ext url)
              expected
              bin
      ])
  fetch_then-Delivers d hash16 name url bin expected (err e) = tt
  fetch_then-Delivers d hash16 name url bin expected (ok content) =
      (realize_from_archive-Steps _ hash16 name (hash16 ++ url_ext url) expected bin).0

  pub realize_fetch-Delivers :
      (d : Disk) (hash16 name url : Bytes) (expected : HashSpec) (bin : Bytes)
      → Delivers
          (store_path hash16 name)
          expected
          bin
          (realize_fetch env d hash16 name url expected bin)
  unfolding realize_fetch check_cache fetch_then_realize
  realize_fetch-Delivers d hash16 name url expected bin =
      let dir : Bytes = store_path hash16 name in
      by_check d dir bin expected (cache_of (d.slots dir) expected.hex) _
        (cache_of-hit (d.slots dir) expected.hex)
        (fetch_then-Delivers d hash16 name url bin expected (env.fetch url expected))

-- A slot that is marked is never written to again by `realize_from_archive`: the disk stays as it is, and
-- the result is a success exactly where the marker has the expected digest, E0233 otherwise.
realize_from_archive-marked :
    (env : Env) (d : Disk) (hash16 name archive : Bytes) (expected : HashSpec) (bin sha : Bytes)
    (tree : List Effect)
    → d.slots (store_path hash16 name) ≡ marked sha tree
    → realize_from_archive env d hash16 name archive expected bin ≡ (
      d,
      some (
          if same sha expected.hex
          then ok (make_result (store_path hash16 name) bin true)
          else err (collision_error (store_path hash16 name))),
    )
unfolding realize_from_archive check_cache cache_of
realize_from_archive-marked env d hash16 name archive expected bin sha tree h =
    elim (Bool-cases (same sha expected.hex)) [
      | inl e ↦ rw (realize_from_archive, check_cache, h, cache_of, e) refl
      | inr e ↦ rw (realize_from_archive, check_cache, h, cache_of, e) refl
    ]

again :
    (env env' : Env) (d : Disk) (hash16 name archive : Bytes) (expected : HashSpec) (bin : Bytes)
    → Holds d (store_path hash16 name) expected
    → realize_from_archive env' d hash16 name archive expected bin
      ≡ (d, some (ok (make_result (store_path hash16 name) bin true)))
again env env' d hash16 name archive expected bin (tree, h) =
    realize_from_archive-marked env' d hash16 name archive expected bin expected.hex tree h
    ∙ rw (same_refl expected.hex) refl

-- Once `realize_fetch` has succeeded, realizing the same slot and digest again, from whatever archive and
-- in whatever environment, succeeds from the store and leaves the disk unchanged.
pub realize_fetch-realize_from_archive :
    (env env' : Env) (d : Disk) (hash16 name url archive : Bytes) (expected : HashSpec)
    (bin : Bytes) (r : FetchResult)
    → (realize_fetch env d hash16 name url expected bin).1 ≡ some (ok r)
    → realize_from_archive env'
        (realize_fetch env d hash16 name url expected bin).0
        hash16
        name
        archive
        expected
        bin
      ≡ (
        (realize_fetch env d hash16 name url expected bin).0,
        some (ok (make_result (store_path hash16 name) bin true)),
      )
realize_fetch-realize_from_archive env env' d hash16 name url archive expected bin r e =
    again env env' _ hash16 name archive expected bin (
      delivered (realize_fetch env d hash16 name url expected bin) e
        (realize_fetch-Delivers env d hash16 name url expected bin))
  where
    delivered :
        (out : Outcome)
        → out.1 ≡ some (ok r)
        → Delivers (store_path hash16 name) expected bin out
        → Holds out.0 (store_path hash16 name) expected
    delivered (d, some (ok r')) e h = h.1
    delivered (d, some (err x)) e h = absurd (cc e)
    delivered (d, none) e h = absurd (cc e)
