-- ===== src/Engine/Realize.antt =====
-- The loop of `Engine::execute` over the derivations of a document (libs/kuli-engine/src/engine.cpp).
use kuli.Common.{
  ℕ, false, List, [], ◌∷◌, ◌++◌, Option, none, some, if◌then◌else◌, Bytes, codes, is_empty, same,
  take,
}
use kuli.Diag.{Diagnostic, diagnostic_error, with_help, render, exit_code_of, Expected, ok, err}
use kuli.Crypto.{HashSpec, parse}
use kuli.Store.{Disk, Outcome, FetchResult, realize_fetch}
use kuli.Store.Inline.{realize_inline}
use kuli.Json.{JsonApi, JsonMake}
use kuli.Engine.Value.{JsonText, RawResult, value_elements, under_cwd}
use kuli.Engine.Plan.{text_of, object_of}
use kuli.Engine.Exec.{Ending, done, undefined, Run, ◌>>=◌, return, lift, Machine}

-- The loop goes on with more lines and the record of the step, or the call ends.
pub data Progress (J : Type 0) : Type 0 where
  proceed : RawResult → List (Bytes × J) → Progress J
  stop : RawResult → Progress J

abbrev pub refuse : RawResult → ℕ → Diagnostic → RawResult
refuse r code d = record r { exit_code = code; raw_stderr = render d false }

abbrev pub with_line : RawResult → Bytes → RawResult
with_line r line = record r { lines = r.lines ++ line ∷ [] }

abbrev pub ended : {A : Type 0} → Option A → Ending A
ended none = undefined
ended (some a) = done a

-- A call of the store.
unfoldable pub stored : {W : Type 0} → (Disk → Outcome) → Run W (Expected FetchResult)
stored f s = (record s { disk = (f s.disk).0 }, ended (f s.disk).1)

no_url : Bytes → Diagnostic
no_url name =
    with_help
      (diagnostic_error (codes "fetch derivation '" ++ (name ++ codes "' has no resolved url"))
        (codes "E0501"))
      (codes "the source resolver must run before execute")

bad_digest : Bytes → Diagnostic
bad_digest name =
    diagnostic_error (codes "malformed sha256 for fetch derivation '" ++ (name ++ codes "'"))
      (codes "E0502")

module _ {J : Type 0} {json : JsonApi J} (make : JsonMake json) where
  open make use {string, boolean, object}

  -- Behind a call of the store; `kind_note` is what the line says of a scripture.
  unfoldable pub after_store : Bytes → Bytes → Bytes → RawResult → Expected FetchResult → Progress J
  after_store root name kind_note r (err e) = stop (refuse r (exit_code_of e) e)
  after_store root name kind_note r (ok f) =
      let dir : Bytes = under_cwd root f.store_dir in
      proceed
        (with_line r (
          (if f.was_already_present then codes "cached   " else codes "realized ")
          ++ (name ++ (kind_note ++ (codes " -> " ++ dir)))))
        ((codes "storeDir", string dir) ∷ (codes "wasPresent", boolean f.was_already_present) ∷ [])

  abbrev pub manifest : Bytes → Bytes → J → J
  manifest name version basenames = object (
      (codes "name", string name)
      ∷ (codes "version", string version)
      ∷ (codes "basenames", basenames)
      ∷ [])

module _ {J W : Type 0} {json : JsonApi J} (make : JsonMake json) (io : JsonText J) where
  -- With the digest read.
  unfoldable pub fetch_digest :
      Machine W → Bytes → Bytes → Bytes → Bytes → RawResult → Option HashSpec → Run W (Progress J)
  unfolding bad_digest
  fetch_digest mc hash16 name url bin r none = return (stop (refuse r 1 (bad_digest name)))
  fetch_digest mc hash16 name url bin r (some sp) = do
    fr ← stored (λ d. realize_fetch mc.store d hash16 name url sp bin)
    return (after_store make mc.store_root name [] r fr)

  unfoldable pub fetch_step : Machine W → J → Bytes → Bytes → RawResult → Run W (Progress J)
  unfolding no_url fetch_digest
  fetch_step mc d name hash16 r = do
    fetch ← lift (object_of make io d (codes "fetch"))
    url ← lift (text_of make io fetch (codes "url"))
    sha ← lift (text_of make io fetch (codes "sha256"))
    bin ← lift (text_of make io fetch (codes "bin"))
    (if is_empty url
        then return (stop (refuse r 1 (no_url name)))
        else fetch_digest mc hash16 name url bin r (parse sha))

  unfoldable pub inline_files : List J → Run W (List (Bytes × Bytes))
  inline_files [] = return []
  inline_files (f ∷ fs) = do
    path ← lift (text_of make io f (codes "path"))
    content ← lift (text_of make io f (codes "content"))
    more ← inline_files fs
    return ((path, content) ∷ more)

  unfoldable pub scripture_step : Machine W → J → Bytes → Bytes → RawResult → Run W (Progress J)
  unfolding inline_files
  scripture_step mc d name hash r = do
    sc ← lift (object_of make io d (codes "scripture"))
    store_dir ← lift (text_of make io d (codes "storePath"))
    listed ← lift (value_elements json io sc (codes "files"))
    files ← inline_files listed
    version ← lift (text_of make io sc (codes "version"))
    basenames ← lift (object_of make io sc (codes "basenames"))
    sr ← stored (λ disk.
        realize_inline mc.store disk store_dir hash
          (files ++ (codes "manifest.json", io.pretty (manifest make name version basenames)) ∷ []))
    return (after_store make mc.store_root name (codes " (scripture)") r sr)

  -- One turn of the loop, up to the record of its step. A composite and a withFiles store nothing.
  unfoldable pub deriv_step : Machine W → J → RawResult → Run W (Progress J)
  unfolding fetch_step scripture_step
  deriv_step mc d r = do
    builder ← lift (text_of make io d (codes "builder"))
    name ← lift (text_of make io d (codes "name"))
    hash ← lift (text_of make io d (codes "hash"))
    (if same builder (codes "fetch")
        then fetch_step mc d name (take 16 hash) r
        else if same builder (codes "scripture")
        then scripture_step mc d name hash r
        else return (proceed r []))
