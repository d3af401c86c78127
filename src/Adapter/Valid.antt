-- ===== src/Adapter/Valid.antt =====
-- The derivations of the adapter's document, for the validator of libs/kuli-ir.
use kuli.Common.{
  Bool, true, false, ◌&&◌, List, [], ◌∷◌, some, map, ◌≡◌, inl, inr, refl, sym, ◌∙◌, Bytes, codes,
  All, Any, same, same_iff,
}
use kuli.Graph.{
  Derivation, FetchSpec, Builder, fetch, composite, with_files, scripture, builder_name,
}
use kuli.Json.{JsonApi, JsonMake, find_key}
use kuli.Ir
use kuli.Ir.Derivation.{IsFetch, IsScripture, IsDerivation}
use kuli.Adapter.{
  text_member, fetch_json, scripture_json, scripture_file_json, builder_members, deriv_json,
}
use kuli.Adapter.Values.{All-of-map, All-always, contains-object, text-object, array-object}

abbrev pub no_pairs : List (Bytes × Bytes) → Bool
no_pairs [] = true
no_pairs (e ∷ es) = false

-- What the front end makes sure of in a derivation: a fetch is pinned, a scripture has a basename.
pub record IsChecked (d : Derivation) : Type 0 where
  pub pinned : d.builder ≡ fetch → Ir.is_sha256_hex d.fetch.sha256 ≡ true
  pub named : d.builder ≡ scripture → no_pairs d.scripture.basenames ≡ false

name_known : (b : Builder) → Any (λ x. x ≡ builder_name b) Ir.builders
unfolding builder_name
name_known fetch = inl refl
name_known composite = inr (inl refl)
name_known with_files = inr (inr (inl refl))
name_known scripture = inr (inr (inr (inl refl)))

of_fetch : (b : Builder) → same (builder_name b) (codes "fetch") ≡ true → b ≡ fetch
unfolding builder_name same codes
of_fetch fetch h = refl
of_fetch composite h = absurd (cc h)
of_fetch with_files h = absurd (cc h)
of_fetch scripture h = absurd (cc h)

of_scripture : (b : Builder) → same (builder_name b) (codes "scripture") ≡ true → b ≡ scripture
unfolding builder_name same codes
of_scripture scripture h = refl
of_scripture fetch h = absurd (cc h)
of_scripture composite h = absurd (cc h)
of_scripture with_files h = absurd (cc h)

module _ {J : Type 0} {json : JsonApi J} (make : JsonMake json) where
  open json use {is_object, is_string, contains, at, get_string, elements, values, empty}
  open make use {string, array, object}

  abbrev pub members : Derivation → List (Bytes × J)
  members d =
      (codes "hash", string d.hash)
      ∷ (codes "name", string d.name)
      ∷ (codes "storePath", string d.store_path)
      ∷ (codes "builder", string (builder_name d.builder))
      ∷ (codes "systemTarget", string d.system_target)
      ∷ builder_members make d

  abbrev fetch_members : FetchSpec → List (Bytes × J)
  fetch_members f =
      (codes "owner", string f.owner)
      ∷ (codes "repo", string f.repo)
      ∷ (codes "version", string f.version)
      ∷ (codes "assetPattern", string f.asset_pattern)
      ∷ (codes "sha256", string f.sha256)
      ∷ (codes "bin", string f.bin)
      ∷ (codes "shimDir", string f.shim_dir)
      ∷ (codes "postInstall", string f.post_install)
      ∷ []

  fetch_json-lem :
      (f : FetchSpec)
      → All (λ k. Ir.is_str json (fetch_json make f) k ≡ true) Ir.fetch_fields
        × (get_string (at (fetch_json make f) (codes "sha256")) ≡ f.sha256)
  unfolding fetch_json same codes
  fetch_json-lem f =
      let m = fetch_members f in
      (
        (
          (text-object make m (codes "owner") f.owner refl).0,
          (
            (text-object make m (codes "repo") f.repo refl).0,
            (
              (text-object make m (codes "version") f.version refl).0,
              (
                (text-object make m (codes "assetPattern") f.asset_pattern refl).0,
                ((text-object make m (codes "sha256") f.sha256 refl).0, tt),
              ),
            ),
          ),
        ),
        (text-object make m (codes "sha256") f.sha256 refl).1,
      )

  fetch_member :
      (d : Derivation)
      → d.builder ≡ fetch
      → find_key (members d) (codes "fetch") ≡ some (fetch_json make d.fetch)
  unfolding builder_members same codes
  fetch_member d e = rw (e, builder_members)

  scripture_member :
      (d : Derivation)
      → d.builder ≡ scripture
      → find_key (members d) (codes "scripture") ≡ some (scripture_json make d)
  unfolding builder_members same codes
  scripture_member d e = rw (e, builder_members)

  deriv-IsFetch :
      (d : Derivation) → IsChecked d → d.builder ≡ fetch → IsFetch json (deriv_json make d)
  unfolding deriv_json fetch_json
  deriv-IsFetch d ok e =
      let (c, a) = contains-object make (members d) (codes "fetch") _ (fetch_member d e) in
      let (fields, digest) = fetch_json-lem d.fetch in
      record {
        object = rw (c, a) (make.object_is_object (fetch_members d.fetch));
        fields = rw a fields;
        digest = rw (a, digest) (ok.pinned e);
      }

  abbrev scripture_members : Derivation → List (Bytes × J)
  scripture_members d =
      (codes "version", string d.scripture.version)
      ∷ (codes "basenames", object (map (text_member make) d.scripture.basenames))
      ∷ (codes "files", array (map (scripture_file_json make) d.scripture.files))
      ∷ []

  file_json-lem :
      (f : Bytes × Bytes)
      → (Ir.is_str json (scripture_file_json make f) (codes "path")
          && Ir.is_str json (scripture_file_json make f) (codes "content"))
        ≡ true
  unfolding scripture_file_json same codes
  file_json-lem (path, content) =
      let m : List (Bytes × J) =
        (codes "path", string path) ∷ (codes "content", string content) ∷ [] in
      rw (
        (text-object make m (codes "path") path refl).0,
        (text-object make m (codes "content") content refl).0,
      )

  basenames-lem :
      (es : List (Bytes × Bytes))
      → no_pairs es ≡ false
      → empty (object (map (text_member make) es)) ≡ false
  unfolding text_member
  basenames-lem [] h = absurd (cc h)
  basenames-lem ((k, s) ∷ es) h = make.object_empty k (string s) (map (text_member make) es)

  deriv-IsScripture :
      (d : Derivation) → IsChecked d → d.builder ≡ scripture → IsScripture json (deriv_json make d)
  unfolding deriv_json scripture_json same codes
  deriv-IsScripture d ok e =
      let ms = scripture_members d in
      let basenames = map (text_member make) d.scripture.basenames in
      let files = map (scripture_file_json make) d.scripture.files in
      let (c, a) = contains-object make (members d) (codes "scripture") _ (scripture_member d e) in
      let (cb, ab) = contains-object make ms (codes "basenames") (object basenames) refl in
      let (has, fs) = array-object make ms (codes "files") files refl in
      record {
        object = rw (c, a) (make.object_is_object ms);
        basenames = rw (a, cb, ab, make.object_is_object basenames, basenames-lem _ (ok.named e));
        adapters =
            rw (a, ab)
              (make.object_values (λ v. is_string v ≡ true) basenames
                (All-of-map _ _ _ (All-always _ _ (λ x. make.string_is_string x.1))));
        files_array = rw a has;
        files = rw (a, fs) (All-of-map _ _ _ (All-always _ _ (λ x. file_json-lem x)));
      }

  -- A checked derivation is one that the validator accepts.
  pub deriv-IsDerivation : (d : Derivation) → IsChecked d → IsDerivation json (deriv_json make d)
  unfolding deriv_json same codes
  deriv-IsDerivation d ok =
      let m = members d in
      let (b, name) = text-object make m (codes "builder") (builder_name d.builder) refl in
      record {
        object = make.object_is_object m;
        fields = (
          (text-object make m (codes "hash") d.hash refl).0,
          (
            (text-object make m (codes "name") d.name refl).0,
            ((text-object make m (codes "storePath") d.store_path refl).0, (b, tt)),
          ),
        );
        builder = rw name (name_known d.builder);
        fetch = λ e. deriv-IsFetch d ok (of_fetch d.builder ((same_iff _ _).1 (sym name ∙ e)));
        scripture =
            λ e. deriv-IsScripture d ok (of_scripture d.builder ((same_iff _ _).1 (sym name ∙ e)));
      }
