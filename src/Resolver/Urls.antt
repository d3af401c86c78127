-- ===== src/Resolver/Urls.antt =====
-- `resolve_github_asset` and `resolve_urls` of libs/kuli-bp/src/resolver.cpp. The download of a text
-- from GitHub is an argument.
use kuli.Common.{
  Bool, not, ◌&&◌, List, [], ◌∷◌, ◌++◌, Option, none, some, if◌then◌else◌, Bytes, codes, same,
  is_empty,
}
use kuli.Diag.{Diagnostic, diagnostic_error, Expected, ok, err}
use kuli.Json.{JsonApi, JsonMake}
use kuli.Resolver.{Asset, select_asset}
use kuli.Engine.Value.{JsonText, ◌>>=◌}
use kuli.Engine.Stage.{member_at}
use kuli.Engine.Plan.{text_of}

unfoldable pub release_api : Bytes → Bytes → Bytes → Bytes
release_api owner repo version =
    codes "https://api.github.com/repos/"
    ++ (owner
        ++ (b'/' ∷ repo
            ++ (codes "/releases/"
                ++ (if same version (codes "latest")
                    then codes "latest"
                    else codes "tags/" ++ version))))

abbrev pub no_assets : Bytes → Bytes → Bytes → Diagnostic
no_assets owner repo version =
    diagnostic_error
      (codes "github: no release assets for " ++ (owner ++ (b'/' ∷ repo ++ (b'@' ∷ version))))
      (codes "E0400")

abbrev pub no_match : Bytes → Bytes → Bytes → Bytes → Bytes → Diagnostic
no_match owner repo version pattern target =
    diagnostic_error
      (codes "github: no asset matching '"
        ++ (pattern
            ++ (codes "' for "
                ++ (target ++ (codes " in " ++ (owner ++ (b'/' ∷ repo ++ (b'@' ∷ version))))))))
      (codes "E0400")

-- What the program reads of the network, and the test of a name against a pattern.
pub record Release : Type 0 where
  pub fetch_text : Bytes → Expected Bytes
  pub pattern_matches : Bytes → Bytes → Bool

module _ {J : Type 0} {json : JsonApi J} (make : JsonMake json) (io : JsonText J) where
  open json use {is_object, is_array, elements, contains, at}

  unfoldable pub assets_of : List J → Option (List Asset)
  assets_of [] = some []
  assets_of (a ∷ more) =
      let rest = assets_of more in
      if not (is_object a) then rest else do
        name ← text_of make io a (codes "name")
        url ← text_of make io a (codes "browser_download_url")
        found ← rest
        some (record { name = name; url = url } ∷ found)

  abbrev pub chosen_url : Diagnostic → Option Asset → Expected Bytes
  chosen_url e none = err e
  chosen_url e (some a) = if is_empty a.url then err e else ok a.url

  unfoldable pub resolve_github_asset :
      Release → Bytes → Bytes → Bytes → Bytes → Bytes → Option (Expected Bytes)
  resolve_github_asset net owner repo version pattern target =
      elim (net.fetch_text (release_api owner repo version)) [
        | err e ↦ some (err e)
        | ok body ↦
            let j : J = io.parse body in
            if not
              (is_object j && (contains j (codes "assets") && is_array (at j (codes "assets"))))
            then some (err (no_assets owner repo version))
            else do
              assets ← assets_of (elements (at j (codes "assets")))
              some (
                  chosen_url (no_match owner repo version pattern target)
                    (select_asset net.pattern_matches assets pattern target))
      ]

  -- `f["url"] = *url`, or the diagnostic.
  abbrev pub with_url : J → J → Expected Bytes → Expected J
  with_url d f (err e) = err e
  with_url d f (ok url) = ok (io.put d (codes "fetch") (io.put f (codes "url") (make.string url)))

  -- One round of the loop: the derivation afterwards. A derivation without `fetch` makes the reading of
  -- `owner` throw.
  unfoldable pub resolve_url : Release → J → Option (Expected J)
  resolve_url net d = do
    builder ← text_of make io d (codes "builder")
    (if not (same builder (codes "fetch")) then some (ok d) else do
      f ← member_at json d (codes "fetch")
      owner ← text_of make io f (codes "owner")
      repo ← text_of make io f (codes "repo")
      version ← text_of make io f (codes "version")
      pattern ← text_of make io f (codes "assetPattern")
      target ← text_of make io d (codes "systemTarget")
      found ← resolve_github_asset net owner repo version pattern target
      some (with_url d f found))

  abbrev pub onto : J → Expected (List J) → Expected (List J)
  onto d (err e) = err e
  onto d (ok ds) = ok (d ∷ ds)

  unfoldable pub resolve_each : Release → List J → Option (Expected (List J))
  resolve_each net [] = some (ok [])
  resolve_each net (d ∷ ds) =
      let rest = resolve_each net ds in
      elim (resolve_url net d) [
        | none ↦ none
        | some (err e) ↦ some (err e)
        | some (ok d') ↦ elim rest [ none ↦ none | some r ↦ some (onto d' r) ]
      ]

  abbrev pub with_derivations : J → J → Expected (List J) → Expected J
  with_derivations ir node (err e) = err e
  with_derivations ir node (ok ds) =
      ok (io.put ir (codes "node") (io.put node (codes "derivations") (make.array ds)))

  -- The document afterwards, for the one that is changed in place. An array of derivations is given.
  unfoldable pub resolve_urls : Release → J → Option (Expected J)
  resolve_urls net ir =
      if not (is_object ir && contains ir (codes "node"))
      then some (ok ir)
      else let node : J = at ir (codes "node") in
        if not (is_object node && contains node (codes "derivations")) then some (ok ir) else do
          ds ← resolve_each net (elements (at node (codes "derivations")))
          some (with_derivations ir node ds)
