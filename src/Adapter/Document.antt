-- ===== src/Adapter/Document.antt =====
-- The adapter's document as a whole, for the validator of libs/kuli-ir.
use kuli.Common.{
  Bool, true, List, [], ◌∷◌, ◌++◌, none, some, map, ◌≡◌, ◌⊎◌, inl, inr, refl, ◌∙◌, arith, Bytes,
  codes, Any, same,
}
use kuli.Diag.{ok}
use kuli.Graph.{DerivationGraph, Derivation, Builder, fetch, composite, with_files, scripture, find}
use kuli.Json.{JsonApi, JsonMake, find_key}
use kuli.Ir
use kuli.Ir.Apply.{IsApply, IsHashIn, RefsUnder, RefsIn}
use kuli.Ir.Document.{IsDocument, validate_iff, apply}
use kuli.Adapter.{children, derivations_of, builder_members, deriv_json, document, to_apply_ir}
use kuli.Adapter.Members.{◌∈◌, mem-append, mem-self}
use kuli.Adapter.Invariant.{here, child, IsChild, IsNode}
use kuli.Adapter.Order.{IsOrder, visit_root-IsOrder}
use kuli.Adapter.Values.{
  All-of-map, All-of-mem, All-derivations_of, Any-derivations_of, contains-object, lacks-object,
  text-object, array-object,
}
use kuli.Adapter.Valid.{IsChecked, members, deriv-IsDerivation}

Builder-cases :
    (b : Builder) → (b ≡ fetch) ⊎ ((b ≡ composite) ⊎ ((b ≡ with_files) ⊎ (b ≡ scripture)))
Builder-cases fetch = inl refl
Builder-cases composite = inr (inl refl)
Builder-cases with_files = inr (inr (inl refl))
Builder-cases scripture = inr (inr (inr refl))

abbrev HasHash : List Derivation → Bytes → Type 0
HasHash ds h = Any (λ d. d.hash ≡ h) ds

-- A graph as the front end leaves it: every dependency is a derivation of the graph, every
-- derivation is checked, none has the empty hash, and the root is one.
pub record IsWellFormed (g : DerivationGraph) : Type 0 where
  pub root : IsNode g g.root
  pub unnamed : find g [] ≡ none
  pub closed : (x c : Bytes) → IsChild g c x → IsNode g c
  pub checked : (x : Bytes) (d : Derivation) → find g x ≡ some d → IsChecked d

module _ {J : Type 0} {json : JsonApi J} (make : JsonMake json) where
  open json use {is_object, is_string, is_array, contains, at, get_string, elements}
  open make use {string, array, object}

  hash_in :
      (ds : List Derivation) (h : Bytes) → HasHash ds h → IsHashIn json (map (deriv_json make) ds) h
  unfolding deriv_json same codes
  hash_in [] h m = m
  hash_in (d ∷ ds) h (inl e) =
      inl ((text-object make (members make d) (codes "hash") d.hash refl).1 ∙ e)
  hash_in (d ∷ ds) h (inr m) = inr (hash_in ds h m)

  -- An array of hashes that the derivations have.
  array_refs :
      (ds : List Derivation) (d : Derivation) (key : Bytes) (hs : List Bytes)
      → find_key (members make d) key ≡ some (array (map string hs))
      → ((h : Bytes) → h ∈ hs → HasHash ds h)
      → RefsUnder json (map (deriv_json make) ds) (deriv_json make d) key
  unfolding deriv_json
  array_refs ds d key hs e known has =
      rw (array-object make (members make d) key (map string hs) e).1 (
        All-of-map _ string hs (
          All-of-mem _ hs
            λ h m. (make.string_is_string h, rw (make.string_text h) (hash_in ds h (known h m)))))

  no_refs :
      (ds : List Derivation) (d : Derivation) (key : Bytes)
      → find_key (members make d) key ≡ none
      → RefsUnder json (map (deriv_json make) ds) (deriv_json make d) key
  unfolding deriv_json
  no_refs ds d key e has = absurd (ground (arith, lacks-object make (members make d) key e))

  no_base :
      (d : Derivation)
      → find_key (members make d) (codes "base") ≡ none
      → ¬ (Ir.is_str json (deriv_json make d) (codes "base") ≡ true)
  unfolding deriv_json Ir.is_str
  no_base d e has = ground (arith, lacks-object make (members make d) (codes "base") e)

  base_ref :
      (ds : List Derivation) (d : Derivation)
      → d.builder ≡ with_files
      → HasHash ds d.base
      → IsHashIn json
          (map (deriv_json make) ds)
          (get_string (at (deriv_json make d) (codes "base")))
  unfolding deriv_json builder_members same codes
  base_ref ds d e m =
      rw (text-object make (members make d) (codes "base") d.base (rw (e, builder_members))).1
        (hash_in ds d.base m)

  deriv-RefsIn :
      (ds : List Derivation) (d : Derivation)
      → ((c : Bytes) → c ∈ children d → HasHash ds c)
      → RefsIn json (map (deriv_json make) ds) (deriv_json make d)
  unfolding children builder_members same codes
  deriv-RefsIn ds d known = elim (Builder-cases d.builder) [
    | inl e ↦ record {
      components = no_refs ds d (codes "components") (rw (e, builder_members));
      requires = no_refs ds d (codes "requires") (rw (e, builder_members));
      base = λ has. absurd (no_base d (rw (e, builder_members)) has);
    }
    | inr (inl e) ↦
        let all : (c : Bytes) → c ∈ d.requires ++ d.components → HasHash ds c =
          λ c m. known c (rw (children, e) m) in
        record {
          components =
              array_refs ds d (codes "components") d.components (rw (e, builder_members))
                λ h m. all h ((mem-append h d.requires d.components).1 (inr m));
          requires =
              array_refs ds d (codes "requires") d.requires (rw (e, builder_members))
                λ h m. all h ((mem-append h d.requires d.components).1 (inl m));
          base = λ has. absurd (no_base d (rw (e, builder_members)) has);
        }
    | inr (inr (inl e)) ↦ record {
      components = no_refs ds d (codes "components") (rw (e, builder_members));
      requires = no_refs ds d (codes "requires") (rw (e, builder_members));
      base = λ has. base_ref ds d e (known d.base (rw (children, e) (mem-self d.base [])));
    }
    | inr (inr (inr e)) ↦ record {
      components = no_refs ds d (codes "components") (rw (e, builder_members));
      requires = no_refs ds d (codes "requires") (rw (e, builder_members));
      base = λ has. absurd (no_base d (rw (e, builder_members)) has);
    }
  ]

  module _ (g : DerivationGraph) (wf : IsWellFormed g) (order : List Bytes)
      (o : IsOrder g order) where
    abbrev node_members : List (Bytes × J)
    node_members =
        (codes "root", string g.root)
        ∷ (codes "derivations", array (map (deriv_json make) (derivations_of g order)))
        ∷ []

    known :
        (x : Bytes) (d : Derivation)
        → x ∈ order
        → find g x ≡ some d
        → (c : Bytes) → c ∈ children d
        → HasHash (derivations_of g order) c
    known x d m e c k =
        let (dc, found) = wf.closed x c (d, e, k) in
        let l = ((o.exact x).0 m).0 in
        Any-derivations_of g order c dc ((o.exact c).1 (child c l (d, e, k), (dc, found))) found

    node-IsApply : IsApply json (object node_members)
    unfolding same codes
    node-IsApply =
        let (root, named) = text-object make node_members (codes "root") g.root refl in
        let (has, es) =
          array-object make node_members (codes "derivations")
            (map (deriv_json make) (derivations_of g order)) refl in
        let (d, found) = wf.root in
        record {
          object = make.object_is_object node_members;
          root_string = root;
          derivations_array = has;
          derivations = rw es (
              All-of-map _ _ _ (
                All-derivations_of _ g order
                  λ x d m e. deriv-IsDerivation make d (wf.checked x d e)));
          closed = rw es (
              All-of-map _ _ _ (
                All-derivations_of _ g order
                  λ x d m e. deriv-RefsIn (derivations_of g order) d (known x d m e)));
          root =
              rw (es, named)
                (hash_in _ g.root (
                  Any-derivations_of g order g.root d ((o.exact g.root).1 (here refl, (d, found)))
                    found));
        }

    abbrev document_members : Bool → List (Bytes × J)
    document_members dry_run =
        (codes "schema", string (codes "kuli/ir/1.0"))
        ∷ (codes "kind", string (codes "ApplyDerivation"))
        ∷ (codes "options", object ((codes "dry_run", make.boolean dry_run) ∷ []))
        ∷ (codes "node", object node_members)
        ∷ (codes "descent_trace", array [])
        ∷ (codes "sources", array [])
        ∷ []

    document-IsDocument : (dry_run : Bool) → IsDocument json (document make g dry_run order)
    unfolding document same codes
    document-IsDocument dry_run =
        let m = document_members dry_run in
        let (schema, schema_text) =
          text-object make m (codes "schema") (codes "kuli/ir/1.0") refl in
        let (kind, kind_text) = text-object make m (codes "kind") (codes "ApplyDerivation") refl in
        let (has, at_node) = contains-object make m (codes "node") (object node_members) refl in
        record {
          object = make.object_is_object m;
          schema_string = schema;
          schema = schema_text;
          kind_string = kind;
          has_node = has;
          node = apply kind_text (rw at_node node-IsApply);
        }

  -- The adapter turns every well-formed graph into a document, and the validator accepts it.
  pub validate-to_apply_ir :
      (g : DerivationGraph) (dry_run : Bool)
      → IsWellFormed g
      → (doc : J) × (to_apply_ir make g dry_run ≡ some doc) × (Ir.validate json doc ≡ ok tt)
  unfolding to_apply_ir
  validate-to_apply_ir g dry_run wf =
      let (v, e, o) = visit_root-IsOrder g wf.unnamed in
      (
        document make g dry_run v.order,
        rw (to_apply_ir, e),
        (validate_iff json _).1 (document-IsDocument g wf v.order o dry_run),
      )
