-- ===== src/Ir/Apply.antt =====
-- What an accepted ApplyDerivation node is: every derivation is well formed, and every hash that
-- one of them or the root names is the hash of a derivation of the node.
use kuli.Common.{
  Bool, true, false, not, ◌&&◌, List, [], ◌∷◌, ◌++◌, ◌≡◌, ◌↔◌, ◌⊎◌, inl, inr, refl, arith, Bytes,
  codes, same_iff, All, Any, All-map, &&_iff, ||_iff,
}
use kuli.Diag.{ok, guard, for_each}
use kuli.Diag.Chain.{guard_iff, seq_iff, when_iff, >>=-eq-ok, for_each_iff}
use kuli.Json.{JsonApi}
use kuli.Ir
use kuli.Ir.Derivation.{guards_iff, IsDerivation, check_derivation_iff}

module _ {J : Type 0} (json : JsonApi J) where
  open json use {is_object, is_array, is_string, empty, contains, at, get_string, elements, values}

  -- `h` is the hash of a derivation of the list.
  abbrev pub IsHashIn : List J → Bytes → Type 0
  IsHashIn ds h = Any (λ d. Ir.hash_of json d ≡ h) ds

  -- The hashes under `key`, where it is an array, all belong to derivations of the list.
  abbrev pub RefsUnder : List J → J → Bytes → Type 0
  RefsUnder ds d key =
      Ir.has_array json d key ≡ true
      → All (λ h. (is_string h ≡ true) × IsHashIn ds (get_string h)) (elements (at d key))

  pub record RefsIn (ds : List J) (d : J) : Type 0 where
    pub components : RefsUnder ds d (codes "components")
    pub requires : RefsUnder ds d (codes "requires")
    pub base :
        Ir.is_str json d (codes "base") ≡ true → IsHashIn ds (get_string (at d (codes "base")))

  -- The set after the first loop.
  gathered : List J → List Bytes → List Bytes
  gathered [] seen = seen
  gathered (d ∷ ds) seen = gathered ds (Ir.hash_of json d ∷ seen)

  gathered_iff :
      (ds : List J) (seen : List Bytes) (h : Bytes)
      → (Ir.set_count (gathered ds seen) h ≡ true) ↔ (IsHashIn ds h ⊎ (Ir.set_count seen h ≡ true))
  unfolding gathered Ir.set_count
  gathered_iff [] seen h = (inr, λ c. elim c [ inl b ↦ absurd b | inr e ↦ e ])
  gathered_iff (d ∷ ds) seen h =
      let ih = gathered_iff ds (Ir.hash_of json d ∷ seen) h in
      let same_h = same_iff (Ir.hash_of json d) h in
      (
        λ e. elim (ih.0 e) [
          | inl m ↦ inl (inr m)
          | inr m ↦ elim ((||_iff _ _).0 m) [ inl s ↦ inl (inl (same_h.0 s)) | inr s ↦ inr s ]
        ],
        λ c. elim c [
          | inl (inl s) ↦ ih.1 (inr ((||_iff _ _).1 (inl (same_h.1 s))))
          | inl (inr m) ↦ ih.1 (inl m)
          | inr s ↦ ih.1 (inr ((||_iff _ _).1 (inr s)))
        ],
      )

  known_iff : (ds : List J) (h : Bytes) → (Ir.set_count (gathered ds []) h ≡ true) ↔ IsHashIn ds h
  unfolding Ir.set_count
  known_iff ds h = (
    λ e. elim ((gathered_iff ds [] h).0 e) [ inl m ↦ m | inr b ↦ absurd (cc b) ],
    λ m. (gathered_iff ds [] h).1 (inl m),
  )

  collect-eq-ok :
      (ds : List J) (seen : List Bytes) {xs : List Bytes}
      → Ir.collect json ds seen ≡ ok xs
      → All (IsDerivation json) ds × (xs ≡ gathered ds seen)
  unfolding Ir.collect gathered
  collect-eq-ok [] seen e = (tt, ground arith)
  collect-eq-ok (d ∷ ds) seen e =
      let (u, a, b) = >>=-eq-ok (Ir.check_derivation json d) _ e in
      let (all, same_set) = collect-eq-ok ds (Ir.hash_of json d ∷ seen) b in
      (((check_derivation_iff json d).0 a, all), same_set)

  collect-gathered :
      (ds : List J) (seen : List Bytes)
      → All (IsDerivation json) ds
      → Ir.collect json ds seen ≡ ok (gathered ds seen)
  unfolding Ir.collect gathered
  collect-gathered [] seen h = refl
  collect-gathered (d ∷ ds) seen h =
      rw ((check_derivation_iff json d).1 h.0) (collect-gathered ds (Ir.hash_of json d ∷ seen) h.1)

  check_array_iff :
      (ds : List J) (d : J) (key : Bytes)
      → (Ir.check_array json (gathered ds []) d key ≡ ok tt) ↔ RefsUnder ds d key
  unfolding Ir.check_array
  check_array_iff ds d key =
      when_iff (Ir.has_array json d key) _ (λ e. e, λ e. e)
        ((
          λ e.
              All-map hs
                (λ h b. let (s, k) = (&&_iff _ _).0 b in (s, (known_iff ds (get_string h)).0 k))
                (test.0 e),
          λ a.
              test.1
                (All-map hs (λ h b. (&&_iff _ _).1 (b.0, (known_iff ds (get_string h)).1 b.1)) a),
        ))
    where
      hs : List J
      hs = elements (at d key)

      test :
          (for_each
              (λ h. guard (is_string h && Ir.set_count (gathered ds []) (get_string h)) (
                Ir.invalid (
                  codes "derivation '"
                  ++ get_string (at d (codes "name"))
                  ++ codes "' references unknown "
                  ++ key
                  ++ codes " hash")))
              hs
            ≡ ok tt)
          ↔ All (λ h. (is_string h && Ir.set_count (gathered ds []) (get_string h)) ≡ true) hs
      test = guards_iff _ _ hs (λ h. guard_iff _ _)

  base_iff :
      (ds : List J) (d : J)
      → (not (
            Ir.is_str json d (codes "base")
            && not (Ir.set_count (gathered ds []) (get_string (at d (codes "base")))))
          ≡ true)
        ↔ (Ir.is_str json d (codes "base") ≡ true → IsHashIn ds (get_string (at d (codes "base"))))
  base_iff ds d =
      let known = known_iff ds (get_string (at d (codes "base"))) in
      (λ e b. known.0 (ground arith), λ f. not_and _ _ (λ b. known.1 (f b)))
    where
      not_and : (a b : Bool) → (a ≡ true → b ≡ true) → not (a && not b) ≡ true
      not_and true b h = rw (h refl)
      not_and false b h = refl

  check_refs_iff :
      (ds : List J) (d : J) → (Ir.check_refs json (gathered ds []) d ≡ ok tt) ↔ RefsIn ds d
  unfolding Ir.check_refs
  check_refs_iff ds d =
      let components = check_array_iff ds d (codes "components") in
      let requires = check_array_iff ds d (codes "requires") in
      let base = base_iff ds d in
      (
        λ h.
            let (a, (b, c)) = (seq_iff components (seq_iff requires (guard_iff _ _))).0 h in
            record { components = a; requires = b; base = base.0 c },
        λ v.
            (seq_iff components (seq_iff requires (guard_iff _ _))).1
              (v.components, (v.requires, base.1 v.base)),
      )

  -- The whole node: closed under its references, with the root among its derivations.
  pub record IsApply (node : J) : Type 0 where
    pub object : is_object node ≡ true
    pub root_string : Ir.is_str json node (codes "root") ≡ true
    pub derivations_array : Ir.has_array json node (codes "derivations") ≡ true
    pub derivations : All (IsDerivation json) (Ir.derivations_of json node)
    pub closed : All (RefsIn (Ir.derivations_of json node)) (Ir.derivations_of json node)
    pub root : IsHashIn (Ir.derivations_of json node) (get_string (at node (codes "root")))

  validate-IsApply_sound :
      (node : J) → Ir.validate_apply_derivation json node ≡ ok tt → IsApply node
  unfolding Ir.validate_apply_derivation
  validate-IsApply_sound node h =
      let ds = Ir.derivations_of json node in
      let (a, h1) = (seq_iff (guard_iff _ _) (λ e. e, λ e. e)).0 h in
      let (b, h2) = (seq_iff (guard_iff _ _) (λ e. e, λ e. e)).0 h1 in
      let (c, h3) = (seq_iff (guard_iff _ _) (λ e. e, λ e. e)).0 h2 in
      let (xs, e, h4) = >>=-eq-ok (Ir.collect json ds []) _ h3 in
      let (all, same_set) = collect-eq-ok ds [] e in
      let (refs, root) = (seq_iff (for_each_iff _ ds) (guard_iff _ _)).0 (rw same_set at h4) in
      record {
        object = a;
        root_string = b;
        derivations_array = c;
        derivations = all;
        closed = All-map ds (λ d. (check_refs_iff ds d).0) refs;
        root = (known_iff ds _).0 root;
      }

  validate-IsApply_complete :
      (node : J) → IsApply node → Ir.validate_apply_derivation json node ≡ ok tt
  unfolding Ir.validate_apply_derivation
  validate-IsApply_complete node v =
      let ds = Ir.derivations_of json node in
      (seq_iff (guard_iff _ _)
          (seq_iff (guard_iff _ _) (seq_iff (guard_iff _ _) (λ e. e, λ e. e)))).1
        (
          v.object,
          (
            v.root_string,
            (
              v.derivations_array,
              rw (collect-gathered ds [] v.derivations) (
                  (seq_iff (for_each_iff _ ds) (guard_iff _ _)).1 (
                    All-map ds (λ d. (check_refs_iff ds d).1) v.closed,
                    (known_iff ds _).1 v.root,
                  )),
            ),
          ),
        )

  -- The node is accepted exactly when its derivations are well formed and the references between
  -- them, and the root, are closed.
  pub validate-IsApply_iff :
      (node : J) → (Ir.validate_apply_derivation json node ≡ ok tt) ↔ IsApply node
  validate-IsApply_iff node = (validate-IsApply_sound node, validate-IsApply_complete node)
