-- ===== src/Ir/Derivation.antt =====
-- What an accepted derivation is, for the first loop of `validate_apply_derivation` in
-- libs/kuli-ir/src/validate.cpp.
use kuli.Common.{
  Bool, true, not, ◌&&◌, List, [], ◌∷◌, ◌≡◌, ◌↔◌, arith, Bytes, codes, same_iff, All, Any, All-map,
}
use kuli.Diag.{ok, for_each}
use kuli.Diag.Chain.{guard_iff, seq_iff, when_iff, for_each_iff}
use kuli.Json.{JsonApi}
use kuli.Ir

pub set_count_iff : (xs : List Bytes) (h : Bytes) → (Ir.set_count xs h ≡ true) ↔ Any (λ x. x ≡ h) xs
unfolding Ir.set_count
set_count_iff [] h = (λ e. absurd (cc e), λ n. absurd n)
set_count_iff (x ∷ xs) h = (
  ground (arith, same_iff x h, set_count_iff xs h),
  ground (arith, same_iff x h, set_count_iff xs h),
)

-- A loop of guards accepts a list exactly when every test holds.
pub guards_iff {ℓ} :
    {A : Type ℓ} (test : A → Bool) (f : A → Ir.Check) (xs : List A)
    → ((x : A) → (f x ≡ ok tt) ↔ (test x ≡ true))
    → (for_each f xs ≡ ok tt) ↔ All (λ x. test x ≡ true) xs
guards_iff test f xs e = (
  λ h. All-map xs (λ x. (e x).0) ((for_each_iff f xs).0 h),
  λ h. (for_each_iff f xs).1 (All-map xs (λ x. (e x).1) h),
)

module _ {J : Type 0} (json : JsonApi J) where
  open json use {is_object, is_array, is_string, empty, contains, at, get_string, elements, values}

  -- A fetch derivation carries its source, pinned by 64 hexadecimal digits.
  pub record IsFetch (d : J) : Type 0 where
    pub object : (contains d (codes "fetch") && is_object (at d (codes "fetch"))) ≡ true
    pub fields : All (λ k. Ir.is_str json (at d (codes "fetch")) k ≡ true) Ir.fetch_fields
    pub digest : Ir.is_sha256_hex (get_string (at (at d (codes "fetch")) (codes "sha256"))) ≡ true

  -- A scripture carries at least one basename, and files with their contents.
  pub record IsScripture (d : J) : Type 0 where
    pub object : (contains d (codes "scripture") && is_object (at d (codes "scripture"))) ≡ true
    pub basenames :
        (contains (at d (codes "scripture")) (codes "basenames")
          && is_object (at (at d (codes "scripture")) (codes "basenames"))
          && not (empty (at (at d (codes "scripture")) (codes "basenames"))))
        ≡ true
    pub adapters :
        All (λ v. is_string v ≡ true) (values (at (at d (codes "scripture")) (codes "basenames")))
    pub files_array : Ir.has_array json (at d (codes "scripture")) (codes "files") ≡ true
    pub files :
        All
          (λ f. (Ir.is_str json f (codes "path") && Ir.is_str json f (codes "content")) ≡ true)
          (elements (at (at d (codes "scripture")) (codes "files")))

  pub record IsDerivation (d : J) : Type 0 where
    pub object : is_object d ≡ true
    pub fields : All (λ f. Ir.is_str json d f ≡ true) Ir.derivation_fields
    pub builder : Any (λ b. b ≡ Ir.builder_of json d) Ir.builders
    pub fetch : Ir.builder_of json d ≡ codes "fetch" → IsFetch d
    pub scripture : Ir.builder_of json d ≡ codes "scripture" → IsScripture d

  check_fetch_iff : (d : J) → (Ir.check_fetch json d ≡ ok tt) ↔ IsFetch d
  unfolding Ir.check_fetch
  check_fetch_iff d =
      let f = at d (codes "fetch") in
      let fields = guards_iff (λ k. Ir.is_str json f k) _ Ir.fetch_fields (λ k. guard_iff _ _) in
      (
        λ h.
            let (a, (b, c)) = (seq_iff (guard_iff _ _) (seq_iff fields (guard_iff _ _))).0 h in
            record { object = a; fields = b; digest = c },
        λ v.
            (seq_iff (guard_iff _ _) (seq_iff fields (guard_iff _ _))).1
              (v.object, (v.fields, v.digest)),
      )

  check_scripture_iff : (d : J) → (Ir.check_scripture json d ≡ ok tt) ↔ IsScripture d
  unfolding Ir.check_scripture
  check_scripture_iff d =
      let s = at d (codes "scripture") in
      let adapters =
        guards_iff is_string _ (values (at s (codes "basenames"))) (λ v. guard_iff _ _) in
      let files =
        guards_iff (λ f. Ir.is_str json f (codes "path") && Ir.is_str json f (codes "content")) _
          (elements (at s (codes "files"))) (λ f. guard_iff _ _) in
      (
        λ h.
            let (a, (b, (c, (e, f)))) =
              (seq_iff (guard_iff _ _)
                  (seq_iff (guard_iff _ _) (seq_iff adapters (seq_iff (guard_iff _ _) files)))).0
                h in
            record { object = a; basenames = b; adapters = c; files_array = e; files = f },
        λ v.
            (seq_iff (guard_iff _ _)
                (seq_iff (guard_iff _ _) (seq_iff adapters (seq_iff (guard_iff _ _) files)))).1
              (v.object, (v.basenames, (v.adapters, (v.files_array, v.files)))),
      )

  pub check_derivation_iff : (d : J) → (Ir.check_derivation json d ≡ ok tt) ↔ IsDerivation d
  unfolding Ir.check_derivation
  check_derivation_iff d =
      let fields =
        guards_iff (λ f. Ir.is_str json d f) _ Ir.derivation_fields (λ f. guard_iff _ _) in
      let builder = set_count_iff Ir.builders (Ir.builder_of json d) in
      let fetch =
        when_iff _ _ (same_iff (Ir.builder_of json d) (codes "fetch")) (check_fetch_iff d) in
      let scripture =
        when_iff _ _ (same_iff (Ir.builder_of json d) (codes "scripture"))
          (check_scripture_iff d) in
      (
        λ h.
            let (a, (b, (c, (e, f)))) =
              (seq_iff (guard_iff _ _)
                  (seq_iff fields (seq_iff (guard_iff _ _) (seq_iff fetch scripture)))).0
                h in
            record { object = a; fields = b; builder = builder.0 c; fetch = e; scripture = f },
        λ v.
            (seq_iff (guard_iff _ _)
                (seq_iff fields (seq_iff (guard_iff _ _) (seq_iff fetch scripture)))).1
              (v.object, (v.fields, (builder.1 v.builder, (v.fetch, v.scripture)))),
      )
