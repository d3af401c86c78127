-- ===== src/Ir/Reads.antt =====
-- What the accepted nodes of the flat kinds are.
use kuli.Common.{
  Bool, true, false, not, ◌&&◌, ◌||◌, List, ◌≡◌, ◌↔◌, ◌≢◌, refl, arith, Bytes, codes, All, All-map,
  &&_iff, is_empty, ◌∷◌, [],
}
use kuli.Diag.{ok, guard, for_each}
use kuli.Diag.Chain.{guard_iff, seq_iff, for_each_iff}
use kuli.Json.{JsonApi}
use kuli.Ir
use kuli.Ir.Derivation.{guards_iff}

optional_iff : (has good : Bool) → (not (has && not good) ≡ true) ↔ (has ≡ true → good ≡ true)
optional_iff true good = (λ h _. ground arith, λ h. ground (arith, h refl))
optional_iff false good = (λ _ e. absurd (cc e), λ _. refl)

allowed_iff : (allow good : Bool) → ((not allow || good) ≡ true) ↔ (allow ≡ true → good ≡ true)
allowed_iff true good = (λ h _. h, λ h. h refl)
allowed_iff false good = (λ _ e. absurd (cc e), λ _. refl)

not_empty_iff : (b : Bool) (s : Bytes) → ((b && not (is_empty s)) ≡ true) ↔ ((b ≡ true) × (s ≢ []))
not_empty_iff b [] = (λ h. absurd (ground arith), λ h. absurd (h.1 refl))
not_empty_iff b (c ∷ s) = (λ h. (ground arith, λ e. cc e), λ h. ground (arith, h.0))

module _ {J : Type 0} (json : JsonApi J) where
  open json use {
    is_object, is_array, is_string, is_boolean, is_number_integer, contains, at, get_string,
    elements,
  }

  -- The key is absent or holds a value of the right type.
  abbrev pub Optional : (J → Bool) → J → Bytes → Type 0
  Optional test j key = contains j key ≡ true → test (at j key) ≡ true

  -- The key holds an array with at least one member, and all its members are strings.
  pub record IsStrings (j : J) (key : Bytes) : Type 0 where
    pub items : Ir.has_items json j key ≡ true
    pub strings : All (λ r. is_string r ≡ true) (elements (at j key))

  pub record IsFileQuery (node : J) : Type 0 where
    pub object : is_object node ≡ true
    pub place : Optional is_string node (codes "at")
    pub roots : IsStrings node (codes "roots")
    pub globs : Optional is_array node (codes "name")

  pub record IsTextSearch (node : J) : Type 0 where
    pub object : is_object node ≡ true
    pub place : Optional is_string node (codes "at")
    pub roots : IsStrings node (codes "roots")
    pub pattern : Ir.is_str json node (codes "pattern") ≡ true
    pub pattern_ne_nil : get_string (at node (codes "pattern")) ≢ []
    pub globs : Optional is_array node (codes "name")

  pub record IsSimpleRead (named : Bool) (node : J) : Type 0 where
    pub object : is_object node ≡ true
    pub place : Optional is_string node (codes "at")
    pub globs : named ≡ true → Optional is_array node (codes "name")
    pub pid : named ≡ true → Optional is_number_integer node (codes "pid")

  pub record IsStage (s : J) : Type 0 where
    pub object : is_object s ≡ true
    pub cmd : IsStrings s (codes "cmd")
    pub place : Optional is_string s (codes "at")

  pub record IsPipeline (node : J) : Type 0 where
    pub object : is_object node ≡ true
    pub stages_array : Ir.has_items json node (codes "stages") ≡ true
    pub stages : All IsStage (elements (at node (codes "stages")))

  pub record IsExec (node : J) : Type 0 where
    pub object : is_object node ≡ true
    pub place : Optional is_string node (codes "at")
    pub cmd : IsStrings node (codes "cmd")
    pub cwd : Optional is_string node (codes "cwd")
    pub capture : Optional is_boolean node (codes "capture")
    pub stdin : Optional is_string node (codes "stdin")

  guard-optional_iff :
      (test : J → Bool) (j : J) (key msg : Bytes)
      → (guard (Ir.optional json test j key) (Ir.invalid msg) ≡ ok tt) ↔ Optional test j key
  guard-optional_iff test j key msg =
      let e = guard_iff (Ir.optional json test j key) (Ir.invalid msg) in
      let o = optional_iff (contains j key) (test (at j key)) in
      (λ h. o.0 (e.0 h), λ h. e.1 (o.1 h))

  strings_iff :
      (msg : Bytes) (xs : List J)
      → (for_each (Ir.must_be_string json msg) xs ≡ ok tt) ↔ All (λ r. is_string r ≡ true) xs
  strings_iff msg xs = guards_iff is_string (Ir.must_be_string json msg) xs (λ r. guard_iff _ _)

  pub validate_file_query_iff :
      (node : J) → (Ir.validate_file_query json node ≡ ok tt) ↔ IsFileQuery node
  unfolding Ir.validate_file_query
  validate_file_query_iff node =
      let place = guard-optional_iff is_string node (codes "at") _ in
      let roots = strings_iff _ (elements (at node (codes "roots"))) in
      let globs = guard-optional_iff is_array node (codes "name") _ in
      (
        λ h.
            let (a, (b, (c, (d, e)))) =
              (seq_iff (guard_iff _ _)
                  (seq_iff place (seq_iff (guard_iff _ _) (seq_iff roots globs)))).0
                h in
            record { object = a; place = b; roots = record { items = c; strings = d }; globs = e },
        λ v.
            (seq_iff (guard_iff _ _)
                (seq_iff place (seq_iff (guard_iff _ _) (seq_iff roots globs)))).1
              (v.object, (v.place, (v.roots.items, (v.roots.strings, v.globs)))),
      )

  pub validate_text_search_iff :
      (node : J) → (Ir.validate_text_search json node ≡ ok tt) ↔ IsTextSearch node
  unfolding Ir.validate_text_search
  validate_text_search_iff node =
      let place = guard-optional_iff is_string node (codes "at") _ in
      let roots = strings_iff _ (elements (at node (codes "roots"))) in
      let globs = guard-optional_iff is_array node (codes "name") _ in
      let filled =
        not_empty_iff (Ir.is_str json node (codes "pattern"))
          (get_string (at node (codes "pattern"))) in
      (
        λ h.
            let (a, (b, (c, (d, (p, e))))) =
              (seq_iff (guard_iff _ _) (
                  seq_iff place
                    (seq_iff (guard_iff _ _) (seq_iff roots (seq_iff (guard_iff _ _) globs))))).0
                h in
            record {
              object = a;
              place = b;
              roots = record { items = c; strings = d };
              pattern = (filled.0 p).0;
              pattern_ne_nil = (filled.0 p).1;
              globs = e;
            },
        λ v.
            (seq_iff (guard_iff _ _) (
                seq_iff place
                  (seq_iff (guard_iff _ _) (seq_iff roots (seq_iff (guard_iff _ _) globs))))).1
              (
                v.object,
                (
                  v.place,
                  (
                    v.roots.items,
                    (v.roots.strings, (filled.1 (v.pattern, v.pattern_ne_nil), v.globs)),
                  ),
                ),
              ),
      )

  pub validate_simple_read_iff :
      (node : J) (what : Bytes) (named : Bool)
      → (Ir.validate_simple_read json node what named ≡ ok tt) ↔ IsSimpleRead named node
  unfolding Ir.validate_simple_read
  validate_simple_read_iff node what named =
      let place = guard-optional_iff is_string node (codes "at") _ in
      let globs = optional_iff (contains node (codes "name")) (is_array (at node (codes "name"))) in
      let pid =
        optional_iff (contains node (codes "pid")) (is_number_integer (at node (codes "pid"))) in
      (
        λ h.
            let (a, (b, (c, d))) =
              (seq_iff (guard_iff _ _) (seq_iff place (seq_iff (guard_iff _ _) (guard_iff _ _)))).0
                h in
            record {
              object = a;
              place = b;
              globs = λ n. globs.0 ((allowed_iff named _).0 c n);
              pid = λ n. pid.0 ((allowed_iff named _).0 d n);
            },
        λ v. (seq_iff (guard_iff _ _) (seq_iff place (seq_iff (guard_iff _ _) (guard_iff _ _)))).1 (
          v.object,
          (
            v.place,
            (
              (allowed_iff named _).1 (λ n. globs.1 (v.globs n)),
              (allowed_iff named _).1 (λ n. pid.1 (v.pid n)),
            ),
          ),
        ),
      )

  check_stage_iff : (s : J) → (Ir.check_stage json s ≡ ok tt) ↔ IsStage s
  unfolding Ir.check_stage
  check_stage_iff s =
      let place = guard-optional_iff is_string s (codes "at") _ in
      let cmd = strings_iff _ (elements (at s (codes "cmd"))) in
      (
        λ h.
            let (a, (b, c)) = (seq_iff (guard_iff _ _) (seq_iff cmd place)).0 h in
            let (o, i) = (&&_iff _ _).0 a in
            record { object = o; cmd = record { items = i; strings = b }; place = c },
        λ v.
            (seq_iff (guard_iff _ _) (seq_iff cmd place)).1
              ((&&_iff _ _).1 (v.object, v.cmd.items), (v.cmd.strings, v.place)),
      )

  pub validate_pipeline_iff :
      (node : J) → (Ir.validate_pipeline json node ≡ ok tt) ↔ IsPipeline node
  unfolding Ir.validate_pipeline
  validate_pipeline_iff node =
      let stages = for_each_iff (Ir.check_stage json) (elements (at node (codes "stages"))) in
      (
        λ h.
            let (a, (b, c)) = (seq_iff (guard_iff _ _) (seq_iff (guard_iff _ _) stages)).0 h in
            record {
              object = a;
              stages_array = b;
              stages = All-map _ (λ s. (check_stage_iff s).0) c;
            },
        λ v.
            (seq_iff (guard_iff _ _) (seq_iff (guard_iff _ _) stages)).1
              (v.object, (v.stages_array, All-map _ (λ s. (check_stage_iff s).1) v.stages)),
      )

  pub validate_exec_iff : (node : J) → (Ir.validate_exec json node ≡ ok tt) ↔ IsExec node
  unfolding Ir.validate_exec
  validate_exec_iff node =
      let place = guard-optional_iff is_string node (codes "at") _ in
      let cmd = strings_iff _ (elements (at node (codes "cmd"))) in
      let cwd = guard-optional_iff is_string node (codes "cwd") _ in
      let capture = guard-optional_iff is_boolean node (codes "capture") _ in
      let stdin = guard-optional_iff is_string node (codes "stdin") _ in
      (
        λ h.
            let (a, (b, (c, (d, (e, (f, g)))))) =
              (seq_iff (guard_iff _ _) (
                  seq_iff place (
                    seq_iff (guard_iff _ _) (seq_iff cmd (seq_iff cwd (seq_iff capture stdin)))))).0
                h in
            record {
              object = a;
              place = b;
              cmd = record { items = c; strings = d };
              cwd = e;
              capture = f;
              stdin = g;
            },
        λ v.
            (seq_iff (guard_iff _ _) (
                seq_iff place
                  (seq_iff (guard_iff _ _) (seq_iff cmd (seq_iff cwd (seq_iff capture stdin)))))).1
              (v.object, (v.place, (v.cmd.items, (v.cmd.strings, (v.cwd, (v.capture, v.stdin)))))),
      )
