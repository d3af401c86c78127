-- ===== src/Ir/Document.antt =====
-- The whole validator against the shape of a document, and the kind of its errors.
use kuli.Common.{
  true, false, ◌≡◌, ◌↔◌, inl, inr, arith, Bytes, codes, same, same_iff, if◌then◌else◌, Bool-cases,
  &&_iff,
}
use kuli.Diag.{ok}
use kuli.Diag.Chain.{guard_iff, seq_iff}
use kuli.Json.{JsonApi}
use kuli.Ir
use kuli.Ir.Apply.{IsApply, validate-IsApply_iff}
use kuli.Ir.Reads.{
  IsFileQuery, IsTextSearch, IsSimpleRead, IsExec, IsPipeline, validate_file_query_iff,
  validate_text_search_iff, validate_simple_read_iff, validate_pipeline_iff, validate_exec_iff,
}

module _ {J : Type 0} (json : JsonApi J) where
  open json use {is_object, contains, at, get_string}

  -- The eleven kinds, and the shape that each asks of its node; two of them ask for nothing.
  pub data IsNode (k : Bytes) (node : J) : Type 0 where
    apply : k ≡ codes "ApplyDerivation" → IsApply json node → IsNode k node
    file_query : k ≡ codes "FileQuery" → IsFileQuery json node → IsNode k node
    text_search : k ≡ codes "TextSearch" → IsTextSearch json node → IsNode k node
    process_query : k ≡ codes "ProcessQuery" → IsSimpleRead json true node → IsNode k node
    network_query : k ≡ codes "NetworkQuery" → IsSimpleRead json false node → IsNode k node
    host_facts : k ≡ codes "HostFacts" → IsSimpleRead json false node → IsNode k node
    env_query : k ≡ codes "EnvQuery" → IsSimpleRead json true node → IsNode k node
    exec : k ≡ codes "Exec" → IsExec json node → IsNode k node
    pipeline : k ≡ codes "Pipeline" → IsPipeline json node → IsNode k node
    env_set : k ≡ codes "EnvSet" → IsNode k node
    file_op : k ≡ codes "FileOp" → IsNode k node

  validate_node_complete :
      (k : Bytes) (node : J) → IsNode k node → Ir.validate_node json k node ≡ ok tt
  unfolding Ir.validate_node same codes
  validate_node_complete k node (apply e v) = rw e ((validate-IsApply_iff json node).1 v)
  validate_node_complete k node (file_query e v) = rw e ((validate_file_query_iff json node).1 v)
  validate_node_complete k node (text_search e v) = rw e ((validate_text_search_iff json node).1 v)
  validate_node_complete k node (process_query e v) =
      rw e ((validate_simple_read_iff json node _ true).1 v)
  validate_node_complete k node (network_query e v) =
      rw e ((validate_simple_read_iff json node _ false).1 v)
  validate_node_complete k node (host_facts e v) =
      rw e ((validate_simple_read_iff json node _ false).1 v)
  validate_node_complete k node (env_query e v) =
      rw e ((validate_simple_read_iff json node _ true).1 v)
  validate_node_complete k node (exec e v) = rw e ((validate_exec_iff json node).1 v)
  validate_node_complete k node (pipeline e v) = rw e ((validate_pipeline_iff json node).1 v)
  validate_node_complete k node (env_set e) = rw e
  validate_node_complete k node (file_op e) = rw e

  -- One test of the dispatch.
  branch :
      {P : Type 0} (k name : Bytes) (m n : Ir.Check)
      → (if same k name then m else n) ≡ ok tt
      → (k ≡ name → m ≡ ok tt → P)
      → (n ≡ ok tt → P)
      → P
  branch k name m n h this other = elim (Bool-cases (same k name)) [
    | inl e ↦ this ((same_iff k name).0 e) (rw e at h)
    | inr e ↦ other (rw e at h)
  ]

  validate_node_sound :
      (k : Bytes) (node : J) → Ir.validate_node json k node ≡ ok tt → IsNode k node
  unfolding Ir.validate_node
  validate_node_sound k node h =
      branch k _ _ _ h (λ e v. apply e ((validate-IsApply_iff json node).0 v))
        λ h1.
          branch k _ _ _ h1 (λ e v. file_query e ((validate_file_query_iff json node).0 v))
            λ h2.
              branch k _ _ _ h2 (λ e v. text_search e ((validate_text_search_iff json node).0 v))
                λ h3.
                  branch k _ _ _ h3
                    (λ e v. process_query e ((validate_simple_read_iff json node _ true).0 v))
                    λ h4.
                      branch k _ _ _ h4
                        (λ e v. network_query e ((validate_simple_read_iff json node _ false).0 v))
                        λ h5.
                          branch k _ _ _ h5
                            (λ e v. host_facts e ((validate_simple_read_iff json node _ false).0 v))
                            λ h6.
                              branch k _ _ _ h6
                                (λ e v.
                                  env_query e ((validate_simple_read_iff json node _ true).0 v))
                                λ h7.
                                  branch k _ _ _ h7
                                    (λ e v. exec e ((validate_exec_iff json node).0 v))
                                    λ h8.
                                      branch k _ _ _ h8
                                        (λ e v. pipeline e ((validate_pipeline_iff json node).0 v))
                                        λ h9. elim (Bool-cases (same k (codes "EnvSet"))) [
                                          | inl e ↦ env_set ((same_iff k (codes "EnvSet")).0 e)
                                          | inr e ↦ elim (Bool-cases (same k (codes "FileOp"))) [
                                            | inl f ↦ file_op ((same_iff k (codes "FileOp")).0 f)
                                            | inr f ↦ absurd (ground arith)
                                          ]
                                        ]

  pub record IsDocument (doc : J) : Type 0 where
    pub object : is_object doc ≡ true
    pub schema_string : Ir.is_str json doc (codes "schema") ≡ true
    pub schema : get_string (at doc (codes "schema")) ≡ codes "kuli/ir/1.0"
    pub kind_string : Ir.is_str json doc (codes "kind") ≡ true
    pub has_node : contains doc (codes "node") ≡ true
    pub node : IsNode (get_string (at doc (codes "kind"))) (at doc (codes "node"))

  -- `validate` accepts exactly the documents of the schema kuli/ir/1.0: an object with the schema's
  -- name, one of the eleven kinds, and a node of that kind's shape.
  pub validate_iff : (doc : J) → (Ir.validate json doc ≡ ok tt) ↔ IsDocument doc
  unfolding Ir.validate
  validate_iff doc =
      let k = get_string (at doc (codes "kind")) in
      let node = at doc (codes "node") in
      let schema = same_iff (get_string (at doc (codes "schema"))) (codes "kuli/ir/1.0") in
      (
        λ h.
            let (a, (b, (c, (d, e)))) =
              (seq_iff (guard_iff _ _) (
                  seq_iff (guard_iff _ _) (
                    seq_iff (guard_iff _ _) (
                      seq_iff (guard_iff _ _)
                        (validate_node_sound k node, validate_node_complete k node))))).0
                h in
            let (s, t) = (&&_iff _ _).0 b in
            record {
              object = a;
              schema_string = s;
              schema = schema.0 t;
              kind_string = c;
              has_node = d;
              node = e;
            },
        λ v.
            (seq_iff (guard_iff _ _) (
                seq_iff (guard_iff _ _) (
                  seq_iff (guard_iff _ _) (
                    seq_iff (guard_iff _ _)
                      (validate_node_sound k node, validate_node_complete k node))))).1
              (
                v.object,
                (
                  (&&_iff _ _).1 (v.schema_string, schema.1 v.schema),
                  (v.kind_string, (v.has_node, v.node)),
                ),
              ),
      )
