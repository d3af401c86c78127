-- ===== src/Ir/Errors.antt =====
-- Every refusal of the validator is of the kind that exits with 2.
use kuli.Common.{Bool, true, false, List, [], ◌∷◌, ◌≡◌, refl, arith, Bytes, same, if◌then◌else◌}
use kuli.Diag.{
  ir_validation, Diagnostic, exit_code_of, exit_code_of_kind, Expected, ok, err, ◌>>=◌, ◌>>◌, guard,
  for_each,
}
use kuli.Json.{JsonApi}
use kuli.Ir

pub record IrErrors {A : Type 0} (r : Expected A) : Type 0 where
  pub kind_is : (d : Diagnostic) → r ≡ err d → d.kind ≡ ir_validation

ok_rule : {A : Type 0} (a : A) → IrErrors (ok a)
ok_rule a = record { kind_is = λ d h. absurd (cc h) }

err_rule : {A : Type 0} (msg : Bytes) → IrErrors {A = A} (err (Ir.invalid msg))
unfolding Ir.invalid
err_rule msg = record { kind_is = λ d h. ground arith }

guard_rule : (b : Bool) (msg : Bytes) → IrErrors (guard b (Ir.invalid msg))
guard_rule true msg = ok_rule tt
guard_rule false msg = err_rule msg

bind_rule :
    {A B : Type 0} {m : Expected A} {k : A → Expected B}
    → IrErrors m
    → ((a : A) → IrErrors (k a))
    → IrErrors (m >>= k)
bind_rule {m = ok a} e f = f a
bind_rule {m = err d} e f = record { kind_is = λ d' h. ground (arith, e.kind_is d refl) }

seq_rule :
    {A : Type 0} {m : Expected (Unit {0})} {k : Expected A}
    → IrErrors m
    → IrErrors k
    → IrErrors (m >> k)
seq_rule e f = bind_rule e (λ _. f)

each_rule :
    {A : Type 0} {f : A → Ir.Check} (xs : List A)
    → ((x : A) → IrErrors (f x))
    → IrErrors (for_each f xs)
unfolding for_each
each_rule [] h = ok_rule tt
each_rule (x ∷ xs) h = seq_rule (h x) (each_rule xs h)

if_rule :
    {A : Type 0} {m n : Expected A} (b : Bool)
    → IrErrors m
    → IrErrors n
    → IrErrors (if b then m else n)
if_rule true e f = e
if_rule false e f = f

ruleset rules = (ok_rule, err_rule, guard_rule, bind_rule, seq_rule, each_rule, if_rule)

module _ {J : Type 0} (json : JsonApi J) where
  check_fetch_errors : (d : J) → IrErrors (Ir.check_fetch json d)
  unfolding Ir.check_fetch
  check_fetch_errors d = search (rules) depth 16

  check_scripture_errors : (d : J) → IrErrors (Ir.check_scripture json d)
  unfolding Ir.check_scripture
  check_scripture_errors d = search (rules) depth 16

  check_derivation_errors : (d : J) → IrErrors (Ir.check_derivation json d)
  unfolding Ir.check_derivation
  check_derivation_errors d = search (rules, check_fetch_errors, check_scripture_errors) depth 16

  collect_errors : (ds : List J) (hashes : List Bytes) → IrErrors (Ir.collect json ds hashes)
  unfolding Ir.collect
  collect_errors [] hashes = ok_rule hashes
  collect_errors (d ∷ ds) hashes =
      bind_rule (check_derivation_errors d) (λ _. collect_errors ds (Ir.hash_of json d ∷ hashes))

  check_array_errors :
      (hashes : List Bytes) (d : J) (key : Bytes) → IrErrors (Ir.check_array json hashes d key)
  unfolding Ir.check_array
  check_array_errors hashes d key = search (rules) depth 16

  check_refs_errors : (hashes : List Bytes) (d : J) → IrErrors (Ir.check_refs json hashes d)
  unfolding Ir.check_refs
  check_refs_errors hashes d = search (rules, check_array_errors) depth 16

  apply_errors : (node : J) → IrErrors (Ir.validate_apply_derivation json node)
  unfolding Ir.validate_apply_derivation
  apply_errors node = search (rules, collect_errors, check_refs_errors) depth 16

  strings_errors : (msg : Bytes) (xs : List J) → IrErrors (for_each (Ir.must_be_string json msg) xs)
  strings_errors msg xs = search (rules) depth 16

  file_query_errors : (node : J) → IrErrors (Ir.validate_file_query json node)
  unfolding Ir.validate_file_query
  file_query_errors node = search (rules) depth 16

  text_search_errors : (node : J) → IrErrors (Ir.validate_text_search json node)
  unfolding Ir.validate_text_search
  text_search_errors node = search (rules) depth 16

  simple_read_errors :
      (node : J) (what : Bytes) (named : Bool)
      → IrErrors (Ir.validate_simple_read json node what named)
  unfolding Ir.validate_simple_read
  simple_read_errors node what named = search (rules) depth 16

  pipeline_errors : (node : J) → IrErrors (Ir.validate_pipeline json node)
  unfolding Ir.validate_pipeline Ir.check_stage
  pipeline_errors node = search (rules) depth 16

  exec_errors : (node : J) → IrErrors (Ir.validate_exec json node)
  unfolding Ir.validate_exec
  exec_errors node = search (rules) depth 16

  node_errors : (k : Bytes) (node : J) → IrErrors (Ir.validate_node json k node)
  unfolding Ir.validate_node
  node_errors k node = if_rule (same k _) (apply_errors node) (
      if_rule (same k _) (file_query_errors node) (
        if_rule (same k _) (text_search_errors node) (
          if_rule (same k _) (simple_read_errors node _ true) (
            if_rule (same k _) (simple_read_errors node _ false) (
              if_rule (same k _) (simple_read_errors node _ false) (
                if_rule (same k _) (simple_read_errors node _ true) (
                  if_rule (same k _) (exec_errors node) (
                    if_rule (same k _) (pipeline_errors node)
                      (if_rule _ (ok_rule tt) (err_rule _))))))))))

  validate_errors : (doc : J) → IrErrors (Ir.validate json doc)
  unfolding Ir.validate
  validate_errors doc = search (rules, node_errors) depth 16

  -- Whatever document `validate` refuses, the diagnostic's exit code is 2.
  pub validate_exit_code :
      (doc : J) (d : Diagnostic) → Ir.validate json doc ≡ err d → exit_code_of d ≡ 2
  unfolding exit_code_of_kind
  validate_exit_code doc d h = rw ((validate_errors doc).kind_is d h)
