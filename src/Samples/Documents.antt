-- ===== src/Samples/Documents.antt =====
-- Instances on JSON trees, hash specifications, exit codes and globs.
use kuli.Common.{
  Bool, true, false, List, [], ◌∷◌, Option, none, some, ◌≡◌, ◌↔◌, refl, Bytes, codes, same, cut,
  isspace, isxdigit, tolower, lower, has_byte, if◌then◌else◌,
}
use kuli.Diag.{exit_code_of, ok, for_each}
use kuli.Crypto.{Algorithm, HashSpec, parse, parse_algo, all_hex, to_string}
use kuli.Crypto.RoundTrip.{IsNormal, parse-to_string, parse-to_string-parse}
use kuli.Json.{JsonApi}
use kuli.Ir
use kuli.Ir.{invalid}
use kuli.Ir.Apply.{IsApply, validate-IsApply_iff}
use kuli.Ir.Document.{IsDocument, validate_iff}
use kuli.Ir.Errors.{validate_exit_code}
use kuli.Engine.Glob.{glob_match, glob_run}
use kuli.Engine.Glob.Wildcard.{Matches}
use kuli.Engine.Glob.Decide.{Answers, glob_run-Answers, glob_match_iff, glob_match_star_name}

-- JSON trees, as far as the samples need them. An array or an object is its first item and the rest.
pub data Tree : Type 0 where
  text : Bytes → Tree
  truth : Bool → Tree
  no_items : Tree
  item : Tree → Tree → Tree
  no_members : Tree
  member : Bytes → Tree → Tree → Tree

unfoldable pub find_member : Tree → Bytes → Option Tree
find_member (member k v m) key = let rest = find_member m key in if same k key then some v else rest
find_member _ key = none

unfoldable pub tree_elements : Tree → List Tree
tree_elements (text s) = text s ∷ []
tree_elements (truth b) = truth b ∷ []
tree_elements (item x xs) = x ∷ tree_elements xs
tree_elements (member k v m) = v ∷ tree_elements m
tree_elements _ = []

abbrev pub tree_api : JsonApi Tree
tree_api = record {
  is_object = λ t. elim t as (λ _. Bool) [ no_members ↦ true | member k v m ↦ true | _ ↦ false ];
  is_array = λ t. elim t as (λ _. Bool) [ no_items ↦ true | item x xs ↦ true | _ ↦ false ];
  is_string = λ t. elim t as (λ _. Bool) [ text s ↦ true | _ ↦ false ];
  is_boolean = λ t. elim t as (λ _. Bool) [ truth b ↦ true | _ ↦ false ];
  is_number_integer = λ t. false;
  empty = λ t. elim (tree_elements t) as (λ _. Bool) [ [] ↦ true | x ∷ xs ↦ false ];
  contains = λ t key. elim (find_member t key) as (λ _. Bool) [ none ↦ false | some v ↦ true ];
  at = λ t key. elim (find_member t key) as (λ _. Tree) [ none ↦ text [] | some v ↦ v ];
  get_string = λ t. elim t as (λ _. Bytes) [ text s ↦ s | _ ↦ [] ];
  elements = tree_elements;
  values = tree_elements;
}

abbrev composite : Bytes → Tree → Tree
composite hash parts = member (codes "hash") (text hash) (
    member (codes "name") (text (codes "rg")) (
      member (codes "storePath") (text (codes "/s/rg")) (
        member (codes "builder") (text (codes "composite"))
          (member (codes "components") parts no_members))))

-- One derivation that names another as a component.
abbrev apply_node : Bytes → Tree
apply_node part = member (codes "root") (text (codes "h1")) (
    member (codes "derivations")
      (item (composite (codes "h1") (item (text part) no_items))
        (item (composite (codes "h2") no_items) no_items))
      no_members)

abbrev document : Bytes → Tree
document part = member (codes "schema") (text (codes "kuli/ir/1.0")) (
    member (codes "kind") (text (codes "ApplyDerivation"))
      (member (codes "node") (apply_node part) no_members))

validate-IsApply_iff_example :
    (Ir.validate_apply_derivation tree_api (apply_node (codes "h2")) ≡ ok tt)
    ↔ IsApply tree_api (apply_node (codes "h2"))
validate-IsApply_iff_example = validate-IsApply_iff tree_api (apply_node (codes "h2"))

validate_iff_example :
    (Ir.validate tree_api (document (codes "h2")) ≡ ok tt)
    ↔ IsDocument tree_api (document (codes "h2"))
validate_iff_example = validate_iff tree_api (document (codes "h2"))

validate_accepts : Ir.validate tree_api (document (codes "h2")) ≡ ok tt
unfolding Ir.is_str Ir.check_fetch Ir.check_scripture Ir.check_derivation Ir.collect Ir.check_array
    Ir.check_refs Ir.validate_apply_derivation Ir.validate_file_query Ir.validate_text_search
    Ir.validate_simple_read Ir.check_stage Ir.validate_pipeline Ir.validate_exec Ir.validate_node
    Ir.validate Ir.set_count same codes find_member tree_elements for_each
validate_accepts = refl

validate_exit_code_example : exit_code_of (invalid (codes "IR document must be a JSON object")) ≡ 2
unfolding Ir.validate
validate_exit_code_example =
    validate_exit_code tree_api (text []) (invalid (codes "IR document must be a JSON object")) refl

abbrev spec : HashSpec
spec = record { algo = Algorithm.md5; hex = codes "0a" }

parse-to_string_example : parse (to_string spec) ≡ some spec
unfolding codes all_hex isxdigit lower tolower
parse-to_string_example =
    parse-to_string spec (record { hex_ne_nil = λ e. cc e; hex_digits = refl; hex_lower = refl })

parse-to_string-parse_example : IsNormal spec × (parse (to_string spec) ≡ some spec)
unfolding parse parse_algo codes isxdigit lower tolower isspace cut same
parse-to_string-parse_example = parse-to_string-parse (codes " MD5:0A") {spec = spec} refl

glob_run-Answers_example :
    Answers
      (Matches (codes "a*") (codes "abc"))
      (has_byte b'*' (codes "abc") ≡ false)
      (glob_run (codes "a*") (codes "abc"))
glob_run-Answers_example = glob_run-Answers (codes "a*") (codes "abc")

glob_match_iff_example :
    (glob_match (codes "a*") (codes "abc") ≡ true) ↔ Matches (codes "a*") (codes "abc")
unfolding has_byte codes
glob_match_iff_example = glob_match_iff (codes "a*") (codes "abc") refl

glob_match_star_name_example :
    Matches (b'*' ∷ []) (b'*' ∷ b'a' ∷ []) × (glob_match (b'*' ∷ []) (b'*' ∷ b'a' ∷ []) ≡ false)
glob_match_star_name_example = glob_match_star_name b'a' []
