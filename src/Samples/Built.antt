-- ===== src/Samples/Built.antt =====
-- Instances on derivation graphs, and JSON trees built from their parts.
use kuli.Common.{
  true, false, List, [], ◌∷◌, some, ◌≡◌, refl, sym, ap, ◌∙◌, arith, Bytes, codes, same, All, inl,
  inr, any_same, isxdigit,
}
use kuli.Graph.{
  DerivationGraph, Derivation, FetchSpec, ScriptureSpec, Builder, fetch, composite, with_files,
  find,
}
use kuli.Json.{JsonMake, find_key, is_some}
use kuli.Crypto.{all_hex}
use kuli.Diag.{ok}
use kuli.Ir
use kuli.Samples.Documents.{
  Tree, text, truth, no_items, item, no_members, member, tree_api, find_member, tree_elements,
}
use kuli.Adapter.{dfs, Visit, children, visit_root, to_apply_ir}
use kuli.Adapter.Members.{◌∈◌, mem-cons, not-mem-nil}
use kuli.Adapter.Values.{find-All}
use kuli.Adapter.Invariant.{IsNode}
use kuli.Adapter.Order.{IsOrder, visit_root-IsOrder}
use kuli.Adapter.Valid.{IsChecked}
use kuli.Adapter.Document.{IsWellFormed, validate-to_apply_ir}

unfoldable pub build_array : List Tree → Tree
build_array [] = no_items
build_array (x ∷ xs) = item x (build_array xs)

unfoldable pub build_object : List (Bytes × Tree) → Tree
build_object [] = no_members
build_object ((k, v) ∷ m) = member k v (build_object m)

pub array_law : (xs : List Tree) → tree_api.is_array (build_array xs) ≡ true
unfolding build_array
array_law [] = refl
array_law (x ∷ xs) = refl

pub elements_law : (xs : List Tree) → tree_elements (build_array xs) ≡ xs
unfolding build_array tree_elements
elements_law [] = refl
elements_law (x ∷ xs) = ap (◌∷◌ x) (elements_law xs)

pub object_law : (m : List (Bytes × Tree)) → tree_api.is_object (build_object m) ≡ true
unfolding build_object
object_law [] = refl
object_law ((k, v) ∷ m) = refl

find_law :
    (m : List (Bytes × Tree)) (key : Bytes) → find_member (build_object m) key ≡ find_key m key
unfolding build_object find_member
find_law [] key = refl
find_law ((k, v) ∷ m) key = rw (find_law m key)

pub contains_law :
    (m : List (Bytes × Tree)) (key : Bytes)
    → tree_api.contains (build_object m) key ≡ is_some (find_key m key)
contains_law m key = ground (arith, find_law m key)

pub at_law :
    (m : List (Bytes × Tree)) (key : Bytes) (v : Tree)
    → find_key m key ≡ some v
    → tree_api.at (build_object m) key ≡ v
at_law m key v e =
    let found : find_member (build_object m) key ≡ some v = find_law m key ∙ e in ground arith

pub values_law :
    (P : Tree → Type 0) (m : List (Bytes × Tree))
    → All (λ e. P e.1) m
    → All P (tree_elements (build_object m))
unfolding build_object tree_elements
values_law P [] h = tt
values_law P ((k, v) ∷ m) h = (h.0, values_law P m h.1)

pub empty_law :
    (k : Bytes) (v : Tree) (m : List (Bytes × Tree))
    → tree_api.empty (build_object ((k, v) ∷ m)) ≡ false
unfolding build_object tree_elements
empty_law k v m = refl

abbrev pub tree_make : JsonMake tree_api
tree_make = record {
  string = text;
  boolean = truth;
  array = build_array;
  object = build_object;
  string_is_string = λ s. refl;
  string_text = λ s. refl;
  array_is_array = array_law;
  array_elements = elements_law;
  object_is_object = object_law;
  object_contains = contains_law;
  object_at = at_law;
  object_empty = empty_law;
  object_values = values_law;
}

abbrev no_scripture : ScriptureSpec
no_scripture = record { version = []; basenames = []; files = [] }

abbrev no_fetch : FetchSpec
no_fetch = record {
  owner = [];
  repo = [];
  version = [];
  asset_pattern = [];
  sha256 = [];
  bin = [];
  shim_dir = [];
  post_install = [];
}

abbrev pub plain : Builder → Bytes → Derivation
plain builder hash = record {
  builder = builder;
  hash = hash;
  name = codes "n";
  store_path = codes "p";
  system_target = codes "linux-x64";
  fetch = no_fetch;
  components = [];
  requires = [];
  base = [];
  files = [];
  scripture = no_scripture;
}

abbrev digest : Bytes
digest = codes "0123456789abcdef0123456789abcdef0123456789abcdef0123456789abcdef"

abbrev conf : Derivation
conf = record (plain with_files (codes "conf")) { base = codes "tool" }

abbrev set : Derivation
set = record (plain composite (codes "set")) {
  components = codes "conf" ∷ [];
  requires = codes "tool" ∷ [];
}

abbrev tool : Derivation
tool = record (plain fetch (codes "tool")) { fetch = record no_fetch { sha256 = digest } }

-- A set of a tool and of its configuration, which depends on the tool in its turn.
abbrev pub tool_graph : DerivationGraph
tool_graph = record { root = codes "set"; nodes = conf ∷ set ∷ tool ∷ [] }

tool_order :
    visit_root tool_graph
    ≡ some (record {
      seen = codes "conf" ∷ codes "tool" ∷ codes "set" ∷ [];
      order = codes "tool" ∷ codes "conf" ∷ codes "set" ∷ [];
    })
unfolding visit_root dfs codes any_same find same children
tool_order = refl

visit_root-IsOrder_example :
    (v : Visit) × (visit_root tool_graph ≡ some v) × IsOrder tool_graph v.order
unfolding find same codes
visit_root-IsOrder_example = visit_root-IsOrder tool_graph refl

-- The two hashes that the derivations of the graph name are found.
conf_found : IsNode tool_graph (codes "conf")
unfolding find same codes
conf_found = (conf, refl)

tool_found : IsNode tool_graph (codes "tool")
unfolding find same codes
tool_found = (tool, refl)

abbrev ToolClosed : Derivation → Type 0
ToolClosed d = IsChecked d × ((c : Bytes) → c ∈ children d → IsNode tool_graph c)

children_found :
    (d : Derivation) (names : List Bytes)
    → All (IsNode tool_graph) names
    → (c : Bytes) → c ∈ names
    → IsNode tool_graph c
children_found d [] h c m = absurd (not-mem-nil c m)
children_found d (x ∷ xs) h c m = elim ((mem-cons c x xs).0 m) [
  | inl e ↦ rw (sym e) h.0
  | inr q ↦ children_found d xs h.1 c q
]

tool_nodes_known : All ToolClosed tool_graph.nodes
unfolding children codes Ir.is_sha256_hex all_hex isxdigit
tool_nodes_known = (
  (
    record { pinned = λ e. absurd (cc e); named = λ e. absurd (cc e) },
    children_found conf (codes "tool" ∷ []) (tool_found, tt),
  ),
  (
    (
      record { pinned = λ e. absurd (cc e); named = λ e. absurd (cc e) },
      children_found set (codes "tool" ∷ codes "conf" ∷ []) (tool_found, (conf_found, tt)),
    ),
    ((record { pinned = λ e. refl; named = λ e. absurd (cc e) }, children_found tool [] tt), tt),
  ),
)

tool-IsWellFormed : IsWellFormed tool_graph
unfolding find same codes
tool-IsWellFormed = record {
  root = (set, refl);
  unnamed = refl;
  closed = λ x c (d, e, m). (find-All ToolClosed tool_graph x d tool_nodes_known e).1 c m;
  checked = λ x d e. (find-All ToolClosed tool_graph x d tool_nodes_known e).0;
}

validate-to_apply_ir_example :
    (doc : Tree) × (to_apply_ir tree_make tool_graph true ≡ some doc)
    × (Ir.validate tree_api doc ≡ ok tt)
validate-to_apply_ir_example = validate-to_apply_ir tree_make tool_graph true tool-IsWellFormed
