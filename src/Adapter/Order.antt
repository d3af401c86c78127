-- ===== src/Adapter/Order.antt =====
-- The order of `dfs` from the root, against the graph.
use kuli.Common.{
  suc, false, List, [], ◌∷◌, none, some, refl, ◌≡◌, ◌↔◌, inl, inr, sym, arith, Bytes, is_empty,
  length,
}
use kuli.Graph.{DerivationGraph, find}
use kuli.Adapter.{Visit, unvisited, visit_root}
use kuli.Adapter.Members.{◌∈◌, mem-self, not-mem-nil, Once, unseen-le-length}
use kuli.Adapter.Invariant.{Leads, here, child, IsNode, Sorted, Inv, Done}
use kuli.Adapter.Traverse.{dfs-Done}

module _ (g : DerivationGraph) where
  pub record IsOrder (order : List Bytes) : Type 0 where
    pub once : Once order
    pub exact : (x : Bytes) → (x ∈ order) ↔ (Leads g g.root x × IsNode g x)
    pub sorted : Sorted g [] order

  start : Inv g [] unvisited
  start = record {
    reached = λ x m. absurd (not-mem-nil x m);
    waiting = λ x m. m;
    done = λ x m k. absurd (not-mem-nil x m);
    nodes = λ x m. absurd (not-mem-nil x m);
    closed = λ x c m k f. absurd (not-mem-nil x m);
    apart = λ x m o. not-mem-nil x m;
    once = tt;
    sorted = tt;
  }

  root-Done : (v : Visit) × (visit_root g ≡ some v) × Done g [] (g.root ∷ []) unvisited v
  unfolding visit_root
  root-Done =
      dfs-Done g (suc (length g.nodes)) [] g.root unvisited
        (omega (arith, unseen-le-length g.nodes [])) (here refl, λ x m. absurd (not-mem-nil x m))
        start

  node_named : find g [] ≡ none → (x : Bytes) → IsNode g x → is_empty x ≡ false
  node_named h [] k = absurd (cc (k.1, h))
  node_named h (c ∷ x) k = refl

  visited :
      (v : Visit) (x : Bytes)
      → find g [] ≡ none
      → Done g [] (g.root ∷ []) unvisited v
      → Leads g g.root x
      → is_empty x ≡ false
      → x ∈ v.seen
  visited v x h d (here e) f = rw (sym e) (d.visited g.root (mem-self g.root []) (rw e f))
  visited v x h d (child {b} c l k) f =
      let named = node_named h b (k.0, k.1) in
      elim (d.inv.done b (visited v b h d l named) (k.0, k.1)) [
        | inl o ↦ d.inv.closed b x o k f
        | inr s ↦ absurd (not-mem-nil b s)
      ]

  -- Where no derivation has the empty hash, `dfs` from the root returns, and its order holds
  -- exactly the derivations that the root leads to, each once, each preceded by the derivations
  -- that it depends on, but for those that depend on it in their turn.
  pub visit_root-IsOrder :
      find g [] ≡ none → (v : Visit) × (visit_root g ≡ some v) × IsOrder v.order
  visit_root-IsOrder h =
      let (v, e, d) = root-Done in
      (
        v,
        e,
        record {
          once = d.inv.once;
          exact = λ x. (
            λ m. let (s, k) = d.inv.nodes x m in (d.inv.reached x s, k),
            λ (l, k). elim (d.inv.done x (visited v x h d l (node_named h x k)) k) [
              | inl o ↦ o
              | inr s ↦ absurd (not-mem-nil x s)
            ],
          );
          sorted = d.inv.sorted;
        },
      )
