-- ===== src/Adapter/Traverse.antt =====
-- `dfs`: every call returns, and keeps the invariant.
use kuli.Common.{
  ℕ, zero, suc, ◌<◌, true, false, ◌||◌, List, [], ◌∷◌, ◌++◌, Option, some, ◌≡◌, inl, inr, refl, sym,
  arith, Bytes, any_same, is_empty, Bool-cases, Option-cases,
}
use kuli.Graph.{DerivationGraph, Derivation, find}
use kuli.Adapter.{Visit, children, visit_all, visit_node, dfs}
use kuli.Adapter.Members.{
  ◌∈◌, mem-cons, mem-self, not-mem-nil, unseen, unseen-le, unseen_cons, Grows,
}
use kuli.Adapter.Invariant.{here, child, Inv, Done, Enters, start-Inv, end-Inv, missing-Inv}

module _ (g : DerivationGraph) where
  abbrev pub Returns : (Bytes → Visit → Option Visit) → ℕ → List Bytes → Type 0
  Returns visit n stack =
      (h : Bytes) (v : Visit)
      → unseen g.nodes v.seen < n
      → Enters g stack h
      → Inv g stack v
      → (v' : Visit) × (visit h v ≡ some v') × Done g stack (h ∷ []) v v'

  visit_all-Done :
      (visit : Bytes → Visit → Option Visit) (n : ℕ) (stack : List Bytes)
      → Returns visit n stack
      → (hs : List Bytes) (v : Visit) → unseen g.nodes v.seen < n
      → ((h : Bytes) → h ∈ hs → Enters g stack h)
      → Inv g stack v
      → (v' : Visit) × (visit_all visit hs v ≡ some v') × Done g stack hs v v'
  unfolding visit_all
  visit_all-Done visit n stack ret [] v few enters i =
      (v, refl, record { grows = λ x m. m; visited = λ c m. absurd (not-mem-nil c m); inv = i })
  visit_all-Done visit n stack ret (h ∷ hs) v few enters i =
      let (w, e, r) = ret h v few (enters h (mem-self h hs)) i in
      let (u, e', r') =
        visit_all-Done visit n stack ret hs w
          (omega (arith, unseen-le g.nodes v.seen w.seen r.grows))
          (λ x m. enters x ((mem-cons x h hs).1 (inr m))) r.inv in
      (
        u,
        rw (visit_all, e) e',
        record {
          grows = λ x m. r'.grows x (r.grows x m);
          visited = λ c m f. elim ((mem-cons c h hs).0 m) [
            | inl q ↦ r'.grows c (r.visited c ((mem-cons c h []).1 (inl q)) f)
            | inr q ↦ r'.visited c q f
          ];
          inv = r'.inv;
        },
      )

  fewer :
      (h : Bytes) (v : Visit) (d : Derivation)
      → find g h ≡ some d
      → any_same h v.seen ≡ false
      → unseen g.nodes (h ∷ v.seen) < unseen g.nodes v.seen
  unfolding find
  fewer h v d found new = unseen_cons g.nodes h v.seen d found new

  visit_node-Done :
      (visit : Bytes → Visit → Option Visit) (n : ℕ)
      → ((stack : List Bytes) → Returns visit n stack)
      → (stack : List Bytes) (h : Bytes) (v : Visit) → unseen g.nodes v.seen < suc n
      → Enters g stack h
      → any_same h v.seen ≡ false
      → Inv g stack v
      → (v' : Visit) × (visit_node g visit h (record v { seen = h ∷ v.seen }) ≡ some v')
        × Done g stack (h ∷ []) v v'
  unfolding visit_node
  visit_node-Done visit n ret stack h v few enters new i = elim (Option-cases (find g h)) [
    | inl missing ↦ (
      record v { seen = h ∷ v.seen },
      rw (visit_node, missing),
      record {
        grows = grown;
        visited = λ c m f. only c _ m (mem-self h v.seen);
        inv = missing-Inv g stack h v enters missing i;
      },
    )
    | inr (d, found) ↦
        let (w, e, r) =
          visit_all-Done visit n (h ∷ stack) (ret (h ∷ stack)) (children d)
            (record v { seen = h ∷ v.seen }) (omega (arith, fewer h v d found new)) (into d found)
            (start-Inv g stack h v enters new i) in
        (
          record w { order = w.order ++ h ∷ [] },
          rw (visit_node, found, e),
          record {
            grows = λ x m. r.grows x (grown x m);
            visited = λ c m f. only c _ m (r.grows h (mem-self h v.seen));
            inv = end-Inv g stack h d w enters other found r.visited r.inv;
          },
        )
  ]
    where
      grown : Grows v.seen (h ∷ v.seen)
      grown x m = (mem-cons x h v.seen).1 (inr m)

      only : (c : Bytes) (xs : List Bytes) → c ∈ h ∷ [] → h ∈ xs → c ∈ xs
      only c xs m k = elim ((mem-cons c h []).0 m) [
        | inl e ↦ rw (sym e) k
        | inr nowhere ↦ absurd (not-mem-nil c nowhere)
      ]

      other : ¬ (h ∈ stack)
      other m = cc (i.waiting h m)

      into :
          (d : Derivation)
          → find g h ≡ some d
          → (c : Bytes) → c ∈ children d
          → Enters g (h ∷ stack) c
      into d found c m = (
        child c enters.0 (d, found, m),
        λ x k. elim ((mem-cons x h stack).0 k) [
          | inl e ↦ child c (here (sym e)) (d, found, m)
          | inr q ↦ child c (enters.1 x q) (d, found, m)
        ],
      )

  -- Fuel above the count of the derivations that are not seen is enough for a call.
  pub dfs-Done :
      (n : ℕ) (stack : List Bytes) (h : Bytes) (v : Visit)
      → unseen g.nodes v.seen < n
      → Enters g stack h
      → Inv g stack v
      → (v' : Visit) × (dfs g n h v ≡ some v') × Done g stack (h ∷ []) v v'
  unfolding dfs
  dfs-Done zero stack h v few enters i = absurd (omega arith)
  dfs-Done (suc n) stack h v few enters i = elim (Bool-cases (is_empty h || any_same h v.seen)) [
    | inl skip ↦ (
      v,
      rw skip,
      record {
        grows = λ x m. m;
        visited = λ c m f. elim ((mem-cons c h []).0 m) [
          | inl e ↦ rw (sym e) (skipped skip (rw (sym e) at f))
          | inr nowhere ↦ absurd (not-mem-nil c nowhere)
        ];
        inv = i;
      },
    )
    | inr go ↦
        let new : any_same h v.seen ≡ false = ground arith in
        rw go (visit_node-Done (dfs g n) n (λ s h v. dfs-Done n s h v) stack h v few enters new i)
  ]
    where
      skipped :
          (is_empty h || any_same h v.seen) ≡ true → is_empty h ≡ false → any_same h v.seen ≡ true
      skipped e f = ground arith
