-- ===== src/Adapter/Invariant.antt =====
-- The relations of a graph, and what holds of the two variables of `dfs` between its calls.
use kuli.Common.{
  false, List, [], ◌∷◌, ◌++◌, none, some, ◌≡◌, ◌⊎◌, inl, inr, sym, ap, Bytes, any_same, is_empty,
}
use kuli.Graph.{DerivationGraph, Derivation, find}
use kuli.Adapter.{Visit, children}
use kuli.Adapter.Members.{
  ◌∈◌, mem-cons, mem-append, mem-self, not-mem-nil, Once, Once-append, Grows,
}

module _ (g : DerivationGraph) where
  abbrev pub IsChild : Bytes → Bytes → Type 0
  IsChild c x = (d : Derivation) × (find g x ≡ some d) × (c ∈ children d)

  -- The dependencies lead from `a` to `b`, in any number of steps.
  pub data Leads (a : Bytes) : Bytes → Type 0 where
    here : {b : Bytes} → a ≡ b → Leads a b
    child : {b : Bytes} (c : Bytes) → Leads a b → IsChild c b → Leads a c

  abbrev pub IsNode : Bytes → Type 0
  IsNode x = (d : Derivation) × (find g x ≡ some d)

  -- Behind the hashes of `before`, each hash of the list is preceded by the derivations that it
  -- depends on, but for those that depend on it in their turn.
  abbrev pub Sorted : List Bytes → List Bytes → Type 0
  Sorted before [] = Unit
  Sorted before (x ∷ xs) =
      ((c : Bytes) → IsChild c x → is_empty c ≡ false → IsNode c → (c ∈ before) ⊎ Leads c x)
      × Sorted (x ∷ before) xs

  Sorted-append :
      (before xs : List Bytes) (x : Bytes)
      → Sorted before xs
      → ((c : Bytes)
          → IsChild c x
          → is_empty c ≡ false
          → IsNode c
          → (c ∈ before) ⊎ ((c ∈ xs) ⊎ Leads c x))
      → Sorted before (xs ++ x ∷ [])
  Sorted-append before [] x s new = (
    λ c i e k. elim (new c i e k) [
      | inl m ↦ inl m
      | inr (inl m) ↦ absurd (not-mem-nil c m)
      | inr (inr l) ↦ inr l
    ],
    tt,
  )
  Sorted-append before (y ∷ xs) x s new = (
    s.0,
    Sorted-append (y ∷ before) xs x s.1 λ c i e k. elim (new c i e k) [
      | inl m ↦ inl ((mem-cons c y before).1 (inr m))
      | inr (inr l) ↦ inr (inr l)
      | inr (inl m) ↦ elim ((mem-cons c y xs).0 m) [
        | inl q ↦ inl ((mem-cons c y before).1 (inl q))
        | inr q ↦ inr (inl q)
      ]
    ],
  )

  -- `stack` holds the hashes whose calls are under way.
  pub record Inv (stack : List Bytes) (v : Visit) : Type 0 where
    pub reached : (x : Bytes) → x ∈ v.seen → Leads g.root x
    pub waiting : (x : Bytes) → x ∈ stack → x ∈ v.seen
    pub done : (x : Bytes) → x ∈ v.seen → IsNode x → (x ∈ v.order) ⊎ (x ∈ stack)
    pub nodes : (x : Bytes) → x ∈ v.order → (x ∈ v.seen) × IsNode x
    pub closed : (x c : Bytes) → x ∈ v.order → IsChild c x → is_empty c ≡ false → c ∈ v.seen
    pub apart : (x : Bytes) → x ∈ stack → ¬ (x ∈ v.order)
    pub once : Once v.order
    pub sorted : Sorted [] v.order

  -- A call, or a loop of calls, on the hashes `hs`.
  pub record Done (stack hs : List Bytes) (v v' : Visit) : Type 0 where
    pub grows : Grows v.seen v'.seen
    pub visited : (c : Bytes) → c ∈ hs → is_empty c ≡ false → c ∈ v'.seen
    pub inv : Inv stack v'

  abbrev pub Enters : List Bytes → Bytes → Type 0
  Enters stack h = Leads g.root h × ((x : Bytes) → x ∈ stack → Leads x h)

  -- The call starts: `h` joins the set, and is under way.
  pub start-Inv :
      (stack : List Bytes) (h : Bytes) (v : Visit)
      → Enters stack h
      → any_same h v.seen ≡ false
      → Inv stack v
      → Inv (h ∷ stack) (record v { seen = h ∷ v.seen })
  start-Inv stack h v enters fresh i = record {
    reached = λ x m. elim ((mem-cons x h v.seen).0 m) [
      | inl e ↦ rw (sym e) enters.0
      | inr q ↦ i.reached x q
    ];
    waiting = λ x m.
        (mem-cons x h v.seen).1
          (elim ((mem-cons x h stack).0 m) [ inl e ↦ inl e | inr q ↦ inr (i.waiting x q) ]);
    done = λ x m k. elim ((mem-cons x h v.seen).0 m) [
      | inl e ↦ inr ((mem-cons x h stack).1 (inl e))
      | inr q ↦ elim (i.done x q k) [ inl o ↦ inl o | inr s ↦ inr ((mem-cons x h stack).1 (inr s)) ]
    ];
    nodes = λ x m. let (s, k) = i.nodes x m in ((mem-cons x h v.seen).1 (inr s), k);
    closed = λ x c m k f. (mem-cons c h v.seen).1 (inr (i.closed x c m k f));
    apart = λ x m o. elim ((mem-cons x h stack).0 m) [
      | inl e ↦ cc ((i.nodes x o).0)
      | inr s ↦ i.apart x s o
    ];
    once = i.once;
    sorted = i.sorted;
  }

  -- The call ends, with its dependencies visited: `h` joins the order.
  pub end-Inv :
      (stack : List Bytes) (h : Bytes) (d : Derivation) (v : Visit)
      → Enters stack h
      → ¬ (h ∈ stack)
      → find g h ≡ some d
      → ((c : Bytes) → c ∈ children d → is_empty c ≡ false → c ∈ v.seen)
      → Inv (h ∷ stack) v
      → Inv stack (record v { order = v.order ++ h ∷ [] })
  end-Inv stack h d v enters other found visited i = record {
    reached = i.reached;
    waiting = λ x m. i.waiting x ((mem-cons x h stack).1 (inr m));
    done = λ x m k. elim (i.done x m k) [
      | inl o ↦ inl (old x o)
      | inr s ↦ elim ((mem-cons x h stack).0 s) [
        | inl e ↦ inl ((mem-append x v.order (h ∷ [])).1 (inr ((mem-cons x h []).1 (inl e))))
        | inr q ↦ inr q
      ]
    ];
    nodes = λ x m. elim (pushed x m) [
      | inl o ↦ i.nodes x o
      | inr e ↦ (rw (sym e) seen, (d, rw (sym e) found))
    ];
    closed = λ x c m k f. elim (pushed x m) [
      | inl o ↦ i.closed x c o k f
      | inr e ↦ below c (rw (sym e) at k) f
    ];
    apart = λ x m o. elim (pushed x o) [
      | inl q ↦ i.apart x ((mem-cons x h stack).1 (inr m)) q
      | inr e ↦ other (rw e m)
    ];
    once = Once-append v.order h i.once (i.apart h (mem-self h stack));
    sorted = Sorted-append [] v.order h i.sorted λ c k f n. elim (i.done c (below c k f) n) [
      | inl o ↦ inr (inl o)
      | inr s ↦ elim ((mem-cons c h stack).0 s) [
        | inl e ↦ inr (inr (here (sym e)))
        | inr q ↦ inr (inr (enters.1 c q))
      ]
    ];
  }
    where
      seen : h ∈ v.seen
      seen = i.waiting h (mem-self h stack)

      old : (x : Bytes) → x ∈ v.order → x ∈ v.order ++ h ∷ []
      old x o = (mem-append x v.order (h ∷ [])).1 (inl o)

      pushed : (x : Bytes) → x ∈ v.order ++ h ∷ [] → (x ∈ v.order) ⊎ (h ≡ x)
      pushed x m = elim ((mem-append x v.order (h ∷ [])).0 m) [
        | inl o ↦ inl o
        | inr q ↦ elim ((mem-cons x h []).0 q) [ inl e ↦ inr e | inr n ↦ absurd (not-mem-nil x n) ]
      ]

      below : (c : Bytes) → IsChild c h → is_empty c ≡ false → c ∈ v.seen
      below c (d', found', m) f = visited c (let e : d' ≡ d = cc in rw (sym e) m) f

  -- A hash without a derivation only joins the set.
  pub missing-Inv :
      (stack : List Bytes) (h : Bytes) (v : Visit)
      → Enters stack h
      → find g h ≡ none
      → Inv stack v
      → Inv stack (record v { seen = h ∷ v.seen })
  missing-Inv stack h v enters missing i = record {
    reached = λ x m. elim ((mem-cons x h v.seen).0 m) [
      | inl e ↦ rw (sym e) enters.0
      | inr q ↦ i.reached x q
    ];
    waiting = λ x m. grown x (i.waiting x m);
    done = λ x m k. elim ((mem-cons x h v.seen).0 m) [
      | inl e ↦ absurd (cc (k.1, missing, ap (find g) e))
      | inr q ↦ i.done x q k
    ];
    nodes = λ x m. let (s, k) = i.nodes x m in (grown x s, k);
    closed = λ x c m k f. grown c (i.closed x c m k f);
    apart = i.apart;
    once = i.once;
    sorted = i.sorted;
  }
    where
      grown : Grows v.seen (h ∷ v.seen)
      grown x m = (mem-cons x h v.seen).1 (inr m)
