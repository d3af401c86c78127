-- ===== src/Capability/Constraint.antt =====
-- A constraint is split where it was put together.
use kuli.Common.{
  ℕ, false, List, [], ◌∷◌, ◌++◌, Option, none, some, ◌==◌, ◌≡◌, refl, ◌∙◌, inl, inr, Bytes, codes,
  has_byte, starts_with, is_empty, ==_refl, append-nil, Option-cases, arith,
}
use kuli.Capability.{cut_at, split_on, split_constraint}

pub data Operator : Type 0 where
  ge le gt lt eq : Operator

abbrev pub symbol : Operator → Bytes
symbol ge = b'>' ∷ b'=' ∷ []
symbol le = b'<' ∷ b'=' ∷ []
symbol gt = b'>' ∷ []
symbol lt = b'<' ∷ []
symbol eq = b'=' ∷ []

-- The text has none of the bytes of the operators.
pub record IsPlain (s : Bytes) : Type 0 where
  pub no_lt : has_byte b'<' s ≡ false
  pub no_gt : has_byte b'>' s ≡ false
  pub no_eq : has_byte b'=' s ≡ false

cut_at-none : (x : ℕ) (o s : Bytes) → has_byte x s ≡ false → cut_at (x ∷ o) s ≡ none
unfolding cut_at has_byte starts_with
cut_at-none x o [] h = refl
cut_at-none x o (c ∷ s) h = ground (arith, cut_at-none x o s)

abbrev behind : Bytes → Option (Bytes × Bytes) → Option (Bytes × Bytes)
behind key none = none
behind key (some (a, b)) = some (key ++ a, b)

cut_at-append :
    (x : ℕ) (o key rest : Bytes)
    → has_byte x key ≡ false
    → cut_at (x ∷ o) (key ++ rest) ≡ behind key (cut_at (x ∷ o) rest)
unfolding cut_at has_byte starts_with
cut_at-append x o [] rest h = elim (Option-cases (cut_at (x ∷ o) rest)) [
  | inl e ↦ rw e refl
  | inr (p, e) ↦ rw e refl
]
cut_at-append x o (c ∷ key) rest h =
    let f : (x == c) ≡ false = ground arith in
    let ih : cut_at (x ∷ o) (key ++ rest) ≡ _ = cut_at-append x o key rest (ground arith) in
    rw (f, ih)
      (elim (Option-cases (cut_at (x ∷ o) rest)) [ inl e ↦ rw e refl | inr (p, e) ↦ rw e refl ])

not_eq : (s : Bytes) → has_byte b'=' s ≡ false → starts_with (b'=' ∷ []) s ≡ false
unfolding has_byte starts_with
not_eq [] h = refl
not_eq (c ∷ s) h = ground arith

-- The operator stands behind the key, or it does not.
miss :
    (x : ℕ) (o key rest : Bytes)
    → has_byte x key ≡ false
    → cut_at (x ∷ o) rest ≡ none
    → cut_at (x ∷ o) (key ++ rest) ≡ none
miss x o key rest h e = cut_at-append x o key rest h ∙ rw e refl

found :
    (x : ℕ) (o key rest val : Bytes)
    → has_byte x key ≡ false
    → cut_at (x ∷ o) rest ≡ some ([], val)
    → cut_at (x ∷ o) (key ++ rest) ≡ some (key, val)
found x o key rest val h e = cut_at-append x o key rest h ∙ rw (e, append-nil key) refl

pass_on :
    (o : Bytes) (os : List Bytes) (c : Bytes)
    → cut_at o c ≡ none
    → split_on (o ∷ os) c ≡ split_on os c
unfolding split_on
pass_on o os c e = rw (split_on, e) refl

stop_at :
    (o : Bytes) (os : List Bytes) (c key val : Bytes)
    → cut_at o c ≡ some (key, val)
    → is_empty key ≡ false
    → split_on (o ∷ os) c ≡ some (key, (o, val))
unfolding split_on
stop_at o os c key val e n = rw (split_on, e, n) refl

-- `>` alone is not `>=`, and `<` alone is not `<=`.
half :
    (x : ℕ) (val : Bytes)
    → (x == b'=') ≡ false
    → has_byte x val ≡ false
    → has_byte b'=' val ≡ false
    → cut_at (x ∷ b'=' ∷ []) (x ∷ val) ≡ none
unfolding cut_at starts_with
half x val n h g =
    let a : starts_with (b'=' ∷ []) val ≡ false = not_eq val g in
    let b : cut_at (x ∷ b'=' ∷ []) val ≡ none = cut_at-none x (b'=' ∷ []) val h in
    rw (==_refl x) (rw (a, b) refl)

-- A key that is not empty, an operator and a value, neither text with a byte of an operator, are what
-- `split_constraint` makes of the three in a row.
pub split_constraint-roundtrip :
    (key val : Bytes) (o : Operator)
    → is_empty key ≡ false
    → IsPlain key
    → IsPlain val
    → split_constraint (key ++ (symbol o ++ val)) ≡ some (key, (symbol o, val))
unfolding split_constraint codes cut_at starts_with has_byte
split_constraint-roundtrip key val ge n k v =
    stop_at _ _ _ key val (found b'>' (b'=' ∷ []) key (symbol ge ++ val) val k.no_gt refl) n
split_constraint-roundtrip key val le n k v =
    pass_on _ _ _ (
      miss b'>' (b'=' ∷ []) key (symbol le ++ val) k.no_gt
        (cut_at-none b'>' (b'=' ∷ []) (symbol le ++ val) v.no_gt))
    ∙ stop_at _ _ _ key val (found b'<' (b'=' ∷ []) key (symbol le ++ val) val k.no_lt refl) n
split_constraint-roundtrip key val gt n k v =
    pass_on _ _ _
      (miss b'>' (b'=' ∷ []) key (symbol gt ++ val) k.no_gt (half b'>' val refl v.no_gt v.no_eq))
    ∙ pass_on _ _ _ (
        miss b'<' (b'=' ∷ []) key (symbol gt ++ val) k.no_lt
          (cut_at-none b'<' (b'=' ∷ []) (symbol gt ++ val) v.no_lt))
    ∙ stop_at _ _ _ key val (found b'>' [] key (symbol gt ++ val) val k.no_gt refl) n
split_constraint-roundtrip key val lt n k v =
    pass_on _ _ _ (
      miss b'>' (b'=' ∷ []) key (symbol lt ++ val) k.no_gt
        (cut_at-none b'>' (b'=' ∷ []) (symbol lt ++ val) v.no_gt))
    ∙ pass_on _ _ _
        (miss b'<' (b'=' ∷ []) key (symbol lt ++ val) k.no_lt (half b'<' val refl v.no_lt v.no_eq))
    ∙ pass_on _ _ _ (
        miss b'>' [] key (symbol lt ++ val) k.no_gt
          (cut_at-none b'>' [] (symbol lt ++ val) v.no_gt))
    ∙ stop_at _ _ _ key val (found b'<' [] key (symbol lt ++ val) val k.no_lt refl) n
split_constraint-roundtrip key val eq n k v =
    pass_on _ _ _ (
      miss b'>' (b'=' ∷ []) key (symbol eq ++ val) k.no_gt
        (cut_at-none b'>' (b'=' ∷ []) (symbol eq ++ val) v.no_gt))
    ∙ pass_on _ _ _ (
        miss b'<' (b'=' ∷ []) key (symbol eq ++ val) k.no_lt
          (cut_at-none b'<' (b'=' ∷ []) (symbol eq ++ val) v.no_lt))
    ∙ pass_on _ _ _ (
        miss b'>' [] key (symbol eq ++ val) k.no_gt
          (cut_at-none b'>' [] (symbol eq ++ val) v.no_gt))
    ∙ pass_on _ _ _ (
        miss b'<' [] key (symbol eq ++ val) k.no_lt
          (cut_at-none b'<' [] (symbol eq ++ val) v.no_lt))
    ∙ stop_at _ _ _ key val (found b'=' [] key (symbol eq ++ val) val k.no_eq refl) n
