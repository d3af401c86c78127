-- ===== src/Resolver/Select.antt =====
-- Which asset `select_asset` chooses.
use kuli.Common.{
  Bool, true, false, List, [], ◌∷◌, ◌++◌, Option, none, some, ◌≡◌, refl, sym, ap, subst, inl, inr,
  if◌then◌else◌, Bytes, All, Bool-cases, arith, append_assoc, append-nil, false≢true, ◌∙◌,
}
use kuli.Resolver.{
  Score, higher, score_for_target, Asset, eligible, pick, select_from, select_asset,
}

higher_trans : (a b c : Score) → higher a b ≡ true → higher b c ≡ true → higher a c ≡ true
unfolding higher
higher_trans a b c h g = ground arith

higher_trans_le : (a b c : Score) → higher a b ≡ true → higher c b ≡ false → higher a c ≡ true
unfolding higher
higher_trans_le a b c h g = ground arith

All-snoc {ℓ} :
    {A : Type ℓ} (P : A → Type 0) (xs : List A) (x : A) → All P xs → P x → All P (xs ++ x ∷ [])
All-snoc P [] x h p = (p, tt)
All-snoc P (y ∷ xs) x h p = (h.0, All-snoc P xs x h.1 p)

All-weaken {ℓ} :
    {A : Type ℓ} {P Q : A → Type 0} (xs : List A) → ((a : A) → P a → Q a) → All P xs → All Q xs
All-weaken [] f h = tt
All-weaken (x ∷ xs) f h = (f x h.0, All-weaken xs f h.1)

All-concat {ℓ} :
    {A : Type ℓ} (P : A → Type 0) (xs ys : List A) → All P xs → All P ys → All P (xs ++ ys)
All-concat P [] ys h g = g
All-concat P (x ∷ xs) ys h g = (h.0, All-concat P xs ys h.1 g)

module _ (pattern_matches : Bytes → Bytes → Bool) (pattern target : Bytes) where
  abbrev Eligible : Asset → Type 0
  Eligible a = eligible pattern_matches pattern a ≡ true

  abbrev score : Asset → Score
  score a = score_for_target a.name target

  -- The first of the eligible assets with the highest score.
  pub record IsBest (assets : List Asset) (a : Asset) : Type 0 where
    pub before : List Asset
    pub after : List Asset
    pub position : assets ≡ before ++ a ∷ after
    pub is_eligible : Eligible a
    pub beats_before : All (λ b. Eligible b → higher (score a) (score b) ≡ true) before
    pub holds_after : All (λ b. Eligible b → higher (score b) (score a) ≡ false) after

  abbrev pub Selected : List Asset → Option Asset → Type 0
  Selected assets none = All (λ b. eligible pattern_matches pattern b ≡ false) assets
  Selected assets (some a) = IsBest assets a

  keep :
      (seen : List Asset) (b a : Asset)
      → (Eligible a → higher (score a) (score b) ≡ false)
      → IsBest seen b
      → IsBest (seen ++ a ∷ []) b
  keep seen b a h v = record {
    before = v.before;
    after = v.after ++ a ∷ [];
    position = ap (λ s. s ++ a ∷ []) v.position ∙ append_assoc v.before (b ∷ v.after) (a ∷ []);
    is_eligible = v.is_eligible;
    beats_before = v.beats_before;
    holds_after = All-snoc _ v.after a v.holds_after h;
  }

  replace :
      (seen : List Asset) (b a : Asset)
      → Eligible a
      → higher (score a) (score b) ≡ true
      → IsBest seen b
      → IsBest (seen ++ a ∷ []) a
  replace seen b a e h v = record {
    before = seen;
    after = [];
    position = refl;
    is_eligible = e;
    beats_before =
        subst (All (λ c. Eligible c → higher (score a) (score c) ≡ true)) (sym v.position) (
          All-concat _ v.before (b ∷ v.after)
            (All-weaken v.before (λ c f g. higher_trans (score a) (score b) (score c) h (f g))
              v.beats_before)
            (
              (λ g. h),
              All-weaken v.after (λ c f g. higher_trans_le (score a) (score b) (score c) h (f g))
                  v.holds_after,
            ));
    holds_after = tt;
  }

  start :
      (seen : List Asset) (a : Asset) → Eligible a → Selected seen none → IsBest (seen ++ a ∷ []) a
  start seen a e h = record {
    before = seen;
    after = [];
    position = refl;
    is_eligible = e;
    beats_before = All-weaken seen (λ b f g. absurd (false≢true (sym f ∙ g))) h;
    holds_after = tt;
  }

  step :
      (seen : List Asset) (best : Option Asset) (a : Asset)
      → Selected seen best
      → Selected
          (seen ++ a ∷ [])
          (if eligible pattern_matches pattern a then pick pattern_matches target best a else best)
  unfolding pick
  step seen none a h = elim (Bool-cases (eligible pattern_matches pattern a)) [
    | inl e ↦ rw e (start seen a e h)
    | inr e ↦ rw e (All-snoc _ seen a h e)
  ]
  step seen (some b) a h = elim (Bool-cases (eligible pattern_matches pattern a)) [
    | inr e ↦ rw e (keep seen b a (λ g. absurd (false≢true (sym e ∙ g))) h)
    | inl e ↦ elim (Bool-cases (higher (score a) (score b))) [
      | inl s ↦ rw (e, s) (replace seen b a e s h)
      | inr s ↦ rw (e, s) (keep seen b a (λ g. s) h)
    ]
  ]

  from_Selected :
      (seen assets : List Asset) (best : Option Asset)
      → Selected seen best
      → Selected (seen ++ assets) (select_from pattern_matches best assets pattern target)
  unfolding select_from
  from_Selected seen [] best h = rw (append-nil seen) h
  from_Selected seen (a ∷ rest) best h =
      subst
        (λ s. Selected s (
          select_from pattern_matches
            (if eligible pattern_matches pattern a
              then pick pattern_matches target best a
              else best)
            rest pattern target))
        (append_assoc seen (a ∷ []) rest)
        (from_Selected (seen ++ a ∷ []) rest _ (step seen best a h))

  -- `select_asset` gives the first of the assets with the highest score among those that are no sidecar
  -- and match the pattern, and nothing exactly where there is none of those.
  pub select_asset-Selected :
      (assets : List Asset) → Selected assets (select_asset pattern_matches assets pattern target)
  unfolding select_asset
  select_asset-Selected assets = from_Selected [] assets none tt
