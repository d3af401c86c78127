-- ===== src/Source/Reference.antt =====
-- What an accepted GitHub reference is.
use kuli.Common.{
  Bool, true, false, ◌||◌, [], ◌∷◌, Option, none, some, ◌≡◌, refl, subst, inl, inr, if◌then◌else◌,
  Bytes, codes, is_empty, cut, has_byte, cut-eq-some, Option-cases, drop, starts_with, arith,
}
use kuli.Source.{GhRef, first_piece, owner_repo, strip_git, is_shorthand, parse_github}

-- Names that fit between the slashes of an address.
pub record IsReference (g : GhRef) : Type 0 where
  pub owner_ne : is_empty g.owner ≡ false
  pub repo_ne : is_empty g.repo ≡ false
  pub owner_plain : has_byte b'/' g.owner ≡ false
  pub repo_plain : has_byte b'/' g.repo ≡ false

uncut : (s : Bytes) → cut b'/' s ≡ none → has_byte b'/' s ≡ false
unfolding has_byte cut
uncut [] e = refl
uncut (c ∷ s) e = elim (Option-cases (cut b'/' s)) [
  | inl g ↦ ground (arith, uncut s g)
  | inr (p, g) ↦ ground arith
]

first_piece-plain : (s : Bytes) → has_byte b'/' (first_piece s) ≡ false
unfolding first_piece
first_piece-plain s = elim (Option-cases (cut b'/' s)) [
  | inl e ↦ rw (first_piece, e) (uncut s e)
  | inr ((a, b), e) ↦ rw (first_piece, e) (cut-eq-some b'/' s e).1
]

if_none :
    (b : Bool) (x : GhRef) {g : GhRef}
    → (if b then none else some x) ≡ some g
    → (b ≡ false) × (x ≡ g)
if_none true x h = absurd (cc h)
if_none false x h = (refl, cc h)

owner_repo-IsReference : (rest : Bytes) {g : GhRef} → owner_repo rest ≡ some g → IsReference g
unfolding owner_repo
owner_repo-IsReference rest {g} h = by_cut (cut b'/' rest) refl h
  where
    by_cut :
        (o : Option (Bytes × Bytes))
        → cut b'/' rest ≡ o
        → (elim o as (λ _. Option GhRef) [
          | none ↦ none
          | some (owner, more) ↦
              if is_empty owner || is_empty (first_piece more)
              then none
              else some (record { owner = owner; repo = first_piece more })
        ])
          ≡ some g
        → IsReference g
    by_cut none e h = absurd (cc h)
    by_cut (some (owner, more)) e h =
        let (t, q) = if_none (is_empty owner || is_empty (first_piece more)) _ h in
        subst IsReference q (record {
          owner_ne = ground arith;
          repo_ne = ground arith;
          owner_plain = (cut-eq-some b'/' rest e).1;
          repo_plain = first_piece-plain more;
        })

-- The owner and the repository of an accepted GitHub reference, in whichever of the three forms it is
-- written, are not empty and hold no slash, so they are single segments of the addresses made of them.
pub parse_github-IsReference :
    (exists : Bytes → Bool) (u : Bytes) {g : GhRef} → parse_github exists u ≡ some g → IsReference g
unfolding parse_github
parse_github-IsReference exists u {g} h =
    by_form (starts_with (codes "github:") u) (starts_with (codes "https://github.com/") u)
      (is_shorthand exists u) h
  where
    by_form :
        (a b c : Bool)
        → (if a
            then owner_repo (strip_git (drop 7 u))
            else if b
            then owner_repo (strip_git (drop 19 u))
            else if c
            then owner_repo (strip_git u)
            else none)
          ≡ some g
        → IsReference g
    by_form true b c h = owner_repo-IsReference (strip_git (drop 7 u)) h
    by_form false true c h = owner_repo-IsReference (strip_git (drop 19 u)) h
    by_form false false true h = owner_repo-IsReference (strip_git u) h
    by_form false false false h = absurd (cc h)
