-- ===== src/Generation/Switch.antt =====
-- What `activate` does to the profile.
use kuli.Common.{
  ℕ, Bool, true, false, some, ◌≡◌, refl, inl, inr, if◌then◌else◌, ◌↔◌, subst, Bytes, Bool-cases,
  Option-cases,
}
use kuli.Generation.{Files, Host}
use kuli.Generation.Profile.{Profile, Manifest, load, set_current, activate, project, cleared}

-- Either the pointer has moved to the target, or the profile is as it was.
abbrev pub Switched : Profile → ℕ → Profile × Bool → Type 0
Switched p id (q, true) =
    (q ≡ record p { current_id = id }) × ((g : Manifest) × (load p id ≡ some g))
Switched p id (q, false) = q ≡ p

set_current-Switched :
    (writable : Bool) (p : Profile) (id : ℕ) → Switched p id (set_current writable p id)
unfolding set_current
set_current-Switched writable p id = elim (Option-cases (load p id)) [
  | inl e ↦ rw (set_current, e) refl
  | inr (g, e) ↦ elim (Bool-cases writable) [
    | inl w ↦ rw (set_current, e, w) (refl, (g, e))
    | inr w ↦ rw (set_current, e, w) refl
  ]
]

by_good :
    (good writable : Bool) (p : Profile) (id : ℕ)
    → Switched p id (if good then set_current writable p id else (p, false))
by_good true writable p id = set_current-Switched writable p id
by_good false writable p id = refl

-- `activate` answers true exactly where it has moved the pointer to a generation that exists; where it
-- answers false, whatever failed, the profile is as it was. It never changes a manifest.
pub activate-Switched :
    (host : Host) (writable : Bool) (p : Profile) (w : Files) (id : ℕ) (bin_dir store_root : Bytes)
    → Switched p id (activate host writable p w id bin_dir store_root).1
unfolding activate
activate-Switched host writable p w id bin_dir store_root = elim (Option-cases (load p id)) [
  | inl e ↦ rw (activate, e) refl
  | inr (g, e) ↦
      rw (activate, e)
        (by_good
          (project host bin_dir store_root g.derivations (cleared host bin_dir p g w, true)).1
          writable p id)
]

set_current_iff :
    (writable : Bool) (p : Profile) (id : ℕ)
    → ((set_current writable p id).1 ≡ true)
      ↔ (((g : Manifest) × (load p id ≡ some g)) × (writable ≡ true))
unfolding set_current
set_current_iff writable p id = elim (Option-cases (load p id)) [
  | inl e ↦ rw (set_current, e) ((λ f. absurd (cc f)), (λ h. absurd (cc (h.0.1))))
  | inr (g, e) ↦ elim (Bool-cases writable) [
    | inl w ↦ rw (set_current, e, w) ((λ f. ((g, refl), refl)), (λ h. refl))
    | inr w ↦ rw (set_current, e, w) ((λ f. absurd (cc f)), (λ h. absurd (cc (h.1))))
  ]
]

by_good_iff :
    (good writable : Bool) (p : Profile) (id : ℕ) {g : Manifest}
    → load p id ≡ some g
    → ((if good then set_current writable p id else (p, false)).1 ≡ true)
      ↔ ((good ≡ true) × (writable ≡ true))
by_good_iff true writable p id {g = g} e = (
  (λ f. (refl, ((set_current_iff writable p id).0 f).1)),
  (λ h. (set_current_iff writable p id).1 ((g, e), h.1)),
)
by_good_iff false writable p id e = ((λ f. absurd (cc f)), (λ h. absurd (cc (h.0))))

-- The target, all of whose files are written, and the pointer can be.
abbrev pub Activates : Host → Bool → Profile → Files → ℕ → Bytes → Bytes → Manifest → Type 0
Activates host writable p w id bin_dir store_root g =
    (load p id ≡ some g)
    × ((project host bin_dir store_root g.derivations (cleared host bin_dir p g w, true)).1 ≡ true)
    × (writable ≡ true)

pub activate_iff :
    (host : Host) (writable : Bool) (p : Profile) (w : Files) (id : ℕ) (bin_dir store_root : Bytes)
    → ((activate host writable p w id bin_dir store_root).1.1 ≡ true)
      ↔ ((g : Manifest) × Activates host writable p w id bin_dir store_root g)
unfolding activate
activate_iff host writable p w id bin_dir store_root = elim (Option-cases (load p id)) [
  | inl e ↦ rw (activate, e) ((λ f. absurd (cc f)), (λ h. absurd (cc (h.1.0))))
  | inr (g, e) ↦
      let b =
        by_good_iff
          (project host bin_dir store_root g.derivations (cleared host bin_dir p g w, true)).1
          writable p id e in
      rw (activate, e)
        (
          (λ f. (g, (refl, (b.0 f).0, (b.0 f).1))),
          (λ h.
              let q : h.0 ≡ g = cc (h.1.0) in
              b.1 (
                subst
                    (λ x.
                      (project host bin_dir store_root x.derivations
                        (cleared host bin_dir p x w, true)).1
                      ≡ true)
                    q h.1.1,
                h.1.2,
              )),
        )
]
