-- ===== src/Generation/Restore.antt =====
-- What a deployed file and its backup become when the file is removed again.
use kuli.Common.{
  ◌+◌, true, false, Option, none, some, ◌≡◌, ◌≢◌, refl, sym, ap, ◌∙◌, inl, inr, Bytes, codes, same,
  same_iff, same_refl, length, length-append, arith, Bool-cases, Option-cases,
}
use kuli.Archive.Paths.{same-eq-false}
use kuli.Generation.{Files, put, exists, Host, backup, back_up, deploy_file, remove_deployed}

backup-ne : (t : Bytes) → backup t ≢ t
unfolding codes
backup-ne t e =
    let n : length (backup t) ≡ length t = ap length e in
    let m : length (backup t) ≡ length t + 9 = length-append t (codes ".kuli-bak") in
    absurd (omega arith)

backup-same : (t : Bytes) → same (backup t) t ≡ false
backup-same t = same-eq-false (backup t) t (backup-ne t)

put-same : (w : Files) (t : Bytes) (c : Option Bytes) → put w t c t ≡ c
put-same w t c = rw (same_refl t) refl

put-other : (w : Files) (t p : Bytes) (c : Option Bytes) → same p t ≡ false → put w t c p ≡ w p
put-other w t p c h = rw h refl

put-backup : (w : Files) (t : Bytes) (c : Option Bytes) → put w t c (backup t) ≡ w (backup t)
put-backup w t c = put-other w t (backup t) c (backup-same t)

exists-some : (w : Files) (p : Bytes) {o : Bytes} → w p ≡ some o → exists w p ≡ true
unfolding exists
exists-some w p h = rw (exists, h) refl

exists-none : (w : Files) (p : Bytes) → w p ≡ none → exists w p ≡ false
unfolding exists
exists-none w p h = rw (exists, h) refl

-- Removing a file whose backup exists puts the backup's content in its place.
restored :
    (w : Files) (t o p : Bytes)
    → w (backup t) ≡ some o
    → remove_deployed w t p ≡ put (put w t (some o)) (backup t) none p
unfolding remove_deployed
restored w t o p h =
    rw (remove_deployed, exists-some w (backup t) h, h)
      (elim (Bool-cases (same p t)) [ inl f ↦ rw f refl | inr f ↦ rw f refl ])

removed : (w : Files) (t p : Bytes) → w (backup t) ≡ none → remove_deployed w t p ≡ put w t none p
unfolding remove_deployed
removed w t p h = rw (remove_deployed, exists-none w (backup t) h) refl

backed_up :
    (host : Host) (w : Files) (t o : Bytes)
    → host.copies t ≡ true
    → w t ≡ some o
    → w (backup t) ≡ none
    → back_up host w t ≡ put w (backup t) (some o)
unfolding back_up
backed_up host w t o c h g = rw (back_up, exists-some w t h, exists-none w (backup t) g, c, h) refl

not_backed_up : (host : Host) (w : Files) (t : Bytes) → w t ≡ none → back_up host w t ≡ w
unfolding back_up
not_backed_up host w t h = rw (back_up, exists-none w t h) refl

-- Undoing the deployment of one file that can be written, where nothing is at the backup's place and a
-- backup can be copied there, gives every path what it had before, whether the file was there or not.
pub remove_deployed-deploy_file :
    (host : Host) (w : Files) (t content p : Bytes)
    → host.writable t ≡ true
    → host.copies t ≡ true
    → w (backup t) ≡ none
    → remove_deployed (deploy_file host w t content).0 t p ≡ w p
unfolding deploy_file
remove_deployed-deploy_file host w t content p h c b =
    rw (deploy_file, h)
      (elim (Option-cases (w t)) [
        | inl e ↦ rw (not_backed_up host w t e) (
            removed (put w t (some content)) t p (put-backup w t (some content) ∙ b)
            ∙ elim (Bool-cases (same p t)) [
              | inl f ↦ rw f (sym (ap w ((same_iff p t).0 f) ∙ e))
              | inr f ↦ rw f refl
            ])
        | inr (o, e) ↦ rw (backed_up host w t o c e b) (
            let v : Files = put w (backup t) (some o) in
            restored (put v t (some content)) t o p
              (put-backup v t (some content) ∙ put-same w (backup t) (some o))
            ∙ elim (Bool-cases (same p (backup t))) [
              | inl f ↦ rw f (sym (ap w ((same_iff p (backup t)).0 f) ∙ b))
              | inr f ↦ elim (Bool-cases (same p t)) [
                | inl g ↦ rw (f, g) (sym (ap w ((same_iff p t).0 g) ∙ e))
                | inr g ↦ rw (f, g) refl
              ]
            ])
      ])

-- Where neither a file, which can be written, nor its backup, which can be copied, is there and the file is
-- deployed twice, the removal does not delete it: it leaves the content of the first deployment, which
-- the second has taken for the user's.
pub remove_deployed-twice :
    (host : Host) (w : Files) (t first second : Bytes)
    → host.writable t ≡ true
    → host.copies t ≡ true
    → w t ≡ none
    → w (backup t) ≡ none
    → remove_deployed (deploy_file host (deploy_file host w t first).0 t second).0 t t ≡ some first
unfolding deploy_file
remove_deployed-twice host w t first second h c n b =
    rw (deploy_file, h, not_backed_up host w t n)
      (let v : Files = put w t (some first) in
        rw
          (backed_up host v t first c (put-same w t (some first)) (put-backup w t (some first) ∙ b))
          (let u : Files = put v (backup t) (some first) in
            restored (put u t (some second)) t first t
              (put-backup u t (some second) ∙ put-same v (backup t) (some first))
            ∙ put-other (put (put u t (some second)) t (some first)) (backup t) t none
                (same-eq-false t (backup t) (λ e. backup-ne t (sym e)))
            ∙ put-same (put u t (some second)) t (some first)))
