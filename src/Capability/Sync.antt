-- ===== src/Capability/Sync.antt =====
-- What a synchronisation does to the cached record of a peer.
use kuli.Common.{
  ℕ, ◌<◌, not, if◌then◌else◌, Bool, true, false, Option, none, some, ◌==◌, ◌≡◌, ◌⊎◌, inl, inr, refl,
  Bytes, Bool-cases, Option-cases, arith,
}
use kuli.Engine.Value.{ℤ, pos, negsuc, ◌>>=◌}
use kuli.Capability.{
  RecordApi, Reply, version, cached_record, capability_verify, int_le, is_older, reported,
  accept_record, capability_sync,
}

abbrev pub Smaller : ℤ → ℤ → Type 0
Smaller (pos m) (pos n) = m < n
Smaller (pos m) (negsuc n) = ⊥
Smaller (negsuc m) (pos n) = Unit
Smaller (negsuc m) (negsuc n) = n < m

int_le-Smaller : (m n : ℤ) → int_le n m ≡ false → Smaller m n
unfolding int_le
int_le-Smaller (pos m) (pos n) h = ground arith
int_le-Smaller (pos m) (negsuc n) h = absurd (cc h)
int_le-Smaller (negsuc m) (pos n) h = tt
int_le-Smaller (negsuc m) (negsuc n) h = ground arith

-- Two numbers that are both there.
abbrev pub Less : Option ℤ → Option ℤ → Type 0
Less (some m) (some n) = Smaller m n
Less (some m) none = ⊥
Less none n = ⊥

module _ {J : Type 0} (api : RecordApi J) where
  -- The cache is as it was, or a verified record that is newer than a cached one was written: it is there,
  -- or an exception has ended the program before the end of the writing.
  abbrev pub Renewed : Option J → Option J × Option ℕ → Type 0
  Renewed old (new, code) =
      (new ≡ old)
      ⊎ ((rec : J) × ((new ≡ some rec) ⊎ ((new ≡ none) × (code ≡ none)))
          × (capability_verify api rec ≡ true)
          × (api.is_object (cached_record api old) ≡ true
              → Less (version api (cached_record api old)) (version api rec)))

  compared :
      (a b : Option ℤ) → (a >>= λ old. b >>= λ new. some (int_le new old)) ≡ some false → Less a b
  compared (some m) (some n) h = int_le-Smaller m n (cc h)
  compared (some m) none h = absurd (cc h)
  compared none n h = absurd (cc h)

  is_older-Less :
      (old : Option J) (rec : J)
      → is_older api old rec ≡ some false
      → api.is_object (cached_record api old) ≡ true
      → Less (version api (cached_record api old)) (version api rec)
  unfolding is_older
  is_older-Less old rec h o =
      compared (version api (cached_record api old)) (version api rec) (rw o at h)

  written :
      (rec : J) (line : Option ℕ) (old : Option J)
      → capability_verify api rec ≡ true
      → (api.is_object (cached_record api old) ≡ true
          → Less (version api (cached_record api old)) (version api rec))
      → Renewed old (elim line as (λ _. Option J × Option ℕ) [
        | none ↦ (none, none)
        | some n ↦ (some rec, some n)
      ])
  written rec none old v h = inr (rec, inr (refl, refl), v, h)
  written rec (some n) old v h = inr (rec, inl refl, v, h)

  by_age :
      (writable : Bool) (old : Option J) (rec : J) (age : Option Bool) (f : Option J × Option ℕ)
      → f.0 ≡ old
      → capability_verify api rec ≡ true
      → is_older api old rec ≡ age
      → Renewed old (elim age as (λ _. Option J × Option ℕ) [
        | none ↦ (old, none)
        | some true ↦ (old, some 0)
        | some false ↦
            if not writable then f else elim (reported api rec) as (λ _. Option J × Option ℕ) [
              | none ↦ (none, none)
              | some n ↦ (some rec, some n)
            ]
      ])
  by_age writable old rec none f a v e = inl refl
  by_age writable old rec (some true) f a v e = inl refl
  by_age true old rec (some false) f a v e =
      written rec (reported api rec) old v (is_older-Less old rec e)
  by_age false old rec (some false) f a v e = inl a

  accept_record-Renewed :
      (writable : Bool) (alias : Bytes) (old : Option J) (rec : J)
      → Renewed old (accept_record api writable alias old rec)
  unfolding accept_record
  accept_record-Renewed writable alias old rec = elim (Bool-cases (api.is_object rec)) [
    | inr a ↦ rw a (inl refl)
    | inl a ↦ elim (Bool-cases (capability_verify api rec)) [
      | inr v ↦ rw (a, v) (inl refl)
      | inl v ↦ rw (a, v) (by_age writable old rec (is_older api old rec) _ refl v refl)
    ]
  ]

  -- Whatever the peer answers, if the call returns, the cached record of the peer is kept, or replaced by a
  -- record whose signature has been verified and whose version is greater: it never goes back. If an
  -- exception of the JSON library ends the program, the cache may also be left without a record, but only
  -- after such a record has been accepted.
  pub capability_sync-Renewed :
      (writable : Bool) (alias : Bytes) (old : Option J) (reply : Reply J)
      → Renewed old (capability_sync api writable alias old reply)
  unfolding capability_sync
  capability_sync-Renewed writable alias old reply = elim (Bool-cases (reply.exit_code == 0)) [
    | inr e ↦ rw (capability_sync, e) (inl refl)
    | inl e ↦ elim (Option-cases reply.lines) [
      | inl n ↦ rw (capability_sync, e, n) (inl refl)
      | inr (rec, n) ↦ rw (capability_sync, e, n) (accept_record-Renewed writable alias old rec)
    ]
  ]
