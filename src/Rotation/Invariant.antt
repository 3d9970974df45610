-- ===== src/Rotation/Invariant.antt =====
-- Every operation of the engine keeps it well formed.
use secupload.Base.{
  ℕ, ◌≤◌, ◌<◌, ◌≡◌, ◌≢◌, refl, arith, some, [], ◌∷◌, Option-cases, Bool-cases, inl, inr, Bytes,
}
use secupload.Base.Dict.{lookup, lookup-insert}
use mathlib.Core.Option
use secupload.Crypto.{Primitives}
use secupload.Models.{CredentialStatus, CredentialPublic, status_code}
use secupload.Rotation.{
  Creds, RotationEngine, by_status, expire_creds, expire_one, active, fallback, provision_initial,
  submit_successor, submit_by, checkpoint, checkpoint_active, promote, terminate_fallback, rollback,
  revoke, expire_all, store, with_status, is_expired, demoted, promoted, provisioned, submitted,
}
use secupload.Rotation.Counts.{
  one, count, Keyed, count-insert, Keyed-insert, by_status_found, by_status-none,
}
use secupload.Rotation.Valid.{
  A, F, V, IsValid, Keyed-version, versions_differ, store_new-IsValid, store_old-IsValid,
  retire-IsValid, fresh_version,
}

pub provision_initial-IsValid :
    (cred : CredentialPublic) (now : ℕ) (e : RotationEngine)
    → IsValid e
    → IsValid (provision_initial cred now e).1
unfolding provision_initial
provision_initial-IsValid cred now e h = ground (
  arith,
  store_new-IsValid e (provisioned e.params cred now) h,
  by_status-none A e.creds,
  by_status-none V e.creds,
  fresh_version cred.version e.creds,
)

module _ (prim : Primitives) where
  submit_by-IsValid :
      (signer cred : CredentialPublic) (sig meta : Bytes) (now : ℕ) (e : RotationEngine)
      → IsValid e
      → IsValid (submit_by prim signer cred sig meta now e).1
  unfolding submit_by
  submit_by-IsValid signer cred sig meta now e h = ground (
    arith,
    store_new-IsValid e (submitted e.params cred now) h,
    by_status-none V e.creds,
    fresh_version cred.version e.creds,
  )

  pub submit_successor-IsValid :
      (cred : CredentialPublic) (sig meta : Bytes) (now : ℕ) (e : RotationEngine)
      → IsValid e
      → IsValid (submit_successor prim cred sig meta now e).1
  unfolding submit_successor
  submit_successor-IsValid cred sig meta now e h = elim (Option-cases (active e)) [
    | inl no_signer ↦ rw (no_signer, submit_successor) h
    | inr (signer, found) ↦
        rw (found, submit_successor) (submit_by-IsValid signer cred sig meta now e h)
  ]

terminate_fallback-IsValid :
    (e : RotationEngine)
    → IsValid e
    → IsValid (terminate_fallback (fallback e) e).1
      × (count F (terminate_fallback (fallback e) e).1.creds ≡ 0)
unfolding terminate_fallback fallback
terminate_fallback-IsValid e h = elim (Option-cases (by_status F e.creds)) [
  | inl absent ↦ rw (absent, terminate_fallback) (h, by_status-none F e.creds absent)
  | inr (v1, found) ↦
      let (there, is_f) = by_status_found F v1 e.creds h.keyed found in
      let c = with_status v1 CredentialStatus.terminated in
      rw (found, terminate_fallback)
        (
          retire-IsValid e c h v1 there refl refl refl,
          omega (arith, count-insert F v1.version c v1 e.creds there),
        )
]

-- The end of the old fallback leaves the credentials of another status where they are.
lookup-terminate_fallback :
    (e : RotationEngine)
    → IsValid e
    → (s : CredentialStatus) (c : CredentialPublic)
    → status_code s ≢ status_code CredentialStatus.fallback
    → lookup c.version e.creds ≡ some c
    → one s c ≡ 1
    → lookup c.version (terminate_fallback (fallback e) e).1.creds ≡ some c
unfolding terminate_fallback fallback
lookup-terminate_fallback e h s c ne there is = elim (Option-cases (by_status F e.creds)) [
  | inl absent ↦ rw (absent, terminate_fallback) there
  | inr (v1, found) ↦
      let (there1, is1) = by_status_found F v1 e.creds h.keyed found in
      let apart = versions_differ s F c v1 e.creds ne there there1 is is1 in
      rw (found, terminate_fallback)
        (ground (
          arith,
          lookup-insert c.version v1.version (with_status v1 CredentialStatus.terminated) e.creds,
          apart,
        ))
]

pub rollback-IsValid : (now : ℕ) (e : RotationEngine) → IsValid e → IsValid (rollback now e).1
unfolding rollback
rollback-IsValid now e h = elim (Option-cases (by_status V e.creds)) [
  | inl absent ↦ rw (absent, rollback) h
  | inr (v3, found) ↦
      rw (found, rollback)
        (retire-IsValid e (with_status v3 CredentialStatus.terminated) h v3
          (by_status_found V v3 e.creds h.keyed found).0 refl refl refl)
]

pub revoke-IsValid : (v now : ℕ) (e : RotationEngine) → IsValid e → IsValid (revoke v now e).1
unfolding revoke
revoke-IsValid v now e h = elim (Option-cases (lookup v e.creds)) [
  | inl absent ↦ rw (absent, revoke) h
  | inr (cred, found) ↦
      let c = with_status cred CredentialStatus.revoked in
      rw (found, revoke)
        (record {
          keyed = Keyed-insert v c e.creds h.keyed (Keyed-version v cred e.creds h.keyed found);
          one_active = omega (arith, count-insert A v c cred e.creds found);
          one_fallback = omega (arith, count-insert F v c cred e.creds found);
          one_validating = omega (arith, count-insert V v c cred e.creds found);
        })
]

-- The three writes of a promotion.
promote-IsValid :
    (v3 v2 : CredentialPublic) (now : ℕ) (e : RotationEngine)
    → IsValid e
    → by_status V e.creds ≡ some v3
    → by_status A e.creds ≡ some v2
    → IsValid (promote v3 v2 now e).1
unfolding promote
promote-IsValid v3 v2 now e h found3 found2 =
    let (there3, is3) = by_status_found V v3 e.creds h.keyed found3 in
    let (there2, is2) = by_status_found A v2 e.creds h.keyed found2 in
    let e1 = (terminate_fallback (fallback e) e).1 in
    let (h1, none_left) = terminate_fallback-IsValid e h in
    let keeps3 : lookup v3.version e1.creds ≡ some v3 =
      lookup-terminate_fallback e h V v3 (omega arith) there3 is3 in
    let keeps2 : lookup v2.version e1.creds ≡ some v2 =
      lookup-terminate_fallback e h A v2 (omega arith) there2 is2 in
    let apart = versions_differ V A v3 v2 e1.creds (omega arith) keeps3 keeps2 is3 is2 in
    let e2 = store e1 v2.version (demoted e.params v2 now) in
    let h2 : IsValid e2 =
      store_old-IsValid e1 (demoted e.params v2 now) h1 v2 keeps2 (omega arith) (omega arith)
        (omega arith) in
    let there : lookup v3.version e2.creds ≡ some v3 = ground (
      arith,
      lookup-insert v3.version v2.version (demoted e.params v2 now) e1.creds,
      apart,
      keeps3,
    ) in
    store_old-IsValid e2 (promoted v3 now) h2 v3 there
      (omega (arith, count-insert A v2.version (demoted e.params v2 now) v2 e1.creds keeps2))
      (omega (arith, h2.one_fallback)) (omega (arith, h2.one_validating))

checkpoint_active-IsValid :
    (v3 : CredentialPublic) (now : ℕ) (e : RotationEngine)
    → IsValid e
    → by_status V e.creds ≡ some v3
    → IsValid (checkpoint_active v3 now e).1
unfolding checkpoint_active
checkpoint_active-IsValid v3 now e h found = elim (Option-cases (by_status A e.creds)) [
  | inl absent ↦ rw (absent, checkpoint_active) h
  | inr (v2, found2) ↦ elim (Bool-cases (is_expired v2 now)) [
    | inl late ↦ rw (found2, checkpoint_active, late) h
    | inr live ↦ rw (found2, checkpoint_active, live) (promote-IsValid v3 v2 now e h found found2)
  ]
]

pub checkpoint-IsValid : (now : ℕ) (e : RotationEngine) → IsValid e → IsValid (checkpoint now e).1
unfolding checkpoint
checkpoint-IsValid now e h = elim (Option-cases (by_status V e.creds)) [
  | inl absent ↦ rw (absent, checkpoint) h
  | inr (v3, found) ↦
      rw (found, checkpoint)
        (ground (
          arith,
          checkpoint_active-IsValid v3 now e h found,
          retire-IsValid e (with_status v3 CredentialStatus.expired) h v3
              (by_status_found V v3 e.creds h.keyed found).0 refl refl refl,
        ))
]

count-expire-le :
    (s : CredentialStatus) (now : ℕ) (d : Creds)
    → status_code s < 4
    → count s (expire_creds now d) ≤ count s d
unfolding count expire_creds
count-expire-le s now [] h = omega arith
count-expire-le s now ((v, c) ∷ d) h = ground (arith, count-expire-le s now d h)

pub lookup-expire :
    (v now : ℕ) (d : Creds)
    → lookup v (expire_creds now d) ≡ Option.map (expire_one now) (lookup v d)
unfolding expire_creds
lookup-expire v now [] = refl
lookup-expire v now ((k, c) ∷ d) = ground (arith, lookup-expire v now d)

Keyed-expire : (now : ℕ) (d : Creds) → Keyed d → Keyed (expire_creds now d)
unfolding expire_creds
Keyed-expire now [] h = tt
Keyed-expire now ((v, c) ∷ d) h = ground (arith, Keyed-expire now d h.2, lookup-expire v now d)

pub expire_all-IsValid : (now : ℕ) (e : RotationEngine) → IsValid e → IsValid (expire_all now e).1
unfolding expire_all
expire_all-IsValid now e h = record {
  keyed = Keyed-expire now e.creds h.keyed;
  one_active = omega (arith, count-expire-le A now e.creds, h.one_active);
  one_fallback = omega (arith, count-expire-le F now e.creds, h.one_fallback);
  one_validating = omega (arith, count-expire-le V now e.creds, h.one_validating);
}
