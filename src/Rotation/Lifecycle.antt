-- ===== src/Rotation/Lifecycle.antt =====
-- The life of one credential: which changes of a record an operation can make.
use secupload.Base.{
  ℕ, ◌≡◌, refl, arith, Bool, true, some, Option-cases, Bool-cases, inl, inr, Bytes, ltb, ◌&&◌,
}
use secupload.Base.Dict.{lookup}
use secupload.Crypto.{Primitives}
use secupload.Models.{CredentialStatus, CredentialPublic, is_authenticating, or_default}
use secupload.Rotation.{
  RotationEngine, by_status, expire_one, active, fallback, provision_initial, submit_successor,
  submit_by, checkpoint, checkpoint_active, checkpoint_found, promote, terminate_fallback, rollback,
  revoke, expire_all, demoted, promoted, provisioned, submitted, is_expired,
}
use secupload.Rotation.Commands.{Command, run}
use secupload.Rotation.Counts.{by_status_found}
use secupload.Rotation.Valid.{A, F, V, IsValid, fresh_version}
use secupload.Rotation.Invariant.{lookup-expire}
use secupload.Rotation.Edges.{
  Edge, Evolves, EvolvesTo, Preserves, unchanged, Preserves-refl, Preserves-insert, status_change,
  found-Evolves, Adds, Adds-Preserves,
}

pub provision_initial-Adds :
    (cred : CredentialPublic) (now : ℕ) (e : RotationEngine)
    → Adds e (provision_initial cred now e).1 (provisioned e.params cred now)
unfolding provision_initial
provision_initial-Adds cred now e = ground (arith, fresh_version cred.version e.creds)

provision_initial-Preserves :
    (cred : CredentialPublic) (now : ℕ) (e : RotationEngine)
    → Preserves e.creds (provision_initial cred now e).1.creds
provision_initial-Preserves cred now e =
    Adds-Preserves e _ (provisioned e.params cred now) (provision_initial-Adds cred now e)

module _ (prim : Primitives) where
  submit_by-Adds :
      (signer cred : CredentialPublic) (sig meta : Bytes) (now : ℕ) (e : RotationEngine)
      → Adds e (submit_by prim signer cred sig meta now e).1 (submitted e.params cred now)
  unfolding submit_by
  submit_by-Adds signer cred sig meta now e = ground (arith, fresh_version cred.version e.creds)

  pub submit_successor-Adds :
      (cred : CredentialPublic) (sig meta : Bytes) (now : ℕ) (e : RotationEngine)
      → Adds e (submit_successor prim cred sig meta now e).1 (submitted e.params cred now)
  unfolding submit_successor
  submit_successor-Adds cred sig meta now e = elim (Option-cases (active e)) [
    | inl no_signer ↦ rw (no_signer, submit_successor) (inl refl)
    | inr (signer, found) ↦ rw (found, submit_successor) (submit_by-Adds signer cred sig meta now e)
  ]

  submit_successor-Preserves :
      (cred : CredentialPublic) (sig meta : Bytes) (now : ℕ) (e : RotationEngine)
      → Preserves e.creds (submit_successor prim cred sig meta now e).1.creds
  submit_successor-Preserves cred sig meta now e =
      Adds-Preserves e _ (submitted e.params cred now) (submit_successor-Adds cred sig meta now e)

rollback-Preserves :
    (now : ℕ) (e : RotationEngine) → IsValid e → Preserves e.creds (rollback now e).1.creds
unfolding rollback
rollback-Preserves now e h = elim (Option-cases (by_status V e.creds)) [
  | inl absent ↦ rw (absent, rollback) (Preserves-refl e.creds)
  | inr (v3, found) ↦
      let (there, is) = by_status_found V v3 e.creds h.keyed found in
      rw (found, rollback)
        (Preserves-insert e.creds e.creds v3.version v3 _ (Preserves-refl e.creds) there
          (found-Evolves V CredentialStatus.terminated v3 is Edge.rolled_back _ _))
]

revoke-Preserves : (v now : ℕ) (e : RotationEngine) → Preserves e.creds (revoke v now e).1.creds
unfolding revoke
revoke-Preserves v now e = elim (Option-cases (lookup v e.creds)) [
  | inl absent ↦ rw (absent, revoke) (Preserves-refl e.creds)
  | inr (cred, found) ↦
      rw (found, revoke)
        (Preserves-insert e.creds e.creds v cred _ (Preserves-refl e.creds) found
          (status_change cred CredentialStatus.revoked (Edge.revocation cred.status) _ _))
]

terminate_fallback-Preserves :
    (e : RotationEngine) → IsValid e → Preserves e.creds (terminate_fallback (fallback e) e).1.creds
unfolding terminate_fallback fallback
terminate_fallback-Preserves e h = elim (Option-cases (by_status F e.creds)) [
  | inl absent ↦ rw (absent, terminate_fallback) (Preserves-refl e.creds)
  | inr (v1, found) ↦
      let (there, is) = by_status_found F v1 e.creds h.keyed found in
      rw (found, terminate_fallback)
        (Preserves-insert e.creds e.creds v1.version v1 _ (Preserves-refl e.creds) there
          (found-Evolves F CredentialStatus.terminated v1 is Edge.retirement _ _))
]

promote-Preserves :
    (v3 v2 : CredentialPublic) (now : ℕ) (e : RotationEngine)
    → IsValid e
    → by_status V e.creds ≡ some v3
    → by_status A e.creds ≡ some v2
    → Preserves e.creds (promote v3 v2 now e).1.creds
unfolding promote
promote-Preserves v3 v2 now e h found3 found2 =
    let (there3, is3) = by_status_found V v3 e.creds h.keyed found3 in
    let (there2, is2) = by_status_found A v2 e.creds h.keyed found2 in
    Preserves-insert e.creds _ v3.version v3 (promoted v3 now)
      (Preserves-insert e.creds _ v2.version v2 (demoted e.params v2 now)
        (terminate_fallback-Preserves e h) there2
        (found-Evolves A CredentialStatus.fallback v2 is2 Edge.demotion _ _))
      there3 (found-Evolves V CredentialStatus.active v3 is3 Edge.promotion _ _)

checkpoint_active-Preserves :
    (v3 : CredentialPublic) (now : ℕ) (e : RotationEngine)
    → IsValid e
    → by_status V e.creds ≡ some v3
    → Preserves e.creds (checkpoint_active v3 now e).1.creds
unfolding checkpoint_active
checkpoint_active-Preserves v3 now e h found = elim (Option-cases (by_status A e.creds)) [
  | inl absent ↦ rw (absent, checkpoint_active) (Preserves-refl e.creds)
  | inr (v2, found2) ↦ elim (Bool-cases (is_expired v2 now)) [
    | inl late ↦ rw (found2, checkpoint_active, late) (Preserves-refl e.creds)
    | inr live ↦ rw (found2, checkpoint_active, live) (promote-Preserves v3 v2 now e h found found2)
  ]
]

checkpoint_found-Preserves :
    (v3 : CredentialPublic) (now : ℕ) (e : RotationEngine)
    → IsValid e
    → by_status V e.creds ≡ some v3
    → Preserves e.creds (checkpoint_found v3 now e).1.creds
unfolding checkpoint_found
checkpoint_found-Preserves v3 now e h found =
    elim (Bool-cases (ltb now (or_default v3.validation_deadline 0))) [
      | inl early ↦ rw (early, checkpoint_found) (Preserves-refl e.creds)
      | inr due ↦ elim (Bool-cases (is_expired v3 now)) [
        | inr live ↦ rw (due, checkpoint_found, live) (checkpoint_active-Preserves v3 now e h found)
        | inl late ↦
            let (there, is) = by_status_found V v3 e.creds h.keyed found in
            rw (due, checkpoint_found, late)
              (Preserves-insert e.creds e.creds v3.version v3 _ (Preserves-refl e.creds) there
                (found-Evolves V CredentialStatus.expired v3 is Edge.validating_expires _ _))
      ]
    ]

checkpoint-Preserves :
    (now : ℕ) (e : RotationEngine) → IsValid e → Preserves e.creds (checkpoint now e).1.creds
unfolding checkpoint
checkpoint-Preserves now e h = elim (Option-cases (by_status V e.creds)) [
  | inl absent ↦ rw (absent, checkpoint) (Preserves-refl e.creds)
  | inr (v3, found) ↦ rw (found, checkpoint) (checkpoint_found-Preserves v3 now e h found)
]

and_left : (a b : Bool) → (a && b) ≡ true → a ≡ true
and_left a b h = ground arith

expires_from : (s : CredentialStatus) → is_authenticating s ≡ true → Edge s CredentialStatus.expired
expires_from CredentialStatus.active h = Edge.active_expires
expires_from CredentialStatus.fallback h = Edge.fallback_expires
expires_from CredentialStatus.generated h = absurd (ground arith)
expires_from CredentialStatus.validating h = absurd (ground arith)
expires_from CredentialStatus.expired h = absurd (ground arith)
expires_from CredentialStatus.terminated h = absurd (ground arith)
expires_from CredentialStatus.revoked h = absurd (ground arith)

expire_one-Evolves : (now : ℕ) (c : CredentialPublic) → Evolves c (expire_one now c)
unfolding expire_one
expire_one-Evolves now c = elim (Bool-cases (is_authenticating c.status && is_expired c now)) [
  | inr stays ↦ rw stays (unchanged c)
  | inl expires ↦ rw expires (
      status_change c CredentialStatus.expired
        (expires_from c.status (and_left (is_authenticating c.status) _ expires)) _ _)
]

expire_all-Preserves : (now : ℕ) (e : RotationEngine) → Preserves e.creds (expire_all now e).1.creds
unfolding expire_all
expire_all-Preserves now e v c h = rw (lookup-expire v now e.creds, h) (expire_one-Evolves now c)

-- Any call.
pub run-Preserves :
    (prim : Primitives) (c : Command) (e : RotationEngine)
    → IsValid e
    → Preserves e.creds (run prim c e).creds
unfolding run
run-Preserves prim (Command.provision cred now) e h = provision_initial-Preserves cred now e
run-Preserves prim (Command.submit cred sig meta now) e h =
    submit_successor-Preserves prim cred sig meta now e
run-Preserves prim (Command.promote now) e h = checkpoint-Preserves now e h
run-Preserves prim (Command.rollback now) e h = rollback-Preserves now e h
run-Preserves prim (Command.expire now) e h = expire_all-Preserves now e
run-Preserves prim (Command.revoke v now) e h = revoke-Preserves v now e

-- In a well-formed engine, whatever call is made and whatever it raises, a registered credential stays
-- registered under its version, with the same owner, keys, creation time and validation deadline, and
-- its status stays or moves along one edge of the life cycle.
pub run-Evolves :
    (prim : Primitives) (x : Command) (e : RotationEngine) (v : ℕ) (c : CredentialPublic)
    → IsValid e
    → lookup v e.creds ≡ some c
    → EvolvesTo c (lookup v (run prim x e).creds)
run-Evolves prim x e v c h there = run-Preserves prim x e h v c there
