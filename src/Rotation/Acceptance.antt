-- ===== src/Rotation/Acceptance.antt =====
-- shared/sih_shared/credential_state.py: an engine takes a successor that has its authority, and finds it
-- afterwards.
use secupload.Base.{ℕ, ◌≤◌, ◌≡◌, refl, arith, true, none, some, Bytes, ◌∙◌, subst}
use secupload.Base.Dict.{lookup-insert, lookup_beyond_max}
use secupload.Base.Result.{ok}
use secupload.Crypto.{Primitives, verify_ed25519}
use secupload.Models.{CredentialPublic}
use secupload.Rotation.{
  RotationEngine, active, validating, store, submit_successor, submit_by, submitted,
  check_successor_signature, versions_in_window,
}
use secupload.Rotation.Counts.{
  by_status_found, by_status-none, by_status_unique, window_size-eq-counts,
}
use secupload.Rotation.Valid.{A, V, IsValid}
use secupload.Rotation.Invariant.{submit_successor-IsValid}
use secupload.Rotation.Submission.{IsAuthorized}

window_left : (e : RotationEngine) → IsValid e → validating e ≡ none → versions_in_window e ≤ 2
unfolding versions_in_window validating
window_left e h alone = omega (
  arith,
  window_size-eq-counts e.creds,
  by_status-none V e.creds alone,
  h.one_active,
  h.one_fallback,
)

module _ (prim : Primitives) (cred : CredentialPublic) (sig meta : Bytes) (now : ℕ)
    (e : RotationEngine) (signer : CredentialPublic) (payload : Bytes) (valid : IsValid e)
    (auth : IsAuthorized prim cred sig meta now e signer payload)
    (accepts : prim.ed25519_accepts signer.ed25519_public ≡ true) where
  checked : check_successor_signature prim signer cred sig meta ≡ ok tt
  unfolding check_successor_signature verify_ed25519
  checked = ground (arith, auth.covers, auth.signed, auth.signature_size, accepts)

  -- With authority, the submission succeeds.
  pub submit_successor-accepts :
      submit_successor prim cred sig meta now e
      ≡ (ok tt, store e cred.version (submitted e.params cred now))
  unfolding submit_successor submit_by
  submit_successor-accepts = ground (
    arith,
    auth.signer_active,
    auth.signer_live,
    auth.none_validating,
    auth.next_version,
    auth.same_identity,
    checked,
    window_left e valid auth.none_validating,
  )

  stored-IsValid : IsValid (store e cred.version (submitted e.params cred now))
  stored-IsValid =
      subst (λ o. IsValid o.1) submit_successor-accepts
        (submit_successor-IsValid prim cred sig meta now e valid)

  -- The successor is the VALIDATING credential, and the signer stays the ACTIVE one.
  pub validating-store :
      validating (store e cred.version (submitted e.params cred now))
      ≡ some (submitted e.params cred now)
  unfolding validating submitted
  validating-store =
      by_status_unique V cred.version (submitted e.params cred now) _ stored-IsValid.one_validating
        (lookup-insert cred.version cred.version (submitted e.params cred now) e.creds
          ∙ ground arith)
        refl

  pub active-store : active (store e cred.version (submitted e.params cred now)) ≡ some signer
  unfolding active
  active-store =
      let (there, is) = by_status_found A signer e.creds valid.keyed auth.signer_active in
      by_status_unique A signer.version signer _ stored-IsValid.one_active
        (ground (
          arith,
          lookup-insert signer.version cred.version (submitted e.params cred now) e.creds,
          auth.next_version,
          lookup_beyond_max cred.version e.creds,
          there,
        ))
        is
