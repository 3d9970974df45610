-- ===== src/Rotation/Submission.antt =====
-- Who may submit a successor, and that a submitted credential waits for its deadline.
use secupload.Base.{
  ℕ, ◌+◌, ◌≡◌, arith, true, false, none, some, Option-cases, inl, inr, Bytes, length,
}
use secupload.Base.Dict.{max_key}
use secupload.Base.Result.{ok, err, Error, Result-cases}
use secupload.Crypto.{Primitives, verify_ed25519}
use secupload.Models.{CredentialPublic}
use secupload.Successor.{encode_successor_payload}
use secupload.Rotation.{
  RotationEngine, is_expired, active, validating, store, submit_successor, submit_by, submitted,
  check_successor_signature, signature_outcome,
}

module _ (prim : Primitives) where
  -- What has held when a submission succeeded.
  pub record IsAuthorized (cred : CredentialPublic) (sig meta : Bytes) (now : ℕ)
      (e : RotationEngine) (signer : CredentialPublic) (payload : Bytes) : Type 0 where
    pub signer_active : active e ≡ some signer
    pub signer_live : is_expired signer now ≡ false
    pub none_validating : validating e ≡ none
    pub next_version : cred.version ≡ max_key e.creds + 1
    pub same_identity : cred.identity_uuid ≡ signer.identity_uuid
    pub covers :
        encode_successor_payload signer.identity_uuid signer.version cred.version
          cred.ed25519_public cred.x25519_public meta
        ≡ ok payload
    pub signed : prim.ed25519_verify signer.ed25519_public payload sig ≡ true
    pub signature_size : length sig ≡ 64

  verified :
      (key payload sig : Bytes)
      → signature_outcome (verify_ed25519 prim key payload sig) ≡ ok tt
      → (prim.ed25519_verify key payload sig ≡ true) × (length sig ≡ 64)
  unfolding verify_ed25519
  verified key payload sig h = ground arith

  signature_checked :
      (signer cred : CredentialPublic) (sig meta : Bytes)
      → check_successor_signature prim signer cred sig meta ≡ ok tt
      → (payload : Bytes) × (encode_successor_payload signer.identity_uuid signer.version
            cred.version cred.ed25519_public cred.x25519_public meta
          ≡ ok payload)
        × (prim.ed25519_verify signer.ed25519_public payload sig ≡ true)
        × (length sig ≡ 64)
  unfolding check_successor_signature
  signature_checked signer cred sig meta h =
      elim (Result-cases (
        encode_successor_payload signer.identity_uuid signer.version cred.version
          cred.ed25519_public cred.x25519_public meta)) [
            | inl (payload, e) ↦
                let (checked, size) = verified signer.ed25519_public payload sig (ground arith) in
                (payload, e, checked, size)
            | inr (x, e) ↦ absurd (ground arith)
          ]

  submit_by-ok :
      (signer cred : CredentialPublic) (sig meta : Bytes) (now : ℕ) (e : RotationEngine)
      → (submit_by prim signer cred sig meta now e).0 ≡ ok tt
      → (is_expired signer now ≡ false)
        × (validating e ≡ none)
        × (cred.version ≡ max_key e.creds + 1)
        × (cred.identity_uuid ≡ signer.identity_uuid)
        × (check_successor_signature prim signer cred sig meta ≡ ok tt)
        × ((submit_by prim signer cred sig meta now e).1
            ≡ store e cred.version (submitted e.params cred now))
  unfolding submit_by
  submit_by-ok signer cred sig meta now e h = ground arith

  -- A submission succeeds only if the ACTIVE, unexpired credential of the same identity has signed the
  -- payload that names the new version and its keys, the version is the next one, and none was
  -- VALIDATING; it then adds the new record, VALIDATING, and changes no other.
  pub submit_successor-ok :
      (cred : CredentialPublic) (sig meta : Bytes) (now : ℕ) (e : RotationEngine)
      → (submit_successor prim cred sig meta now e).0 ≡ ok tt
      → ((signer : CredentialPublic) × (payload : Bytes) × IsAuthorized cred sig meta now e signer
            payload)
        × ((submit_successor prim cred sig meta now e).1
            ≡ store e cred.version (submitted e.params cred now))
  unfolding submit_successor
  submit_successor-ok cred sig meta now e h = elim (Option-cases (active e)) [
    | inl absent ↦ absurd (ground arith)
    | inr (signer, found) ↦
        let (live, alone, next, same, checked, stored) =
          submit_by-ok signer cred sig meta now e (ground arith) in
        let (payload, covers, signed, size) = signature_checked signer cred sig meta checked in
        (
          (
            signer,
            payload,
            record {
              signer_active = found;
              signer_live = live;
              none_validating = alone;
              next_version = next;
              same_identity = same;
              covers = covers;
              signed = signed;
              signature_size = size;
            },
          ),
          rw (found, submit_successor) stored,
        )
  ]

  -- A submission that raises leaves the engine as it was.
  submit_successor_refused :
      (cred : CredentialPublic) (sig meta : Bytes) (now : ℕ) (e : RotationEngine) (x : Error)
      → (submit_successor prim cred sig meta now e).0 ≡ err x
      → (submit_successor prim cred sig meta now e).1 ≡ e
  unfolding submit_successor submit_by
  submit_successor_refused cred sig meta now e x h = ground arith
