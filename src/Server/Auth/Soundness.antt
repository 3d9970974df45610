-- ===== src/Server/Auth/Soundness.antt =====
-- Who is let in: exactly those whose envelope passes each test of `authenticate`.
use secupload.Base.{
  ℕ, ◌≡◌, ◌↔◌, refl, arith, true, false, none, some, Option-cases, Bool-cases, inl, inr,
}
use secupload.Base.Result.{Result, ok, err, Result-cases}
use secupload.Crypto.{Primitives}
use secupload.Models.{
  CredentialPublic, IdentityKind, RotationParams, is_authenticating, timestamp_window,
}
use secupload.Protocol.Envelope
use secupload.Protocol.Envelope.{Envelope}
use secupload.Replay.{contains, check_and_add, timestamp_ok}
use secupload.Rotation.Authentication.{credential_for_auth-some_iff}
use secupload.Server.Auth.{
  State, authenticate, verify_sender, usable_credential, judge, accept, identity_kind_of,
  replay_key,
}
use secupload.Server.Database.{Database, record_event}
use secupload.Server.Registry.{credential_for_auth, identity_kind, engine_for}

-- What the registry answers has a status that authenticates.
credential_for_auth-authenticates :
    (params : RotationParams) (db : Database) (u v now : ℕ) (cred : CredentialPublic)
    → credential_for_auth params db u v now ≡ ok (some cred)
    → is_authenticating cred.status ≡ true
unfolding credential_for_auth
credential_for_auth-authenticates params db u v now cred h =
    elim (Result-cases (engine_for params db u)) [
      | inl (e, found) ↦ ((credential_for_auth-some_iff e v now cred).0 (ground arith)).1
      | inr (x, failed) ↦ absurd (ground arith)
    ]

usable_credential_iff :
    (params : RotationParams) (db : Database) (env : Envelope) (now : ℕ) (cred : CredentialPublic)
    → (usable_credential params db env now ≡ some cred) ↔ (
        credential_for_auth params db env.sender_uuid env.sender_credential_version now
        ≡ ok (some cred))
unfolding usable_credential
usable_credential_iff params db env now cred =
    elim (Result-cases
      (credential_for_auth params db env.sender_uuid env.sender_credential_version now)) [
        | inl (none, found) ↦ (λ h. absurd (ground arith), λ h. absurd (ground arith))
        | inl (some w, found) ↦
            let live =
              credential_for_auth-authenticates params db env.sender_uuid
                env.sender_credential_version now w found in
            (λ h. ground (arith, live), λ h. ground (arith, live))
        | inr (x, failed) ↦ (λ h. absurd (ground arith), λ h. absurd (ground arith))
      ]

accept_iff :
    (env : Envelope) (cred w : CredentialPublic) (kind : IdentityKind) (s : State)
    → ((accept env w s).0 ≡ ok (kind, cred))
      ↔ ((w ≡ cred) × (identity_kind s.db env.sender_uuid ≡ some kind))
unfolding accept identity_kind_of record_event identity_kind
accept_iff env cred w kind s = (λ h. ground arith, λ h. ground arith)

judge_iff :
    (r : Result (Unit {0})) (env : Envelope) (cred w : CredentialPublic) (kind : IdentityKind)
    (s : State)
    → ((judge r env w s).0 ≡ ok (kind, cred))
      ↔ ((r ≡ ok tt) × (w ≡ cred) × (identity_kind s.db env.sender_uuid ≡ some kind))
unfolding judge
judge_iff (ok u) env cred w kind s =
    let (there, back) = accept_iff env cred w kind s in
    (λ h. (refl, (there h).0, (there h).1), λ h. back (h.1, h.2))
judge_iff (err x) env cred w kind s =
    (λ h. absurd (ground arith), λ h. absurd (ground (arith, h.0)))

verify_sender_iff :
    (prim : Primitives) (params : RotationParams) (env : Envelope) (now : ℕ) (s : State)
    (kind : IdentityKind) (cred : CredentialPublic)
    → ((verify_sender prim params env now s).0 ≡ ok (kind, cred)) ↔ (
        (credential_for_auth params s.db env.sender_uuid env.sender_credential_version now
          ≡ ok (some cred))
        × (Envelope.verify prim env cred.ed25519_public ≡ ok tt)
        × (identity_kind s.db env.sender_uuid ≡ some kind))
unfolding verify_sender
verify_sender_iff prim params env now s kind cred =
    let known = usable_credential_iff params s.db env now in
    elim (Option-cases (usable_credential params s.db env now)) [
      | inl absent ↦ (λ h. absurd (ground arith), λ h. absurd (ground (arith, (known cred).1 h.0)))
      | inr (w, found) ↦
          let verified = Envelope.verify prim env w.ed25519_public in
          let (there, back) = judge_iff verified env cred w kind s in
          let found_ok = (known w).0 found in
          (
            λ h.
                let (good, same, registered) = there (ground (arith, found)) in
                (rw (found_ok, same) refl, rw (← same) good, registered),
            λ (now_ok, good, registered).
                let same : w ≡ cred = ground (arith, found_ok, now_ok) in
                ground (arith, back (rw same good, same, registered), found),
          )
    ]

-- An envelope is authenticated as a kind of identity and a credential exactly when its timestamp is
-- inside the window, its replay key is not in the cache, the registry gives that credential for
-- authentication to its sender and version, the signature verifies under that credential's key, and
-- the sender is registered as that kind.
pub authenticate-ok_iff :
    (prim : Primitives) (params : RotationParams) (env : Envelope) (now : ℕ) (s : State)
    (kind : IdentityKind) (cred : CredentialPublic)
    → ((authenticate prim params env now s).0 ≡ ok (kind, cred)) ↔ (
        (timestamp_ok env.timestamp now timestamp_window ≡ true)
        × (contains (replay_key env) s.replay.entries ≡ false)
        × (credential_for_auth params s.db env.sender_uuid env.sender_credential_version now
            ≡ ok (some cred))
        × (Envelope.verify prim env cred.ed25519_public ≡ ok tt)
        × (identity_kind s.db env.sender_uuid ≡ some kind))
unfolding authenticate check_and_add verify_sender
authenticate-ok_iff prim params env now s kind cred =
    let cache = (check_and_add (replay_key env) s.replay).1 in
    let (there, back) =
      verify_sender_iff prim params env now (record s { replay = cache }) kind cred in
    elim (Bool-cases (timestamp_ok env.timestamp now timestamp_window)) [
      | inl fresh ↦ elim (Bool-cases (contains (replay_key env) s.replay.entries)) [
        | inl old ↦ (λ h. absurd (ground arith), λ h. absurd (ground (arith, h.1)))
        | inr new ↦ (
          λ h. let (a, b, c) = there (ground arith) in (fresh, new, a, b, c),
          λ (_, _, a, b, c). ground (arith, back (a, b, c)),
        )
      ]
      | inr stale ↦ (λ h. absurd (ground arith), λ h. absurd (ground (arith, h.0)))
    ]
