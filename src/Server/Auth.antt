-- ===== src/Server/Auth.antt =====
-- server/sih_server/auth.py: the authentication of an envelope.
pub mod Soundness
pub mod Replays
use secupload.Base.{ℕ, ◌++◌, if◌then◌else◌, Bool, true, false, not, Bytes, Option, none, some}
use secupload.Base.Result.{Result, ok, err, Error, Code}
use secupload.Codec.Digits.{to_bytes}
use secupload.Crypto.{Primitives}
use secupload.Models.{
  CredentialPublic, IdentityKind, RotationParams, is_authenticating, timestamp_window,
}
use secupload.Protocol.Envelope
use secupload.Protocol.Envelope.{Envelope}
use secupload.Replay.{ReplayCache, check_and_add, timestamp_ok, envelope_replay_key}
use secupload.Server.Database.{Database, EventType, AuditResult, record_event}
use secupload.Server.Registry.{credential_for_auth, identity_kind}

-- The state: the authenticator's `_replay`, and the database.
pub record State : Type 0 where
  pub replay : ReplayCache
  pub db : Database

abbrev Authenticated : Type 0
Authenticated = Result (IdentityKind × CredentialPublic) × State

abbrev deny : EventType → Code → Envelope → State → Authenticated
deny event code env s = (
  err (Error.auth_error code),
  record s {
    db =
        record_event event env.sender_uuid (some env.sender_credential_version) AuditResult.deny
          s.db;
  },
)

unfoldable pub replay_key : Envelope → Bytes
replay_key env =
    envelope_replay_key (to_bytes 16 env.sender_uuid) (to_bytes 16 env.request_id) env.nonce

-- `cred`: a RegistryError counts as no credential.
unfoldable pub usable_credential :
    RotationParams → Database → Envelope → ℕ → Option CredentialPublic
usable_credential params db env now =
    elim (credential_for_auth params db env.sender_uuid env.sender_credential_version now) [
      | err x ↦ none
      | ok none ↦ none
      | ok (some cred) ↦ if is_authenticating cred.status then some cred else none
    ]

-- `_identity_kind`
unfoldable pub identity_kind_of : Database → ℕ → Result IdentityKind
identity_kind_of db u = elim (identity_kind db u) [
  | none ↦ err (Error.auth_error Code.unknown_identity)
  | some kind ↦ ok kind
]

-- What follows a signature that verifies.
unfoldable pub accept : Envelope → CredentialPublic → State → Authenticated
unfolding identity_kind_of
accept env cred s =
    let db =
      record_event EventType.auth_success env.sender_uuid (some env.sender_credential_version)
        AuditResult.granted s.db in
    elim (identity_kind_of db env.sender_uuid) [
      | err x ↦ (err x, record s { db = db })
      | ok kind ↦ (ok (kind, cred), record s { db = db })
    ]

-- What follows the signature's verification: only a ProtocolError is caught.
unfoldable pub judge : Result (Unit {0}) → Envelope → CredentialPublic → State → Authenticated
unfolding accept
judge (ok u) env cred s = accept env cred s
judge (err Error.protocol_error) env cred s = deny EventType.auth_failure Code.bad_signature env s
judge (err x) env cred s = (err x, s)

module _ (prim : Primitives) (params : RotationParams) where
  -- The part of `authenticate` after the replay check.
  unfoldable pub verify_sender : Envelope → ℕ → State → Authenticated
  unfolding usable_credential judge
  verify_sender env now s = elim (usable_credential params s.db env now) [
    | none ↦ deny EventType.auth_failure Code.bad_credential env s
    | some cred ↦ judge (Envelope.verify prim env cred.ed25519_public) env cred s
  ]

  unfoldable pub authenticate : Envelope → ℕ → State → Authenticated
  unfolding replay_key verify_sender
  authenticate env now s =
      if not (timestamp_ok env.timestamp now timestamp_window)
      then deny EventType.auth_failure Code.stale_timestamp env s
      else let (new, cache) = check_and_add (replay_key env) s.replay in
        if not new
        then deny EventType.replay_rejection Code.replay env (record s { replay = cache })
        else verify_sender env now (record s { replay = cache })
