-- ===== src/Server/Connection.antt =====
-- server/sih_server/tunnel2.py: the class `_Connection`, its objects as one state, and what its
-- handlers share. A handler's result is the frame that it sends.
pub mod Control
pub mod Relay
pub mod Loop
pub mod Authority
pub mod Silence
pub mod Answers
use secupload.Base.{ℕ, ◌==◌, if◌then◌else◌, Bool, true, false, Bytes, Option, none, some}
use secupload.Base.Dict.{Dict}
use secupload.Base.Int.{ℤ, pos}
use secupload.Base.Result.{Result, ok, err, Error, Code, ◌>>=◌}
use secupload.Codec.Utf8.{Str}
use secupload.Crypto.{Primitives}
use secupload.Framing.{send_frame}
use secupload.Models.{CredentialPublic, IdentityKind, RotationParams}
use secupload.Protocol.Envelope
use secupload.Protocol.Envelope.{Envelope}
use secupload.Protocol.Messages.{encode_control}
use secupload.Protocol.Codes.{ControlType, control_code}
use secupload.Replay.{ReplayCache}
use secupload.Server.Auth.{State, authenticate}
use secupload.Server.Database.{Database}
use secupload.Server.Identity
use secupload.Server.Identity.{ServerIdentity, Fresh, Step}
use secupload.Server.Objects.{Store}
use secupload.Server.Registry.{get_credential}
use secupload.Server.Tunnel2.{outgoing, outgoing_payload}

-- `CHANNEL_CONTROL`, `CHANNEL_RELAY`
abbrev pub channel_control : ℕ
channel_control = 0

abbrev pub channel_relay : ℕ
channel_relay = 1

-- The objects that a connection shares with the others: the server's identity, which holds the
-- database, the authenticator's replay cache, and the files of the objects.
pub record World : Type 0 where
  pub identity : ServerIdentity
  pub replay : ReplayCache
  pub files : Dict Bytes

-- What is fixed for a server, or stands for code that is not read here: the primitives, SHA-256 and
-- its hexadecimal form, the path of an object, and the texts of the exceptions' messages.
pub record Setting : Type 0 where
  pub prim : Primitives
  pub params : RotationParams
  pub server_uuid : ℕ
  pub sha256 : Bytes → Bytes
  pub hex : Bytes → Str
  pub path : ℕ → Str
  pub unknown_operation : Str
  pub message : Error → Str

-- What a handler of one frame draws: the readings of the clock, by the authenticator and by the
-- connection, fresh key pairs, and a nonce.
pub record Draws : Type 0 where
  pub auth_now : ℕ
  pub now : ℕ
  pub initial : Fresh
  pub ephemeral : Bytes × Bytes
  pub nonce : Bytes

abbrev pub Handled : Type 0 → Type 0
Handled A = Result A × World

abbrev pub database : World → Database
database w = w.identity.db

abbrev pub with_database : World → Database → World
with_database w db = record w { identity = record w.identity { db = db } }

-- A call of the authenticator, of the registry, of the object store, and of the identity, on the shared
-- state.
abbrev on_auth : {A : Type 0} → (State → Result A × State) → World → Handled A
on_auth f w =
    let (r, s) = f (record { replay = w.replay; db = database w }) in
    (r, record (with_database w s.db) { replay = s.replay })

abbrev pub on_database : {A : Type 0} → (Database → Result A × Database) → World → Handled A
on_database f w = let (r, db) = f (database w) in (r, with_database w db)

abbrev pub on_store : {A : Type 0} → (Store → Result A × Store) → World → Handled A
on_store f w =
    let (r, s) = f (record { files = w.files; db = database w }) in
    (r, record (with_database w s.db) { files = s.files })

abbrev pub on_identity : {A : Type 0} → (ServerIdentity → Step A) → World → Handled A
on_identity f w = let (r, s) = f w.identity in (r, record w { identity = s })

-- The rest of a method, after a call that may raise.
infixl 5 ◌then◌
abbrev pub ◌then◌ : {A B : Type 0} → Handled A → (A → World → Handled B) → Handled B
(err x, w) then rest = (err x, w)
(ok a, w) then rest = rest a w

-- `except Exception as exc: raise Tunnel2Error`
abbrev pub as_tunnel2 : {A : Type 0} → Result A → Result A
as_tunnel2 (ok a) = ok a
as_tunnel2 (err x) = err Error.tunnel2_error

-- `if client_cred is None: raise Tunnel2Error`
abbrev pub known_sender : Option CredentialPublic → Result CredentialPublic
known_sender none = err Error.tunnel2_error
known_sender (some c) = ok c

-- `_RESP_TYPE[…]`
unfoldable resp_type : ℕ → Result ℕ
resp_type c =
    if c == control_code ControlType.enroll
    then ok (control_code ControlType.enroll_resp)
    else if c == control_code ControlType.registry_sync_req
    then ok (control_code ControlType.registry_sync_resp)
    else if c == control_code ControlType.rotate_submit
    then ok (control_code ControlType.rotate_submit_resp)
    else if c == control_code ControlType.rotate_checkpoint
    then ok (control_code ControlType.rotate_checkpoint_resp)
    else if c == control_code ControlType.rotate_rollback
    then ok (control_code ControlType.rotate_rollback_resp)
    else if c == control_code ControlType.rotate_revoke
    then ok (control_code ControlType.rotate_revoke_resp)
    else err Error.key_error

-- `_send_control_raw`
unfoldable pub send_control_raw : ℕ → Bytes → Result Bytes
send_control_raw ctype plaintext = encode_control ctype plaintext >>= send_frame channel_control

module _ (cfg : Setting) (draws : Draws) where
  abbrev pub authenticated : Envelope → World → Handled (IdentityKind × CredentialPublic)
  authenticated env = on_auth (authenticate cfg.prim cfg.params env draws.auth_now)

  abbrev pub server_credential : World → Handled CredentialPublic
  server_credential =
      on_identity (Identity.credential cfg.prim cfg.params cfg.server_uuid draws.initial draws.now)

  abbrev pub server_keys : World → Handled (Bytes × Bytes)
  server_keys =
      on_identity (Identity.active_keys cfg.prim cfg.params cfg.server_uuid draws.initial draws.now)

  -- An envelope whose payload is made first and that the active private key, read after that, signs.
  unfoldable pub signed_answer : (Bytes → Envelope) → Result Bytes → World → Handled Envelope
  signed_answer make payload w = (payload, w) then λ b w1.
      server_keys w1 then λ pair w2. (Envelope.sign cfg.prim (make b) pair.0, w2)

  -- `_build_outgoing`
  unfoldable pub sealed_reply : Envelope → ℕ → Bytes → Bytes → World → Handled Envelope
  unfolding signed_answer
  sealed_reply req version inner client =
      signed_answer (outgoing cfg.prim req cfg.server_uuid version (pos draws.now) draws.nonce) (
        outgoing_payload cfg.prim draws.ephemeral req cfg.server_uuid version inner client
          draws.nonce (pos draws.now))

  -- `_send_control_response`
  unfoldable pub send_control_response : ℕ → Envelope → Bytes → World → Handled Bytes
  unfolding sealed_reply resp_type send_control_raw
  send_control_response request_ctype req inner w = (resp_type request_ctype, w) then λ ctype w0.
      server_credential w0 then λ server w1.
      (
        known_sender (get_credential (database w1) req.sender_uuid req.sender_credential_version),
        w1,
      )
      then λ client w2.
          sealed_reply req server.version inner client.x25519_public w2 then λ reply w3.
          (Envelope.encode reply >>= send_control_raw ctype, w3)
