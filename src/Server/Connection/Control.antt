-- ===== src/Server/Connection/Control.antt =====
-- server/sih_server/tunnel2.py: the control channel: enrollment, the registry's snapshot, rotation.
use secupload.Base.{
  ℕ, ◌==◌, ◌-◌, ◌||◌, if◌then◌else◌, Bool, not, [], ◌∷◌, map, take, drop, length, Bytes, some,
}
use secupload.Base.Result.{Result, ok, err, Error, Code, ◌>>=◌}
use secupload.Codec.Decoder
use secupload.Codec.Utf8
use secupload.Codec.Utf8.{Str}
use secupload.Models.{CredentialPublic, IdentityKind}
use secupload.Protocol.Codes.{ControlType, control_code, RespStatus, resp_code, kind_from_code}
use secupload.Protocol.Entries.{encode_registry_snapshot, registry_entry_from_public}
use secupload.Protocol.Envelope.{Envelope, parse_envelope}
use secupload.Protocol.Messages.{
  ControlMessage, parse_control, encode_control, parse_enrollment_body, encode_enroll_response,
  encode_server_key_info,
}
use secupload.Server.Database.{EventType, AuditResult, record_event}
use secupload.Server.Registry
use secupload.Server.Registry.{public_entries}
use secupload.Server.Registry.Enrollment.{enroll}
use secupload.Server.Tunnel2.{token_identity, decrypt_to}
use secupload.Server.Connection.{
  World, Setting, Draws, Handled, ◌then◌, on_database, database, with_database, as_tunnel2,
  authenticated, server_credential, server_keys, send_control_raw, send_control_response,
}
use secupload.Successor.{SuccessorPayload, parse_successor_payload}

-- `b"ok"`, and "enrolled"
abbrev ok_text : Bytes
ok_text = b'o' ∷ b'k' ∷ []

abbrev enrolled_text : Str
enrolled_text = b'e' ∷ b'n' ∷ b'r' ∷ b'o' ∷ b'l' ∷ b'l' ∷ b'e' ∷ b'd' ∷ []

-- The plaintext of an answer, from a call of the registry that raises or returns.
abbrev then_ok : {A : Type 0} → Handled A → Handled Bytes
then_ok r = r then λ _ w. (encode_control 0 ok_text, w)

-- `inner[:-64]` and `inner[-64:]`
abbrev pub before_signature : Bytes → Bytes
before_signature inner = take (length inner - 64) inner

abbrev pub last_signature : Bytes → Bytes
last_signature inner = drop (length inner - 64) inner

-- The handlers of authenticated messages: the server's setting, the draws, the envelope, the
-- credential, and the decrypted payload.
abbrev Handler : Type 0
Handler = Envelope → CredentialPublic → Bytes → World → Handled Bytes

-- The kind that a request of the registry names.
abbrev requested_kind : Bytes → Result IdentityKind
requested_kind [] = ok IdentityKind.client
requested_kind (c ∷ rest) = kind_from_code c

module _ (cfg : Setting) (draws : Draws) where
  unfoldable pub handle_registry_sync : Handler
  handle_registry_sync env cred inner w = elim (requested_kind inner) [
    | err x ↦ (err x, w)
    | ok kind ↦ (
      encode_registry_snapshot (map registry_entry_from_public (public_entries kind (database w))),
      with_database w (
          record_event EventType.registry_sync env.sender_uuid (some cred.version)
            AuditResult.granted (database w)),
    )
  ]

  -- The part of `_handle_rotate_submit` after the payload is read.
  unfoldable pub submit_payload : Envelope → SuccessorPayload → Bytes → World → Handled Bytes
  submit_payload env p signature w =
      if not (p.identity_uuid == env.sender_uuid)
      then (err (Error.registry_error Code.token_mismatch), w)
      else then_ok (
          on_database
            (Registry.submit_successor cfg.prim cfg.params env.sender_uuid p.new_version
              p.new_ed25519_public p.new_x25519_public signature p.transition_metadata draws.now)
            w)

  unfoldable pub handle_rotate_submit : Handler
  unfolding submit_payload
  handle_rotate_submit env cred inner w = elim (parse_successor_payload (before_signature inner)) [
    | err x ↦ (err x, w)
    | ok p ↦ submit_payload env p (last_signature inner) w
  ]

  -- The branch of a revocation, with the version that is read from the payload.
  unfoldable pub revoke_action : Envelope → Result ℕ → World → Handled Bytes
  revoke_action env (err x) w = (err x, w)
  revoke_action env (ok version) w =
      then_ok (on_database (Registry.revoke cfg.params env.sender_uuid version draws.now) w)

  unfoldable pub handle_rotate_action : ℕ → Handler
  unfolding revoke_action
  handle_rotate_action ctype env cred inner w =
      if ctype == control_code ControlType.rotate_checkpoint
      then then_ok (on_database (Registry.checkpoint cfg.params env.sender_uuid draws.now) w)
      else if ctype == control_code ControlType.rotate_rollback
      then then_ok (on_database (Registry.rollback cfg.params env.sender_uuid draws.now) w)
      else if ctype == control_code ControlType.rotate_revoke
      then revoke_action env (Decoder.decode Decoder.u32 inner) w
      else (err Error.tunnel2_error, w)

  -- `except (RegistryError, RotationError)`: the answer carries the message.
  unfoldable answer_of : Handled Bytes → Handled Bytes
  answer_of (ok inner, w) = (ok inner, w)
  answer_of (err (Error.registry_error c), w) =
      (Utf8.encode (cfg.message (Error.registry_error c)) >>= encode_control 1, w)
  answer_of (err (Error.rotation_error c), w) =
      (Utf8.encode (cfg.message (Error.rotation_error c)) >>= encode_control 1, w)
  answer_of (err x, w) = (err x, w)

  -- `_handle_authenticated`
  unfoldable pub handle_authenticated : ℕ → Bytes → Handler → World → Handled Bytes
  unfolding answer_of
  handle_authenticated ctype body handler w = (as_tunnel2 (parse_envelope body), w) then λ env w0.
      authenticated cfg draws env w0 then λ (kind, cred) w1.
      server_keys cfg draws w1 then λ pair w2.
      (as_tunnel2 (decrypt_to cfg.prim env pair.1), w2) then λ inner w3.
      answer_of (handler env cred inner w3) then λ response w4.
      send_control_response cfg draws ctype env response w4

  -- The block of `_handle_enroll` that catches a RegistryError.
  unfoldable enroll_block : ℕ → IdentityKind → Str → ℕ → Bytes → Bytes → World → Handled Bytes
  enroll_block u kind token version ed25519 x25519 w =
      on_database
        (enroll cfg.sha256 cfg.params u kind token version ed25519 x25519 (some draws.now)) w
      then λ _ w1. server_credential cfg draws w1 then λ server w2. (
        encode_server_key_info server.version server.ed25519_public server.x25519_public 0 []
            >>= encode_enroll_response (resp_code RespStatus.success) enrolled_text,
        w2,
      )

  abbrev enroll_answer : Handled Bytes → Handled Bytes
  enroll_answer (err (Error.registry_error c), w) = (
    encode_enroll_response (resp_code RespStatus.error) (cfg.message (Error.registry_error c)) [],
    w,
  )
  enroll_answer (r, w) = (r, w)

  unfoldable handle_enroll : Bytes → World → Handled Bytes
  unfolding enroll_block send_control_raw
  handle_enroll body w =
      (parse_enrollment_body body, w) then λ (code, token, version, ed25519, x25519) w0.
      (kind_from_code code, w0) then λ kind w1.
      (token_identity cfg.sha256 token kind, w1) then λ u w2.
      enroll_answer (enroll_block u kind token version ed25519 x25519 w2) then λ response w3.
      (send_control_raw (control_code ControlType.enroll_resp) response, w3)

  -- `ctype in (ROTATE_CHECKPOINT, ROTATE_ROLLBACK, ROTATE_REVOKE)`
  abbrev is_action : ℕ → Bool
  is_action ctype =
      (ctype == control_code ControlType.rotate_checkpoint)
      || ((ctype == control_code ControlType.rotate_rollback)
          || (ctype == control_code ControlType.rotate_revoke))

  -- The branches of `_handle_control`.
  unfoldable handle_message : ControlMessage → World → Handled Bytes
  unfolding handle_enroll handle_authenticated handle_registry_sync handle_rotate_submit
      handle_rotate_action
  handle_message msg w =
      if msg.ctype == control_code ControlType.enroll
      then handle_enroll msg.body w
      else if msg.ctype == control_code ControlType.registry_sync_req
      then handle_authenticated msg.ctype msg.body handle_registry_sync w
      else if msg.ctype == control_code ControlType.rotate_submit
      then handle_authenticated msg.ctype msg.body handle_rotate_submit w
      else if is_action msg.ctype
      then handle_authenticated msg.ctype msg.body (handle_rotate_action msg.ctype) w
      else (err Error.tunnel2_error, w)

  -- `_handle_control`
  unfoldable pub handle_control : Bytes → World → Handled Bytes
  unfolding handle_message
  handle_control payload w = (parse_control payload, w) then handle_message
