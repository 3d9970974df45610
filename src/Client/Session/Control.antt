-- ===== src/Client/Session/Control.antt =====
-- client/sih_client/session.py: the calls of the control channel: enrollment, the registry's snapshot,
-- and rotation.
use secupload.Base.{ℕ, ◌==◌, not, if◌then◌else◌, Bool, true, false, List, [], ◌∷◌, ◌++◌, Bytes}
use secupload.Base.Result.{Result, ok, Error, Code, ◌>>=◌, ◌>>◌, guard}
use secupload.Codec.Decoder
use secupload.Codec.Decoder.{Decoder, pure}
use secupload.Models.{IdentityKind}
use secupload.Protocol.Codes.{MsgType, msg_code, ControlType, control_code, kind_to_code}
use secupload.Protocol.Entries.{RegistryEntry, parse_registry_snapshot}
use secupload.Protocol.Envelope
use secupload.Protocol.Envelope.{Envelope, parse_envelope}
use secupload.Protocol.Messages.{
  encode_control, parse_control, encode_enrollment_body, parse_enroll_response,
  parse_server_key_info,
}
use secupload.Server.Connection.{channel_control}
use secupload.Client.Identity
use secupload.Client.Identity.{ClientIdentity, Setting, current}
use secupload.Client.Session.{
  Session, ServerKeyState, Step, Draws, ◌then◌, raise, exchange, signed_envelope, decrypt_response,
}

-- `parse_status_inner`
unfoldable status_fields : Decoder (ℕ × Bytes)
status_fields =
    Decoder.◌>>=◌ Decoder.u8
      λ status. Decoder.◌>>=◌ Decoder.bytes_ λ message. pure (status, message)

unfoldable parse_status_inner : Bytes → Result (ℕ × Bytes)
unfolding status_fields
parse_status_inner = Decoder.decode status_fields

-- `_control`, and the answer's body where its type is the expected one.
unfoldable pub control : ℕ → ℕ → Result Bytes → Session → Step Bytes
unfolding exchange
control ctype expected body s =
    exchange channel_control (encode_control ctype) body s then λ payload s1. (
      parse_control payload >>= λ msg.
          guard (msg.ctype == expected) (Error.client_error Code.bad_protocol) >> ok msg.body,
      s1,
    )

-- A call of the identity.
abbrev on_identity : {A : Type 0} → (ClientIdentity → Identity.Step A) → Session → Step A
on_identity f s = let (r, i) = f s.identity in (r, record s { identity = i })

-- `if status != 0: raise`
abbrev accepted : Code → ℕ → Result (Unit {0})
accepted code status = guard (status == 0) (Error.client_error code)

module _ (cfg : Setting) (draws : Draws) where
  -- The body of an enrollment.
  unfoldable enrollment_body : Session → Result Bytes
  enrollment_body s = elim cfg.enrollment_token [
    | [] ↦ raise Code.no_token
    | x ∷ xs ↦ current cfg s.identity >>= λ cred.
        encode_enrollment_body (kind_to_code cfg.kind) cfg.enrollment_token cred.version
          cred.ed25519_public cred.x25519_public
  ]

  -- The key state that an enrollment's answer carries.
  unfoldable enrolled_keys : Bytes → Result ServerKeyState
  enrolled_keys resp = parse_enroll_response resp >>= λ (status, message, key_info).
      accepted Code.enroll_rejected status
      >> parse_server_key_info key_info
      >>= λ (version, ed, x, prev, signature).
          ok (record { version = version; ed25519_public = ed; x25519_public = x })

  -- `_enroll`
  unfoldable pub enroll : Session → Step (Unit {0})
  unfolding enrollment_body control enrolled_keys
  enroll s =
      control (control_code ControlType.enroll) (control_code ControlType.enroll_resp)
        (enrollment_body s) s
      then λ resp s1. (enrolled_keys resp, s1) then λ server s2. (
        ok tt,
        record s2 { server_keys = server; identity = Identity.mark_enrolled cfg s2.identity },
      )

  -- `connect`, on a connection that is open.
  unfoldable connect : Session → Step (Unit {0})
  unfolding enroll
  connect s =
      on_identity (Identity.ensure_loaded cfg draws.unknown draws.pairs draws.now) s then λ _ s1.
      let s2 = record s1 { connected = true } in
      if s1.identity.enrolled then (ok tt, s2) else enroll s2

  -- A signed control message, and the plaintext of its answer.
  unfoldable sealed_control : ℕ → ℕ → Bytes → Session → Step Bytes
  unfolding control
  sealed_control ctype expected inner s =
      control ctype expected
        (signed_envelope cfg draws (msg_code MsgType.control) s.server_keys.version inner s
          >>= Envelope.encode)
        s
      then λ resp s1. (parse_envelope resp >>= λ env. decrypt_response cfg draws env s1, s1)

  unfoldable pub sync_registry : IdentityKind → Session → Step (List RegistryEntry)
  unfolding sealed_control
  sync_registry kind s =
      sealed_control (control_code ControlType.registry_sync_req)
        (control_code ControlType.registry_sync_resp) (kind_to_code kind ∷ []) s
      then λ plain s1. (parse_registry_snapshot plain, s1)

  -- `rotate`: a refusal rolls the client's own engine back.
  unfoldable pub rotate : Session → Step (Unit {0})
  unfolding sealed_control parse_status_inner
  rotate s =
      on_identity (Identity.generate_successor cfg draws.pairs draws.now) s
      then λ (cred, signature, payload) s1.
          sealed_control (control_code ControlType.rotate_submit)
            (control_code ControlType.rotate_submit_resp) (payload ++ signature) s1
          then λ inner s2. (parse_status_inner inner, s2) then λ (status, message) s3.
              if not (status == 0)
              then on_identity (Identity.rollback cfg draws.now) s3
              then (λ _ s4. (raise Code.rotate_rejected, s4))
              else on_identity (Identity.checkpoint cfg draws.now) s3

  unfoldable checkpoint_rotation : Session → Step Bool
  unfolding sealed_control parse_status_inner
  checkpoint_rotation s =
      sealed_control (control_code ControlType.rotate_checkpoint)
        (control_code ControlType.rotate_checkpoint_resp) [] s
      then λ inner s1. (parse_status_inner inner, s1) then λ (status, message) s2.
          if not (status == 0)
          then (ok false, s2)
          else on_identity (Identity.checkpoint cfg draws.now) s2 then (λ _ s3. (ok true, s3))

  unfoldable rollback_rotation : Session → Step (Unit {0})
  unfolding sealed_control parse_status_inner
  rollback_rotation s =
      sealed_control (control_code ControlType.rotate_rollback)
        (control_code ControlType.rotate_rollback_resp) [] s
      then λ inner s1. (parse_status_inner inner, s1) then λ (status, message) s2.
          if not (status == 0)
          then (raise Code.rotate_rejected, s2)
          else on_identity (Identity.rollback cfg draws.now) s2
