-- ===== src/Server/Connection/Relay.antt =====
-- server/sih_server/tunnel2.py: the relay channel: authenticated requests and chunks, answered by an
-- encrypted response or chunk.
use secupload.Base.{ℕ, ◌==◌, if◌then◌else◌, Bytes, []}
use secupload.Base.Int.{pos}
use secupload.Base.Result.{Result, ok, err, Error, ◌>>=◌}
use secupload.Codec.Digits.{to_bytes}
use secupload.Crypto.{seal_chunk}
use secupload.Framing.{send_frame}
use secupload.Models.{CredentialPublic}
use secupload.Protocol.Aad.{build_aad}
use secupload.Protocol.Codes.{MsgType, msg_code}
use secupload.Protocol.Envelope
use secupload.Protocol.Envelope.{Envelope, parse_envelope, new_envelope}
use secupload.Protocol.Messages.{encode_response_message, wrap_encrypted_chunk}
use secupload.Server.Registry.{get_credential}
use secupload.Server.Tunnel2.{Reply, dispatch, handle_obj_chunk, error_response, envelope_aad}
use secupload.Server.Connection.{
  World, Setting, Draws, Handled, ◌then◌, on_store, database, as_tunnel2, authenticated,
  server_credential, server_keys, signed_answer, sealed_reply, known_sender, channel_relay,
}

module _ (cfg : Setting) (draws : Draws) where
  -- The `try` block of `_handle_relay`.
  unfoldable pub serve : Envelope → World → Handled Reply
  serve env w = authenticated cfg draws env w then λ _ w1. server_keys cfg draws w1 then λ pair w2.
      if env.msg_type == msg_code MsgType.obj_chunk
      then on_store (handle_obj_chunk cfg.prim cfg.hex pair.1 env) w2
      else on_store (dispatch cfg.prim cfg.path cfg.unknown_operation pair.1 env) w2

  abbrev error_reply : Error → World → Handled Reply
  error_reply x w =
      (encode_response_message (error_response (cfg.message x)) >>= λ b. ok (Reply.message b), w)

  -- The exceptions that become an answer; the others end the connection.
  unfoldable pub reply_of : Handled Reply → Handled Reply
  reply_of (ok reply, w) = (ok reply, w)
  reply_of (err (Error.auth_error c), w) = error_reply (Error.auth_error c) w
  reply_of (err (Error.authorization_error c), w) = error_reply (Error.authorization_error c) w
  reply_of (err (Error.object_store_error c), w) = error_reply (Error.object_store_error c) w
  reply_of (err (Error.registry_error c), w) = error_reply (Error.registry_error c) w
  reply_of (err x, w) = (err x, w)

  -- The envelope of a chunk before its payload is known.
  unfoldable pub chunk_envelope : Envelope → ℕ → Bytes → Envelope
  chunk_envelope req version payload =
      new_envelope (msg_code MsgType.obj_chunk) cfg.server_uuid req.sender_uuid req.request_id
        version (pos draws.now) draws.nonce payload

  -- The payload of the answer that carries a chunk.
  unfoldable pub chunk_payload : Envelope → ℕ → Bytes → ℕ → ℕ → Bytes → Result Bytes
  unfolding chunk_envelope envelope_aad
  chunk_payload req version client object_uuid index text =
      build_aad (envelope_aad (chunk_envelope req version []) index) >>= λ aad.
      seal_chunk cfg.prim draws.ephemeral client (to_bytes 16 object_uuid) index aad text
      >>= λ (key, ciphertext).
          wrap_encrypted_chunk req.sender_credential_version object_uuid index key ciphertext

  -- The envelope that answers, for either form of a reply.
  unfoldable pub reply_envelope :
      Reply → Envelope → CredentialPublic → CredentialPublic → World → Handled Envelope
  unfolding chunk_payload chunk_envelope sealed_reply signed_answer
  reply_envelope (Reply.message b) req server client w =
      sealed_reply cfg draws req server.version b client.x25519_public w
  reply_envelope (Reply.chunk u index text) req server client w =
      signed_answer cfg draws (chunk_envelope req server.version)
        (chunk_payload req server.version client.x25519_public u index text) w

  -- `_handle_relay` on a parsed envelope.
  unfoldable pub relay_envelope : Envelope → World → Handled Bytes
  unfolding serve reply_of reply_envelope
  relay_envelope env w = reply_of (serve env w) then λ reply w1.
      server_credential cfg draws w1 then λ server w2.
      (
        known_sender (get_credential (database w2) env.sender_uuid env.sender_credential_version),
        w2,
      )
      then λ client w3. reply_envelope reply env server client w3 then λ out w4.
          (Envelope.encode out >>= send_frame channel_relay, w4)

  -- `_handle_relay`
  unfoldable pub handle_relay : Bytes → World → Handled Bytes
  unfolding relay_envelope
  handle_relay payload w = (as_tunnel2 (parse_envelope payload), w) then relay_envelope
