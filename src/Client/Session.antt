-- ===== src/Client/Session.antt =====
-- client/sih_client/session.py: `ClientSession`. The connection is the pieces that come from the peer and
-- the frames that were sent; one that raised while a frame was read is not read again. What a call
-- draws (clock, identifiers, nonce, key pairs) is an argument.
pub mod Control
use secupload.Base.{
  ℕ, ◌==◌, not, if◌then◌else◌, Bool, true, false, List, [], ◌∷◌, ◌++◌, Bytes, Option, none, some,
  ◌&&◌,
}
use secupload.Base.Int.{ℤ, pos}
use secupload.Base.Result.{Result, ok, err, Error, Code, ◌>>=◌, ◌>>◌, guard}
use secupload.Codec.Digits.{to_bytes}
use secupload.Codec.Utf8.{Str}
use secupload.Crypto.{seal_message, open_message, seal_chunk, open_chunk}
use secupload.Framing.{send_frame, recv_frame}
use secupload.Models.{CredentialPublic}
use secupload.Protocol.Aad.{build_aad}
use secupload.Protocol.Codes.{MsgType, msg_code, Op, op_code}
use secupload.Protocol.Envelope
use secupload.Protocol.Envelope.{Envelope, new_envelope, parse_envelope}
use secupload.Protocol.Messages.{
  RequestMessage, ResponseMessage, encode_request_message, parse_response_message, wrap_encrypted,
  unwrap_encrypted, wrap_encrypted_chunk, unwrap_encrypted_chunk,
}
use secupload.Server.Connection.{channel_control, channel_relay}
use secupload.Server.Tunnel2.{envelope_aad}
use secupload.Client.Identity
use secupload.Client.Identity.{ClientIdentity, Setting, Fresh, current, current_keys}

-- `ServerKeyState`
pub record ServerKeyState : Type 0 where
  pub version : ℕ
  pub ed25519_public : Bytes
  pub x25519_public : Bytes

pub record Session : Type 0 where
  pub identity : ClientIdentity
  pub server_keys : ServerKeyState
  pub connected : Bool
  pub inbound : List Bytes
  pub outbound : List Bytes

abbrev pub Step : Type 0 → Type 0
Step A = Result A × Session

-- What a call draws: `self._now()`, `int(time.time())`, two results of `uuid4`, the nonce, the ephemeral
-- key pair of the encryption, and the key pairs of a successor.
pub record Draws : Type 0 where
  pub now : ℕ
  pub wall_clock : ℕ
  pub unknown : ℕ
  pub request_id : ℕ
  pub nonce : Bytes
  pub ephemeral : Bytes × Bytes
  pub pairs : Fresh

infixl 5 ◌then◌
abbrev pub ◌then◌ : {A B : Type 0} → Step A → (A → Session → Step B) → Step B
(err x, s) then rest = (err x, s)
(ok a, s) then rest = rest a s

abbrev pub raise : {A : Type 0} → Code → Result A
raise c = err (Error.client_error c)

-- `send_frame(self._sock_required(), …)` and the frame that answers, on the channel that is expected.
unfoldable pub receive : ℕ → Session → Step Bytes
receive channel s = elim (recv_frame s.inbound) [
  | err x ↦ (err x, record s { inbound = [] })
  | ok (c, payload, left) ↦
      let s1 = record s { inbound = left } in
      if c == channel then (ok payload, s1) else (raise Code.bad_channel, s1)
]

-- The message is made before the socket is asked for, and its bytes after that.
unfoldable pub exchange : {A : Type 0} → ℕ → (A → Result Bytes) → Result A → Session → Step Bytes
unfolding receive
exchange channel encode message s = elim message [
  | err x ↦ (err x, s)
  | ok a ↦
      if not s.connected
      then (raise Code.not_connected, s)
      else elim (encode a >>= send_frame channel) [
        | err x ↦ (err x, s)
        | ok frame ↦ receive channel (record s { outbound = s.outbound ++ frame ∷ [] })
      ]
]

-- `_adopt_piggyback`: whatever version a response names becomes the server's key state.
unfoldable adopt_piggyback : ResponseMessage → Session → Session
adopt_piggyback response s = if response.server_key_version == 0 then s else record s {
  server_keys = record {
    version = response.server_key_version;
    ed25519_public = response.server_ed25519_public;
    x25519_public = response.server_x25519_public;
  };
}

module _ (cfg : Setting) (draws : Draws) where
  -- An envelope of this client, not signed yet.
  unfoldable pub own_envelope : ℕ → ℕ → ℕ → ℕ → Bytes → Envelope
  own_envelope msg_type u version timestamp payload =
      new_envelope msg_type u cfg.server_uuid draws.request_id version (pos timestamp) draws.nonce
        payload

  -- The part of `_signed_envelope` that encrypts.
  unfoldable pub sealed_payload : ℕ → ℕ → ℕ → Bytes → Session → Result Bytes
  unfolding own_envelope envelope_aad
  sealed_payload u version server_version inner s =
      build_aad (envelope_aad (own_envelope (msg_code MsgType.request) u version draws.now []) 0)
      >>= λ aad.
          seal_message cfg.prim draws.ephemeral s.server_keys.x25519_public draws.nonce aad inner
          >>= λ (key, ciphertext). wrap_encrypted server_version key draws.nonce ciphertext

  -- `_signed_envelope` with `encrypt=True`
  unfoldable pub signed_envelope : ℕ → ℕ → Bytes → Session → Result Envelope
  unfolding sealed_payload own_envelope
  signed_envelope msg_type server_version inner s =
      Identity.identity_uuid cfg draws.unknown s.identity >>= λ u.
      current cfg s.identity >>= λ cred.
      sealed_payload u cred.version server_version inner s >>= λ payload.
      current_keys cfg s.identity >>= λ pair.
      Envelope.sign cfg.prim (own_envelope msg_type u cred.version draws.now payload) pair.0

  -- `_decrypt_relay_response`, and `_decrypt_control_response`, which has the same text.
  unfoldable pub decrypt_response : Envelope → Session → Result Bytes
  unfolding envelope_aad
  decrypt_response env s =
      unwrap_encrypted env.payload >>= λ (version, ephemeral, nonce, ciphertext).
      build_aad (envelope_aad env 0) >>= λ aad. current_keys cfg s.identity >>= λ pair.
      open_message cfg.prim pair.1 ephemeral nonce aad ciphertext

  -- `_recv_relay_response` on the payload that came.
  unfoldable read_response : Bytes → Session → Step ResponseMessage
  unfolding decrypt_response adopt_piggyback
  read_response payload s =
      elim (parse_envelope payload >>= λ env. decrypt_response env s >>= parse_response_message) [
        | err x ↦ (err x, s)
        | ok response ↦ (ok response, adopt_piggyback response s)
      ]

  -- `request`
  unfoldable pub request : RequestMessage → Session → Step ResponseMessage
  unfolding signed_envelope exchange read_response
  request message s =
      exchange channel_relay Envelope.encode
        (encode_request_message message >>= λ inner.
          signed_envelope (msg_code MsgType.request) s.server_keys.version inner s)
        s
      then read_response

  -- The envelope of a chunk: it is signed once without a payload, and again with it.
  unfoldable pub chunk_envelope : ℕ → ℕ → Bytes → Session → Result Envelope
  unfolding own_envelope envelope_aad
  chunk_envelope object_uuid index text s =
      Identity.identity_uuid cfg draws.unknown s.identity >>= λ u.
      current cfg s.identity >>= λ cred. current_keys cfg s.identity >>= λ pair.
      Envelope.sign cfg.prim
        (own_envelope (msg_code MsgType.obj_chunk) u cred.version draws.wall_clock []) pair.0
      >>= λ first. build_aad (envelope_aad first index) >>= λ aad.
          seal_chunk cfg.prim draws.ephemeral s.server_keys.x25519_public (to_bytes 16 object_uuid)
            index aad text
          >>= λ (key, ciphertext).
              wrap_encrypted_chunk s.server_keys.version object_uuid index key ciphertext
              >>= λ payload. Envelope.sign cfg.prim (record first { payload = payload }) pair.0

  -- `send_chunk`
  unfoldable pub send_chunk : ℕ → ℕ → Bytes → Session → Step ResponseMessage
  unfolding chunk_envelope exchange read_response
  send_chunk object_uuid index text s =
      exchange channel_relay Envelope.encode (chunk_envelope object_uuid index text s) s
      then read_response

  -- The chunk that an answer carries, or the refusal that it is.
  unfoldable pub open_chunk_reply : ℕ → ℕ → Envelope → Session → Result Bytes
  unfolding envelope_aad
  open_chunk_reply object_uuid index env s =
      unwrap_encrypted_chunk env.payload >>= λ (version, obj, resp_index, ephemeral, ciphertext).
      guard ((obj == object_uuid) && (resp_index == index)) (Error.client_error Code.bad_chunk)
      >> build_aad (envelope_aad env index)
      >>= λ aad. current_keys cfg s.identity >>= λ pair.
          open_chunk cfg.prim pair.1 (to_bytes 16 object_uuid) index aad ephemeral ciphertext

  unfoldable refused_chunk : Envelope → Session → Result Bytes
  unfolding decrypt_response
  refused_chunk env s =
      decrypt_response env s >>= parse_response_message >>= λ _. raise Code.chunk_read_rejected

  unfoldable read_chunk_reply : ℕ → ℕ → Bytes → Session → Result Bytes
  unfolding open_chunk_reply refused_chunk
  read_chunk_reply object_uuid index payload s = parse_envelope payload >>= λ env.
      if not (env.msg_type == msg_code MsgType.obj_chunk)
      then refused_chunk env s
      else open_chunk_reply object_uuid index env s

  -- `request_chunk`: the chunk's index travels as the file size.
  unfoldable pub request_chunk : ℕ → ℕ → Session → Step Bytes
  unfolding signed_envelope exchange read_chunk_reply
  request_chunk object_uuid index s =
      exchange channel_relay Envelope.encode
        (encode_request_message (record {
          op = op_code Op.read_chunk;
          object_uuid = some object_uuid;
          file_type = [];
          file_size = index;
          metadata = [];
        })
          >>= λ inner. signed_envelope (msg_code MsgType.request) s.server_keys.version inner s)
        s
      then λ payload s1. (read_chunk_reply object_uuid index payload s1, s1)
