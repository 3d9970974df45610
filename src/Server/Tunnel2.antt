-- ===== src/Server/Tunnel2.antt =====
-- server/sih_server/tunnel2.py: the application requests of the relay channel, and the envelopes that
-- answer them. SHA-256's hexadecimal form is a parameter, and so are the fresh key pair and nonce.
pub mod Sealing
pub mod Permission
use secupload.Base.{
  ℕ, ◌==◌, leb, if◌then◌else◌, Bool, true, false, List, [], ◌∷◌, ◌++◌, take, length, Bytes, Option,
  none, some, not, ◌*◌,
}
use secupload.Base.Dict.{lookup}
use secupload.Base.Int.{ℤ, pos}
use secupload.Base.Result.{Result, ok, err, Error, Code, ◌>>=◌, ◌>>◌}
use secupload.Codec.Digits.{to_bytes, from_bytes}
use secupload.Codec.Utf8
use secupload.Codec.Utf8.{Str}
use secupload.Crypto.{Primitives, open_message, open_chunk, seal_message}
use secupload.Models.{IdentityKind, ObjectInfo}
use secupload.Protocol.Aad.{AadFields, build_aad}
use secupload.Protocol.Codes.{
  Op, op_code, MsgType, msg_code, ControlType, control_code, RespStatus, resp_code,
}
use secupload.Protocol.Envelope
use secupload.Protocol.Envelope.{Envelope, new_envelope}
use secupload.Protocol.Messages.{
  RequestMessage, ResponseMessage, parse_request_message, encode_response_message, wrap_encrypted,
  unwrap_encrypted, unwrap_encrypted_chunk,
}
use secupload.Server.Authorization.{check_permission, read, write}
use secupload.Server.Database.{EventType, AuditResult, record_event}
use secupload.Server.Objects.{Store, info, create, write_chunk, read_chunk, finalize}

abbrev pub chunk_size : ℕ
chunk_size = 64 * 1024

-- The associated data of an envelope's payload.
unfoldable pub envelope_aad : Envelope → ℕ → AadFields
envelope_aad env chunk_index = record {
  sender_uuid = env.sender_uuid;
  recipient_uuid = env.recipient_uuid;
  request_id = env.request_id;
  sender_credential_version = env.sender_credential_version;
  timestamp = env.timestamp;
  nonce = env.nonce;
  chunk_index = chunk_index;
}

-- `_error_response`
unfoldable pub error_response : Str → ResponseMessage
error_response message = record {
  status = resp_code RespStatus.error;
  message = message;
  object_uuid = none;
  file_type = [];
  file_size = 0;
  content_integrity = [];
  server_key_version = 0;
  server_ed25519_public = [];
  server_x25519_public = [];
  server_successor_signature = [];
  server_prev_version = 0;
}

-- `_info_response`
unfoldable info_response : ObjectInfo → ResponseMessage
info_response i = record {
  status = resp_code RespStatus.success;
  message = [];
  object_uuid = some i.object_uuid;
  file_type = i.file_type;
  file_size = i.file_size;
  content_integrity = i.content_integrity;
  server_key_version = 0;
  server_ed25519_public = [];
  server_x25519_public = [];
  server_successor_signature = [];
  server_prev_version = 0;
}

-- `_token_identity`: the first 32 hexadecimal digits of the digest.
unfoldable pub token_identity : (Bytes → Bytes) → Str → IdentityKind → Result ℕ
token_identity sha256 token kind =
    let prefix = elim kind as (λ _. Bytes) [
      | IdentityKind.proxy ↦ b'p' ∷ b'r' ∷ b'o' ∷ b'x' ∷ b'y' ∷ []
      | _ ↦ b'c' ∷ b'l' ∷ b'i' ∷ b'e' ∷ b'n' ∷ b't' ∷ []
    ] in
    Utf8.encode token >>= λ b. ok (from_bytes (take 16 (sha256 (prefix ++ b))))

-- An answer before it is encrypted: an encoded response, or a chunk of an object.
pub data Reply : Type 0 where
  message : Bytes → Reply
  chunk : ℕ → ℕ → Bytes → Reply

abbrev as_reply : Result Bytes → Result Reply
as_reply (ok b) = ok (Reply.message b)
as_reply (err x) = err x

abbrev accessed : ℕ → Store → Store
accessed u s = record s {
  db = record_event EventType.object_access u none AuditResult.granted s.db;
}

-- The end of a handler: the audit record, then the encoding of the object's information.
unfoldable pub answer_info : ℕ → ObjectInfo → Store → Result Reply × Store
unfolding info_response
answer_info sender i s = (as_reply (encode_response_message (info_response i)), accessed sender s)

-- `_handle_write`, with the permission known
unfoldable write_permitted : (ℕ → Str) → ℕ → ℕ → RequestMessage → Store → Result Reply × Store
unfolding answer_info
write_permitted path sender u request s =
    let (r, s1) = create path sender u request.file_type request.file_size request.metadata s in
    elim r [ err x ↦ (err x, s1) | ok i ↦ answer_info sender i s1 ]

unfoldable pub handle_write : (ℕ → Str) → ℕ → RequestMessage → Store → Result Reply × Store
unfolding write_permitted
handle_write path sender request s = elim request.object_uuid [
  | none ↦ (err (Error.object_store_error Code.bad_request), s)
  | some u ↦ elim (check_permission s.db sender u write) [
    | err x ↦ (err x, s)
    | ok _ ↦ write_permitted path sender u request s
  ]
]

unfoldable read_permitted : ℕ → ℕ → Store → Result Reply × Store
unfolding answer_info
read_permitted sender u s = elim (info u s.db) [
  | err x ↦ (err x, s)
  | ok i ↦ answer_info sender i s
]

unfoldable pub handle_read : ℕ → RequestMessage → Store → Result Reply × Store
unfolding read_permitted
handle_read sender request s = elim request.object_uuid [
  | none ↦ (err (Error.object_store_error Code.bad_request), s)
  | some u ↦ elim (check_permission s.db sender u read) [
    | err x ↦ (err x, s)
    | ok _ ↦ read_permitted sender u s
  ]
]

-- The index of a chunk travels in the field `file_size`; an empty chunk is out of range.
unfoldable pub read_chunk_permitted : ℕ → ℕ → ℕ → Store → Result Reply × Store
read_chunk_permitted sender u index s = elim (read_chunk u index chunk_size s) [
  | err x ↦ (err x, s)
  | ok [] ↦ (err (Error.object_store_error Code.not_found), s)
  | ok (b ∷ bs) ↦ (ok (Reply.chunk u index (b ∷ bs)), accessed sender s)
]

unfoldable pub handle_read_chunk : ℕ → RequestMessage → Store → Result Reply × Store
unfolding read_chunk_permitted
handle_read_chunk sender request s = elim request.object_uuid [
  | none ↦ (err (Error.object_store_error Code.bad_request), s)
  | some u ↦ elim (check_permission s.db sender u read) [
    | err x ↦ (err x, s)
    | ok _ ↦ read_chunk_permitted sender u request.file_size s
  ]
]

-- The operations of `_dispatch`. `unknown` is the text "unknown operation".
unfoldable pub handle_request : (ℕ → Str) → Str → ℕ → RequestMessage → Store → Result Reply × Store
unfolding handle_write handle_read handle_read_chunk
handle_request path unknown sender request s =
    if request.op == op_code Op.write
    then handle_write path sender request s
    else if request.op == op_code Op.read
    then handle_read sender request s
    else if request.op == op_code Op.read_chunk
    then handle_read_chunk sender request s
    else (as_reply (encode_response_message (error_response unknown)), s)

-- The part of `_handle_obj_chunk` after the chunk is written: `i` is the information read before an
-- object that is complete is finalized.
unfoldable pub complete_chunk : (Bytes → Str) → ℕ → ℕ → ObjectInfo → Store → Result Reply × Store
unfolding answer_info
complete_chunk hex sender u i s = elim (lookup u s.files) [
  | none ↦ (err Error.os_error, s)
  | some b ↦
      if not (leb i.file_size (length b))
      then answer_info sender i s
      else let (r, s1) = finalize hex u s in
        elim r [ err x ↦ (err x, s1) | ok _ ↦ answer_info sender i s1 ]
]

unfoldable pub chunk_permitted : (Bytes → Str) → ℕ → ℕ → ℕ → Bytes → Store → Result Reply × Store
unfolding complete_chunk
chunk_permitted hex sender u index data_ s =
    let (r, s1) = write_chunk u index data_ s in
    elim r [
      | err x ↦ (err x, s1)
      | ok _ ↦ elim (info u s1.db) [ err x ↦ (err x, s1) | ok i ↦ complete_chunk hex sender u i s1 ]
    ]

-- `_handle_obj_chunk` on the decrypted chunk
unfoldable pub handle_chunk : (Bytes → Str) → ℕ → ℕ → ℕ → Bytes → Store → Result Reply × Store
unfolding chunk_permitted
handle_chunk hex sender u index data_ s = elim (check_permission s.db sender u write) [
  | err x ↦ (err x, s)
  | ok _ ↦ chunk_permitted hex sender u index data_ s
]

module _ (prim : Primitives) where
  -- `_decrypt_to`
  unfoldable pub decrypt_to : Envelope → Bytes → Result Bytes
  unfolding envelope_aad
  decrypt_to env x25519_private =
      unwrap_encrypted env.payload >>= λ (version, ephemeral, nonce, ciphertext).
      build_aad (envelope_aad env 0) >>= λ aad.
      open_message prim x25519_private ephemeral nonce aad ciphertext

  -- `_decrypt_chunk_to`
  unfoldable pub decrypt_chunk_to : Envelope → Bytes → Bytes → Result (ℕ × ℕ × Bytes)
  unfolding envelope_aad
  decrypt_chunk_to env x25519_private payload =
      unwrap_encrypted_chunk payload >>= λ (version, u, index, ephemeral, ciphertext).
      build_aad (envelope_aad env index) >>= λ aad.
      open_chunk prim x25519_private (to_bytes 16 u) index aad ephemeral ciphertext >>= λ text.
      ok (u, index, text)

  -- `_dispatch`
  unfoldable pub dispatch : (ℕ → Str) → Str → Bytes → Envelope → Store → Result Reply × Store
  unfolding decrypt_to handle_request
  dispatch path unknown x25519_private env s =
      elim (decrypt_to env x25519_private >>= parse_request_message) [
        | err x ↦ (err x, s)
        | ok request ↦ handle_request path unknown env.sender_uuid request s
      ]

  -- `_handle_obj_chunk`
  unfoldable pub handle_obj_chunk : (Bytes → Str) → Bytes → Envelope → Store → Result Reply × Store
  unfolding decrypt_chunk_to handle_chunk
  handle_obj_chunk hex x25519_private env s =
      elim (decrypt_chunk_to env x25519_private env.payload) [
        | err x ↦ (err x, s)
        | ok (u, index, text) ↦ handle_chunk hex env.sender_uuid u index text s
      ]

  -- The envelope of an answer before its payload is known.
  unfoldable pub outgoing : Envelope → ℕ → ℕ → ℤ → Bytes → Bytes → Envelope
  outgoing req server version timestamp nonce payload =
      new_envelope (msg_code MsgType.request) server req.sender_uuid req.request_id version
        timestamp nonce payload

  -- The payload of an answer: `_build_outgoing` with `encrypt=True`, as every caller has it.
  unfoldable pub outgoing_payload :
      Bytes × Bytes → Envelope → ℕ → ℕ → Bytes → Bytes → Bytes → ℤ → Result Bytes
  unfolding outgoing envelope_aad
  outgoing_payload ephemeral req server version inner client nonce timestamp =
      build_aad (envelope_aad (outgoing req server version timestamp nonce []) 0) >>= λ aad.
      seal_message prim ephemeral client nonce aad inner >>= λ (public_key, ciphertext).
      wrap_encrypted req.sender_credential_version public_key nonce ciphertext

  -- `_build_outgoing` under a given private key
  unfoldable pub build_outgoing :
      Bytes × Bytes → Bytes → Envelope → ℕ → ℕ → Bytes → Bytes → Bytes → ℤ → Result Envelope
  unfolding outgoing_payload outgoing
  build_outgoing ephemeral private_key req server version inner client nonce timestamp =
      outgoing_payload ephemeral req server version inner client nonce timestamp >>= λ payload.
      Envelope.sign prim (outgoing req server version timestamp nonce payload) private_key
