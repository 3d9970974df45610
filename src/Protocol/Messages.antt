-- ===== src/Protocol/Messages.antt =====
-- The plaintext messages, and the wrapping of encrypted payloads.
use secupload.Base.{ℕ, Bytes, Option, some}
use secupload.Base.Result.{Result, Error}
use secupload.Codec.Decoder
use secupload.Codec.Decoder.{Decoder, ◌>>=◌, ◌>>◌, pure}
use secupload.Codec.Encoder
use secupload.Codec.Encoder.{Encoder, ◌≫◌}
use secupload.Codec.Utf8.{Str}
use secupload.Successor.{or_nil_uuid}

pub record RequestMessage : Type 0 where
  pub op : ℕ
  pub object_uuid : Option ℕ
  pub file_type : Str
  pub file_size : ℕ
  pub metadata : Str

unfoldable pub encode_request_message : RequestMessage → Result Bytes
encode_request_message msg = Encoder.finish (
    Encoder.u8 msg.op
    ≫ Encoder.uuid_ msg.object_uuid
    ≫ Encoder.str_ msg.file_type
    ≫ Encoder.u64 msg.file_size
    ≫ Encoder.str_ msg.metadata)

unfoldable request_fields : Decoder RequestMessage
request_fields = do
  op ← Decoder.u8
  object ← Decoder.uuid_
  kind ← Decoder.str_
  size ← Decoder.u64
  metadata ← Decoder.str_
  pure (record {
    op = op;
    object_uuid = object;
    file_type = kind;
    file_size = size;
    metadata = metadata;
  })

unfoldable pub parse_request_message : Bytes → Result RequestMessage
unfolding request_fields
parse_request_message = Decoder.decode request_fields

pub record ResponseMessage : Type 0 where
  pub status : ℕ
  pub message : Str
  pub object_uuid : Option ℕ
  pub file_type : Str
  pub file_size : ℕ
  pub content_integrity : Str
  pub server_key_version : ℕ
  pub server_ed25519_public : Bytes
  pub server_x25519_public : Bytes
  pub server_successor_signature : Bytes
  pub server_prev_version : ℕ

unfoldable pub encode_response_message : ResponseMessage → Result Bytes
encode_response_message msg = Encoder.finish (
    Encoder.u8 msg.status
    ≫ Encoder.str_ msg.message
    ≫ Encoder.uuid_ msg.object_uuid
    ≫ Encoder.str_ msg.file_type
    ≫ Encoder.u64 msg.file_size
    ≫ Encoder.str_ msg.content_integrity
    ≫ Encoder.u32 msg.server_key_version
    ≫ Encoder.bytes_ msg.server_ed25519_public
    ≫ Encoder.bytes_ msg.server_x25519_public
    ≫ Encoder.bytes_ msg.server_successor_signature
    ≫ Encoder.u32 msg.server_prev_version)

unfoldable response_fields : Decoder ResponseMessage
response_fields = do
  status ← Decoder.u8
  message ← Decoder.str_
  object ← Decoder.uuid_
  kind ← Decoder.str_
  size ← Decoder.u64
  integrity ← Decoder.str_
  key_version ← Decoder.u32
  ed ← Decoder.bytes_
  x ← Decoder.bytes_
  signature ← Decoder.bytes_
  prev ← Decoder.u32
  pure (record {
    status = status;
    message = message;
    object_uuid = object;
    file_type = kind;
    file_size = size;
    content_integrity = integrity;
    server_key_version = key_version;
    server_ed25519_public = ed;
    server_x25519_public = x;
    server_successor_signature = signature;
    server_prev_version = prev;
  })

unfoldable pub parse_response_message : Bytes → Result ResponseMessage
unfolding response_fields
parse_response_message = Decoder.decode response_fields

pub record ControlMessage : Type 0 where
  pub ctype : ℕ
  pub body : Bytes

unfoldable pub encode_control : ℕ → Bytes → Result Bytes
encode_control ctype body = Encoder.finish (Encoder.u8 ctype ≫ Encoder.bytes_ body)

unfoldable pub parse_control : Bytes → Result ControlMessage
parse_control =
    Decoder.decode
      (do ctype ← Decoder.u8; body ← Decoder.bytes_; pure (record { ctype = ctype; body = body }))

unfoldable pub encode_enrollment_body : ℕ → Str → ℕ → Bytes → Bytes → Result Bytes
encode_enrollment_body identity_kind token version ed25519_public x25519_public = Encoder.finish (
    Encoder.u8 identity_kind
    ≫ Encoder.str_ token
    ≫ Encoder.u32 version
    ≫ Encoder.bytes_ ed25519_public
    ≫ Encoder.bytes_ x25519_public)

unfoldable pub parse_enrollment_body : Bytes → Result (ℕ × Str × ℕ × Bytes × Bytes)
parse_enrollment_body = Decoder.decode (do
  kind ← Decoder.u8
  token ← Decoder.str_
  version ← Decoder.u32
  ed ← Decoder.bytes_
  x ← Decoder.bytes_
  pure (kind, token, version, ed, x))

unfoldable pub wrap_encrypted : ℕ → Bytes → Bytes → Bytes → Result Bytes
wrap_encrypted recipient_version ephemeral_public nonce ciphertext = Encoder.finish (
    Encoder.u32 recipient_version
    ≫ Encoder.bytes_ ephemeral_public
    ≫ Encoder.bytes_ nonce
    ≫ Encoder.bytes_ ciphertext)

unfoldable pub unwrap_encrypted : Bytes → Result (ℕ × Bytes × Bytes × Bytes)
unwrap_encrypted = Decoder.decode (do
  version ← Decoder.u32
  ephemeral ← Decoder.bytes_
  nonce ← Decoder.bytes_
  ciphertext ← Decoder.bytes_
  _ ← Decoder.expect_eof Error.protocol_error
  pure (version, ephemeral, nonce, ciphertext))

unfoldable pub wrap_encrypted_chunk : ℕ → ℕ → ℕ → Bytes → Bytes → Result Bytes
wrap_encrypted_chunk recipient_version object_uuid chunk_index ephemeral_public ciphertext =
    Encoder.finish (
      Encoder.u32 recipient_version
      ≫ Encoder.uuid_ (some object_uuid)
      ≫ Encoder.u64 chunk_index
      ≫ Encoder.bytes_ ephemeral_public
      ≫ Encoder.bytes_ ciphertext)

unfoldable pub unwrap_encrypted_chunk : Bytes → Result (ℕ × ℕ × ℕ × Bytes × Bytes)
unwrap_encrypted_chunk = Decoder.decode (do
  version ← Decoder.u32
  object ← Decoder.uuid_
  index ← Decoder.u64
  ephemeral ← Decoder.bytes_
  ciphertext ← Decoder.bytes_
  _ ← Decoder.expect_eof Error.protocol_error
  pure (version, or_nil_uuid object, index, ephemeral, ciphertext))

unfoldable pub encode_server_key_info : ℕ → Bytes → Bytes → ℕ → Bytes → Result Bytes
encode_server_key_info version ed25519_public x25519_public prev_version signature =
    Encoder.finish (
      Encoder.u32 version
      ≫ Encoder.bytes_ ed25519_public
      ≫ Encoder.bytes_ x25519_public
      ≫ Encoder.u32 prev_version
      ≫ Encoder.bytes_ signature)

unfoldable pub parse_server_key_info : Bytes → Result (ℕ × Bytes × Bytes × ℕ × Bytes)
parse_server_key_info = Decoder.decode (do
  version ← Decoder.u32
  ed ← Decoder.bytes_
  x ← Decoder.bytes_
  prev ← Decoder.u32
  signature ← Decoder.bytes_
  pure (version, ed, x, prev, signature))

unfoldable pub encode_enroll_response : ℕ → Str → Bytes → Result Bytes
encode_enroll_response status message server_key_info =
    Encoder.finish (Encoder.u8 status ≫ Encoder.str_ message ≫ Encoder.bytes_ server_key_info)

unfoldable pub parse_enroll_response : Bytes → Result (ℕ × Str × Bytes)
parse_enroll_response = Decoder.decode (do
  status ← Decoder.u8
  message ← Decoder.str_
  info ← Decoder.bytes_
  pure (status, message, info))
