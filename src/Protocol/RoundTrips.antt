-- ===== src/Protocol/RoundTrips.antt =====
-- What one end encodes, the other end parses: the plaintext messages and the wrapped payloads.
use secupload.Base.{ℕ, ◌≡◌, Bytes, some}
use secupload.Base.Result.{ok, Error}
use secupload.Codec.Mirrors.{
  Mirrors-then, Mirrors-last, decode-finish, Mirrors-then_all, Mirrors-last_eof, decode-finish_all,
  u8-Mirrors, u32-Mirrors, u64-Mirrors, bytes-Mirrors, str-Mirrors, uuid-Mirrors,
}
use secupload.Codec.Utf8.{Str}
use secupload.Protocol.Messages.{
  RequestMessage, encode_request_message, parse_request_message, ResponseMessage,
  encode_response_message, parse_response_message, wrap_encrypted, unwrap_encrypted,
  wrap_encrypted_chunk, unwrap_encrypted_chunk, encode_enrollment_body, parse_enrollment_body,
  encode_control, parse_control,
}

-- A request that can be encoded is parsed back from its encoding as it was.
request_round_trip :
    (msg : RequestMessage) (src : Bytes)
    → encode_request_message msg ≡ ok src
    → parse_request_message src ≡ ok msg
unfolding encode_request_message parse_request_message
request_round_trip msg src h =
    decode-finish
      (Mirrors-then _ (u8-Mirrors msg.op) (
        Mirrors-then _ (uuid-Mirrors msg.object_uuid) (
          Mirrors-then _ (str-Mirrors msg.file_type) (
            Mirrors-then _ (u64-Mirrors msg.file_size)
              (Mirrors-last _ (str-Mirrors msg.metadata))))))
      h

-- A response that can be encoded is parsed back from its encoding as it was.
response_round_trip :
    (msg : ResponseMessage) (src : Bytes)
    → encode_response_message msg ≡ ok src
    → parse_response_message src ≡ ok msg
unfolding encode_response_message parse_response_message
response_round_trip msg src h =
    decode-finish
      (Mirrors-then _ (u8-Mirrors msg.status) (
        Mirrors-then _ (str-Mirrors msg.message) (
          Mirrors-then _ (uuid-Mirrors msg.object_uuid) (
            Mirrors-then _ (str-Mirrors msg.file_type) (
              Mirrors-then _ (u64-Mirrors msg.file_size) (
                Mirrors-then _ (str-Mirrors msg.content_integrity) (
                  Mirrors-then _ (u32-Mirrors msg.server_key_version) (
                    Mirrors-then _ (bytes-Mirrors msg.server_ed25519_public) (
                      Mirrors-then _ (bytes-Mirrors msg.server_x25519_public) (
                        Mirrors-then _ (bytes-Mirrors msg.server_successor_signature)
                          (Mirrors-last _ (u32-Mirrors msg.server_prev_version))))))))))))
      h

-- A chunk payload that can be wrapped is unwrapped to the version, object, index, key and ciphertext
-- that went in.
pub chunk_round_trip :
    (version object_uuid index : ℕ) (ephemeral ciphertext src : Bytes)
    → wrap_encrypted_chunk version object_uuid index ephemeral ciphertext ≡ ok src
    → unwrap_encrypted_chunk src ≡ ok (version, object_uuid, index, ephemeral, ciphertext)
unfolding wrap_encrypted_chunk unwrap_encrypted_chunk
chunk_round_trip version object_uuid index ephemeral ciphertext src h =
    decode-finish_all
      (Mirrors-then_all _ (u32-Mirrors version) (
        Mirrors-then_all _ (uuid-Mirrors (some object_uuid)) (
          Mirrors-then_all _ (u64-Mirrors index) (
            Mirrors-then_all _ (bytes-Mirrors ephemeral)
              (Mirrors-last_eof Error.protocol_error _ (bytes-Mirrors ciphertext))))))
      h

-- A message payload that can be wrapped is unwrapped to the version, key, nonce and ciphertext that
-- went in.
pub wrap_round_trip :
    (version : ℕ) (ephemeral nonce ciphertext src : Bytes)
    → wrap_encrypted version ephemeral nonce ciphertext ≡ ok src
    → unwrap_encrypted src ≡ ok (version, ephemeral, nonce, ciphertext)
unfolding wrap_encrypted unwrap_encrypted
wrap_round_trip version ephemeral nonce ciphertext src h =
    decode-finish_all
      (Mirrors-then_all _ (u32-Mirrors version) (
        Mirrors-then_all _ (bytes-Mirrors ephemeral) (
          Mirrors-then_all _ (bytes-Mirrors nonce)
            (Mirrors-last_eof Error.protocol_error _ (bytes-Mirrors ciphertext)))))
      h

-- An enrollment body that can be encoded is parsed back to the kind, token, version and keys that went
-- in.
enrollment_round_trip :
    (kind : ℕ) (token : Str) (version : ℕ) (ed x src : Bytes)
    → encode_enrollment_body kind token version ed x ≡ ok src
    → parse_enrollment_body src ≡ ok (kind, token, version, ed, x)
unfolding encode_enrollment_body parse_enrollment_body
enrollment_round_trip kind token version ed x src h =
    decode-finish
      (Mirrors-then _ (u8-Mirrors kind) (
        Mirrors-then _ (str-Mirrors token) (
          Mirrors-then _ (u32-Mirrors version)
            (Mirrors-then _ (bytes-Mirrors ed) (Mirrors-last _ (bytes-Mirrors x))))))
      h

-- A control message that can be encoded is parsed back to its type and body.
control_round_trip :
    (ctype : ℕ) (body src : Bytes)
    → encode_control ctype body ≡ ok src
    → parse_control src ≡ ok (record { ctype = ctype; body = body })
unfolding encode_control parse_control
control_round_trip ctype body src h =
    decode-finish (Mirrors-then _ (u8-Mirrors ctype) (Mirrors-last _ (bytes-Mirrors body))) h
