-- ===== src/Protocol/Envelope/RoundTrip.antt =====
-- An envelope that was encoded is parsed back, and the proxy's header reads agree with the parser.
use secupload.Base.{
  ℕ, ◌^◌, length-replicate, ◌≡◌, refl, arith, ltb, false, [], ◌++◌, length, take-append,
  drop-append, length-append, length-take, Bytes, append_assoc, sym, ◌∙◌, ap, Bool-cases, inl, inr,
  replicate, ltb→lt, le→ltb,
}
use secupload.Base.Result.{ok, >>=-eq-ok, ok-injective}
use secupload.Codec.Decoder
use secupload.Codec.Decoder.{◌>>=◌, pure}
use secupload.Codec.Digits.{to_bytes, length-to_bytes, from_bytes-to_bytes}
use secupload.Codec.Encoder
use secupload.Codec.Encoder.{Encoder, ◌≫◌}
use secupload.Codec.Mirrors.{
  Mirrors, Mirrors-then, Mirrors-last, decode-finish, bind-ok, take_bytes-Mirrors, take_bytes-Reads,
  u8-Mirrors, u32-Mirrors, i64-Mirrors,
}
use secupload.Codec.Sizes.{
  Sized, Sized-then, Sized-write, u8-Sized, u32-Sized, i64-Sized, uuid-Sized,
}
use secupload.Protocol.Envelope.{
  Envelope, Header, fit, header_fields, pack_header, signed_bytes, encode, read_uuid, unpack_header,
  envelope_of, parse_body, parse_envelope,
}

length-fit : (n : ℕ) (b : Bytes) → length (fit n b) ≡ n
length-fit n b = omega (
  arith,
  length-take n (b ++ replicate n 0),
  length-append b (replicate n 0),
  length-replicate {A = ℕ} n 0,
)

-- The header takes 78 bytes.
header_fields-Sized : (env : Envelope) → Sized (header_fields env) 78
unfolding header_fields
header_fields-Sized env = Sized-then (u8-Sized env.version) (
    Sized-then (u8-Sized env.msg_type) (
      Sized-then (uuid-Sized env.sender_uuid) (
        Sized-then (uuid-Sized env.recipient_uuid) (
          Sized-then (uuid-Sized env.request_id) (
            Sized-then (u32-Sized env.sender_credential_version) (
              Sized-then (i64-Sized env.timestamp) (
                Sized-then
                  (Sized-write (ok (fit 12 env.nonce)) 12
                    (λ b h. ap length (sym (ok-injective h)) ∙ length-fit 12 env.nonce))
                  (u32-Sized (length env.payload)))))))))

read_uuid-Mirrors : (u : ℕ) → Mirrors (Encoder.write (Encoder.uuid_bytes u)) read_uuid u
unfolding Encoder.write Encoder.uuid_bytes read_uuid pure
read_uuid-Mirrors u = record {
  part = λ buf out h. elim (Bool-cases (ltb u (256 ^ 16))) [
    | inl fits ↦ (
      to_bytes 16 u,
      ground arith,
      λ rest.
          bind-ok (Decoder.take_bytes 16) _
            (take_bytes-Reads (to_bytes 16 u) 16 (length-to_bytes 16 u) rest)
          ∙ ap (λ x. ok (x, rest)) (from_bytes-to_bytes 16 u (ltb→lt _ _ fits)),
    )
    | inr wide ↦ absurd (ground arith)
  ];
}

-- What the header of an envelope says.
abbrev header_of : Envelope → Header
header_of env = record {
  version = env.version;
  msg_type = env.msg_type;
  sender = env.sender_uuid;
  recipient = env.recipient_uuid;
  request_id = env.request_id;
  cred_version = env.sender_credential_version;
  timestamp = env.timestamp;
  nonce = env.nonce;
  payload_len = length env.payload;
}

fit_exact : (n : ℕ) (b : Bytes) → length b ≡ n → fit n b ≡ b
fit_exact n b h = take-append n b (replicate n 0) h

nonce-Mirrors :
    (nonce : Bytes)
    → length nonce ≡ 12
    → Mirrors (Encoder.write (ok (fit 12 nonce))) (Decoder.take_bytes 12) nonce
unfolding Encoder.write
nonce-Mirrors nonce h = rw (fit_exact 12 nonce h) (take_bytes-Mirrors nonce 12 h)

unpack-pack_header :
    (env : Envelope) (src : Bytes)
    → length env.nonce ≡ 12
    → pack_header env ≡ ok src
    → Decoder.decode unpack_header src ≡ ok (header_of env)
unfolding pack_header header_fields unpack_header
unpack-pack_header env src n h =
    decode-finish
      (Mirrors-then _ (u8-Mirrors env.version) (
        Mirrors-then _ (u8-Mirrors env.msg_type) (
          Mirrors-then _ (read_uuid-Mirrors env.sender_uuid) (
            Mirrors-then _ (read_uuid-Mirrors env.recipient_uuid) (
              Mirrors-then _ (read_uuid-Mirrors env.request_id) (
                Mirrors-then _ (u32-Mirrors env.sender_credential_version) (
                  Mirrors-then _ (i64-Mirrors env.timestamp) (
                    Mirrors-then _ (nonce-Mirrors env.nonce n)
                      (Mirrors-last _ (u32-Mirrors (length env.payload)))))))))))
      h

length-pack_header : (env : Envelope) (src : Bytes) → pack_header env ≡ ok src → length src ≡ 78
unfolding pack_header Encoder.finish
length-pack_header env src h = omega (arith, (header_fields-Sized env).size [] src h)

parse_body-lem :
    (env : Envelope)
    → env.version ≡ 1
    → length env.signature ≡ 64
    → parse_body (env.payload ++ env.signature) (header_of env) ≡ ok env
unfolding parse_body envelope_of
parse_body-lem env v s = ground (
  arith,
  take-append (length env.payload) env.payload env.signature refl,
  drop-append (length env.payload) env.payload env.signature refl,
)

parse_parts :
    (env : Envelope) (p : Bytes)
    → env.version ≡ 1
    → length env.signature ≡ 64
    → length p ≡ 78
    → Decoder.decode unpack_header p ≡ ok (header_of env)
    → parse_envelope (p ++ (env.payload ++ env.signature)) ≡ ok env
unfolding parse_envelope
parse_parts env p v s size read =
    let rest = env.payload ++ env.signature in
    let long : ltb (length (p ++ rest)) 142 ≡ false =
      le→ltb _ _ (omega (arith, length-append p rest, length-append env.payload env.signature)) in
    rw (long, take-append 78 p rest size, drop-append 78 p rest size, read) (parse_body-lem env v s)

-- An envelope of the supported version, with a 12-byte nonce and a 64-byte signature, that can be
-- encoded is parsed back from its encoding as it was.
pub envelope_round_trip :
    (env : Envelope) (src : Bytes)
    → env.version ≡ 1
    → length env.nonce ≡ 12
    → length env.signature ≡ 64
    → encode env ≡ ok src
    → parse_envelope src ≡ ok env
unfolding encode signed_bytes
envelope_round_trip env src v n s h =
    let (b, hb, e1) = >>=-eq-ok (signed_bytes env) (λ x. ok (x ++ env.signature)) h in
    let (p, hp, e2) = >>=-eq-ok (pack_header env) (λ x. ok (x ++ env.payload)) hb in
    let whole : src ≡ p ++ (env.payload ++ env.signature) =
      sym (ok-injective e1)
      ∙ ap (λ x. x ++ env.signature) (sym (ok-injective e2))
      ∙ append_assoc p env.payload env.signature in
    rw whole (parse_parts env p v s (length-pack_header env p hp) (unpack-pack_header env p n hp))
