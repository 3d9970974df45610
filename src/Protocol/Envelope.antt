-- ===== src/Protocol/Envelope.antt =====
-- The signed envelope: fixed header, payload, Ed25519 signature.
pub mod RoundTrip
use secupload.Base.{
  ℕ, ◌+◌, ◌-◌, ◌≤◌, ◌<◌, ◌≡◌, refl, arith, ltb, ◌==◌, not, if◌then◌else◌, Bool, true, false, List,
  [], ◌∷◌, ◌++◌, length, take, drop, replicate, Bytes, Option, none, some,
}
use secupload.Base.Int.{ℤ}
use secupload.Base.Result
use secupload.Base.Result.{Result, ok, err, Error}
use secupload.Codec.Decoder
use secupload.Codec.Decoder.{Decoder, ◌>>=◌, ◌>>◌, pure}
use secupload.Codec.Digits.{from_bytes, of_signed}
use secupload.Codec.Encoder
use secupload.Codec.Encoder.{Encoder, ◌≫◌}
use secupload.Crypto.{Primitives, sign_ed25519, verify_ed25519, ed25519_signature_size}

abbrev envelope_version : ℕ
envelope_version = 1

abbrev pub header_size : ℕ
header_size = 78

pub record Envelope : Type 0 where
  pub msg_type : ℕ
  pub sender_uuid : ℕ
  pub recipient_uuid : ℕ
  pub request_id : ℕ
  pub sender_credential_version : ℕ
  pub timestamp : ℤ
  pub nonce : Bytes
  pub payload : Bytes
  pub version : ℕ
  pub signature : Bytes

-- The format `12s` cuts or fills with zeros.
abbrev pub fit : ℕ → Bytes → Bytes
fit n b = take n (b ++ replicate n 0)

-- The format `>BB16s16s16sIq12sI`, field by field.
unfoldable pub header_fields : Envelope → Encoder
header_fields env =
    Encoder.u8 env.version
    ≫ Encoder.u8 env.msg_type
    ≫ Encoder.write (Encoder.uuid_bytes env.sender_uuid)
    ≫ Encoder.write (Encoder.uuid_bytes env.recipient_uuid)
    ≫ Encoder.write (Encoder.uuid_bytes env.request_id)
    ≫ Encoder.u32 env.sender_credential_version
    ≫ Encoder.i64 env.timestamp
    ≫ Encoder.write (ok (fit 12 env.nonce))
    ≫ Encoder.u32 (length env.payload)

unfoldable pub pack_header : Envelope → Result Bytes
unfolding header_fields
pack_header env = Encoder.finish (header_fields env)

unfoldable pub signed_bytes : Envelope → Result Bytes
signed_bytes env = Result.◌>>=◌ (pack_header env) (λ h. ok (h ++ env.payload))

unfoldable pub encode : Envelope → Result Bytes
encode env = Result.◌>>=◌ (signed_bytes env) (λ b. ok (b ++ env.signature))

-- `new_envelope`: not signed yet.
unfoldable pub new_envelope : ℕ → ℕ → ℕ → ℕ → ℕ → ℤ → Bytes → Bytes → Envelope
new_envelope msg_type sender recipient request_id version timestamp nonce payload = record {
  msg_type = msg_type;
  sender_uuid = sender;
  recipient_uuid = recipient;
  request_id = request_id;
  sender_credential_version = version;
  timestamp = timestamp;
  nonce = nonce;
  payload = payload;
  version = envelope_version;
  signature = [];
}

module _ (prim : Primitives) where
  unfoldable pub sign : Envelope → Bytes → Result Envelope
  sign env private_key =
      Result.◌>>=◌ (signed_bytes env)
        λ b. Result.◌>>=◌ (sign_ed25519 prim private_key b) λ s. ok (record env { signature = s })

  -- `except SignatureError`
  abbrev protocol_outcome : Result (Unit {0}) → Result (Unit {0})
  protocol_outcome (ok u) = ok u
  protocol_outcome (err Error.signature_error) = err Error.protocol_error
  protocol_outcome (err e) = err e

  unfoldable pub verify : Envelope → Bytes → Result (Unit {0})
  verify env public_key =
      Result.◌>>=◌ (signed_bytes env)
        λ b. protocol_outcome (verify_ed25519 prim public_key b env.signature)

-- A header as `struct.unpack` reads it; the last field is the payload's length.
pub record Header : Type 0 where
  pub version : ℕ
  pub msg_type : ℕ
  pub sender : ℕ
  pub recipient : ℕ
  pub request_id : ℕ
  pub cred_version : ℕ
  pub timestamp : ℤ
  pub nonce : Bytes
  pub payload_len : ℕ

unfoldable pub read_uuid : Decoder ℕ
read_uuid = do b ← Decoder.take_bytes 16; pure (from_bytes b)

unfoldable pub unpack_header : Decoder Header
unfolding read_uuid
unpack_header = do
  version ← Decoder.u8
  msg_type ← Decoder.u8
  sender ← read_uuid
  recipient ← read_uuid
  request_id ← read_uuid
  cred_version ← Decoder.u32
  timestamp ← Decoder.i64
  nonce ← Decoder.take_bytes 12
  payload_len ← Decoder.u32
  pure (record {
    version = version;
    msg_type = msg_type;
    sender = sender;
    recipient = recipient;
    request_id = request_id;
    cred_version = cred_version;
    timestamp = timestamp;
    nonce = nonce;
    payload_len = payload_len;
  })

unfoldable pub envelope_of : Header → Bytes → Bytes → Envelope
envelope_of h payload signature = record {
  msg_type = h.msg_type;
  sender_uuid = h.sender;
  recipient_uuid = h.recipient;
  request_id = h.request_id;
  sender_credential_version = h.cred_version;
  timestamp = h.timestamp;
  nonce = h.nonce;
  payload = payload;
  version = h.version;
  signature = signature;
}

-- The part of `parse_envelope` after the header; `src` is what follows the header.
unfoldable pub parse_body : Bytes → Header → Result Envelope
unfolding envelope_of
parse_body src h =
    let payload = take h.payload_len src in
    let signature = drop h.payload_len src in
    if not (h.version == envelope_version)
    then err Error.protocol_error
    else if not (length payload == h.payload_len)
    then err Error.protocol_error
    else if not (length signature == ed25519_signature_size)
    then err Error.protocol_error
    else ok (envelope_of h payload signature)

unfoldable pub parse_envelope : Bytes → Result Envelope
parse_envelope src =
    if ltb (length src) (header_size + ed25519_signature_size)
    then err Error.protocol_error
    else Result.◌>>=◌ (Decoder.decode unpack_header (take header_size src))
        (parse_body (drop header_size src))

-- The proxy reads the recipient and the type from the header alone.
unfoldable envelope_recipient : Bytes → Result ℕ
envelope_recipient src =
    if ltb (length src) header_size
    then err Error.protocol_error
    else ok (from_bytes (take 16 (drop 18 src)))

unfoldable envelope_msg_type : Bytes → Result ℕ
envelope_msg_type src =
    if ltb (length src) header_size
    then err Error.protocol_error
    else ok (from_bytes (take 1 (drop 1 src)))
