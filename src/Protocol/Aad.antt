-- ===== src/Protocol/Aad.antt =====
-- The canonical associated data that the encryption of every payload authenticates.
use secupload.Base.{ℕ, ◌≡◌, [], ◌∷◌, Bytes, some, sym, ◌∙◌}
use secupload.Base.Int.{ℤ}
use secupload.Base.Result.{Result, ok, ok-injective}
use secupload.Codec.Decoder
use secupload.Codec.Decoder.{Decoder, ◌>>=◌, ◌>>◌, pure}
use secupload.Codec.Encoder
use secupload.Codec.Encoder.{Encoder, ◌≫◌}
use secupload.Codec.Mirrors.{
  Mirrors-then, Mirrors-last, decode-finish, u32-Mirrors, u64-Mirrors, i64-Mirrors, bytes-Mirrors,
  uuid-Mirrors,
}
use secupload.Successor.{or_nil_uuid}

-- The arguments of `build_aad`.
pub record AadFields : Type 0 where
  pub sender_uuid : ℕ
  pub recipient_uuid : ℕ
  pub request_id : ℕ
  pub sender_credential_version : ℕ
  pub timestamp : ℤ
  pub nonce : Bytes
  pub chunk_index : ℕ

-- `b"SIH-AAD-1"`
abbrev aad_tag : Bytes
aad_tag = b'S' ∷ b'I' ∷ b'H' ∷ b'-' ∷ b'A' ∷ b'A' ∷ b'D' ∷ b'-' ∷ b'1' ∷ []

unfoldable pub build_aad : AadFields → Result Bytes
build_aad a = Encoder.finish (
    Encoder.bytes_ aad_tag
    ≫ Encoder.uuid_ (some a.sender_uuid)
    ≫ Encoder.uuid_ (some a.recipient_uuid)
    ≫ Encoder.uuid_ (some a.request_id)
    ≫ Encoder.u32 a.sender_credential_version
    ≫ Encoder.i64 a.timestamp
    ≫ Encoder.bytes_ a.nonce
    ≫ Encoder.u64 a.chunk_index)

-- A reader of the same layout. The program has none: it serves the proof below.
aad_fields : Decoder AadFields
aad_fields = do
  tag ← Decoder.bytes_
  sender ← Decoder.uuid_
  recipient ← Decoder.uuid_
  request ← Decoder.uuid_
  version ← Decoder.u32
  timestamp ← Decoder.i64
  nonce ← Decoder.bytes_
  index ← Decoder.u64
  pure (record {
    sender_uuid = or_nil_uuid sender;
    recipient_uuid = or_nil_uuid recipient;
    request_id = or_nil_uuid request;
    sender_credential_version = version;
    timestamp = timestamp;
    nonce = nonce;
    chunk_index = index;
  })

read_back :
    (a : AadFields) (src : Bytes) → build_aad a ≡ ok src → Decoder.decode aad_fields src ≡ ok a
unfolding build_aad aad_fields
read_back a src h =
    decode-finish
      (Mirrors-then _ (bytes-Mirrors aad_tag) (
        Mirrors-then _ (uuid-Mirrors (some a.sender_uuid)) (
          Mirrors-then _ (uuid-Mirrors (some a.recipient_uuid)) (
            Mirrors-then _ (uuid-Mirrors (some a.request_id)) (
              Mirrors-then _ (u32-Mirrors a.sender_credential_version) (
                Mirrors-then _ (i64-Mirrors a.timestamp) (
                  Mirrors-then _ (bytes-Mirrors a.nonce)
                    (Mirrors-last _ (u64-Mirrors a.chunk_index)))))))))
      h

-- Where the associated data of two sets of fields can be built and is the same bytes, all the fields
-- are the same: sender, recipient, request, credential version, timestamp, nonce and chunk index.
pub build_aad-injective :
    (a b : AadFields) (src : Bytes) → build_aad a ≡ ok src → build_aad b ≡ ok src → a ≡ b
build_aad-injective a b src h k = ok-injective (sym (read_back a src h) ∙ read_back b src k)
