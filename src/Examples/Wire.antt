-- ===== src/Examples/Wire.antt =====
-- Messages encoded and parsed back.
use secupload.Base.{ℕ, ◌≡◌, refl, [], ◌∷◌, none, some, replicate}
use secupload.Base.Int.{pos, negsuc}
use secupload.Base.Result.{ok}
use secupload.Protocol.Aad.{AadFields, build_aad, build_aad-injective}
use secupload.Protocol.Entries.{
  RegistryEntry, encode_registry_snapshot, parse_registry_snapshot, snapshot_round_trip,
}
use secupload.Protocol.Envelope
use secupload.Protocol.Envelope.{Envelope, parse_envelope}
use secupload.Protocol.Envelope.RoundTrip.{envelope_round_trip}
use secupload.Protocol.Messages.{RequestMessage, ResponseMessage}
use secupload.Examples.Data.{bytes_of}

abbrev envelope : Envelope
envelope = record {
  msg_type = 1;
  sender_uuid = 7;
  recipient_uuid = 8;
  request_id = 9;
  sender_credential_version = 2;
  timestamp = negsuc 4;
  nonce = replicate 12 3;
  payload = 1 ∷ 2 ∷ 3 ∷ [];
  version = 1;
  signature = replicate 64 5;
}

envelope_round_trip_example : parse_envelope (bytes_of (Envelope.encode envelope)) ≡ ok envelope
unfolding Envelope.encode Envelope.signed_bytes Envelope.pack_header secupload.Codec.Encoder.finish
    secupload.Codec.Encoder.◌≫◌ secupload.Codec.Encoder.u8 secupload.Codec.Encoder.uuid_bytes
    secupload.Codec.Encoder.u32 secupload.Codec.Encoder.i64 secupload.Codec.Digits.fits_i64
envelope_round_trip_example =
    envelope_round_trip envelope (bytes_of (Envelope.encode envelope)) refl refl refl refl

abbrev fields : AadFields
fields = record {
  sender_uuid = 7;
  recipient_uuid = 8;
  request_id = 9;
  sender_credential_version = 2;
  timestamp = pos 1000;
  nonce = replicate 12 3;
  chunk_index = 5;
}

build_aad-injective_example : fields ≡ fields
unfolding build_aad secupload.Codec.Encoder.finish secupload.Codec.Encoder.◌≫◌
    secupload.Codec.Encoder.bytes_ secupload.Codec.Encoder.uuid_ secupload.Codec.Encoder.i64
    secupload.Codec.Digits.fits_i64 secupload.Codec.Encoder.u64
build_aad-injective_example =
    build_aad-injective fields fields (bytes_of (build_aad fields)) refl refl

abbrev entry : ℕ → RegistryEntry
entry version = record {
  identity_uuid = 7;
  version = version;
  status = 2;
  ed25519_public = replicate 32 version;
  x25519_public = replicate 32 version;
  created_at = pos 100;
  validation_deadline = pos 0;
  activation_time = pos 150;
  expiration_time = pos 250;
}

snapshot_round_trip_example :
    parse_registry_snapshot (bytes_of (encode_registry_snapshot (entry 1 ∷ entry 2 ∷ [])))
    ≡ ok (entry 1 ∷ entry 2 ∷ [])
unfolding encode_registry_snapshot secupload.Codec.Encoder.finish secupload.Codec.Encoder.◌≫◌
    secupload.Codec.Encoder.u32 secupload.Protocol.Entries.encode_registry_entry
    secupload.Codec.Encoder.uuid_ secupload.Codec.Encoder.u8 secupload.Codec.Encoder.bytes_
    secupload.Codec.Encoder.i64 secupload.Codec.Digits.fits_i64 secupload.Codec.Digits.to_bytes
snapshot_round_trip_example =
    snapshot_round_trip (entry 1 ∷ entry 2 ∷ [])
      (bytes_of (encode_registry_snapshot (entry 1 ∷ entry 2 ∷ []))) refl

abbrev request : RequestMessage
request = record {
  op = 1;
  object_uuid = some 77;
  file_type = 0x61 ∷ 0xe9 ∷ [];
  file_size = 100_000;
  metadata = [];
}

abbrev response : ResponseMessage
response = record {
  status = 0;
  message = 0x6f ∷ 0x6b ∷ [];
  object_uuid = none;
  file_type = [];
  file_size = 0;
  content_integrity = [];
  server_key_version = 3;
  server_ed25519_public = replicate 32 1;
  server_x25519_public = replicate 32 2;
  server_successor_signature = replicate 64 0;
  server_prev_version = 2;
}
