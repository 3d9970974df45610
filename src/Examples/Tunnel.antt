-- ===== src/Examples/Tunnel.antt =====
-- Frames cut into pieces, and the requests and answers of the relay channel.
use secupload.Base.{ℕ, ◌≡◌, refl, arith, List, [], ◌∷◌, ◌++◌, Bytes, some, replicate}
use secupload.Base.Int.{pos}
use secupload.Base.Result.{ok}
use secupload.Codec.Utf8.{Str}
use secupload.Framing.{send_frame, recv_frame, joined, frame_round_trip}
use secupload.Protocol.Envelope.{Envelope}
use secupload.Protocol.Messages.{RequestMessage}
use secupload.Server.Authorization.{allow, read}
use secupload.Server.Objects.{Store}
use secupload.Server.Database.{PermissionRow}
use secupload.Server.Tunnel2.{build_outgoing, decrypt_to}
use secupload.Server.Tunnel2.Sealing.{Agrees}
use secupload.Examples.Data.{prim, bytes_of}

abbrev cut : List Bytes
cut = (1 ∷ 0 ∷ []) ∷ (0 ∷ 0 ∷ 2 ∷ 8 ∷ []) ∷ (9 ∷ 1 ∷ []) ∷ []

frame_round_trip_example :
    (left : List Bytes) × (recv_frame cut ≡ ok (1, 8 ∷ 9 ∷ [], left)) × (joined left ≡ 1 ∷ [])
unfolding send_frame secupload.Codec.Encoder.finish secupload.Codec.Encoder.◌≫◌
    secupload.Codec.Encoder.u8 secupload.Codec.Encoder.u32 secupload.Codec.Digits.to_bytes joined
frame_round_trip_example =
    frame_round_trip 1 (8 ∷ 9 ∷ []) (bytes_of (send_frame 1 (8 ∷ 9 ∷ []))) (1 ∷ []) cut refl
      (omega arith, (omega arith, (omega arith, tt))) refl

-- A row that denies the read, and one that allows it on another object.
abbrev denying : PermissionRow
denying = record {
  client_uuid = 7;
  object_uuid = 77;
  operation = read;
  policy = b'D' ∷ b'E' ∷ b'N' ∷ b'Y' ∷ [];
}

abbrev elsewhere : PermissionRow
elsewhere = record { client_uuid = 7; object_uuid = 78; operation = read; policy = allow }

abbrev store : Store
store = record {
  files = [];
  db = record {
    clients = 7 ∷ [];
    proxies = [];
    credentials = [];
    permissions = denying ∷ elsewhere ∷ [];
    objects = [];
    audit_events = [];
    enrollment_tokens = [];
    wall_clock = 100;
  };
}

abbrev request : RequestMessage
request = record { op = 2; object_uuid = some 77; file_type = []; file_size = 10; metadata = [] }

abbrev path : ℕ → Str
path u = u ∷ []

agrees : Agrees prim (1 ∷ [], 2 ∷ []) (3 ∷ []) (4 ∷ [])
agrees = record {
  shared = [];
  ours = refl;
  readable = refl;
  theirs = refl;
  decrypts = λ key nonce text aad. refl;
}

abbrev asked : Envelope
asked = record {
  msg_type = 1;
  sender_uuid = 7;
  recipient_uuid = 8;
  request_id = 9;
  sender_credential_version = 2;
  timestamp = pos 100;
  nonce = replicate 12 3;
  payload = [];
  version = 1;
  signature = [];
}

-- The payload: version 2, the ephemeral key, the nonce, and the text as its own ciphertext.
abbrev answer : Envelope
answer = record {
  msg_type = 1;
  sender_uuid = 8;
  recipient_uuid = 7;
  request_id = 9;
  sender_credential_version = 1;
  timestamp = pos 101;
  nonce = replicate 12 5;
  payload =
      0
      ∷ 0
      ∷ 0
      ∷ 2
      ∷ 0
      ∷ 0
      ∷ 0
      ∷ 1
      ∷ 2
      ∷ 0
      ∷ 0
      ∷ 0
      ∷ 12
      ∷ (replicate 12 5 ++ 0 ∷ 0 ∷ 0 ∷ 1 ∷ 6 ∷ []);
  version = 1;
  signature = replicate 64 0;
}

answered :
    build_outgoing prim (1 ∷ [], 2 ∷ []) [] asked 8 1 (6 ∷ []) (4 ∷ []) (replicate 12 5) (pos 101)
    ≡ ok answer
unfolding build_outgoing secupload.Server.Tunnel2.outgoing_payload secupload.Protocol.Aad.build_aad
    secupload.Codec.Encoder.finish secupload.Codec.Encoder.◌≫◌ secupload.Codec.Encoder.bytes_
    secupload.Codec.Encoder.uuid_ secupload.Protocol.Envelope.new_envelope
    secupload.Codec.Encoder.i64 secupload.Codec.Digits.fits_i64 secupload.Codec.Digits.to_bytes
    secupload.Codec.Digits.to_signed secupload.Codec.Encoder.u64 secupload.Codec.Encoder.u32
    secupload.Codec.Encoder.u8 secupload.Codec.Encoder.pack secupload.Codec.Encoder.pack_i64
    secupload.Codec.Encoder.uuid_bytes secupload.Codec.Encoder.write secupload.Crypto.seal_message
    secupload.Crypto.message_key_from_shared secupload.Protocol.Messages.wrap_encrypted
    secupload.Protocol.Envelope.sign secupload.Protocol.Envelope.signed_bytes
    secupload.Protocol.Envelope.pack_header secupload.Protocol.Envelope.header_fields
    secupload.Crypto.sign_ed25519 secupload.Server.Tunnel2.envelope_aad
    secupload.Server.Tunnel2.outgoing
answered = refl
