-- ===== src/Examples/Client.antt =====
-- Runs of the client: its file, its messages to the server and back, and its loops.
use secupload.Base.{ℕ, ◌≡◌, All, refl, arith, true, [], ◌∷◌, Bytes, replicate}
use secupload.Base.Dict.{lookup}
use secupload.Base.Result.{Result, ok, err}
use secupload.Models.{CredentialPublic}
use secupload.Crypto.{chunk_nonce}
use secupload.Models.{IdentityKind}
use secupload.Protocol.Envelope
use secupload.Protocol.Envelope.{Envelope, parse_envelope}
use secupload.Protocol.Messages.{ResponseMessage}
use secupload.Server.Connection.Relay.{reply_envelope}
use secupload.Server.Tunnel2.{decrypt_to, decrypt_chunk_to, Reply, error_response}
use secupload.Server.Tunnel2.Sealing.{Agrees}
use secupload.Client.Identity
use secupload.Client.Identity.{ClientIdentity, Setting, File, Fresh, save, ensure_loaded}
use secupload.Client.Identity.Reload.{HasByteKeys, restarted, reload-restores}
use secupload.Rotation
use secupload.Client.Session.{
  Session, Draws, signed_envelope, chunk_envelope, decrypt_response, open_chunk_reply,
}
use secupload.Client.Session
use secupload.Client.EndToEnd.{Signs, IsReady, request_reaches_server}
use secupload.Client.Chunks.{
  chunk_reaches_server, answer_reaches_client, served_chunk_reaches_client,
}
use secupload.Examples.Connection
use secupload.Examples.Data.{prim, params, second, settled, settled-IsValid}

abbrev pub setting : Setting
setting = record {
  prim = prim;
  params = params;
  sha256 = λ b. replicate 32 0;
  kind = IdentityKind.client;
  server_uuid = 8;
  enrollment_token = [];
}

abbrev identity : ClientIdentity
identity = record {
  engine = settled;
  keys = (2, (20 ∷ [], 21 ∷ [])) ∷ [];
  enrolled = true;
  file = File.missing;
}

abbrev fresh : Fresh
fresh = ((30 ∷ [], 31 ∷ []), (32 ∷ [], 33 ∷ []))

identity-HasByteKeys : All HasByteKeys (Rotation.all identity.engine)
unfolding Rotation.all Rotation.sorted Rotation.insert_sorted
identity-HasByteKeys =
    (((omega arith, tt), (omega arith, tt)), (((omega arith, tt), (omega arith, tt)), tt))

reload-restores_example :
    let loaded = ensure_loaded setting 5 fresh 90 (restarted setting (save identity)) in
    (loaded.0 ≡ ok tt)
    × ((v : ℕ) → lookup v loaded.1.engine.creds ≡ lookup v settled.creds)
    × ((v : ℕ) → lookup v loaded.1.keys ≡ lookup v identity.keys)
    × (loaded.1.enrolled ≡ true)
reload-restores_example =
    reload-restores setting 7 2 2 5 90 second (20 ∷ [], 21 ∷ []) fresh identity (omega arith)
      settled-IsValid.keyed (refl, (refl, tt)) identity-HasByteKeys refl
      (((omega arith, tt), (omega arith, tt)), tt) (refl, tt) refl

abbrev pub session : Session
session = record {
  identity = identity;
  server_keys = record { version = 1; ed25519_public = 40 ∷ []; x25519_public = 41 ∷ [] };
  connected = true;
  inbound = [];
  outbound = [];
}

abbrev pub draws : Draws
draws = record {
  now = 100;
  wall_clock = 100;
  unknown = 5;
  request_id = 9;
  nonce = replicate 12 3;
  ephemeral = (1 ∷ [], 2 ∷ []);
  pairs = fresh;
}

signs : Signs prim (20 ∷ []) (2 ∷ [])
signs = record {
  accepts = refl;
  verifies = λ text sig made. refl;
  signature_size = λ text sig made. ground arith;
}

pub ready : IsReady setting draws session 7 second (20 ∷ [], 21 ∷ [])
unfolding Identity.identity_uuid secupload.Rotation.all Identity.current secupload.Rotation.active
    secupload.Rotation.by_status Identity.current_keys
ready = record { owner = refl; active = refl; held = refl; nonce_size = refl; signs = signs }

pub agrees : (private_key public_key : Bytes) → Agrees prim (1 ∷ [], 2 ∷ []) private_key public_key
agrees private_key public_key = record {
  shared = [];
  ours = refl;
  readable = refl;
  theirs = refl;
  decrypts = λ key nonce text aad. refl;
}

abbrev envelope_of : Result Envelope → Envelope
envelope_of (ok env) = env
envelope_of (err x) = Connection.stale

abbrev pub bytes_of : Result Bytes → Bytes
bytes_of (ok b) = b
bytes_of (err x) = []

abbrev pub request : Envelope
request = envelope_of (signed_envelope setting draws 1 1 (50 ∷ []) session)

pub request_made : signed_envelope setting draws 1 1 (50 ∷ []) session ≡ ok request
unfolding signed_envelope Session.sealed_payload Session.own_envelope Identity.identity_uuid
    Identity.current Identity.current_keys Identity.keys_of secupload.Rotation.active
    secupload.Rotation.by_status secupload.Rotation.all secupload.Rotation.sorted
    secupload.Rotation.insert_sorted secupload.Protocol.Aad.build_aad
    secupload.Server.Tunnel2.envelope_aad secupload.Crypto.seal_message
    secupload.Crypto.sign_ed25519 secupload.Crypto.message_key_from_shared
    secupload.Protocol.Messages.wrap_encrypted Envelope.new_envelope Envelope.sign
    Envelope.signed_bytes Envelope.pack_header Envelope.header_fields secupload.Codec.Encoder.finish
    secupload.Codec.Encoder.◌≫◌ secupload.Codec.Encoder.bytes_ secupload.Codec.Encoder.uuid_
    secupload.Codec.Encoder.uuid_bytes secupload.Codec.Encoder.u8 secupload.Codec.Encoder.u32
    secupload.Codec.Encoder.u64 secupload.Codec.Encoder.i64 secupload.Codec.Encoder.write
    secupload.Codec.Encoder.pack_i64 secupload.Codec.Digits.to_bytes secupload.Codec.Digits.fits_i64
    secupload.Codec.Digits.to_signed
request_made = refl

pub request_encoded : Envelope.encode request ≡ ok (bytes_of (Envelope.encode request))
unfolding Envelope.encode signed_envelope Session.sealed_payload Session.own_envelope
    Identity.identity_uuid Identity.current Identity.current_keys Identity.keys_of
    secupload.Rotation.active secupload.Rotation.by_status secupload.Rotation.all
    secupload.Rotation.sorted secupload.Rotation.insert_sorted secupload.Protocol.Aad.build_aad
    secupload.Server.Tunnel2.envelope_aad secupload.Crypto.seal_message
    secupload.Crypto.sign_ed25519 secupload.Crypto.message_key_from_shared
    secupload.Protocol.Messages.wrap_encrypted Envelope.new_envelope Envelope.sign
    Envelope.signed_bytes Envelope.pack_header Envelope.header_fields secupload.Codec.Encoder.finish
    secupload.Codec.Encoder.◌≫◌ secupload.Codec.Encoder.bytes_ secupload.Codec.Encoder.uuid_
    secupload.Codec.Encoder.uuid_bytes secupload.Codec.Encoder.u8 secupload.Codec.Encoder.u32
    secupload.Codec.Encoder.u64 secupload.Codec.Encoder.i64 secupload.Codec.Encoder.write
    secupload.Codec.Encoder.pack_i64 secupload.Codec.Digits.to_bytes secupload.Codec.Digits.fits_i64
    secupload.Codec.Digits.to_signed
request_encoded = refl

request_reaches_server_example :
    (parse_envelope (bytes_of (Envelope.encode request)) ≡ ok request)
    × (request.sender_uuid ≡ 7)
    × (request.sender_credential_version ≡ 2)
    × (Envelope.verify prim request (2 ∷ []) ≡ ok tt)
    × (decrypt_to prim request (60 ∷ []) ≡ ok (50 ∷ []))
request_reaches_server_example =
    request_reaches_server setting draws session 7 second (20 ∷ [], 21 ∷ []) 1 1 (50 ∷ []) (60 ∷ [])
      (bytes_of (Envelope.encode request)) request ready (agrees (60 ∷ []) (41 ∷ [])) request_made
      request_encoded

abbrev sent : Envelope
sent = envelope_of (chunk_envelope setting draws 77 4 (50 ∷ 51 ∷ []) session)

chunk_made : chunk_envelope setting draws 77 4 (50 ∷ 51 ∷ []) session ≡ ok sent
unfolding chunk_envelope Session.own_envelope Identity.identity_uuid Identity.current
    Identity.current_keys Identity.keys_of secupload.Rotation.active secupload.Rotation.by_status
    secupload.Rotation.all secupload.Rotation.sorted secupload.Rotation.insert_sorted
    secupload.Protocol.Aad.build_aad secupload.Server.Tunnel2.envelope_aad
    secupload.Crypto.seal_chunk secupload.Crypto.chunk_nonce secupload.Crypto.sign_ed25519
    secupload.Crypto.object_key_from_shared secupload.Protocol.Messages.wrap_encrypted_chunk
    Envelope.new_envelope Envelope.sign Envelope.signed_bytes Envelope.pack_header
    Envelope.header_fields secupload.Codec.Encoder.finish secupload.Codec.Encoder.◌≫◌
    secupload.Codec.Encoder.bytes_ secupload.Codec.Encoder.uuid_ secupload.Codec.Encoder.uuid_bytes
    secupload.Codec.Encoder.u8 secupload.Codec.Encoder.u32 secupload.Codec.Encoder.u64
    secupload.Codec.Encoder.i64 secupload.Codec.Encoder.write secupload.Codec.Encoder.pack_i64
    secupload.Codec.Digits.to_bytes secupload.Codec.Digits.fits_i64 secupload.Codec.Digits.to_signed
chunk_made = refl

chunk_encoded : Envelope.encode sent ≡ ok (bytes_of (Envelope.encode sent))
unfolding Envelope.encode chunk_envelope Session.own_envelope Identity.identity_uuid
    Identity.current Identity.current_keys Identity.keys_of secupload.Rotation.active
    secupload.Rotation.by_status secupload.Rotation.all secupload.Rotation.sorted
    secupload.Rotation.insert_sorted secupload.Protocol.Aad.build_aad
    secupload.Server.Tunnel2.envelope_aad secupload.Crypto.seal_chunk secupload.Crypto.chunk_nonce
    secupload.Crypto.sign_ed25519 secupload.Crypto.object_key_from_shared
    secupload.Protocol.Messages.wrap_encrypted_chunk Envelope.new_envelope Envelope.sign
    Envelope.signed_bytes Envelope.pack_header Envelope.header_fields secupload.Codec.Encoder.finish
    secupload.Codec.Encoder.◌≫◌ secupload.Codec.Encoder.bytes_ secupload.Codec.Encoder.uuid_
    secupload.Codec.Encoder.uuid_bytes secupload.Codec.Encoder.u8 secupload.Codec.Encoder.u32
    secupload.Codec.Encoder.u64 secupload.Codec.Encoder.i64 secupload.Codec.Encoder.write
    secupload.Codec.Encoder.pack_i64 secupload.Codec.Digits.to_bytes secupload.Codec.Digits.fits_i64
    secupload.Codec.Digits.to_signed
chunk_encoded = refl

chunk_reaches_server_example :
    (parse_envelope (bytes_of (Envelope.encode sent)) ≡ ok sent)
    × (Envelope.verify prim sent (2 ∷ []) ≡ ok tt)
    × (decrypt_chunk_to prim sent (60 ∷ []) sent.payload ≡ ok (77, 4, 50 ∷ 51 ∷ []))
chunk_reaches_server_example =
    chunk_reaches_server setting draws session 7 second (20 ∷ [], 21 ∷ []) 77 4 (50 ∷ 51 ∷ [])
      (60 ∷ []) (bytes_of (Envelope.encode sent)) sent ready (agrees (60 ∷ []) (41 ∷ [])) chunk_made
      chunk_encoded

-- The credential of the client that the server answers.
abbrev pub answered_client : CredentialPublic
answered_client = record second { x25519_public = 2 ∷ [] }

abbrev answer : Envelope
answer = envelope_of (
    (reply_envelope Connection.setting Connection.draws (Reply.message (52 ∷ [])) request second
      answered_client Connection.world).0)

answered :
    (reply_envelope Connection.setting Connection.draws
      (Reply.message (52 ∷ []))
      request
      second
      answered_client
      Connection.world).0
    ≡ ok answer
unfolding reply_envelope secupload.Server.Connection.sealed_reply
    secupload.Server.Connection.signed_answer secupload.Server.Identity.active_keys
    secupload.Server.Identity.ensure_loaded secupload.Server.Tunnel2.outgoing_payload
    secupload.Server.Tunnel2.outgoing secupload.Protocol.Aad.build_aad
    secupload.Server.Tunnel2.envelope_aad secupload.Crypto.seal_message
    secupload.Crypto.sign_ed25519 secupload.Crypto.message_key_from_shared
    secupload.Protocol.Messages.wrap_encrypted Envelope.new_envelope Envelope.sign
    Envelope.signed_bytes Envelope.pack_header Envelope.header_fields secupload.Codec.Encoder.finish
    secupload.Codec.Encoder.◌≫◌ secupload.Codec.Encoder.bytes_ secupload.Codec.Encoder.uuid_
    secupload.Codec.Encoder.uuid_bytes secupload.Codec.Encoder.u8 secupload.Codec.Encoder.u32
    secupload.Codec.Encoder.u64 secupload.Codec.Encoder.i64 secupload.Codec.Encoder.write
    secupload.Codec.Encoder.pack_i64 secupload.Codec.Digits.to_bytes secupload.Codec.Digits.fits_i64
    secupload.Codec.Digits.to_signed signed_envelope Session.sealed_payload Session.own_envelope
    Identity.identity_uuid Identity.current Identity.current_keys Identity.keys_of
    secupload.Rotation.active secupload.Rotation.by_status secupload.Rotation.all
    secupload.Rotation.sorted secupload.Rotation.insert_sorted
answered = refl

answer_reaches_client_example : decrypt_response setting draws answer session ≡ ok (52 ∷ [])
answer_reaches_client_example =
    answer_reaches_client setting draws session (20 ∷ [], 21 ∷ []) Connection.setting
      Connection.draws Connection.world request answer second answered_client (52 ∷ []) refl
      ready.held (agrees (21 ∷ []) (2 ∷ [])) answered

abbrev served : Envelope
served = envelope_of (
    (reply_envelope Connection.setting Connection.draws (Reply.chunk 77 4 (53 ∷ 54 ∷ [])) request
      second answered_client Connection.world).0)

was_served :
    (reply_envelope Connection.setting Connection.draws
      (Reply.chunk 77 4 (53 ∷ 54 ∷ []))
      request
      second
      answered_client
      Connection.world).0
    ≡ ok served
unfolding reply_envelope secupload.Server.Connection.signed_answer
    secupload.Server.Identity.active_keys secupload.Server.Identity.ensure_loaded
    secupload.Server.Connection.Relay.chunk_payload secupload.Server.Connection.Relay.chunk_envelope
    secupload.Protocol.Aad.build_aad secupload.Server.Tunnel2.envelope_aad
    secupload.Crypto.seal_chunk secupload.Crypto.chunk_nonce secupload.Crypto.sign_ed25519
    secupload.Crypto.object_key_from_shared secupload.Protocol.Messages.wrap_encrypted_chunk
    Envelope.new_envelope Envelope.sign Envelope.signed_bytes Envelope.pack_header
    Envelope.header_fields secupload.Codec.Encoder.finish secupload.Codec.Encoder.◌≫◌
    secupload.Codec.Encoder.bytes_ secupload.Codec.Encoder.uuid_ secupload.Codec.Encoder.uuid_bytes
    secupload.Codec.Encoder.u8 secupload.Codec.Encoder.u32 secupload.Codec.Encoder.u64
    secupload.Codec.Encoder.i64 secupload.Codec.Encoder.write secupload.Codec.Encoder.pack_i64
    secupload.Codec.Digits.to_bytes secupload.Codec.Digits.fits_i64 secupload.Codec.Digits.to_signed
    signed_envelope Session.sealed_payload Session.own_envelope Identity.identity_uuid
    Identity.current Identity.current_keys Identity.keys_of secupload.Rotation.active
    secupload.Rotation.by_status secupload.Rotation.all secupload.Rotation.sorted
    secupload.Rotation.insert_sorted secupload.Crypto.seal_message
    secupload.Crypto.message_key_from_shared secupload.Protocol.Messages.wrap_encrypted
was_served = refl

served_chunk_reaches_client_example :
    open_chunk_reply setting draws 77 4 served session ≡ ok (53 ∷ 54 ∷ [])
served_chunk_reaches_client_example =
    served_chunk_reaches_client setting draws session (20 ∷ [], 21 ∷ []) Connection.setting
      Connection.draws Connection.world request served second answered_client 77 4 (53 ∷ 54 ∷ [])
      refl ready.held (agrees (21 ∷ []) (2 ∷ [])) was_served
