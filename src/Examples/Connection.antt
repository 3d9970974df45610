-- ===== src/Examples/Connection.antt =====
-- Runs of a server's connection: its loop over frames, a message that is not authentic, a rotation.
use secupload.Base.{◌≡◌, refl, arith, true, none, some, [], ◌∷◌, Bytes, List, replicate}
use secupload.Base.Int.{pos}
use secupload.Base.Result.{ok, err, Error, Code}
use secupload.Protocol.Envelope
use secupload.Protocol.Envelope.{Envelope, parse_envelope}
use secupload.Protocol.Envelope.RoundTrip.{envelope_round_trip}
use secupload.Server.Connection.{World, Setting, Draws, authenticated}
use secupload.Server.Connection.Authority.{rotation_is_own}
use secupload.Server.Connection.Control.{
  handle_authenticated, handle_registry_sync, handle_rotate_submit, handle_rotate_action,
}
use secupload.Server.Connection.Loop.{Ended, run, run-ends}
use secupload.Server.Connection.Relay.{handle_relay}
use secupload.Server.Connection.Silence.{OnlyLogged, unauthenticated-OnlyLogged}
use secupload.Server.Registry.{get_credential}
use secupload.Server.Registry.Refinement.{IsSound}
use secupload.Examples.Data.{prim, params, settled, bytes_of, second}
use secupload.Examples.Registry.{database, database-IsSound}
use secupload.Server.Connection

abbrev pub setting : Setting
setting = record {
  prim = prim;
  params = params;
  server_uuid = 8;
  sha256 = λ b. replicate 32 0;
  hex = λ b. b;
  path = λ u. u ∷ [];
  unknown_operation = [];
  message = λ x. [];
}

abbrev pub draws : Draws
draws = record {
  auth_now = 1000;
  now = 80;
  initial = ((1 ∷ [], 2 ∷ []), (3 ∷ [], 4 ∷ []));
  ephemeral = (1 ∷ [], 2 ∷ []);
  nonce = replicate 12 3;
}

abbrev pub world : World
world = record {
  identity = record {
    engine = settled;
    keys = (2, (20 ∷ [], 21 ∷ [])) ∷ [];
    loaded = true;
    db = database;
    key_file = none;
  };
  replay = record { max_entries = 3; entries = [] };
  files = [];
}

-- A frame of an unknown channel, in two pieces.
abbrev pieces : List Bytes
pieces = (5 ∷ 0 ∷ []) ∷ (0 ∷ 0 ∷ 1 ∷ 9 ∷ []) ∷ []

run-ends_example : (e : Ended) × (run setting (λ turn. draws) 7 0 pieces [] world ≡ some e)
unfolding secupload.Framing.joined
run-ends_example = run-ends setting (λ turn. draws) 7 0 pieces [] world (omega arith)

-- An envelope that is too old.
abbrev pub stale : Envelope
stale = record {
  msg_type = 4;
  sender_uuid = 7;
  recipient_uuid = 8;
  request_id = 9;
  sender_credential_version = 2;
  timestamp = pos 100;
  nonce = replicate 12 3;
  payload = [];
  version = 1;
  signature = replicate 64 5;
}

abbrev wire : Bytes
wire = bytes_of (Envelope.encode stale)

encoded : Envelope.encode stale ≡ ok wire
unfolding Envelope.encode Envelope.new_envelope Envelope.sign Envelope.signed_bytes
    Envelope.pack_header Envelope.header_fields secupload.Codec.Encoder.finish
    secupload.Codec.Encoder.◌≫◌ secupload.Codec.Encoder.bytes_ secupload.Codec.Encoder.uuid_
    secupload.Codec.Encoder.uuid_bytes secupload.Codec.Encoder.u8 secupload.Codec.Encoder.u32
    secupload.Codec.Encoder.u64 secupload.Codec.Encoder.i64 secupload.Codec.Encoder.write
    secupload.Codec.Encoder.pack_i64 secupload.Codec.Digits.to_bytes secupload.Codec.Digits.fits_i64
    secupload.Codec.Digits.to_signed
encoded = refl

parsed : parse_envelope wire ≡ ok stale
parsed = envelope_round_trip stale wire refl refl refl encoded

denied : (authenticated setting draws stale world).0 ≡ err (Error.auth_error Code.stale_timestamp)
unfolding secupload.Server.Auth.authenticate secupload.Replay.timestamp_ok
denied = refl

unauthenticated-OnlyLogged_example :
    ((handle_authenticated setting draws 12 wire (handle_registry_sync setting draws) world).0
      ≡ err (Error.auth_error Code.stale_timestamp))
    × OnlyLogged world
        (handle_authenticated setting draws 12 wire (handle_registry_sync setting draws) world).1
    × OnlyLogged world (handle_relay setting draws wire world).1
unauthenticated-OnlyLogged_example =
    unauthenticated-OnlyLogged setting draws 12 wire stale (handle_registry_sync setting draws)
      world (Error.auth_error Code.stale_timestamp) refl parsed denied

rotation_is_own_example :
    let submitted =
      Connection.database (handle_rotate_submit setting draws stale second [] world).1 in
    let acted =
      Connection.database (handle_rotate_action setting draws 6 stale second [] world).1 in
    (get_credential submitted 5 2 ≡ get_credential (Connection.database world) 5 2)
    × IsSound params submitted
    × (get_credential acted 5 2 ≡ get_credential (Connection.database world) 5 2)
    × IsSound params acted
rotation_is_own_example =
    rotation_is_own setting draws 6 stale second [] world 5 2 database-IsSound (omega arith)
