-- ===== src/Examples/Server.antt =====
-- A database with one client, its token, its permission, and an object.
use secupload.Base.{
  ℕ, ◌≡◌, ◌≢◌, ◌⊎◌, ◌↔◌, refl, arith, true, false, [], ◌∷◌, Bytes, none, some, replicate,
}
use secupload.Base.Dict.{lookup}
use secupload.Base.Int.{pos}
use secupload.Base.Result.{ok, err, Error, Code}
use secupload.Codec.Utf8.{Str}
use secupload.Models.{CredentialStatus, IdentityKind, ObjectInfo, timestamp_window}
use secupload.Protocol.Envelope
use secupload.Protocol.Envelope.{Envelope}
use secupload.Replay.{ReplayCache, contains, check_and_add, timestamp_ok}
use secupload.Replay.Window
use secupload.Replay.Window.{check_all, check_and_add-IsValid, replay_rejected}
use secupload.Server.Auth.{State, authenticate, replay_key}
use secupload.Server.Auth.Replays.{authenticate_all, replayed_is_refused}
use secupload.Server.Auth.Soundness.{authenticate-ok_iff}
use secupload.Server.Authorization.{allow, read}
use secupload.Server.Database.{
  Database, CredentialRow, PermissionRow, ObjectRow, TokenRow, Purpose, find,
}
use secupload.Server.Objects.{Store, info, exists, write_chunk, finalize}
use secupload.Server.Objects.Integrity.{finalized_is_frozen}
use secupload.Server.Objects.Upload.{joined, sealed, fresh_info, uploaded, finalize-uploaded}
use secupload.Server.Registry.{row_of, credential_for_auth, identity_kind}
use secupload.Server.Registry.Enrollment.{enroll}
use secupload.Server.Registry.Tokens.{token_enrolls_once}
use secupload.Server.Registry.Transactions.{Transition, perform, failed_transition_writes_nothing}
use secupload.Examples.Data.{prim, params, second}

abbrev cache : ReplayCache
cache = record { max_entries = 3; entries = (1 ∷ []) ∷ (2 ∷ []) ∷ [] }

cache-IsValid : Window.IsValid cache
unfolding contains
cache-IsValid = record {
  positive = omega arith;
  bounded = omega arith;
  distinct = (refl, (refl, tt));
}

abbrev permission : PermissionRow
permission = record { client_uuid = 7; object_uuid = 77; operation = read; policy = allow }

abbrev token_row : TokenRow
token_row = record {
  token_hash = 0x74 ∷ [];
  purpose = Purpose.enroll;
  identity_kind = IdentityKind.client;
  identity_uuid = none;
  expires_at = 5000;
  used_at = none;
}

abbrev pub database : Database
database = record {
  clients = 7 ∷ [];
  proxies = [];
  credentials =
      record {
        identity_uuid = 7;
        credential_version = 2;
        signing_public_key = 2 ∷ [];
        encryption_public_key = 2 ∷ [];
        status = CredentialStatus.active;
        created_at = 10;
        validation_deadline = some 60;
        activation_time = none;
        expiration_time = some 160;
      }
      ∷ [];
  permissions = permission ∷ [];
  objects = [];
  audit_events = [];
  enrollment_tokens = token_row ∷ [];
  wall_clock = 100;
}

abbrev envelope : Envelope
envelope = record {
  msg_type = 1;
  sender_uuid = 7;
  recipient_uuid = 8;
  request_id = 9;
  sender_credential_version = 2;
  timestamp = pos 100;
  nonce = replicate 12 3;
  payload = 1 ∷ 2 ∷ 3 ∷ [];
  version = 1;
  signature = replicate 64 5;
}

abbrev state : State
state = record { replay = cache; db = database }

authenticate-ok_iff_example :
    ((authenticate prim params envelope 110 state).0 ≡ ok (IdentityKind.client, second)) ↔ (
      (timestamp_ok envelope.timestamp 110 timestamp_window ≡ true)
      × (contains (replay_key envelope) cache.entries ≡ false)
      × (credential_for_auth params database 7 2 110 ≡ ok (some second))
      × (Envelope.verify prim envelope second.ed25519_public ≡ ok tt)
      × (identity_kind database 7 ≡ some IdentityKind.client))
authenticate-ok_iff_example =
    authenticate-ok_iff prim params envelope 110 state IdentityKind.client second

timely : timestamp_ok envelope.timestamp 110 timestamp_window ≡ true
unfolding timestamp_ok
timely = refl

unknown_key : contains (replay_key envelope) cache.entries ≡ false
unfolding contains replay_key secupload.Replay.envelope_replay_key secupload.Codec.Digits.to_bytes
unknown_key = refl

pub usable : credential_for_auth params database 7 2 110 ≡ ok (some second)
unfolding credential_for_auth secupload.Server.Database.order_by secupload.Server.Database.filter
    secupload.Rotation.credential_for_auth secupload.Rotation.load
usable = refl

verifies : Envelope.verify prim envelope second.ed25519_public ≡ ok tt
unfolding Envelope.verify Envelope.signed_bytes Envelope.pack_header secupload.Codec.Encoder.finish
    secupload.Codec.Encoder.◌≫◌ secupload.Codec.Encoder.u8 secupload.Codec.Encoder.uuid_bytes
    secupload.Codec.Encoder.u32 secupload.Codec.Encoder.i64 secupload.Codec.Digits.fits_i64
    secupload.Crypto.verify_ed25519
verifies = refl

pub registered : identity_kind database 7 ≡ some IdentityKind.client
unfolding identity_kind secupload.Server.Database.elem
registered = refl

let_in : (authenticate prim params envelope 110 state).0 ≡ ok (IdentityKind.client, second)
let_in =
    (authenticate-ok_iff prim params envelope 110 state IdentityKind.client second).1
      (timely, unknown_key, usable, verifies, registered)

replayed_is_refused_example :
    ((authenticate prim params envelope 111
        (authenticate_all prim params [] (authenticate prim params envelope 110 state).1)).0
      ≡ err (Error.auth_error Code.stale_timestamp))
    ⊎ ((authenticate prim params envelope 111
          (authenticate_all prim params [] (authenticate prim params envelope 110 state).1)).0
        ≡ err (Error.auth_error Code.replay))
replayed_is_refused_example =
    replayed_is_refused prim params envelope 110 111 [] state (IdentityKind.client, second)
      cache-IsValid (omega arith) let_in

-- Nothing is waiting for a promotion.
refused :
    (perform prim params 7 (Transition.promoting 80) database).0
    ≡ some (Error.registry_error Code.no_validating)
unfolding perform secupload.Server.Registry.checkpoint secupload.Server.Database.order_by
    secupload.Server.Database.filter secupload.Rotation.checkpoint secupload.Rotation.by_status
    secupload.Rotation.load
refused = refl

failed_transition_writes_nothing_example :
    (perform prim params 7 (Transition.promoting 80) database).1 ≡ database
failed_transition_writes_nothing_example =
    failed_transition_writes_nothing prim params 7 (Transition.promoting 80) database
      (Error.registry_error Code.no_validating) refused

-- A hash that leaves the text as it is.
abbrev sha256 : Bytes → Bytes
sha256 b = b

enrolled :
    (enroll sha256 params 9 IdentityKind.client
      (0x74 ∷ [])
      1
      (1 ∷ [])
      (1 ∷ [])
      (some 100)
      database).0
    ≡ ok (
        some (record {
          identity_uuid = 9;
          version = 1;
          ed25519_public = 1 ∷ [];
          x25519_public = 1 ∷ [];
          status = CredentialStatus.active;
          created_at = 100;
          validation_deadline = none;
          activation_time = some 100;
          expiration_time = some 250;
        }))
unfolding enroll secupload.Codec.Utf8.encode secupload.Codec.Utf8.encode_char find
    secupload.Server.Database.elem secupload.Server.Registry.load_engine
    secupload.Server.Database.order_by secupload.Server.Database.filter
    secupload.Server.Registry.generated_credential secupload.Server.Registry.apply
    secupload.Rotation.provision_initial secupload.Rotation.by_status
    secupload.Server.Registry.get_credential secupload.Rotation.all
enrolled = refl

token_enrolls_once_example :
    (enroll sha256 params 10 IdentityKind.proxy
      (0x74 ∷ [])
      1
      (3 ∷ [])
      (3 ∷ [])
      none
      (enroll sha256 params 9 IdentityKind.client
        (0x74 ∷ [])
        1
        (1 ∷ [])
        (1 ∷ [])
        (some 100)
        database).1).0
    ≡ err (Error.registry_error Code.token_used)
token_enrolls_once_example =
    token_enrolls_once sha256 params 9 10 IdentityKind.client IdentityKind.proxy (0x74 ∷ []) 1 1
      (1 ∷ []) (1 ∷ []) (3 ∷ []) (3 ∷ []) (some 100) none database _ enrolled

abbrev path : ℕ → Str
path u = u ∷ []

-- One digit and the text.
abbrev hex : Bytes → Str
hex b = 0x30 ∷ b

hex-nonempty : (b : Bytes) → hex b ≢ []
hex-nonempty b h = cc

abbrev store : Store
store = record { files = []; db = database }

abbrev final : Store
final = (finalize hex 77 (uploaded path 7 77 [] 3 [] ((0, 1 ∷ 2 ∷ []) ∷ (1, 3 ∷ []) ∷ []) store)).1

finalize-uploaded_example :
    ((finalize hex 77 (uploaded path 7 77 [] 3 [] ((0, 1 ∷ 2 ∷ []) ∷ (1, 3 ∷ []) ∷ []) store)).0
      ≡ ok
          (sealed (fresh_info path 77 [] 3 []) (hex (joined ((0, 1 ∷ 2 ∷ []) ∷ (1, 3 ∷ []) ∷ [])))))
    × (lookup 77 final.files ≡ some (joined ((0, 1 ∷ 2 ∷ []) ∷ (1, 3 ∷ []) ∷ [])))
unfolding exists joined find
finalize-uploaded_example =
    finalize-uploaded path hex 7 77 3 [] [] (0, 1 ∷ 2 ∷ []) ((1, 3 ∷ []) ∷ []) store refl refl refl

-- An object that is complete, before and after it is final.
abbrev object : Str → ObjectInfo
object digest = record {
  object_uuid = 77;
  file_type = [];
  file_size = 3;
  metadata = [];
  content_integrity = digest;
  storage_reference = [];
}

abbrev complete : Store
complete = record {
  files = (77, 1 ∷ 2 ∷ 3 ∷ []) ∷ [];
  db = record database {
    objects =
        record {
          object_uuid = 77;
          file_type = [];
          file_size = 3;
          object_metadata = [];
          content_integrity = [];
          storage_reference = [];
        }
        ∷ [];
  };
}

there : info 77 complete.db ≡ ok (object [])
unfolding info find
there = refl

sealing : (finalize hex 77 complete).0 ≡ ok (object (hex (1 ∷ 2 ∷ 3 ∷ [])))
unfolding finalize find
sealing = refl

finalized_is_frozen_example :
    (write_chunk 77 1 (9 ∷ []) (finalize hex 77 complete).1
      ≡ (err (Error.object_store_error Code.finalized), (finalize hex 77 complete).1))
    × (finalize hex 77 (finalize hex 77 complete).1
        ≡ (ok (object (hex (1 ∷ 2 ∷ 3 ∷ []))), (finalize hex 77 complete).1))
finalized_is_frozen_example =
    finalized_is_frozen hex 77 1 (9 ∷ []) (object (hex (1 ∷ 2 ∷ 3 ∷ []))) complete hex-nonempty
      sealing
