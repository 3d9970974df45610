-- ===== src/Examples/Admission.antt =====
-- A request of the client, through the proxy, to the server.
use secupload.Base.{◌≡◌, refl, arith, [], ◌∷◌}
use secupload.Base.Result.{ok}
use secupload.Models.{IdentityKind}
use secupload.Protocol.Entries.{registry_entry_from_public}
use secupload.Protocol.Envelope
use secupload.Proxy.{RegistryCache, check, entry}
use secupload.Server.Auth.{State, authenticate}
use secupload.Server.Tunnel2.{decrypt_to}
use secupload.Client.Admission.{IsKnown, honest_request_is_admitted}
use secupload.Examples.Client.{
  setting, draws, session, request, ready, agrees, request_made, request_encoded, bytes_of,
}
use secupload.Examples.Data.{prim, params, second}
use secupload.Examples.Server.{database, usable, registered}

abbrev state : State
state = record { replay = record { max_entries = 3; entries = [] }; db = database }

abbrev synced : RegistryCache
synced = record { entries = registry_entry_from_public second ∷ []; synced_at = 100 }

known : IsKnown synced 105 params 110 state request IdentityKind.client second
unfolding entry secupload.Proxy.newest registry_entry_from_public
    secupload.Protocol.Codes.status_to_code secupload.Replay.timestamp_ok secupload.Replay.contains
    secupload.Server.Auth.replay_key secupload.Replay.envelope_replay_key
    secupload.Client.Session.signed_envelope secupload.Client.Session.sealed_payload
    secupload.Client.Session.own_envelope secupload.Client.Identity.identity_uuid
    secupload.Client.Identity.current secupload.Client.Identity.current_keys
    secupload.Client.Identity.keys_of secupload.Rotation.active secupload.Rotation.by_status
    secupload.Rotation.all secupload.Rotation.sorted secupload.Rotation.insert_sorted
    secupload.Protocol.Aad.build_aad secupload.Server.Tunnel2.envelope_aad
    secupload.Crypto.seal_message secupload.Crypto.sign_ed25519
    secupload.Crypto.message_key_from_shared secupload.Protocol.Messages.wrap_encrypted
    Envelope.new_envelope Envelope.sign Envelope.signed_bytes Envelope.pack_header
    Envelope.header_fields secupload.Codec.Encoder.finish secupload.Codec.Encoder.◌≫◌
    secupload.Codec.Encoder.bytes_ secupload.Codec.Encoder.uuid_ secupload.Codec.Encoder.uuid_bytes
    secupload.Codec.Encoder.u8 secupload.Codec.Encoder.u32 secupload.Codec.Encoder.u64
    secupload.Codec.Encoder.i64 secupload.Codec.Encoder.write secupload.Codec.Encoder.pack_i64
    secupload.Codec.Digits.to_bytes secupload.Codec.Digits.fits_i64 secupload.Codec.Digits.to_signed
known = record {
  cached = refl;
  proxy_timely = refl;
  timely = refl;
  new = refl;
  usable = usable;
  registered = registered;
}

honest_request_is_admitted_example :
    (check prim synced 105 1 (bytes_of (Envelope.encode request)) ≡ ok tt)
    × ((authenticate prim params request 110 state).0 ≡ ok (IdentityKind.client, second))
    × (request.sender_uuid ≡ 7)
    × (decrypt_to prim request (60 ∷ []) ≡ ok (50 ∷ []))
honest_request_is_admitted_example =
    honest_request_is_admitted setting draws session 7 second (20 ∷ [], 21 ∷ []) 1 1 1 105 110
      (50 ∷ []) (60 ∷ []) (bytes_of (Envelope.encode request)) request synced params state
      IdentityKind.client ready (agrees (60 ∷ []) (41 ∷ [])) request_made request_encoded
      (omega arith) known
