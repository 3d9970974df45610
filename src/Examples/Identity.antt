-- ===== src/Examples/Identity.antt =====
-- Runs of the server's own identity: two ticks, and a restart.
use secupload.Base.{ℕ, ◌≡◌, refl, arith, true, none, some, [], ◌∷◌, Bytes, replicate}
use secupload.Base.Dict.{lookup}
use secupload.Base.Result.{ok}
use secupload.Rotation.{active, fallback, submitted, promoted, demoted, RotationEngine}
use secupload.Server.Database.{Database, find}
use secupload.Server.Identity.{
  ServerIdentity, Fresh, maybe_rotate, active_keys, ensure_loaded, persist,
}
use secupload.Server.Identity.Restart.{Covers, restarted, restart-restores}
use secupload.Server.Identity.Rotating.{IsSettled, CanSign, successor, two_ticks_rotate}
use secupload.Server.Registry.{get_credential}
use secupload.Successor.{encode_successor_payload}
use secupload.Examples.Data.{prim, params, second, settled, settled-IsValid, bytes_of}

abbrev tables : Database
tables = record {
  clients = [];
  proxies = [];
  credentials = [];
  permissions = [];
  objects = [];
  audit_events = [];
  enrollment_tokens = [];
  wall_clock = 70;
}

abbrev identity : ServerIdentity
identity = record {
  engine = settled;
  keys = (2, (20 ∷ [], 21 ∷ [])) ∷ [];
  loaded = true;
  db = tables;
  key_file = none;
}

abbrev fresh : Fresh
fresh = ((30 ∷ [], 31 ∷ []), (32 ∷ [], 33 ∷ []))

identity-IsSettled : IsSettled prim params 7 identity second (20 ∷ [], 21 ∷ [])
unfolding active secupload.Rotation.by_status secupload.Rotation.validating
identity-IsSettled = record {
  is_loaded = refl;
  valid = settled-IsValid;
  same_params = refl;
  found_active = refl;
  alone = refl;
  newest = refl;
  owner = refl;
  held = refl;
}

abbrev payload : Bytes
payload = bytes_of (encode_successor_payload 7 2 3 (31 ∷ []) (33 ∷ []) [])

identity-CanSign :
    CanSign prim params 7 second
      (20 ∷ [], 21 ∷ [])
      (successor 7 second fresh)
      payload
      (replicate 64 0)
unfolding encode_successor_payload secupload.Codec.Encoder.finish secupload.Codec.Encoder.◌≫◌
    secupload.Codec.Encoder.bytes_ secupload.Codec.Encoder.uuid_
    secupload.Server.Registry.generated_credential
identity-CanSign = record {
  encodes = refl;
  signs = refl;
  accepts = refl;
  verifies = refl;
  signature_size = refl;
}

two_ticks_rotate_example :
    let s1 = (maybe_rotate prim params 7 fresh 70 fresh 70 identity).1 in
    let s2 = (maybe_rotate prim params 7 fresh 130 fresh 130 s1).1 in
    (active s2.engine ≡ some (promoted (submitted params (successor 7 second fresh) 70) 130))
    × (fallback s2.engine ≡ some (demoted params second 130))
    × ((active_keys prim params 7 fresh 130 s2).0 ≡ ok (30 ∷ [], 32 ∷ []))
unfolding secupload.Server.Identity.rotation_due secupload.Rotation.is_expired
two_ticks_rotate_example =
    two_ticks_rotate prim params 7 identity second (20 ∷ [], 21 ∷ []) fresh fresh fresh fresh 70 70
      130 130 130 payload (replicate 64 0) identity-IsSettled identity-CanSign refl refl
      (omega arith) (omega arith) refl (omega arith)

identity-Covers : Covers 7 identity
unfolding get_credential find
identity-Covers = record {
  keyed = settled-IsValid.keyed;
  owned = (refl, (refl, tt));
  unique = tt;
  complete = λ v absent. refl;
}

restart-restores_example :
    let loaded = ensure_loaded prim params 7 fresh 90 (restarted params (persist identity)) in
    (loaded.0 ≡ ok tt)
    × ((v : ℕ) → lookup v loaded.1.engine.creds ≡ lookup v settled.creds)
    × ((v : ℕ) → lookup v loaded.1.keys ≡ lookup v identity.keys)
    × (loaded.1.loaded ≡ true)
restart-restores_example =
    restart-restores prim params 7 identity fresh 90 2 second identity-Covers refl
      (((omega arith, tt), (omega arith, tt)), tt) (refl, tt)
