-- ===== src/Server/Identity/Restart.antt =====
-- server/sih_server/identity.py: what a new process reads after `_persist`.
use secupload.Base.{
  ℕ, ◌≡◌, refl, arith, true, false, List, none, some, [], Option-cases, inl, inr, ==-refl,
}
use secupload.Base.Dict.{lookup}
use secupload.Base.Result.{ok}
use secupload.Codec.KeyFile.{
  Keys, KeyText, write_keys, read_keys, ByteKeys, DistinctKeys, keys_read_back,
}
use secupload.Codec.Utf8.{Str}
use secupload.Crypto.{Primitives}
use secupload.Models.{CredentialPublic, RotationParams}
use secupload.Rotation
use secupload.Rotation.{RotationEngine}
use secupload.Rotation.Commands.{new}
use secupload.Rotation.Counts.{Keyed}
use secupload.Server.Identity.{ServerIdentity, Fresh, ensure_loaded, persist, save_keys, load_keys}
use secupload.Server.Registry.{load_engine, get_credential, commit_engine}
use secupload.Server.Registry.Persistence.{get-load_engine, get-load_engine-none}
use secupload.Server.Registry.Rows.{UniqueRows, UniqueRows-save_all}
use secupload.Server.Registry.Saving.{Owned, get-commit_engine}

-- The object of a new process, over the same database and key file.
abbrev pub restarted : RotationParams → ServerIdentity → ServerIdentity
restarted params s = record s { engine = new params; keys = []; loaded = false }

-- An engine that holds every credential which the tables have for its identity.
pub record Covers (u : ℕ) (s : ServerIdentity) : Type 0 where
  pub keyed : Keyed s.engine.creds
  pub owned : Owned u s.engine.creds
  pub unique : UniqueRows s.db.credentials
  pub complete : (v : ℕ) → lookup v s.engine.creds ≡ none → get_credential s.db u v ≡ none

get-persist :
    (u v : ℕ) (s : ServerIdentity)
    → Covers u s
    → get_credential (persist s).db u v ≡ lookup v s.engine.creds
unfolding persist save_keys commit_engine
get-persist u v s h =
    let read = get-commit_engine s.engine s.db u u v h.keyed h.owned in
    elim (Option-cases (lookup v s.engine.creds)) [
      | inl absent ↦ ground (arith, read, absent, h.complete v absent, ==-refl u)
      | inr (c, there) ↦ ground (arith, read, there, ==-refl u)
    ]

UniqueRows-persist :
    (u : ℕ) (s : ServerIdentity) → Covers u s → UniqueRows (persist s).db.credentials
unfolding persist save_keys
UniqueRows-persist u s h = UniqueRows-save_all (Rotation.all s.engine) s.db.credentials h.unique

key_file-persist : (s : ServerIdentity) → (persist s).key_file ≡ some (write_keys s.keys)
unfolding persist save_keys
key_file-persist s = refl

ensure_loaded-adopts :
    (prim : Primitives) (params : RotationParams) (u : ℕ) (s : ServerIdentity) (fresh : Fresh)
    (now : ℕ) (e : RotationEngine) (held : Keys) (entries : List (Str × KeyText))
    → s.loaded ≡ false
    → load_engine params s.db u ≡ some e
    → s.key_file ≡ some entries
    → read_keys [] entries ≡ ok held
    → ensure_loaded prim params u fresh now s
      ≡ (ok tt, record s { engine = e; keys = held; loaded = true })
unfolding ensure_loaded load_keys
ensure_loaded-adopts prim params u s fresh now e held entries new_object found file read =
    ground arith

-- After the identity is persisted, a new process loads it without an error and without generating a
-- key: it has the same credential and the same private keys under every version, from the
-- hexadecimal texts of the key file, where the private keys are lists of bytes under distinct
-- versions, and the engine held at least one credential, and all that the tables have for the
-- identity.
pub restart-restores :
    (prim : Primitives) (params : RotationParams) (u : ℕ) (s : ServerIdentity) (fresh : Fresh)
    (now v0 : ℕ) (c0 : CredentialPublic)
    → Covers u s
    → lookup v0 s.engine.creds ≡ some c0
    → ByteKeys s.keys
    → DistinctKeys s.keys
    → let loaded = ensure_loaded prim params u fresh now (restarted params (persist s)) in
      (loaded.0 ≡ ok tt)
      × ((v : ℕ) → lookup v loaded.1.engine.creds ≡ lookup v s.engine.creds)
      × ((v : ℕ) → lookup v loaded.1.keys ≡ lookup v s.keys)
      × (loaded.1.loaded ≡ true)
restart-restores prim params u s fresh now v0 c0 h there bytes distinct =
    let (held, read_back, same_keys) = keys_read_back s.keys bytes distinct in
    let unique : UniqueRows (persist s).db.credentials = UniqueRows-persist u s h in
    elim (Option-cases (load_engine params (persist s).db u)) [
      | inl absent ↦ absurd (
          ground (
            arith,
            get-load_engine-none params (persist s).db u v0 unique absent,
            get-persist u v0 s h,
            there,
          ))
      | inr (e, found) ↦
          let read : (v : ℕ) → lookup v e.creds ≡ lookup v s.engine.creds = λ v. ground (
            arith,
            get-load_engine params (persist s).db u v e unique found,
            get-persist u v s h,
          ) in
          rw
            (ensure_loaded-adopts prim params u (restarted params (persist s)) fresh now e held
              (write_keys s.keys) refl found (key_file-persist s) read_back)
            (refl, read, same_keys, refl)
    ]
