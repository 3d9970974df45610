-- ===== src/Server/Identity.antt =====
-- server/sih_server/identity.py: the server's own rotating credentials. The key pairs that a call
-- generates are arguments, (private, public), as are the readings of the clock.
pub mod Rotating
pub mod Restart
use secupload.Base.{
  ℕ, ◌+◌, ◌*◌, leb, ◌&&◌, if◌then◌else◌, Bool, true, false, List, [], ◌∷◌, Bytes, Option, none,
  some, not,
}
use secupload.Base.Dict.{lookup, insert}
use secupload.Codec.KeyFile.{Keys, KeyText, write_keys, read_keys}
use secupload.Codec.Utf8.{Str}
use secupload.Base.Result.{Result, ok, err, Error, Code, ◌>>=◌}
use secupload.Crypto.{Primitives, sign_ed25519}
use secupload.Models.{CredentialPublic, RotationParams, fallback_period, or_default}
use secupload.Rotation
use secupload.Rotation.{RotationEngine, is_some}
use secupload.Server.Database.{Database, EventType, AuditResult, record_event}
use secupload.Server.Registry.{generated_credential, load_engine, save_all}
use secupload.Successor.{encode_successor_payload}

-- The key pairs that a call generates: Ed25519, then X25519.
abbrev pub Fresh : Type 0
Fresh = (Bytes × Bytes) × (Bytes × Bytes)

-- The object, and what it writes to: the database behind `_session_factory` and the key file, `none`
-- where it cannot be read as JSON.
pub record ServerIdentity : Type 0 where
  pub engine : RotationEngine
  pub keys : Keys
  pub loaded : Bool
  pub db : Database
  pub key_file : Option (List (Str × KeyText))

abbrev pub Step : Type 0 → Type 0
Step A = Result A × ServerIdentity

-- `_save_keys`
unfoldable pub save_keys : ServerIdentity → ServerIdentity
save_keys s = record s { key_file = some (write_keys s.keys) }

-- `_load_keys`: the file is absent or no JSON, or an entry cannot be read.
unfoldable pub load_keys : ServerIdentity → Result Keys
load_keys s = elim s.key_file [
  | none ↦ err (Error.server_identity_error Code.keys_missing)
  | some entries ↦ read_keys [] entries
]

-- `_persist`: the rows, the commit, and the key file.
unfoldable pub persist : ServerIdentity → ServerIdentity
unfolding save_all save_keys
persist s = save_keys (record s {
  db = record s.db { credentials = save_all (Rotation.all s.engine) s.db.credentials };
})

-- `self._audit.record`
abbrev audit : EventType → ℕ → ℕ → ServerIdentity → ServerIdentity
audit event u version s = record s {
  db = record_event event u (some version) AuditResult.granted s.db;
}

-- The rest of a method after a call of the engine; a raise keeps the engine that the call leaves.
abbrev on_engine :
    {A : Type 0}
    → Result A × RotationEngine
    → (A → ServerIdentity → Step (Unit {0}))
    → ServerIdentity
    → Step (Unit {0})
on_engine (err x, e) rest s = (err x, record s { engine = e })
on_engine (ok a, e) rest s = rest a (record s { engine = e })

-- `_provision`
unfoldable pub provision : ℕ → Fresh → ℕ → ServerIdentity → Step (Unit {0})
unfolding generated_credential persist
provision u (ed, x) now s =
    on_engine (Rotation.provision_initial (generated_credential u 1 ed.1 x.1) now s.engine)
      (λ _ s1. (
        ok tt,
        audit EventType.enrollment u 1
            (persist (record s1 { keys = insert 1 (ed.0, x.0) s1.keys })),
      ))
      s

-- `self._loaded = True`, after a part that returned.
abbrev mark_loaded : Step (Unit {0}) → Step (Unit {0})
mark_loaded (err x, s) = (err x, s)
mark_loaded (ok a, s) = (ok a, record s { loaded = true })

-- The branch of `ensure_loaded` where there are rows.
abbrev adopt : RotationEngine → ServerIdentity → Step (Unit {0})
adopt e s = elim (load_keys s) [
  | err x ↦ (err x, record s { engine = e })
  | ok keys ↦ (ok tt, record s { engine = e; keys = keys })
]

module _ (prim : Primitives) (params : RotationParams) (server_uuid : ℕ) where
  unfoldable pub ensure_loaded : Fresh → ℕ → ServerIdentity → Step (Unit {0})
  unfolding provision load_engine load_keys
  ensure_loaded fresh now s =
      if s.loaded
      then (ok tt, s)
      else mark_loaded (elim (load_engine params s.db server_uuid) [
        | none ↦ provision server_uuid fresh now s
        | some e ↦ adopt e s
      ])

  -- `_engine.active()`, and its absence.
  unfoldable pub active_credential : ServerIdentity → Result CredentialPublic
  active_credential s = elim (Rotation.active s.engine) [
    | none ↦ err (Error.server_identity_error Code.no_active)
    | some c ↦ ok c
  ]

  -- `_keys.get(version)`, and its absence.
  unfoldable pub keys_of : ServerIdentity → ℕ → Result (Bytes × Bytes)
  keys_of s version = elim (lookup version s.keys) [
    | none ↦ err (Error.server_identity_error Code.keys_missing)
    | some pair ↦ ok pair
  ]

  -- What a method does once the identity is loaded.
  abbrev then_read : {A : Type 0} → Step (Unit {0}) → (ServerIdentity → Result A) → Step A
  then_read (err x, s) f = (err x, s)
  then_read (ok a, s) f = (f s, s)

  unfoldable pub credential : Fresh → ℕ → ServerIdentity → Step CredentialPublic
  unfolding ensure_loaded active_credential
  credential fresh now s = then_read (ensure_loaded fresh now s) active_credential

  unfoldable pub keys : ℕ → Fresh → ℕ → ServerIdentity → Step (Bytes × Bytes)
  unfolding ensure_loaded keys_of
  keys version fresh now s = then_read (ensure_loaded fresh now s) (λ s1. keys_of s1 version)

  -- `active_keys`: the two calls find the identity loaded by the first.
  unfoldable pub active_keys : Fresh → ℕ → ServerIdentity → Step (Bytes × Bytes)
  unfolding credential keys
  active_keys fresh now s =
      let (r, s1) = credential fresh now s in
      elim r [ err x ↦ (err x, s1) | ok c ↦ keys c.version fresh now s1 ]

  -- The bytes that `_submit_successor` signs, and the signature.
  unfoldable pub successor_signature : Bytes → ℕ → CredentialPublic → Result Bytes
  successor_signature ed_priv old cred =
      encode_successor_payload server_uuid old cred.version cred.ed25519_public cred.x25519_public
        []
      >>= sign_ed25519 prim ed_priv

  -- `_submit_successor`
  unfoldable pub submit_successor : CredentialPublic → Fresh → ℕ → ServerIdentity → Step (Unit {0})
  unfolding generated_credential successor_signature persist
  submit_successor active (ed, x) now s =
      let new_version = active.version + 1 in
      let cred = generated_credential server_uuid new_version ed.1 x.1 in
      elim (lookup active.version s.keys) [
        | none ↦ (err Error.key_error, s)
        | some pair ↦ elim (successor_signature pair.0 active.version cred) [
          | err e ↦ (err e, s)
          | ok signature ↦
              on_engine (Rotation.submit_successor prim cred signature [] now s.engine)
                (λ _ s1. (
                  ok tt,
                  audit EventType.credential_generation server_uuid new_version
                      (persist (record s1 { keys = insert new_version (ed.0, x.0) s1.keys })),
                ))
                s
        ]
      ]

  -- `now >= rotate_at`; the difference that the code forms may be negative, so its parts are compared.
  unfoldable pub rotation_due : CredentialPublic → ℕ → Bool
  rotation_due active now =
      leb (or_default active.expiration_time now) (now + 2 * fallback_period params)

  -- The promotion at the end of `maybe_rotate`.
  unfoldable pub promote_due : ℕ → ServerIdentity → Step (Unit {0})
  unfolding persist
  promote_due now s = elim (Rotation.validating s.engine) [
    | none ↦ (ok tt, s)
    | some v3 ↦
        if leb (or_default v3.validation_deadline 0) now
        then on_engine (Rotation.checkpoint now s.engine)
            (λ _ s1.
              (ok tt, audit EventType.credential_promotion server_uuid v3.version (persist s1)))
            s
        else (ok tt, s)
  ]

  -- `except RotationError: return`
  abbrev stop_on_rotation : Step (Unit {0}) → (ServerIdentity → Step (Unit {0})) → Step (Unit {0})
  stop_on_rotation (ok a, s) rest = rest s
  stop_on_rotation (err (Error.rotation_error c), s) rest = (ok tt, s)
  stop_on_rotation (err x, s) rest = (err x, s)

  -- The submission at the start of `maybe_rotate`, where it is due.
  unfoldable pub submit_due :
      CredentialPublic
      → Fresh
      → ℕ
      → ServerIdentity
      → (ServerIdentity → Step (Unit {0}))
      → Step (Unit {0})
  unfolding submit_successor rotation_due
  submit_due active fresh now s rest =
      if not (is_some (Rotation.validating s.engine)) && rotation_due active now
      then stop_on_rotation (submit_successor active fresh now s) rest
      else rest s

  -- `maybe_rotate` on an identity that is loaded.
  unfoldable pub rotate_loaded : Fresh → ℕ → ServerIdentity → Step (Unit {0})
  unfolding submit_due promote_due
  rotate_loaded fresh now s = elim (Rotation.active s.engine) [
    | none ↦ (ok tt, s)
    | some active ↦
        submit_due active fresh now s
          (λ s1. stop_on_rotation (promote_due now s1) (λ s2. (ok tt, s2)))
  ]

  -- `maybe_rotate`, and `rotate_tick`, which only calls it: the clock is read once while the identity
  -- is loaded, and once after that. `initial` are the key pairs of a first provision.
  unfoldable pub maybe_rotate : Fresh → ℕ → Fresh → ℕ → ServerIdentity → Step (Unit {0})
  unfolding ensure_loaded rotate_loaded
  maybe_rotate initial loaded_at fresh now s =
      let (r, s1) = ensure_loaded initial loaded_at s in
      elim r [ err x ↦ (err x, s1) | ok _ ↦ rotate_loaded fresh now s1 ]

  -- `successor_announcement` on an identity that is loaded: version, keys, the signer's version and
  -- the signature.
  unfoldable announcement : ServerIdentity → Result (Option (ℕ × Bytes × Bytes × ℕ × Bytes))
  unfolding successor_signature
  announcement s = elim (Rotation.validating s.engine) [
    | none ↦ ok none
    | some v3 ↦ elim (Rotation.active s.engine) [
      | none ↦ ok none
      | some prev ↦ elim (lookup prev.version s.keys) [
        | none ↦
            encode_successor_payload server_uuid prev.version v3.version v3.ed25519_public
              v3.x25519_public []
            >>= λ _. err Error.key_error
        | some pair ↦ successor_signature pair.0 prev.version v3 >>= λ sig.
            ok (some (v3.version, v3.ed25519_public, v3.x25519_public, prev.version, sig))
      ]
    ]
  ]

  unfoldable successor_announcement :
      Fresh → ℕ → ServerIdentity → Step (Option (ℕ × Bytes × Bytes × ℕ × Bytes))
  unfolding ensure_loaded announcement
  successor_announcement fresh now s = then_read (ensure_loaded fresh now s) announcement
