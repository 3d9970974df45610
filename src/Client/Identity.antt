-- ===== src/Client/Identity.antt =====
-- client/sih_client/identity.py: the client's own credentials and private keys, and the file that keeps
-- them. The key pairs that a call generates and the readings of the clock are arguments.
pub mod Reload
use secupload.Base.{
  ℕ, zero, suc, ◌+◌, ◌*◌, ◌/◌, ◌%◌, leb, ltb, ◌==◌, if◌then◌else◌, Bool, true, false, List, [], ◌∷◌,
  ◌++◌, map, Bytes, Option, none, some,
}
use secupload.Base.Dict.{Dict, lookup, insert}
use secupload.Base.Result.{Result, ok, err, Error, Code, ◌>>=◌}
use secupload.Codec.KeyFile.{Keys, KeyText, member, write_keys, read_keys}
use secupload.Codec.Text.{str_of, int_of, to_hex, from_hex, uuid_text, uuid_of, sort_by, text_le}
use secupload.Codec.Utf8.{Str}
use secupload.Crypto.{Primitives, sign_ed25519}
use secupload.Models.{
  CredentialPublic, CredentialStatus, IdentityKind, RotationParams, fallback_period, or_default,
}
use secupload.Rotation
use secupload.Rotation.{RotationEngine, Creds}
use secupload.Server.Registry.{generated_credential}
use secupload.Server.Tunnel2.{token_identity}
use secupload.Successor.{encode_successor_payload, bytes_eq}

-- Ed25519, then X25519, each (private, public).
abbrev pub Fresh : Type 0
Fresh = (Bytes × Bytes) × (Bytes × Bytes)

-- `str(status)` and `CredentialStatus(text)`
unfoldable pub status_text : CredentialStatus → Str
status_text CredentialStatus.generated =
    b'G' ∷ b'E' ∷ b'N' ∷ b'E' ∷ b'R' ∷ b'A' ∷ b'T' ∷ b'E' ∷ b'D' ∷ []
status_text CredentialStatus.validating =
    b'V' ∷ b'A' ∷ b'L' ∷ b'I' ∷ b'D' ∷ b'A' ∷ b'T' ∷ b'I' ∷ b'N' ∷ b'G' ∷ []
status_text CredentialStatus.active = b'A' ∷ b'C' ∷ b'T' ∷ b'I' ∷ b'V' ∷ b'E' ∷ []
status_text CredentialStatus.fallback = b'F' ∷ b'A' ∷ b'L' ∷ b'L' ∷ b'B' ∷ b'A' ∷ b'C' ∷ b'K' ∷ []
status_text CredentialStatus.expired = b'E' ∷ b'X' ∷ b'P' ∷ b'I' ∷ b'R' ∷ b'E' ∷ b'D' ∷ []
status_text CredentialStatus.terminated =
    b'T' ∷ b'E' ∷ b'R' ∷ b'M' ∷ b'I' ∷ b'N' ∷ b'A' ∷ b'T' ∷ b'E' ∷ b'D' ∷ []
status_text CredentialStatus.revoked = b'R' ∷ b'E' ∷ b'V' ∷ b'O' ∷ b'K' ∷ b'E' ∷ b'D' ∷ []

-- The first status of a list whose text it is.
unfoldable pub status_among : List CredentialStatus → Str → Result CredentialStatus
unfolding status_text
status_among [] text = err Error.value_error
status_among (s ∷ rest) text =
    let other = status_among rest text in if bytes_eq text (status_text s) then ok s else other

unfoldable pub status_of : Str → Result CredentialStatus
unfolding status_among
status_of = status_among (
    CredentialStatus.generated ∷ CredentialStatus.validating ∷ CredentialStatus.active
    ∷ CredentialStatus.fallback ∷ CredentialStatus.expired ∷ CredentialStatus.terminated
    ∷ CredentialStatus.revoked ∷ [])

-- The JSON of a credential: `none` is a member that is missing, or null where the code asks by `get`.
pub record CredentialText : Type 0 where
  pub ed_pub : Option Str
  pub x_pub : Option Str
  pub status : Option Str
  pub created_at : Option ℕ
  pub validation_deadline : Option ℕ
  pub activation_time : Option ℕ
  pub expiration_time : Option ℕ

-- What the file holds, as JSON: the text of the identity that all credentials get when they are read;
-- the credentials and the private keys, each under the text of its version; and `_enrolled`.
pub record Saved : Type 0 where
  pub identity_uuid : Option Str
  pub credentials : Option (List (Str × CredentialText))
  pub keys : Option (List (Str × KeyText))
  pub enrolled : Option Bool

pub data File : Type 0 where
  missing unreadable : File
  saved : Saved → File

pub record ClientIdentity : Type 0 where
  pub engine : RotationEngine
  pub keys : Keys
  pub enrolled : Bool
  pub file : File

-- The configuration: an enrollment token that is unset or empty is []. A proxy's identity differs in the
-- kind alone.
pub record Setting : Type 0 where
  pub prim : Primitives
  pub params : RotationParams
  pub sha256 : Bytes → Bytes
  pub kind : IdentityKind
  pub server_uuid : ℕ
  pub enrollment_token : Str

abbrev pub Step : Type 0 → Type 0
Step A = Result A × ClientIdentity

-- `self._engine.all()[0].identity_uuid`, or a default.
abbrev pub first_identity : List CredentialPublic → ℕ → ℕ
first_identity [] u = u
first_identity (c ∷ cs) u = c.identity_uuid

-- The order of `sorted(data["credentials"].items())`, whose keys are distinct texts.
abbrev pub entry_le : Str × CredentialText → Str × CredentialText → Bool
entry_le a b = text_le a.0 b.0

-- An entry of the file that `_save` writes, and the credential that `_load` makes of it.
unfoldable pub credential_entry : ℕ × CredentialPublic → Str × CredentialText
unfolding status_text
credential_entry (v, c) = (
  str_of v,
  record {
    ed_pub = some (to_hex c.ed25519_public);
    x_pub = some (to_hex c.x25519_public);
    status = some (status_text c.status);
    created_at = some c.created_at;
    validation_deadline = c.validation_deadline;
    activation_time = c.activation_time;
    expiration_time = c.expiration_time;
  },
)

unfoldable pub from_entry : Option Str → Str × CredentialText → Result CredentialPublic
unfolding status_of
from_entry identity (text, p) = do
  u ← member identity >>= uuid_of
  v ← int_of text
  ed ← member p.ed_pub >>= from_hex
  x ← member p.x_pub >>= from_hex
  status ← member p.status >>= status_of
  created ← member p.created_at
  ok (record {
    identity_uuid = u;
    version = v;
    ed25519_public = ed;
    x25519_public = x;
    status = status;
    created_at = created;
    validation_deadline = p.validation_deadline;
    activation_time = p.activation_time;
    expiration_time = p.expiration_time;
  })

unfoldable pub from_entries :
    Option Str → List (Str × CredentialText) → Result (List CredentialPublic)
unfolding from_entry
from_entries identity [] = ok []
from_entries identity (e ∷ es) =
    from_entry identity e >>= λ c. from_entries identity es >>= λ cs. ok (c ∷ cs)

-- The dict that `_save` builds of `engine.all()`: a version that comes again is overwritten.
unfoldable pub credential_entries : Creds → List CredentialPublic → Creds
credential_entries entries [] = entries
credential_entries entries (c ∷ cs) = credential_entries (insert c.version c entries) cs

-- `_save`
unfoldable pub save : ClientIdentity → ClientIdentity
unfolding credential_entries credential_entry
save s = record s {
  file = File.saved (record {
    identity_uuid = some (uuid_text (first_identity (Rotation.all s.engine) 0));
    credentials = some (map credential_entry (credential_entries [] (Rotation.all s.engine)));
    keys = some (write_keys s.keys);
    enrolled = some s.enrolled;
  });
}

-- `data.get("enrolled", False)`
abbrev pub or_false : Option Bool → Bool
or_false none = false
or_false (some b) = b

-- The credentials that `_load` reads, in the order of the texts of their versions.
unfoldable pub read_credentials : Saved → Result (List CredentialPublic)
unfolding from_entries
read_credentials data_ = member data_.credentials >>= λ entries.
    from_entries data_.identity_uuid (sort_by entry_le entries)

-- The part of `_load` after the credentials: a raise leaves the engine and the keys that it set.
unfoldable pub load_rest : Saved → ClientIdentity → Step (Unit {0})
load_rest data_ s = elim (member data_.keys >>= read_keys []) [
  | err x ↦ (err x, s)
  | ok [] ↦ (err (Error.client_identity_error Code.keys_missing), record s { keys = [] })
  | ok (k ∷ ks) ↦ (ok tt, record s { keys = k ∷ ks; enrolled = or_false data_.enrolled })
]

module _ (cfg : Setting) where
  -- The part of `_load` on what the file holds.
  unfoldable pub load_saved : Saved → ClientIdentity → Step (Unit {0})
  unfolding read_credentials load_rest
  load_saved data_ s = elim (read_credentials data_) [
    | err x ↦ (err x, s)
    | ok creds ↦ load_rest data_ (record s { engine = Rotation.load cfg.params creds })
  ]

  -- `identity_uuid`; `unknown` is what `uuid4` returns.
  unfoldable pub identity_uuid : ℕ → ClientIdentity → Result ℕ
  identity_uuid unknown s = elim cfg.enrollment_token [
    | [] ↦ ok (first_identity (Rotation.all s.engine) unknown)
    | x ∷ xs ↦ token_identity cfg.sha256 cfg.enrollment_token cfg.kind
  ]

  -- `_fresh`, with the identity's UUID known
  unfoldable fresh_as : Fresh → ℕ → ℕ → ClientIdentity → Step (Unit {0})
  unfolding generated_credential save
  fresh_as (ed, x) u now s =
      let (r, e) = Rotation.provision_initial (generated_credential u 1 ed.1 x.1) now s.engine in
      elim r [
        | err y ↦ (err y, record s { engine = e })
        | ok _ ↦ (ok tt, save (record s { engine = e; keys = insert 1 (ed.0, x.0) s.keys }))
      ]

  unfoldable pub fresh : ℕ → Fresh → ℕ → ClientIdentity → Step (Unit {0})
  unfolding identity_uuid fresh_as
  fresh unknown pairs now s = elim (identity_uuid unknown s) [
    | err x ↦ (err x, s)
    | ok u ↦ fresh_as pairs u now s
  ]

  unfoldable pub ensure_loaded : ℕ → Fresh → ℕ → ClientIdentity → Step (Unit {0})
  unfolding fresh load_saved
  ensure_loaded unknown pairs now s = elim s.file [
    | File.missing ↦ fresh unknown pairs now s
    | File.unreadable ↦ (err (Error.client_identity_error Code.corrupt_identity), s)
    | File.saved data_ ↦ load_saved data_ s
  ]

  unfoldable pub current : ClientIdentity → Result CredentialPublic
  current s = elim (Rotation.active s.engine) [
    | none ↦ err (Error.client_identity_error Code.no_active)
    | some c ↦ ok c
  ]

  unfoldable pub keys_of : ClientIdentity → ℕ → Result (Bytes × Bytes)
  keys_of s version = elim (lookup version s.keys) [
    | none ↦ err (Error.client_identity_error Code.keys_missing)
    | some pair ↦ ok pair
  ]

  unfoldable pub current_keys : ClientIdentity → Result (Bytes × Bytes)
  unfolding current keys_of
  current_keys s = current s >>= λ c. keys_of s c.version

  unfoldable pub mark_enrolled : ClientIdentity → ClientIdentity
  unfolding save
  mark_enrolled s = save (record s { enrolled = true })

  -- The payload of a successor, and its signature by the private key of the active credential.
  unfoldable signed_successor : CredentialPublic → Bytes → CredentialPublic → Result (Bytes × Bytes)
  signed_successor active ed_priv new_cred =
      encode_successor_payload active.identity_uuid active.version new_cred.version
        new_cred.ed25519_public new_cred.x25519_public []
      >>= λ payload. sign_ed25519 cfg.prim ed_priv payload >>= λ signature. ok (signature, payload)

  -- The submission to the client's own engine, and what it saves.
  unfoldable submit_own :
      CredentialPublic
      → Bytes × Bytes
      → Fresh
      → ℕ
      → ClientIdentity
      → Step (CredentialPublic × Bytes × Bytes)
  unfolding save
  submit_own new_cred (signature, payload) (ed, x) now s =
      let (r, e) = Rotation.submit_successor cfg.prim new_cred signature [] now s.engine in
      elim r [
        | err y ↦ (err y, record s { engine = e })
        | ok _ ↦ (
          ok (new_cred, signature, payload),
          save (record s { engine = e; keys = insert new_cred.version (ed.0, x.0) s.keys }),
        )
      ]

  -- The part of `generate_successor` after the active credential is known.
  unfoldable succeed :
      CredentialPublic → Fresh → ℕ → ClientIdentity → Step (CredentialPublic × Bytes × Bytes)
  unfolding generated_credential signed_successor submit_own
  succeed active pairs now s =
      let new_cred =
        generated_credential active.identity_uuid (active.version + 1) pairs.0.1 pairs.1.1 in
      elim (lookup active.version s.keys) [
        | none ↦ (err Error.key_error, s)
        | some pair ↦ elim (signed_successor active pair.0 new_cred) [
          | err y ↦ (err y, s)
          | ok signed ↦ submit_own new_cred signed pairs now s
        ]
      ]

  unfoldable pub generate_successor :
      Fresh → ℕ → ClientIdentity → Step (CredentialPublic × Bytes × Bytes)
  unfolding current succeed
  generate_successor pairs now s = elim (current s) [
    | err x ↦ (err x, s)
    | ok active ↦ succeed active pairs now s
  ]

  -- The end of `checkpoint`: a RotationError is dropped with what the engine wrote before it.
  abbrev after_checkpoint :
      Result (List CredentialPublic) × RotationEngine → ClientIdentity → Step (Unit {0})
  after_checkpoint (ok changed, e) s = (ok tt, save (record s { engine = e }))
  after_checkpoint (err (Error.rotation_error c), e) s = (ok tt, record s { engine = e })
  after_checkpoint (err x, e) s = (err x, record s { engine = e })

  unfoldable pub checkpoint : ℕ → ClientIdentity → Step (Unit {0})
  unfolding save
  checkpoint now s = elim (Rotation.validating s.engine) [
    | none ↦ (ok tt, s)
    | some v3 ↦ after_checkpoint (Rotation.checkpoint now s.engine) s
  ]

  unfoldable pub rollback : ℕ → ClientIdentity → Step (Unit {0})
  unfolding save
  rollback now s =
      let (r, e) = Rotation.rollback now s.engine in
      elim r [
        | err x ↦ (err x, record s { engine = e })
        | ok c ↦ (ok tt, save (record s { engine = e }))
      ]

  -- `should_rotate`; the difference that the code forms may be negative, so its parts are compared.
  unfoldable pub should_rotate : ℕ → ClientIdentity → Result Bool
  unfolding current
  should_rotate now s = current s >>= λ active.
      ok (leb (or_default active.expiration_time now) (now + 2 * fallback_period cfg.params))
