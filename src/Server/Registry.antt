-- ===== src/Server/Registry.antt =====
-- server/sih_server/registry.py: the rotation engines, persisted in the table of credentials.
pub mod Enrollment
pub mod Rows
pub mod Persistence
pub mod Saving
pub mod Owners
pub mod Commits
pub mod Refinement
pub mod Soundness
pub mod Recovery
pub mod Transactions
pub mod Tokens
use secupload.Base.{
  ℕ, ◌==◌, ◌&&◌, ltb, if◌then◌else◌, Bool, true, false, List, [], ◌∷◌, ◌++◌, map, Bytes, Option,
  none, some, ◌+◌, not,
}
use secupload.Base.Result.{Result, ok, err, Error, Code}
use secupload.Crypto.{Primitives}
use secupload.Models.{CredentialStatus, CredentialPublic, IdentityKind, RotationParams}
use secupload.Rotation
use secupload.Rotation.{RotationEngine, Outcome}
use secupload.Rotation.Commands.{new}
use secupload.Server.Database.{
  Database, CredentialRow, EventType, AuditResult, find, filter, order_by, elem, of_identity,
  of_version, record_event,
}

-- `_row_to_public`
unfoldable pub row_to_public : CredentialRow → CredentialPublic
row_to_public row = record {
  identity_uuid = row.identity_uuid;
  version = row.credential_version;
  ed25519_public = row.signing_public_key;
  x25519_public = row.encryption_public_key;
  status = row.status;
  created_at = row.created_at;
  validation_deadline = row.validation_deadline;
  activation_time = row.activation_time;
  expiration_time = row.expiration_time;
}

-- The columns that `_save_public` writes.
unfoldable pub row_of : CredentialPublic → CredentialRow
row_of cred = record {
  identity_uuid = cred.identity_uuid;
  credential_version = cred.version;
  signing_public_key = cred.ed25519_public;
  encryption_public_key = cred.x25519_public;
  status = cred.status;
  created_at = cred.created_at;
  validation_deadline = cred.validation_deadline;
  activation_time = cred.activation_time;
  expiration_time = cred.expiration_time;
}

-- `_save_public`: the row of that identity and version, or a new one.
unfoldable pub save_public : CredentialPublic → List CredentialRow → List CredentialRow
unfolding row_of
save_public cred [] = row_of cred ∷ []
save_public cred (r ∷ rs) =
    if of_version cred.identity_uuid cred.version r
    then row_of cred ∷ rs
    else r ∷ save_public cred rs

-- `for cred in engine.all(): self._save_public(session, cred)`
unfoldable pub save_all : List CredentialPublic → List CredentialRow → List CredentialRow
unfolding save_public
save_all [] rs = rs
save_all (c ∷ cs) rs = save_all cs (save_public c rs)

abbrev pub with_rows : RotationParams → List CredentialRow → Option RotationEngine
with_rows params [] = none
with_rows params (r ∷ rs) = some (Rotation.load params (map row_to_public (r ∷ rs)))

unfoldable pub load_engine : RotationParams → Database → ℕ → Option RotationEngine
unfolding row_to_public
load_engine params db u =
    with_rows params (order_by (λ r. r.credential_version) (filter (of_identity u) db.credentials))

unfoldable pub engine_for : RotationParams → Database → ℕ → Result RotationEngine
unfolding load_engine
engine_for params db u = elim (load_engine params db u) [
  | none ↦ err (Error.registry_error Code.unknown_identity)
  | some e ↦ ok e
]

unfoldable pub get_credential : Database → ℕ → ℕ → Option CredentialPublic
unfolding row_to_public
get_credential db u v = elim (find (of_version u v) db.credentials) [
  | none ↦ none
  | some r ↦ some (row_to_public r)
]

unfoldable pub credential_for_auth :
    RotationParams → Database → ℕ → ℕ → ℕ → Result (Option CredentialPublic)
unfolding engine_for
credential_for_auth params db u v now = elim (engine_for params db u) [
  | err x ↦ err x
  | ok e ↦ ok (Rotation.credential_for_auth e v now)
]

-- `public_entries`: without a registered identity the query of the credentials is not made, and
-- would have found nothing.
unfoldable pub public_entries : IdentityKind → Database → List CredentialPublic
unfolding row_to_public
public_entries kind db =
    let uuids : List ℕ = elim kind [ IdentityKind.client ↦ db.clients | _ ↦ db.proxies ] in
    map row_to_public (
      order_by (λ r. r.identity_uuid)
        (order_by (λ r. r.credential_version)
          (filter (λ r. elem r.identity_uuid uuids) db.credentials)))

unfoldable pub identity_kind : Database → ℕ → Option IdentityKind
identity_kind db u =
    if elem u db.clients
    then some IdentityKind.client
    else if elem u db.proxies
    then some IdentityKind.proxy
    else none

-- `except RotationError`
abbrev as_registry_error : Error → Error
as_registry_error (Error.rotation_error c) = Error.registry_error c
as_registry_error x = x

-- `engine.all()` saved, and the commit.
unfoldable pub commit_engine : RotationEngine → Database → Database
unfolding save_all
commit_engine e db = record db { credentials = save_all (Rotation.all e) db.credentials }

-- The transaction around one transition: a raise leaves the database as it was.
unfoldable pub transact :
    {A : Type 0} → (RotationEngine → Outcome A) → RotationEngine → Database → Result A × Database
unfolding commit_engine
transact fn e db =
    let (r, e1) = fn e in
    elim r [ err x ↦ (err (as_registry_error x), db) | ok a ↦ (ok a, commit_engine e1 db) ]

-- `_apply`
unfoldable pub apply :
    {A : Type 0}
    → RotationParams
    → ℕ
    → Bool
    → (RotationEngine → Outcome A)
    → Database
    → Result A × Database
unfolding load_engine transact
apply params u allow_unknown fn db = elim (load_engine params db u) [
  | none ↦
      if allow_unknown
      then transact fn (new params) db
      else (err (Error.registry_error Code.unknown_identity), db)
  | some e ↦ transact fn e db
]

-- An audit record after a call that returned.
abbrev pub audited :
    {A B : Type 0}
    → (A → Result B)
    → (A → Database → Database)
    → Result A × Database
    → Result B × Database
audited result event (err x, db) = (err x, db)
audited result event (ok a, db) = (result a, event a db)

-- `changed[-1]`
abbrev pub last : {A : Type 0} → List A → Option A
last [] = none
last (x ∷ []) = some x
last (x ∷ y ∷ ys) = last (y ∷ ys)

unfoldable pub generated_credential : ℕ → ℕ → Bytes → Bytes → CredentialPublic
generated_credential u version ed25519 x25519 = record {
  identity_uuid = u;
  version = version;
  ed25519_public = ed25519;
  x25519_public = x25519;
  status = CredentialStatus.generated;
  created_at = 0;
  validation_deadline = none;
  activation_time = none;
  expiration_time = none;
}

-- `fn` of `submit_successor`
unfoldable pub submit_fn :
    Primitives
    → CredentialPublic
    → Bytes
    → Bytes
    → ℕ
    → RotationEngine
    → Outcome (Option CredentialPublic)
submit_fn prim cred signature metadata now e =
    let (r, e1) = Rotation.submit_successor prim cred signature metadata now e in
    elim r [ err x ↦ (err x, e1) | ok _ ↦ (ok (Rotation.get e1 cred.version), e1) ]

unfoldable pub submit_successor :
    Primitives
    → RotationParams
    → ℕ
    → ℕ
    → Bytes
    → Bytes
    → Bytes
    → Bytes
    → ℕ
    → Database
    → Result (Option CredentialPublic) × Database
unfolding generated_credential submit_fn apply
submit_successor prim params u version ed25519 x25519 signature metadata now db =
    audited ok
      (λ _. record_event EventType.credential_generation u (some version) AuditResult.granted)
      (apply params u false
        (submit_fn prim (generated_credential u version ed25519 x25519) signature metadata now) db)

-- The audit record after a checkpoint names the last credential that changed.
unfoldable pub checkpoint_audit :
    ℕ → Result (List CredentialPublic) × Database → Result (List CredentialPublic) × Database
checkpoint_audit u (err x, db) = (err x, db)
checkpoint_audit u (ok changed, db) = elim (last changed) [
  | none ↦ (err Error.index_error, db)
  | some c ↦ (
    ok changed,
    record_event EventType.credential_promotion u (some c.version) AuditResult.granted db,
  )
]

unfoldable pub checkpoint :
    RotationParams → ℕ → ℕ → Database → Result (List CredentialPublic) × Database
unfolding apply checkpoint_audit
checkpoint params u now db = checkpoint_audit u (apply params u false (Rotation.checkpoint now) db)

unfoldable pub rollback : RotationParams → ℕ → ℕ → Database → Result CredentialPublic × Database
unfolding apply
rollback params u now db =
    audited ok
      (λ c. record_event EventType.credential_rollback u (some c.version) AuditResult.granted)
      (apply params u false (Rotation.rollback now) db)

unfoldable pub revoke : RotationParams → ℕ → ℕ → ℕ → Database → Result CredentialPublic × Database
unfolding apply
revoke params u version now db =
    audited ok
      (λ _. record_event EventType.credential_revocation u (some version) AuditResult.granted)
      (apply params u false (Rotation.revoke version now) db)

-- `fn` of `expire_all`
abbrev pub expire_fn : ℕ → RotationEngine → Outcome (List CredentialPublic)
expire_fn now e = let (changed, e1) = Rotation.expire_all now e in (ok changed, e1)

abbrev pub record_expired : ℕ → List CredentialPublic → Database → Database
record_expired u [] db = db
record_expired u (c ∷ cs) db =
    record_expired u cs
      (record_event EventType.credential_expiration u (some c.version) AuditResult.granted db)

-- One turn of the loop of `expire_all`, and the loop, over the identities in the set's order.
unfoldable pub expire_identity :
    RotationParams → ℕ → ℕ → Database → Result (List CredentialPublic) × Database
unfolding apply
expire_identity params now u db =
    audited ok (record_expired u) (apply params u false (expire_fn now) db)

unfoldable pub expire_identities :
    RotationParams → ℕ → List ℕ → Database → Result (List (ℕ × CredentialPublic)) × Database
unfolding expire_identity
expire_identities params now [] db = (ok [], db)
expire_identities params now (u ∷ us) db =
    let (r, db1) = expire_identity params now u db in
    elim r [
      | err x ↦ (err x, db1)
      | ok changed ↦
          audited (λ rest. ok (map (λ c. (u, c)) changed ++ rest)) (λ _ d. d)
            (expire_identities params now us db1)
    ]

-- `{uuid.UUID(r.identity_uuid) for r in …}`
abbrev distinct : List ℕ → List ℕ
distinct [] = []
distinct (u ∷ us) = let rest = distinct us in if elem u rest then rest else u ∷ rest

-- `set_order` is the order in which Python goes through a set.
unfoldable pub expire_all :
    (List ℕ → List ℕ)
    → RotationParams
    → ℕ
    → Database
    → Result (List (ℕ × CredentialPublic)) × Database
unfolding expire_identities
expire_all set_order params now db =
    expire_identities params now (set_order (distinct (map (λ r. r.identity_uuid) db.credentials)))
      db
