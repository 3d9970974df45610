-- ===== src/Server/Database.antt =====
-- server/sih_server/database.py and audit.py: the tables as lists of rows, in the order of insertion,
-- and the queries that the server makes. An identity's string form is its number.
use secupload.Base.{
  ℕ, ◌==◌, leb, ◌&&◌, if◌then◌else◌, Bool, true, false, List, [], ◌∷◌, ◌++◌, Bytes, Option, none,
  some,
}
use secupload.Codec.Utf8.{Str}
use secupload.Models.{CredentialStatus, IdentityKind}

pub record CredentialRow : Type 0 where
  pub identity_uuid : ℕ
  pub credential_version : ℕ
  pub signing_public_key : Bytes
  pub encryption_public_key : Bytes
  pub status : CredentialStatus
  pub created_at : ℕ
  pub validation_deadline : Option ℕ
  pub activation_time : Option ℕ
  pub expiration_time : Option ℕ

pub record PermissionRow : Type 0 where
  pub client_uuid : ℕ
  pub object_uuid : ℕ
  pub operation : Str
  pub policy : Str

pub record ObjectRow : Type 0 where
  pub object_uuid : ℕ
  pub file_type : Str
  pub file_size : ℕ
  pub object_metadata : Str
  pub content_integrity : Str
  pub storage_reference : Str

-- The event types of audit.py.
pub data EventType : Type 0 where
  enrollment recovery auth_success auth_failure credential_generation : EventType
  credential_validation credential_promotion credential_rollback credential_revocation : EventType
  credential_expiration authorization_failure object_access integrity_failure : EventType
  replay_rejection registry_sync tls_failure transition_failure : EventType

-- `result`: "OK" or "DENY"
pub data AuditResult : Type 0 where
  granted deny : AuditResult

pub record AuditRow : Type 0 where
  pub identity_uuid : Option ℕ
  pub credential_version : Option ℕ
  pub event_type : EventType
  pub timestamp : ℕ
  pub outcome : AuditResult

pub data Purpose : Type 0 where
  enroll recover : Purpose

pub record TokenRow : Type 0 where
  pub token_hash : Bytes
  pub purpose : Purpose
  pub identity_kind : IdentityKind
  pub identity_uuid : Option ℕ
  pub expires_at : ℕ
  pub used_at : Option ℕ

-- The tables; `wall_clock` is what `int(time.time())` returns.
pub record Database : Type 0 where
  pub clients : List ℕ
  pub proxies : List ℕ
  pub credentials : List CredentialRow
  pub permissions : List PermissionRow
  pub objects : List ObjectRow
  pub audit_events : List AuditRow
  pub enrollment_tokens : List TokenRow
  pub wall_clock : ℕ

-- `filter(…).one_or_none()` under a unique key: the first row that matches, if any.
unfoldable pub find {ℓ} : {A : Type ℓ} → (A → Bool) → List A → Option A
find p [] = none
find p (x ∷ xs) = if p x then some x else find p xs

-- `filter(…).all()`
unfoldable pub filter {ℓ} : {A : Type ℓ} → (A → Bool) → List A → List A
filter p [] = []
filter p (x ∷ xs) = if p x then x ∷ filter p xs else filter p xs

-- `order_by(column)`
unfoldable pub insert_by {ℓ} : {A : Type ℓ} → (A → ℕ) → A → List A → List A
insert_by key x [] = x ∷ []
insert_by key x (y ∷ ys) = if leb (key x) (key y) then x ∷ y ∷ ys else y ∷ insert_by key x ys

unfoldable pub order_by {ℓ} : {A : Type ℓ} → (A → ℕ) → List A → List A
unfolding insert_by
order_by key [] = []
order_by key (x ∷ xs) = insert_by key x (order_by key xs)

unfoldable pub elem : ℕ → List ℕ → Bool
elem u [] = false
elem u (x ∷ xs) = if u == x then true else elem u xs

-- Whether a row is the credential of an identity, and of one version.
abbrev pub of_identity : ℕ → CredentialRow → Bool
of_identity u r = u == r.identity_uuid

abbrev pub of_version : ℕ → ℕ → CredentialRow → Bool
of_version u v r = (u == r.identity_uuid) && (v == r.credential_version)

-- `AuditLog.record`, with the source "SERVER" that every caller leaves as it is.
unfoldable pub record_event : EventType → ℕ → Option ℕ → AuditResult → Database → Database
record_event event identity version result db = record db {
  audit_events =
      db.audit_events
      ++ record {
        identity_uuid = some identity;
        credential_version = version;
        event_type = event;
        timestamp = db.wall_clock;
        outcome = result;
      }
        ∷ [];
}
