-- ===== src/Models.antt =====
-- shared/sih_shared/models.py and config.py: credentials, identities, objects, and the deployment's
-- timing. Times are unix seconds by the server's clock, so not negative.
use secupload.Base.{ℕ, ◌+◌, ◌*◌, ◌/◌, ◌==◌, ◌||◌, if◌then◌else◌, Bool, Option, none, some, Bytes}
use secupload.Codec.Utf8.{Str}

pub data CredentialStatus : Type 0 where
  generated validating active fallback expired terminated revoked : CredentialStatus

pub data IdentityKind : Type 0 where
  client proxy server : IdentityKind

-- `_STATUS_CODES`
abbrev pub status_code : CredentialStatus → ℕ
status_code CredentialStatus.generated = 0
status_code CredentialStatus.validating = 1
status_code CredentialStatus.active = 2
status_code CredentialStatus.fallback = 3
status_code CredentialStatus.expired = 4
status_code CredentialStatus.terminated = 5
status_code CredentialStatus.revoked = 6

-- `a == b` on statuses
abbrev pub same_status : CredentialStatus → CredentialStatus → Bool
same_status a b = status_code a == status_code b

-- `status in AUTHENTICATING_STATUSES`
abbrev pub is_authenticating : CredentialStatus → Bool
is_authenticating s =
    same_status s CredentialStatus.active || same_status s CredentialStatus.fallback

-- `status in WINDOW_STATUSES`
abbrev pub is_window : CredentialStatus → Bool
is_window s =
    same_status s CredentialStatus.validating
    || (same_status s CredentialStatus.active || same_status s CredentialStatus.fallback)

pub record CredentialPublic : Type 0 where
  pub identity_uuid : ℕ
  pub version : ℕ
  pub ed25519_public : Bytes
  pub x25519_public : Bytes
  pub status : CredentialStatus
  pub created_at : ℕ
  pub validation_deadline : Option ℕ
  pub activation_time : Option ℕ
  pub expiration_time : Option ℕ

pub record ObjectInfo : Type 0 where
  pub object_uuid : ℕ
  pub file_type : Str
  pub file_size : ℕ
  pub metadata : Str
  pub content_integrity : Str
  pub storage_reference : Str

pub record RotationParams : Type 0 where
  pub rotation_duration : ℕ

abbrev pub timestamp_window : ℕ
timestamp_window = 300

abbrev pub validation_period : RotationParams → ℕ
validation_period p = p.rotation_duration / 2

abbrev pub fallback_period : RotationParams → ℕ
fallback_period p = p.rotation_duration / 2

abbrev pub total_validity : RotationParams → ℕ
total_validity p = 3 * p.rotation_duration / 2

abbrev pub validation_deadline_from : RotationParams → ℕ → ℕ
validation_deadline_from p created_at = created_at + validation_period p

abbrev pub expiration_from : RotationParams → ℕ → ℕ
expiration_from p created_at = created_at + total_validity p

-- `value or default` for an optional number: 0 counts as missing.
abbrev pub or_default : Option ℕ → ℕ → ℕ
or_default none d = d
or_default (some v) d = if v == 0 then d else v
