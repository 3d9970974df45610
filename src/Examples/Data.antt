-- ===== src/Examples/Data.antt =====
-- The data of the runs: primitives, credentials, engines, a database.
use secupload.Base.{ℕ, ◌+◌, refl, arith, true, [], ◌∷◌, Bytes, none, some, replicate}
use secupload.Base.Result.{Result, ok, err}
use secupload.Crypto.{Primitives}
use secupload.Models.{CredentialStatus, CredentialPublic, RotationParams}
use secupload.Rotation.{RotationEngine}
use secupload.Rotation.Counts.{count}
use secupload.Rotation.Valid.{IsValid}

-- Primitives that accept every key and signature and encrypt by leaving the text as it is.
abbrev pub prim : Primitives
prim = record {
  ed25519_accepts = λ _. true;
  ed25519_verify = λ _ _ _. true;
  ed25519_sign = λ _ _. some (replicate 64 0);
  x25519_accepts = λ _ _. true;
  x25519_exchange = λ _ _. some [];
  hkdf = λ _ _ _. [];
  aesgcm_encrypt = λ _ _ text _. text;
  aesgcm_decrypt = λ _ _ text _. some text;
}

abbrev pub params : RotationParams
params = record { rotation_duration = 100 }

abbrev pub credential : ℕ → CredentialStatus → ℕ → CredentialPublic
credential version status created = record {
  identity_uuid = 7;
  version = version;
  ed25519_public = version ∷ [];
  x25519_public = version ∷ [];
  status = status;
  created_at = created;
  validation_deadline = some (created + 50);
  activation_time = none;
  expiration_time = some (created + 150);
}

abbrev pub first : CredentialPublic
first = credential 1 CredentialStatus.fallback 0

abbrev pub second : CredentialPublic
second = credential 2 CredentialStatus.active 10

abbrev pub third : CredentialPublic
third = credential 3 CredentialStatus.validating 20

abbrev pub revoked : CredentialPublic
revoked = credential 1 CredentialStatus.revoked 0

-- A full window, and an engine with no successor yet.
abbrev pub full : RotationEngine
full = record { params = params; creds = (1, first) ∷ (2, second) ∷ (3, third) ∷ [] }

abbrev pub settled : RotationEngine
settled = record { params = params; creds = (1, revoked) ∷ (2, second) ∷ [] }

pub full-IsValid : IsValid full
unfolding count
full-IsValid = record {
  keyed = (refl, refl, (refl, refl, (refl, refl, tt)));
  one_active = omega arith;
  one_fallback = omega arith;
  one_validating = omega arith;
}

pub settled-IsValid : IsValid settled
unfolding count
settled-IsValid = record {
  keyed = (refl, refl, (refl, refl, tt));
  one_active = omega arith;
  one_fallback = omega arith;
  one_validating = omega arith;
}

-- The value of a result that is there, or nothing.
abbrev pub bytes_of : Result Bytes → Bytes
bytes_of (ok b) = b
bytes_of (err x) = []
