-- ===== src/Rotation.antt =====
-- shared/sih_shared/credential_state.py: the class `RotationEngine`, the credentials of one identity.
-- A method returns its result or its exception beside the new state, since what was written before
-- a raise stays written.
pub mod Counts
pub mod Valid
pub mod Invariant
pub mod Commands
pub mod Edges
pub mod Lifecycle
pub mod Promotion
pub mod Authentication
pub mod Submission
pub mod Waiting
pub mod Uniqueness
pub mod Acceptance
use secupload.Base.{
  ℕ, ◌+◌, ◌≤◌, ltb, leb, ◌==◌, if◌then◌else◌, Bool, true, false, not, ◌&&◌, ◌||◌, List, [], ◌∷◌,
  ◌++◌, map, Bytes, Option, none, some, max,
}
use secupload.Base.Dict.{Dict, lookup, insert, max_key}
use secupload.Base.Result.{Result, ok, err, Error, Code}
use secupload.Crypto.{Primitives, verify_ed25519}
use secupload.Models.{
  CredentialStatus, CredentialPublic, RotationParams, same_status, is_authenticating, is_window,
  fallback_period, validation_deadline_from, expiration_from, or_default,
}
use secupload.Successor.{encode_successor_payload}

-- `_creds`
abbrev pub Creds : Type 0
Creds = Dict CredentialPublic

-- The object: `_params` and `_creds`.
pub record RotationEngine : Type 0 where
  pub params : RotationParams
  pub creds : Creds

abbrev pub Outcome : Type 0 → Type 0
Outcome A = Result A × RotationEngine

abbrev raise : {A : Type 0} → Code → RotationEngine → Outcome A
raise c e = (err (Error.rotation_error c), e)

-- `RotationEngine.load`
unfoldable pub load_from : Creds → List CredentialPublic → Creds
load_from creds [] = creds
load_from creds (c ∷ cs) = load_from (insert c.version c creds) cs

unfoldable pub load : RotationParams → List CredentialPublic → RotationEngine
unfolding load_from
load params cs = record { params = params; creds = load_from [] cs }

unfoldable pub get : RotationEngine → ℕ → Option CredentialPublic
get e version = lookup version e.creds

-- `[self._creds[v] for v in sorted(self._creds)]`
unfoldable pub insert_sorted : ℕ × CredentialPublic → Creds → Creds
insert_sorted x [] = x ∷ []
insert_sorted x (y ∷ ys) = if leb x.0 y.0 then x ∷ y ∷ ys else y ∷ insert_sorted x ys

unfoldable pub sorted : Creds → Creds
unfolding insert_sorted
sorted [] = []
sorted (x ∷ xs) = insert_sorted x (sorted xs)

unfoldable pub all : RotationEngine → List CredentialPublic
unfolding sorted
all e = map (λ x. x.1) (sorted e.creds)

-- `sum(1 for c in … if c.status in WINDOW_STATUSES)`
unfoldable pub window_size : Creds → ℕ
window_size [] = 0
window_size ((v, c) ∷ d) = (if is_window c.status then 1 else 0) + window_size d

unfoldable pub versions_in_window : RotationEngine → ℕ
unfolding window_size
versions_in_window e = window_size e.creds

-- `_by_status`: the first in the dict's order
unfoldable pub by_status : CredentialStatus → Creds → Option CredentialPublic
by_status s [] = none
by_status s ((v, c) ∷ d) = if same_status c.status s then some c else by_status s d

unfoldable pub active : RotationEngine → Option CredentialPublic
active e = by_status CredentialStatus.active e.creds

unfoldable pub fallback : RotationEngine → Option CredentialPublic
fallback e = by_status CredentialStatus.fallback e.creds

unfoldable pub validating : RotationEngine → Option CredentialPublic
validating e = by_status CredentialStatus.validating e.creds

-- `_expired`
unfoldable pub is_expired : CredentialPublic → ℕ → Bool
is_expired c now = elim c.expiration_time [ none ↦ false | some t ↦ leb t now ]

abbrev pub is_some {ℓ} : {A : Type ℓ} → Option A → Bool
is_some none = false
is_some (some a) = true

-- `self._creds[version] = cred`
abbrev pub store : RotationEngine → ℕ → CredentialPublic → RotationEngine
store e version cred = record e { creds = insert version cred e.creds }

unfoldable pub provisioned : RotationParams → CredentialPublic → ℕ → CredentialPublic
provisioned params cred now = record cred {
  status = CredentialStatus.active;
  created_at = now;
  validation_deadline = none;
  activation_time = some now;
  expiration_time = some (expiration_from params now);
}

abbrev is_empty : Creds → Bool
is_empty [] = true
is_empty (x ∷ d) = false

unfoldable pub provision_initial : CredentialPublic → ℕ → RotationEngine → Outcome (Unit {0})
unfolding active validating provisioned
provision_initial cred now e =
    if is_some (active e) || is_some (validating e)
    then raise Code.already_provisioned e
    else if not (is_empty e.creds) && not (cred.version == max_key e.creds + 1)
    then raise Code.version_order e
    else if not (same_status cred.status CredentialStatus.generated)
    then raise Code.invalid_status e
    else (ok tt, store e cred.version (provisioned e.params cred now))

unfoldable pub submitted : RotationParams → CredentialPublic → ℕ → CredentialPublic
submitted params cred now = record cred {
  status = CredentialStatus.validating;
  created_at = now;
  validation_deadline = some (validation_deadline_from params now);
  activation_time = none;
  expiration_time = some (expiration_from params now);
}

-- `except SignatureError`: any other exception of the verification goes on.
abbrev signature_outcome : Result (Unit {0}) → Result (Unit {0})
signature_outcome (ok u) = ok u
signature_outcome (err Error.signature_error) =
    err (Error.rotation_error Code.bad_successor_signature)
signature_outcome (err e) = err e

module _ (prim : Primitives) where
  -- The signature check of `submit_successor`.
  unfoldable pub check_successor_signature :
      CredentialPublic → CredentialPublic → Bytes → Bytes → Result (Unit {0})
  check_successor_signature signer new_cred signature metadata =
      elim (encode_successor_payload signer.identity_uuid signer.version new_cred.version
        new_cred.ed25519_public new_cred.x25519_public metadata) [
          | err x ↦ err x
          | ok payload ↦
              signature_outcome (verify_ed25519 prim signer.ed25519_public payload signature)
        ]

  -- The part of `submit_successor` after the signer is known.
  unfoldable pub submit_by :
      CredentialPublic → CredentialPublic → Bytes → Bytes → ℕ → RotationEngine → Outcome (Unit {0})
  unfolding validating versions_in_window is_expired check_successor_signature submitted
  submit_by signer new_cred signature metadata now e =
      if is_expired signer now
      then raise Code.signer_expired e
      else if is_some (validating e)
      then raise Code.window_full e
      else if not (new_cred.version == max_key e.creds + 1)
      then raise Code.version_order e
      else if not (new_cred.identity_uuid == signer.identity_uuid)
      then raise Code.identity_mismatch e
      else if leb 3 (versions_in_window e)
      then raise Code.window_full e
      else elim (check_successor_signature signer new_cred signature metadata) [
        | err x ↦ (err x, e)
        | ok _ ↦ (ok tt, store e new_cred.version (submitted e.params new_cred now))
      ]

  unfoldable pub submit_successor :
      CredentialPublic → Bytes → Bytes → ℕ → RotationEngine → Outcome (Unit {0})
  unfolding active submit_by
  submit_successor new_cred signature metadata now e = elim (active e) [
    | none ↦ raise Code.no_active e
    | some signer ↦ submit_by signer new_cred signature metadata now e
  ]

-- `_replace(cred, status=…)`
abbrev pub with_status : CredentialPublic → CredentialStatus → CredentialPublic
with_status c s = record c { status = s }

unfoldable pub demoted : RotationParams → CredentialPublic → ℕ → CredentialPublic
demoted params v2 now = record v2 {
  status = CredentialStatus.fallback;
  expiration_time = some (max (or_default v2.expiration_time 0) (now + fallback_period params));
}

unfoldable pub promoted : CredentialPublic → ℕ → CredentialPublic
promoted v3 now = record v3 { status = CredentialStatus.active; activation_time = some now }

-- `if v1 is not None`: the engine without the old fallback, and `changed` so far.
unfoldable pub terminate_fallback :
    Option CredentialPublic → RotationEngine → List CredentialPublic × RotationEngine
terminate_fallback none e = ([], e)
terminate_fallback (some v1) e =
    let c = with_status v1 CredentialStatus.terminated in (c ∷ [], store e v1.version c)

-- The writes of a checkpoint that nothing refuses.
unfoldable pub promote :
    CredentialPublic → CredentialPublic → ℕ → RotationEngine → Outcome (List CredentialPublic)
unfolding fallback terminate_fallback demoted promoted
promote v3 v2 now e =
    let (changed, e1) = terminate_fallback (fallback e) e in
    let d = demoted e.params v2 now in
    let p = promoted v3 now in
    (ok (changed ++ d ∷ p ∷ []), store (store e1 v2.version d) v3.version p)

-- The part of `checkpoint` after the deadline has passed and V3 is known not to have expired.
unfoldable pub checkpoint_active :
    CredentialPublic → ℕ → RotationEngine → Outcome (List CredentialPublic)
unfolding active is_expired promote
checkpoint_active v3 now e = elim (active e) [
  | none ↦ raise Code.no_active e
  | some v2 ↦ if is_expired v2 now then raise Code.fallback_validity e else promote v3 v2 now e
]

-- The part of `checkpoint` after V3 is known.
unfoldable pub checkpoint_found :
    CredentialPublic → ℕ → RotationEngine → Outcome (List CredentialPublic)
unfolding is_expired checkpoint_active
checkpoint_found v3 now e =
    if ltb now (or_default v3.validation_deadline 0)
    then raise Code.checkpoint_not_reached e
    else if is_expired v3 now
    then raise Code.v3_expired (store e v3.version (with_status v3 CredentialStatus.expired))
    else checkpoint_active v3 now e

unfoldable pub checkpoint : ℕ → RotationEngine → Outcome (List CredentialPublic)
unfolding validating checkpoint_found
checkpoint now e = elim (validating e) [
  | none ↦ raise Code.no_validating e
  | some v3 ↦ checkpoint_found v3 now e
]

unfoldable pub rollback : ℕ → RotationEngine → Outcome CredentialPublic
unfolding validating
rollback now e = elim (validating e) [
  | none ↦ raise Code.no_validating e
  | some v3 ↦ let c = with_status v3 CredentialStatus.terminated in (ok c, store e v3.version c)
]

unfoldable pub revoke : ℕ → ℕ → RotationEngine → Outcome CredentialPublic
revoke version now e = elim (lookup version e.creds) [
  | none ↦ raise Code.unknown_version e
  | some cred ↦ let c = with_status cred CredentialStatus.revoked in (ok c, store e version c)
]

-- One turn of the loop of `expire_all`.
unfoldable pub expire_one : ℕ → CredentialPublic → CredentialPublic
unfolding is_expired
expire_one now c =
    if is_authenticating c.status && is_expired c now
    then with_status c CredentialStatus.expired
    else c

unfoldable pub expire_creds : ℕ → Creds → Creds
unfolding expire_one
expire_creds now [] = []
expire_creds now ((v, c) ∷ d) = (v, expire_one now c) ∷ expire_creds now d

-- `changed`
unfoldable newly_expired : ℕ → Creds → List CredentialPublic
unfolding expire_one is_expired
newly_expired now [] = []
newly_expired now ((v, c) ∷ d) =
    let rest = newly_expired now d in
    if is_authenticating c.status && is_expired c now then expire_one now c ∷ rest else rest

unfoldable pub expire_all : ℕ → RotationEngine → List CredentialPublic × RotationEngine
unfolding expire_creds newly_expired
expire_all now e = (newly_expired now e.creds, record e { creds = expire_creds now e.creds })

unfoldable pub usable : ℕ → CredentialPublic → Bool
unfolding is_expired
usable now c = is_authenticating c.status && not (is_expired c now)

unfoldable pub credential_for_auth : RotationEngine → ℕ → ℕ → Option CredentialPublic
unfolding usable
credential_for_auth e version now = elim (lookup version e.creds) [
  | none ↦ none
  | some c ↦ if usable now c then some c else none
]
