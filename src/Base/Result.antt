-- ===== src/Base/Result.antt =====
-- Python's exceptions as values: every `raise` of the program is an `err`, and `do` chains the calls
-- that may raise.
use mathlib.Core.Path.{◌≡◌, refl}
use mathlib.Core.Logic.{◌⊎◌, inl, inr}
use mathlib.Core.Bool.{Bool, true, false}

-- The `code` strings that the program's exceptions carry.
pub data Code : Type 0 where
  already_provisioned version_order invalid_status no_active signer_expired window_full : Code
  identity_mismatch bad_successor_signature no_validating checkpoint_not_reached v3_expired : Code
  fallback_validity unknown_version bad_tag : Code
  unknown_identity bad_token token_used token_expired token_mismatch already_enrolled : Code
  stale_timestamp replay bad_credential bad_signature : Code
  forbidden already_exists not_found finalized integrity_failure bad_request : Code
  keys_missing corrupt_identity internal : Code
  no_token bad_protocol enroll_rejected rotate_rejected bad_channel not_connected bad_chunk : Code
  chunk_read_rejected write_rejected chunk_rejected read_rejected : Code

-- One constructor for each exception class.
pub data Error : Type 0 where
  struct_error unicode_error encode_error decode_error value_error key_error index_error os_error :
      Error
  protocol_error crypto_error signature_error authentication_error frame_error : Error
  tunnel2_error proxy_error : Error
  rotation_error registry_error auth_error authorization_error object_store_error : Code → Error
  server_identity_error client_identity_error client_error : Code → Error

pub data Result {ℓ} (T : Type ℓ) : Type ℓ where
  ok : T → Result T
  err : Error → Result T

-- The rest of a block runs on the value of a call that returned.
infixl 5 ◌>>=◌ ◌>>◌
abbrev pub ◌>>=◌ {ℓ κ} : {S : Type ℓ} {T : Type κ} → Result S → (S → Result T) → Result T
ok value >>= rest = rest value
err x >>= rest = err x

abbrev pub ◌>>◌ {ℓ} : {T : Type ℓ} → Result (Unit {0}) → Result T → Result T
check >> rest = check >>= λ _. rest

-- `if not test: raise x`
abbrev pub guard : Bool → Error → Result (Unit {0})
guard false x = err x
guard true x = ok tt

-- A block that returned: what its first call gave, and that the rest returned from there.
pub >>=-eq-ok {ℓ κ} :
    {S : Type ℓ} {T : Type κ} (call : Result S) (rest : S → Result T) {result : T}
    → (call >>= rest) ≡ ok result
    → (value : S) × (call ≡ ok value) × (rest value ≡ ok result)
>>=-eq-ok (err x) rest returned = cc
>>=-eq-ok (ok value) rest returned = (value, refl, returned)

pub ok-injective {ℓ} : {T : Type ℓ} {s t : T} → ok s ≡ ok t → s ≡ t
ok-injective same = cc

pub Result-cases {ℓ} :
    {A : Type ℓ} (r : Result A) → ((a : A) × (r ≡ ok a)) ⊎ ((x : Error) × (r ≡ err x))
Result-cases (ok a) = inl (a, refl)
Result-cases (err x) = inr (x, refl)
