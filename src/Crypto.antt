-- ===== src/Crypto.antt =====
-- shared/sih_shared/crypto.py. The primitives of the package `cryptography` are a parameter, the record
-- `Primitives`; what the module adds to them (length checks, the translation of exceptions, the
-- keys' contexts, the chunk nonces) is modelled.
pub mod Nonces
use secupload.Base.{
  ℕ, ◌^◌, ◌==◌, ltb, if◌then◌else◌, Bool, [], ◌∷◌, ◌++◌, length, Bytes, Option, none, some,
}
use secupload.Base.Result.{Result, ok, err, Error, ◌>>=◌, ◌>>◌, guard}
use secupload.Codec.Digits.{to_bytes}

-- The calls of `cryptography`: a key object is its raw bytes; `none` is the ValueError or InvalidTag
-- that the package raises.
pub record Primitives : Type 0 where
  -- `Ed25519PublicKey.from_public_bytes` and `key.verify`
  pub ed25519_accepts : Bytes → Bool
  pub ed25519_verify : Bytes → Bytes → Bytes → Bool
  -- `Ed25519PrivateKey.from_private_bytes(k).sign(data)`
  pub ed25519_sign : Bytes → Bytes → Option Bytes
  -- `X25519PrivateKey.from_private_bytes` and `X25519PublicKey.from_public_bytes` of both keys
  pub x25519_accepts : Bytes → Bytes → Bool
  -- `X25519PrivateKey.exchange`, of keys that may be malformed
  pub x25519_exchange : Bytes → Bytes → Option Bytes
  -- HKDF-SHA256 to 32 bytes under a salt and an info string
  pub hkdf : Bytes → Bytes → Bytes → Bytes
  -- `AESGCM(key).encrypt(nonce, text, aad)` and `decrypt`
  pub aesgcm_encrypt : Bytes → Bytes → Bytes → Bytes → Bytes
  pub aesgcm_decrypt : Bytes → Bytes → Bytes → Bytes → Option Bytes

abbrev pub ed25519_signature_size : ℕ
ed25519_signature_size = 64

abbrev aesgcm_nonce_size : ℕ
aesgcm_nonce_size = 12

abbrev or_raise {ℓ} : {A : Type ℓ} → Option A → Error → Result A
or_raise none e = err e
or_raise (some a) e = ok a

-- `except (CryptoError, InvalidTag, ValueError)`: every failure becomes an AuthenticationError.
abbrev as_authentication : Result Bytes → Result Bytes
as_authentication (ok text) = ok text
as_authentication (err e) = err Error.authentication_error

-- `b"sih-app-enc-v1"`, `b"sih-object-key-v1\x00"`, `b"sih-message-key-v1"`
abbrev app_salt : Bytes
app_salt =
    b's' ∷ b'i' ∷ b'h' ∷ b'-' ∷ b'a' ∷ b'p' ∷ b'p' ∷ b'-' ∷ b'e' ∷ b'n' ∷ b'c' ∷ b'-' ∷ b'v' ∷ b'1'
    ∷ []

abbrev object_info_prefix : Bytes
object_info_prefix =
    b's' ∷ b'i' ∷ b'h' ∷ b'-' ∷ b'o' ∷ b'b' ∷ b'j' ∷ b'e' ∷ b'c' ∷ b't' ∷ b'-' ∷ b'k' ∷ b'e' ∷ b'y'
    ∷ b'-' ∷ b'v' ∷ b'1' ∷ 0 ∷ []

abbrev message_info : Bytes
message_info =
    b's' ∷ b'i' ∷ b'h' ∷ b'-' ∷ b'm' ∷ b'e' ∷ b's' ∷ b's' ∷ b'a' ∷ b'g' ∷ b'e' ∷ b'-' ∷ b'k' ∷ b'e'
    ∷ b'y' ∷ b'-' ∷ b'v' ∷ b'1' ∷ []

-- The keys of different contexts come from different info strings.
unfoldable pub chunk_nonce : ℕ → Result Bytes
chunk_nonce index = if ltb index (256 ^ 12) then ok (to_bytes 12 index) else err Error.crypto_error

module _ (prim : Primitives) where
  open prim use {
    ed25519_accepts, ed25519_verify, ed25519_sign, x25519_accepts, x25519_exchange, hkdf,
    aesgcm_encrypt, aesgcm_decrypt,
  }

  unfoldable pub sign_ed25519 : Bytes → Bytes → Result Bytes
  sign_ed25519 private_key text = or_raise (ed25519_sign private_key text) Error.crypto_error

  unfoldable pub verify_ed25519 : Bytes → Bytes → Bytes → Result (Unit {0})
  verify_ed25519 public_key text signature = do
    guard (length signature == ed25519_signature_size) Error.signature_error
    guard (ed25519_accepts public_key) Error.crypto_error
    guard (ed25519_verify public_key text signature) Error.signature_error

  unfoldable pub object_key_from_shared : Bytes → Bytes → Bytes
  object_key_from_shared shared object_uuid =
      hkdf app_salt (object_info_prefix ++ object_uuid) shared

  unfoldable pub message_key_from_shared : Bytes → Bytes
  message_key_from_shared shared = hkdf app_salt message_info shared

  unfoldable pub x25519_shared_secret : Bytes → Bytes → Result Bytes
  x25519_shared_secret private_key peer = do
    guard (x25519_accepts private_key peer) Error.crypto_error
    or_raise (x25519_exchange private_key peer) Error.value_error

  -- `ephemeral` is the fresh key pair that the call generates: (private, public).
  unfoldable pub seal_message :
      Bytes × Bytes → Bytes → Bytes → Bytes → Bytes → Result (Bytes × Bytes)
  unfolding message_key_from_shared
  seal_message ephemeral recipient nonce aad plaintext = do
    guard (length nonce == aesgcm_nonce_size) Error.crypto_error
    shared ← or_raise (x25519_exchange ephemeral.0 recipient) Error.value_error
    ok (ephemeral.1, aesgcm_encrypt (message_key_from_shared shared) nonce plaintext aad)

  unfoldable pub open_message : Bytes → Bytes → Bytes → Bytes → Bytes → Result Bytes
  unfolding x25519_shared_secret message_key_from_shared
  open_message private_key ephemeral_public nonce aad ciphertext = as_authentication (do
    shared ← x25519_shared_secret private_key ephemeral_public
    or_raise (aesgcm_decrypt (message_key_from_shared shared) nonce ciphertext aad)
        Error.value_error)

  unfoldable pub seal_chunk :
      Bytes × Bytes → Bytes → Bytes → ℕ → Bytes → Bytes → Result (Bytes × Bytes)
  unfolding object_key_from_shared chunk_nonce
  seal_chunk ephemeral recipient object_uuid index aad chunk = do
    shared ← or_raise (x25519_exchange ephemeral.0 recipient) Error.value_error
    nonce ← chunk_nonce index
    ok (ephemeral.1, aesgcm_encrypt (object_key_from_shared shared object_uuid) nonce chunk aad)

  unfoldable pub open_chunk : Bytes → Bytes → ℕ → Bytes → Bytes → Bytes → Result Bytes
  unfolding x25519_shared_secret object_key_from_shared chunk_nonce
  open_chunk private_key object_uuid index aad ephemeral_public ciphertext = as_authentication (do
    shared ← x25519_shared_secret private_key ephemeral_public
    nonce ← chunk_nonce index
    or_raise (aesgcm_decrypt (object_key_from_shared shared object_uuid) nonce ciphertext aad)
        Error.value_error)
