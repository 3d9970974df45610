-- ===== src/Server/Tunnel2/Sealing.antt =====
-- What the server seals for a client, the client opens.
use secupload.Base.{true, ℕ, ◌≡◌, arith, Bytes, some, ap, ◌∙◌}
use secupload.Base.Int.{ℤ}
use secupload.Base.Result.{ok, >>=-eq-ok}
use secupload.Crypto.{
  Primitives, seal_message, open_message, message_key_from_shared, sign_ed25519,
  x25519_shared_secret,
}
use secupload.Protocol.Aad.{build_aad}
use secupload.Protocol.Envelope
use secupload.Protocol.Envelope.{Envelope, signed_bytes}
use secupload.Protocol.Messages.{unwrap_encrypted}
use secupload.Protocol.RoundTrips.{wrap_round_trip}
use secupload.Server.Tunnel2.{envelope_aad, outgoing_payload, build_outgoing, decrypt_to}

-- What the documentation of the primitives promises for one pair of keys: both ends compute the same
-- shared secret, and AES-GCM decrypts what it encrypted under the same key, nonce and data.
pub record Agrees (prim : Primitives) (ephemeral : Bytes × Bytes) (private_key public_key : Bytes)
    : Type 0 where
  pub shared : Bytes
  pub ours : prim.x25519_exchange ephemeral.0 public_key ≡ some shared
  pub readable : prim.x25519_accepts private_key ephemeral.1 ≡ true
  pub theirs : prim.x25519_exchange private_key ephemeral.1 ≡ some shared
  pub decrypts :
      (key nonce text aad : Bytes)
      → prim.aesgcm_decrypt key nonce (prim.aesgcm_encrypt key nonce text aad) aad ≡ some text

module _ (prim : Primitives) where
  pub open_message-seal_message :
      (ephemeral : Bytes × Bytes) (private_key public_key nonce aad text key ciphertext : Bytes)
      → Agrees prim ephemeral private_key public_key
      → seal_message prim ephemeral public_key nonce aad text ≡ ok (key, ciphertext)
      → open_message prim private_key key nonce aad ciphertext ≡ ok text
  unfolding seal_message open_message x25519_shared_secret
  open_message-seal_message ephemeral private_key public_key nonce aad text key ciphertext agree
        sealed =
      ground (
        arith,
        agree.ours,
        agree.readable,
        agree.theirs,
        agree.decrypts (message_key_from_shared prim agree.shared) nonce text aad,
      )

  -- Signing changes the signature alone.
  sign-fields :
      (env signed : Envelope) (private_key : Bytes)
      → Envelope.sign prim env private_key ≡ ok signed
      → (envelope_aad signed 0 ≡ envelope_aad env 0) × (signed.payload ≡ env.payload)
  unfolding Envelope.sign envelope_aad
  sign-fields env signed private_key h =
      let (b, hb, k) = >>=-eq-ok (signed_bytes env) _ h in
      let (s, hs, e) = >>=-eq-ok (sign_ed25519 prim private_key b) _ k in ground arith

  pub decrypt_to-lem :
      (env : Envelope) (version : ℕ) (private_key key nonce ciphertext aad text : Bytes)
      → unwrap_encrypted env.payload ≡ ok (version, key, nonce, ciphertext)
      → build_aad (envelope_aad env 0) ≡ ok aad
      → open_message prim private_key key nonce aad ciphertext ≡ ok text
      → decrypt_to prim env private_key ≡ ok text
  unfolding decrypt_to
  decrypt_to-lem env version private_key key nonce ciphertext aad text unwrapped bound opened =
      rw (unwrapped, decrypt_to, bound) opened

  -- Where the primitives agree on the ephemeral pair and the key pair of a client, an answer that the
  -- server builds for that client is decrypted by the client's private key to the plaintext that went
  -- in.
  pub decrypt_to-build_outgoing :
      (ephemeral : Bytes × Bytes) (server_private : Bytes) (req reply : Envelope)
      (server version : ℕ) (inner client_private client_public nonce : Bytes) (timestamp : ℤ)
      → Agrees prim ephemeral client_private client_public
      → build_outgoing prim ephemeral server_private req server version inner client_public nonce
          timestamp
        ≡ ok reply
      → decrypt_to prim reply client_private ≡ ok inner
  unfolding build_outgoing outgoing_payload Envelope.new_envelope
  decrypt_to-build_outgoing ephemeral server_private req reply server version inner client_private
        client_public nonce timestamp agree built =
      let (payload, sealed, k3) =
        >>=-eq-ok
          (outgoing_payload prim ephemeral req server version inner client_public nonce timestamp) _
          built in
      let (aad, haad, k1) = >>=-eq-ok (build_aad _) _ sealed in
      let ((key, ciphertext), hseal, hwrap) =
        >>=-eq-ok (seal_message prim ephemeral client_public nonce aad inner) _ k1 in
      let (same, carried) = sign-fields _ reply server_private k3 in
      let unwrapped =
        wrap_round_trip req.sender_credential_version key nonce ciphertext payload hwrap in
      decrypt_to-lem reply req.sender_credential_version client_private key nonce ciphertext aad
        inner (ap unwrap_encrypted carried ∙ unwrapped) (ap build_aad same ∙ haad)
        (open_message-seal_message ephemeral client_private client_public nonce aad inner key
          ciphertext agree hseal)
