-- ===== src/Client/EndToEnd.antt =====
-- client/sih_client/session.py and server/sih_server/tunnel2.py: what one side sends, the other reads.
use secupload.Base.{ℕ, ◌≡◌, arith, Bytes, some, ap, ◌∙◌, length, true, [], inl, inr}
use secupload.Base.Result.{ok, >>=-eq-ok, Result-cases, ◌>>=◌}
use secupload.Crypto.{
  Primitives, seal_message, seal_chunk, open_chunk, sign_ed25519, verify_ed25519, chunk_nonce,
  x25519_shared_secret, object_key_from_shared,
}
use secupload.Models.{CredentialPublic}
use secupload.Protocol.Aad.{build_aad}
use secupload.Protocol.Envelope
use secupload.Protocol.Envelope.{Envelope, signed_bytes, parse_envelope, pack_header}
use secupload.Protocol.Envelope.RoundTrip.{envelope_round_trip}
use secupload.Protocol.Messages.{unwrap_encrypted}
use secupload.Protocol.RoundTrips.{wrap_round_trip}
use secupload.Server.Tunnel2.{envelope_aad, decrypt_to}
use secupload.Server.Tunnel2.Sealing.{Agrees, open_message-seal_message, decrypt_to-lem}
use secupload.Client.Identity
use secupload.Client.Identity.{Setting, current, current_keys}
use secupload.Client.Session.{Session, Draws, own_envelope, sealed_payload, signed_envelope}

-- What the documentation of Ed25519 promises for a key pair: the public key verifies every signature
-- of the private one, and a signature has 64 bytes.
pub record Signs (prim : Primitives) (private_key public_key : Bytes) : Type 0 where
  pub accepts : prim.ed25519_accepts public_key ≡ true
  pub verifies :
      (text sig : Bytes)
      → prim.ed25519_sign private_key text ≡ some sig
      → prim.ed25519_verify public_key text sig ≡ true
  pub signature_size :
      (text sig : Bytes) → prim.ed25519_sign private_key text ≡ some sig → length sig ≡ 64

module _ (prim : Primitives) where
  verify_ed25519-sign_ed25519 :
      (private_key public_key text sig : Bytes)
      → Signs prim private_key public_key
      → sign_ed25519 prim private_key text ≡ ok sig
      → (verify_ed25519 prim public_key text sig ≡ ok tt) × (length sig ≡ 64)
  unfolding verify_ed25519 sign_ed25519
  verify_ed25519-sign_ed25519 private_key public_key text sig keys h =
      ground (arith, keys.accepts, keys.verifies text sig, keys.signature_size text sig)

  -- A signed envelope verifies, and differs from the unsigned one in its signature alone.
  pub verify-sign :
      (env signed : Envelope) (private_key public_key : Bytes)
      → Signs prim private_key public_key
      → Envelope.sign prim env private_key ≡ ok signed
      → (Envelope.verify prim signed public_key ≡ ok tt)
        × (length signed.signature ≡ 64)
        × (signed ≡ record env { signature = signed.signature })
  unfolding Envelope.sign Envelope.verify signed_bytes pack_header Envelope.header_fields
  verify-sign env signed private_key public_key keys h =
      let (b, hb, k) = >>=-eq-ok (signed_bytes env) _ h in
      let (s, hs, e) = >>=-eq-ok (sign_ed25519 prim private_key b) _ k in
      let (checked, size) = verify_ed25519-sign_ed25519 private_key public_key b s keys hs in
      ground (arith, hb, checked, size)

  pub open_chunk-seal_chunk :
      (ephemeral : Bytes × Bytes) (private_key public_key object aad text key ciphertext : Bytes)
      (index : ℕ)
      → Agrees prim ephemeral private_key public_key
      → seal_chunk prim ephemeral public_key object index aad text ≡ ok (key, ciphertext)
      → open_chunk prim private_key object index aad key ciphertext ≡ ok text
  unfolding seal_chunk open_chunk x25519_shared_secret
  open_chunk-seal_chunk ephemeral private_key public_key object aad text key ciphertext index agree
        sealed =
      elim (Result-cases (chunk_nonce index)) [
        | inl (nonce, made) ↦ ground (
          arith,
          agree.ours,
          agree.readable,
          agree.theirs,
          made,
          agree.decrypts (object_key_from_shared prim agree.shared object) nonce text aad,
        )
        | inr (x, bad) ↦ absurd (ground (arith, agree.ours))
      ]

-- The client's side of a message: its active credential with the private keys, and who it is.
pub record IsReady (cfg : Setting) (draws : Draws) (s : Session) (u : ℕ) (cred : CredentialPublic)
    (pair : Bytes × Bytes) : Type 0 where
  pub owner : Identity.identity_uuid cfg draws.unknown s.identity ≡ ok u
  pub active : current cfg s.identity ≡ ok cred
  pub held : current_keys cfg s.identity ≡ ok pair
  pub nonce_size : length draws.nonce ≡ 12
  pub signs : Signs cfg.prim pair.0 cred.ed25519_public

module _ (cfg : Setting) (draws : Draws) (s : Session) (u : ℕ) (cred : CredentialPublic)
    (pair : Bytes × Bytes) (ready : IsReady cfg draws s u cred pair) where
  -- The steps of a request that was signed.
  signed_envelope-parts :
      (msg_type version : ℕ) (inner : Bytes) (env : Envelope)
      → signed_envelope cfg draws msg_type version inner s ≡ ok env
      → (payload : Bytes) × (sealed_payload cfg draws u cred.version version inner s ≡ ok payload)
        × (Envelope.sign cfg.prim
              (own_envelope cfg draws msg_type u cred.version draws.now payload)
              pair.0
            ≡ ok env)
  unfolding signed_envelope
  signed_envelope-parts msg_type version inner env h =
      let h1 : (sealed_payload cfg draws u cred.version version inner s >>= λ payload.
      Envelope.sign cfg.prim (own_envelope cfg draws msg_type u cred.version draws.now payload)
        pair.0)
          ≡ ok env =
        ground (arith, ready.owner, ready.active, ready.held) in
      >>=-eq-ok (sealed_payload cfg draws u cred.version version inner s) _ h1

  sealed_payload-decrypts :
      (msg_type version : ℕ) (inner payload server_private : Bytes) (env : Envelope)
      → Agrees cfg.prim draws.ephemeral server_private s.server_keys.x25519_public
      → sealed_payload cfg draws u cred.version version inner s ≡ ok payload
      → env.payload ≡ payload
      → envelope_aad env 0
        ≡ envelope_aad (own_envelope cfg draws msg_type u cred.version draws.now []) 0
      → decrypt_to cfg.prim env server_private ≡ ok inner
  unfolding sealed_payload envelope_aad own_envelope Envelope.new_envelope
  sealed_payload-decrypts msg_type version inner payload server_private env agree built carried
        same =
      let (aad, haad, k1) = >>=-eq-ok (build_aad _) _ built in
      let ((key, ciphertext), hseal, hwrap) =
        >>=-eq-ok
          (seal_message cfg.prim draws.ephemeral s.server_keys.x25519_public draws.nonce aad inner)
          _ k1 in
      decrypt_to-lem cfg.prim env version server_private key draws.nonce ciphertext aad inner
        (ap unwrap_encrypted carried
          ∙ wrap_round_trip version key draws.nonce ciphertext payload hwrap)
        (ap build_aad same ∙ haad)
        (open_message-seal_message cfg.prim draws.ephemeral server_private
          s.server_keys.x25519_public draws.nonce aad inner key ciphertext agree hseal)

-- A request or control message that a ready client signs, sent as bytes, is read back by the server as
-- the same envelope; it names the client and its active version, its signature verifies under
-- the client's public key, and the server's private key decrypts it to the plaintext; where the
-- primitives agree on the ephemeral pair and the server's pair, and on the client's signing pair.
pub request_reaches_server :
    (cfg : Setting) (draws : Draws) (s : Session) (u : ℕ) (cred : CredentialPublic)
    (pair : Bytes × Bytes) (msg_type version : ℕ) (inner server_private wire : Bytes)
    (env : Envelope)
    → IsReady cfg draws s u cred pair
    → Agrees cfg.prim draws.ephemeral server_private s.server_keys.x25519_public
    → signed_envelope cfg draws msg_type version inner s ≡ ok env
    → Envelope.encode env ≡ ok wire
    → (parse_envelope wire ≡ ok env)
      × (env.sender_uuid ≡ u)
      × (env.sender_credential_version ≡ cred.version)
      × (Envelope.verify cfg.prim env cred.ed25519_public ≡ ok tt)
      × (decrypt_to cfg.prim env server_private ≡ ok inner)
unfolding own_envelope Envelope.new_envelope envelope_aad
request_reaches_server cfg draws s u cred pair msg_type version inner server_private wire env ready
      agree made encoded =
    let (payload, sealed, signed) =
      signed_envelope-parts cfg draws s u cred pair ready msg_type version inner env made in
    let (checked, size, same) =
      verify-sign cfg.prim _ env pair.0 cred.ed25519_public ready.signs signed in
    (
      envelope_round_trip env wire (ap (λ e. e.version) same)
          (ap (λ e. length e.nonce) same ∙ ready.nonce_size) size encoded,
      ap (λ e. e.sender_uuid) same,
      ap (λ e. e.sender_credential_version) same,
      checked,
      sealed_payload-decrypts cfg draws s u cred pair ready msg_type version inner payload
          server_private env agree sealed (ap (λ e. e.payload) same)
          (ap (λ e. envelope_aad e 0) same),
    )
