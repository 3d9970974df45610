-- ===== src/Client/Chunks.antt =====
-- client/sih_client/session.py and server/sih_server/tunnel2.py: a chunk that is sent, in either
-- direction, and an answer.
use secupload.Base.{ℕ, ◌≡◌, refl, arith, Bytes, ap, ◌∙◌, sym, length, ==-refl, []}
use secupload.Base.Int.{pos}
use secupload.Base.Result.{ok, >>=-eq-ok}
use secupload.Codec.Digits.{to_bytes}
use secupload.Crypto.{Primitives, seal_chunk, open_chunk, sign_ed25519}
use secupload.Models.{CredentialPublic}
use secupload.Protocol.Aad.{build_aad}
use secupload.Protocol.Envelope
use secupload.Protocol.Envelope.{Envelope, parse_envelope}
use secupload.Protocol.Envelope.RoundTrip.{envelope_round_trip}
use secupload.Protocol.Messages.{wrap_encrypted_chunk, unwrap_encrypted_chunk, unwrap_encrypted}
use secupload.Protocol.RoundTrips.{chunk_round_trip}
use secupload.Server.Connection
use secupload.Server.Connection.Answers.{signed_answer-ok, sealed_reply-build_outgoing}
use secupload.Server.Connection.Relay.{reply_envelope}
use secupload.Server.Connection.Relay
use secupload.Server.Tunnel2.{envelope_aad, decrypt_to, decrypt_chunk_to, Reply}
use secupload.Server.Tunnel2.Sealing.{Agrees, decrypt_to-build_outgoing}
use secupload.Client.Identity
use secupload.Client.Identity.{Setting, current, current_keys}
use secupload.Client.EndToEnd.{IsReady, verify-sign, open_chunk-seal_chunk}
use secupload.Client.Session.{
  Session, Draws, own_envelope, chunk_envelope, decrypt_response, open_chunk_reply,
}

-- The steps of a chunk's envelope after its first signature.
chunk_envelope-parts :
    (cfg : Setting) (draws : Draws) (s : Session) (u : ℕ) (cred : CredentialPublic)
    (pair : Bytes × Bytes) (object index : ℕ) (text : Bytes) (env : Envelope)
    → IsReady cfg draws s u cred pair
    → chunk_envelope cfg draws object index text s ≡ ok env
    → (first : Envelope) × (Envelope.sign cfg.prim
          (own_envelope cfg draws 3 u cred.version draws.wall_clock [])
          pair.0
        ≡ ok first)
      × (aad : Bytes) × (build_aad (envelope_aad first index) ≡ ok aad)
      × (sealed : Bytes × Bytes) × (seal_chunk cfg.prim draws.ephemeral s.server_keys.x25519_public
            (to_bytes 16 object)
            index
            aad
            text
          ≡ ok sealed)
      × (payload : Bytes) × (wrap_encrypted_chunk s.server_keys.version object index sealed.0
            sealed.1
          ≡ ok payload)
      × (Envelope.sign cfg.prim (record first { payload = payload }) pair.0 ≡ ok env)
unfolding chunk_envelope
chunk_envelope-parts cfg draws s u cred pair object index text env ready made =
    let (u1, own, k1) = >>=-eq-ok (Identity.identity_uuid cfg draws.unknown s.identity) _ made in
    let (cred1, is_active, k2) = >>=-eq-ok (current cfg s.identity) _ k1 in
    let (pair1, held, k3) = >>=-eq-ok (current_keys cfg s.identity) _ k2 in
    let (first, signed, k4) =
      >>=-eq-ok
        (Envelope.sign cfg.prim (own_envelope cfg draws 3 u1 cred1.version draws.wall_clock [])
          pair1.0)
        _ k3 in
    let (aad, bound, k5) = >>=-eq-ok (build_aad (envelope_aad first index)) _ k4 in
    let (sealed, encrypted, k6) =
      >>=-eq-ok
        (seal_chunk cfg.prim draws.ephemeral s.server_keys.x25519_public (to_bytes 16 object) index
          aad text)
        _ k5 in
    let (payload, wrapped, k7) =
      >>=-eq-ok (wrap_encrypted_chunk s.server_keys.version object index sealed.0 sealed.1) _ k6 in
    let same_u : u1 ≡ u = ground (arith, own, ready.owner) in
    let same_cred : cred1 ≡ cred = ground (arith, is_active, ready.active) in
    let same_pair : pair1 ≡ pair = ground (arith, held, ready.held) in
    (
      first,
      rw (sym same_u, sym same_cred, sym same_pair) signed,
      aad,
      bound,
      sealed,
      encrypted,
      payload,
      wrapped,
      rw (sym same_pair) k7,
    )

decrypt_chunk_to-lem :
    (prim : Primitives) (env : Envelope) (private_key payload aad key ciphertext text : Bytes)
    (version object index : ℕ)
    → unwrap_encrypted_chunk payload ≡ ok (version, object, index, key, ciphertext)
    → build_aad (envelope_aad env index) ≡ ok aad
    → open_chunk prim private_key (to_bytes 16 object) index aad key ciphertext ≡ ok text
    → decrypt_chunk_to prim env private_key payload ≡ ok (object, index, text)
unfolding decrypt_chunk_to
decrypt_chunk_to-lem prim env private_key payload aad key ciphertext text version object index
      unwrapped bound opened =
    rw (unwrapped, decrypt_chunk_to, bound, opened) refl

-- A chunk that a ready client sends is read back by the server as the same envelope; its signature
-- verifies under the client's public key, and the server's private key decrypts it to the same
-- object, index and bytes; under the same agreements of the primitives.
pub chunk_reaches_server :
    (cfg : Setting) (draws : Draws) (s : Session) (u : ℕ) (cred : CredentialPublic)
    (pair : Bytes × Bytes) (object index : ℕ) (text server_private wire : Bytes) (env : Envelope)
    → IsReady cfg draws s u cred pair
    → Agrees cfg.prim draws.ephemeral server_private s.server_keys.x25519_public
    → chunk_envelope cfg draws object index text s ≡ ok env
    → Envelope.encode env ≡ ok wire
    → (parse_envelope wire ≡ ok env)
      × (Envelope.verify cfg.prim env cred.ed25519_public ≡ ok tt)
      × (decrypt_chunk_to cfg.prim env server_private env.payload ≡ ok (object, index, text))
unfolding own_envelope Envelope.new_envelope envelope_aad
chunk_reaches_server cfg draws s u cred pair object index text server_private wire env ready agree
      made encoded =
    let (first, signed, aad, bound, (key, ciphertext), encrypted, payload, wrapped, again) =
      chunk_envelope-parts cfg draws s u cred pair object index text env ready made in
    let (checked1, size1, same1) =
      verify-sign cfg.prim _ first pair.0 cred.ed25519_public ready.signs signed in
    let (checked, size, same) =
      verify-sign cfg.prim _ env pair.0 cred.ed25519_public ready.signs again in
    (
      envelope_round_trip env wire (ap (λ e. e.version) same ∙ ap (λ e. e.version) same1)
          (ap (λ e. length e.nonce) same ∙ ap (λ e. length e.nonce) same1 ∙ ready.nonce_size) size
          encoded,
      checked,
      decrypt_chunk_to-lem cfg.prim env server_private env.payload aad key ciphertext text
          s.server_keys.version object index
          (ap (λ e. unwrap_encrypted_chunk e.payload) same
            ∙ chunk_round_trip s.server_keys.version object index key ciphertext payload wrapped)
          (ap (λ e. build_aad (envelope_aad e index)) same ∙ bound)
          (open_chunk-seal_chunk cfg.prim draws.ephemeral server_private s.server_keys.x25519_public
            (to_bytes 16 object) aad text key ciphertext index agree encrypted),
    )

decrypt_response-decrypt_to :
    (cfg : Setting) (draws : Draws) (s : Session) (pair : Bytes × Bytes) (env : Envelope)
    (text : Bytes)
    → current_keys cfg s.identity ≡ ok pair
    → decrypt_to cfg.prim env pair.1 ≡ ok text
    → decrypt_response cfg draws env s ≡ ok text
unfolding decrypt_response decrypt_to
decrypt_response-decrypt_to cfg draws s pair env text held h =
    let ((version, key, nonce, ciphertext), unwrapped, k1) =
      >>=-eq-ok (unwrap_encrypted env.payload) _ h in
    let (aad, bound, opened) = >>=-eq-ok (build_aad (envelope_aad env 0)) _ k1 in
    rw (unwrapped, decrypt_response, bound, held) opened

-- An answer that the server's connection makes for a client's current public key is decrypted by that
-- client's session to its plaintext, where both use the same primitives and these agree on the
-- ephemeral pair and the client's pair.
pub answer_reaches_client :
    (cfg : Setting) (draws : Draws) (s : Session) (pair : Bytes × Bytes)
    (server : Connection.Setting) (drawn : Connection.Draws) (w : Connection.World)
    (req reply : Envelope) (own client : CredentialPublic) (inner : Bytes)
    → server.prim ≡ cfg.prim
    → current_keys cfg s.identity ≡ ok pair
    → Agrees cfg.prim drawn.ephemeral pair.1 client.x25519_public
    → (reply_envelope server drawn (Reply.message inner) req own client w).0 ≡ ok reply
    → decrypt_response cfg draws reply s ≡ ok inner
unfolding reply_envelope
answer_reaches_client cfg draws s pair server drawn w req reply own client inner same_prim held
      agree answered =
    let (active, _, built) =
      sealed_reply-build_outgoing server drawn req reply own.version inner client.x25519_public w
        answered in
    decrypt_response-decrypt_to cfg draws s pair reply inner held (
      decrypt_to-build_outgoing cfg.prim drawn.ephemeral active.0 req reply server.server_uuid
        own.version inner pair.1 client.x25519_public drawn.nonce (pos drawn.now) agree
        (rw (sym same_prim) built))

-- Signing leaves the associated data and the payload.
sign-chunk_fields :
    (prim : Primitives) (env signed : Envelope) (private_key : Bytes) (index : ℕ)
    → Envelope.sign prim env private_key ≡ ok signed
    → (envelope_aad signed index ≡ envelope_aad env index) × (signed.payload ≡ env.payload)
unfolding Envelope.sign envelope_aad
sign-chunk_fields prim env signed private_key index h =
    let (b, hb, k) = >>=-eq-ok (Envelope.signed_bytes env) _ h in
    let (sig, hs, e) = >>=-eq-ok (sign_ed25519 prim private_key b) _ k in ground arith

-- A chunk that the server's connection sends for a request is opened by the client's session to the
-- same bytes, where it asked for that object and that index, both use the same primitives, and these
-- agree on the ephemeral pair and the client's pair.
pub served_chunk_reaches_client :
    (cfg : Setting) (draws : Draws) (s : Session) (pair : Bytes × Bytes)
    (server : Connection.Setting) (drawn : Connection.Draws) (w : Connection.World)
    (req reply : Envelope) (own client : CredentialPublic) (object index : ℕ) (text : Bytes)
    → server.prim ≡ cfg.prim
    → current_keys cfg s.identity ≡ ok pair
    → Agrees cfg.prim drawn.ephemeral pair.1 client.x25519_public
    → (reply_envelope server drawn (Reply.chunk object index text) req own client w).0 ≡ ok reply
    → open_chunk_reply cfg draws object index reply s ≡ ok text
unfolding open_chunk_reply reply_envelope Relay.chunk_payload Relay.chunk_envelope
    Envelope.new_envelope envelope_aad
served_chunk_reaches_client cfg draws s pair server drawn w req reply own client object index text
      same_prim held agree answered =
    let (payload, active, made, _, signed) =
      signed_answer-ok server drawn (Relay.chunk_envelope server drawn req own.version) _ w reply
        answered in
    let (aad, bound, k1) = >>=-eq-ok (build_aad _) _ made in
    let ((key, ciphertext), sealed, wrapped) =
      >>=-eq-ok
        (seal_chunk server.prim drawn.ephemeral client.x25519_public (to_bytes 16 object) index aad
          text)
        _ k1 in
    let (same, carried) = sign-chunk_fields server.prim _ reply active.0 index signed in
    let unwrapped =
      ap unwrap_encrypted_chunk carried
      ∙ chunk_round_trip req.sender_credential_version object index key ciphertext payload
          wrapped in
    let opened =
      open_chunk-seal_chunk cfg.prim drawn.ephemeral pair.1 client.x25519_public
        (to_bytes 16 object) aad text key ciphertext index agree (rw (sym same_prim) sealed) in
    rw (unwrapped, open_chunk_reply, ==-refl object, ==-refl index, ap build_aad same ∙ bound, held)
      opened
