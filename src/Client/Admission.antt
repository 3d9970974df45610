-- ===== src/Client/Admission.antt =====
-- client/sih_client/session.py, proxy/sih_proxy/tunnel.py and server/sih_server/auth.py: the way of a
-- request from the client through the proxy's test to the server's authentication.
use secupload.Base.{ℕ, ◌≡◌, ◌≢◌, Bytes, false, true, some, inr, sym}
use secupload.Base.Result.{ok}
use secupload.Models.{CredentialPublic, IdentityKind, RotationParams, timestamp_window}
use secupload.Protocol.Entries.{registry_entry_from_public}
use secupload.Protocol.Envelope
use secupload.Protocol.Envelope.{Envelope}
use secupload.Proxy.{RegistryCache, entry, check}
use secupload.Proxy.Newest.{check-ok_iff}
use secupload.Replay.{contains, timestamp_ok}
use secupload.Server.Auth.{State, authenticate, replay_key}
use secupload.Server.Auth.Soundness.{authenticate-ok_iff}
use secupload.Server.Registry.{credential_for_auth, identity_kind}
use secupload.Server.Tunnel2.{decrypt_to}
use secupload.Server.Tunnel2.Sealing.{Agrees}
use secupload.Client.Identity.{Setting}
use secupload.Client.Session.{Session, Draws, signed_envelope}
use secupload.Client.EndToEnd.{IsReady, request_reaches_server}

-- The clocks and the registry's view that a request meets: the proxy's cache and the server have the
-- client's active credential, and both clocks are near the client's.
pub record IsKnown (cache : RegistryCache) (proxy_now : ℕ) (params : RotationParams) (now : ℕ)
    (s : State) (env : Envelope) (kind : IdentityKind) (cred : CredentialPublic) : Type 0 where
  pub cached : entry cache env.sender_uuid ≡ some (registry_entry_from_public cred)
  pub proxy_timely : timestamp_ok env.timestamp proxy_now timestamp_window ≡ true
  pub timely : timestamp_ok env.timestamp now timestamp_window ≡ true
  pub new : contains (replay_key env) s.replay.entries ≡ false
  pub usable :
      credential_for_auth params s.db env.sender_uuid env.sender_credential_version now
      ≡ ok (some cred)
  pub registered : identity_kind s.db env.sender_uuid ≡ some kind

-- A request that a ready client signs passes the test of the proxy, is authenticated by the server as
-- the client's identity under its credential, and is decrypted to its plaintext, where the proxy's
-- newest entry and the server's registry have the client's active credential, the clocks agree
-- within the window, the nonce is new, and the primitives agree on the keys.
pub honest_request_is_admitted :
    (cfg : Setting) (draws : Draws) (client : Session) (u : ℕ) (cred : CredentialPublic)
    (pair : Bytes × Bytes) (msg_type version channel proxy_now now : ℕ)
    (inner server_private wire : Bytes) (env : Envelope) (cache : RegistryCache)
    (params : RotationParams) (s : State) (kind : IdentityKind)
    → IsReady cfg draws client u cred pair
    → Agrees cfg.prim draws.ephemeral server_private client.server_keys.x25519_public
    → signed_envelope cfg draws msg_type version inner client ≡ ok env
    → Envelope.encode env ≡ ok wire
    → channel ≢ 0
    → IsKnown cache proxy_now params now s env kind cred
    → (check cfg.prim cache proxy_now channel wire ≡ ok tt)
      × ((authenticate cfg.prim params env now s).0 ≡ ok (kind, cred))
      × (env.sender_uuid ≡ u)
      × (decrypt_to cfg.prim env server_private ≡ ok inner)
unfolding registry_entry_from_public
honest_request_is_admitted cfg draws client u cred pair msg_type version channel proxy_now now inner
      server_private wire env cache params s kind ready agree made encoded relayed known =
    let (parsed, sender, versioned, verifies, opened) =
      request_reaches_server cfg draws client u cred pair msg_type version inner server_private wire
        env ready agree made encoded in
    (
      (check-ok_iff cfg.prim cache proxy_now channel wire relayed).1 (
        env,
        parsed,
        inr (
          registry_entry_from_public cred,
          known.cached,
          sym versioned,
          known.proxy_timely,
          verifies,
        ),
      ),
      (authenticate-ok_iff cfg.prim params env now s kind cred).1
          (known.timely, known.new, known.usable, verifies, known.registered),
      sender,
      opened,
    )
