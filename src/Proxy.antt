-- ===== src/Proxy.antt =====
-- proxy/sih_proxy: the cache of the registry's snapshot, the validator of frames, and the relay. The
-- locks and threads are left out: `splice` is the two directions, each by itself.
pub mod Relay
pub mod Newest
use secupload.Base.{
  ℕ, zero, suc, ◌==◌, ltb, ◌&&◌, ◌||◌, not, if◌then◌else◌, Bool, true, false, List, [], ◌∷◌, ◌++◌,
  Bytes, Option, none, some,
}
use secupload.Base.Int.{pos}
use secupload.Base.Result.{Result, ok, err, Error, ◌>>=◌}
use secupload.Crypto.{Primitives}
use secupload.Framing.{recv_frame, send_frame}
use secupload.Models.{IdentityKind, timestamp_window}
use secupload.Protocol.Entries.{RegistryEntry}
use secupload.Protocol.Envelope
use secupload.Protocol.Envelope.{Envelope, parse_envelope}
use secupload.Replay.{timestamp_ok}
use secupload.Server.Connection.{channel_control}
use secupload.Server.Database.{elem}
use secupload.Client.Identity
use secupload.Client.Identity.{Setting}
use secupload.Client.Session
use secupload.Client.Session.{Session, Draws, Step, ◌then◌}
use secupload.Client.Session.Control.{rotate, sync_registry}

-- `RegistryCache`; the time of the last update is by the wall clock.
pub record RegistryCache : Type 0 where
  pub entries : List RegistryEntry
  pub synced_at : ℕ

unfoldable update : List RegistryEntry → ℕ → RegistryCache → RegistryCache
update entries now cache = record { entries = entries; synced_at = now }

unfoldable pub snapshot : RegistryCache → List RegistryEntry
snapshot cache = cache.entries

-- `best is None or e.version > best.version`
abbrev pub beats : RegistryEntry → Option RegistryEntry → Bool
beats e none = true
beats e (some best) = ltb best.version e.version

-- The loop of `entry`.
unfoldable pub newest : ℕ → Option RegistryEntry → List RegistryEntry → Option RegistryEntry
newest u best [] = best
newest u best (e ∷ es) =
    newest u (if (e.identity_uuid == u) && beats e best then some e else best) es

unfoldable pub entry : RegistryCache → ℕ → Option RegistryEntry
unfolding newest
entry cache u = newest u none cache.entries

-- `identities`: a set, here without repetition.
unfoldable pub identities : List RegistryEntry → List ℕ
identities [] = []
identities (e ∷ es) =
    let rest = identities es in if elem e.identity_uuid rest then rest else e.identity_uuid ∷ rest

-- `except ProtocolError`
abbrev invalid_signature : Result (Unit {0}) → Result (Unit {0})
invalid_signature (ok u) = ok u
invalid_signature (err Error.protocol_error) = err Error.proxy_error
invalid_signature (err x) = err x

module _ (prim : Primitives) where
  -- The part of `check` on an envelope whose sender is in the cache.
  unfoldable pub check_entry : RegistryEntry → ℕ → Envelope → Result (Unit {0})
  check_entry e now env =
      if not (e.version == env.sender_credential_version)
      then err Error.proxy_error
      else if not (timestamp_ok env.timestamp now timestamp_window)
      then err Error.proxy_error
      else invalid_signature (Envelope.verify prim env e.ed25519_public)

  unfoldable pub check_envelope : RegistryCache → ℕ → Envelope → Result (Unit {0})
  unfolding entry check_entry
  check_envelope cache now env = elim (entry cache env.sender_uuid) [
    | none ↦ ok tt
    | some e ↦ check_entry e now env
  ]

  -- `_FrameValidator.check`
  unfoldable pub check : RegistryCache → ℕ → ℕ → Bytes → Result (Unit {0})
  unfolding check_envelope
  check cache now channel payload =
      if channel == channel_control
      then ok tt
      else parse_envelope payload >>= check_envelope cache now

  -- `_pump` on fuel: the clock and the destination's state at each turn are given, and the result is
  -- what was forwarded. `cache` is the validator's, where there is one.
  module _ (clock : ℕ → ℕ) (writable : ℕ → Bool) where
    abbrev pub accepts : Option RegistryCache → ℕ → ℕ → Bytes → Result (Unit {0})
    accepts none turn channel payload = ok tt
    accepts (some cache) turn channel payload = check cache (clock turn) channel payload

    abbrev pub forwarded : ℕ → ℕ → Bytes → Result Bytes
    forwarded turn channel payload =
        if writable turn then send_frame channel payload else err Error.os_error

    unfoldable pub pump : Option RegistryCache → ℕ → ℕ → List Bytes → Option (List Bytes)
    unfolding check
    pump cache zero turn parts = none
    pump cache (suc fuel) turn parts = elim (recv_frame parts) [
      | err x ↦ some []
      | ok (channel, payload, left) ↦
          elim (accepts cache turn channel payload >>= λ _. forwarded turn channel payload) [
            | err x ↦ some []
            | ok frame ↦ elim (pump cache fuel (suc turn) left) [
              | none ↦ none
              | some frames ↦ some (frame ∷ frames)
            ]
          ]
    ]

  -- `_splice`: the validator stands in the direction from `a` to `b`; each direction has its own clock
  -- readings and its own destination.
  unfoldable splice :
      (ℕ → ℕ)
      → (ℕ → Bool)
      → (ℕ → Bool)
      → ℕ
      → Option RegistryCache
      → List Bytes
      → List Bytes
      → Option (List Bytes) × Option (List Bytes)
  unfolding pump
  splice clock writable_a writable_b fuel cache from_a from_b =
      (pump clock writable_b cache fuel 0 from_a, pump clock writable_a none fuel 0 from_b)

  -- The call of `_splice` in `ProxyTunnel.handle`, once the control burst is over: `a` is the server.
  unfoldable pub relay :
      (ℕ → ℕ)
      → (ℕ → Bool)
      → (ℕ → Bool)
      → ℕ
      → RegistryCache
      → List Bytes
      → List Bytes
      → Option (List Bytes) × Option (List Bytes)
  unfolding splice
  relay clock writable_server writable_client fuel cache from_server from_client =
      splice clock writable_server writable_client fuel (some cache) from_server from_client

-- The end of `_control_burst`: both snapshots, in one update.
unfoldable sync :
    Setting
    → (ℕ → Draws)
    → ℕ
    → Session × RegistryCache
    → Result (Unit {0}) × (Session × RegistryCache)
sync cfg draws now (s, cache) =
    let (r, s1) = sync_registry cfg (draws 1) IdentityKind.client s then λ clients s2.
    sync_registry cfg (draws 2) IdentityKind.proxy s2 then λ proxies s3.
    (ok (clients ++ proxies), s3) in
    elim r [ err x ↦ (err x, (s1, cache)) | ok entries ↦ (ok tt, (s1, update entries now cache)) ]

-- `if self._identity.should_rotate()`: a rotation, and the checkpoint after it.
unfoldable rotate_if_due : Setting → Draws → Session → Step (Unit {0})
rotate_if_due cfg draws s = elim (Identity.should_rotate cfg draws.now s.identity) [
  | err x ↦ (err x, s)
  | ok false ↦ (ok tt, s)
  | ok true ↦ rotate cfg draws s then λ _ s1.
      let (r, i) = Identity.checkpoint cfg draws.now s1.identity in (r, record s1 { identity = i })
]

-- `_control_burst`
unfoldable control_burst :
    Setting
    → (ℕ → Draws)
    → ℕ
    → Session × RegistryCache
    → Result (Unit {0}) × (Session × RegistryCache)
unfolding rotate_if_due sync update
control_burst cfg draws now (s, cache) =
    let (r, s1) = rotate_if_due cfg (draws 0) s in
    elim r [ err x ↦ (err x, (s1, cache)) | ok _ ↦ sync cfg draws now (s1, cache) ]
