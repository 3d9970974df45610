-- ===== src/Proxy/Newest.antt =====
-- proxy/sih_proxy/cache.py and tunnel.py: which entry the cache gives, and what the validator accepts.
use secupload.Base.{
  ℕ, ◌==◌, ◌&&◌, if◌then◌else◌, ltb, ◌≤◌, ◌≡◌, ◌≢◌, ◌⊎◌, ◌↔◌, arith, true, List, [], ◌∷◌, Option,
  none, some, Bytes, All, Bool-cases, Option-cases, inl, inr,
}
use secupload.Base.Result.{ok, >>=-eq-ok}
use secupload.Crypto.{Primitives}
use secupload.Models.{timestamp_window}
use secupload.Protocol.Entries.{RegistryEntry}
use secupload.Protocol.Envelope
use secupload.Protocol.Envelope.{Envelope, parse_envelope}
use secupload.Replay.{timestamp_ok}
use secupload.Proxy.{RegistryCache, beats, newest, entry, check, check_envelope, check_entry}

-- An entry's version is at most that of another, where it is of the identity.
abbrev pub AtMost : ℕ → RegistryEntry → RegistryEntry → Type 0
AtMost u e x = x.identity_uuid ≡ u → x.version ≤ e.version

abbrev OfIdentity : ℕ → Option RegistryEntry → Type 0
OfIdentity u none = Unit
OfIdentity u (some e) = e.identity_uuid ≡ u

abbrev BestAtMost : Option RegistryEntry → RegistryEntry → Type 0
BestAtMost none e = Unit
BestAtMost (some best) e = best.version ≤ e.version

newest-AtMost :
    (u : ℕ) (best : Option RegistryEntry) (es : List RegistryEntry) (e : RegistryEntry)
    → OfIdentity u best
    → newest u best es ≡ some e
    → (e.identity_uuid ≡ u) × BestAtMost best e × All (AtMost u e) es
unfolding newest
newest-AtMost u none [] e own h = absurd (ground arith)
newest-AtMost u (some best) [] e own h = ground arith
newest-AtMost u none (x ∷ es) e own h = elim (Bool-cases (x.identity_uuid == u)) [
  | inl mine ↦
      let (is, le, rest) = newest-AtMost u (some x) es e (ground arith) (ground arith) in
      (is, tt, ((λ same. le), rest))
  | inr other ↦
      let (is, le, rest) = newest-AtMost u none es e tt (ground arith) in
      (is, tt, ((λ same. absurd (ground arith)), rest))
]
newest-AtMost u (some best) (x ∷ es) e own h =
    elim (Bool-cases ((x.identity_uuid == u) && ltb best.version x.version)) [
      | inl better ↦
          let (is, le, rest) = newest-AtMost u (some x) es e (ground arith) (ground arith) in
          (is, ground arith, ((λ same. le), rest))
      | inr worse ↦
          let (is, le, rest) = newest-AtMost u (some best) es e own (ground arith) in
          (is, le, ((λ same. ground arith), rest))
    ]

newest-none :
    (u : ℕ) (es : List RegistryEntry) → newest u none es ≡ none → All (λ x. x.identity_uuid ≢ u) es
unfolding newest
newest-none u [] h = tt
newest-none u (x ∷ es) h = elim (Bool-cases (x.identity_uuid == u)) [
  | inl mine ↦ absurd (kept u x es (ground arith))
  | inr other ↦ ((λ same. ground arith), newest-none u es (ground arith))
]
  where
    kept : (u : ℕ) (b : RegistryEntry) (es : List RegistryEntry) → newest u (some b) es ≢ none
    kept u b [] h = ground arith
    kept u b (x ∷ es) h = elim (Bool-cases ((x.identity_uuid == u) && ltb b.version x.version)) [
      | inl better ↦ kept u x es (ground arith)
      | inr worse ↦ kept u b es (ground arith)
    ]

-- An entry stands in the list.
abbrev pub In : RegistryEntry → List RegistryEntry → Type 0
In e [] = ⊥
In e (x ∷ es) = (e ≡ x) ⊎ In e es

-- What the loop gives is what it had, or an entry of the list.
newest-In :
    (u : ℕ) (best : Option RegistryEntry) (es : List RegistryEntry) (e : RegistryEntry)
    → newest u best es ≡ some e
    → (best ≡ some e) ⊎ In e es
unfolding newest
newest-In u best [] e h = inl h
newest-In u best (x ∷ es) e h =
    let better = (x.identity_uuid == u) && beats x best in
    elim (newest-In u (if better then some x else best) es e h) [
      | inr there ↦ inr (inr there)
      | inl same ↦ elim (Bool-cases better) [
        | inl is ↦ inr (inl (ground arith))
        | inr is_not ↦ inl (ground arith)
      ]
    ]

In-found :
    (u : ℕ) (es : List RegistryEntry) (e : RegistryEntry) → newest u none es ≡ some e → In e es
In-found u es e h = elim (newest-In u none es e h) [
  | inl absent ↦ absurd (ground arith)
  | inr there ↦ there
]

-- The cache gives one of its own entries, as it stands there, which is of the identity and which no
-- entry of that identity exceeds in its version; it gives none only where it has no entry of the
-- identity.
pub entry-newest :
    (cache : RegistryCache) (u : ℕ)
    → ((e : RegistryEntry) × (entry cache u ≡ some e)
        × In e cache.entries
        × (e.identity_uuid ≡ u)
        × All (AtMost u e) cache.entries)
      ⊎ ((entry cache u ≡ none) × All (λ x. x.identity_uuid ≢ u) cache.entries)
unfolding entry
entry-newest cache u = elim (Option-cases (newest u none cache.entries)) [
  | inl absent ↦ inr (absent, newest-none u cache.entries absent)
  | inr (e, found) ↦
      let (is, le, rest) = newest-AtMost u none cache.entries e tt found in
      inl (e, found, In-found u cache.entries e found, is, rest)
]

-- What the validator asks of an envelope.
abbrev pub Admitted : Primitives → RegistryCache → ℕ → Envelope → Type 0
Admitted prim cache now env =
    (entry cache env.sender_uuid ≡ none)
    ⊎ ((e : RegistryEntry) × (entry cache env.sender_uuid ≡ some e)
        × (e.version ≡ env.sender_credential_version)
        × (timestamp_ok env.timestamp now timestamp_window ≡ true)
        × (Envelope.verify prim env e.ed25519_public ≡ ok tt))

check_envelope-ok :
    (prim : Primitives) (cache : RegistryCache) (now : ℕ) (env : Envelope)
    → check_envelope prim cache now env ≡ ok tt
    → Admitted prim cache now env
unfolding check_envelope check_entry
check_envelope-ok prim cache now env h = elim (Option-cases (entry cache env.sender_uuid)) [
  | inl absent ↦ inl absent
  | inr (e, found) ↦ inr (e, found, ground arith, ground arith, ground arith)
]

Admitted-check_envelope :
    (prim : Primitives) (cache : RegistryCache) (now : ℕ) (env : Envelope)
    → Admitted prim cache now env
    → check_envelope prim cache now env ≡ ok tt
unfolding check_envelope check_entry
Admitted-check_envelope prim cache now env (inl absent) = ground arith
Admitted-check_envelope prim cache now env (inr (e, found, same, timely, verifies)) =
    ground (arith, found, same, timely, verifies)

-- The validator's check of a frame of the relay channel, whichever side the frame comes from, returns
-- without an exception exactly where the frame is an envelope and its sender is not in the cache, or the newest entry of the sender has the version that the envelope
-- names, the timestamp is inside the window, and the signature verifies under that entry's key.
pub check-ok_iff :
    (prim : Primitives) (cache : RegistryCache) (now channel : ℕ) (payload : Bytes)
    → channel ≢ 0
    → (check prim cache now channel payload ≡ ok tt)
      ↔ ((env : Envelope) × (parse_envelope payload ≡ ok env) × Admitted prim cache now env)
unfolding check
check-ok_iff prim cache now channel payload relayed = (
  λ h.
      let (env, parsed, passed) =
        >>=-eq-ok (parse_envelope payload) (check_envelope prim cache now) {result = tt}
          (ground arith) in
      (env, parsed, check_envelope-ok prim cache now env passed),
  λ (env, parsed, admitted).
      ground (arith, parsed, Admitted-check_envelope prim cache now env admitted),
)
