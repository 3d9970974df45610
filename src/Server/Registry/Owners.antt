-- ===== src/Server/Registry/Owners.antt =====
-- server/sih_server/registry.py: a transition leaves an identity's engine with credentials of that
-- identity only, and takes no version away.
use secupload.Base.{
  [], ◌∷◌, ℕ, ◌≡◌, ◌≢◌, arith, Option, none, some, Option-cases, Bool-cases, inl, inr, Bytes, ltb,
}
use secupload.Base.Dict.{lookup}
use secupload.Crypto.{Primitives}
use secupload.Models.{CredentialPublic, or_default}
use secupload.Rotation
use secupload.Rotation.{
  RotationEngine, by_status, active, fallback, validating, checkpoint_active, checkpoint_found,
  promote, terminate_fallback, is_expired, submitted, provisioned, expire_creds, expire_one, Creds,
}
use secupload.Rotation.Commands.{Command, run}
use secupload.Rotation.Lifecycle.{submit_successor-Adds, provision_initial-Adds, run-Evolves}
use secupload.Rotation.Edges.{EvolvesTo}
use secupload.Rotation.Valid.{A, F, V, IsValid}
use secupload.Server.Registry.Saving.{Owned, Owned-insert, Owned-lookup, Owned-by_status}

submit-Owned :
    (prim : Primitives) (u : ℕ) (c : CredentialPublic) (sig meta : Bytes) (now : ℕ)
    (e : RotationEngine)
    → c.identity_uuid ≡ u
    → Owned u e.creds
    → Owned u (Rotation.submit_successor prim c sig meta now e).1.creds
unfolding submitted
submit-Owned prim u c sig meta now e same h = elim (submit_successor-Adds prim c sig meta now e) [
  | inl unchanged ↦ rw unchanged h
  | inr (new, added) ↦ rw added (Owned-insert u c.version (submitted e.params c now) e.creds h same)
]

provision-Owned :
    (u : ℕ) (c : CredentialPublic) (now : ℕ) (e : RotationEngine)
    → c.identity_uuid ≡ u
    → Owned u e.creds
    → Owned u (Rotation.provision_initial c now e).1.creds
unfolding provisioned
provision-Owned u c now e same h = elim (provision_initial-Adds c now e) [
  | inl unchanged ↦ rw unchanged h
  | inr (new, added) ↦
      rw added (Owned-insert u c.version (provisioned e.params c now) e.creds h same)
]

expire_creds-Owned : (u now : ℕ) (d : Creds) → Owned u d → Owned u (expire_creds now d)
unfolding expire_creds expire_one
expire_creds-Owned u now [] h = tt
expire_creds-Owned u now ((v, c) ∷ d) h = (ground (arith, h.0), expire_creds-Owned u now d h.1)

expire-Owned :
    (u now : ℕ) (e : RotationEngine) → Owned u e.creds → Owned u (Rotation.expire_all now e).1.creds
unfolding Rotation.expire_all
expire-Owned u now e h = expire_creds-Owned u now e.creds h

rollback-Owned :
    (u now : ℕ) (e : RotationEngine) → Owned u e.creds → Owned u (Rotation.rollback now e).1.creds
unfolding Rotation.rollback validating
rollback-Owned u now e h = elim (Option-cases (by_status V e.creds)) [
  | inl absent ↦ rw (absent, Rotation.rollback) h
  | inr (c, found) ↦
      rw (found, Rotation.rollback)
        (Owned-insert u c.version _ e.creds h (Owned-by_status u V c e.creds h found))
]

revoke-Owned :
    (u v now : ℕ) (e : RotationEngine) → Owned u e.creds → Owned u (Rotation.revoke v now e).1.creds
unfolding Rotation.revoke
revoke-Owned u v now e h = elim (Option-cases (lookup v e.creds)) [
  | inl absent ↦ rw (absent, Rotation.revoke) h
  | inr (c, found) ↦
      rw (found, Rotation.revoke)
        (Owned-insert u v _ e.creds h (Owned-lookup u v c e.creds h found))
]

terminate_fallback-Owned :
    (u : ℕ) (e : RotationEngine)
    → Owned u e.creds
    → Owned u (terminate_fallback (fallback e) e).1.creds
unfolding terminate_fallback fallback
terminate_fallback-Owned u e h = elim (Option-cases (by_status F e.creds)) [
  | inl absent ↦ rw (absent, terminate_fallback) h
  | inr (c, found) ↦
      rw (found, terminate_fallback)
        (Owned-insert u c.version _ e.creds h (Owned-by_status u F c e.creds h found))
]

promote-Owned :
    (u : ℕ) (v3 v2 : CredentialPublic) (now : ℕ) (e : RotationEngine)
    → v3.identity_uuid ≡ u
    → v2.identity_uuid ≡ u
    → Owned u e.creds
    → Owned u (promote v3 v2 now e).1.creds
unfolding promote
promote-Owned u v3 v2 now e own3 own2 h =
    Owned-insert u v3.version _ _
      (Owned-insert u v2.version _ _ (terminate_fallback-Owned u e h) own2) own3

checkpoint_active-Owned :
    (u : ℕ) (v3 : CredentialPublic) (now : ℕ) (e : RotationEngine)
    → v3.identity_uuid ≡ u
    → Owned u e.creds
    → Owned u (checkpoint_active v3 now e).1.creds
unfolding checkpoint_active active
checkpoint_active-Owned u v3 now e own h = elim (Option-cases (by_status A e.creds)) [
  | inl absent ↦ rw (absent, checkpoint_active) h
  | inr (v2, found) ↦ elim (Bool-cases (is_expired v2 now)) [
    | inl late ↦ rw (found, checkpoint_active, late) h
    | inr live ↦
        rw (found, checkpoint_active, live)
          (promote-Owned u v3 v2 now e own (Owned-by_status u A v2 e.creds h found) h)
  ]
]

checkpoint-Owned :
    (u now : ℕ) (e : RotationEngine) → Owned u e.creds → Owned u (Rotation.checkpoint now e).1.creds
unfolding Rotation.checkpoint validating checkpoint_found
checkpoint-Owned u now e h = elim (Option-cases (by_status V e.creds)) [
  | inl absent ↦ rw (absent, Rotation.checkpoint) h
  | inr (v3, found) ↦
      let own = Owned-by_status u V v3 e.creds h found in
      elim (Bool-cases (ltb now (or_default v3.validation_deadline 0))) [
        | inl early ↦ rw (found, Rotation.checkpoint, early, checkpoint_found) h
        | inr due ↦ elim (Bool-cases (is_expired v3 now)) [
          | inl late ↦
              rw (found, Rotation.checkpoint, due, checkpoint_found, late)
                (Owned-insert u v3.version _ e.creds h own)
          | inr live ↦
              rw (found, Rotation.checkpoint, due, checkpoint_found, live)
                (checkpoint_active-Owned u v3 now e own h)
        ]
      ]
]

-- The calls that a transition of the registry makes: whom a submitted credential belongs to.
abbrev pub IsFor : ℕ → Command → Type 0
IsFor u (Command.provision c now) = c.identity_uuid ≡ u
IsFor u (Command.submit c sig meta now) = c.identity_uuid ≡ u
IsFor u (Command.promote now) = Unit
IsFor u (Command.rollback now) = Unit
IsFor u (Command.expire now) = Unit
IsFor u (Command.revoke v now) = Unit

pub run-Owned :
    (prim : Primitives) (u : ℕ) (x : Command) (e : RotationEngine)
    → IsFor u x
    → Owned u e.creds
    → Owned u (run prim x e).creds
unfolding run
run-Owned prim u (Command.provision c now) e for h = provision-Owned u c now e for h
run-Owned prim u (Command.submit c sig meta now) e for h =
    submit-Owned prim u c sig meta now e for h
run-Owned prim u (Command.promote now) e for h = checkpoint-Owned u now e h
run-Owned prim u (Command.rollback now) e for h = rollback-Owned u now e h
run-Owned prim u (Command.expire now) e for h = expire-Owned u now e h
run-Owned prim u (Command.revoke v now) e for h = revoke-Owned u v now e h

EvolvesTo-some : (c : CredentialPublic) (o : Option CredentialPublic) → EvolvesTo c o → o ≢ none
EvolvesTo-some c none h absent = absurd h
EvolvesTo-some c (some d) h absent = absurd (ground arith)

-- A version that an engine lacks after a call was not there before it.
pub versions_stay :
    (prim : Primitives) (x : Command) (e : RotationEngine) (v : ℕ)
    → IsValid e
    → lookup v (run prim x e).creds ≡ none
    → lookup v e.creds ≡ none
versions_stay prim x e v h gone = elim (Option-cases (lookup v e.creds)) [
  | inl absent ↦ absent
  | inr (c, there) ↦ absurd (EvolvesTo-some c _ (run-Evolves prim x e v c h there) gone)
]
