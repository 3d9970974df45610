-- ===== src/Rotation/Authentication.antt =====
-- Which credentials authenticate, and that a retired one never does again.
use secupload.Base.{
  ℕ, ◌+◌, ◌≤◌, ◌<◌, ◌≡◌, ◌↔◌, refl, arith, if◌then◌else◌, true, false, Option, none, some, List, [],
  ◌∷◌, Option-cases, Bool-cases, inl, inr, ◌∙◌,
}
use secupload.Base.Dict.{lookup}
use secupload.Crypto.{Primitives}
use secupload.Models.{
  CredentialStatus, CredentialPublic, status_code, is_authenticating, fallback_period,
}
use secupload.Rotation.{
  RotationEngine, is_expired, credential_for_auth, usable, expire_one, expire_all, checkpoint,
  demoted,
}
use secupload.Rotation.Commands.{Command, run, run_all, run-IsValid}
use secupload.Rotation.Invariant.{lookup-expire}
use secupload.Rotation.Edges.{Edge, EvolvesTo}
use secupload.Rotation.Lifecycle.{run-Preserves}
use secupload.Rotation.Promotion.{IsDue, lookup-checkpoint, apart}
use secupload.Rotation.Valid.{IsValid}

-- The statuses that no edge leaves for the window: EXPIRED, TERMINATED, REVOKED.
abbrev pub IsRetired : CredentialStatus → Type 0
IsRetired s = 4 ≤ status_code s

Edge-IsRetired : {s t : CredentialStatus} → Edge s t → IsRetired s → IsRetired t
Edge-IsRetired (Edge.stay s) h = h
Edge-IsRetired Edge.promotion h = absurd (omega arith)
Edge-IsRetired Edge.demotion h = omega arith
Edge-IsRetired Edge.retirement h = omega arith
Edge-IsRetired Edge.rolled_back h = omega arith
Edge-IsRetired Edge.active_expires h = omega arith
Edge-IsRetired Edge.fallback_expires h = omega arith
Edge-IsRetired Edge.validating_expires h = omega arith
Edge-IsRetired (Edge.revocation s) h = omega arith

EvolvesTo-IsRetired :
    (c : CredentialPublic) (o : Option CredentialPublic)
    → EvolvesTo c o
    → IsRetired c.status
    → (c' : CredentialPublic) × (o ≡ some c') × IsRetired c'.status
EvolvesTo-IsRetired c none h r = absurd h
EvolvesTo-IsRetired c (some c') h r = (c', refl, Edge-IsRetired h.edge r)

pub stays-IsRetired :
    (prim : Primitives) (cs : List Command) (e : RotationEngine) (v : ℕ) (c : CredentialPublic)
    → IsValid e
    → lookup v e.creds ≡ some c
    → IsRetired c.status
    → (c' : CredentialPublic) × (lookup v (run_all prim cs e).creds ≡ some c') × IsRetired c'.status
unfolding run_all
stays-IsRetired prim [] e v c h there r = (c, there, r)
stays-IsRetired prim (x ∷ cs) e v c h there r =
    let (c', there', r') = EvolvesTo-IsRetired c _ (run-Preserves prim x e h v c there) r in
    stays-IsRetired prim cs (run prim x e) v c' (run-IsValid prim x e h) there' r'

-- In a well-formed engine, a credential that is expired, terminated or revoked authenticates nothing
-- at any time, whatever calls follow.
pub retired_never_authenticates :
    (prim : Primitives) (cs : List Command) (e : RotationEngine) (v now : ℕ) (c : CredentialPublic)
    → IsValid e
    → lookup v e.creds ≡ some c
    → IsRetired c.status
    → credential_for_auth (run_all prim cs e) v now ≡ none
unfolding credential_for_auth
retired_never_authenticates prim cs e v now c h there r =
    let (c', there', r') = stays-IsRetired prim cs e v c h there r in ground arith

-- An expiration time, if there is one, lies ahead.
abbrev IsAhead : Option ℕ → ℕ → Type 0
IsAhead none now = Unit
IsAhead (some t) now = now < t

not_expired :
    (c : CredentialPublic) (now : ℕ) (x : Option ℕ)
    → c.expiration_time ≡ x
    → (is_expired c now ≡ false) ↔ IsAhead x now
unfolding is_expired
not_expired c now none e = (λ h. tt, λ h. ground arith)
not_expired c now (some t) e = (λ h. ground arith, λ h. ground arith)

usable_iff :
    (now : ℕ) (c : CredentialPublic)
    → (usable now c ≡ true) ↔ ((is_authenticating c.status ≡ true) × IsAhead c.expiration_time now)
unfolding usable
usable_iff now c =
    let (there, back) = not_expired c now c.expiration_time refl in
    (λ h. (ground arith, there (ground arith)), λ h. ground (arith, back h.1, h.0))

-- A lookup for authentication returns the registered record, and it does so exactly when that record
-- is ACTIVE or FALLBACK and its expiration time, if it has one, lies ahead.
pub credential_for_auth-some_iff :
    (e : RotationEngine) (v now : ℕ) (c : CredentialPublic)
    → (credential_for_auth e v now ≡ some c) ↔ (
        (lookup v e.creds ≡ some c)
        × (is_authenticating c.status ≡ true)
        × IsAhead c.expiration_time now)
unfolding credential_for_auth
credential_for_auth-some_iff e v now c =
    let (there, back) = usable_iff now c in
    elim (Option-cases (lookup v e.creds)) [
      | inl absent ↦ (λ h. absurd (ground arith), λ h. absurd (ground (arith, absent, h.0)))
      | inr (w, found) ↦ elim (Bool-cases (usable now w)) [
        | inl live ↦ (
          λ h.
              let same : w ≡ c = ground arith in
              let (auth, ahead) = there (rw (← same) live) in (rw (found, same), auth, ahead),
          λ h. ground (arith, h.0, back (h.1, h.2)),
        )
        | inr dead ↦
            (λ h. absurd (ground arith), λ h. absurd (ground (arith, h.0, back (h.1, h.2))))
      ]
    ]

usable-expire_one :
    (now later : ℕ) (c : CredentialPublic)
    → now ≤ later
    → (if usable later (expire_one now c) then some (expire_one now c) else none)
      ≡ (if usable later c then some c else none)
unfolding usable expire_one
usable-expire_one now later c h = ground arith

-- Marking the expired credentials changes no answer at that time or later.
expire_all-credential_for_auth :
    (e : RotationEngine) (v now later : ℕ)
    → now ≤ later
    → credential_for_auth (expire_all now e).1 v later ≡ credential_for_auth e v later
unfolding credential_for_auth expire_all
expire_all-credential_for_auth e v now later h = elim (Option-cases (lookup v e.creds)) [
  | inl absent ↦ rw (lookup-expire v now e.creds, absent, credential_for_auth)
  | inr (c, found) ↦
      rw (lookup-expire v now e.creds, found, credential_for_auth) (usable-expire_one now later c h)
]

-- In a well-formed engine where a promotion is due, the demoted credential still authenticates after
-- the checkpoint, at any time before the fallback period has passed.
pub fallback_authenticates :
    (now later : ℕ) (e : RotationEngine) (v3 v2 : CredentialPublic)
    → IsValid e
    → IsDue now e v3 v2
    → later < now + fallback_period e.params
    → credential_for_auth (checkpoint now e).1 v2.version later ≡ some (demoted e.params v2 now)
unfolding demoted
fallback_authenticates now later e v3 v2 h due soon =
    (credential_for_auth-some_iff (checkpoint now e).1 v2.version later (demoted e.params v2 now)).1
      (
        lookup-checkpoint v2.version now e v3 v2 due ∙ ground (arith, apart now e v3 v2 h due),
        refl,
        omega arith,
      )
