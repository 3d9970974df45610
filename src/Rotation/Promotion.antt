-- ===== src/Rotation/Promotion.antt =====
-- What a checkpoint does when nothing refuses it, and when it refuses.
use secupload.Base.{
  ℕ, ◌≤◌, ◌==◌, ◌≡◌, ◌≢◌, ◌↔◌, refl, arith, if◌then◌else◌, true, false, Option, none, some, List,
  Option-cases, Bool-cases, inl, inr, ltb, ◌⊎◌, ap, le→ltb, ◌∙◌,
}
use secupload.Base.Dict.{lookup, lookup-insert}
use secupload.Base.Result.{ok, err, Error, Code}
use secupload.Models.{CredentialStatus, CredentialPublic, or_default}
use secupload.Rotation.{
  RotationEngine, active, validating, fallback, checkpoint, checkpoint_active, checkpoint_found,
  promote, terminate_fallback, store, with_status, demoted, promoted, is_expired,
}
use secupload.Rotation.Counts.{by_status_found, by_status_unique}
use secupload.Rotation.Valid.{A, F, V, IsValid, versions_differ}
use secupload.Rotation.Invariant.{checkpoint-IsValid}

-- The conditions under which the engine promotes: a validating credential whose deadline has passed
-- and that has not expired, and an active one that has not expired.
pub record IsDue (now : ℕ) (e : RotationEngine) (v3 v2 : CredentialPublic) : Type 0 where
  pub found_validating : validating e ≡ some v3
  pub found_active : active e ≡ some v2
  pub reached : or_default v3.validation_deadline 0 ≤ now
  pub live_validating : is_expired v3 now ≡ false
  pub live_active : is_expired v2 now ≡ false

-- With these, a checkpoint is the promotion.
checkpoint-eq-promote :
    (now : ℕ) (e : RotationEngine) (v3 v2 : CredentialPublic)
    → IsDue now e v3 v2
    → checkpoint now e ≡ promote v3 v2 now e
unfolding checkpoint
checkpoint-eq-promote now e v3 v2 h =
    let due : ltb now (or_default v3.validation_deadline 0) ≡ false = le→ltb _ _ h.reached in
    rw (h.found_validating, checkpoint, due, h.live_validating) (active_part now e v3 v2 h)
  where
    active_part :
        (now : ℕ) (e : RotationEngine) (v3 v2 : CredentialPublic)
        → IsDue now e v3 v2
        → checkpoint_active v3 now e ≡ promote v3 v2 now e
    active_part now e v3 v2 h = rw (h.found_active, checkpoint_active, h.live_active)

-- The credential that ends its fallback period with the promotion.
abbrev pub retired : Option CredentialPublic → ℕ → Option CredentialPublic → Option CredentialPublic
retired none v found = found
retired (some v1) v found =
    if v == v1.version then some (with_status v1 CredentialStatus.terminated) else found

lookup-terminated :
    (v : ℕ) (o : Option CredentialPublic) (e : RotationEngine)
    → lookup v (terminate_fallback o e).1.creds ≡ retired o v (lookup v e.creds)
unfolding terminate_fallback
lookup-terminated v none e = refl
lookup-terminated v (some v1) e = lookup-insert v v1.version _ e.creds

lookup-promote :
    (v now : ℕ) (v3 v2 : CredentialPublic) (e : RotationEngine)
    → lookup v (promote v3 v2 now e).1.creds ≡ (
        if v == v3.version
        then some (promoted v3 now)
        else if v == v2.version
        then some (demoted e.params v2 now)
        else retired (fallback e) v (lookup v e.creds))
unfolding promote
lookup-promote v now v3 v2 e = rw (lookup-insert, lookup-insert, lookup-terminated v (fallback e) e)

-- Every record after a promotion: V3 is ACTIVE from now on, V2 is FALLBACK and stays valid for the
-- fallback period at least, the old fallback is TERMINATED, and no other record changes.
pub lookup-checkpoint :
    (v now : ℕ) (e : RotationEngine) (v3 v2 : CredentialPublic)
    → IsDue now e v3 v2
    → lookup v (checkpoint now e).1.creds ≡ (
        if v == v3.version
        then some (promoted v3 now)
        else if v == v2.version
        then some (demoted e.params v2 now)
        else retired (fallback e) v (lookup v e.creds))
lookup-checkpoint v now e v3 v2 h =
    rw (checkpoint-eq-promote now e v3 v2 h) (lookup-promote v now v3 v2 e)

module _ (now : ℕ) (e : RotationEngine) (v3 v2 : CredentialPublic) (h : IsValid e)
    (due : IsDue now e v3 v2) where
  pub apart : v2.version ≢ v3.version
  unfolding active validating
  apart =
      let (there3, is3) = by_status_found V v3 e.creds h.keyed due.found_validating in
      let (there2, is2) = by_status_found A v2 e.creds h.keyed due.found_active in
      versions_differ A V v2 v3 e.creds (omega arith) there2 there3 is2 is3

  active_after : active (checkpoint now e).1 ≡ some (promoted v3 now)
  unfolding active promoted
  active_after =
      by_status_unique A v3.version (promoted v3 now) _ (checkpoint-IsValid now e h).one_active
        (lookup-checkpoint v3.version now e v3 v2 due ∙ ground arith) refl

  fallback_after : fallback (checkpoint now e).1 ≡ some (demoted e.params v2 now)
  unfolding fallback demoted
  fallback_after =
      by_status_unique F v2.version (demoted e.params v2 now) _
        (checkpoint-IsValid now e h).one_fallback
        (lookup-checkpoint v2.version now e v3 v2 due ∙ ground (arith, apart)) refl

  validating_after : validating (checkpoint now e).1 ≡ none
  unfolding validating fallback promoted demoted
  validating_after = elim (Option-cases (validating (checkpoint now e).1)) [
    | inl absent ↦ absent
    | inr (w, found) ↦
        let (there, is) = by_status_found V w _ (checkpoint-IsValid now e h).keyed found in
        let old = by_status_unique V w.version w e.creds h.one_validating in
        absurd (
          ground (
            arith,
            lookup-checkpoint w.version now e v3 v2 due,
            there,
            is,
            old,
            due.found_validating,
          ))
  ]

-- In a well-formed engine where a promotion is due, the checkpoint succeeds, and afterwards the
-- validating credential is the ACTIVE one, the active one is the FALLBACK with the fallback period
-- still before it, and none is VALIDATING.
pub checkpoint-promotes :
    (now : ℕ) (e : RotationEngine) (v3 v2 : CredentialPublic)
    → IsValid e
    → IsDue now e v3 v2
    → ((changed : List CredentialPublic) × ((checkpoint now e).0 ≡ ok changed))
      × (active (checkpoint now e).1 ≡ some (promoted v3 now))
      × (fallback (checkpoint now e).1 ≡ some (demoted e.params v2 now))
      × (validating (checkpoint now e).1 ≡ none)
unfolding promote
checkpoint-promotes now e v3 v2 h due = (
  (_, ap (λ o. o.0) (checkpoint-eq-promote now e v3 v2 due)),
  active_after now e v3 v2 h due,
  fallback_after now e v3 v2 h due,
  validating_after now e v3 v2 h due,
)

-- What `checkpoint` returns, by the search for each credential and the tests on it.
found_ok :
    (now : ℕ) (e : RotationEngine) (changed : List CredentialPublic)
    → (checkpoint now e).0 ≡ ok changed
    → (v3 : CredentialPublic) × (v2 : CredentialPublic) × IsDue now e v3 v2
unfolding checkpoint checkpoint_found checkpoint_active
found_ok now e changed h = elim (Option-cases (validating e)) [
  | inl absent ↦ absurd (ground arith)
  | inr (v3, f3) ↦ elim (Option-cases (active e)) [
    | inl absent ↦ absurd (ground arith)
    | inr (v2, f2) ↦ (
      v3,
      v2,
      record {
        found_validating = f3;
        found_active = f2;
        reached = ground arith;
        live_validating = ground arith;
        live_active = ground arith;
      },
    )
  ]
]

-- A checkpoint succeeds exactly when a promotion is due by the given clock.
pub checkpoint-ok_iff :
    (now : ℕ) (e : RotationEngine)
    → ((changed : List CredentialPublic) × ((checkpoint now e).0 ≡ ok changed))
      ↔ ((v3 : CredentialPublic) × (v2 : CredentialPublic) × IsDue now e v3 v2)
unfolding promote
checkpoint-ok_iff now e =
    (λ r. found_ok now e r.0 r.1, λ d. (_, ap (λ o. o.0) (checkpoint-eq-promote now e d.0 d.1 d.2)))

-- A checkpoint that raises leaves the engine as it was, but for a validating credential that expired
-- before its promotion: that one becomes EXPIRED.
pub checkpoint_refused :
    (now : ℕ) (e : RotationEngine) (x : Error)
    → (checkpoint now e).0 ≡ err x
    → ((checkpoint now e).1 ≡ e)
      ⊎ ((v3 : CredentialPublic) × (validating e ≡ some v3)
          × (is_expired v3 now ≡ true)
          × (x ≡ Error.rotation_error Code.v3_expired)
          × ((checkpoint now e).1 ≡ store e v3.version (with_status v3 CredentialStatus.expired)))
unfolding checkpoint checkpoint_found checkpoint_active promote
checkpoint_refused now e x h = elim (Option-cases (validating e)) [
  | inl absent ↦ inl (ground arith)
  | inr (v3, f3) ↦ elim (Bool-cases (is_expired v3 now)) [
    | inr live ↦ inl (ground arith)
    | inl late ↦ elim (Bool-cases (ltb now (or_default v3.validation_deadline 0))) [
      | inl early ↦ inl (ground arith)
      | inr due ↦ inr (v3, f3, late, ground arith, ground arith)
    ]
  ]
]
