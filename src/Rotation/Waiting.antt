-- ===== src/Rotation/Waiting.antt =====
-- A submitted credential waits for its deadline: no sequence of calls makes it authenticate before
-- a checkpoint by a clock that has reached it.
use secupload.Base.{
  ℕ, ◌+◌, ◌<◌, ◌==◌, ◌≡◌, refl, arith, true, false, Option, none, some, List, [], ◌∷◌, Option-cases,
  Bool-cases, inl, inr, Bytes, ltb, ◌⊎◌, ◌∙◌, All,
}
use secupload.Base.Dict.{lookup, lookup-insert}
use secupload.Base.Result.{ok}
use secupload.Crypto.{Primitives}
use secupload.Models.{
  CredentialStatus, CredentialPublic, is_authenticating, validation_period, or_default,
}
use secupload.Rotation.{
  RotationEngine, credential_for_auth, expire_one, expire_all, checkpoint, checkpoint_found,
  validating, submit_successor, submitted, rollback, revoke,
}
use secupload.Rotation.Authentication.{IsRetired, stays-IsRetired}
use secupload.Rotation.Commands.{Command, run, run_all, run-IsValid}
use secupload.Rotation.Counts.{one, by_status_unique}
use secupload.Rotation.Invariant.{lookup-expire, submit_successor-IsValid}
use secupload.Rotation.Edges.{Adds}
use secupload.Rotation.Lifecycle.{provision_initial-Adds, submit_successor-Adds}
use secupload.Rotation.Valid.{V, IsValid, Keyed-version}
use secupload.Rotation.Submission.{submit_successor-ok}

-- While a credential waits for its deadline: it is VALIDATING with that deadline, or retired.
abbrev Waits : ℕ → CredentialPublic → Type 0
Waits d c =
    ((c.status ≡ CredentialStatus.validating) × (c.validation_deadline ≡ some d))
    ⊎ IsRetired c.status

-- A call whose clock, if it is a checkpoint, has not reached the deadline.
abbrev IsEarly : ℕ → Command → Type 0
IsEarly d (Command.promote now) = now < d
IsEarly d c = Unit

abbrev WaitsAt : ℕ → Option CredentialPublic → Type 0
WaitsAt d none = ⊥
WaitsAt d (some c) = Waits d c

Adds-lookup :
    (e e' : RotationEngine) (c w : CredentialPublic) (v : ℕ)
    → Adds e e' c
    → lookup v e.creds ≡ some w
    → lookup v e'.creds ≡ some w
Adds-lookup e e' c w v (inl same) there = rw same there
Adds-lookup e e' c w v (inr (new, added)) there = elim (Bool-cases (v == c.version)) [
  | inr other ↦ rw (added, lookup-insert v c.version c e.creds, other) there
  | inl same ↦ let eq : v ≡ c.version = ground arith in absurd (ground (arith, new, rw eq at there))
]

module _ (d v : ℕ) (c : CredentialPublic) (e : RotationEngine) (h : IsValid e)
    (there : lookup v e.creds ≡ some c) (vs : c.status ≡ CredentialStatus.validating)
    (dl : c.validation_deadline ≡ some d) where
  waits_still : {o : Option CredentialPublic} → o ≡ some c → WaitsAt d o
  waits_still eq = rw eq (inl (vs, dl))

  own : (v == c.version) ≡ true
  own = ground (arith, Keyed-version v c e.creds h.keyed there)

  is_v : one V c ≡ 1
  is_v = rw vs

  checkpoint-waits : (now : ℕ) → now < d → WaitsAt d (lookup v (checkpoint now e).1.creds)
  unfolding checkpoint checkpoint_found validating
  checkpoint-waits now early =
      let found = by_status_unique V v c e.creds h.one_validating there is_v in
      let early_test : ltb now (or_default c.validation_deadline 0) ≡ true = ground arith in
      rw (found, checkpoint, early_test, checkpoint_found) (waits_still there)

  rollback-waits : (now : ℕ) → WaitsAt d (lookup v (rollback now e).1.creds)
  unfolding rollback validating
  rollback-waits now =
      let found = by_status_unique V v c e.creds h.one_validating there is_v in
      rw (found, rollback, lookup-insert v c.version _ e.creds, own) (inr (omega arith))

  revoke-waits : (w now : ℕ) → WaitsAt d (lookup v (revoke w now e).1.creds)
  unfolding revoke
  revoke-waits w now = elim (Option-cases (lookup w e.creds)) [
    | inl absent ↦ rw (absent, revoke) (waits_still there)
    | inr (x, found) ↦ elim (Bool-cases (v == w)) [
      | inl same ↦ rw (found, revoke, lookup-insert v w _ e.creds, same) (inr (omega arith))
      | inr other ↦ rw (found, revoke, lookup-insert v w _ e.creds, other) (waits_still there)
    ]
  ]

  expire-waits : (now : ℕ) → WaitsAt d (lookup v (expire_all now e).1.creds)
  unfolding expire_all expire_one
  expire-waits now =
      let keeps : is_authenticating c.status ≡ false = rw vs in
      rw (lookup-expire v now e.creds, there, keeps) (inl (vs, dl))

run-waits :
    (prim : Primitives) (d v : ℕ) (c : CredentialPublic) (x : Command) (e : RotationEngine)
    → IsValid e
    → lookup v e.creds ≡ some c
    → c.status ≡ CredentialStatus.validating
    → c.validation_deadline ≡ some d
    → IsEarly d x
    → WaitsAt d (lookup v (run prim x e).creds)
unfolding run
run-waits prim d v c (Command.provision cred now) e h there vs dl early =
    waits_still d v c e h there vs dl
      (Adds-lookup e _ _ c v (provision_initial-Adds cred now e) there)
run-waits prim d v c (Command.submit cred sig meta now) e h there vs dl early =
    waits_still d v c e h there vs dl
      (Adds-lookup e _ _ c v (submit_successor-Adds prim cred sig meta now e) there)
run-waits prim d v c (Command.promote now) e h there vs dl early =
    checkpoint-waits d v c e h there vs dl now early
run-waits prim d v c (Command.rollback now) e h there vs dl early =
    rollback-waits d v c e h there vs dl now
run-waits prim d v c (Command.expire now) e h there vs dl early =
    expire-waits d v c e h there vs dl now
run-waits prim d v c (Command.revoke w now) e h there vs dl early =
    revoke-waits d v c e h there vs dl w now

not_usable :
    (c : CredentialPublic) (later : ℕ) (e : RotationEngine) (v d : ℕ)
    → lookup v e.creds ≡ some c
    → Waits d c
    → credential_for_auth e v later ≡ none
unfolding credential_for_auth
not_usable c later e v d there (inl (vs, dl)) =
    let out : is_authenticating c.status ≡ false = rw vs in ground arith
not_usable c later e v d there (inr r) = ground arith

some-Waits :
    (d : ℕ) (o : Option CredentialPublic)
    → WaitsAt d o
    → (c : CredentialPublic) × (o ≡ some c) × Waits d c
some-Waits d none h = absurd h
some-Waits d (some c) h = (c, refl, h)

-- In a well-formed engine, a credential that is VALIDATING with a deadline, or retired, authenticates
-- nothing as long as no checkpoint runs by a clock that has reached that deadline, whatever other calls
-- are made, and by whatever clocks.
waiting_never_authenticates :
    (prim : Primitives) (cs : List Command) (e : RotationEngine) (d v later : ℕ)
    → (c : CredentialPublic) → IsValid e
    → lookup v e.creds ≡ some c
    → Waits d c
    → All (IsEarly d) cs
    → credential_for_auth (run_all prim cs e) v later ≡ none
unfolding run_all
waiting_never_authenticates prim [] e d v later c h there w early = not_usable c later e v d there w
waiting_never_authenticates prim (x ∷ cs) e d v later c h there (inl (vs, dl)) early =
    let (c', there', w') = some-Waits d _ (run-waits prim d v c x e h there vs dl early.0) in
    waiting_never_authenticates prim cs (run prim x e) d v later c' (run-IsValid prim x e h) there'
      w' early.1
waiting_never_authenticates prim (x ∷ cs) e d v later c h there (inr r) early =
    let (c', there', r') = stays-IsRetired prim (x ∷ []) e v c h there r in
    waiting_never_authenticates prim cs (run prim x e) d v later c' (run-IsValid prim x e h) there'
      (inr r') early.1

-- In a well-formed engine, a successor whose submission succeeded at `now` cannot authenticate, at any
-- time, as long as each checkpoint that follows runs by a clock before `now` plus the validation
-- period, whatever other calls are made.
pub no_early_promotion :
    (prim : Primitives) (cred : CredentialPublic) (sig meta : Bytes) (now later : ℕ)
    → (e : RotationEngine) (cs : List Command) → IsValid e
    → (submit_successor prim cred sig meta now e).0 ≡ ok tt
    → All (IsEarly (now + validation_period e.params)) cs
    → credential_for_auth
        (run_all prim cs (submit_successor prim cred sig meta now e).1)
        cred.version
        later
      ≡ none
unfolding submitted
no_early_promotion prim cred sig meta now later e cs h done early =
    let added = (submit_successor-ok prim cred sig meta now e done).1 in
    let there : lookup cred.version (submit_successor prim cred sig meta now e).1.creds
        ≡ some (submitted e.params cred now) =
      rw added (lookup-insert cred.version cred.version _ e.creds ∙ ground arith) in
    waiting_never_authenticates prim cs _ (now + validation_period e.params) cred.version later
      (submitted e.params cred now) (submit_successor-IsValid prim cred sig meta now e h) there
      (inl (refl, refl)) early
