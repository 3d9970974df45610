-- ===== src/Server/Registry/Transactions.antt =====
-- The registry's transitions are transactions, and touch one identity.
use secupload.Base.{
  ℕ, ◌≡◌, ◌≢◌, refl, arith, Bool, false, Option, none, some, List, [], ◌∷◌, ◌++◌, Bytes,
  Option-cases, inl, inr, ◌∙◌,
}
use secupload.Base.Result.{Result, ok, err, Error, Result-cases}
use secupload.Crypto.{Primitives}
use secupload.Models.{CredentialPublic, RotationParams}
use secupload.Rotation
use secupload.Rotation.{RotationEngine, Outcome}
use secupload.Rotation.Commands.{new}
use secupload.Server.Database.{Database}
use secupload.Server.Registry.{
  apply, transact, load_engine, submit_successor, checkpoint, checkpoint_audit, rollback, revoke,
  last, submit_fn, generated_credential, audited,
}

transact-err :
    {A : Type 0} (fn : RotationEngine → Outcome A) (e : RotationEngine) (db : Database) (x : Error)
    → (transact fn e db).0 ≡ err x
    → (transact fn e db).1 ≡ db
unfolding transact
transact-err fn e db x h = elim (Result-cases (fn e).0) [
  | inl (a, good) ↦ absurd (ground arith)
  | inr (y, bad) ↦ ground arith
]

apply-err :
    {A : Type 0} (params : RotationParams) (u : ℕ) (unknown : Bool)
    (fn : RotationEngine → Outcome A) (db : Database) (x : Error)
    → (apply params u unknown fn db).0 ≡ err x
    → (apply params u unknown fn db).1 ≡ db
unfolding apply
apply-err params u unknown fn db x h = elim (Option-cases (load_engine params db u)) [
  | inl absent ↦ ground (arith, transact-err fn (new params) db x)
  | inr (e, found) ↦ ground (arith, transact-err fn e db x)
]

-- The transitions of one identity that a request can ask for.
pub data Transition : Type 0 where
  submitting : ℕ → Bytes → Bytes → Bytes → Bytes → ℕ → Transition
  promoting rolling_back : ℕ → Transition
  revoking : ℕ → ℕ → Transition

unfoldable pub failure : {A : Type 0} → Result A × Database → Option Error × Database
failure (ok a, db) = (none, db)
failure (err x, db) = (some x, db)

-- What a transition raises, if it does, and the database after it.
unfoldable pub perform :
    Primitives → RotationParams → ℕ → Transition → Database → Option Error × Database
unfolding failure
perform prim params u (Transition.submitting v ed25519 x25519 sig meta now) db =
    failure (submit_successor prim params u v ed25519 x25519 sig meta now db)
perform prim params u (Transition.promoting now) db = failure (checkpoint params u now db)
perform prim params u (Transition.rolling_back now) db = failure (rollback params u now db)
perform prim params u (Transition.revoking v now) db = failure (revoke params u v now db)

last-two : {A : Type 0} (xs : List A) (a b : A) → last (xs ++ a ∷ b ∷ []) ≡ some b
last-two [] a b = refl
last-two (x ∷ []) a b = refl
last-two (x ∷ y ∷ ys) a b = last-two (y ∷ ys) a b

promote-last :
    (v3 v2 : CredentialPublic) (now : ℕ) (e : RotationEngine) (changed : List CredentialPublic)
    → (Rotation.promote v3 v2 now e).0 ≡ ok changed
    → last changed ≢ none
unfolding Rotation.promote
promote-last v3 v2 now e changed good empty =
    let d = Rotation.demoted e.params v2 now in
    let p = Rotation.promoted v3 now in
    let shown = last-two (Rotation.terminate_fallback (Rotation.fallback e) e).0 d p in
    absurd (ground arith)

-- The list that a checkpoint returns is not empty.
checkpoint-last :
    (now : ℕ) (e : RotationEngine) (changed : List CredentialPublic)
    → (Rotation.checkpoint now e).0 ≡ ok changed
    → last changed ≢ none
unfolding Rotation.checkpoint Rotation.checkpoint_found Rotation.checkpoint_active
checkpoint-last now e changed good = elim (Option-cases (Rotation.validating e)) [
  | inl absent ↦ absurd (ground arith)
  | inr (v3, there) ↦ elim (Option-cases (Rotation.active e)) [
    | inl absent ↦ absurd (ground arith)
    | inr (v2, found) ↦ promote-last v3 v2 now e changed (ground arith)
  ]
]

transact-ok :
    {A : Type 0} (fn : RotationEngine → Outcome A) (e : RotationEngine) (db : Database) (a : A)
    → (transact fn e db).0 ≡ ok a
    → (fn e).0 ≡ ok a
unfolding transact
transact-ok fn e db a h = elim (Result-cases (fn e).0) [
  | inl (b, good) ↦ ground arith
  | inr (y, bad) ↦ absurd (ground arith)
]

apply-ok :
    {A : Type 0} (params : RotationParams) (u : ℕ) (fn : RotationEngine → Outcome A) (db : Database)
    (a : A)
    → (apply params u false fn db).0 ≡ ok a
    → (e : RotationEngine) × ((fn e).0 ≡ ok a)
unfolding apply
apply-ok params u fn db a h = elim (Option-cases (load_engine params db u)) [
  | inl absent ↦ absurd (ground arith)
  | inr (e, found) ↦ (e, transact-ok fn e db a (ground arith))
]

checkpoint-err :
    (params : RotationParams) (u now : ℕ) (db : Database) (x : Error)
    → (checkpoint params u now db).0 ≡ err x
    → (checkpoint params u now db).1 ≡ db
unfolding checkpoint checkpoint_audit
checkpoint-err params u now db x h =
    elim (Result-cases (apply params u false (Rotation.checkpoint now) db).0) [
      | inl (changed, good) ↦
          let (e, ran) = apply-ok params u (Rotation.checkpoint now) db changed good in
          elim (Option-cases (last changed)) [
            | inl empty ↦ absurd (checkpoint-last now e changed ran empty)
            | inr (c, found) ↦ absurd (ground arith)
          ]
      | inr (y, bad) ↦ ground (arith, apply-err params u false (Rotation.checkpoint now) db y bad)
    ]

audited-err :
    {A B : Type 0} (event : A → Database → Database) (f : A → B) (db : Database)
    (r : Result A × Database) (x : Error)
    → ((y : Error) → r.0 ≡ err y → r.1 ≡ db)
    → (audited (λ a. ok (f a)) event r).0 ≡ err x
    → (audited (λ a. ok (f a)) event r).1 ≡ db
audited-err event f db (ok a, db1) x kept h = absurd (ground arith)
audited-err event f db (err y, db1) x kept h = kept y refl

failure-some :
    {A : Type 0} (r : Result A × Database) (x : Error) → (failure r).0 ≡ some x → r.0 ≡ err x
unfolding failure
failure-some (ok a, db) x h = absurd (ground arith)
failure-some (err y, db) x h = ground arith

pub failure-database : {A : Type 0} (r : Result A × Database) → (failure r).1 ≡ r.1
unfolding failure
failure-database (ok a, db) = refl
failure-database (err y, db) = refl

-- Whatever a submission, a checkpoint, a rollback or a revocation raises, it leaves the database as it
-- was: no credential and no audit event is written.
pub failed_transition_writes_nothing :
    (prim : Primitives) (params : RotationParams) (u : ℕ) (t : Transition) (db : Database)
    (x : Error)
    → (perform prim params u t db).0 ≡ some x
    → (perform prim params u t db).1 ≡ db
unfolding perform submit_successor rollback revoke
failed_transition_writes_nothing prim params u (Transition.submitting v ed25519 x25519 sig meta now)
      db x h =
    let fn = submit_fn prim (generated_credential u v ed25519 x25519) sig meta now in
    let r = submit_successor prim params u v ed25519 x25519 sig meta now db in
    failure-database r
    ∙ audited-err _ (λ c. c) db (apply params u false fn db) x (apply-err params u false fn db)
        (failure-some r x h)
failed_transition_writes_nothing prim params u (Transition.promoting now) db x h =
    let r = checkpoint params u now db in
    failure-database r ∙ checkpoint-err params u now db x (failure-some r x h)
failed_transition_writes_nothing prim params u (Transition.rolling_back now) db x h =
    let r = rollback params u now db in
    failure-database r
    ∙ audited-err _ (λ c. c) db (apply params u false (Rotation.rollback now) db) x
        (apply-err params u false (Rotation.rollback now) db) (failure-some r x h)
failed_transition_writes_nothing prim params u (Transition.revoking v now) db x h =
    let r = revoke params u v now db in
    failure-database r
    ∙ audited-err _ (λ c. c) db (apply params u false (Rotation.revoke v now) db) x
        (apply-err params u false (Rotation.revoke v now) db) (failure-some r x h)
