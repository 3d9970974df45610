-- ===== src/Server/Registry/Commits.antt =====
-- server/sih_server/registry.py: what a transition that raises nothing has read and written.
use secupload.Base.{
  ℕ, ◌≡◌, refl, arith, false, none, some, Option-cases, inl, inr, Bytes, sym, List,
}
use secupload.Base.Result.{Result, ok, err, Result-cases}
use secupload.Crypto.{Primitives}
use secupload.Models.{CredentialPublic, RotationParams}
use secupload.Rotation
use secupload.Rotation.{RotationEngine, Outcome, Creds}
use secupload.Rotation.Commands.{Command, run}
use secupload.Server.Database.{Database, record_event}
use secupload.Server.Registry.{
  apply, transact, load_engine, submit_successor, checkpoint, checkpoint_audit, rollback, revoke,
  last, submit_fn, generated_credential, audited, commit_engine,
}
use secupload.Server.Registry.Owners.{IsFor}
use secupload.Server.Registry.Transactions.{Transition, perform, failure, failure-database}

-- The call of the engine that a transition stands for.
abbrev pub command : ℕ → Transition → Command
command u (Transition.submitting v ed25519 x25519 sig meta now) =
    Command.submit (generated_credential u v ed25519 x25519) sig meta now
command u (Transition.promoting now) = Command.promote now
command u (Transition.rolling_back now) = Command.rollback now
command u (Transition.revoking v now) = Command.revoke v now

pub IsFor-command : (u : ℕ) (t : Transition) → IsFor u (command u t)
unfolding generated_credential
IsFor-command u (Transition.submitting v ed25519 x25519 sig meta now) = refl
IsFor-command u (Transition.promoting now) = tt
IsFor-command u (Transition.rolling_back now) = tt
IsFor-command u (Transition.revoking v now) = tt

-- What a transaction that returned did: it read the engine, and wrote it after the call.
pub record Committed (params : RotationParams) (u : ℕ) (db db1 : Database)
    (go : RotationEngine → RotationEngine) : Type 0 where
  pub engine : RotationEngine
  pub loaded : load_engine params db u ≡ some engine
  pub committed : db1.credentials ≡ (commit_engine (go engine) db).credentials

apply-Committed :
    {A : Type 0} (params : RotationParams) (u : ℕ) (fn : RotationEngine → Outcome A) (db : Database)
    (a : A)
    → (apply params u false fn db).0 ≡ ok a
    → Committed params u db (apply params u false fn db).1 (λ e. (fn e).1)
unfolding apply transact
apply-Committed params u fn db a h = elim (Option-cases (load_engine params db u)) [
  | inl absent ↦ absurd (ground arith)
  | inr (e, found) ↦ elim (Result-cases (fn e).0) [
    | inl (b, good) ↦ record { engine = e; loaded = found; committed = ground arith }
    | inr (x, bad) ↦ absurd (ground arith)
  ]
]

failure-none :
    {A : Type 0} (r : Result A × Database) → (failure r).0 ≡ none → (a : A) × (r.0 ≡ ok a)
unfolding failure
failure-none (ok a, db) h = (a, refl)
failure-none (err x, db) h = absurd (ground arith)

-- An audit record that is written after a call leaves the credentials as they are.
audited-credentials :
    {A B : Type 0} (f : A → Result B) (event : A → Database → Database) (r : Result A × Database)
    (b : B)
    → ((a : A) (db : Database) → (event a db).credentials ≡ db.credentials)
    → (audited f event r).0 ≡ ok b
    → ((a : A) × (r.0 ≡ ok a)) × ((audited f event r).1.credentials ≡ r.1.credentials)
audited-credentials f event (ok a, db) b quiet h = ((a, refl), quiet a db)
audited-credentials f event (err x, db) b quiet h = absurd (ground arith)

checkpoint_audit-credentials :
    (u : ℕ) (r : Result (List CredentialPublic) × Database) (b : List CredentialPublic)
    → (checkpoint_audit u r).0 ≡ ok b
    → ((a : List CredentialPublic) × (r.0 ≡ ok a))
      × ((checkpoint_audit u r).1.credentials ≡ r.1.credentials)
unfolding checkpoint_audit record_event
checkpoint_audit-credentials u (err x, db) b h = absurd (ground arith)
checkpoint_audit-credentials u (ok changed, db) b h = elim (Option-cases (last changed)) [
  | inl empty ↦ absurd (ground arith)
  | inr (c, found) ↦ ((changed, refl), rw (found, checkpoint_audit) refl)
]

module _ {params : RotationParams} {u : ℕ} {db : Database} where
  Committed-by :
      {db1 db2 : Database} {f g : RotationEngine → RotationEngine}
      → Committed params u db db1 f
      → db2.credentials ≡ db1.credentials
      → ((e : RotationEngine) → f e ≡ g e)
      → Committed params u db db2 g
  unfolding commit_engine
  Committed-by {f = f} {g = g} done same agree = record {
    engine = done.engine;
    loaded = done.loaded;
    committed = rw (same, sym (agree done.engine)) done.committed;
  }

-- The engine after the function that `submit_successor` applies.
submit_fn-engine :
    (prim : Primitives) (c : CredentialPublic) (sig meta : Bytes) (now : ℕ) (e : RotationEngine)
    → (submit_fn prim c sig meta now e).1 ≡ (Rotation.submit_successor prim c sig meta now e).1
unfolding submit_fn
submit_fn-engine prim c sig meta now e =
    elim (Result-cases (Rotation.submit_successor prim c sig meta now e).0) [
      | inl (a, good) ↦ ground arith
      | inr (x, bad) ↦ ground arith
    ]

pub perform-Committed :
    (prim : Primitives) (params : RotationParams) (u : ℕ) (t : Transition) (db : Database)
    → (perform prim params u t db).0 ≡ none
    → Committed params u db (perform prim params u t db).1 (run prim (command u t))
unfolding perform submit_successor rollback revoke checkpoint run record_event
perform-Committed prim params u (Transition.submitting v ed25519 x25519 sig meta now) db h =
    let fn = submit_fn prim (generated_credential u v ed25519 x25519) sig meta now in
    let r = submit_successor prim params u v ed25519 x25519 sig meta now db in
    let (b, good) = failure-none r h in
    let ((a, ran), quiet) =
      audited-credentials _ _ (apply params u false fn db) b (λ c d. refl) good in
    Committed-by (apply-Committed params u fn db a ran) (ground (arith, failure-database r, quiet))
      (submit_fn-engine prim _ sig meta now)
perform-Committed prim params u (Transition.promoting now) db h =
    let r = checkpoint params u now db in
    let (b, good) = failure-none r h in
    let ((a, ran), quiet) =
      checkpoint_audit-credentials u (apply params u false (Rotation.checkpoint now) db) b good in
    Committed-by (apply-Committed params u (Rotation.checkpoint now) db a ran)
      (ground (arith, failure-database r, quiet)) (λ e. refl)
perform-Committed prim params u (Transition.rolling_back now) db h =
    let r = rollback params u now db in
    let (b, good) = failure-none r h in
    let ((a, ran), quiet) =
      audited-credentials _ _ (apply params u false (Rotation.rollback now) db) b (λ c d. refl)
        good in
    Committed-by (apply-Committed params u (Rotation.rollback now) db a ran)
      (ground (arith, failure-database r, quiet)) (λ e. refl)
perform-Committed prim params u (Transition.revoking v now) db h =
    let r = revoke params u v now db in
    let (b, good) = failure-none r h in
    let ((a, ran), quiet) =
      audited-credentials _ _ (apply params u false (Rotation.revoke v now) db) b (λ c d. refl)
        good in
    Committed-by (apply-Committed params u (Rotation.revoke v now) db a ran)
      (ground (arith, failure-database r, quiet)) (λ e. refl)
