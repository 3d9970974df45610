-- ===== src/Server/Registry/Refinement.antt =====
-- server/sih_server/registry.py: the registry over its tables implements one rotation engine for each
-- identity.
use secupload.Base.{
  ℕ, ◌==◌, ◌≡◌, arith, if◌then◌else◌, none, some, Option-cases, Bool-cases, inl, inr, sym, subst,
}
use secupload.Base.Dict.{lookup}
use secupload.Crypto.{Primitives}
use secupload.Models.{RotationParams}
use secupload.Rotation
use secupload.Rotation.{RotationEngine, Outcome, Creds}
use secupload.Rotation.Commands.{run, run-IsValid, new, new-IsValid}
use secupload.Rotation.Valid.{IsValid}
use secupload.Rotation.Counts.{Keyed}
use secupload.Rotation.Uniqueness.{IsValid-same}
use secupload.Server.Database.{Database}
use secupload.Server.Registry.{load_engine, get_credential, commit_engine}
use secupload.Server.Registry.Rows.{UniqueRows, UniqueRows-save_all}
use secupload.Server.Registry.Persistence.{get-load_engine, Keyed-load_engine, get-load_engine-none}
use secupload.Server.Registry.Saving.{get-commit_engine, Owned-load_engine}
use secupload.Server.Registry.Owners.{run-Owned, versions_stay}
use secupload.Server.Registry.Transactions.{Transition, perform, failed_transition_writes_nothing}
use secupload.Server.Registry.Commits.{command, IsFor-command, perform-Committed}

-- Every identity's engine, as it is read from the tables, is well-formed, and no version has two rows.
pub record IsSound (params : RotationParams) (db : Database) : Type 0 where
  pub unique : UniqueRows db.credentials
  pub engines : (u : ℕ) (e : RotationEngine) → load_engine params db u ≡ some e → IsValid e

-- A registry over tables that are sound, and a transition of one identity that raises nothing.
module _ (prim : Primitives) (params : RotationParams) (db : Database) (u : ℕ) (t : Transition)
    (sound : IsSound params db) (done : (perform prim params u t db).0 ≡ none) where
  found_after :
      (e : RotationEngine)
      → load_engine params db u ≡ some e
      → (perform prim params u t db).1.credentials
        ≡ (commit_engine (run prim (command u t) e) db).credentials
      → (w v : ℕ)
      → get_credential (perform prim params u t db).1 w v
        ≡ (if w == u then lookup v (run prim (command u t) e).creds else get_credential db w v)
  unfolding get_credential
  found_after e loaded committed w v =
      let valid = sound.engines u e loaded in
      let e1 = run prim (command u t) e in
      let read = get-commit_engine e1 db u w v (run-IsValid prim (command u t) e valid).keyed (
        run-Owned prim u (command u t) e (IsFor-command u t)
          (Owned-load_engine params db u e loaded)) in
      let was = get-load_engine params db w v e sound.unique in
      elim (Option-cases (lookup v e1.creds)) [
        | inl gone ↦ ground (
          arith,
          committed,
          read,
          was,
          loaded,
          versions_stay prim (command u t) e v valid gone,
          get-load_engine params db u v e sound.unique loaded,
        )
        | inr (c, there) ↦ ground (arith, committed, read)
      ]

-- On tables that are sound, a submission, a checkpoint, a rollback or a revocation that raises nothing
-- has read the identity's engine, and from then on a query of the identity finds exactly what that
-- engine has after the call; a query of another identity finds what it found before.
pub transition_refines_engine :
    (prim : Primitives) (params : RotationParams) (db : Database) (u : ℕ) (t : Transition)
    → IsSound params db
    → (perform prim params u t db).0 ≡ none
    → (e : RotationEngine) × (load_engine params db u ≡ some e)
      × ((w v : ℕ)
          → get_credential (perform prim params u t db).1 w v
            ≡ (if w == u then lookup v (run prim (command u t) e).creds else get_credential db w v))
transition_refines_engine prim params db u t sound done =
    let c = perform-Committed prim params u t db done in
    (c.engine, c.loaded, found_after prim params db u t sound done c.engine c.loaded c.committed)

pub IsValid-empty :
    (params : RotationParams) (e : RotationEngine)
    → Keyed e.creds
    → ((v : ℕ) → lookup v e.creds ≡ none)
    → IsValid e
IsValid-empty params e keyed nothing =
    IsValid-same (new params) e keyed nothing (new-IsValid params)

-- Every engine that is read after a transition is well-formed.
engines_after :
    (prim : Primitives) (params : RotationParams) (db : Database) (u : ℕ) (t : Transition)
    → IsSound params db
    → (perform prim params u t db).0 ≡ none
    → UniqueRows (perform prim params u t db).1.credentials
    → (w : ℕ) (e1 : RotationEngine) → load_engine params (perform prim params u t db).1 w ≡ some e1
    → IsValid e1
engines_after prim params db u t sound done unique w e1 loaded1 =
    let (e, loaded, found) = transition_refines_engine prim params db u t sound done in
    let db1 = (perform prim params u t db).1 in
    let keyed = Keyed-load_engine params db1 w e1 loaded1 in
    let read : (v : ℕ) → lookup v e1.creds ≡ get_credential db1 w v =
      λ v. get-load_engine params db1 w v e1 unique loaded1 in
    elim (Bool-cases (w == u)) [
      | inl same ↦
          IsValid-same (run prim (command u t) e) e1 keyed
            (λ v. ground (arith, read v, found w v, same))
            (run-IsValid prim (command u t) e (sound.engines u e loaded))
      | inr other ↦ elim (Option-cases (load_engine params db w)) [
        | inr (e0, loaded0) ↦
            IsValid-same e0 e1 keyed
              (λ v. ground (
                arith,
                read v,
                found w v,
                other,
                get-load_engine params db w v e0 sound.unique loaded0,
              ))
              (sound.engines w e0 loaded0)
        | inl absent ↦ IsValid-empty params e1 keyed (λ v. ground (
          arith,
          read v,
          found w v,
          other,
          get-load_engine-none params db w v sound.unique absent,
        ))
      ]
    ]

-- A submission, a checkpoint, a rollback or a revocation, whatever it raises, keeps the tables sound:
-- no version of an identity has two rows, and every engine that can be read from them has at most one
-- ACTIVE, one FALLBACK and one VALIDATING credential.
pub perform-IsSound :
    (prim : Primitives) (params : RotationParams) (db : Database) (u : ℕ) (t : Transition)
    → IsSound params db
    → IsSound params (perform prim params u t db).1
unfolding commit_engine
perform-IsSound prim params db u t sound = elim (Option-cases (perform prim params u t db).0) [
  | inr (x, raised) ↦
      subst (IsSound params) (sym (failed_transition_writes_nothing prim params u t db x raised))
        sound
  | inl done ↦
      let c = perform-Committed prim params u t db done in
      let unique = subst UniqueRows (sym c.committed) (
        UniqueRows-save_all (Rotation.all (run prim (command u t) c.engine)) db.credentials
          sound.unique) in
      record { unique = unique; engines = engines_after prim params db u t sound done unique }
]
