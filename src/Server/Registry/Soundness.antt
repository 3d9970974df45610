-- ===== src/Server/Registry/Soundness.antt =====
-- server/sih_server/registry.py: `_apply` keeps the tables sound for any call of the engine, also the one
-- that provisions an identity which has no rows yet, and so do the rest of an enrollment and `expire_all`.
use secupload.Base.{
  ℕ, ◌==◌, ◌≡◌, arith, refl, if◌then◌else◌, Bool, true, none, some, List, [], ◌∷◌, Option-cases,
  Bool-cases, inl, inr, sym, subst, ap, ◌∙◌, false, not, ◌&&◌,
}
use secupload.Base.Dict.{lookup}
use secupload.Base.Result.{Result, ok, err, Result-cases}
use secupload.Crypto.{Primitives}
use secupload.Models.{CredentialPublic, RotationParams}
use secupload.Rotation
use secupload.Rotation.{RotationEngine, Outcome, Creds, with_status}
use secupload.Rotation.Commands.{Command, run, run-IsValid, new, new-IsValid}
use secupload.Rotation.Valid.{IsValid}
use secupload.Rotation.Uniqueness.{IsValid-same}
use secupload.Server.Database.{Database, Purpose, record_event}
use secupload.Server.Registry.{
  load_engine, get_credential, commit_engine, apply, transact, expire_fn, record_expired, audited,
  expire_identity, expire_identities,
}
use secupload.Server.Registry.Enrollment.{provision, is_recover}
use secupload.Server.Registry.Rows.{UniqueRows, UniqueRows-save_all}
use secupload.Server.Registry.Persistence.{get-load_engine, Keyed-load_engine, get-load_engine-none}
use secupload.Server.Registry.Saving.{Owned, get-commit_engine, Owned-load_engine}
use secupload.Server.Registry.Owners.{IsFor, run-Owned, versions_stay}
use secupload.Server.Registry.Refinement.{IsSound, IsValid-empty}

-- An engine of an identity that has just what the tables have for it.
pub record Reads (params : RotationParams) (db : Database) (u : ℕ) (e : RotationEngine)
    : Type 0 where
  pub valid : IsValid e
  pub owned : Owned u e.creds
  pub agrees : (v : ℕ) → lookup v e.creds ≡ get_credential db u v

pub Reads-load_engine :
    (params : RotationParams) (db : Database) (u : ℕ) (e : RotationEngine)
    → IsSound params db
    → load_engine params db u ≡ some e
    → Reads params db u e
Reads-load_engine params db u e sound loaded = record {
  valid = sound.engines u e loaded;
  owned = Owned-load_engine params db u e loaded;
  agrees = λ v. get-load_engine params db u v e sound.unique loaded;
}

Reads-new :
    (params : RotationParams) (db : Database) (u : ℕ)
    → IsSound params db
    → load_engine params db u ≡ none
    → Reads params db u (new params)
Reads-new params db u sound absent = record {
  valid = new-IsValid params;
  owned = tt;
  agrees = λ v. sym (get-load_engine-none params db u v sound.unique absent);
}

-- Tables in which one identity has what a well-formed engine has, and the others what they had.
module _ (params : RotationParams) (db db1 : Database) (u : ℕ) (e : RotationEngine)
    (sound : IsSound params db) (unique : UniqueRows db1.credentials) (valid : IsValid e)
    (found : (w v : ℕ)
      → get_credential db1 w v ≡ (if w == u then lookup v e.creds else get_credential db w v)) where
  engines_found : (w : ℕ) (e1 : RotationEngine) → load_engine params db1 w ≡ some e1 → IsValid e1
  engines_found w e1 loaded1 =
      let keyed = Keyed-load_engine params db1 w e1 loaded1 in
      let read : (v : ℕ) → lookup v e1.creds ≡ get_credential db1 w v =
        λ v. get-load_engine params db1 w v e1 unique loaded1 in
      elim (Bool-cases (w == u)) [
        | inl same ↦ IsValid-same e e1 keyed (λ v. ground (arith, read v, found w v, same)) valid
        | inr other ↦ elim (Option-cases (load_engine params db w)) [
          | inr (e0, loaded0) ↦
              IsValid-same e0 e1 keyed
                (λ v. ground (
                  arith,
                  read v,
                  found w v,
                  other,
                  get-load_engine params db w v e0 sound.unique loaded0,
                ))
                (sound.engines w e0 loaded0)
          | inl absent ↦ IsValid-empty params e1 keyed (λ v. ground (
            arith,
            read v,
            found w v,
            other,
            get-load_engine-none params db w v sound.unique absent,
          ))
        ]
      ]

  pub IsSound-found : IsSound params db1
  IsSound-found = record { unique = unique; engines = engines_found }

-- The engine of an identity, a call of it, and the tables after its commit.
module _ (prim : Primitives) (params : RotationParams) (db : Database) (u : ℕ) (x : Command)
    (e : RotationEngine) (sound : IsSound params db) (reads : Reads params db u e)
    (for : IsFor u x) where
  found_committed :
      (w v : ℕ)
      → get_credential (commit_engine (run prim x e) db) w v
        ≡ (if w == u then lookup v (run prim x e).creds else get_credential db w v)
  found_committed w v =
      let e1 = run prim x e in
      let read =
        get-commit_engine e1 db u w v (run-IsValid prim x e reads.valid).keyed
          (run-Owned prim u x e for reads.owned) in
      elim (Option-cases (lookup v e1.creds)) [
        | inl gone ↦ ground (arith, read, versions_stay prim x e v reads.valid gone, reads.agrees v)
        | inr (c, there) ↦ ground (arith, read)
      ]

  unique_committed : UniqueRows (commit_engine (run prim x e) db).credentials
  unfolding commit_engine
  unique_committed = UniqueRows-save_all (Rotation.all (run prim x e)) db.credentials sound.unique

  IsSound-committed : IsSound params (commit_engine (run prim x e) db)
  IsSound-committed =
      IsSound-found params db (commit_engine (run prim x e) db) u (run prim x e) sound
        unique_committed (run-IsValid prim x e reads.valid) found_committed

-- A function that a transaction applies, as a call of the engine.
abbrev Calls : {A : Type 0} → Primitives → Command → (RotationEngine → Outcome A) → Type 0
Calls prim x fn = (e : RotationEngine) → (fn e).1 ≡ run prim x e

transact-IsSound :
    {A : Type 0} (prim : Primitives) (params : RotationParams) (db : Database) (u : ℕ) (x : Command)
    (e : RotationEngine) (fn : RotationEngine → Outcome A)
    → IsSound params db
    → Reads params db u e
    → IsFor u x
    → Calls prim x fn
    → IsSound params (transact fn e db).1
unfolding transact
transact-IsSound prim params db u x e fn sound reads for calls = elim (Result-cases (fn e).0) [
  | inl (a, good) ↦
      rw (transact, good, calls e) (IsSound-committed prim params db u x e sound reads for)
  | inr (y, bad) ↦ rw (transact, bad) sound
]

apply-IsSound :
    {A : Type 0} (prim : Primitives) (params : RotationParams) (db : Database) (u : ℕ) (x : Command)
    (unknown : Bool) (fn : RotationEngine → Outcome A)
    → IsSound params db
    → IsFor u x
    → Calls prim x fn
    → IsSound params (apply params u unknown fn db).1
unfolding apply
apply-IsSound prim params db u x unknown fn sound for calls =
    elim (Option-cases (load_engine params db u)) [
      | inr (e, loaded) ↦
          rw (apply, loaded)
            (transact-IsSound prim params db u x e fn sound
              (Reads-load_engine params db u e sound loaded) for calls)
      | inl absent ↦ elim (Bool-cases unknown) [
        | inl allowed ↦
            rw (apply, absent, allowed)
              (transact-IsSound prim params db u x (new params) fn sound
                (Reads-new params db u sound absent) for calls)
        | inr refused ↦ rw (apply, absent, refused) sound
      ]
    ]

-- The tables are sound by their credentials alone.
pub IsSound-credentials :
    (params : RotationParams) (db db1 : Database)
    → db1.credentials ≡ db.credentials
    → IsSound params db
    → IsSound params db1
unfolding load_engine
IsSound-credentials params db db1 same sound = record {
  unique = subst UniqueRows (sym same) sound.unique;
  engines = λ u e loaded.
      sound.engines u e
        (ap (λ rows. load_engine params (record db { credentials = rows }) u) (sym same) ∙ loaded);
}

-- The rest of an enrollment or a recovery, after the token is spent.
pub provision-IsSound :
    (prim : Primitives) (params : RotationParams) (purpose : Purpose) (cred : CredentialPublic)
    (now : ℕ) (db : Database)
    → IsSound params db
    → IsSound params (provision params purpose cred now db).1
unfolding provision run record_event
provision-IsSound prim params purpose cred now db sound =
    let r = apply params cred.identity_uuid true (Rotation.provision_initial cred now) db in
    let kept =
      apply-IsSound prim params db cred.identity_uuid (Command.provision cred now) true
        (Rotation.provision_initial cred now) sound refl (λ e. refl) in
    elim (Bool-cases (not (is_recover purpose) && not (cred.version == 1))) [
      | inl refused ↦ rw (provision, refused) sound
      | inr allowed ↦ elim (Result-cases r.0) [
        | inr (y, bad) ↦ rw (provision, allowed, bad) kept
        | inl (a, good) ↦ rw (provision, allowed, good) (IsSound-credentials params r.1 _ refl kept)
      ]
    ]

record_expired-credentials :
    (u : ℕ) (cs : List CredentialPublic) (db : Database)
    → (record_expired u cs db).credentials ≡ db.credentials
unfolding record_event
record_expired-credentials u [] db = refl
record_expired-credentials u (c ∷ cs) db = record_expired-credentials u cs _

audited-IsSound :
    {A B : Type 0} (params : RotationParams) (f : A → Result B) (event : A → Database → Database)
    (r : Result A × Database)
    → ((a : A) (db : Database) → (event a db).credentials ≡ db.credentials)
    → IsSound params r.1
    → IsSound params (audited f event r).1
audited-IsSound params f event (err x, db) quiet sound = sound
audited-IsSound params f event (ok a, db) quiet sound =
    IsSound-credentials params db (event a db) (quiet a db) sound

expire_identity-IsSound :
    (prim : Primitives) (params : RotationParams) (now u : ℕ) (db : Database)
    → IsSound params db
    → IsSound params (expire_identity params now u db).1
unfolding expire_identity run
expire_identity-IsSound prim params now u db sound =
    let kept =
      apply-IsSound prim params db u (Command.expire now) false (expire_fn now) sound tt
        (λ e. refl) in
    audited-IsSound params ok (record_expired u) (apply params u false (expire_fn now) db)
      (λ changed d. record_expired-credentials u changed d) kept

pub expire_identities-IsSound :
    (prim : Primitives) (params : RotationParams) (now : ℕ) (us : List ℕ) (db : Database)
    → IsSound params db
    → IsSound params (expire_identities params now us db).1
unfolding expire_identities
expire_identities-IsSound prim params now [] db sound = sound
expire_identities-IsSound prim params now (u ∷ us) db sound =
    let r = expire_identity params now u db in
    let kept = expire_identity-IsSound prim params now u db sound in
    elim (Result-cases r.0) [
      | inr (y, bad) ↦ rw (expire_identities, bad) kept
      | inl (changed, good) ↦
          let rest = expire_identities-IsSound prim params now us r.1 kept in
          elim (Result-cases (expire_identities params now us r.1).0) [
            | inl (a, went) ↦ rw (expire_identities, good, went) rest
            | inr (y, stopped) ↦ rw (expire_identities, good, stopped) rest
          ]
    ]
