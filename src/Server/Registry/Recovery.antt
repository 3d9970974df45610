-- ===== src/Server/Registry/Recovery.antt =====
-- server/sih_server/registry.py: an enrollment and a recovery, from the token on, and with them every
-- write of the registry, keep the tables sound.
use secupload.Base.{
  ℕ, Bytes, Option, ◌==◌, ◌≡◌, arith, refl, if◌then◌else◌, Bool, some, List, [], ◌∷◌, Option-cases,
  Bool-cases, inl, inr, ==-refl,
}
use secupload.Base.Dict.{lookup, lookup-insert}
use secupload.Base.Result.{Result, ok, Result-cases, >>=-eq-ok, ◌>>=◌, ◌>>◌}
use secupload.Codec.Utf8.{Str}
use secupload.Crypto.{Primitives}
use secupload.Successor.{bytes_eq}
use secupload.Models.{
  CredentialPublic, CredentialStatus, IdentityKind, RotationParams, is_authenticating, or_default,
}
use secupload.Rotation
use secupload.Rotation.{RotationEngine, Outcome, Creds, with_status}
use secupload.Rotation.Commands.{Command, run, run-IsValid}
use secupload.Rotation.Valid.{Keyed-version}
use secupload.Server.Database.{Database, CredentialRow, Purpose, TokenRow, find, elem}
use secupload.Server.Registry.{
  generated_credential, load_engine, get_credential, save_public, row_of, row_to_public, expire_all,
}
use secupload.Server.Registry.Enrollment.{
  revoke_one, revoke_usable, recovered_rows, redeem, spend, hash_token, check_token, identities,
  enroll,
}
use secupload.Server.Registry.Rows.{UniqueRows-save_public, find-save_public}
use secupload.Server.Registry.Saving.{Owned-lookup}
use secupload.Server.Registry.Transactions.{Transition, perform}
use secupload.Server.Registry.Owners.{run-Owned}
use secupload.Server.Registry.Refinement.{IsSound, perform-IsSound}
use secupload.Server.Registry.Soundness.{
  Reads, Reads-load_engine, IsSound-found, IsSound-credentials, provision-IsSound,
  expire_identities-IsSound,
}

-- The loop of a recovery that revokes what still authenticates.
abbrev with_credentials : Database → List CredentialRow → Database
with_credentials db rows = record db { credentials = rows }

record Tracks (params : RotationParams) (db : Database) (u : ℕ) (e : RotationEngine)
    (rows : List CredentialRow) : Type 0 where
  sound : IsSound params (with_credentials db rows)
  reads : Reads params (with_credentials db rows) u e

-- A revocation whose row is saved.
revoked-Tracks :
    (prim : Primitives) (params : RotationParams) (db : Database) (u v now : ℕ) (e : RotationEngine)
    (rows : List CredentialRow) (old c : CredentialPublic)
    → Tracks params db u e rows
    → lookup v e.creds ≡ some old
    → lookup v (Rotation.revoke v now e).1.creds ≡ some c
    → Tracks params db u (Rotation.revoke v now e).1 (save_public c rows)
unfolding run Rotation.revoke get_credential row_to_public row_of
revoked-Tracks prim params db u v now e rows old c tracks was there =
    let x = Command.revoke v now in
    let e1 = run prim x e in
    let valid = run-IsValid prim x e tracks.reads.valid in
    let owned = run-Owned prim u x e tt tracks.reads.owned in
    let mine = Owned-lookup u v c e1.creds owned there in
    let version = Keyed-version v c e1.creds valid.keyed there in
    let found : (w k : ℕ)
        → get_credential (with_credentials db (save_public c rows)) w k
          ≡ (if w == u then lookup k e1.creds else get_credential (with_credentials db rows) w k) =
      λ w k. ground (
        arith,
        find-save_public w k c rows,
        mine,
        version,
        there,
        was,
        tracks.reads.agrees k,
        lookup-insert k v (with_status old CredentialStatus.revoked) e.creds,
      ) in
    let unique = UniqueRows-save_public c rows tracks.sound.unique in
    record {
      sound =
          IsSound-found params (with_credentials db rows) (with_credentials db (save_public c rows))
            u e1 tracks.sound unique valid found;
      reads = record {
        valid = valid;
        owned = owned;
        agrees = λ k. ground (arith, found u k, ==-refl u);
      };
    }

revoked_was_there :
    (v now : ℕ) (e : RotationEngine) (a : CredentialPublic)
    → (Rotation.revoke v now e).0 ≡ ok a
    → (old : CredentialPublic) × (lookup v e.creds ≡ some old)
unfolding Rotation.revoke
revoked_was_there v now e a h = elim (Option-cases (lookup v e.creds)) [
  | inl absent ↦ absurd (ground arith)
  | inr (old, was) ↦ (old, was)
]

revoke_one-Tracks :
    (prim : Primitives) (params : RotationParams) (db : Database) (u now : ℕ)
    (cred : CredentialPublic) (e e1 : RotationEngine) (rows rows1 : List CredentialRow)
    → Tracks params db u e rows
    → revoke_one now cred (e, rows) ≡ ok (e1, rows1)
    → Tracks params db u e1 rows1
unfolding revoke_one Rotation.get
revoke_one-Tracks prim params db u now cred e e1 rows rows1 tracks done =
    elim (Bool-cases (is_authenticating cred.status)) [
      | inr idle ↦
          let same_engine : e1 ≡ e = ground arith in
          let same_rows : rows1 ≡ rows = ground arith in rw (same_engine, same_rows) tracks
      | inl live ↦ elim (Result-cases (Rotation.revoke cred.version now e).0) [
        | inr (y, bad) ↦ absurd (ground arith)
        | inl (a, good) ↦
            elim (Option-cases (lookup cred.version (Rotation.revoke cred.version now e).1.creds)) [
              | inl absent ↦ absurd (ground arith)
              | inr (c, there) ↦
                  let (old, was) = revoked_was_there cred.version now e a good in
                  let same_engine : e1 ≡ (Rotation.revoke cred.version now e).1 = ground arith in
                  let same_rows : rows1 ≡ save_public c rows = ground arith in
                  rw (same_engine, same_rows)
                    (revoked-Tracks prim params db u cred.version now e rows old c tracks was there)
            ]
      ]
    ]

revoke_usable-IsSound :
    (prim : Primitives) (params : RotationParams) (db : Database) (u now : ℕ)
    (cs : List CredentialPublic) (e : RotationEngine) (rows rows1 : List CredentialRow)
    → Tracks params db u e rows
    → revoke_usable now cs (e, rows) ≡ ok rows1
    → IsSound params (with_credentials db rows1)
unfolding revoke_usable
revoke_usable-IsSound prim params db u now [] e rows rows1 tracks done =
    let same : rows1 ≡ rows = ground arith in rw same tracks.sound
revoke_usable-IsSound prim params db u now (c ∷ cs) e rows rows1 tracks done =
    let ((e2, rows2), first, rest) = >>=-eq-ok (revoke_one now c (e, rows)) _ done in
    revoke_usable-IsSound prim params db u now cs e2 rows2 rows1
      (revoke_one-Tracks prim params db u now c e e2 rows rows2 tracks first) rest

recovered_rows-IsSound :
    (prim : Primitives) (params : RotationParams) (purpose : Purpose) (u now : ℕ) (db : Database)
    (rows : List CredentialRow)
    → IsSound params db
    → recovered_rows params purpose u now db ≡ ok rows
    → IsSound params (with_credentials db rows)
unfolding recovered_rows
recovered_rows-IsSound prim params Purpose.enroll u now db rows sound done =
    elim (Option-cases (load_engine params db u)) [
      | inr (e, loaded) ↦ absurd (ground arith)
      | inl absent ↦
          let same : rows ≡ db.credentials = ground arith in
          rw same (IsSound-credentials params db _ refl sound)
    ]
recovered_rows-IsSound prim params Purpose.recover u now db rows sound done =
    elim (Option-cases (load_engine params db u)) [
      | inl absent ↦ absurd (ground arith)
      | inr (e, loaded) ↦
          revoke_usable-IsSound prim params db u now (Rotation.all e) e db.credentials rows
            (record { sound = sound; reads = Reads-load_engine params db u e sound loaded })
            (ground arith)
    ]

spend-credentials :
    (hash : Bytes) (kind : IdentityKind) (known : Bool) (u now : ℕ) (db : Database)
    (rows : List CredentialRow)
    → (spend hash kind known u now db rows).credentials ≡ rows
unfolding spend
spend-credentials hash IdentityKind.client known u now db rows = ground arith
spend-credentials hash IdentityKind.proxy known u now db rows = ground arith
spend-credentials hash IdentityKind.server known u now db rows = ground arith

redeem-IsSound :
    (prim : Primitives) (params : RotationParams) (hash : Bytes) (kind : IdentityKind) (u now : ℕ)
    (db db1 : Database) (row : TokenRow)
    → IsSound params db
    → redeem params hash kind u now db ≡ ok (row, db1)
    → IsSound params db1
unfolding redeem
redeem-IsSound prim params hash kind u now db db1 row sound done =
    elim (Option-cases (find (λ t. bytes_eq hash t.token_hash) db.enrollment_tokens)) [
      | inl absent ↦ absurd (ground arith)
      | inr (token, there) ↦
          let known = elem u (identities kind db) in
          let spent : List CredentialRow → Result (TokenRow × Database) =
            λ rows. ok (token, spend hash kind known u now db rows) in
          let whole : (check_token token known u now
                >> recovered_rows params token.purpose u now db
                >>= spent)
              ≡ ok (row, db1) =
            ground arith in
          let (rows, k1, k2) =
            >>=-eq-ok
              (check_token token known u now >> recovered_rows params token.purpose u now db) _
              whole in
          let (_, tested, recovered) = >>=-eq-ok (check_token token known u now) _ k1 in
          let same : db1 ≡ spend hash kind known u now db rows = ground arith in
          rw same (
            IsSound-credentials params (with_credentials db rows) _
              (spend-credentials hash kind known u now db rows)
              (recovered_rows-IsSound prim params token.purpose u now db rows sound recovered))
    ]

enroll-IsSound :
    (prim : Primitives) (sha256 : Bytes → Bytes) (params : RotationParams) (u : ℕ)
    (kind : IdentityKind) (token : Str) (version : ℕ) (ed25519 x25519 : Bytes) (at : Option ℕ)
    (db : Database)
    → IsSound params db
    → IsSound params (enroll sha256 params u kind token version ed25519 x25519 at db).1
unfolding enroll
enroll-IsSound prim sha256 params u kind token version ed25519 x25519 at db sound =
    let now = or_default at db.wall_clock in
    elim (Result-cases (hash_token sha256 token >>= λ h. redeem params h kind u now db)) [
      | inr (y, bad) ↦ rw (enroll, bad) sound
      | inl ((row, db1), good) ↦
          let (h, hashed, redeemed) = >>=-eq-ok (hash_token sha256 token) _ good in
          rw (enroll, good)
            (provision-IsSound prim params row.purpose
              (generated_credential u version ed25519 x25519) now db1
              (redeem-IsSound prim params h kind u now db db1 row sound redeemed))
    ]

-- Whatever is asked of the registry and whatever it raises, the tables stay sound: no version of an
-- identity has two rows, and every engine that can be read from them has at most one ACTIVE, one
-- FALLBACK and one VALIDATING credential. So after a submission, a checkpoint, a rollback or a
-- revocation, after an enrollment or a recovery with its revocations, and after the expiry of every
-- identity.
pub registry-IsSound :
    (prim : Primitives) (sha256 : Bytes → Bytes) (set_order : List ℕ → List ℕ)
    (params : RotationParams) (db : Database) (u w : ℕ) (t : Transition) (kind : IdentityKind)
    (token : Str) (version : ℕ) (ed25519 x25519 : Bytes) (at : Option ℕ) (now : ℕ)
    → IsSound params db
    → IsSound params (perform prim params u t db).1
      × IsSound params (enroll sha256 params w kind token version ed25519 x25519 at db).1
      × IsSound params (expire_all set_order params now db).1
unfolding expire_all
registry-IsSound prim sha256 set_order params db u w t kind token version ed25519 x25519 at now
      sound =
    (
      perform-IsSound prim params db u t sound,
      enroll-IsSound prim sha256 params w kind token version ed25519 x25519 at db sound,
      expire_identities-IsSound prim params now _ db sound,
    )
