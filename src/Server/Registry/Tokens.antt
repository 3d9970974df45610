-- ===== src/Server/Registry/Tokens.antt =====
-- A token enrolls once.
use secupload.Base.{
  ℕ, ◌≡◌, refl, arith, Bool, true, Option, some, List, [], ◌∷◌, Bytes, Option-cases, inl, inr,
}
use secupload.Base.Result.{ok, err, Error, Code, Result-cases}
use secupload.Codec.Utf8.{Str}
use secupload.Models.{CredentialPublic, IdentityKind, RotationParams, or_default}
use secupload.Rotation
use secupload.Rotation.{RotationEngine, Outcome, is_some}
use secupload.Rotation.Commands.{new}
use secupload.Server.Database.{Database, TokenRow, Purpose, find, elem, record_event}
use secupload.Server.Registry.{apply, transact, commit_engine, load_engine, generated_credential}
use secupload.Server.Registry.Enrollment.{
  check_token, use_token, spend, redeem, provision, enroll, hash_token, identities, recovered_rows,
}
use secupload.Successor.{bytes_eq}

-- The row that a hash finds.
abbrev token : Bytes → Database → Option TokenRow
token h db = find (λ t. bytes_eq h t.token_hash) db.enrollment_tokens

find-use_token :
    (h : Bytes) (now : ℕ) (row : TokenRow) (ts : List TokenRow)
    → find (λ t. bytes_eq h t.token_hash) ts ≡ some row
    → find (λ t. bytes_eq h t.token_hash) (use_token h now ts)
      ≡ some (record row { used_at = some now })
unfolding find use_token
find-use_token h now row [] e = absurd (ground arith)
find-use_token h now row (t ∷ ts) e = ground (arith, find-use_token h now row ts)

transact-tokens :
    {A : Type 0} (fn : RotationEngine → Outcome A) (e : RotationEngine) (db : Database)
    → (transact fn e db).1.enrollment_tokens ≡ db.enrollment_tokens
unfolding transact commit_engine
transact-tokens fn e db = elim (Result-cases (fn e).0) [
  | inl (a, good) ↦ ground arith
  | inr (y, bad) ↦ ground arith
]

apply-tokens :
    {A : Type 0} (params : RotationParams) (u : ℕ) (unknown : Bool)
    (fn : RotationEngine → Outcome A) (db : Database)
    → (apply params u unknown fn db).1.enrollment_tokens ≡ db.enrollment_tokens
unfolding apply
apply-tokens params u unknown fn db = elim (Option-cases (load_engine params db u)) [
  | inl absent ↦ ground (arith, transact-tokens fn (new params) db)
  | inr (e, found) ↦ ground (arith, transact-tokens fn e db)
]

provision-tokens :
    (params : RotationParams) (purpose : Purpose) (cred : CredentialPublic) (now : ℕ)
    (db : Database)
    → (provision params purpose cred now db).1.enrollment_tokens ≡ db.enrollment_tokens
unfolding provision record_event
provision-tokens params purpose cred now db =
    let fn = Rotation.provision_initial cred now in
    let kept = apply-tokens params cred.identity_uuid true fn db in
    elim (Result-cases (apply params cred.identity_uuid true fn db).0) [
      | inl (a, good) ↦ ground (arith, kept)
      | inr (y, bad) ↦ ground (arith, kept)
    ]

spend-tokens :
    (h : Bytes) (kind : IdentityKind) (known : Bool) (u now : ℕ) (db : Database) (row : TokenRow)
    (rows : List _)
    → token h db ≡ some row
    → token h (spend h kind known u now db rows) ≡ some (record row { used_at = some now })
unfolding spend
spend-tokens h kind known u now db row rows found =
    let used = find-use_token h now row db.enrollment_tokens found in ground (arith, used)

redeem-spends :
    (params : RotationParams) (h : Bytes) (kind : IdentityKind) (u now : ℕ) (db db1 : Database)
    (row : TokenRow)
    → redeem params h kind u now db ≡ ok (row, db1)
    → token h db1 ≡ some (record row { used_at = some now })
unfolding redeem
redeem-spends params h kind u now db db1 row good = elim (Option-cases (token h db)) [
  | inl absent ↦ absurd (ground arith)
  | inr (w, found) ↦
      let known = elem u (identities kind db) in
      elim (Result-cases (check_token w known u now)) [
        | inr (x, bad) ↦ absurd (ground arith)
        | inl (_, passed) ↦ elim (Result-cases (recovered_rows params w.purpose u now db)) [
          | inr (x, bad) ↦ absurd (ground arith)
          | inl (rows, recovered) ↦ ground (arith, spend-tokens h kind known u now db w rows found)
        ]
      ]
]

redeem-used :
    (params : RotationParams) (h : Bytes) (kind : IdentityKind) (u now : ℕ) (db : Database)
    (row : TokenRow)
    → token h db ≡ some row
    → is_some row.used_at ≡ true
    → redeem params h kind u now db ≡ err (Error.registry_error Code.token_used)
unfolding redeem check_token
redeem-used params h kind u now db row found used = ground arith

module _ (sha256 : Bytes → Bytes) where
  enroll-spends :
      (params : RotationParams) (u : ℕ) (kind : IdentityKind) (tok : Str) (v : ℕ) (ed x : Bytes)
      (at : Option ℕ) (db : Database) (r : Option CredentialPublic)
      → (enroll sha256 params u kind tok v ed x at db).0 ≡ ok r
      → (h : Bytes) × (hash_token sha256 tok ≡ ok h)
        × (row : TokenRow) × (token h (enroll sha256 params u kind tok v ed x at db).1 ≡ some row)
        × (is_some row.used_at ≡ true)
  unfolding enroll
  enroll-spends params u kind tok v ed x at db r good =
      let now = or_default at db.wall_clock in
      elim (Result-cases (hash_token sha256 tok)) [
        | inr (y, bad) ↦ absurd (ground arith)
        | inl (h, hashed) ↦ elim (Result-cases (redeem params h kind u now db)) [
          | inr (y, bad) ↦ absurd (ground arith)
          | inl ((row, db1), redeemed) ↦
              let spent = redeem-spends params h kind u now db db1 row redeemed in
              let kept =
                provision-tokens params row.purpose (generated_credential u v ed x) now db1 in
              (h, hashed, record row { used_at = some now }, ground (arith, spent, kept), refl)
        ]
      ]

  enroll-used :
      (params : RotationParams) (u : ℕ) (kind : IdentityKind) (tok : Str) (v : ℕ) (ed x h : Bytes)
      (at : Option ℕ) (db : Database) (row : TokenRow)
      → hash_token sha256 tok ≡ ok h
      → token h db ≡ some row
      → is_some row.used_at ≡ true
      → (enroll sha256 params u kind tok v ed x at db).0
        ≡ err (Error.registry_error Code.token_used)
  unfolding enroll
  enroll-used params u kind tok v ed x h at db row hashed found used =
      let refused = redeem-used params h kind u (or_default at db.wall_clock) db row found used in
      ground (arith, refused)

  -- After a successful enrollment or recovery, no further call with the same token succeeds, for
  -- whatever identity, kind, version, keys and time: it is refused as TOKEN_USED.
  pub token_enrolls_once :
      (params : RotationParams) (u u2 : ℕ) (kind kind2 : IdentityKind) (tok : Str) (v v2 : ℕ)
      (ed x ed2 x2 : Bytes) (at at2 : Option ℕ) (db : Database) (r : Option CredentialPublic)
      → (enroll sha256 params u kind tok v ed x at db).0 ≡ ok r
      → (enroll sha256 params u2 kind2 tok v2 ed2 x2 at2
          (enroll sha256 params u kind tok v ed x at db).1).0
        ≡ err (Error.registry_error Code.token_used)
  token_enrolls_once params u u2 kind kind2 tok v v2 ed x ed2 x2 at at2 db r good =
      let (h, hashed, row, found, used) = enroll-spends params u kind tok v ed x at db r good in
      enroll-used params u2 kind2 tok v2 ed2 x2 h at2
        (enroll sha256 params u kind tok v ed x at db).1 row hashed found used
