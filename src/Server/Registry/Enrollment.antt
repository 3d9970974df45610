-- ===== src/Server/Registry/Enrollment.antt =====
-- server/sih_server/registry.py: enrollment tokens, enrollment and recovery. SHA-256 is a parameter.
use secupload.Base.{
  ℕ, ◌==◌, ◌+◌, ◌&&◌, ltb, if◌then◌else◌, Bool, true, false, List, [], ◌∷◌, ◌++◌, Bytes, Option,
  none, some, not,
}
use secupload.Base.Result.{Result, ok, err, Error, Code, ◌>>=◌, ◌>>◌}
use secupload.Codec.Utf8
use secupload.Codec.Utf8.{Str}
use secupload.Models.{CredentialPublic, IdentityKind, RotationParams, is_authenticating, or_default}
use secupload.Rotation
use secupload.Rotation.{RotationEngine, Outcome, is_some}
use secupload.Server.Database.{
  Database, CredentialRow, TokenRow, Purpose, EventType, AuditResult, find, elem, record_event,
}
use secupload.Server.Registry.{
  load_engine, save_public, apply, get_credential, generated_credential,
}
use secupload.Successor.{bytes_eq}

abbrev pub raise : {A : Type 0} → Code → Result A
raise c = err (Error.registry_error c)

-- `purpose == "RECOVER"`, and else "ENROLL"
abbrev pub is_recover : Purpose → Bool
is_recover Purpose.enroll = false
is_recover Purpose.recover = true

abbrev is_bound : Option ℕ → ℕ → Bool
is_bound none u = false
is_bound (some w) u = u == w

-- The tests that a token and an identity pass before the engine is read.
unfoldable pub check_token : TokenRow → Bool → ℕ → ℕ → Result (Unit {0})
check_token row known u now =
    if is_some row.used_at
    then raise Code.token_used
    else if ltb row.expires_at now
    then raise Code.token_expired
    else if is_recover row.purpose && not (is_bound row.identity_uuid u)
    then raise Code.token_mismatch
    else if is_recover row.purpose && not known
    then raise Code.unknown_identity
    else if not (is_recover row.purpose) && known
    then raise Code.already_enrolled
    else ok tt

-- One turn of the loop that revokes what still authenticates.
unfoldable pub revoke_one :
    ℕ
    → CredentialPublic
    → RotationEngine × List CredentialRow
    → Result (RotationEngine × List CredentialRow)
revoke_one now cred (e, rows) =
    if not (is_authenticating cred.status)
    then ok (e, rows)
    else let (r, e1) = Rotation.revoke cred.version now e in
      elim r [
        | err x ↦ err x
        | ok _ ↦ elim (Rotation.get e1 cred.version) [
          | none ↦ raise Code.internal
          | some revoked ↦ ok (e1, save_public revoked rows)
        ]
      ]

unfoldable pub revoke_usable :
    ℕ → List CredentialPublic → RotationEngine × List CredentialRow → Result (List CredentialRow)
unfolding revoke_one
revoke_usable now [] (e, rows) = ok rows
revoke_usable now (c ∷ cs) s = revoke_one now c s >>= revoke_usable now cs

-- The credentials' rows after the part of the transaction that depends on the purpose.
unfoldable pub recovered_rows :
    RotationParams → Purpose → ℕ → ℕ → Database → Result (List CredentialRow)
unfolding revoke_usable
recovered_rows params Purpose.recover u now db = elim (load_engine params db u) [
  | none ↦ raise Code.unknown_identity
  | some e ↦ revoke_usable now (Rotation.all e) (e, db.credentials)
]
recovered_rows params Purpose.enroll u now db = elim (load_engine params db u) [
  | none ↦ ok db.credentials
  | some e ↦ raise Code.already_enrolled
]

-- `row.used_at = now`, on the row with that hash
unfoldable pub use_token : Bytes → ℕ → List TokenRow → List TokenRow
use_token hash now [] = []
use_token hash now (t ∷ ts) =
    if bytes_eq hash t.token_hash
    then record t { used_at = some now } ∷ ts
    else t ∷ use_token hash now ts

abbrev pub identities : IdentityKind → Database → List ℕ
identities IdentityKind.client db = db.clients
identities IdentityKind.proxy db = db.proxies
identities IdentityKind.server db = db.proxies

abbrev add_identity : IdentityKind → ℕ → Database → Database
add_identity IdentityKind.client u db = record db { clients = db.clients ++ u ∷ [] }
add_identity IdentityKind.proxy u db = record db { proxies = db.proxies ++ u ∷ [] }
add_identity IdentityKind.server u db = record db { proxies = db.proxies ++ u ∷ [] }

-- What the first transaction of `enroll` commits.
unfoldable pub spend :
    Bytes → IdentityKind → Bool → ℕ → ℕ → Database → List CredentialRow → Database
unfolding use_token
spend hash kind known u now db rows =
    let db1 = record db {
      credentials = rows;
      enrollment_tokens = use_token hash now db.enrollment_tokens;
    } in
    if known then db1 else add_identity kind u db1

-- The first transaction: the token's row and the database that it commits.
unfoldable pub redeem :
    RotationParams → Bytes → IdentityKind → ℕ → ℕ → Database → Result (TokenRow × Database)
unfolding check_token recovered_rows spend
redeem params hash kind u now db =
    elim (find (λ t. bytes_eq hash t.token_hash) db.enrollment_tokens) [
      | none ↦ raise Code.bad_token
      | some row ↦
          let known = elem u (identities kind db) in
          check_token row known u now >> recovered_rows params row.purpose u now db >>= λ rows.
          ok (row, spend hash kind known u now db rows)
    ]

abbrev enrolled_event : Purpose → EventType
enrolled_event Purpose.enroll = EventType.enrollment
enrolled_event Purpose.recover = EventType.recovery

-- The rest of `enroll`, with the token spent.
unfoldable pub provision :
    RotationParams
    → Purpose
    → CredentialPublic
    → ℕ
    → Database
    → Result (Option CredentialPublic) × Database
provision params purpose cred now db =
    if not (is_recover purpose) && not (cred.version == 1)
    then (raise Code.version_order, db)
    else let (r, db1) =
        apply params cred.identity_uuid true (Rotation.provision_initial cred now) db in
      elim r [
        | err x ↦ (err x, db1)
        | ok _ ↦ (
          ok (get_credential db1 cred.identity_uuid cred.version),
          record_event (enrolled_event purpose) cred.identity_uuid (some cred.version)
              AuditResult.granted db1,
        )
      ]

module _ (sha256 : Bytes → Bytes) where
  unfoldable pub hash_token : Str → Result Bytes
  hash_token token = Utf8.encode token >>= λ b. ok (sha256 b)

  unfoldable pub enroll :
      RotationParams
      → ℕ
      → IdentityKind
      → Str
      → ℕ
      → Bytes
      → Bytes
      → Option ℕ
      → Database
      → Result (Option CredentialPublic) × Database
  unfolding hash_token redeem provision
  enroll params u kind token version ed25519 x25519 at db =
      let now = or_default at db.wall_clock in
      elim (hash_token token >>= λ h. redeem params h kind u now db) [
        | err x ↦ (err x, db)
        | ok (row, db1) ↦
            provision params row.purpose (generated_credential u version ed25519 x25519) now db1
      ]

  -- `token` is what `secrets.token_urlsafe` returns.
  unfoldable issue_token :
      Str → Purpose → IdentityKind → ℕ → Option ℕ → Option ℕ → Database → Result Str × Database
  unfolding hash_token
  issue_token token purpose kind ttl identity at db = elim (hash_token token) [
    | err x ↦ (err x, db)
    | ok h ↦ (
      ok token,
      record db {
        enrollment_tokens =
            db.enrollment_tokens
            ++ record {
              token_hash = h;
              purpose = purpose;
              identity_kind = kind;
              identity_uuid = identity;
              expires_at = or_default at db.wall_clock + ttl;
              used_at = none;
            }
              ∷ [];
      },
    )
  ]
