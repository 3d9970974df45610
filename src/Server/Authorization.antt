-- ===== src/Server/Authorization.antt =====
-- server/sih_server/authorization.py: denied unless a row allows it.
use secupload.Base.{
  ℕ, ◌==◌, ◌&&◌, ◌≡◌, ◌↔◌, if◌then◌else◌, Bool, true, none, some, [], ◌∷◌, not, arith, Option-cases,
  inl, inr,
}
use secupload.Base.Result.{Result, ok, err, Error, Code}
use secupload.Codec.Utf8.{Str}
use secupload.Server.Database.{Database, PermissionRow, find}
use secupload.Successor.{bytes_eq}

-- `"ALLOW"`, `"READ"`, `"WRITE"`
abbrev pub allow : Str
allow = b'A' ∷ b'L' ∷ b'L' ∷ b'O' ∷ b'W' ∷ []

abbrev pub read : Str
read = b'R' ∷ b'E' ∷ b'A' ∷ b'D' ∷ []

abbrev pub write : Str
write = b'W' ∷ b'R' ∷ b'I' ∷ b'T' ∷ b'E' ∷ []

-- The query's filter.
unfoldable pub is_for : ℕ → ℕ → Str → PermissionRow → Bool
is_for client object operation r =
    (client == r.client_uuid) && ((object == r.object_uuid) && bytes_eq operation r.operation)

unfoldable pub check_permission : Database → ℕ → ℕ → Str → Result (Unit {0})
unfolding is_for
check_permission db client object operation =
    elim (find (is_for client object operation) db.permissions) [
      | none ↦ err (Error.authorization_error Code.forbidden)
      | some row ↦
          if not (bytes_eq row.policy allow)
          then err (Error.authorization_error Code.forbidden)
          else ok tt
    ]

-- An operation is permitted exactly when the first row for that client, object and operation says
-- ALLOW; without a row, or with any other policy, it is refused as FORBIDDEN.
check_permission-ok_iff :
    (db : Database) (client object : ℕ) (operation : Str)
    → (check_permission db client object operation ≡ ok tt) ↔ (
        (row : PermissionRow) × (find (is_for client object operation) db.permissions ≡ some row)
        × (bytes_eq row.policy allow ≡ true))
unfolding check_permission
check_permission-ok_iff db client object operation =
    elim (Option-cases (find (is_for client object operation) db.permissions)) [
      | inl absent ↦ (λ h. absurd (ground arith), λ (row, there, grants). absurd (ground arith))
      | inr (row, found) ↦ (λ h. (row, found, ground arith), λ (w, there, grants). ground arith)
    ]
