-- ===== src/Server/Tunnel2/Permission.antt =====
-- Without a permission nothing happens.
use secupload.Base.{ℕ, ◌==◌, ◌≡◌, ◌≢◌, if◌then◌else◌, All}
use secupload.Codec.Utf8.{Str}
use secupload.Protocol.Codes.{Op, op_code}
use secupload.Server.Authorization.{allow, read, write}
use secupload.Server.Database.{Database}

-- The permission that an operation needs.
abbrev pub needed : ℕ → Str
needed op = if op == op_code Op.write then write else read

-- No row of the table allows the client the operation on the object: what rows there are for the three
-- have another policy than ALLOW.
abbrev pub NotAllowed : Database → ℕ → ℕ → Str → Type 0
NotAllowed db client object operation =
    All
      (λ r.
        r.client_uuid ≡ client
        → r.object_uuid ≡ object
        → r.operation ≡ operation
        → r.policy ≢ allow)
      db.permissions
