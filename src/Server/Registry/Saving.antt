-- ===== src/Server/Registry/Saving.antt =====
-- server/sih_server/registry.py: what the table of credentials answers after an engine is saved.
use secupload.Base.{
  ℕ, ◌==◌, ◌≡◌, refl, arith, if◌then◌else◌, Option, none, some, List, [], ◌∷◌, map, ◌∙◌, All,
}
use secupload.Base.Dict.{lookup, insert}
use secupload.Models.{CredentialPublic, CredentialStatus, RotationParams}
use secupload.Rotation
use secupload.Rotation.{RotationEngine, Creds, by_status, load_from, insert_sorted, sorted}
use secupload.Rotation.Counts.{Keyed}
use secupload.Server.Database.{
  Database, CredentialRow, find, filter, order_by, insert_by, of_identity, of_version,
}
use secupload.Server.Registry.{
  row_of, row_to_public, save_public, save_all, load_engine, get_credential, commit_engine,
}
use secupload.Server.Registry.Rows.{find-save_public}
use secupload.Server.Registry.Persistence.{
  is_version, DistinctCreds, or_else, values, find-sorted, find-insert_sorted, public_of,
  get_credential-public, load_engine-some, rows_of,
}

-- Every credential of an engine belongs to one identity.
abbrev pub Owned : ℕ → Creds → Type 0
Owned u [] = Unit
Owned u ((k, c) ∷ d) = (c.identity_uuid ≡ u) × Owned u d

pub Owned-insert :
    (u v : ℕ) (c : CredentialPublic) (d : Creds)
    → Owned u d
    → c.identity_uuid ≡ u
    → Owned u (insert v c d)
Owned-insert u v c [] h same = (same, tt)
Owned-insert u v c ((k, w) ∷ d) h same = ground (arith, Owned-insert u v c d h.1 same)

pub Owned-lookup :
    (u v : ℕ) (c : CredentialPublic) (d : Creds)
    → Owned u d
    → lookup v d ≡ some c
    → c.identity_uuid ≡ u
Owned-lookup u v c [] h found = absurd (ground arith)
Owned-lookup u v c ((k, w) ∷ d) h found = ground (arith, Owned-lookup u v c d h.1)

pub Owned-by_status :
    (u : ℕ) (s : CredentialStatus) (c : CredentialPublic) (d : Creds)
    → Owned u d
    → by_status s d ≡ some c
    → c.identity_uuid ≡ u
unfolding by_status
Owned-by_status u s c [] h found = absurd (ground arith)
Owned-by_status u s c ((k, w) ∷ d) h found = ground (arith, Owned-by_status u s c d h.1)

-- The list that is saved.
abbrev pub OwnedBy : ℕ → List CredentialPublic → Type 0
OwnedBy u = All (λ c. c.identity_uuid ≡ u)

OwnedBy-insert_sorted :
    (u : ℕ) (x : ℕ × CredentialPublic) (d : Creds)
    → x.1.identity_uuid ≡ u
    → OwnedBy u (values d)
    → OwnedBy u (values (insert_sorted x d))
unfolding insert_sorted
OwnedBy-insert_sorted u x [] same h = (same, tt)
OwnedBy-insert_sorted u x (y ∷ d) same h = ground (arith, OwnedBy-insert_sorted u x d same h.1)

pub OwnedBy-sorted : (u : ℕ) (d : Creds) → Owned u d → OwnedBy u (values (sorted d))
unfolding sorted
OwnedBy-sorted u [] h = tt
OwnedBy-sorted u ((k, c) ∷ d) h =
    OwnedBy-insert_sorted u (k, c) (sorted d) h.0 (OwnedBy-sorted u d h.1)

DistinctCreds-insert_sorted :
    (x : ℕ × CredentialPublic) (d : Creds)
    → x.1.version ≡ x.0
    → All (λ y. y.1.version ≡ y.0) d
    → find (is_version x.0) (values d) ≡ none
    → DistinctCreds (values d)
    → DistinctCreds (values (insert_sorted x d)) × All (λ y. y.1.version ≡ y.0) (insert_sorted x d)
unfolding find insert_sorted
DistinctCreds-insert_sorted x [] same keyed fresh h = ((refl, tt), (same, tt))
DistinctCreds-insert_sorted x (y ∷ d) same keyed fresh h =
    ground
      (arith, DistinctCreds-insert_sorted x d same keyed.1, find-insert_sorted y.1.version x d same)

pub DistinctCreds-sorted :
    (d : Creds)
    → Keyed d
    → DistinctCreds (values (sorted d)) × All (λ y. y.1.version ≡ y.0) (sorted d)
unfolding sorted
DistinctCreds-sorted [] h = (tt, tt)
DistinctCreds-sorted ((k, c) ∷ d) h =
    let (distinct, keyed) = DistinctCreds-sorted d h.2 in
    DistinctCreds-insert_sorted (k, c) (sorted d) h.0 keyed (find-sorted k d h.2 ∙ h.1) distinct

-- The row that is found after a list of one identity's credentials is saved.
abbrev saved_row : Option CredentialPublic → Option CredentialRow → Option CredentialRow
saved_row none o = o
saved_row (some c) o = some (row_of c)

find-save_all :
    (u w v : ℕ) (cs : List CredentialPublic) (rs : List CredentialRow)
    → DistinctCreds cs
    → OwnedBy u cs
    → find (of_version w v) (save_all cs rs) ≡ (
        if w == u
        then saved_row (find (is_version v) cs) (find (of_version w v) rs)
        else find (of_version w v) rs)
unfolding find save_all
find-save_all u w v [] rs h own = ground arith
find-save_all u w v (c ∷ cs) rs h own = ground (
  arith,
  find-save_all u w v cs (save_public c rs) h.1 own.1,
  find-save_public w v c rs,
  own.0,
  h.0,
)

public-saved :
    (o : Option CredentialPublic) (r : Option CredentialRow)
    → public_of (saved_row o r) ≡ or_else o (public_of r)
unfolding row_of row_to_public
public-saved none r = refl
public-saved (some c) r = refl

-- After a commit a query of the identity finds what the engine has, and what the table had where the
-- engine has nothing; a query of another identity finds what it found.
pub get-commit_engine :
    (e : RotationEngine) (db : Database) (u w v : ℕ)
    → Keyed e.creds
    → Owned u e.creds
    → get_credential (commit_engine e db) w v ≡ (
        if w == u
        then or_else (lookup v e.creds) (get_credential db w v)
        else get_credential db w v)
unfolding commit_engine Rotation.all
get-commit_engine e db u w v keyed own =
    let found =
      find-save_all u w v (values (sorted e.creds)) db.credentials
        (DistinctCreds-sorted e.creds keyed).0 (OwnedBy-sorted u e.creds own) in
    ground (
      arith,
      found,
      find-sorted v e.creds keyed,
      public-saved (lookup v e.creds) (find (of_version w v) db.credentials),
      get_credential-public db w v,
      get_credential-public (commit_engine e db) w v,
    )

-- The credentials that are read for an identity are that identity's.
OwnedBy-filter :
    (u : ℕ) (rs : List CredentialRow) → All (λ r. r.identity_uuid ≡ u) (filter (of_identity u) rs)
unfolding filter
OwnedBy-filter u [] = tt
OwnedBy-filter u (r ∷ rs) = ground (arith, OwnedBy-filter u rs)

OwnedBy-insert_by :
    (key : CredentialRow → ℕ) (u : ℕ) (r : CredentialRow) (rs : List CredentialRow)
    → r.identity_uuid ≡ u
    → All (λ x. x.identity_uuid ≡ u) rs
    → All (λ x. x.identity_uuid ≡ u) (insert_by key r rs)
unfolding insert_by
OwnedBy-insert_by key u r [] same h = (same, tt)
OwnedBy-insert_by key u r (x ∷ rs) same h = ground (arith, OwnedBy-insert_by key u r rs same h.1)

OwnedBy-order_by :
    (key : CredentialRow → ℕ) (u : ℕ) (rs : List CredentialRow)
    → All (λ r. r.identity_uuid ≡ u) rs
    → All (λ r. r.identity_uuid ≡ u) (order_by key rs)
unfolding order_by
OwnedBy-order_by key u [] h = tt
OwnedBy-order_by key u (r ∷ rs) h =
    OwnedBy-insert_by key u r (order_by key rs) h.0 (OwnedBy-order_by key u rs h.1)

Owned-load_from :
    (u : ℕ) (rs : List CredentialRow) (acc : Creds)
    → All (λ r. r.identity_uuid ≡ u) rs
    → Owned u acc
    → Owned u (load_from acc (map row_to_public rs))
unfolding load_from row_to_public
Owned-load_from u [] acc h own = own
Owned-load_from u (r ∷ rs) acc h own =
    Owned-load_from u rs _ h.1 (Owned-insert u r.credential_version (row_to_public r) acc own h.0)

pub Owned-load_engine :
    (params : RotationParams) (db : Database) (u : ℕ) (e : RotationEngine)
    → load_engine params db u ≡ some e
    → Owned u e.creds
Owned-load_engine params db u e loaded = rw ((load_engine-some params db u e loaded).1) (
    Owned-load_from u (rows_of u db) [] (OwnedBy-order_by _ u _ (OwnedBy-filter u db.credentials))
      tt)
