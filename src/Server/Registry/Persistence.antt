-- ===== src/Server/Registry/Persistence.antt =====
-- server/sih_server/registry.py: an engine that is saved and loaded again is the same engine, for every
-- question that its versions answer.
use secupload.Base.{
  ℕ, ◌==◌, ◌≡◌, refl, arith, if◌then◌else◌, Bool, Option, none, some, List, [], ◌∷◌, map, ◌∙◌,
}
use secupload.Base.Dict.{lookup, insert, lookup-insert}
use secupload.Models.{CredentialPublic, RotationParams}
use secupload.Rotation
use secupload.Rotation.{RotationEngine, Creds, load_from, insert_sorted, sorted}
use secupload.Rotation.Counts.{Keyed, Keyed-insert}
use secupload.Server.Database.{
  Database, CredentialRow, find, filter, order_by, of_identity, of_version,
}
use secupload.Server.Registry.{row_to_public, load_engine, get_credential, with_rows}
use secupload.Server.Registry.Rows.{
  UniqueRows, has_version, DistinctVersions, find-filter, DistinctVersions-filter, find-order_by,
}

-- The first of a list of credentials that has a version.
abbrev pub is_version : ℕ → CredentialPublic → Bool
is_version v c = v == c.version

abbrev pub DistinctCreds : List CredentialPublic → Type 0
DistinctCreds [] = Unit
DistinctCreds (c ∷ cs) = (find (is_version c.version) cs ≡ none) × DistinctCreds cs

abbrev pub or_else : Option CredentialPublic → Option CredentialPublic → Option CredentialPublic
or_else none o = o
or_else (some c) o = some c

pub lookup-load_from :
    (v : ℕ) (cs : List CredentialPublic) (acc : Creds)
    → DistinctCreds cs
    → lookup v (load_from acc cs) ≡ or_else (find (is_version v) cs) (lookup v acc)
unfolding load_from find
lookup-load_from v [] acc h = refl
lookup-load_from v (c ∷ cs) acc h = ground (
  arith,
  lookup-load_from v cs (insert c.version c acc) h.1,
  lookup-insert v c.version c acc,
  h.0,
)

pub Keyed-load_from :
    (cs : List CredentialPublic) (acc : Creds) → Keyed acc → Keyed (load_from acc cs)
unfolding load_from
Keyed-load_from [] acc h = h
Keyed-load_from (c ∷ cs) acc h =
    Keyed-load_from cs (insert c.version c acc) (Keyed-insert c.version c acc h refl)

-- The public record of a row that a query may have found.
abbrev pub public_of : Option CredentialRow → Option CredentialPublic
public_of none = none
public_of (some r) = some (row_to_public r)

find-map :
    (v : ℕ) (rs : List CredentialRow)
    → find (is_version v) (map row_to_public rs) ≡ public_of (find (has_version v) rs)
unfolding find row_to_public
find-map v [] = refl
find-map v (r ∷ rs) = ground (arith, find-map v rs)

DistinctCreds-map :
    (rs : List CredentialRow) → DistinctVersions rs → DistinctCreds (map row_to_public rs)
unfolding row_to_public
DistinctCreds-map [] h = tt
DistinctCreds-map (r ∷ rs) h =
    (rw (find-map r.credential_version rs, h.0) refl, DistinctCreds-map rs h.1)

-- The rows that `_load_engine` reads.
abbrev pub rows_of : ℕ → Database → List CredentialRow
rows_of u db = order_by (λ r. r.credential_version) (filter (of_identity u) db.credentials)

find-rows_of :
    (u v : ℕ) (db : Database)
    → UniqueRows db.credentials
    → (find (has_version v) (rows_of u db) ≡ find (of_version u v) db.credentials)
      × DistinctVersions (rows_of u db)
find-rows_of u v db h =
    let distinct = DistinctVersions-filter u db.credentials h in
    let (same, kept) =
      find-order_by (λ r. r.credential_version) v (filter (of_identity u) db.credentials)
        distinct in
    (same ∙ find-filter u v db.credentials, kept)

pub get_credential-public :
    (db : Database) (u v : ℕ)
    → get_credential db u v ≡ public_of (find (of_version u v) db.credentials)
unfolding get_credential
get_credential-public db u v = ground arith

with_rows-some :
    (params : RotationParams) (rs : List CredentialRow) (e : RotationEngine)
    → with_rows params rs ≡ some e
    → (e.params ≡ params) × (e.creds ≡ load_from [] (map row_to_public rs))
unfolding Rotation.load
with_rows-some params [] e h = absurd (ground arith)
with_rows-some params (r ∷ rs) e h = ground arith

pub load_engine-some :
    (params : RotationParams) (db : Database) (u : ℕ) (e : RotationEngine)
    → load_engine params db u ≡ some e
    → (e.params ≡ params) × (e.creds ≡ load_from [] (map row_to_public (rows_of u db)))
unfolding load_engine
load_engine-some params db u e h = with_rows-some params (rows_of u db) e h

-- A loaded engine has the credentials that the table has for the identity.
pub get-load_engine :
    (params : RotationParams) (db : Database) (u v : ℕ) (e : RotationEngine)
    → UniqueRows db.credentials
    → load_engine params db u ≡ some e
    → lookup v e.creds ≡ get_credential db u v
get-load_engine params db u v e h loaded =
    let (same, distinct) = find-rows_of u v db h in
    let read =
      lookup-load_from v (map row_to_public (rows_of u db)) []
        (DistinctCreds-map (rows_of u db) distinct) in
    let found = find-map v (rows_of u db) in
    ground (
      arith,
      (load_engine-some params db u e loaded).1,
      read,
      found,
      same,
      get_credential-public db u v,
    )

pub Keyed-load_engine :
    (params : RotationParams) (db : Database) (u : ℕ) (e : RotationEngine)
    → load_engine params db u ≡ some e
    → Keyed e.creds
Keyed-load_engine params db u e loaded =
    rw ((load_engine-some params db u e loaded).1)
      (Keyed-load_from (map row_to_public (rows_of u db)) [] tt)

-- Without rows there is no engine, and with one there are rows.
with_rows-none :
    (params : RotationParams) (rs : List CredentialRow) (v : ℕ)
    → with_rows params rs ≡ none
    → find (has_version v) rs ≡ none
unfolding find
with_rows-none params [] v h = refl
with_rows-none params (r ∷ rs) v h = absurd (ground arith)

pub get-load_engine-none :
    (params : RotationParams) (db : Database) (u v : ℕ)
    → UniqueRows db.credentials
    → load_engine params db u ≡ none
    → get_credential db u v ≡ none
unfolding load_engine
get-load_engine-none params db u v h absent = ground (
  arith,
  with_rows-none params (rows_of u db) v absent,
  (find-rows_of u v db h).0,
  get_credential-public db u v,
)

-- The credentials of an engine in the order in which they are saved.
abbrev pub values : Creds → List CredentialPublic
values d = map (λ x. x.1) d

pub find-insert_sorted :
    (v : ℕ) (x : ℕ × CredentialPublic) (d : Creds)
    → x.1.version ≡ x.0
    → find (is_version x.0) (values d) ≡ none
    → find (is_version v) (values (insert_sorted x d))
      ≡ (if v == x.0 then some x.1 else find (is_version v) (values d))
unfolding find insert_sorted
find-insert_sorted v x [] same fresh = ground arith
find-insert_sorted v x (y ∷ d) same fresh = ground (arith, find-insert_sorted v x d)

pub find-sorted :
    (v : ℕ) (d : Creds) → Keyed d → find (is_version v) (values (sorted d)) ≡ lookup v d
unfolding find sorted
find-sorted v [] h = refl
find-sorted v ((k, c) ∷ d) h =
    ground
      (arith, find-insert_sorted v (k, c) (sorted d) h.0, find-sorted k d h.2, find-sorted v d h.2)
