-- ===== src/Server/Registry/Rows.antt =====
-- server/sih_server/registry.py: what a query of the credentials finds after rows are sorted, filtered
-- and saved.
use secupload.Base.{ℕ, ◌==◌, ◌&&◌, ◌≡◌, refl, arith, if◌then◌else◌, Bool, none, some, List, [], ◌∷◌}
use secupload.Models.{CredentialPublic}
use secupload.Server.Database.{
  CredentialRow, find, filter, insert_by, order_by, of_identity, of_version,
}
use secupload.Server.Registry.{row_of, save_public, save_all}

-- No identity has two rows of one version.
abbrev pub UniqueRows : List CredentialRow → Type 0
UniqueRows [] = Unit
UniqueRows (r ∷ rs) =
    (find (of_version r.identity_uuid r.credential_version) rs ≡ none) × UniqueRows rs

-- Rows of one identity, by their version.
abbrev pub has_version : ℕ → CredentialRow → Bool
has_version v r = v == r.credential_version

abbrev pub DistinctVersions : List CredentialRow → Type 0
DistinctVersions [] = Unit
DistinctVersions (r ∷ rs) =
    (find (has_version r.credential_version) rs ≡ none) × DistinctVersions rs

pub find-filter :
    (u v : ℕ) (rs : List CredentialRow)
    → find (has_version v) (filter (of_identity u) rs) ≡ find (of_version u v) rs
unfolding find filter
find-filter u v [] = refl
find-filter u v (r ∷ rs) = ground (arith, find-filter u v rs)

pub DistinctVersions-filter :
    (u : ℕ) (rs : List CredentialRow) → UniqueRows rs → DistinctVersions (filter (of_identity u) rs)
unfolding filter
DistinctVersions-filter u [] h = tt
DistinctVersions-filter u (r ∷ rs) h =
    ground (arith, DistinctVersions-filter u rs h.1, find-filter u r.credential_version rs, h.0)

find-insert_by :
    (key : CredentialRow → ℕ) (v : ℕ) (r : CredentialRow) (rs : List CredentialRow)
    → find (has_version r.credential_version) rs ≡ none
    → find (has_version v) (insert_by key r rs)
      ≡ (if v == r.credential_version then some r else find (has_version v) rs)
unfolding find insert_by
find-insert_by key v r [] h = ground arith
find-insert_by key v r (s ∷ rs) h = ground (arith, find-insert_by key v r rs)

DistinctVersions-insert_by :
    (key : CredentialRow → ℕ) (r : CredentialRow) (rs : List CredentialRow)
    → find (has_version r.credential_version) rs ≡ none
    → DistinctVersions rs
    → DistinctVersions (insert_by key r rs)
unfolding find insert_by
DistinctVersions-insert_by key r [] h d = (refl, tt)
DistinctVersions-insert_by key r (s ∷ rs) h d =
    ground
      (arith, DistinctVersions-insert_by key r rs, find-insert_by key s.credential_version r rs)

-- Sorting changes no answer.
pub find-order_by :
    (key : CredentialRow → ℕ) (v : ℕ) (rs : List CredentialRow)
    → DistinctVersions rs
    → (find (has_version v) (order_by key rs) ≡ find (has_version v) rs)
      × DistinctVersions (order_by key rs)
unfolding find order_by
find-order_by key v [] h = (refl, tt)
find-order_by key v (r ∷ rs) h =
    let (same, distinct) = find-order_by key v rs h.1 in
    let fresh = (find-order_by key r.credential_version rs h.1).0 in
    ground (
      arith,
      find-insert_by key v r (order_by key rs),
      DistinctVersions-insert_by key r (order_by key rs),
      h.0,
    )

pub find-save_public :
    (u v : ℕ) (c : CredentialPublic) (rs : List CredentialRow)
    → find (of_version u v) (save_public c rs) ≡ (
        if (u == c.identity_uuid) && (v == c.version)
        then some (row_of c)
        else find (of_version u v) rs)
unfolding find save_public row_of
find-save_public u v c [] = ground arith
find-save_public u v c (r ∷ rs) = ground (arith, find-save_public u v c rs)

pub UniqueRows-save_public :
    (c : CredentialPublic) (rs : List CredentialRow) → UniqueRows rs → UniqueRows (save_public c rs)
unfolding find save_public row_of
UniqueRows-save_public c [] h = (refl, tt)
UniqueRows-save_public c (r ∷ rs) h = ground (
  arith,
  UniqueRows-save_public c rs h.1,
  find-save_public r.identity_uuid r.credential_version c rs,
  h.0,
)

pub UniqueRows-save_all :
    (cs : List CredentialPublic) (rs : List CredentialRow)
    → UniqueRows rs
    → UniqueRows (save_all cs rs)
unfolding save_all
UniqueRows-save_all [] rs h = h
UniqueRows-save_all (c ∷ cs) rs h =
    UniqueRows-save_all cs (save_public c rs) (UniqueRows-save_public c rs h)
