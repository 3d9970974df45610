-- ===== src/Client/Identity/Reload.antt =====
-- client/sih_client/identity.py: what a new process reads from the file that `_save` wrote.
use secupload.Base.{
  ℕ, ◌<◌, ◌^◌, Bool, Bool-cases, ◌==◌, ◌≡◌, refl, arith, if◌then◌else◌, false, List, [], ◌∷◌, map,
  none, some, Option-cases, inl, inr, ◌∙◌, sym, ap, All, Bytes,
}
use secupload.Base.Dict.{lookup, insert}
use secupload.Base.Result.{ok, ◌>>=◌}
use secupload.Codec.KeyFile.{Keys, member, read_keys, ByteKeys, DistinctKeys, keys_read_back}
use secupload.Codec.Text.{str_of, uuid_text, insert_by, sort_by, text_le}
use secupload.Codec.Text.Reading.{
  IsBytes, int_of-str_of, from_hex-to_hex, uuid_of-uuid_text, sort_by-map,
}
use secupload.Models.{CredentialPublic, CredentialStatus}
use mathlib.Core.Option
use secupload.Rotation
use secupload.Rotation.{Creds, RotationEngine, load_from, sorted}
use secupload.Rotation.Commands.{new}
use secupload.Rotation.Counts.{Keyed}
use secupload.Server.Database.{find}
use secupload.Server.Registry.Persistence.{
  is_version, DistinctCreds, values, find-sorted, lookup-load_from, Keyed-load_from,
}
use secupload.Server.Registry.Saving.{
  Owned, Owned-lookup, OwnedBy, OwnedBy-sorted, DistinctCreds-sorted,
}
use secupload.Client.Identity.{
  ClientIdentity, Setting, Saved, File, Fresh, save, credential_entries, credential_entry, entry_le,
  first_identity, from_entry, from_entries, status_text, status_among, status_of, or_false,
  read_credentials, load_rest, load_saved, ensure_loaded,
}

entries-eq-load_from :
    (acc : Creds) (cs : List CredentialPublic) → credential_entries acc cs ≡ load_from acc cs
unfolding credential_entries load_from
entries-eq-load_from acc [] = refl
entries-eq-load_from acc (c ∷ cs) = entries-eq-load_from (insert c.version c acc) cs

-- The order of the texts of the versions, on credentials and on entries of a dict.
abbrev cred_le : CredentialPublic → CredentialPublic → Bool
cred_le a b = text_le (str_of a.version) (str_of b.version)

abbrev pair_le : ℕ × CredentialPublic → ℕ × CredentialPublic → Bool
pair_le a b = text_le (str_of a.0) (str_of b.0)

abbrev insert_text : CredentialPublic → List CredentialPublic → List CredentialPublic
insert_text = insert_by cred_le

abbrev text_sorted : List CredentialPublic → List CredentialPublic
text_sorted = sort_by cred_le

-- The credential that an entry is read to.
abbrev read_as : ℕ → ℕ × CredentialPublic → CredentialPublic
read_as u (v, c) = record c { identity_uuid = u; version = v }

-- The public keys are lists of bytes.
abbrev pub HasByteKeys : CredentialPublic → Type 0
HasByteKeys c = IsBytes c.ed25519_public × IsBytes c.x25519_public

status_of-status_text : (s : CredentialStatus) → status_of (status_text s) ≡ ok s
unfolding status_of status_text status_among
status_of-status_text CredentialStatus.generated = refl
status_of-status_text CredentialStatus.validating = refl
status_of-status_text CredentialStatus.active = refl
status_of-status_text CredentialStatus.fallback = refl
status_of-status_text CredentialStatus.expired = refl
status_of-status_text CredentialStatus.terminated = refl
status_of-status_text CredentialStatus.revoked = refl

from_entry-credential_entry :
    (u v : ℕ) (c : CredentialPublic)
    → u < 256 ^ 16
    → HasByteKeys c
    → from_entry (some (uuid_text u)) (credential_entry (v, c)) ≡ ok (read_as u (v, c))
unfolding from_entry credential_entry
from_entry-credential_entry u v c small bytes =
    rw
      (
        from_entry,
        uuid_of-uuid_text u small,
        int_of-str_of v,
        from_hex-to_hex c.ed25519_public bytes.0,
        from_hex-to_hex c.x25519_public bytes.1,
        status_of-status_text c.status,
      )
      refl

from_entries-map :
    (u : ℕ) (d : Creds)
    → u < 256 ^ 16
    → All (λ entry. HasByteKeys entry.1) d
    → from_entries (some (uuid_text u)) (map credential_entry d) ≡ ok (map (read_as u) d)
unfolding from_entries
from_entries-map u [] small bytes = refl
from_entries-map u ((v, c) ∷ d) small bytes =
    rw
      (
        from_entries,
        from_entry-credential_entry u v c small bytes.0,
        from_entries-map u d small bytes.1,
      )
      refl

All-insert_by :
    (P : CredentialPublic → Type 0) (x : ℕ × CredentialPublic) (d : Creds)
    → P x.1
    → All (λ entry. P entry.1) d
    → All (λ entry. P entry.1) (insert_by pair_le x d)
unfolding insert_by
All-insert_by P x [] p h = (p, tt)
All-insert_by P x (y ∷ d) p h = elim (Bool-cases (pair_le x y)) [
  | inl before ↦ rw (insert_by, before) (p, h)
  | inr after ↦ rw (insert_by, after) (h.0, All-insert_by P x d p h.1)
]

All-sort_by :
    (P : CredentialPublic → Type 0) (d : Creds)
    → All (λ entry. P entry.1) d
    → All (λ entry. P entry.1) (sort_by pair_le d)
unfolding sort_by
All-sort_by P [] h = tt
All-sort_by P (x ∷ d) h = All-insert_by P x (sort_by pair_le d) h.0 (All-sort_by P d h.1)

-- What is read of the entries that are written.
from_entries-sorted :
    (u : ℕ) (d : Creds)
    → u < 256 ^ 16
    → All (λ entry. HasByteKeys entry.1) d
    → from_entries (some (uuid_text u)) (sort_by entry_le (map credential_entry d))
      ≡ ok (text_sorted (map (read_as u) d))
unfolding credential_entry
from_entries-sorted u d small bytes =
    ap (from_entries (some (uuid_text u)))
      (sort_by-map pair_le entry_le credential_entry (λ a b. refl) d)
    ∙ from_entries-map u (sort_by pair_le d) small (All-sort_by HasByteKeys d bytes)
    ∙ ap (λ cs. ok cs) (sym (sort_by-map pair_le cred_le (read_as u) (λ a b. refl) d))

All-insert :
    (P : CredentialPublic → Type 0) (k : ℕ) (c : CredentialPublic) (d : Creds)
    → P c
    → All (λ entry. P entry.1) d
    → All (λ entry. P entry.1) (insert k c d)
All-insert P k c [] p h = (p, tt)
All-insert P k c ((j, e) ∷ d) p h = elim (Bool-cases (k == j)) [
  | inl same ↦ rw same (p, h.1)
  | inr other ↦ rw other (h.0, All-insert P k c d p h.1)
]

All-credential_entries :
    (P : CredentialPublic → Type 0) (acc : Creds) (cs : List CredentialPublic)
    → All P cs
    → All (λ entry. P entry.1) acc
    → All (λ entry. P entry.1) (credential_entries acc cs)
unfolding credential_entries
All-credential_entries P acc [] hc ha = ha
All-credential_entries P acc (c ∷ cs) hc ha =
    All-credential_entries P (insert c.version c acc) cs hc.1 (All-insert P c.version c acc hc.0 ha)

find-insert_text :
    (v : ℕ) (c : CredentialPublic) (cs : List CredentialPublic)
    → find (is_version c.version) cs ≡ none
    → find (is_version v) (insert_text c cs)
      ≡ (if v == c.version then some c else find (is_version v) cs)
unfolding find insert_by
find-insert_text v c [] h = ground arith
find-insert_text v c (d ∷ ds) h = ground (arith, find-insert_text v c ds)

DistinctCreds-insert_text :
    (c : CredentialPublic) (cs : List CredentialPublic)
    → find (is_version c.version) cs ≡ none
    → DistinctCreds cs
    → DistinctCreds (insert_text c cs)
unfolding find insert_by
DistinctCreds-insert_text c [] h distinct = (refl, tt)
DistinctCreds-insert_text c (d ∷ ds) h distinct =
    ground (arith, DistinctCreds-insert_text c ds, find-insert_text d.version c ds)

-- The order of the strings changes no answer.
find-text_sorted :
    (v : ℕ) (cs : List CredentialPublic)
    → DistinctCreds cs
    → (find (is_version v) (text_sorted cs) ≡ find (is_version v) cs)
      × DistinctCreds (text_sorted cs)
unfolding find sort_by
find-text_sorted v [] h = (refl, tt)
find-text_sorted v (c ∷ cs) h =
    let (same, distinct) = find-text_sorted v cs h.1 in
    let fresh = (find-text_sorted c.version cs h.1).0 in
    ground (
      arith,
      find-insert_text v c (text_sorted cs),
      DistinctCreds-insert_text c (text_sorted cs),
      h.0,
    )

abbrev given : ℕ → CredentialPublic → CredentialPublic
given u c = record c { identity_uuid = u }

find-read_as :
    (u v : ℕ) (d : Creds)
    → Keyed d
    → find (is_version v) (map (read_as u) d) ≡ Option.map (given u) (lookup v d)
unfolding find
find-read_as u v [] h = refl
find-read_as u v ((k, c) ∷ d) h = ground (arith, find-read_as u v d h.2)

DistinctCreds-read_as : (u : ℕ) (d : Creds) → Keyed d → DistinctCreds (map (read_as u) d)
DistinctCreds-read_as u [] h = tt
DistinctCreds-read_as u ((k, c) ∷ d) h =
    (rw (find-read_as u k d h.2, h.1) refl, DistinctCreds-read_as u d h.2)

first-OwnedBy :
    (u v : ℕ) (c : CredentialPublic) (cs : List CredentialPublic)
    → OwnedBy u cs
    → find (is_version v) cs ≡ some c
    → first_identity cs 0 ≡ u
unfolding find
first-OwnedBy u v c [] own found = absurd (ground arith)
first-OwnedBy u v c (d ∷ ds) own found = own.0

-- The object of a new process over the same file.
abbrev pub restarted : Setting → ClientIdentity → ClientIdentity
restarted cfg s = record s { engine = new cfg.params; keys = []; enrolled = false }

-- What the engine of the new process answers.
lookup-reloaded :
    (u v : ℕ) (e : RotationEngine)
    → Keyed e.creds
    → Owned u e.creds
    → lookup v
        (load_from [] (text_sorted (map (read_as u) (credential_entries [] (Rotation.all e)))))
      ≡ lookup v e.creds
unfolding Rotation.all
lookup-reloaded u v e keyed own =
    let listed = (DistinctCreds-sorted e.creds keyed).0 in
    let d = credential_entries [] (values (sorted e.creds)) in
    let built : d ≡ load_from [] (values (sorted e.creds)) =
      entries-eq-load_from [] (values (sorted e.creds)) in
    let d_keyed : Keyed d = rw built (Keyed-load_from (values (sorted e.creds)) [] tt) in
    let distinct = DistinctCreds-read_as u d d_keyed in
    let (same, ordered) = find-text_sorted v (map (read_as u) d) distinct in
    let answer : lookup v d ≡ lookup v e.creds = ground (
      arith,
      built,
      lookup-load_from v (values (sorted e.creds)) [] listed,
      find-sorted v e.creds keyed,
    ) in
    let read = lookup-load_from v (text_sorted (map (read_as u) d)) [] ordered in
    elim (Option-cases (lookup v e.creds)) [
      | inl absent ↦ ground (arith, read, same, find-read_as u v d d_keyed, answer)
      | inr (c, there) ↦
          let mine : c.identity_uuid ≡ u = Owned-lookup u v c e.creds own there in
          let same_record : given u c ≡ c = rw (sym mine) refl in
          ground (arith, read, same, find-read_as u v d d_keyed, answer, same_record)
    ]

ensure_loaded-loads :
    (cfg : Setting) (data_ : Saved) (unknown now : ℕ) (pairs : Fresh) (s : ClientIdentity)
    → s.file ≡ File.saved data_
    → ensure_loaded cfg unknown pairs now s ≡ load_saved cfg data_ s
unfolding ensure_loaded
ensure_loaded-loads cfg data_ unknown now pairs s file = ground arith

-- A new process over a file that can be read, with at least one private key.
ensure_loaded-saved :
    (cfg : Setting) (data_ : Saved) (unknown now : ℕ) (pairs : Fresh) (s : ClientIdentity)
    (creds : List CredentialPublic) (k : ℕ × (Bytes × Bytes)) (ks : Keys)
    → s.file ≡ File.saved data_
    → read_credentials data_ ≡ ok creds
    → (member data_.keys >>= read_keys []) ≡ ok (k ∷ ks)
    → ensure_loaded cfg unknown pairs now s ≡ (
      ok tt,
      record s {
        engine = Rotation.load cfg.params creds;
        keys = k ∷ ks;
        enrolled = or_false data_.enrolled;
      },
    )
unfolding ensure_loaded load_saved load_rest
ensure_loaded-saved cfg data_ unknown now pairs s creds k ks file read some_key =
    ensure_loaded-loads cfg data_ unknown now pairs s file
    ∙ rw (load_saved, read, load_rest, some_key) refl

some_key_is_there :
    (v : ℕ) (p : Bytes × Bytes) (keys : Keys)
    → lookup v keys ≡ some p
    → (k : ℕ × (Bytes × Bytes)) × (ks : Keys) × (keys ≡ k ∷ ks)
some_key_is_there v p [] h = absurd (ground arith)
some_key_is_there v p (k ∷ ks) h = (k, ks, refl)

-- After an identity with credentials of one owner and at least one private key is saved, a new process
-- reads the texts of the file without an error and without generating a key: the same credential
-- and the same private keys under every version, and the same mark of enrollment; where the owner
-- is a number of 128 bits, the keys are lists of bytes, and the versions of the private keys are
-- distinct. The file's entries are sorted by the versions' texts, which changes no answer.
pub reload-restores :
    (cfg : Setting) (u v0 v1 unknown now : ℕ) (c0 : CredentialPublic) (p1 : Bytes × Bytes)
    (pairs : Fresh) (s : ClientIdentity)
    → u < 256 ^ 16
    → Keyed s.engine.creds
    → Owned u s.engine.creds
    → All HasByteKeys (Rotation.all s.engine)
    → lookup v0 s.engine.creds ≡ some c0
    → ByteKeys s.keys
    → DistinctKeys s.keys
    → lookup v1 s.keys ≡ some p1
    → let loaded = ensure_loaded cfg unknown pairs now (restarted cfg (save s)) in
      (loaded.0 ≡ ok tt)
      × ((v : ℕ) → lookup v loaded.1.engine.creds ≡ lookup v s.engine.creds)
      × ((v : ℕ) → lookup v loaded.1.keys ≡ lookup v s.keys)
      × (loaded.1.enrolled ≡ s.enrolled)
unfolding save Rotation.all Rotation.load read_credentials
reload-restores cfg u v0 v1 unknown now c0 p1 pairs s small keyed own bytes there key_bytes distinct
      key_there =
    let listed = values (sorted s.engine.creds) in
    let owner : first_identity listed 0 ≡ u =
      first-OwnedBy u v0 c0 listed (OwnedBy-sorted u s.engine.creds own)
        (find-sorted v0 s.engine.creds keyed ∙ there) in
    let entries = credential_entries [] listed in
    let creds_read =
      ap (λ o. from_entries (some (uuid_text o)) (sort_by entry_le (map credential_entry entries)))
        owner
      ∙ from_entries-sorted u entries small
          (All-credential_entries HasByteKeys [] listed bytes tt) in
    let (held, keys_read, same_keys) = keys_read_back s.keys key_bytes distinct in
    let (k, ks, is) = some_key_is_there v1 p1 held (same_keys v1 ∙ key_there) in
    rw
      (ensure_loaded-saved cfg _ unknown now pairs (restarted cfg (save s))
        (text_sorted (map (read_as u) entries)) k ks refl creds_read
        (keys_read ∙ ap (λ d. ok d) is))
      (
        refl,
        (λ v. lookup-reloaded u v s.engine keyed own),
        (λ v. ap (lookup v) (sym is) ∙ same_keys v),
        refl,
      )
