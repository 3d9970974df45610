-- ===== src/Server/Objects.antt =====
-- server/sih_server/objects.py: one row and one file per object. SHA-256's hexadecimal form and the
-- path of an object's file are parameters; the files are keyed by the object, as the paths are
-- distinct.
pub mod Upload
pub mod Integrity
use secupload.Base.{
  ℕ, ◌==◌, ◌*◌, if◌then◌else◌, Bool, true, false, not, List, [], ◌∷◌, ◌++◌, take, drop, length,
  Bytes, Option, none, some,
}
use secupload.Base.Dict.{Dict, lookup, insert}
use secupload.Base.Result.{Result, ok, err, Error, Code}
use secupload.Codec.Utf8.{Str}
use secupload.Models.{ObjectInfo}
use secupload.Rotation.{is_some}
use secupload.Server.Database.{Database, ObjectRow, EventType, AuditResult, find, record_event}

-- The files of `data_dir`, and the database.
pub record Store : Type 0 where
  pub files : Dict Bytes
  pub db : Database

abbrev pub raise : {A : Type 0} → Code → Result A
raise c = err (Error.object_store_error c)

-- `_row_to_info`
unfoldable pub row_to_info : ObjectRow → ObjectInfo
row_to_info row = record {
  object_uuid = row.object_uuid;
  file_type = row.file_type;
  file_size = row.file_size;
  metadata = row.object_metadata;
  content_integrity = row.content_integrity;
  storage_reference = row.storage_reference;
}

abbrev pub is_object : ℕ → ObjectRow → Bool
is_object u r = u == r.object_uuid

-- `_get_row`
unfoldable pub get_row : ℕ → Database → Result ObjectRow
get_row u db = elim (find (is_object u) db.objects) [
  | none ↦ raise Code.not_found
  | some row ↦ ok row
]

unfoldable pub info : ℕ → Database → Result ObjectInfo
unfolding get_row row_to_info
info u db = elim (get_row u db) [ err x ↦ err x | ok row ↦ ok (row_to_info row) ]

unfoldable pub exists : ℕ → Database → Bool
exists u db = is_some (find (is_object u) db.objects)

-- `if info.content_integrity`: a string that is not empty.
abbrev pub is_final : ObjectInfo → Bool
is_final i = elim i.content_integrity [ [] ↦ false | _ ∷ _ ↦ true ]

abbrev access : ℕ → Store → Store
access u s = record s { db = record_event EventType.object_access u none AuditResult.granted s.db }

-- `open(path, "ab")` makes the file when it is missing.
abbrev pub contents : Option Bytes → Bytes
contents none = []
contents (some b) = b

unfoldable pub append_file : ℕ → Bytes → Store → Store
append_file u data_ s = record s { files = insert u (contents (lookup u s.files) ++ data_) s.files }

-- The chunk's index has no part in where the data goes.
unfoldable pub write_chunk : ℕ → ℕ → Bytes → Store → Result (Unit {0}) × Store
unfolding info append_file
write_chunk u chunk_index data_ s = elim (info u s.db) [
  | err x ↦ (err x, s)
  | ok i ↦
      if is_final i then (raise Code.finalized, s) else (ok tt, access u (append_file u data_ s))
]

unfoldable pub read_chunk : ℕ → ℕ → ℕ → Store → Result Bytes
unfolding info
read_chunk u chunk_index chunk_size s = elim (info u s.db) [
  | err x ↦ err x
  | ok _ ↦ elim (lookup u s.files) [
    | none ↦ err Error.os_error
    | some b ↦ ok (take chunk_size (drop (chunk_index * chunk_size) b))
  ]
]

unfoldable pub set_integrity : ℕ → Str → List ObjectRow → List ObjectRow
set_integrity u digest [] = []
set_integrity u digest (r ∷ rs) =
    if is_object u r
    then record r { content_integrity = digest } ∷ rs
    else r ∷ set_integrity u digest rs

unfoldable delete_rows : ℕ → List ObjectRow → List ObjectRow
delete_rows u [] = []
delete_rows u (r ∷ rs) = if is_object u r then delete_rows u rs else r ∷ delete_rows u rs

unfoldable remove_file : ℕ → Dict Bytes → Dict Bytes
remove_file u [] = []
remove_file u ((k, b) ∷ d) = if u == k then remove_file u d else (k, b) ∷ remove_file u d

unfoldable delete : ℕ → Store → Store
unfolding delete_rows remove_file
delete u s = access u (record {
  files = remove_file u s.files;
  db = record s.db { objects = delete_rows u s.db.objects };
})

module _ (path : ℕ → Str) where
  unfoldable pub create : ℕ → ℕ → Str → ℕ → Str → Store → Result ObjectInfo × Store
  unfolding exists info
  create owner u file_type file_size metadata s =
      if exists u s.db
      then (raise Code.already_exists, s)
      else let row : ObjectRow = record {
        object_uuid = u;
        file_type = file_type;
        file_size = file_size;
        object_metadata = metadata;
        content_integrity = [];
        storage_reference = path u;
      } in
        let s1 =
          access owner (record s { db = record s.db { objects = s.db.objects ++ row ∷ [] } }) in
        (info u s1.db, s1)

module _ (sha256_hex : Bytes → Str) where
  -- The part of `finalize` after the file is read.
  unfoldable pub seal : ℕ → ℕ → Bytes → Store → Result ObjectInfo × Store
  unfolding info set_integrity
  seal u file_size b s =
      if not (length b == file_size)
      then (raise Code.integrity_failure, s)
      else let s1 = record s {
        db = record s.db { objects = set_integrity u (sha256_hex b) s.db.objects };
      } in
        (info u s1.db, s1)

  unfoldable pub finalize : ℕ → Store → Result ObjectInfo × Store
  unfolding info seal
  finalize u s = elim (info u s.db) [
    | err x ↦ (err x, s)
    | ok i ↦ if is_final i then (ok i, s) else elim (lookup u s.files) [
      | none ↦ (err Error.os_error, s)
      | some b ↦ seal u i.file_size b s
    ]
  ]
