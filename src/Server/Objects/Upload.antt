-- ===== src/Server/Objects/Upload.antt =====
-- An upload from its creation to its end, and the chunks read back.
use secupload.Base.{
  ℕ, ◌≡◌, refl, arith, false, none, some, List, [], ◌∷◌, ◌++◌, length, append_assoc, append-nil,
  Bytes, Option-cases, inl, inr, ==-refl,
}
use secupload.Base.Dict.{lookup, lookup-insert}
use secupload.Base.Result.{ok}
use secupload.Codec.Utf8.{Str}
use secupload.Models.{ObjectInfo}
use secupload.Server.Database.{Database, ObjectRow, find, record_event}
use secupload.Server.Objects.{
  Store, info, exists, get_row, row_to_info, is_object, contents, append_file, write_chunk,
  set_integrity, create, seal, finalize,
}

-- The chunks of an upload, one after the other.
unfoldable pub write_all : ℕ → List (ℕ × Bytes) → Store → Store
write_all u [] s = s
write_all u ((i, b) ∷ cs) s = write_all u cs (write_chunk u i b s).1

unfoldable pub joined : List (ℕ × Bytes) → Bytes
joined [] = []
joined ((i, b) ∷ cs) = b ++ joined cs

-- An object that is registered and not final.
abbrev IsOpen : ℕ → ObjectInfo → Store → Type 0
IsOpen u i s = (info u s.db ≡ ok i) × (i.content_integrity ≡ [])

-- A chunk goes to the end of the file, and leaves the row alone.
write_chunk-open :
    (u k : ℕ) (i : ObjectInfo) (b : Bytes) (s : Store)
    → IsOpen u i s
    → (info u (write_chunk u k b s).1.db ≡ ok i)
      × (lookup u (write_chunk u k b s).1.files ≡ some (contents (lookup u s.files) ++ b))
unfolding write_chunk append_file info get_row record_event
write_chunk-open u k i b s (there, empty) =
    ground (arith, lookup-insert u u (contents (lookup u s.files) ++ b) s.files, ==-refl u)

write_all-open :
    (u : ℕ) (i : ObjectInfo) (cs : List (ℕ × Bytes)) (b : Bytes) (s : Store)
    → IsOpen u i s
    → lookup u s.files ≡ some b
    → (info u (write_all u cs s).db ≡ ok i)
      × (lookup u (write_all u cs s).files ≡ some (b ++ joined cs))
unfolding write_all joined
write_all-open u i [] b s h file = (h.0, ground (arith, append-nil b))
write_all-open u i ((k, d) ∷ cs) b s h file =
    let (there, grown) = write_chunk-open u k i d s h in
    let (last, all) =
      write_all-open u i cs (b ++ d) (write_chunk u k d s).1 (there, h.1) (ground arith) in
    (last, ground (arith, append_assoc b d (joined cs)))

find-snoc :
    (u : ℕ) (row : ObjectRow) (rows : List ObjectRow)
    → find (is_object u) rows ≡ none
    → row.object_uuid ≡ u
    → find (is_object u) (rows ++ row ∷ []) ≡ some row
unfolding find
find-snoc u row [] h same = ground arith
find-snoc u row (r ∷ rows) h same = ground (arith, find-snoc u row rows)

find-set_integrity :
    (u : ℕ) (digest : Str) (row : ObjectRow) (rows : List ObjectRow)
    → find (is_object u) rows ≡ some row
    → find (is_object u) (set_integrity u digest rows)
      ≡ some (record row { content_integrity = digest })
unfolding find set_integrity
find-set_integrity u digest row [] h = absurd (ground arith)
find-set_integrity u digest row (r ∷ rows) h = ground (arith, find-set_integrity u digest row rows)

-- The info of an object with its digest.
unfoldable pub sealed : ObjectInfo → Str → ObjectInfo
sealed i digest = record i { content_integrity = digest }

pub info-set_integrity :
    (u : ℕ) (digest : Str) (i : ObjectInfo) (db : Database)
    → info u db ≡ ok i
    → info u (record db { objects = set_integrity u digest db.objects }) ≡ ok (sealed i digest)
unfolding info get_row row_to_info sealed
info-set_integrity u digest i db h = elim (Option-cases (find (is_object u) db.objects)) [
  | inl absent ↦ absurd (ground arith)
  | inr (row, found) ↦ ground (arith, find-set_integrity u digest row db.objects found)
]

-- What `create` answers with.
unfoldable pub fresh_info : (ℕ → Str) → ℕ → Str → ℕ → Str → ObjectInfo
fresh_info path u file_type file_size metadata = record {
  object_uuid = u;
  file_type = file_type;
  file_size = file_size;
  metadata = metadata;
  content_integrity = [];
  storage_reference = path u;
}

create-fresh :
    (path : ℕ → Str) (owner u file_size : ℕ) (file_type metadata : Str) (s : Store)
    → exists u s.db ≡ false
    → (info u (create path owner u file_type file_size metadata s).1.db
        ≡ ok (fresh_info path u file_type file_size metadata))
      × ((create path owner u file_type file_size metadata s).1.files ≡ s.files)
unfolding create exists info get_row row_to_info fresh_info record_event
create-fresh path owner u file_size file_type metadata s new =
    let row : ObjectRow = record {
      object_uuid = u;
      file_type = file_type;
      file_size = file_size;
      object_metadata = metadata;
      content_integrity = [];
      storage_reference = path u;
    } in
    elim (Option-cases (find (is_object u) s.db.objects)) [
      | inl absent ↦ ground (arith, find-snoc u row s.db.objects absent refl)
      | inr (r, found) ↦ absurd (ground arith)
    ]

finalize-open :
    (hex : Bytes → Str) (u : ℕ) (i : ObjectInfo) (b : Bytes) (s : Store)
    → IsOpen u i s
    → lookup u s.files ≡ some b
    → length b ≡ i.file_size
    → ((finalize hex u s).0 ≡ ok (sealed i (hex b)))
      × ((finalize hex u s).1.files ≡ s.files)
      × (info u (finalize hex u s).1.db ≡ ok (sealed i (hex b)))
unfolding finalize seal
finalize-open hex u i b s (there, empty) file size =
    let done = info-set_integrity u (hex b) i s.db there in ground (arith, done)

-- The store after an object is created and its chunks have come.
unfoldable pub uploaded : (ℕ → Str) → ℕ → ℕ → Str → ℕ → Str → List (ℕ × Bytes) → Store → Store
uploaded path owner u file_type file_size metadata chunks s =
    write_all u chunks (create path owner u file_type file_size metadata s).1

-- For an object that does not exist yet and has no file, when at least one chunk comes and the chunks
-- add up to the declared size, finalizing succeeds: the object's integrity is the digest of the
-- chunks joined in the order they came, and the file holds just that.
pub finalize-uploaded :
    (path : ℕ → Str) (hex : Bytes → Str) (owner u file_size : ℕ) (file_type metadata : Str)
    (first : ℕ × Bytes) (rest : List (ℕ × Bytes)) (s : Store)
    → exists u s.db ≡ false
    → lookup u s.files ≡ none
    → length (joined (first ∷ rest)) ≡ file_size
    → ((finalize hex u (uploaded path owner u file_type file_size metadata (first ∷ rest) s)).0
        ≡ ok
            (sealed (fresh_info path u file_type file_size metadata) (hex (joined (first ∷ rest)))))
      × (lookup u
            (finalize hex u
              (uploaded path owner u file_type file_size metadata (first ∷ rest) s)).1.files
          ≡ some (joined (first ∷ rest)))
unfolding uploaded write_all joined fresh_info
finalize-uploaded path hex owner u file_size file_type metadata (k, d) rest s new clean size =
    let i = fresh_info path u file_type file_size metadata in
    let s0 = (create path owner u file_type file_size metadata s).1 in
    let (there, same) = create-fresh path owner u file_size file_type metadata s new in
    let (there1, one) = write_chunk-open u k i d s0 (there, refl) in
    let s1 = (write_chunk u k d s0).1 in
    let (there2, full) =
      write_all-open u i rest d s1 (there1, refl) (ground (arith, clean, same)) in
    let (good, kept, _) =
      finalize-open hex u i (d ++ joined rest) (write_all u rest s1) (there2, refl) full size in
    (good, ground arith)
