-- ===== src/Server/Objects/Integrity.antt =====
-- What a final object guarantees, and the chunks that a reader gets.
use secupload.Base.{
  ℕ, zero, suc, ◌+◌, ◌*◌, ◌≤◌, ◌≡◌, ◌≢◌, refl, arith, true, false, some, [], ◌∷◌, ◌++◌, take, drop,
  length, Bytes, Option-cases, Bool-cases, inl, inr, ap,
}
use secupload.Base.Dict.{lookup}
use secupload.Base.Result.{Result, ok, err, Error, Code, Result-cases, ◌>>=◌}
use secupload.Codec.Utf8.{Str}
use secupload.Models.{ObjectInfo}
use secupload.Server.Objects.{Store, info, is_final, write_chunk, read_chunk, seal, finalize}
use secupload.Server.Objects.Upload.{sealed, info-set_integrity}

info-seal :
    (hex : Bytes → Str) (u : ℕ) (i j : ObjectInfo) (b : Bytes) (s : Store)
    → info u s.db ≡ ok i
    → (seal hex u i.file_size b s).0 ≡ ok j
    → (j ≡ sealed i (hex b))
      × (length b ≡ i.file_size)
      × (info u (seal hex u i.file_size b s).1.db ≡ ok j)
      × ((seal hex u i.file_size b s).1.files ≡ s.files)
unfolding seal
info-seal hex u i j b s there good =
    let done = info-set_integrity u (hex b) i s.db there in ground (arith, done)

-- A success of `finalize`, taken apart.
finalize-cases :
    (hex : Bytes → Str) (u : ℕ) (j : ObjectInfo) (s : Store)
    → ((b : Bytes) → hex b ≢ [])
    → (finalize hex u s).0 ≡ ok j
    → (is_final j ≡ true) × (info u (finalize hex u s).1.db ≡ ok j)
unfolding finalize sealed
finalize-cases hex u j s digest good = elim (Result-cases (info u s.db)) [
  | inr (x, absent) ↦ absurd (ground arith)
  | inl (i, there) ↦ elim (Bool-cases (is_final i)) [
    | inl final ↦ ground arith
    | inr unsealed ↦ elim (Option-cases (lookup u s.files)) [
      | inl missing ↦ absurd (ground arith)
      | inr (b, file) ↦
          let (same, size, done, kept) = info-seal hex u i j b s there (ground arith) in
          ground (arith, digest b)
    ]
  ]
]

finalize-final :
    (hex : Bytes → Str) (u : ℕ) (i : ObjectInfo) (s : Store)
    → is_final i ≡ true
    → info u s.db ≡ ok i
    → finalize hex u s ≡ (ok i, s)
unfolding finalize
finalize-final hex u i s final there = ground arith

write_chunk-final :
    (u k : ℕ) (d : Bytes) (i : ObjectInfo) (s : Store)
    → is_final i ≡ true
    → info u s.db ≡ ok i
    → write_chunk u k d s ≡ (err (Error.object_store_error Code.finalized), s)
unfolding write_chunk
write_chunk-final u k d i s final there = ground arith

-- Where the digest is never the empty string: once an object is finalized, every later chunk is
-- refused as FINALIZED and changes nothing, and finalizing again answers the same and changes nothing.
pub finalized_is_frozen :
    (hex : Bytes → Str) (u k : ℕ) (d : Bytes) (i : ObjectInfo) (s : Store)
    → ((b : Bytes) → hex b ≢ [])
    → (finalize hex u s).0 ≡ ok i
    → (write_chunk u k d (finalize hex u s).1
        ≡ (err (Error.object_store_error Code.finalized), (finalize hex u s).1))
      × (finalize hex u (finalize hex u s).1 ≡ (ok i, (finalize hex u s).1))
finalized_is_frozen hex u k d i s digest good =
    let (final, there) = finalize-cases hex u i s digest good in
    let s1 = (finalize hex u s).1 in
    (write_chunk-final u k d i s1 final there, finalize-final hex u i s1 final there)

-- Finalizing an object that is not final succeeds only where its file has the declared size; then the
-- integrity that it answers with and stores is the digest of that file, which it leaves as it is.
finalize-integrity :
    (hex : Bytes → Str) (u : ℕ) (i j : ObjectInfo) (s : Store)
    → info u s.db ≡ ok i
    → is_final i ≡ false
    → (finalize hex u s).0 ≡ ok j
    → (b : Bytes) × (lookup u (finalize hex u s).1.files ≡ some b)
      × (length b ≡ j.file_size)
      × (j.content_integrity ≡ hex b)
      × (info u (finalize hex u s).1.db ≡ ok j)
unfolding finalize sealed
finalize-integrity hex u i j s there unsealed good = elim (Option-cases (lookup u s.files)) [
  | inl missing ↦ absurd (ground arith)
  | inr (b, file) ↦
      let (same, size, done, kept) = info-seal hex u i j b s there (ground arith) in
      (b, ground arith, ground arith, ground arith, ground arith)
]

-- The chunks from an index on, joined, as a reader fetches them.
unfoldable read_from : ℕ → ℕ → ℕ → ℕ → Store → Result Bytes
read_from u chunk_size index zero s = ok []
read_from u chunk_size index (suc n) s = read_chunk u index chunk_size s >>= λ b.
    read_from u chunk_size (suc index) n s >>= λ rest. ok (b ++ rest)

take-nil : (n : ℕ) → take {A = ℕ} n [] ≡ []
take-nil zero = refl
take-nil (suc n) = refl

drop-nil : (n : ℕ) → drop {A = ℕ} n [] ≡ []
drop-nil zero = refl
drop-nil (suc n) = refl

pub take-take-drop : (m n : ℕ) (b : Bytes) → take m b ++ take n (drop m b) ≡ take (m + n) b
take-take-drop zero n b = ground arith
take-take-drop (suc m) zero [] = ground (arith, take-nil (suc m + 0))
take-take-drop (suc m) (suc n) [] = ground (arith, take-nil (suc m + suc n))
take-take-drop (suc m) n (x ∷ b) =
    let moved : suc m + n ≡ suc (m + n) = omega arith in
    rw moved (ap (◌∷◌ x) (take-take-drop m n b))

pub drop-drop : (m n : ℕ) (b : Bytes) → drop m (drop n b) ≡ drop (n + m) b
drop-drop m zero b = ground arith
drop-drop zero (suc n) [] = ground (arith, drop-nil (suc n + 0))
drop-drop (suc m) (suc n) [] = ground (arith, drop-nil (suc n + suc m))
drop-drop m (suc n) (x ∷ b) =
    let moved : suc n + m ≡ suc (n + m) = omega arith in rw moved (drop-drop m n b)

take-long : (n : ℕ) (b : Bytes) → length b ≤ n → take n b ≡ b
take-long zero [] h = refl
take-long zero (x ∷ b) h = absurd (omega arith)
take-long (suc n) [] h = refl
take-long (suc n) (x ∷ b) h = ap (◌∷◌ x) (take-long n b (omega arith))

read_chunk-cut :
    (u size index : ℕ) (i : ObjectInfo) (b : Bytes) (s : Store)
    → info u s.db ≡ ok i
    → lookup u s.files ≡ some b
    → read_chunk u index size s ≡ ok (take size (drop (index * size) b))
unfolding read_chunk
read_chunk-cut u size index i b s there file = ground arith

read_from-cut :
    (u size index n : ℕ) (i : ObjectInfo) (b : Bytes) (s : Store)
    → info u s.db ≡ ok i
    → lookup u s.files ≡ some b
    → read_from u size index n s ≡ ok (take (n * size) (drop (index * size) b))
unfolding read_from
read_from-cut u size index zero i b s there file = ground arith
read_from-cut u size index (suc n) i b s there file =
    let rest = read_from-cut u size (suc index) n i b s there file in
    let joined = take-take-drop size (n * size) (drop (index * size) b) in
    let chunk = read_chunk-cut u size index i b s there file in
    ground (arith, rest, joined, chunk, drop-drop size (index * size) b)

-- For an object that is there with its file, reading enough chunks of any size from the first on, and
-- joining them, gives the whole file.
read_from-whole :
    (u size n : ℕ) (i : ObjectInfo) (b : Bytes) (s : Store)
    → info u s.db ≡ ok i
    → lookup u s.files ≡ some b
    → length b ≤ n * size
    → read_from u size 0 n s ≡ ok b
read_from-whole u size n i b s there file enough =
    ground (arith, read_from-cut u size 0 n i b s there file, take-long (n * size) b enough)
