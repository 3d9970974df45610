-- ===== src/Client/Api/Storing.antt =====
-- client/sih_client/api.py, server/sih_server/tunnel2.py and objects.py: the client's loops against the
-- server's handlers of chunks. The session between them, with its encryption, is left out: an answer
-- is what the handler replies, and an exception of the handler is an answer with an error.
use secupload.Base.{
  ℕ, suc, ◌*◌, ◌<◌, ◌≤◌, ◌≡◌, refl, arith, [], ◌∷◌, ◌++◌, take, drop, length, Bytes, none, some,
  inl, inr, ◌⊎◌, ==-refl, length-take, length-drop, ap, subst, sym,
}
use secupload.Base.Dict.{lookup, lookup-insert}
use secupload.Base.Result.{Result, ok, err, Error, Code, Result-cases}
use secupload.Codec.Utf8.{Str}
use secupload.Models.{ObjectInfo}
use secupload.Protocol.Messages.{RequestMessage, ResponseMessage, parse_response_message}
use secupload.Server.Authorization.{check_permission, read, write}
use secupload.Protocol.Codes.{Op, op_code}
use secupload.Server.Database.{record_event, EventType, AuditResult}
use secupload.Server.Objects.{
  Store, info, get_row, contents, append_file, write_chunk, read_chunk, seal, finalize,
}
use secupload.Server.Tunnel2.{
  Reply, error_response, answer_info, complete_chunk, chunk_permitted, handle_chunk,
  read_chunk_permitted, handle_read_chunk, handle_request,
}
use secupload.Client.Api.{write_loop, read_loop, chunk_size}
use secupload.Client.Api.Writing.{Appends, write_loop-delivers}
use secupload.Client.Api.Reading.{Serves, read_loop-whole}

-- What the client makes of a reply to a chunk.
abbrev response_to : Result Reply → Result ResponseMessage
response_to (ok (Reply.message b)) = parse_response_message b
response_to (ok (Reply.chunk u index text)) = err Error.protocol_error
response_to (err x) = ok (error_response [])

-- A chunk that the client sends is handled by the server's `_handle_obj_chunk`.
abbrev pub storing : (Bytes → Str) → ℕ → ℕ → ℕ → ℕ → Bytes → Store → Result ResponseMessage × Store
storing hex sender u turn index text s =
    let (r, s1) = handle_chunk hex sender u index text s in (response_to r, s1)

-- The bytes of an object's file.
abbrev pub stored : ℕ → Store → Bytes
stored u s = contents (lookup u s.files)

finalize-files : (hex : Bytes → Str) (u : ℕ) (s : Store) → (finalize hex u s).1.files ≡ s.files
unfolding finalize seal
finalize-files hex u s = ground arith

complete_chunk-files :
    (hex : Bytes → Str) (sender u : ℕ) (i : ObjectInfo) (s : Store)
    → (complete_chunk hex sender u i s).1.files ≡ s.files
unfolding complete_chunk answer_info
complete_chunk-files hex sender u i s = ground (arith, finalize-files hex u s)

write_chunk-appends :
    (u index : ℕ) (text : Bytes) (s : Store)
    → (write_chunk u index text s).0 ≡ ok tt
    → stored u (write_chunk u index text s).1 ≡ stored u s ++ text
unfolding write_chunk append_file
write_chunk-appends u index text s done =
    ground (arith, lookup-insert u u (contents (lookup u s.files) ++ text) s.files, ==-refl u)

-- A chunk whose handler replies has been appended to the object's file.
handle_chunk-appends :
    (hex : Bytes → Str) (sender u index : ℕ) (text : Bytes) (s : Store) (reply : Reply)
    → (handle_chunk hex sender u index text s).0 ≡ ok reply
    → stored u (handle_chunk hex sender u index text s).1 ≡ stored u s ++ text
unfolding handle_chunk chunk_permitted
handle_chunk-appends hex sender u index text s reply done =
    let s1 = (write_chunk u index text s).1 in
    elim (Result-cases (check_permission s.db sender u write)) [
      | inr (x, denied) ↦ absurd (ground arith)
      | inl (_, granted) ↦ elim (Result-cases (write_chunk u index text s).0) [
        | inr (x, refused) ↦ absurd (ground arith)
        | inl (_, written) ↦ elim (Result-cases (info u s1.db)) [
          | inr (x, gone) ↦ absurd (ground arith)
          | inl (i, there) ↦
              let kept = complete_chunk-files hex sender u i s1 in
              let grown = write_chunk-appends u index text s written in ground (arith, kept, grown)
        ]
      ]
    ]

storing-Appends : (hex : Bytes → Str) (sender u : ℕ) → Appends (storing hex sender u) (stored u)
unfolding error_response
storing-Appends hex sender u = record {
  appended = λ turn index text s response answered accepted.
      elim (Result-cases (handle_chunk hex sender u index text s).0) [
        | inl (reply, done) ↦ handle_chunk-appends hex sender u index text s reply done
        | inr (x, raised) ↦ absurd (ground arith)
      ];
}

-- The loop of a write against the server's handler of chunks ends, on a fuel of one more than the bytes
-- to write, whatever the server's tables hold: either it returns, and the object's file has got the
-- whole content, in order, after what it had; or it ends in an exception.
pub write_loop-stores :
    (hex : Bytes → Str) (sender u turn : ℕ) (data_ : Bytes) (s : Store)
    → (o : Result (Unit {0}) × Store) × (write_loop
          (storing hex sender u)
          (suc (length data_))
          turn
          data_
          0
          s
        ≡ some o)
      × (((o.0 ≡ ok tt) × (stored u o.1 ≡ stored u s ++ data_)) ⊎ ((x : Error) × (o.0 ≡ err x)))
write_loop-stores hex sender u turn data_ s =
    let (o, ended, whole) =
      write_loop-delivers (storing hex sender u) (stored u) turn data_ s
        (storing-Appends hex sender u) in
    elim (Result-cases o.0) [
      | inl (_, returned) ↦ (o, ended, inl (returned, whole returned))
      | inr (x, raised) ↦ (o, ended, inr (x, raised))
    ]

-- What the client makes of a reply to a request for a chunk.
abbrev chunk_of : Result Reply → Result Bytes
chunk_of (ok (Reply.chunk u index text)) = ok text
chunk_of (ok (Reply.message b)) = err (Error.client_error Code.chunk_read_rejected)
chunk_of (err x) = err (Error.client_error Code.chunk_read_rejected)

-- The request of a chunk: its index travels as the file size.
abbrev chunk_request : ℕ → ℕ → RequestMessage
chunk_request u index = record {
  op = op_code Op.read_chunk;
  object_uuid = some u;
  file_type = [];
  file_size = index;
  metadata = [];
}

-- A chunk that the client asks for is read by the server's `_dispatch`.
abbrev pub fetching_from : (ℕ → Str) → Str → ℕ → ℕ → ℕ → ℕ → Store → Result Bytes × Store
fetching_from path unknown sender u turn index s =
    let (r, s1) = handle_request path unknown sender (chunk_request u index) s in (chunk_of r, s1)

-- The object is registered with a file, and the sender may read it.
pub record Readable (sender u : ℕ) (file : Bytes) (s : Store) : Type 0 where
  pub permitted : check_permission s.db sender u read ≡ ok tt
  pub object : ObjectInfo
  pub registered : info u s.db ≡ ok object
  pub kept : lookup u s.files ≡ some file

long_chunk :
    (index : ℕ) (file : Bytes)
    → index * chunk_size < length file
    → 1 ≤ length (take chunk_size (drop (index * chunk_size) file))
long_chunk index file inside = omega (
  arith,
  length-take chunk_size (drop (index * chunk_size) file),
  length-drop (index * chunk_size) file,
  inside,
)

read_chunk_permitted-gives :
    (sender u index : ℕ) (text : Bytes) (s : Store)
    → read_chunk u index chunk_size s ≡ ok text
    → 1 ≤ length text
    → read_chunk_permitted sender u index s ≡ (
      ok (Reply.chunk u index text),
      record s { db = record_event EventType.object_access sender none AuditResult.granted s.db },
    )
unfolding read_chunk_permitted
read_chunk_permitted-gives sender u index [] s got long = absurd (omega arith)
read_chunk_permitted-gives sender u index (b ∷ bs) s got long = rw (read_chunk_permitted, got) refl

fetching_from-gives :
    (path : ℕ → Str) (unknown : Str) (sender u turn index : ℕ) (file : Bytes) (s : Store)
    → Readable sender u file s
    → index * chunk_size < length file
    → fetching_from path unknown sender u turn index s ≡ (
      ok (take chunk_size (drop (index * chunk_size) file)),
      record s { db = record_event EventType.object_access sender none AuditResult.granted s.db },
    )
unfolding handle_request handle_read_chunk read_chunk
fetching_from-gives path unknown sender u turn index file s ready inside =
    let text = take chunk_size (drop (index * chunk_size) file) in
    let got : read_chunk u index chunk_size s ≡ ok text =
      ground (arith, ready.registered, ready.kept) in
    rw
      (
        handle_request,
        handle_read_chunk,
        ready.permitted,
        read_chunk_permitted-gives sender u index text s got (long_chunk index file inside),
      )
      refl

-- An audit record takes nothing away.
Readable-audited :
    (sender u : ℕ) (file : Bytes) (s : Store)
    → Readable sender u file s
    → Readable sender u file (record s {
      db = record_event EventType.object_access sender none AuditResult.granted s.db;
    })
unfolding record_event check_permission info get_row
Readable-audited sender u file s ready = record {
  permitted = ready.permitted;
  object = ready.object;
  registered = ready.registered;
  kept = ready.kept;
}

fetching_from-Serves :
    (path : ℕ → Str) (unknown : Str) (sender u : ℕ) (file : Bytes)
    → Serves (fetching_from path unknown sender u) (Readable sender u file) file
fetching_from-Serves path unknown sender u file = record {
  served = λ turn index s ready inside.
      let gives = fetching_from-gives path unknown sender u turn index file s ready inside in
      (
        ap (λ p. p.0) gives,
        subst (λ p. Readable sender u file p.1) (sym gives)
            (Readable-audited sender u file s ready),
      );
}

-- The loop of a read against the server's handler of requests, on an object that is registered with a
-- file and that the sender may read, gives the whole file where the announced size is the file's,
-- on a fuel of one more than its size.
pub read_loop-restores :
    (path : ℕ → Str) (unknown : Str) (sender u turn : ℕ) (file : Bytes) (s : Store)
    → Readable sender u file s
    → (s1 : Store) × (read_loop
          (fetching_from path unknown sender u)
          (suc (length file))
          turn
          (length file)
          []
          0
          s
        ≡ some (ok file, s1))
read_loop-restores path unknown sender u turn file s ready =
    read_loop-whole (fetching_from path unknown sender u) (Readable sender u file) file turn s
      (fetching_from-Serves path unknown sender u file) ready
