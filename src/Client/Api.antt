-- ===== src/Client/Api.antt =====
-- client/sih_client/api.py: an object is written and read chunk by chunk. The loops run on fuel, `none`
-- being out of it; the session's calls are `request`, `send_chunk` and `request_chunk`, each with its
-- own draws.
pub mod Writing
pub mod Reading
pub mod Storing
use secupload.Base.{
  ℕ, zero, suc, ◌+◌, ◌*◌, ◌/◌, ◌==◌, ltb, not, if◌then◌else◌, Bool, true, false, List, [], ◌∷◌,
  ◌++◌, take, drop, length, Bytes, Option, none, some,
}
use secupload.Base.Result.{Result, ok, err, Error, Code}
use secupload.Codec.Utf8.{Str}
use secupload.Protocol.Codes.{Op, op_code, RespStatus, resp_code}
use secupload.Protocol.Messages.{RequestMessage, ResponseMessage}
use secupload.Successor.{bytes_eq}
use secupload.Client.Identity.{Setting}
use secupload.Client.Session
use secupload.Client.Session.{Session, Draws}

abbrev pub chunk_size : ℕ
chunk_size = 64 * 1024

abbrev raise : {A : Type 0} → Code → Result A
raise c = err (Error.client_error c)

-- `response.status != RespStatus.OK`
abbrev pub is_ok : ResponseMessage → Bool
is_ok response = response.status == resp_code RespStatus.success

-- The request of a read.
abbrev pub read_request : ℕ → RequestMessage
read_request object = record {
  op = op_code Op.read;
  object_uuid = some object;
  file_type = [];
  file_size = 0;
  metadata = [];
}

-- The loops over any transport: the number of the call, what it carries, and the transport's state.
module _ {S : Type 0} (send : ℕ → ℕ → Bytes → S → Result ResponseMessage × S) where
  -- `while index < len(data)`: `index` counts bytes.
  unfoldable pub write_loop : ℕ → ℕ → Bytes → ℕ → S → Option (Result (Unit {0}) × S)
  write_loop zero turn data_ index s = none
  write_loop (suc fuel) turn data_ index s = elim (ltb index (length data_)) [
    | false ↦ some (ok tt, s)
    | true ↦
        let (r, s1) = send turn (index / chunk_size) (take chunk_size (drop index data_)) s in
        elim r [
          | err x ↦ some (err x, s1)
          | ok response ↦ elim (is_ok response) [
            | false ↦ some (raise Code.chunk_rejected, s1)
            | true ↦ write_loop fuel (suc turn) data_ (index + chunk_size) s1
          ]
        ]
  ]

module _ {S : Type 0} (fetch : ℕ → ℕ → S → Result Bytes × S) where
  -- `while len(data) < size`: `content` is what has come.
  unfoldable pub read_loop : ℕ → ℕ → ℕ → Bytes → ℕ → S → Option (Result Bytes × S)
  read_loop zero turn size content index s = none
  read_loop (suc fuel) turn size content index s = elim (ltb (length content) size) [
    | false ↦ some (ok content, s)
    | true ↦
        let (r, s1) = fetch turn index s in
        elim r [
          | err x ↦ some (err x, s1)
          | ok [] ↦ some (ok content, s1)
          | ok (b ∷ bs) ↦ read_loop fuel (suc turn) size (content ++ (b ∷ bs)) (suc index) s1
        ]
  ]

-- `if expected`: the digest of what came is compared with the one that the server gave.
unfoldable pub check_integrity : (Bytes → Str) → Str → Bytes → Result Bytes
check_integrity hex [] content = ok content
check_integrity hex (x ∷ xs) content =
    if bytes_eq (hex content) (x ∷ xs) then ok content else raise Code.integrity_failure

-- The end of `read_object`.
unfoldable pub checked : {S : Type 0} → (Bytes → Str) → Str → Result Bytes × S → Result Bytes × S
unfolding check_integrity
checked hex expected (err x, s) = (err x, s)
checked hex expected (ok content, s) = (check_integrity hex expected content, s)

abbrev map_outcome : {A B : Type 0} → (A → B) → Option A → Option B
map_outcome f none = none
map_outcome f (some a) = some (f a)

-- `hex` is the hexadecimal form of SHA-256; call 0 is the request, call n + 1 the n-th of the loop.
module _ (cfg : Setting) (hex : Bytes → Str) (draws : ℕ → Draws) where
  abbrev sending : ℕ → ℕ → ℕ → Bytes → Session → Result ResponseMessage × Session
  sending object turn index text = Session.send_chunk cfg (draws turn) object index text

  abbrev pub fetching : ℕ → ℕ → ℕ → Session → Result Bytes × Session
  fetching object turn index = Session.request_chunk cfg (draws turn) object index

  unfoldable pub write_object :
      ℕ → ℕ → Str → Bytes → Str → Session → Option (Result (Unit {0}) × Session)
  unfolding write_loop
  write_object fuel object file_type data_ metadata s =
      let (r, s1) =
        Session.request cfg (draws 0)
          (record {
            op = op_code Op.write;
            object_uuid = some object;
            file_type = file_type;
            file_size = length data_;
            metadata = metadata;
          })
          s in
      elim r [
        | err x ↦ some (err x, s1)
        | ok response ↦ elim (is_ok response) [
          | false ↦ some (raise Code.write_rejected, s1)
          | true ↦ write_loop (sending object) fuel 1 data_ 0 s1
        ]
      ]

  unfoldable pub read_object : ℕ → ℕ → Session → Option (Result Bytes × Session)
  unfolding read_loop checked
  read_object fuel object s =
      let (r, s1) = Session.request cfg (draws 0) (read_request object) s in
      elim r [
        | err x ↦ some (err x, s1)
        | ok response ↦ elim (is_ok response) [
          | false ↦ some (raise Code.read_rejected, s1)
          | true ↦
              map_outcome (checked hex response.content_integrity)
                (read_loop (fetching object) fuel 1 response.file_size [] 0 s1)
        ]
      ]

  -- `read_chunk_content`
  unfoldable read_chunk_content : ℕ → ℕ → Session → Result Bytes × Session
  read_chunk_content object index s = Session.request_chunk cfg (draws 0) object index s
