-- ===== src/Examples/Loops.antt =====
-- Runs of the client's loops, of a chunk's nonce, and of the proxy.
use secupload.Base.{
  Option, ℕ, ◌^◌, ◌<◌, ◌≡◌, ◌≢◌, ◌⊎◌, ◌↔◌, refl, arith, true, none, some, [], ◌∷◌, Bytes, List,
  length, All,
}
use secupload.Base.Int.{pos}
use secupload.Base.Result.{Result, ok, err, Error, ◌>>=◌}
use secupload.Crypto.{chunk_nonce}
use secupload.Crypto.Nonces.{chunk_nonce_unique}
use secupload.Framing.{send_frame}
use secupload.Protocol.Entries.{RegistryEntry}
use secupload.Protocol.Envelope
use secupload.Protocol.Envelope.{Envelope, parse_envelope}
use secupload.Client.Api.{write_loop, read_loop, read_object}
use secupload.Client.Api.Storing.{
  storing, stored, write_loop-stores, fetching_from, Readable, read_loop-restores,
}
use secupload.Client.Api.Reading.{read_object-IsChecked, IsChecked}
use secupload.Server.Authorization.{allow, read, write, check_permission, is_for}
use secupload.Server.Database.{PermissionRow, find}
use secupload.Protocol.Messages.{ResponseMessage, encode_response_message}
use secupload.Server.Connection.Relay.{reply_envelope}
use secupload.Server.Tunnel2.{Reply}
use secupload.Server.Objects.{Store, info, get_row, row_to_info}
use secupload.Codec.Utf8.{Str}
use secupload.Client.Session.{Session}
use secupload.Proxy.{RegistryCache, entry, check, pump}
use secupload.Proxy.Newest.{AtMost, In, Admitted, entry-newest, check-ok_iff}
use secupload.Proxy.Relay.{AllAccepted, pump-forwards}
use secupload.Examples.Connection
use secupload.Examples.Client.{setting, draws, session, request, answered_client}
use secupload.Examples.Data.{prim, bytes_of, second}

-- A store with an object of seven bytes, three of which have come, and with the sender's permissions.
abbrev permission : Str → PermissionRow
permission operation = record {
  client_uuid = 7;
  object_uuid = 77;
  operation = operation;
  policy = allow;
}

abbrev store : Store
store = record {
  files = (77, 5 ∷ 6 ∷ 7 ∷ []) ∷ [];
  db = record {
    clients = 7 ∷ [];
    proxies = [];
    credentials = [];
    permissions = permission read ∷ permission write ∷ [];
    objects =
        (record {
          object_uuid = 77;
          file_type = [];
          file_size = 7;
          object_metadata = [];
          content_integrity = [];
          storage_reference = [];
        })
        ∷ [];
    audit_events = [];
    enrollment_tokens = [];
    wall_clock = 100;
  };
}

write_loop-stores_example :
    (o : Result (Unit {0}) × Store) × (write_loop
        (storing (λ b. b) 7 77)
        5
        1
        (8 ∷ 9 ∷ 1 ∷ 2 ∷ [])
        0
        store
      ≡ some o)
    × (((o.0 ≡ ok tt) × (stored 77 o.1 ≡ 5 ∷ 6 ∷ 7 ∷ 8 ∷ 9 ∷ 1 ∷ 2 ∷ []))
        ⊎ ((x : Error) × (o.0 ≡ err x)))
write_loop-stores_example = write_loop-stores (λ b. b) 7 77 1 (8 ∷ 9 ∷ 1 ∷ 2 ∷ []) store

store-Readable : Readable 7 77 (5 ∷ 6 ∷ 7 ∷ []) store
unfolding check_permission info get_row row_to_info find is_for
store-Readable = record {
  permitted = refl;
  object = record {
    object_uuid = 77;
    file_type = [];
    file_size = 7;
    metadata = [];
    content_integrity = [];
    storage_reference = [];
  };
  registered = refl;
  kept = refl;
}

read_loop-restores_example :
    (s1 : Store) × (read_loop (fetching_from (λ u. []) [] 7 77) 4 1 3 [] 0 store
      ≡ some (ok (5 ∷ 6 ∷ 7 ∷ []), s1))
read_loop-restores_example =
    read_loop-restores (λ u. []) [] 7 77 1 (5 ∷ 6 ∷ 7 ∷ []) store store-Readable

abbrev the_index : ℕ
the_index = 4

abbrev nonce_four : Bytes
nonce_four = bytes_of (chunk_nonce 4)

made_four : chunk_nonce 4 ≡ ok nonce_four
unfolding chunk_nonce secupload.Codec.Digits.to_bytes
made_four = refl

chunk_nonce_unique_example : (length nonce_four ≡ 12) × (4 < 2 ^ 96) × (the_index ≡ 4)
chunk_nonce_unique_example = chunk_nonce_unique the_index 4 nonce_four made_four made_four

abbrev registered : ℕ → RegistryEntry
registered version = record {
  identity_uuid = 7;
  version = version;
  status = 2;
  ed25519_public = version ∷ [];
  x25519_public = version ∷ [];
  created_at = pos 0;
  validation_deadline = pos 0;
  activation_time = pos 0;
  expiration_time = pos 0;
}

abbrev cache : RegistryCache
cache = record { entries = registered 1 ∷ registered 3 ∷ registered 2 ∷ []; synced_at = 100 }

entry-newest_example :
    ((e : RegistryEntry) × (entry cache 7 ≡ some e)
      × In e cache.entries
      × (e.identity_uuid ≡ 7)
      × All (AtMost 7 e) cache.entries)
    ⊎ ((entry cache 7 ≡ none) × All (λ x. x.identity_uuid ≢ 7) cache.entries)
entry-newest_example = entry-newest cache 7

check-ok_iff_example : (check prim cache 110 1 (bytes_of (Envelope.encode request)) ≡ ok tt) ↔ (
    (env : Envelope) × (parse_envelope (bytes_of (Envelope.encode request)) ≡ ok env)
    × Admitted prim cache 110 env)
check-ok_iff_example =
    check-ok_iff prim cache 110 1 (bytes_of (Envelope.encode request)) (omega arith)

abbrev pieces : List Bytes
pieces = (0 ∷ 0 ∷ []) ∷ (0 ∷ 0 ∷ 1 ∷ 9 ∷ 1 ∷ []) ∷ []

pump-forwards_example :
    (frames : List Bytes) × (pump prim (λ turn. 110) (λ turn. true) (some cache) 9 0 pieces
      ≡ some frames)
    × AllAccepted prim (λ turn. 110) (λ turn. true) (some cache) 0 pieces frames
unfolding secupload.Framing.joined
pump-forwards_example =
    pump-forwards prim (λ turn. 110) (λ turn. true) (some cache) 9 0 pieces (omega arith)

-- A read of two bytes that the server answers: the announcement, with a digest, and then the chunk.
abbrev announced : ResponseMessage
announced = record {
  status = 0;
  message = [];
  object_uuid = some 77;
  file_type = [];
  file_size = 2;
  content_integrity = b'A' ∷ [];
  server_key_version = 0;
  server_ed25519_public = [];
  server_x25519_public = [];
  server_successor_signature = [];
  server_prev_version = 0;
}

abbrev answer_frame : Reply → Bytes
answer_frame reply = bytes_of (
    (reply_envelope Connection.setting Connection.draws reply request second answered_client
      Connection.world).0
    >>= Envelope.encode
    >>= send_frame 1)

abbrev served_session : Session
served_session = record session {
  inbound =
      answer_frame (Reply.message (bytes_of (encode_response_message announced)))
      ∷ answer_frame (Reply.chunk 77 0 (53 ∷ 54 ∷ []))
      ∷ [];
}

abbrev digest : Bytes → Str
digest b = b'A' ∷ []

abbrev outcome : Option (Result Bytes × Session) → Result Bytes
outcome none = ok []
outcome (some o) = o.0

abbrev the_read : Result Bytes
the_read = outcome (read_object setting digest (λ turn. draws) 3 77 served_session)

read_object-IsChecked_example :
    (fuel : ℕ) × (o : Result Bytes × Session) × (read_object setting digest
        (λ turn. draws)
        fuel
        77
        served_session
      ≡ some o)
    × IsChecked setting digest (λ turn. draws) 77 served_session o.0
read_object-IsChecked_example =
    read_object-IsChecked setting digest (λ turn. draws) 77 served_session
