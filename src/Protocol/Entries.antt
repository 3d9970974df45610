-- ===== src/Protocol/Entries.antt =====
-- The registry snapshot that the proxies synchronize: entries, and a counted list of them.
use secupload.Base.{
  ℕ, zero, suc, ◌≡◌, refl, List, [], ◌∷◌, Bytes, some, length, sym, ◌∙◌, append-nil,
}
use secupload.Base.Int.{ℤ, pos}
use secupload.Base.Result
use secupload.Base.Result.{Result, ok, Error, >>=-eq-ok, ok-injective}
use secupload.Codec.Decoder
use secupload.Codec.Decoder.{Decoder, ◌>>=◌, ◌>>◌, pure}
use secupload.Codec.Encoder
use secupload.Codec.Encoder.{Encoder, ◌≫◌}
use secupload.Codec.Mirrors.{
  Mirrors, Mirrors-then, Mirrors-last, decode-finish, Mirrors-then_all, Mirrors-last_eof,
  decode-finish_all, Mirrors-nested, u8-Mirrors, u32-Mirrors, i64-Mirrors, bytes-Mirrors,
  uuid-Mirrors,
}
use secupload.Models.{CredentialPublic, or_default}
use secupload.Protocol.Codes.{status_to_code}
use secupload.Successor.{or_nil_uuid}

pub record RegistryEntry : Type 0 where
  pub identity_uuid : ℕ
  pub version : ℕ
  pub status : ℕ
  pub ed25519_public : Bytes
  pub x25519_public : Bytes
  pub created_at : ℤ
  pub validation_deadline : ℤ
  pub activation_time : ℤ
  pub expiration_time : ℤ

unfoldable pub encode_registry_entry : RegistryEntry → Result Bytes
encode_registry_entry entry = Encoder.finish (
    Encoder.uuid_ (some entry.identity_uuid)
    ≫ Encoder.u32 entry.version
    ≫ Encoder.u8 entry.status
    ≫ Encoder.bytes_ entry.ed25519_public
    ≫ Encoder.bytes_ entry.x25519_public
    ≫ Encoder.i64 entry.created_at
    ≫ Encoder.i64 entry.validation_deadline
    ≫ Encoder.i64 entry.activation_time
    ≫ Encoder.i64 entry.expiration_time)

unfoldable pub parse_registry_entry : Bytes → Result RegistryEntry
parse_registry_entry = Decoder.decode (do
  identity ← Decoder.uuid_
  version ← Decoder.u32
  status ← Decoder.u8
  ed ← Decoder.bytes_
  x ← Decoder.bytes_
  created ← Decoder.i64
  deadline ← Decoder.i64
  activation ← Decoder.i64
  expiration ← Decoder.i64
  pure (record {
    identity_uuid = or_nil_uuid identity;
    version = version;
    status = status;
    ed25519_public = ed;
    x25519_public = x;
    created_at = created;
    validation_deadline = deadline;
    activation_time = activation;
    expiration_time = expiration;
  }))

-- The loop of `encode_registry_snapshot`.
unfoldable write_entries : List RegistryEntry → Encoder
write_entries [] buf = ok buf
write_entries (entry ∷ entries) buf =
    ((λ b. Result.◌>>=◌ (encode_registry_entry entry) (λ x. Encoder.bytes_ x b))
        ≫ write_entries entries)
      buf

unfoldable pub encode_registry_snapshot : List RegistryEntry → Result Bytes
unfolding write_entries
encode_registry_snapshot entries =
    Encoder.finish (Encoder.u32 (length entries) ≫ write_entries entries)

-- One round of the loop of `parse_registry_snapshot`, and the loop.
unfoldable read_entry : Decoder RegistryEntry
read_entry = do b ← Decoder.bytes_; Decoder.lift (parse_registry_entry b)

unfoldable read_entries : ℕ → Decoder (List RegistryEntry)
unfolding read_entry
read_entries zero = pure []
read_entries (suc n) = do entry ← read_entry; entries ← read_entries n; pure (entry ∷ entries)

unfoldable pub parse_registry_snapshot : Bytes → Result (List RegistryEntry)
unfolding read_entries
parse_registry_snapshot = Decoder.decode (do
  count ← Decoder.u32
  entries ← read_entries count
  _ ← Decoder.expect_eof Error.decode_error
  pure entries)

-- The wire entry of a credential: a missing time becomes 0.
unfoldable pub registry_entry_from_public : CredentialPublic → RegistryEntry
registry_entry_from_public cred = record {
  identity_uuid = cred.identity_uuid;
  version = cred.version;
  status = status_to_code cred.status;
  ed25519_public = cred.ed25519_public;
  x25519_public = cred.x25519_public;
  created_at = pos cred.created_at;
  validation_deadline = pos (or_default cred.validation_deadline 0);
  activation_time = pos (or_default cred.activation_time 0);
  expiration_time = pos (or_default cred.expiration_time 0);
}

entry_round_trip :
    (entry : RegistryEntry) (src : Bytes)
    → encode_registry_entry entry ≡ ok src
    → parse_registry_entry src ≡ ok entry
unfolding encode_registry_entry parse_registry_entry
entry_round_trip entry src h =
    decode-finish
      (Mirrors-then _ (uuid-Mirrors (some entry.identity_uuid)) (
        Mirrors-then _ (u32-Mirrors entry.version) (
          Mirrors-then _ (u8-Mirrors entry.status) (
            Mirrors-then _ (bytes-Mirrors entry.ed25519_public) (
              Mirrors-then _ (bytes-Mirrors entry.x25519_public) (
                Mirrors-then _ (i64-Mirrors entry.created_at) (
                  Mirrors-then _ (i64-Mirrors entry.validation_deadline) (
                    Mirrors-then _ (i64-Mirrors entry.activation_time)
                      (Mirrors-last _ (i64-Mirrors entry.expiration_time))))))))))
      h

entry-Mirrors :
    (entry : RegistryEntry)
    → Mirrors
        (λ b. Result.◌>>=◌ (encode_registry_entry entry) (λ x. Encoder.bytes_ x b))
        read_entry
        entry
unfolding read_entry
entry-Mirrors entry =
    Mirrors-nested (encode_registry_entry entry) parse_registry_entry entry (entry_round_trip entry)

nil-Mirrors : Mirrors (λ buf. ok buf) (pure {A = List RegistryEntry} []) []
unfolding pure
nil-Mirrors = record {
  part = λ buf out h. ([], sym (ok-injective h) ∙ sym (append-nil buf), λ rest. refl);
}

entries-Mirrors :
    (entries : List RegistryEntry)
    → Mirrors (write_entries entries) (read_entries (length entries)) entries
unfolding write_entries read_entries
entries-Mirrors [] = nil-Mirrors
entries-Mirrors (entry ∷ entries) =
    Mirrors-then _ (entry-Mirrors entry) (Mirrors-last _ (entries-Mirrors entries))

-- A snapshot that can be encoded, of any number of entries, is parsed back to the same entries in the
-- same order.
pub snapshot_round_trip :
    (entries : List RegistryEntry) (src : Bytes)
    → encode_registry_snapshot entries ≡ ok src
    → parse_registry_snapshot src ≡ ok entries
unfolding encode_registry_snapshot parse_registry_snapshot
snapshot_round_trip entries src h =
    decode-finish_all
      (Mirrors-then_all _ (u32-Mirrors (length entries))
        (Mirrors-last_eof Error.decode_error (λ x. x) (entries-Mirrors entries)))
      h
