-- ===== src/Successor.antt =====
-- shared/sih_shared/credential_state.py, first part: the canonical payload that a credential signs to
-- authorize its successor.
use secupload.Base.{
  ℕ, ◌≡◌, refl, [], ◌∷◌, Bytes, Option, none, some, if◌then◌else◌, Bool, true, false, ◌==◌, ◌&&◌,
}
use secupload.Base.Result.{Result, ok, err, Error, Code}
use secupload.Codec.Encoder
use secupload.Codec.Encoder.{◌≫◌}
use secupload.Codec.Decoder
use secupload.Codec.Decoder.{Decoder, ◌>>=◌, ◌>>◌, pure}
use secupload.Codec.Mirrors.{
  Mirrors-then, Mirrors-last, Mirrors-check, decode-finish, u32-Mirrors, bytes-Mirrors,
  uuid-Mirrors,
}

-- `b"SIH-SUCC-1"`
abbrev successor_tag : Bytes
successor_tag = b'S' ∷ b'I' ∷ b'H' ∷ b'-' ∷ b'S' ∷ b'U' ∷ b'C' ∷ b'C' ∷ b'-' ∷ b'1' ∷ []

-- `==` on byte strings
abbrev pub bytes_eq : Bytes → Bytes → Bool
bytes_eq [] [] = true
bytes_eq (a ∷ as') (b ∷ bs) = a == b && bytes_eq as' bs
bytes_eq _ _ = false

-- `dec.uuid_() or uuid.UUID(int=0)`
abbrev pub or_nil_uuid : Option ℕ → ℕ
or_nil_uuid none = 0
or_nil_uuid (some u) = u

-- What the parser returns, in its order.
pub record SuccessorPayload : Type 0 where
  pub identity_uuid : ℕ
  pub old_version : ℕ
  pub new_version : ℕ
  pub new_ed25519_public : Bytes
  pub new_x25519_public : Bytes
  pub transition_metadata : Bytes

unfoldable pub encode_successor_payload : ℕ → ℕ → ℕ → Bytes → Bytes → Bytes → Result Bytes
encode_successor_payload identity_uuid old_version new_version ed25519 x25519 metadata =
    Encoder.finish (
      Encoder.bytes_ successor_tag
      ≫ Encoder.uuid_ (some identity_uuid)
      ≫ Encoder.u32 old_version
      ≫ Encoder.u32 new_version
      ≫ Encoder.bytes_ ed25519
      ≫ Encoder.bytes_ x25519
      ≫ Encoder.bytes_ metadata)

-- `if tag != SUCCESSOR_TAG: raise`
unfoldable check_tag : Bytes → Decoder (Unit {0})
check_tag tag src =
    if bytes_eq tag successor_tag then ok (tt, src) else err (Error.rotation_error Code.bad_tag)

unfoldable successor_fields : Decoder SuccessorPayload
successor_fields = do
  identity ← Decoder.uuid_
  old ← Decoder.u32
  new ← Decoder.u32
  ed ← Decoder.bytes_
  x ← Decoder.bytes_
  metadata ← Decoder.bytes_
  pure (record {
    identity_uuid = or_nil_uuid identity;
    old_version = old;
    new_version = new;
    new_ed25519_public = ed;
    new_x25519_public = x;
    transition_metadata = metadata;
  })

unfoldable pub parse_successor_payload : Bytes → Result SuccessorPayload
unfolding successor_fields check_tag
parse_successor_payload =
    Decoder.decode (do tag ← Decoder.bytes_; _ ← check_tag tag; successor_fields)

-- A successor payload that can be encoded, the bytes that the old credential signs, is parsed back to
-- the identity, versions, keys and metadata that went in.
successor_round_trip :
    (identity old new : ℕ) (ed x metadata src : Bytes)
    → encode_successor_payload identity old new ed x metadata ≡ ok src
    → parse_successor_payload src
      ≡ ok (record {
        identity_uuid = identity;
        old_version = old;
        new_version = new;
        new_ed25519_public = ed;
        new_x25519_public = x;
        transition_metadata = metadata;
      })
unfolding encode_successor_payload parse_successor_payload
successor_round_trip identity old new ed x metadata src h =
    decode-finish
      (Mirrors-then _ (bytes-Mirrors successor_tag) (
        Mirrors-check (λ src. refl)
          (Mirrors-then _ (uuid-Mirrors (some identity)) (
            Mirrors-then _ (u32-Mirrors old) (
              Mirrors-then _ (u32-Mirrors new) (
                Mirrors-then _ (bytes-Mirrors ed)
                  (Mirrors-then _ (bytes-Mirrors x) (Mirrors-last _ (bytes-Mirrors metadata)))))))))
      h
