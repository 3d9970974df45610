-- ===== src/Codec/Encoder.antt =====
-- The class `Encoder`: each method appends to the buffer, or raises.
use secupload.Base.{
  ℕ, ◌^◌, ltb, if◌then◌else◌, [], ◌∷◌, ◌++◌, length, replicate, Bytes, Option, none, some,
}
use secupload.Base.Int.{ℤ}
use secupload.Base.Result.{Result, ok, err, Error, ◌>>=◌}
use secupload.Codec.Digits.{to_bytes, to_signed, fits_i64}
use secupload.Codec.Utf8
use secupload.Codec.Utf8.{Str}

-- A call on the encoder: from `_buf` to the longer `_buf`.
abbrev pub Encoder : Type 0
Encoder = Bytes → Result Bytes

-- `enc.a(…).b(…)`
infixr 20 ◌≫◌
unfoldable pub ◌≫◌ : Encoder → Encoder → Encoder
◌≫◌ e f buf = e buf >>= f

-- `struct.pack` of an unsigned format of `n` bytes raises out of range.
unfoldable pub pack : ℕ → ℕ → Result Bytes
pack n v = if ltb v (256 ^ n) then ok (to_bytes n v) else err Error.struct_error

unfoldable pub write : Result Bytes → Encoder
write part buf = part >>= λ b. ok (buf ++ b)

unfoldable pub u8 : ℕ → Encoder
unfolding pack write
u8 v = write (pack 1 v)

unfoldable pub u16 : ℕ → Encoder
unfolding pack write
u16 v = write (pack 2 v)

unfoldable pub u32 : ℕ → Encoder
unfolding pack write
u32 v = write (pack 4 v)

unfoldable pub u64 : ℕ → Encoder
unfolding pack write
u64 v = write (pack 8 v)

-- The format q.
unfoldable pub pack_i64 : ℤ → Result Bytes
pack_i64 v = if fits_i64 v then ok (to_bytes 8 (to_signed v)) else err Error.struct_error

unfoldable pub i64 : ℤ → Encoder
unfolding pack_i64 write
i64 v = write (pack_i64 v)

unfoldable pub bytes_ : Bytes → Encoder
unfolding u32 ◌≫◌
bytes_ b = u32 (length b) ≫ λ buf. ok (buf ++ b)

unfoldable pub str_ : Str → Encoder
unfolding bytes_
str_ s buf = Utf8.encode s >>= λ b. bytes_ b buf

-- A `uuid.UUID` is its 128-bit number; `uuid.UUID` refuses any other.
unfoldable pub uuid_bytes : ℕ → Result Bytes
uuid_bytes u = if ltb u (256 ^ 16) then ok (to_bytes 16 u) else err Error.value_error

unfoldable pub uuid_ : Option ℕ → Encoder
unfolding uuid_bytes
uuid_ none buf = ok (buf ++ 0 ∷ replicate 16 0)
uuid_ (some u) buf = uuid_bytes u >>= λ b. ok (buf ++ 1 ∷ b)

unfoldable pub finish : Encoder → Result Bytes
finish e = e []

-- `encode_uuid_optional`
unfoldable encode_uuid_optional : Option ℕ → Result Bytes
unfolding uuid_ finish
encode_uuid_optional u = finish (uuid_ u)
