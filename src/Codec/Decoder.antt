-- ===== src/Codec/Decoder.antt =====
-- The class `Decoder`: the state is what `_data` holds from `_off` on. The program always starts at
-- offset 0 and reads the offset only through `remaining`, the length of that rest.
use secupload.Base.{
  ℕ, ltb, ◌==◌, if◌then◌else◌, Bool, length, take, drop, Bytes, Option, none, some,
}
use secupload.Base.Int.{ℤ}
use secupload.Base.Result
use secupload.Base.Result.{Result, ok, err, Error}
use secupload.Codec.Digits.{from_bytes, of_signed}
use secupload.Codec.Utf8
use secupload.Codec.Utf8.{Str}

abbrev pub Decoder : Type 0 → Type 0
Decoder A = Bytes → Result (A × Bytes)

infixl 5 ◌>>=◌ ◌>>◌
unfoldable pub ◌>>=◌ : {A B : Type 0} → Decoder A → (A → Decoder B) → Decoder B
◌>>=◌ m f src = elim (m src) [ ok (a, rest) ↦ f a rest | err e ↦ err e ]

unfoldable pub ◌>>◌ : {A B : Type 0} → Decoder A → Decoder B → Decoder B
unfolding ◌>>=◌
m >> k = m >>= λ _. k

unfoldable pub pure : {A : Type 0} → A → Decoder A
pure a src = ok (a, src)

unfoldable pub lift : {A : Type 0} → Result A → Decoder A
lift r src = Result.◌>>=◌ r (λ a. ok (a, src))

abbrev remaining : Bytes → ℕ
remaining = length

-- `_take`
unfoldable pub take_bytes : ℕ → Decoder Bytes
take_bytes n src =
    if ltb (remaining src) n then err Error.decode_error else ok (take n src, drop n src)

unfoldable pub u8 : Decoder ℕ
unfolding take_bytes ◌>>=◌ pure
u8 = do b ← take_bytes 1; pure (from_bytes b)

unfoldable pub u16 : Decoder ℕ
unfolding take_bytes ◌>>=◌ pure
u16 = do b ← take_bytes 2; pure (from_bytes b)

unfoldable pub u32 : Decoder ℕ
unfolding take_bytes ◌>>=◌ pure
u32 = do b ← take_bytes 4; pure (from_bytes b)

unfoldable pub u64 : Decoder ℕ
unfolding take_bytes ◌>>=◌ pure
u64 = do b ← take_bytes 8; pure (from_bytes b)

unfoldable pub i64 : Decoder ℤ
unfolding take_bytes ◌>>=◌ pure
i64 = do b ← take_bytes 8; pure (of_signed (from_bytes b))

unfoldable pub bytes_ : Decoder Bytes
unfolding u32 take_bytes ◌>>=◌
bytes_ = do n ← u32; take_bytes n

unfoldable pub str_ : Decoder Str
unfolding bytes_ ◌>>=◌ lift
str_ = do b ← bytes_; lift (Utf8.decode b)

-- A flag other than 0 announces a UUID.
unfoldable pub uuid_of : ℕ → Bytes → Option ℕ
uuid_of flag b = if flag == 0 then none else some (from_bytes b)

unfoldable pub uuid_ : Decoder (Option ℕ)
unfolding u8 take_bytes ◌>>=◌ pure uuid_of
uuid_ = do flag ← u8; b ← take_bytes 16; pure (uuid_of flag b)

unfoldable pub eof : Bytes → Bool
eof src = remaining src == 0

-- `if not dec.eof(): raise e`
unfoldable pub expect_eof : Error → Decoder (Unit {0})
unfolding eof
expect_eof e src = if eof src then ok (tt, src) else err e

-- `Decoder(data)` with the reads that follow; what is left unread is forgotten.
unfoldable pub decode : {A : Type 0} → Decoder A → Bytes → Result A
decode d src = elim (d src) [ ok (a, rest) ↦ ok a | err e ↦ err e ]
