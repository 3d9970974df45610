-- ===== src/Codec/Sizes.antt =====
-- How many bytes an encoder appends.
use secupload.Base.{ℕ, ◌+◌, ◌≡◌, arith, ◌++◌, length, length-append, Bytes}
use secupload.Base.Int.{ℤ}
use secupload.Base.Result.{Result, ok, >>=-eq-ok, ok-injective}
use secupload.Codec.Digits.{length-to_bytes, to_signed}
use secupload.Codec.Encoder
use secupload.Codec.Encoder.{Encoder, ◌≫◌}

-- An encoder that appends a fixed number of bytes.
pub record Sized (e : Encoder) (n : ℕ) : Type 0 where
  pub size : (buf out : Bytes) → e buf ≡ ok out → length out ≡ length buf + n

pub Sized-then : {e f : Encoder} {n m : ℕ} → Sized e n → Sized f m → Sized (e ≫ f) (n + m)
unfolding ◌≫◌
Sized-then {e} {f} s t = record {
  size = λ buf out h.
      let (mid, hm, g) = >>=-eq-ok (e buf) f h in
      omega (arith, s.size buf mid hm, t.size mid out g);
}

pub Sized-write :
    (part : Result Bytes) (n : ℕ)
    → ((b : Bytes) → part ≡ ok b → length b ≡ n)
    → Sized (Encoder.write part) n
unfolding Encoder.write
Sized-write part n known = record {
  size = λ buf out h.
      let (b, hb, g) = >>=-eq-ok part (λ b. ok (buf ++ b)) h in
      rw (← ok-injective g) (omega (arith, length-append buf b, known b hb));
}

length-pack : (n v : ℕ) (b : Bytes) → Encoder.pack n v ≡ ok b → length b ≡ n
unfolding Encoder.pack
length-pack n v b h = ground (arith, length-to_bytes n v)

length-pack_i64 : (v : ℤ) (b : Bytes) → Encoder.pack_i64 v ≡ ok b → length b ≡ 8
unfolding Encoder.pack_i64
length-pack_i64 v b h = ground (arith, length-to_bytes 8 (to_signed v))

length-uuid_bytes : (u : ℕ) (b : Bytes) → Encoder.uuid_bytes u ≡ ok b → length b ≡ 16
unfolding Encoder.uuid_bytes
length-uuid_bytes u b h = ground (arith, length-to_bytes 16 u)

pub u8-Sized : (v : ℕ) → Sized (Encoder.u8 v) 1
unfolding Encoder.u8
u8-Sized v = Sized-write (Encoder.pack 1 v) 1 (length-pack 1 v)

pub u32-Sized : (v : ℕ) → Sized (Encoder.u32 v) 4
unfolding Encoder.u32
u32-Sized v = Sized-write (Encoder.pack 4 v) 4 (length-pack 4 v)

pub i64-Sized : (v : ℤ) → Sized (Encoder.i64 v) 8
unfolding Encoder.i64
i64-Sized v = Sized-write (Encoder.pack_i64 v) 8 (length-pack_i64 v)

pub uuid-Sized : (u : ℕ) → Sized (Encoder.write (Encoder.uuid_bytes u)) 16
uuid-Sized u = Sized-write (Encoder.uuid_bytes u) 16 (length-uuid_bytes u)
