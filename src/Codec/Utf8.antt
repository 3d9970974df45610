-- ===== src/Codec/Utf8.antt =====
-- Python's text: `str.encode("utf-8")` and `bytes.decode("utf-8")`, both strict. A text is the list of
-- its code points.
use secupload.Base.{
  ℕ, ◌+◌, ◌*◌, ◌/◌, ◌%◌, ◌-◌, ◌<◌, ◌≤◌, ◌≡◌, refl, arith, ltb, leb, ◌==◌, if◌then◌else◌, false,
  ◌&&◌, ◌||◌, List, [], ◌∷◌, ◌++◌, Bytes, Option, none, some,
}
use secupload.Base.Result.{Result, ok, err, Error, ◌>>=◌, >>=-eq-ok, ok-injective}

abbrev pub Str : Type 0
Str = List ℕ

-- One code point; surrogates cannot be encoded.
unfoldable pub encode_char : ℕ → Result Bytes
encode_char c =
    if ltb c 0x80
    then ok (c ∷ [])
    else if ltb c 0x800
    then ok ((0xc0 + c / 64) ∷ (0x80 + c % 64) ∷ [])
    else if (leb 0xd800 c && ltb c 0xe000) || leb 0x11_0000 c
    then err Error.unicode_error
    else if ltb c 0x1_0000
    then ok ((0xe0 + c / 4096) ∷ (0x80 + c / 64 % 64) ∷ (0x80 + c % 64) ∷ [])
    else ok
        ((0xf0 + c / 262144) ∷ (0x80 + c / 4096 % 64) ∷ (0x80 + c / 64 % 64) ∷ (0x80 + c % 64) ∷ [])

unfoldable pub encode : Str → Result Bytes
encode [] = ok []
encode (c ∷ s) = encode_char c >>= λ b. encode s >>= λ bs. ok (b ++ bs)

-- The decoder between two bytes: how many more the character has, its value so far, and the range
-- of the next byte.
pub record Pending : Type 0 where
  pub need : ℕ
  pub value : ℕ
  pub lo : ℕ
  pub hi : ℕ

abbrev pub start : Pending
start = record { need = 0; value = 0; lo = 0; hi = 0 }

unfoldable first_byte : ℕ → Option (Pending × Str)
first_byte b =
    if ltb b 0x80
    then some (start, b ∷ [])
    else if leb 0xc2 b && ltb b 0xe0
    then some (record { need = 1; value = b - 0xc0; lo = 0x80; hi = 0xbf }, [])
    else if leb 0xe0 b && ltb b 0xf0
    then some (
      record {
        need = 2;
        value = b - 0xe0;
        lo = if b == 0xe0 then 0xa0 else 0x80;
        hi = if b == 0xed then 0x9f else 0xbf;
      },
      [],
    )
    else if leb 0xf0 b && ltb b 0xf5
    then some (
      record {
        need = 3;
        value = b - 0xf0;
        lo = if b == 0xf0 then 0x90 else 0x80;
        hi = if b == 0xf4 then 0x8f else 0xbf;
      },
      [],
    )
    else none

unfoldable next_byte : Pending → ℕ → Option (Pending × Str)
next_byte p b =
    let v = p.value * 64 + (b - 0x80) in
    if leb p.lo b && leb b p.hi
    then if p.need == 1
      then some (start, v ∷ [])
      else some (record { need = p.need - 1; value = v; lo = 0x80; hi = 0xbf }, [])
    else none

unfoldable pub step : Pending → ℕ → Option (Pending × Str)
unfolding first_byte next_byte
step p b = if p.need == 0 then first_byte b else next_byte p b

unfoldable decode_from : Pending → Bytes → Result Str
unfolding step
decode_from p [] = if p.need == 0 then ok [] else err Error.unicode_error
decode_from p (b ∷ bs) = elim (step p b) [
  | none ↦ err Error.unicode_error
  | some (q, out) ↦ decode_from q bs >>= λ s. ok (out ++ s)
]

pub decode : Bytes → Result Str
unfolding decode_from
decode = decode_from start

>>=-ok : (r : Result Str) → (r >>= λ s. ok s) ≡ r
>>=-ok (ok s) = refl
>>=-ok (err e) = refl

-- A character's bytes, with the tests that chose them.
module _ (c : ℕ) (rest : Bytes) where
  abbrev Emits : Bytes → Type 0
  Emits b = decode_from start (b ++ rest) ≡ (decode_from start rest >>= λ s. ok (c ∷ s))

  Emits-one : c < 0x80 → Emits (c ∷ [])
  unfolding decode_from
  Emits-one h = ground arith

  Emits-two : 0x80 ≤ c → c < 0x800 → Emits ((0xc0 + c / 64) ∷ (0x80 + c % 64) ∷ [])
  unfolding decode_from
  Emits-two h k = ground arith

  Emits-three :
      0x800 ≤ c
      → c < 0x1_0000
      → (leb 0xd800 c && ltb c 0xe000) ≡ false
      → Emits ((0xe0 + c / 4096) ∷ (0x80 + c / 64 % 64) ∷ (0x80 + c % 64) ∷ [])
  unfolding decode_from
  Emits-three h k s = ground arith

  Emits-four :
      0x1_0000 ≤ c
      → c < 0x11_0000
      → Emits (
          (0xf0 + c / 262144)
          ∷ (0x80 + c / 4096 % 64)
          ∷ (0x80 + c / 64 % 64)
          ∷ (0x80 + c % 64)
          ∷ [])
  unfolding decode_from
  Emits-four h k = ground arith

decode-encode_char :
    (c : ℕ) (b rest : Bytes)
    → encode_char c ≡ ok b
    → decode_from start (b ++ rest) ≡ (decode_from start rest >>= λ s. ok (c ∷ s))
unfolding encode_char
decode-encode_char c b rest h =
    ground (arith, Emits-one c rest, Emits-two c rest, Emits-three c rest, Emits-four c rest)

decode_nil : decode_from start [] ≡ ok []
unfolding decode_from
decode_nil = refl

decode-encode_from : (s : Str) (b : Bytes) → encode s ≡ ok b → decode_from start b ≡ ok s
unfolding encode
decode-encode_from [] b h = rw (← ok-injective h) decode_nil
decode-encode_from (c ∷ s) b h =
    let (x, hx, k) = >>=-eq-ok (encode_char c) _ h in
    let (y, hy, e) = >>=-eq-ok (encode s) _ k in
    ground (arith, decode-encode_char c x y hx, decode-encode_from s y hy)

-- What was encoded is decoded.
pub decode-encode : (s : Str) {b : Bytes} → encode s ≡ ok b → decode b ≡ ok s
unfolding decode
decode-encode s {b} h = decode-encode_from s b h
