-- ===== src/Codec/Text.antt =====
-- What the key files hold in place of numbers and bytes: `str` and `int`, `bytes.hex` and `fromhex`, and
-- the text of a UUID. `int` is modelled on ASCII digits alone, which is what `str` writes.
pub mod Reading
use secupload.Base.{
  ℕ, zero, suc, ◌+◌, ◌*◌, ◌-◌, ◌/◌, ◌%◌, ◌==◌, ltb, leb, ◌&&◌, ◌||◌, if◌then◌else◌, Bool, true,
  false, List, [], ◌∷◌, ◌++◌, map, take, drop, length, Bytes,
}
use secupload.Base.Result.{Result, ok, err, Error, guard, ◌>>=◌, ◌>>◌}
use secupload.Codec.Digits.{to_bytes, from_bytes}
use secupload.Codec.Utf8.{Str}

-- The digits of a number, most significant first, on a fuel above the number.
unfoldable pub decimal : ℕ → ℕ → List ℕ
decimal zero n = []
decimal (suc fuel) n =
    let higher = decimal fuel (n / 10) in if ltb n 10 then n ∷ [] else higher ++ n % 10 ∷ []

abbrev pub digit_char : ℕ → ℕ
digit_char d = 48 + d

-- `str(n)`
unfoldable pub str_of : ℕ → Str
unfolding decimal
str_of n = map digit_char (decimal (suc n) n)

unfoldable pub digits_from : ℕ → Str → Result ℕ
digits_from acc [] = ok acc
digits_from acc (c ∷ cs) =
    let rest = digits_from (acc * 10 + (c - 48)) cs in
    if leb 48 c && leb c 57 then rest else err Error.value_error

-- `int(text)`
unfoldable pub int_of : Str → Result ℕ
unfolding digits_from
int_of [] = err Error.value_error
int_of (c ∷ cs) = digits_from 0 (c ∷ cs)

abbrev pub hex_char : ℕ → ℕ
hex_char d = if ltb d 10 then 48 + d else 87 + d

-- The value of a hexadecimal digit, of either case.
abbrev pub hex_value : ℕ → Result ℕ
hex_value c =
    if leb 48 c && leb c 57
    then ok (c - 48)
    else if leb 97 c && leb c 102
    then ok (c - 87)
    else if leb 65 c && leb c 70
    then ok (c - 55)
    else err Error.value_error

-- `b.hex()`
unfoldable pub to_hex : Bytes → Str
to_hex [] = []
to_hex (b ∷ bs) = hex_char (b / 16) ∷ hex_char (b % 16) ∷ to_hex bs

-- ASCII whitespace
abbrev pub is_space : ℕ → Bool
is_space c = (leb 9 c && leb c 13) || (c == 32)

-- `bytes.fromhex(text)`: whitespace may stand before a pair of digits and at the end.
unfoldable pub from_hex : Str → Result Bytes
from_hex [] = ok []
from_hex (c ∷ []) = if is_space c then ok [] else err Error.value_error
from_hex (c ∷ d ∷ cs) = elim (is_space c) [
  | true ↦ from_hex (d ∷ cs)
  | false ↦ hex_value c >>= λ high.
      hex_value d >>= λ low. from_hex cs >>= λ bs. ok ((high * 16 + low) ∷ bs)
]

-- Groups of characters with a dash after each, and the rest.
unfoldable pub dashed : List ℕ → Str → Str
dashed [] text = text
dashed (n ∷ ns) text = take n text ++ 45 ∷ dashed ns (drop n text)

-- `str(u)`
unfoldable pub uuid_text : ℕ → Str
unfolding dashed to_hex
uuid_text u = dashed (8 ∷ 4 ∷ 4 ∷ 4 ∷ []) (to_hex (to_bytes 16 u))

-- `text.replace("-", "")`
unfoldable pub without_dashes : Str → Str
without_dashes [] = []
without_dashes (c ∷ cs) = let rest = without_dashes cs in if c == 45 then rest else c ∷ rest

-- `uuid.UUID(text)`: the text is 32 hexadecimal digits, dashes aside.
unfoldable pub uuid_of : Str → Result ℕ
unfolding without_dashes from_hex
uuid_of text =
    guard (length (without_dashes text) == 32) Error.value_error
    >> from_hex (without_dashes text)
    >>= λ bs. ok (from_bytes bs)

-- `sorted`, under an order of its elements.
module _ {A : Type 0} (le : A → A → Bool) where
  unfoldable pub insert_by : A → List A → List A
  insert_by x [] = x ∷ []
  insert_by x (y ∷ ys) = let rest = insert_by x ys in if le x y then x ∷ y ∷ ys else y ∷ rest

  unfoldable pub sort_by : List A → List A
  unfolding insert_by
  sort_by [] = []
  sort_by (x ∷ xs) = insert_by x (sort_by xs)

-- `<=` on strings
abbrev pub text_le : Str → Str → Bool
text_le [] ys = true
text_le (x ∷ xs) [] = false
text_le (x ∷ xs) (y ∷ ys) = if x == y then text_le xs ys else ltb x y
