-- ===== src/Codec/Text/Reading.antt =====
-- What `int`, `fromhex` and `uuid.UUID` read of the texts that `str` and `hex` write.
use secupload.Base.{
  ℕ, zero, suc, ◌+◌, ◌*◌, ◌-◌, ◌/◌, ◌%◌, ◌^◌, ◌<◌, ◌≡◌, ◌≢◌, ltb, Bool, false, List, [], ◌∷◌, ◌++◌,
  map, take, drop, length, Bytes, All, refl, arith, ap, ◌∙◌, Bool-cases, inl, inr,
}
use secupload.Base.Result.{ok, ◌>>=◌}
use secupload.Codec.Digits.{to_bytes, length-to_bytes, from_bytes-to_bytes}
use secupload.Codec.Utf8.{Str}
use secupload.Codec.Text.{
  decimal, digit_char, str_of, digits_from, int_of, hex_char, hex_value, to_hex, is_space, from_hex,
  dashed, uuid_text, without_dashes, uuid_of, insert_by, sort_by,
}

-- A list of numbers below 256.
abbrev pub IsBytes : Bytes → Type 0
IsBytes = All (λ b. b < 256)

digits_from-append :
    (acc : ℕ) (xs ys : Str)
    → digits_from acc (xs ++ ys) ≡ (digits_from acc xs >>= λ n. digits_from n ys)
unfolding digits_from
digits_from-append acc [] ys = refl
digits_from-append acc (c ∷ xs) ys = ground (arith, digits_from-append (acc * 10 + (c - 48)) xs ys)

map-append : (f : ℕ → ℕ) (xs ys : List ℕ) → map f (xs ++ ys) ≡ map f xs ++ map f ys
map-append f [] ys = refl
map-append f (x ∷ xs) ys = ap (◌∷◌ (f x)) (map-append f xs ys)

digits_from-decimal :
    (fuel n : ℕ) → n < fuel → digits_from 0 (map digit_char (decimal fuel n)) ≡ ok n
unfolding digits_from decimal
digits_from-decimal zero n h = absurd (omega arith)
digits_from-decimal (suc fuel) n h = elim (Bool-cases (ltb n 10)) [
  | inl digit ↦ ground arith
  | inr larger ↦
      let higher = decimal fuel (n / 10) in
      let read = digits_from-decimal fuel (n / 10) (ground arith) in
      let split = map-append digit_char higher (n % 10 ∷ []) in
      ground (
        arith,
        split,
        digits_from-append 0 (map digit_char higher) (digit_char (n % 10) ∷ []),
        read,
      )
]

int_of-snoc : (xs : Str) (c : ℕ) → int_of (xs ++ c ∷ []) ≡ digits_from 0 (xs ++ c ∷ [])
unfolding int_of
int_of-snoc [] c = refl
int_of-snoc (x ∷ xs) c = refl

pub int_of-str_of : (n : ℕ) → int_of (str_of n) ≡ ok n
unfolding int_of str_of decimal digits_from
int_of-str_of n = elim (Bool-cases (ltb n 10)) [
  | inl digit ↦ ground arith
  | inr larger ↦
      let higher = decimal n (n / 10) in
      let split = map-append digit_char higher (n % 10 ∷ []) in
      ground (
        arith,
        split,
        int_of-snoc (map digit_char higher) (digit_char (n % 10)),
        digits_from-append 0 (map digit_char higher) (digit_char (n % 10) ∷ []),
        digits_from-decimal n (n / 10) (ground arith),
      )
]

hex_value-hex_char : (d : ℕ) → d < 16 → hex_value (hex_char d) ≡ ok d
hex_value-hex_char d h = ground arith

hex_char-dark : (d : ℕ) → d < 16 → is_space (hex_char d) ≡ false
hex_char-dark d h = ground arith

pub from_hex-to_hex : (bs : Bytes) → IsBytes bs → from_hex (to_hex bs) ≡ ok bs
unfolding from_hex to_hex
from_hex-to_hex [] h = refl
from_hex-to_hex (b ∷ bs) h =
    let dark = hex_char-dark (b / 16) (ground (arith, h.0)) in
    let high = hex_value-hex_char (b / 16) (ground (arith, h.0)) in
    let low = hex_value-hex_char (b % 16) (omega arith) in
    let same : b / 16 * 16 + b % 16 ≡ b = omega arith in
    rw (dark, from_hex, high, low, from_hex-to_hex bs h.1, same) refl

-- A list of numbers other than that of the dash.
abbrev NoDash : Str → Type 0
NoDash = All (λ c. c ≢ 45)

without_dashes-append :
    (xs ys : Str) → without_dashes (xs ++ ys) ≡ without_dashes xs ++ without_dashes ys
unfolding without_dashes
without_dashes-append [] ys = refl
without_dashes-append (x ∷ xs) ys = ground (arith, without_dashes-append xs ys)

without_dashes-NoDash : (xs : Str) → NoDash xs → without_dashes xs ≡ xs
unfolding without_dashes
without_dashes-NoDash [] h = refl
without_dashes-NoDash (x ∷ xs) h = ground (arith, h.0, without_dashes-NoDash xs h.1)

NoDash-take : (n : ℕ) (xs : Str) → NoDash xs → NoDash (take n xs)
NoDash-take zero xs h = tt
NoDash-take (suc n) [] h = tt
NoDash-take (suc n) (x ∷ xs) h = (h.0, NoDash-take n xs h.1)

NoDash-drop : (n : ℕ) (xs : Str) → NoDash xs → NoDash (drop n xs)
NoDash-drop zero xs h = h
NoDash-drop (suc n) [] h = tt
NoDash-drop (suc n) (x ∷ xs) h = NoDash-drop n xs h.1

take-then-drop : (n : ℕ) (xs : Str) → take n xs ++ drop n xs ≡ xs
take-then-drop zero xs = refl
take-then-drop (suc n) [] = refl
take-then-drop (suc n) (x ∷ xs) = ap (◌∷◌ x) (take-then-drop n xs)

without_dashes-dashed : (ns : List ℕ) (xs : Str) → NoDash xs → without_dashes (dashed ns xs) ≡ xs
unfolding dashed without_dashes
without_dashes-dashed [] xs h = without_dashes-NoDash xs h
without_dashes-dashed (n ∷ ns) xs h =
    without_dashes-append (take n xs) (45 ∷ dashed ns (drop n xs))
    ∙ ap (λ p. p ++ without_dashes (dashed ns (drop n xs)))
        (without_dashes-NoDash (take n xs) (NoDash-take n xs h))
    ∙ ap (λ q. take n xs ++ q) (without_dashes-dashed ns (drop n xs) (NoDash-drop n xs h))
    ∙ take-then-drop n xs

hex_char-NoDash : (d : ℕ) → hex_char d ≢ 45
hex_char-NoDash d = ground arith

NoDash-to_hex : (bs : Bytes) → NoDash (to_hex bs)
unfolding to_hex
NoDash-to_hex [] = tt
NoDash-to_hex (b ∷ bs) = (hex_char-NoDash (b / 16), (hex_char-NoDash (b % 16), NoDash-to_hex bs))

length-to_hex : (bs : Bytes) → length (to_hex bs) ≡ 2 * length bs
unfolding to_hex
length-to_hex [] = refl
length-to_hex (b ∷ bs) = omega (arith, length-to_hex bs)

IsBytes-append : (xs ys : Bytes) → IsBytes xs → IsBytes ys → IsBytes (xs ++ ys)
IsBytes-append [] ys hx hy = hy
IsBytes-append (x ∷ xs) ys hx hy = (hx.0, IsBytes-append xs ys hx.1 hy)

IsBytes-to_bytes : (n v : ℕ) → IsBytes (to_bytes n v)
unfolding to_bytes
IsBytes-to_bytes zero v = tt
IsBytes-to_bytes (suc n) v =
    IsBytes-append (to_bytes n (v / 256)) (v % 256 ∷ []) (IsBytes-to_bytes n (v / 256))
      (omega arith, tt)

pub uuid_of-uuid_text : (u : ℕ) → u < 256 ^ 16 → uuid_of (uuid_text u) ≡ ok u
unfolding uuid_of uuid_text
uuid_of-uuid_text u h =
    let bs = to_bytes 16 u in
    let plain : without_dashes (uuid_text u) ≡ to_hex bs =
      without_dashes-dashed (8 ∷ 4 ∷ 4 ∷ 4 ∷ []) (to_hex bs) (NoDash-to_hex bs) in
    let size : length (to_hex bs) ≡ 32 =
      length-to_hex bs ∙ ap (λ n. 2 * n) (length-to_bytes 16 u) in
    rw (plain, size, from_hex-to_hex bs (IsBytes-to_bytes 16 u), from_bytes-to_bytes 16 u h) refl

-- Sorting by an order of images is sorting, and then taking the images.
module _ {A B : Type 0} (le : A → A → Bool) (le1 : B → B → Bool) (f : A → B)
    (agree : (x y : A) → le1 (f x) (f y) ≡ le x y) where
  insert_by-map : (x : A) (xs : List A) → insert_by le1 (f x) (map f xs) ≡ map f (insert_by le x xs)
  unfolding insert_by
  insert_by-map x [] = refl
  insert_by-map x (y ∷ ys) = elim (Bool-cases (le x y)) [
    | inl before ↦ rw (insert_by, agree x y, before) refl
    | inr after ↦ rw (insert_by, agree x y, after, insert_by-map x ys) refl
  ]

  pub sort_by-map : (xs : List A) → sort_by le1 (map f xs) ≡ map f (sort_by le xs)
  unfolding sort_by
  sort_by-map [] = refl
  sort_by-map (x ∷ xs) = ap (insert_by le1 (f x)) (sort_by-map xs) ∙ insert_by-map x (sort_by le xs)
