-- ===== src/Codec/Digits.antt =====
-- Big-endian digits: what `struct` does with the formats B, H, I, Q and q, and `int.to_bytes`.
use native.Mathlib.Nat.{pow-suc}
use secupload.Base.{
  Bool, true, ℕ, zero, suc, ◌+◌, ◌*◌, ◌/◌, ◌%◌, ◌^◌, ◌-◌, ◌<◌, ◌≡◌, refl, arith, ltb, if◌then◌else◌,
  [], ◌∷◌, ◌++◌, length, length-append, Bytes, ◌∙◌,
}
use secupload.Base.Int.{ℤ, pos, negsuc}

-- The `n` low bytes of a number, the highest first.
unfoldable pub to_bytes : ℕ → ℕ → Bytes
to_bytes zero v = []
to_bytes (suc n) v = to_bytes n (v / 256) ++ v % 256 ∷ []

-- `int.from_bytes(b, "big")`
unfoldable from_bytes_acc : ℕ → Bytes → ℕ
from_bytes_acc acc [] = acc
from_bytes_acc acc (b ∷ bs) = from_bytes_acc (acc * 256 + b) bs

unfoldable pub from_bytes : Bytes → ℕ
unfolding from_bytes_acc
from_bytes = from_bytes_acc 0

pub length-to_bytes : (n v : ℕ) → length (to_bytes n v) ≡ n
unfolding to_bytes
length-to_bytes zero v = refl
length-to_bytes (suc n) v =
    omega (arith, length-append (to_bytes n (v / 256)) (v % 256 ∷ []), length-to_bytes n (v / 256))

from_bytes_acc-snoc :
    (acc : ℕ) (bs : Bytes) (b : ℕ)
    → from_bytes_acc acc (bs ++ b ∷ []) ≡ from_bytes_acc acc bs * 256 + b
unfolding from_bytes_acc
from_bytes_acc-snoc acc [] b = refl
from_bytes_acc-snoc acc (c ∷ bs) b = from_bytes_acc-snoc (acc * 256 + c) bs b

-- A number that fits is read back.
pub from_bytes-to_bytes : (n v : ℕ) → v < 256 ^ n → from_bytes (to_bytes n v) ≡ v
unfolding from_bytes to_bytes
from_bytes-to_bytes zero v h = omega arith
from_bytes-to_bytes (suc n) v h =
    let h' : v < 256 ^ n * 256 = subst_lt h in
    from_bytes_acc-snoc 0 (to_bytes n (v / 256)) (v % 256)
    ∙ omega (arith, from_bytes-to_bytes n (v / 256) (omega arith))
  where
    subst_lt : v < 256 ^ suc n → v < 256 ^ n * 256
    subst_lt p = omega (arith, pow-suc 256 n)

-- The two's complement of 64 bits.
unfoldable pub to_signed : ℤ → ℕ
to_signed (pos n) = n
to_signed (negsuc n) = 2 ^ 64 - 1 - n

unfoldable pub of_signed : ℕ → ℤ
of_signed u = if ltb u (2 ^ 63) then pos u else negsuc (2 ^ 64 - 1 - u)

-- The range of the format q.
unfoldable pub fits_i64 : ℤ → Bool
fits_i64 (pos n) = ltb n (2 ^ 63)
fits_i64 (negsuc n) = ltb n (2 ^ 63)

pub of_signed-to_signed : (v : ℤ) → fits_i64 v ≡ true → of_signed (to_signed v) ≡ v
unfolding of_signed to_signed fits_i64
of_signed-to_signed (pos n) h = ground arith
of_signed-to_signed (negsuc n) h = ground arith

pub to_signed-lt : (v : ℤ) → fits_i64 v ≡ true → to_signed v < 256 ^ 8
unfolding to_signed fits_i64
to_signed-lt (pos n) h = ground arith
to_signed-lt (negsuc n) h = ground arith
