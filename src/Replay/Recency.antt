-- ===== src/Replay/Recency.antt =====
-- How many keys are newer than a key of the replay cache, and what a removal, an addition and an
-- eviction do to that.
use secupload.Base.{
  ℕ, suc, ◌≤◌, ◌<◌, ◌≡◌, refl, arith, if◌then◌else◌, true, false, List, [], ◌∷◌, ◌++◌, length,
  length-append, Bytes, Option, none, some, Bool-cases, inl, inr,
}
use secupload.Replay.{contains, remove, pop_first}
use secupload.Successor.{bytes_eq}

pub bytes_eq_sound : (a b : Bytes) → bytes_eq a b ≡ true → a ≡ b
bytes_eq_sound [] [] h = refl
bytes_eq_sound [] (y ∷ b) h = cc
bytes_eq_sound (x ∷ a) [] h = cc
bytes_eq_sound (x ∷ a) (y ∷ b) h = ground (arith, bytes_eq_sound a b)

bytes_eq_refl : (a : Bytes) → bytes_eq a a ≡ true
bytes_eq_refl [] = refl
bytes_eq_refl (x ∷ a) = ground (arith, bytes_eq_refl a)

-- How many entries are newer than the key.
unfoldable pub newer : Bytes → List Bytes → Option ℕ
newer key [] = none
newer key (x ∷ xs) = if bytes_eq key x then some (length xs) else newer key xs

-- The key is there, with at most `n` newer entries.
abbrev pub AtMost : ℕ → Option ℕ → Type 0
AtMost n none = ⊥
AtMost n (some d) = d ≤ n

pub contains-newer :
    (n : ℕ) (key : Bytes) (xs : List Bytes) → AtMost n (newer key xs) → contains key xs ≡ true
unfolding newer contains
contains-newer n key [] h = absurd h
contains-newer n key (x ∷ xs) h = ground (arith, contains-newer n key xs)

length-remove-le : (y : Bytes) (xs : List Bytes) → length (remove y xs) ≤ length xs
unfolding remove
length-remove-le y [] = omega arith
length-remove-le y (x ∷ xs) = ground (arith, length-remove-le y xs)

pub newer-snoc_self :
    (key : Bytes) (xs : List Bytes) → contains key xs ≡ false → newer key (xs ++ key ∷ []) ≡ some 0
unfolding newer contains
newer-snoc_self key [] h = ground (arith, bytes_eq_refl key)
newer-snoc_self key (x ∷ xs) h = ground (arith, newer-snoc_self key xs)

pub newer-snoc :
    (n : ℕ) (key y : Bytes) (xs : List Bytes)
    → AtMost n (newer key xs)
    → AtMost (suc n) (newer key (xs ++ y ∷ []))
unfolding newer
newer-snoc n key y [] h = absurd h
newer-snoc n key y (x ∷ xs) h = ground (arith, newer-snoc n key y xs, length-append xs (y ∷ []))

pub newer-remove :
    (n : ℕ) (key y : Bytes) (xs : List Bytes)
    → bytes_eq y key ≡ false
    → AtMost n (newer key xs)
    → AtMost n (newer key (remove y xs))
unfolding newer remove
newer-remove n key y [] ne h = absurd h
newer-remove n key y (x ∷ xs) ne h = elim (Bool-cases (bytes_eq key x)) [
  | inl same ↦
      let other : bytes_eq y x ≡ false = rw (← bytes_eq_sound key x same) ne in
      rw (other, same) (ground (arith, length-remove-le y xs, same))
  | inr apart ↦ elim (Bool-cases (bytes_eq y x)) [
    | inl gone ↦ rw gone (ground (arith, apart))
    | inr stays ↦ rw (stays, apart) (newer-remove n key y xs ne (ground (arith, apart)))
  ]
]

-- A key that is added again is found, whatever was there.
newer-snoc_le : (key : Bytes) (xs : List Bytes) → AtMost (length xs) (newer key (xs ++ key ∷ []))
unfolding newer
newer-snoc_le key [] = ground (arith, bytes_eq_refl key)
newer-snoc_le key (x ∷ xs) = ground (arith, newer-snoc_le key xs, length-append xs (key ∷ []))

pub newer-readd :
    (n : ℕ) (key : Bytes) (xs : List Bytes)
    → AtMost n (newer key xs)
    → AtMost n (newer key (remove key xs ++ key ∷ []))
unfolding newer remove
newer-readd n key [] h = absurd h
newer-readd n key (x ∷ xs) h = elim (Bool-cases (bytes_eq key x)) [
  | inl same ↦ rw same (ground (arith, newer-snoc_le key xs, same))
  | inr apart ↦ rw (apart, apart) (newer-readd n key xs (ground (arith, apart)))
]

pub newer-pop_first :
    (n : ℕ) (key : Bytes) (xs : List Bytes)
    → suc n < length xs
    → AtMost n (newer key xs)
    → AtMost n (newer key (pop_first xs))
unfolding newer
newer-pop_first n key [] l h = absurd h
newer-pop_first n key (x ∷ xs) l h = ground arith
