-- ===== src/Replay/Window.antt =====
-- The cache never grows past its size, and a key stays known until that many others came after it.
use secupload.Base.{
  ℕ, suc, ◌+◌, ◌-◌, ◌≤◌, ◌<◌, ◌≡◌, refl, arith, true, false, List, [], ◌∷◌, ◌++◌, length,
  length-append, Bytes, Option, none, some, Bool-cases, inl, inr,
}
use secupload.Replay.{ReplayCache, contains, remove, pop_first, check_and_add}
use secupload.Successor.{bytes_eq}
use secupload.Replay.Recency.{
  bytes_eq_sound, newer, AtMost, contains-newer, newer-snoc_self, newer-snoc, newer-remove,
  newer-readd, newer-pop_first,
}

-- The keys are distinct.
abbrev Distinct : List Bytes → Type 0
Distinct [] = Unit
Distinct (x ∷ xs) = (contains x xs ≡ false) × Distinct xs

-- The cache holds what its size allows, and no key twice.
pub record IsValid (c : ReplayCache) : Type 0 where
  pub positive : 0 < c.max_entries
  pub bounded : length c.entries ≤ c.max_entries
  pub distinct : Distinct c.entries

contains-remove :
    (z y : Bytes) (xs : List Bytes) → contains z xs ≡ false → contains z (remove y xs) ≡ false
unfolding contains remove
contains-remove z y [] h = refl
contains-remove z y (x ∷ xs) h = ground (arith, contains-remove z y xs)

contains-remove_self :
    (y : Bytes) (xs : List Bytes) → Distinct xs → contains y (remove y xs) ≡ false
unfolding contains remove
contains-remove_self y [] h = refl
contains-remove_self y (x ∷ xs) h = elim (Bool-cases (bytes_eq y x)) [
  | inl same ↦ rw (same, bytes_eq_sound y x same) h.0
  | inr apart ↦ rw (apart, apart) (contains-remove_self y xs h.1)
]

Distinct-remove : (y : Bytes) (xs : List Bytes) → Distinct xs → Distinct (remove y xs)
unfolding remove
Distinct-remove y [] h = tt
Distinct-remove y (x ∷ xs) h = ground (arith, Distinct-remove y xs h.1, contains-remove x y xs h.0)

contains-snoc :
    (z y : Bytes) (xs : List Bytes)
    → contains z xs ≡ false
    → bytes_eq z y ≡ false
    → contains z (xs ++ y ∷ []) ≡ false
unfolding contains
contains-snoc z y [] h ne = ground arith
contains-snoc z y (x ∷ xs) h ne = ground (arith, contains-snoc z y xs)

bytes_eq-sym : (a b : Bytes) → bytes_eq a b ≡ bytes_eq b a
bytes_eq-sym [] [] = refl
bytes_eq-sym [] (y ∷ b) = refl
bytes_eq-sym (x ∷ a) [] = refl
bytes_eq-sym (x ∷ a) (y ∷ b) = ground (arith, bytes_eq-sym a b)

Distinct-snoc :
    (y : Bytes) (xs : List Bytes) → Distinct xs → contains y xs ≡ false → Distinct (xs ++ y ∷ [])
unfolding contains
Distinct-snoc y [] h new = (refl, tt)
Distinct-snoc y (x ∷ xs) h new =
    ground (arith, Distinct-snoc y xs h.1, contains-snoc x y xs h.0, bytes_eq-sym x y)

length-remove :
    (y : Bytes) (xs : List Bytes) → contains y xs ≡ true → length (remove y xs) + 1 ≡ length xs
unfolding contains remove
length-remove y [] h = cc
length-remove y (x ∷ xs) h = ground (arith, length-remove y xs)

Distinct-pop_first : (xs : List Bytes) → Distinct xs → Distinct (pop_first xs)
Distinct-pop_first [] h = tt
Distinct-pop_first (x ∷ xs) h = h.1

length-pop_first : (xs : List Bytes) → length (pop_first xs) ≡ length xs - 1
length-pop_first [] = refl
length-pop_first (x ∷ xs) = omega arith

-- A check leaves a valid cache valid: of positive size, with no more keys than that and none twice.
pub check_and_add-IsValid :
    (key : Bytes) (c : ReplayCache) → IsValid c → IsValid (check_and_add key c).1
unfolding check_and_add
check_and_add-IsValid key c h = elim (Bool-cases (contains key c.entries)) [
  | inl old ↦
      rw (old, check_and_add)
        (record {
          positive = h.positive;
          bounded = omega (
            arith,
            h.bounded,
            length-append (remove key c.entries) (key ∷ []),
            length-remove key c.entries old,
          );
          distinct =
              Distinct-snoc key (remove key c.entries) (Distinct-remove key c.entries h.distinct)
                (contains-remove_self key c.entries h.distinct);
        })
  | inr new ↦
      let added = c.entries ++ key ∷ [] in
      let d = Distinct-snoc key c.entries h.distinct new in
      rw (new, check_and_add)
        (record {
          positive = h.positive;
          bounded =
              ground (arith, h.bounded, length-append c.entries (key ∷ []), length-pop_first added);
          distinct = ground (arith, d, Distinct-pop_first added d);
        })
]

-- The cache after a sequence of checks.
unfoldable pub check_all : List Bytes → ReplayCache → ReplayCache
check_all [] c = c
check_all (k ∷ ks) c = check_all ks (check_and_add k c).1

check_and_add-max_entries :
    (key : Bytes) (c : ReplayCache) → (check_and_add key c).1.max_entries ≡ c.max_entries
unfolding check_and_add
check_and_add-max_entries key c = ground arith

AtMost-weaken : (n m : ℕ) (o : Option ℕ) → n ≤ m → AtMost n o → AtMost m o
AtMost-weaken n m none le h = absurd h
AtMost-weaken n m (some d) le h = omega arith

-- One more check makes a key older by one at most.
newer-check_and_add :
    (n : ℕ) (key y : Bytes) (c : ReplayCache)
    → suc n < c.max_entries
    → AtMost n (newer key c.entries)
    → AtMost (suc n) (newer key (check_and_add y c).1.entries)
unfolding check_and_add
newer-check_and_add n key y c room h = elim (Bool-cases (contains y c.entries)) [
  | inl old ↦ elim (Bool-cases (bytes_eq y key)) [
    | inl same ↦
        rw (old, check_and_add, bytes_eq_sound y key same)
          (AtMost-weaken n (suc n) (newer key (remove key c.entries ++ key ∷ [])) (omega arith)
            (newer-readd n key c.entries h))
    | inr apart ↦
        rw (old, check_and_add)
          (newer-snoc n key y (remove y c.entries) (newer-remove n key y c.entries apart h))
  ]
  | inr new ↦
      let added = c.entries ++ y ∷ [] in
      let kept = newer-snoc n key y c.entries h in
      rw (new, check_and_add) (ground (arith, kept, newer-pop_first (suc n) key added))
]

newer-check_and_add_self :
    (key : Bytes) (c : ReplayCache)
    → IsValid c
    → AtMost 0 (newer key (check_and_add key c).1.entries)
unfolding check_and_add
newer-check_and_add_self key c h = elim (Bool-cases (contains key c.entries)) [
  | inl old ↦
      let found =
        newer-snoc_self key (remove key c.entries)
          (contains-remove_self key c.entries h.distinct) in
      rw (old, check_and_add) (rw found (omega arith))
  | inr new ↦
      let added = c.entries ++ key ∷ [] in
      let found = newer-snoc_self key c.entries new in
      let here : AtMost 0 (newer key added) = rw found (omega arith) in
      rw (new, check_and_add) (ground (arith, here, newer-pop_first 0 key added, h.positive))
]

newer-check_all :
    (n m : ℕ) (key : Bytes) (ks : List Bytes) (c : ReplayCache)
    → n + length ks ≤ m
    → m < c.max_entries
    → AtMost n (newer key c.entries)
    → AtMost m (newer key (check_all ks c).entries)
unfolding check_all
newer-check_all n m key [] c le room h = AtMost-weaken n m (newer key c.entries) (omega arith) h
newer-check_all n m key (k ∷ ks) c le room h =
    newer-check_all (suc n) m key ks (check_and_add k c).1 (omega (arith, le))
      (omega (arith, room, check_and_add-max_entries k c))
      (newer-check_and_add n key k c (omega (arith, le, room)) h)

check_and_add-contained :
    (key : Bytes) (c : ReplayCache)
    → contains key c.entries ≡ true
    → (check_and_add key c).0 ≡ false
unfolding check_and_add
check_and_add-contained key c h = rw (h, check_and_add) refl

-- A key that was checked in a valid cache is refused when it comes again, as long as fewer other
-- checks than the cache has places came between.
pub replay_rejected :
    (key : Bytes) (ks : List Bytes) (c : ReplayCache)
    → IsValid c
    → length ks < c.max_entries
    → (check_and_add key (check_all ks (check_and_add key c).1)).0 ≡ false
replay_rejected key ks c h room =
    let first = (check_and_add key c).1 in
    let last = check_all ks first in
    check_and_add-contained key last (
      contains-newer (length ks) key last.entries (
        newer-check_all 0 (length ks) key ks first (omega arith)
          (omega (arith, room, check_and_add-max_entries key c))
          (newer-check_and_add_self key c h)))
