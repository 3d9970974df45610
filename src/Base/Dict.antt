-- ===== src/Base/Dict.antt =====
-- A Python dict keyed by numbers: an association list in insertion order.
use Prim.Native.Nat.{ℕ, ◌<◌, max}
use mathlib.Core.Path.{◌≡◌, refl}
use mathlib.Core.Option.{Option, none, some}
use mathlib.Core.List.{List, [], ◌∷◌}
use native.Mathlib.Omega.{arith}
use secupload.Base.Tests.{◌==◌, if◌then◌else◌}

abbrev pub Dict {ℓ} : Type ℓ → Type ℓ
Dict V = List (ℕ × V)

module _ {ℓ} {V : Type ℓ} where
  -- `d.get(k)`
  abbrev pub lookup : ℕ → Dict V → Option V
  lookup key [] = none
  lookup key ((j, w) ∷ rest) = if key == j then some w else lookup key rest

  -- `d[k] = v`: a key that is there keeps its place, a new one comes last.
  abbrev pub insert : ℕ → V → Dict V → Dict V
  insert k v [] = (k, v) ∷ []
  insert k v ((j, w) ∷ d) = if k == j then (j, v) ∷ d else (j, w) ∷ insert k v d

  pub lookup-insert :
      (j k : ℕ) (v : V) (d : Dict V)
      → lookup j (insert k v d) ≡ (if j == k then some v else lookup j d)
  lookup-insert j k v [] = ground arith
  lookup-insert j k v ((i, w) ∷ d) = ground (arith, lookup-insert j k v d)

  -- `max(d)`, with 0 for the empty dict.
  abbrev pub max_key : Dict V → ℕ
  max_key [] = 0
  max_key ((k, v) ∷ d) = max k (max_key d)

  pub lookup_beyond_max : (k : ℕ) (d : Dict V) → max_key d < k → lookup k d ≡ none
  lookup_beyond_max k [] h = refl
  lookup_beyond_max k ((j, v) ∷ d) h = ground (arith, lookup_beyond_max k d)
