-- ===== src/Codec/KeyFile.antt =====
-- server/sih_server/identity.py and client/sih_client/identity.py: the private keys as the JSON of a
-- file has them, under the text of the version, in hexadecimal. The text of a JSON value itself is
-- not modelled: the file is the value.
use secupload.Base.{ℕ, ◌≡◌, List, [], ◌∷◌, map, Bytes, Option, none, some, All, refl, arith, ◌∙◌}
use secupload.Base.Dict.{Dict, lookup, insert, lookup-insert}
use secupload.Base.Result.{Result, ok, err, Error, ◌>>=◌}
use secupload.Codec.Utf8.{Str}
use secupload.Codec.Text.{str_of, int_of, to_hex, from_hex}
use secupload.Codec.Text.Reading.{IsBytes, int_of-str_of, from_hex-to_hex}

-- The private keys of each version, (Ed25519, X25519).
abbrev pub Keys : Type 0
Keys = Dict (Bytes × Bytes)

-- `{"ed": …, "x": …}`, where either may be missing.
pub record KeyText : Type 0 where
  pub ed : Option Str
  pub x : Option Str

-- `p["ed"]`
abbrev pub member : {A : Type 0} → Option A → Result A
member none = err Error.key_error
member (some a) = ok a

unfoldable pub key_entry : ℕ × (Bytes × Bytes) → Str × KeyText
key_entry (v, (e, x)) = (str_of v, record { ed = some (to_hex e); x = some (to_hex x) })

-- The comprehension that writes; no two versions have the same text.
unfoldable pub write_keys : Keys → List (Str × KeyText)
unfolding key_entry
write_keys = map key_entry

-- `(bytes.fromhex(p["ed"]), bytes.fromhex(p["x"]))`
unfoldable pub read_pair : KeyText → Result (Bytes × Bytes)
read_pair p = member p.ed >>= from_hex >>= λ e. member p.x >>= from_hex >>= λ x. ok (e, x)

-- The comprehension that reads, into the dict that it has so far.
unfoldable pub read_keys : Keys → List (Str × KeyText) → Result Keys
unfolding read_pair
read_keys keys [] = ok keys
read_keys keys ((text, p) ∷ rest) =
    int_of text >>= λ v. read_pair p >>= λ pair. read_keys (insert v pair keys) rest

-- Every private key is a list of bytes.
abbrev pub ByteKeys : Keys → Type 0
ByteKeys = All (λ entry. IsBytes entry.1.0 × IsBytes entry.1.1)

-- No version comes twice.
abbrev pub DistinctKeys : Keys → Type 0
DistinctKeys [] = Unit
DistinctKeys ((k, p) ∷ d) = (lookup k d ≡ none) × DistinctKeys d

abbrev insert_all : Keys → Keys → Keys
insert_all keys [] = keys
insert_all keys ((k, p) ∷ d) = insert_all (insert k p keys) d

read_pair-key_entry :
    (e x : Bytes)
    → IsBytes e
    → IsBytes x
    → read_pair (record { ed = some (to_hex e); x = some (to_hex x) }) ≡ ok (e, x)
unfolding read_pair
read_pair-key_entry e x he hx = rw (from_hex-to_hex e he, from_hex-to_hex x hx) refl

read_keys-write_keys :
    (keys d : Keys) → ByteKeys d → read_keys keys (write_keys d) ≡ ok (insert_all keys d)
unfolding read_keys write_keys
read_keys-write_keys keys [] h = refl
read_keys-write_keys keys ((v, (e, x)) ∷ d) h =
    rw (int_of-str_of v, read_keys, read_pair-key_entry e x h.0.0 h.0.1)
      (read_keys-write_keys (insert v (e, x) keys) d h.1)

abbrev or_else : Option (Bytes × Bytes) → Option (Bytes × Bytes) → Option (Bytes × Bytes)
or_else none other = other
or_else (some p) other = some p

lookup-insert_all :
    (v : ℕ) (keys d : Keys)
    → DistinctKeys d
    → lookup v (insert_all keys d) ≡ or_else (lookup v d) (lookup v keys)
lookup-insert_all v keys [] h = refl
lookup-insert_all v keys ((k, p) ∷ d) h =
    ground (arith, lookup-insert_all v (insert k p keys) d, lookup-insert v k p keys, h.0)

or_else-none : (r : Option (Bytes × Bytes)) → or_else r none ≡ r
or_else-none none = refl
or_else-none (some p) = refl

-- The keys that are written are read back: the same pair under every version.
pub keys_read_back :
    (d : Keys)
    → ByteKeys d
    → DistinctKeys d
    → (keys : Keys) × (read_keys [] (write_keys d) ≡ ok keys)
      × ((v : ℕ) → lookup v keys ≡ lookup v d)
keys_read_back d bytes distinct = (
  insert_all [] d,
  read_keys-write_keys [] d bytes,
  λ v. lookup-insert_all v [] d distinct ∙ or_else-none (lookup v d),
)
