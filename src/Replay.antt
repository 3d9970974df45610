-- ===== src/Replay.antt =====
-- shared/sih_shared/replay.py: the bounded cache of message keys, and the timestamp window.
pub mod Recency
pub mod Window
use secupload.Base.{
  ℕ, zero, suc, ◌+◌, ◌-◌, ◌≤◌, ◌<◌, ◌≡◌, ◌≢◌, refl, arith, ltb, leb, ◌==◌, not, if◌then◌else◌, Bool,
  true, false, ◌&&◌, List, [], ◌∷◌, ◌++◌, length, length-append, Bytes, Option, none, some,
  Option-cases, Bool-cases, inl, inr, ◌⊎◌, ap, sym, ◌∙◌,
}
use secupload.Base.Int.{ℤ, pos, abs_diff}
use secupload.Base.Result.{Result, ok, err, Error}
use secupload.Models.{timestamp_window}
use secupload.Successor.{bytes_eq}

-- `_max`, and the keys of `_entries`, the oldest first.
pub record ReplayCache : Type 0 where
  pub max_entries : ℕ
  pub entries : List Bytes

-- `ReplayCache(max_entries)`
unfoldable init : ℕ → Result ReplayCache
init max_entries =
    if leb max_entries 0
    then err Error.value_error
    else ok (record { max_entries = max_entries; entries = [] })

unfoldable pub contains : Bytes → List Bytes → Bool
contains key [] = false
contains key (x ∷ xs) = if bytes_eq key x then true else contains key xs

unfoldable pub remove : Bytes → List Bytes → List Bytes
remove key [] = []
remove key (x ∷ xs) = if bytes_eq key x then xs else x ∷ remove key xs

-- `popitem(last=False)`
abbrev pub pop_first : List Bytes → List Bytes
pop_first [] = []
pop_first (x ∷ xs) = xs

unfoldable pub check_and_add : Bytes → ReplayCache → Bool × ReplayCache
unfolding contains remove
check_and_add key c =
    if contains key c.entries
    then (false, record c { entries = remove key c.entries ++ key ∷ [] })
    else let added = c.entries ++ key ∷ [] in
      (
        true,
        record c { entries = if ltb c.max_entries (length added) then pop_first added else added },
      )

unfoldable pub timestamp_ok : ℤ → ℕ → ℕ → Bool
timestamp_ok timestamp now window = leb (abs_diff (pos now) timestamp) window

-- The request's id has no part in the key.
unfoldable pub envelope_replay_key : Bytes → Bytes → Bytes → Bytes
envelope_replay_key sender_uuid request_id nonce = sender_uuid ++ nonce
