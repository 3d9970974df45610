-- ===== src/Rotation/Counts.antt =====
-- How many credentials of an engine have a status, and how the writes move that number.
use secupload.Base.{ℕ, ◌+◌, ◌≤◌, ◌≡◌, refl, arith, if◌then◌else◌, none, some, [], ◌∷◌}
use secupload.Base.Dict.{lookup, insert, lookup-insert}
use secupload.Models.{CredentialStatus, CredentialPublic, same_status, is_window}
use secupload.Rotation.{Creds, by_status, window_size}

abbrev pub one : CredentialStatus → CredentialPublic → ℕ
one s c = if same_status c.status s then 1 else 0

unfoldable pub count : CredentialStatus → Creds → ℕ
count s [] = 0
count s ((v, c) ∷ d) = one s c + count s d

-- Every entry stands under its own version, and no version twice.
abbrev pub Keyed : Creds → Type 0
Keyed [] = Unit
Keyed ((v, c) ∷ d) = (c.version ≡ v) × (lookup v d ≡ none) × Keyed d

pub count-insert :
    (s : CredentialStatus) (v : ℕ) (c old : CredentialPublic) (d : Creds)
    → lookup v d ≡ some old
    → count s (insert v c d) + one s old ≡ count s d + one s c
unfolding count
count-insert s v c old [] h = absurd (ground arith)
count-insert s v c old ((k, w) ∷ d) h = ground (arith, count-insert s v c old d)

pub count-insert_new :
    (s : CredentialStatus) (v : ℕ) (c : CredentialPublic) (d : Creds)
    → lookup v d ≡ none
    → count s (insert v c d) ≡ count s d + one s c
unfolding count
count-insert_new s v c [] h = omega arith
count-insert_new s v c ((k, w) ∷ d) h = ground (arith, count-insert_new s v c d)

pub Keyed-insert :
    (v : ℕ) (c : CredentialPublic) (d : Creds) → Keyed d → c.version ≡ v → Keyed (insert v c d)
Keyed-insert v c [] h e = (e, refl, tt)
Keyed-insert v c ((k, w) ∷ d) h e = ground (arith, Keyed-insert v c d h.2 e, lookup-insert k v c d)

-- What a search by status finds is in the dict, under its own version.
pub by_status_found :
    (s : CredentialStatus) (c : CredentialPublic) (d : Creds)
    → Keyed d
    → by_status s d ≡ some c
    → (lookup c.version d ≡ some c) × (one s c ≡ 1)
unfolding by_status
by_status_found s c [] h e = absurd (ground arith)
by_status_found s c ((k, w) ∷ d) h e = ground (arith, by_status_found s c d h.2)

pub by_status-none : (s : CredentialStatus) (d : Creds) → by_status s d ≡ none → count s d ≡ 0
unfolding by_status count
by_status-none s [] e = refl
by_status-none s ((k, w) ∷ d) e = ground (arith, by_status-none s d)

-- An entry with the status is counted.
one-le-count :
    (s : CredentialStatus) (v : ℕ) (c : CredentialPublic) (d : Creds)
    → lookup v d ≡ some c
    → one s c ≤ count s d
unfolding count
one-le-count s v c [] h = absurd (ground arith)
one-le-count s v c ((k, w) ∷ d) h = ground (arith, one-le-count s v c d)

-- Where at most one entry has the status, a search finds the one that is known.
pub by_status_unique :
    (s : CredentialStatus) (v : ℕ) (c : CredentialPublic) (d : Creds)
    → count s d ≤ 1
    → lookup v d ≡ some c
    → one s c ≡ 1
    → by_status s d ≡ some c
unfolding count by_status
by_status_unique s v c [] h there is = absurd (ground arith)
by_status_unique s v c ((k, w) ∷ d) h there is =
    ground (arith, by_status_unique s v c d, one-le-count s v c d)

-- A search fails where no entry has the status.
by_status_absent : (s : CredentialStatus) (d : Creds) → count s d ≡ 0 → by_status s d ≡ none
unfolding count by_status
by_status_absent s [] h = refl
by_status_absent s ((k, w) ∷ d) h = ground (arith, by_status_absent s d)

one_window :
    (c : CredentialPublic)
    → (if is_window c.status then 1 else 0)
      ≡ one CredentialStatus.active c
        + one CredentialStatus.fallback c
        + one CredentialStatus.validating c
one_window c = go c.status
  where
    go :
        (s : CredentialStatus)
        → (if is_window s then 1 else 0)
          ≡ (if same_status s CredentialStatus.active then 1 else 0)
            + (if same_status s CredentialStatus.fallback then 1 else 0)
            + (if same_status s CredentialStatus.validating then 1 else 0)
    go CredentialStatus.active = omega arith
    go _ = omega arith

-- The window is the sum over its three statuses.
pub window_size-eq-counts :
    (d : Creds)
    → window_size d
      ≡ count CredentialStatus.active d
        + count CredentialStatus.fallback d
        + count CredentialStatus.validating d
unfolding window_size count
window_size-eq-counts [] = omega arith
window_size-eq-counts ((v, c) ∷ d) = omega (arith, window_size-eq-counts d, one_window c)
