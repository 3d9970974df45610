-- ===== src/Rotation/Valid.antt =====
-- The well-formedness of an engine: at most one credential in each status of the window; and what a
-- write of one credential does to it.
use secupload.Base.{
  ℕ, ◌+◌, ◌≤◌, ◌==◌, ◌≡◌, ◌≢◌, ◌⊎◌, refl, arith, true, none, some, [], ◌∷◌, inl, inr,
}
use secupload.Base.Dict.{lookup, lookup_beyond_max, max_key}
use secupload.Models.{CredentialStatus, CredentialPublic, status_code}
use secupload.Rotation.{Creds, RotationEngine, store, is_empty, versions_in_window}
use secupload.Rotation.Counts.{
  one, count, Keyed, count-insert, count-insert_new, Keyed-insert, window_size-eq-counts,
}

abbrev pub A : CredentialStatus
A = CredentialStatus.active

abbrev pub F : CredentialStatus
F = CredentialStatus.fallback

abbrev pub V : CredentialStatus
V = CredentialStatus.validating

pub record IsValid (e : RotationEngine) : Type 0 where
  pub keyed : Keyed e.creds
  pub one_active : count CredentialStatus.active e.creds ≤ 1
  pub one_fallback : count CredentialStatus.fallback e.creds ≤ 1
  pub one_validating : count CredentialStatus.validating e.creds ≤ 1

pub IsValid-window : (e : RotationEngine) → IsValid e → versions_in_window e ≤ 3
unfolding versions_in_window
IsValid-window e h = omega (arith, window_size-eq-counts e.creds)

pub Keyed-version :
    (v : ℕ) (c : CredentialPublic) (d : Creds) → Keyed d → lookup v d ≡ some c → c.version ≡ v
Keyed-version v c [] h e = absurd (ground arith)
Keyed-version v c ((k, w) ∷ d) h e = ground (arith, Keyed-version v c d h.2)

-- A credential has one status.
one_excludes :
    (s t : CredentialStatus) (c : CredentialPublic)
    → status_code s ≢ status_code t
    → one s c ≡ 1
    → one t c ≡ 0
one_excludes s t c ne h = ground arith

-- Credentials of different statuses stand under different versions.
pub versions_differ :
    (s t : CredentialStatus) (a b : CredentialPublic) (d : Creds)
    → status_code s ≢ status_code t
    → lookup a.version d ≡ some a
    → lookup b.version d ≡ some b
    → one s a ≡ 1
    → one t b ≡ 1
    → a.version ≢ b.version
versions_differ s t a b d ne ha hb oa ob e = ground (arith, ap_lookup)
  where
    ap_lookup : lookup a.version d ≡ lookup b.version d
    ap_lookup = rw e

-- A write under a new version, and one that replaces a credential.
module _ (e : RotationEngine) (c : CredentialPublic) (h : IsValid e) where
  pub store_new-IsValid :
      lookup c.version e.creds ≡ none
      → count A e.creds + one A c ≤ 1
      → count F e.creds + one F c ≤ 1
      → count V e.creds + one V c ≤ 1
      → IsValid (store e c.version c)
  store_new-IsValid new a f v = record {
    keyed = Keyed-insert c.version c e.creds h.keyed refl;
    one_active = omega (arith, count-insert_new A c.version c e.creds new);
    one_fallback = omega (arith, count-insert_new F c.version c e.creds new);
    one_validating = omega (arith, count-insert_new V c.version c e.creds new);
  }

  pub store_old-IsValid :
      (old : CredentialPublic)
      → lookup c.version e.creds ≡ some old
      → count A e.creds + one A c ≤ 1 + one A old
      → count F e.creds + one F c ≤ 1 + one F old
      → count V e.creds + one V c ≤ 1 + one V old
      → IsValid (store e c.version c)
  store_old-IsValid old found a f v = record {
    keyed = Keyed-insert c.version c e.creds h.keyed refl;
    one_active = omega (arith, count-insert A c.version c old e.creds found);
    one_fallback = omega (arith, count-insert F c.version c old e.creds found);
    one_validating = omega (arith, count-insert V c.version c old e.creds found);
  }

  -- A replacement by a status outside the window.
  pub retire-IsValid :
      (old : CredentialPublic)
      → lookup c.version e.creds ≡ some old
      → one A c ≡ 0
      → one F c ≡ 0
      → one V c ≡ 0
      → IsValid (store e c.version c)
  retire-IsValid old found a f v =
      store_old-IsValid old found (omega arith) (omega arith) (omega arith)

-- The version that the tests of a new credential let through is new.
pub fresh_version :
    (v : ℕ) (d : Creds) → (is_empty d ≡ true) ⊎ ((v == max_key d + 1) ≡ true) → lookup v d ≡ none
fresh_version v [] h = refl
fresh_version v (x ∷ d) (inl p) = cc
fresh_version v (x ∷ d) (inr p) = lookup_beyond_max v (x ∷ d) (ground arith)
