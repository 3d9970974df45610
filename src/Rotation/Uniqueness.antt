-- ===== src/Rotation/Uniqueness.antt =====
-- shared/sih_shared/credential_state.py: an engine's well-formedness as a property of its lookups, so of
-- any dict that answers them alike.
use secupload.Base.{ℕ, ◌≤◌, ◌≡◌, arith, none, some, Option-cases, inl, inr, ◌∙◌, sym, ◌∷◌, []}
use secupload.Base.Dict.{lookup}
use secupload.Models.{CredentialPublic, CredentialStatus}
use secupload.Rotation.{RotationEngine, Creds, by_status}
use secupload.Rotation.Valid.{IsValid, Keyed-version}
use secupload.Rotation.Counts.{Keyed, count, one, by_status_found, by_status-none, by_status_unique}

-- At most one credential has a status, where any two that have it stand under one version.
abbrev AtMostOne : CredentialStatus → Creds → Type 0
AtMostOne s d =
    (v w : ℕ) (a b : CredentialPublic)
    → lookup v d ≡ some a
    → lookup w d ≡ some b
    → one s a ≡ 1
    → one s b ≡ 1
    → v ≡ w

AtMostOne-count : (s : CredentialStatus) (d : Creds) → Keyed d → count s d ≤ 1 → AtMostOne s d
AtMostOne-count s d keyed h v w a b there_a there_b is_a is_b = ground (
  arith,
  by_status_unique s v a d h there_a is_a,
  by_status_unique s w b d h there_b is_b,
  Keyed-version v a d keyed there_a,
  Keyed-version w b d keyed there_b,
)

AtMostOne-tail :
    (s : CredentialStatus) (k : ℕ) (c : CredentialPublic) (d : Creds)
    → lookup k d ≡ none
    → AtMostOne s ((k, c) ∷ d)
    → AtMostOne s d
AtMostOne-tail s k c d fresh h v w a b there_a there_b is_a is_b =
    h v w a b (there v a there_a) (there w b there_b) is_a is_b
  where
    there : (v : ℕ) (a : CredentialPublic) → lookup v d ≡ some a → lookup v ((k, c) ∷ d) ≡ some a
    there v a found = ground arith

count-AtMostOne : (s : CredentialStatus) (d : Creds) → Keyed d → AtMostOne s d → count s d ≤ 1
unfolding count
count-AtMostOne s [] keyed h = omega arith
count-AtMostOne s ((k, c) ∷ d) keyed h = elim (Option-cases (by_status s d)) [
  | inl absent ↦ ground (arith, by_status-none s d absent)
  | inr (b, found) ↦
      let (there, is) = by_status_found s b d keyed.2 found in
      let rest = count-AtMostOne s d keyed.2 (AtMostOne-tail s k c d keyed.1 h) in
      ground (arith, h k b.version c b, keyed.1)
]

-- An engine that answers every lookup as a well-formed one does is well-formed.
pub IsValid-same :
    (e e1 : RotationEngine)
    → Keyed e1.creds
    → ((v : ℕ) → lookup v e1.creds ≡ lookup v e.creds)
    → IsValid e
    → IsValid e1
IsValid-same e e1 keyed same h = record {
  keyed = keyed;
  one_active = one_of CredentialStatus.active h.one_active;
  one_fallback = one_of CredentialStatus.fallback h.one_fallback;
  one_validating = one_of CredentialStatus.validating h.one_validating;
}
  where
    one_of : (s : CredentialStatus) → count s e.creds ≤ 1 → count s e1.creds ≤ 1
    one_of s le = count-AtMostOne s e1.creds keyed (λ v w a b there_a there_b.
        AtMostOne-count s e.creds h.keyed le v w a b (sym (same v) ∙ there_a)
          (sym (same w) ∙ there_b))
