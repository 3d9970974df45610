-- ===== src/Rotation/Edges.antt =====
-- The changes of a record that an operation can make: the edges of a credential's life cycle.
use secupload.Base.{
  ℕ, ◌==◌, ◌≡◌, refl, arith, Option, none, some, Bool-cases, inl, inr, subst, sym, ◌⊎◌,
}
use secupload.Base.Dict.{lookup, insert, lookup-insert}
use secupload.Models.{CredentialStatus, CredentialPublic, status_code}
use secupload.Rotation.{Creds, RotationEngine, store}
use secupload.Rotation.Counts.{one}

-- The edges of the state machine: stay, promotion, demotion, the end of a fallback, rollback,
-- expiration, and revocation from anywhere.
pub data Edge : CredentialStatus → CredentialStatus → Type 0 where
  stay : (s : CredentialStatus) → Edge s s
  promotion : Edge CredentialStatus.validating CredentialStatus.active
  demotion : Edge CredentialStatus.active CredentialStatus.fallback
  retirement : Edge CredentialStatus.fallback CredentialStatus.terminated
  rolled_back : Edge CredentialStatus.validating CredentialStatus.terminated
  active_expires : Edge CredentialStatus.active CredentialStatus.expired
  fallback_expires : Edge CredentialStatus.fallback CredentialStatus.expired
  validating_expires : Edge CredentialStatus.validating CredentialStatus.expired
  revocation : (s : CredentialStatus) → Edge s CredentialStatus.revoked

-- A record may change its status along an edge; its owner, version, keys, creation time and
-- validation deadline stay.
pub record Evolves (c c' : CredentialPublic) : Type 0 where
  pub edge : Edge c.status c'.status
  pub identity_uuid : c'.identity_uuid ≡ c.identity_uuid
  pub version : c'.version ≡ c.version
  pub ed25519_public : c'.ed25519_public ≡ c.ed25519_public
  pub x25519_public : c'.x25519_public ≡ c.x25519_public
  pub created_at : c'.created_at ≡ c.created_at
  pub validation_deadline : c'.validation_deadline ≡ c.validation_deadline

abbrev pub EvolvesTo : CredentialPublic → Option CredentialPublic → Type 0
EvolvesTo c none = ⊥
EvolvesTo c (some c') = Evolves c c'

-- Every credential of `d` is still in `d'`, changed along an edge at most.
abbrev pub Preserves : Creds → Creds → Type 0
Preserves d d' = (v : ℕ) (c : CredentialPublic) → lookup v d ≡ some c → EvolvesTo c (lookup v d')

pub unchanged : (c : CredentialPublic) → Evolves c c
unchanged c = record {
  edge = Edge.stay c.status;
  identity_uuid = refl;
  version = refl;
  ed25519_public = refl;
  x25519_public = refl;
  created_at = refl;
  validation_deadline = refl;
}

pub Preserves-refl : (d : Creds) → Preserves d d
Preserves-refl d v c h = rw h (unchanged c)

-- A write over a credential of the original dict, and one under a version that it lacks.
pub Preserves-insert :
    (d d' : Creds) (v : ℕ) (old c : CredentialPublic)
    → Preserves d d'
    → lookup v d ≡ some old
    → Evolves old c
    → Preserves d (insert v c d')
Preserves-insert d d' v old c p there ev w x h = elim (Bool-cases (w == v)) [
  | inl same ↦
      let e : old ≡ x = ground (arith, there, h, ap_lookup d w v (ground arith)) in
      rw (lookup-insert w v c d', same) (subst (λ y. Evolves y c) e ev)
  | inr other ↦ rw (lookup-insert w v c d', other) (p w x h)
]
  where
    ap_lookup : (d : Creds) (a b : ℕ) → a ≡ b → lookup a d ≡ lookup b d
    ap_lookup d a b e = rw e

Preserves-insert_new :
    (d : Creds) (v : ℕ) (c : CredentialPublic) → lookup v d ≡ none → Preserves d (insert v c d)
Preserves-insert_new d v c absent w x h = elim (Bool-cases (w == v)) [
  | inl same ↦ absurd (ground (arith, absent, h, ap_lookup d w v (ground arith)))
  | inr other ↦ rw (lookup-insert w v c d, other) (Preserves-refl d w x h)
]
  where
    ap_lookup : (d : Creds) (a b : ℕ) → a ≡ b → lookup a d ≡ lookup b d
    ap_lookup d a b e = rw e

status_of : (a b : CredentialStatus) → status_code a ≡ status_code b → a ≡ b
status_of CredentialStatus.generated CredentialStatus.generated h = refl
status_of a b h = ground arith

-- A change of the status and of the times only.
pub status_change :
    (c : CredentialPublic) (s : CredentialStatus)
    → Edge c.status s
    → (a x : Option ℕ)
    → Evolves c (record c { status = s; activation_time = a; expiration_time = x })
status_change c s edge a x = record {
  edge = edge;
  identity_uuid = refl;
  version = refl;
  ed25519_public = refl;
  x25519_public = refl;
  created_at = refl;
  validation_deadline = refl;
}

found_status : (s : CredentialStatus) (c : CredentialPublic) → one s c ≡ 1 → c.status ≡ s
found_status s c h = status_of c.status s (ground arith)

-- A credential that a search by status found changes along an edge from that status.
pub found-Evolves :
    (s t : CredentialStatus) (c : CredentialPublic)
    → one s c ≡ 1
    → Edge s t
    → (a x : Option ℕ)
    → Evolves c (record c { status = t; activation_time = a; expiration_time = x })
found-Evolves s t c h edge =
    status_change c t (subst (λ u. Edge u t) (sym (found_status s c h)) edge)

-- A call that can only add a credential: nothing changes, or a version that was not there comes in.
abbrev pub Adds : RotationEngine → RotationEngine → CredentialPublic → Type 0
Adds e e' c = (e' ≡ e) ⊎ ((lookup c.version e.creds ≡ none) × (e' ≡ store e c.version c))

pub Adds-Preserves :
    (e e' : RotationEngine) (c : CredentialPublic) → Adds e e' c → Preserves e.creds e'.creds
Adds-Preserves e e' c (inl same) = rw same (Preserves-refl e.creds)
Adds-Preserves e e' c (inr (new, added)) = rw added (Preserves-insert_new e.creds c.version c new)
