-- ===== src/Examples/Registry.antt =====
-- Runs of the registry's transitions over a table of two credentials.
use secupload.Base.{
  ℕ, ◌==◌, ◌≡◌, refl, arith, if◌then◌else◌, none, some, [], ◌∷◌, Bool-cases, inl, inr, replicate,
}
use secupload.Base.Dict.{lookup}
use secupload.Rotation.{RotationEngine}
use secupload.Rotation.Commands.{run, new, new-IsValid}
use secupload.Rotation.Counts.{count}
use secupload.Rotation.Valid.{IsValid}
use secupload.Rotation.Uniqueness.{IsValid-same}
use secupload.Server.Database.{Database, Purpose, find}
use secupload.Server.Registry.{row_of, row_to_public, load_engine, get_credential, expire_all}
use secupload.Server.Registry.Rows.{UniqueRows}
use secupload.Server.Registry.Persistence.{get-load_engine, Keyed-load_engine}
use secupload.Server.Registry.Transactions.{Transition, perform}
use secupload.Server.Registry.Commits.{command}
use secupload.Server.Registry.Refinement.{IsSound, transition_refines_engine}
use secupload.Server.Registry.Recovery.{registry-IsSound}
use secupload.Server.Registry.Enrollment.{enroll}
use secupload.Models.{IdentityKind}
use secupload.Examples.Data.{prim, params, second, third}

-- An active credential and its successor.
abbrev pub database : Database
database = record {
  clients = 7 ∷ [];
  proxies = [];
  credentials = row_of second ∷ row_of third ∷ [];
  permissions = [];
  objects = [];
  audit_events = [];
  enrollment_tokens = [];
  wall_clock = 100;
}

abbrev waiting : RotationEngine
waiting = record { params = params; creds = (2, second) ∷ (3, third) ∷ [] }

waiting-IsValid : IsValid waiting
unfolding count
waiting-IsValid = record {
  keyed = (refl, refl, (refl, refl, tt));
  one_active = omega arith;
  one_fallback = omega arith;
  one_validating = omega arith;
}

rows-UniqueRows : UniqueRows database.credentials
unfolding find row_of
rows-UniqueRows = (refl, (refl, tt))

get-database :
    (u v : ℕ) → get_credential database u v ≡ (if u == 7 then lookup v waiting.creds else none)
unfolding get_credential find row_of row_to_public
get-database u v = ground arith

pub database-IsSound : IsSound params database
database-IsSound = record {
  unique = rows-UniqueRows;
  engines = λ u e loaded.
      let keyed = Keyed-load_engine params database u e loaded in
      let read : (v : ℕ) → lookup v e.creds ≡ get_credential database u v =
        λ v. get-load_engine params database u v e rows-UniqueRows loaded in
      elim (Bool-cases (u == 7)) [
        | inl same ↦
            IsValid-same waiting e keyed (λ v. ground (arith, read v, get-database u v, same))
              waiting-IsValid
        | inr other ↦
            IsValid-same (new params) e keyed (λ v. ground (arith, read v, get-database u v, other))
              (new-IsValid params)
      ];
}

promoted : (perform prim params 7 (Transition.promoting 80) database).0 ≡ none
unfolding perform secupload.Server.Registry.checkpoint secupload.Server.Database.order_by
    secupload.Server.Database.filter secupload.Rotation.checkpoint secupload.Rotation.by_status
    secupload.Rotation.load
promoted = refl

transition_refines_engine_example :
    (e : RotationEngine) × (load_engine params database 7 ≡ some e)
    × ((w v : ℕ)
        → get_credential (perform prim params 7 (Transition.promoting 80) database).1 w v ≡ (
            if w == 7
            then lookup v (run prim (command 7 (Transition.promoting 80)) e).creds
            else get_credential database w v))
transition_refines_engine_example =
    transition_refines_engine prim params database 7 (Transition.promoting 80) database-IsSound
      promoted

-- A token that waits for its use.
abbrev with_token : Database
with_token = record database {
  enrollment_tokens =
      (record {
        token_hash = replicate 32 0;
        purpose = Purpose.enroll;
        identity_kind = IdentityKind.client;
        identity_uuid = none;
        expires_at = 500;
        used_at = none;
      })
      ∷ [];
}

with_token-IsSound : IsSound params with_token
unfolding load_engine
with_token-IsSound = record {
  unique = database-IsSound.unique;
  engines = λ u e loaded. database-IsSound.engines u e loaded;
}

registry-IsSound_example :
    IsSound params (perform prim params 7 (Transition.promoting 80) with_token).1
    × IsSound params
        (enroll
          (λ b. replicate 32 0)
          params
          9
          IdentityKind.client
          (b'a' ∷ [])
          1
          (5 ∷ [])
          (6 ∷ [])
          (some 80)
          with_token).1
    × IsSound params (expire_all (λ us. us) params 400 with_token).1
registry-IsSound_example =
    registry-IsSound prim (λ b. replicate 32 0) (λ us. us) params with_token 7 9
      (Transition.promoting 80) IdentityKind.client (b'a' ∷ []) 1 (5 ∷ []) (6 ∷ []) (some 80) 400
      with_token-IsSound
